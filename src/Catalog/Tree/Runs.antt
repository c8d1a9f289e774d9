-- ===== src/Catalog/Tree/Runs.antt =====
-- Chunks without a gap, taken apart, put together and searched for a sequence number.
use mathlib.Core.Path.{subst}
use comb.Prelude.{
  ℕ, ◌+◌, ◌≤◌, ◌≡◌, refl, ap, some, List, [], ◌∷◌, ◌++◌, arith, leb, Bool-cases, inl, inr,
}
use comb.Catalog.Node.{CatalogChunkRef, leaf_span, last_of}
use comb.Catalog.Tree.{IsRun}

IsRun-append :
    (n : ℕ) (r : CatalogChunkRef) (refs : List CatalogChunkRef) (chunk : CatalogChunkRef)
    → IsRun n (r ∷ refs)
    → IsRun ((last_of r refs).last_seq + 1) (chunk ∷ [])
    → IsRun n ((r ∷ refs) ++ chunk ∷ [])
unfolding last_of
IsRun-append n r [] chunk (e, le, count, _) one = (e, le, count, one)
IsRun-append n r (s ∷ refs) chunk (e, le, count, run) one =
    (e, le, count, IsRun-append (r.last_seq + 1) s refs chunk run one)

pub IsRun-snoc :
    (refs : List CatalogChunkRef) (n f l c : ℕ) (chunk : CatalogChunkRef)
    → leaf_span refs ≡ some (f, l, c)
    → IsRun n refs
    → IsRun (l + 1) (chunk ∷ [])
    → IsRun n (refs ++ chunk ∷ [])
unfolding leaf_span
IsRun-snoc [] n f l c chunk h run one = absurd (ground (arith, h))
IsRun-snoc (r ∷ refs) n f l c chunk h run one =
    let last : l ≡ (last_of r refs).last_seq = ground (arith, h) in
    IsRun-append n r refs chunk run (subst (λ m. IsRun (m + 1) (chunk ∷ [])) last one)

-- A chunk of the list covers the sequence number.
abbrev pub Covered : ℕ → List CatalogChunkRef → Type 0
Covered seq refs =
    (before : List CatalogChunkRef) × (r : CatalogChunkRef) × (after : List CatalogChunkRef) × (refs
      ≡ before ++ r ∷ after)
    × (r.first_seq ≤ seq)
    × (seq ≤ r.last_seq)

IsRun-split :
    (n : ℕ) (r : CatalogChunkRef) (xs ys : List CatalogChunkRef)
    → IsRun n ((r ∷ xs) ++ ys)
    → IsRun n (r ∷ xs) × IsRun ((last_of r xs).last_seq + 1) ys
unfolding last_of
IsRun-split n r [] ys (e, le, count, run) = ((e, le, count, tt), run)
IsRun-split n r (x ∷ xs) ys (e, le, count, run) =
    let (mine, rest) = IsRun-split (r.last_seq + 1) x xs ys run in ((e, le, count, mine), rest)

pub IsRun-append-span :
    (n f l c : ℕ) (xs ys : List CatalogChunkRef)
    → leaf_span xs ≡ some (f, l, c)
    → IsRun n (xs ++ ys)
    → (f ≡ n) × IsRun n xs × IsRun (l + 1) ys
unfolding leaf_span
IsRun-append-span n f l c [] ys h run = absurd (ground (arith, h))
IsRun-append-span n f l c (x ∷ xs) ys h run =
    let (mine, rest) = IsRun-split n x xs ys run in
    let last : (last_of x xs).last_seq ≡ l = ground (arith, h) in
    (ground (arith, h, mine.0), mine, subst (λ m. IsRun (m + 1) ys) last rest)

IsRun-Covered :
    (seq n : ℕ) (r : CatalogChunkRef) (refs : List CatalogChunkRef)
    → IsRun n (r ∷ refs)
    → n ≤ seq
    → seq ≤ (last_of r refs).last_seq
    → Covered seq (r ∷ refs)
unfolding last_of
IsRun-Covered seq n r [] (e, le, count, _) low high = ([], r, [], refl, omega arith, high)
IsRun-Covered seq n r (s ∷ refs) (e, le, count, run) low high =
    elim (Bool-cases (leb seq r.last_seq)) [
      | inl b ↦ ([], r, s ∷ refs, refl, omega arith, ground (arith, b))
      | inr b ↦
          let (before, t, after, q, lo, hi) =
            IsRun-Covered seq (r.last_seq + 1) s refs run (ground (arith, b)) high in
          (r ∷ before, t, after, ap (λ l. r ∷ l) q, lo, hi)
    ]

pub run-Covered :
    (seq n f l c : ℕ) (refs : List CatalogChunkRef)
    → leaf_span refs ≡ some (f, l, c)
    → IsRun n refs
    → n ≤ seq
    → seq ≤ l
    → Covered seq refs
unfolding leaf_span
run-Covered seq n f l c [] h run low high = absurd (ground (arith, h))
run-Covered seq n f l c (r ∷ refs) h run low high =
    IsRun-Covered seq n r refs run low (ground (arith, h))

IsRun-le :
    (n : ℕ) (r : CatalogChunkRef) (refs : List CatalogChunkRef)
    → IsRun n (r ∷ refs)
    → n ≤ (last_of r refs).last_seq
unfolding last_of
IsRun-le n r [] (e, le, count, _) = omega arith
IsRun-le n r (s ∷ refs) (e, le, count, run) = omega (arith, IsRun-le (r.last_seq + 1) s refs run)

last-le :
    (n : ℕ) (r : CatalogChunkRef) (refs : List CatalogChunkRef)
    → IsRun n (r ∷ refs)
    → r.last_seq ≤ (last_of r refs).last_seq
unfolding last_of
last-le n r [] run = omega arith
last-le n r (s ∷ refs) (e, le, count, run) = omega (arith, IsRun-le (r.last_seq + 1) s refs run)

pub append-ne-nil {ℓ} : {T : Type ℓ} (xs : List T) (y : T) (ys : List T) → [] ≡ xs ++ y ∷ ys → ⊥
append-ne-nil [] y ys h = cc
append-ne-nil (x ∷ xs) y ys h = cc

member_bounds :
    (n : ℕ) (r : CatalogChunkRef) (refs before : List CatalogChunkRef) (t : CatalogChunkRef)
    (after : List CatalogChunkRef)
    → IsRun n (r ∷ refs)
    → r ∷ refs ≡ before ++ t ∷ after
    → (n ≤ t.first_seq) × (t.last_seq ≤ (last_of r refs).last_seq)
unfolding last_of
member_bounds n r refs [] t after run q =
    let same : r ≡ t = cc in
    subst (λ u. (n ≤ u.first_seq) × (u.last_seq ≤ (last_of r refs).last_seq)) same
      (let first = run.0 in omega arith, last-le n r refs run)
member_bounds n r [] (b ∷ before) t after run q =
    let nil : [] ≡ before ++ t ∷ after = cc in absurd (append-ne-nil before t after nil)
member_bounds n r (s ∷ refs) (b ∷ before) t after (e, le, count, run) q =
    let (lo, hi) = member_bounds (r.last_seq + 1) s refs before t after run (cc) in
    (omega arith, hi)

-- A run covers no sequence number below its first or above its last one.
pub Covered-bounds :
    (seq n f l c : ℕ) (refs : List CatalogChunkRef)
    → leaf_span refs ≡ some (f, l, c)
    → IsRun n refs
    → Covered seq refs
    → (n ≤ seq) × (seq ≤ l)
unfolding leaf_span
Covered-bounds seq n f l c [] h run cov = absurd (ground (arith, h))
Covered-bounds seq n f l c (r ∷ refs) h run (before, t, after, q, lo, hi) =
    let (first, last) = member_bounds n r refs before t after run q in
    ground (arith, h, first, last)
