-- ===== src/Catalog/Seek/Finds.antt =====
-- crates/combctl/src/catalog.rs: seek_leaf, against the list of chunks that a catalog stands for.
use mathlib.Core.Path.{subst}
use mathlib.Core.List.{append_assoc, append-nil}
use comb.Prelude.{
  ℕ, zero, suc, ◌+◌, ◌%◌, ◌^◌, ◌≤◌, ◌<◌, ◌≡◌, refl, sym, ap, ◌∙◌, true, ◌||◌, Option, none, some,
  List, [], ◌∷◌, ◌++◌, arith, length, ltb, leb, Bool-cases, inl, inr,
}
use comb.Core.Error.{integrity_error}
use comb.Core.Digest.{Digest}
use comb.Object.Step.{Outcome, done, failed, Step, continue, fail, core}
use comb.Store.Host.{Env, World}
use comb.Store.Keys.{Store}
use comb.Catalog.Node.{
  CatalogChunkRef, CatalogChild, CatalogState, empty, root, CatalogNode, leaf_span, last_of,
  max_catalog_height,
}
use comb.Catalog.Objects.{CatalogJson, load_node}
use comb.Catalog.Append.Grows.{TreeHere}
use comb.Catalog.Append.Refines.{IsCatalog}
use comb.Catalog.Seek.{leaf_covers, find_child, seek_node, seek_loop, seek_leaf}
use comb.Catalog.Stored.{ReadsWritten, NoCollision, KeepsTo, load_node-is}
use comb.Catalog.Tree.{IsSpanOf, Forest, IsRun}
use comb.Catalog.Tree.Runs.{Covered, run-Covered, Covered-bounds, IsRun-append-span, append-ne-nil}
use comb.Catalog.Tree.Spans.{leaf_span-append}

leaf_covers-span :
    (refs : List CatalogChunkRef) (f l c seq : ℕ)
    → leaf_span refs ≡ some (f, l, c)
    → f ≤ seq
    → seq ≤ l
    → leaf_covers refs seq ≡ true
unfolding leaf_covers leaf_span
leaf_covers-span [] f l c seq h low high = absurd (ground (arith, h))
leaf_covers-span (r ∷ refs) f l c seq h low high = ground (arith, h)

leaf_span-rest :
    (xs ys : List CatalogChunkRef) (f l n f' l' m : ℕ)
    → leaf_span xs ≡ some (f, l, n)
    → leaf_span (xs ++ ys) ≡ some (f', l', m)
    → l < l'
    → (f2 : ℕ) × (n2 : ℕ) × (leaf_span ys ≡ some (f2, l', n2))
leaf_span-rest xs [] f l n f' l' m h k lt =
    let e = ap leaf_span (append-nil xs) in absurd (ground (arith, h, k, e))
leaf_span-rest xs (y ∷ ys) f l n f' l' m h k lt =
    let whole =
      leaf_span-append xs (y ∷ ys) f l n y.first_seq (last_of y ys).last_seq
        (length (y ∷ ys) % 2 ^ 64) h (unfold leaf_span in refl) in
    (y.first_seq, length (y ∷ ys) % 2 ^ 64, unfold leaf_span in ground (arith, whole, k))

-- The part of the chunks behind the child that a seek follows.
abbrev pub Part :
    (Digest → List CatalogChunkRef → Type 0) → ℕ → CatalogChild → List CatalogChunkRef → Type 0
Part Below seq c refs =
    (before : List CatalogChunkRef) × (mine : List CatalogChunkRef) × (rest : List CatalogChunkRef)
    × (refs ≡ before ++ (mine ++ rest))
    × Below c.digest mine
    × IsRun c.first_seq mine
    × IsSpanOf c mine
    × (c.first_seq ≤ seq)
    × (seq ≤ c.last_seq)

module _ (Below : Digest → List CatalogChunkRef → Type 0) (seq : ℕ) where
  -- Some child of a branch covers what the branch covers.
  pub find_child-Part :
      (cs : List CatalogChild) (n f l count : ℕ) (refs : List CatalogChunkRef)
      → Forest Below cs refs
      → IsRun n refs
      → leaf_span refs ≡ some (f, l, count)
      → n ≤ seq
      → seq ≤ l
      → (c : CatalogChild) × (find_child cs seq ≡ some c) × Part Below seq c refs
  unfolding find_child
  find_child-Part [] n f l count refs nil run span low high =
      absurd (let e = ap leaf_span (sym nil) ∙ span in unfold leaf_span in ground (arith, e))
  find_child-Part (c ∷ cs) n f l count refs (mine, rest, e, own, below, more) run span low high =
      let (first, here, there) =
        IsRun-append-span n c.first_seq c.last_seq c.chunk_count mine rest own
          (subst (IsRun n) e run) in
      elim (Bool-cases (leb seq c.last_seq)) [
        | inl b ↦ (
          c,
          ground (arith, b, first),
          (
            [],
            mine,
            rest,
            e,
            below,
            subst (λ m. IsRun m mine) (sym first) here,
            own,
            omega (arith, first),
            ground (arith, b),
          ),
        )
        | inr b ↦
            let (f', count', tail) =
              leaf_span-rest mine rest c.first_seq c.last_seq c.chunk_count f l count own
                (ap leaf_span (sym e) ∙ span) (ground (arith, b)) in
            let (c', found, (before, mine', rest', e', bl, hr, ow, lo, hi)) =
              find_child-Part cs (c.last_seq + 1) f' l count' rest more there tail
                (ground (arith, b)) high in
            (
              c',
              ground (arith, b, found),
              (
                mine ++ before,
                mine',
                rest',
                e ∙ ap (λ z. mine ++ z) e' ∙ sym (append_assoc mine before (mine' ++ rest')),
                bl,
                hr,
                ow,
                lo,
                hi,
              ),
            )
      ]

module _ {S E : Type 0} (env : Env S E) (store : Store env) (json : CatalogJson)
    (known : List ℕ → Type 0) (keeps : KeepsTo env store json known) (written : ReadsWritten json)
    (unique : NoCollision env.hex env.blake3 store.key known) where
  -- The answer to a seek: the leaf that covers the sequence number, none where no chunk does, and
  -- an error only where a node could not be loaded.
  abbrev pub Answers :
      ℕ → List CatalogChunkRef → Outcome (Option (List CatalogChunkRef)) × World S E → Type 0
  Answers seq refs (done (some found), after) =
      (before : List CatalogChunkRef) × (rest : List CatalogChunkRef) × (refs
        ≡ before ++ (found ++ rest))
      × Covered seq found
  Answers seq refs (done none, after) = Covered seq refs → ⊥
  Answers seq refs (failed e, after) =
      (d : Digest) × (w : World S E) × (load_node env store json d w ≡ (failed e, after))

  -- A node that is loaded and an answer for it give an answer.
  loaded-Answers :
      (seq : ℕ) (refs : List CatalogChunkRef) (d : Digest) (w : World S E)
      (next : CatalogNode → Step (World S E) (Option (List CatalogChunkRef)))
      (loaded : Outcome CatalogNode × World S E)
      → load_node env store json d w ≡ loaded
      → ((node : CatalogNode) (after : World S E)
          → load_node env store json d w ≡ (done node, after)
          → Answers seq refs (next node after))
      → Answers seq refs (continue loaded next)
  unfolding continue
  loaded-Answers seq refs d w next (done node, after) h good = good node after h
  loaded-Answers seq refs d w next (failed e, after) h good = (d, w, h)

  -- An answer for a part of the chunks is one for the whole, where the part covers the number.
  Answers-widen :
      (seq : ℕ) (refs before mine rest : List CatalogChunkRef)
      (answer : Outcome (Option (List CatalogChunkRef)) × World S E)
      → refs ≡ before ++ (mine ++ rest)
      → Covered seq mine
      → Answers seq mine answer
      → Answers seq refs answer
  Answers-widen seq refs before mine rest (done (some found), after) e cov (xs, ys, e', there) = (
    before ++ xs,
    ys ++ rest,
    e ∙ ap (λ m. before ++ (m ++ rest)) e' ∙ simp (append_assoc),
    there,
  )
  Answers-widen seq refs before mine rest (done none, after) e cov no_chunk = absurd (no_chunk cov)
  Answers-widen seq refs before mine rest (failed e', after) e cov load = load

  -- What a branch does with the child that it found.
  abbrev follow : ℕ → ℕ → Option CatalogChild → Step (World S E) (Option (List CatalogChunkRef))
  follow left seq found = elim found [
    | none ↦ fail (core (integrity_error "catalog branch has no child covering the seek"))
    | some child ↦ seek_loop env store json left child.digest seq
  ]

  seek_loop-Answers :
      (k left : ℕ) (d : Digest) (refs : List CatalogChunkRef) (n l count seq : ℕ) (w : World S E)
      → k < left
      → TreeHere env store json known keeps written unique k d refs
      → IsRun n refs
      → leaf_span refs ≡ some (n, l, count)
      → n ≤ seq
      → seq ≤ l
      → Answers seq refs (seek_loop env store json left d seq w)
  unfolding seek_loop seek_node
  seek_loop-Answers k zero d refs n l count seq w lt tree run span low high = absurd (omega arith)
  seek_loop-Answers zero (suc left) d refs n l count seq w lt tree run span low high =
      loaded-Answers seq refs d w _ _ refl (λ node after loaded.
        let same =
          load_node-is env store json known keeps written unique d w after node _ loaded tree in
        subst
          (λ m.
            Answers seq refs
              (seek_node env store json seq (λ c. seek_loop env store json left c seq) m after))
          (sym same)
          (rw (leaf_covers-span refs n l count seq span low high)
            ([], [], sym (append-nil refs), run-Covered seq n n l count refs span run low high)))
  seek_loop-Answers (suc k) (suc left) d refs n l count seq w lt (cs, hold, f) run span low high =
      loaded-Answers seq refs d w _ _ refl (λ node after loaded.
        let same =
          load_node-is env store json known keeps written unique d w after node _ loaded hold in
        let (c, found, (before, mine, rest, e, below, here, own, lo, hi)) =
          find_child-Part (TreeHere env store json known keeps written unique k) seq cs n n l count
            refs f run span low high in
        subst
          (λ m.
            Answers seq refs
              (seek_node env store json seq (λ c. seek_loop env store json left c seq) m after))
          (sym same)
          (subst (λ o. Answers seq refs (follow left seq o after)) (sym found)
            (Answers-widen seq refs before mine rest _ e
              (run-Covered seq c.first_seq c.first_seq c.last_seq c.chunk_count mine own here lo hi)
              (seek_loop-Answers k left c.digest mine c.first_seq c.last_seq c.chunk_count seq after
                (omega arith) below here own lo hi))))

  pub seek_leaf-Answers :
      (state : CatalogState) (refs : List CatalogChunkRef) (seq : ℕ) (w : World S E)
      → IsCatalog env store json known keeps written unique state refs
      → Answers seq refs (seek_leaf env store json state seq w)
  unfolding seek_leaf
  seek_leaf-Answers empty refs seq w (nil, run) =
      λ cov. let (before, r, after, q, lo, hi) = cov in append-ne-nil before r after (sym nil ∙ q)
  seek_leaf-Answers (root r) refs seq w ((tree, span, low), run) =
      let (first, _, _) =
        IsRun-append-span 1 r.first_seq r.last_seq r.chunk_count refs [] span
          (subst (IsRun 1) (sym (append-nil refs)) run) in
      elim (Bool-cases (ltb seq r.first_seq || ltb r.last_seq seq)) [
        | inl b ↦ rw b (λ cov.
            let (lo, hi) =
              Covered-bounds seq 1 r.first_seq r.last_seq r.chunk_count refs span run cov in
            ground (arith, b, first, lo, hi))
        | inr b ↦ rw b (
            seek_loop-Answers r.height (max_catalog_height + 1) r.digest refs r.first_seq r.last_seq
              r.chunk_count seq w (omega arith) tree (subst (λ n. IsRun n refs) (sym first) run)
              span (ground (arith, b)) (ground (arith, b)))
      ]
