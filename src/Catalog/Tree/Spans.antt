-- ===== src/Catalog/Tree/Spans.antt =====
-- Spans of chunks that stand one after the other.
use comb.Prelude.{
  Option-cases, inl, inr, ℕ, ◌+◌, ◌%◌, ◌^◌, ◌≡◌, refl, none, some, List, [], ◌∷◌, ◌++◌, arith,
  length-append,
}
use comb.Catalog.Node.{CatalogChunkRef, leaf_span, last_of}
use comb.Catalog.Append.{pop_last}

pub last_of-append {ℓ} :
    {T : Type ℓ} (x y : T) (xs ys : List T) → last_of x (xs ++ y ∷ ys) ≡ last_of y ys
unfolding last_of
last_of-append x y [] ys = refl
last_of-append x y (z ∷ xs) ys = last_of-append z y xs ys

pub leaf_span-append :
    (xs ys : List CatalogChunkRef) (f l n f' l' m : ℕ)
    → leaf_span xs ≡ some (f, l, n)
    → leaf_span ys ≡ some (f', l', m)
    → leaf_span (xs ++ ys) ≡ some (f, l', (n + m) % 2 ^ 64)
unfolding leaf_span
leaf_span-append [] ys f l n f' l' m h k = absurd (ground (arith, h))
leaf_span-append (x ∷ xs) [] f l n f' l' m h k = absurd (ground (arith, k))
leaf_span-append (x ∷ xs) (y ∷ ys) f l n f' l' m h k =
    ground (arith, h, k, last_of-append x y xs ys, length-append xs (y ∷ ys))

pub leaf_span-count :
    (xs : List CatalogChunkRef) (f l n : ℕ) → leaf_span xs ≡ some (f, l, n) → n % 2 ^ 64 ≡ n
unfolding leaf_span
leaf_span-count [] f l n h = absurd (ground (arith, h))
leaf_span-count (x ∷ xs) f l n h = ground (arith, h)

pop_last-eq_none {ℓ} : {T : Type ℓ} (xs : List T) → pop_last xs ≡ none → xs ≡ []
unfolding pop_last
pop_last-eq_none [] h = refl
pop_last-eq_none (x ∷ xs) h = elim (Option-cases (pop_last xs)) [
  | inl q ↦ absurd (ground (arith, q, h))
  | inr (p, q) ↦ absurd (ground (arith, q, h))
]

pub pop_last-eq_some {ℓ} :
    {T : Type ℓ} (xs before : List T) (last : T)
    → pop_last xs ≡ some (before, last)
    → xs ≡ before ++ last ∷ []
unfolding pop_last
pop_last-eq_some [] before last h = absurd (ground (arith, h))
pop_last-eq_some (x ∷ xs) before last h = elim (Option-cases (pop_last xs)) [
  | inl q ↦ ground (arith, q, h, pop_last-eq_none xs q)
  | inr (p, q) ↦ ground (arith, q, h, pop_last-eq_some xs p.0 p.1 q)
]
