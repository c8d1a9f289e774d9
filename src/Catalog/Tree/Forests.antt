-- ===== src/Catalog/Tree/Forests.antt =====
-- Lists of children over lists of chunks, put together and taken apart.
use mathlib.Core.Path.{subst}
use mathlib.Core.List.{append_assoc, append-nil}
use comb.Prelude.{◌≡◌, refl, sym, ap, ◌∙◌, List, [], ◌∷◌, ◌++◌, arith}
use comb.Core.Digest.{Digest}
use comb.Catalog.Node.{CatalogChunkRef, CatalogChild, leaf_span, child_span, count_chunks, last_of}
use comb.Catalog.Tree.{Forest}
use comb.Catalog.Tree.Spans.{leaf_span-append, leaf_span-count}

module _ (Below : Digest → List CatalogChunkRef → Type 0) where
  pub Forest-append :
      (cs ds : List CatalogChild) (xs ys : List CatalogChunkRef)
      → Forest Below cs xs
      → Forest Below ds ys
      → Forest Below (cs ++ ds) (xs ++ ys)
  Forest-append [] ds xs ys f g = subst (λ l. Forest Below ds (l ++ ys)) (sym f) g
  Forest-append (c ∷ cs) ds xs ys (mine, rest, e, span, below, f) g = (
    mine,
    rest ++ ys,
    ap (λ l. l ++ ys) e ∙ append_assoc mine rest ys,
    span,
    below,
    Forest-append cs ds rest ys f g,
  )

  pub Forest-split :
      (cs ds : List CatalogChild) (refs : List CatalogChunkRef)
      → Forest Below (cs ++ ds) refs
      → (xs : List CatalogChunkRef) × (ys : List CatalogChunkRef) × (refs ≡ xs ++ ys)
        × Forest Below cs xs
        × Forest Below ds ys
  Forest-split [] ds refs f = ([], refs, refl, refl, f)
  Forest-split (c ∷ cs) ds refs (mine, rest, e, span, below, f) =
      let (xs, ys, e', g, k) = Forest-split cs ds rest f in
      (
        mine ++ xs,
        ys,
        e ∙ ap (λ l. mine ++ l) e' ∙ sym (append_assoc mine xs ys),
        (mine, xs, refl, span, below, g),
        k,
      )

  -- The span of the children is that of their chunks.
  pub Forest-span :
      (c : CatalogChild) (cs : List CatalogChild) (refs : List CatalogChunkRef)
      → Forest Below (c ∷ cs) refs
      → child_span (c ∷ cs) ≡ leaf_span refs
  unfolding child_span count_chunks last_of
  Forest-span c [] refs (mine, rest, e, span, below, f) =
      let whole = ap leaf_span (e ∙ ap (λ l. mine ++ l) f ∙ append-nil mine) ∙ span in
      ground (arith, whole, leaf_span-count mine c.first_seq c.last_seq c.chunk_count span)
  Forest-span c (d ∷ ds) refs (mine, rest, e, span, below, f) =
      let ih = Forest-span d ds rest f in
      sym (ap leaf_span e ∙ leaf_span-append mine rest _ _ _ _ _ _ span (sym ih))
