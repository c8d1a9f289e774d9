-- ===== src/Catalog/Append/Refines.antt =====
-- crates/combctl/src/catalog.rs: append, against the list of chunks that a catalog stands for.
use mathlib.Core.Path.{subst}
use mathlib.Core.List.{append-nil}
use mathlib.Core.Option
use comb.Prelude.{
  ℕ, zero, suc, ◌+◌, ◌-◌, ◌^◌, ◌≤◌, ◌≡◌, refl, sym, ap, ◌∙◌, Option, none, some, List, [], ◌∷◌,
  ◌++◌, arith, ltb, ◌==◌, ◌||◌, not,
}
use comb.Core.Error.{ok}
use comb.Core.Digest.{Digest}
use comb.Object.Step.{done}
use comb.Object.Step.Inversion.{continue-eq_done, lift-eq_done, pure-inj, refuse_if-eq_ok}
use comb.Store.Host.{Env, World}
use comb.Store.Keys.{Store}
use comb.Catalog.Node.{
  v1, CatalogChunkRef, CatalogChild, ChunkCatalogRoot, CatalogState, empty, root, CatalogNode,
  branch, Span, max_catalog_height, validate_ref, leaf_span, child_span, last_of, root_of,
  root_from_node,
}
use comb.Catalog.Objects.{CatalogJson}
use comb.Catalog.Append.{SpineUpdate, grown, split, grow_root, update_root, append}
use comb.Catalog.Append.Grows.{TreeHere, HoldsHere, IsHeld, StandsFor, append_at-StandsFor}
use comb.Catalog.Stored.{
  ReadsWritten, NoCollision, KeepsTo, put_node-Holds, load_node-is, unwrap-eq_done,
}
use comb.Catalog.Tree.{Forest, Tree, IsRun}
use comb.Catalog.Tree.Runs.{IsRun-snoc}
use comb.Catalog.Tree.Forests.{Forest-span}

validate_ref-IsRun :
    (chunk : CatalogChunkRef) (n : ℕ)
    → validate_ref chunk ≡ ok tt
    → chunk.first_seq ≡ n
    → IsRun n (chunk ∷ [])
unfolding validate_ref
validate_ref-IsRun chunk n h e = ground arith

module _ {S E : Type 0} (env : Env S E) (store : Store env) (json : CatalogJson)
    (known : List ℕ → Type 0) (keeps : KeepsTo env store json known) (written : ReadsWritten json)
    (unique : NoCollision env.hex env.blake3 store.key known) where
  -- A root over chunks: the tree of its digest and its height, which is bounded, and their span.
  abbrev pub IsRootOf : ChunkCatalogRoot → List CatalogChunkRef → Type 0
  IsRootOf r refs =
      Tree env.hex env.blake3 store.key json known r.height r.digest refs
      × (leaf_span refs ≡ some (r.first_seq, r.last_seq, r.chunk_count))
      × (r.height ≤ max_catalog_height)

  -- The chunks that a catalog stands for.
  abbrev pub Stands : CatalogState → List CatalogChunkRef → Type 0
  Stands empty refs = refs ≡ []
  Stands (root r) refs = IsRootOf r refs

  root_of-IsRootOf :
      (k : ℕ) (d : Digest) (span : Option Span) (refs : List CatalogChunkRef) (r : ChunkCatalogRoot)
      → Tree env.hex env.blake3 store.key json known k d refs
      → leaf_span refs ≡ span
      → k ≤ max_catalog_height
      → Option.map (root_of d k) span ≡ some r
      → IsRootOf r refs
  root_of-IsRootOf k d none refs r tree e low h = absurd (ground (arith, h))
  root_of-IsRootOf k d (some span) refs r tree e low h =
      let made : root_of d k span ≡ r = ground (arith, h) in
      subst (λ t. IsRootOf t refs) made (tree, e, low)

  branch-IsRootOf :
      (k : ℕ) (d : Digest) (cs : List CatalogChild) (refs : List CatalogChunkRef)
      (r : ChunkCatalogRoot)
      → HoldsHere env store json known keeps written unique d (branch v1 (suc k) cs)
      → Forest (TreeHere env store json known keeps written unique k) cs refs
      → suc k ≤ max_catalog_height
      → Option.map (root_of d (suc k)) (child_span cs) ≡ some r
      → IsRootOf r refs
  branch-IsRootOf k d [] refs r hold f low h = absurd (unfold child_span in ground (arith, h))
  branch-IsRootOf k d (c ∷ cs) refs r hold f low h =
      root_of-IsRootOf (suc k) d (child_span (c ∷ cs)) refs r (c ∷ cs, hold, f)
        (sym (Forest-span (TreeHere env store json known keeps written unique k) c cs refs f)) low h

  root_from_node-IsRootOf :
      (k : ℕ) (d : Digest) (node : CatalogNode) (refs : List CatalogChunkRef) (r : ChunkCatalogRoot)
      → Tree env.hex env.blake3 store.key json known k d refs
      → IsHeld env store json known keeps written unique d node
      → k ≤ max_catalog_height
      → root_from_node d node ≡ some r
      → IsRootOf r refs
  unfolding root_from_node
  root_from_node-IsRootOf zero d node refs r tree holds low h =
      let same = holds _ tree in
      root_of-IsRootOf 0 d (leaf_span refs) refs r tree refl low
        (ap (root_from_node d) (sym same) ∙ h)
  root_from_node-IsRootOf (suc k) d node refs r (cs, hold, f) holds low h =
      let same = holds _ hold in
      branch-IsRootOf k d cs refs r hold f low (ap (root_from_node d) (sym same) ∙ h)

  grow_root-Stands :
      (l r : CatalogChild) (k : ℕ) (whole : List CatalogChunkRef) (w after : World S E)
      (t : CatalogState)
      → Forest (TreeHere env store json known keeps written unique k) (l ∷ r ∷ []) whole
      → grow_root env store json l r k w ≡ (done t, after)
      → Stands t whole
  unfolding grow_root
  grow_root-Stands l r k whole w after t f h =
      let (u0, w0, e0, h1) = continue-eq_done _ _ h in
      let (span, w1, e1, h2) = continue-eq_done _ _ h1 in
      let (d, w2, e2, h3) = continue-eq_done _ _ h2 in
      let up : k + 1 ≡ suc k = omega arith in
      let held = put_node-Holds env store json known keeps _ w1 w2 d e2 in
      let (flat, _) = lift-eq_done _ w e0 in
      let small =
        refuse_if-eq_ok (ltb (2 ^ 8 - 1) (k + 1) || ltb max_catalog_height (k + 1)) _ flat in
      let low : suc k ≤ max_catalog_height = ground (arith, small) in
      let made =
        branch-IsRootOf k d (l ∷ r ∷ []) whole (root_of d (suc k) span)
          (subst
            (λ n. HoldsHere env store json known keeps written unique d (branch v1 n (l ∷ r ∷ [])))
            up held)
          f low (ap (Option.map (root_of d (suc k))) (unwrap-eq_done _ w0 e1)) in
      subst (λ s. Stands s whole) (pure-inj h3)
        (subst (λ n. Stands (root (root_of d n span)) whole) (sym up) made)

  update_root-Stands :
      (k : ℕ) (whole : List CatalogChunkRef) (u : SpineUpdate) (w after : World S E)
      (t : CatalogState)
      → StandsFor env store json known keeps written unique k whole u
      → k ≤ max_catalog_height
      → update_root env store json u w ≡ (done t, after)
      → Stands t whole
  unfolding update_root
  update_root-Stands k whole (grown d g) w after t (_, tree) low h =
      let (node, w1, e1, h1) = continue-eq_done _ _ h in
      let (r, w2, e2, h2) = continue-eq_done _ _ h1 in
      let held = λ (n : CatalogNode).
        load_node-is env store json known keeps written unique d w w1 node n e1 in
      subst (λ s. Stands s whole) (pure-inj h2)
        (root_from_node-IsRootOf k d node whole r tree held low (unwrap-eq_done _ w1 e2))
  update_root-Stands k whole (split l r g) w after t (same, ls, rs, e, sl, tl, sr, tr') low h =
      let f : Forest (TreeHere env store json known keeps written unique k) (l ∷ r ∷ []) whole =
        (ls, rs, e, sl, tl, (rs, [], sym (append-nil rs), sr, tr', refl)) in
      grow_root-Stands l r k whole w after t f
        (ap (λ n. grow_root env store json l r n w) (sym same) ∙ h)

  -- A catalog over chunks that cover the sequence numbers from 1 on.
  abbrev pub IsCatalog : CatalogState → List CatalogChunkRef → Type 0
  IsCatalog state refs = Stands state refs × IsRun 1 refs

  pub append-refines :
      (state : CatalogState) (refs : List CatalogChunkRef) (chunk : CatalogChunkRef)
      (w after : World S E) (grown_state : CatalogState)
      → IsCatalog state refs
      → append env store json state chunk w ≡ (done grown_state, after)
      → IsCatalog grown_state (refs ++ chunk ∷ [])
  unfolding append
  append-refines empty refs chunk w after t (nil, run) h =
      let (u0, w0, e0, h1) = continue-eq_done _ _ h in
      let (u1, w1, e1, h2) = continue-eq_done _ _ h1 in
      let (d, w2, e2, h3) = continue-eq_done _ _ h2 in
      let (valid, _) = lift-eq_done _ w e0 in
      let (first, _) = lift-eq_done _ w0 e1 in
      let at_one = refuse_if-eq_ok (not (chunk.first_seq == 1)) _ first in
      let one = validate_ref-IsRun chunk 1 valid (ground (arith, at_one)) in
      let made : Stands (root (root_of d 0 (chunk.first_seq, chunk.last_seq, 1))) (chunk ∷ []) = (
        put_node-Holds env store json known keeps _ w1 w2 d e2,
        unfold leaf_span last_of in refl,
        omega arith,
      ) in
      subst (λ l. IsCatalog t (l ++ chunk ∷ [])) (sym nil)
        (subst (λ s. Stands s (chunk ∷ [])) (pure-inj h3) made, one)
  append-refines (root r) refs chunk w after t ((tree, span, low), run) h =
      let (u0, w0, e0, h1) = continue-eq_done _ _ h in
      let (u1, w1, e1, h2) = continue-eq_done _ _ h1 in
      let (u2, w2, e2, h3) = continue-eq_done _ _ h2 in
      let (update, w3, e3, h4) = continue-eq_done _ _ h3 in
      let (valid, _) = lift-eq_done _ w e0 in
      let (next, _) = lift-eq_done _ w1 e2 in
      let behind = refuse_if-eq_ok (not (chunk.first_seq == r.last_seq + 1)) _ next in
      let one = validate_ref-IsRun chunk (r.last_seq + 1) valid (ground (arith, behind)) in
      (
        update_root-Stands r.height (refs ++ chunk ∷ []) update w3 after t
            (append_at-StandsFor env store json known keeps written unique r.height r.digest refs
              chunk w2 w3 update tree e3)
            low h4,
        IsRun-snoc refs 1 r.first_seq r.last_seq r.chunk_count chunk span run one,
      )
