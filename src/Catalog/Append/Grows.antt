-- ===== src/Catalog/Append/Grows.antt =====
-- crates/combctl/src/catalog.rs: an append at a node, level by level, against the chunks below it.
use mathlib.Core.Path.{subst}
use mathlib.Core.Option
use mathlib.Core.List.{append_assoc, append-nil}
use comb.Prelude.{
  ℕ, zero, suc, ◌≡◌, refl, sym, ap, ◌∙◌, Option, none, some, List, [], ◌∷◌, ◌++◌, arith, length,
  ltb, leb, take, drop, inl, inr, take-append-drop,
}
use comb.Core.Digest.{Digest}
use comb.Object.Step.{other, Step, done, fail}
use comb.Object.Step.Inversion.{continue-eq_done, if-cases, pure-inj}
use comb.Store.Host.{Env, World}
use comb.Store.Keys.{Store}
use comb.Catalog.Node.{
  v1, CatalogChunkRef, CatalogChild, CatalogNode, leaf, branch, Span, leaf_span, child_span,
  child_of, child_from_leaf, child_from_branch, max_catalog_items,
}
use comb.Catalog.Objects.{CatalogJson, put_node}
use comb.Catalog.Append.{
  SpineUpdate, grown, split, append_leaf, grown_child, put_split, update_branch, append_node,
  append_at,
}
use comb.Catalog.Stored.{
  ReadsWritten, NoCollision, KeepsTo, put_node-Holds, load_node-is, unwrap-eq_done,
}
use comb.Catalog.Tree.{IsSpanOf, Forest, Holds, Tree}
use comb.Catalog.Tree.Spans.{pop_last-eq_some}
use comb.Catalog.Tree.Forests.{Forest-append, Forest-split, Forest-span}

child_of-IsSpanOf :
    (d : Digest) (span : Option Span) (c : CatalogChild)
    → Option.map (child_of d) span ≡ some c
    → (c.digest ≡ d) × (span ≡ some (c.first_seq, c.last_seq, c.chunk_count))
child_of-IsSpanOf d none c h = absurd (ground arith)
child_of-IsSpanOf d (some (f, l, n)) c h = ground arith

child_from_leaf-IsSpanOf :
    (d : Digest) (refs : List CatalogChunkRef) (c : CatalogChild)
    → child_from_leaf d refs ≡ some c
    → (c.digest ≡ d) × IsSpanOf c refs
unfolding child_from_leaf
child_from_leaf-IsSpanOf d refs c h = child_of-IsSpanOf d (leaf_span refs) c h

child_from_branch-IsSpanOf :
    (Below : Digest → List CatalogChunkRef → Type 0) (d : Digest) (cs : List CatalogChild)
    (refs : List CatalogChunkRef) (c : CatalogChild)
    → Forest Below cs refs
    → child_from_branch d cs ≡ some c
    → (c.digest ≡ d) × IsSpanOf c refs
unfolding child_from_branch
child_from_branch-IsSpanOf Below d [] refs c f h = absurd (unfold child_span in ground (arith, h))
child_from_branch-IsSpanOf Below d (e ∷ es) refs c f h =
    let (same, span) = child_of-IsSpanOf d (child_span (e ∷ es)) c h in
    (same, sym (Forest-span Below e es refs f) ∙ span)

module _ {S E : Type 0} (env : Env S E) (store : Store env) (json : CatalogJson)
    (known : List ℕ → Type 0) (keeps : KeepsTo env store json known) (written : ReadsWritten json)
    (unique : NoCollision env.hex env.blake3 store.key known) where
  abbrev pub HoldsHere : Digest → CatalogNode → Type 0
  HoldsHere = Holds env.hex env.blake3 store.key json known

  -- A node that is the one that its digest holds.
  abbrev pub IsHeld : Digest → CatalogNode → Type 0
  IsHeld d node = (held : CatalogNode) → HoldsHere d held → node ≡ held

  abbrev pub TreeHere : ℕ → Digest → List CatalogChunkRef → Type 0
  TreeHere = Tree env.hex env.blake3 store.key json known

  -- What an update says that a node became: one tree over the chunks, or two next to each other.
  abbrev pub StandsFor : ℕ → List CatalogChunkRef → SpineUpdate → Type 0
  StandsFor k whole (grown d g) = (g ≡ k) × TreeHere k d whole
  StandsFor k whole (split l r g) =
      (g ≡ k)
      × (xs : List CatalogChunkRef) × (ys : List CatalogChunkRef) × (whole ≡ xs ++ ys)
      × IsSpanOf l xs
      × TreeHere k l.digest xs
      × IsSpanOf r ys
      × TreeHere k r.digest ys

  append_leaf-StandsFor :
      (d : Digest) (refs : List CatalogChunkRef) (chunk : CatalogChunkRef) (w after : World S E)
      (u : SpineUpdate)
      → HoldsHere d (leaf v1 refs)
      → append_leaf env store json d refs chunk w ≡ (done u, after)
      → StandsFor 0 (refs ++ chunk ∷ []) u
  unfolding append_leaf
  append_leaf-StandsFor d refs chunk w after u holds h =
      elim (if-cases (ltb (length refs) max_catalog_items) _ _ h) [
        | inl (_, h1) ↦
            let (copy, w1, e1, h2) = continue-eq_done _ _ h1 in
            let t : StandsFor 0 (refs ++ chunk ∷ []) (grown copy 0) =
              (refl, put_node-Holds env store json known keeps _ w w1 copy e1) in
            subst (StandsFor 0 (refs ++ chunk ∷ [])) (pure-inj h2) t
        | inr (_, h1) ↦
            let (sibling, w1, e1, h2) = continue-eq_done _ _ h1 in
            let (l, w2, e2, h3) = continue-eq_done _ _ h2 in
            let (r, w3, e3, h4) = continue-eq_done _ _ h3 in
            let (dl, sl) = child_from_leaf-IsSpanOf d refs l (unwrap-eq_done _ w1 e2) in
            let (dr, sr) =
              child_from_leaf-IsSpanOf sibling (chunk ∷ []) r (unwrap-eq_done _ w2 e3) in
            let t : StandsFor 0 (refs ++ chunk ∷ []) (split l r 0) = (
              refl,
              refs,
              chunk ∷ [],
              refl,
              sl,
              subst (λ e. HoldsHere e (leaf v1 refs)) (sym dl) holds,
              sr,
              subst (λ e. HoldsHere e (leaf v1 (chunk ∷ []))) (sym dr)
                  (put_node-Holds env store json known keeps _ w w1 sibling e1),
            ) in
            subst (StandsFor 0 (refs ++ chunk ∷ [])) (pure-inj h4) t
      ]

  -- A part of the children of a branch that is put as a branch of its own.
  put_branch-Tree :
      (k : ℕ) (cs : List CatalogChild) (whole : List CatalogChunkRef) (w after : World S E)
      (d : Digest)
      → Forest (TreeHere k) cs whole
      → put_node env store json (branch v1 (suc k) cs) w ≡ (done d, after)
      → TreeHere (suc k) d whole
  put_branch-Tree k cs whole w after d f h =
      (cs, put_node-Holds env store json known keeps _ w after d h, f)

  put_split-StandsFor :
      (k : ℕ) (cs : List CatalogChild) (whole : List CatalogChunkRef) (w after : World S E)
      (u : SpineUpdate)
      → Forest (TreeHere k) cs whole
      → put_split env store json (suc k) cs w ≡ (done u, after)
      → StandsFor (suc k) whole u
  unfolding put_split
  put_split-StandsFor k cs whole w after u f h =
      elim (if-cases (leb (length cs) max_catalog_items) _ _ h) [
        | inl (_, h1) ↦
            let (copy, w1, e1, h2) = continue-eq_done _ _ h1 in
            let t : StandsFor (suc k) whole (grown copy (suc k)) =
              (refl, put_branch-Tree k cs whole w w1 copy f e1) in
            subst (StandsFor (suc k) whole) (pure-inj h2) t
        | inr (_, h1) ↦
            let (u0, w0, e0, h2) = continue-eq_done _ _ h1 in
            let (lc, w1, e1, h3) = continue-eq_done _ _ h2 in
            let (rc, w2, e2, h4) = continue-eq_done _ _ h3 in
            let (l, w3, e3, h5) = continue-eq_done _ _ h4 in
            let (r, w4, e4, h6) = continue-eq_done _ _ h5 in
            let (xs, ys, e, fx, fy) =
              Forest-split (TreeHere k) (take max_catalog_items cs) (drop max_catalog_items cs)
                whole
                (subst (λ l. Forest (TreeHere k) l whole)
                  (sym (take-append-drop max_catalog_items cs)) f) in
            let (dl, sl) =
              child_from_branch-IsSpanOf (TreeHere k) lc _ xs l fx (unwrap-eq_done _ w2 e3) in
            let (dr, sr) =
              child_from_branch-IsSpanOf (TreeHere k) rc _ ys r fy (unwrap-eq_done _ w3 e4) in
            let t : StandsFor (suc k) whole (split l r (suc k)) = (
              refl,
              xs,
              ys,
              e,
              sl,
              subst (λ d. TreeHere (suc k) d xs) (sym dl) (put_branch-Tree k _ xs w0 w1 lc fx e1),
              sr,
              subst (λ d. TreeHere (suc k) d ys) (sym dr) (put_branch-Tree k _ ys w1 w2 rc fy e2),
            ) in
            subst (StandsFor (suc k) whole) (pure-inj h6) t
      ]

  -- The child for the digest of a tree.
  grown_child-IsSpanOf :
      (k h : ℕ) (d : Digest) (node : CatalogNode) (whole : List CatalogChunkRef)
      (w after : World S E) (c : CatalogChild)
      → TreeHere k d whole
      → IsHeld d node
      → grown_child env store json h d node w ≡ (done c, after)
      → (c.digest ≡ d) × IsSpanOf c whole
  unfolding grown_child
  grown_child-IsSpanOf zero h d node whole w after c t holds e =
      let same = holds _ t in
      child_from_leaf-IsSpanOf d whole c
        (unwrap-eq_done _ w (ap (λ n. grown_child env store json h d n w) (sym same) ∙ e))
  grown_child-IsSpanOf (suc k) h d node whole w after c (cs, held, f) holds e =
      let same = holds _ held in
      let (u, w1, e1, e2) =
        continue-eq_done _ _ (ap (λ n. grown_child env store json h d n w) (sym same) ∙ e) in
      child_from_branch-IsSpanOf (TreeHere k) d cs whole c f (unwrap-eq_done _ w1 e2)

  -- A branch over children whose last one was updated.
  update_branch-StandsFor :
      (k : ℕ) (before : List CatalogChild) (xs whole : List CatalogChunkRef) (below : SpineUpdate)
      (w after : World S E) (u : SpineUpdate)
      → Forest (TreeHere k) before xs
      → StandsFor k whole below
      → update_branch env store json (suc k) before below w ≡ (done u, after)
      → StandsFor (suc k) (xs ++ whole) u
  unfolding update_branch
  update_branch-StandsFor k before xs whole (grown d g) w after u f (_, tree) h =
      let (u0, w0, e0, h1) = continue-eq_done _ _ h in
      let (node, w1, e1, h2) = continue-eq_done _ _ h1 in
      let (c, w2, e2, h3) = continue-eq_done _ _ h2 in
      let (copy, w3, e3, h4) = continue-eq_done _ _ h3 in
      let held = λ (n : CatalogNode).
        load_node-is env store json known keeps written unique d w0 w1 node n e1 in
      let (same, span) = grown_child-IsSpanOf k (suc k) d node whole w1 w2 c tree held e2 in
      let one : Forest (TreeHere k) (c ∷ []) whole = (
        whole,
        [],
        sym (append-nil whole),
        span,
        subst (λ e. TreeHere k e whole) (sym same) tree,
        refl,
      ) in
      let t : StandsFor (suc k) (xs ++ whole) (grown copy (suc k)) = (
        refl,
        put_branch-Tree k _ _ w2 w3 copy (Forest-append (TreeHere k) before (c ∷ []) xs whole f one)
            e3,
      ) in
      subst (StandsFor (suc k) (xs ++ whole)) (pure-inj h4) t
  update_branch-StandsFor k before xs whole (split l r g) w after u f
        (_, ls, rs, e, sl, tl, sr, tr') h =
      let (u0, w0, e0, h1) = continue-eq_done _ _ h in
      let two : Forest (TreeHere k) (l ∷ r ∷ []) whole =
        (ls, rs, e, sl, tl, (rs, [], sym (append-nil rs), sr, tr', refl)) in
      put_split-StandsFor k _ _ w0 after u
        (Forest-append (TreeHere k) before (l ∷ r ∷ []) xs whole f two) h1

  append_node-StandsFor :
      (k : ℕ) (d : Digest) (chunk : CatalogChunkRef) (cs : List CatalogChild)
      (refs : List CatalogChunkRef) (below : Digest → Step (World S E) SpineUpdate)
      (w after : World S E) (u : SpineUpdate)
      → ((c : Digest) (mine : List CatalogChunkRef) (w1 w2 : World S E) (v : SpineUpdate)
          → TreeHere k c mine
          → below c w1 ≡ (done v, w2)
          → StandsFor k (mine ++ chunk ∷ []) v)
      → Forest (TreeHere k) cs refs
      → append_node env store json (suc k) d chunk below (branch v1 (suc k) cs) w ≡ (done u, after)
      → StandsFor (suc k) (refs ++ chunk ∷ []) u
  unfolding append_node
  append_node-StandsFor k d chunk cs refs below w after u ih f h =
      let (u0, w0, e0, h1) = continue-eq_done _ _ h in
      let (popped, w1, e1, h2) = continue-eq_done _ _ h1 in
      let (update, w2, e2, h3) = continue-eq_done _ _ h2 in
      let apart = pop_last-eq_some cs popped.0 popped.1 (unwrap-eq_done _ w0 e1) in
      let (xs, ys, e, fx, (mine, rest, e', span, tree, nil)) =
        Forest-split (TreeHere k) popped.0 (popped.1 ∷ []) refs
          (subst (λ l. Forest (TreeHere k) l refs) apart f) in
      let whole =
        ap (λ l. l ++ chunk ∷ [])
          (e ∙ ap (λ l. xs ++ l) (e' ∙ ap (λ l. mine ++ l) nil ∙ append-nil mine))
        ∙ append_assoc xs mine (chunk ∷ []) in
      subst (λ l. StandsFor (suc k) l u) (sym whole)
        (update_branch-StandsFor k popped.0 xs (mine ++ chunk ∷ []) update w2 after u fx
          (ih popped.1.digest mine w1 w2 update tree e2) h3)

  -- An append at a tree makes a tree, or two next to each other, over the chunks and the new one.
  pub append_at-StandsFor :
      (k : ℕ) (d : Digest) (refs : List CatalogChunkRef) (chunk : CatalogChunkRef)
      (w after : World S E) (u : SpineUpdate)
      → TreeHere k d refs
      → append_at env store json k d chunk w ≡ (done u, after)
      → StandsFor k (refs ++ chunk ∷ []) u
  unfolding append_at append_node
  append_at-StandsFor zero d refs chunk w after u tree h =
      let (node, w1, e1, h1) = continue-eq_done _ _ h in
      let same = load_node-is env store json known keeps written unique d w w1 node _ e1 tree in
      let below = λ (c : Digest).
        fail {S = World S E} {T = SpineUpdate} (other "attempt to subtract with overflow") in
      let (u0, w0, e0, h2) =
        continue-eq_done _ _
          (ap (λ n. append_node env store json 0 d chunk below n w1) (sym same) ∙ h1) in
      append_leaf-StandsFor d refs chunk w0 after u tree h2
  append_at-StandsFor (suc k) d refs chunk w after u (cs, hold, f) h =
      let (node, w1, e1, h1) = continue-eq_done _ _ h in
      let same = load_node-is env store json known keeps written unique d w w1 node _ e1 hold in
      let below = λ (c : Digest). append_at env store json k c chunk in
      append_node-StandsFor k d chunk cs refs below w1 after u
        (λ c mine x y v. append_at-StandsFor k c mine chunk x y v) f
        (ap (λ n. append_node env store json (suc k) d chunk below n w1) (sym same) ∙ h1)
