-- ===== src/Catalog/Append.antt =====
-- crates/combctl/src/catalog.rs: append, which copies the right spine and splits what is full.
pub mod Grows
pub mod Refines
use comb.Prelude.{
  ℕ, zero, suc, ◌+◌, ◌-◌, ◌%◌, ◌^◌, not, ◌||◌, Option, none, some, List, [], ◌∷◌, ◌++◌, ltb, leb,
  ◌==◌, if◌then◌else◌, length, take, drop,
}
use comb.Core.Error.{CoreError, Result, ok, err, integrity_error, rejected, refuse_if}
use comb.Core.Digest.{Digest}
use comb.Object.Step.{core, other, Step, ◌>>=◌, ◌>>◌, pure, lift, fail}
use comb.Store.Host.{Env, World}
use comb.Store.Keys.{Store}
use comb.Catalog.Node.{
  CatalogChunkRef, CatalogChild, ChunkCatalogRoot, CatalogState, empty, root, CatalogNode, leaf,
  branch, v1, max_catalog_items, max_catalog_height, validate_ref, child_from_leaf,
  child_from_branch, child_span, root_of, root_from_node,
}
use comb.Catalog.Objects.{CatalogJson, unwrap, put_node, load_node}

pub data SpineUpdate : Type 0 where
  grown : Digest → ℕ → SpineUpdate
  split : CatalogChild → CatalogChild → ℕ → SpineUpdate

-- The items before the last, and the last.
unfoldable pub pop_last {ℓ} : {T : Type ℓ} → List T → Option (List T × T)
pop_last [] = none
pop_last (x ∷ rest) = elim (pop_last rest) [ none ↦ some ([], x) | some p ↦ some (x ∷ p.0, p.1) ]

-- `+ 1` on heights, which are `u8`.
abbrev pub above : ℕ → ℕ
above height = (height + 1) % 2 ^ 8

module _ {S E : Type 0} (env : Env S E) (store : Store env) (json : CatalogJson) where
  -- A leaf of `append_at`.
  unfoldable pub append_leaf :
      Digest → List CatalogChunkRef → CatalogChunkRef → Step (World S E) SpineUpdate
  append_leaf digest refs chunk =
      if ltb (length refs) max_catalog_items
      then (do copy ← put_node env store json (leaf v1 (refs ++ chunk ∷ [])); pure (grown copy 0))
      else (do
        sibling ← put_node env store json (leaf v1 (chunk ∷ []))
        left ← unwrap (child_from_leaf digest refs)
        right ← unwrap (child_from_leaf sibling (chunk ∷ []))
        pure (split left right 0))

  -- The child that a grown node is to its parent, whose height is given.
  unfoldable pub grown_child : ℕ → Digest → CatalogNode → Step (World S E) CatalogChild
  grown_child h digest (leaf schema refs) = unwrap (child_from_leaf digest refs)
  grown_child h digest (branch schema height children) = do
    lift (
        refuse_if (not (above height == h))
          (integrity_error "catalog child height is not parent minus one"))
    unwrap (child_from_branch digest children)

  -- The children of a branch once its last child is replaced by two, which may split it too.
  unfoldable pub put_split : ℕ → List CatalogChild → Step (World S E) SpineUpdate
  put_split h children =
      if leb (length children) max_catalog_items
      then (do copy ← put_node env store json (branch v1 h children); pure (grown copy h))
      else (do
        lift (refuse_if (leb max_catalog_height h) (rejected "catalog height exceeded"))
        left_copy ← put_node env store json (branch v1 h (take max_catalog_items children))
        right_copy ← put_node env store json (branch v1 h (drop max_catalog_items children))
        left ← unwrap (child_from_branch left_copy (take max_catalog_items children))
        right ← unwrap (child_from_branch right_copy (drop max_catalog_items children))
        pure (split left right h))

  -- What the update of its last child makes of a branch.
  unfoldable pub update_branch : ℕ → List CatalogChild → SpineUpdate → Step (World S E) SpineUpdate
  unfolding grown_child put_split
  update_branch h before (grown child_digest grown_h) = do
    lift (
        refuse_if (not (above grown_h == h))
          (integrity_error "catalog grown child height is not parent minus one"))
    node ← load_node env store json child_digest
    child ← grown_child h child_digest node
    copy ← put_node env store json (branch v1 h (before ++ child ∷ []))
    pure (grown copy h)
  update_branch h before (split left right sh) = do
    lift (
        refuse_if (not (above sh == h))
          (integrity_error "catalog split height is not parent minus one"))
    put_split h (before ++ left ∷ right ∷ [])

  -- A node of `append_at`, with the call on the child of a branch.
  unfoldable pub append_node :
      ℕ
      → Digest
      → CatalogChunkRef
      → (Digest → Step (World S E) SpineUpdate)
      → CatalogNode
      → Step (World S E) SpineUpdate
  unfolding append_leaf update_branch pop_last
  append_node height digest chunk below (leaf schema refs) = do
    lift (refuse_if (not (height == 0)) (integrity_error "catalog leaf reached at nonzero height"))
    append_leaf digest refs chunk
  append_node height digest chunk below (branch schema h children) = do
    lift (
        refuse_if (not (h == height))
          (integrity_error "catalog branch height {h} disagrees with parent {height}"))
    popped ← unwrap (pop_last children)
    update ← below popped.1.digest
    update_branch h popped.0 update

  -- `append_at`. The subtraction of `h - 1` overflows at height 0, which no valid branch has.
  unfoldable pub append_at : ℕ → Digest → CatalogChunkRef → Step (World S E) SpineUpdate
  unfolding append_node
  append_at zero digest chunk = do
    node ← load_node env store json digest
    append_node 0 digest chunk (λ _. fail (other "attempt to subtract with overflow")) node
  append_at (suc h) digest chunk = do
    node ← load_node env store json digest
    append_node (suc h) digest chunk (λ d. append_at h d chunk) node

  -- The root over a root that was split.
  unfoldable pub grow_root : CatalogChild → CatalogChild → ℕ → Step (World S E) CatalogState
  grow_root left right height = do
    lift (
        refuse_if (ltb (2 ^ 8 - 1) (height + 1) || ltb max_catalog_height (height + 1))
          (rejected "catalog height exceeded"))
    span ← unwrap (child_span (left ∷ right ∷ []))
    digest ← put_node env store json (branch v1 (height + 1) (left ∷ right ∷ []))
    pure (root (root_of digest (height + 1) span))

  -- The root after an update of its node.
  unfoldable pub update_root : SpineUpdate → Step (World S E) CatalogState
  unfolding grow_root root_from_node
  update_root (grown digest height) = do
    node ← load_node env store json digest
    r ← unwrap (root_from_node digest node)
    pure (root r)
  update_root (split left right height) = grow_root left right height

  -- `append`.
  unfoldable pub append : CatalogState → CatalogChunkRef → Step (World S E) CatalogState
  unfolding append_at update_root
  append empty chunk = do
    lift (validate_ref chunk)
    lift (
        refuse_if (not (chunk.first_seq == 1))
          (integrity_error "first catalog chunk must start at sequence 1"))
    digest ← put_node env store json (leaf v1 (chunk ∷ []))
    pure (root (root_of digest 0 (chunk.first_seq, chunk.last_seq, 1)))
  append (root r) chunk = do
    lift (validate_ref chunk)
    lift (
        refuse_if (ltb (2 ^ 64 - 1) (r.last_seq + 1)) (integrity_error "catalog sequence overflow"))
    lift (
        refuse_if (not (chunk.first_seq == r.last_seq + 1))
          (integrity_error "catalog append {} is not contiguous after {}"))
    update ← append_at r.height r.digest chunk
    update_root update
