-- ===== src/Catalog/Seek.antt =====
-- crates/combctl/src/catalog.rs: seek_leaf, and the walk down the right spine.
pub mod Finds
use comb.Prelude.{
  ℕ, zero, suc, ◌+◌, Bool, false, not, ◌&&◌, ◌||◌, Option, none, some, List, [], ◌∷◌, ltb, leb,
  if◌then◌else◌,
}
use comb.Core.Error.{CoreError, Result, ok, err, integrity_error}
use comb.Core.Digest.{Digest}
use comb.Object.Step.{core, Step, ◌>>=◌, ◌>>◌, pure, lift, fail}
use comb.Store.Host.{Env, World}
use comb.Store.Keys.{Store}
use comb.Catalog.Node.{
  CatalogChunkRef, CatalogChild, ChunkCatalogRoot, CatalogState, empty, root, CatalogNode, leaf,
  branch, max_catalog_height, last_of,
}
use comb.Catalog.Objects.{CatalogJson, unwrap, load_node}

-- `seq >= first && seq <= last`.
abbrev pub covers : ℕ → ℕ → ℕ → Bool
covers first last seq = leb first seq && leb seq last

-- Whether a leaf covers a sequence number, by its first and last chunk.
unfoldable pub leaf_covers : List CatalogChunkRef → ℕ → Bool
unfolding last_of
leaf_covers [] seq = false
leaf_covers (r ∷ rest) seq = covers r.first_seq (last_of r rest).last_seq seq

-- `children.iter().find(..)`.
unfoldable pub find_child : List CatalogChild → ℕ → Option CatalogChild
find_child [] seq = none
find_child (c ∷ rest) seq =
    if covers c.first_seq c.last_seq seq then some c else find_child rest seq

module _ {S E : Type 0} (env : Env S E) (store : Store env) (json : CatalogJson) where
  -- A node of `seek_leaf`, with the rest of the loop.
  unfoldable pub seek_node :
      ℕ
      → (Digest → Step (World S E) (Option (List CatalogChunkRef)))
      → CatalogNode
      → Step (World S E) (Option (List CatalogChunkRef))
  unfolding leaf_covers find_child
  seek_node seq below (leaf schema refs) =
      if leaf_covers refs seq
      then pure (some refs)
      else fail (core (integrity_error "catalog leaf does not cover the seek"))
  seek_node seq below (branch schema height children) = elim (find_child children seq) [
    | none ↦ fail (core (integrity_error "catalog branch has no child covering the seek"))
    | some child ↦ below child.digest
  ]

  -- The loop, with the levels that are left.
  unfoldable pub seek_loop : ℕ → Digest → ℕ → Step (World S E) (Option (List CatalogChunkRef))
  unfolding seek_node
  seek_loop zero digest seq = fail (core (integrity_error "catalog seek exceeded height bound"))
  seek_loop (suc left) digest seq = do
    node ← load_node env store json digest
    seek_node seq (λ d. seek_loop left d seq) node

  -- `seek_leaf`.
  unfoldable pub seek_leaf : CatalogState → ℕ → Step (World S E) (Option (List CatalogChunkRef))
  unfolding seek_loop
  seek_leaf empty seq = pure none
  seek_leaf (root r) seq =
      if ltb seq r.first_seq || ltb r.last_seq seq
      then pure none
      else seek_loop (max_catalog_height + 1) r.digest seq

  -- A node of the walk, with the rest of the loop.
  unfoldable pub spine_node :
      (Digest → Step (World S E) (List Digest)) → CatalogNode → Step (World S E) (List Digest)
  unfolding last_of
  spine_node below (leaf schema refs) = pure []
  spine_node below (branch schema height []) = unwrap none
  spine_node below (branch schema height (c ∷ rest)) = do
    more ← below (last_of c rest).digest
    pure ((last_of c rest).digest ∷ more)

  unfoldable pub spine_loop : ℕ → Digest → Step (World S E) (List Digest)
  unfolding spine_node
  spine_loop zero digest = fail (core (integrity_error "catalog spine exceeded height bound"))
  spine_loop (suc left) digest = do
    node ← load_node env store json digest
    spine_node (λ d. spine_loop left d) node

  -- `walk_right_spine_digests`.
  unfoldable pub walk_right_spine_digests : CatalogState → Step (World S E) (List Digest)
  unfolding spine_loop
  walk_right_spine_digests empty = pure []
  walk_right_spine_digests (root r) = do
    below ← spine_loop (max_catalog_height + 1) r.digest
    pure (r.digest ∷ below)
