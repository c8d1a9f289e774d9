-- ===== src/Catalog/Node.antt =====
-- crates/combctl/src/catalog.rs: chunk refs, nodes and roots, their validation and their spans.
use comb.Prelude.{
  ℕ, ◌+◌, ◌-◌, ◌*◌, ◌%◌, ◌^◌, Bool, not, ◌&&◌, ◌||◌, Option, none, some, List, [], ◌∷◌, ltb, ◌==◌,
  length,
}
use comb.Prelude.Str.{Str, str}
use comb.Core.Error.{CoreError, Result, ok, integrity_error, refuse_if, ◌>>◌}
use comb.Core.Digest.{Digest}
use mathlib.Core.Option

abbrev pub max_catalog_node_object_bytes : ℕ
max_catalog_node_object_bytes = 16 * 1024

abbrev pub max_catalog_items : ℕ
max_catalog_items = 32

abbrev pub max_catalog_height : ℕ
max_catalog_height = 8

abbrev pub catalog_node_schema : Str
catalog_node_schema = str "comb.log.chunk-catalog-node/v1"

pub data CatalogSchemaV1 : Type 0 where
  v1 : CatalogSchemaV1

pub record CatalogChunkRef : Type 0 where
  pub digest : Digest
  pub first_seq : ℕ
  pub last_seq : ℕ
  pub event_count : ℕ
  pub raw_payload_bytes : ℕ
  pub plaintext_bytes : ℕ

pub record CatalogChild : Type 0 where
  pub first_seq : ℕ
  pub last_seq : ℕ
  pub chunk_count : ℕ
  pub digest : Digest

pub record ChunkCatalogRoot : Type 0 where
  pub schema : CatalogSchemaV1
  pub digest : Digest
  pub height : ℕ
  pub first_seq : ℕ
  pub last_seq : ℕ
  pub chunk_count : ℕ

pub data CatalogState : Type 0 where
  empty : CatalogState
  root : ChunkCatalogRoot → CatalogState

pub data CatalogNode : Type 0 where
  leaf : CatalogSchemaV1 → List CatalogChunkRef → CatalogNode
  branch : CatalogSchemaV1 → ℕ → List CatalogChild → CatalogNode

-- `validate_ref`.
unfoldable pub validate_ref : CatalogChunkRef → Result (Unit {0})
validate_ref r = do
  refuse_if (r.first_seq == 0 || ltb r.last_seq r.first_seq || r.event_count == 0)
      (integrity_error "catalog chunk ref has an impossible range")
  refuse_if (not (r.last_seq - r.first_seq + 1 == r.event_count))
      (integrity_error "catalog chunk ref event_count does not match sequence span")

-- `prev.checked_add(1) == Some(first)`.
unfoldable pub follows : ℕ → ℕ → Bool
follows prev first = ltb (prev + 1) (2 ^ 64) && first == prev + 1

-- The check against `prev_last`, which the first item of a node passes.
unfoldable pub check_follows : Option ℕ → ℕ → CoreError → Result (Unit {0})
unfolding follows
check_follows none first e = ok tt
check_follows (some prev) first e = refuse_if (not (follows prev first)) e

-- The loop of `validate_leaf_refs`.
unfoldable pub validate_refs : Option ℕ → List CatalogChunkRef → Result (Unit {0})
unfolding validate_ref check_follows
validate_refs prev [] = ok tt
validate_refs prev (r ∷ rest) = do
  validate_ref r
  check_follows prev r.first_seq (integrity_error "catalog leaf ranges are gapped or overlapping")
  validate_refs (some r.last_seq) rest

-- `is_empty() || len() > MAX_CATALOG_ITEMS`.
abbrev pub is_bad_width : {T : Type 0} → List T → Bool
is_bad_width items = length items == 0 || ltb max_catalog_items (length items)

-- `validate_leaf_refs`.
unfoldable pub validate_leaf_refs : List CatalogChunkRef → Result (Unit {0})
unfolding validate_refs
validate_leaf_refs refs = do
  refuse_if (is_bad_width refs) (integrity_error "catalog leaf width is invalid")
  validate_refs none refs

-- The range check of a child.
unfoldable pub validate_child : CatalogChild → Result (Unit {0})
validate_child c =
    refuse_if
      (c.first_seq == 0
        || ltb c.last_seq c.first_seq
        || c.chunk_count == 0
        || ltb (c.last_seq - c.first_seq + 1) c.chunk_count)
      (integrity_error "catalog child has an impossible range")

-- The loop of `validate_children`.
unfoldable pub validate_ranges : Option ℕ → List CatalogChild → Result (Unit {0})
unfolding validate_child check_follows
validate_ranges prev [] = ok tt
validate_ranges prev (c ∷ rest) = do
  validate_child c
  check_follows prev c.first_seq (integrity_error "catalog child ranges are gapped or overlapping")
  validate_ranges (some c.last_seq) rest

-- `validate_children`.
unfoldable pub validate_children : List CatalogChild → ℕ → Result (Unit {0})
unfolding validate_ranges
validate_children children height = do
  refuse_if (is_bad_width children) (integrity_error "catalog branch width is invalid")
  refuse_if (height == 0 || ltb max_catalog_height height)
      (integrity_error "catalog branch height is invalid")
  validate_ranges none children

-- `CatalogNode::validate`.
unfoldable pub validate : CatalogNode → Result (Unit {0})
unfolding validate_leaf_refs validate_children
validate (leaf schema refs) = validate_leaf_refs refs
validate (branch schema height children) = validate_children children height

-- `slice::last` of an item and the items behind it.
unfoldable pub last_of {ℓ} : {T : Type ℓ} → T → List T → T
last_of x [] = x
last_of x (y ∷ rest) = last_of y rest

-- First and last sequence number and number of chunks.
abbrev pub Span : Type 0
Span = ℕ × ℕ × ℕ

-- `leaf_span`, whose `unwrap` on an empty leaf is `none`.
unfoldable pub leaf_span : List CatalogChunkRef → Option Span
unfolding last_of
leaf_span [] = none
leaf_span (r ∷ rest) = some (r.first_seq, (last_of r rest).last_seq, length (r ∷ rest) % 2 ^ 64)

-- The sum of the counts, in a `u64`.
unfoldable pub count_chunks : List CatalogChild → ℕ
count_chunks [] = 0
count_chunks (c ∷ rest) = (c.chunk_count + count_chunks rest) % 2 ^ 64

-- `child_span`.
unfoldable pub child_span : List CatalogChild → Option Span
unfolding last_of count_chunks
child_span [] = none
child_span (c ∷ rest) = some (c.first_seq, (last_of c rest).last_seq, count_chunks (c ∷ rest))

abbrev pub child_of : Digest → Span → CatalogChild
child_of digest (first, last, count) = record {
  first_seq = first;
  last_seq = last;
  chunk_count = count;
  digest = digest;
}

-- `child_from_leaf`.
unfoldable pub child_from_leaf : Digest → List CatalogChunkRef → Option CatalogChild
unfolding leaf_span
child_from_leaf digest refs = Option.map (child_of digest) (leaf_span refs)

-- `child_from_branch`.
unfoldable pub child_from_branch : Digest → List CatalogChild → Option CatalogChild
unfolding child_span
child_from_branch digest children = Option.map (child_of digest) (child_span children)

abbrev pub root_of : Digest → ℕ → Span → ChunkCatalogRoot
root_of digest height (first, last, count) = record {
  schema = v1;
  digest = digest;
  height = height;
  first_seq = first;
  last_seq = last;
  chunk_count = count;
}

-- `root_from_node`.
unfoldable pub root_from_node : Digest → CatalogNode → Option ChunkCatalogRoot
unfolding leaf_span child_span
root_from_node digest (leaf schema refs) = Option.map (root_of digest 0) (leaf_span refs)
root_from_node digest (branch schema height children) =
    Option.map (root_of digest height) (child_span children)
