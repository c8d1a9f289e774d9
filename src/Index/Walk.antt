-- ===== src/Index/Walk.antt =====
-- crates/combctl/src/hamt.rs: lookups and inserts in the stable index over a store of nodes.
pub mod Fuel
pub mod Found
use comb.Prelude.{ℕ, zero, suc, ◌+◌, ◌*◌}
use comb.Prelude.{◌&&◌, Option, none, some, List, [], ◌∷◌}
use comb.Prelude.{ltb, ◌==◌, if◌then◌else◌, length}
use comb.Prelude.Str.{Str, str, eqs}
use comb.Core.Error.{
  CoreError, not_found, already_exists, precondition_failed, fenced, lease_held, lease_expired,
  backend_unavailable, integrity_error, trimmed, invalid_format, object_too_large,
  unsupported_envelope_format, unknown_operation, idempotency_conflict, recovery_failed, rejected,
  stable_key_conflict, io, Result, ok, err, refuse_if, ok_or,
}
use comb.Core.Crates.{Hex, Blake3}
use comb.Core.Digest.{Digest, DigestKey}
use comb.Core.Operation.Stable.{StableKey}
use comb.Core.Operation.Material.{path_digest}
use comb.Core.Envelope.{EnvelopeReadSpec, blob, max_stable_index_node_object_bytes}
use comb.Object.Step.{
  AnyError, core, other, Outcome, done, failed, Step, ◌>>=◌, ◌>>◌, pure, lift, continue,
}
use comb.Index.Check.{check_node}
use comb.Index.Node.{
  StableIndexRoot, StableIndexEntry, IndexHead, HamtNode, branch, leaf, HamtChild, node_schema,
  max_node_bytes, max_depth, max_leaf_depth, new_root, validate_root, leaf_node, empty_branch,
  child, upsert_child, validate_leaf_range, check_root_against_head, check_root_shape, nibble,
  branch_node,
}

pub data Lookup : Type 0 where
  found : StableIndexEntry → Lookup
  absent : Lookup

-- What the index asks of a store (crates/combctl/src/store.rs): its tenant and key, bounded reads and
-- writes of blobs; and of serde_json: the text of nodes and of lists of entries.
pub record NodeStore (S : Type 0) : Type 0 where
  pub tenant : Str
  pub key : DigestKey
  pub get_blob_limited : Digest → EnvelopeReadSpec → Step S (List ℕ)
  pub put_blob : List ℕ → Step S Digest
  pub node_to_vec : HamtNode → Option (List ℕ)
  pub node_from_slice : List ℕ → Option HamtNode
  pub entries_to_vec : List StableIndexEntry → Option (List ℕ)

-- `HAMT_ENVELOPE_SCHEMAS`.
abbrev pub hamt_envelope_schemas : List Str
hamt_envelope_schemas = str "comb.object/v1" ∷ []

abbrev pub max_stable_admissions : ℕ
max_stable_admissions = 1024

abbrev pub max_stable_admission_bytes : ℕ
max_stable_admission_bytes = 256 * 1024

-- `map_node_read_error`.
unfoldable pub map_node_read_error : AnyError → AnyError
map_node_read_error (core (not_found k)) =
    core (integrity_error "stable index node {digest} is missing")
map_node_read_error (core (backend_unavailable m)) =
    core (backend_unavailable "stable index node {digest}: {m}")
map_node_read_error (core (io m)) = core (backend_unavailable "stable index node {digest}: {io}")
map_node_read_error (core (object_too_large k limit actual)) =
    core
      (integrity_error "stable index node {digest} exceeds encoded cap {limit} actual {actual:?}")
map_node_read_error (core (integrity_error m)) = core (integrity_error m)
map_node_read_error (core (invalid_format m)) = core (invalid_format m)
map_node_read_error (core e) =
    core (recovery_failed "unclassified stable index node error {digest}: {other}")
map_node_read_error (other m) = core (integrity_error "stable index node {digest}: {e:#}")

-- The match on the outcome of a read.
unfoldable pub map_read_error : {S T : Type 0} → Step S T → Step S T
unfolding map_node_read_error
map_read_error call s =
    let (outcome, after) = call s in
    (elim outcome [ done t ↦ done t | failed e ↦ failed (map_node_read_error e) ], after)

module _ (x : Hex) (b : Blake3) {S : Type 0} (store : NodeStore S) (logical_log : Str) where
  -- The path of a key.
  unfoldable pub path_of : StableKey → Digest
  path_of key = path_digest x b store.key key store.tenant logical_log

  -- The policy of `load_node`.
  unfoldable pub node_spec : EnvelopeReadSpec
  node_spec = record {
    tenant = store.tenant;
    kind = blob;
    allowed_schemas = hamt_envelope_schemas;
    max_encoded_bytes = max_stable_index_node_object_bytes;
    max_plaintext_bytes = max_node_bytes;
  }

  -- `load_node`.
  unfoldable pub load_node : Digest → Digest → ℕ → Option IndexHead → Step S HamtNode
  unfolding path_of map_read_error
  load_node digest walk_path depth head = do
    payload ← map_read_error (store.get_blob_limited digest node_spec)
    node ← lift (
        ok_or (store.node_from_slice payload)
          (integrity_error "stable index node {digest} is malformed: {e}"))
    lift (check_node x path_of node walk_path depth head)
    pure node

  -- `put_node`.
  unfoldable pub put_node : HamtNode → Step S Digest
  put_node node = elim (store.node_to_vec node) [
    | none ↦ λ s. (failed (other "serde_json"), s)
    | some bytes ↦ do
      lift (
          refuse_if (ltb max_node_bytes (length bytes))
            (rejected "stable index node encodes to {} bytes (max {MAX_NODE_BYTES})"))
      store.put_blob bytes
  ]

  -- `admissions_size`.
  unfoldable pub admissions_size : List StableIndexEntry → Outcome (Unit {0})
  admissions_size entries =
      if ltb max_stable_admissions (length entries)
      then failed (core (rejected "stable admissions {} exceed {MAX_STABLE_ADMISSIONS}"))
      else elim (store.entries_to_vec entries) [
        | none ↦ failed (other "serde_json")
        | some encoded ↦
            if ltb max_stable_admission_bytes (length encoded)
            then failed (core (rejected "stable admissions encode to {} bytes"))
            else done tt
      ]

  -- `empty_root`.
  unfoldable pub empty_root : Step S StableIndexRoot
  unfolding put_node
  empty_root = do digest ← put_node empty_branch; pure (new_root digest 0)

  too_deep : {T : Type 0} → Step S T
  too_deep = lift (err (integrity_error "stable index walk exceeded the 256-bit path"))

  -- The match on a node in `lookup`, where `again` is the next round of the loop.
  unfoldable pub lookup_node :
      StableKey → Digest → (Digest → Step S Lookup) → ℕ → HamtNode → Step S Lookup
  lookup_node key path again depth (leaf schema entry) =
      if eqs entry.key.raw key.raw then pure (found entry) else pure absent
  lookup_node key path again depth (branch schema node_depth prefix children) = do
    lift (
        refuse_if (ltb max_depth depth)
          (integrity_error "stable index branch {digest} sits past nibble 51"))
    slot ← lift (nibble x path depth)
    elim (child children slot) [ none ↦ pure absent | some next ↦ again next ]

  -- The body of the loop behind its depth guard.
  unfoldable pub lookup_step :
      StableIndexRoot
      → StableKey
      → Digest
      → IndexHead
      → (Digest → Step S Lookup)
      → Digest
      → ℕ
      → Step S Lookup
  unfolding load_node lookup_node
  lookup_step root key path head again digest depth = do
    node ← load_node digest path depth (some head)
    lift (if depth == 0 then check_root_shape root node else ok tt)
    (if depth == 0 && root.entries == 0 then pure absent else lookup_node key path again depth node)

  -- A round of the loop of `lookup`.
  unfoldable pub lookup_round :
      StableIndexRoot
      → StableKey
      → Digest
      → IndexHead
      → (Digest → Step S Lookup)
      → Digest
      → ℕ
      → Step S Lookup
  unfolding lookup_step too_deep
  lookup_round root key path head again digest depth =
      if ltb max_leaf_depth depth
      then too_deep
      else lookup_step root key path head again digest depth

  -- The loop of `lookup`, on fuel.
  unfoldable pub lookup_loop :
      StableIndexRoot → StableKey → Digest → IndexHead → ℕ → Digest → ℕ → Step S Lookup
  unfolding lookup_round too_deep
  lookup_loop root key path head zero digest depth = too_deep
  lookup_loop root key path head (suc fuel) digest depth =
      lookup_round root key path head (λ next. lookup_loop root key path head fuel next (depth + 1))
        digest depth

  -- `lookup`.
  unfoldable pub lookup : StableIndexRoot → StableKey → IndexHead → Step S Lookup
  unfolding lookup_loop path_of
  lookup root key head = do
    lift (validate_root root)
    lift (check_root_against_head root head)
    lookup_loop root key (path_of key) head 53 root.digest 0
