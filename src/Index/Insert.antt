-- ===== src/Index/Insert.antt =====
-- crates/combctl/src/hamt.rs: inserts in the stable index.
pub mod Rounds
use comb.Prelude.{ℕ, zero, suc, ◌+◌, ◌-◌, ◌^◌}
use comb.Prelude.{not, none, some, []}
use comb.Prelude.{ltb, ◌==◌, if◌then◌else◌}
use comb.Prelude.Str.{Str, str, eqs}
use comb.Core.Error.{
  CoreError, not_found, already_exists, precondition_failed, fenced, lease_held, lease_expired,
  backend_unavailable, integrity_error, trimmed, invalid_format, object_too_large,
  unsupported_envelope_format, unknown_operation, idempotency_conflict, recovery_failed, rejected,
  stable_key_conflict, io, Result, ok, err, refuse_if, ok_or,
}
use comb.Core.Crates.{Hex, Blake3}
use comb.Core.Digest.{Digest, DigestKey}
use comb.Core.Operation.Stable.{StableKey}
use comb.Core.Operation.Material.{path_digest}
use comb.Core.Envelope.{EnvelopeReadSpec, blob, max_stable_index_node_object_bytes}
use comb.Object.Step.{
  AnyError, core, other, Outcome, done, failed, Step, ◌>>=◌, ◌>>◌, pure, lift, continue,
}
use comb.Index.Check.{check_node}
use comb.Index.Node.{
  StableIndexRoot, StableIndexEntry, IndexHead, HamtNode, branch, leaf, HamtChild, node_schema,
  max_node_bytes, max_depth, max_leaf_depth, new_root, validate_root, leaf_node, empty_branch,
  child, upsert_child, validate_leaf_range, check_root_against_head, check_root_shape, nibble,
  branch_node,
}
use comb.Index.Walk.{NodeStore, path_of, load_node, put_node}

module _ (x : Hex) (b3 : Blake3) {S : Type 0} (store : NodeStore S) (logical_log : Str) where
  collision : {T : Type 0} → Step S T
  collision = lift (err (rejected "stable key path hash collision"))

  -- A node of two leaves of different nibbles, or of one child: the ends of `split`.
  unfoldable pub put_fork : StableIndexEntry → Digest → ℕ → StableIndexEntry → ℕ → ℕ → Step S Digest
  unfolding put_node
  put_fork a a_path sa b sb depth = do
    da ← put_node x b3 store logical_log (leaf_node a)
    db ← put_node x b3 store logical_log (leaf_node b)
    node ← lift (branch_node x depth a_path (upsert_child (upsert_child [] sa da) sb db))
    put_node x b3 store logical_log node

  -- A call of `split`, where `deeper` is the call one level down.
  unfoldable pub split_step :
      StableIndexEntry
      → Digest
      → StableIndexEntry
      → Digest
      → IndexHead
      → Step S Digest
      → ℕ
      → Step S Digest
  unfolding collision put_fork
  split_step a a_path b b_path head deeper depth = do
    lift (validate_leaf_range a.first a.last a.generation head)
    lift (validate_leaf_range b.first b.last b.generation head)
    lift (refuse_if (ltb max_depth depth) (rejected "stable key path hash collision"))
    sa ← lift (nibble x a_path depth)
    sb ← lift (nibble x b_path depth)
    (if not (sa == sb) then put_fork a a_path sa b sb depth else (do
      lift (refuse_if (depth == max_depth) (rejected "stable key path hash collision"))
      below ← deeper
      node ← lift (branch_node x depth a_path (upsert_child [] sa below))
      put_node x b3 store logical_log node))

  -- `split`, on fuel.
  unfoldable pub split :
      StableIndexEntry → Digest → StableIndexEntry → Digest → IndexHead → ℕ → ℕ → Step S Digest
  unfolding split_step
  split a a_path b b_path head zero depth = collision
  split a a_path b b_path head (suc fuel) depth =
      split_step a a_path b b_path head (split a a_path b b_path head fuel (depth + 1)) depth

  -- A call of `insert_at`, where `deeper` is the call one level down.
  unfoldable pub insert_step :
      StableIndexEntry
      → Digest
      → IndexHead
      → (HamtNode → Step S Digest)
      → ℕ
      → HamtNode
      → ℕ
      → Step S Digest
  unfolding collision split
  insert_step entry path head deeper fuel (leaf schema old) depth =
      if ltb max_leaf_depth depth then collision else (do
        lift (
            refuse_if (eqs old.key.raw entry.key.raw)
              (recovery_failed "stable index insert of a key that already has a leaf"))
        lift (refuse_if (ltb max_depth depth) (rejected "stable key path hash collision"))
        split old (path_of x b3 store logical_log old.key) entry path head fuel depth)
  insert_step entry path head deeper fuel (branch schema node_depth prefix children) depth =
      if ltb max_leaf_depth depth then collision else (do
        lift (
            refuse_if (ltb max_depth depth)
              (integrity_error "stable index branch sits past nibble 51"))
        slot ← lift (nibble x path depth)
        updated ← elim (child children slot) [
          | none ↦ put_node x b3 store logical_log (leaf_node entry)
          | some next ↦ do
            node ← load_node x b3 store logical_log next path (depth + 1) (some head)
            deeper node
        ]
        node ← lift (branch_node x depth path (upsert_child children slot updated))
        put_node x b3 store logical_log node)

  -- `insert_at`, on fuel.
  unfoldable pub insert_at :
      StableIndexEntry → Digest → IndexHead → ℕ → HamtNode → ℕ → Step S Digest
  unfolding insert_step
  insert_at entry path head zero node depth = collision
  insert_at entry path head (suc fuel) node depth =
      insert_step entry path head (λ below. insert_at entry path head fuel below (depth + 1))
        (suc fuel) node depth

  -- `insert`; `checked_add` of a `u64`.
  unfoldable pub insert_entry :
      StableIndexRoot → StableIndexEntry → IndexHead → Step S StableIndexRoot
  unfolding insert_at
  insert_entry root entry head = do
    lift (validate_root root)
    lift (check_root_against_head root head)
    lift (validate_leaf_range entry.first entry.last entry.generation head)
    let path = path_of x b3 store logical_log entry.key
    root_node ← load_node x b3 store logical_log root.digest path 0 (some head)
    lift (check_root_shape root root_node)
    new_digest ← insert_at entry path head 53 root_node 0
    lift (
        refuse_if (ltb (2 ^ 64 - 1) (root.entries + 1))
          (rejected "stable index entry count overflow"))
    pure (new_root new_digest (root.entries + 1))
