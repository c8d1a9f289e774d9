-- ===== src/Index/Check.antt =====
-- crates/combctl/src/hamt.rs: the checks of `load_node` on a node that was read.
pub mod Built
use comb.Prelude.{ℕ, zero, suc, ◌+◌}
use comb.Prelude.{not, Option, none, some, List, [], ◌∷◌}
use comb.Prelude.{ltb, ◌==◌, length}
use comb.Prelude.Str.{Str, str, eqs}
use comb.Core.Error.{Result, ok, err, integrity_error, refuse_if, ◌>>=◌, ◌>>◌}
use comb.Core.Crates.{Hex}
use comb.Core.Digest.{Digest}
use comb.Core.Operation.Stable.{StableKey}
use comb.Index.Node.{
  StableIndexEntry, IndexHead, HamtNode, branch, leaf, HamtChild, node_schema, max_depth,
  validate_slots, validate_leaf_range, nibble,
}

module _ (x : Hex) where
  -- The loop over the prefix of a branch, from depth `d` on.
  unfoldable pub check_prefix : Digest → ℕ → List ℕ → Result (Unit {0})
  check_prefix walk_path d [] = ok tt
  check_prefix walk_path d (slot ∷ slots) = do
    walked ← nibble x walk_path d
    refuse_if (not (slot == walked))
        (integrity_error "stable index branch {digest} is stored on the wrong path at depth {d}")
    check_prefix walk_path (d + 1) slots

  -- The loop over the `n` depths from `d` on, that a leaf was reached through.
  unfoldable pub check_hops : Digest → Digest → ℕ → ℕ → Result (Unit {0})
  check_hops walk_path leaf_path d zero = ok tt
  check_hops walk_path leaf_path d (suc n) = do
    walked ← nibble x walk_path d
    own ← nibble x leaf_path d
    refuse_if (not (walked == own))
        (integrity_error "stable index leaf {digest} is stored on the wrong path at depth {d}")
    check_hops walk_path leaf_path (d + 1) n

  -- The match on the node in `load_node`; `path_of` is the path of a key.
  unfoldable pub check_node :
      (StableKey → Digest) → HamtNode → Digest → ℕ → Option IndexHead → Result (Unit {0})
  unfolding check_prefix check_hops
  check_node path_of (branch schema node_depth prefix children) walk_path depth head = do
    refuse_if (not (eqs schema node_schema))
        (integrity_error "stable index node {digest} has schema {schema}")
    refuse_if (not (node_depth == depth)) (
        integrity_error
          "stable index branch {digest} claims depth {node_depth}, walk is at {depth}")
    refuse_if (ltb max_depth depth)
        (integrity_error "stable index branch {digest} sits past nibble 51")
    refuse_if (not (length prefix == depth)) (
        integrity_error
          "stable index branch {digest} prefix length {} disagrees with depth {depth}")
    check_prefix walk_path 0 prefix
    validate_slots children
  check_node path_of (leaf schema entry) walk_path depth head = do
    refuse_if (not (eqs schema node_schema))
        (integrity_error "stable index node {digest} has schema {schema}")
    check_hops walk_path (path_of entry.key) 0 depth
    elim head [
      | none ↦ ok tt
      | some h ↦ validate_leaf_range entry.first entry.last entry.generation h
    ]
