-- ===== src/Tests/Indexes.antt =====
-- Runs of the index: a store of two nodes, a root and the leaf below it.
use comb.Prelude.{ℕ, ◌+◌, ◌≡◌, refl}
use comb.Prelude.{Option, none, some, List, [], ◌∷◌, arith}
use comb.Prelude.{◌==◌, if◌then◌else◌}
use comb.Prelude.Str.{str, eqs}
use comb.Core.Error.{ok}
use comb.Core.Digest.{Digest, DigestKey}
use comb.Core.Operation.Stable.{StableKey}
use comb.Object.Step.{Step, Outcome, done, failed}
use comb.Index.Node.{
  StableIndexRoot, StableIndexEntry, IndexHead, HamtNode, branch, leaf, HamtChild, node_schema,
  new_root, validate_slots, upsert_child, child, nibble, branch_node, fanout, max_depth,
  validate_leaf_range,
}
use comb.Index.Node.Slots.{upsert_child_lem}
use comb.Index.Check.{check_node}
use comb.Index.Walk.{NodeStore, found, lookup_loop, lookup, path_of}
use comb.Index.Walk.Fuel.{lookup_loop_fuel}
use comb.Index.Walk.Found.{InRange, lookup-found}
use comb.Index.Insert.{insert_at}
use comb.Index.Insert.Rounds.{insert_at_fuel}
use comb.Tests.Instances.{hex, blake3}

abbrev order : StableKey
order = record { raw = 7 ∷ [] }

abbrev names : List ℕ → Digest
names h = record { hex = h }

abbrev entry : StableIndexEntry
entry = record { key = order; payload_hash = names []; first = 1; last = 2; generation = 3 }

abbrev head : IndexHead
head = record { generation = 4; head_seq = 9 }

abbrev slot_of_order : ℕ
slot_of_order = 24

abbrev read_node : List ℕ → Option HamtNode
read_node bytes =
    if eqs bytes (str "root")
    then some (
        branch node_schema 0 [] (record { slot = slot_of_order; digest = names (str "leaf") } ∷ []))
    else if eqs bytes (str "leaf")
    then some (leaf node_schema entry)
    else none

-- The blob of a digest is its text; the state counts the calls.
abbrev nodes : NodeStore ℕ
nodes = record {
  tenant = str "t";
  key = record { raw = [] };
  get_blob_limited = λ digest spec n. (done digest.hex, n + 1);
  put_blob = λ bytes n. (done (names bytes), n + 1);
  node_to_vec = λ node. some (str "node");
  node_from_slice = read_node;
  entries_to_vec = λ entries. some [];
}

abbrev root : StableIndexRoot
root = new_root (names (str "root")) 1

abbrev path : Digest
path = path_of hex blake3 nodes (str "log") order

abbrev children : List HamtChild
children = record { slot = 3; digest = names [] } ∷ []

children_valid : validate_slots children ≡ ok tt
unfolding validate_slots
children_valid = refl

upsert_child_lem_example :
    (validate_slots (upsert_child children 2 path) ≡ ok tt)
    × ((other : ℕ)
        → child (upsert_child children 2 path) other
          ≡ (if 2 == other then some path else child children other))
upsert_child_lem_example = upsert_child_lem children 2 path children_valid (omega arith)

abbrev built : HamtNode
built = branch node_schema 1 (24 ∷ []) children

branch_built : branch_node hex 1 path children ≡ ok built
unfolding branch_node comb.Core.Digest.raw hex path_of comb.Core.Operation.Material.path_digest
    comb.Core.Digest.digest blake3 comb.Core.Operation.Material.put_all
    comb.Core.Operation.Material.put_bytes comb.Core.Operation.Material.put_u64
    comb.Prelude.Str.bytes
branch_built = refl

order_found : lookup hex blake3 nodes (str "log") root order head 0 ≡ (done (found entry), 2)
unfolding lookup comb.Object.Step.continue comb.Index.Node.validate_root eqs new_root
    comb.Index.Node.check_root_against_head check_node validate_slots
    comb.Index.Node.check_root_shape nibble child comb.Core.Digest.raw hex
    comb.Core.Operation.Material.path_digest comb.Core.Digest.digest blake3
    comb.Core.Operation.Material.put_all comb.Core.Operation.Material.put_bytes
    comb.Core.Operation.Material.put_u64 comb.Prelude.Str.bytes path_of validate_leaf_range
order_found = refl

lookup-found_example : (entry.key.raw ≡ order.raw) × InRange entry head
lookup-found_example =
    lookup-found hex blake3 nodes (str "log") root order head 0 2 entry order_found

lookup_loop_fuel_example :
    lookup_loop hex blake3 nodes (str "log") root order path head 53 root.digest 0
    ≡ lookup_loop hex blake3 nodes (str "log") root order path head 60 root.digest 0
lookup_loop_fuel_example =
    lookup_loop_fuel hex blake3 nodes (str "log") root order path head 53 60 root.digest 0
      (omega arith) (omega arith)

insert_at_fuel_example :
    insert_at hex blake3 nodes (str "log") entry path head 53 built 0
    ≡ insert_at hex blake3 nodes (str "log") entry path head 60 built 0
insert_at_fuel_example =
    insert_at_fuel hex blake3 nodes (str "log") head entry path 53 60 built 0 (omega arith)
      (omega arith)
