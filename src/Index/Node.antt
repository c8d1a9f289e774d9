-- ===== src/Index/Node.antt =====
-- crates/combctl/src/hamt.rs: the nodes of the stable index and the checks on them.
pub mod Slots
pub mod Nibbles
use comb.Prelude.{ℕ, zero, suc, ◌+◌, ◌-◌, ◌*◌, ◌/◌, ◌%◌, ◌^◌}
use comb.Prelude.{Bool, true, false, not, ◌&&◌, ◌||◌, Option, none, some, List, [], ◌∷◌, ◌++◌, map}
use comb.Prelude.{ltb, leb, ◌==◌, if◌then◌else◌, length, get_or}
use comb.Prelude.Str.{Str, str, eqs}
use comb.Core.Error.{Result, ok, err, integrity_error, rejected, refuse_if, ◌>>=◌, ◌>>◌}
use comb.Core.Crates.{Hex}
use comb.Core.Digest.{Digest, raw}
use comb.Core.Operation.Stable.{StableKey}
use mathlib.Core.Option

abbrev pub node_schema : Str
node_schema = str "comb.log.stable-index-node/v1"

abbrev pub root_schema : Str
root_schema = str "comb.log.stable-index-root/v1"

abbrev pub max_node_bytes : ℕ
max_node_bytes = 4 * 1024

abbrev pub fanout : ℕ
fanout = 32

abbrev pub max_depth : ℕ
max_depth = 51

abbrev pub max_leaf_depth : ℕ
max_leaf_depth = 52

pub record StableIndexRoot : Type 0 where
  pub schema : Str
  pub digest : Digest
  pub entries : ℕ

pub record StableIndexEntry : Type 0 where
  pub key : StableKey
  pub payload_hash : Digest
  pub first : ℕ
  pub last : ℕ
  pub generation : ℕ

pub record IndexHead : Type 0 where
  pub generation : ℕ
  pub head_seq : ℕ

pub record HamtChild : Type 0 where
  pub slot : ℕ
  pub digest : Digest

-- The fields of a leaf besides its schema are those of an entry.
pub data HamtNode : Type 0 where
  branch : Str → ℕ → List ℕ → List HamtChild → HamtNode
  leaf : Str → StableIndexEntry → HamtNode

-- `StableIndexRoot::new`.
unfoldable pub new_root : Digest → ℕ → StableIndexRoot
new_root digest entries = record { schema = root_schema; digest = digest; entries = entries }

-- `StableIndexRoot::validate`.
unfoldable pub validate_root : StableIndexRoot → Result (Unit {0})
validate_root root =
    refuse_if (not (eqs root.schema root_schema))
      (integrity_error "unsupported stable index root schema {}")

unfoldable pub leaf_node : StableIndexEntry → HamtNode
leaf_node entry = leaf node_schema entry

unfoldable pub empty_branch : HamtNode
empty_branch = branch node_schema 0 [] []

-- `child`.
unfoldable pub child : List HamtChild → ℕ → Option Digest
child [] slot = none
child (c ∷ cs) slot = if c.slot == slot then some c.digest else child cs slot

-- `iter_mut().find(..)` and the assignment through it.
unfoldable pub update_child : List HamtChild → ℕ → Digest → Option (List HamtChild)
update_child [] slot digest = none
update_child (c ∷ cs) slot digest =
    if c.slot == slot
    then some (record { slot = c.slot; digest = digest } ∷ cs)
    else Option.map (λ ds. c ∷ ds) (update_child cs slot digest)

-- A stable sort by slot.
unfoldable pub insert_by_slot : HamtChild → List HamtChild → List HamtChild
insert_by_slot c [] = c ∷ []
insert_by_slot c (d ∷ ds) = if leb c.slot d.slot then c ∷ d ∷ ds else d ∷ insert_by_slot c ds

unfoldable pub sort_by_slot : List HamtChild → List HamtChild
unfolding insert_by_slot
sort_by_slot [] = []
sort_by_slot (c ∷ cs) = insert_by_slot c (sort_by_slot cs)

-- `upsert_child`.
unfoldable pub upsert_child : List HamtChild → ℕ → Digest → List HamtChild
unfolding update_child sort_by_slot
upsert_child children slot digest = elim (update_child children slot digest) [
  | some updated ↦ updated
  | none ↦ sort_by_slot (children ++ record { slot = slot; digest = digest } ∷ [])
]

-- The order of slots: the loop of `validate_slots`, with `prev` as it goes.
unfoldable pub validate_order : Option ℕ → List HamtChild → Result (Unit {0})
validate_order prev [] = ok tt
validate_order prev (c ∷ cs) = do
  refuse_if (leb fanout c.slot) (integrity_error "stable index node {digest} has slot {}")
  refuse_if (elim prev [ none ↦ false | some p ↦ leb c.slot p ])
      (integrity_error "stable index node {digest} slots are not strictly ordered")
  validate_order (some c.slot) cs

-- `validate_slots`.
unfoldable pub validate_slots : List HamtChild → Result (Unit {0})
unfolding validate_order
validate_slots children = do
  refuse_if (ltb fanout (length children))
      (integrity_error "stable index node {digest} fanout {} exceeds {FANOUT}")
  validate_order none children

-- `validate_leaf_range`.
unfoldable pub validate_leaf_range : ℕ → ℕ → ℕ → IndexHead → Result (Unit {0})
validate_leaf_range first last generation head = do
  refuse_if (first == 0 || ltb last first)
      (integrity_error "stable index leaf {digest} has impossible range {first}..{last}")
  refuse_if (generation == 0 || ltb head.generation generation)
      (integrity_error "stable index leaf {digest} generation {generation} disagrees with head {}")
  refuse_if (ltb head.head_seq last)
      (integrity_error "stable index leaf {digest} range ends at {last} past head_seq {}")
  ok tt

-- `check_root_against_head`.
unfoldable pub check_root_against_head : StableIndexRoot → IndexHead → Result (Unit {0})
check_root_against_head root head =
    refuse_if (ltb head.head_seq root.entries)
      (integrity_error "stable index claims {} entries past head_seq {}")

is_empty : {T : Type 0} → List T → Bool
is_empty [] = true
is_empty (t ∷ ts) = false

-- `check_root_shape`.
unfoldable pub check_root_shape : StableIndexRoot → HamtNode → Result (Unit {0})
unfolding is_empty
check_root_shape root (branch schema depth prefix children) =
    if root.entries == 0
    then refuse_if (not (depth == 0 && is_empty prefix && is_empty children)) (
        integrity_error
          "stable index root {digest} claims zero entries but is not an empty depth-0 branch")
    else refuse_if (is_empty children)
        (integrity_error "stable index root {digest} claims {n} entries but has no children")
check_root_shape root (leaf schema entry) = refuse_if (root.entries == 0) (
    integrity_error
      "stable index root {digest} claims zero entries but is not an empty depth-0 branch")

-- Bit `b` of a path, from the high end; past the 32 bytes the bits are 0.
unfoldable pub path_bit : List ℕ → ℕ → ℕ
path_bit bytes b = if ltb (b / 8) 32 then get_or bytes (b / 8) 0 / 2 ^ (7 - b % 8) % 2 else 0

-- `n` rounds of the loop of `nibble`; `acc << 1 | bit` is a sum.
unfoldable pub gather_bits : List ℕ → ℕ → ℕ → ℕ → ℕ
unfolding path_bit
gather_bits bytes zero b acc = acc
gather_bits bytes (suc n) b acc = gather_bits bytes n (b + 1) (acc * 2 + path_bit bytes b)

module _ (x : Hex) where
  -- `nibble`. A path is a computed digest, so its `raw` is there.
  unfoldable pub nibble : Digest → ℕ → Result ℕ
  unfolding gather_bits
  nibble path depth = do
    refuse_if (ltb max_depth depth) (rejected "stable key path depth")
    ok (gather_bits (Option.get_or (raw x path) []) 5 (depth * 5) 0)

  -- The nibbles of depths `d`, .., `d + n - 1`.
  unfoldable pub nibbles_from : Digest → ℕ → ℕ → Result (List ℕ)
  unfolding nibble
  nibbles_from path d zero = ok []
  nibbles_from path d (suc n) = do
    first ← nibble path d
    rest ← nibbles_from path (d + 1) n
    ok (first ∷ rest)

  -- `path_prefix`.
  unfoldable pub path_prefix : Digest → ℕ → Result (List ℕ)
  unfolding nibbles_from
  path_prefix path depth = nibbles_from path 0 depth

  -- `branch_node`; a depth of at most 51 fits a `u8`.
  unfoldable pub branch_node : ℕ → Digest → List HamtChild → Result HamtNode
  unfolding path_prefix
  branch_node depth path children = do
    refuse_if (ltb max_depth depth) (rejected "stable key path hash collision")
    prefix ← path_prefix path depth
    ok (branch node_schema depth prefix children)
