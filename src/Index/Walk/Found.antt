-- ===== src/Index/Walk/Found.antt =====
-- What a lookup returns: an entry of the key that was asked for, in a range that the head allows.
use comb.Prelude.{ℕ, zero, suc, ◌+◌, ◌≤◌, ◌≡◌, ◌↔◌, inl, inr}
use comb.Prelude.{true, ◌&&◌, Option, some, arith}
use comb.Prelude.{ltb, ◌==◌, Bool-cases, Option-cases}
use mathlib.Core.Path.{subst}
use comb.Prelude.Str.{Str, eqs, eqs_iff}
use comb.Core.Error.{ok}
use comb.Core.Crates.{Hex, Blake3}
use comb.Core.Digest.{Digest}
use comb.Core.Operation.Stable.{StableKey}
use comb.Object.Step.{Step, done}
use comb.Object.Step.Inversion.{continue-eq_done, lift-eq_done}
use comb.Index.Node.{
  StableIndexRoot, StableIndexEntry, IndexHead, HamtNode, branch, leaf, max_leaf_depth, child,
  validate_leaf_range,
}
use comb.Index.Check.{check_node}
use comb.Index.Walk.{
  NodeStore, Lookup, found, lookup_node, lookup_step, lookup_round, lookup_loop, lookup, load_node,
  path_of,
}

-- A range of sequence numbers that a publication up to the head can have made.
pub record InRange (e : StableIndexEntry) (head : IndexHead) : Type 0 where
  pub starts : 1 ≤ e.first
  pub ordered : e.first ≤ e.last
  pub within : e.last ≤ head.head_seq
  pub generation_made : 1 ≤ e.generation
  pub generation_known : e.generation ≤ head.generation

-- `validate_leaf_range` accepts exactly the ranges of a known generation that end by the head.
pub validate_leaf_range_iff :
    (e : StableIndexEntry) (head : IndexHead)
    → validate_leaf_range e.first e.last e.generation head ≡ ok tt ↔ InRange e head
unfolding validate_leaf_range
validate_leaf_range_iff e head = (
  λ h. record {
    starts = ground arith;
    ordered = ground arith;
    within = ground arith;
    generation_made = ground arith;
    generation_known = ground arith;
  },
  λ r. ground (arith, r.starts, r.ordered, r.within, r.generation_made, r.generation_known),
)

module _ (x : Hex) (b : Blake3) {S : Type 0} (store : NodeStore S) (logical_log : Str) where
  load_node-checked :
      (digest path : Digest) (depth : ℕ) (head : Option IndexHead) (node : HamtNode) (s after : S)
      → load_node x b store logical_log digest path depth head s ≡ (done node, after)
      → check_node x (path_of x b store logical_log) node path depth head ≡ ok tt
  unfolding load_node
  load_node-checked digest path depth head node s after h =
      let (payload, s1, e1, h1) = continue-eq_done _ _ h in
      let (read, s2, e2, h2) = continue-eq_done _ _ h1 in
      let (u, s3, e3, h3) = continue-eq_done _ _ h2 in
      let (c, same) = lift-eq_done _ s2 e3 in ground arith

  check_node-leaf :
      (schema : Str) (e : StableIndexEntry) (path : Digest) (depth : ℕ) (head : IndexHead)
      → check_node x (path_of x b store logical_log) (leaf schema e) path depth (some head) ≡ ok tt
      → InRange e head
  unfolding check_node
  check_node-leaf schema e path depth head h = (validate_leaf_range_iff e head).0 (ground arith)

  module _ (root : StableIndexRoot) (key : StableKey) (path : Digest) (head : IndexHead) where
    IsAnswer : StableIndexEntry → Type 0
    IsAnswer e = (e.key.raw ≡ key.raw) × InRange e head

    -- What the rest of the loop returns is an answer.
    Sound : (Digest → Step S Lookup) → Type 0
    Sound again =
        (d : Digest) (s after : S) (e : StableIndexEntry)
        → again d s ≡ (done (found e), after)
        → IsAnswer e

    lookup_node-found :
        (again : Digest → Step S Lookup) (depth : ℕ) (node : HamtNode) (e : StableIndexEntry)
        (s after : S)
        → Sound again
        → check_node x (path_of x b store logical_log) node path depth (some head) ≡ ok tt
        → lookup_node x b store logical_log key path again depth node s ≡ (done (found e), after)
        → IsAnswer e
    unfolding lookup_node IsAnswer Sound
    lookup_node-found again depth (leaf schema entry) e s after deeper c h =
        elim (Bool-cases (eqs entry.key.raw key.raw)) [
          | inl t ↦
              subst IsAnswer (same t)
                ((eqs_iff _ _).0 t, check_node-leaf schema entry path depth head c)
          | inr t ↦ absurd (ground arith)
        ]
      where
        same : eqs entry.key.raw key.raw ≡ true → entry ≡ e
        same t = ground arith
    lookup_node-found again depth (branch schema node_depth prefix children) e s after deeper c h =
        let (u, s1, e1, h1) = continue-eq_done _ _ h in
        let (slot, s2, e2, h2) = continue-eq_done _ _ h1 in
        elim (Option-cases (child children slot)) [
          | inl n ↦ absurd (ground arith)
          | inr (next, n) ↦ deeper next s2 after e (ground arith)
        ]

    lookup_step-found :
        (again : Digest → Step S Lookup) (digest : Digest) (depth : ℕ) (e : StableIndexEntry)
        (s after : S)
        → Sound again
        → lookup_step x b store logical_log root key path head again digest depth s
          ≡ (done (found e), after)
        → IsAnswer e
    unfolding lookup_step
    lookup_step-found again digest depth e s after deeper h =
        let (node, s1, e1, h1) = continue-eq_done _ _ h in
        let (u, s2, e2, h2) = continue-eq_done _ _ h1 in
        elim (Bool-cases (depth == 0 && root.entries == 0)) [
          | inl t ↦ absurd (ground arith)
          | inr t ↦
              lookup_node-found again depth node e s2 after deeper
                (load_node-checked digest path depth (some head) node s s1 e1) (ground arith)
        ]

    lookup_loop-found :
        (fuel depth : ℕ)
        → Sound (λ d. lookup_loop x b store logical_log root key path head fuel d depth)
    unfolding lookup_loop lookup_round Sound
    lookup_loop-found zero depth d s after e h = absurd (ground arith)
    lookup_loop-found (suc fuel) depth d s after e h =
        elim (Bool-cases (ltb max_leaf_depth depth)) [
          | inl t ↦ absurd (ground arith)
          | inr t ↦
              lookup_step-found _ d depth e s after (lookup_loop-found fuel (depth + 1))
                (ground arith)
        ]

  -- An entry that a lookup finds is of the key that was asked for, and its range and generation are
  -- among those that the head allows, whatever the store returned.
  pub lookup-found :
      (root : StableIndexRoot) (key : StableKey) (head : IndexHead) (s after : S)
      (e : StableIndexEntry)
      → lookup x b store logical_log root key head s ≡ (done (found e), after)
      → (e.key.raw ≡ key.raw) × InRange e head
  unfolding lookup Sound IsAnswer
  lookup-found root key head s after e h =
      let (u, s1, e1, h1) = continue-eq_done _ _ h in
      let (v, s2, e2, h2) = continue-eq_done _ _ h1 in
      lookup_loop-found root key (path_of x b store logical_log key) head 53 0 root.digest s2 after
        e h2
