-- ===== src/Index/Walk/Fuel.antt =====
-- The loop of a lookup ends: its depth bounds the rounds.
use comb.Prelude.{ℕ, zero, suc, ◌+◌, ◌≤◌, ◌<◌, ◌≡◌, refl, sym, ap}
use comb.Prelude.{arith}
use mathlib.Core.Path.{fun_ext}
use comb.Prelude.Str.{Str}
use comb.Core.Crates.{Hex, Blake3}
use comb.Core.Digest.{Digest}
use comb.Core.Operation.Stable.{StableKey}
use comb.Object.Step.{Step}
use comb.Index.Node.{StableIndexRoot, IndexHead, max_leaf_depth}
use comb.Index.Walk.{NodeStore, Lookup, lookup_round, lookup_loop}

module _ (x : Hex) (b : Blake3) {S : Type 0} (store : NodeStore S) (logical_log : Str)
    (root : StableIndexRoot) (key : StableKey) (path : Digest) (head : IndexHead) where
  past_depth :
      (again : Digest → Step S Lookup) (digest : Digest) (depth n : ℕ)
      → max_leaf_depth < depth
      → lookup_round x b store logical_log root key path head again digest depth
        ≡ lookup_loop x b store logical_log root key path head 0 digest depth
  unfolding lookup_loop lookup_round
  past_depth again digest depth n h = ground arith

  -- The rounds that are left to depth 53 are enough fuel for the loop of `lookup`: any two amounts
  -- that cover them give the same run.
  pub lookup_loop_fuel :
      (n m : ℕ) (digest : Digest) (depth : ℕ)
      → 53 ≤ n + depth
      → 53 ≤ m + depth
      → lookup_loop x b store logical_log root key path head n digest depth
        ≡ lookup_loop x b store logical_log root key path head m digest depth
  unfolding lookup_loop
  lookup_loop_fuel zero zero digest depth h k = refl
  lookup_loop_fuel zero (suc m) digest depth h k = sym (past_depth _ digest depth 0 (omega arith))
  lookup_loop_fuel (suc n) zero digest depth h k = past_depth _ digest depth 0 (omega arith)
  lookup_loop_fuel (suc n) (suc m) digest depth h k =
      ap (λ again. lookup_round x b store logical_log root key path head again digest depth)
        (fun_ext (λ d. lookup_loop_fuel n m d (depth + 1) (omega arith) (omega arith)))
