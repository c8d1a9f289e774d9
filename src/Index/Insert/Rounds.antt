-- ===== src/Index/Insert/Rounds.antt =====
-- Inserts and splits end: their depth bounds the calls.
use comb.Prelude.{ℕ, zero, suc, ◌+◌, ◌≤◌, ◌<◌, ◌≡◌, refl, sym, ap, ◌∙◌, inl, inr}
use comb.Prelude.{true, false, arith}
use comb.Prelude.{ltb, ◌==◌, Bool-cases}
use mathlib.Core.Path.{fun_ext}
use comb.Prelude.Str.{Str}
use comb.Core.Crates.{Hex, Blake3}
use comb.Core.Digest.{Digest}
use comb.Object.Step.{Step, continue}
use comb.Index.Node.{StableIndexEntry, IndexHead, HamtNode, branch, leaf, max_leaf_depth, max_depth}
use comb.Index.Walk.{NodeStore, path_of}
use comb.Index.Insert.{split_step, split, insert_step, insert_at}

module _ (x : Hex) (b3 : Blake3) {S : Type 0} (store : NodeStore S) (logical_log : Str)
    (head : IndexHead) where
  module _ (a : StableIndexEntry) (a_path : Digest) (b : StableIndexEntry) (b_path : Digest) where
    -- At the last depth and past it, `split` does not call itself.
    last_split :
        (deeper other : Step S Digest) (depth : ℕ)
        → max_depth ≤ depth
        → split_step x b3 store logical_log a a_path b b_path head deeper depth
          ≡ split_step x b3 store logical_log a a_path b b_path head other depth
    unfolding split_step continue
    last_split deeper other depth h = elim (Bool-cases (ltb max_depth depth)) [
      | inl t ↦ rw t
      | inr t ↦ rw (last t)
    ]
      where
        last : ltb max_depth depth ≡ false → (depth == max_depth) ≡ true
        last t = ground arith

    split_fuel :
        (n m depth : ℕ)
        → 53 ≤ suc n + depth
        → 53 ≤ suc m + depth
        → split x b3 store logical_log a a_path b b_path head (suc n) depth
          ≡ split x b3 store logical_log a a_path b b_path head (suc m) depth
    unfolding split
    split_fuel zero m depth h k = last_split _ _ depth (omega arith)
    split_fuel (suc n) zero depth h k = last_split _ _ depth (omega arith)
    split_fuel (suc n) (suc m) depth h k =
        ap (λ deeper. split_step x b3 store logical_log a a_path b b_path head deeper depth)
          (split_fuel n m (depth + 1) (omega arith) (omega arith))

  module _ (entry : StableIndexEntry) (path : Digest) where
    past_insert :
        (deeper : HamtNode → Step S Digest) (fuel : ℕ) (node : HamtNode) (depth : ℕ)
        → max_leaf_depth < depth
        → insert_step x b3 store logical_log entry path head deeper fuel node depth
          ≡ insert_at x b3 store logical_log entry path head 0 node depth
    unfolding insert_step insert_at
    past_insert deeper fuel (leaf schema old) depth h = ground arith
    past_insert deeper fuel (branch schema node_depth prefix children) depth h = ground arith

    more_split :
        (deeper : HamtNode → Step S Digest) (n m : ℕ) (node : HamtNode) (depth : ℕ)
        → 53 ≤ suc n + depth
        → 53 ≤ suc m + depth
        → insert_step x b3 store logical_log entry path head deeper (suc n) node depth
          ≡ insert_step x b3 store logical_log entry path head deeper (suc m) node depth
    unfolding insert_step
    more_split deeper n m (leaf schema old) depth h k =
        rw (split_fuel old (path_of x b3 store logical_log old.key) entry path n m depth h k)
    more_split deeper n m (branch schema node_depth prefix children) depth h k = refl

    -- The levels that are left to depth 53 are enough fuel for `insert_at` and the `split` in it: any
    -- two amounts that cover them give the same run.
    pub insert_at_fuel :
        (n m : ℕ) (node : HamtNode) (depth : ℕ)
        → 53 ≤ n + depth
        → 53 ≤ m + depth
        → insert_at x b3 store logical_log entry path head n node depth
          ≡ insert_at x b3 store logical_log entry path head m node depth
    unfolding insert_at
    insert_at_fuel zero zero node depth h k = refl
    insert_at_fuel zero (suc m) node depth h k =
        sym (past_insert _ (suc m) node depth (omega arith))
    insert_at_fuel (suc n) zero node depth h k = past_insert _ (suc n) node depth (omega arith)
    insert_at_fuel (suc n) (suc m) node depth h k =
        more_split _ n m node depth h k
        ∙ ap
            (λ deeper. insert_step x b3 store logical_log entry path head deeper (suc m) node depth)
            (fun_ext (λ below. insert_at_fuel n m below (depth + 1) (omega arith) (omega arith)))
