-- ===== src/Index/Check/Built.antt =====
-- A branch that an insert builds passes the checks of the walk that reads it.
use comb.Prelude.{ℕ, zero, suc, ◌+◌, ◌≡◌, inl, inr}
use comb.Prelude.{false, Option, List, [], ◌∷◌, arith}
use comb.Prelude.{ltb, length}
use comb.Core.Error.{ok, Result-cases}
use comb.Core.Crates.{Hex}
use comb.Core.Digest.{Digest}
use comb.Core.Operation.Stable.{StableKey}
use mathlib.Core.Path.{subst}
use comb.Prelude.Str.{eqs}
use comb.Index.Node.{
  IndexHead, HamtNode, branch, HamtChild, max_depth, node_schema, nibble, nibbles_from, path_prefix,
  branch_node, validate_slots,
}
use comb.Index.Check.{check_prefix, check_node}

module _ (x : Hex) (path : Digest) where
  -- The nibbles of a path pass the loop over the prefix.
  nibbles_pass :
      (d n : ℕ) (prefix : List ℕ)
      → nibbles_from x path d n ≡ ok prefix
      → (check_prefix x path d prefix ≡ ok tt) × (length prefix ≡ n)
  unfolding nibbles_from check_prefix
  nibbles_pass d zero [] h = ground arith
  nibbles_pass d zero (p ∷ ps) h = absurd (ground arith)
  nibbles_pass d (suc n) prefix h = elim (Result-cases (nibble x path d)) [
    | inr (e, q) ↦ absurd (ground arith)
    | inl (slot, q) ↦ elim (Result-cases (nibbles_from x path (d + 1) n)) [
      | inr (e, r) ↦ absurd (ground arith)
      | inl (rest, r) ↦
          subst (λ ps. (check_prefix x path d ps ≡ ok tt) × (length ps ≡ suc n))
            (whole slot rest q r) (both slot rest q (nibbles_pass (d + 1) n rest r))
    ]
  ]
    where
      whole :
          (slot : ℕ) (rest : List ℕ)
          → nibble x path d ≡ ok slot
          → nibbles_from x path (d + 1) n ≡ ok rest
          → slot ∷ rest ≡ prefix
      whole slot rest q r = ground arith

      both :
          (slot : ℕ) (rest : List ℕ)
          → nibble x path d ≡ ok slot
          → (check_prefix x path (d + 1) rest ≡ ok tt) × (length rest ≡ n)
          → (check_prefix x path d (slot ∷ rest) ≡ ok tt) × (length (slot ∷ rest) ≡ suc n)
      both slot rest q p = (ground arith, ground arith)

  -- A branch that `branch_node` builds on a path, over children in order, passes the checks of
  -- `load_node` on a walk of that path at that depth.
  pub branch_node-check_node :
      (path_of : StableKey → Digest) (depth : ℕ) (children : List HamtChild)
      (head : Option IndexHead) (node : HamtNode)
      → validate_slots children ≡ ok tt
      → branch_node x depth path children ≡ ok node
      → check_node x path_of node path depth head ≡ ok tt
  unfolding branch_node path_prefix check_node eqs
  branch_node-check_node path_of depth children head node v h =
      elim (Result-cases (nibbles_from x path 0 depth)) [
        | inr (e, r) ↦ absurd (ground arith)
        | inl (prefix, r) ↦
            subst (λ t. check_node x path_of t path depth head ≡ ok tt) (made prefix r)
              (passes prefix (nibbles_pass 0 depth prefix r))
      ]
    where
      made :
          (prefix : List ℕ)
          → nibbles_from x path 0 depth ≡ ok prefix
          → branch node_schema depth prefix children ≡ node
      made prefix r = ground arith

      shallow : ltb max_depth depth ≡ false
      shallow = ground arith

      passes :
          (prefix : List ℕ)
          → (check_prefix x path 0 prefix ≡ ok tt) × (length prefix ≡ depth)
          → check_node x path_of (branch node_schema depth prefix children) path depth head ≡ ok tt
      passes prefix p = ground (arith, shallow, p.0, p.1, v)
