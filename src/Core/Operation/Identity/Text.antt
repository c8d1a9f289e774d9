-- ===== src/Core/Operation/Identity/Text.antt =====
-- The canonical text of an identity reads back, and what reads is a proper identity.
use comb.Prelude.{◌≡◌, refl}
use comb.Prelude.{true, false, [], ◌∷◌, ◌++◌, arith}
use comb.Prelude.Str.{Str, starts_with}
use comb.Core.Error.{ok}
use comb.Core.Crates.{Hex, HexLaws}
use comb.Core.Operation.Id
use comb.Core.Operation.Id.{op_prefix}
use comb.Core.Operation.Stable
use comb.Core.Operation.Stable.{stable_prefix}
use comb.Core.Operation.Identity.{OpIdentity, IsIdentity, generic, stable, parse, canonical}

starts_with-append : (p s : Str) → starts_with p (p ++ s) ≡ true
unfolding starts_with
starts_with-append [] s = refl
starts_with-append (p ∷ ps) s = ground (arith, starts_with-append ps s)

id_starts : (op : Id.OperationId) → starts_with op_prefix (Id.to_string op) ≡ true
unfolding Id.to_string
id_starts op = starts_with-append op_prefix _

key_starts :
    (x : Hex) (k : Stable.StableKey) → starts_with stable_prefix (Stable.to_string x k) ≡ true
unfolding Stable.to_string
key_starts x k = starts_with-append stable_prefix (Stable.to_hex x k)

module _ {x : Hex} (xl : HexLaws x) where
  stable_is_not_generic :
      (k : Stable.StableKey) → starts_with op_prefix (Stable.to_string x k) ≡ false
  unfolding starts_with Stable.to_string
  stable_is_not_generic k = refl

  -- The canonical text of an identity reads back as that identity.
  pub parse-canonical : (i : OpIdentity) → IsIdentity i → parse x (canonical x i) ≡ ok i
  unfolding parse canonical
  parse-canonical (generic op) h = rw (id_starts op, Id.Text.parse-to_string op h)
  parse-canonical (stable k) h =
      rw (stable_is_not_generic k, key_starts x k, Stable.Text.parse-to_string xl k h)

  -- Every text that is read gives a proper identity.
  pub parse-IsIdentity : (s : Str) (i : OpIdentity) → parse x s ≡ ok i → IsIdentity i
  unfolding parse
  parse-IsIdentity s (generic op) h = (Id.Text.parse-IsId s op (ground arith)).0
  parse-IsIdentity s (stable k) h = Stable.Text.parse-IsKey xl s k (ground arith)
