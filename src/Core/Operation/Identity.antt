-- ===== src/Core/Operation/Identity.antt =====
-- crates/comb-core/src/operation.rs: `OpIdentity`, a generic operation id or a stable key.
pub mod Text
use comb.Prelude.{Bool, true, false}
use comb.Prelude.{if◌then◌else◌, take}
use comb.Prelude.Str.{Str, bytes, starts_with}
use comb.Core.Error.{Result, ok, err, invalid_format, ◌>>=◌}
use comb.Core.Crates.{Hex, Blake3, Chrono}
use comb.Core.Operation.Id
use comb.Core.Operation.Id.{OperationId, IsId, OperationPolicy, op_prefix, check_time}
use comb.Core.Operation.Stable
use comb.Core.Operation.Stable.{StableKey, IsKey, stable_prefix}

pub data OpIdentity : Type 0 where
  generic : OperationId → OpIdentity
  stable : StableKey → OpIdentity

abbrev pub IsIdentity : OpIdentity → Type 0
IsIdentity (generic op) = IsId op
IsIdentity (stable k) = IsKey k

-- `OpIdentity::parse`.
unfoldable pub parse : Hex → Str → Result OpIdentity
parse x s =
    if starts_with op_prefix s
    then (do op ← Id.parse s; ok (generic op))
    else if starts_with stable_prefix s
    then (do k ← Stable.parse x s; ok (stable k))
    else err (invalid_format "identity must start with op_ or sk_")

-- `OpIdentity::canonical`.
unfoldable pub canonical : Hex → OpIdentity → Str
canonical x (generic op) = Id.to_string op
canonical x (stable k) = Stable.to_string x k

-- `OpIdentity::is_stable`.
unfoldable pub is_stable : OpIdentity → Bool
is_stable (generic op) = false
is_stable (stable k) = true

-- `OpIdentity::shard`: the first byte of the hash of the canonical text.
unfoldable pub shard : Hex → Blake3 → OpIdentity → Str
unfolding canonical
shard x b i = x.encode (take 1 (b.hash (bytes (canonical x i))))

-- `OpIdentity::check_time`.
unfoldable pub check_identity_time :
    (c : Chrono) → OpIdentity → c.Time → OperationPolicy c → Bool → Result (Unit {0})
check_identity_time c (generic op) now policy had_intent = check_time c op now policy had_intent
check_identity_time c (stable k) now policy had_intent = ok tt
