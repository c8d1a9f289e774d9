-- ===== src/Core/Operation/Stable.antt =====
-- crates/comb-core/src/operation.rs: `StableKey`, an opaque append key of 1 to 512 bytes.
pub mod Text
use comb.Prelude.{ℕ, ◌*◌, ◌%◌, ◌≤◌}
use comb.Prelude.{not, ◌||◌, List, ◌++◌}
use comb.Prelude.{ltb, ◌==◌, length, All}
use comb.Prelude.Str.{Str, str, len, strip_prefix}
use comb.Core.Error.{Result, ok, err, invalid_format, rejected, ok_or, refuse_if, ◌>>=◌, ◌>>◌}
use comb.Core.Crates.{Hex, IsByte}

pub record StableKey : Type 0 where
  pub raw : List ℕ

abbrev pub max_stable_key_bytes : ℕ
max_stable_key_bytes = 512

abbrev pub stable_prefix : Str
stable_prefix = str "sk_"

pub record IsKey (k : StableKey) : Type 0 where
  pub nonempty : 1 ≤ length k.raw
  pub bounded : length k.raw ≤ max_stable_key_bytes
  pub of_bytes : All IsByte k.raw

-- `StableKey::try_from_canonical`.
unfoldable pub try_from_canonical : List ℕ → Result StableKey
try_from_canonical bytes = do
  refuse_if (length bytes == 0 || ltb max_stable_key_bytes (length bytes))
      (rejected "stable key must be 1..{MAX_STABLE_KEY_BYTES} bytes")
  ok (record { raw = bytes })

module _ (x : Hex) where
  -- `StableKey::to_hex`.
  unfoldable pub to_hex : StableKey → Str
  to_hex k = x.encode k.raw

  -- `StableKey::from_hex`.
  unfoldable pub from_hex : Str → Result StableKey
  from_hex s = do
    refuse_if (ltb (max_stable_key_bytes * 2) (len s))
        (rejected "stable key hex exceeds {} characters")
    refuse_if (not (len s % 2 == 0)) (invalid_format "stable key hex must have even length")
    raw ← ok_or (x.decode s) (invalid_format "stable key hex: {e}")
    try_from_canonical raw

  -- `StableKey::parse`.
  unfoldable pub parse : Str → Result StableKey
  unfolding from_hex
  parse s = do
    rest ←
        ok_or (strip_prefix stable_prefix s)
          (invalid_format "stable key must start with {STABLE_PREFIX}")
    from_hex rest

  -- `Display`.
  unfoldable pub to_string : StableKey → Str
  unfolding to_hex
  to_string k = stable_prefix ++ to_hex k
