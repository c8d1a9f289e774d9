-- ===== src/Core/Operation/Stable/Text.antt =====
-- The text of a stable key reads back, and every key that is read has 1 to 512 bytes.
use comb.Prelude.{◌*◌, ◌≡◌, inl, inr}
use comb.Prelude.{some, arith}
use comb.Prelude.{Option-cases, length, All-map}
use comb.Prelude.Str.{Str, len, strip_prefix, strip_prefix-append, bytes-IsAscii}
use comb.Core.Error.{ok}
use comb.Core.Crates.{Hex, HexLaws, IsLowerHex-IsAscii}
use comb.Core.Operation.Stable.{
  StableKey, IsKey, stable_prefix, try_from_canonical, to_hex, parse, to_string,
}

module _ {x : Hex} (xl : HexLaws x) where
  len-to_hex : (k : StableKey) → IsKey k → len (to_hex x k) ≡ 2 * length k.raw
  unfolding to_hex
  len-to_hex k h =
      rw
        (bytes-IsAscii (x.encode k.raw)
          (All-map _ _ IsLowerHex-IsAscii _ (xl.encode-IsLowerHex k.raw h.of_bytes)))
        (xl.length-encode k.raw)

  -- The text of a key of 1 to 512 bytes reads back.
  pub parse-to_string : (k : StableKey) → IsKey k → parse x (to_string x k) ≡ ok k
  unfolding parse to_string try_from_canonical to_hex
  parse-to_string k h = ground (
    arith,
    strip_prefix-append stable_prefix (x.encode k.raw),
    len-to_hex k h,
    xl.decode-encode k.raw h.of_bytes,
  )

  -- Every text that is read gives a key of 1 to 512 bytes.
  pub parse-IsKey : (s : Str) (k : StableKey) → parse x s ≡ ok k → IsKey k
  unfolding parse try_from_canonical
  parse-IsKey s k h = elim (Option-cases (strip_prefix stable_prefix s)) [
    | inl missing ↦ absurd (ground arith)
    | inr (rest, found) ↦
        let decoded : x.decode rest ≡ some k.raw = ground arith in
        record {
          nonempty = ground arith;
          bounded = ground arith;
          of_bytes = xl.decode-IsByte rest k.raw decoded;
        }
  ]
