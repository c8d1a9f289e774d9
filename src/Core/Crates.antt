-- ===== src/Core/Crates.antt =====
-- What the source takes from other packages, as interfaces: `hex`, `blake3` and `chrono`.
-- Each is a record of operations, and a record of the documented laws that theorems rely on.
use comb.Prelude.{
  ℕ, ◌*◌, ◌<◌, ◌≡◌, Bool, true, false, ◌&&◌, ◌||◌, Option, some, List, All, length, leb, arith,
}
use comb.Prelude.Str.{Str, IsAscii}

abbrev pub IsByte : ℕ → Type 0
IsByte b = b < 256

-- `is_ascii_hexdigit() && !is_ascii_uppercase()`.
unfoldable pub is_lower_hex : ℕ → Bool
is_lower_hex b = (leb b'0' b && leb b b'9') || (leb b'a' b && leb b b'f')

abbrev pub IsLowerHex : ℕ → Type 0
IsLowerHex b = is_lower_hex b ≡ true

pub IsLowerHex-IsAscii : (b : ℕ) → IsLowerHex b → IsAscii b
unfolding is_lower_hex
IsLowerHex-IsAscii b h = ground arith

-- The `hex` crate: lowercase encoding, and decoding of either case.
pub record Hex : Type 0 where
  pub encode : List ℕ → Str
  pub decode : Str → Option (List ℕ)

pub record HexLaws (h : Hex) : Type 0 where
  pub decode-encode : (b : List ℕ) → All IsByte b → h.decode (h.encode b) ≡ some b
  pub length-encode : (b : List ℕ) → length (h.encode b) ≡ 2 * length b
  pub encode-IsLowerHex : (b : List ℕ) → All IsByte b → All IsLowerHex (h.encode b)
  pub decode-IsByte : (s : Str) (b : List ℕ) → h.decode s ≡ some b → All IsByte b
  pub length-decode : (s : Str) (b : List ℕ) → h.decode s ≡ some b → length s ≡ 2 * length b

-- The `blake3` crate: keyed and plain hashing to 32 bytes.
pub record Blake3 : Type 0 where
  pub keyed_hash : List ℕ → List ℕ → List ℕ
  pub hash : List ℕ → List ℕ

pub record Blake3Laws (b : Blake3) : Type 0 where
  pub length-keyed_hash : (k m : List ℕ) → length (b.keyed_hash k m) ≡ 32
  pub keyed_hash-IsByte : (k m : List ℕ) → All IsByte (b.keyed_hash k m)

-- The `chrono` crate: instants and durations, with `<` on instants.
pub record Chrono : Type 1 where
  pub Time : Type 0
  pub Delta : Type 0
  pub add : Time → Delta → Time
  pub before : Time → Time → Bool
  pub from_timestamp_millis : ℕ → Option Time
  pub timestamp_millis : Time → Option ℕ
  pub epoch : Time
  pub to_rfc3339 : Time → Str

-- `<` is a strict total order on instants, which adding one duration to both keeps.
pub record ChronoLaws (c : Chrono) : Type 0 where
  pub before_irrefl : (s : c.Time) → c.before s s ≡ false
  pub before_trans :
      (s t u : c.Time) → c.before s t ≡ true → c.before t u ≡ true → c.before s u ≡ true
  pub before_total : (s t : c.Time) → c.before s t ≡ false → c.before t s ≡ false → s ≡ t
  pub before_add : (s t : c.Time) (d : c.Delta) → c.before (c.add s d) (c.add t d) ≡ c.before s t
