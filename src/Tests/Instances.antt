-- ===== src/Tests/Instances.antt =====
-- Concrete functions for what other packages provide, with the laws that the theorems rely on.
use comb.Prelude.{ℕ, ◌+◌, ◌-◌, ◌*◌, ◌/◌, ◌%◌, ◌<◌, ◌≡◌, refl, inl, inr}
use comb.Prelude.{true, false, ◌&&◌, Option, none, some, List, [], ◌∷◌, arith}
use comb.Prelude.{ltb, leb, if◌then◌else◌, Option-cases, length, All}
use comb.Prelude.{replicate}
use comb.Prelude.Str.{Str}
use comb.Prelude.Decimal.{to_string}
use comb.Core.Crates.{
  Hex, HexLaws, Blake3, Blake3Laws, Chrono, ChronoLaws, IsByte, IsLowerHex, is_lower_hex,
}

hex_digit : ℕ → ℕ
hex_digit n = if ltb n 10 then 48 + n else 87 + n

hex_encode : List ℕ → Str
unfolding hex_digit
hex_encode [] = []
hex_encode (b ∷ bs) = hex_digit (b / 16) ∷ hex_digit (b % 16) ∷ hex_encode bs

digit_value : ℕ → Option ℕ
digit_value c =
    if leb 48 c && leb c 57
    then some (c - 48)
    else if leb 97 c && leb c 102
    then some (c - 87)
    else if leb 65 c && leb c 70
    then some (c - 55)
    else none

abbrev and_then {ℓ κ} : {A : Type ℓ} {B : Type κ} → Option A → (A → Option B) → Option B
and_then none f = none
and_then (some a) f = f a

digit_value-hex_digit : (n : ℕ) → n < 16 → digit_value (hex_digit n) ≡ some n
unfolding digit_value hex_digit
digit_value-hex_digit n h = ground arith

digit_value_bound : (c v : ℕ) → digit_value c ≡ some v → v < 16
unfolding digit_value
digit_value_bound c v h = ground arith

pair_value : ℕ → ℕ → Option ℕ
pair_value c d = and_then (digit_value c) (λ h. and_then (digit_value d) (λ l. some (h * 16 + l)))

hex_decode : Str → Option (List ℕ)
hex_decode [] = some []
hex_decode (c ∷ []) = none
hex_decode (c ∷ d ∷ s) =
    and_then (pair_value c d) (λ b. and_then (hex_decode s) (λ bs. some (b ∷ bs)))

pair_of_byte : (b : ℕ) → b < 256 → pair_value (hex_digit (b / 16)) (hex_digit (b % 16)) ≡ some b
unfolding pair_value
pair_of_byte b h = ground (
  arith,
  digit_value-hex_digit (b / 16) (omega arith),
  digit_value-hex_digit (b % 16) (omega arith),
)

pair_is_byte : (c d b : ℕ) → pair_value c d ≡ some b → b < 256
unfolding pair_value
pair_is_byte c d b h = elim (Option-cases (digit_value c)) [
  | inl missing ↦ absurd (ground arith)
  | inr (v, ev) ↦ elim (Option-cases (digit_value d)) [
    | inl missing ↦ absurd (ground arith)
    | inr (w, ew) ↦ ground (arith, digit_value_bound c v ev, digit_value_bound d w ew)
  ]
]

decode-encode : (b : List ℕ) → All IsByte b → hex_decode (hex_encode b) ≡ some b
unfolding hex_decode hex_encode
decode-encode [] h = refl
decode-encode (b ∷ bs) h = rw (pair_of_byte b h.0, decode-encode bs h.1)

length-encode : (b : List ℕ) → length (hex_encode b) ≡ 2 * length b
unfolding hex_encode
length-encode [] = refl
length-encode (b ∷ bs) = omega (arith, length-encode bs)

hex_digit-IsLowerHex : (n : ℕ) → n < 16 → IsLowerHex (hex_digit n)
unfolding is_lower_hex hex_digit
hex_digit-IsLowerHex n h = ground arith

encode-IsLowerHex : (b : List ℕ) → All IsByte b → All IsLowerHex (hex_encode b)
unfolding hex_encode
encode-IsLowerHex [] h = tt
encode-IsLowerHex (b ∷ bs) h = (
  hex_digit-IsLowerHex (b / 16) (omega arith),
  (hex_digit-IsLowerHex (b % 16) (omega arith), encode-IsLowerHex bs h.1),
)

hex_decode_cons :
    (c d : ℕ) (s : Str) (b : List ℕ)
    → hex_decode (c ∷ d ∷ s) ≡ some b
    → (v : ℕ) × (vs : List ℕ) × (pair_value c d ≡ some v) × (hex_decode s ≡ some vs) × (b ≡ v ∷ vs)
unfolding hex_decode
hex_decode_cons c d s b h = elim (Option-cases (pair_value c d)) [
  | inl missing ↦ absurd (ground arith)
  | inr (v, ev) ↦ elim (Option-cases (hex_decode s)) [
    | inl missing ↦ absurd (ground arith)
    | inr (vs, es) ↦ (v, vs, ev, es, ground arith)
  ]
]

decode-IsByte : (s : Str) (b : List ℕ) → hex_decode s ≡ some b → All IsByte b
decode-IsByte [] b h = unfold hex_decode in ground arith
decode-IsByte (c ∷ []) b h = unfold hex_decode in cc
decode-IsByte (c ∷ d ∷ s) b h =
    let (v, vs, ev, es, e) = hex_decode_cons c d s b h in
    rw e (pair_is_byte c d v ev, decode-IsByte s vs es)

length-decode : (s : Str) (b : List ℕ) → hex_decode s ≡ some b → length s ≡ 2 * length b
length-decode [] b h = unfold hex_decode in ground arith
length-decode (c ∷ []) b h = unfold hex_decode in cc
length-decode (c ∷ d ∷ s) b h =
    let (v, vs, ev, es, e) = hex_decode_cons c d s b h in
    rw e (omega (arith, length-decode s vs es))

unfoldable pub hex : Hex
unfolding hex_encode hex_decode pair_value digit_value
hex = record { encode = hex_encode; decode = hex_decode }

pub hex_laws : HexLaws hex
unfolding hex
hex_laws = record {
  decode-encode = decode-encode;
  length-encode = length-encode;
  encode-IsLowerHex = encode-IsLowerHex;
  decode-IsByte = decode-IsByte;
  length-decode = length-decode;
}

-- A toy hash: 32 times a sum of the input.
sum : List ℕ → ℕ
sum [] = 0
sum (x ∷ xs) = x + sum xs

unfoldable pub blake3 : Blake3
unfolding sum
blake3 = record {
  keyed_hash = λ k m. replicate 32 ((sum k + sum m) % 256);
  hash = λ m. replicate 32 (sum m % 256);
}

byte_of_sum : (n : ℕ) → n % 256 < 256
byte_of_sum n = omega arith

pub blake3_laws : Blake3Laws blake3
unfolding blake3
blake3_laws = record {
  length-keyed_hash = λ k m. refl;
  keyed_hash-IsByte = λ k m. omega (arith, byte_of_sum (sum k + sum m));
}

-- Instants and durations in milliseconds.
abbrev pub chrono : Chrono
chrono = record {
  Time = ℕ;
  Delta = ℕ;
  add = λ t d. t + d;
  before = ltb;
  from_timestamp_millis = λ n. some n;
  timestamp_millis = λ t. some t;
  epoch = 0;
  to_rfc3339 = to_string;
}

before_irrefl : (s : ℕ) → ltb s s ≡ false
before_irrefl s = ground arith

before_trans : (s t u : ℕ) → ltb s t ≡ true → ltb t u ≡ true → ltb s u ≡ true
before_trans s t u h k = ground arith

before_total : (s t : ℕ) → ltb s t ≡ false → ltb t s ≡ false → s ≡ t
before_total s t h k = ground arith

before_add : (s t d : ℕ) → ltb (s + d) (t + d) ≡ ltb s t
before_add s t d = ground arith

pub chrono_laws : ChronoLaws chrono
chrono_laws = record {
  before_irrefl = before_irrefl;
  before_trans = before_trans;
  before_total = before_total;
  before_add = before_add;
}
