-- ===== src/Prelude/Str.antt =====
-- Rust's `str`: a list of Unicode scalar values. `bytes` is its UTF-8 form, and `len` counts bytes.
use comb.Prelude.Tests.{ltb, leb, ◌==◌, if◌then◌else◌}
use comb.Prelude.Lists.{length, length-append, All}
use Prim.Native.Nat.{ℕ, ◌+◌, ◌/◌, ◌%◌, ◌≤◌, ◌<◌}
use Prim.Native.Char.{code}
use Prim.Native.String.{String}
use mathlib.Core.Path.{◌≡◌, refl}
use mathlib.Core.Logic.{◌↔◌}
use mathlib.Core.Bool.{Bool, true, false, ◌&&◌}
use mathlib.Core.Option.{Option, none, some}
use mathlib.Core.List.{List, [], ◌∷◌, ◌++◌, map}
use native.Mathlib.Omega.{arith}

abbrev pub Str : Type 0
Str = List ℕ

-- A text literal of the source.
abbrev pub str : String → Str
str String.[] = []
str (String.◌∷◌ c s) = code c ∷ str s

-- `==` on slices and texts.
unfoldable pub eqs : List ℕ → List ℕ → Bool
eqs [] [] = true
eqs [] (y ∷ ys) = false
eqs (x ∷ xs) [] = false
eqs (x ∷ xs) (y ∷ ys) = x == y && eqs xs ys

pub eqs_iff : (xs ys : List ℕ) → (eqs xs ys ≡ true) ↔ (xs ≡ ys)
unfolding eqs
eqs_iff [] [] = (λ h. refl, λ h. refl)
eqs_iff [] (y ∷ ys) = (λ h. cc, λ h. cc)
eqs_iff (x ∷ xs) [] = (λ h. cc, λ h. cc)
eqs_iff (x ∷ xs) (y ∷ ys) = ground (arith, eqs_iff xs ys)

-- The UTF-8 form of one scalar value.
unfoldable pub encode_utf8 : ℕ → List ℕ
encode_utf8 c =
    if ltb c 0x80
    then c ∷ []
    else if ltb c 0x800
    then (0xc0 + c / 64) ∷ (0x80 + c % 64) ∷ []
    else if ltb c 0x10000
    then (0xe0 + c / 4096) ∷ (0x80 + c / 64 % 64) ∷ (0x80 + c % 64) ∷ []
    else (0xf0 + c / 262144) ∷ (0x80 + c / 4096 % 64) ∷ (0x80 + c / 64 % 64) ∷ (0x80 + c % 64) ∷ []

unfoldable pub bytes : Str → List ℕ
unfolding encode_utf8
bytes [] = []
bytes (c ∷ s) = encode_utf8 c ++ bytes s

-- `str::len`.
abbrev pub len : Str → ℕ
len s = length (bytes s)

-- `str::strip_prefix`.
unfoldable pub strip_prefix : Str → Str → Option Str
strip_prefix [] s = some s
strip_prefix (p ∷ ps) [] = none
strip_prefix (p ∷ ps) (c ∷ s) = if p == c then strip_prefix ps s else none

-- `str::starts_with`.
unfoldable pub starts_with : Str → Str → Bool
starts_with [] s = true
starts_with (p ∷ ps) [] = false
starts_with (p ∷ ps) (c ∷ s) = p == c && starts_with ps s

pub strip_prefix-append : (p s : Str) → strip_prefix p (p ++ s) ≡ some s
unfolding strip_prefix
strip_prefix-append [] s = refl
strip_prefix-append (p ∷ ps) s = ground (arith, strip_prefix-append ps s)

pub strip_prefix-eq_some : (p s r : Str) → strip_prefix p s ≡ some r → s ≡ p ++ r
unfolding strip_prefix
strip_prefix-eq_some [] s r h = cc
strip_prefix-eq_some (p ∷ ps) [] r h = cc
strip_prefix-eq_some (p ∷ ps) (c ∷ s) r h = ground (arith, strip_prefix-eq_some ps s r)

abbrev pub IsAscii : ℕ → Type 0
IsAscii c = c < 128

-- An ASCII text is its own UTF-8 form.
pub bytes-IsAscii : (s : Str) → All IsAscii s → bytes s ≡ s
unfolding bytes
bytes-IsAscii [] h = refl
bytes-IsAscii (c ∷ s) h = ground (arith, bytes-IsAscii s h.1)

length-encode_utf8 : (c : ℕ) → 1 ≤ length (encode_utf8 c)
unfolding encode_utf8
length-encode_utf8 c = ground arith

encode_utf8-one : (c : ℕ) → length (encode_utf8 c) ≤ 1 → IsAscii c
unfolding encode_utf8
encode_utf8-one c h = ground arith

pub length-le-len : (s : Str) → length s ≤ len s
unfolding bytes
length-le-len [] = omega arith
length-le-len (c ∷ s) =
    omega (arith, length-append (encode_utf8 c) (bytes s), length-encode_utf8 c, length-le-len s)

-- A text with as many bytes as characters is ASCII.
pub IsAscii-of_len : (s : Str) → len s ≤ length s → All IsAscii s
unfolding bytes
IsAscii-of_len [] h = tt
IsAscii-of_len (c ∷ s) h = (
  encode_utf8-one c (omega (arith, h, length-append (encode_utf8 c) (bytes s), length-le-len s)),
  IsAscii-of_len s
      (omega (arith, h, length-append (encode_utf8 c) (bytes s), length-encode_utf8 c)),
)

-- `to_ascii_lowercase` of one character.
unfoldable pub to_ascii_lowercase : ℕ → ℕ
to_ascii_lowercase c = if leb b'A' c && leb c b'Z' then c + 32 else c

length-encode_utf8_lower :
    (c : ℕ) → length (encode_utf8 (to_ascii_lowercase c)) ≡ length (encode_utf8 c)
unfolding encode_utf8 to_ascii_lowercase
length-encode_utf8_lower c = ground arith

pub len-map_lower : (s : Str) → len (map to_ascii_lowercase s) ≡ len s
unfolding bytes
len-map_lower [] = refl
len-map_lower (c ∷ s) = omega (
  arith,
  length-append (encode_utf8 (to_ascii_lowercase c)) (bytes (map to_ascii_lowercase s)),
  length-append (encode_utf8 c) (bytes s),
  length-encode_utf8_lower c,
  len-map_lower s,
)
