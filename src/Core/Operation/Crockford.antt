-- ===== src/Core/Operation/Crockford.antt =====
-- crates/comb-core/src/operation.rs: Crockford base 32, from and to bytes.
-- A `u32` shift is written with its wrap; `|` of disjoint bits is `+`, and masks of low ones are `%`.
pub mod RoundTrip
pub mod Shape
use comb.Prelude.{ℕ, zero, suc, ◌+◌, ◌-◌, ◌*◌, ◌/◌, ◌%◌, ◌^◌, ◌&&◌, ◌||◌, Option, none, some}
use comb.Prelude.{List, [], ◌∷◌, ◌++◌, get_or, ltb, leb, ◌==◌, if◌then◌else◌}
use comb.Prelude.Str.{Str, str}
use comb.Core.Error.{Result, ok, err, invalid_format, ok_or, ◌>>=◌}
use mathlib.Core.Option

-- `CROCKFORD`.
abbrev pub crockford : List ℕ
crockford = str "0123456789ABCDEFGHJKMNPQRSTVWXYZ"

-- `CROCKFORD[idx] as char`.
unfoldable pub symbol : ℕ → ℕ
symbol i = get_or crockford i 0

abbrev pub u32_mod : ℕ
u32_mod = 2 ^ 32

-- The inner loop of `crockford_encode`: symbols while five bits are pending. It gives the symbols
-- and the bits left; `nbits` rounds are more than enough.
emit_symbols : ℕ → ℕ → ℕ → Str × ℕ
emit_symbols zero bits nbits = ([], nbits)
emit_symbols (suc fuel) bits nbits =
    let n = nbits - 5 in
    let (out, left) = emit_symbols fuel bits n in
    if ltb nbits 5 then ([], nbits) else (symbol (bits / 2 ^ n % 32) ∷ out, left)

unfoldable pub encode_loop : ℕ → ℕ → List ℕ → Str
unfolding emit_symbols
encode_loop bits nbits [] =
    if ltb 0 nbits then symbol (bits * 2 ^ (5 - nbits) % u32_mod % 32) ∷ [] else []
encode_loop bits nbits (b ∷ bs) =
    let bits' = (bits * 256 + b) % u32_mod in
    let (out, left) = emit_symbols (nbits + 8) bits' (nbits + 8) in out ++ encode_loop bits' left bs

unfoldable pub crockford_encode : List ℕ → Str
unfolding encode_loop
crockford_encode bytes = encode_loop 0 0 bytes

-- `char::to_ascii_uppercase`.
unfoldable pub to_ascii_uppercase : ℕ → ℕ
to_ascii_uppercase c = if leb b'a' c && leb c b'z' then c - 32 else c

unfoldable pub position : ℕ → List ℕ → Option ℕ
position x [] = none
position x (y ∷ ys) = if y == x then some 0 else Option.map suc (position x ys)

-- The letters that stand for digits.
unfoldable pub mapped : ℕ → ℕ
mapped u = if u == b'I' || u == b'L' then b'1' else if u == b'O' then b'0' else u

-- `mapped as u8` keeps the low eight bits of the scalar value.
unfoldable pub crockford_value : ℕ → Result ℕ
crockford_value c =
    ok_or (position (mapped (to_ascii_uppercase c) % 256) crockford)
      (invalid_format "invalid Crockford character {c}")

-- The inner loop of `crockford_decode`: bytes while eight bits are pending.
emit_bytes : ℕ → ℕ → ℕ → List ℕ × ℕ
emit_bytes zero bits nbits = ([], nbits)
emit_bytes (suc fuel) bits nbits =
    let n = nbits - 8 in
    let (out, left) = emit_bytes fuel bits n in
    if ltb nbits 8 then ([], nbits) else (bits / 2 ^ n % 256 ∷ out, left)

unfoldable pub decode_loop : ℕ → ℕ → Str → Result (List ℕ)
unfolding emit_bytes
decode_loop bits nbits [] = ok []
decode_loop bits nbits (c ∷ cs) = do
  v ← crockford_value c
  let bits' = (bits * 32 + v) % u32_mod
  let emitted = emit_bytes (nbits + 5) bits' (nbits + 5)
  rest ← decode_loop bits' emitted.1 cs
  ok (emitted.0 ++ rest)

unfoldable pub crockford_decode : Str → Result (List ℕ)
unfolding decode_loop
crockford_decode s = decode_loop 0 0 s
