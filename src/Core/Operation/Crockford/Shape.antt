-- ===== src/Core/Operation/Crockford/Shape.antt =====
-- How many bytes and symbols the Crockford loops make, on any input.
use comb.Prelude.{
  ℕ, zero, suc, ◌+◌, ◌-◌, ◌*◌, ◌/◌, ◌%◌, ◌^◌, ◌≤◌, ◌<◌, ◌≡◌, ap, List, [], ◌∷◌, ◌++◌,
}
use comb.Prelude.{All, All-append, All-get_or, length, length-append, arith, inl, inr}
use comb.Prelude.Str.{Str, IsAscii}
use comb.Core.Error.{ok, Result-cases}
use comb.Core.Crates.{IsByte}
use comb.Core.Operation.Crockford.{
  crockford, symbol, u32_mod, emit_symbols, emit_bytes, encode_loop, decode_loop, crockford_encode,
  crockford_decode, crockford_value,
}

emit_bytes_lem :
    (fuel bits n : ℕ)
    → n ≤ fuel
    → (8 * length (emit_bytes fuel bits n).0 + (emit_bytes fuel bits n).1 ≡ n)
      × ((emit_bytes fuel bits n).1 < 8)
      × All IsByte (emit_bytes fuel bits n).0
unfolding emit_bytes
emit_bytes_lem zero bits n h = (omega arith, omega arith, tt)
emit_bytes_lem (suc fuel) bits n h = ground (arith, emit_bytes_lem fuel bits (n - 8))

-- Each character gives five bits, and each byte takes eight.
decode_loop-eq_ok :
    (s : Str) (bits nbits : ℕ) (out : List ℕ)
    → nbits < 8
    → decode_loop bits nbits s ≡ ok out
    → (length out ≡ (nbits + 5 * length s) / 8) × All IsByte out
unfolding decode_loop
decode_loop-eq_ok [] bits nbits out hn h = ground arith
decode_loop-eq_ok (c ∷ cs) bits nbits out hn h = elim (Result-cases (crockford_value c)) [
  | inr (e, bad) ↦ absurd (ground arith)
  | inl (v, good) ↦
      let bits' = (bits * 32 + v) % u32_mod in
      let (total, small, emitted) = emit_bytes_lem (nbits + 5) bits' (nbits + 5) (omega arith) in
      elim (Result-cases (decode_loop bits' (emit_bytes (nbits + 5) bits' (nbits + 5)).1 cs)) [
        | inr (e, bad) ↦ absurd (ground arith)
        | inl (rest, more) ↦
            let (l, b) = decode_loop-eq_ok cs bits' _ rest small more in
            let whole : out ≡ (emit_bytes (nbits + 5) bits' (nbits + 5)).0 ++ rest = ground arith in
            (
              omega (
                arith,
                ap length whole,
                length-append (emit_bytes (nbits + 5) bits' (nbits + 5)).0 rest,
              ),
              rw whole (All-append IsByte _ rest emitted b),
            )
      ]
]

-- What decodes gives a byte for each full eight bits, five to a character.
pub crockford_decode-eq_ok :
    (s : Str) (out : List ℕ)
    → crockford_decode s ≡ ok out
    → (length out ≡ 5 * length s / 8) × All IsByte out
unfolding crockford_decode
crockford_decode-eq_ok s out h = ground (arith, decode_loop-eq_ok s 0 0 out)

emit_symbols_lem :
    (fuel bits n : ℕ)
    → n ≤ fuel
    → (5 * length (emit_symbols fuel bits n).0 + (emit_symbols fuel bits n).1 ≡ n)
      × ((emit_symbols fuel bits n).1 < 5)
unfolding emit_symbols
emit_symbols_lem zero bits n h = omega arith
emit_symbols_lem (suc fuel) bits n h = ground (arith, emit_symbols_lem fuel bits (n - 5))

length-encode_loop :
    (bs : List ℕ) (bits nbits : ℕ)
    → nbits < 5
    → length (encode_loop bits nbits bs) ≡ (nbits + 8 * length bs + 4) / 5
unfolding encode_loop
length-encode_loop [] bits nbits h = ground arith
length-encode_loop (b ∷ bs) bits nbits h =
    let bits' = (bits * 256 + b) % u32_mod in
    let (total, small) = emit_symbols_lem (nbits + 8) bits' (nbits + 8) (omega arith) in
    omega (
      arith,
      length-append (emit_symbols (nbits + 8) bits' (nbits + 8)).0
          (encode_loop bits' (emit_symbols (nbits + 8) bits' (nbits + 8)).1 bs),
      length-encode_loop bs bits' (emit_symbols (nbits + 8) bits' (nbits + 8)).1 small,
    )

symbol-IsAscii : (i : ℕ) → IsAscii (symbol i)
unfolding symbol
symbol-IsAscii i = All-get_or IsAscii crockford i 0 (omega arith) (omega arith)

emit_symbols-IsAscii : (fuel bits n : ℕ) → All IsAscii (emit_symbols fuel bits n).0
unfolding emit_symbols
emit_symbols-IsAscii zero bits n = tt
emit_symbols-IsAscii (suc fuel) bits n =
    ground (arith, symbol-IsAscii (bits / 2 ^ (n - 5) % 32), emit_symbols-IsAscii fuel bits (n - 5))

encode_loop-IsAscii : (bs : List ℕ) (bits nbits : ℕ) → All IsAscii (encode_loop bits nbits bs)
unfolding encode_loop
encode_loop-IsAscii [] bits nbits =
    ground (arith, symbol-IsAscii (bits * 2 ^ (5 - nbits) % u32_mod % 32))
encode_loop-IsAscii (b ∷ bs) bits nbits =
    All-append IsAscii _ _ (emit_symbols-IsAscii (nbits + 8) _ (nbits + 8))
      (encode_loop-IsAscii bs _ _)

pub crockford_encode-IsAscii : (bs : List ℕ) → All IsAscii (crockford_encode bs)
unfolding crockford_encode
crockford_encode-IsAscii bs = encode_loop-IsAscii bs 0 0

-- The encoding has a symbol for each five bits begun.
pub length-crockford_encode : (bs : List ℕ) → length (crockford_encode bs) ≡ (8 * length bs + 4) / 5
unfolding crockford_encode
length-crockford_encode bs = omega (arith, length-encode_loop bs 0 0)
