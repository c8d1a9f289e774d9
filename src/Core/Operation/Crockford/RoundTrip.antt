-- ===== src/Core/Operation/Crockford/RoundTrip.antt =====
-- Decoding what `crockford_encode` wrote gives the bytes back.
-- Between two bytes the encoder and the decoder hold pending bits that together make no byte or one:
-- the pair runs through five phases, `(encoder, decoder)` = (0, 0), (3, 5), (1, 7), (4, 4), (2, 6).
use comb.Prelude.{
  ℕ, zero, suc, ◌+◌, ◌*◌, ◌/◌, ◌%◌, ◌<◌, ◌≡◌, refl, Bool, true, false, ◌&&◌, List, [], ◌∷◌, ◌++◌,
  All, arith, ◌==◌,
}
use comb.Core.Error.{Result, ok, err, ◌>>=◌}
use comb.Core.Crates.{IsByte}
use comb.Core.Operation.Crockford.{
  symbol, u32_mod, emit_bytes, encode_loop, decode_loop, crockford_encode, crockford_decode,
  crockford_value, to_ascii_uppercase, position, mapped,
}

is_value : ℕ → Result ℕ → Bool
is_value n (ok v) = v == n
is_value n (err e) = false

is_value→eq : (n : ℕ) (r : Result ℕ) → is_value n r ≡ true → r ≡ ok n
unfolding is_value
is_value→eq n (ok v) h = ground arith
is_value→eq n (err e) h = cc

reads_back : ℕ → Bool
reads_back zero = true
reads_back (suc n) = is_value n (crockford_value (symbol n)) && reads_back n

reads_back_below :
    (n : ℕ) → reads_back n ≡ true → (i : ℕ) → i < n → crockford_value (symbol i) ≡ ok i
unfolding reads_back
reads_back_below zero e i h = absurd (omega arith)
reads_back_below (suc n) e i h =
    ground (arith, is_value→eq n (crockford_value (symbol n)), reads_back_below n (ground arith) i)

-- Each symbol has its index for value.
pub crockford_value-symbol : (i : ℕ) → i < 32 → crockford_value (symbol i) ≡ ok i
unfolding reads_back is_value crockford_value to_ascii_uppercase position mapped symbol
crockford_value-symbol = reads_back_below 32 refl

decode_loop-symbol :
    (bits nbits i : ℕ) (cs : List ℕ)
    → i < 32
    → decode_loop bits nbits (symbol i ∷ cs) ≡ (
        decode_loop
          ((bits * 32 + i) % u32_mod)
          (emit_bytes (nbits + 5) ((bits * 32 + i) % u32_mod) (nbits + 5)).1
          cs
        >>= λ rest. ok ((emit_bytes (nbits + 5) ((bits * 32 + i) % u32_mod) (nbits + 5)).0 ++ rest))
unfolding decode_loop
decode_loop-symbol bits nbits i cs h = rw (crockford_value-symbol i h)

decode_loop-nil : (bits nbits : ℕ) → decode_loop bits nbits [] ≡ ok []
unfolding decode_loop
decode_loop-nil bits nbits = refl

mutual
  unfolding encode_loop emit_bytes

  phase_0 :
      (bs : List ℕ) (be bd : ℕ) → All IsByte bs → decode_loop bd 0 (encode_loop be 0 bs) ≡ ok bs
  phase_0 [] be bd h = decode_loop-nil bd 0
  phase_0 (b ∷ bs) be bd h =
      rw
        (
          decode_loop-symbol bd 0 (((be * 256 + b) % u32_mod) / 8 % 32)
              (encode_loop ((be * 256 + b) % u32_mod) 3 bs) (omega arith),
          phase_3 bs ((be * 256 + b) % u32_mod)
              ((bd * 32 + (((be * 256 + b) % u32_mod) / 8 % 32)) % u32_mod) h.1,
        )
        (ground arith)

  phase_3 :
      (bs : List ℕ) (be bd : ℕ)
      → All IsByte bs
      → decode_loop bd 5 (encode_loop be 3 bs) ≡ ok ((bd % 32 * 8 + be % 8) ∷ bs)
  phase_3 [] be bd h =
      rw (decode_loop-symbol bd 5 (be * 4 % u32_mod % 32) [] (omega arith), decode_loop-nil)
        (ground arith)
  phase_3 (b ∷ bs) be bd h =
      rw
        (
          decode_loop-symbol bd 5 (((be * 256 + b) % u32_mod) / 64 % 32)
              (symbol (((be * 256 + b) % u32_mod) / 2 % 32)
                ∷ encode_loop ((be * 256 + b) % u32_mod) 1 bs)
              (omega arith),
          decode_loop-symbol ((bd * 32 + (((be * 256 + b) % u32_mod) / 64 % 32)) % u32_mod) 2
              (((be * 256 + b) % u32_mod) / 2 % 32) (encode_loop ((be * 256 + b) % u32_mod) 1 bs)
              (omega arith),
          phase_1 bs ((be * 256 + b) % u32_mod)
              ((((bd * 32 + (((be * 256 + b) % u32_mod) / 64 % 32)) % u32_mod) * 32
                  + (((be * 256 + b) % u32_mod) / 2 % 32))
                % u32_mod)
              h.1,
        )
        (ground arith)

  phase_1 :
      (bs : List ℕ) (be bd : ℕ)
      → All IsByte bs
      → decode_loop bd 7 (encode_loop be 1 bs) ≡ ok ((bd % 128 * 2 + be % 2) ∷ bs)
  phase_1 [] be bd h =
      rw (decode_loop-symbol bd 7 (be * 16 % u32_mod % 32) [] (omega arith), decode_loop-nil)
        (ground arith)
  phase_1 (b ∷ bs) be bd h =
      rw
        (
          decode_loop-symbol bd 7 (((be * 256 + b) % u32_mod) / 16 % 32)
              (encode_loop ((be * 256 + b) % u32_mod) 4 bs) (omega arith),
          phase_4 bs ((be * 256 + b) % u32_mod)
              ((bd * 32 + (((be * 256 + b) % u32_mod) / 16 % 32)) % u32_mod) h.1,
        )
        (ground arith)

  phase_4 :
      (bs : List ℕ) (be bd : ℕ)
      → All IsByte bs
      → decode_loop bd 4 (encode_loop be 4 bs) ≡ ok ((bd % 16 * 16 + be % 16) ∷ bs)
  phase_4 [] be bd h =
      rw (decode_loop-symbol bd 4 (be * 2 % u32_mod % 32) [] (omega arith), decode_loop-nil)
        (ground arith)
  phase_4 (b ∷ bs) be bd h =
      rw
        (
          decode_loop-symbol bd 4 (((be * 256 + b) % u32_mod) / 128 % 32)
              (symbol (((be * 256 + b) % u32_mod) / 4 % 32)
                ∷ encode_loop ((be * 256 + b) % u32_mod) 2 bs)
              (omega arith),
          decode_loop-symbol ((bd * 32 + (((be * 256 + b) % u32_mod) / 128 % 32)) % u32_mod) 1
              (((be * 256 + b) % u32_mod) / 4 % 32) (encode_loop ((be * 256 + b) % u32_mod) 2 bs)
              (omega arith),
          phase_2 bs ((be * 256 + b) % u32_mod)
              ((((bd * 32 + (((be * 256 + b) % u32_mod) / 128 % 32)) % u32_mod) * 32
                  + (((be * 256 + b) % u32_mod) / 4 % 32))
                % u32_mod)
              h.1,
        )
        (ground arith)

  phase_2 :
      (bs : List ℕ) (be bd : ℕ)
      → All IsByte bs
      → decode_loop bd 6 (encode_loop be 2 bs) ≡ ok ((bd % 64 * 4 + be % 4) ∷ bs)
  phase_2 [] be bd h =
      rw (decode_loop-symbol bd 6 (be * 8 % u32_mod % 32) [] (omega arith), decode_loop-nil)
        (ground arith)
  phase_2 (b ∷ bs) be bd h =
      rw
        (
          decode_loop-symbol bd 6 (((be * 256 + b) % u32_mod) / 32 % 32)
              (symbol (((be * 256 + b) % u32_mod) / 1 % 32)
                ∷ encode_loop ((be * 256 + b) % u32_mod) 0 bs)
              (omega arith),
          decode_loop-symbol ((bd * 32 + (((be * 256 + b) % u32_mod) / 32 % 32)) % u32_mod) 3
              (((be * 256 + b) % u32_mod) / 1 % 32) (encode_loop ((be * 256 + b) % u32_mod) 0 bs)
              (omega arith),
          phase_0 bs ((be * 256 + b) % u32_mod)
              ((((bd * 32 + (((be * 256 + b) % u32_mod) / 32 % 32)) % u32_mod) * 32
                  + (((be * 256 + b) % u32_mod) / 1 % 32))
                % u32_mod)
              h.1,
        )
        (ground arith)

pub crockford_round_trip :
    (bs : List ℕ) → All IsByte bs → crockford_decode (crockford_encode bs) ≡ ok bs
unfolding crockford_decode crockford_encode
crockford_round_trip bs h = phase_0 bs 0 0 h
