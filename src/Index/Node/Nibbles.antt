-- ===== src/Index/Node/Nibbles.antt =====
-- Nibbles are slots: they are below the fan-out, and there is one at each depth up to 51.
use comb.Prelude.{ℕ, ◌+◌, ◌*◌, ◌≤◌, ◌<◌, ◌≡◌, ◌↔◌}
use comb.Prelude.{List, [], arith}
use mathlib.Core.Option
use comb.Core.Error.{ok}
use comb.Core.Crates.{Hex}
use comb.Core.Digest.{Digest, raw}
use comb.Index.Node.{fanout, max_depth, path_bit, gather_bits, nibble}

path_bit-lt : (bytes : List ℕ) (b : ℕ) → path_bit bytes b < 2
unfolding path_bit
path_bit-lt bytes b = ground arith

five_bits : (bytes : List ℕ) (b : ℕ) → gather_bits bytes 5 b 0 < fanout
unfolding gather_bits
five_bits bytes b = omega (
  arith,
  path_bit-lt bytes b,
  path_bit-lt bytes (b + 1),
  path_bit-lt bytes (b + 1 + 1),
  path_bit-lt bytes (b + 1 + 1 + 1),
  path_bit-lt bytes (b + 1 + 1 + 1 + 1),
)

-- A nibble is there exactly for the depths up to 51, and is a slot below 32.
pub nibble-slot :
    (x : Hex) (path : Digest) (depth : ℕ)
    → depth ≤ max_depth ↔ ((slot : ℕ) × (nibble x path depth ≡ ok slot) × (slot < fanout))
unfolding nibble
nibble-slot x path depth = (
  λ h. (
    gather_bits (Option.get_or (raw x path) []) 5 (depth * 5) 0,
    ground arith,
    five_bits (Option.get_or (raw x path) []) (depth * 5),
  ),
  λ s. ground (arith, s.1),
)
