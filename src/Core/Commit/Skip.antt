-- ===== src/Core/Commit/Skip.antt =====
-- The skip pointers of the commit chain: how far they go, and that they end.
use comb.Prelude.{
  ℕ, zero, suc, ◌+◌, ◌-◌, ◌*◌, ◌/◌, ◌%◌, ◌^◌, ◌≤◌, ◌<◌, ◌≡◌, refl, ap, ◌∙◌, inl, inr,
}
use comb.Prelude.{arith}
use comb.Prelude.{◌==◌, if◌then◌else◌, Bool-cases}
use Prim.Native.Nat.{bit_and}
use comb.Prelude.Bits.{bit_and-zero_left, bit_and_step}
use comb.Core.Commit.{skip_distance, skip_target_generation}
use native.Mathlib.Nat.{pow-suc}

-- A number and its complement in `w` bits share no bit.
bit_and-complement : (w h : ℕ) → h < 2 ^ w → bit_and h (2 ^ w - 1 - h) ≡ 0
bit_and-complement zero zero p = bit_and-zero_left (2 ^ 0 - 1 - 0)
bit_and-complement zero (suc h) p = absurd (omega arith)
bit_and-complement (suc w) h p =
    let half : (2 ^ suc w - 1 - h) / 2 ≡ 2 ^ w - 1 - h / 2 = omega (arith, pow-suc 2 w) in
    omega (
      arith,
      pow-suc 2 w,
      bit_and_step h (2 ^ suc w - 1 - h),
      ap (bit_and (h / 2)) half,
      bit_and-complement w (h / 2) (omega (arith, pow-suc 2 w)),
    )

-- The lowest bit that is set, and what lies above it.
pub record LowBit (g : ℕ) (d : ℕ) : Type 0 where
  pub bit : ℕ
  pub above : ℕ
  pub is_power : d ≡ 2 ^ bit
  pub split : g ≡ 2 ^ bit * (2 * above + 1)

lowest_bit : (w g : ℕ) → 0 < g → g < 2 ^ w → LowBit g (bit_and g (2 ^ w - g))
lowest_bit zero g p q = absurd (omega arith)
lowest_bit (suc w) g p q = elim (Bool-cases (g % 2 == 0)) [
  | inl even ↦
      let half : (2 ^ suc w - g) / 2 ≡ 2 ^ w - g / 2 = ground (arith, pow-suc 2 w) in
      let ev : g % 2 ≡ 0 = ground arith in
      let low = lowest_bit w (g / 2) (ground arith) (ground (arith, pow-suc 2 w)) in
      record {
        bit = suc low.bit;
        above = low.above;
        is_power = omega (
          arith,
          bit_and_step g (2 ^ suc w - g),
          ap (bit_and (g / 2)) half,
          low.is_power,
          pow-suc 2 low.bit,
          pow-suc 2 w,
        );
        split =
            omega (arith, low.split, ap (λ (t : ℕ). t * (2 * low.above + 1)) (pow-suc 2 low.bit));
      }
  | inr odd ↦
      let half : (2 ^ suc w - g) / 2 ≡ 2 ^ w - 1 - g / 2 = ground (arith, pow-suc 2 w) in
      record {
        bit = 0;
        above = g / 2;
        is_power = ground (
          arith,
          pow-suc 2 w,
          bit_and_step g (2 ^ suc w - g),
          ap (bit_and (g / 2)) half,
          bit_and-complement w (g / 2),
        );
        split = ground arith;
      }
]

skip_distance_lem : (g : ℕ) → 0 < g → g < 2 ^ 64 → skip_distance g ≡ bit_and g (2 ^ 64 - g)
unfolding skip_distance
skip_distance_lem g p q =
    let wrap : (2 ^ 64 - g) % 2 ^ 64 ≡ 2 ^ 64 - g = omega arith in ground (arith, wrap)

-- For a generation of a `u64` the skip distance is the largest power of two that divides it, and the
-- skip target is the generation with its lowest bit cleared.
pub skip_distance-LowBit :
    (g : ℕ)
    → 0 < g
    → g < 2 ^ 64
    → (low : LowBit g (skip_distance g)) × (skip_target_generation g
        ≡ 2 ^ low.bit * (2 * low.above))
unfolding skip_target_generation
skip_distance-LowBit g p q =
    let low : LowBit g (skip_distance g) = rw (skip_distance_lem g p q) (lowest_bit 64 g p q) in
    (low, omega (arith, low.is_power, low.split))

-- Following skip pointers.
pub skip_chain : ℕ → ℕ → ℕ
skip_chain zero g = g
skip_chain (suc hops) g = skip_chain hops (skip_target_generation g)

skip_chain-zero : (hops : ℕ) → skip_chain hops 0 ≡ 0
unfolding skip_chain skip_target_generation skip_distance
skip_chain-zero zero = refl
skip_chain-zero (suc hops) = skip_chain-zero hops

-- The lowest set bit, digit by digit.
lowbit : ℕ → ℕ → ℕ
lowbit zero g = 0
lowbit (suc w) g = let low = lowbit w (g / 2) in if g % 2 == 1 then 1 else 2 * low

lowbit-suc : (w g : ℕ) → 0 < g → g < 2 ^ w → lowbit (suc w) g ≡ lowbit w g
unfolding lowbit
lowbit-suc zero g p q = absurd (omega arith)
lowbit-suc (suc w) g p q = ground (arith, pow-suc 2 w, lowbit-suc w (g / 2))

lowbit_double : (w h : ℕ) → lowbit (suc w) (2 * h) ≡ 2 * lowbit w h
unfolding lowbit
lowbit_double w h = let half : 2 * h / 2 ≡ h = omega arith in ground (arith, half)

lowbit_odd : (w h : ℕ) → lowbit (suc w) (2 * h + 1) ≡ 1
unfolding lowbit
lowbit_odd w h = ground arith

bit_and-lowbit : (w g : ℕ) → 0 < g → g < 2 ^ w → bit_and g (2 ^ w - g) ≡ lowbit w g
unfolding lowbit
bit_and-lowbit zero g p q = absurd (omega arith)
bit_and-lowbit (suc w) g p q = elim (Bool-cases (g % 2 == 1)) [
  | inl odd ↦
      let half : (2 ^ suc w - g) / 2 ≡ 2 ^ w - 1 - g / 2 = ground (arith, pow-suc 2 w) in
      ground (
        arith,
        pow-suc 2 w,
        bit_and_step g (2 ^ suc w - g),
        ap (bit_and (g / 2)) half,
        bit_and-complement w (g / 2),
      )
  | inr even ↦
      let half : (2 ^ suc w - g) / 2 ≡ 2 ^ w - g / 2 = ground (arith, pow-suc 2 w) in
      ground (
        arith,
        pow-suc 2 w,
        bit_and_step g (2 ^ suc w - g),
        ap (bit_and (g / 2)) half,
        bit_and-lowbit w (g / 2),
      )
]

skip_target_double :
    (h : ℕ) → 2 * h < 2 ^ 64 → skip_target_generation (2 * h) ≡ 2 * skip_target_generation h
unfolding skip_target_generation
skip_target_double zero q = unfold skip_distance in refl
skip_target_double (suc h) q = omega (
  arith,
  skip_distance_lem (2 * suc h) (omega arith) q,
  skip_distance_lem (suc h) (omega arith) (omega arith),
  bit_and-lowbit 64 (2 * suc h) (omega arith) q,
  bit_and-lowbit 64 (suc h) (omega arith) (omega arith),
  lowbit_double 63 (suc h),
  lowbit-suc 63 (suc h) (omega arith) (omega arith),
)

skip_target_odd : (h : ℕ) → 2 * h + 1 < 2 ^ 64 → skip_target_generation (2 * h + 1) ≡ 2 * h
unfolding skip_target_generation
skip_target_odd h q = omega (
  arith,
  skip_distance_lem (2 * h + 1) (omega arith) q,
  bit_and-lowbit 64 (2 * h + 1) (omega arith) q,
  lowbit_odd 63 h,
)

skip_target-le : (g : ℕ) → skip_target_generation g ≤ g
unfolding skip_target_generation
skip_target-le g = omega arith

skip_chain_double : (hops h : ℕ) → 2 * h < 2 ^ 64 → skip_chain hops (2 * h) ≡ 2 * skip_chain hops h
unfolding skip_chain
skip_chain_double zero h q = refl
skip_chain_double (suc hops) h q =
    rw (skip_target_double h q)
      (skip_chain_double hops (skip_target_generation h) (omega (arith, skip_target-le h)))

skip_chain_more : (hops g : ℕ) → skip_chain hops g ≡ 0 → skip_chain (suc hops) g ≡ 0
unfolding skip_chain
skip_chain_more zero g h = rw h (skip_chain-zero 1)
skip_chain_more (suc hops) g h = skip_chain_more hops (skip_target_generation g) h

skip_chain_odd :
    (hops h : ℕ) → 2 * h + 1 < 2 ^ 64 → skip_chain (suc hops) (2 * h + 1) ≡ 2 * skip_chain hops h
unfolding skip_chain
skip_chain_odd hops h q = rw (skip_target_odd h q) (skip_chain_double hops h (omega arith))

skip_chain_bits : (w g : ℕ) → g < 2 ^ 64 → g < 2 ^ w → skip_chain w g ≡ 0
unfolding skip_chain
skip_chain_bits zero g u q = omega arith
skip_chain_bits (suc w) g u q =
    let below : skip_chain w (g / 2) ≡ 0 =
      skip_chain_bits w (g / 2) (omega arith) (omega (arith, pow-suc 2 w)) in
    elim (Bool-cases (g % 2 == 1)) [
      | inl odd ↦
          let e : g ≡ 2 * (g / 2) + 1 = ground arith in
          ap (skip_chain (suc w)) e ∙ skip_chain_odd w (g / 2) (omega arith) ∙ omega (arith, below)
      | inr even ↦
          let e : g ≡ 2 * (g / 2) = ground arith in
          ap (skip_chain (suc w)) e
          ∙ skip_chain_double (suc w) (g / 2) (omega arith)
          ∙ omega (arith, skip_chain_more w (g / 2) below)
    ]

-- From any generation of a `u64`, 64 skip pointers reach generation 0.
pub skip_chain_ends : (g : ℕ) → g < 2 ^ 64 → skip_chain 64 g ≡ 0
skip_chain_ends g q = skip_chain_bits 64 g q q
