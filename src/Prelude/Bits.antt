-- ===== src/Prelude/Bits.antt =====
-- The law of `bit_and` at variables: it works on the lowest binary digit and on the rest.
use Prim.Native.Nat.{
  ℕ, zero, suc, ◌+◌, ◌-◌, ◌*◌, ◌/◌, ◌%◌, ◌≤◌, min, bit_and, digits, bit_and-bitwise,
}
use mathlib.Core.Path.{◌≡◌, refl, ap, ◌∙◌}
use native.Mathlib.Omega.{arith}

-- The definition behind the native operation, on fuel.
abbrev conjunction : ℕ → ℕ → ℕ → ℕ
conjunction fuel x y = digits (λ _. zero) min fuel x y

one_more_round : (fuel x y : ℕ) → x ≤ fuel → conjunction (suc fuel) x y ≡ conjunction fuel x y
one_more_round zero zero y h = refl
one_more_round zero (suc x) y h = absurd (omega arith)
one_more_round (suc fuel) zero y h = refl
one_more_round (suc fuel) (suc x) y h =
    let halves = one_more_round fuel (suc x / 2) (y / 2) (omega arith) in omega (arith, halves)

spare_rounds :
    (spare fuel x y : ℕ) → x ≤ fuel → conjunction (spare + fuel) x y ≡ conjunction fuel x y
spare_rounds zero fuel x y h = ap (λ n. conjunction n x y) none_added
  where
    none_added : 0 + fuel ≡ fuel
    none_added = omega arith
spare_rounds (suc spare) fuel x y h =
    ap (λ n. conjunction n x y) one_added
    ∙ one_more_round (spare + fuel) x y (omega arith)
    ∙ spare_rounds spare fuel x y h
  where
    one_added : suc spare + fuel ≡ suc (spare + fuel)
    one_added = omega arith

-- The fuel of the halves, when the whole has `suc x`.
half_rounds : (x y : ℕ) → conjunction x (suc x / 2) (y / 2) ≡ bit_and (suc x / 2) (y / 2)
half_rounds x y = rw (
  bit_and-bitwise (suc x / 2) (y / 2),
  ← spare_rounds (x - suc x / 2) (suc x / 2) (suc x / 2) (y / 2) (omega arith),
  same,
)
  where
    same : x - suc x / 2 + suc x / 2 ≡ x
    same = omega arith

pub bit_and-zero_left : (y : ℕ) → bit_and 0 y ≡ 0
bit_and-zero_left y = bit_and-bitwise 0 y

pub bit_and_step : (x y : ℕ) → bit_and x y ≡ bit_and (x / 2) (y / 2) * 2 + min (x % 2) (y % 2)
bit_and_step zero y = omega (arith, bit_and-bitwise 0 y, bit_and-bitwise 0 (y / 2))
bit_and_step (suc x) y = omega (arith, bit_and-bitwise (suc x) y, half_rounds x y)
