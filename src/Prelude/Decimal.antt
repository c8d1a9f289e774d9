-- ===== src/Prelude/Decimal.antt =====
-- `to_string` of an unsigned integer: its decimal digits as code points.
use comb.Prelude.Tests.{ltb, if◌then◌else◌}
use Prim.Native.Nat.{ℕ, zero, suc, ◌+◌, ◌-◌, ◌*◌, ◌/◌, ◌%◌, ◌<◌}
use mathlib.Core.Path.{◌≡◌, refl, sym, ap, ◌∙◌}
use mathlib.Core.List.{List, [], ◌∷◌, ◌++◌}
use native.Mathlib.Omega.{arith}

digits : ℕ → ℕ → List ℕ
digits zero n = []
digits (suc fuel) n =
    let high = digits fuel (n / 10) in
    if ltb n 10 then (48 + n) ∷ [] else high ++ (48 + n % 10) ∷ []

-- More rounds than the number has digits.
unfoldable pub to_string : ℕ → List ℕ
unfolding digits
to_string n = digits (suc n) n

value : ℕ → List ℕ → ℕ
value acc [] = acc
value acc (c ∷ cs) = value (acc * 10 + (c - 48)) cs

value-append : (acc c : ℕ) (cs : List ℕ) → value acc (cs ++ c ∷ []) ≡ value acc cs * 10 + (c - 48)
unfolding value
value-append acc c [] = refl
value-append acc c (d ∷ ds) = value-append (acc * 10 + (d - 48)) c ds

value-digits : (fuel n : ℕ) → n < fuel → value 0 (digits fuel n) ≡ n
unfolding digits value
value-digits zero n h = absurd (omega arith)
value-digits (suc fuel) n h =
    ground (arith, value-digits fuel (n / 10), value-append 0 (48 + n % 10) (digits fuel (n / 10)))

pub to_string-injective : (m n : ℕ) → to_string m ≡ to_string n → m ≡ n
unfolding to_string
to_string-injective m n e =
    sym (value-digits (suc m) m (omega arith))
    ∙ ap (value 0) e
    ∙ value-digits (suc n) n (omega arith)
