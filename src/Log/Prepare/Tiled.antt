-- ===== src/Log/Prepare/Tiled.antt =====
-- Ranges that follow one another without a gap.
use comb.Prelude.{ℕ, ◌+◌, ◌≤◌, ◌≡◌, refl, List, [], ◌∷◌, ◌++◌, arith}

-- The ranges behind `n`, up to `m`.
abbrev pub Tiles : ℕ → List (ℕ × ℕ) → ℕ → Type 0
Tiles n [] m = n ≡ m
Tiles n ((f, l) ∷ rest) m = (f ≡ n + 1) × (f ≤ l) × Tiles l rest m

pub Tiles-snoc :
    (n : ℕ) (rs : List (ℕ × ℕ)) (m f l : ℕ)
    → Tiles n rs m
    → f ≡ m + 1
    → f ≤ l
    → Tiles n (rs ++ (f, l) ∷ []) l
Tiles-snoc n [] m f l t e le = (omega arith, le, refl)
Tiles-snoc n ((f', l') ∷ rs) m f l (e', le', t) e le = (e', le', Tiles-snoc l' rs m f l t e le)
