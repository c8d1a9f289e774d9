-- ===== src/Object/Backend/BoundedRead.antt =====
-- A bounded read gives the whole input or an error, and never a cut.
use comb.Prelude.{ℕ, zero, suc, ◌+◌, ◌-◌, ◌^◌, ◌≤◌, ◌<◌, ◌≡◌, refl, ap}
use comb.Prelude.{none, List, [], ◌∷◌, arith}
use comb.Prelude.{ltb, if◌then◌else◌, length, take}
use comb.Prelude.Str.{Str}
use comb.Core.Error.{ok, err, object_too_large, io}
use comb.Object.Backend.{Reader, read_sync_limited}

take_all : (n : ℕ) (xs : List ℕ) → length xs ≤ n → take n xs ≡ xs
take_all zero [] h = refl
take_all zero (x ∷ xs) h = absurd (omega arith)
take_all (suc n) [] h = refl
take_all (suc n) (x ∷ xs) h = ap (λ l. x ∷ l) (take_all n xs (omega arith))

length-take : (n : ℕ) (xs : List ℕ) → n ≤ length xs → length (take n xs) ≡ n
length-take zero xs h = refl
length-take (suc n) [] h = absurd (omega arith)
length-take (suc n) (x ∷ xs) h = ap suc (length-take n xs (omega arith))

-- With a limit below the largest `u64`: an input within the limit is returned whole, or its read
-- error; a longer one is `ObjectTooLarge`.
pub read_sync_limited_lem :
    (r : Reader) (key : Str) (limit : ℕ)
    → limit < 2 ^ 64 - 1
    → read_sync_limited r key limit ≡ (
        if ltb limit (length r.content)
        then err (object_too_large key limit none)
        else if r.fails
        then err (io "read")
        else ok r.content)
unfolding read_sync_limited
read_sync_limited_lem r key limit h =
    ground (arith, take_all (limit + 1) r.content, length-take (limit + 1) r.content)
