-- ===== src/Log/Payloads/Bounds.antt =====
-- crates/combctl/src/log.rs: what check_payloads lets through.
use comb.Prelude.{
  ℕ, ◌+◌, ◌-◌, ◌^◌, ◌≤◌, ◌<◌, ◌≡◌, ◌↔◌, List, [], ◌∷◌, arith, length, ltb, Bool-cases, inl, inr,
}
use comb.Core.Error.{ok, Result-cases}
use comb.Log.Model.{max_append_events, max_append_bytes}
use comb.Log.Payloads.{count_bytes, check_payloads}

-- The bytes of all payloads.
abbrev pub total : List (List ℕ) → ℕ
total [] = 0
total (p ∷ rest) = length p + total rest

count_bytes-eq_ok :
    (acc : ℕ) (ps : List (List ℕ)) (n : ℕ) → count_bytes acc ps ≡ ok n → n ≡ acc + total ps
unfolding count_bytes
count_bytes-eq_ok acc [] n h = ground (arith, h)
count_bytes-eq_ok acc (p ∷ rest) n h = elim (Bool-cases (ltb (2 ^ 64 - 1) (acc + length p))) [
  | inl b ↦ absurd (ground (arith, h, b))
  | inr b ↦
      let e = count_bytes-eq_ok (acc + length p) rest n (ground (arith, h, b)) in omega (arith, e)
]

count_bytes-total :
    (acc : ℕ) (ps : List (List ℕ))
    → acc + total ps < 2 ^ 64
    → count_bytes acc ps ≡ ok (acc + total ps)
unfolding count_bytes
count_bytes-total acc [] h = ground arith
count_bytes-total acc (p ∷ rest) h =
    let e = count_bytes-total (acc + length p) rest (omega arith) in
    let same : acc + length p + total rest ≡ acc + (length p + total rest) = omega arith in
    ground (arith, e, same)

-- The payloads of an append are accepted exactly where there are between one and 2048 of them, of
-- at most 512 KiB together.
pub check_payloads_iff :
    (ps : List (List ℕ))
    → (check_payloads ps ≡ ok tt)
      ↔ ((0 < length ps) × (length ps ≤ max_append_events) × (total ps ≤ max_append_bytes))
unfolding check_payloads
check_payloads_iff ps = (
  (λ h. elim (Result-cases (count_bytes 0 ps)) [
    | inl (n, q) ↦ let e = count_bytes-eq_ok 0 ps n q in ground (arith, h, q, e)
    | inr (e, q) ↦ absurd (ground (arith, h, q))
  ]),
  (λ b.
      let (some_there, few, small) = b in
      let e = count_bytes-total 0 ps (omega arith) in ground (arith, e, some_there, few, small)),
)

pub check_payloads-length : (ps : List (List ℕ)) → check_payloads ps ≡ ok tt → 0 < length ps
check_payloads-length ps h = ((check_payloads_iff ps).0 h).0
