-- ===== src/Core/Error.antt =====
-- crates/comb-core/src/error.rs: the portable error classes.
-- A message that the source builds by `format!` is the literal template, with the interpolated values
-- left in braces; values that callers can read from an error (keys, limits, epochs) are kept.
use comb.Prelude.{ℕ, ◌≡◌, refl, Bool, true, false, Option, ◌⊎◌, inl, inr}
use comb.Prelude.Str.{Str}
use Prim.Native.String.{String}

pub data EnvelopeFormatField : Type 0 where
  version flags compression encryption tenant object_kind schema : EnvelopeFormatField

pub data CoreError : Type 0 where
  not_found already_exists : Str → CoreError
  precondition_failed : String → CoreError
  fenced : ℕ → ℕ → CoreError
  lease_held : Str → Str → CoreError
  lease_expired : CoreError
  backend_unavailable integrity_error : String → CoreError
  trimmed : ℕ → CoreError
  invalid_format : String → CoreError
  object_too_large : Str → ℕ → Option ℕ → CoreError
  unsupported_envelope_format : EnvelopeFormatField → Str → CoreError
  unknown_operation : Str → Str → CoreError
  idempotency_conflict : Str → Str → Str → CoreError
  recovery_failed rejected : String → CoreError
  stable_key_conflict : Str → Str → CoreError
  io : String → CoreError

-- `Result<T>`.
pub data Result {ℓ} (T : Type ℓ) : Type ℓ where
  ok : T → Result T
  err : CoreError → Result T

-- The operator `?`, as the bind of a do block.
infixl 5 ◌>>=◌
abbrev pub ◌>>=◌ {ℓ κ} : {T : Type ℓ} {U : Type κ} → Result T → (T → Result U) → Result U
err e >>= next = err e
ok t >>= next = next t

-- The same where the value is not needed.
infixl 5 ◌>>◌
abbrev pub ◌>>◌ {ℓ κ} : {T : Type ℓ} {U : Type κ} → Result T → Result U → Result U
first >> second = first >>= λ _. second

-- `if bad { return Err(e) }`.
abbrev pub refuse_if : Bool → CoreError → Result (Unit {0})
refuse_if true e = err e
refuse_if false e = ok tt

-- `ok_or_else`.
abbrev pub ok_or {ℓ} : {A : Type ℓ} → Option A → CoreError → Result A
ok_or Option.none e = err e
ok_or (Option.some a) e = ok a

-- A test on whether a call succeeded.
abbrev pub is_ok {ℓ} : {A : Type ℓ} → Result A → Bool
is_ok (ok a) = true
is_ok (err e) = false

-- A bind that succeeds had a first step that did.
pub >>=-eq-ok {ℓ κ} :
    {T : Type ℓ} {U : Type κ} (r : Result T) (next : T → Result U) {u : U}
    → (r >>= next) ≡ ok u
    → (t : T) × (r ≡ ok t) × (next t ≡ ok u)
>>=-eq-ok (err e) next eq = cc
>>=-eq-ok (ok t) next eq = (t, refl, eq)

pub Result-cases {ℓ} :
    {A : Type ℓ} (r : Result A) → ((a : A) × (r ≡ ok a)) ⊎ ((e : CoreError) × (r ≡ err e))
Result-cases (ok a) = inl (a, refl)
Result-cases (err e) = inr (e, refl)
