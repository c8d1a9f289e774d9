-- ===== src/Core/Operation/Id.antt =====
-- crates/comb-core/src/operation.rs: `OperationId`, `OperationPolicy` and the time gate.
pub mod Text
pub mod Gate
use comb.Prelude.{ℕ, ◌+◌, ◌*◌, ◌/◌, ◌%◌, ◌^◌, ◌≡◌, Bool, not, ◌&&◌, Option}
use comb.Prelude.{List, ◌∷◌, ◌++◌, All, length, get_or, ◌==◌}
use comb.Prelude.Str.{Str, str, len, strip_prefix}
use comb.Core.Error.{
  Result, ok, err, invalid_format, unknown_operation, ok_or, refuse_if, ◌>>=◌, ◌>>◌,
}
use comb.Core.Crates.{Chrono, IsByte}
use comb.Core.Operation.Crockford.{crockford_encode, crockford_decode}
use mathlib.Core.Option

-- 24 bytes: 48 bits of milliseconds, then 144 bits of entropy.
pub record OperationId : Type 0 where
  pub raw : List ℕ

pub record IsId (id : OperationId) : Type 0 where
  pub length_24 : length id.raw ≡ 24
  pub of_bytes : All IsByte id.raw

abbrev pub op_prefix : Str
op_prefix = str "op_"

abbrev pub op_body_len : ℕ
op_body_len = 39

-- `OperationId::from_millis_and_entropy`; the masks of low bits are `%`.
unfoldable pub from_millis_and_entropy : ℕ → List ℕ → OperationId
from_millis_and_entropy millis entropy =
    let ms = millis % 2 ^ 48 in
    record {
      raw =
          ms / 2 ^ 40 % 256
          ∷ ms / 2 ^ 32 % 256
          ∷ ms / 2 ^ 24 % 256
          ∷ ms / 2 ^ 16 % 256
          ∷ ms / 2 ^ 8 % 256
          ∷ ms % 256
          ∷ entropy;
    }

-- `OperationId::parse`; `try_into` wants exactly 24 bytes.
unfoldable pub parse : Str → Result OperationId
parse s = do
  body ←
      ok_or (strip_prefix op_prefix s) (invalid_format "operation id must start with {OP_PREFIX}")
  refuse_if (not (len body == op_body_len))
      (invalid_format "operation id body must be {OP_BODY_LEN} Crockford characters")
  bytes ← crockford_decode body
  refuse_if (not (length bytes == 24)) (invalid_format "operation id decoded length")
  ok (record { raw = bytes })

-- `Display`.
unfoldable pub to_string : OperationId → Str
to_string id = op_prefix ++ crockford_encode id.raw

-- `OperationId::issued_at_millis`; the six bytes stand in disjoint bits, so `|` is `+`.
unfoldable pub issued_at_millis : OperationId → ℕ
issued_at_millis id =
    get_or id.raw 0 0 * 2 ^ 40
    + get_or id.raw 1 0 * 2 ^ 32
    + get_or id.raw 2 0 * 2 ^ 24
    + get_or id.raw 3 0 * 2 ^ 16
    + get_or id.raw 4 0 * 2 ^ 8
    + get_or id.raw 5 0

-- `OperationPolicy`.
pub record OperationPolicy (c : Chrono) : Type 0 where
  pub window : c.Delta
  pub first_use : c.Delta
  pub max_future_skew : c.Delta

module _ (c : Chrono) where
  -- `millis_of`, where a negative timestamp counts as 0, and `OperationId::mint` on given entropy.
  unfoldable pub mint : c.Time → List ℕ → OperationId
  mint now entropy = from_millis_and_entropy (Option.get_or (c.timestamp_millis now) 0) entropy

  -- `OperationId::issued_at`.
  unfoldable pub issued_at : OperationId → c.Time
  issued_at id = Option.get_or (c.from_timestamp_millis (issued_at_millis id)) c.epoch

  -- `OperationId::expires_at`.
  unfoldable pub expires_at : OperationId → OperationPolicy c → c.Time
  unfolding issued_at
  expires_at id policy = c.add (issued_at id) policy.window

  -- `OperationId::check_time`; `a > b` is `before b a`, and `a >= b` is `not (before a b)`.
  unfoldable pub check_time : OperationId → c.Time → OperationPolicy c → Bool → Result (Unit {0})
  check_time id now policy had_intent = do
    refuse_if (c.before (c.add now policy.max_future_skew) (issued_at id))
        (invalid_format "operation id {self} is too far in the future")
    let expired_at = expires_at id policy
    refuse_if (not (c.before now expired_at))
        (unknown_operation (to_string id) (c.to_rfc3339 expired_at))
    refuse_if (not had_intent && c.before (c.add (issued_at id) policy.first_use) now)
        (unknown_operation (to_string id) (c.to_rfc3339 expired_at))
    ok tt
