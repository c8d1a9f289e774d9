-- ===== src/Core/Operation/Id/Gate.antt =====
-- The time gate of a generic operation id: when `check_time` lets a request through.
use comb.Prelude.{◌≡◌, ◌↔◌}
use comb.Prelude.{Bool, true, false, arith}
use comb.Prelude.{if◌then◌else◌}
use comb.Core.Error.{ok, err, unknown_operation}
use comb.Core.Crates.{Chrono, ChronoLaws}
use comb.Core.Operation.Id.{
  OperationId, OperationPolicy, to_string, issued_at, expires_at, check_time,
}

module _ {c : Chrono} (laws : ChronoLaws c) (id : OperationId) (policy : OperationPolicy c) where
  open laws use {before_trans, before_total, before_add}

  not_before_later :
      (s t u : c.Time) → c.before s t ≡ true → c.before s u ≡ false → c.before t u ≡ false
  not_before_later s t u st su = ground (arith, before_trans s t u)

  -- A request that was let through at `now`, with an intent recorded or without, is let through
  -- again at every later time before the expiry once an intent is recorded, and from the expiry on
  -- is answered `UnknownOperation`.
  pub retry_until_expiry :
      (now later : c.Time) (had_intent : Bool)
      → check_time c id now policy had_intent ≡ ok tt
      → c.before now later ≡ true
      → check_time c id later policy true ≡ (
          if c.before later (expires_at c id policy)
          then ok tt
          else err (unknown_operation (to_string id) (c.to_rfc3339 (expires_at c id policy))))
  unfolding check_time
  retry_until_expiry now later had_intent h after = ground (
    arith,
    before_add now later policy.max_future_skew,
    not_before_later (c.add now policy.max_future_skew) (c.add later policy.max_future_skew)
        (issued_at c id),
  )

  -- Without a recorded intent a request is let through only up to the first-use limit, and never
  -- where it would be refused with one.
  pub first_use_window :
      (now : c.Time)
      → check_time c id now policy false ≡ ok tt
        ↔ (check_time c id now policy true ≡ ok tt)
          × (c.before (c.add (issued_at c id) policy.first_use) now ≡ false)
  unfolding check_time
  first_use_window now = ground arith
