-- ===== src/Log/Payloads.antt =====
-- crates/combctl/src/log.rs: check_payloads, is_retryable, next_writer.
pub mod Writers
pub mod Bounds
use comb.Prelude.{
  ℕ, ◌+◌, ◌-◌, ◌^◌, Bool, true, false, not, ◌&&◌, none, some, List, [], ◌∷◌, ltb, ◌==◌,
  if◌then◌else◌, length,
}
use comb.Prelude.Str.{Str, eqs}
use comb.Core.Crates.{Chrono}
use comb.Core.Error.{
  CoreError, Result, ok, err, rejected, lease_held, backend_unavailable, refuse_if, ◌>>=◌, ◌>>◌,
}
use comb.Core.Digest.{digest}
use comb.Core.Refs.{RefValue, Lease, lease_live}
use comb.Object.Step.{AnyError, core}
use comb.Store.Host.{Env, World}
use comb.Store.Keys.{Store}
use comb.Log.Model.{
  ChunkRef, Frame, ChunkBody, LogJson, chunk_schema, max_append_events, max_append_bytes,
}

-- The sum of the lengths, by `checked_add` on a `usize`.
unfoldable pub count_bytes : ℕ → List (List ℕ) → Result ℕ
count_bytes acc [] = ok acc
count_bytes acc (p ∷ rest) = do
  refuse_if (ltb (2 ^ 64 - 1) (acc + length p)) (rejected "append byte count overflow")
  count_bytes (acc + length p) rest

-- `check_payloads`.
unfoldable pub check_payloads : List (List ℕ) → Result (Unit {0})
unfolding count_bytes
check_payloads payloads = do
  refuse_if (length payloads == 0) (rejected "empty append")
  refuse_if (ltb max_append_events (length payloads))
      (rejected "append of {} events exceeds {MAX_APPEND_EVENTS}")
  bytes ← count_bytes 0 payloads
  refuse_if (ltb max_append_bytes bytes)
      (rejected "append of {bytes} bytes exceeds {MAX_APPEND_BYTES}")

-- `is_retryable`.
unfoldable pub is_retryable : AnyError → Bool
is_retryable (core (backend_unavailable m)) = true
is_retryable _ = false

module _ {S E : Type 0} (env : Env S E) where
  -- The lease that a writer takes.
  unfoldable pub taken_lease : Str → env.chrono.Time → env.host.Secs → Lease env.chrono
  taken_lease writer now lease_secs = record {
    writer = writer;
    lease_until = env.chrono.add now (env.host.seconds lease_secs);
  }

  -- `next_writer`; a live lease is there, so that its `unwrap` gives it.
  unfoldable pub next_writer :
      RefValue env.chrono
      → Str
      → env.chrono.Time
      → env.host.Secs
      → Bool
      → Result (ℕ × Lease env.chrono)
  unfolding taken_lease
  next_writer current writer now lease_secs steal =
      if lease_live current now && not steal
      then elim current.lease [
        | none ↦ err (rejected "called `Option::unwrap()` on a `None` value")
        | some lease ↦ do
          refuse_if (not (eqs lease.writer writer))
              (lease_held lease.writer (env.chrono.to_rfc3339 lease.lease_until))
          ok (current.epoch, taken_lease writer now lease_secs)
      ]
      else (do
        refuse_if (ltb (2 ^ 64 - 1) (current.epoch + 1)) (rejected "epoch overflow")
        ok (current.epoch + 1, taken_lease writer now lease_secs))
