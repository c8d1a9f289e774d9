-- ===== src/Store/Plans.antt =====
-- crates/combctl/src/store.rs: the mutations of a ref, as plans of the publication engine.
pub mod Fencing
use comb.Prelude.{
  ℕ, ◌+◌, ◌-◌, ◌^◌, Bool, true, false, not, ◌&&◌, Option, none, some, [], ltb, ◌==◌, if◌then◌else◌,
}
use comb.Prelude.Str.{Str, str, eqs, bytes, starts_with}
use comb.Core.Error.{
  EnvelopeFormatField, CoreError, Result, ok, err, unsupported_envelope_format, fenced, lease_held,
  rejected, refuse_if, ok_or, ◌>>=◌, ◌>>◌,
}
use comb.Core.Digest
use comb.Core.Digest.{Digest}
use comb.Core.Refs.{RefValue, Lease, lease_live}
use comb.Core.Operation.Id.{OperationId}
use comb.Core.Operation.Identity.{generic}
use comb.Core.Operation.Material.{Material}
use comb.Core.Envelope.{EnvelopeReadSpec, blob, max_manifest_object_bytes}
use comb.Core.Envelope.Bounded.{contains}
use comb.Object.Step
use comb.Object.Step.{AnyError, core, other, Outcome, done, failed, Step, pure, lift, fail, map_err}
use comb.Store.Host.{Env, World}
use comb.Store.Keys.{Store, is_v2}
use comb.Store.Blobs.{get_blob, get_blob_limited}
use comb.Publish.View.{Codec, Published, log_manifest_carriers, map_commit_read_error, schema_of}
use comb.Publish.Plan.{PreparedMutation, PrepareCtx, RefMutationPlan}
use comb.Publish.Engine.{publish}

pub record MutationResult : Type 0 where
  pub generation : ℕ
  pub epoch : ℕ

-- `reject_log_namespace`.
unfoldable pub reject_log_namespace : Str → Result (Unit {0})
reject_log_namespace name =
    refuse_if (starts_with (str "log/") name)
      (rejected "core set-target cannot write a log-owned ref")

-- `Err` of `UnsupportedEnvelopeFormat` with the field `Schema`.
unfoldable pub is_other_schema : AnyError → Bool
is_other_schema (core (unsupported_envelope_format EnvelopeFormatField.schema v)) = true
is_other_schema _ = false

module _ {S E : Type 0} (env : Env S E) where
  -- The holder of a live lease.
  unfoldable pub held_by : Lease env.chrono → CoreError
  held_by lease = lease_held lease.writer (env.chrono.to_rfc3339 lease.lease_until)

  -- The fence of a `SetTargetPlan`, or its look at the lease.
  unfoldable pub set_target_allowed :
      Option ℕ → RefValue env.chrono → env.chrono.Time → Result (Unit {0})
  unfolding held_by
  set_target_allowed (some f) current now =
      refuse_if (not (f == current.epoch)) (fenced f current.epoch)
  set_target_allowed none current now =
      if not (lease_live current now)
      then ok tt
      else elim current.lease [ none ↦ ok tt | some lease ↦ err (held_by lease) ]

  -- `prepare` of a `SetTargetPlan` behind the look at the old target.
  unfoldable pub set_target_next :
      Digest → Option ℕ → RefValue env.chrono → ℕ → env.chrono.Time → Result (RefValue env.chrono)
  unfolding set_target_allowed
  set_target_next target fence current generation now = do
    set_target_allowed fence current now
    ok (record current { generation = generation; target = some target; updated_at = now })

  -- The look of a `ClaimPlan` at a live lease.
  unfoldable pub claim_allowed :
      Str → Bool → RefValue env.chrono → env.chrono.Time → Result (Unit {0})
  unfolding held_by
  claim_allowed writer steal current now =
      if not (lease_live current now && not steal) then ok tt else elim current.lease [
        | none ↦ ok tt
        | some lease ↦ refuse_if (not (eqs lease.writer writer)) (held_by lease)
      ]

  -- `prepare` of a `ClaimPlan`.
  unfoldable pub claim_next :
      Str
      → env.host.Secs
      → Bool
      → RefValue env.chrono
      → ℕ
      → env.chrono.Time
      → Result (RefValue env.chrono)
  unfolding claim_allowed
  claim_next writer ttl steal current generation now = do
    claim_allowed writer steal current now
    refuse_if (ltb (2 ^ 64 - 1) (current.epoch + 1)) (rejected "epoch overflow")
    ok (record current {
      generation = generation;
      epoch = current.epoch + 1;
      lease =
          some
            (record { writer = writer; lease_until = env.chrono.add now (env.host.seconds ttl) });
      updated_at = now;
    })

  -- The owner check of a `ReleasePlan`.
  unfoldable pub release_allowed : Option Str → RefValue env.chrono → Result (Unit {0})
  release_allowed none current = ok tt
  release_allowed (some writer) current = elim current.lease [
    | none ↦ err (rejected "release requires the held lease")
    | some lease ↦ refuse_if (not (eqs lease.writer writer)) (rejected "release by non-owner")
  ]

  -- `prepare` of a `ReleasePlan`.
  unfoldable pub release_next :
      ℕ → Option Str → RefValue env.chrono → ℕ → env.chrono.Time → Result (RefValue env.chrono)
  unfolding release_allowed
  release_next fence writer current generation now = do
    refuse_if (not (current.epoch == fence)) (fenced fence current.epoch)
    release_allowed writer current
    ok (record current { generation = generation; lease = none; updated_at = now })

  -- What each `prepare` makes of the next ref.
  unfoldable pub prepared :
      RefValue env.chrono → env.json.Value → PrepareCtx env → PreparedMutation env MutationResult
  prepared next change ctx = record {
    next = next;
    uploads = [];
    commit_upload = none;
    change = change;
    outcome = record { generation = ctx.generation; epoch = next.epoch };
    admitted = [];
    companions = [];
    live_lease = none;
  }
