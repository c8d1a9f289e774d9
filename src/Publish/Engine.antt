-- ===== src/Publish/Engine.antt =====
-- crates/combctl/src/publish.rs: `publish`, which attempts until an outcome is certain.
pub mod Certain
use comb.Prelude.{
  ℕ, zero, suc, ◌+◌, ◌^◌, true, false, Option, none, some, ltb, ◌==◌, if◌then◌else◌, ◌-◌, ◌||◌,
}
use comb.Prelude.Str.{Str}
use comb.Core.Error.{CoreError, Result, ok, err, recovery_failed, rejected, refuse_if}
use comb.Core.Digest.{Digest}
use comb.Core.Operation.Identity.{OpIdentity, check_identity_time}
use comb.Core.Operation.Material.{material_hash}
use comb.Core.Commit.{IntentState, pending_state, applied, pending, validate_intent}
use comb.Object.Backend.{Version}
use comb.Object.Step.{core, other, Step, ◌>>=◌, ◌>>◌, pure, lift, fail}
use comb.Store.Host.{Env, World, tick}
use comb.Store.Keys.{Store, is_v2}
use comb.Publish.View.{
  Published, Codec, View, CommitView, intent_expiry, identity_in_commit, outcome_from_view,
}
use comb.Publish.Head.{HeadSnapshot, read_head, head_or_empty, reject_v1}
use comb.Publish.Seek.{recover_without_intent, seek_generation}
use comb.Publish.Plan.{RefMutationPlan}
use comb.Publish.Intent.{
  Intent, IntentAdmission, admitted_applied, admitted_pending, PendingResolution, resolved,
  attempt_at, max_publish_attempts, is_lost_race, is_unavailable, ignore, written, load_intent,
  admit_intent, put_intent, finalize_intent, try_cached_applied, resolve_pending,
}
use comb.Publish.Attempt.{AttemptResult, finished, retry, attempt}

module _ {S E : Type 0} (env : Env S E) (store : Store env) where
  -- The clock, the intent of an identity, and its time gate: the start of every round.
  unfoldable pub load_gated : OpIdentity → Step (World S E) (Option (Intent env × Option Version))
  load_gated identity = do
    now ← tick env.host.clock_now
    loaded ← load_intent env store identity
    lift (
        check_identity_time env.chrono identity now store.policy
          (elim loaded [ none ↦ false | some l ↦ true ]))
    pure loaded

  module _ {T : Type 0} (plan : RefMutationPlan env T) where
    -- `plan.material().hash(..)`.
    unfoldable pub request_of : Digest
    request_of = material_hash env.hex env.blake3 store.key plan.material store.tenant plan.resource

    -- `recover_completed`.
    unfoldable pub recover_completed :
        OpIdentity → Step (World S E) (Option (Published env.chrono T))
    unfolding request_of
    recover_completed identity = do
      loaded ← load_intent env store identity
      now ← tick env.host.clock_now
      lift (
          check_identity_time env.chrono identity now store.policy
            (elim loaded [ none ↦ false | some l ↦ true ]))
      elim loaded [
        | none ↦ pure tt
        | some (intent, version) ↦ admit_intent env store intent identity plan.resource request_of
      ]
      recover_without_intent env store plan.codec identity request_of plan.resource

    -- A publication of an attempt, or another round.
    unfoldable pub of_attempt :
        AttemptResult (Published env.chrono T) → Option (Published env.chrono T)
    of_attempt (finished p) = some p
    of_attempt retry = none

    -- What a resolution leads to: its publication, or the attempt that it asks for.
    unfoldable pub resume_from :
        OpIdentity
        → Intent env
        → Option Version
        → PendingResolution (Published env.chrono T)
        → Step (World S E) (Option (Published env.chrono T))
    unfolding request_of of_attempt
    resume_from identity intent version (resolved p) = pure (some p)
    resume_from identity intent version (attempt_at base) = do
      result ← attempt env store plan identity intent version base request_of
      pure (of_attempt result)

    -- A resolution of a pending intent, and the attempt that it asks for. No value: another round.
    unfoldable pub resume :
        OpIdentity
        → Intent env
        → Option Version
        → Step (World S E) (Option (Published env.chrono T))
    unfolding request_of resume_from
    resume identity intent version = do
      resolution ← resolve_pending env store plan.codec identity intent request_of plan.resource
      resume_from identity intent version resolution

    -- A round on an applied intent, which is a cache that the chain has to confirm.
    unfoldable pub round_applied :
        OpIdentity
        → Intent env
        → Option Version
        → ℕ
        → Digest
        → Step (World S E) (Option (Published env.chrono T))
    unfolding resume request_of
    round_applied identity intent version generation commit = do
      cached ←
          try_cached_applied env store plan.codec plan.resource identity request_of generation
            commit
      elim cached [
        | some p ↦ pure (some p)
        | none ↦ do
          recovered ← recover_without_intent env store plan.codec identity request_of plan.resource
          elim recovered [
            | some p ↦ pure (some p)
            | none ↦ do
              snapshot ← head_or_empty env store plan.resource
              resume identity
                  (record intent {
                    state = pending_state;
                    base_generation = snapshot.value.generation;
                  })
                  version
          ]
      ]

    -- A round without an intent: the chain is searched, and an intent is created.
    unfoldable pub round_new : OpIdentity → Step (World S E) (Option (Published env.chrono T))
    unfolding request_of
    round_new identity = do
      recovered ← recover_without_intent env store plan.codec identity request_of plan.resource
      elim recovered [
        | some p ↦ pure (some p)
        | none ↦ do
          snapshot ← head_or_empty env store plan.resource
          answer ←
              put_intent env store identity
                (pending env.hex identity plan.resource request_of snapshot.value.generation
                  (intent_expiry env.chrono identity store.policy))
                none
          elim answer [
            | ok version ↦ pure none
            | err e ↦ if is_lost_race e || is_unavailable e then pure none else fail (core e)
          ]
      ]

    -- `match intent.state`.
    unfoldable pub round_on :
        OpIdentity
        → Intent env
        → Option Version
        → IntentState env.json.Value
        → Step (World S E) (Option (Published env.chrono T))
    unfolding round_applied resume
    round_on identity intent version (applied generation commit result) =
        round_applied identity intent version generation commit
    round_on identity intent version pending_state = resume identity intent version

    -- A round of the loop of `publish`.
    unfoldable pub publish_round : OpIdentity → Step (World S E) (Option (Published env.chrono T))
    unfolding load_gated round_on round_new
    publish_round identity = do
      loaded ← load_gated identity
      elim loaded [
        | none ↦ round_new identity
        | some (intent, version) ↦ do
          admit_intent env store intent identity plan.resource request_of
          round_on identity intent version intent.state
      ]

    -- The loop, with the attempts that are left.
    unfoldable pub publish_loop : ℕ → OpIdentity → Step (World S E) (Published env.chrono T)
    unfolding publish_round
    publish_loop zero identity =
        fail (other "publication did not converge after {MAX_PUBLISH_ATTEMPTS} attempts")
    publish_loop (suc left) identity = do
      answer ← publish_round identity
      elim answer [ some p ↦ pure p | none ↦ publish_loop left identity ]

    -- `Store::publish`.
    unfoldable pub publish : OpIdentity → Step (World S E) (Published env.chrono T)
    unfolding publish_loop
    publish identity = do
      (if is_v2 store.layout then reject_v1 env store plan.resource else pure tt)
      publish_loop max_publish_attempts identity

  -- The outcome as it stands in the commit.
  unfoldable pub value_codec : Codec env.json.Value env.json.Value
  value_codec = record { to_value = λ v. some v; from_value = λ v. some v }

  abbrev pub Admitted : Type 0
  Admitted = Option (IntentAdmission env.json.Value)

  -- `IntentAdmission::Applied` of a publication.
  unfoldable pub admission_of : Published env.chrono env.json.Value → Admitted
  admission_of p = some (admitted_applied p.generation p.commit p.outcome)

  -- A rewrite of an intent with a new base. No value: another round.
  unfoldable pub rebase_intent :
      OpIdentity → Intent env → Option Version → Step (World S E) Admitted
  rebase_intent identity intent version = do
    answer ← put_intent env store identity intent version
    elim answer [
      | ok v ↦ pure (some (admitted_pending intent.base_generation))
      | err e ↦ if is_lost_race e then pure none else fail (core e)
    ]

  -- The applied arm of `ensure_pending_intent`.
  unfoldable pub ensure_applied :
      OpIdentity
      → Str
      → Digest
      → Intent env
      → Option Version
      → ℕ
      → Digest
      → Step (World S E) Admitted
  unfolding rebase_intent admission_of value_codec
  ensure_applied identity resource request intent version generation commit = do
    cached ← try_cached_applied env store value_codec resource identity request generation commit
    elim cached [
      | some p ↦ pure (admission_of p)
      | none ↦ do
        recovered ← recover_without_intent env store value_codec identity request resource
        elim recovered [
          | some p ↦ pure (admission_of p)
          | none ↦ do
            snapshot ← head_or_empty env store resource
            rebase_intent identity
                (record intent {
                  state = pending_state;
                  base_generation = snapshot.value.generation;
                })
                version
        ]
    ]

  -- The pending arm behind a head that has moved on, whose commit after the base is looked at.
  unfoldable pub ensure_behind :
      OpIdentity → Str → Intent env → Option Version → ℕ → Digest → Step (World S E) Admitted
  unfolding rebase_intent value_codec ignore
  ensure_behind identity resource intent version head head_commit = do
    (view, reads) ← seek_generation env store head_commit (intent.base_generation + 1) resource
    (if identity_in_commit env view identity
        then (do
          outcome ← lift (outcome_from_view env value_codec view identity)
          ignore (finalize_intent env store identity view.header.generation view.digest outcome)
          pure (some (admitted_applied view.header.generation view.digest outcome)))
        else rebase_intent identity (record intent { base_generation = head }) version)

  -- The pending arm of `ensure_pending_intent`.
  unfoldable pub ensure_pending :
      OpIdentity → Str → Intent env → Option Version → Step (World S E) Admitted
  unfolding ensure_behind
  ensure_pending identity resource intent version = do
    snapshot ← head_or_empty env store resource
    let head = snapshot.value.generation
    (if head == intent.base_generation
        then pure (some (admitted_pending intent.base_generation))
        else if ltb head intent.base_generation
        then fail
            (core (recovery_failed "ref {resource} generation {head} is behind intent base {}"))
        else (do
          lift (
              refuse_if (ltb (2 ^ 64 - 1) (intent.base_generation + 1))
                (rejected "generation overflow"))
          elim snapshot.value.head_commit [
            | none ↦
                fail (core (recovery_failed "ref {resource} advanced past {} without a commit"))
            | some head_commit ↦ ensure_behind identity resource intent version head head_commit
          ]))

  -- The end of a round of `ensure_pending_intent` without an intent.
  unfoldable pub ensure_new : OpIdentity → Str → Digest → ℕ → Step (World S E) Admitted
  unfolding admission_of value_codec
  ensure_new identity resource request base_generation = do
    recovered ← recover_without_intent env store value_codec identity request resource
    elim recovered [
      | some p ↦ pure (admission_of p)
      | none ↦ do
        answer ←
            put_intent env store identity
              (pending env.hex identity resource request base_generation
                (intent_expiry env.chrono identity store.policy))
              none
        elim answer [
          | ok v ↦ pure (some (admitted_pending base_generation))
          | err e ↦ if is_lost_race e || is_unavailable e then pure none else fail (core e)
        ]
    ]

  -- The loop of `ensure_pending_intent`.
  unfoldable pub ensure_loop :
      ℕ → OpIdentity → Str → Digest → ℕ → Step (World S E) (IntentAdmission env.json.Value)
  unfolding load_gated ensure_applied ensure_pending ensure_new
  ensure_loop zero identity resource request base_generation =
      fail (other "intent admission did not converge")
  ensure_loop (suc left) identity resource request base_generation = do
    loaded ← load_gated identity
    answer ← elim loaded [
      | none ↦ ensure_new identity resource request base_generation
      | some (intent, version) ↦ do
        admit_intent env store intent identity resource request
        elim intent.state [
          | applied generation commit result ↦
              ensure_applied identity resource request intent version generation commit
          | pending_state ↦ ensure_pending identity resource intent version
        ]
    ]
    elim answer [
      | some a ↦ pure a
      | none ↦ ensure_loop left identity resource request base_generation
    ]

  -- `ensure_pending_intent`.
  unfoldable pub ensure_pending_intent :
      OpIdentity → Str → Digest → ℕ → Step (World S E) (IntentAdmission env.json.Value)
  unfolding ensure_loop
  ensure_pending_intent identity resource request base_generation = do
    reject_v1 env store resource
    ensure_loop max_publish_attempts identity resource request base_generation
