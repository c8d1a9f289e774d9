-- ===== src/Publish/Intent.antt =====
-- crates/combctl/src/publish.rs: the intent of an identity, its attempt record and result cache.
use comb.Prelude.{
  ℕ, ◌+◌, ◌-◌, ◌^◌, Bool, true, false, not, ◌||◌, Option, none, some, List, ltb, ◌==◌,
  if◌then◌else◌,
}
use comb.Prelude.Str.{Str, eqs}
use comb.Core.Error.{
  CoreError, Result, ok, err, already_exists, precondition_failed, backend_unavailable,
  recovery_failed, rejected, ok_or, refuse_if,
}
use comb.Core.Digest.{Digest}
use comb.Core.Operation.Identity.{OpIdentity, canonical}
use comb.Core.Commit.{OpIntent, applied, validate_intent}
use comb.Object.Backend.{Version}
use comb.Object.Step.{core, other, done, Step, ◌>>=◌, ◌>>◌, pure, lift, fail}
use comb.Store.Host.{Env, World, ask, tick}
use comb.Store.Keys.{Store, intent_key, same_digest}
use comb.Publish.View.{
  View, Published, Codec, identity_in_commit, other_request, conflict, published_from_view,
}
use comb.Publish.Head.{read_head, head_or_empty, get_small, is_not_found}
use comb.Publish.Seek.{seek_generation}

abbrev pub max_publish_attempts : ℕ
max_publish_attempts = 128

-- `Err(PreconditionFailed(_)) | Err(AlreadyExists(_))`: another writer was first.
unfoldable pub is_lost_race : CoreError → Bool
is_lost_race (precondition_failed m) = true
is_lost_race (already_exists k) = true
is_lost_race _ = false

unfoldable pub is_unavailable : CoreError → Bool
is_unavailable (backend_unavailable m) = true
is_unavailable _ = false

-- `let _ = call.await;`
unfoldable pub ignore : {W T : Type 0} → Step W T → Step W (Unit {0})
ignore call w = (done tt, (call w).1)

-- `serde_json::to_vec(..)?`.
unfoldable pub written : {W T : Type 0} → Option T → Step W T
written text = elim text [ none ↦ fail (other "serde_json") | some t ↦ pure t ]

pub data IntentAdmission (T : Type 0) : Type 0 where
  admitted_applied : ℕ → Digest → T → IntentAdmission T
  admitted_pending : ℕ → IntentAdmission T

pub data PendingResolution (P : Type 0) : Type 0 where
  resolved : P → PendingResolution P
  attempt_at : ℕ → PendingResolution P

abbrev pub Intent : {S E : Type 0} → Env S E → Type 0
Intent env = OpIntent env.chrono env.json.Value

module _ {S E : Type 0} (env : Env S E) (store : Store env) where
  -- `load_intent` behind the read.
  unfoldable pub check_loaded : OpIdentity → List ℕ → Step (World S E) (Intent env)
  unfolding written
  check_loaded identity bytes = do
    intent ←
        lift (ok_or (env.json.intent_from_slice bytes) (recovery_failed "malformed intent {}: {e}"))
    lift (elim (validate_intent env.hex intent) [
      | ok u ↦ ok tt
      | err e ↦ err (recovery_failed "intent {}: {e}")
    ])
    lift (
        refuse_if (not (eqs intent.identity (canonical env.hex identity)))
          (recovery_failed "intent {} stored identity {}"))
    pure intent

  -- `load_intent`.
  unfoldable pub load_intent :
      OpIdentity → Step (World S E) (Option ((Intent env) × Option Version))
  unfolding check_loaded
  load_intent identity = do
    fetched ← get_small env store (intent_key env store identity)
    elim fetched [
      | err e ↦ if is_not_found e then pure none else fail (core e)
      | ok (bytes, version) ↦ do
        intent ← check_loaded identity bytes
        pure (some (intent, some version))
    ]

  -- `check_intent`.
  unfoldable pub check_intent : Intent env → OpIdentity → Str → Digest → Result (Unit {0})
  check_intent intent identity resource request =
      if not (eqs intent.identity (canonical env.hex identity))
      then err (recovery_failed "intent {} stored identity {}")
      else refuse_if
          (not (eqs intent.resource resource) || not (same_digest intent.request request))
          (conflict env identity intent.request request)

  -- `serde_json::to_vec_pretty(&intent)?`, then `put_update` under its key.
  unfoldable pub put_intent :
      OpIdentity → Intent env → Option Version → Step (World S E) (Result Version)
  unfolding written
  put_intent identity intent version = do
    body ← written (env.json.intent_to_vec intent)
    now ← tick env.host.utc_now
    ask (store.backend.put_update (intent_key env store identity) version body now)

  -- `finalize_intent`.
  unfoldable pub finalize_intent :
      OpIdentity → ℕ → Digest → env.json.Value → Step (World S E) (Unit {0})
  unfolding load_intent put_intent ignore
  finalize_intent identity generation commit result = do
    loaded ← load_intent identity
    elim loaded [
      | none ↦ pure tt
      | some (intent, version) ↦ do
        put_intent identity (record intent { state = applied generation commit result }) version
        pure tt
    ]

  -- The checks of a loaded intent before it is used.
  unfoldable pub admit_intent : Intent env → OpIdentity → Str → Digest → Step (World S E) (Unit {0})
  unfolding check_intent
  admit_intent intent identity resource request = do
    lift (validate_intent env.hex intent)
    lift (check_intent intent identity resource request)

  module _ {T : Type 0} (codec : Codec env.json.Value T) where
    -- `published_from_view` in `try_cached_applied`, whose errors count as a miss.
    unfoldable pub view_as_cached : View env → OpIdentity → Option (Published env.chrono T)
    view_as_cached view identity =
        elim (published_from_view env codec view identity store.tenant false) [
          | ok p ↦ some p
          | err e ↦ none
        ]

    -- `try_cached_applied`.
    unfoldable pub try_cached_applied :
        Str → OpIdentity → Digest → ℕ → Digest → Step (World S E) (Option (Published env.chrono T))
    unfolding view_as_cached
    try_cached_applied resource identity request generation commit = do
      head ← read_head env store resource
      elim head [
        | none ↦ pure none
        | some snapshot ↦
            if generation == 0 || ltb snapshot.value.generation generation
            then pure none
            else elim snapshot.value.head_commit [
              | none ↦ pure none
              | some head_commit ↦ do
                (view, reads) ← seek_generation env store head_commit generation resource
                pure (
                    if not (same_digest view.digest commit)
                      || not (view.header.generation == generation)
                      || not (eqs view.header.resource resource)
                      || other_request env view identity request
                      || not (identity_in_commit env view identity)
                    then none
                    else view_as_cached view identity)
            ]
      ]

    -- The commit behind an intent's base, in `resolve_pending`: the identity is in it, or not.
    unfoldable pub resolve_view :
        OpIdentity
        → Digest
        → ℕ
        → View env
        → Step (World S E) (PendingResolution (Published env.chrono T))
    unfolding finalize_intent written
    resolve_view identity request head_gen view =
        if identity_in_commit env view identity
        then (do
          lift (
              refuse_if (other_request env view identity request)
                (conflict env identity view.header.request request))
          published ← lift (published_from_view env codec view identity store.tenant false)
          result ← written (codec.to_value published.outcome)
          ignore (finalize_intent identity published.generation published.commit result)
          pure (resolved published))
        else pure (attempt_at head_gen)

    -- `resolve_pending`.
    unfoldable pub resolve_pending :
        OpIdentity
        → Intent env
        → Digest
        → Str
        → Step (World S E) (PendingResolution (Published env.chrono T))
    unfolding resolve_view
    resolve_pending identity intent request resource = do
      snapshot ← head_or_empty env store resource
      let head_gen = snapshot.value.generation
      (if head_gen == intent.base_generation
          then pure (attempt_at intent.base_generation)
          else if ltb head_gen intent.base_generation
          then fail (core (recovery_failed "ref {} generation {head_gen} is behind intent base {}"))
          else elim snapshot.value.head_commit [
            | none ↦
                fail (core (recovery_failed "ref {resource} advanced past {} without a commit"))
            | some head_commit ↦ do
              lift (
                  refuse_if (ltb (2 ^ 64 - 1) (intent.base_generation + 1))
                    (rejected "generation overflow"))
              let target = intent.base_generation + 1
              (view, reads) ← seek_generation env store head_commit target resource
              lift (
                  refuse_if (not (view.header.generation == target))
                    (recovery_failed "seek for generation {target} landed on {}"))
              lift (
                  refuse_if (not (eqs view.header.resource resource))
                    (recovery_failed "commit at {target} belongs to resource {}"))
              resolve_view identity request head_gen view
          ])
