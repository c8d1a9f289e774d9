-- ===== src/Publish/Attempt.antt =====
-- crates/combctl/src/publish.rs: one attempt to publish, from the head that was read to its replacement.
pub mod Finished
use comb.Prelude.{
  ℕ, ◌+◌, ◌-◌, ◌^◌, Bool, true, false, not, Option, none, some, List, [], ◌∷◌, ◌++◌, map, ltb, ◌==◌,
  length, if◌then◌else◌,
}
use comb.Prelude.Str.{Str, str}
use comb.Core.Error.{
  CoreError, Result, ok, err, object_too_large, recovery_failed, rejected, refuse_if,
}
use comb.Core.Digest.{Digest}
use comb.Core.Refs.{RefValue, ref_schema}
use comb.Core.Operation.Identity.{OpIdentity, canonical}
use comb.Core.Operation.Material.{material_hash}
use comb.Core.Commit.{
  CommitHeader, Commit, IntentState, pending_state, applied, commit_schema, header_schema,
  validate_header,
}
use comb.Core.Envelope.{blob, encode}
use comb.Object.Backend.{Version}
use comb.Object.Step.{core, other, Step, ◌>>=◌, ◌>>◌, pure, lift, fail}
use comb.Store.Host.{Env, World, ask, peek, touch, tick}
use comb.Store.Keys.{Store, is_v2, object_key, ref_key}
use comb.Store.Blobs.{stamp, create, cache_write, is_already_exists}
use comb.Publish.View.{Published, Codec, encoded_object_cap, durable_ref_state}
use comb.Publish.Head.{HeadSnapshot, head_or_empty, reject_v1, lacks_commit}
use comb.Publish.Seek.{compute_skip}
use comb.Publish.Plan.{
  Upload, Companion, LiveLeaseGuard, PreparedMutation, PrepareCtx, RefMutationPlan,
  enforce_live_lease, publication_io,
}
use comb.Publish.Intent.{
  Intent, is_lost_race, ignore, written, load_intent, put_intent, finalize_intent,
}

pub data AttemptResult (P : Type 0) : Type 0 where
  finished : P → AttemptResult P
  retry : AttemptResult P

pub data CasResult (P : Type 0) : Type 0 where
  committed : P → CasResult P
  conflicted : CasResult P

-- A sealed object: its digest and its encoded bytes.
abbrev pub Sealed : Type 0
Sealed = Digest × List ℕ

unfoldable pub nth {ℓ} : {A : Type ℓ} → List A → ℕ → Option A
nth [] n = none
nth (a ∷ more) n = let rest = nth more (n - 1) in if n == 0 then some a else rest

unfoldable pub last {ℓ} : {A : Type ℓ} → List A → Option A
last [] = none
last (a ∷ []) = some a
last (a ∷ b ∷ more) = last (b ∷ more)

module _ {S E : Type 0} (env : Env S E) (store : Store env) where
  -- `Envelope::new(..)` and `encode` of an upload.
  unfoldable pub seal : Upload → Step (World S E) Sealed
  seal u = do
    envelope ← stamp env store u.kind u.schema u.payload
    bytes ← lift (encode env.meta_json envelope)
    pure (envelope.meta.digest, bytes)

  unfoldable pub seal_all : List Upload → Step (World S E) (List Sealed)
  unfolding seal
  seal_all [] = pure []
  seal_all (u ∷ us) = do sealed ← seal u; rest ← seal_all us; pure (sealed ∷ rest)

  -- `serde_json::to_vec(&commit)` of the commit that the engine writes itself.
  unfoldable pub commit_payload :
      {T : Type 0}
      → RefMutationPlan env T
      → OpIdentity
      → Digest
      → HeadSnapshot env.chrono
      → ℕ
      → env.chrono.Time
      → PreparedMutation env T
      → Step (World S E) (List ℕ)
  unfolding written
  commit_payload plan identity request snapshot generation now prepared = do
    skip ← compute_skip env store generation snapshot.value.head_commit plan.resource
    let header : CommitHeader env.chrono = record {
      schema = header_schema;
      resource = plan.resource;
      generation = generation;
      epoch = prepared.next.epoch;
      identity = canonical env.hex identity;
      request = request;
      parent = snapshot.value.head_commit;
      skip = skip;
      at = now;
    }
    lift (validate_header env.hex header)
    result ← written (plan.codec.to_value prepared.outcome)
    written (
        env.json.commit_to_vec (record {
          schema = commit_schema;
          header = header;
          change = prepared.change;
          result = result;
          ref_state = durable_ref_state prepared.next;
        }))

  -- The objects of an attempt: the uploads, and the commit unless an upload is the commit.
  unfoldable pub seal_objects :
      {T : Type 0}
      → RefMutationPlan env T
      → OpIdentity
      → Digest
      → HeadSnapshot env.chrono
      → ℕ
      → env.chrono.Time
      → PreparedMutation env T
      → Step (World S E) (List Sealed)
  unfolding seal_all commit_payload nth
  seal_objects plan identity request snapshot generation now prepared = do
    uploaded ← seal_all prepared.uploads
    elim prepared.commit_upload [
      | some idx ↦ elim (nth prepared.uploads idx) [
        | none ↦ fail (other "commit_upload out of range")
        | some u ↦ pure uploaded
      ]
      | none ↦ do
        payload ← commit_payload plan identity request snapshot generation now prepared
        sealed ← seal (record { kind = blob; schema = commit_schema; payload = payload })
        pure (uploaded ++ sealed ∷ [])
    ]

  -- `uploaded[idx]`, whose panic out of range is `none`, or `uploaded.last()`.
  unfoldable pub chosen : Option ℕ → List Sealed → Option Sealed
  unfolding nth last
  chosen (some idx) uploaded = nth uploaded idx
  chosen none uploaded = last uploaded

  -- The digest of the commit among them.
  unfoldable pub commit_digest : Option ℕ → List Sealed → Step (World S E) Digest
  unfolding chosen
  commit_digest commit_upload uploaded = elim (chosen commit_upload uploaded) [
    | none ↦ fail (other "no commit object")
    | some sealed ↦ pure sealed.0
  ]

  -- `put_create` of one object, where one that is there already is as good.
  unfoldable pub put_object_once : Sealed → Step (World S E) (Unit {0})
  put_object_once sealed = do
    answer ← create env store (object_key env store sealed.0) sealed.1
    elim answer [
      | ok version ↦ pure tt
      | err e ↦ if is_already_exists e then pure tt else fail (core e)
    ]

  -- `for (digest, bytes, ..) in &uploaded`, each under the lease guard.
  unfoldable pub put_objects :
      Option (LiveLeaseGuard env) → RefValue env.chrono → List Sealed → Step (World S E) (Unit {0})
  unfolding put_object_once
  put_objects guard next [] = pure tt
  put_objects guard next (sealed ∷ rest) = do
    publication_io env guard next (put_object_once sealed)
    touch (cache_write env store sealed.0 sealed.1)
    put_objects guard next rest

  -- `sync_companions`: whether every companion stands at the base.
  unfoldable pub sync_companions : List (Companion env) → ℕ → List Digest → Step (World S E) Bool
  sync_companions [] base proposed = pure true
  sync_companions (c ∷ cs) base proposed = do
    loaded ← load_intent env store c.identity
    elim loaded [
      | none ↦ fail (core (recovery_failed "companion intent {} missing before ref CAS"))
      | some (intent, version) ↦
          if (elim intent.state [ applied g d r ↦ true | pending_state ↦ false ])
          then pure false
          else if not (intent.base_generation == base)
          then pure false
          else (do
            answer ← put_intent env store c.identity (record intent { proposed = proposed }) version
            elim answer [
              | ok v ↦ sync_companions cs base proposed
              | err e ↦ if is_lost_race e then pure false else fail (core e)
            ])
    ]

  -- The ref that replaces the head: the prepared value with the commit, which is the target too where
  -- an upload is the commit.
  unfoldable pub next_ref : RefValue env.chrono → Digest → Option ℕ → RefValue env.chrono
  next_ref next commit commit_upload =
      let with_commit = record next { head_commit = some commit; schema = ref_schema } in
      elim commit_upload [
        | none ↦ with_commit
        | some idx ↦ record with_commit { target = some commit }
      ]

  -- `put_update` of the ref, over the version that was read.
  unfoldable pub put_ref :
      Str → Option Version → RefValue env.chrono → Step (World S E) (Result Version)
  unfolding written
  put_ref name version next = do
    body ← written (env.json.ref_to_vec next)
    now ← tick env.host.utc_now
    ask (store.backend.put_update (ref_key env store name) version body now)

  -- `finalize_intent` of each companion.
  unfoldable pub finalize_companions :
      List (Companion env) → ℕ → Digest → Step (World S E) (Unit {0})
  finalize_companions [] generation commit = pure tt
  finalize_companions (c ∷ cs) generation commit = do
    ignore (finalize_intent env store c.identity generation commit c.result)
    finalize_companions cs generation commit

  -- What the engine reports of its own publication.
  unfoldable pub published :
      {T : Type 0}
      → PreparedMutation env T
      → ℕ
      → Digest
      → RefValue env.chrono
      → Published env.chrono T
  published prepared generation commit next = record {
    outcome = prepared.outcome;
    generation = generation;
    epoch = next.epoch;
    commit = commit;
    value = next;
    first_delivery = true;
    admitted = prepared.admitted;
  }

  -- `enforce_live_lease(.., self.clock().now())?`
  unfoldable pub recheck_lease :
      Option (LiveLeaseGuard env) → RefValue env.chrono → Step (World S E) (Unit {0})
  recheck_lease guard next = do
    now ← tick env.host.clock_now
    checked ← peek (enforce_live_lease env guard next now)
    lift checked

  module _ {T : Type 0} (plan : RefMutationPlan env T) where
    -- The end of `attempt`: the ref is replaced, and the intents are told.
    unfoldable pub replace_head :
        OpIdentity
        → HeadSnapshot env.chrono
        → ℕ
        → PreparedMutation env T
        → Digest
        → Step (World S E) (AttemptResult (Published env.chrono T))
    unfolding next_ref put_ref finalize_companions published recheck_lease written ignore
    replace_head identity snapshot generation prepared commit = do
      let next = next_ref prepared.next commit prepared.commit_upload
      recheck_lease prepared.live_lease next
      answer ← put_ref plan.resource snapshot.version next
      elim answer [
        | err e ↦ if is_lost_race e then pure retry else fail (core e)
        | ok version ↦ do
          result ← written (plan.codec.to_value prepared.outcome)
          ignore (finalize_intent env store identity generation commit result)
          finalize_companions prepared.companions generation commit
          pure (finished (published prepared generation commit next))
      ]

    -- The middle of `attempt`: the intent names the objects, which are then put.
    unfoldable pub stage_objects :
        OpIdentity
        → Intent env
        → Option Version
        → HeadSnapshot env.chrono
        → ℕ
        → PreparedMutation env T
        → List Sealed
        → Step (World S E) (AttemptResult (Published env.chrono T))
    unfolding put_objects sync_companions commit_digest replace_head
    stage_objects identity intent intent_version snapshot generation prepared uploaded = do
      let base = snapshot.value.generation
      let proposed = map (λ sealed. sealed.0) uploaded
      answer ←
          put_intent env store identity
            (record intent { base_generation = base; proposed = proposed }) intent_version
      elim answer [
        | err e ↦ if is_lost_race e then pure retry else fail (core e)
        | ok version ↦ do
          put_objects plan.plan_lease prepared.next uploaded
          commit ← commit_digest prepared.commit_upload uploaded
          synced ← sync_companions prepared.companions base proposed
          (if not synced
              then pure retry
              else replace_head identity snapshot generation prepared commit)
      ]

    -- `checked_add(1)` on the generation of the head.
    unfoldable pub next_generation : ℕ → Result ℕ
    next_generation generation =
        if ltb (2 ^ 64 - 1) (generation + 1)
        then err (rejected "generation overflow")
        else ok (generation + 1)

    -- `attempt` on a head at its base.
    unfoldable pub attempt_on :
        OpIdentity
        → Intent env
        → Option Version
        → Digest
        → HeadSnapshot env.chrono
        → Step (World S E) (AttemptResult (Published env.chrono T))
    unfolding stage_objects seal_objects next_generation
    attempt_on identity intent intent_version request snapshot = do
      lift (
          refuse_if (lacks_commit snapshot.value)
            (recovery_failed "head has generation but no commit"))
      now ← tick env.host.clock_now
      generation ← lift (next_generation snapshot.value.generation)
      let parent = snapshot.value.head_commit
      skip ← compute_skip env store generation parent plan.resource
      prepared ← publication_io env plan.plan_lease snapshot.value (
          plan.prepare (record {
            snapshot = snapshot;
            identity = identity;
            request = request;
            generation = generation;
            parent = parent;
            skip = skip;
            now = now;
          }))
      (if not (prepared.next.generation == generation)
          then fail (other "plan set generation {} want {generation}")
          else (do
            uploaded ← seal_objects plan identity request snapshot generation now prepared
            stage_objects identity intent intent_version snapshot generation prepared uploaded))

    -- `Store::attempt`.
    unfoldable pub attempt :
        OpIdentity
        → Intent env
        → Option Version
        → ℕ
        → Digest
        → Step (World S E) (AttemptResult (Published env.chrono T))
    unfolding attempt_on
    attempt identity intent intent_version base request = do
      snapshot ← head_or_empty env store plan.resource
      (if not (snapshot.value.generation == base)
          then pure retry
          else attempt_on identity intent intent_version request snapshot)

    -- `encoded_object_cap` on a sealed object.
    unfoldable pub check_cap : Str → Sealed → Result (Unit {0})
    check_cap schema sealed =
        let cap = encoded_object_cap schema in
        refuse_if (ltb cap (length sealed.1))
          (object_too_large (object_key env store sealed.0) cap (some (length sealed.1)))

    unfoldable pub seal_capped : List Upload → Step (World S E) (List Sealed)
    unfolding check_cap
    seal_capped [] = pure []
    seal_capped (u ∷ us) = do
      sealed ← seal u
      lift (check_cap u.schema sealed)
      rest ← seal_capped us
      pure (sealed ∷ rest)

    -- `for (digest, bytes) in &uploaded` of `commit_at_snapshot_inner`.
    unfoldable pub put_unguarded : List Sealed → Step (World S E) (Unit {0})
    unfolding put_object_once
    put_unguarded [] = pure tt
    put_unguarded (sealed ∷ rest) = do
      put_object_once sealed
      touch (cache_write env store sealed.0 sealed.1)
      put_unguarded rest

    -- The objects of `commit_at_snapshot_inner`, each within its cap.
    unfoldable pub seal_capped_objects :
        OpIdentity
        → Digest
        → HeadSnapshot env.chrono
        → ℕ
        → env.chrono.Time
        → PreparedMutation env T
        → Step (World S E) (List Sealed)
    unfolding seal_capped commit_payload
    seal_capped_objects identity request snapshot generation now prepared = do
      uploaded ← seal_capped prepared.uploads
      elim prepared.commit_upload [
        | some idx ↦ pure uploaded
        | none ↦ do
          payload ← commit_payload plan identity request snapshot generation now prepared
          sealed ←
              seal_capped (record { kind = blob; schema = commit_schema; payload = payload } ∷ [])
          pure (uploaded ++ sealed)
      ]

    -- `commit_at_snapshot_inner`.
    unfoldable pub commit_at_snapshot_inner :
        OpIdentity → HeadSnapshot env.chrono → Step (World S E) (CasResult (Published env.chrono T))
    unfolding seal_capped_objects put_unguarded commit_digest next_ref recheck_lease put_ref
        published next_generation
    commit_at_snapshot_inner identity snapshot = do
      now ← tick env.host.clock_now
      generation ← lift (next_generation snapshot.value.generation)
      let parent = snapshot.value.head_commit
      skip ← compute_skip env store generation parent plan.resource
      let request =
          material_hash env.hex env.blake3 store.key plan.material store.tenant plan.resource
      prepared ← plan.prepare (record {
        snapshot = snapshot;
        identity = identity;
        request = request;
        generation = generation;
        parent = parent;
        skip = skip;
        now = now;
      })
      uploaded ← seal_capped_objects identity request snapshot generation now prepared
      put_unguarded uploaded
      commit ← commit_digest prepared.commit_upload uploaded
      let next = next_ref prepared.next commit prepared.commit_upload
      recheck_lease prepared.live_lease next
      answer ← put_ref plan.resource snapshot.version next
      elim answer [
        | err e ↦ if is_lost_race e then pure conflicted else fail (core e)
        | ok version ↦ pure (committed (published prepared generation commit next))
      ]

    -- `commit_at_snapshot`.
    unfoldable pub commit_at_snapshot :
        OpIdentity → HeadSnapshot env.chrono → Step (World S E) (CasResult (Published env.chrono T))
    unfolding commit_at_snapshot_inner
    commit_at_snapshot identity snapshot = do
      (if is_v2 store.layout then reject_v1 env store plan.resource else pure tt)
      lift (
          refuse_if (lacks_commit snapshot.value)
            (recovery_failed "head has generation but no commit"))
      publication_io env plan.plan_lease snapshot.value (commit_at_snapshot_inner identity snapshot)
