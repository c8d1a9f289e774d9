-- ===== src/Store/Mutations.antt =====
-- crates/combctl/src/store.rs: the plans of the mutations of a ref.
use mathlib.Core.Option
use comb.Prelude.{ℕ, Bool, Option, none, some, List, [], ◌∷◌, if◌then◌else◌}
use comb.Prelude.Str.{Str, str, bytes}
use comb.Core.Error.{Result, ok, rejected, refuse_if}
use comb.Core.Digest
use comb.Core.Digest.{Digest}
use comb.Core.Refs.{RefValue}
use comb.Core.Envelope.{EnvelopeReadSpec, blob, max_manifest_object_bytes}
use comb.Core.Envelope.Bounded.{contains}
use comb.Object.Step.{done, failed, Step, ◌>>=◌, ◌>>◌, pure, lift, map_err}
use comb.Store.Host.{Env, World}
use comb.Store.Keys.{Store, is_v2}
use comb.Store.Blobs.{get_blob, get_blob_limited}
use comb.Publish.View.{Codec, log_manifest_carriers, map_commit_read_error, schema_of}
use comb.Publish.Plan.{RefMutationPlan}
use comb.Store.Plans.{
  MutationResult, reject_log_namespace, is_other_schema, set_target_next, claim_next, release_next,
  prepared,
}

module _ {S E : Type 0} (env : Env S E) (store : Store env)
    (codec : Codec env.json.Value MutationResult) where
  -- The policy of `reject_existing_log_manifest` under the v3 layout.
  unfoldable pub manifest_spec : EnvelopeReadSpec
  manifest_spec = record {
    tenant = store.tenant;
    kind = blob;
    allowed_schemas = log_manifest_carriers;
    max_encoded_bytes = max_manifest_object_bytes;
    max_plaintext_bytes = max_manifest_object_bytes;
  }

  -- The match on the bounded read: an object of another schema has no bytes to look at.
  unfoldable pub unless_other_schema :
      {T : Type 0} → Step (World S E) T → Step (World S E) (Option T)
  unfolding is_other_schema
  unless_other_schema call s =
      let (outcome, after) = call s in
      elim outcome [
        | done t ↦ (done (some t), after)
        | failed e ↦
            if is_other_schema e
            then (done none, after)
            else (failed (map_commit_read_error e), after)
      ]

  -- The old target as `reject_existing_log_manifest` reads it.
  unfoldable pub read_target : Digest → Step (World S E) (Option (List ℕ))
  unfolding manifest_spec unless_other_schema
  read_target d =
      if is_v2 store.layout
      then (do found ← map_err map_commit_read_error (get_blob env store d); pure (some found.0))
      else (do
        found ← unless_other_schema (get_blob_limited env store d manifest_spec)
        pure (Option.map (λ f. f.0) found))

  -- The look at its bytes: a log manifest is not overwritten.
  unfoldable pub refuse_manifest : List ℕ → Result (Unit {0})
  refuse_manifest payload = elim (env.json.value_from_slice payload) [
    | none ↦ ok tt
    | some value ↦ elim (schema_of env value) [
      | none ↦ ok tt
      | some schema ↦
          refuse_if (contains log_manifest_carriers schema)
            (rejected "core set-target cannot overwrite a log-owned ref")
    ]
  ]

  -- `reject_existing_log_manifest`.
  unfoldable pub reject_existing_log_manifest : RefValue env.chrono → Step (World S E) (Unit {0})
  unfolding read_target refuse_manifest reject_log_namespace
  reject_existing_log_manifest current = do
    lift (reject_log_namespace current.name)
    elim current.target [
      | none ↦ pure tt
      | some d ↦ do
        payload ← read_target d
        lift (elim payload [ none ↦ ok tt | some bytes ↦ refuse_manifest bytes ])
    ]

  -- `SetTargetPlan`.
  unfoldable pub set_target_plan : Str → Digest → Option ℕ → RefMutationPlan env MutationResult
  unfolding reject_existing_log_manifest
  set_target_plan name target fence = record {
    codec = codec;
    resource = name;
    material = record {
      kind = str "set-target";
      preconditions = (str "target", bytes (Digest.to_string target)) ∷ [];
      payload = [];
    };
    plan_lease = none;
    prepare = λ ctx. do
      lift (reject_log_namespace name)
      reject_existing_log_manifest ctx.snapshot.value
      next ← lift (set_target_next env target fence ctx.snapshot.value ctx.generation ctx.now)
      pure (prepared env next (env.json.set_target_change target) ctx);
  }

  -- `ClaimPlan`.
  unfoldable pub claim_plan : Str → Str → env.host.Secs → Bool → RefMutationPlan env MutationResult
  claim_plan name writer ttl steal = record {
    codec = codec;
    resource = name;
    material = record {
      kind = str "claim";
      preconditions =
          (str "writer", bytes writer) ∷ (str "steal", (if steal then str "1" else str "0")) ∷ [];
      payload = [];
    };
    plan_lease = none;
    prepare = λ ctx. do
      next ← lift (claim_next env writer ttl steal ctx.snapshot.value ctx.generation ctx.now)
      pure (prepared env next (env.json.claim_change writer steal) ctx);
  }

  -- `ReleasePlan`.
  unfoldable pub release_plan : Str → ℕ → Option Str → RefMutationPlan env MutationResult
  release_plan name fence writer = record {
    codec = codec;
    resource = name;
    material = record { kind = str "release"; preconditions = []; payload = [] };
    plan_lease = none;
    prepare = λ ctx. do
      next ← lift (release_next env fence writer ctx.snapshot.value ctx.generation ctx.now)
      pure (prepared env next env.json.release_change ctx);
  }
