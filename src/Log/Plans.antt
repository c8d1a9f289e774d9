-- ===== src/Log/Plans.antt =====
-- crates/combctl/src/log.rs: the plans of appends and takeovers.
use comb.Prelude.{ℕ, ◌+◌, ◌-◌, ◌^◌, false, Option, none, some, List, [], ◌∷◌, ltb}
use comb.Prelude.Str.{Str, str, bytes}
use comb.Core.Error.{rejected, refuse_if}
use comb.Core.Refs.{RefValue}
use comb.Core.Operation.Material.{Material}
use comb.Object.Step.{◌>>=◌, ◌>>◌, pure, lift}
use comb.Store.Host.{Env}
use comb.Store.Keys.{Store}
use comb.Publish.Plan.{Upload, PreparedMutation, RefMutationPlan}
use comb.Log.Model.{
  FeedMode, complete_feed, AppendRange, StableAppendReceipt, GenericItem, StableItem, LogJson,
}
use comb.Log.Payloads.{taken_lease}
use comb.Log.Prepare.{prepare_events, log_ref}
use comb.Core.Digest.{Digest}

module _ {S E : Type 0} (env : Env S E) (store : Store env)
    (json : LogJson env.chrono env.json.Value) where
  -- `Material` of an append.
  unfoldable pub append_material : List (List ℕ) → Material
  append_material payloads = record { kind = str "append"; preconditions = []; payload = payloads }

  -- `AppendPlan`.
  unfoldable pub append_plan :
      Str → Str → Str → env.host.Secs → List (List ℕ) → FeedMode → RefMutationPlan env AppendRange
  unfolding append_material prepare_events
  append_plan resource logical writer lease_secs payloads feed = record {
    codec = json.range_codec;
    resource = resource;
    material = append_material payloads;
    plan_lease = none;
    prepare = λ ctx.
        prepare_events env store json ctx logical writer lease_secs feed
          (record { identity = ctx.identity; request = ctx.request; payloads = payloads } ∷ []) []
          false;
  }

  -- `GroupPlan`; a group has its leader in front.
  unfoldable pub group_plan :
      Str
      → Str
      → Str
      → env.host.Secs
      → FeedMode
      → GenericItem
      → List GenericItem
      → RefMutationPlan env AppendRange
  unfolding append_material prepare_events
  group_plan resource logical writer lease_secs feed leader others = record {
    codec = json.range_codec;
    resource = resource;
    material = append_material leader.payloads;
    plan_lease = none;
    prepare = λ ctx.
        prepare_events env store json ctx logical writer lease_secs feed (leader ∷ others) [] false;
  }

  -- The receipt of a stable append.
  unfoldable pub receipt_of :
      Digest → ℕ → PreparedMutation env AppendRange → PreparedMutation env StableAppendReceipt
  receipt_of payload_hash generation inner = record {
    next = inner.next;
    uploads = inner.uploads;
    commit_upload = inner.commit_upload;
    change = inner.change;
    outcome = record {
      payload_hash = payload_hash;
      range = inner.outcome;
      generation = generation;
    };
    admitted = inner.admitted;
    companions = inner.companions;
    live_lease = none;
  }

  -- `StableAppendPlan`.
  unfoldable pub stable_append_plan :
      Str → Str → Str → env.host.Secs → StableItem → RefMutationPlan env StableAppendReceipt
  unfolding receipt_of prepare_events
  stable_append_plan resource logical writer lease_secs item = record {
    codec = json.receipt_codec;
    resource = resource;
    material = record {
      kind = str "append-stable";
      preconditions = (str "stable-key", item.key.raw) ∷ [];
      payload = item.payload ∷ [];
    };
    plan_lease = none;
    prepare = λ ctx. do
      inner ←
          prepare_events env store json ctx logical writer lease_secs complete_feed [] (item ∷ [])
            false
      pure (receipt_of item.payload_hash ctx.generation inner);
  }

  -- What a plan without admissions prepares.
  unfoldable pub prepared_alone :
      {T : Type 0}
      → RefValue env.chrono
      → List Upload
      → Option ℕ
      → env.json.Value
      → T
      → PreparedMutation env T
  prepared_alone next uploads commit_upload change outcome = record {
    next = next;
    uploads = uploads;
    commit_upload = commit_upload;
    change = change;
    outcome = outcome;
    admitted = [];
    companions = [];
    live_lease = none;
  }

  -- `TakeoverPlan`.
  unfoldable pub takeover_plan : Str → Str → env.host.Secs → RefMutationPlan env ℕ
  unfolding prepared_alone log_ref taken_lease
  takeover_plan resource writer lease_secs = record {
    codec = json.epoch_codec;
    resource = resource;
    material = record {
      kind = str "takeover";
      preconditions = (str "writer", bytes writer) ∷ [];
      payload = [];
    };
    plan_lease = none;
    prepare = λ ctx. do
      lift (refuse_if (ltb (2 ^ 64 - 1) (ctx.snapshot.value.epoch + 1)) (rejected "epoch overflow"))
      let epoch = ctx.snapshot.value.epoch + 1
      pure (
          prepared_alone
            (log_ref env store json ctx epoch (some (taken_lease env writer ctx.now lease_secs))) []
            none (json.takeover_change writer) epoch);
  }
