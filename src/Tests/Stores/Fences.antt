-- ===== src/Tests/Stores/Fences.antt =====
-- A claim that steals a lease, a takeover and a renewal after it, and the writers from before.
use comb.Prelude.{ℕ, ◌≡◌, refl, true, none, some, []}
use comb.Prelude.Str.{str}
use comb.Core.Error.{ok, err, fenced}
use comb.Core.Refs.{RefValue}
use comb.Object.Memory.{Table, version_of}
use comb.Object.Step.{Outcome, core, done, failed}
use comb.Store.Host.{Env, World}
use comb.Store.Keys.{Store}
use comb.Store.Plans.{set_target_next, claim_next, release_next}
use comb.Store.Plans.Fencing.{Run, no_move, and_move, by_takeover, by_renewal, claim-fences}
use comb.Publish.Head.{HeadSnapshot}
use comb.Publish.Plan.{PreparedMutation, PrepareCtx}
use comb.Publish.Renew.{renewed, existing_head, renew_round, renew_owned_round}
use comb.Log.Plans.{prepared_alone, takeover_plan}
use comb.Tests.Instances.{chrono}
use comb.Tests.Logs.{log_json}
use comb.Tests.Stores.{name, writer, identity, request, commit_id, claimed, env, store, new_world}

abbrev stolen : RefValue chrono
stolen = record claimed {
  generation = 2;
  epoch = 2;
  lease = some (record { writer = str "v"; lease_until = 57 });
  updated_at = 7;
}

-- A takeover behind the theft, and a renewal behind that.
abbrev taken_over : RefValue chrono
taken_over = record stolen {
  generation = 3;
  epoch = 3;
  lease = some (record { writer = str "u"; lease_until = 38 });
  updated_at = 8;
}

abbrev at_last : RefValue chrono
at_last = record taken_over {
  lease = some (record { writer = str "u"; lease_until = 59 });
  updated_at = 9;
}

-- A backend whose ref reads as the last value.
abbrev fence_env : Env (Table chrono) ℕ
fence_env = record env { json = record env.json { ref_from_slice = λ text. some at_last } }

abbrev fence_store : Store fence_env
fence_store = record {
  backend = record store.backend { get_limited = λ key limit s. (ok ([], version_of 1), s) };
  tenant = store.tenant;
  key = store.key;
  cache_dir = store.cache_dir;
  policy = store.policy;
  layout = store.layout;
}

stolen_next : claim_next fence_env (str "v") 50 true claimed 2 7 ≡ ok stolen
unfolding claim_next comb.Store.Plans.claim_allowed comb.Core.Refs.lease_live
stolen_next = refl

abbrev takeover_ctx : PrepareCtx fence_env
takeover_ctx = record {
  snapshot = record { value = stolen; version = none };
  identity = identity;
  request = request;
  generation = 3;
  parent = none;
  skip = none;
  now = 8;
}

abbrev made : PreparedMutation fence_env ℕ
made =
    prepared_alone fence_env fence_store log_json taken_over [] none
      (log_json.takeover_change (str "u")) 3

takeover_made :
    (takeover_plan fence_env fence_store log_json name (str "u") 30).prepare takeover_ctx new_world
    ≡ (done made, new_world)
unfolding takeover_plan comb.Object.Step.continue comb.Log.Prepare.log_ref
    comb.Log.Payloads.taken_lease
takeover_made = refl

after_theft : Run fence_env fence_store log_json stolen at_last
unfolding renewed prepared_alone
after_theft =
    and_move
      (and_move no_move (
        by_takeover name (str "u") 30 takeover_ctx made new_world new_world refl takeover_made
          refl))
      (by_renewal (str "u") 9 50 refl)

abbrev snapshot_or : Outcome (HeadSnapshot chrono) → HeadSnapshot chrono
snapshot_or (done s) = s
snapshot_or (failed e) = record { value = claimed; version = none }

abbrev last_read : Outcome (HeadSnapshot chrono) × World (Table chrono) ℕ
last_read = existing_head fence_env fence_store name new_world

abbrev last_snapshot : HeadSnapshot chrono
last_snapshot = snapshot_or last_read.0

last_read_done : last_read ≡ (done last_snapshot, last_read.1)
unfolding existing_head comb.Publish.Head.read_head comb.Object.Step.continue comb.Prelude.Str.eqs
    comb.Core.Refs.validate_schema
last_read_done = refl

last_read_value : last_snapshot.value ≡ at_last
unfolding existing_head comb.Publish.Head.read_head comb.Object.Step.continue comb.Prelude.Str.eqs
    comb.Core.Refs.validate_schema
last_read_value = refl

claim-fences_example :
    (set_target_next fence_env commit_id (some 1) at_last 3 9 ≡ err (fenced 1 3))
    × (release_next fence_env 1 (some writer) at_last 3 9 ≡ err (fenced 1 3))
    × ((renew_round fence_env fence_store name 1 20 new_world).0 ≡ failed (core (fenced 1 3)))
    × ((renew_owned_round fence_env fence_store name writer 1 20 new_world).0
        ≡ failed (core (fenced 1 3)))
claim-fences_example =
    claim-fences fence_env fence_store log_json (str "v") 50 true claimed stolen at_last 2 7
      commit_id (some writer) 3 9 name writer 20 last_snapshot new_world last_read.1 stolen_next
      after_theft last_read_done last_read_value
