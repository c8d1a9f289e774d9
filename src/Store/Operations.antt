-- ===== src/Store/Operations.antt =====
-- crates/combctl/src/store.rs: the operations on refs, each of which publishes a plan or reads.
use mathlib.Core.Option
use comb.Prelude.{ℕ, Bool, Option, none, some, List, []}
use comb.Prelude.Str.{Str}
use comb.Core.Crates.{Chrono}
use comb.Core.Digest.{Digest}
use comb.Core.Refs.{RefValue}
use comb.Core.Commit.{HistoryEntry}
use comb.Core.Operation.Id.{OperationId, mint}
use comb.Core.Operation.Identity.{generic}
use comb.Object.Backend.{Version}
use comb.Object.Step.{Step, ◌>>=◌, ◌>>◌, pure, lift}
use comb.Store.Host.{Env, World, tick}
use comb.Store.Keys.{Store}
use comb.Store.Plans.{MutationResult, reject_log_namespace}
use comb.Store.Mutations.{set_target_plan, claim_plan, release_plan}
use comb.Publish.View.{Codec, Published}
use comb.Publish.Head.{read_head}
use comb.Publish.Seek.{history_chain}
use comb.Publish.Plan.{RefMutationPlan}
use comb.Publish.Engine.{publish}
use comb.Publish.Renew.{renew_lease}

pub record MutationOutcome (c : Chrono) : Type 0 where
  pub generation : ℕ
  pub epoch : ℕ
  pub commit : Digest
  pub value : RefValue c
  pub first_delivery : Bool

-- `MutationOutcome::from`.
unfoldable pub outcome_of : {c : Chrono} → Published c MutationResult → MutationOutcome c
outcome_of p = record {
  generation = p.generation;
  epoch = p.epoch;
  commit = p.commit;
  value = p.value;
  first_delivery = p.first_delivery;
}

module _ {S E : Type 0} (env : Env S E) (store : Store env)
    (codec : Codec env.json.Value MutationResult) where
  -- `mint_operation`.
  unfoldable pub mint_operation : Step (World S E) OperationId
  mint_operation = do
    entropy ← tick env.host.entropy
    now ← tick env.host.clock_now
    pure (mint env.chrono now entropy)

  -- `read_ref`.
  unfoldable pub read_ref : Str → Step (World S E) (Option (RefValue env.chrono × Version))
  read_ref name = do
    head ← read_head env store name
    elim head [
      | none ↦ pure none
      | some snapshot ↦
          pure (some (snapshot.value, Option.get_or snapshot.version (record { token = [] })))
    ]

  -- The `publish` of a plan by an operation, and `MutationOutcome` of what it gives.
  unfoldable pub run :
      RefMutationPlan env MutationResult
      → OperationId
      → Step (World S E) (MutationOutcome env.chrono)
  unfolding outcome_of
  run plan op = do published ← publish env store plan (generic op); pure (outcome_of published)

  -- `set_target_op`.
  unfoldable pub set_target_op :
      OperationId → Str → Digest → Option ℕ → Step (World S E) (MutationOutcome env.chrono)
  unfolding run
  set_target_op op name target fence = do
    lift (reject_log_namespace name)
    run (set_target_plan env store codec name target fence) op

  -- `set_target`.
  unfoldable pub set_target :
      Str → Digest → Option ℕ → Step (World S E) (MutationOutcome env.chrono)
  unfolding mint_operation set_target_op
  set_target name target fence = do op ← mint_operation; set_target_op op name target fence

  -- `claim`.
  unfoldable pub claim :
      OperationId → Str → Str → env.host.Secs → Bool → Step (World S E) (MutationOutcome env.chrono)
  unfolding run
  claim op name writer ttl steal = run (claim_plan env store codec name writer ttl steal) op

  -- `release`.
  unfoldable pub release : OperationId → Str → ℕ → Step (World S E) (MutationOutcome env.chrono)
  unfolding run
  release op name fence = run (release_plan env store codec name fence none) op

  -- `release_owned`.
  unfoldable pub release_owned :
      OperationId → Str → Str → ℕ → Step (World S E) (MutationOutcome env.chrono)
  unfolding run
  release_owned op name writer fence =
      run (release_plan env store codec name fence (some writer)) op

  -- `renew`.
  unfoldable pub renew : Str → ℕ → env.host.Secs → Step (World S E) (RefValue env.chrono)
  renew name fence ttl = renew_lease env store name fence ttl

  -- `history`.
  unfoldable pub history : Str → ℕ → Step (World S E) (List (HistoryEntry env.chrono))
  history name max = history_chain env store name max
