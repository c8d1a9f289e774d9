-- ===== src/Log/Operations.antt =====
-- crates/combctl/src/log.rs: LogStore, its appends and what they read.
use comb.Prelude.{
  ℕ, zero, suc, not, ◌&&◌, Option, none, some, List, [], ◌∷◌, ◌++◌, ◌==◌, if◌then◌else◌, length,
}
use comb.Prelude.Str.{Str, str}
use comb.Core.Digest.{Digest}
use comb.Core.Digest
use comb.Core.Error.{
  recovery_failed, rejected, integrity_error, stable_key_conflict, refuse_if, ok_or,
}
use comb.Core.Refs.{RefValue}
use comb.Core.Operation.Id.{OperationId}
use comb.Core.Operation.Identity.{generic, stable}
use comb.Core.Operation.Stable.{StableKey}
use comb.Core.Operation.Material.{payload_hash}
use comb.Object.Backend.{saturating_suc}
use comb.Object.Step.{
  core, other, Outcome, done, failed, Step, ◌>>=◌, ◌>>◌, pure, lift, fail, map_err,
}
use comb.Store.Host.{Env, World}
use comb.Store.Keys.{Store, same_digest}
use comb.Store.Blobs.{get_blob}
use comb.Index.Node.{StableIndexRoot, IndexHead, validate_root, check_root_against_head}
use comb.Index.Walk.{Lookup, found, absent, lookup}
use comb.Index.Stored.{node_store}
use comb.Publish.View.{Published}
use comb.Publish.Head.{HeadSnapshot, read_head, head_or_empty}
use comb.Publish.Attempt.{CasResult, committed, conflicted, commit_at_snapshot}
use comb.Publish.Engine.{publish}
use comb.Log.Model.{
  FeedMode, trimmable_feed, complete_feed, Appended, StableAppendReceipt, LogHead, DomainState,
  StableItem, LogJson, is_complete, is_complete_feed, empty_domain, domain_of, retention_of,
}
use comb.Log.Payloads.{check_payloads, is_retryable}
use comb.Log.Domain.{check_manifest}
use comb.Log.Events.{Manifest}
use comb.Log.Plans.{append_plan, stable_append_plan}

-- `LogStore`, whose store is an argument.
pub record LogStore : Type 0 where
  pub name : Str
  pub logical : Str
  pub feed : FeedMode

-- `log/{name}/p0`.
abbrev pub resource_of : Str → Str
resource_of name = str "log/" ++ name ++ str "/p0"

-- `LogStore::new`.
unfoldable pub new_log : Str → LogStore
new_log name = record { name = resource_of name; logical = name; feed = trimmable_feed }

-- `LogStore::complete_feed`.
unfoldable pub new_complete_log : Str → LogStore
new_complete_log name = record { name = resource_of name; logical = name; feed = complete_feed }

-- What a call answered, its error as a value.
unfoldable pub caught : {W T : Type 0} → Step W T → Step W (Outcome T)
caught call w = let (o, after) = call w in (done o, after)

module _ {S E : Type 0} (env : Env S E) (store : Store env)
    (json : LogJson env.chrono env.json.Value) (log : LogStore) where
  -- `load_manifest`.
  unfoldable pub load_manifest : RefValue env.chrono → Step (World S E) (Manifest env store json)
  unfolding check_manifest
  load_manifest value = elim value.target [
    | none ↦ fail (other "log {} has no manifest")
    | some d ↦ do
      got ←
          map_err (λ _. core (recovery_failed "manifest {digest} unreadable: {e:#}"))
            (get_blob env store d)
      m ← lift (ok_or (json.manifest_from_slice got.0) (recovery_failed "manifest {digest}: {e}"))
      lift (check_manifest env log.name m)
      pure m
  ]

  -- `load_domain`.
  unfoldable pub load_domain : RefValue env.chrono → Step (World S E) (DomainState env.chrono)
  unfolding load_manifest
  load_domain value = elim value.target [
    | none ↦ pure (empty_domain (retention_of log.feed) value.epoch)
    | some d ↦ do
      m ← load_manifest value
      lift (
          refuse_if (is_complete m.retention && not (is_complete_feed log.feed))
            (rejected "refusing to open a complete feed as trimmable"))
      pure (domain_of m)
  ]

  -- The head of the index at a snapshot.
  abbrev pub head_of : HeadSnapshot env.chrono → DomainState env.chrono → IndexHead
  head_of snapshot domain = record {
    generation = snapshot.value.generation;
    head_seq = domain.head_seq;
  }

  -- `index_from_snapshot`.
  unfoldable pub index_from_snapshot : HeadSnapshot env.chrono → Step (World S E) StableIndexRoot
  unfolding load_domain
  index_from_snapshot snapshot = do
    domain ← load_domain snapshot.value
    elim domain.stable_index [
      | none ↦ fail (core (integrity_error "complete feed is missing its stable-key index"))
      | some root ↦ do
        lift (validate_root root)
        lift (check_root_against_head root (head_of snapshot domain))
        pure root
    ]

  -- `status`.
  unfoldable pub status : Step (World S E) (Option (RefValue env.chrono × Manifest env store json))
  unfolding load_manifest
  status = do
    head ← read_head env store log.name
    elim head [
      | none ↦ pure none
      | some snapshot ↦ do m ← load_manifest snapshot.value; pure (some (snapshot.value, m))
    ]

  -- `head`; `saturating_add(1).max(1)`.
  unfoldable pub head : Step (World S E) LogHead
  unfolding status
  head = do
    now ← status
    elim now [
      | none ↦ pure (record { head_seq = 0; next_seq = 1; epoch = 0; generation = 0 })
      | some (value, m) ↦ pure (record {
        head_seq = m.head_seq;
        next_seq = saturating_suc m.head_seq;
        epoch = value.epoch;
        generation = value.generation;
      })
    ]

  -- `append`.
  unfoldable pub append :
      OperationId → Str → List (List ℕ) → env.host.Secs → Step (World S E) Appended
  unfolding append_plan
  append op writer payloads lease_secs = do
    lift (check_payloads payloads)
    published ←
        publish env store
          (append_plan env store json log.name log.logical writer lease_secs payloads log.feed)
          (generic op)
    pure (record {
      first = published.outcome.first;
      last = published.outcome.last;
      generation = published.generation;
      first_delivery = published.first_delivery;
    })

  -- What the index of the snapshot knows of the key.
  unfoldable pub look_up : StableKey → HeadSnapshot env.chrono → Step (World S E) Lookup
  unfolding index_from_snapshot load_domain
  look_up key snapshot = elim snapshot.value.target [
    | none ↦ pure absent
    | some d ↦ do
      index ← index_from_snapshot snapshot
      domain ← load_domain snapshot.value
      lookup env.hex env.blake3 (node_store env store json.nodes) log.logical index key
          (head_of snapshot domain)
  ]

  -- The end of a round on the snapshot: no value is another round.
  unfoldable pub settle :
      Outcome (CasResult (Published env.chrono StableAppendReceipt))
      → Step (World S E) (Option StableAppendReceipt)
  unfolding is_retryable
  settle (done (committed p)) = pure (some p.outcome)
  settle (done conflicted) = pure none
  settle (failed e) = if is_retryable e then pure none else fail e

  -- A round on what the index knows.
  unfoldable pub stable_step :
      Str
      → env.host.Secs
      → StableItem
      → HeadSnapshot env.chrono
      → Lookup
      → Step (World S E) (Option StableAppendReceipt)
  unfolding settle caught stable_append_plan
  stable_step writer lease_secs item snapshot (found e) =
      if same_digest e.payload_hash item.payload_hash
      then pure (
          some (record {
            payload_hash = item.payload_hash;
            range = record { first = e.first; last = e.last };
            generation = e.generation;
          }))
      else fail (
          core (
            stable_key_conflict (Digest.to_string e.payload_hash)
              (Digest.to_string item.payload_hash)))
  stable_step writer lease_secs item snapshot absent = do
    answer ← caught (
        commit_at_snapshot env store
          (stable_append_plan env store json log.name log.logical writer lease_secs item)
          (stable item.key) snapshot)
    settle answer

  -- The loop, with the rounds that are left.
  unfoldable pub stable_loop :
      ℕ → Str → env.host.Secs → StableItem → Step (World S E) StableAppendReceipt
  unfolding stable_step look_up
  stable_loop zero writer lease_secs item = fail (other "stable append did not converge")
  stable_loop (suc left) writer lease_secs item = do
    snapshot ← head_or_empty env store log.name
    known ← look_up item.key snapshot
    answer ← stable_step writer lease_secs item snapshot known
    elim answer [ some receipt ↦ pure receipt | none ↦ stable_loop left writer lease_secs item ]

  -- `append_stable`.
  unfoldable pub append_stable :
      StableKey → Str → List ℕ → env.host.Secs → Step (World S E) StableAppendReceipt
  unfolding stable_loop
  append_stable key writer payload lease_secs = do
    lift (
        refuse_if (not (is_complete_feed log.feed))
          (rejected "stable append requires a retained complete feed"))
    lift (refuse_if (length payload == 0) (rejected "empty append"))
    lift (check_payloads (payload ∷ []))
    stable_loop 128 writer lease_secs (record {
      key = key;
      payload = payload;
      payload_hash = payload_hash env.hex env.blake3 store.key payload;
    })
