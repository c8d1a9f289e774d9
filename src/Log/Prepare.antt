-- ===== src/Log/Prepare.antt =====
-- crates/combctl/src/log.rs: prepare_events, from the items to the manifest and its uploads.
pub mod Extends
pub mod Gathers
pub mod Tiled
use comb.Prelude.{
  ℕ, ◌+◌, Bool, not, ◌||◌, Option, none, some, List, [], ◌∷◌, ◌++◌, ltb, ◌==◌, if◌then◌else◌,
  length,
}
use comb.Prelude.Str.{Str}
use comb.Core.Error.{rejected, refuse_if}
use comb.Core.Refs.{RefValue, Lease}
use comb.Core.Envelope.{blob}
use comb.Object.Step.{other, Step, ◌>>=◌, ◌>>◌, pure, lift, fail}
use comb.Store.Host.{Env, World}
use comb.Store.Keys.{Store}
use comb.Index.Node.{StableIndexRoot}
use comb.Index.Walk.{empty_root, admissions_size}
use comb.Index.Stored.{node_store}
use comb.Publish.Plan.{Upload, PreparedMutation, PrepareCtx, header}
use comb.Log.Model.{
  RetentionMode, complete, FeedMode, ChunkRef, LogManifest, AppendRange, DomainState, GenericItem,
  StableItem, LogJson, is_complete, is_complete_feed, manifest_schema, chunk_schema, max_admissions,
}
use comb.Log.Payloads.{next_writer}
use comb.Log.Chunks.{serde, build_chunk}
use comb.Log.Events.{
  Manifest, Gathered, events_domain, kept_retention, check_index, next_seq, admit_generics,
  admit_stables,
}

module _ {S E : Type 0} (env : Env S E) (store : Store env)
    (json : LogJson env.chrono env.json.Value) where
  -- `keep_index`.
  unfoldable pub keep_index : FeedMode → RetentionMode → List StableItem → Bool
  keep_index feed retention stables =
      is_complete_feed feed || is_complete retention || not (length stables == 0)

  -- The index that the stable items go into.
  unfoldable pub start_index :
      Str → Bool → Option StableIndexRoot → Step (World S E) (Option StableIndexRoot)
  start_index logical keep index =
      if keep
      then elim index [
        | some r ↦ pure (some r)
        | none ↦ do
          r ← empty_root env.hex env.blake3 (node_store env store json.nodes) logical
          pure (some r)
      ]
      else pure none

  -- All items, after the head of the log.
  unfoldable pub gather :
      Str
      → ℕ
      → Bool
      → DomainState env.chrono
      → List GenericItem
      → List StableItem
      → Step (World S E) (Gathered env store json)
  unfolding start_index
  gather logical generation keep domain generics stables = do
    admitted ← admit_generics env store json generics (record {
      seq = domain.head_seq;
      payloads = [];
      admitted = [];
      companions = [];
      leader = none;
      index = none;
      stable_admissions = [];
    })
    index ← start_index logical keep domain.stable_index
    admit_stables env store json logical generation stables (record admitted { index = index })

  -- The caps on what one publication admits.
  unfoldable pub check_gathered : Str → Gathered env store json → Step (World S E) (Unit {0})
  check_gathered logical g = do
    lift (
        refuse_if (ltb max_admissions (length g.admitted + length g.stable_admissions))
          (rejected "admission cap exceeded"))
    λ w. (
      admissions_size env.hex env.blake3 (node_store env store json.nodes) logical
          g.stable_admissions,
      w,
    )
    lift (refuse_if (length g.payloads == 0) (rejected "empty append"))

  -- The ref after a change of a log.
  unfoldable pub log_ref : PrepareCtx env → ℕ → Option (Lease env.chrono) → RefValue env.chrono
  log_ref ctx epoch lease = record ctx.snapshot.value {
    generation = ctx.generation;
    epoch = epoch;
    lease = lease;
    updated_at = ctx.now;
  }

  -- The ref as it stands in its own manifest.
  unfoldable pub log_state : RefValue env.chrono → RefValue env.chrono
  log_state next = record next { head_commit = none; target = none }

  -- The manifest after an append.
  unfoldable pub append_manifest :
      PrepareCtx env
      → ℕ
      → RefValue env.chrono
      → DomainState env.chrono
      → RetentionMode
      → Gathered env store json
      → ChunkRef env.chrono
      → env.json.Value
      → Manifest env store json
  append_manifest ctx epoch next domain retention g chunk result = record {
    schema = manifest_schema;
    header = header env ctx epoch;
    log = ctx.snapshot.value.name;
    epoch = epoch;
    head_seq = chunk.last;
    chunks = domain.chunks ++ chunk ∷ [];
    segments = domain.segments;
    trim_before_seq = domain.trim_before_seq;
    admitted = g.admitted;
    retention = retention;
    stable_index = g.index;
    stable_admissions = g.stable_admissions;
    result = result;
    ref_state = some (log_state next);
  }

  -- What is prepared once the manifest is written.
  unfoldable pub append_prepared :
      RefValue env.chrono
      → List ℕ
      → List ℕ
      → AppendRange
      → Gathered env store json
      → PreparedMutation env AppendRange
  append_prepared next body text range g = record {
    next = next;
    uploads =
        record { kind = blob; schema = chunk_schema; payload = body }
        ∷ record { kind = blob; schema = manifest_schema; payload = text }
        ∷ [];
    commit_upload = some 1;
    change = json.append_change range;
    outcome = range;
    admitted = g.admitted;
    companions = g.companions;
    live_lease = none;
  }

  -- The part of `prepare_events` behind the loops.
  unfoldable pub prepare_gathered :
      PrepareCtx env
      → Str
      → ℕ
      → Lease env.chrono
      → DomainState env.chrono
      → RetentionMode
      → Gathered env store json
      → Step (World S E) (PreparedMutation env AppendRange)
  unfolding check_gathered append_manifest log_ref log_state serde next_seq append_prepared
  prepare_gathered ctx logical epoch lease domain retention g = do
    check_gathered logical g
    first_event ← next_seq env store json domain.head_seq 1
    built ← build_chunk env store json first_event g.payloads ctx.now
    range ← elim g.leader [
      | none ↦ fail (other "called `Option::unwrap()` on a `None` value")
      | some r ↦ pure r
    ]
    result ← serde (json.range_codec.to_value range)
    let next = log_ref ctx epoch (some lease)
    text ←
        serde
          (json.manifest_to_vec (append_manifest ctx epoch next domain retention g built.0 result))
    pure (append_prepared next built.1 text range g)

  -- `prepare_events`.
  unfoldable pub prepare_events :
      PrepareCtx env
      → Str
      → Str
      → env.host.Secs
      → FeedMode
      → List GenericItem
      → List StableItem
      → Bool
      → Step (World S E) (PreparedMutation env AppendRange)
  unfolding gather keep_index events_domain check_index kept_retention prepare_gathered
  prepare_events ctx logical writer lease_secs feed generics stables steal = do
    taken ← lift (next_writer env ctx.snapshot.value writer ctx.now lease_secs steal)
    domain ← events_domain env store json feed taken.0 ctx.snapshot.value
    let retention = kept_retention env store json feed domain.retention
    check_index env store json retention ctx.snapshot.value domain
    let keep = keep_index feed retention stables
    g ← gather logical ctx.generation keep domain generics stables
    prepare_gathered ctx logical taken.0 taken.1 domain (if keep then complete else retention) g
