-- ===== src/Log/Compact.antt =====
-- crates/combctl/src/log.rs: the plans of compactions and trims, which change the manifest alone.
pub mod Merges
pub mod Trims
use comb.Prelude.{ℕ, ◌%◌, ◌^◌, none, some, List, [], ◌∷◌, ◌++◌, ltb, leb, if◌then◌else◌, length}
use comb.Prelude.Str.{Str, str, bytes}
use comb.Core.Error.{recovery_failed, rejected, refuse_if, ok_or}
use comb.Core.Digest.{digest}
use comb.Core.Refs.{RefValue, Lease}
use comb.Core.Operation.Stable.{StableKey}
use comb.Core.Operation.Material.{Material, put_u64}
use comb.Core.Envelope.{blob}
use comb.Object.Step.{core, other, Step, ◌>>=◌, ◌>>◌, pure, lift, fail, map_err}
use comb.Store.Host.{Env, World}
use comb.Store.Keys.{Store}
use comb.Store.Blobs.{get_blob}
use comb.Publish.Attempt.{last}
use comb.Publish.Plan.{Upload, PreparedMutation, PrepareCtx, RefMutationPlan, header}
use comb.Log.Model.{
  RetentionMode, complete, FeedMode, complete_feed, ChunkRef, LogManifest, Frame, ChunkBody,
  AppendRange, StableAppendReceipt, GenericItem, StableItem, LogJson, is_complete, is_complete_feed,
  manifest_schema, chunk_schema,
}
use comb.Log.Payloads.{taken_lease}
use comb.Log.Chunks.{serde, sort_frames}
use comb.Log.Events.{Manifest, read_manifest}
use comb.Log.Prepare.{log_ref, log_state}
use comb.Log.Plans.{prepared_alone}
use comb.Core.Digest.{Digest}

module _ {S E : Type 0} (env : Env S E) (store : Store env)
    (json : LogJson env.chrono env.json.Value) where
  -- The manifest that a plan changes.
  unfoldable pub existing_manifest :
      RefValue env.chrono → Step (World S E) (Manifest env store json)
  unfolding read_manifest
  existing_manifest current = do
    found ← read_manifest env store json current
    elim found [ none ↦ fail (other "log {} does not exist") | some m ↦ pure m ]

  -- The frames of the chunks, in their order.
  unfoldable pub load_frames :
      List (ChunkRef env.chrono) → Step (World S E) (List (Frame env.chrono))
  unfolding serde
  load_frames [] = pure []
  load_frames (chunk ∷ rest) = do
    found ←
        map_err (λ _. core (recovery_failed "compact chunk {}: {e:#}"))
          (get_blob env store chunk.digest)
    body ← serde (json.body_from_slice found.0)
    more ← load_frames rest
    pure (body.frames ++ more)

  unfoldable pub last_frame : Frame env.chrono → List (Frame env.chrono) → Frame env.chrono
  last_frame f [] = f
  last_frame f (g ∷ rest) = last_frame g rest

  -- `first().unwrap()` and `last().unwrap()` of the sorted frames.
  unfoldable pub frame_ends :
      List (Frame env.chrono) → Step (World S E) (Frame env.chrono × Frame env.chrono)
  unfolding last_frame
  frame_ends [] = fail (other "called `Option::unwrap()` on a `None` value")
  frame_ends (f ∷ rest) = pure (f, last_frame f rest)

  -- The segment of the text, from the first to the last of its frames.
  abbrev pub segment_of :
      List ℕ → Frame env.chrono × Frame env.chrono → env.chrono.Time → ChunkRef env.chrono
  segment_of text ends now = record {
    digest = digest env.hex env.blake3 store.key text;
    first = ends.0.seq;
    last = ends.1.seq;
    bytes = length text % 2 ^ 64;
    at = now;
  }

  -- The manifest after a compaction, whose chunks are one segment.
  unfoldable pub compacted :
      PrepareCtx env
      → Manifest env store json
      → FeedMode
      → ChunkRef env.chrono
      → env.json.Value
      → RefValue env.chrono
      → Manifest env store json
  compacted ctx m feed segment result next = record m {
    header = header env ctx ctx.snapshot.value.epoch;
    chunks = [];
    segments = m.segments ++ segment ∷ [];
    admitted = [];
    retention = if is_complete_feed feed then complete else m.retention;
    stable_admissions = [];
    result = result;
    ref_state = some (log_state env store json next);
  }

  -- The segment of the frames that were loaded, and the manifest with it.
  unfoldable pub merge_loaded :
      FeedMode
      → PrepareCtx env
      → Manifest env store json
      → List (Frame env.chrono)
      → Step (World S E) (PreparedMutation env ℕ)
  unfolding frame_ends compacted log_ref log_state prepared_alone
  merge_loaded feed ctx m loaded = do
    let frames = sort_frames loaded
    ends ← frame_ends frames
    text ← serde (json.body_to_vec (record { schema = chunk_schema; frames = frames }))
    let segment = segment_of text ends ctx.now
    result ← serde (json.number_codec.to_value (length m.chunks))
    let next = log_ref env store json ctx ctx.snapshot.value.epoch ctx.snapshot.value.lease
    manifest ← serde (json.manifest_to_vec (compacted ctx m feed segment result next))
    pure (
        prepared_alone env store json next
          (record { kind = blob; schema = chunk_schema; payload = text }
            ∷ record { kind = blob; schema = manifest_schema; payload = manifest }
            ∷ [])
          (some 1) (json.compact_change (length m.chunks)) (length m.chunks))

  -- `prepare` of a `CompactPlan`.
  unfoldable pub prepare_compact :
      FeedMode → PrepareCtx env → Step (World S E) (PreparedMutation env ℕ)
  unfolding read_manifest load_frames merge_loaded
  prepare_compact feed ctx = do
    found ← read_manifest env store json ctx.snapshot.value
    m ← elim found [ none ↦ fail (other "nothing to compact") | some m ↦ pure m ]
    (if ltb (length m.chunks) 2 then fail (other "nothing to compact") else pure tt)
    loaded ← load_frames m.chunks
    merge_loaded feed ctx m loaded

  -- `CompactPlan`.
  unfoldable pub compact_plan : Str → FeedMode → RefMutationPlan env ℕ
  unfolding prepare_compact
  compact_plan resource feed = record {
    codec = json.number_codec;
    resource = resource;
    material = record { kind = str "compact"; preconditions = []; payload = [] };
    plan_lease = none;
    prepare = prepare_compact feed;
  }

  -- The floor after a trim: no further than the head, and never back.
  unfoldable pub trim_floor : ℕ → Manifest env store json → ℕ
  trim_floor before m =
      let floor = if leb before m.head_seq then before else m.head_seq in
      if leb floor m.trim_before_seq then m.trim_before_seq else floor

  -- The manifest after a trim.
  unfoldable pub trimmed_to :
      PrepareCtx env
      → Manifest env store json
      → ℕ
      → env.json.Value
      → RefValue env.chrono
      → Manifest env store json
  trimmed_to ctx m floor result next = record m {
    header = header env ctx ctx.snapshot.value.epoch;
    trim_before_seq = floor;
    admitted = [];
    result = result;
    ref_state = some (log_state env store json next);
  }

  -- `prepare` of a `TrimPlan`.
  unfoldable pub prepare_trim : ℕ → PrepareCtx env → Step (World S E) (PreparedMutation env ℕ)
  unfolding existing_manifest trim_floor trimmed_to log_ref log_state prepared_alone
  prepare_trim before ctx = do
    m ← existing_manifest ctx.snapshot.value
    lift (refuse_if (is_complete m.retention) (rejected "complete-feed mode rejects trim"))
    let floor = trim_floor before m
    result ← serde (json.number_codec.to_value floor)
    let next = log_ref env store json ctx ctx.snapshot.value.epoch ctx.snapshot.value.lease
    text ← serde (json.manifest_to_vec (trimmed_to ctx m floor result next))
    pure (
        prepared_alone env store json next
          (record { kind = blob; schema = manifest_schema; payload = text } ∷ []) (some 0)
          (json.trim_change floor) floor)

  -- `TrimPlan`.
  unfoldable pub trim_plan : Str → ℕ → RefMutationPlan env ℕ
  unfolding prepare_trim
  trim_plan resource before = record {
    codec = json.number_codec;
    resource = resource;
    material = record {
      kind = str "trim";
      preconditions = (str "before", put_u64 [] before) ∷ [];
      payload = [];
    };
    plan_lease = none;
    prepare = prepare_trim before;
  }
