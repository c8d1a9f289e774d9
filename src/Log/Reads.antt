-- ===== src/Log/Reads.antt =====
-- crates/combctl/src/log.rs: read, and the operations that publish a takeover, a compaction or a trim.
pub mod Since
use comb.Prelude.{
  ℕ, ◌+◌, ◌%◌, ◌^◌, ◌&&◌, Option, none, some, List, [], ◌∷◌, ◌++◌, ltb, leb, if◌then◌else◌, length,
}
use comb.Prelude.Str.{Str, str, eqs}
use comb.Core.Digest.{Digest}
use comb.Core.Digest
use comb.Core.Error.{
  CoreError, Result, ok, err, recovery_failed, rejected, integrity_error, trimmed,
  stable_key_conflict, refuse_if, ok_or,
}
use comb.Core.Crates.{Chrono}
use comb.Core.Refs.{RefValue}
use comb.Core.Operation.Id.{OperationId}
use comb.Core.Operation.Identity.{generic, stable}
use comb.Core.Operation.Stable.{StableKey}
use comb.Core.Operation.Material.{payload_hash}
use comb.Object.Backend.{saturating_suc}
use comb.Object.Step.{
  AnyError, core, other, Outcome, done, failed, Step, ◌>>=◌, ◌>>◌, pure, lift, fail, map_err,
}
use comb.Store.Host.{Env, World}
use comb.Store.Keys.{Store, same_digest}
use comb.Store.Blobs.{get_blob}
use comb.Index.Node.{
  StableIndexRoot, StableIndexEntry, IndexHead, validate_root, check_root_against_head,
}
use comb.Index.Walk.{Lookup, found, absent, lookup}
use comb.Index.Stored.{node_store}
use comb.Publish.View.{Published}
use comb.Publish.Head.{HeadSnapshot, read_head, head_or_empty}
use comb.Publish.Attempt.{CasResult, committed, conflicted, commit_at_snapshot}
use comb.Publish.Engine.{publish, recover_completed}
use comb.Log.Model.{
  FeedMode, trimmable_feed, complete_feed, ChunkRef, LogManifest, Frame, AppendRange, Appended,
  StableAppendReceipt, LogHead, DomainState, StableItem, LogJson, is_complete, is_complete_feed,
  empty_domain, domain_of, retention_of,
}
use comb.Log.Payloads.{check_payloads, is_retryable}
use comb.Log.Chunks.{serde, sort_frames}
use comb.Log.Domain.{check_manifest}
use comb.Log.Events.{Manifest}
use comb.Log.Plans.{append_plan, stable_append_plan, takeover_plan}
use comb.Log.Compact.{compact_plan, trim_plan}
use mathlib.Core.Option
use comb.Log.Operations.{LogStore, load_domain, status}

-- The frames of a body from a sequence number on, above the trim floor.
unfoldable pub keep_frames : {c : Chrono} → ℕ → ℕ → List (Frame c) → List (Frame c)
keep_frames from floor [] = []
keep_frames from floor (f ∷ rest) =
    let more = keep_frames from floor rest in
    if leb from f.seq && ltb floor f.seq then f ∷ more else more

module _ {S E : Type 0} (env : Env S E) (store : Store env)
    (json : LogJson env.chrono env.json.Value) (log : LogStore) where
  -- The frames of the chunks that reach the sequence number.
  unfoldable pub collect :
      ℕ → ℕ → List (ChunkRef env.chrono) → Step (World S E) (List (Frame env.chrono))
  unfolding serde keep_frames
  collect from floor [] = pure []
  collect from floor (chunk ∷ rest) =
      let more = collect from floor rest in
      if ltb chunk.last from then more else (do
        got ← get_blob env store chunk.digest
        body ← serde (json.body_from_slice got.0)
        behind ← more
        pure (keep_frames from floor body.frames ++ behind))

  -- `read`; the floor is a `u64`.
  unfoldable pub read : ℕ → Step (World S E) (List (Frame env.chrono))
  unfolding collect sort_frames status
  read from = do
    now ← status env store json log
    elim now [
      | none ↦ pure []
      | some (value, m) ↦ do
        lift (
            refuse_if (ltb 0 m.trim_before_seq && leb from m.trim_before_seq)
              (trimmed ((m.trim_before_seq + 1) % 2 ^ 64)))
        frames ← collect from m.trim_before_seq (m.segments ++ m.chunks)
        pure (sort_frames frames)
    ]

  -- `steal`.
  unfoldable pub steal : OperationId → Str → env.host.Secs → Step (World S E) ℕ
  unfolding takeover_plan
  steal op writer lease_secs = do
    published ←
        publish env store (takeover_plan env store json log.name writer lease_secs) (generic op)
    pure published.epoch

  -- `compact`.
  unfoldable pub compact : OperationId → Step (World S E) ℕ
  unfolding compact_plan load_domain
  compact op = do
    head ← read_head env store log.name
    elim head [
      | none ↦ pure 0
      | some snapshot ↦ do
        domain ← load_domain env store json log snapshot.value
        (if ltb (length domain.chunks) 2
            then (do
              recovered ←
                  recover_completed env store (compact_plan env store json log.name log.feed)
                    (generic op)
              pure (elim recovered [ none ↦ 0 | some p ↦ p.outcome ]))
            else (do
              published ←
                  publish env store (compact_plan env store json log.name log.feed) (generic op)
              pure published.outcome))
    ]

  -- `trim_before`.
  unfoldable pub trim_before : OperationId → ℕ → Step (World S E) ℕ
  unfolding trim_plan
  trim_before op seq = do
    lift (
        refuse_if (is_complete_feed log.feed)
          (rejected "complete-feed mode rejects trim; stable-key evidence would be weakened"))
    published ← publish env store (trim_plan env store json log.name seq) (generic op)
    pure published.outcome
