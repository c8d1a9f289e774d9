-- ===== src/Lib.antt =====
-- Comb: a verification library of the Comb object store.
--
-- The program stores immutable, digest-addressed envelopes and mutable named refs in an object store.
-- crates/comb-core holds the data: digests, operation identities, commits and the envelope format.
-- crates/comb-object holds the object backends: a trait, an in-memory table, and wrappers that inject
-- failures or count calls. crates/combctl builds stores, indexes, publications, logs and the bridge on both.
--
-- Which file models which part:
--   Core.Error         crates/comb-core/src/error.rs: CoreError, Result
--   Core.Crates        the interfaces of the crates hex, blake3 and chrono, and what is assumed of them
--   Core.Digest        crates/comb-core/src/digest.rs: DigestKey (key_from_hex, key_to_hex, digest) and
--                      Digest (parse, to_string, raw, key_prefix)
--   Core.Refs          crates/comb-core/src/refs.rs: RefValue, Lease, RefJournalEntry
--   Core.Operation     crates/comb-core/src/operation.rs: Crockford (crockford_encode and _decode), Id
--                      (OperationId, OperationPolicy), Stable (StableKey), Identity (OpIdentity),
--                      Material (Material::hash, domain_hash and the hashes of stable keys)
--   Core.Commit        crates/comb-core/src/commit.rs: headers, intents, skip_distance
--   Core.Envelope      crates/comb-core/src/envelope.rs: encode, decode; Bounded: decode_limited and
--                      inspect_limited
--   Object.Backend     crates/comb-object/src/backend.rs: ObjectBackend and read_sync_limited
--   Object.Memory      crates/comb-object/src/memory.rs: MemoryBackend
--   Object.Fault       crates/comb-object/src/fault.rs: FaultBackend
--   Object.Failpoint   crates/comb-object/src/failpoint.rs: FailpointBackend, CountingBackend
--   Object.Step        a call on a store: its state, and anyhow's errors
--   Index.Node         crates/combctl/src/hamt.rs: nodes, children, nibbles and the checks on them
--   Index.Check        crates/combctl/src/hamt.rs: the checks of load_node
--   Index.Walk         crates/combctl/src/hamt.rs: load_node, put_node, lookup, over a NodeStore, which
--                      is what the index asks of crates/combctl/src/store.rs and of serde_json
--   Index.Insert       crates/combctl/src/hamt.rs: insert, insert_at and split
--   Index.Stored       crates/combctl/src/hamt.rs on crates/combctl/src/store.rs: the NodeStore of a store
--   Store.Host         the clocks, the file system, tokio and serde_json, as crates/combctl uses them
--   Store.Keys         crates/combctl/src/store.rs and publish.rs: Store, KeyLayout and the keys
--   Store.Blobs        crates/combctl/src/store.rs: put_blob, put_object, get_blob, get_blob_limited
--                      and the cache on disk
--   Store.Plans        crates/combctl/src/store.rs: what set-target, claim and release make of a ref
--   Store.Mutations    crates/combctl/src/store.rs: SetTargetPlan, ClaimPlan, ReleasePlan
--   Store.Operations   crates/combctl/src/store.rs: set_target, claim, release, read_ref and the others
--   Publish.View       crates/combctl/src/publish.rs: commit views, load_commit_view's checks,
--                      published_from_view
--   Publish.Head       crates/combctl/src/publish.rs: read_head, empty_head, reject_v1
--   Publish.Seek       crates/combctl/src/publish.rs: seek_generation, compute_skip, history_chain,
--                      recover_without_intent
--   Publish.Plan       crates/combctl/src/publish.rs: RefMutationPlan, PreparedMutation, lease guards
--   Publish.Intent     crates/combctl/src/publish.rs: load_intent, finalize_intent,
--                      try_cached_applied, resolve_pending
--   Publish.Attempt    crates/combctl/src/publish.rs: attempt, sync_companions, commit_at_snapshot
--   Publish.Engine     crates/combctl/src/publish.rs: publish, recover_completed, ensure_pending_intent
--   Publish.Renew      crates/combctl/src/publish.rs: renew_lease, renew_owned_lease
--   Catalog.Node       crates/combctl/src/catalog.rs: refs, children, nodes, roots, their checks and spans
--   Catalog.Objects    crates/combctl/src/catalog.rs: put_node, load_node
--   Catalog.Append     crates/combctl/src/catalog.rs: append, append_at
--   Catalog.Seek       crates/combctl/src/catalog.rs: seek_leaf, walk_right_spine_digests
--   Catalog.Stored     crates/combctl/src/catalog.rs on crates/combctl/src/store.rs: what a node put or
--                      loaded is
--   Catalog.Tree       the list of chunks that a catalog stands for
--   Log.Model          crates/combctl/src/log.rs: manifests, chunks, frames, receipts, DomainState
--   Log.Payloads       crates/combctl/src/log.rs: check_payloads, is_retryable, next_writer
--   Log.Chunks         crates/combctl/src/log.rs: build_chunk, and frames in order
--   Log.Domain         crates/combctl/src/log.rs: the checks on a manifest
--   Log.Events         crates/combctl/src/log.rs: prepare_events, its reads and its two loops
--   Log.Prepare        crates/combctl/src/log.rs: prepare_events, put together
--   Log.Plans          crates/combctl/src/log.rs: AppendPlan, GroupPlan, StableAppendPlan, TakeoverPlan
--   Log.Compact        crates/combctl/src/log.rs: CompactPlan, TrimPlan
--   Log.Operations     crates/combctl/src/log.rs: LogStore, append, append_stable, status, head
--   Log.Reads          crates/combctl/src/log.rs: read, steal, compact, trim_before
--   Log.Group          crates/combctl/src/log.rs: commit_group, which publishes a batch of submissions
--   Prelude            shared helpers: Boolean tests, lists, bits, decimals and text
--   Tests              concrete instances of the interfaces, and runs of the theorems on them
--
-- How the code is read. Text is the list of its scalar values, and `bytes` its UTF-8; a byte is a
-- number below 256. Machine integers are natural numbers with the wrap of each operation written out;
-- `|` of disjoint bits is `+`, a mask of low bits is `%`. A call that changes state returns its result
-- and the state after it. `Utc::now()`, entropy, and random rolls are arguments or are drawn from a
-- state that is passed along. An error message built by `format!` is kept as its template. What a
-- third-party crate does is a record of operations, with a second record of the laws that the theorems
-- use; serde_json is a parameter in the same way. In Store and Publish a call runs in a world, the state
-- of the backend and that of the host; an `await` is a call that runs to its end, and tokio's `select!`
-- of a token, a sleep and a future is a parameter that answers whether the future came first. A write
-- whose failure the code ignores (the cache, `let _ = ..`) passes its state on and nothing else. A
-- panic of `uploaded[idx]` out of range is a failure.
--
-- Bounds and fuel. The inner loops of the Crockford code take `nbits` pending rounds as fuel, and each
-- round takes at least five bits away. A walk in the index takes 53 rounds, one for each depth that
-- the code admits, and runs out of fuel only where the code's own depth guard has answered. A walk in
-- the catalog takes the nine levels of the code, and a stable append its 128 rounds. The
-- loops of the publication engine are bounded in the code (128 attempts, 10000 hops, 16 renewals, the
-- length of a history): those bounds are the fuel, and running out is the error of the code. Lengths
-- that the code writes in 32 or 64 bits carry their bound as a hypothesis.
--
-- Not modelled: serde glue, Debug output, the local and S3 backends, the conformance suite, of
-- crates/combctl/src/log.rs `follow` (a loop that polls for ever) and the task of GroupWriter (a channel
-- and a deadline), and the rest of crates/combctl (feeds, bridge, sweep, command line), whose code is
-- I/O around the parts above or is left to later work.
pub mod Prelude
pub mod Core
pub mod Object
pub mod Index
pub mod Store
pub mod Publish
pub mod Catalog
pub mod Log
mod Tests
