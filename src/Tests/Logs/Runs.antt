-- ===== src/Tests/Logs/Runs.antt =====
-- Runs of a log: an append behind a manifest, a trim and a read.
use mathlib.Core.List.{Permᴰ}
use comb.Prelude.{
  ℕ, ◌++◌, ◌≡◌, refl, false, none, some, List, [], ◌∷◌, ◌≤◌, ◌<◌, ◌⊎◌, ◌↔◌, All, length,
}
use comb.Prelude.Str.{Str, str}
use comb.Object.Memory.{Table}
use comb.Object.Step.{Outcome, done, failed}
use comb.Store.Host.{World}
use comb.Publish.Plan.{PreparedMutation}
use comb.Core.Error.{ok}
use comb.Core.Refs.{RefValue}
use comb.Log.Events.{read_manifest, events_domain}
use comb.Log.Prepare.Extends.{Extends, prepare_events-Extends}
use comb.Log.Compact.Merges.{Merges, prepare_compact-Merges}
use comb.Log.Compact.{prepare_compact, load_frames, existing_manifest}
use comb.Log.Compact.Trims.{Trims, prepare_trim-Trims}
use comb.Log.Operations.{status}
use comb.Log.Chunks.Sorted.{IsSorted}
use comb.Log.Reads.Since.{Gathered, IsSince, read-IsSince}
use comb.Log.Payloads.{check_payloads, taken_lease}
use comb.Log.Payloads.Bounds.{total, check_payloads_iff}
use comb.Log.Payloads.Writers.{Admits, next_writer-Admits}
use comb.Log.Model.{
  AppendRange, Frame, DomainState, LogManifest, trimmable_feed, max_append_events, max_append_bytes,
}
use comb.Log.Prepare.{prepare_events}
use comb.Log.Compact.Merges.{Merges, prepare_compact-Merges}
use comb.Log.Compact.{prepare_compact, load_frames, prepare_trim}
use comb.Log.Reads.{read}
use comb.Tests.Instances.{hex, blake3, chrono}
use comb.Log.Group.{Submission, GroupStats, commit_group}
use comb.Log.Group.Answered.{answered, submitted, commit_group-answered}
use comb.Tests.Stores.{name, identity, writer}
use comb.Prelude.Str.{eqs, bytes}
use comb.Core.Digest.{digest}
use comb.Core.Operation.Identity.{canonical}
use comb.Object.Memory.{memory_backend}
use comb.Store.Blobs.{get_blob, put_blob}
use comb.Log.Payloads.{next_writer}
use comb.Tests.Logs.{log_ref, log_json, log_env, log_store, log, log_world, ctx, items}

abbrev append_run : Outcome (PreparedMutation log_env AppendRange) × World (Table chrono) ℕ
append_run =
    prepare_events log_env log_store log_json ctx (str "l") writer 30 trimmable_feed items [] false
      log_world

abbrev trim_run : Outcome (PreparedMutation log_env ℕ) × World (Table chrono) ℕ
trim_run = prepare_trim log_env log_store log_json 2 ctx log_world

abbrev read_run : Outcome (List (Frame chrono)) × World (Table chrono) ℕ
read_run = read log_env log_store log_json log 2 log_world

abbrev result_or : {T : Type 0} → T → Outcome T → T
result_or fallback (done t) = t
result_or fallback (failed e) = fallback

abbrev compact_run : Outcome (PreparedMutation log_env ℕ) × World (Table chrono) ℕ
compact_run = prepare_compact log_env log_store log_json trimmable_feed ctx log_world

-- What stands where nothing was prepared.
abbrev nothing : {T : Type 0} → T → PreparedMutation log_env T
nothing outcome = record {
  next = log_ref;
  uploads = [];
  commit_upload = none;
  change = [];
  outcome = outcome;
  admitted = [];
  companions = [];
  live_lease = none;
}

abbrev appended : PreparedMutation log_env AppendRange
appended = result_or (nothing (record { first = 0; last = 0 })) append_run.0

abbrev trimmed : PreparedMutation log_env ℕ
trimmed = result_or (nothing 0) trim_run.0

abbrev merged : PreparedMutation log_env ℕ
merged = result_or (nothing 0) compact_run.0

abbrev frames : List (Frame chrono)
frames = result_or [] read_run.0

runs_done :
    (append_run ≡ (done appended, append_run.1))
    × (trim_run ≡ (done trimmed, trim_run.1))
    × (read_run ≡ (done frames, read_run.1))
    × (compact_run ≡ (done merged, compact_run.1))
unfolding comb.Object.Step.continue memory_backend comb.Object.Memory.get_limited
    comb.Object.Memory.find comb.Object.Memory.put_update comb.Object.Memory.put_create
    comb.Object.Memory.insert eqs comb.Store.Keys.ref_key comb.Store.Keys.object_key hex blake3
    comb.Store.Blobs.stamp comb.Core.Envelope.encode comb.Core.Envelope.new_envelope digest
    comb.Tests.Json.json comb.Core.Envelope.u16_le comb.Core.Envelope.u32_le comb.Store.Blobs.create
    comb.Prelude.Str.starts_with comb.Prelude.Str.strip_prefix comb.Prelude.Decimal.to_string
    comb.Object.Step.map_err comb.Store.Keys.cache_path comb.Core.Envelope.bad_magic
    comb.Core.Envelope.u16_at comb.Core.Envelope.u32_at comb.Core.Envelope.from_meta_str
    comb.Core.Envelope.as_str comb.Core.Envelope.same_kind
    comb.Core.Envelope.envelope_payload_suffix comb.Core.Envelope.verify_payload
    comb.Core.Envelope.payload_suffix get_blob comb.Core.Envelope.decode comb.Object.Memory.get
    comb.Store.Blobs.cache_write put_blob prepare_events prepare_trim read prepare_compact
    next_writer comb.Log.Payloads.taken_lease comb.Log.Events.events_domain
    comb.Log.Events.read_manifest comb.Log.Domain.check_manifest comb.Core.Commit.validate_header
    comb.Core.Operation.Identity.parse bytes comb.Core.Operation.Stable.parse
    comb.Core.Operation.Stable.try_from_canonical canonical comb.Core.Operation.Stable.to_string
    comb.Core.Refs.lease_live comb.Log.Prepare.gather comb.Log.Prepare.prepare_gathered
    comb.Log.Events.admit_generics comb.Log.Events.admit_stables comb.Log.Payloads.check_payloads
    comb.Log.Chunks.build_chunk comb.Log.Chunks.serde comb.Index.Walk.admissions_size
    comb.Log.Model.domain_of comb.Publish.Head.read_head comb.Publish.Head.get_small
    comb.Publish.Head.check_head comb.Core.Refs.validate_schema comb.Log.Operations.status
    comb.Log.Operations.load_manifest comb.Publish.Plan.header comb.Log.Reads.collect
    comb.Log.Reads.keep_frames comb.Log.Chunks.sort_frames comb.Log.Compact.existing_manifest
    comb.Log.Compact.trim_floor comb.Log.Plans.prepared_alone comb.Log.Model.retention_of
runs_done = (refl, refl, refl, refl)

prepare_events-Extends_example :
    (domain : DomainState chrono) × (m : LogManifest chrono Str) × (before : World (Table chrono) ℕ)
    × (behind : World (Table chrono) ℕ) × (events_domain log_env log_store log_json trimmable_feed
          m.epoch ctx.snapshot.value before
        ≡ (done domain, behind))
    × Extends log_env log_store log_json domain m appended
prepare_events-Extends_example =
    prepare_events-Extends log_env log_store log_json ctx (str "l") writer 30 trimmable_feed items
      [] false appended log_world append_run.1 runs_done.0

prepare_trim-Trims_example :
    (m : LogManifest chrono Str) × (after : LogManifest chrono Str) × (behind : World
      (Table chrono)
      ℕ)
    × (existing_manifest log_env log_store log_json ctx.snapshot.value log_world ≡ (done m, behind))
    × Trims log_env log_store log_json 2 ctx m after trimmed
prepare_trim-Trims_example =
    prepare_trim-Trims log_env log_store log_json 2 ctx trimmed log_world trim_run.1 runs_done.1

read-IsSince_example :
    IsSorted frames
    × (((behind : World (Table chrono) ℕ) × (status log_env log_store log_json log log_world
            ≡ (done none, behind))
          × (frames ≡ []))
        ⊎ ((value : RefValue chrono) × (m : LogManifest chrono Str) × (behind : World
              (Table chrono)
              ℕ)
            × (found : List (Frame chrono)) × (status log_env log_store log_json log log_world
                ≡ (done (some (value, m)), behind))
            × All (IsSince 2 m.trim_before_seq) frames
            × Permᴰ frames found
            × Gathered log_env log_store log_json log 2 m.trim_before_seq
                (m.segments ++ m.chunks)
                found
            × ((m.trim_before_seq ≡ 0) ⊎ (m.trim_before_seq < 2))))
read-IsSince_example =
    read-IsSince log_env log_store log_json log 2 frames log_world read_run.1 runs_done.2

next_writer_done :
    next_writer log_env log_ref writer 9 30 false ≡ ok (1, taken_lease log_env writer 9 30)
unfolding next_writer eqs comb.Core.Refs.lease_live
next_writer_done = refl

next_writer-Admits_example :
    Admits log_env log_ref writer 9 30 false 1
    × (taken_lease log_env writer 9 30 ≡ taken_lease log_env writer 9 30)
next_writer-Admits_example =
    next_writer-Admits log_env log_ref writer 9 30 false 1 (taken_lease log_env writer 9 30)
      next_writer_done

abbrev payloads : List (List ℕ)
payloads = (1 ∷ 2 ∷ []) ∷ []

check_payloads_iff_example : (check_payloads payloads ≡ ok tt) ↔ (
    (0 < length payloads)
    × (length payloads ≤ max_append_events)
    × (total payloads ≤ max_append_bytes))
check_payloads_iff_example = check_payloads_iff payloads

prepare_compact-Merges_example :
    (m : LogManifest chrono Str) × (after : LogManifest chrono Str) × (loaded : List (Frame chrono))
    × (behind : World (Table chrono) ℕ) × (later : World (Table chrono) ℕ) × (read_manifest log_env
          log_store log_json ctx.snapshot.value log_world
        ≡ (done (some m), behind))
    × (load_frames log_env log_store log_json m.chunks behind ≡ (done loaded, later))
    × Merges log_env log_store log_json m after loaded merged
prepare_compact-Merges_example =
    prepare_compact-Merges log_env log_store log_json trimmable_feed ctx merged log_world
      compact_run.1 runs_done.3

-- Two submissions under one identity, and one without a payload.
abbrev batch : List Submission
batch =
    record { identity = identity; payloads = (4 ∷ []) ∷ []; ack = 7 }
    ∷ record { identity = identity; payloads = (4 ∷ []) ∷ []; ack = 8 }
    ∷ record { identity = identity; payloads = []; ack = 7 }
    ∷ []

abbrev no_stats : GroupStats
no_stats = record { commits = 0; events = 0; conflicts = 0 }

commit_group-answered_example :
    answered 7
      (commit_group log_env log_store log_json name
        (str "l")
        writer
        30
        trimmable_feed
        batch
        no_stats
        log_world).0.1
    ≡ submitted 7 batch
commit_group-answered_example =
    commit_group-answered log_env log_store log_json name (str "l") writer 30 trimmable_feed 7 batch
      no_stats log_world
