-- ===== src/Tests/Stores/Runs.antt =====
-- Runs of a store, one after the other: a claim that is published, its recovery, reads and a renewal.
use comb.Prelude.{ℕ, ◌≤◌, ◌≡◌, refl, true, false, Option, none, some, List, [], ◌∷◌, length}
use comb.Prelude.Str.{Str, str, eqs, bytes}
use comb.Core.Digest.{digest}
use comb.Core.Refs.{RefValue, Lease, ref_schema, new_ref}
use comb.Core.Commit.{Commit, CommitHeader, OpIntent, pending, commit_schema, header_schema}
use comb.Core.Operation.Identity.{OpIdentity, stable, canonical}
use comb.Core.Operation.Stable.{StableKey}
use comb.Core.Operation.Material.{material_hash}
use comb.Core.Envelope.{EnvelopeReadSpec, blob}
use comb.Object.Memory.{memory_backend, Table}
use comb.Object.Step.{Step, Outcome, done, failed}
use comb.Store.Host.{World}
use comb.Store.Keys.{Store, v3}
use comb.Store.Blobs.{GetSource, get_blob, get_blob_limited, cache}
use comb.Store.Plans.{MutationResult, set_target_next, claim_next, release_next}
use comb.Store.Mutations.{claim_plan}
use comb.Publish.View.{Codec, View, Published}
use comb.Publish.Plan.{RefMutationPlan}
use comb.Publish.Engine.{publish}
use comb.Publish.View.Consistent.{IsConsistent}
use comb.Publish.View.{CommitView}
use comb.Publish.Attempt.{AttemptResult, finished, retry, attempt}
use comb.Publish.Attempt.Finished.{Landed, IsFirst, attempt-IsFirst}
use comb.Publish.Engine.Certain.{IsCertain}
use comb.Publish.Engine.Certain.Rounds.{publish-IsCertain}
use comb.Publish.Seek.{recover_without_intent, seek_generation}
use comb.Publish.Seek.Lands.{seek_generation-IsSought}
use comb.Publish.Seek.Recovers.{recover_without_intent-IsConsistent}
use comb.Publish.Renew.{renew_owned_lease}
use comb.Publish.Head.{HeadSnapshot, head_or_empty}
use comb.Publish.Renew.Keeps.{IsRenewal, renew_owned_lease-keeps}
use comb.Store.Blobs.{backend}
use comb.Store.Blobs.Authentic.{get_blob-IsPlaintext, get_blob_limited-IsBounded}
use mathlib.Core.Option
use comb.Tests.Instances.{hex, blake3, chrono}
use comb.Tests.Json
use comb.Index.Node.{HamtNode, branch, node_schema, max_node_bytes}
use comb.Index.Walk.{load_node}
use comb.Index.Stored.{NodeJson, node_store, load_node-IsPlaintext}
use comb.Store.Blobs.Authentic.{IsPlaintext}
use comb.Store.Blobs.{put_blob}
use comb.Core.Digest.{Digest}
use comb.Tests.Stores.{
  key, name, writer, identity, request, commit_id, claimed, header, env, store, codec, plan,
  new_world,
}

-- What a run gives, where it succeeds.
abbrev result_or : {T : Type 0} → T → Outcome T → T
result_or fallback (done t) = t
result_or fallback (failed e) = fallback

abbrev no_publication : Published chrono MutationResult
no_publication = record {
  outcome = record { generation = 0; epoch = 0 };
  generation = 0;
  epoch = 0;
  commit = commit_id;
  value = claimed;
  first_delivery = false;
  admitted = [];
}

abbrev first_run : Outcome (Published chrono MutationResult) × World (Table chrono) ℕ
first_run = publish env store plan identity new_world

abbrev first_publication : Published chrono MutationResult
first_publication = result_or no_publication first_run.0

abbrev later_world : World (Table chrono) ℕ
later_world = first_run.1

abbrev attempt_run :
    Outcome (AttemptResult (Published chrono MutationResult)) × World (Table chrono) ℕ
attempt_run =
    attempt env store plan identity (pending hex identity name request 0 none) none 0 request
      new_world

abbrev publication_of :
    AttemptResult (Published chrono MutationResult) → Published chrono MutationResult
publication_of (finished p) = p
publication_of retry = no_publication

abbrev attempted : Published chrono MutationResult
attempted = publication_of (result_or retry attempt_run.0)

abbrev recovery_run : Outcome (Option (Published chrono MutationResult)) × World (Table chrono) ℕ
recovery_run = recover_without_intent env store codec identity request name later_world

abbrev recovered : Published chrono MutationResult
recovered = Option.get_or (result_or none recovery_run.0) no_publication

abbrev seek_run : Outcome (CommitView chrono Str × ℕ) × World (Table chrono) ℕ
seek_run = seek_generation env store commit_id 1 name later_world

abbrev no_view : CommitView chrono Str
no_view = record {
  digest = commit_id;
  header = header;
  result = [];
  admitted = [];
  ref_state = none;
  target_follows_commit = true;
}

abbrev sought : CommitView chrono Str × ℕ
sought = result_or (no_view, 0) seek_run.0

abbrev blob_run : Outcome (List ℕ × GetSource) × World (Table chrono) ℕ
blob_run = get_blob env store commit_id later_world

abbrev spec : EnvelopeReadSpec
spec = record {
  tenant = str "org";
  kind = blob;
  allowed_schemas = commit_schema ∷ [];
  max_encoded_bytes = 4096;
  max_plaintext_bytes = 6;
}

abbrev limited_run : Outcome (List ℕ × GetSource) × World (Table chrono) ℕ
limited_run = get_blob_limited env store commit_id spec later_world

abbrev renewal_run : Outcome (RefValue chrono) × World (Table chrono) ℕ
renewal_run = renew_owned_lease env store name writer 1 50 later_world

abbrev prolonged : RefValue chrono
prolonged = result_or claimed renewal_run.0

-- What each run comes to.
runs_done :
    (first_run ≡ (done first_publication, later_world))
    × (attempt_run ≡ (done (finished attempted), attempt_run.1))
    × (recovery_run ≡ (done (some recovered), recovery_run.1))
    × (seek_run ≡ (done (sought.0, sought.1), seek_run.1))
    × (blob_run ≡ (done (str "commit", backend), blob_run.1))
    × (limited_run ≡ (done (str "commit", backend), limited_run.1))
    × (renewal_run ≡ (done prolonged, renewal_run.1))
unfolding publish comb.Object.Step.continue comb.Publish.Intent.load_intent
    comb.Publish.Head.get_small memory_backend comb.Object.Memory.get_limited
    comb.Object.Memory.find comb.Publish.Head.is_not_found
    comb.Core.Operation.Identity.check_identity_time comb.Publish.Seek.recover_without_intent
    comb.Publish.Head.read_head comb.Publish.Head.head_or_empty comb.Publish.Intent.put_intent
    comb.Object.Memory.put_update comb.Object.Memory.put_create comb.Object.Memory.insert eqs
    comb.Store.Keys.intent_key comb.Store.Keys.ref_key comb.Store.Keys.object_key hex blake3
    comb.Publish.Intent.check_loaded pending comb.Core.Commit.validate_intent
    comb.Publish.Intent.admit_intent comb.Publish.Intent.resolve_pending
    comb.Publish.Attempt.attempt comb.Publish.Seek.compute_skip
    comb.Core.Commit.skip_target_generation comb.Publish.Plan.publication_io claim_plan claim_next
    comb.Store.Plans.claim_allowed comb.Store.Plans.prepared comb.Publish.Attempt.seal
    comb.Publish.Attempt.seal_objects comb.Store.Blobs.stamp comb.Core.Envelope.encode
    comb.Core.Envelope.new_envelope digest Json.json comb.Core.Envelope.u16_le
    comb.Core.Envelope.u32_le comb.Publish.Attempt.replace_head comb.Publish.Attempt.stage_objects
    comb.Store.Blobs.create comb.Publish.Intent.finalize_intent comb.Publish.Intent.written
    comb.Publish.Intent.ignore comb.Publish.Head.lacks_commit comb.Core.Refs.new_ref canonical
    comb.Core.Operation.Stable.to_string comb.Publish.Attempt.commit_payload
    comb.Core.Commit.validate_header comb.Core.Refs.lease_live comb.Publish.Plan.enforce_live_lease
    comb.Publish.Attempt.recheck_lease comb.Publish.Attempt.put_ref
    comb.Publish.Attempt.commit_digest comb.Publish.Attempt.chosen
    comb.Publish.Attempt.next_generation comb.Publish.Head.check_head comb.Core.Refs.validate_schema
    comb.Core.Operation.Identity.parse comb.Prelude.Str.starts_with comb.Core.Operation.Stable.parse
    comb.Prelude.Str.strip_prefix bytes comb.Core.Operation.Stable.try_from_canonical material_hash
    comb.Core.Operation.Material.put_all comb.Core.Operation.Material.put_u64
    comb.Core.Operation.Material.put_preconditions comb.Core.Operation.Material.sort_by_name
    comb.Core.Operation.Material.leb_bytes comb.Core.Operation.Material.put_bytes
    comb.Prelude.Decimal.to_string comb.Object.Step.map_err comb.Store.Keys.cache_path
    comb.Core.Envelope.Bounded.decode_limited comb.Core.Envelope.Bounded.decode_limited_with
    comb.Core.Envelope.Bounded.inspect_limited comb.Core.Envelope.Bounded.check_header
    comb.Core.Envelope.bad_magic comb.Core.Envelope.u16_at comb.Core.Envelope.u32_at
    comb.Core.Envelope.Bounded.check_tags comb.Core.Envelope.Bounded.is_kind
    comb.Core.Envelope.from_meta_str comb.Core.Envelope.as_str comb.Core.Envelope.same_kind
    comb.Core.Envelope.Bounded.contains comb.Core.Envelope.envelope_payload_suffix
    comb.Core.Envelope.Bounded.check_caps comb.Core.Envelope.verify_payload
    comb.Core.Envelope.payload_suffix get_blob_limited comb.Publish.View.view_of_payload
    comb.Publish.View.identity_in_commit comb.Publish.View.other_request
    comb.Publish.View.published_from_view comb.Core.Commit.validate_commit seek_generation get_blob
    comb.Core.Envelope.decode comb.Object.Memory.get renew_owned_lease comb.Store.Blobs.cache_write
runs_done = (refl, refl, refl, refl, refl, refl, refl)

publish-IsCertain_example : IsCertain env store plan identity first_publication
publish-IsCertain_example =
    publish-IsCertain env store plan identity first_publication new_world later_world runs_done.0

attempt-IsFirst_example :
    IsFirst env store plan identity 1 attempted
    × ((snapshot : HeadSnapshot chrono) × (read : World (Table chrono) ℕ) × (head_or_empty env store
            plan.resource new_world
          ≡ (done snapshot, read))
        × (snapshot.value.generation ≡ 0)
        × Landed env store plan identity snapshot attempted)
attempt-IsFirst_example =
    attempt-IsFirst env store plan identity (pending hex identity name request 0 none) none 0
      request attempted new_world attempt_run.1 runs_done.1

recover_without_intent-IsConsistent_example :
    IsConsistent recovered
    × (recovered.value.tenant ≡ str "org")
    × (recovered.value.name ≡ name)
    × (recovered.first_delivery ≡ false)
recover_without_intent-IsConsistent_example =
    recover_without_intent-IsConsistent env store codec identity request name recovered later_world
      recovery_run.1 runs_done.2

seek_generation-IsSought_example :
    (sought.0.header.generation ≡ 1) × (sought.0.header.resource ≡ name)
seek_generation-IsSought_example =
    seek_generation-IsSought env store 1 name commit_id sought.0 sought.1 later_world seek_run.1
      runs_done.3

get_blob-IsPlaintext_example : digest hex blake3 key (str "commit") ≡ commit_id
get_blob-IsPlaintext_example =
    get_blob-IsPlaintext env store commit_id (str "commit") backend later_world blob_run.1
      runs_done.4

get_blob_limited-IsBounded_example :
    (digest hex blake3 key (str "commit") ≡ commit_id) × (length (str "commit") ≤ 6)
get_blob_limited-IsBounded_example =
    get_blob_limited-IsBounded env store commit_id spec (str "commit") backend later_world
      limited_run.1 runs_done.5

renew_owned_lease-keeps_example :
    (r : IsRenewal env store name writer 1 50 later_world renewal_run.1 prolonged)
    × (prolonged.epoch ≡ 1)
    × (prolonged.generation ≡ r.snapshot.value.generation)
    × (prolonged.target ≡ r.snapshot.value.target)
    × (prolonged.head_commit ≡ r.snapshot.value.head_commit)
renew_owned_lease-keeps_example =
    renew_owned_lease-keeps env store name writer 1 50 prolonged later_world renewal_run.1
      runs_done.6

-- A node that is put and loaded again.
abbrev root_node : HamtNode
root_node = branch node_schema 0 [] (record { slot = 24; digest = commit_id } ∷ [])

abbrev nodes : NodeJson
nodes = record {
  node_to_vec = λ n. some (str "node");
  node_from_slice = λ text. some root_node;
  entries_to_vec = λ entries. some [];
}

abbrev node_id : Digest
node_id = digest hex blake3 key (str "node")

abbrev node_world : World (Table chrono) ℕ
node_world = (put_blob env store (str "node") new_world).1

abbrev load_run : Outcome HamtNode × World (Table chrono) ℕ
load_run =
    load_node hex blake3 (node_store env store nodes) name node_id commit_id 0 none node_world

load_run_done : load_run ≡ (done root_node, load_run.1)
unfolding comb.Object.Step.continue memory_backend comb.Object.Memory.get_limited
    comb.Object.Memory.find comb.Object.Memory.put_update comb.Object.Memory.put_create
    comb.Object.Memory.insert eqs comb.Store.Keys.intent_key comb.Store.Keys.ref_key
    comb.Store.Keys.object_key hex blake3 comb.Store.Blobs.stamp comb.Core.Envelope.encode
    comb.Core.Envelope.new_envelope digest Json.json comb.Core.Envelope.u16_le
    comb.Core.Envelope.u32_le comb.Store.Blobs.create comb.Prelude.Str.starts_with
    comb.Prelude.Str.strip_prefix comb.Prelude.Decimal.to_string comb.Object.Step.map_err
    comb.Store.Keys.cache_path comb.Core.Envelope.Bounded.decode_limited
    comb.Core.Envelope.Bounded.decode_limited_with comb.Core.Envelope.Bounded.inspect_limited
    comb.Core.Envelope.Bounded.check_header comb.Core.Envelope.bad_magic comb.Core.Envelope.u16_at
    comb.Core.Envelope.u32_at comb.Core.Envelope.Bounded.check_tags
    comb.Core.Envelope.Bounded.is_kind comb.Core.Envelope.from_meta_str comb.Core.Envelope.as_str
    comb.Core.Envelope.same_kind comb.Core.Envelope.Bounded.contains
    comb.Core.Envelope.envelope_payload_suffix comb.Core.Envelope.Bounded.check_caps
    comb.Core.Envelope.verify_payload comb.Core.Envelope.payload_suffix get_blob_limited
    comb.Object.Memory.get comb.Store.Blobs.cache_write load_node comb.Index.Walk.map_read_error
    comb.Index.Walk.node_spec comb.Index.Check.check_node put_blob comb.Index.Node.validate_slots
load_run_done = refl

load_node-IsPlaintext_example :
    (payload : List ℕ) × IsPlaintext env store node_id payload
    × (length payload ≤ max_node_bytes)
    × (nodes.node_from_slice payload ≡ some root_node)
load_node-IsPlaintext_example =
    load_node-IsPlaintext env store nodes name node_id commit_id 0 none root_node node_world
      load_run.1 load_run_done
