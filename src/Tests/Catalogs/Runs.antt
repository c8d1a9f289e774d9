-- ===== src/Tests/Catalogs/Runs.antt =====
-- Runs of a catalog: two appends from the empty one, and a seek.
use comb.Prelude.{ℕ, ◌≡◌, refl, [], ◌∷◌}
use comb.Prelude.Str.{Str, str}
use comb.Object.Memory.{Table}
use comb.Object.Step.{Outcome, done, failed}
use comb.Store.Host.{World}
use comb.Tests.Stores
use comb.Tests.Stores.{new_world}
use comb.Tests.Catalogs.{
  catalog_json, catalog_reads_written, plain_env, plain_store, plain_no_collision, plain_keeps,
  Fits,
}
use comb.Catalog.Node.{CatalogChunkRef, CatalogState, empty}
use comb.Catalog.Append.{append}
use comb.Catalog.Append.Refines.{IsCatalog, append-refines}
use comb.Catalog.Seek.{seek_leaf}
use comb.Catalog.Seek.Finds.{Answers, seek_leaf-Answers}

abbrev state_or : Outcome CatalogState → CatalogState
state_or (done s) = s
state_or (failed e) = empty

abbrev first_chunk : CatalogChunkRef
first_chunk = record {
  digest = record { hex = str "one" };
  first_seq = 1;
  last_seq = 3;
  event_count = 3;
  raw_payload_bytes = 30;
  plaintext_bytes = 40;
}

abbrev second_chunk : CatalogChunkRef
second_chunk = record {
  digest = record { hex = str "two" };
  first_seq = 4;
  last_seq = 4;
  event_count = 1;
  raw_payload_bytes = 10;
  plaintext_bytes = 20;
}

abbrev first_run : Outcome CatalogState × World (Table Stores.env.chrono) ℕ
first_run = append plain_env plain_store catalog_json empty first_chunk new_world

abbrev first_state : CatalogState
first_state = state_or first_run.0

abbrev second_run : Outcome CatalogState × World (Table Stores.env.chrono) ℕ
second_run = append plain_env plain_store catalog_json first_state second_chunk first_run.1

abbrev second_state : CatalogState
second_state = state_or second_run.0

runs_done :
    (first_run ≡ (done first_state, first_run.1)) × (second_run ≡ (done second_state, second_run.1))
unfolding append comb.Object.Step.continue comb.Catalog.Node.validate_ref
    comb.Catalog.Objects.put_node comb.Catalog.Node.validate comb.Store.Blobs.put_object
    comb.Core.Envelope.encode comb.Tests.Json.json comb.Core.Digest.digest
    comb.Tests.Catalogs.write_node comb.Tests.Catalogs.read_node comb.Prelude.Decimal.to_string
    comb.Core.Envelope.u16_le comb.Core.Envelope.u32_le comb.Object.Memory.memory_backend
    comb.Object.Memory.put_create comb.Object.Memory.find comb.Object.Memory.insert
    comb.Object.Memory.get_limited comb.Catalog.Objects.load_node comb.Catalog.Objects.unwrap
    comb.Catalog.Objects.spec comb.Object.Step.map_err comb.Store.Blobs.get_blob_limited
    comb.Store.Blobs.stamp comb.Store.Blobs.create comb.Store.Blobs.cache_write
    comb.Store.Keys.cache_path comb.Store.Keys.object_key comb.Core.Envelope.new_envelope
    comb.Prelude.Str.eqs comb.Core.Envelope.Bounded.decode_limited
    comb.Core.Envelope.Bounded.decode_limited_with comb.Core.Envelope.Bounded.inspect_limited
    comb.Core.Envelope.Bounded.check_header comb.Core.Envelope.bad_magic comb.Core.Envelope.u16_at
    comb.Core.Envelope.u32_at comb.Core.Envelope.Bounded.check_tags
    comb.Core.Envelope.Bounded.is_kind comb.Core.Envelope.from_meta_str comb.Core.Envelope.as_str
    comb.Core.Envelope.same_kind comb.Core.Envelope.Bounded.contains
    comb.Core.Envelope.envelope_payload_suffix comb.Core.Envelope.Bounded.check_caps
    comb.Core.Envelope.verify_payload comb.Core.Envelope.payload_suffix comb.Prelude.Str.starts_with
    comb.Catalog.Append.append_at comb.Catalog.Append.append_node comb.Catalog.Append.append_leaf
    comb.Catalog.Append.update_root comb.Catalog.Node.root_from_node comb.Catalog.Node.leaf_span
    comb.Catalog.Node.last_of
runs_done = (refl, refl)

first-IsCatalog :
    IsCatalog plain_env plain_store catalog_json Fits plain_keeps catalog_reads_written
      plain_no_collision first_state
      (first_chunk ∷ [])
first-IsCatalog =
    append-refines plain_env plain_store catalog_json Fits plain_keeps catalog_reads_written
      plain_no_collision empty [] first_chunk new_world first_run.1 first_state (refl, tt)
      runs_done.0

append-refines_example :
    IsCatalog plain_env plain_store catalog_json Fits plain_keeps catalog_reads_written
      plain_no_collision second_state
      (first_chunk ∷ second_chunk ∷ [])
append-refines_example =
    append-refines plain_env plain_store catalog_json Fits plain_keeps catalog_reads_written
      plain_no_collision first_state (first_chunk ∷ []) second_chunk first_run.1 second_run.1
      second_state first-IsCatalog runs_done.1

seek_leaf-Answers_example :
    Answers plain_env plain_store catalog_json Fits plain_keeps catalog_reads_written
      plain_no_collision 4
      (first_chunk ∷ second_chunk ∷ [])
      (seek_leaf plain_env plain_store catalog_json second_state 4 second_run.1)
seek_leaf-Answers_example =
    seek_leaf-Answers plain_env plain_store catalog_json Fits plain_keeps catalog_reads_written
      plain_no_collision second_state (first_chunk ∷ second_chunk ∷ []) 4 second_run.1
      append-refines_example
