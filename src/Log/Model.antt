-- ===== src/Log/Model.antt =====
-- crates/combctl/src/log.rs: manifests, chunks, receipts, and what serde_json does with them.
use comb.Prelude.{ℕ, ◌*◌, Bool, true, false, Option, none, List, []}
use comb.Prelude.Str.{Str, str}
use comb.Core.Crates.{Chrono}
use comb.Core.Digest.{Digest}
use comb.Core.Refs.{RefValue}
use comb.Core.Commit.{CommitHeader, Admission}
use comb.Core.Operation.Identity.{OpIdentity}
use comb.Core.Operation.Stable.{StableKey}
use comb.Index.Node.{StableIndexRoot, StableIndexEntry}
use comb.Index.Stored.{NodeJson}
use comb.Publish.View.{Codec, log_manifest_schema}

abbrev pub manifest_schema : Str
manifest_schema = log_manifest_schema

abbrev pub chunk_schema : Str
chunk_schema = str "comb.log.chunk/v1"

abbrev pub max_append_events : ℕ
max_append_events = 2048

abbrev pub max_append_bytes : ℕ
max_append_bytes = 512 * 1024

abbrev pub max_admissions : ℕ
max_admissions = 2048

pub data RetentionMode : Type 0 where
  trimmable complete : RetentionMode

pub data FeedMode : Type 0 where
  trimmable_feed complete_feed : FeedMode

-- `RetentionMode::from`.
unfoldable pub retention_of : FeedMode → RetentionMode
retention_of trimmable_feed = trimmable
retention_of complete_feed = complete

-- `== FeedMode::Complete`, and the same for the retention.
abbrev pub is_complete_feed : FeedMode → Bool
is_complete_feed complete_feed = true
is_complete_feed trimmable_feed = false

abbrev pub is_complete : RetentionMode → Bool
is_complete complete = true
is_complete trimmable = false

pub record ChunkRef (c : Chrono) : Type 0 where
  pub digest : Digest
  pub first : ℕ
  pub last : ℕ
  pub bytes : ℕ
  pub at : c.Time

pub record LogManifest (c : Chrono) (J : Type 0) : Type 0 where
  pub schema : Str
  pub header : CommitHeader c
  pub log : Str
  pub epoch : ℕ
  pub head_seq : ℕ
  pub chunks : List (ChunkRef c)
  pub segments : List (ChunkRef c)
  pub trim_before_seq : ℕ
  pub admitted : List Admission
  pub retention : RetentionMode
  pub stable_index : Option StableIndexRoot
  pub stable_admissions : List StableIndexEntry
  pub result : J
  pub ref_state : Option (RefValue c)

pub record Frame (c : Chrono) : Type 0 where
  pub seq : ℕ
  pub at : c.Time
  pub payload : List ℕ

pub record ChunkBody (c : Chrono) : Type 0 where
  pub schema : Str
  pub frames : List (Frame c)

pub record AppendRange : Type 0 where
  pub first : ℕ
  pub last : ℕ

pub record Appended : Type 0 where
  pub first : ℕ
  pub last : ℕ
  pub generation : ℕ
  pub first_delivery : Bool

pub record StableAppendReceipt : Type 0 where
  pub payload_hash : Digest
  pub range : AppendRange
  pub generation : ℕ

pub record LogHead : Type 0 where
  pub head_seq : ℕ
  pub next_seq : ℕ
  pub epoch : ℕ
  pub generation : ℕ

pub record DomainState (c : Chrono) : Type 0 where
  pub epoch : ℕ
  pub head_seq : ℕ
  pub chunks : List (ChunkRef c)
  pub segments : List (ChunkRef c)
  pub trim_before_seq : ℕ
  pub retention : RetentionMode
  pub stable_index : Option StableIndexRoot

pub record GenericItem : Type 0 where
  pub identity : OpIdentity
  pub request : Digest
  pub payloads : List (List ℕ)

pub record StableItem : Type 0 where
  pub key : StableKey
  pub payload : List ℕ
  pub payload_hash : Digest

-- `DomainState::empty`.
unfoldable pub empty_domain : {c : Chrono} → RetentionMode → ℕ → DomainState c
empty_domain retention epoch = record {
  epoch = epoch;
  head_seq = 0;
  chunks = [];
  segments = [];
  trim_before_seq = 0;
  retention = retention;
  stable_index = none;
}

-- The domain of a manifest.
unfoldable pub domain_of : {c : Chrono} {J : Type 0} → LogManifest c J → DomainState c
domain_of m = record {
  epoch = m.epoch;
  head_seq = m.head_seq;
  chunks = m.chunks;
  segments = m.segments;
  trim_before_seq = m.trim_before_seq;
  retention = m.retention;
  stable_index = m.stable_index;
}

-- serde_json on manifests and chunks, on outcomes, and the `change` of each plan.
pub record LogJson (c : Chrono) (J : Type 0) : Type 0 where
  pub manifest_to_vec : LogManifest c J → Option (List ℕ)
  pub manifest_from_slice : List ℕ → Option (LogManifest c J)
  pub body_to_vec : ChunkBody c → Option (List ℕ)
  pub body_from_slice : List ℕ → Option (ChunkBody c)
  pub range_codec : Codec J AppendRange
  pub receipt_codec : Codec J StableAppendReceipt
  pub number_codec : Codec J ℕ
  pub epoch_codec : Codec J ℕ
  pub append_change : AppendRange → J
  pub takeover_change : Str → J
  pub compact_change : ℕ → J
  pub trim_change : ℕ → J
  pub nodes : NodeJson
