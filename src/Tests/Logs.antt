-- ===== src/Tests/Logs.antt =====
-- A log over the memory backend: a toy serde_json, and a store with one manifest and one chunk.
mod Runs
use comb.Prelude.{ℕ, none, some, List, [], ◌∷◌}
use comb.Prelude.Str.{Str, str}
use comb.Core.Digest.{Digest, digest}
use comb.Core.Refs.{RefValue}
use comb.Index.Stored.{NodeJson}
use comb.Object.Memory.{Table}
use comb.Object.Step.{Outcome}
use comb.Publish.View.{Codec}
use comb.Publish.Plan.{PrepareCtx}
use comb.Store.Host.{World, Env, ask}
use comb.Store.Keys.{ref_key}
use comb.Store.Blobs.{put_blob}
use comb.Log.Model.{
  LogManifest, LogJson, ChunkRef, Frame, ChunkBody, AppendRange, GenericItem, StableAppendReceipt,
  trimmable, trimmable_feed, manifest_schema, chunk_schema,
}
use comb.Log.Operations.{LogStore}
use comb.Tests.Instances.{hex, blake3, chrono}
use comb.Tests.Stores.{key, name, header, identity, request, claimed, env, store, new_world}

-- The digest of the one blob, which both the manifest and the chunk are read from.
abbrev pub blob_id : Digest
blob_id = digest hex blake3 key (1 ∷ [])

abbrev pub manifest : LogManifest chrono Str
manifest = record {
  schema = manifest_schema;
  header = header;
  log = name;
  epoch = 1;
  head_seq = 3;
  chunks =
      record { digest = blob_id; first = 1; last = 3; bytes = 1; at = 0 }
      ∷ record { digest = blob_id; first = 1; last = 3; bytes = 1; at = 0 }
      ∷ [];
  segments = [];
  trim_before_seq = 1;
  admitted = [];
  retention = trimmable;
  stable_index = none;
  stable_admissions = [];
  result = str "result";
  ref_state = none;
}

abbrev pub body : ChunkBody chrono
body = record {
  schema = chunk_schema;
  frames =
      record { seq = 3; at = 0; payload = 8 ∷ [] }
      ∷ record { seq = 1; at = 0; payload = 6 ∷ [] }
      ∷ record { seq = 2; at = 0; payload = 7 ∷ [] }
      ∷ [];
}

abbrev pub number_codec : Codec Str ℕ
number_codec = record { to_value = λ n. some (n ∷ []); from_value = λ v. some 0 }

abbrev pub log_json : LogJson chrono Str
log_json = record {
  manifest_to_vec = λ m. some (m.head_seq ∷ m.trim_before_seq ∷ []);
  manifest_from_slice = λ text. some manifest;
  body_to_vec = λ b. some (str "frames");
  body_from_slice = λ text. some body;
  range_codec = record {
    to_value = λ r. some (r.first ∷ r.last ∷ []);
    from_value = λ v. some (record { first = 1; last = 1 });
  };
  receipt_codec = record {
    to_value = λ r. some [];
    from_value = λ v.
        some (record {
          payload_hash = blob_id;
          range = record { first = 1; last = 1 };
          generation = 1;
        });
  };
  number_codec = number_codec;
  epoch_codec = number_codec;
  append_change = λ r. str "append";
  takeover_change = λ writer. str "takeover";
  compact_change = λ merged. str "compact";
  trim_change = λ floor. str "trim";
  nodes = record {
    node_to_vec = λ n. none;
    node_from_slice = λ text. none;
    entries_to_vec = λ entries. some [];
  };
}

-- The head of the log, as every ref is read.
abbrev pub log_ref : RefValue chrono
log_ref = record claimed { target = some blob_id }

abbrev pub log_env : Env (Table chrono) ℕ
log_env = record env { json = record env.json { ref_from_slice = λ text. some log_ref } }

abbrev pub log_store : comb.Store.Keys.Store log_env
log_store = record {
  backend = store.backend;
  tenant = store.tenant;
  key = store.key;
  cache_dir = store.cache_dir;
  policy = store.policy;
  layout = store.layout;
}

abbrev pub log : LogStore
log = record { name = name; logical = str "l"; feed = trimmable_feed }

-- The world with the blob, and with the head.
abbrev pub blob_world : World (Table chrono) ℕ
blob_world = (put_blob log_env log_store (1 ∷ []) new_world).1

abbrev pub log_world : World (Table chrono) ℕ
log_world =
    (ask (log_store.backend.put_create (ref_key log_env log_store name) (str "ref") 0) blob_world).1

-- A generation behind the head, and one behind nothing.
abbrev pub ctx : PrepareCtx log_env
ctx = record {
  snapshot = record { value = log_ref; version = none };
  identity = identity;
  request = request;
  generation = 2;
  parent = none;
  skip = none;
  now = 9;
}

abbrev pub items : List GenericItem
items =
    record { identity = identity; request = request; payloads = (4 ∷ []) ∷ (5 ∷ []) ∷ [] }
    ∷ record { identity = identity; request = request; payloads = (6 ∷ []) ∷ [] }
    ∷ []
