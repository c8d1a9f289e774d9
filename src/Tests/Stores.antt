-- ===== src/Tests/Stores.antt =====
-- A store over the memory backend.
mod Runs
mod Fences
use comb.Prelude.{ℕ, ◌+◌, false, Option, none, some, [], ◌∷◌, if◌then◌else◌}
use comb.Prelude.Str.{Str, str, eqs, bytes}
use comb.Core.Error.{ok, err, fenced}
use comb.Core.Digest.{Digest, DigestKey, digest}
use comb.Core.Refs.{RefValue, Lease, ref_schema, new_ref}
use comb.Core.Commit.{Commit, CommitHeader, OpIntent, pending, commit_schema, header_schema}
use comb.Core.Operation.Identity.{OpIdentity, stable, canonical}
use comb.Core.Operation.Stable.{StableKey}
use comb.Core.Operation.Material.{material_hash}
use comb.Core.Envelope.{EnvelopeReadSpec, blob}
use comb.Object.Memory.{memory_backend, Table}
use comb.Object.Step.{Step, Outcome, done, failed}
use comb.Store.Host.{World, Host, Json, Env}
use comb.Store.Keys.{Store, v3}
use comb.Store.Blobs.{GetSource, get_blob, get_blob_limited, cache}
use comb.Store.Plans.{MutationResult, set_target_next, claim_next, release_next}
use comb.Store.Mutations.{claim_plan}
use comb.Publish.View.{Codec, View, Published}
use comb.Publish.Plan.{RefMutationPlan}
use comb.Publish.Engine.{publish}
use comb.Publish.View.Consistent.{IsConsistent}
use comb.Publish.View.{CommitView}
use comb.Publish.Attempt.{AttemptResult, finished, retry, attempt}
use comb.Publish.Attempt.Finished.{IsFirst, attempt-IsFirst}
use comb.Publish.Engine.Certain.{IsCertain}
use comb.Publish.Engine.Certain.Rounds.{publish-IsCertain}
use comb.Publish.Seek.{recover_without_intent, seek_generation}
use comb.Publish.Seek.Lands.{seek_generation-IsSought}
use comb.Publish.Seek.Recovers.{recover_without_intent-IsConsistent}
use comb.Publish.Renew.{renewed, renew_owned_lease}
use comb.Publish.Renew.Keeps.{renew_owned_lease-keeps}
use comb.Store.Blobs.{backend}
use comb.Store.Blobs.Authentic.{get_blob-IsPlaintext, get_blob_limited-IsBounded}
use mathlib.Core.Option
use comb.Tests.Instances.{hex, blake3, chrono}
use comb.Tests.Json

abbrev pub key : DigestKey
key = record { raw = 9 ∷ [] }

abbrev pub name : Str
name = str "res"

abbrev pub writer : Str
writer = str "w"

abbrev pub identity : OpIdentity
identity = stable (record { raw = 7 ∷ [] })

-- The commit and the ref of the claim that is published below.
abbrev pub request : Digest
request =
    material_hash hex blake3 key
      (record {
        kind = str "claim";
        preconditions = (str "writer", bytes writer) ∷ (str "steal", str "0") ∷ [];
        payload = [];
      })
      (str "org") name

abbrev pub commit_id : Digest
commit_id = digest hex blake3 key (str "commit")

abbrev pub claimed : RefValue chrono
claimed = record {
  schema = ref_schema;
  tenant = str "org";
  name = name;
  generation = 1;
  epoch = 1;
  target = none;
  lease = some (record { writer = writer; lease_until = 100 });
  updated_at = 6;
  head_commit = some commit_id;
}

abbrev pub header : CommitHeader chrono
header = record {
  schema = header_schema;
  resource = name;
  generation = 1;
  epoch = 1;
  identity = canonical hex identity;
  request = request;
  parent = none;
  skip = none;
  at = 6;
}

abbrev pub commit : Commit chrono Str
commit = record {
  schema = commit_schema;
  header = header;
  change = [];
  result = str "result";
  ref_state = record claimed { head_commit = none };
}

-- A value is a text, and each struct has one text.
abbrev pub json : Json chrono
json = record {
  Value = Str;
  value_from_slice = λ text. some text;
  get = λ v field. if eqs field (str "schema") then some commit_schema else none;
  as_str = λ v. some v;
  is_null = λ v. eqs v [];
  null = [];
  ref_to_vec = λ r. some (str "ref");
  ref_from_slice = λ text. some claimed;
  ref_from_value = λ v. some claimed;
  intent_to_vec = λ i. some (str "intent");
  intent_from_slice = λ text. some (pending hex identity name request 0 none);
  commit_to_vec = λ c. some (str "commit");
  commit_from_value = λ v. some commit;
  header_from_value = λ v. some header;
  admissions_from_value = λ v. some [];
  range_value = λ first last. str "range";
  set_target_change = λ d. str "set-target";
  claim_change = λ w steal. str "claim";
  release_change = str "release";
}

-- The state of the host is a clock; no file can be read.
abbrev pub host : Host chrono (Table chrono) ℕ
host = record {
  utc_now = λ t. (t, t + 1);
  clock_now = λ t. (t, t + 1);
  entropy = λ t. ([], t);
  Secs = ℕ;
  seconds = λ n. n;
  wait = λ until now. until;
  FilePath = Str;
  join = λ dir file. file;
  read_file = λ path t. none;
  file_len = λ path t. none;
  open_file = λ path t. none;
  write_file = λ path text t. t;
  quarantine_file = λ path t. t;
  Token = Unit {0};
  is_cancelled = λ token t. false;
  select = λ token delay future w.
      let (outcome, after) = future w in
      (elim outcome [ done t ↦ done (some t) | failed e ↦ failed e ], after);
}

abbrev pub env : Env (Table chrono) ℕ
env = record {
  hex = hex;
  blake3 = blake3;
  chrono = chrono;
  meta_json = Json.json;
  json = json;
  host = host;
}

abbrev pub store : Store env
store = record {
  backend = memory_backend chrono;
  tenant = str "org";
  key = key;
  cache_dir = some (str "c");
  policy = record { window = 10; first_use = 10; max_future_skew = 10 };
  layout = v3;
}

abbrev pub codec : Codec Str MutationResult
codec = record {
  to_value = λ r. some (str "result");
  from_value = λ v. some (record { generation = 1; epoch = 1 });
}

abbrev pub plan : RefMutationPlan env MutationResult
plan = claim_plan env store codec name writer 90 false

abbrev pub new_world : World (Table chrono) ℕ
new_world = record { backend = []; host = 0 }
