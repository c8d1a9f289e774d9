-- ===== src/Publish/View.antt =====
-- crates/combctl/src/publish.rs: commit objects as views, and what a publication tells its caller.
pub mod Consistent
use comb.Prelude.{
  ℕ, Bool, true, false, not, ◌&&◌, ◌||◌, Option, none, some, List, [], ◌∷◌, ◌==◌, if◌then◌else◌,
  ◌*◌,
}
use comb.Prelude.Str.{Str, str, eqs}
use comb.Core.Error.{
  CoreError, Result, ok, err, backend_unavailable, io, not_found, integrity_error, recovery_failed,
  idempotency_conflict, ok_or, refuse_if, ◌>>=◌, ◌>>◌,
}
use comb.Core.Crates.{Chrono}
use comb.Core.Digest
use comb.Core.Digest.{Digest}
use comb.Core.Refs.{RefValue}
use comb.Core.Operation.Id.{OperationPolicy, expires_at}
use comb.Core.Operation.Identity.{OpIdentity, generic, stable, canonical}
use comb.Core.Commit.{
  CommitHeader, Commit, Admission, commit_schema, header_schema, validate_header, validate_commit,
}
use comb.Core.Envelope.{max_manifest_object_bytes}
use comb.Core.Envelope.Bounded.{contains}
use comb.Object.Step.{AnyError, core, other}
use comb.Store.Host.{Env}
use comb.Store.Keys.{same_digest}
use mathlib.Core.Option

abbrev pub log_manifest_schema : Str
log_manifest_schema = str "comb.log.partition-manifest/v2"

abbrev pub log_manifest_schema_v3 : Str
log_manifest_schema_v3 = str "comb.log.partition-manifest/v3"

abbrev pub log_manifest_carriers : List Str
log_manifest_carriers = log_manifest_schema ∷ log_manifest_schema_v3 ∷ []

abbrev pub commit_view_envelopes : List Str
commit_view_envelopes =
    commit_schema ∷ log_manifest_schema ∷ log_manifest_schema_v3 ∷ str "comb.object/v1" ∷ []

abbrev pub max_chunk_object_bytes : ℕ
max_chunk_object_bytes = 4 * 1024 * 1024

pub record CommitView (c : Chrono) (J : Type 0) : Type 0 where
  pub digest : Digest
  pub header : CommitHeader c
  pub result : J
  pub admitted : List Admission
  pub ref_state : Option (RefValue c)
  pub target_follows_commit : Bool

pub record Published (c : Chrono) (T : Type 0) : Type 0 where
  pub outcome : T
  pub generation : ℕ
  pub epoch : ℕ
  pub commit : Digest
  pub value : RefValue c
  pub first_delivery : Bool
  pub admitted : List Admission

-- `Serialize` and `DeserializeOwned` of an outcome.
pub record Codec (J T : Type 0) : Type 0 where
  pub to_value : T → Option J
  pub from_value : J → Option T

-- `map_commit_read_error`.
unfoldable pub map_commit_read_error : AnyError → AnyError
map_commit_read_error (core (backend_unavailable m)) =
    core (backend_unavailable "commit {digest}: {m}")
map_commit_read_error (core (io m)) = core (backend_unavailable "commit {digest}: {io}")
map_commit_read_error (core (not_found k)) = core (integrity_error "commit {digest} is missing")
map_commit_read_error (core e) = core (recovery_failed "commit {digest} unreadable: {other}")
map_commit_read_error (other m) = core (recovery_failed "commit {digest} unreadable: {e:#}")

-- `encoded_object_cap`.
unfoldable pub encoded_object_cap : Str → ℕ
encoded_object_cap schema =
    if contains log_manifest_carriers schema || eqs schema commit_schema || eqs schema header_schema
    then max_manifest_object_bytes
    else max_chunk_object_bytes

-- `durable_ref_state`.
unfoldable pub durable_ref_state : {c : Chrono} → RefValue c → RefValue c
durable_ref_state next = record next { head_commit = none }

-- `intent_expiry`.
unfoldable pub intent_expiry : (c : Chrono) → OpIdentity → OperationPolicy c → Option c.Time
intent_expiry c (generic op) policy = some (expires_at c op policy)
intent_expiry c (stable k) policy = none

-- `admitted.iter().find(|a| a.identity == id)`.
unfoldable pub find_admission : Str → List Admission → Option Admission
find_admission id [] = none
find_admission id (a ∷ rest) = if eqs a.identity id then some a else find_admission id rest

-- `admitted.iter().any(|a| a.identity == id && a.request == *request)`.
unfoldable pub admits : Str → Digest → List Admission → Bool
admits id request [] = false
admits id request (a ∷ rest) =
    (eqs a.identity id && same_digest a.request request) || admits id request rest

module _ {S E : Type 0} (env : Env S E) where
  abbrev pub View : Type 0
  View = CommitView env.chrono env.json.Value

  -- `require_v3_field`.
  unfoldable pub require_v3_field : env.json.Value → Str → Result env.json.Value
  require_v3_field value field =
      ok_or (env.json.get value field) (integrity_error "v3 manifest {digest} is missing {field}")

  -- The `admitted`, `result` and `ref_state` of a v3 manifest.
  unfoldable pub v3_parts :
      env.json.Value → Result (List Admission × env.json.Value × Option (RefValue env.chrono))
  unfolding require_v3_field
  v3_parts value = do
    require_v3_field value (str "log")
    require_v3_field value (str "stable_admissions")
    admitted_v ← require_v3_field value (str "admitted")
    result_v ← require_v3_field value (str "result")
    ref_state_v ← require_v3_field value (str "ref_state")
    admitted ←
        ok_or (env.json.admissions_from_value admitted_v)
          (integrity_error "admitted in v3 {digest}: {e}")
    refuse_if (env.json.is_null ref_state_v)
        (integrity_error "v3 manifest {digest} is missing ref_state")
    ref_state ←
        ok_or (env.json.ref_from_value ref_state_v)
          (integrity_error "ref_state in v3 {digest}: {e}")
    ok (admitted, result_v, some ref_state)

  -- Those of a v2 manifest, where each may be absent.
  unfoldable pub v2_parts :
      env.json.Value → Result (List Admission × env.json.Value × Option (RefValue env.chrono))
  v2_parts value = do
    admitted ← elim (env.json.get value (str "admitted")) [
      | none ↦ ok []
      | some v ↦
          ok_or (env.json.admissions_from_value v) (recovery_failed "admitted in {digest}: {e}")
    ]
    ref_state ← elim (env.json.get value (str "ref_state")) [
      | none ↦ ok none
      | some v ↦ if env.json.is_null v then ok none else (do
        state ← ok_or (env.json.ref_from_value v) (recovery_failed "ref_state in {digest}: {e}")
        ok (some state))
    ]
    ok (admitted, Option.get_or (env.json.get value (str "result")) env.json.null, ref_state)

  -- The commit arm of `load_commit_view`.
  unfoldable pub commit_view : Digest → env.json.Value → Result View
  commit_view d value = do
    commit ←
        ok_or (env.json.commit_from_value value) (recovery_failed "commit {digest} schema: {e}")
    validate_commit env.hex commit
    ok (record {
      digest = d;
      header = commit.header;
      result = commit.result;
      admitted = [];
      ref_state = some commit.ref_state;
      target_follows_commit = false;
    })

  -- The manifest arm.
  unfoldable pub manifest_view : Digest → Str → env.json.Value → Result View
  unfolding v3_parts v2_parts
  manifest_view d schema value = do
    header_v ←
        ok_or (env.json.get value (str "header"))
          (recovery_failed "manifest {digest} has no commit header")
    header ← ok_or (env.json.header_from_value header_v) (recovery_failed "header in {digest}: {e}")
    validate_header env.hex header
    (admitted, result, ref_state) ←
        (if eqs schema log_manifest_schema_v3 then v3_parts value else v2_parts value)
    ok (record {
      digest = d;
      header = header;
      result = result;
      admitted = admitted;
      ref_state = ref_state;
      target_follows_commit = true;
    })

  -- `value.get("schema").and_then(|s| s.as_str())`.
  unfoldable pub schema_of : env.json.Value → Option Str
  schema_of value = elim (env.json.get value (str "schema")) [
    | none ↦ none
    | some v ↦ env.json.as_str v
  ]

  -- `load_commit_view` behind the read of the object.
  unfoldable pub view_of_payload : Digest → List ℕ → Result View
  unfolding schema_of commit_view manifest_view
  view_of_payload d payload = do
    value ←
        ok_or (env.json.value_from_slice payload)
          (recovery_failed "commit {digest} is not JSON: {e}")
    schema ← ok_or (schema_of value) (recovery_failed "object {digest} has no schema")
    (if eqs schema commit_schema then commit_view d value else (do
      refuse_if (not (contains log_manifest_carriers schema))
          (recovery_failed "object {digest} has unknown commit schema {schema}")
      manifest_view d schema value))

  -- `identity_in_commit`.
  unfoldable pub identity_in_commit : View → OpIdentity → Bool
  unfolding find_admission
  identity_in_commit view identity =
      let id = canonical env.hex identity in
      eqs view.header.identity id
      || (elim (find_admission id view.admitted) [ none ↦ false | some a ↦ true ])

  -- `view.header.request != *request && !view.admitted.iter().any(..)`.
  unfoldable pub other_request : View → OpIdentity → Digest → Bool
  unfolding admits
  other_request view identity request =
      not (same_digest view.header.request request)
      && not (admits (canonical env.hex identity) request view.admitted)

  -- `outcome_from_view`.
  unfoldable pub outcome_from_view :
      {T : Type 0} → Codec env.json.Value T → View → OpIdentity → Result T
  unfolding find_admission
  outcome_from_view codec view identity =
      let id = canonical env.hex identity in
      if eqs view.header.identity id && not (env.json.is_null view.result)
      then ok_or (codec.from_value view.result) (recovery_failed "commit result for {id}: {e}")
      else elim (find_admission id view.admitted) [
        | some a ↦
            ok_or (codec.from_value (env.json.range_value a.first a.last))
              (recovery_failed "admission result for {id}: {e}")
        | none ↦ err (recovery_failed "commit does not record {id}")
      ]

  -- `published_from_view`.
  unfoldable pub published_from_view :
      {T : Type 0}
      → Codec env.json.Value T
      → View
      → OpIdentity
      → Str
      → Bool
      → Result (Published env.chrono T)
  unfolding outcome_from_view
  published_from_view codec view identity tenant first_delivery = do
    outcome ← outcome_from_view codec view identity
    value ← ok_or view.ref_state (recovery_failed "commit {} is missing the original ref state")
    refuse_if (not (eqs value.tenant tenant) || not (eqs value.name view.header.resource))
        (recovery_failed "commit {} ref state identity {}/{} does not match {tenant}/{}")
    refuse_if
        (not (value.generation == view.header.generation) || not (value.epoch == view.header.epoch))
        (recovery_failed "commit {} ref state generation/epoch {}/{} disagrees with header {}/{}")
    ok (record {
      outcome = outcome;
      generation = view.header.generation;
      epoch = view.header.epoch;
      commit = view.digest;
      value =
          (if view.target_follows_commit
            then record value { head_commit = some view.digest; target = some view.digest }
            else record value { head_commit = some view.digest });
      first_delivery = first_delivery;
      admitted = view.admitted;
    })

  -- The conflict of an identity that was used for another request.
  unfoldable pub conflict : OpIdentity → Digest → Digest → CoreError
  conflict identity original supplied =
      idempotency_conflict (canonical env.hex identity) (Digest.to_string original)
        (Digest.to_string supplied)
