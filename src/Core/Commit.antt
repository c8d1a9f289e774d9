-- ===== src/Core/Commit.antt =====
-- crates/comb-core/src/commit.rs: commit headers, intents and the skip pointers of the commit chain.
-- `J` is the type of JSON values.
pub mod Skip
pub mod Validity
use comb.Prelude.{ℕ, ◌-◌, ◌%◌, ◌^◌}
use comb.Prelude.{not, Option, List, []}
use comb.Prelude.{ltb, ◌==◌, if◌then◌else◌, length}
use Prim.Native.Nat.{bit_and}
use comb.Prelude.Str.{Str, str, eqs}
use comb.Core.Error.{Result, ok, err, invalid_format, refuse_if, ◌>>=◌, ◌>>◌}
use comb.Core.Crates.{Hex, Chrono}
use comb.Core.Digest.{Digest}
use comb.Core.Refs.{RefValue, validate_schema}
use comb.Core.Operation.Identity
use comb.Core.Operation.Identity.{OpIdentity, canonical}

abbrev pub commit_schema : Str
commit_schema = str "comb.commit/v1"

abbrev pub intent_schema : Str
intent_schema = str "comb.op-intent/v1"

abbrev pub header_schema : Str
header_schema = str "comb.commit-header/v1"

pub record CommitHeader (c : Chrono) : Type 0 where
  pub schema : Str
  pub resource : Str
  pub generation : ℕ
  pub epoch : ℕ
  pub identity : Str
  pub request : Digest
  pub parent : Option Digest
  pub skip : Option Digest
  pub at : c.Time

pub record Commit (c : Chrono) (J : Type 0) : Type 0 where
  pub schema : Str
  pub header : CommitHeader c
  pub change : J
  pub result : J
  pub ref_state : RefValue c

pub record Admission : Type 0 where
  pub identity : Str
  pub request : Digest
  pub first : ℕ
  pub last : ℕ

pub data IntentState (J : Type 0) : Type 0 where
  pending_state : IntentState J
  applied : ℕ → Digest → J → IntentState J

pub record OpIntent (c : Chrono) (J : Type 0) : Type 0 where
  pub schema : Str
  pub identity : Str
  pub resource : Str
  pub request : Digest
  pub base_generation : ℕ
  pub proposed : List Digest
  pub state : IntentState J
  pub expires_at : Option c.Time

pub record HistoryEntry (c : Chrono) : Type 0 where
  pub generation : ℕ
  pub epoch : ℕ
  pub identity : Str
  pub request : Digest
  pub target : Option Digest
  pub at : c.Time
  pub commit : Digest

module _ (x : Hex) {c : Chrono} where
  -- `CommitHeader::validate`.
  unfoldable pub validate_header : CommitHeader c → Result (Unit {0})
  validate_header h = do
    refuse_if (not (eqs h.schema header_schema))
        (invalid_format "unsupported commit header schema {}")
    Identity.parse x h.identity
    ok tt

  module _ {J : Type 0} where
    -- `Commit::validate`.
    unfoldable pub validate_commit : Commit c J → Result (Unit {0})
    unfolding validate_header
    validate_commit m = do
      refuse_if (not (eqs m.schema commit_schema)) (invalid_format "unsupported commit schema {}")
      validate_schema m.ref_state
      validate_header m.header

    -- `OpIntent::validate`.
    unfoldable pub validate_intent : OpIntent c J → Result (Unit {0})
    validate_intent i = do
      refuse_if (not (eqs i.schema intent_schema)) (invalid_format "unsupported intent schema {}")
      Identity.parse x i.identity
      refuse_if (ltb 64 (length i.proposed))
          (invalid_format "intent {} proposed digest list is unreasonably large")
      ok tt

    -- `OpIntent::pending`.
    unfoldable pub pending : OpIdentity → Str → Digest → ℕ → Option c.Time → OpIntent c J
    pending identity resource request base_generation expires_at = record {
      schema = intent_schema;
      identity = canonical x identity;
      resource = resource;
      request = request;
      base_generation = base_generation;
      proposed = [];
      state = pending_state;
      expires_at = expires_at;
    }

-- `skip_distance`, over `u64`: `generation & generation.wrapping_neg()`.
unfoldable pub skip_distance : ℕ → ℕ
skip_distance generation =
    if generation == 0 then 0 else bit_and generation ((2 ^ 64 - generation) % 2 ^ 64)

-- `skip_target_generation`; the saturating difference is `-`.
unfoldable pub skip_target_generation : ℕ → ℕ
unfolding skip_distance
skip_target_generation generation = generation - skip_distance generation
