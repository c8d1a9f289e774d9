-- ===== src/Core/Refs.antt =====
-- crates/comb-core/src/refs.rs: the value of a named ref, its lease and its journal entries.
use comb.Prelude.{ℕ}
use comb.Prelude.{Bool, false, not, Option, none, some}
use comb.Prelude.Str.{Str, str, eqs}
use comb.Core.Error.{Result, invalid_format, refuse_if}
use comb.Core.Crates.{Chrono}
use comb.Core.Digest.{Digest}

pub record Lease (c : Chrono) : Type 0 where
  pub writer : Str
  pub lease_until : c.Time

pub record RefValue (c : Chrono) : Type 0 where
  pub schema : Str
  pub tenant : Str
  pub name : Str
  pub generation : ℕ
  pub epoch : ℕ
  pub target : Option Digest
  pub lease : Option (Lease c)
  pub updated_at : c.Time
  pub head_commit : Option Digest

pub record RefJournalEntry (c : Chrono) : Type 0 where
  pub schema : Str
  pub ref_name : Str
  pub prev_generation : ℕ
  pub new_generation : ℕ
  pub epoch : ℕ
  pub target : Option Digest
  pub writer : Option Str
  pub parent : Option Digest
  pub at : c.Time

-- `RefValue::SCHEMA`.
abbrev pub ref_schema : Str
ref_schema = str "comb.ref/v2"

module _ {c : Chrono} where
  -- `RefValue::new`; the time is that of the call.
  unfoldable pub new_ref : Str → Str → c.Time → RefValue c
  new_ref tenant name now = record {
    schema = ref_schema;
    tenant = tenant;
    name = name;
    generation = 0;
    epoch = 0;
    target = none;
    lease = none;
    updated_at = now;
    head_commit = none;
  }

  -- `RefValue::validate_schema`.
  unfoldable pub validate_schema : RefValue c → Result (Unit {0})
  validate_schema r =
      refuse_if (not (eqs r.schema ref_schema))
        (invalid_format "unsupported ref schema {} (want {})")

  -- `RefValue::lease_live`: `lease_until > now`.
  unfoldable pub lease_live : RefValue c → c.Time → Bool
  lease_live r now = elim r.lease [ none ↦ false | some l ↦ c.before now l.lease_until ]
