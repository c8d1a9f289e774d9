-- ===== src/Store/Host.antt =====
-- What crates/combctl takes from elsewhere: clocks, the file system, tokio, and serde_json.
-- The world of a call is the state of the backend and that of the host, which a call passes along.
use comb.Prelude.{ℕ, Bool, Option, List}
use comb.Prelude.Str.{Str}
use comb.Core.Error.{Result}
use comb.Core.Crates.{Hex, Blake3, Chrono}
use comb.Core.Digest.{Digest}
use comb.Core.Refs.{RefValue}
use comb.Core.Commit.{CommitHeader, Commit, Admission, OpIntent}
use comb.Core.Envelope.{MetaJson}
use comb.Object.Backend.{Reader}
use comb.Object.Step.{Step, done}

pub record World (S E : Type 0) : Type 0 where
  pub backend : S
  pub host : E

pub record Host (c : Chrono) (S E : Type 0) : Type 1 where
  -- `Utc::now()`, and the clock of the store.
  pub utc_now : E → c.Time × E
  pub clock_now : E → c.Time × E
  -- The random bytes of `rand::rng().fill_bytes`.
  pub entropy : E → List ℕ × E
  -- `Duration::seconds` of an `i64`, and `(until - now).to_std()`, or a millisecond where it is negative.
  pub Secs : Type 0
  pub seconds : Secs → c.Delta
  pub wait : c.Time → c.Time → c.Delta
  -- `std::fs`: a read gives no bytes where it fails, and a failed write is not noticed.
  pub FilePath : Type 0
  pub join : FilePath → Str → FilePath
  pub read_file : FilePath → E → Option (List ℕ)
  pub file_len : FilePath → E → Option ℕ
  pub open_file : FilePath → E → Option Reader
  pub write_file : FilePath → List ℕ → E → E
  pub quarantine_file : FilePath → E → E
  -- `CancellationToken`, and `select!` of the token, a sleep and a future: no value unless the future
  -- comes first.
  pub Token : Type 0
  pub is_cancelled : Token → E → Bool
  pub select : {T : Type 0} → Token → c.Delta → Step (World S E) T → Step (World S E) (Option T)

-- `serde_json`: values, and the texts and values of the structs that are stored.
pub record Json (c : Chrono) : Type 1 where
  pub Value : Type 0
  pub value_from_slice : List ℕ → Option Value
  pub get : Value → Str → Option Value
  pub as_str : Value → Option Str
  pub is_null : Value → Bool
  pub null : Value
  pub ref_to_vec : RefValue c → Option (List ℕ)
  pub ref_from_slice : List ℕ → Option (RefValue c)
  pub ref_from_value : Value → Option (RefValue c)
  pub intent_to_vec : OpIntent c Value → Option (List ℕ)
  pub intent_from_slice : List ℕ → Option (OpIntent c Value)
  pub commit_to_vec : Commit c Value → Option (List ℕ)
  pub commit_from_value : Value → Option (Commit c Value)
  pub header_from_value : Value → Option (CommitHeader c)
  pub admissions_from_value : Value → Option (List Admission)
  -- `json!({ "first": .., "last": .. })`, and the `change` of each plan of the store.
  pub range_value : ℕ → ℕ → Value
  pub set_target_change : Digest → Value
  pub claim_change : Str → Bool → Value
  pub release_change : Value

-- Everything that is not in the repository, together.
pub record Env (S E : Type 0) : Type 1 where
  pub hex : Hex
  pub blake3 : Blake3
  pub chrono : Chrono
  pub meta_json : MetaJson
  pub json : Json chrono
  pub host : Host chrono S E

module _ {S E : Type 0} where
  -- A call of the backend, whose error is a value.
  abbrev pub ask : {T : Type 0} → (S → Result T × S) → Step (World S E) (Result T)
  ask call w = let (r, after) = call w.backend in (done r, record w { backend = after })

  -- A call of the host that changes nothing, one that returns nothing, and a reading of a clock.
  abbrev pub peek : {T : Type 0} → (E → T) → Step (World S E) T
  peek look w = (done (look w.host), w)

  abbrev pub touch : (E → E) → Step (World S E) (Unit {0})
  touch act w = (done tt, record w { host = act w.host })

  abbrev pub tick : {T : Type 0} → (E → T × E) → Step (World S E) T
  tick clock w = let (t, after) = clock w.host in (done t, record w { host = after })
