-- ===== src/Object/Memory.antt =====
-- crates/comb-object/src/memory.rs: the in-memory backend.
-- The hash map is a list of keys and entries; `Utc::now()` is an argument.
pub mod Table
pub mod Tokens
pub mod Reads
use comb.Prelude.{ℕ, ◌+◌, ◌%◌, ◌^◌}
use comb.Prelude.{Bool, true, false, Option, none, some, List, [], ◌∷◌}
use comb.Prelude.{ltb, if◌then◌else◌, length}
use comb.Prelude.Str.{Str, eqs, starts_with}
use comb.Prelude.Decimal.{to_string}
use comb.Core.Error.{
  CoreError, Result, ok, err, not_found, already_exists, precondition_failed, ◌>>=◌,
}
use comb.Core.Crates.{Chrono}
use comb.Object.Backend.{Version, ObjectInfo, ObjectBackend, too_large}

pub record Entry (c : Chrono) : Type 0 where
  pub body : List ℕ
  pub version : ℕ
  pub modified : c.Time

abbrev pub Table : Chrono → Type 0
Table c = List (Str × Entry c)

-- The token of a version counter.
abbrev pub version_of : ℕ → Version
version_of v = record { token = to_string v }

module _ {c : Chrono} where
  -- `HashMap::get`.
  unfoldable pub find : Str → Table c → Option (Entry c)
  find key [] = none
  find key ((k, e) ∷ rest) = if eqs k key then some e else find key rest

  -- `HashMap::insert`.
  unfoldable pub insert : Str → Entry c → Table c → Table c
  insert key e [] = (key, e) ∷ []
  insert key e ((k, f) ∷ rest) = if eqs k key then (key, e) ∷ rest else (k, f) ∷ insert key e rest

  -- `HashMap::remove`.
  unfoldable pub remove : Str → Table c → Table c
  remove key [] = []
  remove key ((k, f) ∷ rest) =
      let others = remove key rest in if eqs k key then others else (k, f) ∷ others

  unfoldable pub put_create : Str → List ℕ → c.Time → Table c → Result Version × Table c
  put_create key body now s = elim (find key s) [
    | some e ↦ (err (already_exists key), s)
    | none ↦ (ok (version_of 1), insert key (record { body = body; version = 1; modified = now }) s)
  ]

  -- The arm of `put_update` where both the object and an expected version are there. The counter is
  -- a `u64`.
  unfoldable pub replace :
      Str → Entry c → Version → List ℕ → c.Time → Table c → Result Version × Table c
  replace key live expected body now s =
      if eqs expected.token (to_string live.version)
      then (let next = (live.version + 1) % 2 ^ 64 in
          (
            ok (version_of next),
            insert key (record { body = body; version = next; modified = now }) s,
          ))
      else (err (precondition_failed "{key}: expected version {}, live {v}"), s)

  unfoldable pub put_update :
      Str → Option Version → List ℕ → c.Time → Table c → Result Version × Table c
  unfolding replace
  put_update key expected body now s = elim (find key s) [
    | none ↦ elim expected [
      | none ↦
          (ok (version_of 1), insert key (record { body = body; version = 1; modified = now }) s)
      | some v ↦ (err (precondition_failed "{key}: gone"), s)
    ]
    | some live ↦ elim expected [
      | none ↦ (err (already_exists key), s)
      | some v ↦ replace key live v body now s
    ]
  ]

  unfoldable pub get : Str → Table c → Result (List ℕ × Version) × Table c
  get key s = elim (find key s) [
    | none ↦ (err (not_found key), s)
    | some e ↦ (ok (e.body, version_of e.version), s)
  ]

  unfoldable pub get_limited : Str → ℕ → Table c → Result (List ℕ × Version) × Table c
  get_limited key limit s = elim (find key s) [
    | none ↦ (err (not_found key), s)
    | some e ↦
        if ltb limit (length e.body)
        then (err (too_large key limit (some (length e.body))), s)
        else (ok (e.body, version_of e.version), s)
  ]

  unfoldable pub exists : Str → Table c → Result Bool × Table c
  exists key s = (ok (elim (find key s) [ none ↦ false | some e ↦ true ]), s)

  unfoldable pub delete : Str → Table c → Result (Unit {0}) × Table c
  delete key s = (ok tt, remove key s)

  -- The keys in the order of the list, which a hash map leaves open.
  unfoldable pub infos : Str → Table c → List (ObjectInfo c)
  infos prefix [] = []
  infos prefix ((k, e) ∷ rest) =
      let more = infos prefix rest in
      if starts_with prefix k then record { key = k; modified = e.modified } ∷ more else more

  unfoldable pub list_keys : Str → Table c → Result (List (ObjectInfo c)) × Table c
  unfolding infos
  list_keys prefix s = (ok (infos prefix s), s)

unfoldable pub memory_backend : (c : Chrono) → ObjectBackend c (Table c)
memory_backend c = record {
  put_create = put_create;
  put_update = put_update;
  get = get;
  get_limited = get_limited;
  exists = exists;
  delete = delete;
  list_keys = list_keys;
}
