-- ===== src/Publish/Head.antt =====
-- crates/combctl/src/publish.rs: reading the head of a ref.
use comb.Prelude.{
  ℕ, Bool, true, false, not, ◌&&◌, ◌||◌, Option, none, some, List, ltb, if◌then◌else◌,
}
use comb.Prelude.Str.{Str, eqs}
use comb.Core.Error.{
  CoreError, Result, ok, err, not_found, invalid_format, recovery_failed, ok_or, refuse_if,
}
use comb.Core.Crates.{Chrono}
use comb.Core.Refs.{RefValue, new_ref, validate_schema}
use comb.Core.Envelope.{max_ref_object_bytes}
use comb.Object.Backend.{Version}
use comb.Object.Step.{core, Step, ◌>>=◌, ◌>>◌, pure, lift, fail}
use comb.Store.Host.{Env, World, ask, tick}
use comb.Store.Keys.{Store, is_v2, ref_key, v1_ref_key}

pub record HeadSnapshot (c : Chrono) : Type 0 where
  pub value : RefValue c
  pub version : Option Version

unfoldable pub is_not_found : CoreError → Bool
is_not_found (not_found k) = true
is_not_found _ = false

is_none : {T : Type 0} → Option T → Bool
is_none none = true
is_none (some t) = false

-- A head beyond generation 0 without its commit.
unfoldable pub lacks_commit : {c : Chrono} → RefValue c → Bool
unfolding is_none
lacks_commit value = ltb 0 value.generation && is_none value.head_commit

module _ {S E : Type 0} (env : Env S E) (store : Store env) where
  -- `Store::reject_v1`.
  unfoldable pub reject_v1 : Str → Step (World S E) (Unit {0})
  reject_v1 name = do
    answer ← ask (store.backend.exists (v1_ref_key env store name))
    there ← lift answer
    lift (refuse_if there (invalid_format "comb/v1 ref {name} exists"))

  -- The checks of `read_head` on a stored ref.
  unfoldable pub check_head : Str → RefValue env.chrono → Step (World S E) (Unit {0})
  unfolding lacks_commit
  check_head name value = do
    lift (validate_schema value)
    lift (
        refuse_if (not (eqs value.tenant store.tenant) || not (eqs value.name name))
          (recovery_failed "ref {name} identity mismatch (stored tenant {} name {})"))
    lift (
        refuse_if (lacks_commit value)
          (recovery_failed "ref {name} generation {} has no head_commit"))

  -- `get` or `get_limited`, by the layout.
  unfoldable pub get_small : Str → Step (World S E) (Result (List ℕ × Version))
  get_small key =
      if is_v2 store.layout
      then ask (store.backend.get key)
      else ask (store.backend.get_limited key max_ref_object_bytes)

  -- `Store::read_head`.
  unfoldable pub read_head : Str → Step (World S E) (Option (HeadSnapshot env.chrono))
  unfolding reject_v1 check_head is_not_found get_small
  read_head name = do
    (if is_v2 store.layout then reject_v1 name else pure tt)
    fetched ← get_small (ref_key env store name)
    elim fetched [
      | err e ↦ if is_not_found e then pure none else fail (core e)
      | ok (bytes, version) ↦ do
        value ← lift (ok_or (env.json.ref_from_slice bytes) (invalid_format "ref {name}: {e}"))
        check_head name value
        pure (some (record { value = value; version = some version }))
    ]

  -- `Store::empty_head`; `RefValue::new` reads the clock.
  unfoldable pub empty_head : Str → Step (World S E) (HeadSnapshot env.chrono)
  empty_head name = do
    now ← tick env.host.utc_now
    pure (record { value = new_ref store.tenant name now; version = none })

  -- `read_head(..).await?.unwrap_or_else(..)`.
  unfoldable pub head_or_empty : Str → Step (World S E) (HeadSnapshot env.chrono)
  unfolding read_head empty_head
  head_or_empty name = do
    head ← read_head name
    elim head [ none ↦ empty_head name | some snapshot ↦ pure snapshot ]
