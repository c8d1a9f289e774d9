-- ===== src/Store/Keys.antt =====
-- crates/combctl/src/store.rs and publish.rs: a store and the keys of its objects.
use comb.Prelude.{Bool, true, false, Option, ◌++◌}
use comb.Prelude.Str.{Str, str, eqs}
use comb.Core.Digest.{Digest, DigestKey, key_prefix}
use comb.Core.Operation.Id.{OperationPolicy}
use comb.Core.Operation.Stable.{to_hex}
use comb.Core.Operation.Identity.{OpIdentity, generic, stable, canonical, shard}
use comb.Object.Backend.{ObjectBackend}
use comb.Store.Host.{Env}
use mathlib.Core.Option

pub data KeyLayout : Type 0 where
  v2 v3 : KeyLayout

abbrev pub ns_v1 : Str
ns_v1 = str "comb/v1"

abbrev pub ns_v2 : Str
ns_v2 = str "comb/v2"

abbrev pub ns_v3 : Str
ns_v3 = str "comb/v3"

-- `KeyLayout::prefix`.
unfoldable pub layout_prefix : KeyLayout → Str
layout_prefix v2 = ns_v2
layout_prefix v3 = ns_v3

-- `self.layout == KeyLayout::V2`.
abbrev pub is_v2 : KeyLayout → Bool
is_v2 v2 = true
is_v2 v3 = false

-- `==` on digests.
abbrev pub same_digest : Digest → Digest → Bool
same_digest d e = eqs d.hex e.hex

pub record Store {S E : Type 0} (env : Env S E) : Type 0 where
  pub backend : ObjectBackend env.chrono S
  pub tenant : Str
  pub key : DigestKey
  pub cache_dir : Option env.host.FilePath
  pub policy : OperationPolicy env.chrono
  pub layout : KeyLayout

module _ {S E : Type 0} (env : Env S E) (store : Store env) where
  -- `Store::object_key`.
  unfoldable pub object_key : Digest → Str
  unfolding layout_prefix key_prefix
  object_key d =
      layout_prefix store.layout
      ++ str "/tenants/"
      ++ store.tenant
      ++ str "/objects/b3k/"
      ++ key_prefix d
      ++ str "/"
      ++ d.hex

  -- `Store::ref_key`.
  unfoldable pub ref_key : Str → Str
  unfolding layout_prefix
  ref_key name =
      layout_prefix store.layout
      ++ str "/tenants/"
      ++ store.tenant
      ++ str "/refs/"
      ++ name
      ++ str ".json"

  -- `Store::v1_ref_key`.
  unfoldable pub v1_ref_key : Str → Str
  v1_ref_key name = ns_v1 ++ str "/tenants/" ++ store.tenant ++ str "/refs/" ++ name ++ str ".json"

  -- `Store::intent_key`.
  unfoldable pub intent_key : OpIdentity → Str
  unfolding layout_prefix canonical shard to_hex
  intent_key (generic op) =
      layout_prefix store.layout
      ++ str "/tenants/"
      ++ store.tenant
      ++ str "/ops/"
      ++ shard env.hex env.blake3 (generic op)
      ++ str "/"
      ++ canonical env.hex (generic op)
      ++ str ".json"
  intent_key (stable k) =
      layout_prefix store.layout
      ++ str "/tenants/"
      ++ store.tenant
      ++ str "/stable/"
      ++ to_hex env.hex k
      ++ str ".json"

  -- `Store::cache_path`.
  unfoldable pub cache_path : Digest → Option env.host.FilePath
  cache_path d =
      Option.map
        (λ dir. elim store.layout [
          | v2 ↦ env.host.join dir d.hex
          | v3 ↦ env.host.join (env.host.join dir (str "comb-v3")) d.hex
        ])
        store.cache_dir
