-- ===== src/Catalog/Objects.antt =====
-- crates/combctl/src/catalog.rs: catalog nodes as objects of a store.
use comb.Prelude.{ℕ, Option, none, some, List, [], ◌∷◌}
use comb.Core.Error.{backend_unavailable, io, not_found, integrity_error, ok_or}
use comb.Core.Digest.{Digest}
use comb.Core.Envelope.{EnvelopeReadSpec, blob}
use comb.Object.Step.{AnyError, core, other, Step, ◌>>=◌, ◌>>◌, pure, lift, fail, map_err}
use comb.Store.Host.{Env, World}
use comb.Store.Keys.{Store}
use comb.Store.Blobs.{put_object, get_blob_limited}
use comb.Catalog.Node.{CatalogNode, validate, catalog_node_schema, max_catalog_node_object_bytes}

-- serde_json on catalog nodes.
pub record CatalogJson : Type 0 where
  pub node_to_vec : CatalogNode → Option (List ℕ)
  pub node_from_slice : List ℕ → Option CatalogNode

-- `map_catalog_read_error`.
unfoldable pub map_catalog_read_error : AnyError → AnyError
map_catalog_read_error (core (backend_unavailable m)) =
    core (backend_unavailable "catalog node {digest}: {m}")
map_catalog_read_error (core (io m)) = core (backend_unavailable "catalog node {digest}: {io}")
map_catalog_read_error (core (not_found k)) =
    core (integrity_error "catalog node {digest} is missing")
map_catalog_read_error (core e) = core e
map_catalog_read_error (other m) = core (integrity_error "catalog node {digest}: {e:#}")

-- `unwrap` and `expect`.
unfoldable pub unwrap : {W T : Type 0} → Option T → Step W T
unwrap none = fail (other "called `Option::unwrap()` on a `None` value")
unwrap (some t) = pure t

module _ {S E : Type 0} (env : Env S E) (store : Store env) (json : CatalogJson) where
  -- `spec`.
  unfoldable pub spec : EnvelopeReadSpec
  spec = record {
    tenant = store.tenant;
    kind = blob;
    allowed_schemas = catalog_node_schema ∷ [];
    max_encoded_bytes = max_catalog_node_object_bytes;
    max_plaintext_bytes = max_catalog_node_object_bytes;
  }

  -- `put_node`.
  unfoldable pub put_node : CatalogNode → Step (World S E) Digest
  put_node node = do
    lift (validate node)
    payload ← elim (json.node_to_vec node) [
      | none ↦ fail (other "serde_json")
      | some text ↦ pure text
    ]
    put_object env store blob catalog_node_schema payload max_catalog_node_object_bytes

  -- `load_node`.
  unfoldable pub load_node : Digest → Step (World S E) CatalogNode
  load_node digest = do
    found ← map_err map_catalog_read_error (get_blob_limited env store digest spec)
    node ← lift (
        ok_or (json.node_from_slice found.0)
          (integrity_error "catalog node {digest} is malformed: {e}"))
    lift (validate node)
    pure node
