-- ===== src/Catalog/Stored.antt =====
-- crates/combctl/src/catalog.rs over crates/combctl/src/store.rs: what a node that is put or loaded is.
use comb.Prelude.{ℕ, ◌≡◌, sym, ap, ◌∙◌, Option, none, some, List, arith, ltb, length, inl, inr}
use comb.Prelude.Str.{Str}
use comb.Core.Crates.{Hex, Blake3}
use comb.Core.Error.{ok}
use comb.Core.Digest.{Digest, DigestKey, digest}
use comb.Core.Envelope.{ObjectKind, blob, Envelope, new_envelope}
use comb.Object.Step.{done}
use comb.Object.Step.Inversion.{
  continue-eq_done, lift-eq_done, if-cases, match_option-cases, map_err-eq_done, pure-inj,
  ok_or-eq_ok,
}
use comb.Store.Host.{Env, World}
use comb.Store.Keys.{Store}
use comb.Store.Blobs.{GetSource, stamp, put_object, get_blob_limited}
use comb.Store.Blobs.Authentic.{get_blob_limited-IsBounded}
use comb.Catalog.Node.{CatalogNode, validate, catalog_node_schema, max_catalog_node_object_bytes}
use comb.Catalog.Objects.{CatalogJson, unwrap, spec, put_node, load_node, map_catalog_read_error}
use comb.Catalog.Tree.{Holds}

-- What serde_json reads of the text of a node, where it can, is the node that was written.
unfoldable pub ReadsWritten : CatalogJson → Type 0
ReadsWritten json =
    (node read : CatalogNode) (text : List ℕ)
    → json.node_to_vec node ≡ some text
    → json.node_from_slice text ≡ some read
    → read ≡ node

-- BLAKE3 takes no digest twice on the known texts.
unfoldable pub NoCollision : Hex → Blake3 → DigestKey → (List ℕ → Type 0) → Type 0
NoCollision x b key known =
    (p q : List ℕ) → known p → known q → digest x b key p ≡ digest x b key q → p ≡ q

pub unwrap-eq_done :
    {W T : Type 0} (o : Option T) (w : W) {t : T} {after : W}
    → unwrap o w ≡ (done t, after)
    → o ≡ some t
unfolding unwrap
unwrap-eq_done none w h = absurd (ground arith)
unwrap-eq_done (some t') w h = ap some (pure-inj h)

module _ {S E : Type 0} (env : Env S E) (store : Store env) (json : CatalogJson) where
  stamp-eq_done :
      (kind : ObjectKind) (schema : Str) (payload : List ℕ) (w after : World S E)
      (envelope : Envelope)
      → stamp env store kind schema payload w ≡ (done envelope, after)
      → envelope.meta.digest ≡ digest env.hex env.blake3 store.key payload
  unfolding stamp new_envelope
  stamp-eq_done kind schema payload w after envelope h =
      let (now, w1, e1, h1) = continue-eq_done _ _ h in
      ap (λ (e : Envelope). e.meta.digest) (sym (pure-inj h1))

  put_object-eq_done :
      (kind : ObjectKind) (schema : Str) (payload : List ℕ) (limit : ℕ) (w after : World S E)
      (d : Digest)
      → put_object env store kind schema payload limit w ≡ (done d, after)
      → digest env.hex env.blake3 store.key payload ≡ d
  unfolding put_object
  put_object-eq_done kind schema payload limit w after d h =
      let (envelope, w1, e1, h1) = continue-eq_done _ _ h in
      let (bytes, w2, e2, h2) = continue-eq_done _ _ h1 in
      elim (if-cases (ltb limit (length bytes)) _ _ h2) [
        | inl (_, h3) ↦ absurd (ground arith)
        | inr (_, h3) ↦
            let (dedup, w4, e4, h4) = continue-eq_done _ _ h3 in
            sym (stamp-eq_done kind schema payload w w1 envelope e1) ∙ pure-inj h4
      ]

  -- The texts of nodes that the store ever serves or accepts are known.
  pub record KeepsTo (known : List ℕ → Type 0) : Type 0 where
    pub served :
        (d : Digest) (found : List ℕ × GetSource) (w after : World S E)
        → get_blob_limited env store d (spec env store json) w ≡ (done found, after)
        → known found.0
    pub accepted :
        (text : List ℕ) (d : Digest) (w after : World S E)
        → put_object env store blob catalog_node_schema text max_catalog_node_object_bytes w
          ≡ (done d, after)
        → known text

  module _ (known : List ℕ → Type 0) (keeps : KeepsTo known) where
    -- A node that is put is written in a known text of the digest that is returned.
    pub put_node-Holds :
        (node : CatalogNode) (w after : World S E) (d : Digest)
        → put_node env store json node w ≡ (done d, after)
        → Holds env.hex env.blake3 store.key json known d node
    unfolding put_node
    put_node-Holds node w after d h =
        let (u, w1, e1, h1) = continue-eq_done _ _ h in
        let (text, w2, e2, h2) = continue-eq_done _ _ h1 in
        elim (match_option-cases (json.node_to_vec node) _ _ e2) [
          | inl (_, h3) ↦ absurd (ground arith)
          | inr (t, q, h3) ↦ (
            text,
            keeps.accepted text d _ _ h2,
            put_object-eq_done _ _ _ _ _ _ _ h2,
            inr (q ∙ ap some (pure-inj h3)),
          )
        ]

    -- A node that is loaded passed `validate`, and was read from a known text of the digest.
    pub load_node-read :
        (d : Digest) (w after : World S E) (node : CatalogNode)
        → load_node env store json d w ≡ (done node, after)
        → (text : List ℕ) × known text
          × (digest env.hex env.blake3 store.key text ≡ d)
          × (json.node_from_slice text ≡ some node)
          × (validate node ≡ ok tt)
    unfolding load_node
    load_node-read d w after node h =
        let (found, w1, e1, h1) = continue-eq_done _ _ h in
        let (read, w2, e2, h2) = continue-eq_done _ _ h1 in
        let (u, w3, e3, h3) = continue-eq_done _ _ h2 in
        let got =
          map_err-eq_done map_catalog_read_error
            (get_blob_limited env store d (spec env store json)) w w1 found e1 in
        let (plain, _) =
          get_blob_limited-IsBounded env store d (spec env store json) found.0 found.1 w w1 got in
        let (parsed, _) = lift-eq_done _ w1 e2 in
        let (valid, _) = lift-eq_done _ w2 e3 in
        (
          found.0,
          keeps.served d found w w1 got,
          plain,
          ok_or-eq_ok _ _ read parsed ∙ ap some (pure-inj h3),
          ap validate (sym (pure-inj h3)) ∙ valid,
        )

    module _ (written : ReadsWritten json)
        (unique : NoCollision env.hex env.blake3 store.key known) where
      -- A load that succeeds gives the node that the digest holds.
      pub load_node-is :
          (d : Digest) (w after : World S E) (node held : CatalogNode)
          → load_node env store json d w ≡ (done node, after)
          → Holds env.hex env.blake3 store.key json known d held
          → node ≡ held
      unfolding ReadsWritten NoCollision
      load_node-is d w after node held h (p, kp, e, inl r) =
          let (q, kq, e', r', _) = load_node-read d w after node h in
          let same : q ≡ p = unique q p kq kp (e' ∙ sym e) in
          let both : some node ≡ some held = sym r' ∙ ap json.node_from_slice same ∙ r in
          ground (arith, both)
      load_node-is d w after node held h (p, kp, e, inr r) =
          let (q, kq, e', r', _) = load_node-read d w after node h in
          let same : q ≡ p = unique q p kq kp (e' ∙ sym e) in
          written held node p r (ap json.node_from_slice (sym same) ∙ r')
