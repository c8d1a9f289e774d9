-- ===== src/Tests/Catalogs.antt =====
-- A toy reader and writer of catalog nodes, and a store whose digests are the first bytes of the texts.
mod Runs
use comb.Prelude.{
  ℕ, zero, suc, ◌≡◌, refl, sym, ap, ◌∙◌, Option, none, some, List, [], ◌∷◌, length, take, ltb, ◌++◌,
  ◌%◌, ◌^◌, Option-cases, Bool-cases, ◌≤◌, arith, inl, inr,
}
use comb.Prelude.{length-append}
use comb.Prelude.Str.{Str}
use comb.Core.Crates.{Hex, Blake3}
use comb.Core.Digest.{Digest, digest}
use comb.Core.Error.{ok}
use comb.Core.Envelope.{
  MetaJson, Envelope, blob, new_envelope, encode, magic, envelope_version, u16_le, u32_le,
  max_envelope_meta_bytes,
}
use comb.Object.Memory.{Table}
use comb.Object.Step.{done}
use comb.Object.Step.Inversion.{continue-eq_done, lift-eq_done, if-cases, pure-inj}
use comb.Store.Host.{Env, World}
use comb.Store.Blobs.{stamp, put_object}
use comb.Store.Blobs.Authentic.{get_blob_limited-IsBounded}
use comb.Store.Keys.{Store, v3}
use comb.Catalog.Node.{
  CatalogSchemaV1, v1, CatalogChunkRef, CatalogChild, CatalogNode, leaf, branch,
  catalog_node_schema, max_catalog_node_object_bytes,
}
use comb.Catalog.Objects.{CatalogJson, spec}
use comb.Catalog.Stored.{ReadsWritten, NoCollision, KeepsTo}
use comb.Tests.Json.{write_text, read_text, read_text-write_text}
use comb.Tests.Stores
use mathlib.Core.Option
use mathlib.Core.Path.{subst}

write_refs : List CatalogChunkRef → List ℕ
write_refs [] = []
write_refs (r ∷ rest) = write_text r.digest.hex (
    r.first_seq
    ∷ r.last_seq
    ∷ r.event_count
    ∷ r.raw_payload_bytes
    ∷ r.plaintext_bytes
    ∷ write_refs rest)

write_children : List CatalogChild → List ℕ
write_children [] = []
write_children (c ∷ rest) =
    write_text c.digest.hex (c.first_seq ∷ c.last_seq ∷ c.chunk_count ∷ write_children rest)

-- The numbers behind a text, and the items behind them.
ref_of : Str → List ℕ → (List ℕ → Option (List CatalogChunkRef)) → Option (List CatalogChunkRef)
ref_of hex (first ∷ last ∷ count ∷ raw ∷ plain ∷ rest) more =
    Option.map
      (λ l.
        record {
          digest = record { hex = hex };
          first_seq = first;
          last_seq = last;
          event_count = count;
          raw_payload_bytes = raw;
          plaintext_bytes = plain;
        }
        ∷ l)
      (more rest)
ref_of hex _ more = none

child_at : Str → List ℕ → (List ℕ → Option (List CatalogChild)) → Option (List CatalogChild)
child_at hex (first ∷ last ∷ count ∷ rest) more =
    Option.map
      (λ l.
        record {
          digest = record { hex = hex };
          first_seq = first;
          last_seq = last;
          chunk_count = count;
        }
        ∷ l)
      (more rest)
child_at hex _ more = none

read_refs : ℕ → List ℕ → Option (List CatalogChunkRef)
unfolding ref_of read_text
read_refs zero text = some []
read_refs (suc n) text = ref_of (read_text text).0 (read_text text).1 (read_refs n)

read_children : ℕ → List ℕ → Option (List CatalogChild)
unfolding child_at read_text
read_children zero text = some []
read_children (suc n) text = child_at (read_text text).0 (read_text text).1 (read_children n)

read_refs-write_refs :
    (refs : List CatalogChunkRef) → read_refs (length refs) (write_refs refs) ≡ some refs
unfolding read_refs write_refs
read_refs-write_refs [] = refl
read_refs-write_refs (r ∷ rest) = rw (
  read_text-write_text r.digest.hex (
      r.first_seq
      ∷ r.last_seq
      ∷ r.event_count
      ∷ r.raw_payload_bytes
      ∷ r.plaintext_bytes
      ∷ write_refs rest),
  read_refs-write_refs rest,
)

read_children-write_children :
    (cs : List CatalogChild) → read_children (length cs) (write_children cs) ≡ some cs
unfolding read_children write_children
read_children-write_children [] = refl
read_children-write_children (c ∷ rest) = rw (
  read_text-write_text c.digest.hex
      (c.first_seq ∷ c.last_seq ∷ c.chunk_count ∷ write_children rest),
  read_children-write_children rest,
)

unfoldable pub write_node : CatalogNode → List ℕ
unfolding write_refs write_children write_text
write_node (leaf schema refs) = 0 ∷ length refs ∷ write_refs refs
write_node (branch schema height children) = 1 ∷ length children ∷ height ∷ write_children children

unfoldable pub read_node : List ℕ → Option CatalogNode
unfolding read_refs read_children
read_node (zero ∷ n ∷ text) = Option.map (leaf v1) (read_refs n text)
read_node (suc m ∷ n ∷ height ∷ text) = Option.map (branch v1 height) (read_children n text)
read_node _ = none

abbrev pub catalog_json : CatalogJson
catalog_json = record { node_to_vec = λ n. some (write_node n); node_from_slice = read_node }

reads_back :
    (node : CatalogNode) (text : List ℕ)
    → some (write_node node) ≡ some text
    → read_node text ≡ some node
unfolding write_node read_node
reads_back (leaf v1 refs) text h =
    let same : 0 ∷ length refs ∷ write_refs refs ≡ text = cc in
    subst (λ t. read_node t ≡ some (leaf v1 refs)) same (rw (read_refs-write_refs refs) refl)
reads_back (branch v1 height cs) text h =
    let same : 1 ∷ length cs ∷ height ∷ write_children cs ≡ text = cc in
    subst (λ t. read_node t ≡ some (branch v1 height cs)) same
      (rw (read_children-write_children cs) refl)

pub catalog_reads_written : ReadsWritten catalog_json
unfolding ReadsWritten
catalog_reads_written node read text h k =
    let both : some read ≡ some node = sym k ∙ reads_back node text h in ground (arith, both)

-- Digests that are the texts, up to the size of a node: longer texts collide.
abbrev pub plain_hex : Hex
plain_hex = record { encode = λ text. text; decode = λ text. some text }

abbrev pub plain_hash : Blake3
plain_hash = record {
  keyed_hash = λ k text. take max_catalog_node_object_bytes text;
  hash = λ text. text;
}

abbrev pub plain_env : Env (Table Stores.env.chrono) ℕ
plain_env = record Stores.env { hex = plain_hex; blake3 = plain_hash }

abbrev pub plain_store : Store plain_env
plain_store = record {
  backend = Stores.store.backend;
  tenant = Stores.store.tenant;
  key = Stores.store.key;
  cache_dir = none;
  policy = Stores.store.policy;
  layout = v3;
}

take-all : (n : ℕ) (text : List ℕ) → length text ≤ n → take n text ≡ text
take-all zero [] h = refl
take-all (suc n) [] h = refl
take-all zero (x ∷ text) h = absurd (omega arith)
take-all (suc n) (x ∷ text) h = ap (λ t. x ∷ t) (take-all n text (omega arith))

-- The texts that a store of nodes may hold.
abbrev pub Fits : List ℕ → Type 0
Fits text = length text ≤ max_catalog_node_object_bytes

pub plain_no_collision : NoCollision plain_hex plain_hash Stores.key Fits
unfolding NoCollision digest
plain_no_collision p q p_fits q_fits same =
    sym (take-all max_catalog_node_object_bytes p p_fits)
    ∙ ap (λ (d : Digest). d.hex) same
    ∙ take-all max_catalog_node_object_bytes q q_fits

encode-payload :
    (j : MetaJson) (env : Envelope) (bytes : List ℕ)
    → encode j env ≡ ok bytes
    → length env.payload ≤ length bytes
unfolding encode u16_le u32_le
encode-payload j env bytes h = elim (Option-cases (j.to_vec env.meta)) [
  | inl q ↦ absurd (ground (arith, h, q))
  | inr (meta, q) ↦ elim (Bool-cases (ltb max_envelope_meta_bytes (length meta % 2 ^ 32))) [
    | inl b ↦ absurd (ground (arith, h, q, b))
    | inr b ↦
        let whole : magic
              ++ (u16_le envelope_version
                  ++ (u16_le 0 ++ (u32_le (length meta % 2 ^ 32) ++ (meta ++ env.payload))))
            ≡ bytes =
          ground (arith, h, q, b) in
        let long = ap length whole in omega (arith, long, length-append meta env.payload)
  ]
]

stamp-payload :
    (payload : List ℕ) (w after : World (Table Stores.env.chrono) ℕ) (envelope : Envelope)
    → stamp plain_env plain_store blob catalog_node_schema payload w ≡ (done envelope, after)
    → envelope.payload ≡ payload
unfolding stamp new_envelope
stamp-payload payload w after envelope h =
    let (now, w1, e1, h1) = continue-eq_done _ _ h in
    ap (λ (e : Envelope). e.payload) (sym (pure-inj h1))

accepted_fits :
    (text : List ℕ) (d : Digest) (w after : World (Table Stores.env.chrono) ℕ)
    → put_object plain_env plain_store blob catalog_node_schema text max_catalog_node_object_bytes w
      ≡ (done d, after)
    → Fits text
unfolding put_object
accepted_fits text d w after h =
    let (envelope, w1, e1, h1) = continue-eq_done _ _ h in
    let (bytes, w2, e2, h2) = continue-eq_done _ _ h1 in
    let (coded, _) = lift-eq_done _ w1 e2 in
    let long = encode-payload plain_env.meta_json envelope bytes coded in
    let same = ap length (stamp-payload text w w1 envelope e1) in
    elim (if-cases (ltb max_catalog_node_object_bytes (length bytes)) _ _ h2) [
      | inl (_, h3) ↦ absurd (ground (arith, h3))
      | inr (small, _) ↦ ground (arith, small, long, same)
    ]

pub plain_keeps : KeepsTo plain_env plain_store catalog_json Fits
unfolding spec
plain_keeps = record {
  served = λ d found w after h.
      (get_blob_limited-IsBounded plain_env plain_store d (spec plain_env plain_store catalog_json)
        found.0 found.1 w after h).1;
  accepted = accepted_fits;
}
