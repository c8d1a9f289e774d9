-- ===== src/Core/Envelope/Limited.antt =====
-- The checked read: its caps, its tags, and its agreement with `decode`.
use comb.Prelude.{ℕ, ◌^◌, ◌≤◌, ◌<◌, ◌≡◌, ◌↔◌, inl, inr, sym, ap, ◌∙◌}
use comb.Prelude.{true, some, List, arith}
use comb.Prelude.{Option-cases, length, take, drop}
use comb.Prelude.Str.{Str, str, eqs, eqs_iff}
use comb.Core.Error.{Result, ok, Result-cases, ◌>>=◌}
use comb.Core.Crates.{Hex, Blake3}
use comb.Core.Digest.{DigestKey, IsCanonical, digest}
use comb.Core.Envelope.{
  ObjectKind, blob, manifest, journal_entry, EnvelopeReadSpec, Envelope, EnvelopeMeta, MetaJson,
  as_str, from_meta_str, same_kind, u32_at, decode, envelope_payload_suffix, verify_payload,
}
use comb.Core.Envelope.Bounded.{
  contains, is_kind, meta_string, check_tags, check_header, inspect_limited, check_caps,
  decode_limited_with, decode_limited,
}
use comb.Core.Envelope.Decode.{IsAuthentic, verify_payload_iff, decode-eq_ok}

-- A struct that `serde_json` makes of an object has in each field the string that stands in the
-- object under its name, where a string stands there.
unfoldable pub TakesFields : MetaJson → Type 0
TakesFields j =
    (v : j.Value) (m : EnvelopeMeta) (o : j.Object) (s : Str)
    → j.from_value v ≡ some m
    → j.as_object v ≡ some o
    → (meta_string j o (str "compression") ≡ ok s → m.compression ≡ s)
      × (meta_string j o (str "encryption") ≡ ok s → m.encryption ≡ s)
      × (meta_string j o (str "tenant") ≡ ok s → m.tenant ≡ s)
      × (meta_string j o (str "kind") ≡ ok s → as_str m.kind ≡ s)
      × (meta_string j o (str "schema") ≡ ok s → m.schema ≡ s)

-- The strings of metadata in a JSON object.
abbrev pub HasFields : (j : MetaJson) → j.Object → EnvelopeMeta → Type 0
HasFields j o m =
    (meta_string j o (str "compression") ≡ ok m.compression)
    × (meta_string j o (str "encryption") ≡ ok m.encryption)
    × (meta_string j o (str "tenant") ≡ ok m.tenant)
    × (meta_string j o (str "kind") ≡ ok (as_str m.kind))
    × (meta_string j o (str "schema") ≡ ok m.schema)

-- What `serde_json` writes for metadata of a canonical digest reads back as an object with its
-- strings, and the object as the metadata.
unfoldable pub WritesObject : MetaJson → Type 0
WritesObject j =
    (m : EnvelopeMeta) (text : List ℕ)
    → IsCanonical m.digest
    → m.plaintext_bytes < 2 ^ 64
    → j.to_vec m ≡ some text
    → (v : j.Value) × (o : j.Object) × (j.value_from_slice text ≡ some v)
      × (j.as_object v ≡ some o)
      × (j.from_value v ≡ some m)
      × HasFields j o m

-- What a caller that passed `spec` may rely on.
pub record Obeys (spec : EnvelopeReadSpec) (bytes : List ℕ) (env : Envelope) : Type 0 where
  pub encoded_cap : length bytes ≤ spec.max_encoded_bytes
  pub plaintext_cap : length env.payload ≤ spec.max_plaintext_bytes
  pub same_tenant : env.meta.tenant ≡ spec.tenant
  pub of_kind : env.meta.kind ≡ spec.kind
  pub allowed_schema : contains spec.allowed_schemas env.meta.schema ≡ true

is_kind-as_str : (k kind : ObjectKind) → is_kind (as_str k) kind ≡ true ↔ k ≡ kind
unfolding is_kind as_str from_meta_str same_kind eqs
is_kind-as_str blob kind = ground arith
is_kind-as_str manifest kind = ground arith
is_kind-as_str journal_entry kind = ground arith

module _ (x : Hex) (b : Blake3) (j : MetaJson) (key : DigestKey) (bytes : List ℕ)
    (spec : EnvelopeReadSpec) where
  -- The caller's decoder sees a payload only after every check: `decode_limited_with` is
  -- `decode_limited`, and then the decoder on the payload that it returned.
  pub decode_limited_with-decode_limited :
      {T : Type 0} (f : List ℕ → Result T)
      → decode_limited_with j x b bytes key spec f
        ≡ (decode_limited j x b bytes key spec >>= λ env. f env.payload >>= λ t. ok (env.meta, t))
  unfolding decode_limited decode_limited_with
  decode_limited_with-decode_limited f = ground arith

  limited_inversion :
      (env : Envelope)
      → decode_limited j x b bytes key spec ≡ ok env
      → (inspect_limited j bytes spec ≡ ok (env.meta, env.payload))
        × (check_caps j env.meta env.payload spec.max_plaintext_bytes ≡ ok tt)
        × (verify_payload x b key env.meta env.payload ≡ ok tt)
  unfolding decode_limited decode_limited_with
  limited_inversion env h = ground arith

  inspect_inversion :
      (m : EnvelopeMeta) (payload : List ℕ)
      → inspect_limited j bytes spec ≡ ok (m, payload)
      → (check_header j bytes spec ≡ ok tt)
        × (envelope_payload_suffix bytes (u32_at bytes 8) ≡ some payload)
        × ((v : j.Value) × (o : j.Object) × (j.value_from_slice
                (take (u32_at bytes 8) (drop 12 bytes))
              ≡ some v)
            × (j.as_object v ≡ some o)
            × (check_tags j o spec ≡ ok tt)
            × (j.from_value v ≡ some m))
  unfolding inspect_limited
  inspect_inversion m payload h =
      elim (Option-cases (j.value_from_slice (take (u32_at bytes 8) (drop 12 bytes)))) [
        | inl missing ↦ absurd (ground arith)
        | inr (v, ev) ↦ elim (Option-cases (j.as_object v)) [
          | inl missing ↦ absurd (ground arith)
          | inr (o, eo) ↦ (ground arith, ground arith, (v, o, ev, eo, ground arith, ground arith))
        ]
      ]

  check_header_caps : check_header j bytes spec ≡ ok tt → length bytes ≤ spec.max_encoded_bytes
  unfolding check_header
  check_header_caps h = ground arith

  check_tags_inversion :
      (o : j.Object) (m : EnvelopeMeta)
      → HasFields j o m
      → (check_tags j o spec ≡ ok tt)
        ↔ (m.compression ≡ str "none")
          × (m.encryption ≡ str "none")
          × (m.tenant ≡ spec.tenant)
          × (m.kind ≡ spec.kind)
          × (contains spec.allowed_schemas m.schema ≡ true)
  unfolding check_tags
  check_tags_inversion o m fields = ground (
    arith,
    eqs_iff m.compression (str "none"),
    eqs_iff m.encryption (str "none"),
    eqs_iff m.tenant spec.tenant,
    is_kind-as_str m.kind spec.kind,
  )

  check_caps_iff :
      (m : EnvelopeMeta) (payload : List ℕ)
      → (check_caps j m payload spec.max_plaintext_bytes ≡ ok tt)
        ↔ (m.plaintext_bytes ≤ spec.max_plaintext_bytes)
          × (length payload ≤ spec.max_plaintext_bytes)
  unfolding check_caps
  check_caps_iff m payload = ground arith

  decode_header :
      (env : Envelope)
      → decode x b j bytes key ≡ ok env
      → length bytes ≤ spec.max_encoded_bytes
      → (check_header j bytes spec ≡ ok tt)
        × (envelope_payload_suffix bytes (u32_at bytes 8) ≡ some env.payload)
  unfolding decode check_header
  decode_header env h cap = ground arith

  limited_of_parts :
      (env : Envelope)
      → check_header j bytes spec ≡ ok tt
      → envelope_payload_suffix bytes (u32_at bytes 8) ≡ some env.payload
      → (v : j.Value) → j.value_from_slice (take (u32_at bytes 8) (drop 12 bytes)) ≡ some v
      → (o : j.Object) → j.as_object v ≡ some o
      → check_tags j o spec ≡ ok tt
      → j.from_value v ≡ some env.meta
      → check_caps j env.meta env.payload spec.max_plaintext_bytes ≡ ok tt
      → verify_payload x b key env.meta env.payload ≡ ok tt
      → decode_limited j x b bytes key spec ≡ ok env
  unfolding decode_limited decode_limited_with inspect_limited
  limited_of_parts env header suffix v ev o eo tags em caps verified =
      rw (header, ev, eo, tags, em, suffix, caps, verified)

  -- The strings that passed the tags.
  check_tags_found :
      (o : j.Object)
      → check_tags j o spec ≡ ok tt
      → (c : Str) × (e : Str) × (t : Str) × (k : Str) × (h : Str) × (meta_string j o
            (str "compression")
          ≡ ok c)
        × (meta_string j o (str "encryption") ≡ ok e)
        × (meta_string j o (str "tenant") ≡ ok t)
        × (meta_string j o (str "kind") ≡ ok k)
        × (meta_string j o (str "schema") ≡ ok h)
  unfolding check_tags
  check_tags_found o h = elim (Result-cases (meta_string j o (str "compression"))) [
    | inr (e, q) ↦ absurd (ground (arith, q))
    | inl (c, qc) ↦ elim (Result-cases (meta_string j o (str "encryption"))) [
      | inr (e, q) ↦ absurd (ground (arith, qc, q))
      | inl (n, qn) ↦ elim (Result-cases (meta_string j o (str "tenant"))) [
        | inr (e, q) ↦ absurd (ground (arith, qc, qn, q))
        | inl (t, qt) ↦ elim (Result-cases (meta_string j o (str "kind"))) [
          | inr (e, q) ↦ absurd (ground (arith, qc, qn, qt, q))
          | inl (k, qk) ↦ elim (Result-cases (meta_string j o (str "schema"))) [
            | inr (e, q) ↦ absurd (ground (arith, qc, qn, qt, qk, q))
            | inl (s, qs) ↦ (c, n, t, k, s, qc, qn, qt, qk, qs)
          ]
        ]
      ]
    ]
  ]

  -- What `decode_limited` returns has the digest that it declares, and keeps to both caps.
  pub decode_limited-verified :
      (env : Envelope)
      → decode_limited j x b bytes key spec ≡ ok env
      → (digest x b key env.payload ≡ env.meta.digest)
        × (length bytes ≤ spec.max_encoded_bytes)
        × (length env.payload ≤ spec.max_plaintext_bytes)
  decode_limited-verified env h =
      let (inspected, caps, verified) = limited_inversion env h in
      let (header, _, _) = inspect_inversion env.meta env.payload inspected in
      (
        ((verify_payload_iff x b key env.meta env.payload).0 verified).1,
        check_header_caps header,
        ((check_caps_iff env.meta env.payload).0 caps).1,
      )

  -- Where the JSON crate takes the strings of an object as the fields of the struct, what
  -- `decode_limited` returns is authentic under the key, within both caps, and of the tenant, kind and
  -- schemas that were asked for.
  pub decode_limited-eq_ok :
      (env : Envelope)
      → TakesFields j
      → decode_limited j x b bytes key spec ≡ ok env
      → IsAuthentic x b key env × Obeys spec bytes env
  unfolding TakesFields
  decode_limited-eq_ok env takes h =
      let (inspected, caps, verified) = limited_inversion env h in
      let (header, suffix, inside) = inspect_inversion env.meta env.payload inspected in
      let (v, o, ev, eo, tags, em) = inside in
      let (c, e, t, k, s, qc, qe, qt, qk, qs) = check_tags_found o tags in
      let same : HasFields j o env.meta = (
        qc ∙ ap ok (sym ((takes v env.meta o c em eo).0 qc)),
        qe ∙ ap ok (sym ((takes v env.meta o e em eo).1 qe)),
        qt ∙ ap ok (sym ((takes v env.meta o t em eo).2 qt)),
        qk ∙ ap ok (sym ((takes v env.meta o k em eo).3 qk)),
        qs ∙ ap ok (sym ((takes v env.meta o s em eo).4 qs)),
      ) in
      let (comp, enc, ten, kin, sch) = (check_tags_inversion o env.meta same).0 tags in
      let (l, d) = (verify_payload_iff x b key env.meta env.payload).0 verified in
      (
        record {
          compression_none = comp;
          encryption_none = enc;
          declared_length = l;
          declared_digest = d;
        },
        record {
          encoded_cap = check_header_caps header;
          plaintext_cap = ((check_caps_iff env.meta env.payload).0 caps).1;
          same_tenant = ten;
          of_kind = kin;
          allowed_schema = sch;
        },
      )

  -- `decode_limited` accepts an envelope that `decode` accepts, that keeps to the spec, and whose
  -- metadata stands in the frame as an object with its strings.
  pub decode_limited-decode :
      (env : Envelope) (v : j.Value) (o : j.Object)
      → decode x b j bytes key ≡ ok env
      → Obeys spec bytes env
      → j.value_from_slice (take (u32_at bytes 8) (drop 12 bytes)) ≡ some v
      → j.as_object v ≡ some o
      → j.from_value v ≡ some env.meta
      → HasFields j o env.meta
      → decode_limited j x b bytes key spec ≡ ok env
  decode_limited-decode env v o h obeys ev eo em same =
      let (authentic, suffix', read, bound) = decode-eq_ok x b key j bytes env h in
      let (header, suffix) = decode_header env h obeys.encoded_cap in
      let tags : check_tags j o spec ≡ ok tt = (check_tags_inversion o env.meta same).1 (
        authentic.compression_none, authentic.encryption_none, obeys.same_tenant, obeys.of_kind,
        obeys.allowed_schema,
      ) in
      let caps : check_caps j env.meta env.payload spec.max_plaintext_bytes ≡ ok tt =
        (check_caps_iff env.meta env.payload).1
          (omega (arith, authentic.declared_length, obeys.plaintext_cap), obeys.plaintext_cap) in
      let verified : verify_payload x b key env.meta env.payload ≡ ok tt =
        (verify_payload_iff x b key env.meta env.payload).1
          (authentic.declared_length, authentic.declared_digest) in
      limited_of_parts env header suffix v ev o eo tags em caps verified
