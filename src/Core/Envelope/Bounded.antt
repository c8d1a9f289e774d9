-- ===== src/Core/Envelope/Bounded.antt =====
-- crates/comb-core/src/envelope.rs: `decode_limited`, the checked read of classed objects.
use comb.Prelude.{ℕ, ◌+◌}
use comb.Prelude.{Bool, false, not, ◌||◌, none, some, List, [], ◌∷◌}
use comb.Prelude.{ltb, ◌==◌, length, take, drop}
use comb.Prelude.Str.{Str, str, eqs}
use comb.Prelude.Decimal.{to_string}
use comb.Core.Error.{
  EnvelopeFormatField, Result, ok, invalid_format, object_too_large, ok_or, refuse_if, ◌>>=◌, ◌>>◌,
}
use comb.Core.Crates.{Hex, Blake3}
use comb.Core.Digest.{DigestKey}
use comb.Core.Envelope.{
  ObjectKind, EnvelopeReadSpec, EnvelopeMeta, Envelope, MetaJson, envelope_version,
  max_envelope_meta_bytes, from_meta_str, same_kind, u16_at, u32_at, bad_magic,
  envelope_payload_suffix, verify_payload, unsupported,
}

-- `spec.allowed_schemas.contains(..)`.
unfoldable pub contains : List Str → Str → Bool
contains [] s = false
contains (t ∷ ts) s = eqs t s || contains ts s

-- `match ObjectKind::from_meta_str(&kind_str) { Some(kind) if kind == spec.kind => {} .. }`
unfoldable pub is_kind : Str → ObjectKind → Bool
is_kind s kind = elim (from_meta_str s) [ none ↦ false | some k ↦ same_kind k kind ]

module _ (j : MetaJson) where
  -- `meta_string`.
  unfoldable pub meta_string : j.Object → Str → Result Str
  meta_string obj name = do
    v ← ok_or (j.get obj name) (invalid_format "metadata missing {name}")
    ok_or (j.as_string v) (invalid_format "metadata {name} must be a string")

  -- `inspect_limited` from the metadata object on: the tags, before any payload is read.
  unfoldable pub check_tags : j.Object → EnvelopeReadSpec → Result (Unit {0})
  unfolding meta_string
  check_tags obj spec = do
    compression ← meta_string obj (str "compression")
    refuse_if (not (eqs compression (str "none")))
        (unsupported EnvelopeFormatField.compression compression)
    encryption ← meta_string obj (str "encryption")
    refuse_if (not (eqs encryption (str "none")))
        (unsupported EnvelopeFormatField.encryption encryption)
    tenant ← meta_string obj (str "tenant")
    refuse_if (not (eqs tenant spec.tenant)) (unsupported EnvelopeFormatField.tenant tenant)
    kind_str ← meta_string obj (str "kind")
    refuse_if (not (is_kind kind_str spec.kind))
        (unsupported EnvelopeFormatField.object_kind kind_str)
    schema ← meta_string obj (str "schema")
    refuse_if (not (contains spec.allowed_schemas schema))
        (unsupported EnvelopeFormatField.schema schema)
    ok tt

  -- The fixed header: `inspect_limited` up to the metadata length.
  unfoldable pub check_header : List ℕ → EnvelopeReadSpec → Result (Unit {0})
  check_header bytes spec = do
    refuse_if (ltb spec.max_encoded_bytes (length bytes))
        (object_too_large [] spec.max_encoded_bytes (some (length bytes)))
    refuse_if (bad_magic bytes) (invalid_format "bad envelope magic")
    refuse_if (not (u16_at bytes 4 == envelope_version))
        (unsupported EnvelopeFormatField.version (to_string (u16_at bytes 4)))
    refuse_if (not (u16_at bytes 6 == 0))
        (unsupported EnvelopeFormatField.flags (to_string (u16_at bytes 6)))
    refuse_if
        (ltb max_envelope_meta_bytes (u32_at bytes 8) || ltb (length bytes) (12 + u32_at bytes 8))
        (invalid_format "truncated envelope metadata")
    ok tt

  -- `inspect_limited`.
  unfoldable pub inspect_limited : List ℕ → EnvelopeReadSpec → Result (EnvelopeMeta × List ℕ)
  inspect_limited bytes spec = do
    check_header bytes spec
    let meta_len = u32_at bytes 8
    raw ←
        ok_or (j.value_from_slice (take meta_len (drop 12 bytes)))
          (invalid_format "meta decode: {e}")
    obj ← ok_or (j.as_object raw) (invalid_format "envelope metadata must be an object")
    check_tags obj spec
    meta ← ok_or (j.from_value raw) (invalid_format "meta decode: {e}")
    payload ←
        ok_or (envelope_payload_suffix bytes meta_len) (invalid_format "truncated envelope payload")
    ok (meta, payload)

  -- The plaintext caps of `decode_limited_with`.
  unfoldable pub check_caps : EnvelopeMeta → List ℕ → ℕ → Result (Unit {0})
  check_caps meta payload pt_limit = do
    refuse_if (ltb pt_limit meta.plaintext_bytes)
        (object_too_large [] pt_limit (some meta.plaintext_bytes))
    refuse_if (ltb pt_limit (length payload)) (object_too_large [] pt_limit (some (length payload)))
    ok tt

  -- `Envelope::decode_limited_with`.
  unfoldable pub decode_limited_with :
      {T : Type 0}
      → Hex
      → Blake3
      → List ℕ
      → DigestKey
      → EnvelopeReadSpec
      → (List ℕ → Result T)
      → Result (EnvelopeMeta × T)
  decode_limited_with x b bytes key spec decode_payload = do
    (meta, payload) ← inspect_limited bytes spec
    check_caps meta payload spec.max_plaintext_bytes
    verify_payload x b key meta payload
    decoded ← decode_payload payload
    ok (meta, decoded)

  -- `Envelope::decode_limited`.
  unfoldable pub decode_limited :
      Hex → Blake3 → List ℕ → DigestKey → EnvelopeReadSpec → Result Envelope
  decode_limited x b bytes key spec = do
    (meta, payload) ← decode_limited_with x b bytes key spec (λ p. ok p)
    ok (record { meta = meta; payload = payload })
