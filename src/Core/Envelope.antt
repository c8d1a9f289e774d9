-- ===== src/Core/Envelope.antt =====
-- crates/comb-core/src/envelope.rs: the binary frame of stored objects.
-- A fixed header of twelve bytes (magic, version, flags, metadata length), JSON metadata, payload.
-- `serde_json` is the interface `MetaJson`.
pub mod Frame
pub mod Bounded
pub mod Decode
pub mod Limited
pub mod Written
use comb.Prelude.{ℕ, ◌+◌, ◌*◌, ◌/◌, ◌%◌, ◌^◌}
use comb.Prelude.{Bool, true, false, not, ◌||◌, Option, none, some, List, [], ◌∷◌, ◌++◌}
use comb.Prelude.{ltb, leb, ◌==◌, if◌then◌else◌, length, take, drop, get_or}
use comb.Prelude.Str.{Str, str, eqs}
use comb.Prelude.Decimal.{to_string}
use comb.Core.Error.{
  CoreError, EnvelopeFormatField, Result, ok, err, invalid_format, integrity_error,
  unsupported_envelope_format, ok_or, refuse_if, ◌>>=◌, ◌>>◌,
}
use comb.Core.Crates.{Hex, Blake3}
use comb.Core.Digest.{Digest, DigestKey, digest}

-- `MAGIC` and the constants.
abbrev pub magic : List ℕ
magic = b'C' ∷ b'O' ∷ b'M' ∷ b'B' ∷ []

abbrev pub envelope_version : ℕ
envelope_version = 1

abbrev pub max_envelope_meta_bytes : ℕ
max_envelope_meta_bytes = 64 * 1024

abbrev pub max_ref_object_bytes : ℕ
max_ref_object_bytes = 64 * 1024

abbrev pub max_manifest_object_bytes : ℕ
max_manifest_object_bytes = 512 * 1024

abbrev pub max_stable_index_node_object_bytes : ℕ
max_stable_index_node_object_bytes = 8 * 1024

pub data ObjectKind : Type 0 where
  blob manifest journal_entry : ObjectKind

-- `ObjectKind::as_str`.
unfoldable pub as_str : ObjectKind → Str
as_str blob = str "blob"
as_str manifest = str "manifest"
as_str journal_entry = str "journal-entry"

-- `ObjectKind::from_meta_str`.
unfoldable pub from_meta_str : Str → Option ObjectKind
from_meta_str s =
    if eqs s (str "blob")
    then some blob
    else if eqs s (str "manifest")
    then some manifest
    else if eqs s (str "journal-entry")
    then some journal_entry
    else none

unfoldable pub same_kind : ObjectKind → ObjectKind → Bool
same_kind blob blob = true
same_kind manifest manifest = true
same_kind journal_entry journal_entry = true
same_kind _ _ = false

pub record EnvelopeReadSpec : Type 0 where
  pub tenant : Str
  pub kind : ObjectKind
  pub allowed_schemas : List Str
  pub max_encoded_bytes : ℕ
  pub max_plaintext_bytes : ℕ

pub record EnvelopeMeta : Type 0 where
  pub schema : Str
  pub tenant : Str
  pub kind : ObjectKind
  pub digest : Digest
  pub plaintext_bytes : ℕ
  pub compression : Str
  pub encryption : Str
  pub created_at : Str

pub record Envelope : Type 0 where
  pub meta : EnvelopeMeta
  pub payload : List ℕ

-- `serde_json` on envelope metadata: `to_vec` and `from_slice` of the struct, `from_slice` into a
-- JSON value, `from_value`, `as_object`, the map's `get`, and the match on `Value::String`.
pub record MetaJson : Type 1 where
  pub Value : Type 0
  pub Object : Type 0
  pub to_vec : EnvelopeMeta → Option (List ℕ)
  pub from_slice : List ℕ → Option EnvelopeMeta
  pub value_from_slice : List ℕ → Option Value
  pub from_value : Value → Option EnvelopeMeta
  pub as_object : Value → Option Object
  pub get : Object → Str → Option Value
  pub as_string : Value → Option Str

-- `Envelope::new`; the text of the time is that of the call.
unfoldable pub new_envelope :
    Hex → Blake3 → Str → ObjectKind → Str → List ℕ → DigestKey → Str → Envelope
new_envelope x b tenant kind schema payload key created_at = record {
  meta = record {
    schema = schema;
    tenant = tenant;
    kind = kind;
    digest = digest x b key payload;
    plaintext_bytes = length payload;
    compression = str "none";
    encryption = str "none";
    created_at = created_at;
  };
  payload = payload;
}

-- `to_le_bytes` of a `u16` and a `u32`, and `from_le_bytes` of the bytes at a position.
unfoldable pub u16_le : ℕ → List ℕ
u16_le n = n % 256 ∷ n / 256 % 256 ∷ []

unfoldable pub u32_le : ℕ → List ℕ
u32_le n = n % 256 ∷ n / 2 ^ 8 % 256 ∷ n / 2 ^ 16 % 256 ∷ n / 2 ^ 24 % 256 ∷ []

unfoldable pub u16_at : List ℕ → ℕ → ℕ
u16_at bytes i = get_or bytes i 0 + 256 * get_or bytes (i + 1) 0

unfoldable pub u32_at : List ℕ → ℕ → ℕ
u32_at bytes i =
    get_or bytes i 0
    + 2 ^ 8 * get_or bytes (i + 1) 0
    + 2 ^ 16 * get_or bytes (i + 2) 0
    + 2 ^ 24 * get_or bytes (i + 3) 0

-- `Envelope::encode`; `meta.len() as u32` keeps 32 bits.
unfoldable pub encode : MetaJson → Envelope → Result (List ℕ)
encode j env = do
  meta ← ok_or (j.to_vec env.meta) (invalid_format "meta encode: {e}")
  refuse_if (ltb max_envelope_meta_bytes (length meta % 2 ^ 32))
      (invalid_format "metadata exceeds 64 KiB")
  ok (
      magic
      ++ (u16_le envelope_version
          ++ (u16_le 0 ++ (u32_le (length meta % 2 ^ 32) ++ (meta ++ env.payload)))))

-- `envelope_payload_suffix`; `12 + meta_len` fits a `usize` for every `u32`.
unfoldable pub envelope_payload_suffix : List ℕ → ℕ → Option (List ℕ)
envelope_payload_suffix bytes meta_len =
    if leb (12 + meta_len) (length bytes) then some (drop (12 + meta_len) bytes) else none

-- `Envelope::payload_suffix`.
unfoldable pub payload_suffix : List ℕ → Option (List ℕ)
unfolding envelope_payload_suffix
payload_suffix bytes =
    if ltb (length bytes) 12 then none else envelope_payload_suffix bytes (u32_at bytes 8)

-- `bytes.len() < 12 || &bytes[0..4] != MAGIC`.
unfoldable pub bad_magic : List ℕ → Bool
bad_magic bytes = ltb (length bytes) 12 || not (eqs (take 4 bytes) magic)

-- `unsupported`.
abbrev pub unsupported : EnvelopeFormatField → Str → CoreError
unsupported field value = unsupported_envelope_format field value

-- The declared length and digest against the payload: the end of both decoders.
unfoldable pub verify_payload : Hex → Blake3 → DigestKey → EnvelopeMeta → List ℕ → Result (Unit {0})
verify_payload x b key meta payload = do
  refuse_if (not (length payload == meta.plaintext_bytes))
      (integrity_error "payload length {} does not match declared {}")
  refuse_if (not (eqs (digest x b key payload).hex meta.digest.hex))
      (integrity_error "digest mismatch: declared {}, computed {actual}")
  ok tt

-- `Envelope::decode`.
unfoldable pub decode : Hex → Blake3 → MetaJson → List ℕ → DigestKey → Result Envelope
decode x b j bytes key = do
  refuse_if (bad_magic bytes) (invalid_format "bad envelope magic")
  refuse_if (not (u16_at bytes 4 == envelope_version))
      (invalid_format "unsupported envelope version {version}")
  refuse_if (not (u16_at bytes 6 == 0))
      (unsupported EnvelopeFormatField.flags (to_string (u16_at bytes 6)))
  let meta_len = u32_at bytes 8
  refuse_if (ltb max_envelope_meta_bytes meta_len || ltb (length bytes) (12 + meta_len))
      (invalid_format "truncated envelope metadata")
  meta ← ok_or (j.from_slice (take meta_len (drop 12 bytes))) (invalid_format "meta decode: {e}")
  refuse_if (not (eqs meta.compression (str "none")))
      (unsupported EnvelopeFormatField.compression meta.compression)
  refuse_if (not (eqs meta.encryption (str "none")))
      (unsupported EnvelopeFormatField.encryption meta.encryption)
  payload ←
      ok_or (envelope_payload_suffix bytes meta_len) (invalid_format "truncated envelope payload")
  verify_payload x b key meta payload
  ok (record { meta = meta; payload = payload })
