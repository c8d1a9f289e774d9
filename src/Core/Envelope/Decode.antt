-- ===== src/Core/Envelope/Decode.antt =====
-- `decode` reads back what `encode` wrote, and accepts only what its digest authenticates.
use comb.Prelude.{ℕ, ◌^◌, ◌≤◌, ◌<◌, ◌≡◌, refl, ◌↔◌}
use comb.Prelude.{true, some, List, arith}
use comb.Prelude.{length, take, drop}
use comb.Prelude.Str.{Str, str, eqs, eqs_iff}
use comb.Core.Error.{ok}
use comb.Core.Crates.{Hex, HexLaws, Blake3, Blake3Laws}
use comb.Core.Digest.{DigestKey, IsCanonical, digest}
use comb.Core.Digest.RoundTrip.{digest-IsCanonical}
use comb.Core.Envelope.{
  ObjectKind, Envelope, EnvelopeMeta, MetaJson, new_envelope, max_envelope_meta_bytes, u32_at,
  encode, decode, bad_magic, payload_suffix, verify_payload,
}
use comb.Core.Envelope.Frame.{
  frame, bad_magic-frame, u32_at-frame, version_at-frame, flags_at-frame, meta_at-frame,
  suffix-frame, length-frame, encode-eq_ok,
}

-- `serde_json` reads back the metadata that it wrote: a struct whose digest is in canonical form.
pub record ReadsBack (j : MetaJson) : Type 0 where
  pub from_slice-to_vec :
      (m : EnvelopeMeta) (bytes : List ℕ)
      → IsCanonical m.digest
      → m.plaintext_bytes < 2 ^ 64
      → j.to_vec m ≡ some bytes
      → j.from_slice bytes ≡ some m

-- What every decoded envelope is: untransformed, and of the declared length and digest.
pub record IsAuthentic (x : Hex) (b : Blake3) (key : DigestKey) (env : Envelope) : Type 0 where
  pub compression_none : env.meta.compression ≡ str "none"
  pub encryption_none : env.meta.encryption ≡ str "none"
  pub declared_length : length env.payload ≡ env.meta.plaintext_bytes
  pub declared_digest : digest x b key env.payload ≡ env.meta.digest

module _ (x : Hex) (b : Blake3) (key : DigestKey) where
  pub verify_payload_iff :
      (m : EnvelopeMeta) (payload : List ℕ)
      → verify_payload x b key m payload ≡ ok tt
        ↔ (length payload ≡ m.plaintext_bytes) × (digest x b key payload ≡ m.digest)
  unfolding verify_payload
  verify_payload_iff m payload = ground (arith, eqs_iff (digest x b key payload).hex m.digest.hex)

  decode-frame :
      (j : MetaJson) (env : Envelope) (meta : List ℕ)
      → IsAuthentic x b key env
      → length meta ≤ max_envelope_meta_bytes
      → j.from_slice meta ≡ some env.meta
      → decode x b j (frame meta env.payload) key ≡ ok env
  unfolding decode
  decode-frame j env meta h fits e = ground (
    arith,
    length-frame meta env.payload (omega arith),
    bad_magic-frame meta env.payload (omega arith),
    u32_at-frame meta env.payload (omega arith),
    version_at-frame meta env.payload (omega arith),
    flags_at-frame meta env.payload (omega arith),
    meta_at-frame meta env.payload (omega arith),
    suffix-frame meta env.payload (omega arith),
    eqs_iff env.meta.compression (str "none"),
    eqs_iff env.meta.encryption (str "none"),
    (verify_payload_iff env.meta env.payload).1 (h.declared_length, h.declared_digest),
  )

  -- A decoded envelope is untransformed, has the declared length and digest, and its payload is what
  -- stands in the frame behind the metadata that was read.
  pub decode-eq_ok :
      (j : MetaJson) (bytes : List ℕ) (env : Envelope)
      → decode x b j bytes key ≡ ok env
      → IsAuthentic x b key env
        × (payload_suffix bytes ≡ some env.payload)
        × (j.from_slice (take (u32_at bytes 8) (drop 12 bytes)) ≡ some env.meta)
        × (u32_at bytes 8 ≤ max_envelope_meta_bytes)
  unfolding decode payload_suffix bad_magic
  decode-eq_ok j bytes env h =
      let (authentic, suffix, read, bound) = facts in
      let (declared_length, declared_digest) =
        (verify_payload_iff env.meta env.payload).0 authentic.2 in
      (
        record {
          compression_none = (eqs_iff _ _).0 authentic.0;
          encryption_none = (eqs_iff _ _).0 authentic.1;
          declared_length = declared_length;
          declared_digest = declared_digest;
        },
        suffix,
        read,
        bound,
      )
    where
      facts :
          ((eqs env.meta.compression (str "none") ≡ true)
            × (eqs env.meta.encryption (str "none") ≡ true)
            × (verify_payload x b key env.meta env.payload ≡ ok tt))
          × (payload_suffix bytes ≡ some env.payload)
          × (j.from_slice (take (u32_at bytes 8) (drop 12 bytes)) ≡ some env.meta)
          × (u32_at bytes 8 ≤ max_envelope_meta_bytes)
      facts = ground arith

module _ {x : Hex} (xl : HexLaws x) {b : Blake3} (bl : Blake3Laws b) {j : MetaJson}
    (jl : ReadsBack j) where
  new_envelope-IsAuthentic :
      (tenant : Str) (kind : ObjectKind) (schema : Str) (payload : List ℕ) (key : DigestKey)
      (at : Str)
      → IsAuthentic x b key (new_envelope x b tenant kind schema payload key at)
  unfolding new_envelope
  new_envelope-IsAuthentic tenant kind schema payload key at = record {
    compression_none = refl;
    encryption_none = refl;
    declared_length = refl;
    declared_digest = refl;
  }

  read-new_envelope :
      (tenant : Str) (kind : ObjectKind) (schema : Str) (payload : List ℕ) (key : DigestKey)
      (at : Str) (meta : List ℕ)
      → length payload < 2 ^ 64
      → j.to_vec (new_envelope x b tenant kind schema payload key at).meta ≡ some meta
      → j.from_slice meta ≡ some (new_envelope x b tenant kind schema payload key at).meta
  unfolding new_envelope
  read-new_envelope tenant kind schema payload key at meta small e =
      jl.from_slice-to_vec _ meta (digest-IsCanonical xl bl key payload) small e

  -- An envelope that `Envelope::new` made, whose metadata is written in fewer than 2 ^ 32 bytes: if
  -- `encode` accepts it, decoding the bytes under the same key gives it back.
  pub decode-encode :
      (tenant : Str) (kind : ObjectKind) (schema : Str) (payload : List ℕ) (key : DigestKey)
      (at : Str) (meta bytes : List ℕ)
      → length payload < 2 ^ 64
      → j.to_vec (new_envelope x b tenant kind schema payload key at).meta ≡ some meta
      → length meta < 2 ^ 32
      → encode j (new_envelope x b tenant kind schema payload key at) ≡ ok bytes
      → decode x b j bytes key ≡ ok (new_envelope x b tenant kind schema payload key at)
  decode-encode tenant kind schema payload key at meta bytes small e fits h =
      let env = new_envelope x b tenant kind schema payload key at in
      let (whole, bounded) = encode-eq_ok j env meta bytes e fits h in
      rw whole (
        decode-frame x b key j env meta (new_envelope-IsAuthentic tenant kind schema payload key at)
          bounded (read-new_envelope tenant kind schema payload key at meta small e))
