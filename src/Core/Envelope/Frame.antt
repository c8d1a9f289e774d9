-- ===== src/Core/Envelope/Frame.antt =====
-- The frame: what `encode` writes, and what stands at each position of it.
use comb.Prelude.{ℕ, ◌+◌, ◌%◌, ◌^◌, ◌≤◌, ◌<◌, ◌≡◌, refl}
use comb.Prelude.{false, some, List, ◌++◌, arith}
use comb.Prelude.{ltb, if◌then◌else◌, length, take, drop}
use comb.Prelude.{length-append, take-append_length, drop-append_length, drop-add}
use comb.Prelude.Str.{eqs}
use comb.Core.Error.{ok, err, invalid_format}
use comb.Core.Envelope.{
  Envelope, MetaJson, magic, envelope_version, max_envelope_meta_bytes, u16_le, u32_le, u16_at,
  u32_at, encode, bad_magic, envelope_payload_suffix, payload_suffix,
}

-- The frame around `meta` and `payload`.
unfoldable pub frame : List ℕ → List ℕ → List ℕ
frame meta payload =
    magic ++ (u16_le envelope_version ++ (u16_le 0 ++ (u32_le (length meta) ++ (meta ++ payload))))

module _ (meta payload : List ℕ) (fits : length meta < 2 ^ 32) where
  pub length-frame : length (frame meta payload) ≡ 12 + length meta + length payload
  unfolding frame u16_le u32_le
  length-frame = omega (arith, length-append meta payload)

  pub bad_magic-frame : bad_magic (frame meta payload) ≡ false
  unfolding frame bad_magic u16_le u32_le eqs
  bad_magic-frame = ground (arith, length-append meta payload)

  pub u32_at-frame : u32_at (frame meta payload) 8 ≡ length meta
  unfolding frame u32_at u16_le u32_le
  u32_at-frame = omega arith

  pub version_at-frame : u16_at (frame meta payload) 4 ≡ 1
  unfolding frame u16_at u16_le u32_le
  version_at-frame = refl

  pub flags_at-frame : u16_at (frame meta payload) 6 ≡ 0
  unfolding frame u16_at u16_le u32_le
  flags_at-frame = refl

  pub meta_at-frame : take (length meta) (drop 12 (frame meta payload)) ≡ meta
  unfolding frame u16_le u32_le
  meta_at-frame = take-append_length meta payload

  body-frame : drop 12 (frame meta payload) ≡ meta ++ payload
  unfolding frame u16_le u32_le
  body-frame = refl

  pub suffix-frame : envelope_payload_suffix (frame meta payload) (length meta) ≡ some payload
  unfolding envelope_payload_suffix
  suffix-frame = ground (
    arith,
    length-frame,
    drop-add 12 (length meta) (frame meta payload),
    body-frame,
    drop-append_length meta payload,
  )

  -- The payload can be cut out of a frame with no look at its tags.
  pub payload_suffix-frame : payload_suffix (frame meta payload) ≡ some payload
  unfolding payload_suffix
  payload_suffix-frame = ground (arith, length-frame, u32_at-frame, suffix-frame)

-- What `encode` writes is the frame, where the length of the metadata fits a `u32`.
pub encode-frame :
    (j : MetaJson) (env : Envelope) (meta : List ℕ)
    → j.to_vec env.meta ≡ some meta
    → length meta < 2 ^ 32
    → encode j env ≡ (
        if ltb max_envelope_meta_bytes (length meta)
        then err (invalid_format "metadata exceeds 64 KiB")
        else ok (frame meta env.payload))
unfolding encode frame
encode-frame j env meta e fits = ground (arith, wrap)
  where
    wrap : length meta % 2 ^ 32 ≡ length meta
    wrap = omega arith

pub encode-eq_ok :
    (j : MetaJson) (env : Envelope) (meta bytes : List ℕ)
    → j.to_vec env.meta ≡ some meta
    → length meta < 2 ^ 32
    → encode j env ≡ ok bytes
    → (bytes ≡ frame meta env.payload) × (length meta ≤ max_envelope_meta_bytes)
encode-eq_ok j env meta bytes e fits h = ground (arith, encode-frame j env meta e fits)
