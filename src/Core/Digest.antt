-- ===== src/Core/Digest.antt =====
-- crates/comb-core/src/digest.rs: tenant-keyed content digests and their text form.
pub mod RoundTrip
use comb.Prelude.{ℕ, ◌≡◌, Bool, true, not, ◌&&◌, ◌||◌, Option, List, [], ◌∷◌, ◌++◌}
use comb.Prelude.{All, length, take, ◌==◌}
use comb.Prelude.Str.{Str, str, bytes, len, strip_prefix}
use comb.Core.Error.{Result, ok, err, invalid_format, ok_or, refuse_if, ◌>>=◌, ◌>>◌}
use comb.Core.Crates.{Hex, Blake3, IsLowerHex, is_lower_hex}

pub record Digest : Type 0 where
  pub hex : Str

-- A 32-byte tenant key.
pub record DigestKey : Type 0 where
  pub raw : List ℕ

abbrev pub digest_tag : Str
digest_tag = str "b3k:"

-- `bytes().all(..)`.
unfoldable pub all_lower_hex : List ℕ → Bool
all_lower_hex [] = true
all_lower_hex (b ∷ bs) = is_lower_hex b && all_lower_hex bs

module _ (x : Hex) where
  -- `DigestKey::from_hex`.
  pub key_from_hex : Str → Result DigestKey
  key_from_hex s = do
    raw ← ok_or (x.decode s) (invalid_format "digest key hex: {e}")
    refuse_if (not (length raw == 32)) (invalid_format "digest key must be 32 bytes")
    ok (record { raw = raw })

  -- `DigestKey::to_hex`.
  pub key_to_hex : DigestKey → Str
  key_to_hex k = x.encode k.raw

-- `DigestKey::digest`.
unfoldable pub digest : Hex → Blake3 → DigestKey → List ℕ → Digest
digest x b k plaintext = record { hex = x.encode (b.keyed_hash k.raw plaintext) }

-- `Digest::parse`.
unfoldable pub parse : Str → Result Digest
unfolding all_lower_hex
parse s = do
  rest ← ok_or (strip_prefix digest_tag s) (invalid_format "digest must start with b3k: — got {s}")
  refuse_if (not (len rest == 64) || not (all_lower_hex (bytes rest)))
      (invalid_format "malformed b3k digest: {s}")
  ok (record { hex = rest })

-- `Digest::raw`, whose `expect` is `none` here.
unfoldable pub raw : Hex → Digest → Option (List ℕ)
raw x d = x.decode d.hex

-- `Digest::key_prefix`: a slice of two bytes, of ASCII text in every canonical digest.
unfoldable pub key_prefix : Digest → Str
key_prefix d = take 2 d.hex

-- `Display`.
unfoldable pub to_string : Digest → Str
to_string d = digest_tag ++ d.hex

-- What every digest is that `parse` accepts or `digest` makes.
pub record IsCanonical (d : Digest) : Type 0 where
  pub length_64 : length d.hex ≡ 64
  pub lower_hex : All IsLowerHex d.hex
