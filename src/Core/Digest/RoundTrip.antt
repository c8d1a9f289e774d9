-- ===== src/Core/Digest/RoundTrip.antt =====
-- The text form of digests and digest keys reads back, and only canonical text is accepted.
use comb.Prelude.{ℕ, ◌≡◌, refl, ap, sym, ◌∙◌, true, List, [], ◌∷◌, ◌++◌}
use comb.Prelude.{All, length, arith, some}
use comb.Prelude.Str.{
  Str, bytes, encode_utf8, len, strip_prefix, strip_prefix-append, strip_prefix-eq_some,
}
use comb.Core.Error.{ok}
use comb.Core.Crates.{Hex, HexLaws, Blake3, Blake3Laws, IsByte, IsLowerHex, is_lower_hex}
use comb.Core.Digest.{
  Digest, DigestKey, IsCanonical, digest, parse, raw, to_string, digest_tag, all_lower_hex,
  key_from_hex, key_to_hex,
}

-- A lowercase hex digit is its own UTF-8 form, and no other scalar value starts with one.
encode_utf8-hex : (c : ℕ) → is_lower_hex c ≡ true → encode_utf8 c ≡ c ∷ []
unfolding encode_utf8 is_lower_hex
encode_utf8-hex c h = ground arith

hex_of_encode_utf8 :
    (c : ℕ) (rest : List ℕ)
    → all_lower_hex (encode_utf8 c ++ rest) ≡ true
    → (encode_utf8 c ≡ c ∷ []) × (is_lower_hex c ≡ true) × (all_lower_hex rest ≡ true)
unfolding all_lower_hex encode_utf8 is_lower_hex
hex_of_encode_utf8 c rest h = ground arith

hex_of_bytes : (s : Str) → all_lower_hex (bytes s) ≡ true → (bytes s ≡ s) × All IsLowerHex s
unfolding all_lower_hex bytes
hex_of_bytes [] h = (refl, tt)
hex_of_bytes (c ∷ s) h =
    let (e, hc, hs) = hex_of_encode_utf8 c (bytes s) h in
    let (p, q) = hex_of_bytes s hs in (rw (e, p), (hc, q))

bytes-hex : (s : Str) → All IsLowerHex s → (bytes s ≡ s) × (all_lower_hex s ≡ true)
unfolding all_lower_hex bytes
bytes-hex [] h = (refl, refl)
bytes-hex (c ∷ s) h = let (p, q) = bytes-hex s h.1 in (rw (encode_utf8-hex c h.0, p), ground arith)

pub parse-to_string : (d : Digest) → IsCanonical d → parse (to_string d) ≡ ok d
unfolding parse to_string
parse-to_string d h =
    let (p, q) = bytes-hex d.hex h.lower_hex in
    rw (strip_prefix-append digest_tag d.hex, p, q, h.length_64)

parse_inversion :
    (s : Str) (d : Digest)
    → parse s ≡ ok d
    → (strip_prefix digest_tag s ≡ some d.hex)
      × (len d.hex ≡ 64)
      × (all_lower_hex (bytes d.hex) ≡ true)
unfolding parse
parse_inversion s d h = ground arith

-- An accepted text is the one that the digest prints, and the digest is canonical: 64 lowercase
-- hexadecimal digits.
pub parse-eq_ok : (s : Str) (d : Digest) → parse s ≡ ok d → (to_string d ≡ s) × IsCanonical d
unfolding to_string
parse-eq_ok s d h =
    let (found, l, hexed) = parse_inversion s d h in
    let (p, q) = hex_of_bytes d.hex hexed in
    (
      sym (strip_prefix-eq_some digest_tag s d.hex found),
      record { length_64 = sym (ap length p) ∙ l; lower_hex = q },
    )

module _ {x : Hex} (xl : HexLaws x) {b : Blake3} (bl : Blake3Laws b) where
  pub digest-IsCanonical : (k : DigestKey) (m : List ℕ) → IsCanonical (digest x b k m)
  unfolding digest
  digest-IsCanonical k m = record {
    length_64 =
        omega (arith, xl.length-encode (b.keyed_hash k.raw m), bl.length-keyed_hash k.raw m);
    lower_hex = xl.encode-IsLowerHex _ (bl.keyed_hash-IsByte k.raw m);
  }

  -- Under the laws of the two crates, the digest of any plaintext survives its text form, and its raw
  -- form is the bytes of the hash.
  pub digest_round_trip :
      (k : DigestKey) (m : List ℕ)
      → (parse (to_string (digest x b k m)) ≡ ok (digest x b k m))
        × (raw x (digest x b k m) ≡ some (b.keyed_hash k.raw m))
  unfolding raw
  digest_round_trip k m = (
    parse-to_string (digest x b k m) (digest-IsCanonical k m),
    unfold digest in xl.decode-encode _ (bl.keyed_hash-IsByte k.raw m),
  )

-- A 32-byte key reads back from its hexadecimal form.
pub key_from_hex-key_to_hex :
    {x : Hex} (xl : HexLaws x) (k : DigestKey)
    → All IsByte k.raw
    → length k.raw ≡ 32
    → key_from_hex x (key_to_hex x k) ≡ ok k
unfolding key_from_hex key_to_hex
key_from_hex-key_to_hex xl k hb hl = rw (xl.decode-encode k.raw hb, hl)
