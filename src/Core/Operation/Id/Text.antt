-- ===== src/Core/Operation/Id/Text.antt =====
-- The text of an operation id reads back; what `parse` accepts is 39 ASCII characters.
use comb.Prelude.{ℕ, ◌%◌, ◌^◌, ◌≡◌, refl, List, [], ◌∷◌, ◌++◌, map}
use comb.Prelude.{All, Option-cases, inl, inr, length, arith, some}
use comb.Prelude.Str.{
  Str, len, IsAscii, bytes-IsAscii, IsAscii-of_len, length-le-len, to_ascii_lowercase,
  len-map_lower, strip_prefix, strip_prefix-append, strip_prefix-eq_some,
}
use comb.Core.Error.{ok, Result-cases}
use comb.Core.Crates.{IsByte}
use comb.Core.Operation.Crockford.{
  decode_loop, to_ascii_uppercase, crockford_encode, crockford_decode, crockford_value,
}
use comb.Core.Operation.Crockford.RoundTrip.{crockford_round_trip}
use comb.Core.Operation.Crockford.Shape.{
  length-crockford_encode, crockford_encode-IsAscii, crockford_decode-eq_ok,
}
use comb.Core.Operation.Id.{
  OperationId, IsId, op_prefix, from_millis_and_entropy, parse, to_string, issued_at_millis,
}

-- The timestamp of an id is the low 48 bits of the milliseconds that it was made from.
pub issued_at_millis-from_millis_and_entropy :
    (ms : ℕ) (entropy : List ℕ)
    → issued_at_millis (from_millis_and_entropy ms entropy) ≡ ms % 2 ^ 48
unfolding issued_at_millis from_millis_and_entropy
issued_at_millis-from_millis_and_entropy ms entropy = omega arith

from_millis_and_entropy-IsId :
    (ms : ℕ) (entropy : List ℕ)
    → All IsByte entropy
    → length entropy ≡ 18
    → IsId (from_millis_and_entropy ms entropy)
unfolding from_millis_and_entropy
from_millis_and_entropy-IsId ms entropy h l = record {
  length_24 = omega arith;
  of_bytes =
      (omega arith, (omega arith, (omega arith, (omega arith, (omega arith, (omega arith, h))))));
}

-- The text of a proper id, one of 24 bytes, reads back as that id.
pub parse-to_string : (id : OperationId) → IsId id → parse (to_string id) ≡ ok id
unfolding parse to_string
parse-to_string id h = rw (
  strip_prefix-append op_prefix (crockford_encode id.raw),
  bytes-IsAscii (crockford_encode id.raw) (crockford_encode-IsAscii id.raw),
  length-crockford_encode id.raw,
  crockford_round_trip id.raw h.of_bytes,
  h.length_24,
)

parse_inversion :
    (s : Str) (id : OperationId)
    → parse s ≡ ok id
    → (body : Str) × (strip_prefix op_prefix s ≡ some body)
      × (len body ≡ 39)
      × (crockford_decode body ≡ ok id.raw)
      × (length id.raw ≡ 24)
unfolding parse
parse_inversion s id h = elim (Option-cases (strip_prefix op_prefix s)) [
  | inl missing ↦ absurd (ground arith)
  | inr (body, found) ↦ elim (Result-cases (crockford_decode body)) [
    | inr (e, bad) ↦ absurd (ground arith)
    | inl (raw, decoded) ↦ (body, found, ground arith, ground arith, ground arith)
  ]
]

-- An accepted text gives a proper id, and is `op_` and 39 ASCII characters: a wider character that
-- `crockford_value` would take for a digit leaves too few bits.
pub parse-IsId :
    (s : Str) (id : OperationId)
    → parse s ≡ ok id
    → IsId id × ((body : Str) × (s ≡ op_prefix ++ body) × (length body ≡ 39) × All IsAscii body)
parse-IsId s id h =
    let (body, found, l, decoded, n) = parse_inversion s id h in
    let (count, byte) = crockford_decode-eq_ok body id.raw decoded in
    (
      record { length_24 = n; of_bytes = byte },
      (
        body,
        strip_prefix-eq_some op_prefix s body found,
        omega (arith, length-le-len body),
        IsAscii-of_len body (omega arith),
      ),
    )

upper_lower : (c : ℕ) → to_ascii_uppercase (to_ascii_lowercase c) ≡ to_ascii_uppercase c
unfolding to_ascii_uppercase to_ascii_lowercase
upper_lower c = ground arith

crockford_value_lower : (c : ℕ) → crockford_value (to_ascii_lowercase c) ≡ crockford_value c
unfolding crockford_value
crockford_value_lower c = rw (upper_lower c)

decode_loop_lower :
    (s : Str) (bits nbits : ℕ)
    → decode_loop bits nbits (map to_ascii_lowercase s) ≡ decode_loop bits nbits s
unfolding decode_loop
decode_loop_lower [] bits nbits = refl
decode_loop_lower (c ∷ cs) bits nbits = simp (crockford_value_lower, decode_loop_lower cs)

-- Reading an id ignores the case of its 39 characters.
pub parse-map_lower :
    (body : Str) → parse (op_prefix ++ map to_ascii_lowercase body) ≡ parse (op_prefix ++ body)
unfolding parse crockford_decode
parse-map_lower body = simp (strip_prefix-append, len-map_lower, decode_loop_lower)
