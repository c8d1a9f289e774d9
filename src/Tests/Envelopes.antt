-- ===== src/Tests/Envelopes.antt =====
-- Envelopes at concrete inputs.
use comb.Prelude.{ℕ, ◌≡◌, refl}
use comb.Prelude.{some, List, [], ◌∷◌, ◌++◌, arith}
use comb.Prelude.{length}
use comb.Prelude.{replicate}
use comb.Prelude.Str.{str, eqs}
use comb.Core.Error.{ok}
use comb.Core.Digest.{DigestKey, digest}
use comb.Core.Envelope.{
  Envelope, EnvelopeReadSpec, blob, new_envelope, encode, decode, u16_le, u32_le,
}
use comb.Core.Envelope.Bounded.{contains, decode_limited}
use comb.Core.Envelope.Decode.{IsAuthentic, decode-encode}
use comb.Core.Envelope.Limited.{Obeys, decode_limited-eq_ok}
use comb.Core.Envelope.Written.{decode_limited-encode}
use comb.Tests.Instances.{hex, hex_laws, blake3, blake3_laws}
use comb.Tests.Json.{json, json_reads_back, json_takes_fields, json_writes_object}

abbrev key : DigestKey
key = record { raw = replicate 32 9 }

abbrev sample : Envelope
sample = new_envelope hex blake3 (str "org") blob (str "s") (9 ∷ 10 ∷ []) key (str "now")

-- The metadata of the sample, and the whole object.
abbrev meta_bytes : List ℕ
meta_bytes =
    0 ∷ 2 ∷ 1 ∷ str "s"
    ++ (3 ∷ str "org"
        ++ (64 ∷ replicate 64 b'3'
            ++ (4 ∷ str "none" ++ (4 ∷ str "none" ++ (3 ∷ str "now" ++ [])))))

meta_written : json.to_vec sample.meta ≡ some meta_bytes
unfolding json new_envelope digest hex blake3
meta_written = refl

abbrev object_bytes : List ℕ
object_bytes =
    str "COMB" ++ (1 ∷ 0 ∷ 0 ∷ 0 ∷ length meta_bytes ∷ 0 ∷ 0 ∷ 0 ∷ (meta_bytes ++ (9 ∷ 10 ∷ [])))

object_written : encode json sample ≡ ok object_bytes
unfolding encode json new_envelope digest hex blake3 u16_le u32_le
object_written = refl

decode-encode_example : decode hex blake3 json object_bytes key ≡ ok sample
decode-encode_example =
    decode-encode hex_laws blake3_laws json_reads_back (str "org") blob (str "s") (9 ∷ 10 ∷ []) key
      (str "now") meta_bytes object_bytes (omega arith) meta_written (omega arith) object_written

abbrev spec : EnvelopeReadSpec
spec = record {
  tenant = str "org";
  kind = blob;
  allowed_schemas = str "x" ∷ str "s" ∷ [];
  max_encoded_bytes = 4096;
  max_plaintext_bytes = 2;
}

sample-Obeys : Obeys spec object_bytes sample
unfolding contains new_envelope eqs
sample-Obeys = record {
  encoded_cap = omega arith;
  plaintext_cap = omega arith;
  same_tenant = refl;
  of_kind = refl;
  allowed_schema = refl;
}

decode_limited-encode_example : decode_limited json hex blake3 object_bytes key spec ≡ ok sample
decode_limited-encode_example =
    decode_limited-encode hex_laws blake3_laws json_reads_back json_writes_object (str "org") blob
      (str "s") (9 ∷ 10 ∷ []) key (str "now") meta_bytes object_bytes spec (omega arith)
      meta_written (omega arith) object_written sample-Obeys

decode_limited-eq_ok_example : IsAuthentic hex blake3 key sample × Obeys spec object_bytes sample
decode_limited-eq_ok_example =
    decode_limited-eq_ok hex blake3 json key object_bytes spec sample json_takes_fields
      decode_limited-encode_example
