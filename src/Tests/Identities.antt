-- ===== src/Tests/Identities.antt =====
-- Digests, operation ids, identities, material hashes and commits at concrete inputs.
use comb.Prelude.{ℕ, ◌*◌, ◌^◌, ◌≡◌, refl, ◌≢◌}
use comb.Prelude.{true, false, none, List, [], ◌∷◌, ◌++◌, arith}
use comb.Prelude.{if◌then◌else◌}
use comb.Prelude.{replicate}
use comb.Prelude.Str.{Str, str, bytes, strip_prefix, to_ascii_lowercase, encode_utf8}
use comb.Core.Error.{ok, err, unknown_operation}
use comb.Core.Crates.{Hex, Blake3, Chrono}
use comb.Core.Digest
use comb.Core.Digest.{Digest, DigestKey, IsCanonical, digest}
use comb.Core.Operation.Id
use comb.Core.Operation.Id.{
  OperationId, IsId, op_prefix, OperationPolicy, from_millis_and_entropy, issued_at_millis,
  check_time, expires_at,
}
use comb.Core.Operation.Id.Text.{parse-to_string}
use comb.Core.Operation.Id.Gate.{retry_until_expiry}
use comb.Core.Operation.Stable.{StableKey, IsKey}
use comb.Core.Operation.Identity
use comb.Core.Operation.Identity.{OpIdentity, IsIdentity, generic, stable, canonical}
use comb.Core.Operation.Identity.Text.{parse-canonical}
use comb.Core.Operation.Material.{
  Material, domain_buffer, material_buffer, material_hash, sort_by_name,
}
use comb.Core.Operation.Material.Framing.{
  domain_buffer-injective, material_buffer-injective, FitsMaterial, precondition_fields,
  header_fields,
}
use comb.Core.Operation.Material.Order.{swap, material_hash-Reordered}
use comb.Core.Commit.{
  pending_state, skip_distance, skip_target_generation, OpIntent, validate_intent, intent_schema,
}
use comb.Core.Commit.Skip.{LowBit, skip_distance-LowBit, skip_chain, skip_chain_ends}
use comb.Tests.Instances.{hex, hex_laws, blake3, chrono, chrono_laws}

abbrev key : DigestKey
key = record { raw = replicate 32 7 }

abbrev zeros : Digest
zeros = record { hex = replicate 64 b'0' }

digest_reads : Digest.parse (str "b3k:" ++ replicate 64 b'0') ≡ ok zeros
unfolding Digest.parse strip_prefix bytes comb.Core.Crates.is_lower_hex
digest_reads = refl

abbrev some_id : OperationId
some_id = record { raw = replicate 24 0 }

some_id-IsId : IsId some_id
some_id-IsId = record { length_24 = refl; of_bytes = omega arith }

id_text : Id.to_string some_id ≡ str "op_" ++ replicate 39 b'0'
unfolding Id.to_string comb.Core.Operation.Crockford.crockford_encode
    comb.Core.Operation.Crockford.symbol
id_text = refl

parse-to_string_example : Id.parse (Id.to_string some_id) ≡ ok some_id
parse-to_string_example = parse-to_string some_id some_id-IsId

-- A letter O reads as a zero.
id_alias : Id.parse (str "op_" ++ (replicate 38 b'0' ++ b'o' ∷ [])) ≡ ok some_id
unfolding Id.parse strip_prefix bytes comb.Core.Operation.Crockford.crockford_decode
    comb.Core.Operation.Crockford.crockford_value comb.Core.Operation.Crockford.position
    comb.Core.Operation.Crockford.mapped comb.Core.Operation.Crockford.to_ascii_uppercase
id_alias = refl

abbrev policy : OperationPolicy chrono
policy = record { window = 1000; first_use = 300; max_future_skew = 120 }

gate_open : check_time chrono some_id 200 policy false ≡ ok tt
unfolding check_time expires_at Id.issued_at issued_at_millis
gate_open = refl

retry_until_expiry_example : check_time chrono some_id 999 policy true ≡ (
    if chrono.before 999 (expires_at chrono some_id policy)
    then ok tt
    else err (
        unknown_operation
          (Id.to_string some_id)
          (chrono.to_rfc3339 (expires_at chrono some_id policy))))
retry_until_expiry_example =
    retry_until_expiry chrono_laws some_id policy 200 999 false gate_open refl

abbrev order : StableKey
order = record { raw = 1 ∷ 255 ∷ [] }

parse-canonical_example : Identity.parse hex (canonical hex (stable order)) ≡ ok (stable order)
parse-canonical_example =
    parse-canonical hex_laws (stable order)
      (record { nonempty = omega arith; bounded = omega arith; of_bytes = omega arith })

order_reads : Identity.parse hex (str "sk_01ff") ≡ ok (stable order)
unfolding Identity.parse hex comb.Prelude.Str.starts_with comb.Core.Operation.Stable.parse
    strip_prefix bytes comb.Core.Operation.Stable.try_from_canonical
order_reads = refl

abbrev one_field : List (List ℕ)
one_field = (1 ∷ []) ∷ []

domain_buffer-injective_example : (bytes (str "d") ≡ bytes (str "d")) × (one_field ≡ one_field)
unfolding bytes
domain_buffer-injective_example =
    domain_buffer-injective (str "d") (str "d") one_field one_field (omega arith) (omega arith)
      (omega arith) (omega arith) (omega arith) (omega arith) refl

abbrev put : Material
put = record {
  kind = str "put";
  preconditions = (str "b", 1 ∷ []) ∷ (str "a", 2 ∷ []) ∷ [];
  payload = (3 ∷ []) ∷ [];
}

put_fits : FitsMaterial put (str "t") (str "r")
unfolding sort_by_name bytes encode_utf8 comb.Core.Operation.Material.leb_bytes
put_fits = record {
  header = omega arith;
  preconditions = omega arith;
  precondition_count = omega arith;
  payload = omega arith;
  payload_count = omega arith;
}

material_buffer-injective_example :
    (header_fields put (str "t") (str "r") ≡ header_fields put (str "t") (str "r"))
    × (precondition_fields (sort_by_name put.preconditions)
        ≡ precondition_fields (sort_by_name put.preconditions))
    × (put.payload ≡ put.payload)
material_buffer-injective_example =
    material_buffer-injective put put (str "t") (str "t") (str "r") (str "r") put_fits put_fits refl

names_differ : bytes (str "b") ≢ bytes (str "a")
unfolding bytes encode_utf8
names_differ = ground arith

material_hash-Reordered_example :
    material_hash hex blake3 key put (str "t") (str "r")
    ≡ material_hash hex blake3 key
        (record put { preconditions = (str "a", 2 ∷ []) ∷ (str "b", 1 ∷ []) ∷ [] })
        (str "t")
        (str "r")
material_hash-Reordered_example =
    material_hash-Reordered hex blake3 key put ((str "a", 2 ∷ []) ∷ (str "b", 1 ∷ []) ∷ [])
      (str "t") (str "r") (swap (str "b", 1 ∷ []) (str "a", 2 ∷ []) [] names_differ)

skip_distance-LowBit_example :
    (low : LowBit 12 (skip_distance 12)) × (skip_target_generation 12
      ≡ 2 ^ low.bit * (2 * low.above))
skip_distance-LowBit_example = skip_distance-LowBit 12 (omega arith) (omega arith)

skip_distances : skip_distance 12 ≡ 4
unfolding skip_distance
skip_distances = refl

skip_chain_ends_example : skip_chain 64 1000003 ≡ 0
skip_chain_ends_example = skip_chain_ends 1000003 (omega arith)

abbrev fresh : OpIntent chrono ℕ
fresh = record {
  schema = intent_schema;
  identity = str "sk_01ff";
  resource = str "r";
  request = zeros;
  base_generation = 3;
  proposed = zeros ∷ [];
  state = pending_state;
  expires_at = none;
}

fresh_valid : validate_intent hex fresh ≡ ok tt
unfolding validate_intent Identity.parse hex comb.Prelude.Str.eqs comb.Prelude.Str.starts_with
    comb.Core.Operation.Stable.parse strip_prefix bytes
    comb.Core.Operation.Stable.try_from_canonical
fresh_valid = refl
