-- ===== src/Core/Operation/Material.antt =====
-- crates/comb-core/src/operation.rs: material hashes over length-prefixed fields.
pub mod Framing
pub mod Order
use comb.Prelude.{ℕ, ◌/◌, ◌%◌, ◌^◌}
use comb.Prelude.{Bool, true, false, ◌&&◌, ◌||◌, Option, List, [], ◌∷◌, ◌++◌, map}
use comb.Prelude.{ltb, ◌==◌, if◌then◌else◌, length}
use comb.Prelude.Str.{Str, str, bytes}
use comb.Core.Crates.{Hex, Blake3}
use comb.Core.Digest.{Digest, DigestKey, digest, raw}
use comb.Core.Operation.Stable.{StableKey}
use mathlib.Core.Option

-- `put_u64`: `to_be_bytes`.
unfoldable pub put_u64 : List ℕ → ℕ → List ℕ
put_u64 buf n =
    buf
    ++ n / 2 ^ 56 % 256
      ∷ n / 2 ^ 48 % 256
      ∷ n / 2 ^ 40 % 256
      ∷ n / 2 ^ 32 % 256
      ∷ n / 2 ^ 24 % 256
      ∷ n / 2 ^ 16 % 256
      ∷ n / 2 ^ 8 % 256
      ∷ n % 256
      ∷ []

-- `put_bytes`.
unfoldable pub put_bytes : List ℕ → List ℕ → List ℕ
put_bytes buf b = put_u64 buf (length b) ++ b

-- `for f in fields { put_bytes(&mut buf, f); }`
unfoldable pub put_all : List ℕ → List (List ℕ) → List ℕ
put_all buf [] = buf
put_all buf (f ∷ fs) = put_all (put_bytes buf f) fs

-- The buffer of `domain_hash`.
unfoldable pub domain_buffer : Str → List (List ℕ) → List ℕ
domain_buffer domain fields = put_all (put_u64 (put_bytes [] (bytes domain)) (length fields)) fields

-- `Ord::cmp` on texts compares their bytes in dictionary order; this is `a <= b`.
unfoldable pub leb_bytes : List ℕ → List ℕ → Bool
leb_bytes [] b = true
leb_bytes (x ∷ xs) [] = false
leb_bytes (x ∷ xs) (y ∷ ys) = ltb x y || (x == y && leb_bytes xs ys)

-- A stable sort by name: `sort_by(|a, b| a.0.cmp(&b.0))`.
abbrev pub Precondition : Type 0
Precondition = Str × List ℕ

unfoldable pub insert : Precondition → List Precondition → List Precondition
insert p [] = p ∷ []
insert p (q ∷ qs) = if leb_bytes (bytes p.0) (bytes q.0) then p ∷ q ∷ qs else q ∷ insert p qs

unfoldable pub sort_by_name : List Precondition → List Precondition
unfolding insert
sort_by_name [] = []
sort_by_name (p ∷ ps) = insert p (sort_by_name ps)

pub record Material : Type 0 where
  pub kind : Str
  pub preconditions : List Precondition
  pub payload : List (List ℕ)

-- `for (name, value) in &pre { put_bytes(name); put_bytes(value); }`
unfoldable pub put_preconditions : List ℕ → List Precondition → List ℕ
put_preconditions buf [] = buf
put_preconditions buf ((name, value) ∷ ps) =
    put_preconditions (put_bytes (put_bytes buf (bytes name)) value) ps

-- The buffer of `Material::hash`.
unfoldable pub material_buffer : Material → Str → Str → List ℕ
material_buffer m tenant resource =
    let start =
      put_bytes
        (put_bytes (put_bytes (put_bytes [] (bytes (str "comb.material/v1"))) (bytes tenant))
          (bytes m.kind))
        (bytes resource) in
    let pre = sort_by_name m.preconditions in
    let named = put_preconditions (put_u64 start (length pre)) pre in
    put_all (put_u64 named (length m.payload)) m.payload

module _ (x : Hex) (b : Blake3) (key : DigestKey) where
  -- `domain_hash`.
  unfoldable pub domain_hash : Str → List (List ℕ) → Digest
  unfolding domain_buffer
  domain_hash domain fields = digest x b key (domain_buffer domain fields)

  -- `Material::hash`.
  unfoldable pub material_hash : Material → Str → Str → Digest
  unfolding material_buffer
  material_hash m tenant resource = digest x b key (material_buffer m tenant resource)

  -- `StableKey::path_digest`.
  unfoldable pub path_digest : StableKey → Str → Str → Digest
  unfolding domain_hash
  path_digest k tenant logical_log =
      domain_hash (str "comb.log.stable-key-path/v1")
        (bytes tenant ∷ bytes logical_log ∷ k.raw ∷ [])

  -- `StableKey::payload_hash`.
  unfoldable pub payload_hash : List ℕ → Digest
  unfolding domain_hash
  payload_hash payload = domain_hash (str "comb.log.stable-payload/v1") (payload ∷ [])

  -- `StableKey::request_hash`; `none` stands for the `expect` of `Digest::raw`.
  unfoldable pub request_hash : StableKey → Str → Str → Digest → Option Digest
  unfolding domain_hash
  request_hash k tenant logical_log payload =
      Option.map
        (λ raw_payload.
          domain_hash (str "comb.log.append-stable/v1")
            (bytes tenant ∷ bytes logical_log ∷ k.raw ∷ raw_payload ∷ []))
        (raw x payload)
