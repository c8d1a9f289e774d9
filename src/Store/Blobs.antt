-- ===== src/Store/Blobs.antt =====
-- crates/combctl/src/store.rs: blobs, read through the cache and written to the backend.
pub mod Authentic
use comb.Prelude.{
  ℕ, Bool, true, false, not, ◌&&◌, Option, none, some, List, ltb, length, if◌then◌else◌,
}
use comb.Prelude.Str.{Str, str}
use comb.Core.Error.{
  CoreError, Result, ok, err, object_too_large, already_exists, precondition_failed,
}
use comb.Core.Digest.{Digest, digest}
use comb.Core.Envelope.{
  ObjectKind, blob, Envelope, EnvelopeReadSpec, new_envelope, encode, decode, payload_suffix,
}
use comb.Core.Envelope.Bounded.{decode_limited}
use comb.Object.Backend.{Version, too_large, read_at_most, saturating_suc}
use comb.Object.Step.{AnyError, core, other, Step, ◌>>=◌, ◌>>◌, pure, lift, fail}
use comb.Store.Host.{Env, World, ask, peek, touch, tick}
use comb.Store.Keys.{Store, object_key, cache_path, same_digest}
use mathlib.Core.Option

pub data GetSource : Type 0 where
  cache backend : GetSource

-- `Err(CoreError::AlreadyExists(_))`.
unfoldable pub is_already_exists : CoreError → Bool
is_already_exists (already_exists k) = true
is_already_exists _ = false

unfoldable pub is_too_large : CoreError → Bool
is_too_large (object_too_large k limit actual) = true
is_too_large _ = false

-- `size_key`.
unfoldable pub size_key : CoreError → Str → CoreError
size_key (object_too_large k limit actual) object_key = object_too_large object_key limit actual
size_key e object_key = e

unfoldable pub size_keyed : {T : Type 0} → Str → Result T → Result T
unfolding size_key
size_keyed object_key (ok t) = ok t
size_keyed object_key (err e) = err (size_key e object_key)

-- `anyhow_digest_mismatch`.
abbrev pub digest_mismatch : AnyError
digest_mismatch = other "backend returned object whose digest does not match {digest}"

module _ {S E : Type 0} (env : Env S E) (store : Store env) where
  -- `cache_read`.
  unfoldable pub cache_read : Digest → E → Option (List ℕ)
  cache_read d e = elim (cache_path env store d) [
    | none ↦ none
    | some path ↦ env.host.read_file path e
  ]

  -- `cache_read_limited`.
  unfoldable pub cache_read_limited : Digest → Str → ℕ → E → Result (Option (List ℕ))
  cache_read_limited d object_key limit e = elim (cache_path env store d) [
    | none ↦ ok none
    | some path ↦ elim (env.host.file_len path e) [
      | none ↦ ok none
      | some n ↦
          if ltb limit n
          then err (too_large object_key limit (some n))
          else elim (env.host.open_file path e) [
            | none ↦ ok none
            | some file ↦ elim (read_at_most file (saturating_suc limit)) [
              | err _ ↦ ok none
              | ok buf ↦
                  if ltb limit (length buf)
                  then err (too_large object_key limit none)
                  else ok (some buf)
            ]
          ]
    ]
  ]

  -- `cache_write`.
  unfoldable pub cache_write : Digest → List ℕ → E → E
  cache_write d bytes e = elim (cache_path env store d) [
    | none ↦ e
    | some path ↦ env.host.write_file path bytes e
  ]

  -- `cache_quarantine`.
  unfoldable pub cache_quarantine : Digest → E → E
  cache_quarantine d e = elim (cache_path env store d) [
    | none ↦ e
    | some path ↦ env.host.quarantine_file path e
  ]

  -- `Envelope::new`, which reads the clock.
  unfoldable pub stamp : ObjectKind → Str → List ℕ → Step (World S E) Envelope
  unfolding new_envelope
  stamp kind schema payload = do
    now ← tick env.host.utc_now
    pure (
        new_envelope env.hex env.blake3 store.tenant kind schema payload store.key
          (env.chrono.to_rfc3339 now))

  -- `self.backend.put_create`, whose backend may read the clock.
  unfoldable pub create : Str → List ℕ → Step (World S E) (Result Version)
  create key body = do now ← tick env.host.utc_now; ask (store.backend.put_create key body now)

  -- `put_create` of an object under its digest, and the copy in the cache: whether it was there.
  unfoldable pub put_encoded : Digest → List ℕ → Step (World S E) Bool
  unfolding create cache_write is_already_exists
  put_encoded d bytes = do
    answer ← create (object_key env store d) bytes
    dedup ← elim answer [
      | ok version ↦ pure false
      | err e ↦ if is_already_exists e then pure true else fail (core e)
    ]
    touch (cache_write d bytes)
    pure dedup

  -- `Store::put_blob`.
  unfoldable pub put_blob : List ℕ → Step (World S E) (Digest × Bool)
  unfolding stamp put_encoded
  put_blob payload = do
    envelope ← stamp blob (str "comb.object/v1") payload
    bytes ← lift (encode env.meta_json envelope)
    dedup ← put_encoded envelope.meta.digest bytes
    pure (envelope.meta.digest, dedup)

  -- `Store::put_object`.
  unfoldable pub put_object : ObjectKind → Str → List ℕ → ℕ → Step (World S E) Digest
  unfolding stamp put_encoded
  put_object kind schema payload limit = do
    envelope ← stamp kind schema payload
    bytes ← lift (encode env.meta_json envelope)
    (if ltb limit (length bytes)
        then fail (
            core (
              object_too_large (object_key env store envelope.meta.digest) limit
                (some (length bytes))))
        else (do put_encoded envelope.meta.digest bytes; pure envelope.meta.digest))

  -- What `get_blob` does with a cached copy: its payload, or quarantine.
  unfoldable pub use_cached : Digest → List ℕ → Step (World S E) (Option (List ℕ))
  unfolding cache_quarantine
  use_cached d bytes = elim (decode env.hex env.blake3 env.meta_json bytes store.key) [
    | err e ↦ touch (cache_quarantine d) >> pure none
    | ok envelope ↦
        if same_digest envelope.meta.digest d
        then pure (some envelope.payload)
        else touch (cache_quarantine d) >> pure none
  ]

  -- The end of both reads: the copy of the backend is checked, and kept in the cache.
  unfoldable pub accept : Digest → List ℕ → Envelope → Step (World S E) (List ℕ × GetSource)
  unfolding cache_write
  accept d bytes envelope =
      if same_digest envelope.meta.digest d
      then touch (cache_write d bytes) >> pure (envelope.payload, backend)
      else fail digest_mismatch

  -- The part of `get_blob` behind the cache.
  unfoldable pub fetch : Digest → Step (World S E) (List ℕ × GetSource)
  unfolding accept
  fetch d = do
    answer ← ask (store.backend.get (object_key env store d))
    found ← lift answer
    envelope ← lift (decode env.hex env.blake3 env.meta_json found.0 store.key)
    accept d found.0 envelope

  -- The cached copy, where it is good.
  unfoldable pub try_cache : Digest → Step (World S E) (Option (List ℕ))
  unfolding cache_read use_cached
  try_cache d = do
    cached ← peek (cache_read d)
    elim cached [ none ↦ pure none | some bytes ↦ use_cached d bytes ]

  -- A hit is returned, and a miss fetches.
  unfoldable pub or_fetch :
      Step (World S E) (List ℕ × GetSource)
      → Option (List ℕ)
      → Step (World S E) (List ℕ × GetSource)
  or_fetch otherwise none = otherwise
  or_fetch otherwise (some payload) = pure (payload, cache)

  -- `Store::get_blob`.
  unfoldable pub get_blob : Digest → Step (World S E) (List ℕ × GetSource)
  unfolding try_cache or_fetch fetch
  get_blob d = do hit ← try_cache d; or_fetch (fetch d) hit

  -- `cache_plaintext_cap_is_authoritative`.
  unfoldable pub cache_plaintext_cap_is_authoritative : List ℕ → Digest → EnvelopeReadSpec → Bool
  cache_plaintext_cap_is_authoritative bytes d spec = elim (payload_suffix bytes) [
    | none ↦ false
    | some payload ↦
        ltb spec.max_plaintext_bytes (length payload)
        && same_digest (digest env.hex env.blake3 store.key payload) d
  ]

  -- What `get_blob_limited` does with a cached copy.
  unfoldable pub use_cached_limited :
      Digest → EnvelopeReadSpec → List ℕ → Step (World S E) (Option (List ℕ))
  unfolding cache_quarantine cache_plaintext_cap_is_authoritative is_too_large size_key
  use_cached_limited d spec bytes =
      elim (decode_limited env.meta_json env.hex env.blake3 bytes store.key spec) [
        | ok envelope ↦
            if same_digest envelope.meta.digest d
            then pure (some envelope.payload)
            else touch (cache_quarantine d) >> pure none
        | err e ↦
            if is_too_large e && cache_plaintext_cap_is_authoritative bytes d spec
            then fail (core (size_key e (object_key env store d)))
            else touch (cache_quarantine d) >> pure none
      ]

  -- The match of `get_blob_limited` on the bounded read of the cache.
  unfoldable pub look_in_cache : Digest → EnvelopeReadSpec → Step (World S E) (Option (List ℕ))
  unfolding cache_read_limited use_cached_limited
  look_in_cache d spec = do
    cached ← peek (cache_read_limited d (object_key env store d) spec.max_encoded_bytes)
    elim cached [
      | ok none ↦ pure none
      | ok (some bytes) ↦ use_cached_limited d spec bytes
      | err e ↦ if is_too_large e then touch (cache_quarantine d) >> pure none else fail (core e)
    ]

  -- The part of `get_blob_limited` behind the cache.
  unfoldable pub fetch_limited : Digest → EnvelopeReadSpec → Step (World S E) (List ℕ × GetSource)
  unfolding accept size_keyed
  fetch_limited d spec = do
    answer ← ask (store.backend.get_limited (object_key env store d) spec.max_encoded_bytes)
    found ← lift (size_keyed (object_key env store d) answer)
    envelope ← lift (
        size_keyed (object_key env store d)
          (decode_limited env.meta_json env.hex env.blake3 found.0 store.key spec))
    accept d found.0 envelope

  -- `Store::get_blob_limited`.
  unfoldable pub get_blob_limited :
      Digest → EnvelopeReadSpec → Step (World S E) (List ℕ × GetSource)
  unfolding look_in_cache or_fetch fetch_limited
  get_blob_limited d spec = do hit ← look_in_cache d spec; or_fetch (fetch_limited d spec) hit
