-- ===== src/Store/Blobs/Authentic.antt =====
-- A blob that is read is the plaintext of its digest, whatever stands in the cache and the backend.
use mathlib.Core.Path.{subst}
use comb.Prelude.{
  Option-cases, ℕ, ◌≤◌, ◌≡◌, true, Option, none, some, List, arith, length, Bool-cases, inl, inr,
  sym, ◌∙◌, ap,
}
use comb.Prelude.Str.{Str, eqs_iff}
use comb.Core.Error.{Result, ok, err, Result-cases}
use comb.Core.Digest.{Digest, digest}
use comb.Core.Envelope.{EnvelopeReadSpec, Envelope, decode}
use comb.Core.Envelope.Bounded.{decode_limited}
use comb.Core.Envelope.Decode.{IsAuthentic, decode-eq_ok}
use comb.Core.Envelope.Limited.{decode_limited-verified}
use comb.Object.Step.{Step, done, continue}
use comb.Object.Step.Inversion.{continue-eq_done, lift-eq_done}
use comb.Store.Host.{Env, World}
use comb.Store.Keys.{Store, same_digest, object_key}
use comb.Store.Blobs.{
  GetSource, size_keyed, cache_read, cache_read_limited, use_cached, accept, fetch, get_blob,
  try_cache, or_fetch, use_cached_limited, look_in_cache, fetch_limited, get_blob_limited,
}

module _ {S E : Type 0} (env : Env S E) (store : Store env) where
  -- The plaintext whose digest under the key of the store is `d`.
  abbrev pub IsPlaintext : Digest → List ℕ → Type 0
  IsPlaintext d payload = digest env.hex env.blake3 store.key payload ≡ d

  IsAuthentic-IsPlaintext :
      (d : Digest) (envelope : Envelope)
      → IsAuthentic env.hex env.blake3 store.key envelope
      → same_digest envelope.meta.digest d ≡ true
      → IsPlaintext d envelope.payload
  IsAuthentic-IsPlaintext d envelope a h =
      ground (arith, a.declared_digest, eqs_iff envelope.meta.digest.hex d.hex)

  accept-eq_done :
      (d : Digest) (bytes : List ℕ) (envelope : Envelope) (payload : List ℕ) (source : GetSource)
      (w after : World S E)
      → accept env store d bytes envelope w ≡ (done (payload, source), after)
      → (same_digest envelope.meta.digest d ≡ true) × (envelope.payload ≡ payload)
  unfolding accept continue
  accept-eq_done d bytes envelope payload source w after h = ground arith

  fetch-IsPlaintext :
      (d : Digest) (payload : List ℕ) (source : GetSource) (w after : World S E)
      → fetch env store d w ≡ (done (payload, source), after)
      → IsPlaintext d payload
  unfolding fetch
  fetch-IsPlaintext d payload source w after h =
      let (answer, w1, _, h1) = continue-eq_done _ _ h in
      let (found, w2, _, h2) = continue-eq_done _ _ h1 in
      let (envelope, w3, e3, h3) = continue-eq_done _ _ h2 in
      let (read, _) = lift-eq_done _ w2 e3 in
      let (same, whole) = accept-eq_done d found.0 envelope payload source w3 after h3 in
      let (authentic, _, _, _) =
        decode-eq_ok env.hex env.blake3 store.key env.meta_json found.0 envelope read in
      ap (digest env.hex env.blake3 store.key) (sym whole)
      ∙ IsAuthentic-IsPlaintext d envelope authentic same

  use_cached-IsPlaintext :
      (d : Digest) (bytes payload : List ℕ) (w after : World S E)
      → use_cached env store d bytes w ≡ (done (some payload), after)
      → IsPlaintext d payload
  unfolding use_cached continue
  use_cached-IsPlaintext d bytes payload w after h =
      elim (Result-cases (decode env.hex env.blake3 env.meta_json bytes store.key)) [
        | inr (e, q) ↦ absurd (ground arith)
        | inl (envelope, q) ↦
            let (authentic, _, _, _) =
              decode-eq_ok env.hex env.blake3 store.key env.meta_json bytes envelope q in
            elim (Bool-cases (same_digest envelope.meta.digest d)) [
              | inr n ↦ absurd (ground arith)
              | inl same ↦ ground (arith, IsAuthentic-IsPlaintext d envelope authentic same)
            ]
      ]

  -- Where a cached hit and a fetch are good, so is the answer.
  or_fetch-good :
      {Good : List ℕ → Type 0} (otherwise : Step (World S E) (List ℕ × GetSource))
      (hit : Option (List ℕ)) (payload : List ℕ) (source : GetSource) (w after : World S E)
      → ((p : List ℕ) → hit ≡ some p → Good p)
      → (otherwise w ≡ (done (payload, source), after) → Good payload)
      → or_fetch env store otherwise hit w ≡ (done (payload, source), after)
      → Good payload
  unfolding or_fetch
  or_fetch-good otherwise none payload source w after cached fetched h = fetched h
  or_fetch-good otherwise (some p) payload source w after cached fetched h =
      cached payload (ground arith)

  try_cache-IsPlaintext :
      (d : Digest) (payload : List ℕ) (w after : World S E)
      → try_cache env store d w ≡ (done (some payload), after)
      → IsPlaintext d payload
  unfolding try_cache continue
  try_cache-IsPlaintext d payload w after h = elim (Option-cases (cache_read env store d w.host)) [
    | inl n ↦ absurd (ground (arith, n))
    | inr (bytes, n) ↦ use_cached-IsPlaintext d bytes payload w after (ground (arith, n))
  ]

  -- An unbounded read returns the plaintext of the digest that was asked for, whatever bytes the
  -- cache and the backend hold.
  pub get_blob-IsPlaintext :
      (d : Digest) (payload : List ℕ) (source : GetSource) (w after : World S E)
      → get_blob env store d w ≡ (done (payload, source), after)
      → IsPlaintext d payload
  unfolding get_blob
  get_blob-IsPlaintext d payload source w after h =
      let (hit, w1, e1, h1) = continue-eq_done _ _ h in
      or_fetch-good {Good = IsPlaintext d} (fetch env store d) hit payload source w1 after
        (λ p q. try_cache-IsPlaintext d p w w1 (ground (arith, e1, q)))
        (fetch-IsPlaintext d payload source w1 after) h1

  module _ (d : Digest) (spec : EnvelopeReadSpec) where
    -- A plaintext of the digest within the cap.
    abbrev pub IsBounded : List ℕ → Type 0
    IsBounded payload = IsPlaintext d payload × (length payload ≤ spec.max_plaintext_bytes)

    decoded-IsBounded :
        (bytes : List ℕ) (envelope : Envelope)
        → decode_limited env.meta_json env.hex env.blake3 bytes store.key spec ≡ ok envelope
        → same_digest envelope.meta.digest d ≡ true
        → IsBounded envelope.payload
    decoded-IsBounded bytes envelope read same =
        let (declared, _, cap) =
          decode_limited-verified env.hex env.blake3 env.meta_json store.key bytes spec envelope
            read in
        (ground (arith, declared, eqs_iff envelope.meta.digest.hex d.hex, same), cap)

    size_keyed-eq_ok :
        {T : Type 0} (k : Str) (r : Result T) {t : T} → size_keyed k r ≡ ok t → r ≡ ok t
    unfolding size_keyed
    size_keyed-eq_ok k (ok t) h = h
    size_keyed-eq_ok k (err e) h = absurd (ground arith)

    fetch_limited-IsBounded :
        (payload : List ℕ) (source : GetSource) (w after : World S E)
        → fetch_limited env store d spec w ≡ (done (payload, source), after)
        → IsBounded payload
    unfolding fetch_limited
    fetch_limited-IsBounded payload source w after h =
        let (answer, w1, _, h1) = continue-eq_done _ _ h in
        let (found, w2, _, h2) = continue-eq_done _ _ h1 in
        let (envelope, w3, e3, h3) = continue-eq_done _ _ h2 in
        let (read, _) = lift-eq_done _ w2 e3 in
        let (same, whole) = accept-eq_done d found.0 envelope payload source w3 after h3 in
        subst IsBounded whole (
          decoded-IsBounded found.0 envelope (size_keyed-eq_ok (object_key env store d) _ read)
            same)

    use_cached_limited-IsBounded :
        (bytes payload : List ℕ) (w after : World S E)
        → use_cached_limited env store d spec bytes w ≡ (done (some payload), after)
        → IsBounded payload
    unfolding use_cached_limited continue
    use_cached_limited-IsBounded bytes payload w after h =
        elim (Result-cases (decode_limited env.meta_json env.hex env.blake3 bytes store.key spec)) [
          | inr (e, q) ↦ absurd (ground (arith, q))
          | inl (envelope, q) ↦ elim (Bool-cases (same_digest envelope.meta.digest d)) [
            | inr n ↦ absurd (ground (arith, q, n))
            | inl same ↦ ground (arith, decoded-IsBounded bytes envelope q same)
          ]
        ]

    look_in_cache-IsBounded :
        (payload : List ℕ) (w after : World S E)
        → look_in_cache env store d spec w ≡ (done (some payload), after)
        → IsBounded payload
    unfolding look_in_cache continue
    look_in_cache-IsBounded payload w after h =
        elim (Result-cases
          (cache_read_limited env store d (object_key env store d) spec.max_encoded_bytes w.host)) [
            | inr (e, q) ↦ absurd (ground (arith, q))
            | inl (none, q) ↦ absurd (ground (arith, q))
            | inl (some bytes, q) ↦
                use_cached_limited-IsBounded bytes payload w after (ground (arith, q))
          ]

    -- A bounded read returns the plaintext of the digest that was asked for, within the plaintext cap,
    -- whatever bytes the cache and the backend hold.
    pub get_blob_limited-IsBounded :
        (payload : List ℕ) (source : GetSource) (w after : World S E)
        → get_blob_limited env store d spec w ≡ (done (payload, source), after)
        → IsBounded payload
    unfolding get_blob_limited
    get_blob_limited-IsBounded payload source w after h =
        let (hit, w1, e1, h1) = continue-eq_done _ _ h in
        or_fetch-good {Good = IsBounded} (fetch_limited env store d spec) hit payload source w1
          after (λ p q. look_in_cache-IsBounded p w w1 (ground (arith, e1, q)))
          (fetch_limited-IsBounded payload source w1 after) h1
