-- ===== src/Core/Envelope/Written.antt =====
-- crates/comb-core/src/envelope.rs: the checked read of an envelope that `encode` wrote.
use comb.Prelude.{ℕ, ◌<◌, ◌^◌, ◌≡◌, ap, ◌∙◌, some, List, take, drop, length, arith}
use comb.Prelude.Str.{Str}
use comb.Core.Error.{ok}
use comb.Core.Crates.{Hex, Blake3, HexLaws, Blake3Laws}
use comb.Core.Digest.{DigestKey}
use comb.Core.Digest.RoundTrip.{digest-IsCanonical}
use comb.Core.Envelope.{ObjectKind, EnvelopeReadSpec, MetaJson, new_envelope, encode, u32_at}
use comb.Core.Envelope.Bounded.{decode_limited}
use comb.Core.Envelope.Frame.{u32_at-frame, meta_at-frame, encode-eq_ok}
use comb.Core.Envelope.Decode.{ReadsBack, decode-encode}
use comb.Core.Envelope.Limited.{Obeys, WritesObject, decode_limited-decode}

module _ {x : Hex} (xl : HexLaws x) {b : Blake3} (bl : Blake3Laws b) {j : MetaJson}
    (jl : ReadsBack j) (jw : WritesObject j) where
  -- An envelope that `Envelope::new` made, whose metadata is written in fewer than 2 ^ 32 bytes: if
  -- `encode` accepts it and it keeps to a spec, reading the bytes under the same key and that spec
  -- gives it back.
  pub decode_limited-encode :
      (tenant : Str) (kind : ObjectKind) (schema : Str) (payload : List ℕ) (key : DigestKey)
      (at : Str) (meta bytes : List ℕ) (spec : EnvelopeReadSpec)
      → length payload < 2 ^ 64
      → j.to_vec (new_envelope x b tenant kind schema payload key at).meta ≡ some meta
      → length meta < 2 ^ 32
      → encode j (new_envelope x b tenant kind schema payload key at) ≡ ok bytes
      → Obeys spec bytes (new_envelope x b tenant kind schema payload key at)
      → decode_limited j x b bytes key spec
        ≡ ok (new_envelope x b tenant kind schema payload key at)
  unfolding WritesObject new_envelope
  decode_limited-encode tenant kind schema payload key at meta bytes spec small e fits h obeys =
      let env = new_envelope x b tenant kind schema payload key at in
      let (whole, bounded) = encode-eq_ok j env meta bytes e fits h in
      let (v, o, ev, eo, em, fields) =
        jw env.meta meta (digest-IsCanonical xl bl key payload) small e in
      let read : take (u32_at bytes 8) (drop 12 bytes) ≡ meta =
        rw (whole, u32_at-frame meta env.payload (omega (arith, fits)))
          (meta_at-frame meta env.payload (omega (arith, fits))) in
      decode_limited-decode x b j key bytes spec env v o
        (decode-encode xl bl jl tenant kind schema payload key at meta bytes small e fits h) obeys
        (ap j.value_from_slice read ∙ ev) eo em fields
