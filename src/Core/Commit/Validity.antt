-- ===== src/Core/Commit/Validity.antt =====
-- What validated commits and intents hold.
use comb.Prelude.{ℕ, ◌≤◌, ◌≡◌, refl, inl, inr}
use comb.Prelude.{Option, arith}
use comb.Prelude.{length}
use comb.Prelude.Str.{Str, eqs_iff}
use comb.Core.Error.{ok, Result-cases}
use comb.Core.Crates.{Hex, HexLaws, Chrono}
use comb.Core.Digest.{Digest}
use comb.Core.Operation.Identity
use comb.Core.Operation.Identity.{OpIdentity, IsIdentity, canonical}
use comb.Core.Operation.Identity.Text
use comb.Core.Commit.{OpIntent, intent_schema, validate_intent, pending}

module _ {x : Hex} (xl : HexLaws x) {c : Chrono} {J : Type 0} where
  -- A validated intent has the intent schema, an identity that reads, and at most 64 proposals.
  pub validate_intent-eq_ok :
      (i : OpIntent c J)
      → validate_intent x i ≡ ok tt
      → (i.schema ≡ intent_schema)
        × ((identity : OpIdentity) × (Identity.parse x i.identity ≡ ok identity)
            × IsIdentity identity)
        × (length i.proposed ≤ 64)
  unfolding validate_intent
  validate_intent-eq_ok i h = elim (Result-cases (Identity.parse x i.identity)) [
    | inr (e, bad) ↦ absurd (ground arith)
    | inl (identity, found) ↦ (
      (eqs_iff i.schema intent_schema).0 (ground arith),
      (identity, found, Identity.Text.parse-IsIdentity xl i.identity identity found),
      ground arith,
    )
  ]

module _ {x : Hex} (xl : HexLaws x) (c : Chrono) (J : Type 0) where
  -- A fresh intent is valid, and its identity reads back.
  pub validate_intent-pending :
      (identity : OpIdentity) (resource : Str) (request : Digest) (base : ℕ)
      (expires_at : Option c.Time)
      → IsIdentity identity
      → (validate_intent x (pending x {c = c} {J = J} identity resource request base expires_at)
          ≡ ok tt)
        × (Identity.parse x
              (pending x {c = c} {J = J} identity resource request base expires_at).identity
            ≡ ok identity)
  unfolding validate_intent pending
  validate_intent-pending identity resource request base expires_at h =
      let reads = Identity.Text.parse-canonical xl identity h in
      (rw ((eqs_iff intent_schema intent_schema).1 refl, reads), reads)
