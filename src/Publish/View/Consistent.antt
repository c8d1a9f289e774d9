-- ===== src/Publish/View/Consistent.antt =====
-- A publication that is read from a view agrees with itself.
use comb.Prelude.{◌≡◌, Bool, some, arith, Option-cases, inl, inr}
use comb.Prelude.Str.{eqs_iff}
use comb.Core.Error.{ok, Result-cases}
use comb.Core.Crates.{Chrono}
use comb.Core.Operation.Identity.{OpIdentity}
use comb.Store.Host.{Env}
use comb.Store.Keys.{Store}
use comb.Publish.View.{View, Published, Codec, published_from_view, outcome_from_view}

-- The ref value of a publication is that of its generation, epoch and commit.
pub record IsConsistent {c : Chrono} {T : Type 0} (p : Published c T) : Type 0 where
  pub generation_agrees : p.value.generation ≡ p.generation
  pub epoch_agrees : p.value.epoch ≡ p.epoch
  pub commit_agrees : p.value.head_commit ≡ some p.commit

module _ {S E : Type 0} (env : Env S E) (store : Store env) {T : Type 0}
    (codec : Codec env.json.Value T) (identity : OpIdentity) where
  pub published_from_view-IsConsistent :
      (view : View env) (first : Bool) (p : Published env.chrono T)
      → published_from_view env codec view identity store.tenant first ≡ ok p
      → IsConsistent p
        × (p.value.tenant ≡ store.tenant)
        × (p.value.name ≡ view.header.resource)
        × (p.commit ≡ view.digest)
        × (p.first_delivery ≡ first)
  unfolding published_from_view
  published_from_view-IsConsistent view first p h =
      elim (Result-cases (outcome_from_view env codec view identity)) [
        | inr (e, q) ↦ absurd (ground arith)
        | inl (outcome, q) ↦ elim (Option-cases view.ref_state) [
          | inl n ↦ absurd (ground (arith, q, n))
          | inr (value, n) ↦ ground (
            arith,
            q,
            n,
            eqs_iff value.tenant store.tenant,
            eqs_iff value.name view.header.resource,
          )
        ]
      ]
