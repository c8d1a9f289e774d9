-- ===== src/Publish/Engine/Certain.antt =====
-- What `publish` returns: a publication of its own, or the one that the chain holds already.
pub mod Rounds
use mathlib.Core.Path.{subst}
use comb.Prelude.{ap, ℕ, ltb, ◌≡◌, true, false, Option, some, ◌==◌, arith, inl, inr, ◌⊎◌, ◌∙◌}
use comb.Prelude.Str.{Str, eqs, eqs_iff}
use comb.Core.Error.{CoreError, Result, ok, err, Result-cases}
use comb.Core.Digest.{Digest}
use comb.Core.Refs.{RefValue, ref_schema}
use comb.Core.Operation.Identity.{OpIdentity}
use comb.Core.Commit.{IntentState, pending_state, applied}
use comb.Object.Backend.{Version}
use comb.Object.Step.{Step, done, failed, continue, lift, pure, fail, core}
use comb.Object.Step.Inversion.{
  continue-eq_done, lift-eq_done, if-cases, match_option-cases, match_result-cases,
}
use comb.Store.Host.{Env, World}
use comb.Store.Keys.{Store, same_digest}
use comb.Publish.View.{Published, View, other_request, identity_in_commit, published_from_view}
use comb.Publish.View.Consistent.{IsConsistent, published_from_view-IsConsistent}
use comb.Publish.Head.{HeadSnapshot, read_head}
use comb.Publish.Seek.{seek_generation, recover_without_intent}
use comb.Publish.Seek.Lands.{seek_generation-IsSought}
use comb.Publish.Seek.Recovers.{recover_without_intent-IsConsistent}
use comb.Publish.Plan.{RefMutationPlan}
use comb.Publish.Intent.{
  Intent, max_publish_attempts, is_lost_race, is_unavailable, PendingResolution, resolved,
  attempt_at, view_as_cached, try_cached_applied, resolve_view, resolve_pending,
}
use comb.Publish.Attempt.{AttemptResult, finished, retry, attempt}
use comb.Publish.Attempt.Finished.{IsFirst, attempt-IsFirst}
use comb.Publish.Engine.{
  round_on, request_of, of_attempt, resume_from, resume, round_applied, round_new, publish_round,
  publish_loop, publish,
}

module _ {S E : Type 0} (env : Env S E) (store : Store env) {T : Type 0}
    (plan : RefMutationPlan env T) (identity : OpIdentity) where
  -- A publication of an earlier call, whose ref value is of this tenant and resource.
  abbrev pub IsEarlier : Published env.chrono T → Type 0
  IsEarlier p =
      (p.first_delivery ≡ false) × (p.value.tenant ≡ store.tenant) × (p.value.name ≡ plan.resource)

  -- A publication that agrees with itself, and is of this call or an earlier one.
  abbrev pub IsCertain : Published env.chrono T → Type 0
  IsCertain p =
      IsConsistent p × (((p.first_delivery ≡ true) × (p.value.schema ≡ ref_schema)) ⊎ IsEarlier p)

  resolved-inj :
      {p q : Published env.chrono T} {w after : World S E}
      → pure {S = World S E} (resolved p) w ≡ (done (resolved q), after)
      → p ≡ q
  resolved-inj h = ground arith

  of_attempt-eq_some :
      (result : AttemptResult (Published env.chrono T)) {p : Published env.chrono T}
      {w after : World S E}
      → pure {S = World S E} (of_attempt env store plan result) w ≡ (done (some p), after)
      → result ≡ finished p
  unfolding of_attempt
  of_attempt-eq_some (finished q) h = ground arith
  of_attempt-eq_some retry h = absurd (ground arith)

  pub view_as_cached-IsCertain :
      (view : View env) (p : Published env.chrono T)
      → view.header.resource ≡ plan.resource
      → view_as_cached env store plan.codec view identity ≡ some p
      → IsCertain p
  unfolding view_as_cached
  view_as_cached-IsCertain view p named h =
      elim (Result-cases (published_from_view env plan.codec view identity store.tenant false)) [
        | inr (e, q) ↦ absurd (ground (arith, q))
        | inl (r, q) ↦
            let (consistent, tenant, name, _, first) =
              published_from_view-IsConsistent env store plan.codec identity view false p
                (ground (arith, q)) in
            (consistent, inr (first, tenant, name ∙ named))
      ]

  resolve_view-IsCertain :
      (request : Digest) (head : ℕ) (view : View env) (p : Published env.chrono T)
      (w after : World S E)
      → view.header.resource ≡ plan.resource
      → resolve_view env store plan.codec identity request head view w ≡ (done (resolved p), after)
      → IsCertain p
  unfolding resolve_view
  resolve_view-IsCertain request head view p w after named h =
      elim (if-cases (identity_in_commit env view identity) _ _ h) [
        | inr (n, h1) ↦ absurd (ground (arith, h1))
        | inl (t, h1) ↦
            let (_, w1, _, h2) = continue-eq_done _ _ h1 in
            let (found, w2, e2, h3) = continue-eq_done _ _ h2 in
            let (_, w3, _, h4) = continue-eq_done _ _ h3 in
            let (_, w4, _, h5) = continue-eq_done _ _ h4 in
            let (read, _) =
              lift-eq_done (published_from_view env plan.codec view identity store.tenant false) w1
                e2 in
            let (consistent, tenant, name, _, first) =
              published_from_view-IsConsistent env store plan.codec identity view false found
                read in
            subst IsCertain (resolved-inj h5) (consistent, inr (first, tenant, name ∙ named))
      ]

  resolve_pending-IsCertain :
      (intent : Intent env) (request : Digest) (p : Published env.chrono T) (w after : World S E)
      → resolve_pending env store plan.codec identity intent request plan.resource w
        ≡ (done (resolved p), after)
      → IsCertain p
  unfolding resolve_pending
  resolve_pending-IsCertain intent request p w after h =
      let (snapshot, w1, _, h1) = continue-eq_done _ _ h in
      elim (if-cases (snapshot.value.generation == intent.base_generation) _ _ h1) [
        | inl (t, h2) ↦ absurd (ground (arith, h2))
        | inr (n, h2) ↦
            elim (if-cases (ltb snapshot.value.generation intent.base_generation) _ _ h2) [
              | inl (t, h3) ↦ absurd (ground (arith, h3))
              | inr (l, h3) ↦ elim (match_option-cases snapshot.value.head_commit _ _ h3) [
                | inl (q, h4) ↦ absurd (ground (arith, h4))
                | inr (d, q, h4) ↦
                    let (_, w2, _, h5) = continue-eq_done _ _ h4 in
                    let (sought, w3, _, h6) = continue-eq_done _ _ h5 in
                    let (_, w4, _, h7) = continue-eq_done _ _ h6 in
                    let (_, w5, e5, h8) = continue-eq_done _ _ h7 in
                    let (same, _) = lift-eq_done _ w4 e5 in
                    resolve_view-IsCertain request snapshot.value.generation sought.0 p w5 after
                      (ground (arith, same, eqs_iff sought.0.header.resource plan.resource)) h8
              ]
            ]
      ]

  resume_from-IsCertain :
      (intent : Intent env) (version : Option Version)
      (resolution : PendingResolution (Published env.chrono T)) (p : Published env.chrono T)
      (w after : World S E)
      → ((q : Published env.chrono T) → resolution ≡ resolved q → IsCertain q)
      → resume_from env store plan identity intent version resolution w ≡ (done (some p), after)
      → IsCertain p
  unfolding resume_from
  resume_from-IsCertain intent version (resolved q) p w after good h = good p (ground arith)
  resume_from-IsCertain intent version (attempt_at base) p w after good h =
      let (result, w1, e1, h1) = continue-eq_done _ _ h in
      let ((consistent, _, first, schema), _) =
        attempt-IsFirst env store plan identity intent version base (request_of env store plan) p w
          w1 (e1 ∙ ap (λ r. (done r, w1)) (of_attempt-eq_some result h1)) in
      (consistent, inl (first, schema))

  pub resume-IsCertain :
      (intent : Intent env) (version : Option Version) (p : Published env.chrono T)
      (w after : World S E)
      → resume env store plan identity intent version w ≡ (done (some p), after)
      → IsCertain p
  unfolding resume
  resume-IsCertain intent version p w after h =
      let (resolution, w1, e1, h1) = continue-eq_done _ _ h in
      resume_from-IsCertain intent version resolution p w1 after
        (λ q is_q.
          resolve_pending-IsCertain intent (request_of env store plan) q w w1
            (e1 ∙ ap (λ r. (done r, w1)) is_q))
        h1
