-- ===== src/Publish/Engine/Certain/Rounds.antt =====
-- Every round of `publish` gives a publication that is certain, or none.
use mathlib.Core.Path.{subst}
use comb.Prelude.{ap, ℕ, zero, suc, ltb, ◌≡◌, ◌||◌, Option, some, ◌==◌, arith, inl, inr, ◌∙◌}
use comb.Core.Digest.{Digest}
use comb.Core.Operation.Identity.{OpIdentity}
use comb.Core.Commit.{IntentState, pending_state, applied}
use comb.Object.Backend.{Version}
use comb.Object.Step.{done, pure}
use comb.Object.Step.Inversion.{continue-eq_done, if-cases, match_option-cases, match_result-cases}
use comb.Store.Host.{Env, World}
use comb.Store.Keys.{Store}
use comb.Publish.View.{Published}
use comb.Publish.Seek.{recover_without_intent}
use comb.Publish.Seek.Lands.{seek_generation-IsSought}
use comb.Publish.Seek.Recovers.{recover_without_intent-IsConsistent}
use comb.Publish.Plan.{RefMutationPlan}
use comb.Publish.Intent.{
  Intent, max_publish_attempts, is_lost_race, is_unavailable, try_cached_applied,
}
use comb.Publish.Engine.{
  round_on, request_of, round_applied, round_new, publish_round, publish_loop, publish,
}
use comb.Publish.Engine.Certain.{IsCertain, view_as_cached-IsCertain, resume-IsCertain}

module _ {S E : Type 0} (env : Env S E) (store : Store env) {T : Type 0}
    (plan : RefMutationPlan env T) (identity : OpIdentity) where
  recovered-IsCertain :
      (p : Published env.chrono T) (w after : World S E)
      → recover_without_intent env store plan.codec identity
          (request_of env store plan)
          plan.resource
          w
        ≡ (done (some p), after)
      → IsCertain env store plan identity p
  recovered-IsCertain p w after h =
      let (consistent, tenant, name, first) =
        recover_without_intent-IsConsistent env store plan.codec identity
          (request_of env store plan) plan.resource p w after h in
      (consistent, inr (first, tenant, name))

  some-inj :
      {p q : Published env.chrono T} {w after : World S E}
      → pure {S = World S E} (some p) w ≡ (done (some q), after)
      → p ≡ q
  some-inj h = ground arith

  try_cached_applied-IsCertain :
      (generation : ℕ) (commit : Digest) (p : Published env.chrono T) (w after : World S E)
      → try_cached_applied env store plan.codec plan.resource identity
          (request_of env store plan)
          generation
          commit
          w
        ≡ (done (some p), after)
      → IsCertain env store plan identity p
  unfolding try_cached_applied
  try_cached_applied-IsCertain generation commit p w after h =
      let (head, w1, _, h1) = continue-eq_done _ _ h in
      elim (match_option-cases head _ _ h1) [
        | inl (q, h2) ↦ absurd (ground (arith, h2))
        | inr (snapshot, q, h2) ↦
            elim (if-cases (generation == 0 || ltb snapshot.value.generation generation) _ _ h2) [
              | inl (t, h3) ↦ absurd (ground (arith, h3))
              | inr (n, h3) ↦ elim (match_option-cases snapshot.value.head_commit _ _ h3) [
                | inl (m, h4) ↦ absurd (ground (arith, h4))
                | inr (d, m, h4) ↦
                    let (sought, w2, e2, h5) = continue-eq_done _ _ h4 in
                    let (_, named) =
                      seek_generation-IsSought env store generation plan.resource d sought.0
                        sought.1 w1 w2 e2 in
                    view_as_cached-IsCertain env store plan identity sought.0 p named
                      (ground (arith, h5))
              ]
            ]
      ]

  round_applied-IsCertain :
      (intent : Intent env) (version : Option Version) (generation : ℕ) (commit : Digest)
      (p : Published env.chrono T) (w after : World S E)
      → round_applied env store plan identity intent version generation commit w
        ≡ (done (some p), after)
      → IsCertain env store plan identity p
  unfolding round_applied
  round_applied-IsCertain intent version generation commit p w after h =
      let (cached, w1, e1, h1) = continue-eq_done _ _ h in
      elim (match_option-cases cached _ _ h1) [
        | inr (q, is_q, h2) ↦ subst (IsCertain env store plan identity) (some-inj h2) (
            try_cached_applied-IsCertain generation commit q w w1
              (e1 ∙ ap (λ r. (done r, w1)) is_q))
        | inl (_, h2) ↦
            let (recovered, w2, e2, h3) = continue-eq_done _ _ h2 in
            elim (match_option-cases recovered _ _ h3) [
              | inr (q, is_q, h4) ↦
                  subst (IsCertain env store plan identity) (some-inj h4)
                    (recovered-IsCertain q w1 w2 (e2 ∙ ap (λ r. (done r, w2)) is_q))
              | inl (_, h4) ↦
                  let (snapshot, w3, _, h5) = continue-eq_done _ _ h4 in
                  resume-IsCertain env store plan identity _ version p w3 after h5
            ]
      ]

  round_new-IsCertain :
      (p : Published env.chrono T) (w after : World S E)
      → round_new env store plan identity w ≡ (done (some p), after)
      → IsCertain env store plan identity p
  unfolding round_new
  round_new-IsCertain p w after h =
      let (recovered, w1, e1, h1) = continue-eq_done _ _ h in
      elim (match_option-cases recovered _ _ h1) [
        | inr (q, is_q, h2) ↦
            subst (IsCertain env store plan identity) (some-inj h2)
              (recovered-IsCertain q w w1 (e1 ∙ ap (λ r. (done r, w1)) is_q))
        | inl (_, h2) ↦
            let (snapshot, w2, _, h3) = continue-eq_done _ _ h2 in
            let (answer, w3, _, h4) = continue-eq_done _ _ h3 in
            elim (match_result-cases answer _ _ h4) [
              | inl (_, _, h5) ↦ absurd (ground (arith, h5))
              | inr (e, _, h5) ↦ elim (if-cases (is_lost_race e || is_unavailable e) _ _ h5) [
                | inl (_, h6) ↦ absurd (ground (arith, h6))
                | inr (_, h6) ↦ absurd (ground (arith, h6))
              ]
            ]
      ]

  round_on-IsCertain :
      (intent : Intent env) (version : Option Version) (state : IntentState env.json.Value)
      (p : Published env.chrono T) (w after : World S E)
      → round_on env store plan identity intent version state w ≡ (done (some p), after)
      → IsCertain env store plan identity p
  unfolding round_on
  round_on-IsCertain intent version (applied generation commit result) p w after h =
      round_applied-IsCertain intent version generation commit p w after h
  round_on-IsCertain intent version pending_state p w after h =
      resume-IsCertain env store plan identity intent version p w after h

  publish_round-IsCertain :
      (p : Published env.chrono T) (w after : World S E)
      → publish_round env store plan identity w ≡ (done (some p), after)
      → IsCertain env store plan identity p
  unfolding publish_round
  publish_round-IsCertain p w after h =
      let (loaded, w1, _, h1) = continue-eq_done _ _ h in
      elim (match_option-cases loaded _ _ h1) [
        | inl (_, h2) ↦ round_new-IsCertain p w1 after h2
        | inr (held, _, h2) ↦
            let (_, w2, _, h3) = continue-eq_done _ _ h2 in
            round_on-IsCertain held.0 held.1 held.0.state p w2 after h3
      ]

  publish_loop-IsCertain :
      (left : ℕ) (p : Published env.chrono T) (w after : World S E)
      → publish_loop env store plan left identity w ≡ (done p, after)
      → IsCertain env store plan identity p
  unfolding publish_loop
  publish_loop-IsCertain zero p w after h = absurd (ground arith)
  publish_loop-IsCertain (suc left) p w after h =
      let (answer, w1, e1, h1) = continue-eq_done _ _ h in
      elim (match_option-cases answer _ _ h1) [
        | inl (_, h2) ↦ publish_loop-IsCertain left p w1 after h2
        | inr (q, is_q, h2) ↦
            subst (IsCertain env store plan identity) (ground (arith, h2))
              (publish_round-IsCertain q w w1 (e1 ∙ ap (λ r. (done r, w1)) is_q))
      ]

  -- Whatever the backend, the host and the plan do, a publication that `publish` returns agrees with
  -- itself: its ref value has its generation, epoch and commit. It is either told as a first delivery,
  -- with the current schema, or it is an earlier one, whose ref value is of this tenant and resource.
  pub publish-IsCertain :
      (p : Published env.chrono T) (w after : World S E)
      → publish env store plan identity w ≡ (done p, after)
      → IsCertain env store plan identity p
  unfolding publish
  publish-IsCertain p w after h =
      let (_, w1, _, h1) = continue-eq_done _ _ h in
      publish_loop-IsCertain max_publish_attempts p w1 after h1
