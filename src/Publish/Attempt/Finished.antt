-- ===== src/Publish/Attempt/Finished.antt =====
-- An attempt that finished: it swapped the ref to what it reports, the generation after its base.
use mathlib.Core.Path.{subst}
use comb.Prelude.{
  ℕ, ◌+◌, ◌≡◌, ap, ◌∙◌, true, not, Option, none, some, List, ◌==◌, arith, inl, inr, if◌then◌else◌,
}
use comb.Core.Error.{CoreError, ok}
use comb.Core.Digest.{Digest}
use comb.Core.Refs.{ref_schema}
use comb.Core.Operation.Identity.{OpIdentity}
use comb.Object.Backend.{Version}
use comb.Object.Step.{done, pure, fail, core}
use comb.Object.Step.Inversion.{continue-eq_done, lift-eq_done, if-cases, match_result-cases}
use comb.Store.Host.{Env, World}
use comb.Store.Keys.{Store}
use comb.Publish.View.{Published}
use comb.Publish.View.Consistent.{IsConsistent}
use comb.Publish.Head.{HeadSnapshot, head_or_empty}
use comb.Publish.Plan.{PreparedMutation, RefMutationPlan}
use comb.Publish.Intent.{Intent, is_lost_race}
use comb.Publish.Attempt.{
  finished, retry, Sealed, next_ref, published, put_ref, replace_head, stage_objects,
  next_generation, attempt_on, attempt,
}

module _ {S E : Type 0} (env : Env S E) (store : Store env) {T : Type 0}
    (plan : RefMutationPlan env T) (identity : OpIdentity) where
  -- A first delivery of a generation, whose ref value agrees with it.
  abbrev pub IsFirst : ℕ → Published env.chrono T → Type 0
  IsFirst generation p =
      IsConsistent p
      × (p.generation ≡ generation)
      × (p.first_delivery ≡ true)
      × (p.value.schema ≡ ref_schema)

  -- The compare-and-swap of the ref, against the version that was read, to the value that is reported
  -- went through.
  abbrev pub Landed : HeadSnapshot env.chrono → Published env.chrono T → Type 0
  Landed snapshot p =
      (version : Version) × (before : World S E) × (behind : World S E) × (put_ref env store
          plan.resource snapshot.version p.value before
        ≡ (done (ok version), behind))

  -- Both.
  abbrev IsLanded : HeadSnapshot env.chrono → ℕ → Published env.chrono T → Type 0
  IsLanded snapshot generation p = IsFirst generation p × Landed snapshot p

  published-IsFirst :
      (prepared : PreparedMutation env T) (generation : ℕ) (commit : Digest) (upload : Option ℕ)
      → prepared.next.generation ≡ generation
      → IsFirst generation (
          published env store prepared generation commit
            (next_ref env store prepared.next commit upload))
  unfolding published next_ref
  published-IsFirst prepared generation commit none h = ground arith
  published-IsFirst prepared generation commit (some idx) h = ground arith

  -- A lost race finishes nothing.
  retried-IsLanded :
      (snapshot : HeadSnapshot env.chrono) (generation : ℕ) (e : CoreError)
      (p : Published env.chrono T) (w after : World S E)
      → (if is_lost_race e then pure retry else fail (core e)) w ≡ (done (finished p), after)
      → IsLanded snapshot generation p
  retried-IsLanded snapshot generation e p w after h = elim (if-cases (is_lost_race e) _ _ h) [
    | inl (t, q) ↦ absurd (ground (arith, q))
    | inr (n, q) ↦ absurd (ground (arith, q))
  ]

  finished-inj :
      {p q : Published env.chrono T} {w after : World S E}
      → pure {S = World S E} (finished p) w ≡ (done (finished q), after)
      → p ≡ q
  finished-inj h = ground arith

  replace_head-IsLanded :
      (snapshot : HeadSnapshot env.chrono) (generation : ℕ) (prepared : PreparedMutation env T)
      (commit : Digest) (p : Published env.chrono T) (w after : World S E)
      → prepared.next.generation ≡ generation
      → replace_head env store plan identity snapshot generation prepared commit w
        ≡ (done (finished p), after)
      → IsLanded snapshot generation p
  unfolding replace_head published
  replace_head-IsLanded snapshot generation prepared commit p w after q h =
      let (u, w1, e1, h1) = continue-eq_done _ _ h in
      let (answer, w2, e2, h2) = continue-eq_done _ _ h1 in
      elim (match_result-cases answer _ _ h2) [
        | inl (version, e, h3) ↦
            let (_, w3, e3, h4) = continue-eq_done _ _ h3 in
            let (_, w4, e4, h5) = continue-eq_done _ _ h4 in
            let (_, w5, e5, h6) = continue-eq_done _ _ h5 in
            subst (IsLanded snapshot generation) (finished-inj h6) (
              published-IsFirst prepared generation commit prepared.commit_upload q,
              (version, w1, w2, e2 ∙ ap (λ a. (done a, w2)) e),
            )
        | inr (e, q, h3) ↦ retried-IsLanded snapshot generation e p w2 after h3
      ]

  stage_objects-IsLanded :
      (intent : Intent env) (version : Option Version) (snapshot : HeadSnapshot env.chrono)
      (generation : ℕ) (prepared : PreparedMutation env T) (uploaded : List Sealed)
      (p : Published env.chrono T) (w after : World S E)
      → prepared.next.generation ≡ generation
      → stage_objects env store plan identity intent version snapshot generation prepared uploaded w
        ≡ (done (finished p), after)
      → IsLanded snapshot generation p
  unfolding stage_objects
  stage_objects-IsLanded intent version snapshot generation prepared uploaded p w after q h =
      let (answer, w1, e1, h1) = continue-eq_done _ _ h in
      elim (match_result-cases answer _ _ h1) [
        | inl (put, e, h2) ↦
            let (_, w2, _, h3) = continue-eq_done _ _ h2 in
            let (commit, w3, _, h4) = continue-eq_done _ _ h3 in
            let (synced, w4, _, h5) = continue-eq_done _ _ h4 in
            elim (if-cases (not synced) _ _ h5) [
              | inl (t, h6) ↦ absurd (ground (arith, h6))
              | inr (n, h6) ↦
                  replace_head-IsLanded snapshot generation prepared commit p w4 after q h6
            ]
        | inr (e, _, h2) ↦ retried-IsLanded snapshot generation e p w1 after h2
      ]

  next_generation-eq_ok : (n m : ℕ) → next_generation env store plan n ≡ ok m → m ≡ n + 1
  unfolding next_generation
  next_generation-eq_ok n m h = ground arith

  attempt_on-IsLanded :
      (intent : Intent env) (version : Option Version) (request : Digest)
      (snapshot : HeadSnapshot env.chrono) (p : Published env.chrono T) (w after : World S E)
      → attempt_on env store plan identity intent version request snapshot w
        ≡ (done (finished p), after)
      → IsLanded snapshot (snapshot.value.generation + 1) p
  unfolding attempt_on
  attempt_on-IsLanded intent version request snapshot p w after h =
      let (_, w1, _, h1) = continue-eq_done _ _ h in
      let (now, w2, _, h2) = continue-eq_done _ _ h1 in
      let (generation, w3, e3, h3) = continue-eq_done _ _ h2 in
      let (skip, w4, _, h4) = continue-eq_done _ _ h3 in
      let (prepared, w5, _, h5) = continue-eq_done _ _ h4 in
      let (next, _) =
        lift-eq_done (next_generation env store plan snapshot.value.generation) w2 e3 in
      elim (if-cases (not (prepared.next.generation == generation)) _ _ h5) [
        | inl (t, h6) ↦ absurd (ground (arith, h6))
        | inr (n, h6) ↦
            let (uploaded, w6, _, h7) = continue-eq_done _ _ h6 in
            subst (λ g. IsLanded snapshot g p) (next_generation-eq_ok _ generation next)
              (stage_objects-IsLanded intent version snapshot generation prepared uploaded p w6
                after (ground (arith, n)) h7)
      ]

  -- An attempt that finishes read the ref at the base of its intent, and its compare-and-swap of the
  -- ref went through, against the version that was read and to the value that is reported: of the
  -- generation after the base, whatever the plan prepared, with the epoch and the commit of the
  -- publication and the current schema; and the publication is told as a first delivery.
  pub attempt-IsFirst :
      (intent : Intent env) (version : Option Version) (base : ℕ) (request : Digest)
      (p : Published env.chrono T) (w after : World S E)
      → attempt env store plan identity intent version base request w ≡ (done (finished p), after)
      → IsFirst (base + 1) p
        × ((snapshot : HeadSnapshot env.chrono) × (read : World S E) × (head_or_empty env store
                plan.resource w
              ≡ (done snapshot, read))
            × (snapshot.value.generation ≡ base)
            × Landed snapshot p)
  unfolding attempt
  attempt-IsFirst intent version base request p w after h =
      let (snapshot, w1, e1, h1) = continue-eq_done _ _ h in
      elim (if-cases (not (snapshot.value.generation == base)) _ _ h1) [
        | inl (t, h2) ↦ absurd (ground (arith, h2))
        | inr (n, h2) ↦
            let at_base : snapshot.value.generation ≡ base = ground (arith, n) in
            let (first, landed) =
              attempt_on-IsLanded intent version request snapshot p w1 after h2 in
            (subst (λ g. IsFirst (g + 1) p) at_base first, (snapshot, w1, e1, at_base, landed))
      ]
