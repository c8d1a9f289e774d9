-- ===== src/Publish/Renew/Keeps.antt =====
-- A renewal changes the lease of a ref, and nothing that a publication builds on.
use mathlib.Core.Path.{subst}
use comb.Prelude.{ℕ, zero, suc, ◌≡◌, sym, ap, ◌∙◌, true, none, some, arith, inl, inr}
use comb.Prelude.Str.{Str, eqs_iff}
use comb.Core.Refs.{RefValue, Lease, lease_live}
use comb.Core.Error.{ok}
use comb.Object.Backend.{Version}
use comb.Object.Step.{done}
use comb.Object.Step.Inversion.{
  continue-eq_done, lift-eq_done, pure-inj, if-cases, match_option-cases, match_result-cases,
}
use comb.Store.Host.{Env, World}
use comb.Store.Keys.{Store}
use comb.Publish.Head.{HeadSnapshot}
use comb.Publish.Intent.{is_lost_race}
use comb.Publish.Attempt.{put_ref}
use comb.Publish.Renew.{
  existing_head, renewed, swap_renewed, renew_owned_round, renew_loop, renew_owned_lease,
}

module _ {S E : Type 0} (env : Env S E) (store : Store env) (name writer : Str) (epoch : ℕ)
    (ttl : env.host.Secs) where
  -- The compare-and-swap of the ref to a value, against the version that was read, went through.
  abbrev Landed : HeadSnapshot env.chrono → RefValue env.chrono → World S E → Type 0
  Landed snapshot value after =
      (version : Version) × (before : World S E) × (put_ref env store name snapshot.version value
          before
        ≡ (done (ok version), after))

  -- A world after rounds that lost their race.
  pub data Lost (w : World S E) : World S E → Type 0 where
    no_round : Lost w w
    and_round :
        {start next : World S E}
        → Lost w start
        → renew_owned_round env store name writer epoch ttl start ≡ (done none, next)
        → Lost w next

  -- A ref that is renewed by its owner at a time: the head that was read, under the epoch and in the
  -- hands of the writer, whose lease was live then, with a lease of the time to live, is swapped in
  -- for the version that was read.
  pub record IsRenewal (w after : World S E) (next : RefValue env.chrono) : Type 0 where
    pub snapshot : HeadSnapshot env.chrono
    pub start : World S E
    pub lost : Lost w start
    pub read : World S E
    pub was_read : existing_head env store name start ≡ (done snapshot, read)
    pub lease : Lease env.chrono
    pub at : env.chrono.Time
    pub epoch_agrees : snapshot.value.epoch ≡ epoch
    pub leased : snapshot.value.lease ≡ some lease
    pub owned : lease.writer ≡ writer
    pub was_live : lease_live snapshot.value at ≡ true
    pub is_renewed : next ≡ renewed env snapshot.value writer at ttl
    pub landed : Landed snapshot next after

  swap_renewed-eq_some :
      (snapshot : HeadSnapshot env.chrono) (value next : RefValue env.chrono) (w after : World S E)
      → swap_renewed env store name snapshot value w ≡ (done (some next), after)
      → (next ≡ value) × Landed snapshot value after
  unfolding swap_renewed
  swap_renewed-eq_some snapshot value next w after h =
      let (answer, w1, e1, h1) = continue-eq_done _ _ h in
      elim (match_result-cases answer _ _ h1) [
        | inl (v, q, h2) ↦ (
          ground (arith, h2),
          subst (Landed snapshot value) (ap (λ p. p.1) h2) (v, w, e1 ∙ ap (λ a. (done a, w1)) q),
        )
        | inr (e, _, h2) ↦ elim (if-cases (is_lost_race e) _ _ h2) [
          | inl (_, h3) ↦ absurd (ground (arith, h3))
          | inr (_, h3) ↦ absurd (ground (arith, h3))
        ]
      ]

  round-IsRenewal :
      (next : RefValue env.chrono) (first w after : World S E)
      → Lost first w
      → renew_owned_round env store name writer epoch ttl w ≡ (done (some next), after)
      → IsRenewal first after next
  unfolding renew_owned_round
  round-IsRenewal next first w after lost h =
      let (snapshot, w1, e1, h1) = continue-eq_done _ _ h in
      let (now, w2, _, h2) = continue-eq_done _ _ h1 in
      let (_, w3, e3, h3) = continue-eq_done _ _ h2 in
      let (same, _) = lift-eq_done _ w2 e3 in
      elim (match_option-cases snapshot.value.lease _ _ h3) [
        | inl (_, h4) ↦ absurd (ground (arith, h4))
        | inr (lease, q, h4) ↦
            let (_, w4, e4, h5) = continue-eq_done _ _ h4 in
            let (mine, _) = lift-eq_done _ w3 e4 in
            let (_, w5, _, h6) = continue-eq_done _ _ h5 in
            let (at, w6, _, h7) = continue-eq_done _ _ h6 in
            let (_, w7, e7, h8) = continue-eq_done _ _ h7 in
            let (live, _) = lift-eq_done _ w6 e7 in
            let swapped = renewed env snapshot.value writer at ttl in
            let (is_next, landed) = swap_renewed-eq_some snapshot swapped next w7 after h8 in
            record {
              snapshot = snapshot;
              start = w;
              lost = lost;
              read = w1;
              was_read = e1;
              lease = lease;
              at = at;
              epoch_agrees = ground (arith, same);
              leased = q;
              owned = ground (arith, mine, eqs_iff lease.writer writer);
              was_live = ground (arith, live);
              is_renewed = is_next;
              landed = subst (λ v. Landed snapshot v after) (sym is_next) landed;
            }
      ]

  renew_loop-IsRenewal :
      (left : ℕ) (next : RefValue env.chrono) (first w after : World S E)
      → Lost first w
      → renew_loop env store left (renew_owned_round env store name writer epoch ttl) w
        ≡ (done next, after)
      → IsRenewal first after next
  unfolding renew_loop
  renew_loop-IsRenewal zero next first w after lost h = absurd (ground arith)
  renew_loop-IsRenewal (suc left) next first w after lost h =
      let (answer, w1, e1, h1) = continue-eq_done _ _ h in
      elim (match_option-cases answer _ _ h1) [
        | inl (q, h2) ↦
            renew_loop-IsRenewal left next first w1 after
              (and_round lost (e1 ∙ ap (λ r. (done r, w1)) q)) h2
        | inr (q, is_q, h2) ↦
            subst (λ v. IsRenewal first after v) (pure-inj h2)
              (subst (λ u. IsRenewal first u q) (ap (λ p. p.1) h2)
                (round-IsRenewal q first w w1 lost (e1 ∙ ap (λ r. (done r, w1)) is_q)))
      ]

  -- A renewal by the owner that succeeds ended, after rounds that lost their race, with a round that
  -- swapped the ref, against the version that it read, to the value that is returned: the head that
  -- it read, at the epoch of the caller and under a lease of the caller that was live at the time of
  -- the renewal, with nothing changed but the lease and its time: the epoch, the generation, the
  -- target and the commit stay.
  pub renew_owned_lease-keeps :
      (next : RefValue env.chrono) (w after : World S E)
      → renew_owned_lease env store name writer epoch ttl w ≡ (done next, after)
      → (r : IsRenewal w after next) × (next.epoch ≡ epoch)
        × (next.generation ≡ r.snapshot.value.generation)
        × (next.target ≡ r.snapshot.value.target)
        × (next.head_commit ≡ r.snapshot.value.head_commit)
  unfolding renew_owned_lease renewed
  renew_owned_lease-keeps next w after h =
      let r = renew_loop-IsRenewal 16 next w w after no_round h in
      (
        r,
        ground (arith, r.is_renewed, r.epoch_agrees),
        ground (arith, r.is_renewed),
        ground (arith, r.is_renewed),
        ground (arith, r.is_renewed),
      )
