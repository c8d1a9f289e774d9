-- ===== src/Publish/Renew.antt =====
-- crates/combctl/src/publish.rs: renewals of a lease, which leave generation and commit as they are.
pub mod Keeps
use comb.Prelude.{ℕ, zero, suc, not, Option, none, some, ◌==◌, if◌then◌else◌}
use comb.Prelude.Str.{Str, eqs}
use comb.Core.Error.{
  CoreError, Result, ok, err, fenced, lease_held, lease_expired, rejected, refuse_if,
}
use comb.Core.Refs.{RefValue, Lease, lease_live}
use comb.Object.Step.{core, other, Step, ◌>>=◌, ◌>>◌, pure, lift, fail}
use comb.Store.Host.{Env, World, tick}
use comb.Store.Keys.{Store, is_v2}
use comb.Publish.Head.{HeadSnapshot, read_head, reject_v1}
use comb.Publish.Intent.{is_lost_race}
use comb.Publish.Attempt.{put_ref}

abbrev pub renew_attempts : ℕ
renew_attempts = 16

module _ {S E : Type 0} (env : Env S E) where
  -- The ref with its lease prolonged.
  unfoldable pub renewed :
      RefValue env.chrono → Str → env.chrono.Time → env.host.Secs → RefValue env.chrono
  renewed value writer now ttl = record value {
    lease =
        some (record { writer = writer; lease_until = env.chrono.add now (env.host.seconds ttl) });
    updated_at = now;
  }

module _ {S E : Type 0} (env : Env S E) (store : Store env) where
  -- `read_head(name).await?.ok_or_else(..)`.
  unfoldable pub existing_head : Str → Step (World S E) (HeadSnapshot env.chrono)
  existing_head name = do
    head ← read_head env store name
    elim head [ none ↦ fail (other "ref {name} does not exist") | some snapshot ↦ pure snapshot ]

  -- The compare-and-swap of a renewal. No value: another round.
  unfoldable pub swap_renewed :
      Str
      → HeadSnapshot env.chrono
      → RefValue env.chrono
      → Step (World S E) (Option (RefValue env.chrono))
  swap_renewed name snapshot next = do
    answer ← put_ref env store name snapshot.version next
    elim answer [
      | ok version ↦ pure (some next)
      | err e ↦ if is_lost_race e then pure none else fail (core e)
    ]

  -- A round of `renew_owned_lease`.
  unfoldable pub renew_owned_round :
      Str → Str → ℕ → env.host.Secs → Step (World S E) (Option (RefValue env.chrono))
  unfolding existing_head renewed swap_renewed
  renew_owned_round name writer epoch ttl = do
    snapshot ← existing_head name
    now ← tick env.host.clock_now
    lift (refuse_if (not (snapshot.value.epoch == epoch)) (fenced epoch snapshot.value.epoch))
    elim snapshot.value.lease [
      | none ↦ fail (core (rejected "ref {name} has no lease to renew"))
      | some lease ↦ do
        lift (
            refuse_if (not (eqs lease.writer writer))
              (lease_held lease.writer (env.chrono.to_rfc3339 lease.lease_until)))
        lift (refuse_if (not (lease_live snapshot.value now)) lease_expired)
        cas_now ← tick env.host.clock_now
        lift (refuse_if (not (lease_live snapshot.value cas_now)) lease_expired)
        swap_renewed name snapshot (renewed env snapshot.value writer cas_now ttl)
    ]

  -- A round of `renew_lease`.
  unfoldable pub renew_round :
      Str → ℕ → env.host.Secs → Step (World S E) (Option (RefValue env.chrono))
  unfolding existing_head renewed swap_renewed
  renew_round name fence ttl = do
    snapshot ← existing_head name
    lift (refuse_if (not (snapshot.value.epoch == fence)) (fenced fence snapshot.value.epoch))
    elim snapshot.value.lease [
      | none ↦ fail (other "ref {name} has no lease to renew")
      | some lease ↦ do
        cas_now ← tick env.host.clock_now
        swap_renewed name snapshot (renewed env snapshot.value lease.writer cas_now ttl)
    ]

  -- The loop of both renewals over a round, with the rounds that are left.
  unfoldable pub renew_loop :
      ℕ → Step (World S E) (Option (RefValue env.chrono)) → Step (World S E) (RefValue env.chrono)
  renew_loop zero round = fail (other "renew: lost the ref race 16 times")
  renew_loop (suc left) round = do
    answer ← round
    elim answer [ some next ↦ pure next | none ↦ renew_loop left round ]

  -- `renew_owned_lease`.
  unfoldable pub renew_owned_lease :
      Str → Str → ℕ → env.host.Secs → Step (World S E) (RefValue env.chrono)
  unfolding renew_owned_round renew_loop
  renew_owned_lease name writer epoch ttl =
      renew_loop renew_attempts (renew_owned_round name writer epoch ttl)

  -- `renew_lease`.
  unfoldable pub renew_lease : Str → ℕ → env.host.Secs → Step (World S E) (RefValue env.chrono)
  unfolding renew_round renew_loop
  renew_lease name fence ttl = do
    (if is_v2 store.layout then reject_v1 env store name else pure tt)
    renew_loop renew_attempts (renew_round name fence ttl)
