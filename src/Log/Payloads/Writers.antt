-- ===== src/Log/Payloads/Writers.antt =====
-- crates/combctl/src/log.rs: who may write to a log, and under which epoch.
use comb.Prelude.{
  ℕ, ◌+◌, ◌-◌, ◌^◌, ◌<◌, ◌≡◌, Bool, true, false, not, ◌&&◌, ◌⊎◌, some, arith, ltb, Bool-cases,
  Option-cases, inl, inr,
}
use comb.Prelude.Str.{Str, eqs, eqs_iff}
use comb.Core.Error.{ok}
use comb.Core.Refs.{RefValue, Lease, lease_live}
use comb.Store.Host.{Env}
use comb.Log.Payloads.{next_writer, taken_lease}

module _ {S E : Type 0} (env : Env S E) (current : RefValue env.chrono) (writer : Str)
    (now : env.chrono.Time) (lease_secs : env.host.Secs) (steal : Bool) where
  -- The writer holds the live lease already, does not steal and keeps its epoch, or there is no live lease, or it is
  -- stolen, and the epoch goes up by one.
  abbrev pub Admits : ℕ → Type 0
  Admits epoch =
      ((held : Lease env.chrono) × (current.lease ≡ some held)
        × (held.writer ≡ writer)
        × (lease_live current now ≡ true)
        × (steal ≡ false)
        × (epoch ≡ current.epoch))
      ⊎ (((lease_live current now ≡ false) ⊎ (steal ≡ true))
          × (epoch ≡ current.epoch + 1)
          × (epoch < 2 ^ 64))

  fresh-Admits :
      (epoch : ℕ) (lease : Lease env.chrono)
      → (lease_live current now ≡ false) ⊎ (steal ≡ true)
      → next_writer env current writer now lease_secs steal ≡ ok (epoch, lease)
      → (lease_live current now && not steal) ≡ false
      → Admits epoch × (lease ≡ taken_lease env writer now lease_secs)
  unfolding next_writer
  fresh-Admits epoch lease why h b = elim (Bool-cases (ltb (2 ^ 64 - 1) (current.epoch + 1))) [
    | inl o ↦ absurd (ground (arith, h, b, o))
    | inr o ↦ (inr (why, ground (arith, h, b, o), ground (arith, h, b, o)), ground (arith, h, b, o))
  ]

  held_case :
      (epoch : ℕ) (lease : Lease env.chrono)
      → lease_live current now ≡ true
      → steal ≡ false
      → next_writer env current writer now lease_secs steal ≡ ok (epoch, lease)
      → Admits epoch × (lease ≡ taken_lease env writer now lease_secs)
  unfolding next_writer
  held_case epoch lease live honest h = elim (Option-cases current.lease) [
    | inl q ↦ absurd (ground (arith, h, live, honest, q))
    | inr (held, q) ↦ elim (Bool-cases (eqs held.writer writer)) [
      | inr other ↦ absurd (ground (arith, h, live, honest, q, other))
      | inl same ↦ (
        inl (
          held,
          q,
          (eqs_iff held.writer writer).0 same,
          live,
          honest,
          ground (arith, h, live, honest, q, same),
        ),
        ground (arith, h, live, honest, q, same),
      )
    ]
  ]

  -- Whoever is let in as the writer holds the live lease and does not steal, and then the epoch stays,
  -- or finds no live lease or steals it, and then the epoch goes up by one and fits a `u64`; in both
  -- cases the new lease is the writer's, for the time that was asked for.
  pub next_writer-Admits :
      (epoch : ℕ) (lease : Lease env.chrono)
      → next_writer env current writer now lease_secs steal ≡ ok (epoch, lease)
      → Admits epoch × (lease ≡ taken_lease env writer now lease_secs)
  next_writer-Admits epoch lease h = elim (Bool-cases (lease_live current now)) [
    | inr dead ↦ fresh-Admits epoch lease (inl dead) h (ground (arith, dead))
    | inl live ↦ elim (Bool-cases steal) [
      | inl stolen ↦ fresh-Admits epoch lease (inr stolen) h (ground (arith, live, stolen))
      | inr honest ↦ held_case epoch lease live honest h
    ]
  ]
