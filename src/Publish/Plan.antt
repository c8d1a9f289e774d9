-- ===== src/Publish/Plan.antt =====
-- crates/combctl/src/publish.rs: what a plan of a mutation gives the engine, and lease guards.
use comb.Prelude.{ℕ, not, ◌||◌, Option, none, some, List, ◌==◌, if◌then◌else◌}
use comb.Prelude.Str.{Str, eqs}
use comb.Core.Error.{Result, ok, err, lease_expired, lease_held}
use comb.Core.Digest.{Digest}
use comb.Core.Refs.{RefValue}
use comb.Core.Operation.Identity.{OpIdentity, canonical}
use comb.Core.Operation.Material.{Material}
use comb.Core.Commit.{CommitHeader, Admission, header_schema}
use comb.Core.Envelope.{ObjectKind}
use comb.Object.Step.{core, Step, ◌>>=◌, pure, fail}
use comb.Store.Host.{Env, World, peek, tick}
use comb.Publish.View.{Codec}
use comb.Publish.Head.{HeadSnapshot}

pub record Upload : Type 0 where
  pub kind : ObjectKind
  pub schema : Str
  pub payload : List ℕ

module _ {S E : Type 0} (env : Env S E) where
  pub record Companion : Type 0 where
    pub identity : OpIdentity
    pub result : env.json.Value

  pub record LiveLeaseGuard : Type 0 where
    pub writer : Str
    pub epoch : ℕ
    pub cancel : env.host.Token

  pub record PreparedMutation (R : Type 0) : Type 0 where
    pub next : RefValue env.chrono
    pub uploads : List Upload
    pub commit_upload : Option ℕ
    pub change : env.json.Value
    pub outcome : R
    pub admitted : List Admission
    pub companions : List Companion
    pub live_lease : Option LiveLeaseGuard

  pub record PrepareCtx : Type 0 where
    pub snapshot : HeadSnapshot env.chrono
    pub identity : OpIdentity
    pub request : Digest
    pub generation : ℕ
    pub parent : Option Digest
    pub skip : Option Digest
    pub now : env.chrono.Time

  -- `RefMutationPlan`; the outcome comes with its codec.
  pub record RefMutationPlan (T : Type 0) : Type 0 where
    pub codec : Codec env.json.Value T
    pub resource : Str
    pub material : Material
    pub plan_lease : Option LiveLeaseGuard
    pub prepare : PrepareCtx → Step (World S E) (PreparedMutation T)

  -- `PrepareCtx::header`.
  unfoldable pub header : PrepareCtx → ℕ → CommitHeader env.chrono
  header ctx epoch = record {
    schema = header_schema;
    resource = ctx.snapshot.value.name;
    generation = ctx.generation;
    epoch = epoch;
    identity = canonical env.hex ctx.identity;
    request = ctx.request;
    parent = ctx.parent;
    skip = ctx.skip;
    at = ctx.now;
  }

  -- `enforce_live_lease`; `lease_until <= now` is `not (before now lease_until)`.
  unfoldable pub enforce_live_lease :
      Option LiveLeaseGuard → RefValue env.chrono → env.chrono.Time → E → Result (Unit {0})
  enforce_live_lease guard next now e = elim guard [
    | none ↦ ok tt
    | some g ↦ if env.host.is_cancelled g.cancel e then err lease_expired else elim next.lease [
      | none ↦ err lease_expired
      | some lease ↦
          if not (eqs lease.writer g.writer) || not (next.epoch == g.epoch)
          then err (lease_held lease.writer (env.chrono.to_rfc3339 lease.lease_until))
          else if not (env.chrono.before now lease.lease_until)
          then err lease_expired
          else ok tt
    ]
  ]

  -- `Store::publication_io`.
  unfoldable pub publication_io :
      {T : Type 0}
      → Option LiveLeaseGuard
      → RefValue env.chrono
      → Step (World S E) T
      → Step (World S E) T
  publication_io guard lease_src future = elim guard [
    | none ↦ future
    | some g ↦ do
      cancelled ← peek (env.host.is_cancelled g.cancel)
      (if cancelled then fail (core lease_expired) else (do
        now ← tick env.host.clock_now
        elim lease_src.lease [
          | none ↦ fail (core lease_expired)
          | some lease ↦
              if not (env.chrono.before now lease.lease_until)
              then fail (core lease_expired)
              else (do
                answer ← env.host.select g.cancel (env.host.wait lease.lease_until now) future
                elim answer [ none ↦ fail (core lease_expired) | some t ↦ pure t ])
        ]))
  ]
