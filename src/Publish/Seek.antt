-- ===== src/Publish/Seek.antt =====
-- crates/combctl/src/publish.rs: walks of the commit chain.
pub mod Lands
pub mod Recovers
use comb.Prelude.{
  ℕ, zero, suc, ◌+◌, ◌-◌, ◌^◌, false, not, ◌&&◌, Option, none, some, List, [], ◌∷◌, ltb, leb, ◌==◌,
  if◌then◌else◌,
}
use comb.Prelude.Str.{Str, eqs}
use comb.Core.Error.{CoreError, recovery_failed, refuse_if}
use comb.Core.Digest.{Digest}
use comb.Core.Operation.Identity.{OpIdentity}
use comb.Core.Commit.{HistoryEntry, skip_target_generation}
use comb.Core.Envelope.{EnvelopeReadSpec, blob, max_manifest_object_bytes}
use comb.Object.Step.{AnyError, core, Step, ◌>>=◌, ◌>>◌, pure, lift, fail, map_err}
use comb.Store.Host.{Env, World}
use comb.Store.Keys.{Store, is_v2}
use comb.Store.Blobs.{get_blob, get_blob_limited}
use comb.Publish.View.{
  CommitView, View, Published, Codec, commit_view_envelopes, map_commit_read_error, view_of_payload,
  identity_in_commit, other_request, conflict, published_from_view,
}
use comb.Publish.Head.{read_head}

abbrev pub max_seek_hops : ℕ
max_seek_hops = 10000

module _ {S E : Type 0} (env : Env S E) (store : Store env) where
  -- The policy of `load_commit_view` under the v3 layout.
  unfoldable pub commit_spec : EnvelopeReadSpec
  commit_spec = record {
    tenant = store.tenant;
    kind = blob;
    allowed_schemas = commit_view_envelopes;
    max_encoded_bytes = max_manifest_object_bytes;
    max_plaintext_bytes = max_manifest_object_bytes;
  }

  -- `load_commit_view`.
  unfoldable pub load_commit_view : Digest → Step (World S E) (View env)
  unfolding commit_spec
  load_commit_view d = do
    found ← map_err map_commit_read_error (
        if is_v2 store.layout
        then get_blob env store d
        else get_blob_limited env store d commit_spec)
    lift (view_of_payload env d found.0)

  -- `check_view_resource`.
  unfoldable pub check_view_resource : View env → Str → Step (World S E) (Unit {0})
  check_view_resource view resource = lift (
      refuse_if (not (eqs view.header.resource resource))
        (recovery_failed "commit {} belongs to resource {}"))

  -- A skip pointer of `seek_generation`: the commit it leads to, unless that is below the target,
  -- and the number of objects read.
  unfoldable pub take_skip : View env → ℕ → Str → Digest → Step (World S E) (Option (View env) × ℕ)
  unfolding load_commit_view check_view_resource
  take_skip current target resource d = do
    view ← map_err (λ _. core (recovery_failed "skip target {}: {e:#}")) (load_commit_view d)
    check_view_resource view resource
    lift (
        refuse_if (leb current.header.generation view.header.generation)
          (recovery_failed "skip pointer does not strictly decrease generation"))
    lift (
        refuse_if (not (view.header.generation == skip_target_generation current.header.generation))
          (recovery_failed "skip claimed generation {claimed}, found {}"))
    pure (if leb target view.header.generation then (some view, 1) else (none, 1))

  unfoldable pub follow_skip :
      View env → ℕ → Str → Option Digest → Step (World S E) (Option (View env) × ℕ)
  unfolding take_skip
  follow_skip current target resource none = pure (none, 0)
  follow_skip current target resource (some d) = take_skip current target resource d

  -- The parent of a round.
  unfoldable pub take_parent : View env → Str → Digest → Step (World S E) (View env)
  unfolding load_commit_view check_view_resource
  take_parent current resource d = do
    view ← map_err (λ _. core (recovery_failed "parent {parent}: {e:#}")) (load_commit_view d)
    check_view_resource view resource
    lift (
        refuse_if
          (not (
            ltb (view.header.generation + 1) (2 ^ 64)
            && view.header.generation + 1 == current.header.generation))
          (recovery_failed "dense ancestry broken: parent {} then {}"))
    pure view

  unfoldable pub follow_parent : View env → Str → Option Digest → Step (World S E) (View env)
  unfolding take_parent
  follow_parent current resource none =
      fail (core (recovery_failed "commit generation {} missing parent while seeking {target}"))
  follow_parent current resource (some d) = take_parent current resource d

  -- The end of a round: the skip was followed, or the parent is.
  unfoldable pub or_parent :
      View env → Str → ℕ → Option (View env) × ℕ → Step (World S E) (View env × ℕ)
  unfolding follow_parent
  or_parent current resource reads (some view, read) = pure (view, reads + read)
  or_parent current resource reads (none, read) = do
    view ← follow_parent current resource current.header.parent
    pure (view, reads + read + 1)

  -- A round of `seek_generation`.
  unfoldable pub seek_round : View env → ℕ → Str → ℕ → Step (World S E) (View env × ℕ)
  unfolding follow_skip or_parent
  seek_round current target resource reads = do
    lift (
        refuse_if (ltb current.header.generation target)
          (recovery_failed "commit generation {} is below target {target}"))
    skipped ← follow_skip current target resource current.header.skip
    or_parent current resource reads skipped

  -- The loop of `seek_generation`, with the hops that are left.
  unfoldable pub seek_loop : ℕ → View env → ℕ → Str → ℕ → Step (World S E) (View env × ℕ)
  unfolding seek_round
  seek_loop zero current target resource reads =
      if current.header.generation == target
      then pure (current, reads)
      else fail (core (recovery_failed "seek from {} to {target} exceeded {MAX_SEEK_HOPS} hops"))
  seek_loop (suc left) current target resource reads =
      if current.header.generation == target then pure (current, reads) else (do
        (view, read) ← seek_round current target resource reads
        seek_loop left view target resource read)

  -- `seek_generation`.
  unfoldable pub seek_generation : Digest → ℕ → Str → Step (World S E) (View env × ℕ)
  unfolding seek_loop
  seek_generation start target resource = do
    current ← load_commit_view start
    check_view_resource current resource
    seek_loop max_seek_hops current target resource 1

  -- `compute_skip`.
  unfoldable pub compute_skip : ℕ → Option Digest → Str → Step (World S E) (Option Digest)
  unfolding seek_generation
  compute_skip generation parent resource =
      let target = skip_target_generation generation in
      if target == 0 then pure none else elim parent [
        | none ↦ pure none
        | some p ↦
            if target == generation - 1
            then pure (some p)
            else (do found ← seek_generation p target resource; pure (some found.0.digest))
      ]

  -- The loop of `history_chain`, for the entries that are still wanted.
  unfoldable pub history_loop :
      ℕ → Str → Option Digest → Digest → Step (World S E) (List (HistoryEntry env.chrono))
  unfolding load_commit_view check_view_resource
  history_loop zero name target d = pure []
  history_loop (suc more) name target d = do
    view ← load_commit_view d
    lift (
        refuse_if (not (eqs view.header.resource name))
          (recovery_failed "history for {name} includes resource {}"))
    rest ← elim view.header.parent [ none ↦ pure [] | some p ↦ history_loop more name target p ]
    pure (
        record {
          generation = view.header.generation;
          epoch = view.header.epoch;
          identity = view.header.identity;
          request = view.header.request;
          target = target;
          at = view.header.at;
          commit = view.digest;
        }
        ∷ rest)

  -- `history_chain`.
  unfoldable pub history_chain : Str → ℕ → Step (World S E) (List (HistoryEntry env.chrono))
  unfolding history_loop
  history_chain name max = do
    head ← read_head env store name
    elim head [
      | none ↦ pure []
      | some snapshot ↦ elim snapshot.value.head_commit [
        | none ↦ pure []
        | some d ↦ history_loop max name snapshot.value.target d
      ]
    ]

  module _ {T : Type 0} (codec : Codec env.json.Value T) where
    -- The loop of `recover_without_intent`, with the hops that are left.
    unfoldable pub scan_loop :
        ℕ → OpIdentity → Digest → Str → Digest → Step (World S E) (Option (Published env.chrono T))
    unfolding load_commit_view check_view_resource
    scan_loop zero identity request resource d =
        fail (core (recovery_failed "scan for {} on {resource} exceeded {MAX_SEEK_HOPS} hops"))
    scan_loop (suc left) identity request resource d = do
      view ← load_commit_view d
      check_view_resource view resource
      (if identity_in_commit env view identity
          then (do
            lift (
                refuse_if (other_request env view identity request)
                  (conflict env identity view.header.request request))
            published ← lift (published_from_view env codec view identity store.tenant false)
            pure (some published))
          else elim view.header.parent [
            | none ↦ pure none
            | some p ↦ scan_loop left identity request resource p
          ])

    -- `recover_without_intent`.
    unfoldable pub recover_without_intent :
        OpIdentity → Digest → Str → Step (World S E) (Option (Published env.chrono T))
    unfolding scan_loop
    recover_without_intent identity request resource = do
      head ← read_head env store resource
      elim head [
        | none ↦ pure none
        | some snapshot ↦ elim snapshot.value.head_commit [
          | none ↦ pure none
          | some d ↦ scan_loop max_seek_hops identity request resource d
        ]
      ]
