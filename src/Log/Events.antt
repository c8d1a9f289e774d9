-- ===== src/Log/Events.antt =====
-- crates/combctl/src/log.rs: prepare_events, what an append makes of a log.
use comb.Prelude.{
  ℕ, ◌+◌, ◌-◌, ◌^◌, true, false, ◌&&◌, ◌||◌, Option, none, some, List, [], ◌∷◌, ◌++◌, ltb,
  if◌then◌else◌, length,
}
use comb.Prelude.Str.{Str}
use comb.Core.Error.{rejected, integrity_error, refuse_if}
use comb.Core.Refs.{RefValue}
use comb.Core.Commit.{Admission}
use comb.Core.Operation.Identity.{canonical}
use comb.Object.Step.{other, Step, ◌>>=◌, ◌>>◌, pure, lift, fail}
use comb.Store.Host.{Env, World}
use comb.Store.Keys.{Store}
use comb.Store.Blobs.{get_blob}
use comb.Index.Node.{StableIndexRoot, StableIndexEntry}
use comb.Index.Insert.{insert_entry}
use comb.Index.Stored.{node_store}
use comb.Publish.Plan.{Companion}
use comb.Log.Model.{
  RetentionMode, complete, FeedMode, LogManifest, AppendRange, DomainState, GenericItem, StableItem,
  LogJson, retention_of, is_complete, is_complete_feed, empty_domain, domain_of,
}
use comb.Log.Payloads.{check_payloads}
use comb.Log.Chunks.{serde}
use comb.Log.Domain.{check_manifest}

module _ {S E : Type 0} (env : Env S E) (store : Store env)
    (json : LogJson env.chrono env.json.Value) where
  abbrev pub Manifest : Type 0
  Manifest = LogManifest env.chrono env.json.Value

  -- The manifest of the target, as a plan reads it.
  unfoldable pub read_manifest : RefValue env.chrono → Step (World S E) (Option Manifest)
  unfolding serde
  read_manifest current = elim current.target [
    | none ↦ pure none
    | some d ↦ do
      found ← get_blob env store d
      m ← serde (json.manifest_from_slice found.0)
      pure (some m)
  ]

  -- The domain that the events go behind.
  unfoldable pub events_domain :
      FeedMode → ℕ → RefValue env.chrono → Step (World S E) (DomainState env.chrono)
  unfolding read_manifest check_manifest
  events_domain feed epoch current = do
    found ← read_manifest current
    elim found [
      | none ↦ pure (empty_domain (retention_of feed) epoch)
      | some m ↦ do lift (check_manifest env current.name m); pure (domain_of m)
    ]

  -- The retention once the feed has its say; `Complete` is never left.
  unfoldable pub kept_retention : FeedMode → RetentionMode → RetentionMode
  kept_retention feed before =
      if is_complete before || is_complete_feed feed then complete else retention_of feed

  -- A complete log that exists has its index.
  unfoldable pub check_index :
      RetentionMode → RefValue env.chrono → DomainState env.chrono → Step (World S E) (Unit {0})
  check_index retention current domain = lift (
      refuse_if
        (is_complete retention
          && (elim current.target [ none ↦ false | some d ↦ true ])
          && (elim domain.stable_index [ none ↦ true | some r ↦ false ]))
        (integrity_error "complete feed is missing its stable-key index"))

  -- What the loops over the items gather.
  pub record Gathered : Type 0 where
    pub seq : ℕ
    pub payloads : List (List ℕ)
    pub admitted : List Admission
    pub companions : List (Companion env)
    pub leader : Option AppendRange
    pub index : Option StableIndexRoot
    pub stable_admissions : List StableIndexEntry

  -- `checked_add` of a `u64`.
  unfoldable pub next_seq : ℕ → ℕ → Step (World S E) ℕ
  next_seq n more = do
    lift (refuse_if (ltb (2 ^ 64 - 1) (n + more)) (rejected "sequence overflow"))
    pure (n + more)

  -- The range of the first item is that of the leader, and the others are companions.
  unfoldable pub note_range : GenericItem → AppendRange → Gathered → Step (World S E) Gathered
  unfolding serde
  note_range g range state = elim state.leader [
    | none ↦ pure (record state { leader = some range })
    | some first_range ↦ do
      value ← serde (json.range_codec.to_value range)
      pure (record state {
        companions = state.companions ++ record { identity = g.identity; result = value } ∷ [];
      })
  ]

  unfoldable pub admit_generic : GenericItem → Gathered → Step (World S E) Gathered
  unfolding next_seq note_range
  admit_generic g state = do
    lift (check_payloads g.payloads)
    first ← next_seq state.seq 1
    last ← next_seq first (length g.payloads - 1)
    note_range g (record { first = first; last = last })
        (record state {
          seq = last;
          payloads = state.payloads ++ g.payloads;
          admitted =
              state.admitted
              ++ record {
                identity = canonical env.hex g.identity;
                request = g.request;
                first = first;
                last = last;
              }
                ∷ [];
        })

  unfoldable pub admit_generics : List GenericItem → Gathered → Step (World S E) Gathered
  unfolding admit_generic
  admit_generics [] state = pure state
  admit_generics (g ∷ rest) state = do next ← admit_generic g state; admit_generics rest next

  -- The entry of an item in the index.
  abbrev pub entry_of : StableItem → ℕ → ℕ → StableIndexEntry
  entry_of s first generation = record {
    key = s.key;
    payload_hash = s.payload_hash;
    first = first;
    last = first;
    generation = generation;
  }

  unfoldable pub admit_stable : Str → ℕ → StableItem → Gathered → Step (World S E) Gathered
  unfolding next_seq
  admit_stable logical generation s state = do
    lift (check_payloads (s.payload ∷ []))
    first ← next_seq state.seq 1
    let entry = entry_of s first generation
    root ← elim state.index [
      | none ↦ fail (other "stable insert requires an index")
      | some r ↦ pure r
    ]
    updated ←
        insert_entry env.hex env.blake3 (node_store env store json.nodes) logical root entry
          (record { generation = generation; head_seq = first })
    pure (record state {
      seq = first;
      payloads = state.payloads ++ s.payload ∷ [];
      index = some updated;
      stable_admissions = state.stable_admissions ++ entry ∷ [];
      leader = elim state.leader [
        | none ↦ some (record { first = first; last = first })
        | some range ↦ some range
      ];
    })

  unfoldable pub admit_stables : Str → ℕ → List StableItem → Gathered → Step (World S E) Gathered
  unfolding admit_stable
  admit_stables logical generation [] state = pure state
  admit_stables logical generation (s ∷ rest) state = do
    next ← admit_stable logical generation s state
    admit_stables logical generation rest next
