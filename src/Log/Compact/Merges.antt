-- ===== src/Log/Compact/Merges.antt =====
-- crates/combctl/src/log.rs: what a compaction makes of a log.
use mathlib.Core.Path.{subst}
use mathlib.Core.List.{Permᴰ}
use comb.Prelude.{
  if◌then◌else◌, ℕ, ◌≤◌, ◌≡◌, refl, ap, ◌∙◌, Option, none, some, List, [], ◌∷◌, ◌++◌, arith, ltb,
  length, inl, inr,
}
use comb.Core.Digest.{digest}
use comb.Core.Envelope.{blob}
use comb.Object.Step.{Step, done, pure, fail, other}
use comb.Object.Step.Inversion.{continue-eq_done, pure-inj, if-cases}
use comb.Store.Host.{Env, World}
use comb.Store.Keys.{Store}
use comb.Publish.Plan.{PreparedMutation, PrepareCtx}
use comb.Log.Model.{LogJson, FeedMode, ChunkRef, Frame, chunk_schema, manifest_schema}
use comb.Log.Chunks.{sort_frames}
use comb.Log.Chunks.Sorted.{IsSorted, sort_frames-IsSorted, sort_frames-Perm}
use comb.Log.Events.{Manifest, read_manifest}
use comb.Log.Prepare.{log_ref}
use comb.Log.Prepare.Extends.{serde-eq_done}
use comb.Log.Plans.{prepared_alone}
use comb.Log.Compact.{load_frames, segment_of, compacted, merge_loaded, prepare_compact}

state-inj : {W T : Type 0} {t u : T} {w after : W} → pure {S = W} t w ≡ (done u, after) → w ≡ after
state-inj h = ap (λ p. p.1) h

module _ {S E : Type 0} (env : Env S E) (store : Store env)
    (json : LogJson env.chrono env.json.Value) where
  -- What a compaction makes of a manifest and the frames of its chunks.
  pub record Merges (m merged : Manifest env store json) (loaded : List (Frame env.chrono))
      (prepared : PreparedMutation env ℕ) : Type 0 where
    pub several : 2 ≤ length m.chunks
    pub answered : prepared.outcome ≡ length m.chunks
    -- One segment takes the place of all chunks.
    pub segment : ChunkRef env.chrono
    pub chunks : merged.chunks ≡ []
    pub segments : merged.segments ≡ m.segments ++ segment ∷ []
    pub head_seq : merged.head_seq ≡ m.head_seq
    pub epoch : merged.epoch ≡ m.epoch
    pub floor : merged.trim_before_seq ≡ m.trim_before_seq
    pub stable_index : merged.stable_index ≡ m.stable_index
    -- Its text holds the frames of the chunks, in order, and has its digest.
    pub frames : List (Frame env.chrono)
    pub same_frames : Permᴰ frames loaded
    pub in_order : IsSorted frames
    pub text : List ℕ
    pub body : json.body_to_vec (record { schema = chunk_schema; frames = frames }) ≡ some text
    pub names : segment.digest ≡ digest env.hex env.blake3 store.key text
    pub manifest_text : List ℕ
    pub written : json.manifest_to_vec merged ≡ some manifest_text
    pub uploads :
        prepared.uploads
        ≡ record { kind = blob; schema = chunk_schema; payload = text }
          ∷ record { kind = blob; schema = manifest_schema; payload = manifest_text }
          ∷ []

  several_chunks :
      (n : ℕ) (w after : World S E) {u : Unit {0}}
      → (if ltb n 2 then fail (other "nothing to compact") else pure tt) w ≡ (done u, after)
      → (2 ≤ n) × (w ≡ after)
  several_chunks n w after h = elim (if-cases (ltb n 2) _ _ h) [
    | inl (_, k) ↦ absurd (ground arith)
    | inr (b, k) ↦ (ground (arith, b), state-inj k)
  ]

  found_manifest :
      (found : Option (Manifest env store json)) (m : Manifest env store json) (w after : World S E)
      → (elim found as (λ o. Step (World S E) (Manifest env store json)) [
        | none ↦ fail (other "nothing to compact")
        | some t ↦ pure t
      ])
          w
        ≡ (done m, after)
      → (found ≡ some m) × (w ≡ after)
  found_manifest none m w after h = absurd (ground arith)
  found_manifest (some t) m w after h = (ap some (pure-inj h), state-inj h)

  -- The part behind the loads.
  merge :
      (feed : FeedMode) (ctx : PrepareCtx env) (m : Manifest env store json)
      (loaded : List (Frame env.chrono))
      → 2 ≤ length m.chunks
      → (prepared : PreparedMutation env ℕ) (w after : World S E)
      → merge_loaded env store json feed ctx m loaded w ≡ (done prepared, after)
      → (merged : Manifest env store json) × Merges m merged loaded prepared
  unfolding merge_loaded compacted prepared_alone
  merge feed ctx m loaded several prepared w after h =
      let (ends, w1, e1, h1) = continue-eq_done _ _ h in
      let (text, w2, e2, h2) = continue-eq_done _ _ h1 in
      let (result, w3, e3, h3) = continue-eq_done _ _ h2 in
      let (manifest_text, w4, e4, h4) = continue-eq_done _ _ h3 in
      let segment = segment_of env store json text ends ctx.now in
      let next = log_ref env store json ctx ctx.snapshot.value.epoch ctx.snapshot.value.lease in
      let merged = compacted env store json ctx m feed segment result next in
      (
        merged,
        subst (λ p. Merges m merged loaded p) (pure-inj h4)
            (record {
              several = several;
              answered = refl;
              segment = segment;
              chunks = refl;
              segments = refl;
              head_seq = refl;
              epoch = refl;
              floor = refl;
              stable_index = refl;
              frames = sort_frames loaded;
              same_frames = sort_frames-Perm loaded;
              in_order = sort_frames-IsSorted loaded;
              text = text;
              body = serde-eq_done _ w1 e2;
              names = refl;
              manifest_text = manifest_text;
              written = serde-eq_done _ w3 e4;
              uploads = refl;
            }),
      )

  pub prepare_compact-Merges :
      (feed : FeedMode) (ctx : PrepareCtx env) (prepared : PreparedMutation env ℕ)
      (w after : World S E)
      → prepare_compact env store json feed ctx w ≡ (done prepared, after)
      → (m : Manifest env store json) × (merged : Manifest env store json) × (loaded : List
          (Frame env.chrono))
        × (behind : World S E) × (later : World S E) × (read_manifest env store json
              ctx.snapshot.value w
            ≡ (done (some m), behind))
        × (load_frames env store json m.chunks behind ≡ (done loaded, later))
        × Merges m merged loaded prepared
  unfolding prepare_compact
  prepare_compact-Merges feed ctx prepared w after h =
      let (found, w1, e1, h1) = continue-eq_done _ _ h in
      let (m, w2, e2, h2) = continue-eq_done _ _ h1 in
      let (u, w3, e3, h3) = continue-eq_done _ _ h2 in
      let (loaded, w4, e4, h4) = continue-eq_done _ _ h3 in
      let (there, same1) = found_manifest found m w1 w2 e2 in
      let (several, same2) = several_chunks (length m.chunks) w2 w3 e3 in
      let (merged, merges) = merge feed ctx m loaded several prepared w4 after h4 in
      (
        m,
        merged,
        loaded,
        w1,
        w4,
        e1 ∙ ap (λ o. (done o, w1)) there,
        ap (load_frames env store json m.chunks) (same1 ∙ same2) ∙ e4,
        merges,
      )
