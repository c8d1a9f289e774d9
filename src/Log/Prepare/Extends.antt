-- ===== src/Log/Prepare/Extends.antt =====
-- crates/combctl/src/log.rs: the manifest of an append extends the log that was read.
use mathlib.Core.Path.{subst}
use comb.Prelude.{
  ℕ, ◌+◌, ◌-◌, ◌^◌, ◌<◌, ◌≡◌, refl, sym, ap, ◌∙◌, Bool, Option, none, some, List, [], ◌∷◌, ◌++◌,
  arith, length, ltb, ◌==◌,
}
use comb.Prelude.Str.{Str}
use comb.Core.Digest.{digest}
use comb.Core.Refs.{RefValue, Lease}
use comb.Core.Envelope.{blob}
use comb.Object.Step.{Step, done, pure, fail, other}
use comb.Object.Step.Inversion.{continue-eq_done, lift-eq_done, pure-inj, refuse_if-eq_ok}
use comb.Store.Host.{Env, World}
use comb.Store.Keys.{Store}
use comb.Publish.Plan.{PreparedMutation, PrepareCtx}
use comb.Log.Model.{
  RetentionMode, FeedMode, ChunkRef, AppendRange, DomainState, GenericItem, StableItem, LogJson,
  chunk_schema, manifest_schema,
}
use comb.Log.Chunks.{serde, build_chunk}
use comb.Log.Events.{Manifest, events_domain}
use comb.Log.Prepare.{log_ref, append_manifest, append_prepared, prepare_gathered, prepare_events}
use comb.Log.Prepare.Gathers.{
  Gathering, IsGathered, ranges_of, LeadsWith, next_seq-eq_done, gather-IsGathered,
}
use comb.Log.Prepare.Tiled.{Tiles}

pub serde-eq_done :
    {W T : Type 0} (o : Option T) (w : W) {t : T} {after : W}
    → serde o w ≡ (done t, after)
    → o ≡ some t
unfolding serde
serde-eq_done none w h = absurd (ground arith)
serde-eq_done (some t') w h = ap some (pure-inj h)

chunk_end :
    (start first seq count last : ℕ)
    → first ≡ start + 1
    → seq ≡ start + count
    → last + 1 ≡ first + count
    → last ≡ seq
chunk_end start first seq count last a b e = omega arith

chunk_fits :
    (first count last : ℕ) → last + 1 ≡ first + count → first + count < 2 ^ 64 → last < 2 ^ 64
chunk_fits first count last e h = omega arith

module _ {S E : Type 0} (env : Env S E) (store : Store env)
    (json : LogJson env.chrono env.json.Value) where
  -- The chunk behind `start`, and its text, which it names.
  pub record IsChunk (start count : ℕ) (chunk : ChunkRef env.chrono) (text : List ℕ) : Type 0 where
    pub begins : chunk.first ≡ start
    pub ends : chunk.last + 1 ≡ start + count
    pub small : start + count < 2 ^ 64
    pub named : chunk.digest ≡ digest env.hex env.blake3 store.key text

  build_chunk-IsChunk :
      (first : ℕ) (payloads : List (List ℕ)) (now : env.chrono.Time)
      (built : ChunkRef env.chrono × List ℕ × ℕ) (w after : World S E)
      → build_chunk env store json first payloads now w ≡ (done built, after)
      → IsChunk first (length payloads) built.0 built.1
  unfolding build_chunk
  build_chunk-IsChunk first payloads now built w after h =
      let (u1, w1, e1, h1) = continue-eq_done _ _ h in
      let (u2, w2, e2, h2) = continue-eq_done _ _ h1 in
      let (text, w3, e3, h3) = continue-eq_done _ _ h2 in
      let (fits, _) = lift-eq_done _ w e1 in
      let (there, _) = lift-eq_done _ w1 e2 in
      let low = refuse_if-eq_ok (ltb (2 ^ 64 - 1) (first + length payloads)) _ fits in
      let some_there = refuse_if-eq_ok (first + length payloads == 0) _ there in
      subst (λ (b : ChunkRef env.chrono × List ℕ × ℕ). IsChunk first (length payloads) b.0 b.1)
        (pure-inj h3)
        (record {
          begins = refl;
          ends = ground (arith, some_there);
          small = ground (arith, low);
          named = refl;
        })

  -- The manifest `m`, for the domain that was read, of a mutation that was prepared.
  pub record Extends (domain : DomainState env.chrono) (m : Manifest env store json)
      (prepared : PreparedMutation env AppendRange) : Type 0 where
    -- Each admission has its range, one behind the other from the old head to the new one.
    pub tiles : Tiles domain.head_seq (ranges_of m.admitted m.stable_admissions) m.head_seq
    pub fits : m.head_seq < 2 ^ 64
    -- The leader is told the first of the ranges.
    pub answered :
        (rest : List (ℕ × ℕ)) × (ranges_of m.admitted m.stable_admissions
          ≡ (prepared.outcome.first, prepared.outcome.last) ∷ rest)
    -- The old chunks are kept, and one new one covers what is new; its text and the manifest are
    -- the uploads.
    pub chunk : ChunkRef env.chrono
    pub body : List ℕ
    pub text : List ℕ
    pub chunks : m.chunks ≡ domain.chunks ++ chunk ∷ []
    pub segments : m.segments ≡ domain.segments
    pub floor : m.trim_before_seq ≡ domain.trim_before_seq
    pub covers_first : chunk.first ≡ domain.head_seq + 1
    pub covers_last : chunk.last ≡ m.head_seq
    pub names : chunk.digest ≡ digest env.hex env.blake3 store.key body
    pub written : json.manifest_to_vec m ≡ some text
    pub uploads :
        prepared.uploads
        ≡ record { kind = blob; schema = chunk_schema; payload = body }
          ∷ record { kind = blob; schema = manifest_schema; payload = text }
          ∷ []
    pub admitted : prepared.admitted ≡ m.admitted
    pub epoch : prepared.next.epoch ≡ m.epoch

  leader_range :
      (leader : Option AppendRange) (range : AppendRange) (w after : World S E) (rs : List (ℕ × ℕ))
      → LeadsWith leader rs
      → (elim leader as (λ o. Step (World S E) AppendRange) [
        | none ↦ fail (other "called `Option::unwrap()` on a `None` value")
        | some r ↦ pure r
      ])
          w
        ≡ (done range, after)
      → (rest : List (ℕ × ℕ)) × (rs ≡ (range.first, range.last) ∷ rest)
  leader_range none range w after rs leads h = absurd (ground arith)
  leader_range (some r) range w after rs (rest, e) h =
      (rest, e ∙ ap (λ (t : AppendRange). (t.first, t.last) ∷ rest) (pure-inj h))

  extension :
      (ctx : PrepareCtx env) (epoch : ℕ) (next : RefValue env.chrono)
      (domain : DomainState env.chrono) (retention : RetentionMode) (g : Gathering env store json)
      (first : ℕ) (chunk : ChunkRef env.chrono) (body text : List ℕ) (range : AppendRange)
      (result : env.json.Value)
      → IsGathered env store json domain.head_seq g
      → first ≡ domain.head_seq + 1
      → IsChunk first (length g.payloads) chunk body
      → (rest : List (ℕ × ℕ)) × (ranges_of g.admitted g.stable_admissions
          ≡ (range.first, range.last) ∷ rest)
      → next.epoch ≡ epoch
      → json.manifest_to_vec
          (append_manifest env store json ctx epoch next domain retention g chunk result)
        ≡ some text
      → Extends domain
          (append_manifest env store json ctx epoch next domain retention g chunk result)
          (append_prepared env store json next body text range g)
  unfolding append_manifest append_prepared
  extension ctx epoch next domain retention g first chunk body text range result
        (count, tiles, leads) at_first covers answered same_epoch written =
      let same_last =
        chunk_end domain.head_seq first g.seq (length g.payloads) chunk.last at_first count
          covers.ends in
      record {
        tiles =
            subst (λ n. Tiles domain.head_seq (ranges_of g.admitted g.stable_admissions) n)
              (sym same_last) tiles;
        fits = chunk_fits first (length g.payloads) chunk.last covers.ends covers.small;
        answered = answered;
        chunk = chunk;
        body = body;
        text = text;
        chunks = refl;
        segments = refl;
        floor = refl;
        covers_first = covers.begins ∙ at_first;
        covers_last = refl;
        names = covers.named;
        written = written;
        uploads = refl;
        admitted = refl;
        epoch = same_epoch;
      }

  prepare_gathered-Extends :
      (ctx : PrepareCtx env) (logical : Str) (epoch : ℕ) (lease : Lease env.chrono)
      (domain : DomainState env.chrono) (retention : RetentionMode) (g : Gathering env store json)
      (prepared : PreparedMutation env AppendRange) (w after : World S E)
      → IsGathered env store json domain.head_seq g
      → prepare_gathered env store json ctx logical epoch lease domain retention g w
        ≡ (done prepared, after)
      → (m : Manifest env store json) × (m.epoch ≡ epoch) × Extends domain m prepared
  unfolding prepare_gathered
  prepare_gathered-Extends ctx logical epoch lease domain retention g prepared w after gathered h =
      let (u5, w5, e5, h5) = continue-eq_done _ _ h in
      let (first, w6, e6, h6) = continue-eq_done _ _ h5 in
      let (built, w7, e7, h7) = continue-eq_done _ _ h6 in
      let (range, w8, e8, h8) = continue-eq_done _ _ h7 in
      let (result, w9, e9, h9) = continue-eq_done _ _ h8 in
      let (text, w10, e10, h10) = continue-eq_done _ _ h9 in
      let next = log_ref env store json ctx epoch (some lease) in
      (
        append_manifest env store json ctx epoch next domain retention g built.0 result,
        unfold append_manifest in refl,
        subst
            (λ p.
              Extends domain
                (append_manifest env store json ctx epoch next domain retention g built.0 result) p)
            (pure-inj h10)
            (extension ctx epoch next domain retention g first built.0 built.1 text range result
              gathered (next_seq-eq_done env store json domain.head_seq 1 first w5 w6 e6)
              (build_chunk-IsChunk first g.payloads ctx.now built w6 w7 e7)
              (leader_range g.leader range w7 w8 (ranges_of g.admitted g.stable_admissions)
                gathered.2 e8)
              (unfold log_ref in refl) (serde-eq_done _ w9 e10)),
      )

  pub prepare_events-Extends :
      (ctx : PrepareCtx env) (logical writer : Str) (lease_secs : env.host.Secs) (feed : FeedMode)
      (generics : List GenericItem) (stables : List StableItem) (steal : Bool)
      (prepared : PreparedMutation env AppendRange) (w after : World S E)
      → prepare_events env store json ctx logical writer lease_secs feed generics stables steal w
        ≡ (done prepared, after)
      → (domain : DomainState env.chrono) × (m : Manifest env store json) × (before : World S E)
        × (behind : World S E) × (events_domain env store json feed m.epoch ctx.snapshot.value
              before
            ≡ (done domain, behind))
        × Extends domain m prepared
  unfolding prepare_events
  prepare_events-Extends ctx logical writer lease_secs feed generics stables steal prepared w after
        h =
      let (taken, w1, e1, h1) = continue-eq_done _ _ h in
      let (domain, w2, e2, h2) = continue-eq_done _ _ h1 in
      let (u3, w3, e3, h3) = continue-eq_done _ _ h2 in
      let (g, w4, e4, h4) = continue-eq_done _ _ h3 in
      let gathered =
        gather-IsGathered env store json logical ctx.generation _ domain generics stables g w3 w4
          e4 in
      let (m, same_epoch, extends) =
        prepare_gathered-Extends ctx logical taken.0 taken.1 domain _ g prepared w4 after gathered
          h4 in
      (
        domain,
        m,
        w1,
        w2,
        ap (λ n. events_domain env store json feed n ctx.snapshot.value w1) same_epoch ∙ e2,
        extends,
      )
