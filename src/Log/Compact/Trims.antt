-- ===== src/Log/Compact/Trims.antt =====
-- crates/combctl/src/log.rs: what a trim changes of a log.
use mathlib.Core.Path.{subst}
use comb.Prelude.{ℕ, ◌≤◌, ◌≡◌, refl, false, some, List, [], ◌∷◌, arith}
use comb.Core.Envelope.{blob}
use comb.Object.Step.{done}
use comb.Object.Step.Inversion.{continue-eq_done, lift-eq_done, pure-inj, refuse_if-eq_ok}
use comb.Store.Host.{Env, World}
use comb.Store.Keys.{Store}
use comb.Publish.Plan.{PreparedMutation, PrepareCtx, header}
use comb.Log.Model.{LogJson, is_complete, manifest_schema}
use comb.Log.Events.{Manifest}
use comb.Log.Prepare.{log_ref, log_state}
use comb.Log.Prepare.Extends.{serde-eq_done}
use comb.Log.Plans.{prepared_alone}
use comb.Log.Compact.{existing_manifest, trim_floor, trimmed_to, prepare_trim}

module _ {S E : Type 0} (env : Env S E) (store : Store env)
    (json : LogJson env.chrono env.json.Value) where
  -- What a trim before a number makes of a manifest.
  pub record Trims (before : ℕ) (ctx : PrepareCtx env) (m trimmed : Manifest env store json)
      (prepared : PreparedMutation env ℕ) : Type 0 where
    pub allowed : is_complete m.retention ≡ false
    pub answered : prepared.outcome ≡ trimmed.trim_before_seq
    pub never_back : m.trim_before_seq ≤ trimmed.trim_before_seq
    pub reaches : before ≤ m.head_seq → before ≤ trimmed.trim_before_seq
    pub within : m.trim_before_seq ≤ m.head_seq → trimmed.trim_before_seq ≤ m.head_seq
    pub head_seq : trimmed.head_seq ≡ m.head_seq
    pub epoch : trimmed.epoch ≡ m.epoch
    pub chunks : trimmed.chunks ≡ m.chunks
    pub segments : trimmed.segments ≡ m.segments
    pub stable_index : trimmed.stable_index ≡ m.stable_index
    -- The header, the result and the ref are those of the trim, and no admission is kept; all else is.
    pub all_else : trimmed ≡ record m {
      header = trimmed.header;
      trim_before_seq = trimmed.trim_before_seq;
      admitted = [];
      result = trimmed.result;
      ref_state = trimmed.ref_state;
    }
    pub own_header : trimmed.header ≡ header env ctx ctx.snapshot.value.epoch
    pub own_state : trimmed.ref_state ≡ some (log_state env store json prepared.next)
    pub next_epoch : prepared.next.epoch ≡ ctx.snapshot.value.epoch
    pub next_lease : prepared.next.lease ≡ ctx.snapshot.value.lease
    pub next_generation : prepared.next.generation ≡ ctx.generation
    pub text : List ℕ
    pub written : json.manifest_to_vec trimmed ≡ some text
    pub uploads :
        prepared.uploads ≡ record { kind = blob; schema = manifest_schema; payload = text } ∷ []

  trim_floor_bounds :
      (before : ℕ) (m : Manifest env store json)
      → (m.trim_before_seq ≤ trim_floor env store json before m)
        × (before ≤ m.head_seq → before ≤ trim_floor env store json before m)
        × (m.trim_before_seq ≤ m.head_seq → trim_floor env store json before m ≤ m.head_seq)
  unfolding trim_floor
  trim_floor_bounds before m = (ground arith, (λ h. ground (arith, h)), (λ h. ground (arith, h)))

  -- A trim that is prepared is one of a log that need not be complete. The floor that it answers with
  -- stands in the manifest that it uploads, is never lowered, reaches the number that was asked for
  -- where the head does, and stays within the head where the floor that was read did. That manifest
  -- has a header, a result and a ref state of its own and no generic admissions, and is the manifest
  -- that was read in all else: the log, the head, the epoch, the chunks, the segments, the index, the
  -- retention and the stable admissions. The ref keeps its epoch and its lease.
  pub prepare_trim-Trims :
      (before : ℕ) (ctx : PrepareCtx env) (prepared : PreparedMutation env ℕ) (w after : World S E)
      → prepare_trim env store json before ctx w ≡ (done prepared, after)
      → (m : Manifest env store json) × (trimmed : Manifest env store json) × (behind : World S E)
        × (existing_manifest env store json ctx.snapshot.value w ≡ (done m, behind))
        × Trims before ctx m trimmed prepared
  unfolding prepare_trim trimmed_to prepared_alone log_ref
  prepare_trim-Trims before ctx prepared w after h =
      let (m, w1, e1, h1) = continue-eq_done _ _ h in
      let (u, w2, e2, h2) = continue-eq_done _ _ h1 in
      let (result, w3, e3, h3) = continue-eq_done _ _ h2 in
      let (text, w4, e4, h4) = continue-eq_done _ _ h3 in
      let (free, _) = lift-eq_done _ w1 e2 in
      let (back, reach, bound) = trim_floor_bounds before m in
      let next = log_ref env store json ctx ctx.snapshot.value.epoch ctx.snapshot.value.lease in
      let trimmed =
        trimmed_to env store json ctx m (trim_floor env store json before m) result next in
      (
        m,
        trimmed,
        w1,
        e1,
        subst (λ p. Trims before ctx m trimmed p) (pure-inj h4)
            (record {
              allowed = refuse_if-eq_ok (is_complete m.retention) _ free;
              answered = refl;
              never_back = back;
              reaches = reach;
              within = bound;
              head_seq = refl;
              epoch = refl;
              chunks = refl;
              segments = refl;
              stable_index = refl;
              all_else = refl;
              own_header = refl;
              own_state = refl;
              next_epoch = refl;
              next_lease = refl;
              next_generation = refl;
              text = text;
              written = serde-eq_done _ w3 e4;
              uploads = refl;
            }),
      )
