-- ===== src/Store/Plans/Fencing.antt =====
-- Epochs fence writers out: what the mutations of a ref do to its epoch, over any run of them.
use comb.Prelude.{
  ℕ, ◌+◌, ◌≤◌, ◌<◌, ◌≡◌, refl, sym, ap, Bool, not, ◌==◌, Option, some, List, inl, inr, arith,
}
use comb.Prelude.Str.{Str}
use comb.Core.Error.{ok, err, fenced, refuse_if}
use comb.Core.Digest.{Digest}
use comb.Core.Refs.{RefValue, Lease}
use comb.Object.Step.{core, done, failed}
use comb.Object.Step.Inversion.{continue-eq_done, lift-eq_done, pure-inj}
use comb.Store.Host.{Env, World}
use comb.Store.Keys.{Store}
use comb.Store.Plans.{set_target_allowed, set_target_next, claim_next, release_next}
use comb.Publish.Head.{HeadSnapshot}
use comb.Publish.Plan.{PreparedMutation, PrepareCtx}
use comb.Publish.Renew.{renewed, existing_head, renew_round, renew_owned_round}
use comb.Log.Model.{
  FeedMode, AppendRange, GenericItem, StableItem, DomainState, RetentionMode, LogJson,
}
use comb.Log.Payloads.Writers.{Admits, next_writer-Admits}
use comb.Log.Events.{Gathered}
use comb.Log.Prepare.{log_ref, append_prepared, prepare_gathered, prepare_events}
use comb.Log.Plans.{prepared_alone, takeover_plan}
use comb.Log.Compact.{merge_loaded, prepare_compact, prepare_trim}
use comb.Log.Compact.Trims.{prepare_trim-Trims}

module _ {S E : Type 0} (env : Env S E) (store : Store env)
    (json : LogJson env.chrono env.json.Value) where
  -- One mutation of a ref: those of any ref, a renewal of its lease, and those of a log, an append (of
  -- generic and stable items, alone or in a group), a takeover, a compaction and a trim.
  pub data Move (current next : RefValue env.chrono) : Type 0 where
    by_set_target :
        (target : Digest) (fence : Option ℕ) (generation : ℕ) (now : env.chrono.Time)
        → set_target_next env target fence current generation now ≡ ok next
        → Move current next
    by_claim :
        (writer : Str) (ttl : env.host.Secs) (steal : Bool) (generation : ℕ) (now : env.chrono.Time)
        → claim_next env writer ttl steal current generation now ≡ ok next
        → Move current next
    by_release :
        (fence : ℕ) (writer : Option Str) (generation : ℕ) (now : env.chrono.Time)
        → release_next env fence writer current generation now ≡ ok next
        → Move current next
    by_renewal :
        (writer : Str) (now : env.chrono.Time) (ttl : env.host.Secs)
        → renewed env current writer now ttl ≡ next
        → Move current next
    by_append :
        (ctx : PrepareCtx env) (logical writer : Str) (secs : env.host.Secs) (feed : FeedMode)
        (generics : List GenericItem) (stables : List StableItem) (steal : Bool)
        (made : PreparedMutation env AppendRange) (w after : World S E)
        → ctx.snapshot.value ≡ current
        → prepare_events env store json ctx logical writer secs feed generics stables steal w
          ≡ (done made, after)
        → made.next ≡ next
        → Move current next
    by_takeover :
        (resource writer : Str) (secs : env.host.Secs) (ctx : PrepareCtx env)
        (made : PreparedMutation env ℕ) (w after : World S E)
        → ctx.snapshot.value ≡ current
        → (takeover_plan env store json resource writer secs).prepare ctx w ≡ (done made, after)
        → made.next ≡ next
        → Move current next
    by_compact :
        (feed : FeedMode) (ctx : PrepareCtx env) (made : PreparedMutation env ℕ)
        (w after : World S E)
        → ctx.snapshot.value ≡ current
        → prepare_compact env store json feed ctx w ≡ (done made, after)
        → made.next ≡ next
        → Move current next
    by_trim :
        (before : ℕ) (ctx : PrepareCtx env) (made : PreparedMutation env ℕ) (w after : World S E)
        → ctx.snapshot.value ≡ current
        → prepare_trim env store json before ctx w ≡ (done made, after)
        → made.next ≡ next
        → Move current next

  pub data Run (current : RefValue env.chrono) : RefValue env.chrono → Type 0 where
    no_move : Run current current
    and_move : {mid next : RefValue env.chrono} → Run current mid → Move mid next → Run current next

  -- What a claim that was let through makes of the ref.
  claim_next-epoch :
      (writer : Str) (ttl : env.host.Secs) (steal : Bool) (current next : RefValue env.chrono)
      (generation : ℕ) (now : env.chrono.Time)
      → claim_next env writer ttl steal current generation now ≡ ok next
      → next.epoch ≡ current.epoch + 1
  unfolding claim_next
  claim_next-epoch writer ttl steal current next generation now h = ground arith

  set_target_next-epoch :
      (target : Digest) (fence : Option ℕ) (current next : RefValue env.chrono) (generation : ℕ)
      (now : env.chrono.Time)
      → set_target_next env target fence current generation now ≡ ok next
      → next.epoch ≡ current.epoch
  unfolding set_target_next
  set_target_next-epoch target fence current next generation now h = ground arith

  release_next-epoch :
      (fence : ℕ) (writer : Option Str) (current next : RefValue env.chrono) (generation : ℕ)
      (now : env.chrono.Time)
      → release_next env fence writer current generation now ≡ ok next
      → next.epoch ≡ current.epoch
  unfolding release_next
  release_next-epoch fence writer current next generation now h = ground arith

  prepare_gathered-epoch :
      (ctx : PrepareCtx env) (logical : Str) (epoch : ℕ) (lease : Lease env.chrono)
      (domain : DomainState env.chrono) (retention : RetentionMode) (g : Gathered env store json)
      (made : PreparedMutation env AppendRange) (w after : World S E)
      → prepare_gathered env store json ctx logical epoch lease domain retention g w
        ≡ (done made, after)
      → made.next.epoch ≡ epoch
  unfolding prepare_gathered append_prepared log_ref
  prepare_gathered-epoch ctx logical epoch lease domain retention g made w after h =
      let (_, w1, _, h1) = continue-eq_done _ _ h in
      let (first, w2, _, h2) = continue-eq_done _ _ h1 in
      let (built, w3, _, h3) = continue-eq_done _ _ h2 in
      let (range, w4, _, h4) = continue-eq_done _ _ h3 in
      let (result, w5, _, h5) = continue-eq_done _ _ h4 in
      let (text, w6, _, h6) = continue-eq_done _ _ h5 in
      sym (ap (λ (p : PreparedMutation env AppendRange). p.next.epoch) (pure-inj h6))

  Admits-epoch :
      (current : RefValue env.chrono) (writer : Str) (now : env.chrono.Time) (secs : env.host.Secs)
      (steal : Bool) (epoch : ℕ)
      → Admits env current writer now secs steal epoch
      → current.epoch ≤ epoch
  Admits-epoch current writer now secs steal epoch (inl (held, _, _, _, _, same)) = omega arith
  Admits-epoch current writer now secs steal epoch (inr (_, more, _)) = omega arith

  prepare_events-epoch :
      (ctx : PrepareCtx env) (logical writer : Str) (secs : env.host.Secs) (feed : FeedMode)
      (generics : List GenericItem) (stables : List StableItem) (steal : Bool)
      (made : PreparedMutation env AppendRange) (w after : World S E)
      → prepare_events env store json ctx logical writer secs feed generics stables steal w
        ≡ (done made, after)
      → ctx.snapshot.value.epoch ≤ made.next.epoch
  unfolding prepare_events
  prepare_events-epoch ctx logical writer secs feed generics stables steal made w after h =
      let (taken, w1, e1, h1) = continue-eq_done _ _ h in
      let (domain, w2, _, h2) = continue-eq_done _ _ h1 in
      let (_, w3, _, h3) = continue-eq_done _ _ h2 in
      let (g, w4, _, h4) = continue-eq_done _ _ h3 in
      let (let_in, _) = lift-eq_done _ w e1 in
      let (admitted, _) =
        next_writer-Admits env ctx.snapshot.value writer ctx.now secs steal taken.0 taken.1
          let_in in
      omega (
        arith,
        Admits-epoch ctx.snapshot.value writer ctx.now secs steal taken.0 admitted,
        prepare_gathered-epoch ctx logical taken.0 taken.1 domain _ g made w4 after h4,
      )

  takeover-epoch :
      (resource writer : Str) (secs : env.host.Secs) (ctx : PrepareCtx env)
      (made : PreparedMutation env ℕ) (w after : World S E)
      → (takeover_plan env store json resource writer secs).prepare ctx w ≡ (done made, after)
      → made.next.epoch ≡ ctx.snapshot.value.epoch + 1
  unfolding takeover_plan prepared_alone log_ref
  takeover-epoch resource writer secs ctx made w after h =
      let (_, w1, _, h1) = continue-eq_done _ _ h in
      sym (ap (λ (p : PreparedMutation env ℕ). p.next.epoch) (pure-inj h1))

  prepare_compact-epoch :
      (feed : FeedMode) (ctx : PrepareCtx env) (made : PreparedMutation env ℕ) (w after : World S E)
      → prepare_compact env store json feed ctx w ≡ (done made, after)
      → made.next.epoch ≡ ctx.snapshot.value.epoch
  unfolding prepare_compact merge_loaded prepared_alone log_ref
  prepare_compact-epoch feed ctx made w after h =
      let (_, w1, _, h1) = continue-eq_done _ _ h in
      let (_, w2, _, h2) = continue-eq_done _ _ h1 in
      let (_, w3, _, h3) = continue-eq_done _ _ h2 in
      let (_, w4, _, h4) = continue-eq_done _ _ h3 in
      let (_, w5, _, h5) = continue-eq_done _ _ h4 in
      let (_, w6, _, h6) = continue-eq_done _ _ h5 in
      let (_, w7, _, h7) = continue-eq_done _ _ h6 in
      let (_, w8, _, h8) = continue-eq_done _ _ h7 in
      sym (ap (λ (p : PreparedMutation env ℕ). p.next.epoch) (pure-inj h8))

  prepare_trim-epoch :
      (before : ℕ) (ctx : PrepareCtx env) (made : PreparedMutation env ℕ) (w after : World S E)
      → prepare_trim env store json before ctx w ≡ (done made, after)
      → made.next.epoch ≡ ctx.snapshot.value.epoch
  prepare_trim-epoch before ctx made w after h =
      let (m, trimmed, behind, _, trims) =
        prepare_trim-Trims env store json before ctx made w after h in
      trims.next_epoch

  -- A move from the ref that was read to the ref that was prepared.
  between :
      {T : Type 0} {current next : RefValue env.chrono} (ctx : PrepareCtx env)
      (made : PreparedMutation env T)
      → ctx.snapshot.value ≡ current
      → made.next ≡ next
      → ctx.snapshot.value.epoch ≤ made.next.epoch
      → current.epoch ≤ next.epoch
  between ctx made from to le =
      let a = ap (λ (v : RefValue env.chrono). v.epoch) from in
      let b = ap (λ (v : RefValue env.chrono). v.epoch) to in omega (arith, a, b, le)

  Move-epoch : {current next : RefValue env.chrono} → Move current next → current.epoch ≤ next.epoch
  unfolding renewed
  Move-epoch (by_set_target target fence generation now h) =
      omega (arith, set_target_next-epoch target fence _ _ generation now h)
  Move-epoch (by_claim writer ttl steal generation now h) =
      omega (arith, claim_next-epoch writer ttl steal _ _ generation now h)
  Move-epoch (by_release fence writer generation now h) =
      omega (arith, release_next-epoch fence writer _ _ generation now h)
  Move-epoch (by_renewal writer now ttl h) = ground arith
  Move-epoch
        (by_append ctx logical writer secs feed generics stables steal made w after from h to) =
      between ctx made from to
        (prepare_events-epoch ctx logical writer secs feed generics stables steal made w after h)
  Move-epoch (by_takeover resource writer secs ctx made w after from h to) =
      between ctx made from to
        (omega (arith, takeover-epoch resource writer secs ctx made w after h))
  Move-epoch (by_compact feed ctx made w after from h to) =
      between ctx made from to (omega (arith, prepare_compact-epoch feed ctx made w after h))
  Move-epoch (by_trim before ctx made w after from h to) =
      between ctx made from to (omega (arith, prepare_trim-epoch before ctx made w after h))

  Run-epoch :
      {current later : RefValue env.chrono} → Run current later → current.epoch ≤ later.epoch
  Run-epoch no_move = omega arith
  Run-epoch (and_move run move) = omega (arith, Run-epoch run, Move-epoch move)

  pub claim-fences :
      (writer : Str) (ttl : env.host.Secs) (steal : Bool) (current next later : RefValue env.chrono)
      (generation : ℕ) (now : env.chrono.Time) (target : Digest) (owner : Option Str)
      (generation' : ℕ) (now' : env.chrono.Time) (name holder : Str) (ttl' : env.host.Secs)
      (snapshot : HeadSnapshot env.chrono) (w read : World S E)
      → claim_next env writer ttl steal current generation now ≡ ok next
      → Run next later
      → existing_head env store name w ≡ (done snapshot, read)
      → snapshot.value ≡ later
      → (set_target_next env target (some current.epoch) later generation' now'
          ≡ err (fenced current.epoch later.epoch))
        × (release_next env current.epoch owner later generation' now'
            ≡ err (fenced current.epoch later.epoch))
        × ((renew_round env store name current.epoch ttl' w).0
            ≡ failed (core (fenced current.epoch later.epoch)))
        × ((renew_owned_round env store name holder current.epoch ttl' w).0
            ≡ failed (core (fenced current.epoch later.epoch)))
  unfolding set_target_next set_target_allowed release_next renew_round renew_owned_round
      comb.Object.Step.continue
  claim-fences writer ttl steal current next later generation now target owner generation' now' name
        holder ttl' snapshot w read h run found is_later =
      (
        ground (arith, newer),
        ground (arith, newer),
        rw (found, refused) refl,
        rw (found, refused) refl,
      )
    where
      newer : current.epoch < later.epoch
      newer =
          omega
            (arith, claim_next-epoch writer ttl steal current next generation now h, Run-epoch run)

      refused :
          refuse_if
            (not (snapshot.value.epoch == current.epoch))
            (fenced current.epoch snapshot.value.epoch)
          ≡ err (fenced current.epoch later.epoch)
      refused =
          let same = ap (λ (v : RefValue env.chrono). v.epoch) is_later in
          ground (arith, newer, same)
