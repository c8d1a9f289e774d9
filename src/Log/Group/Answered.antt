-- ===== src/Log/Group/Answered.antt =====
-- crates/combctl/src/log.rs: every submission of a batch is answered once.
use comb.Prelude.{
  ℕ, ◌+◌, ◌≡◌, refl, Option, none, some, List, [], ◌∷◌, ◌++◌, arith, ◌==◌, if◌then◌else◌,
  Bool-cases, inl, inr,
}
use comb.Prelude.Str.{Str, eqs}
use comb.Core.Error.{Result, ok, err}
use comb.Core.Commit.{Admission}
use comb.Core.Digest.{Digest}
use comb.Object.Step.{AnyError, Outcome, done, failed}
use comb.Store.Host.{Env, World}
use comb.Store.Keys.{Store}
use comb.Publish.View.{Published, find_admission}
use comb.Core.Operation.Identity.{canonical}
use comb.Publish.Head.{HeadSnapshot, head_or_empty}
use comb.Publish.Intent.{IntentAdmission, admitted_applied, admitted_pending}
use comb.Publish.Engine.{ensure_pending_intent}
use comb.Log.Model.{FeedMode, AppendRange, LogJson}
use comb.Log.Payloads.{check_payloads}
use comb.Log.Group.{
  Submission, GroupStats, Answer, refused, Sent, send_all, Entry, same_payloads, join, place,
  Admitting, sort_checked, sort_one, admit_applied, answer_admitted, sort_batch, admit_entry,
  admit_entries, answer_entry, answer_entries, refuse_entries, settle_group, publish_group,
  refuse_batch, commit_at, commit_group,
}

module _ (a : ℕ) where
  -- 1 for the sender, 0 for the others.
  pub one : ℕ → ℕ
  one b = if b == a then 1 else 0

  -- How often the sender waits, was answered, and stands in a batch.
  abbrev pub times : List ℕ → ℕ
  times [] = 0
  times (b ∷ rest) = one b + times rest

  abbrev pub waiting : List Entry → ℕ
  waiting [] = 0
  waiting (e ∷ rest) = times e.acks + waiting rest

  abbrev pub answered : Sent → ℕ
  answered [] = 0
  answered ((b, answer) ∷ rest) = one b + answered rest

  abbrev pub submitted : List Submission → ℕ
  submitted [] = 0
  submitted (sub ∷ rest) = one sub.ack + submitted rest

  times-append : (xs ys : List ℕ) → times (xs ++ ys) ≡ times xs + times ys
  times-append [] ys = omega arith
  times-append (x ∷ xs) ys = omega (arith, times-append xs ys)

  waiting-append : (xs ys : List Entry) → waiting (xs ++ ys) ≡ waiting xs + waiting ys
  waiting-append [] ys = omega arith
  waiting-append (x ∷ xs) ys = omega (arith, waiting-append xs ys)

  answered-append : (xs ys : Sent) → answered (xs ++ ys) ≡ answered xs + answered ys
  answered-append [] ys = omega arith
  answered-append ((b, t) ∷ xs) ys = omega (arith, answered-append xs ys)

  answered-send_all : (acks : List ℕ) (t : Answer) → answered (send_all acks t) ≡ times acks
  unfolding send_all
  answered-send_all [] t = refl
  answered-send_all (b ∷ rest) t = omega (arith, answered-send_all rest t)

  join-answered :
      (e : Entry) (request : Digest) (sub : Submission)
      → times (join e request sub).0.acks + answered (join e request sub).1
        ≡ times e.acks + one sub.ack
  unfolding join
  join-answered e request sub = elim (Bool-cases (same_payloads e.item.payloads sub.payloads)) [
    | inl b ↦ rw b (omega (arith, times-append e.acks (sub.ack ∷ [])))
    | inr b ↦ rw b (omega arith)
  ]

  place-answered :
      (id : Str) (request : Digest) (sub : Submission) (entries : List Entry)
      → waiting (place id request sub entries).0 + answered (place id request sub entries).1
        ≡ waiting entries + one sub.ack
  unfolding place
  place-answered id request sub [] = omega arith
  place-answered id request sub (e ∷ rest) =
      let here = join-answered e request sub in
      let there = place-answered id request sub rest in
      elim (Bool-cases (eqs e.id id)) [ inl b ↦ rw b (omega arith) | inr b ↦ rw b (omega arith) ]

  -- All that a state of the admissions owes and gave.
  abbrev pub held : Admitting → ℕ
  held state = waiting state.pending + (answered state.cached + answered state.sent)

module _ {S E : Type 0} (env : Env S E) (store : Store env)
    (json : LogJson env.chrono env.json.Value) (resource logical writer : Str)
    (lease_secs : env.host.Secs) (feed : FeedMode) (a : ℕ) where
  sort_checked-answered :
      (r : Result (Unit {0})) (sub : Submission) (entries : List Entry)
      → waiting a
            (sort_checked env store json resource logical writer lease_secs feed r sub entries).0
          + answered a
              (sort_checked env store json resource logical writer lease_secs feed r sub entries).1
        ≡ waiting a entries + one a sub.ack
  unfolding sort_checked
  sort_checked-answered (ok u) sub entries = place-answered a _ _ sub entries
  sort_checked-answered (err e) sub entries = omega arith

  sort_batch-answered :
      (batch : List Submission) (entries : List Entry)
      → waiting a
            (sort_batch env store json resource logical writer lease_secs feed batch entries).0
          + answered a
              (sort_batch env store json resource logical writer lease_secs feed batch entries).1
        ≡ waiting a entries + submitted a batch
  unfolding sort_batch sort_one
  sort_batch-answered [] entries = omega arith
  sort_batch-answered (sub ∷ rest) entries =
      let first = sort_checked-answered (check_payloads sub.payloads) sub entries in
      let more =
        sort_batch-answered rest
          (sort_one env store json resource logical writer lease_secs feed sub entries).0 in
      omega (arith, first, more, answered-append a _ _)

  admit_applied-answered :
      (range : Option AppendRange) (generation : ℕ) (e : Entry) (state : Admitting)
      → held a (
          admit_applied env store json resource logical writer lease_secs feed range generation e
            state)
        ≡ held a state + times a e.acks
  unfolding admit_applied
  admit_applied-answered none generation e state =
      omega (arith, answered-append a state.sent _, answered-send_all a e.acks _)
  admit_applied-answered (some range) generation e state =
      omega (arith, answered-append a state.cached _, answered-send_all a e.acks _)

  admit_entry-answered :
      (e : Entry) (o : Outcome (IntentAdmission env.json.Value)) (state : Admitting)
      → held a (admit_entry env store json resource logical writer lease_secs feed e o state)
        ≡ held a state + times a e.acks
  unfolding admit_entry
  admit_entry-answered e (done (admitted_applied generation commit result)) state =
      admit_applied-answered _ generation e state
  admit_entry-answered e (done (admitted_pending base)) state =
      omega (arith, waiting-append a state.pending (e ∷ []))
  admit_entry-answered e (failed error) state =
      omega (arith, answered-append a state.sent _, answered-send_all a e.acks _)

  admit_entries-answered :
      (base : ℕ) (entries : List Entry) (state : Admitting) (w : World S E)
      → held a
          (admit_entries env store json resource logical writer lease_secs feed base entries state
            w).0
        ≡ held a state + waiting a entries
  unfolding admit_entries
  admit_entries-answered base [] state w = omega arith
  admit_entries-answered base (e ∷ rest) state w =
      let call = ensure_pending_intent env store e.item.identity resource e.item.request base w in
      let here = admit_entry-answered e call.0 state in
      let more =
        admit_entries-answered base rest
          (admit_entry env store json resource logical writer lease_secs feed e call.0 state)
          call.1 in
      omega (arith, here, more)

  answer_admitted-answered :
      (found : Option Admission) (published : Published env.chrono AppendRange) (e : Entry)
      (stats : GroupStats)
      → answered a
          (answer_admitted env store json resource logical writer lease_secs feed found published e
            stats).1
        ≡ times a e.acks
  unfolding answer_admitted
  answer_admitted-answered none published e stats = answered-send_all a e.acks _
  answer_admitted-answered (some adm) published e stats = answered-send_all a e.acks _

  answer_entries-answered :
      (published : Published env.chrono AppendRange) (entries : List Entry) (stats : GroupStats)
      → answered a
          (answer_entries env store json resource logical writer lease_secs feed published entries
            stats).1
        ≡ waiting a entries
  unfolding answer_entries answer_entry
  answer_entries-answered published [] stats = refl
  answer_entries-answered published (e ∷ rest) stats =
      let found = find_admission (canonical env.hex e.item.identity) published.admitted in
      let step =
        answer_admitted env store json resource logical writer lease_secs feed found published e
          stats in
      let here = answer_admitted-answered found published e stats in
      let more = answer_entries-answered published rest step.0 in
      omega (
        arith,
        here,
        more,
        answered-append a step.1
            (answer_entries env store json resource logical writer lease_secs feed published rest
              step.0).1,
      )

  refuse_entries-answered :
      (error : AnyError) (entries : List Entry)
      → answered a
          (refuse_entries env store json resource logical writer lease_secs feed error entries)
        ≡ waiting a entries
  unfolding refuse_entries
  refuse_entries-answered error [] = refl
  refuse_entries-answered error (e ∷ rest) = omega (
    arith,
    answered-append a (send_all e.acks (refused error)) _,
    answered-send_all a e.acks (refused error),
    refuse_entries-answered error rest,
  )

  settle_group-answered :
      (o : Outcome (Published env.chrono AppendRange)) (entries : List Entry) (stats : GroupStats)
      → answered a
          (settle_group env store json resource logical writer lease_secs feed o entries stats).1
        ≡ waiting a entries
  unfolding settle_group
  settle_group-answered (done published) entries stats = answer_entries-answered published entries _
  settle_group-answered (failed error) entries stats = refuse_entries-answered error entries

  publish_group-answered :
      (entries : List Entry) (stats : GroupStats) (w : World S E)
      → answered a
          (publish_group env store json resource logical writer lease_secs feed entries stats w).0.1
        ≡ waiting a entries
  unfolding publish_group
  publish_group-answered [] stats w = refl
  publish_group-answered (e ∷ rest) stats w = settle_group-answered _ (e ∷ rest) stats

  refuse_batch-answered :
      (error : AnyError) (batch : List Submission)
      → answered a (refuse_batch env store json resource logical writer lease_secs feed error batch)
        ≡ submitted a batch
  unfolding refuse_batch
  refuse_batch-answered error [] = refl
  refuse_batch-answered error (sub ∷ rest) = omega (arith, refuse_batch-answered error rest)

  commit_at-answered :
      (o : Outcome (HeadSnapshot env.chrono)) (batch : List Submission) (stats : GroupStats)
      (w : World S E)
      → answered a
          (commit_at env store json resource logical writer lease_secs feed o batch stats w).0.1
        ≡ submitted a batch
  unfolding commit_at
  commit_at-answered (failed error) batch stats w = refuse_batch-answered error batch
  commit_at-answered (done snapshot) batch stats w =
      let sorted = sort_batch env store json resource logical writer lease_secs feed batch [] in
      let start : Admitting = record { pending = []; cached = []; sent = [] } in
      let run =
        admit_entries env store json resource logical writer lease_secs feed
          snapshot.value.generation sorted.0 start w in
      let settled =
        publish_group env store json resource logical writer lease_secs feed run.0.pending stats
          run.1 in
      let in_batch = sort_batch-answered batch [] in
      let of_entries = admit_entries-answered snapshot.value.generation sorted.0 start w in
      let of_pending = publish_group-answered run.0.pending stats run.1 in
      let e1 = answered-append a sorted.1 (run.0.sent ++ (run.0.cached ++ settled.0.1)) in
      let e2 = answered-append a run.0.sent (run.0.cached ++ settled.0.1) in
      let e3 = answered-append a run.0.cached settled.0.1 in omega arith

  -- Whatever the store answers, a group commit sends to each sender as many answers as it has
  -- submissions in the batch: no submission is left without an answer or answered twice, be it
  -- malformed, a duplicate, in conflict, applied before, published, or refused.
  pub commit_group-answered :
      (batch : List Submission) (stats : GroupStats) (w : World S E)
      → answered a
          (commit_group env store json resource logical writer lease_secs feed batch stats w).0.1
        ≡ submitted a batch
  unfolding commit_group
  commit_group-answered batch stats w =
      let head = head_or_empty env store resource w in commit_at-answered head.0 batch stats head.1
