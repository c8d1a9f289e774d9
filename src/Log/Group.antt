-- ===== src/Log/Group.antt =====
-- crates/combctl/src/log.rs: commit_group, one publication for the submissions of a batch.
pub mod Answered
use comb.Prelude.{
  ℕ, ◌+◌, ◌%◌, ◌^◌, Bool, true, false, not, ◌&&◌, Option, none, some, List, [], ◌∷◌, ◌++◌, map,
  if◌then◌else◌, length,
}
use comb.Prelude.Str.{Str, eqs}
use comb.Core.Error.{Result, ok, err, idempotency_conflict}
use comb.Core.Digest
use comb.Core.Digest.{Digest}
use comb.Core.Commit.{Admission}
use comb.Core.Operation.Identity.{OpIdentity, canonical}
use comb.Core.Operation.Material.{material_hash}
use comb.Object.Step.{AnyError, core, other, Outcome, done, failed}
use comb.Store.Host.{Env, World}
use comb.Store.Keys.{Store}
use comb.Publish.View.{Published, find_admission}
use comb.Publish.Head.{HeadSnapshot, head_or_empty}
use comb.Publish.Intent.{IntentAdmission, admitted_applied, admitted_pending}
use comb.Publish.Engine.{publish, ensure_pending_intent}
use comb.Log.Model.{FeedMode, AppendRange, Appended, GenericItem, LogJson}
use comb.Log.Payloads.{check_payloads}
use comb.Log.Plans.{append_material, group_plan}

-- `Submission`; the sender of its answer is a number.
pub record Submission : Type 0 where
  pub identity : OpIdentity
  pub payloads : List (List ℕ)
  pub ack : ℕ

pub record GroupStats : Type 0 where
  pub commits : ℕ
  pub events : ℕ
  pub conflicts : ℕ

-- What is sent to a submission; the text of an error is kept as the error.
pub data Answer : Type 0 where
  accepted : Appended → Answer
  refused : AnyError → Answer

-- What `send` was called with, in order.
abbrev pub Sent : Type 0
Sent = List (ℕ × Answer)

-- The same answer to each sender.
unfoldable pub send_all : List ℕ → Answer → Sent
send_all [] answer = []
send_all (a ∷ rest) answer = (a, answer) ∷ send_all rest answer

-- An entry of `unique`, under its key, in the order of `order`.
pub record Entry : Type 0 where
  pub id : Str
  pub item : GenericItem
  pub acks : List ℕ

-- `==` on payloads.
unfoldable pub same_payloads : List (List ℕ) → List (List ℕ) → Bool
same_payloads [] [] = true
same_payloads [] (q ∷ qs) = false
same_payloads (p ∷ ps) [] = false
same_payloads (p ∷ ps) (q ∷ qs) = eqs p q && same_payloads ps qs

-- A submission with the payloads of an entry joins it; one with others is in conflict with it.
unfoldable pub join : Entry → Digest → Submission → Entry × Sent
unfolding same_payloads
join e request sub =
    if not (same_payloads e.item.payloads sub.payloads)
    then (
      e,
      (
        sub.ack,
        refused (
            core (
              idempotency_conflict e.id (Digest.to_string e.item.request)
                (Digest.to_string request))),
      )
          ∷ [],
    )
    else (record e { acks = e.acks ++ sub.ack ∷ [] }, [])

-- A submission goes to the entry of its identity, or makes one behind the others.
unfoldable pub place : Str → Digest → Submission → List Entry → List Entry × Sent
unfolding join
place id request sub [] = (
  record {
    id = id;
    item = record { identity = sub.identity; request = request; payloads = sub.payloads };
    acks = sub.ack ∷ [];
  }
      ∷ [],
  [],
)
place id request sub (e ∷ rest) =
    let here = join e request sub in
    let there = place id request sub rest in
    if eqs e.id id then (here.0 ∷ rest, here.1) else (e ∷ there.0, there.1)

-- The entries whose intents are pending, and what was answered: at once, and from applied intents,
-- whose answers are sent behind the others.
pub record Admitting : Type 0 where
  pub pending : List Entry
  pub cached : Sent
  pub sent : Sent

module _ {S E : Type 0} (env : Env S E) (store : Store env)
    (json : LogJson env.chrono env.json.Value) (resource logical writer : Str)
    (lease_secs : env.host.Secs) (feed : FeedMode) where
  -- The request hash of a submission.
  unfoldable pub request_of : Submission → Digest
  unfolding append_material
  request_of sub =
      material_hash env.hex env.blake3 store.key (append_material env store json sub.payloads)
        store.tenant resource

  -- A submission of the batch, by the check of its payloads.
  unfoldable pub sort_checked : Result (Unit {0}) → Submission → List Entry → List Entry × Sent
  unfolding request_of place
  sort_checked (err e) sub entries = (entries, (sub.ack, refused (core e)) ∷ [])
  sort_checked (ok u) sub entries =
      place (canonical env.hex sub.identity) (request_of sub) sub entries

  unfoldable pub sort_one : Submission → List Entry → List Entry × Sent
  unfolding sort_checked
  sort_one sub entries = sort_checked (check_payloads sub.payloads) sub entries

  -- The loop over the batch.
  unfoldable pub sort_batch : List Submission → List Entry → List Entry × Sent
  unfolding sort_one
  sort_batch [] entries = (entries, [])
  sort_batch (sub ∷ rest) entries =
      let one = sort_one sub entries in
      let more = sort_batch rest one.0 in (more.0, one.1 ++ more.1)

  -- The range of an applied intent, where it can be read.
  unfoldable pub admit_applied : Option AppendRange → ℕ → Entry → Admitting → Admitting
  unfolding send_all
  admit_applied none generation e state = record state {
    sent = state.sent ++ send_all e.acks (refused (other "applied intent: {e}"));
  }
  admit_applied (some range) generation e state = record state {
    cached =
        state.cached
        ++ send_all e.acks (
            accepted (record {
              first = range.first;
              last = range.last;
              generation = generation;
              first_delivery = false;
            }));
  }

  -- What the admission of its intent means for an entry.
  unfoldable pub admit_entry :
      Entry → Outcome (IntentAdmission env.json.Value) → Admitting → Admitting
  unfolding admit_applied
  admit_entry e (done (admitted_applied generation commit result)) state =
      admit_applied (json.range_codec.from_value result) generation e state
  admit_entry e (done (admitted_pending base)) state = record state {
    pending = state.pending ++ e ∷ [];
  }
  admit_entry e (failed error) state = record state {
    sent = state.sent ++ send_all e.acks (refused error);
  }

  -- The loop over the entries.
  unfoldable pub admit_entries : ℕ → List Entry → Admitting → World S E → Admitting × World S E
  unfolding admit_entry
  admit_entries base [] state w = (state, w)
  admit_entries base (e ∷ rest) state w =
      let (outcome, after) =
        ensure_pending_intent env store e.item.identity resource e.item.request base w in
      admit_entries base rest (admit_entry e outcome state) after

  -- The answer of a publication to an entry, by the admission that it has for it.
  unfoldable pub answer_admitted :
      Option Admission → Published env.chrono AppendRange → Entry → GroupStats → GroupStats × Sent
  unfolding send_all
  answer_admitted (some a) published e stats = (
    record stats { events = (stats.events + length e.item.payloads) % 2 ^ 64 },
    send_all e.acks (
        accepted (record {
          first = a.first;
          last = a.last;
          generation = published.generation;
          first_delivery = published.first_delivery;
        })),
  )
  answer_admitted none published e stats = (
    record stats { conflicts = (stats.conflicts + 1) % 2 ^ 64 },
    send_all e.acks (refused (other "grouped identity {id} was not admitted in this publication")),
  )

  unfoldable pub answer_entry :
      Published env.chrono AppendRange → Entry → GroupStats → GroupStats × Sent
  unfolding answer_admitted
  answer_entry published e stats =
      answer_admitted (find_admission (canonical env.hex e.item.identity) published.admitted)
        published e stats

  unfoldable pub answer_entries :
      Published env.chrono AppendRange → List Entry → GroupStats → GroupStats × Sent
  unfolding answer_entry
  answer_entries published [] stats = (stats, [])
  answer_entries published (e ∷ rest) stats =
      let one = answer_entry published e stats in
      let more = answer_entries published rest one.0 in (more.0, one.1 ++ more.1)

  unfoldable pub refuse_entries : AnyError → List Entry → Sent
  unfolding send_all
  refuse_entries error [] = []
  refuse_entries error (e ∷ rest) = send_all e.acks (refused error) ++ refuse_entries error rest

  -- The match on the publication.
  unfoldable pub settle_group :
      Outcome (Published env.chrono AppendRange) → List Entry → GroupStats → GroupStats × Sent
  unfolding answer_entries refuse_entries
  settle_group (done published) entries stats =
      answer_entries published entries (record stats { commits = (stats.commits + 1) % 2 ^ 64 })
  settle_group (failed error) entries stats =
      (record stats { conflicts = (stats.conflicts + 1) % 2 ^ 64 }, refuse_entries error entries)

  -- The publication of the entries that are pending, if there are any.
  unfoldable pub publish_group :
      List Entry → GroupStats → World S E → (GroupStats × Sent) × World S E
  unfolding settle_group
  publish_group [] stats w = ((stats, []), w)
  publish_group (e ∷ rest) stats w =
      let (outcome, after) =
        publish env store
          (group_plan env store json resource logical writer lease_secs feed e.item
            (map (λ (x : Entry). x.item) rest))
          e.item.identity w in
      (settle_group outcome (e ∷ rest) stats, after)

  unfoldable pub refuse_batch : AnyError → List Submission → Sent
  refuse_batch error [] = []
  refuse_batch error (sub ∷ rest) = (sub.ack, refused error) ∷ refuse_batch error rest

  -- `commit_group` behind the read of the head.
  unfoldable pub commit_at :
      Outcome (HeadSnapshot env.chrono)
      → List Submission
      → GroupStats
      → World S E
      → (GroupStats × Sent) × World S E
  unfolding sort_batch admit_entries publish_group refuse_batch
  commit_at (failed error) batch stats w = ((stats, refuse_batch error batch), w)
  commit_at (done snapshot) batch stats w =
      let sorted = sort_batch batch [] in
      let (state, admitted) =
        admit_entries snapshot.value.generation sorted.0
          (record { pending = []; cached = []; sent = [] }) w in
      let (settled, after) = publish_group state.pending stats admitted in
      ((settled.0, sorted.1 ++ (state.sent ++ (state.cached ++ settled.1))), after)

  -- `commit_group`; its `lease_secs` is 30.
  unfoldable pub commit_group :
      List Submission → GroupStats → World S E → (GroupStats × Sent) × World S E
  unfolding commit_at
  commit_group batch stats w =
      let (head, after) = head_or_empty env store resource w in commit_at head batch stats after
