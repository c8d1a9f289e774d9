-- ===== src/Object/Failpoint/Once.antt =====
-- A rule for the next call loses one response, and then the backend is the one inside.
use comb.Prelude.{ℕ, ◌≡◌, refl, ap, true, false, none, List, [], ◌∷◌, leb, arith}
use comb.Prelude.Str.{Str}
use comb.Core.Error.{Result, ok, err}
use comb.Object.Failpoint.{
  FailMethod, drop_response, LiveRule, FailpointBackend, on_put_update, is_armed, same_method,
  has_part, fire_rule, decide_rule, first_answer, decide, count_success, note_success,
  new_failpoint, arm, fail_next, inject, injected_response, noted, write_as, failpoint_write,
}

-- A rule that has counted as many firings as it may make.
abbrev pub IsSpent : LiveRule → Type 0
IsSpent rule = leb rule.spec.fires rule.fired ≡ true

spent-is_armed :
    (method : FailMethod) (key : Str) (rule : LiveRule)
    → IsSpent rule
    → is_armed method key rule ≡ false
unfolding is_armed
spent-is_armed method key rule h = ground (arith, h)

decide-spent :
    (method : FailMethod) (key : Str) (rule : LiveRule)
    → IsSpent rule
    → decide method key (rule ∷ []) ≡ (none, rule ∷ [])
unfolding decide decide_rule first_answer
decide-spent method key rule h = rw (spent-is_armed method key rule h) refl

note_success-spent :
    (method : FailMethod) (key : Str) (rule : LiveRule)
    → IsSpent rule
    → note_success method key false (rule ∷ []) ≡ rule ∷ []
unfolding note_success
note_success-spent method key rule h = rw (spent-is_armed method key rule h) refl

-- The backend after the response of the next update was lost.
pub after_loss : {S : Type 0} → Str → S → FailpointBackend S
after_loss needle s = record {
  inner = s;
  rules =
      record {
        spec = (record {
          method = on_put_update;
          key_contains = needle;
          successes_before_fire = 0;
          fires = 1;
          action = drop_response;
        });
        seen_successes = 0;
        fired = 1;
      }
      ∷ [];
  injected = 1;
}

-- A backend behind one rule.
abbrev behind_rule : {S : Type 0} → LiveRule → ℕ → S → FailpointBackend S
behind_rule rule injected s = record { inner = s; rules = rule ∷ []; injected = injected }

-- A write: its method, its key, and the call of the backend inside.
pub record Write (S A : Type 0) : Type 0 where
  pub method : FailMethod
  pub key : Str
  pub call : S → Result A × S

module _ {S A : Type 0} where
  -- Writes one after the other, through the wrapper and without it.
  unfoldable pub failpoint_writes :
      List (Write S A) → FailpointBackend S → List (Result A) × FailpointBackend S
  failpoint_writes [] f = ([], f)
  failpoint_writes (c ∷ rest) f =
      let one = failpoint_write c.method c.key c.call f in
      let more = failpoint_writes rest one.1 in (one.0 ∷ more.0, more.1)

  unfoldable pub plain_writes : List (Write S A) → S → List (Result A) × S
  plain_writes [] s = ([], s)
  plain_writes (c ∷ rest) s =
      let one = c.call s in let more = plain_writes rest one.1 in (one.0 ∷ more.0, more.1)

  noted-spent :
      (method : FailMethod) (key : Str) (rule : LiveRule) (injected : ℕ) (s : S)
      (answer : Result A × S)
      → IsSpent rule
      → noted method key false (behind_rule rule injected s) answer
        ≡ (answer.0, behind_rule rule injected answer.1)
  unfolding noted
  noted-spent method key rule injected s (err e, t) spent = refl
  noted-spent method key rule injected s (ok a, t) spent =
      rw (note_success-spent method key rule spent) refl

  -- Behind one spent rule, a write is that of the backend inside, and the rule stays as it is.
  spent_write :
      (method : FailMethod) (key : Str) (call : S → Result A × S) (rule : LiveRule) (injected : ℕ)
      (s : S)
      → IsSpent rule
      → failpoint_write method key call (behind_rule rule injected s)
        ≡ ((call s).0, behind_rule rule injected (call s).1)
  unfolding failpoint_write write_as
  spent_write method key call rule injected s spent =
      rw (decide-spent method key rule spent)
        (noted-spent method key rule injected s (call s) spent)

  spent_writes :
      (later : List (Write S A)) (rule : LiveRule) (injected : ℕ) (s : S)
      → IsSpent rule
      → failpoint_writes later (behind_rule rule injected s)
        ≡ ((plain_writes later s).0, behind_rule rule injected (plain_writes later s).1)
  unfolding failpoint_writes plain_writes
  spent_writes [] rule injected s spent = refl
  spent_writes (c ∷ rest) rule injected s spent =
      rw (spent_write c.method c.key c.call rule injected s spent)
        (rw (spent_writes rest rule injected (c.call s).1 spent) refl)

  loses_response :
      (inner s : S) (needle key : Str) (call : S → Result A × S) (a : A)
      → has_part key needle ≡ true
      → call inner ≡ (ok a, s)
      → failpoint_write on_put_update key call (fail_next on_put_update drop_response inner needle)
        ≡ (err injected_response, after_loss needle s)
  unfolding failpoint_write fail_next new_failpoint arm decide decide_rule first_answer is_armed
      same_method fire_rule write_as noted inject note_success count_success after_loss
  loses_response inner s needle key call a part h = ground (arith, part, h)

  -- The first update behind a rule to lose the response of the next update of a key.
  abbrev pub lost_update : Str → Str → (S → Result A × S) → S → Result A × FailpointBackend S
  lost_update needle key call inner =
      failpoint_write on_put_update key call (fail_next on_put_update drop_response inner needle)

  -- With a rule to lose the response of the next update of a key: where that update succeeds in the
  -- backend inside, it is committed there and its caller gets the injected error; and all writes
  -- after it, as many as there are and of whatever methods and keys, are answered as by the backend
  -- inside and leave it as they would without the wrapper, and the rule is spent from then on.
  pub lost_response_once :
      (inner s : S) (needle key : Str) (call : S → Result A × S) (a : A) (later : List (Write S A))
      → has_part key needle ≡ true
      → call inner ≡ (ok a, s)
      → ((lost_update needle key call inner).0 ≡ err injected_response)
        × ((lost_update needle key call inner).1.inner ≡ s)
        × ((failpoint_writes later (lost_update needle key call inner).1).0
            ≡ (plain_writes later s).0)
        × ((failpoint_writes later (lost_update needle key call inner).1).1
            ≡ after_loss needle (plain_writes later s).1)
  unfolding after_loss
  lost_response_once inner s needle key call a later part h =
      let e = loses_response inner s needle key call a part h in
      let whole = spent_writes later _ 1 s refl in
      rw e (refl, refl, ap (λ p. p.0) whole, ap (λ p. p.1) whole)
