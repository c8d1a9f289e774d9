-- ===== src/Object/Failpoint/Budget.antt =====
-- The firings that the rules of the failpoint backend have counted.
use comb.Prelude.{
  ℕ, ◌≤◌, ◌≡◌, Bool, true, false, Option, none, some, List, [], ◌∷◌, ◌++◌, All, arith,
}
use comb.Prelude.Str.{Str}
use comb.Core.Error.{Result, ok, err}
use comb.Object.Backend.{Version}
use comb.Object.Failpoint.{
  FailMethod, FailAction, drop_request, drop_response, fail_io, FailRule, LiveRule,
  FailpointBackend, is_armed, fire_rule, decide_rule, first_answer, decide, count_success,
  note_success, new_failpoint, arm, inject, noted, write_as, failpoint_write, read_as,
  failpoint_read, untouched,
}

-- A rule has counted at most as many firings as it may make.
abbrev pub IsBudgeted : LiveRule → Type 0
IsBudgeted rule = rule.fired ≤ rule.spec.fires

fire_rule-IsBudgeted :
    (action : FailAction) (method : FailMethod) (key : Str) (rule : LiveRule)
    → IsBudgeted rule
    → is_armed method key rule ≡ true
    → IsBudgeted (fire_rule action rule).1
unfolding fire_rule is_armed
fire_rule-IsBudgeted drop_request method key rule b h = ground arith
fire_rule-IsBudgeted fail_io method key rule b h = ground arith
fire_rule-IsBudgeted drop_response method key rule b h = ground arith

decide_rule-IsBudgeted :
    (method : FailMethod) (key : Str) (rule : LiveRule)
    → IsBudgeted rule
    → IsBudgeted (decide_rule method key rule).1
unfolding decide_rule
decide_rule-IsBudgeted method key rule b =
    ground (arith, fire_rule-IsBudgeted rule.spec.action method key rule b)

first_answer-IsBudgeted :
    (answer : Option FailAction × LiveRule) (rest : List LiveRule)
    (looked : Option FailAction × List LiveRule)
    → IsBudgeted answer.1
    → All IsBudgeted rest
    → All IsBudgeted looked.1
    → All IsBudgeted (first_answer answer rest looked).1
unfolding first_answer
first_answer-IsBudgeted (some action, rule) rest looked b r l = (b, r)
first_answer-IsBudgeted (none, rule) rest looked b r l = (b, l)

decide-IsBudgeted :
    (method : FailMethod) (key : Str) (rules : List LiveRule)
    → All IsBudgeted rules
    → All IsBudgeted (decide method key rules).1
unfolding decide
decide-IsBudgeted method key [] b = b
decide-IsBudgeted method key (rule ∷ rest) (b, bs) =
    first_answer-IsBudgeted (decide_rule method key rule) rest (decide method key rest)
      (decide_rule-IsBudgeted method key rule b) bs (decide-IsBudgeted method key rest bs)

count_success-IsBudgeted :
    (action : FailAction) (method : FailMethod) (key : Str) (armed : Bool) (rule : LiveRule)
    → IsBudgeted rule
    → is_armed method key rule ≡ true
    → IsBudgeted (count_success action armed rule)
unfolding count_success is_armed
count_success-IsBudgeted drop_request method key armed rule b h = b
count_success-IsBudgeted fail_io method key armed rule b h = b
count_success-IsBudgeted drop_response method key armed rule b h = ground arith

note_success-IsBudgeted :
    (method : FailMethod) (key : Str) (armed : Bool) (rules : List LiveRule)
    → All IsBudgeted rules
    → All IsBudgeted (note_success method key armed rules)
unfolding note_success
note_success-IsBudgeted method key armed [] b = b
note_success-IsBudgeted method key armed (rule ∷ rest) (b, bs) = (
  ground (arith, count_success-IsBudgeted rule.spec.action method key armed rule b),
  note_success-IsBudgeted method key armed rest bs,
)

armed-IsBudgeted :
    (rule : LiveRule) (rules : List LiveRule)
    → IsBudgeted rule
    → All IsBudgeted rules
    → All IsBudgeted (rules ++ rule ∷ [])
armed-IsBudgeted rule [] b bs = (b, tt)
armed-IsBudgeted rule (r ∷ rest) b (c, cs) = (c, armed-IsBudgeted rule rest b cs)

module _ {S : Type 0} where
  noted-IsBudgeted :
      {A : Type 0} (method : FailMethod) (key : Str) (armed : Bool) (f : FailpointBackend S)
      (answer : Result A × S)
      → All IsBudgeted f.rules
      → All IsBudgeted (noted method key armed f answer).1.rules
  unfolding noted inject
  noted-IsBudgeted method key armed f (err e, s) b = b
  noted-IsBudgeted method key true f (ok a, s) b = note_success-IsBudgeted method key true f.rules b
  noted-IsBudgeted method key false f (ok a, s) b =
      note_success-IsBudgeted method key false f.rules b

  write_as-IsBudgeted :
      {A : Type 0} (action : Option FailAction) (method : FailMethod) (key : Str)
      (call : S → Result A × S) (f : FailpointBackend S)
      → All IsBudgeted f.rules
      → All IsBudgeted (write_as action method key call f).1.rules
  unfolding write_as inject
  write_as-IsBudgeted (some drop_request) method key call f b = b
  write_as-IsBudgeted (some fail_io) method key call f b = b
  write_as-IsBudgeted (some drop_response) method key call f b =
      noted-IsBudgeted method key true f (call f.inner) b
  write_as-IsBudgeted none method key call f b =
      noted-IsBudgeted method key false f (call f.inner) b

  read_as-IsBudgeted :
      {A : Type 0} (action : Option FailAction) (call : S → Result A × S) (f : FailpointBackend S)
      → All IsBudgeted f.rules
      → All IsBudgeted (read_as action call f).1.rules
  unfolding read_as inject
  read_as-IsBudgeted (some drop_request) call f b = b
  read_as-IsBudgeted (some drop_response) call f b = b
  read_as-IsBudgeted (some fail_io) call f b = b
  read_as-IsBudgeted none call f b = b

  -- The backends that arming rules and calling lead to, from a new one.
  pub data Reached : FailpointBackend S → Type 0 where
    at_first : (inner : S) → Reached (new_failpoint inner)
    by_arm : {f : FailpointBackend S} (rule : FailRule) → Reached f → Reached (arm rule f)
    by_write :
        {f : FailpointBackend S} (method : FailMethod) (key : Str) (call : S → Result Version × S)
        → Reached f
        → Reached (failpoint_write method key call f).1
    by_read :
        {f : FailpointBackend S} (method : FailMethod) (key : Str)
        (call : S → Result (List ℕ × Version) × S)
        → Reached f
        → Reached (failpoint_read method key call f).1
    by_other :
        {f : FailpointBackend S} (call : S → Result Bool × S)
        → Reached f
        → Reached (untouched call f).1

  -- Whatever rules are armed and whatever calls are made, no rule has counted more firings than its
  -- budget.
  pub Reached-IsBudgeted : {f : FailpointBackend S} → Reached f → All IsBudgeted f.rules
  unfolding new_failpoint arm failpoint_write failpoint_read untouched
  Reached-IsBudgeted (at_first inner) = tt
  Reached-IsBudgeted (by_arm rule r) =
      armed-IsBudgeted (record { spec = rule; seen_successes = 0; fired = 0 }) _ (omega arith)
        (Reached-IsBudgeted r)
  Reached-IsBudgeted (by_write {f = f} method key call r) =
      write_as-IsBudgeted (decide method key f.rules).0 method key call
        (record f { rules = (decide method key f.rules).1 })
        (decide-IsBudgeted method key f.rules (Reached-IsBudgeted r))
  Reached-IsBudgeted (by_read {f = f} method key call r) =
      read_as-IsBudgeted (decide method key f.rules).0 call
        (record f { rules = (decide method key f.rules).1 })
        (decide-IsBudgeted method key f.rules (Reached-IsBudgeted r))
  Reached-IsBudgeted (by_other call r) = Reached-IsBudgeted r
