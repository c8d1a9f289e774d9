-- ===== src/Object/Failpoint.antt =====
-- crates/comb-object/src/failpoint.rs: a backend that fails at named calls, and one that counts calls.
pub mod Budget
pub mod Once
use comb.Prelude.{
  ℕ, ◌+◌, ◌%◌, ◌^◌, Bool, true, false, not, ◌&&◌, ◌||◌, Option, none, some, List, [], ◌∷◌, ◌++◌,
  ltb, leb, if◌then◌else◌,
}
use comb.Prelude.Str.{Str, starts_with}
use comb.Core.Error.{CoreError, Result, ok, err, backend_unavailable, io}
use comb.Core.Crates.{Chrono}
use comb.Object.Backend.{ObjectBackend}

pub data FailMethod : Type 0 where
  on_put_update on_put_create on_get on_get_limited : FailMethod

pub data FailAction : Type 0 where
  drop_request drop_response fail_io : FailAction

pub record FailRule : Type 0 where
  pub method : FailMethod
  pub key_contains : Str
  pub successes_before_fire : ℕ
  pub fires : ℕ
  pub action : FailAction

pub record LiveRule : Type 0 where
  pub spec : FailRule
  pub seen_successes : ℕ
  pub fired : ℕ

-- `FailpointBackend`, with the state of the backend that it wraps.
pub record FailpointBackend (S : Type 0) : Type 0 where
  pub inner : S
  pub rules : List LiveRule
  pub injected : ℕ

-- `==` on methods.
unfoldable pub same_method : FailMethod → FailMethod → Bool
same_method on_put_update on_put_update = true
same_method on_put_create on_put_create = true
same_method on_get on_get = true
same_method on_get_limited on_get_limited = true
same_method _ _ = false

-- `str::contains`.
unfoldable pub has_part : Str → Str → Bool
has_part [] needle = starts_with needle []
has_part (c ∷ key) needle = starts_with needle (c ∷ key) || has_part key needle

-- The rule is for the call, and has firings left.
unfoldable pub is_armed : FailMethod → Str → LiveRule → Bool
unfolding same_method has_part
is_armed method key rule =
    same_method rule.spec.method method
    && has_part key rule.spec.key_contains
    && not (leb rule.spec.fires rule.fired)

-- The action of an armed rule, in `decide`.
unfoldable pub fire_rule : FailAction → LiveRule → Option FailAction × LiveRule
fire_rule drop_request rule = (some drop_request, record rule { fired = rule.fired + 1 })
fire_rule fail_io rule = (some fail_io, record rule { fired = rule.fired + 1 })
fire_rule drop_response rule =
    if ltb rule.seen_successes rule.spec.successes_before_fire
    then (none, rule)
    else (some drop_response, rule)

unfoldable pub decide_rule : FailMethod → Str → LiveRule → Option FailAction × LiveRule
unfolding is_armed fire_rule
decide_rule method key rule =
    if is_armed method key rule then fire_rule rule.spec.action rule else (none, rule)

-- The first answer of a rule stands, and the rules behind it are not looked at.
unfoldable pub first_answer :
    Option FailAction × LiveRule
    → List LiveRule
    → Option FailAction × List LiveRule
    → Option FailAction × List LiveRule
first_answer (some action, rule) rest looked = (some action, rule ∷ rest)
first_answer (none, rule) rest looked = (looked.0, rule ∷ looked.1)

-- The loop of `decide`.
unfoldable pub decide : FailMethod → Str → List LiveRule → Option FailAction × List LiveRule
unfolding decide_rule first_answer
decide method key [] = (none, [])
decide method key (rule ∷ rest) =
    first_answer (decide_rule method key rule) rest (decide method key rest)

-- What a success counts for in an armed rule that drops responses.
unfoldable pub count_success : FailAction → Bool → LiveRule → LiveRule
count_success drop_request armed rule = rule
count_success fail_io armed rule = rule
count_success drop_response armed rule =
    if armed && leb rule.spec.successes_before_fire rule.seen_successes
    then record rule { fired = rule.fired + 1 }
    else record rule { seen_successes = (rule.seen_successes + 1) % 2 ^ 64 }

-- The loop of `note_success`.
unfoldable pub note_success : FailMethod → Str → Bool → List LiveRule → List LiveRule
unfolding is_armed count_success
note_success method key armed [] = []
note_success method key armed (rule ∷ rest) =
    (if is_armed method key rule then count_success rule.spec.action armed rule else rule)
    ∷ note_success method key armed rest

-- What `injected_err` and `injected_io` return.
abbrev pub injected_request : CoreError
injected_request = backend_unavailable "injected: {what} request lost before backend"

abbrev pub injected_read : CoreError
injected_read = backend_unavailable "injected: {what} request lost"

abbrev pub injected_response : CoreError
injected_response = backend_unavailable "injected: {what} committed but response lost"

abbrev pub injected_io : CoreError
injected_io = io "injected io: {what}"

module _ {S : Type 0} where
  -- `FailpointBackend::new`.
  unfoldable pub new_failpoint : S → FailpointBackend S
  new_failpoint inner = record { inner = inner; rules = []; injected = 0 }

  -- `arm`.
  unfoldable pub arm : FailRule → FailpointBackend S → FailpointBackend S
  arm rule f = record f {
    rules = f.rules ++ record { spec = rule; seen_successes = 0; fired = 0 } ∷ [];
  }

  -- The constructors with one rule that fires once.
  unfoldable pub fail_next : FailMethod → FailAction → S → Str → FailpointBackend S
  unfolding arm new_failpoint
  fail_next method action inner needle =
      arm
        (record {
          method = method;
          key_contains = needle;
          successes_before_fire = 0;
          fires = 1;
          action = action;
        })
        (new_failpoint inner)

  -- `injected_err` and `injected_io`.
  unfoldable pub inject :
      {A : Type 0} → CoreError → FailpointBackend S → Result A × FailpointBackend S
  inject e f = (err e, record f { injected = (f.injected + 1) % 2 ^ 64 })

  module _ {A : Type 0} where
    -- A call of the backend inside, whose success is noted. An error goes out by `?`.
    unfoldable pub noted :
        FailMethod → Str → Bool → FailpointBackend S → Result A × S → Result A × FailpointBackend S
    unfolding note_success inject
    noted method key armed f (err e, s) = (err e, record f { inner = s })
    noted method key true f (ok a, s) =
        inject injected_response
          (record f { inner = s; rules = note_success method key true f.rules })
    noted method key false f (ok a, s) =
        (ok a, record f { inner = s; rules = note_success method key false f.rules })

    -- The arms of `put_create` and `put_update`.
    unfoldable pub write_as :
        Option FailAction
        → FailMethod
        → Str
        → (S → Result A × S)
        → FailpointBackend S
        → Result A × FailpointBackend S
    unfolding noted inject
    write_as (some drop_request) method key call f = inject injected_request f
    write_as (some fail_io) method key call f = inject injected_io f
    write_as (some drop_response) method key call f = noted method key true f (call f.inner)
    write_as none method key call f = noted method key false f (call f.inner)

    -- `put_create` and `put_update`.
    unfoldable pub failpoint_write :
        FailMethod → Str → (S → Result A × S) → FailpointBackend S → Result A × FailpointBackend S
    unfolding decide write_as
    failpoint_write method key call f =
        let (action, rules) = decide method key f.rules in
        write_as action method key call (record f { rules = rules })

    -- The arms of `get` and `get_limited`.
    unfoldable pub read_as :
        Option FailAction → (S → Result A × S) → FailpointBackend S → Result A × FailpointBackend S
    unfolding inject
    read_as (some drop_request) call f = inject injected_read f
    read_as (some drop_response) call f = inject injected_read f
    read_as (some fail_io) call f = inject injected_io f
    read_as none call f = let (r, s) = call f.inner in (r, record f { inner = s })

    -- `get` and `get_limited`.
    unfoldable pub failpoint_read :
        FailMethod → Str → (S → Result A × S) → FailpointBackend S → Result A × FailpointBackend S
    unfolding decide read_as
    failpoint_read method key call f =
        let (action, rules) = decide method key f.rules in
        read_as action call (record f { rules = rules })

    -- `exists`, `delete` and `list`, which no rule is for.
    unfoldable pub untouched :
        (S → Result A × S) → FailpointBackend S → Result A × FailpointBackend S
    untouched call f = let (r, s) = call f.inner in (r, record f { inner = s })

-- `ObjectBackend for FailpointBackend`.
unfoldable pub failpoint_backend :
    (c : Chrono) {S : Type 0} → ObjectBackend c S → ObjectBackend c (FailpointBackend S)
unfolding failpoint_write failpoint_read untouched
failpoint_backend c b = record {
  put_create = λ key body now. failpoint_write on_put_create key (b.put_create key body now);
  put_update = λ key expected body now.
      failpoint_write on_put_update key (b.put_update key expected body now);
  get = λ key. failpoint_read on_get key (b.get key);
  get_limited = λ key limit. failpoint_read on_get_limited key (b.get_limited key limit);
  exists = λ key. untouched (b.exists key);
  delete = λ key. untouched (b.delete key);
  list_keys = λ prefix. untouched (b.list_keys prefix);
}

-- `CountingBackend`, with the state of the backend that it wraps.
pub record CountingBackend (S : Type 0) : Type 0 where
  pub inner : S
  pub gets : ℕ
  pub put_updates : ℕ
  pub put_creates : ℕ

module _ {S : Type 0} where
  -- `CountingBackend::new`.
  unfoldable pub new_counting : S → CountingBackend S
  new_counting inner = record { inner = inner; gets = 0; put_updates = 0; put_creates = 0 }

  -- The call of the backend inside.
  unfoldable pub passed :
      {A : Type 0} → (S → Result A × S) → CountingBackend S → Result A × CountingBackend S
  passed call f = let (r, s) = call f.inner in (r, record f { inner = s })

-- `ObjectBackend for CountingBackend`.
unfoldable pub counting_backend :
    (c : Chrono) {S : Type 0} → ObjectBackend c S → ObjectBackend c (CountingBackend S)
unfolding passed
counting_backend c b = record {
  put_create = λ key body now f.
      passed (b.put_create key body now) (record f { put_creates = (f.put_creates + 1) % 2 ^ 64 });
  put_update = λ key expected body now f.
      passed (b.put_update key expected body now)
        (record f { put_updates = (f.put_updates + 1) % 2 ^ 64 });
  get = λ key f. passed (b.get key) (record f { gets = (f.gets + 1) % 2 ^ 64 });
  get_limited =
      λ key limit f. passed (b.get_limited key limit) (record f { gets = (f.gets + 1) % 2 ^ 64 });
  exists = λ key. passed (b.exists key);
  delete = λ key. passed (b.delete key);
  list_keys = λ prefix. passed (b.list_keys prefix);
}
