-- ===== src/Tests/Backends.antt =====
-- Backends at concrete inputs.
use comb.Prelude.{ℕ, ◌+◌, ◌%◌, ◌≡◌, refl, ◌⊎◌}
use comb.Prelude.{true, none, some, List, [], ◌∷◌, arith}
use comb.Prelude.{ltb, ◌==◌, if◌then◌else◌, length, All}
use comb.Prelude.Str.{str, eqs, starts_with}
use comb.Prelude.Decimal.{to_string}
use comb.Core.Error.{ok, err, precondition_failed, object_too_large, io}
use comb.Object.Backend.{Reader, read_sync_limited}
use comb.Object.Backend.BoundedRead.{read_sync_limited_lem}
use comb.Object.Memory.{
  Entry, Table, find, version_of, put_create, put_update, get, get_limited, exists, list_keys,
}
use comb.Object.Memory.Tokens.{
  Call, create, update, read, erase, after_all, Spares, token_wins_once, token_identifies_body,
}
use comb.Object.Fault.{Rng, FaultBackend, faulty_write}
use comb.Object.Fault.Outcomes.{IsLostBefore, IsAnswered, IsLostAfter, faulty_write_outcome}
use comb.Core.Error.{Result}
use comb.Object.Backend.{Version}
use comb.Object.Failpoint.{
  FailRule, FailpointBackend, on_put_update, on_put_create, drop_response, has_part, arm,
  new_failpoint, failpoint_write, injected_response,
}
use comb.Object.Failpoint.Budget.{IsBudgeted, at_first, by_arm, by_write, Reached-IsBudgeted}
use comb.Object.Failpoint.Once.{
  Write, failpoint_writes, plain_writes, after_loss, lost_update, lost_response_once,
}
use comb.Tests.Instances.{chrono}

abbrev live : Entry chrono
live = record { body = 1 ∷ []; version = 3; modified = 0 }

abbrev table : Table chrono
table = (str "a", record { body = []; version = 1; modified = 0 }) ∷ (str "k", live) ∷ []

live_found : find (str "k") table ≡ some live
unfolding find eqs
live_found = refl

update_wins : (put_update (str "k") (some (version_of 3)) (2 ∷ []) 5 table).0 ≡ ok (version_of 4)
unfolding put_update find eqs to_string
update_wins = refl

abbrev busy : List (Call chrono)
busy = create (str "k") [] 6 ∷ erase (str "a") ∷ update (str "k") (some (version_of 4)) [] 7 ∷ []

busy-Spares : All (Spares (str "k")) busy
unfolding eqs
busy-Spares = (tt, (refl, (tt, tt)))

token_wins_once_example :
    put_update
      (str "k")
      (some (version_of 3))
      (9 ∷ [])
      8
      (after_all busy (put_update (str "k") (some (version_of 3)) (2 ∷ []) 5 table).1)
    ≡ (
      err (precondition_failed "{key}: expected version {}, live {v}"),
      after_all busy (put_update (str "k") (some (version_of 3)) (2 ∷ []) 5 table).1,
    )
token_wins_once_example =
    token_wins_once busy (str "k") (version_of 3) live table (2 ∷ []) (9 ∷ []) 5 8 (version_of 4)
      live_found update_wins busy-Spares (omega arith)

abbrev calm : List (Call chrono)
calm = read (str "k") ∷ erase (str "a") ∷ []

calm-Spares : All (Spares (str "k")) calm
unfolding eqs
calm-Spares = (tt, (refl, tt))

calm_read : (get (str "k") (after_all calm table)).0 ≡ ok (1 ∷ [], version_of live.version)
unfolding get after_all find comb.Object.Memory.Tokens.after comb.Object.Memory.delete
    comb.Object.Memory.remove eqs
calm_read = refl

token_identifies_body_example : 1 ∷ [] ≡ live.body
token_identifies_body_example =
    token_identifies_body calm (str "k") live table (1 ∷ []) calm-Spares live_found (omega arith)
      calm_read

abbrev stream : Reader
stream = record { content = 1 ∷ 2 ∷ 3 ∷ []; fails = true }

read_sync_limited_lem_example : read_sync_limited stream (str "k") 3 ≡ (
    if ltb 3 (length stream.content)
    then err (object_too_large (str "k") 3 none)
    else if stream.fails
    then err (io "read")
    else ok stream.content)
read_sync_limited_lem_example = read_sync_limited_lem stream (str "k") 3 (omega arith)

-- A generator whose numbers alternate: it hits when its state is even.
abbrev dice : Rng ℕ ℕ
dice = record { positive = λ p. ltb 0 p; random_bool = λ p r. (r % 2 == 0, r + 1) }

abbrev faulty : FaultBackend ℕ ℕ (Table chrono)
faulty = record {
  inner = table;
  rng = 1;
  fail_before = 1;
  fail_after = 1;
  injected_before = 0;
  injected_after = 0;
}

faulty_write_outcome_example :
    IsLostBefore
      (put_create (str "n") [] 0)
      faulty
      (faulty_write dice (put_create (str "n") [] 0) faulty)
    ⊎ IsAnswered
        (put_create (str "n") [] 0)
        faulty
        (faulty_write dice (put_create (str "n") [] 0) faulty)
    ⊎ IsLostAfter
        (put_create (str "n") [] 0)
        faulty
        (faulty_write dice (put_create (str "n") [] 0) faulty)
faulty_write_outcome_example = faulty_write_outcome dice (put_create (str "n") [] 0) faulty

abbrev quiet : FaultBackend ℕ ℕ (Table chrono)
quiet = record faulty { fail_before = 0; fail_after = 0 }

-- A rule that loses the next two responses of updates of a key, and an update behind it.
abbrev losing : FailRule
losing = record {
  method = on_put_update;
  key_contains = str "k";
  successes_before_fire = 0;
  fires = 2;
  action = drop_response;
}

Reached-IsBudgeted_example :
    All IsBudgeted
      (failpoint_write on_put_update
        (str "k")
        (put_update (str "k") (some (version_of 3)) [] 5)
        (arm losing (new_failpoint table))).1.rules
Reached-IsBudgeted_example = Reached-IsBudgeted (
    by_write on_put_update (str "k") (put_update (str "k") (some (version_of 3)) [] 5)
      (by_arm losing (at_first table)))

k_part : has_part (str "k") (str "k") ≡ true
unfolding has_part starts_with
k_part = refl

abbrev updated : Table chrono
updated = (put_update (str "k") (some (version_of 3)) (2 ∷ []) 5 table).1

update_answer :
    put_update (str "k") (some (version_of 3)) (2 ∷ []) 5 table ≡ (ok (version_of 4), updated)
unfolding put_update find eqs to_string
update_answer = refl

abbrev lost : Result Version × FailpointBackend (Table chrono)
lost = lost_update (str "k") (str "k") (put_update (str "k") (some (version_of 3)) (2 ∷ []) 5) table

abbrev later : List (Write (Table chrono) Version)
later =
    record { method = on_put_create; key = str "n"; call = put_create (str "n") [] 6 }
    ∷ record {
      method = on_put_update;
      key = str "k";
      call = put_update (str "k") (some (version_of 4)) [] 7;
    }
    ∷ []

lost_response_once_example :
    (lost.0 ≡ err injected_response)
    × (lost.1.inner ≡ updated)
    × ((failpoint_writes later lost.1).0 ≡ (plain_writes later updated).0)
    × ((failpoint_writes later lost.1).1 ≡ after_loss (str "k") (plain_writes later updated).1)
lost_response_once_example =
    lost_response_once table updated (str "k") (str "k")
      (put_update (str "k") (some (version_of 3)) (2 ∷ []) 5) (version_of 4) later k_part
      update_answer
