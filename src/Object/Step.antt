-- ===== src/Object/Step.antt =====
-- Calls on a store: the state is passed along, and an error may be of another crate than comb-core.
pub mod Inversion
use comb.Core.Error.{CoreError, Result, ok, err}
use Prim.Native.String.{String}

-- `anyhow::Error`, which holds a `CoreError` or something else.
pub data AnyError : Type 0 where
  core : CoreError → AnyError
  other : String → AnyError

pub data Outcome (T : Type 0) : Type 0 where
  done : T → Outcome T
  failed : AnyError → Outcome T

abbrev pub Step : Type 0 → Type 0 → Type 0
Step S T = S → Outcome T × S

module _ {S T U : Type 0} where
  -- `?` on an outcome.
  unfoldable pub continue : Outcome T × S → (T → Step S U) → Outcome U × S
  continue (done t, s) next = next t s
  continue (failed e, s) next = (failed e, s)

infixl 5 ◌>>=◌
abbrev pub ◌>>=◌ : {S T U : Type 0} → Step S T → (T → Step S U) → Step S U
(call >>= next) s = continue (call s) next

infixl 5 ◌>>◌
abbrev pub ◌>>◌ : {S T U : Type 0} → Step S T → Step S U → Step S U
call >> then_call = call >>= λ _. then_call

abbrev pub pure : {S T : Type 0} → T → Step S T
pure t s = (done t, s)

-- `?` on a result of comb-core, which turns its error into one of anyhow.
abbrev pub lift : {S T : Type 0} → Result T → Step S T
lift (ok t) s = (done t, s)
lift (err e) s = (failed (core e), s)

abbrev pub fail : {S T : Type 0} → AnyError → Step S T
fail e s = (failed e, s)

-- `match` on what a call returned, its error as a value.
abbrev pub ask : {S T : Type 0} → (S → Result T × S) → Step S (Result T)
ask call s = let (r, after) = call s in (done r, after)

-- `map_err`.
unfoldable pub map_err : {S T : Type 0} → (AnyError → AnyError) → Step S T → Step S T
map_err f call s =
    let (outcome, after) = call s in
    (elim outcome [ done t ↦ done t | failed e ↦ failed (f e) ], after)
