-- ===== src/Object/Step/Inversion.antt =====
-- A call that succeeded: what its parts returned.
use comb.Prelude.{
  ◌≡◌, refl, arith, Bool, true, false, Option, none, some, if◌then◌else◌, ◌⊎◌, inl, inr,
}
use comb.Core.Error.{CoreError, Result, ok, err, ok_or, refuse_if}
use comb.Object.Step.{AnyError, Step, Outcome, done, failed, continue, lift, pure, map_err}

pub continue-eq_done :
    {S T U : Type 0} (o : Outcome T × S) (next : T → Step S U) {u : U} {after : S}
    → continue o next ≡ (done u, after)
    → (t : T) × (s : S) × (o ≡ (done t, s)) × (next t s ≡ (done u, after))
unfolding continue
continue-eq_done (done t, s) next h = (t, s, refl, h)
continue-eq_done (failed e, s) next h = absurd (ground arith)

pub lift-eq_done :
    {S T : Type 0} (r : Result T) (s : S) {t : T} {after : S}
    → lift r s ≡ (done t, after)
    → (r ≡ ok t) × (s ≡ after)
lift-eq_done (ok t) s h = ground arith
lift-eq_done (err e) s h = absurd (ground arith)

pub pure-inj : {S T : Type 0} {t u : T} {s r : S} → pure {S = S} t s ≡ (done u, r) → t ≡ u
pure-inj h = ground arith

pub ok_or-eq_ok :
    {T : Type 0} (o : Option T) (e : CoreError) (t : T) → ok_or o e ≡ ok t → o ≡ some t
ok_or-eq_ok (some u) e t h = ground (arith, h)
ok_or-eq_ok none e t h = absurd (ground (arith, h))

pub refuse_if-eq_ok : (b : Bool) (e : CoreError) {u : Unit {0}} → refuse_if b e ≡ ok u → b ≡ false
refuse_if-eq_ok true e h = absurd (ground arith)
refuse_if-eq_ok false e h = refl

mapped-eq_done :
    {S T : Type 0} (f : AnyError → AnyError) (answer : Outcome T × S) (after : S) (t : T)
    → ◌≡◌ {A = Outcome T × S}
        (elim answer.0 as (λ x. Outcome T) [ done u ↦ done u | failed e ↦ failed (f e) ], answer.1)
        (done t, after)
    → answer ≡ (done t, after)
mapped-eq_done f (done t', s) after t h = h
mapped-eq_done f (failed e, s) after t h = absurd (ground arith)

pub map_err-eq_done :
    {S T : Type 0} (f : AnyError → AnyError) (call : Step S T) (s after : S) (t : T)
    → map_err f call s ≡ (done t, after)
    → call s ≡ (done t, after)
unfolding map_err
map_err-eq_done f call s after t h = mapped-eq_done f (call s) after t h

-- The arm that a test or a match took.
pub if-cases :
    {S T : Type 0} (b : Bool) (yes no : S → T) {s : S} {t : T}
    → (if b then yes else no) s ≡ t
    → ((b ≡ true) × (yes s ≡ t)) ⊎ ((b ≡ false) × (no s ≡ t))
if-cases true _ _ h = inl (refl, h)
if-cases false _ _ h = inr (refl, h)

pub match_option-cases :
    {A S T : Type 0} (o : Option A) (missing : S → T) (present : A → S → T) {s : S} {t : T}
    → (elim o as (λ x. S → T) [ none ↦ missing | some a ↦ present a ]) s ≡ t
    → ((o ≡ none) × (missing s ≡ t)) ⊎ ((a : A) × (o ≡ some a) × (present a s ≡ t))
match_option-cases none _ _ h = inl (refl, h)
match_option-cases (some a) _ _ h = inr (a, refl, h)

pub match_result-cases :
    {A S T : Type 0} (r : Result A) (good : A → S → T) (bad : CoreError → S → T) {s : S} {t : T}
    → (elim r as (λ x. S → T) [ ok a ↦ good a | err e ↦ bad e ]) s ≡ t
    → ((a : A) × (r ≡ ok a) × (good a s ≡ t)) ⊎ ((e : CoreError) × (r ≡ err e) × (bad e s ≡ t))
match_result-cases (ok a) _ _ h = inl (a, refl, h)
match_result-cases (err e) _ _ h = inr (e, refl, h)
