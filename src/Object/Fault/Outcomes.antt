-- ===== src/Object/Fault/Outcomes.antt =====
-- What a caller of the fault-injecting backend can conclude from a result.
use comb.Prelude.{◌+◌, ◌%◌, ◌^◌, ◌≡◌, refl, sym, ap, ◌∙◌, ◌⊎◌, inl, inr}
use comb.Prelude.{true, false, arith}
use comb.Prelude.{Bool-cases}
use comb.Core.Error.{Result, ok, err, is_ok}
use comb.Object.Fault.{
  Rng, FaultBackend, roll, lost_request, lost_response, faulty_read, faulty_write, respond,
  count_before,
}

-- How one call on the wrapper, with its result and state, relates to the call on the backend inside.
module _ {P R S A : Type 0} (call : S → Result A × S) (f : FaultBackend P R S)
    (out : Result A × FaultBackend P R S) where
  -- The request was lost: nothing happened.
  pub record IsLostBefore : Type 0 where
    pub result : out.0 ≡ err lost_request
    pub state : out.1.inner ≡ f.inner
    pub before : out.1.injected_before ≡ (f.injected_before + 1) % 2 ^ 64
    pub later : out.1.injected_after ≡ f.injected_after

  -- The call took place, and its result came back.
  pub record IsAnswered : Type 0 where
    pub result : out.0 ≡ (call f.inner).0
    pub state : out.1.inner ≡ (call f.inner).1
    pub before : out.1.injected_before ≡ f.injected_before
    pub later : out.1.injected_after ≡ f.injected_after

  -- The call succeeded, and its response was lost.
  pub record IsLostAfter : Type 0 where
    pub succeeded : is_ok (call f.inner).0 ≡ true
    pub result : out.0 ≡ err lost_response
    pub state : out.1.inner ≡ (call f.inner).1
    pub before : out.1.injected_before ≡ f.injected_before
    pub later : out.1.injected_after ≡ (f.injected_after + 1) % 2 ^ 64

module _ {P R S : Type 0} (g : Rng P R) (p : P) (f : FaultBackend P R S) where
  roll_inner : (roll g p f).1.inner ≡ f.inner
  unfolding roll
  roll_inner = ground arith

  roll_before : (roll g p f).1.injected_before ≡ f.injected_before
  unfolding roll
  roll_before = ground arith

  roll_after : (roll g p f).1.injected_after ≡ f.injected_after
  unfolding roll
  roll_after = ground arith

  roll_never : g.positive p ≡ false → roll g p f ≡ (false, f)
  unfolding roll
  roll_never h = rw h

module _ {P R S A : Type 0} (g : Rng P R) where
  -- The end of a mutation, which found the result `r`.
  respond_outcome :
      (r : Result A) (f : FaultBackend P R S)
      → ((respond g r f).1.inner ≡ f.inner)
        × ((respond g r f).1.injected_before ≡ f.injected_before)
        × (((respond g r f).0 ≡ r) × ((respond g r f).1.injected_after ≡ f.injected_after)
            ⊎ (is_ok r ≡ true)
              × ((respond g r f).0 ≡ err lost_response)
              × ((respond g r f).1.injected_after ≡ (f.injected_after + 1) % 2 ^ 64))
  unfolding respond
  respond_outcome (err e) f = (refl, refl, inl (refl, refl))
  respond_outcome (ok a) f = elim (Bool-cases (roll g f.fail_after f).0) [
    | inl lost ↦ (
      ground (arith, roll_inner g f.fail_after f),
      ground (arith, roll_before g f.fail_after f),
      inr (refl, ground arith, ground (arith, roll_after g f.fail_after f)),
    )
    | inr kept ↦ (
      ground (arith, roll_inner g f.fail_after f),
      ground (arith, roll_before g f.fail_after f),
      inl (ground arith, ground (arith, roll_after g f.fail_after f)),
    )
  ]

module _ {P R S A : Type 0} (g : Rng P R) (call : S → Result A × S) (f : FaultBackend P R S) where
  abbrev rolled : FaultBackend P R S
  rolled = (roll g f.fail_before f).1

  faulty_write_lost :
      (roll g f.fail_before f).0 ≡ true
      → faulty_write g call f ≡ (err lost_request, count_before rolled)
  unfolding faulty_write
  faulty_write_lost h = rw h

  faulty_write_kept :
      (roll g f.fail_before f).0 ≡ false
      → faulty_write g call f
        ≡ respond g (call rolled.inner).0 (record rolled { inner = (call rolled.inner).1 })
  unfolding faulty_write
  faulty_write_kept h = rw h

  faulty_read_lost :
      (roll g f.fail_before f).0 ≡ true
      → faulty_read g call f ≡ (err lost_request, count_before rolled)
  unfolding faulty_read
  faulty_read_lost h = rw h

  faulty_read_kept :
      (roll g f.fail_before f).0 ≡ false
      → faulty_read g call f
        ≡ ((call rolled.inner).0, record rolled { inner = (call rolled.inner).1 })
  unfolding faulty_read
  faulty_read_kept h = rw h

  lost_request_lem : IsLostBefore call f (err lost_request, count_before rolled)
  lost_request_lem = record {
    result = refl;
    state = roll_inner g f.fail_before f;
    before = ap (λ n. (n + 1) % 2 ^ 64) (roll_before g f.fail_before f);
    later = roll_after g f.fail_before f;
  }

  -- A read is lost, which changes nothing, or is answered by the backend inside.
  pub faulty_read_outcome :
      IsLostBefore call f (faulty_read g call f) ⊎ IsAnswered call f (faulty_read g call f)
  faulty_read_outcome = elim (Bool-cases (roll g f.fail_before f).0) [
    | inl lost ↦ inl (rw (faulty_read_lost lost) lost_request_lem)
    | inr kept ↦ inr (
        rw (faulty_read_kept kept) (record {
          result = rw (roll_inner g f.fail_before f);
          state = rw (roll_inner g f.fail_before f);
          before = roll_before g f.fail_before f;
          later = roll_after g f.fail_before f;
        }))
  ]

  -- A mutation is lost before it changes anything, or is answered by the backend inside, or takes
  -- place and loses the response of its success. So an injected error leaves open whether it took
  -- place, and any other answer is that of the backend inside.
  pub faulty_write_outcome :
      IsLostBefore call f (faulty_write g call f)
      ⊎ IsAnswered call f (faulty_write g call f)
      ⊎ IsLostAfter call f (faulty_write g call f)
  faulty_write_outcome = elim (Bool-cases (roll g f.fail_before f).0) [
    | inl lost ↦ inl (rw (faulty_write_lost lost) lost_request_lem)
    | inr kept ↦
        let inside = roll_inner g f.fail_before f in
        let b0 = roll_before g f.fail_before f in
        let a0 = roll_after g f.fail_before f in
        let (state, before, rest) =
          respond_outcome g (call rolled.inner).0
            (record rolled { inner = (call rolled.inner).1 }) in
        rw (faulty_write_kept kept) (elim rest [
          | inl (result, later) ↦ inr (
              inl (record {
                result = result ∙ ap (λ s. (call s).0) inside;
                state = state ∙ ap (λ s. (call s).1) inside;
                before = before ∙ b0;
                later = later ∙ a0;
              }))
          | inr (succeeded, result, later) ↦ inr (
              inr (record {
                succeeded = sym (ap (λ s. is_ok (call s).0) inside) ∙ succeeded;
                result = result;
                state = state ∙ ap (λ s. (call s).1) inside;
                before = before ∙ b0;
                later = later ∙ ap (λ n. (n + 1) % 2 ^ 64) a0;
              }))
        ])
  ]

module _ {P R S A : Type 0} (g : Rng P R) where
  respond_transparent :
      (r : Result A) (f : FaultBackend P R S)
      → g.positive f.fail_after ≡ false
      → respond g r f ≡ (r, f)
  unfolding respond
  respond_transparent (err e) f h = refl
  respond_transparent (ok a) f h = rw (roll_never g f.fail_after f h)

  -- With both probabilities at zero a mutation is that of the backend inside.
  pub faulty_write_transparent :
      (call : S → Result A × S) (f : FaultBackend P R S)
      → g.positive f.fail_before ≡ false
      → g.positive f.fail_after ≡ false
      → faulty_write g call f ≡ ((call f.inner).0, record f { inner = (call f.inner).1 })
  unfolding faulty_write
  faulty_write_transparent call f h k =
      rw (roll_never g f.fail_before f h)
        (respond_transparent (call f.inner).0 (record f { inner = (call f.inner).1 }) k)
