-- ===== src/Object/Fault.antt =====
-- crates/comb-object/src/fault.rs: a backend that loses requests and responses.
pub mod Outcomes
use comb.Prelude.{ℕ, ◌+◌, ◌%◌, ◌^◌}
use comb.Prelude.{Bool, false}
use comb.Prelude.{if◌then◌else◌}
use comb.Prelude.Str.{Str}
use comb.Core.Error.{CoreError, Result, ok, err, backend_unavailable}
use comb.Core.Crates.{Chrono}
use comb.Object.Backend.{Version, ObjectInfo, ObjectBackend}

-- The `rand` crate's seeded generator over probabilities `P`: `p > 0.0` and `random_bool(p)`.
pub record Rng (P R : Type 0) : Type 0 where
  pub positive : P → Bool
  pub random_bool : P → R → Bool × R

-- `FaultBackend`, with the state of the backend that it wraps. The two counters are `u64`s.
pub record FaultBackend (P R S : Type 0) : Type 0 where
  pub inner : S
  pub rng : R
  pub fail_before : P
  pub fail_after : P
  pub injected_before : ℕ
  pub injected_after : ℕ

module _ {P R S : Type 0} where
  -- `FaultBackend::new`, with the generator already seeded.
  pub new_fault : S → R → P → P → FaultBackend P R S
  new_fault inner rng fail_before fail_after = record {
    inner = inner;
    rng = rng;
    fail_before = fail_before;
    fail_after = fail_after;
    injected_before = 0;
    injected_after = 0;
  }

module _ {P R S : Type 0} (g : Rng P R) where
  -- `roll`: the generator is asked only for a positive probability.
  unfoldable pub roll : P → FaultBackend P R S → Bool × FaultBackend P R S
  roll p f =
      if g.positive p
      then (let (hit, rng') = g.random_bool p f.rng in (hit, record f { rng = rng' }))
      else (false, f)

module _ {P R S : Type 0} where
  abbrev pub count_before : FaultBackend P R S → FaultBackend P R S
  count_before f = record f { injected_before = (f.injected_before + 1) % 2 ^ 64 }

  abbrev pub count_after : FaultBackend P R S → FaultBackend P R S
  count_after f = record f { injected_after = (f.injected_after + 1) % 2 ^ 64 }

abbrev pub lost_request : CoreError
lost_request = backend_unavailable "injected: {what} request lost before backend"

abbrev pub lost_response : CoreError
lost_response = backend_unavailable "injected: {what} committed but response lost"

module _ {P R S : Type 0} (g : Rng P R) {A : Type 0} where
  -- The body of `get`, `get_limited`, `exists` and `list`: the request may be lost.
  unfoldable pub faulty_read :
      (S → Result A × S) → FaultBackend P R S → Result A × FaultBackend P R S
  faulty_read call f =
      let (lost, f1) = roll g f.fail_before f in
      if lost
      then (err lost_request, count_before f1)
      else (let (r, s) = call f1.inner in (r, record f1 { inner = s }))

  -- The end of a mutation: an error of the inner backend goes out by `?`, and a success may have its
  -- response lost.
  unfoldable pub respond : Result A → FaultBackend P R S → Result A × FaultBackend P R S
  respond (err e) f = (err e, f)
  respond (ok a) f =
      let (lost, f1) = roll g f.fail_after f in
      if lost then (err lost_response, count_after f1) else (ok a, f1)

  -- The body of `put_create`, `put_update` and `delete`.
  unfoldable pub faulty_write :
      (S → Result A × S) → FaultBackend P R S → Result A × FaultBackend P R S
  faulty_write call f =
      let (lost, f1) = roll g f.fail_before f in
      if lost
      then (err lost_request, count_before f1)
      else (let (r, s) = call f1.inner in respond r (record f1 { inner = s }))

-- The wrapper of each operation.
unfoldable pub fault_backend :
    {c : Chrono} {P R S : Type 0}
    → Rng P R
    → ObjectBackend c S
    → ObjectBackend c (FaultBackend P R S)
unfolding faulty_read faulty_write
fault_backend g inner = record {
  put_create = λ key body now. faulty_write g (inner.put_create key body now);
  put_update = λ key expected body now. faulty_write g (inner.put_update key expected body now);
  get = λ key. faulty_read g (inner.get key);
  get_limited = λ key limit. faulty_read g (inner.get_limited key limit);
  exists = λ key. faulty_read g (inner.exists key);
  delete = λ key. faulty_write g (inner.delete key);
  list_keys = λ prefix. faulty_read g (inner.list_keys prefix);
}
