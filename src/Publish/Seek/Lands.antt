-- ===== src/Publish/Seek/Lands.antt =====
-- Where a seek through the commit chain ends.
use comb.Prelude.{ℕ, zero, suc, ◌≡◌, Option, none, some, arith, Bool-cases, inl, inr, ◌==◌}
use comb.Prelude.Str.{Str, eqs_iff}
use comb.Core.Digest.{Digest}
use comb.Object.Step.{done}
use comb.Object.Step.Inversion.{continue-eq_done, lift-eq_done}
use comb.Store.Host.{Env, World}
use comb.Store.Keys.{Store}
use comb.Publish.View.{View}
use comb.Publish.Seek.{
  check_view_resource, take_skip, follow_skip, take_parent, follow_parent, or_parent, seek_round,
  seek_loop, seek_generation,
}

module _ {S E : Type 0} (env : Env S E) (store : Store env) (target : ℕ) (resource : Str) where
  -- A commit of the generation and the resource that were sought.
  abbrev pub IsSought : View env → Type 0
  IsSought view = (view.header.generation ≡ target) × (view.header.resource ≡ resource)

  check_view_resource-eq_done :
      (view : View env) (w after : World S E) {u : Unit {0}}
      → check_view_resource env store view resource w ≡ (done u, after)
      → view.header.resource ≡ resource
  unfolding check_view_resource
  check_view_resource-eq_done view w after h =
      let (r, _) = lift-eq_done _ w h in ground (arith, eqs_iff view.header.resource resource)

  take_skip-resource :
      (current next : View env) (d : Digest) (read : ℕ) (w after : World S E)
      → take_skip env store current target resource d w ≡ (done (some next, read), after)
      → next.header.resource ≡ resource
  unfolding take_skip
  take_skip-resource current next d read w after h =
      let (view, w1, _, h1) = continue-eq_done _ _ h in
      let (u, w2, e2, h2) = continue-eq_done _ _ h1 in
      let (_, w3, _, h3) = continue-eq_done _ _ h2 in
      let (_, w4, _, h4) = continue-eq_done _ _ h3 in
      ground (arith, check_view_resource-eq_done view w1 w2 e2, h4)

  follow_skip-resource :
      (current next : View env) (skip : Option Digest) (read : ℕ) (w after : World S E)
      → follow_skip env store current target resource skip w ≡ (done (some next, read), after)
      → next.header.resource ≡ resource
  unfolding follow_skip
  follow_skip-resource current next none read w after h = absurd (ground arith)
  follow_skip-resource current next (some d) read w after h =
      take_skip-resource current next d read w after h

  take_parent-resource :
      (current next : View env) (d : Digest) (w after : World S E)
      → take_parent env store current resource d w ≡ (done next, after)
      → next.header.resource ≡ resource
  unfolding take_parent
  take_parent-resource current next d w after h =
      let (view, w1, _, h1) = continue-eq_done _ _ h in
      let (u, w2, e2, h2) = continue-eq_done _ _ h1 in
      let (_, w3, _, h3) = continue-eq_done _ _ h2 in
      ground (arith, check_view_resource-eq_done view w1 w2 e2, h3)

  follow_parent-resource :
      (current next : View env) (parent : Option Digest) (w after : World S E)
      → follow_parent env store current resource parent w ≡ (done next, after)
      → next.header.resource ≡ resource
  unfolding follow_parent
  follow_parent-resource current next none w after h = absurd (ground arith)
  follow_parent-resource current next (some d) w after h =
      take_parent-resource current next d w after h

  or_parent-resource :
      (current next : View env) (reads count : ℕ) (skipped : Option (View env) × ℕ)
      (w after : World S E)
      → ((view : View env) → skipped.0 ≡ some view → view.header.resource ≡ resource)
      → or_parent env store current resource reads skipped w ≡ (done (next, count), after)
      → next.header.resource ≡ resource
  unfolding or_parent
  or_parent-resource current next reads count (some view, read) w after good h =
      good next (ground arith)
  or_parent-resource current next reads count (none, read) w after good h =
      let (view, w1, e1, h1) = continue-eq_done _ _ h in
      ground (arith, follow_parent-resource current view current.header.parent w w1 e1, h1)

  seek_round-resource :
      (current next : View env) (reads count : ℕ) (w after : World S E)
      → seek_round env store current target resource reads w ≡ (done (next, count), after)
      → next.header.resource ≡ resource
  unfolding seek_round
  seek_round-resource current next reads count w after h =
      let (_, w1, _, h1) = continue-eq_done _ _ h in
      let (skipped, w2, e2, h2) = continue-eq_done _ _ h1 in
      or_parent-resource current next reads count skipped w2 after
        (λ view q.
          follow_skip-resource current view current.header.skip skipped.1 w1 w2
            (ground (arith, e2, q)))
        h2

  seek_loop-IsSought :
      (hops : ℕ) (current view : View env) (reads count : ℕ) (w after : World S E)
      → current.header.resource ≡ resource
      → seek_loop env store hops current target resource reads w ≡ (done (view, count), after)
      → IsSought view
  unfolding seek_loop
  seek_loop-IsSought zero current view reads count w after r h = ground arith
  seek_loop-IsSought (suc left) current view reads count w after r h =
      elim (Bool-cases (current.header.generation == target)) [
        | inl t ↦ ground (arith, r, t)
        | inr f ↦
            let (next, w1, e1, h1) =
              continue-eq_done (seek_round env store current target resource reads w)
                (λ (found : View env × ℕ). seek_loop env store left found.0 target resource found.1)
                {u = (view, count)} {after = after} (ground (arith, f)) in
            seek_loop-IsSought left next.0 view next.1 count w1 after
              (seek_round-resource current next.0 reads next.1 w w1 e1) h1
      ]

  -- A seek ends at a commit of the generation and the resource that were sought, whatever objects the
  -- store returned on the way.
  pub seek_generation-IsSought :
      (start : Digest) (view : View env) (count : ℕ) (w after : World S E)
      → seek_generation env store start target resource w ≡ (done (view, count), after)
      → IsSought view
  unfolding seek_generation
  seek_generation-IsSought start view count w after h =
      let (current, w1, _, h1) = continue-eq_done _ _ h in
      let (u, w2, e2, h2) = continue-eq_done _ _ h1 in
      seek_loop-IsSought 10000 current view 1 count w2 after
        (check_view_resource-eq_done current w1 w2 e2) h2
