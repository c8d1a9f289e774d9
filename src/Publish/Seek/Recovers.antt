-- ===== src/Publish/Seek/Recovers.antt =====
-- What a scan of the commit chain gives back: the original publication of the same request.
use comb.Prelude.{ℕ, zero, suc, ◌≡◌, true, false, some, ◌∙◌, arith, inl, inr}
use comb.Prelude.Str.{Str, eqs_iff}
use comb.Core.Error.{ok, refuse_if}
use comb.Core.Digest.{Digest}
use comb.Core.Operation.Identity.{OpIdentity}
use comb.Object.Step.{done, lift, pure, ◌>>=◌, ◌>>◌}
use comb.Object.Step.Inversion.{continue-eq_done, lift-eq_done, if-cases, match_option-cases}
use comb.Store.Host.{Env, World}
use comb.Store.Keys.{Store}
use comb.Publish.View.{
  View, Published, Codec, identity_in_commit, other_request, conflict, published_from_view,
}
use comb.Publish.View.Consistent.{IsConsistent, published_from_view-IsConsistent}
use comb.Publish.Seek.{check_view_resource, scan_loop, recover_without_intent}

module _ {S E : Type 0} (env : Env S E) (store : Store env) {T : Type 0}
    (codec : Codec env.json.Value T) (identity : OpIdentity) where
  abbrev IsFound : Str → Digest → Published env.chrono T → Type 0
  IsFound resource request p =
      (view : View env) × (view.header.resource ≡ resource)
      × (identity_in_commit env view identity ≡ true)
      × (other_request env view identity request ≡ false)
      × (published_from_view env codec view identity store.tenant false ≡ ok p)

  found_here :
      (view : View env) (request : Digest) (p : Published env.chrono T) (w after : World S E)
      → (lift (
              refuse_if
                (other_request env view identity request)
                (conflict env identity view.header.request request))
            >> (lift (published_from_view env codec view identity store.tenant false)
                >>= λ published. pure (some published)))
          w
        ≡ (done (some p), after)
      → (other_request env view identity request ≡ false)
        × (published_from_view env codec view identity store.tenant false ≡ ok p)
  found_here view request p w after h =
      let (u, w1, e1, h1) = continue-eq_done _ _ h in
      let (published, w2, e2, h2) = continue-eq_done _ _ h1 in
      let (same, _) = lift-eq_done _ w e1 in
      let (told, _) = lift-eq_done _ w1 e2 in ground (arith, same, told, h2)

  scan_loop-IsFound :
      (left : ℕ) (request : Digest) (resource : Str) (d : Digest) (p : Published env.chrono T)
      (world after : World S E)
      → scan_loop env store codec left identity request resource d world ≡ (done (some p), after)
      → IsFound resource request p
  unfolding scan_loop check_view_resource
  scan_loop-IsFound zero request resource d p world after h = absurd (ground arith)
  scan_loop-IsFound (suc left) request resource d p world after h =
      let (view, w1, e1, h1) = continue-eq_done _ _ h in
      let (u, w2, e2, h2) = continue-eq_done _ _ h1 in
      let (r, _) = lift-eq_done _ w1 e2 in
      elim (if-cases (identity_in_commit env view identity) _ _ h2) [
        | inl (t, h3) ↦
            let (same, told) = found_here view request p w2 after h3 in
            (view, ground (arith, r, eqs_iff view.header.resource resource), t, same, told)
        | inr (n, h3) ↦ elim (match_option-cases view.header.parent _ _ h3) [
          | inl (q, h4) ↦ absurd (ground (arith, h4))
          | inr (parent, q, h4) ↦ scan_loop-IsFound left request resource parent p w2 after h4
        ]
      ]

  -- Where a scan without an intent gives a publication, it is one of the resource: its ref value is of
  -- this tenant and resource, its generation, epoch and head agree with the publication, and it is not
  -- told as a first delivery.
  pub recover_without_intent-IsConsistent :
      (request : Digest) (resource : Str) (p : Published env.chrono T) (world after : World S E)
      → recover_without_intent env store codec identity request resource world
        ≡ (done (some p), after)
      → IsConsistent p
        × (p.value.tenant ≡ store.tenant)
        × (p.value.name ≡ resource)
        × (p.first_delivery ≡ false)
  unfolding recover_without_intent
  recover_without_intent-IsConsistent request resource p world after h =
      let (head, w1, e1, h1) = continue-eq_done _ _ h in
      elim (match_option-cases head _ _ h1) [
        | inl (q, h2) ↦ absurd (ground (arith, h2))
        | inr (snapshot, q, h2) ↦ elim (match_option-cases snapshot.value.head_commit _ _ h2) [
          | inl (n, h3) ↦ absurd (ground (arith, h3))
          | inr (d, n, h3) ↦
              let (view, named, _, _, told) =
                scan_loop-IsFound 10000 request resource d p w1 after h3 in
              let (consistent, tenant, name, _, first) =
                published_from_view-IsConsistent env store codec identity view false p told in
              (consistent, tenant, name ∙ named, first)
        ]
      ]
