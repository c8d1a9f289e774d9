-- ===== src/Index/Node/Slots.antt =====
-- Children of a branch: what an upsert changes, and that the slots stay in order.
use comb.Prelude.{ℕ, suc, ◌+◌, ◌≤◌, ◌<◌, ◌≡◌, refl, inl, inr}
use comb.Prelude.{true, false, none, some, List, [], ◌∷◌, ◌++◌, arith}
use comb.Prelude.{ltb, leb, ◌==◌, if◌then◌else◌, Bool-cases, Option-cases, length}
use comb.Core.Error.{ok}
use comb.Core.Digest.{Digest}
use comb.Index.Node.{
  HamtChild, child, update_child, insert_by_slot, sort_by_slot, upsert_child, validate_order,
  validate_slots, fanout,
}

-- Slots in strict order below the fan-out, from `low` on.
pub data Ordered : ℕ → List HamtChild → Type 0 where
  end : (low : ℕ) → Ordered low []
  next :
      (low : ℕ) (c : HamtChild) (cs : List HamtChild)
      → low ≤ c.slot
      → c.slot < fanout
      → Ordered (suc c.slot) cs
      → Ordered low (c ∷ cs)

validate_order-some :
    (p : ℕ) (cs : List HamtChild) → validate_order (some p) cs ≡ ok tt → Ordered (suc p) cs
unfolding validate_order
validate_order-some p [] h = end (suc p)
validate_order-some p (c ∷ cs) h =
    next (suc p) c cs (ground arith) (ground arith) (validate_order-some c.slot cs (ground arith))

validate_order-none : (cs : List HamtChild) → validate_order none cs ≡ ok tt → Ordered 0 cs
unfolding validate_order
validate_order-none [] h = end 0
validate_order-none (c ∷ cs) h =
    next 0 c cs (omega arith) (ground arith) (validate_order-some c.slot cs (ground arith))

Ordered-some :
    (p : ℕ) (cs : List HamtChild) → Ordered (suc p) cs → validate_order (some p) cs ≡ ok tt
unfolding validate_order
Ordered-some p [] (end _) = refl
Ordered-some p (c ∷ cs) (next _ _ _ l h o) = ground (arith, Ordered-some c.slot cs o)

Ordered-none : (cs : List HamtChild) → Ordered 0 cs → validate_order none cs ≡ ok tt
unfolding validate_order
Ordered-none [] (end _) = refl
Ordered-none (c ∷ cs) (next _ _ _ l h o) = ground (arith, Ordered-some c.slot cs o)

length-Ordered :
    (low : ℕ) (cs : List HamtChild) → low ≤ fanout → Ordered low cs → low + length cs ≤ fanout
length-Ordered low [] b (end _) = omega arith
length-Ordered low (c ∷ cs) b (next _ _ _ l h o) =
    omega (arith, length-Ordered (suc c.slot) cs (omega arith) o)

insert_by_slot-Ordered :
    (low : ℕ) (c : HamtChild) (cs : List HamtChild)
    → Ordered low cs
    → low ≤ c.slot
    → c.slot < fanout
    → child cs c.slot ≡ none
    → Ordered low (insert_by_slot c cs)
unfolding insert_by_slot child
insert_by_slot-Ordered low c [] o l h n = next low c [] l h (end (suc c.slot))
insert_by_slot-Ordered low c (d ∷ ds) (next _ _ _ dl dh o) l h n =
    elim (Bool-cases (leb c.slot d.slot)) [
      | inl t ↦ rw t (next low c (d ∷ ds) l h (next (suc c.slot) d ds (ground arith) dh o))
      | inr t ↦ rw t (
          next low d (insert_by_slot c ds) dl dh
            (insert_by_slot-Ordered (suc d.slot) c ds o (ground arith) h (ground arith)))
    ]

insert_by_slot-front :
    (low : ℕ) (c : HamtChild) (ds : List HamtChild)
    → c.slot ≤ low
    → Ordered low ds
    → insert_by_slot c ds ≡ c ∷ ds
unfolding insert_by_slot
insert_by_slot-front low c [] l o = refl
insert_by_slot-front low c (d ∷ ds) l (next _ _ _ m _ _) = ground arith

-- Sorting a child behind children in order puts it in its place.
sort_by_slot-push :
    (low : ℕ) (n : HamtChild) (cs : List HamtChild)
    → Ordered low cs
    → n.slot < fanout
    → child cs n.slot ≡ none
    → sort_by_slot (cs ++ n ∷ []) ≡ insert_by_slot n cs
unfolding sort_by_slot insert_by_slot child
sort_by_slot-push low n [] o h e = refl
sort_by_slot-push low n (c ∷ cs) (next _ _ _ l k o) h e = elim (Bool-cases (ltb n.slot c.slot)) [
  | inl t ↦ ground (
    arith,
    sort_by_slot-push (suc c.slot) n cs o h (ground arith),
    insert_by_slot-front (suc c.slot) n cs (ground arith) o,
    insert_by_slot-front (suc c.slot) c cs (omega arith) o,
  )
  | inr t ↦ ground (
    arith,
    sort_by_slot-push (suc c.slot) n cs o h (ground arith),
    insert_by_slot-front (suc c.slot) c (insert_by_slot n cs) (omega arith)
        (insert_by_slot-Ordered (suc c.slot) n cs o (ground arith) h (ground arith)),
  )
]

-- Where a slot is missing, the child that is pushed is sorted in from the end.
child-insert_by_slot :
    (c : HamtChild) (cs : List HamtChild) (slot : ℕ)
    → child cs c.slot ≡ none
    → child (insert_by_slot c cs) slot ≡ (if c.slot == slot then some c.digest else child cs slot)
unfolding child insert_by_slot
child-insert_by_slot c [] slot h = refl
child-insert_by_slot c (d ∷ ds) slot h = ground (arith, child-insert_by_slot c ds slot)

update_child-none :
    (cs : List HamtChild) (slot : ℕ) (digest : Digest)
    → update_child cs slot digest ≡ none
    → child cs slot ≡ none
unfolding child update_child
update_child-none [] slot digest h = refl
update_child-none (c ∷ cs) slot digest h = elim (Option-cases (update_child cs slot digest)) [
  | inl e ↦ ground (arith, update_child-none cs slot digest e)
  | inr (ds, e) ↦ ground (arith, e)
]

-- An update in place keeps the order, and changes the digest of its slot only.
update_child-Ordered :
    (low : ℕ) (cs ds : List HamtChild) (slot : ℕ) (digest : Digest)
    → Ordered low cs
    → update_child cs slot digest ≡ some ds
    → Ordered low ds
unfolding update_child
update_child-Ordered low [] ds slot digest o h = absurd (ground arith)
update_child-Ordered low (c ∷ cs) ds slot digest (next _ _ _ l k o) h =
    elim (Bool-cases (c.slot == slot)) [
      | inl t ↦ rw (same t) (next low (record { slot = c.slot; digest = digest }) cs l k o)
      | inr t ↦ elim (Option-cases (update_child cs slot digest)) [
        | inl e ↦ absurd (ground arith)
        | inr (es, e) ↦
            rw (longer t es e)
              (next low c es l k (update_child-Ordered (suc c.slot) cs es slot digest o e))
      ]
    ]
  where
    same : c.slot == slot ≡ true → ds ≡ record { slot = c.slot; digest = digest } ∷ cs
    same t = ground arith

    longer :
        c.slot == slot ≡ false
        → (es : List HamtChild) → update_child cs slot digest ≡ some es
        → ds ≡ c ∷ es
    longer t es e = ground arith

child-update_child :
    (cs ds : List HamtChild) (slot : ℕ) (digest : Digest) (other : ℕ)
    → update_child cs slot digest ≡ some ds
    → child ds other ≡ (if slot == other then some digest else child cs other)
unfolding child update_child
child-update_child [] ds slot digest other h = absurd (ground arith)
child-update_child (c ∷ cs) ds slot digest other h =
    elim (Option-cases (update_child cs slot digest)) [
      | inl e ↦ ground arith
      | inr (es, e) ↦ ground (arith, child-update_child cs es slot digest other e)
    ]

validate_slots-Ordered : (cs : List HamtChild) → Ordered 0 cs → validate_slots cs ≡ ok tt
unfolding validate_slots
validate_slots-Ordered cs o = ground (arith, length-Ordered 0 cs (omega arith) o, Ordered-none cs o)

upsert_child-some :
    (cs ds : List HamtChild) (slot : ℕ) (digest : Digest)
    → update_child cs slot digest ≡ some ds
    → upsert_child cs slot digest ≡ ds
unfolding upsert_child
upsert_child-some cs ds slot digest e = ground (arith, e)

upsert_child-none :
    (cs : List HamtChild) (slot : ℕ) (digest : Digest)
    → Ordered 0 cs
    → slot < fanout
    → update_child cs slot digest ≡ none
    → upsert_child cs slot digest ≡ insert_by_slot (record { slot = slot; digest = digest }) cs
unfolding upsert_child
upsert_child-none cs slot digest o h e = ground (
  arith,
  e,
  sort_by_slot-push 0 (record { slot = slot; digest = digest }) cs o h
      (update_child-none cs slot digest e),
)

-- An upsert on validated children of a slot below 32 is validated again; it gives the slot the digest
-- and leaves every other slot as it was.
pub upsert_child_lem :
    (cs : List HamtChild) (slot : ℕ) (digest : Digest)
    → validate_slots cs ≡ ok tt
    → slot < fanout
    → (validate_slots (upsert_child cs slot digest) ≡ ok tt)
      × ((other : ℕ)
          → child (upsert_child cs slot digest) other
            ≡ (if slot == other then some digest else child cs other))
unfolding validate_slots
upsert_child_lem cs slot digest v h = elim (Option-cases (update_child cs slot digest)) [
  | inl e ↦ rw (upsert_child-none cs slot digest order h e) (
    validate_slots-Ordered _ (
        insert_by_slot-Ordered 0 new cs order (omega arith) h (update_child-none cs slot digest e)),
    λ other. child-insert_by_slot new cs other (update_child-none cs slot digest e),
  )
  | inr (ds, e) ↦ rw (upsert_child-some cs ds slot digest e) (
    validate_slots-Ordered ds (update_child-Ordered 0 cs ds slot digest order e),
    λ other. child-update_child cs ds slot digest other e,
  )
]
  where
    new : HamtChild
    new = record { slot = slot; digest = digest }

    order : Ordered 0 cs
    order = validate_order-none cs (ground arith)
