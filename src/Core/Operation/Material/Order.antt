-- ===== src/Core/Operation/Material/Order.antt =====
-- A material hash does not depend on the order of preconditions of different names.
use comb.Prelude.{ℕ, ◌≡◌, refl, ap, ◌∙◌, ◌≢◌}
use comb.Prelude.{true, false, List, [], ◌∷◌, arith}
use comb.Prelude.Str.{Str, bytes}
use comb.Core.Crates.{Hex, Blake3}
use comb.Core.Digest.{DigestKey}
use comb.Core.Operation.Material.{
  Precondition, Material, leb_bytes, insert, sort_by_name, material_hash,
}

leb_bytes_total : (a b : List ℕ) → leb_bytes a b ≡ false → leb_bytes b a ≡ true
unfolding leb_bytes
leb_bytes_total [] b h = cc
leb_bytes_total (x ∷ xs) [] h = refl
leb_bytes_total (x ∷ xs) (y ∷ ys) h = ground (arith, leb_bytes_total xs ys)

leb_bytes_antisymm : (a b : List ℕ) → leb_bytes a b ≡ true → leb_bytes b a ≡ true → a ≡ b
unfolding leb_bytes
leb_bytes_antisymm [] [] h k = refl
leb_bytes_antisymm [] (y ∷ ys) h k = cc
leb_bytes_antisymm (x ∷ xs) [] h k = cc
leb_bytes_antisymm (x ∷ xs) (y ∷ ys) h k = ground (arith, leb_bytes_antisymm xs ys)

leb_bytes_trans :
    (a b c : List ℕ) → leb_bytes a b ≡ true → leb_bytes b c ≡ true → leb_bytes a c ≡ true
unfolding leb_bytes
leb_bytes_trans [] b c h k = refl
leb_bytes_trans (x ∷ xs) [] c h k = cc
leb_bytes_trans (x ∷ xs) (y ∷ ys) [] h k = cc
leb_bytes_trans (x ∷ xs) (y ∷ ys) (z ∷ zs) h k = ground (arith, leb_bytes_trans xs ys zs)

-- One list is the other with entries of different names moved past each other.
pub data Reordered : List Precondition → List Precondition → Type 0 where
  done : (ps : List Precondition) → Reordered ps ps
  swap :
      (p q : Precondition) (ps : List Precondition)
      → bytes p.0 ≢ bytes q.0
      → Reordered (p ∷ q ∷ ps) (q ∷ p ∷ ps)
  keep :
      (p : Precondition) {ps qs : List Precondition} → Reordered ps qs → Reordered (p ∷ ps) (p ∷ qs)
  chain : {ps qs rs : List Precondition} → Reordered ps qs → Reordered qs rs → Reordered ps rs

insert-insert :
    (p q : Precondition) (ps : List Precondition)
    → bytes p.0 ≢ bytes q.0
    → insert p (insert q ps) ≡ insert q (insert p ps)
unfolding insert
insert-insert p q [] h =
    ground
      (arith, leb_bytes_total (bytes p.0) (bytes q.0), leb_bytes_antisymm (bytes p.0) (bytes q.0))
insert-insert p q (r ∷ rs) h = ground (
  arith,
  leb_bytes_total (bytes p.0) (bytes q.0),
  leb_bytes_antisymm (bytes p.0) (bytes q.0),
  leb_bytes_total (bytes p.0) (bytes r.0),
  leb_bytes_total (bytes q.0) (bytes r.0),
  leb_bytes_trans (bytes p.0) (bytes q.0) (bytes r.0),
  leb_bytes_trans (bytes q.0) (bytes p.0) (bytes r.0),
  leb_bytes_trans (bytes p.0) (bytes r.0) (bytes q.0),
  leb_bytes_trans (bytes q.0) (bytes r.0) (bytes p.0),
  insert-insert p q rs h,
)

sort_by_name-Reordered :
    {ps qs : List Precondition} → Reordered ps qs → sort_by_name ps ≡ sort_by_name qs
unfolding sort_by_name
sort_by_name-Reordered (done ps) = refl
sort_by_name-Reordered (swap p q ps h) = insert-insert p q (sort_by_name ps) h
sort_by_name-Reordered (keep p r) = ap (insert p) (sort_by_name-Reordered r)
sort_by_name-Reordered (chain r t) = sort_by_name-Reordered r ∙ sort_by_name-Reordered t

-- Two requests that differ only in the order of preconditions of different names have one hash.
pub material_hash-Reordered :
    (x : Hex) (b : Blake3) (key : DigestKey) (m : Material) (qs : List Precondition)
    (tenant resource : Str)
    → Reordered m.preconditions qs
    → material_hash x b key m tenant resource
      ≡ material_hash x b key (record m { preconditions = qs }) tenant resource
unfolding material_hash
material_hash-Reordered x b key m qs tenant resource r = rw (sort_by_name-Reordered r)
