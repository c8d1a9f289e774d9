-- ===== src/Object/Memory/Table.antt =====
-- The hash map behaves as a map, whatever the order of its entries.
use comb.Prelude.{◌≡◌, refl}
use comb.Prelude.{none, some, [], ◌∷◌, arith}
use comb.Prelude.{if◌then◌else◌}
use comb.Prelude.Str.{Str, eqs, eqs_iff}
use comb.Core.Crates.{Chrono}
use comb.Object.Memory.{Entry, Table, find, insert, remove}

module _ {c : Chrono} (k j : Str) where
  pub find-insert :
      (e : Entry c) (s : Table c) → find j (insert k e s) ≡ (if eqs k j then some e else find j s)
  unfolding find insert
  find-insert e [] = refl
  find-insert e ((i, f) ∷ s) =
      ground (arith, eqs_iff i k, eqs_iff i j, eqs_iff k j, find-insert e s)

  pub find-remove : (s : Table c) → find j (remove k s) ≡ (if eqs k j then none else find j s)
  unfolding find remove
  find-remove [] = ground arith
  find-remove ((i, f) ∷ s) = ground (arith, eqs_iff i k, eqs_iff i j, eqs_iff k j, find-remove s)
