-- ===== src/Object/Memory/Reads.antt =====
-- Bounded reads and listings against the map.
use comb.Prelude.{ℕ, ◌≡◌}
use comb.Prelude.{Bool, false, ◌&&◌, ◌||◌, some, List, [], ◌∷◌, arith}
use comb.Prelude.{ltb, if◌then◌else◌, length}
use comb.Prelude.Str.{Str, eqs, eqs_iff, starts_with}
use comb.Core.Error.{ok, err, object_too_large, ◌>>=◌}
use comb.Core.Crates.{Chrono}
use comb.Object.Backend.{ObjectInfo}
use comb.Object.Memory.{Table, find, get, get_limited, exists, infos, list_keys}

module _ {c : Chrono} where
  -- A bounded read is the plain read, cut to an error where the body is over the limit. Neither
  -- changes the state.
  pub get_limited-get :
      (key : Str) (limit : ℕ) (s : Table c)
      → ((get_limited key limit s).0 ≡ (
          (get key s).0 >>= λ found.
          if ltb limit (length found.0)
          then err (object_too_large key limit (some (length found.0)))
          else ok found))
        × ((get_limited key limit s).1 ≡ s)
        × ((get key s).1 ≡ s)
  unfolding get_limited get
  get_limited-get key limit s = ground arith

  abbrev pub lists_key : Str → List (ObjectInfo c) → Bool
  lists_key key [] = false
  lists_key key (i ∷ is) = eqs i.key key || lists_key key is

  lists_key-infos :
      (prefix key : Str) (s : Table c)
      → ok (lists_key key (infos prefix s))
        ≡ ((exists key s).0 >>= λ there. ok (starts_with prefix key && there))
  unfolding infos exists find
  lists_key-infos prefix key [] = ground arith
  lists_key-infos prefix key ((k, e) ∷ s) =
      ground (arith, eqs_iff k key, lists_key-infos prefix key s)

  -- A listing names exactly the keys that exist and start with the prefix.
  pub list_keys-exists :
      (prefix key : Str) (s : Table c)
      → ((list_keys prefix s).0 >>= λ found. ok (lists_key key found))
        ≡ ((exists key s).0 >>= λ there. ok (starts_with prefix key && there))
  unfolding list_keys
  list_keys-exists prefix key s = lists_key-infos prefix key s
