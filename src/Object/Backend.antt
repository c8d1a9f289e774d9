-- ===== src/Object/Backend.antt =====
-- crates/comb-object/src/backend.rs: the `ObjectBackend` trait and bounded reads.
-- An operation takes the backend's state, and what it reads from the clock, and returns both its
-- result and the state after it.
pub mod BoundedRead
use comb.Prelude.{ℕ, ◌+◌, ◌-◌, ◌^◌}
use comb.Prelude.{Bool, ◌&&◌, Option, none, List}
use comb.Prelude.{ltb, if◌then◌else◌, length, take}
use comb.Prelude.Str.{Str}
use comb.Core.Error.{CoreError, Result, ok, err, object_too_large, io, ◌>>=◌}
use comb.Core.Crates.{Chrono}

-- An opaque version token.
pub record Version : Type 0 where
  pub token : Str

pub record ObjectInfo (c : Chrono) : Type 0 where
  pub key : Str
  pub modified : c.Time

pub record ObjectBackend (c : Chrono) (S : Type 0) : Type 0 where
  pub put_create : Str → List ℕ → c.Time → S → Result Version × S
  pub put_update : Str → Option Version → List ℕ → c.Time → S → Result Version × S
  pub get : Str → S → Result (List ℕ × Version) × S
  pub get_limited : Str → ℕ → S → Result (List ℕ × Version) × S
  pub exists : Str → S → Result Bool × S
  pub delete : Str → S → Result (Unit {0}) × S
  pub list_keys : Str → S → Result (List (ObjectInfo c)) × S

-- `object_too_large`.
abbrev pub too_large : Str → ℕ → Option ℕ → CoreError
too_large key limit actual = object_too_large key limit actual

-- A reader: the bytes that it has, and whether an error or the end of the input stands behind them.
pub record Reader : Type 0 where
  pub content : List ℕ
  pub fails : Bool

-- `read_to_end` through `take(n)`, which asks for nothing more after `n` bytes.
unfoldable pub read_at_most : Reader → ℕ → Result (List ℕ)
read_at_most r n =
    if r.fails && ltb (length r.content) n then err (io "read") else ok (take n r.content)

-- `max_encoded_bytes.get().saturating_add(1)` over `u64`.
abbrev pub saturating_suc : ℕ → ℕ
saturating_suc n = if ltb n (2 ^ 64 - 1) then n + 1 else 2 ^ 64 - 1

-- `read_sync_limited`.
unfoldable pub read_sync_limited : Reader → Str → ℕ → Result (List ℕ)
unfolding read_at_most
read_sync_limited r key limit = do
  buf ← read_at_most r (saturating_suc limit)
  if ltb limit (length buf) then err (too_large key limit none) else ok buf
