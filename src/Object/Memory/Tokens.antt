-- ===== src/Object/Memory/Tokens.antt =====
-- What a version token tells: sequences of operations on the in-memory backend.
use comb.Prelude.{ℕ, ◌+◌, ◌%◌, ◌^◌, ◌≤◌, ◌<◌, ◌≡◌, refl, sym, ◌∙◌, ◌≢◌, inl, inr}
use comb.Prelude.{false, Option, none, some, List, [], ◌∷◌, arith}
use comb.Prelude.{Bool-cases, Option-cases, length, All}
use comb.Prelude.Str.{Str, eqs, eqs_iff}
use comb.Prelude.Decimal.{to_string, to_string-injective}
use comb.Core.Error.{ok, err, precondition_failed}
use comb.Core.Crates.{Chrono}
use comb.Object.Backend.{Version}
use comb.Object.Memory.{
  Entry, Table, version_of, find, put_create, put_update, get, get_limited, exists, delete,
  list_keys,
}
use mathlib.Core.Path.{subst}
use comb.Object.Memory.Table.{find-insert, find-remove}

-- The calls that clients make, in the order in which the lock lets them in.
pub data Call (c : Chrono) : Type 0 where
  create : Str → List ℕ → c.Time → Call c
  update : Str → Option Version → List ℕ → c.Time → Call c
  read : Str → Call c
  read_limited : Str → ℕ → Call c
  look : Str → Call c
  erase : Str → Call c
  enumerate : Str → Call c

module _ {c : Chrono} where
  unfoldable pub after : Call c → Table c → Table c
  after (create k body now) s = (put_create k body now s).1
  after (update k expected body now) s = (put_update k expected body now s).1
  after (read k) s = (get k s).1
  after (read_limited k n) s = (get_limited k n s).1
  after (look k) s = (exists k s).1
  after (erase k) s = (delete k s).1
  after (enumerate p) s = (list_keys p s).1

  unfoldable pub after_all : List (Call c) → Table c → Table c
  after_all [] s = s
  after_all (x ∷ xs) s = after_all xs (after x s)

  -- No call of the sequence deletes `key`.
  abbrev pub Spares : Str → Call c → Type 0
  Spares key (erase k) = eqs k key ≡ false
  Spares key _ = Unit {0}

  -- What one call does to an object that it spares: nothing, or a new version of it.
  pub record Advances (key : Str) (e : Entry c) (s : Table c) : Type 0 where
    pub now : Entry c
    pub found : find key s ≡ some now
    pub at_least : e.version ≤ now.version
    pub at_most : now.version ≤ e.version + 1
    pub same_token : now.version ≡ e.version → now ≡ e

  advance_none : (key : Str) (e : Entry c) (s : Table c) → find key s ≡ some e → Advances key e s
  advance_none key e s h = record {
    now = e;
    found = h;
    at_least = omega arith;
    at_most = omega arith;
    same_token = λ p. refl;
  }

  find-put_create :
      (k key : Str) (body : List ℕ) (now : c.Time) (e : Entry c) (s : Table c)
      → find key s ≡ some e
      → find key (put_create k body now s).1 ≡ some e
  unfolding put_create
  find-put_create k key body now e s f = ground (
    arith,
    eqs_iff k key,
    find-insert k key (record { body = body; version = 1; modified = now }) s,
  )

  find-put_update_ne :
      (k key : Str) (expected : Option Version) (body : List ℕ) (now : c.Time) (s : Table c)
      → eqs k key ≡ false
      → find key (put_update k expected body now s).1 ≡ find key s
  unfolding put_update
  find-put_update_ne k key expected body now s h = elim (Option-cases (find k s)) [
    | inl missing ↦
        ground (arith, find-insert k key (record { body = body; version = 1; modified = now }) s)
    | inr (live, f) ↦ ground (
      arith,
      find-insert k key
          (record { body = body; version = (live.version + 1) % 2 ^ 64; modified = now }) s,
    )
  ]

  put_update-Advances :
      (key : Str) (expected : Option Version) (body : List ℕ) (now : c.Time) (e : Entry c)
      (s : Table c)
      → find key s ≡ some e
      → e.version + 1 < 2 ^ 64
      → Advances key e (put_update key expected body now s).1
  unfolding put_update
  put_update-Advances key none body now e s f b = advance_none key e _ (ground arith)
  put_update-Advances key (some v) body now e s f b =
      elim (Bool-cases (eqs v.token (to_string e.version))) [
        | inr stale ↦ advance_none key e _ (ground arith)
        | inl live ↦ record {
          now = record { body = body; version = (e.version + 1) % 2 ^ 64; modified = now };
          found = ground (
            arith,
            eqs_iff key key,
            find-insert key key
                (record { body = body; version = (e.version + 1) % 2 ^ 64; modified = now }) s,
          );
          at_least = omega arith;
          at_most = omega arith;
          same_token = λ p. absurd (omega arith);
        }
      ]

  after-Advances :
      (x : Call c) (key : Str) (e : Entry c) (s : Table c)
      → Spares key x
      → find key s ≡ some e
      → e.version + 1 < 2 ^ 64
      → Advances key e (after x s)
  unfolding after
  after-Advances (create k body now) key e s h f b =
      advance_none key e _ (find-put_create k key body now e s f)
  after-Advances (update k expected body now) key e s h f b = elim (Bool-cases (eqs k key)) [
    | inr other ↦ advance_none key e _ (find-put_update_ne k key expected body now s other ∙ f)
    | inl same ↦
        let k-eq : k ≡ key = (eqs_iff k key).0 same in
        subst (λ j. Advances key e (put_update j expected body now s).1) (sym k-eq)
          (put_update-Advances key expected body now e s f b)
  ]
  after-Advances (read k) key e s h f b = advance_none key e _ (unfold get in ground arith)
  after-Advances (read_limited k n) key e s h f b =
      advance_none key e _ (unfold get_limited in ground arith)
  after-Advances (look k) key e s h f b = advance_none key e _ (unfold exists in f)
  after-Advances (erase k) key e s h f b =
      advance_none key e _ (unfold delete in ground (arith, find-remove k key s))
  after-Advances (enumerate p) key e s h f b = advance_none key e _ (unfold list_keys in f)

  after_all-Advances :
      (xs : List (Call c)) (key : Str) (e : Entry c) (s : Table c)
      → All (Spares key) xs
      → find key s ≡ some e
      → e.version + length xs < 2 ^ 64
      → (now : Entry c) × (find key (after_all xs s) ≡ some now)
        × (e.version ≤ now.version)
        × (now.version ≤ e.version + length xs)
        × (now.version ≡ e.version → now ≡ e)
  unfolding after_all
  after_all-Advances [] key e s h f b = (e, f, omega arith, omega arith, λ p. refl)
  after_all-Advances (x ∷ xs) key e s h f b =
      let one = after-Advances x key e s h.0 f (omega arith) in
      let (last, found, lo, hi, same) =
        after_all-Advances xs key one.now (after x s) h.1 one.found (omega (arith, one.at_most)) in
      (
        last,
        found,
        omega (arith, one.at_least),
        omega (arith, one.at_most),
        λ p. same (omega (arith, one.at_least)) ∙ one.same_token (omega (arith, one.at_least)),
      )

  -- While nobody deletes an object and its counter stays below 2 ^ 64, its version token identifies its
  -- body: whatever calls came in between, if two reads of a key give one token, they give one body.
  pub token_identifies_body :
      (xs : List (Call c)) (key : Str) (e : Entry c) (s : Table c) (body : List ℕ)
      → All (Spares key) xs
      → find key s ≡ some e
      → e.version + length xs < 2 ^ 64
      → (get key (after_all xs s)).0 ≡ ok (body, version_of e.version)
      → body ≡ e.body
  unfolding get
  token_identifies_body xs key e s body h f b r =
      let (last, found, lo, hi, same) = after_all-Advances xs key e s h f b in
      let tokens : to_string last.version ≡ to_string e.version = ground arith in
      ground (arith, same (to_string-injective last.version e.version tokens))

  won_update :
      (key : Str) (v : Version) (e : Entry c) (s : Table c) (body : List ℕ) (now : c.Time)
      (won : Version)
      → find key s ≡ some e
      → (put_update key (some v) body now s).0 ≡ ok won
      → e.version + 1 < 2 ^ 64
      → (v.token ≡ to_string e.version)
        × (find key (put_update key (some v) body now s).1
            ≡ some (record { body = body; version = (e.version + 1) % 2 ^ 64; modified = now }))
  unfolding put_update
  won_update key v e s body now won f w b = ground (
    arith,
    eqs_iff key key,
    eqs_iff v.token (to_string e.version),
    find-insert key key (record { body = body; version = (e.version + 1) % 2 ^ 64; modified = now })
        s,
  )

  stale_update :
      (key : Str) (v : Version) (live : Entry c) (t : Table c) (body : List ℕ) (now : c.Time)
      → find key t ≡ some live
      → v.token ≢ to_string live.version
      → put_update key (some v) body now t
        ≡ (err (precondition_failed "{key}: expected version {}, live {v}"), t)
  unfolding put_update
  stale_update key v live t body now f stale =
      ground (arith, eqs_iff v.token (to_string live.version))

  -- A token wins one compare-and-swap: once an update that expected it has gone through, every later
  -- update that expects it fails and changes nothing, if nobody deletes the object in between and the counter
  -- stays below 2 ^ 64.
  pub token_wins_once :
      (xs : List (Call c)) (key : Str) (v : Version) (e : Entry c) (s : Table c)
      (body body' : List ℕ) (now now' : c.Time) (won : Version)
      → find key s ≡ some e
      → (put_update key (some v) body now s).0 ≡ ok won
      → All (Spares key) xs
      → e.version + 1 + length xs < 2 ^ 64
      → put_update key (some v) body' now' (after_all xs (put_update key (some v) body now s).1) ≡ (
        err (precondition_failed "{key}: expected version {}, live {v}"),
        after_all xs (put_update key (some v) body now s).1,
      )
  token_wins_once xs key v e s body body' now now' won f w h b =
      let (token, found) = won_update key v e s body now won f w (omega arith) in
      let (last, there, lo, hi, same) = after_all-Advances xs key _ _ h found (omega arith) in
      stale_update key v last _ body' now' there
        (λ p. absurd (omega (arith, to_string-injective e.version last.version (sym token ∙ p))))
