-- ===== src/Log/Prepare/Gathers.antt =====
-- crates/combctl/src/log.rs: what the loops of prepare_events gather follows the head without a gap.
use mathlib.Core.Path.{subst}
use mathlib.Core.List.{map-append, append-nil, append_assoc}
use comb.Prelude.{
  ℕ, ◌+◌, ◌-◌, ◌≤◌, ◌≡◌, refl, sym, ap, ◌∙◌, Bool, Option, none, some, List, [], ◌∷◌, ◌++◌, map,
  arith, length, length-append, inl, inr,
}
use comb.Prelude.Str.{Str}
use comb.Core.Commit.{Admission}
use comb.Index.Node.{StableIndexEntry}
use comb.Object.Step.{done}
use comb.Object.Step.Inversion.{continue-eq_done, lift-eq_done, pure-inj, match_option-cases}
use comb.Store.Host.{Env, World}
use comb.Store.Keys.{Store}
use comb.Log.Model.{AppendRange, GenericItem, StableItem, LogJson, DomainState}
use comb.Log.Payloads.Bounds.{check_payloads-length}
use comb.Log.Events.{
  Gathered, next_seq, note_range, admit_generic, admit_generics, admit_stable, admit_stables,
  entry_of,
}
use comb.Log.Prepare.{gather}
use comb.Log.Prepare.Tiled.{Tiles, Tiles-snoc}

abbrev pub range_of_admission : Admission → ℕ × ℕ
range_of_admission a = (a.first, a.last)

abbrev pub range_of_entry : StableIndexEntry → ℕ × ℕ
range_of_entry e = (e.first, e.last)

-- The ranges of what a publication admits, in order.
abbrev pub ranges_of : List Admission → List StableIndexEntry → List (ℕ × ℕ)
ranges_of admitted entries = map range_of_admission admitted ++ map range_of_entry entries

-- The leader has the first of the ranges.
abbrev pub LeadsWith : Option AppendRange → List (ℕ × ℕ) → Type 0
LeadsWith none rs = rs ≡ []
LeadsWith (some r) rs = (rest : List (ℕ × ℕ)) × (rs ≡ (r.first, r.last) ∷ rest)

or_leader : Option AppendRange → AppendRange → Option AppendRange
or_leader leader range = elim leader [ none ↦ some range | some r ↦ some r ]

LeadsWith-snoc :
    (leader : Option AppendRange) (rs : List (ℕ × ℕ)) (range : AppendRange)
    → LeadsWith leader rs
    → LeadsWith (or_leader leader range) (rs ++ (range.first, range.last) ∷ [])
unfolding or_leader
LeadsWith-snoc none rs range h = ([], ap (λ l. l ++ (range.first, range.last) ∷ []) h)
LeadsWith-snoc (some r) rs range (rest, h) =
    (rest ++ (range.first, range.last) ∷ [], ap (λ l. l ++ (range.first, range.last) ∷ []) h)

module _ {S E : Type 0} (env : Env S E) (store : Store env)
    (json : LogJson env.chrono env.json.Value) where
  abbrev pub Gathering : Type 0
  Gathering = Gathered env store json

  -- What is gathered behind `start`.
  abbrev pub IsGathered : ℕ → Gathering → Type 0
  IsGathered start g =
      (g.seq ≡ start + length g.payloads)
      × Tiles start (ranges_of g.admitted g.stable_admissions) g.seq
      × LeadsWith g.leader (ranges_of g.admitted g.stable_admissions)

  pub next_seq-eq_done :
      (n more m : ℕ) (w after : World S E)
      → next_seq env store json n more w ≡ (done m, after)
      → m ≡ n + more
  unfolding next_seq
  next_seq-eq_done n more m w after h =
      let (u, w1, e1, h1) = continue-eq_done _ _ h in sym (pure-inj h1)

  note_range-eq_done :
      (g : GenericItem) (range : AppendRange) (s t : Gathering) (w after : World S E)
      → note_range env store json g range s w ≡ (done t, after)
      → (t.seq ≡ s.seq)
        × (t.payloads ≡ s.payloads)
        × (t.admitted ≡ s.admitted)
        × (t.stable_admissions ≡ s.stable_admissions)
        × (t.leader ≡ or_leader s.leader range)
  unfolding note_range or_leader
  note_range-eq_done g range s t w after h = elim (match_option-cases s.leader _ _ h) [
    | inl (q, h1) ↦
        let made = pure-inj h1 in
        (
          ap (λ (r : Gathering). r.seq) (sym made),
          ap (λ (r : Gathering). r.payloads) (sym made),
          ap (λ (r : Gathering). r.admitted) (sym made),
          ap (λ (r : Gathering). r.stable_admissions) (sym made),
          ap (λ (r : Gathering). r.leader) (sym made) ∙ rw q refl,
        )
    | inr (first_range, q, h1) ↦
        let (value, w1, e1, h2) = continue-eq_done _ _ h1 in
        let made = pure-inj h2 in
        (
          ap (λ (r : Gathering). r.seq) (sym made),
          ap (λ (r : Gathering). r.payloads) (sym made),
          ap (λ (r : Gathering). r.admitted) (sym made),
          ap (λ (r : Gathering). r.stable_admissions) (sym made),
          ap (λ (r : Gathering). r.leader) (sym made) ∙ q ∙ rw q refl,
        )
  ]

  ranges-admit :
      (xs : List Admission) (a : Admission)
      → ranges_of (xs ++ a ∷ []) [] ≡ ranges_of xs [] ++ range_of_admission a ∷ []
  ranges-admit xs a = simp (map-append, append-nil)

  ranges-enter :
      (xs : List Admission) (ys : List StableIndexEntry) (y : StableIndexEntry)
      → ranges_of xs (ys ++ y ∷ []) ≡ ranges_of xs ys ++ range_of_entry y ∷ []
  ranges-enter xs ys y = simp (map-append, append_assoc)

  -- One more range behind what is gathered.
  IsGathered-snoc :
      (start : ℕ) (s t : Gathering) (range : AppendRange)
      → IsGathered start s
      → t.seq ≡ range.last
      → range.first ≡ s.seq + 1
      → range.first ≤ range.last
      → range.last ≡ start + length t.payloads
      → t.leader ≡ or_leader s.leader range
      → ranges_of t.admitted t.stable_admissions
        ≡ ranges_of s.admitted s.stable_admissions ++ (range.first, range.last) ∷ []
      → IsGathered start t
  IsGathered-snoc start s t range (count, tiles, leads) at_last next le grown_to led rs = (
    at_last ∙ grown_to,
    subst (λ l. Tiles start l t.seq) (sym rs)
        (subst
          (λ n.
            Tiles start (ranges_of s.admitted s.stable_admissions ++ (range.first, range.last) ∷ [])
              n)
          (sym at_last) (Tiles-snoc start _ s.seq range.first range.last tiles next le)),
    subst (λ l. LeadsWith t.leader l) (sym rs)
        (subst
          (λ o.
            LeadsWith o
              (ranges_of s.admitted s.stable_admissions ++ (range.first, range.last) ∷ []))
          (sym led) (LeadsWith-snoc s.leader _ range leads)),
  )

  admit_generic-IsGathered :
      (start : ℕ) (g : GenericItem) (s t : Gathering) (w after : World S E)
      → s.stable_admissions ≡ []
      → IsGathered start s
      → admit_generic env store json g s w ≡ (done t, after)
      → (t.stable_admissions ≡ []) × IsGathered start t
  unfolding admit_generic
  admit_generic-IsGathered start g s t w after none_stable gathered h =
      let (u, w1, e1, h1) = continue-eq_done _ _ h in
      let (first, w2, e2, h2) = continue-eq_done _ _ h1 in
      let (last, w3, e3, h3) = continue-eq_done _ _ h2 in
      let (valid, _) = lift-eq_done _ w e1 in
      let at_first = next_seq-eq_done s.seq 1 first w1 w2 e2 in
      let at_last = next_seq-eq_done first (length g.payloads - 1) last w2 w3 e3 in
      let there = check_payloads-length g.payloads valid in
      let (seq, payloads, admitted, stables, leader) =
        note_range-eq_done g (record { first = first; last = last }) _ t w3 after h3 in
      let empty = stables ∙ none_stable in
      let grown_by = ap length payloads ∙ length-append s.payloads g.payloads in
      let count = gathered.0 in
      (
        empty,
        IsGathered-snoc start s t (record { first = first; last = last }) gathered seq at_first
            (omega arith) (omega arith) leader
            (ap (λ l. ranges_of t.admitted l) empty
              ∙ ap (λ l. ranges_of l []) admitted
              ∙ ranges-admit s.admitted _
              ∙ ap (λ l. ranges_of s.admitted l ++ (first, last) ∷ []) (sym none_stable)),
      )

  admit_generics-IsGathered :
      (start : ℕ) (gs : List GenericItem) (s t : Gathering) (w after : World S E)
      → s.stable_admissions ≡ []
      → IsGathered start s
      → admit_generics env store json gs s w ≡ (done t, after)
      → IsGathered start t
  unfolding admit_generics
  admit_generics-IsGathered start [] s t w after none_stable gathered h =
      subst (IsGathered start) (pure-inj h) gathered
  admit_generics-IsGathered start (g ∷ rest) s t w after none_stable gathered h =
      let (next, w1, e1, h1) = continue-eq_done _ _ h in
      let (still, more) = admit_generic-IsGathered start g s next w w1 none_stable gathered e1 in
      admit_generics-IsGathered start rest next t w1 after still more h1

  admit_stable-IsGathered :
      (start : ℕ) (logical : Str) (generation : ℕ) (i : StableItem) (s t : Gathering)
      (w after : World S E)
      → IsGathered start s
      → admit_stable env store json logical generation i s w ≡ (done t, after)
      → IsGathered start t
  unfolding admit_stable or_leader
  admit_stable-IsGathered start logical generation i s t w after gathered h =
      let (u, w1, e1, h1) = continue-eq_done _ _ h in
      let (first, w2, e2, h2) = continue-eq_done _ _ h1 in
      let (root, w3, e3, h3) = continue-eq_done _ _ h2 in
      let (updated, w4, e4, h4) = continue-eq_done _ _ h3 in
      let at_first = next_seq-eq_done s.seq 1 first w1 w2 e2 in
      let made = pure-inj h4 in
      let count = gathered.0 in
      let grown_by = length-append s.payloads (i.payload ∷ []) in
      subst (IsGathered start) made (
        IsGathered-snoc start s
          (record s {
            seq = first;
            payloads = s.payloads ++ i.payload ∷ [];
            index = some updated;
            stable_admissions =
                s.stable_admissions ++ entry_of env store json i first generation ∷ [];
            leader = or_leader s.leader (record { first = first; last = first });
          })
          (record { first = first; last = first }) gathered refl at_first (omega arith)
          (omega arith) refl (ranges-enter s.admitted s.stable_admissions _))

  admit_stables-IsGathered :
      (start : ℕ) (logical : Str) (generation : ℕ) (items : List StableItem) (s t : Gathering)
      (w after : World S E)
      → IsGathered start s
      → admit_stables env store json logical generation items s w ≡ (done t, after)
      → IsGathered start t
  unfolding admit_stables
  admit_stables-IsGathered start logical generation [] s t w after gathered h =
      subst (IsGathered start) (pure-inj h) gathered
  admit_stables-IsGathered start logical generation (i ∷ rest) s t w after gathered h =
      let (next, w1, e1, h1) = continue-eq_done _ _ h in
      admit_stables-IsGathered start logical generation rest next t w1 after
        (admit_stable-IsGathered start logical generation i s next w w1 gathered e1) h1

  -- What both loops gather stands behind the head of the domain.
  pub gather-IsGathered :
      (logical : Str) (generation : ℕ) (keep : Bool) (domain : DomainState env.chrono)
      (generics : List GenericItem) (stables : List StableItem) (g : Gathering)
      (w after : World S E)
      → gather env store json logical generation keep domain generics stables w ≡ (done g, after)
      → IsGathered domain.head_seq g
  unfolding gather
  gather-IsGathered logical generation keep domain generics stables g w after h =
      let (admitted, w1, e1, h1) = continue-eq_done _ _ h in
      let (index, w2, e2, h2) = continue-eq_done _ _ h1 in
      let (seq, tiles, leads) =
        admit_generics-IsGathered domain.head_seq generics _ admitted w w1 refl
          (omega arith, refl, refl) e1 in
      admit_stables-IsGathered domain.head_seq logical generation stables _ g w2 after
        (seq, tiles, leads) h2
