-- ===== src/Log/Reads/Since.antt =====
-- crates/combctl/src/log.rs: what a read returns.
use mathlib.Core.Path.{subst}
use mathlib.Core.List.{Memᴰ, Permᴰ}
use mathlib.Core.List.Memᴰ.{head, tail}
use comb.Prelude.{
  ℕ, ◌≤◌, ◌<◌, ◌≡◌, refl, sym, ap, ◌∙◌, false, ◌&&◌, ◌⊎◌, none, some, List, [], ◌∷◌, ◌++◌, arith,
  All, All-append, All-map, ltb, leb, Bool-cases, inl, inr,
}
use comb.Core.Crates.{Chrono}
use comb.Core.Refs.{RefValue}
use comb.Object.Step.{done}
use comb.Object.Step.Inversion.{
  continue-eq_done, lift-eq_done, pure-inj, refuse_if-eq_ok, if-cases, match_option-cases,
}
use comb.Store.Host.{Env, World}
use comb.Store.Keys.{Store}
use comb.Log.Model.{ChunkRef, ChunkBody, Frame, LogJson}
use comb.Log.Chunks.Sorted.{IsSorted, sort_frames-All, sort_frames-IsSorted, sort_frames-Perm}
use comb.Store.Blobs.Authentic.{IsPlaintext, get_blob-IsPlaintext}
use comb.Log.Prepare.Extends.{serde-eq_done}
use comb.Log.Events.{Manifest}
use comb.Log.Operations.{LogStore, status}
use comb.Log.Reads.{keep_frames, collect, read}

module _ {c : Chrono} where
  -- A frame from a number on and above a floor.
  abbrev pub IsSince : ℕ → ℕ → Frame c → Type 0
  IsSince from floor f = (from ≤ f.seq) × (floor < f.seq)

  keep_frames-IsSince :
      (from floor : ℕ) (l : List (Frame c)) → All (IsSince from floor) (keep_frames from floor l)
  unfolding keep_frames
  keep_frames-IsSince from floor [] = tt
  keep_frames-IsSince from floor (f ∷ rest) =
      let ih = keep_frames-IsSince from floor rest in
      elim (Bool-cases (leb from f.seq && ltb floor f.seq)) [
        | inl b ↦ rw b ((ground (arith, b), ground (arith, b)), ih)
        | inr b ↦ rw b ih
      ]

  -- The frames that a read keeps of a chunk: some of its frames, and all that it asks for.
  abbrev pub IsKept : ℕ → ℕ → List (Frame c) → List (Frame c) → Type 0
  IsKept from floor frames kept =
      All (λ f. Memᴰ f frames × IsSince from floor f) kept
      × All (λ f. IsSince from floor f → Memᴰ f kept) frames

  keep_frames-IsKept :
      (from floor : ℕ) (l : List (Frame c)) → IsKept from floor l (keep_frames from floor l)
  unfolding keep_frames
  keep_frames-IsKept from floor [] = (tt, tt)
  keep_frames-IsKept from floor (f ∷ rest) =
      let more = keep_frames from floor rest in
      let (sound, whole) = keep_frames-IsKept from floor rest in
      let here =
        All-map (λ g. Memᴰ g rest × IsSince from floor g)
          (λ g. Memᴰ g (f ∷ rest) × IsSince from floor g) (λ g h. (tail h.0, h.1)) more sound in
      elim (Bool-cases (leb from f.seq && ltb floor f.seq)) [
        | inl b ↦
            let e : keep_frames from floor (f ∷ rest) ≡ f ∷ more = rw b refl in
            subst (IsKept from floor (f ∷ rest)) (sym e) (
              ((head refl, (ground (arith, b), ground (arith, b))), here),
              (
                (λ asked. head refl),
                All-map (λ g. IsSince from floor g → Memᴰ g more)
                    (λ g. IsSince from floor g → Memᴰ g (f ∷ more)) (λ g h asked. tail (h asked))
                    rest whole,
              ),
            )
        | inr b ↦
            let e : keep_frames from floor (f ∷ rest) ≡ more = rw b refl in
            subst (IsKept from floor (f ∷ rest)) (sym e)
              (here, ((λ asked. absurd (ground (arith, b, asked.0, asked.1))), whole))
      ]

module _ {S E : Type 0} (env : Env S E) (store : Store env)
    (json : LogJson env.chrono env.json.Value) (log : LogStore) where
  -- The frames of chunks, chunk by chunk: none of one that ends before the number, and of any other
  -- those that are asked for of the frames in its text, which has its digest.
  abbrev pub Gathered : ℕ → ℕ → List (ChunkRef env.chrono) → List (Frame env.chrono) → Type 0
  Gathered from floor [] found = found ≡ []
  Gathered from floor (chunk ∷ rest) found =
      ((chunk.last < from) × Gathered from floor rest found)
      ⊎ ((text : List ℕ) × (body : ChunkBody env.chrono) × (kept : List (Frame env.chrono))
          × (more : List (Frame env.chrono)) × IsPlaintext env store chunk.digest text
          × (json.body_from_slice text ≡ some body)
          × IsKept from floor body.frames kept
          × (found ≡ kept ++ more)
          × Gathered from floor rest more)

  collect-Gathered :
      (from floor : ℕ) (chunks : List (ChunkRef env.chrono)) (frames : List (Frame env.chrono))
      (w after : World S E)
      → collect env store json log from floor chunks w ≡ (done frames, after)
      → Gathered from floor chunks frames
  unfolding collect
  collect-Gathered from floor [] frames w after h = sym (pure-inj h)
  collect-Gathered from floor (chunk ∷ rest) frames w after h =
      elim (if-cases (ltb chunk.last from) _ _ h) [
        | inl (b, h1) ↦ inl (ground (arith, b), collect-Gathered from floor rest frames w after h1)
        | inr (_, h1) ↦
            let (got, w1, e1, h2) = continue-eq_done _ _ h1 in
            let (body, w2, e2, h3) = continue-eq_done _ _ h2 in
            let (behind, w3, e3, h4) = continue-eq_done _ _ h3 in
            inr (
              got.0,
              body,
              keep_frames from floor body.frames,
              behind,
              get_blob-IsPlaintext env store chunk.digest got.0 got.1 w w1 e1,
              serde-eq_done (json.body_from_slice got.0) w1 e2,
              keep_frames-IsKept from floor body.frames,
              sym (pure-inj h4),
              collect-Gathered from floor rest behind w2 w3 e3,
            )
      ]

  collect-IsSince :
      (from floor : ℕ) (chunks : List (ChunkRef env.chrono)) (frames : List (Frame env.chrono))
      (w after : World S E)
      → collect env store json log from floor chunks w ≡ (done frames, after)
      → All (IsSince from floor) frames
  unfolding collect
  collect-IsSince from floor [] frames w after h = subst (All (IsSince from floor)) (pure-inj h) tt
  collect-IsSince from floor (chunk ∷ rest) frames w after h =
      elim (if-cases (ltb chunk.last from) _ _ h) [
        | inl (_, h1) ↦ collect-IsSince from floor rest frames w after h1
        | inr (_, h1) ↦
            let (got, w1, e1, h2) = continue-eq_done _ _ h1 in
            let (body, w2, e2, h3) = continue-eq_done _ _ h2 in
            let (behind, w3, e3, h4) = continue-eq_done _ _ h3 in
            subst (All (IsSince from floor)) (pure-inj h4) (
              All-append (IsSince from floor) (keep_frames from floor body.frames) behind
                (keep_frames-IsSince from floor body.frames)
                (collect-IsSince from floor rest behind w2 w3 e3))
      ]

  floor_ahead :
      (from floor : ℕ) → (ltb 0 floor && leb from floor) ≡ false → (floor ≡ 0) ⊎ (floor < from)
  floor_ahead from floor h = elim (Bool-cases (ltb 0 floor)) [
    | inl b ↦ inr (ground (arith, h, b))
    | inr b ↦ inl (ground (arith, b))
  ]

  pub read-IsSince :
      (from : ℕ) (frames : List (Frame env.chrono)) (w after : World S E)
      → read env store json log from w ≡ (done frames, after)
      → IsSorted frames
        × (((behind : World S E) × (status env store json log w ≡ (done none, behind))
              × (frames ≡ []))
            ⊎ ((value : RefValue env.chrono) × (m : Manifest env store json) × (behind : World S E)
                × (found : List (Frame env.chrono)) × (status env store json log w
                    ≡ (done (some (value, m)), behind))
                × All (IsSince from m.trim_before_seq) frames
                × Permᴰ frames found
                × Gathered from m.trim_before_seq (m.segments ++ m.chunks) found
                × ((m.trim_before_seq ≡ 0) ⊎ (m.trim_before_seq < from))))
  unfolding read
  read-IsSince from frames w after h =
      let (now, w1, e1, h1) = continue-eq_done _ _ h in
      elim (match_option-cases now _ _ h1) [
        | inl (q, h2) ↦ (
          subst IsSorted (pure-inj h2) tt,
          inl (w1, e1 ∙ ap (λ o. (done o, w1)) q, sym (pure-inj h2)),
        )
        | inr ((value, m), q, h2) ↦
            let (u, w2, e2, h3) = continue-eq_done _ _ h2 in
            let (found, w3, e3, h4) = continue-eq_done _ _ h3 in
            let (open_floor, _) = lift-eq_done _ w1 e2 in
            let floor = m.trim_before_seq in
            let all = m.segments ++ m.chunks in
            let ahead = refuse_if-eq_ok (ltb 0 floor && leb from floor) _ open_floor in
            (
              subst IsSorted (pure-inj h4) (sort_frames-IsSorted found),
              inr (
                value,
                m,
                w1,
                found,
                e1 ∙ ap (λ o. (done o, w1)) q,
                subst (All (IsSince from floor)) (pure-inj h4) (
                    sort_frames-All (IsSince from floor) found
                      (collect-IsSince from floor all found w2 w3 e3)),
                subst (λ l. Permᴰ l found) (pure-inj h4) (sort_frames-Perm found),
                collect-Gathered from floor all found w2 w3 e3,
                floor_ahead from floor ahead,
              ),
            )
      ]
