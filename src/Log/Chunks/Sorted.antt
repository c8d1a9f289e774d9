-- ===== src/Log/Chunks/Sorted.antt =====
-- Frames sorted by their numbers: in order, and the same frames.
use mathlib.Core.List.{Permᴰ}
use mathlib.Core.List.Permᴰ
use comb.Prelude.{ℕ, ◌≤◌, refl, List, [], ◌∷◌, arith, All, leb, Bool-cases, inl, inr}
use comb.Core.Crates.{Chrono}
use comb.Log.Model.{Frame}
use comb.Log.Chunks.{insert_frame, sort_frames}

module _ {c : Chrono} where
  -- Frames in the order of their numbers.
  abbrev pub IsSorted : List (Frame c) → Type 0
  IsSorted [] = Unit
  IsSorted (f ∷ rest) = All (λ (g : Frame c). f.seq ≤ g.seq) rest × IsSorted rest

  module _ (P : Frame c → Type 0) where
    insert_frame-All : (f : Frame c) (l : List (Frame c)) → P f → All P l → All P (insert_frame f l)
    unfolding insert_frame
    insert_frame-All f [] p h = (p, tt)
    insert_frame-All f (g ∷ rest) p (q, h) = elim (Bool-cases (leb f.seq g.seq)) [
      | inl b ↦ rw b (p, (q, h))
      | inr b ↦ rw b (q, insert_frame-All f rest p h)
    ]

    pub sort_frames-All : (l : List (Frame c)) → All P l → All P (sort_frames l)
    unfolding sort_frames
    sort_frames-All [] h = tt
    sort_frames-All (f ∷ rest) (p, h) =
        insert_frame-All f (sort_frames rest) p (sort_frames-All rest h)

  All-weaken :
      (n m : ℕ) (l : List (Frame c))
      → n ≤ m
      → All (λ (g : Frame c). m ≤ g.seq) l
      → All (λ (g : Frame c). n ≤ g.seq) l
  All-weaken n m [] le h = tt
  All-weaken n m (f ∷ rest) le (p, h) = (omega arith, All-weaken n m rest le h)

  insert_frame-IsSorted :
      (f : Frame c) (l : List (Frame c)) → IsSorted l → IsSorted (insert_frame f l)
  unfolding insert_frame
  insert_frame-IsSorted f [] h = (tt, tt)
  insert_frame-IsSorted f (g ∷ rest) (low, h) = elim (Bool-cases (leb f.seq g.seq)) [
    | inl b ↦
        let le : f.seq ≤ g.seq = ground (arith, b) in
        rw b ((le, All-weaken f.seq g.seq rest le low), (low, h))
    | inr b ↦
        let le : g.seq ≤ f.seq = ground (arith, b) in
        rw b (
          insert_frame-All (λ (k : Frame c). g.seq ≤ k.seq) f rest le low,
          insert_frame-IsSorted f rest h,
        )
  ]

  pub sort_frames-IsSorted : (l : List (Frame c)) → IsSorted (sort_frames l)
  unfolding sort_frames
  sort_frames-IsSorted [] = tt
  sort_frames-IsSorted (f ∷ rest) =
      insert_frame-IsSorted f (sort_frames rest) (sort_frames-IsSorted rest)

  insert_frame-Perm : (f : Frame c) (l : List (Frame c)) → Permᴰ (insert_frame f l) (f ∷ l)
  unfolding insert_frame
  insert_frame-Perm f [] = Permᴰ.refl (f ∷ [])
  insert_frame-Perm f (g ∷ rest) = elim (Bool-cases (leb f.seq g.seq)) [
    | inl b ↦ rw b (Permᴰ.refl (f ∷ g ∷ rest))
    | inr b ↦ rw b (Permᴰ.trans (Permᴰ.cons refl (insert_frame-Perm f rest)) (Permᴰ.swap refl refl))
  ]

  pub sort_frames-Perm : (l : List (Frame c)) → Permᴰ (sort_frames l) l
  unfolding sort_frames
  sort_frames-Perm [] = Permᴰ.nil
  sort_frames-Perm (f ∷ rest) =
      Permᴰ.trans (insert_frame-Perm f (sort_frames rest)) (Permᴰ.cons refl (sort_frames-Perm rest))
