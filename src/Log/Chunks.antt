-- ===== src/Log/Chunks.antt =====
-- crates/combctl/src/log.rs: build_chunk, and the frames of a chunk.
pub mod Sorted
use comb.Prelude.{
  ℕ, ◌+◌, ◌-◌, ◌%◌, ◌^◌, Option, none, some, List, [], ◌∷◌, ltb, leb, ◌==◌, if◌then◌else◌, length,
}
use comb.Core.Crates.{Chrono}
use comb.Core.Error.{rejected, refuse_if}
use comb.Core.Digest.{digest}
use comb.Object.Step.{other, Step, ◌>>=◌, ◌>>◌, pure, lift, fail}
use comb.Store.Host.{Env, World}
use comb.Store.Keys.{Store}
use comb.Log.Model.{ChunkRef, Frame, LogJson, chunk_schema}

-- The payloads as frames, numbered from the first.
unfoldable pub frames_from : {c : Chrono} → ℕ → c.Time → List (List ℕ) → List (Frame c)
frames_from seq now [] = []
frames_from seq now (p ∷ rest) =
    record { seq = seq; at = now; payload = p } ∷ frames_from (seq + 1) now rest

-- `sort_by_key(|f| f.seq)`.
unfoldable pub insert_frame : {c : Chrono} → Frame c → List (Frame c) → List (Frame c)
insert_frame f [] = f ∷ []
insert_frame f (g ∷ rest) =
    let more = g ∷ insert_frame f rest in if leb f.seq g.seq then f ∷ g ∷ rest else more

unfoldable pub sort_frames : {c : Chrono} → List (Frame c) → List (Frame c)
unfolding insert_frame
sort_frames [] = []
sort_frames (f ∷ rest) = insert_frame f (sort_frames rest)

-- `?` on what serde_json gives.
unfoldable pub serde : {W T : Type 0} → Option T → Step W T
serde none = fail (other "serde_json")
serde (some t) = pure t

module _ {S E : Type 0} (env : Env S E) (store : Store env)
    (json : LogJson env.chrono env.json.Value) where
  -- `build_chunk`; `checked_sub(1)` fails on no payload at 0.
  unfoldable pub build_chunk :
      ℕ → List (List ℕ) → env.chrono.Time → Step (World S E) (ChunkRef env.chrono × List ℕ × ℕ)
  unfolding frames_from serde
  build_chunk first payloads now = do
    lift (refuse_if (ltb (2 ^ 64 - 1) (first + length payloads)) (rejected "sequence overflow"))
    lift (refuse_if (first + length payloads == 0) (rejected "sequence overflow"))
    text ← serde (
        json.body_to_vec
          (record { schema = chunk_schema; frames = frames_from first now payloads }))
    pure (
      record {
        digest = digest env.hex env.blake3 store.key text;
        first = first;
        last = first + length payloads - 1;
        bytes = length text % 2 ^ 64;
        at = now;
      },
      text,
      first + length payloads - 1,
    )
