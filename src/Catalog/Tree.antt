-- ===== src/Catalog/Tree.antt =====
-- The list of chunks that a catalog stands for, whatever its nodes: the tree of the objects behind it.
pub mod Spans
pub mod Forests
pub mod Runs
use comb.Prelude.{ℕ, zero, suc, ◌+◌, ◌-◌, ◌≤◌, ◌≡◌, ◌⊎◌, some, List, [], ◌∷◌, ◌++◌}
use comb.Core.Crates.{Hex, Blake3}
use comb.Core.Digest.{Digest, DigestKey, digest}
use comb.Catalog.Node.{
  CatalogChunkRef, CatalogChild, ChunkCatalogRoot, CatalogState, empty, root, CatalogNode, leaf,
  branch, Span, leaf_span, child_span, count_chunks, last_of,
}
use comb.Catalog.Objects.{CatalogJson}
use comb.Catalog.Node.{CatalogSchemaV1}

-- The span of a child is that of its chunks.
abbrev pub IsSpanOf : CatalogChild → List CatalogChunkRef → Type 0
IsSpanOf c refs = leaf_span refs ≡ some (c.first_seq, c.last_seq, c.chunk_count)

-- Children one after the other, each over its part of the chunks.
abbrev pub Forest :
    (Digest → List CatalogChunkRef → Type 0) → List CatalogChild → List CatalogChunkRef → Type 0
Forest Below [] refs = refs ≡ []
Forest Below (c ∷ cs) refs =
    (mine : List CatalogChunkRef) × (rest : List CatalogChunkRef) × (refs ≡ mine ++ rest)
    × IsSpanOf c mine
    × Below c.digest mine
    × Forest Below cs rest

-- Chunks that cover the sequence numbers from `n` on, without a gap or an overlap.
abbrev pub IsRun : ℕ → List CatalogChunkRef → Type 0
IsRun n [] = Unit
IsRun n (r ∷ rest) =
    (r.first_seq ≡ n)
    × (r.first_seq ≤ r.last_seq)
    × (r.event_count ≡ r.last_seq - r.first_seq + 1)
    × IsRun (r.last_seq + 1) rest

-- A text that reads as a node, or that was written for it.
abbrev pub IsTextOf : CatalogJson → List ℕ → CatalogNode → Type 0
IsTextOf json text node =
    (json.node_from_slice text ≡ some node) ⊎ (json.node_to_vec node ≡ some text)

module _ (x : Hex) (b : Blake3) (key : DigestKey) (json : CatalogJson)
    (known : List ℕ → Type 0) where
  -- A node with a known text of the digest.
  abbrev pub Holds : Digest → CatalogNode → Type 0
  Holds d node = (text : List ℕ) × known text × (digest x b key text ≡ d) × IsTextOf json text node

  -- A tree of a height over chunks.
  abbrev pub Tree : ℕ → Digest → List CatalogChunkRef → Type 0
  Tree zero d refs = Holds d (leaf CatalogSchemaV1.v1 refs)
  Tree (suc h) d refs =
      (children : List CatalogChild) × Holds d (branch CatalogSchemaV1.v1 (suc h) children)
      × Forest (Tree h) children refs
