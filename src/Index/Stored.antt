-- ===== src/Index/Stored.antt =====
-- crates/combctl/src/hamt.rs over crates/combctl/src/store.rs: the index on the blobs of a store.
use comb.Prelude.{ap, ◌∙◌, ℕ, ◌≤◌, ◌≡◌, Option, some, List, length}
use comb.Prelude.Str.{Str}
use comb.Core.Digest.{Digest}
use comb.Object.Step.{Step, done, ◌>>=◌, pure, map_err}
use comb.Object.Step.Inversion.{
  continue-eq_done, lift-eq_done, pure-inj, ok_or-eq_ok, map_err-eq_done,
}
use comb.Store.Host.{Env, World}
use comb.Store.Keys.{Store}
use comb.Store.Blobs.{GetSource, put_blob, get_blob_limited}
use comb.Store.Blobs.Authentic.{IsPlaintext, get_blob_limited-IsBounded}
use comb.Index.Node.{HamtNode, StableIndexEntry, IndexHead, max_node_bytes}
use comb.Index.Walk.{NodeStore, node_spec, map_node_read_error, map_read_error, load_node}

-- serde_json on nodes and on lists of entries.
pub record NodeJson : Type 0 where
  pub node_to_vec : HamtNode → Option (List ℕ)
  pub node_from_slice : List ℕ → Option HamtNode
  pub entries_to_vec : List StableIndexEntry → Option (List ℕ)

map_read_error-eq_done :
    {S T : Type 0} (call : Step S T) (s after : S) (t : T)
    → map_read_error call s ≡ (done t, after)
    → call s ≡ (done t, after)
unfolding map_read_error map_err
map_read_error-eq_done call s after t h = map_err-eq_done map_node_read_error call s after t h

module _ {S E : Type 0} (env : Env S E) (store : Store env) (nodes : NodeJson) where
  -- The store as the index asks for it: blobs without their source and their deduplication.
  abbrev pub node_store : NodeStore (World S E)
  node_store = record {
    tenant = store.tenant;
    key = store.key;
    get_blob_limited = λ d spec. do
      found ← get_blob_limited env store d spec
      pure found.0;
    put_blob = λ bytes. do
      put ← put_blob env store bytes
      pure put.0;
    node_to_vec = nodes.node_to_vec;
    node_from_slice = nodes.node_from_slice;
    entries_to_vec = nodes.entries_to_vec;
  }

  -- A node that a walk loads from a store is read from the plaintext of the digest that the walk
  -- followed, of at most the size of a node, whatever bytes the cache and the backend hold.
  pub load_node-IsPlaintext :
      (log : Str) (d walk_path : Digest) (depth : ℕ) (head : Option IndexHead) (node : HamtNode)
      (w after : World S E)
      → load_node env.hex env.blake3 node_store log d walk_path depth head w ≡ (done node, after)
      → (payload : List ℕ) × IsPlaintext env store d payload
        × (length payload ≤ max_node_bytes)
        × (nodes.node_from_slice payload ≡ some node)
  unfolding load_node node_spec
  load_node-IsPlaintext log d walk_path depth head node w after h =
      let (payload, w1, e1, h1) = continue-eq_done _ _ h in
      let (read, w2, e2, h2) = continue-eq_done _ _ h1 in
      let (u, w3, e3, h3) = continue-eq_done _ _ h2 in
      let (found, w4, e4, h4) =
        continue-eq_done
          (get_blob_limited env store d (node_spec env.hex env.blake3 node_store log) w)
          (λ (f : List ℕ × GetSource). pure {S = World S E} f.0)
          (map_read_error-eq_done
            (node_store.get_blob_limited d (node_spec env.hex env.blake3 node_store log)) w w1
            payload e1) in
      let (plain, bounded) =
        get_blob_limited-IsBounded env store d (node_spec env.hex env.blake3 node_store log) found.0
          found.1 w w4 e4 in
      let (parsed, _) = lift-eq_done _ w1 e2 in
      (
        found.0,
        plain,
        bounded,
        ap nodes.node_from_slice (pure-inj h4)
            ∙ ok_or-eq_ok _ _ read parsed
            ∙ ap some (pure-inj h3),
      )
