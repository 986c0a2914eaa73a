-- ===== src/Manager/StreamManager/Sealing.antt =====
-- What `StreamAllocExtent` comes to.
use autumn.Prelude.{
  ℕ, ◌≤◌, ◌<◌, ◌≡◌, ◌≢◌, refl, true, some, List, [], ◌∷◌, arith, length, All, Option-cases, inl,
  inr,
}
use autumn.Prelude.Assoc.{lookup}
use autumn.Manager.Handler.{Reply, done, refused, crashed, hung}
use autumn.Manager.Policy.{NodeStatus}
use autumn.Utils.SafeMutex.{free}
use autumn.Manager.StreamManager.{StreamInfo, ExtentInfo, StreamManager, World, Env, require_leader}
use autumn.Manager.StreamManager.AllocExtent.{
  last?, nodes_of, get_append_extents_addr, min_size, receive_commitlength, clone_stream,
  stream_alloc_extent,
}

-- If every node answers with a length of 512 at least, as an extent with its header does, the
-- length that is chosen is 512: the extent's header, and none of its blocks.
pub min_size-header : (sizes : List ℕ) → All (λ s. 512 ≤ s) sizes → min_size 512 sizes ≡ 512
unfolding min_size
min_size-header [] h = refl
min_size-header (s ∷ ss) (h, hs) = ground (arith, min_size-header ss hs)

-- The nodes of a list of IDs are as many as these.
length-nodes_of :
    (nodes : List (ℕ × NodeStatus)) (ids : List ℕ) (ns : List NodeStatus)
    → nodes_of nodes ids ≡ done ns
    → length ns ≡ length ids
unfolding nodes_of
length-nodes_of nodes [] ns e = ground arith
length-nodes_of nodes (id ∷ ids) ns e = elim (Option-cases (lookup id nodes)) [
  | inl missing ↦ ground (arith, missing)
  | inr (n, here) ↦ rest (nodes_of nodes ids) refl n here (length-nodes_of nodes ids)
]
  where
    rest :
        (r : Reply (List NodeStatus))
        → nodes_of nodes ids ≡ r
        → (n : NodeStatus) → lookup id nodes ≡ some n
        → ((ms : List NodeStatus) → nodes_of nodes ids ≡ done ms → length ms ≡ length ids)
        → length ns ≡ length (id ∷ ids)
    rest (done ms) p n here ih = ground (arith, p, here, ih ms p)
    rest refused p n here ih = ground (arith, p, here)
    rest crashed p n here ih = ground (arith, p, here)
    rest hung p n here ih = ground (arith, p, here)

clone_stream-crashed : (sm : StreamManager) (id : ℕ) → clone_stream sm id free ≡ crashed
unfolding clone_stream
clone_stream-crashed sm id = refl

-- No call of `StreamAllocExtent` returns a new extent, whatever the state and the answers.
pub stream_alloc_extent-ne-done :
    (env : Env) (commit_length : ℕ → ℕ) (stream_id extent_to_seal : ℕ) (w : World) (x : ExtentInfo)
    → (stream_alloc_extent env commit_length stream_id extent_to_seal w).1 ≢ done x
unfolding stream_alloc_extent clone_stream
stream_alloc_extent-ne-done env cl sid eid w x e = ground arith

receive_commitlength-hung :
    (commit_length : ℕ → ℕ) (ns : List NodeStatus)
    → 0 < length ns
    → receive_commitlength commit_length ns ≡ hung
unfolding receive_commitlength
receive_commitlength-hung cl [] h = absurd (omega arith)
receive_commitlength-hung cl (n ∷ ns) h = ground arith

-- On the leader, for a known stream whose last extent is the one to seal, is known, and has at
-- least one replica, on known nodes, `StreamAllocExtent` never returns: the workers that ask for
-- the commit length wait for a reader of their channel, which waits for them. Nothing is changed.
pub stream_alloc_extent-hung :
    (env : Env) (commit_length : ℕ → ℕ) (stream_id extent_id : ℕ) (w : World) (s : StreamInfo)
    (x : ExtentInfo) (ns : List NodeStatus)
    → w.sm.is_leader ≡ true
    → lookup stream_id w.sm.streams ≡ some s
    → last? s.extent_ids ≡ some extent_id
    → lookup extent_id w.sm.extents ≡ some x
    → nodes_of w.sm.nodes x.replicates ≡ done ns
    → 0 < length x.replicates
    → stream_alloc_extent env commit_length stream_id extent_id w ≡ (w, hung)
unfolding stream_alloc_extent require_leader get_append_extents_addr
stream_alloc_extent-hung env cl sid eid w s x ns leads hs hl hx hn pos = ground (
  arith,
  receive_commitlength-hung cl ns (omega (arith, length-nodes_of w.sm.nodes x.replicates ns hn)),
)
