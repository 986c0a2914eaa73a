-- ===== src/Manager/StreamManager/AllocExtent.antt =====
-- `StreamAllocExtent` of sm_service.go: seal the last extent of a stream and start a new one.
use autumn.Prelude.{
  ℕ, ◌^◌, ◌-◌, not, Option, none, some, List, [], ◌∷◌, ◌++◌, ltb, leb, ◌==◌, if◌then◌else◌, length,
  map,
}
use autumn.Prelude.Assoc.{lookup}
use autumn.Manager.Handler.{
  Reply, done, refused, crashed, hung, pure, lift, gets, modify, refuse_if, ◌>>=◌, ◌>>◌,
}
use autumn.Manager.Policy.{NodeStatus, alloc_extent}
use autumn.Utils.SafeMutex.{SafeMutex, free, r_lock, unlock}
use autumn.Manager.StreamManager.{
  StreamInfo, ExtentInfo, StreamManager, Env, M, require_leader, alloc_uniq_id, set_kvs,
  clone_node_status, extract_node_id, send_alloc_to_nodes, add_extent, on_sm, put_stream,
  put_extent,
}

abbrev pub last? : List ℕ → Option ℕ
last? [] = none
last? (x ∷ []) = some x
last? (x ∷ y ∷ xs) = last? (y ∷ xs)

-- `*sm.nodes[nodeID]` panics on a node that is not known.
unfoldable pub nodes_of : List (ℕ × NodeStatus) → List ℕ → Reply (List NodeStatus)
nodes_of nodes [] = done []
nodes_of nodes (id ∷ ids) =
    let more = nodes_of nodes ids in
    elim (lookup id nodes) [
      | none ↦ crashed
      | some n ↦ elim more [
        | done ns ↦ done (n ∷ ns)
        | refused ↦ refused
        | crashed ↦ crashed
        | hung ↦ hung
      ]
    ]

abbrev extent_addr : List (ℕ × NodeStatus) → ℕ → Option ExtentInfo → Reply (List NodeStatus × ℕ)
extent_addr nodes id none = refused
extent_addr nodes id (some x) = elim (nodes_of nodes x.replicates) [
  | done ns ↦ done (ns, id)
  | refused ↦ refused
  | crashed ↦ crashed
  | hung ↦ hung
]

abbrev last_addr : StreamManager → Option ℕ → Reply (List NodeStatus × ℕ)
last_addr sm none = crashed
last_addr sm (some id) = extent_addr sm.nodes id (lookup id sm.extents)

-- The stream is used before the test that it was found: an unknown one panics, and so does one
-- with no extent.
unfoldable pub get_append_extents_addr : StreamManager → ℕ → Reply (List NodeStatus × ℕ)
unfolding nodes_of
get_append_extents_addr sm stream_id = elim (lookup stream_id sm.streams) [
  | none ↦ crashed
  | some s ↦ last_addr sm (last? s.extent_ids)
]

-- Workers that each send one value on a channel, which is read after all of them have ended: a
-- send past the channel's capacity blocks its worker, and the wait for it never ends.
unfoldable pub send_then_wait {ℓ} : {A : Type ℓ} → ℕ → List A → Reply (List A)
send_then_wait capacity sent = if leb (length sent) capacity then done sent else hung

abbrev pub max_uint32 : ℕ
max_uint32 = 2 ^ 32 - 1

-- The least of the sizes, where math.MaxUint32 stands for an error.
unfoldable pub min_size : ℕ → List ℕ → ℕ
min_size ret [] = ret
min_size ret (size ∷ sizes) =
    min_size (if size == max_uint32 then ret else if ltb size ret then size else ret) sizes

-- `receiveCommitlength`: `commit_length` is what a node answers. The channel has no buffer.
unfoldable pub receive_commitlength : (ℕ → ℕ) → List NodeStatus → Reply ℕ
unfolding send_then_wait min_size
receive_commitlength commit_length nodes =
    elim (send_then_wait 0 (map (λ (n : NodeStatus). commit_length n.node_id) nodes)) [
      | done sizes ↦ done (min_size 512 sizes)
      | refused ↦ refused
      | crashed ↦ crashed
      | hung ↦ hung
    ]

-- `RLock`, and a deferred `Unlock` of a mutex that nobody holds.
unfoldable pub clone_stream : StreamManager → ℕ → SafeMutex → Reply (Option StreamInfo)
unfolding r_lock unlock
clone_stream sm stream_id m = elim (r_lock m) [
  | done m' ↦ elim (unlock m') [
    | done m'' ↦ done (lookup stream_id sm.streams)
    | refused ↦ refused
    | crashed ↦ crashed
    | hung ↦ hung
  ]
  | refused ↦ refused
  | crashed ↦ crashed
  | hung ↦ hung
]

-- `stream.ExtentIDs` panics on a nil stream.
abbrev found : Option StreamInfo → Reply StreamInfo
found none = crashed
found (some s) = done s

-- The calls of `sealExtents` are not waited for, and their results are dropped.
unfoldable pub stream_alloc_extent : Env → (ℕ → ℕ) → ℕ → ℕ → M ExtentInfo
stream_alloc_extent env commit_length stream_id extent_to_seal = do
  require_leader
  w ← gets (λ w. w)
  (old_nodes, id) ← lift (get_append_extents_addr w.sm stream_id)
  refuse_if (not (id == extent_to_seal))
  size ← lift (receive_commitlength commit_length old_nodes)
  (extent_id, _) ← alloc_uniq_id env 1
  w ← gets (λ w. w)
  nodes ← lift (alloc_extent (clone_node_status w.sm) 3 [])
  send_alloc_to_nodes env nodes
  w ← gets (λ w. w)
  cloned ← lift (clone_stream w.sm stream_id free)
  stream ← lift (found cloned)
  let stream' : StreamInfo = record stream { extent_ids = stream.extent_ids ++ (extent_id ∷ []) }
  let extent_info : ExtentInfo = record {
    extent_id = extent_id;
    replicates = extract_node_id nodes;
  }
  set_kvs env (put_stream stream_id stream' ∷ put_extent extent_id extent_info ∷ [])
  modify (on_sm (add_extent stream_id extent_info))
  pure extent_info
