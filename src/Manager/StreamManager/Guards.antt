-- ===== src/Manager/StreamManager/Guards.antt =====
-- What a handler of the stream manager leaves alone when it does not succeed.
use autumn.Prelude.{ℕ, ◌≡◌, refl, String, Bool, true, false, ◌⊎◌, inl, inr, arith}
use autumn.Manager.Handler.{refused, is_done}
use autumn.Manager.StreamManager.{
  StreamManager, World, Env, require_leader, alloc_uniq_id, set_kvs, send_alloc_to_nodes,
  write_stream, create_stream, register_node, truncate,
}
use autumn.Manager.StreamManager.AllocExtent.{stream_alloc_extent}

-- A server that is not the leader refuses `CreateStream`, `StreamAllocExtent`, `RegisterNode` and
-- `Truncate`, and changes neither its maps nor etcd.
pub follower_refuses :
    (env : Env) (commit_length : ℕ → ℕ) (addr : String) (stream_id extent_id : ℕ) (w : World)
    → w.sm.is_leader ≡ false
    → (create_stream env w ≡ (w, refused))
      × (stream_alloc_extent env commit_length stream_id extent_id w ≡ (w, refused))
      × (register_node env addr w ≡ (w, refused))
      × (truncate env stream_id extent_id w ≡ (w, refused))
unfolding create_stream stream_alloc_extent register_node truncate require_leader
follower_refuses env cl addr sid eid w h = (ground arith, ground arith, ground arith, ground arith)

-- The maps that a call may have changed.
pub record SameMaps (a b : StreamManager) : Type 0 where
  pub streams : a.streams ≡ b.streams
  pub extents : a.extents ≡ b.extents
  pub nodes : a.nodes ≡ b.nodes

succeeded_or : {P : Type 0} (b : Bool) → (b ≡ false → P) → (b ≡ true) ⊎ P
succeeded_or true p = inl refl
succeeded_or false p = inr (p refl)

-- Each of `CreateStream`, `RegisterNode` and `Truncate` either returns a response or leaves the
-- streams, the extents and the nodes in memory as they were.
pub failure_keeps_maps :
    (env : Env) (addr : String) (stream_id extent_id : ℕ) (w : World)
    → ((is_done (create_stream env w).1 ≡ true) ⊎ SameMaps (create_stream env w).0.sm w.sm)
      × ((is_done (register_node env addr w).1 ≡ true)
          ⊎ SameMaps (register_node env addr w).0.sm w.sm)
      × ((is_done (truncate env stream_id extent_id w).1 ≡ true)
          ⊎ SameMaps (truncate env stream_id extent_id w).0.sm w.sm)
unfolding create_stream register_node truncate require_leader alloc_uniq_id set_kvs
    send_alloc_to_nodes write_stream
failure_keeps_maps env addr sid eid w = (
  succeeded_or (is_done (create_stream env w).1) λ e. ground arith,
  succeeded_or (is_done (register_node env addr w).1) λ e. ground arith,
  succeeded_or (is_done (truncate env sid eid w).1) λ e. ground arith,
)
