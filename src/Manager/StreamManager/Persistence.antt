-- ===== src/Manager/StreamManager/Persistence.antt =====
-- The maps in memory against the keys in etcd.
use autumn.Prelude.{ℕ, ◌≡◌, refl, String, none, List, [], ◌∷◌, arith}
use autumn.Prelude.Assoc.{lookup, insert}
use autumn.Manager.Handler.{Reply, done, refused, crashed, hung}
use autumn.Manager.EtcdOp.{succeeded, current, etcd_alloc_uniq_id, etct_set_kvs}
use autumn.Manager.Policy.{NodeStatus}
use autumn.Manager.StreamManager.{
  NodeInfo, World, Env, require_leader, alloc_uniq_id, set_kvs, apply_op, apply_ops,
  send_alloc_to_nodes, add_extent, add_node, write_stream, create_stream, register_node, truncate,
}

-- What etcd keeps of a node.
abbrev pub node_info : NodeStatus → NodeInfo
node_info n = record { node_id = n.node_id; address = n.address }

abbrev pub node_infos : List (ℕ × NodeStatus) → List (ℕ × NodeInfo)
node_infos [] = []
node_infos ((k, n) ∷ ns) = (k, node_info n) ∷ node_infos ns

node_infos-insert :
    (id : ℕ) (n : NodeStatus) (ns : List (ℕ × NodeStatus))
    → node_infos (insert id n ns) ≡ insert id (node_info n) (node_infos ns)
node_infos-insert id n [] = refl
node_infos-insert id n ((k, m) ∷ ns) = ground (arith, node_infos-insert id n ns)

-- Memory and etcd hold the same streams, extents and nodes.
pub record Mirrors (w : World) : Type 0 where
  pub streams : w.sm.streams ≡ w.etcd.kv_streams
  pub extents : w.sm.extents ≡ w.etcd.kv_extents
  pub nodes : node_infos w.sm.nodes ≡ w.etcd.kv_nodes

-- No stream has the number that is the next to be handed out.
abbrev pub NextIsFree : World → Type 0
NextIsFree w = lookup (current w.etcd.id_cell) w.sm.streams ≡ none

module _ (env : Env) (w : World) (commits : env.commit ≡ succeeded) (h : Mirrors w) where
  -- Where memory and etcd hold the same, etcd takes the transactions, the ID key was not changed by
  -- a rival, and the next ID is not in use, `CreateStream` keeps them so, whether it succeeds or not.
  pub create_stream-Mirrors :
      env.id_call.stale ≡ none → NextIsFree w → Mirrors (create_stream env w).0
  unfolding create_stream require_leader alloc_uniq_id etcd_alloc_uniq_id send_alloc_to_nodes
      set_kvs etct_set_kvs apply_ops apply_op add_extent
  create_stream-Mirrors alone free = record {
    streams = ground (arith, h.streams);
    extents = ground (arith, h.extents);
    nodes = ground (arith, h.nodes);
  }

  -- Where memory and etcd hold the same and etcd takes the transactions, `RegisterNode` keeps them
  -- so, whether it succeeds or not.
  pub register_node-Mirrors : (addr : String) → Mirrors (register_node env addr w).0
  unfolding register_node require_leader alloc_uniq_id set_kvs etct_set_kvs apply_ops apply_op
      add_node
  register_node-Mirrors addr = record {
    streams = ground (arith, h.streams);
    extents = ground (arith, h.extents);
    nodes = added (etcd_alloc_uniq_id env.id_call 1 w.etcd.id_cell).1 refl;
  }
    where
      added :
          (r : Reply (ℕ × ℕ))
          → (etcd_alloc_uniq_id env.id_call 1 w.etcd.id_cell).1 ≡ r
          → node_infos (register_node env addr w).0.sm.nodes
            ≡ (register_node env addr w).0.etcd.kv_nodes
      added (done (id, end)) e =
          let n : NodeStatus = record {
            node_id = id;
            address = addr;
            usage = 0;
            last_echo = env.now;
          } in
          ground (arith, e, node_infos-insert id n w.sm.nodes, h.nodes)
      added refused e = ground (arith, e, h.nodes)
      added crashed e = ground (arith, e, h.nodes)
      added hung e = ground (arith, e, h.nodes)

  pub truncate-Mirrors : (stream_id extent_id : ℕ) → Mirrors (truncate env stream_id extent_id w).0
  unfolding truncate require_leader write_stream set_kvs etct_set_kvs apply_ops apply_op
  truncate-Mirrors sid eid = record {
    streams = ground (arith, h.streams);
    extents = ground (arith, h.extents);
    nodes = ground (arith, h.nodes);
  }
