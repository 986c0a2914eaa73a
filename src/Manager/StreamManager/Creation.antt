-- ===== src/Manager/StreamManager/Creation.antt =====
-- `CreateStream` when the calls that it makes succeed.
use autumn.Prelude.{
  ℕ, ◌+◌, ◌^◌, ◌%◌, ◌<◌, ◌≡◌, true, false, Option, none, some, List, [], ◌∷◌, arith, ◌==◌,
  if◌then◌else◌,
}
use autumn.Prelude.Assoc.{lookup, lookup-insert}
use autumn.Prelude.Bytes.{put_uint64}
use autumn.Manager.Handler.{done}
use autumn.Manager.EtcdOp.{succeeded, compare_failed, current, too_short, etct_set_kvs}
use autumn.Manager.EtcdOp.Ids.{IsAnswered, alloc_alone, current-put_uint64}
use autumn.Manager.Policy.{NodeStatus, alloc_extent}
use autumn.Manager.StreamManager.{
  StreamInfo, ExtentInfo, Etcd, World, Op, Env, require_leader, alloc_uniq_id, set_kvs, apply_op,
  apply_ops, clone_node_status, extract_node_id, count_accepts, send_alloc_to_nodes, add_extent,
  create_stream, put_stream, put_extent,
}

-- The calls that come before the transaction go well: the server leads and stays the leader, the ID
-- key is read and written with no rival, the policy finds the nodes `ns`, and three accept.
pub record IsServed (env : Env) (w : World) (ns : List NodeStatus) : Type 0 where
  pub leads : w.sm.is_leader ≡ true
  pub stays : env.still_leader ≡ true
  pub answered : IsAnswered env.id_call
  pub alone : env.id_call.stale ≡ none
  pub long : too_short w.etcd.id_cell ≡ false
  pub small : current w.etcd.id_cell + 2 < 2 ^ 64
  pub chosen : alloc_extent (clone_node_status w.sm) 3 [] ≡ done ns
  pub accepted : count_accepts env ns ≡ 3

module _ (env : Env) (w : World) (ns : List NodeStatus) (h : IsServed env w ns) where
  pub new_stream : StreamInfo
  new_stream = record {
    stream_id = current w.etcd.id_cell;
    extent_ids = (current w.etcd.id_cell + 1) ∷ [];
  }

  pub new_extent : ExtentInfo
  new_extent = record { extent_id = current w.etcd.id_cell + 1; replicates = extract_node_id ns }

  keys : List Op
  keys =
      put_stream (current w.etcd.id_cell) new_stream
      ∷ put_extent (current w.etcd.id_cell + 1) new_extent
      ∷ []

  -- etcd behind the allocation of the IDs.
  numbered : Etcd
  numbered = record w.etcd { id_cell = some (put_uint64 (current w.etcd.id_cell + 2)) }

  -- The call comes down to its transaction.
  run :
      (etcd' : Etcd)
      → etct_set_kvs env.commit (apply_ops keys) numbered ≡ (etcd', done tt)
      → create_stream env w ≡ (
        record { sm = add_extent (current w.etcd.id_cell) new_extent w.sm; etcd = etcd' },
        done new_stream,
      )
  unfolding create_stream require_leader alloc_uniq_id send_alloc_to_nodes set_kvs new_stream
      new_extent keys numbered
  run etcd' e =
      let m : (current w.etcd.id_cell + 1) % 2 ^ 64 ≡ current w.etcd.id_cell + 1 =
        omega (arith, h.small) in
      ground (
        arith,
        h.leads,
        h.stays,
        h.chosen,
        h.accepted,
        alloc_alone env.id_call 2 w.etcd.id_cell h.answered h.alone h.long h.small,
        m,
        e,
      )

  -- The stream and its extent that the reply and the transaction name, in one map.
  abbrev pub stored_stream : ℕ → List (ℕ × StreamInfo) → Option StreamInfo
  stored_stream j m = if current w.etcd.id_cell == j then some new_stream else lookup j m

  abbrev pub stored_extent : ℕ → List (ℕ × ExtentInfo) → Option ExtentInfo
  stored_extent j m = if current w.etcd.id_cell + 1 == j then some new_extent else lookup j m

  -- Where the server leads and stays the leader, the ID key is read and written with no rival and
  -- the IDs stay below 2^64, the policy finds nodes of which three accept, the transaction is made,
  -- and no stream has the next ID, `CreateStream` replies with the new stream; memory and etcd then
  -- hold, under every ID `j`, the new stream and its extent under their own IDs and what they held
  -- before under all others; and the next ID is two further.
  pub create_stream-created :
      (j : ℕ)
      → env.commit ≡ succeeded
      → lookup (current w.etcd.id_cell) w.sm.streams ≡ none
      → ((create_stream env w).1 ≡ done new_stream)
        × (lookup j (create_stream env w).0.sm.streams ≡ stored_stream j w.sm.streams)
        × (lookup j (create_stream env w).0.sm.extents ≡ stored_extent j w.sm.extents)
        × (lookup j (create_stream env w).0.etcd.kv_streams ≡ stored_stream j w.etcd.kv_streams)
        × (lookup j (create_stream env w).0.etcd.kv_extents ≡ stored_extent j w.etcd.kv_extents)
        × (current (create_stream env w).0.etcd.id_cell ≡ current w.etcd.id_cell + 2)
  unfolding etct_set_kvs apply_ops apply_op add_extent keys numbered new_stream new_extent
  create_stream-created j commits free =
      let r = run (apply_ops keys numbered) (ground (arith, commits)) in
      let id = current w.etcd.id_cell in
      let streams = lookup-insert id j new_stream w.sm.streams in
      let kv_streams = lookup-insert id j new_stream w.etcd.kv_streams in
      let extents = lookup-insert (id + 1) j new_extent w.sm.extents in
      let kv_extents = lookup-insert (id + 1) j new_extent w.etcd.kv_extents in
      let next = current-put_uint64 (id + 2) h.small in
      (
        ground (arith, r),
        ground (arith, r, free, streams),
        ground (arith, r, extents),
        ground (arith, r, kv_streams),
        ground (arith, r, kv_extents),
        ground (arith, r, next),
      )

  -- Where the server leads, the ID key is read and written with no rival and the IDs stay below
  -- 2^64, the policy finds nodes of which three accept, and no stream has the next ID, but the
  -- comparison of the transaction fails, `CreateStream` replies with the new stream all the same:
  -- memory holds the stream, and the streams and the extents in etcd are as before.
  pub create_stream-deposed :
      env.commit ≡ compare_failed
      → lookup (current w.etcd.id_cell) w.sm.streams ≡ none
      → ((create_stream env w).1 ≡ done new_stream)
        × (lookup (current w.etcd.id_cell) (create_stream env w).0.sm.streams ≡ some new_stream)
        × ((create_stream env w).0.etcd.kv_streams ≡ w.etcd.kv_streams)
        × ((create_stream env w).0.etcd.kv_extents ≡ w.etcd.kv_extents)
  unfolding etct_set_kvs add_extent numbered new_stream new_extent
  create_stream-deposed deposed free =
      let r = run numbered (ground (arith, deposed)) in
      let id = current w.etcd.id_cell in
      let streams = lookup-insert id id new_stream w.sm.streams in
      (ground (arith, r), ground (arith, r, free, streams), ground (arith, r), ground (arith, r))
