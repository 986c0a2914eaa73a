-- ===== src/Examples/Streams.antt =====
-- The stream manager's theorems at concrete states.
use autumn.Prelude.{
  ℕ, ◌+◌, ◌≡◌, refl, ap, true, false, none, some, List, [], ◌∷◌, arith, ◌==◌, if◌then◌else◌,
}
use autumn.Prelude.Assoc.{lookup}
use autumn.Prelude.Bytes.{uint32, uint64}
use autumn.Manager.Handler.{done, hung}
use autumn.Manager.EtcdOp.{IdCall, Commit, succeeded, compare_failed, current, etcd_alloc_uniq_id}
use autumn.Manager.EtcdOp.Ids.{IsAnswered, alloc_in_turn}
use autumn.Manager.Policy.{NodeStatus, less, insert_node, sort_nodes, pick, alloc_extent}
use autumn.Manager.StreamManager.{
  StreamInfo, ExtentInfo, NodeInfo, World, Env, code_ok, clone_node_status, count_accepts,
  create_stream, truncate,
}
use autumn.Manager.StreamManager.Truncation.{extents_of, truncate-match, truncate-absent}
use autumn.Manager.StreamManager.AllocExtent.{nodes_of, stream_alloc_extent}
use autumn.Manager.StreamManager.Sealing.{stream_alloc_extent-hung}
use autumn.Manager.StreamManager.Persistence.{Mirrors}
use autumn.Manager.StreamManager.Creation.{
  IsServed, new_stream, stored_stream, stored_extent, create_stream-created, create_stream-deposed,
}
use autumn.Manager.StreamManager.History.{
  Call, create, register, truncate_at, run_calls, IsQuiet, IsConsistent, run_calls-IsConsistent,
}
use autumn.Manager.StreamManager.Takeover.{ranged, node_at, run_as_leader, run_as_leader-lookup}
use autumn.Utils.SafeMutex.{SafeMutex, free, lock, r_lock}

-- A call of `EtcdAllocUniqID` that meets no error and no rival, and one that read too early.
abbrev clear : IdCall
clear = record { read_fails = false; stale = none; write_lost = false; write_dropped = false }

abbrev late : IdCall
late = record clear { stale = some none }

clear-IsAnswered : IsAnswered clear
clear-IsAnswered = record { reads = refl; writes = refl }

late-IsAnswered : IsAnswered late
late-IsAnswered = record { reads = refl; writes = refl }

alloc_in_turn_example :
    ((etcd_alloc_uniq_id clear 2 none).1 ≡ done (1, 3))
    × ((etcd_alloc_uniq_id clear 5 (etcd_alloc_uniq_id clear 2 none).0).1 ≡ done (3, 8))
alloc_in_turn_example =
    alloc_in_turn clear clear 2 5 none clear-IsAnswered clear-IsAnswered refl refl refl
      (omega arith)

-- Three nodes, the second with the least usage.
abbrev node : ℕ → ℕ → NodeStatus
node id usage = record { node_id = id; address = ""; usage = usage; last_echo = 0 }

abbrev three_nodes : List NodeStatus
three_nodes = node 11 5 ∷ node 12 3 ∷ node 13 4 ∷ []

-- A leader with these nodes and one stream of three extents, and 20 as the next ID.
abbrev stream : StreamInfo
stream = record { stream_id = 1; extent_ids = 2 ∷ 3 ∷ 4 ∷ [] }

abbrev extent : ExtentInfo
extent = record { extent_id = 4; replicates = 12 ∷ 13 ∷ [] }

abbrev info : ℕ → NodeInfo
info id = record { node_id = id; address = "" }

abbrev world : World
world = record {
  sm = record {
    streams = (1, stream) ∷ [];
    extents = (4, extent) ∷ [];
    nodes = (11, node 11 5) ∷ (12, node 12 3) ∷ (13, node 13 4) ∷ [];
    is_leader = true;
  };
  etcd = record {
    kv_streams = (1, stream) ∷ [];
    kv_extents = (4, extent) ∷ [];
    kv_nodes = (11, info 11) ∷ (12, info 12) ∷ (13, info 13) ∷ [];
    id_cell = some (0 ∷ 0 ∷ 0 ∷ 0 ∷ 0 ∷ 0 ∷ 0 ∷ 20 ∷ []);
  };
}

abbrev follower : World
follower = record world { sm = record world.sm { is_leader = false } }

abbrev env : Commit → Env
env commit = record {
  id_call = clear;
  node_accepts = λ id. true;
  still_leader = true;
  commit = commit;
  now = 9;
}

world-id : current world.etcd.id_cell ≡ 20
unfolding uint64 uint32
world-id = refl

world-Mirrors : Mirrors world
world-Mirrors = record { streams = refl; extents = refl; nodes = refl }

no_stream_20 : lookup (current world.etcd.id_cell) world.sm.streams ≡ none
no_stream_20 = ap (λ k. lookup k world.sm.streams) world-id

-- The nodes in the order of their usage.
abbrev chosen : List NodeStatus
chosen = node 12 3 ∷ node 13 4 ∷ node 11 5 ∷ []

served : (c : Commit) → IsServed (env c) world chosen
unfolding alloc_extent sort_nodes insert_node less pick count_accepts clone_node_status
served c = record {
  leads = refl;
  stays = refl;
  answered = clear-IsAnswered;
  alone = refl;
  long = refl;
  small = omega (arith, world-id);
  chosen = refl;
  accepted = refl;
}

create_stream-created_example :
    ((create_stream (env succeeded) world).1
      ≡ done (new_stream (env succeeded) world chosen (served succeeded)))
    × (lookup 20 (create_stream (env succeeded) world).0.sm.streams
        ≡ stored_stream (env succeeded) world chosen (served succeeded) 20 world.sm.streams)
    × (lookup 20 (create_stream (env succeeded) world).0.sm.extents
        ≡ stored_extent (env succeeded) world chosen (served succeeded) 20 world.sm.extents)
    × (lookup 20 (create_stream (env succeeded) world).0.etcd.kv_streams
        ≡ stored_stream (env succeeded) world chosen (served succeeded) 20 world.etcd.kv_streams)
    × (lookup 20 (create_stream (env succeeded) world).0.etcd.kv_extents
        ≡ stored_extent (env succeeded) world chosen (served succeeded) 20 world.etcd.kv_extents)
    × (current (create_stream (env succeeded) world).0.etcd.id_cell
        ≡ current world.etcd.id_cell + 2)
create_stream-created_example =
    create_stream-created (env succeeded) world chosen (served succeeded) 20 refl no_stream_20

create_stream-deposed_example :
    ((create_stream (env compare_failed) world).1
      ≡ done (new_stream (env compare_failed) world chosen (served compare_failed)))
    × (lookup (current world.etcd.id_cell) (create_stream (env compare_failed) world).0.sm.streams
        ≡ some (new_stream (env compare_failed) world chosen (served compare_failed)))
    × ((create_stream (env compare_failed) world).0.etcd.kv_streams ≡ world.etcd.kv_streams)
    × ((create_stream (env compare_failed) world).0.etcd.kv_extents ≡ world.etcd.kv_extents)
create_stream-deposed_example =
    create_stream-deposed (env compare_failed) world chosen (served compare_failed) refl
      no_stream_20

truncate-match_example :
    ((truncate (env succeeded) 1 3 world).1 ≡ done code_ok)
    × ((j : ℕ)
        → extents_of j (truncate (env succeeded) 1 3 world).0.sm
          ≡ (if 1 == j then some (3 ∷ 4 ∷ []) else extents_of j world.sm))
truncate-match_example =
    truncate-match (env succeeded) 1 3 stream world refl refl refl (2 ∷ []) (4 ∷ []) refl
      (λ e. absurd (omega (arith, e)), tt)

truncate-absent_example :
    ((truncate (env succeeded) 1 9 world).1 ≡ done code_ok)
    × ((j : ℕ)
        → extents_of j (truncate (env succeeded) 1 9 world).0.sm
          ≡ (if 1 == j then some (4 ∷ []) else extents_of j world.sm))
truncate-absent_example =
    truncate-absent (env succeeded) 1 9 stream world refl refl refl (2 ∷ 3 ∷ []) 4 refl (
      λ e. absurd (omega (arith, e)),
      (λ e. absurd (omega (arith, e)), (λ e. absurd (omega (arith, e)), tt)),
    )

stream_alloc_extent-hung_example :
    stream_alloc_extent (env succeeded) (λ id. 512) 1 4 world ≡ (world, hung)
stream_alloc_extent-hung_example =
    stream_alloc_extent-hung (env succeeded) (λ id. 512) 1 4 world stream extent
      (node 12 3 ∷ node 13 4 ∷ []) refl refl refl refl (unfold nodes_of in refl) (omega arith)

-- Three calls: the second finds etcd's ID key unreadable.
abbrev calls : List (Env × Call)
calls =
    (env succeeded, create)
    ∷ (record (env succeeded) { id_call = record clear { read_fails = true } }, register "n4")
    ∷ (env succeeded, truncate_at 1 3)
    ∷ []

world-IsConsistent : IsConsistent world
world-IsConsistent = record {
  mirrors = world-Mirrors;
  fresh = λ j above. ground (arith, world-id, above);
  long = refl;
}

run_calls-IsConsistent_example : IsConsistent (run_calls calls world)
run_calls-IsConsistent_example =
    run_calls-IsConsistent calls world (quiet, (failed_read, (quiet, tt))) (omega (arith, world-id))
      world-IsConsistent
  where
    quiet : IsQuiet (env succeeded)
    quiet = record { commits = refl; alone = refl }

    failed_read : IsQuiet (record (env succeeded) { id_call = record clear { read_fails = true } })
    failed_read = record { commits = refl; alone = refl }

run_as_leader-lookup_example :
    ((run_as_leader
        (ranged world.etcd.kv_streams)
        (ranged world.etcd.kv_extents)
        (ranged world.etcd.kv_nodes)
        follower.sm).is_leader
      ≡ true)
    × (lookup 1
          (run_as_leader
            (ranged world.etcd.kv_streams)
            (ranged world.etcd.kv_extents)
            (ranged world.etcd.kv_nodes)
            follower.sm).streams
        ≡ lookup 1 world.etcd.kv_streams)
    × (lookup 1
          (run_as_leader
            (ranged world.etcd.kv_streams)
            (ranged world.etcd.kv_extents)
            (ranged world.etcd.kv_nodes)
            follower.sm).extents
        ≡ lookup 1 world.etcd.kv_extents)
    × (lookup 1
          (run_as_leader
            (ranged world.etcd.kv_streams)
            (ranged world.etcd.kv_extents)
            (ranged world.etcd.kv_nodes)
            follower.sm).nodes
        ≡ node_at (lookup 1 world.etcd.kv_nodes))
run_as_leader-lookup_example =
    run_as_leader-lookup world.etcd follower.sm 1 (refl, tt) (refl, tt) (refl, (refl, (refl, tt)))

abbrev write_held : SafeMutex
write_held = record { writer = 1; readers = 0 }

abbrev read_held : SafeMutex
read_held = record { writer = 0; readers = 1 }

free-lock : lock free ≡ done write_held
unfolding lock
free-lock = refl

free-r_lock : r_lock free ≡ done read_held
unfolding r_lock
free-r_lock = refl
