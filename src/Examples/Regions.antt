-- ===== src/Examples/Regions.antt =====
-- The partition manager: a server registers twice.
use autumn.Prelude.{ℕ, ◌^◌, ◌<◌, ◌≡◌, refl, true, false, none, some, [], ◌∷◌, arith}
use autumn.Prelude.Assoc.{lookup}
use autumn.Manager.Handler.{done}
use autumn.Manager.EtcdOp.{IdCall, succeeded}
use autumn.Manager.EtcdOp.Ids.{IsAnswered}
use autumn.Manager.PartitionManager.{Env, World, register_ps}
use autumn.Manager.PartitionManager.Calls.{IsServed, register_ps-duplicate}

abbrev quiet : IdCall
quiet = record { read_fails = false; stale = none; write_lost = false; write_dropped = false }

abbrev env : Env
env = record { id_call = quiet; commit = succeeded }

-- A server with the ID 3, and no key for the next ID.
abbrev world : World
world = record {
  pm = record {
    ps_nodes = (3, record { ps_id = 3; address = "a:9" }) ∷ [];
    part_meta = [];
    is_leader = true;
  };
  etcd = record { kv_servers = []; kv_parts = []; id_cell = none };
}

quiet-IsAnswered : IsAnswered quiet
quiet-IsAnswered = record { reads = refl; writes = refl }

world-IsServed : (count : ℕ) → count < 2 ^ 63 → IsServed env world count
world-IsServed count h = record {
  leads = refl;
  answered = quiet-IsAnswered;
  alone = refl;
  long = refl;
  small = omega arith;
  commits = refl;
}

register_ps-duplicate_example :
    ((register_ps env "a:9" world).1 ≡ done 1)
    × (lookup 1 (register_ps env "a:9" world).0.pm.ps_nodes
        ≡ some (record { ps_id = 1; address = "a:9" }))
    × (lookup 3 (register_ps env "a:9" world).0.pm.ps_nodes
        ≡ some (record { ps_id = 3; address = "a:9" }))
register_ps-duplicate_example =
    register_ps-duplicate env world 3 "a:9" (world-IsServed 1 (omega arith)) refl refl refl
