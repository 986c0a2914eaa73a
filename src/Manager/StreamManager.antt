-- ===== src/Manager/StreamManager.antt =====
-- manager/streammanager/sm.go and sm_service.go: the stream manager's state and its handlers.
-- The locks make each access to a map atomic; a handler is run here with no other between.
pub mod Truncation
pub mod Guards
pub mod AllocExtent
pub mod Sealing
pub mod Persistence
pub mod Creation
pub mod History
pub mod Takeover
use autumn.Prelude.{
  ℕ, zero, suc, ◌+◌, ◌-◌, ◌%◌, ◌^◌, Bool, true, false, not, ◌&&◌, ◌||◌, String, Option, none, some,
  List, [], ◌∷◌, ◌++◌, map, ltb, leb, ◌==◌, if◌then◌else◌, length, drop,
}
use autumn.Prelude.Assoc.{lookup, insert}
use autumn.Manager.Handler.{
  Reply, done, refused, crashed, hung, Handler, pure, lift, gets, modify, refuse_if, ◌>>=◌, ◌>>◌,
}
use autumn.Manager.EtcdOp.{Commit, etct_set_kvs, IdCall, etcd_alloc_uniq_id}
use autumn.Manager.Policy.{NodeStatus, alloc_extent}
use text.Mathlib.Text.{◌==◌ as str_eq}

pub record StreamInfo : Type 0 where
  pub stream_id : ℕ
  pub extent_ids : List ℕ

pub record ExtentInfo : Type 0 where
  pub extent_id : ℕ
  pub replicates : List ℕ

pub record NodeInfo : Type 0 where
  pub node_id : ℕ
  pub address : String

pub record StreamManager : Type 0 where
  pub streams : List (ℕ × StreamInfo)
  pub extents : List (ℕ × ExtentInfo)
  pub nodes : List (ℕ × NodeStatus)
  pub is_leader : Bool

-- The keys "streams/ID", "extents/ID" and "nodes/ID", with their messages unmarshalled, and the key
-- of the next ID.
pub record Etcd : Type 0 where
  pub kv_streams : List (ℕ × StreamInfo)
  pub kv_extents : List (ℕ × ExtentInfo)
  pub kv_nodes : List (ℕ × NodeInfo)
  pub id_cell : Option (List ℕ)

pub record World : Type 0 where
  pub sm : StreamManager
  pub etcd : Etcd

-- clientv3.OpPut under the three kinds of keys.
pub data Op : Type 0 where
  put_stream : ℕ → StreamInfo → Op
  put_extent : ℕ → ExtentInfo → Op
  put_node : ℕ → NodeInfo → Op

unfoldable pub apply_op : Op → Etcd → Etcd
apply_op (put_stream id s) e = record e { kv_streams = insert id s e.kv_streams }
apply_op (put_extent id x) e = record e { kv_extents = insert id x e.kv_extents }
apply_op (put_node id n) e = record e { kv_nodes = insert id n e.kv_nodes }

unfoldable pub apply_ops : List Op → Etcd → Etcd
unfolding apply_op
apply_ops [] e = e
apply_ops (o ∷ os) e = apply_ops os (apply_op o e)

-- What one call meets outside the process: the ID key, each node's answer, whether this server is
-- still the leader after the calls to the nodes, the transaction, and the clock.
pub record Env : Type 0 where
  pub id_call : IdCall
  pub node_accepts : ℕ → Bool
  pub still_leader : Bool
  pub commit : Commit
  pub now : ℕ

abbrev pub M : Type 0 → Type 0
M A = Handler World A

unfoldable pub require_leader : M (Unit {0})
require_leader w = (w, if w.sm.is_leader then done tt else refused)

unfoldable pub alloc_uniq_id : Env → ℕ → M (ℕ × ℕ)
alloc_uniq_id env count w =
    let (cell, r) = etcd_alloc_uniq_id env.id_call count w.etcd.id_cell in
    (record w { etcd = record w.etcd { id_cell = cell } }, r)

unfoldable pub set_kvs : Env → List Op → M (Unit {0})
set_kvs env ops w =
    let (e, r) = etct_set_kvs env.commit (apply_ops ops) w.etcd in (record w { etcd = e }, r)

abbrev pub values {ℓ} : {V : Type ℓ} → List (ℕ × V) → List V
values [] = []
values ((k, v) ∷ m) = v ∷ values m

-- The order in which Go ranges over a map is arbitrary: it is that of the association list.
unfoldable pub clone_node_status : StreamManager → List NodeStatus
clone_node_status sm = values sm.nodes

unfoldable pub extract_node_id : List NodeStatus → List ℕ
extract_node_id [] = []
extract_node_id (n ∷ ns) = n.node_id ∷ extract_node_id ns

unfoldable pub count_accepts : Env → List NodeStatus → ℕ
count_accepts env [] = 0
count_accepts env (n ∷ ns) =
    let more = count_accepts env ns in if env.node_accepts n.node_id then suc more else more

-- `sendAllocToNodes`: three nodes must have made the extent, and the leadership must have lasted.
unfoldable pub send_alloc_to_nodes : Env → List NodeStatus → M (Unit {0})
send_alloc_to_nodes env nodes w =
    let leads = w.sm.is_leader && env.still_leader in
    (
      record w { sm = record w.sm { is_leader = leads } },
      if not (count_accepts env nodes == 3) || not leads then refused else done tt,
    )

abbrev add_to_stream : Option StreamInfo → ℕ → ℕ → StreamInfo
add_to_stream (some s) stream_id extent_id = record s {
  extent_ids = s.extent_ids ++ (extent_id ∷ []);
}
add_to_stream none stream_id extent_id = record {
  stream_id = stream_id;
  extent_ids = extent_id ∷ [];
}

unfoldable pub add_extent : ℕ → ExtentInfo → StreamManager → StreamManager
add_extent stream_id extent sm = record sm {
  streams =
      insert stream_id (add_to_stream (lookup stream_id sm.streams) stream_id extent.extent_id)
        sm.streams;
  extents = insert extent.extent_id extent sm.extents;
}

abbrev pub on_sm : (StreamManager → StreamManager) → World → World
on_sm f w = record w { sm = f w.sm }

-- `extentID := start + 1`, a uint64.
abbrev pub succ64 : ℕ → ℕ
succ64 n = (n + 1) % 2 ^ 64

unfoldable pub create_stream : Env → M StreamInfo
create_stream env = do
  require_leader
  (stream_id, _) ← alloc_uniq_id env 2
  w ← gets (λ w. w)
  nodes ← lift (alloc_extent (clone_node_status w.sm) 3 [])
  send_alloc_to_nodes env nodes
  let extent_id = succ64 stream_id
  let stream_info : StreamInfo = record { stream_id = stream_id; extent_ids = extent_id ∷ [] }
  let extent_info : ExtentInfo = record {
    extent_id = extent_id;
    replicates = extract_node_id nodes;
  }
  set_kvs env (put_stream stream_id stream_info ∷ put_extent extent_id extent_info ∷ [])
  modify (on_sm (add_extent stream_id extent_info))
  pure stream_info

unfoldable pub has_duplicate_addr : String → List (ℕ × NodeStatus) → Bool
has_duplicate_addr addr [] = false
has_duplicate_addr addr ((k, n) ∷ ns) =
    if str_eq n.address addr then true else has_duplicate_addr addr ns

unfoldable pub add_node : ℕ → ℕ → String → StreamManager → StreamManager
add_node now id addr sm = record sm {
  nodes = insert id (record { node_id = id; address = addr; usage = 0; last_echo = now }) sm.nodes;
}

unfoldable pub register_node : Env → String → M ℕ
register_node env addr = do
  require_leader
  w ← gets (λ w. w)
  refuse_if (has_duplicate_addr addr w.sm.nodes)
  (id, _) ← alloc_uniq_id env 1
  set_kvs env (put_node id (record { node_id = id; address = addr }) ∷ [])
  modify (on_sm (add_node env.now id addr))
  pure id

pub data Code : Type 0 where
  code_ok truncate_not_match : Code

-- `for i = range ids { if ids[i] == id { break } }`: without a match i ends at the last index.
unfoldable pub truncate_index : List ℕ → ℕ → ℕ
truncate_index [] id = 0
truncate_index (x ∷ []) id = 0
truncate_index (x ∷ y ∷ ids) id =
    let rest = truncate_index (y ∷ ids) id in if x == id then 0 else suc rest

unfoldable pub write_stream : Env → ℕ → StreamInfo → M Code
write_stream env stream_id info = do
  set_kvs env (put_stream stream_id info ∷ [])
  modify (on_sm (λ sm. record sm { streams = insert stream_id info sm.streams }))
  pure code_ok

abbrev pub truncate_stream : Env → ℕ → ℕ → Option StreamInfo → M Code
truncate_stream env stream_id extent_id none w = (w, done truncate_not_match)
truncate_stream env stream_id extent_id (some s) w =
    let i = truncate_index s.extent_ids extent_id in
    if i == 0
    then (w, done code_ok)
    else write_stream env stream_id
        (record { stream_id = stream_id; extent_ids = drop i s.extent_ids }) w

unfoldable pub truncate : Env → ℕ → ℕ → M Code
truncate env stream_id extent_id = do
  require_leader
  w ← gets (λ w. w)
  truncate_stream env stream_id extent_id (lookup stream_id w.sm.streams)
