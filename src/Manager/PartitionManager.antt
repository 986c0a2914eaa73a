-- ===== src/Manager/PartitionManager.antt =====
-- manager/partitionmanager/pm.go and pm_service.go: the partition manager's state and its handlers. The
-- locks make each access to a map atomic; a handler is run here with no other between.
pub mod Loading
pub mod Calls
use autumn.Prelude.{
  ℕ, ◌+◌, Bool, true, false, not, ◌&&◌, ◌||◌, String, Option, none, some, List, [], ◌∷◌, ◌++◌, ◌==◌,
  if◌then◌else◌, length,
}
use autumn.Prelude.Assoc.{lookup, insert}
use autumn.Manager.Handler.{
  Reply, done, refused, crashed, hung, Handler, pure, lift, gets, modify, refuse_if, ◌>>=◌, ◌>>◌,
}
use autumn.Manager.EtcdOp.{Commit, etct_set_kvs, IdCall, etcd_alloc_uniq_id}
use autumn.Manager.StreamManager.{values}
use text.Mathlib.Text.{◌==◌ as str_eq}

pub record Location : Type 0 where
  pub extent_id : ℕ
  pub offset : ℕ

pub record Range : Type 0 where
  pub start_key : List ℕ
  pub end_key : List ℕ

-- pspb.PartitionMeta. A field that was not read is Go's zero value.
pub record PartitionMeta : Type 0 where
  pub blobs : Option (List ℕ)
  pub log_stream : ℕ
  pub row_stream : ℕ
  pub locs : Option (List Location)
  pub discard : List ℕ
  pub parent : ℕ
  pub rg : Option Range
  pub part_id : ℕ

pub record PsDetail : Type 0 where
  pub ps_id : ℕ
  pub address : String

pub record PartitionManager : Type 0 where
  pub ps_nodes : List (ℕ × PsDetail)
  pub part_meta : List (ℕ × PartitionMeta)
  pub is_leader : Bool

-- The last part of a key "PART/ID/suffix" with its value unmarshalled. `unread` is an unknown suffix,
-- or a value that does not unmarshal.
pub data Field : Type 0 where
  blob_streams : List ℕ → Field
  log_id row_id parent_id : ℕ → Field
  table_locs : List Location → Field
  discards : List ℕ → Field
  key_range : Range → Field
  unread : Field

abbrev pub empty_meta : ℕ → PartitionMeta
empty_meta part_id = record {
  blobs = none;
  log_stream = 0;
  row_stream = 0;
  locs = none;
  discard = [];
  parent = 0;
  rg = none;
  part_id = part_id;
}

-- The switch of `parseParts`.
unfoldable pub set_field : Field → PartitionMeta → PartitionMeta
set_field (blob_streams b) m = record m { blobs = some b }
set_field (log_id i) m = record m { log_stream = i }
set_field (row_id i) m = record m { row_stream = i }
set_field (table_locs l) m = record m { locs = some l }
set_field (discards d) m = record m { discard = d }
set_field (parent_id i) m = record m { parent = i }
set_field (key_range r) m = record m { rg = some r }
set_field unread m = m

abbrev pub meta_or_empty : ℕ → Option PartitionMeta → PartitionMeta
meta_or_empty id none = empty_meta id
meta_or_empty id (some m) = m

-- The loop of `parseParts`, behind its `parse` of the key and the decoding of the value: none is a
-- key that does not parse.
unfoldable pub parse_loop :
    ℕ → List (ℕ × PartitionMeta) → List (Option (ℕ × Field)) → List (ℕ × PartitionMeta)
unfolding set_field
parse_loop last ret [] = ret
parse_loop last ret (none ∷ kvs) = parse_loop last ret kvs
parse_loop last ret (some (id, f) ∷ kvs) =
    let started = if id == last then ret else insert id (empty_meta id) ret in
    parse_loop id (insert id (set_field f (meta_or_empty id (lookup id started))) started) kvs

unfoldable pub parse_parts : List (Option (ℕ × Field)) → List (ℕ × PartitionMeta)
unfolding parse_loop
parse_parts kvs = parse_loop 0 [] kvs

-- The keys "PSSERVER/ID" and "PART/ID/suffix", and the key of the next ID.
pub record Etcd : Type 0 where
  pub kv_servers : List (ℕ × PsDetail)
  pub kv_parts : List (ℕ × Field)
  pub id_cell : Option (List ℕ)

pub record World : Type 0 where
  pub pm : PartitionManager
  pub etcd : Etcd

pub record Env : Type 0 where
  pub id_call : IdCall
  pub commit : Commit

abbrev pub M : Type 0 → Type 0
M A = Handler World A

unfoldable pub require_leader : M (Unit {0})
require_leader w = (w, if w.pm.is_leader then done tt else refused)

unfoldable pub alloc_uniq_id : Env → ℕ → M (ℕ × ℕ)
alloc_uniq_id env count w =
    let (cell, r) = etcd_alloc_uniq_id env.id_call count w.etcd.id_cell in
    (record w { etcd = record w.etcd { id_cell = cell } }, r)

unfoldable pub set_kvs : Env → (Etcd → Etcd) → M (Unit {0})
set_kvs env puts w = let (e, r) = etct_set_kvs env.commit puts w.etcd in (record w { etcd = e }, r)

abbrev pub on_pm : (PartitionManager → PartitionManager) → World → World
on_pm f w = record w { pm = f w.pm }

-- The suffixes, numbered, and clientv3.OpPut under a partition's key.
abbrev pub suffix : Field → ℕ
suffix (blob_streams b) = 0
suffix (log_id i) = 1
suffix (row_id i) = 2
suffix (table_locs l) = 3
suffix (discards d) = 4
suffix (parent_id i) = 5
suffix (key_range r) = 6
suffix unread = 7

unfoldable pub put_part : ℕ → Field → List (ℕ × Field) → List (ℕ × Field)
put_part id f [] = (id, f) ∷ []
put_part id f ((k, g) ∷ kvs) =
    if suffix g == suffix f && k == id then (id, f) ∷ kvs else (k, g) ∷ put_part id f kvs

unfoldable pub put_parts : ℕ → List Field → List (ℕ × Field) → List (ℕ × Field)
put_parts id [] kvs = kvs
put_parts id (f ∷ fs) kvs = put_parts id fs (put_part id f kvs)

abbrev pub puts_parts : ℕ → List Field → Etcd → Etcd
puts_parts id fs e = record e { kv_parts = put_parts id fs e.kv_parts }

-- `RegisterPS`: `hasDup` is never set, so the loop over the addresses has no effect.
unfoldable pub register_ps : Env → String → M ℕ
register_ps env addr = do
  require_leader
  refuse_if (str_eq addr "")
  (id, _) ← alloc_uniq_id env 1
  let detail : PsDetail = record { ps_id = id; address = addr }
  set_kvs env (λ e. record e { kv_servers = insert id detail e.kv_servers })
  modify (on_pm (λ pm. record pm { ps_nodes = insert id detail pm.ps_nodes }))
  pure id

abbrev pub whole_range : Range
whole_range = record { start_key = []; end_key = [] }

-- The values of the four keys, before they are encoded.
abbrev pub boot_fields : ℕ → ℕ → ℕ → List Field
boot_fields log row parent = log_id log ∷ row_id row ∷ parent_id parent ∷ key_range whole_range ∷ []

-- The error of `EtctSetKVS` is not looked at, but its panic ends the process.
abbrev pub past_error : Reply (Unit {0}) → Reply (Unit {0})
past_error refused = done tt
past_error r = r

unfoldable pub bootstrap : Env → ℕ → ℕ → ℕ → M ℕ
bootstrap env log row parent = do
  require_leader
  (id, _) ← alloc_uniq_id env 2
  (λ w.
      let (w', r) = set_kvs env (puts_parts id (boot_fields log row parent)) w in
      (w', past_error r))
  modify (
      on_pm (λ pm. record pm {
        part_meta =
            insert id
              (record (empty_meta id) {
                log_stream = log;
                row_stream = row;
                parent = parent;
                rg = some whole_range;
              })
              pm.part_meta;
      }))
  pure id

-- `SetRowStreamTables` writes etcd first, and then dereferences what the map has for the partition.
abbrev pub set_locs : ℕ → List Location → Option PartitionMeta → M (Unit {0})
set_locs id locs none = lift crashed
set_locs id locs (some m) =
    modify (
      on_pm
        (λ pm. record pm { part_meta = insert id (record m { locs = some locs }) pm.part_meta }))

unfoldable pub set_row_stream_tables : Env → ℕ → List Location → M (Unit {0})
set_row_stream_tables env id locs = do
  require_leader
  refuse_if (length locs == 0 || id == 0)
  set_kvs env (puts_parts id (table_locs locs ∷ []))
  w ← gets (λ w. w)
  set_locs id locs (lookup id w.pm.part_meta)

unfoldable pub of_server : ℕ → List PartitionMeta → List PartitionMeta
of_server ps_id [] = []
of_server ps_id (m ∷ ms) = if m.parent == ps_id then m ∷ of_server ps_id ms else of_server ps_id ms

-- `GetPartitionMeta`, `GetPSInfo` and `GetRegions`; the order of a map is that of its list.
unfoldable pub get_partition_meta : ℕ → M (List PartitionMeta)
get_partition_meta ps_id = do
  require_leader
  w ← gets (λ w. w)
  pure (of_server ps_id (values w.pm.part_meta))

unfoldable pub get_ps_info : M (List PsDetail)
get_ps_info = do require_leader; w ← gets (λ w. w); pure (values w.pm.ps_nodes)

pub record RegionInfo : Type 0 where
  pub rg : Range
  pub part_id : ℕ
  pub ps_id : ℕ
  pub addr : String

-- A partition without a range fails the assertion; one whose server is not known is left out.
abbrev pub region : ℕ → PartitionMeta → Range → Option PsDetail → List RegionInfo
region id m rg none = []
region id m rg (some d) = record { rg = rg; part_id = id; ps_id = m.parent; addr = d.address } ∷ []

unfoldable pub regions : List (ℕ × PsDetail) → List (ℕ × PartitionMeta) → Reply (List RegionInfo)
regions servers [] = done []
regions servers ((id, m) ∷ ms) = elim m.rg [
  | none ↦ crashed
  | some rg ↦ elim (regions servers ms) [
    | done more ↦ done (region id m rg (lookup m.parent servers) ++ more)
    | refused ↦ refused
    | crashed ↦ crashed
    | hung ↦ hung
  ]
]

unfoldable pub get_regions : M (List RegionInfo)
get_regions = do require_leader; w ← gets (λ w. w); lift (regions w.pm.ps_nodes w.pm.part_meta)

-- The loop of `runAsLeader` over the servers, which ends at a key or a value that is not readable.
unfoldable pub load_servers :
    List (Option (ℕ × PsDetail)) → List (ℕ × PsDetail) → List (ℕ × PsDetail) × Bool
load_servers [] ret = (ret, true)
load_servers (none ∷ kvs) ret = (ret, false)
load_servers (some (id, d) ∷ kvs) ret = load_servers kvs (insert id d ret)

-- `runAsLeader`, on what etcd returns for the two ranges of keys: none is an error.
unfoldable pub run_as_leader :
    Option (List (Option (ℕ × PsDetail)))
    → Option (List (Option (ℕ × Field)))
    → PartitionManager
    → PartitionManager
run_as_leader none parts pm = pm
run_as_leader (some servers) parts pm =
    let (nodes, whole) = load_servers servers [] in
    if not whole then record pm { ps_nodes = nodes } else elim parts [
      | none ↦ record pm { ps_nodes = nodes }
      | some kvs ↦ record { ps_nodes = nodes; part_meta = parse_parts kvs; is_leader = true }
    ]
