-- ===== src/Manager/StreamManager/Takeover.antt =====
-- `runAsLeader` of sm.go: a server that is elected loads the maps from etcd.
use autumn.Prelude.{
  ℕ, ◌≡◌, refl, sym, ap, ◌∙◌, Bool, true, false, Bool-cases, inl, inr, Option, none, some, List, [],
  ◌∷◌, arith, ◌==◌, if◌then◌else◌, map,
}
use autumn.Prelude.Assoc.{lookup, insert, lookup-insert}
use autumn.Manager.Policy.{NodeStatus}
use autumn.Manager.StreamManager.{StreamInfo, ExtentInfo, NodeInfo, StreamManager, Etcd}

-- What EtcdRange returns: nothing on an error, or the pairs, `none` for one whose key or message
-- cannot be parsed.
abbrev pub Ranged {ℓ} : Type ℓ → Type ℓ
Ranged V = Option (List (Option (ℕ × V)))

-- A loop over the pairs: the map that it fills, and whether it came to the end.
unfoldable pub load {ℓ} : {V : Type ℓ} → List (Option (ℕ × V)) → List (ℕ × V) → List (ℕ × V) × Bool
load [] m = (m, true)
load (none ∷ kvs) m = (m, false)
load (some (k, v) ∷ kvs) m = load kvs (insert k v m)

abbrev pub loaded_node : NodeInfo → NodeStatus
loaded_node n = record { node_id = n.node_id; address = n.address; usage = 0; last_echo = 0 }

abbrev pub load_node : Option (ℕ × NodeInfo) → Option (ℕ × NodeStatus)
load_node none = none
load_node (some (k, n)) = some (k, loaded_node n)

unfoldable pub load_nodes : Ranged NodeInfo → StreamManager → StreamManager
unfolding load
load_nodes none sm = record sm { nodes = [] }
load_nodes (some kvs) sm =
    let (nodes, whole) = load (map load_node kvs) [] in
    if whole then record sm { nodes = nodes; is_leader = true } else record sm { nodes = nodes }

unfoldable pub load_extent_map : Ranged ExtentInfo → Ranged NodeInfo → StreamManager → StreamManager
unfolding load load_nodes
load_extent_map none nodes sm = sm
load_extent_map (some kvs) nodes sm =
    let (extents, whole) = load kvs [] in
    let sm' : StreamManager = record sm { extents = extents } in
    let rest = load_nodes nodes sm' in if whole then rest else sm'

unfoldable pub run_as_leader :
    Ranged StreamInfo → Ranged ExtentInfo → Ranged NodeInfo → StreamManager → StreamManager
unfolding load load_extent_map
run_as_leader none extents nodes sm = sm
run_as_leader (some kvs) extents nodes sm =
    let (streams, whole) = load kvs [] in
    let sm' : StreamManager = record sm { streams = streams } in
    let rest = load_extent_map extents nodes sm' in if whole then rest else sm'

-- etcd answers with all pairs.
abbrev pub ranged {ℓ} : {V : Type ℓ} → List (ℕ × V) → Ranged V
ranged kvs = some (map some kvs)

-- No key twice, as in etcd.
abbrev pub IsUnique {ℓ} : {V : Type ℓ} → List (ℕ × V) → Type ℓ
IsUnique [] = Unit
IsUnique ((k, v) ∷ kvs) = (lookup k kvs ≡ none) × IsUnique kvs

abbrev or_else {ℓ} : {V : Type ℓ} → Option V → Option V → Option V
or_else (some v) o = some v
or_else none o = o

first_of {ℓ} :
    {V : Type ℓ} (k j : ℕ) (v : V) (kvs m : List (ℕ × V))
    → lookup k kvs ≡ none
    → or_else (lookup j kvs) (if k == j then some v else lookup j m)
      ≡ or_else (lookup j ((k, v) ∷ kvs)) (lookup j m)
first_of k j v kvs m h = elim (Bool-cases (k == j)) [
  | inl same ↦
      let k_j : k ≡ j = ground (arith, same) in
      let absent : lookup j kvs ≡ none = ap (λ i. lookup i kvs) (sym k_j) ∙ h in
      ground (arith, same, absent)
  | inr other ↦ ground (arith, other)
]

load-ranged {ℓ} :
    {V : Type ℓ} (kvs m : List (ℕ × V))
    → ((j : ℕ)
        → IsUnique kvs
        → lookup j (load (map some kvs) m).0 ≡ or_else (lookup j kvs) (lookup j m))
      × ((load (map some kvs) m).1 ≡ true)
unfolding load
load-ranged [] m = (λ j h. refl, refl)
load-ranged ((k, v) ∷ kvs) m =
    let (found, whole) = load-ranged kvs (insert k v m) in
    (
      λ j h.
          found j h.1
          ∙ ap (or_else (lookup j kvs)) (lookup-insert k j v m)
          ∙ first_of k j v kvs m h.0,
      whole,
    )

or_else-none {ℓ} : {V : Type ℓ} (o : Option V) → or_else o none ≡ o
or_else-none none = refl
or_else-none (some v) = refl

loaded : List (ℕ × NodeInfo) → List (ℕ × NodeStatus)
loaded [] = []
loaded ((k, n) ∷ kvs) = (k, loaded_node n) ∷ loaded kvs

-- A node with the ID and the address that etcd has, no usage and no echo.
abbrev pub node_at : Option NodeInfo → Option NodeStatus
node_at none = none
node_at (some n) =
    some (record { node_id = n.node_id; address = n.address; usage = 0; last_echo = 0 })

lookup-loaded : (j : ℕ) (kvs : List (ℕ × NodeInfo)) → lookup j (loaded kvs) ≡ node_at (lookup j kvs)
unfolding loaded
lookup-loaded j [] = refl
lookup-loaded j ((k, n) ∷ kvs) = ground (arith, lookup-loaded j kvs)

loaded-IsUnique : (kvs : List (ℕ × NodeInfo)) → IsUnique kvs → IsUnique (loaded kvs)
unfolding loaded
loaded-IsUnique [] h = tt
loaded-IsUnique ((k, n) ∷ kvs) (h, hs) =
    (lookup-loaded k kvs ∙ ap node_at h, loaded-IsUnique kvs hs)

map-load_node : (kvs : List (ℕ × NodeInfo)) → map load_node (map some kvs) ≡ map some (loaded kvs)
unfolding loaded
map-load_node [] = refl
map-load_node ((k, n) ∷ kvs) = ap (λ t. some (k, loaded_node n) ∷ t) (map-load_node kvs)

-- A server that is elected, and to which etcd answers with all its streams, extents and nodes, no
-- key twice, becomes the leader and then has under every ID `j` the stream, the extent and the node
-- that etcd has, whatever it had before; a node has the ID and the address of etcd's, no usage and
-- no echo yet.
pub run_as_leader-lookup :
    (e : Etcd) (sm : StreamManager) (j : ℕ)
    → IsUnique e.kv_streams
    → IsUnique e.kv_extents
    → IsUnique e.kv_nodes
    → ((run_as_leader (ranged e.kv_streams) (ranged e.kv_extents) (ranged e.kv_nodes) sm).is_leader
        ≡ true)
      × (lookup j
            (run_as_leader
              (ranged e.kv_streams)
              (ranged e.kv_extents)
              (ranged e.kv_nodes)
              sm).streams
          ≡ lookup j e.kv_streams)
      × (lookup j
            (run_as_leader
              (ranged e.kv_streams)
              (ranged e.kv_extents)
              (ranged e.kv_nodes)
              sm).extents
          ≡ lookup j e.kv_extents)
      × (lookup j
            (run_as_leader (ranged e.kv_streams) (ranged e.kv_extents) (ranged e.kv_nodes) sm).nodes
          ≡ node_at (lookup j e.kv_nodes))
unfolding run_as_leader load_extent_map load_nodes
run_as_leader-lookup e sm j hs hx hn =
    let (s, s_all) = load-ranged e.kv_streams [] in
    let (x, x_all) = load-ranged e.kv_extents [] in
    let (n, n_all) = load-ranged (loaded e.kv_nodes) [] in
    let nodes = map-load_node e.kv_nodes in
    let at = s j hs ∙ or_else-none (lookup j e.kv_streams) in
    let xt = x j hx ∙ or_else-none (lookup j e.kv_extents) in
    let nt =
      n j (loaded-IsUnique e.kv_nodes hn)
      ∙ or_else-none (lookup j (loaded e.kv_nodes))
      ∙ lookup-loaded j e.kv_nodes in
    (
      ground (arith, s_all, x_all, nodes, n_all),
      ground (arith, s_all, x_all, nodes, n_all, at),
      ground (arith, s_all, x_all, nodes, n_all, xt),
      ground (arith, s_all, x_all, nodes, n_all, nt),
    )
