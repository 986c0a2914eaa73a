-- ===== src/Manager/Policy.antt =====
-- manager/streammanager/policy.go: the choice of the nodes for a new extent.
pub mod Choice
use autumn.Prelude.{
  ℕ, zero, suc, Bool, true, false, not, String, Option, none, some, List, [], ◌∷◌, ◌++◌, ltb, ◌==◌,
  if◌then◌else◌, length, get_elem?,
}
use autumn.Manager.Handler.{Reply, done, refused, crashed}

-- `usage` is a float64 that is only compared: numbers stand for it. So do they for times.
pub record NodeStatus : Type 0 where
  pub node_id : ℕ
  pub address : String
  pub usage : ℕ
  pub last_echo : ℕ

-- The comparison of sort.Slice: the latest echo first, then the least usage.
unfoldable pub less : NodeStatus → NodeStatus → Bool
less a b =
    if ltb b.last_echo a.last_echo
    then true
    else if ltb a.last_echo b.last_echo
    then false
    else ltb a.usage b.usage

-- sort.Slice, as an insertion sort.
unfoldable pub insert_node : NodeStatus → List NodeStatus → List NodeStatus
insert_node n [] = n ∷ []
insert_node n (m ∷ ms) = let rest = insert_node n ms in if less m n then m ∷ rest else n ∷ m ∷ ms

unfoldable pub sort_nodes : List NodeStatus → List NodeStatus
sort_nodes [] = []
sort_nodes (n ∷ ns) = insert_node n (sort_nodes ns)

abbrev pub contains : ℕ → List ℕ → Bool
contains id [] = false
contains id (k ∷ ks) = if k == id then true else contains id ks

-- `for i := 0; i < count; i++` over the sorted nodes. An index past the end panics.
unfoldable pub pick : ℕ → List NodeStatus → List ℕ → List NodeStatus → Reply (List NodeStatus)
pick zero ns keep ret = done ret
pick (suc count) [] keep ret = crashed
pick (suc count) (n ∷ ns) keep ret =
    pick count ns keep (if contains n.node_id keep then ret else ret ++ (n ∷ []))

abbrev enough : ℕ → Reply (List NodeStatus) → Reply (List NodeStatus)
enough count (done ret) = if ltb (length ret) count then refused else done ret
enough count r = r

unfoldable pub alloc_extent : List NodeStatus → ℕ → List ℕ → Reply (List NodeStatus)
alloc_extent ns count keep_nodes = enough count (pick count (sort_nodes ns) keep_nodes [])
