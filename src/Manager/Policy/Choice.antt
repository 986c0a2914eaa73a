-- ===== src/Manager/Policy/Choice.antt =====
-- The nodes that `SimplePolicy.AllocExtent` chooses.
use autumn.Prelude.{
  ℕ, zero, suc, ◌≤◌, ◌<◌, ◌≡◌, refl, sym, ap, ◌∙◌, true, false, Bool-cases, inl, inr, List, [], ◌∷◌,
  ◌++◌, arith, length, take, All, length-take_le, append_assoc, append-nil,
}
use autumn.Manager.Handler.{done, crashed}
use autumn.Manager.Policy.{NodeStatus, less, insert_node, sort_nodes, pick, alloc_extent}
use mathlib.Core.List.{Perm}
use mathlib.Core.List.Perm

-- No node comes before one that is to be preferred to it.
abbrev pub InOrder : List NodeStatus → Type 0
InOrder [] = Unit {0}
InOrder (n ∷ ns) = All (λ m. less m n ≡ false) ns × InOrder ns

less_asymm : (a b : NodeStatus) → less a b ≡ true → less b a ≡ false
unfolding less
less_asymm a b h = ground arith

less_trans : (a b c : NodeStatus) → less c b ≡ false → less b a ≡ false → less c a ≡ false
unfolding less
less_trans a b c h k = ground arith

behind :
    (a b : NodeStatus) (ns : List NodeStatus)
    → less b a ≡ false
    → All (λ m. less m b ≡ false) ns
    → All (λ m. less m a ≡ false) ns
behind a b [] h hs = tt
behind a b (c ∷ ns) h hs = (less_trans a b c hs.0 h, behind a b ns h hs.1)

insert_node-All :
    (a n : NodeStatus) (ns : List NodeStatus)
    → less n a ≡ false
    → All (λ m. less m a ≡ false) ns
    → All (λ m. less m a ≡ false) (insert_node n ns)
unfolding insert_node
insert_node-All a n [] h hs = (h, tt)
insert_node-All a n (m ∷ ms) h hs = elim (Bool-cases (less m n)) [
  | inl e ↦ rw (e) (hs.0, insert_node-All a n ms h hs.1)
  | inr e ↦ rw (e) (h, hs)
]

insert_node-InOrder :
    (n : NodeStatus) (ns : List NodeStatus) → InOrder ns → InOrder (insert_node n ns)
unfolding insert_node
insert_node-InOrder n [] h = (tt, tt)
insert_node-InOrder n (m ∷ ms) h = elim (Bool-cases (less m n)) [
  | inl e ↦ rw (e) (insert_node-All m n ms (less_asymm m n e) h.0, insert_node-InOrder n ms h.1)
  | inr e ↦ rw (e) ((e, behind n m ms e h.0), h)
]

sort_nodes-InOrder : (ns : List NodeStatus) → InOrder (sort_nodes ns)
unfolding sort_nodes
sort_nodes-InOrder [] = tt
sort_nodes-InOrder (n ∷ ns) = insert_node-InOrder n (sort_nodes ns) (sort_nodes-InOrder ns)

insert_node-Perm : (n : NodeStatus) (ns : List NodeStatus) → Perm (n ∷ ns) (insert_node n ns)
unfolding insert_node
insert_node-Perm n [] = Perm.refl (n ∷ [])
insert_node-Perm n (m ∷ ms) = elim (Bool-cases (less m n)) [
  | inl e ↦ (rw (e) (Perm.trans (Perm.swap m n ms) (Perm.cons m (insert_node-Perm n ms))))
  | inr e ↦ (rw (e) (Perm.refl (n ∷ m ∷ ms)))
]

pick-take :
    (count : ℕ) (ns ret : List NodeStatus)
    → count ≤ length ns
    → pick count ns [] ret ≡ done (ret ++ take count ns)
unfolding pick
pick-take zero ns ret h = ap done (sym (append-nil ret))
pick-take (suc count) [] ret h = absurd (omega arith)
pick-take (suc count) (n ∷ ns) ret h =
    pick-take count ns (ret ++ (n ∷ [])) (omega arith)
    ∙ ap done (append_assoc ret (n ∷ []) (take count ns))

sort_nodes-Perm : (ns : List NodeStatus) → Perm ns (sort_nodes ns)
unfolding sort_nodes
sort_nodes-Perm [] = Perm.refl []
sort_nodes-Perm (n ∷ ns) =
    Perm.trans (Perm.cons n (sort_nodes-Perm ns)) (insert_node-Perm n (sort_nodes ns))

length-insert_node :
    (n : NodeStatus) (ns : List NodeStatus) → length (insert_node n ns) ≡ suc (length ns)
unfolding insert_node
length-insert_node n [] = refl
length-insert_node n (m ∷ ms) = ground (arith, length-insert_node n ms)

length-sort_nodes : (ns : List NodeStatus) → length (sort_nodes ns) ≡ length ns
unfolding sort_nodes
length-sort_nodes [] = refl
length-sort_nodes (n ∷ ns) = length-insert_node n (sort_nodes ns) ∙ ap suc (length-sort_nodes ns)

pick-crashed :
    (count : ℕ) (ns : List NodeStatus) (keep : List ℕ) (ret : List NodeStatus)
    → length ns < count
    → pick count ns keep ret ≡ crashed
unfolding pick
pick-crashed zero ns keep ret h = absurd (omega arith)
pick-crashed (suc count) [] keep ret h = refl
pick-crashed (suc count) (n ∷ ns) keep ret h = pick-crashed count ns keep _ (omega arith)

-- From at least `count` nodes, with none to be left out, `AllocExtent` takes the first `count` of
-- an order of all the nodes in which no node is behind one with an earlier echo, or with the same
-- echo and a higher usage.
pub alloc_extent-InOrder :
    (ns : List NodeStatus) (count : ℕ)
    → count ≤ length ns
    → Perm ns (sort_nodes ns)
      × InOrder (sort_nodes ns)
      × (alloc_extent ns count [] ≡ done (take count (sort_nodes ns)))
unfolding alloc_extent
alloc_extent-InOrder ns count h =
    let fits : count ≤ length (sort_nodes ns) = omega (arith, length-sort_nodes ns) in
    let taken = length-take_le count (sort_nodes ns) fits in
    (
      sort_nodes-Perm ns,
      sort_nodes-InOrder ns,
      ground (arith, pick-take count (sort_nodes ns) [] fits, taken),
    )

-- With fewer than `count` nodes, `AllocExtent` does not return its error but panics, whichever
-- nodes are to be left out.
pub alloc_extent-crashed :
    (ns : List NodeStatus) (count : ℕ) (keep_nodes : List ℕ)
    → length ns < count
    → alloc_extent ns count keep_nodes ≡ crashed
unfolding alloc_extent
alloc_extent-crashed ns count keep h =
    let few : length (sort_nodes ns) < count = omega (arith, length-sort_nodes ns) in
    ground (arith, pick-crashed count (sort_nodes ns) keep [] few)
