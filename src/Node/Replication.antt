-- ===== src/Node/Replication.antt =====
-- `Append` on three replicas of an extent.
use mathlib.Core.Path.{subst}
use autumn.Prelude.{
  ℕ, ◌+◌, ◌^◌, ◌<◌, ◌≤◌, ◌≡◌, refl, sym, ap, ◌∙◌, Bool, true, false, ◌&&◌, Option, some, List, [],
  ◌∷◌, ◌++◌, arith, map, length, ltb, if◌then◌else◌, All, append-nil,
}
use autumn.Prelude.Assoc.{lookup-insert}
use autumn.Prelude.Outcome.{Outcome, ok, err, failed}
use autumn.Extent.Block.{Block}
use autumn.Extent.File.{Extent, Disk, append_blocks, commit_differs}
use autumn.Extent.File.Layout.{total, Holds}
use autumn.Extent.File.Append.{offsets_from, IsSized, accepted, all_accepted, HeadersIntact}
use autumn.Extent.File.Appended.{append_blocks-Holds}
use autumn.Node.{
  ExtentNode, get_extent, set_extent, replicate_blocks, equal_uint32, Delivery, answered,
  not_handled, not_answered, call_replica, collect, Order, pst, pts, spt, stp, tps, tsp, arrange,
  Replicas, Weather, all_healthy, append, append_to,
}

-- The node has the extent, open, with exactly these blocks.
pub record IsReplica (en : ExtentNode) (id : ℕ) (blocks : List Block) : Type 0 where
  pub extent : Extent
  pub here : get_extent en id ≡ some extent
  pub unsealed : extent.is_seal ≡ false
  pub holds : Holds extent blocks

is_seal-append_blocks :
    (ex : Extent) (bs : List Block) (c : Option ℕ) (disk : Disk)
    → (append_blocks ex bs c disk).0.is_seal ≡ ex.is_seal
unfolding append_blocks
is_seal-append_blocks ex bs c disk = ground arith

get_extent-set_extent :
    (id : ℕ) (ex : Extent) (en : ExtentNode) → get_extent (set_extent id ex en) id ≡ some ex
unfolding get_extent set_extent
get_extent-set_extent id ex en = ground (arith, lookup-insert id id ex en.extent_map)

-- What is left on a secondary of the blocks, and whether its call is answered with their offsets.
abbrev pub left : Delivery → Disk → List Block → List Block
left answered disk bs = accepted disk 0 bs
left not_handled disk bs = []
left not_answered disk bs = accepted disk 0 bs

abbrev pub took : Delivery → Disk → List Block → Bool
took answered disk bs = all_accepted disk 0 bs
took not_handled disk bs = false
took not_answered disk bs = false

-- A worker's result.
abbrev result : List ℕ → Bool → Outcome (List ℕ)
result offsets b = if b then ok offsets else err failed

equal_uint32_refl : (xs : List ℕ) → equal_uint32 xs xs ≡ true
unfolding equal_uint32
equal_uint32_refl [] = refl
equal_uint32_refl (x ∷ xs) = ground (arith, equal_uint32_refl xs)

abbrev all_true : List Bool → Bool
all_true [] = true
all_true (b ∷ bs) = b && all_true bs

collect-seen :
    (offsets : List ℕ) (bs : List Bool)
    → collect offsets (map (result offsets) bs)
      ≡ (if all_true bs then ok (some offsets) else err failed)
unfolding collect
collect-seen offsets [] = refl
collect-seen offsets (true ∷ bs) =
    ground (arith, equal_uint32_refl offsets, collect-seen offsets bs)
collect-seen offsets (false ∷ bs) = refl

-- Results that are errors or the same offsets come to these, or to an error if there is one.
collect-results :
    (offsets : List ℕ) (b : Bool) (bs : List Bool)
    → collect [] (map (result offsets) (b ∷ bs))
      ≡ (if b && all_true bs then ok (some offsets) else err failed)
unfolding collect
collect-results offsets true bs = ground (arith, equal_uint32_refl offsets, collect-seen offsets bs)
collect-results offsets false bs = refl

collect-arrange :
    (o : Order) (offsets : List ℕ) (p s t : Bool)
    → collect [] (arrange o (result offsets p) (result offsets s) (result offsets t))
      ≡ (if p && s && t then ok (some offsets) else err failed)
collect-arrange pst offsets p s t = collect-results offsets p (s ∷ t ∷ []) ∙ ground arith
collect-arrange pts offsets p s t = collect-results offsets p (t ∷ s ∷ []) ∙ ground arith
collect-arrange spt offsets p s t = collect-results offsets s (p ∷ t ∷ []) ∙ ground arith
collect-arrange stp offsets p s t = collect-results offsets s (t ∷ p ∷ []) ∙ ground arith
collect-arrange tps offsets p s t = collect-results offsets t (p ∷ s ∷ []) ∙ ground arith
collect-arrange tsp offsets p s t = collect-results offsets t (s ∷ p ∷ []) ∙ ground arith

module _ (id : ℕ) (old bs : List Block) (sized : All IsSized bs)
    (fits : 512 + total old + total bs < 2 ^ 32) where
  abbrev offsets : List ℕ
  offsets = offsets_from (512 + total old) bs

  append_to-IsReplica :
      (en : ExtentNode) (disk : Disk) (r : IsReplica en id old)
      → HeadersIntact disk
      → IsReplica
          (append_to en id bs (512 + total old) disk (some r.extent)).0
          id
          (old ++ accepted disk 0 bs)
        × ((append_to en id bs (512 + total old) disk (some r.extent)).1
            ≡ result offsets (all_accepted disk 0 bs))
  append_to-IsReplica en disk r intact =
      let same : commit_differs (some (512 + total old)) r.extent.commit_length ≡ false =
        ground (arith, r.holds.commit) in
      let (h, e) =
        append_blocks-Holds r.extent old bs (some (512 + total old)) disk r.holds r.unsealed same
          sized intact fits in
      (
        record {
          extent = (append_blocks r.extent bs (some (512 + total old)) disk).0;
          here = get_extent-set_extent id _ en;
          unsealed = is_seal-append_blocks r.extent bs (some (512 + total old)) disk ∙ r.unsealed;
          holds = h;
        },
        e ∙ ap (λ c. result (offsets_from c bs) (all_accepted disk 0 bs)) r.holds.commit,
      )

  replicated :
      (en : ExtentNode) (disk : Disk)
      → IsReplica en id old
      → HeadersIntact disk
      → IsReplica
          (replicate_blocks en id bs (512 + total old) disk).0
          id
          (old ++ accepted disk 0 bs)
        × ((replicate_blocks en id bs (512 + total old) disk).1
            ≡ result offsets (all_accepted disk 0 bs))
  unfolding replicate_blocks
  replicated en disk r intact = rw (r.here) (append_to-IsReplica en disk r intact)

  call_replica-IsReplica :
      (d : Delivery) (en : ExtentNode) (disk : Disk)
      → IsReplica en id old
      → HeadersIntact disk
      → IsReplica (call_replica d en id bs (512 + total old) disk).0 id (old ++ left d disk bs)
        × ((call_replica d en id bs (512 + total old) disk).1 ≡ result offsets (took d disk bs))
  unfolding call_replica
  call_replica-IsReplica answered en disk r intact = replicated en disk r intact
  call_replica-IsReplica not_handled en disk r intact =
      (subst (IsReplica en id) (sym (append-nil old)) r, refl)
  call_replica-IsReplica not_answered en disk r intact = ((replicated en disk r intact).0, refl)

  module _ (env : Weather) (rs : Replicas) (hp : IsReplica rs.primary id old)
      (hs : IsReplica rs.second id old) (ht : IsReplica rs.third id old)
      (healthy : all_healthy env.healthy ≡ true) (three : 3 ≤ length env.healthy)
      (intact_p : HeadersIntact env.disk_primary) (intact_s : HeadersIntact env.disk_second)
      (intact_t : HeadersIntact env.disk_third) where
    -- The call on an extent that the primary has.
    append-at : append env id bs rs ≡ (
      record {
        primary =
            (append_to rs.primary id bs (512 + total old) env.disk_primary (some hp.extent)).0;
        second = (call_replica env.to_second rs.second id bs (512 + total old) env.disk_second).0;
        third = (call_replica env.to_third rs.third id bs (512 + total old) env.disk_third).0;
      },
      collect [] (
          arrange env.order
            (append_to rs.primary id bs (512 + total old) env.disk_primary (some hp.extent)).1
            (call_replica env.to_second rs.second id bs (512 + total old) env.disk_second).1
            (call_replica env.to_third rs.third id bs (512 + total old) env.disk_third).1),
    )
    unfolding append
    append-at =
        let enough : ltb (length env.healthy) 3 ≡ false = ground (arith, three) in
        ground (arith, hp.here, healthy, enough, hp.holds.commit)

    -- Three nodes have the extent, open and with the blocks `old`; the peers are healthy, three at
    -- least; each block's `BlockLength` is the length of its data, the new length fits 32 bits, and
    -- no device cuts a header short. Then `Append` leaves each node with `old` and the blocks
    -- before the first that it refuses or that its device fails on, or with `old` where the request
    -- was lost. It returns the blocks' offsets if and only if all three took all the blocks and
    -- answered, and an error if not, in whichever order the results come.
    pub append-IsReplica :
        IsReplica (append env id bs rs).0.primary id (old ++ accepted env.disk_primary 0 bs)
        × IsReplica (append env id bs rs).0.second id (old ++ left env.to_second env.disk_second bs)
        × IsReplica (append env id bs rs).0.third id (old ++ left env.to_third env.disk_third bs)
        × ((append env id bs rs).1 ≡ (
            if all_accepted env.disk_primary 0 bs
              && took env.to_second env.disk_second bs
              && took env.to_third env.disk_third bs
            then ok (some (offsets_from (512 + total old) bs))
            else err failed))
    append-IsReplica =
        let (p, ep) = append_to-IsReplica rs.primary env.disk_primary hp intact_p in
        let (s, es) = call_replica-IsReplica env.to_second rs.second env.disk_second hs intact_s in
        let (t, et) = call_replica-IsReplica env.to_third rs.third env.disk_third ht intact_t in
        rw (append-at, ep, es, et) (p, s, t, collect-arrange env.order offsets _ _ _)
