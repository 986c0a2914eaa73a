-- ===== src/Node.antt =====
-- node/node.go and node/node_service.go: an extent node and its gRPC handlers. A panic in a handler
-- ends the process.
pub mod Replication
pub mod Serving
pub mod Restart
pub mod Entries
use autumn.Prelude.{
  ℕ, ◌*◌, ◌^◌, ◌==◌, ◌&&◌, Bool, true, false, not, Option, none, some, List, [], ◌∷◌, ltb,
  if◌then◌else◌, length,
}
use autumn.Prelude.Assoc.{lookup, insert}
use autumn.Prelude.Outcome.{
  Error, Outcome, ok, err, panic, eof, unexpected_eof, end_of_extent, end_of_stream, failed,
}
use autumn.Extent.Device.{Fault}
use autumn.Extent.Block.{Block}
use autumn.Extent.File.{
  DiskFile, Extent, Disk, create_extent, open_extent, seal, append_blocks, read_blocks,
}

-- `extentMap`.
pub record ExtentNode : Type 0 where
  pub extent_map : List (ℕ × Extent)

unfoldable pub get_extent : ExtentNode → ℕ → Option Extent
get_extent en id = lookup id en.extent_map

unfoldable pub set_extent : ℕ → Extent → ExtentNode → ExtentNode
set_extent id ex en = record { extent_map = insert id ex en.extent_map }

-- `LoadExtents`, on the files of the directory whose names end in ".ext". One that cannot be opened
-- is passed over.
unfoldable pub load_extents : List DiskFile → ExtentNode → Option (Outcome ExtentNode)
unfolding set_extent
load_extents [] en = some (ok en)
load_extents (f ∷ fs) en = elim (open_extent f) [
  | none ↦ none
  | some (ok ex) ↦ load_extents fs (set_extent ex.id ex en)
  | some (err e) ↦ load_extents fs en
  | some panic ↦ some panic
]

-- `AppendBlocks` on an extent of the node, which both `Append` and `ReplicateBlocks` call with the
-- length that they expect.
abbrev pub append_to :
    ExtentNode → ℕ → List Block → ℕ → Disk → Option Extent → ExtentNode × Outcome (List ℕ)
append_to en id blocks commit disk none = (en, err failed)
append_to en id blocks commit disk (some ex) =
    let (ex', r) = append_blocks ex blocks (some commit) disk in (set_extent id ex' en, r)

unfoldable pub replicate_blocks :
    ExtentNode → ℕ → List Block → ℕ → Disk → ExtentNode × Outcome (List ℕ)
unfolding get_extent set_extent
replicate_blocks en id blocks commit disk = append_to en id blocks commit disk (get_extent en id)

-- utils.EqualUint32
unfoldable pub equal_uint32 : List ℕ → List ℕ → Bool
equal_uint32 [] [] = true
equal_uint32 (x ∷ xs) (y ∷ ys) = x == y && equal_uint32 xs ys
equal_uint32 _ _ = false

-- What a call of a secondary comes to: it is answered, or the client gets an error and the request
-- was not handled, or was handled all the same.
pub data Delivery : Type 0 where
  answered : Delivery
  not_handled : Delivery
  not_answered : Delivery

unfoldable pub call_replica :
    Delivery → ExtentNode → ℕ → List Block → ℕ → Disk → ExtentNode × Outcome (List ℕ)
call_replica answered en id blocks commit disk = replicate_blocks en id blocks commit disk
call_replica not_handled en id blocks commit disk = (en, err failed)
call_replica not_answered en id blocks commit disk =
    ((replicate_blocks en id blocks commit disk).0, err failed)

-- The loop over the results, in the order in which they came. A nil slice is an empty one. Where
-- only the offsets differ, the response and the error are both nil: `ok none`.
unfoldable pub collect : List ℕ → List (Outcome (List ℕ)) → Outcome (Option (List ℕ))
unfolding equal_uint32
collect pre [] = ok (some pre)
collect pre (ok offsets ∷ rs) =
    let first = if length pre == 0 then offsets else pre in
    let rest = collect first rs in if equal_uint32 offsets first then rest else ok none
collect pre (err e ∷ rs) = err e
collect pre (panic ∷ rs) = panic

-- The order in which the three results reach the channel.
pub data Order : Type 0 where
  pst pts spt stp tps tsp : Order

abbrev pub arrange {ℓ} : {A : Type ℓ} → Order → A → A → A → List A
arrange pst p s t = p ∷ s ∷ t ∷ []
arrange pts p s t = p ∷ t ∷ s ∷ []
arrange spt p s t = s ∷ p ∷ t ∷ []
arrange stp p s t = s ∷ t ∷ p ∷ []
arrange tps p s t = t ∷ p ∷ s ∷ []
arrange tsp p s t = t ∷ s ∷ p ∷ []

-- The node that handles an `Append`, and those at the second and the third of the peers.
pub record Replicas : Type 0 where
  pub primary : ExtentNode
  pub second : ExtentNode
  pub third : ExtentNode

-- What an `Append` meets: which peers are healthy, the two calls, the order of the results, and the
-- three devices.
pub record Weather : Type 0 where
  pub healthy : List Bool
  pub to_second : Delivery
  pub to_third : Delivery
  pub order : Order
  pub disk_primary : Disk
  pub disk_second : Disk
  pub disk_third : Disk

abbrev pub all_healthy : List Bool → Bool
all_healthy [] = true
all_healthy (b ∷ bs) = b && all_healthy bs

-- The three workers, each with the primary's commit length.
abbrev pub append_at :
    Weather → ℕ → List Block → Replicas → Extent → Replicas × Outcome (Option (List ℕ))
append_at env id blocks rs ex =
    let offset = ex.commit_length in
    let (primary, p) = append_to rs.primary id blocks offset env.disk_primary (some ex) in
    let (second, s) = call_replica env.to_second rs.second id blocks offset env.disk_second in
    let (third, t) = call_replica env.to_third rs.third id blocks offset env.disk_third in
    (
      record { primary = primary; second = second; third = third },
      collect [] (arrange env.order p s t),
    )

-- `Append`, with three peers at least: with fewer, `pools[j]` panics.
unfoldable pub append : Weather → ℕ → List Block → Replicas → Replicas × Outcome (Option (List ℕ))
unfolding get_extent set_extent call_replica collect
append env id blocks rs = elim (get_extent rs.primary id) [
  | none ↦ (rs, err failed)
  | some ex ↦
      if not (all_healthy env.healthy)
      then (rs, err failed)
      else if ltb (length env.healthy) 3
      then (rs, panic)
      else append_at env id blocks rs ex
]

pub data Code : Type 0 where
  code_ok code_end_of_stream code_end_of_extent : Code

-- `errorToCode` behind the test of `ReadBlocks`, which lets these errors through only.
unfoldable pub error_to_code : Option Error → Outcome Code
error_to_code none = ok code_ok
error_to_code (some end_of_stream) = ok code_end_of_stream
error_to_code (some end_of_extent) = ok code_end_of_extent
error_to_code (some e) = err e

-- `ReadBlocks` of the node.
unfoldable pub serve_blocks : ExtentNode → ℕ → ℕ → ℕ → Outcome (Code × List Block)
unfolding get_extent error_to_code
serve_blocks en id offset num = elim (get_extent en id) [
  | none ↦ err failed
  | some ex ↦ elim (read_blocks ex offset num (32 * 2 ^ 20)) [
    | ok (blocks, e) ↦ elim (error_to_code e) [
      | ok c ↦ ok (c, blocks)
      | err x ↦ err x
      | panic ↦ panic
    ]
    | err x ↦ err x
    | panic ↦ panic
  ]
]

-- `AllocExtent`: `found` is what the extent's file holds before, nothing if there is none.
unfoldable pub alloc_new : ExtentNode → ℕ → DiskFile → Fault → ExtentNode × Outcome (Unit {0})
unfolding get_extent set_extent
alloc_new en id found fault = elim (get_extent en id) [
  | some ex ↦ (en, err failed)
  | none ↦ elim (create_extent found id fault) [
    | ok ex ↦ (set_extent ex.id ex en, ok tt)
    | err e ↦ (en, err e)
    | panic ↦ (en, panic)
  ]
]

-- `Seal` and `CommitLength` of the node: they refuse an extent that is there, and a nil extent
-- panics.
unfoldable pub seal_extent : ExtentNode → ℕ → ℕ → ExtentNode × Outcome (Unit {0})
unfolding get_extent
seal_extent en id commit = elim (get_extent en id) [
  | some ex ↦ (en, err failed)
  | none ↦ (en, panic)
]

unfoldable pub commit_length_of : ExtentNode → ℕ → Outcome ℕ
unfolding get_extent
commit_length_of en id = elim (get_extent en id) [ some ex ↦ err failed | none ↦ panic ]
