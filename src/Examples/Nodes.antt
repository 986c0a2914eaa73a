-- ===== src/Examples/Nodes.antt =====
-- The theorems on extent nodes at concrete nodes.
use autumn.Prelude.{
  ℕ, ◌^◌, ◌<◌, ◌≡◌, refl, true, ◌&&◌, none, some, List, [], ◌∷◌, ◌++◌, arith, if◌then◌else◌,
}
use autumn.Prelude.Outcome.{ok, err, failed}
use autumn.Extent.Block.{Block}
use autumn.Extent.Block.RoundTrip.{length-encoded}
use autumn.Extent.File.{Disk}
use autumn.Extent.File.Append.{offsets_from, IsSized, accepted, all_accepted}
use autumn.Node.{
  ExtentNode, get_extent, answered, not_answered, spt, Replicas, Weather, append, code_ok,
  serve_blocks, load_extents,
}
use autumn.Node.Replication.{IsReplica, left, took, append-IsReplica}
use autumn.Node.Serving.{IsCalm, append-IsCalm, serve_blocks-append}
use autumn.Node.Restart.{Crashed, IsCrashed, files, last_with, load_extents-files}
use autumn.Examples.Extents.{block, block-IsBlock, two_blocks, two_blocks-Holds, faulty}

abbrev blocks : List Block
blocks = block ∷ block ∷ []

abbrev node : ExtentNode
node = record { extent_map = (7, two_blocks) ∷ [] }

abbrev replicas : Replicas
replicas = record { primary = node; second = node; third = node }

node-IsReplica : IsReplica node 7 blocks
unfolding get_extent
node-IsReplica = record {
  extent = two_blocks;
  here = refl;
  unsealed = refl;
  holds = two_blocks-Holds;
}

abbrev sound : Disk
sound n = (none, none)

-- The second node's device fails, and the third's answer is lost.
abbrev storm : Weather
storm = record {
  healthy = true ∷ true ∷ true ∷ [];
  to_second = answered;
  to_third = not_answered;
  order = spt;
  disk_primary = sound;
  disk_second = faulty;
  disk_third = sound;
}

block-IsSized : IsSized block
block-IsSized = record { sized = refl; word = omega arith }

append-IsReplica_example :
    IsReplica (append storm 7 blocks replicas).0.primary 7 (blocks ++ accepted sound 0 blocks)
    × IsReplica (append storm 7 blocks replicas).0.second 7 (blocks ++ left answered faulty blocks)
    × IsReplica
        (append storm 7 blocks replicas).0.third
        7
        (blocks ++ left not_answered sound blocks)
    × ((append storm 7 blocks replicas).1 ≡ (
        if all_accepted sound 0 blocks
          && took answered faulty blocks
          && took not_answered sound blocks
        then ok (some (offsets_from 2560 blocks))
        else err failed))
append-IsReplica_example =
    append-IsReplica 7 blocks blocks (block-IsSized, (block-IsSized, tt)) (omega arith) storm
      replicas node-IsReplica node-IsReplica node-IsReplica refl (omega arith) (λ n. refl)
      (λ n. refl) (λ n. refl)

abbrev calm : Weather
calm = record storm { to_third = answered; disk_second = sound }

calm-IsCalm : IsCalm calm
calm-IsCalm = record {
  healthy = refl;
  three = omega arith;
  second = refl;
  third = refl;
  sound_primary = λ n. refl;
  sound_second = λ n. refl;
  sound_third = λ n. refl;
}

append-IsCalm_example : (append calm 7 blocks replicas).1 ≡ ok (some (2560 ∷ 3584 ∷ []))
append-IsCalm_example =
    append-IsCalm calm replicas 7 blocks blocks node-IsReplica node-IsReplica node-IsReplica
      calm-IsCalm (block-IsBlock, (block-IsBlock, tt)) (omega arith)

serve_blocks-append_example :
    (2560 ∷ 3584 ∷ [] ≡ offsets_from 2560 blocks)
    × (serve_blocks (append calm 7 blocks replicas).0.primary 7 2560 2 ≡ ok (code_ok, blocks))
    × (serve_blocks (append calm 7 blocks replicas).0.second 7 2560 2 ≡ ok (code_ok, blocks))
    × (serve_blocks (append calm 7 blocks replicas).0.third 7 2560 2 ≡ ok (code_ok, blocks))
serve_blocks-append_example =
    serve_blocks-append calm replicas 7 blocks block (block ∷ []) (2560 ∷ 3584 ∷ []) node-IsReplica
      node-IsReplica node-IsReplica refl (omega arith) (λ n. refl) (λ n. refl) (λ n. refl)
      (block-IsSized, (block-IsSized, tt)) (omega arith) (omega arith) succeeds
  where
    succeeds : (append calm 7 blocks replicas).1 ≡ ok (some (2560 ∷ 3584 ∷ []))
    succeeds =
        append-IsCalm calm replicas 7 blocks blocks node-IsReplica node-IsReplica node-IsReplica
          calm-IsCalm (block-IsBlock, (block-IsBlock, tt)) (omega arith)

-- Two extents at a crash.
abbrev crash : ℕ → Crashed
crash id = record { id = id; whole = block ∷ []; torn = block; written = 700 }

load_extents-files_example :
    (en : ExtentNode) × (load_extents (files (crash 7 ∷ crash 8 ∷ [])) (record { extent_map = [] })
      ≡ some (ok en))
    × ((id : ℕ)
        → get_extent en id
          ≡ last_with id (crash 7 ∷ crash 8 ∷ []) (get_extent (record { extent_map = [] }) id))
load_extents-files_example =
    load_extents-files (crash 7 ∷ crash 8 ∷ []) (record { extent_map = [] })
      (is_crashed 7 (omega arith), (is_crashed 8 (omega arith), tt))
  where
    is_crashed : (id : ℕ) → id < 2 ^ 64 → IsCrashed (crash id)
    is_crashed id h = record {
      small_id = h;
      blocks = (block-IsBlock, tt);
      block = block-IsBlock;
      partial = omega (arith, length-encoded block block-IsBlock);
      fits = omega arith;
    }
