-- ===== src/Examples/Extents.antt =====
-- The theorems on extent files at concrete blocks.
use autumn.Prelude.{
  true, ◌<◌, ◌≡◌, refl, false, none, some, [], ◌∷◌, ◌++◌, arith, length, take, replicate, ◌==◌,
  if◌then◌else◌,
}
use autumn.Prelude.Bytes.{put_uint32}
use autumn.Prelude.Uvarint.{groups, put_uvarint}
use autumn.Prelude.Outcome.{Error, Outcome, ok, err, failed}
use autumn.Extent.Checksum.{adler_check_sum}
use autumn.Extent.Block.{Block, align, header_fields, read_block}
use autumn.Extent.Block.RoundTrip.{IsBlock, encoded, length-encoded, read_block-encoded}
use autumn.Extent.Block.Torn.{read_block-torn}
use autumn.Extent.Header.{marshal, length-marshal}
use autumn.Extent.File.{DiskFile, Extent, Disk, open_extent, seal, append_blocks, read_blocks}
use autumn.Extent.File.Layout.{encodings, Holds}
use autumn.Extent.File.Append.{offsets_from, IsSized, accepted, all_accepted}
use autumn.Extent.File.Appended.{append_blocks-Holds}
use autumn.Extent.File.Read.{read_blocks-Holds}
use autumn.Extent.File.Recovery.{reopened, open_extent-torn}
use autumn.Extent.File.Replay.{Opens, open_extent-Opens}
use autumn.Extent.File.Sealing.{sealed, open_extent-seal}

-- 512 zeros, with one byte of user data.
abbrev pub block : Block
block = record {
  check_sum = adler_check_sum (replicate 512 0);
  block_length = 512;
  contents = replicate 512 0;
  user_data = b'u' ∷ [];
}

pub block-IsBlock : IsBlock block
unfolding align header_fields put_uint32 put_uvarint groups
block-IsBlock = record {
  aligned = refl;
  sized = refl;
  word = omega arith;
  summed = refl;
  fits = let e : length (header_fields block) ≡ 8 = refl in omega (arith, e);
}

read_block-encoded_example : read_block (encoded block ++ (1 ∷ [])) ≡ ok (block, 1 ∷ [])
read_block-encoded_example = read_block-encoded block block-IsBlock (1 ∷ [])

read_block-torn_example : (e : Error) × (read_block (take 700 (encoded block)) ≡ err e)
read_block-torn_example = read_block-torn block 700 block-IsBlock in_bounds
  where
    in_bounds : 700 < length (encoded block)
    in_bounds = omega (arith, length-encoded block block-IsBlock)

-- An open extent that holds two blocks, and a device that fails on the second block of a call.
abbrev pub two_blocks : Extent
two_blocks = record {
  is_seal = false;
  commit_length = 2560;
  id = 7;
  file = record { bytes = marshal 7 ++ encodings (block ∷ block ∷ []); seal_attr = false };
}

abbrev pub faulty : Disk
faulty n = (none, if n == 1 then some 100 else none)

pub two_blocks-Holds : Holds two_blocks (block ∷ block ∷ [])
two_blocks-Holds = record {
  blocks = (block-IsBlock, (block-IsBlock, tt));
  bytes = refl;
  commit = refl;
  small = omega arith;
}

append_blocks-Holds_example :
    Holds
      (append_blocks two_blocks (block ∷ block ∷ []) (some 2560) faulty).0
      ((block ∷ block ∷ []) ++ accepted faulty 0 (block ∷ block ∷ []))
    × ((append_blocks two_blocks (block ∷ block ∷ []) (some 2560) faulty).1 ≡ (
        if all_accepted faulty 0 (block ∷ block ∷ [])
        then ok (offsets_from 2560 (block ∷ block ∷ []))
        else err failed))
append_blocks-Holds_example =
    append_blocks-Holds two_blocks (block ∷ block ∷ []) (block ∷ block ∷ []) (some 2560) faulty
      two_blocks-Holds refl refl (is_sized, (is_sized, tt)) (λ n. refl) (omega arith)
  where
    is_sized : IsSized block
    is_sized = record { sized = refl; word = omega arith }

read_blocks-Holds_example : read_blocks two_blocks 1536 1 4096 ≡ ok (block ∷ [], none)
read_blocks-Holds_example =
    read_blocks-Holds two_blocks (block ∷ []) block [] [] 4096 two_blocks-Holds (omega arith)
      (omega arith)

open_extent-torn_example :
    open_extent (record {
      bytes = marshal 7 ++ (encodings (block ∷ []) ++ take 700 (encoded block));
      seal_attr = false;
    })
    ≡ some (ok (reopened 7 (block ∷ [])))
open_extent-torn_example =
    open_extent-torn 7 (block ∷ []) block 700 (omega arith) (block-IsBlock, tt) block-IsBlock
      (omega (arith, length-encoded block block-IsBlock)) (omega arith)

abbrev empty_extent : DiskFile
empty_extent = record { bytes = marshal 7; seal_attr = false }

open_extent-Opens_example :
    (r : Outcome Extent) × (open_extent empty_extent ≡ some r) × Opens empty_extent r
open_extent-Opens_example = open_extent-Opens empty_extent (omega (arith, length-marshal 7))

open_extent-seal_example :
    ((seal two_blocks 1536 true).1 ≡ ok tt)
    × (open_extent (seal two_blocks 1536 true).0.file ≡ some (ok (sealed 7 (block ∷ []))))
    × ((seal two_blocks 1536 false).1 ≡ err failed)
    × (open_extent (seal two_blocks 1536 false).0.file ≡ some (ok (reopened 7 (block ∷ []))))
open_extent-seal_example =
    open_extent-seal two_blocks (block ∷ []) (block ∷ []) (omega arith) refl two_blocks-Holds
