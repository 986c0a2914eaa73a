-- ===== src/Extent/File/Sealing.antt =====
-- `Seal`: what it leaves on disk and in memory, and the extent after a restart.
use autumn.Prelude.{
  ℕ, ◌+◌, ◌^◌, ◌<◌, ◌≡◌, sym, ap, ◌∙◌, true, false, Bool, ◌||◌, Option, some, List, ◌++◌, arith,
  append_assoc, length, length-append, All, All-split,
}
use autumn.Prelude.Outcome.{ok, err, failed}
use autumn.Extent.Device.{truncate, truncate-append, truncate_all, length-truncate}
use autumn.Extent.Block.{Block}
use autumn.Extent.Block.RoundTrip.{IsBlock}
use autumn.Extent.Header.{marshal, length-marshal, unmarshal-marshal}
use autumn.Extent.File.{Extent, Disk, seal, open_extent, append_blocks}
use autumn.Extent.File.Recovery.{reopened, open_extent-image}
use autumn.Extent.File.Layout.{
  encodings, encodings-append, total, total-append, Holds, Holds-length, length-encodings,
}

-- After `Seal`, whether it succeeded or not, `AppendBlocks` returns an error and changes nothing.
pub append_blocks-seal :
    (ex : Extent) (commit : ℕ) (set : Bool) (bs : List Block) (last_commit : Option ℕ) (disk : Disk)
    → append_blocks (seal ex commit set).0 bs last_commit disk
      ≡ ((seal ex commit set).0, err failed)
unfolding append_blocks seal
append_blocks-seal ex commit set bs last_commit disk = ground arith

-- The file of an extent that holds `kept ++ lost`, cut behind `kept`.
cut_bytes :
    (ex : Extent) (kept lost : List Block)
    → Holds ex (kept ++ lost)
    → truncate (512 + total kept) ex.file.bytes ≡ marshal ex.id ++ encodings kept
cut_bytes ex kept lost h =
    let (hk, hl) = All-split IsBlock kept lost h.blocks in
    ap (truncate (512 + total kept)) (
      h.bytes
      ∙ ap (λ t. marshal ex.id ++ t) (encodings-append kept lost)
      ∙ sym (append_assoc (marshal ex.id) (encodings kept) (encodings lost)))
    ∙ truncate-append (512 + total kept) (marshal ex.id ++ encodings kept) (encodings lost) (
        omega (
          arith,
          length-append (marshal ex.id) (encodings kept),
          length-marshal ex.id,
          length-encodings kept hk,
        ))

-- The extent of these blocks as a restart finds it once it is sealed.
abbrev pub sealed : ℕ → List Block → Extent
sealed id bs = record {
  is_seal = true;
  commit_length = 512 + total bs;
  id = id;
  file = record { bytes = marshal id ++ encodings bs; seal_attr = true };
}

open_extent-sealed :
    (id : ℕ) (bs : List Block)
    → id < 2 ^ 64
    → All IsBlock bs
    → 512 + total bs < 2 ^ 32
    → open_extent (sealed id bs).file ≡ some (ok (sealed id bs))
unfolding open_extent
open_extent-sealed id bs small_id h fits = ground (
  arith,
  unmarshal-marshal id (encodings bs) small_id,
  length-append (marshal id) (encodings bs),
  length-marshal id,
  length-encodings bs h,
)

seal-file :
    (ex : Extent) (kept lost : List Block) (set : Bool)
    → Holds ex (kept ++ lost)
    → (seal ex (512 + total kept) set).0.file
      ≡ record { bytes = marshal ex.id ++ encodings kept; seal_attr = set || ex.file.seal_attr }
unfolding seal
seal-file ex kept lost set h = ground (
  arith,
  h.commit,
  total-append kept lost,
  cut_bytes ex kept lost h,
  truncate_all (512 + total kept) ex.file.bytes,
  Holds-length ex (kept ++ lost) h,
)

-- `Seal` of an extent without the attribute on its file, with an ID below 2^64, that holds
-- `kept ++ lost`, made at the length behind `kept`. If the attribute can be set, it succeeds, and a
-- restart opens the file as a sealed extent of exactly the blocks `kept`. If not, it returns an
-- error, with these blocks cut off all the same, and a restart opens the extent of the blocks `kept` as
-- one that is not sealed.
pub open_extent-seal :
    (ex : Extent) (kept lost : List Block)
    → ex.id < 2 ^ 64
    → ex.file.seal_attr ≡ false
    → Holds ex (kept ++ lost)
    → ((seal ex (512 + total kept) true).1 ≡ ok tt)
      × (open_extent (seal ex (512 + total kept) true).0.file ≡ some (ok (sealed ex.id kept)))
      × ((seal ex (512 + total kept) false).1 ≡ err failed)
      × (open_extent (seal ex (512 + total kept) false).0.file ≡ some (ok (reopened ex.id kept)))
open_extent-seal ex kept lost small_id raw h =
    let blocks = (All-split IsBlock kept lost h.blocks).0 in
    let fits : 512 + total kept < 2 ^ 32 = omega (arith, h.small, total-append kept lost) in
    (
      unfold seal in ground (arith, h.commit, total-append kept lost),
      ap open_extent (seal-file ex kept lost true h)
          ∙ open_extent-sealed ex.id kept small_id blocks fits,
      unfold seal in ground (arith, h.commit, total-append kept lost),
      ap open_extent (seal-file ex kept lost false h)
          ∙ ap
              (λ b. open_extent (record { bytes = marshal ex.id ++ encodings kept; seal_attr = b }))
              raw
          ∙ open_extent-image ex.id kept small_id blocks fits,
    )

-- For an extent whose commit length is the length of its file, `Seal` at a shorter length cuts the file and leaves `commitLength` where it was: the length that
-- the extent reports is past the end of its file.
pub seal-stale :
    (ex : Extent) (commit : ℕ) (set : Bool)
    → ex.commit_length ≡ length ex.file.bytes
    → commit < ex.commit_length
    → (length (seal ex commit set).0.file.bytes ≡ commit)
      × ((seal ex commit set).0.commit_length ≡ ex.commit_length)
unfolding seal
seal-stale ex commit set e h =
    (ground (arith, length-truncate commit ex.file.bytes (omega arith)), ground arith)
