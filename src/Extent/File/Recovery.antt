-- ===== src/Extent/File/Recovery.antt =====
-- `OpenExtent` after a crash: the replay keeps the blocks that were written whole.
use autumn.Prelude.{
  ℕ, zero, suc, ◌+◌, ◌%◌, ◌^◌, ◌≤◌, ◌<◌, ◌≡◌, sym, ap, ◌∙◌, false, some, List, [], ◌∷◌, ◌++◌, arith,
  append_assoc, append-nil, length, length-append, take, length-take_le, All,
}
use autumn.Prelude.Outcome.{Error, ok, err}
use autumn.Extent.Device.{truncate, truncate-append}
use autumn.Extent.Block.{Block, read_block}
use autumn.Extent.Block.Torn.{read_block-short, read_block-torn}
use autumn.Extent.Block.RoundTrip.{IsBlock, encoded, read_block-encoded}
use autumn.Extent.Header.{marshal, length-marshal, unmarshal-marshal}
use autumn.Extent.File.{
  DiskFile, Extent, Scan, complete, corrupt, scan, opened, open_extent, ◌+u32◌,
}
use autumn.Extent.File.Layout.{encodings, total, length-encodings}

-- One round of the scan over a whole block.
scan-block :
    (b : Block) (fuel size offset : ℕ) (rest : List ℕ)
    → IsBlock b
    → offset + (512 + b.block_length) ≤ size
    → size < 2 ^ 32
    → scan (suc fuel) size offset (encoded b ++ rest)
      ≡ scan fuel size (offset + (512 + b.block_length)) rest
unfolding scan
scan-block b fuel size offset rest h fits small =
    let o : offset +u32 (b.block_length +u32 512) ≡ offset + (512 + b.block_length) = omega arith in
    ground (arith, read_block-encoded b h rest, o)

-- Where the scan ends whose file goes on with `tail` behind the whole blocks.
abbrev pub stop : ℕ → List ℕ → Scan
stop offset [] = complete offset
stop offset (x ∷ xs) = corrupt offset

scan-end :
    (fuel size offset : ℕ) (tail : List ℕ) (e : Error)
    → offset + length tail ≡ size
    → read_block tail ≡ err e
    → scan (suc fuel) size offset tail ≡ some (stop offset tail)
unfolding scan
scan-end fuel size offset [] e s r = ground arith
scan-end fuel size offset (x ∷ xs) e s r = ground arith

-- A scan keeps the whole blocks and stops at a tail that is no block.
pub scan-encodings :
    (bs : List Block) (fuel size offset : ℕ) (tail : List ℕ) (e : Error)
    → length bs < fuel
    → All IsBlock bs
    → offset + total bs + length tail ≡ size
    → size < 2 ^ 32
    → read_block tail ≡ err e
    → scan fuel size offset (encodings bs ++ tail) ≡ some (stop (offset + total bs) tail)
scan-encodings bs zero size offset tail e enough h s small r = absurd (omega arith)
scan-encodings [] (suc fuel) size offset tail e enough h s small r =
    let o : offset + 0 ≡ offset = omega arith in
    rw o (scan-end fuel size offset tail e (omega arith) r)
scan-encodings (b ∷ bs) (suc fuel) size offset tail e enough (h, hs) s small r =
    let o : offset + (512 + b.block_length) + total bs
        ≡ offset + (512 + b.block_length + total bs) =
      omega arith in
    ap (scan (suc fuel) size offset) (append_assoc (encoded b) (encodings bs) tail)
    ∙ scan-block b fuel size offset (encodings bs ++ tail) h (omega arith) small
    ∙ scan-encodings bs fuel size (offset + (512 + b.block_length)) tail e (omega arith) hs
        (omega arith) small r
    ∙ ap (λ t. some (stop t tail)) o

length-le-total : (bs : List Block) → length bs ≤ total bs
length-le-total [] = omega arith
length-le-total (b ∷ bs) = omega (arith, length-le-total bs)

-- An unsealed extent of these blocks, as it is on disk.
abbrev pub image : ℕ → List Block → DiskFile
image id bs = record { bytes = marshal id ++ encodings bs; seal_attr = false }

abbrev pub reopened : ℕ → List Block → Extent
reopened id bs = record {
  is_seal = false;
  commit_length = 512 + total bs;
  id = id;
  file = image id bs;
}

-- What follows the blocks is cut off.
opened-stop :
    (id : ℕ) (bs : List Block) (tail : List ℕ)
    → All IsBlock bs
    → opened
        (record { bytes = marshal id ++ (encodings bs ++ tail); seal_attr = false })
        id
        (stop (512 + total bs) tail)
      ≡ ok (reopened id bs)
unfolding opened
opened-stop id bs [] h =
    ap
      (λ bytes. ok (record {
        is_seal = false;
        commit_length = 512 + total bs;
        id = id;
        file = record { bytes = marshal id ++ bytes; seal_attr = false };
      }))
      (append-nil (encodings bs))
opened-stop id bs (x ∷ xs) h =
    let reach : 512 + total bs ≡ length (marshal id ++ encodings bs) = omega (
      arith,
      length-append (marshal id) (encodings bs),
      length-marshal id,
      length-encodings bs h,
    ) in
    ap
      (λ bytes. ok (record {
        is_seal = false;
        commit_length = 512 + total bs;
        id = id;
        file = record { bytes = bytes; seal_attr = false };
      }))
      (ap (truncate (512 + total bs)) (sym (append_assoc (marshal id) (encodings bs) (x ∷ xs)))
        ∙ truncate-append (512 + total bs) (marshal id ++ encodings bs) (x ∷ xs) reach)

module _ (id : ℕ) (bs : List Block) (tail : List ℕ) (e : Error) (small_id : id < 2 ^ 64)
    (h : All IsBlock bs) (fits : 512 + total bs + length tail < 2 ^ 32)
    (unreadable : read_block tail ≡ err e) where
  file_bytes : List ℕ
  file_bytes = marshal id ++ (encodings bs ++ tail)

  length-file_bytes : length file_bytes ≡ 512 + total bs + length tail
  unfolding file_bytes
  length-file_bytes = omega (
    arith,
    length-append (marshal id) (encodings bs ++ tail),
    length-append (encodings bs) tail,
    length-marshal id,
    length-encodings bs h,
  )

  file_scan :
      scan (length file_bytes) (length file_bytes % 2 ^ 32) 512 (encodings bs ++ tail)
      ≡ some (stop (512 + total bs) tail)
  file_scan =
      scan-encodings bs (length file_bytes) (length file_bytes % 2 ^ 32) 512 tail e
        (omega (arith, length-file_bytes, length-le-total bs)) h (omega (arith, length-file_bytes))
        (omega arith) unreadable

  open_extent-tail :
      open_extent (record { bytes = file_bytes; seal_attr = false }) ≡ some (ok (reopened id bs))
  unfolding open_extent file_bytes
  open_extent-tail =
      rw (unmarshal-marshal id (encodings bs ++ tail) small_id, open_extent)
        (rw file_scan (ap some (opened-stop id bs tail h)))

-- `OpenExtent` of an unsealed file that consists of the header for an ID below 2^64 and of whole
-- blocks, and that is shorter than 2^32 bytes, returns the open extent of that file and ID with the
-- commit length at the end of the last block.
pub open_extent-image :
    (id : ℕ) (bs : List Block)
    → id < 2 ^ 64
    → All IsBlock bs
    → 512 + total bs < 2 ^ 32
    → open_extent (image id bs) ≡ some (ok (reopened id bs))
open_extent-image id bs small_id h fits =
    let (e, r) = read_block-short [] (omega arith) in
    let whole = open_extent-tail id bs [] e small_id h (omega arith) r in
    ap (λ bytes. open_extent (record { bytes = marshal id ++ bytes; seal_attr = false }))
      (sym (append-nil (encodings bs)))
    ∙ unfold file_bytes in whole

-- After a crash in the middle of an append: the file holds the header, whole blocks `bs`, and the
-- first n bytes of one more block, with n below the block's size; it is
-- shorter than 2^32 bytes, and the ID is below 2^64. `OpenExtent` cuts the torn block
-- off: it returns the extent whose file is exactly the header and `bs`, with the commit length
-- behind them and the header's ID.
pub open_extent-torn :
    (id : ℕ) (bs : List Block) (b : Block) (n : ℕ)
    → id < 2 ^ 64
    → All IsBlock bs
    → IsBlock b
    → n < length (encoded b)
    → 512 + total bs + n < 2 ^ 32
    → open_extent
        (record { bytes = marshal id ++ (encodings bs ++ take n (encoded b)); seal_attr = false })
      ≡ some (ok (reopened id bs))
open_extent-torn id bs b n small_id h hb lt fits =
    let (e, r) = read_block-torn b n hb lt in
    unfold file_bytes in
    open_extent-tail id bs (take n (encoded b)) e small_id h
      (omega (arith, length-take_le n (encoded b) (omega arith))) r
