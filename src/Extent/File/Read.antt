-- ===== src/Extent/File/Read.antt =====
-- `ReadBlocks` returns what was appended.
use autumn.Prelude.{
  ℕ, ◌+◌, ◌^◌, ◌≤◌, ◌<◌, ◌≡◌, sym, ap, ◌∙◌, none, List, [], ◌∷◌, ◌++◌, arith, append_assoc,
  append-nil, length, length-append, drop, drop-append, All, All-split,
}
use autumn.Prelude.Outcome.{ok}
use autumn.Extent.Block.{Block}
use autumn.Extent.Block.RoundTrip.{IsBlock, encoded, length-encoded, read_block-encoded}
use autumn.Extent.Header.{marshal, length-marshal}
use autumn.Extent.File.{Extent, read_loop, read_blocks, ◌+u32◌}
use autumn.Extent.File.Layout.{
  encodings, encodings-append, total, total-append, Holds, length-encodings,
}

-- The loop started in front of the blocks `bs`, with room for their sizes, reads all of them.
read_loop-encodings :
    (bs : List Block) (ex : Extent) (front back : List ℕ) (offset max_total_size size : ℕ)
    (ret : List Block)
    → ex.file.bytes ≡ front ++ (encodings bs ++ back)
    → offset ≡ length front
    → All IsBlock bs
    → offset + total bs < 2 ^ 32
    → size + total bs ≤ max_total_size
    → max_total_size < 2 ^ 32
    → read_loop (length bs) ex offset max_total_size size ret ≡ ok (ret ++ bs, none)
unfolding read_loop
read_loop-encodings [] ex front back offset max size ret e at h fits budget m =
    ground (arith, append-nil ret)
read_loop-encodings (b ∷ bs) ex front back offset max size ret e at (h, hs) fits budget m =
    let o : offset +u32 (b.block_length +u32 512) ≡ offset + (512 + b.block_length) = omega arith in
    let z : size +u32 (b.block_length +u32 512) ≡ size + (512 + b.block_length) = omega arith in
    ground (
      arith,
      here,
      read_block-encoded b h (encodings bs ++ back),
      o,
      z,
      read_loop-encodings bs ex (front ++ encoded b) back (offset + (512 + b.block_length)) max
          (size + (512 + b.block_length)) (ret ++ (b ∷ [])) behind
          (omega (arith, at, length-append front (encoded b), length-encoded b h)) hs (omega arith)
          (omega arith) m,
      append_assoc ret (b ∷ []) bs,
    )
  where
    here : drop offset ex.file.bytes ≡ encoded b ++ (encodings bs ++ back)
    here =
        ap (drop offset) (e ∙ ap (λ t. front ++ t) (append_assoc (encoded b) (encodings bs) back))
        ∙ drop-append front _ offset at

    behind : ex.file.bytes ≡ (front ++ encoded b) ++ (encodings bs ++ back)
    behind =
        e
        ∙ ap (λ t. front ++ t) (append_assoc (encoded b) (encodings bs) back)
        ∙ sym (append_assoc front (encoded b) (encodings bs ++ back))

-- On an extent that holds the blocks `before`, then `b ∷ bs`, then `after`, `ReadBlocks` at the
-- offset of `b`, asked for as many blocks as `b ∷ bs` has and with a size limit that these do not
-- pass, returns exactly them and no end marker.
pub read_blocks-Holds :
    (ex : Extent) (before : List Block) (b : Block) (bs after : List Block) (max_total_size : ℕ)
    → Holds ex (before ++ ((b ∷ bs) ++ after))
    → total (b ∷ bs) ≤ max_total_size
    → max_total_size < 2 ^ 32
    → read_blocks ex (512 + total before) (length (b ∷ bs)) max_total_size ≡ ok (b ∷ bs, none)
unfolding read_blocks
read_blocks-Holds ex before b bs after max h budget m =
    let front : List ℕ = marshal ex.id ++ encodings before in
    let (h_before, h_rest) = All-split IsBlock before ((b ∷ bs) ++ after) h.blocks in
    let (h_now, h_after) = All-split IsBlock (b ∷ bs) after h_rest in
    let sum : 512 + total before + total (b ∷ bs) ≤ ex.commit_length =
      omega
        (arith, h.commit, total-append before ((b ∷ bs) ++ after), total-append (b ∷ bs) after) in
    let at : 512 + total before ≡ length front = omega (
      arith,
      length-append (marshal ex.id) (encodings before),
      length-marshal ex.id,
      length-encodings before h_before,
    ) in
    let bytes : ex.file.bytes ≡ front ++ (encodings (b ∷ bs) ++ encodings after) =
      h.bytes
      ∙ ap (λ t. marshal ex.id ++ t)
          (encodings-append before ((b ∷ bs) ++ after)
            ∙ ap (λ t. encodings before ++ t) (encodings-append (b ∷ bs) after))
      ∙ sym (append_assoc (marshal ex.id) (encodings before) _) in
    ground (
      arith,
      read_loop-encodings (b ∷ bs) ex front (encodings after) (512 + total before) max 0 [] bytes at
          h_now (omega (arith, h.commit, h.small)) (omega arith) m,
    )
