-- ===== src/Extent/Block/Torn.antt =====
-- A block of which a crash left a part only.
use autumn.Prelude.{
  ℕ, ◌+◌, ◌-◌, ◌^◌, ◌<◌, ◌≡◌, ap, ◌∙◌, List, arith, ◌==◌, length, take, take-append_add,
  length-take_le, Bool-cases, inl, inr,
}
use native.Mathlib.Decide.{dec_lt}
use autumn.Prelude.Outcome.{Error, err, eof, unexpected_eof}
use autumn.Extent.Device.{read_full}
use autumn.Extent.Block.{Block, pad512, header_fields, read_data, read_block}
use autumn.Extent.Block.RoundTrip.{
  IsBlock, encoded, length-encoded, length-pad512, read_block-header,
}

read_full-short : (n : ℕ) (bs : List ℕ) → length bs < n → (e : Error) × (read_full n bs ≡ err e)
unfolding read_full
read_full-short n bs h = elim (Bool-cases (length bs == 0)) [
  | inl z ↦ (eof, ground arith)
  | inr z ↦ (unexpected_eof, ground arith)
]

-- Fewer bytes than a header are no block.
pub read_block-short : (bs : List ℕ) → length bs < 512 → (e : Error) × (read_block bs ≡ err e)
unfolding read_block
read_block-short bs h = let (e, p) = read_full-short 512 bs h in (e, ground (arith, p))

read_data-short :
    (sum len : ℕ) (ud bs : List ℕ)
    → length bs < len
    → len < 2 ^ 32
    → read_data sum len ud bs ≡ err unexpected_eof
unfolding read_data read_full
read_data-short sum len ud bs h w = ground arith

-- A cut behind the header leaves the header and too little data.
torn_data :
    (b : Block) (k : ℕ)
    → IsBlock b
    → k < b.block_length
    → read_block (take (512 + k) (encoded b)) ≡ err unexpected_eof
unfolding encoded
torn_data b k h lt =
    let whole : 512 + k ≡ length (pad512 (header_fields b)) + k =
      omega (arith, length-pad512 (header_fields b) h.fits) in
    ap (λ j. read_block (take j (encoded b))) whole
    ∙ ap read_block (take-append_add (pad512 (header_fields b)) b.contents k)
    ∙ read_block-header b h (take k b.contents)
    ∙ read_data-short b.check_sum b.block_length b.user_data (take k b.contents)
        (omega (arith, lt, length-take_le k b.contents (omega (arith, h.sized)))) h.word

-- A proper prefix of the bytes of a block that `writeBlock` accepts and whose `BlockLength` is the
-- length of its data is refused by `readBlock` with an error: no panic.
pub read_block-torn :
    (b : Block) (n : ℕ)
    → IsBlock b
    → n < length (encoded b)
    → (e : Error) × (read_block (take n (encoded b)) ≡ err e)
read_block-torn b n h lt = elim (dec_lt n 512) [
  | yes short ↦
      read_block-short (take n (encoded b))
        (omega (arith, length-take_le n (encoded b) (omega arith)))
  | no long ↦
      let split : n ≡ 512 + (n - 512) = omega arith in
      (
        unexpected_eof,
        ap (λ j. read_block (take j (encoded b))) split
            ∙ torn_data b (n - 512) h (omega (arith, length-encoded b h)),
      )
]
