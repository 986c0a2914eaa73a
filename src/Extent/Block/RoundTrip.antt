-- ===== src/Extent/Block/RoundTrip.antt =====
-- What `writeBlock` writes, `readBlock` reads back.
use autumn.Prelude.{
  ℕ, zero, suc, ◌+◌, ◌-◌, ◌^◌, ◌≤◌, ◌<◌, ◌≡◌, refl, sym, ap, ◌∙◌, true, none, List, [], ◌∷◌, ◌++◌,
  arith, append_assoc, append-nil, ltb, if◌then◌else◌, lt→ltb, length, take, drop, replicate,
  length-append, length-replicate, take-append, drop-append, drop-append_add,
}
use mathlib.Core.Path.{subst}
use autumn.Prelude.Outcome.{ok}
use autumn.Prelude.Bytes.{put_uint32, uint32, uint32-put_uint32}
use autumn.Prelude.Uvarint.{put_uvarint, uvarint, uvarint_loop, value, uvarint-put_uvarint}
use autumn.Extent.Device.{read_full-append}
use autumn.Extent.Checksum.{adler_check_sum, adler_check_sum-lt}
use autumn.Extent.Block.{
  Block, align, header_fields, pad512, block_header, write_block, read_user_data, read_data,
  read_block,
}

-- A block that `writeBlock` accepts and whose `BlockLength` is the length of its data.
pub record IsBlock (b : Block) : Type 0 where
  pub aligned : align b.block_length ≡ true
  pub sized : length b.contents ≡ b.block_length
  pub word : b.block_length < 2 ^ 32
  pub summed : b.check_sum ≡ adler_check_sum b.contents
  pub fits : length (header_fields b) ≤ 512

-- The bytes of a block on disk.
unfoldable pub encoded : Block → List ℕ
encoded b = pad512 (header_fields b) ++ b.contents

pub length-pad512 : (bs : List ℕ) → length bs ≤ 512 → length (pad512 bs) ≡ 512
length-pad512 bs h = omega (
  arith,
  length-append bs (replicate (512 - length bs) 0),
  length-replicate {A = ℕ} (512 - length bs) 0,
)

pub length-encoded : (b : Block) → IsBlock b → length (encoded b) ≡ 512 + b.block_length
unfolding encoded
length-encoded b h = omega (
  arith,
  length-append (pad512 (header_fields b)) b.contents,
  length-pad512 (header_fields b) h.fits,
  h.sized,
)

pub block_header_eq : (b : Block) → IsBlock b → block_header b ≡ ok (pad512 (header_fields b))
unfolding block_header
block_header_eq b h = ground (arith, h.aligned, h.summed, h.fits)

pub write_block-encoded :
    (file : List ℕ) (b : Block)
    → IsBlock b
    → write_block file b (none, none) ≡ (file ++ encoded b, ok tt)
unfolding write_block encoded
write_block-encoded file b h =
    rw (block_header_eq b h, write_block)
      (ap (λ f. (f, ok tt)) (append_assoc file (pad512 (header_fields b)) b.contents))

check_sum_field : (v : ℕ) (rest : List ℕ) → v < 2 ^ 32 → uint32 (take 4 (put_uint32 v ++ rest)) ≡ v
check_sum_field v rest h = unfold put_uint32 in uint32-put_uint32 v [] h

length_field : (v : ℕ) (rest : List ℕ) → drop 4 (put_uint32 v ++ rest) ≡ rest
unfolding put_uint32
length_field v rest = refl

uvarint_zeros : (n : ℕ) → (m : ℕ) × (uvarint (replicate n 0) ≡ value 0 m) × (m ≤ n)
unfolding uvarint uvarint_loop
uvarint_zeros zero = (0, refl, omega arith)
uvarint_zeros (suc n) = (1, refl, omega arith)

no_user_data :
    (front : List ℕ) (n : ℕ)
    → length front + n ≤ 512
    → read_user_data (front ++ replicate n 0) (length front) ≡ ok []
unfolding read_user_data
no_user_data front n h =
    let (m, e, le) = uvarint_zeros n in
    ground (arith, drop-append front (replicate n 0) (length front) refl, e, le)

some_user_data :
    (front ud zeros : List ℕ)
    → length (front ++ (put_uvarint (length ud) ++ ud)) ≤ 512
    → read_user_data (front ++ (put_uvarint (length ud) ++ (ud ++ zeros))) (length front) ≡ ok ud
unfolding read_user_data
some_user_data front ud zeros h =
    let len_field = put_uvarint (length ud) in
    let room : length front + (length len_field + length ud) ≤ 512 =
      omega (arith, h, length-append front (len_field ++ ud), length-append len_field ud) in
    let small : length ud < 2 ^ 63 = omega arith in
    ground (
      arith,
      drop-append front (len_field ++ (ud ++ zeros)) (length front) refl,
      uvarint-put_uvarint (length ud) (ud ++ zeros) (omega arith),
      drop-append_add front (len_field ++ (ud ++ zeros)) (length len_field),
      drop-append len_field (ud ++ zeros) (length len_field) refl,
      take-append ud zeros (length ud) refl,
    )

-- The part of a header that holds the user data.
abbrev user_data_part : List ℕ → List ℕ
user_data_part ud = if ltb 0 (length ud) then put_uvarint (length ud) ++ ud else []

user_data_part-cons :
    (x : ℕ) (ud : List ℕ) → user_data_part (x ∷ ud) ≡ put_uvarint (length (x ∷ ud)) ++ (x ∷ ud)
user_data_part-cons x ud = rw (lt→ltb 0 (suc (length ud)) (omega arith))

-- The field at the end of a header that is filled up with zeros.
field_at_end :
    (front ud part : List ℕ)
    → part ≡ put_uvarint (length ud) ++ ud
    → length (front ++ part) ≤ 512
    → read_user_data (pad512 (front ++ part)) (length front) ≡ ok ud
field_at_end front ud part e h =
    let zeros : List ℕ = replicate (512 - length (front ++ part)) 0 in
    ap (λ bs. read_user_data bs (length front))
      (append_assoc front part zeros
        ∙ ap (λ t. front ++ t)
            (ap (λ t. t ++ zeros) e ∙ append_assoc (put_uvarint (length ud)) ud zeros))
    ∙ some_user_data front ud zeros (subst (λ t. length (front ++ t) ≤ 512) e h)

user_data_field :
    (front ud : List ℕ)
    → length (front ++ user_data_part ud) ≤ 512
    → read_user_data (pad512 (front ++ user_data_part ud)) (length front) ≡ ok ud
user_data_field front [] h = rw append-nil (
    no_user_data front (512 - length front)
      (omega (arith, length-append front (user_data_part []))))
user_data_field front (x ∷ ud) h =
    field_at_end front (x ∷ ud) (user_data_part (x ∷ ud)) (user_data_part-cons x ud) h

module _ (b : Block) (h : IsBlock b) where
  buf_eq :
      pad512 (header_fields b)
      ≡ put_uint32 b.check_sum
        ++ (put_uvarint b.block_length
            ++ (user_data_part b.user_data ++ replicate (512 - length (header_fields b)) 0))
  unfolding header_fields
  buf_eq =
      append_assoc (put_uint32 b.check_sum ++ put_uvarint b.block_length) _ _
      ∙ append_assoc (put_uint32 b.check_sum) _ _

  check_sum_of_buf : uint32 (take 4 (pad512 (header_fields b))) ≡ b.check_sum
  check_sum_of_buf =
      ap (λ bs. uint32 (take 4 bs)) buf_eq
      ∙ check_sum_field b.check_sum _ (omega (arith, h.summed, adler_check_sum-lt b.contents))

  length_of_buf :
      uvarint (drop 4 (pad512 (header_fields b)))
      ≡ value b.block_length (length (put_uvarint b.block_length))
  length_of_buf =
      ap (λ bs. uvarint (drop 4 bs)) buf_eq
      ∙ ap uvarint (length_field b.check_sum _)
      ∙ uvarint-put_uvarint b.block_length _ (omega (arith, h.word))

  user_data_of_buf :
      read_user_data (pad512 (header_fields b)) (4 + length (put_uvarint b.block_length))
      ≡ ok b.user_data
  unfolding header_fields put_uint32
  user_data_of_buf =
      let front = put_uint32 b.check_sum ++ put_uvarint b.block_length in
      let e : 4 + length (put_uvarint b.block_length) ≡ length front = omega arith in
      ap (read_user_data (pad512 (header_fields b))) e ∙ user_data_field front b.user_data h.fits

  data_of_block :
      (rest : List ℕ)
      → read_data b.check_sum b.block_length b.user_data (b.contents ++ rest) ≡ ok (b, rest)
  unfolding read_data
  data_of_block rest =
      ground (
        arith,
        read_full-append b.block_length b.contents rest,
        h.aligned,
        h.summed,
        h.sized,
        h.word,
      )

  -- Behind a header that `writeBlock` wrote, `readBlock` goes on with the data.
  pub read_block-header :
      (rest : List ℕ)
      → read_block (pad512 (header_fields b) ++ rest)
        ≡ read_data b.check_sum b.block_length b.user_data rest
  unfolding read_block
  read_block-header rest = ground (
    arith,
    read_full-append 512 (pad512 (header_fields b)) rest
        (sym (length-pad512 (header_fields b) h.fits)),
    check_sum_of_buf,
    length_of_buf,
    user_data_of_buf,
  )

  -- For a block that `writeBlock` accepts (its length is a multiple of 512 other than 0 and below
  -- 2^32, the length of its data, its checksum is that of the data, and its user data fits the
  -- header), `readBlock` on the bytes of the block returns it, and leaves what follows it.
  pub read_block-encoded : (rest : List ℕ) → read_block (encoded b ++ rest) ≡ ok (b, rest)
  unfolding encoded
  read_block-encoded rest =
      ap read_block (append_assoc (pad512 (header_fields b)) b.contents rest)
      ∙ read_block-header (b.contents ++ rest)
      ∙ data_of_block rest
