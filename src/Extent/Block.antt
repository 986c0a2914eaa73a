-- ===== src/Extent/Block.antt =====
-- extent/extent.go: `align`, `writeBlock`, `readBlock` and the layout of a block, a header of 512
-- bytes (checksum, length and user data) with the data behind it.
pub mod RoundTrip
pub mod Torn
use autumn.Prelude.{
  ℕ, ◌+◌, ◌-◌, ◌%◌, ◌^◌, ◌≤◌, ◌<◌, ◌≡◌, refl, Bool, true, false, not, ◌&&◌, Option, none, some,
  List, [], ◌∷◌, ◌++◌, arith, leb, ltb, ◌==◌, if◌then◌else◌, length, take, drop, replicate,
}
use autumn.Prelude.Outcome.{
  Error, Outcome, ok, err, panic, eof, unexpected_eof, failed, ◌>>=◌, ◌>>◌, fail_if,
}
use autumn.Prelude.Bytes.{put_uint32, uint32}
use autumn.Prelude.Uvarint.{put_uvarint, uvarint, Uvarint, value, overflow}
use autumn.Extent.Device.{Fault, write, read_full}
use autumn.Extent.Checksum.{adler_check_sum}

pub record Block : Type 0 where
  pub check_sum : ℕ
  pub block_length : ℕ
  pub contents : List ℕ
  pub user_data : List ℕ

unfoldable pub align : ℕ → Bool
align n = not (n == 0) && n % 512 == 0

-- The header's fields, before the zeros that fill it up.
unfoldable pub header_fields : Block → List ℕ
header_fields b =
    put_uint32 b.check_sum
    ++ put_uvarint b.block_length
    ++ (if ltb 0 (length b.user_data) then put_uvarint (length b.user_data) ++ b.user_data else [])

-- `var buf [512]byte`, filled from the front.
abbrev pub pad512 : List ℕ → List ℕ
pad512 bs = bs ++ replicate (512 - length bs) 0

-- What `writeBlock` refuses before it writes, and the header that it writes.
unfoldable pub block_header : Block → Outcome (List ℕ)
unfolding align header_fields
block_header b = do
  fail_if (not (align b.block_length)) failed
  fail_if (not (b.check_sum == adler_check_sum b.contents)) failed
  fail_if (ltb 512 (length (header_fields b))) failed
  ok (pad512 (header_fields b))

-- The error of the first write is dropped. The file comes back on every path.
unfoldable pub write_block : List ℕ → Block → Fault × Fault → List ℕ × Outcome (Unit {0})
unfolding write
write_block file b (header_fault, data_fault) = elim (block_header b) [
  | ok buf ↦
      let (file', written) = write (write file buf header_fault).0 b.contents data_fault in
      (file', fail_if (not written) failed)
  | err e ↦ (file, err e)
  | panic ↦ (file, panic)
]

-- `make` panics on a length past the address space.
abbrev pub max_alloc : ℕ
max_alloc = 2 ^ 48

-- The second Uvarint: the length of the user data, and the index behind it. An overflow makes n
-- negative and moves the index back. From 2^63 on, `int(len)` or its sum with the index is
-- negative, and then the slice panics.
unfoldable pub read_user_data : List ℕ → ℕ → Outcome (List ℕ)
read_user_data buf index = elim (uvarint (drop index buf)) [
  | overflow n ↦ ok []
  | value len n ↦
      if leb (2 ^ 63) (len + (index + n))
      then panic
      else if ltb 512 (len + (index + n))
      then err failed
      else ok (take len (drop (index + n) buf))
]

-- io.ErrUnexpectedEOF stands for EOF inside a block.
abbrev pub in_block {ℓ} : {A : Type ℓ} → Outcome A → Outcome A
in_block (ok a) = ok a
in_block (err eof) = err unexpected_eof
in_block (err e) = err e
in_block panic = panic

unfoldable pub read_data : ℕ → ℕ → List ℕ → List ℕ → Outcome (Block × List ℕ)
unfolding align read_full
read_data check_sum block_length user_data bs = if ltb max_alloc block_length then panic else do
  (contents, rest) ← in_block (read_full block_length bs)
  fail_if (not (adler_check_sum contents == check_sum)) failed
  fail_if (not (align block_length)) failed
  ok (
    record {
      check_sum = check_sum;
      block_length = block_length % 2 ^ 32;
      contents = contents;
      user_data = user_data;
    },
    rest,
  )

-- The rest of `readBlock` behind its first Uvarint, which stands at index 4. An overflow there, of
-- ten bytes at least, makes the index negative, and the next slice panics.
abbrev pub read_fields : List ℕ → List ℕ → Uvarint → Outcome (Block × List ℕ)
read_fields buf rest (overflow n) = panic
read_fields buf rest (value block_length n) = do
  user_data ← read_user_data buf (4 + n)
  read_data (uint32 (take 4 buf)) block_length user_data rest

-- A block from the front of `bs`, and the bytes behind it.
unfoldable pub read_block : List ℕ → Outcome (Block × List ℕ)
read_block bs = do (buf, rest) ← read_full 512 bs; read_fields buf rest (uvarint (drop 4 buf))
