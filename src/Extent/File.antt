-- ===== src/Extent/File.antt =====
-- extent/extent.go: the `Extent` and its methods. The mutex that `AppendBlocks` asserts makes the
-- calls on one extent follow one another, so each is a function of the state.
pub mod Layout
pub mod Append
pub mod Appended
pub mod Read
pub mod Recovery
pub mod Replay
pub mod Sealing
use autumn.Prelude.{
  ℕ, zero, suc, ◌+◌, ◌-◌, ◌%◌, ◌^◌, Bool, true, false, not, ◌||◌, Option, none, some, List, [], ◌∷◌,
  ◌++◌, leb, ltb, ◌==◌, if◌then◌else◌, length, drop,
}
use mathlib.Core.Option
use autumn.Prelude.Outcome.{
  Error, Outcome, ok, err, panic, eof, unexpected_eof, end_of_extent, end_of_stream, failed, ◌>>=◌,
  ◌>>◌, fail_if,
}
use autumn.Extent.Device.{Fault, write, truncate}
use autumn.Extent.Block.{Block, write_block, read_block}
use autumn.Extent.Header.{marshal, unmarshal}

-- What survives a restart: the bytes, and whether the attribute "seal" is "true".
pub record DiskFile : Type 0 where
  pub bytes : List ℕ
  pub seal_attr : Bool

pub record Extent : Type 0 where
  pub is_seal : Bool
  pub commit_length : ℕ
  pub id : ℕ
  pub file : DiskFile

-- uint32 addition
infixl 65 ◌+u32◌
abbrev pub ◌+u32◌ : ℕ → ℕ → ℕ
a +u32 b = (a + b) % 2 ^ 32

-- `CreateExtent` appends the header to the file, an empty one unless it was there before.
unfoldable pub create_extent : DiskFile → ℕ → Fault → Outcome Extent
unfolding write
create_extent f id fault =
    let (bytes, written) = write f.bytes (marshal id) fault in
    if written
    then ok (record {
      is_seal = false;
      commit_length = 512;
      id = id;
      file = record f { bytes = bytes };
    })
    else err failed

-- How the replay of `OpenExtent` ends: at the end of the file, at a block that cannot be read, or
-- with a panic inside `readBlock`.
pub data Scan : Type 0 where
  complete : ℕ → Scan
  corrupt : ℕ → Scan
  crashed : Scan

-- `for offset < currentSize { readBlock(f) … }`; `none` means that the fuel ran out.
unfoldable pub scan : ℕ → ℕ → ℕ → List ℕ → Option Scan
scan zero current_size offset rest = none
scan (suc fuel) current_size offset rest = elim (ltb offset current_size) [
  | false ↦ some (complete offset)
  | true ↦ elim (read_block rest) [
    | ok (b, rest') ↦ scan fuel current_size (offset +u32 (b.block_length +u32 512)) rest'
    | err e ↦ some (corrupt offset)
    | panic ↦ some crashed
  ]
]

opened : DiskFile → ℕ → Scan → Outcome Extent
opened f id (complete offset) =
    ok (record { is_seal = false; commit_length = offset; id = id; file = f })
opened f id (corrupt offset) = ok (record {
  is_seal = false;
  commit_length = offset;
  id = id;
  file = record f { bytes = truncate offset f.bytes };
})
opened f id crashed = panic

-- `OpenExtent` on a file that the system opens, and where `Truncate` and `Sync` behind a block that
-- cannot be read succeed. Each block takes 512 bytes at least, so the length
-- of the file is fuel enough.
unfoldable pub open_extent : DiskFile → Option (Outcome Extent)
unfolding opened
open_extent f =
    if f.seal_attr
    then some (do
      fail_if (ltb (2 ^ 32 - 1) (length f.bytes)) failed
      (id, rest) ← unmarshal f.bytes
      ok (record { is_seal = true; commit_length = length f.bytes; id = id; file = f }))
    else elim (unmarshal f.bytes) [
      | ok (id, rest) ↦
          Option.map (opened f id) (scan (length f.bytes) (length f.bytes % 2 ^ 32) 512 rest)
      | err e ↦ some (err e)
      | panic ↦ some panic
    ]

-- `Seal`; `set` is the result of `xattr.FSet`: whether it set the attribute, which otherwise stays
-- as it was. The result of `Truncate` is not read, and `commitLength` is left as it was.
unfoldable pub seal : Extent → ℕ → Bool → Extent × Outcome (Unit {0})
seal ex commit set =
    let ex' : Extent = record ex { is_seal = true } in
    if ltb ex.commit_length commit then (ex', err failed) else (
      record ex' {
        file = record {
          bytes =
              if ltb commit ex.commit_length then truncate commit ex.file.bytes else ex.file.bytes;
          seal_attr = set || ex.file.seal_attr;
        };
      },
      if set then ok tt else err failed,
    )

-- The faults that the device shows while the n-th block of a call is written.
abbrev pub Disk : Type 0
Disk = ℕ → Fault × Fault

-- The loop of `AppendBlocks`: the bytes, the length reached, and the offsets or the error.
unfoldable pub append_loop :
    Disk → List Block → ℕ → List ℕ → ℕ → List ℕ → List ℕ × ℕ × Outcome (List ℕ)
append_loop disk [] n bytes current ret = (bytes, current, ok ret)
append_loop disk (b ∷ bs) n bytes current ret =
    let (bytes', written) = write_block bytes b (disk n) in
    elim written [
      | ok done ↦
          append_loop disk bs (n + 1) bytes' (current +u32 (b.block_length +u32 512))
            (ret ++ (current ∷ []))
      | err e ↦ (bytes', current, err e)
      | panic ↦ (bytes', current, panic)
    ]

-- `lastCommit != nil && *lastCommit != ex.CommitLength()`
abbrev pub commit_differs : Option ℕ → ℕ → Bool
commit_differs none current = false
commit_differs (some c) current = not (c == current)

-- The deferred `truncate` cuts at the length that the loop reached, and sets `commitLength` to it.
abbrev pub finish : Extent → List ℕ × ℕ × Outcome (List ℕ) → Extent × Outcome (List ℕ)
finish ex (bytes, current, ok ret) =
    (record ex { commit_length = current; file = record ex.file { bytes = bytes } }, ok ret)
finish ex (bytes, current, err e) = (
  record ex { commit_length = current; file = record ex.file { bytes = truncate current bytes } },
  err e,
)
finish ex (bytes, current, panic) = (record ex { file = record ex.file { bytes = bytes } }, panic)

unfoldable pub append_blocks : Extent → List Block → Option ℕ → Disk → Extent × Outcome (List ℕ)
append_blocks ex blocks last_commit disk =
    if ex.is_seal || commit_differs last_commit ex.commit_length
    then (ex, err failed)
    else finish ex (append_loop disk blocks 0 ex.file.bytes ex.commit_length [])

abbrev pub end_of : Bool → Error
end_of sealed = if sealed then end_of_extent else end_of_stream

-- The loop of `ReadBlocks`; Go returns the blocks beside the error that says where they end.
unfoldable pub read_loop : ℕ → Extent → ℕ → ℕ → ℕ → List Block → Outcome (List Block × Option Error)
read_loop zero ex offset max_total_size size ret = ok (ret, none)
read_loop (suc n) ex offset max_total_size size ret =
    elim (read_block (drop offset ex.file.bytes)) [
      | ok (b, rest) ↦ elim (ltb max_total_size (size +u32 (b.block_length +u32 512))) [
        | true ↦ ok (ret ++ (b ∷ []), none)
        | false ↦
            read_loop n ex (offset +u32 (b.block_length +u32 512)) max_total_size
              (size +u32 (b.block_length +u32 512)) (ret ++ (b ∷ []))
      ]
      | err eof ↦ ok (ret, some (end_of ex.is_seal))
      | err e ↦ ok ([], some e)
      | panic ↦ panic
    ]

unfoldable pub read_blocks : Extent → ℕ → ℕ → ℕ → Outcome (List Block × Option Error)
read_blocks ex offset max_num max_total_size =
    if leb ex.commit_length offset
    then ok ([], some (end_of ex.is_seal))
    else read_loop max_num ex offset max_total_size 0 []
