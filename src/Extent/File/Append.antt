-- ===== src/Extent/File/Append.antt =====
-- `AppendBlocks`: what is in the file after a call, whatever the device does.
use autumn.Prelude.{
  ℕ, ◌+◌, ◌^◌, ◌≤◌, ◌<◌, ◌≡◌, refl, ap, ◌∙◌, ◌⊎◌, inl, inr, Option, none, some, List, [], ◌∷◌, ◌++◌,
  arith, Bool, true, false, ◌&&◌, Bool-cases, append_assoc, append-nil, if◌then◌else◌, length, take,
  All,
}
use autumn.Prelude.Outcome.{Outcome, ok, err, panic, failed}
use autumn.Extent.Device.{Fault}
use autumn.Extent.Block.{Block, block_header, write_block}
use autumn.Extent.Block.RoundTrip.{IsBlock, encoded, write_block-encoded}
use autumn.Extent.File.{Extent, Disk, append_loop, append_blocks, ◌+u32◌, finish, commit_differs}
use autumn.Extent.File.Layout.{encodings, total}

-- The offsets that blocks get, one behind the other.
abbrev pub offsets_from : ℕ → List Block → List ℕ
offsets_from current [] = []
offsets_from current (b ∷ bs) = current ∷ offsets_from (512 + b.block_length + current) bs

-- A block whose `BlockLength` is the length of its data, as the code expects and does not check.
pub record IsSized (b : Block) : Type 0 where
  pub sized : length b.contents ≡ b.block_length
  pub word : b.block_length < 2 ^ 32

is_ok {ℓ} : {A : Type ℓ} → Outcome A → Bool
is_ok (ok a) = true
is_ok _ = false

-- `writeBlock` takes the block, and the device takes its data.
pub accepts : Block → Fault → Bool
unfolding is_ok
accepts b fault = is_ok (block_header b) && elim fault [ none ↦ true | some n ↦ false ]

-- The blocks before the first that is not accepted, and whether these are all.
pub accepted : Disk → ℕ → List Block → List Block
accepted disk n [] = []
accepted disk n (b ∷ bs) =
    let more = accepted disk (n + 1) bs in if accepts b (disk n).1 then b ∷ more else []

pub all_accepted : Disk → ℕ → List Block → Bool
all_accepted disk n [] = true
all_accepted disk n (b ∷ bs) = accepts b (disk n).1 && all_accepted disk (n + 1) bs

accepts-IsBlock : (b : Block) (fault : Fault) → IsSized b → accepts b fault ≡ true → IsBlock b
unfolding accepts block_header
accepts-IsBlock b fault h e = record {
  aligned = ground arith;
  sized = h.sized;
  word = h.word;
  summed = ground arith;
  fits = ground arith;
}

write_accepted :
    (file : List ℕ) (b : Block) (faults : Fault × Fault)
    → faults.0 ≡ none
    → IsSized b
    → accepts b faults.1 ≡ true
    → write_block file b faults ≡ (file ++ encoded b, ok tt)
unfolding accepts
write_accepted file b (hf, none) e h a =
    ap (λ f. write_block file b (f, none)) e
    ∙ write_block-encoded file b (accepts-IsBlock b none h a)
write_accepted file b (hf, some n) e h a = ground arith

block_header_cases :
    (b : Block) → ((buf : List ℕ) × (block_header b ≡ ok buf)) ⊎ (block_header b ≡ err failed)
block_header_cases b = go (block_header b) refl
  where
    go :
        (r : Outcome (List ℕ))
        → block_header b ≡ r
        → ((buf : List ℕ) × (block_header b ≡ ok buf)) ⊎ (block_header b ≡ err failed)
    go (ok buf) e = inl (buf, e)
    go (err x) e = inr (unfold block_header in ground arith)
    go panic e = absurd (unfold block_header in ground arith)

data_refused :
    (file : List ℕ) (b : Block) (hf df : Fault) (buf : List ℕ)
    → hf ≡ none
    → block_header b ≡ ok buf
    → accepts b df ≡ false
    → (tail : List ℕ) × (write_block file b (hf, df) ≡ (file ++ tail, err failed))
unfolding accepts write_block
data_refused file b hf none buf e hb a = absurd (ground arith)
data_refused file b hf (some n) buf e hb a =
    (buf ++ take n b.contents, ground (arith, append_assoc file buf (take n b.contents)))

-- A refused block leaves some bytes behind, and the error.
write_refused :
    (file : List ℕ) (b : Block) (faults : Fault × Fault)
    → faults.0 ≡ none
    → accepts b faults.1 ≡ false
    → (tail : List ℕ) × (write_block file b faults ≡ (file ++ tail, err failed))
write_refused file b (hf, df) e a = elim (block_header_cases b) [
  | inl (buf, hb) ↦ data_refused file b hf df buf e hb a
  | inr hb ↦ ([], unfold write_block in ground (arith, append-nil file))
]

pub accepted-IsBlock :
    (disk : Disk) (n : ℕ) (bs : List Block) → All IsSized bs → All IsBlock (accepted disk n bs)
unfolding accepted
accepted-IsBlock disk n [] h = tt
accepted-IsBlock disk n (b ∷ bs) (h, hs) = elim (Bool-cases (accepts b (disk n).1)) [
  | inl e ↦ rw e (accepts-IsBlock b (disk n).1 h e, accepted-IsBlock disk (n + 1) bs hs)
  | inr e ↦ rw e tt
]

pub total-accepted : (disk : Disk) (n : ℕ) (bs : List Block) → total (accepted disk n bs) ≤ total bs
unfolding accepted
total-accepted disk n [] = omega arith
total-accepted disk n (b ∷ bs) = ground (arith, total-accepted disk (n + 1) bs)

pub accepted_all :
    (disk : Disk) (n : ℕ) (bs : List Block)
    → all_accepted disk n bs ≡ true
    → accepted disk n bs ≡ bs
unfolding accepted all_accepted
accepted_all disk n [] e = refl
accepted_all disk n (b ∷ bs) e = ground (arith, accepted_all disk (n + 1) bs)

-- The device tells of every write that it cuts short. (The code reads the error of the data's
-- write only, so this is asked of the header's.)
abbrev pub HeadersIntact : Disk → Type 0
HeadersIntact disk = (n : ℕ) → (disk n).0 ≡ none

append_loop-nil :
    (disk : Disk) (n : ℕ) (bytes : List ℕ) (current : ℕ) (ret : List ℕ)
    → append_loop disk [] n bytes current ret ≡ (bytes, current, ok ret)
unfolding append_loop
append_loop-nil disk n bytes current ret = refl

module _ (disk : Disk) (intact : (n : ℕ) → (disk n).0 ≡ none) where
  -- One round of the loop on a block that is accepted.
  loop_round :
      (b : Block) (bs : List Block) (n : ℕ) (bytes : List ℕ) (current : ℕ) (ret : List ℕ)
      → IsSized b
      → current + (512 + b.block_length) < 2 ^ 32
      → accepts b (disk n).1 ≡ true
      → append_loop disk (b ∷ bs) n bytes current ret
        ≡ append_loop disk bs
            (n + 1)
            (bytes ++ encoded b)
            (512 + b.block_length + current)
            (ret ++ (current ∷ []))
  unfolding append_loop
  loop_round b bs n bytes current ret h fits a =
      let e : current +u32 (b.block_length +u32 512) ≡ 512 + b.block_length + current =
        omega arith in
      ground (arith, write_accepted bytes b (disk n) (intact n) h a, e)

  pub loop_complete :
      (bs : List Block) (n : ℕ) (bytes : List ℕ) (current : ℕ) (ret : List ℕ)
      → All IsSized bs
      → current + total bs < 2 ^ 32
      → all_accepted disk n bs ≡ true
      → append_loop disk bs n bytes current ret
        ≡ (bytes ++ encodings bs, current + total bs, ok (ret ++ offsets_from current bs))
  unfolding all_accepted
  loop_complete [] n bytes current ret h fits a =
      ground (arith, append-nil bytes, append-nil ret, append_loop-nil disk n bytes current ret)
  loop_complete (b ∷ bs) n bytes current ret (h, hs) fits a = ground (
    arith,
    loop_round b bs n bytes current ret h,
    loop_complete bs (n + 1) (bytes ++ encoded b) (512 + b.block_length + current)
        (ret ++ (current ∷ [])) hs (omega arith),
    append_assoc bytes (encoded b) (encodings bs),
    append_assoc ret (current ∷ []) (offsets_from (512 + b.block_length + current) bs),
  )

  -- The round that ends the loop with an error.
  loop_error :
      (b : Block) (bs : List Block) (n : ℕ) (bytes : List ℕ) (current : ℕ) (ret : List ℕ)
      → accepts b (disk n).1 ≡ false
      → (tail : List ℕ) × (append_loop disk (b ∷ bs) n bytes current ret
          ≡ (bytes ++ tail, current, err failed))
  unfolding append_loop
  loop_error b bs n bytes current ret a =
      let (tail, e) = write_refused bytes b (disk n) (intact n) a in (tail, ground (arith, e))

  pub loop_cut :
      (bs : List Block) (n : ℕ) (bytes : List ℕ) (current : ℕ) (ret : List ℕ)
      → All IsSized bs
      → current + total bs < 2 ^ 32
      → all_accepted disk n bs ≡ false
      → (tail : List ℕ) × (append_loop disk bs n bytes current ret ≡ (
        bytes ++ (encodings (accepted disk n bs) ++ tail),
        current + total (accepted disk n bs),
        err failed,
      ))
  unfolding all_accepted accepted
  loop_cut [] n bytes current ret h fits a = absurd (ground arith)
  loop_cut (b ∷ bs) n bytes current ret (h, hs) fits a = elim (Bool-cases (accepts b (disk n).1)) [
    | inl yes' ↦
        let (tail, e) =
          loop_cut bs (n + 1) (bytes ++ encoded b) (512 + b.block_length + current)
            (ret ++ (current ∷ [])) hs (omega arith) (ground arith) in
        (
          tail,
          ground (
            arith,
            e,
            loop_round b bs n bytes current ret h,
            append_assoc bytes (encoded b) (encodings (accepted disk (n + 1) bs) ++ tail),
            append_assoc (encoded b) (encodings (accepted disk (n + 1) bs)) tail,
          ),
        )
    | inr no' ↦ let (tail, e) = loop_error b bs n bytes current ret no' in (tail, ground (arith, e))
  ]

-- The call on an extent that takes it is its loop.
pub append_blocks-loop :
    (ex : Extent) (bs : List Block) (last_commit : Option ℕ) (disk : Disk)
    → ex.is_seal ≡ false
    → commit_differs last_commit ex.commit_length ≡ false
    → append_blocks ex bs last_commit disk
      ≡ finish ex (append_loop disk bs 0 ex.file.bytes ex.commit_length [])
unfolding append_blocks
append_blocks-loop ex bs last_commit disk s c = ground arith

accepts_IsBlock : (b : Block) → IsBlock b → accepts b none ≡ true
unfolding accepts block_header
accepts_IsBlock b h = ground (arith, h.aligned, h.summed, h.fits)

-- A device without faults takes all blocks that `writeBlock` takes.
pub all_accepted-IsBlock :
    (disk : Disk) (n : ℕ) (bs : List Block)
    → ((k : ℕ) → disk k ≡ (none, none))
    → All IsBlock bs
    → all_accepted disk n bs ≡ true
unfolding all_accepted
all_accepted-IsBlock disk n [] sound h = refl
all_accepted-IsBlock disk n (b ∷ bs) sound (h, hs) =
    ground (arith, sound n, accepts_IsBlock b h, all_accepted-IsBlock disk (n + 1) bs sound hs)

pub IsBlock-IsSized : (bs : List Block) → All IsBlock bs → All IsSized bs
IsBlock-IsSized [] h = tt
IsBlock-IsSized (b ∷ bs) (h, hs) =
    (record { sized = h.sized; word = h.word }, IsBlock-IsSized bs hs)
