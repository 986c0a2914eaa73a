-- ===== src/Extent/File/Replay.antt =====
-- The replay of `OpenExtent` ends on every file: each block that it reads shortens what is left.
use mathlib.Core.Path.{subst}
use autumn.Prelude.{
  ap, ◌∙◌, ◌-◌, ◌≢◌, [], ◌++◌, append-nil, take-append, replicate, ℕ, zero, suc, ◌+◌, ◌^◌, ◌%◌, ◌<◌,
  ◌≡◌, refl, some, List, ◌⊎◌, ◌==◌, inl, inr, arith, leb, ltb, length, length-drop, length-take_le,
  take, drop, ◌≤◌, true, false, sym, Bool-cases,
}
use autumn.Prelude.Outcome.{
  Error, eof, unexpected_eof, Outcome, ok, err, panic, ◌>>=◌, Outcome-cases,
}
use autumn.Extent.Device.{read_full, truncate, length-truncate}
use autumn.Prelude.Bytes.{uint32}
use autumn.Prelude.Uvarint.{Uvarint, value, overflow, uvarint}
use autumn.Extent.Block.{Block, read_block, read_fields, read_data, read_user_data}
use autumn.Extent.Header.{unmarshal}
use autumn.Extent.File.{
  DiskFile, Extent, Scan, complete, corrupt, crashed, scan, ◌+u32◌, opened, open_extent,
}

read_full-shrinks :
    (n : ℕ) (bs xs ys : List ℕ) → read_full n bs ≡ ok (xs, ys) → n + length ys ≡ length bs
unfolding read_full
read_full-shrinks n bs xs ys e = ground (arith, length-drop n bs)

length-read_full : (n : ℕ) (bs xs ys : List ℕ) → read_full n bs ≡ ok (xs, ys) → length xs ≡ n
unfolding read_full
length-read_full n bs xs ys e = ground (arith, length-take_le n bs)

read_full-cases :
    (n : ℕ) (bs : List ℕ)
    → ((xs ys : List ℕ) × (read_full n bs ≡ ok (xs, ys))) ⊎ ((x : Error) × (read_full n bs ≡ err x))
unfolding read_full
read_full-cases n bs = elim (Bool-cases (leb n (length bs))) [
  | inl e ↦ inl (take n bs, drop n bs, ground arith)
  | inr e ↦ elim (Bool-cases (length bs == 0)) [
    | inl z ↦ inr (eof, ground arith)
    | inr z ↦ inr (unexpected_eof, ground arith)
  ]
]

-- The data of a block and what is left behind it make up the bytes; the length that is returned is
-- that of the data, in 32 bits.
abbrev Taken : Block → List ℕ → List ℕ → Type 0
Taken b rest bs =
    (length b.contents + length rest ≡ length bs) × (b.block_length ≡ length b.contents % 2 ^ 32)

read_data-shrinks :
    (sum len : ℕ) (ud bs : List ℕ) (b : Block) (rest : List ℕ)
    → read_data sum len ud bs ≡ ok (b, rest)
    → Taken b rest bs
unfolding read_data
read_data-shrinks sum len ud bs b rest e = elim (read_full-cases len bs) [
  | inl (xs, ys, r) ↦ (
    ground (arith, r, read_full-shrinks len bs xs ys r, length-read_full len bs xs ys r),
    ground (arith, r, length-read_full len bs xs ys r),
  )
  | inr (x, r) ↦ absurd (ground (arith, r))
]

user_data-cases :
    (sum len : ℕ) (o : Outcome (List ℕ)) (bs : List ℕ) (b : Block) (rest : List ℕ)
    → (o >>= λ ud. read_data sum len ud bs) ≡ ok (b, rest)
    → Taken b rest bs
user_data-cases sum len (ok ud) bs b rest e = read_data-shrinks sum len ud bs b rest e
user_data-cases sum len (err x) bs b rest e = absurd (cc)
user_data-cases sum len panic bs b rest e = absurd (cc)

read_fields-shrinks :
    (buf bs : List ℕ) (u : Uvarint) (b : Block) (rest : List ℕ)
    → read_fields buf bs u ≡ ok (b, rest)
    → Taken b rest bs
read_fields-shrinks buf bs (overflow n) b rest e = absurd (cc)
read_fields-shrinks buf bs (value len n) b rest e =
    user_data-cases (uint32 (take 4 buf)) len (read_user_data buf (4 + n)) bs b rest e

-- A block takes its header and its data from the front of the bytes.
read_block-Taken :
    (bs : List ℕ) (b : Block) (rest : List ℕ)
    → read_block bs ≡ ok (b, rest)
    → (512 + length b.contents + length rest ≡ length bs)
      × (b.block_length ≡ length b.contents % 2 ^ 32)
unfolding read_block
read_block-Taken bs b rest e = elim (read_full-cases 512 bs) [
  | inl (xs, ys, r) ↦
      let (taken, sized) =
        read_fields-shrinks xs ys (uvarint (drop 4 xs)) b rest (ground (arith, r)) in
      (omega (arith, taken, read_full-shrinks 512 bs xs ys r), sized)
  | inr (x, r) ↦ absurd (ground (arith, r))
]

pub read_block-shrinks :
    (bs : List ℕ) (b : Block) (rest : List ℕ)
    → read_block bs ≡ ok (b, rest)
    → 512 + length b.contents + length rest ≡ length bs
read_block-shrinks bs b rest e = (read_block-Taken bs b rest e).0

-- Where the scan ends in a file of `size` bytes.
abbrev EndsIn : ℕ → Scan → Type 0
EndsIn size (complete offset) = offset ≡ size
EndsIn size (corrupt offset) = offset ≤ size
EndsIn size crashed = Unit

-- The scan ends if its fuel is more than the bytes that are left, and where its offset and these make
-- up the file, it ends in the file.
scan-total :
    (fuel size offset : ℕ) (rest : List ℕ)
    → length rest < fuel
    → (s : Scan) × (scan fuel size offset rest ≡ some s)
      × (size < 2 ^ 32 → offset + length rest ≡ size → EndsIn size s)
unfolding scan
scan-total zero size offset rest h = absurd (omega arith)
scan-total (suc fuel) size offset rest h = elim (Bool-cases (ltb offset size)) [
  | inr reached ↦ (complete offset, ground arith, λ small whole. ground (arith, reached))
  | inl more ↦ elim (Outcome-cases (read_block rest)) [
    | inl ((b, rest'), e) ↦
        let taken = read_block-shrinks rest b rest' e in
        let (s, p, q) =
          scan-total fuel size (offset +u32 (b.block_length +u32 512)) rest'
            (omega (arith, taken)) in
        (
          s,
          ground (arith, e, p),
          λ small whole. q small (omega (arith, taken, (read_block-Taken rest b rest' e).1)),
        )
    | inr (inl (x, e)) ↦ (corrupt offset, ground (arith, e), λ small whole. omega arith)
    | inr (inr e) ↦ (crashed, ground (arith, e), λ small whole. tt)
  ]
]

unmarshal-shrinks :
    (bs : List ℕ) (id : ℕ) (rest : List ℕ)
    → unmarshal bs ≡ ok (id, rest)
    → 512 + length rest ≡ length bs
unfolding unmarshal
unmarshal-shrinks bs id rest e = elim (read_full-cases 512 bs) [
  | inl (xs, ys, r) ↦ ground (arith, r, read_full-shrinks 512 bs xs ys r)
  | inr (x, r) ↦ ground (arith, r)
]

unmarshal-ne-panic : (bs : List ℕ) → unmarshal bs ≢ panic
unfolding unmarshal
unmarshal-ne-panic bs e = elim (read_full-cases 512 bs) [
  | inl (xs, ys, r) ↦ ground (arith, r)
  | inr (x, r) ↦ ground (arith, r)
]

-- `OpenExtent` returns on every file, whatever its bytes and its attribute.
pub open_extent-total : (f : DiskFile) → (r : Outcome Extent) × (open_extent f ≡ some r)
unfolding open_extent
open_extent-total f = elim (Bool-cases f.seal_attr) [
  | inl closed ↦ rw closed (_, refl)
  | inr raw ↦ elim (Outcome-cases (unmarshal f.bytes)) [
    | inl ((id, rest), e) ↦
        let (s, p, q) =
          scan-total (length f.bytes) (length f.bytes % 2 ^ 32) 512 rest
            (omega (arith, unmarshal-shrinks f.bytes id rest e)) in
        (opened f id s, ground (arith, e, p))
    | inr (inl (x, e)) ↦ (err x, ground (arith, e))
    | inr (inr e) ↦ (panic, ground (arith, e))
  ]
]

-- What `OpenExtent` may give for a file.
abbrev pub Opens : DiskFile → Outcome Extent → Type 0
Opens f (ok ex) =
    (ex.commit_length ≡ length ex.file.bytes)
    × (ex.file.bytes ≡ take ex.commit_length f.bytes)
    × (ex.is_seal ≡ f.seal_attr)
Opens f (err e) = Unit
Opens f panic = f.seal_attr ≡ false

take_whole : (bs : List ℕ) → bs ≡ take (length bs) bs
take_whole bs =
    sym (ap (take (length bs)) (sym (append-nil bs)) ∙ take-append bs [] (length bs) refl)

opened-Opens :
    (f : DiskFile) (id : ℕ) (s : Scan)
    → f.seal_attr ≡ false
    → EndsIn (length f.bytes) s
    → Opens f (opened f id s)
unfolding opened
opened-Opens f id (complete offset) raw h =
    (h, take_whole f.bytes ∙ ap (λ n. take n f.bytes) (sym h), sym raw)
opened-Opens f id (corrupt offset) raw h =
    let none_missing : offset - length f.bytes ≡ 0 = omega arith in
    (
      sym (length-truncate offset f.bytes h),
      unfold truncate in ap (λ n. take offset f.bytes ++ replicate n 0) none_missing ∙ append-nil _,
      sym raw,
    )
opened-Opens f id crashed raw h = raw

-- Whatever the bytes of a file, if these are fewer than 2^32, `OpenExtent` ends: with an error, with
-- a panic, and then the file does not have the attribute of a sealed one, or with an extent whose commit
-- length is the length that its file has now, whose file is that many first bytes of what it was, and
-- which is sealed if and only if the file has the attribute.
pub open_extent-Opens :
    (f : DiskFile)
    → length f.bytes < 2 ^ 32
    → (r : Outcome Extent) × (open_extent f ≡ some r) × Opens f r
unfolding open_extent
open_extent-Opens f small = elim (Bool-cases f.seal_attr) [
  | inl closed ↦ elim (Outcome-cases (unmarshal f.bytes)) [
    | inl ((id, rest), e) ↦ (
      ok (record { is_seal = true; commit_length = length f.bytes; id = id; file = f }),
      ground (arith, e),
      (refl, take_whole f.bytes, sym closed),
    )
    | inr (inl (x, e)) ↦ (err x, ground (arith, e), tt)
    | inr (inr e) ↦ absurd (unmarshal-ne-panic f.bytes e)
  ]
  | inr raw ↦ elim (Outcome-cases (unmarshal f.bytes)) [
    | inl ((id, rest), e) ↦
        let front = unmarshal-shrinks f.bytes id rest e in
        let (s, p, q) =
          scan-total (length f.bytes) (length f.bytes % 2 ^ 32) 512 rest (omega (arith, front)) in
        let size : length f.bytes % 2 ^ 32 ≡ length f.bytes = omega arith in
        (
          opened f id s,
          ground (arith, e, p),
          opened-Opens f id s raw
              (subst (λ n. EndsIn n s) size (q (omega arith) (omega (arith, front)))),
        )
    | inr (inl (x, e)) ↦ (err x, ground (arith, e), tt)
    | inr (inr e) ↦ absurd (unmarshal-ne-panic f.bytes e)
  ]
]
