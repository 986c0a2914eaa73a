-- ===== src/Extent/Entries/Total.antt =====
-- `ReadEntries` ends on every file whose offsets fit 32 bits, whatever its bytes: each block that it
-- reads moves the offset on.
use autumn.Prelude.{
  ℕ, zero, suc, ◌+◌, ◌^◌, ◌%◌, ◌≤◌, ◌<◌, ◌≡◌, refl, Bool, true, false, Option, none, some, List, [],
  ◌∷◌, ◌++◌, inl, inr, arith, leb, ltb, length, drop, Bool-cases, ◌==◌,
}
use autumn.Prelude.Outcome.{
  Error, eof, unexpected_eof, end_of_extent, end_of_stream, failed, Outcome, ok, err, panic, ◌>>=◌,
  Outcome-cases,
}
use autumn.Extent.Block.{Block, read_block}
use autumn.Extent.File.{Extent, end_of, ◌+u32◌}
use autumn.Extent.File.Replay.{read_block-shrinks}
use autumn.Log.{LogEntry, Codec, must}
use autumn.Extent.Entries.{
  infos_of, read_block_entries, size_of_entries, read_entries_loop, read_entries,
}

drop-inside : (n m : ℕ) (bs : List ℕ) → 0 < m → m ≤ length (drop n bs) → n + m ≤ length bs
drop-inside zero m bs pos h = omega arith
drop-inside (suc n) m [] pos h = absurd (omega arith)
drop-inside (suc n) m (b ∷ bs) pos h = omega (arith, drop-inside n m bs pos h)

module _ (C : Codec) where
  abbrev with_length : ℕ → List LogEntry → Outcome (List LogEntry × ℕ)
  with_length k es = ok (es, k)

  paired-ok :
      (o : Outcome (List LogEntry)) (k n : ℕ) (es : List LogEntry)
      → (o >>= λ fs. with_length k fs) ≡ ok (es, n)
      → n ≡ k
  paired-ok (ok fs) k n es h = cc
  paired-ok (err x) k n es h = absurd (cc)
  paired-ok panic k n es h = absurd (cc)

  infos-ok :
      (o : Outcome (List ℕ)) (replay : Bool) (id offset : ℕ) (bs : List ℕ) (es : List LogEntry)
      (n : ℕ)
      → (o >>= λ os. infos_of C replay id offset bs os >>= λ fs. with_length (length bs) fs)
        ≡ ok (es, n)
      → n ≡ length bs
  infos-ok (ok os) replay id offset bs es n h =
      paired-ok (infos_of C replay id offset bs os) (length bs) n es h
  infos-ok (err x) replay id offset bs es n h = absurd (cc)
  infos-ok panic replay id offset bs es n h = absurd (cc)

  block-ok :
      (o : Outcome (Block × List ℕ)) (replay : Bool) (id offset : ℕ) (es : List LogEntry) (n : ℕ)
      → (o >>= λ r. must (C.unmarshal_offsets r.0.user_data) >>= λ os.
          infos_of C replay id offset r.0.contents os >>= λ fs.
          with_length (length r.0.contents) fs)
        ≡ ok (es, n)
      → (b : Block) × (rest : List ℕ) × (o ≡ ok (b, rest)) × (n ≡ length b.contents)
  block-ok (ok (b, rest)) replay id offset es n h = (
    b,
    rest,
    refl,
    infos-ok (must (C.unmarshal_offsets b.user_data)) replay id offset b.contents es n h,
  )
  block-ok (err x) replay id offset es n h = absurd (cc)
  block-ok panic replay id offset es n h = absurd (cc)

  -- The length that `readBlockEntries` returns is that of the data, which the bytes hold.
  read_block_entries-fits :
      (replay : Bool) (id offset : ℕ) (bs : List ℕ) (es : List LogEntry) (n : ℕ)
      → read_block_entries C replay id offset bs ≡ ok (es, n)
      → 512 + n ≤ length bs
  unfolding read_block_entries
  read_block_entries-fits replay id offset bs es n h =
      let (b, rest, r, same) = block-ok (read_block bs) replay id offset es n h in
      omega (arith, same, read_block-shrinks bs b rest r)

  -- A block that fits behind `offset` ends inside the file, so the next offset does not wrap.
  advances :
      (offset n : ℕ) (bs : List ℕ)
      → length bs < 2 ^ 32
      → 512 + n ≤ length (drop offset bs)
      → (offset +u32 (n +u32 512) ≡ offset + (512 + n)) × (offset + (512 + n) ≤ length bs)
  advances offset n bs small fits =
      let inside = drop-inside offset (512 + n) bs (omega arith) fits in
      (omega (arith, inside), inside)

  -- What an answer without an error says: the offset moved on, and is inside the file. No outcome
  -- is an error in place of an answer.
  abbrev pub Moves : ℕ → Extent → Outcome (List LogEntry × ℕ × Option Error) → Type 0
  Moves offset ex (ok (es, end_offset, none)) =
      (offset < end_offset) × (end_offset ≤ length ex.file.bytes)
  Moves offset ex (ok (es, end_offset, some e)) = Unit
  Moves offset ex (err e) = true ≡ false
  Moves offset ex panic = Unit

  Moves-before :
      (offset next : ℕ) (ex : Extent) (r : Outcome (List LogEntry × ℕ × Option Error))
      → offset ≤ next
      → Moves next ex r
      → Moves offset ex r
  Moves-before offset next ex (ok (es, end_offset, none)) le (on, inside) = (omega arith, inside)
  Moves-before offset next ex (ok (es, end_offset, some e)) le m = tt
  Moves-before offset next ex (err e) le m = m
  Moves-before offset next ex panic le m = tt

  -- The loop ends if its fuel is more than the bytes behind `offset`.
  loop-total :
      (fuel : ℕ) (ex : Extent) (replay : Bool) (max size offset : ℕ) (ret : List LogEntry)
      → length ex.file.bytes < 2 ^ 32
      → 0 < fuel
      → length ex.file.bytes < offset + fuel
      → (r : Outcome (List LogEntry × ℕ × Option Error)) × (read_entries_loop C fuel ex replay max
            size offset ret
          ≡ some r)
        × Moves offset ex r
  unfolding read_entries_loop
  loop-total zero ex replay max size offset ret small left enough = absurd (omega arith)
  loop-total (suc fuel) ex replay max size offset ret small left enough =
      elim (Outcome-cases (read_block_entries C replay ex.id offset (drop offset ex.file.bytes))) [
        | inl ((es, n), e) ↦ elim (Bool-cases (ltb max ((size + size_of_entries C es) % 2 ^ 32))) [
          | inl over ↦
              let (next, inside) =
                advances offset n ex.file.bytes small (
                  read_block_entries-fits replay ex.id offset (drop offset ex.file.bytes) es n e) in
              (
                ok (ret ++ es, offset +u32 (n +u32 512), none),
                ground (arith, e, over),
                (omega (arith, next), omega (arith, next, inside)),
              )
          | inr within ↦
              let (next, inside) =
                advances offset n ex.file.bytes small (
                  read_block_entries-fits replay ex.id offset (drop offset ex.file.bytes) es n e) in
              let (r, p, m) =
                loop-total fuel ex replay max (size + size_of_entries C es)
                  (offset +u32 (n +u32 512)) (ret ++ es) small (omega (arith, next, inside))
                  (omega (arith, next)) in
              (
                r,
                ground (arith, e, within, p),
                Moves-before offset (offset +u32 (n +u32 512)) ex r (omega (arith, next)) m,
              )
        ]
        | inr (inl (eof, e)) ↦ (ok (ret, offset, some (end_of ex.is_seal)), ground (arith, e), tt)
        | inr (inl (unexpected_eof, e)) ↦ (ok ([], 0, some unexpected_eof), ground (arith, e), tt)
        | inr (inl (end_of_extent, e)) ↦ (ok ([], 0, some end_of_extent), ground (arith, e), tt)
        | inr (inl (end_of_stream, e)) ↦ (ok ([], 0, some end_of_stream), ground (arith, e), tt)
        | inr (inl (failed, e)) ↦ (ok ([], 0, some failed), ground (arith, e), tt)
        | inr (inr e) ↦ (panic, ground (arith, e), tt)
      ]

  -- Whatever the bytes of an extent's file, if these are fewer than 2 ^ 32, `ReadEntries` ends, from
  -- every offset, with every limit, for a replay and for a garbage collection: with a panic, which
  -- damaged offsets or entries in a block may cause, with the end marker or another error beside
  -- the entries, or without one, and then the offset that it returns is greater than the one that it
  -- was called with, and inside the file.
  pub read_entries-total :
      (ex : Extent) (offset max : ℕ) (replay : Bool)
      → length ex.file.bytes < 2 ^ 32
      → (r : Outcome (List LogEntry × ℕ × Option Error)) × (read_entries C ex offset max replay
          ≡ some r)
        × Moves offset ex r
  unfolding read_entries
  read_entries-total ex offset max replay small = elim (Bool-cases (offset == 0)) [
    | inl start ↦ (ok ([], 0, some failed), ground (arith, start), tt)
    | inr inner ↦ elim (Bool-cases (leb ex.commit_length offset)) [
      | inl done ↦ (ok ([], 0, some (end_of ex.is_seal)), ground (arith, inner, done), tt)
      | inr on ↦
          let (r, p, m) =
            loop-total (suc (length ex.file.bytes)) ex replay max 0 offset [] small (omega arith)
              (omega arith) in
          (r, ground (arith, inner, on, p), m)
    ]
  ]
