-- ===== src/Extent/Entries/Answers.antt =====
-- `ReadEntries` for a replay, on an extent that holds blocks of entries.
use autumn.Prelude.{
  ℕ, zero, suc, ◌+◌, ◌%◌, ◌^◌, ◌≤◌, ◌<◌, ◌≡◌, refl, sym, ap, ◌∙◌, ◌⊎◌, inl, inr, Bool, true, false,
  Option, none, some, List, [], ◌∷◌, ◌++◌, arith, append_assoc, append-nil, map, length,
  length-append, drop, drop-append, All-split, ltb, if◌then◌else◌, Bool-cases,
}
use autumn.Prelude.Outcome.{Error, ok, err, eof, end_of_extent, end_of_stream}
use autumn.Extent.Device.{read_full}
use autumn.Extent.Block.{Block, read_block}
use autumn.Extent.Block.RoundTrip.{IsBlock, encoded, length-encoded}
use autumn.Extent.Header.{marshal, length-marshal}
use autumn.Extent.File.{Extent, end_of, ◌+u32◌}
use autumn.Extent.File.Layout.{
  encodings, encodings-append, total, total-append, Holds, Holds-length, length-encodings,
}
use autumn.Log.{LogEntry, Codec}
use autumn.Log.Chunks.{Chunk, blocks_of}
use autumn.Extent.Entries.{read_block_entries, size_of_entries, read_entries_loop, read_entries}
use autumn.Extent.Entries.Reading.{read_back, read_all, info_sum, read_block_entries-Packs}
use autumn.Prelude.{not, ◌&&◌}

module _ (C : Codec) where
  abbrev pub is_nil : List (Chunk C) → Bool
  is_nil [] = true
  is_nil (c ∷ cs) = false

  -- Whether no answer stops at the last block because it passes the limit with it.
  abbrev pub keeps_going : ℕ → ℕ → ℕ → ℕ → List (Chunk C) → Bool
  keeps_going id offset max size [] = true
  keeps_going id offset max size (c ∷ cs) =
      let infos = map (read_back C id offset c.block.block_length) c.entries in
      let sum = size + info_sum C infos in
      let behind = offset + (512 + c.block.block_length) in
      let anew = keeps_going id behind max 0 cs in
      let on = keeps_going id behind max sum cs in
      if ltb max (sum % 2 ^ 32) then not (is_nil cs) && anew else on

  module _ (id offset max size : ℕ) (c : Chunk C) (cs : List (Chunk C)) where
    abbrev sum_with : ℕ
    sum_with = size + info_sum C (map (read_back C id offset c.block.block_length) c.entries)

    keeps_going-within :
        ltb max (sum_with % 2 ^ 32) ≡ false
        → keeps_going id offset max size (c ∷ cs)
          ≡ keeps_going id (offset + (512 + c.block.block_length)) max sum_with cs
    keeps_going-within within = rw within refl

    keeps_going-over :
        ltb max (sum_with % 2 ^ 32) ≡ true
        → keeps_going id offset max size (c ∷ cs)
          ≡ (not (is_nil cs) && keeps_going id (offset + (512 + c.block.block_length)) max 0 cs)
    keeps_going-over over = rw over refl

  -- What `ReadEntries` says of the blocks from `offset` on: the entries of some of them, the first
  -- ones, and the offset behind these. They end with the file, or with the first block that passes
  -- the limit.
  pub record IsAnswer (ex : Extent) (offset max_total_size size : ℕ) (cs : List (Chunk C))
      (r : List LogEntry × ℕ × Option Error) : Type 0 where
    pub now : List (Chunk C)
    pub later : List (Chunk C)
    pub split : cs ≡ now ++ later
    pub entries : r.0 ≡ read_all C ex.id offset now
    pub behind : r.1 ≡ offset + total (blocks_of C now)
    pub stopped :
        ((later ≡ []) × (r.2 ≡ some (if ex.is_seal then end_of_extent else end_of_stream)))
        ⊎ ((r.2 ≡ none) × (max_total_size < (size + info_sum C r.0) % 2 ^ 32))
    pub next :
        keeps_going ex.id offset max_total_size size cs ≡ true
        → r.2 ≡ none
        → (is_nil later ≡ false) × (keeps_going ex.id r.1 max_total_size 0 later ≡ true)

  size_of_entries-info_sum : (es : List LogEntry) → size_of_entries C es ≡ info_sum C es
  unfolding size_of_entries
  size_of_entries-info_sum [] = refl
  size_of_entries-info_sum (e ∷ es) = ap (λ n. C.info_size e + n) (size_of_entries-info_sum es)

  info_sum-append : (xs ys : List LogEntry) → info_sum C (xs ++ ys) ≡ info_sum C xs + info_sum C ys
  info_sum-append [] ys = omega arith
  info_sum-append (x ∷ xs) ys = omega (arith, info_sum-append xs ys)

  at_end :
      (ex : Extent) (offset : ℕ)
      → offset ≡ length ex.file.bytes
      → read_block_entries C true ex.id offset (drop offset ex.file.bytes) ≡ err eof
  unfolding read_block_entries read_block read_full
  at_end ex offset h =
      let gone : drop offset ex.file.bytes ≡ [] =
        ap (drop offset) (sym (append-nil ex.file.bytes)) ∙ drop-append ex.file.bytes [] offset h in
      rw gone refl

  block_ahead :
      (ex : Extent) (front back : List ℕ) (offset : ℕ) (c : Chunk C)
      → ex.file.bytes ≡ front ++ (encoded c.block ++ back)
      → offset ≡ length front
      → read_block_entries C true ex.id offset (drop offset ex.file.bytes)
        ≡ ok (map (read_back C ex.id offset c.block.block_length) c.entries, c.block.block_length)
  block_ahead ex front back offset c h w =
      ap (read_block_entries C true ex.id offset)
        (ap (drop offset) h ∙ drop-append front (encoded c.block ++ back) offset w)
      ∙ read_block_entries-Packs C ex.id offset c.block c.entries back c.packs

  length_le_total : (cs : List (Chunk C)) → length cs ≤ total (blocks_of C cs)
  length_le_total [] = omega arith
  length_le_total (c ∷ cs) = omega (arith, length_le_total cs)

  -- A shift of the answer by the blocks before.
  IsAnswer-cons :
      (ex : Extent) (offset max size : ℕ) (c : Chunk C) (cs : List (Chunk C)) (es : List LogEntry)
      (off : ℕ) (e : Option Error)
      → ltb max (sum_with ex.id offset max size c cs % 2 ^ 32) ≡ false
      → IsAnswer ex
          (offset + (512 + c.block.block_length))
          max
          (size + info_sum C (map (read_back C ex.id offset c.block.block_length) c.entries))
          cs
          (es, off, e)
      → IsAnswer ex offset max size
          (c ∷ cs)
          (map (read_back C ex.id offset c.block.block_length) c.entries ++ es, off, e)
  IsAnswer-cons ex offset max size c cs es off e within a =
      let first : List LogEntry = map (read_back C ex.id offset c.block.block_length) c.entries in
      let sum = info_sum-append first es in
      record {
        now = c ∷ a.now;
        later = a.later;
        split = ap (λ t. c ∷ t) a.split;
        entries = ap (λ t. first ++ t) a.entries;
        behind = omega (arith, a.behind);
        stopped = elim a.stopped [ inl p ↦ inl p | inr (p, q) ↦ inr (p, omega (arith, q, sum)) ];
        next = λ on n. a.next (sym (keeps_going-within ex.id offset max size c cs within) ∙ on) n;
      }

  module _ (fuel : ℕ) (ex : Extent) (max size offset len : ℕ) (first ret : List LogEntry)
      (here : read_block_entries C true ex.id offset (drop offset ex.file.bytes)
        ≡ ok (first, len)) where
    loop_over :
        ltb max ((size + info_sum C first) % 2 ^ 32) ≡ true
        → read_entries_loop C (suc fuel) ex true max size offset ret
          ≡ some (ok (ret ++ first, offset +u32 (len +u32 512), none))
    unfolding read_entries_loop
    loop_over over =
        rw (here, read_entries_loop)
          (rw
            (
              ap (λ n. ltb max ((size + n) % 2 ^ 32)) (size_of_entries-info_sum first) ∙ over,
              read_entries_loop,
            )
            (refl))

    loop_within :
        ltb max ((size + info_sum C first) % 2 ^ 32) ≡ false
        → read_entries_loop C (suc fuel) ex true max size offset ret
          ≡ read_entries_loop C fuel ex true max
              (size + info_sum C first)
              (offset +u32 (len +u32 512))
              (ret ++ first)
    unfolding read_entries_loop
    loop_within within =
        rw (here, read_entries_loop)
          (rw
            (
              ap (λ n. ltb max ((size + n) % 2 ^ 32)) (size_of_entries-info_sum first) ∙ within,
              read_entries_loop,
            )
            (ap
              (λ n.
                read_entries_loop C fuel ex true max (size + n) (offset +u32 (len +u32 512))
                  (ret ++ first))
              (size_of_entries-info_sum first)))

  read_entries_loop-IsAnswer :
      (cs : List (Chunk C)) (fuel : ℕ) (ex : Extent) (front : List ℕ) (max size offset : ℕ)
      (ret : List LogEntry)
      → ex.file.bytes ≡ front ++ encodings (blocks_of C cs)
      → offset ≡ length front
      → offset + total (blocks_of C cs) < 2 ^ 32
      → length cs < fuel
      → (es : List LogEntry) × (off : ℕ) × (e : Option Error) × (read_entries_loop C fuel ex true
            max size offset ret
          ≡ some (ok (ret ++ es, off, e)))
        × IsAnswer ex offset max size cs (es, off, e)
  unfolding read_entries_loop
  read_entries_loop-IsAnswer cs zero ex front max size offset ret h w fits few =
      absurd (omega arith)
  read_entries_loop-IsAnswer [] (suc fuel) ex front max size offset ret h w fits few =
      let there : offset ≡ length ex.file.bytes =
        omega (arith, w, ap (λ (t : List ℕ). length t) h, length-append front []) in
      (
        [],
        offset,
        some (end_of ex.is_seal),
        rw (at_end ex offset there, read_entries_loop)
            (ap (λ t. some (ok (t, offset, some (end_of ex.is_seal)))) (sym (append-nil ret))),
        record {
          now = [];
          later = [];
          split = refl;
          entries = refl;
          behind = omega arith;
          stopped = inl (refl, refl);
          next = λ on n. absurd (cc);
        },
      )
  read_entries_loop-IsAnswer (c ∷ cs) (suc fuel) ex front max size offset ret h w fits few =
      let len = c.block.block_length in
      let first : List LogEntry = map (read_back C ex.id offset len) c.entries in
      let sum = size + info_sum C first in
      let o : offset +u32 (len +u32 512) ≡ offset + (512 + len) = omega arith in
      let here = block_ahead ex front (encodings (blocks_of C cs)) offset c h w in
      elim (Bool-cases (ltb max (sum % 2 ^ 32))) [
        | inl over ↦ (
          first,
          offset + (512 + len),
          none,
          loop_over fuel ex max size offset len first ret here over
              ∙ ap (λ n. some (ok (ret ++ first, n, none))) o,
          record {
            now = c ∷ [];
            later = cs;
            split = refl;
            entries = sym (append-nil first);
            behind = omega arith;
            stopped = inr (refl, ground (arith, over));
            next = λ on n. ground (arith, keeps_going-over ex.id offset max size c cs over, on);
          },
        )
        | inr within ↦
            let (es, off, e, run, a) =
              read_entries_loop-IsAnswer cs fuel ex (front ++ encoded c.block) max sum
                (offset + (512 + len)) (ret ++ first)
                (h ∙ sym (append_assoc front (encoded c.block) (encodings (blocks_of C cs))))
                (omega (
                  arith,
                  w,
                  length-append front (encoded c.block),
                  length-encoded c.block c.packs.block,
                ))
                (omega arith) (omega arith) in
            (
              first ++ es,
              off,
              e,
              loop_within fuel ex max size offset len first ret here within
                  ∙ ap (λ n. read_entries_loop C fuel ex true max sum n (ret ++ first)) o
                  ∙ run
                  ∙ ap (λ t. some (ok (t, off, e))) (append_assoc ret first es),
              IsAnswer-cons ex offset max size c cs es off e within a,
            )
      ]

  -- On an extent that holds the blocks `before` and then, behind them, blocks of entries, at least
  -- one, `ReadEntries` for a replay from the first of these returns entries of the first of them,
  -- at least one, in order, each with the place of its block and without its value if it has a
  -- block of its own, and the offset behind these blocks. It stops, with the end marker, where the
  -- file ends, or without a marker once the sizes pass the limit. Where no answer on the way passes
  -- the limit with the last block of the file only (`keeps_going`), an answer without a marker
  -- leaves blocks, and the same holds of what it leaves.
  pub read_entries-IsAnswer :
      (ex : Extent) (before : List Block) (c : Chunk C) (cs : List (Chunk C)) (max : ℕ)
      → Holds ex (before ++ blocks_of C (c ∷ cs))
      → (es : List LogEntry) × (off : ℕ) × (e : Option Error) × (read_entries C ex
            (512 + total before)
            max
            true
          ≡ some (ok (es, off, e)))
        × IsAnswer ex (512 + total before) max 0 (c ∷ cs) (es, off, e)
  unfolding read_entries
  read_entries-IsAnswer ex before c cs max h =
      let front : List ℕ = marshal ex.id ++ encodings before in
      let (h_before, h_now) = All-split IsBlock before (blocks_of C (c ∷ cs)) h.blocks in
      let sum = total-append before (blocks_of C (c ∷ cs)) in
      let at : 512 + total before ≡ length front = omega (
        arith,
        length-append (marshal ex.id) (encodings before),
        length-marshal ex.id,
        length-encodings before h_before,
      ) in
      let bytes : ex.file.bytes ≡ front ++ encodings (blocks_of C (c ∷ cs)) =
        h.bytes
        ∙ ap (λ t. marshal ex.id ++ t) (encodings-append before (blocks_of C (c ∷ cs)))
        ∙ sym (append_assoc (marshal ex.id) (encodings before) _) in
      let (es, off, e, run, a) =
        read_entries_loop-IsAnswer (c ∷ cs) (suc (length ex.file.bytes)) ex front max 0
          (512 + total before) [] bytes at (omega (arith, sum, h.small))
          (omega (arith, Holds-length ex _ h, length_le_total (c ∷ cs), sum)) in
      (es, off, e, ground (arith, run, h.commit, sum), a)
