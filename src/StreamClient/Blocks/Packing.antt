-- ===== src/StreamClient/Blocks/Packing.antt =====
-- `entriesToBlocks`: each entry is in a block, in the order given.
use mathlib.Core.Path.{subst}
use autumn.Prelude.{
  ℕ, ◌+◌, ◌-◌, ◌≤◌, ◌<◌, ◌≡◌, refl, sym, ap, ◌∙◌, true, Option, none, some, List, [], ◌∷◌, ◌++◌,
  arith, append_assoc, append-nil, map, length, length-append, drop, drop-append, All, inr, inl,
  Bool-cases, take, take-append, false,
}
use autumn.Prelude.Outcome.{ok}
use autumn.Extent.Block.{Block}
use autumn.Log.{LogEntry, Codec, bare, should_write_value_to_lsm, extract_log_entry}
use autumn.Log.Extraction.{is_small, should_write_value_to_lsm-is_small}
use autumn.Log.Chunks.{Chunk, blocks_of, entries_in, blocks_of-append, entries_in-append}
use autumn.StreamClient.Blocks.{
  MixedBlock, new_mixed_block, can_fill, fill_entry, to_block, fill_next, with_last, merge_small,
  entries_to_blocks,
}
use autumn.StreamClient.Blocks.Filling.{
  IsFilled, new_mixed_block-IsFilled, fill_entry-IsFilled, to_block-Packs,
}
use autumn.StreamClient.Blocks.Own.{IsWritable, own_blocks-AreOwn}

module _ (C : Codec) where
  -- The entries that the current block has taken.
  abbrev IsOpen : Option MixedBlock → List LogEntry → Type 0
  IsOpen none cur = cur ≡ []
  IsOpen (some mb) cur = IsFilled C mb cur

  closed : (mb : MixedBlock) (cur : List LogEntry) → IsFilled C mb cur → Chunk C
  closed mb cur h = record {
    block = to_block C mb;
    entries = cur;
    packs = to_block-Packs C mb cur h;
  }

  with_closed :
      (cs : List (Chunk C)) (mb : MixedBlock) (cur : List LogEntry)
      → IsFilled C mb cur
      → (cs' : List (Chunk C)) × (blocks_of C cs ++ (to_block C mb ∷ []) ≡ blocks_of C cs')
        × (entries_in C cs' ≡ entries_in C cs ++ cur)
  unfolding closed
  with_closed cs mb cur h = (
    cs ++ (closed mb cur h ∷ []),
    sym (blocks_of-append C cs (closed mb cur h ∷ [])),
    entries_in-append C cs (closed mb cur h ∷ []) ∙ ap (λ t. entries_in C cs ++ t) (append-nil cur),
  )

  with_last-IsOpen :
      (cs : List (Chunk C)) (mblock : Option MixedBlock) (cur : List LogEntry)
      → IsOpen mblock cur
      → (cs' : List (Chunk C)) × (with_last C mblock (blocks_of C cs) ≡ blocks_of C cs')
        × (entries_in C cs' ≡ entries_in C cs ++ cur)
  with_last-IsOpen cs none cur h =
      (cs, refl, sym (ap (λ t. entries_in C cs ++ t) h ∙ append-nil (entries_in C cs)))
  with_last-IsOpen cs (some mb) cur h = with_closed cs mb cur h

  first_in_block :
      (e : LogEntry)
      → IsWritable C e
      → should_write_value_to_lsm e ≡ true
      → (mb' : MixedBlock) × (fill_entry C new_mixed_block e ≡ ok mb') × IsFilled C mb' (e ∷ [])
  first_in_block e w small =
      fill_entry-IsFilled C new_mixed_block [] e (new_mixed_block-IsFilled C) small
        (omega (arith, w.small small, IsFilled.tail (new_mixed_block-IsFilled C))) (omega arith)

  -- The next small entry goes into the current block, or into a new one.
  fill_next-IsOpen :
      (e : LogEntry) (cs : List (Chunk C)) (mblock : Option MixedBlock) (cur : List LogEntry)
      → IsWritable C e
      → should_write_value_to_lsm e ≡ true
      → IsOpen mblock cur
      → (mb' : MixedBlock) × (cs' : List (Chunk C)) × (cur' : List LogEntry) × (fill_next C e mblock
            (blocks_of C cs)
          ≡ ok (mb', blocks_of C cs'))
        × IsFilled C mb' cur'
        × (entries_in C cs' ++ cur' ≡ entries_in C cs ++ (cur ++ (e ∷ [])))
  unfolding fill_next
  fill_next-IsOpen e cs none cur w small h =
      let (mb', filled, h') = first_in_block e w small in
      (mb', cs, e ∷ [], rw filled refl, h', ap (λ t. entries_in C cs ++ (t ++ (e ∷ []))) (sym h))
  fill_next-IsOpen e cs (some mb) cur w small h = elim (Bool-cases (can_fill C mb e)) [
    | inl can ↦
        let room : (mb.tail + C.size e ≤ 4096) × (length mb.offsets < 100) =
          unfold can_fill in ground (arith, can) in
        let (mb', filled, h') =
          fill_entry-IsFilled C mb cur e h small room.0 (omega (arith, room.1, h.count)) in
        (mb', cs, cur ++ (e ∷ []), rw (can, fill_next) (rw filled refl), h', refl)
    | inr full ↦
        let (mb', filled, h') = first_in_block e w small in
        let (cs', same, kept) = with_closed cs mb cur h in
        (
          mb',
          cs',
          e ∷ [],
          rw (full, fill_next) (rw (filled, same) refl),
          h',
          ap (λ t. t ++ (e ∷ [])) kept ∙ append_assoc (entries_in C cs) cur (e ∷ []),
        )
  ]

  -- The first entry has a block of its own.
  abbrev pub StartsBig : List LogEntry → Type 0
  StartsBig [] = Unit
  StartsBig (e ∷ es) = is_small e ≡ false

  -- What the first loop takes, and what it leaves to the second.
  merge_small-IsOpen :
      (es : List LogEntry) (cs : List (Chunk C)) (mblock : Option MixedBlock) (cur : List LogEntry)
      → All (IsWritable C) es
      → IsOpen mblock cur
      → (cs' : List (Chunk C)) × (rest : List LogEntry) × (merge_small C es mblock (blocks_of C cs)
          ≡ ok (blocks_of C cs', rest))
        × (entries_in C cs' ++ rest ≡ entries_in C cs ++ (cur ++ es))
        × All (IsWritable C) rest
        × (taken : List LogEntry) × (es ≡ taken ++ rest)
        × All (λ e. is_small e ≡ true) taken
        × StartsBig rest
  unfolding merge_small
  merge_small-IsOpen [] cs mblock cur w h =
      let (cs', same, kept) = with_last-IsOpen cs mblock cur h in
      (
        cs',
        [],
        rw same refl,
        append-nil (entries_in C cs')
            ∙ kept
            ∙ ap (λ t. entries_in C cs ++ t) (sym (append-nil cur)),
        tt,
        [],
        refl,
        tt,
        tt,
      )
  merge_small-IsOpen (e ∷ es) cs mblock cur (we, w) h =
      elim (Bool-cases (should_write_value_to_lsm e)) [
        | inl small ↦
            let (mb', cs1, cur1, filled, h1, kept1) = fill_next-IsOpen e cs mblock cur we small h in
            let (cs', rest, run, kept, wr, taken, split, all, first_big) =
              merge_small-IsOpen es cs1 (some mb') cur1 w h1 in
            (
              cs',
              rest,
              rw (small, merge_small) (rw filled run),
              kept
                  ∙ sym (append_assoc (entries_in C cs1) cur1 es)
                  ∙ ap (λ t. t ++ es) kept1
                  ∙ append_assoc (entries_in C cs) (cur ++ (e ∷ [])) es
                  ∙ ap (λ t. entries_in C cs ++ t) (append_assoc cur (e ∷ []) es),
              wr,
              e ∷ taken,
              ap (λ t. e ∷ t) split,
              (sym (should_write_value_to_lsm-is_small e) ∙ small, all),
              first_big,
            )
        | inr big ↦
            let (cs', same, kept) = with_last-IsOpen cs mblock cur h in
            (
              cs',
              e ∷ es,
              rw (big, merge_small) (rw same refl),
              ap (λ t. t ++ (e ∷ es)) kept ∙ append_assoc (entries_in C cs) cur (e ∷ es),
              (we, w),
              [],
              refl,
              tt,
              sym (should_write_value_to_lsm-is_small e) ∙ big,
            )
      ]

  -- The blocks that hold entries in a row, and those of single entries behind them.
  pub record IsPacking (blocks : List Block) (j k : ℕ) (es : List LogEntry) : Type 0 where
    pub chunks : List (Chunk C)
    pub whole : blocks ≡ blocks_of C chunks
    pub entries : entries_in C chunks ≡ es
    pub own : map (extract_log_entry C) (drop k blocks) ≡ map (λ e. ok (bare e ∷ [])) (drop j es)
    pub front : All (λ e. is_small e ≡ true) (take j es)
    pub first_own : StartsBig (drop j es)

  -- Entries, at least one, that are not empty, with sizes that fit 32 bits when rounded up to 512,
  -- and those that go to the memtable with 4096 bytes at most, are put into blocks that `writeBlock`
  -- accepts. Extracted one block after the other, these give the entries in the order given, and
  -- the blocks from the k-th on have one entry each, the entries from the j-th on. The entries before
  -- the j-th are all small, with values of at most 1024 bytes that are no pointers, and the j-th, if
  -- there is one, is not.
  pub entries_to_blocks-IsPacking :
      (e : LogEntry) (es : List LogEntry)
      → All (IsWritable C) (e ∷ es)
      → (blocks : List Block) × (j k : ℕ) × (entries_to_blocks C (e ∷ es) ≡ ok (blocks, j, k))
        × IsPacking blocks j k (e ∷ es)
  unfolding entries_to_blocks
  entries_to_blocks-IsPacking e es w =
      let (cs, rest, run, kept, wr, taken, split, all, first_big) =
        merge_small-IsOpen (e ∷ es) [] none [] w refl in
      let (bs, run', a) = own_blocks-AreOwn C rest wr in
      let from_j : drop (length (e ∷ es) - length rest) (e ∷ es) ≡ rest =
        ap (drop (length (e ∷ es) - length rest)) (sym kept)
        ∙ drop-append (entries_in C cs) rest (length (e ∷ es) - length rest) (
            omega (
              arith,
              ap (λ (t : List LogEntry). length t) kept,
              length-append (entries_in C cs) rest,
            )) in
      let to_j : take (length (e ∷ es) - length rest) (e ∷ es) ≡ taken =
        ap (take (length (e ∷ es) - length rest)) split
        ∙ take-append taken rest (length (e ∷ es) - length rest)
            (omega (arith, ap (λ (t : List LogEntry). length t) split, length-append taken rest)) in
      let from_k = drop-append (blocks_of C cs) bs (length (blocks_of C cs)) refl in
      (
        blocks_of C cs ++ bs,
        length (e ∷ es) - length rest,
        length (blocks_of C cs),
        rw (run, run') refl,
        record {
          chunks = cs ++ a.chunks;
          whole = ap (λ t. blocks_of C cs ++ t) a.blocks ∙ sym (blocks_of-append C cs a.chunks);
          entries =
              entries_in-append C cs a.chunks ∙ ap (λ t. entries_in C cs ++ t) a.entries ∙ kept;
          own =
              ap (map (extract_log_entry C)) from_k
              ∙ a.own
              ∙ ap (map (λ e. ok (bare e ∷ []))) (sym from_j);
          front = subst (All (λ e. is_small e ≡ true)) (sym to_j) all;
          first_own = subst StartsBig (sym from_j) first_big;
        },
      )
