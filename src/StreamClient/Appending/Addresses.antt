-- ===== src/StreamClient/Appending/Addresses.antt =====
-- `AppendEntries`: the addresses that entries get lead back to their values.
use mathlib.Core.Path.{subst}
use autumn.Prelude.{
  ℕ, zero, suc, ◌+◌, ◌^◌, ◌≤◌, ◌<◌, ◌≡◌, refl, sym, ap, ◌∙◌, none, List, [], ◌∷◌, ◌++◌, arith,
  append_assoc, map, All, take, drop, Option, some, true,
}
use autumn.Prelude.Outcome.{ok}
use autumn.Extent.Block.{Block}
use autumn.Extent.File.{Extent, read_blocks}
use autumn.Extent.File.Layout.{total, total-append, Holds}
use autumn.Extent.File.Append.{offsets_from}
use autumn.Extent.File.Read.{read_blocks-Holds}
use autumn.Log.{LogEntry, Codec, bare, extract_log_entry}
use autumn.Log.Extraction.{is_small}
use autumn.Log.Chunks.{Chunk, blocks_of, entries_in}
use autumn.StreamClient.Blocks.{entries_to_blocks}
use autumn.StreamClient.Blocks.Own.{IsWritable}
use autumn.StreamClient.Blocks.Packing.{IsPacking, entries_to_blocks-IsPacking}
use autumn.StreamClient.Appending.{
  Answer, append, append_entries, set_addresses, finish_entries, last, end_of_block,
}

module _ (C : Codec) where
  -- The entry's address leads to a block that holds this entry alone.
  pub record IsAddressed (ex : Extent) (max : ℕ) (p : LogEntry) : Type 0 where
    pub extent : p.extent_id ≡ ex.id
    pub block : Block
    pub read : read_blocks ex p.offset 1 max ≡ ok (block ∷ [], none)
    pub extracted : extract_log_entry C block ≡ ok (bare p ∷ [])

  set_addresses-IsAddressed :
      (ex : Extent) (max : ℕ) (es : List LogEntry) (before bs after : List Block)
      → map (extract_log_entry C) bs ≡ map (λ e. ok (bare e ∷ [])) es
      → Holds ex (before ++ (bs ++ after))
      → total bs ≤ max
      → max < 2 ^ 32
      → (placed : List LogEntry) × (set_addresses ex.id es (offsets_from (512 + total before) bs)
          ≡ ok placed)
        × (map bare placed ≡ map bare es)
        × All (IsAddressed ex max) placed
  unfolding set_addresses
  set_addresses-IsAddressed ex max [] before bs after own holds room small = ([], refl, refl, tt)
  set_addresses-IsAddressed ex max (e ∷ es) before [] after own holds room small = absurd (cc)
  set_addresses-IsAddressed ex max (e ∷ es) before (b ∷ bs) after own holds room small =
      let first : extract_log_entry C b ≡ ok (bare e ∷ []) = cc in
      let others : map (extract_log_entry C) bs ≡ map (λ x. ok (bare x ∷ [])) es = cc in
      let grown : 512 + total (before ++ (b ∷ [])) ≡ 512 + b.block_length + (512 + total before) =
        omega (arith, total-append before (b ∷ [])) in
      let (placed, run, same, all) =
        set_addresses-IsAddressed ex max es (before ++ (b ∷ [])) bs after others
          (subst (Holds ex) (sym (append_assoc before (b ∷ []) (bs ++ after))) holds) (omega arith)
          small in
      (
        record e { extent_id = ex.id; offset = 512 + total before } ∷ placed,
        rw (sym grown) (rw run refl),
        ap (λ t. bare e ∷ t) same,
        (
          record {
            extent = refl;
            block = b;
            read = read_blocks-Holds ex before b [] (bs ++ after) max holds (omega arith) small;
            extracted = first;
          },
          all,
        ),
      )

  drop-offsets :
      (k at : ℕ) (bs : List Block)
      → (drop k (offsets_from at bs) ≡ offsets_from (at + total (take k bs)) (drop k bs))
        × (bs ≡ take k bs ++ drop k bs)
  drop-offsets zero at bs = (ap (λ n. offsets_from n bs) (omega arith), refl)
  drop-offsets (suc k) at [] = (refl, refl)
  drop-offsets (suc k) at (b ∷ bs) =
      let (offsets, split) = drop-offsets k (512 + b.block_length + at) bs in
      (offsets ∙ ap (λ n. offsets_from n (drop k bs)) (omega arith), ap (λ t. b ∷ t) split)

  end_of_block-offsets :
      (at : ℕ) (b : Block) (bs : List Block)
      → at + total (b ∷ bs) < 2 ^ 32
      → end_of_block (last (b ∷ bs)) (last (offsets_from at (b ∷ bs))) ≡ ok (at + total (b ∷ bs))
  end_of_block-offsets at b [] small = ap ok (omega arith)
  end_of_block-offsets at b (c ∷ bs) small =
      end_of_block-offsets (512 + b.block_length + at) c bs (omega arith) ∙ ap ok (omega arith)

  packing_end :
      (cs : List (Chunk C)) (blocks : List Block) (at : ℕ) (e : LogEntry) (es : List LogEntry)
      → entries_in C cs ≡ e ∷ es
      → blocks ≡ blocks_of C cs
      → at + total blocks < 2 ^ 32
      → end_of_block (last blocks) (last (offsets_from at blocks)) ≡ ok (at + total blocks)
  packing_end [] blocks at e es h whole small = absurd (cc)
  packing_end (c ∷ cs) [] at e es h whole small = absurd (cc)
  packing_end (c ∷ cs) (b ∷ bs) at e es h whole small = end_of_block-offsets at b bs small

  append_entries-steps :
      (sort : List LogEntry → List LogEntry) (answers : List Answer) (results : List (Option ℕ))
      (ids ids' : List ℕ) (x : LogEntry) (xs sorted : List LogEntry) (blocks : List Block)
      (j k id : ℕ) (offsets : List ℕ) (placed : List LogEntry) (end : ℕ)
      → sort (x ∷ xs) ≡ sorted
      → entries_to_blocks C sorted ≡ ok (blocks, j, k)
      → append answers results ids ≡ some (ids', ok (id, offsets))
      → set_addresses id (drop j sorted) (drop k offsets) ≡ ok placed
      → end_of_block (last blocks) (last offsets) ≡ ok end
      → append_entries C sort answers results ids (x ∷ xs)
        ≡ some (ids', ok (take j sorted ++ placed, id, end))
  unfolding append_entries
  append_entries-steps sort answers results ids ids' x xs sorted blocks j k id offsets placed end
        order layout appended set tail =
      let finished : finish_entries sorted (blocks, j, k) (ok (id, offsets))
          ≡ ok (take j sorted ++ placed, id, end) =
        rw (set, tail) refl in
      rw (order, append_entries)
        (rw (layout, append_entries)
          (rw (appended, append_entries)
            (ap (λ t. some (ids', finish_entries t (blocks, j, k) (ok (id, offsets)))) order
              ∙ ap (λ t. some (ids', t)) finished)))

  -- Entries, at least one, in the order of sort.Slice, that are not empty, with sizes that fit 32
  -- bits when rounded up to 512, and those that go to the memtable with 4096 bytes at most. If
  -- `Append` returns the extent `ex` with the places of the blocks behind the blocks `before`, as
  -- a node's `Append` gives them, then `AppendEntries` returns the sorted entries, the address of
  -- each from the j-th on set, and the end of the last block; every entry before the j-th is small,
  -- so each with a value of more than 1024 bytes has its address. Once
  -- `ex` holds these blocks, and whatever follows them, each of these addresses leads to its entry:
  -- `ReadBlocks` there, for one block, with a limit below 2^32 that the blocks do not pass, and
  -- `ExtractLogEntry` give this entry alone, with its value.
  pub append_entries-IsAddressed :
      (sort : List LogEntry → List LogEntry) (answers : List Answer) (results : List (Option ℕ))
      (ids ids' : List ℕ) (x : LogEntry) (xs : List LogEntry) (e : LogEntry) (es : List LogEntry)
      (ex : Extent) (before after blocks : List Block) (j k max : ℕ)
      → sort (x ∷ xs) ≡ e ∷ es
      → All (IsWritable C) (e ∷ es)
      → entries_to_blocks C (e ∷ es) ≡ ok (blocks, j, k)
      → append answers results ids
        ≡ some (ids', ok (ex.id, offsets_from (512 + total before) blocks))
      → Holds ex (before ++ (blocks ++ after))
      → total blocks ≤ max
      → max < 2 ^ 32
      → (placed : List LogEntry) × (append_entries C sort answers results ids (x ∷ xs)
          ≡ some (ids', ok (take j (e ∷ es) ++ placed, ex.id, 512 + total before + total blocks)))
        × (map bare placed ≡ map bare (drop j (e ∷ es)))
        × All (IsAddressed ex max) placed
        × All (λ p. is_small p ≡ true) (take j (e ∷ es))
  unfolding append_entries
  append_entries-IsAddressed sort answers results ids ids' x xs e es ex before after blocks j k max
        sorted w layout appended holds room small =
      let (blocks', j', k', run, packing') = entries_to_blocks-IsPacking C e es w in
      let same : ◌≡◌ {A = List Block × ℕ × ℕ} (blocks', j', k') (blocks, j, k) = cc in
      let packing : IsPacking C blocks j k (e ∷ es) =
        subst (λ (t : List Block × ℕ × ℕ). IsPacking C t.0 t.1 t.2 (e ∷ es)) same packing' in
      let (offsets, split) = drop-offsets k (512 + total before) blocks in
      let front = before ++ take k blocks in
      let at : 512 + total before + total (take k blocks) ≡ 512 + total front =
        omega (arith, total-append before (take k blocks)) in
      let place : before ++ (blocks ++ after) ≡ front ++ (drop k blocks ++ after) =
        ap (λ t. before ++ (t ++ after)) split
        ∙ ap (λ t. before ++ t) (append_assoc (take k blocks) (drop k blocks) after)
        ∙ sym (append_assoc before (take k blocks) (drop k blocks ++ after)) in
      let parts : total blocks ≡ total (take k blocks) + total (drop k blocks) =
        ap total split ∙ total-append (take k blocks) (drop k blocks) in
      let (placed, set, bares, all) =
        set_addresses-IsAddressed ex max (drop j (e ∷ es)) front (drop k blocks) after packing.own
          (subst (Holds ex) place holds) (omega (arith, parts)) small in
      let set' : set_addresses ex.id (drop j (e ∷ es))
            (drop k (offsets_from (512 + total before) blocks))
          ≡ ok placed =
        ap (set_addresses ex.id (drop j (e ∷ es)))
          (offsets ∙ ap (λ n. offsets_from n (drop k blocks)) at)
        ∙ set in
      let end =
        packing_end packing.chunks blocks (512 + total before) e es packing.entries packing.whole (
          omega (
            arith,
            holds.small,
            total-append before (blocks ++ after),
            total-append blocks after,
          )) in
      (
        placed,
        append_entries-steps sort answers results ids ids' x xs (e ∷ es) blocks j k ex.id
            (offsets_from (512 + total before) blocks) placed (512 + total before + total blocks)
            sorted layout appended set' end,
        bares,
        all,
        packing.front,
      )
