-- ===== src/StreamClient/Blocks.antt =====
-- streamclient/mix_block.go: entries are put into blocks. Small entries share blocks of 4096 bytes,
-- each other entry has a block of its own.
pub mod Filling
pub mod Own
pub mod Packing
use autumn.Prelude.{
  ℕ, ◌+◌, ◌-◌, ◌*◌, ◌/◌, ◌%◌, ◌^◌, ◌≤◌, ◌≡◌, Bool, true, false, not, ◌||◌, Option, none, some, List,
  [], ◌∷◌, ◌++◌, leb, ltb, if◌then◌else◌, length, take, drop, replicate,
}
use autumn.Prelude.Outcome.{Outcome, ok, panic, ◌>>=◌}
use autumn.Extent.Checksum.{adler_check_sum}
use autumn.Extent.Block.{Block}
use autumn.Log.{LogEntry, Codec, should_write_value_to_lsm}

abbrev pub max_mixed_block_size : ℕ
max_mixed_block_size = 4096

abbrev pub max_entries_in_block : ℕ
max_entries_in_block = 100

-- utils.Ceil, on uint32.
unfoldable pub ceil : ℕ → ℕ → ℕ
ceil size align = (size + align + 2 ^ 32 - 1) % 2 ^ 32 / align * align

pub record MixedBlock : Type 0 where
  pub offsets : List ℕ
  pub contents : List ℕ
  pub tail : ℕ

unfoldable pub new_mixed_block : MixedBlock
new_mixed_block = record { offsets = []; contents = replicate max_mixed_block_size 0; tail = 0 }

module _ (C : Codec) where
  unfoldable pub can_fill : MixedBlock → LogEntry → Bool
  can_fill mb e = not (
      ltb max_mixed_block_size (mb.tail + C.size e) || leb max_entries_in_block (length mb.offsets))

  -- `MarshalTo` into `data[at:]`, which panics where the entry is longer than that.
  unfoldable pub marshal_to : List ℕ → ℕ → LogEntry → Outcome (List ℕ)
  marshal_to bs at e =
      if leb (at + C.size e) (length bs)
      then ok (take at bs ++ (C.marshal e ++ drop (at + C.size e) bs))
      else panic

  unfoldable pub fill_entry : MixedBlock → LogEntry → Outcome MixedBlock
  unfolding marshal_to
  fill_entry mb e = marshal_to mb.contents mb.tail e >>= λ contents. ok (record {
    offsets = mb.offsets ++ (mb.tail % 2 ^ 32 ∷ []);
    contents = contents;
    tail = mb.tail + C.size e;
  })

  unfoldable pub to_block : MixedBlock → Block
  to_block mb = record {
    check_sum = adler_check_sum mb.contents;
    block_length = max_mixed_block_size;
    contents = mb.contents;
    user_data = C.marshal_offsets (mb.offsets ++ (mb.tail % 2 ^ 32 ∷ []));
  }

  -- The body of the first loop: `mblock` is nil before the first entry.
  unfoldable pub fill_next :
      LogEntry → Option MixedBlock → List Block → Outcome (MixedBlock × List Block)
  fill_next e none blocks = fill_entry new_mixed_block e >>= λ mb. ok (mb, blocks)
  fill_next e (some mb) blocks = elim (can_fill mb e) [
    | true ↦ fill_entry mb e >>= λ mb'. ok (mb', blocks)
    | false ↦ fill_entry new_mixed_block e >>= λ mb'. ok (mb', blocks ++ (to_block mb ∷ []))
  ]

  abbrev pub with_last : Option MixedBlock → List Block → List Block
  with_last none blocks = blocks
  with_last (some mb) blocks = blocks ++ (to_block mb ∷ [])

  -- The first loop: the blocks, and the entries from the first that is not small on.
  unfoldable pub merge_small :
      List LogEntry → Option MixedBlock → List Block → Outcome (List Block × List LogEntry)
  merge_small [] mblock blocks = ok (with_last mblock blocks, [])
  merge_small (e ∷ es) mblock blocks = elim (should_write_value_to_lsm e) [
    | false ↦ ok (with_last mblock blocks, e ∷ es)
    | true ↦ fill_next e mblock blocks >>= λ r. merge_small es (some r.0) r.1
  ]

  unfoldable pub own_block : LogEntry → Outcome Block
  unfolding ceil marshal_to
  own_block e =
      let block_length = ceil (C.size e % 2 ^ 32) 512 in
      marshal_to (replicate block_length 0) 0 e >>= λ contents. ok (record {
        check_sum = adler_check_sum contents;
        block_length = block_length;
        contents = contents;
        user_data = C.marshal_offsets (0 ∷ C.size e % 2 ^ 32 ∷ []);
      })

  -- The second loop.
  unfoldable pub own_blocks : List LogEntry → Outcome (List Block)
  own_blocks [] = ok []
  own_blocks (e ∷ es) = own_block e >>= λ b. own_blocks es >>= λ bs. ok (b ∷ bs)

  -- `entriesToBlocks` on entries that sort.Slice has ordered: the blocks, and the places j and k of
  -- the first entry with a block of its own and of that block.
  unfoldable pub entries_to_blocks : List LogEntry → Outcome (List Block × ℕ × ℕ)
  entries_to_blocks [] = panic
  entries_to_blocks (e ∷ es) = merge_small (e ∷ es) none [] >>= λ r.
      own_blocks r.1 >>= λ big. ok (r.0 ++ big, length (e ∷ es) - length r.1, length r.0)
