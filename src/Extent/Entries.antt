-- ===== src/Extent/Entries.antt =====
-- extent/extent.go: `readBlockEntries`, `sizeOfEntries` and `ReadEntries`, and the handler
-- `ReadEntries` of node/node_service.go.
pub mod Reading
pub mod Answers
pub mod Total
use autumn.Prelude.{
  ℕ, zero, suc, ◌+◌, ◌*◌, ◌%◌, ◌^◌, Bool, true, false, Option, none, some, List, [], ◌∷◌, ◌++◌, leb,
  ltb, ◌==◌, if◌then◌else◌, length, drop,
}
use autumn.Prelude.Outcome.{Error, Outcome, ok, err, panic, eof, failed, ◌>>=◌}
use autumn.Extent.Block.{read_block}
use autumn.Extent.File.{Extent, end_of, ◌+u32◌}
use autumn.RangePartition.Values.{set_value_pointer}
use autumn.Log.{LogEntry, Codec, should_write_value_to_lsm, must, entry_at}

abbrev pub max_entries_size : ℕ
max_entries_size = 25 * 2 ^ 20

-- What a garbage collection gets for a block of small entries.
abbrev pub gap_entry : ℕ → ℕ → ℕ → LogEntry
gap_entry id offset block_length = record {
  key = [];
  contents = [];
  meta = 0;
  user_meta = 0;
  expires_at = 0;
  extent_id = id;
  offset = offset;
  estimated_size = (block_length + 512) % 2 ^ 64;
}

-- What stands for an entry with a block of its own: its value is left out.
abbrev pub pointer_entry : ℕ → ℕ → ℕ → LogEntry → LogEntry
pointer_entry id offset block_length e = record e {
  contents = [];
  meta = set_value_pointer e.meta;
  extent_id = id;
  offset = offset;
  estimated_size = (block_length + 512) % 2 ^ 64;
}

module _ (C : Codec) where
  abbrev pub small_entry_info : ℕ → ℕ → LogEntry → LogEntry
  small_entry_info id offset e = record e {
    extent_id = id;
    offset = offset;
    estimated_size = C.size e;
  }

  -- The body of the loop of `readBlockEntries`: `alone` is the assertion on the number of offsets,
  -- and `rest` the result of the iterations that follow, where it does not return.
  unfoldable pub info_then :
      Bool → Bool → ℕ → ℕ → ℕ → LogEntry → Outcome (List LogEntry) → Outcome (List LogEntry)
  info_then replay alone id offset block_length e rest =
      if should_write_value_to_lsm e
      then (if replay
          then (rest >>= λ es. ok (small_entry_info id offset e ∷ es))
          else ok (gap_entry id offset block_length ∷ []))
      else (if alone then ok (pointer_entry id offset block_length e ∷ []) else panic)

  unfoldable pub infos_from : Bool → Bool → ℕ → ℕ → List ℕ → ℕ → List ℕ → Outcome (List LogEntry)
  infos_from replay alone id offset bs low [] = ok []
  infos_from replay alone id offset bs low (high ∷ os) =
      let rest = infos_from replay alone id offset bs high os in
      entry_at C bs low high >>= λ e. info_then replay alone id offset (length bs) e rest

  abbrev pub infos_of : Bool → ℕ → ℕ → List ℕ → List ℕ → Outcome (List LogEntry)
  infos_of replay id offset bs [] = ok []
  infos_of replay id offset bs (o ∷ os) = infos_from replay (length os == 1) id offset bs o os

  -- The entries of the block at the front, and its length: the header is read as in `readBlock`, and
  -- the data is as long as the header says.
  unfoldable pub read_block_entries : Bool → ℕ → ℕ → List ℕ → Outcome (List LogEntry × ℕ)
  read_block_entries replay id offset bs = read_block bs >>= λ r.
      must (C.unmarshal_offsets r.0.user_data) >>= λ os.
      infos_of replay id offset r.0.contents os >>= λ es. ok (es, length r.0.contents)

  unfoldable pub size_of_entries : List LogEntry → ℕ
  size_of_entries [] = 0
  size_of_entries (e ∷ es) = C.info_size e + size_of_entries es

  -- The loop of `ReadEntries`: the entries, the offset behind them, and the error that says how they
  -- end; none in place of an outcome means that the fuel ran out.
  unfoldable pub read_entries_loop :
      ℕ
      → Extent
      → Bool
      → ℕ
      → ℕ
      → ℕ
      → List LogEntry
      → Option (Outcome (List LogEntry × ℕ × Option Error))
  read_entries_loop zero ex replay max_total_size size offset ret = none
  read_entries_loop (suc fuel) ex replay max_total_size size offset ret =
      elim (read_block_entries replay ex.id offset (drop offset ex.file.bytes)) [
        | ok (es, block_length) ↦ elim (ltb max_total_size ((size + size_of_entries es) % 2 ^ 32)) [
          | true ↦ some (ok (ret ++ es, offset +u32 (block_length +u32 512), none))
          | false ↦
              read_entries_loop fuel ex replay max_total_size (size + size_of_entries es)
                (offset +u32 (block_length +u32 512)) (ret ++ es)
        ]
        | err eof ↦ some (ok (ret, offset, some (end_of ex.is_seal)))
        | err e ↦ some (ok ([], 0, some e))
        | panic ↦ some panic
      ]

  -- Each block takes 512 bytes at least, so the length of the file is fuel enough where the
  -- offsets do not wrap around.
  unfoldable pub read_entries :
      Extent → ℕ → ℕ → Bool → Option (Outcome (List LogEntry × ℕ × Option Error))
  read_entries ex offset max_total_size replay =
      if offset == 0
      then some (ok ([], 0, some failed))
      else if leb ex.commit_length offset
      then some (ok ([], 0, some (end_of ex.is_seal)))
      else read_entries_loop (suc (length ex.file.bytes)) ex replay max_total_size 0 offset []
