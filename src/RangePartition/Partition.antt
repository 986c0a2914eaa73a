-- ===== src/RangePartition/Partition.antt =====
-- rangepartition/range_rangepartition.go and valuelog.go: one partition, its memtables and its tables.
pub mod Validity
pub mod Reads
pub mod Rotation
pub mod Flushing
pub mod Attempts
pub mod Room
pub mod Writes
pub mod Sent
pub mod Clients
pub mod Batches
pub mod Empty
pub mod Sorting
use autumn.Prelude.{
  ℕ, zero, suc, ◌+◌, ◌^◌, ◌%◌, ◌==◌, Bool, true, false, not, ◌&&◌, ◌||◌, Option, none, some, List,
  [], ◌∷◌, ◌++◌, ltb, leb, if◌then◌else◌, length, map,
}
use autumn.Prelude.Outcome.{Outcome, ok, err, panic, failed, eof, ◌>>=◌}
use autumn.RangePartition.Keys.{key_with_ts, parse_key, parse_ts}
use autumn.RangePartition.Values.{
  ValueStruct, ValuePointer, size_varint, encode_pointer, decode_pointer, is_deleted, bit_delete,
  is_value_pointer, set_value_pointer,
}
use autumn.RangePartition.Versions.{Entry, Found}
unfoldable pub use autumn.Log.{should_write_value_to_lsm}
use autumn.RangePartition.Storage.{Skiplists, Tables, Logs, LogEntry, in_range, same_key_hit}

-- `maxSkipList` and the capacity of `flushChan`.
abbrev pub max_skip_list : ℕ
max_skip_list = 2 ^ 20

abbrev pub flush_chan_capacity : ℕ
flush_chan_capacity = 16

abbrev pub get_lower_byte : ℕ → ℕ
get_lower_byte a = a % 256

-- What `writeToLSM` puts under an entry's key.
unfoldable pub lsm_value : LogEntry → ValueStruct
unfolding should_write_value_to_lsm
lsm_value e =
    if should_write_value_to_lsm e
    then record {
      meta = get_lower_byte e.meta;
      user_meta = get_lower_byte e.user_meta;
      expires_at = e.expires_at;
      contents = e.contents;
    }
    else record {
      meta = set_value_pointer (get_lower_byte e.meta);
      user_meta = get_lower_byte e.user_meta;
      expires_at = e.expires_at;
      contents =
          encode_pointer (record {
            extent_id = e.extent_id;
            offset = e.offset;
            len = length e.contents % 2 ^ 32;
          });
    }

-- `AppendEntries` writes the addresses into the entries that have blocks of their own.
abbrev pub extent_or : Option (ℕ × ℕ) → ℕ → ℕ
extent_or none x = x
extent_or (some (extent_id, offset)) x = extent_id

abbrev pub offset_or : Option (ℕ × ℕ) → ℕ → ℕ
offset_or none x = x
offset_or (some (extent_id, offset)) x = offset

unfoldable pub place : List LogEntry → List (Option (ℕ × ℕ)) → List LogEntry
place (e ∷ es) (at ∷ ats) =
    record e { extent_id = extent_or at e.extent_id; offset = offset_or at e.offset } ∷ place es ats
place es _ = es

-- errNotFound, ErrBlockedWrites, and an error of the log stream.
pub data WriteError : Type 0 where
  not_found blocked_writes log_error : WriteError

module _ (K : Skiplists) (T : Tables K) (L : Logs) where
  -- A skiplist behind its pointer, which the flusher compares.
  pub record Memtable : Type 0 where
    pub id : ℕ
    pub skiplist : K.Skiplist

  pub record FlushTask : Type 0 where
    pub mt : Memtable
    pub vptr : ValuePointer
    pub seq_num : ℕ
    pub is_compact : Bool

  -- `in_flight` is the task that `flushMemtable` has received, `saved` the tables whose places
  -- `updateTableLocs` has written to the partition manager, and `next_id` the next new pointer.
  pub record RangePartition : Type 0 where
    pub log : L.Log
    pub log_rotates : ℕ
    pub block_writes : Bool
    pub mt : Memtable
    pub imm : List Memtable
    pub in_flight : Option FlushTask
    pub flush_chan : List FlushTask
    pub tables : List T.Table
    pub saved : List T.Table
    pub seq_number : ℕ
    pub vhead : ValuePointer
    pub next_id : ℕ

  -- Writing

  unfoldable pub estimated_size_in_skl : LogEntry → ℕ
  unfolding should_write_value_to_lsm
  estimated_size_in_skl e =
      let value : ℕ = if should_write_value_to_lsm e then length e.contents + 2 else 16 + 2 in
      length e.key + value + size_varint e.expires_at + (K.max_node_size + 8)

  unfoldable pub estimated_sum : List LogEntry → ℕ
  unfolding estimated_size_in_skl
  estimated_sum [] = 0
  estimated_sum (e ∷ es) = estimated_size_in_skl e + estimated_sum es

  -- `atomic.AddUint64(&rp.seqNumber, 1)`
  unfoldable pub next_seq : RangePartition → ℕ
  next_seq rp = (rp.seq_number + 1) % 2 ^ 64

  -- The memtable becomes the last of `imm`, and a task of `flushChan`.
  unfoldable pub rotate : ValuePointer → RangePartition → RangePartition
  unfolding next_seq
  rotate head rp = record rp {
    seq_number = next_seq rp;
    log_rotates = 0;
    imm = rp.imm ++ (rp.mt ∷ []);
    flush_chan =
        rp.flush_chan
        ++ (record { mt = rp.mt; vptr = head; seq_num = next_seq rp; is_compact = false } ∷ []);
    mt = record { id = rp.next_id; skiplist = K.new_skiplist };
    next_id = suc rp.next_id;
  }

  -- `ok (true, _)` is the nil error, `ok (false, _)` is errNoRoom.
  unfoldable pub ensure_room_for_write :
      List LogEntry → ValuePointer → RangePartition → Outcome (Bool × RangePartition)
  unfolding estimated_sum rotate next_seq
  ensure_room_for_write es head rp =
      let n = estimated_sum es in
      if not (leb n max_skip_list)
      then panic
      else (if not (leb 1 rp.log_rotates) && ltb (K.mem_size rp.mt.skiplist + n) max_skip_list
          then ok (true, rp)
          else (if ltb (length rp.flush_chan) flush_chan_capacity
              then ok (true, rotate head rp)
              else ok (false, record rp { seq_number = next_seq rp })))

  unfoldable pub write_to_lsm : List LogEntry → K.Skiplist → K.Skiplist
  unfolding lsm_value
  write_to_lsm [] m = m
  write_to_lsm (e ∷ es) m = write_to_lsm es (K.put e.key (lsm_value e) m)

  abbrev pub with_mt : RangePartition → K.Skiplist → RangePartition
  with_mt rp m = record rp { mt = record { id = rp.mt.id; skiplist = m } }
