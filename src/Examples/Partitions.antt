-- ===== src/Examples/Partitions.antt =====
-- One partition on lists: writes, reads, deletes and flushes.
use Prim.Native.Nat.{compare}
use autumn.Prelude.{
  ℕ, ◌^◌, ◌≤◌, ◌≡◌, refl, false, Option, none, some, List, [], ◌∷◌, arith, length, replicate,
  length-replicate,
}
use autumn.Prelude.Outcome.{ok, ◌>>=◌}
use autumn.Prelude.Bytes.{put_uint64, put_uint32, uint64, uint32}
use autumn.Extent.Header.{bytes_equal}
use autumn.Prelude.Uvarint.{put_uvarint}
use autumn.RangePartition.Storage.{LogEntry}
use autumn.RangePartition.Keys.{key_with_ts, same_key, parse_ts}
use autumn.RangePartition.Keys.Order.{
  compare_keys, bytes_compare, or_then, compare_keys-key_with_ts,
}
use autumn.RangePartition.Values.{
  ValuePointer, ValueStruct, encode, decode, encoded_size, size_varint,
}
use autumn.RangePartition.Values.Codec.{decode-encode, encoded_size-encode}
use autumn.RangePartition.Versions.{Entry, Found, latest, visible, IsStamped}
use autumn.RangePartition.Versions.Layers.{IsAbove, Shadows}
use autumn.RangePartition.Partition.{
  RangePartition, next_seq, estimated_sum, estimated_size_in_skl, should_write_value_to_lsm,
}
use autumn.RangePartition.Writer.{log_entry, write, delete, write_requests}
use autumn.RangePartition.Reader.{get, get_value_struct, get_mem_tables, sort_tables}
use autumn.RangePartition.Flusher.{flush_attempt}
use autumn.RangePartition.Partition.Reads.{layers}
use autumn.RangePartition.Partition.Validity.{held, IsValid}
use autumn.RangePartition.Partition.Attempts.{IsBuilding}
use autumn.RangePartition.Partition.Batches.{mem_size-write_requests}
use autumn.RangePartition.Partition.Clients.{get-write, get-delete, get_value_struct-flush_attempt}
use autumn.RangePartition.Partition.Sent.{stored}
use autumn.RangePartition.Storage.Lists.{list_skiplists, list_tables, list_logs}

abbrev Part : Type 0
Part = RangePartition list_skiplists list_tables list_logs

abbrev origin : ValuePointer
origin = record { extent_id = 0; offset = 0; len = 0 }

abbrev fresh : Part
fresh = record {
  log = [];
  log_rotates = 0;
  block_writes = false;
  mt = record { id = 0; skiplist = [] };
  imm = [];
  in_flight = none;
  flush_chan = [];
  tables = [];
  saved = [];
  seq_number = 0;
  vhead = origin;
  next_id = 1;
}

-- A read after a write, which runs.
read_back :
    (write list_skiplists list_tables list_logs 2 (7 ∷ []) (1 ∷ 2 ∷ []) fresh >>= λ r.
    get list_skiplists list_tables list_logs (7 ∷ []) 0 r.1)
    ≡ ok (some (1 ∷ 2 ∷ []))
unfolding write get key_with_ts put_uint64 put_uint32 size_varint latest visible same_key
    bytes_equal parse_ts uint64 uint32
read_back = refl

fresh-IsValid : IsValid list_skiplists list_tables list_logs 0 0 fresh
unfolding held layers get_mem_tables sort_tables IsAbove latest
fresh-IsValid = record {
  bounded = omega arith;
  stamped = tt;
  layered = ((λ q. tt), tt);
  imm_tasks = refl;
  no_compaction = tt;
  flushed = tt;
  rising = omega arith;
  capacity = omega arith;
}

always_building : IsBuilding list_skiplists list_tables list_logs
always_building = λ attempt ft.
    (record { table_entries = ft.mt.skiplist; vptr = ft.vptr; seq = ft.seq_num }, refl)

get-write_example :
    (after : Part) × ((write list_skiplists list_tables list_logs 2 (7 ∷ []) (1 ∷ 2 ∷ []) fresh
        ≡ ok (none, after))
      × (get list_skiplists list_tables list_logs (7 ∷ []) 0 after
          ≡ stored list_skiplists list_tables list_logs ((1 ∷ 2 ∷ []) ∷ []) (1 ∷ 2 ∷ []) 1 0))
unfolding next_seq estimated_sum estimated_size_in_skl should_write_value_to_lsm key_with_ts
    put_uint64 put_uint32 size_varint
get-write_example =
    get-write list_skiplists list_tables list_logs 0 0 0 (7 ∷ []) (1 ∷ 2 ∷ []) ((1 ∷ 2 ∷ []) ∷ [])
      (some (1, 0)) (record { extent_id = 1; offset = 1; len = 0 }) fresh (omega arith)
      (omega arith) (omega arith) (omega arith) (omega arith) refl (omega arith) refl
      always_building fresh-IsValid

abbrev seven : Entry
seven = record {
  key = key_with_ts (7 ∷ []) 1;
  vs = record { meta = 0; user_meta = 0; expires_at = 0; contents = 1 ∷ [] };
}

-- The key 7 is in the memtable.
abbrev holding : Part
holding = record fresh { mt = record { id = 0; skiplist = seven ∷ [] }; seq_number = 1 }

Shadows-none : (a : Option Found) → Shadows a none
Shadows-none none = tt
Shadows-none (some a) = tt

holding-IsValid : IsValid list_skiplists list_tables list_logs 1 0 holding
unfolding held layers get_mem_tables sort_tables IsAbove latest IsStamped key_with_ts put_uint64
    put_uint32 parse_ts uint64 uint32
holding-IsValid = record {
  bounded = omega arith;
  stamped = ((omega arith, omega arith, omega arith), tt);
  layered = ((λ q. Shadows-none (latest q (seven ∷ []))), tt);
  imm_tasks = refl;
  no_compaction = tt;
  flushed = tt;
  rising = omega arith;
  capacity = omega arith;
}

get-delete_example :
    (after : Part) × ((delete list_skiplists list_tables list_logs 2 (7 ∷ []) holding
        ≡ ok (none, after))
      × (get list_skiplists list_tables list_logs (7 ∷ []) 0 after ≡ ok none))
unfolding next_seq estimated_sum estimated_size_in_skl should_write_value_to_lsm key_with_ts
    put_uint64 put_uint32 size_varint get_value_struct latest visible same_key bytes_equal parse_ts
    uint64 uint32
get-delete_example =
    get-delete list_skiplists list_tables list_logs 1 0 0 (7 ∷ []) ([] ∷ []) (some (1, 0))
      (record { extent_id = 1; offset = 1; len = 0 }) holding (omega arith) (omega arith)
      (omega arith) refl refl (omega arith) refl always_building holding-IsValid

-- The memtable with the key 7 was moved aside, and the flusher has its task.
abbrev rotated : Part
rotated = record fresh {
  mt = record { id = 1; skiplist = [] };
  imm = record { id = 0; skiplist = seven ∷ [] } ∷ [];
  in_flight = some (record {
    mt = record { id = 0; skiplist = seven ∷ [] };
    vptr = origin;
    seq_num = 2;
    is_compact = false;
  });
  seq_number = 2;
  next_id = 2;
}

rotated-IsValid : IsValid list_skiplists list_tables list_logs 1 0 rotated
unfolding held layers get_mem_tables sort_tables IsAbove latest IsStamped key_with_ts put_uint64
    put_uint32 parse_ts uint64 uint32
rotated-IsValid = record {
  bounded = omega arith;
  stamped = ((omega arith, omega arith, omega arith), tt);
  layered = ((λ q. tt), ((λ q. Shadows-none (latest q (seven ∷ []))), tt));
  imm_tasks = refl;
  no_compaction = (refl, tt);
  flushed = tt;
  rising = (omega arith, omega arith);
  capacity = omega arith;
}

get_value_struct-flush_attempt_example :
    (after : Part) × ((flush_attempt list_skiplists list_tables list_logs 0 rotated ≡ ok after)
      × (((low : ℕ) × IsValid list_skiplists list_tables list_logs 1 low after)
          × ((key : List ℕ) (version : ℕ)
              → get_value_struct list_skiplists list_tables list_logs key version after
                ≡ get_value_struct list_skiplists list_tables list_logs key version rotated)))
get_value_struct-flush_attempt_example =
    get_value_struct-flush_attempt list_skiplists list_tables list_logs 1 0 0 rotated
      rotated-IsValid

-- One sequence number was given out.
abbrev stamping : Part
stamping = record fresh { seq_number = 1 }

stamping-IsValid : IsValid list_skiplists list_tables list_logs 0 0 stamping
unfolding held layers get_mem_tables sort_tables IsAbove latest
stamping-IsValid = record {
  bounded = omega arith;
  stamped = tt;
  layered = ((λ q. tt), tt);
  imm_tasks = refl;
  no_compaction = tt;
  flushed = tt;
  rising = omega arith;
  capacity = omega arith;
}

abbrev small_entry : LogEntry
small_entry = log_entry list_skiplists list_tables list_logs (7 ∷ []) 1 (1 ∷ 2 ∷ []) 0

abbrev logged_at : ValuePointer
logged_at = record { extent_id = 1; offset = 1; len = 0 }

mem_size-write_requests_example :
    (after : Part) × ((write_requests list_skiplists list_tables list_logs 2
          (small_entry ∷ [])
          stamping
        ≡ ok (none, after))
      × (list_skiplists.mem_size after.mt.skiplist ≤ 2 ^ 20))
unfolding estimated_sum estimated_size_in_skl should_write_value_to_lsm key_with_ts put_uint64
    put_uint32 size_varint parse_ts uint64 uint32
mem_size-write_requests_example =
    mem_size-write_requests list_skiplists list_tables list_logs 0 0 0 small_entry []
      ((1 ∷ 2 ∷ []) ∷ []) (some (1, 0) ∷ []) logged_at stamping (omega arith) (omega arith)
      (omega arith, omega arith, omega arith, tt) refl always_building stamping-IsValid

sevens : ℕ → List ℕ
sevens n = replicate n 7

length-sevens : (n : ℕ) → length (sevens n) ≡ n
unfolding sevens
length-sevens n = length-replicate n 7

abbrev large_entry : LogEntry
large_entry = record small_entry { key = sevens (2 ^ 20) }

compare_keys-key_with_ts_example :
    compare_keys (key_with_ts (7 ∷ []) 3) (key_with_ts (7 ∷ []) 9)
    ≡ or_then (bytes_compare (7 ∷ []) (7 ∷ [])) (compare 9 3)
compare_keys-key_with_ts_example =
    compare_keys-key_with_ts (7 ∷ []) (7 ∷ []) 3 9 (omega arith) (omega arith)

abbrev value : ValueStruct
value = record { meta = 1; user_meta = 0; expires_at = 300; contents = 5 ∷ [] }

encoded_size-encode_example : encoded_size value ≡ length (encode value)
unfolding encode put_uvarint
encoded_size-encode_example = encoded_size-encode value (omega arith)

decode-encode_example : decode (encode value) ≡ ok value
decode-encode_example = decode-encode value (omega arith)
