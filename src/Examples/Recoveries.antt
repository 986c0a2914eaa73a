-- ===== src/Examples/Recoveries.antt =====
-- The theorems on the replay of a log into a partition, and on the garbage collection, at concrete
-- entries.
use autumn.Prelude.{List, ◌≤◌, ◌≡◌, refl, false, [], ◌∷◌, ◌++◌, arith}
use autumn.Prelude.Outcome.{ok}
use autumn.Prelude.Bytes.{put_uint32, put_uint64, uint32, uint64}
use autumn.Extent.Block.RoundTrip.{encoded, read_block-encoded}
use autumn.Extent.Header.{bytes_equal}
use autumn.Extent.Entries.{infos_from, info_then, read_block_entries, pointer_entry}
use autumn.Log.{LogEntry, bare, entry_at, slice, should_write_value_to_lsm}
use autumn.RangePartition.Keys.{key_with_ts, parse_key, parse_ts, same_key}
use autumn.RangePartition.Values.{
  ValuePointer, is_deleted_or_expired, encode_pointer, size_varint, decode_pointer,
}
use autumn.RangePartition.Versions.{latest, visible}
use autumn.RangePartition.Storage.Lists.{list_skiplists, list_tables, list_logs}
use autumn.RangePartition.Partition.{RangePartition, next_seq, estimated_sum, estimated_size_in_skl}
use autumn.RangePartition.Recovery.{replay_entry, opening, next_seq-replay_entry}
use autumn.RangePartition.Reader.{get_value_struct}
use autumn.RangePartition.Keys.Order.{bytes_compare}
use autumn.RangePartition.GarbageCollection.{
  discard_entry, move_entry, Collection, moved_entry, collect_entries,
}
use autumn.RangePartition.GarbageCollection.Emptied.{IsEmptied, collect_entries-read_block_entries}
use autumn.StreamClient.Iterator.Replay.{read_stream}
use autumn.Examples.Logs.{plain, small, big, big_block, big_block-Packs, network, stored_extent}

abbrev Part : Type 0
Part = RangePartition list_skiplists list_tables list_logs

abbrev origin : ValuePointer
origin = record { extent_id = 0; offset = 0; len = 0 }

-- The log with one entry, that has a block of its own.
abbrev entries : List LogEntry
entries = read_stream plain network (stored_extent ∷ [])

abbrev new_part : Part
new_part = opening list_skiplists list_tables list_logs [] [] 0

-- The key 1 with version 5.
next_seq-replay_entry_example :
    (rp' : Part) × (replay_entry list_skiplists list_tables list_logs 1 small new_part ≡ ok rp')
    × (next_seq list_skiplists list_tables list_logs rp' ≤ parse_ts small.key)
unfolding estimated_sum estimated_size_in_skl should_write_value_to_lsm size_varint parse_ts uint64
    uint32
next_seq-replay_entry_example =
    next_seq-replay_entry list_skiplists list_tables list_logs 0 small new_part refl (omega arith)
      (omega arith) (omega arith)

-- A partition that has the entry of the block under its key.
abbrev pointing : Part
pointing = record new_part {
  mt = record {
    id = 0;
    skiplist =
        record {
          key = big.key;
          vs = record {
            meta = 2;
            user_meta = 0;
            expires_at = 0;
            contents = encode_pointer (record { extent_id = 3; offset = 512; len = 1 });
          };
        }
        ∷ [];
  };
  seq_number = 5;
}

abbrev nothing : Collection
nothing = record { wb = []; sent = []; size = 0 }

-- Its entry is moved, without its value.
moved : Collection
moved = record { wb = moved_entry (record big { contents = [] }) ∷ []; sent = []; size = 1024 }

read :
    read_block_entries plain false 3 512 (encoded big_block ++ [])
    ≡ ok (pointer_entry 3 512 512 (bare big) ∷ [], 512)
unfolding read_block_entries infos_from info_then entry_at slice should_write_value_to_lsm
read = rw (read_block-encoded big_block big_block-Packs.block []) refl

collected :
    collect_entries list_skiplists list_tables list_logs 0 [] [] pointing
      (pointer_entry 3 512 512 (bare big) ∷ [])
      nothing
    ≡ ok moved
unfolding collect_entries moved parse_key bytes_compare get_value_struct key_with_ts put_uint64
    put_uint32 latest visible same_key bytes_equal parse_ts uint64 uint32 encode_pointer
    decode_pointer discard_entry is_deleted_or_expired move_entry
collected = refl

collect_entries-read_block_entries_example : IsEmptied moved
collect_entries-read_block_entries_example =
    collect_entries-read_block_entries list_skiplists list_tables list_logs 0 [] [] pointing plain 3
      512 512 (encoded big_block ++ []) (pointer_entry 3 512 512 (bare big) ∷ []) nothing moved read
      (record { waiting = tt; batches = tt }) collected
