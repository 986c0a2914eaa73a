-- ===== src/RangePartition/GarbageCollection.antt =====
-- rangepartition/valuelog.go: `discardEntry`, and the function that runGC gives to replayLog.
pub mod Emptied
use autumn.Prelude.{
  ℕ, ◌+◌, ◌*◌, ◌%◌, ◌^◌, ◌==◌, Bool, true, false, not, ◌&&◌, ◌||◌, Option, none, some, List, [],
  ◌∷◌, ◌++◌, ltb, if◌then◌else◌, length,
}
use autumn.Prelude.Outcome.{Outcome, ok, err, panic, failed, ◌>>=◌}
use autumn.Log.{LogEntry}
use autumn.RangePartition.Keys.{parse_key, parse_ts}
use autumn.RangePartition.Keys.Order.{bytes_compare}
use autumn.RangePartition.Values.{ValueStruct, ValuePointer, decode_pointer, is_deleted_or_expired}
use autumn.RangePartition.Versions.{Found}
use autumn.RangePartition.Storage.{Skiplists, Tables, Logs, is_lt}
use autumn.RangePartition.Partition.{RangePartition}
use autumn.RangePartition.Reader.{get_value_struct}

-- The zero value of a key that is not found.
abbrev pub found_or_zero : Option Found → Found
found_or_zero none = record {
  version = 0;
  vs = record { meta = 0; user_meta = 0; expires_at = 0; contents = [] };
}
found_or_zero (some a) = a

-- `discardEntry`, at a time.
unfoldable pub discard_entry : ℕ → LogEntry → Found → Bool
discard_entry now e a =
    if not (a.version == parse_ts e.key)
    then true
    else is_deleted_or_expired now a.vs.meta a.vs.expires_at

-- The variables of runGC: the entries to write, the batches given to the write loop, and the size.
pub record Collection : Type 0 where
  pub wb : List LogEntry
  pub sent : List (List LogEntry)
  pub size : ℕ

abbrev pub moved_entry : LogEntry → LogEntry
moved_entry e = record {
  key = e.key;
  contents = e.contents;
  meta = 0;
  user_meta = 0;
  expires_at = 0;
  extent_id = 0;
  offset = 0;
  estimated_size = 0;
}

abbrev pub is_due : LogEntry → Collection → Bool
is_due e gc = ltb 4 (length gc.wb) || ltb (16 * 2 ^ 20) ((e.estimated_size + gc.size) % 2 ^ 64)

abbrev pub put_aside : LogEntry → Collection → Collection
put_aside e gc = record gc {
  wb = gc.wb ++ (moved_entry e ∷ []);
  size = (gc.size + e.estimated_size) % 2 ^ 64;
}

-- `bytes.Compare(userKey, rp.StartKey) < 0`, or `rp.EndKey` set and below the key.
unfoldable pub outside : List ℕ → List ℕ → List ℕ → Bool
outside start_key end_key user_key =
    is_lt (bytes_compare user_key start_key)
    || (ltb 0 (length end_key) && is_lt (bytes_compare end_key user_key))

module _ (K : Skiplists) (T : Tables K) (L : Logs) where
  -- `sendToWriteCh`, which does not empty `wb`.
  unfoldable pub send_batch : Collection → RangePartition K T L → Outcome Collection
  send_batch gc rp =
      if rp.block_writes then err failed else ok (record gc { sent = gc.sent ++ (gc.wb ∷ []) })

  unfoldable pub move_entry : LogEntry → RangePartition K T L → Collection → Outcome Collection
  unfolding send_batch
  move_entry e rp gc =
      (if is_due e gc then send_batch gc rp else ok gc) >>= λ gc'. ok (put_aside e gc')

  abbrev pub move_if_here :
      LogEntry → RangePartition K T L → Collection → ValuePointer → Outcome Collection
  move_if_here e rp gc p =
      if p.extent_id == e.extent_id && p.offset == e.offset then move_entry e rp gc else ok gc

  -- `fe`: an entry that stands for a block of small ones has neither a key nor a value.
  unfoldable pub collect_entry :
      ℕ → List ℕ → List ℕ → RangePartition K T L → LogEntry → Collection → Outcome Collection
  unfolding discard_entry outside get_value_struct
  collect_entry now start_key end_key rp e gc =
      if length e.key == 0 && length e.contents == 0
      then ok gc
      else if outside start_key end_key (parse_key e.key)
      then ok gc
      else (let a = found_or_zero (get_value_struct K T L (parse_key e.key) 0 rp) in
          if discard_entry now e a
          then ok gc
          else if length a.vs.contents == 0
          then panic
          else (decode_pointer a.vs.contents >>= move_if_here e rp gc))

  -- runGC on the entries that the replay gives it.
  unfoldable pub collect_entries :
      ℕ → List ℕ → List ℕ → RangePartition K T L → List LogEntry → Collection → Outcome Collection
  unfolding collect_entry
  collect_entries now start_key end_key rp [] gc = ok gc
  collect_entries now start_key end_key rp (e ∷ es) gc =
      collect_entry now start_key end_key rp e gc >>= collect_entries now start_key end_key rp es
