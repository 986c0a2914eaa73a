-- ===== src/RangePartition/Partition/Clients.antt =====
-- range_rangepartition.go, `Write`, `Delete` and `Get`, of the same client one after the other.
use autumn.Prelude.{
  Option, ℕ, suc, ◌+◌, ◌^◌, ◌≤◌, ◌<◌, ◌≡◌, ap, ◌∙◌, false, ◌&&◌, none, some, List, [], ◌∷◌, arith,
  length, ◌==◌, if◌then◌else◌,
}
use autumn.Prelude.Outcome.{ok}
use autumn.Extent.Header.{bytes_equal}
use autumn.RangePartition.Keys.{key_with_ts}
use autumn.RangePartition.Storage.{Skiplists, Tables, Logs}
use autumn.RangePartition.Values.{ValuePointer, bit_delete}
use autumn.RangePartition.Partition.Sent.{
  send-IsSent, stored, value_of-lsm_value, value_of-deleted, found_after, other_found, same_reads,
}
use autumn.RangePartition.Partition.{
  extent_or, offset_or, RangePartition, max_skip_list, estimated_sum, lsm_value, next_seq,
  not_found,
}
use autumn.RangePartition.Reader.{get_value_struct, get, value_of}
use autumn.RangePartition.Flusher.{flush_attempt}
use autumn.RangePartition.Writer.{log_entry, send, write, is_missing, delete}
use autumn.RangePartition.Partition.Validity.{IsValid}
use autumn.RangePartition.Partition.Attempts.{IsBuilding, flush_attempt-IsDone}

module _ (K : Skiplists) (T : Tables K) (L : Logs) where
  -- In a valid partition whose sequence number is below 2^64 - 3, where writes are not blocked
  -- and tables can be built, `Write` of a key that is not empty and at most 65527 bytes long succeeds within two polls, if the
  -- entry fits a new memtable's arena beside its head node and the log takes it, at an address that fits its 64 and
  -- 32 bits. `Get` then gives the value: the one written, or what the log has at that address for
  -- one of more than 1024 bytes.
  pub get-write :
      (bound low fuel : ℕ) (key value : List ℕ) (log : L.Log) (at : Option (ℕ × ℕ))
      (head : ValuePointer) (rp : RangePartition K T L)
      → 0 < length key
      → length key + 8 < 2 ^ 16
      → extent_or at 0 < 2 ^ 64
      → offset_or at 0 < 2 ^ 32
      → rp.seq_number + 3 < 2 ^ 64
      → rp.block_writes ≡ false
      → K.mem_size K.new_skiplist
          + estimated_sum K T L (log_entry K T L key (next_seq K T L rp) value 0 ∷ [])
        ≤ max_skip_list
      → L.append_entries (log_entry K T L key (next_seq K T L rp) value 0 ∷ []) rp.log
        ≡ (log, ok (at ∷ [], head))
      → IsBuilding K T L
      → IsValid K T L bound low rp
      → (after : RangePartition K T L) × ((write K T L (suc (suc fuel)) key value rp
            ≡ ok (none, after))
          × (get K T L key 0 after ≡ stored K T L log value (extent_or at 0) (offset_or at 0)))
  unfolding write get
  get-write bound low fuel key value log at head rp nonempty short hx ho small unblocked sized
        logged building valid =
      let ts = rp.seq_number + 1 in
      let n : next_seq K T L rp ≡ ts = unfold next_seq in omega arith in
      let e = record (log_entry K T L key (next_seq K T L rp) value 0) {
        extent_id = extent_or at 0;
        offset = offset_or at 0;
      } in
      let (after, (result, sent)) =
        send-IsSent K T L bound low fuel key value 0 log at head rp nonempty short small unblocked
          (omega arith) logged building valid in
      (
        after,
        (
          result,
          ap (value_of K T L after.log) (
                found_after K T L ts low ts key e log bound rp after nonempty
                  (ap (key_with_ts key) n) (omega (arith, valid.bounded))
                  (omega (arith, sent.1.1.1)) valid.stamped sent)
              ∙ ap (λ l. value_of K T L l (some (record { version = ts; vs = lsm_value e })))
                  sent.1.1.0
              ∙ ap
                  (λ s. value_of K T L log (
                    some (record {
                      version = ts;
                      vs = lsm_value (record (log_entry K T L key s value 0) {
                        extent_id = extent_or at 0;
                        offset = offset_or at 0;
                      });
                    })))
                  n
              ∙ value_of-lsm_value K T L log ts (extent_or at 0) (offset_or at 0) key value
                  (omega arith) hx ho,
        ),
      )

  -- In a valid partition whose sequence number is below 2^64 - 3, where writes are not blocked
  -- and tables can be built, `Delete` of a key that is not empty and at most 65527 bytes long and that is there succeeds
  -- within two polls, if the entry fits a new memtable's arena beside its head node and the log takes it. `Get` then
  -- does not find the key.
  pub get-delete :
      (bound low fuel : ℕ) (key : List ℕ) (log : L.Log) (at : Option (ℕ × ℕ)) (head : ValuePointer)
      (rp : RangePartition K T L)
      → 0 < length key
      → length key + 8 < 2 ^ 16
      → rp.seq_number + 3 < 2 ^ 64
      → rp.block_writes ≡ false
      → is_missing K T L (get_value_struct K T L key 0 rp) ≡ false
      → K.mem_size K.new_skiplist
          + estimated_sum K T L (log_entry K T L key (next_seq K T L rp) [] bit_delete ∷ [])
        ≤ max_skip_list
      → L.append_entries (log_entry K T L key (next_seq K T L rp) [] bit_delete ∷ []) rp.log
        ≡ (log, ok (at ∷ [], head))
      → IsBuilding K T L
      → IsValid K T L bound low rp
      → (after : RangePartition K T L) × ((delete K T L (suc (suc fuel)) key rp ≡ ok (none, after))
          × (get K T L key 0 after ≡ ok none))
  unfolding delete get
  get-delete bound low fuel key log at head rp nonempty short small unblocked there sized logged
        building valid =
      let ts = rp.seq_number + 1 in
      let n : next_seq K T L rp ≡ ts = unfold next_seq in omega arith in
      let e = record (log_entry K T L key (next_seq K T L rp) [] bit_delete) {
        extent_id = extent_or at 0;
        offset = offset_or at 0;
      } in
      let (after, (result, sent)) =
        send-IsSent K T L bound low fuel key [] bit_delete log at head rp nonempty short small
          unblocked (omega arith) logged building valid in
      (
        after,
        (
          ap
                (λ b.
                  if b
                  then ok (some not_found, rp)
                  else send K T L (suc (suc fuel))
                      (log_entry K T L key (next_seq K T L rp) [] bit_delete)
                      (record rp { seq_number = next_seq K T L rp }))
                there
              ∙ result,
          ap (value_of K T L after.log) (
                found_after K T L ts low ts key e log bound rp after nonempty
                  (ap (key_with_ts key) n) (omega (arith, valid.bounded))
                  (omega (arith, sent.1.1.1)) valid.stamped sent)
              ∙ value_of-deleted K T L after.log ts (extent_or at 0) (offset_or at 0)
                  (key_with_ts key (next_seq K T L rp)) (omega arith),
        ),
      )

  -- In a valid partition whose sequence number is below 2^64 - 3, where writes are not blocked
  -- and tables can be built, `Write` of a key that is not empty and at most 65527 bytes long succeeds within two polls, if the
  -- entry fits a new memtable's arena beside its head node and the log takes it, and what `getValueStruct` finds at
  -- the latest version of any other key that is not empty is as before.
  pub get_value_struct-write :
      (bound low fuel : ℕ) (key other value : List ℕ) (log : L.Log) (at : Option (ℕ × ℕ))
      (head : ValuePointer) (rp : RangePartition K T L)
      → 0 < length key
      → length key + 8 < 2 ^ 16
      → 0 < length other
      → (length other == length key && bytes_equal other key) ≡ false
      → rp.seq_number + 3 < 2 ^ 64
      → rp.block_writes ≡ false
      → K.mem_size K.new_skiplist
          + estimated_sum K T L (log_entry K T L key (next_seq K T L rp) value 0 ∷ [])
        ≤ max_skip_list
      → L.append_entries (log_entry K T L key (next_seq K T L rp) value 0 ∷ []) rp.log
        ≡ (log, ok (at ∷ [], head))
      → IsBuilding K T L
      → IsValid K T L bound low rp
      → (after : RangePartition K T L) × ((write K T L (suc (suc fuel)) key value rp
            ≡ ok (none, after))
          × (get_value_struct K T L other 0 after ≡ get_value_struct K T L other 0 rp))
  unfolding write
  get_value_struct-write bound low fuel key other value log at head rp nonempty short nonempty'
        differ small unblocked sized logged building valid =
      let ts = rp.seq_number + 1 in
      let n : next_seq K T L rp ≡ ts = unfold next_seq in omega arith in
      let e = record (log_entry K T L key (next_seq K T L rp) value 0) {
        extent_id = extent_or at 0;
        offset = offset_or at 0;
      } in
      let (after, (result, sent)) =
        send-IsSent K T L bound low fuel key value 0 log at head rp nonempty short small unblocked
          (omega arith) logged building valid in
      (
        after,
        (
          result,
          other_found K T L ts key other e log bound low rp after nonempty' (ap (key_with_ts key) n)
              differ (omega arith) (omega (arith, sent.1.1.1)) (omega (arith, sent.0.1.bounded))
              valid sent,
        ),
      )

  -- In a valid partition, so where only flushes of memtables and no compaction is under way or
  -- queued, an attempt of the flusher, whether it fails or not, ends without a panic in a valid
  -- partition, and changes the answer of no read: `getValueStruct` finds the same at each key and
  -- version.
  pub get_value_struct-flush_attempt :
      (bound low attempt : ℕ) (rp : RangePartition K T L)
      → IsValid K T L bound low rp
      → (after : RangePartition K T L) × ((flush_attempt K T L attempt rp ≡ ok after)
          × (((low' : ℕ) × IsValid K T L bound low' after)
              × ((key : List ℕ) (version : ℕ)
                  → get_value_struct K T L key version after
                    ≡ get_value_struct K T L key version rp)))
  get_value_struct-flush_attempt bound low attempt rp valid =
      let d = flush_attempt-IsDone K T L bound low attempt rp valid in
      (
        d.after,
        (
          d.result,
          (
            (d.low, d.valid),
            λ key version.
                same_reads K T L bound low d.low rp d.after d.same_held d.same_seq valid d.valid key
                  version,
          ),
        ),
      )
