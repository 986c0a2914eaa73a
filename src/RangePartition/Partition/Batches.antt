-- ===== src/RangePartition/Partition/Batches.antt =====
-- range_rangepartition.go, `writeRequests` on the entries of many requests.
use autumn.Prelude.{
  Option, ℕ, suc, ◌+◌, ◌^◌, ◌≤◌, ◌<◌, ◌≡◌, refl, ap, ◌∙◌, false, none, List, ◌∷◌, arith, lt→leb,
  leb,
}
use autumn.Prelude.Outcome.{ok, panic}
use autumn.RangePartition.Storage.{Skiplists, Tables, Logs, LogEntry}
use autumn.RangePartition.Values.{ValuePointer}
use autumn.RangePartition.Partition.{
  RangePartition, max_skip_list, estimated_sum, place, ensure_room_for_write,
}
use autumn.RangePartition.Writer.{write_requests, after_log, make_room}
use autumn.RangePartition.Reader.{get_mem_tables}
use autumn.RangePartition.Partition.Reads.{layers}
use autumn.RangePartition.Partition.Validity.{held, IsValid}
use autumn.RangePartition.Partition.Attempts.{IsBuilding}
use autumn.RangePartition.Partition.Writes.{
  IsWritten, IsAscending, after_log-IsWritten, estimated_sum-place,
}

module _ (K : Skiplists) (T : Tables K) (L : Logs) where
  with_log-IsValid :
      (bound low : ℕ) (log : L.Log) (rp : RangePartition K T L)
      → IsValid K T L bound low rp
      → IsValid K T L bound low (record rp { log = log })
        × (held K T L (record rp { log = log }) ≡ held K T L rp)
  unfolding held layers get_mem_tables
  with_log-IsValid bound low log rp valid = (
    record {
      bounded = valid.bounded;
      stamped = valid.stamped;
      layered = valid.layered;
      imm_tasks = valid.imm_tasks;
      no_compaction = valid.no_compaction;
      flushed = valid.flushed;
      rising = valid.rising;
      capacity = valid.capacity;
    },
    refl,
  )

  write_requests-IsWritten :
      (bound low fuel : ℕ) (e : LogEntry) (es : List LogEntry) (log : L.Log)
      (ats : List (Option (ℕ × ℕ))) (head : ValuePointer) (rp : RangePartition K T L)
      → rp.seq_number + 2 < 2 ^ 64
      → estimated_sum K T L (e ∷ es) ≤ max_skip_list
      → IsAscending bound rp.seq_number (e ∷ es)
      → L.append_entries (e ∷ es) rp.log ≡ (log, ok (ats, head))
      → IsBuilding K T L
      → IsValid K T L bound low rp
      → (after : RangePartition K T L) × ((write_requests K T L (suc (suc fuel)) (e ∷ es) rp
            ≡ ok (none, after))
          × IsWritten K T L bound (place (e ∷ es) ats) log (record rp { log = log }) after)
  unfolding write_requests
  write_requests-IsWritten bound low fuel e es log ats head rp small sized ascending logged building
        valid =
      let (after, (result, w)) =
        after_log-IsWritten K T L bound low fuel (e ∷ es) (record rp { log = log }) ats head small
          sized ascending building (with_log-IsValid bound low log rp valid).0 in
      (
        after,
        (
          ap (λ r. after_log K T L (suc (suc fuel)) (e ∷ es) (record rp { log = r.0 }) r.1) logged
              ∙ result,
          w,
        ),
      )

  -- In a valid partition whose sequence number is below 2^64 - 2, and where tables can be built,
  -- `writeRequests` succeeds within two polls on entries that the log takes, with keys shorter than
  -- 2^16 bytes, and whose versions rise from above all that the partition holds up to its sequence number, and leaves the
  -- memtable within the size of its arena, if the entries have room there beside what a new
  -- memtable takes itself.
  pub mem_size-write_requests :
      (bound low fuel : ℕ) (e : LogEntry) (es : List LogEntry) (log : L.Log)
      (ats : List (Option (ℕ × ℕ))) (head : ValuePointer) (rp : RangePartition K T L)
      → rp.seq_number + 2 < 2 ^ 64
      → K.mem_size K.new_skiplist + estimated_sum K T L (e ∷ es) ≤ max_skip_list
      → IsAscending bound rp.seq_number (e ∷ es)
      → L.append_entries (e ∷ es) rp.log ≡ (log, ok (ats, head))
      → IsBuilding K T L
      → IsValid K T L bound low rp
      → (after : RangePartition K T L) × ((write_requests K T L (suc (suc fuel)) (e ∷ es) rp
            ≡ ok (none, after))
          × (K.mem_size after.mt.skiplist ≤ max_skip_list))
  mem_size-write_requests bound low fuel e es log ats head rp small sized ascending logged building
        valid =
      let (after, (result, w)) =
        write_requests-IsWritten bound low fuel e es log ats head rp small (omega arith) ascending
          logged building valid in
      (after, (result, w.sized (omega (arith, estimated_sum-place K T L (e ∷ es) ats))))

  -- Entries that are together larger than a memtable end the process, after the log has taken
  -- them.
  pub write_requests-too_large :
      (fuel : ℕ) (e : LogEntry) (es : List LogEntry) (log : L.Log) (ats : List (Option (ℕ × ℕ)))
      (head : ValuePointer) (rp : RangePartition K T L)
      → max_skip_list < estimated_sum K T L (e ∷ es)
      → L.append_entries (e ∷ es) rp.log ≡ (log, ok (ats, head))
      → write_requests K T L (suc fuel) (e ∷ es) rp ≡ panic
  unfolding write_requests after_log make_room ensure_room_for_write
  write_requests-too_large fuel e es log ats head rp large logged =
      let n = estimated_sum-place K T L (e ∷ es) ats in
      let refused : leb (estimated_sum K T L (place (e ∷ es) ats)) max_skip_list ≡ false =
        lt→leb (estimated_sum K T L (place (e ∷ es) ats)) max_skip_list (omega (arith, n)) in
      ap (λ r. after_log K T L (suc fuel) (e ∷ es) (record rp { log = r.0 }) r.1) logged
      ∙ simp refused refl
