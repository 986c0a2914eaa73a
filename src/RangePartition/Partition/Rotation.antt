-- ===== src/RangePartition/Partition/Rotation.antt =====
-- range_rangepartition.go: `ensureRoomForWrite` moves the memtable aside.
use mathlib.Core.Path.{subst}
use autumn.Prelude.{
  ℕ, ◌+◌, ◌^◌, ◌<◌, ◌≡◌, refl, sym, ap, ◌∙◌, false, [], ◌∷◌, ◌++◌, arith, All, All-append,
  append_assoc, length, length-append,
}
use autumn.RangePartition.Storage.{Skiplists, Tables, Logs}
use autumn.RangePartition.Values.{ValuePointer}
use autumn.RangePartition.Versions.{concat, IsStamped}
use autumn.RangePartition.Versions.Layers.{IsLayered, nil-IsAbove}
use autumn.RangePartition.Partition.{
  RangePartition, FlushTask, flush_chan_capacity, rotate, next_seq,
}
use autumn.RangePartition.Reader.{sort_tables, get_mem_tables}
use autumn.RangePartition.Partition.Reads.{layers, mem_layers, table_layers}
use autumn.RangePartition.Partition.Validity.{
  held, pending, received, task_mts, IsRising, IsValid, newest_first-append, IsRising-append,
  task_mts-append,
}

module _ (K : Skiplists) (T : Tables K) (L : Logs) where
  layers-rotate :
      (head : ValuePointer) (rp : RangePartition K T L)
      → layers K T L (rotate K T L head rp) ≡ [] ∷ layers K T L rp
  unfolding layers rotate get_mem_tables
  layers-rotate head rp =
      ap
        (λ t.
          K.entries K.new_skiplist ∷ mem_layers K T L t
          ++ table_layers K T L (sort_tables K T L rp.tables))
        (newest_first-append K T L rp.imm rp.mt)
      ∙ ap (λ t. t ∷ layers K T L rp) K.entries-new_skiplist

  -- The new memtable is empty.
  pub held-rotate :
      (head : ValuePointer) (rp : RangePartition K T L)
      → held K T L (rotate K T L head rp) ≡ held K T L rp
  unfolding held
  held-rotate head rp = ap concat (layers-rotate head rp)

  next_seq-value :
      (rp : RangePartition K T L)
      → rp.seq_number + 1 < 2 ^ 64
      → next_seq K T L rp ≡ rp.seq_number + 1
  unfolding next_seq
  next_seq-value rp h = omega arith

  pub rotate-IsValid :
      (bound low : ℕ) (head : ValuePointer) (rp : RangePartition K T L)
      → rp.seq_number + 1 < 2 ^ 64
      → length rp.flush_chan < flush_chan_capacity
      → IsValid K T L bound low rp
      → IsValid K T L bound low (rotate K T L head rp)
  unfolding rotate
  rotate-IsValid bound low head rp small room valid =
      let task : FlushTask K T L = record {
        mt = rp.mt;
        vptr = head;
        seq_num = next_seq K T L rp;
        is_compact = false;
      } in
      let tasks : pending K T L (rotate K T L head rp) ≡ pending K T L rp ++ (task ∷ []) =
        sym (append_assoc (received K T L rp.in_flight) rp.flush_chan (task ∷ [])) in
      let seq : next_seq K T L rp ≡ rp.seq_number + 1 = next_seq-value rp small in
      record {
        bounded = omega (arith, valid.bounded);
        stamped = subst (All (IsStamped bound)) (sym (held-rotate head rp)) valid.stamped;
        layered = subst IsLayered (sym (layers-rotate head rp)) (nil-IsAbove _, valid.layered);
        imm_tasks =
            ap (task_mts K T L) tasks
            ∙ task_mts-append K T L (pending K T L rp) (task ∷ [])
            ∙ ap (λ t. t ++ (rp.mt ∷ [])) valid.imm_tasks;
        no_compaction = subst (All (λ ft. ft.is_compact ≡ false)) (sym tasks) (
            All-append (λ ft. ft.is_compact ≡ false) (pending K T L rp) (task ∷ [])
              valid.no_compaction (refl, tt));
        flushed = valid.flushed;
        rising =
            subst (λ t. IsRising K T L low t (next_seq K T L rp)) (sym tasks)
              (IsRising-append K T L low rp.seq_number (pending K T L rp) task valid.rising
                (omega arith));
        capacity = omega (arith, length-append rp.flush_chan (task ∷ []));
      }
