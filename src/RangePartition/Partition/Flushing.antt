-- ===== src/RangePartition/Partition/Flushing.antt =====
-- range_rangepartition.go, `flushMemtable` and `handleFlushTask`: a memtable becomes a table.
use mathlib.Core.Path.{subst}
use autumn.Prelude.{
  ℕ, ◌≤◌, ◌<◌, ◌≡◌, refl, sym, ap, ◌∙◌, false, Option, none, some, List, [], ◌∷◌, ◌++◌, arith, All,
  length, All-append, append_assoc,
}
use autumn.RangePartition.Storage.{Skiplists, Tables, Logs}
use autumn.RangePartition.Versions.{concat, IsStamped}
use autumn.RangePartition.Versions.Layers.{IsLayered, concat-append, drop_nil-IsLayered}
use autumn.RangePartition.Partition.{RangePartition, Memtable, FlushTask}
use autumn.RangePartition.Reader.{newest_first, sort_tables, get_mem_tables}
use autumn.RangePartition.Flusher.{receive, next_task, saved_after}
use autumn.RangePartition.Partition.Reads.{layers, mem_layers, table_layers}
use autumn.RangePartition.Partition.Validity.{
  held, received, task_mts, IsRising, IsValid, mem_layers-append, sort_tables-append,
}

module _ (K : Skiplists) (T : Tables K) (L : Logs) where
  pub receive-IsValid :
      (bound low : ℕ) (rp : RangePartition K T L)
      → IsValid K T L bound low rp
      → IsValid K T L bound low (receive K T L rp)
  unfolding receive get_mem_tables
  receive-IsValid bound low rp valid =
      let same = next_task_lem rp.in_flight rp.flush_chan in
      record {
        bounded = valid.bounded;
        stamped = unfold held layers in valid.stamped;
        layered = unfold layers in valid.layered;
        imm_tasks = ap (task_mts K T L) same ∙ valid.imm_tasks;
        no_compaction = subst (All (λ ft. ft.is_compact ≡ false)) (sym same) valid.no_compaction;
        flushed = valid.flushed;
        rising = subst (λ t. IsRising K T L low t rp.seq_number) (sym same) valid.rising;
        capacity = omega (arith, next_task_le rp.in_flight rp.flush_chan, valid.capacity);
      }
    where
      next_task_lem :
          (f : Option (FlushTask K T L)) (fts : List (FlushTask K T L))
          → received K T L (next_task K T L f fts).0 ++ (next_task K T L f fts).1
            ≡ received K T L f ++ fts
      next_task_lem (some ft) fts = refl
      next_task_lem none [] = refl
      next_task_lem none (ft ∷ fts) = refl

      next_task_le :
          (f : Option (FlushTask K T L)) (fts : List (FlushTask K T L))
          → length (next_task K T L f fts).1 ≤ length fts
      next_task_le (some ft) fts = omega arith
      next_task_le none [] = omega arith
      next_task_le none (ft ∷ fts) = omega arith

  pub held-receive : (rp : RangePartition K T L) → held K T L (receive K T L rp) ≡ held K T L rp
  unfolding held layers receive get_mem_tables
  held-receive rp = refl

  -- A partition whose flusher has received `ft`, where `ms` are the later memtables.
  abbrev pub flushing :
      FlushTask K T L → List (Memtable K T L) → RangePartition K T L → RangePartition K T L
  flushing ft ms rp = record rp { in_flight = some ft; imm = ft.mt ∷ ms }

  -- Where the attempt succeeds, with these tables.
  abbrev pub flushed_to :
      List (Memtable K T L) → List T.Table → RangePartition K T L → RangePartition K T L
  flushed_to ms ts rp = record rp {
    in_flight = none;
    imm = ms;
    tables = ts;
    saved = saved_after K T L rp.saved ts;
  }

  -- The layers in front of the one that is flushed, and those behind it.
  layers-flushing :
      (ft : FlushTask K T L) (ms : List (Memtable K T L)) (rp : RangePartition K T L)
      → layers K T L (flushing ft ms rp)
        ≡ mem_layers K T L (rp.mt ∷ newest_first K T L ms)
          ++ (K.entries ft.mt.skiplist ∷ table_layers K T L (sort_tables K T L rp.tables))
  unfolding layers get_mem_tables
  layers-flushing ft ms rp =
      ap (λ t. K.entries rp.mt.skiplist ∷ t ++ table_layers K T L (sort_tables K T L rp.tables))
        (mem_layers-append K T L (newest_first K T L ms) (ft.mt ∷ []))
      ∙ append_assoc (mem_layers K T L (rp.mt ∷ newest_first K T L ms))
          (K.entries ft.mt.skiplist ∷ []) (table_layers K T L (sort_tables K T L rp.tables))

  layers-flushed_to :
      (ft : FlushTask K T L) (ms : List (Memtable K T L)) (t : T.Table) (rp : RangePartition K T L)
      → All (λ u. T.last_seq u < T.last_seq t) rp.tables
      → T.contents t ≡ K.entries ft.mt.skiplist
      → layers K T L (flushed_to ms (rp.tables ++ (t ∷ [])) rp) ≡ layers K T L (flushing ft ms rp)
  unfolding layers get_mem_tables
  layers-flushed_to ft ms t rp later same =
      let front = mem_layers K T L (rp.mt ∷ newest_first K T L ms) in
      ap (λ us. front ++ table_layers K T L us) (sort_tables-append K T L rp.tables t later)
      ∙ ap (λ es. front ++ (es ∷ table_layers K T L (sort_tables K T L rp.tables))) same
      ∙ sym (layers-flushing ft ms rp)

  last_seq-below :
      (low seq : ℕ) (ts : List T.Table)
      → low < seq
      → All (λ u. T.last_seq u ≤ low) ts
      → All (λ u. T.last_seq u < seq) ts
  last_seq-below low seq [] h hs = tt
  last_seq-below low seq (t ∷ ts) h (ht, hts) = (omega arith, last_seq-below low seq ts h hts)

  last_seq-weaken :
      (seq : ℕ) (ts : List T.Table)
      → All (λ u. T.last_seq u < seq) ts
      → All (λ u. T.last_seq u ≤ seq) ts
  last_seq-weaken seq [] hs = tt
  last_seq-weaken seq (t ∷ ts) (ht, hts) = (omega arith, last_seq-weaken seq ts hts)

  -- The new table takes the place of the memtable among the layers.
  pub flushed_to-IsValid :
      (bound low : ℕ) (ft : FlushTask K T L) (ms : List (Memtable K T L)) (t : T.Table)
      (rp : RangePartition K T L)
      → T.contents t ≡ K.entries ft.mt.skiplist
      → T.last_seq t ≡ ft.seq_num
      → IsValid K T L bound low (flushing ft ms rp)
      → (task_mts K T L rp.flush_chan ≡ ms)
      → IsValid K T L bound ft.seq_num (flushed_to ms (rp.tables ++ (t ∷ [])) rp)
        × (held K T L (flushed_to ms (rp.tables ++ (t ∷ [])) rp) ≡ held K T L (flushing ft ms rp))
  unfolding held
  flushed_to-IsValid bound low ft ms t rp same seq valid tasks =
      let below = last_seq-below low ft.seq_num rp.tables valid.rising.0 valid.flushed in
      let later : All (λ u. T.last_seq u < T.last_seq t) rp.tables =
        subst (λ n. All (λ u. T.last_seq u < n) rp.tables) (sym seq) below in
      let e = layers-flushed_to ft ms t rp later same in
      (
        record {
          bounded = valid.bounded;
          stamped = subst (λ ess. All (IsStamped bound) (concat ess)) (sym e) valid.stamped;
          layered = subst IsLayered (sym e) valid.layered;
          imm_tasks = tasks;
          no_compaction = valid.no_compaction.1;
          flushed =
              All-append (λ u. T.last_seq u ≤ ft.seq_num) rp.tables (t ∷ [])
                (last_seq-weaken ft.seq_num rp.tables below) (omega arith, tt);
          rising = valid.rising.1;
          capacity = valid.capacity;
        },
        ap concat e,
      )

  -- An empty memtable leaves no table.
  pub flushed_empty-IsValid :
      (bound low : ℕ) (ft : FlushTask K T L) (ms : List (Memtable K T L))
      (rp : RangePartition K T L)
      → K.entries ft.mt.skiplist ≡ []
      → IsValid K T L bound low (flushing ft ms rp)
      → (task_mts K T L rp.flush_chan ≡ ms)
      → IsValid K T L bound ft.seq_num (flushed_to ms rp.tables rp)
        × (held K T L (flushed_to ms rp.tables rp) ≡ held K T L (flushing ft ms rp))
  unfolding held layers get_mem_tables
  flushed_empty-IsValid bound low ft ms rp empty valid tasks =
      let front = mem_layers K T L (rp.mt ∷ newest_first K T L ms) in
      let back = table_layers K T L (sort_tables K T L rp.tables) in
      let e : layers K T L (flushing ft ms rp) ≡ front ++ ([] ∷ back) =
        layers-flushing ft ms rp ∙ ap (λ es. front ++ (es ∷ back)) empty in
      let same : concat (front ++ back) ≡ held K T L (flushing ft ms rp) =
        concat-append front back ∙ sym (concat-append front ([] ∷ back)) ∙ ap concat (sym e) in
      (
        record {
          bounded = valid.bounded;
          stamped = subst (All (IsStamped bound)) (sym same) valid.stamped;
          layered = drop_nil-IsLayered front back (subst IsLayered e valid.layered);
          imm_tasks = tasks;
          no_compaction = valid.no_compaction.1;
          flushed =
              last_seq-weaken ft.seq_num rp.tables
                (last_seq-below low ft.seq_num rp.tables valid.rising.0 valid.flushed);
          rising = valid.rising.1;
          capacity = valid.capacity;
        },
        same,
      )
