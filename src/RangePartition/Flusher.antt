-- ===== src/RangePartition/Flusher.antt =====
-- rangepartition/range_rangepartition.go, `flushMemtable` and `handleFlushTask`: memtables become tables.
use autumn.Prelude.{ℕ, ◌==◌, Option, none, some, List, [], ◌∷◌, ◌++◌, if◌then◌else◌}
use autumn.Prelude.Outcome.{Outcome, ok, err, panic, failed, ◌>>=◌}
use autumn.RangePartition.Storage.{Skiplists, Tables, Logs}
use autumn.RangePartition.Partition.{FlushTask, RangePartition}

module _ (K : Skiplists) (T : Tables K) (L : Logs) where
  -- The channel gives its first task to a flusher that has none.
  abbrev pub next_task :
      Option (FlushTask K T L)
      → List (FlushTask K T L)
      → Option (FlushTask K T L) × List (FlushTask K T L)
  next_task (some ft) fts = (some ft, fts)
  next_task none [] = (none, [])
  next_task none (ft ∷ fts) = (some ft, fts)

  unfoldable pub receive : RangePartition K T L → RangePartition K T L
  receive rp =
      let (in_flight, fts) = next_task rp.in_flight rp.flush_chan in
      record rp { in_flight = in_flight; flush_chan = fts }

  abbrev pub add_table : RangePartition K T L → Option T.Table → Outcome (RangePartition K T L)
  add_table rp none = err failed
  add_table rp (some t) = ok (record rp { tables = rp.tables ++ (t ∷ []) })

  unfoldable pub handle_flush_task :
      ℕ → FlushTask K T L → RangePartition K T L → Outcome (RangePartition K T L)
  handle_flush_task attempt ft rp =
      if K.is_empty ft.mt.skiplist
      then ok rp
      else add_table rp (T.build attempt ft.mt.skiplist ft.vptr ft.seq_num)

  -- `utils.AssertTrue(ft.mt == rp.imm[0])` and `rp.imm = rp.imm[1:]`
  unfoldable pub drop_imm : FlushTask K T L → RangePartition K T L → Outcome (RangePartition K T L)
  drop_imm ft rp = if ft.is_compact then ok rp else elim rp.imm [
    | [] ↦ panic
    | m ∷ ms ↦ if ft.mt.id == m.id then ok (record rp { imm = ms }) else panic
  ]

  -- `updateTableLocs`, which tries until the manager has taken the places.
  abbrev pub saved_after : List T.Table → List T.Table → List T.Table
  saved_after saved [] = saved
  saved_after saved (t ∷ ts) = t ∷ ts

  unfoldable pub update_table_locs : RangePartition K T L → RangePartition K T L
  update_table_locs rp = record rp { saved = saved_after rp.saved rp.tables }

  -- One attempt at the received task: an error leaves it to the next attempt.
  unfoldable pub settle :
      FlushTask K T L
      → RangePartition K T L
      → Outcome (RangePartition K T L)
      → Outcome (RangePartition K T L)
  unfolding drop_imm update_table_locs
  settle ft rp (err e) = ok rp
  settle ft rp panic = panic
  settle ft rp (ok rp') =
      drop_imm ft rp' >>= λ dropped. ok (update_table_locs (record dropped { in_flight = none }))

  unfoldable pub attempt_task :
      ℕ → Option (FlushTask K T L) → RangePartition K T L → Outcome (RangePartition K T L)
  unfolding handle_flush_task settle
  attempt_task attempt none rp = ok rp
  attempt_task attempt (some ft) rp = settle ft rp (handle_flush_task attempt ft rp)

  unfoldable pub flush_attempt : ℕ → RangePartition K T L → Outcome (RangePartition K T L)
  unfolding attempt_task
  flush_attempt attempt rp = attempt_task attempt rp.in_flight rp
