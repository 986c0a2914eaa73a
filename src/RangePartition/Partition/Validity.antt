-- ===== src/RangePartition/Partition/Validity.antt =====
-- range_rangepartition.go: what holds of a partition between its steps, and that the memtables and
-- the tables move without a change to what the partition holds.
use autumn.Prelude.{
  ℕ, ◌≤◌, ◌<◌, ◌≡◌, refl, ap, ◌∙◌, false, Option, none, some, List, [], ◌∷◌, ◌++◌, arith,
  if◌then◌else◌, All, lt→ltb, length,
}
use autumn.RangePartition.Storage.{Skiplists, Tables, Logs}
use autumn.RangePartition.Versions.{Entry, concat, IsStamped}
use autumn.RangePartition.Versions.Layers.{IsLayered}
use autumn.RangePartition.Partition.{RangePartition, Memtable, FlushTask, flush_chan_capacity}
use autumn.RangePartition.Reader.{newest_first, insert_table, sort_tables}
use autumn.RangePartition.Partition.Reads.{layers, mem_layers}

module _ (K : Skiplists) (T : Tables K) (L : Logs) where
  -- All entries, the last written first.
  unfoldable pub held : RangePartition K T L → List Entry
  held rp = concat (layers K T L rp)

  -- The tasks that are not done: the one received, and those in the channel.
  abbrev pub received : Option (FlushTask K T L) → List (FlushTask K T L)
  received none = []
  received (some ft) = ft ∷ []

  abbrev pub pending : RangePartition K T L → List (FlushTask K T L)
  pending rp = received rp.in_flight ++ rp.flush_chan

  abbrev pub task_mts : List (FlushTask K T L) → List (Memtable K T L)
  task_mts [] = []
  task_mts (ft ∷ fts) = ft.mt ∷ task_mts fts

  -- The sequence numbers of the tasks rise from `low`, which no table exceeds, up to `high`.
  abbrev pub IsRising : ℕ → List (FlushTask K T L) → ℕ → Type 0
  IsRising low [] high = low ≤ high
  IsRising low (ft ∷ fts) high = (low < ft.seq_num) × IsRising ft.seq_num fts high

  -- `bound` is not below the version of any entry, and all keys are short (`IsStamped`). No
  -- compaction is under way.
  pub record IsValid (bound low : ℕ) (rp : RangePartition K T L) : Type 0 where
    pub bounded : bound ≤ rp.seq_number
    pub stamped : All (IsStamped bound) (held rp)
    pub layered : IsLayered (layers K T L rp)
    pub imm_tasks : task_mts (pending rp) ≡ rp.imm
    pub no_compaction : All (λ ft. ft.is_compact ≡ false) (pending rp)
    pub flushed : All (λ t. T.last_seq t ≤ low) rp.tables
    pub rising : IsRising low (pending rp) rp.seq_number
    pub capacity : length rp.flush_chan ≤ flush_chan_capacity

  pub newest_first-append :
      (ms : List (Memtable K T L)) (m : Memtable K T L)
      → newest_first K T L (ms ++ (m ∷ [])) ≡ m ∷ newest_first K T L ms
  newest_first-append [] m = refl
  newest_first-append (n ∷ ms) m = ap (λ t. t ++ (n ∷ [])) (newest_first-append ms m)

  pub mem_layers-append :
      (ms ns : List (Memtable K T L))
      → mem_layers K T L (ms ++ ns) ≡ mem_layers K T L ms ++ mem_layers K T L ns
  mem_layers-append [] ns = refl
  mem_layers-append (m ∷ ms) ns = ap (λ t. K.entries m.skiplist ∷ t) (mem_layers-append ms ns)

  -- A new table, flushed after all others, is searched first.
  pub sort_tables-append :
      (ts : List T.Table) (t : T.Table)
      → All (λ u. T.last_seq u < T.last_seq t) ts
      → sort_tables K T L (ts ++ (t ∷ [])) ≡ t ∷ sort_tables K T L ts
  unfolding sort_tables insert_table
  sort_tables-append [] t h = refl
  sort_tables-append (u ∷ ts) t (hu, hts) =
      ap (insert_table K T L u) (sort_tables-append ts t hts)
      ∙ ap
          (λ c.
            if c
            then t ∷ insert_table K T L u (sort_tables K T L ts)
            else u ∷ t ∷ sort_tables K T L ts)
          (lt→ltb (T.last_seq u) (T.last_seq t) hu)

  pub IsRising-weaken :
      (low high high' : ℕ) (fts : List (FlushTask K T L))
      → high ≤ high'
      → IsRising low fts high
      → IsRising low fts high'
  IsRising-weaken low high high' [] h rising = omega arith
  IsRising-weaken low high high' (ft ∷ fts) h (first, rest) =
      (first, IsRising-weaken ft.seq_num high high' fts h rest)

  pub IsRising-append :
      (low high : ℕ) (fts : List (FlushTask K T L)) (ft : FlushTask K T L)
      → IsRising low fts high
      → high < ft.seq_num
      → IsRising low (fts ++ (ft ∷ [])) ft.seq_num
  IsRising-append low high [] ft rising h = (omega arith, omega arith)
  IsRising-append low high (f ∷ fts) ft (first, rest) h =
      (first, IsRising-append f.seq_num high fts ft rest h)

  pub task_mts-append :
      (fts gts : List (FlushTask K T L)) → task_mts (fts ++ gts) ≡ task_mts fts ++ task_mts gts
  task_mts-append [] gts = refl
  task_mts-append (ft ∷ fts) gts = ap (λ t. ft.mt ∷ t) (task_mts-append fts gts)
