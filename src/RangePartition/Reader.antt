-- ===== src/RangePartition/Reader.antt =====
-- rangepartition/range_rangepartition.go, `getMemTables`, `getTablesForKey`, `getValueStruct` and `Get`.
use autumn.Prelude.{ℕ, ◌==◌, ◌||◌, Option, none, some, List, [], ◌∷◌, ◌++◌, ltb, if◌then◌else◌}
use autumn.Prelude.Outcome.{Outcome, ok, ◌>>=◌}
use autumn.RangePartition.Keys.{key_with_ts, parse_key}
use autumn.RangePartition.Values.{decode_pointer, is_deleted, is_value_pointer}
use autumn.RangePartition.Versions.{Found}
use autumn.RangePartition.Storage.{Skiplists, Tables, Logs, in_range, same_key_hit}
use autumn.RangePartition.Partition.{Memtable, RangePartition}

module _ (K : Skiplists) (T : Tables K) (L : Logs) where
  abbrev pub newest_first : List (Memtable K T L) → List (Memtable K T L)
  newest_first [] = []
  newest_first (m ∷ ms) = newest_first ms ++ (m ∷ [])

  unfoldable pub get_mem_tables : RangePartition K T L → List (Memtable K T L)
  get_mem_tables rp = rp.mt ∷ newest_first rp.imm

  unfoldable pub in_key_range : List ℕ → List T.Table → List T.Table
  in_key_range user_key [] = []
  in_key_range user_key (t ∷ ts) =
      if in_range user_key (parse_key (T.smallest t)) (parse_key (T.biggest t))
      then t ∷ in_key_range user_key ts
      else in_key_range user_key ts

  -- `sort.Slice` by LastSeq, the greatest first.
  unfoldable pub insert_table : T.Table → List T.Table → List T.Table
  insert_table t [] = t ∷ []
  insert_table t (u ∷ us) =
      if ltb (T.last_seq t) (T.last_seq u) then u ∷ insert_table t us else t ∷ u ∷ us

  unfoldable pub sort_tables : List T.Table → List T.Table
  unfolding insert_table
  sort_tables [] = []
  sort_tables (t ∷ ts) = insert_table t (sort_tables ts)

  unfoldable pub get_tables_for_key : List ℕ → RangePartition K T L → List T.Table
  unfolding in_key_range sort_tables
  get_tables_for_key user_key rp = sort_tables (in_key_range user_key rp.tables)

  -- `version > maxVs.Version`, where the zero value has version 0.
  abbrev pub better : Option Found → Option Found → Option Found
  better best none = best
  better none (some b) = if ltb 0 b.version then some b else none
  better (some a) (some b) = if ltb a.version b.version then some b else some a

  unfoldable pub search_memtables : List ℕ → List (Memtable K T L) → Option Found
  search_memtables q [] = none
  search_memtables q (m ∷ ms) = elim (K.get q m.skiplist) [
    | none ↦ search_memtables q ms
    | some a ↦ some a
  ]

  unfoldable pub search_tables : List ℕ → List ℕ → Option Found → List T.Table → Option Found
  search_tables user_key q best [] = best
  search_tables user_key q best (t ∷ ts) =
      search_tables user_key q
        (if T.does_not_have (T.fingerprint user_key) t
          then best
          else better best (same_key_hit q (T.seek q t)))
        ts

  unfoldable pub read_version : ℕ → RangePartition K T L → ℕ
  read_version version rp = if version == 0 then rp.seq_number else version

  unfoldable pub get_value_struct : List ℕ → ℕ → RangePartition K T L → Option Found
  unfolding read_version get_mem_tables search_memtables get_tables_for_key search_tables
  get_value_struct user_key version rp =
      let q = key_with_ts user_key (read_version version rp) in
      elim (search_memtables q (get_mem_tables rp)) [
        | some a ↦ some a
        | none ↦ search_tables user_key q none (get_tables_for_key user_key rp)
      ]

  -- The value of what was found: none stands for errNotFound.
  unfoldable pub value_of : L.Log → Option Found → Outcome (Option (List ℕ))
  value_of log none = ok none
  value_of log (some a) =
      if a.version == 0 || is_deleted a.vs.meta
      then ok none
      else (if is_value_pointer a.vs.meta
          then (decode_pointer a.vs.contents >>= λ p.
              L.block_value p.extent_id p.offset log >>= λ v. ok (some v))
          else ok (some a.vs.contents))

  unfoldable pub get : List ℕ → ℕ → RangePartition K T L → Outcome (Option (List ℕ))
  unfolding get_value_struct value_of
  get user_key version rp = value_of rp.log (get_value_struct user_key version rp)
