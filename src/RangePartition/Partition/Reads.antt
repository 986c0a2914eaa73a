-- ===== src/RangePartition/Partition/Reads.antt =====
-- range_rangepartition.go, `getValueStruct`: what a read finds in the memtables and the tables.
use mathlib.Core.Path.{subst}
use autumn.Prelude.{
  ℕ, ◌≡◌, refl, sym, ap, ◌∙◌, Option, none, some, List, [], ◌∷◌, ◌++◌, arith, if◌then◌else◌, All,
  All-split, Bool-cases, inl, inr,
}
use autumn.RangePartition.Keys.{key_with_ts, parse_key, parse_key-key_with_ts}
use autumn.RangePartition.Storage.{Skiplists, Tables, Logs, in_range, same_key_hit}
use autumn.RangePartition.Versions.{
  Entry, Found, later, later-none, later_assoc, latest, latest-append, concat, IsStamped, IsShort,
  IsStamped-IsShort, Within, latest-Within,
}
use autumn.RangePartition.Versions.Layers.{IsLayered, or_else, latest-concat, concat-append}
use autumn.RangePartition.Partition.{RangePartition, Memtable}
use autumn.RangePartition.Reader.{
  better, search_memtables, search_tables, in_key_range, sort_tables, get_mem_tables,
  get_tables_for_key, get_value_struct, read_version,
}
use autumn.RangePartition.Partition.Sorting.{in_key_range-sort_tables, in_key_range-All}

module _ (K : Skiplists) (T : Tables K) (L : Logs) where
  abbrev pub mem_layers : List (Memtable K T L) → List (List Entry)
  mem_layers [] = []
  mem_layers (m ∷ ms) = K.entries m.skiplist ∷ mem_layers ms

  abbrev pub table_layers : List T.Table → List (List Entry)
  table_layers [] = []
  table_layers (t ∷ ts) = T.contents t ∷ table_layers ts

  -- Everything that the partition holds, in the order in which it is searched.
  unfoldable pub layers : RangePartition K T L → List (List Entry)
  layers rp = mem_layers (get_mem_tables K T L rp) ++ table_layers (sort_tables K T L rp.tables)

  better-later :
      (seq : ℕ) (best b : Option Found) → Within seq b → better K T L best b ≡ later best b
  better-later seq none none h = refl
  better-later seq none (some b) h = ground arith
  better-later seq (some a) none h = refl
  better-later seq (some a) (some b) h = refl

  -- The layers of the tables, without those that are out of the key's range.
  latest-in_key_range :
      (q : List ℕ) (ts : List T.Table)
      → latest q (concat (table_layers (in_key_range K T L (parse_key q) ts)))
        ≡ latest q (concat (table_layers ts))
  unfolding in_key_range
  latest-in_key_range q [] = refl
  latest-in_key_range q (t ∷ ts) =
      let rest = latest-in_key_range q ts in
      elim (Bool-cases
        (in_range (parse_key q) (parse_key (T.smallest t)) (parse_key (T.biggest t)))) [
          | inl inside ↦
              ap
                (λ b. latest q (
                  concat (
                    table_layers (
                      if b
                      then t ∷ in_key_range K T L (parse_key q) ts
                      else in_key_range K T L (parse_key q) ts))))
                inside
              ∙ latest-append q (T.contents t)
                  (concat (table_layers (in_key_range K T L (parse_key q) ts)))
              ∙ ap (later (latest q (T.contents t))) rest
              ∙ sym (latest-append q (T.contents t) (concat (table_layers ts)))
          | inr outside ↦
              ap
                (λ b. latest q (
                  concat (
                    table_layers (
                      if b
                      then t ∷ in_key_range K T L (parse_key q) ts
                      else in_key_range K T L (parse_key q) ts))))
                outside
              ∙ rest
              ∙ ap (λ a. later a (latest q (concat (table_layers ts))))
                  (sym (T.in_range-latest q t outside))
              ∙ sym (latest-append q (T.contents t) (concat (table_layers ts)))
        ]

  -- One table in the loop of `getValueStruct`.
  table_step :
      (seq : ℕ) (q : List ℕ) (best : Option Found) (t : T.Table)
      → All (IsStamped seq) (T.contents t)
      → (if T.does_not_have (T.fingerprint (parse_key q)) t
          then best
          else better K T L best (same_key_hit q (T.seek q t)))
        ≡ later best (latest q (T.contents t))
  table_step seq q best t stamped =
      elim (Bool-cases (T.does_not_have (T.fingerprint (parse_key q)) t)) [
        | inl not_there ↦
            ap (λ b. if b then best else better K T L best (same_key_hit q (T.seek q t))) not_there
            ∙ sym (later-none best)
            ∙ ap (later best) (sym (T.does_not_have-latest q t not_there))
        | inr maybe ↦
            ap (λ b. if b then best else better K T L best (same_key_hit q (T.seek q t))) maybe
            ∙ ap (better K T L best)
                (T.seek-latest q t (IsStamped-IsShort seq (T.contents t) stamped))
            ∙ better-later seq best (latest q (T.contents t))
                (latest-Within seq q (T.contents t) stamped)
      ]

  search_tables-latest :
      (seq : ℕ) (q : List ℕ) (best : Option Found) (ts : List T.Table)
      → All (λ t. All (IsStamped seq) (T.contents t)) ts
      → search_tables K T L (parse_key q) q best ts
        ≡ later best (latest q (concat (table_layers ts)))
  unfolding search_tables latest
  search_tables-latest seq q best [] h = sym (later-none best)
  search_tables-latest seq q best (t ∷ ts) (ht, hts) =
      ap (λ b. search_tables K T L (parse_key q) q b ts) (table_step seq q best t ht)
      ∙ search_tables-latest seq q (later best (latest q (T.contents t))) ts hts
      ∙ later_assoc best (latest q (T.contents t)) (latest q (concat (table_layers ts)))
      ∙ ap (later best) (sym (latest-append q (T.contents t) (concat (table_layers ts))))

  or_else_assoc :
      (o s x : Option Found)
      → or_else (elim o [ none ↦ s | some a ↦ some a ]) x ≡ or_else o (or_else s x)
  or_else_assoc none s x = refl
  or_else_assoc (some a) s x = refl

  -- The memtables in front of older layers.
  search_memtables-latest :
      (q : List ℕ) (ms : List (Memtable K T L)) (older : List (List Entry))
      → All IsShort (concat (mem_layers ms ++ older))
      → IsLayered (mem_layers ms ++ older)
      → or_else (search_memtables K T L q ms) (latest q (concat older))
        ≡ latest q (concat (mem_layers ms ++ older))
  unfolding search_memtables
  search_memtables-latest q [] older short h = refl
  search_memtables-latest q (m ∷ ms) older short h =
      let (here, behind) =
        All-split IsShort (K.entries m.skiplist) (concat (mem_layers ms ++ older)) short in
      or_else_assoc (K.get q m.skiplist) (search_memtables K T L q ms) (latest q (concat older))
      ∙ ap (or_else (K.get q m.skiplist)) (search_memtables-latest q ms older behind h.1)
      ∙ ap (λ o. or_else o (latest q (concat (mem_layers ms ++ older))))
          (K.get-latest q m.skiplist here)
      ∙ sym (latest-concat q (K.entries m.skiplist) (mem_layers ms ++ older) h)

  contents-IsStamped :
      (seq : ℕ) (ts : List T.Table)
      → All (IsStamped seq) (concat (table_layers ts))
      → All (λ t. All (IsStamped seq) (T.contents t)) ts
  contents-IsStamped seq [] h = tt
  contents-IsStamped seq (t ∷ ts) h =
      let (ht, hts) = All-split (IsStamped seq) (T.contents t) (concat (table_layers ts)) h in
      (ht, contents-IsStamped seq ts hts)

  -- `getTablesForKey` and the loop over its tables, against all tables.
  tables-latest :
      (seq : ℕ) (q : List ℕ) (rp : RangePartition K T L)
      → All (IsStamped seq) (concat (table_layers (sort_tables K T L rp.tables)))
      → search_tables K T L (parse_key q) q none (get_tables_for_key K T L (parse_key q) rp)
        ≡ latest q (concat (table_layers (sort_tables K T L rp.tables)))
  unfolding get_tables_for_key
  tables-latest seq q rp stamped =
      let all = sort_tables K T L rp.tables in
      ap (search_tables K T L (parse_key q) q none)
        (sym (in_key_range-sort_tables K T L (parse_key q) rp.tables))
      ∙ search_tables-latest seq q none (in_key_range K T L (parse_key q) all) (
          in_key_range-All K T L (λ t. All (IsStamped seq) (T.contents t)) (parse_key q) all
            (contents-IsStamped seq all stamped))
      ∙ latest-in_key_range q all

  IsStamped-tables :
      (seq : ℕ) (rp : RangePartition K T L)
      → All (IsStamped seq) (concat (layers rp))
      → All (IsStamped seq) (concat (table_layers (sort_tables K T L rp.tables)))
  unfolding layers
  IsStamped-tables seq rp h =
      let front = mem_layers (get_mem_tables K T L rp) in
      let back = table_layers (sort_tables K T L rp.tables) in
      (All-split (IsStamped seq) (concat front) (concat back)
        (subst (All (IsStamped seq)) (concat-append front back) h)).1

  or_else_elim : (o x : Option Found) → (elim o [ some a ↦ some a | none ↦ x ]) ≡ or_else o x
  or_else_elim none x = refl
  or_else_elim (some a) x = refl

  found-latest :
      (seq : ℕ) (q : List ℕ) (rp : RangePartition K T L)
      → All (IsStamped seq) (concat (layers rp))
      → IsLayered (layers rp)
      → or_else
          (search_memtables K T L q (get_mem_tables K T L rp))
          (search_tables K T L (parse_key q) q none (get_tables_for_key K T L (parse_key q) rp))
        ≡ latest q (concat (layers rp))
  unfolding layers
  found-latest seq q rp stamped layered =
      ap (or_else (search_memtables K T L q (get_mem_tables K T L rp)))
        (tables-latest seq q rp (IsStamped-tables seq rp stamped))
      ∙ search_memtables-latest q (get_mem_tables K T L rp)
          (table_layers (sort_tables K T L rp.tables))
          (IsStamped-IsShort seq (concat (layers rp)) stamped) layered

  pub get_value_struct-latest :
      (seq : ℕ) (user_key : List ℕ) (version : ℕ) (rp : RangePartition K T L)
      → All (IsStamped seq) (concat (layers rp))
      → IsLayered (layers rp)
      → get_value_struct K T L user_key version rp
        ≡ latest (key_with_ts user_key (read_version K T L version rp)) (concat (layers rp))
  unfolding get_value_struct
  get_value_struct-latest seq user_key version rp stamped layered =
      let q = key_with_ts user_key (read_version K T L version rp) in
      let same = parse_key-key_with_ts user_key (read_version K T L version rp) in
      or_else_elim (search_memtables K T L q (get_mem_tables K T L rp)) _
      ∙ ap
          (λ u.
            or_else (search_memtables K T L q (get_mem_tables K T L rp))
              (search_tables K T L u q none (get_tables_for_key K T L u rp)))
          (sym same)
      ∙ found-latest seq q rp stamped layered
