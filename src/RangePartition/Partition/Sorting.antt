-- ===== src/RangePartition/Partition/Sorting.antt =====
-- range_rangepartition.go, `getTablesForKey`: the tables that may hold a key, the last flushed first.
use autumn.Prelude.{
  ℕ, ◌≤◌, ◌<◌, ◌≡◌, refl, sym, ap, ◌∙◌, Bool, true, false, List, [], ◌∷◌, arith, if◌then◌else◌, All,
  inl, inr, ◌⊎◌, lt→ltb, le→ltb,
}
use autumn.RangePartition.Keys.{parse_key}
use autumn.RangePartition.Storage.{Skiplists, Tables, Logs, in_range}
use autumn.RangePartition.Reader.{in_key_range, insert_table, sort_tables}

le_or_lt : (a b : ℕ) → (a ≤ b) ⊎ (b < a)
le_or_lt a b = omega arith

module _ (K : Skiplists) (T : Tables K) (L : Logs) where
  abbrev IsSorted : List T.Table → Type 0
  IsSorted [] = Unit
  IsSorted (t ∷ ts) = All (λ u. T.last_seq u ≤ T.last_seq t) ts × IsSorted ts

  insert_table-All :
      (P : T.Table → Type 0) (t : T.Table) (us : List T.Table)
      → P t
      → All P us
      → All P (insert_table K T L t us)
  unfolding insert_table
  insert_table-All P t [] h hs = (h, tt)
  insert_table-All P t (u ∷ us) h (hu, hus) = ground (arith, insert_table-All P t us h hus)

  all_below :
      (a b : ℕ) (us : List T.Table)
      → a ≤ b
      → All (λ u. T.last_seq u ≤ a) us
      → All (λ u. T.last_seq u ≤ b) us
  all_below a b [] h hs = tt
  all_below a b (u ∷ us) h (hu, hus) = (omega arith, all_below a b us h hus)

  insert_table-IsSorted :
      (t : T.Table) (us : List T.Table) → IsSorted us → IsSorted (insert_table K T L t us)
  unfolding insert_table
  insert_table-IsSorted t [] h = (tt, tt)
  insert_table-IsSorted t (u ∷ us) (below, sorted) = ground (
    arith,
    insert_table-IsSorted t us sorted,
    insert_table-All (λ w. T.last_seq w ≤ T.last_seq u) t us,
    all_below (T.last_seq u) (T.last_seq t) us,
  )

  sort_tables-IsSorted : (ts : List T.Table) → IsSorted (sort_tables K T L ts)
  unfolding sort_tables
  sort_tables-IsSorted [] = tt
  sort_tables-IsSorted (t ∷ ts) =
      insert_table-IsSorted t (sort_tables K T L ts) (sort_tables-IsSorted ts)

  -- A table that no other was flushed after comes first.
  pub insert_table-front :
      (t : T.Table) (us : List T.Table)
      → All (λ u. T.last_seq u ≤ T.last_seq t) us
      → insert_table K T L t us ≡ t ∷ us
  unfolding insert_table
  insert_table-front t [] h = refl
  insert_table-front t (u ∷ us) (hu, hus) = ground arith

  pub in_key_range-All :
      (P : T.Table → Type 0) (key : List ℕ) (us : List T.Table)
      → All P us
      → All P (in_key_range K T L key us)
  unfolding in_key_range
  in_key_range-All P key [] h = tt
  in_key_range-All P key (u ∷ us) (hu, hus) = ground (arith, in_key_range-All P key us hus)

  -- In front of a table that was flushed later, and of one that was not.
  insert_behind :
      (a b : Bool) (t u : T.Table) (rest kept : List T.Table)
      → T.last_seq t < T.last_seq u
      → rest ≡ (if a then insert_table K T L t kept else kept)
      → (if b then u ∷ rest else rest) ≡ (
          if a
          then insert_table K T L t (if b then u ∷ kept else kept)
          else (if b then u ∷ kept else kept))
  unfolding insert_table
  insert_behind true true t u rest kept h e =
      ap (λ r. u ∷ r) e
      ∙ ap (λ c. if c then u ∷ insert_table K T L t kept else t ∷ u ∷ kept)
          (sym (lt→ltb (T.last_seq t) (T.last_seq u) h))
  insert_behind true false t u rest kept h e = e
  insert_behind false true t u rest kept h e = ap (λ r. u ∷ r) e
  insert_behind false false t u rest kept h e = e

  insert_before :
      (a : Bool) (t : T.Table) (kept : List T.Table)
      → All (λ w. T.last_seq w ≤ T.last_seq t) kept
      → (if a then t ∷ kept else kept) ≡ (if a then insert_table K T L t kept else kept)
  insert_before true t kept h = sym (insert_table-front t kept h)
  insert_before false t kept h = refl

  in_key_range-insert_table :
      (key : List ℕ) (t : T.Table) (us : List T.Table)
      → IsSorted us
      → in_key_range K T L key (insert_table K T L t us) ≡ (
          if in_range key (parse_key (T.smallest t)) (parse_key (T.biggest t))
          then insert_table K T L t (in_key_range K T L key us)
          else in_key_range K T L key us)
  unfolding in_key_range insert_table
  in_key_range-insert_table key t [] h = refl
  in_key_range-insert_table key t (u ∷ us) (below, sorted) =
      let a = in_range key (parse_key (T.smallest t)) (parse_key (T.biggest t)) in
      elim (le_or_lt (T.last_seq u) (T.last_seq t)) [
        | inl le ↦
            ap (λ c. in_key_range K T L key (if c then u ∷ insert_table K T L t us else t ∷ u ∷ us))
              (le→ltb (T.last_seq t) (T.last_seq u) le)
            ∙ insert_before a t (in_key_range K T L key (u ∷ us)) (
                in_key_range-All (λ w. T.last_seq w ≤ T.last_seq t) key (u ∷ us)
                  (le, all_below (T.last_seq u) (T.last_seq t) us le below))
        | inr lt ↦
            ap (λ c. in_key_range K T L key (if c then u ∷ insert_table K T L t us else t ∷ u ∷ us))
              (lt→ltb (T.last_seq t) (T.last_seq u) lt)
            ∙ insert_behind a (in_range key (parse_key (T.smallest u)) (parse_key (T.biggest u))) t
                u (in_key_range K T L key (insert_table K T L t us)) (in_key_range K T L key us) lt
                (in_key_range-insert_table key t us sorted)
      ]

  sort_choice :
      (a : Bool) (t : T.Table) (kept chosen : List T.Table)
      → kept ≡ sort_tables K T L chosen
      → (if a then insert_table K T L t kept else kept)
        ≡ sort_tables K T L (if a then t ∷ chosen else chosen)
  unfolding sort_tables
  sort_choice true t kept chosen e = ap (insert_table K T L t) e
  sort_choice false t kept chosen e = e

  -- The tables in range, sorted, are the sorted tables that are in range.
  pub in_key_range-sort_tables :
      (key : List ℕ) (ts : List T.Table)
      → in_key_range K T L key (sort_tables K T L ts)
        ≡ sort_tables K T L (in_key_range K T L key ts)
  unfolding in_key_range sort_tables
  in_key_range-sort_tables key [] = refl
  in_key_range-sort_tables key (t ∷ ts) =
      in_key_range-insert_table key t (sort_tables K T L ts) (sort_tables-IsSorted ts)
      ∙ sort_choice (in_range key (parse_key (T.smallest t)) (parse_key (T.biggest t))) t
          (in_key_range K T L key (sort_tables K T L ts)) (in_key_range K T L key ts)
          (in_key_range-sort_tables key ts)
