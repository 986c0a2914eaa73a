-- ===== src/RangePartition/Compaction.antt =====
-- rangepartition/compaction.go, `doCompact`, and range_rangepartition.go, `Range`: loops over the entries
-- that a merge iterator of table/merge_iterator.go gives, in their order, from where it was set.
pub mod Kept
use autumn.Prelude.{
  ℕ, zero, suc, ◌+◌, ◌^◌, ◌%◌, ◌==◌, Bool, true, false, not, ◌&&◌, ◌||◌, List, [], ◌∷◌, ◌++◌, ltb,
  leb, if◌then◌else◌, length,
}
use autumn.RangePartition.Keys.{same_key, parse_key}
use autumn.RangePartition.Values.{ValueStruct, size_varint, is_value_pointer, is_deleted_or_expired}
use autumn.RangePartition.Versions.{Entry}
use autumn.RangePartition.Storage.{Skiplists}

-- `len(skipKey) > 0` and `y.SameKey(it.Key(), skipKey)`
unfoldable pub is_skipped : List ℕ → Entry → Bool
is_skipped skip_key e = ltb 0 (length skip_key) && same_key e.key skip_key

abbrev pub next_skip : List ℕ → Entry → List ℕ
next_skip skip_key e = if is_skipped skip_key e then skip_key else e.key

-- One reading of the clock, `now`, stands for those of a run.
unfoldable pub is_dead : ℕ → Entry → Bool
is_dead now e = is_deleted_or_expired now e.vs.meta e.vs.expires_at

-- bytes.HasPrefix
unfoldable pub has_prefix : List ℕ → List ℕ → Bool
has_prefix s [] = true
has_prefix [] (p ∷ ps) = false
has_prefix (b ∷ s) (p ∷ ps) = b == p && has_prefix s ps

-- `Range` goes on: `uint32(len(out)) < limit`, and the key has the prefix.
unfoldable pub goes_on : List ℕ → ℕ → List (List ℕ) → Entry → Bool
goes_on prefix limit out e = ltb (length out % 2 ^ 32) limit && has_prefix e.key prefix

-- The loop of `Range`: an entry of the key that was last seen is passed over, and so is one that is dead.
unfoldable pub range_loop : ℕ → List ℕ → ℕ → List ℕ → List (List ℕ) → List Entry → List (List ℕ)
range_loop now prefix limit skip_key out [] = out
range_loop now prefix limit skip_key out (e ∷ es) =
    let skip_key' = next_skip skip_key e in
    let out' =
      if is_skipped skip_key e || is_dead now e then out else out ++ (parse_key e.key ∷ []) in
    let more = range_loop now prefix limit skip_key' out' es in
    if goes_on prefix limit out e then more else out

-- `Range`, on the entries from the start key on.
unfoldable pub range : ℕ → List ℕ → ℕ → List Entry → List (List ℕ)
unfolding range_loop
range now prefix limit es = range_loop now prefix limit [] [] es

module _ (K : Skiplists) where
  unfoldable pub estimated_vs : Entry → ℕ
  estimated_vs e =
      let value : ℕ =
        if not (is_value_pointer e.vs.meta) && leb (length e.vs.contents) 1024
        then length e.vs.contents + 2
        else 16 + 2 in
      length e.key + value + size_varint e.vs.expires_at + (K.max_node_size + 8)

  unfoldable pub is_full : ℕ → K.Skiplist → Entry → Bool
  unfolding estimated_vs
  is_full capacity m e = ltb capacity (K.mem_size m + estimated_vs e)

  -- The inner loop of `doCompact`: the memtable, and what is left for the next.
  unfoldable pub fill : ℕ → Bool → ℕ → List ℕ → List Entry → K.Skiplist → K.Skiplist × List Entry
  fill now major capacity skip_key [] m = (m, [])
  fill now major capacity skip_key (e ∷ es) m =
      let left_out = is_skipped skip_key e || (major && is_dead now e) in
      let skip_key' = next_skip skip_key e in
      let m' = if left_out then m else K.put e.key e.vs m in
      let more = fill now major capacity skip_key' es m' in
      if not left_out && is_full capacity m e then (m, e ∷ es) else more

  -- The outer loop: the memtables that are given to the flusher.
  unfoldable pub compact : ℕ → ℕ → Bool → ℕ → List Entry → List K.Skiplist
  unfolding fill
  compact zero now major capacity es = []
  compact (suc fuel) now major capacity [] = []
  compact (suc fuel) now major capacity (e ∷ es) =
      let (m, rest) = fill now major capacity [] (e ∷ es) K.new_skiplist in
      m ∷ compact fuel now major capacity rest
