-- ===== src/Examples/Compactions.antt =====
-- Compaction and `Range` over two versions of one key.
use autumn.Prelude.{ℕ, ◌≡◌, true, List, [], ◌∷◌, arith, take}
use autumn.RangePartition.Keys.{key_with_ts}
use autumn.RangePartition.Versions.{Entry}
use autumn.RangePartition.Compaction.{range}
use autumn.RangePartition.Compaction.Kept.{kept, prefixed, user_keys, range-kept}

abbrev version : ℕ → ℕ → Entry
version ts meta = record {
  key = key_with_ts (7 ∷ []) ts;
  vs = record { meta = meta; user_meta = 0; expires_at = 0; contents = ts ∷ [] };
}

abbrev merged : List Entry
merged = version 2 0 ∷ version 1 0 ∷ []

range-kept_example :
    range 100 (7 ∷ []) 5 merged ≡ take 5 (user_keys (kept 100 true [] (prefixed (7 ∷ []) merged)))
range-kept_example = range-kept 100 (7 ∷ []) 5 merged (omega arith)
