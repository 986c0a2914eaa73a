-- ===== src/Examples/Discards.antt =====
-- The theorems on the discard manager at concrete streams.
use autumn.Prelude.{ℕ, ◌^◌, ◌%◌, ◌≡◌, refl, some, List, [], ◌∷◌}
use autumn.Manager.StreamManager.{StreamInfo}
use autumn.RangePartition.DiscardManager.{
  DiscardManager, new_discard_manager, update_discard_stats, max_loop, max_discard,
}
use autumn.RangePartition.DiscardManager.Index.{counter, due, counter-update_discard_stats}

-- Two streams that share the extent 5, and the bytes that became free.
abbrev blob : ℕ → List ℕ → StreamInfo
blob id extents = record { stream_id = id; extent_ids = extents }

abbrev blobs : List (ℕ × StreamInfo)
blobs = (1, blob 1 (5 ∷ 6 ∷ [])) ∷ (2, blob 2 (5 ∷ [])) ∷ []

abbrev freed : List (ℕ × ℕ)
freed = (5, 100) ∷ (6, 30) ∷ []

counter-update_discard_stats_example :
    counter 1 (update_discard_stats freed (new_discard_manager blobs)).discard_of_stream
    ≡ due 1 freed blobs % 2 ^ 64
counter-update_discard_stats_example = counter-update_discard_stats blobs freed 1

abbrev counted : DiscardManager
counted = record {
  streams = blobs;
  reverse_index = [];
  discard_of_stream = (1, 130) ∷ (2, 100) ∷ [];
}

counted_first : max_discard counted ≡ some (blob 1 (5 ∷ 6 ∷ []))
unfolding max_discard max_loop
counted_first = refl
