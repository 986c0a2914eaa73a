-- ===== src/RangePartition/Requests.antt =====
-- rangepartition/range_rangepartition.go: the sizes of requests, by which the write loop ends a batch.
use autumn.Prelude.{
  ℕ, ◌+◌, ◌*◌, ◌^◌, ◌≤◌, ◌≡◌, Bool, true, false, List, [], ◌∷◌, arith, ltb, if◌then◌else◌, length,
}
use autumn.Log.{LogEntry, Codec}

abbrev pub write_ch_capacity : ℕ
write_ch_capacity = 64

module _ (C : Codec) where
  -- `request.Size`, on the entries of a request.
  unfoldable pub request_size : List LogEntry → ℕ
  request_size [] = 0
  request_size (e ∷ es) = C.size e + request_size es

  unfoldable pub too_big_from : ℕ → ℕ → List (List LogEntry) → Bool
  too_big_from size n [] = false
  too_big_from size n (req ∷ reqs) =
      let rest = too_big_from (size + request_size req) (n + length req) reqs in
      if ltb (30 * 2 ^ 20) (size + request_size req)
      then true
      else if ltb (3 * write_ch_capacity) (n + length req)
      then true
      else rest

  unfoldable pub is_reqs_too_big : List (List LogEntry) → Bool
  unfolding too_big_from
  is_reqs_too_big reqs = too_big_from 0 0 reqs

  abbrev pub sum_sizes : List (List LogEntry) → ℕ
  sum_sizes [] = 0
  sum_sizes (req ∷ reqs) = request_size req + sum_sizes reqs

  abbrev pub count_entries : List (List LogEntry) → ℕ
  count_entries [] = 0
  count_entries (req ∷ reqs) = length req + count_entries reqs

  too_big_from-bounds :
      (size n : ℕ) (reqs : List (List LogEntry))
      → size ≤ 30 * 2 ^ 20
      → n ≤ 3 * write_ch_capacity
      → too_big_from size n reqs ≡ false
      → (size + sum_sizes reqs ≤ 30 * 2 ^ 20) × (n + count_entries reqs ≤ 3 * write_ch_capacity)
  unfolding too_big_from
  too_big_from-bounds size n [] hs hn h = (omega arith, omega arith)
  too_big_from-bounds size n (req ∷ reqs) hs hn h =
      ground (arith, h, too_big_from-bounds (size + request_size req) (n + length req) reqs)

  -- Requests that `isReqsTooBig` passes have 30 MB at most of entries in the log, and 192 entries
  -- at most.
  pub is_reqs_too_big-bounds :
      (reqs : List (List LogEntry))
      → is_reqs_too_big reqs ≡ false
      → (sum_sizes reqs ≤ 30 * 2 ^ 20) × (count_entries reqs ≤ 192)
  unfolding is_reqs_too_big
  is_reqs_too_big-bounds reqs h =
      let (sizes, counts) = too_big_from-bounds 0 0 reqs (omega arith) (omega arith) h in
      (omega (arith, sizes), omega (arith, counts))
