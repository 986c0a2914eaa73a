-- ===== src/RangePartition/DiscardManager.antt =====
-- rangepartition/discard.go: how much of each blob stream is free. An int64 is its 64 bits, as a
-- number below 2^64.
pub mod Index
pub mod Maximum
use autumn.Prelude.{
  ℕ, ◌+◌, ◌^◌, ◌%◌, Bool, Option, none, some, List, [], ◌∷◌, ◌++◌, ltb, if◌then◌else◌,
}
use autumn.Prelude.Assoc.{lookup, insert}
use autumn.Manager.StreamManager.{StreamInfo}

pub record DiscardManager : Type 0 where
  pub streams : List (ℕ × StreamInfo)
  pub reverse_index : List (ℕ × List ℕ)
  pub discard_of_stream : List (ℕ × ℕ)

-- What Go reads under a key that is missing.
abbrev pub or_zero {ℓ} : {A : Type ℓ} → A → Option A → A
or_zero zero none = zero
or_zero zero (some a) = a

-- int64: the sum, and the comparison of the signed values.
abbrev pub add64 : ℕ → ℕ → ℕ
add64 a b = (a + b) % 2 ^ 64

abbrev pub less64 : ℕ → ℕ → Bool
less64 a b = ltb ((a + 2 ^ 63) % 2 ^ 64) ((b + 2 ^ 63) % 2 ^ 64)

-- `reverseIndex[extentID] = append(reverseIndex[extentID], owner)` for each of the extents.
unfoldable pub index_extents : (ℕ → ℕ) → List ℕ → List (ℕ × List ℕ) → List (ℕ × List ℕ)
index_extents owner [] index = index
index_extents owner (e ∷ es) index =
    index_extents owner es (insert e (or_zero [] (lookup e index) ++ (owner e ∷ [])) index)

unfoldable pub index_streams : List (ℕ × StreamInfo) → List (ℕ × List ℕ) → List (ℕ × List ℕ)
unfolding index_extents
index_streams [] index = index
index_streams ((stream_id, s) ∷ si) index =
    index_streams si (index_extents (λ e. stream_id) s.extent_ids index)

unfoldable pub new_discard_manager : List (ℕ × StreamInfo) → DiscardManager
unfolding index_streams
new_discard_manager si = record {
  streams = si;
  reverse_index = index_streams si [];
  discard_of_stream = [];
}

-- The inner loop of `UpdateDiscardStats`.
unfoldable pub credit : ℕ → List ℕ → List (ℕ × ℕ) → List (ℕ × ℕ)
credit discard [] counters = counters
credit discard (s ∷ ss) counters =
    credit discard ss (insert s (add64 (or_zero 0 (lookup s counters)) discard) counters)

unfoldable pub credit_all : List (ℕ × ℕ) → List (ℕ × List ℕ) → List (ℕ × ℕ) → List (ℕ × ℕ)
unfolding credit
credit_all [] index counters = counters
credit_all ((e, discard) ∷ stats) index counters =
    credit_all stats index (credit discard (or_zero [] (lookup e index)) counters)

unfoldable pub update_discard_stats : List (ℕ × ℕ) → DiscardManager → DiscardManager
unfolding credit_all
update_discard_stats stats dsm = record dsm {
  discard_of_stream = credit_all stats dsm.reverse_index dsm.discard_of_stream;
}

-- The loop of `MaxDiscard`: the ID and its counter.
unfoldable pub max_loop : List (ℕ × ℕ) → ℕ → ℕ → ℕ × ℕ
max_loop [] id most = (id, most)
max_loop ((s, discard) ∷ counters) id most =
    let new_id = if less64 most discard then s else id in
    let new_most = if less64 most discard then discard else most in
    max_loop counters new_id new_most

abbrev pub zero_stream : StreamInfo
zero_stream = record { stream_id = 0; extent_ids = [] }

unfoldable pub max_discard : DiscardManager → Option StreamInfo
unfolding max_loop
max_discard dsm = elim dsm.discard_of_stream [
  | [] ↦ none
  | c ∷ cs ↦ some (or_zero zero_stream (lookup (max_loop (c ∷ cs) 0 0).0 dsm.streams))
]

-- `AddBlobStream` enters each extent as its own owner.
unfoldable pub add_blob_stream : StreamInfo → DiscardManager → DiscardManager
unfolding index_extents
add_blob_stream si dsm = record dsm {
  streams = insert si.stream_id si dsm.streams;
  reverse_index = index_extents (λ e. e) si.extent_ids dsm.reverse_index;
}
