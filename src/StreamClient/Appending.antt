-- ===== src/StreamClient/Appending.antt =====
-- streamclient/streamclient.go: `Append`, `AppendEntries` and `mustAllocNewExtent` of a client.
pub mod Retries
pub mod Addresses
use autumn.Prelude.{
  ℕ, ◌+◌, ◌*◌, ◌%◌, ◌^◌, Bool, true, false, Option, none, some, List, [], ◌∷◌, ◌++◌, ltb, ◌==◌,
  if◌then◌else◌, take, drop,
}
use autumn.Prelude.Outcome.{Outcome, ok, err, panic, failed, ◌>>=◌}
use autumn.Extent.Block.{Block}
use autumn.Extent.File.{◌+u32◌}
use autumn.Log.{LogEntry, Codec}
use autumn.StreamClient.Blocks.{entries_to_blocks}

-- What a call of a node's `Append` gives, as the code tells it apart: the offsets, the error value
-- context.DeadlineExceeded itself, or another error, with a nil response. A call of gRPC that
-- times out returns a status error, which is another one.
pub data Answer : Type 0 where
  answered : List ℕ → Answer
  deadline fault : Answer

abbrev pub max_extent_size : ℕ
max_extent_size = 2 * 2 ^ 30

-- `x[len(x)-1]`
abbrev pub last {ℓ} : {A : Type ℓ} → List A → Option A
last [] = none
last (x ∷ []) = some x
last (x ∷ y ∷ xs) = last (y ∷ xs)

-- The loop ends with the first `StreamAllocExtent` that succeeds; none means that all results given
-- were errors. The new extent becomes the last, and the results that follow are left.
unfoldable pub must_alloc_new_extent : List (Option ℕ) → List ℕ → Option (List ℕ × List (Option ℕ))
must_alloc_new_extent [] ids = none
must_alloc_new_extent (none ∷ results) ids = must_alloc_new_extent results ids
must_alloc_new_extent (some id ∷ results) ids = some (ids ++ (id ∷ []), results)

abbrev pub with_extents :
    ℕ → List ℕ → Option (List ℕ × List (Option ℕ)) → Option (List ℕ × Outcome (ℕ × List ℕ))
with_extents id offsets none = none
with_extents id offsets (some (ids, results)) = some (ids, ok (id, offsets))

-- What `Append` does with the offsets: a nil slice has no last one.
abbrev pub after_append :
    List (Option ℕ) → List ℕ → ℕ → List ℕ → Option ℕ → Option (List ℕ × Outcome (ℕ × List ℕ))
after_append results ids id offsets none = some (ids, panic)
after_append results ids id offsets (some offset) =
    let grown = with_extents id offsets (must_alloc_new_extent results ids) in
    if ltb max_extent_size offset then grown else some (ids, ok (id, offsets))

-- `Append`, on the answers of its calls and the results of `StreamAllocExtent`: the extents of the
-- stream, and the extent and the offsets returned. none means that it has not returned yet.
unfoldable pub append :
    List Answer → List (Option ℕ) → List ℕ → Option (List ℕ × Outcome (ℕ × List ℕ))
append [] results ids = none
append (a ∷ answers) results ids = elim (last ids) [
  | none ↦ some (ids, panic)
  | some id ↦ elim a [
    | fault ↦ some (ids, panic)
    | deadline ↦ elim (must_alloc_new_extent results ids) [
      | none ↦ none
      | some r ↦ append answers r.1 r.0
    ]
    | answered offsets ↦ after_append results ids id offsets (last offsets)
  ]
]

-- `entries[j+i].Offset = offsets[k+i]`, for all i.
unfoldable pub set_addresses : ℕ → List LogEntry → List ℕ → Outcome (List LogEntry)
set_addresses id [] offsets = ok []
set_addresses id (e ∷ es) [] = panic
set_addresses id (e ∷ es) (o ∷ os) =
    set_addresses id es os >>= λ rest. ok (record e { extent_id = id; offset = o } ∷ rest)

-- `offsets[len(offsets)-1] + blocks[len(blocks)-1].BlockLength + 512`
abbrev pub end_of_block : Option Block → Option ℕ → Outcome ℕ
end_of_block (some b) (some o) = ok (o +u32 (b.block_length +u32 512))
end_of_block b o = panic

abbrev pub finish_entries :
    List LogEntry → List Block × ℕ × ℕ → Outcome (ℕ × List ℕ) → Outcome (List LogEntry × ℕ × ℕ)
finish_entries es (blocks, j, k) (ok (id, offsets)) = do
  placed ← set_addresses id (drop j es) (drop k offsets)
  end ← end_of_block (last blocks) (last offsets)
  ok (take j es ++ placed, id, end)
finish_entries es (blocks, j, k) (err e) = err e
finish_entries es (blocks, j, k) panic = panic

-- `AppendEntries`, with sort.Slice by the length of the values: the entries, in their new order and
-- with their addresses, the extent, and where the log ends.
unfoldable pub append_entries :
    Codec
    → (List LogEntry → List LogEntry)
    → List Answer
    → List (Option ℕ)
    → List ℕ
    → List LogEntry
    → Option (List ℕ × Outcome (List LogEntry × ℕ × ℕ))
append_entries C sort answers results ids [] = some (ids, err failed)
append_entries C sort answers results ids (e ∷ es) =
    let sorted = sort (e ∷ es) in
    elim (entries_to_blocks C sorted) [
      | ok layout ↦ elim (append answers results ids) [
        | none ↦ none
        | some (ids', r) ↦ some (ids', finish_entries sorted layout r)
      ]
      | err e ↦ some (ids, err e)
      | panic ↦ some (ids, panic)
    ]
