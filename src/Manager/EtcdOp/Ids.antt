-- ===== src/Manager/EtcdOp/Ids.antt =====
-- The ranges of IDs that `EtcdAllocUniqID` hands out.
use autumn.Prelude.{
  ℕ, ◌+◌, ◌%◌, ◌^◌, ◌<◌, ◌≡◌, refl, sym, ap, ◌∙◌, true, false, Bool-cases, inl, inr, Option, none,
  some, List, [], ◌∷◌, arith, ◌≤◌, append-nil,
}
use autumn.Prelude.Bytes.{put_uint32, put_uint64, uint64, uint64-put_uint64}
use autumn.Manager.Handler.{Reply, done, is_done}
use autumn.Manager.EtcdOp.{IdCall, current, too_short, holds, etcd_alloc_uniq_id}
use autumn.Extent.Header.{bytes_equal}

-- A call that reads and writes without an error.
pub record IsAnswered (call : IdCall) : Type 0 where
  pub reads : call.read_fails ≡ false
  pub writes : call.write_lost ≡ false

pub current-put_uint64 : (v : ℕ) → v < 2 ^ 64 → current (some (put_uint64 v)) ≡ v
current-put_uint64 v h = ap uint64 (sym (append-nil (put_uint64 v))) ∙ uint64-put_uint64 v [] h

bytes_equal_refl : (bs : List ℕ) → bytes_equal bs bs ≡ true
unfolding bytes_equal
bytes_equal_refl [] = refl
bytes_equal_refl (b ∷ bs) = ground (arith, bytes_equal_refl bs)

holds_refl : (cell : Option (List ℕ)) → holds cell cell ≡ true
holds_refl none = refl
holds_refl (some v) = bytes_equal_refl v

-- With no rival in between, a call gets the range that starts at the key's number, and moves the
-- key to its end.
pub alloc_alone :
    (call : IdCall) (count : ℕ) (cell : Option (List ℕ))
    → IsAnswered call
    → call.stale ≡ none
    → too_short cell ≡ false
    → current cell + count < 2 ^ 64
    → etcd_alloc_uniq_id call count cell
      ≡ (some (put_uint64 (current cell + count)), done (current cell, current cell + count))
unfolding etcd_alloc_uniq_id
alloc_alone call count cell h alone long small =
    let m : (current cell + count) % 2 ^ 64 ≡ current cell + count = omega arith in
    ground (arith, h.reads, h.writes, holds_refl cell, m)

put_uint64-long : (v : ℕ) → too_short (some (put_uint64 v)) ≡ false
unfolding put_uint64 put_uint32
put_uint64-long v = refl

-- Two calls that are answered, one after the other with no rival in between, get ranges that meet
-- end to start, if the key is absent or has 8 bytes at least and the numbers stay below 2^64: no ID is handed out twice.
pub alloc_in_turn :
    (first second : IdCall) (m n : ℕ) (cell : Option (List ℕ))
    → IsAnswered first
    → IsAnswered second
    → first.stale ≡ none
    → second.stale ≡ none
    → too_short cell ≡ false
    → current cell + m + n < 2 ^ 64
    → ((etcd_alloc_uniq_id first m cell).1 ≡ done (current cell, current cell + m))
      × ((etcd_alloc_uniq_id second n (etcd_alloc_uniq_id first m cell).0).1
          ≡ done (current cell + m, current cell + m + n))
alloc_in_turn first second m n cell h k alone alone' long small =
    let one = alloc_alone first m cell h alone long (omega arith) in
    let end = current cell + m in
    let c : current (some (put_uint64 end)) ≡ end = current-put_uint64 end (omega arith) in
    let two =
      alloc_alone second n (some (put_uint64 end)) k alone' (put_uint64-long end)
        (omega (arith, c)) in
    (ground (arith, one), ground (arith, one, two, c))

-- Two calls that are answered and that read the same value get the same IDs, although the
-- comparison of the second one's transaction fails: the result of the transaction is not read.
pub alloc_race :
    (first second : IdCall) (count : ℕ) (cell : Option (List ℕ))
    → IsAnswered first
    → IsAnswered second
    → first.stale ≡ none
    → second.stale ≡ some cell
    → (etcd_alloc_uniq_id second count (etcd_alloc_uniq_id first count cell).0).1
      ≡ (etcd_alloc_uniq_id first count cell).1
unfolding etcd_alloc_uniq_id
alloc_race first second count cell h k alone late =
    ground (arith, h.reads, h.writes, k.reads, k.writes)

-- What a call comes to that reads the key as it is: nothing handed out and the key's number not
-- lower and at most `count` higher, or the range from the key's number on and the key at its end.
pub data Alloc (count : ℕ) (cell cell' : Option (List ℕ)) (r : Reply (ℕ × ℕ)) : Type 0 where
  no_range :
      is_done r ≡ false
      → current cell ≤ current cell'
      → current cell' ≤ current cell + count
      → too_short cell' ≡ false
      → Alloc count cell cell' r
  range :
      r ≡ done (current cell, current cell + count)
      → current cell' ≡ current cell + count
      → too_short cell' ≡ false
      → Alloc count cell cell' r

pub Alloc-cases :
    (call : IdCall) (count : ℕ) (cell : Option (List ℕ))
    → call.stale ≡ none
    → too_short cell ≡ false
    → current cell + count < 2 ^ 64
    → Alloc count cell (etcd_alloc_uniq_id call count cell).0 (etcd_alloc_uniq_id call count cell).1
unfolding etcd_alloc_uniq_id
Alloc-cases call count cell alone long small =
    let m : (current cell + count) % 2 ^ 64 ≡ current cell + count = omega arith in
    let end = current cell + count in
    let at_end : current (some (put_uint64 end)) ≡ end = current-put_uint64 end small in
    elim (Bool-cases call.read_fails) [
      | inl fails ↦ no_range (ground arith) (ground arith) (ground arith) (ground arith)
      | inr reads ↦ elim (Bool-cases call.write_lost) [
        | inl lost ↦
            no_range (ground arith) (ground (arith, m, at_end, holds_refl cell))
              (ground (arith, m, at_end, holds_refl cell)) (ground (arith, put_uint64-long end, m))
        | inr written ↦
            range (ground (arith, m)) (ground (arith, m, at_end, holds_refl cell))
              (ground (arith, put_uint64-long end, m))
      ]
    ]
