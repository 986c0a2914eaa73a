-- ===== src/Manager/EtcdOp.antt =====
-- manager/etcd_op.go. etcd itself is not in the repository: what a call observes of it is an
-- argument, and a transaction writes its puts if and only if its comparison held.
pub mod Ids
use autumn.Prelude.{
  ℕ, ◌+◌, ◌%◌, ◌^◌, Bool, true, false, not, ◌&&◌, Option, none, some, List, [], ◌∷◌, ltb,
  if◌then◌else◌, length,
}
use autumn.Prelude.Bytes.{put_uint64, uint64}
use autumn.Extent.Header.{bytes_equal}
use autumn.Manager.Handler.{Reply, done, refused, crashed}

-- What becomes of a transaction: its comparison held or failed, or the client got an error and
-- the puts were not made, or were made all the same.
pub data Commit : Type 0 where
  succeeded : Commit
  compare_failed : Commit
  lost : Commit
  lost_applied : Commit

-- `EtctSetKVS`. After an error the response is nil, and reading `Succeeded` panics; where only the
-- comparison failed, `errors.Wrap(nil, …)` is nil.
module _ {S : Type 0} where
  unfoldable pub etct_set_kvs : Commit → (S → S) → S → S × Reply (Unit {0})
  etct_set_kvs succeeded puts s = (puts s, done tt)
  etct_set_kvs compare_failed puts s = (s, done tt)
  etct_set_kvs lost puts s = (s, crashed)
  etct_set_kvs lost_applied puts s = (puts s, crashed)

-- What a call of `EtcdAllocUniqID` observes: whether its read succeeds, a value that it read before
-- a rival changed the key (`none`: the key is as it was read), whether the client gets an error for
-- its write, and whether such a write is not made.
pub record IdCall : Type 0 where
  pub read_fails : Bool
  pub stale : Option (Option (List ℕ))
  pub write_lost : Bool
  pub write_dropped : Bool

abbrev pub seen : Option (Option (List ℕ)) → Option (List ℕ) → Option (List ℕ)
seen none cell = cell
seen (some v) cell = v

-- clientv3.Compare: the key was never created, or it has the value that was read.
abbrev pub holds : Option (List ℕ) → Option (List ℕ) → Bool
holds none none = true
holds (some v) (some c) = bytes_equal v c
holds _ _ = false

abbrev pub current : Option (List ℕ) → ℕ
current none = 1
current (some v) = uint64 v

-- `binary.BigEndian.Uint64` panics on fewer than 8 bytes.
abbrev pub too_short : Option (List ℕ) → Bool
too_short none = false
too_short (some v) = ltb (length v) 8

-- `EtcdAllocUniqID`: the key's value and the range of IDs. That the comparison failed is not looked
-- at.
unfoldable pub etcd_alloc_uniq_id : IdCall → ℕ → Option (List ℕ) → Option (List ℕ) × Reply (ℕ × ℕ)
etcd_alloc_uniq_id call count cell =
    if call.read_fails
    then (cell, refused)
    else let cur_value = seen call.stale cell in
      if too_short cur_value
      then (cell, crashed)
      else let curr = current cur_value in
        let next = (curr + count) % 2 ^ 64 in
        (
          if holds cur_value cell && not (call.write_lost && call.write_dropped)
              then some (put_uint64 next)
              else cell,
          if call.write_lost then refused else done (curr, next),
        )
