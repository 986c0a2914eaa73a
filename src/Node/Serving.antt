-- ===== src/Node/Serving.antt =====
-- What an extent node answers: reads of appended blocks, and calls of `Seal` and `CommitLength`.
use mathlib.Core.Path.{subst}
use autumn.Prelude.{
  ℕ, ◌+◌, ◌*◌, ◌^◌, ◌<◌, ◌≤◌, ◌≡◌, ◌≢◌, sym, ap, true, none, some, List, [], ◌∷◌, ◌++◌, arith,
  length, All, append-nil,
}
use autumn.Prelude.Outcome.{ok}
use autumn.Extent.Device.{Fault}
use autumn.Extent.Block.{Block}
use autumn.Extent.Block.RoundTrip.{IsBlock}
use autumn.Extent.File.{Disk}
use autumn.Extent.File.Layout.{total, Holds}
use autumn.Extent.File.Append.{
  offsets_from, IsSized, all_accepted, accepted_all, HeadersIntact, all_accepted-IsBlock,
  IsBlock-IsSized,
}
use autumn.Extent.File.Read.{read_blocks-Holds}
use autumn.Node.{
  ExtentNode, Delivery, answered, not_handled, not_answered, Replicas, Weather, all_healthy, append,
  code_ok, error_to_code, serve_blocks, seal_extent, commit_length_of,
}
use autumn.Node.Replication.{IsReplica, left, took, append-IsReplica}

-- Three healthy peers at least, secondaries that answer, and devices without faults.
pub record IsCalm (env : Weather) : Type 0 where
  pub healthy : all_healthy env.healthy ≡ true
  pub three : 3 ≤ length env.healthy
  pub second : env.to_second ≡ answered
  pub third : env.to_third ≡ answered
  pub sound_primary : (n : ℕ) → env.disk_primary n ≡ (none, none)
  pub sound_second : (n : ℕ) → env.disk_second n ≡ (none, none)
  pub sound_third : (n : ℕ) → env.disk_third n ≡ (none, none)

-- Three nodes have the extent, open and with the blocks `old`. Where three healthy peers at least
-- are given, the secondaries answer, the devices have no faults, `writeBlock` accepts each of the
-- blocks, whose `BlockLength` is the length of its data, and the new length fits 32 bits, `Append`
-- returns the blocks' places behind `old`.
pub append-IsCalm :
    (env : Weather) (rs : Replicas) (id : ℕ) (old bs : List Block)
    → IsReplica rs.primary id old
    → IsReplica rs.second id old
    → IsReplica rs.third id old
    → IsCalm env
    → All IsBlock bs
    → 512 + total old + total bs < 2 ^ 32
    → (append env id bs rs).1 ≡ ok (some (offsets_from (512 + total old) bs))
append-IsCalm env rs id old bs hp hs ht calm blocks fits =
    let (p, s, t, r) =
      append-IsReplica id old bs (IsBlock-IsSized bs blocks) fits env rs hp hs ht calm.healthy
        calm.three (λ n. ap (λ (f : Fault × Fault). f.0) (calm.sound_primary n))
        (λ n. ap (λ (f : Fault × Fault). f.0) (calm.sound_second n))
        (λ n. ap (λ (f : Fault × Fault). f.0) (calm.sound_third n)) in
    let all_p = all_accepted-IsBlock env.disk_primary 0 bs calm.sound_primary blocks in
    let all_s = all_accepted-IsBlock env.disk_second 0 bs calm.sound_second blocks in
    let all_t = all_accepted-IsBlock env.disk_third 0 bs calm.sound_third blocks in
    ground (arith, r, calm.second, calm.third, all_p, all_s, all_t)

-- A replica serves the blocks at its end.
serve_blocks-IsReplica :
    (en : ExtentNode) (id : ℕ) (old : List Block) (b : Block) (bs : List Block)
    → IsReplica en id (old ++ (b ∷ bs))
    → total (b ∷ bs) ≤ 32 * 2 ^ 20
    → serve_blocks en id (512 + total old) (length (b ∷ bs)) ≡ ok (code_ok, b ∷ bs)
unfolding serve_blocks error_to_code
serve_blocks-IsReplica en id old b bs r small =
    let whole : old ++ (b ∷ bs) ≡ old ++ ((b ∷ bs) ++ []) =
      ap (λ t. old ++ t) (sym (append-nil (b ∷ bs))) in
    let h : Holds r.extent (old ++ ((b ∷ bs) ++ [])) = subst (Holds r.extent) whole r.holds in
    ground
      (arith, r.here, read_blocks-Holds r.extent old b bs [] (32 * 2 ^ 20) h small (omega arith))

took-left :
    (d : Delivery) (disk : Disk) (bs : List Block) → took d disk bs ≡ true → left d disk bs ≡ bs
took-left answered disk bs e = accepted_all disk 0 bs e
took-left not_handled disk bs e = ground arith
took-left not_answered disk bs e = ground arith

-- Three nodes have the extent, open and with the blocks `old`; the peers are healthy, three at
-- least; the length of each of the new blocks is that of its data, the new length fits 32 bits, the
-- new blocks 32 MB, and no device cuts a header short. If `Append` returns offsets, then these are
-- the blocks' places behind `old`, and each of the three nodes serves exactly the new blocks to a
-- `ReadBlocks` at the first of them.
pub serve_blocks-append :
    (env : Weather) (rs : Replicas) (id : ℕ) (old : List Block) (b : Block) (bs : List Block)
    (offsets : List ℕ)
    → IsReplica rs.primary id old
    → IsReplica rs.second id old
    → IsReplica rs.third id old
    → all_healthy env.healthy ≡ true
    → 3 ≤ length env.healthy
    → HeadersIntact env.disk_primary
    → HeadersIntact env.disk_second
    → HeadersIntact env.disk_third
    → All IsSized (b ∷ bs)
    → 512 + total old + total (b ∷ bs) < 2 ^ 32
    → total (b ∷ bs) ≤ 32 * 2 ^ 20
    → (append env id (b ∷ bs) rs).1 ≡ ok (some offsets)
    → (offsets ≡ offsets_from (512 + total old) (b ∷ bs))
      × (serve_blocks (append env id (b ∷ bs) rs).0.primary id (512 + total old) (length (b ∷ bs))
          ≡ ok (code_ok, b ∷ bs))
      × (serve_blocks (append env id (b ∷ bs) rs).0.second id (512 + total old) (length (b ∷ bs))
          ≡ ok (code_ok, b ∷ bs))
      × (serve_blocks (append env id (b ∷ bs) rs).0.third id (512 + total old) (length (b ∷ bs))
          ≡ ok (code_ok, b ∷ bs))
serve_blocks-append env rs id old b bs offsets hp hs ht healthy three ip is it sized fits small e =
    let (p, s, t, r) =
      append-IsReplica id old (b ∷ bs) sized fits env rs hp hs ht healthy three ip is it in
    let all_p : all_accepted env.disk_primary 0 (b ∷ bs) ≡ true = ground (arith, e, r) in
    let all_s : took env.to_second env.disk_second (b ∷ bs) ≡ true = ground (arith, e, r) in
    let all_t : took env.to_third env.disk_third (b ∷ bs) ≡ true = ground (arith, e, r) in
    let whole =
      λ (en : ExtentNode) (new : List Block) (h : IsReplica en id (old ++ new)) (q : new ≡ b ∷ bs).
        serve_blocks-IsReplica en id old b bs (subst (λ n. IsReplica en id (old ++ n)) q h) small in
    (
      ground (arith, e, r),
      whole _ _ p (accepted_all env.disk_primary 0 (b ∷ bs) all_p),
      whole _ _ s (took-left env.to_second env.disk_second (b ∷ bs) all_s),
      whole _ _ t (took-left env.to_third env.disk_third (b ∷ bs) all_t),
    )

-- Whatever extents an extent node has, its `Seal` changes nothing and does not succeed, and its
-- `CommitLength` does not return a length.
pub seal_extent-ne-ok :
    (en : ExtentNode) (id commit len : ℕ)
    → ((seal_extent en id commit).0 ≡ en)
      × ((seal_extent en id commit).1 ≢ ok tt)
      × (commit_length_of en id ≢ ok len)
unfolding seal_extent commit_length_of
seal_extent-ne-ok en id commit len = (ground arith, λ e. ground arith, λ e. ground arith)
