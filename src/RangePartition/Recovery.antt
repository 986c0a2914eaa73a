-- ===== src/RangePartition/Recovery.antt =====
-- rangepartition/range_rangepartition.go: the start of `OpenRangePartition`, up to the write loop: the
-- tables are given as opened, and the log is replayed behind the last of them.
pub mod Contents
use autumn.Prelude.{
  ℕ, suc, ◌+◌, ◌%◌, ◌^◌, ◌≤◌, ◌<◌, ◌≡◌, refl, ap, ◌∙◌, Bool, true, false, Option, none, some, List,
  [], ◌∷◌, ◌++◌, arith, ltb, if◌then◌else◌, length,
}
use autumn.Prelude.Outcome.{Outcome, ok, err, panic, ◌>>=◌}
use autumn.Log.{LogEntry, Codec}
use autumn.RangePartition.Keys.{parse_ts}
use autumn.RangePartition.Values.{ValuePointer}
use autumn.RangePartition.Storage.{Skiplists, Tables, Logs}
use autumn.RangePartition.Partition.{
  RangePartition, next_seq, ensure_room_for_write, estimated_sum, max_skip_list, write_to_lsm,
  with_mt,
}
use autumn.RangePartition.Writer.{make_room}
use autumn.StreamClient.Iterator.{Network, replay_log}
use autumn.StreamClient.Iterator.Steps.{run}
use autumn.StreamClient.Iterator.Replay.{
  Stored, ids_of, read_stream, IsChain, IsTail, last_seal, replay_log-read_stream,
}

module _ (K : Skiplists) (T : Tables K) (L : Logs) where
  unfoldable pub bump_seq : LogEntry → RangePartition K T L → RangePartition K T L
  unfolding next_seq
  bump_seq e rp =
      if ltb rp.seq_number (parse_ts e.key)
      then record rp { seq_number = next_seq K T L rp }
      else rp

  -- The function that `OpenRangePartition` gives to replayLog, which goes on at every entry.
  unfoldable pub replay_entry : ℕ → LogEntry → RangePartition K T L → Outcome (RangePartition K T L)
  unfolding bump_seq make_room write_to_lsm
  replay_entry fuel e rp =
      make_room K T L fuel (e ∷ []) (record { extent_id = e.extent_id; offset = e.offset; len = 0 })
        (bump_seq e rp)
      >>= λ room. ok (with_mt K T L room (write_to_lsm K T L (e ∷ []) room.mt.skiplist))

  abbrev pub replay_func :
      ℕ → LogEntry → Outcome (RangePartition K T L) → Outcome (RangePartition K T L) × Outcome Bool
  replay_func fuel e s = (s >>= replay_entry fuel e, ok true)

  -- `table.LastSeq > seq`
  unfoldable pub last_table : List T.Table → ℕ → Option T.Table → ℕ × Option T.Table
  last_table [] seq best = (seq, best)
  last_table (t ∷ ts) seq best =
      if ltb seq (T.last_seq t)
      then last_table ts (T.last_seq t) (some t)
      else last_table ts seq best

  -- `VpExtentID` and `VpOffset`
  abbrev pub start_of : (T.Table → ValuePointer) → Option T.Table → ℕ × ℕ
  start_of vp none = (0, 0)
  start_of vp (some t) = let p = vp t in (p.extent_id, p.offset)

  abbrev pub opening : L.Log → List T.Table → ℕ → RangePartition K T L
  opening log tables seq = record {
    log = log;
    log_rotates = 0;
    block_writes = false;
    mt = record { id = 0; skiplist = K.new_skiplist };
    imm = [];
    in_flight = none;
    flush_chan = [];
    tables = tables;
    saved = tables;
    seq_number = seq;
    vhead = record { extent_id = 0; offset = 0; len = 0 };
    next_id = 1;
  }

  -- The error of replayLog is dropped: the partition is then what the replay has made of it.
  unfoldable pub open_range_partition :
      ℕ
      → ℕ
      → Network
      → List ℕ
      → (T.Table → ValuePointer)
      → L.Log
      → List T.Table
      → Option (Outcome (RangePartition K T L))
  open_range_partition fuel turns net ids vp log tables =
      let (seq, best) = last_table tables 0 none in
      let (extent_id, offset) = start_of vp best in
      elim (replay_log (replay_func fuel) turns net ids extent_id offset true
        (ok (opening log tables seq))) [
          | none ↦ none
          | some (s, ok u) ↦ some s
          | some (s, err e) ↦ some s
          | some (s, panic) ↦ some panic
        ]

  -- Where a partition has no tables and the extents of its log hold blocks, each with an entry, the
  -- last only may be open, no answer passes the size limit exactly with the last block of an
  -- extent, and one of the seven attempts of a call gets what `ReadEntries` returns,
  -- `OpenRangePartition` replays each entry of the log into a new partition, in order; it
  -- stops in front of an extent without blocks behind a sealed one.
  pub open_range_partition-read_stream :
      (C : Codec) (net : Network) (fuel turns : ℕ) (vp : T.Table → ValuePointer) (log : L.Log)
      (st : Stored C net) (sts : List (Stored C net)) (tail ids : List ℕ)
      → ids ≡ ids_of C net (st ∷ sts) ++ tail
      → IsChain C net st.extent.is_seal sts
      → IsTail C net (last_seal C net st.extent.is_seal sts) tail
      → open_range_partition fuel
          (length (read_stream C net (st ∷ sts)) + suc turns)
          net
          ids
          vp
          log
          []
        ≡ some (
            run
              (replay_func fuel)
              (λ e s. s >>= replay_entry fuel e)
              (λ e s. refl)
              (read_stream C net (st ∷ sts))
              (ok (opening log [] 0)))
  unfolding open_range_partition last_table
  open_range_partition-read_stream C net fuel turns vp log st sts tail ids place chain ends =
      rw
        (
          replay_log-read_stream C net (replay_func fuel) (λ e s. s >>= replay_entry fuel e)
              (λ e s. refl) ids st sts tail turns (ok (opening log [] 0)) place chain ends,
          open_range_partition,
        )
        refl

  -- An entry that the memtable has room for, with a version more than one above the partition's
  -- number: after its replay the next write gets a version that is not above the entry's.
  pub next_seq-replay_entry :
      (fuel : ℕ) (e : LogEntry) (rp : RangePartition K T L)
      → rp.log_rotates ≡ 0
      → K.mem_size rp.mt.skiplist + estimated_sum K T L (e ∷ []) < max_skip_list
      → rp.seq_number + 1 < parse_ts e.key
      → parse_ts e.key < 2 ^ 64
      → (rp' : RangePartition K T L) × (replay_entry (suc fuel) e rp ≡ ok rp')
        × (next_seq K T L rp' ≤ parse_ts e.key)
  unfolding replay_entry bump_seq next_seq
  next_seq-replay_entry fuel e rp no_rotation room gap small =
      let bumped : RangePartition K T L = record rp { seq_number = (rp.seq_number + 1) % 2 ^ 64 } in
      let bump : bump_seq e rp ≡ bumped = ground (arith, gap) in
      let made : make_room K T L (suc fuel) (e ∷ [])
            (record { extent_id = e.extent_id; offset = e.offset; len = 0 }) bumped
          ≡ ok bumped =
        unfold make_room ensure_room_for_write in ground (arith, no_rotation, room) in
      (
        with_mt K T L bumped (write_to_lsm K T L (e ∷ []) bumped.mt.skiplist),
        ap
              (λ r.
                make_room K T L (suc fuel) (e ∷ [])
                  (record { extent_id = e.extent_id; offset = e.offset; len = 0 }) r
                >>= λ room. ok (with_mt K T L room (write_to_lsm K T L (e ∷ []) room.mt.skiplist)))
              bump
            ∙ ap
                (λ o. o >>= λ room.
                  ok (with_mt K T L room (write_to_lsm K T L (e ∷ []) room.mt.skiplist)))
                made,
        omega (arith, gap, small),
      )
