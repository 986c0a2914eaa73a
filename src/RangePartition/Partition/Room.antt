-- ===== src/RangePartition/Partition/Room.antt =====
-- range_rangepartition.go, `ensureRoomForWrite` and the loop of `writeRequests` around it: how many polls it
-- takes until there is room.
use autumn.Prelude.{
  ℕ, suc, ◌+◌, ◌^◌, ◌≤◌, ◌<◌, ◌≡◌, ◌⊎◌, refl, ◌∙◌, Bool, true, false, not, ◌&&◌, Option, none, some,
  List, [], ◌∷◌, arith, length, leb, ltb, lt→ltb, le→ltb, le→leb, Bool-cases, inl, inr,
}
use autumn.Prelude.Outcome.{ok}
use autumn.RangePartition.Storage.{Skiplists, Tables, Logs, LogEntry}
use autumn.RangePartition.Values.{ValuePointer}
use autumn.RangePartition.Partition.{
  RangePartition, FlushTask, max_skip_list, flush_chan_capacity, rotate, next_seq,
  ensure_room_for_write, estimated_sum,
}
use autumn.RangePartition.Flusher.{receive, next_task, flush_attempt}
use autumn.RangePartition.Writer.{make_room}
use autumn.RangePartition.Reader.{get_mem_tables}
use autumn.RangePartition.Partition.Reads.{layers}
use autumn.RangePartition.Partition.Validity.{held, IsValid, IsRising-weaken, pending}
use autumn.RangePartition.Partition.Rotation.{rotate-IsValid, held-rotate}
use autumn.RangePartition.Partition.Flushing.{receive-IsValid, held-receive}
use autumn.RangePartition.Partition.Attempts.{IsBuilding, flush_attempt-IsDone}

le_or_lt : (a b : ℕ) → (a ≤ b) ⊎ (b < a)
le_or_lt a b = omega arith

free_lt : (a : Bool) (m n : ℕ) → (not a && ltb m n) ≡ true → m < n
free_lt true m n h = absurd (cc)
free_lt false m n h = ground arith

module _ (K : Skiplists) (T : Tables K) (L : Logs) where
  -- There is room for the entries in the memtable, or in one that is new.
  abbrev pub Fits : List LogEntry → RangePartition K T L → Type 0
  Fits es rp =
      (K.mem_size rp.mt.skiplist + estimated_sum K T L es < max_skip_list)
      ⊎ (rp.mt.skiplist ≡ K.new_skiplist)

  -- The errNoRoom branch only counts the sequence number up.
  bump-IsValid :
      (bound low : ℕ) (rp : RangePartition K T L)
      → rp.seq_number + 1 < 2 ^ 64
      → IsValid K T L bound low rp
      → IsValid K T L bound low (record rp { seq_number = next_seq K T L rp })
  unfolding next_seq
  bump-IsValid bound low rp small valid = record {
    bounded = omega (arith, valid.bounded);
    stamped = unfold held layers get_mem_tables in valid.stamped;
    layered = unfold layers get_mem_tables in valid.layered;
    imm_tasks = valid.imm_tasks;
    no_compaction = valid.no_compaction;
    flushed = valid.flushed;
    rising =
        IsRising-weaken K T L low rp.seq_number _ (pending K T L rp) (omega arith) valid.rising;
    capacity = valid.capacity;
  }

  -- What a partition is that has room for the entries, `polls` polls after `rp`.
  pub record IsReady (bound polls : ℕ) (es : List LogEntry) (rp after : RangePartition K T L)
      : Type 0 where
    pub low : ℕ
    pub valid : IsValid K T L bound low after
    pub same_held : held K T L after ≡ held K T L rp
    pub same_log : after.log ≡ rp.log
    pub keeps : rp.seq_number ≤ after.seq_number
    pub grows : after.seq_number ≤ rp.seq_number + polls
    pub fits : Fits es after

  abbrev HasRoom : ℕ → List LogEntry → ValuePointer → RangePartition K T L → Type 0
  HasRoom bound es head rp =
      (after : RangePartition K T L) × ((ensure_room_for_write K T L es head rp ≡ ok (true, after))
        × IsReady bound 1 es rp after)

  abbrev bumped : RangePartition K T L → RangePartition K T L
  bumped rp = record rp { seq_number = next_seq K T L rp }

  abbrev HasNoRoom : List LogEntry → ValuePointer → RangePartition K T L → Type 0
  HasNoRoom es head rp =
      (ensure_room_for_write K T L es head rp ≡ ok (false, bumped rp))
      × (flush_chan_capacity ≤ length rp.flush_chan)

  rotate-HasRoom :
      (bound low : ℕ) (es : List LogEntry) (head : ValuePointer) (rp : RangePartition K T L)
      → rp.seq_number + 1 < 2 ^ 64
      → length rp.flush_chan < flush_chan_capacity
      → IsValid K T L bound low rp
      → IsReady bound 1 es rp (rotate K T L head rp)
  rotate-HasRoom bound low es head rp small room valid = record {
    low = low;
    valid = rotate-IsValid K T L bound low head rp small room valid;
    same_held = held-rotate K T L head rp;
    same_log = unfold rotate in refl;
    keeps = unfold rotate next_seq in omega arith;
    grows = unfold rotate next_seq in omega arith;
    fits = inr (unfold rotate in refl);
  }

  ensure_room-cases :
      (bound low : ℕ) (es : List LogEntry) (head : ValuePointer) (rp : RangePartition K T L)
      → rp.seq_number + 1 < 2 ^ 64
      → estimated_sum K T L es ≤ max_skip_list
      → IsValid K T L bound low rp
      → HasRoom bound es head rp ⊎ HasNoRoom es head rp
  unfolding ensure_room_for_write
  ensure_room-cases bound low es head rp small sized valid =
      let n = estimated_sum K T L es in
      let asserted = le→leb n max_skip_list sized in
      elim (Bool-cases
        (not (leb 1 rp.log_rotates) && ltb (K.mem_size rp.mt.skiplist + n) max_skip_list)) [
          | inl free ↦ inl (
            rp,
            (
              simp (asserted, free) refl,
              record {
                low = low;
                valid = valid;
                same_held = refl;
                same_log = refl;
                keeps = omega arith;
                grows = omega arith;
                fits = inl (
                    free_lt (leb 1 rp.log_rotates) (K.mem_size rp.mt.skiplist + n) max_skip_list
                      free);
              },
            ),
          )
          | inr full ↦ elim (le_or_lt flush_chan_capacity (length rp.flush_chan)) [
            | inl le ↦ inr (
              simp (asserted, full, le→ltb (length rp.flush_chan) flush_chan_capacity le) refl,
              le,
            )
            | inr lt ↦ inl (
              rotate K T L head rp,
              (
                simp (asserted, full, lt→ltb (length rp.flush_chan) flush_chan_capacity lt) refl,
                rotate-HasRoom bound low es head rp small lt valid,
              ),
            )
          ]
        ]

  -- After an attempt and a receipt the channel has room, if tables can be built.
  abbrev Polled : ℕ → ℕ → RangePartition K T L → Type 0
  Polled bound attempt rp =
      (low : ℕ) × (flushed : RangePartition K T L) × ((flush_attempt K T L attempt rp ≡ ok flushed)
        × (IsValid K T L bound low (receive K T L flushed)
            × (length (receive K T L flushed).flush_chan < flush_chan_capacity)
            × (held K T L (receive K T L flushed) ≡ held K T L rp)
            × ((receive K T L flushed).seq_number ≡ rp.seq_number)
            × ((receive K T L flushed).log ≡ rp.log)))

  next_task-length :
      (f : Option (FlushTask K T L)) (fts : List (FlushTask K T L))
      → f ≡ none
      → length fts ≤ flush_chan_capacity
      → length (next_task K T L f fts).1 < flush_chan_capacity
  next_task-length (some ft) fts e h = absurd (cc)
  next_task-length none [] e h = omega arith
  next_task-length none (ft ∷ fts) e h = omega arith

  poll_flusher :
      (bound low attempt : ℕ) (rp : RangePartition K T L)
      → IsBuilding K T L
      → IsValid K T L bound low rp
      → Polled bound attempt rp
  poll_flusher bound low attempt rp building valid =
      let d = flush_attempt-IsDone K T L bound low attempt rp valid in
      (
        d.low,
        d.after,
        (
          d.result,
          (
            receive-IsValid K T L bound d.low d.after d.valid,
            (unfold receive in
                next_task-length d.after.in_flight d.after.flush_chan (d.idle building)
                  d.valid.capacity),
            held-receive K T L d.after ∙ d.same_held,
            (unfold receive in d.same_seq),
            (unfold receive in d.same_log),
          ),
        ),
      )

  later-IsReady :
      (bound polls polls' : ℕ) (es : List LogEntry) (rp between after : RangePartition K T L)
      → rp.seq_number ≤ between.seq_number
      → between.seq_number + polls ≤ rp.seq_number + polls'
      → held K T L between ≡ held K T L rp
      → between.log ≡ rp.log
      → IsReady bound polls es between after
      → IsReady bound polls' es rp after
  later-IsReady bound polls polls' es rp between after from h same log ready = record {
    low = ready.low;
    valid = ready.valid;
    same_held = ready.same_held ∙ same;
    same_log = ready.same_log ∙ log;
    keeps = omega (arith, ready.keeps);
    grows = omega (arith, ready.grows);
    fits = ready.fits;
  }

  -- Two polls are enough, if tables can be built.
  pub make_room-IsReady :
      (bound low fuel : ℕ) (es : List LogEntry) (head : ValuePointer) (rp : RangePartition K T L)
      → rp.seq_number + 2 < 2 ^ 64
      → estimated_sum K T L es ≤ max_skip_list
      → IsBuilding K T L
      → IsValid K T L bound low rp
      → (after : RangePartition K T L) × ((make_room K T L (suc (suc fuel)) es head rp ≡ ok after)
          × IsReady bound 2 es rp after)
  unfolding make_room
  make_room-IsReady bound low fuel es head rp small sized building valid =
      elim (ensure_room-cases bound low es head rp (omega arith) sized valid) [
        | inl (after, (result, ready)) ↦ (
          after,
          (
            simp result refl,
            later-IsReady bound 1 2 es rp rp after (omega arith) (omega arith) refl refl ready,
          ),
        )
        | inr (result, full) ↦
            let step : (next_seq K T L rp ≤ rp.seq_number + 1)
                × (rp.seq_number ≤ next_seq K T L rp) =
              unfold next_seq in (omega arith, omega arith) in
            let same : held K T L (bumped rp) ≡ held K T L rp =
              unfold held layers get_mem_tables in refl in
            let bumped_valid = bump-IsValid bound low rp (omega arith) valid in
            let (low', flushed, (flush, (valid', room, held', seq', log'))) =
              poll_flusher bound low (suc fuel) (bumped rp) building bumped_valid in
            elim (ensure_room-cases bound low' es head (receive K T L flushed)
              (omega (arith, seq', step.0)) sized valid') [
                | inl (after, (again, ready)) ↦ (
                  after,
                  (
                    simp (result, flush, again) refl,
                    later-IsReady bound 1 2 es rp (receive K T L flushed) after
                        (omega (arith, seq', step.1)) (omega (arith, seq', step.0)) (held' ∙ same)
                        log' ready,
                  ),
                )
                | inr (again, still_full) ↦ absurd (omega (arith, room, still_full))
              ]
      ]
