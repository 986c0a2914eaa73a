-- ===== src/RangePartition/Partition/Writes.antt =====
-- range_rangepartition.go, `writeToLSM` and `writeRequests`: entries of rising versions are put in front of
-- those that the partition holds.
use mathlib.Core.Path.{subst}
use autumn.Prelude.{
  Option, ℕ, suc, ◌+◌, ◌^◌, ◌%◌, ◌≤◌, ◌<◌, ◌≡◌, refl, sym, ap, ◌∙◌, none, List, [], ◌∷◌, ◌++◌,
  arith, All, All-split, length, inl, inr,
}
use autumn.Prelude.Outcome.{ok}
use autumn.RangePartition.Keys.{parse_ts}
use autumn.RangePartition.Storage.{Skiplists, Tables, Logs, LogEntry}
use autumn.RangePartition.Values.{ValuePointer, encoded_size, encode_pointer}
use autumn.RangePartition.Versions.{Entry, concat, IsStamped}
use autumn.RangePartition.Versions.Layers.{IsLayered, cons-IsLayered}
use autumn.RangePartition.Partition.{
  RangePartition, max_skip_list, estimated_sum, estimated_size_in_skl, write_to_lsm, lsm_value,
  with_mt, place,
}
use autumn.RangePartition.Writer.{after_log}
use autumn.RangePartition.Reader.{get_mem_tables, newest_first, sort_tables}
use autumn.RangePartition.Partition.Reads.{layers, mem_layers, table_layers}
use autumn.RangePartition.Partition.Validity.{held, IsValid}
use autumn.RangePartition.Partition.Attempts.{IsBuilding}
use autumn.RangePartition.Partition.Room.{Fits, make_room-IsReady}

-- The entry of a log entry, and the entries with those of a request in front, the last one first.
abbrev pub entry_of : LogEntry → Entry
entry_of e = record { key = e.key; vs = lsm_value e }

abbrev pub written : List LogEntry → List Entry → List Entry
written [] es = es
written (e ∷ les) es = written les (entry_of e ∷ es)

-- The versions rise, from above `bound` to `seq`, and the keys are shorter than 2^16 bytes.
abbrev pub IsAscending : ℕ → ℕ → List LogEntry → Type 0
IsAscending bound seq [] = Unit
IsAscending bound seq (e ∷ es) =
    (bound < parse_ts e.key)
    × (parse_ts e.key ≤ seq)
    × (length e.key < 2 ^ 16)
    × IsAscending (parse_ts e.key) seq es

abbrev pub last_stamp : ℕ → List LogEntry → ℕ
last_stamp bound [] = bound
last_stamp bound (e ∷ es) = last_stamp (parse_ts e.key) es

IsStamped-later :
    (bound later : ℕ) (es : List Entry)
    → bound ≤ later
    → All (IsStamped bound) es
    → All (IsStamped later) es
unfolding IsStamped
IsStamped-later bound later [] h hs = tt
IsStamped-later bound later (e ∷ es) h ((positive, below, short), hs) =
    ((positive, omega arith, short), IsStamped-later bound later es h hs)

module _ (K : Skiplists) (T : Tables K) (L : Logs) where
  abbrev put_in : LogEntry → RangePartition K T L → RangePartition K T L
  put_in e rp = with_mt K T L rp (K.put e.key (lsm_value e) rp.mt.skiplist)

  older : RangePartition K T L → List (List Entry)
  older rp =
      mem_layers K T L (newest_first K T L rp.imm)
      ++ table_layers K T L (sort_tables K T L rp.tables)

  layers-put_in :
      (e : LogEntry) (rp : RangePartition K T L)
      → layers K T L (put_in e rp) ≡ (entry_of e ∷ K.entries rp.mt.skiplist) ∷ older rp
  unfolding layers get_mem_tables older
  layers-put_in e rp = ap (λ es. es ∷ older rp) (K.entries-put e.key (lsm_value e) rp.mt.skiplist)

  put_in-IsValid :
      (bound low : ℕ) (e : LogEntry) (rp : RangePartition K T L)
      → bound < parse_ts e.key
      → parse_ts e.key ≤ rp.seq_number
      → length e.key < 2 ^ 16
      → IsValid K T L bound low rp
      → IsValid K T L (parse_ts e.key) low (put_in e rp)
        × (held K T L (put_in e rp) ≡ entry_of e ∷ held K T L rp)
  unfolding held layers get_mem_tables older
  put_in-IsValid bound low e rp late known short valid =
      let e' = layers-put_in e rp in
      (
        record {
          bounded = known;
          stamped =
              subst (λ ess. All (IsStamped (parse_ts e.key)) (concat ess)) (sym e')
                (
                  (unfold IsStamped in (omega arith, omega arith, short)),
                  IsStamped-later bound (parse_ts e.key) (held K T L rp) (omega arith)
                      valid.stamped,
                );
          layered = subst IsLayered (sym e') (
              cons-IsLayered bound (entry_of e) (K.entries rp.mt.skiplist) (older rp) late
                (All-split (IsStamped bound) (K.entries rp.mt.skiplist) (concat (older rp))
                  valid.stamped).1
                valid.layered);
          imm_tasks = valid.imm_tasks;
          no_compaction = valid.no_compaction;
          flushed = valid.flushed;
          rising = valid.rising;
          capacity = valid.capacity;
        },
        ap concat e',
      )

  -- `writeToLSM`, entry by entry.
  write_to_lsm-IsValid :
      (bound low : ℕ) (es : List LogEntry) (rp : RangePartition K T L)
      → IsAscending bound rp.seq_number es
      → IsValid K T L bound low rp
      → IsValid K T L
          (last_stamp bound es)
          low
          (with_mt K T L rp (write_to_lsm K T L es rp.mt.skiplist))
        × (held K T L (with_mt K T L rp (write_to_lsm K T L es rp.mt.skiplist))
            ≡ written es (held K T L rp))
  unfolding write_to_lsm
  write_to_lsm-IsValid bound low [] rp h valid = (valid, refl)
  write_to_lsm-IsValid bound low (e ∷ es) rp (late, known, short, rest) valid =
      let (valid', held') = put_in-IsValid bound low e rp late known short valid in
      let (valid'', held'') =
        write_to_lsm-IsValid (parse_ts e.key) low es (put_in e rp) rest valid' in
      (valid'', held'' ∙ ap (written es) held')

  length-encode_pointer : (p : ValuePointer) → length (encode_pointer p) ≡ 16
  unfolding encode_pointer
  length-encode_pointer p = refl

  -- What an entry takes of the arena is what `estimatedSizeInSkl` says, at most.
  pub node_size :
      (e : LogEntry)
      → length e.key + encoded_size (lsm_value e) + (K.max_node_size + 8)
        ≤ estimated_size_in_skl K T L e
  unfolding estimated_size_in_skl lsm_value encoded_size
  node_size e = ground (
    arith,
    length-encode_pointer
        (record { extent_id = e.extent_id; offset = e.offset; len = length e.contents % 2 ^ 32 }),
  )

  pub write_to_lsm-mem_size :
      (es : List LogEntry) (m : K.Skiplist)
      → K.mem_size (write_to_lsm K T L es m) ≤ K.mem_size m + estimated_sum K T L es
  unfolding write_to_lsm estimated_sum
  write_to_lsm-mem_size [] m = omega arith
  write_to_lsm-mem_size (e ∷ es) m = omega (
    arith,
    write_to_lsm-mem_size es (K.put e.key (lsm_value e) m),
    K.mem_size-put e.key (lsm_value e) m,
    node_size e,
  )

  -- The addresses do not count.
  pub estimated_sum-place :
      (es : List LogEntry) (ats : List (Option (ℕ × ℕ)))
      → estimated_sum K T L (place es ats) ≡ estimated_sum K T L es
  unfolding estimated_sum estimated_size_in_skl place
  estimated_sum-place [] ats = refl
  estimated_sum-place (e ∷ es) [] = refl
  estimated_sum-place (e ∷ es) (at ∷ ats) = omega (arith, estimated_sum-place es ats)

  IsAscending-place :
      (bound seq : ℕ) (es : List LogEntry) (ats : List (Option (ℕ × ℕ)))
      → IsAscending bound seq es
      → IsAscending bound seq (place es ats)
  unfolding place
  IsAscending-place bound seq [] ats h = tt
  IsAscending-place bound seq (e ∷ es) [] h = h
  IsAscending-place bound seq (e ∷ es) (at ∷ ats) (late, known, short, rest) =
      (late, known, short, IsAscending-place (parse_ts e.key) seq es ats rest)

  last_stamp-place :
      (bound : ℕ) (es : List LogEntry) (ats : List (Option (ℕ × ℕ)))
      → last_stamp bound (place es ats) ≡ last_stamp bound es
  unfolding place
  last_stamp-place bound [] ats = refl
  last_stamp-place bound (e ∷ es) [] = refl
  last_stamp-place bound (e ∷ es) (at ∷ ats) = last_stamp-place (parse_ts e.key) es ats

  IsAscending-later :
      (bound seq later : ℕ) (es : List LogEntry)
      → seq ≤ later
      → IsAscending bound seq es
      → IsAscending bound later es
  IsAscending-later bound seq later [] h hs = tt
  IsAscending-later bound seq later (e ∷ es) h (late, known, short, rest) =
      (late, omega arith, short, IsAscending-later (parse_ts e.key) seq later es h rest)

  with_vhead-IsValid :
      (bound low : ℕ) (head : ValuePointer) (rp : RangePartition K T L)
      → IsValid K T L bound low rp
      → IsValid K T L bound low (record rp { vhead = head })
        × (held K T L (record rp { vhead = head }) ≡ held K T L rp)
  unfolding held layers get_mem_tables
  with_vhead-IsValid bound low head rp valid = (
    record {
      bounded = valid.bounded;
      stamped = valid.stamped;
      layered = valid.layered;
      imm_tasks = valid.imm_tasks;
      no_compaction = valid.no_compaction;
      flushed = valid.flushed;
      rising = valid.rising;
      capacity = valid.capacity;
    },
    refl,
  )

  Fits-mem_size :
      (es : List LogEntry) (rp : RangePartition K T L)
      → K.mem_size K.new_skiplist + estimated_sum K T L es ≤ max_skip_list
      → Fits K T L es rp
      → K.mem_size (write_to_lsm K T L es rp.mt.skiplist) ≤ max_skip_list
  Fits-mem_size es rp h (inl free) = omega (arith, write_to_lsm-mem_size es rp.mt.skiplist)
  Fits-mem_size es rp h (inr fresh) =
      omega (arith, write_to_lsm-mem_size es rp.mt.skiplist, ap K.mem_size fresh)

  -- A partition after `es` were logged, as `log`, and written.
  pub record IsWritten (bound : ℕ) (es : List LogEntry) (log : L.Log)
      (rp after : RangePartition K T L) : Type 0 where
    pub low : ℕ
    pub valid : IsValid K T L (last_stamp bound es) low after
    pub holds : held K T L after ≡ written es (held K T L rp)
    pub same_log : after.log ≡ log
    pub grows : after.seq_number ≤ rp.seq_number + 2
    pub sized :
        K.mem_size K.new_skiplist + estimated_sum K T L es ≤ max_skip_list
        → K.mem_size after.mt.skiplist ≤ max_skip_list

  pub after_log-IsWritten :
      (bound low fuel : ℕ) (es : List LogEntry) (rp : RangePartition K T L)
      (ats : List (Option (ℕ × ℕ))) (head : ValuePointer)
      → rp.seq_number + 2 < 2 ^ 64
      → estimated_sum K T L es ≤ max_skip_list
      → IsAscending bound rp.seq_number es
      → IsBuilding K T L
      → IsValid K T L bound low rp
      → (after : RangePartition K T L) × ((after_log K T L (suc (suc fuel)) es rp (ok (ats, head))
            ≡ ok (none, after))
          × IsWritten bound (place es ats) rp.log rp after)
  unfolding after_log
  after_log-IsWritten bound low fuel es rp ats head small sized ascending building valid =
      let placed = place es ats in
      let sized' : estimated_sum K T L placed ≤ max_skip_list =
        omega (arith, estimated_sum-place es ats) in
      let (room, (result, ready)) =
        make_room-IsReady K T L bound low fuel placed rp.vhead rp small sized' building valid in
      let (valid', held') =
        write_to_lsm-IsValid bound ready.low placed room
          (IsAscending-later bound rp.seq_number room.seq_number placed ready.keeps
            (IsAscending-place bound rp.seq_number es ats ascending))
          ready.valid in
      let moved = with_mt K T L room (write_to_lsm K T L placed room.mt.skiplist) in
      let (valid'', held'') =
        with_vhead-IsValid (last_stamp bound placed) ready.low head moved valid' in
      (
        record (with_mt K T L room (write_to_lsm K T L placed room.mt.skiplist)) { vhead = head },
        (
          simp result refl,
          record {
            low = ready.low;
            valid = valid'';
            holds = held'' ∙ held' ∙ ap (written placed) ready.same_held;
            same_log = ready.same_log;
            grows = ready.grows;
            sized = λ h. Fits-mem_size placed room h ready.fits;
          },
        ),
      )
