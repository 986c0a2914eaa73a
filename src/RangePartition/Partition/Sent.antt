-- ===== src/RangePartition/Partition/Sent.antt =====
-- range_rangepartition.go: what a partition holds after one entry was sent, and what reads of its key
-- and of other keys find.
use mathlib.Core.Path.{subst}
use autumn.Prelude.{
  ℕ, suc, ◌+◌, ◌^◌, ◌%◌, ◌≤◌, ◌<◌, ◌≡◌, refl, sym, ap, ◌∙◌, false, ◌&&◌, Option, none, some, List,
  [], ◌∷◌, arith, append-nil, All, length, leb, ◌==◌, Bool-cases, inl, inr, if◌then◌else◌,
}
use autumn.Prelude.Outcome.{Outcome, ok, ◌>>=◌}
use autumn.Extent.Header.{bytes_equal}
use autumn.RangePartition.Keys.{
  length-key_with_ts, key_with_ts, parse_ts, same_key-key_with_ts, parse_ts-key_with_ts,
}
use autumn.RangePartition.Storage.{Skiplists, Tables, Logs, LogEntry}
use autumn.RangePartition.Values.{ValuePointer, bit_delete, decode_pointer, encode_pointer}
use autumn.RangePartition.Values.Codec.{decode_pointer-encode_pointer}
use autumn.RangePartition.Versions.{concat, later, visible, latest, IsStamped}
use autumn.RangePartition.Versions.Readable.{latest-readable, latest-front}
use autumn.RangePartition.Partition.{
  extent_or, offset_or, RangePartition, max_skip_list, estimated_sum, place, lsm_value,
  should_write_value_to_lsm, next_seq, blocked_writes,
}
use autumn.RangePartition.Writer.{write_requests, after_log, log_entry, send}
use autumn.RangePartition.Reader.{get_mem_tables, get_value_struct, read_version, value_of}
use autumn.RangePartition.Partition.Reads.{layers, get_value_struct-latest}
use autumn.RangePartition.Partition.Validity.{held, pending, IsRising-weaken, IsValid}
use autumn.RangePartition.Partition.Attempts.{IsBuilding}
use autumn.RangePartition.Partition.Writes.{entry_of, after_log-IsWritten}

module _ (K : Skiplists) (T : Tables K) (L : Logs) where
  -- The log and a later sequence number.
  abbrev restated : L.Log → ℕ → RangePartition K T L → RangePartition K T L
  restated log seq rp = record rp { log = log; seq_number = seq }

  restated-IsValid :
      (bound low seq : ℕ) (log : L.Log) (rp : RangePartition K T L)
      → rp.seq_number ≤ seq
      → IsValid K T L bound low rp
      → IsValid K T L bound low (restated log seq rp)
        × (held K T L (restated log seq rp) ≡ held K T L rp)
  unfolding held layers get_mem_tables
  restated-IsValid bound low seq log rp h valid = (
    record {
      bounded = omega (arith, valid.bounded);
      stamped = valid.stamped;
      layered = valid.layered;
      imm_tasks = valid.imm_tasks;
      no_compaction = valid.no_compaction;
      flushed = valid.flushed;
      rising = IsRising-weaken K T L low rp.seq_number seq (pending K T L rp) h valid.rising;
      capacity = valid.capacity;
    },
    refl,
  )

  -- A partition after one entry was sent, as the log holds it.
  abbrev pub IsSent : ℕ → LogEntry → L.Log → RangePartition K T L → RangePartition K T L → Type 0
  IsSent ts e log rp after =
      ((low : ℕ) × IsValid K T L ts low after)
      × ((held K T L after ≡ entry_of e ∷ held K T L rp)
          × ((after.log ≡ log) × (after.seq_number ≤ rp.seq_number + 3)))

  -- Behind a stamped entry, `send` logs it and puts it in front.
  pub send-IsSent :
      (bound low fuel : ℕ) (key value : List ℕ) (meta : ℕ) (log : L.Log) (at : Option (ℕ × ℕ))
      (head : ValuePointer) (rp : RangePartition K T L)
      → 0 < length key
      → length key + 8 < 2 ^ 16
      → rp.seq_number + 3 < 2 ^ 64
      → rp.block_writes ≡ false
      → estimated_sum K T L (log_entry K T L key (next_seq K T L rp) value meta ∷ [])
        ≤ max_skip_list
      → L.append_entries (log_entry K T L key (next_seq K T L rp) value meta ∷ []) rp.log
        ≡ (log, ok (at ∷ [], head))
      → IsBuilding K T L
      → IsValid K T L bound low rp
      → (after : RangePartition K T L) × ((send K T L
              (suc (suc fuel))
              (log_entry K T L key (next_seq K T L rp) value meta)
              (record rp { seq_number = next_seq K T L rp })
            ≡ ok (none, after))
          × IsSent
              (rp.seq_number + 1)
              (record (log_entry K T L key (next_seq K T L rp) value meta) {
                extent_id = extent_or at 0;
                offset = offset_or at 0;
              })
              log
              rp
              after)
  unfolding send write_requests place
  send-IsSent bound low fuel key value meta log at head rp nonempty short small unblocked sized
        logged building valid =
      let n : next_seq K T L rp ≡ rp.seq_number + 1 = unfold next_seq in omega arith in
      let e = log_entry K T L key (next_seq K T L rp) value meta in
      let own : parse_ts e.key ≡ rp.seq_number + 1 =
        parse_ts-key_with_ts key (next_seq K T L rp) nonempty (omega (arith, n)) ∙ n in
      let bumped = record rp { seq_number = next_seq K T L rp } in
      let start = restated log (next_seq K T L rp) rp in
      let (valid', held') =
        restated-IsValid bound low (next_seq K T L rp) log rp (omega (arith, n)) valid in
      let (after, (result, w)) =
        after_log-IsWritten K T L bound low fuel (e ∷ []) start (at ∷ []) head (omega (arith, n))
          sized
          (
            omega (arith, own, valid.bounded),
            omega (arith, own, n),
            omega (arith, length-key_with_ts key (next_seq K T L rp)),
            tt,
          )
          building valid' in
      (
        after,
        (
          ap
                (λ b.
                  if b
                  then ok (some blocked_writes, bumped)
                  else write_requests K T L (suc (suc fuel)) (e ∷ []) bumped)
                unblocked
              ∙ ap
                  (λ w. after_log K T L (suc (suc fuel)) (e ∷ []) (record bumped { log = w.0 }) w.1)
                  logged
              ∙ result,
          (
            (w.low, subst (λ b. IsValid K T L b w.low after) own w.valid),
            (
              w.holds
                  ∙ ap
                      (λ es.
                        entry_of (record e { extent_id = extent_or at 0; offset = offset_or at 0 })
                        ∷ es)
                      held',
              (w.same_log, omega (arith, w.grows, n)),
            ),
          ),
        ),
      )

  -- What `Get` makes of the entry of a `Write`: a value of up to 1024 bytes is in the memtable, any
  -- other is read from the log.
  abbrev pub stored : L.Log → List ℕ → ℕ → ℕ → Outcome (Option (List ℕ))
  stored log value x o =
      if leb (length value) 1024
      then ok (some value)
      else L.block_value x o log >>= λ v. ok (some v)

  pub value_of-lsm_value :
      (log : L.Log) (ts x o : ℕ) (key value : List ℕ)
      → 0 < ts
      → x < 2 ^ 64
      → o < 2 ^ 32
      → value_of K T L log (
          some (record {
            version = ts;
            vs = lsm_value (record (log_entry K T L key ts value 0) { extent_id = x; offset = o });
          }))
        ≡ stored log value x o
  unfolding value_of lsm_value should_write_value_to_lsm
  value_of-lsm_value log ts x o key value positive hx ho =
      let p : ValuePointer = record { extent_id = x; offset = o; len = length value % 2 ^ 32 } in
      let decoded : decode_pointer (encode_pointer p) ≡ ok p =
        ap decode_pointer (sym (append-nil (encode_pointer p)))
        ∙ decode_pointer-encode_pointer p [] hx ho (omega arith) in
      let later_version : (ts == 0) ≡ false = ground arith in
      elim (Bool-cases (leb (length value) 1024)) [
        | inl small ↦ simp (later_version, small) refl
        | inr big ↦ simp (later_version, big, decoded) refl
      ]

  pub value_of-deleted :
      (log : L.Log) (ts x o : ℕ) (key : List ℕ)
      → 0 < ts
      → value_of K T L log (
          some (record {
            version = ts;
            vs = lsm_value (record {
              key = key;
              contents = [];
              meta = bit_delete;
              user_meta = 0;
              expires_at = 0;
              extent_id = x;
              offset = o;
              estimated_size = 0;
            });
          }))
        ≡ ok none
  unfolding value_of lsm_value should_write_value_to_lsm
  value_of-deleted log ts x o key positive =
      let later_version : (ts == 0) ≡ false = ground arith in simp later_version refl

  pub found_after :
      (ts low seq : ℕ) (key : List ℕ) (e : LogEntry) (log : L.Log) (bound : ℕ)
      (rp after : RangePartition K T L)
      → 0 < length key
      → e.key ≡ key_with_ts key ts
      → bound < ts
      → after.seq_number < 2 ^ 64
      → All (IsStamped bound) (held K T L rp)
      → IsSent ts e log rp after
      → get_value_struct K T L key 0 after ≡ some (record { version = ts; vs = lsm_value e })
  unfolding read_version
  found_after ts low seq key e log bound rp after nonempty named late small stamped
        ((low', valid), (holds, rest)) =
      let all : concat (layers K T L after) ≡ entry_of e ∷ held K T L rp = unfold held in holds in
      get_value_struct-latest K T L ts key 0 after (unfold held in valid.stamped) valid.layered
      ∙ ap (latest (key_with_ts key after.seq_number)) all
      ∙ ap
          (λ k.
            latest (key_with_ts key after.seq_number)
              (record { key = k; vs = lsm_value e } ∷ held K T L rp))
          named
      ∙ latest-front key bound ts after.seq_number (lsm_value e) (held K T L rp) nonempty late
          valid.bounded small stamped

  -- What another key's read finds is not changed: neither the version nor the value.
  pub other_found :
      (ts : ℕ) (key other : List ℕ) (e : LogEntry) (log : L.Log) (bound low : ℕ)
      (rp after : RangePartition K T L)
      → 0 < length other
      → e.key ≡ key_with_ts key ts
      → (length other == length key && bytes_equal other key) ≡ false
      → rp.seq_number < 2 ^ 64
      → after.seq_number < 2 ^ 64
      → rp.seq_number ≤ after.seq_number
      → IsValid K T L bound low rp
      → IsSent ts e log rp after
      → get_value_struct K T L other 0 after ≡ get_value_struct K T L other 0 rp
  unfolding read_version
  other_found ts key other e log bound low rp after nonempty named differ small small' grown valid
        ((low', valid'), (holds, rest)) =
      let q = key_with_ts other after.seq_number in
      let all : concat (layers K T L after) ≡ entry_of e ∷ held K T L rp = unfold held in holds in
      let unseen : latest q (record { key = key_with_ts key ts; vs = lsm_value e } ∷ held K T L rp)
          ≡ latest q (held K T L rp) =
        unfold latest visible in
        ap
          (λ b.
            later
              (if b && leb (parse_ts (key_with_ts key ts)) (parse_ts q)
                then some (record { version = parse_ts (key_with_ts key ts); vs = lsm_value e })
                else none)
              (latest q (held K T L rp)))
          (same_key-key_with_ts other key after.seq_number ts ∙ differ) in
      get_value_struct-latest K T L ts other 0 after (unfold held in valid'.stamped) valid'.layered
      ∙ ap (latest q) all
      ∙ ap (λ k. latest q (record { key = k; vs = lsm_value e } ∷ held K T L rp)) named
      ∙ unseen
      ∙ latest-readable other bound after.seq_number rp.seq_number (held K T L rp) nonempty
          (omega (arith, valid.bounded)) valid.bounded small' small valid.stamped
      ∙ unfold held in
        sym (
          get_value_struct-latest K T L bound other 0 rp (unfold held in valid.stamped)
            valid.layered)

  pub same_reads :
      (bound low low' : ℕ) (rp after : RangePartition K T L)
      → held K T L after ≡ held K T L rp
      → after.seq_number ≡ rp.seq_number
      → IsValid K T L bound low rp
      → IsValid K T L bound low' after
      → (key : List ℕ) (version : ℕ)
      → get_value_struct K T L key version after ≡ get_value_struct K T L key version rp
  unfolding held read_version
  same_reads bound low low' rp after same seq valid valid' key version =
      get_value_struct-latest K T L bound key version after valid'.stamped valid'.layered
      ∙ (λ i. latest (key_with_ts key (if version == 0 then seq i else version)) (same i))
      ∙ sym (get_value_struct-latest K T L bound key version rp valid.stamped valid.layered)
