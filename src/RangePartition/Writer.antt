-- ===== src/RangePartition/Writer.antt =====
-- rangepartition/range_rangepartition.go, `writeRequests`, `Write` and `Delete`, with writeValueLog of valuelog.go.
use autumn.Prelude.{
  ℕ, zero, suc, ◌==◌, Bool, true, false, ◌||◌, Option, none, some, List, [], ◌∷◌, if◌then◌else◌,
}
use autumn.Prelude.Outcome.{Outcome, ok, err, panic, eof, ◌>>=◌}
use autumn.RangePartition.Keys.{key_with_ts}
use autumn.RangePartition.Values.{ValuePointer, is_deleted, bit_delete}
use autumn.RangePartition.Versions.{Found}
use autumn.RangePartition.Storage.{Skiplists, Tables, Logs, LogEntry}
use autumn.RangePartition.Partition.{
  RangePartition, next_seq, ensure_room_for_write, write_to_lsm, with_mt, place, not_found,
  blocked_writes, log_error, WriteError,
}
use autumn.RangePartition.Flusher.{receive, flush_attempt}
use autumn.RangePartition.Reader.{get_value_struct}

module _ (K : Skiplists) (T : Tables K) (L : Logs) where
  -- The loop of `writeRequests`: between two polls the flusher makes an attempt and receives.
  unfoldable pub make_room :
      ℕ → List LogEntry → ValuePointer → RangePartition K T L → Outcome (RangePartition K T L)
  unfolding ensure_room_for_write flush_attempt receive
  make_room zero es head rp = err eof
  make_room (suc fuel) es head rp = ensure_room_for_write K T L es head rp >>= λ r. (elim r.0 [
    | true ↦ ok r.1
    | false ↦
        flush_attempt K T L fuel r.1 >>= λ flushed. make_room fuel es head (receive K T L flushed)
  ])

  -- `writeValueLog` on the entries of all requests, and what follows when it succeeds: the entries are
  -- written in the order of the requests.
  unfoldable pub after_log :
      ℕ
      → List LogEntry
      → RangePartition K T L
      → Outcome (List (Option (ℕ × ℕ)) × ValuePointer)
      → Outcome (Option WriteError × RangePartition K T L)
  unfolding place make_room write_to_lsm
  after_log fuel es rp (err e) = ok (some log_error, rp)
  after_log fuel es rp panic = panic
  after_log fuel es rp (ok (ats, head)) = make_room fuel (place es ats) rp.vhead rp >>= λ room. ok (
    none,
    record (with_mt K T L room (write_to_lsm K T L (place es ats) room.mt.skiplist)) {
      vhead = head;
    },
  )

  unfoldable pub write_requests :
      ℕ → List LogEntry → RangePartition K T L → Outcome (Option WriteError × RangePartition K T L)
  unfolding after_log
  write_requests fuel [] rp = ok (none, rp)
  write_requests fuel (e ∷ es) rp =
      let (log, written) = L.append_entries (e ∷ es) rp.log in
      after_log fuel (e ∷ es) (record rp { log = log }) written

  abbrev pub log_entry : List ℕ → ℕ → List ℕ → ℕ → LogEntry
  log_entry key seq value meta = record {
    key = key_with_ts key seq;
    contents = value;
    meta = meta;
    user_meta = 0;
    expires_at = 0;
    extent_id = 0;
    offset = 0;
    estimated_size = 0;
  }

  -- `sendToWriteCh` and the write loop, for a request that is written alone.
  unfoldable pub send :
      ℕ → LogEntry → RangePartition K T L → Outcome (Option WriteError × RangePartition K T L)
  unfolding write_requests
  send fuel e rp =
      if rp.block_writes then ok (some blocked_writes, rp) else write_requests fuel (e ∷ []) rp

  unfoldable pub write :
      ℕ
      → List ℕ
      → List ℕ
      → RangePartition K T L
      → Outcome (Option WriteError × RangePartition K T L)
  unfolding next_seq send
  write fuel key value rp =
      send fuel (log_entry key (next_seq K T L rp) value 0)
        (record rp { seq_number = next_seq K T L rp })

  abbrev pub is_missing : Option Found → Bool
  is_missing none = true
  is_missing (some a) = a.version == 0 || is_deleted a.vs.meta

  unfoldable pub delete :
      ℕ → List ℕ → RangePartition K T L → Outcome (Option WriteError × RangePartition K T L)
  unfolding get_value_struct next_seq send
  delete fuel key rp =
      if is_missing (get_value_struct K T L key 0 rp)
      then ok (some not_found, rp)
      else send fuel (log_entry key (next_seq K T L rp) [] bit_delete)
          (record rp { seq_number = next_seq K T L rp })
