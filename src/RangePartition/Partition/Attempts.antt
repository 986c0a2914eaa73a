-- ===== src/RangePartition/Partition/Attempts.antt =====
-- range_rangepartition.go, `flushMemtable`: an attempt at a task ends, and changes nothing that is held.
use mathlib.Core.Path.{subst}
use autumn.Prelude.{
  ℕ, ◌≡◌, ◌≢◌, refl, sym, ap, ◌∙◌, false, Option, none, some, List, [], ◌∷◌, ◌++◌, ==_refl,
  Bool-cases, Option-cases, inl, inr, if◌then◌else◌,
}
use autumn.Prelude.Outcome.{ok}
use autumn.RangePartition.Storage.{Skiplists, Tables, Logs}
use autumn.RangePartition.Partition.{RangePartition, Memtable, FlushTask}
use autumn.RangePartition.Flusher.{
  flush_attempt, attempt_task, settle, drop_imm, update_table_locs, handle_flush_task, add_table,
}
use autumn.RangePartition.Partition.Validity.{held, received, task_mts, IsValid}
use autumn.RangePartition.Partition.Flushing.{
  flushing, flushed_to, flushed_to-IsValid, flushed_empty-IsValid,
}

none-some {ℓ} : {A : Type ℓ} {a : A} → none ≢ some a
none-some = λ e. absurd (cc)

module _ (K : Skiplists) (T : Tables K) (L : Logs) where
  -- No attempt to write a table fails.
  abbrev pub IsBuilding : Type 0
  IsBuilding =
      (attempt : ℕ) (ft : FlushTask K T L)
      → (t : T.Table) × (T.build attempt ft.mt.skiplist ft.vptr ft.seq_num ≡ some t)

  -- An attempt ends without a failed assertion, and leaves a valid partition that holds the same.
  pub record IsDone (bound attempt : ℕ) (rp : RangePartition K T L) : Type 0 where
    pub low : ℕ
    pub after : RangePartition K T L
    pub result : flush_attempt K T L attempt rp ≡ ok after
    pub valid : IsValid K T L bound low after
    pub same_held : held K T L after ≡ held K T L rp
    pub same_seq : after.seq_number ≡ rp.seq_number
    pub same_log : after.log ≡ rp.log
    pub same_chan : after.flush_chan ≡ rp.flush_chan
    pub idle : IsBuilding → after.in_flight ≡ none

  settle-ok :
      (ft : FlushTask K T L) (ms : List (Memtable K T L)) (ts : List T.Table)
      (rp : RangePartition K T L)
      → ft.is_compact ≡ false
      → settle K T L ft
          (flushing K T L ft ms rp)
          (ok (record (flushing K T L ft ms rp) { tables = ts }))
        ≡ ok (flushed_to K T L ms ts rp)
  unfolding settle drop_imm update_table_locs
  settle-ok ft ms ts rp e = simp (e, ==_refl ft.mt.id) refl

  handle_flush_task-build :
      (attempt : ℕ) (ft : FlushTask K T L) (rp : RangePartition K T L) (o : Option T.Table)
      → K.is_empty ft.mt.skiplist ≡ false
      → T.build attempt ft.mt.skiplist ft.vptr ft.seq_num ≡ o
      → handle_flush_task K T L attempt ft rp ≡ add_table K T L rp o
  unfolding handle_flush_task
  handle_flush_task-build attempt ft rp o e built =
      (λ i. if e i then ok rp else add_table K T L rp (built i))

  flushing-IsDone :
      (bound low attempt : ℕ) (ft : FlushTask K T L) (ms : List (Memtable K T L))
      (rp : RangePartition K T L)
      → IsValid K T L bound low (flushing K T L ft ms rp)
      → (task_mts K T L rp.flush_chan ≡ ms)
      → IsDone bound attempt (flushing K T L ft ms rp)
  unfolding flush_attempt attempt_task settle
  flushing-IsDone bound low attempt ft ms rp valid tasks =
      let rp0 = flushing K T L ft ms rp in
      let settled = settle-ok ft ms in
      let ready = valid.no_compaction.0 in
      elim (Bool-cases (K.is_empty ft.mt.skiplist)) [
        | inl empty ↦
            let handled : handle_flush_task K T L attempt ft rp0 ≡ ok rp0 =
              unfold handle_flush_task in
              ap
                (λ b.
                  if b
                  then ok rp0
                  else add_table K T L rp0 (T.build attempt ft.mt.skiplist ft.vptr ft.seq_num))
                empty in
            let (valid', same) =
              flushed_empty-IsValid K T L bound low ft ms rp
                (K.is_empty-entries ft.mt.skiplist empty) valid tasks in
            record {
              low = ft.seq_num;
              after = flushed_to K T L ms rp.tables rp;
              result = ap (settle K T L ft rp0) handled ∙ settled rp.tables rp ready;
              valid = valid';
              same_held = same;
              same_seq = refl;
              same_log = refl;
              same_chan = refl;
              idle = λ building. refl;
            }
        | inr e ↦ elim (Option-cases (T.build attempt ft.mt.skiplist ft.vptr ft.seq_num)) [
          | inl none_built ↦ record {
            low = low;
            after = rp0;
            result =
                ap (settle K T L ft rp0) (handle_flush_task-build attempt ft rp0 none e none_built);
            valid = valid;
            same_held = refl;
            same_seq = refl;
            same_log = refl;
            same_chan = refl;
            idle = λ building. absurd (none-some (sym none_built ∙ (building attempt ft).1));
          }
          | inr (t, built) ↦
              let (same, seq) =
                T.contents-build attempt ft.mt.skiplist ft.vptr ft.seq_num t built in
              let (valid', held') =
                flushed_to-IsValid K T L bound low ft ms t rp same seq valid tasks in
              record {
                low = ft.seq_num;
                after = flushed_to K T L ms (rp.tables ++ (t ∷ [])) rp;
                result =
                    ap (settle K T L ft rp0)
                      (handle_flush_task-build attempt ft rp0 (some t) e built)
                    ∙ settled (rp.tables ++ (t ∷ [])) rp ready;
                valid = valid';
                same_held = held';
                same_seq = refl;
                same_log = refl;
                same_chan = refl;
                idle = λ building. refl;
              }
        ]
      ]

  -- An attempt of the flusher at a valid partition fails no assertion, leaves the partition valid, and
  -- with the same entries.
  pub flush_attempt-IsDone :
      (bound low attempt : ℕ) (rp : RangePartition K T L)
      → IsValid K T L bound low rp
      → IsDone bound attempt rp
  unfolding flush_attempt attempt_task
  flush_attempt-IsDone bound low attempt rp valid = elim (Option-cases rp.in_flight) [
    | inl idle ↦ record {
      low = low;
      after = rp;
      result = ap (λ f. attempt_task K T L attempt f rp) idle;
      valid = valid;
      same_held = refl;
      same_seq = refl;
      same_log = refl;
      same_chan = refl;
      idle = λ building. idle;
    }
    | inr (ft, busy) ↦
        let ms = task_mts K T L rp.flush_chan in
        let oldest : rp.imm ≡ ft.mt ∷ ms =
          sym valid.imm_tasks ∙ ap (λ f. task_mts K T L (received K T L f ++ rp.flush_chan)) busy in
        let same : flushing K T L ft ms rp ≡ rp =
          sym (λ i. record rp { in_flight = busy i; imm = oldest i }) in
        subst (IsDone bound attempt) same (
          flushing-IsDone bound low attempt ft ms rp
            (subst (IsValid K T L bound low) (sym same) valid) refl)
  ]
