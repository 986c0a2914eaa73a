-- ===== src/RangePartition/GarbageCollection/Emptied.antt =====
-- What runGC writes for the entries that it moves.
use autumn.Prelude.{
  ℕ, ◌≡◌, refl, Bool, true, false, List, [], ◌∷◌, All, All-append, if◌then◌else◌, ◌==◌, ◌&&◌,
  length,
}
use mathlib.Core.Path.{subst}
use autumn.Prelude.Outcome.{Error, Outcome, ok, err, panic, failed, ◌>>=◌}
use autumn.Log.{LogEntry, Codec, should_write_value_to_lsm, entry_at, must}
use autumn.Extent.Block.{read_block}
use autumn.Extent.Entries.{info_then, infos_from, infos_of, read_block_entries}
use autumn.RangePartition.Values.{decode_pointer}
use autumn.RangePartition.Keys.{parse_key}
use autumn.RangePartition.Reader.{get_value_struct}
use autumn.RangePartition.Storage.{Skiplists, Tables, Logs}
use autumn.RangePartition.Partition.{RangePartition}
use autumn.RangePartition.GarbageCollection.{
  Collection, found_or_zero, outside, discard_entry, is_due, put_aside, moved_entry, send_batch,
  move_entry, move_if_here, collect_entry, collect_entries,
}

abbrev pub IsEmpty : LogEntry → Type 0
IsEmpty e = e.contents ≡ []

-- If the outcome is a value, that has the property.
ok_eq : {A : Type 0} {a b : A} → ok a ≡ ok b → a ≡ b
ok_eq e = cc

record Gives {A : Type 0} (P : A → Type 0) (o : Outcome A) : Type 0 where
  holds : (a : A) → o ≡ ok a → P a

Gives-ok : {A : Type 0} {P : A → Type 0} (a : A) → P a → Gives P (ok a)
Gives-ok {P = P} a h = record { holds = λ b e. subst P (ok_eq e) h }

Gives-err : {A : Type 0} {P : A → Type 0} (x : Error) → Gives P (err x)
Gives-err x = record { holds = λ b e. absurd (cc) }

Gives-panic : {A : Type 0} {P : A → Type 0} → Gives P panic
Gives-panic = record { holds = λ b e. absurd (cc) }

Gives-if :
    {A : Type 0} (P : A → Type 0) (b : Bool) (x y : Outcome A)
    → Gives P x
    → Gives P y
    → Gives P (if b then x else y)
Gives-if P true x y hx hy = hx
Gives-if P false x y hx hy = hy

Gives-bind :
    {A B : Type 0} (Q : A → Type 0) (P : B → Type 0) (o : Outcome A) (f : A → Outcome B)
    → Gives Q o
    → ((a : A) → Q a → Gives P (f a))
    → Gives P (o >>= f)
Gives-bind Q P (ok a) f h next = next a (Gives.holds h a refl)
Gives-bind Q P (err e) f h next = Gives-err e
Gives-bind Q P panic f h next = Gives-panic

anything : {A : Type 0} (o : Outcome A) → Gives (λ a. Unit {0}) o
anything o = record { holds = λ a e. tt }

module _ (C : Codec) where
  info_then-IsEmpty :
      (alone : Bool) (id offset len : ℕ) (e : LogEntry) (rest : Outcome (List LogEntry))
      → Gives (All IsEmpty) (info_then C false alone id offset len e rest)
  unfolding info_then
  info_then-IsEmpty alone id offset len e rest =
      Gives-if (All IsEmpty) (should_write_value_to_lsm e) _ _ (Gives-ok _ (refl, tt))
        (Gives-if (All IsEmpty) alone _ _ (Gives-ok _ (refl, tt)) Gives-panic)

  infos_of-IsEmpty :
      (id offset : ℕ) (bs os : List ℕ) → Gives (All IsEmpty) (infos_of C false id offset bs os)
  unfolding infos_from
  infos_of-IsEmpty id offset bs [] = Gives-ok [] tt
  infos_of-IsEmpty id offset bs (o ∷ []) = Gives-ok [] tt
  infos_of-IsEmpty id offset bs (o ∷ p ∷ os) =
      Gives-bind _ (All IsEmpty) (entry_at C bs o p) _ (anything (entry_at C bs o p))
        (λ e h. info_then-IsEmpty _ id offset (length bs) e _)

  -- A garbage collection gets no value from a block.
  read_block_entries-IsEmpty :
      (id offset : ℕ) (bs : List ℕ)
      → Gives (λ (r : List LogEntry × ℕ). All IsEmpty r.0) (read_block_entries C false id offset bs)
  unfolding read_block_entries
  read_block_entries-IsEmpty id offset bs =
      Gives-bind _ _ (read_block bs) _ (anything (read_block bs)) (λ r h.
        Gives-bind _ _ (must (C.unmarshal_offsets r.0.user_data)) _
          (anything (must (C.unmarshal_offsets r.0.user_data)))
          (λ os h'.
            Gives-bind (All IsEmpty) _ (infos_of C false id offset r.0.contents os) _
              (infos_of-IsEmpty id offset r.0.contents os) (λ es all. Gives-ok _ all)))

-- No entry to write, and none that was sent, has a value.
pub record IsEmptied (gc : Collection) : Type 0 where
  pub waiting : All IsEmpty gc.wb
  pub batches : All (All IsEmpty) gc.sent

module _ (K : Skiplists) (T : Tables K) (L : Logs) (now : ℕ) (start_key end_key : List ℕ)
    (rp : RangePartition K T L) where
  send_batch-IsEmptied : (gc : Collection) → IsEmptied gc → Gives IsEmptied (send_batch K T L gc rp)
  unfolding send_batch
  send_batch-IsEmptied gc h = Gives-if IsEmptied rp.block_writes _ _ (Gives-err failed) (
      Gives-ok _ (record {
        waiting = h.waiting;
        batches = All-append _ gc.sent (gc.wb ∷ []) h.batches (h.waiting, tt);
      }))

  move_entry-IsEmptied :
      (e : LogEntry) (gc : Collection)
      → IsEmpty e
      → IsEmptied gc
      → Gives IsEmptied (move_entry K T L e rp gc)
  unfolding move_entry
  move_entry-IsEmptied e gc empty h =
      Gives-bind IsEmptied IsEmptied (if is_due e gc then send_batch K T L gc rp else ok gc)
        (λ gc'. ok (put_aside e gc'))
        (Gives-if IsEmptied (is_due e gc) _ _ (send_batch-IsEmptied gc h) (Gives-ok gc h))
        (λ gc' h'. Gives-ok (put_aside e gc') (record {
          waiting = All-append _ gc'.wb (moved_entry e ∷ []) h'.waiting (empty, tt);
          batches = h'.batches;
        }))

  collect_entry-IsEmptied :
      (e : LogEntry) (gc : Collection)
      → IsEmpty e
      → IsEmptied gc
      → Gives IsEmptied (collect_entry K T L now start_key end_key rp e gc)
  unfolding collect_entry
  collect_entry-IsEmptied e gc empty h =
      let kept = Gives-ok gc h in
      let a = found_or_zero (get_value_struct K T L (parse_key e.key) 0 rp) in
      Gives-if IsEmptied (length e.key == 0 && length e.contents == 0) _ _ kept (
        Gives-if IsEmptied (outside start_key end_key (parse_key e.key)) _ _ kept (
          Gives-if IsEmptied (discard_entry now e a) _ _ kept (
            Gives-if IsEmptied (length a.vs.contents == 0) _ _ Gives-panic (
              Gives-bind (λ p. Unit {0}) IsEmptied (decode_pointer a.vs.contents)
                (move_if_here K T L e rp gc) (anything (decode_pointer a.vs.contents))
                (λ p u.
                  Gives-if IsEmptied (p.extent_id == e.extent_id && p.offset == e.offset) _ _
                    (move_entry-IsEmptied e gc empty h) kept)))))

  collect_entries-IsEmptied :
      (es : List LogEntry) (gc : Collection)
      → All IsEmpty es
      → IsEmptied gc
      → Gives IsEmptied (collect_entries K T L now start_key end_key rp es gc)
  unfolding collect_entries
  collect_entries-IsEmptied [] gc empty h = Gives-ok gc h
  collect_entries-IsEmptied (e ∷ es) gc (first, empty) h =
      Gives-bind IsEmptied IsEmptied _ _ (collect_entry-IsEmptied e gc first h)
        (λ gc' h'. collect_entries-IsEmptied es gc' empty h')

  -- On the bytes of any block that `readBlockEntries` accepts for a garbage collection, and any state of the partition: if
  -- runGC gets through its entries, then each entry that it has put aside to write, and each that
  -- it has sent to the write loop, has an empty value, if this was so before. It does not get the
  -- values that it is to move.
  pub collect_entries-read_block_entries :
      (C : Codec) (id offset len : ℕ) (bs : List ℕ) (es : List LogEntry) (gc gc' : Collection)
      → read_block_entries C false id offset bs ≡ ok (es, len)
      → IsEmptied gc
      → collect_entries K T L now start_key end_key rp es gc ≡ ok gc'
      → IsEmptied gc'
  collect_entries-read_block_entries C id offset len bs es gc gc' read h collected =
      let empty = Gives.holds (read_block_entries-IsEmpty C id offset bs) (es, len) read in
      Gives.holds (collect_entries-IsEmptied es gc empty h) gc' collected
