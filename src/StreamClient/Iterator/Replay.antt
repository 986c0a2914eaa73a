-- ===== src/StreamClient/Iterator/Replay.antt =====
-- What replayLog gets to see of a stream: each entry, in order, up to an extent without blocks.
use autumn.Prelude.{
  ℕ, suc, ◌+◌, ◌≤◌, ◌≡◌, sym, ap, ◌∙◌, Bool, true, false, ◌&&◌, some, List, [], ◌∷◌, ◌++◌, arith,
  append_assoc, length, length-append, if◌then◌else◌, ◌==◌,
}
use autumn.Prelude.Outcome.{Outcome, ok}
use autumn.Extent.Block.{Block}
use autumn.Extent.File.{Extent}
use autumn.Extent.File.Layout.{total, Holds}
use autumn.Extent.Entries.{max_entries_size}
use autumn.Extent.Entries.Reading.{read_all}
use autumn.Extent.Entries.Answers.{keeps_going}
use autumn.Log.{LogEntry, Codec}
use autumn.Log.Chunks.{Chunk, blocks_of}
use autumn.StreamClient.Iterator.{
  Network, new_log_entry_iter, get_extent_index_from_id, replay_loop, replay_log,
  with_read_from_start, with_replay, with_read_from, no_option,
}
use autumn.StreamClient.Iterator.Steps.{at_extent, run, replay_loop-ended}
use autumn.StreamClient.Iterator.Full.{IsFull}
use autumn.StreamClient.Iterator.Extents.{IsServed}
use autumn.StreamClient.Iterator.Moves.{
  zero_add, stop_at_empty, first_extent, second_id, behind_last, to_next, then_rest,
}

module _ (C : Codec) where
  -- An extent of a stream with the blocks that it holds, each with an entry.
  pub record Stored (net : Network) : Type 0 where
    pub extent : Extent
    pub chunk : Chunk C
    pub chunks : List (Chunk C)
    pub holds : Holds extent (blocks_of C (chunk ∷ chunks))
    pub full : IsFull C (chunk ∷ chunks)
    pub on : keeps_going C extent.id 512 max_entries_size 0 (chunk ∷ chunks) ≡ true
    pub served : IsServed C net extent

  module _ (net : Network) where
    abbrev pub ids_of : List (Stored net) → List ℕ
    ids_of [] = []
    ids_of (st ∷ sts) = st.extent.id ∷ ids_of sts

    abbrev pub read_stream : List (Stored net) → List LogEntry
    read_stream [] = []
    read_stream (st ∷ sts) = read_all C st.extent.id 512 (st.chunk ∷ st.chunks) ++ read_stream sts

    -- Extents behind one that is sealed or not: only the last of all is not sealed.
    abbrev pub IsChain : Bool → List (Stored net) → Type 0
    IsChain sealed [] = Unit
    IsChain sealed (st ∷ sts) = (sealed ≡ true) × IsChain st.extent.is_seal sts

    abbrev pub last_seal : Bool → List (Stored net) → Bool
    last_seal sealed [] = sealed
    last_seal sealed (st ∷ sts) = last_seal st.extent.is_seal sts

    -- What follows the extents: nothing, or behind a sealed one an extent without blocks and any
    -- others.
    abbrev pub IsTail : Bool → List ℕ → Type 0
    IsTail sealed [] = Unit
    IsTail sealed (x ∷ xs) =
        (sealed ≡ true)
        × ((ex : Extent) × (ex.id ≡ x) × (ex.commit_length ≤ 512) × IsServed C net ex)

    module _ {S : Type 0} (replay_func : LogEntry → S → S × Outcome Bool)
        (effect : LogEntry → S → S)
        (goes_on_all : (e : LogEntry) (s : S) → replay_func e s ≡ (effect e s, ok true))
        (ids : List ℕ) where
      replay_from :
          (sts : List (Stored net)) (tail front : List ℕ) (ex : Extent) (before : List Block)
          (c : Chunk C) (cs : List (Chunk C)) (fuel : ℕ) (s : S)
          → ids ≡ front ++ (ex.id ∷ (ids_of sts ++ tail))
          → IsServed C net ex
          → Holds ex (before ++ blocks_of C (c ∷ cs))
          → IsFull C (c ∷ cs)
          → keeps_going C ex.id (512 + total before) max_entries_size 0 (c ∷ cs) ≡ true
          → IsChain ex.is_seal sts
          → IsTail (last_seal ex.is_seal sts) tail
          → replay_loop replay_func
              (length (read_all C ex.id (512 + total before) (c ∷ cs) ++ read_stream sts)
                + suc fuel)
              net
              ids
              (at_extent (length front) (512 + total before) [] false)
              s
            ≡ some (
              run replay_func effect goes_on_all
                  (read_all C ex.id (512 + total before) (c ∷ cs) ++ read_stream sts)
                  s,
              ok tt,
            )
      replay_from [] [] front ex before c cs fuel s place served holds full on chain tail =
          let now : S =
            run replay_func effect goes_on_all (read_all C ex.id (512 + total before) (c ∷ cs)) s in
          let r =
            first_extent C net replay_func effect goes_on_all ids front [] ex before c cs
              (0 + suc fuel) s place served holds full on in
          let ended =
            behind_last C net replay_func effect goes_on_all ids ex.is_seal (length front) r.i'
              r.offset' r.no_more
              (omega (arith, ap (λ (t : List ℕ). length t) place, length-append front (ex.id ∷ [])))
              r.behind in
          then_rest C net replay_func effect goes_on_all ids (length front) (512 + total before)
            r.i' r.offset' r.no_more fuel s _ [] r.went
            (ap
                (λ b.
                  replay_loop replay_func (0 + suc fuel) net ids (at_extent r.i' r.offset' [] b)
                    now)
                ended
              ∙ ap (λ n. replay_loop replay_func n net ids (at_extent r.i' r.offset' [] true) now)
                  (zero_add (suc fuel))
              ∙ replay_loop-ended replay_func effect goes_on_all net ids fuel r.i' r.offset' _)
      replay_from [] (x ∷ xs) front ex before c cs fuel s place served holds full on chain
            (sealed, (next, same, short, served')) =
          let now : S =
            run replay_func effect goes_on_all (read_all C ex.id (512 + total before) (c ∷ cs)) s in
          let r =
            first_extent C net replay_func effect goes_on_all ids front (x ∷ xs) ex before c cs
              (0 + suc fuel) s place served holds full on in
          let moved =
            to_next C net replay_func effect goes_on_all ids ex.is_seal front ex.id x xs r.i'
              r.offset' r.no_more sealed place r.behind in
          then_rest C net replay_func effect goes_on_all ids (length front) (512 + total before)
            r.i' r.offset' r.no_more fuel s _ [] r.went
            (ap (λ it. replay_loop replay_func (0 + suc fuel) net ids it now) moved
              ∙ ap
                  (λ n.
                    replay_loop replay_func n net ids
                      (at_extent (length (front ++ (ex.id ∷ []))) 512 [] false) now)
                  (zero_add (suc fuel))
              ∙ stop_at_empty C net replay_func effect goes_on_all ids next
                  (length (front ++ (ex.id ∷ []))) fuel _
                  (second_id C net replay_func effect goes_on_all ids front ex.id x xs place
                    ∙ ap some (sym same))
                  served' short)
      replay_from (st ∷ sts) tail_ids front ex before c cs fuel s place served holds full on
            (sealed, chain) tail =
          let back = ids_of sts ++ tail_ids in
          let now : S =
            run replay_func effect goes_on_all (read_all C ex.id (512 + total before) (c ∷ cs)) s in
          let r =
            first_extent C net replay_func effect goes_on_all ids front (st.extent.id ∷ back) ex
              before c cs (length (read_stream (st ∷ sts)) + suc fuel) s place served holds full
              on in
          let moved =
            to_next C net replay_func effect goes_on_all ids ex.is_seal front ex.id st.extent.id
              back r.i' r.offset' r.no_more sealed place r.behind in
          then_rest C net replay_func effect goes_on_all ids (length front) (512 + total before)
            r.i' r.offset' r.no_more fuel s _ (read_stream (st ∷ sts)) r.went
            (ap
                (λ it.
                  replay_loop replay_func (length (read_stream (st ∷ sts)) + suc fuel) net ids it
                    now)
                moved
              ∙ replay_from sts tail_ids (front ++ (ex.id ∷ [])) st.extent [] st.chunk st.chunks
                  fuel _ (place ∙ sym (append_assoc front (ex.id ∷ []) (st.extent.id ∷ back)))
                  st.served st.holds st.full st.on chain tail)

      -- The replay function goes on at each entry and has the effect `effect`. Each of the extents
      -- of the stream holds blocks, each with an entry; the last only may be open; no answer passes
      -- the size limit exactly with the last block of an extent; and one of the seven attempts
      -- of a call gets what `ReadEntries` returns. Then replayLog, from the start, ends without an
      -- error and has run the function on each entry of the stream, in order: on a small one whole,
      -- on another without its value. Where behind a sealed extent an extent without blocks
      -- follows, all this holds of the extents in front of it, and it ends there.
      pub replay_log-read_stream :
          (st : Stored net) (sts : List (Stored net)) (tail : List ℕ) (fuel : ℕ) (s : S)
          → ids ≡ ids_of (st ∷ sts) ++ tail
          → IsChain st.extent.is_seal sts
          → IsTail (last_seal st.extent.is_seal sts) tail
          → replay_log replay_func (length (read_stream (st ∷ sts)) + suc fuel) net ids 0 0 true s
            ≡ some (run replay_func effect goes_on_all (read_stream (st ∷ sts)) s, ok tt)
      unfolding replay_log new_log_entry_iter
      replay_log-read_stream st sts tail fuel s place chain ends =
          replay_from sts tail [] st.extent [] st.chunk st.chunks fuel s place st.served st.holds
            st.full st.on chain ends

      -- The same from a place inside the stream, as after a flush: the block `c ∷ cs` of the extent
      -- `ex`, which holds the blocks `before` in front of it, where no earlier extent has the same ID.
      pub replay_log-from :
          (ex : Extent) (before : List Block) (c : Chunk C) (cs : List (Chunk C))
          (sts : List (Stored net)) (tail front : List ℕ) (fuel : ℕ) (s : S)
          → ids ≡ front ++ (ex.id ∷ (ids_of sts ++ tail))
          → get_extent_index_from_id ex.id ids ≡ some (length front)
          → IsServed C net ex
          → Holds ex (before ++ blocks_of C (c ∷ cs))
          → IsFull C (c ∷ cs)
          → keeps_going C ex.id (512 + total before) max_entries_size 0 (c ∷ cs) ≡ true
          → IsChain ex.is_seal sts
          → IsTail (last_seal ex.is_seal sts) tail
          → replay_log replay_func
              (length (read_all C ex.id (512 + total before) (c ∷ cs) ++ read_stream sts)
                + suc fuel)
              net
              ids
              ex.id
              (512 + total before)
              true
              s
            ≡ some (
              run replay_func effect goes_on_all
                  (read_all C ex.id (512 + total before) (c ∷ cs) ++ read_stream sts)
                  s,
              ok tt,
            )
      unfolding replay_log new_log_entry_iter
      replay_log-from ex before c cs sts tail front fuel s place index served holds full on chain
            ends =
          let n =
            length (read_all C ex.id (512 + total before) (c ∷ cs) ++ read_stream sts) + suc fuel in
          let later : (512 + total before == 0) ≡ false = ground arith in
          ap
            (λ (b : Bool).
              replay_loop replay_func n net ids
                (new_log_entry_iter ids (
                  if b && (ex.id == 0)
                  then with_read_from_start (with_replay no_option)
                  else with_read_from ex.id (512 + total before) (with_replay no_option)))
                s)
            later
          ∙ ap
              (λ i.
                replay_loop replay_func n net ids
                  (record {
                    current_offset = 512 + total before;
                    current_extent_index = i;
                    no_more = false;
                    cache = [];
                    replay = 1;
                  })
                  s)
              index
          ∙ replay_from sts tail front ex before c cs fuel s place served holds full on chain ends
