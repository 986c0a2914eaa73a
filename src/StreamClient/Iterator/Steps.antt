-- ===== src/StreamClient/Iterator/Steps.antt =====
-- The loop of replayLog, one answer at a time.
use autumn.Prelude.{
  ℕ, suc, ◌+◌, ◌≡◌, refl, sym, ap, ◌∙◌, Bool, true, false, not, Option, some, List, [], ◌∷◌, ◌++◌,
  arith, length, get_elem?,
}
use autumn.Prelude.Outcome.{Outcome, ok, err, panic, ◌>>=◌}
use autumn.Log.{LogEntry}
use autumn.StreamClient.Iterator.{
  Network, Response, LogEntryIter, attempts, max_retries, no_entries, take_response,
  receive_entries, extent_at, has_next, next, after_has_next, replay_next, replay_loop,
}

-- An iterator for a replay, in the i-th extent.
abbrev pub at_extent : ℕ → ℕ → List LogEntry → Bool → LogEntryIter
at_extent i offset cache no_more = record {
  current_offset = offset;
  current_extent_index = some i;
  no_more = no_more;
  cache = cache;
  replay = 1;
}

module _ {S : Type 0} (replay_func : LogEntry → S → S × Outcome Bool) (effect : LogEntry → S → S)
    (goes_on : (e : LogEntry) (s : S) → replay_func e s ≡ (effect e s, ok true)) where
  -- The effect of entries in a row.
  abbrev pub run : List LogEntry → S → S
  run [] s = s
  run (e ∷ es) s = run es (effect e s)

  pub run-append : (xs ys : List LogEntry) (s : S) → run (xs ++ ys) s ≡ run ys (run xs s)
  run-append [] ys s = refl
  run-append (x ∷ xs) ys s = run-append xs ys (effect x s)

  module _ (net : Network) (ids : List ℕ) where
    -- What the loop does with the result of its body.
    abbrev go_on : ℕ → LogEntryIter × S × Outcome Bool → Option (S × Outcome (Unit {0}))
    go_on fuel r = elim r.2 [
      | ok true ↦ replay_loop replay_func fuel net ids r.0 r.1
      | ok false ↦ some (r.1, ok tt)
      | err e ↦ some (r.1, err e)
      | panic ↦ some (r.1, panic)
    ]

    replay_next-cons :
        (e : LogEntry) (es : List LogEntry) (i offset : ℕ) (no_more : Bool) (s : S)
        → replay_next replay_func net ids (at_extent i offset (e ∷ es) no_more) s
          ≡ (at_extent i offset es no_more, effect e s, ok true)
    unfolding replay_next has_next next
    replay_next-cons e es i offset no_more s =
        ap (λ (r : S × Outcome Bool). (at_extent i offset es no_more, r.0, r.1)) (goes_on e s)

    replay_loop-step :
        (fuel : ℕ) (it it' : LogEntryIter) (s s' : S)
        → replay_next replay_func net ids it s ≡ (it', s', ok true)
        → replay_loop replay_func (suc fuel) net ids it s
          ≡ replay_loop replay_func fuel net ids it' s'
    unfolding replay_loop
    replay_loop-step fuel it it' s s' h = ap (go_on fuel) h

    replay_loop-cons :
        (e : LogEntry) (es : List LogEntry) (fuel i offset : ℕ) (no_more : Bool) (s : S)
        → replay_loop replay_func (suc fuel) net ids (at_extent i offset (e ∷ es) no_more) s
          ≡ replay_loop replay_func fuel net ids (at_extent i offset es no_more) (effect e s)
    unfolding replay_loop
    replay_loop-cons e es fuel i offset no_more s =
        replay_loop-step fuel _ _ s _ (replay_next-cons e es i offset no_more s)

    replay_loop-cached :
        (es : List LogEntry) (fuel i offset : ℕ) (no_more : Bool) (s : S)
        → replay_loop replay_func (length es + fuel) net ids (at_extent i offset es no_more) s
          ≡ replay_loop replay_func fuel net ids (at_extent i offset [] no_more) (run es s)
    replay_loop-cached [] fuel i offset no_more s =
        ap (λ n. replay_loop replay_func n net ids (at_extent i offset [] no_more) s) (omega arith)
    replay_loop-cached (e ∷ es) fuel i offset no_more s =
        let more : length (e ∷ es) + fuel ≡ suc (length es + fuel) = omega arith in
        ap (λ n. replay_loop replay_func n net ids (at_extent i offset (e ∷ es) no_more) s) more
        ∙ replay_loop-cons e es (length es + fuel) i offset no_more s
        ∙ replay_loop-cached es fuel i offset no_more (effect e s)

    has_next-received :
        (cache : List LogEntry) (i offset i' offset' : ℕ) (no_more : Bool)
        → receive_entries net ids (at_extent i offset [] false)
          ≡ (at_extent i' offset' cache no_more, ok tt)
        → has_next net ids (at_extent i offset [] false)
          ≡ (at_extent i' offset' cache no_more, ok (not (no_entries cache)))
    unfolding has_next
    has_next-received cache i offset i' offset' no_more h =
        ap
          (λ (r : LogEntryIter × Outcome (Unit {0})).
            (r.0, r.1 >>= λ u. ok (not (no_entries r.0.cache))))
          h

    replay_next-received :
        (e : LogEntry) (es : List LogEntry) (i offset i' offset' : ℕ) (no_more : Bool) (s : S)
        → receive_entries net ids (at_extent i offset [] false)
          ≡ (at_extent i' offset' (e ∷ es) no_more, ok tt)
        → replay_next replay_func net ids (at_extent i offset [] false) s
          ≡ replay_next replay_func net ids (at_extent i' offset' (e ∷ es) no_more) s
    unfolding replay_next
    replay_next-received e es i offset i' offset' no_more s h =
        ap (λ r. after_has_next replay_func net ids r s)
          (has_next-received (e ∷ es) i offset i' offset' no_more h)
        ∙ unfold has_next in refl

    -- An answer with entries.
    replay_loop-received :
        (e : LogEntry) (es : List LogEntry) (fuel i offset i' offset' : ℕ) (no_more : Bool) (s : S)
        → receive_entries net ids (at_extent i offset [] false)
          ≡ (at_extent i' offset' (e ∷ es) no_more, ok tt)
        → replay_loop replay_func (suc fuel) net ids (at_extent i offset [] false) s
          ≡ replay_loop replay_func (suc fuel) net ids (at_extent i' offset' (e ∷ es) no_more) s
    unfolding replay_loop
    replay_loop-received e es fuel i offset i' offset' no_more s h =
        ap (go_on fuel) (replay_next-received e es i offset i' offset' no_more s h)

    pub replay_loop-answered :
        (es : List LogEntry) (fuel i offset i' offset' : ℕ) (no_more : Bool) (s : S)
        → no_entries es ≡ false
        → receive_entries net ids (at_extent i offset [] false)
          ≡ (at_extent i' offset' es no_more, ok tt)
        → replay_loop replay_func (length es + fuel) net ids (at_extent i offset [] false) s
          ≡ replay_loop replay_func fuel net ids (at_extent i' offset' [] no_more) (run es s)
    replay_loop-answered [] fuel i offset i' offset' no_more s some_entry h = absurd (cc)
    replay_loop-answered (e ∷ es) fuel i offset i' offset' no_more s some_entry h =
        let more : length (e ∷ es) + fuel ≡ suc (length es + fuel) = omega arith in
        ap (λ n. replay_loop replay_func n net ids (at_extent i offset [] false) s) more
        ∙ replay_loop-received e es (length es + fuel) i offset i' offset' no_more s h
        ∙ ap (λ n. replay_loop replay_func n net ids (at_extent i' offset' (e ∷ es) no_more) s)
            (sym more)
        ∙ replay_loop-cached (e ∷ es) fuel i' offset' no_more s

    -- Once the stream has ended, or after an answer without entries, the loop ends.
    pub replay_loop-ended :
        (fuel i offset : ℕ) (s : S)
        → replay_loop replay_func (suc fuel) net ids (at_extent i offset [] true) s
          ≡ some (s, ok tt)
    unfolding replay_loop replay_next has_next
    replay_loop-ended fuel i offset s = refl

    pub replay_loop-empty :
        (fuel i offset i' offset' : ℕ) (no_more : Bool) (s : S)
        → receive_entries net ids (at_extent i offset [] false)
          ≡ (at_extent i' offset' [] no_more, ok tt)
        → replay_loop replay_func (suc fuel) net ids (at_extent i offset [] false) s
          ≡ some (s, ok tt)
    unfolding replay_loop replay_next
    replay_loop-empty fuel i offset i' offset' no_more s h =
        ap (λ r. go_on fuel (after_has_next replay_func net ids r s))
          (has_next-received [] i offset i' offset' no_more h)

extent_at-connected :
    (net : Network) (ids : List ℕ) (i id : ℕ)
    → get_elem? ids i ≡ some id
    → net.connected id ≡ true
    → extent_at net ids (some i) ≡ ok id
unfolding extent_at
extent_at-connected net ids i id here connected = rw (here, extent_at) (rw connected refl)

-- An attempt that is answered.
pub receive_entries-answered :
    (net : Network) (ids : List ℕ) (i offset id : ℕ) (r : Response)
    → get_elem? ids i ≡ some id
    → net.connected id ≡ true
    → attempts (λ n. net.node_read_entries n id offset 1) max_retries 0 ≡ some r
    → receive_entries net ids (at_extent i offset [] false)
      ≡ take_response ids r (at_extent i offset [] false)
unfolding receive_entries
receive_entries-answered net ids i offset id r here connected answered =
    rw (extent_at-connected net ids i id here connected, receive_entries)
      (rw (answered, receive_entries) refl)
