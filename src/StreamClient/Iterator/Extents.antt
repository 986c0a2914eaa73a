-- ===== src/StreamClient/Iterator/Extents.antt =====
-- What replayLog gets to see of an extent.
use mathlib.Core.Path.{subst}
use autumn.Prelude.{
  ℕ, zero, suc, ◌+◌, ◌≤◌, ◌≡◌, refl, sym, ap, ◌∙◌, inl, inr, Bool, true, false, Option, none, some,
  List, [], ◌∷◌, ◌++◌, arith, append_assoc, append-nil, length, length-append, get_elem?, All-split,
  if◌then◌else◌, ◌==◌,
}
use autumn.Prelude.Outcome.{Error, Outcome, ok}
use autumn.Extent.Block.{Block}
use autumn.Extent.File.{Extent, end_of}
use autumn.Extent.File.Layout.{total, total-append, Holds}
use autumn.Extent.Entries.{read_entries, max_entries_size}
use autumn.Extent.Entries.Reading.{read_all}
use autumn.Extent.Entries.Answers.{keeps_going, read_entries-IsAnswer}
use autumn.Log.{LogEntry, Codec}
use autumn.Log.Chunks.{Chunk, blocks_of, blocks_of-append}
use autumn.Node.{Code, code_ok, code_end_of_stream, code_end_of_extent, error_to_code}
use autumn.StreamClient.Iterator.{
  Network, known, attempts, max_retries, no_entries, receive_entries, replay_loop, take_response,
}
use autumn.StreamClient.Iterator.Steps.{
  at_extent, run, run-append, replay_loop-answered, receive_entries-answered,
}
use autumn.StreamClient.Iterator.Full.{
  IsFull, read_all-append, read_all-some, is_nil-false, shorter, answer-some,
}

unfoldable pub end_code : Bool → Code
end_code true = code_end_of_extent
end_code false = code_end_of_stream

pub error_to_code-end_of : (b : Bool) → error_to_code (some (end_of b)) ≡ ok (end_code b)
unfolding end_code error_to_code
error_to_code-end_of true = refl
error_to_code-end_of false = refl

module _ (C : Codec) where
  pub record IsServed (net : Network) (ex : Extent) : Type 0 where
    pub connected : net.connected ex.id ≡ true
    pub answered :
        (offset : ℕ) (es : List LogEntry) (end_offset : ℕ) (e : Option Error) (c : Code)
        → read_entries C ex offset max_entries_size true ≡ some (ok (es, end_offset, e))
        → error_to_code e ≡ ok c
        → attempts (λ n. net.node_read_entries n ex.id offset 1) max_retries 0
          ≡ some (record { code = known c; entries = es; end_offset = end_offset })

  module _ {S : Type 0} (replay_func : LogEntry → S → S × Outcome Bool) (effect : LogEntry → S → S)
      (goes_on_all : (e : LogEntry) (s : S) → replay_func e s ≡ (effect e s, ok true))
      (net : Network) (ids : List ℕ) where
    -- Where the iterator stands behind an extent: in front of the next, or at the end of the stream.
    unfoldable pub IsBehind : Bool → ℕ → ℕ → ℕ → Bool → Type 0
    IsBehind true i i' offset no_more =
        (i' ≡ suc i) × (offset ≡ 512) × (no_more ≡ (if suc i == length ids then true else false))
    IsBehind false i i' offset no_more = no_more ≡ true

    take_end :
        (sealed : Bool) (i offset : ℕ) (es : List LogEntry) (end_offset : ℕ)
        → no_entries es ≡ false
        → (i' offset' : ℕ) × (no_more : Bool) × (take_response ids
              (record { code = known (end_code sealed); entries = es; end_offset = end_offset })
              (at_extent i offset [] false)
            ≡ (at_extent i' offset' es no_more, ok tt))
          × IsBehind sealed i i' offset' no_more
    unfolding IsBehind end_code take_response
    take_end true i offset es end_offset full = (
      suc i,
      512,
      (if suc i == length ids then true else false),
      rw full refl,
      (refl, refl, refl),
    )
    take_end false i offset es end_offset full = (i, offset, true, rw full refl, refl)

    -- The last answer on an extent.
    last_answer :
        (ex : Extent) (i offset : ℕ) (es : List LogEntry) (end_offset : ℕ)
        → get_elem? ids i ≡ some ex.id
        → IsServed net ex
        → read_entries C ex offset max_entries_size true
          ≡ some (ok (es, end_offset, some (end_of ex.is_seal)))
        → no_entries es ≡ false
        → (i' offset' : ℕ) × (no_more : Bool) × (receive_entries net ids
              (at_extent i offset [] false)
            ≡ (at_extent i' offset' es no_more, ok tt))
          × IsBehind ex.is_seal i i' offset' no_more
    last_answer ex i offset es end_offset here served answer full =
        let (i', offset', no_more, took, behind) =
          take_end ex.is_seal i offset es end_offset full in
        let received =
          receive_entries-answered net ids i offset ex.id _ here served.connected
            (served.answered offset es end_offset _ _ answer (error_to_code-end_of ex.is_seal)) in
        (i', offset', no_more, received ∙ took, behind)

    -- An answer that another will follow.
    next_answer :
        (ex : Extent) (i offset : ℕ) (es : List LogEntry) (end_offset : ℕ)
        → get_elem? ids i ≡ some ex.id
        → IsServed net ex
        → read_entries C ex offset max_entries_size true ≡ some (ok (es, end_offset, none))
        → no_entries es ≡ false
        → receive_entries net ids (at_extent i offset [] false)
          ≡ (at_extent i end_offset es false, ok tt)
    unfolding take_response error_to_code
    next_answer ex i offset es end_offset here served answer full =
        receive_entries-answered net ids i offset ex.id _ here served.connected
          (served.answered offset es end_offset none code_ok answer refl)
        ∙ rw full refl

    unfoldable pub IsWent : ℕ → ℕ → ℕ → ℕ → Bool → ℕ → S → List LogEntry → Type 0
    IsWent i offset i' offset' no_more fuel s es =
        replay_loop replay_func (length es + fuel) net ids (at_extent i offset [] false) s
        ≡ replay_loop replay_func fuel net ids (at_extent i' offset' [] no_more)
            (run replay_func effect goes_on_all es s)

    IsWent-append :
        (i offset off at i' offset' : ℕ) (no_more : Bool) (fuel : ℕ) (es more : List LogEntry)
        (s : S)
        → no_entries es ≡ false
        → receive_entries net ids (at_extent i offset [] false) ≡ (at_extent i off es false, ok tt)
        → off ≡ at
        → IsWent i at i' offset' no_more fuel (run replay_func effect goes_on_all es s) more
        → IsWent i offset i' offset' no_more fuel s (es ++ more)
    unfolding IsWent
    IsWent-append i offset off at i' offset' no_more fuel es more s some_es received e went =
        let both : length (es ++ more) + fuel ≡ length es + (length more + fuel) =
          omega (arith, length-append es more) in
        ap (λ n. replay_loop replay_func n net ids (at_extent i offset [] false) s) both
        ∙ replay_loop-answered replay_func effect goes_on_all net ids es (length more + fuel) i
            offset i off false s some_es received
        ∙ ap
            (λ k.
              replay_loop replay_func (length more + fuel) net ids (at_extent i k [] false)
                (run replay_func effect goes_on_all es s))
            e
        ∙ went
        ∙ ap (replay_loop replay_func fuel net ids (at_extent i' offset' [] no_more))
            (sym (run-append replay_func effect goes_on_all es more s))

    -- From a place in an extent on, the loop gets the entries that follow in it.
    pub record IsWalked (ex : Extent) (i offset : ℕ) (cs : List (Chunk C)) (fuel : ℕ) (s : S)
        : Type 0 where
      pub i' : ℕ
      pub offset' : ℕ
      pub no_more : Bool
      pub went : IsWent i offset i' offset' no_more fuel s (read_all C ex.id offset cs)
      pub behind : IsBehind ex.is_seal i i' offset' no_more

    pub extent-IsWalked :
        (n : ℕ) (ex : Extent) (i : ℕ) (before : List Block) (c : Chunk C) (cs : List (Chunk C))
        (fuel : ℕ) (s : S)
        → length (c ∷ cs) ≤ n
        → get_elem? ids i ≡ some ex.id
        → IsServed net ex
        → Holds ex (before ++ blocks_of C (c ∷ cs))
        → IsFull C (c ∷ cs)
        → keeps_going C ex.id (512 + total before) max_entries_size 0 (c ∷ cs) ≡ true
        → IsWalked ex i (512 + total before) (c ∷ cs) fuel s
    unfolding IsWent
    extent-IsWalked zero ex i before c cs fuel s few here served holds full on =
        absurd (omega arith)
    extent-IsWalked (suc n) ex i before c cs fuel s few here served holds full on =
        let offset = 512 + total before in
        let (es, off, e, answer, a) =
          read_entries-IsAnswer C ex before c cs max_entries_size holds in
        let (full_now, full_later) = All-split _ a.now a.later (subst (IsFull C) a.split full) in
        let some_now = answer-some C ex offset max_entries_size c cs (es, off, e) a in
        let some_es : no_entries es ≡ false =
          ap no_entries a.entries ∙ read_all-some C ex.id offset a.now full_now some_now in
        elim a.stopped [
          | inl (gone, ended) ↦
              let whole : a.now ≡ c ∷ cs =
                sym (append-nil a.now) ∙ ap (λ t. a.now ++ t) (sym gone) ∙ sym a.split in
              let (i', offset', no_more, received, behind) =
                last_answer ex i offset es off here served
                  (answer ∙ ap (λ t. some (ok (es, off, t))) ended) some_es in
              record {
                i' = i';
                offset' = offset';
                no_more = no_more;
                went =
                    subst (IsWent i offset i' offset' no_more fuel s)
                      (a.entries ∙ ap (read_all C ex.id offset) whole)
                      (replay_loop-answered replay_func effect goes_on_all net ids es fuel i offset
                        i' offset' no_more s some_es received);
                behind = behind;
              }
          | inr (ended, over) ↦
              let (some_later, on') = a.next on ended in
              let (c', cs', later) = is_nil-false C a.later some_later in
              let before' = before ++ blocks_of C a.now in
              let at : off ≡ 512 + total before' =
                omega (arith, a.behind, total-append before (blocks_of C a.now)) in
              let split = a.split ∙ ap (λ t. a.now ++ t) later in
              let blocks : before ++ blocks_of C (c ∷ cs) ≡ before' ++ blocks_of C (c' ∷ cs') =
                ap (λ t. before ++ t) (ap (blocks_of C) split ∙ blocks_of-append C a.now (c' ∷ cs'))
                ∙ sym (append_assoc before (blocks_of C a.now) (blocks_of C (c' ∷ cs'))) in
              let r =
                extent-IsWalked n ex i before' c' cs' fuel (run replay_func effect goes_on_all es s)
                  (shorter C a.now c' cs' c cs n split some_now few) here served
                  (subst (Holds ex) blocks holds) (subst (IsFull C) later full_later)
                  (ap (λ t. keeps_going C ex.id t max_entries_size 0 (c' ∷ cs')) (sym at)
                    ∙ ap (keeps_going C ex.id off max_entries_size 0) (sym later)
                    ∙ on') in
              let received =
                next_answer ex i offset es off here served
                  (answer ∙ ap (λ t. some (ok (es, off, t))) ended) some_es in
              let more = read_all C ex.id (512 + total before') (c' ∷ cs') in
              record {
                i' = r.i';
                offset' = r.offset';
                no_more = r.no_more;
                went =
                    subst (IsWent i offset r.i' r.offset' r.no_more fuel s)
                      (ap (λ t. t ++ more) a.entries
                        ∙ ap (λ k. read_all C ex.id offset a.now ++ read_all C ex.id k (c' ∷ cs'))
                            (sym at ∙ a.behind)
                        ∙ sym (read_all-append C ex.id offset a.now (c' ∷ cs'))
                        ∙ ap (read_all C ex.id offset) (sym split))
                      (IsWent-append i offset off (512 + total before') r.i' r.offset' r.no_more
                        fuel es more s some_es received at r.went);
                behind = r.behind;
              }
        ]
