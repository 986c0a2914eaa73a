-- ===== src/StreamClient/Iterator/Moves.antt =====
-- Steps of a replay from one extent to the next.
use autumn.Prelude.{
  ℕ, suc, ◌+◌, ◌≤◌, ◌≡◌, refl, sym, ap, ◌∙◌, Bool, true, false, some, List, [], ◌∷◌, ◌++◌, arith,
  append_assoc, length, length-append, get_elem?,
}
use autumn.Prelude.Outcome.{Outcome, ok}
use autumn.Extent.Block.{Block}
use autumn.Extent.File.{Extent, end_of}
use autumn.Extent.File.Layout.{total, Holds}
use autumn.Extent.Entries.{read_entries, max_entries_size}
use autumn.Extent.Entries.Answers.{keeps_going}
use autumn.Log.{LogEntry, Codec}
use autumn.Log.Chunks.{Chunk, blocks_of}
use autumn.StreamClient.Iterator.{Network, known, take_response, replay_loop}
use autumn.StreamClient.Iterator.Steps.{
  at_extent, run, run-append, replay_loop-empty, receive_entries-answered,
}
use autumn.StreamClient.Iterator.Full.{IsFull}
use autumn.StreamClient.Iterator.Extents.{
  IsServed, IsBehind, IsWent, IsWalked, extent-IsWalked, end_code, error_to_code-end_of,
}

get_elem?-append :
    (front : List ℕ) (x : ℕ) (back : List ℕ)
    → get_elem? (front ++ (x ∷ back)) (length front) ≡ some x
get_elem?-append [] x back = refl
get_elem?-append (y ∷ front) x back = get_elem?-append front x back

pub zero_add : (n : ℕ) → 0 + n ≡ n
zero_add n = omega arith

module _ (C : Codec) (net : Network) where
  module _ {S : Type 0} (replay_func : LogEntry → S → S × Outcome Bool) (effect : LogEntry → S → S)
      (goes_on_all : (e : LogEntry) (s : S) → replay_func e s ≡ (effect e s, ok true))
      (ids : List ℕ) where
    take_empty :
        (sealed : Bool) (i : ℕ)
        → (i' offset' : ℕ) × (no_more : Bool) × (take_response ids
              (record { code = known (end_code sealed); entries = []; end_offset = 0 })
              (at_extent i 512 [] false)
            ≡ (at_extent i' offset' [] no_more, ok tt))
    unfolding end_code take_response
    take_empty true i = (suc i, 512, _, refl)
    take_empty false i = (i, 512, true, refl)

    -- The replay does not look behind an extent without blocks.
    pub stop_at_empty :
        (ex : Extent) (i fuel : ℕ) (s : S)
        → get_elem? ids i ≡ some ex.id
        → IsServed C net ex
        → ex.commit_length ≤ 512
        → replay_loop replay_func (suc fuel) net ids (at_extent i 512 [] false) s ≡ some (s, ok tt)
    stop_at_empty ex i fuel s here served short =
        let answer : read_entries C ex 512 max_entries_size true
            ≡ some (ok ([], 0, some (end_of ex.is_seal))) =
          unfold read_entries in ground (arith, short) in
        let (i', offset', no_more, took) = take_empty ex.is_seal i in
        replay_loop-empty replay_func effect goes_on_all net ids fuel i 512 i' offset' no_more s (
          receive_entries-answered net ids i 512 ex.id _ here served.connected
            (served.answered 512 [] 0 _ _ answer (error_to_code-end_of ex.is_seal))
          ∙ took)

    pub first_extent :
        (front back : List ℕ) (ex : Extent) (before : List Block) (c : Chunk C)
        (cs : List (Chunk C)) (fuel : ℕ) (s : S)
        → ids ≡ front ++ (ex.id ∷ back)
        → IsServed C net ex
        → Holds ex (before ++ blocks_of C (c ∷ cs))
        → IsFull C (c ∷ cs)
        → keeps_going C ex.id (512 + total before) max_entries_size 0 (c ∷ cs) ≡ true
        → IsWalked C replay_func effect goes_on_all net ids ex
            (length front)
            (512 + total before)
            (c ∷ cs)
            fuel
            s
    first_extent front back ex before c cs fuel s place served holds full on =
        extent-IsWalked C replay_func effect goes_on_all net ids (length (c ∷ cs)) ex (length front)
          before c cs fuel s (omega arith)
          (ap (λ t. get_elem? t (length front)) place ∙ get_elem?-append front ex.id back) served
          holds full on

    pub second_id :
        (front : List ℕ) (id x : ℕ) (xs : List ℕ)
        → ids ≡ front ++ (id ∷ x ∷ xs)
        → get_elem? ids (length (front ++ (id ∷ []))) ≡ some x
    second_id front id x xs place =
        ap (λ t. get_elem? t (length (front ++ (id ∷ []))))
          (place ∙ sym (append_assoc front (id ∷ []) (x ∷ xs)))
        ∙ get_elem?-append (front ++ (id ∷ [])) x xs

    pub behind_last :
        (sealed : Bool) (i i' offset' : ℕ) (no_more : Bool)
        → suc i ≡ length ids
        → IsBehind C replay_func effect goes_on_all net ids sealed i i' offset' no_more
        → no_more ≡ true
    unfolding IsBehind
    behind_last true i i' offset' no_more last (a, b, c) = ground (arith, last, c)
    behind_last false i i' offset' no_more last h = h

    -- In front of the next extent.
    pub to_next :
        (sealed : Bool) (front : List ℕ) (id x : ℕ) (xs : List ℕ) (i' offset' : ℕ) (no_more : Bool)
        → sealed ≡ true
        → ids ≡ front ++ (id ∷ x ∷ xs)
        → IsBehind C replay_func effect goes_on_all net ids sealed (length front) i' offset' no_more
        → at_extent i' offset' [] no_more ≡ at_extent (length (front ++ (id ∷ []))) 512 [] false
    unfolding IsBehind
    to_next false front id x xs i' offset' no_more h place b = absurd (cc)
    to_next true front id x xs i' offset' no_more h place (next, start, more) =
        let n = ap (λ (t : List ℕ). length t) place in
        let m = length-append front (id ∷ x ∷ xs) in
        let k = length-append front (id ∷ []) in
        let i_eq : i' ≡ length (front ++ (id ∷ [])) = omega (arith, next, k) in
        let nm : no_more ≡ false = ground (arith, more, n, m) in
        ap (λ t. at_extent t offset' [] no_more) i_eq
        ∙ ap (λ t. at_extent (length (front ++ (id ∷ []))) t [] no_more) start
        ∙ ap (at_extent (length (front ++ (id ∷ []))) 512 []) nm

    pub then_rest :
        (i offset i' offset' : ℕ) (no_more : Bool) (fuel : ℕ) (s : S) (es more : List LogEntry)
        → IsWent C replay_func effect goes_on_all net ids i offset i' offset' no_more
            (length more + suc fuel)
            s
            es
        → replay_loop replay_func
            (length more + suc fuel)
            net
            ids
            (at_extent i' offset' [] no_more)
            (run replay_func effect goes_on_all es s)
          ≡ some (
            run replay_func effect goes_on_all more (run replay_func effect goes_on_all es s),
            ok tt,
          )
        → replay_loop replay_func
            (length (es ++ more) + suc fuel)
            net
            ids
            (at_extent i offset [] false)
            s
          ≡ some (run replay_func effect goes_on_all (es ++ more) s, ok tt)
    unfolding IsWent
    then_rest i offset i' offset' no_more fuel s es more went rest =
        let both : length (es ++ more) + suc fuel ≡ length es + (length more + suc fuel) =
          omega (arith, length-append es more) in
        ap (λ n. replay_loop replay_func n net ids (at_extent i offset [] false) s) both
        ∙ went
        ∙ rest
        ∙ ap (λ t. some (t, ok tt)) (sym (run-append replay_func effect goes_on_all es more s))
