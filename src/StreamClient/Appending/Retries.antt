-- ===== src/StreamClient/Appending/Retries.antt =====
-- `Append` of a client, when nodes do not answer in time and extents cannot be allocated at once.
use autumn.Prelude.{
  ℕ, zero, suc, ◌≤◌, ◌≡◌, refl, sym, ap, ◌∙◌, Option, none, some, List, [], ◌∷◌, ◌++◌, append_assoc,
  append-nil, replicate, le→ltb,
}
use autumn.Prelude.Outcome.{ok}
use autumn.StreamClient.Appending.{
  Answer, answered, deadline, max_extent_size, last, must_alloc_new_extent, append,
}

-- A timeout, a number of calls of `StreamAllocExtent` that fail, and one that gives a new extent.
pub record Round : Type 0 where
  pub failures : ℕ
  pub new_id : ℕ

abbrev pub timeouts : List Round → List Answer → List Answer
timeouts [] answers = answers
timeouts (r ∷ rs) answers = deadline ∷ timeouts rs answers

abbrev pub allocations : List Round → List (Option ℕ) → List (Option ℕ)
allocations [] results = results
allocations (r ∷ rs) results = replicate r.failures none ++ (some r.new_id ∷ allocations rs results)

abbrev pub new_ids : List Round → List ℕ
new_ids [] = []
new_ids (r ∷ rs) = r.new_id ∷ new_ids rs

must_alloc_new_extent-failures :
    (n id : ℕ) (results : List (Option ℕ)) (ids : List ℕ)
    → must_alloc_new_extent (replicate n none ++ (some id ∷ results)) ids
      ≡ some (ids ++ (id ∷ []), results)
unfolding must_alloc_new_extent
must_alloc_new_extent-failures zero id results ids = refl
must_alloc_new_extent-failures (suc n) id results ids =
    must_alloc_new_extent-failures n id results ids

last-snoc : (xs : List ℕ) (x : ℕ) → last (xs ++ (x ∷ [])) ≡ some x
last-snoc [] x = refl
last-snoc (y ∷ []) x = refl
last-snoc (y ∷ z ∷ xs) x = last-snoc (z ∷ xs) x

-- After any number of timeouts, each followed by any number of failed allocations and a successful
-- one, an answer with offsets, of which the last is 2 GB at most, ends `Append`: it returns these
-- offsets and the extent that is then the stream's last, and the new extents are those of the stream.
pub append-timeouts :
    (rounds : List Round) (ids : List ℕ) (first id : ℕ) (offsets : List ℕ) (offset : ℕ)
    (answers : List Answer) (results : List (Option ℕ))
    → last ids ≡ some first
    → last (ids ++ new_ids rounds) ≡ some id
    → last offsets ≡ some offset
    → offset ≤ max_extent_size
    → append (timeouts rounds (answered offsets ∷ answers)) (allocations rounds results) ids
      ≡ some (ids ++ new_ids rounds, ok (id, offsets))
unfolding append
append-timeouts [] ids first id offsets offset answers results h l o small =
    let here : last ids ≡ some id = ap last (sym (append-nil ids)) ∙ l in
    rw (here, append)
      (rw (o, le→ltb max_extent_size offset small)
        (ap (λ t. some (t, ok (id, offsets))) (sym (append-nil ids))))
append-timeouts (r ∷ rs) ids first id offsets offset answers results h l o small =
    let grown = append_assoc ids (r.new_id ∷ []) (new_ids rs) in
    let rest =
      append-timeouts rs (ids ++ (r.new_id ∷ [])) r.new_id id offsets offset answers results
        (last-snoc ids r.new_id) (ap last grown ∙ l) o small in
    rw (h, append)
      (rw (must_alloc_new_extent-failures r.failures r.new_id (allocations rs results) ids, append)
        (rest ∙ ap (λ t. some (t, ok (id, offsets))) grown))
