-- ===== src/RangePartition/Compaction/Kept.antt =====
-- rangepartition/compaction.go and range_rangepartition.go: which entries a compaction keeps, and which
-- keys `Range` returns.
use autumn.Prelude.{
  ℕ, zero, suc, ◌+◌, ◌^◌, ◌<◌, ◌≡◌, refl, sym, ap, ◌∙◌, Bool, true, false, ◌&&◌, ◌||◌, List, [],
  ◌∷◌, ◌++◌, arith, append_assoc, append-nil, if◌then◌else◌, length, length-append, take, ltb, leb,
  Bool-cases, inl, inr,
}
use autumn.Extent.Header.{bytes_equal}
use autumn.RangePartition.Values.{is_deleted_or_expired}
use autumn.RangePartition.Keys.{same_key, parse_key}
use autumn.RangePartition.Versions.{Entry}
use autumn.RangePartition.Storage.{Skiplists}
use autumn.RangePartition.Compaction.{
  is_skipped, next_skip, is_dead, goes_on, has_prefix, range_loop, range,
}

-- The entries that the loops take, in the code's terms.
unfoldable selected : ℕ → Bool → List ℕ → List Entry → List Entry
selected now major skip_key [] = []
selected now major skip_key (e ∷ es) =
    let rest = selected now major (next_skip skip_key e) es in
    if is_skipped skip_key e || (major && is_dead now e) then rest else e ∷ rest

unfoldable leading : List ℕ → List Entry → List Entry
leading prefix [] = []
leading prefix (e ∷ es) = if has_prefix e.key prefix then e ∷ leading prefix es else []

-- What the loops are to take, in terms of keys and of the clock only. An entry repeats the key that
-- was last seen, if any was: the bytes in front of the version are the same.
abbrev repeats : List ℕ → Entry → Bool
repeats seen e = ltb 0 (length seen) && same_key e.key seen

abbrev is_gone : ℕ → Entry → Bool
is_gone now e = is_deleted_or_expired now e.vs.meta e.vs.expires_at

-- The first entry of each run of one user key, where `major` leaves out those that are deleted or expired.
unfoldable pub kept : ℕ → Bool → List ℕ → List Entry → List Entry
kept now major seen [] = []
kept now major seen (e ∷ es) =
    let rest = kept now major (if repeats seen e then seen else e.key) es in
    if repeats seen e || (major && is_gone now e) then rest else e ∷ rest

-- The first bytes of the key are the prefix.
abbrev starts_with : List ℕ → List ℕ → Bool
starts_with key prefix =
    leb (length prefix) (length key) && bytes_equal (take (length prefix) key) prefix

-- The entries up to the first without the prefix, and the user keys of entries.
unfoldable pub prefixed : List ℕ → List Entry → List Entry
prefixed prefix [] = []
prefixed prefix (e ∷ es) = if starts_with e.key prefix then e ∷ prefixed prefix es else []

selected-kept :
    (now : ℕ) (major : Bool) (seen : List ℕ) (es : List Entry)
    → selected now major seen es ≡ kept now major seen es
unfolding selected kept is_skipped is_dead
selected-kept now major seen [] = refl
selected-kept now major seen (e ∷ es) = rw (selected-kept now major (next_skip seen e) es) refl

has_prefix-starts_with : (key prefix : List ℕ) → has_prefix key prefix ≡ starts_with key prefix
unfolding has_prefix bytes_equal
has_prefix-starts_with key [] = ground arith
has_prefix-starts_with [] (p ∷ ps) = ground arith
has_prefix-starts_with (k ∷ key) (p ∷ ps) = ground (arith, has_prefix-starts_with key ps)

leading-prefixed : (prefix : List ℕ) (es : List Entry) → leading prefix es ≡ prefixed prefix es
unfolding leading prefixed
leading-prefixed prefix [] = refl
leading-prefixed prefix (e ∷ es) =
    rw (has_prefix-starts_with e.key prefix, leading-prefixed prefix es) refl

unfoldable pub user_keys : List Entry → List (List ℕ)
user_keys [] = []
user_keys (e ∷ es) = parse_key e.key ∷ user_keys es

range_loop-selected :
    (now : ℕ) (prefix : List ℕ) (limit room : ℕ) (skip_key : List ℕ) (out : List (List ℕ))
    (es : List Entry)
    → limit < 2 ^ 32
    → length out + room ≡ limit
    → range_loop now prefix limit skip_key out es
      ≡ out ++ take room (user_keys (selected now true skip_key (leading prefix es)))
unfolding range_loop selected leading user_keys
range_loop-selected now prefix limit zero skip_key out [] small h = sym (append-nil out)
range_loop-selected now prefix limit (suc room) skip_key out [] small h = sym (append-nil out)
range_loop-selected now prefix limit zero skip_key out (e ∷ es) small h =
    let full : goes_on prefix limit out e ≡ false = unfold goes_on in ground arith in
    simp full (sym (append-nil out))
range_loop-selected now prefix limit (suc room) skip_key out (e ∷ es) small h =
    let free : goes_on prefix limit out e ≡ has_prefix e.key prefix =
      unfold goes_on in ground arith in
    elim (Bool-cases (has_prefix e.key prefix)) [
      | inr other ↦ simp (free ∙ other, other) (sym (append-nil out))
      | inl same ↦ elim (Bool-cases (is_skipped skip_key e || is_dead now e)) [
        | inl passed ↦
            simp (free ∙ same, same, passed)
              (range_loop-selected now prefix limit (suc room) (next_skip skip_key e) out es small
                h)
        | inr live ↦
            simp (free ∙ same, same, live)
              (range_loop-selected now prefix limit room (next_skip skip_key e)
                  (out ++ (parse_key e.key ∷ [])) es small
                  (omega (arith, length-append out (parse_key e.key ∷ [])))
                ∙ append_assoc out (parse_key e.key ∷ []) _)
      ]
    ]

-- `Range` with a limit below 2^32 returns the first `limit` user keys of the entries up to the
-- first without the prefix: one for each run of a key whose first entry is neither deleted nor
-- expired.
pub range-kept :
    (now : ℕ) (prefix : List ℕ) (limit : ℕ) (es : List Entry)
    → limit < 2 ^ 32
    → range now prefix limit es ≡ take limit (user_keys (kept now true [] (prefixed prefix es)))
unfolding range
range-kept now prefix limit es small =
    range_loop-selected now prefix limit limit [] [] es small (omega arith)
    ∙ ap (λ t. take limit (user_keys t))
        (selected-kept now true [] (leading prefix es)
          ∙ ap (kept now true []) (leading-prefixed prefix es))

-- The entries of a memtable, the first one put in first.
unfoldable pub in_order : List Entry → List Entry
in_order [] = []
in_order (e ∷ es) = in_order es ++ (e ∷ [])

module _ (K : Skiplists) where
  unfoldable pub all_in_order : List K.Skiplist → List Entry
  all_in_order [] = []
  all_in_order (m ∷ ms) = in_order (K.entries m) ++ all_in_order ms
