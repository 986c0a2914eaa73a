-- ===== src/Manager/PartitionManager/Loading.antt =====
-- manager/partitionmanager/pm.go, `parseParts`, on what `Bootstrap` and `SetRowStreamTables` write.
use autumn.Prelude.{
  ℕ, ◌≡◌, refl, sym, ap, ◌∙◌, Bool, true, false, Option, none, some, List, [], ◌∷◌, ◌++◌, arith,
  ◌==◌, ==_refl, if◌then◌else◌, All,
}
use autumn.Prelude.Assoc.{lookup, insert, lookup-insert}
use autumn.Manager.PartitionManager.{
  PartitionMeta, Field, empty_meta, set_field, meta_or_empty, parse_loop, parse_parts,
}

-- A pair that is of another partition, or does not parse.
abbrev pub IsOther : ℕ → Option (ℕ × Field) → Type 0
IsOther id none = Unit
IsOther id (some (other, f)) = (other == id) ≡ false

abbrev pub found_under : ℕ → List Field → List (Option (ℕ × Field))
found_under id [] = []
found_under id (f ∷ fs) = some (id, f) ∷ found_under id fs

unfoldable pub set_fields : List Field → PartitionMeta → PartitionMeta
unfolding set_field
set_fields [] m = m
set_fields (f ∷ fs) m = set_fields fs (set_field f m)

started_other :
    (id other : ℕ) (same : Bool) (ret : List (ℕ × PartitionMeta))
    → (other == id) ≡ false
    → lookup id (if same then ret else insert other (empty_meta other) ret) ≡ lookup id ret
started_other id other true ret h = refl
started_other id other false ret h =
    lookup-insert other id (empty_meta other) ret
    ∙ ap (λ b. if b then some (empty_meta other) else lookup id ret) h

-- Pairs of others do not change what is there for a partition.
others :
    (id last : ℕ) (ret : List (ℕ × PartitionMeta)) (kvs : List (Option (ℕ × Field)))
    → All (IsOther id) kvs
    → lookup id (parse_loop last ret kvs) ≡ lookup id ret
unfolding parse_loop
others id last ret [] h = refl
others id last ret (none ∷ kvs) (h, hs) = others id last ret kvs hs
others id last ret (some (other, f) ∷ kvs) (h, hs) =
    let started : List (ℕ × PartitionMeta) =
      if other == last then ret else insert other (empty_meta other) ret in
    let m = set_field f (meta_or_empty other (lookup other started)) in
    others id other (insert other m started) kvs hs
    ∙ lookup-insert other id m started
    ∙ ap (λ b. if b then some m else lookup id started) h
    ∙ started_other id other (other == last) ret h

parse_loop-append :
    (last : ℕ) (ret : List (ℕ × PartitionMeta)) (id : ℕ) (front kvs : List (Option (ℕ × Field)))
    → All (IsOther id) front
    → (last == id) ≡ false
    → (before : List (ℕ × PartitionMeta)) × ((l : ℕ) × (((l == id) ≡ false)
          × (parse_loop last ret (front ++ kvs) ≡ parse_loop l before kvs)))
unfolding parse_loop
parse_loop-append last ret id [] kvs h new = (ret, (last, (new, refl)))
parse_loop-append last ret id (none ∷ front) kvs (h, hs) new =
    parse_loop-append last ret id front kvs hs new
parse_loop-append last ret id (some (other, f) ∷ front) kvs (h, hs) new =
    let started : List (ℕ × PartitionMeta) =
      if other == last then ret else insert other (empty_meta other) ret in
    parse_loop-append other
      (insert other (set_field f (meta_or_empty other (lookup other started))) started) id front kvs
      hs h

-- The pairs of the partition that the loop is at.
own :
    (id : ℕ) (ret : List (ℕ × PartitionMeta)) (m : PartitionMeta) (fs : List Field)
    (back : List (Option (ℕ × Field)))
    → lookup id ret ≡ some m
    → All (IsOther id) back
    → lookup id (parse_loop id ret (found_under id fs ++ back)) ≡ some (set_fields fs m)
unfolding parse_loop set_fields
own id ret m [] back there h = others id id ret back h ∙ there
own id ret m (f ∷ fs) back there h =
    let rest = found_under id fs ++ back in
    let step = λ (s : List (ℕ × PartitionMeta)).
      lookup id (parse_loop id (insert id (set_field f (meta_or_empty id (lookup id s))) s) rest) in
    ap (λ b. step (if b then ret else insert id (empty_meta id) ret)) (==_refl id)
    ∙ ap (λ o. lookup id (parse_loop id (insert id (set_field f (meta_or_empty id o)) ret) rest))
        there
    ∙ own id (insert id (set_field f m) ret) (set_field f m) fs back
        (lookup-insert id id (set_field f m) ret
          ∙ ap (λ b. if b then some (set_field f m) else lookup id ret) (==_refl id))
        h

-- The first pair of a partition starts it.
first :
    (id l : ℕ) (before : List (ℕ × PartitionMeta)) (f : Field) (kvs : List (Option (ℕ × Field)))
    → (l == id) ≡ false
    → lookup id (parse_loop l before (some (id, f) ∷ kvs))
      ≡ lookup id (parse_loop id (insert id (empty_meta id) before) (some (id, f) ∷ kvs))
unfolding parse_loop
first id l before f kvs new =
    let started = insert id (empty_meta id) before in
    let step = λ (s : List (ℕ × PartitionMeta)).
      lookup id (parse_loop id (insert id (set_field f (meta_or_empty id (lookup id s))) s) kvs) in
    let new' : (id == l) ≡ false = ground arith in
    ap (λ b. step (if b then before else started)) new'
    ∙ sym (ap (λ b. step (if b then started else insert id (empty_meta id) started)) (==_refl id))

-- Where the keys of a partition stand together, `parseParts` gives it the fields of those keys, in
-- their order, on Go's zero values, whatever stands before and behind them.
pub parse_parts-lookup :
    (id : ℕ) (f : Field) (fs : List Field) (front back : List (Option (ℕ × Field)))
    → (0 == id) ≡ false
    → All (IsOther id) front
    → All (IsOther id) back
    → lookup id (parse_parts (front ++ (found_under id (f ∷ fs) ++ back)))
      ≡ some (set_fields (f ∷ fs) (empty_meta id))
unfolding parse_parts
parse_parts-lookup id f fs front back positive hf hb =
    let (before, (l, (new, e))) =
      parse_loop-append 0 [] id front (found_under id (f ∷ fs) ++ back) hf positive in
    ap (lookup id) e
    ∙ first id l before f (found_under id fs ++ back) new
    ∙ own id (insert id (empty_meta id) before) (empty_meta id) (f ∷ fs) back
        (lookup-insert id id (empty_meta id) before
          ∙ ap (λ b. if b then some (empty_meta id) else lookup id before) (==_refl id))
        hb
