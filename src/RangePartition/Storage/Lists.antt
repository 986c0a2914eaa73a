-- ===== src/RangePartition/Storage/Lists.antt =====
-- Memtables, tables and a log as lists: an implementation of what the range partition calls.
use autumn.Prelude.{
  ℕ, suc, ◌+◌, ◌<◌, ◌≡◌, ◌≢◌, refl, sym, ap, ◌∙◌, Bool, true, false, ◌&&◌, Option, none, some, List,
  [], ◌∷◌, ◌++◌, arith, length, get_elem?, if◌then◌else◌, Bool-cases, inl, inr, ltb, leb,
}
use autumn.Prelude.Outcome.{ok, err, failed}
use autumn.Extent.Header.{bytes_equal}
use autumn.RangePartition.Keys.{same_key, parse_key, parse_ts, key_with_ts, parse_key-key_with_ts}
use autumn.RangePartition.Keys.Order.{bytes_compare}
use autumn.RangePartition.Values.{ValuePointer, encoded_size}
use autumn.RangePartition.Versions.{Entry, Found, later, visible, latest}
use autumn.RangePartition.Storage.{Skiplists, Tables, Logs, LogEntry, same_key_hit, in_range}

abbrev pub list_size : List Entry → ℕ
list_size [] = 0
list_size (e ∷ es) = list_size es + (length e.key + encoded_size e.vs + (96 + 8))

abbrev pub is_nil : List Entry → Bool
is_nil [] = true
is_nil (e ∷ es) = false

pub is_nil-nil : (es : List Entry) → is_nil es ≡ true → es ≡ []
is_nil-nil [] h = refl
is_nil-nil (e ∷ es) h = absurd (cc)

abbrev pub list_skiplists : Skiplists
list_skiplists = record {
  Skiplist = List Entry;
  new_skiplist = [];
  put = λ k v m. record { key = k; vs = v } ∷ m;
  get = latest;
  mem_size = list_size;
  is_empty = is_nil;
  max_node_size = 96;
  entries = λ m. m;
  entries-new_skiplist = refl;
  entries-put = λ k v m. refl;
  get-latest = λ q m short. refl;
  is_empty-entries = is_nil-nil;
  mem_size-put = λ k v m. omega arith;
}

-- The entry with the latest version that a read of `q` sees.
abbrev later_entry : Entry → Option Entry → Entry
later_entry e none = e
later_entry e (some f) = if ltb (parse_ts e.key) (parse_ts f.key) then f else e

unfoldable pub seek_list : List ℕ → List Entry → Option Entry
seek_list q [] = none
seek_list q (e ∷ es) =
    if same_key q e.key && leb (parse_ts e.key) (parse_ts q)
    then some (later_entry e (seek_list q es))
    else seek_list q es

abbrev found_of : Option Entry → Option Found
found_of none = none
found_of (some e) = some (record { version = parse_ts e.key; vs = e.vs })

later_entry-found_of :
    (e : Entry) (o : Option Entry)
    → found_of (some (later_entry e o)) ≡ later (found_of (some e)) (found_of o)
later_entry-found_of e none = refl
later_entry-found_of e (some f) = elim (Bool-cases (ltb (parse_ts e.key) (parse_ts f.key))) [
  | inl t ↦ simp t refl
  | inr t ↦ simp t refl
]

seek_list-latest : (q : List ℕ) (es : List Entry) → found_of (seek_list q es) ≡ latest q es
unfolding seek_list latest visible
seek_list-latest q [] = refl
seek_list-latest q (e ∷ es) =
    elim (Bool-cases (same_key q e.key && leb (parse_ts e.key) (parse_ts q))) [
      | inl t ↦ simp t (
          later_entry-found_of e (seek_list q es)
          ∙ ap (later (found_of (some e))) (seek_list-latest q es))
      | inr t ↦ simp t (seek_list-latest q es)
    ]

and_left : (a b : Bool) → (a && b) ≡ true → a ≡ true
and_left true b h = refl
and_left false b h = h

later_entry-same_key :
    (q : List ℕ) (e : Entry) (o : Option Entry)
    → same_key q e.key ≡ true
    → same_key_hit q o ≡ found_of o
    → same_key_hit q (some (later_entry e o)) ≡ found_of (some (later_entry e o))
unfolding same_key_hit
later_entry-same_key q e none own h = simp own refl
later_entry-same_key q e (some f) own h =
    elim (Bool-cases (ltb (parse_ts e.key) (parse_ts f.key))) [
      | inl t ↦ simp t h
      | inr t ↦ simp (t, own) refl
    ]

seek_list-same_key :
    (q : List ℕ) (es : List Entry) → same_key_hit q (seek_list q es) ≡ found_of (seek_list q es)
unfolding seek_list
seek_list-same_key q [] = unfold same_key_hit in refl
seek_list-same_key q (e ∷ es) =
    let readable = leb (parse_ts e.key) (parse_ts q) in
    elim (Bool-cases (same_key q e.key && readable)) [
      | inl t ↦ simp t (
          later_entry-same_key q e (seek_list q es) (and_left (same_key q e.key) readable t)
            (seek_list-same_key q es))
      | inr t ↦ simp t (seek_list-same_key q es)
    ]

pub seek_lem : (q : List ℕ) (es : List Entry) → same_key_hit q (seek_list q es) ≡ latest q es
seek_lem q es = seek_list-same_key q es ∙ seek_list-latest q es

-- A bound of the user keys: none begins with a greater byte.
abbrev first_byte : List ℕ → ℕ
first_byte [] = 0
first_byte (b ∷ bs) = b

abbrev pub greatest : List Entry → ℕ
greatest [] = 0
greatest (e ∷ es) =
    if ltb (greatest es) (first_byte (parse_key e.key))
    then first_byte (parse_key e.key)
    else greatest es

first_byte-bytes_equal : (j k : List ℕ) → bytes_equal j k ≡ true → first_byte j ≡ first_byte k
unfolding bytes_equal
first_byte-bytes_equal [] [] h = refl
first_byte-bytes_equal [] (y ∷ ys) h = absurd (cc)
first_byte-bytes_equal (x ∷ xs) [] h = absurd (cc)
first_byte-bytes_equal (x ∷ xs) (y ∷ ys) h = ground arith

unequal_first :
    (q : List ℕ) (e : Entry)
    → first_byte (parse_key e.key) < first_byte (parse_key q)
    → visible q e ≡ none
unfolding visible same_key
unequal_first q e h = elim (Bool-cases (bytes_equal (parse_key q) (parse_key e.key))) [
  | inl t ↦ absurd (omega (arith, first_byte-bytes_equal (parse_key q) (parse_key e.key) t))
  | inr t ↦ ground (arith, t)
]

beyond_greatest :
    (q : List ℕ) (es : List Entry) → greatest es < first_byte (parse_key q) → latest q es ≡ none
unfolding latest
beyond_greatest q [] h = refl
beyond_greatest q (e ∷ es) h =
    let (below, first) : (greatest es < first_byte (parse_key q))
        × (first_byte (parse_key e.key) < first_byte (parse_key q)) =
      ground arith in
    (λ i. later (unequal_first q e first i) (beyond_greatest q es below i))

in_range_bytes : (k : List ℕ) (m : ℕ) → in_range k [] (suc m ∷ []) ≡ false → m < first_byte k
unfolding bytes_compare
in_range_bytes [] m h = absurd (cc)
in_range_bytes (x ∷ xs) m h = ground arith

pub out_of_range :
    (q : List ℕ) (es : List Entry)
    → in_range
        (parse_key q)
        (parse_key (key_with_ts [] 0))
        (parse_key (key_with_ts (suc (greatest es) ∷ []) 0))
      ≡ false
    → latest q es ≡ none
out_of_range q es h = beyond_greatest q es (
    in_range_bytes (parse_key q) (greatest es) (
      (λ i.
        in_range (parse_key q) (sym (parse_key-key_with_ts [] 0) i)
          (sym (parse_key-key_with_ts (suc (greatest es) ∷ []) 0) i))
      ∙ h))

pub false-true : Bool.false ≢ Bool.true
false-true = λ h. absurd (cc)

-- A table of an entry list, and what was given when it was built.
pub record ListTable : Type 0 where
  pub table_entries : List Entry
  pub vptr : ValuePointer
  pub seq : ℕ

abbrev pub list_tables : Tables list_skiplists
list_tables = record {
  Table = ListTable;
  build = λ attempt m vptr seq. some (record { table_entries = m; vptr = vptr; seq = seq });
  seek = λ q t. seek_list q t.table_entries;
  fingerprint = length;
  does_not_have = λ hash t. false;
  smallest = λ t. key_with_ts [] 0;
  biggest = λ t. key_with_ts (suc (greatest t.table_entries) ∷ []) 0;
  last_seq = λ t. t.seq;
  contents = λ t. t.table_entries;
  contents-build = λ attempt m vptr seq t h. (
    ap (λ o. elim o [ none ↦ m | some u ↦ u.table_entries ]) (sym h),
    ap (λ o. elim o [ none ↦ seq | some u ↦ u.seq ]) (sym h),
  );
  seek-latest = λ q t short. seek_lem q t.table_entries;
  does_not_have-latest = λ q t h. absurd (false-true h);
  in_range-latest = λ q t h. out_of_range q t.table_entries h;
}

-- A log that holds each entry in a block of its own.
abbrev pub append_list : List LogEntry → List (List ℕ) → List (List ℕ) × (List (Option (ℕ × ℕ)) × ℕ)
append_list [] log = (log, ([], length log))
append_list (e ∷ es) log =
    let (log', (ats, head)) = append_list es (log ++ (e.contents ∷ [])) in
    (log', (some (1, length log) ∷ ats, head))

abbrev pub list_logs : Logs
list_logs = record {
  Log = List (List ℕ);
  append_entries = λ es log.
      (let (log', (ats, head)) = append_list es log in
        (log', ok (ats, record { extent_id = 1; offset = head; len = 0 })));
  block_value = λ x o log. elim (get_elem? log o) [ none ↦ err failed | some v ↦ ok v ];
}
