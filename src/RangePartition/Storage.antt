-- ===== src/RangePartition/Storage.antt =====
-- What the range partition calls of rangepartition/skiplist and of rangepartition/table, both of
-- Badger, and of the streams: the operations, and what it relies on. `entries` and `contents` are no
-- operations: they are what was put in, the last first, and only the laws mention them.
pub mod Lists
use autumn.Prelude.{
  ℕ, ◌+◌, ◌^◌, ◌≤◌, ◌<◌, ◌≡◌, Bool, true, false, not, ◌&&◌, Option, none, some, List, [], ◌∷◌, All,
  length, if◌then◌else◌,
}
use autumn.Prelude.Outcome.{Outcome}
use autumn.RangePartition.Keys.{same_key, parse_key, parse_ts}
use autumn.RangePartition.Keys.Order.{bytes_compare}
use autumn.RangePartition.Values.{ValueStruct, ValuePointer, encoded_size}
use autumn.RangePartition.Versions.{Entry, Found, latest, IsShort}
pub use autumn.Log.{LogEntry}
use Prim.Native.Nat.{Ordering}

-- `Get` returns the zero value for a key that is not there: here, none. A value that is there is read
-- as a slice of the arena, and is never nil. The skip list keeps a key's length in 16 bits, so
-- what is said of `get` is for skip lists without longer keys. `put` ends the process where the
-- arena has no room: here it is the put on an arena that has, so what is said of a partition says
-- something of the program where its entries have that room.
pub record Skiplists : Type 1 where
  pub Skiplist : Type 0
  pub new_skiplist : Skiplist
  pub put : List ℕ → ValueStruct → Skiplist → Skiplist
  pub get : List ℕ → Skiplist → Option Found
  pub mem_size : Skiplist → ℕ
  pub is_empty : Skiplist → Bool
  pub max_node_size : ℕ
  pub entries : Skiplist → List Entry
  pub entries-new_skiplist : entries new_skiplist ≡ []
  pub entries-put :
      (k : List ℕ) (v : ValueStruct) (m : Skiplist)
      → entries (put k v m) ≡ record { key = k; vs = v } ∷ entries m
  pub get-latest :
      (q : List ℕ) (m : Skiplist) → All IsShort (entries m) → get q m ≡ latest q (entries m)
  pub is_empty-entries : (m : Skiplist) → is_empty m ≡ true → entries m ≡ []
  pub mem_size-put :
      (k : List ℕ) (v : ValueStruct) (m : Skiplist)
      → mem_size (put k v m) ≤ mem_size m + (length k + encoded_size v + (max_node_size + 8))

-- The body of the loop over the tables, at the entry where `Seek` left the iterator.
unfoldable pub same_key_hit : List ℕ → Option Entry → Option Found
same_key_hit q none = none
same_key_hit q (some e) =
    if same_key q e.key then some (record { version = parse_ts e.key; vs = e.vs }) else none

-- `bytes.Compare(userKey, start) >= 0 && bytes.Compare(userKey, end) <= 0`
abbrev pub is_lt : Ordering → Bool
is_lt o = elim o [ Ordering.lt ↦ true | _ ↦ false ]

abbrev pub is_gt : Ordering → Bool
is_gt o = elim o [ Ordering.gt ↦ true | _ ↦ false ]

abbrev pub in_range : List ℕ → List ℕ → List ℕ → Bool
in_range user_key start end =
    not (is_lt (bytes_compare user_key start)) && not (is_gt (bytes_compare user_key end))

-- `build` is `FinishAll` and `OpenTable`: none is an error, at one attempt and not at the next.
pub record Tables (K : Skiplists) : Type 1 where
  pub Table : Type 0
  pub build : ℕ → K.Skiplist → ValuePointer → ℕ → Option Table
  pub seek : List ℕ → Table → Option Entry
  pub fingerprint : List ℕ → ℕ
  pub does_not_have : ℕ → Table → Bool
  pub smallest : Table → List ℕ
  pub biggest : Table → List ℕ
  pub last_seq : Table → ℕ
  pub contents : Table → List Entry
  pub contents-build :
      (attempt : ℕ) (m : K.Skiplist) (vptr : ValuePointer) (seq : ℕ) (t : Table)
      → build attempt m vptr seq ≡ some t
      → (contents t ≡ K.entries m) × (last_seq t ≡ seq)
  pub seek-latest :
      (q : List ℕ) (t : Table)
      → All IsShort (contents t)
      → same_key_hit q (seek q t) ≡ latest q (contents t)
  pub does_not_have-latest :
      (q : List ℕ) (t : Table)
      → does_not_have (fingerprint (parse_key q)) t ≡ true
      → latest q (contents t) ≡ none
  pub in_range-latest :
      (q : List ℕ) (t : Table)
      → in_range (parse_key q) (parse_key (smallest t)) (parse_key (biggest t)) ≡ false
      → latest q (contents t) ≡ none

-- The log stream. `AppendEntries` says for each entry, in the order given, where its block lies if it
-- has one of its own, and where the log ends then. `block_value` is the value of the first entry of a
-- block, as `blockReader.Read` and `ExtractLogEntry` give it.
pub record Logs : Type 1 where
  pub Log : Type 0
  pub append_entries : List LogEntry → Log → Log × Outcome (List (Option (ℕ × ℕ)) × ValuePointer)
  pub block_value : ℕ → ℕ → Log → Outcome (List ℕ)
