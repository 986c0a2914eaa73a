-- ===== src/RangePartition/Recovery/Contents.antt =====
-- What reads of a partition find that `OpenRangePartition` made from its log alone.
use autumn.Prelude.{ℕ, ◌+◌, ◌%◌, ◌^◌, some, none, Option, List, [], ◌∷◌, ltb, if◌then◌else◌}
use autumn.Prelude.Outcome.{Outcome}
use autumn.Log.{LogEntry}
use autumn.RangePartition.Keys.{parse_ts}
use autumn.RangePartition.Versions.{Found}
use autumn.RangePartition.Storage.{Skiplists, Tables, Logs}
use autumn.RangePartition.Partition.{RangePartition}
use autumn.RangePartition.Recovery.{opening}

-- The sequence number after entries: each whose version is greater counts it up by one.
abbrev pub raised : List LogEntry → ℕ → ℕ
raised [] seq = seq
raised (e ∷ es) seq = raised es (if ltb seq (parse_ts e.key) then (seq + 1) % 2 ^ 64 else seq)

module _ (K : Skiplists) (T : Tables K) (L : Logs) where
  -- The new partition with another sequence number and memtable.
  abbrev replayed : L.Log → ℕ → K.Skiplist → RangePartition K T L
  replayed log seq m = record (opening K T L log [] seq) { mt = record { id = 0; skiplist = m } }

  abbrev first_some : Option Found → Option Found
  first_some o = elim o [ none ↦ none | some a ↦ some a ]

  abbrev otherwise_none : Option Found → Option Found
  otherwise_none o = elim o [ some a ↦ some a | none ↦ none ]
