-- ===== src/Node/Entries.antt =====
-- node/node_service.go: the handler `ReadEntries`.
use autumn.Prelude.{ℕ, ltb, Option, none, some, List}
use autumn.Prelude.Outcome.{Outcome, ok, err, panic, failed}
use autumn.Log.{LogEntry, Codec}
use autumn.Extent.Entries.{read_entries, max_entries_size}
use autumn.Node.{ExtentNode, get_extent, Code, error_to_code}

-- pb.ReadEntriesResponse
pub record EntriesResponse : Type 0 where
  pub code : Code
  pub entries : List LogEntry
  pub end_offset : ℕ

unfoldable pub serve_entries : Codec → ExtentNode → ℕ → ℕ → ℕ → Option (Outcome EntriesResponse)
unfolding get_extent error_to_code
serve_entries C en id offset replay = elim (get_extent en id) [
  | none ↦ some (err failed)
  | some ex ↦ elim (read_entries C ex offset max_entries_size (ltb 0 replay)) [
    | none ↦ none
    | some (err x) ↦ some (err x)
    | some panic ↦ some panic
    | some (ok (es, end_offset, e)) ↦ elim (error_to_code e) [
      | ok c ↦ some (ok (record { code = c; entries = es; end_offset = end_offset }))
      | err x ↦ some (err x)
      | panic ↦ some panic
    ]
  ]
]
