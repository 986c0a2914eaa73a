-- ===== src/Log.antt =====
-- pb.EntryInfo with its pb.Entry, their encodings, and `ExtractLogEntry` of rangepartition/y/y.go.
-- The encodings are generated code (proto/pb, proto/pspb): `Codec` is what their callers rely on.
pub mod Extraction
pub mod Chunks
use autumn.Prelude.{
  ℕ, ◌+◌, ◌-◌, ◌≤◌, ◌≡◌, Bool, not, ◌&&◌, Option, none, some, List, [], ◌∷◌, leb, if◌then◌else◌,
  length, take, drop,
}
use autumn.Prelude.Outcome.{Outcome, ok, panic, ◌>>=◌}
use autumn.Extent.Block.{Block}
use autumn.RangePartition.Values.{is_value_pointer, size_varint}

pub record LogEntry : Type 0 where
  pub key : List ℕ
  pub contents : List ℕ
  pub meta : ℕ
  pub user_meta : ℕ
  pub expires_at : ℕ
  pub extent_id : ℕ
  pub offset : ℕ
  pub estimated_size : ℕ

unfoldable pub should_write_value_to_lsm : LogEntry → Bool
should_write_value_to_lsm e = not (is_value_pointer e.meta) && leb (length e.contents) 1024

-- A new pb.EntryInfo around the pb.Entry of another.
abbrev pub bare : LogEntry → LogEntry
bare e = record e { extent_id = 0; offset = 0; estimated_size = 0 }

abbrev pub varint_sizes : List ℕ → ℕ
varint_sizes [] = 0
varint_sizes (o ∷ os) = size_varint o + varint_sizes os

-- `Size`, `Marshal` and `Unmarshal` of pb.Entry, `Size` of pb.EntryInfo, and `Marshal` and
-- `Unmarshal` of pspb.MixedLog, which packs its offsets behind a tag and a length; none is an error.
pub record Codec : Type 0 where
  pub size : LogEntry → ℕ
  pub marshal : LogEntry → List ℕ
  pub unmarshal : List ℕ → Option LogEntry
  pub info_size : LogEntry → ℕ
  pub marshal_offsets : List ℕ → List ℕ
  pub unmarshal_offsets : List ℕ → Option (List ℕ)
  pub length-marshal : (e : LogEntry) → length (marshal e) ≡ size e
  pub unmarshal-marshal : (e : LogEntry) → unmarshal (marshal e) ≡ some (bare e)
  pub unmarshal_offsets-marshal_offsets :
      (os : List ℕ) → unmarshal_offsets (marshal_offsets os) ≡ some os
  pub length-marshal_offsets : (os : List ℕ) → length (marshal_offsets os) ≤ 11 + varint_sizes os

-- `bs[low:high]`
unfoldable pub slice : List ℕ → ℕ → ℕ → Outcome (List ℕ)
slice bs low high =
    if leb low high && leb high (length bs) then ok (take (high - low) (drop low bs)) else panic

-- utils.Check and utils.MustUnMarshal end the process.
abbrev pub must {ℓ} : {A : Type ℓ} → Option A → Outcome A
must none = panic
must (some a) = ok a

module _ (C : Codec) where
  unfoldable pub entry_at : List ℕ → ℕ → ℕ → Outcome LogEntry
  unfolding slice
  entry_at bs low high = slice bs low high >>= λ part. must (C.unmarshal part)

  -- The entries between an offset and those that follow it. The end of the n-th, `Offsets[n]` plus
  -- the 32 bits of `Offsets[n+1] - Offsets[n]`, is `Offsets[n+1]`.
  unfoldable pub entries_from : List ℕ → ℕ → List ℕ → Outcome (List LogEntry)
  unfolding entry_at
  entries_from bs low [] = ok []
  entries_from bs low (high ∷ os) =
      entry_at bs low high >>= λ e. entries_from bs high os >>= λ es. ok (e ∷ es)

  -- Without any offset, `make` gets the length -1.
  abbrev pub from_offsets : List ℕ → List ℕ → Outcome (List LogEntry)
  from_offsets bs [] = panic
  from_offsets bs (o ∷ os) = entries_from bs o os

  unfoldable pub extract_log_entry : Block → Outcome (List LogEntry)
  unfolding entries_from
  extract_log_entry b = must (C.unmarshal_offsets b.user_data) >>= from_offsets b.contents
