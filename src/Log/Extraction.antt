-- ===== src/Log/Extraction.antt =====
-- Entries that lie in a block one behind the other are extracted from it.
use autumn.Prelude.{
  ℕ, ◌+◌, ◌-◌, ◌≡◌, refl, sym, ap, ◌∙◌, true, some, List, [], ◌∷◌, ◌++◌, arith, append_assoc, map,
  length, length-append, take-append, drop-append, All, ◌⊎◌, Bool, not, ◌&&◌, leb,
}
use autumn.Prelude.Outcome.{ok}
use autumn.Extent.Block.{Block}
use autumn.Extent.Block.RoundTrip.{IsBlock}
use autumn.RangePartition.Values.{is_value_pointer}
use autumn.Log.{
  LogEntry, Codec, bare, should_write_value_to_lsm, slice, entry_at, entries_from,
  extract_log_entry,
}

-- A value of at most 1024 bytes that is no pointer goes with its entry.
abbrev pub is_small : LogEntry → Bool
is_small e = not (is_value_pointer e.meta) && leb (length e.contents) 1024

pub should_write_value_to_lsm-is_small : (e : LogEntry) → should_write_value_to_lsm e ≡ is_small e
unfolding should_write_value_to_lsm
should_write_value_to_lsm-is_small e = refl

module _ (C : Codec) where
  -- The bytes of entries in a row, their length, and the offsets where they end.
  abbrev pub flat : List LogEntry → List ℕ
  flat [] = []
  flat (e ∷ es) = C.marshal e ++ flat es

  abbrev pub sizes : List LogEntry → ℕ
  sizes [] = 0
  sizes (e ∷ es) = C.size e + sizes es

  abbrev pub ends : ℕ → List LogEntry → List ℕ
  ends at [] = []
  ends at (e ∷ es) = (at + C.size e) ∷ ends (at + C.size e) es

  pub length-ends : (at : ℕ) (es : List LogEntry) → length (ends at es) ≡ length es
  length-ends at [] = refl
  length-ends at (e ∷ es) = omega (arith, length-ends (at + C.size e) es)

  pub length-flat : (es : List LogEntry) → length (flat es) ≡ sizes es
  length-flat [] = refl
  length-flat (e ∷ es) =
      omega (arith, length-append (C.marshal e) (flat es), C.length-marshal e, length-flat es)

  pub flat-append : (xs ys : List LogEntry) → flat (xs ++ ys) ≡ flat xs ++ flat ys
  flat-append [] ys = refl
  flat-append (x ∷ xs) ys =
      ap (λ t. C.marshal x ++ t) (flat-append xs ys)
      ∙ sym (append_assoc (C.marshal x) (flat xs) (flat ys))

  pub sizes-append : (xs ys : List LogEntry) → sizes (xs ++ ys) ≡ sizes xs + sizes ys
  sizes-append [] ys = omega arith
  sizes-append (x ∷ xs) ys = omega (arith, sizes-append xs ys)

  slice-middle :
      (front middle back : List ℕ) (low high : ℕ)
      → low ≡ length front
      → high ≡ low + length middle
      → slice (front ++ (middle ++ back)) low high ≡ ok middle
  unfolding slice
  slice-middle front middle back low high at to = ground (
    arith,
    length-append front (middle ++ back),
    length-append middle back,
    drop-append front (middle ++ back) low at,
    take-append middle back (high - low) (omega arith),
  )

  -- An entry behind `front` is read back.
  pub entry_at-marshal :
      (front : List ℕ) (e : LogEntry) (back : List ℕ) (at : ℕ)
      → at ≡ length front
      → entry_at C (front ++ (C.marshal e ++ back)) at (at + C.size e) ≡ ok (bare e)
  unfolding entry_at
  entry_at-marshal front e back at h = ground (
    arith,
    slice-middle front (C.marshal e) back at (at + C.size e) h (omega (arith, C.length-marshal e)),
    C.unmarshal-marshal e,
  )

  pub entries_from-flat :
      (front : List ℕ) (es : List LogEntry) (back : List ℕ) (at : ℕ)
      → at ≡ length front
      → entries_from C (front ++ (flat es ++ back)) at (ends at es) ≡ ok (map bare es)
  unfolding entries_from
  entries_from-flat front [] back at h = refl
  entries_from-flat front (e ∷ es) back at h =
      let here : front ++ ((C.marshal e ++ flat es) ++ back)
          ≡ front ++ (C.marshal e ++ (flat es ++ back)) =
        ap (λ t. front ++ t) (append_assoc (C.marshal e) (flat es) back) in
      let behind = here ∙ sym (append_assoc front (C.marshal e) (flat es ++ back)) in
      let rest =
        ap (λ bs. entries_from C bs (at + C.size e) (ends (at + C.size e) es)) behind
        ∙ entries_from-flat (front ++ C.marshal e) es back (at + C.size e)
            (omega (arith, length-append front (C.marshal e), C.length-marshal e)) in
      let first =
        ap (λ bs. entry_at C bs at (at + C.size e)) here
        ∙ entry_at-marshal front e (flat es ++ back) at h in
      rw (first, rest) refl

  -- A block that `writeBlock` accepts, with these entries at the front of its data and their offsets
  -- in its user data: any number of entries that go to the memtable whole, or one entry.
  pub record Packs (b : Block) (es : List LogEntry) : Type 0 where
    pub block : IsBlock b
    pub offsets : C.unmarshal_offsets b.user_data ≡ some (0 ∷ ends 0 es)
    pub back : List ℕ
    pub packed : b.contents ≡ flat es ++ back
    pub uniform : All (λ e. should_write_value_to_lsm e ≡ true) es ⊎ (length es ≡ 1)

  pub extract_log_entry-Packs :
      (b : Block) (es : List LogEntry) → Packs b es → extract_log_entry C b ≡ ok (map bare es)
  unfolding extract_log_entry
  extract_log_entry-Packs b es h = rw (h.offsets, h.packed) (entries_from-flat [] es h.back 0 refl)
