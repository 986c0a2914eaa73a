-- ===== src/Extent/Entries/Reading.antt =====
-- `readBlockEntries` for a replay, on a block of entries.
use autumn.Prelude.{
  ℕ, ◌+◌, ◌≡◌, refl, sym, ap, ◌∙◌, inl, inr, Bool, true, List, [], ◌∷◌, ◌++◌, arith, append_assoc,
  map, length, length-append, All, if◌then◌else◌, ◌%◌, ◌^◌,
}
use autumn.Prelude.Outcome.{ok}
use autumn.Extent.Block.{Block}
use autumn.Extent.Block.RoundTrip.{encoded, read_block-encoded}
use autumn.RangePartition.Values.{set_value_pointer}
use autumn.Log.{LogEntry, Codec, bare, should_write_value_to_lsm, entry_at}
use autumn.Log.Extraction.{
  is_small, should_write_value_to_lsm-is_small, flat, ends, entry_at-marshal, Packs,
}
use autumn.Log.Chunks.{Chunk}
use autumn.Extent.Entries.{info_then, infos_from, infos_of, read_block_entries}

module _ (C : Codec) where
  -- What a replay gets for an entry: a small one whole, another with the flag of a pointer in place
  -- of its value. Both say where the block lies.
  abbrev pub read_back : ℕ → ℕ → ℕ → LogEntry → LogEntry
  read_back id offset block_length e = record {
    key = e.key;
    contents = if is_small e then e.contents else [];
    meta = if is_small e then e.meta else set_value_pointer e.meta;
    user_meta = e.user_meta;
    expires_at = e.expires_at;
    extent_id = id;
    offset = offset;
    estimated_size = if is_small e then C.size (bare e) else (block_length + 512) % 2 ^ 64;
  }

  -- The sizes of what is read.
  abbrev pub info_sum : List LogEntry → ℕ
  info_sum [] = 0
  info_sum (e ∷ es) = C.info_size e + info_sum es

  abbrev pub read_all : ℕ → ℕ → List (Chunk C) → List LogEntry
  read_all id offset [] = []
  read_all id offset (c ∷ cs) =
      map (read_back id offset c.block.block_length) c.entries
      ++ read_all id (offset + (512 + c.block.block_length)) cs

  should_write_value_to_lsm-bare :
      (e : LogEntry) → should_write_value_to_lsm (bare e) ≡ should_write_value_to_lsm e
  unfolding should_write_value_to_lsm
  should_write_value_to_lsm-bare e = refl

  info_then-small :
      (alone : Bool) (id offset len : ℕ) (e : LogEntry) (es : List LogEntry)
      → should_write_value_to_lsm e ≡ true
      → info_then C true alone id offset len (bare e) (ok es) ≡ ok (read_back id offset len e ∷ es)
  unfolding info_then
  info_then-small alone id offset len e es small =
      ground (arith, should_write_value_to_lsm-bare e, small, should_write_value_to_lsm-is_small e)

  info_then-alone :
      (id offset len : ℕ) (e : LogEntry)
      → info_then C true true id offset len (bare e) (ok []) ≡ ok (read_back id offset len e ∷ [])
  unfolding info_then
  info_then-alone id offset len e =
      ground (arith, should_write_value_to_lsm-bare e, should_write_value_to_lsm-is_small e)

  infos_from-small :
      (alone : Bool) (id offset : ℕ) (front : List ℕ) (es : List LogEntry) (back bs : List ℕ)
      (at : ℕ)
      → All (λ e. should_write_value_to_lsm e ≡ true) es
      → bs ≡ front ++ (flat C es ++ back)
      → at ≡ length front
      → infos_from C true alone id offset bs at (ends C at es)
        ≡ ok (map (read_back id offset (length bs)) es)
  unfolding infos_from
  infos_from-small alone id offset front [] back bs at small h w = refl
  infos_from-small alone id offset front (e ∷ es) back bs at (se, small) h w =
      let here : bs ≡ front ++ (C.marshal e ++ (flat C es ++ back)) =
        h ∙ ap (λ t. front ++ t) (append_assoc (C.marshal e) (flat C es) back) in
      let first =
        ap (λ t. entry_at C t at (at + C.size e)) here
        ∙ entry_at-marshal C front e (flat C es ++ back) at w in
      let rest =
        infos_from-small alone id offset (front ++ C.marshal e) es back bs (at + C.size e) small
          (here ∙ sym (append_assoc front (C.marshal e) (flat C es ++ back)))
          (omega (arith, w, length-append front (C.marshal e), C.length-marshal e)) in
      rw (first, rest)
        (info_then-small alone id offset (length bs) e (map (read_back id offset (length bs)) es)
          se)

  infos_from-alone :
      (id offset : ℕ) (e : LogEntry) (back bs : List ℕ)
      → bs ≡ flat C (e ∷ []) ++ back
      → infos_from C true true id offset bs 0 (ends C 0 (e ∷ []))
        ≡ ok (map (read_back id offset (length bs)) (e ∷ []))
  unfolding infos_from
  infos_from-alone id offset e back bs h =
      let first =
        ap (λ t. entry_at C t 0 (0 + C.size e)) (h ∙ append_assoc (C.marshal e) [] back)
        ∙ entry_at-marshal C [] e back 0 refl in
      rw first (info_then-alone id offset (length bs) e)

  infos_of-one :
      (id offset : ℕ) (es : List LogEntry) (back bs : List ℕ)
      → length es ≡ 1
      → bs ≡ flat C es ++ back
      → infos_of C true id offset bs (0 ∷ ends C 0 es)
        ≡ ok (map (read_back id offset (length bs)) es)
  infos_of-one id offset [] back bs one h = absurd (omega arith)
  infos_of-one id offset (e ∷ []) back bs one h = infos_from-alone id offset e back bs h
  infos_of-one id offset (e ∷ f ∷ es) back bs one h = absurd (omega arith)

  infos_of-Packs :
      (id offset : ℕ) (b : Block) (es : List LogEntry)
      → Packs C b es
      → infos_of C true id offset b.contents (0 ∷ ends C 0 es)
        ≡ ok (map (read_back id offset b.block_length) es)
  infos_of-Packs id offset b es h =
      let sized = ap (λ n. ok (map (read_back id offset n) es)) h.block.sized in
      elim h.uniform [
        | inl small ↦
            infos_from-small _ id offset [] es h.back b.contents 0 small h.packed refl ∙ sized
        | inr one ↦ infos_of-one id offset es h.back b.contents one h.packed ∙ sized
      ]

  pub read_block_entries-Packs :
      (id offset : ℕ) (b : Block) (es : List LogEntry) (rest : List ℕ)
      → Packs C b es
      → read_block_entries C true id offset (encoded b ++ rest)
        ≡ ok (map (read_back id offset b.block_length) es, b.block_length)
  unfolding read_block_entries
  read_block_entries-Packs id offset b es rest h = rw (read_block-encoded b h.block rest) (
      rw (h.offsets) (
        rw (infos_of-Packs id offset b es h)
          (ap (λ n. ok (map (read_back id offset b.block_length) es, n)) h.block.sized)))
