-- ===== src/StreamClient/Blocks/Filling.antt =====
-- The blocks of 4096 bytes: what `Fill` has put into one, and what `ToBlock` makes of it.
use autumn.Prelude.{
  ℕ, zero, suc, ◌+◌, ◌*◌, ◌%◌, ◌/◌, ◌^◌, ◌≤◌, ◌<◌, ◌≡◌, refl, sym, ap, ◌∙◌, true, List, [], ◌∷◌,
  ◌++◌, arith, append_assoc, length, length-append, length-drop, append-nil, some, take,
  take-append, drop, drop-append_add, replicate, All, All-append, inl, ltb, if◌then◌else◌,
}
use autumn.Prelude.Outcome.{ok}
use autumn.Prelude.Uvarint.{put_uvarint, length-put_uvarint}
use autumn.Prelude.Bytes.{put_uint32}
use autumn.Extent.Block.{Block, align, header_fields}
use autumn.RangePartition.Values.{size_varint, size_loop}
use autumn.Log.{LogEntry, Codec, should_write_value_to_lsm, varint_sizes}
use autumn.Log.Extraction.{flat, sizes, ends, length-flat, flat-append, sizes-append, Packs}
use autumn.StreamClient.Blocks.{MixedBlock, new_mixed_block, marshal_to, fill_entry, to_block}

size_loop-le : (fuel x : ℕ) → size_loop fuel x ≤ suc fuel
unfolding size_loop
size_loop-le zero x = omega arith
size_loop-le (suc fuel) x = ground (arith, size_loop-le fuel (x / 2 ^ 7))

pub size_varint-le : (x : ℕ) → size_varint x ≤ 10
unfolding size_varint
size_varint-le x = size_loop-le 9 x

size_varint-le_two : (x : ℕ) → x < 2 ^ 14 → size_varint x ≤ 2
unfolding size_varint size_loop
size_varint-le_two x h = ground arith

user_data_part-le :
    (ud : List ℕ)
    → length ud ≤ 400
    → length (if ltb 0 (length ud) then put_uvarint (length ud) ++ ud else []) ≤ 5 + length ud
user_data_part-le ud few = ground (
  arith,
  length-put_uvarint (length ud) (omega arith),
  length-append (put_uvarint (length ud)) ud,
)

-- A header with up to 400 bytes of user data fits.
pub header_fields-le :
    (b : Block)
    → b.block_length < 2 ^ 32
    → length b.user_data ≤ 400
    → length (header_fields b) ≤ 512
unfolding header_fields put_uint32
header_fields-le b word few =
    let part : List ℕ =
      if ltb 0 (length b.user_data) then put_uvarint (length b.user_data) ++ b.user_data else [] in
    omega (
      arith,
      length-append (put_uvarint b.block_length) part,
      length-put_uvarint b.block_length word,
      user_data_part-le b.user_data few,
    )

module _ (C : Codec) where
  varint_sizes-ends :
      (at : ℕ) (es : List LogEntry)
      → at + sizes C es ≤ 4096
      → varint_sizes (ends C at es) ≤ 2 * length es
  varint_sizes-ends at [] h = omega arith
  varint_sizes-ends at (e ∷ es) h = omega (
    arith,
    size_varint-le_two (at + C.size e) (omega arith),
    varint_sizes-ends (at + C.size e) es (omega arith),
  )

  ends-append :
      (at : ℕ) (es : List LogEntry) (e : LogEntry)
      → ends C at (es ++ (e ∷ [])) ≡ ends C at es ++ ((at + sizes C es + C.size e) ∷ [])
  ends-append at [] e = ap (λ n. n ∷ []) (omega arith)
  ends-append at (x ∷ es) e =
      ap (λ t. (at + C.size x) ∷ t)
        (ends-append (at + C.size x) es e
          ∙ ap (λ n. ends C (at + C.size x) es ++ (n ∷ [])) (omega arith))

  -- A mixed block with these entries in it.
  pub record IsFilled (mb : MixedBlock) (es : List LogEntry) : Type 0 where
    pub count : length mb.offsets ≡ length es
    pub marks : mb.offsets ++ (mb.tail % 2 ^ 32 ∷ []) ≡ 0 ∷ ends C 0 es
    pub tail : mb.tail ≡ sizes C es
    pub free : List ℕ
    pub packed : mb.contents ≡ flat C es ++ free
    pub whole : length mb.contents ≡ 4096
    pub room : sizes C es ≤ 4096
    pub few : length es ≤ 100
    pub small : All (λ e. should_write_value_to_lsm e ≡ true) es

  pub new_mixed_block-IsFilled : IsFilled new_mixed_block []
  unfolding new_mixed_block
  new_mixed_block-IsFilled = record {
    count = refl;
    marks = refl;
    tail = refl;
    free = replicate 4096 0;
    packed = refl;
    whole = refl;
    room = omega arith;
    few = omega arith;
    small = tt;
  }

  flat_snoc :
      (es : List LogEntry) (e : LogEntry) → flat C (es ++ (e ∷ [])) ≡ flat C es ++ C.marshal e
  flat_snoc es e = flat-append C es (e ∷ []) ∙ ap (λ t. flat C es ++ t) (append-nil (C.marshal e))

  pub marshal_to-free :
      (bs front free : List ℕ) (at : ℕ) (e : LogEntry)
      → bs ≡ front ++ free
      → at ≡ length front
      → at + C.size e ≤ length bs
      → marshal_to C bs at e ≡ ok (front ++ (C.marshal e ++ drop (C.size e) free))
  unfolding marshal_to
  marshal_to-free bs front free at e h w room =
      let kept : take at bs ≡ front = ap (take at) h ∙ take-append front free at w in
      let left : drop (at + C.size e) bs ≡ drop (C.size e) free =
        ap (λ t. drop (at + C.size e) t) h
        ∙ ap (λ n. drop (n + C.size e) (front ++ free)) w
        ∙ drop-append_add front free (C.size e) in
      ground (arith, kept, left)

  -- Where an entry fits, `Fill` puts it behind the others.
  pub fill_entry-IsFilled :
      (mb : MixedBlock) (es : List LogEntry) (e : LogEntry)
      → IsFilled mb es
      → should_write_value_to_lsm e ≡ true
      → mb.tail + C.size e ≤ 4096
      → length es < 100
      → (mb' : MixedBlock) × (fill_entry C mb e ≡ ok mb') × IsFilled mb' (es ++ (e ∷ []))
  unfolding fill_entry
  fill_entry-IsFilled mb es e h small room few =
      let used : length (flat C es) + length h.free ≡ 4096 = omega (
        arith,
        h.whole,
        ap (λ (t : List ℕ). length t) h.packed,
        length-append (flat C es) h.free,
      ) in
      let written =
        marshal_to-free mb.contents (flat C es) h.free mb.tail e h.packed
          (omega (arith, h.tail, length-flat C es)) (omega (arith, h.whole)) in
      let behind : List ℕ = drop (C.size e) h.free in
      let new : List ℕ = flat C es ++ (C.marshal e ++ behind) in
      (
        record {
          offsets = mb.offsets ++ (mb.tail % 2 ^ 32 ∷ []);
          contents = new;
          tail = mb.tail + C.size e;
        },
        rw written refl,
        record {
          count = omega (
            arith,
            h.count,
            length-append mb.offsets (mb.tail % 2 ^ 32 ∷ []),
            length-append es (e ∷ []),
          );
          marks =
              ap (λ n. (mb.offsets ++ (mb.tail % 2 ^ 32 ∷ [])) ++ (n ∷ [])) (omega (arith, h.tail))
              ∙ ap (λ t. t ++ ((0 + sizes C es + C.size e) ∷ [])) h.marks
              ∙ ap (λ t. 0 ∷ t) (sym (ends-append 0 es e));
          tail = omega (arith, h.tail, sizes-append C es (e ∷ []));
          free = behind;
          packed =
              sym (append_assoc (flat C es) (C.marshal e) behind)
              ∙ ap (λ t. t ++ behind) (sym (flat_snoc es e));
          whole = omega (
            arith,
            length-append (flat C es) (C.marshal e ++ behind),
            length-append (C.marshal e) behind,
            C.length-marshal e,
            length-flat C es,
            length-drop (C.size e) h.free (omega (arith, length-flat C es, h.tail)),
          );
          room = omega (arith, h.tail, sizes-append C es (e ∷ []));
          few = omega (arith, length-append es (e ∷ []));
          small = All-append _ es (e ∷ []) h.small (small, tt);
        },
      )

  -- The block of a mixed block that is not empty.
  pub to_block-Packs :
      (mb : MixedBlock) (es : List LogEntry) → IsFilled mb es → Packs C (to_block C mb) es
  unfolding to_block
  to_block-Packs mb es h =
      let offsets : List ℕ = mb.offsets ++ (mb.tail % 2 ^ 32 ∷ []) in
      record {
        block = record {
          aligned = unfold align in refl;
          sized = h.whole;
          word = omega arith;
          summed = refl;
          fits = header_fields-le (to_block C mb) (omega arith) (
              omega (
                arith,
                C.length-marshal_offsets offsets,
                ap varint_sizes h.marks,
                size_varint-le 0,
                varint_sizes-ends 0 es (omega (arith, h.room)),
                h.few,
              ));
        };
        offsets = C.unmarshal_offsets-marshal_offsets offsets ∙ ap some h.marks;
        back = h.free;
        packed = h.packed;
        uniform = inl h.small;
      }
