-- ===== src/StreamClient/Blocks/Own.antt =====
-- Entries with blocks of their own.
use autumn.Prelude.{
  ℕ, ◌+◌, ◌%◌, ◌^◌, ◌≤◌, ◌<◌, ◌≡◌, refl, sym, ap, ◌∙◌, true, some, List, [], ◌∷◌, ◌++◌, arith,
  append-nil, map, length-append, length-replicate, length-drop, replicate, drop, All, inr,
}
use autumn.Prelude.Outcome.{ok}
use autumn.Extent.Block.{Block, align}
use autumn.Extent.Checksum.{adler_check_sum}
use autumn.Log.{LogEntry, Codec, bare, should_write_value_to_lsm, extract_log_entry}
use autumn.Log.Extraction.{Packs, extract_log_entry-Packs}
use autumn.Log.Chunks.{Chunk, blocks_of, entries_in}
use autumn.StreamClient.Blocks.{ceil, own_block, own_blocks}
use autumn.StreamClient.Blocks.Filling.{header_fields-le, marshal_to-free, size_varint-le}

ceil_bounds :
    (n : ℕ)
    → 0 < n
    → n + 511 < 2 ^ 32
    → (n ≤ ceil (n % 2 ^ 32) 512)
      × (ceil (n % 2 ^ 32) 512 % 512 ≡ 0)
      × (ceil (n % 2 ^ 32) 512 < 2 ^ 32)
unfolding ceil
ceil_bounds n positive word = (omega arith, omega arith, omega arith)

module _ (C : Codec) where
  -- An entry that is not empty, that a block of 4096 bytes has room for if it is small, and whose
  -- rounded size fits 32 bits.
  pub record IsWritable (e : LogEntry) : Type 0 where
    pub small : should_write_value_to_lsm e ≡ true → C.size e ≤ 4096
    pub positive : 0 < C.size e
    pub word : C.size e + 511 < 2 ^ 32

  own_block-Packs :
      (e : LogEntry) → IsWritable e → (b : Block) × (own_block C e ≡ ok b) × Packs C b (e ∷ [])
  unfolding own_block
  own_block-Packs e w =
      let len : ℕ = ceil (C.size e % 2 ^ 32) 512 in
      let (enough, whole, word) = ceil_bounds (C.size e) w.positive w.word in
      let zeros : List ℕ = replicate len 0 in
      let written =
        marshal_to-free C zeros [] zeros 0 e refl refl
          (omega (arith, enough, length-replicate {A = ℕ} len 0)) in
      let back : List ℕ = drop (C.size e) zeros in
      (
        record {
          check_sum = adler_check_sum (C.marshal e ++ back);
          block_length = len;
          contents = C.marshal e ++ back;
          user_data = C.marshal_offsets (0 ∷ C.size e % 2 ^ 32 ∷ []);
        },
        rw written refl,
        record {
          block = record {
            aligned = unfold align in ground (arith, enough, w.positive, whole);
            sized = omega (
              arith,
              length-append (C.marshal e) back,
              C.length-marshal e,
              length-drop (C.size e) zeros (omega (arith, enough, length-replicate {A = ℕ} len 0)),
              length-replicate {A = ℕ} len 0,
            );
            word = word;
            summed = refl;
            fits = header_fields-le _ word (
                omega (
                  arith,
                  C.length-marshal_offsets (0 ∷ C.size e % 2 ^ 32 ∷ []),
                  size_varint-le 0,
                  size_varint-le (C.size e % 2 ^ 32),
                ));
          };
          offsets =
              C.unmarshal_offsets-marshal_offsets (0 ∷ C.size e % 2 ^ 32 ∷ [])
              ∙ ap (λ n. some (0 ∷ n ∷ [])) (omega (arith, w.word));
          back = back;
          packed = ap (λ t. t ++ back) (sym (append-nil (C.marshal e)));
          uniform = inr refl;
        },
      )

  -- One block for each entry.
  pub record AreOwn (bs : List Block) (es : List LogEntry) : Type 0 where
    pub chunks : List (Chunk C)
    pub blocks : bs ≡ blocks_of C chunks
    pub entries : entries_in C chunks ≡ es
    pub own : map (extract_log_entry C) bs ≡ map (λ e. ok (bare e ∷ [])) es

  pub own_blocks-AreOwn :
      (es : List LogEntry)
      → All IsWritable es
      → (bs : List Block) × (own_blocks C es ≡ ok bs) × AreOwn bs es
  unfolding own_blocks
  own_blocks-AreOwn [] w =
      ([], refl, record { chunks = []; blocks = refl; entries = refl; own = refl })
  own_blocks-AreOwn (e ∷ es) (we, w) =
      let (b, made, packs) = own_block-Packs e we in
      let (bs, run, a) = own_blocks-AreOwn es w in
      (
        b ∷ bs,
        rw (made, run) refl,
        record {
          chunks = record { block = b; entries = e ∷ []; packs = packs } ∷ a.chunks;
          blocks = ap (λ t. b ∷ t) a.blocks;
          entries = ap (λ t. e ∷ t) a.entries;
          own = rw (extract_log_entry-Packs C b (e ∷ []) packs, a.own) refl;
        },
      )
