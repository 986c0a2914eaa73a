-- ===== src/RangePartition/Values/Codec.antt =====
-- Values and value pointers, written and read back.
use autumn.Prelude.{
  ℕ, zero, suc, ◌+◌, ◌/◌, ◌^◌, ◌<◌, ◌≡◌, refl, ap, ◌∙◌, List, ◌∷◌, ◌++◌, arith, length,
  length-append, drop-append,
}
use autumn.Prelude.Outcome.{ok}
use autumn.Prelude.Uvarint.{groups, put_uvarint, uvarint-put_uvarint}
use autumn.RangePartition.Values.{
  ValueStruct, ValuePointer, encode, decode, decode_rest, encoded_size, size_loop, size_varint,
  encode_pointer, decode_pointer,
}

-- `Decode` reads back a value that was encoded, if its expiry fits 64 bits.
pub decode-encode : (v : ValueStruct) → v.expires_at < 2 ^ 64 → decode (encode v) ≡ ok v
unfolding decode encode
decode-encode v h =
    ap (decode_rest v.meta v.user_meta (put_uvarint v.expires_at ++ v.contents))
      (uvarint-put_uvarint v.expires_at v.contents h)
    ∙ ap (λ c. ok (record v { contents = c }))
        (drop-append (put_uvarint v.expires_at) v.contents _ refl)

size_loop-groups : (fuel x : ℕ) → size_loop fuel x ≡ length (groups fuel x)
unfolding size_loop groups
size_loop-groups zero x = refl
size_loop-groups (suc fuel) x = ground (arith, size_loop-groups fuel (x / 2 ^ 7))

-- `EncodedSize` is the number of bytes that the encoding has, if that fits 32 bits.
pub encoded_size-encode :
    (v : ValueStruct) → length (encode v) < 2 ^ 32 → encoded_size v ≡ length (encode v)
unfolding encoded_size encode size_varint
encoded_size-encode v h =
    let n : length (v.meta ∷ v.user_meta ∷ put_uvarint v.expires_at ++ v.contents)
        ≡ 2 + length (put_uvarint v.expires_at) + length v.contents =
      omega (arith, length-append (v.meta ∷ v.user_meta ∷ put_uvarint v.expires_at) v.contents) in
    let g : size_loop 9 v.expires_at ≡ length (put_uvarint v.expires_at) =
      unfold put_uvarint in size_loop-groups 9 v.expires_at in
    omega (arith, n, g)

pub decode_pointer-encode_pointer :
    (p : ValuePointer) (rest : List ℕ)
    → p.extent_id < 2 ^ 64
    → p.offset < 2 ^ 32
    → p.len < 2 ^ 32
    → decode_pointer (encode_pointer p ++ rest) ≡ ok p
unfolding decode_pointer encode_pointer
decode_pointer-encode_pointer p rest he ho hl = ground arith
