-- ===== src/RangePartition/Values.antt =====
-- rangepartition/y/iterator.go, `ValueStruct`, the flags of y.go, and `valuePointer` of
-- range_rangepartition.go.
pub mod Codec
use autumn.Prelude.{
  ℕ, zero, suc, ◌+◌, ◌*◌, ◌/◌, ◌%◌, ◌^◌, Bool, not, ◌&&◌, List, [], ◌∷◌, ◌++◌, leb, ltb, ◌==◌,
  if◌then◌else◌, length, take, drop,
}
use autumn.Prelude.Outcome.{Outcome, ok, panic}
use autumn.Prelude.Uvarint.{put_uvarint, uvarint, Uvarint, value, overflow}

pub record ValueStruct : Type 0 where
  pub meta : ℕ
  pub user_meta : ℕ
  pub expires_at : ℕ
  pub contents : List ℕ

-- `Write` and `EncodeTo`, and what `Encode` puts into its buffer.
unfoldable pub encode : ValueStruct → List ℕ
encode v = v.meta ∷ v.user_meta ∷ put_uvarint v.expires_at ++ v.contents

-- utils.SizeVarint: a uint64 has ten groups at most.
unfoldable pub size_loop : ℕ → ℕ → ℕ
size_loop zero x = 1
size_loop (suc fuel) x =
    let more = size_loop fuel (x / 2 ^ 7) in if x / 2 ^ 7 == 0 then 1 else suc more

unfoldable pub size_varint : ℕ → ℕ
unfolding size_loop
size_varint x = size_loop 9 x

unfoldable pub encoded_size : ValueStruct → ℕ
unfolding size_varint
encoded_size v = (length v.contents + 2 + size_varint v.expires_at) % 2 ^ 32

-- `Decode`. An overflow of Uvarint, of ten bytes at least, makes the index negative.
abbrev pub decode_rest : ℕ → ℕ → List ℕ → Uvarint → Outcome ValueStruct
decode_rest meta user_meta b (overflow n) = panic
decode_rest meta user_meta b (value expires_at n) =
    ok (record { meta = meta; user_meta = user_meta; expires_at = expires_at; contents = drop n b })

unfoldable pub decode : List ℕ → Outcome ValueStruct
decode (meta ∷ user_meta ∷ b) = decode_rest meta user_meta b (uvarint b)
decode _ = panic

-- `meta & BitDelete > 0` and `meta & BitValuePointer > 0`, and the byte with the second bit set.
abbrev pub bit_delete : ℕ
bit_delete = 1

abbrev pub is_deleted : ℕ → Bool
is_deleted meta = meta % 2 == 1

abbrev pub is_value_pointer : ℕ → Bool
is_value_pointer meta = meta / 2 % 2 == 1

abbrev pub set_value_pointer : ℕ → ℕ
set_value_pointer meta = if is_value_pointer meta then meta else meta + 2

-- `expiresAt <= uint64(time.Now().Unix())`
unfoldable pub is_deleted_or_expired : ℕ → ℕ → ℕ → Bool
is_deleted_or_expired now meta expires_at =
    if is_deleted meta
    then Bool.true
    else if expires_at == 0
    then Bool.false
    else leb expires_at now

pub record ValuePointer : Type 0 where
  pub extent_id : ℕ
  pub offset : ℕ
  pub len : ℕ

-- A word of n bytes in the order of the machine's memory, the lowest byte first.
abbrev pub put_little : ℕ → ℕ → List ℕ
put_little zero v = []
put_little (suc n) v = v % 256 ∷ put_little n (v / 256)

abbrev pub little : List ℕ → ℕ
little [] = 0
little (b ∷ bs) = b + 256 * little bs

-- `Encode` copies the struct, of a uint64 and two uint32, as it lies in memory.
unfoldable pub encode_pointer : ValuePointer → List ℕ
encode_pointer p = put_little 8 p.extent_id ++ (put_little 4 p.offset ++ put_little 4 p.len)

-- `Decode`: the slice of fewer than 16 bytes panics.
unfoldable pub decode_pointer : List ℕ → Outcome ValuePointer
decode_pointer b =
    if ltb (length b) 16
    then panic
    else ok (record {
      extent_id = little (take 8 b);
      offset = little (take 4 (drop 8 b));
      len = little (take 4 (drop 12 b));
    })
