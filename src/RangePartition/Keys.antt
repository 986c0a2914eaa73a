-- ===== src/RangePartition/Keys.antt =====
-- rangepartition/y/y.go: internal keys, a user key with the complement of its version behind it.
pub mod Order
use autumn.Prelude.{
  ℕ, ◌+◌, ◌-◌, ◌^◌, ◌≤◌, ◌<◌, ◌≡◌, refl, sym, ap, ◌∙◌, Bool, true, false, ◌&&◌, List, [], ◌∷◌, ◌++◌,
  arith, leb, ◌==◌, if◌then◌else◌, length, take, drop, length-append, take-append, drop-append,
  append-nil,
}
use autumn.Prelude.Bytes.{put_uint32, put_uint64, uint32, uint64, uint64-put_uint64}
use autumn.Extent.Header.{bytes_equal}

unfoldable pub key_with_ts : List ℕ → ℕ → List ℕ
key_with_ts key ts = key ++ put_uint64 (2 ^ 64 - 1 - ts)

-- Every key has the eight bytes of `KeyWithTs`; the slice of a shorter one would panic.
unfoldable pub parse_key : List ℕ → List ℕ
parse_key key = take (length key - 8) key

unfoldable pub parse_ts : List ℕ → ℕ
parse_ts key = if leb (length key) 8 then 0 else 2 ^ 64 - 1 - uint64 (drop (length key - 8) key)

unfoldable pub same_key : List ℕ → List ℕ → Bool
unfolding parse_key
same_key src dst = length src == length dst && bytes_equal (parse_key src) (parse_key dst)

length-put_uint64 : (v : ℕ) → length (put_uint64 v) ≡ 8
unfolding put_uint64 put_uint32
length-put_uint64 v = refl

pub length-key_with_ts : (key : List ℕ) (ts : ℕ) → length (key_with_ts key ts) ≡ length key + 8
unfolding key_with_ts
length-key_with_ts key ts =
    omega
      (arith, length-append key (put_uint64 (2 ^ 64 - 1 - ts)), length-put_uint64 (2 ^ 64 - 1 - ts))

pub parse_key-key_with_ts : (key : List ℕ) (ts : ℕ) → parse_key (key_with_ts key ts) ≡ key
unfolding parse_key
parse_key-key_with_ts key ts =
    unfold key_with_ts in
    take-append key (put_uint64 (2 ^ 64 - 1 - ts)) _ (omega (arith, length-key_with_ts key ts))

pub parse_ts-key_with_ts :
    (key : List ℕ) (ts : ℕ) → 0 < length key → ts < 2 ^ 64 → parse_ts (key_with_ts key ts) ≡ ts
unfolding parse_ts
parse_ts-key_with_ts key ts h small =
    let n = length-key_with_ts key ts in
    let code : ℕ = 2 ^ 64 - 1 - ts in
    let cut : drop (length (key_with_ts key ts) - 8) (key_with_ts key ts) ≡ put_uint64 code =
      unfold key_with_ts in drop-append key (put_uint64 code) _ (omega (arith, n)) in
    let back : uint64 (put_uint64 code) ≡ code =
      ap uint64 (sym (append-nil (put_uint64 code))) ∙ uint64-put_uint64 code [] (omega arith) in
    ground (arith, n, cut, back)

pub same_key-key_with_ts :
    (j k : List ℕ) (s t : ℕ)
    → same_key (key_with_ts j s) (key_with_ts k t) ≡ (length j == length k && bytes_equal j k)
unfolding same_key
same_key-key_with_ts j k s t = ground (
  arith,
  length-key_with_ts j s,
  length-key_with_ts k t,
  parse_key-key_with_ts j s,
  parse_key-key_with_ts k t,
)
