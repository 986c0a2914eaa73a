-- ===== src/RangePartition/Keys/Order.antt =====
-- rangepartition/y/y.go, `CompareKeys`: the order in which memtables and tables hold their keys.
use Prim.Native.Nat.{compare, Ordering}
use autumn.Prelude.{
  ℕ, ◌-◌, ◌/◌, ◌%◌, ◌^◌, ◌<◌, ◌≡◌, refl, sym, ap, ◌∙◌, List, [], ◌∷◌, ◌++◌, arith, length, drop,
  drop-append,
}
use autumn.Prelude.Bytes.{put_uint32, put_uint64}
use autumn.RangePartition.Keys.{key_with_ts, parse_key, length-key_with_ts, parse_key-key_with_ts}

-- The first difference decides.
abbrev pub or_then : Ordering → Ordering → Ordering
or_then Ordering.lt o = Ordering.lt
or_then Ordering.eq o = o
or_then Ordering.gt o = Ordering.gt

-- bytes.Compare
unfoldable pub bytes_compare : List ℕ → List ℕ → Ordering
bytes_compare [] [] = Ordering.eq
bytes_compare [] (y ∷ ys) = Ordering.lt
bytes_compare (x ∷ xs) [] = Ordering.gt
bytes_compare (x ∷ xs) (y ∷ ys) = or_then (compare x y) (bytes_compare xs ys)

unfoldable pub compare_keys : List ℕ → List ℕ → Ordering
unfolding bytes_compare parse_key
compare_keys a b =
    or_then (bytes_compare (parse_key a) (parse_key b))
      (bytes_compare (drop (length a - 8) a) (drop (length b - 8) b))

or_then_assoc : (a b c : Ordering) → or_then (or_then a b) c ≡ or_then a (or_then b c)
or_then_assoc Ordering.lt b c = refl
or_then_assoc Ordering.eq b c = refl
or_then_assoc Ordering.gt b c = refl

or_then-eq : (a : Ordering) → or_then a Ordering.eq ≡ a
or_then-eq Ordering.lt = refl
or_then-eq Ordering.eq = refl
or_then-eq Ordering.gt = refl

-- Two numbers compare like their quotients, and then like their remainders.
compare_byte :
    (v w : ℕ) → or_then (compare (v / 256) (w / 256)) (compare (v % 256) (w % 256)) ≡ compare v w
compare_byte v w = ground arith

carry :
    (v w v' w' : ℕ) (o : Ordering)
    → v' ≡ v / 256
    → w' ≡ w / 256
    → or_then (compare v' w') (or_then (compare (v % 256) (w % 256)) o) ≡ or_then (compare v w) o
carry v w v' w' o hv hw =
    (λ i. or_then (compare (hv i) (hw i)) (or_then (compare (v % 256) (w % 256)) o))
    ∙ sym (or_then_assoc (compare (v / 256) (w / 256)) (compare (v % 256) (w % 256)) o)
    ∙ ap (λ c. or_then c o) (compare_byte v w)

compare_word :
    (v w : ℕ)
    → or_then (compare (v / 2 ^ 32) (w / 2 ^ 32)) (compare (v % 2 ^ 32) (w % 2 ^ 32)) ≡ compare v w
compare_word v w = ground arith

bytes_compare-append :
    (xs ys zs ws : List ℕ)
    → length xs ≡ length ys
    → bytes_compare (xs ++ zs) (ys ++ ws) ≡ or_then (bytes_compare xs ys) (bytes_compare zs ws)
unfolding bytes_compare
bytes_compare-append [] [] zs ws h = refl
bytes_compare-append [] (y ∷ ys) zs ws h = absurd (omega arith)
bytes_compare-append (x ∷ xs) [] zs ws h = absurd (omega arith)
bytes_compare-append (x ∷ xs) (y ∷ ys) zs ws h =
    ap (or_then (compare x y)) (bytes_compare-append xs ys zs ws (omega arith))
    ∙ sym (or_then_assoc (compare x y) (bytes_compare xs ys) (bytes_compare zs ws))

bytes_compare-put_uint32 :
    (v w : ℕ) → v < 2 ^ 32 → w < 2 ^ 32 → bytes_compare (put_uint32 v) (put_uint32 w) ≡ compare v w
unfolding bytes_compare put_uint32
bytes_compare-put_uint32 v w hv hw =
    let low : Ordering = or_then (compare (v % 256) (w % 256)) Ordering.eq in
    carry (v / 2 ^ 16) (w / 2 ^ 16) (v / 2 ^ 24 % 256) (w / 2 ^ 24 % 256)
      (or_then (compare (v / 2 ^ 8 % 256) (w / 2 ^ 8 % 256)) low) (omega arith) (omega arith)
    ∙ carry (v / 2 ^ 8) (w / 2 ^ 8) (v / 2 ^ 16) (w / 2 ^ 16) low (omega arith) (omega arith)
    ∙ carry v w (v / 2 ^ 8) (w / 2 ^ 8) Ordering.eq (omega arith) (omega arith)
    ∙ or_then-eq (compare v w)

bytes_compare-put_uint64 :
    (v w : ℕ) → v < 2 ^ 64 → w < 2 ^ 64 → bytes_compare (put_uint64 v) (put_uint64 w) ≡ compare v w
unfolding put_uint64
bytes_compare-put_uint64 v w hv hw =
    bytes_compare-append (put_uint32 (v / 2 ^ 32)) (put_uint32 (w / 2 ^ 32))
      (put_uint32 (v % 2 ^ 32)) (put_uint32 (w % 2 ^ 32)) (unfold put_uint32 in refl)
    ∙ (λ i.
        or_then (bytes_compare-put_uint32 (v / 2 ^ 32) (w / 2 ^ 32) (omega arith) (omega arith) i)
          (bytes_compare-put_uint32 (v % 2 ^ 32) (w % 2 ^ 32) (omega arith) (omega arith) i))
    ∙ compare_word v w

compare_complement :
    (s t : ℕ) → s < 2 ^ 64 → t < 2 ^ 64 → compare (2 ^ 64 - 1 - s) (2 ^ 64 - 1 - t) ≡ compare t s
compare_complement s t hs ht = ground arith

version_bytes :
    (key : List ℕ) (ts : ℕ)
    → drop (length (key_with_ts key ts) - 8) (key_with_ts key ts) ≡ put_uint64 (2 ^ 64 - 1 - ts)
version_bytes key ts =
    let n = length-key_with_ts key ts in
    unfold key_with_ts in drop-append key (put_uint64 (2 ^ 64 - 1 - ts)) _ (omega (arith, n))

-- `CompareKeys` orders internal keys by their user keys, and the versions below 2^64 of one user key
-- from the latest to the oldest.
pub compare_keys-key_with_ts :
    (j k : List ℕ) (s t : ℕ)
    → s < 2 ^ 64
    → t < 2 ^ 64
    → compare_keys (key_with_ts j s) (key_with_ts k t) ≡ or_then (bytes_compare j k) (compare t s)
unfolding compare_keys
compare_keys-key_with_ts j k s t hs ht =
    (λ i.
      or_then (bytes_compare (parse_key-key_with_ts j s i) (parse_key-key_with_ts k t i))
        (bytes_compare (version_bytes j s i) (version_bytes k t i)))
    ∙ ap (or_then (bytes_compare j k)) (
        bytes_compare-put_uint64 (2 ^ 64 - 1 - s) (2 ^ 64 - 1 - t) (omega arith) (omega arith)
        ∙ compare_complement s t hs ht)
