-- ===== src/RangePartition/Versions/Readable.antt =====
-- What a read of a key finds, at versions that no entry exceeds, and behind a new entry of the key.
use autumn.Prelude.{
  ℕ, ◌^◌, ◌≤◌, ◌<◌, ◌≡◌, refl, sym, ap, ◌∙◌, true, ◌&&◌, Option, none, some, List, [], ◌∷◌, arith,
  All, length, leb, ◌==◌, ==_refl, le→leb, le→ltb, if◌then◌else◌,
}
use autumn.Extent.Header.{bytes_equal}
use autumn.RangePartition.Keys.{
  key_with_ts, parse_ts, parse_key, length-key_with_ts, parse_key-key_with_ts, same_key,
  same_key-key_with_ts, parse_ts-key_with_ts,
}
use autumn.RangePartition.Values.{ValueStruct}
use autumn.RangePartition.Versions.{
  Entry, Found, later, visible, latest, IsStamped, Within, latest-Within,
}

same_key-version :
    (key k : List ℕ) (s t : ℕ) → same_key (key_with_ts key s) k ≡ same_key (key_with_ts key t) k
unfolding same_key
same_key-version key k s t = (λ i.
    (length-key_with_ts key s ∙ sym (length-key_with_ts key t)) i == length k
    && bytes_equal ((parse_key-key_with_ts key s ∙ sym (parse_key-key_with_ts key t)) i)
        (parse_key k))

readable :
    (key : List ℕ) (v s : ℕ)
    → 0 < length key
    → v ≤ s
    → s < 2 ^ 64
    → leb v (parse_ts (key_with_ts key s)) ≡ true
readable key v s nonempty h small =
    ap (leb v) (parse_ts-key_with_ts key s nonempty small) ∙ le→leb v s h

-- A version that no entry exceeds: all that are later find the same.
visible-readable :
    (key : List ℕ) (bound s t : ℕ) (e : Entry)
    → 0 < length key
    → bound ≤ s
    → bound ≤ t
    → s < 2 ^ 64
    → t < 2 ^ 64
    → IsStamped bound e
    → visible (key_with_ts key s) e ≡ visible (key_with_ts key t) e
unfolding visible IsStamped
visible-readable key bound s t e nonempty hs ht hs' ht' stamped =
    let tests : (same_key (key_with_ts key s) e.key
          && leb (parse_ts e.key) (parse_ts (key_with_ts key s)))
        ≡ (same_key (key_with_ts key t) e.key
            && leb (parse_ts e.key) (parse_ts (key_with_ts key t))) =
      (λ i.
        same_key-version key e.key s t i
        && (readable key (parse_ts e.key) s nonempty (omega (arith, stamped.1)) hs'
              ∙ sym (readable key (parse_ts e.key) t nonempty (omega (arith, stamped.1)) ht'))
            i) in
    ap (λ b. if b then some (record { version = parse_ts e.key; vs = e.vs }) else none) tests

pub latest-readable :
    (key : List ℕ) (bound s t : ℕ) (es : List Entry)
    → 0 < length key
    → bound ≤ s
    → bound ≤ t
    → s < 2 ^ 64
    → t < 2 ^ 64
    → All (IsStamped bound) es
    → latest (key_with_ts key s) es ≡ latest (key_with_ts key t) es
unfolding latest
latest-readable key bound s t [] nonempty hs ht hs' ht' h = refl
latest-readable key bound s t (e ∷ es) nonempty hs ht hs' ht' (he, hes) = (λ i.
    later (visible-readable key bound s t e nonempty hs ht hs' ht' he i)
      (latest-readable key bound s t es nonempty hs ht hs' ht' hes i))

bytes_equal_refl : (bs : List ℕ) → bytes_equal bs bs ≡ true
unfolding bytes_equal
bytes_equal_refl [] = refl
bytes_equal_refl (b ∷ bs) = ground (arith, bytes_equal_refl bs)

later_stays :
    (bound : ℕ) (a : Found) (o : Option Found)
    → bound < a.version
    → Within bound o
    → later (some a) o ≡ some a
later_stays bound a none h w = refl
later_stays bound a (some b) h w =
    ap (λ t. if t then some b else some a) (le→ltb a.version b.version (omega arith))

-- The latest entry of a key is what a read at its version, or at a later one, finds.
pub latest-front :
    (key : List ℕ) (bound ts seq : ℕ) (v : ValueStruct) (es : List Entry)
    → 0 < length key
    → bound < ts
    → ts ≤ seq
    → seq < 2 ^ 64
    → All (IsStamped bound) es
    → latest (key_with_ts key seq) (record { key = key_with_ts key ts; vs = v } ∷ es)
      ≡ some (record { version = ts; vs = v })
unfolding latest visible
latest-front key bound ts seq v es nonempty late known small stamped =
    let q = key_with_ts key seq in
    let k = key_with_ts key ts in
    let own : parse_ts k ≡ ts = parse_ts-key_with_ts key ts nonempty (omega arith) in
    let alike : same_key q k ≡ true =
      same_key-key_with_ts key key seq ts
      ∙ (λ i. ==_refl (length key) i && bytes_equal_refl key i) in
    let tests : (same_key q k && leb (parse_ts k) (parse_ts q)) ≡ true =
      (λ i. alike i && leb (own i) (parse_ts q)) ∙ readable key ts seq nonempty known small in
    (λ i. later (if tests i then some (record { version = own i; vs = v }) else none) (latest q es))
    ∙ later_stays bound (record { version = ts; vs = v }) (latest q es) late
        (latest-Within bound q es stamped)
