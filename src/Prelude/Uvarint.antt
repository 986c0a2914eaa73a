-- ===== src/Prelude/Uvarint.antt =====
-- encoding/binary: PutUvarint and Uvarint on uint64.
use Prim.Native.Nat.{ℕ, zero, suc, ◌+◌, ◌*◌, ◌/◌, ◌%◌, ◌^◌, ◌≤◌, ◌<◌}
use mathlib.Core.Path.{◌≡◌, subst, ap, ◌∙◌}
use mathlib.Core.Bool.{◌&&◌, ◌||◌}
use mathlib.Core.List.{List, [], ◌∷◌, ◌++◌}
use native.Mathlib.Omega.{arith}
use native.Mathlib.Nat.{div-add-mod}
use native.Mathlib.Numerals.{towards_suc}
use autumn.Prelude.Tests.{ltb, leb, if◌then◌else◌}
use autumn.Prelude.Lists.{length}

-- `groups k v` writes at most k + 1 groups of seven bits, the lowest first.
unfoldable pub groups : ℕ → ℕ → List ℕ
groups zero v = v ∷ []
groups (suc k) v =
    let more = groups k (v / 128) in if ltb v 128 then v ∷ [] else (v % 128 + 128) ∷ more

-- A uint64 has ten groups at most.
unfoldable pub put_uvarint : ℕ → List ℕ
unfolding groups
put_uvarint = groups 9

-- Go returns (x, n): n > 0 bytes read, (0, 0) for a buffer that ends too early, and n < 0 for an
-- overflow after -n bytes.
pub data Uvarint : Type 0 where
  value : ℕ → ℕ → Uvarint
  overflow : ℕ → Uvarint

-- `x |= uint64(b&0x7f) << s`: the bits are disjoint, so the sum is the disjunction.
abbrev pub add_group : ℕ → ℕ → ℕ → ℕ
add_group x b s = (x + b % 128 * 2 ^ s) % 2 ^ 64

-- `i` bytes were read, and the next one is shifted by `s`.
unfoldable pub uvarint_loop : List ℕ → ℕ → ℕ → ℕ → Uvarint
uvarint_loop [] i s x = value 0 0
uvarint_loop (b ∷ bs) i s x =
    let more = uvarint_loop bs (i + 1) (s + 7) (add_group x b s) in
    if ltb b 128
    then (if ltb 9 i || (leb 9 i && ltb 1 b)
        then overflow (i + 1)
        else value (add_group x b s) (i + 1))
    else more

unfoldable pub uvarint : List ℕ → Uvarint
unfolding uvarint_loop
uvarint bs = uvarint_loop bs 0 0 0

-- A tenth byte holds one bit.
tenth_byte : (v i x : ℕ) → x + v * 2 ^ (7 * i) < 2 ^ 64 → i ≡ 9 → v ≤ 1
tenth_byte v i x h e =
    let h' : x + v * 2 ^ (7 * 9) < 2 ^ 64 = subst (λ k. x + v * 2 ^ (7 * k) < 2 ^ 64) e h in
    omega arith

last_group :
    (v i x : ℕ) (rest : List ℕ)
    → v < 128
    → i ≤ 9
    → x + v * 2 ^ (7 * i) < 2 ^ 64
    → uvarint_loop (v ∷ rest) i (7 * i) x ≡ value (x + v * 2 ^ (7 * i)) (i + 1)
unfolding uvarint_loop
last_group v i x rest hv hi fits = ground (arith, tenth_byte v i x fits)

inner_group :
    (v i x : ℕ) (rest : List ℕ)
    → v < 128
    → x + v * 2 ^ (7 * i) < 2 ^ 64
    → uvarint_loop ((v + 128) ∷ rest) i (7 * i) x
      ≡ uvarint_loop rest (i + 1) (7 * (i + 1)) (x + v * 2 ^ (7 * i))
unfolding uvarint_loop
inner_group v i x rest hv fits = ground arith

next_power : (i : ℕ) → 2 ^ (7 * (i + 1)) ≡ 128 * 2 ^ (7 * i)
next_power i =
    let e : 7 * (i + 1) ≡ 7 * i + 7 = omega arith in
    ap (λ k. 2 ^ k) e ∙ simp towards_suc (omega arith)

split_group : (v i : ℕ) → v * 2 ^ (7 * i) ≡ v % 128 * 2 ^ (7 * i) + v / 128 * 2 ^ (7 * (i + 1))
split_group v i =
    omega
      (arith, ap (λ t. t * 2 ^ (7 * i)) (div-add-mod v 128), ap (λ t. v / 128 * t) (next_power i))

-- `v` is what is left to read, and `x` what was read.
uvarint_loop-groups :
    (k v i x : ℕ) (rest : List ℕ)
    → v < 128 ^ suc k
    → i + k ≤ 9
    → x + v * 2 ^ (7 * i) < 2 ^ 64
    → uvarint_loop (groups k v ++ rest) i (7 * i) x
      ≡ value (x + v * 2 ^ (7 * i)) (i + length (groups k v))
unfolding groups
uvarint_loop-groups zero v i x rest hv hi fits = last_group v i x rest hv (omega arith) fits
uvarint_loop-groups (suc k) v i x rest hv hi fits = ground (
  arith,
  last_group v i x rest,
  split_group v i,
  inner_group (v % 128) i x (groups k (v / 128) ++ rest),
  uvarint_loop-groups k (v / 128) (i + 1) (x + v % 128 * 2 ^ (7 * i)) rest (omega arith),
)

-- Uvarint reads back the uint64 that PutUvarint wrote, and says how many bytes that took.
pub uvarint-put_uvarint :
    (v : ℕ) (rest : List ℕ)
    → v < 2 ^ 64
    → uvarint (put_uvarint v ++ rest) ≡ value v (length (put_uvarint v))
unfolding uvarint put_uvarint
uvarint-put_uvarint v rest h = ground (arith, uvarint_loop-groups 9 v 0 0 rest (omega arith))

length-groups : (k v n : ℕ) → v < 128 ^ suc n → n ≤ k → length (groups k v) ≤ n + 1
unfolding groups
length-groups zero v n hv hn = omega arith
length-groups (suc k) v zero hv hn = ground arith
length-groups (suc k) v (suc n) hv hn =
    ground (arith, length-groups k (v / 128) n (omega arith) (omega arith))

-- A uint32 takes five bytes at most.
pub length-put_uvarint : (v : ℕ) → v < 2 ^ 32 → length (put_uvarint v) ≤ 5
unfolding put_uvarint
length-put_uvarint v h = length-groups 9 v 4 (omega arith) (omega arith)
