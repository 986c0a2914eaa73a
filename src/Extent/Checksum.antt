-- ===== src/Extent/Checksum.antt =====
-- utils.AdlerCheckSum: hash/adler32 over the whole block.
use autumn.Prelude.{ℕ, ◌+◌, ◌*◌, ◌%◌, ◌^◌, ◌<◌, List, [], ◌∷◌, arith}

-- The two running sums modulo 65521, packed into one word.
adler : List ℕ → ℕ → ℕ → ℕ
adler [] s1 s2 = s2 % 65521 * 2 ^ 16 + s1 % 65521
adler (b ∷ bs) s1 s2 = let s = (s1 + b) % 65521 in adler bs s ((s2 + s) % 65521)

unfoldable pub adler_check_sum : List ℕ → ℕ
unfolding adler
adler_check_sum bs = adler bs 1 0

adler-lt : (bs : List ℕ) (s1 s2 : ℕ) → adler bs s1 s2 < 2 ^ 32
unfolding adler
adler-lt [] s1 s2 = omega arith
adler-lt (b ∷ bs) s1 s2 = adler-lt bs _ _

pub adler_check_sum-lt : (bs : List ℕ) → adler_check_sum bs < 2 ^ 32
unfolding adler_check_sum
adler_check_sum-lt bs = adler-lt bs 1 0
