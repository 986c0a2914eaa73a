-- ===== src/Extent/Header.antt =====
-- extent/extent.go: `extentHeader`, the first 512 bytes of an extent file.
use autumn.Prelude.{
  ℕ, ◌^◌, ◌<◌, ◌≡◌, refl, Bool, true, false, not, ◌&&◌, List, [], ◌∷◌, ◌++◌, arith, ◌==◌, length,
  take, drop,
}
use autumn.Prelude.Outcome.{Outcome, ok, failed, ◌>>=◌, ◌>>◌, fail_if}
use autumn.Prelude.Bytes.{put_uint32, put_uint64, uint64, uint64-put_uint64}
use autumn.Extent.Device.{read_full, read_full-append}
use autumn.Extent.Block.{pad512}

-- bytes.Compare(a, b) == 0
unfoldable pub bytes_equal : List ℕ → List ℕ → Bool
bytes_equal [] [] = true
bytes_equal (x ∷ xs) (y ∷ ys) = x == y && bytes_equal xs ys
bytes_equal _ _ = false

-- "EXTENTXX"
abbrev pub extent_magic_number : List ℕ
extent_magic_number = b'E' ∷ b'X' ∷ b'T' ∷ b'E' ∷ b'N' ∷ b'T' ∷ b'X' ∷ b'X' ∷ []

-- `Marshal`: the header of 512 bytes that is written for an ID.
unfoldable pub marshal : ℕ → List ℕ
marshal id = pad512 (extent_magic_number ++ put_uint64 id)

-- `Unmarshal`: the ID, and the bytes behind the header.
unfoldable pub unmarshal : List ℕ → Outcome (ℕ × List ℕ)
unmarshal bs = do
  (buf, rest) ← read_full 512 bs
  fail_if (not (bytes_equal (take 8 buf) extent_magic_number)) failed
  ok (uint64 (take 8 (drop 8 buf)), rest)

pub length-marshal : (id : ℕ) → length (marshal id) ≡ 512
unfolding marshal put_uint64 put_uint32
length-marshal id = refl

buf_fields :
    (id : ℕ)
    → id < 2 ^ 64
    → (bytes_equal (take 8 (marshal id)) extent_magic_number ≡ true)
      × (uint64 (take 8 (drop 8 (marshal id))) ≡ id)
unfolding marshal bytes_equal put_uint64 put_uint32
buf_fields id h = (refl, unfold put_uint64 put_uint32 in uint64-put_uint64 id [] h)

-- `Unmarshal` reads back the ID, below 2^64, that `Marshal` wrote, and leaves the blocks behind the header.
pub unmarshal-marshal :
    (id : ℕ) (rest : List ℕ) → id < 2 ^ 64 → unmarshal (marshal id ++ rest) ≡ ok (id, rest)
unfolding unmarshal
unmarshal-marshal id rest h = ground (
  arith,
  read_full-append 512 (marshal id) rest (omega (arith, length-marshal id)),
  buf_fields id h,
)
