-- ===== src/Extent/File/Layout.antt =====
-- The contents of an extent file as the blocks that were appended to it.
use autumn.Prelude.{
  ℕ, ◌+◌, ◌^◌, ◌<◌, ◌≡◌, refl, sym, ap, ◌∙◌, List, [], ◌∷◌, ◌++◌, arith, append_assoc, length,
  length-append, All,
}
use autumn.Extent.Block.{Block}
use autumn.Extent.Block.RoundTrip.{IsBlock, encoded, length-encoded}
use autumn.Extent.Header.{marshal, length-marshal}
use autumn.Extent.File.{Extent}

-- The bytes of blocks in a row.
abbrev pub encodings : List Block → List ℕ
encodings [] = []
encodings (b ∷ bs) = encoded b ++ encodings bs

-- Their length, header included, without wrap-around.
abbrev pub total : List Block → ℕ
total [] = 0
total (b ∷ bs) = 512 + b.block_length + total bs

pub total-append : (xs ys : List Block) → total (xs ++ ys) ≡ total xs + total ys
total-append [] ys = omega arith
total-append (x ∷ xs) ys = omega (arith, total-append xs ys)

pub length-encodings : (bs : List Block) → All IsBlock bs → length (encodings bs) ≡ total bs
length-encodings [] h = refl
length-encodings (b ∷ bs) (h, hs) =
    omega
      (arith, length-append (encoded b) (encodings bs), length-encoded b h, length-encodings bs hs)

pub encodings-append : (xs ys : List Block) → encodings (xs ++ ys) ≡ encodings xs ++ encodings ys
encodings-append [] ys = refl
encodings-append (x ∷ xs) ys =
    ap (λ t. encoded x ++ t) (encodings-append xs ys)
    ∙ sym (append_assoc (encoded x) (encodings xs) (encodings ys))

-- An open extent whose file holds exactly these blocks behind the header, and whose commit length
-- is the length of the file.
pub record Holds (ex : Extent) (bs : List Block) : Type 0 where
  pub blocks : All IsBlock bs
  pub bytes : ex.file.bytes ≡ marshal ex.id ++ encodings bs
  pub commit : ex.commit_length ≡ 512 + total bs
  pub small : 512 + total bs < 2 ^ 32

pub Holds-length :
    (ex : Extent) (bs : List Block) → Holds ex bs → length ex.file.bytes ≡ 512 + total bs
Holds-length ex bs h = omega (
  arith,
  ap (λ (t : List ℕ). length t) h.bytes,
  length-append (marshal ex.id) (encodings bs),
  length-marshal ex.id,
  length-encodings bs h.blocks,
)
