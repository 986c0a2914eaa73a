-- ===== src/Log/Chunks.antt =====
-- Blocks with the entries that they hold.
use autumn.Prelude.{◌≡◌, refl, sym, ap, ◌∙◌, List, [], ◌∷◌, ◌++◌, append_assoc, All}
use autumn.Extent.Block.{Block}
use autumn.Extent.Block.RoundTrip.{IsBlock}
use autumn.Log.{LogEntry, Codec}
use autumn.Log.Extraction.{Packs}

module _ (C : Codec) where
  pub record Chunk : Type 0 where
    pub block : Block
    pub entries : List LogEntry
    pub packs : Packs C block entries

  abbrev pub blocks_of : List Chunk → List Block
  blocks_of [] = []
  blocks_of (c ∷ cs) = c.block ∷ blocks_of cs

  abbrev pub entries_in : List Chunk → List LogEntry
  entries_in [] = []
  entries_in (c ∷ cs) = c.entries ++ entries_in cs

  pub blocks_of-append : (xs ys : List Chunk) → blocks_of (xs ++ ys) ≡ blocks_of xs ++ blocks_of ys
  blocks_of-append [] ys = refl
  blocks_of-append (x ∷ xs) ys = ap (λ t. x.block ∷ t) (blocks_of-append xs ys)

  pub entries_in-append :
      (xs ys : List Chunk) → entries_in (xs ++ ys) ≡ entries_in xs ++ entries_in ys
  entries_in-append [] ys = refl
  entries_in-append (x ∷ xs) ys =
      ap (λ t. x.entries ++ t) (entries_in-append xs ys)
      ∙ sym (append_assoc x.entries (entries_in xs) (entries_in ys))

  pub blocks_of-IsBlock : (cs : List Chunk) → All IsBlock (blocks_of cs)
  blocks_of-IsBlock [] = tt
  blocks_of-IsBlock (c ∷ cs) = (c.packs.block, blocks_of-IsBlock cs)
