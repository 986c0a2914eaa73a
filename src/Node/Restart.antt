-- ===== src/Node/Restart.antt =====
-- What `LoadExtents` finds after a restart.
use autumn.Prelude.{
  ℕ, ◌+◌, ◌^◌, ◌<◌, ◌≡◌, refl, ap, ◌∙◌, false, Option, some, List, [], ◌∷◌, ◌++◌, arith, length,
  take, if◌then◌else◌, All, ◌==◌,
}
use autumn.Prelude.Assoc.{lookup-insert}
use autumn.Prelude.Outcome.{ok}
use autumn.Extent.Block.{Block}
use autumn.Extent.Block.RoundTrip.{IsBlock, encoded}
use autumn.Extent.Header.{marshal}
use autumn.Extent.File.{DiskFile, Extent}
use autumn.Extent.File.Layout.{encodings, total}
use autumn.Extent.File.Recovery.{reopened, open_extent-torn}
use autumn.Node.{ExtentNode, get_extent, set_extent, load_extents}

-- An extent at a crash: its ID, the blocks that were written whole, the block that was being
-- written, and how much of that is in the file.
pub record Crashed : Type 0 where
  pub id : ℕ
  pub whole : List Block
  pub torn : Block
  pub written : ℕ

abbrev pub crashed_file : Crashed → DiskFile
crashed_file c = record {
  bytes = marshal c.id ++ (encodings c.whole ++ take c.written (encoded c.torn));
  seal_attr = false;
}

pub record IsCrashed (c : Crashed) : Type 0 where
  pub small_id : c.id < 2 ^ 64
  pub blocks : All IsBlock c.whole
  pub block : IsBlock c.torn
  pub partial : c.written < length (encoded c.torn)
  pub fits : 512 + total c.whole + c.written < 2 ^ 32

abbrev pub files : List Crashed → List DiskFile
files [] = []
files (c ∷ cs) = crashed_file c ∷ files cs

-- The last of the extents with an ID, as a restart opens it, or what there was before.
abbrev pub last_with : ℕ → List Crashed → Option Extent → Option Extent
last_with id [] before = before
last_with id (c ∷ cs) before =
    last_with id cs (if c.id == id then some (reopened c.id c.whole) else before)

-- After a crash in the middle of appends to any number of extents, `LoadExtents` finds each extent
-- again: under every ID the node has the extent of the last file with that ID, open, with the
-- blocks that were written whole and the torn block cut off, and under other IDs what it had
-- before. (IDs are below 2^64, and files shorter than 2^32 bytes.)
pub load_extents-files :
    (cs : List Crashed) (en : ExtentNode)
    → All IsCrashed cs
    → (en' : ExtentNode) × (load_extents (files cs) en ≡ some (ok en'))
      × ((id : ℕ) → get_extent en' id ≡ last_with id cs (get_extent en id))
unfolding load_extents
load_extents-files [] en h = (en, refl, λ id. refl)
load_extents-files (c ∷ cs) en (h, hs) =
    let opened =
      open_extent-torn c.id c.whole c.torn c.written h.small_id h.blocks h.block h.partial h.fits in
    let ex = reopened c.id c.whole in
    let (en', e, found) = load_extents-files cs (set_extent c.id ex en) hs in
    (
      en',
      ground (arith, opened, e),
      λ id.
          found id
          ∙ ap (last_with id cs)
              (unfold get_extent set_extent in lookup-insert c.id id ex en.extent_map),
    )
