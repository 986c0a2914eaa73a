-- ===== src/Extent/File/Appended.antt =====
-- `AppendBlocks` on an extent that holds blocks, on any device that reports its faults.
use autumn.Prelude.{
  ℕ, ◌+◌, ◌^◌, ◌<◌, ◌≡◌, refl, sym, ap, ◌∙◌, true, false, Bool-cases, Option, List, [], ◌++◌, inl,
  inr, arith, append_assoc, if◌then◌else◌, length-append, All, All-append,
}
use mathlib.Core.Path.{subst}
use autumn.Prelude.Outcome.{Outcome, ok, err, failed}
use autumn.Extent.Device.{truncate, truncate-append}
use autumn.Extent.Block.{Block}
use autumn.Extent.Block.RoundTrip.{IsBlock}
use autumn.Extent.Header.{marshal}
use autumn.Extent.File.{Extent, Disk, append_blocks, finish, commit_differs}
use autumn.Extent.File.Layout.{
  encodings, encodings-append, total, total-append, Holds, Holds-length, length-encodings,
}
use autumn.Extent.File.Append.{
  IsSized, HeadersIntact, accepted, all_accepted, accepted-IsBlock, total-accepted, accepted_all,
  offsets_from, loop_complete, loop_cut, append_blocks-loop,
}

-- The extent with the bytes and the commit length of more blocks holds these blocks too.
Holds-append :
    (ex : Extent) (old new : List Block) (bytes : List ℕ)
    → Holds ex old
    → All IsBlock new
    → 512 + total old + total new < 2 ^ 32
    → bytes ≡ ex.file.bytes ++ encodings new
    → Holds
        (record ex {
          commit_length = ex.commit_length + total new;
          file = record ex.file { bytes = bytes };
        })
        (old ++ new)
Holds-append ex old new bytes h hn fits e = record {
  blocks = All-append IsBlock old new h.blocks hn;
  bytes =
      e
      ∙ ap (λ t. t ++ encodings new) h.bytes
      ∙ append_assoc (marshal ex.id) (encodings old) (encodings new)
      ∙ ap (λ t. marshal ex.id ++ t) (sym (encodings-append old new));
  commit = omega (arith, h.commit, total-append old new);
  small = omega (arith, total-append old new);
}

module _ (ex : Extent) (old bs : List Block) (last_commit : Option ℕ) (disk : Disk)
    (h : Holds ex old) (open' : ex.is_seal ≡ false)
    (same : commit_differs last_commit ex.commit_length ≡ false) (sized : All IsSized bs)
    (intact : HeadersIntact disk) (fits : 512 + total old + total bs < 2 ^ 32) where
  room : ex.commit_length + total bs < 2 ^ 32
  room = omega (arith, h.commit)

  -- What the call leaves behind and returns, in terms of the blocks that were accepted.
  abbrev Result : Extent × Outcome (List ℕ) → Type 0
  Result (ex', r) =
      Holds ex' (old ++ accepted disk 0 bs)
      × (r ≡ (if all_accepted disk 0 bs then ok (offsets_from ex.commit_length bs) else err failed))

  all_taken : all_accepted disk 0 bs ≡ true → Result (append_blocks ex bs last_commit disk)
  all_taken a =
      let all = accepted_all disk 0 bs a in
      subst Result
        (sym (
          append_blocks-loop ex bs last_commit disk open' same
          ∙ ap (finish ex)
              (loop_complete disk intact bs 0 ex.file.bytes ex.commit_length [] sized room a)))
        (
          rw all (
              Holds-append ex old bs _ h
                (subst (All IsBlock) all (accepted-IsBlock disk 0 bs sized)) fits refl),
          rw a,
        )

  some_refused : all_accepted disk 0 bs ≡ false → Result (append_blocks ex bs last_commit disk)
  some_refused a =
      let new = accepted disk 0 bs in
      let is_block = accepted-IsBlock disk 0 bs sized in
      let (tail, e) = loop_cut disk intact bs 0 ex.file.bytes ex.commit_length [] sized room a in
      subst Result (sym (append_blocks-loop ex bs last_commit disk open' same ∙ ap (finish ex) e)) (
        Holds-append ex old new _ h is_block (omega (arith, fits, total-accepted disk 0 bs)) (
            ap (truncate _) (sym (append_assoc ex.file.bytes (encodings new) tail))
            ∙ truncate-append _ (ex.file.bytes ++ encodings new) tail (
                omega (
                  arith,
                  h.commit,
                  Holds-length ex old h,
                  length-append ex.file.bytes (encodings new),
                  length-encodings new is_block,
                ))),
        rw a,
      )

  -- On an open extent that holds the blocks `old`, with a matching or absent `lastCommit`, where
  -- each block's `BlockLength` is the length of its data, the new length fits 32 bits, and the
  -- device does not cut a header short, `AppendBlocks` leaves the extent holding `old` and the
  -- blocks before the first one that is refused or that the device fails on: the file is exactly
  -- the header and these blocks, and the commit length is its length. It returns the blocks'
  -- offsets if all were accepted, and an error if not.
  pub append_blocks-Holds :
      Holds (append_blocks ex bs last_commit disk).0 (old ++ accepted disk 0 bs)
      × ((append_blocks ex bs last_commit disk).1
          ≡ (if all_accepted disk 0 bs then ok (offsets_from ex.commit_length bs) else err failed))
  append_blocks-Holds = elim (Bool-cases (all_accepted disk 0 bs)) [
    | inl a ↦ all_taken a
    | inr a ↦ some_refused a
  ]
