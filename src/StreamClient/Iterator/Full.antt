-- ===== src/StreamClient/Iterator/Full.antt =====
-- The entries that answers about an extent give.
use autumn.Prelude.{
  ℕ, suc, ◌+◌, ◌%◌, ◌^◌, ◌≤◌, ◌<◌, ◌≡◌, refl, sym, ap, ◌∙◌, ◌⊎◌, inl, inr, false, Option, none,
  some, List, [], ◌∷◌, ◌++◌, arith, append_assoc, map, length, length-append, All,
}
use autumn.Prelude.Outcome.{Error}
use autumn.Extent.File.{Extent, end_of}
use autumn.Extent.File.Layout.{total}
use autumn.Extent.Entries.Reading.{read_back, read_all, info_sum}
use autumn.Extent.Entries.Answers.{IsAnswer, is_nil}
use autumn.Log.{LogEntry, Codec}
use autumn.Log.Chunks.{Chunk, blocks_of}
use autumn.StreamClient.Iterator.{no_entries}

module _ (C : Codec) where
  abbrev pub IsFull : List (Chunk C) → Type 0
  IsFull cs = All (λ c. no_entries c.entries ≡ false) cs

  pub read_all-append :
      (id offset : ℕ) (xs ys : List (Chunk C))
      → read_all C id offset (xs ++ ys)
        ≡ read_all C id offset xs ++ read_all C id (offset + total (blocks_of C xs)) ys
  read_all-append id offset [] ys = ap (λ n. read_all C id n ys) (omega arith)
  read_all-append id offset (x ∷ xs) ys =
      let behind = offset + (512 + x.block.block_length) in
      let first : List LogEntry = map (read_back C id offset x.block.block_length) x.entries in
      ap (λ t. first ++ t)
        (read_all-append id behind xs ys
          ∙ ap (λ n. read_all C id behind xs ++ read_all C id n ys) (omega arith))
      ∙ sym (append_assoc first (read_all C id behind xs) _)

  some_entry :
      (id offset len : ℕ) (es rest : List LogEntry)
      → no_entries es ≡ false
      → no_entries (map (read_back C id offset len) es ++ rest) ≡ false
  some_entry id offset len [] rest h = absurd (cc)
  some_entry id offset len (e ∷ es) rest h = refl

  pub read_all-some :
      (id offset : ℕ) (cs : List (Chunk C))
      → IsFull cs
      → is_nil C cs ≡ false
      → no_entries (read_all C id offset cs) ≡ false
  read_all-some id offset [] full h = absurd (cc)
  read_all-some id offset (c ∷ cs) (first, full) h =
      some_entry id offset c.block.block_length c.entries _ first

  pub is_nil-false :
      (cs : List (Chunk C))
      → is_nil C cs ≡ false
      → (c : Chunk C) × (cs' : List (Chunk C)) × (cs ≡ c ∷ cs')
  is_nil-false [] h = absurd (cc)
  is_nil-false (c ∷ cs) h = (c, cs, refl)

  pub shorter :
      (now : List (Chunk C)) (c' : Chunk C) (cs' : List (Chunk C)) (c : Chunk C)
      (cs : List (Chunk C)) (n : ℕ)
      → c ∷ cs ≡ now ++ (c' ∷ cs')
      → is_nil C now ≡ false
      → length (c ∷ cs) ≤ suc n
      → length (c' ∷ cs') ≤ n
  shorter [] c' cs' c cs n split h few = absurd (cc)
  shorter (x ∷ now) c' cs' c cs n split h few =
      omega (arith, few, ap (λ (t : List (Chunk C)). length t) split, length-append now (c' ∷ cs'))

  takes_some :
      (ex : Extent) (offset max : ℕ) (c : Chunk C) (cs now later : List (Chunk C))
      (r : List LogEntry × ℕ × Option Error)
      → c ∷ cs ≡ now ++ later
      → r.0 ≡ read_all C ex.id offset now
      → ((later ≡ []) × (r.2 ≡ some (end_of ex.is_seal)))
        ⊎ ((r.2 ≡ none) × (max < (0 + info_sum C r.0) % 2 ^ 32))
      → is_nil C now ≡ false
  takes_some ex offset max c cs (n ∷ now) later r split entries stopped = refl
  takes_some ex offset max c cs [] later r split entries (inl (gone, p)) =
      sym (ap (is_nil C) (split ∙ gone))
  takes_some ex offset max c cs [] later r split entries (inr (p, over)) =
      absurd (omega (arith, over, ap (info_sum C) entries))

  -- An answer about blocks takes one of them at least.
  pub answer-some :
      (ex : Extent) (offset max : ℕ) (c : Chunk C) (cs : List (Chunk C))
      (r : List LogEntry × ℕ × Option Error) (a : IsAnswer C ex offset max 0 (c ∷ cs) r)
      → is_nil C a.now ≡ false
  answer-some ex offset max c cs r a =
      takes_some ex offset max c cs a.now a.later r a.split a.entries a.stopped
