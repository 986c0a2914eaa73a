-- ===== src/RangePartition/DiscardManager/Index.antt =====
-- The reverse index, and what it credits to the streams.
use autumn.Prelude.{
  ℕ, suc, ◌+◌, ◌^◌, ◌%◌, ◌<◌, ◌≡◌, refl, sym, ap, ◌∙◌, Bool-cases, inl, inr, some, List, [], ◌∷◌,
  ◌++◌, arith, ◌==◌, if◌then◌else◌, replicate, append_assoc, append-nil,
}
use autumn.Prelude.Assoc.{lookup, insert, lookup-insert}
use autumn.Manager.StreamManager.{StreamInfo}
use autumn.RangePartition.DiscardManager.{
  DiscardManager, or_zero, add64, index_extents, index_streams, new_discard_manager, credit,
  credit_all, update_discard_stats, add_blob_stream,
}

-- How often a number occurs.
abbrev pub count : ℕ → List ℕ → ℕ
count e [] = 0
count e (k ∷ ks) = let more = count e ks in if k == e then suc more else more

abbrev pub owners_in : ℕ → List (ℕ × List ℕ) → List ℕ
owners_in e index = or_zero [] (lookup e index)

-- The streams that have an extent, once for each time they have it.
abbrev pub owners : ℕ → List (ℕ × StreamInfo) → List ℕ
owners e [] = []
owners e ((stream_id, s) ∷ si) = replicate (count e s.extent_ids) stream_id ++ owners e si

index_step :
    (owner : ℕ → ℕ) (k e : ℕ) (es : List ℕ) (index : List (ℕ × List ℕ)) (old : List ℕ)
    → owners_in k index ≡ old
    → or_zero [] (if k == e then some (old ++ (owner k ∷ [])) else lookup e index)
        ++ replicate (count e es) (owner e)
      ≡ owners_in e index ++ replicate (count e (k ∷ es)) (owner e)
index_step owner k e es index old h = elim (Bool-cases (k == e)) [
  | inl same ↦
      let k_e : k ≡ e = ground (arith, same) in
      let before : owners_in e index ≡ old = ap (λ j. owners_in j index) (sym k_e) ∙ h in
      ground (
        arith,
        same,
        before,
        ap owner k_e,
        append_assoc old (owner e ∷ []) (replicate (count e es) (owner e)),
      )
  | inr other ↦ ground (arith, other)
]

owners_in-index_extents :
    (owner : ℕ → ℕ) (e : ℕ) (es : List ℕ) (index : List (ℕ × List ℕ))
    → owners_in e (index_extents owner es index)
      ≡ owners_in e index ++ replicate (count e es) (owner e)
unfolding index_extents
owners_in-index_extents owner e [] index = sym (append-nil (owners_in e index))
owners_in-index_extents owner e (k ∷ es) index =
    let added : List ℕ = owners_in k index ++ (owner k ∷ []) in
    owners_in-index_extents owner e es (insert k added index)
    ∙ ap (λ o. or_zero [] o ++ replicate (count e es) (owner e)) (lookup-insert k e added index)
    ∙ index_step owner k e es index (owners_in k index) refl

owners_in-index_streams :
    (e : ℕ) (si : List (ℕ × StreamInfo)) (index : List (ℕ × List ℕ))
    → owners_in e (index_streams si index) ≡ owners_in e index ++ owners e si
unfolding index_streams
owners_in-index_streams e [] index = sym (append-nil (owners_in e index))
owners_in-index_streams e ((stream_id, s) ∷ si) index =
    owners_in-index_streams e si (index_extents (λ e. stream_id) s.extent_ids index)
    ∙ ap (λ t. t ++ owners e si) (owners_in-index_extents (λ e. stream_id) e s.extent_ids index)
    ∙ append_assoc (owners_in e index) (replicate (count e s.extent_ids) stream_id) (owners e si)

-- The share of one number among equal ones, and what a stream is due for the freed bytes of its
-- extents.
abbrev pub share : ℕ → ℕ → List ℕ → ℕ
share s discard [] = 0
share s discard (k ∷ ks) = let more = share s discard ks in if k == s then discard + more else more

abbrev pub due : ℕ → List (ℕ × ℕ) → List (ℕ × StreamInfo) → ℕ
due s [] si = 0
due s ((e, discard) ∷ stats) si = share s discard (owners e si) + due s stats si

abbrev pub counter : ℕ → List (ℕ × ℕ) → ℕ
counter s counters = or_zero 0 (lookup s counters)

counter-insert :
    (k s v : ℕ) (counters : List (ℕ × ℕ))
    → counter s (insert k v counters) ≡ (if k == s then v else counter s counters)
counter-insert k s v counters = ground (arith, lookup-insert k s v counters)

counter-credit :
    (s discard : ℕ) (ss : List ℕ) (counters : List (ℕ × ℕ))
    → counter s counters < 2 ^ 64
    → counter s (credit discard ss counters) ≡ (counter s counters + share s discard ss) % 2 ^ 64
unfolding credit
counter-credit s discard [] counters h = omega arith
counter-credit s discard (k ∷ ss) counters h =
    let new = add64 (counter k counters) discard in
    elim (Bool-cases (k == s)) [
      | inl same ↦
          let k_s : k ≡ s = ground (arith, same) in
          let here : counter s (insert k new counters) ≡ add64 (counter s counters) discard =
            ground
              (arith, same, counter-insert k s new counters, ap (λ j. counter j counters) k_s) in
          let more : share s discard (k ∷ ss) ≡ discard + share s discard ss =
            ground (arith, same) in
          counter-credit s discard ss (insert k new counters) (omega (arith, here))
          ∙ omega (arith, here, more)
      | inr other ↦
          let here : counter s (insert k new counters) ≡ counter s counters =
            ground (arith, other, counter-insert k s new counters) in
          let more : share s discard (k ∷ ss) ≡ share s discard ss = ground (arith, other) in
          counter-credit s discard ss (insert k new counters) (omega (arith, here, h))
          ∙ omega (arith, here, more)
    ]

counter-credit_all :
    (s : ℕ) (stats : List (ℕ × ℕ)) (si : List (ℕ × StreamInfo)) (counters : List (ℕ × ℕ))
    → counter s counters < 2 ^ 64
    → counter s (credit_all stats (index_streams si []) counters)
      ≡ (counter s counters + due s stats si) % 2 ^ 64
unfolding credit_all
counter-credit_all s [] si counters h = omega arith
counter-credit_all s ((e, discard) ∷ stats) si counters h =
    let found : owners_in e (index_streams si []) ≡ owners e si = owners_in-index_streams e si [] in
    let one : counter s (credit discard (owners_in e (index_streams si [])) counters)
        ≡ (counter s counters + share s discard (owners e si)) % 2 ^ 64 =
      rw found (counter-credit s discard (owners e si) counters h) in
    counter-credit_all s stats si (credit discard (owners_in e (index_streams si [])) counters)
      (omega (arith, one))
    ∙ omega (arith, one)

-- A discard manager that is made for some streams, and told once how many bytes became free in each
-- extent, counts for each stream the sum over its extents, an extent counted once for each time
-- that the stream has it, modulo 2^64.
pub counter-update_discard_stats :
    (si : List (ℕ × StreamInfo)) (stats : List (ℕ × ℕ)) (s : ℕ)
    → counter s (update_discard_stats stats (new_discard_manager si)).discard_of_stream
      ≡ due s stats si % 2 ^ 64
unfolding update_discard_stats new_discard_manager
counter-update_discard_stats si stats s =
    counter-credit_all s stats si [] (omega arith) ∙ omega arith

-- `AddBlobStream` enters the new stream's extents with their own IDs as owners: the owners of an
-- extent are those that it had, and itself once for each time that the stream has it, whichever ID
-- the stream has.
pub owners_in-add_blob_stream :
    (si : StreamInfo) (dsm : DiscardManager) (e : ℕ)
    → owners_in e (add_blob_stream si dsm).reverse_index
      ≡ owners_in e dsm.reverse_index ++ replicate (count e si.extent_ids) e
unfolding add_blob_stream
owners_in-add_blob_stream si dsm e =
    owners_in-index_extents (λ k. k) e si.extent_ids dsm.reverse_index
