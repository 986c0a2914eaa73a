-- ===== src/Manager/StreamManager/Truncation.antt =====
-- `Truncate` drops the extents in front of the one that it is given.
use autumn.Prelude.{
  ℕ, suc, ◌≡◌, ◌≢◌, refl, ap, ◌∙◌, true, Option, none, some, List, [], ◌∷◌, ◌++◌, arith, ◌==◌,
  if◌then◌else◌, length, drop, All, All-split, drop-append,
}
use autumn.Prelude.Assoc.{lookup, insert, lookup-insert}
use autumn.Manager.Handler.{Reply, done}
use autumn.Manager.EtcdOp.{succeeded, etct_set_kvs}
use autumn.Manager.StreamManager.{
  StreamInfo, StreamManager, World, Env, Code, code_ok, require_leader, set_kvs, apply_op,
  apply_ops, write_stream, truncate_index, truncate,
}

-- The index of the first match.
truncate_index-match :
    (before : List ℕ) (x : ℕ) (after : List ℕ)
    → All (λ k. k ≢ x) before
    → truncate_index (before ++ (x ∷ after)) x ≡ length before
unfolding truncate_index
truncate_index-match [] x [] h = refl
truncate_index-match [] x (y ∷ after) h = ground arith
truncate_index-match (k ∷ []) x after (h, hs) = ground (arith, truncate_index-match [] x after hs)
truncate_index-match (k ∷ l ∷ before) x after (h, hs) =
    ground (arith, truncate_index-match (l ∷ before) x after hs)

-- Without a match, the last index.
truncate_index-absent :
    (before : List ℕ) (l x : ℕ)
    → All (λ k. k ≢ x) before
    → truncate_index (before ++ (l ∷ [])) x ≡ length before
unfolding truncate_index
truncate_index-absent [] l x h = refl
truncate_index-absent (k ∷ []) l x (h, hs) = ground arith
truncate_index-absent (k ∷ m ∷ before) l x (h, hs) =
    ground (arith, truncate_index-absent (m ∷ before) l x hs)

-- A write of a stream that etcd takes.
write_stream-succeeded :
    (env : Env) (stream_id : ℕ) (info : StreamInfo) (w : World)
    → env.commit ≡ succeeded
    → write_stream env stream_id info w ≡ (
      record {
        sm = record w.sm { streams = insert stream_id info w.sm.streams };
        etcd = record w.etcd { kv_streams = insert stream_id info w.etcd.kv_streams };
      },
      done code_ok,
    )
unfolding write_stream set_kvs etct_set_kvs apply_ops apply_op
write_stream-succeeded env sid info w h = ground arith

-- The call on a known stream cuts it at the index of the loop.
truncate-at :
    (env : Env) (stream_id extent_id n : ℕ) (s : StreamInfo) (w : World)
    → w.sm.is_leader ≡ true
    → lookup stream_id w.sm.streams ≡ some s
    → truncate_index s.extent_ids extent_id ≡ suc n
    → truncate env stream_id extent_id w
      ≡ write_stream env stream_id
          (record { stream_id = stream_id; extent_ids = drop (suc n) s.extent_ids })
          w
unfolding truncate require_leader
truncate-at env sid eid n s w leads hs hi = ground arith

-- The extents of a stream in memory.
abbrev pub ids_of : Option StreamInfo → Option (List ℕ)
ids_of none = none
ids_of (some s) = some s.extent_ids

abbrev pub extents_of : ℕ → StreamManager → Option (List ℕ)
extents_of j sm = ids_of (lookup j sm.streams)

module _ (env : Env) (stream_id extent_id : ℕ) (s : StreamInfo) (w : World)
    (leads : w.sm.is_leader ≡ true) (commits : env.commit ≡ succeeded)
    (known : lookup stream_id w.sm.streams ≡ some s) where
  truncate-front :
      (before rest : List ℕ)
      → s.extent_ids ≡ before ++ rest
      → truncate_index s.extent_ids extent_id ≡ length before
      → ((truncate env stream_id extent_id w).1 ≡ done code_ok)
        × ((j : ℕ)
            → extents_of j (truncate env stream_id extent_id w).0.sm
              ≡ (if stream_id == j then some rest else extents_of j w.sm))
  truncate-front [] rest e at = (
    unfold truncate require_leader in ground arith,
    λ j. unfold truncate require_leader in ground arith,
  )
  truncate-front (k ∷ before) rest e at =
      let info : StreamInfo = record {
        stream_id = stream_id;
        extent_ids = drop (suc (length before)) s.extent_ids;
      } in
      let cut : drop (suc (length before)) s.extent_ids ≡ rest =
        ap (drop (suc (length before))) e ∙ drop-append (k ∷ before) rest _ refl in
      let step =
        truncate-at env stream_id extent_id (length before) s w leads known at
        ∙ write_stream-succeeded env stream_id info w commits in
      (
        ap (λ (t : World × Reply Code). t.1) step,
        λ j.
            ap (λ (t : World × Reply Code). extents_of j t.0.sm) step
            ∙ ground (arith, lookup-insert stream_id j info w.sm.streams, cut),
      )

  -- On the leader, when etcd takes the write, `Truncate` of a known stream at an extent that it
  -- has returns OK, and leaves that stream with this extent and those behind it, and every other
  -- stream as it was.
  pub truncate-match :
      (before after : List ℕ)
      → s.extent_ids ≡ before ++ (extent_id ∷ after)
      → All (λ k. k ≢ extent_id) before
      → ((truncate env stream_id extent_id w).1 ≡ done code_ok)
        × ((j : ℕ)
            → extents_of j (truncate env stream_id extent_id w).0.sm
              ≡ (if stream_id == j then some (extent_id ∷ after) else extents_of j w.sm))
  truncate-match before after e h =
      truncate-front before (extent_id ∷ after) e
        (ap (λ ids. truncate_index ids extent_id) e ∙ truncate_index-match before extent_id after h)

  -- On the leader, when etcd takes the write, `Truncate` of a known stream at an extent that it
  -- does not have returns OK all the same, and leaves the stream with its last extent alone.
  pub truncate-absent :
      (before : List ℕ) (l : ℕ)
      → s.extent_ids ≡ before ++ (l ∷ [])
      → All (λ k. k ≢ extent_id) (before ++ (l ∷ []))
      → ((truncate env stream_id extent_id w).1 ≡ done code_ok)
        × ((j : ℕ)
            → extents_of j (truncate env stream_id extent_id w).0.sm
              ≡ (if stream_id == j then some (l ∷ []) else extents_of j w.sm))
  truncate-absent before l e h = truncate-front before (l ∷ []) e (
      ap (λ ids. truncate_index ids extent_id) e
      ∙ truncate_index-absent before l extent_id (All-split _ before (l ∷ []) h).0)
