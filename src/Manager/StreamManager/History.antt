-- ===== src/Manager/StreamManager/History.antt =====
-- Sequences of calls of the stream manager's handlers.
use autumn.Prelude.{
  ℕ, ◌+◌, ◌*◌, ◌%◌, ◌^◌, ◌<◌, ◌≤◌, ◌≡◌, ap, ◌∙◌, String, false, none, List, [], ◌∷◌, arith, length,
  All, Option-cases, inl, inr, drop,
}
use autumn.Prelude.Assoc.{lookup, lookup-insert}
use autumn.Manager.EtcdOp.{succeeded, current, too_short, etct_set_kvs}
use autumn.Manager.EtcdOp.Ids.{no_range, range, Alloc-cases}
use autumn.Manager.StreamManager.{
  StreamInfo, World, Env, require_leader, alloc_uniq_id, set_kvs, apply_op, apply_ops,
  send_alloc_to_nodes, add_extent, add_node, write_stream, create_stream, register_node, truncate,
  truncate_index,
}
use autumn.Manager.StreamManager.Persistence.{
  Mirrors, create_stream-Mirrors, register_node-Mirrors, truncate-Mirrors,
}

-- A client's request that may change the maps.
pub data Call : Type 0 where
  create : Call
  register : String → Call
  truncate_at : ℕ → ℕ → Call

unfoldable pub step : Env → Call → World → World
step env create w = (create_stream env w).0
step env (register addr) w = (register_node env addr w).0
step env (truncate_at stream_id extent_id) w = (truncate env stream_id extent_id w).0

unfoldable pub run_calls : List (Env × Call) → World → World
run_calls [] w = w
run_calls ((env, c) ∷ cs) w = run_calls cs (step env c w)

-- etcd takes the transactions of the call, and no rival changes the ID key during it.
pub record IsQuiet (env : Env) : Type 0 where
  pub commits : env.commit ≡ succeeded
  pub alone : env.id_call.stale ≡ none

pub record IsConsistent (w : World) : Type 0 where
  pub mirrors : Mirrors w
  pub fresh : (j : ℕ) → current w.etcd.id_cell ≤ j → lookup j w.sm.streams ≡ none
  pub long : too_short w.etcd.id_cell ≡ false

record IsNext (w w' : World) : Type 0 where
  near : current w'.etcd.id_cell ≤ current w.etcd.id_cell + 2
  next : IsConsistent w'

module _ (env : Env) (w : World) (quiet : IsQuiet env) (h : IsConsistent w)
    (small : current w.etcd.id_cell + 2 < 2 ^ 64) where
  create-IsNext : IsNext w (create_stream env w).0
  unfolding create_stream require_leader alloc_uniq_id send_alloc_to_nodes set_kvs etct_set_kvs
      apply_ops apply_op add_extent
  create-IsNext =
      let stream : StreamInfo = record {
        stream_id = current w.etcd.id_cell;
        extent_ids = (current w.etcd.id_cell + 1) % 2 ^ 64 ∷ [];
      } in
      let mirrors =
        create_stream-Mirrors env w quiet.commits h.mirrors quiet.alone (h.fresh _ (omega arith)) in
      elim (Alloc-cases env.id_call 2 w.etcd.id_cell quiet.alone h.long small) [
        | no_range undone more less long ↦ record {
          near = ground (arith, undone, less);
          next = record {
            mirrors = mirrors;
            fresh = λ j above. ground (arith, undone, less, more, above, h.fresh j);
            long = ground (arith, long, h.long);
          };
        }
        | range e moved long ↦ record {
          near = ground (arith, e, moved);
          next = record {
            mirrors = mirrors;
            fresh = λ j above.
                let more : current w.etcd.id_cell ≤ current (create_stream env w).0.etcd.id_cell =
                  ground (arith, e, moved) in
                let added = lookup-insert (current w.etcd.id_cell) j stream w.sm.streams in
                ground (
                  arith,
                  e,
                  moved,
                  above,
                  h.fresh j (omega (arith, more, above)),
                  h.fresh (current w.etcd.id_cell) (omega arith),
                  added,
                );
            long = ground (arith, e, long, h.long);
          };
        }
      ]

  register-IsNext : (addr : String) → IsNext w (register_node env addr w).0
  unfolding register_node require_leader alloc_uniq_id set_kvs etct_set_kvs apply_ops apply_op
      add_node
  register-IsNext addr =
      let mirrors = register_node-Mirrors env w quiet.commits h.mirrors addr in
      elim (Alloc-cases env.id_call 1 w.etcd.id_cell quiet.alone h.long (omega arith)) [
        | no_range undone more less long ↦ record {
          near = ground (arith, undone, less);
          next = record {
            mirrors = mirrors;
            fresh = λ j above.
                let kept : current w.etcd.id_cell
                    ≤ current (register_node env addr w).0.etcd.id_cell =
                  ground (arith, undone, more) in
                ground (arith, undone, h.fresh j (omega (arith, kept, above)));
            long = ground (arith, long, h.long);
          };
        }
        | range e moved long ↦ record {
          near = ground (arith, e, moved);
          next = record {
            mirrors = mirrors;
            fresh = λ j above.
                let kept : current w.etcd.id_cell
                    ≤ current (register_node env addr w).0.etcd.id_cell =
                  ground (arith, e, moved) in
                ground (arith, e, h.fresh j (omega (arith, kept, above)));
            long = ground (arith, e, long, h.long);
          };
        }
      ]

  -- A stream that is unknown stays so when another, or none, is cut.
  truncate-unknown :
      (stream_id extent_id j : ℕ)
      → lookup j w.sm.streams ≡ none
      → lookup j (truncate env stream_id extent_id w).0.sm.streams ≡ none
  unfolding truncate require_leader write_stream set_kvs etct_set_kvs apply_ops apply_op
  truncate-unknown stream_id extent_id j none_j =
      elim (Option-cases (lookup stream_id w.sm.streams)) [
        | inl absent ↦ ground (arith, none_j, absent)
        | inr (s, known) ↦
            let info : StreamInfo = record {
              stream_id = stream_id;
              extent_ids = drop (truncate_index s.extent_ids extent_id) s.extent_ids;
            } in
            ground (arith, none_j, known, lookup-insert stream_id j info w.sm.streams)
      ]

  truncate-IsNext : (stream_id extent_id : ℕ) → IsNext w (truncate env stream_id extent_id w).0
  unfolding truncate require_leader write_stream set_kvs etct_set_kvs apply_ops apply_op
  truncate-IsNext stream_id extent_id =
      let mirrors = truncate-Mirrors env w quiet.commits h.mirrors stream_id extent_id in
      let same : (truncate env stream_id extent_id w).0.etcd.id_cell ≡ w.etcd.id_cell =
        ground (arith, quiet.commits) in
      record {
        near = omega (arith, ap current same);
        next = record {
          mirrors = mirrors;
          fresh = λ j above.
              truncate-unknown stream_id extent_id j
                (h.fresh j (omega (arith, ap current same, above)));
          long = ap too_short same ∙ h.long;
        };
      }

  step-IsNext : (c : Call) → IsNext w (step env c w)
  unfolding step
  step-IsNext create = create-IsNext
  step-IsNext (register addr) = register-IsNext addr
  step-IsNext (truncate_at stream_id extent_id) = truncate-IsNext stream_id extent_id

-- Memory and etcd hold the same streams, extents and nodes, no stream has an ID that is still to be
-- handed out, and the ID key is readable, after every sequence of calls of `CreateStream`,
-- `RegisterNode` and `Truncate` that starts so, whatever these calls return, where etcd takes the
-- transactions, no rival changes the ID key, and the IDs stay below 2^64.
pub run_calls-IsConsistent :
    (cs : List (Env × Call)) (w : World)
    → All (λ (c : Env × Call). IsQuiet c.0) cs
    → current w.etcd.id_cell + 2 * length cs < 2 ^ 64
    → IsConsistent w
    → IsConsistent (run_calls cs w)
unfolding run_calls
run_calls-IsConsistent [] w quiet small h = h
run_calls-IsConsistent ((env, c) ∷ cs) w quiet small h =
    let n = step-IsNext env w quiet.0 h (omega arith) c in
    run_calls-IsConsistent cs (step env c w) quiet.1 (omega (arith, n.near)) n.next
