-- ===== src/Manager/PartitionManager/Calls.antt =====
-- manager/partitionmanager/pm_service.go, `Bootstrap` and `RegisterPS`, when the calls that they make
-- succeed.
use autumn.Prelude.{
  ℕ, ◌+◌, ◌^◌, ◌<◌, ◌≡◌, refl, sym, ap, ◌∙◌, true, false, String, Option, none, some, List, [], ◌∷◌,
  ◌++◌, arith, append-nil, ◌==◌, ==_refl, All,
}
use autumn.Prelude.Assoc.{lookup, lookup-insert}
use autumn.Manager.Handler.{done}
use autumn.Manager.EtcdOp.{succeeded, current, too_short, etct_set_kvs}
use autumn.Manager.EtcdOp.Ids.{IsAnswered, alloc_alone}
use autumn.Manager.PartitionManager.{
  PartitionMeta, PsDetail, Field, World, Env, require_leader, alloc_uniq_id, set_kvs, set_field,
  empty_meta, boot_fields, whole_range, log_id, row_id, parent_id, key_range, put_part, put_parts,
  bootstrap, register_ps, parse_parts,
}
use autumn.Manager.PartitionManager.Loading.{IsOther, found_under, set_fields, parse_parts-lookup}
use text.Mathlib.Text.{◌==◌ as str_eq}

abbrev pub under : ℕ → List Field → List (ℕ × Field)
under id [] = []
under id (f ∷ fs) = (id, f) ∷ under id fs

-- The keys of `Bootstrap` in the order in which etcd returns them.
abbrev pub in_key_order : ℕ → ℕ → ℕ → List Field
in_key_order log row parent =
    log_id log ∷ parent_id parent ∷ key_range whole_range ∷ row_id row ∷ []

abbrev pub IsFree : ℕ → ℕ × Field → Type 0
IsFree id kv = (kv.0 == id) ≡ false

put_part-append :
    (id : ℕ) (f : Field) (front back : List (ℕ × Field))
    → All (IsFree id) front
    → put_part id f (front ++ back) ≡ front ++ put_part id f back
unfolding put_part
put_part-append id f [] back h = refl
put_part-append id f ((k, g) ∷ front) back (h, hs) =
    ground (arith, h, put_part-append id f front back hs)

put_parts-boot_fields :
    (id log row parent : ℕ) (kvs : List (ℕ × Field))
    → All (IsFree id) kvs
    → put_parts id (boot_fields log row parent) kvs ≡ kvs ++ under id (boot_fields log row parent)
unfolding put_parts
put_parts-boot_fields id log row parent kvs h =
    let go = λ (f : Field) (back : List (ℕ × Field)). put_part-append id f kvs back h in
    let r1 : put_part id (log_id log) kvs ≡ kvs ++ under id (log_id log ∷ []) =
      ap (put_part id (log_id log)) (sym (append-nil kvs))
      ∙ go (log_id log) []
      ∙ unfold put_part in refl in
    let r2 : put_part id (row_id row) (kvs ++ under id (log_id log ∷ []))
        ≡ kvs ++ under id (log_id log ∷ row_id row ∷ []) =
      go (row_id row) (under id (log_id log ∷ [])) ∙ unfold put_part in refl in
    let r3 : put_part id (parent_id parent) (kvs ++ under id (log_id log ∷ row_id row ∷ []))
        ≡ kvs ++ under id (log_id log ∷ row_id row ∷ parent_id parent ∷ []) =
      go (parent_id parent) (under id (log_id log ∷ row_id row ∷ [])) ∙ unfold put_part in refl in
    let r4 : put_part id (key_range whole_range)
          (kvs ++ under id (log_id log ∷ row_id row ∷ parent_id parent ∷ []))
        ≡ kvs ++ under id (boot_fields log row parent) =
      go (key_range whole_range) (under id (log_id log ∷ row_id row ∷ parent_id parent ∷ []))
      ∙ unfold put_part in refl in
    ap
      (λ t.
        put_part id (key_range whole_range)
          (put_part id (parent_id parent) (put_part id (row_id row) t)))
      r1
    ∙ ap (λ t. put_part id (key_range whole_range) (put_part id (parent_id parent) t)) r2
    ∙ ap (put_part id (key_range whole_range)) r3
    ∙ r4

-- The server leads, the ID key is read and written with no rival, and the transaction is made.
pub record IsServed (env : Env) (w : World) (count : ℕ) : Type 0 where
  pub leads : w.pm.is_leader ≡ true
  pub answered : IsAnswered env.id_call
  pub alone : env.id_call.stale ≡ none
  pub long : too_short w.etcd.id_cell ≡ false
  pub small : current w.etcd.id_cell + count < 2 ^ 64
  pub commits : env.commit ≡ succeeded

module _ (env : Env) (w : World) where
  abbrev booted : ℕ → ℕ → ℕ → PartitionMeta
  booted log row parent = record (empty_meta (current w.etcd.id_cell)) {
    log_stream = log;
    row_stream = row;
    parent = parent;
    rg = some whole_range;
  }

  bootstrap_served :
      (log row parent : ℕ)
      → IsServed env w 2
      → All (IsFree (current w.etcd.id_cell)) w.etcd.kv_parts
      → ((bootstrap env log row parent w).1 ≡ done (current w.etcd.id_cell))
        × (lookup (current w.etcd.id_cell) (bootstrap env log row parent w).0.pm.part_meta
            ≡ some (booted log row parent))
        × ((bootstrap env log row parent w).0.etcd.kv_parts
            ≡ w.etcd.kv_parts ++ under (current w.etcd.id_cell) (boot_fields log row parent))
  unfolding bootstrap require_leader alloc_uniq_id set_kvs etct_set_kvs
  bootstrap_served log row parent h free =
      let id = current w.etcd.id_cell in
      let ids = alloc_alone env.id_call 2 w.etcd.id_cell h.answered h.alone h.long h.small in
      let there = lookup-insert id id (booted log row parent) w.pm.part_meta in
      let own = ==_refl id in
      let kvs = put_parts-boot_fields id log row parent w.etcd.kv_parts free in
      (
        ground (arith, h.leads, ids, h.commits),
        ground (arith, h.leads, ids, h.commits, there, own),
        ground (arith, h.leads, ids, h.commits, kvs),
      )

  -- Where the server leads, the ID key is read and written with no rival, the transaction is
  -- made, and the next ID is not 0, below 2^64 - 2 and has no keys yet, `Bootstrap` replies with
  -- that ID and adds its four keys to those in etcd; a new leader that reads these, in the order
  -- of their keys and with those of other partitions before and behind them, has the same for the
  -- new partition as this server has.
  pub parse_parts-bootstrap :
      (log row parent : ℕ) (front back : List (Option (ℕ × Field)))
      → IsServed env w 2
      → All (IsFree (current w.etcd.id_cell)) w.etcd.kv_parts
      → (0 == current w.etcd.id_cell) ≡ false
      → All (IsOther (current w.etcd.id_cell)) front
      → All (IsOther (current w.etcd.id_cell)) back
      → ((bootstrap env log row parent w).1 ≡ done (current w.etcd.id_cell))
        × ((bootstrap env log row parent w).0.etcd.kv_parts
            ≡ w.etcd.kv_parts ++ under (current w.etcd.id_cell) (boot_fields log row parent))
        × (lookup (current w.etcd.id_cell) (
              parse_parts (
                front
                ++ (found_under (current w.etcd.id_cell) (in_key_order log row parent) ++ back)))
            ≡ lookup (current w.etcd.id_cell) (bootstrap env log row parent w).0.pm.part_meta)
  parse_parts-bootstrap log row parent front back h free positive hf hb =
      let (reply, memory, keys) = bootstrap_served log row parent h free in
      let id = current w.etcd.id_cell in
      let loaded = parse_parts-lookup id _ _ front back positive hf hb in
      let fields : set_fields (in_key_order log row parent) (empty_meta id)
          ≡ booted log row parent =
        unfold set_fields set_field in refl in
      (reply, keys, loaded ∙ ap some fields ∙ sym memory)

  -- Where the server leads, the ID key is read and written with no rival, the transaction is
  -- made, and the next ID is below 2^64 - 1 and not the other server's, `RegisterPS` gives that
  -- ID to an address, not empty, that the other server has: both are then in the map.
  pub register_ps-duplicate :
      (other : ℕ) (addr : String)
      → IsServed env w 1
      → str_eq addr "" ≡ false
      → (current w.etcd.id_cell == other) ≡ false
      → lookup other w.pm.ps_nodes ≡ some (record { ps_id = other; address = addr })
      → ((register_ps env addr w).1 ≡ done (current w.etcd.id_cell))
        × (lookup (current w.etcd.id_cell) (register_ps env addr w).0.pm.ps_nodes
            ≡ some (record { ps_id = current w.etcd.id_cell; address = addr }))
        × (lookup other (register_ps env addr w).0.pm.ps_nodes
            ≡ some (record { ps_id = other; address = addr }))
  unfolding register_ps require_leader alloc_uniq_id set_kvs etct_set_kvs
  register_ps-duplicate other addr h named differ there =
      let id = current w.etcd.id_cell in
      let ids = alloc_alone env.id_call 1 w.etcd.id_cell h.answered h.alone h.long h.small in
      let detail : PsDetail = record { ps_id = id; address = addr } in
      let new = lookup-insert id id detail w.pm.ps_nodes in
      let old = lookup-insert id other detail w.pm.ps_nodes in
      let own = ==_refl id in
      (
        ground (arith, h.leads, ids, h.commits, named),
        ground (arith, h.leads, ids, h.commits, named, new, own),
        ground (arith, h.leads, ids, h.commits, named, old, differ, there),
      )
