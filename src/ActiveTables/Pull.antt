-- ===== src/ActiveTables/Pull.antt =====
-- The rest of src/gp_activetable.c: the sizes that a segment sends, and how the worker on the
-- coordinator collects oids and sizes from all segments.
pub mod Sums
pub mod Nulls
pub mod Worker
use diskquota.Prelude.{
  ℕ, zero, suc, [], ◌∷◌, List, Bool, true, false, ◌&&◌, Option, none, some, eqb, if◌then◌else◌,
  nat_eq, length, KeyEq, ◌≡◌, ◌↔◌, arith, ◌++◌,
}
use diskquota.Catalog.{Oid, Env, SegId, coordinator}
use diskquota.Htab.{Htab, put, find}
use diskquota.TableSize.{TableSizeMap}
use diskquota.ActiveTables.{ActiveTableEntry}
use diskquota.QuotaInfo.{QuotaInfoMap}
use diskquota.Usage.{calculate_active_table_disk_usage}
use diskquota.Words.{add64}

pub record TableEntryKey : Type 0 where
  pub reloid : Oid
  pub segid : SegId

abbrev pub table_entry_key_eq : TableEntryKey → TableEntryKey → Bool
table_entry_key_eq a b = eqb a.reloid b.reloid && eqb a.segid b.segid

pub table_entry_key_eq_iff : (a b : TableEntryKey) → (table_entry_key_eq a b ≡ true) ↔ (a ≡ b)
table_entry_key_eq_iff a b = ground arith

instance abbrev pub table_entry_key_has_eq : KeyEq TableEntryKey
table_entry_key_has_eq = record {
  eq_test = table_entry_key_eq;
  eq_test_iff = table_entry_key_eq_iff;
}

abbrev pub TableStats : Type 0
TableStats = Htab TableEntryKey ActiveTableEntry

-- The entry of one relation; `table_size` is calculate_table_size.
unfoldable pub add_table_stat : (Oid → ℕ) → SegId → Oid → TableStats → TableStats
add_table_stat table_size segid oid m =
    let key : TableEntryKey = record { reloid = oid; segid = segid } in
    elim (find key m) [
      | some _ ↦ m
      | none ↦ put key (record { reloid = oid; segid = segid; tablesize = table_size oid }) m
    ]

-- The loop over the elements of an array with a null bitmap, `n` rounds. `bits` is the bitmap from the
-- bit that `bitmask` selects, and `values` the data from the element that `ptr` points at; a null
-- moves neither of the two.
unfoldable pub get_stats : (Oid → ℕ) → SegId → ℕ → List Bool → List Oid → TableStats → TableStats
unfolding add_table_stat
get_stats table_size segid zero bits values m = m
get_stats table_size segid (suc n) [] values m = m
get_stats table_size segid (suc n) (false ∷ bits) values m =
    get_stats table_size segid n (false ∷ bits) values m
get_stats table_size segid (suc n) (true ∷ bits) [] m = m
get_stats table_size segid (suc n) (true ∷ bits) (oid ∷ values) m =
    get_stats table_size segid n bits values (add_table_stat table_size segid oid m)

unfoldable pub get_active_tables_stats : (Oid → ℕ) → SegId → List Bool → List Oid → TableStats
unfolding get_stats
get_active_tables_stats table_size segid bits values =
    get_stats table_size segid (length bits) bits values []

-- The oids that one segment sends go into the local map.
unfoldable pub add_oids : List Oid → Htab Oid Unit → Htab Oid Unit
add_oids [] m = m
add_oids (oid ∷ oids) m = add_oids oids (put oid tt m)

unfoldable pub keys : Htab Oid Unit → List Oid
keys [] = []
keys ((k, v) ∷ m) = k ∷ keys m

-- A segment's result is none where its status is not PGRES_TUPLES_OK, which raises an error. The text
-- of the oids is the list of them.
unfoldable pub pull_oids : List (Option (List Oid)) → Htab Oid Unit → Option (Htab Oid Unit)
unfolding add_oids
pull_oids [] m = some m
pull_oids (none ∷ rs) m = none
pull_oids (some oids ∷ rs) m = pull_oids rs (add_oids oids m)

unfoldable pub pull_active_list_from_seg : List (Option (List Oid)) → Option (List Oid)
unfolding pull_oids keys
pull_active_list_from_seg rs = elim (pull_oids rs []) [ none ↦ none | some m ↦ some (keys m) ]

-- A row of diskquota_fetch_table_stat(1, ...).
pub record TableStat : Type 0 where
  pub reloid : Oid
  pub tablesize : ℕ
  pub segid : SegId

-- The maps of sizes of the worker, and ActiveTableEntryCombined by oid.
pub record Pulling : Type 0 where
  pub tables : TableSizeMap
  pub quotas : QuotaInfoMap
  pub sums : Htab Oid ℕ

unfoldable pub pull_row : Env → (Oid → ℕ) → TableStat → Pulling → Pulling
pull_row env table_size r s =
    let (t, q) =
      calculate_active_table_disk_usage env table_size r.reloid r.tablesize r.segid
        (s.tables, s.quotas) in
    record {
      tables = t;
      quotas = q;
      sums =
          put r.reloid (add64 (elim (find r.reloid s.sums) [ none ↦ 0 | some n ↦ n ]) r.tablesize)
            s.sums;
    }

unfoldable pub pull_rows : Env → (Oid → ℕ) → List TableStat → Pulling → Pulling
unfolding pull_row
pull_rows env table_size [] s = s
pull_rows env table_size (r ∷ rs) s = pull_rows env table_size rs (pull_row env table_size r s)

-- The flag is false where a result raises an error; what was written before it stays.
unfoldable pub pull_results :
    Env → (Oid → ℕ) → List (Option (List TableStat)) → Pulling → Bool × Pulling
unfolding pull_rows
pull_results env table_size [] s = (true, s)
pull_results env table_size (none ∷ rs) s = (false, s)
pull_results env table_size (some rows ∷ rs) s =
    pull_results env table_size rs (pull_rows env table_size rows s)

-- The last loop, for the coordinator.
unfoldable pub pull_sums :
    Env → (Oid → ℕ) → Htab Oid ℕ → TableSizeMap × QuotaInfoMap → TableSizeMap × QuotaInfoMap
pull_sums env table_size [] x = x
pull_sums env table_size ((oid, n) ∷ m) x =
    pull_sums env table_size m
      (calculate_active_table_disk_usage env table_size oid n coordinator x)

-- SEGCOUNT becomes the number of results.
unfoldable pub pull_active_table_size_from_seg :
    Env
    → (Oid → ℕ)
    → List (Option (List TableStat))
    → TableSizeMap × QuotaInfoMap
    → Bool × (TableSizeMap × QuotaInfoMap)
unfolding pull_results pull_sums
pull_active_table_size_from_seg env table_size rs (t, q) =
    let env' = record env { segcount = length rs } in
    if eqb (length rs) 0
    then (false, (t, q))
    else (let (ok, s) =
          pull_results env' table_size rs (record { tables = t; quotas = q; sums = [] }) in
        if ok
        then (true, pull_sums env' table_size s.sums (s.tables, s.quotas))
        else (false, (s.tables, s.quotas)))

-- A row of diskquota.table_size as load_table_size reads it, where each column may be null.
pub record SavedSize : Type 0 where
  pub tableid : Option Oid
  pub size : Option ℕ
  pub segid : Option SegId

-- The rows of the cursor one after the other (the batches of 10000 make no difference), and the list
-- of active oids.
unfoldable pub load_table_size :
    Env
    → (Oid → ℕ)
    → List SavedSize
    → List Oid × (TableSizeMap × QuotaInfoMap)
    → List Oid × (TableSizeMap × QuotaInfoMap)
load_table_size env table_size [] x = x
load_table_size env table_size (r ∷ rs) (oids, x) =
    load_table_size env table_size rs (elim r.tableid [
      | none ↦ (oids, x)
      | some reloid ↦ elim r.size [
        | none ↦ (oids, x)
        | some size ↦ elim r.segid [
          | none ↦ (oids, x)
          | some segid ↦ (
            if eqb segid coordinator then oids ++ (reloid ∷ []) else oids,
            calculate_active_table_disk_usage env table_size reloid size segid x,
          )
        ]
      ]
    ])

-- What the worker asks for: the saved rows at the start, and later the two dispatched queries.
pub record Answers : Type 0 where
  pub saved : List SavedSize
  pub active : List (Option (List Oid))
  pub sizes : List Oid → List (Option (List TableStat))

-- The list of active oids is none where an error is raised.
unfoldable pub gp_fetch_active_tables :
    Env
    → (Oid → ℕ)
    → Bool
    → Answers
    → TableSizeMap × QuotaInfoMap
    → Option (List Oid) × (TableSizeMap × QuotaInfoMap)
unfolding load_table_size pull_active_list_from_seg pull_active_table_size_from_seg
gp_fetch_active_tables env table_size is_init answers x =
    if is_init
    then (let (oids, x') = load_table_size env table_size answers.saved ([], x) in (some oids, x'))
    else elim (pull_active_list_from_seg answers.active) [
      | none ↦ (none, x)
      | some oids ↦
          let (ok, x') = pull_active_table_size_from_seg env table_size (answers.sizes oids) x in
          (if ok then some oids else none, x')
    ]
