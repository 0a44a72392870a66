-- ===== src/Flush.antt =====
-- flush_to_table_size of src/quotamodel.c: the table diskquota.table_size in the database follows
-- table_size_map, in batches, and the entries of dropped tables leave the map.
pub mod Laws
pub mod Rows
pub mod Rounds
pub mod Table
use diskquota.Prelude.{
  ℕ, zero, suc, [], ◌∷◌, List, ◌++◌, if◌then◌else◌, Bool, ltb, eqb, false, length, not, ◌&&◌, ◌||◌,
  ◌-◌,
}
use diskquota.Catalog.{Oid, SegId, Env}
use diskquota.TableSize.{
  TableSizeEntry, TableSizeMap, TableSizeEntryKey, get_table_exist, segid_end, get_flush_flag,
  reset_flush_flag, segid_start, get_size,
}
use diskquota.Htab.{Htab}
use diskquota.Words.{dec32}

-- A row of diskquota.table_size.
pub record Row : Type 0 where
  pub tableid : Oid
  pub segid : SegId
  pub size : ℕ

abbrev pub same_place : Oid → SegId → Row → Bool
same_place oid segid r = eqb r.tableid oid && eqb r.segid segid

-- "(tableid, segid) in (select * from unnest($1, $2))"
unfoldable pub is_listed : Row → List Row → Bool
is_listed r [] = false
is_listed r (x ∷ xs) = same_place x.tableid x.segid r || is_listed r xs

-- "delete from diskquota.table_size where ..."
unfoldable pub delete_rows : List Row → List Row → List Row
unfolding is_listed
delete_rows listed [] = []
delete_rows listed (r ∷ rs) =
    let rest = delete_rows listed rs in if is_listed r listed then rest else r ∷ rest

-- DeleteArrays and UpdateArrays (their elements paired up; a delete leaves the sizes out, which
-- are 0 here), and the table in the database.
pub record FlushState : Type 0 where
  pub delete : List Row
  pub update : List Row
  pub table_size : List Row

-- SQL_MAX_VALUES_NUMBER
abbrev pub sql_max_values_number : ℕ
sql_max_values_number = 1000000

unfoldable pub delete_from_table_size_map : FlushState → FlushState
unfolding delete_rows
delete_from_table_size_map s = record s {
  delete = [];
  table_size = delete_rows s.delete s.table_size;
}

-- "insert into diskquota.table_size select * from unnest($1, $2, $3)", after the delete
unfoldable pub update_table_size_map : FlushState → FlushState
unfolding delete_rows
update_table_size_map s = record s {
  update = [];
  table_size = delete_rows s.update s.table_size ++ s.update;
}

-- accumArrayResult, and the flush of an array that has become too long. (Whether the newest
-- element stands first or last in an array makes no difference to the two statements.)
unfoldable pub accumulate_delete : Row → FlushState → FlushState
unfolding delete_from_table_size_map
accumulate_delete r s =
    let s' = record s { delete = r ∷ s.delete } in
    if ltb sql_max_values_number (length s'.delete) then delete_from_table_size_map s' else s'

unfoldable pub accumulate_update : Row → FlushState → FlushState
unfolding update_table_size_map
accumulate_update r s =
    let s' = record s { update = r ∷ s.update } in
    if ltb sql_max_values_number (length s'.update) then update_table_size_map s' else s'

-- One round of the loop over the segments of an entry.
unfoldable pub flush_segment : SegId → TableSizeEntry × FlushState → TableSizeEntry × FlushState
unfolding accumulate_delete accumulate_update
flush_segment segid (e, s) =
    if not (get_table_exist e)
    then (e, accumulate_delete (record { tableid = e.key.reloid; segid = segid; size = 0 }) s)
    else if get_flush_flag e segid
    then (
      reset_flush_flag e segid,
      accumulate_update (record { tableid = e.key.reloid; segid = segid; size = get_size e segid })
          s,
    )
    else (e, s)

-- `n` rounds from `segid`.
unfoldable pub flush_segments :
    ℕ → SegId → TableSizeEntry × FlushState → TableSizeEntry × FlushState
unfolding flush_segment
flush_segments zero segid x = x
flush_segments (suc n) segid x = flush_segments n (suc segid) (flush_segment segid x)

-- The loop over the map: the entries that stay, the shared counter, and the arrays.
unfoldable pub flush_entries :
    Env
    → Htab TableSizeEntryKey TableSizeEntry
    → ℕ × FlushState
    → Htab TableSizeEntryKey TableSizeEntry × (ℕ × FlushState)
unfolding flush_segments
flush_entries env [] x = ([], x)
flush_entries env ((k, e) ∷ m) (num, s) =
    let (e', s') = flush_segments (segid_end env e - segid_start e) (segid_start e) (e, s) in
    if get_table_exist e'
    then (let (m', x) = flush_entries env m (num, s') in ((k, e') ∷ m', x))
    else flush_entries env m (dec32 num, s')

unfoldable pub flush_to_table_size : Env → TableSizeMap → List Row → TableSizeMap × List Row
unfolding flush_entries delete_from_table_size_map update_table_size_map
flush_to_table_size env t table_size =
    let (m, (num, s)) =
      flush_entries env t.map
        (t.entry_num, record { delete = []; update = []; table_size = table_size }) in
    (
      record t { map = m; entry_num = num },
      (update_table_size_map (delete_from_table_size_map s)).table_size,
    )
