-- ===== src/TableSize.antt =====
-- table_size_map of src/quotamodel.c: the size of each table on each segment, in entries of 100
-- segments, with a flush flag in the top bit of each size.
pub mod Laws
use diskquota.Prelude.{
  ℕ, zero, suc, ◌+◌, ◌-◌, ◌*◌, ◌/◌, ◌%◌, Bool, true, false, ◌&&◌, eqb, ltb, if◌then◌else◌, ◌≡◌, ◌↔◌,
  KeyEq, arith, Option,
}
use diskquota.Words.{two63}
use diskquota.Catalog.{Env, Oid, SegId, invalid_oid}
use diskquota.SharedTable.{Counted, search_or_add}

pub record TableSizeEntryKey : Type 0 where
  pub reloid : Oid
  pub id : ℕ

unfoldable pub table_key_eq : TableSizeEntryKey → TableSizeEntryKey → Bool
table_key_eq a b = eqb a.reloid b.reloid && eqb a.id b.id

pub table_key_eq_iff : (a b : TableSizeEntryKey) → (table_key_eq a b ≡ true) ↔ (a ≡ b)
unfolding table_key_eq
table_key_eq_iff a b = ground arith

instance abbrev pub table_key_has_eq : KeyEq TableSizeEntryKey
table_key_has_eq = record { eq_test = table_key_eq; eq_test_iff = table_key_eq_iff }

-- `totalsize` is the array int64[100] as a function of the index, which is always taken modulo
-- its length.
pub record TableSizeEntry : Type 0 where
  pub key : TableSizeEntryKey
  pub tablespaceoid : Oid
  pub namespaceoid : Oid
  pub owneroid : Oid
  pub flag : ℕ
  pub totalsize : ℕ → ℕ

abbrev pub TableSizeMap : Type 0
TableSizeMap = Counted TableSizeEntryKey TableSizeEntry

abbrev pub segment_size_array_length : ℕ
segment_size_array_length = 100

abbrev pub table_size_entry_id : SegId → ℕ
table_size_entry_id segid = segid / segment_size_array_length

abbrev pub table_size_entry_index : SegId → ℕ
table_size_entry_index segid = segid % segment_size_array_length

-- The top bit of a size.
unfoldable pub get_flush_flag : TableSizeEntry → SegId → Bool
get_flush_flag e segid = eqb (e.totalsize (table_size_entry_index segid) / two63 % 2) 1

abbrev pub with_totalsize : TableSizeEntry → SegId → ℕ → TableSizeEntry
with_totalsize e segid v = record e {
  totalsize = λ i. if eqb i (table_size_entry_index segid) then v else e.totalsize i;
}

unfoldable pub set_flush_flag : TableSizeEntry → SegId → TableSizeEntry
unfolding get_flush_flag
set_flush_flag e segid =
    let v = e.totalsize (table_size_entry_index segid) in
    with_totalsize e segid (if get_flush_flag e segid then v else v + two63)

unfoldable pub reset_flush_flag : TableSizeEntry → SegId → TableSizeEntry
reset_flush_flag e segid =
    with_totalsize e segid (e.totalsize (table_size_entry_index segid) % two63)

unfoldable pub get_size : TableSizeEntry → SegId → ℕ
get_size e segid = e.totalsize (table_size_entry_index segid) % two63

unfoldable pub set_size : TableSizeEntry → SegId → ℕ → TableSizeEntry
set_size e segid size = with_totalsize e segid size

-- The segments of an entry, from the first one to before the last.
abbrev pub segid_start : TableSizeEntry → SegId
segid_start e = e.key.id * segment_size_array_length

abbrev pub segid_end : Env → TableSizeEntry → SegId
segid_end env e =
    if ltb ((e.key.id + 1) * segment_size_array_length) (env.segcount + 1)
    then (e.key.id + 1) * segment_size_array_length
    else env.segcount + 1

-- TABLE_EXIST is the lowest bit.
unfoldable pub get_table_exist : TableSizeEntry → Bool
get_table_exist e = eqb (e.flag % 2) 1

unfoldable pub reset_table_exist : TableSizeEntry → TableSizeEntry
reset_table_exist e = record e { flag = e.flag - e.flag % 2 }

unfoldable pub set_table_exist : TableSizeEntry → TableSizeEntry
set_table_exist e = record e { flag = e.flag - e.flag % 2 + 1 }

-- `n` rounds of TableSizeEntrySetFlushFlag from `segid`.
unfoldable pub set_flush_flags : ℕ → SegId → TableSizeEntry → TableSizeEntry
set_flush_flags zero segid e = e
set_flush_flags (suc n) segid e = set_flush_flags n (suc segid) (set_flush_flag e segid)

abbrev pub zeroed_entry : TableSizeEntryKey → TableSizeEntry
zeroed_entry key = record {
  key = key;
  tablespaceoid = invalid_oid;
  namespaceoid = invalid_oid;
  owneroid = invalid_oid;
  flag = 0;
  totalsize = λ i. 0;
}

-- A new entry: all sizes 0 and to be flushed, no schema, owner or tablespace yet.
unfoldable pub new_table_size_entry : Env → TableSizeEntryKey → TableSizeEntry
unfolding set_flush_flags
new_table_size_entry env key =
    let e = zeroed_entry key in set_flush_flags (segid_end env e - segid_start e) (segid_start e) e

abbrev pub table_size_key : Oid → SegId → TableSizeEntryKey
table_size_key oid segid = record { reloid = oid; id = table_size_entry_id segid }

unfoldable pub get_table_size_map_entry :
    Env → Oid → SegId → TableSizeMap → Option TableSizeEntry × TableSizeMap
get_table_size_map_entry env oid segid t =
    let key = table_size_key oid segid in
    search_or_add env.clock env.max_num_table_size_entries (new_table_size_entry env key) key t
