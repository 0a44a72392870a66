-- ===== src/Tests/Loading.antt =====
-- Concrete inputs for the worker: the load of quotas, and a flush with its table.
use diskquota.Prelude.{
  [], ◌∷◌, none, some, refl, true, false, ◌≡◌, arith, ◌+◌, eqb, if◌then◌else◌, ◌^◌, List,
}
use diskquota.Words.{inc32, slt32, minus_one64}
use diskquota.SharedTable.{write, search_or_add}
use diskquota.Htab.{put, update_all, find}
use diskquota.Fullness.{check_hash_fullness_num}
use diskquota.QuotaType.{
  quota_key_has_eq, namespace_quota, namespace_tablespace_quota, QuotaInfoEntryKey, quota_key_eq,
}
use diskquota.TableSize.{
  table_key_has_eq, table_key_eq, TableSizeEntry, TableSizeMap, get_flush_flag, table_size_key,
  get_table_exist, get_size,
}
use diskquota.Tests.{env, no_quotas}
use diskquota.Config.{Tables}
use diskquota.LoadQuotas.{
  load_quotas, do_load_quotas, load_rows, row_action, select_rows, quota_type_of, row_of_type,
  matching_targets, joined_rows,
}
use diskquota.QuotaInfo.Sizes.{size_of, IsRoomy}
use diskquota.Flush.Rows.{row_at}
use diskquota.LoadQuotas.Segments.{limit_of}
use diskquota.Flush.{Row, flush_to_table_size}
use diskquota.Htab.Keys.{IsDistinct}
use diskquota.LoadQuotas.Configured.{configured_limit}
use diskquota.LoadQuotas.Limits.{load_quotas-configured_limit}
use diskquota.Flush.Table.{row_at-flush_to_table_size, row_at-flushed_map}
use diskquota.QuotaInfo.{
  update_limit_for_quota, update_limits_from, update_segment_limit, clean_all_quota_limit,
}

-- The schema 2200 may hold 1 MB, and 2 MB in the tablespace 1663, by the target in row 9.
abbrev tables : Tables
tables = record {
  quota_config =
      (
        record { targetoid = 2200; quotatype = namespace_quota },
        record { quotalimit_mb = 1; segratio = 0 },
      )
      ∷ (
        record { targetoid = 9; quotatype = namespace_tablespace_quota },
        record { quotalimit_mb = 2; segratio = 3 },
      )
      ∷ [];
  target =
      record {
        row_id = 9;
        quotatype = namespace_tablespace_quota;
        primaryoid = 2200;
        tablespaceoid = 1663;
      }
      ∷ [];
  next_row_id = 10;
}

abbrev linked_key : QuotaInfoEntryKey
linked_key = record { type = namespace_tablespace_quota; key0 = 2200; key1 = 1663; segid = 1 }

room_after_load : IsRoomy env (load_quotas env tables no_quotas).1.1
unfolding load_quotas do_load_quotas load_rows row_action quota_type_of row_of_type select_rows
    matching_targets joined_rows update_limit_for_quota update_limits_from update_segment_limit
    clean_all_quota_limit update_all search_or_add check_hash_fullness_num find put inc32 slt32
    write quota_key_eq
room_after_load = refl

load_quotas-configured_limit_example :
    (size_of (load_quotas env tables no_quotas).1.1 linked_key ≡ size_of no_quotas linked_key)
    × ((load_quotas env tables no_quotas).0 ≡ true
        → limit_of (load_quotas env tables no_quotas).1.1 linked_key
          ≡ configured_limit env linked_key tables.target tables.quota_config minus_one64)
load_quotas-configured_limit_example =
    load_quotas-configured_limit env tables no_quotas linked_key (omega arith) room_after_load

-- The table 50 exists and has 4096 bytes on the segment 1, to be flushed.
abbrev flagged : TableSizeEntry
flagged = record {
  key = table_size_key 50 1;
  tablespaceoid = 1663;
  namespaceoid = 2200;
  owneroid = 16;
  flag = 1;
  totalsize = λ i. if eqb i 1 then 4096 + 2 ^ 63 else 0;
}

abbrev one_table : TableSizeMap
one_table = record {
  map = (table_size_key 50 1, flagged) ∷ [];
  entry_num = 1;
  last_overflow_report = 0;
}

abbrev old_rows : List Row
old_rows = record { tableid = 50; segid = 1; size = 8192 } ∷ []

one_table-IsDistinct : IsDistinct one_table.map
unfolding find
one_table-IsDistinct = (refl, tt)

found_table : find (table_size_key 50 1) one_table.map ≡ some flagged
unfolding find table_key_eq
found_table = refl

row_at-flush_to_table_size_example :
    row_at 50 1 (flush_to_table_size env one_table old_rows).1
    ≡ elim (find (table_size_key 50 1) one_table.map) [
      | none ↦ row_at 50 1 old_rows
      | some e ↦
          if get_table_exist e
          then (if get_flush_flag e 1 then some (get_size e 1) else row_at 50 1 old_rows)
          else none
    ]
row_at-flush_to_table_size_example =
    row_at-flush_to_table_size env one_table old_rows 50 1 (refl, tt) one_table-IsDistinct
      (omega arith)

unflagged_agrees :
    get_table_exist flagged ≡ true
    → get_flush_flag flagged 1 ≡ false
    → row_at 50 1 old_rows ≡ some (get_size flagged 1)
unfolding get_flush_flag
unflagged_agrees there off = ground (arith, off)

row_at-flushed_map_example :
    row_at 50 1 (flush_to_table_size env one_table old_rows).1
    ≡ (if get_table_exist flagged then some (get_size flagged 1) else none)
row_at-flushed_map_example =
    row_at-flushed_map env one_table old_rows 50 1 flagged (refl, tt) one_table-IsDistinct
      (omega arith) found_table unflagged_agrees
