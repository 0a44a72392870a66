-- ===== src/Tests/Working.antt =====
-- Concrete inputs for a round of the worker.
use diskquota.TableSize.{
  get_table_exist, reset_flush_flag, set_table_exist, reset_table_exist, get_flush_flag,
  set_flush_flag, set_flush_flags, table_key_eq, new_table_size_entry, get_table_size_map_entry,
  set_size, get_size,
}
use diskquota.RejectEntry.{no_reject_entry, RejectMapEntry, reject_entry_has_eq}
use diskquota.SharedTable.{write, search_or_add}
use diskquota.Prelude.{[], ◌∷◌, refl, true, false, ◌≡◌, arith, some, map, ◌%◌}
use diskquota.Tests.{env, no_tables, no_quotas, no-Accounts, schema_key, schema_live}
use diskquota.Tests.Segments.{server, no_caches, empty_rejects}
use diskquota.Tests.Collection.{results, small_total, small_rows}
use diskquota.QuotaInfo.{update_size_for_quota, transfer_table_for_quota}
use diskquota.Worker.{
  Inputs, WorkerState, refresh_disk_quota_usage, dispatch_rejectmap,
  merge_uncommitted_table_to_oidlist, uncommitted_tables,
}
use diskquota.ActiveTables.Pull.{
  pull_active_list_from_seg, pull_active_table_size_from_seg, pull_oids, pull_results, add_oids,
  pull_rows, keys, pull_row, pull_sums,
}
use diskquota.QuotaInfo.Sizes.{size_of, IsRoomy}
use diskquota.Usage.Invariant.{usage}
use diskquota.Htab.{find, put, entries, update_all}
use diskquota.Words.{two64, inc32, slt32, add64, sub64, neg64}
use diskquota.Usage.{
  calculate_active_table_disk_usage, update_owner_quotas, track_namespace_owner_tablespace_changes,
  track_relations, track_segments, relation_owners, release_removed, release_segments,
  transfer_owners,
}
use diskquota.Worker.Round.{refresh_disk_quota_usage-sized, tracked}
use diskquota.Fullness.{check_hash_fullness_num}
use diskquota.QuotaType.{quota_key_eq}
use diskquota.RejectMap.{GlobalRejectMap}
use diskquota.Htab.Keys.{IsDistinct}
use diskquota.RejectMap.Laws.{mark}
use diskquota.RejectMap.Segment.{add_dispatched}
use diskquota.Worker.Sent.{mark-dispatch_rejectmap}
use diskquota.RelationCache.Update.{
  remove_committed_relation_from_cache, copy_own_relations, remove_committed,
}

-- The relation 50 is active on both segments.
abbrev inputs : Inputs
inputs = record {
  rel_oid_list = 50 ∷ [];
  table_size = λ o. 0;
  answers = record {
    saved = [];
    active = some (50 ∷ []) ∷ some (50 ∷ []) ∷ [];
    sizes = λ oids. map (λ x. some x) results;
  };
  hardlimit = true;
}

abbrev worker : WorkerState
worker = record {
  tables = no_tables;
  quotas = no_quotas;
  caches = no_caches;
  table_size = [];
  local = record { map = []; last_overflow_report = 0 };
  global = empty_rejects;
}

active_list : pull_active_list_from_seg inputs.answers.active ≡ some (50 ∷ [])
unfolding pull_active_list_from_seg pull_oids add_oids keys find put
active_list = refl

room_after_round :
    IsRoomy env
      (tracked env server inputs false worker
        (pull_active_table_size_from_seg env inputs.table_size
          (map (λ x. some x) results)
          (worker.tables, worker.quotas)).1).1
unfolding pull_active_table_size_from_seg pull_results pull_rows pull_row pull_sums
    calculate_active_table_disk_usage get_table_size_map_entry search_or_add check_hash_fullness_num
    find put inc32 slt32 add64 sub64 get_size set_size set_flush_flag get_flush_flag write
    new_table_size_entry set_flush_flags table_key_eq quota_key_eq update_owner_quotas
    update_size_for_quota track_namespace_owner_tablespace_changes track_relations track_segments
    relation_owners release_removed release_segments entries update_all reset_table_exist
    set_table_exist get_table_exist reset_flush_flag transfer_owners transfer_table_for_quota neg64
    merge_uncommitted_table_to_oidlist uncommitted_tables remove_committed_relation_from_cache
    copy_own_relations remove_committed
room_after_round = refl

refresh_disk_quota_usage-sized_example :
    size_of (refresh_disk_quota_usage env server inputs false worker).0.quotas schema_key
    ≡ usage (refresh_disk_quota_usage env server inputs false worker).0.tables schema_key % two64
refresh_disk_quota_usage-sized_example =
    refresh_disk_quota_usage-sized env server inputs worker (50 ∷ []) results schema_key active_list
      refl refl (omega arith) small_rows small_total schema_live no-Accounts room_after_round

-- The schema 2200 has reached its quota on a segment.
abbrev schema_reject : RejectMapEntry
schema_reject = record no_reject_entry { targetoid = 2200; databaseoid = 7; targettype = 0 }

abbrev rejects : GlobalRejectMap
rejects = record {
  map =
      (
        schema_reject,
        record { keyitem = schema_reject; segexceeded = true; auxblockinfo = no_reject_entry },
      )
      ∷ [];
  last_overflow_report = 0;
}

rejects-IsDistinct : IsDistinct rejects.map
unfolding find
rejects-IsDistinct = (refl, tt)

mark-dispatch_rejectmap_example :
    mark (find schema_reject (add_dispatched (dispatch_rejectmap rejects (50 ∷ [])).0 []))
    ≡ mark (find schema_reject rejects.map)
mark-dispatch_rejectmap_example =
    mark-dispatch_rejectmap rejects (50 ∷ []) schema_reject rejects-IsDistinct (refl, tt)
