-- ===== src/Tests/Collection.antt =====
-- Concrete inputs for the collection of active tables: on a segment, and by the worker.
use diskquota.Prelude.{
  ℕ, [], ◌∷◌, none, some, refl, true, false, ◌≡◌, ◌≢◌, arith, List, ◌<◌, ◌%◌, eqb, nat_eq, ◌||◌,
  All, ◌↔◌, map, ◌++◌, Bool,
}
use diskquota.TableSize.{
  set_flush_flag, get_flush_flag, new_table_size_entry, set_flush_flags, table_key_eq, get_size,
  set_size, get_table_size_map_entry, TableSizeMap,
}
use diskquota.SharedTable.{write, search_or_add}
use diskquota.ActiveTables.{
  file_entry_has_eq, Node, ActiveTableFileEntry, SegmentState, file_entry, is_monitored,
  active_table_hook_smgrextend,
}
use diskquota.Tests.{env, class, no_tables, no_quotas, no-Accounts}
use diskquota.Tests.Segments.{server, no_caches, empty_rejects}
use diskquota.RejectEntry.{RelFileNode}
use diskquota.Htab.{find, put}
use diskquota.ActiveTables.Collected.{IsActive}
use diskquota.RejectMap.{Session}
use diskquota.ActiveTables.Pull.{
  get_active_tables_stats, TableStat, pull_active_table_size_from_seg, pull_results, pull_rows,
  pull_row, pull_sums,
}
use diskquota.ActiveTables.Pull.Sums.{result_sum, row_sum}
use diskquota.Words.{add64, two64, two63, inc32, slt32, sub64}
use diskquota.Usage.Invariant.{Accounts}
use diskquota.RelationCache.Update.{parse_primary_table_oid}
use diskquota.ActiveTables.Collect.{get_active_tables_oid, is_cached_relfilenode_stale}
use diskquota.ActiveTables.Pull.Nulls.{set_bits, get_active_tables_stats-null}
use diskquota.Usage.Active.{active_size}
use diskquota.ActiveTables.Pull.Worker.{pull_active_table_size_from_seg-Accounts}
use diskquota.ActiveTables.Report.{
  get_active_tables_oid-other_database, get_active_tables_oid-altered, get_active_tables_oid-file,
  active_table_hook_smgrextend-reported,
}
use diskquota.QuotaInfo.{QuotaInfoMap, update_size_for_quota}
use diskquota.Usage.{calculate_active_table_disk_usage, update_owner_quotas}
use diskquota.Fullness.{check_hash_fullness_num}
use diskquota.QuotaType.{quota_key_eq}
use diskquota.QuotaInfo.Sizes.{IsRoomy}

abbrev pub node : Node
node = record {
  server = server;
  is_role_mirror = false;
  is_query_dispatcher = false;
  first_normal_object_id = 20;
  is_relation_being_altered = λ o. eqb o 70;
  max_monitored = 5;
  stale_monitor_entry = record { status = 0; paused = true; is_readiness_logged = true; epoch = 9 };
  relkind_foreign_table = 102;
  relkind_composite_type = 99;
  relkind_view = 118;
}

abbrev table_file : RelFileNode
table_file = record { spc_node = 1663; db_node = 7; rel_node = 50 }

abbrev other_entry : ActiveTableFileEntry
other_entry = record { dbid = 8; relfilenode = 50; tablespaceoid = 1663 }

-- A file of the session's database and one of another, and an altered relation.
abbrev state : SegmentState
state = record {
  active_tables_map = (file_entry table_file, tt) ∷ (other_entry, tt) ∷ [];
  caches = no_caches;
  altered_reloid_cache = record { map = (70, tt) ∷ []; last_overflow_report = 0 };
  monitored =
      (7, record { status = 5; paused = false; is_readiness_logged = true; epoch = 3 }) ∷ [];
}

recorded : find (file_entry table_file) state.active_tables_map ≢ none
unfolding find
recorded p = ground (arith, p)

get_active_tables_oid-file_example :
    IsActive (parse_primary_table_oid env server 50 true) (get_active_tables_oid env node state).0
    × ((find (file_entry table_file) (get_active_tables_oid env node state).1.active_tables_map
          ≡ none)
        ↔ ((eqb 50 70 || is_cached_relfilenode_stale env 50 table_file) ≡ false))
get_active_tables_oid-file_example =
    get_active_tables_oid-file env node state (file_entry table_file) 50 class (omega arith)
      (omega arith) recorded refl refl refl refl refl

get_active_tables_oid-other_database_example :
    find other_entry (get_active_tables_oid env node state).1.active_tables_map
    ≡ find other_entry state.active_tables_map
get_active_tables_oid-other_database_example =
    get_active_tables_oid-other_database env node state other_entry (omega arith)

altered_recorded : find 70 state.altered_reloid_cache.map ≢ none
unfolding find
altered_recorded p = ground (arith, p)

get_active_tables_oid-altered_example :
    IsActive 70 (get_active_tables_oid env node state).0
    × ((find 70 (get_active_tables_oid env node state).1.altered_reloid_cache.map ≡ none)
        ↔ (eqb 70 70 ≡ false))
get_active_tables_oid-altered_example =
    get_active_tables_oid-altered env node state 70 refl altered_recorded

is_monitored_here : is_monitored 7 state.monitored ≡ true
unfolding find
is_monitored_here = refl

abbrev session : Session
session = record { is_transaction_state = true; hardlimit = true; monitored = state.monitored }

active_table_hook_smgrextend-reported_example :
    IsActive
      (parse_primary_table_oid env server 50 true)
      (get_active_tables_oid env node
        (active_table_hook_smgrextend env node session empty_rejects table_file state).0).0
active_table_hook_smgrextend-reported_example =
    active_table_hook_smgrextend-reported env node state session empty_rejects table_file 50 class
      refl is_monitored_here (omega arith) (omega arith) refl refl refl refl refl

get_active_tables_stats-null_example :
    get_active_tables_stats (λ o. 8192) 1 (set_bits 1 ++ (false ∷ true ∷ [])) (50 ∷ 51 ∷ [])
    ≡ get_active_tables_stats (λ o. 8192) 1 (set_bits 1) (50 ∷ [])
get_active_tables_stats-null_example =
    get_active_tables_stats-null (λ o. 8192) 1 (true ∷ []) (50 ∷ []) (51 ∷ [])

-- Both segments hold 4096 bytes of the relation 50.
abbrev pub results : List (List TableStat)
results =
    (record { reloid = 50; tablesize = 4096; segid = 1 } ∷ [])
    ∷ (record { reloid = 50; tablesize = 4096; segid = 2 } ∷ [])
    ∷ []

abbrev pulled : Bool × (TableSizeMap × QuotaInfoMap)
pulled =
    pull_active_table_size_from_seg env (λ o. 0) (map (λ x. some x) results) (no_tables, no_quotas)

room_after_pull : IsRoomy env pulled.1.1
unfolding pull_active_table_size_from_seg pull_results pull_rows pull_row pull_sums
    calculate_active_table_disk_usage get_table_size_map_entry search_or_add check_hash_fullness_num
    find put inc32 slt32 add64 sub64 get_size set_size set_flush_flag get_flush_flag write
    new_table_size_entry set_flush_flags table_key_eq quota_key_eq update_owner_quotas
    update_size_for_quota
room_after_pull = refl

pub small_total : (oid : ℕ) → active_size (λ o. 0) oid (result_sum oid results % two64) 0 < two63
unfolding result_sum row_sum add64
small_total oid = ground arith

pub small_rows : All (All (λ r. active_size (λ o. 0) r.reloid r.tablesize r.segid < two63)) results
unfolding add64
small_rows = ((omega arith, tt), ((omega arith, tt), tt))

pull_active_table_size_from_seg-Accounts_example :
    (pulled.0 ≡ true) × Accounts env pulled.1.0 pulled.1.1
pull_active_table_size_from_seg-Accounts_example =
    pull_active_table_size_from_seg-Accounts env (λ o. 0) results no_tables no_quotas refl
      (omega arith) small_rows small_total no-Accounts room_after_pull
