-- ===== src/ActiveTables.antt =====
-- src/gp_activetable.c on a segment: the hooks that record which files and relations change, and the
-- collection of the active tables by the worker.
pub mod Collect
pub mod Collected
pub mod Rounds
pub mod Report
pub mod Pull
use diskquota.Prelude.{
  ℕ, suc, [], ◌∷◌, List, Bool, true, false, ◌&&◌, ◌||◌, Option, none, some, ◌+◌, not, eqb, ltb,
  if◌then◌else◌, nat_eq, length, KeyEq, ◌≡◌, ◌↔◌, arith,
}
use diskquota.Catalog.{Oid, Env, SegId, invalid_oid}
use diskquota.Htab.{Htab, remove, find}
use diskquota.RelationCache.Update.{Server, update_relation_cache}
use diskquota.RejectEntry.{RelFileNode, GlobalRejectMapEntry}
use diskquota.RejectMap.{
  GlobalRejectMap, Session, invalidate_database_rejectmap, quota_check_common,
}
use diskquota.RelationCache.{RelationCaches, remove_cache_entry}
use diskquota.MonitoredDb.{MonitorDbEntry, MonitoredDbidCache}
use diskquota.SharedTable.{search_or_add_bounded, Bounded}

-- DiskQuotaActiveTableFileEntry, an entry that is its own key
pub record ActiveTableFileEntry : Type 0 where
  pub dbid : Oid
  pub relfilenode : Oid
  pub tablespaceoid : Oid

abbrev pub file_entry_eq : ActiveTableFileEntry → ActiveTableFileEntry → Bool
file_entry_eq a b =
    eqb a.dbid b.dbid && eqb a.relfilenode b.relfilenode && eqb a.tablespaceoid b.tablespaceoid

pub file_entry_eq_iff : (a b : ActiveTableFileEntry) → (file_entry_eq a b ≡ true) ↔ (a ≡ b)
file_entry_eq_iff a b = ground arith

instance abbrev pub file_entry_has_eq : KeyEq ActiveTableFileEntry
file_entry_has_eq = record { eq_test = file_entry_eq; eq_test_iff = file_entry_eq_iff }

-- DiskQuotaActiveTableEntry; its size and segment are not set by this part.
pub record ActiveTableEntry : Type 0 where
  pub reloid : Oid
  pub segid : SegId
  pub tablesize : ℕ

-- The tables in the shared memory of a segment that this part reads and writes. The overflow of
-- active_tables_map is reported through the same variable as that of the relation caches.
pub record SegmentState : Type 0 where
  pub active_tables_map : Htab ActiveTableFileEntry Unit
  pub caches : RelationCaches
  pub altered_reloid_cache : Bounded Oid Unit
  pub monitored : MonitoredDbidCache

-- The segment's role, and what the server answers: is_relation_being_altered asks for its locks.
pub record Node : Type 0 where
  pub server : Server
  pub is_role_mirror : Bool
  pub is_query_dispatcher : Bool
  pub first_normal_object_id : Oid
  pub is_relation_being_altered : Oid → Bool
  pub max_monitored : ℕ
  pub stale_monitor_entry : MonitorDbEntry
  -- RELKIND_FOREIGN_TABLE, RELKIND_COMPOSITE_TYPE and RELKIND_VIEW
  pub relkind_foreign_table : ℕ
  pub relkind_composite_type : ℕ
  pub relkind_view : ℕ

abbrev pub file_entry : RelFileNode → ActiveTableFileEntry
file_entry f = record { dbid = f.db_node; relfilenode = f.rel_node; tablespaceoid = f.spc_node }

abbrev pub is_monitored : Oid → MonitoredDbidCache → Bool
is_monitored dbid m = elim (find dbid m) [ none ↦ false | some _ ↦ true ]

-- check_hash_fullness and hash_search on active_tables_map
unfoldable pub add_active_file : Env → Node → ActiveTableFileEntry → SegmentState → SegmentState
add_active_file env node item s =
    let t =
      (search_or_add_bounded env.clock node.server.max_active_tables tt item (record {
        map = s.active_tables_map;
        last_overflow_report = s.caches.last_overflow_report;
      })).1 in
    record s {
      active_tables_map = t.map;
      caches = record s.caches { last_overflow_report = t.last_overflow_report };
    }

unfoldable pub report_active_table_helper : Env → Node → RelFileNode → SegmentState → SegmentState
unfolding add_active_file
report_active_table_helper env node f s =
    if node.is_role_mirror || not (is_monitored f.db_node s.monitored)
    then s
    else add_active_file env node (file_entry f) s

unfoldable pub remove_from_active_table_map : RelFileNode → SegmentState → SegmentState
remove_from_active_table_map f s = record s {
  active_tables_map = remove (file_entry f) s.active_tables_map;
}

-- The hooks of the storage manager, without those installed before them. A write is checked against
-- the reject map after it has been recorded; the second part of the result is the error.
unfoldable pub active_table_hook_smgrcreate : Env → Node → RelFileNode → SegmentState → SegmentState
unfolding report_active_table_helper
active_table_hook_smgrcreate env node f s = report_active_table_helper env node f s

unfoldable pub active_table_hook_smgrextend :
    Env
    → Node
    → Session
    → GlobalRejectMap
    → RelFileNode
    → SegmentState
    → SegmentState × Option GlobalRejectMapEntry
unfolding report_active_table_helper
active_table_hook_smgrextend env node session g f s =
    (report_active_table_helper env node f s, quota_check_common env session invalid_oid (some f) g)

unfoldable pub active_table_hook_smgrtruncate :
    Env → Node → RelFileNode → SegmentState → SegmentState
unfolding report_active_table_helper
active_table_hook_smgrtruncate env node f s = report_active_table_helper env node f s

unfoldable pub active_table_hook_smgrunlink : RelFileNode → SegmentState → SegmentState
unfolding remove_from_active_table_map
active_table_hook_smgrunlink f s =
    let s' = remove_from_active_table_map f s in
    record s' { caches = remove_cache_entry invalid_oid f.rel_node s'.caches }

unfoldable pub report_altered_reloid : Env → Node → Oid → SegmentState → SegmentState
report_altered_reloid env node reloid s =
    if node.is_role_mirror || node.is_query_dispatcher then s else record s {
      altered_reloid_cache =
          (search_or_add_bounded env.clock node.server.max_active_tables tt reloid
            s.altered_reloid_cache).1;
    }

-- none where update_relation_cache overruns an array
unfoldable pub report_relation_cache_helper : Env → Node → Oid → SegmentState → Option SegmentState
report_relation_cache_helper env node relid s =
    if node.is_role_mirror || not (is_monitored env.my_database_id s.monitored)
    then some s
    else elim (node.server.relation_open relid) [
      | none ↦ some s
      | some rel ↦
          if not (eqb rel.relkind node.relkind_foreign_table)
            && not (eqb rel.relkind node.relkind_composite_type)
            && not (eqb rel.relkind node.relkind_view)
          then elim (update_relation_cache env node.server relid s.caches) [
            | none ↦ none
            | some c ↦ some (record s { caches = c })
          ]
          else some s
    ]

-- ObjectAccessType, and the catalogs that the hook tells apart.
pub data ObjectAccessType : Type 0 where
  oat_post_create oat_post_alter oat_drop oat_other : ObjectAccessType

pub data ClassId : Type 0 where
  extension_relation_id relation_relation_id other_class : ClassId

-- The state, the reject map, and whether diskquota_stop_worker is called.
abbrev pub Accessed : Type 0
Accessed = SegmentState × (GlobalRejectMap × Bool)

unfoldable pub object_access_hook_drop_extension :
    Env → Option Oid → Oid → SegmentState × GlobalRejectMap → Accessed
object_access_hook_drop_extension env diskquota_oid object_id (s, g) = elim diskquota_oid [
  | none ↦ (s, (g, false))
  | some oid ↦
      if eqb oid object_id
      then (s, (invalidate_database_rejectmap env.my_database_id g, true))
      else (s, (g, false))
]

unfoldable pub object_access_hook_relation :
    Env → Node → ObjectAccessType → Oid → SegmentState → Option SegmentState
unfolding report_relation_cache_helper report_altered_reloid
object_access_hook_relation env node oat_post_create object_id s =
    report_relation_cache_helper env node object_id s
object_access_hook_relation env node oat_post_alter object_id s =
    some (report_altered_reloid env node object_id s)
object_access_hook_relation env node oat_drop object_id s = some s
object_access_hook_relation env node oat_other object_id s = some s

abbrev pub is_extension_drop : ClassId → ObjectAccessType → Bool
is_extension_drop extension_relation_id oat_drop = true
is_extension_drop extension_relation_id oat_post_create = false
is_extension_drop extension_relation_id oat_post_alter = false
is_extension_drop extension_relation_id oat_other = false
is_extension_drop relation_relation_id access = false
is_extension_drop other_class access = false

abbrev pub is_relation_class : ClassId → Bool
is_relation_class extension_relation_id = false
is_relation_class relation_relation_id = true
is_relation_class other_class = false

-- `diskquota_oid` is get_extension_oid("diskquota", true).
unfoldable pub object_access_hook_quota_stmt :
    Env
    → Node
    → Option Oid
    → ObjectAccessType
    → ClassId
    → Oid
    → ℕ
    → SegmentState × GlobalRejectMap
    → Option Accessed
unfolding object_access_hook_drop_extension object_access_hook_relation
object_access_hook_quota_stmt env node diskquota_oid access class object_id sub_id (s, g) =
    if is_extension_drop class access
    then some (object_access_hook_drop_extension env diskquota_oid object_id (s, g))
    else if not (is_relation_class class) || not (eqb sub_id 0)
    then some (s, (g, false))
    else if ltb object_id node.first_normal_object_id
    then some (s, (g, false))
    else elim (object_access_hook_relation env node access object_id s) [
      | none ↦ none
      | some s' ↦ some (s', (g, false))
    ]
