-- ===== src/ActiveTables/Collect.antt =====
-- get_active_tables_oid and get_active_tables_stats of src/gp_activetable.c: which tables the worker
-- asks the sizes of, and what it puts back for its next round.
use diskquota.Prelude.{
  [], ◌∷◌, Bool, true, false, ◌&&◌, none, some, not, eqb, ltb, if◌then◌else◌, nat_eq,
}
use diskquota.ActiveTables.{
  file_entry_has_eq, ActiveTableFileEntry, add_active_file, Node, ActiveTableEntry, SegmentState,
}
use diskquota.Htab.{Htab, find, remove_if, put, remove}
use diskquota.Catalog.{Oid, Env, oid_is_valid, coordinator}
use diskquota.RelationCache.{RelationCaches, get_relid_by_relfilenode}
use diskquota.RejectEntry.{RelFileNode}
use diskquota.MonitoredDb.{refresh_monitored_dbid_cache}
use diskquota.RelationCache.Update.{get_primary_table_oid, remove_committed_relation_from_cache}

abbrev pub ActiveTableStats : Type 0
ActiveTableStats = Htab Oid ActiveTableEntry

-- "hash_search(..., HASH_ENTER, &found)" and the initialisation of a new entry
unfoldable pub add_active_oid : Oid → ActiveTableStats → ActiveTableStats
add_active_oid oid stats = elim (find oid stats) [
  | some _ ↦ stats
  | none ↦ put oid (record { reloid = oid; segid = coordinator; tablesize = 0 }) stats
]

-- The first scan: the files of the session's database go to the local map.
unfoldable pub own_files : Env → Htab ActiveTableFileEntry Unit → Htab ActiveTableFileEntry Unit
own_files env [] = []
own_files env ((k, v) ∷ m) =
    let rest = own_files env m in if eqb k.dbid env.my_database_id then (k, v) ∷ rest else rest

-- The local map of files, the tables found, and the caches, during the second scan.
pub record Collecting : Type 0 where
  pub files : Htab ActiveTableFileEntry Unit
  pub stats : ActiveTableStats
  pub caches : RelationCaches

unfoldable pub is_cached_relfilenode_stale : Env → Oid → RelFileNode → Bool
is_cached_relfilenode_stale env oid f = elim (env.pg_class oid) [
  | none ↦ false
  | some c ↦ not (eqb c.relfilenode f.rel_node)
]

abbrev pub entry_file : ActiveTableFileEntry → RelFileNode
entry_file k = record { spc_node = k.tablespaceoid; db_node = k.dbid; rel_node = k.relfilenode }

-- The round for a file whose relation is `oid`.
unfoldable pub collect_relation : Env → Node → ActiveTableFileEntry → Oid → Collecting → Collecting
unfolding add_active_oid is_cached_relfilenode_stale
collect_relation env node k oid s =
    if not (oid_is_valid oid)
    then s
    else if ltb oid node.first_normal_object_id
    then record s { files = remove k s.files }
    else (let prelid = get_primary_table_oid env node.server oid true s.caches in
        record s {
          stats = add_active_oid prelid s.stats;
          files =
              if not (node.is_relation_being_altered oid)
                && not (is_cached_relfilenode_stale env oid (entry_file k))
              then remove k s.files
              else s.files;
        })

unfoldable pub collect_file : Env → Node → ActiveTableFileEntry → Collecting → Collecting
unfolding collect_relation
collect_file env node k s =
    if eqb k.dbid env.my_database_id
    then (let (oid, c) =
          get_relid_by_relfilenode node.server.relid_by_relfilenode (entry_file k) s.caches in
        collect_relation env node k oid (record s { caches = c }))
    else s

-- The second scan, over the entries of the local map.
unfoldable pub collect_files : Env → Node → Htab ActiveTableFileEntry Unit → Collecting → Collecting
unfolding collect_file
collect_files env node [] s = s
collect_files env node ((k, _) ∷ m) s = collect_files env node m (collect_file env node k s)

-- The files that remain go back to the shared map.
unfoldable pub add_back : Env → Node → Htab ActiveTableFileEntry Unit → SegmentState → SegmentState
unfolding add_active_file
add_back env node [] s = s
add_back env node ((k, _) ∷ m) s = add_back env node m (add_active_file env node k s)

-- The scans of altered_reloid_cache: the altered relations are active, and those still being altered
-- stay in the cache.
unfoldable pub add_altered : Htab Oid Unit → ActiveTableStats → ActiveTableStats
unfolding add_active_oid
add_altered [] stats = stats
add_altered ((oid, _) ∷ m) stats =
    add_altered m (if oid_is_valid oid then add_active_oid oid stats else stats)

abbrev pub is_settled : Node → Oid → Bool
is_settled node oid = oid_is_valid oid && not (node.is_relation_being_altered oid)

-- local_altered_reloid_cache once the settled relations have been removed from it.
abbrev pub unsettled : Node → Htab Oid Unit → Htab Oid Unit
unsettled node m = remove_if (λ oid _. is_settled node oid) m

abbrev pub is_absent : Htab Oid Unit → Oid → Bool
is_absent m oid = elim (find oid m) [ none ↦ true | some _ ↦ false ]

-- The part of get_active_tables_oid after the files have been taken out of the shared map.
unfoldable pub finish_collection :
    Env → Node → Collecting → SegmentState → ActiveTableStats × SegmentState
unfolding add_back add_altered
finish_collection env node done s =
    let s1 = add_back env node done.files (record s { caches = done.caches }) in
    let altered = s1.altered_reloid_cache.map in
    let local_altered = unsettled node altered in
    let s2 = record s1 {
      altered_reloid_cache = record s1.altered_reloid_cache {
        map = remove_if (λ oid _. is_absent local_altered oid) altered;
      };
    } in
    (add_altered altered done.stats, add_back env node done.files s2)

unfoldable pub get_active_tables_oid : Env → Node → SegmentState → ActiveTableStats × SegmentState
unfolding own_files collect_files finish_collection
get_active_tables_oid env node s =
    let monitored =
      refresh_monitored_dbid_cache node.max_monitored node.stale_monitor_entry env.my_database_id
        s.monitored in
    let local = own_files env s.active_tables_map in
    let s1 = record s {
      monitored = monitored;
      active_tables_map = remove_if (λ k _. eqb k.dbid env.my_database_id) s.active_tables_map;
    } in
    let done = collect_files env node local (record {
      files = local;
      stats = [];
      caches = remove_committed_relation_from_cache env node.server s.caches;
    }) in
    finish_collection env node done s1
