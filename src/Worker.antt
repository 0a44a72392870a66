-- ===== src/Worker.antt =====
-- A round of the worker: refresh_disk_quota_model and refresh_disk_quota_usage of src/quotamodel.c,
-- with the relations that are not committed and the dispatch of the reject map to the segments.
pub mod Round
pub mod Sent
use diskquota.Prelude.{
  [], ◌∷◌, true, nat_eq, List, Option, map, Bool, some, false, if◌then◌else◌, ◌++◌, eqb, none, ◌||◌,
  ◌&&◌, ℕ,
}
use diskquota.Catalog.{Env, Oid}
use diskquota.Htab.{Htab}
use diskquota.RejectMap.{GlobalRejectMap, flush_local_reject_map}
use diskquota.TableSize.{TableSizeMap}
use diskquota.Config.{Tables}
use diskquota.RelationCache.Update.{Server, remove_committed_relation_from_cache}
use diskquota.RejectEntry.{RejectMapEntry, GlobalRejectMapEntry}
use diskquota.QuotaInfo.{QuotaInfoMap, LocalRejectMap, refresh_quota_info_map}
use diskquota.RelationCache.{RelationCacheEntry, RelationCaches}
use diskquota.RejectMap.Segment.{Dispatched}
use diskquota.ActiveTables.Pull.{Answers, gp_fetch_active_tables}
use diskquota.Flush.{Row, flush_to_table_size}
use diskquota.Usage.{track_namespace_owner_tablespace_changes}
use diskquota.LoadQuotas.{load_quotas}

-- merge_uncommitted_table_to_oidlist: the oids at the end are the cached tables of the database.
unfoldable pub uncommitted_tables : Env → Htab Oid RelationCacheEntry → List Oid
uncommitted_tables env [] = []
uncommitted_tables env ((_, e) ∷ m) =
    let rest = uncommitted_tables env m in
    if eqb e.primary_table_relid e.relid && eqb e.rnode.db_node env.my_database_id
    then e.relid ∷ rest
    else rest

unfoldable pub merge_uncommitted_table_to_oidlist :
    Env → Server → List Oid → RelationCaches → List Oid × RelationCaches
unfolding uncommitted_tables
merge_uncommitted_table_to_oidlist env server oidlist c =
    let c' = remove_committed_relation_from_cache env server c in
    (oidlist ++ uncommitted_tables env c'.relation_cache, c')

-- A row of the array in the text that dispatch_rejectmap sends.
abbrev pub dispatched_row : GlobalRejectMapEntry → Dispatched
dispatched_row e = record {
  targetoid = e.keyitem.targetoid;
  databaseoid = e.keyitem.databaseoid;
  tablespaceoid = e.keyitem.tablespaceoid;
  targettype = e.keyitem.targettype;
  segexceeded = e.segexceeded;
}

unfoldable pub dispatched_rows : Htab RejectMapEntry GlobalRejectMapEntry → List (Option Dispatched)
dispatched_rows [] = []
dispatched_rows ((k, e) ∷ m) = some (dispatched_row e) ∷ dispatched_rows m

-- The arguments of refresh_rejectmap.
abbrev pub Dispatch : Type 0
Dispatch = List (Option Dispatched) × List (Option Oid)

unfoldable pub dispatch_rejectmap : GlobalRejectMap → List Oid → Dispatch
unfolding dispatched_rows
dispatch_rejectmap g oids = (dispatched_rows g.map, map (λ o. some o) oids)

-- What the worker reads in a round: get_rel_oid_list, the sizes on the coordinator, the answers to
-- its queries, and diskquota_hardlimit.
pub record Inputs : Type 0 where
  pub rel_oid_list : List Oid
  pub table_size : Oid → ℕ
  pub answers : Answers
  pub hardlimit : Bool

pub record WorkerState : Type 0 where
  pub tables : TableSizeMap
  pub quotas : QuotaInfoMap
  pub caches : RelationCaches
  pub table_size : List Row
  pub local : LocalRejectMap
  pub global : GlobalRejectMap

abbrev pub is_nonempty : List Oid → Bool
is_nonempty [] = false
is_nonempty (oid ∷ oids) = true

-- The steps after gp_fetch_active_tables, which has left `x`. The map of tables is written out
-- before the reject map is flushed.
unfoldable pub refresh_fetched :
    Env
    → Server
    → Inputs
    → Bool
    → List Oid
    → TableSizeMap × QuotaInfoMap
    → WorkerState
    → WorkerState × Option Dispatch
unfolding merge_uncommitted_table_to_oidlist dispatch_rejectmap
refresh_fetched env server i is_init active_oids x s =
    let (oidlist, caches) = merge_uncommitted_table_to_oidlist env server i.rel_oid_list s.caches in
    let (t, q) =
      track_namespace_owner_tablespace_changes env is_init caches.relation_cache oidlist x in
    let (q', local) = refresh_quota_info_map env (q, s.local) in
    let (t', rows) = flush_to_table_size env t s.table_size in
    let flushed = flush_local_reject_map env s.global local in
    (
      record {
        tables = t';
        quotas = q';
        caches = caches;
        table_size = rows;
        local = record local { map = flushed.local };
        global = flushed.global;
      },
      if is_init || (i.hardlimit && (flushed.changed || is_nonempty active_oids))
          then some (dispatch_rejectmap flushed.global active_oids)
          else none,
    )

-- An error while the sizes are fetched is caught; what the maps hold already stays.
unfoldable pub refresh_disk_quota_usage :
    Env → Server → Inputs → Bool → WorkerState → WorkerState × Option Dispatch
unfolding refresh_fetched
refresh_disk_quota_usage env server i is_init s =
    let (active, x) =
      gp_fetch_active_tables env i.table_size is_init i.answers (s.tables, s.quotas) in
    elim active [
      | none ↦ (record s { tables = x.0; quotas = x.1 }, none)
      | some oids ↦ refresh_fetched env server i is_init oids x s
    ]

pub data ModelRefresh : Type 0 where
  no_active_segment : ModelRefresh
  model_refreshed : Tables → WorkerState → Option Dispatch → ModelRefresh

-- `config` are the configuration tables.
unfoldable pub refresh_disk_quota_model :
    Env → Server → Inputs → Bool → Tables → WorkerState → ModelRefresh
unfolding refresh_disk_quota_usage
refresh_disk_quota_model env server i is_init config s =
    if eqb env.segcount 0
    then no_active_segment
    else (let (ok, (config', q)) = load_quotas env config s.quotas in
        let loaded = record s { quotas = q } in
        if ok
        then (let (s', d) = refresh_disk_quota_usage env server i is_init loaded in
            model_refreshed config' s' d)
        else model_refreshed config' loaded none)
