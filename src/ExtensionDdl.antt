-- ===== src/ExtensionDdl.antt =====
-- The messages by which CREATE EXTENSION and DROP EXTENSION reach the launcher in src/diskquota.c,
-- and what the launcher then changes.
pub mod Laws
use diskquota.Prelude.{
  ℕ, suc, [], ◌∷◌, none, some, Option, Bool, List, if◌then◌else◌, false, eqb, leb, not, ltb, ◌||◌,
  true, ◌-◌,
}
use diskquota.Catalog.{Oid, invalid_oid}
use diskquota.Launcher.{DiskquotaDbEntry, add_db_entry, release_db_entry}
use diskquota.MonitoredDb.{
  MonitorDbEntry, FetchTableStatType, MonitoredDbidCache, update_monitor_db, add_db_to_monitor,
  remove_db_from_being_monitored,
}
use diskquota.RejectMap.{GlobalRejectMap, invalidate_database_rejectmap}

pub data MessageResult : Type 0 where
  err_pending err_ok err_exceed err_add_to_db err_del_from_db err_start_worker err_invalid_dbid
        err_unknown :
      MessageResult

-- MessageCommand; `other_cmd` is any other number.
pub data MessageCommand : Type 0 where
  cmd_create_extension cmd_drop_extension other_cmd : MessageCommand

-- The shared message, with `result` as it is answered.
pub record ExtensionDdlMessage : Type 0 where
  pub launcher_pid : ℕ
  pub req_pid : ℕ
  pub cmd : MessageCommand
  pub result : MessageResult
  pub dbid : Oid

-- What the launcher changes: num_db, isDynamicWorker, the table database_list, its slots, the cache
-- of monitored databases (all of its copies) and the reject map.
pub record LauncherState : Type 0 where
  pub num_db : ℕ
  pub is_dynamic_worker : Bool
  pub database_list : List Oid
  pub db_array : List DiskquotaDbEntry
  pub monitored : MonitoredDbidCache
  pub reject_map : GlobalRejectMap

-- What the launcher reads: whether the catalog has a database, whether SQL on database_list
-- succeeds, whether the SQL on the segments does, its limits, the time, and what the memory of a new cache entry holds.
pub record LauncherEnv : Type 0 where
  pub is_valid_dbid : Oid → Bool
  pub spi_succeeds : Bool
  pub segments_answer : Bool
  pub max_monitored_databases : ℕ
  pub max_workers : ℕ
  pub now : ℕ
  pub stale : MonitorDbEntry
  pub my_pid : ℕ

unfoldable pub has_db : Oid → List Oid → Bool
has_db dbid [] = false
has_db dbid (d ∷ ds) = eqb d dbid || has_db dbid ds

-- A database that is in the list already is passed over with a warning.
unfoldable pub add_dbid_to_database_list : Oid → List Oid → List Oid
unfolding has_db
add_dbid_to_database_list dbid ds = if has_db dbid ds then ds else dbid ∷ ds

unfoldable pub del_dbid_from_database_list : Oid → List Oid → List Oid
del_dbid_from_database_list dbid [] = []
del_dbid_from_database_list dbid (d ∷ ds) =
    let rest = del_dbid_from_database_list dbid ds in if eqb d dbid then rest else d ∷ rest

-- The result is the code at the time of the error, or the new list.
pub data Reply : Type 0 where
  error : MessageResult → Reply
  list : List Oid → Reply

unfoldable pub on_add_db : LauncherEnv → Oid → ℕ → List Oid → Reply
unfolding add_dbid_to_database_list
on_add_db env dbid num_db ds =
    if leb env.max_monitored_databases num_db
    then error err_exceed
    else if not (env.is_valid_dbid dbid)
    then error err_invalid_dbid
    else if env.spi_succeeds
    then list (add_dbid_to_database_list dbid ds)
    else error err_add_to_db

unfoldable pub on_del_db : LauncherEnv → Oid → List Oid → Reply
unfolding del_dbid_from_database_list
on_del_db env dbid ds =
    if not (env.is_valid_dbid dbid)
    then error err_invalid_dbid
    else if env.spi_succeeds
    then list (del_dbid_from_database_list dbid ds)
    else error err_del_from_db

-- What update_monitor_db_mpp comes to: an error, when the SQL that runs update_monitor_db on the
-- segments fails, before anything is changed here; the end of the process, where update_monitor_db
-- writes through a null pointer; or the new cache.
pub data MppUpdate : Type 0 where
  segments_failed null_pointer : MppUpdate
  updated : MonitoredDbidCache → MppUpdate

unfoldable pub update_monitor_db_mpp :
    LauncherEnv → Oid → FetchTableStatType → MonitoredDbidCache → MppUpdate
update_monitor_db_mpp env dbid action m =
    if not env.segments_answer
    then segments_failed
    else elim (update_monitor_db env.max_monitored_databases env.stale dbid action m) [
      | none ↦ null_pointer
      | some m' ↦ updated m'
    ]

-- What a message comes to: an answer and a new state, or the end of the launcher.
pub data Processed : Type 0 where
  crashed : Processed
  answered : MessageResult → LauncherState → Processed

-- The second transaction. Its error is caught, what it has already changed in memory stays, and the
-- code has been set before.
unfoldable pub update_memory_on_create : LauncherEnv → Oid → LauncherState → Processed
unfolding update_monitor_db_mpp
update_memory_on_create env dbid s =
    let s1 = record s {
      is_dynamic_worker = if ltb env.max_workers s.num_db then true else s.is_dynamic_worker;
      db_array = (add_db_entry env.now dbid s.db_array).1;
    } in
    elim (update_monitor_db_mpp env dbid add_db_to_monitor s.monitored) [
      | segments_failed ↦ answered err_ok s1
      | null_pointer ↦ crashed
      | updated m ↦ answered err_ok (record s1 { monitored = m })
    ]

unfoldable pub update_memory_on_drop : LauncherEnv → Oid → LauncherState → Processed
unfolding update_monitor_db_mpp
update_memory_on_drop env dbid s =
    let s1 = record s {
      is_dynamic_worker = if leb s.num_db env.max_workers then false else s.is_dynamic_worker;
      db_array = (release_db_entry dbid s.db_array).1;
    } in
    elim (update_monitor_db_mpp env dbid remove_db_from_being_monitored s.monitored) [
      | segments_failed ↦ answered err_ok s1
      | null_pointer ↦ crashed
      | updated m ↦ answered err_ok (record s1 {
        monitored = m;
        reject_map = invalidate_database_rejectmap dbid s.reject_map;
      })
    ]

-- The first transaction changes database_list, which an error undoes together with num_db.
unfoldable pub do_process_extension_ddl_message :
    LauncherEnv → MessageCommand → Oid → LauncherState → Processed
unfolding on_add_db on_del_db update_memory_on_create update_memory_on_drop
do_process_extension_ddl_message env cmd_create_extension dbid s =
    elim (on_add_db env dbid s.num_db s.database_list) [
      | error code ↦ answered code s
      | list ds ↦
          update_memory_on_create env dbid (record s { num_db = suc s.num_db; database_list = ds })
    ]
do_process_extension_ddl_message env cmd_drop_extension dbid s =
    elim (on_del_db env dbid s.database_list) [
      | error code ↦ answered code s
      | list ds ↦
          update_memory_on_drop env dbid (record s { num_db = s.num_db - 1; database_list = ds })
    ]
do_process_extension_ddl_message env other_cmd dbid s = answered err_unknown s

-- The message after an answer.
abbrev pub answer : LauncherEnv → MessageResult → ExtensionDdlMessage
answer env code = record {
  launcher_pid = env.my_pid;
  req_pid = 0;
  cmd = other_cmd;
  result = code;
  dbid = invalid_oid;
}

-- A message that is not for this launcher is left alone; none is the end of the launcher.
unfoldable pub process_extension_ddl_message :
    LauncherEnv → ExtensionDdlMessage × LauncherState → Option (ExtensionDdlMessage × LauncherState)
unfolding do_process_extension_ddl_message
process_extension_ddl_message env (m, s) =
    if eqb m.req_pid 0 || not (eqb m.launcher_pid env.my_pid)
    then some (m, s)
    else elim (do_process_extension_ddl_message env m.cmd m.dbid s) [
      | crashed ↦ none
      | answered code s' ↦ some (answer env code, s')
    ]
