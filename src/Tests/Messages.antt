-- ===== src/Tests/Messages.antt =====
-- Concrete inputs for the messages of CREATE and DROP EXTENSION.
use diskquota.Prelude.{
  [], ◌∷◌, none, true, false, refl, eqb, ◌≡◌, ◌≢◌, ◌⊎◌, length, ◌+◌, ◌-◌, ◌≤◌, ◌<◌, ◌&&◌, ◌||◌, not,
  if◌then◌else◌, nat_eq,
}
use diskquota.ExtensionDdl.{
  cmd_create_extension, cmd_drop_extension, err_ok, crashed, answered, LauncherEnv, LauncherState,
  do_process_extension_ddl_message, has_db, on_del_db, update_memory_on_drop, MessageResult,
  update_monitor_db_mpp, del_dbid_from_database_list,
}
use diskquota.Htab.{find, remove}
use diskquota.RejectEntry.{reject_entry_has_eq, RejectMapEntry}
use diskquota.Tests.Databases.{late, cache, slots}
use diskquota.RejectMap.{GlobalRejectMap, invalidate_database_rejectmap}
use diskquota.Launcher.Laws.{serving}
use diskquota.Launcher.{release_db_entry}
use diskquota.ActiveTables.{is_monitored}
use diskquota.ExtensionDdl.Laws.{
  do_process_extension_ddl_message-drop, do_process_extension_ddl_message-create,
}
use diskquota.MonitoredDb.{update_monitor_db}

abbrev no_rejects : GlobalRejectMap
no_rejects = record { map = []; last_overflow_report = 0 }

abbrev launcher_env : LauncherEnv
launcher_env = record {
  is_valid_dbid = λ o. true;
  spi_succeeds = true;
  segments_answer = true;
  max_monitored_databases = 4;
  max_workers = 2;
  now = 9;
  stale = late;
  my_pid = 100;
}

abbrev state : LauncherState
state = record {
  num_db = 1;
  is_dynamic_worker = false;
  database_list = 7 ∷ [];
  db_array = slots;
  monitored = cache;
  reject_map = no_rejects;
}

do_process_extension_ddl_message-create_example :
    ((do_process_extension_ddl_message launcher_env cmd_create_extension 8 state ≡ crashed)
      × (true ≡ true)
      × (find 8 cache ≡ none)
      × (4 ≤ length cache))
    ⊎ ((s' : LauncherState) × (do_process_extension_ddl_message launcher_env cmd_create_extension 8
            state
          ≡ answered err_ok s')
        × (s'.num_db ≡ 1 + 1)
        × (1 < 4)
        × (has_db 8 s'.database_list ≡ (eqb 8 8 || has_db 8 (7 ∷ [])))
        × (s'.reject_map ≡ no_rejects)
        × (is_monitored 8 s'.monitored ≡ ((true && eqb 8 8) || is_monitored 8 cache)))
    ⊎ ((code : MessageResult) × (do_process_extension_ddl_message launcher_env cmd_create_extension
            8 state
          ≡ answered code state)
        × (code ≢ err_ok))
do_process_extension_ddl_message-create_example =
    do_process_extension_ddl_message-create launcher_env 8 8 state

abbrev after_drop : LauncherState
after_drop = record {
  num_db = 0;
  is_dynamic_worker = false;
  database_list = [];
  db_array = (release_db_entry 7 slots).1;
  monitored = remove 7 cache;
  reject_map = invalidate_database_rejectmap 7 no_rejects;
}

dropped :
    do_process_extension_ddl_message launcher_env cmd_drop_extension 7 state
    ≡ answered err_ok after_drop
unfolding do_process_extension_ddl_message on_del_db update_memory_on_drop update_monitor_db_mpp
    update_monitor_db del_dbid_from_database_list remove
dropped = refl

do_process_extension_ddl_message-drop_example :
    (serving 7 after_drop.db_array ≡ serving 7 slots - (if eqb 7 7 then 1 else 0))
    × (has_db 7 after_drop.database_list ≡ (not (eqb 7 7) && has_db 7 (7 ∷ [])))
    × (find 7 after_drop.monitored ≡ (if true && eqb 7 7 then none else find 7 cache))
    × ((k : RejectMapEntry)
        → find k after_drop.reject_map.map ≡ (
            if true && (eqb k.databaseoid 7 || eqb k.relfilenode.db_node 7)
            then none
            else find k no_rejects.map))
do_process_extension_ddl_message-drop_example =
    do_process_extension_ddl_message-drop launcher_env 7 7 state after_drop dropped
