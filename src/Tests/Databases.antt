-- ===== src/Tests/Databases.antt =====
-- Concrete inputs for the launcher and the cache of monitored databases.
use diskquota.Prelude.{
  [], ◌∷◌, none, some, refl, true, false, ◌≡◌, arith, if◌then◌else◌, ◌+◌, ◌↔◌, ◌≢◌, ◌-◌, ◌&&◌, List,
  ◌^◌, eqb, nat_eq, ltb,
}
use diskquota.Config.{config_key_has_eq}
use diskquota.MonitoredDb.{
  MonitorDbEntry, MonitoredDbidCache, wait_for_worker_new_epoch, diskquota_is_paused,
  update_monitor_db, refresh_monitored_dbid_cache, pause_db_to_monitor, resume_db_to_monitor,
}
use diskquota.Htab.{find}
use diskquota.Launcher.{
  DiskquotaDbEntry, add_db_entry, next_db, DiskQuotaWorkerEntry, Launcher, release_db_entry,
  is_runnable, next_worker, slot, free_worker,
}
use diskquota.Launcher.Laws.{
  serving, workers_numbered, worker_count, has_free_slot, serving-add_db_entry,
  serving-release_db_entry, next_db-is_runnable, worker_count-free_worker,
}
use diskquota.MonitoredDb.Laws.{
  run_rounds, diskquota_is_paused-refresh, wait_for_worker_new_epoch-run_rounds,
  is_paused-update_monitor_db,
}

abbrev pub late : MonitorDbEntry
late = record { status = 5; paused = false; is_readiness_logged = false; epoch = 2 ^ 32 - 1 }

abbrev pub cache : MonitoredDbidCache
cache = (7, late) ∷ []

cached : find 7 cache ≡ some late
unfolding find
cached = refl

wait_for_worker_new_epoch-run_rounds_example :
    wait_for_worker_new_epoch 7 cache (run_rounds 3 7 cache ∷ [])
    ≡ (if ltb 3 2 then none else some 0)
wait_for_worker_new_epoch-run_rounds_example =
    wait_for_worker_new_epoch-run_rounds 3 7 cache late cached (omega arith) (omega arith)

is_paused-update_monitor_db_example :
    ((p : MonitoredDbidCache) × (update_monitor_db 4 late 7 pause_db_to_monitor cache ≡ some p)
      × (diskquota_is_paused 7 p ≡ true))
    × ((r : MonitoredDbidCache) × (update_monitor_db 4 late 7 resume_db_to_monitor cache ≡ some r)
        × (diskquota_is_paused 7 r ≡ false))
is_paused-update_monitor_db_example = is_paused-update_monitor_db 4 late 7 7 cache late cached

diskquota_is_paused-refresh_example :
    (diskquota_is_paused 8 (refresh_monitored_dbid_cache 4 late 9 cache)
      ≡ diskquota_is_paused 8 cache)
    × (find 9 (refresh_monitored_dbid_cache 4 late 9 cache) ≢ none)
diskquota_is_paused-refresh_example = diskquota_is_paused-refresh 4 late 9 8 cache (omega arith)

abbrev used_slot : DiskquotaDbEntry
used_slot = record {
  id = 0;
  dbid = 7;
  worker_id = some 1;
  next_run_time = 3;
  inited = true;
  in_use = true;
}

abbrev pub slots : List DiskquotaDbEntry
slots =
    used_slot
    ∷ record {
      id = 1;
      dbid = 0;
      worker_id = none;
      next_run_time = 0;
      inited = false;
      in_use = false;
    }
    ∷ []

unserved : serving 8 slots ≡ 0
unfolding serving
unserved = refl

serving-add_db_entry_example :
    ((add_db_entry 9 8 slots).0 ≡ none ↔ has_free_slot slots ≡ false)
    × (serving 8 (add_db_entry 9 8 slots).1
        ≡ serving 8 slots + (if eqb 8 8 && has_free_slot slots then 1 else 0))
serving-add_db_entry_example = serving-add_db_entry 9 8 8 slots unserved

serving-release_db_entry_example :
    serving 7 (release_db_entry 7 slots).1 ≡ serving 7 slots - (if eqb 7 7 then 1 else 0)
serving-release_db_entry_example = serving-release_db_entry 7 7 slots

next_db-is_runnable_example :
    (next_db (λ o. true) (some used_slot) slots ≡ some used_slot
      → is_runnable (λ o. true) used_slot ≡ true)
    × (next_db (λ o. true) (some used_slot) slots ≡ none
        → slot 0 slots ≡ some used_slot
        → is_runnable (λ o. true) used_slot ≡ false)
next_db-is_runnable_example = next_db-is_runnable (λ o. true) (some used_slot) slots 0 used_slot

abbrev worker : DiskQuotaWorkerEntry
worker = record { id = 1; db_entry = some 0 }

abbrev launcher : Launcher
launcher = record {
  free_workers = record { id = 0; db_entry = none } ∷ [];
  running_workers = worker ∷ [];
  db_array = slots;
}

one_worker : worker_count 1 launcher ≡ 1
unfolding workers_numbered
one_worker = refl

worker_count-free_worker_example :
    (worker_count 1 (next_worker launcher).1 ≡ worker_count 1 launcher)
    × (worker_count 1 (free_worker 12 worker launcher) ≡ worker_count 1 launcher)
worker_count-free_worker_example = worker_count-free_worker 12 1 worker launcher one_worker
