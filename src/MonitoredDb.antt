-- ===== src/MonitoredDb.antt =====
-- src/monitored_db.c: the cache of the databases that have a worker, with the epoch by which a
-- session sees that the worker makes progress.
pub mod Laws
pub mod Readiness
use diskquota.Prelude.{
  suc, ◌∷◌, [], ℕ, Bool, Option, List, some, none, if◌then◌else◌, false, nat_eq, ltb, true, length,
  ◌+◌, ◌-◌, ◌%◌,
}
use diskquota.Htab.{Htab, find, put, remove}
use diskquota.Catalog.{Oid}
use diskquota.Words.{inc32, two32}

-- MonitorDBEntryStruct; the counters are uint32.
pub record MonitorDbEntry : Type 0 where
  pub status : ℕ
  pub paused : Bool
  pub is_readiness_logged : Bool
  pub epoch : ℕ

-- MonitorDBStatus
abbrev pub db_init : ℕ
db_init = 1

abbrev pub db_running : ℕ
db_running = 5

-- FetchTableStatType, as far as it concerns this cache.
pub data FetchTableStatType : Type 0 where
  add_db_to_monitor remove_db_from_being_monitored pause_db_to_monitor resume_db_to_monitor :
      FetchTableStatType

abbrev pub MonitoredDbidCache : Type 0
MonitoredDbidCache = Htab Oid MonitorDbEntry

-- HASH_ENTER_NULL in a table of `max_monitored` entries. `stale` is what the memory of a new entry
-- holds until it is written.
unfoldable pub enter : ℕ → MonitorDbEntry → Oid → MonitoredDbidCache → Option MonitorDbEntry
enter max_monitored stale dbid m = elim (find dbid m) [
  | some e ↦ some e
  | none ↦ if ltb (length m) max_monitored then some stale else none
]

-- none where the source writes through a null pointer, after a warning
unfoldable pub update_monitor_db :
    ℕ → MonitorDbEntry → Oid → FetchTableStatType → MonitoredDbidCache → Option MonitoredDbidCache
update_monitor_db max_monitored stale dbid add_db_to_monitor m =
    elim (enter max_monitored stale dbid m) [
      | none ↦ none
      | some e ↦ some (put dbid (record e { paused = false; epoch = 0; status = db_init }) m)
    ]
update_monitor_db max_monitored stale dbid remove_db_from_being_monitored m = some (remove dbid m)
update_monitor_db max_monitored stale dbid pause_db_to_monitor m = elim (find dbid m) [
  | none ↦ some m
  | some e ↦ some (put dbid (record e { paused = true }) m)
]
update_monitor_db max_monitored stale dbid resume_db_to_monitor m = elim (find dbid m) [
  | none ↦ some m
  | some e ↦ some (put dbid (record e { paused = false }) m)
]

unfoldable pub diskquota_is_paused : Oid → MonitoredDbidCache → Bool
diskquota_is_paused dbid m = elim (find dbid m) [ none ↦ false | some e ↦ e.paused ]

unfoldable pub diskquota_is_readiness_logged : Oid → MonitoredDbidCache → Bool
diskquota_is_readiness_logged dbid m = elim (find dbid m) [
  | none ↦ false
  | some e ↦ e.is_readiness_logged
]

-- none where the source writes through a null pointer
unfoldable pub diskquota_set_readiness_logged : Oid → MonitoredDbidCache → Option MonitoredDbidCache
diskquota_set_readiness_logged dbid m = elim (find dbid m) [
  | none ↦ none
  | some e ↦ some (put dbid (record e { is_readiness_logged = true }) m)
]

unfoldable pub worker_increase_epoch : Oid → MonitoredDbidCache → Bool × MonitoredDbidCache
worker_increase_epoch dbid m = elim (find dbid m) [
  | none ↦ (false, m)
  | some e ↦ (true, put dbid (record e { epoch = inc32 e.epoch }) m)
]

unfoldable pub worker_get_epoch : Oid → MonitoredDbidCache → ℕ
worker_get_epoch dbid m = elim (find dbid m) [ none ↦ 0 | some e ↦ e.epoch ]

unfoldable pub update_monitordb_status : Oid → ℕ → MonitoredDbidCache → MonitoredDbidCache
update_monitordb_status dbid status m = elim (find dbid m) [
  | none ↦ m
  | some e ↦ put dbid (record e { status = status }) m
]

unfoldable pub refresh_monitored_dbid_cache :
    ℕ → MonitorDbEntry → Oid → MonitoredDbidCache → MonitoredDbidCache
refresh_monitored_dbid_cache max_monitored stale dbid m = elim (find dbid m) [
  | some e ↦ m
  | none ↦ elim (enter max_monitored stale dbid m) [
    | none ↦ m
    | some e ↦ put dbid (record e { paused = false; epoch = 0; status = db_running }) m
  ]
]

-- The loop of wait_for_worker_new_epoch over the caches that it sees, one after each sleep: the
-- number of rounds until it returns true, or none if it still waits at the end of the list.
unfoldable pub wait_from : Oid → ℕ → List MonitoredDbidCache → Option ℕ
wait_from dbid current_epoch [] = none
wait_from dbid current_epoch (m ∷ ms) =
    let rest = wait_from dbid current_epoch ms in
    if ltb ((worker_get_epoch dbid m + two32 - current_epoch) % two32) 2
    then elim rest [ none ↦ none | some n ↦ some (suc n) ]
    else some 0

unfoldable pub wait_for_worker_new_epoch :
    Oid → MonitoredDbidCache → List MonitoredDbidCache → Option ℕ
unfolding wait_from
wait_for_worker_new_epoch dbid m ms = wait_from dbid (worker_get_epoch dbid m) ms
