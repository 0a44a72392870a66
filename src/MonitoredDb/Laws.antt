-- ===== src/MonitoredDb/Laws.antt =====
-- What the operations of the cache of monitored databases promise one another.
use diskquota.Prelude.{
  zero, suc, ◌∷◌, [], ℕ, ◌≡◌, some, none, arith, ◌<◌, length, if◌then◌else◌, ◌+◌, eqb, nat_eq, ◌%◌,
  ◌∙◌, ltb, false, ◌≢◌, true, Option-cases, inl, eqb_iff, inr,
}
use diskquota.Catalog.{Oid}
use diskquota.MonitoredDb.{
  worker_increase_epoch, worker_get_epoch, wait_for_worker_new_epoch, update_monitor_db,
  refresh_monitored_dbid_cache, MonitoredDbidCache, diskquota_is_paused, enter, MonitorDbEntry,
  db_running, pause_db_to_monitor, resume_db_to_monitor,
}
use diskquota.Words.{inc32, two32}
use diskquota.Htab.{find, put}
use diskquota.Htab.Laws.{find-put}

-- `n` rounds of the worker's main loop.
unfoldable pub run_rounds : ℕ → Oid → MonitoredDbidCache → MonitoredDbidCache
run_rounds zero dbid m = m
run_rounds (suc n) dbid m = run_rounds n dbid (worker_increase_epoch dbid m).1

find-worker_increase_epoch :
    (d : Oid) (m : MonitoredDbidCache) (e : MonitorDbEntry)
    → find d m ≡ some e
    → find d (worker_increase_epoch d m).1 ≡ some (record e { epoch = inc32 e.epoch })
unfolding worker_increase_epoch
find-worker_increase_epoch d m e h =
    ground (arith, h, find-put d d (record e { epoch = inc32 e.epoch }) m)

-- Each round of a monitored database's worker adds one to the epoch, as a uint32.
worker_get_epoch-run_rounds :
    (n : ℕ) (d : Oid) (m : MonitoredDbidCache) (e : MonitorDbEntry)
    → find d m ≡ some e
    → e.epoch < two32
    → worker_get_epoch d (run_rounds n d m) ≡ (e.epoch + n) % two32
unfolding run_rounds worker_get_epoch inc32
worker_get_epoch-run_rounds zero d m e h small = ground (arith, h)
worker_get_epoch-run_rounds (suc n) d m e h small =
    worker_get_epoch-run_rounds n d (worker_increase_epoch d m).1
      (record e { epoch = inc32 e.epoch }) (find-worker_increase_epoch d m e h) (omega arith)
    ∙ ground arith

-- A session that looks at the epoch of a monitored database before and after its worker makes `n`
-- rounds, fewer than 2 ^ 32, stops waiting exactly if `n` is at least two, also when the epoch
-- wraps round.
pub wait_for_worker_new_epoch-run_rounds :
    (n : ℕ) (d : Oid) (m : MonitoredDbidCache) (e : MonitorDbEntry)
    → find d m ≡ some e
    → e.epoch < two32
    → n < two32
    → wait_for_worker_new_epoch d m (run_rounds n d m ∷ []) ≡ (if ltb n 2 then none else some 0)
unfolding wait_for_worker_new_epoch run_rounds
wait_for_worker_new_epoch-run_rounds n d m e h small bound =
    let p = worker_get_epoch-run_rounds n d m e h small in
    let p0 = worker_get_epoch-run_rounds 0 d m e h small in rw p (ground (arith, p0))

-- Pausing and resuming a monitored database sets what diskquota_is_paused says of it and of no
-- other database, and neither can fail.
pub is_paused-update_monitor_db :
    (max : ℕ) (stale : MonitorDbEntry) (d j : Oid) (m : MonitoredDbidCache) (e : MonitorDbEntry)
    → find d m ≡ some e
    → ((p : MonitoredDbidCache) × (update_monitor_db max stale d pause_db_to_monitor m ≡ some p)
        × (diskquota_is_paused j p ≡ (if eqb d j then true else diskquota_is_paused j m)))
      × ((r : MonitoredDbidCache) × (update_monitor_db max stale d resume_db_to_monitor m ≡ some r)
          × (diskquota_is_paused j r ≡ (if eqb d j then false else diskquota_is_paused j m)))
unfolding update_monitor_db diskquota_is_paused
is_paused-update_monitor_db max stale d j m e h = (
  (
    put d (record e { paused = true }) m,
    ground (arith, h),
    ground (arith, find-put d j (record e { paused = true }) m),
  ),
  (
    put d (record e { paused = false }) m,
    ground (arith, h),
    ground (arith, find-put d j (record e { paused = false }) m),
  ),
)

-- The refresh on a segment, while the cache has room, leaves the database with an entry, put back if
-- it was lost, and changes the answer of diskquota_is_paused for no database.
pub diskquota_is_paused-refresh :
    (max : ℕ) (stale : MonitorDbEntry) (d j : Oid) (m : MonitoredDbidCache)
    → length m < max
    → (diskquota_is_paused j (refresh_monitored_dbid_cache max stale d m) ≡ diskquota_is_paused j m)
      × (find d (refresh_monitored_dbid_cache max stale d m) ≢ none)
unfolding refresh_monitored_dbid_cache enter diskquota_is_paused
diskquota_is_paused-refresh max stale d j m room = elim (Option-cases (find d m)) [
  | inl h ↦ ground (
    arith,
    h,
    find-put d j (record stale { paused = false; epoch = 0; status = db_running }) m,
    find-put d d (record stale { paused = false; epoch = 0; status = db_running }) m,
    eqb_iff d j,
  )
  | inr (e, h) ↦ ground (arith, h)
]
