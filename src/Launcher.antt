-- ===== src/Launcher.antt =====
-- The launcher of src/diskquota.c: its slots for the monitored databases (dbArray) and its workers
-- (freeWorkers and runningWorkers).
pub mod Laws
use diskquota.Prelude.{
  ℕ, suc, zero, ◌∷◌, [], none, some, Option, List, if◌then◌else◌, Bool, false, not, eqb, ◌&&◌, true,
  leb, length,
}
use diskquota.Catalog.{Oid, invalid_oid}

-- `worker_id` is none for INVALID_WORKER_ID.
pub record DiskquotaDbEntry : Type 0 where
  pub id : ℕ
  pub dbid : Oid
  pub worker_id : Option ℕ
  pub next_run_time : ℕ
  pub inited : Bool
  pub in_use : Bool

-- `db_entry` is the number of the slot that the worker points to.
pub record DiskQuotaWorkerEntry : Type 0 where
  pub id : ℕ
  pub db_entry : Option ℕ

pub record Launcher : Type 0 where
  pub free_workers : List DiskQuotaWorkerEntry
  pub running_workers : List DiskQuotaWorkerEntry
  pub db_array : List DiskquotaDbEntry

-- The slots and the workers after init_launcher_shmem, `n` rounds of each loop.
unfoldable pub init_db_array : ℕ → ℕ → List DiskquotaDbEntry
init_db_array zero i = []
init_db_array (suc n) i =
    record {
      id = i;
      dbid = invalid_oid;
      worker_id = none;
      next_run_time = 0;
      inited = false;
      in_use = false;
    }
    ∷ init_db_array n (suc i)

unfoldable pub init_workers : ℕ → ℕ → List DiskQuotaWorkerEntry → List DiskQuotaWorkerEntry
init_workers zero i ws = ws
init_workers (suc n) i ws = init_workers n (suc i) (record { id = i; db_entry = none } ∷ ws)

unfoldable pub init_launcher_shmem : ℕ → ℕ → Launcher
unfolding init_db_array init_workers
init_launcher_shmem max_workers max_databases = record {
  free_workers = init_workers max_workers 0 [];
  running_workers = [];
  db_array = init_db_array max_databases 0;
}

-- The slot is in use for the database.
abbrev pub serves : Oid → DiskquotaDbEntry → Bool
serves dbid e = e.in_use && eqb e.dbid dbid

-- The loop of add_db_entry, after a slot is taken: it looks for one that is in use already.
unfoldable pub existing_slot : Oid → List DiskquotaDbEntry → Option ℕ
existing_slot dbid [] = none
existing_slot dbid (e ∷ es) =
    let rest = existing_slot dbid es in if serves dbid e then some e.id else rest

-- The loop of add_db_entry from its start: the slot returned, and the slots.
unfoldable pub add_db_entry : ℕ → Oid → List DiskquotaDbEntry → Option ℕ × List DiskquotaDbEntry
unfolding existing_slot
add_db_entry now dbid [] = (none, [])
add_db_entry now dbid (e ∷ es) =
    let (result, rest) = add_db_entry now dbid es in
    if not e.in_use
    then (
      elim (existing_slot dbid es) [ none ↦ some e.id | some i ↦ some i ],
      record e { dbid = dbid; in_use = true; next_run_time = now } ∷ es,
    )
    else if eqb e.dbid dbid
    then (some e.id, e ∷ es)
    else (result, e ∷ rest)

-- id and next_run_time stay.
unfoldable pub vacuum_db_entry : DiskquotaDbEntry → DiskquotaDbEntry
vacuum_db_entry e = record e {
  dbid = invalid_oid;
  inited = false;
  worker_id = none;
  in_use = false;
}

-- The worker that is terminated, if the database had one, and the slots.
unfoldable pub release_db_entry : Oid → List DiskquotaDbEntry → Option ℕ × List DiskquotaDbEntry
unfolding vacuum_db_entry
release_db_entry dbid [] = (none, [])
release_db_entry dbid (e ∷ es) =
    let (worker, rest) = release_db_entry dbid es in
    if serves dbid e then (e.worker_id, vacuum_db_entry e ∷ es) else (worker, e ∷ rest)

unfoldable pub slot : ℕ → List DiskquotaDbEntry → Option DiskquotaDbEntry
slot i [] = none
slot zero (e ∷ es) = some e
slot (suc i) (e ∷ es) = slot i es

abbrev pub is_none : {A : Type 0} → Option A → Bool
is_none none = true
is_none (some x) = false

-- The launcher may start a worker for the slot; `is_valid_dbid` asks the catalog.
unfoldable pub is_runnable : (Oid → Bool) → DiskquotaDbEntry → Bool
is_runnable is_valid_dbid e =
    e.in_use && is_none e.worker_id && not (eqb e.dbid invalid_oid) && is_valid_dbid e.dbid

-- `n` rounds of the loop of next_db from the slot `next_slot`.
unfoldable pub next_db_from : (Oid → Bool) → List DiskquotaDbEntry → ℕ → ℕ → Option DiskquotaDbEntry
unfolding slot is_runnable
next_db_from is_valid_dbid dbs zero next_slot = none
next_db_from is_valid_dbid dbs (suc n) next_slot =
    let i = if leb (length dbs) next_slot then 0 else next_slot in
    let rest = next_db_from is_valid_dbid dbs n (suc i) in
    elim (slot i dbs) [
      | none ↦ rest
      | some e ↦ if is_runnable is_valid_dbid e then some e else rest
    ]

unfoldable pub next_db :
    (Oid → Bool) → Option DiskquotaDbEntry → List DiskquotaDbEntry → Option DiskquotaDbEntry
unfolding next_db_from
next_db is_valid_dbid cur_db dbs =
    next_db_from is_valid_dbid dbs (length dbs) (elim cur_db [ none ↦ 0 | some e ↦ suc e.id ])

unfoldable pub reset_worker : DiskQuotaWorkerEntry → DiskQuotaWorkerEntry
reset_worker w = record w { db_entry = none }

unfoldable pub next_worker : Launcher → Option DiskQuotaWorkerEntry × Launcher
unfolding reset_worker
next_worker l = elim l.free_workers [
  | [] ↦ (none, l)
  | w ∷ ws ↦ (
    some (reset_worker w),
    record l { free_workers = ws; running_workers = reset_worker w ∷ l.running_workers },
  )
]

-- Writes the slot `i`.
unfoldable pub update_slot :
    (DiskquotaDbEntry → DiskquotaDbEntry) → ℕ → List DiskquotaDbEntry → List DiskquotaDbEntry
update_slot f i [] = []
update_slot f zero (e ∷ es) = f e ∷ es
update_slot f (suc i) (e ∷ es) = e ∷ update_slot f i es

abbrev pub option_eqb : Option ℕ → ℕ → Bool
option_eqb none n = false
option_eqb (some m) n = eqb m n

-- dlist_delete of the worker's node
unfoldable pub delete_worker : ℕ → List DiskQuotaWorkerEntry → List DiskQuotaWorkerEntry
delete_worker id [] = []
delete_worker id (w ∷ ws) = let rest = delete_worker id ws in if eqb w.id id then rest else w ∷ rest

-- `later` is the time of the next run, `naptime` from now. A slot that is not the worker's any
-- more is left alone.
unfoldable pub free_worker : ℕ → DiskQuotaWorkerEntry → Launcher → Launcher
unfolding update_slot delete_worker
free_worker later w l = record {
  free_workers = record w { db_entry = none } ∷ delete_worker w.id l.free_workers;
  running_workers = delete_worker w.id l.running_workers;
  db_array = elim w.db_entry [
    | none ↦ l.db_array
    | some i ↦
        update_slot
          (λ e.
            if e.in_use && option_eqb e.worker_id w.id
            then record e { worker_id = none; next_run_time = later }
            else e)
          i l.db_array
  ];
}
