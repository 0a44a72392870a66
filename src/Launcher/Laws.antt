-- ===== src/Launcher/Laws.antt =====
-- What the launcher's slots and workers promise.
use diskquota.Prelude.{
  arith, [], ◌∷◌, zero, suc, none, some, refl, ℕ, List, ◌+◌, Bool, false, ◌≡◌, ◌-◌, if◌then◌else◌,
  ◌↔◌, eqb, eqb_iff, ◌&&◌, not, leb, ◌<◌, ◌||◌, true, ◌≤◌, length, Option, subst,
}
use diskquota.Catalog.{Oid}
use diskquota.Launcher.{
  existing_slot, add_db_entry, release_db_entry, Launcher, delete_worker, next_worker, free_worker,
  slot, DiskquotaDbEntry, vacuum_db_entry, DiskQuotaWorkerEntry, reset_worker, is_runnable, serves,
  next_db_from, next_db,
}

-- The slots that serve a database.
unfoldable pub serving : Oid → List DiskquotaDbEntry → ℕ
serving dbid [] = 0
serving dbid (e ∷ es) = (if serves dbid e then 1 else 0) + serving dbid es

-- Some slot is free.
unfoldable pub has_free_slot : List DiskquotaDbEntry → Bool
has_free_slot [] = false
has_free_slot (e ∷ es) = not e.in_use || has_free_slot es

existing_slot-serving :
    (d : Oid) (dbs : List DiskquotaDbEntry) → serving d dbs ≡ 0 → existing_slot d dbs ≡ none
unfolding existing_slot serving
existing_slot-serving d [] h = refl
existing_slot-serving d (e ∷ es) h = ground (arith, existing_slot-serving d es)

-- A database that no slot serves gets one exactly if a slot is free; the number of slots of every
-- other database stays.
pub serving-add_db_entry :
    (now : ℕ) (d j : Oid) (dbs : List DiskquotaDbEntry)
    → serving d dbs ≡ 0
    → ((add_db_entry now d dbs).0 ≡ none ↔ has_free_slot dbs ≡ false)
      × (serving j (add_db_entry now d dbs).1
          ≡ serving j dbs + (if eqb j d && has_free_slot dbs then 1 else 0))
unfolding add_db_entry serving has_free_slot
serving-add_db_entry now d j [] h = ground arith
serving-add_db_entry now d j (e ∷ es) h =
    ground (arith, serving-add_db_entry now d j es, existing_slot-serving d es)

-- A release takes one slot from the database, if it has any, and none from another one.
pub serving-release_db_entry :
    (d j : Oid) (dbs : List DiskquotaDbEntry)
    → serving j (release_db_entry d dbs).1 ≡ serving j dbs - (if eqb j d then 1 else 0)
unfolding release_db_entry vacuum_db_entry serving
serving-release_db_entry d j [] = ground arith
serving-release_db_entry d j (e ∷ es) = ground (arith, serving-release_db_entry d j es)

-- The workers of both lists, counted by number.
unfoldable pub workers_numbered : ℕ → List DiskQuotaWorkerEntry → ℕ
workers_numbered id [] = 0
workers_numbered id (w ∷ ws) = (if eqb w.id id then 1 else 0) + workers_numbered id ws

abbrev pub worker_count : ℕ → Launcher → ℕ
worker_count id l = workers_numbered id l.free_workers + workers_numbered id l.running_workers

workers_numbered-delete_worker :
    (i j : ℕ) (ws : List DiskQuotaWorkerEntry)
    → workers_numbered j (delete_worker i ws) ≡ (if eqb i j then 0 else workers_numbered j ws)
unfolding delete_worker workers_numbered
workers_numbered-delete_worker i j [] = ground arith
workers_numbered-delete_worker i j (w ∷ ws) = ground (arith, workers_numbered-delete_worker i j ws)

next_worker_lem :
    (i : ℕ) (free running : List DiskQuotaWorkerEntry) (dbs : List DiskquotaDbEntry)
    → worker_count i
        (next_worker (record { free_workers = free; running_workers = running; db_array = dbs })).1
      ≡ workers_numbered i free + workers_numbered i running
unfolding next_worker reset_worker workers_numbered
next_worker_lem i [] running dbs = refl
next_worker_lem i (w ∷ ws) running dbs = omega arith

-- Handing out a worker moves it between the two lists: each number stands as often as before.
worker_count-next_worker :
    (i : ℕ) (l : Launcher) → worker_count i (next_worker l).1 ≡ worker_count i l
worker_count-next_worker i l = next_worker_lem i l.free_workers l.running_workers l.db_array

worker_count-free_lem :
    (later i : ℕ) (w : DiskQuotaWorkerEntry) (l : Launcher)
    → worker_count w.id l ≡ 1
    → worker_count i (free_worker later w l) ≡ worker_count i l
unfolding free_worker workers_numbered
worker_count-free_lem later i w l h = ground (
  arith,
  workers_numbered-delete_worker w.id i l.free_workers,
  workers_numbered-delete_worker w.id i l.running_workers,
  eqb_iff w.id i,
)

-- Handing out a worker, and taking back one whose number stands once, each leave every number as
-- often as before in the free and the running list together.
pub worker_count-free_worker :
    (later i : ℕ) (w : DiskQuotaWorkerEntry) (l : Launcher)
    → worker_count w.id l ≡ 1
    → (worker_count i (next_worker l).1 ≡ worker_count i l)
      × (worker_count i (free_worker later w l) ≡ worker_count i l)
worker_count-free_worker later i w l h =
    (worker_count-next_worker i l, worker_count-free_lem later i w l h)

next_db_from-is_runnable :
    (v : Oid → Bool) (dbs : List DiskquotaDbEntry) (n i : ℕ) (e : DiskquotaDbEntry)
    → next_db_from v dbs n i ≡ some e
    → is_runnable v e ≡ true
unfolding next_db_from
next_db_from-is_runnable v dbs zero i e h = ground arith
next_db_from-is_runnable v dbs (suc n) i e h =
    let j = if leb (length dbs) i then 0 else i in
    ground (arith, next_db_from-is_runnable v dbs n (suc j) e)

-- The slot that a loop of next_db looks at in its round `r`, from `i`.
abbrev round_slot : ℕ → ℕ → ℕ → ℕ
round_slot len i r =
    let s = if leb len i then 0 else i in if leb len (s + r) then s + r - len else s + r

-- A loop that ends without a slot has looked at every slot of its rounds.
next_db_from-none :
    (v : Oid → Bool) (dbs : List DiskquotaDbEntry) (n i r : ℕ) (e : DiskquotaDbEntry)
    → n ≤ length dbs
    → r < n
    → next_db_from v dbs n i ≡ none
    → slot (round_slot (length dbs) i r) dbs ≡ some e
    → is_runnable v e ≡ false
unfolding next_db_from
next_db_from-none v dbs zero i r e small h f p = ground arith
next_db_from-none v dbs (suc n) i zero e small h f p =
    let j = if leb (length dbs) i then 0 else i in
    let q : round_slot (length dbs) i 0 ≡ j = ground arith in
    let p' : slot j dbs ≡ some e = subst (λ x. slot x dbs ≡ some e) q p in ground (arith, p')
next_db_from-none v dbs (suc n) i (suc r) e small h f p =
    let j = if leb (length dbs) i then 0 else i in
    let q : round_slot (length dbs) i (suc r) ≡ round_slot (length dbs) (suc j) r = ground arith in
    next_db_from-none v dbs n (suc j) r e (omega arith) (omega arith) (ground arith)
      (subst (λ x. slot x dbs ≡ some e) q p)

slot-length :
    (i : ℕ) (dbs : List DiskquotaDbEntry) (e : DiskquotaDbEntry)
    → slot i dbs ≡ some e
    → i < length dbs
unfolding slot
slot-length i [] e h = ground arith
slot-length zero (x ∷ xs) e h = omega arith
slot-length (suc i) (x ∷ xs) e h = omega (arith, slot-length i xs e h)

-- The slot that next_db picks is runnable: in use, without a worker, its database in the catalog.
-- It picks none only if no slot of the array is runnable, wherever it begins.
pub next_db-is_runnable :
    (v : Oid → Bool) (cur : Option DiskquotaDbEntry) (dbs : List DiskquotaDbEntry) (i : ℕ)
    (e : DiskquotaDbEntry)
    → (next_db v cur dbs ≡ some e → is_runnable v e ≡ true)
      × (next_db v cur dbs ≡ none → slot i dbs ≡ some e → is_runnable v e ≡ false)
unfolding next_db
next_db-is_runnable v cur dbs i e =
    let from : ℕ = elim cur [ none ↦ 0 | some c ↦ suc c.id ] in
    let s = if leb (length dbs) from then 0 else from in
    let r = if leb s i then i - s else i + length dbs - s in
    (
      next_db_from-is_runnable v dbs (length dbs) from e,
      λ h p.
          let small = slot-length i dbs e p in
          let q : i ≡ round_slot (length dbs) from r = ground arith in
          next_db_from-none v dbs (length dbs) from r e (omega arith) (ground arith) h
            (subst (λ x. slot x dbs ≡ some e) q p),
    )
