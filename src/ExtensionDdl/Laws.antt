-- ===== src/ExtensionDdl/Laws.antt =====
-- What the launcher has changed after a message, on success and on each error.
use diskquota.ExtensionDdl.{
  crashed, answered, has_db, do_process_extension_ddl_message, add_dbid_to_database_list,
  del_dbid_from_database_list, on_add_db, on_del_db, LauncherEnv, update_monitor_db_mpp,
  LauncherState, cmd_drop_extension, cmd_create_extension, err_ok, update_memory_on_create,
  update_memory_on_drop, list, MessageResult, error, add_db_to_monitor, err_exceed,
  err_invalid_dbid, err_add_to_db,
}
use diskquota.Htab.Laws.{find-put, find-remove}
use diskquota.MonitoredDb.{db_init, update_monitor_db, enter, MonitorDbEntry, MonitoredDbidCache}
use diskquota.Htab.{put, remove, find}
use diskquota.RejectEntry.{reject_entry_has_eq, RejectMapEntry}
use diskquota.Htab.Keys.{find-remove_if}
use diskquota.Prelude.{
  ltb, ◌⊎◌, ℕ, ◌∙◌, leb, false, [], ◌∷◌, List, true, length, ◌≤◌, some, Option-cases, ap, ◌≡◌, eqb,
  not, ◌||◌, ◌&&◌, Bool-cases, arith, ◌-◌, inl, if◌then◌else◌, inr, none, nat_eq, ◌+◌, ◌<◌, ◌≢◌,
  suc, refl,
}
use diskquota.Catalog.{Oid}
use diskquota.Launcher.Laws.{serving, serving-release_db_entry}
use diskquota.RejectMap.{invalidate_database_rejectmap, GlobalRejectMap}
use diskquota.Launcher.{release_db_entry, add_db_entry}
use diskquota.ActiveTables.{is_monitored}

has_db-add :
    (d j : Oid) (ds : List Oid)
    → has_db j (add_dbid_to_database_list d ds) ≡ (eqb d j || has_db j ds)
unfolding has_db add_dbid_to_database_list
has_db-add d j ds = elim (Bool-cases (eqb d j)) [
  | inl same ↦ let p : d ≡ j = ground arith in rw p (ground arith)
  | inr other ↦ ground arith
]

has_db-del :
    (d j : Oid) (ds : List Oid)
    → has_db j (del_dbid_from_database_list d ds) ≡ (not (eqb d j) && has_db j ds)
unfolding has_db del_dbid_from_database_list
has_db-del d j [] = ground arith
has_db-del d j (x ∷ xs) = ground (arith, has_db-del d j xs)

-- What the cache has after it has been updated for a new database, wherever it had room.
is_monitored-put :
    (d j : Oid) (e : MonitorDbEntry) (m : MonitoredDbidCache)
    → is_monitored j (put d e m) ≡ (eqb d j || is_monitored j m)
is_monitored-put d j e m = ground (arith, find-put d j e m)

-- The state after a drop message that is answered with ERR_OK.
abbrev dropped : LauncherEnv → Oid → LauncherState → LauncherState
dropped env d s = record {
  num_db = s.num_db - 1;
  is_dynamic_worker = if leb (s.num_db - 1) env.max_workers then false else s.is_dynamic_worker;
  database_list = del_dbid_from_database_list d s.database_list;
  db_array = (release_db_entry d s.db_array).1;
  monitored = if env.segments_answer then remove d s.monitored else s.monitored;
  reject_map =
      if env.segments_answer then invalidate_database_rejectmap d s.reject_map else s.reject_map;
}

dropped_lem :
    (env : LauncherEnv) (d : Oid) (s s' : LauncherState)
    → do_process_extension_ddl_message env cmd_drop_extension d s ≡ answered err_ok s'
    → s' ≡ dropped env d s
unfolding do_process_extension_ddl_message on_del_db update_memory_on_drop update_monitor_db_mpp
    update_monitor_db
dropped_lem env d s s' ok = elim (Bool-cases env.segments_answer) [
  | inl on ↦ ground (arith, on, ok)
  | inr off ↦ ground (arith, off, ok)
]

find-invalidate :
    (d : Oid) (k : RejectMapEntry) (g : GlobalRejectMap)
    → find k (invalidate_database_rejectmap d g).map
      ≡ (if eqb k.databaseoid d || eqb k.relfilenode.db_node d then none else find k g.map)
unfolding invalidate_database_rejectmap
find-invalidate d k g =
    find-remove_if (λ i. eqb i.databaseoid d || eqb i.relfilenode.db_node d) k g.map

update_monitor_db-add :
    (max_monitored : ℕ) (stale : MonitorDbEntry) (d : Oid) (m : MonitoredDbidCache)
    → (find d m ≡ none)
        × (max_monitored ≤ length m)
        × (update_monitor_db max_monitored stale d add_db_to_monitor m ≡ none)
      ⊎ ((m' : MonitoredDbidCache) × (update_monitor_db max_monitored stale d add_db_to_monitor m
            ≡ some m')
          × ((j : Oid) → is_monitored j m' ≡ (eqb d j || is_monitored j m)))
unfolding update_monitor_db enter
update_monitor_db-add max_monitored stale d m =
    let filled : MonitorDbEntry → MonitorDbEntry =
      λ e. record e { paused = false; epoch = 0; status = db_init } in
    elim (Option-cases (find d m)) [
      | inr (e, h) ↦
          inr (put d (filled e) m, ground (arith, h), λ j. is_monitored-put d j (filled e) m)
      | inl h ↦ elim (Bool-cases (ltb (length m) max_monitored)) [
        | inl room ↦ inr (
          put d (filled stale) m,
          ground (arith, h, room),
          λ j. is_monitored-put d j (filled stale) m,
        )
        | inr full ↦ inl (h, ground (arith, full), ground (arith, h, full))
      ]
    ]

-- Whether the first transaction of a create message goes through, and what it answers if not.
on_add_db-cases :
    (env : LauncherEnv) (d : Oid) (num_db : ℕ) (ds : List Oid)
    → (on_add_db env d num_db ds ≡ list (add_dbid_to_database_list d ds))
        × (num_db < env.max_monitored_databases)
      ⊎ ((code : MessageResult) × (on_add_db env d num_db ds ≡ error code) × (code ≢ err_ok))
unfolding on_add_db
on_add_db-cases env d num_db ds = elim (Bool-cases (leb env.max_monitored_databases num_db)) [
  | inl full ↦ inr (err_exceed, ground (arith, full), λ p. ground (arith, p))
  | inr room ↦ elim (Bool-cases (env.is_valid_dbid d)) [
    | inr unknown ↦ inr (err_invalid_dbid, ground (arith, room, unknown), λ p. ground (arith, p))
    | inl known ↦ elim (Bool-cases env.spi_succeeds) [
      | inr failed ↦
          inr (err_add_to_db, ground (arith, room, known, failed), λ p. ground (arith, p))
      | inl ok ↦ inl (ground (arith, room, known, ok), ground (arith, room))
    ]
  ]
]

-- A create message ends in one of three ways. The launcher dies only if the segments have answered
-- while the cache of monitored databases is full and does not have the database. If the answer is
-- ERR_OK, the database, and no other, has come into database_list, num_db has grown by one, within
-- the configured limit, the reject map is as it was, and the cache has every database that it had
-- and, exactly if the segments have answered, the new one. On any other answer nothing at all has
-- changed.
pub do_process_extension_ddl_message-create :
    (env : LauncherEnv) (d j : Oid) (s : LauncherState)
    → (do_process_extension_ddl_message env cmd_create_extension d s ≡ crashed)
        × (env.segments_answer ≡ true)
        × (find d s.monitored ≡ none)
        × (env.max_monitored_databases ≤ length s.monitored)
      ⊎ ((s' : LauncherState) × (do_process_extension_ddl_message env cmd_create_extension d s
            ≡ answered err_ok s')
          × (s'.num_db ≡ s.num_db + 1)
          × (s.num_db < env.max_monitored_databases)
          × (has_db j s'.database_list ≡ (eqb d j || has_db j s.database_list))
          × (s'.reject_map ≡ s.reject_map)
          × (is_monitored j s'.monitored
              ≡ ((env.segments_answer && eqb d j) || is_monitored j s.monitored)))
      ⊎ ((code : MessageResult) × (do_process_extension_ddl_message env cmd_create_extension d s
            ≡ answered code s)
          × (code ≢ err_ok))
unfolding do_process_extension_ddl_message update_memory_on_create update_monitor_db_mpp
do_process_extension_ddl_message-create env d j s =
    let base = record s {
      num_db = s.num_db + 1;
      database_list = add_dbid_to_database_list d s.database_list;
      is_dynamic_worker = if ltb env.max_workers (suc s.num_db) then true else s.is_dynamic_worker;
      db_array = (add_db_entry env.now d s.db_array).1;
    } in
    let added = has_db-add d j s.database_list in
    elim (on_add_db-cases env d s.num_db s.database_list) [
      | inr (code, h, bad) ↦ inr (inr (code, ground (arith, h), bad))
      | inl (h, room) ↦ elim (Bool-cases env.segments_answer) [
        | inr off ↦
            inr (inl (base, ground (arith, h, off), refl, room, added, refl, ground (arith, off)))
        | inl on ↦
            elim (update_monitor_db-add env.max_monitored_databases env.stale d s.monitored) [
              | inl (n, full, u) ↦ inl (ground (arith, h, on, u), on, n, full)
              | inr (m, u, has) ↦ inr (
                  inl (
                    record base { monitored = m },
                    ground (arith, h, on, u),
                    refl,
                    room,
                    added,
                    refl,
                    ground (arith, on, has j),
                  ))
            ]
      ]
    ]

-- After a drop message that is answered with ERR_OK the database is in no row of database_list, and
-- one of its slots, if it had any, has become free. If the segments have answered, it is also in no
-- entry of the cache of monitored databases, and the reject map has lost its entries; if they have
-- not, cache and reject map are as they were. What these hold of another database is unchanged.
pub do_process_extension_ddl_message-drop :
    (env : LauncherEnv) (d j : Oid) (s s' : LauncherState)
    → do_process_extension_ddl_message env cmd_drop_extension d s ≡ answered err_ok s'
    → (serving j s'.db_array ≡ serving j s.db_array - (if eqb j d then 1 else 0))
      × (has_db j s'.database_list ≡ (not (eqb d j) && has_db j s.database_list))
      × (find j s'.monitored
          ≡ (if env.segments_answer && eqb d j then none else find j s.monitored))
      × ((k : RejectMapEntry)
          → find k s'.reject_map.map ≡ (
              if env.segments_answer && (eqb k.databaseoid d || eqb k.relfilenode.db_node d)
              then none
              else find k s.reject_map.map))
unfolding do_process_extension_ddl_message on_del_db update_memory_on_drop update_monitor_db_mpp
    update_monitor_db
do_process_extension_ddl_message-drop env d j s s' ok =
    let p = dropped_lem env d s s' ok in
    (
      ap (λ x. serving j x.db_array) p ∙ serving-release_db_entry d j s.db_array,
      ap (λ x. has_db j x.database_list) p ∙ has_db-del d j s.database_list,
      ap (λ x. find j x.monitored) p ∙ ground (arith, find-remove d j s.monitored),
      λ k. ap (λ x. find k x.reject_map.map) p ∙ ground (arith, find-invalidate d k s.reject_map),
    )
