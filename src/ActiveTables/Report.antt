-- ===== src/ActiveTables/Report.antt =====
-- What get_active_tables_oid reports and what it leaves for the next round.
use diskquota.Prelude.{
  [], true, false, ◌||◌, none, some, eqb, ltb, if◌then◌else◌, nat_eq, length, ◌≡◌, ◌≢◌, arith, refl,
  Bool-cases, inl, inr, ◌∙◌, sym, subst, ap, eqb_iff, ◌≤◌, ◌<◌, ◌↔◌,
}
use diskquota.ActiveTables.{
  file_entry_has_eq, Node, SegmentState, ActiveTableFileEntry, active_table_hook_smgrextend,
  report_active_table_helper, add_active_file, is_monitored, file_entry,
}
use diskquota.Catalog.{Env, Oid, ClassTuple, oid_is_valid}
use diskquota.ActiveTables.Collect.{
  Collecting, add_back, get_active_tables_oid, own_files, collect_files, is_absent,
  finish_collection, unsettled, add_altered, is_cached_relfilenode_stale, is_settled, entry_file,
}
use diskquota.MonitoredDb.{refresh_monitored_dbid_cache}
use diskquota.Htab.{remove_if, find}
use diskquota.Words.{two31}
use diskquota.RelationCache.Update.{remove_committed_relation_from_cache, parse_primary_table_oid}
use diskquota.ActiveTables.Rounds.{
  add_back-absent, length-own_files, find-own_files, length-collect_files, collect_files-none,
  add_back-altered, add_back-found, add_back-grows,
}
use diskquota.ActiveTables.Collected.{
  IsActive, add_altered-IsActive, collect_files-IsActive, add_altered-grows, collect_files-stays,
  collect_files-gone,
}
use diskquota.Htab.Keys.{find-remove_if}
use diskquota.RejectMap.{Session, GlobalRejectMap}
use diskquota.RejectEntry.{RelFileNode}
use diskquota.SharedTable.{Bounded}
use diskquota.SharedTable.Added.{added_to, find-added_to_own, length-added_to}

module _ (env : Env) (node : Node) (s : SegmentState) where
  abbrev start : Collecting
  start = record {
    files = own_files env s.active_tables_map;
    stats = [];
    caches = remove_committed_relation_from_cache env node.server s.caches;
  }

  abbrev done : Collecting
  done = collect_files env node (own_files env s.active_tables_map) start

  abbrev taken : SegmentState
  taken = record s {
    monitored =
        refresh_monitored_dbid_cache node.max_monitored node.stale_monitor_entry env.my_database_id
          s.monitored;
    active_tables_map = remove_if (λ k _. eqb k.dbid env.my_database_id) s.active_tables_map;
  }

  abbrev first_back : SegmentState
  first_back = add_back env node done.files (record taken { caches = done.caches })

  abbrev altered_done : SegmentState
  altered_done = record first_back {
    altered_reloid_cache = record first_back.altered_reloid_cache {
      map =
          remove_if (λ oid _. is_absent (unsettled node first_back.altered_reloid_cache.map) oid)
            first_back.altered_reloid_cache.map;
    };
  }

  get_active_tables_oid_lem : get_active_tables_oid env node s ≡ (
    add_altered first_back.altered_reloid_cache.map done.stats,
    add_back env node done.files altered_done,
  )
  unfolding get_active_tables_oid finish_collection
  get_active_tables_oid_lem = refl

  -- The file map at the end, for a file that is not and for one that is put back.
  not_put_back :
      (f : ActiveTableFileEntry)
      → find f done.files ≡ none
      → find f (get_active_tables_oid env node s).1.active_tables_map
        ≡ (if eqb f.dbid env.my_database_id then none else find f s.active_tables_map)
  not_put_back f h =
      ap (λ x. find f x.1.active_tables_map) get_active_tables_oid_lem
      ∙ (add_back-absent env node f done.files altered_done h
          ∙ (add_back-absent env node f done.files (record taken { caches = done.caches }) h
              ∙ find-remove_if (λ k. eqb k.dbid env.my_database_id) f s.active_tables_map))

  put_back :
      (f : ActiveTableFileEntry)
      → length s.active_tables_map ≤ node.server.max_active_tables
      → node.server.max_active_tables < two31
      → find f done.files ≢ none
      → find f (get_active_tables_oid env node s).1.active_tables_map ≢ none
  put_back f room small i =
      let own = length-own_files env s.active_tables_map in
      let fewer = length-collect_files env node (own_files env s.active_tables_map) start in
      let first =
        add_back-found env node f done.files (record taken { caches = done.caches }) (omega arith)
          small i in
      subst (λ x. find f x.1.active_tables_map ≢ none) (sym get_active_tables_oid_lem)
        (add_back-grows env node f done.files altered_done first)

  -- While the map of files holds no more entries than it may: a recorded file of the session's
  -- database that belongs to a committed relation, not one of the system's, makes the relation's
  -- primary table one of the active tables that the round reports; and the file stays recorded
  -- exactly if the relation is being altered or its catalog entry names another file.
  pub get_active_tables_oid-file :
      (f : ActiveTableFileEntry) (oid : Oid) (c : ClassTuple)
      → length s.active_tables_map ≤ node.server.max_active_tables
      → node.server.max_active_tables < two31
      → find f s.active_tables_map ≢ none
      → f.dbid ≡ env.my_database_id
      → node.server.relid_by_relfilenode f.tablespaceoid f.relfilenode ≡ oid
      → oid_is_valid oid ≡ true
      → ltb oid node.first_normal_object_id ≡ false
      → env.pg_class oid ≡ some c
      → IsActive
          (parse_primary_table_oid env node.server oid true)
          (get_active_tables_oid env node s).0
        × ((find f (get_active_tables_oid env node s).1.active_tables_map ≡ none) ↔ (
            (node.is_relation_being_altered oid
              || is_cached_relfilenode_stale env oid (entry_file f))
            ≡ false))
  get_active_tables_oid-file f oid c room small recorded own at valid normal class =
      let local = own_files env s.active_tables_map in
      let found : find f local ≢ none = λ p. recorded (
        ground (
          arith,
          p,
          find-own_files env f s.active_tables_map,
          own,
          eqb_iff f.dbid env.my_database_id,
        )) in
      let active =
        collect_files-IsActive env node f oid c own at valid normal class local start (inr found) in
      (
        subst (λ x. IsActive (parse_primary_table_oid env node.server oid true) x.0)
            (sym get_active_tables_oid_lem)
            (add_altered-grows (parse_primary_table_oid env node.server oid true)
              first_back.altered_reloid_cache.map done.stats active),
        (
          λ gone.
              elim (Bool-cases (
                node.is_relation_being_altered oid
                || is_cached_relfilenode_stale env oid (entry_file f))) [
                  | inr off ↦ off
                  | inl on ↦
                      elim (put_back f room small
                        (λ p. found (
                          sym (
                            collect_files-stays env node f oid c own at valid normal class local
                              start on)
                          ∙ p))
                        gone) [ ]
                ],
          λ off.
              not_put_back f (
                collect_files-gone env node f oid c own at valid normal class local start off
                  (inr found))
              ∙ ground (arith, own, eqb_iff f.dbid env.my_database_id),
        ),
      )

  -- The recorded files of other databases are not touched.
  pub get_active_tables_oid-other_database :
      (f : ActiveTableFileEntry)
      → f.dbid ≢ env.my_database_id
      → find f (get_active_tables_oid env node s).1.active_tables_map ≡ find f s.active_tables_map
  get_active_tables_oid-other_database f other =
      let local = own_files env s.active_tables_map in
      let absent : find f local ≡ none = ground (
        arith,
        find-own_files env f s.active_tables_map,
        other,
        eqb_iff f.dbid env.my_database_id,
      ) in
      not_put_back f (collect_files-none env node f local start absent)
      ∙ ground (arith, other, eqb_iff f.dbid env.my_database_id)

  -- Each altered relation that has been recorded is reported, and it stays recorded exactly if it is
  -- still being altered.
  pub get_active_tables_oid-altered :
      (oid : Oid)
      → oid_is_valid oid ≡ true
      → find oid s.altered_reloid_cache.map ≢ none
      → IsActive oid (get_active_tables_oid env node s).0
        × ((find oid (get_active_tables_oid env node s).1.altered_reloid_cache.map ≡ none)
            ↔ (node.is_relation_being_altered oid ≡ false))
  get_active_tables_oid-altered oid valid recorded =
      let a = s.altered_reloid_cache.map in
      let same : first_back.altered_reloid_cache ≡ s.altered_reloid_cache =
        add_back-altered env node done.files (record taken { caches = done.caches }) in
      let left : find oid (get_active_tables_oid env node s).1.altered_reloid_cache.map
          ≡ find oid (remove_if (λ x _. is_absent (unsettled node a) x) a) =
        ap (λ x. find oid x.1.altered_reloid_cache.map) get_active_tables_oid_lem
        ∙ (ap (λ x. find oid x.map) (add_back-altered env node done.files altered_done)
            ∙ ap (λ x. find oid (remove_if (λ y _. is_absent (unsettled node x.map) y) x.map))
                same) in
      let what = find-remove_if (λ x. is_absent (unsettled node a) x) oid a in
      let local = find-remove_if (λ x. is_settled node x) oid a in
      (
        subst (λ x. IsActive oid x.0) (sym get_active_tables_oid_lem)
            (subst (λ x. IsActive oid (add_altered x.map done.stats)) (sym same)
              (add_altered-IsActive oid a done.stats valid recorded)),
        (
          λ gone. ground (arith, gone, left, what, local, valid, recorded),
          λ off. ground (arith, off, left, what, local, valid),
        ),
      )

-- A write to a file of a committed relation, not one of the system's, in a monitored database reaches
-- the worker: while the map of files has room, the next round in that database reports the primary
-- table of the relation.
pub active_table_hook_smgrextend-reported :
    (env : Env) (node : Node) (s : SegmentState) (session : Session) (g : GlobalRejectMap)
    (f : RelFileNode) (oid : Oid) (c : ClassTuple)
    → node.is_role_mirror ≡ false
    → is_monitored f.db_node s.monitored ≡ true
    → length s.active_tables_map < node.server.max_active_tables
    → node.server.max_active_tables < two31
    → f.db_node ≡ env.my_database_id
    → node.server.relid_by_relfilenode f.spc_node f.rel_node ≡ oid
    → oid_is_valid oid ≡ true
    → ltb oid node.first_normal_object_id ≡ false
    → env.pg_class oid ≡ some c
    → IsActive
        (parse_primary_table_oid env node.server oid true)
        (get_active_tables_oid env node (active_table_hook_smgrextend env node session g f s).0).0
unfolding active_table_hook_smgrextend report_active_table_helper add_active_file
active_table_hook_smgrextend-reported env node s session g f oid c primary monitored room small own
      at valid normal class =
    let s' = (active_table_hook_smgrextend env node session g f s).0 in
    let b : Bounded ActiveTableFileEntry Unit = record {
      map = s.active_tables_map;
      last_overflow_report = s.caches.last_overflow_report;
    } in
    let added : s'.active_tables_map
        ≡ (added_to env.clock node.server.max_active_tables tt (file_entry f) b).map =
      ground (arith, primary, monitored) in
    let recorded =
      subst (λ m. find (file_entry f) m ≢ none) (sym added)
        (find-added_to_own env.clock node.server.max_active_tables tt (file_entry f) b room
          small) in
    let bound =
      subst (λ m. length m ≤ node.server.max_active_tables) (sym added)
        (omega
          (arith, length-added_to env.clock node.server.max_active_tables tt (file_entry f) b)) in
    (get_active_tables_oid-file env node s' (file_entry f) oid c bound small recorded own at valid
      normal class).0
