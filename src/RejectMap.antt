-- ===== src/RejectMap.antt =====
-- The global reject map of src/quotamodel.c, disk_quota_reject_map: how the local map is flushed
-- into it, and the checks that a statement and a segment make against it; with the executor hook
-- of src/enforcement.c.
pub mod Laws
pub mod Checks
pub mod Blocking
pub mod Segment
use diskquota.Prelude.{
  ℕ, suc, ◌∷◌, [], Bool, List, not, Option, if◌then◌else◌, false, none, eqb, some, ◌||◌, true,
}
use diskquota.SharedTable.{Bounded, search_or_add_bounded, write_bounded}
use diskquota.Htab.{Htab, remove_if, find, put, remove}
use diskquota.RejectEntry.{
  RejectMapEntry, RelFileNode, GlobalRejectMapEntry, LocalRejectMapEntry, no_reject_entry,
  reject_entry_has_eq,
}
use diskquota.Catalog.{Env, Oid, tablespace_or_default, invalid_oid, oid_is_valid}
use diskquota.QuotaInfo.{LocalRejectMap}
use diskquota.QuotaType.{
  QuotaType, namespace_quota, quota_type_eq, role_quota, role_tablespace_quota,
  namespace_tablespace_quota, tablespace_quota, quota_type_code,
}
use diskquota.MonitoredDb.{MonitoredDbidCache, diskquota_is_paused}

abbrev pub GlobalRejectMap : Type 0
GlobalRejectMap = Bounded RejectMapEntry GlobalRejectMapEntry

-- The two maps while they are flushed, and whether the global one has changed.
pub record Flushing : Type 0 where
  pub global : GlobalRejectMap
  pub local : Htab RejectMapEntry LocalRejectMapEntry
  pub changed : Bool

abbrev pub bool_eq : Bool → Bool → Bool
bool_eq true b = b
bool_eq false b = not b

-- What the code writes into a new entry; its key is the local one's.
abbrev pub new_global_entry : RejectMapEntry → LocalRejectMapEntry → GlobalRejectMapEntry
new_global_entry k l = record {
  keyitem = k;
  segexceeded = l.segexceeded;
  auxblockinfo = no_reject_entry;
}

-- One round of the loop of flush_local_reject_map, for the local entry `l` under `k`.
unfoldable pub flush_local_entry : Env → RejectMapEntry → LocalRejectMapEntry → Flushing → Flushing
flush_local_entry env k l s =
    if l.isexceeded
    then (let was_found = find k s.global.map in
        let (entry, g) =
          search_or_add_bounded env.clock env.max_disk_quota_reject_entries (new_global_entry k l) k
            s.global in
        let reset : LocalRejectMapEntry = record { isexceeded = false; segexceeded = false } in
        elim entry [
          | none ↦ record s { global = g }
          | some r ↦ record {
            global = write_bounded k (record r { segexceeded = l.segexceeded }) g;
            local = put k reset s.local;
            changed = elim was_found [
              | none ↦ true
              | some _ ↦ if bool_eq r.segexceeded l.segexceeded then s.changed else true
            ];
          }
        ])
    else record {
      global = record s.global { map = remove k s.global.map };
      local = remove k s.local;
      changed = true;
    }

unfoldable pub flush_local_entries :
    Env → Htab RejectMapEntry LocalRejectMapEntry → Flushing → Flushing
flush_local_entries env [] s = s
flush_local_entries env ((k, l) ∷ m) s = flush_local_entries env m (flush_local_entry env k l s)

unfoldable pub flush_local_reject_map : Env → GlobalRejectMap → LocalRejectMap → Flushing
unfolding flush_local_entries
flush_local_reject_map env g m =
    flush_local_entries env m.map (record { global = g; local = m.map; changed = false })

unfoldable pub prepare_rejectmap_search_key : Env → QuotaType → Oid → Oid → Oid → RejectMapEntry
prepare_rejectmap_search_key env type relowner relnamespace reltablespace = record no_reject_entry {
  targetoid =
      if quota_type_eq type role_quota || quota_type_eq type role_tablespace_quota
      then relowner
      else if quota_type_eq type namespace_quota || quota_type_eq type namespace_tablespace_quota
      then relnamespace
      else reltablespace;
  tablespaceoid =
      if quota_type_eq type role_tablespace_quota || quota_type_eq type namespace_tablespace_quota
      then reltablespace
      else invalid_oid;
  databaseoid = env.my_database_id;
  targettype = quota_type_code type;
}

-- QuotaType from 0 to before NUM_QUOTA_TYPES
abbrev pub quota_types : List QuotaType
quota_types =
    namespace_quota ∷ role_quota ∷ namespace_tablespace_quota ∷ role_tablespace_quota
    ∷ tablespace_quota ∷ []

-- The entry that export_exceeded_error reports, if there is one: the first in the order of types.
unfoldable pub first_rejection :
    Env → Oid → Oid → Oid → List QuotaType → GlobalRejectMap → Option GlobalRejectMapEntry
unfolding prepare_rejectmap_search_key
first_rejection env relowner relnamespace reltablespace [] g = none
first_rejection env relowner relnamespace reltablespace (type ∷ types) g =
    let rest = first_rejection env relowner relnamespace reltablespace types g in
    elim (find (prepare_rejectmap_search_key env type relowner relnamespace reltablespace) g.map) [
      | some e ↦ some e
      | none ↦ rest
    ]

-- get_rel_owner_schema_tablespace
unfoldable pub get_rel_owner_schema_tablespace : Env → Oid → Option (Oid × Oid × Oid)
get_rel_owner_schema_tablespace env relid = elim (env.pg_class relid) [
  | none ↦ none
  | some c ↦ some (c.relowner, c.relnamespace, tablespace_or_default env c.reltablespace)
]

-- Each check is the entry that the source raises the error for, or none where it returns true.
unfoldable pub check_rejectmap_by_reloid : Env → Oid → GlobalRejectMap → Option GlobalRejectMapEntry
unfolding first_rejection get_rel_owner_schema_tablespace
check_rejectmap_by_reloid env reloid g = elim (get_rel_owner_schema_tablespace env reloid) [
  | none ↦ none
  | some (owner, namespace, tablespace) ↦
      first_rejection env owner namespace tablespace quota_types g
]

-- The error names the quota that blocks the file, kept in `auxblockinfo`.
unfoldable pub check_rejectmap_by_relfilenode :
    RelFileNode → GlobalRejectMap → Option GlobalRejectMapEntry
check_rejectmap_by_relfilenode f g =
    elim (find (record no_reject_entry { relfilenode = f }) g.map) [
      | none ↦ none
      | some e ↦ some (record e { keyitem = e.auxblockinfo })
    ]

-- What a statement of the session sees: whether it is in a transaction, diskquota_hardlimit, and
-- the cache of monitored databases.
pub record Session : Type 0 where
  pub is_transaction_state : Bool
  pub hardlimit : Bool
  pub monitored : MonitoredDbidCache

unfoldable pub quota_check_common :
    Env → Session → Oid → Option RelFileNode → GlobalRejectMap → Option GlobalRejectMapEntry
unfolding check_rejectmap_by_reloid check_rejectmap_by_relfilenode
quota_check_common env s reloid relfilenode g =
    if not s.is_transaction_state || diskquota_is_paused env.my_database_id s.monitored
    then none
    else if oid_is_valid reloid
    then check_rejectmap_by_reloid env reloid g
    else elim relfilenode [
      | none ↦ none
      | some f ↦ if s.hardlimit then check_rejectmap_by_relfilenode f g else none
    ]

unfoldable pub invalidate_database_rejectmap : Oid → GlobalRejectMap → GlobalRejectMap
invalidate_database_rejectmap dbid g = record g {
  map = remove_if (λ k _. eqb k.databaseoid dbid || eqb k.relfilenode.db_node dbid) g.map;
}

-- A range table entry, with the two bits of requiredPerms that count.
pub record RangeTblEntry : Type 0 where
  pub is_relation : Bool
  pub acl_insert : Bool
  pub acl_update : Bool
  pub relid : Oid

-- quota_check_common on each relation in turn, up to the first error.
unfoldable pub check_relations :
    Env → Session → List Oid → GlobalRejectMap → Option GlobalRejectMapEntry
unfolding quota_check_common
check_relations env s [] g = none
check_relations env s (oid ∷ oids) g =
    let rest = check_relations env s oids g in
    elim (quota_check_common env s oid none g) [ some e ↦ some e | none ↦ rest ]

-- `index_list` is diskquota_get_index_list.
unfoldable pub quota_check_exec_check_rt_perms :
    Env
    → Session
    → (Oid → List Oid)
    → List RangeTblEntry
    → GlobalRejectMap
    → Option GlobalRejectMapEntry
unfolding check_relations
quota_check_exec_check_rt_perms env s index_list [] g = none
quota_check_exec_check_rt_perms env s index_list (rte ∷ rtes) g =
    let rest = quota_check_exec_check_rt_perms env s index_list rtes g in
    if not rte.is_relation || not (rte.acl_insert || rte.acl_update)
    then rest
    else elim (check_relations env s (rte.relid ∷ index_list rte.relid) g) [
      | some e ↦ some e
      | none ↦ rest
    ]
