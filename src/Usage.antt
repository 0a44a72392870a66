-- ===== src/Usage.antt =====
-- The accounting of src/quotamodel.c: how the sizes of tables reach quota_info_map, in
-- calculate_active_table_disk_usage and track_namespace_owner_tablespace_changes.
pub mod Invariant
pub mod Active
pub mod Transfer
pub mod Track
pub mod Loop
pub mod Relations
pub mod Release
pub mod Present
use diskquota.Prelude.{
  ℕ, zero, suc, ◌-◌, List, [], ◌∷◌, Option, none, some, Bool, true, false, eqb, if◌then◌else◌, not,
  ◌||◌, nat_eq,
}
use diskquota.Words.{add64, sub64, neg64}
use diskquota.Catalog.{Env, Oid, SegId, coordinator, invalid_oid, tablespace_or_default}
use diskquota.QuotaType.{
  QuotaType, namespace_quota, role_quota, namespace_tablespace_quota, role_tablespace_quota,
}
use diskquota.SharedTable.{write}
use diskquota.QuotaInfo.{QuotaInfoMap, update_size_for_quota, transfer_table_for_quota}
use diskquota.TableSize.{
  TableSizeEntry, TableSizeMap, get_table_size_map_entry, get_size, set_size, set_flush_flag,
  table_key_has_eq, set_table_exist, get_table_exist, reset_flush_flag, segid_end, segid_start,
  reset_table_exist,
}
use diskquota.Htab.{Htab, update_all, find, entries}
use diskquota.RelationCache.{RelationCacheEntry}

-- The objects that own a table.
pub record Owners : Type 0 where
  pub namespaceoid : Oid
  pub owneroid : Oid
  pub tablespaceoid : Oid

abbrev pub owners_of : TableSizeEntry → Owners
owners_of e = record {
  namespaceoid = e.namespaceoid;
  owneroid = e.owneroid;
  tablespaceoid = e.tablespaceoid;
}

-- The key of each quota that a table is charged to; a tablespace alone has no usage.
abbrev pub namespace_key : Owners → Oid × Oid
namespace_key o = (o.namespaceoid, invalid_oid)

abbrev pub role_key : Owners → Oid × Oid
role_key o = (o.owneroid, invalid_oid)

abbrev pub role_tablespace_key : Owners → Oid × Oid
role_tablespace_key o = (o.owneroid, o.tablespaceoid)

abbrev pub namespace_tablespace_key : Owners → Oid × Oid
namespace_tablespace_key o = (o.namespaceoid, o.tablespaceoid)

-- The four calls of update_size_for_quota, in the order of the code.
unfoldable pub update_owner_quotas : Env → ℕ → Owners → SegId → QuotaInfoMap → QuotaInfoMap
update_owner_quotas env size o segid q =
    let q1 = update_size_for_quota env size namespace_quota (namespace_key o) segid q in
    let q2 = update_size_for_quota env size role_quota (role_key o) segid q1 in
    let q3 =
      update_size_for_quota env size role_tablespace_quota (role_tablespace_key o) segid q2 in
    update_size_for_quota env size namespace_tablespace_quota (namespace_tablespace_key o) segid q3

-- `table_size` is calculate_table_size of relation_cache.c, on the coordinator.
unfoldable pub calculate_active_table_disk_usage :
    Env → (Oid → ℕ) → Oid → ℕ → SegId → TableSizeMap × QuotaInfoMap → TableSizeMap × QuotaInfoMap
calculate_active_table_disk_usage env table_size oid size segid (t, q) =
    let (tsentry, t') = get_table_size_map_entry env oid segid t in
    elim tsentry [
      | none ↦ (t', q)
      | some e ↦
          let size' = if eqb segid coordinator then add64 size (table_size oid) else size in
          let updated_total_size = sub64 size' (get_size e segid) in
          (
            write e.key (set_flush_flag (set_size e segid size') segid) t',
            update_owner_quotas env updated_total_size (owners_of e) segid q,
          )
    ]

-- One relation's size on one segment moves from its old owners to its new ones.
unfoldable pub transfer_owners : Env → ℕ → Owners → Owners → SegId → QuotaInfoMap → QuotaInfoMap
transfer_owners env size old new segid q =
    let namespace_changed = not (eqb old.namespaceoid new.namespaceoid) in
    let owner_changed = not (eqb old.owneroid new.owneroid) in
    let tablespace_changed = not (eqb old.tablespaceoid new.tablespaceoid) in
    let q1 =
      if namespace_changed
      then transfer_table_for_quota env size namespace_quota (namespace_key old) (namespace_key new)
          segid q
      else q in
    let q2 =
      if owner_changed
      then transfer_table_for_quota env size role_quota (role_key old) (role_key new) segid q1
      else q1 in
    let q3 =
      if tablespace_changed || namespace_changed
      then transfer_table_for_quota env size namespace_tablespace_quota
          (namespace_tablespace_key old) (namespace_tablespace_key new) segid q2
      else q2 in
    if tablespace_changed || owner_changed
    then transfer_table_for_quota env size role_tablespace_quota (role_tablespace_key old)
        (role_tablespace_key new) segid q3
    else q3

abbrev pub with_owners : TableSizeEntry → Owners → TableSizeEntry
with_owners e o = record e {
  namespaceoid = o.namespaceoid;
  owneroid = o.owneroid;
  tablespaceoid = o.tablespaceoid;
}

-- The loop over the segments of a relation, `n` rounds from `segid`. It ends early when the table
-- of sizes is full. The owners of an entry change at its last segment.
unfoldable pub track_segments :
    Env
    → Bool
    → Oid
    → Owners
    → ℕ
    → SegId
    → TableSizeMap × QuotaInfoMap
    → TableSizeMap × QuotaInfoMap
track_segments env is_init oid new zero segid s = s
track_segments env is_init oid new (suc n) segid (t, q) =
    let (tsentry, t') = get_table_size_map_entry env oid segid t in
    elim tsentry [
      | none ↦ (t', q)
      | some e ↦
          let e1 = set_table_exist e in
          let e2 = if is_init then reset_flush_flag e1 segid else e1 in
          let q' = transfer_owners env (get_size e2 segid) (owners_of e2) new segid q in
          let e3 = if eqb (suc segid) (segid_end env e2) then with_owners e2 new else e2 in
          track_segments env is_init oid new n (suc segid) (write e.key e3 t', q')
    ]

-- A relation's owners, from pg_class or, for an uncommitted one, from the relation cache.
unfoldable pub relation_owners : Env → Htab Oid RelationCacheEntry → Oid → Option Owners
relation_owners env relation_cache oid = elim (env.pg_class oid) [
  | some c ↦ some (record {
    namespaceoid = c.relnamespace;
    owneroid = c.relowner;
    tablespaceoid = tablespace_or_default env c.reltablespace;
  })
  | none ↦ elim (find oid relation_cache) [
    | some r ↦ some (record {
      namespaceoid = r.namespaceoid;
      owneroid = r.owneroid;
      tablespaceoid = r.rnode.spc_node;
    })
    | none ↦ none
  ]
]

-- The loop over the relations; one that neither source knows is passed over with a warning.
unfoldable pub track_relations :
    Env
    → Bool
    → Htab Oid RelationCacheEntry
    → List Oid
    → TableSizeMap × QuotaInfoMap
    → TableSizeMap × QuotaInfoMap
unfolding track_segments relation_owners
track_relations env is_init relation_cache [] s = s
track_relations env is_init relation_cache (oid ∷ oids) s =
    track_relations env is_init relation_cache oids (elim (relation_owners env relation_cache oid) [
      | none ↦ s
      | some new ↦ track_segments env is_init oid new (suc env.segcount) coordinator s
    ])

-- A removed table gives back its size on each of its segments: `n` rounds from `segid`.
unfoldable pub release_segments : Env → TableSizeEntry → ℕ → SegId → QuotaInfoMap → QuotaInfoMap
release_segments env e zero segid q = q
release_segments env e (suc n) segid q =
    release_segments env e n (suc segid)
      (update_owner_quotas env (neg64 (get_size e segid)) (owners_of e) segid q)

-- The last pass over the table of sizes.
unfoldable pub release_removed : Env → List TableSizeEntry → QuotaInfoMap → QuotaInfoMap
release_removed env [] q = q
release_removed env (e ∷ es) q = release_removed env es (
    if get_table_exist e
    then q
    else release_segments env e (segid_end env e - segid_start e) (segid_start e) q)

-- `oidlist` is get_rel_oid_list merged with the uncommitted relations.
unfoldable pub track_namespace_owner_tablespace_changes :
    Env
    → Bool
    → Htab Oid RelationCacheEntry
    → List Oid
    → TableSizeMap × QuotaInfoMap
    → TableSizeMap × QuotaInfoMap
unfolding track_relations release_removed
track_namespace_owner_tablespace_changes env is_init relation_cache oidlist (t, q) =
    let unset = record t { map = update_all reset_table_exist t.map } in
    let (t', q') = track_relations env is_init relation_cache oidlist (unset, q) in
    (t', release_removed env (entries t'.map) q')
