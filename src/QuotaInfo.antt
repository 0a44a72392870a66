-- ===== src/QuotaInfo.antt =====
-- quota_info_map of src/quotamodel.c: for each quota and segment the bytes in use and the limit.
pub mod Sizes
pub mod Refresh
use diskquota.Prelude.{
  ℕ, zero, suc, ◌*◌, List, [], ◌∷◌, Option, none, some, Bool, true, false, ◌&&◌, not, eqb,
  if◌then◌else◌,
}
use diskquota.Words.{add64, neg64, minus_one64, slt64, div64, dec32}
use diskquota.Htab.{Htab, find, put, remove, update_all}
use diskquota.Catalog.{Env, Oid, SegId, CacheId, coordinator, invalid_oid}
use diskquota.QuotaType.{
  QuotaType, namespace_tablespace_quota, role_tablespace_quota, quota_type_code, quota_type_eq,
  quota_key_caches, QuotaInfoEntryKey, make_quota_key, quota_key_has_eq,
}
use diskquota.RejectEntry.{RejectMapEntry, LocalRejectMapEntry, no_relfilenode, reject_entry_has_eq}
use diskquota.SharedTable.{
  Counted, Bounded, search_or_add, write, search_or_add_bounded, write_bounded,
}

-- `size` and `limit` are int64.
pub record QuotaInfoEntry : Type 0 where
  pub size : ℕ
  pub limit : ℕ

abbrev pub QuotaInfoMap : Type 0
QuotaInfoMap = Counted QuotaInfoEntryKey QuotaInfoEntry

abbrev pub LocalRejectMap : Type 0
LocalRejectMap = Bounded RejectMapEntry LocalRejectMapEntry

-- Adds `size` to the entry, which is made with the limit -1 if it is not there.
unfoldable pub update_size_for_quota :
    Env → ℕ → QuotaType → Oid × Oid → SegId → QuotaInfoMap → QuotaInfoMap
update_size_for_quota env size type keys segid q =
    let key = make_quota_key type keys segid in
    let (entry, q') =
      search_or_add env.clock env.max_quota_map_entries (record { size = 0; limit = minus_one64 })
        key q in
    elim entry [ none ↦ q' | some e ↦ write key (record e { size = add64 e.size size }) q' ]

-- The limit for one segment. A new entry's limit is written before anything reads it.
unfoldable pub update_segment_limit :
    Env → ℕ → ℕ → QuotaType → Oid × Oid → SegId → QuotaInfoMap → QuotaInfoMap
update_segment_limit env limit segratio type keys segid q =
    let key = make_quota_key type keys segid in
    let (entry, q') =
      search_or_add env.clock env.max_quota_map_entries (record { size = 0; limit = 0 }) key q in
    elim entry [
      | none ↦ q'
      | some e ↦
          write key
            (record e {
              limit =
                  if eqb segid coordinator
                  then limit
                  else env.round_mul (div64 limit env.segcount) segratio;
            })
            q'
    ]

-- The loop over the coordinator and the segments: `n` rounds from `segid`.
unfoldable pub update_limits_from :
    Env → ℕ → ℕ → QuotaType → Oid × Oid → ℕ → SegId → QuotaInfoMap → QuotaInfoMap
update_limits_from env limit segratio type keys zero segid q = q
update_limits_from env limit segratio type keys (suc n) segid q =
    update_limits_from env limit segratio type keys n (suc segid)
      (update_segment_limit env limit segratio type keys segid q)

unfoldable pub update_limit_for_quota :
    Env → ℕ → ℕ → QuotaType → Oid × Oid → QuotaInfoMap → QuotaInfoMap
unfolding update_limits_from
update_limit_for_quota env limit segratio type keys q =
    update_limits_from env limit segratio type keys (suc env.segcount) coordinator q

unfoldable pub transfer_table_for_quota :
    Env → ℕ → QuotaType → Oid × Oid → Oid × Oid → SegId → QuotaInfoMap → QuotaInfoMap
transfer_table_for_quota env totalsize type old_keys new_keys segid q =
    update_size_for_quota env totalsize type new_keys segid
      (update_size_for_quota env (neg64 totalsize) type old_keys segid q)

unfoldable pub clean_all_quota_limit : QuotaInfoMap → QuotaInfoMap
clean_all_quota_limit q = record q {
  map = update_all (λ e. record e { limit = minus_one64 }) q.map;
}

-- The key under which a quota stands in the reject maps.
abbrev pub quota_reject_key : Env → QuotaType → Oid → Oid → RejectMapEntry
quota_reject_key env type targetoid tablespaceoid = record {
  targetoid = targetoid;
  databaseoid = env.my_database_id;
  tablespaceoid = tablespaceoid;
  targettype = quota_type_code type;
  relfilenode = no_relfilenode;
}

unfoldable pub add_quota_to_rejectmap :
    Env → QuotaType → Oid → Oid → Bool → LocalRejectMap → LocalRejectMap
add_quota_to_rejectmap env type targetoid tablespaceoid segexceeded m =
    let key = quota_reject_key env type targetoid tablespaceoid in
    let (entry, m') =
      search_or_add_bounded env.clock env.max_local_reject_entries
        (record { isexceeded = false; segexceeded = false }) key m in
    elim entry [
      | none ↦ m'
      | some _ ↦ write_bounded key (record { isexceeded = true; segexceeded = segexceeded }) m'
    ]

-- The catalog still has every object of the key.
unfoldable pub all_in_syscache : Env → List CacheId → Oid × Oid → Bool
all_in_syscache env [] keys = true
all_in_syscache env (c ∷ []) keys = env.in_syscache c keys.0
all_in_syscache env (c ∷ d ∷ _) keys = env.in_syscache c keys.0 && env.in_syscache d keys.1

unfoldable pub quota_key_exists : Env → QuotaInfoEntryKey → Bool
unfolding all_in_syscache
quota_key_exists env k = all_in_syscache env (quota_key_caches k.type) (k.key0, k.key1)

-- A limit is set and reached.
unfoldable pub is_exceeded : QuotaInfoEntry → Bool
is_exceeded e = slt64 0 e.limit && not (slt64 e.size e.limit)

-- `entry->key.keys[1]` for the quotas with a tablespace
abbrev pub reject_tablespace : QuotaInfoEntryKey → Oid
reject_tablespace k =
    if quota_type_eq k.type namespace_tablespace_quota
    then k.key1
    else if quota_type_eq k.type role_tablespace_quota
    then k.key1
    else invalid_oid

-- One round of the loop over the map: an entry whose object is gone is removed, an exceeded one
-- is put into the local reject map.
unfoldable pub refresh_quota_entry :
    Env
    → QuotaInfoEntryKey × QuotaInfoEntry
    → QuotaInfoMap × LocalRejectMap
    → QuotaInfoMap × LocalRejectMap
refresh_quota_entry env (k, e) (q, m) =
    if quota_key_exists env k
    then (if is_exceeded e
        then (
          q,
          add_quota_to_rejectmap env k.type k.key0 (reject_tablespace k)
              (not (eqb k.segid coordinator)) m,
        )
        else (q, m))
    else (record q { map = remove k q.map; entry_num = dec32 q.entry_num }, m)

unfoldable pub refresh_quota_entries :
    Env
    → Htab QuotaInfoEntryKey QuotaInfoEntry
    → QuotaInfoMap × LocalRejectMap
    → QuotaInfoMap × LocalRejectMap
refresh_quota_entries env [] s = s
refresh_quota_entries env (x ∷ xs) s = refresh_quota_entries env xs (refresh_quota_entry env x s)

-- The pass visits the entries that the map had when it began.
unfoldable pub refresh_quota_info_map :
    Env → QuotaInfoMap × LocalRejectMap → QuotaInfoMap × LocalRejectMap
unfolding refresh_quota_entries
refresh_quota_info_map env (q, m) = refresh_quota_entries env q.map (q, m)
