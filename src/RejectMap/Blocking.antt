-- ===== src/RejectMap/Blocking.antt =====
-- From an exceeded quota to a rejected statement: a refresh, a flush, and the check of a relation.
use diskquota.QuotaType.{quota_key_has_eq, QuotaInfoEntryKey}
use diskquota.Prelude.{◌+◌, none, some, ◌≡◌, true, length, ◌≤◌, ◌<◌, ◌≢◌, arith, subst}
use diskquota.Catalog.{Env, ClassTuple, tablespace_or_default, Oid}
use diskquota.QuotaInfo.{
  QuotaInfoMap, LocalRejectMap, refresh_quota_info_map, QuotaInfoEntry, quota_key_exists,
  is_exceeded, quota_reject_key, reject_tablespace,
}
use diskquota.Usage.{Owners}
use diskquota.RejectMap.{GlobalRejectMap, flush_local_reject_map, check_rejectmap_by_reloid}
use diskquota.Htab.{find}
use diskquota.Usage.Invariant.{is_charged}
use diskquota.Htab.Keys.{IsDistinct}
use diskquota.Words.{two31}
use diskquota.QuotaInfo.Refresh.{
  refresh_quota_info_map-is_blocked, refresh_quota_info_map-IsDistinct,
  refresh_quota_info_map-length,
}
use diskquota.RejectMap.Laws.{mark-flush_local_reject_map, prepare_rejectmap_search_key-is_charged}
use diskquota.RejectMap.Checks.{check_rejectmap_by_reloid-none}
use diskquota.RejectEntry.{reject_entry_has_eq}

-- The owners of a relation of the catalog.
abbrev pub class_owners : Env → ClassTuple → Owners
class_owners env c = record {
  namespaceoid = c.relnamespace;
  owneroid = c.relowner;
  tablespaceoid = tablespace_or_default env c.reltablespace;
}

module _ (env : Env) (q : QuotaInfoMap) (m : LocalRejectMap) (g : GlobalRejectMap) where
  -- The global map after one run of the worker's refresh and flush.
  abbrev pub refreshed : GlobalRejectMap
  refreshed = (flush_local_reject_map env g (refresh_quota_info_map env (q, m)).1).global

  -- While the reject maps have room, a quota whose objects are in the catalog and whose size has
  -- reached its positive limit makes, after the next refresh and flush, the check of every relation
  -- fail that the quota is charged for.
  pub check_rejectmap_by_reloid-refreshed :
      (k : QuotaInfoEntryKey) (e : QuotaInfoEntry) (oid : Oid) (c : ClassTuple)
      → find k q.map ≡ some e
      → quota_key_exists env k ≡ true
      → is_exceeded e ≡ true
      → env.pg_class oid ≡ some c
      → is_charged k (class_owners env c) k.segid ≡ true
      → IsDistinct m.map
      → length m.map + length q.map ≤ env.max_local_reject_entries
      → env.max_local_reject_entries < two31
      → length g.map + (length m.map + length q.map) ≤ env.max_disk_quota_reject_entries
      → env.max_disk_quota_reject_entries < two31
      → check_rejectmap_by_reloid env oid refreshed ≢ none
  check_rejectmap_by_reloid-refreshed k e oid c f live over class charged distinct room small room'
        small' passed =
      let local = (refresh_quota_info_map env (q, m)).1 in
      let key = quota_reject_key env k.type k.key0 (reject_tablespace k) in
      let o = class_owners env c in
      let b = refresh_quota_info_map-is_blocked env q m k e f live over room small in
      let h =
        mark-flush_local_reject_map env g local key
          (refresh_quota_info_map-IsDistinct env q m distinct)
          (omega (arith, refresh_quota_info_map-length env q m)) small' in
      let p = prepare_rejectmap_search_key-is_charged env k o k.segid charged in
      let x = (check_rejectmap_by_reloid-none env oid refreshed c class).0 passed k.type in
      let y : find key refreshed.map ≡ none = subst (λ z. find z refreshed.map ≡ none) p x in
      ground (arith, b, h, y)
