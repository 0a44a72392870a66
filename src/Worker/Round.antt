-- ===== src/Worker/Round.antt =====
-- The sizes of the quotas after a round of the worker.
use diskquota.Prelude.{
  subst, sym, ap, [], ◌∷◌, refl, true, false, ◌==◌, ◌≡◌, arith, inl, inr, Bool-cases, ◌∙◌,
  if◌then◌else◌, Bool, List, some, map, ◌%◌, length, ◌≢◌, All, ◌<◌,
}
use diskquota.QuotaType.{quota_key_has_eq, quota_key_eq_iff, QuotaInfoEntryKey}
use diskquota.Htab.{find, remove, Htab}
use diskquota.ActiveTables.Pull.Sums.{result_sum}
use diskquota.QuotaInfo.{
  refresh_quota_entries, refresh_quota_entry, QuotaInfoEntry, QuotaInfoMap, LocalRejectMap,
  quota_key_exists, refresh_quota_info_map,
}
use diskquota.Catalog.{Env, Oid, coordinator}
use diskquota.QuotaInfo.Sizes.{size_of, entry_size, IsRoomy}
use diskquota.Htab.Laws.{find-remove}
use diskquota.RelationCache.Update.{Server}
use diskquota.Worker.{
  refresh_fetched, refresh_disk_quota_usage, Inputs, WorkerState,
  merge_uncommitted_table_to_oidlist,
}
use diskquota.ActiveTables.Pull.{
  gp_fetch_active_tables, TableStat, pull_active_list_from_seg, pull_active_table_size_from_seg,
}
use diskquota.TableSize.{TableSizeMap}
use diskquota.Usage.{track_namespace_owner_tablespace_changes}
use diskquota.RelationCache.{RelationCaches}
use diskquota.Usage.Invariant.{IsLive, Accounts, usage}
use diskquota.Words.{two64, two63}
use diskquota.Flush.Laws.{flush_to_table_size-sized}
use diskquota.Usage.Active.{active_size}
use diskquota.ActiveTables.Pull.Worker.{pull_active_table_size_from_seg-Accounts}
use diskquota.Usage.Release.{track_namespace_owner_tablespace_changes-IsRoomy}

-- The pass over the quotas removes only those whose objects are gone.
refresh_quota_entry-map :
    (env : Env) (j : QuotaInfoEntryKey) (e : QuotaInfoEntry) (q : QuotaInfoMap) (m : LocalRejectMap)
    → (refresh_quota_entry env (j, e) (q, m)).0.map
      ≡ (if quota_key_exists env j then q.map else remove j q.map)
unfolding refresh_quota_entry
refresh_quota_entry-map env j e q m = ground arith

size_of-refresh_quota_entry :
    (env : Env) (k j : QuotaInfoEntryKey) (e : QuotaInfoEntry) (q : QuotaInfoMap)
    (m : LocalRejectMap)
    → quota_key_exists env k ≡ true
    → size_of (refresh_quota_entry env (j, e) (q, m)).0 k ≡ size_of q k
size_of-refresh_quota_entry env k j e q m live =
    let p = refresh_quota_entry-map env j e q m in
    elim (Bool-cases (quota_key_exists env j)) [
      | inl there ↦ ap (λ x. entry_size (find k x)) (rw there at p)
      | inr gone ↦
          let other : (j == k) ≡ false = elim (Bool-cases (j == k)) [
            | inl same ↦
                let r : j ≡ k = (quota_key_eq_iff j k).0 same in
                cc (subst (λ x. quota_key_exists env x ≡ false) r gone)
            | inr h ↦ h
          ] in
          ap (λ x. entry_size (find k x)) (rw gone at p)
          ∙ ap entry_size (rw other at (find-remove j k q.map))
    ]

size_of-refresh_quota_entries :
    (env : Env) (k : QuotaInfoEntryKey) (xs : Htab QuotaInfoEntryKey QuotaInfoEntry)
    (q : QuotaInfoMap) (m : LocalRejectMap)
    → quota_key_exists env k ≡ true
    → size_of (refresh_quota_entries env xs (q, m)).0 k ≡ size_of q k
unfolding refresh_quota_entries
size_of-refresh_quota_entries env k [] q m live = refl
size_of-refresh_quota_entries env k ((j, e) ∷ xs) q m live =
    let (q', m') = refresh_quota_entry env (j, e) (q, m) in
    size_of-refresh_quota_entries env k xs q' m' live
    ∙ size_of-refresh_quota_entry env k j e q m live

size_of-refresh_quota_info_map :
    (env : Env) (k : QuotaInfoEntryKey) (q : QuotaInfoMap) (m : LocalRejectMap)
    → quota_key_exists env k ≡ true
    → size_of (refresh_quota_info_map env (q, m)).0 k ≡ size_of q k
unfolding refresh_quota_info_map
size_of-refresh_quota_info_map env k q m live = size_of-refresh_quota_entries env k q.map q m live

-- The relations that the round goes over, and the caches it leaves.
abbrev merged : Env → Server → Inputs → WorkerState → List Oid × RelationCaches
merged env server i s = merge_uncommitted_table_to_oidlist env server i.rel_oid_list s.caches

-- The maps after the pass over those relations.
abbrev pub tracked :
    Env
    → Server
    → Inputs
    → Bool
    → WorkerState
    → TableSizeMap × QuotaInfoMap
    → TableSizeMap × QuotaInfoMap
tracked env server i is_init s x =
    track_namespace_owner_tablespace_changes env is_init (merged env server i s).1.relation_cache
      (merged env server i s).0 x

refresh_fetched-sized :
    (env : Env) (server : Server) (i : Inputs) (is_init : Bool) (oids : List Oid) (t : TableSizeMap)
    (q : QuotaInfoMap) (s : WorkerState) (k : QuotaInfoEntryKey)
    → IsLive env k
    → Accounts env t q
    → IsRoomy env (tracked env server i is_init s (t, q)).1
    → size_of (refresh_fetched env server i is_init oids (t, q) s).0.quotas k
      ≡ usage (refresh_fetched env server i is_init oids (t, q) s).0.tables k % two64
unfolding refresh_fetched
refresh_fetched-sized env server i is_init oids t q s k live acc room =
    let (oidlist, caches) = merged env server i s in
    let q' = (tracked env server i is_init s (t, q)).1 in
    size_of-refresh_quota_info_map env k q' s.local live.0
    ∙ flush_to_table_size-sized env is_init caches.relation_cache oidlist t q s.table_size k live
        acc room

-- A round of the worker after the initial one keeps the accounts. If the segments report their
-- active tables, all of them send the sizes, no size reaches 2 ^ 63, neither a segment's nor the
-- sum over the segments with the coordinator's own bytes, the map of quotas does not fill up, and
-- every live quota had the sum of the sizes of its tables before the round, then every live quota
-- has after the round the sum of the sizes of the tables in the map that has then been flushed.
pub refresh_disk_quota_usage-sized :
    (env : Env) (server : Server) (i : Inputs) (s : WorkerState) (oids : List Oid)
    (rs : List (List TableStat)) (k : QuotaInfoEntryKey)
    → pull_active_list_from_seg i.answers.active ≡ some oids
    → i.answers.sizes oids ≡ map (λ x. some x) rs
    → length (map (λ x. some x) rs) ≡ env.segcount
    → env.segcount ≢ 0
    → All (All (λ r. active_size i.table_size r.reloid r.tablesize r.segid < two63)) rs
    → ((oid : Oid) → active_size i.table_size oid (result_sum oid rs % two64) coordinator < two63)
    → IsLive env k
    → Accounts env s.tables s.quotas
    → IsRoomy env
        (tracked env server i false s
          (pull_active_table_size_from_seg env i.table_size
            (map (λ x. some x) rs)
            (s.tables, s.quotas)).1).1
    → size_of (refresh_disk_quota_usage env server i false s).0.quotas k
      ≡ usage (refresh_disk_quota_usage env server i false s).0.tables k % two64
unfolding refresh_disk_quota_usage gp_fetch_active_tables
refresh_disk_quota_usage-sized env server i s oids rs k active sizes all some_segments small total
      live acc room =
    let x =
      pull_active_table_size_from_seg env i.table_size (map (λ x. some x) rs)
        (s.tables, s.quotas) in
    let pull_room =
      track_namespace_owner_tablespace_changes-IsRoomy env false
        (merged env server i s).1.relation_cache (merged env server i s).0 x.1.0 x.1.1 k live
        room in
    let (ok, acc') =
      pull_active_table_size_from_seg-Accounts env i.table_size rs s.tables s.quotas all
        some_segments small total acc pull_room in
    let run : refresh_disk_quota_usage env server i false s
        ≡ refresh_fetched env server i false oids x.1 s =
      ground (arith, active, sizes, ok) in
    subst (λ y. size_of y.0.quotas k ≡ usage y.0.tables k % two64) (sym run)
      (refresh_fetched-sized env server i false oids x.1.0 x.1.1 s k live acc' room)
