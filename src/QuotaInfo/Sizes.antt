-- ===== src/QuotaInfo/Sizes.antt =====
-- What the operations of the map do to the sizes and limits that it holds.
use diskquota.Prelude.{ℕ, ◌≡◌, Option, none, some, if◌then◌else◌, ◌==◌, arith}
use diskquota.Words.{add64, minus_one64}
use diskquota.Htab.{find, put}
use diskquota.Htab.Laws.{find-put}
use diskquota.Catalog.{Env, Oid, SegId}
use diskquota.QuotaType.{
  QuotaType, QuotaInfoEntryKey, make_quota_key, quota_key_has_eq, quota_key_eq_iff,
}
use diskquota.SharedTable.{HasRoom, search_or_add, write}
use diskquota.SharedTable.Laws.{Searched, found, added, refused, search_or_add-Searched}
use diskquota.QuotaInfo.{QuotaInfoEntry, QuotaInfoMap, update_size_for_quota}

abbrev pub entry_size : Option QuotaInfoEntry → ℕ
entry_size none = 0
entry_size (some e) = e.size

-- The bytes recorded under a key, 0 where there is no entry.
abbrev pub size_of : QuotaInfoMap → QuotaInfoEntryKey → ℕ
size_of q k = entry_size (find k q.map)

abbrev pub IsRoomy : Env → QuotaInfoMap → Type 0
IsRoomy env q = HasRoom env.max_quota_map_entries q

module _ (env : Env) (size : ℕ) (type : QuotaType) (keys : Oid × Oid) (segid : SegId)
    (q : QuotaInfoMap) where
  abbrev searched : Option QuotaInfoEntry × QuotaInfoMap
  searched =
      search_or_add env.clock env.max_quota_map_entries (record { size = 0; limit = minus_one64 })
        (make_quota_key type keys segid) q

  outcome :
      Searched env.clock env.max_quota_map_entries
        (record { size = 0; limit = minus_one64 })
        (make_quota_key type keys segid)
        q
        searched
  outcome =
      search_or_add-Searched env.clock env.max_quota_map_entries _ (make_quota_key type keys segid)
        q

  -- A table that has room afterwards had room before.
  pub update_size-IsRoomy :
      IsRoomy env (update_size_for_quota env size type keys segid q) → IsRoomy env q
  unfolding update_size_for_quota write
  update_size-IsRoomy room = elim outcome [
    | found v h e m n ↦ ground arith
    | added h r e m n ↦ r
    | refused h r e m n ↦ ground arith
  ]

  pub size_of-update_size :
      (k : QuotaInfoEntryKey)
      → IsRoomy env (update_size_for_quota env size type keys segid q)
      → size_of (update_size_for_quota env size type keys segid q) k
        ≡ (if make_quota_key type keys segid == k then add64 (size_of q k) size else size_of q k)
  unfolding update_size_for_quota write
  size_of-update_size k room = elim outcome [
    | found v h e m n ↦ ground (
      arith,
      h,
      quota_key_eq_iff (make_quota_key type keys segid) k,
      find-put (make_quota_key type keys segid) k (record v { size = add64 v.size size }) q.map,
    )
    | added h r e m n ↦ ground (
      arith,
      h,
      quota_key_eq_iff (make_quota_key type keys segid) k,
      find-put (make_quota_key type keys segid) k (record { size = 0; limit = minus_one64 }) q.map,
      find-put (make_quota_key type keys segid) k
          (record { size = add64 0 size; limit = minus_one64 })
          (put (make_quota_key type keys segid) (record { size = 0; limit = minus_one64 }) q.map),
    )
    | refused h r e m n ↦ ground arith
  ]
