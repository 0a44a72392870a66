-- ===== src/LoadQuotas/Segments.antt =====
-- The limits and sizes on each segment after one limit is written.
use diskquota.Prelude.{
  ℕ, zero, suc, none, some, ◌&&◌, eqb, if◌then◌else◌, ◌≡◌, ◌+◌, ◌==◌, refl, arith, ◌∙◌, ltb, leb,
}
use diskquota.QuotaType.{
  quota_key_has_eq, quota_key_eq_iff, QuotaInfoEntryKey, QuotaType, make_quota_key, quota_key_eq,
}
use diskquota.SharedTable.Laws.{Searched, search_or_add-Searched, found, added, refused}
use diskquota.QuotaInfo.{QuotaInfoMap, QuotaInfoEntry, update_segment_limit, update_limits_from}
use diskquota.Catalog.{Env, SegId, coordinator, Oid}
use diskquota.Htab.{find, put}
use diskquota.Words.{minus_one64, div64}
use diskquota.SharedTable.{search_or_add, write}
use diskquota.QuotaInfo.Sizes.{IsRoomy, size_of}
use diskquota.Htab.Laws.{find-put}

-- The limit of a quota; no entry means no limit, -1.
abbrev pub limit_of : QuotaInfoMap → QuotaInfoEntryKey → ℕ
limit_of q k = elim (find k q.map) [ none ↦ minus_one64 | some e ↦ e.limit ]

-- A limit's share for a segment: the whole on the coordinator.
abbrev pub segment_limit : Env → ℕ → ℕ → SegId → ℕ
segment_limit env limit segratio segid =
    if eqb segid coordinator then limit else env.round_mul (div64 limit env.segcount) segratio

module _ (env : Env) (limit segratio : ℕ) (type : QuotaType) (keys : Oid × Oid) where
  module _ (segid : SegId) (q : QuotaInfoMap) where
    abbrev key : QuotaInfoEntryKey
    key = make_quota_key type keys segid

    abbrev fresh : QuotaInfoEntry
    fresh = record { size = 0; limit = 0 }

    searched :
        Searched env.clock env.max_quota_map_entries fresh key q
          (search_or_add env.clock env.max_quota_map_entries fresh key q)
    searched = search_or_add-Searched env.clock env.max_quota_map_entries fresh key q

    update_segment_limit-IsRoomy :
        IsRoomy env (update_segment_limit env limit segratio type keys segid q) → IsRoomy env q
    unfolding update_segment_limit write
    update_segment_limit-IsRoomy room = elim searched [
      | found v h e m n ↦ ground arith
      | added h r e m n ↦ r
      | refused h r e m n ↦ ground arith
    ]

    size_of-update_segment_limit :
        (k : QuotaInfoEntryKey)
        → size_of (update_segment_limit env limit segratio type keys segid q) k ≡ size_of q k
    unfolding update_segment_limit write
    size_of-update_segment_limit k = elim searched [
      | found v h e m n ↦ ground (
        arith,
        h,
        quota_key_eq_iff key k,
        find-put key k (record v { limit = segment_limit env limit segratio segid }) q.map,
      )
      | added h r e m n ↦ ground (
        arith,
        h,
        quota_key_eq_iff key k,
        find-put key k fresh q.map,
        find-put key k (record fresh { limit = segment_limit env limit segratio segid })
            (put key fresh q.map),
      )
      | refused h r e m n ↦ ground arith
    ]

    limit_of-update_segment_limit :
        (k : QuotaInfoEntryKey)
        → IsRoomy env (update_segment_limit env limit segratio type keys segid q)
        → limit_of (update_segment_limit env limit segratio type keys segid q) k
          ≡ (if key == k then segment_limit env limit segratio segid else limit_of q k)
    unfolding update_segment_limit write
    limit_of-update_segment_limit k room = elim searched [
      | found v h e m n ↦ ground (
        arith,
        h,
        quota_key_eq_iff key k,
        find-put key k (record v { limit = segment_limit env limit segratio segid }) q.map,
      )
      | added h r e m n ↦ ground (
        arith,
        h,
        quota_key_eq_iff key k,
        find-put key k fresh q.map,
        find-put key k (record fresh { limit = segment_limit env limit segratio segid })
            (put key fresh q.map),
      )
      | refused h r e m n ↦ ground arith
    ]

  pub update_limits_from-IsRoomy :
      (n segid : ℕ) (q : QuotaInfoMap)
      → IsRoomy env (update_limits_from env limit segratio type keys n segid q)
      → IsRoomy env q
  unfolding update_limits_from
  update_limits_from-IsRoomy zero segid q room = room
  update_limits_from-IsRoomy (suc n) segid q room = update_segment_limit-IsRoomy segid q (
      update_limits_from-IsRoomy n (suc segid)
        (update_segment_limit env limit segratio type keys segid q) room)

  pub size_of-update_limits_from :
      (k : QuotaInfoEntryKey) (n segid : ℕ) (q : QuotaInfoMap)
      → size_of (update_limits_from env limit segratio type keys n segid q) k ≡ size_of q k
  unfolding update_limits_from
  size_of-update_limits_from k zero segid q = refl
  size_of-update_limits_from k (suc n) segid q =
      size_of-update_limits_from k n (suc segid)
        (update_segment_limit env limit segratio type keys segid q)
      ∙ size_of-update_segment_limit segid q k

  pub limit_of-update_limits_from :
      (k : QuotaInfoEntryKey) (n segid : ℕ) (q : QuotaInfoMap)
      → IsRoomy env (update_limits_from env limit segratio type keys n segid q)
      → limit_of (update_limits_from env limit segratio type keys n segid q) k ≡ (
          if make_quota_key type keys k.segid == k && (leb segid k.segid && ltb k.segid (segid + n))
          then segment_limit env limit segratio k.segid
          else limit_of q k)
  unfolding update_limits_from quota_key_eq
  limit_of-update_limits_from k zero segid q room = ground arith
  limit_of-update_limits_from k (suc n) segid q room =
      let q' = update_segment_limit env limit segratio type keys segid q in
      let rest = limit_of-update_limits_from k n (suc segid) q' room in
      let here =
        limit_of-update_segment_limit segid q k
          (update_limits_from-IsRoomy n (suc segid) q' room) in
      ground (arith, here, rest)
