-- ===== src/Usage/Transfer.antt =====
-- A transfer moves a table's bytes from the keys of the old owners to those of the new ones.
use diskquota.Prelude.{
  if◌then◌else◌, ◌==◌, ℕ, ◌+◌, ◌%◌, ◌<◌, ◌≡◌, Bool, true, false, eqb, arith, ap, refl, not, ◌||◌,
}
use diskquota.Words.{two64, two63, add64, neg64}
use diskquota.Catalog.{Env, Oid, SegId}
use diskquota.Usage.{
  Owners, transfer_owners, namespace_key, role_key, namespace_tablespace_key, role_tablespace_key,
}
use diskquota.Usage.Invariant.{is_charged}
use diskquota.QuotaType.{
  QuotaType, QuotaInfoEntryKey, make_quota_key, namespace_quota, role_quota,
  namespace_tablespace_quota, role_tablespace_quota, quota_key_eq_iff, quota_key_has_eq,
}
use diskquota.QuotaInfo.{QuotaInfoMap, transfer_table_for_quota, update_size_for_quota}
use diskquota.QuotaInfo.Sizes.{size_of, IsRoomy, update_size-IsRoomy, size_of-update_size}

-- The bytes that a key gains.
abbrev gain : QuotaType → Oid × Oid → SegId → ℕ → QuotaInfoEntryKey → ℕ
gain type keys segid size k = if make_quota_key type keys segid == k then size else 0

-- The new value of a key plus what it gave is its old value plus what it got, as int64.
abbrev pub Balances : QuotaInfoMap → QuotaInfoMap → QuotaInfoEntryKey → ℕ → ℕ → Type 0
Balances q q' k gave got =
    (size_of q' k < two64) × ((size_of q' k + gave) % two64 ≡ (size_of q k + got) % two64)

module _ (env : Env) (size : ℕ) (segid : SegId) where
  module _ (type : QuotaType) (old new : Oid × Oid) (q : QuotaInfoMap) where
    transfer-IsRoomy :
        IsRoomy env (transfer_table_for_quota env size type old new segid q) → IsRoomy env q
    unfolding transfer_table_for_quota
    transfer-IsRoomy room =
        update_size-IsRoomy env (neg64 size) type old segid q
          (update_size-IsRoomy env size type new segid _ room)

    abbrev moved : Bool → QuotaInfoMap
    moved b = if b then transfer_table_for_quota env size type old new segid q else q

    step-IsRoomy :
        (b : Bool)
        → IsRoomy env (if b then transfer_table_for_quota env size type old new segid q else q)
        → IsRoomy env q
    step-IsRoomy true room = transfer-IsRoomy room
    step-IsRoomy false room = room

  pub transfer_owners-IsRoomy :
      (old new : Owners) (q : QuotaInfoMap)
      → IsRoomy env (transfer_owners env size old new segid q)
      → IsRoomy env q
  unfolding transfer_owners
  transfer_owners-IsRoomy old new q room =
      step-IsRoomy namespace_quota (namespace_key old) (namespace_key new) q _ (
        step-IsRoomy role_quota (role_key old) (role_key new) _ _ (
          step-IsRoomy namespace_tablespace_quota (namespace_tablespace_key old)
            (namespace_tablespace_key new) _ _
            (step-IsRoomy role_tablespace_quota (role_tablespace_key old) (role_tablespace_key new)
              _ _ room)))

  module _ (small : size < two63) (k : QuotaInfoEntryKey) where
    module _ (type : QuotaType) (old new : Oid × Oid) (q : QuotaInfoMap) where
      transfer-Balances :
          IsRoomy env (transfer_table_for_quota env size type old new segid q)
          → size_of q k < two64
          → Balances q
              (transfer_table_for_quota env size type old new segid q)
              k
              (gain type old segid size k)
              (gain type new segid size k)
      unfolding transfer_table_for_quota add64 neg64
      transfer-Balances room h =
          let q1 = update_size_for_quota env (neg64 size) type old segid q in
          let r1 = update_size-IsRoomy env size type new segid q1 room in
          let e1 = size_of-update_size env (neg64 size) type old segid q k r1 in
          let e2 = size_of-update_size env size type new segid q1 k room in
          (ground (arith, e1, e2), ground (arith, e1, e2))

      -- Where the test finds no change, old and new keys agree and nothing has to move.
      step-Balances :
          (b : Bool)
          → (b ≡ false → make_quota_key type old segid ≡ make_quota_key type new segid)
          → IsRoomy env (if b then transfer_table_for_quota env size type old new segid q else q)
          → size_of q k < two64
          → Balances q
              (if b then transfer_table_for_quota env size type old new segid q else q)
              k
              (gain type old segid size k)
              (gain type new segid size k)
      step-Balances true same room h = transfer-Balances room h
      step-Balances false same room h =
          (h, ap (λ x. (size_of q k + (if x == k then size else 0)) % two64) (same refl))

    charged-gain :
        (o : Owners)
        → gain namespace_quota (namespace_key o) segid size k
            + gain role_quota (role_key o) segid size k
            + gain namespace_tablespace_quota (namespace_tablespace_key o) segid size k
            + gain role_tablespace_quota (role_tablespace_key o) segid size k
          ≡ (if is_charged k o segid then size else 0)
    charged-gain o = ground (
      arith,
      quota_key_eq_iff (make_quota_key namespace_quota (namespace_key o) segid) k,
      quota_key_eq_iff (make_quota_key role_quota (role_key o) segid) k,
      quota_key_eq_iff
          (make_quota_key namespace_tablespace_quota (namespace_tablespace_key o) segid) k,
      quota_key_eq_iff (make_quota_key role_tablespace_quota (role_tablespace_key o) segid) k,
    )

    pub transfer_owners-Balances :
        (old new : Owners) (q : QuotaInfoMap)
        → IsRoomy env (transfer_owners env size old new segid q)
        → size_of q k < two64
        → Balances q
            (transfer_owners env size old new segid q)
            k
            (if is_charged k old segid then size else 0)
            (if is_charged k new segid then size else 0)
    unfolding transfer_owners
    transfer_owners-Balances old new q room h =
        let nc = not (eqb old.namespaceoid new.namespaceoid) in
        let oc = not (eqb old.owneroid new.owneroid) in
        let tc = not (eqb old.tablespaceoid new.tablespaceoid) in
        let q1 = moved namespace_quota (namespace_key old) (namespace_key new) q nc in
        let q2 = moved role_quota (role_key old) (role_key new) q1 oc in
        let q3 =
          moved namespace_tablespace_quota (namespace_tablespace_key old)
            (namespace_tablespace_key new) q2 (tc || nc) in
        let r3 =
          step-IsRoomy role_tablespace_quota (role_tablespace_key old) (role_tablespace_key new) q3
            (tc || oc) room in
        let r2 =
          step-IsRoomy namespace_tablespace_quota (namespace_tablespace_key old)
            (namespace_tablespace_key new) q2 (tc || nc) r3 in
        let r1 = step-IsRoomy role_quota (role_key old) (role_key new) q1 oc r2 in
        let s1 =
          step-Balances namespace_quota (namespace_key old) (namespace_key new) q nc
            (λ f. ground arith) r1 h in
        let s2 =
          step-Balances role_quota (role_key old) (role_key new) q1 oc (λ f. ground arith) r2
            s1.0 in
        let s3 =
          step-Balances namespace_tablespace_quota (namespace_tablespace_key old)
            (namespace_tablespace_key new) q2 (tc || nc) (λ f. ground arith) r3 s2.0 in
        let s4 =
          step-Balances role_tablespace_quota (role_tablespace_key old) (role_tablespace_key new) q3
            (tc || oc) (λ f. ground arith) room s3.0 in
        (s4.0, rw (← charged-gain old, ← charged-gain new) (omega (arith, s1.1, s2.1, s3.1, s4.1)))
