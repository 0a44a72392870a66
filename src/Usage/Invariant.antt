-- ===== src/Usage/Invariant.antt =====
-- What quota_info_map has to hold: under each key the sum of the tables that the key owns.
use diskquota.Prelude.{
  ℕ, ◌≡◌, Bool, false, if◌then◌else◌, arith, eqb, true, ◌&&◌, some, ◌%◌, subst, sym, Bool-cases,
  inl, refl, inr, ap, ◌<◌, ◌+◌,
}
use diskquota.Words.{add64, two64}
use diskquota.Catalog.{Env, SegId}
use diskquota.QuotaType.{
  namespace_quota, role_quota, namespace_tablespace_quota, role_tablespace_quota, tablespace_quota,
  QuotaInfoEntryKey, make_quota_key, quota_key_eq, quota_key_eq_iff, quota_key_has_eq,
}
use diskquota.QuotaInfo.{QuotaInfoMap, update_size_for_quota, quota_key_exists}
use diskquota.QuotaInfo.Sizes.{size_of, IsRoomy, update_size-IsRoomy, size_of-update_size}
use diskquota.TableSize.{
  table_key_has_eq, TableSizeEntry, TableSizeMap, TableSizeEntryKey, table_size_entry_id, get_size,
  table_key_eq_iff, table_size_entry_index,
}
use diskquota.Usage.{
  Owners, namespace_key, role_key, role_tablespace_key, namespace_tablespace_key,
  update_owner_quotas, owners_of,
}
use diskquota.Htab.Laws.{sum, find-put}
use diskquota.Htab.{find, Htab, put}

-- The owners `o` of a table are charged under the key `k` for the table's bytes on `segid`.
abbrev pub is_charged : QuotaInfoEntryKey → Owners → SegId → Bool
is_charged k o segid = elim k.type [
  | namespace_quota ↦ quota_key_eq (make_quota_key namespace_quota (namespace_key o) segid) k
  | role_quota ↦ quota_key_eq (make_quota_key role_quota (role_key o) segid) k
  | namespace_tablespace_quota ↦
      quota_key_eq (make_quota_key namespace_tablespace_quota (namespace_tablespace_key o) segid) k
  | role_tablespace_quota ↦
      quota_key_eq (make_quota_key role_tablespace_quota (role_tablespace_key o) segid) k
  | tablespace_quota ↦ false
]

pub update_owner_quotas-IsRoomy :
    (env : Env) (size : ℕ) (o : Owners) (segid : SegId) (q : QuotaInfoMap)
    → IsRoomy env (update_owner_quotas env size o segid q)
    → IsRoomy env q
unfolding update_owner_quotas
update_owner_quotas-IsRoomy env size o segid q room = update_size-IsRoomy env _ _ _ _ _ (
    update_size-IsRoomy env _ _ _ _ _
      (update_size-IsRoomy env _ _ _ _ _ (update_size-IsRoomy env _ _ _ _ _ room)))

-- The four updates reach exactly the keys that the owners are charged under.
pub size_of-update_owner_quotas :
    (env : Env) (size : ℕ) (o : Owners) (segid : SegId) (q : QuotaInfoMap) (k : QuotaInfoEntryKey)
    → IsRoomy env (update_owner_quotas env size o segid q)
    → size_of (update_owner_quotas env size o segid q) k
      ≡ (if is_charged k o segid then add64 (size_of q k) size else size_of q k)
unfolding update_owner_quotas
size_of-update_owner_quotas env size o segid q k room =
    let q1 = update_size_for_quota env size namespace_quota (namespace_key o) segid q in
    let q2 = update_size_for_quota env size role_quota (role_key o) segid q1 in
    let q3 =
      update_size_for_quota env size role_tablespace_quota (role_tablespace_key o) segid q2 in
    let r3 =
      update_size-IsRoomy env size namespace_tablespace_quota (namespace_tablespace_key o) segid q3
        room in
    let r2 =
      update_size-IsRoomy env size role_tablespace_quota (role_tablespace_key o) segid q2 r3 in
    let r1 = update_size-IsRoomy env size role_quota (role_key o) segid q1 r2 in
    let e1 = size_of-update_size env size namespace_quota (namespace_key o) segid q k r1 in
    let e2 = size_of-update_size env size role_quota (role_key o) segid q1 k r2 in
    let e3 =
      size_of-update_size env size role_tablespace_quota (role_tablespace_key o) segid q2 k r3 in
    let e4 =
      size_of-update_size env size namespace_tablespace_quota (namespace_tablespace_key o) segid q3
        k room in
    ground (
      arith,
      e1,
      e2,
      e3,
      e4,
      quota_key_eq_iff (make_quota_key namespace_quota (namespace_key o) segid) k,
      quota_key_eq_iff (make_quota_key role_quota (role_key o) segid) k,
      quota_key_eq_iff
          (make_quota_key namespace_tablespace_quota (namespace_tablespace_key o) segid) k,
      quota_key_eq_iff (make_quota_key role_tablespace_quota (role_tablespace_key o) segid) k,
    )

-- What an entry adds to the usage under `k`, if it covers the segment of `k`.
abbrev pub charge : QuotaInfoEntryKey → TableSizeEntry → ℕ
charge k e =
    if eqb e.key.id (table_size_entry_id k.segid) && is_charged k (owners_of e) k.segid
    then get_size e k.segid
    else 0

-- The bytes of all tables that the key owns, on its segment.
abbrev pub usage : TableSizeMap → QuotaInfoEntryKey → ℕ
usage t k = sum (charge k) t.map

-- The objects of the key are in the catalog, and its segment is one of the cluster's. (The map
-- forgets the keys of other objects at each refresh.)
abbrev pub IsLive : Env → QuotaInfoEntryKey → Type 0
IsLive env k = (quota_key_exists env k ≡ true) × (k.segid < env.segcount + 1)

-- Every entry stands under its own key.
abbrev pub IsKeyed : Htab TableSizeEntryKey TableSizeEntry → Type 0
IsKeyed m = (k : TableSizeEntryKey) (e : TableSizeEntry) → find k m ≡ some e → e.key ≡ k

pub put-IsKeyed :
    (k : TableSizeEntryKey) (v : TableSizeEntry) (m : Htab TableSizeEntryKey TableSizeEntry)
    → IsKeyed m
    → v.key ≡ k
    → IsKeyed (put k v m)
put-IsKeyed k v m keyed h j x found =
    ground (arith, find-put k j v m, table_key_eq_iff k j, keyed j x)

-- Every entry stands under its own key, and every live key has its usage, as an int64.
pub record Accounts (env : Env) (t : TableSizeMap) (q : QuotaInfoMap) : Type 0 where
  pub keyed : IsKeyed t.map
  pub sized : (k : QuotaInfoEntryKey) → IsLive env k → size_of q k ≡ usage t k % two64

-- Owners are charged under keys of their segment only.
pub is_charged-segid :
    (k : QuotaInfoEntryKey) (o : Owners) (s : SegId) → is_charged k o s ≡ true → k.segid ≡ s
is_charged-segid k o s h = ground (
  arith,
  quota_key_eq_iff (make_quota_key namespace_quota (namespace_key o) s) k,
  quota_key_eq_iff (make_quota_key role_quota (role_key o) s) k,
  quota_key_eq_iff (make_quota_key namespace_tablespace_quota (namespace_tablespace_key o) s) k,
  quota_key_eq_iff (make_quota_key role_tablespace_quota (role_tablespace_key o) s) k,
)

pub charge_own :
    (k : QuotaInfoEntryKey) (e : TableSizeEntry) (s : SegId)
    → is_charged k (owners_of e) s ≡ true
    → e.key.id ≡ table_size_entry_id s
    → charge k e ≡ get_size e s
charge_own k e s h i =
    let p = is_charged-segid k (owners_of e) s h in
    let c : is_charged k (owners_of e) k.segid ≡ true =
      subst (λ x. is_charged k (owners_of e) x ≡ true) (sym p) h in
    rw c (ground arith)

pub if_congr :
    (i j b c : Bool) (v w : ℕ)
    → i ≡ j
    → b ≡ c
    → (j ≡ true → c ≡ true → v ≡ w)
    → (if i && b then v else 0) ≡ (if j && c then w else 0)
if_congr i true true c v w g h f = ground (arith, f refl)
if_congr i true false c v w g h f = ground arith
if_congr i false b c v w g h f = ground arith

-- Two entries that differ in their sizes on `s` alone differ in charges on `s` alone.
module _ (k : QuotaInfoEntryKey) (e e' : TableSizeEntry) (s : SegId)
    (h : is_charged k (owners_of e) s ≡ false) (i : e.key.id ≡ table_size_entry_id s) where
  differs :
      eqb e.key.id (table_size_entry_id k.segid) ≡ true
      → is_charged k (owners_of e) k.segid ≡ true
      → eqb (table_size_entry_index k.segid) (table_size_entry_index s) ≡ false
  differs covers c = elim (Bool-cases (eqb k.segid s)) [
    | inl same_segid ↦
        let p : k.segid ≡ s = ground arith in
        cc (subst (λ x. is_charged k (owners_of e) x ≡ false) (sym p) h)
    | inr other ↦ ground arith
  ]

  pub charge_other :
      e'.key ≡ e.key
      → owners_of e' ≡ owners_of e
      → ((i : SegId)
          → eqb (table_size_entry_index i) (table_size_entry_index s) ≡ false
          → get_size e' i ≡ get_size e i)
      → charge k e' ≡ charge k e
  charge_other key own same =
      if_congr (eqb e'.key.id (table_size_entry_id k.segid))
        (eqb e.key.id (table_size_entry_id k.segid)) _ _ _ _
        (ap (λ x. eqb (TableSizeEntryKey.id x) (table_size_entry_id k.segid)) key)
        (ap (λ o. is_charged k o k.segid) own) (λ covers c. same k.segid (differs covers c))
