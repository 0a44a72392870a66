-- ===== src/QuotaType.antt =====
-- The kinds of quota and their keys: QuotaType and QuotaInfoEntryKey of src/diskquota.h, and
-- quota_key_num and quota_key_caches of src/quotamodel.c.
use diskquota.Prelude.{
  ℕ, List, [], ◌∷◌, ◌≡◌, ◌↔◌, Bool, true, ◌&&◌, eqb, KeyEq, Option, none, some, if◌then◌else◌,
  arith,
}
use diskquota.Catalog.{Oid, invalid_oid, SegId, CacheId, namespaceoid, authoid, tablespaceoid}

pub data QuotaType : Type 0 where
  namespace_quota role_quota namespace_tablespace_quota role_tablespace_quota tablespace_quota :
      QuotaType

abbrev pub quota_type_code : QuotaType → ℕ
quota_type_code namespace_quota = 0
quota_type_code role_quota = 1
quota_type_code namespace_tablespace_quota = 2
quota_type_code role_tablespace_quota = 3
quota_type_code tablespace_quota = 4

-- An integer of the configuration table, below NUM_QUOTA_TYPES or not.
unfoldable pub quota_type_of_code : ℕ → Option QuotaType
quota_type_of_code n =
    if eqb n 0
    then some namespace_quota
    else if eqb n 1
    then some role_quota
    else if eqb n 2
    then some namespace_tablespace_quota
    else if eqb n 3
    then some role_tablespace_quota
    else if eqb n 4
    then some tablespace_quota
    else none

abbrev pub quota_type_eq : QuotaType → QuotaType → Bool
quota_type_eq a b = eqb (quota_type_code a) (quota_type_code b)

pub quota_type_eq_iff : (a b : QuotaType) → (quota_type_eq a b ≡ true) ↔ (a ≡ b)
quota_type_eq_iff a b = ground arith

abbrev pub quota_key_num : QuotaType → ℕ
quota_key_num namespace_quota = 1
quota_key_num role_quota = 1
quota_key_num namespace_tablespace_quota = 2
quota_key_num role_tablespace_quota = 2
quota_key_num tablespace_quota = 1

abbrev pub quota_key_caches : QuotaType → List CacheId
quota_key_caches namespace_quota = namespaceoid ∷ []
quota_key_caches role_quota = authoid ∷ []
quota_key_caches namespace_tablespace_quota = namespaceoid ∷ tablespaceoid ∷ []
quota_key_caches role_tablespace_quota = authoid ∷ tablespaceoid ∷ []
quota_key_caches tablespace_quota = tablespaceoid ∷ []

-- Of the key array only the first two places are ever written; the rest stay 0.
pub record QuotaInfoEntryKey : Type 0 where
  pub type : QuotaType
  pub key0 : Oid
  pub key1 : Oid
  pub segid : SegId

unfoldable pub quota_key_eq : QuotaInfoEntryKey → QuotaInfoEntryKey → Bool
quota_key_eq a b =
    quota_type_eq a.type b.type && eqb a.key0 b.key0 && eqb a.key1 b.key1 && eqb a.segid b.segid

pub quota_key_eq_iff : (a b : QuotaInfoEntryKey) → (quota_key_eq a b ≡ true) ↔ (a ≡ b)
unfolding quota_key_eq
quota_key_eq_iff a b = ground (arith, quota_type_eq_iff a.type b.type)

instance abbrev pub quota_key_has_eq : KeyEq QuotaInfoEntryKey
quota_key_has_eq = record { eq_test = quota_key_eq; eq_test_iff = quota_key_eq_iff }

-- `memcpy(key.keys, keys, quota_key_num[type] * sizeof(Oid))` into a zeroed key.
abbrev pub make_quota_key : QuotaType → Oid × Oid → SegId → QuotaInfoEntryKey
make_quota_key type keys segid = record {
  type = type;
  key0 = keys.0;
  key1 = if eqb (quota_key_num type) 2 then keys.1 else invalid_oid;
  segid = segid;
}
