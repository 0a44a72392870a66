-- ===== src/Config.antt =====
-- The functions of src/diskquota_utility.c that set quotas, on the tables diskquota.quota_config
-- and diskquota.target. The SQL statements stand in the code as text; each is written here as the
-- change of the table that it describes.
pub mod Laws
pub mod Ratio
use diskquota.MonitoredDb.{
  MonitoredDbidCache, diskquota_is_readiness_logged, diskquota_set_readiness_logged,
}
use diskquota.MonitoredDb.Readiness.{
  Site, Checked, state_corrupted, null_pointer, checked, do_check_diskquota_state_is_ready,
}
use diskquota.Prelude.{
  ℕ, suc, [], ◌∷◌, none, some, Bool, ◌≡◌, KeyEq, List, Option, eqb, true, if◌then◌else◌, false, ◌^◌,
  ◌&&◌, ◌↔◌, not, ◌||◌, ◌-◌, arith,
}
use diskquota.Catalog.{Oid, invalid_oid, oid_is_valid}
use diskquota.Htab.{Htab, find, remove, put}
use diskquota.QuotaType.{
  QuotaType, role_quota, role_tablespace_quota, quota_type_eq, namespace_quota,
  namespace_tablespace_quota, quota_type_eq_iff, tablespace_quota,
}
use diskquota.Words.{slt64}

-- The primary key of diskquota.quota_config.
pub record ConfigKey : Type 0 where
  pub targetoid : Oid
  pub quotatype : QuotaType

unfoldable pub config_key_eq : ConfigKey → ConfigKey → Bool
config_key_eq a b = eqb a.targetoid b.targetoid && quota_type_eq a.quotatype b.quotatype

pub config_key_eq_iff : (a b : ConfigKey) → (config_key_eq a b ≡ true) ↔ (a ≡ b)
unfolding config_key_eq
config_key_eq_iff a b = ground (arith, quota_type_eq_iff a.quotatype b.quotatype)

instance abbrev pub config_key_has_eq : KeyEq ConfigKey
config_key_has_eq = record { eq_test = config_key_eq; eq_test_iff = config_key_eq_iff }

-- `quotalimit_mb` is an int64, `segratio` the bit pattern of a float4.
pub record ConfigRow : Type 0 where
  pub quotalimit_mb : ℕ
  pub segratio : ℕ

abbrev pub QuotaConfig : Type 0
QuotaConfig = Htab ConfigKey ConfigRow

-- A row of diskquota.target.
pub record TargetRow : Type 0 where
  pub row_id : ℕ
  pub quotatype : QuotaType
  pub primaryoid : Oid
  pub tablespaceoid : Oid

-- The tables of a database, with the sequence of the serial rowId.
pub record Tables : Type 0 where
  pub quota_config : QuotaConfig
  pub target : List TargetRow
  pub next_row_id : ℕ

-- C's comparisons of a float4 with 0: `segratio == INVALID_SEGRATIO` and `segratio < 0`.
pub record Floats : Type 0 where
  pub is_zero : ℕ → Bool
  pub is_negative : ℕ → Bool
  -- INVALID_SEGRATIO
  pub invalid_segratio : ℕ

abbrev pub is_negative64 : ℕ → Bool
is_negative64 n = slt64 n 0

unfoldable pub to_delete_quota : Floats → QuotaType → ℕ → ℕ → Bool
to_delete_quota f type quota_limit_mb segratio =
    if is_negative64 quota_limit_mb
    then true
    else f.is_negative segratio && quota_type_eq type tablespace_quota

unfoldable pub get_per_segment_ratio : Floats → Oid → QuotaConfig → ℕ
get_per_segment_ratio f spcoid m =
    if not (oid_is_valid spcoid)
    then f.invalid_segratio
    else elim (find (record { targetoid = spcoid; quotatype = tablespace_quota }) m) [
      | none ↦ f.invalid_segratio
      | some r ↦ r.segratio
    ]

-- The statements of set_quota_config_internal, after its check of the state.
unfoldable pub write_quota_config :
    Floats → Oid → ℕ → QuotaType → ℕ → Oid → QuotaConfig → QuotaConfig
unfolding to_delete_quota get_per_segment_ratio
write_quota_config f targetoid quota_limit_mb type segratio spcoid m =
    let key : ConfigKey = record { targetoid = targetoid; quotatype = type } in
    if to_delete_quota f type quota_limit_mb segratio
    then elim (find key m) [ none ↦ m | some _ ↦ remove key m ]
    else elim (find key m) [
      | none ↦
          let own_ratio = quota_type_eq type role_quota || quota_type_eq type namespace_quota in
          put key
            (record {
              quotalimit_mb = quota_limit_mb;
              segratio =
                  if f.is_zero segratio && not own_ratio
                  then get_per_segment_ratio f spcoid m
                  else segratio;
            })
            m
      | some r ↦
          put key
            (if f.is_zero segratio
              then record r { quotalimit_mb = quota_limit_mb }
              else record { quotalimit_mb = quota_limit_mb; segratio = segratio })
            m
    ]

unfoldable pub set_quota_config_internal :
    Floats
    → Site
    → Oid
    → ℕ
    → QuotaType
    → ℕ
    → Oid
    → QuotaConfig
    → MonitoredDbidCache
    → Checked QuotaConfig
unfolding do_check_diskquota_state_is_ready write_quota_config
set_quota_config_internal f site targetoid quota_limit_mb type segratio spcoid m cache =
    elim (do_check_diskquota_state_is_ready site cache) [
      | state_corrupted ↦ state_corrupted
      | null_pointer ↦ null_pointer
      | checked _ cache' ↦
          checked (write_quota_config f targetoid quota_limit_mb type segratio spcoid m) cache'
    ]

-- "t.primaryOid = $1 and t.tablespaceOid = $2 and t.quotaType = $3"
abbrev pub is_target : Oid → Oid → QuotaType → TargetRow → Bool
is_target primaryoid spcoid type r =
    eqb r.primaryoid primaryoid && eqb r.tablespaceoid spcoid && quota_type_eq r.quotatype type

abbrev pub is_some : {A : Type 0} → Option A → Bool
is_some none = false
is_some (some x) = true

-- The first row of the join with quota_config.
unfoldable pub select_target : Oid → Oid → QuotaType → QuotaConfig → List TargetRow → Option ℕ
select_target primaryoid spcoid type m [] = none
select_target primaryoid spcoid type m (r ∷ rs) =
    let rest = select_target primaryoid spcoid type m rs in
    if is_target primaryoid spcoid type r
      && is_some (find (record { targetoid = r.row_id; quotatype = r.quotatype }) m)
    then some r.row_id
    else rest

unfoldable pub has_target : Oid → Oid → QuotaType → List TargetRow → Bool
has_target primaryoid spcoid type [] = false
has_target primaryoid spcoid type (r ∷ rs) =
    is_target primaryoid spcoid type r || has_target primaryoid spcoid type rs

-- "delete from diskquota.target where primaryOid = $1 and tablespaceOid = $2 returning rowId": the
-- first row returned, and the rows that stay.
unfoldable pub delete_target : Oid → Oid → List TargetRow → Option ℕ × List TargetRow
delete_target primaryoid spcoid [] = (none, [])
delete_target primaryoid spcoid (r ∷ rs) =
    let (found, rest) = delete_target primaryoid spcoid rs in
    if eqb r.primaryoid primaryoid && eqb r.tablespaceoid spcoid
    then (some r.row_id, rest)
    else (found, r ∷ rest)

-- none for an error: the insert of a row that is there without its quota. The row's number is none
-- for -1.
unfoldable pub set_target_internal : Oid → Oid → ℕ → QuotaType → Tables → Option (Option ℕ × Tables)
unfolding select_target has_target delete_target
set_target_internal primaryoid spcoid quota_limit_mb type s =
    elim (select_target primaryoid spcoid type s.quota_config s.target) [
      | none ↦
          if slt64 0 quota_limit_mb
          then (if has_target primaryoid spcoid type s.target
              then none
              else some (
                some s.next_row_id,
                record s {
                  target =
                      record {
                        row_id = s.next_row_id;
                        quotatype = type;
                        primaryoid = primaryoid;
                        tablespaceoid = spcoid;
                      }
                      ∷ s.target;
                  next_row_id = suc s.next_row_id;
                },
              ))
          else some (none, s)
      | some row ↦
          if is_negative64 quota_limit_mb
          then (let (deleted, rest) = delete_target primaryoid spcoid s.target in
              some (deleted, record s { target = rest }))
          else some (some row, s)
    ]

abbrev pub bootstrap_superuserid : Oid
bootstrap_superuserid = 10

-- What a call of a function of the extension ends with. On an error the tables stay; the last one
-- is the end of the process.
pub data Outcome : Type 0 where
  must_be_superuser zero_quota quota_for_system_owner target_exists corrupted_state : Outcome
  crashed : Outcome
  done : Tables → MonitoredDbidCache → Outcome

abbrev pub finish : Tables → Checked QuotaConfig → Outcome
finish s state_corrupted = corrupted_state
finish s null_pointer = crashed
finish s (checked m cache) = done (record s { quota_config = m }) cache

-- The checks of set_role_quota and the others before they write; `limits_role` for a role.
unfoldable pub check_arguments : Bool → Bool → Oid → ℕ → Option Outcome
check_arguments superuser limits_role oid quota_limit_mb =
    if not superuser
    then some must_be_superuser
    else if eqb quota_limit_mb 0
    then some zero_quota
    else if limits_role && eqb oid bootstrap_superuserid && not (is_negative64 quota_limit_mb)
    then some quota_for_system_owner
    else none

abbrev pub without_tablespace : Bool → QuotaType
without_tablespace limits_role = if limits_role then role_quota else namespace_quota

abbrev pub with_tablespace : Bool → QuotaType
with_tablespace limits_role =
    if limits_role then role_tablespace_quota else namespace_tablespace_quota

-- set_role_quota and set_schema_quota, after the name and the size are read.
unfoldable pub set_quota :
    Floats → Site → Bool → Bool → Oid → ℕ → Tables → MonitoredDbidCache → Outcome
unfolding check_arguments set_quota_config_internal
set_quota f site superuser limits_role oid quota_limit_mb s cache =
    elim (check_arguments superuser limits_role oid quota_limit_mb) [
      | some e ↦ e
      | none ↦ finish s (
          set_quota_config_internal f site oid quota_limit_mb (without_tablespace limits_role)
            f.invalid_segratio invalid_oid s.quota_config cache)
    ]

-- The pattern of a row number as an oid; -1 is the largest one.
abbrev pub row_oid : Option ℕ → Oid
row_oid none = 2 ^ 32 - 1
row_oid (some n) = n

-- set_role_tablespace_quota and set_schema_tablespace_quota.
unfoldable pub set_tablespace_quota :
    Floats → Site → Bool → Bool → Oid → Oid → ℕ → Tables → MonitoredDbidCache → Outcome
unfolding check_arguments set_target_internal set_quota_config_internal
set_tablespace_quota f site superuser limits_role oid spcoid quota_limit_mb s cache =
    let type = with_tablespace limits_role in
    elim (check_arguments superuser limits_role oid quota_limit_mb) [
      | some e ↦ e
      | none ↦ elim (set_target_internal oid spcoid quota_limit_mb type s) [
        | none ↦ target_exists
        | some (row, s') ↦ finish s' (
            set_quota_config_internal f site (row_oid row) quota_limit_mb type f.invalid_segratio
              spcoid s'.quota_config cache)
      ]
    ]
