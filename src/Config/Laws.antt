-- ===== src/Config/Laws.antt =====
-- What the configuration holds after a quota is set.
use diskquota.Config.{
  config_key_has_eq, Floats, QuotaConfig, role_quota, namespace_quota, get_per_segment_ratio,
  ConfigRow,
}
use diskquota.Htab.{find}
use diskquota.MonitoredDb.Readiness.{Checked, state_corrupted, null_pointer, checked}
use diskquota.Prelude.{Option, eqb, if◌then◌else◌, ℕ, none, some, not, ◌||◌, nat_eq, Bool}
use diskquota.Catalog.{Oid}
use diskquota.QuotaType.{tablespace_quota, QuotaType, quota_type_eq}

-- A quota of a role or a schema has its own ratio, and another that is new takes the one of its
-- tablespace.
abbrev pub first_ratio : Floats → QuotaType → ℕ → Oid → QuotaConfig → ℕ
first_ratio f y ratio spc m = elim y [
  | namespace_quota ↦ ratio
  | role_quota ↦ ratio
  | _ ↦
      if eqb spc 0
      then f.invalid_segratio
      else elim (find (record { targetoid = spc; quotatype = tablespace_quota }) m) [
        | none ↦ f.invalid_segratio
        | some r ↦ r.segratio
      ]
]

-- The row after a write, by whether it is the one written, whether it is deleted, and the ratio of a
-- new row.
abbrev row_after : Floats → ℕ → ℕ → Option ConfigRow → Bool → Bool → ℕ → Option ConfigRow
row_after f mb ratio before own deleted fresh =
    if not own
    then before
    else if deleted
    then none
    else some (record {
      quotalimit_mb = mb;
      segratio =
          if not (f.is_zero ratio)
          then ratio
          else elim before [ some r ↦ r.segratio | none ↦ fresh ];
    })

abbrev new_ratio : Floats → QuotaType → ℕ → Oid → QuotaConfig → ℕ
new_ratio f y ratio spc m =
    if quota_type_eq y role_quota || quota_type_eq y namespace_quota
    then ratio
    else get_per_segment_ratio f spc m

-- What follows the check of the state.
abbrev after_check : QuotaConfig → Checked Bool → Checked QuotaConfig
after_check m state_corrupted = state_corrupted
after_check m null_pointer = null_pointer
after_check m (checked b cache) = checked m cache
