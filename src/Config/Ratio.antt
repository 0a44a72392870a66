-- ===== src/Config/Ratio.antt =====
-- set_per_segment_quota of src/diskquota_utility.c: the ratio of a tablespace, which all quotas on
-- the tablespace take over.
use diskquota.Config.{Tables, set_quota_config_internal, ConfigKey, Floats, TargetRow, QuotaConfig}
use diskquota.MonitoredDb.{MonitoredDbidCache}
use diskquota.MonitoredDb.Readiness.{Site, state_corrupted, null_pointer, checked}
use diskquota.Prelude.{
  [], ◌∷◌, none, some, ℕ, List, Bool, eqb, false, Option, ◌&&◌, ◌||◌, if◌then◌else◌, not,
}
use diskquota.Catalog.{Oid, invalid_oid}
use diskquota.QuotaType.{
  quota_type_eq, namespace_tablespace_quota, role_tablespace_quota, tablespace_quota,
}

-- "q.targetOid = t.rowId and (t.quotaType = $2 or t.quotaType = $3) and t.quotaType = q.quotaType and
-- t.tablespaceOid = $4"
abbrev pub is_on_tablespace : Oid → ConfigKey → TargetRow → Bool
is_on_tablespace spcoid k t =
    eqb k.targetoid t.row_id
    && (quota_type_eq t.quotatype namespace_tablespace_quota
        || quota_type_eq t.quotatype role_tablespace_quota)
    && quota_type_eq t.quotatype k.quotatype
    && eqb t.tablespaceoid spcoid

unfoldable pub has_target_on : Oid → ConfigKey → List TargetRow → Bool
has_target_on spcoid k [] = false
has_target_on spcoid k (t ∷ ts) = is_on_tablespace spcoid k t || has_target_on spcoid k ts

-- "update diskquota.quota_config as q set segratio = $1 from diskquota.target as t where ..."
unfoldable pub update_ratios : Oid → ℕ → List TargetRow → QuotaConfig → QuotaConfig
unfolding has_target_on
update_ratios spcoid ratio targets [] = []
update_ratios spcoid ratio targets ((k, r) ∷ m) =
    (k, if has_target_on spcoid k targets then record r { segratio = ratio } else r)
    ∷ update_ratios spcoid ratio targets m

pub data SetRatio : Type 0 where
  must_be_superuser no_tablespace ratio_is_zero corrupted_state crashed : SetRatio
  ratio_set : Tables → MonitoredDbidCache → SetRatio

-- `spcoid` is what get_tablespace_oid finds under the name, none for its error.
unfoldable pub set_per_segment_quota :
    Floats → Site → Bool → Option Oid → ℕ → Tables → MonitoredDbidCache → SetRatio
unfolding set_quota_config_internal update_ratios
set_per_segment_quota f site superuser spcoid ratio t cache =
    if not superuser then must_be_superuser else elim spcoid [
      | none ↦ no_tablespace
      | some spc ↦
          if f.is_zero ratio
          then ratio_is_zero
          else elim (set_quota_config_internal f site spc 0 tablespace_quota ratio invalid_oid
              t.quota_config cache) [
                | state_corrupted ↦ corrupted_state
                | null_pointer ↦ crashed
                | checked config cache' ↦
                    let new_ratio = if f.is_negative ratio then f.invalid_segratio else ratio in
                    ratio_set
                      (record t { quota_config = update_ratios spc new_ratio t.target config })
                      cache'
              ]
    ]
