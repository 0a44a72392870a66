-- ===== src/Tests/Ratios.antt =====
-- Concrete inputs for the configuration: the ratio of a tablespace, and a new quota.
use diskquota.MonitoredDb.Readiness.{Site, Checked, do_check_diskquota_state_is_ready}
use diskquota.MonitoredDb.{MonitoredDbidCache, diskquota_is_readiness_logged}
use diskquota.Config.{
  write_quota_config, config_key_has_eq, Floats, ConfigKey, Tables, TargetRow,
  set_quota_config_internal, to_delete_quota, get_per_segment_ratio, config_key_eq, QuotaConfig,
}
use diskquota.QuotaType.{namespace_quota, role_tablespace_quota, tablespace_quota}
use diskquota.Words.{slt64}
use diskquota.Prelude.{[], ◌∷◌, refl, true, ◌≡◌, some, eqb, ltb, ◌^◌, nat_eq, List}
use diskquota.Config.Ratio.{set_per_segment_quota, update_ratios, has_target_on, ratio_set}
use diskquota.Htab.{find, put}

abbrev floats : Floats
floats = record { is_zero = λ n. eqb n 0; is_negative = λ n. ltb (2 ^ 31) n; invalid_segratio = 0 }

-- The role 16 has 10 MB on the tablespace 1700, the schema 2200 has 20 MB anywhere.
abbrev on_tablespace : ConfigKey
on_tablespace = record { targetoid = 1; quotatype = role_tablespace_quota }

abbrev anywhere : ConfigKey
anywhere = record { targetoid = 2200; quotatype = namespace_quota }

abbrev tablespace : ConfigKey
tablespace = record { targetoid = 1700; quotatype = tablespace_quota }

abbrev targets : List TargetRow
targets =
    record { row_id = 1; quotatype = role_tablespace_quota; primaryoid = 16; tablespaceoid = 1700 }
    ∷ []

abbrev before : Tables
before = record {
  quota_config =
      (on_tablespace, record { quotalimit_mb = 10; segratio = 0 })
      ∷ (anywhere, record { quotalimit_mb = 20; segratio = 0 })
      ∷ [];
  target = targets;
  next_row_id = 2;
}

abbrev after : Tables
after = record {
  quota_config =
      (on_tablespace, record { quotalimit_mb = 10; segratio = 3 })
      ∷ (anywhere, record { quotalimit_mb = 20; segratio = 0 })
      ∷ (tablespace, record { quotalimit_mb = 0; segratio = 3 })
      ∷ [];
  target = targets;
  next_row_id = 2;
}

-- The state is ready.
abbrev site : Site
site = record { my_database_id = 7; state = some 1 ∷ [] }

set_per_segment_quota_run :
    set_per_segment_quota floats site true (some 1700) 3 before [] ≡ ratio_set after []
unfolding set_per_segment_quota set_quota_config_internal write_quota_config update_ratios
    has_target_on find put to_delete_quota get_per_segment_ratio config_key_eq slt64
    do_check_diskquota_state_is_ready diskquota_is_readiness_logged
set_per_segment_quota_run = refl

abbrev no_cache : MonitoredDbidCache
no_cache = []

-- The role 16 gets a new quota of 30 MB on the tablespace 1700, under the row 2; the tablespace's
-- ratio is 3.
abbrev new_quota : ConfigKey
new_quota = record { targetoid = 2; quotatype = role_tablespace_quota }

abbrev written : Checked QuotaConfig
written =
    set_quota_config_internal floats site 2 30 role_tablespace_quota 0 1700 after.quota_config
      no_cache
