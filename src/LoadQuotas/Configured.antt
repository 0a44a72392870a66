-- ===== src/LoadQuotas/Configured.antt =====
-- The limit that the tables diskquota.quota_config and diskquota.target give a quota, said without
-- the query and the loop of do_load_quotas, and the limit that the rows of the query give it.
use diskquota.QuotaType.{
  namespace_quota, role_quota, namespace_tablespace_quota, role_tablespace_quota, tablespace_quota,
  quota_key_has_eq, make_quota_key, quota_type_eq, QuotaInfoEntryKey,
}
use diskquota.LoadQuotas.{clean_tables, row_error, set_limit, RowAction, QuotaRow, row_action}
use diskquota.Catalog.{namespaceoid, authoid, tablespaceoid, Env, SegId}
use diskquota.Prelude.{
  [], ◌∷◌, false, if◌then◌else◌, List, Bool, ℕ, eqb, ◌||◌, ◌&&◌, ◌*◌, ◌==◌, ◌%◌,
}
use diskquota.Config.{ConfigKey, ConfigRow, TargetRow, QuotaConfig}
use diskquota.LoadQuotas.Segments.{segment_limit}
use diskquota.Words.{two64}

-- The limit that one row gives a quota, and the limit after all rows: the last row that names the quota
-- decides, for the coordinator with the whole limit and for a segment with its share.
abbrev pub row_limit : Env → QuotaInfoEntryKey → RowAction → ℕ → ℕ
row_limit env k clean_tables before = before
row_limit env k row_error before = before
row_limit env k (set_limit type keys limit segratio) before =
    if make_quota_key type keys k.segid == k
    then segment_limit env limit segratio k.segid
    else before

unfoldable pub rows_limit : Env → QuotaInfoEntryKey → List QuotaRow → ℕ → ℕ
rows_limit env k [] before = before
rows_limit env k (r ∷ rs) before = rows_limit env k rs (row_limit env k (row_action env r) before)

-- The objects of the quota are in the catalog.
abbrev pub is_known : Env → QuotaInfoEntryKey → Bool
is_known env k = elim k.type [
  | namespace_quota ↦ env.in_syscache namespaceoid k.key0
  | role_quota ↦ env.in_syscache authoid k.key0
  | namespace_tablespace_quota ↦
      env.in_syscache namespaceoid k.key0 && env.in_syscache tablespaceoid k.key1
  | role_tablespace_quota ↦ env.in_syscache authoid k.key0 && env.in_syscache tablespaceoid k.key1
  | tablespace_quota ↦ env.in_syscache tablespaceoid k.key0
]

-- A target that links the configuration row `j` to the quota's two objects.
abbrev pub is_target_of : QuotaInfoEntryKey → ConfigKey → TargetRow → Bool
is_target_of k j t =
    eqb j.targetoid t.row_id
    && quota_type_eq j.quotatype t.quotatype
    && eqb t.primaryoid k.key0
    && eqb t.tablespaceoid k.key1

unfoldable pub has_target_of : QuotaInfoEntryKey → ConfigKey → List TargetRow → Bool
has_target_of k j [] = false
has_target_of k j (t ∷ ts) = let rest = has_target_of k j ts in is_target_of k j t || rest

-- The configuration row `j` is the quota's.
abbrev pub is_row_of : QuotaInfoEntryKey → List TargetRow → ConfigKey → Bool
is_row_of k targets j = quota_type_eq j.quotatype k.type && elim k.type [
  | namespace_tablespace_quota ↦ has_target_of k j targets
  | role_tablespace_quota ↦ has_target_of k j targets
  | _ ↦ eqb j.targetoid k.key0 && eqb k.key1 0
]

-- A limit in bytes, from one in megabytes.
abbrev pub configured_value : Env → SegId → ConfigRow → ℕ
configured_value env segid c =
    segment_limit env (c.quotalimit_mb * 1048576 % two64) c.segratio segid

-- The limit of a quota by the configuration; `before` where it has no row.
unfoldable pub configured_limit : Env → QuotaInfoEntryKey → List TargetRow → QuotaConfig → ℕ → ℕ
configured_limit env k targets [] before = before
configured_limit env k targets ((j, c) ∷ m) before =
    configured_limit env k targets m
      (if is_known env k && is_row_of k targets j then configured_value env k.segid c else before)
