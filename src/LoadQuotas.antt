-- ===== src/LoadQuotas.antt =====
-- load_quotas and do_load_quotas of src/quotamodel.c: the limits of quota_info_map are read anew from
-- the tables diskquota.quota_config and diskquota.target.
pub mod Segments
pub mod Configured
pub mod Joined
pub mod Limits
use diskquota.Catalog.{tablespaceoid, namespaceoid, authoid, Oid, Env, CacheId, invalid_oid}
use diskquota.Prelude.{
  ℕ, zero, suc, [], ◌∷◌, List, Bool, true, false, Option, none, some, ◌&&◌, ◌||◌, not, eqb,
  if◌then◌else◌, ◌*◌, ◌%◌, ◌^◌, ◌++◌,
}
use diskquota.QuotaType.{
  QuotaType, quota_type_eq, namespace_quota, quota_key_caches, quota_type_code, role_quota,
  namespace_tablespace_quota, role_tablespace_quota, tablespace_quota,
}
use diskquota.Config.{ConfigKey, QuotaConfig, TargetRow, ConfigRow, Tables}
use diskquota.QuotaInfo.{QuotaInfoMap, update_limit_for_quota, clean_all_quota_limit}
use diskquota.Htab.{remove_if}

-- A row of the query. The first three columns may be null; COALESCE excludes it for the others. The
-- type is an int as its 32-bit pattern, the limit an int64, the ratio a float4.
pub record QuotaRow : Type 0 where
  pub targetoid : Option Oid
  pub quotatype : Option ℕ
  pub quotalimit_mb : Option ℕ
  pub segratio : ℕ
  pub tablespaceoid : Oid
  pub primaryoid : Oid

-- "quotaType < 0 || quotaType >= NUM_QUOTA_TYPES" gives none.
unfoldable pub quota_type_of : ℕ → Option QuotaType
quota_type_of n =
    if eqb n 0
    then some namespace_quota
    else if eqb n 1
    then some role_quota
    else if eqb n 2
    then some namespace_tablespace_quota
    else if eqb n 3
    then some role_tablespace_quota
    else if eqb n 4
    then some tablespace_quota
    else none

abbrev pub has_tablespace : QuotaType → Bool
has_tablespace type =
    quota_type_eq type namespace_tablespace_quota || quota_type_eq type role_tablespace_quota

-- quota_key_caches[quotaType][0]
abbrev pub first_cache : QuotaType → CacheId
first_cache type = elim (quota_key_caches type) [ [] ↦ tablespaceoid | ◌∷◌ c cs ↦ c ]

-- What a row asks for: nothing but a later cleaning of the tables, an error, or a limit.
pub data RowAction : Type 0 where
  clean_tables row_error : RowAction
  set_limit : QuotaType → Oid × Oid → ℕ → ℕ → RowAction

-- quota_limit_mb * (1 << 20)
abbrev pub mb_to_bytes : ℕ → ℕ
mb_to_bytes mb = mb * 2 ^ 20 % 2 ^ 64

-- The body of the loop once the columns have been read.
unfoldable pub row_of_type : Env → QuotaType → Oid → ℕ → QuotaRow → RowAction
row_of_type env type targetoid mb r =
    let target = if has_tablespace type then r.primaryoid else targetoid in
    if not (env.in_syscache (first_cache type) target)
    then clean_tables
    else if eqb r.tablespaceoid invalid_oid
    then (if has_tablespace type
        then row_error
        else set_limit type (target, invalid_oid) (mb_to_bytes mb) r.segratio)
    else if env.in_syscache tablespaceoid r.tablespaceoid
    then set_limit type (target, r.tablespaceoid) (mb_to_bytes mb) r.segratio
    else clean_tables

unfoldable pub row_action : Env → QuotaRow → RowAction
unfolding quota_type_of row_of_type
row_action env r = elim r.targetoid [
  | none ↦ row_error
  | some targetoid ↦ elim r.quotatype [
    | none ↦ row_error
    | some n ↦ elim r.quotalimit_mb [
      | none ↦ row_error
      | some mb ↦ elim (quota_type_of n) [
        | none ↦ row_error
        | some type ↦ row_of_type env type targetoid mb r
      ]
    ]
  ]
]

-- The loop over the rows: cleanConfigTables at the end, or none where an error is raised. The map is
-- in shared memory and keeps what was written before the error.
unfoldable pub load_rows : Env → List QuotaRow → Bool × QuotaInfoMap → Option Bool × QuotaInfoMap
unfolding row_action
load_rows env [] (clean, q) = (some clean, q)
load_rows env (r ∷ rs) (clean, q) = elim (row_action env r) [
  | clean_tables ↦ load_rows env rs (true, q)
  | row_error ↦ (none, q)
  | set_limit type keys limit segratio ↦
      load_rows env rs (clean, update_limit_for_quota env limit segratio type keys q)
]

-- The left outer join: the rows of `target` that belong to a row of quota_config.
unfoldable pub matching_targets : ConfigKey → List TargetRow → List TargetRow
matching_targets k [] = []
matching_targets k (t ∷ ts) =
    let rest = matching_targets k ts in
    if eqb k.targetoid t.row_id
      && has_tablespace k.quotatype
      && quota_type_eq k.quotatype t.quotatype
    then t ∷ rest
    else rest

abbrev pub joined_row : ConfigKey → ConfigRow → Oid → Oid → QuotaRow
joined_row k c spcoid primaryoid = record {
  targetoid = some k.targetoid;
  quotatype = some (quota_type_code k.quotatype);
  quotalimit_mb = some c.quotalimit_mb;
  segratio = c.segratio;
  tablespaceoid = spcoid;
  primaryoid = primaryoid;
}

unfoldable pub joined_rows : ConfigKey → ConfigRow → List TargetRow → List QuotaRow
joined_rows k c [] = []
joined_rows k c (t ∷ ts) = joined_row k c t.tablespaceoid t.primaryoid ∷ joined_rows k c ts

unfoldable pub select_rows : QuotaConfig → List TargetRow → List QuotaRow
unfolding matching_targets joined_rows
select_rows [] targets = []
select_rows ((k, c) ∷ m) targets =
    elim (matching_targets k targets) [
      | [] ↦ joined_row k c 0 0 ∷ []
      | ◌∷◌ t ts ↦ joined_rows k c (t ∷ ts)
    ]
    ++ select_rows m targets

-- The two deletions of do_load_quotas; an oid is in the catalog if the system cache has it.
abbrev pub is_lost_target : Env → TargetRow → Bool
is_lost_target env t =
    (quota_type_eq t.quotatype namespace_tablespace_quota
      && not (env.in_syscache namespaceoid t.primaryoid))
    || (quota_type_eq t.quotatype role_tablespace_quota
        && not (env.in_syscache authoid t.primaryoid))
    || not (env.in_syscache tablespaceoid t.tablespaceoid)

unfoldable pub delete_targets : Env → List TargetRow → List TargetRow
delete_targets env [] = []
delete_targets env (t ∷ ts) =
    let rest = delete_targets env ts in if is_lost_target env t then rest else t ∷ rest

-- "(targetOid, quotaType) in (select rowId, quotaType from diskquota.target)"
unfoldable pub has_row : ConfigKey → List TargetRow → Bool
has_row k [] = false
has_row k (t ∷ ts) =
    let rest = has_row k ts in
    (eqb k.targetoid t.row_id && quota_type_eq k.quotatype t.quotatype) || rest

abbrev pub is_lost_config : Env → List TargetRow → ConfigKey → Bool
is_lost_config env targets k =
    if has_tablespace k.quotatype
    then not (has_row k targets)
    else not (env.in_syscache (first_cache k.quotatype) k.targetoid)

unfoldable pub clean_config_tables : Env → Tables → Tables
unfolding delete_targets has_row
clean_config_tables env t =
    let targets = delete_targets env t.target in
    record t {
      target = targets;
      quota_config = remove_if (λ k _. is_lost_config env targets k) t.quota_config;
    }

unfoldable pub do_load_quotas : Env → Tables → QuotaInfoMap → Option Tables × QuotaInfoMap
unfolding load_rows select_rows clean_config_tables
do_load_quotas env t q =
    let (done, q') =
      load_rows env (select_rows t.quota_config t.target) (false, clean_all_quota_limit q) in
    elim done [
      | none ↦ (none, q')
      | some clean ↦ (some (if clean then clean_config_tables env t else t), q')
    ]

-- An error is caught, and the transaction of the tables is aborted; the result says whether it went
-- well.
unfoldable pub load_quotas : Env → Tables → QuotaInfoMap → Bool × (Tables × QuotaInfoMap)
unfolding do_load_quotas
load_quotas env t q =
    let (done, q') = do_load_quotas env t q in
    elim done [ none ↦ (false, (t, q')) | some t' ↦ (true, (t', q')) ]
