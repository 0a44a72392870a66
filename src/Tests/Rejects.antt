-- ===== src/Tests/Rejects.antt =====
-- Concrete inputs for the reject map: the schema 2200 has reached its quota of 100 bytes.
use diskquota.QuotaInfo.Refresh.{is_blocked, refresh_quota_info_map-is_blocked}
use diskquota.Prelude.{
  [], ◌∷◌, none, some, refl, true, false, ◌≡◌, arith, ◌↔◌, ◌≢◌, All, ◌&&◌, ◌||◌,
}
use diskquota.QuotaType.{quota_key_has_eq, quota_key_eq, QuotaType, namespace_quota}
use diskquota.RejectEntry.{reject_entry_has_eq, RejectMapEntry, RelFileNode, no_reject_entry}
use diskquota.Tests.{env, class, schema_key}
use diskquota.QuotaInfo.{
  QuotaInfoEntry, QuotaInfoMap, LocalRejectMap, is_exceeded, quota_key_exists, all_in_syscache,
  quota_reject_key, reject_tablespace, refresh_quota_info_map,
}
use diskquota.RejectMap.{
  GlobalRejectMap, check_rejectmap_by_reloid, prepare_rejectmap_search_key, Session, RangeTblEntry,
  quota_check_exec_check_rt_perms, quota_check_common, flush_local_reject_map,
  invalidate_database_rejectmap,
}
use diskquota.Usage.{Owners}
use diskquota.Htab.{find}
use diskquota.RejectMap.Laws.{
  mark, wanted, prepare_rejectmap_search_key-is_charged, mark-flush_local_reject_map,
}
use diskquota.RejectMap.Blocking.{class_owners, refreshed, check_rejectmap_by_reloid-refreshed}
use diskquota.Words.{slt64}
use diskquota.Usage.Invariant.{is_charged}
use diskquota.Htab.Keys.{IsDistinct}
use diskquota.RejectMap.Checks.{
  check_rejectmap_by_reloid-none, quota_check_common-invalidate,
  quota_check_exec_check_rt_perms-none,
}

abbrev full : QuotaInfoEntry
full = record { size = 150; limit = 100 }

abbrev quotas : QuotaInfoMap
quotas = record { map = (schema_key, full) ∷ []; entry_num = 1; last_overflow_report = 0 }

abbrev no_local : LocalRejectMap
no_local = record { map = []; last_overflow_report = 0 }

abbrev no_rejects : GlobalRejectMap
no_rejects = record { map = []; last_overflow_report = 0 }

abbrev schema_owners : Owners
schema_owners = class_owners env class

at_schema_key : find schema_key quotas.map ≡ some full
unfolding find quota_key_eq
at_schema_key = refl

full-is_exceeded : is_exceeded full ≡ true
unfolding is_exceeded slt64
full-is_exceeded = refl

schema_key-exists : quota_key_exists env schema_key ≡ true
unfolding quota_key_exists all_in_syscache
schema_key-exists = refl

schema-is_charged : is_charged schema_key schema_owners 1 ≡ true
unfolding quota_key_eq
schema-is_charged = refl

check_rejectmap_by_reloid-refreshed_example :
    check_rejectmap_by_reloid env 50 (refreshed env quotas no_local no_rejects) ≢ none
check_rejectmap_by_reloid-refreshed_example =
    check_rejectmap_by_reloid-refreshed env quotas no_local no_rejects schema_key full 50 class
      at_schema_key schema_key-exists full-is_exceeded refl schema-is_charged tt (omega arith)
      (omega arith) (omega arith) (omega arith)

refresh_quota_info_map-is_blocked_example :
    is_blocked env
      (quota_reject_key env namespace_quota 2200 0)
      (refresh_quota_info_map env (quotas, no_local)).1
    ≡ true
refresh_quota_info_map-is_blocked_example =
    refresh_quota_info_map-is_blocked env quotas no_local schema_key full at_schema_key
      schema_key-exists full-is_exceeded (omega arith) (omega arith)

prepare_rejectmap_search_key-is_charged_example :
    prepare_rejectmap_search_key env namespace_quota 16 2200 1663
    ≡ quota_reject_key env namespace_quota 2200 (reject_tablespace schema_key)
prepare_rejectmap_search_key-is_charged_example =
    prepare_rejectmap_search_key-is_charged env schema_key schema_owners 1 schema-is_charged

abbrev schema_reject : RejectMapEntry
schema_reject = quota_reject_key env namespace_quota 2200 0

abbrev one_local : LocalRejectMap
one_local = record {
  map = (schema_reject, record { isexceeded = true; segexceeded = true }) ∷ [];
  last_overflow_report = 0;
}

one_local-IsDistinct : IsDistinct one_local.map
unfolding find
one_local-IsDistinct = (refl, tt)

mark-flush_local_reject_map_example :
    mark (find schema_reject (flush_local_reject_map env no_rejects one_local).global.map)
    ≡ elim (find schema_reject one_local.map) [
      | none ↦ mark (find schema_reject no_rejects.map)
      | some l ↦ wanted l
    ]
mark-flush_local_reject_map_example =
    mark-flush_local_reject_map env no_rejects one_local schema_reject one_local-IsDistinct
      (omega arith) (omega arith)

abbrev one_reject : GlobalRejectMap
one_reject = record {
  map =
      (
        schema_reject,
        record { keyitem = schema_reject; segexceeded = true; auxblockinfo = no_reject_entry },
      )
      ∷ [];
  last_overflow_report = 0;
}

check_rejectmap_by_reloid-none_example : (check_rejectmap_by_reloid env 50 one_reject ≡ none) ↔ (
    (y : QuotaType) → find (prepare_rejectmap_search_key env y 16 2200 1663) one_reject.map ≡ none)
check_rejectmap_by_reloid-none_example = check_rejectmap_by_reloid-none env 50 one_reject class refl

abbrev session : Session
session = record { is_transaction_state = true; hardlimit = true; monitored = [] }

abbrev insert_into : RangeTblEntry
insert_into = record { is_relation = true; acl_insert = true; acl_update = false; relid = 50 }

quota_check_exec_check_rt_perms-none_example :
    (quota_check_exec_check_rt_perms env session (λ o. 51 ∷ []) (insert_into ∷ []) one_reject
      ≡ none)
    ↔ All
        (λ r.
          (r.is_relation && (r.acl_insert || r.acl_update)) ≡ true
          → All (λ o. quota_check_common env session o none one_reject ≡ none) (r.relid ∷ 51 ∷ []))
        (insert_into ∷ [])
quota_check_exec_check_rt_perms-none_example =
    quota_check_exec_check_rt_perms-none env session (λ o. 51 ∷ []) (insert_into ∷ []) one_reject

abbrev file : RelFileNode
file = record { spc_node = 1663; db_node = 7; rel_node = 50 }

quota_check_common-invalidate_example :
    quota_check_common env session 50 (some file) (invalidate_database_rejectmap 7 one_reject)
    ≡ none
quota_check_common-invalidate_example =
    quota_check_common-invalidate env session 50 file one_reject refl
