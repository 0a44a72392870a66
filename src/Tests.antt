-- ===== src/Tests.antt =====
-- Concrete inputs at which the theorems apply.
pub mod Rejects
pub mod Databases
pub mod Segments
pub mod Collection
pub mod Loading
pub mod Working
pub mod Ratios
pub mod Messages
pub mod Moves
use diskquota.SharedTable.{search_or_add, write}
use diskquota.TableSize.{
  set_size, TableSizeMap, table_key_has_eq, reset_table_exist, set_table_exist, get_table_exist,
  reset_flush_flag, get_size, get_table_size_map_entry, new_table_size_entry, set_flush_flags,
  set_flush_flag, get_flush_flag, table_key_eq, table_size_key,
}
use diskquota.Prelude.{
  nat_eq, ◌%◌, ℕ, [], ◌∷◌, none, some, refl, true, false, ◌≡◌, arith, if◌then◌else◌, ◌<◌, ◌+◌, ◌≤◌,
  ltb, eqb, ◌*◌, ◌^◌,
}
use diskquota.Fullness.{Clock, check_hash_fullness_num}
use diskquota.Catalog.{ClassTuple, Env, oid_is_valid}
use diskquota.QuotaInfo.{
  QuotaInfoMap, quota_key_exists, all_in_syscache, transfer_table_for_quota, update_size_for_quota,
}
use diskquota.Htab.{find, entries, update_all, put}
use diskquota.QuotaType.{QuotaInfoEntryKey, namespace_quota, quota_key_eq}
use diskquota.QuotaInfo.Sizes.{IsRoomy, size_of}
use diskquota.Htab.Laws.{sum}
use diskquota.Usage.{
  track_namespace_owner_tablespace_changes, track_relations, track_segments, relation_owners,
  release_removed, release_segments, transfer_owners, update_owner_quotas,
  calculate_active_table_disk_usage,
}
use diskquota.Usage.Invariant.{IsLive, Accounts, usage}
use diskquota.Usage.Release.{existing_charge, track_namespace_owner_tablespace_changes-sized}
use diskquota.Usage.Relations.{track_relations-Accounts}
use diskquota.Words.{two64, add64, two63, inc32, slt32, sub64, neg64}
use diskquota.Usage.Active.{calculate_active_table_disk_usage-Accounts}
use diskquota.Flush.{flush_to_table_size}
use diskquota.Flush.Laws.{flush_to_table_size-usage, flush_to_table_size-sized}
use diskquota.RelationCache.{RelationCaches, remove_cache_entry}
use diskquota.RelationCache.Laws.{IsInverse, node_at, relid_at, remove_cache_entry-IsInverse}

abbrev clock : Clock
clock = record {
  now = 5;
  overflow_report_timeout = 60;
  timestamp_difference_exceeds = λ a b ms. ltb (a + ms) b;
}

-- A table in the schema 2200, of the role 10, in the database's default tablespace 1663.
abbrev pub class : ClassTuple
class = record {
  relnamespace = 2200;
  relowner = 16;
  reltablespace = 0;
  reltoastrelid = 0;
  relfilenode = 50;
  relam = 2;
  relstorage = 104;
  relname = 116 ∷ [];
  is_temp = false;
}

abbrev pub env : Env
env = record {
  my_database_id = 7;
  my_database_tablespace = 1663;
  segcount = 2;
  in_syscache = λ c o. true;
  pg_class = λ o. if eqb o 50 then some class else none;
  round_mul = λ a b. a * b;
  clock = clock;
  max_quota_map_entries = 100;
  max_num_table_size_entries = 100;
  max_local_reject_entries = 10;
  max_disk_quota_reject_entries = 20;
}

abbrev pub no_tables : TableSizeMap
no_tables = record { map = []; entry_num = 0; last_overflow_report = 0 }

abbrev pub no_quotas : QuotaInfoMap
no_quotas = record { map = []; entry_num = 0; last_overflow_report = 0 }

pub no-Accounts : Accounts env no_tables no_quotas
unfolding find sum
no-Accounts = record { keyed = λ k e h. ground arith; sized = λ k l. ground arith }

abbrev pub schema_key : QuotaInfoEntryKey
schema_key = record { type = namespace_quota; key0 = 2200; key1 = 0; segid = 1 }

pub schema_live : IsLive env schema_key
unfolding quota_key_exists all_in_syscache
schema_live = (refl, omega arith)

room_after_tracking :
    IsRoomy env
      (track_namespace_owner_tablespace_changes env true [] (50 ∷ []) (no_tables, no_quotas)).1
unfolding track_namespace_owner_tablespace_changes track_relations track_segments relation_owners
    release_removed release_segments entries update_all reset_table_exist set_table_exist
    get_table_exist reset_flush_flag transfer_owners transfer_table_for_quota update_size_for_quota
    update_owner_quotas search_or_add write check_hash_fullness_num find put inc32 slt32 add64 sub64
    neg64 get_size get_table_size_map_entry new_table_size_entry set_flush_flags set_flush_flag
    get_flush_flag table_key_eq quota_key_eq set_size calculate_active_table_disk_usage sum
room_after_tracking = refl

room_after_active :
    IsRoomy env
      (calculate_active_table_disk_usage env (λ o. 8192) 50 4096 0 (no_tables, no_quotas)).1
unfolding track_namespace_owner_tablespace_changes track_relations track_segments relation_owners
    release_removed release_segments entries update_all reset_table_exist set_table_exist
    get_table_exist reset_flush_flag transfer_owners transfer_table_for_quota update_size_for_quota
    update_owner_quotas search_or_add write check_hash_fullness_num find put inc32 slt32 add64 sub64
    neg64 get_size get_table_size_map_entry new_table_size_entry set_flush_flags set_flush_flag
    get_flush_flag table_key_eq quota_key_eq set_size calculate_active_table_disk_usage sum
room_after_active = refl

active_small : add64 4096 8192 < two63
unfolding add64
active_small = omega arith

calculate_active_table_disk_usage-Accounts_example :
    Accounts env
      (calculate_active_table_disk_usage env (λ o. 8192) 50 4096 0 (no_tables, no_quotas)).0
      (calculate_active_table_disk_usage env (λ o. 8192) 50 4096 0 (no_tables, no_quotas)).1
calculate_active_table_disk_usage-Accounts_example =
    calculate_active_table_disk_usage-Accounts env (λ o. 8192) 50 4096 0 no_tables no_quotas
      active_small no-Accounts room_after_active

abbrev one_table : TableSizeMap
one_table = record {
  map =
      (
        table_size_key 50 0,
        record {
          key = table_size_key 50 0;
          tablespaceoid = 1663;
          namespaceoid = 2200;
          owneroid = 16;
          flag = 1;
          totalsize = λ i. 2 ^ 63 + 4096;
        },
      )
      ∷ [];
  entry_num = 1;
  last_overflow_report = 0;
}

flush_to_table_size-usage_example :
    usage (flush_to_table_size env one_table []).0 schema_key
    ≡ sum (existing_charge env schema_key schema_live.1) one_table.map
flush_to_table_size-usage_example =
    flush_to_table_size-usage env schema_key schema_live.1 one_table []

flush_to_table_size-sized_example :
    size_of
      (track_namespace_owner_tablespace_changes env true [] (50 ∷ []) (no_tables, no_quotas)).1
      schema_key
    ≡ usage
        (flush_to_table_size env
          (track_namespace_owner_tablespace_changes env true [] (50 ∷ []) (no_tables, no_quotas)).0
          []).0
        schema_key
      % two64
flush_to_table_size-sized_example =
    flush_to_table_size-sized env true [] (50 ∷ []) no_tables no_quotas [] schema_key schema_live
      no-Accounts room_after_tracking

-- The uncommitted relation 60 with the file 61.
abbrev pub caches : RelationCaches
caches = record {
  relation_cache =
      (
        60,
        record {
          relid = 60;
          primary_table_relid = 60;
          auxrel_oid = [];
          owneroid = 16;
          namespaceoid = 2200;
          relstorage = 104;
          relam = 2;
          rnode = record { spc_node = 1663; db_node = 7; rel_node = 61 };
          backend = 4294967295;
        },
      )
      ∷ [];
  relid_cache = (61, record { relfilenode = 61; relid = 60 }) ∷ [];
  last_overflow_report = 0;
}

pub caches-IsInverse : IsInverse caches
unfolding find
caches-IsInverse r f = ground arith

remove_cache_entry-IsInverse_example :
    IsInverse (remove_cache_entry 60 61 caches)
    × (oid_is_valid 60 ≡ true → node_at 60 (remove_cache_entry 60 61 caches) ≡ none)
    × (oid_is_valid 61 ≡ true → relid_at 61 (remove_cache_entry 60 61 caches) ≡ none)
remove_cache_entry-IsInverse_example = remove_cache_entry-IsInverse 60 61 caches caches-IsInverse
