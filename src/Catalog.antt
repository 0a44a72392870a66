-- ===== src/Catalog.antt =====
-- What the program reads of its surroundings and does not implement: PostgreSQL's system caches,
-- the identity of the current database, the configured limits (GUCs) and the clock.
use diskquota.Prelude.{ℕ, Bool, List, Option, eqb, not, if◌then◌else◌}
use diskquota.Fullness.{Clock}

abbrev pub Oid : Type 0
Oid = ℕ

abbrev pub invalid_oid : Oid
invalid_oid = 0

-- OidIsValid
abbrev pub oid_is_valid : Oid → Bool
oid_is_valid o = not (eqb o invalid_oid)

-- A segment's content id plus one, the number from which the macros TableSizeEntryId and
-- TableSizeEntryIndex compute: 0 is the coordinator, whose content id is -1.
abbrev pub SegId : Type 0
SegId = ℕ

abbrev pub coordinator : SegId
coordinator = 0

-- The three system caches that quota_key_caches names.
pub data CacheId : Type 0 where
  namespaceoid authoid tablespaceoid : CacheId

-- The columns of pg_class that the program reads; a name is the list of its bytes up to the final
-- zero, and `relstorage` is DiskquotaGetRelstorage of the row.
pub record ClassTuple : Type 0 where
  pub relnamespace : Oid
  pub relowner : Oid
  pub reltablespace : Oid
  pub reltoastrelid : Oid
  pub relfilenode : Oid
  pub relam : Oid
  pub relstorage : ℕ
  pub relname : List ℕ
  pub is_temp : Bool

pub record Env : Type 0 where
  pub my_database_id : Oid
  pub my_database_tablespace : Oid
  -- SEGCOUNT
  pub segcount : ℕ
  -- SearchSysCache1 on the caches of quota keys
  pub in_syscache : CacheId → Oid → Bool
  -- SearchSysCacheCopy1(RELOID)
  pub pg_class : Oid → Option ClassTuple
  -- C's round of an int64 times a float4, whose bit pattern is given, as an int64
  pub round_mul : ℕ → ℕ → ℕ
  pub clock : Clock
  -- MAX_QUOTA_MAP_ENTRIES, MAX_NUM_TABLE_SIZE_ENTRIES, diskquota_max_local_reject_entries
  -- and MAX_DISK_QUOTA_REJECT_ENTRIES
  pub max_quota_map_entries : ℕ
  pub max_num_table_size_entries : ℕ
  pub max_local_reject_entries : ℕ
  pub max_disk_quota_reject_entries : ℕ

-- What the catalog says of a relation's indexes, by diskquota_get_index_list, and of its append-only
-- relations, by diskquota_get_appendonly_aux_oid_list: the segment, block directory and visibility
-- map relations, invalid where there is none.
pub record AuxRelations : Type 0 where
  pub index_list : Oid → List Oid
  pub appendonly_aux : Oid → Oid × Oid × Oid

-- A relation's tablespace: an invalid one stands for the database's default.
abbrev pub tablespace_or_default : Env → Oid → Oid
tablespace_or_default env o = if oid_is_valid o then o else env.my_database_tablespace
