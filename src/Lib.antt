-- ===== src/Lib.antt =====
-- A model of diskquota, the extension of Greengage and Greenplum that limits the disk space of
-- schemas, roles and tablespaces, and theorems about it.
--
-- The program. A launcher process (src/diskquota.c) keeps a slot for each monitored database and
-- starts a worker for it in turn. On each segment, hooks of the storage manager record the files that
-- change (src/gp_activetable.c), and a cache knows the relations that are not committed yet
-- (src/relation_cache.c). A worker (src/quotamodel.c) loads the limits, takes the sizes of the active
-- tables from the segments, keeps the size of each table in table_size_map and the bytes in use and
-- the limit of each quota in quota_info_map, moves tables whose schema, owner or tablespace has
-- changed, gives back what dropped tables used, and enters the exceeded quotas first into a local and
-- then into the global reject map. A statement (src/enforcement.c) looks its relations up in the
-- global map. For a hard limit the map also goes to the segments, where refresh_rejectmap enters the
-- files of the active relations, which the hooks check at each write. The cache of monitored databases
-- (src/monitored_db.c) holds the paused flag and the epoch of each worker. The functions of
-- src/diskquota_utility.c write the configuration tables.
--
-- The files.
--   Prelude, Htab, Words: shared helpers; the hash tables; machine integers.
--   Fullness, SharedTable: check_hash_fullness_num, and the search that adds while there is room.
--   Catalog: what the program reads of PostgreSQL, its parameters (the record Env).
--   QuotaType, RejectEntry: the kinds of quota and the keys of src/diskquota.h and quotamodel.c.
--   QuotaInfo: update_size_for_quota, update_limit_for_quota, refresh_quota_info_map and the rest of
--     quota_info_map; Sizes and Refresh hold its proofs.
--   LoadQuotas: load_quotas and do_load_quotas of quotamodel.c, with the query as a join of two lists;
--     Configured says what the tables ask for.
--   TableSize: TableSizeEntry with its flush flags, get_table_size_map_entry.
--   Usage: calculate_active_table_disk_usage and track_namespace_owner_tablespace_changes; Invariant
--     says what the sizes have to be, Active, Transfer, Track, Loop, Relations and Release follow
--     the steps of the code, and Present says who owns a table at present.
--   Flush: flush_to_table_size; Laws is about the map, Rows, Rounds and Table about the database.
--   RejectMap: flush_local_reject_map, the checks, the executor hook; Laws, Checks and Blocking.
--     RejectMap/Segment: refresh_rejectmap.
--   RelationCache: src/relation_cache.c, the removal and the lookups; Update has the entry of a
--     relation and remove_committed_relation_from_cache, Sizes calculate_table_size. Names has
--     diskquota_parse_primary_table_oid and Files calculate_relation_size_all_forks, both of
--     src/diskquota_utility.c.
--   ActiveTables: src/gp_activetable.c, the hooks; Collect has get_active_tables_oid on a segment,
--     Pull the sizes sent by the segments and gp_fetch_active_tables on the coordinator.
--   Worker: a round, refresh_disk_quota_model of quotamodel.c, and what it dispatches to the segments;
--     Round and Sent.
--   MonitoredDb: src/monitored_db.c; Readiness: do_check_diskquota_state_is_ready. Launcher: slots and workers of src/diskquota.c.
--   ExtensionDdl: the launcher's handling of CREATE and DROP EXTENSION.
--   Config: set_role_quota and the other functions that set quotas; Config/Ratio: set_per_segment_quota.
--   Tests: concrete inputs.
--
-- Conventions. A hash table is an association list, in the order of hash_seq_search. Sizes and limits
-- are int64 as their 64-bit patterns, with the wrap of the addition written out; shared counters are
-- uint32. A segment is numbered from 0, the coordinator (content id plus one). A list of segments is a
-- loop on the number of rounds that the code's bounds give, so it cannot run out. Only the loop over
-- the files of a fork, which the source ends at the first missing file, has fuel; it is more than the
-- number of that file. Locks are not modelled: each operation runs under its lock and is one step. An
-- SQL statement is the change of the table that its text describes. A result of Option in which none
-- stands for a crash or an error says so.
--
-- Not modelled: the text of the queries (the relations that get_rel_oid_list finds are a parameter), the
-- SQL function diskquota_fetch_table_stat that chooses what a segment sends, the parser of sizes in set_*_quota, the main loops of the launcher and the workers, the start-up of a worker
-- process, the set-up of shared memory, GUCs, the access to the configuration of the segments, and the
-- functions that only print.
pub mod Prelude
pub mod Htab
pub mod Words
pub mod Worker
pub mod Fullness
pub mod SharedTable
pub mod ActiveTables
pub mod Catalog
pub mod QuotaType
pub mod RejectEntry
pub mod QuotaInfo
pub mod TableSize
pub mod RelationCache
pub mod Usage
pub mod MonitoredDb
pub mod LoadQuotas
pub mod Launcher
pub mod RejectMap
pub mod Flush
pub mod Config
pub mod ExtensionDdl
pub mod Tests
