-- ===== src/RejectMap/Segment.antt =====
-- refresh_rejectmap of src/quotamodel.c: what a segment makes of the reject map that the coordinator
-- dispatches to it, the files of the active relations that are blocked.
pub mod Laws
pub mod Blocked
pub mod Flushed
pub mod Refresh
use diskquota.Prelude.{
  ℕ, suc, ◌∷◌, [], Bool, List, not, Option, if◌then◌else◌, false, none, eqb, some, ◌||◌, true, ◌++◌,
  ◌&&◌, nat_eq,
}
use diskquota.RejectEntry.{
  RejectMapEntry, RelFileNode, GlobalRejectMapEntry, no_reject_entry, reject_entry_has_eq,
  class_file,
}
use diskquota.Catalog.{Oid, Env, ClassTuple, oid_is_valid, tablespace_or_default, AuxRelations}
use diskquota.Htab.{Htab, put, find, remove_if}
use diskquota.RejectMap.{prepare_rejectmap_search_key, GlobalRejectMap, quota_types}
use diskquota.QuotaType.{QuotaType}
use diskquota.RelationCache.{RelationCacheEntry}
use diskquota.SharedTable.{search_or_add_bounded}

-- A row of the first argument, the coordinator's reject map.
pub record Dispatched : Type 0 where
  pub targetoid : Oid
  pub databaseoid : Oid
  pub tablespaceoid : Oid
  pub targettype : ℕ
  pub segexceeded : Bool

-- The local_rejectmap; it is in private memory and takes every entry.
abbrev pub SegmentRejectMap : Type 0
SegmentRejectMap = Htab RejectMapEntry GlobalRejectMapEntry

abbrev pub dispatched_key : Dispatched → RejectMapEntry
dispatched_key d = record no_reject_entry {
  targetoid = d.targetoid;
  databaseoid = d.databaseoid;
  tablespaceoid = d.tablespaceoid;
  targettype = d.targettype;
}

-- The first loop. (The source leaves `auxblockinfo` of such an entry unset and never reads it.)
unfoldable pub add_dispatched : List (Option Dispatched) → SegmentRejectMap → SegmentRejectMap
add_dispatched [] m = m
add_dispatched (none ∷ ds) m = add_dispatched ds m
add_dispatched (some d ∷ ds) m = add_dispatched ds (
    put (dispatched_key d)
      (elim (find (dispatched_key d) m) [
        | some r ↦ record r { segexceeded = d.segexceeded }
        | none ↦ record {
          keyitem = dispatched_key d;
          segexceeded = d.segexceeded;
          auxblockinfo = no_reject_entry;
        }
      ])
      m)

abbrev pub file_key : RelFileNode → RejectMapEntry
file_key f = record no_reject_entry { relfilenode = f }

-- A file that is blocked by the quota `key`, unless it is blocked already.
unfoldable pub block_file :
    RejectMapEntry → Bool → RelFileNode → SegmentRejectMap → SegmentRejectMap
block_file key segexceeded f m = elim (find (file_key f) m) [
  | some _ ↦ m
  | none ↦
      put (file_key f)
        (record { keyitem = file_key f; segexceeded = segexceeded; auxblockinfo = key }) m
]

-- The files of a list of relations of the catalog.
unfoldable pub block_oids :
    Env → RejectMapEntry → Bool → List Oid → SegmentRejectMap → SegmentRejectMap
unfolding block_file
block_oids env key segexceeded [] m = m
block_oids env key segexceeded (oid ∷ oids) m =
    block_oids env key segexceeded oids (elim (env.pg_class oid) [
      | none ↦ m
      | some c ↦ block_file key segexceeded (class_file env c) m
    ])

abbrev pub with_indexes : AuxRelations → Oid → List Oid
with_indexes aux oid = if oid_is_valid oid then oid ∷ aux.index_list oid else []

-- A relation with its toast and append-only relations and their indexes.
unfoldable pub related_oids : AuxRelations → Oid → ClassTuple → List Oid
related_oids aux oid c =
    let (aosegrelid, aoblkdirrelid, aovisimaprelid) = aux.appendonly_aux oid in
    oid
    ∷ (with_indexes aux c.reltoastrelid
        ++ (with_indexes aux aosegrelid
            ++ (with_indexes aux aoblkdirrelid ++ with_indexes aux aovisimaprelid)))

-- The first type of quota that blocks a relation of this owner, schema and tablespace.
unfoldable pub first_blocking :
    Env
    → Oid
    → Oid
    → Oid
    → List QuotaType
    → SegmentRejectMap
    → Option (RejectMapEntry × GlobalRejectMapEntry)
unfolding prepare_rejectmap_search_key
first_blocking env owner namespace tablespace [] m = none
first_blocking env owner namespace tablespace (type ∷ types) m =
    let key = prepare_rejectmap_search_key env type owner namespace tablespace in
    let rest = first_blocking env owner namespace tablespace types m in
    elim (find key m) [ some r ↦ some (key, r) | none ↦ rest ]

-- The branch for a relation of the catalog.
unfoldable pub block_committed :
    Env → AuxRelations → Oid → ClassTuple → SegmentRejectMap → SegmentRejectMap
unfolding first_blocking block_oids related_oids
block_committed env aux oid c m =
    elim (first_blocking env c.relowner c.relnamespace (tablespace_or_default env c.reltablespace)
      quota_types m) [
        | none ↦ m
        | some (key, r) ↦ block_oids env key r.segexceeded (related_oids aux oid c) m
      ]

-- The inner loop of the branch for an uncommitted relation. The variable relation_cache_entry is
-- overwritten in each round; it is handed on.
unfoldable pub block_cached :
    Htab Oid RelationCacheEntry
    → RejectMapEntry
    → Bool
    → List Oid
    → Option RelationCacheEntry × SegmentRejectMap
    → Option RelationCacheEntry × SegmentRejectMap
unfolding block_file
block_cached cache key segexceeded [] s = s
block_cached cache key segexceeded (oid ∷ oids) (_, m) = block_cached cache key segexceeded oids (
  find oid cache,
  elim (find oid cache) [ none ↦ m | some e ↦ block_file key segexceeded e.rnode m ],
)

-- The loop over the types for an uncommitted relation, which goes on after a match and then reads
-- the list of relations from whatever entry the variable points at. The result is none where it is
-- a null pointer.
unfoldable pub block_uncommitted :
    Env
    → Htab Oid RelationCacheEntry
    → Oid
    → RelationCacheEntry
    → List QuotaType
    → Option RelationCacheEntry × SegmentRejectMap
    → Option SegmentRejectMap
unfolding block_cached prepare_rejectmap_search_key
block_uncommitted env cache oid e [] (_, m) = some m
block_uncommitted env cache oid e (type ∷ types) (current, m) =
    let key = prepare_rejectmap_search_key env type e.owneroid e.namespaceoid e.rnode.spc_node in
    elim (find key m) [
      | none ↦ block_uncommitted env cache oid e types (current, m)
      | some r ↦ elim current [
        | none ↦ none
        | some e' ↦
            block_uncommitted env cache oid e types
              (block_cached cache key r.segexceeded (oid ∷ e'.auxrel_oid) (current, m))
      ]
    ]

-- One round of the loop over the active relations.
unfoldable pub block_active :
    Env
    → AuxRelations
    → Htab Oid RelationCacheEntry
    → Oid
    → SegmentRejectMap
    → Option SegmentRejectMap
unfolding block_committed block_uncommitted
block_active env aux cache oid m =
    if oid_is_valid oid
    then elim (env.pg_class oid) [
      | some c ↦ some (block_committed env aux oid c m)
      | none ↦ elim (find oid cache) [
        | none ↦ some m
        | some e ↦
            if eqb e.rnode.db_node env.my_database_id
            then block_uncommitted env cache oid e quota_types (some e, m)
            else some m
      ]
    ]
    else some m

unfoldable pub block_actives :
    Env
    → AuxRelations
    → Htab Oid RelationCacheEntry
    → List (Option Oid)
    → SegmentRejectMap
    → Option SegmentRejectMap
unfolding block_active
block_actives env aux cache [] m = some m
block_actives env aux cache (none ∷ oids) m = block_actives env aux cache oids m
block_actives env aux cache (some oid ∷ oids) m = elim (block_active env aux cache oid m) [
  | none ↦ none
  | some m' ↦ block_actives env aux cache oids m'
]

abbrev pub is_own : Env → RejectMapEntry → Bool
is_own env k = not (
    not (eqb k.relfilenode.db_node env.my_database_id)
    && not (eqb k.databaseoid env.my_database_id))

-- The last loop: the entries of files go to the global map, soft limits do not.
unfoldable pub flush_segment_entries : Env → SegmentRejectMap → GlobalRejectMap → GlobalRejectMap
flush_segment_entries env [] g = g
flush_segment_entries env ((k, r) ∷ m) g = flush_segment_entries env m (
    if oid_is_valid k.targetoid
    then g
    else (search_or_add_bounded env.clock env.max_disk_quota_reject_entries r k g).1)

-- Who calls the function, and on what.
pub record Caller : Type 0 where
  pub superuser : Bool
  pub is_query_dispatcher : Bool
  pub is_one_dimensional : Bool

pub data SegmentRefresh : Type 0 where
  must_be_superuser only_on_segments one_dimensional_needed : SegmentRefresh
  null_pointer : SegmentRefresh
  rejectmap_refreshed : GlobalRejectMap → SegmentRefresh

unfoldable pub refresh_rejectmap :
    Env
    → AuxRelations
    → Htab Oid RelationCacheEntry
    → Caller
    → List (Option Dispatched)
    → List (Option Oid)
    → GlobalRejectMap
    → SegmentRefresh
unfolding add_dispatched block_actives flush_segment_entries
refresh_rejectmap env aux cache caller ds oids g =
    if not caller.superuser
    then must_be_superuser
    else if caller.is_query_dispatcher
    then only_on_segments
    else if not caller.is_one_dimensional
    then one_dimensional_needed
    else elim (block_actives env aux cache oids (add_dispatched ds [])) [
      | none ↦ null_pointer
      | some m ↦
          rejectmap_refreshed
            (flush_segment_entries env m (record g { map = remove_if (λ k _. is_own env k) g.map }))
    ]
