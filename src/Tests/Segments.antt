-- ===== src/Tests/Segments.antt =====
-- Concrete inputs for a segment: its reject map, its relation caches and its files.
use diskquota.Prelude.{
  ℕ, [], ◌∷◌, none, some, refl, true, ◌≡◌, ◌≢◌, arith, Option, inl, ◌≤◌, ◌+◌, ◌%◌, eqb,
  if◌then◌else◌, ap, sym, ◌∙◌, length, nat_eq, ◌&&◌,
}
use diskquota.RejectEntry.{
  reject_entry_has_eq, RejectMapEntry, no_reject_entry, class_file, reject_entry_eq,
}
use diskquota.RejectMap.Segment.Refresh.{
  refresh_run, refresh_rejectmap-blocked, refresh_rejectmap-soft,
}
use diskquota.Tests.{env, class, caches, caches-IsInverse, namespace_quota}
use diskquota.Catalog.{AuxRelations, Oid, oid_is_valid}
use diskquota.RejectMap.Segment.{
  Dispatched, SegmentRejectMap, block_actives, related_oids, refresh_rejectmap, dispatched_key,
  block_active, add_dispatched, rejectmap_refreshed, is_own, block_committed, flush_segment_entries,
  first_blocking, block_oids, block_file,
}
use diskquota.RejectMap.{
  GlobalRejectMap, prepare_rejectmap_search_key, check_rejectmap_by_relfilenode,
}
use diskquota.Htab.{find, put, remove_if}
use diskquota.RelationCache.Names.{Namespaces, diskquota_parse_primary_table_oid}
use diskquota.RelationCache.Update.{Server, remove_committed_relation_from_cache}
use diskquota.RelationCache.Laws.{IsInverse}
use diskquota.RelationCache.Files.{Storage, calculate_relation_size_all_forks}
use diskquota.RelationCache.Files.Ends.{
  EndsAt, forks_size, calculate_relation_size_all_forks-EndsAt,
}
use diskquota.RelationCache.{RelationCaches, RelationCacheEntry}
use diskquota.RejectMap.Segment.Blocked.{IsClosed, blocking_key}
use diskquota.RelationCache.Names.RoundTrip.{
  aux_namespace, aovisimap, aux_name, diskquota_parse_primary_table_oid-aux_name,
}
use diskquota.Htab.Keys.{IsDistinct}
use diskquota.RelationCache.Sizes.{calculate_table_size}
use diskquota.RelationCache.Sizes.Related.{catalog_size, calculate_table_size-related_oids}
use diskquota.Words.{two64}
use diskquota.RelationCache.Update.Removal.{is_committed}
use diskquota.RelationCache.Update.Committed.{remove_committed_relation_from_cache-find}

abbrev pub no_aux : AuxRelations
no_aux = record { index_list = λ o. []; appendonly_aux = λ o. (0, 0, 0) }

abbrev schema_exceeded : Dispatched
schema_exceeded = record {
  targetoid = 2200;
  databaseoid = 7;
  tablespaceoid = 0;
  targettype = 0;
  segexceeded = true;
}

abbrev pub empty_rejects : GlobalRejectMap
empty_rejects = record { map = []; last_overflow_report = 0 }

no_cache-IsClosed : IsClosed []
unfolding find
no_cache-IsClosed r e h = ground arith

schema_key-blocks : dispatched_key schema_exceeded ≡ blocking_key env class namespace_quota
unfolding prepare_rejectmap_search_key
schema_key-blocks = refl

abbrev local_length : Option SegmentRejectMap → ℕ
local_length o = elim o [ none ↦ 0 | some m ↦ length m ]

two_entries :
    local_length
      (block_actives env no_aux [] (some 50 ∷ []) (add_dispatched (some schema_exceeded ∷ []) []))
    ≡ 2
unfolding block_actives block_active block_committed first_blocking related_oids block_oids
    block_file add_dispatched prepare_rejectmap_search_key find put reject_entry_eq
two_entries = refl

local_room :
    (m : SegmentRejectMap)
    → block_actives env no_aux [] (some 50 ∷ []) (add_dispatched (some schema_exceeded ∷ []) [])
      ≡ some m
    → 0 + length m ≤ 20
local_room m p = let n = sym (ap local_length p) ∙ two_entries in omega arith

related_self : related_oids no_aux 50 class ≡ 50 ∷ []
unfolding related_oids
related_self = refl

refresh_rejectmap-blocked_example :
    (g' : GlobalRejectMap) × (refresh_run env empty_rejects no_aux []
        (some schema_exceeded ∷ [])
        (some 50 ∷ [])
      ≡ rejectmap_refreshed g')
    × (check_rejectmap_by_relfilenode (class_file env class) g' ≢ none)
unfolding related_oids
refresh_rejectmap-blocked_example =
    refresh_rejectmap-blocked env empty_rejects no_aux [] (some schema_exceeded ∷ []) (some 50 ∷ [])
      schema_exceeded namespace_quota 50 50 class class no_cache-IsClosed local_room (omega arith)
      (inl refl) schema_key-blocks (inl refl) refl refl (inl refl) refl

abbrev soft_key : RejectMapEntry
soft_key = dispatched_key schema_exceeded

abbrev soft_rejects : GlobalRejectMap
soft_rejects = record {
  map =
      (soft_key, record { keyitem = soft_key; segexceeded = true; auxblockinfo = no_reject_entry })
      ∷ [];
  last_overflow_report = 0;
}

soft_run :
    refresh_run env soft_rejects no_aux [] (some schema_exceeded ∷ []) []
    ≡ rejectmap_refreshed (record { map = []; last_overflow_report = 0 })
unfolding refresh_rejectmap block_actives add_dispatched flush_segment_entries find put
    reject_entry_eq remove_if
soft_run = refl

refresh_rejectmap-soft_example :
    find soft_key [] ≡ (if is_own env soft_key then none else find soft_key soft_rejects.map)
refresh_rejectmap-soft_example =
    refresh_rejectmap-soft env soft_rejects no_aux [] (some schema_exceeded ∷ []) [] soft_key
      (record { map = []; last_overflow_report = 0 }) refl soft_run

abbrev pub namespaces : Namespaces
namespaces = record { pg_toast = 99; pg_aosegment = 6104 }

diskquota_parse_primary_table_oid-aux_name_example :
    diskquota_parse_primary_table_oid namespaces
      (aux_namespace namespaces aovisimap)
      (aux_name aovisimap 16384)
    ≡ 16384
diskquota_parse_primary_table_oid-aux_name_example =
    diskquota_parse_primary_table_oid-aux_name namespaces aovisimap 16384 (omega arith)
      (omega arith)

-- The files 50 and 61 are those of the relations 50 and 60.
abbrev pub server : Server
server = record {
  relation_open = λ o. none;
  relid_by_relfilenode = λ spc f. if eqb f 50 then 50 else if eqb f 61 then 60 else 0;
  namespaces = namespaces;
  max_active_tables = 10;
}

caches-IsDistinct : IsDistinct caches.relation_cache
unfolding find
caches-IsDistinct = (refl, tt)

remove_committed_relation_from_cache-find_example :
    IsInverse (remove_committed_relation_from_cache env server caches)
    × ((r : Oid) (e : RelationCacheEntry)
        → find r caches.relation_cache ≡ some e
        → oid_is_valid e.rnode.rel_node ≡ true
        → find r (remove_committed_relation_from_cache env server caches).relation_cache
          ≡ (if eqb e.rnode.db_node 7 && is_committed server e then none else some e))
remove_committed_relation_from_cache-find_example =
    remove_committed_relation_from_cache-find env server caches (refl, tt) caches-IsDistinct
      caches-IsInverse

-- One segment of 8192 bytes in each of the forks 0 and 1.
abbrev storage : Storage
storage = record {
  stat = λ f b fork segno. if eqb segno 0 then some 8192 else none;
  ao_segments = λ exists. [];
  main_forknum = 0;
  max_forknum = 1;
  table_is_heap = λ s am. eqb s 104;
  table_is_ao = λ s am. eqb s 97;
  temp_rel_backend_id = 1;
  invalid_backend_id = 4294967295;
}

one_segment : EndsAt 1 (λ segno. if eqb segno 0 then some 8192 else none)
one_segment = (refl, λ j h m. ground arith)

calculate_relation_size_all_forks-EndsAt_example :
    calculate_relation_size_all_forks 2 storage (class_file env class) 4294967295 104 2
    ≡ some (forks_size (storage.stat (class_file env class) 4294967295) (λ f. 1) (1 + 1) 0 % two64)
calculate_relation_size_all_forks-EndsAt_example =
    calculate_relation_size_all_forks-EndsAt storage (class_file env class) 4294967295 104 2
      (λ f. 1) 2 refl (λ f. (one_segment, omega arith, omega arith))

abbrev pub no_caches : RelationCaches
no_caches = record { relation_cache = []; relid_cache = []; last_overflow_report = 0 }

in_catalog : env.pg_class 50 ≢ none
in_catalog p = ground arith

not_cached : find 50 no_caches.relation_cache ≡ none
unfolding find
not_cached = refl

calculate_table_size-related_oids_example :
    (c' : RelationCaches) × (calculate_table_size env no_aux storage (λ l. 8192) 50 no_caches
      ≡ some (catalog_size env storage (λ l. 8192) (related_oids no_aux 50 class) % two64, c'))
unfolding related_oids
calculate_table_size-related_oids_example =
    calculate_table_size-related_oids env no_aux storage (λ l. 8192) 50 class no_caches not_cached
      refl (in_catalog, tt) tt (omega arith) (λ h. refl) (λ h. ground (arith, h))
