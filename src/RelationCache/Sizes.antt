-- ===== src/RelationCache/Sizes.antt =====
-- calculate_table_size of src/relation_cache.c: a table's size with all its auxiliary relations.
pub mod Related
use diskquota.Prelude.{
  ℕ, zero, suc, [], ◌∷◌, List, Bool, true, false, Option, none, some, ◌+◌, ◌%◌, not, eqb,
  if◌then◌else◌, nat_eq, ◌||◌,
}
use diskquota.RejectEntry.{RelFileNode, no_relfilenode, class_file}
use diskquota.Catalog.{
  Oid, AuxRelations, Env, ClassTuple, invalid_oid, oid_is_valid, tablespace_or_default,
}
use diskquota.RelationCache.Files.{Storage}
use diskquota.RelationCache.{RelationCacheEntry, RelationCaches, remove_cache_entry}
use diskquota.Htab.{Htab, find}
use diskquota.RelationCache.Update.{add_auxrelid_to_relation_entry, zeroed_relation_entry}
use diskquota.Words.{add64}

-- What get_relfilenode_by_relid finds: where a relation's files are and how it stores its rows.
pub record Location : Type 0 where
  pub rnode : RelFileNode
  pub backend : ℕ
  pub relstorage : ℕ
  pub relam : Oid

-- add_auxrelid_to_relation_entry on each relation of a list.
unfoldable pub add_auxrelids : List Oid → RelationCacheEntry → Option RelationCacheEntry
add_auxrelids [] e = some e
add_auxrelids (oid ∷ oids) e = elim (add_auxrelid_to_relation_entry oid e) [
  | none ↦ none
  | some e' ↦ add_auxrelids oids e'
]

unfoldable pub add_auxrelation_to_relation_entry :
    AuxRelations → Oid → RelationCacheEntry → Option RelationCacheEntry
unfolding add_auxrelids
add_auxrelation_to_relation_entry aux relid e = add_auxrelids (relid ∷ aux.index_list relid) e

-- "if (OidIsValid(relid)) add_auxrelation_to_relation_entry(relid, relation_entry)"
unfoldable pub add_auxrelation_if_valid :
    AuxRelations → Oid → RelationCacheEntry → Option RelationCacheEntry
unfolding add_auxrelation_to_relation_entry
add_auxrelation_if_valid aux relid e =
    if oid_is_valid relid then add_auxrelation_to_relation_entry aux relid e else some e

abbrev pub backend_of : Storage → ClassTuple → ℕ
backend_of storage c = if c.is_temp then storage.temp_rel_backend_id else storage.invalid_backend_id

abbrev pub class_entry : Env → Storage → Oid → ClassTuple → RelationCacheEntry → RelationCacheEntry
class_entry env storage relid c e = record e {
  relid = relid;
  primary_table_relid = relid;
  owneroid = c.relowner;
  namespaceoid = c.relnamespace;
  relstorage = c.relstorage;
  relam = c.relam;
  rnode = class_file env c;
  backend = backend_of storage c;
}

-- The flag says whether the block directory is missing.
unfoldable pub get_relation_entry_from_pg_class :
    Env → AuxRelations → Storage → Oid → RelationCacheEntry → Option (Bool × RelationCacheEntry)
unfolding add_auxrelation_if_valid
get_relation_entry_from_pg_class env aux storage relid e = elim (env.pg_class relid) [
  | none ↦ some (false, e)
  | some c ↦
      elim (add_auxrelation_if_valid aux c.reltoastrelid (class_entry env storage relid c e)) [
        | none ↦ none
        | some e1 ↦
            if storage.table_is_ao e1.relstorage e1.relam
            then (let (segrelid, blkdirrelid, visimaprelid) = aux.appendonly_aux relid in
                elim (add_auxrelation_if_valid aux segrelid e1) [
                  | none ↦ none
                  | some e2 ↦ elim (add_auxrelation_if_valid aux blkdirrelid e2) [
                    | none ↦ none
                    | some e3 ↦ elim (add_auxrelation_if_valid aux visimaprelid e3) [
                      | none ↦ none
                      | some e4 ↦ some (not (oid_is_valid blkdirrelid), e4)
                    ]
                  ]
                ])
            else some (false, e1)
      ]
]

-- The loop over relation_cache for a missing block directory.
unfoldable pub add_cached_auxrelids :
    Oid → Htab Oid RelationCacheEntry → RelationCacheEntry → Option RelationCacheEntry
add_cached_auxrelids relid [] e = some e
add_cached_auxrelids relid ((k, x) ∷ m) e =
    elim (if eqb x.primary_table_relid relid
      then add_auxrelid_to_relation_entry x.relid e
      else some e) [ none ↦ none | some e' ↦ add_cached_auxrelids relid m e' ]

unfoldable pub get_relation_entry :
    Env
    → AuxRelations
    → Storage
    → Oid
    → RelationCacheEntry
    → RelationCaches
    → Option RelationCacheEntry
unfolding get_relation_entry_from_pg_class add_cached_auxrelids
get_relation_entry env aux storage relid e c = elim (find relid c.relation_cache) [
  | some t ↦ some t
  | none ↦ elim (get_relation_entry_from_pg_class env aux storage relid e) [
    | none ↦ none
    | some (is_missing_relid, e') ↦
        if is_missing_relid then add_cached_auxrelids relid c.relation_cache e' else some e'
  ]
]

-- The variables of the caller that it writes are in `l`; where nothing is found only the file is
-- reset.
unfoldable pub get_relfilenode_by_relid :
    Env → Storage → Oid → Location → RelationCaches → Location × RelationCaches
get_relfilenode_by_relid env storage relid l c = elim (env.pg_class relid) [
  | some t ↦ (
    record {
      rnode = class_file env t;
      backend = backend_of storage t;
      relstorage = t.relstorage;
      relam = t.relam;
    },
    remove_cache_entry relid invalid_oid c,
  )
  | none ↦ elim (find relid c.relation_cache) [
    | some e ↦ (
      record { rnode = e.rnode; backend = e.backend; relstorage = e.relstorage; relam = e.relam },
      c,
    )
    | none ↦ (record l { rnode = no_relfilenode; backend = 0 }, c)
  ]
]

-- The rounds over a relation and its auxiliary relations. `size_of_files` is
-- calculate_relation_size_all_forks.
unfoldable pub add_sizes :
    Env → Storage → (Location → ℕ) → List Oid → ℕ → Location → RelationCaches → ℕ × RelationCaches
unfolding get_relfilenode_by_relid
add_sizes env storage size_of_files [] tablesize l c = (tablesize, c)
add_sizes env storage size_of_files (oid ∷ oids) tablesize l c =
    let (l', c') = get_relfilenode_by_relid env storage oid l c in
    add_sizes env storage size_of_files oids (add64 tablesize (size_of_files l')) l' c'

abbrev pub no_location : Location
no_location = record { rnode = no_relfilenode; backend = 0; relstorage = 0; relam = invalid_oid }

unfoldable pub do_calculate_table_size :
    Env → Storage → (Location → ℕ) → RelationCacheEntry → RelationCaches → ℕ × RelationCaches
unfolding add_sizes
do_calculate_table_size env storage size_of_files e c =
    add_sizes env storage size_of_files (e.relid ∷ e.auxrel_oid) 0 no_location c

-- none where the array of auxiliary relations overflows
unfoldable pub calculate_table_size :
    Env
    → AuxRelations
    → Storage
    → (Location → ℕ)
    → Oid
    → RelationCaches
    → Option (ℕ × RelationCaches)
unfolding get_relation_entry do_calculate_table_size
calculate_table_size env aux storage size_of_files relid c =
    elim (get_relation_entry env aux storage relid zeroed_relation_entry c) [
      | none ↦ none
      | some e ↦ some (do_calculate_table_size env storage size_of_files e c)
    ]
