-- ===== src/RelationCache/Update.antt =====
-- How src/relation_cache.c enters a relation into its caches, finds the table that a relation
-- belongs to, and drops the entries of relations that have been committed.
pub mod Copy
pub mod Removal
pub mod Committed
use diskquota.Prelude.{
  ℕ, zero, suc, [], ◌∷◌, List, Bool, true, false, ◌&&◌, Option, none, some, ◌+◌, not, eqb, leb, ltb,
  if◌then◌else◌, nat_eq, length, ◌++◌, ◌||◌,
}
use diskquota.RejectEntry.{RelFileNode, no_relfilenode}
use diskquota.Catalog.{Oid, Env, invalid_oid, oid_is_valid}
use diskquota.RelationCache.{
  RelationCacheEntry, RelidCacheEntry, remove_cache_entry, RelationCaches,
}
use diskquota.RelationCache.Names.{Name, Namespaces, diskquota_parse_primary_table_oid}
use diskquota.Htab.{Htab, find, put}
use diskquota.SharedTable.{search_or_add_bounded}

-- What diskquota_relation_open finds of a relation that the session can see.
pub record Relation : Type 0 where
  pub rd_node : RelFileNode
  pub rd_backend : ℕ
  pub relowner : Oid
  pub relnamespace : Oid
  pub relstorage : ℕ
  pub relam : Oid
  pub relkind : ℕ
  pub relname : Name

-- The server's part: which relations the session can open, RelidByRelfilenode, and the two schemas.
pub record Server : Type 0 where
  pub relation_open : Oid → Option Relation
  pub relid_by_relfilenode : Oid → Oid → Oid
  pub namespaces : Namespaces
  -- diskquota_max_active_tables
  pub max_active_tables : ℕ

abbrev pub is_listed_oid : Oid → List Oid → Bool
is_listed_oid oid [] = false
is_listed_oid oid (x ∷ xs) = eqb x oid || is_listed_oid oid xs

-- The length of the array auxrel_oid.
abbrev pub max_auxrel_num : ℕ
max_auxrel_num = 10

-- The code does not test the bound: none where it writes behind the array.
unfoldable pub add_auxrelid_to_relation_entry : Oid → RelationCacheEntry → Option RelationCacheEntry
add_auxrelid_to_relation_entry relid e =
    if is_listed_oid relid e.auxrel_oid
    then some e
    else if ltb (length e.auxrel_oid) max_auxrel_num
    then some (record e { auxrel_oid = e.auxrel_oid ++ (relid ∷ []) })
    else none

abbrev pub zeroed_relation_entry : RelationCacheEntry
zeroed_relation_entry = record {
  relid = invalid_oid;
  primary_table_relid = invalid_oid;
  auxrel_oid = [];
  owneroid = invalid_oid;
  namespaceoid = invalid_oid;
  relstorage = 0;
  relam = invalid_oid;
  rnode = no_relfilenode;
  backend = 0;
}

abbrev pub zeroed_relid_entry : RelidCacheEntry
zeroed_relid_entry = record { relfilenode = invalid_oid; relid = invalid_oid }

-- With both entries given, as the only caller does.
unfoldable pub update_relation_entry :
    Server → Oid → RelationCacheEntry × RelidCacheEntry → RelationCacheEntry × RelidCacheEntry
update_relation_entry server relid (e, d) = elim (server.relation_open relid) [
  | none ↦ (e, d)
  | some rel ↦ (
    record e {
      relid = relid;
      rnode = rel.rd_node;
      backend = rel.rd_backend;
      owneroid = rel.relowner;
      namespaceoid = rel.relnamespace;
      relstorage = rel.relstorage;
      relam = rel.relam;
      primary_table_relid = relid;
    },
    record { relfilenode = rel.rd_node.rel_node; relid = relid },
  )
]

-- get_rel_name_namespace of src/quotamodel.c
unfoldable pub get_rel_name_namespace : Env → Oid → Option (Oid × Name)
get_rel_name_namespace env relid = elim (env.pg_class relid) [
  | none ↦ none
  | some c ↦ some (c.relnamespace, c.relname)
]

unfoldable pub parse_primary_table_oid : Env → Server → Oid → Bool → Oid
unfolding get_rel_name_namespace
parse_primary_table_oid env server relid on_bgworker =
    elim (if on_bgworker
      then get_rel_name_namespace env relid
      else elim (server.relation_open relid) [
        | none ↦ none
        | some rel ↦ some (rel.relnamespace, rel.relname)
      ]) [
        | none ↦ invalid_oid
        | some (namespace, relname) ↦
            let parsed_oid =
              diskquota_parse_primary_table_oid server.namespaces namespace relname in
            if oid_is_valid parsed_oid then parsed_oid else relid
      ]

unfoldable pub get_primary_table_oid : Env → Server → Oid → Bool → RelationCaches → Oid
unfolding parse_primary_table_oid
get_primary_table_oid env server relid on_bgworker c =
    let parsed_prelid = parse_primary_table_oid env server relid on_bgworker in
    if oid_is_valid parsed_prelid
    then parsed_prelid
    else elim (find relid c.relation_cache) [ none ↦ relid | some e ↦ e.primary_table_relid ]

-- The first half of update_relation_cache: both entries under the lock. The flag says whether the
-- function goes on to the second half.
unfoldable pub add_cache_entries :
    Env → Server → RelationCacheEntry × RelidCacheEntry → RelationCaches → Bool × RelationCaches
add_cache_entries env server (e, d) c =
    let (relation_entry, r) =
      search_or_add_bounded env.clock server.max_active_tables e e.relid
        (record { map = c.relation_cache; last_overflow_report = c.last_overflow_report }) in
    elim relation_entry [
      | none ↦ (false, record c { last_overflow_report = r.last_overflow_report })
      | some _ ↦
          let (relid_entry, s) =
            search_or_add_bounded env.clock server.max_active_tables d d.relfilenode
              (record { map = c.relid_cache; last_overflow_report = r.last_overflow_report }) in
          elim relid_entry [
            | none ↦ (
              false,
              record c {
                relation_cache = put e.relid e r.map;
                last_overflow_report = s.last_overflow_report;
              },
            )
            | some _ ↦ (
              true,
              record {
                relation_cache = put e.relid e r.map;
                relid_cache = put d.relfilenode d s.map;
                last_overflow_report = s.last_overflow_report;
              },
            )
          ]
    ]

-- The second half: an auxiliary relation is linked with its table. `entry` is the key of the entry
-- that the pointer from the first half leads to.
unfoldable pub link_primary_table : Oid → Oid → Oid → RelationCaches → Option RelationCaches
unfolding add_auxrelid_to_relation_entry
link_primary_table entry relid prelid c =
    let m : Htab Oid RelationCacheEntry = elim (find entry c.relation_cache) [
      | none ↦ c.relation_cache
      | some e ↦ put entry (record e { primary_table_relid = prelid }) c.relation_cache
    ] in
    elim (find prelid m) [
      | none ↦ some (record c { relation_cache = m })
      | some p ↦ elim (add_auxrelid_to_relation_entry relid p) [
        | none ↦ none
        | some p' ↦ some (record c { relation_cache = put prelid p' m })
      ]
    ]

unfoldable pub update_relation_cache : Env → Server → Oid → RelationCaches → Option RelationCaches
unfolding update_relation_entry add_cache_entries get_primary_table_oid link_primary_table
update_relation_cache env server relid c =
    let (e, d) = update_relation_entry server relid (zeroed_relation_entry, zeroed_relid_entry) in
    let (goes_on, c') = add_cache_entries env server (e, d) c in
    let prelid = get_primary_table_oid env server relid false c' in
    if goes_on && (oid_is_valid prelid && not (eqb prelid relid))
    then link_primary_table e.relid relid prelid c'
    else some c'

-- The first loop of remove_committed_relation_from_cache: the entries of the session's database.
unfoldable pub copy_own_relations :
    Env → Htab Oid RelationCacheEntry → Htab Oid RelationCacheEntry → Htab Oid RelationCacheEntry
copy_own_relations env [] local = local
copy_own_relations env ((k, e) ∷ m) local =
    copy_own_relations env m
      (if eqb e.rnode.db_node env.my_database_id then put e.relid e local else local)

unfoldable pub remove_committed :
    Server → Htab Oid RelationCacheEntry → RelationCaches → RelationCaches
unfolding remove_cache_entry
remove_committed server [] c = c
remove_committed server ((k, e) ∷ m) c = remove_committed server m (
    if oid_is_valid (server.relid_by_relfilenode e.rnode.spc_node e.rnode.rel_node)
    then remove_cache_entry invalid_oid e.rnode.rel_node c
    else c)

unfoldable pub remove_committed_relation_from_cache : Env → Server → RelationCaches → RelationCaches
unfolding copy_own_relations remove_committed
remove_committed_relation_from_cache env server c =
    remove_committed server (copy_own_relations env c.relation_cache []) c
