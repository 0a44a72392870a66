-- ===== src/RelationCache.antt =====
-- The caches of uncommitted relations of src/relation_cache.c: relation_cache, by relation oid, and
-- relid_cache, from relfilenode to relation oid.
pub mod Laws
pub mod Names
pub mod Update
pub mod Files
pub mod Sizes
use diskquota.Prelude.{ℕ, List, none, some, if◌then◌else◌, nat_eq}
use diskquota.Htab.{Htab, find, remove}
use diskquota.Catalog.{Oid, invalid_oid, oid_is_valid}
use diskquota.RejectEntry.{RelFileNode}

-- `auxrel_oid` holds the first auxrel_num places of the array Oid[10]; `rnode` and `backend` are the
-- two parts of the field rnode.
pub record RelationCacheEntry : Type 0 where
  pub relid : Oid
  pub primary_table_relid : Oid
  pub auxrel_oid : List Oid
  pub owneroid : Oid
  pub namespaceoid : Oid
  pub relstorage : ℕ
  pub relam : Oid
  pub rnode : RelFileNode
  pub backend : ℕ

pub record RelidCacheEntry : Type 0 where
  pub relfilenode : Oid
  pub relid : Oid

-- Both tables are reported through active_tables_map_last_overflow_report.
pub record RelationCaches : Type 0 where
  pub relation_cache : Htab Oid RelationCacheEntry
  pub relid_cache : Htab Oid RelidCacheEntry
  pub last_overflow_report : ℕ

-- The part of remove_cache_entry for a valid relid.
unfoldable pub remove_by_relid : Oid → RelationCaches → RelationCaches
remove_by_relid relid c = elim (find relid c.relation_cache) [
  | none ↦ c
  | some e ↦ record c {
    relid_cache = remove e.rnode.rel_node c.relid_cache;
    relation_cache = remove relid c.relation_cache;
  }
]

-- The part of remove_cache_entry for a valid relfilenode.
unfoldable pub remove_by_relfilenode : Oid → RelationCaches → RelationCaches
remove_by_relfilenode relfilenode c = elim (find relfilenode c.relid_cache) [
  | none ↦ c
  | some e ↦ record c {
    relation_cache = remove e.relid c.relation_cache;
    relid_cache = remove relfilenode c.relid_cache;
  }
]

unfoldable pub remove_cache_entry : Oid → Oid → RelationCaches → RelationCaches
remove_cache_entry relid relfilenode c =
    let c' = if oid_is_valid relid then remove_by_relid relid c else c in
    if oid_is_valid relfilenode then remove_by_relfilenode relfilenode c' else c'

unfoldable pub get_uncommitted_table_relid : Oid → RelationCaches → Oid
get_uncommitted_table_relid relfilenode c = elim (find relfilenode c.relid_cache) [
  | none ↦ invalid_oid
  | some e ↦ e.relid
]

-- `relid_by_relfilenode` is PostgreSQL's RelidByRelfilenode, which sees committed relations only.
unfoldable pub get_relid_by_relfilenode :
    (Oid → Oid → Oid) → RelFileNode → RelationCaches → Oid × RelationCaches
get_relid_by_relfilenode relid_by_relfilenode node c =
    let relid = relid_by_relfilenode node.spc_node node.rel_node in
    if oid_is_valid relid
    then (relid, remove_cache_entry invalid_oid node.rel_node c)
    else (get_uncommitted_table_relid node.rel_node c, c)
