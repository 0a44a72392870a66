-- ===== src/RejectMap/Checks.antt =====
-- What the checks of a statement answer, as a condition on the reject map.
use diskquota.QuotaType.{
  namespace_quota, role_quota, namespace_tablespace_quota, role_tablespace_quota, tablespace_quota,
  QuotaType,
}
use diskquota.Prelude.{
  refl, true, [], ◌∷◌, inl, inr, none, some, All, List, ◌≡◌, Option-cases, arith, ◌↔◌,
  if◌then◌else◌, eqb, eqb_iff, ◌&&◌, ◌||◌, Bool-cases, ◌∙◌,
}
use diskquota.RejectMap.{
  first_rejection, check_rejectmap_by_reloid, invalidate_database_rejectmap,
  prepare_rejectmap_search_key, check_rejectmap_by_relfilenode, quota_check_common, check_relations,
  quota_check_exec_check_rt_perms, get_rel_owner_schema_tablespace, quota_types, GlobalRejectMap,
  Session, RangeTblEntry,
}
use diskquota.Catalog.{Env, Oid, ClassTuple, tablespace_or_default}
use diskquota.RejectEntry.{RejectMapEntry, RelFileNode, no_reject_entry, reject_entry_has_eq}
use diskquota.Htab.{find}
use diskquota.Htab.Keys.{find-remove_if}

-- A lookup finds an entry for no type exactly if the loop over the types ends without an error.
first_rejection-none :
    (env : Env) (o n t : Oid) (types : List QuotaType) (g : GlobalRejectMap)
    → first_rejection env o n t types g ≡ none
    → All (λ y. find (prepare_rejectmap_search_key env y o n t) g.map ≡ none) types
unfolding first_rejection
first_rejection-none env o n t [] g h = tt
first_rejection-none env o n t (y ∷ ys) g h =
    elim (Option-cases (find (prepare_rejectmap_search_key env y o n t) g.map)) [
      | inl p ↦ (p, first_rejection-none env o n t ys g (ground (arith, p)))
      | inr (e, p) ↦ ground (arith, p)
    ]

none-first_rejection :
    (env : Env) (o n t : Oid) (types : List QuotaType) (g : GlobalRejectMap)
    → ((y : QuotaType) → find (prepare_rejectmap_search_key env y o n t) g.map ≡ none)
    → first_rejection env o n t types g ≡ none
unfolding first_rejection
none-first_rejection env o n t [] g h = refl
none-first_rejection env o n t (y ∷ ys) g h =
    ground (arith, h y, none-first_rejection env o n t ys g h)

pub every_type : (P : QuotaType → Type 0) → All P quota_types → (y : QuotaType) → P y
every_type P a namespace_quota = a.0
every_type P a role_quota = a.1.0
every_type P a namespace_tablespace_quota = a.1.1.0
every_type P a role_tablespace_quota = a.1.1.1.0
every_type P a tablespace_quota = a.1.1.1.1.0

check_rejectmap_by_reloid-class :
    (env : Env) (oid : Oid) (g : GlobalRejectMap) (c : ClassTuple)
    → env.pg_class oid ≡ some c
    → check_rejectmap_by_reloid env oid g
      ≡ first_rejection env c.relowner c.relnamespace
          (tablespace_or_default env c.reltablespace)
          quota_types
          g
unfolding check_rejectmap_by_reloid get_rel_owner_schema_tablespace
check_rejectmap_by_reloid-class env oid g c h = ground (arith, h)

-- A relation of the catalog passes the check exactly if none of the five quotas of its owner,
-- schema and tablespace is in the reject map.
pub check_rejectmap_by_reloid-none :
    (env : Env) (oid : Oid) (g : GlobalRejectMap) (c : ClassTuple)
    → env.pg_class oid ≡ some c
    → (check_rejectmap_by_reloid env oid g ≡ none) ↔ (
        (y : QuotaType)
        → find
            (prepare_rejectmap_search_key env y c.relowner c.relnamespace
              (tablespace_or_default env c.reltablespace))
            g.map
          ≡ none)
unfolding check_rejectmap_by_reloid get_rel_owner_schema_tablespace
check_rejectmap_by_reloid-none env oid g c h =
    let t = tablespace_or_default env c.reltablespace in
    rw (check_rejectmap_by_reloid-class env oid g c h) (
      λ p.
          every_type
            (λ y.
              find (prepare_rejectmap_search_key env y c.relowner c.relnamespace t) g.map ≡ none)
            (first_rejection-none env c.relowner c.relnamespace t quota_types g p),
      none-first_rejection env c.relowner c.relnamespace t quota_types g,
    )

-- A pass that drops a database's entries leaves no key of that database.
find-invalidate :
    (d : Oid) (k : RejectMapEntry) (g : GlobalRejectMap)
    → find k (invalidate_database_rejectmap d g).map
      ≡ (if eqb k.databaseoid d || eqb k.relfilenode.db_node d then none else find k g.map)
unfolding invalidate_database_rejectmap
find-invalidate d k g =
    find-remove_if (λ j. eqb j.databaseoid d || eqb j.relfilenode.db_node d) k g.map

find-invalidate_own :
    (env : Env) (y : QuotaType) (o n t : Oid) (g : GlobalRejectMap)
    → find
        (prepare_rejectmap_search_key env y o n t)
        (invalidate_database_rejectmap env.my_database_id g).map
      ≡ none
unfolding prepare_rejectmap_search_key
find-invalidate_own env y o n t g = ground (
  arith,
  find-invalidate env.my_database_id (prepare_rejectmap_search_key env y o n t) g,
  eqb_iff env.my_database_id env.my_database_id,
)

check_rejectmap_by_reloid-invalidate :
    (env : Env) (oid : Oid) (g : GlobalRejectMap)
    → check_rejectmap_by_reloid env oid (invalidate_database_rejectmap env.my_database_id g) ≡ none
unfolding check_rejectmap_by_reloid get_rel_owner_schema_tablespace
check_rejectmap_by_reloid-invalidate env oid g = elim (Option-cases (env.pg_class oid)) [
  | inl h ↦ ground (arith, h)
  | inr (c, h) ↦
      let g' = invalidate_database_rejectmap env.my_database_id g in
      let t = tablespace_or_default env c.reltablespace in
      check_rejectmap_by_reloid-class env oid g' c h
      ∙ none-first_rejection env c.relowner c.relnamespace t quota_types g'
          (λ y. find-invalidate_own env y c.relowner c.relnamespace t g)
]

check_rejectmap_by_relfilenode-invalidate :
    (d : Oid) (f : RelFileNode) (g : GlobalRejectMap)
    → f.db_node ≡ d
    → check_rejectmap_by_relfilenode f (invalidate_database_rejectmap d g) ≡ none
unfolding check_rejectmap_by_relfilenode
check_rejectmap_by_relfilenode-invalidate d f g p =
    ground
      (arith, find-invalidate d (record no_reject_entry { relfilenode = f }) g, eqb_iff f.db_node d)

-- After a database's entries are dropped no check in that database fails, neither of a relation
-- nor of a file of the database.
pub quota_check_common-invalidate :
    (env : Env) (s : Session) (oid : Oid) (f : RelFileNode) (g : GlobalRejectMap)
    → f.db_node ≡ env.my_database_id
    → quota_check_common env s oid (some f) (invalidate_database_rejectmap env.my_database_id g)
      ≡ none
unfolding quota_check_common
quota_check_common-invalidate env s oid f g p = ground (
  arith,
  check_rejectmap_by_reloid-invalidate env oid g,
  check_rejectmap_by_relfilenode-invalidate env.my_database_id f g p,
)

check_relations-none :
    (env : Env) (s : Session) (oids : List Oid) (g : GlobalRejectMap)
    → (check_relations env s oids g ≡ none)
      ↔ All (λ o. quota_check_common env s o none g ≡ none) oids
unfolding check_relations
check_relations-none env s [] g = (λ _. tt, λ _. refl)
check_relations-none env s (o ∷ os) g =
    let rest = check_relations-none env s os g in
    elim (Option-cases (quota_check_common env s o none g)) [
      | inl p ↦ (λ h. (p, rest.0 (ground (arith, p))), λ a. ground (arith, p, rest.1 a.1))
      | inr (e, p) ↦ (λ h. ground (arith, p), λ a. ground (arith, p, a.0))
    ]

-- A statement passes exactly if, for each relation that it inserts into or updates, the checks of
-- the relation and of all its indexes pass.
pub quota_check_exec_check_rt_perms-none :
    (env : Env) (s : Session) (index_list : Oid → List Oid) (rtes : List RangeTblEntry)
    (g : GlobalRejectMap)
    → (quota_check_exec_check_rt_perms env s index_list rtes g ≡ none)
      ↔ All
          (λ r.
            (r.is_relation && (r.acl_insert || r.acl_update)) ≡ true
            → All (λ o. quota_check_common env s o none g ≡ none) (r.relid ∷ index_list r.relid))
          rtes
unfolding quota_check_exec_check_rt_perms
quota_check_exec_check_rt_perms-none env s index_list [] g = (λ _. tt, λ _. refl)
quota_check_exec_check_rt_perms-none env s index_list (r ∷ rs) g =
    let rest = quota_check_exec_check_rt_perms-none env s index_list rs g in
    let own = check_relations-none env s (r.relid ∷ index_list r.relid) g in
    elim (Bool-cases (r.is_relation && (r.acl_insert || r.acl_update))) [
      | inr skipped ↦ (λ h. (λ on. cc, rest.0 (ground arith)), λ a. ground (arith, rest.1 a.1))
      | inl checked ↦ (
        λ h. (λ on. own.0 (ground arith), rest.0 (ground arith)),
        λ a. ground (arith, rest.1 a.1, own.1 (a.0 checked)),
      )
    ]
