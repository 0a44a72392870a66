-- ===== src/RelationCache/Update/Copy.antt =====
-- The local copy that remove_committed_relation_from_cache makes of the relation cache.
use diskquota.Prelude.{
  ◌∷◌, [], if◌then◌else◌, none, some, true, ◌≡◌, inl, inr, arith, refl, nat_eq, Bool-cases, subst,
  sym, ◌∙◌, eqb_iff, eqb, All,
}
use diskquota.Htab.{Htab, find, put}
use diskquota.RelationCache.Update.{copy_own_relations}
use diskquota.Catalog.{Oid, Env}
use diskquota.RelationCache.{RelationCacheEntry}
use diskquota.Htab.Keys.{IsDistinct}
use diskquota.Htab.Laws.{find-put}

-- Each entry stands under its relation's oid.
abbrev pub IsKeyed : Htab Oid RelationCacheEntry → Type 0
IsKeyed [] = Unit
IsKeyed ((k, e) ∷ m) = (e.relid ≡ k) × IsKeyed m

copy_own_relations-absent :
    (env : Env) (r : Oid) (m local : Htab Oid RelationCacheEntry)
    → IsKeyed m
    → find r m ≡ none
    → find r (copy_own_relations env m local) ≡ find r local
unfolding copy_own_relations find
copy_own_relations-absent env r [] local k h = refl
copy_own_relations-absent env r ((i, e) ∷ m) local k h =
    elim (Bool-cases (eqb e.rnode.db_node env.my_database_id)) [
      | inr other ↦
          rw (other, copy_own_relations)
            (copy_own_relations-absent env r m local k.1 (ground (arith, h)))
      | inl own ↦
          rw (own, copy_own_relations)
            (copy_own_relations-absent env r m (put e.relid e local) k.1 (ground (arith, h))
              ∙ ground (arith, find-put e.relid r e local, k.0, h))
    ]

pub copy_own_relations-found :
    (env : Env) (r : Oid) (e : RelationCacheEntry) (m local : Htab Oid RelationCacheEntry)
    → IsKeyed m
    → IsDistinct m
    → find r m ≡ some e
    → e.rnode.db_node ≡ env.my_database_id
    → find r (copy_own_relations env m local) ≡ some e
unfolding copy_own_relations find
copy_own_relations-found env r e [] local k d h own = ground (arith, h)
copy_own_relations-found env r e ((i, x) ∷ m) local k d h own = elim (Bool-cases (eqb i r)) [
  | inl same ↦
      let i_eq : i ≡ r = (eqb_iff i r).0 same in
      let x_eq : x ≡ e = ground (arith, h, same) in
      let is_own : eqb x.rnode.db_node env.my_database_id ≡ true =
        ground (arith, x_eq, own, eqb_iff x.rnode.db_node env.my_database_id) in
      rw (is_own, copy_own_relations)
        (copy_own_relations-absent env r m (put x.relid x local) k.1
            (subst (λ z. find z m ≡ none) i_eq d.0)
          ∙ ground (arith, find-put x.relid r x local, k.0, same, x_eq))
  | inr other ↦
      copy_own_relations-found env r e m
        (if eqb x.rnode.db_node env.my_database_id then put x.relid x local else local) k.1 d.1
        (ground (arith, h, other)) own
]

All-put :
    (P : Oid × RelationCacheEntry → Type 0) (k : Oid) (e : RelationCacheEntry)
    (m : Htab Oid RelationCacheEntry)
    → P (k, e)
    → All P m
    → All P (put k e m)
unfolding put
All-put P k e [] h a = (h, tt)
All-put P k e ((i, x) ∷ m) h a = elim (Bool-cases (eqb i k)) [
  | inl same ↦ rw (same, put) (h, a.1)
  | inr other ↦ rw (other, put) (a.0, All-put P k e m h a.1)
]

-- The members of the local copy come from the cache, and are of the session's database.
pub copy_own_relations-All :
    (env : Env) (P : Oid × RelationCacheEntry → Type 0) (m local : Htab Oid RelationCacheEntry)
    → IsKeyed m
    → All P m
    → All (λ p. P p × (eqb p.1.rnode.db_node env.my_database_id ≡ true)) local
    → All
        (λ p. P p × (eqb p.1.rnode.db_node env.my_database_id ≡ true))
        (copy_own_relations env m local)
unfolding copy_own_relations
copy_own_relations-All env P [] local k a b = b
copy_own_relations-All env P ((i, e) ∷ m) local k a b =
    elim (Bool-cases (eqb e.rnode.db_node env.my_database_id)) [
      | inr other ↦ rw (other, copy_own_relations) (copy_own_relations-All env P m local k.1 a.1 b)
      | inl own ↦
          rw (own, copy_own_relations)
            (copy_own_relations-All env P m (put e.relid e local) k.1 a.1 (
              All-put (λ p. P p × (eqb p.1.rnode.db_node env.my_database_id ≡ true)) e.relid e local
                (subst (λ z. P (z, e)) (sym k.0) a.0, own) b))
    ]
