-- ===== src/RelationCache/Update/Committed.antt =====
-- The two caches after remove_committed_relation_from_cache of src/relation_cache.c.
use diskquota.Prelude.{
  [], Option, if◌then◌else◌, false, none, some, true, ◌≡◌, ◌≢◌, inl, inr, arith, refl, nat_eq,
  Bool-cases, subst, sym, ◌∙◌, ap, eqb, All-imp, ◌&&◌,
}
use diskquota.RelationCache.Update.{
  copy_own_relations, Server, remove_committed, remove_committed_relation_from_cache,
}
use diskquota.Catalog.{Oid, Env, oid_is_valid}
use diskquota.Htab.{find}
use diskquota.RelationCache.{RelationCacheEntry, RelationCaches}
use diskquota.Htab.Keys.{IsDistinct, members_lem}
use diskquota.RelationCache.Laws.{IsInverse}
use diskquota.RelationCache.Update.Removal.{
  is_committed, remove_committed-IsInverse, remove_committed-gone, remove_committed-subset,
  remove_committed-kept,
}
use diskquota.RelationCache.Update.Copy.{IsKeyed, copy_own_relations-All, copy_own_relations-found}

some_eq : (x e : RelationCacheEntry) → some x ≡ some e → x ≡ e
some_eq x e p = ground (arith, p)

absent :
    (e : RelationCacheEntry) (o : Option RelationCacheEntry)
    → o ≢ some e
    → ((x : RelationCacheEntry) → o ≡ some x → x ≡ e)
    → o ≡ none
absent e none h f = refl
absent e (some x) h f = elim (h (ap (λ y. some y) (f x refl))) [ ]

-- A committed entry of the session's database shares its file with no entry that is to stay.
apart :
    (env : Env) (server : Server) (c : RelationCaches) (k r : Oid) (x e : RelationCacheEntry)
    → IsInverse c
    → find k c.relation_cache ≡ some x
    → eqb x.rnode.db_node env.my_database_id ≡ true
    → find r c.relation_cache ≡ some e
    → is_committed server x ≡ true
    → (eqb e.rnode.db_node env.my_database_id && is_committed server e) ≡ false
    → x.rnode.rel_node ≢ e.rnode.rel_node
apart env server c k r x e inv hx own he on stays same =
    let at_x = (inv k x.rnode.rel_node).0 (ground (arith, hx)) in
    let at_e = (inv r e.rnode.rel_node).0 (ground (arith, he)) in
    let k_eq : k ≡ r = ground (arith, at_x, at_e, same) in
    let found : find r c.relation_cache ≡ some x =
      subst (λ z. find z c.relation_cache ≡ some x) k_eq hx in
    let x_eq : x ≡ e = some_eq x e (sym found ∙ he) in
    ground (
      arith,
      stays,
      subst (λ z. eqb z.rnode.db_node env.my_database_id ≡ true) x_eq own,
      subst (λ z. is_committed server z ≡ true) x_eq on,
    )

-- If the entries stand under their relations' oids, each once, and the two caches are inverse to each
-- other, then they are inverse afterwards, and an entry with a valid file stays exactly if it is of
-- another database or its file belongs to no committed relation.
pub remove_committed_relation_from_cache-find :
    (env : Env) (server : Server) (c : RelationCaches)
    → IsKeyed c.relation_cache
    → IsDistinct c.relation_cache
    → IsInverse c
    → IsInverse (remove_committed_relation_from_cache env server c)
      × ((r : Oid) (e : RelationCacheEntry)
          → find r c.relation_cache ≡ some e
          → oid_is_valid e.rnode.rel_node ≡ true
          → find r (remove_committed_relation_from_cache env server c).relation_cache ≡ (
              if eqb e.rnode.db_node env.my_database_id && is_committed server e
              then none
              else some e))
unfolding remove_committed_relation_from_cache
remove_committed_relation_from_cache-find env server c keyed distinct inv =
    let local = copy_own_relations env c.relation_cache [] in
    let from_cache = λ (p : Oid × RelationCacheEntry). find p.0 c.relation_cache ≡ some p.1 in
    let members =
      copy_own_relations-All env from_cache c.relation_cache [] keyed
        (members_lem c.relation_cache distinct) tt in
    (
      remove_committed-IsInverse server local c inv,
      λ r e h valid.
          elim (Bool-cases (eqb e.rnode.db_node env.my_database_id && is_committed server e)) [
            | inl goes ↦
                let own : e.rnode.db_node ≡ env.my_database_id = ground (arith, goes) in
                let f = copy_own_relations-found env r e c.relation_cache [] keyed distinct h own in
                let gone =
                  remove_committed-gone server r e local c inv f (ground (arith, goes)) valid in
                rw goes (
                  absent e (find r (remove_committed server local c).relation_cache) gone
                    (λ x p. some_eq x e (sym (remove_committed-subset server r x local c p) ∙ h)))
            | inr stays ↦ rw stays (
                remove_committed-kept server r e local c inv h (
                  All-imp (λ p. from_cache p × (eqb p.1.rnode.db_node env.my_database_id ≡ true))
                    (λ p. is_committed server p.1 ≡ true → p.1.rnode.rel_node ≢ e.rnode.rel_node)
                    local
                    (λ p q on same. apart env server c p.0 r p.1 e inv q.0 q.1 h on stays same)
                    members))
          ],
    )
