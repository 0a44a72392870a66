-- ===== src/RelationCache/Update/Removal.antt =====
-- The removals of remove_committed_relation_from_cache, one by one.
use diskquota.Prelude.{
  ◌∷◌, [], Bool, if◌then◌else◌, some, true, ◌≡◌, ◌≢◌, inl, inr, arith, refl, nat_eq, Bool-cases,
  Option-cases, subst, sym, eqb_iff, eqb, All,
}
use diskquota.Htab.{Htab, find}
use diskquota.RelationCache.Update.{Server, remove_committed}
use diskquota.RelationCache.{
  remove_by_relfilenode, remove_cache_entry, RelationCacheEntry, RelationCaches,
}
use diskquota.Catalog.{Oid, oid_is_valid, invalid_oid}
use diskquota.Htab.Laws.{find-remove}
use diskquota.RelationCache.Laws.{IsInverse, remove_cache_entry-IsInverse}

-- One removal by file takes entries out and adds none.
remove_by_relfilenode-subset :
    (g r : Oid) (e : RelationCacheEntry) (c : RelationCaches)
    → find r (remove_by_relfilenode g c).relation_cache ≡ some e
    → find r c.relation_cache ≡ some e
unfolding remove_by_relfilenode
remove_by_relfilenode-subset g r e c h = elim (Option-cases (find g c.relid_cache)) [
  | inl p ↦ ground (arith, h, p)
  | inr (d, p) ↦ ground (arith, h, p, find-remove d.relid r c.relation_cache)
]

remove_cache_entry-subset :
    (g r : Oid) (e : RelationCacheEntry) (c : RelationCaches)
    → find r (remove_cache_entry invalid_oid g c).relation_cache ≡ some e
    → find r c.relation_cache ≡ some e
unfolding remove_cache_entry
remove_cache_entry-subset g r e c h = elim (Bool-cases (oid_is_valid g)) [
  | inl valid ↦ remove_by_relfilenode-subset g r e c (ground (arith, h, valid))
  | inr invalid ↦ ground (arith, h, invalid)
]

module _ (server : Server) where
  abbrev pub is_committed : RelationCacheEntry → Bool
  is_committed e = oid_is_valid (server.relid_by_relfilenode e.rnode.spc_node e.rnode.rel_node)

  step : RelationCacheEntry → RelationCaches → RelationCaches
  step e c = if is_committed e then remove_cache_entry invalid_oid e.rnode.rel_node c else c

  step-subset :
      (r : Oid) (e x : RelationCacheEntry) (c : RelationCaches)
      → find r (step x c).relation_cache ≡ some e
      → find r c.relation_cache ≡ some e
  unfolding step
  step-subset r e x c h = elim (Bool-cases (is_committed x)) [
    | inl on ↦ remove_cache_entry-subset x.rnode.rel_node r e c (ground (arith, h, on))
    | inr off ↦ ground (arith, h, off)
  ]

  step-IsInverse :
      (x : RelationCacheEntry) (c : RelationCaches) → IsInverse c → IsInverse (step x c)
  unfolding step
  step-IsInverse x c inv = elim (Bool-cases (is_committed x)) [
    | inl on ↦ rw (on, step) ((remove_cache_entry-IsInverse invalid_oid x.rnode.rel_node c inv).0)
    | inr off ↦ rw (off, step) inv
  ]

  -- The relation of a committed file goes.
  step-gone :
      (r : Oid) (e : RelationCacheEntry) (c : RelationCaches)
      → IsInverse c
      → is_committed e ≡ true
      → oid_is_valid e.rnode.rel_node ≡ true
      → find r (step e c).relation_cache ≢ some e
  unfolding step remove_cache_entry remove_by_relfilenode
  step-gone r e c inv on valid h =
      let before : find r c.relation_cache ≡ some e = step-subset r e e c h in
      let back = (inv r e.rnode.rel_node).0 (ground (arith, before)) in
      ground (arith, on, valid, h, back, find-remove r r c.relation_cache, eqb_iff r r)

  -- A relation with another file stays.
  step-kept :
      (r : Oid) (e x : RelationCacheEntry) (c : RelationCaches)
      → IsInverse c
      → find r c.relation_cache ≡ some e
      → x.rnode.rel_node ≢ e.rnode.rel_node
      → find r (step x c).relation_cache ≡ some e
  unfolding step remove_cache_entry remove_by_relfilenode
  step-kept r e x c inv h other = elim (Option-cases (find x.rnode.rel_node c.relid_cache)) [
    | inl p ↦ ground (arith, h, p)
    | inr (d, p) ↦
        let back = (inv d.relid x.rnode.rel_node).1 (ground (arith, p)) in
        ground (arith, h, p, back, other, find-remove d.relid r c.relation_cache, eqb_iff d.relid r)
  ]

  remove_committed-step :
      (k : Oid) (x : RelationCacheEntry) (m : Htab Oid RelationCacheEntry) (c : RelationCaches)
      → remove_committed server ((k, x) ∷ m) c ≡ remove_committed server m (step x c)
  unfolding remove_committed step
  remove_committed-step k x m c = refl

  pub remove_committed-subset :
      (r : Oid) (e : RelationCacheEntry) (m : Htab Oid RelationCacheEntry) (c : RelationCaches)
      → find r (remove_committed server m c).relation_cache ≡ some e
      → find r c.relation_cache ≡ some e
  unfolding remove_committed
  remove_committed-subset r e [] c h = h
  remove_committed-subset r e ((k, x) ∷ m) c h = step-subset r e x c (
      remove_committed-subset r e m (step x c)
        (subst (λ z. find r z.relation_cache ≡ some e) (remove_committed-step k x m c) h))

  pub remove_committed-IsInverse :
      (m : Htab Oid RelationCacheEntry) (c : RelationCaches)
      → IsInverse c
      → IsInverse (remove_committed server m c)
  unfolding remove_committed
  remove_committed-IsInverse [] c inv = inv
  remove_committed-IsInverse ((k, x) ∷ m) c inv =
      subst (λ z. IsInverse z) (sym (remove_committed-step k x m c))
        (remove_committed-IsInverse m (step x c) (step-IsInverse x c inv))

  pub remove_committed-gone :
      (r : Oid) (e : RelationCacheEntry) (m : Htab Oid RelationCacheEntry) (c : RelationCaches)
      → IsInverse c
      → find r m ≡ some e
      → is_committed e ≡ true
      → oid_is_valid e.rnode.rel_node ≡ true
      → find r (remove_committed server m c).relation_cache ≢ some e
  unfolding remove_committed find
  remove_committed-gone r e [] c inv f on valid h = ground (arith, f)
  remove_committed-gone r e ((k, x) ∷ m) c inv f on valid h =
      let h' = subst (λ z. find r z.relation_cache ≡ some e) (remove_committed-step k x m c) h in
      elim (Bool-cases (eqb k r)) [
        | inl same ↦
            let x_eq : x ≡ e = ground (arith, f, same) in
            step-gone r e c inv on valid (
              subst (λ z. find r (step z c).relation_cache ≡ some e) x_eq
                (remove_committed-subset r e m (step x c) h'))
        | inr other ↦
            remove_committed-gone r e m (step x c) (step-IsInverse x c inv)
              (ground (arith, f, other)) on valid h'
      ]

  pub remove_committed-kept :
      (r : Oid) (e : RelationCacheEntry) (m : Htab Oid RelationCacheEntry) (c : RelationCaches)
      → IsInverse c
      → find r c.relation_cache ≡ some e
      → All (λ p. is_committed p.1 ≡ true → p.1.rnode.rel_node ≢ e.rnode.rel_node) m
      → find r (remove_committed server m c).relation_cache ≡ some e
  unfolding remove_committed step
  remove_committed-kept r e [] c inv h a = h
  remove_committed-kept r e ((k, x) ∷ m) c inv h a =
      subst (λ z. find r z.relation_cache ≡ some e) (sym (remove_committed-step k x m c))
        (remove_committed-kept r e m (step x c) (step-IsInverse x c inv)
          (elim (Bool-cases (is_committed x)) [
            | inl on ↦ step-kept r e x c inv h (a.0 on)
            | inr off ↦ rw (off, step) h
          ])
          a.1)
