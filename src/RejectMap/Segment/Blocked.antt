-- ===== src/RejectMap/Segment/Blocked.antt =====
-- The passes of refresh_rejectmap over the active relations, and the relation cache they rely on.
use diskquota.Prelude.{
  ◌∷◌, [], Bool, List, Option, none, some, true, ◌≡◌, ◌≢◌, inl, inr, arith, All, refl, nat_eq,
  Bool-cases, Option-cases, IsAmong, ap, ◌∙◌, subst, sym, eqb,
}
use diskquota.RejectEntry.{reject_entry_has_eq, RejectMapEntry, class_file}
use diskquota.Htab.{Htab, find}
use diskquota.RejectMap.Segment.{
  SegmentRejectMap, AuxRelations, block_cached, block_uncommitted, block_committed, block_active,
  block_actives, block_file, first_blocking, related_oids, file_key, block_oids,
}
use diskquota.Catalog.{Env, Oid, ClassTuple, oid_is_valid, tablespace_or_default}
use diskquota.RelationCache.{RelationCacheEntry}
use diskquota.RejectMap.Segment.Laws.{
  IsIn, block_cached-grows, block_oids-grows, first_blocking-none, block_oids-IsIn,
}
use diskquota.QuotaType.{QuotaType}
use diskquota.RejectMap.{prepare_rejectmap_search_key, quota_types}
use diskquota.RejectMap.Checks.{every_type}

-- Each auxiliary relation that an entry names is itself in the cache.
abbrev pub IsClosed : Htab Oid RelationCacheEntry → Type 0
IsClosed cache =
    (r : Oid) (e : RelationCacheEntry)
    → find r cache ≡ some e
    → All (λ a. find a cache ≢ none) e.auxrel_oid

-- The key under which a quota of a type blocks a relation of the catalog.
abbrev pub blocking_key : Env → ClassTuple → QuotaType → RejectMapEntry
blocking_key env c y =
    prepare_rejectmap_search_key env y c.relowner c.relnamespace
      (tablespace_or_default env c.reltablespace)

some_injective : {a b : SegmentRejectMap} → some a ≡ some b → a ≡ b
some_injective p = ground (arith, p)

-- A pass yields a map, and the keys that were in the map are in it.
abbrev pub Grows : SegmentRejectMap → Option SegmentRejectMap → Type 0
Grows m r = (m' : SegmentRejectMap) × (r ≡ some m') × ((k : RejectMapEntry) → IsIn k m → IsIn k m')

module _ (cache : Htab Oid RelationCacheEntry) where
  -- The variable points at an entry of the cache.
  abbrev IsCached : Option RelationCacheEntry → Type 0
  IsCached o = (e : RelationCacheEntry) × (o ≡ some e) × ((r : Oid) × (find r cache ≡ some e))

  block_cached-IsCached :
      (key : RejectMapEntry) (mark : Bool) (oids : List Oid) (o : Option RelationCacheEntry)
      (m : SegmentRejectMap)
      → All (λ a. find a cache ≢ none) oids
      → IsCached o
      → IsCached (block_cached cache key mark oids (o, m)).0
  unfolding block_cached
  block_cached-IsCached key mark [] o m a c = c
  block_cached-IsCached key mark (oid ∷ oids) o m a c = elim (Option-cases (find oid cache)) [
    | inl h ↦ elim (a.0 h) [ ]
    | inr (e, h) ↦
        rw (h, block_cached)
          (block_cached-IsCached key mark oids (some e) (block_file key mark e.rnode m) a.1
            (e, refl, (oid, h)))
  ]

  block_uncommitted-Grows :
      (env : Env) (oid : Oid) (e : RelationCacheEntry) (types : List QuotaType)
      (o : Option RelationCacheEntry) (m : SegmentRejectMap)
      → IsClosed cache
      → find oid cache ≢ none
      → IsCached o
      → Grows m (block_uncommitted env cache oid e types (o, m))
  unfolding block_uncommitted
  block_uncommitted-Grows env oid e [] o m closed here c = (m, refl, λ k i. i)
  block_uncommitted-Grows env oid e (y ∷ ys) o m closed here c =
      let key = prepare_rejectmap_search_key env y e.owneroid e.namespaceoid e.rnode.spc_node in
      elim (Option-cases (find key m)) [
        | inl h ↦ rw (h, block_uncommitted) (block_uncommitted-Grows env oid e ys o m closed here c)
        | inr (r, h) ↦
            let (d, p, (a, q)) = c in
            let oids = oid ∷ d.auxrel_oid in
            let s = block_cached cache key r.segexceeded oids (o, m) in
            let next = block_cached-IsCached key r.segexceeded oids o m (here, closed a d q) c in
            let (m', eq, up) = block_uncommitted-Grows env oid e ys s.0 s.1 closed here next in
            rw (h, p, block_uncommitted)
              (m', eq, λ k i. up k (block_cached-grows key r.segexceeded cache k oids o m i))
      ]

module _ (env : Env) (aux : AuxRelations) (cache : Htab Oid RelationCacheEntry)
    (closed : IsClosed cache) where
  block_committed-grows :
      (oid : Oid) (c : ClassTuple) (m : SegmentRejectMap) (k : RejectMapEntry)
      → IsIn k m
      → IsIn k (block_committed env aux oid c m)
  unfolding block_committed
  block_committed-grows oid c m k i =
      elim (Option-cases (
        first_blocking env c.relowner c.relnamespace (tablespace_or_default env c.reltablespace)
          quota_types m)) [
            | inl h ↦ rw (h, block_committed) i
            | inr ((key, r), h) ↦
                rw (h, block_committed)
                  (block_oids-grows key r.segexceeded env k (related_oids aux oid c) m i)
          ]

  block_active-Grows :
      (oid : Oid) (m : SegmentRejectMap) → Grows m (block_active env aux cache oid m)
  unfolding block_active
  block_active-Grows oid m = elim (Bool-cases (oid_is_valid oid)) [
    | inr invalid ↦ rw (invalid, block_active) (m, refl, λ k i. i)
    | inl valid ↦ elim (Option-cases (env.pg_class oid)) [
      | inr (c, h) ↦
          rw (valid, h) (block_committed env aux oid c m, refl, block_committed-grows oid c m)
      | inl h ↦ elim (Option-cases (find oid cache)) [
        | inl p ↦ rw (valid, h, p) (m, refl, λ k i. i)
        | inr (e, p) ↦ elim (Bool-cases (eqb e.rnode.db_node env.my_database_id)) [
          | inr other ↦ rw (valid, h, p, other) (m, refl, λ k i. i)
          | inl own ↦
              rw (valid, h, p, own)
                (block_uncommitted-Grows cache env oid e quota_types (some e) m closed
                  (λ z. ground (arith, z, p)) (e, refl, (oid, p)))
        ]
      ]
    ]
  ]

  block_actives_step :
      (oid : Oid) (oids : List (Option Oid)) (m m' : SegmentRejectMap)
      → block_active env aux cache oid m ≡ some m'
      → block_actives env aux cache (some oid ∷ oids) m ≡ block_actives env aux cache oids m'
  unfolding block_actives
  block_actives_step oid oids m m' p =
      ap (λ r. elim r [ none ↦ none | some x ↦ block_actives env aux cache oids x ]) p

  pub block_actives-Grows :
      (oids : List (Option Oid)) (m : SegmentRejectMap)
      → Grows m (block_actives env aux cache oids m)
  unfolding block_actives
  block_actives-Grows [] m = (m, refl, λ k i. i)
  block_actives-Grows (none ∷ oids) m = block_actives-Grows oids m
  block_actives-Grows (some oid ∷ oids) m =
      let (m', p, up) = block_active-Grows oid m in
      let (m'', q, up') = block_actives-Grows oids m' in
      (m'', block_actives_step oid oids m m' p ∙ q, λ k i. up' k (up k i))

  -- A round for a relation of the catalog that some quota blocks.
  block_active-IsIn :
      (oid o : Oid) (c d : ClassTuple) (y : QuotaType) (m m' : SegmentRejectMap)
      → oid_is_valid oid ≡ true
      → env.pg_class oid ≡ some c
      → IsIn (blocking_key env c y) m
      → IsAmong o (related_oids aux oid c)
      → env.pg_class o ≡ some d
      → block_active env aux cache oid m ≡ some m'
      → IsIn (file_key (class_file env d)) m'
  unfolding block_active block_committed
  block_active-IsIn oid o c d y m m' valid h i a h' p =
      elim (Option-cases (
        first_blocking env c.relowner c.relnamespace (tablespace_or_default env c.reltablespace)
          quota_types m)) [
            | inl b ↦
                elim (i (
                  every_type (λ z. find (blocking_key env c z) m ≡ none)
                    (first_blocking-none env c.relowner c.relnamespace
                      (tablespace_or_default env c.reltablespace) m quota_types b)
                    y)) [ ]
            | inr ((key, r), b) ↦
                let q : m' ≡ block_oids env key r.segexceeded (related_oids aux oid c) m =
                  ground (arith, valid, h, b, p) in
                subst (λ x. IsIn (file_key (class_file env d)) x) (sym q)
                  (block_oids-IsIn key r.segexceeded env o d (related_oids aux oid c) m h' a)
          ]

  pub block_actives-IsIn :
      (oid o : Oid) (c d : ClassTuple) (y : QuotaType) (oids : List (Option Oid))
      (m m' : SegmentRejectMap)
      → IsAmong (some oid) oids
      → oid_is_valid oid ≡ true
      → env.pg_class oid ≡ some c
      → IsIn (blocking_key env c y) m
      → IsAmong o (related_oids aux oid c)
      → env.pg_class o ≡ some d
      → block_actives env aux cache oids m ≡ some m'
      → IsIn (file_key (class_file env d)) m'
  unfolding block_actives
  block_actives-IsIn oid o c d y [] m m' w valid h i a h' p = elim w [ ]
  block_actives-IsIn oid o c d y (none ∷ oids) m m' (inl same) valid h i a h' p =
      ground (arith, same)
  block_actives-IsIn oid o c d y (none ∷ oids) m m' (inr later) valid h i a h' p =
      block_actives-IsIn oid o c d y oids m m' later valid h i a h' p
  block_actives-IsIn oid o c d y (some x ∷ oids) m m' (inr later) valid h i a h' p =
      let (n, q, up) = block_active-Grows x m in
      block_actives-IsIn oid o c d y oids n m' later valid h (up (blocking_key env c y) i) a h'
        (sym (block_actives_step x oids m n q) ∙ p)
  block_actives-IsIn oid o c d y (some x ∷ oids) m m' (inl same) valid h i a h' p =
      let x_eq : x ≡ oid = ground (arith, same) in
      let (n, q, up) = block_active-Grows x m in
      let (n', q', up') = block_actives-Grows oids n in
      let n_eq : n' ≡ m' = some_injective (sym q' ∙ (sym (block_actives_step x oids m n q) ∙ p)) in
      let entered =
        block_active-IsIn oid o c d y m n valid h i a h'
          (subst (λ z. block_active env aux cache z m ≡ some n) x_eq q) in
      subst (λ z. IsIn (file_key (class_file env d)) z) n_eq
        (up' (file_key (class_file env d)) entered)
