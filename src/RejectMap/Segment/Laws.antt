-- ===== src/RejectMap/Segment/Laws.antt =====
-- What the passes of refresh_rejectmap over the dispatched entries and the active relations leave in
-- the local map.
use diskquota.Prelude.{
  ◌∷◌, [], Bool, List, Option, none, some, ◌≡◌, ◌≢◌, inl, inr, arith, All, IsAmong, subst, sym,
  nat_eq, Option-cases,
}
use diskquota.RejectEntry.{
  reject_entry_has_eq, RejectMapEntry, GlobalRejectMapEntry, RelFileNode, class_file,
}
use diskquota.RejectMap.Segment.{
  first_blocking, SegmentRejectMap, block_file, block_oids, block_cached, file_key,
}
use diskquota.Catalog.{Env, Oid, ClassTuple}
use diskquota.Htab.{find, put, Htab}
use diskquota.Htab.Laws.{find-put, ==_refl}
use diskquota.RelationCache.{RelationCacheEntry}
use diskquota.QuotaType.{QuotaType}
use diskquota.RejectMap.{prepare_rejectmap_search_key}

-- A key is in the local map.
abbrev pub IsIn : RejectMapEntry → SegmentRejectMap → Type 0
IsIn k m = find k m ≢ none

pub IsIn-put :
    (k j : RejectMapEntry) (v : GlobalRejectMapEntry) (m : SegmentRejectMap)
    → IsIn k m
    → IsIn k (put j v m)
IsIn-put k j v m h p = ground (arith, h, find-put j k v m)

pub IsIn-put_own :
    (k : RejectMapEntry) (v : GlobalRejectMapEntry) (m : SegmentRejectMap) → IsIn k (put k v m)
IsIn-put_own k v m p = ground (arith, p, find-put k k v m, ==_refl k)

module _ (key : RejectMapEntry) (mark : Bool) where
  pub block_file-IsIn :
      (f : RelFileNode) (m : SegmentRejectMap) → IsIn (file_key f) (block_file key mark f m)
  unfolding block_file
  block_file-IsIn f m = elim (Option-cases (find (file_key f) m)) [
    | inl h ↦ λ p. ground (
      arith,
      h,
      find-put (file_key f) (file_key f)
          (record { keyitem = file_key f; segexceeded = mark; auxblockinfo = key }) m,
      ==_refl (file_key f),
    )
    | inr (r, h) ↦ λ p. ground (arith, h)
  ]

  pub block_file-grows :
      (k : RejectMapEntry) (f : RelFileNode) (m : SegmentRejectMap)
      → IsIn k m
      → IsIn k (block_file key mark f m)
  unfolding block_file
  block_file-grows k f m i p = elim (Option-cases (find (file_key f) m)) [
    | inl h ↦
        IsIn-put k (file_key f)
          (record { keyitem = file_key f; segexceeded = mark; auxblockinfo = key }) m i
          (ground (arith, h, p))
    | inr (r, h) ↦ i (ground (arith, h, p))
  ]

  pub block_oids-grows :
      (env : Env) (k : RejectMapEntry) (oids : List Oid) (m : SegmentRejectMap)
      → IsIn k m
      → IsIn k (block_oids env key mark oids m)
  unfolding block_oids
  block_oids-grows env k [] m i = i
  block_oids-grows env k (oid ∷ oids) m i = elim (Option-cases (env.pg_class oid)) [
    | inl h ↦ rw h (block_oids-grows env k oids m i)
    | inr (c, h) ↦ rw h (
        block_oids-grows env k oids (block_file key mark (class_file env c) m)
          (block_file-grows k (class_file env c) m i))
  ]

  -- The file of a listed relation is in the map.
  pub block_oids-IsIn :
      (env : Env) (o : Oid) (c : ClassTuple) (oids : List Oid) (m : SegmentRejectMap)
      → env.pg_class o ≡ some c
      → IsAmong o oids
      → IsIn (file_key (class_file env c)) (block_oids env key mark oids m)
  unfolding block_oids
  block_oids-IsIn env o c [] m p h = elim h [ ]
  block_oids-IsIn env o c (oid ∷ oids) m p (inl same) =
      let q : env.pg_class oid ≡ some c = subst (λ x. env.pg_class x ≡ some c) (sym same) p in
      rw q (
        block_oids-grows env (file_key (class_file env c)) oids
          (block_file key mark (class_file env c) m) (block_file-IsIn (class_file env c) m))
  block_oids-IsIn env o c (oid ∷ oids) m p (inr later) =
      block_oids-IsIn env o c oids
        (elim (env.pg_class oid) [ none ↦ m | some d ↦ block_file key mark (class_file env d) m ]) p
        later

  pub block_cached-grows :
      (cache : Htab Oid RelationCacheEntry) (k : RejectMapEntry) (oids : List Oid)
      (e : Option RelationCacheEntry) (m : SegmentRejectMap)
      → IsIn k m
      → IsIn k (block_cached cache key mark oids (e, m)).1
  unfolding block_cached
  block_cached-grows cache k [] e m i = i
  block_cached-grows cache k (oid ∷ oids) e m i = elim (Option-cases (find oid cache)) [
    | inl h ↦ rw (h, block_cached) (block_cached-grows cache k oids none m i)
    | inr (d, h) ↦
        rw (h, block_cached)
          (block_cached-grows cache k oids (some d) (block_file key mark d.rnode m)
            (block_file-grows k d.rnode m i))
  ]

-- The first blocking type is found if there is any, and its entry stands in the map.
pub first_blocking-none :
    (env : Env) (o n t : Oid) (m : SegmentRejectMap) (types : List QuotaType)
    → first_blocking env o n t types m ≡ none
    → All (λ y. find (prepare_rejectmap_search_key env y o n t) m ≡ none) types
unfolding first_blocking
first_blocking-none env o n t m [] h = tt
first_blocking-none env o n t m (y ∷ ys) h =
    elim (Option-cases (find (prepare_rejectmap_search_key env y o n t) m)) [
      | inl p ↦ (p, first_blocking-none env o n t m ys (ground (arith, p)))
      | inr (r, p) ↦ ground (arith, p)
    ]
