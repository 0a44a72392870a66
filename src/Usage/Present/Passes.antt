-- ===== src/Usage/Present/Passes.antt =====
-- The entries of the table of sizes after the pass over the relations.
use diskquota.Prelude.{
  [], ◌∷◌, none, some, true, false, refl, ◌≡◌, arith, inl, inr, Bool-cases, Option-cases, ◌∙◌,
  if◌then◌else◌, subst, sym, ap, eqb_iff, Bool, List, Option, ◌<◌, ◌+◌, suc, eqb,
}
use diskquota.Htab.{find, Htab}
use diskquota.Htab.Keys.{IsDistinct}
use diskquota.TableSize.{table_key_has_eq, TableSizeMap, table_size_key}
use diskquota.Usage.Invariant.{IsKeyed}
use diskquota.Usage.Present.{
  IsSpacious, present_owners, track_segments-IsSpacious, relation_owners-present_owners,
}
use diskquota.Usage.Present.Moves.{IsMoved, track_segments-IsMoved, track_segments-keeps}
use diskquota.RelationCache.Update.{is_listed_oid}
use diskquota.Catalog.{Env, Oid, SegId}
use diskquota.RelationCache.{RelationCacheEntry}
use diskquota.Usage.{track_relations, Owners, relation_owners, track_segments}
use diskquota.QuotaInfo.{QuotaInfoMap}

-- The present owners of a relation that the pass goes over.
abbrev pub listed_owners : Env → Htab Oid RelationCacheEntry → List Oid → Oid → Option Owners
listed_owners env cache oids oid =
    if is_listed_oid oid oids then present_owners env cache oid else none

module _ (env : Env) (is_init : Bool) (cache : Htab Oid RelationCacheEntry) where
  track_relations-IsSpacious :
      (oids : List Oid) (t : TableSizeMap) (q : QuotaInfoMap)
      → IsSpacious env (track_relations env is_init cache oids (t, q)).0
      → IsSpacious env t
  unfolding track_relations
  track_relations-IsSpacious [] t q room = room
  track_relations-IsSpacious (oid ∷ oids) t q room =
      elim (Option-cases (relation_owners env cache oid)) [
        | inl h ↦ track_relations-IsSpacious oids t q (rw (h, track_relations) at room)
        | inr (new, h) ↦
            let s = track_segments env is_init oid new (suc env.segcount) 0 (t, q) in
            track_segments-IsSpacious env is_init oid new (suc env.segcount) 0 t q
              (track_relations-IsSpacious oids s.0 s.1 (rw (h, track_relations) at room))
      ]

  -- What the pass leaves at the entry of a relation for a segment of the cluster.
  abbrev pub IsTracked : Oid → SegId → TableSizeMap → TableSizeMap → Option Owners → Type 0
  IsTracked oid s t t' none = find (table_size_key oid s) t'.map ≡ find (table_size_key oid s) t.map
  IsTracked oid s t t' (some new) = IsMoved new (table_size_key oid s) t'

  module _ (oid : Oid) (s : SegId) (live : s < env.segcount + 1) where
    IsTracked-own :
        (listed : Bool) (o : Option Owners) (t t1 t' : TableSizeMap)
        → IsTracked oid s t t1 o
        → IsTracked oid s t1 t' (if listed then o else none)
        → IsTracked oid s t t' o
    IsTracked-own true none t t1 t' f g = g ∙ f
    IsTracked-own false none t t1 t' f g = g ∙ f
    IsTracked-own true (some new) t t1 t' f g = g
    IsTracked-own false (some new) t t1 t' f g = λ e h. f e (sym g ∙ h)

    IsTracked-other :
        (o : Option Owners) (t t1 t' : TableSizeMap)
        → IsTracked oid s t t1 none
        → IsTracked oid s t1 t' o
        → IsTracked oid s t t' o
    IsTracked-other none t t1 t' f g = g ∙ f
    IsTracked-other (some new) t t1 t' f g = g

    -- The owners that one relation of the pass gives the entries of `oid`.
    abbrev seen : Bool → Option Owners
    seen own = if own then present_owners env cache oid else none

    abbrev visited_by :
        Oid → TableSizeMap → QuotaInfoMap → Option Owners → TableSizeMap × QuotaInfoMap
    visited_by x t q none = (t, q)
    visited_by x t q (some new) = track_segments env is_init x new (suc env.segcount) 0 (t, q)

    -- One relation of the pass.
    abbrev visited : Oid → TableSizeMap → QuotaInfoMap → TableSizeMap × QuotaInfoMap
    visited x t q = visited_by x t q (relation_owners env cache x)

    visit :
        (x : Oid) (t : TableSizeMap) (q : QuotaInfoMap)
        → IsKeyed t.map
        → IsSpacious env (visited x t q).0
        → IsKeyed (visited x t q).0.map × IsTracked oid s t (visited x t q).0 (seen (eqb x oid))
    visit x t q keyed room =
        let p = relation_owners-present_owners env cache x in
        elim (Option-cases (relation_owners env cache x)) [
          | inl h ↦
              let v : (visited x t q).0 ≡ t = ap (λ o. (visited_by x t q o).0) h in
              (
                subst (λ (y : TableSizeMap). IsKeyed y.map) (sym v) keyed,
                subst (λ y. IsTracked oid s t y (seen (eqb x oid))) (sym v)
                    (elim (Bool-cases (eqb x oid)) [
                      | inl same ↦
                          let n : present_owners env cache oid ≡ none =
                            subst (λ i. present_owners env cache i ≡ none) ((eqb_iff x oid).0 same)
                              (sym p ∙ h) in
                          subst (λ b. IsTracked oid s t t (seen b)) (sym same)
                            (subst (λ o. IsTracked oid s t t o) (sym n) refl)
                      | inr other ↦ subst (λ b. IsTracked oid s t t (seen b)) (sym other) refl
                    ]),
              )
          | inr (new, h) ↦
              let t1 = (track_segments env is_init x new (suc env.segcount) 0 (t, q)).0 in
              let v : (visited x t q).0 ≡ t1 = ap (λ o. (visited_by x t q o).0) h in
              let room' = subst (λ y. IsSpacious env y) v room in
              let (kept, unique, others) =
                track_segments-keeps env is_init x new (suc env.segcount) 0 t q keyed room' in
              (
                subst (λ (y : TableSizeMap). IsKeyed y.map) (sym v) kept,
                subst (λ y. IsTracked oid s t y (seen (eqb x oid))) (sym v)
                    (elim (Bool-cases (eqb x oid)) [
                      | inl same ↦
                          let i = (eqb_iff x oid).0 same in
                          let n : present_owners env cache oid ≡ some new =
                            subst (λ i. present_owners env cache i ≡ some new) i (sym p ∙ h) in
                          let moved =
                            track_segments-IsMoved env is_init x new s live t q keyed room' in
                          subst (λ b. IsTracked oid s t t1 (seen b)) (sym same)
                            (subst (λ o. IsTracked oid s t t1 o) (sym n)
                              (subst (λ i. IsMoved new (table_size_key i s) t1) i moved))
                      | inr other ↦
                          subst (λ b. IsTracked oid s t t1 (seen b)) (sym other)
                            (others (table_size_key oid s) (ground (arith, other)))
                    ]),
              )
        ]

    pub track_relations-IsTracked :
        (oids : List Oid) (t : TableSizeMap) (q : QuotaInfoMap)
        → IsKeyed t.map
        → IsSpacious env (track_relations env is_init cache oids (t, q)).0
        → IsTracked oid s t
            (track_relations env is_init cache oids (t, q)).0
            (listed_owners env cache oids oid)
    unfolding track_relations
    track_relations-IsTracked [] t q keyed room = refl
    track_relations-IsTracked (x ∷ oids) t q keyed room =
        let now = listed_owners env cache (x ∷ oids) oid in
        let later = listed_owners env cache oids oid in
        let present = present_owners env cache oid in
        let (t1, q1) = visited x t q in
        let end_t = (track_relations env is_init cache oids (t1, q1)).0 in
        let (keyed1, one) = visit x t q keyed (track_relations-IsSpacious oids t1 q1 room) in
        let rest = track_relations-IsTracked oids t1 q1 keyed1 room in
        elim (Bool-cases (eqb x oid)) [
          | inl same ↦
              let l : now ≡ present = ground (arith, same) in
              subst (λ o. IsTracked oid s t end_t o) (sym l)
                (IsTracked-own (is_listed_oid oid oids) present t t1 end_t
                  (subst (λ b. IsTracked oid s t t1 (if b then present else none)) same one) rest)
          | inr other ↦
              let l : now ≡ later = ground (arith, other) in
              subst (λ o. IsTracked oid s t end_t o) (sym l)
                (IsTracked-other later t t1 end_t
                  (subst (λ b. IsTracked oid s t t1 (if b then present else none)) other one) rest)
        ]

  pub track_relations-IsDistinct :
      (oids : List Oid) (t : TableSizeMap) (q : QuotaInfoMap)
      → IsKeyed t.map
      → IsDistinct t.map
      → IsSpacious env (track_relations env is_init cache oids (t, q)).0
      → IsDistinct (track_relations env is_init cache oids (t, q)).0.map
  unfolding track_relations
  track_relations-IsDistinct [] t q keyed d room = d
  track_relations-IsDistinct (oid ∷ oids) t q keyed d room =
      elim (Option-cases (relation_owners env cache oid)) [
        | inl h ↦
            rw (h, track_relations)
              (track_relations-IsDistinct oids t q keyed d (rw (h, track_relations) at room))
        | inr (new, h) ↦
            let s = track_segments env is_init oid new (suc env.segcount) 0 (t, q) in
            let room' = rw (h, track_relations) at room in
            let (kept, unique, others) =
              track_segments-keeps env is_init oid new (suc env.segcount) 0 t q keyed
                (track_relations-IsSpacious oids s.0 s.1 room') in
            rw (h, track_relations) (track_relations-IsDistinct oids s.0 s.1 kept (unique d) room')
      ]
