-- ===== src/Usage/Relations.antt =====
-- The passes of track_namespace_owner_tablespace_changes over the relations keep the accounts.
use diskquota.SharedTable.{write}
use diskquota.Prelude.{
  zero, ℕ, [], ◌∷◌, inl, inr, Bool, ◌<◌, ◌+◌, List, suc, ◌≡◌, false, arith, ◌%◌, Option-cases,
  subst, sym, Bool-cases, eqb,
}
use diskquota.Catalog.{Env, Oid, coordinator}
use diskquota.QuotaType.{QuotaInfoEntryKey, namespace_quota}
use diskquota.Usage.{track_relations, Owners, track_segments, relation_owners, with_owners}
use diskquota.Htab.{Htab}
use diskquota.TableSize.{TableSizeMap, get_table_size_map_entry, segid_end, table_key_has_eq}
use diskquota.RelationCache.{RelationCacheEntry}
use diskquota.Usage.Track.Round.{pending}
use diskquota.QuotaInfo.{QuotaInfoMap}
use diskquota.Usage.Invariant.{IsKeyed, Accounts, usage, put-IsKeyed}
use diskquota.QuotaInfo.Sizes.{IsRoomy, size_of}
use diskquota.Words.{two64}
use diskquota.Usage.Loop.{track_segments-sized, track_segments-IsRoomy}
use diskquota.Usage.Track.{unsettled}
use diskquota.Usage.Active.{fetch, full, entry}
use diskquota.Usage.Track.Marks.{marked, marked-key}

module _ (env : Env) (is_init : Bool) where
  abbrev first_key : QuotaInfoEntryKey
  first_key = record { type = namespace_quota; key0 = 0; key1 = 0; segid = coordinator }

  -- When the loop begins, no segment of the relation is half done.
  pending_start :
      (k : QuotaInfoEntryKey) (live : k.segid < env.segcount + 1)
      → pending env k live (suc env.segcount) coordinator ≡ false
  pending_start k live = ground arith

  track_segments-IsKeyed :
      (oid : Oid) (new : Owners) (n c : ℕ) (t : TableSizeMap) (q : QuotaInfoMap)
      → IsKeyed t.map
      → IsKeyed (track_segments env is_init oid new n c (t, q)).0.map
  unfolding track_segments write
  track_segments-IsKeyed oid new zero c t q keyed = keyed
  track_segments-IsKeyed oid new (suc n) c t q keyed = elim (fetch env oid c t keyed) [
    | full h r m ↦ rw (r, track_segments) (subst IsKeyed (sym m) keyed)
    | entry e r at p keyed' same prior ↦
        let t' = (get_table_size_map_entry env oid c t).1 in
        let e2 = marked first_key is_init new c e in
        let own = marked-key first_key is_init new c e in
        elim (Bool-cases (eqb (suc c) (segid_end env e2))) [
          | inl last ↦
              rw (r, track_segments)
                (rw last (
                  track_segments-IsKeyed oid new n (suc c) (write e.key (with_owners e2 new) t') _
                    (put-IsKeyed e.key (with_owners e2 new) t'.map keyed' own)))
          | inr more ↦
              rw (r, track_segments)
                (rw more (
                  track_segments-IsKeyed oid new n (suc c) (write e.key e2 t') _
                    (put-IsKeyed e.key e2 t'.map keyed' own)))
        ]
  ]

  module _ (oid : Oid) (new : Owners) (t : TableSizeMap) (q : QuotaInfoMap) where
    abbrev moved : TableSizeMap × QuotaInfoMap
    moved = track_segments env is_init oid new (suc env.segcount) coordinator (t, q)

    sized_lem :
        IsKeyed t.map
        → IsRoomy env moved.1
        → (k : QuotaInfoEntryKey) → k.segid < env.segcount + 1
        → size_of q k ≡ usage t k % two64
        → IsKeyed moved.0.map × (size_of moved.1 k ≡ usage moved.0 k % two64)
    sized_lem keyed room k live h =
        track_segments-sized env is_init oid new k live (suc env.segcount) coordinator t q
          (omega arith)
          (unsettled env k live is_init oid new (suc env.segcount) coordinator t q
            (pending_start k live) keyed h)
          room

    -- The move of one relation to its owners, on all segments, keeps the accounts.
    pub track_segments-Accounts :
        Accounts env t q → IsRoomy env moved.1 → Accounts env moved.0 moved.1
    track_segments-Accounts acc room = record {
      keyed = track_segments-IsKeyed oid new (suc env.segcount) coordinator t q acc.keyed;
      sized = λ k l. (sized_lem acc.keyed room k l.1 (acc.sized k l)).1;
    }

  pub track_relations-IsRoomy :
      (relation_cache : Htab Oid RelationCacheEntry) (oids : List Oid) (t : TableSizeMap)
      (q : QuotaInfoMap)
      → IsRoomy env (track_relations env is_init relation_cache oids (t, q)).1
      → IsRoomy env q
  unfolding track_relations
  track_relations-IsRoomy relation_cache [] t q room = room
  track_relations-IsRoomy relation_cache (oid ∷ oids) t q room =
      elim (Option-cases (relation_owners env relation_cache oid)) [
        | inl h ↦ track_relations-IsRoomy relation_cache oids t q (rw (h, track_relations) at room)
        | inr (new, h) ↦
            track_segments-IsRoomy env is_init oid new (suc env.segcount) coordinator t q (
              track_relations-IsRoomy relation_cache oids (moved oid new t q).0
                (moved oid new t q).1 (rw (h, track_relations) at room))
      ]

  -- After the loop over the relations each live quota's size is still the sum of the sizes of the
  -- entries that record its objects as owners, if the map of quotas never ran full.
  pub track_relations-Accounts :
      (relation_cache : Htab Oid RelationCacheEntry) (oids : List Oid) (t : TableSizeMap)
      (q : QuotaInfoMap)
      → Accounts env t q
      → IsRoomy env (track_relations env is_init relation_cache oids (t, q)).1
      → Accounts env
          (track_relations env is_init relation_cache oids (t, q)).0
          (track_relations env is_init relation_cache oids (t, q)).1
  unfolding track_relations
  track_relations-Accounts relation_cache [] t q acc room = acc
  track_relations-Accounts relation_cache (oid ∷ oids) t q acc room =
      elim (Option-cases (relation_owners env relation_cache oid)) [
        | inl h ↦
            rw (h, track_relations)
              (track_relations-Accounts relation_cache oids t q acc
                (rw (h, track_relations) at room))
        | inr (new, h) ↦
            let room' = rw (h, track_relations) at room in
            let (t', q') = moved oid new t q in
            rw (h, track_relations)
              (track_relations-Accounts relation_cache oids t' q'
                (track_segments-Accounts oid new t q acc
                  (track_relations-IsRoomy relation_cache oids t' q' room'))
                room')
      ]
