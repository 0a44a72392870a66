-- ===== src/RejectMap/Segment/Refresh.antt =====
-- What refresh_rejectmap leaves in the global map of a segment.
use diskquota.Prelude.{
  [], List, Option, if◌then◌else◌, false, none, some, true, ◌≡◌, ◌≢◌, inl, inr, arith, refl, nat_eq,
  Option-cases, IsAmong, subst, ◌∙◌, ap, ◌≤◌, ◌<◌, ◌+◌, length,
}
use diskquota.RejectEntry.{reject_entry_has_eq, RejectMapEntry, class_file}
use diskquota.RejectMap.Segment.{
  add_dispatched, Dispatched, flush_segment_entries, SegmentRejectMap, dispatched_key, AuxRelations,
  refresh_rejectmap, is_own, SegmentRefresh, block_actives, null_pointer, related_oids, file_key,
  rejectmap_refreshed,
}
use diskquota.Catalog.{Env, oid_is_valid, Oid, ClassTuple}
use diskquota.Htab.{find, remove_if, Htab}
use diskquota.RejectMap.Segment.Laws.{IsIn}
use diskquota.RejectMap.{GlobalRejectMap, check_rejectmap_by_relfilenode}
use diskquota.Words.{two31}
use diskquota.RelationCache.{RelationCacheEntry}
use diskquota.QuotaType.{QuotaType}
use diskquota.Htab.Keys.{find-remove_if, length-remove_if}
use diskquota.RejectMap.Segment.Blocked.{
  IsClosed, blocking_key, block_actives-Grows, block_actives-IsIn,
}
use diskquota.RejectMap.Segment.Flushed.{
  add_dispatched-IsIn, flush_segment_entries_soft, flush_segment_entries-IsIn,
}

module _ (env : Env) (g : GlobalRejectMap) where
  abbrev cleared : GlobalRejectMap
  cleared = record g { map = remove_if (λ k _. is_own env k) g.map }

  abbrev pub refresh_run :
      AuxRelations
      → Htab Oid RelationCacheEntry
      → List (Option Dispatched)
      → List (Option Oid)
      → SegmentRefresh
  refresh_run aux cache ds oids =
      refresh_rejectmap env aux cache
        (record { superuser = true; is_query_dispatcher = false; is_one_dimensional = true }) ds
        oids g

  refresh_run-rejectmap_refreshed :
      (aux : AuxRelations) (cache : Htab Oid RelationCacheEntry) (ds : List (Option Dispatched))
      (oids : List (Option Oid)) (m : SegmentRejectMap)
      → block_actives env aux cache oids (add_dispatched ds []) ≡ some m
      → refresh_run aux cache ds oids ≡ rejectmap_refreshed (flush_segment_entries env m cleared)
  unfolding refresh_rejectmap
  refresh_run-rejectmap_refreshed aux cache ds oids m p =
      ap
        (λ x. elim x [
          | none ↦ null_pointer
          | some y ↦ rejectmap_refreshed (flush_segment_entries env y cleared)
        ])
        p

  -- If a superuser calls the function on a segment, if each relation that an uncommitted one names as
  -- auxiliary is in the cache, and if the global map has room, the call succeeds; and if the
  -- coordinator sent an entry for a quota that an active relation of the catalog falls under, then
  -- each file of the relation, of its toast and append-only relations and of their indexes is
  -- rejected afterwards.
  pub refresh_rejectmap-blocked :
      (aux : AuxRelations) (cache : Htab Oid RelationCacheEntry) (ds : List (Option Dispatched))
      (oids : List (Option Oid)) (d : Dispatched) (y : QuotaType) (oid o : Oid) (c e : ClassTuple)
      → IsClosed cache
      → ((m : SegmentRejectMap)
          → block_actives env aux cache oids (add_dispatched ds []) ≡ some m
          → length g.map + length m ≤ env.max_disk_quota_reject_entries)
      → env.max_disk_quota_reject_entries < two31
      → IsAmong (some d) ds
      → dispatched_key d ≡ blocking_key env c y
      → IsAmong (some oid) oids
      → oid_is_valid oid ≡ true
      → env.pg_class oid ≡ some c
      → IsAmong o (related_oids aux oid c)
      → env.pg_class o ≡ some e
      → (g' : GlobalRejectMap) × (refresh_run aux cache ds oids ≡ rejectmap_refreshed g')
        × (check_rejectmap_by_relfilenode (class_file env e) g' ≢ none)
  unfolding check_rejectmap_by_relfilenode
  refresh_rejectmap-blocked aux cache ds oids d y oid o c e closed room small sent key active valid
        class related class' =
      let (m, p, up) = block_actives-Grows env aux cache closed oids (add_dispatched ds []) in
      let blocking =
        subst (λ k. IsIn k (add_dispatched ds [])) key (add_dispatched-IsIn d ds [] sent) in
      let i =
        block_actives-IsIn env aux cache closed oid o c e y oids (add_dispatched ds []) m active
          valid class blocking related class' p in
      let n =
        flush_segment_entries-IsIn env (file_key (class_file env e)) m cleared refl
          (omega (arith, room m p, length-remove_if (λ k _. is_own env k) g.map)) small i in
      (
        flush_segment_entries env m cleared,
        refresh_run-rejectmap_refreshed aux cache ds oids m p,
        λ q.
            elim (Option-cases
              (find (file_key (class_file env e)) (flush_segment_entries env m cleared).map)) [
                | inl h ↦ n h
                | inr (r, h) ↦ ground (arith, h, q)
              ],
      )

  -- Whenever the function succeeds, the global map holds no soft limit of the segment's own database
  -- any more, and the soft limits of other databases as before.
  pub refresh_rejectmap-soft :
      (aux : AuxRelations) (cache : Htab Oid RelationCacheEntry) (ds : List (Option Dispatched))
      (oids : List (Option Oid)) (k : RejectMapEntry) (g' : GlobalRejectMap)
      → oid_is_valid k.targetoid ≡ true
      → refresh_run aux cache ds oids ≡ rejectmap_refreshed g'
      → find k g'.map ≡ (if is_own env k then none else find k g.map)
  unfolding refresh_rejectmap
  refresh_rejectmap-soft aux cache ds oids k g' soft p =
      elim (Option-cases (block_actives env aux cache oids (add_dispatched ds []))) [
        | inl h ↦ ground (arith, h, p)
        | inr (m, h) ↦
            let q : flush_segment_entries env m cleared ≡ g' =
              ground (arith, refresh_run-rejectmap_refreshed aux cache ds oids m h, p) in
            subst (λ x. find k x.map ≡ find k cleared.map) q
              (flush_segment_entries_soft env k m cleared soft)
            ∙ find-remove_if (λ j. is_own env j) k g.map
      ]
