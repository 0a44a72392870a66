-- ===== src/Flush/Laws.antt =====
-- What stands in the map after a flush.
use diskquota.Prelude.{
  ◌∷◌, [], ◌<◌, ◌+◌, ◌-◌, ◌%◌, ℕ, zero, suc, ◌≡◌, refl, inl, inr, if◌then◌else◌, Bool-cases, ◌∙◌,
  ◌&&◌, arith, subst, sym, Bool, eqb, List, ap, true, false,
}
use diskquota.TableSize.{
  table_key_has_eq, TableSizeEntry, reset_flush_flag, get_table_exist, get_size, get_flush_flag,
  TableSizeMap, TableSizeEntryKey, table_size_entry_id, segid_end, segid_start,
}
use diskquota.Flush.{
  flush_segment, flush_segments, FlushState, flush_entries, flush_to_table_size, Row,
}
use diskquota.Catalog.{SegId, Env, Oid}
use diskquota.Usage.{owners_of, track_namespace_owner_tablespace_changes}
use diskquota.TableSize.Laws.{get_size-reset_flush_flag}
use diskquota.QuotaType.{QuotaInfoEntryKey}
use diskquota.Usage.Invariant.{charge, if_congr, usage, is_charged, IsLive, Accounts}
use diskquota.Htab.Laws.{sum}
use diskquota.Htab.{Htab}
use diskquota.Usage.Release.{existing_charge, track_namespace_owner_tablespace_changes-sized}
use diskquota.RelationCache.{RelationCacheEntry}
use diskquota.QuotaInfo.{QuotaInfoMap}
use diskquota.QuotaInfo.Sizes.{IsRoomy, size_of}
use diskquota.Words.{two64, dec32}

-- A flush leaves an entry's key, owners, flags and sizes.
abbrev pub Same : TableSizeEntry → TableSizeEntry → Type 0
Same a b =
    (a.key ≡ b.key)
    × (owners_of a ≡ owners_of b)
    × (get_table_exist a ≡ get_table_exist b)
    × ((i : SegId) → get_size a i ≡ get_size b i)

pub flush_segment-entry :
    (c : SegId) (e : TableSizeEntry) (s : FlushState)
    → (flush_segment c (e, s)).0
      ≡ (if get_table_exist e && get_flush_flag e c then reset_flush_flag e c else e)
unfolding flush_segment
flush_segment-entry c e s = ground arith

reset-Same : (c : SegId) (e : TableSizeEntry) → Same (reset_flush_flag e c) e
unfolding reset_flush_flag get_table_exist
reset-Same c e = (refl, refl, refl, get_size-reset_flush_flag e c)

pub flush_segment-Same :
    (c : SegId) (e : TableSizeEntry) (s : FlushState) → Same (flush_segment c (e, s)).0 e
flush_segment-Same c e s =
    let p = flush_segment-entry c e s in
    elim (Bool-cases (get_table_exist e && get_flush_flag e c)) [
      | inl on ↦
          let q : (flush_segment c (e, s)).0 ≡ reset_flush_flag e c = rw on at p in
          subst (λ x. Same x e) (sym q) (reset-Same c e)
      | inr off ↦
          let q : (flush_segment c (e, s)).0 ≡ e = rw off at p in
          subst (λ x. Same x e) (sym q) (refl, refl, refl, λ i. refl)
    ]

pub flush_segments-Same :
    (n c : ℕ) (e : TableSizeEntry) (s : FlushState) → Same (flush_segments n c (e, s)).0 e
unfolding flush_segments
flush_segments-Same zero c e s = (refl, refl, refl, λ i. refl)
flush_segments-Same (suc n) c e s =
    let (e', s') = flush_segment c (e, s) in
    let (k, o, x, z) = flush_segments-Same n (suc c) e' s' in
    let (k', o', x', z') = flush_segment-Same c e s in (k ∙ k', o ∙ o', x ∙ x', λ i. z i ∙ z' i)

charge-Same : (k : QuotaInfoEntryKey) (a b : TableSizeEntry) → Same a b → charge k a ≡ charge k b
charge-Same k a b (key, own, exist, size) =
    if_congr (eqb a.key.id (table_size_entry_id k.segid))
      (eqb b.key.id (table_size_entry_id k.segid)) _ _ _ _
      (ap (λ x. eqb (TableSizeEntryKey.id x) (table_size_entry_id k.segid)) key)
      (ap (λ o. is_charged k o k.segid) own) (λ covers c. size k.segid)

module _ (env : Env) (k : QuotaInfoEntryKey) (live : k.segid < env.segcount + 1) where
  flush_entries-usage :
      (m : Htab TableSizeEntryKey TableSizeEntry) (x : ℕ × FlushState)
      → sum (charge k) (flush_entries env m x).0 ≡ sum (existing_charge env k live) m
  unfolding flush_entries sum
  flush_entries-usage [] x = refl
  flush_entries-usage ((j, e) ∷ m) (num, s) =
      let n = segid_end env e - segid_start e in
      let (e', s') = flush_segments n (segid_start e) (e, s) in
      let same = flush_segments-Same n (segid_start e) e s in
      let exist : get_table_exist e' ≡ get_table_exist e = same.2 in
      let size = charge-Same k e' e same in
      let kept = flush_entries-usage m (num, s') in
      let gone = flush_entries-usage m (dec32 num, s') in
      elim (Bool-cases (get_table_exist e)) [
        | inl there ↦
            let on : get_table_exist e' ≡ true = exist ∙ there in
            ground (arith, on, there, size, kept)
        | inr dropped ↦
            let off : get_table_exist e' ≡ false = exist ∙ dropped in
            ground (arith, off, dropped, gone)
      ]

  -- The map after a flush charges each quota of the cluster's segments with exactly the tables that
  -- still existed before it: no size is lost and no dropped table stays.
  pub flush_to_table_size-usage :
      (t : TableSizeMap) (rows : List Row)
      → usage (flush_to_table_size env t rows).0 k ≡ sum (existing_charge env k live) t.map
  unfolding flush_to_table_size
  flush_to_table_size-usage t rows =
      flush_entries-usage t.map
        (t.entry_num, record { delete = []; update = []; table_size = rows })

-- A whole cycle of the worker on the coordinator, the pass over the relations and then the flush,
-- gives every live quota the sum of the sizes of the tables in the flushed map, if the accounts held
-- before it and the map of quotas never ran full.
pub flush_to_table_size-sized :
    (env : Env) (is_init : Bool) (relation_cache : Htab Oid RelationCacheEntry) (oids : List Oid)
    (t : TableSizeMap) (q : QuotaInfoMap) (rows : List Row) (k : QuotaInfoEntryKey)
    → IsLive env k
    → Accounts env t q
    → IsRoomy env
        (track_namespace_owner_tablespace_changes env is_init relation_cache oids (t, q)).1
    → size_of (track_namespace_owner_tablespace_changes env is_init relation_cache oids (t, q)).1 k
      ≡ usage
          (flush_to_table_size env
            (track_namespace_owner_tablespace_changes env is_init relation_cache oids (t, q)).0
            rows).0
          k
        % two64
flush_to_table_size-sized env is_init relation_cache oids t q rows k live acc room =
    let t' = (track_namespace_owner_tablespace_changes env is_init relation_cache oids (t, q)).0 in
    track_namespace_owner_tablespace_changes-sized env is_init relation_cache oids t q k live acc
      room
    ∙ ap (λ x. x % two64) (sym (flush_to_table_size-usage env k live.1 t' rows))
