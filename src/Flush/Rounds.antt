-- ===== src/Flush/Rounds.antt =====
-- What the rounds over the segments of one entry make of one place.
use diskquota.Prelude.{
  ℕ, zero, suc, true, false, Option, none, some, ◌≡◌, ◌≢◌, refl, arith, ◌∙◌, ap, sym, eqb,
  if◌then◌else◌, Bool-cases, inl, inr, eqb_iff, subst, ◌+◌, ◌<◌, ◌≤◌, ◌&&◌,
}
use diskquota.TableSize.{
  TableSizeEntry, get_table_exist, get_flush_flag, get_size, TableSizeEntryKey, reset_flush_flag,
  table_size_entry_index,
}
use diskquota.Catalog.{Oid, SegId}
use diskquota.Flush.{FlushState, flush_segment, flush_segments}
use diskquota.Flush.Rows.{
  view, IsUntouched, IsApart, accumulate_delete-own, Kept, accumulate_update-own,
  accumulate_delete-Kept, accumulate_update-Kept, Kept-trans,
}
use diskquota.Flush.Laws.{flush_segment-Same, flush_segment-entry}

-- What a round for a segment of an entry makes of the place of that segment.
abbrev pub flushed : TableSizeEntry → SegId → Option ℕ → Option ℕ
flushed e c before =
    if get_table_exist e then (if get_flush_flag e c then some (get_size e c) else before) else none

module _ (oid : Oid) (c : SegId) where
  abbrev pub Holds : Option ℕ → FlushState → Type 0
  Holds v s = (view oid c s ≡ v) × IsApart oid c s

  flush_segment-Kept :
      (i : SegId) (e : TableSizeEntry) (s : FlushState)
      → eqb e.key.reloid oid && eqb i c ≡ false
      → IsApart oid c s
      → Kept oid c s (flush_segment i (e, s)).1
  unfolding flush_segment
  flush_segment-Kept i e s other apart = elim (Bool-cases (get_table_exist e)) [
    | inr dropped ↦
        rw (dropped, flush_segment)
          (accumulate_delete-Kept oid c (record { tableid = e.key.reloid; segid = i; size = 0 }) s
            other apart)
    | inl there ↦ elim (Bool-cases (get_flush_flag e i)) [
      | inl on ↦
          rw (there, on, flush_segment)
            (accumulate_update-Kept oid c
              (record { tableid = e.key.reloid; segid = i; size = get_size e i }) s other apart)
      | inr off ↦
          rw (there, off, flush_segment) (record { same = refl; apart = apart; untouched = λ u. u })
    ]
  ]

  flush_segment-own :
      (e : TableSizeEntry) (s : FlushState)
      → e.key.reloid ≡ oid
      → IsUntouched oid c s
      → Holds (flushed e c (view oid c s)) (flush_segment c (e, s)).1
  unfolding flush_segment
  flush_segment-own e s same u =
      let here : eqb e.key.reloid oid && eqb c c ≡ true =
        ground (arith, eqb_iff e.key.reloid oid, eqb_iff c c, same) in
      elim (Bool-cases (get_table_exist e)) [
        | inr dropped ↦
            rw (dropped, flush_segment)
              (accumulate_delete-own oid c (record { tableid = e.key.reloid; segid = c; size = 0 })
                s here u)
        | inl there ↦ elim (Bool-cases (get_flush_flag e c)) [
          | inl on ↦
              rw (there, on, flush_segment)
                (accumulate_update-own oid c
                  (record { tableid = e.key.reloid; segid = c; size = get_size e c }) s here u)
          | inr off ↦ rw (there, off, flush_segment) (refl, inl u.0)
        ]
      ]

  -- Rounds that do not come to the place.
  pub flush_segments-Kept :
      (n i : ℕ) (e : TableSizeEntry) (s : FlushState)
      → ((j : ℕ) → i ≤ j → j < i + n → eqb e.key.reloid oid && eqb j c ≡ false)
      → IsApart oid c s
      → Kept oid c s (flush_segments n i (e, s)).1
  unfolding flush_segments
  flush_segments-Kept zero i e s others apart = record {
    same = refl;
    apart = apart;
    untouched = λ u. u;
  }
  flush_segments-Kept (suc n) i e s others apart =
      let (e', s') = flush_segment i (e, s) in
      let key = (flush_segment-Same i e s).0 in
      let k = flush_segment-Kept i e s (others i (omega arith) (omega arith)) apart in
      let rest =
        flush_segments-Kept n (suc i) e' s'
          (λ j low high.
            ap (λ x. eqb (TableSizeEntryKey.reloid x) oid && eqb j c) key
            ∙ others j (omega arith) (omega arith))
          k.apart in
      Kept-trans oid c s s' _ k rest

  get_flush_flag-flush_segment :
      (i : SegId) (e : TableSizeEntry) (s : FlushState)
      → table_size_entry_index i ≢ table_size_entry_index c
      → get_flush_flag (flush_segment i (e, s)).0 c ≡ get_flush_flag e c
  unfolding get_flush_flag reset_flush_flag
  get_flush_flag-flush_segment i e s other = ground (arith, flush_segment-entry i e s, other)

  pub flush_segments-own :
      (n i : ℕ) (e : TableSizeEntry) (s : FlushState)
      → e.key.reloid ≡ oid
      → i ≤ c
      → c < i + n
      → n ≤ 100
      → IsUntouched oid c s
      → Holds (flushed e c (view oid c s)) (flush_segments n i (e, s)).1
  unfolding flush_segments
  flush_segments-own zero i e s same low high short u = ground arith
  flush_segments-own (suc n) i e s same low high short u =
      let (e', s') = flush_segment i (e, s) in
      let (key, owners, exist, size) = flush_segment-Same i e s in
      elim (Bool-cases (eqb i c)) [
        | inl here ↦
            let p : i ≡ c = (eqb_iff i c).0 here in
            let first : Holds (flushed e c (view oid c s)) s' =
              subst (λ x. Holds (flushed e c (view oid c s)) (flush_segment x (e, s)).1) (sym p)
                (flush_segment-own e s same u) in
            let k = flush_segments-Kept n (suc i) e' s' (λ j lo hi. ground (arith, p)) first.1 in
            (k.same ∙ first.0, k.apart)
        | inr later ↦
            let later_ne : i ≢ c = ground (arith, later) in
            let k = flush_segment-Kept i e s (ground (arith, later)) (inl u.0) in
            let rest =
              flush_segments-own n (suc i) e' s' (ap (λ x. TableSizeEntryKey.reloid x) key ∙ same)
                (ground (arith, later)) (omega arith) (omega arith) (k.untouched u) in
            let flag = get_flush_flag-flush_segment i e s (omega (arith, later_ne)) in
            let same_view = k.same in
            (
              rest.0
                  ∙ ap
                      (λ v.
                        if get_table_exist e'
                        then (if get_flush_flag e' c then some (get_size e' c) else v)
                        else none)
                      same_view
                  ∙ ground (arith, exist, flag, size c),
              rest.1,
            )
      ]
