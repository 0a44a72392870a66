-- ===== src/Flush/Table.antt =====
-- The table diskquota.table_size after a flush.
use diskquota.Prelude.{
  ℕ, [], ◌∷◌, List, true, false, none, some, ◌≡◌, refl, arith, ◌∙◌, ap, sym, if◌then◌else◌,
  Bool-cases, Option-cases, inl, inr, subst, ◌+◌, ◌-◌, ◌<◌, ◌/◌, All, ◌==◌,
}
use diskquota.TableSize.{
  table_key_has_eq, table_key_eq, table_key_eq_iff, TableSizeEntryKey, TableSizeEntry,
  table_size_key, get_table_exist, segid_end, segid_start, TableSizeMap, get_flush_flag, get_size,
}
use diskquota.Catalog.{Env, Oid, SegId}
use diskquota.Flush.{flush_entries, FlushState, flush_segments, flush_to_table_size, Row}
use diskquota.Htab.{Htab, find}
use diskquota.Flush.Rows.{
  IsApart, IsUntouched, Kept, Kept-trans, view, row_at, view-finish, row_at-nil, view-start,
}
use diskquota.Htab.Keys.{IsDistinct}
use diskquota.Flush.Rounds.{Holds, flush_segments-Kept, flushed, flush_segments-own}
use diskquota.Words.{dec32}

module _ (env : Env) (oid : Oid) (c : SegId) where
  abbrev key : TableSizeEntryKey
  key = table_size_key oid c

  -- The round of the loop for one entry.
  abbrev after_entry : TableSizeEntry → FlushState → FlushState
  after_entry e s = (flush_segments (segid_end env e - segid_start e) (segid_start e) (e, s)).1

  flush_entries_step :
      (k : TableSizeEntryKey) (e : TableSizeEntry) (m : Htab TableSizeEntryKey TableSizeEntry)
      (num : ℕ) (s : FlushState)
      → (n : ℕ) × ((flush_entries env ((k, e) ∷ m) (num, s)).1.1
          ≡ (flush_entries env m (n, after_entry e s)).1.1)
  unfolding flush_entries
  flush_entries_step k e m num s =
      elim (Bool-cases (
        get_table_exist
          (flush_segments (segid_end env e - segid_start e) (segid_start e) (e, s)).0)) [
            | inl there ↦ (num, rw (there, flush_entries) refl)
            | inr dropped ↦ (dec32 num, rw (dropped, flush_entries) refl)
          ]

  -- The rounds of another entry do not come to the place.
  after_entry-Kept :
      (k : TableSizeEntryKey) (e : TableSizeEntry) (s : FlushState)
      → e.key ≡ k
      → (k == key) ≡ false
      → IsApart oid c s
      → Kept oid c s (after_entry e s)
  unfolding table_key_eq
  after_entry-Kept k e s keyed other apart =
      let id = ap (λ x. TableSizeEntryKey.id x) keyed in
      let rel = ap (λ x. TableSizeEntryKey.reloid x) keyed in
      flush_segments-Kept oid c (segid_end env e - segid_start e) (segid_start e) e s
        (λ j low high.
          let inside : j / 100 ≡ e.key.id = ground arith in ground (arith, inside, id, rel, other))
        apart

  after_entry-own :
      (e : TableSizeEntry) (s : FlushState)
      → e.key ≡ key
      → c < env.segcount + 1
      → IsUntouched oid c s
      → Holds oid c (flushed e c (view oid c s)) (after_entry e s)
  after_entry-own e s keyed live u =
      let id = ap (λ x. TableSizeEntryKey.id x) keyed in
      let rel = ap (λ x. TableSizeEntryKey.reloid x) keyed in
      flush_segments-own oid c (segid_end env e - segid_start e) (segid_start e) e s rel
        (omega (arith, id)) (ground (arith, id, live)) (ground arith) u

  flush_entries-Kept :
      (m : Htab TableSizeEntryKey TableSizeEntry) (num : ℕ) (s : FlushState)
      → All (λ p. p.1.key ≡ p.0) m
      → find key m ≡ none
      → IsApart oid c s
      → Kept oid c s (flush_entries env m (num, s)).1.1
  unfolding flush_entries find
  flush_entries-Kept [] num s keyed absent apart = record {
    same = refl;
    apart = apart;
    untouched = λ u. u;
  }
  flush_entries-Kept ((k, e) ∷ m) num s keyed absent apart = elim (Bool-cases (k == key)) [
    | inl same ↦ ground (arith, same, absent)
    | inr other ↦
        let (n, step) = flush_entries_step k e m num s in
        let here = after_entry-Kept k e s keyed.0 other apart in
        let rest =
          flush_entries-Kept m n (after_entry e s) keyed.1 (ground (arith, absent, other))
            here.apart in
        subst (λ x. Kept oid c s x) (sym step) (Kept-trans oid c s (after_entry e s) _ here rest)
  ]

  flush_entries-own :
      (e : TableSizeEntry) (m : Htab TableSizeEntryKey TableSizeEntry) (num : ℕ) (s : FlushState)
      → All (λ p. p.1.key ≡ p.0) m
      → IsDistinct m
      → c < env.segcount + 1
      → find key m ≡ some e
      → IsUntouched oid c s
      → Holds oid c (flushed e c (view oid c s)) (flush_entries env m (num, s)).1.1
  unfolding flush_entries find
  flush_entries-own e [] num s keyed d live f u = ground (arith, f)
  flush_entries-own e ((k, x) ∷ m) num s keyed d live f u =
      let (n, step) = flush_entries_step k x m num s in
      elim (Bool-cases (k == key)) [
        | inl same ↦
            let p : k ≡ key = (table_key_eq_iff k key).0 same in
            let x_eq : x ≡ e = ground (arith, f, same) in
            let here = after_entry-own x s (keyed.0 ∙ p) live u in
            let rest =
              flush_entries-Kept m n (after_entry x s) keyed.1 (subst (λ y. find y m ≡ none) p d.0)
                here.1 in
            let whole : Holds oid c (flushed x c (view oid c s))
                (flush_entries env ((k, x) ∷ m) (num, s)).1.1 =
              subst (λ y. Holds oid c (flushed x c (view oid c s)) y) (sym step)
                (rest.same ∙ here.0, rest.apart) in
            subst
              (λ y.
                Holds oid c (flushed y c (view oid c s))
                  (flush_entries env ((k, x) ∷ m) (num, s)).1.1)
              x_eq whole
        | inr other ↦
            let here = after_entry-Kept k x s keyed.0 other (inl u.0) in
            let rest =
              flush_entries-own e m n (after_entry x s) keyed.1 d.1 live (ground (arith, f, other))
                (here.untouched u) in
            subst (λ y. Holds oid c (flushed e c (view oid c s)) y) (sym step)
              (rest.0 ∙ ap (λ v. flushed e c v) here.same, rest.1)
      ]

-- While each entry of the map stands under its key and each key once, the table holds after a flush,
-- for every place of the cluster, what the map says of it: the size of an existing table where it was
-- marked as changed, what the table held before where it was not, no row for a dropped table, and
-- what it held before for a table that is not in the map.
pub row_at-flush_to_table_size :
    (env : Env) (t : TableSizeMap) (rows : List Row) (oid : Oid) (c : SegId)
    → All (λ p. p.1.key ≡ p.0) t.map
    → IsDistinct t.map
    → c < env.segcount + 1
    → row_at oid c (flush_to_table_size env t rows).1 ≡ elim (find (table_size_key oid c) t.map) [
      | none ↦ row_at oid c rows
      | some e ↦
          if get_table_exist e
          then (if get_flush_flag e c then some (get_size e c) else row_at oid c rows)
          else none
    ]
unfolding flush_to_table_size
row_at-flush_to_table_size env t rows oid c keyed distinct live =
    let start : FlushState = record { delete = []; update = []; table_size = rows } in
    let done = (flush_entries env t.map (t.entry_num, start)).1.1 in
    let last = view-finish oid c done in
    let fresh : IsUntouched oid c start = row_at-nil oid c in
    let before : view oid c start ≡ row_at oid c rows = view-start oid c rows in
    elim (Option-cases (find (table_size_key oid c) t.map)) [
      | inl absent ↦
          let k = flush_entries-Kept env oid c t.map t.entry_num start keyed absent (inl fresh.0) in
          rw absent (last k.apart ∙ (k.same ∙ before))
      | inr (e, found) ↦
          let h =
            flush_entries-own env oid c e t.map t.entry_num start keyed distinct live found fresh in
          rw found (last h.1 ∙ (h.0 ∙ ap (λ v. flushed e c v) before))
    ]

-- Where the rows of unmarked existing tables agreed with the map before, all rows of existing tables
-- agree with it after a flush, and no dropped table has a row.
pub row_at-flushed_map :
    (env : Env) (t : TableSizeMap) (rows : List Row) (oid : Oid) (c : SegId) (e : TableSizeEntry)
    → All (λ p. p.1.key ≡ p.0) t.map
    → IsDistinct t.map
    → c < env.segcount + 1
    → find (table_size_key oid c) t.map ≡ some e
    → (get_table_exist e ≡ true
        → get_flush_flag e c ≡ false
        → row_at oid c rows ≡ some (get_size e c))
    → row_at oid c (flush_to_table_size env t rows).1
      ≡ (if get_table_exist e then some (get_size e c) else none)
row_at-flushed_map env t rows oid c e keyed distinct live found agrees =
    row_at-flush_to_table_size env t rows oid c keyed distinct live
    ∙ rw found (elim (Bool-cases (get_table_exist e)) [
      | inr off ↦ ground (arith, off)
      | inl on ↦ elim (Bool-cases (get_flush_flag e c)) [
        | inl flagged ↦ ground (arith, on, flagged)
        | inr unflagged ↦ ground (arith, on, unflagged, agrees on unflagged)
      ]
    ])
