-- ===== src/ActiveTables/Pull/Sums.antt =====
-- The sums that the coordinator forms over the segments.
use diskquota.Prelude.{
  ℕ, [], ◌∷◌, List, true, Option, none, some, ◌≡◌, refl, ◌+◌, ◌%◌, arith, eqb, if◌then◌else◌,
  nat_eq, Bool-cases, inl, inr, eqb_iff, ◌<◌, map,
}
use diskquota.ActiveTables.Pull.{
  table_entry_key_has_eq, TableStat, pull_row, pull_rows, pull_results, Pulling,
}
use diskquota.Catalog.{Oid, Env}
use diskquota.Htab.{Htab, find}
use diskquota.Words.{two64, add64}
use diskquota.Htab.Laws.{find-put}

-- The sizes of one relation in all rows.
unfoldable pub row_sum : Oid → List TableStat → ℕ
row_sum oid [] = 0
row_sum oid (r ∷ rs) = (if eqb r.reloid oid then r.tablesize else 0) + row_sum oid rs

unfoldable pub result_sum : Oid → List (List TableStat) → ℕ
unfolding row_sum
result_sum oid [] = 0
result_sum oid (rows ∷ rs) = row_sum oid rows + result_sum oid rs

-- What the local map holds of a relation.
abbrev pub sum_at : Oid → Htab Oid ℕ → ℕ
sum_at oid m = elim (find oid m) [ none ↦ 0 | some n ↦ n ]

abbrev pub AreWords : Htab Oid ℕ → Type 0
AreWords m = (oid : Oid) → sum_at oid m < two64

module _ (env : Env) (table_size : Oid → ℕ) where
  pull_row-sum :
      (oid : Oid) (r : TableStat) (s : Pulling)
      → sum_at oid s.sums < two64
      → sum_at oid (pull_row env table_size r s).sums
        ≡ (sum_at oid s.sums + (if eqb r.reloid oid then r.tablesize else 0)) % two64
  unfolding pull_row add64
  pull_row-sum oid r s word = elim (Bool-cases (eqb r.reloid oid)) [
    | inl same ↦
        let p : r.reloid ≡ oid = (eqb_iff r.reloid oid).0 same in
        ground (
          arith,
          same,
          p,
          find-put r.reloid oid ((sum_at r.reloid s.sums + r.tablesize) % two64) s.sums,
        )
    | inr other ↦ ground (
      arith,
      other,
      find-put r.reloid oid ((sum_at r.reloid s.sums + r.tablesize) % two64) s.sums,
    )
  ]

  pull_rows-sum :
      (oid : Oid) (rows : List TableStat) (s : Pulling)
      → sum_at oid s.sums < two64
      → sum_at oid (pull_rows env table_size rows s).sums
        ≡ (sum_at oid s.sums + row_sum oid rows) % two64
  unfolding pull_rows row_sum
  pull_rows-sum oid [] s word = omega arith
  pull_rows-sum oid (r ∷ rs) s word =
      let one = pull_row-sum oid r s word in
      let rest = pull_rows-sum oid rs (pull_row env table_size r s) (omega arith) in
      omega (arith, one, rest)

  -- Every result is good.
  abbrev good : List (List TableStat) → List (Option (List TableStat))
  good rs = map (λ rows. some rows) rs

  pub pull_results-sum :
      (oid : Oid) (rs : List (List TableStat)) (s : Pulling)
      → sum_at oid s.sums < two64
      → ((pull_results env table_size (map (λ rows. some rows) rs) s).0 ≡ true)
        × (sum_at oid (pull_results env table_size (map (λ rows. some rows) rs) s).1.sums
            ≡ (sum_at oid s.sums + result_sum oid rs) % two64)
  unfolding pull_results result_sum
  pull_results-sum oid [] s word = (refl, omega arith)
  pull_results-sum oid (rows ∷ rs) s word =
      let one = pull_rows-sum oid rows s word in
      let (ok, rest) = pull_results-sum oid rs (pull_rows env table_size rows s) (omega arith) in
      (ok, omega (arith, one, rest))
