-- ===== src/ActiveTables/Pull/Worker.antt =====
-- A pull of the sizes from all segments, and the accounts of the worker.
use diskquota.Prelude.{
  ℕ, [], ◌∷◌, List, some, ◌≡◌, arith, nat_eq, inl, inr, ◌<◌, All, map, Option-cases, All-imp,
  length, ◌%◌, ◌≢◌, true, ap, subst, sym, eqb, refl, false,
}
use diskquota.Usage.{calculate_active_table_disk_usage, owners_of}
use diskquota.Catalog.{Env, Oid, SegId, coordinator}
use diskquota.ActiveTables.Pull.{
  pull_row, pull_rows, pull_results, TableStat, pull_sums, Pulling, pull_active_table_size_from_seg,
}
use diskquota.Htab.{find, Htab}
use diskquota.Htab.Keys.{IsDistinct, put-IsDistinct, members_lem}
use diskquota.TableSize.{TableSizeMap, get_table_size_map_entry}
use diskquota.Usage.Active.{active_size, calculate_active_table_disk_usage-Accounts}
use diskquota.QuotaInfo.{QuotaInfoMap}
use diskquota.Words.{two63, two64}
use diskquota.QuotaInfo.Sizes.{IsRoomy}
use diskquota.Usage.Invariant.{Accounts, update_owner_quotas-IsRoomy}
use diskquota.ActiveTables.Pull.Sums.{result_sum, pull_results-sum}

calculate_active_table_disk_usage-IsRoomy :
    (env : Env) (table_size : Oid → ℕ) (oid : Oid) (size : ℕ) (segid : SegId) (t : TableSizeMap)
    (q : QuotaInfoMap)
    → IsRoomy env (calculate_active_table_disk_usage env table_size oid size segid (t, q)).1
    → IsRoomy env q
unfolding calculate_active_table_disk_usage
calculate_active_table_disk_usage-IsRoomy env table_size oid size segid t q room =
    elim (Option-cases (get_table_size_map_entry env oid segid t).0) [
      | inl h ↦ rw (h, calculate_active_table_disk_usage) at room
      | inr (e, h) ↦
          update_owner_quotas-IsRoomy env _ (owners_of e) segid q
            (rw (h, calculate_active_table_disk_usage) at room)
    ]

module _ (env : Env) (table_size : Oid → ℕ) where
  abbrev IsSmall : TableStat → Type 0
  IsSmall r = active_size table_size r.reloid r.tablesize r.segid < two63

  pull_rows-IsRoomy :
      (rows : List TableStat) (s : Pulling)
      → IsRoomy env (pull_rows env table_size rows s).quotas
      → IsRoomy env s.quotas
  unfolding pull_rows pull_row
  pull_rows-IsRoomy [] s room = room
  pull_rows-IsRoomy (r ∷ rs) s room =
      calculate_active_table_disk_usage-IsRoomy env table_size r.reloid r.tablesize r.segid s.tables
        s.quotas (pull_rows-IsRoomy rs (pull_row env table_size r s) room)

  pull_rows-Accounts :
      (rows : List TableStat) (s : Pulling)
      → All IsSmall rows
      → Accounts env s.tables s.quotas
      → IsRoomy env (pull_rows env table_size rows s).quotas
      → Accounts env
          (pull_rows env table_size rows s).tables
          (pull_rows env table_size rows s).quotas
  unfolding pull_rows pull_row
  pull_rows-Accounts [] s small acc room = acc
  pull_rows-Accounts (r ∷ rs) s small acc room =
      let roomy = pull_rows-IsRoomy rs (pull_row env table_size r s) room in
      pull_rows-Accounts rs (pull_row env table_size r s) small.1
        (calculate_active_table_disk_usage-Accounts env table_size r.reloid r.tablesize r.segid
          s.tables s.quotas small.0 acc roomy)
        room

  pull_results-IsRoomy :
      (rs : List (List TableStat)) (s : Pulling)
      → IsRoomy env (pull_results env table_size (map (λ x. some x) rs) s).1.quotas
      → IsRoomy env s.quotas
  unfolding pull_results
  pull_results-IsRoomy [] s room = room
  pull_results-IsRoomy (rows ∷ rs) s room =
      pull_rows-IsRoomy rows s (pull_results-IsRoomy rs (pull_rows env table_size rows s) room)

  pull_results-Accounts :
      (rs : List (List TableStat)) (s : Pulling)
      → All (All IsSmall) rs
      → Accounts env s.tables s.quotas
      → IsRoomy env (pull_results env table_size (map (λ x. some x) rs) s).1.quotas
      → Accounts env
          (pull_results env table_size (map (λ x. some x) rs) s).1.tables
          (pull_results env table_size (map (λ x. some x) rs) s).1.quotas
  unfolding pull_results
  pull_results-Accounts [] s small acc room = acc
  pull_results-Accounts (rows ∷ rs) s small acc room =
      let s' = pull_rows env table_size rows s in
      pull_results-Accounts rs s' small.1
        (pull_rows-Accounts rows s small.0 acc (pull_results-IsRoomy rs s' room)) room

  pull_sums-IsRoomy :
      (m : Htab Oid ℕ) (t : TableSizeMap) (q : QuotaInfoMap)
      → IsRoomy env (pull_sums env table_size m (t, q)).1
      → IsRoomy env q
  unfolding pull_sums
  pull_sums-IsRoomy [] t q room = room
  pull_sums-IsRoomy ((oid, n) ∷ m) t q room =
      calculate_active_table_disk_usage-IsRoomy env table_size oid n coordinator t q
        (pull_sums-IsRoomy m _ _ room)

  pull_sums-Accounts :
      (m : Htab Oid ℕ) (t : TableSizeMap) (q : QuotaInfoMap)
      → All (λ p. active_size table_size p.0 p.1 coordinator < two63) m
      → Accounts env t q
      → IsRoomy env (pull_sums env table_size m (t, q)).1
      → Accounts env (pull_sums env table_size m (t, q)).0 (pull_sums env table_size m (t, q)).1
  unfolding pull_sums
  pull_sums-Accounts [] t q small acc room = acc
  pull_sums-Accounts ((oid, n) ∷ m) t q small acc room =
      pull_sums-Accounts m _ _ small.1
        (calculate_active_table_disk_usage-Accounts env table_size oid n coordinator t q small.0 acc
          (pull_sums-IsRoomy m _ _ room))
        room

-- The local map holds each oid once, and what it holds is the sum over the rows.
pull_row-IsDistinct :
    (env : Env) (table_size : Oid → ℕ) (r : TableStat) (s : Pulling)
    → IsDistinct s.sums
    → IsDistinct (pull_row env table_size r s).sums
unfolding pull_row
pull_row-IsDistinct env table_size r s d = put-IsDistinct r.reloid _ s.sums d

pull_rows-IsDistinct :
    (env : Env) (table_size : Oid → ℕ) (rows : List TableStat) (s : Pulling)
    → IsDistinct s.sums
    → IsDistinct (pull_rows env table_size rows s).sums
unfolding pull_rows
pull_rows-IsDistinct env table_size [] s d = d
pull_rows-IsDistinct env table_size (r ∷ rs) s d =
    pull_rows-IsDistinct env table_size rs (pull_row env table_size r s)
      (pull_row-IsDistinct env table_size r s d)

pull_results-IsDistinct :
    (env : Env) (table_size : Oid → ℕ) (rs : List (List TableStat)) (s : Pulling)
    → IsDistinct s.sums
    → IsDistinct (pull_results env table_size (map (λ x. some x) rs) s).1.sums
unfolding pull_results
pull_results-IsDistinct env table_size [] s d = d
pull_results-IsDistinct env table_size (rows ∷ rs) s d =
    pull_results-IsDistinct env table_size rs (pull_rows env table_size rows s)
      (pull_rows-IsDistinct env table_size rows s d)

-- The sizes in the local map are small where the sums over the rows are.
sums_small :
    (env : Env) (table_size : Oid → ℕ) (rs : List (List TableStat)) (t : TableSizeMap)
    (q : QuotaInfoMap)
    → ((oid : Oid) → active_size table_size oid (result_sum oid rs % two64) coordinator < two63)
    → All
        (λ p. active_size table_size p.0 p.1 coordinator < two63)
        (pull_results env table_size
          (map (λ x. some x) rs)
          (record { tables = t; quotas = q; sums = [] })).1.sums
unfolding find
sums_small env table_size rs t q small =
    let start : Pulling = record { tables = t; quotas = q; sums = [] } in
    let m = (pull_results env table_size (map (λ x. some x) rs) start).1.sums in
    All-imp (λ p. find p.0 m ≡ some p.1) (λ p. active_size table_size p.0 p.1 coordinator < two63) m
      (λ p h.
        let sum = (pull_results-sum env table_size p.0 rs start (omega arith)).1 in
        let n : p.1 ≡ result_sum p.0 rs % two64 = ground (arith, sum, h) in
        subst (λ x. active_size table_size p.0 x coordinator < two63) (sym n) (small p.0))
      (members_lem m (pull_results-IsDistinct env table_size rs start tt))

-- What the whole pull computes when all segments answer.
pull_active_table_size_from_seg-run :
    (env : Env) (table_size : Oid → ℕ) (rs : List (List TableStat)) (t : TableSizeMap)
    (q : QuotaInfoMap)
    → length (map (λ x. some x) rs) ≡ env.segcount
    → env.segcount ≢ 0
    → pull_active_table_size_from_seg env table_size (map (λ x. some x) rs) (t, q) ≡ (
      true,
      pull_sums env table_size
          (pull_results env table_size
            (map (λ x. some x) rs)
            (record { tables = t; quotas = q; sums = [] })).1.sums
          (
            (pull_results env table_size
                (map (λ x. some x) rs)
                (record { tables = t; quotas = q; sums = [] })).1.tables,
            (pull_results env table_size
                (map (λ x. some x) rs)
                (record { tables = t; quotas = q; sums = [] })).1.quotas,
          ),
    )
unfolding pull_active_table_size_from_seg find
pull_active_table_size_from_seg-run env table_size rs t q all some_segments =
    let start : Pulling = record { tables = t; quotas = q; sums = [] } in
    let e : record env { segcount = length (map (λ x. some x) rs) } ≡ env =
      ap (λ n. record env { segcount = n }) all in
    let nonzero : eqb (length (map (λ x. some x) rs)) 0 ≡ false =
      ground (arith, all, some_segments) in
    let ok = (pull_results-sum env table_size 0 rs start (omega arith)).0 in
    rw (nonzero, e, ok) refl

-- If all segments answer, as many as before, if no size reaches 2 ^ 63, neither a segment's nor the sum
-- over the segments with the coordinator's own bytes, and if the map of quotas does not fill up, then
-- the pull succeeds, and every live quota still has the sum of the sizes of its tables.
pub pull_active_table_size_from_seg-Accounts :
    (env : Env) (table_size : Oid → ℕ) (rs : List (List TableStat)) (t : TableSizeMap)
    (q : QuotaInfoMap)
    → length (map (λ x. some x) rs) ≡ env.segcount
    → env.segcount ≢ 0
    → All (All (λ r. active_size table_size r.reloid r.tablesize r.segid < two63)) rs
    → ((oid : Oid) → active_size table_size oid (result_sum oid rs % two64) coordinator < two63)
    → Accounts env t q
    → IsRoomy env (pull_active_table_size_from_seg env table_size (map (λ x. some x) rs) (t, q)).1.1
    → ((pull_active_table_size_from_seg env table_size (map (λ x. some x) rs) (t, q)).0 ≡ true)
      × Accounts env
          (pull_active_table_size_from_seg env table_size (map (λ x. some x) rs) (t, q)).1.0
          (pull_active_table_size_from_seg env table_size (map (λ x. some x) rs) (t, q)).1.1
pull_active_table_size_from_seg-Accounts env table_size rs t q all some_segments small total acc
      room =
    let start : Pulling = record { tables = t; quotas = q; sums = [] } in
    let pulled = (pull_results env table_size (map (λ x. some x) rs) start).1 in
    let run = pull_active_table_size_from_seg-run env table_size rs t q all some_segments in
    let room' = subst (λ x. IsRoomy env x.1.1) run room in
    subst (λ x. (x.0 ≡ true) × Accounts env x.1.0 x.1.1) (sym run)
      (
        refl,
        pull_sums-Accounts env table_size pulled.sums pulled.tables pulled.quotas
            (sums_small env table_size rs t q total)
            (pull_results-Accounts env table_size rs start small acc
              (pull_sums-IsRoomy env table_size pulled.sums pulled.tables pulled.quotas room'))
            room',
      )
