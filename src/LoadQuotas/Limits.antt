-- ===== src/LoadQuotas/Limits.antt =====
-- The limits after a load, and the configuration tables.
use diskquota.LoadQuotas.Configured.{row_limit, rows_limit, configured_limit}
use diskquota.LoadQuotas.Joined.{IsGood, rows_limit-select_rows}
use diskquota.Prelude.{
  ℕ, suc, [], ◌∷◌, List, Bool, true, none, ◌≡◌, ◌≢◌, ◌+◌, ◌<◌, refl, arith, ◌∙◌, inl, inr, ap, ◌⊎◌,
  Option, Option-cases, false, subst, All,
}
use diskquota.QuotaType.{quota_key_has_eq, QuotaInfoEntryKey, QuotaType}
use diskquota.LoadQuotas.{
  clean_tables, row_error, set_limit, RowAction, load_rows, QuotaRow, row_action, select_rows,
  load_quotas, do_load_quotas,
}
use diskquota.Catalog.{Env, Oid, coordinator}
use diskquota.QuotaInfo.{
  update_limit_for_quota, QuotaInfoMap, clean_all_quota_limit, QuotaInfoEntry,
}
use diskquota.LoadQuotas.Segments.{
  update_limits_from-IsRoomy, size_of-update_limits_from, limit_of, limit_of-update_limits_from,
}
use diskquota.QuotaInfo.Sizes.{IsRoomy, size_of}
use diskquota.Config.{Tables}
use diskquota.Words.{minus_one64}
use diskquota.Htab.{find}
use diskquota.Htab.Laws.{find-update_all-none, find-update_all}

RowAction-cases :
    (a : RowAction)
    → (a ≡ clean_tables)
      ⊎ ((a ≡ row_error)
          ⊎ ((type : QuotaType) × (keys : Oid × Oid) × (limit : ℕ) × (segratio : ℕ) × (a
                ≡ set_limit type keys limit segratio)))
RowAction-cases clean_tables = inl refl
RowAction-cases row_error = inr (inl refl)
RowAction-cases (set_limit type keys limit segratio) = inr (inr (type, keys, limit, segratio, refl))

module _ (env : Env) where
  load_rows-IsRoomy :
      (rs : List QuotaRow) (clean : Bool) (q : QuotaInfoMap)
      → IsRoomy env (load_rows env rs (clean, q)).1
      → IsRoomy env q
  unfolding load_rows update_limit_for_quota
  load_rows-IsRoomy [] clean q room = room
  load_rows-IsRoomy (r ∷ rs) clean q room = elim (RowAction-cases (row_action env r)) [
    | inl h ↦ load_rows-IsRoomy rs true q (rw (h, load_rows) at room)
    | inr (inl h) ↦ rw (h, load_rows) at room
    | inr (inr (type, keys, limit, segratio, h)) ↦
        update_limits_from-IsRoomy env limit segratio type keys (suc env.segcount) coordinator q (
          load_rows-IsRoomy rs clean (update_limit_for_quota env limit segratio type keys q)
            (rw (h, load_rows) at room))
  ]

  size_of-load_rows :
      (k : QuotaInfoEntryKey) (rs : List QuotaRow) (clean : Bool) (q : QuotaInfoMap)
      → size_of (load_rows env rs (clean, q)).1 k ≡ size_of q k
  unfolding load_rows update_limit_for_quota
  size_of-load_rows k [] clean q = refl
  size_of-load_rows k (r ∷ rs) clean q = elim (RowAction-cases (row_action env r)) [
    | inl h ↦ rw (h, load_rows) (size_of-load_rows k rs true q)
    | inr (inl h) ↦ rw (h, load_rows) refl
    | inr (inr (type, keys, limit, segratio, h)) ↦
        rw (h, load_rows)
          (size_of-load_rows k rs clean (update_limit_for_quota env limit segratio type keys q)
            ∙ size_of-update_limits_from env limit segratio type keys k (suc env.segcount)
                coordinator q)
  ]

  limit_of-update :
      (k : QuotaInfoEntryKey) (type : QuotaType) (keys : Oid × Oid) (limit segratio : ℕ)
      (q : QuotaInfoMap)
      → k.segid < env.segcount + 1
      → IsRoomy env (update_limit_for_quota env limit segratio type keys q)
      → limit_of (update_limit_for_quota env limit segratio type keys q) k
        ≡ row_limit env k (set_limit type keys limit segratio) (limit_of q k)
  unfolding update_limit_for_quota
  limit_of-update k type keys limit segratio q live room =
      let all =
        limit_of-update_limits_from env limit segratio type keys k (suc env.segcount) coordinator q
          room in
      ground (arith, all, live)

  limit_of-load_rows :
      (k : QuotaInfoEntryKey) (rs : List QuotaRow) (clean : Bool) (q : QuotaInfoMap)
      → k.segid < env.segcount + 1
      → (load_rows env rs (clean, q)).0 ≢ none
      → IsRoomy env (load_rows env rs (clean, q)).1
      → limit_of (load_rows env rs (clean, q)).1 k ≡ rows_limit env k rs (limit_of q k)
  unfolding load_rows rows_limit
  limit_of-load_rows k [] clean q live good room = refl
  limit_of-load_rows k (r ∷ rs) clean q live good room = elim (RowAction-cases (row_action env r)) [
    | inl h ↦
        rw (h, load_rows)
          (limit_of-load_rows k rs true q live (rw (h, load_rows) at good)
            (rw (h, load_rows) at room))
    | inr (inl h) ↦ elim ((rw (h, load_rows) at good) refl) [ ]
    | inr (inr (type, keys, limit, segratio, h)) ↦
        let q' = update_limit_for_quota env limit segratio type keys q in
        let room' = rw (h, load_rows) at room in
        let one =
          limit_of-update k type keys limit segratio q live (load_rows-IsRoomy rs clean q' room') in
        rw (h, load_rows)
          (limit_of-load_rows k rs clean q' live (rw (h, load_rows) at good) room'
            ∙ ap (λ x. rows_limit env k rs x) one)
  ]

-- A loop that does not end in an error has met no row that is one.
load_rows-IsGood :
    (env : Env) (rs : List QuotaRow) (clean : Bool) (q : QuotaInfoMap)
    → (load_rows env rs (clean, q)).0 ≢ none
    → All (IsGood env) rs
unfolding load_rows
load_rows-IsGood env [] clean q good = tt
load_rows-IsGood env (r ∷ rs) clean q good = elim (RowAction-cases (row_action env r)) [
  | inl h ↦ (λ p. ground (arith, h, p), load_rows-IsGood env rs true q (rw (h, load_rows) at good))
  | inr (inl h) ↦ elim ((rw (h, load_rows) at good) refl) [ ]
  | inr (inr (type, keys, limit, segratio, h)) ↦ (
    λ p. ground (arith, h, p),
    load_rows-IsGood env rs clean (update_limit_for_quota env limit segratio type keys q)
        (rw (h, load_rows) at good),
  )
]

limit_of-clean :
    (q : QuotaInfoMap) (k : QuotaInfoEntryKey) → limit_of (clean_all_quota_limit q) k ≡ minus_one64
unfolding clean_all_quota_limit
limit_of-clean q k =
    let f : QuotaInfoEntry → QuotaInfoEntry = λ e. record e { limit = minus_one64 } in
    elim (Option-cases (find k q.map)) [
      | inl h ↦ ground (arith, find-update_all-none f k q.map h)
      | inr (e, h) ↦ ground (arith, find-update_all f k q.map e h)
    ]

size_of-clean :
    (q : QuotaInfoMap) (k : QuotaInfoEntryKey) → size_of (clean_all_quota_limit q) k ≡ size_of q k
unfolding clean_all_quota_limit
size_of-clean q k =
    let f : QuotaInfoEntry → QuotaInfoEntry = λ e. record e { limit = minus_one64 } in
    elim (Option-cases (find k q.map)) [
      | inl h ↦ ground (arith, h, find-update_all-none f k q.map h)
      | inr (e, h) ↦ ground (arith, h, find-update_all f k q.map e h)
    ]

module _ (env : Env) (t : Tables) (q : QuotaInfoMap) where
  abbrev rows : List QuotaRow
  rows = select_rows t.quota_config t.target

  abbrev loaded : Option Bool × QuotaInfoMap
  loaded = load_rows env rows (false, clean_all_quota_limit q)

  load_quotas-quotas : (load_quotas env t q).1.1 ≡ loaded.1
  unfolding load_quotas do_load_quotas
  load_quotas-quotas = elim (Option-cases loaded.0) [
    | inl h ↦ ground (arith, h)
    | inr (b, h) ↦ ground (arith, h)
  ]

  load_quotas-good : (load_quotas env t q).0 ≡ true → loaded.0 ≢ none
  unfolding load_quotas do_load_quotas
  load_quotas-good good p = ground (arith, good, p)

  -- A load changes the size of no quota, whether it succeeds or not. After a load that succeeds, if
  -- the map did not fill up, the limit of every quota of the cluster's segments is the one that the
  -- last row of diskquota.quota_config gives it that is for the quota, by diskquota.target if the
  -- quota has a tablespace, in bytes and for a segment its share, if the quota's objects are in the
  -- catalog, and -1 where no row does.
  pub load_quotas-configured_limit :
      (k : QuotaInfoEntryKey)
      → k.segid < env.segcount + 1
      → IsRoomy env (load_quotas env t q).1.1
      → (size_of (load_quotas env t q).1.1 k ≡ size_of q k)
        × ((load_quotas env t q).0 ≡ true
            → limit_of (load_quotas env t q).1.1 k
              ≡ configured_limit env k t.target t.quota_config minus_one64)
  load_quotas-configured_limit k live room = (
    ap (λ x. size_of x k) load_quotas-quotas
        ∙ (size_of-load_rows env k rows false (clean_all_quota_limit q) ∙ size_of-clean q k),
    λ good.
        ap (λ x. limit_of x k) load_quotas-quotas
        ∙ (limit_of-load_rows env k rows false (clean_all_quota_limit q) live
              (load_quotas-good good) (subst (λ x. IsRoomy env x) load_quotas-quotas room)
            ∙ (ap (λ x. rows_limit env k rows x) (limit_of-clean q k)
                ∙ rows_limit-select_rows env k t.quota_config t.target minus_one64 (
                    load_rows-IsGood env rows false (clean_all_quota_limit q)
                      (load_quotas-good good)))),
  )
