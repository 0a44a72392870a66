-- ===== src/LoadQuotas/Joined.antt =====
-- The rows that the query of do_load_quotas has for each row of diskquota.quota_config, and the limits
-- that they give.
use diskquota.QuotaType.{
  namespace_quota, role_quota, namespace_tablespace_quota, role_tablespace_quota, tablespace_quota,
  quota_key_has_eq, quota_key_eq_iff, make_quota_key, quota_type_eq, QuotaInfoEntryKey, QuotaType,
}
use diskquota.LoadQuotas.{
  row_error, joined_row, has_tablespace, quota_type_of, QuotaRow, row_action, row_of_type,
  joined_rows, matching_targets, select_rows,
}
use diskquota.Catalog.{Env, Oid}
use diskquota.Prelude.{
  sym, [], ◌∷◌, false, ◌≡◌, arith, if◌then◌else◌, List, Bool, ℕ, eqb, ◌≢◌, ◌&&◌, true, All,
  Bool-cases, inr, subst, inl, ap, ◌∙◌, refl, ◌⊎◌, ◌++◌,
}
use diskquota.Config.{ConfigKey, ConfigRow, TargetRow, QuotaConfig}
use diskquota.LoadQuotas.Configured.{
  row_limit, rows_limit, is_known, is_row_of, has_target_of, configured_value, configured_limit,
}

abbrev pub IsGood : Env → QuotaRow → Type 0
IsGood env r = row_action env r ≢ row_error

module _ (env : Env) (k : QuotaInfoEntryKey) (c : ConfigRow) (before : ℕ) where
  -- What a row of the query makes of the limit, by the type of quota.
  abbrev limit_if : Bool → ℕ
  limit_if b = if b then configured_value env k.segid c else before

  row_limit_plain :
      (oid : Oid) (y : QuotaType)
      → has_tablespace y ≡ false
      → row_limit env k
          (row_action env (joined_row (record { targetoid = oid; quotatype = y }) c 0 0))
          before
        ≡ limit_if (is_known env k && is_row_of k [] (record { targetoid = oid; quotatype = y }))
  unfolding row_action row_of_type quota_type_of
  row_limit_plain oid namespace_quota h =
      ground (arith, quota_key_eq_iff (make_quota_key namespace_quota (oid, 0) k.segid) k)
  row_limit_plain oid role_quota h =
      ground (arith, quota_key_eq_iff (make_quota_key role_quota (oid, 0) k.segid) k)
  row_limit_plain oid tablespace_quota h =
      ground (arith, quota_key_eq_iff (make_quota_key tablespace_quota (oid, 0) k.segid) k)
  row_limit_plain oid namespace_tablespace_quota h = ground (arith, h)
  row_limit_plain oid role_tablespace_quota h = ground (arith, h)

  row_limit_linked :
      (oid : Oid) (y : QuotaType) (t : TargetRow)
      → has_tablespace y ≡ true
      → IsGood env
          (joined_row (record { targetoid = oid; quotatype = y }) c t.tablespaceoid t.primaryoid)
      → row_limit env k
          (row_action env
            (joined_row (record { targetoid = oid; quotatype = y }) c t.tablespaceoid t.primaryoid))
          before
        ≡ limit_if (
            is_known env k
            && quota_type_eq y k.type
            && eqb t.primaryoid k.key0
            && eqb t.tablespaceoid k.key1)
  unfolding row_action row_of_type quota_type_of
  row_limit_linked oid namespace_quota t h good = ground (arith, h)
  row_limit_linked oid role_quota t h good = ground (arith, h)
  row_limit_linked oid tablespace_quota t h good = ground (arith, h)
  row_limit_linked oid namespace_tablespace_quota t h good = ground (
    arith,
    good,
    quota_key_eq_iff
        (make_quota_key namespace_tablespace_quota (t.primaryoid, t.tablespaceoid) k.segid) k,
  )
  row_limit_linked oid role_tablespace_quota t h good = ground (
    arith,
    good,
    quota_key_eq_iff (make_quota_key role_tablespace_quota (t.primaryoid, t.tablespaceoid) k.segid)
        k,
  )

  -- A row without a target is only cleaned away.
  row_limit_lost :
      (oid : Oid) (y : QuotaType)
      → has_tablespace y ≡ true
      → IsGood env (joined_row (record { targetoid = oid; quotatype = y }) c 0 0)
      → row_limit env k
          (row_action env (joined_row (record { targetoid = oid; quotatype = y }) c 0 0))
          before
        ≡ before
  unfolding row_action row_of_type quota_type_of
  row_limit_lost oid namespace_quota h good = ground (arith, h)
  row_limit_lost oid role_quota h good = ground (arith, h)
  row_limit_lost oid tablespace_quota h good = ground (arith, h)
  row_limit_lost oid namespace_tablespace_quota h good = ground (arith, good)
  row_limit_lost oid role_tablespace_quota h good = ground (arith, good)

-- All the rows that the query has for a configuration row with these targets.
abbrev own_rows_of : ConfigKey → ConfigRow → List TargetRow → List QuotaRow
own_rows_of j c [] = joined_row j c 0 0 ∷ []
own_rows_of j c (t ∷ ts) = joined_rows j c (t ∷ ts)

List-cases :
    (ts : List TargetRow) → (ts ≡ []) ⊎ ((u : TargetRow) × (us : List TargetRow) × (ts ≡ u ∷ us))
List-cases [] = inl refl
List-cases (t ∷ ts) = inr (t, ts, refl)

module _ (env : Env) (k : QuotaInfoEntryKey) (c : ConfigRow) (j : ConfigKey) where
  -- The rows that the join makes of a configuration row with its targets.
  rows_limit-joined :
      (ts : List TargetRow) (before : ℕ)
      → has_tablespace j.quotatype ≡ true
      → All (IsGood env) (joined_rows j c (matching_targets j ts))
      → rows_limit env k (joined_rows j c (matching_targets j ts)) before
        ≡ limit_if env k c before
            (is_known env k && (quota_type_eq j.quotatype k.type && has_target_of k j ts))
  unfolding rows_limit joined_rows matching_targets has_target_of
  rows_limit-joined [] before h good = ground arith
  rows_limit-joined (t ∷ ts) before h good =
      elim (Bool-cases (eqb j.targetoid t.row_id && quota_type_eq j.quotatype t.quotatype)) [
        | inr other ↦
            let skip : matching_targets j (t ∷ ts) ≡ matching_targets j ts =
              ground (arith, other, h) in
            let good' = subst (λ x. All (IsGood env) (joined_rows j c x)) skip good in
            ground (arith, other, skip, rows_limit-joined ts before h good')
        | inl own ↦
            let take : matching_targets j (t ∷ ts) ≡ t ∷ matching_targets j ts =
              ground (arith, own, h) in
            let good' = subst (λ x. All (IsGood env) (joined_rows j c x)) take good in
            let one = row_limit_linked env k c before j.targetoid j.quotatype t h good'.0 in
            let next =
              row_limit env k (row_action env (joined_row j c t.tablespaceoid t.primaryoid))
                before in
            let rest = rows_limit-joined ts next h good'.1 in
            ap (λ x. rows_limit env k (joined_rows j c x) before) take
            ∙ (rest ∙ ground (arith, one, own))
      ]

  matching_targets-plain :
      (ts : List TargetRow) → has_tablespace j.quotatype ≡ false → matching_targets j ts ≡ []
  unfolding matching_targets
  matching_targets-plain [] h = refl
  matching_targets-plain (t ∷ ts) h = ground (arith, h, matching_targets-plain ts h)

  is_row_of-linked :
      (ts : List TargetRow)
      → has_tablespace j.quotatype ≡ true
      → is_row_of k ts j ≡ (quota_type_eq j.quotatype k.type && has_target_of k j ts)
  is_row_of-linked ts h = ground (arith, h)

  is_row_of-plain :
      (ts : List TargetRow)
      → has_tablespace j.quotatype ≡ false
      → is_row_of k ts j ≡ is_row_of k [] j
  is_row_of-plain ts h = ground (arith, h)

  rows_limit-own :
      (ts : List TargetRow) (before : ℕ)
      → All (IsGood env) (own_rows_of j c (matching_targets j ts))
      → rows_limit env k (own_rows_of j c (matching_targets j ts)) before
        ≡ limit_if env k c before (is_known env k && is_row_of k ts j)
  unfolding rows_limit joined_rows
  rows_limit-own ts before good = elim (Bool-cases (has_tablespace j.quotatype)) [
    | inr plain ↦
        let p = matching_targets-plain ts plain in
        ap (λ x. rows_limit env k (own_rows_of j c x) before) p
        ∙ (row_limit_plain env k c before j.targetoid j.quotatype plain
            ∙ ap (λ b. limit_if env k c before (is_known env k && b))
                (sym (is_row_of-plain ts plain)))
    | inl linked ↦
        let r : limit_if env k c before
              (is_known env k && (quota_type_eq j.quotatype k.type && has_target_of k j ts))
            ≡ limit_if env k c before (is_known env k && is_row_of k ts j) =
          ap (λ b. limit_if env k c before (is_known env k && b))
            (sym (is_row_of-linked ts linked)) in
        elim (List-cases (matching_targets j ts)) [
          | inl p ↦
              let good' = subst (λ x. All (IsGood env) (own_rows_of j c x)) p good in
              let all =
                rows_limit-joined ts before linked
                  (subst (λ x. All (IsGood env) (joined_rows j c x)) (sym p) tt) in
              let lost = row_limit_lost env k c before j.targetoid j.quotatype linked good'.0 in
              ap (λ x. rows_limit env k (own_rows_of j c x) before) p
              ∙ (lost ∙ (sym (ap (λ x. rows_limit env k (joined_rows j c x) before) p) ∙ (all ∙ r)))
          | inr (u, us, p) ↦
              let good' = subst (λ x. All (IsGood env) (own_rows_of j c x)) p good in
              let all =
                rows_limit-joined ts before linked
                  (subst (λ x. All (IsGood env) (joined_rows j c x)) (sym p) good') in
              ap (λ x. rows_limit env k (own_rows_of j c x) before) p
              ∙ (sym (ap (λ x. rows_limit env k (joined_rows j c x) before) p) ∙ (all ∙ r))
        ]
  ]

rows_limit-append :
    (env : Env) (k : QuotaInfoEntryKey) (rs ss : List QuotaRow) (before : ℕ)
    → rows_limit env k (rs ++ ss) before ≡ rows_limit env k ss (rows_limit env k rs before)
unfolding rows_limit
rows_limit-append env k [] ss before = refl
rows_limit-append env k (r ∷ rs) ss before = rows_limit-append env k rs ss _

All-append :
    (env : Env) (rs ss : List QuotaRow)
    → All (IsGood env) (rs ++ ss)
    → All (IsGood env) rs × All (IsGood env) ss
All-append env [] ss h = (tt, h)
All-append env (r ∷ rs) ss h = let (a, b) = All-append env rs ss h.1 in ((h.0, a), b)

select_rows-step :
    (j : ConfigKey) (c : ConfigRow) (m : QuotaConfig) (ts : List TargetRow)
    → select_rows ((j, c) ∷ m) ts ≡ own_rows_of j c (matching_targets j ts) ++ select_rows m ts
unfolding select_rows
select_rows-step j c m ts = elim (List-cases (matching_targets j ts)) [
  | inl p ↦ ground (arith, p)
  | inr (u, us, p) ↦ ground (arith, p)
]

-- If no row of the query is an error, its rows give every quota the limit that the configuration
-- gives it.
pub rows_limit-select_rows :
    (env : Env) (k : QuotaInfoEntryKey) (m : QuotaConfig) (ts : List TargetRow) (before : ℕ)
    → All (IsGood env) (select_rows m ts)
    → rows_limit env k (select_rows m ts) before ≡ configured_limit env k ts m before
unfolding rows_limit configured_limit select_rows
rows_limit-select_rows env k [] ts before good = refl
rows_limit-select_rows env k ((j, c) ∷ m) ts before good =
    let p = select_rows-step j c m ts in
    let own = own_rows_of j c (matching_targets j ts) in
    let (g, h) = All-append env own (select_rows m ts) (subst (λ x. All (IsGood env) x) p good) in
    ap (λ x. rows_limit env k x before) p
    ∙ (rows_limit-append env k own (select_rows m ts) before
        ∙ (rows_limit-select_rows env k m ts (rows_limit env k own before) h
            ∙ ap (λ x. configured_limit env k ts m x) (rows_limit-own env k c j ts before g)))
