-- ===== src/Flush/Rows.antt =====
-- What the table diskquota.table_size holds at one place through the batches of a flush.
use diskquota.Prelude.{
  subst, length, ltb, ℕ, [], ◌∷◌, List, true, false, Option, none, some, ◌≡◌, ◌++◌, ◌⊎◌, refl,
  arith, ◌∙◌, ap, sym, if◌then◌else◌, Bool-cases, inl, inr, eqb_iff,
}
use diskquota.Catalog.{Oid, SegId}
use diskquota.Flush.{
  is_listed, delete_rows, delete_from_table_size_map, update_table_size_map, Row, same_place,
  FlushState, accumulate_delete, accumulate_update, sql_max_values_number,
}

-- The size in the first row for a table on a segment.
unfoldable pub row_at : Oid → SegId → List Row → Option ℕ
row_at oid c [] = none
row_at oid c (r ∷ rs) =
    let rest = row_at oid c rs in if same_place oid c r then some r.size else rest

-- What the statements that are still to come will make of it.
unfoldable pub view : Oid → SegId → FlushState → Option ℕ
unfolding row_at
view oid c s = elim (row_at oid c s.update) [
  | some v ↦ some v
  | none ↦ elim (row_at oid c s.delete) [ some _ ↦ none | none ↦ row_at oid c s.table_size ]
]

abbrev pub IsUntouched : Oid → SegId → FlushState → Type 0
IsUntouched oid c s = (row_at oid c s.update ≡ none) × (row_at oid c s.delete ≡ none)

-- A place is not in both arrays.
abbrev pub IsApart : Oid → SegId → FlushState → Type 0
IsApart oid c s = (row_at oid c s.update ≡ none) ⊎ (row_at oid c s.delete ≡ none)

row_at-append :
    (oid : Oid) (c : SegId) (xs ys : List Row)
    → row_at oid c (xs ++ ys) ≡ elim (row_at oid c xs) [ none ↦ row_at oid c ys | some v ↦ some v ]
unfolding row_at
row_at-append oid c [] ys = refl
row_at-append oid c (x ∷ xs) ys = ground (arith, row_at-append oid c xs ys)

is_listed-row_at :
    (r : Row) (xs : List Row)
    → is_listed r xs ≡ elim (row_at r.tableid r.segid xs) [ none ↦ false | some _ ↦ true ]
unfolding is_listed row_at
is_listed-row_at r [] = refl
is_listed-row_at r (x ∷ xs) = ground (
  arith,
  is_listed-row_at r xs,
  eqb_iff r.tableid x.tableid,
  eqb_iff x.tableid r.tableid,
  eqb_iff r.segid x.segid,
  eqb_iff x.segid r.segid,
)

row_at-delete_rows :
    (oid : Oid) (c : SegId) (listed rows : List Row)
    → row_at oid c (delete_rows listed rows)
      ≡ elim (row_at oid c listed) [ some _ ↦ none | none ↦ row_at oid c rows ]
unfolding delete_rows row_at
row_at-delete_rows oid c listed [] = ground arith
row_at-delete_rows oid c listed (r ∷ rs) = elim (Bool-cases (same_place oid c r)) [
  | inl here ↦
      let p : r.tableid ≡ oid = ground (arith, here, eqb_iff r.tableid oid) in
      let q : r.segid ≡ c = ground (arith, here, eqb_iff r.segid c) in
      let l : is_listed r listed ≡ elim (row_at oid c listed) [ none ↦ false | some _ ↦ true ] =
        is_listed-row_at r listed
        ∙ ap (λ x. elim (row_at x r.segid listed) [ none ↦ false | some _ ↦ true ]) p
        ∙ ap (λ x. elim (row_at oid x listed) [ none ↦ false | some _ ↦ true ]) q in
      ground (arith, here, l, row_at-delete_rows oid c listed rs)
  | inr other ↦ ground (arith, other, row_at-delete_rows oid c listed rs)
]

-- A statement changes nothing of the view.
view-delete :
    (oid : Oid) (c : SegId) (s : FlushState)
    → view oid c (delete_from_table_size_map s) ≡ view oid c s
unfolding view row_at delete_from_table_size_map
view-delete oid c s = ground (arith, row_at-delete_rows oid c s.delete s.table_size)

view-update :
    (oid : Oid) (c : SegId) (s : FlushState)
    → IsApart oid c s
    → view oid c (update_table_size_map s) ≡ view oid c s
unfolding view row_at update_table_size_map
view-update oid c s apart = ground (
  arith,
  row_at-append oid c (delete_rows s.update s.table_size) s.update,
  row_at-delete_rows oid c s.update s.table_size,
  apart,
)

-- A change of the arrays at another place.
pub record Kept (oid : Oid) (c : SegId) (s s' : FlushState) : Type 0 where
  pub same : view oid c s' ≡ view oid c s
  pub apart : IsApart oid c s'
  pub untouched : IsUntouched oid c s → IsUntouched oid c s'

pub Kept-trans :
    (oid : Oid) (c : SegId) (s s1 s2 : FlushState)
    → Kept oid c s s1
    → Kept oid c s1 s2
    → Kept oid c s s2
Kept-trans oid c s s1 s2 k l = record {
  same = l.same ∙ k.same;
  apart = l.apart;
  untouched = λ u. l.untouched (k.untouched u);
}

pub delete-Kept :
    (oid : Oid) (c : SegId) (s : FlushState) → Kept oid c s (delete_from_table_size_map s)
unfolding delete_from_table_size_map row_at
delete-Kept oid c s = record {
  same = view-delete oid c s;
  apart = inr refl;
  untouched = λ u. (u.0, refl);
}

pub update-Kept :
    (oid : Oid) (c : SegId) (s : FlushState)
    → IsApart oid c s
    → Kept oid c s (update_table_size_map s)
unfolding update_table_size_map row_at
update-Kept oid c s apart = record {
  same = view-update oid c s apart;
  apart = inl refl;
  untouched = λ u. (refl, u.1);
}

module _ (oid : Oid) (c : SegId) (r : Row) (s : FlushState) where
  abbrev to_delete : FlushState
  to_delete = record s { delete = r ∷ s.delete }

  abbrev to_update : FlushState
  to_update = record s { update = r ∷ s.update }

  to_delete-Kept : same_place oid c r ≡ false → IsApart oid c s → Kept oid c s to_delete
  unfolding row_at view
  to_delete-Kept other apart = record {
    same = ground (arith, other);
    apart = rw other apart;
    untouched = λ u. rw other u;
  }

  to_update-Kept : same_place oid c r ≡ false → IsApart oid c s → Kept oid c s to_update
  unfolding row_at view
  to_update-Kept other apart = record {
    same = ground (arith, other);
    apart = rw other apart;
    untouched = λ u. rw other u;
  }

  accumulate_delete-cases :
      (accumulate_delete r s ≡ to_delete)
      ⊎ (accumulate_delete r s ≡ delete_from_table_size_map to_delete)
  unfolding accumulate_delete
  accumulate_delete-cases =
      elim (Bool-cases (ltb sql_max_values_number (length to_delete.delete))) [
        | inl long ↦ inr (rw (long, accumulate_delete) refl)
        | inr short ↦ inl (rw (short, accumulate_delete) refl)
      ]

  accumulate_update-cases :
      (accumulate_update r s ≡ to_update)
      ⊎ (accumulate_update r s ≡ update_table_size_map to_update)
  unfolding accumulate_update
  accumulate_update-cases =
      elim (Bool-cases (ltb sql_max_values_number (length to_update.update))) [
        | inl long ↦ inr (rw (long, accumulate_update) refl)
        | inr short ↦ inl (rw (short, accumulate_update) refl)
      ]

  pub accumulate_delete-Kept :
      same_place oid c r ≡ false → IsApart oid c s → Kept oid c s (accumulate_delete r s)
  accumulate_delete-Kept other apart =
      let k = to_delete-Kept other apart in
      elim accumulate_delete-cases [
        | inl p ↦ subst (λ x. Kept oid c s x) (sym p) k
        | inr p ↦
            subst (λ x. Kept oid c s x) (sym p)
              (Kept-trans oid c s to_delete _ k (delete-Kept oid c to_delete))
      ]

  pub accumulate_update-Kept :
      same_place oid c r ≡ false → IsApart oid c s → Kept oid c s (accumulate_update r s)
  accumulate_update-Kept other apart =
      let k = to_update-Kept other apart in
      elim accumulate_update-cases [
        | inl p ↦ subst (λ x. Kept oid c s x) (sym p) k
        | inr p ↦
            subst (λ x. Kept oid c s x) (sym p)
              (Kept-trans oid c s to_update _ k (update-Kept oid c to_update k.apart))
      ]

  -- A place that no array holds yet is entered.
  pub accumulate_delete-own :
      same_place oid c r ≡ true
      → IsUntouched oid c s
      → (view oid c (accumulate_delete r s) ≡ none) × IsApart oid c (accumulate_delete r s)
  unfolding view row_at
  accumulate_delete-own here u =
      let now : view oid c to_delete ≡ none = ground (arith, here, u) in
      elim accumulate_delete-cases [
        | inl p ↦ subst (λ x. (view oid c x ≡ none) × IsApart oid c x) (sym p) (now, inl u.0)
        | inr p ↦
            let k = delete-Kept oid c to_delete in
            subst (λ x. (view oid c x ≡ none) × IsApart oid c x) (sym p) (k.same ∙ now, k.apart)
      ]

  pub accumulate_update-own :
      same_place oid c r ≡ true
      → IsUntouched oid c s
      → (view oid c (accumulate_update r s) ≡ some r.size) × IsApart oid c (accumulate_update r s)
  unfolding view row_at
  accumulate_update-own here u =
      let now : view oid c to_update ≡ some r.size = ground (arith, here, u) in
      elim accumulate_update-cases [
        | inl p ↦ subst (λ x. (view oid c x ≡ some r.size) × IsApart oid c x) (sym p) (now, inr u.1)
        | inr p ↦
            let k = update-Kept oid c to_update (inr u.1) in
            subst (λ x. (view oid c x ≡ some r.size) × IsApart oid c x) (sym p)
              (k.same ∙ now, k.apart)
      ]

pub row_at-nil : (oid : Oid) (c : SegId) → (row_at oid c [] ≡ none) × (row_at oid c [] ≡ none)
unfolding row_at
row_at-nil oid c = (refl, refl)

-- At the start the view is the table, and at the end the table is the view.
pub view-start :
    (oid : Oid) (c : SegId) (rows : List Row)
    → view oid c (record { delete = []; update = []; table_size = rows }) ≡ row_at oid c rows
unfolding view row_at
view-start oid c rows = refl

pub view-finish :
    (oid : Oid) (c : SegId) (s : FlushState)
    → IsApart oid c s
    → row_at oid c (update_table_size_map (delete_from_table_size_map s)).table_size ≡ view oid c s
unfolding view row_at update_table_size_map delete_from_table_size_map
view-finish oid c s apart = ground (
  arith,
  apart,
  row_at-append oid c (delete_rows s.update (delete_rows s.delete s.table_size)) s.update,
  row_at-delete_rows oid c s.update (delete_rows s.delete s.table_size),
  row_at-delete_rows oid c s.delete s.table_size,
)
