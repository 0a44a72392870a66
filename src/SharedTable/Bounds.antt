-- ===== src/SharedTable/Bounds.antt =====
-- Lookups after a search in a table whose own number of entries is checked.
use diskquota.Prelude.{
  ◌≡◌, if◌then◌else◌, ℕ, KeyEq, Option, Option-cases, inr, arith, inl, Bool-cases, length, some,
  none, true, false,
}
use diskquota.Fullness.{
  Clock, check_hash_fullness, hash_enter, hash_find, check_hash_fullness_num-action,
}
use diskquota.SharedTable.{Bounded, search_or_add_bounded}
use diskquota.Htab.{find, put}
use diskquota.Words.{slt32}

module _ {ℓ} {K V : Type ℓ} ⦃e : KeyEq K⦄ (c : Clock) (max_size : ℕ) (fresh : V) (k : K)
    (t : Bounded K V) where
  -- Three outcomes: found, added, refused.
  pub data BoundedSearch (r : Option V × Bounded K V) : Type ℓ where
    found : (v : V) → find k t.map ≡ some v → r.0 ≡ some v → r.1.map ≡ t.map → BoundedSearch r
    added :
        find k t.map ≡ none
        → slt32 (length t.map) max_size ≡ true
        → r.0 ≡ some fresh
        → r.1.map ≡ put k fresh t.map
        → BoundedSearch r
    refused :
        find k t.map ≡ none
        → slt32 (length t.map) max_size ≡ false
        → r.0 ≡ none
        → r.1.map ≡ t.map
        → BoundedSearch r

  action_lem :
      (check_hash_fullness c t.map max_size t.last_overflow_report).action
      ≡ (if slt32 (length t.map) max_size then hash_enter else hash_find)
  unfolding check_hash_fullness
  action_lem = check_hash_fullness_num-action c (length t.map) max_size t.last_overflow_report

  pub search_or_add_bounded-BoundedSearch :
      BoundedSearch (search_or_add_bounded c max_size fresh k t)
  unfolding search_or_add_bounded
  search_or_add_bounded-BoundedSearch = elim (Option-cases (find k t.map)) [
    | inr (v, h) ↦ found v h (ground (arith, h)) (ground (arith, h))
    | inl h ↦ elim (Bool-cases (slt32 (length t.map) max_size)) [
      | inl room ↦ added h room (ground (arith, action_lem)) (ground (arith, action_lem))
      | inr full ↦ refused h full (ground (arith, action_lem)) (ground (arith, action_lem))
    ]
  ]
