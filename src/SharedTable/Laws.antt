-- ===== src/SharedTable/Laws.antt =====
-- Lookups after a search that may add an entry.
use diskquota.Prelude.{
  ℕ, ◌≡◌, Option, none, some, true, false, KeyEq, if◌then◌else◌, arith, Bool-cases, Option-cases,
  inl, inr,
}
use diskquota.Words.{inc32, slt32}
use diskquota.Htab.{find, put}
use diskquota.Fullness.{
  Clock, hash_find, hash_enter, check_hash_fullness_num, check_hash_fullness_num-action,
}
use diskquota.SharedTable.{Counted, search_or_add}

module _ {ℓ} {K V : Type ℓ} ⦃e : KeyEq K⦄ (c : Clock) (max_size : ℕ) (fresh : V) (k : K)
    (t : Counted K V) where
  -- Three outcomes: found, added, refused.
  pub data Searched (r : Option V × Counted K V) : Type ℓ where
    found :
        (v : V)
        → find k t.map ≡ some v
        → r.0 ≡ some v
        → r.1.map ≡ t.map
        → r.1.entry_num ≡ t.entry_num
        → Searched r
    added :
        find k t.map ≡ none
        → slt32 t.entry_num max_size ≡ true
        → r.0 ≡ some fresh
        → r.1.map ≡ put k fresh t.map
        → r.1.entry_num ≡ inc32 t.entry_num
        → Searched r
    refused :
        find k t.map ≡ none
        → slt32 t.entry_num max_size ≡ false
        → r.0 ≡ none
        → r.1.map ≡ t.map
        → r.1.entry_num ≡ t.entry_num
        → Searched r

  action_lem :
      (check_hash_fullness_num c t.entry_num max_size t.last_overflow_report).action
      ≡ (if slt32 t.entry_num max_size then hash_enter else hash_find)
  action_lem = check_hash_fullness_num-action c t.entry_num max_size t.last_overflow_report

  pub search_or_add-Searched : Searched (search_or_add c max_size fresh k t)
  unfolding search_or_add
  search_or_add-Searched = elim (Option-cases (find k t.map)) [
    | inr (v, h) ↦ found v h (ground (arith, h)) (ground (arith, h)) (ground (arith, h))
    | inl h ↦ elim (Bool-cases (slt32 t.entry_num max_size)) [
      | inl room ↦
          added h room (ground (arith, action_lem)) (ground (arith, action_lem))
            (ground (arith, action_lem))
      | inr full ↦
          refused h full (ground (arith, action_lem)) (ground (arith, action_lem))
            (ground (arith, action_lem))
    ]
  ]
