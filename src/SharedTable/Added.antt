-- ===== src/SharedTable/Added.antt =====
-- What a search leaves in the table, whatever it answers.
use diskquota.Prelude.{ℕ, ◌+◌, ◌<◌, ◌≤◌, ◌≡◌, ◌≢◌, none, false, KeyEq, ◌==◌, arith, length}
use diskquota.SharedTable.Bounds.{
  BoundedSearch, search_or_add_bounded-BoundedSearch, found, added, refused,
}
use diskquota.Fullness.{Clock}
use diskquota.SharedTable.{Bounded, search_or_add_bounded}
use diskquota.Htab.{find}
use diskquota.Words.{two31, slt32-ltb}
use diskquota.Htab.Laws.{length-put_new, find-put, ==_refl}

module _ {ℓ} {K V : Type ℓ} ⦃e : KeyEq K⦄ (c : Clock) (max_size : ℕ) (fresh : V) (j : K)
    (t : Bounded K V) where
  abbrev pub added_to : Bounded K V
  added_to = (search_or_add_bounded c max_size fresh j t).1

  searched : BoundedSearch c max_size fresh j t (search_or_add_bounded c max_size fresh j t)
  searched = search_or_add_bounded-BoundedSearch c max_size fresh j t

  pub find-added_to : (k : K) → find k t.map ≢ none → find k added_to.map ≢ none
  find-added_to k i p = elim searched [
    | found v f q m ↦ i (ground (arith, m, p))
    | added f room q m ↦ ground (arith, m, p, find-put j k fresh t.map, i)
    | refused f full q m ↦ i (ground (arith, m, p))
  ]

  pub find-added_to_other : (k : K) → (j == k) ≡ false → find k added_to.map ≡ find k t.map
  find-added_to_other k h = elim searched [
    | found v f q m ↦ ground (arith, m)
    | added f room q m ↦ ground (arith, m, find-put j k fresh t.map)
    | refused f full q m ↦ ground (arith, m)
  ]

  pub find-added_to_own : length t.map < max_size → max_size < two31 → find j added_to.map ≢ none
  find-added_to_own room small p = elim searched [
    | found v f q m ↦ ground (arith, m, f, p)
    | added f _ q m ↦ ground (arith, m, p, find-put j j fresh t.map, ==_refl j)
    | refused f full q m ↦ ground (arith, full, slt32-ltb (length t.map) max_size, room, small)
  ]

  pub length-added_to : length added_to.map ≤ length t.map + 1
  length-added_to = elim searched [
    | found v f q m ↦ ground (arith, m)
    | added f _ q m ↦ ground (arith, m, length-put_new j fresh t.map f)
    | refused f full q m ↦ ground (arith, m)
  ]
