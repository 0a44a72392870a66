-- ===== src/Htab/Keys.antt =====
-- Tables that hold each key once, and the passes that remove entries.
use diskquota.Prelude.{
  All, All-imp, some, [], ◌∷◌, inl, inr, refl, ◌≡◌, if◌then◌else◌, KeyEq, length, ◌≤◌, Bool, arith,
  none, Bool-cases, ◌==◌, subst,
}
use diskquota.Htab.{Htab, find, remove, put, remove_if}
use diskquota.Htab.Laws.{==_refl, find-put}

module _ {ℓ} {K V : Type ℓ} ⦃e : KeyEq K⦄ where
  -- Each key stands once.
  abbrev pub IsDistinct : Htab K V → Type ℓ
  IsDistinct [] = Unit
  IsDistinct ((k, v) ∷ m) = (find k m ≡ none) × IsDistinct m

  pub put-IsDistinct : (k : K) (v : V) (m : Htab K V) → IsDistinct m → IsDistinct (put k v m)
  unfolding find put
  put-IsDistinct k v [] d = (refl, tt)
  put-IsDistinct k v ((i, w) ∷ m) d = elim (Bool-cases (i == k)) [
    | inl h ↦
        let p : i ≡ k = (e.eq_test_iff i k).0 h in rw h (subst (λ x. find x m ≡ none) p d.0, d.1)
    | inr h ↦ rw h (
      ground (arith, find-put k i v m, e.eq_test_iff i k, e.eq_test_iff k i, d.0),
      put-IsDistinct k v m d.1,
    )
  ]

  pub length-remove : (k : K) (m : Htab K V) → length (remove k m) ≤ length m
  unfolding remove
  length-remove k [] = omega arith
  length-remove k ((i, w) ∷ m) = ground (arith, length-remove k m)

  -- A pass that tests the keys alone.
  pub find-remove_if :
      (f : K → Bool) (k : K) (m : Htab K V)
      → find k (remove_if (λ j _. f j) m) ≡ (if f k then none else find k m)
  unfolding find remove_if
  find-remove_if f k [] = ground arith
  find-remove_if f k ((i, w) ∷ m) = elim (Bool-cases (i == k)) [
    | inl h ↦
        let p : i ≡ k = (e.eq_test_iff i k).0 h in
        rw p (ground (arith, h, ==_refl k, find-remove_if f k m))
    | inr h ↦ ground (arith, h, find-remove_if f k m)
  ]

  pub length-remove_if : (f : K → V → Bool) (m : Htab K V) → length (remove_if f m) ≤ length m
  unfolding remove_if
  length-remove_if f [] = omega arith
  length-remove_if f ((i, w) ∷ m) = ground (arith, length-remove_if f m)

  -- The members of a table that holds each key once are what lookups find.
  pub members_lem : (m : Htab K V) → IsDistinct m → All (λ p. find p.0 m ≡ some p.1) m
  unfolding find
  members_lem [] d = tt
  members_lem ((k, v) ∷ m) d = (
    ground (arith, ==_refl k),
    All-imp (λ p. find p.0 m ≡ some p.1) (λ p. find p.0 ((k, v) ∷ m) ≡ some p.1) m
        (λ p h. elim (Bool-cases (k == p.0)) [
          | inl same ↦
              let q : k ≡ p.0 = (e.eq_test_iff k p.0).0 same in
              ground (arith, h, subst (λ x. find x m ≡ none) q d.0)
          | inr other ↦ ground (arith, h, other)
        ])
        (members_lem m d.1),
  )
