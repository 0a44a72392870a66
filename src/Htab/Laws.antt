-- ===== src/Htab/Laws.antt =====
-- What a lookup, the number of entries and a sum over the entries are after each operation.
use diskquota.Prelude.{
  ℕ, ◌+◌, ◌≡◌, refl, [], ◌∷◌, none, some, if◌then◌else◌, KeyEq, ◌==◌, true, arith, length,
}
use diskquota.Htab.{Htab, find, put, remove, update_all}

module _ {ℓ} {K : Type ℓ} ⦃e : KeyEq K⦄ where
  pub ==_refl : (k : K) → (k == k) ≡ true
  ==_refl k = (e.eq_test_iff k k).1 refl

module _ {ℓ} {K V : Type ℓ} ⦃e : KeyEq K⦄ where
  pub find-put :
      (k j : K) (v : V) (m : Htab K V) → find j (put k v m) ≡ (if k == j then some v else find j m)
  unfolding find put
  find-put k j v [] = refl
  find-put k j v ((i, w) ∷ m) =
      ground (arith, e.eq_test_iff k j, e.eq_test_iff i k, e.eq_test_iff i j, find-put k j v m)

  pub find-remove :
      (k j : K) (m : Htab K V) → find j (remove k m) ≡ (if k == j then none else find j m)
  unfolding find remove
  find-remove k j [] = ground arith
  find-remove k j ((i, w) ∷ m) =
      ground (arith, e.eq_test_iff k j, e.eq_test_iff i k, e.eq_test_iff i j, find-remove k j m)

  pub find-update_all :
      (f : V → V) (k : K) (m : Htab K V) (v : V)
      → find k m ≡ some v
      → find k (update_all f m) ≡ some (f v)
  unfolding find update_all
  find-update_all f k [] v h = ground arith
  find-update_all f k ((i, w) ∷ m) v h = ground (arith, find-update_all f k m v)

  pub find-update_all-none :
      (f : V → V) (k : K) (m : Htab K V) → find k m ≡ none → find k (update_all f m) ≡ none
  unfolding find update_all
  find-update_all-none f k [] h = refl
  find-update_all-none f k ((i, w) ∷ m) h = ground (arith, find-update_all-none f k m)

  pub length-put_found :
      (k : K) (v w : V) (m : Htab K V) → find k m ≡ some w → length (put k v m) ≡ length m
  unfolding find put
  length-put_found k v w [] h = ground arith
  length-put_found k v w ((i, x) ∷ m) h = ground (arith, length-put_found k v w m)

  pub length-put_new :
      (k : K) (v : V) (m : Htab K V) → find k m ≡ none → length (put k v m) ≡ length m + 1
  unfolding find put
  length-put_new k v [] h = omega arith
  length-put_new k v ((i, x) ∷ m) h = ground (arith, length-put_new k v m)

  -- The sum of a measure of the entries.
  unfoldable pub sum : (V → ℕ) → Htab K V → ℕ
  sum f [] = 0
  sum f ((k, v) ∷ m) = f v + sum f m

  pub sum-put_found :
      (f : V → ℕ) (k : K) (v w : V) (m : Htab K V)
      → find k m ≡ some w
      → sum f (put k v m) + f w ≡ sum f m + f v
  unfolding find put sum
  sum-put_found f k v w [] h = ground arith
  sum-put_found f k v w ((i, x) ∷ m) h = ground (arith, sum-put_found f k v w m)

  pub sum-put_new :
      (f : V → ℕ) (k : K) (v : V) (m : Htab K V)
      → find k m ≡ none
      → sum f (put k v m) ≡ sum f m + f v
  unfolding find put sum
  sum-put_new f k v [] h = omega arith
  sum-put_new f k v ((i, x) ∷ m) h = ground (arith, sum-put_new f k v m)

  pub sum_congr : (f g : V → ℕ) (m : Htab K V) → ((v : V) → f v ≡ g v) → sum f m ≡ sum g m
  unfolding sum
  sum_congr f g [] h = refl
  sum_congr f g ((i, x) ∷ m) h = omega (arith, h x, sum_congr f g m h)

  pub sum-update_all :
      (f : V → ℕ) (g : V → V) (m : Htab K V)
      → ((v : V) → f (g v) ≡ f v)
      → sum f (update_all g m) ≡ sum f m
  unfolding sum update_all
  sum-update_all f g [] h = refl
  sum-update_all f g ((i, x) ∷ m) h = omega (arith, h x, sum-update_all f g m h)
