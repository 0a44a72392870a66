-- ===== src/RelationCache/Files/Ends.antt =====
-- The loops over the files of a relation, and the sum of the sizes of its files.
use diskquota.Prelude.{
  ℕ, zero, suc, Option, none, some, ◌+◌, ◌%◌, ◌<◌, ◌≡◌, ◌≢◌, arith, Option-cases, inl, inr, subst,
  true,
}
use diskquota.RelationCache.Files.{
  stat_segments, relation_file_stat, stat_forks, calculate_relation_size_all_forks, Storage,
}
use diskquota.Words.{add64, two32, two64}
use diskquota.RejectEntry.{RelFileNode}
use diskquota.Catalog.{Oid}

-- The segments below `k` exist, and the one at `k` does not.
abbrev pub EndsAt : ℕ → (ℕ → Option ℕ) → Type 0
EndsAt k stat = (stat k ≡ none) × ((j : ℕ) → j < k → stat j ≢ none)

abbrev pub file_size : (ℕ → Option ℕ) → ℕ → ℕ
file_size stat j = elim (stat j) [ none ↦ 0 | some n ↦ n ]

-- The sizes of `n` segments from `j`.
unfoldable pub segments_size : (ℕ → Option ℕ) → ℕ → ℕ → ℕ
segments_size stat zero j = 0
segments_size stat (suc n) j = file_size stat j + segments_size stat n (suc j)

stat_segments-EndsAt :
    (stat : ℕ → Option ℕ) (n j fuel size : ℕ)
    → EndsAt (j + n) stat
    → j + n < two32
    → n < fuel
    → size < two64
    → stat_segments fuel stat j size ≡ some ((size + segments_size stat n j) % two64)
unfolding stat_segments segments_size relation_file_stat add64
stat_segments-EndsAt stat n j zero size ends small enough word = ground arith
stat_segments-EndsAt stat zero j (suc fuel) size ends small enough word =
    let e : stat j ≡ none = subst (λ x. stat x ≡ none) (omega arith) ends.0 in ground (arith, e)
stat_segments-EndsAt stat (suc n) j (suc fuel) size ends small enough word =
    elim (Option-cases (stat j)) [
      | inl missing ↦ elim (ends.1 j (omega arith) missing) [ ]
      | inr (s, h) ↦
          let same : (j + 1) % two32 ≡ suc j = omega arith in
          let rest =
            stat_segments-EndsAt stat n (suc j) fuel ((size + s) % two64)
              (subst (λ x. EndsAt x stat) (omega arith) ends) (omega arith) (omega arith)
              (omega arith) in
          ground (arith, h, same, rest)
    ]

-- The sizes of `n` forks from `f`, when fork `g` has `ends g` segments.
unfoldable pub forks_size : (ℕ → ℕ → Option ℕ) → (ℕ → ℕ) → ℕ → ℕ → ℕ
forks_size stat ends zero f = 0
forks_size stat ends (suc n) f = segments_size (stat f) (ends f) 0 + forks_size stat ends n (suc f)

stat_forks-EndsAt :
    (stat : ℕ → ℕ → Option ℕ) (ends : ℕ → ℕ) (fuel n f size : ℕ)
    → ((g : ℕ) → EndsAt (ends g) (stat g) × (ends g < two32) × (ends g < fuel))
    → size < two64
    → stat_forks fuel stat n f size ≡ some ((size + forks_size stat ends n f) % two64)
unfolding stat_forks forks_size add64
stat_forks-EndsAt stat ends fuel zero f size finite word = ground arith
stat_forks-EndsAt stat ends fuel (suc n) f size finite word =
    let (here_ends, small, enough) = finite f in
    let here =
      stat_segments-EndsAt (stat f) (ends f) 0 fuel 0
        (subst (λ x. EndsAt x (stat f)) (omega arith) here_ends) (omega arith) enough
        (omega arith) in
    let part = segments_size (stat f) (ends f) 0 in
    let rest =
      stat_forks-EndsAt stat ends fuel n (suc f) ((size + part % two64) % two64) finite
        (omega arith) in
    ground (arith, here, rest)

-- If each fork of a heap relation has finitely many segments, and fewer than 2 ^ 32, the loops end for
-- any fuel above the longest fork, and the result is the sum of the sizes of all segments of all forks
-- as a 64-bit integer.
pub calculate_relation_size_all_forks-EndsAt :
    (storage : Storage) (rnode : RelFileNode) (backend relstorage : ℕ) (relam : Oid) (ends : ℕ → ℕ)
    (fuel : ℕ)
    → storage.table_is_heap relstorage relam ≡ true
    → ((f : ℕ)
        → EndsAt (ends f) (storage.stat rnode backend f) × (ends f < two32) × (ends f < fuel))
    → calculate_relation_size_all_forks fuel storage rnode backend relstorage relam
      ≡ some (forks_size (storage.stat rnode backend) ends (storage.max_forknum + 1) 0 % two64)
unfolding calculate_relation_size_all_forks
calculate_relation_size_all_forks-EndsAt storage rnode backend relstorage relam ends fuel heap
      finite =
    let total =
      stat_forks-EndsAt (storage.stat rnode backend) ends fuel (storage.max_forknum + 1) 0 0 finite
        (omega arith) in
    ground (arith, heap, total)
