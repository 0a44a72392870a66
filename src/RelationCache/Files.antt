-- ===== src/RelationCache/Files.antt =====
-- calculate_relation_size_all_forks of src/diskquota_utility.c: the size of a relation's files.
pub mod Ends
use diskquota.Prelude.{
  ℕ, zero, suc, [], ◌∷◌, List, Bool, true, false, Option, none, some, ◌+◌, ◌%◌, not, eqb,
  if◌then◌else◌,
}
use diskquota.Words.{add64, two32}
use diskquota.RejectEntry.{RelFileNode}
use diskquota.Catalog.{Oid}

-- The file system and the server: stat of a segment of a fork, by its number; the segments at which
-- ao_foreach_extent_file calls its callback, given what the callback answers; and the macros
-- TableIsHeap and TableIsAoRows || TableIsAoCols, which differ between versions.
pub record Storage : Type 0 where
  pub stat : RelFileNode → ℕ → ℕ → ℕ → Option ℕ
  pub ao_segments : (ℕ → Bool) → List ℕ
  pub main_forknum : ℕ
  pub max_forknum : ℕ
  pub table_is_heap : ℕ → Oid → Bool
  pub table_is_ao : ℕ → Oid → Bool
  pub temp_rel_backend_id : ℕ
  pub invalid_backend_id : ℕ

-- `size` is the field of the context; the path of the relation has been applied in `stat`.
unfoldable pub relation_file_stat : (ℕ → Option ℕ) → ℕ → ℕ → Bool × ℕ
relation_file_stat stat segno size = elim (stat segno) [
  | none ↦ (false, size)
  | some n ↦ (true, add64 size n)
]

-- The endless loop over the segments of a fork, with fuel; none where the fuel runs out.
unfoldable pub stat_segments : ℕ → (ℕ → Option ℕ) → ℕ → ℕ → Option ℕ
unfolding relation_file_stat
stat_segments zero stat segno size = none
stat_segments (suc fuel) stat segno size =
    let (exists, size') = relation_file_stat stat segno size in
    let rest = stat_segments fuel stat ((segno + 1) % two32) size' in
    if exists then rest else some size'

-- `n` rounds of the loop over the forks, from `forknum`.
unfoldable pub stat_forks : ℕ → (ℕ → ℕ → Option ℕ) → ℕ → ℕ → ℕ → Option ℕ
unfolding stat_segments
stat_forks fuel stat zero forknum totalsize = some totalsize
stat_forks fuel stat (suc n) forknum totalsize = elim (stat_segments fuel (stat forknum) 0 0) [
  | none ↦ none
  | some size ↦ stat_forks fuel stat n (suc forknum) (add64 totalsize size)
]

unfoldable pub stat_listed : (ℕ → Option ℕ) → List ℕ → ℕ → ℕ
unfolding relation_file_stat
stat_listed stat [] size = size
stat_listed stat (segno ∷ segnos) size =
    stat_listed stat segnos (relation_file_stat stat segno size).1

unfoldable pub calculate_relation_size_all_forks :
    ℕ → Storage → RelFileNode → ℕ → ℕ → Oid → Option ℕ
unfolding stat_forks stat_listed
calculate_relation_size_all_forks fuel storage rnode backend relstorage relam =
    let stat = storage.stat rnode backend in
    if storage.table_is_heap relstorage relam
    then stat_forks fuel stat (storage.max_forknum + 1) 0 0
    else if storage.table_is_ao relstorage relam
    then (let main = stat storage.main_forknum in
        let visited = storage.ao_segments (λ segno. (relation_file_stat main segno 0).0) in
        some (stat_listed main visited (relation_file_stat main 0 0).1))
    else some 0
