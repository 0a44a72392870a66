-- ===== src/ActiveTables/Pull/Nulls.antt =====
-- What a segment makes of an array with a null element.
use diskquota.Prelude.{
  ℕ, zero, suc, [], ◌∷◌, List, Bool, true, false, ◌≡◌, ◌++◌, refl, length, ◌+◌, arith, ◌∙◌, ap, sym,
  length-append,
}
use diskquota.ActiveTables.Pull.{get_stats, TableStats, add_table_stat, get_active_tables_stats}
use diskquota.Catalog.{Oid, SegId}

-- `n` bits that are set
unfoldable pub set_bits : ℕ → List Bool
set_bits zero = []
set_bits (suc n) = true ∷ set_bits n

length-set_bits : (n : ℕ) → length (set_bits n) ≡ n
unfolding set_bits
length-set_bits zero = refl
length-set_bits (suc n) = omega (arith, length-set_bits n)

get_stats-null :
    (table_size : Oid → ℕ) (segid : SegId) (n : ℕ) (bits : List Bool) (values : List Oid)
    (m : TableStats)
    → get_stats table_size segid n (false ∷ bits) values m ≡ m
unfolding get_stats
get_stats-null table_size segid zero bits values m = refl
get_stats-null table_size segid (suc n) bits values m =
    get_stats-null table_size segid n bits values m

get_stats-set_bits :
    (table_size : Oid → ℕ) (segid : SegId) (n : ℕ) (bits : List Bool) (values rest : List Oid)
    (m : TableStats) (total : ℕ)
    → total ≡ length values + n
    → get_stats table_size segid total
        (set_bits (length values) ++ (false ∷ bits))
        (values ++ rest)
        m
      ≡ get_stats table_size segid (length values) (set_bits (length values)) values m
unfolding get_stats set_bits
get_stats-set_bits table_size segid n bits [] rest m total h =
    get_stats-null table_size segid total bits rest m
get_stats-set_bits table_size segid n bits (v ∷ vs) rest m zero h = ground arith
get_stats-set_bits table_size segid n bits (v ∷ vs) rest m (suc total) h =
    get_stats-set_bits table_size segid n bits vs rest (add_table_stat table_size segid v m) total
      (omega arith)

-- The sizes of the oids before the first null are calculated, and no others: whatever stands in the
-- array after the null is ignored.
pub get_active_tables_stats-null :
    (table_size : Oid → ℕ) (segid : SegId) (bits : List Bool) (values rest : List Oid)
    → get_active_tables_stats table_size segid
        (set_bits (length values) ++ (false ∷ bits))
        (values ++ rest)
      ≡ get_active_tables_stats table_size segid (set_bits (length values)) values
unfolding get_active_tables_stats
get_active_tables_stats-null table_size segid bits values rest =
    get_stats-set_bits table_size segid (suc (length bits)) bits values rest [] _ (
      omega (
        arith,
        length-append (set_bits (length values)) (false ∷ bits),
        length-set_bits (length values),
      ))
    ∙ ap (λ n. get_stats table_size segid n (set_bits (length values)) values [])
        (sym (length-set_bits (length values)))
