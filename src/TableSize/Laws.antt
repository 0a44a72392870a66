-- ===== src/TableSize/Laws.antt =====
-- Sizes and flush flags do not disturb one another.
use diskquota.Prelude.{
  ℕ, zero, suc, ◌-◌, ◌<◌, ◌≡◌, refl, ◌∙◌, true, false, eqb, if◌then◌else◌, arith,
}
use diskquota.Words.{two63}
use diskquota.Catalog.{Env, SegId}
use diskquota.TableSize.{
  TableSizeEntry, TableSizeEntryKey, get_size, set_size, get_flush_flag, set_flush_flag,
  reset_flush_flag, set_flush_flags, new_table_size_entry, table_size_entry_index, zeroed_entry,
  segid_start, segid_end,
}

pub get_size-set_flush_flag :
    (e : TableSizeEntry) (s i : SegId) → get_size (set_flush_flag e s) i ≡ get_size e i
unfolding get_size set_flush_flag
get_size-set_flush_flag e s i = ground arith

pub get_size-reset_flush_flag :
    (e : TableSizeEntry) (s i : SegId) → get_size (reset_flush_flag e s) i ≡ get_size e i
unfolding get_size reset_flush_flag
get_size-reset_flush_flag e s i = ground arith

pub get_size-set_size :
    (e : TableSizeEntry) (s i size : ℕ)
    → size < two63
    → get_size (set_size e s size) i
      ≡ (if eqb (table_size_entry_index i) (table_size_entry_index s) then size else get_size e i)
unfolding get_size set_size
get_size-set_size e s i size h = ground arith

pub get_flush_flag-set_flush_flag :
    (e : TableSizeEntry) (s : SegId) → get_flush_flag (set_flush_flag e s) s ≡ true
unfolding get_flush_flag set_flush_flag
get_flush_flag-set_flush_flag e s = ground arith

pub get_flush_flag-reset_flush_flag :
    (e : TableSizeEntry) (s : SegId) → get_flush_flag (reset_flush_flag e s) s ≡ false
unfolding get_flush_flag reset_flush_flag
get_flush_flag-reset_flush_flag e s = ground arith

get_size-set_flush_flags :
    (n : ℕ) (s i : SegId) (e : TableSizeEntry) → get_size (set_flush_flags n s e) i ≡ get_size e i
unfolding set_flush_flags
get_size-set_flush_flags zero s i e = refl
get_size-set_flush_flags (suc n) s i e =
    get_size-set_flush_flags n (suc s) i (set_flush_flag e s) ∙ get_size-set_flush_flag e s i

-- A new entry has no bytes.
pub get_size-new :
    (env : Env) (key : TableSizeEntryKey) (i : SegId)
    → get_size (new_table_size_entry env key) i ≡ 0
unfolding new_table_size_entry get_size
get_size-new env key i =
    let e = zeroed_entry key in
    get_size-set_flush_flags (segid_end env e - segid_start e) (segid_start e) i e ∙ refl

set_flush_flags-key : (n : ℕ) (s : SegId) (e : TableSizeEntry) → (set_flush_flags n s e).key ≡ e.key
unfolding set_flush_flags set_flush_flag
set_flush_flags-key zero s e = refl
set_flush_flags-key (suc n) s e = set_flush_flags-key n (suc s) (set_flush_flag e s)

pub new-key : (env : Env) (key : TableSizeEntryKey) → (new_table_size_entry env key).key ≡ key
unfolding new_table_size_entry
new-key env key =
    let e = zeroed_entry key in
    set_flush_flags-key (segid_end env e - segid_start e) (segid_start e) e

pub get_size-lt : (e : TableSizeEntry) (s : SegId) → get_size e s < two63
unfolding get_size
get_size-lt e s = omega arith
