-- ===== src/RelationCache/Names.antt =====
-- diskquota_parse_primary_table_oid of src/diskquota_utility.c: the table that an auxiliary relation
-- belongs to, read off the relation's name.
pub mod RoundTrip
use diskquota.Prelude.{
  ℕ, zero, suc, [], ◌∷◌, List, Bool, true, false, ◌&&◌, ◌||◌, ◌+◌, ◌-◌, ◌*◌, ◌%◌, ◌^◌, eqb, leb,
  ltb, if◌then◌else◌,
}
use diskquota.Catalog.{Oid, invalid_oid}

abbrev pub Name : Type 0
Name = List ℕ

-- PG_TOAST_NAMESPACE and PG_AOSEGMENT_NAMESPACE
pub record Namespaces : Type 0 where
  pub pg_toast : Oid
  pub pg_aosegment : Oid

-- strncmp(relname, prefix, strlen(prefix)) == 0
abbrev pub starts_with : Name → Name → Bool
starts_with [] s = true
starts_with (c ∷ cs) [] = false
starts_with (c ∷ cs) (d ∷ ds) = eqb c d && starts_with cs ds

-- &relname[n]; behind the end of the name its buffer holds zeros.
abbrev pub from : ℕ → Name → Name
from zero s = s
from (suc n) [] = []
from (suc n) (c ∷ cs) = from n cs

abbrev pub is_digit : ℕ → Bool
is_digit c = leb 48 c && leb c 57

-- The number that the leading digits of `s` give after `acc`.
unfoldable pub digits_from : ℕ → Name → ℕ
digits_from acc [] = acc
digits_from acc (c ∷ cs) = if is_digit c then digits_from (acc * 10 + (c - 48)) cs else acc

-- strtol saturates at the bounds of a 64-bit long.
abbrev pub at_most : ℕ → ℕ → ℕ
at_most bound n = if leb n bound then n else bound

unfoldable pub skip_spaces : Name → Name
skip_spaces [] = []
skip_spaces (c ∷ cs) =
    let rest = skip_spaces cs in if eqb c 32 || (leb 9 c && leb c 13) then rest else c ∷ cs

-- atoi, as the int that glibc cuts from the result of strtol, read as an Oid.
unfoldable pub atoi : Name → Oid
unfolding digits_from skip_spaces
atoi s = elim (skip_spaces s) [
  | [] ↦ 0
  | ◌∷◌ c cs ↦
      if eqb c 45
      then (2 ^ 64 - at_most (2 ^ 63) (digits_from 0 cs)) % 2 ^ 32
      else if eqb c 43
      then at_most (2 ^ 63 - 1) (digits_from 0 cs) % 2 ^ 32
      else at_most (2 ^ 63 - 1) (digits_from 0 (c ∷ cs)) % 2 ^ 32
]

abbrev pub toast_prefix : Name
toast_prefix = 112 ∷ 103 ∷ 95 ∷ 116 ∷ 111 ∷ 97 ∷ 115 ∷ 116 ∷ []

abbrev pub aoseg_prefix : Name
aoseg_prefix = 112 ∷ 103 ∷ 95 ∷ 97 ∷ 111 ∷ 115 ∷ 101 ∷ 103 ∷ []

abbrev pub aovisimap_prefix : Name
aovisimap_prefix = 112 ∷ 103 ∷ 95 ∷ 97 ∷ 111 ∷ 118 ∷ 105 ∷ 115 ∷ 105 ∷ 109 ∷ 97 ∷ 112 ∷ []

abbrev pub aocsseg_prefix : Name
aocsseg_prefix = 112 ∷ 103 ∷ 95 ∷ 97 ∷ 111 ∷ 99 ∷ 115 ∷ 115 ∷ 101 ∷ 103 ∷ []

abbrev pub aoblkdir_prefix : Name
aoblkdir_prefix = 112 ∷ 103 ∷ 95 ∷ 97 ∷ 111 ∷ 98 ∷ 108 ∷ 107 ∷ 100 ∷ 105 ∷ 114 ∷ []

unfoldable pub diskquota_parse_primary_table_oid : Namespaces → Oid → Name → Oid
unfolding atoi
diskquota_parse_primary_table_oid ns namespace relname =
    if eqb namespace ns.pg_toast
    then (if starts_with toast_prefix relname then atoi (from 9 relname) else invalid_oid)
    else if eqb namespace ns.pg_aosegment
    then (if starts_with aoseg_prefix relname
        then atoi (from 9 relname)
        else if starts_with aovisimap_prefix relname
        then atoi (from 13 relname)
        else if starts_with aocsseg_prefix relname
        then atoi (from 11 relname)
        else if starts_with aoblkdir_prefix relname
        then atoi (from 12 relname)
        else invalid_oid)
    else invalid_oid
