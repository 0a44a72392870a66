-- ===== src/RelationCache/Names/RoundTrip.antt =====
-- The names that the server gives to auxiliary relations, and what the parser makes of them.
use diskquota.Prelude.{
  ℕ, zero, suc, [], ◌∷◌, true, ◌+◌, ◌-◌, ◌*◌, ◌%◌, ◌/◌, ◌^◌, ◌<◌, ltb, if◌then◌else◌, ◌≡◌, ◌++◌,
  arith, All, Bool-cases, inl, inr, eqb, refl, eqb_iff, ◌≢◌,
}
use diskquota.RelationCache.Names.{
  Name, digits_from, is_digit, skip_spaces, atoi, Namespaces, diskquota_parse_primary_table_oid,
  toast_prefix, aoseg_prefix, aovisimap_prefix, aocsseg_prefix, aoblkdir_prefix,
}
use diskquota.Catalog.{Oid}

-- `%u` of a number below 10 ^ n, for n at least 1
unfoldable pub decimal : ℕ → ℕ → Name
decimal zero v = []
decimal (suc n) v =
    let rest = decimal n (v / 10) in
    if ltb v 10 then (48 + v) ∷ [] else rest ++ ((48 + v % 10) ∷ [])

digits_from-append :
    (acc d : ℕ) (s : Name)
    → All (λ c. is_digit c ≡ true) s
    → d < 10
    → digits_from acc (s ++ ((48 + d) ∷ [])) ≡ digits_from acc s * 10 + d
unfolding digits_from
digits_from-append acc d [] a small = ground arith
digits_from-append acc d (c ∷ cs) a small =
    let rest = digits_from-append (acc * 10 + (c - 48)) d cs a.1 small in ground (arith, rest, a.0)

All-append :
    (s : Name) (c : ℕ)
    → All (λ x. is_digit x ≡ true) s
    → is_digit c ≡ true
    → All (λ x. is_digit x ≡ true) (s ++ (c ∷ []))
All-append [] c a h = (h, tt)
All-append (x ∷ xs) c a h = (a.0, All-append xs c a.1 h)

decimal-All : (n v : ℕ) → All (λ x. is_digit x ≡ true) (decimal n v)
unfolding decimal
decimal-All zero v = tt
decimal-All (suc n) v = elim (Bool-cases (ltb v 10)) [
  | inl small ↦ rw (small, decimal) (ground arith, tt)
  | inr large ↦
      rw (large, decimal)
        (All-append (decimal n (v / 10)) (48 + v % 10) (decimal-All n (v / 10)) (ground arith))
]

digits_from-decimal : (n v : ℕ) → v < 10 ^ suc n → digits_from 0 (decimal (suc n) v) ≡ v
unfolding decimal digits_from
digits_from-decimal zero v h = ground arith
digits_from-decimal (suc n) v h = elim (Bool-cases (ltb v 10)) [
  | inl small ↦ ground (arith, small)
  | inr large ↦
      let rest = digits_from-decimal n (v / 10) (omega arith) in
      let last =
        digits_from-append 0 (v % 10) (decimal (suc n) (v / 10)) (decimal-All (suc n) (v / 10))
          (omega arith) in
      ground (arith, large, rest, last)
]

skip_spaces-digits : (s : Name) → All (λ x. is_digit x ≡ true) s → skip_spaces s ≡ s
unfolding skip_spaces
skip_spaces-digits [] a = refl
skip_spaces-digits (c ∷ cs) a = ground (arith, a.0)

atoi-digits :
    (s : Name) (v : ℕ)
    → All (λ x. is_digit x ≡ true) s
    → digits_from 0 s ≡ v
    → v < 2 ^ 32
    → atoi s ≡ v
unfolding atoi skip_spaces digits_from
atoi-digits [] v a h small = h
atoi-digits (c ∷ cs) v a h small = ground (arith, a.0, skip_spaces-digits (c ∷ cs) a)

atoi-decimal : (v : ℕ) → v < 2 ^ 32 → atoi (decimal 10 v) ≡ v
atoi-decimal v small =
    atoi-digits (decimal 10 v) v (decimal-All 10 v) (digits_from-decimal 9 v (omega arith)) small

-- The prefixes of auxiliary relations, each with the schema they stand in.
pub data AuxKind : Type 0 where
  toast aoseg aovisimap aocsseg aoblkdir : AuxKind

-- "<prefix>_<oid>"
unfoldable pub aux_name : AuxKind → Oid → Name
unfolding decimal
aux_name toast v = toast_prefix ++ (95 ∷ decimal 10 v)
aux_name aoseg v = aoseg_prefix ++ (95 ∷ decimal 10 v)
aux_name aovisimap v = aovisimap_prefix ++ (95 ∷ decimal 10 v)
aux_name aocsseg v = aocsseg_prefix ++ (95 ∷ decimal 10 v)
aux_name aoblkdir v = aoblkdir_prefix ++ (95 ∷ decimal 10 v)

unfoldable pub aux_namespace : Namespaces → AuxKind → Oid
aux_namespace ns toast = ns.pg_toast
aux_namespace ns aoseg = ns.pg_aosegment
aux_namespace ns aovisimap = ns.pg_aosegment
aux_namespace ns aocsseg = ns.pg_aosegment
aux_namespace ns aoblkdir = ns.pg_aosegment

eqb_refl : (n : ℕ) → eqb n n ≡ true
eqb_refl n = (eqb_iff n n).1 refl

-- The name of an auxiliary relation of any of the five kinds, made of its prefix and the decimal
-- digits of any 32-bit table oid, is parsed back to that oid in the schema where that kind stands, if
-- the two schemas differ.
pub diskquota_parse_primary_table_oid-aux_name :
    (ns : Namespaces) (kind : AuxKind) (v : Oid)
    → ns.pg_aosegment ≢ ns.pg_toast
    → v < 2 ^ 32
    → diskquota_parse_primary_table_oid ns (aux_namespace ns kind) (aux_name kind v) ≡ v
unfolding diskquota_parse_primary_table_oid aux_name aux_namespace
diskquota_parse_primary_table_oid-aux_name ns toast v differ small =
    rw (eqb_refl ns.pg_toast) (atoi-decimal v small)
diskquota_parse_primary_table_oid-aux_name ns kind v differ small =
    ground (arith, atoi-decimal v small, eqb_refl ns.pg_toast, eqb_refl ns.pg_aosegment)
