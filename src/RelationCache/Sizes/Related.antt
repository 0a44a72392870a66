-- ===== src/RelationCache/Sizes/Related.antt =====
-- The relations whose sizes calculate_table_size adds, and those whose files refresh_rejectmap blocks.
use mathlib.Core.List.{append-nil, append_assoc}
use diskquota.Prelude.{
  ℕ, [], ◌∷◌, List, true, false, none, some, ◌+◌, ◌%◌, ◌≡◌, ◌≢◌, ◌≤◌, ◌<◌, nat_eq, ◌++◌, length,
  All, arith, ap, ◌∙◌, sym, subst, Option-cases, Bool-cases, inl, inr, length-append, not,
}
use diskquota.Catalog.{Oid, Env, AuxRelations, ClassTuple, invalid_oid, oid_is_valid}
use diskquota.RelationCache.{RelationCacheEntry, RelationCaches, remove_cache_entry}
use diskquota.RelationCache.Sizes.{
  add_auxrelids, add_auxrelation_if_valid, add_sizes, add_auxrelation_to_relation_entry,
  get_relfilenode_by_relid, Location, backend_of, class_entry, get_relation_entry_from_pg_class,
  get_relation_entry, calculate_table_size, do_calculate_table_size, no_location,
}
use diskquota.RelationCache.Update.{
  is_listed_oid, add_auxrelid_to_relation_entry, zeroed_relation_entry,
}
use diskquota.RelationCache.Files.{Storage}
use diskquota.RejectMap.Segment.{with_indexes, related_oids}
use diskquota.Words.{add64, two64}
use diskquota.RejectEntry.{class_file}
use diskquota.Htab.{find}

-- No oid of the second list is in the first or earlier in its own.
abbrev pub AreNew : List Oid → List Oid → Type 0
AreNew xs [] = Unit
AreNew xs (o ∷ os) = (is_listed_oid o xs ≡ false) × AreNew (xs ++ (o ∷ [])) os

abbrev with_auxrels : RelationCacheEntry → List Oid → RelationCacheEntry
with_auxrels e oids = record e { auxrel_oid = oids }

add_auxrelids-AreNew :
    (oids : List Oid) (e : RelationCacheEntry)
    → AreNew e.auxrel_oid oids
    → length e.auxrel_oid + length oids ≤ 10
    → add_auxrelids oids e ≡ some (with_auxrels e (e.auxrel_oid ++ oids))
unfolding add_auxrelids add_auxrelid_to_relation_entry
add_auxrelids-AreNew [] e new room =
    ap (λ x. some (with_auxrels e x)) (sym (append-nil e.auxrel_oid))
add_auxrelids-AreNew (o ∷ os) e new room =
    let e' = with_auxrels e (e.auxrel_oid ++ (o ∷ [])) in
    let one : add_auxrelid_to_relation_entry o e ≡ some e' = ground (arith, new.0) in
    let rest =
      add_auxrelids-AreNew os e' new.1 (omega (arith, length-append e.auxrel_oid (o ∷ []))) in
    ap (λ r. elim r [ none ↦ none | some x ↦ add_auxrelids os x ]) one
    ∙ (rest ∙ ap (λ x. some (with_auxrels e x)) (append_assoc e.auxrel_oid (o ∷ []) os))

add_auxrelation_if_valid-with_indexes :
    (aux : AuxRelations) (o : Oid) (e : RelationCacheEntry)
    → add_auxrelation_if_valid aux o e ≡ add_auxrelids (with_indexes aux o) e
unfolding add_auxrelation_if_valid add_auxrelation_to_relation_entry add_auxrelids
add_auxrelation_if_valid-with_indexes aux o e = ground arith

abbrev pub class_location : Env → Storage → ClassTuple → Location
class_location env storage t = record {
  rnode = class_file env t;
  backend = backend_of storage t;
  relstorage = t.relstorage;
  relam = t.relam;
}

-- The sum over relations of the catalog.
unfoldable pub catalog_size : Env → Storage → (Location → ℕ) → List Oid → ℕ
catalog_size env storage size_of_files [] = 0
catalog_size env storage size_of_files (o ∷ os) =
    elim (env.pg_class o) [ none ↦ 0 | some t ↦ size_of_files (class_location env storage t) ]
    + catalog_size env storage size_of_files os

add_sizes-catalog_size :
    (env : Env) (storage : Storage) (f : Location → ℕ) (oids : List Oid) (n : ℕ) (l : Location)
    (c : RelationCaches)
    → All (λ o. env.pg_class o ≢ none) oids
    → n < two64
    → (add_sizes env storage f oids n l c).0 ≡ (n + catalog_size env storage f oids) % two64
unfolding add_sizes get_relfilenode_by_relid catalog_size add64
add_sizes-catalog_size env storage f [] n l c known word = omega arith
add_sizes-catalog_size env storage f (o ∷ os) n l c known word =
    elim (Option-cases (env.pg_class o)) [
      | inl h ↦ elim (known.0 h) [ ]
      | inr (t, h) ↦
          let s = f (class_location env storage t) in
          let rest =
            add_sizes-catalog_size env storage f os ((n + s) % two64) (class_location env storage t)
              (remove_cache_entry o invalid_oid c) known.1 (omega arith) in
          ground (arith, h, rest)
    ]

-- All relations that belong to a table of the catalog, besides itself.
abbrev pub auxiliary_oids : AuxRelations → Oid → ClassTuple → List Oid
auxiliary_oids aux oid t =
    with_indexes aux t.reltoastrelid
    ++ (with_indexes aux (aux.appendonly_aux oid).0
        ++ (with_indexes aux (aux.appendonly_aux oid).1
            ++ with_indexes aux (aux.appendonly_aux oid).2))

AreNew-append : (xs os us : List Oid) → AreNew xs (os ++ us) → AreNew xs os × AreNew (xs ++ os) us
AreNew-append xs [] us new = (tt, subst (λ z. AreNew z us) (sym (append-nil xs)) new)
AreNew-append xs (o ∷ os) us new =
    let (one, rest) = AreNew-append (xs ++ (o ∷ [])) os us new.1 in
    ((new.0, one), subst (λ z. AreNew z us) (append_assoc xs (o ∷ []) os) rest)

module _ (aux : AuxRelations) where
  group :
      (o : Oid) (e : RelationCacheEntry)
      → AreNew e.auxrel_oid (with_indexes aux o)
      → length e.auxrel_oid + length (with_indexes aux o) ≤ 10
      → add_auxrelation_if_valid aux o e
        ≡ some (with_auxrels e (e.auxrel_oid ++ with_indexes aux o))
  group o e new room =
      add_auxrelation_if_valid-with_indexes aux o e
      ∙ add_auxrelids-AreNew (with_indexes aux o) e new room

  module _ (env : Env) (storage : Storage) (relid : Oid) (t : ClassTuple)
      (class : env.pg_class relid ≡ some t) where
    abbrev pub committed_entry : RelationCacheEntry
    committed_entry =
        with_auxrels (class_entry env storage relid t zeroed_relation_entry)
          (auxiliary_oids aux relid t)

    get_relation_entry_from_pg_class-plain :
        AreNew [] (with_indexes aux t.reltoastrelid)
        → length (with_indexes aux t.reltoastrelid) ≤ 10
        → storage.table_is_ao t.relstorage t.relam ≡ false
        → get_relation_entry_from_pg_class env aux storage relid zeroed_relation_entry
          ≡ some (
            false,
            with_auxrels
                (class_entry env storage relid t zeroed_relation_entry)
                (with_indexes aux t.reltoastrelid),
          )
    unfolding get_relation_entry_from_pg_class
    get_relation_entry_from_pg_class-plain new room plain =
        let e = class_entry env storage relid t zeroed_relation_entry in
        let p = group t.reltoastrelid e new (omega arith) in ground (arith, class, plain, p)

    get_relation_entry-plain :
        (c : RelationCaches)
        → find relid c.relation_cache ≡ none
        → AreNew [] (auxiliary_oids aux relid t)
        → length (auxiliary_oids aux relid t) ≤ 10
        → storage.table_is_ao t.relstorage t.relam ≡ false
        → aux.appendonly_aux relid ≡ (invalid_oid, invalid_oid, invalid_oid)
        → get_relation_entry env aux storage relid zeroed_relation_entry c ≡ some committed_entry
    unfolding get_relation_entry
    get_relation_entry-plain c absent new room plain none_ao =
        let a = with_indexes aux t.reltoastrelid in
        let same : auxiliary_oids aux relid t ≡ a =
          ap (λ x. a ++ (with_indexes aux x.0 ++ (with_indexes aux x.1 ++ with_indexes aux x.2)))
            none_ao
          ∙ append-nil a in
        let p =
          get_relation_entry_from_pg_class-plain (subst (λ z. AreNew [] z) same new)
            (subst (λ z. length z ≤ 10) same room) plain in
        ground (arith, absent, p, same)

    get_relation_entry_from_pg_class-ao :
        AreNew [] (auxiliary_oids aux relid t)
        → length (auxiliary_oids aux relid t) ≤ 10
        → storage.table_is_ao t.relstorage t.relam ≡ true
        → get_relation_entry_from_pg_class env aux storage relid zeroed_relation_entry
          ≡ some (not (oid_is_valid (aux.appendonly_aux relid).1), committed_entry)
    unfolding get_relation_entry_from_pg_class
    get_relation_entry_from_pg_class-ao new room ao =
        let (seg, blkdir, visimap) = aux.appendonly_aux relid in
        let a = with_indexes aux t.reltoastrelid in
        let b = with_indexes aux seg in
        let c = with_indexes aux blkdir in
        let d = with_indexes aux visimap in
        let e = class_entry env storage relid t zeroed_relation_entry in
        let (na, nb') = AreNew-append [] a (b ++ (c ++ d)) new in
        let (nb, nc') = AreNew-append a b (c ++ d) nb' in
        let (nc, nd) = AreNew-append (a ++ b) c d nc' in
        let l1 = length-append a (b ++ (c ++ d)) in
        let l2 = length-append b (c ++ d) in
        let l3 = length-append c d in
        let p1 = group t.reltoastrelid e na (omega arith) in
        let p2 = group seg (with_auxrels e a) nb (omega arith) in
        let p3 = group blkdir (with_auxrels e (a ++ b)) nc (omega (arith, length-append a b)) in
        let p4 =
          group visimap (with_auxrels e ((a ++ b) ++ c)) nd
            (omega (arith, length-append a b, length-append (a ++ b) c)) in
        let same : ((a ++ b) ++ c) ++ d ≡ a ++ (b ++ (c ++ d)) =
          append_assoc (a ++ b) c d ∙ append_assoc a b (c ++ d) in
        rw (class, p1, ao, p2, p3, p4, get_relation_entry_from_pg_class)
          (ap (λ z. some (not (oid_is_valid blkdir), with_auxrels e z)) same)

-- If a table of the catalog is not in the relation cache, if it and its toast and append-only relations
-- with their indexes are all in the catalog, none listed twice and at most ten besides the table, if
-- only an append-only table has append-only relations and it has its block directory, then the size
-- is calculated, and is the sum over exactly these relations as a 64-bit integer.
pub calculate_table_size-related_oids :
    (env : Env) (aux : AuxRelations) (storage : Storage) (f : Location → ℕ) (relid : Oid)
    (t : ClassTuple) (c : RelationCaches)
    → find relid c.relation_cache ≡ none
    → env.pg_class relid ≡ some t
    → All (λ o. env.pg_class o ≢ none) (related_oids aux relid t)
    → AreNew [] (auxiliary_oids aux relid t)
    → length (auxiliary_oids aux relid t) ≤ 10
    → (storage.table_is_ao t.relstorage t.relam ≡ false
        → aux.appendonly_aux relid ≡ (invalid_oid, invalid_oid, invalid_oid))
    → (storage.table_is_ao t.relstorage t.relam ≡ true
        → oid_is_valid (aux.appendonly_aux relid).1 ≡ true)
    → (c' : RelationCaches) × (calculate_table_size env aux storage f relid c
        ≡ some (catalog_size env storage f (related_oids aux relid t) % two64, c'))
unfolding calculate_table_size get_relation_entry do_calculate_table_size related_oids
calculate_table_size-related_oids env aux storage f relid t c absent class known new room heap ao =
    let e = committed_entry aux env storage relid t class in
    let oids = relid ∷ auxiliary_oids aux relid t in
    let done = add_sizes env storage f oids 0 no_location c in
    let size = add_sizes-catalog_size env storage f oids 0 no_location c known (omega arith) in
    let found : get_relation_entry env aux storage relid zeroed_relation_entry c ≡ some e =
      elim (Bool-cases (storage.table_is_ao t.relstorage t.relam)) [
        | inl on ↦
            let p = get_relation_entry_from_pg_class-ao aux env storage relid t class new room on in
            let has = ao on in ground (arith, absent, p, has)
        | inr off ↦
            get_relation_entry-plain aux env storage relid t class c absent new room off (heap off)
      ] in
    let total : done.0 ≡ catalog_size env storage f oids % two64 = omega (arith, size) in
    (
      done.1,
      ap (λ r. elim r [ none ↦ none | some x ↦ some (do_calculate_table_size env storage f x c) ])
            found
          ∙ ap (λ n. some (n, done.1)) total,
    )
