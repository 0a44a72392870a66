-- ===== src/ActiveTables/Collected.antt =====
-- What becomes of one recorded file of a committed relation in the worker's next round.
use diskquota.Prelude.{
  [], ◌∷◌, Bool, true, false, ◌||◌, none, some, eqb, ltb, if◌then◌else◌, nat_eq, ◌≡◌, ◌≢◌, ◌==◌,
  arith, refl, Option-cases, Bool-cases, inl, inr, ◌∙◌, sym, subst, ap, eqb_iff, ◌⊎◌,
}
use diskquota.ActiveTables.{file_entry_has_eq, Node, ActiveTableFileEntry, file_entry_eq_iff}
use diskquota.Catalog.{Oid, Env, oid_is_valid, coordinator, ClassTuple}
use diskquota.ActiveTables.Collect.{
  add_active_oid, add_altered, ActiveTableStats, collect_file, collect_relation, Collecting,
  is_cached_relfilenode_stale, entry_file, collect_files,
}
use diskquota.Htab.{Htab, find, remove}
use diskquota.Htab.Laws.{find-put, find-remove, ==_refl}
use diskquota.RelationCache.Update.{
  parse_primary_table_oid, get_rel_name_namespace, get_primary_table_oid,
}
use diskquota.RelationCache.{RelationCaches, get_relid_by_relfilenode}

-- A table is among those collected.
abbrev pub IsActive : Oid → ActiveTableStats → Type 0
IsActive oid stats = find oid stats ≢ none

add_active_oid-IsActive : (oid : Oid) (m : ActiveTableStats) → IsActive oid (add_active_oid oid m)
unfolding add_active_oid
add_active_oid-IsActive oid m p = elim (Option-cases (find oid m)) [
  | inl h ↦ ground (
    arith,
    p,
    h,
    find-put oid oid (record { reloid = oid; segid = coordinator; tablesize = 0 }) m,
    eqb_iff oid oid,
  )
  | inr (e, h) ↦ ground (arith, p, h)
]

add_active_oid-grows :
    (p oid : Oid) (m : ActiveTableStats) → IsActive p m → IsActive p (add_active_oid oid m)
unfolding add_active_oid
add_active_oid-grows p oid m i h = elim (Option-cases (find oid m)) [
  | inl n ↦ i (
      ground (
        arith,
        h,
        n,
        find-put oid p (record { reloid = oid; segid = coordinator; tablesize = 0 }) m,
      ))
  | inr (e, n) ↦ i (ground (arith, h, n))
]

pub add_altered-grows :
    (p : Oid) (m : Htab Oid Unit) (stats : ActiveTableStats)
    → IsActive p stats
    → IsActive p (add_altered m stats)
unfolding add_altered
add_altered-grows p [] stats i = i
add_altered-grows p ((oid, u) ∷ m) stats i = elim (Bool-cases (oid_is_valid oid)) [
  | inl valid ↦
      rw (valid, add_altered)
        (add_altered-grows p m (add_active_oid oid stats) (add_active_oid-grows p oid stats i))
  | inr invalid ↦ rw (invalid, add_altered) (add_altered-grows p m stats i)
]

-- An altered relation is collected.
pub add_altered-IsActive :
    (oid : Oid) (m : Htab Oid Unit) (stats : ActiveTableStats)
    → oid_is_valid oid ≡ true
    → find oid m ≢ none
    → IsActive oid (add_altered m stats)
unfolding add_altered find
add_altered-IsActive oid [] stats valid i = elim (i refl) [ ]
add_altered-IsActive oid ((x, u) ∷ m) stats valid i = elim (Bool-cases (eqb x oid)) [
  | inl same ↦
      let x_eq : x ≡ oid = (eqb_iff x oid).0 same in
      rw (x_eq, valid, add_altered)
        (add_altered-grows oid m (add_active_oid oid stats) (add_active_oid-IsActive oid stats))
  | inr other ↦
      add_altered-IsActive oid m (if oid_is_valid x then add_active_oid x stats else stats) valid
        (λ p. i (ground (arith, other, p)))
]

module _ (env : Env) (node : Node) where
  -- A round for another file does not touch a file, and no round loses a table.
  collect_file-other :
      (k f : ActiveTableFileEntry) (s : Collecting)
      → (k == f) ≡ false
      → find f (collect_file env node k s).files ≡ find f s.files
  unfolding collect_file collect_relation
  collect_file-other k f s other = ground (arith, other, find-remove k f s.files)

  pub collect_file-none :
      (f k : ActiveTableFileEntry) (s : Collecting)
      → find f s.files ≡ none
      → find f (collect_file env node k s).files ≡ none
  unfolding collect_file collect_relation
  collect_file-none f k s h = ground (arith, h, find-remove k f s.files)

  collect_relation-grows :
      (p : Oid) (k : ActiveTableFileEntry) (oid : Oid) (s : Collecting)
      → IsActive p s.stats
      → IsActive p (collect_relation env node k oid s).stats
  unfolding collect_relation
  collect_relation-grows p k oid s i = elim (Bool-cases (oid_is_valid oid)) [
    | inr invalid ↦ rw (invalid, collect_relation) i
    | inl valid ↦ elim (Bool-cases (ltb oid node.first_normal_object_id)) [
      | inl system ↦ rw (valid, system, collect_relation) i
      | inr normal ↦
          rw (valid, normal, collect_relation)
            (add_active_oid-grows p (get_primary_table_oid env node.server oid true s.caches)
              s.stats i)
    ]
  ]

  -- A round for a file of the session's database is the round for its relation.
  collect_file-relation :
      (k : ActiveTableFileEntry) (s : Collecting)
      → k.dbid ≡ env.my_database_id
      → (c : RelationCaches) × (collect_file env node k s
          ≡ collect_relation env node k
              (get_relid_by_relfilenode node.server.relid_by_relfilenode (entry_file k) s.caches).0
              (record s { caches = c }))
  unfolding collect_file
  collect_file-relation k s own =
      let h : eqb k.dbid env.my_database_id ≡ true = (eqb_iff k.dbid env.my_database_id).1 own in
      (
        (get_relid_by_relfilenode node.server.relid_by_relfilenode (entry_file k) s.caches).1,
        rw (h, collect_file) refl,
      )

  collect_file-grows :
      (p : Oid) (k : ActiveTableFileEntry) (s : Collecting)
      → IsActive p s.stats
      → IsActive p (collect_file env node k s).stats
  unfolding collect_file
  collect_file-grows p k s i = elim (Bool-cases (eqb k.dbid env.my_database_id)) [
    | inr other ↦ rw (other, collect_file) i
    | inl own ↦
        let (c, h) = collect_file-relation k s ((eqb_iff k.dbid env.my_database_id).0 own) in
        subst (λ x. IsActive p x.stats) (sym h)
          (collect_relation-grows p k _ (record s { caches = c }) i)
  ]

  module _ (f : ActiveTableFileEntry) (oid : Oid) (c : ClassTuple)
      (own : f.dbid ≡ env.my_database_id)
      (at : node.server.relid_by_relfilenode f.tablespaceoid f.relfilenode ≡ oid)
      (valid : oid_is_valid oid ≡ true) (normal : ltb oid node.first_normal_object_id ≡ false)
      (class : env.pg_class oid ≡ some c) where
    -- The table that the relation belongs to, by its name.
    abbrev pub primary : Oid
    primary = parse_primary_table_oid env node.server oid true

    abbrev pub stays : Bool
    stays = node.is_relation_being_altered oid || is_cached_relfilenode_stale env oid (entry_file f)

    primary_valid : oid_is_valid primary ≡ true
    unfolding parse_primary_table_oid get_rel_name_namespace
    primary_valid = ground (arith, class, valid)

    get_primary_table_oid-primary :
        (r : RelationCaches) → get_primary_table_oid env node.server oid true r ≡ primary
    unfolding get_primary_table_oid
    get_primary_table_oid-primary r = ground (arith, primary_valid)

    get_relid_by_relfilenode-oid :
        (r : RelationCaches)
        → (get_relid_by_relfilenode node.server.relid_by_relfilenode (entry_file f) r).0 ≡ oid
    unfolding get_relid_by_relfilenode
    get_relid_by_relfilenode-oid r = ground (arith, at, valid)

    collect_relation-own :
        (s : Collecting)
        → ((collect_relation env node f oid s).files
            ≡ (if stays then s.files else remove f s.files))
          × IsActive primary (collect_relation env node f oid s).stats
    unfolding collect_relation
    collect_relation-own s = (
      ground (arith, valid, normal),
      rw (valid, normal, collect_relation, get_primary_table_oid-primary s.caches)
          (add_active_oid-IsActive primary s.stats),
    )

    collect_file-own :
        (s : Collecting)
        → ((collect_file env node f s).files ≡ (if stays then s.files else remove f s.files))
          × IsActive primary (collect_file env node f s).stats
    collect_file-own s =
        let (r, h) = collect_file-relation f s own in
        let h' =
          h
          ∙ ap (λ x. collect_relation env node f x (record s { caches = r }))
              (get_relid_by_relfilenode-oid s.caches) in
        subst
          (λ x.
            (x.files ≡ (if stays then s.files else remove f s.files)) × IsActive primary x.stats)
          (sym h') (collect_relation-own (record s { caches = r }))

    own_gone :
        (k : ActiveTableFileEntry) (s : Collecting)
        → (k == f) ≡ true
        → stays ≡ false
        → find f (collect_file env node k s).files ≡ none
    own_gone k s same off =
        let p : k ≡ f = (file_entry_eq_iff k f).0 same in
        subst (λ x. find f (collect_file env node x s).files ≡ none) (sym p)
          (ground (arith, (collect_file-own s).0, off, find-remove f f s.files, ==_refl f))

    -- The whole scan over the entries `m`.
    pub collect_files-IsActive :
        (m : Htab ActiveTableFileEntry Unit) (s : Collecting)
        → (IsActive primary s.stats) ⊎ (find f m ≢ none)
        → IsActive primary (collect_files env node m s).stats
    unfolding collect_files find
    collect_files-IsActive [] s (inl i) = i
    collect_files-IsActive [] s (inr n) = elim (n refl) [ ]
    collect_files-IsActive ((k, u) ∷ m) s (inl i) =
        collect_files-IsActive m (collect_file env node k s)
          (inl (collect_file-grows primary k s i))
    collect_files-IsActive ((k, u) ∷ m) s (inr n) = elim (Bool-cases (k == f)) [
      | inl same ↦
          let p : k ≡ f = (file_entry_eq_iff k f).0 same in
          collect_files-IsActive m (collect_file env node k s) (
            inl (
              subst (λ x. IsActive primary (collect_file env node x s).stats) (sym p)
                (collect_file-own s).1))
      | inr other ↦
          collect_files-IsActive m (collect_file env node k s)
            (inr (λ q. n (ground (arith, other, q))))
    ]

    pub collect_files-stays :
        (m : Htab ActiveTableFileEntry Unit) (s : Collecting)
        → stays ≡ true
        → find f (collect_files env node m s).files ≡ find f s.files
    unfolding collect_files
    collect_files-stays [] s on = refl
    collect_files-stays ((k, u) ∷ m) s on =
        collect_files-stays m (collect_file env node k s) on ∙ elim (Bool-cases (k == f)) [
          | inl same ↦
              let p : k ≡ f = (file_entry_eq_iff k f).0 same in
              subst (λ x. find f (collect_file env node x s).files ≡ find f s.files) (sym p)
                (ground (arith, (collect_file-own s).0, on))
          | inr other ↦ collect_file-other k f s other
        ]

    pub collect_files-gone :
        (m : Htab ActiveTableFileEntry Unit) (s : Collecting)
        → stays ≡ false
        → (find f s.files ≡ none) ⊎ (find f m ≢ none)
        → find f (collect_files env node m s).files ≡ none
    unfolding collect_files find
    collect_files-gone [] s off (inl i) = i
    collect_files-gone [] s off (inr n) = elim (n refl) [ ]
    collect_files-gone ((k, u) ∷ m) s off (inl i) = elim (Bool-cases (k == f)) [
      | inl same ↦
          collect_files-gone m (collect_file env node k s) off (inl (own_gone k s same off))
      | inr other ↦
          collect_files-gone m (collect_file env node k s) off
            (inl (collect_file-other k f s other ∙ i))
    ]
    collect_files-gone ((k, u) ∷ m) s off (inr n) = elim (Bool-cases (k == f)) [
      | inl same ↦
          collect_files-gone m (collect_file env node k s) off (inl (own_gone k s same off))
      | inr other ↦
          collect_files-gone m (collect_file env node k s) off
            (inr (λ q. n (ground (arith, other, q))))
    ]
