-- ===== src/ActiveTables/Rounds.antt =====
-- The scans of get_active_tables_oid over the recorded files, and what goes back to the shared map.
use diskquota.Prelude.{
  [], ◌∷◌, none, ◌+◌, eqb, if◌then◌else◌, nat_eq, length, ◌≡◌, ◌≢◌, ◌==◌, arith, refl, Bool-cases,
  inl, inr, ◌∙◌, subst, ◌≤◌, ◌<◌,
}
use diskquota.ActiveTables.{
  file_entry_has_eq, ActiveTableFileEntry, Node, SegmentState, file_entry_eq_iff, add_active_file,
}
use diskquota.Htab.{find, remove_if, Htab}
use diskquota.ActiveTables.Collect.{
  own_files, collect_file, collect_files, add_back, collect_relation, Collecting,
}
use diskquota.Catalog.{Env}
use diskquota.SharedTable.{Bounded}
use diskquota.Htab.Laws.{==_refl}
use diskquota.Htab.Keys.{length-remove}
use diskquota.ActiveTables.Collected.{collect_file-none}
use diskquota.SharedTable.Added.{
  find-added_to_other, find-added_to, find-added_to_own, length-added_to,
}
use diskquota.Words.{two31}

pub find-own_files :
    (env : Env) (f : ActiveTableFileEntry) (m : Htab ActiveTableFileEntry Unit)
    → find f (own_files env m) ≡ (if eqb f.dbid env.my_database_id then find f m else none)
unfolding find own_files
find-own_files env f [] = ground arith
find-own_files env f ((k, u) ∷ m) = elim (Bool-cases (k == f)) [
  | inl same ↦
      let p : k ≡ f = (file_entry_eq_iff k f).0 same in
      rw p (ground (arith, ==_refl f, find-own_files env f m))
  | inr other ↦ ground (arith, other, find-own_files env f m)
]

pub length-own_files :
    (env : Env) (m : Htab ActiveTableFileEntry Unit)
    → length (remove_if (λ k _. eqb k.dbid env.my_database_id) m) + length (own_files env m)
      ≡ length m
unfolding own_files remove_if
length-own_files env [] = omega arith
length-own_files env ((k, u) ∷ m) = ground (arith, length-own_files env m)

module _ (env : Env) (node : Node) where
  length-collect_file :
      (k : ActiveTableFileEntry) (s : Collecting)
      → length (collect_file env node k s).files ≤ length s.files
  unfolding collect_file collect_relation
  length-collect_file k s = ground (arith, length-remove k s.files)

  pub length-collect_files :
      (m : Htab ActiveTableFileEntry Unit) (s : Collecting)
      → length (collect_files env node m s).files ≤ length s.files
  unfolding collect_files
  length-collect_files [] s = omega arith
  length-collect_files ((k, u) ∷ m) s =
      omega (arith, length-collect_files m (collect_file env node k s), length-collect_file k s)

  pub collect_files-none :
      (f : ActiveTableFileEntry) (m : Htab ActiveTableFileEntry Unit) (s : Collecting)
      → find f s.files ≡ none
      → find f (collect_files env node m s).files ≡ none
  unfolding collect_files
  collect_files-none f [] s h = h
  collect_files-none f ((k, u) ∷ m) s h =
      collect_files-none f m (collect_file env node k s) (collect_file-none env node f k s h)

  abbrev bounded : SegmentState → Bounded ActiveTableFileEntry Unit
  bounded s = record {
    map = s.active_tables_map;
    last_overflow_report = s.caches.last_overflow_report;
  }

  pub add_back-absent :
      (f : ActiveTableFileEntry) (m : Htab ActiveTableFileEntry Unit) (s : SegmentState)
      → find f m ≡ none
      → find f (add_back env node m s).active_tables_map ≡ find f s.active_tables_map
  unfolding add_back add_active_file find
  add_back-absent f [] s h = refl
  add_back-absent f ((k, u) ∷ m) s h = elim (Bool-cases (k == f)) [
    | inl same ↦ ground (arith, same, h)
    | inr other ↦
        add_back-absent f m (add_active_file env node k s) (ground (arith, other, h))
        ∙ find-added_to_other env.clock node.server.max_active_tables tt k (bounded s) f other
  ]

  pub add_back-grows :
      (f : ActiveTableFileEntry) (m : Htab ActiveTableFileEntry Unit) (s : SegmentState)
      → find f s.active_tables_map ≢ none
      → find f (add_back env node m s).active_tables_map ≢ none
  unfolding add_back add_active_file
  add_back-grows f [] s i = i
  add_back-grows f ((k, u) ∷ m) s i =
      add_back-grows f m (add_active_file env node k s)
        (find-added_to env.clock node.server.max_active_tables tt k (bounded s) f i)

  pub add_back-found :
      (f : ActiveTableFileEntry) (m : Htab ActiveTableFileEntry Unit) (s : SegmentState)
      → length s.active_tables_map + length m ≤ node.server.max_active_tables
      → node.server.max_active_tables < two31
      → find f m ≢ none
      → find f (add_back env node m s).active_tables_map ≢ none
  unfolding add_back add_active_file find
  add_back-found f [] s room small i = elim (i refl) [ ]
  add_back-found f ((k, u) ∷ m) s room small i = elim (Bool-cases (k == f)) [
    | inl same ↦
        let p : k ≡ f = (file_entry_eq_iff k f).0 same in
        add_back-grows f m (add_active_file env node k s) (
          subst (λ x. find x (add_active_file env node k s).active_tables_map ≢ none) p
            (find-added_to_own env.clock node.server.max_active_tables tt k (bounded s)
              (omega arith) small))
    | inr other ↦
        add_back-found f m (add_active_file env node k s)
          (omega (arith, length-added_to env.clock node.server.max_active_tables tt k (bounded s)))
          small (λ q. i (ground (arith, other, q)))
  ]

  pub add_back-altered :
      (m : Htab ActiveTableFileEntry Unit) (s : SegmentState)
      → (add_back env node m s).altered_reloid_cache ≡ s.altered_reloid_cache
  unfolding add_back add_active_file
  add_back-altered [] s = refl
  add_back-altered ((k, u) ∷ m) s = add_back-altered m (add_active_file env node k s)
