-- ===== src/Usage/Present.antt =====
-- The owners that a relation has at present, by the catalog or the cache of uncommitted relations,
-- and what an entry of the table of sizes is after the passes over the relations.
pub mod Moves
pub mod Passes
pub mod Charges
pub mod Sized
use diskquota.Prelude.{
  zero, suc, [], ◌∷◌, none, some, true, false, refl, ◌≡◌, arith, inl, inr, Bool-cases, ◌∙◌,
  if◌then◌else◌, ◌⊎◌, Option, subst, sym, ap, eqb, nat_eq, ◌==◌, Bool, ℕ, Option-cases,
}
use diskquota.Htab.{find, put, Htab}
use diskquota.SharedTable.Laws.{search_or_add-Searched, found, added, refused}
use diskquota.TableSize.{
  table_key_has_eq, table_key_eq_iff, get_table_size_map_entry, TableSizeMap, TableSizeEntry,
  table_size_key, TableSizeEntryKey, new_table_size_entry, reset_flush_flag, set_table_exist,
  segid_end, get_table_exist, get_size,
}
use diskquota.Catalog.{Env, Oid, SegId}
use diskquota.Usage.{
  relation_owners, Owners, with_owners, track_segments, owners_of, transfer_owners,
}
use diskquota.RelationCache.{RelationCacheEntry}
use diskquota.SharedTable.{HasRoom, write}
use diskquota.Usage.Invariant.{IsKeyed, put-IsKeyed}
use diskquota.Htab.Laws.{find-put}
use diskquota.Htab.Keys.{put-IsDistinct, IsDistinct}
use diskquota.TableSize.Laws.{new-key}
use diskquota.Words.{slt32}
use diskquota.QuotaInfo.{QuotaInfoMap}

-- Said from pg_class and the relation cache.
abbrev pub present_owners : Env → Htab Oid RelationCacheEntry → Oid → Option Owners
present_owners env cache oid = elim (env.pg_class oid) [
  | some c ↦ some (record {
    namespaceoid = c.relnamespace;
    owneroid = c.relowner;
    tablespaceoid = if eqb c.reltablespace 0 then env.my_database_tablespace else c.reltablespace;
  })
  | none ↦ elim (find oid cache) [
    | none ↦ none
    | some r ↦ some (record {
      namespaceoid = r.namespaceoid;
      owneroid = r.owneroid;
      tablespaceoid = r.rnode.spc_node;
    })
  ]
]

pub relation_owners-present_owners :
    (env : Env) (cache : Htab Oid RelationCacheEntry) (oid : Oid)
    → relation_owners env cache oid ≡ present_owners env cache oid
unfolding relation_owners
relation_owners-present_owners env cache oid = ground arith

-- The table of sizes may still take an entry.
abbrev pub IsSpacious : Env → TableSizeMap → Type 0
IsSpacious env t = HasRoom env.max_num_table_size_entries t

-- A search that is not refused: the entry, in a table that had room.
pub fetched :
    (env : Env) (oid : Oid) (c : SegId) (t : TableSizeMap)
    → IsSpacious env (get_table_size_map_entry env oid c t).1
    → IsKeyed t.map
    → IsSpacious env t
      × ((e : TableSizeEntry) × ((get_table_size_map_entry env oid c t).0 ≡ some e)
          × (e.key ≡ table_size_key oid c)
          × ((j : TableSizeEntryKey)
              → find j (get_table_size_map_entry env oid c t).1.map
                ≡ (if table_size_key oid c == j then some e else find j t.map))
          × IsKeyed (get_table_size_map_entry env oid c t).1.map
          × (IsDistinct t.map → IsDistinct (get_table_size_map_entry env oid c t).1.map))
unfolding get_table_size_map_entry
fetched env oid c t room keyed =
    let key = table_size_key oid c in
    let fresh = new_table_size_entry env key in
    elim (search_or_add-Searched env.clock env.max_num_table_size_entries fresh key t) [
      | found e h r m n ↦ (
        subst (λ x. slt32 x env.max_num_table_size_entries ≡ true) n room,
        (
          e,
          r,
          keyed key e h,
          λ j. ground (arith, m, h, table_key_eq_iff key j),
          subst IsKeyed (sym m) keyed,
          λ d. subst IsDistinct (sym m) d,
        ),
      )
      | added h r e m n ↦ (
        r,
        (
          fresh,
          e,
          new-key env key,
          λ j. ap (λ x. find j x) m ∙ find-put key j fresh t.map,
          subst IsKeyed (sym m) (put-IsKeyed key fresh t.map keyed (new-key env key)),
          λ d. subst IsDistinct (sym m) (put-IsDistinct key fresh t.map d),
        ),
      )
      | refused h r e m n ↦ ground (arith, r, n, room)
    ]

get-IsSpacious :
    (env : Env) (oid : Oid) (c : SegId) (t : TableSizeMap)
    → IsSpacious env (get_table_size_map_entry env oid c t).1
    → IsSpacious env t
unfolding get_table_size_map_entry
get-IsSpacious env oid c t room =
    let key = table_size_key oid c in
    elim (search_or_add-Searched env.clock env.max_num_table_size_entries
      (new_table_size_entry env key) key t) [
        | found e h r m n ↦ subst (λ x. slt32 x env.max_num_table_size_entries ≡ true) n room
        | added h r e m n ↦ r
        | refused h r e m n ↦ ground (arith, r, n, room)
      ]

module _ (env : Env) (is_init : Bool) (oid : Oid) (new : Owners) where
  -- What one round writes for an entry.
  abbrev marked_at : SegId → TableSizeEntry → TableSizeEntry
  marked_at c e = if is_init then reset_flush_flag (set_table_exist e) c else set_table_exist e

  abbrev pub written_at : SegId → TableSizeEntry → TableSizeEntry
  written_at c e =
      if eqb (suc c) (segid_end env (marked_at c e))
      then with_owners (marked_at c e) new
      else marked_at c e

  marked_at-lem :
      (c : SegId) (e : TableSizeEntry)
      → ((marked_at c e).key ≡ e.key) × (get_table_exist (marked_at c e) ≡ true)
  unfolding set_table_exist reset_flush_flag get_table_exist
  marked_at-lem c e = (ground arith, ground arith)

  pub written_at-key : (c : SegId) (e : TableSizeEntry) → (written_at c e).key ≡ e.key
  written_at-key c e = elim (Bool-cases (eqb (suc c) (segid_end env (marked_at c e)))) [
    | inl last ↦ rw last (marked_at-lem c e).0
    | inr more ↦ rw more (marked_at-lem c e).0
  ]

  -- The last round of an entry gives it the new owners, and every round marks it.
  pub written_at-last :
      (c : SegId) (e : TableSizeEntry)
      → suc c ≡ segid_end env e
      → (owners_of (written_at c e) ≡ new) × (get_table_exist (written_at c e) ≡ true)
  unfolding get_table_exist
  written_at-last c e last =
      let key = (marked_at-lem c e).0 in
      let h : eqb (suc c) (segid_end env (marked_at c e)) ≡ true =
        subst (λ k. eqb (suc c) (segid_end env (record e { key = k })) ≡ true) (sym key)
          (ground (arith, last)) in
      (rw h refl, rw h (marked_at-lem c e).1)

  pub track_segments-IsSpacious :
      (n : ℕ) (c : SegId) (t : TableSizeMap) (q : QuotaInfoMap)
      → IsSpacious env (track_segments env is_init oid new n c (t, q)).0
      → IsSpacious env t
  unfolding track_segments write
  track_segments-IsSpacious zero c t q room = room
  track_segments-IsSpacious (suc n) c t q room =
      elim (Option-cases (get_table_size_map_entry env oid c t).0) [
        | inl h ↦ get-IsSpacious env oid c t (rw (h, track_segments) at room)
        | inr (e, h) ↦
            get-IsSpacious env oid c t
              (track_segments-IsSpacious n (suc c) _ _ (rw (h, track_segments) at room))
      ]

  track_segments-get :
      (n : ℕ) (c : SegId) (t : TableSizeMap) (q : QuotaInfoMap)
      → IsSpacious env (track_segments env is_init oid new (suc n) c (t, q)).0
      → IsSpacious env (get_table_size_map_entry env oid c t).1
  unfolding track_segments write
  track_segments-get n c t q room = elim (Option-cases (get_table_size_map_entry env oid c t).0) [
    | inl h ↦ rw (h, track_segments) at room
    | inr (e, h) ↦ track_segments-IsSpacious n (suc c) _ _ (rw (h, track_segments) at room)
  ]

  -- One round: the table had room before it, and the entry of its segment alone is written.
  pub track_round :
      (n : ℕ) (c : SegId) (t : TableSizeMap) (q : QuotaInfoMap)
      → IsKeyed t.map
      → IsSpacious env (track_segments env is_init oid new (suc n) c (t, q)).0
      → (e : TableSizeEntry) × (t' : TableSizeMap) × (q' : QuotaInfoMap) × (track_segments env
            is_init oid new
            (suc n)
            c
            (t, q)
          ≡ track_segments env is_init oid new n (suc c) (t', q'))
        × (e.key ≡ table_size_key oid c)
        × ((j : TableSizeEntryKey)
            → find j t'.map
              ≡ (if table_size_key oid c == j then some (written_at c e) else find j t.map))
        × IsKeyed t'.map
        × (IsDistinct t.map → IsDistinct t'.map)
  unfolding track_segments write
  track_round n c t q keyed room =
      let (e, r, own, at, keyed', distinct) =
        (fetched env oid c t (track_segments-get n c t q room) keyed).1 in
      let t1 = (get_table_size_map_entry env oid c t).1 in
      let key = table_size_key oid c in
      let e' = written_at c e in
      let own' : e'.key ≡ e.key = written_at-key c e in
      (
        e,
        write e.key e' t1,
        transfer_owners env (get_size (marked_at c e) c) (owners_of (marked_at c e)) new c q,
        rw (r, track_segments) refl,
        own,
        λ j.
            find-put e.key j e' t1.map
            ∙ ground (arith, own, at j, table_key_eq_iff key j, table_key_eq_iff e.key j),
        put-IsKeyed e.key e' t1.map keyed' own',
        λ d. put-IsDistinct e.key e' t1.map (distinct d),
      )
