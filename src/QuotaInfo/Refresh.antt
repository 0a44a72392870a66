-- ===== src/QuotaInfo/Refresh.antt =====
-- refresh_quota_info_map: which quotas it puts into the local reject map.
use diskquota.Prelude.{
  true, [], ◌∷◌, inl, inr, none, some, Bool, false, ◌≢◌, length, ◌≡◌, ◌⊎◌, ◌≤◌, ◌<◌, ◌+◌, arith,
  if◌then◌else◌, ◌==◌, subst, sym, not, eqb, Bool-cases, ◌&&◌,
}
use diskquota.Catalog.{Env, Oid, coordinator}
use diskquota.RejectEntry.{RejectMapEntry, LocalRejectMapEntry, reject_entry_has_eq}
use diskquota.QuotaType.{QuotaType, QuotaInfoEntryKey, quota_key_eq_iff, quota_key_has_eq}
use diskquota.QuotaInfo.{
  LocalRejectMap, quota_reject_key, add_quota_to_rejectmap, refresh_quota_entries,
  refresh_quota_info_map, reject_tablespace, QuotaInfoEntry, QuotaInfoMap, refresh_quota_entry,
  quota_key_exists, is_exceeded,
}
use diskquota.Htab.{find, put, Htab}
use diskquota.SharedTable.Bounds.{
  BoundedSearch, search_or_add_bounded-BoundedSearch, found, added, refused,
}
use diskquota.SharedTable.{search_or_add_bounded, write_bounded}
use diskquota.Htab.Keys.{IsDistinct, put-IsDistinct}
use diskquota.Words.{two31, slt32-ltb}
use diskquota.Htab.Laws.{length-put_found, find-put, length-put_new, ==_refl}

module _ (env : Env) where
  -- An exceeded quota of the local map stays exceeded while others are added.
  abbrev pub is_blocked : RejectMapEntry → LocalRejectMap → Bool
  is_blocked k m = elim (find k m.map) [ none ↦ false | some l ↦ l.isexceeded ]

  module _ (y : QuotaType) (o t : Oid) (seg : Bool) (m : LocalRejectMap) where
    abbrev key : RejectMapEntry
    key = quota_reject_key env y o t

    abbrev unset : LocalRejectMapEntry
    unset = record { isexceeded = false; segexceeded = false }

    abbrev exceeded : LocalRejectMapEntry
    exceeded = record { isexceeded = true; segexceeded = seg }

    searched :
        BoundedSearch env.clock env.max_local_reject_entries unset key m
          (search_or_add_bounded env.clock env.max_local_reject_entries unset key m)
    searched =
        search_or_add_bounded-BoundedSearch env.clock env.max_local_reject_entries unset key m

    add-map :
        ((find key m.map ≢ none) ⊎ (length m.map < env.max_local_reject_entries))
        → env.max_local_reject_entries < two31
        → (j : RejectMapEntry)
        → find j (add_quota_to_rejectmap env y o t seg m).map
          ≡ (if key == j then some exceeded else find j m.map)
    unfolding add_quota_to_rejectmap write_bounded
    add-map room small j = elim searched [
      | found v f r e ↦ ground (arith, r, e, find-put key j exceeded m.map)
      | added f h r e ↦
          ground
            (arith, r, e, find-put key j exceeded (put key unset m.map), find-put key j unset m.map)
      | refused f full r e ↦
          ground (arith, f, full, room, slt32-ltb (length m.map) env.max_local_reject_entries)
    ]

    add-length : length (add_quota_to_rejectmap env y o t seg m).map ≤ length m.map + 1
    unfolding add_quota_to_rejectmap write_bounded
    add-length = elim searched [
      | found v f r e ↦ ground (arith, r, e, length-put_found key exceeded v m.map f)
      | added f h r e ↦ ground (
        arith,
        r,
        e,
        length-put_new key unset m.map f,
        length-put_found key exceeded unset (put key unset m.map),
        find-put key key unset m.map,
        ==_refl key,
      )
      | refused f full r e ↦ ground (arith, r, e)
    ]

    add-IsDistinct : IsDistinct m.map → IsDistinct (add_quota_to_rejectmap env y o t seg m).map
    unfolding add_quota_to_rejectmap write_bounded
    add-IsDistinct d = elim searched [
      | found v f r e ↦
          rw (r, add_quota_to_rejectmap)
            (put-IsDistinct key exceeded _ (subst (λ x. IsDistinct x) (sym e) d))
      | added f room r e ↦
          rw (r, add_quota_to_rejectmap)
            (put-IsDistinct key exceeded _
              (subst (λ x. IsDistinct x) (sym e) (put-IsDistinct key unset m.map d)))
      | refused f full r e ↦ rw (r, add_quota_to_rejectmap) (subst (λ x. IsDistinct x) (sym e) d)
    ]

    add-is_blocked :
        (j : RejectMapEntry)
        → is_blocked j m ≡ true
        → is_blocked j (add_quota_to_rejectmap env y o t seg m) ≡ true
    unfolding add_quota_to_rejectmap write_bounded
    add-is_blocked j h = elim searched [
      | found v f r e ↦ ground (arith, r, e, find-put key j exceeded m.map)
      | added f room r e ↦
          ground
            (arith, r, e, find-put key j exceeded (put key unset m.map), find-put key j unset m.map)
      | refused f full r e ↦ ground (arith, r, e)
    ]

  abbrev entry_key : QuotaInfoEntryKey → RejectMapEntry
  entry_key k = quota_reject_key env k.type k.key0 (reject_tablespace k)

  module _ (x : QuotaInfoEntryKey × QuotaInfoEntry) (q : QuotaInfoMap) (m : LocalRejectMap) where
    abbrev after : LocalRejectMap
    after = (refresh_quota_entry env x (q, m)).1

    abbrev seg : Bool
    seg = not (eqb x.0.segid coordinator)

    entry-is_blocked : (j : RejectMapEntry) → is_blocked j m ≡ true → is_blocked j after ≡ true
    unfolding refresh_quota_entry
    entry-is_blocked j h =
        ground (arith, add-is_blocked x.0.type x.0.key0 (reject_tablespace x.0) seg m j h)

    entry-blocks :
        quota_key_exists env x.0 ≡ true
        → is_exceeded x.1 ≡ true
        → length m.map < env.max_local_reject_entries
        → env.max_local_reject_entries < two31
        → is_blocked (entry_key x.0) after ≡ true
    unfolding refresh_quota_entry
    entry-blocks live over room small = ground (
      arith,
      live,
      over,
      ==_refl (entry_key x.0),
      add-map x.0.type x.0.key0 (reject_tablespace x.0) seg m (inr room) small (entry_key x.0),
    )

    entry-length : length after.map ≤ length m.map + 1
    unfolding refresh_quota_entry
    entry-length = ground (arith, add-length x.0.type x.0.key0 (reject_tablespace x.0) seg m)

    entry-IsDistinct : IsDistinct m.map → IsDistinct after.map
    unfolding refresh_quota_entry
    entry-IsDistinct d =
        let added = add_quota_to_rejectmap env x.0.type x.0.key0 (reject_tablespace x.0) seg m in
        elim (Bool-cases (quota_key_exists env x.0 && is_exceeded x.1)) [
          | inr kept ↦
              let p : after.map ≡ m.map = ground arith in subst (λ y. IsDistinct y) (sym p) d
          | inl over ↦
              let p : after.map ≡ added.map = ground arith in
              subst (λ y. IsDistinct y) (sym p)
                (add-IsDistinct x.0.type x.0.key0 (reject_tablespace x.0) seg m d)
        ]

  entries-is_blocked :
      (xs : Htab QuotaInfoEntryKey QuotaInfoEntry) (q : QuotaInfoMap) (m : LocalRejectMap)
      (j : RejectMapEntry)
      → is_blocked j m ≡ true
      → is_blocked j (refresh_quota_entries env xs (q, m)).1 ≡ true
  unfolding refresh_quota_entries
  entries-is_blocked [] q m j h = h
  entries-is_blocked (x ∷ xs) q m j h =
      let (q', m') = refresh_quota_entry env x (q, m) in
      entries-is_blocked xs q' m' j (entry-is_blocked x q m j h)

  entries-blocks :
      (xs : Htab QuotaInfoEntryKey QuotaInfoEntry) (q : QuotaInfoMap) (m : LocalRejectMap)
      (k : QuotaInfoEntryKey) (e : QuotaInfoEntry)
      → find k xs ≡ some e
      → quota_key_exists env k ≡ true
      → is_exceeded e ≡ true
      → length m.map + length xs ≤ env.max_local_reject_entries
      → env.max_local_reject_entries < two31
      → is_blocked (entry_key k) (refresh_quota_entries env xs (q, m)).1 ≡ true
  unfolding refresh_quota_entries find
  entries-blocks [] q m k e f live over room small = ground arith
  entries-blocks ((j, x) ∷ xs) q m k e f live over room small =
      let (q', m') = refresh_quota_entry env (j, x) (q, m) in
      elim (Bool-cases (j == k)) [
        | inl same ↦
            let p : j ≡ k = (quota_key_eq_iff j k).0 same in
            let r : x ≡ e = ground arith in
            entries-is_blocked xs q' m' (entry_key k) (
              subst (λ y. is_blocked (entry_key y) m' ≡ true) p
                (entry-blocks (j, x) q m (rw p live) (rw r over) (omega arith) small))
        | inr other ↦
            entries-blocks xs q' m' k e (ground arith) live over
              (omega (arith, entry-length (j, x) q m)) small
      ]

  entries-length :
      (xs : Htab QuotaInfoEntryKey QuotaInfoEntry) (q : QuotaInfoMap) (m : LocalRejectMap)
      → length (refresh_quota_entries env xs (q, m)).1.map ≤ length m.map + length xs
  unfolding refresh_quota_entries
  entries-length [] q m = omega arith
  entries-length (x ∷ xs) q m =
      let (q', m') = refresh_quota_entry env x (q, m) in
      omega (arith, entry-length x q m, entries-length xs q' m')

  entries-IsDistinct :
      (xs : Htab QuotaInfoEntryKey QuotaInfoEntry) (q : QuotaInfoMap) (m : LocalRejectMap)
      → IsDistinct m.map
      → IsDistinct (refresh_quota_entries env xs (q, m)).1.map
  unfolding refresh_quota_entries
  entries-IsDistinct [] q m d = d
  entries-IsDistinct (x ∷ xs) q m d =
      let (q', m') = refresh_quota_entry env x (q, m) in
      entries-IsDistinct xs q' m' (entry-IsDistinct x q m d)

  pub refresh_quota_info_map-length :
      (q : QuotaInfoMap) (m : LocalRejectMap)
      → length (refresh_quota_info_map env (q, m)).1.map ≤ length m.map + length q.map
  unfolding refresh_quota_info_map
  refresh_quota_info_map-length q m = entries-length q.map q m

  pub refresh_quota_info_map-IsDistinct :
      (q : QuotaInfoMap) (m : LocalRejectMap)
      → IsDistinct m.map
      → IsDistinct (refresh_quota_info_map env (q, m)).1.map
  unfolding refresh_quota_info_map
  refresh_quota_info_map-IsDistinct q m d = entries-IsDistinct q.map q m d

  -- While the local reject map has room for all quotas, a refresh marks as exceeded each quota whose
  -- objects are in the catalog, whose limit is positive, and whose size has reached it.
  pub refresh_quota_info_map-is_blocked :
      (q : QuotaInfoMap) (m : LocalRejectMap) (k : QuotaInfoEntryKey) (e : QuotaInfoEntry)
      → find k q.map ≡ some e
      → quota_key_exists env k ≡ true
      → is_exceeded e ≡ true
      → length m.map + length q.map ≤ env.max_local_reject_entries
      → env.max_local_reject_entries < two31
      → is_blocked
          (quota_reject_key env k.type k.key0 (reject_tablespace k))
          (refresh_quota_info_map env (q, m)).1
        ≡ true
  unfolding refresh_quota_info_map
  refresh_quota_info_map-is_blocked q m k e f live over room small =
      entries-blocks q.map q m k e f live over room small
