-- ===== src/Usage/Release.antt =====
-- The release of removed tables, and what is left.
use diskquota.Usage.Invariant.{
  is_charged-segid, update_owner_quotas-IsRoomy, is_charged, size_of-update_owner_quotas, charge,
  Accounts, IsKeyed, IsLive,
}
use diskquota.Prelude.{
  [], ◌∷◌, true, ℕ, zero, suc, ◌<◌, ◌+◌, if◌then◌else◌, leb, ◌&&◌, ltb, ◌%◌, ◌≡◌, arith, Bool-cases,
  inl, subst, sym, ap, ◌-◌, inr, eqb, false, ◌∙◌, List, Bool, Option-cases, refl,
}
use diskquota.Catalog.{Env, SegId, Oid}
use diskquota.QuotaType.{QuotaInfoEntryKey}
use diskquota.TableSize.{
  TableSizeEntry, get_size, get_table_exist, segid_end, reset_table_exist, segid_start,
  TableSizeMap, TableSizeEntryKey, table_key_has_eq,
}
use diskquota.Usage.{
  release_segments, owners_of, update_owner_quotas, release_removed,
  track_namespace_owner_tablespace_changes, track_relations,
}
use diskquota.QuotaInfo.{QuotaInfoMap}
use diskquota.Words.{neg64, add64, two64}
use diskquota.QuotaInfo.Sizes.{IsRoomy, size_of}
use diskquota.TableSize.Laws.{get_size-lt}
use diskquota.Htab.{entries, Htab, update_all, find}
use diskquota.Htab.Laws.{sum, sum-update_all, find-update_all-none, find-update_all}
use diskquota.RelationCache.{RelationCacheEntry}
use diskquota.Usage.Relations.{track_relations-Accounts, track_relations-IsRoomy}

module _ (env : Env) (k : QuotaInfoEntryKey) (live : k.segid < env.segcount + 1) where
  -- What `n` rounds of release_segments from `c` give back under the key.
  abbrev released : TableSizeEntry → ℕ → SegId → ℕ
  released e n c =
      if leb c k.segid && ltb k.segid (c + n) && is_charged k (owners_of e) k.segid
      then get_size e k.segid
      else 0

  release_segments-IsRoomy :
      (e : TableSizeEntry) (n c : ℕ) (q : QuotaInfoMap)
      → IsRoomy env (release_segments env e n c q)
      → IsRoomy env q
  unfolding release_segments
  release_segments-IsRoomy e zero c q room = room
  release_segments-IsRoomy e (suc n) c q room =
      update_owner_quotas-IsRoomy env _ _ _ q (release_segments-IsRoomy e n (suc c) _ room)

  release_segments-sized :
      (e : TableSizeEntry) (n c : ℕ) (q : QuotaInfoMap)
      → IsRoomy env (release_segments env e n c q)
      → size_of q k < two64
      → (size_of (release_segments env e n c q) k < two64)
        × ((size_of (release_segments env e n c q) k + released e n c) % two64 ≡ size_of q k)
  unfolding release_segments neg64 add64
  release_segments-sized e zero c q room small = (small, ground arith)
  release_segments-sized e (suc n) c q room small =
      let q' = update_owner_quotas env (neg64 (get_size e c)) (owners_of e) c q in
      let room' = release_segments-IsRoomy e n (suc c) q' room in
      let step = size_of-update_owner_quotas env (neg64 (get_size e c)) (owners_of e) c q k room' in
      let gone = get_size-lt e c in
      let other = is_charged-segid k (owners_of e) c in
      elim (Bool-cases (is_charged k (owners_of e) c)) [
        | inl here ↦
            let p : k.segid ≡ c = other here in
            let charged : is_charged k (owners_of e) k.segid ≡ true =
              subst (λ x. is_charged k (owners_of e) x ≡ true) (sym p) here in
            let size : get_size e k.segid ≡ get_size e c = ap (get_size e) p in
            let moved : size_of q' k ≡ (size_of q k + (two64 - get_size e c) % two64) % two64 =
              ground (arith, step, here) in
            let (b, h) = release_segments-sized e n (suc c) q' room (omega (arith, moved)) in
            let rest : released e n (suc c) ≡ 0 = ground arith in
            let whole : released e (suc n) c ≡ get_size e c = ground (arith, charged, size, p) in
            (
              b,
              rw whole (
                  let h' : (size_of (release_segments env e n (suc c) q') k + 0) % two64
                      ≡ size_of q' k =
                    subst
                      (λ x.
                        (size_of (release_segments env e n (suc c) q') k + x) % two64
                        ≡ size_of q' k)
                      rest h in
                  omega (arith, h', moved, gone, small, b)),
            )
        | inr away ↦
            let same : size_of q' k ≡ size_of q k = ground (arith, step, away) in
            let (b, h) = release_segments-sized e n (suc c) q' room (omega (arith, same)) in
            let shift : released e n (suc c) ≡ released e (suc n) c =
              elim (Bool-cases (eqb k.segid c)) [
                | inl at ↦
                    let p : k.segid ≡ c = ground arith in
                    let off : is_charged k (owners_of e) k.segid ≡ false =
                      subst (λ x. is_charged k (owners_of e) x ≡ false) (sym p) away in
                    ground (arith, off)
                | inr apart ↦ ground arith
              ] in
            (b, rw (← shift) (h ∙ same))
      ]

  -- What an entry gives back, or adds to the usage, by its TABLE_EXIST flag.
  abbrev pub existing_charge : TableSizeEntry → ℕ
  existing_charge e = if get_table_exist e then charge k e else 0

  released_lem :
      (e : TableSizeEntry)
      → released e (segid_end env e - segid_start e) (segid_start e) ≡ charge k e
  released_lem e = ground arith

  -- One entry of the last pass.
  abbrev passed : TableSizeEntry → QuotaInfoMap → QuotaInfoMap
  passed e q =
      if get_table_exist e
      then q
      else release_segments env e (segid_end env e - segid_start e) (segid_start e) q

  passed-IsRoomy :
      (e : TableSizeEntry) (q : QuotaInfoMap) → IsRoomy env (passed e q) → IsRoomy env q
  passed-IsRoomy e q room = elim (Bool-cases (get_table_exist e)) [
    | inl there ↦ rw there at room
    | inr gone ↦
        release_segments-IsRoomy e (segid_end env e - segid_start e) (segid_start e) q
          (rw gone at room)
  ]

  pub release_removed-IsRoomy :
      (es : List TableSizeEntry) (q : QuotaInfoMap)
      → IsRoomy env (release_removed env es q)
      → IsRoomy env q
  unfolding release_removed
  release_removed-IsRoomy [] q room = room
  release_removed-IsRoomy (e ∷ es) q room =
      passed-IsRoomy e q (release_removed-IsRoomy es (passed e q) room)

  passed-sized :
      (e : TableSizeEntry) (q : QuotaInfoMap) (v : ℕ)
      → IsRoomy env (passed e q)
      → size_of q k ≡ (v + charge k e) % two64
      → size_of (passed e q) k ≡ (v + existing_charge e) % two64
  passed-sized e q v room h = elim (Bool-cases (get_table_exist e)) [
    | inl there ↦ rw there h
    | inr gone ↦
        let n = segid_end env e - segid_start e in
        let c = segid_start e in
        let (b, r) = release_segments-sized e n c q (rw gone at room) (omega (arith, h)) in
        let r' : (size_of (release_segments env e n c q) k + charge k e) % two64 ≡ size_of q k =
          subst (λ x. (size_of (release_segments env e n c q) k + x) % two64 ≡ size_of q k)
            (released_lem e) r in
        rw gone (omega (arith, h, r', b))
  ]

  pub release_removed-sized :
      (m : Htab TableSizeEntryKey TableSizeEntry) (q : QuotaInfoMap) (v : ℕ)
      → IsRoomy env (release_removed env (entries m) q)
      → size_of q k ≡ (v + sum (charge k) m) % two64
      → size_of (release_removed env (entries m) q) k ≡ (v + sum existing_charge m) % two64
  unfolding release_removed entries sum
  release_removed-sized [] q v room h = h
  release_removed-sized ((j, e) ∷ m) q v room h =
      let room' = release_removed-IsRoomy (entries m) (passed e q) room in
      let step = passed-sized e q (v + sum (charge k) m) room' (omega (arith, h)) in
      let rest =
        release_removed-sized m (passed e q) (v + existing_charge e) room (omega (arith, step)) in
      omega (arith, rest)

-- The pass that clears TABLE_EXIST changes no size.
pub unset-IsKeyed :
    (m : Htab TableSizeEntryKey TableSizeEntry)
    → IsKeyed m
    → IsKeyed (update_all reset_table_exist m)
unfolding reset_table_exist
unset-IsKeyed m keyed j x h = elim (Option-cases (find j m)) [
  | inl n ↦ cc (find-update_all-none reset_table_exist j m n)
  | inr (e, f) ↦
      let p : x ≡ reset_table_exist e = cc (find-update_all reset_table_exist j m e f) in
      ap (λ y. TableSizeEntry.key y) p ∙ keyed j e f
]

pub unset-Accounts :
    (env : Env) (t : TableSizeMap) (q : QuotaInfoMap)
    → Accounts env t q
    → Accounts env (record t { map = update_all reset_table_exist t.map }) q
unfolding reset_table_exist get_size
unset-Accounts env t q acc = record {
  keyed = unset-IsKeyed t.map acc.keyed;
  sized = λ k l.
      acc.sized k l
      ∙ ap (λ x. x % two64) (sym (sum-update_all (charge k) reset_table_exist t.map (λ e. refl)));
}

-- The whole pass of the worker over relations: if the accounts held before it, and the map of quotas
-- never ran full, then each live quota's size is afterwards the sum of the sizes of the entries that
-- record its objects as owners and that are marked as existing.
pub track_namespace_owner_tablespace_changes-sized :
    (env : Env) (is_init : Bool) (relation_cache : Htab Oid RelationCacheEntry) (oids : List Oid)
    (t : TableSizeMap) (q : QuotaInfoMap) (k : QuotaInfoEntryKey) (live : IsLive env k)
    → Accounts env t q
    → IsRoomy env
        (track_namespace_owner_tablespace_changes env is_init relation_cache oids (t, q)).1
    → size_of (track_namespace_owner_tablespace_changes env is_init relation_cache oids (t, q)).1 k
      ≡ sum
          (existing_charge env k live.1)
          (track_namespace_owner_tablespace_changes env is_init relation_cache oids (t, q)).0.map
        % two64
unfolding track_namespace_owner_tablespace_changes
track_namespace_owner_tablespace_changes-sized env is_init relation_cache oids t q k live acc room =
    let unset = record t { map = update_all reset_table_exist t.map } in
    let (t', q') = track_relations env is_init relation_cache oids (unset, q) in
    let room' = release_removed-IsRoomy env k live.1 (entries t'.map) q' room in
    let after =
      track_relations-Accounts env is_init relation_cache oids unset q (unset-Accounts env t q acc)
        room' in
    release_removed-sized env k live.1 t'.map q' 0 room (omega (arith, after.sized k live))
    ∙ omega arith

-- The map of quotas had room before the pass if it has room after it.
pub track_namespace_owner_tablespace_changes-IsRoomy :
    (env : Env) (is_init : Bool) (relation_cache : Htab Oid RelationCacheEntry) (oids : List Oid)
    (t : TableSizeMap) (q : QuotaInfoMap) (k : QuotaInfoEntryKey) (live : IsLive env k)
    → IsRoomy env
        (track_namespace_owner_tablespace_changes env is_init relation_cache oids (t, q)).1
    → IsRoomy env q
unfolding track_namespace_owner_tablespace_changes
track_namespace_owner_tablespace_changes-IsRoomy env is_init relation_cache oids t q k live room =
    let unset = record t { map = update_all reset_table_exist t.map } in
    let (t', q') = track_relations env is_init relation_cache oids (unset, q) in
    track_relations-IsRoomy env is_init relation_cache oids unset q
      (release_removed-IsRoomy env k live.1 (entries t'.map) q' room)
