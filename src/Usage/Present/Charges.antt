-- ===== src/Usage/Present/Charges.antt =====
-- What the entries are charged with after the passes over the relations, by the present owners.
use diskquota.Prelude.{
  ℕ, [], ◌∷◌, none, some, true, false, refl, ◌≡◌, arith, inl, inr, Bool-cases, Option-cases, ◌∙◌,
  if◌then◌else◌, subst, sym, ap, All, All-imp, eqb_iff, Bool, List, ◌<◌, ◌+◌, eqb, ◌&&◌,
}
use diskquota.Htab.{find, Htab}
use diskquota.Htab.Laws.{sum}
use diskquota.Htab.Keys.{IsDistinct, members_lem}
use diskquota.TableSize.{
  table_key_has_eq, TableSizeMap, table_size_key, TableSizeEntryKey, TableSizeEntry,
  table_size_entry_id, get_table_exist, get_size,
}
use diskquota.Usage.Invariant.{usage, charge, is_charged, IsKeyed}
use diskquota.Usage.Present.{IsSpacious}
use diskquota.Catalog.{Env, Oid}
use diskquota.RelationCache.{RelationCacheEntry}
use diskquota.Usage.{track_relations, Owners, owners_of}
use diskquota.QuotaInfo.{QuotaInfoMap}
use diskquota.QuotaType.{QuotaInfoEntryKey}
use diskquota.Usage.Present.Passes.{
  listed_owners, IsTracked, track_relations-IsTracked, track_relations-IsDistinct,
}

-- What an entry is charged with on the segment of `k` under given owners.
abbrev pub owned_charge : QuotaInfoEntryKey → Owners → TableSizeEntry → ℕ
owned_charge k o e =
    if eqb e.key.id (table_size_entry_id k.segid) && is_charged k o k.segid
    then get_size e k.segid
    else 0

-- By its present owners, if the pass goes over it; by the recorded ones, if not.
abbrev pub moved_charge :
    Env → Htab Oid RelationCacheEntry → List Oid → QuotaInfoEntryKey → TableSizeEntry → ℕ
moved_charge env cache oids k e = elim (listed_owners env cache oids e.key.reloid) [
  | none ↦ owned_charge k (owners_of e) e
  | some o ↦ owned_charge k o e
]

-- By its present owners, and not at all if it is not there any more.
abbrev pub present_charge :
    Env → Htab Oid RelationCacheEntry → List Oid → QuotaInfoEntryKey → TableSizeEntry → ℕ
present_charge env cache oids k e = elim (listed_owners env cache oids e.key.reloid) [
  | none ↦ 0
  | some o ↦ owned_charge k o e
]

-- No entry has the mark of an existing table.
abbrev pub IsUnmarked : TableSizeMap → Type 0
IsUnmarked t =
    (j : TableSizeEntryKey) (e : TableSizeEntry) → find j t.map ≡ some e → get_table_exist e ≡ false

sum-All :
    (f g : TableSizeEntry → ℕ) (m : Htab TableSizeEntryKey TableSizeEntry)
    → All (λ p. f p.1 ≡ g p.1) m
    → sum f m ≡ sum g m
unfolding sum
sum-All f g [] h = refl
sum-All f g ((k, v) ∷ m) h = omega (arith, h.0, sum-All f g m h.1)

module _ (env : Env) (is_init : Bool) (cache : Htab Oid RelationCacheEntry) (oids : List Oid)
    (t : TableSizeMap) (q : QuotaInfoMap) (k : QuotaInfoEntryKey)
    (live : k.segid < env.segcount + 1) (keyed : IsKeyed t.map) where
  abbrev tracked : TableSizeMap
  tracked = (track_relations env is_init cache oids (t, q)).0

  abbrev shown : TableSizeEntry → ℕ
  shown e = if get_table_exist e then charge k e else 0

  module _ (room : IsSpacious env tracked) (e : TableSizeEntry)
      (at : find e.key tracked.map ≡ some e) where
    abbrev covers : Bool
    covers = eqb e.key.id (table_size_entry_id k.segid)

    own_key : covers ≡ true → e.key ≡ table_size_key e.key.reloid k.segid
    own_key c =
        let key_of : ℕ → TableSizeEntryKey = λ i. record { reloid = e.key.reloid; id = i } in
        ap key_of ((eqb_iff e.key.id (table_size_entry_id k.segid)).0 c)

    entry-IsTracked :
        IsTracked env is_init cache e.key.reloid k.segid t tracked
          (listed_owners env cache oids e.key.reloid)
    entry-IsTracked =
        track_relations-IsTracked env is_init cache e.key.reloid k.segid live oids t q keyed room

    charge-moved : charge k e ≡ moved_charge env cache oids k e
    charge-moved = elim (Option-cases (listed_owners env cache oids e.key.reloid)) [
      | inl h ↦ ground (arith, h)
      | inr (o, h) ↦ elim (Bool-cases covers) [
        | inr apart ↦ ground (arith, h, apart)
        | inl c ↦
            let at' = subst (λ j. find j tracked.map ≡ some e) (own_key c) at in
            let moved =
              subst (λ o. IsTracked env is_init cache e.key.reloid k.segid t tracked o) h
                entry-IsTracked e at' in
            ap (λ o. owned_charge k o e) moved.0 ∙ ground (arith, h)
      ]
    ]

    shown-present : IsUnmarked t → shown e ≡ present_charge env cache oids k e
    shown-present unmarked = elim (Bool-cases covers) [
      | inr apart ↦ elim (Option-cases (listed_owners env cache oids e.key.reloid)) [
        | inl h ↦ ground (arith, h, apart)
        | inr (o, h) ↦ ground (arith, h, apart)
      ]
      | inl c ↦
          let at' = subst (λ j. find j tracked.map ≡ some e) (own_key c) at in
          elim (Option-cases (listed_owners env cache oids e.key.reloid)) [
            | inl h ↦
                let same =
                  subst (λ o. IsTracked env is_init cache e.key.reloid k.segid t tracked o) h
                    entry-IsTracked in
                let off = unmarked (table_size_key e.key.reloid k.segid) e (sym same ∙ at') in
                ground (arith, h, off)
            | inr (o, h) ↦
                let moved =
                  subst (λ o. IsTracked env is_init cache e.key.reloid k.segid t tracked o) h
                    entry-IsTracked e at' in
                let own = ap (λ o. owned_charge k o e) moved.0 in ground (arith, h, moved.1, own)
          ]
    ]

  -- The sums over the entries after the pass.
  module _ (distinct : IsDistinct t.map) (room : IsSpacious env tracked) where
    members : All (λ p. find p.0 tracked.map ≡ some p.1) tracked.map
    members =
        members_lem tracked.map
          (track_relations-IsDistinct env is_init cache oids t q keyed distinct room)

    at_own_key :
        IsKeyed tracked.map
        → (j : TableSizeEntryKey) (e : TableSizeEntry) → find j tracked.map ≡ some e
        → find e.key tracked.map ≡ some e
    at_own_key keyed' j e h = subst (λ i. find i tracked.map ≡ some e) (sym (keyed' j e h)) h

    pub usage-moved :
        IsKeyed tracked.map → usage tracked k ≡ sum (moved_charge env cache oids k) tracked.map
    usage-moved keyed' = sum-All (charge k) (moved_charge env cache oids k) tracked.map (
        All-imp (λ p. find p.0 tracked.map ≡ some p.1)
          (λ p. charge k p.1 ≡ moved_charge env cache oids k p.1) tracked.map
          (λ p h. charge-moved room p.1 (at_own_key keyed' p.0 p.1 h)) members)

    pub shown-sum :
        IsKeyed tracked.map
        → IsUnmarked t
        → sum shown tracked.map ≡ sum (present_charge env cache oids k) tracked.map
    shown-sum keyed' unmarked = sum-All shown (present_charge env cache oids k) tracked.map (
        All-imp (λ p. find p.0 tracked.map ≡ some p.1)
          (λ p. shown p.1 ≡ present_charge env cache oids k p.1) tracked.map
          (λ p h. shown-present room p.1 (at_own_key keyed' p.0 p.1 h) unmarked) members)
