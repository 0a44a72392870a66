-- ===== src/Usage/Present/Moves.antt =====
-- The entries of a relation after track_segments, and those of the other relations.
use diskquota.Prelude.{
  eqb_iff, ◌≢◌, ℕ, zero, suc, some, true, false, refl, ◌≡◌, arith, inl, inr, Bool-cases, ◌∙◌,
  if◌then◌else◌, ◌⊎◌, subst, sym, ap, ◌≤◌, ◌<◌, Bool, ltb, ◌+◌, ◌*◌, ◌==◌, eqb, ◌/◌,
}
use diskquota.Htab.{find}
use diskquota.TableSize.{
  table_key_has_eq, table_key_eq_iff, TableSizeEntryKey, TableSizeMap, TableSizeEntry,
  table_size_key, table_size_entry_id, get_table_exist, segment_size_array_length, segid_end,
}
use diskquota.Usage.Invariant.{IsKeyed}
use diskquota.Usage.Present.{IsSpacious, track_round, written_at, written_at-last}
use diskquota.Usage.{Owners, track_segments, owners_of}
use diskquota.Catalog.{Env, SegId, Oid}
use diskquota.QuotaInfo.{QuotaInfoMap}
use diskquota.Htab.Keys.{IsDistinct}

-- The entry under the key, if there is one, has these owners and the mark of an existing table.
abbrev pub IsMoved : Owners → TableSizeEntryKey → TableSizeMap → Type 0
IsMoved new j t =
    (e : TableSizeEntry) → find j t.map ≡ some e → (owners_of e ≡ new) × (get_table_exist e ≡ true)

-- The segment after the last one of an entry.
abbrev end_of : Env → ℕ → SegId
end_of env id =
    if ltb ((id + 1) * segment_size_array_length) (env.segcount + 1)
    then (id + 1) * segment_size_array_length
    else env.segcount + 1

module _ (env : Env) (is_init : Bool) (oid : Oid) (new : Owners) where
  pub track_segments-keeps :
      (n c : ℕ) (t : TableSizeMap) (q : QuotaInfoMap)
      → IsKeyed t.map
      → IsSpacious env (track_segments env is_init oid new n c (t, q)).0
      → IsKeyed (track_segments env is_init oid new n c (t, q)).0.map
        × (IsDistinct t.map → IsDistinct (track_segments env is_init oid new n c (t, q)).0.map)
        × ((j : TableSizeEntryKey)
            → eqb j.reloid oid ≡ false
            → find j (track_segments env is_init oid new n c (t, q)).0.map ≡ find j t.map)
  unfolding track_segments
  track_segments-keeps zero c t q keyed room = (keyed, λ d. d, λ j h. refl)
  track_segments-keeps (suc n) c t q keyed room =
      let (e, t', q', run, own, at, keyed', distinct) =
        track_round env is_init oid new n c t q keyed room in
      let (kept, unique, others) =
        track_segments-keeps n (suc c) t' q' keyed' (subst (λ x. IsSpacious env x.0) run room) in
      (
        subst (λ x. IsKeyed x.0.map) (sym run) kept,
        λ d. subst (λ x. IsDistinct x.0.map) (sym run) (unique (distinct d)),
        λ j h.
            ap (λ x. find j x.0.map) run
            ∙ (others j h ∙ ground (arith, at j, h, table_key_eq_iff (table_size_key oid c) j)),
      )

  module _ (s : SegId) (live : s < env.segcount + 1) where
    abbrev own_key : TableSizeEntryKey
    own_key = table_size_key oid s

    abbrev end_s : SegId
    end_s = end_of env (table_size_entry_id s)

    -- Either the last round of the entry is still to come, or the entry has been moved.
    abbrev IsUnderWay : SegId → TableSizeMap → Type 0
    IsUnderWay c t = (c < end_s) ⊎ ((end_s ≤ c) × IsMoved new own_key t)

    end_s-cases :
        (end_s ≡ (s / segment_size_array_length + 1) * segment_size_array_length)
          × (end_s < env.segcount + 1)
        ⊎ ((end_s ≡ env.segcount + 1)
            × (env.segcount + 1 ≤ (s / segment_size_array_length + 1) * segment_size_array_length))
    end_s-cases =
        elim (Bool-cases (
          ltb ((s / segment_size_array_length + 1) * segment_size_array_length)
            (env.segcount + 1))) [
              | inl h ↦ inl (rw h refl, rw h (ground (arith, h)))
              | inr h ↦ inr (rw h refl, ground (arith, h))
            ]

    -- The rounds for the entry of `s` are those before its end.
    own_round :
        (c : SegId)
        → c < env.segcount + 1
        → c / segment_size_array_length ≡ s / segment_size_array_length
        → c < end_s
    own_round c inside h = elim end_s-cases [
      | inl (p, short) ↦ omega (arith, p, h)
      | inr (p, long) ↦ omega (arith, p)
    ]

    other_round :
        (c : SegId)
        → c < end_s
        → c / segment_size_array_length ≢ s / segment_size_array_length
        → suc c < end_s
    other_round c early h = elim end_s-cases [
      | inl (p, short) ↦ omega (arith, p, h, early, live)
      | inr (p, long) ↦ omega (arith, p, h, early, live, long)
    ]

    end_s-le : end_s ≤ env.segcount + 1
    end_s-le = elim end_s-cases [
      | inl (p, short) ↦ omega (arith, short)
      | inr (p, long) ↦ omega (arith, p)
    ]

    round-IsUnderWay :
        (c : SegId) (t t' : TableSizeMap) (e : TableSizeEntry)
        → c < env.segcount + 1
        → e.key ≡ table_size_key oid c
        → ((j : TableSizeEntryKey)
            → find j t'.map ≡ (
                if table_size_key oid c == j
                then some (written_at env is_init oid new c e)
                else find j t.map))
        → IsUnderWay c t
        → IsUnderWay (suc c) t'
    round-IsUnderWay c t t' e inside own at way =
        let key = table_size_key oid c in
        let w = written_at env is_init oid new c e in
        elim (Bool-cases (key == own_key)) [
          | inl same ↦
              let p : key ≡ own_key = (table_key_eq_iff key own_key).0 same in
              let early = own_round c inside (ap (λ x. TableSizeEntryKey.id x) p) in
              elim (Bool-cases (eqb (suc c) end_s)) [
                | inr more ↦ inl (ground (arith, early, more))
                | inl last ↦
                    let ends : suc c ≡ segid_end env e =
                      (eqb_iff (suc c) end_s).0 last
                      ∙ ap (λ x. end_of env (TableSizeEntryKey.id x)) (sym (own ∙ p)) in
                    inr (
                      ground (arith, last),
                      λ x h.
                          let q : x ≡ w = ground (arith, at own_key, same, h) in
                          subst (λ y. (owners_of y ≡ new) × (get_table_exist y ≡ true)) (sym q)
                            (written_at-last env is_init oid new c e ends),
                    )
              ]
          | inr other ↦
              let same_entry : find own_key t'.map ≡ find own_key t.map =
                ground (arith, at own_key, other) in
              let apart : c / segment_size_array_length ≢ s / segment_size_array_length = λ h.
                let key_of : ℕ → TableSizeEntryKey = λ i. record { reloid = oid; id = i } in
                let k : key ≡ own_key = ap key_of h in
                cc (other, (table_key_eq_iff key own_key).1 k) in
              elim way [
                | inl early ↦ inl (other_round c early apart)
                | inr (late, moved) ↦ inr (omega (arith, late), λ x h. moved x (sym same_entry ∙ h))
              ]
        ]

    early_end : (c : SegId) → c < end_s → c ≡ env.segcount + 1 → ⊥
    early_end c early h = omega (arith, end_s-le, early, h)

    loop-IsMoved :
        (n c : ℕ) (t : TableSizeMap) (q : QuotaInfoMap)
        → c + n ≡ env.segcount + 1
        → IsKeyed t.map
        → IsSpacious env (track_segments env is_init oid new n c (t, q)).0
        → IsUnderWay c t
        → IsMoved new own_key (track_segments env is_init oid new n c (t, q)).0
    unfolding track_segments
    loop-IsMoved zero c t q rounds keyed room (inl early) =
        elim (early_end c early (omega (arith, rounds))) [ ]
    loop-IsMoved zero c t q rounds keyed room (inr (late, moved)) = moved
    loop-IsMoved (suc n) c t q rounds keyed room way =
        let (e, t', q', run, own, at, keyed', distinct) =
          track_round env is_init oid new n c t q keyed room in
        subst (λ x. IsMoved new own_key x.0) (sym run)
          (loop-IsMoved n (suc c) t' q' (omega (arith, rounds)) keyed'
            (subst (λ x. IsSpacious env x.0) run room)
            (round-IsUnderWay c t t' e (omega (arith, rounds)) own at way))

    -- The loop over all segments moves every entry of the relation.
    pub track_segments-IsMoved :
        (t : TableSizeMap) (q : QuotaInfoMap)
        → IsKeyed t.map
        → IsSpacious env (track_segments env is_init oid new (suc env.segcount) 0 (t, q)).0
        → IsMoved new own_key (track_segments env is_init oid new (suc env.segcount) 0 (t, q)).0
    track_segments-IsMoved t q keyed room =
        loop-IsMoved (suc env.segcount) 0 t q (omega arith) keyed room (inl (ground arith))
