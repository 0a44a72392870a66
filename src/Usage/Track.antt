-- ===== src/Usage/Track.antt =====
-- The loop over the segments of one relation keeps the accounts, although the entry's owners change
-- only at the last segment of the entry.
pub mod Round
pub mod Marks
use native.Mathlib.Decide.{ℕ_discrete}
use diskquota.Prelude.{
  ◌≢◌, ℕ, suc, ◌+◌, ◌<◌, ◌≡◌, Bool, true, false, ◌&&◌, ltb, eqb, arith, if◌then◌else◌, ◌%◌, refl,
  Option-cases, inl, none, inr, some, ◌∙◌, sym, subst, Bool-cases, ◌⊎◌, ap,
}
use diskquota.Catalog.{Env, SegId, Oid}
use diskquota.QuotaType.{QuotaInfoEntryKey}
use diskquota.TableSize.{
  TableSizeEntry, table_size_entry_id, segid_end, TableSizeMap, reset_flush_flag, get_size,
  set_table_exist, table_size_key, table_key_has_eq, new_table_size_entry, TableSizeEntryKey,
  table_key_eq_iff,
}
use diskquota.Words.{two64}
use diskquota.Usage.{Owners, owners_of, with_owners, transfer_owners}
use diskquota.QuotaInfo.{QuotaInfoMap}
use diskquota.TableSize.Laws.{get_size-reset_flush_flag, get_size-lt, get_size-new}
use diskquota.Usage.Invariant.{IsKeyed, usage, charge, is_charged, is_charged-segid, put-IsKeyed}
use diskquota.QuotaInfo.Sizes.{size_of, IsRoomy}
use diskquota.Htab.{find}
use diskquota.Usage.Track.Round.{
  pending, pending_last, round_last, inside_last, round_next, id_next, pending_next,
}
use diskquota.Usage.Track.Marks.{
  marked, charge-marked, charge-marked_owners, marked-key, charge_empty, charge_here,
  charge_elsewhere, charge_outside, charge_here_new,
}
use diskquota.Usage.Transfer.{Balances, transfer_owners-Balances}
use diskquota.SharedTable.{write}
use diskquota.Htab.Laws.{sum-put_found, find-put}

module _ (env : Env) (k : QuotaInfoEntryKey) (live : k.segid < env.segcount + 1) (is_init : Bool)
    (oid : Oid) (new : Owners) where
  -- The accounts before the round for segment `c`, with `n` rounds left.
  pub record Tracked (n c : ℕ) (t : TableSizeMap) (q : QuotaInfoMap) : Type 0 where
    pub keyed : IsKeyed t.map
    pub bound : size_of q k < two64
    pub missing : find (table_size_key oid c) t.map ≡ none → size_of q k ≡ usage t k % two64
    pub held :
        (e : TableSizeEntry)
        → find (table_size_key oid c) t.map ≡ some e
        → (size_of q k + (if pending env k live n c then charge k e else 0)) % two64
          ≡ (usage t k + (if pending env k live n c then charge k (with_owners e new) else 0))
            % two64

  -- With nothing pending the two cases agree.
  pub settled :
      (n c : ℕ) (t : TableSizeMap) (q : QuotaInfoMap)
      → pending env k live n c ≡ false
      → Tracked n c t q
      → size_of q k ≡ usage t k % two64
  settled n c t q p s = elim (Option-cases (find (table_size_key oid c) t.map)) [
    | inl h ↦ s.missing h
    | inr (e, h) ↦ let b = s.bound in let f = s.held e h in ground arith
  ]

  pub unsettled :
      (n c : ℕ) (t : TableSizeMap) (q : QuotaInfoMap)
      → pending env k live n c ≡ false
      → IsKeyed t.map
      → size_of q k ≡ usage t k % two64
      → Tracked n c t q
  unsettled n c t q p keyed h = record {
    keyed = keyed;
    bound = omega arith;
    missing = λ _. h;
    held = λ e f. rw p (omega arith);
  }

  -- The round for an entry `e` that a search in `t` yielded, with the table `t'`.
  module _ (n c : ℕ) (t t' : TableSizeMap) (q : QuotaInfoMap) (e : TableSizeEntry)
      (rounds : c + suc n ≡ env.segcount + 1) (state : Tracked (suc n) c t q)
      (at : find e.key t'.map ≡ some e) (same_key : e.key ≡ table_size_key oid c)
      (keyed : IsKeyed t'.map) (same : usage t' k ≡ usage t k)
      (prior : (find (table_size_key oid c) t.map ≡ some e)
        ⊎ ((find (table_size_key oid c) t.map ≡ none)
            × (e ≡ new_table_size_entry env (table_size_key oid c)))) where
    abbrev e2 : TableSizeEntry
    e2 = marked k is_init new c e

    abbrev q' : QuotaInfoMap
    q' = transfer_owners env (get_size e2 c) (owners_of e2) new c q

    covers : e.key.id ≡ table_size_entry_id c
    covers = ap (λ x. TableSizeEntryKey.id x) same_key

    covers2 : e2.key.id ≡ table_size_entry_id c
    covers2 = ap (λ x. TableSizeEntryKey.id x) (marked-key k is_init new c e ∙ same_key)

    before :
        (size_of q k + (if pending env k live (suc n) c then charge k e2 else 0)) % two64
        ≡ (usage t' k + (if pending env k live (suc n) c then charge k (with_owners e2 new) else 0))
          % two64
    before =
        rw (charge-marked k is_init new c e, charge-marked_owners k is_init new c e, same)
          (elim prior [
            | inl h ↦ state.held e h
            | inr (h, f) ↦
                let (x, y) =
                  charge_empty k is_init new e
                    (rw f (get_size-new env (table_size_key oid c) k.segid)) in
                let z = state.missing h in ground (arith, x, y, z)
          ])

    balance :
        IsRoomy env q'
        → Balances q q' k
            (if is_charged k (owners_of e2) c then get_size e2 c else 0)
            (if is_charged k new c then get_size e2 c else 0)
    balance room =
        transfer_owners-Balances env (get_size e2 c) c (get_size-lt e2 c) k (owners_of e2) new q
          room state.bound

    abbrev charged_old : ℕ
    charged_old = if is_charged k (owners_of e2) c then get_size e2 c else 0

    abbrev charged_new : ℕ
    charged_new = if is_charged k new c then get_size e2 c else 0

    here : k.segid ≡ c → (charged_old ≡ charge k e2) × (charged_new ≡ charge k (with_owners e2 new))
    here p =
        (charge_here k is_init new e2 c covers2 p, charge_here_new k is_init new e2 c covers2 p)

    elsewhere : k.segid ≢ c → (charged_old ≡ 0) × (charged_new ≡ 0)
    elsewhere p = (charge_elsewhere k is_init new _ c _ p, charge_elsewhere k is_init new new c _ p)

    outside :
        table_size_entry_id k.segid ≢ table_size_entry_id c
        → (charge k e2 ≡ 0) × (charge k (with_owners e2 new) ≡ 0)
    outside p = (
      charge_outside k is_init new e2 c covers2 p,
      charge_outside k is_init new (with_owners e2 new) c covers2 p,
    )

    -- The write of an entry under its key.
    usage-write :
        (e3 : TableSizeEntry) → usage (write e.key e3 t') k + charge k e2 ≡ usage t' k + charge k e3
    unfolding write
    usage-write e3 =
        rw (charge-marked k is_init new c e) (sum-put_found (charge k) e.key e3 e t'.map at)

    write-IsKeyed : (e3 : TableSizeEntry) → e3.key ≡ e.key → IsKeyed (write e.key e3 t').map
    unfolding write
    write-IsKeyed e3 p = put-IsKeyed e.key e3 t'.map keyed p

    usage-marked : usage (write e.key e2 t') k ≡ usage t' k
    usage-marked = omega (arith, usage-write e2)

    find-write : (e3 : TableSizeEntry) → find e.key (write e.key e3 t').map ≡ some e3
    unfolding write
    find-write e3 = ground (arith, find-put e.key e.key e3 t'.map, table_key_eq_iff e.key e.key)

    -- At the last segment of the entry its owners change.
    pub step_last :
        IsRoomy env q'
        → eqb (suc c) (segid_end env e2) ≡ true
        → Tracked n (suc c) (write e.key (with_owners e2 new) t') q'
    step_last room last =
        let (b, m) = balance room in
        unsettled n (suc c) _ q' (pending_last env k live e2 n c rounds covers2 last)
          (write-IsKeyed (with_owners e2 new) (marked-key k is_init new c e))
          (round_last env k live n c (size_of q k) (size_of q' k) (usage t' k) (charge k e2)
            (charge k (with_owners e2 new)) charged_old charged_new state.bound b before m here
            elsewhere outside (usage (write e.key (with_owners e2 new) t') k)
            (inside_last env k live e2 c covers2 last) (usage-write (with_owners e2 new)))

    -- Before the last segment the entry stays the one of the next round.
    found_next :
        eqb (suc c) (segid_end env e2) ≡ false
        → find (table_size_key oid (suc c)) (write e.key e2 t').map ≡ some e2
    found_next more =
        let same_id = id_next env k live e2 n c rounds covers2 more in
        let p : e.key ≡ table_size_key oid (suc c) =
          same_key
          ∙ ap (λ (i : ℕ). let x : TableSizeEntryKey = record { reloid = oid; id = i } in x)
              (sym same_id) in
        rw (← p) (find-write e2)

    pub step_next :
        IsRoomy env q'
        → eqb (suc c) (segid_end env e2) ≡ false
        → Tracked n (suc c) (write e.key e2 t') q'
    step_next room more =
        let (b, m) = balance room in
        let r =
          round_next env k live n c (size_of q k) (size_of q' k) (usage t' k) (charge k e2)
            (charge k (with_owners e2 new)) charged_old charged_new state.bound b before m here
            elsewhere outside in
        record {
          keyed = write-IsKeyed e2 (marked-key k is_init new c e);
          bound = b;
          missing = λ h. cc (found_next more);
          held = λ x f.
              let p : x ≡ e2 = cc (found_next more) in
              rw (p, pending_next env k live e2 n c rounds covers2 more) (rw (usage-marked) r);
        }
