-- ===== src/Usage/Track/Round.antt =====
-- The arithmetic of one round of the loop over the segments of a relation.
use native.Mathlib.Decide.{ℕ_discrete}
use diskquota.Prelude.{
  ◌≢◌, ℕ, suc, ◌+◌, ◌<◌, ◌≡◌, Bool, true, false, ◌&&◌, ltb, eqb, arith, if◌then◌else◌, ◌%◌,
}
use diskquota.Catalog.{Env, SegId}
use diskquota.QuotaType.{QuotaInfoEntryKey}
use diskquota.TableSize.{TableSizeEntry, table_size_entry_id, segid_end, table_key_has_eq}
use diskquota.Words.{two64}

module _ (env : Env) (k : QuotaInfoEntryKey) (live : k.segid < env.segcount + 1) where
  -- The segment of the key is done, and its entry still waits for its owners.
  abbrev pub pending : ℕ → SegId → Bool
  pending n c =
      ltb k.segid c && eqb (table_size_entry_id k.segid) (table_size_entry_id c) && ltb 0 n

  module _ (e : TableSizeEntry) (n c : ℕ) (rounds : c + suc n ≡ env.segcount + 1)
      (covers : e.key.id ≡ table_size_entry_id c) where
    pub pending_last : eqb (suc c) (segid_end env e) ≡ true → pending n (suc c) ≡ false
    pending_last h = ground arith

    pub id_next :
        eqb (suc c) (segid_end env e) ≡ false → table_size_entry_id (suc c) ≡ table_size_entry_id c
    id_next h = ground arith

    pub pending_next :
        eqb (suc c) (segid_end env e) ≡ false
        → pending n (suc c)
          ≡ (ltb k.segid (suc c) && eqb (table_size_entry_id k.segid) (table_size_entry_id c))
    pending_next h = ground arith

  -- The arithmetic of one round: `v` and `u` are the value and the usage before, `a` and `b` the
  -- charge of the entry under the old and the new owners, `given` and `got` what the transfer moves.
  module _ (n c v v' u a b given got : ℕ) (bound : v < two64) (bound' : v' < two64)
      (before : (v + (if pending (suc n) c then a else 0)) % two64
        ≡ (u + (if pending (suc n) c then b else 0)) % two64)
      (balance : (v' + given) % two64 ≡ (v + got) % two64)
      (here : k.segid ≡ c → (given ≡ a) × (got ≡ b))
      (elsewhere : k.segid ≢ c → (given ≡ 0) × (got ≡ 0))
      (outside : table_size_entry_id k.segid ≢ table_size_entry_id c → (a ≡ 0) × (b ≡ 0)) where
    pub round_last :
        (u' : ℕ)
        → (table_size_entry_id k.segid ≡ table_size_entry_id c → k.segid < suc c)
        → u' + a ≡ u + b
        → v' ≡ u' % two64
    round_last u' inside e = elim (ℕ_discrete k.segid c) [
      | yes p ↦ let (x, y) = here p in ground arith
      | no p ↦
          let (x, y) = elsewhere p in
          elim (ℕ_discrete (table_size_entry_id k.segid) (table_size_entry_id c)) [
            | yes i ↦ ground (arith, inside i)
            | no i ↦ let (z, w) = outside i in ground arith
          ]
    ]

    pub round_next :
        (v'
            + (if ltb k.segid (suc c) && eqb (table_size_entry_id k.segid) (table_size_entry_id c)
                then a
                else 0))
          % two64
        ≡ (u
            + (if ltb k.segid (suc c) && eqb (table_size_entry_id k.segid) (table_size_entry_id c)
                then b
                else 0))
          % two64
    round_next = elim (ℕ_discrete k.segid c) [
      | yes p ↦ let (x, y) = here p in ground arith
      | no p ↦ let (x, y) = elsewhere p in ground arith
    ]

  pub inside_last :
      (e : TableSizeEntry) (c : ℕ)
      → e.key.id ≡ table_size_entry_id c
      → eqb (suc c) (segid_end env e) ≡ true
      → table_size_entry_id k.segid ≡ table_size_entry_id c
      → k.segid < suc c
  inside_last e c covers last same = ground arith
