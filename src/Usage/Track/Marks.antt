-- ===== src/Usage/Track/Marks.antt =====
-- What an entry is charged with does not depend on its flags.
use diskquota.Prelude.{
  ◌≢◌, ℕ, ◌≡◌, Bool, eqb, arith, if◌then◌else◌, refl, inl, inr, ◌∙◌, sym, subst, Bool-cases, ap,
}
use diskquota.Catalog.{SegId}
use diskquota.QuotaType.{QuotaInfoEntryKey}
use diskquota.TableSize.{
  TableSizeEntry, table_size_entry_id, reset_flush_flag, get_size, set_table_exist,
  table_key_has_eq, TableSizeEntryKey,
}
use diskquota.Usage.{Owners, owners_of, with_owners}
use diskquota.TableSize.Laws.{get_size-reset_flush_flag}
use diskquota.Usage.Invariant.{charge, is_charged, is_charged-segid, if_congr}

module _ (k : QuotaInfoEntryKey) (is_init : Bool) (new : Owners) where
  -- The marks that a round sets on an entry before the transfer.
  abbrev pub marked : SegId → TableSizeEntry → TableSizeEntry
  marked c e = if is_init then reset_flush_flag (set_table_exist e) c else set_table_exist e

  pub marked-key : (c : SegId) (e : TableSizeEntry) → (marked c e).key ≡ e.key
  unfolding reset_flush_flag set_table_exist
  marked-key c e = ground arith

  pub marked-owners : (c : SegId) (e : TableSizeEntry) → owners_of (marked c e) ≡ owners_of e
  unfolding reset_flush_flag set_table_exist
  marked-owners c e = ground arith

  pub get_size-set_table_exist :
      (e : TableSizeEntry) (i : SegId) → get_size (set_table_exist e) i ≡ get_size e i
  unfolding get_size set_table_exist
  get_size-set_table_exist e i = refl

  pub get_size-marked :
      (c : SegId) (e : TableSizeEntry) (i : SegId) → get_size (marked c e) i ≡ get_size e i
  get_size-marked c e i =
      ground
        (arith, get_size-set_table_exist e i, get_size-reset_flush_flag (set_table_exist e) c i)

  pub get_size-with_owners :
      (e : TableSizeEntry) (i : SegId) → get_size (with_owners e new) i ≡ get_size e i
  unfolding get_size
  get_size-with_owners e i = refl

  pub charge_congr :
      (e e' : TableSizeEntry)
      → e'.key ≡ e.key
      → owners_of e' ≡ owners_of e
      → get_size e' k.segid ≡ get_size e k.segid
      → charge k e' ≡ charge k e
  charge_congr e e' p o g =
      if_congr (eqb e'.key.id (table_size_entry_id k.segid))
        (eqb e.key.id (table_size_entry_id k.segid)) _ _ _ _
        (ap (λ x. eqb (TableSizeEntryKey.id x) (table_size_entry_id k.segid)) p)
        (ap (λ x. is_charged k x k.segid) o) (λ _ _. g)

  pub charge-marked : (c : SegId) (e : TableSizeEntry) → charge k (marked c e) ≡ charge k e
  charge-marked c e =
      charge_congr e (marked c e) (marked-key c e) (marked-owners c e) (get_size-marked c e k.segid)

  pub charge-marked_owners :
      (c : SegId) (e : TableSizeEntry)
      → charge k (with_owners (marked c e) new) ≡ charge k (with_owners e new)
  charge-marked_owners c e =
      charge_congr (with_owners e new) (with_owners (marked c e) new) (marked-key c e) refl (
        get_size-with_owners (marked c e) k.segid
        ∙ get_size-marked c e k.segid
        ∙ sym (get_size-with_owners e k.segid))

  -- What an entry that covers `c` is charged, by whether `c` is the key's segment.
  module _ (e : TableSizeEntry) (c : SegId) (covers : e.key.id ≡ table_size_entry_id c) where
    pub charge_here :
        k.segid ≡ c → (if is_charged k (owners_of e) c then get_size e c else 0) ≡ charge k e
    charge_here p =
        subst (λ x. (if is_charged k (owners_of e) x then get_size e x else 0) ≡ charge k e) p
          (let i : e.key.id ≡ table_size_entry_id k.segid = rw p covers in ground arith)

    pub charge_outside : table_size_entry_id k.segid ≢ table_size_entry_id c → charge k e ≡ 0
    charge_outside p = ground arith

  pub charge_elsewhere :
      (o : Owners) (c size : ℕ) → k.segid ≢ c → (if is_charged k o c then size else 0) ≡ 0
  charge_elsewhere o c size p = elim (Bool-cases (is_charged k o c)) [
    | inl h ↦ absurd (p (is_charged-segid k o c h))
    | inr h ↦ rw h
  ]

  pub charge_here_new :
      (e : TableSizeEntry) (c : SegId)
      → e.key.id ≡ table_size_entry_id c
      → k.segid ≡ c
      → (if is_charged k new c then get_size e c else 0) ≡ charge k (with_owners e new)
  unfolding get_size
  charge_here_new e c covers p = charge_here (with_owners e new) c covers p

  -- An entry with no bytes is charged nothing, whoever owns it.
  pub charge_empty :
      (e : TableSizeEntry)
      → get_size e k.segid ≡ 0
      → (charge k e ≡ 0) × (charge k (with_owners e new) ≡ 0)
  charge_empty e h = (ground arith, ground (arith, get_size-with_owners e k.segid))
