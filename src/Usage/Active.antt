-- ===== src/Usage/Active.antt =====
-- calculate_active_table_disk_usage keeps the accounts.
use diskquota.Prelude.{
  ◌≡◌, sym, Option, none, some, arith, subst, ap, ℕ, ◌<◌, if◌then◌else◌, eqb, Bool-cases, ◌%◌, inl,
  ◌∙◌, inr, refl, true, ◌⊎◌,
}
use diskquota.Htab.{find, put, Htab}
use diskquota.Htab.Laws.{sum, sum-put_new, find-put, sum-put_found}
use diskquota.Catalog.{Env, Oid, SegId, coordinator}
use diskquota.QuotaType.{QuotaInfoEntryKey}
use diskquota.SharedTable.Laws.{found, added, refused, search_or_add-Searched}
use diskquota.TableSize.{
  TableSizeEntry, TableSizeEntryKey, TableSizeMap, table_key_eq_iff, table_size_key,
  table_key_has_eq, get_table_size_map_entry, new_table_size_entry, table_size_entry_id,
  set_flush_flag, get_size, set_size, table_size_entry_index,
}
use diskquota.TableSize.Laws.{
  get_size-new, new-key, get_size-set_flush_flag, get_size-set_size, get_size-lt,
}
use diskquota.Usage.Invariant.{
  charge, usage, IsKeyed, put-IsKeyed, is_charged, charge_other, charge_own,
  size_of-update_owner_quotas, Accounts,
}
use diskquota.QuotaInfo.{QuotaInfoMap}
use diskquota.Words.{two63, sub64, add64, two64}
use diskquota.Usage.{update_owner_quotas, owners_of, calculate_active_table_disk_usage}
use diskquota.SharedTable.{write}
use diskquota.QuotaInfo.Sizes.{size_of, IsRoomy}

-- A search that may add an entry changes no usage.
module _ (env : Env) (oid : Oid) (segid : SegId) (t : TableSizeMap) where
  abbrev key : TableSizeEntryKey
  key = table_size_key oid segid

  -- The entry that a search yields stands in the resulting table, under its key.
  pub data Fetched (r : Option TableSizeEntry × TableSizeMap) : Type 0 where
    entry :
        (e : TableSizeEntry)
        → r.0 ≡ some e
        → find key r.1.map ≡ some e
        → e.key ≡ key
        → IsKeyed r.1.map
        → ((k : QuotaInfoEntryKey) → usage r.1 k ≡ usage t k)
        → (find key t.map ≡ some e) ⊎ ((find key t.map ≡ none) × (e ≡ new_table_size_entry env key))
        → Fetched r
    full : find key t.map ≡ none → r.0 ≡ none → r.1.map ≡ t.map → Fetched r

  usage-add :
      (m : Htab TableSizeEntryKey TableSizeEntry)
      → find key t.map ≡ none
      → m ≡ put key (new_table_size_entry env key) t.map
      → (k : QuotaInfoEntryKey) → sum (charge k) m ≡ usage t k
  usage-add m h e k = rw e (
      ground (
        arith,
        sum-put_new (charge k) key (new_table_size_entry env key) t.map h,
        get_size-new env key k.segid,
      ))

  pub fetch : IsKeyed t.map → Fetched (get_table_size_map_entry env oid segid t)
  unfolding get_table_size_map_entry
  fetch keyed =
      let fresh = new_table_size_entry env key in
      elim (search_or_add-Searched env.clock env.max_num_table_size_entries fresh key t) [
        | found e h r m n ↦
            entry e r (ground (arith, h)) (keyed key e h) (subst IsKeyed (sym m) keyed)
              (λ k. ap (sum (charge k)) m) (inl h)
        | added h room r m n ↦
            entry fresh r (ground (arith, find-put key key fresh t.map, table_key_eq_iff key key))
              (new-key env key)
              (subst IsKeyed (sym m) (put-IsKeyed key fresh t.map keyed (new-key env key)))
              (usage-add _ h m) (inr (h, refl))
        | refused h room r m n ↦ full h r m
      ]

-- A write of one size, with the quotas updated by the difference, keeps the accounts.
module _ (env : Env) (t : TableSizeMap) (q : QuotaInfoMap) (e : TableSizeEntry) (s : SegId)
    (size : ℕ) (small : size < two63) (at : find e.key t.map ≡ some e)
    (covers : e.key.id ≡ table_size_entry_id s) where
  abbrev written : TableSizeEntry
  written = set_flush_flag (set_size e s size) s

  abbrev updated_quotas : QuotaInfoMap
  updated_quotas = update_owner_quotas env (sub64 size (get_size e s)) (owners_of e) s q

  written-key : written.key ≡ e.key
  unfolding set_flush_flag set_size
  written-key = refl

  written-owners : owners_of written ≡ owners_of e
  unfolding set_flush_flag set_size
  written-owners = refl

  get_size-written :
      (i : SegId)
      → get_size written i
        ≡ (if eqb (table_size_entry_index i) (table_size_entry_index s) then size else get_size e i)
  get_size-written i = get_size-set_flush_flag _ s i ∙ get_size-set_size e s i size small

  self :
      (if eqb (table_size_entry_index s) (table_size_entry_index s) then size else get_size e s)
      ≡ size
  self = ground arith

  charge-written :
      (k : QuotaInfoEntryKey)
      → charge k written ≡ (if is_charged k (owners_of e) s then size else charge k e)
  charge-written k = elim (Bool-cases (is_charged k (owners_of e) s)) [
    | inl c ↦
        let c' : is_charged k (owners_of written) s ≡ true =
          subst (λ o. is_charged k o s ≡ true) (sym written-owners) c in
        let i = ap (λ x. TableSizeEntryKey.id x) written-key ∙ covers in
        rw c (charge_own k written s c' i ∙ get_size-written s ∙ self)
    | inr c ↦ rw c (
        charge_other k e written s c covers written-key written-owners
          (λ i d. rw (get_size-written i, d)))
  ]

  pub write-IsKeyed : IsKeyed t.map → IsKeyed (write e.key written t).map
  unfolding write
  write-IsKeyed keyed = put-IsKeyed e.key written t.map keyed written-key

  pub write-sized :
      (k : QuotaInfoEntryKey)
      → size_of q k ≡ usage t k % two64
      → IsRoomy env updated_quotas
      → size_of updated_quotas k ≡ usage (write e.key written t) k % two64
  unfolding write add64 sub64
  write-sized k h room =
      let u =
        size_of-update_owner_quotas env (sub64 size (get_size e s)) (owners_of e) s q k room in
      let total = sum-put_found (charge k) e.key written e t.map at in
      elim (Bool-cases (is_charged k (owners_of e) s)) [
        | inl c ↦
            ground
              (arith, u, total, c, charge-written k, charge_own k e s c covers, get_size-lt e s)
        | inr c ↦ ground (arith, u, total, c, charge-written k)
      ]

-- The size that the code writes: on the coordinator the table's own bytes are added.
abbrev pub active_size : (Oid → ℕ) → Oid → ℕ → SegId → ℕ
active_size table_size oid size segid =
    if eqb segid coordinator then add64 size (table_size oid) else size

-- If the map of quotas does not fill up, then after the size of a table on a segment is taken
-- every live quota still has the sum of the sizes of its tables, and each table entry its key.
pub calculate_active_table_disk_usage-Accounts :
    (env : Env) (table_size : Oid → ℕ) (oid : Oid) (size : ℕ) (segid : SegId) (t : TableSizeMap)
    (q : QuotaInfoMap)
    → active_size table_size oid size segid < two63
    → Accounts env t q
    → IsRoomy env (calculate_active_table_disk_usage env table_size oid size segid (t, q)).1
    → Accounts env
        (calculate_active_table_disk_usage env table_size oid size segid (t, q)).0
        (calculate_active_table_disk_usage env table_size oid size segid (t, q)).1
unfolding calculate_active_table_disk_usage
calculate_active_table_disk_usage-Accounts env table_size oid size segid t q small acc room =
    let size' = active_size table_size oid size segid in
    let t' = (get_table_size_map_entry env oid segid t).1 in
    elim (fetch env oid segid t acc.keyed) [
      | full _ r m ↦
          rw (r, calculate_active_table_disk_usage)
            (record {
              keyed = subst IsKeyed (sym m) acc.keyed;
              sized = λ k l. acc.sized k l ∙ ap (λ x. sum (charge k) x % two64) (sym m);
            })
      | entry e r at same_key keyed same _ ↦
          let at' : find e.key t'.map ≡ some e =
            subst (λ x. find x t'.map ≡ some e) (sym same_key) at in
          let covers = ap (λ x. TableSizeEntryKey.id x) same_key in
          rw (r, calculate_active_table_disk_usage)
            (record {
              keyed = write-IsKeyed env t' q e segid size' small at' covers keyed;
              sized = λ k l.
                  write-sized env t' q e segid size' small at' covers k
                    (acc.sized k l ∙ ap (λ x. x % two64) (sym (same k)))
                    (rw (r, calculate_active_table_disk_usage) at room);
            })
    ]
