-- ===== src/Usage/Loop.antt =====
-- The loops over the segments of a relation and over the relations keep the accounts.
use diskquota.Prelude.{
  ℕ, zero, suc, ◌+◌, ◌%◌, ◌<◌, ◌≡◌, Option-cases, inl, inr, arith, Bool, if◌then◌else◌, subst, sym,
  ◌∙◌, ap, some, Bool-cases, eqb,
}
use diskquota.Words.{two64}
use diskquota.Catalog.{Env, Oid, SegId}
use diskquota.QuotaType.{QuotaInfoEntryKey}
use diskquota.QuotaInfo.{QuotaInfoMap}
use diskquota.QuotaInfo.Sizes.{size_of, IsRoomy}
use diskquota.TableSize.{
  TableSizeEntry, TableSizeMap, get_table_size_map_entry, reset_flush_flag, get_size,
  set_table_exist, segid_end, table_key_has_eq,
}
use diskquota.Usage.{Owners, track_segments, transfer_owners, owners_of}
use diskquota.Usage.Invariant.{usage, IsKeyed, charge}
use diskquota.Usage.Active.{fetch, entry, full}
use diskquota.Usage.Track.{Tracked, step_last, step_next, settled}
use diskquota.Usage.Transfer.{transfer_owners-IsRoomy}
use diskquota.Htab.Laws.{sum}
use diskquota.Htab.{find}

module _ (env : Env) (is_init : Bool) (oid : Oid) (new : Owners) where
  -- The quotas after the round for an entry, and the table.
  abbrev marked_entry : SegId → TableSizeEntry → TableSizeEntry
  marked_entry c e = if is_init then reset_flush_flag (set_table_exist e) c else set_table_exist e

  abbrev next_quotas : SegId → TableSizeEntry → QuotaInfoMap → QuotaInfoMap
  next_quotas c e q =
      transfer_owners env (get_size (marked_entry c e) c) (owners_of (marked_entry c e)) new c q

  pub track_segments-IsRoomy :
      (n c : ℕ) (t : TableSizeMap) (q : QuotaInfoMap)
      → IsRoomy env (track_segments env is_init oid new n c (t, q)).1
      → IsRoomy env q
  unfolding track_segments
  track_segments-IsRoomy zero c t q room = room
  track_segments-IsRoomy (suc n) c t q room =
      elim (Option-cases (get_table_size_map_entry env oid c t).0) [
        | inl h ↦ rw (h, track_segments) at room
        | inr (e, h) ↦
            transfer_owners-IsRoomy env (get_size (marked_entry c e) c) c
              (owners_of (marked_entry c e)) new q
              (track_segments-IsRoomy n (suc c) _ (next_quotas c e q)
                (rw (h, track_segments) at room))
      ]

  module _ (k : QuotaInfoEntryKey) (live : k.segid < env.segcount + 1) where
    pub track_segments-sized :
        (n c : ℕ) (t : TableSizeMap) (q : QuotaInfoMap)
        → c + n ≡ env.segcount + 1
        → Tracked env k live is_init oid new n c t q
        → IsRoomy env (track_segments env is_init oid new n c (t, q)).1
        → IsKeyed (track_segments env is_init oid new n c (t, q)).0.map
          × (size_of (track_segments env is_init oid new n c (t, q)).1 k
              ≡ usage (track_segments env is_init oid new n c (t, q)).0 k % two64)
    unfolding track_segments
    track_segments-sized zero c t q rounds s room =
        (s.keyed, settled env k live is_init oid new 0 c t q (ground arith) s)
    track_segments-sized (suc n) c t q rounds s room = elim (fetch env oid c t s.keyed) [
      | full h r m ↦
          rw (r, track_segments)
            (
              subst IsKeyed (sym m) s.keyed,
              s.missing h ∙ ap (λ x. sum (charge k) x % two64) (sym m),
            )
      | entry e r at p keyed same prior ↦
          let t' = (get_table_size_map_entry env oid c t).1 in
          let at' : find e.key t'.map ≡ some e = subst (λ x. find x t'.map ≡ some e) (sym p) at in
          let room' = rw (r, track_segments) at room in
          let roomy = track_segments-IsRoomy n (suc c) _ (next_quotas c e q) room' in
          elim (Bool-cases (eqb (suc c) (segid_end env (marked_entry c e)))) [
            | inl last ↦
                rw (r, track_segments)
                  (rw last (
                    track_segments-sized n (suc c) _ (next_quotas c e q) (omega arith)
                      (step_last env k live is_init oid new n c t t' q e rounds s at' p keyed
                        (same k) prior roomy last)
                      (rw last at room')))
            | inr more ↦
                rw (r, track_segments)
                  (rw more (
                    track_segments-sized n (suc c) _ (next_quotas c e q) (omega arith)
                      (step_next env k live is_init oid new n c t t' q e rounds s at' p keyed
                        (same k) prior roomy more)
                      (rw more at room')))
          ]
    ]
