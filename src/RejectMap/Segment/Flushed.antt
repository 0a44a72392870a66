-- ===== src/RejectMap/Segment/Flushed.antt =====
-- The first and the last loop of refresh_rejectmap: the dispatched entries enter the local map, and
-- the entries of files leave it for the global one.
use diskquota.Prelude.{
  ℕ, ◌∷◌, [], List, Option, false, none, some, true, ◌≡◌, ◌≢◌, inl, inr, arith, refl, nat_eq,
  Bool-cases, IsAmong, subst, ◌∙◌, ◌≤◌, ◌<◌, ◌+◌, length, ◌==◌,
}
use diskquota.RejectEntry.{
  reject_entry_has_eq, RejectMapEntry, GlobalRejectMapEntry, reject_entry_eq_iff,
}
use diskquota.RejectMap.Segment.{
  add_dispatched, Dispatched, flush_segment_entries, SegmentRejectMap, dispatched_key,
}
use diskquota.Catalog.{Env, oid_is_valid}
use diskquota.Htab.{find}
use diskquota.RejectMap.Segment.Laws.{IsIn, IsIn-put, IsIn-put_own}
use diskquota.RejectMap.{GlobalRejectMap}
use diskquota.Words.{two31}
use diskquota.SharedTable.Added.{
  added_to, find-added_to, find-added_to_own, find-added_to_other, length-added_to,
}

add_dispatched-grows :
    (k : RejectMapEntry) (ds : List (Option Dispatched)) (m : SegmentRejectMap)
    → IsIn k m
    → IsIn k (add_dispatched ds m)
unfolding add_dispatched
add_dispatched-grows k [] m i = i
add_dispatched-grows k (none ∷ ds) m i = add_dispatched-grows k ds m i
add_dispatched-grows k (some d ∷ ds) m i =
    add_dispatched-grows k ds _ (IsIn-put k (dispatched_key d) _ m i)

pub add_dispatched-IsIn :
    (d : Dispatched) (ds : List (Option Dispatched)) (m : SegmentRejectMap)
    → IsAmong (some d) ds
    → IsIn (dispatched_key d) (add_dispatched ds m)
unfolding add_dispatched
add_dispatched-IsIn d [] m w = elim w [ ]
add_dispatched-IsIn d (none ∷ ds) m (inl same) = ground (arith, same)
add_dispatched-IsIn d (none ∷ ds) m (inr later) = add_dispatched-IsIn d ds m later
add_dispatched-IsIn d (some x ∷ ds) m (inr later) = add_dispatched-IsIn d ds _ later
add_dispatched-IsIn d (some x ∷ ds) m (inl same) =
    let x_eq : x ≡ d = ground (arith, same) in
    subst (λ z. IsIn (dispatched_key z) (add_dispatched (some x ∷ ds) m)) x_eq
      (add_dispatched-grows (dispatched_key x) ds _ (IsIn-put_own (dispatched_key x) _ m))

module _ (env : Env) where
  abbrev max_size : ℕ
  max_size = env.max_disk_quota_reject_entries

  abbrev after : RejectMapEntry → GlobalRejectMapEntry → GlobalRejectMap → GlobalRejectMap
  after k r g = added_to env.clock max_size r k g

  flush_segment_entries-grows :
      (k : RejectMapEntry) (m : SegmentRejectMap) (g : GlobalRejectMap)
      → find k g.map ≢ none
      → find k (flush_segment_entries env m g).map ≢ none
  unfolding flush_segment_entries
  flush_segment_entries-grows k [] g i = i
  flush_segment_entries-grows k ((j, r) ∷ m) g i = elim (Bool-cases (oid_is_valid j.targetoid)) [
    | inl soft ↦ rw (soft, flush_segment_entries) (flush_segment_entries-grows k m g i)
    | inr file ↦
        rw (file, flush_segment_entries)
          (flush_segment_entries-grows k m (after j r g)
            (find-added_to env.clock max_size r j g k i))
  ]

  -- While there is room the entries without a target reach the global map.
  pub flush_segment_entries-IsIn :
      (k : RejectMapEntry) (m : SegmentRejectMap) (g : GlobalRejectMap)
      → oid_is_valid k.targetoid ≡ false
      → length g.map + length m ≤ max_size
      → max_size < two31
      → IsIn k m
      → find k (flush_segment_entries env m g).map ≢ none
  unfolding flush_segment_entries find
  flush_segment_entries-IsIn k [] g file room small i = elim (i refl) [ ]
  flush_segment_entries-IsIn k ((j, r) ∷ m) g file room small i = elim (Bool-cases (j == k)) [
    | inl h ↦
        let p : j ≡ k = (reject_entry_eq_iff j k).0 h in
        let f : oid_is_valid j.targetoid ≡ false = ground (arith, p, file) in
        rw (f, flush_segment_entries)
          (flush_segment_entries-grows k m (after j r g) (
            subst (λ x. find x (after j r g).map ≢ none) p
              (find-added_to_own env.clock max_size r j g (omega arith) small)))
    | inr h ↦
        let rest : IsIn k m = λ p. i (ground (arith, h, p)) in
        elim (Bool-cases (oid_is_valid j.targetoid)) [
          | inl s ↦
              rw (s, flush_segment_entries)
                (flush_segment_entries-IsIn k m g file (omega arith) small rest)
          | inr f ↦
              rw (f, flush_segment_entries)
                (flush_segment_entries-IsIn k m (after j r g) file
                  (omega (arith, length-added_to env.clock max_size r j g)) small rest)
        ]
  ]

  -- Entries with a target stay what they were.
  pub flush_segment_entries_soft :
      (k : RejectMapEntry) (m : SegmentRejectMap) (g : GlobalRejectMap)
      → oid_is_valid k.targetoid ≡ true
      → find k (flush_segment_entries env m g).map ≡ find k g.map
  unfolding flush_segment_entries
  flush_segment_entries_soft k [] g soft = refl
  flush_segment_entries_soft k ((j, r) ∷ m) g soft = elim (Bool-cases (oid_is_valid j.targetoid)) [
    | inl s ↦ rw (s, flush_segment_entries) (flush_segment_entries_soft k m g soft)
    | inr f ↦
        let other : (j == k) ≡ false = ground (arith, f, soft, reject_entry_eq_iff j k) in
        rw (f, flush_segment_entries)
          (flush_segment_entries_soft k m (after j r g) soft
            ∙ find-added_to_other env.clock max_size r j g k other)
  ]
