-- ===== src/Worker/Sent.antt =====
-- What a segment receives of the reject map of the coordinator.
use diskquota.Prelude.{
  subst, [], ◌∷◌, refl, ◌==◌, ◌≡◌, arith, inl, inr, Bool-cases, All, none, some, Option-cases,
  if◌then◌else◌, List,
}
use diskquota.RejectMap.Laws.{mark}
use diskquota.Htab.{Htab, find}
use diskquota.Htab.Keys.{IsDistinct}
use diskquota.Htab.Laws.{find-put}
use diskquota.RejectEntry.{
  RejectMapEntry, GlobalRejectMapEntry, reject_entry_eq_iff, reject_entry_has_eq, no_reject_entry,
}
use diskquota.RejectMap.Segment.{Dispatched, add_dispatched, SegmentRejectMap, dispatched_key}
use diskquota.Worker.{dispatch_rejectmap, dispatched_rows, dispatched_row}
use diskquota.RejectMap.{GlobalRejectMap}
use diskquota.Catalog.{Oid}

-- Every entry of the coordinator stands under the key that its row makes on a segment: under the
-- quota's key, without a file.
abbrev pub IsSendable : Htab RejectMapEntry GlobalRejectMapEntry → Type 0
IsSendable m = All (λ p. dispatched_key (dispatched_row p.1) ≡ p.0) m

abbrev add_row : Dispatched → SegmentRejectMap → SegmentRejectMap
add_row d a = add_dispatched (some d ∷ []) a

mark-add_row :
    (k : RejectMapEntry) (d : Dispatched) (a : SegmentRejectMap)
    → mark (find k (add_row d a))
      ≡ (if dispatched_key d == k then some d.segexceeded else mark (find k a))
unfolding add_dispatched
mark-add_row k d a = elim (Option-cases (find (dispatched_key d) a)) [
  | inl h ↦ ground (
    arith,
    h,
    reject_entry_eq_iff (dispatched_key d) k,
    find-put (dispatched_key d) k
        (record {
          keyitem = dispatched_key d;
          segexceeded = d.segexceeded;
          auxblockinfo = no_reject_entry;
        })
        a,
  )
  | inr (r, h) ↦ ground (
    arith,
    h,
    reject_entry_eq_iff (dispatched_key d) k,
    find-put (dispatched_key d) k (record r { segexceeded = d.segexceeded }) a,
  )
]

-- The row of an entry that stands under `j`.
mark-add_entry :
    (k j : RejectMapEntry) (e : GlobalRejectMapEntry) (a : SegmentRejectMap)
    → dispatched_key (dispatched_row e) ≡ j
    → mark (find k (add_row (dispatched_row e) a))
      ≡ (if j == k then some e.segexceeded else mark (find k a))
mark-add_entry k j e a p =
    subst
      (λ i.
        mark (find k (add_row (dispatched_row e) a))
        ≡ (if i == k then some e.segexceeded else mark (find k a)))
      p (mark-add_row k (dispatched_row e) a)

mark-add_entries :
    (k : RejectMapEntry) (m : Htab RejectMapEntry GlobalRejectMapEntry) (a : SegmentRejectMap)
    → IsDistinct m
    → IsSendable m
    → mark (find k (add_dispatched (dispatched_rows m) a))
      ≡ elim (find k m) [ some e ↦ some e.segexceeded | none ↦ mark (find k a) ]
unfolding add_dispatched dispatched_rows find
mark-add_entries k [] a d s = refl
mark-add_entries k ((j, e) ∷ m) a d s =
    let rest = mark-add_entries k m (add_row (dispatched_row e) a) d.1 s.1 in
    let step = mark-add_entry k j e a s.0 in
    elim (Bool-cases (j == k)) [
      | inl own ↦
          let p : j ≡ k = (reject_entry_eq_iff j k).0 own in
          let fresh : find k m ≡ none = subst (λ x. find x m ≡ none) p d.0 in
          ground (arith, rest, step, fresh, own)
      | inr other ↦ ground (arith, rest, step, other)
    ]

-- If every entry of the coordinator's reject map stands once, under the key of its row, then a
-- segment that receives the map has, before it looks at its relations, an entry for exactly the
-- quotas that the coordinator's map has, each with the same mark for segments.
pub mark-dispatch_rejectmap :
    (g : GlobalRejectMap) (oids : List Oid) (k : RejectMapEntry)
    → IsDistinct g.map
    → IsSendable g.map
    → mark (find k (add_dispatched (dispatch_rejectmap g oids).0 [])) ≡ mark (find k g.map)
unfolding dispatch_rejectmap find
mark-dispatch_rejectmap g oids k d s = elim (Option-cases (find k g.map)) [
  | inl h ↦ ground (arith, h, mark-add_entries k g.map [] d s)
  | inr (e, h) ↦ ground (arith, h, mark-add_entries k g.map [] d s)
]
