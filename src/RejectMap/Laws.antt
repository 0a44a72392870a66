-- ===== src/RejectMap/Laws.antt =====
-- What the checks answer, and what a flush of the local reject map leaves in the global one.
use diskquota.Prelude.{
  none, some, ℕ, [], ◌∷◌, inl, inr, Option, ◌≡◌, false, ◌==◌, length, true, ◌<◌, ◌≤◌, Bool-cases,
  ◌+◌, arith, Bool, refl, if◌then◌else◌, subst, Option-cases, ap,
}
use diskquota.RejectMap.{
  prepare_rejectmap_search_key, Flushing, flush_local_entry, new_global_entry, flush_local_entries,
  flush_local_reject_map, GlobalRejectMap,
}
use diskquota.RejectEntry.{
  LocalRejectMapEntry, RejectMapEntry, GlobalRejectMapEntry, reject_entry_has_eq,
  reject_entry_eq_iff,
}
use diskquota.Catalog.{Env, SegId}
use diskquota.QuotaType.{quota_key_eq, QuotaInfoEntryKey}
use diskquota.Usage.{Owners}
use diskquota.Htab.{Htab, find, put}
use diskquota.SharedTable.Bounds.{
  BoundedSearch, search_or_add_bounded-BoundedSearch, found, added, refused,
}
use diskquota.SharedTable.{write_bounded, search_or_add_bounded}
use diskquota.Usage.Invariant.{is_charged}
use diskquota.QuotaInfo.{quota_reject_key, reject_tablespace, LocalRejectMap}
use diskquota.Words.{two31, slt32-ltb}
use diskquota.Htab.Laws.{find-remove, find-put, length-put_found, length-put_new, ==_refl}
use diskquota.Htab.Keys.{length-remove, IsDistinct}

-- For owners that a quota is charged for, the key that their relation is looked up under is the one
-- that the exceeded quota was entered under.
pub prepare_rejectmap_search_key-is_charged :
    (env : Env) (k : QuotaInfoEntryKey) (o : Owners) (s : SegId)
    → is_charged k o s ≡ true
    → prepare_rejectmap_search_key env k.type o.owneroid o.namespaceoid o.tablespaceoid
      ≡ quota_reject_key env k.type k.key0 (reject_tablespace k)
unfolding prepare_rejectmap_search_key quota_key_eq
prepare_rejectmap_search_key-is_charged env k o s h = ground arith

-- What the global map says of a quota: whether it is there, and with which mark.
abbrev pub mark : Option GlobalRejectMapEntry → Option Bool
mark none = none
mark (some r) = some r.segexceeded

-- What a local entry asks for: its mark for an exceeded quota, nothing for another.
abbrev pub wanted : LocalRejectMapEntry → Option Bool
wanted l = if l.isexceeded then some l.segexceeded else none

module _ (env : Env) (j : RejectMapEntry) (l : LocalRejectMapEntry) (s : Flushing) where
  abbrev max_size : ℕ
  max_size = env.max_disk_quota_reject_entries

  abbrev after : Htab RejectMapEntry GlobalRejectMapEntry
  after = (flush_local_entry env j l s).global.map

  searched :
      BoundedSearch env.clock max_size
        (new_global_entry j l)
        j
        s.global
        (search_or_add_bounded env.clock max_size (new_global_entry j l) j s.global)
  searched =
      search_or_add_bounded-BoundedSearch env.clock max_size (new_global_entry j l) j s.global

  find-flush_other : (k : RejectMapEntry) → (j == k) ≡ false → find k after ≡ find k s.global.map
  unfolding flush_local_entry write_bounded
  find-flush_other k h = elim (Bool-cases l.isexceeded) [
    | inr off ↦ ground (arith, off, find-remove j k s.global.map)
    | inl on ↦ elim searched [
      | found v f r m ↦
          ground (
            arith,
            on,
            f,
            r,
            m,
            find-put j k (record v { segexceeded = l.segexceeded }) s.global.map,
          )
      | added f room r m ↦ ground (
        arith,
        on,
        f,
        r,
        m,
        find-put j k (new_global_entry j l) (put j (new_global_entry j l) s.global.map),
        find-put j k (new_global_entry j l) s.global.map,
      )
      | refused f room r m ↦ ground (arith, on, f, r, m)
    ]
  ]

  find-flush_own :
      length s.global.map < max_size → max_size < two31 → mark (find j after) ≡ wanted l
  unfolding flush_local_entry write_bounded
  find-flush_own room small = elim (Bool-cases l.isexceeded) [
    | inr off ↦ ground (arith, off, find-remove j j s.global.map, ==_refl j)
    | inl on ↦ elim searched [
      | found v f r m ↦ ground (
        arith,
        on,
        f,
        r,
        m,
        ==_refl j,
        find-put j j (record v { segexceeded = l.segexceeded }) s.global.map,
      )
      | added f room r m ↦ ground (
        arith,
        on,
        f,
        r,
        m,
        ==_refl j,
        find-put j j (new_global_entry j l) (put j (new_global_entry j l) s.global.map),
      )
      | refused f full r m ↦
          ground (arith, full, slt32-ltb (length s.global.map) max_size, room, small)
    ]
  ]

  length-flush : length after ≤ length s.global.map + 1
  unfolding flush_local_entry write_bounded
  length-flush = elim (Bool-cases l.isexceeded) [
    | inr off ↦ ground (arith, off, length-remove j s.global.map)
    | inl on ↦ elim searched [
      | found v f r m ↦ ground (
        arith,
        on,
        f,
        r,
        m,
        length-put_found j (record v { segexceeded = l.segexceeded }) v s.global.map f,
      )
      | added f room r m ↦ ground (
        arith,
        on,
        f,
        r,
        m,
        length-put_new j (new_global_entry j l) s.global.map f,
        length-put_found j (new_global_entry j l) (new_global_entry j l)
            (put j (new_global_entry j l) s.global.map),
        find-put j j (new_global_entry j l) s.global.map,
        ==_refl j,
      )
      | refused f room r m ↦ ground (arith, on, f, r, m)
    ]
  ]

-- A key that is not in the rest of the local map keeps what the global map says of it.
find-flush_entries :
    (env : Env) (k : RejectMapEntry) (m : Htab RejectMapEntry LocalRejectMapEntry) (s : Flushing)
    → find k m ≡ none
    → find k (flush_local_entries env m s).global.map ≡ find k s.global.map
unfolding flush_local_entries find
find-flush_entries env k [] s h = refl
find-flush_entries env k ((j, l) ∷ m) s h =
    ground (
      arith,
      find-flush_entries env k m (flush_local_entry env j l s),
      find-flush_other env j l s k,
    )

mark-flush_entries :
    (env : Env) (k : RejectMapEntry) (l : LocalRejectMapEntry)
    (m : Htab RejectMapEntry LocalRejectMapEntry) (s : Flushing)
    → IsDistinct m
    → length s.global.map + length m ≤ env.max_disk_quota_reject_entries
    → env.max_disk_quota_reject_entries < two31
    → find k m ≡ some l
    → mark (find k (flush_local_entries env m s).global.map) ≡ wanted l
unfolding flush_local_entries find
mark-flush_entries env k l [] s d room small h = ground arith
mark-flush_entries env k l ((j, x) ∷ m) s d room small h = elim (Bool-cases (j == k)) [
  | inl same ↦
      let p : j ≡ k = (reject_entry_eq_iff j k).0 same in
      let q : x ≡ l = ground arith in
      rw
        (find-flush_entries env k m (flush_local_entry env j x s)
          (subst (λ y. find y m ≡ none) p d.0))
        (rw (← p, ← q) (find-flush_own env j x s (omega arith) small))
  | inr other ↦
      let b = length-flush env j x s in
      mark-flush_entries env k l m (flush_local_entry env j x s) d.1 (omega arith) small
        (ground arith)
]

-- While the global map has room for all local entries, a flush makes it say of each quota in the
-- local map exactly what the last refresh found: blocked with its mark, or not blocked. Of a key
-- that is not in the local map it says what it said before.
pub mark-flush_local_reject_map :
    (env : Env) (g : GlobalRejectMap) (m : LocalRejectMap) (k : RejectMapEntry)
    → IsDistinct m.map
    → length g.map + length m.map ≤ env.max_disk_quota_reject_entries
    → env.max_disk_quota_reject_entries < two31
    → mark (find k (flush_local_reject_map env g m).global.map)
      ≡ elim (find k m.map) [ none ↦ mark (find k g.map) | some l ↦ wanted l ]
unfolding flush_local_reject_map
mark-flush_local_reject_map env g m k d room small = elim (Option-cases (find k m.map)) [
  | inl h ↦ rw h (
      ap mark
        (find-flush_entries env k m.map (record { global = g; local = m.map; changed = false }) h))
  | inr (l, h) ↦ rw h (
      mark-flush_entries env k l m.map (record { global = g; local = m.map; changed = false }) d
        room small h)
]
