-- ===== src/Usage/Present/Sized.antt =====
-- The sizes of the quotas after track_namespace_owner_tablespace_changes, by the present owners.
use diskquota.Htab.{entries, find, update_all, Htab}
use diskquota.Prelude.{
  [], ◌∷◌, ◌≡◌, arith, inl, inr, ◌∙◌, ap, ◌%◌, Option-cases, Bool, subst, List, false, sym,
}
use diskquota.TableSize.{
  table_key_has_eq, TableSizeMap, reset_table_exist, get_table_exist, TableSizeEntryKey,
  TableSizeEntry,
}
use diskquota.Htab.Laws.{sum, find-update_all, find-update_all-none}
use diskquota.Usage.Present.{IsSpacious}
use diskquota.Catalog.{Env, Oid}
use diskquota.Usage.{track_namespace_owner_tablespace_changes, track_relations}
use diskquota.Usage.Present.Charges.{
  IsUnmarked, moved_charge, present_charge, usage-moved, shown-sum,
}
use diskquota.RelationCache.{RelationCacheEntry}
use diskquota.Htab.Keys.{IsDistinct}
use diskquota.QuotaInfo.{QuotaInfoMap}
use diskquota.QuotaType.{QuotaInfoEntryKey}
use diskquota.Usage.Invariant.{IsLive, Accounts}
use diskquota.QuotaInfo.Sizes.{IsRoomy, size_of}
use diskquota.Words.{two64}
use diskquota.Usage.Relations.{track_relations-Accounts}
use diskquota.Usage.Release.{
  unset-IsKeyed, release_removed-IsRoomy, unset-Accounts,
  track_namespace_owner_tablespace_changes-sized,
}

-- After the loop over the relations each live quota's size is still the sum of the sizes of the
-- tables that it owns, where a relation that the loop goes over is owned by what pg_class says, or
-- the cache of uncommitted relations, and another by what its entry records, if the accounts held
-- before, each key stood once, and neither map ran full.
pub track_relations-moved_charge :
    (env : Env) (is_init : Bool) (cache : Htab Oid RelationCacheEntry) (oids : List Oid)
    (t : TableSizeMap) (q : QuotaInfoMap) (k : QuotaInfoEntryKey)
    → IsLive env k
    → Accounts env t q
    → IsDistinct t.map
    → IsRoomy env (track_relations env is_init cache oids (t, q)).1
    → IsSpacious env (track_relations env is_init cache oids (t, q)).0
    → size_of (track_relations env is_init cache oids (t, q)).1 k
      ≡ sum (moved_charge env cache oids k) (track_relations env is_init cache oids (t, q)).0.map
        % two64
track_relations-moved_charge env is_init cache oids t q k live acc distinct room space =
    let after = track_relations-Accounts env is_init cache oids t q acc room in
    after.sized k live
    ∙ ap (λ x. x % two64)
        (usage-moved env is_init cache oids t q k live.1 acc.keyed distinct space after.keyed)

abbrev unset : TableSizeMap → TableSizeMap
unset t = record t { map = update_all reset_table_exist t.map }

unset-IsUnmarked : (t : TableSizeMap) → IsUnmarked (unset t)
unfolding reset_table_exist get_table_exist
unset-IsUnmarked t j e h = elim (Option-cases (find j t.map)) [
  | inl n ↦ cc (find-update_all-none reset_table_exist j t.map n)
  | inr (x, f) ↦
      let p : e ≡ reset_table_exist x =
        ground (arith, h, find-update_all reset_table_exist j t.map x f) in
      subst (λ y. get_table_exist y ≡ false) (sym p) (ground arith)
]

update_all-IsDistinct :
    (m : Htab TableSizeEntryKey TableSizeEntry)
    → IsDistinct m
    → IsDistinct (update_all reset_table_exist m)
unfolding update_all
update_all-IsDistinct [] d = d
update_all-IsDistinct ((k, v) ∷ m) d =
    (find-update_all-none reset_table_exist k m d.0, update_all-IsDistinct m d.1)

-- After the whole pass of the worker each live quota's size is the sum of the sizes of the tables
-- that the pass has gone over and that the quota's objects own, by pg_class or the cache of
-- uncommitted relations; what the other tables used is given back. The accounts have to hold before
-- the pass, each key to stand once, and neither map to run full.
pub track_namespace_owner_tablespace_changes-present_charge :
    (env : Env) (is_init : Bool) (cache : Htab Oid RelationCacheEntry) (oids : List Oid)
    (t : TableSizeMap) (q : QuotaInfoMap) (k : QuotaInfoEntryKey)
    → IsLive env k
    → Accounts env t q
    → IsDistinct t.map
    → IsRoomy env (track_namespace_owner_tablespace_changes env is_init cache oids (t, q)).1
    → IsSpacious env (track_namespace_owner_tablespace_changes env is_init cache oids (t, q)).0
    → size_of (track_namespace_owner_tablespace_changes env is_init cache oids (t, q)).1 k
      ≡ sum
          (present_charge env cache oids k)
          (track_namespace_owner_tablespace_changes env is_init cache oids (t, q)).0.map
        % two64
unfolding track_namespace_owner_tablespace_changes
track_namespace_owner_tablespace_changes-present_charge env is_init cache oids t q k live acc
      distinct room space =
    let keyed = unset-IsKeyed t.map acc.keyed in
    let (t', q') = track_relations env is_init cache oids (unset t, q) in
    let room' = release_removed-IsRoomy env k live.1 (entries t'.map) q' room in
    let after =
      track_relations-Accounts env is_init cache oids (unset t) q (unset-Accounts env t q acc)
        room' in
    track_namespace_owner_tablespace_changes-sized env is_init cache oids t q k live acc room
    ∙ ap (λ x. x % two64)
        (shown-sum env is_init cache oids (unset t) q k live.1 keyed
          (update_all-IsDistinct t.map distinct) space after.keyed (unset-IsUnmarked t))
