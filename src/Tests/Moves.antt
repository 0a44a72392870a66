-- ===== src/Tests/Moves.antt =====
-- Concrete inputs for the pass over the relations: the table 50 has 4096 bytes on the segment 1 and
-- moves from no owner to the schema 2200; the table 60 has 8192 bytes and has been dropped.
use diskquota.Htab.{update_all, entries, find, put}
use diskquota.Prelude.{[], ◌∷◌, refl, false, ◌≡◌, arith, ◌%◌}
use diskquota.Tests.{env, no_tables, no_quotas, no-Accounts, schema_key, schema_live}
use diskquota.TableSize.{
  get_table_exist, reset_flush_flag, set_table_exist, reset_table_exist, get_flush_flag,
  set_flush_flag, set_flush_flags, table_key_eq, new_table_size_entry, get_table_size_map_entry,
  set_size, get_size, table_key_has_eq, TableSizeMap,
}
use diskquota.QuotaInfo.{update_size_for_quota, QuotaInfoMap, transfer_table_for_quota}
use diskquota.SharedTable.{write, search_or_add}
use diskquota.Usage.Active.{calculate_active_table_disk_usage-Accounts}
use diskquota.Usage.Present.{IsSpacious}
use diskquota.Usage.Present.Charges.{moved_charge, present_charge}
use diskquota.Usage.Present.Sized.{
  track_relations-moved_charge, track_namespace_owner_tablespace_changes-present_charge,
}
use diskquota.Usage.{
  calculate_active_table_disk_usage, track_namespace_owner_tablespace_changes, update_owner_quotas,
  track_relations, track_segments, relation_owners, transfer_owners, release_removed,
  release_segments,
}
use diskquota.Usage.Invariant.{Accounts}
use diskquota.QuotaInfo.Sizes.{size_of, IsRoomy}
use diskquota.Htab.Laws.{sum}
use diskquota.Fullness.{check_hash_fullness_num}
use diskquota.Words.{two64, inc32, slt32, add64, sub64, neg64}
use diskquota.QuotaType.{quota_key_eq}
use diskquota.Htab.Keys.{IsDistinct}

abbrev one : TableSizeMap × QuotaInfoMap
one = calculate_active_table_disk_usage env (λ o. 0) 50 4096 1 (no_tables, no_quotas)

abbrev two : TableSizeMap × QuotaInfoMap
two = calculate_active_table_disk_usage env (λ o. 0) 60 8192 1 one

room_one : IsRoomy env one.1
unfolding calculate_active_table_disk_usage update_owner_quotas update_size_for_quota search_or_add
    write check_hash_fullness_num find put inc32 slt32 add64 sub64 neg64 get_size set_size
    set_flush_flag get_flush_flag set_flush_flags new_table_size_entry get_table_size_map_entry
    table_key_eq quota_key_eq track_relations track_segments relation_owners set_table_exist
    reset_table_exist get_table_exist reset_flush_flag transfer_owners transfer_table_for_quota
    update_all entries release_removed release_segments track_namespace_owner_tablespace_changes
room_one = refl

room_two : IsRoomy env two.1
unfolding calculate_active_table_disk_usage update_owner_quotas update_size_for_quota search_or_add
    write check_hash_fullness_num find put inc32 slt32 add64 sub64 neg64 get_size set_size
    set_flush_flag get_flush_flag set_flush_flags new_table_size_entry get_table_size_map_entry
    table_key_eq quota_key_eq track_relations track_segments relation_owners set_table_exist
    reset_table_exist get_table_exist reset_flush_flag transfer_owners transfer_table_for_quota
    update_all entries release_removed release_segments track_namespace_owner_tablespace_changes
room_two = refl

two-Accounts : Accounts env two.0 two.1
two-Accounts =
    calculate_active_table_disk_usage-Accounts env (λ o. 0) 60 8192 1 one.0 one.1 (omega arith)
      (calculate_active_table_disk_usage-Accounts env (λ o. 0) 50 4096 1 no_tables no_quotas
        (omega arith) no-Accounts room_one)
      room_two

two-IsDistinct : IsDistinct two.0.map
unfolding calculate_active_table_disk_usage update_owner_quotas update_size_for_quota search_or_add
    write check_hash_fullness_num find put inc32 slt32 add64 sub64 neg64 get_size set_size
    set_flush_flag get_flush_flag set_flush_flags new_table_size_entry get_table_size_map_entry
    table_key_eq quota_key_eq track_relations track_segments relation_owners set_table_exist
    reset_table_exist get_table_exist reset_flush_flag transfer_owners transfer_table_for_quota
    update_all entries release_removed release_segments track_namespace_owner_tablespace_changes
two-IsDistinct = (refl, (refl, tt))

room_moved : IsRoomy env (track_relations env false [] (50 ∷ []) two).1
unfolding calculate_active_table_disk_usage update_owner_quotas update_size_for_quota search_or_add
    write check_hash_fullness_num find put inc32 slt32 add64 sub64 neg64 get_size set_size
    set_flush_flag get_flush_flag set_flush_flags new_table_size_entry get_table_size_map_entry
    table_key_eq quota_key_eq track_relations track_segments relation_owners set_table_exist
    reset_table_exist get_table_exist reset_flush_flag transfer_owners transfer_table_for_quota
    update_all entries release_removed release_segments track_namespace_owner_tablespace_changes
room_moved = refl

space_moved : IsSpacious env (track_relations env false [] (50 ∷ []) two).0
unfolding calculate_active_table_disk_usage update_owner_quotas update_size_for_quota search_or_add
    write check_hash_fullness_num find put inc32 slt32 add64 sub64 neg64 get_size set_size
    set_flush_flag get_flush_flag set_flush_flags new_table_size_entry get_table_size_map_entry
    table_key_eq quota_key_eq track_relations track_segments relation_owners set_table_exist
    reset_table_exist get_table_exist reset_flush_flag transfer_owners transfer_table_for_quota
    update_all entries release_removed release_segments track_namespace_owner_tablespace_changes
space_moved = refl

track_relations-moved_charge_example :
    size_of (track_relations env false [] (50 ∷ []) two).1 schema_key
    ≡ sum
        (moved_charge env [] (50 ∷ []) schema_key)
        (track_relations env false [] (50 ∷ []) two).0.map
      % two64
track_relations-moved_charge_example =
    track_relations-moved_charge env false [] (50 ∷ []) two.0 two.1 schema_key schema_live
      two-Accounts two-IsDistinct room_moved space_moved

-- What the schema has after the pass.
abbrev tracked : TableSizeMap × QuotaInfoMap
tracked = track_namespace_owner_tablespace_changes env false [] (50 ∷ []) two

room_tracked : IsRoomy env tracked.1
unfolding calculate_active_table_disk_usage update_owner_quotas update_size_for_quota search_or_add
    write check_hash_fullness_num find put inc32 slt32 add64 sub64 neg64 get_size set_size
    set_flush_flag get_flush_flag set_flush_flags new_table_size_entry get_table_size_map_entry
    table_key_eq quota_key_eq track_relations track_segments relation_owners set_table_exist
    reset_table_exist get_table_exist reset_flush_flag transfer_owners transfer_table_for_quota
    update_all entries release_removed release_segments track_namespace_owner_tablespace_changes
room_tracked = refl

space_tracked : IsSpacious env tracked.0
unfolding calculate_active_table_disk_usage update_owner_quotas update_size_for_quota search_or_add
    write check_hash_fullness_num find put inc32 slt32 add64 sub64 neg64 get_size set_size
    set_flush_flag get_flush_flag set_flush_flags new_table_size_entry get_table_size_map_entry
    table_key_eq quota_key_eq track_relations track_segments relation_owners set_table_exist
    reset_table_exist get_table_exist reset_flush_flag transfer_owners transfer_table_for_quota
    update_all entries release_removed release_segments track_namespace_owner_tablespace_changes
space_tracked = refl

schema_size : size_of tracked.1 schema_key ≡ 4096
unfolding calculate_active_table_disk_usage update_owner_quotas update_size_for_quota search_or_add
    write check_hash_fullness_num find put inc32 slt32 add64 sub64 neg64 get_size set_size
    set_flush_flag get_flush_flag set_flush_flags new_table_size_entry get_table_size_map_entry
    table_key_eq quota_key_eq track_relations track_segments relation_owners set_table_exist
    reset_table_exist get_table_exist reset_flush_flag transfer_owners transfer_table_for_quota
    update_all entries release_removed release_segments track_namespace_owner_tablespace_changes
schema_size = refl

track_namespace_owner_tablespace_changes-present_charge_example :
    size_of tracked.1 schema_key
    ≡ sum (present_charge env [] (50 ∷ []) schema_key) tracked.0.map % two64
track_namespace_owner_tablespace_changes-present_charge_example =
    track_namespace_owner_tablespace_changes-present_charge env false [] (50 ∷ []) two.0 two.1
      schema_key schema_live two-Accounts two-IsDistinct room_tracked space_tracked
