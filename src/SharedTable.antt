-- ===== src/SharedTable.antt =====
-- A table in shared memory that takes new entries only while it is not full: the idiom
-- "check_hash_fullness, then hash_search with the action, then initialise a new entry" that
-- quotamodel.c, gp_activetable.c and relation_cache.c share.
pub mod Laws
pub mod Bounds
pub mod Added
use diskquota.Prelude.{ℕ, Option, none, some, Bool, true, false, KeyEq, ◌≡◌, length}
use diskquota.Words.{inc32, slt32}
use diskquota.Htab.{Htab, find, put}
use diskquota.Fullness.{
  Clock, Fullness, HashAction, hash_find, hash_enter, check_hash_fullness_num, check_hash_fullness,
}

-- `entry_num` is the counter that all workers share (pg_atomic_uint32).
pub record Counted {ℓ} (K V : Type ℓ) : Type ℓ where
  pub map : Htab K V
  pub entry_num : ℕ
  pub last_overflow_report : ℕ

-- A table whose own number of entries is checked.
pub record Bounded {ℓ} (K V : Type ℓ) : Type ℓ where
  pub map : Htab K V
  pub last_overflow_report : ℕ

module _ {ℓ} {K V : Type ℓ} ⦃e : KeyEq K⦄ where
  -- The entry is none where the table is full and the key is not in it.
  unfoldable pub search_or_add : Clock → ℕ → V → K → Counted K V → Option V × Counted K V
  search_or_add c max_size fresh k t =
      let f = check_hash_fullness_num c t.entry_num max_size t.last_overflow_report in
      elim (find k t.map) [
        | some v ↦ (some v, record t { last_overflow_report = f.last_overflow_report })
        | none ↦ elim f.action [
          | hash_find ↦ (none, record t { last_overflow_report = f.last_overflow_report })
          | hash_enter ↦ (
            some fresh,
            record {
              map = put k fresh t.map;
              entry_num = inc32 t.entry_num;
              last_overflow_report = f.last_overflow_report;
            },
          )
        ]
      ]

  -- a write through the entry's pointer
  unfoldable pub write : K → V → Counted K V → Counted K V
  write k v t = record t { map = put k v t.map }

  unfoldable pub search_or_add_bounded : Clock → ℕ → V → K → Bounded K V → Option V × Bounded K V
  search_or_add_bounded c max_size fresh k t =
      let f = check_hash_fullness c t.map max_size t.last_overflow_report in
      elim (find k t.map) [
        | some v ↦ (some v, record t { last_overflow_report = f.last_overflow_report })
        | none ↦ elim f.action [
          | hash_find ↦ (none, record t { last_overflow_report = f.last_overflow_report })
          | hash_enter ↦ (
            some fresh,
            record { map = put k fresh t.map; last_overflow_report = f.last_overflow_report },
          )
        ]
      ]

  unfoldable pub write_bounded : K → V → Bounded K V → Bounded K V
  write_bounded k v t = record t { map = put k v t.map }

-- The table may still take an entry.
abbrev pub HasRoom {ℓ} : {K V : Type ℓ} → ℕ → Counted K V → Type 0
HasRoom max_size t = slt32 t.entry_num max_size ≡ true
