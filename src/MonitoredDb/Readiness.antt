-- ===== src/MonitoredDb/Readiness.antt =====
-- do_check_diskquota_state_is_ready and check_diskquota_state_is_ready of src/quotamodel.c: whether
-- the database's table diskquota.state says that its sizes have been initialised.
use diskquota.Prelude.{
  [], ◌∷◌, none, some, true, false, refl, inl, inr, Bool-cases, Option-cases, ◌⊎◌, arith, nat_eq,
  length, List, ℕ, Option, Bool, ◌≡◌, eqb, if◌then◌else◌, ◌≢◌, ◌||◌,
}
use diskquota.Htab.{find, put}
use diskquota.Catalog.{Oid}
use diskquota.MonitoredDb.{
  MonitoredDbidCache, diskquota_is_readiness_logged, diskquota_set_readiness_logged,
}

-- The session's database, and the rows of its table diskquota.state.
pub record Site : Type 0 where
  pub my_database_id : Oid
  pub state : List (Option ℕ)

-- An error on a table of states that does not hold one row, the end of the process on a write
-- through a null pointer, or a result, with the cache of monitored databases.
pub data Checked (A : Type 0) : Type 0 where
  state_corrupted null_pointer : Checked A
  checked : A → MonitoredDbidCache → Checked A

-- DISKQUOTA_READY_STATE
abbrev pub diskquota_ready_state : ℕ
diskquota_ready_state = 1

abbrev pub is_ready_state : Option ℕ → Bool
is_ready_state none = false
is_ready_state (some n) = eqb n diskquota_ready_state

-- A state that is not ready is no error: it is logged once.
unfoldable pub do_check_diskquota_state_is_ready : Site → MonitoredDbidCache → Checked Bool
do_check_diskquota_state_is_ready site m = elim site.state [
  | [] ↦ state_corrupted
  | ◌∷◌ state more ↦ elim more [
    | ◌∷◌ second others ↦ state_corrupted
    | [] ↦
        if is_ready_state state || diskquota_is_readiness_logged site.my_database_id m
        then checked (is_ready_state state) m
        else elim (diskquota_set_readiness_logged site.my_database_id m) [
          | none ↦ null_pointer
          | some m' ↦ checked false m'
        ]
  ]
]

-- An error is caught and counts as not ready; none is the end of the process.
unfoldable pub check_diskquota_state_is_ready :
    Site → MonitoredDbidCache → Option (Bool × MonitoredDbidCache)
unfolding do_check_diskquota_state_is_ready
check_diskquota_state_is_ready site m = elim (do_check_diskquota_state_is_ready site m) [
  | state_corrupted ↦ some (false, m)
  | null_pointer ↦ none
  | checked is_ready m' ↦ some (is_ready, m')
]

ready_state-cases :
    (id : Oid) (state : Option ℕ) (cache : MonitoredDbidCache)
    → ((do_check_diskquota_state_is_ready (record { my_database_id = id; state = state ∷ [] }) cache
          ≡ null_pointer)
        × (state ≢ some 1)
        × (find id cache ≡ none))
      ⊎ ((b : Bool) × (cache' : MonitoredDbidCache) × (do_check_diskquota_state_is_ready
              (record { my_database_id = id; state = state ∷ [] })
              cache
            ≡ checked b cache'))
unfolding do_check_diskquota_state_is_ready diskquota_is_readiness_logged
    diskquota_set_readiness_logged
ready_state-cases id state cache = elim (Bool-cases (is_ready_state state)) [
  | inl ready ↦ inr (true, cache, ground (arith, ready))
  | inr other ↦ elim (Option-cases (find id cache)) [
    | inl h ↦ inl (ground (arith, other, h), λ p. ground (arith, p, other), h)
    | inr (e, h) ↦ elim (Bool-cases e.is_readiness_logged) [
      | inl logged ↦ inr (false, cache, ground (arith, other, h, logged))
      | inr new ↦ inr (
        false,
        put id (record e { is_readiness_logged = true }) cache,
        ground (arith, other, h, new),
      )
    ]
  ]
]

states-cases :
    (id : Oid) (states : List (Option ℕ)) (cache : MonitoredDbidCache)
    → ((do_check_diskquota_state_is_ready (record { my_database_id = id; state = states }) cache
          ≡ state_corrupted)
        × (length states ≢ 1))
      ⊎ ((do_check_diskquota_state_is_ready (record { my_database_id = id; state = states }) cache
            ≡ null_pointer)
          × (states ≢ some 1 ∷ [])
          × (find id cache ≡ none))
      ⊎ ((b : Bool) × (cache' : MonitoredDbidCache) × (do_check_diskquota_state_is_ready
              (record { my_database_id = id; state = states })
              cache
            ≡ checked b cache')
          × (length states ≡ 1))
unfolding do_check_diskquota_state_is_ready
states-cases id [] cache = inl (refl, λ p. omega (arith, p))
states-cases id (a ∷ b ∷ rest) cache = inl (refl, λ p. omega (arith, p))
states-cases id (a ∷ []) cache = elim (ready_state-cases id a cache) [
  | inl (h, n, u) ↦ inr (inl (h, λ p. n (ground (arith, p)), u))
  | inr (b, cache', h) ↦ inr (inr (b, cache', h, omega arith))
]

pub ready-cases :
    (site : Site) (cache : MonitoredDbidCache)
    → ((do_check_diskquota_state_is_ready site cache ≡ state_corrupted) × (length site.state ≢ 1))
      ⊎ ((do_check_diskquota_state_is_ready site cache ≡ null_pointer)
          × (site.state ≢ some 1 ∷ [])
          × (find site.my_database_id cache ≡ none))
      ⊎ ((b : Bool) × (cache' : MonitoredDbidCache) × (do_check_diskquota_state_is_ready site cache
            ≡ checked b cache')
          × (length site.state ≡ 1))
unfolding do_check_diskquota_state_is_ready
ready-cases site cache = states-cases site.my_database_id site.state cache
