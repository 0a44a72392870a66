-- ===== src/Fullness.antt =====
-- check_hash_fullness_num and check_hash_fullness of src/diskquota_utility.c: whether a shared hash
-- table may still take an entry, and when a full one is reported in the log.
use diskquota.Prelude.{ℕ, ◌*◌, Bool, true, false, eqb, ◌||◌, if◌then◌else◌, ◌≡◌, length, arith}
use diskquota.Words.{slt32}
use diskquota.Htab.{Htab}

pub data HashAction : Type 0 where
  hash_find hash_enter : HashAction

-- What the report of an overflow reads: the current time, the GUC
-- diskquota.hashmap_overflow_report_timeout in seconds, and PostgreSQL's TimestampDifferenceExceeds.
pub record Clock : Type 0 where
  pub now : ℕ
  pub overflow_report_timeout : ℕ
  pub timestamp_difference_exceeds : ℕ → ℕ → ℕ → Bool

-- The returned action, `*last_overflow_report` afterwards, and whether the warning was logged.
pub record Fullness : Type 0 where
  pub action : HashAction
  pub last_overflow_report : ℕ
  pub warned : Bool

unfoldable pub check_hash_fullness_num : Clock → ℕ → ℕ → ℕ → Fullness
check_hash_fullness_num c num_entries max_size last =
    if slt32 num_entries max_size
    then record { action = hash_enter; last_overflow_report = last; warned = false }
    else if eqb num_entries max_size
    then (if eqb last 0
          || c.timestamp_difference_exceeds last c.now (c.overflow_report_timeout * 1000)
        then record { action = hash_find; last_overflow_report = c.now; warned = true }
        else record { action = hash_find; last_overflow_report = last; warned = false })
    else record { action = hash_find; last_overflow_report = last; warned = false }

-- hash_get_num_entries is the number of entries.
unfoldable pub check_hash_fullness {ℓ} : {K V : Type ℓ} → Clock → Htab K V → ℕ → ℕ → Fullness
unfolding check_hash_fullness_num
check_hash_fullness c m max_size last = check_hash_fullness_num c (length m) max_size last

-- A full table answers "find", and a table with room "enter" with nothing reported.
pub check_hash_fullness_num-action :
    (c : Clock) (n max_size last : ℕ)
    → (check_hash_fullness_num c n max_size last).action
      ≡ (if slt32 n max_size then hash_enter else hash_find)
unfolding check_hash_fullness_num
check_hash_fullness_num-action c n max_size last = ground arith
