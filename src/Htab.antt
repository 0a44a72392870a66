-- ===== src/Htab.antt =====
-- The hash tables (HTAB) in which every file of src/ keeps its state, as association lists that
-- hold each key once. The list's order is the order in which hash_seq_search visits the entries.
pub mod Laws
pub mod Keys
use diskquota.Prelude.{
  List, [], ◌∷◌, Option, none, some, if◌then◌else◌, KeyEq, ◌==◌, Bool, false, true,
}

abbrev pub Htab {ℓ} : Type ℓ → Type ℓ → Type ℓ
Htab K V = List (K × V)

module _ {ℓ} {K V : Type ℓ} ⦃e : KeyEq K⦄ where
  -- hash_search with HASH_FIND
  unfoldable pub find : K → Htab K V → Option V
  find k [] = none
  find k ((j, v) ∷ m) = if j == k then some v else find k m

  -- a write through the pointer that hash_search returned, or to a new entry of HASH_ENTER
  unfoldable pub put : K → V → Htab K V → Htab K V
  put k v [] = (k, v) ∷ []
  put k v ((j, w) ∷ m) = if j == k then (k, v) ∷ m else (j, w) ∷ put k v m

  -- hash_search with HASH_REMOVE
  unfoldable pub remove : K → Htab K V → Htab K V
  remove k [] = []
  remove k ((j, w) ∷ m) = if j == k then remove k m else (j, w) ∷ remove k m

-- the entries, in the order of hash_seq_search
unfoldable pub entries {ℓ} : {K V : Type ℓ} → Htab K V → List V
entries [] = []
entries ((k, v) ∷ m) = v ∷ entries m

-- a pass of hash_seq_search that changes each entry in place
unfoldable pub update_all {ℓ} : {K V : Type ℓ} → (V → V) → Htab K V → Htab K V
update_all f [] = []
update_all f ((k, v) ∷ m) = (k, f v) ∷ update_all f m

-- a pass of hash_seq_search that removes the entries for which the test holds
unfoldable pub remove_if {ℓ} : {K V : Type ℓ} → (K → V → Bool) → Htab K V → Htab K V
remove_if f [] = []
remove_if f ((k, v) ∷ m) = if f k v then remove_if f m else (k, v) ∷ remove_if f m
