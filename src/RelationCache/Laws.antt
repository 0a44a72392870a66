-- ===== src/RelationCache/Laws.antt =====
-- The two tables of the relation cache stay inverse to each other.
use diskquota.Prelude.{
  nat_eq, ℕ, none, some, ◌≡◌, ◌↔◌, inl, inr, true, arith, Option, if◌then◌else◌, Option-cases, eqb,
  eqb_iff, Bool-cases, subst, sym,
}
use diskquota.Catalog.{Oid, oid_is_valid}
use diskquota.RelationCache.{
  RelationCaches, remove_by_relid, remove_by_relfilenode, remove_cache_entry, RelationCacheEntry,
  RelidCacheEntry,
}
use diskquota.Htab.{find}
use diskquota.Htab.Laws.{find-remove}

abbrev pub node_at : Oid → RelationCaches → Option Oid
node_at relid c = elim (find relid c.relation_cache) [
  | none ↦ none
  | some e ↦ some e.rnode.rel_node
]

abbrev pub relid_at : Oid → RelationCaches → Option Oid
relid_at f c = elim (find f c.relid_cache) [ none ↦ none | some e ↦ some e.relid ]

-- relation_cache leads from a relation to a file exactly if relid_cache leads back.
abbrev pub IsInverse : RelationCaches → Type 0
IsInverse c = (r f : Oid) → (node_at r c ≡ some f) ↔ (relid_at f c ≡ some r)

-- Both parts of remove_cache_entry take out a pair of entries.
find-remove_by_relid :
    (relid r f : Oid) (c : RelationCaches) (e : RelationCacheEntry)
    → find relid c.relation_cache ≡ some e
    → (node_at r (remove_by_relid relid c) ≡ (if eqb relid r then none else node_at r c))
      × (relid_at f (remove_by_relid relid c)
          ≡ (if eqb e.rnode.rel_node f then none else relid_at f c))
unfolding remove_by_relid
find-remove_by_relid relid r f c e h = (
  ground (arith, h, find-remove relid r c.relation_cache),
  ground (arith, h, find-remove e.rnode.rel_node f c.relid_cache),
)

find-remove_by_relfilenode :
    (g r f : Oid) (c : RelationCaches) (e : RelidCacheEntry)
    → find g c.relid_cache ≡ some e
    → (node_at r (remove_by_relfilenode g c) ≡ (if eqb e.relid r then none else node_at r c))
      × (relid_at f (remove_by_relfilenode g c) ≡ (if eqb g f then none else relid_at f c))
unfolding remove_by_relfilenode
find-remove_by_relfilenode g r f c e h = (
  ground (arith, h, find-remove e.relid r c.relation_cache),
  ground (arith, h, find-remove g f c.relid_cache),
)

-- Two partial maps that are inverse stay so when a pair is taken out of both.
inverse_without :
    (a b r f : ℕ) (n n' : ℕ → Option ℕ) (m m' : ℕ → Option ℕ)
    → ((x y : ℕ) → (n x ≡ some y) ↔ (m y ≡ some x))
    → n a ≡ some b
    → n' r ≡ (if eqb a r then none else n r)
    → m' f ≡ (if eqb b f then none else m f)
    → (n' r ≡ some f) ↔ (m' f ≡ some r)
inverse_without a b r f n n' m m' inv h p q = ground (arith, h, p, q, inv r f, inv a f, inv r b)

remove_by_relid-IsInverse :
    (relid : Oid) (c : RelationCaches) → IsInverse c → IsInverse (remove_by_relid relid c)
unfolding remove_by_relid
remove_by_relid-IsInverse relid c inv r f = elim (Option-cases (find relid c.relation_cache)) [
  | inl h ↦
      let same : remove_by_relid relid c ≡ c = ground (arith, h) in
      subst (λ x. IsInverse x) (sym same) inv r f
  | inr (e, h) ↦
      let (p, q) = find-remove_by_relid relid r f c e h in
      inverse_without relid e.rnode.rel_node r f (λ x. node_at x c)
        (λ x. node_at x (remove_by_relid relid c)) (λ x. relid_at x c)
        (λ x. relid_at x (remove_by_relid relid c)) inv (ground (arith, h)) p q
]

remove_by_relfilenode-IsInverse :
    (g : Oid) (c : RelationCaches) → IsInverse c → IsInverse (remove_by_relfilenode g c)
unfolding remove_by_relfilenode
remove_by_relfilenode-IsInverse g c inv r f = elim (Option-cases (find g c.relid_cache)) [
  | inl h ↦
      let same : remove_by_relfilenode g c ≡ c = ground (arith, h) in
      subst (λ x. IsInverse x) (sym same) inv r f
  | inr (e, h) ↦
      let (p, q) = find-remove_by_relfilenode g r f c e h in
      inverse_without e.relid g r f (λ x. node_at x c) (λ x. node_at x (remove_by_relfilenode g c))
        (λ x. relid_at x c) (λ x. relid_at x (remove_by_relfilenode g c)) inv
        ((inv e.relid g).1 (ground (arith, h))) p q
]

node_at-remove_by_relid :
    (relid : Oid) (c : RelationCaches) → node_at relid (remove_by_relid relid c) ≡ none
unfolding remove_by_relid
node_at-remove_by_relid relid c = elim (Option-cases (find relid c.relation_cache)) [
  | inl h ↦ ground (arith, h)
  | inr (e, h) ↦ ground (arith, find-remove_by_relid relid relid relid c e h, eqb_iff relid relid)
]

relid_at-remove_by_relfilenode :
    (g : Oid) (c : RelationCaches) → relid_at g (remove_by_relfilenode g c) ≡ none
unfolding remove_by_relfilenode
relid_at-remove_by_relfilenode g c = elim (Option-cases (find g c.relid_cache)) [
  | inl h ↦ ground (arith, h)
  | inr (e, h) ↦ ground (arith, find-remove_by_relfilenode g g g c e h, eqb_iff g g)
]

node_at-remove_by_relfilenode :
    (g r : Oid) (c : RelationCaches)
    → node_at r c ≡ none
    → node_at r (remove_by_relfilenode g c) ≡ none
unfolding remove_by_relfilenode
node_at-remove_by_relfilenode g r c n = elim (Option-cases (find g c.relid_cache)) [
  | inl h ↦ ground (arith, h, n)
  | inr (e, h) ↦ ground (arith, n, find-remove_by_relfilenode g r g c e h)
]

-- If the two tables are inverse to each other they stay so when an entry is removed, by relation, by
-- file or by both, and then neither table leads from the relation or from the file that was named.
pub remove_cache_entry-IsInverse :
    (relid f : Oid) (c : RelationCaches)
    → IsInverse c
    → IsInverse (remove_cache_entry relid f c)
      × (oid_is_valid relid ≡ true → node_at relid (remove_cache_entry relid f c) ≡ none)
      × (oid_is_valid f ≡ true → relid_at f (remove_cache_entry relid f c) ≡ none)
unfolding remove_cache_entry
remove_cache_entry-IsInverse relid f c inv =
    let d = remove_by_relid relid c in
    let inv' = remove_by_relid-IsInverse relid c inv in
    let n = node_at-remove_by_relid relid c in
    elim (Bool-cases (oid_is_valid relid)) [
      | inl a ↦ elim (Bool-cases (oid_is_valid f)) [
        | inl b ↦
            rw (a, b)
              (
                remove_by_relfilenode-IsInverse f d inv',
                λ _. node_at-remove_by_relfilenode f relid d n,
                λ _. relid_at-remove_by_relfilenode f d,
              )
        | inr b ↦ rw (a, b) (inv', λ _. n, λ v. ground (arith, v))
      ]
      | inr a ↦ elim (Bool-cases (oid_is_valid f)) [
        | inl b ↦
            rw (a, b)
              (
                remove_by_relfilenode-IsInverse f c inv,
                λ v. ground (arith, v),
                λ _. relid_at-remove_by_relfilenode f c,
              )
        | inr b ↦ rw (a, b) (inv, λ v. ground (arith, v), λ v. ground (arith, v))
      ]
    ]
