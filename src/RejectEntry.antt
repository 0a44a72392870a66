-- ===== src/RejectEntry.antt =====
-- The entries of the reject maps, RejectMapEntry, LocalRejectMapEntry and GlobalRejectMapEntry of
-- src/quotamodel.c. The coordinator indexes them by (targetoid, databaseoid, tablespaceoid,
-- targettype), a segment by relfilenode; the other fields are 0.
use diskquota.Prelude.{ℕ, ◌≡◌, ◌↔◌, Bool, true, ◌&&◌, eqb, KeyEq, arith}
use diskquota.Catalog.{Oid, invalid_oid, Env, ClassTuple, tablespace_or_default}

pub record RelFileNode : Type 0 where
  pub spc_node : Oid
  pub db_node : Oid
  pub rel_node : Oid

pub record RejectMapEntry : Type 0 where
  pub targetoid : Oid
  pub databaseoid : Oid
  pub tablespaceoid : Oid
  pub targettype : ℕ
  pub relfilenode : RelFileNode

abbrev pub no_relfilenode : RelFileNode
no_relfilenode = record { spc_node = invalid_oid; db_node = invalid_oid; rel_node = invalid_oid }

-- memset to 0
abbrev pub no_reject_entry : RejectMapEntry
no_reject_entry = record {
  targetoid = invalid_oid;
  databaseoid = invalid_oid;
  tablespaceoid = invalid_oid;
  targettype = 0;
  relfilenode = no_relfilenode;
}

-- Where the files of a relation of the catalog are.
abbrev pub class_file : Env → ClassTuple → RelFileNode
class_file env c = record {
  spc_node = tablespace_or_default env c.reltablespace;
  db_node = env.my_database_id;
  rel_node = c.relfilenode;
}

pub record LocalRejectMapEntry : Type 0 where
  pub isexceeded : Bool
  pub segexceeded : Bool

-- `keyitem` is the key under which the entry stands.
pub record GlobalRejectMapEntry : Type 0 where
  pub keyitem : RejectMapEntry
  pub segexceeded : Bool
  pub auxblockinfo : RejectMapEntry

abbrev pub relfilenode_eq : RelFileNode → RelFileNode → Bool
relfilenode_eq a b =
    eqb a.spc_node b.spc_node && eqb a.db_node b.db_node && eqb a.rel_node b.rel_node

pub relfilenode_eq_iff : (a b : RelFileNode) → (relfilenode_eq a b ≡ true) ↔ (a ≡ b)
relfilenode_eq_iff a b = ground arith

unfoldable pub reject_entry_eq : RejectMapEntry → RejectMapEntry → Bool
reject_entry_eq a b =
    eqb a.targetoid b.targetoid
    && eqb a.databaseoid b.databaseoid
    && eqb a.tablespaceoid b.tablespaceoid
    && eqb a.targettype b.targettype
    && relfilenode_eq a.relfilenode b.relfilenode

pub reject_entry_eq_iff : (a b : RejectMapEntry) → (reject_entry_eq a b ≡ true) ↔ (a ≡ b)
unfolding reject_entry_eq
reject_entry_eq_iff a b = ground (arith, relfilenode_eq_iff a.relfilenode b.relfilenode)

instance abbrev pub reject_entry_has_eq : KeyEq RejectMapEntry
reject_entry_has_eq = record { eq_test = reject_entry_eq; eq_test_iff = reject_entry_eq_iff }
