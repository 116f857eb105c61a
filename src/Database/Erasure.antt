-- ===== src/Database/Erasure.antt =====
-- What a delete leaves: no derived summary outlives its source, and no other tenant is touched.
pub mod Closure
pub mod Statement
pub mod Survivors
pub mod Sweep
pub mod Nested
use trilith.Prelude.{
  ℕ, zero, suc, ◌≤◌, String, ◌≡◌, refl, sym, ap, ◌∙◌, ◌≢◌, ◌⊎◌, inl, inr, Bool, true, false, not,
  ◌&&◌, ◌||◌, List, [], ◌∷◌, Occurs, filter, any, length, ◌==◌, string_eq, eq_of_beq, eq_self,
  beq_of_ne, arith, Bool-cases, Occurs-filter, filter-Occurs, length-filter-le, any-false, any-true,
}
use text.Mathlib.TextEquality.{eq_iff}
use native.Mathlib.Nat.{le_refl, le_trans}
use trilith.Database.{Row, Derived, Decision, Db, KeyRow, has_key}
use trilith.Database.Cascade.{
  mentions, names_item, remove_row, remove_edges, summaries, each, erase, delete_rows, delete_where,
}

-- No row has the key.
abbrev pub Absent : String → String → Db → Type 0
Absent tenant id db = (r : Row) → Occurs r db.items → has_key tenant id r ≡ false

-- How deletes may change the tables, where `T` holds of the tenants that they are confined to.
pub record IsErasure (T : String → Type 0) (db db' : Db) : Type 0 where
  pub rows : (r : Row) → Occurs r db'.items → Occurs r db.items
  pub size : length db'.items ≤ length db.items
  pub others : (r : Row) → ¬ T r.tenant_id → Occurs r db.items → Occurs r db'.items
  pub edges : (e : Derived) → Occurs e db'.derived → Occurs e db.derived
  -- an edge goes only with its source or its summary
  pub lost :
      (e : Derived)
      → Occurs e db.derived
      → Occurs e db'.derived
        ⊎ (Absent e.tenant_id e.source_id db' ⊎ Absent e.tenant_id e.summary_id db')
  pub decisions : (d : Decision) → Occurs d db'.audit → Occurs d db.audit
  pub other_decisions : (d : Decision) → ¬ T d.tenant_id → Occurs d db.audit → Occurs d db'.audit
  pub counter : db'.audit_seq ≡ db.audit_seq
  pub keys : db'.api_keys ≡ db.api_keys

abbrev pub Only : String → String → Type 0
Only tenant t = t ≡ tenant

pub IsErasure-refl : (T : String → Type 0) (db : Db) → IsErasure T db db
IsErasure-refl T db = record {
  rows = λ r o. o;
  size = le_refl _;
  others = λ r n o. o;
  edges = λ e o. o;
  lost = λ e o. inl o;
  decisions = λ d o. o;
  other_decisions = λ d n o. o;
  counter = refl;
  keys = refl;
}

pub Absent-mono :
    (T : String → Type 0) (t id : String) (db db' : Db)
    → IsErasure T db db'
    → Absent t id db
    → Absent t id db'
Absent-mono T t id db db' k h r o = h r (k.rows r o)

pub IsErasure-trans :
    (T : String → Type 0) (a b c : Db) → IsErasure T a b → IsErasure T b c → IsErasure T a c
IsErasure-trans T a b c h k = record {
  rows = λ r o. h.rows r (k.rows r o);
  size = le_trans k.size h.size;
  others = λ r n o. k.others r n (h.others r n o);
  edges = λ e o. h.edges e (k.edges e o);
  lost = λ e o. carry e (h.lost e o);
  decisions = λ d o. h.decisions d (k.decisions d o);
  other_decisions = λ d n o. k.other_decisions d n (h.other_decisions d n o);
  counter = k.counter ∙ h.counter;
  keys = k.keys ∙ h.keys;
}
  where
    carry :
        (e : Derived)
        → Occurs e b.derived
          ⊎ (Absent e.tenant_id e.source_id b ⊎ Absent e.tenant_id e.summary_id b)
        → Occurs e c.derived
          ⊎ (Absent e.tenant_id e.source_id c ⊎ Absent e.tenant_id e.summary_id c)
    carry e (inl o) = k.lost e o
    carry e (inr (inl n)) = inr (inl (λ r o. n r (k.rows r o)))
    carry e (inr (inr n)) = inr (inr (λ r o. n r (k.rows r o)))
