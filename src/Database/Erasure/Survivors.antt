-- ===== src/Database/Erasure/Survivors.antt =====
-- A delete takes nothing but what it names and what derives from that.
use text.Mathlib.TextEquality.{eq_iff}
use trilith.Prelude.{
  ℕ, zero, suc, String, ◌≡◌, refl, ◌≢◌, inl, inr, Bool, true, false, List, [], ◌∷◌, Occurs, filter,
  any, not, length, arith, Bool-cases, Occurs-filter, filter-Occurs, Occurs-map, ◌==◌, ◌&&◌,
  string_eq,
}
use trilith.Database.{Row, Derived, Db, has_key}
use trilith.Database.Cascade.{
  remove_row, remove_edges, summaries, each, erase, delete_rows, delete_where,
}
use trilith.Database.Erasure.{IsErasure, Only}
use trilith.Database.Erasure.Nested.{erase-IsErasure, nested, erase_present, erase_missing}
use trilith.Database.Erasure.Statement.{delete_rows-cons, after_row}

-- No summary stands under the row's key.
abbrev pub IsPrimary : Row → Db → Type 0
IsPrimary r db =
    (e : Derived) → Occurs e db.derived → e.tenant_id ≡ r.tenant_id → e.summary_id ≢ r.id

-- The row survives every nested delete of another key.
each-survives :
    (f : String → Db → Db) (tenant : String) (r : Row)
    → ((i : String) (db : Db) → IsErasure (Only tenant) db (f i db))
    → ((i : String) (db : Db)
        → has_key tenant i r ≡ false
        → IsPrimary r db
        → Occurs r db.items
        → Occurs r (f i db).items)
    → (ids : List String) → ((i : String) → Occurs i ids → has_key tenant i r ≡ false)
    → (db : Db) → IsPrimary r db
    → Occurs r db.items
    → Occurs r (each f ids db).items
unfolding each
each-survives f tenant r step keep [] other db p o = o
each-survives f tenant r step keep (i ∷ ids) other db p o =
    each-survives f tenant r step keep ids (λ j k. other j (inr k)) (f i db)
      (λ e k. p e ((step i db).edges e k)) (keep i db (other i (inl refl)) p o)

other_summary :
    (tenant id s : String) (r : Row) (db : Db)
    → IsPrimary r db
    → Occurs s (summaries tenant id db.derived)
    → has_key tenant s r ≡ false
unfolding summaries
other_summary tenant id s r db p o =
    let (e, i, q) =
      Occurs-map (λ (x : Derived). x.summary_id)
        (filter (λ x. x.tenant_id == tenant && x.source_id == id) db.derived) s o in
    let (k, t) = Occurs-filter (λ x. x.tenant_id == tenant && x.source_id == id) db.derived e i in
    ground (
      arith,
      p e k,
      eq_iff e.tenant_id tenant,
      eq_iff e.source_id id,
      eq_iff r.tenant_id tenant,
      eq_iff r.id s,
    )

pub erase-survives :
    (fuel : ℕ) (tenant id : String) (r : Row) (db : Db)
    → has_key tenant id r ≡ false
    → IsPrimary r db
    → Occurs r db.items
    → Occurs r (erase fuel tenant id db).items
erase-survives zero tenant id r db n p o = unfold erase in o
erase-survives (suc fuel) tenant id r db n p o =
    elim (Bool-cases (any (has_key tenant id) db.items)) [
      | inl e ↦ rw (erase_present fuel tenant id db e) (inside (erase-survives fuel tenant))
      | inr e ↦ rw (erase_missing (suc fuel) tenant id db e) o
    ]
  where
    kept : Occurs r (remove_row tenant id db).items
    kept = unfold remove_row in filter-Occurs (λ r. not (has_key tenant id r)) db.items r o (rw n)

    inside :
        ((i : String) (s : Row) (d : Db)
          → has_key tenant i s ≡ false
          → IsPrimary s d
          → Occurs s d.items
          → Occurs s (erase fuel tenant i d).items)
        → Occurs r (remove_edges tenant id (nested fuel tenant id db)).items
    inside ih =
        unfold remove_edges in
        each-survives (erase fuel tenant) tenant r (erase-IsErasure fuel tenant) (λ i. ih i r)
          (summaries tenant id db.derived) (λ s k. other_summary tenant id s r db p k)
          (remove_row tenant id db) (unfold remove_row in p) kept

delete_rows-survives :
    (rows : List Row) (r : Row) (db : Db)
    → ((s : Row) → Occurs s rows → has_key s.tenant_id s.id r ≡ false)
    → IsPrimary r db
    → Occurs r db.items
    → Occurs r (delete_rows rows db).0.items
delete_rows-survives [] r db other p o = unfold delete_rows in o
delete_rows-survives (s ∷ rows) r db other p o = rw (delete_rows-cons s rows db) (
    delete_rows-survives rows r (after_row s db) (λ u k. other u (inr k))
      (λ e k. p e ((erase-IsErasure (length db.items) s.tenant_id s.id db).edges e k))
      (erase-survives (length db.items) s.tenant_id s.id r db (other s (inl refl)) p o))

-- A row that is no summary and whose key no matched row has is kept by the DELETE.
pub delete_where-survives :
    (test : Row → Bool) (r : Row) (db : Db)
    → ((s : Row) → Occurs s db.items → test s ≡ true → has_key s.tenant_id s.id r ≡ false)
    → IsPrimary r db
    → Occurs r db.items
    → Occurs r (delete_where test db).0.items
unfolding delete_where
delete_where-survives test r db other p o =
    delete_rows-survives (filter test db.items) r db
      (λ s k. let (i, t) = Occurs-filter test db.items s k in other s i t) p o
