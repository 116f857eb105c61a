-- ===== src/Database/Erasure/Statement.antt =====
-- The DELETE statement: what it leaves, over any rows and tenants.
use mathlib.Core.Bool.{false≢true}
use native.Mathlib.Nat.{le_refl}
use text.Mathlib.TextEquality.{eq_iff}
use text.Mathlib.TextPositions.{eq_refl}
use trilith.Prelude.{
  ℕ, ◌≤◌, String, ◌≡◌, sym, ◌∙◌, ◌⊎◌, inl, inr, Bool, true, false, List, [], ◌∷◌, Occurs, All,
  All-of_Occurs, filter, any, length, arith, Bool-cases, Occurs-filter, filter-Occurs, ◌==◌,
  string_eq,
}
use trilith.Database.{Row, Derived, Db, has_key}
use trilith.Database.Cascade.{erase, delete_rows, delete_where}
use trilith.Database.Erasure.{Absent, IsErasure, Only, Absent-mono, IsErasure-refl, IsErasure-trans}
use trilith.Database.Erasure.Nested.{erase-IsErasure, Absent-erase, erase_missing}
use trilith.Database.Erasure.Closure.{
  IsClosed, LostSource, IsClosed-refl, IsClosed-trans, erase-IsClosed,
}

pub IsErasure-weaken :
    (T U : String → Type 0) (a b : Db)
    → ((t : String) → T t → U t)
    → IsErasure T a b
    → IsErasure U a b
IsErasure-weaken T U a b sub k = record {
  rows = k.rows;
  size = k.size;
  others = λ r n o. k.others r (λ t. n (sub r.tenant_id t)) o;
  edges = k.edges;
  lost = k.lost;
  decisions = k.decisions;
  other_decisions = λ d n o. k.other_decisions d (λ t. n (sub d.tenant_id t)) o;
  counter = k.counter;
  keys = k.keys;
}

not-own_tenant :
    (r : Row) (u source t tenant : String)
    → has_key u source r ≡ true
    → u ≡ t
    → (t == tenant) ≡ false
    → ¬ Only tenant r.tenant_id
not-own_tenant r u source t tenant k e n q =
    ground (arith, eq_iff r.tenant_id u, eq_iff r.id source, eq_iff t tenant)

-- A delete in one tenant loses no source of another, so it is closed in every tenant.
erase-IsClosed_everywhere :
    (fuel : ℕ) (tenant id t : String) (db : Db)
    → length db.items ≤ fuel
    → IsClosed t db (erase fuel tenant id db)
erase-IsClosed_everywhere fuel tenant id t db h = elim (Bool-cases (t == tenant)) [
  | inl e ↦ rw ((eq_iff t tenant).0 e) (erase-IsClosed fuel tenant id db h)
  | inr n ↦ λ e et o lost. absurd (foreign e et n lost)
]
  where
    foreign :
        (e : Derived)
        → e.tenant_id ≡ t
        → (t == tenant) ≡ false
        → LostSource e db (erase fuel tenant id db)
        → ⊥
    foreign e et n ((r, i, k), gone) = false≢true (
        sym (
          gone r (
            (erase-IsErasure fuel tenant id db).others r
              (not-own_tenant r e.tenant_id e.source_id t tenant k et n) i))
        ∙ k)

abbrev pub row_present : Row → Db → Bool
row_present r db = any (has_key r.tenant_id r.id) db.items

abbrev pub after_row : Row → Db → Db
after_row r db = erase (length db.items) r.tenant_id r.id db

pub delete_rows-cons :
    (r : Row) (rows : List Row) (db : Db)
    → (delete_rows (r ∷ rows) db).0 ≡ (delete_rows rows (after_row r db)).0
unfolding delete_rows
delete_rows-cons r rows db = elim (Bool-cases (row_present r db)) [
  | inl e ↦ rw e
  | inr e ↦ rw (e, erase_missing (length db.items) r.tenant_id r.id db e)
]

-- A DELETE over rows of the tenants of `T` changes no other tenant.
pub delete_rows-IsErasure :
    (T : String → Type 0) (rows : List Row) (db : Db)
    → All (λ r. T r.tenant_id) rows
    → IsErasure T db (delete_rows rows db).0
delete_rows-IsErasure T [] db h = unfold delete_rows in IsErasure-refl T db
delete_rows-IsErasure T (r ∷ rows) db h = rw (delete_rows-cons r rows db) (
    IsErasure-trans T db (after_row r db) _
      (IsErasure-weaken (Only r.tenant_id) T db (after_row r db) (λ t e. rw e h.0)
        (erase-IsErasure (length db.items) r.tenant_id r.id db))
      (delete_rows-IsErasure T rows (after_row r db) h.1))

abbrev pub Anywhere : String → Type 0
Anywhere t = Unit

pub delete_rows-Anywhere :
    (rows : List Row) (db : Db) → IsErasure Anywhere db (delete_rows rows db).0
delete_rows-Anywhere rows db =
    delete_rows-IsErasure Anywhere rows db (All-of_Occurs rows (λ r o. tt))

delete_rows-IsClosed :
    (t : String) (rows : List Row) (db : Db) → IsClosed t db (delete_rows rows db).0
delete_rows-IsClosed t [] db = unfold delete_rows in IsClosed-refl t db
delete_rows-IsClosed t (r ∷ rows) db = rw (delete_rows-cons r rows db) (
    IsClosed-trans Anywhere t db (after_row r db) (delete_rows rows (after_row r db)).0
      (IsErasure-weaken (Only r.tenant_id) Anywhere db (after_row r db) (λ u e. tt)
        (erase-IsErasure (length db.items) r.tenant_id r.id db))
      (delete_rows-Anywhere rows (after_row r db))
      (erase-IsClosed_everywhere (length db.items) r.tenant_id r.id t db (le_refl _))
      (delete_rows-IsClosed t rows (after_row r db)))

Absent-delete_rows :
    (r : Row) (rows : List Row) (db : Db)
    → Occurs r rows
    → Absent r.tenant_id r.id (delete_rows rows db).0
Absent-delete_rows r [] db o = absurd o
Absent-delete_rows r (x ∷ rows) db (inl e) =
    rw (delete_rows-cons x rows db, e)
      (Absent-mono Anywhere x.tenant_id x.id (after_row x db) (delete_rows rows (after_row x db)).0
        (delete_rows-Anywhere rows (after_row x db))
        (Absent-erase (length db.items) x.tenant_id x.id db (le_refl _)))
Absent-delete_rows r (x ∷ rows) db (inr o) =
    rw (delete_rows-cons x rows db) (Absent-delete_rows r rows (after_row x db) o)

-- What DELETE FROM context_items WHERE `test` leaves in the tables.
pub record IsDeleted (T : String → Type 0) (test : Row → Bool) (db db' : Db) : Type 0 where
  -- no row that passes the test is left
  pub none_left : (r : Row) → Occurs r db'.items → test r ≡ false
  -- nothing is added, and tenants outside `T` keep every row, edge and decision
  pub erasure : IsErasure T db db'
  -- no summary of a lost source is left
  pub closed : (t : String) → IsClosed t db db'

-- A DELETE whose test only matches rows of the tenants of `T` leaves no row that passes the
-- test, adds nothing, takes a summary along with each source that it was folded from, and
-- leaves every row and decision of the other tenants.
pub delete_where-IsDeleted :
    (T : String → Type 0) (test : Row → Bool) (db : Db)
    → ((r : Row) → test r ≡ true → T r.tenant_id)
    → IsDeleted T test db (delete_where test db).0
unfolding delete_where
delete_where-IsDeleted T test db inside = record {
  none_left = λ r o. left r o (Bool-cases (test r));
  erasure = whole;
  closed = λ t. delete_rows-IsClosed t (filter test db.items) db;
}
  where
    whole : IsErasure T db (delete_rows (filter test db.items) db).0
    whole =
        delete_rows-IsErasure T (filter test db.items) db (
          All-of_Occurs (filter test db.items)
            (λ r o. inside r (Occurs-filter test db.items r o).1))

    left :
        (r : Row)
        → Occurs r (delete_rows (filter test db.items) db).0.items
        → (test r ≡ true) ⊎ (test r ≡ false)
        → test r ≡ false
    left r o (inr f) = f
    left r o (inl t) = absurd (
        false≢true (
          sym (
            Absent-delete_rows r (filter test db.items) db
              (filter-Occurs test db.items r (whole.rows r o) t) r o)
          ∙ rw (eq_refl, eq_refl)))

-- A DELETE counts each row that it matched at most once.
pub delete_rows-count : (rows : List Row) (db : Db) → (delete_rows rows db).1 ≤ length rows
unfolding delete_rows
delete_rows-count [] db = omega arith
delete_rows-count (r ∷ rows) db =
    ground (arith, delete_rows-count rows db, delete_rows-count rows (after_row r db))
