-- ===== src/Database/Writes.antt =====
-- The invariant of the tables, and that every statement of the backend keeps it.
pub mod Round
use text.Mathlib.TextEquality.{eq_iff}
use trilith.Prelude.{
  ℕ, String, ◌≡◌, refl, sym, ◌∙◌, ◌⊎◌, inl, inr, Bool, true, false, List, [], ◌∷◌, ◌++◌, Option,
  none, some, Occurs, All, filter, find, any, not, length, arith, Bool-cases, All-filter,
  Occurs-append, append-Occurs_left, append-Occurs_right, ◌==◌, ◌&&◌, string_eq,
}
use native.Mathlib.Nat.{le_refl}
use trilith.Proto.{ContextItem}
use trilith.Identity.{normalize_tenant}
use trilith.Identity.Stamp.{normalize_tenant_idem}
use trilith.Database.{Row, Derived, Db, has_key, row_of}
use trilith.Database.Cascade.{remove_row, remove_edges, erase, delete_where}
use trilith.Database.Erasure.{Absent, IsErasure, Only}
use trilith.Database.Erasure.Nested.{erase-IsErasure, Absent-erase}
use trilith.Database.Erasure.Statement.{IsDeleted, Anywhere, delete_where-IsDeleted}
use trilith.Database.Erasure.Sweep.{
  Present, Present-or-Absent, IsSwept, erase-IsSwept, delete_where-IsSwept, erase-keeps,
  delete_where-keeps,
}
use trilith.Database.Backend.{save}

-- The primary key (tenant_id, id).
abbrev pub UniqueKeys : List Row → Type 0
UniqueKeys [] = Unit
UniqueKeys (r ∷ rows) = All (λ s. has_key r.tenant_id r.id s ≡ false) rows × UniqueKeys rows

UniqueKeys-filter :
    (p : Row → Bool) (rows : List Row) → UniqueKeys rows → UniqueKeys (filter p rows)
unfolding filter
UniqueKeys-filter p [] u = tt
UniqueKeys-filter p (r ∷ rows) u = elim (Bool-cases (p r)) [
  | inl e ↦ rw e (
    All-filter (λ s. has_key r.tenant_id r.id s ≡ false) p rows u.0,
    UniqueKeys-filter p rows u.1,
  )
  | inr e ↦ rw e (UniqueKeys-filter p rows u.1)
]

pub has_key_sym : (r s : Row) → has_key r.tenant_id r.id s ≡ has_key s.tenant_id s.id r
has_key_sym r s = ground (
  arith,
  eq_iff s.tenant_id r.tenant_id,
  eq_iff s.id r.id,
  eq_iff r.tenant_id s.tenant_id,
  eq_iff r.id s.id,
)

UniqueKeys-append :
    (rows : List Row) (r : Row)
    → UniqueKeys rows
    → ((s : Row) → Occurs s rows → has_key r.tenant_id r.id s ≡ false)
    → UniqueKeys (rows ++ r ∷ [])
UniqueKeys-append [] r u fresh = (tt, tt)
UniqueKeys-append (s ∷ rows) r u fresh =
    (last rows u.0, UniqueKeys-append rows r u.1 (λ x o. fresh x (inr o)))
  where
    last :
        (xs : List Row)
        → All (λ x. has_key s.tenant_id s.id x ≡ false) xs
        → All (λ x. has_key s.tenant_id s.id x ≡ false) (xs ++ r ∷ [])
    last [] h = (has_key_sym s r ∙ fresh s (inl refl), tt)
    last (x ∷ xs) h = (h.0, last xs h.1)

-- The tables are well formed.
pub record IsValid (db : Db) : Type 0 where
  pub unique : UniqueKeys db.items
  -- stored tenants are normalised
  pub tenants : (r : Row) → Occurs r db.items → normalize_tenant (some r.tenant_id) ≡ r.tenant_id
  -- both ends of an edge are rows of its tenant
  pub sources : (e : Derived) → Occurs e db.derived → Present e.tenant_id e.source_id db
  pub targets : (e : Derived) → Occurs e db.derived → Present e.tenant_id e.summary_id db

abbrev Unique : Db → Type 0
Unique db = UniqueKeys db.items

remove_row-Unique : (t i : String) (db : Db) → Unique db → Unique (remove_row t i db)
unfolding remove_row
remove_row-Unique t i db u = UniqueKeys-filter (λ r. not (has_key t i r)) db.items u

remove_edges-Unique : (t i : String) (db : Db) → Unique db → Unique (remove_edges t i db)
unfolding remove_edges
remove_edges-Unique t i db u = u

erased-IsValid :
    (T : String → Type 0) (db db' : Db)
    → IsErasure T db db'
    → IsSwept db db'
    → UniqueKeys db'.items
    → IsValid db
    → IsValid db'
erased-IsValid T db db' k swept u v = record {
  unique = u;
  tenants = λ r o. v.tenants r (k.rows r o);
  sources = λ e o. still e e.source_id o (inl refl) (v.sources e (k.edges e o));
  targets = λ e o. still e e.summary_id o (inr refl) (v.targets e (k.edges e o));
}
  where
    still :
        (e : Derived) (id : String)
        → Occurs e db'.derived
        → (e.source_id ≡ id) ⊎ (e.summary_id ≡ id)
        → Present e.tenant_id id db
        → Present e.tenant_id id db'
    still e id o m p = elim (Present-or-Absent e.tenant_id id db') [
      | inl there ↦ there
      | inr gone ↦ absurd (swept e id o m p gone)
    ]

pub erase-IsValid : (fuel : ℕ) (t i : String) (db : Db) → IsValid db → IsValid (erase fuel t i db)
erase-IsValid fuel t i db v =
    erased-IsValid (Only t) db (erase fuel t i db) (erase-IsErasure fuel t i db)
      (erase-IsSwept fuel t i db)
      (erase-keeps Unique remove_row-Unique remove_edges-Unique fuel t i db v.unique) v

-- Every DELETE keeps the tables well formed: keys stay unique and no edge dangles.
pub delete_where-IsValid :
    (test : Row → Bool) (db : Db) → IsValid db → IsValid (delete_where test db).0
delete_where-IsValid test db v =
    erased-IsValid Anywhere db (delete_where test db).0
      (delete_where-IsDeleted Anywhere test db (λ r e. tt)).erasure (delete_where-IsSwept test db)
      (delete_where-keeps Unique remove_row-Unique remove_edges-Unique test db v.unique) v

appended-IsValid :
    (r : Row) (db : Db)
    → Absent r.tenant_id r.id db
    → normalize_tenant (some r.tenant_id) ≡ r.tenant_id
    → IsValid db
    → IsValid (record db { items = db.items ++ r ∷ [] })
appended-IsValid r db fresh n v = record {
  unique = UniqueKeys-append db.items r v.unique fresh;
  tenants = λ s o. tenant s (Occurs-append db.items (r ∷ []) s o);
  sources =
      λ e o. let (s, i, k) = v.sources e o in (s, append-Occurs_left db.items (r ∷ []) s i, k);
  targets =
      λ e o. let (s, i, k) = v.targets e o in (s, append-Occurs_left db.items (r ∷ []) s i, k);
}
  where
    tenant :
        (s : Row)
        → Occurs s db.items ⊎ Occurs s (r ∷ [])
        → normalize_tenant (some s.tenant_id) ≡ s.tenant_id
    tenant s (inl o) = v.tenants s o
    tenant s (inr (inl e)) = rw e n
    tenant s (inr (inr o)) = elim o [ ]

-- A write keeps the tables well formed, a write over an existing item included.
pub save-IsValid :
    (item : ContextItem) (subtask_id : Option String) (db : Db)
    → IsValid db
    → IsValid (save item subtask_id db)
unfolding save row_of
save-IsValid item subtask_id db v =
    let r = row_of item subtask_id in
    appended-IsValid r (erase (length db.items) r.tenant_id r.id db)
      (Absent-erase (length db.items) r.tenant_id r.id db (le_refl _))
      (normalize_tenant_idem (some item.tenant_id))
      (erase-IsValid (length db.items) r.tenant_id r.id db v)
