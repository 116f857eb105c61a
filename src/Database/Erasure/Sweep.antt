-- ===== src/Database/Erasure/Sweep.antt =====
-- A delete leaves no edge that names a row it has taken.
use mathlib.Core.Bool.{false≢true}
use text.Mathlib.TextEquality.{eq_iff}
use trilith.Database.{Row, Derived, Db, has_key}
use trilith.Database.Erasure.{Absent, IsErasure, Only}
use trilith.Database.Erasure.Nested.{
  each-IsErasure, erase-IsErasure, nested, erase_present, erase_missing,
}
use trilith.Database.Erasure.Statement.{Anywhere, delete_rows-Anywhere, delete_rows-cons, after_row}
use trilith.Prelude.{
  ℕ, zero, suc, String, ◌≡◌, sym, ◌∙◌, ◌⊎◌, inl, inr, Bool, true, false, List, [], ◌∷◌, Occurs,
  filter, any, not, length, arith, Bool-cases, Occurs-filter, filter-Occurs, any-false, any-witness,
  string_eq,
}
use trilith.Database.Cascade.{
  mentions, remove_row, remove_edges, summaries, each, erase, delete_rows, delete_where,
}

abbrev pub Present : String → String → Db → Type 0
Present t id db = (r : Row) × Occurs r db.items × (has_key t id r ≡ true)

pub Present-or-Absent : (t id : String) (db : Db) → Present t id db ⊎ Absent t id db
Present-or-Absent t id db = elim (Bool-cases (any (has_key t id) db.items)) [
  | inl e ↦ inl (any-witness (has_key t id) db.items e)
  | inr e ↦ inr (λ r o. any-false (has_key t id) db.items r e o)
]

pub not-both : (t id : String) (db : Db) → Present t id db → ¬ Absent t id db
not-both t id db (r, o, k) gone = false≢true (sym (gone r o) ∙ k)

-- No edge that is left names a row that was there and is gone.
abbrev pub IsSwept : Db → Db → Type 0
IsSwept db db' =
    (e : Derived) (id : String)
    → Occurs e db'.derived
    → (e.source_id ≡ id) ⊎ (e.summary_id ≡ id)
    → Present e.tenant_id id db
    → ¬ Absent e.tenant_id id db'

IsSwept-refl : (db : Db) → IsSwept db db
IsSwept-refl db e id o m = not-both e.tenant_id id db

IsSwept-trans :
    (T : String → Type 0) (a b c : Db) → IsErasure T b c → IsSwept a b → IsSwept b c → IsSwept a c
IsSwept-trans T a b c k ab bc e id o m there gone = elim (Present-or-Absent e.tenant_id id b) [
  | inl p ↦ bc e id o m p gone
  | inr n ↦ ab e id (k.edges e o) m there n
]

each-IsSwept :
    (tenant : String) (f : String → Db → Db)
    → ((i : String) (db : Db) → IsErasure (Only tenant) db (f i db))
    → ((i : String) (db : Db) → IsSwept db (f i db))
    → (ids : List String) (db : Db) → IsSwept db (each f ids db)
unfolding each
each-IsSwept tenant f step swept [] db = IsSwept-refl db
each-IsSwept tenant f step swept (i ∷ ids) db =
    IsSwept-trans (Only tenant) db (f i db) (each f ids (f i db))
      (each-IsErasure tenant f step ids (f i db)) (swept i db)
      (each-IsSwept tenant f step swept ids (f i db))

module _ (fuel : ℕ) (tenant id : String) (db : Db)
    (swept : (i : String) (d : Db) → IsSwept d (erase fuel tenant i d)) where
  unmentioned :
      (e : Derived) (i : String) (r : Row)
      → not (mentions tenant id e) ≡ true
      → (e.source_id ≡ i) ⊎ (e.summary_id ≡ i)
      → has_key e.tenant_id i r ≡ true
      → has_key tenant id r ≡ false
  unmentioned e i r n m k = ground (
    arith,
    eq_iff e.tenant_id tenant,
    eq_iff e.source_id id,
    eq_iff e.summary_id id,
    eq_iff r.tenant_id e.tenant_id,
    eq_iff r.tenant_id tenant,
    eq_iff r.id i,
    eq_iff r.id id,
  )

  nested-IsSwept : IsSwept db (remove_edges tenant id (nested fuel tenant id db))
  unfolding remove_edges remove_row
  nested-IsSwept e i o m (r, k, h) gone =
      let (o', n) =
        Occurs-filter (λ e. not (mentions tenant id e)) (nested fuel tenant id db).derived e o in
      each-IsSwept tenant (erase fuel tenant) (erase-IsErasure fuel tenant) swept
        (summaries tenant id db.derived) (remove_row tenant id db) e i o' m
        (
          r,
          filter-Occurs (λ r. not (has_key tenant id r)) db.items r k
              (rw (unmentioned e i r n m h)),
          h,
        )
        gone

pub erase-IsSwept : (fuel : ℕ) (tenant id : String) (db : Db) → IsSwept db (erase fuel tenant id db)
erase-IsSwept zero tenant id db = unfold erase in IsSwept-refl db
erase-IsSwept (suc fuel) tenant id db = elim (Bool-cases (any (has_key tenant id) db.items)) [
  | inl e ↦
      rw (erase_present fuel tenant id db e)
        (nested-IsSwept fuel tenant id db (erase-IsSwept fuel tenant))
  | inr e ↦ rw (erase_missing (suc fuel) tenant id db e) (IsSwept-refl db)
]

delete_rows-IsSwept : (rows : List Row) (db : Db) → IsSwept db (delete_rows rows db).0
delete_rows-IsSwept [] db = unfold delete_rows in IsSwept-refl db
delete_rows-IsSwept (r ∷ rows) db = rw (delete_rows-cons r rows db) (
    IsSwept-trans Anywhere db (after_row r db) (delete_rows rows (after_row r db)).0
      (delete_rows-Anywhere rows (after_row r db))
      (erase-IsSwept (length db.items) r.tenant_id r.id db)
      (delete_rows-IsSwept rows (after_row r db)))

pub delete_where-IsSwept : (test : Row → Bool) (db : Db) → IsSwept db (delete_where test db).0
unfolding delete_where
delete_where-IsSwept test db = delete_rows-IsSwept (filter test db.items) db

-- What removing a row and removing edges keep, a delete keeps.
module _ (P : Db → Type 0) (row : (t i : String) (db : Db) → P db → P (remove_row t i db))
    (edge : (t i : String) (db : Db) → P db → P (remove_edges t i db)) where
  each-keeps :
      (f : String → Db → Db)
      → ((i : String) (db : Db) → P db → P (f i db))
      → (ids : List String) (db : Db) → P db
      → P (each f ids db)
  unfolding each
  each-keeps f step [] db p = p
  each-keeps f step (i ∷ ids) db p = each-keeps f step ids (f i db) (step i db p)

  pub erase-keeps : (fuel : ℕ) (t i : String) (db : Db) → P db → P (erase fuel t i db)
  erase-keeps zero t i db p = unfold erase in p
  erase-keeps (suc fuel) t i db p = elim (Bool-cases (any (has_key t i) db.items)) [
    | inl e ↦ rw (erase_present fuel t i db e) (
        edge t i _ (
          each-keeps (erase fuel t) (erase-keeps fuel t) (summaries t i db.derived)
            (remove_row t i db) (row t i db p)))
    | inr e ↦ rw (erase_missing (suc fuel) t i db e) p
  ]

  delete_rows-keeps : (rows : List Row) (db : Db) → P db → P (delete_rows rows db).0
  delete_rows-keeps [] db p = unfold delete_rows in p
  delete_rows-keeps (r ∷ rows) db p = rw (delete_rows-cons r rows db) (
      delete_rows-keeps rows (after_row r db) (erase-keeps (length db.items) r.tenant_id r.id db p))

  pub delete_where-keeps : (test : Row → Bool) (db : Db) → P db → P (delete_where test db).0
  unfolding delete_where
  delete_where-keeps test db p = delete_rows-keeps (filter test db.items) db p
