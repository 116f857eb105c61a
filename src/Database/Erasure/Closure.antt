-- ===== src/Database/Erasure/Closure.antt =====
-- Deletes follow the derivation edges to their end, and the statement DELETE as a whole.
use trilith.Prelude.{
  ℕ, zero, suc, ◌≤◌, String, ◌≡◌, sym, ◌∙◌, ◌⊎◌, inl, inr, true, false, List, [], ◌∷◌, Occurs,
  filter, any, length, ◌==◌, ◌&&◌, string_eq, arith, Bool-cases, filter-Occurs, map-Occurs,
  any-witness, length-filter-lt, any-false, not,
}
use mathlib.Core.Bool.{false≢true}
use native.Mathlib.Nat.{le_trans}
use text.Mathlib.TextEquality.{eq_iff}
use text.Mathlib.TextPositions.{eq_refl}
use trilith.Database.{Row, Derived, Db, has_key}
use trilith.Database.Cascade.{remove_row, remove_edges, summaries, each, erase}
use trilith.Database.Erasure.{Absent, IsErasure, Only, Absent-mono}
use trilith.Database.Erasure.Nested.{each-IsErasure}
use trilith.Database.Erasure.Nested.{
  nested, erase_present, erase_missing, erase-IsErasure, Absent-erase,
}

-- The edge's source had a row, and has none now.
abbrev pub LostSource : Derived → Db → Db → Type 0
LostSource e db db' =
    ((r : Row) × Occurs r db.items × (has_key e.tenant_id e.source_id r ≡ true))
    × Absent e.tenant_id e.source_id db'

-- No summary outlives a source that was lost between the two states.
abbrev pub IsClosed : String → Db → Db → Type 0
IsClosed tenant db db' =
    (e : Derived)
    → e.tenant_id ≡ tenant
    → Occurs e db.derived
    → LostSource e db db'
    → Absent e.tenant_id e.summary_id db'

erase-each-IsErasure :
    (fuel : ℕ) (tenant : String) (ids : List String) (db : Db)
    → IsErasure (Only tenant) db (each (erase fuel tenant) ids db)
erase-each-IsErasure fuel tenant =
    each-IsErasure tenant (erase fuel tenant) (erase-IsErasure fuel tenant)

Absent-each :
    (fuel : ℕ) (tenant id : String) (ids : List String) (db : Db)
    → length db.items ≤ fuel
    → Occurs id ids
    → Absent tenant id (each (erase fuel tenant) ids db)
unfolding each
Absent-each fuel tenant id [] db h o = absurd o
Absent-each fuel tenant id (x ∷ ids) db h (inl e) = rw e (
    Absent-mono (Only tenant) tenant x (erase fuel tenant x db) _
      (erase-each-IsErasure fuel tenant ids (erase fuel tenant x db))
      (Absent-erase fuel tenant x db h))
Absent-each fuel tenant id (x ∷ ids) db h (inr o) =
    Absent-each fuel tenant id ids (erase fuel tenant x db)
      (le_trans (erase-IsErasure fuel tenant x db).size h) o

summaries-Occurs :
    (tenant : String) (e : Derived) (edges : List Derived)
    → Occurs e edges
    → e.tenant_id ≡ tenant
    → Occurs e.summary_id (summaries tenant e.source_id edges)
unfolding summaries
summaries-Occurs tenant e edges o t =
    map-Occurs (λ (x : Derived). x.summary_id)
      (filter (λ x. x.tenant_id == tenant && x.source_id == e.source_id) edges) e
      (filter-Occurs (λ x. x.tenant_id == tenant && x.source_id == e.source_id) edges e o
        (rw (← t, eq_refl, eq_refl)))

-- Two closed changes, one after the other, are closed.
pub IsClosed-trans :
    (T : String → Type 0) (tenant : String) (a b c : Db)
    → IsErasure T a b
    → IsErasure T b c
    → IsClosed tenant a b
    → IsClosed tenant b c
    → IsClosed tenant a c
IsClosed-trans T tenant a b c ab bc cab cbc e t o (present, gone) =
    split (Bool-cases (any (has_key e.tenant_id e.source_id) b.items))
  where
    still :
        ((r : Row) × Occurs r b.items × (has_key e.tenant_id e.source_id r ≡ true))
        → Occurs e b.derived
          ⊎ (Absent e.tenant_id e.source_id b ⊎ Absent e.tenant_id e.summary_id b)
        → Absent e.tenant_id e.summary_id c
    still there (inl k) = cbc e t k (there, gone)
    still (r, i, k) (inr (inl n)) = absurd (false≢true (sym (n r i) ∙ k))
    still there (inr (inr n)) = Absent-mono T e.tenant_id e.summary_id b c bc n

    split :
        (any (has_key e.tenant_id e.source_id) b.items ≡ true)
          ⊎ (any (has_key e.tenant_id e.source_id) b.items ≡ false)
        → Absent e.tenant_id e.summary_id c
    split (inl p) = still (any-witness (has_key e.tenant_id e.source_id) b.items p) (ab.lost e o)
    split (inr p) =
        Absent-mono T e.tenant_id e.summary_id b c bc
          (cab e t o (present, λ r i. any-false (has_key e.tenant_id e.source_id) b.items r p i))

pub IsClosed-refl : (tenant : String) (db : Db) → IsClosed tenant db db
IsClosed-refl tenant db e t o ((r, i, k), gone) = absurd (false≢true (sym (gone r i) ∙ k))

each-IsClosed :
    (tenant : String) (f : String → Db → Db) (n : ℕ)
    → ((id : String) (db : Db) → IsErasure (Only tenant) db (f id db))
    → ((id : String) (db : Db) → length db.items ≤ n → IsClosed tenant db (f id db))
    → (ids : List String) (db : Db) → length db.items ≤ n
    → IsClosed tenant db (each f ids db)
unfolding each
each-IsClosed tenant f n step closed [] db h = IsClosed-refl tenant db
each-IsClosed tenant f n step closed (id ∷ ids) db h =
    IsClosed-trans (Only tenant) tenant db (f id db) (each f ids (f id db)) (step id db)
      (each-IsErasure tenant f step ids (f id db)) (closed id db h)
      (each-IsClosed tenant f n step closed ids (f id db) (le_trans (step id db).size h))

-- Removing one row loses only its own edges' source.
length-remove_row :
    (tenant id : String) (db : Db) (n : ℕ)
    → any (has_key tenant id) db.items ≡ true
    → length db.items ≤ suc n
    → length (remove_row tenant id db).items ≤ n
unfolding remove_row
length-remove_row tenant id db n e h =
    let (r, o, k) = any-witness (has_key tenant id) db.items e in
    omega (arith, length-filter-lt (λ r. not (has_key tenant id r)) db.items r o (rw k))

module _ (fuel : ℕ) (tenant id : String) (db : Db)
    (bound : length (remove_row tenant id db).items ≤ fuel)
    (closed : (i : String) (d : Db)
      → length d.items ≤ fuel
      → IsClosed tenant d (erase fuel tenant i d)) where
  abbrev middle : Db
  middle = nested fuel tenant id db

  middle-IsErasure : IsErasure (Only tenant) (remove_row tenant id db) middle
  middle-IsErasure =
      erase-each-IsErasure fuel tenant (summaries tenant id db.derived) (remove_row tenant id db)

  middle-IsClosed : IsClosed tenant (remove_row tenant id db) middle
  middle-IsClosed =
      each-IsClosed tenant (erase fuel tenant) fuel (erase-IsErasure fuel tenant) closed
        (summaries tenant id db.derived) (remove_row tenant id db) bound

  other_row :
      (r : Row) (t i : String)
      → Occurs r db.items
      → has_key t i r ≡ true
      → (i == id) ≡ false
      → Occurs r (remove_row tenant id db).items
  unfolding remove_row
  other_row r t i o k n =
      filter-Occurs (λ r. not (has_key tenant id r)) db.items r o
        (ground (arith, eq_iff r.tenant_id t, eq_iff r.id i, eq_iff r.id id, eq_iff i id))

  -- An edge from the deleted row: its summary was deleted by the trigger.
  own_edge :
      (e : Derived)
      → e.tenant_id ≡ tenant
      → e.source_id ≡ id
      → Occurs e db.derived
      → Absent e.tenant_id e.summary_id middle
  own_edge e t s o = rw t (
      Absent-each fuel tenant e.summary_id (summaries tenant id db.derived)
        (remove_row tenant id db) bound (rw s at (summaries-Occurs tenant e db.derived o t)))

  nested-IsClosed : IsClosed tenant db (remove_edges tenant id middle)
  unfolding remove_row remove_edges
  nested-IsClosed e t o ((r, i, k), gone) = elim (Bool-cases (e.source_id == id)) [
    | inl s ↦ own_edge e t ((eq_iff e.source_id id).0 s) o
    | inr s ↦ middle-IsClosed e t o ((r, other_row r e.tenant_id e.source_id i k s, k), gone)
  ]

-- No summary outlives its source: whatever a delete and its triggers take, each summary that was
-- folded from a row that is gone is gone too.
pub erase-IsClosed :
    (fuel : ℕ) (tenant id : String) (db : Db)
    → length db.items ≤ fuel
    → IsClosed tenant db (erase fuel tenant id db)
erase-IsClosed zero tenant id db h = unfold erase in IsClosed-refl tenant db
erase-IsClosed (suc fuel) tenant id db h = elim (Bool-cases (any (has_key tenant id) db.items)) [
  | inl e ↦ rw (erase_present fuel tenant id db e) (
      nested-IsClosed fuel tenant id db (length-remove_row tenant id db fuel e h)
        (erase-IsClosed fuel tenant))
  | inr e ↦ rw (erase_missing (suc fuel) tenant id db e) (IsClosed-refl tenant db)
]
