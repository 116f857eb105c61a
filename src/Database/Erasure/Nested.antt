-- ===== src/Database/Erasure/Nested.antt =====
-- The statements of a delete and its triggers, and the nested deletes, change the tables only in
-- the allowed ways.
use trilith.Prelude.{
  ℕ, zero, suc, ◌≤◌, String, ◌≡◌, refl, ◌≢◌, ◌⊎◌, inl, inr, Bool, true, false, not, List, [], ◌∷◌,
  Occurs, filter, any, length, string_eq, beq_of_ne, arith, Bool-cases, Occurs-filter,
  filter-Occurs, length-filter-le, any-false,
}
use text.Mathlib.TextEquality.{eq_iff}
use native.Mathlib.Nat.{le_refl}
use trilith.Database.{Row, Derived, Db, has_key}
use trilith.Database.Cascade.{
  mentions, names_item, remove_row, remove_edges, summaries, each, erase,
}
use trilith.Database.Erasure.{Absent, IsErasure, Only, IsErasure-refl, IsErasure-trans, Absent-mono}

not-any_empty : (p : Row → Bool) (rows : List Row) → length rows ≤ 0 → ¬ (any p rows ≡ true)
unfolding any
not-any_empty p [] h e = cc
not-any_empty p (r ∷ rows) h e = omega arith

has_key-tenant : (tenant id : String) (r : Row) → r.tenant_id ≢ tenant → has_key tenant id r ≡ false
has_key-tenant tenant id r n = rw (beq_of_ne r.tenant_id tenant n)

not-false : (b : Bool) → not b ≡ true → b ≡ false
not-false b h = ground arith

remove_row-IsErasure :
    (tenant id : String) (db : Db) → IsErasure (Only tenant) db (remove_row tenant id db)
unfolding remove_row
remove_row-IsErasure tenant id db = record {
  rows = λ r o. (Occurs-filter (λ r. not (has_key tenant id r)) db.items r o).0;
  size = length-filter-le (λ r. not (has_key tenant id r)) db.items;
  others = λ r n o.
      filter-Occurs (λ r. not (has_key tenant id r)) db.items r o
        (rw (has_key-tenant tenant id r n));
  edges = λ e o. o;
  lost = λ e o. inl o;
  decisions = λ d o. (Occurs-filter (λ d. not (names_item tenant id d)) db.audit d o).0;
  other_decisions = λ d n o.
      filter-Occurs (λ d. not (names_item tenant id d)) db.audit d o
        (rw (beq_of_ne d.tenant_id tenant n));
  counter = refl;
  keys = refl;
}

pub Absent-remove_row : (tenant id : String) (db : Db) → Absent tenant id (remove_row tenant id db)
unfolding remove_row
Absent-remove_row tenant id db r o =
    not-false (has_key tenant id r) (Occurs-filter (λ r. not (has_key tenant id r)) db.items r o).1

mentions_parts :
    (tenant id : String) (e : Derived)
    → mentions tenant id e ≡ true
    → (e.tenant_id ≡ tenant) × ((e.source_id ≡ id) ⊎ (e.summary_id ≡ id))
mentions_parts tenant id e m =
    ground (arith, eq_iff e.tenant_id tenant, eq_iff e.source_id id, eq_iff e.summary_id id)

Absent-mentioned :
    (tenant id : String) (db : Db) (e : Derived)
    → Absent tenant id db
    → (e.tenant_id ≡ tenant) × ((e.source_id ≡ id) ⊎ (e.summary_id ≡ id))
    → Absent e.tenant_id e.source_id db ⊎ Absent e.tenant_id e.summary_id db
Absent-mentioned tenant id db e h (t, inl s) = inl (rw (t, s) h)
Absent-mentioned tenant id db e h (t, inr s) = inr (rw (t, s) h)

-- The edges of a row that is gone may go.
remove_edges-IsErasure :
    (tenant id : String) (db : Db)
    → Absent tenant id db
    → IsErasure (Only tenant) db (remove_edges tenant id db)
unfolding remove_edges
remove_edges-IsErasure tenant id db h = record {
  rows = λ r o. o;
  size = le_refl _;
  others = λ r n o. o;
  edges = λ e o. (Occurs-filter (λ e. not (mentions tenant id e)) db.derived e o).0;
  lost = λ e o. split e o (Bool-cases (mentions tenant id e));
  decisions = λ d o. o;
  other_decisions = λ d n o. o;
  counter = refl;
  keys = refl;
}
  where
    split :
        (e : Derived)
        → Occurs e db.derived
        → (mentions tenant id e ≡ true) ⊎ (mentions tenant id e ≡ false)
        → Occurs e (filter (λ e. not (mentions tenant id e)) db.derived)
          ⊎ (Absent e.tenant_id e.source_id db ⊎ Absent e.tenant_id e.summary_id db)
    split e o (inl m) = inr (Absent-mentioned tenant id db e h (mentions_parts tenant id e m))
    split e o (inr m) = inl (filter-Occurs (λ e. not (mentions tenant id e)) db.derived e o (rw m))

-- The rows that a list of nested deletes of one tenant leaves.
pub each-IsErasure :
    (tenant : String) (f : String → Db → Db)
    → ((id : String) (db : Db) → IsErasure (Only tenant) db (f id db))
    → (ids : List String) (db : Db) → IsErasure (Only tenant) db (each f ids db)
unfolding each
each-IsErasure tenant f step [] db = IsErasure-refl (Only tenant) db
each-IsErasure tenant f step (id ∷ ids) db =
    IsErasure-trans (Only tenant) db (f id db) (each f ids (f id db)) (step id db)
      (each-IsErasure tenant f step ids (f id db))

-- The tables after a row is removed and the summaries folded from it are deleted.
abbrev pub nested : ℕ → String → String → Db → Db
nested fuel tenant id db =
    each (erase fuel tenant) (summaries tenant id db.derived) (remove_row tenant id db)

pub erase_present :
    (fuel : ℕ) (tenant id : String) (db : Db)
    → any (has_key tenant id) db.items ≡ true
    → erase (suc fuel) tenant id db ≡ remove_edges tenant id (nested fuel tenant id db)
unfolding erase
erase_present fuel tenant id db e = rw (e, erase)

pub erase_missing :
    (fuel : ℕ) (tenant id : String) (db : Db)
    → any (has_key tenant id) db.items ≡ false
    → erase fuel tenant id db ≡ db
unfolding erase
erase_missing zero tenant id db e = refl
erase_missing (suc fuel) tenant id db e = rw (e, erase)

module _ (fuel : ℕ) (tenant id : String) (db : Db)
    (step : (i : String) (d : Db) → IsErasure (Only tenant) d (erase fuel tenant i d)) where
  abbrev inner : Db
  inner = nested fuel tenant id db

  each-summaries : IsErasure (Only tenant) (remove_row tenant id db) inner
  each-summaries =
      each-IsErasure tenant (erase fuel tenant) step (summaries tenant id db.derived)
        (remove_row tenant id db)

  pub Absent-nested : Absent tenant id inner
  Absent-nested =
      Absent-mono (Only tenant) tenant id (remove_row tenant id db) inner each-summaries
        (Absent-remove_row tenant id db)

  pub nested-IsErasure : IsErasure (Only tenant) db (remove_edges tenant id inner)
  nested-IsErasure =
      IsErasure-trans (Only tenant) db inner (remove_edges tenant id inner)
        (IsErasure-trans (Only tenant) db (remove_row tenant id db) inner
          (remove_row-IsErasure tenant id db) each-summaries)
        (remove_edges-IsErasure tenant id inner Absent-nested)

-- The delete of a row, its triggers included, changes the tables only in these ways.
pub erase-IsErasure :
    (fuel : ℕ) (tenant id : String) (db : Db) → IsErasure (Only tenant) db (erase fuel tenant id db)
erase-IsErasure zero tenant id db = unfold erase in IsErasure-refl (Only tenant) db
erase-IsErasure (suc fuel) tenant id db = elim (Bool-cases (any (has_key tenant id) db.items)) [
  | inl e ↦
      rw (erase_present fuel tenant id db e)
        (nested-IsErasure fuel tenant id db (erase-IsErasure fuel tenant))
  | inr e ↦ rw (erase_missing (suc fuel) tenant id db e) (IsErasure-refl (Only tenant) db)
]

-- With a fuel of the number of rows, no row has the deleted key.
pub Absent-erase :
    (fuel : ℕ) (tenant id : String) (db : Db)
    → length db.items ≤ fuel
    → Absent tenant id (erase fuel tenant id db)
Absent-erase fuel tenant id db h = elim (Bool-cases (any (has_key tenant id) db.items)) [
  | inl e ↦ present fuel h e
  | inr e ↦
      rw (erase_missing fuel tenant id db e) (λ r o. any-false (has_key tenant id) db.items r e o)
]
  where
    present :
        (n : ℕ)
        → length db.items ≤ n
        → any (has_key tenant id) db.items ≡ true
        → Absent tenant id (erase n tenant id db)
    present zero le e = absurd (not-any_empty (has_key tenant id) db.items le e)
    present (suc n) le e =
        rw (erase_present n tenant id db e)
          (unfold remove_edges in Absent-nested n tenant id db (erase-IsErasure n tenant))
