-- ===== src/Database/Writes/Round.antt =====
-- Reading back what was written, and what a write leaves of the other items.
use text.Mathlib.TextEquality.{eq_iff}
use text.Mathlib.TextPositions.{eq_refl}
use native.Mathlib.Nat.{le_refl}
use trilith.Prelude.{
  ℕ, String, ◌≡◌, refl, ◌∙◌, inl, inr, true, false, List, [], ◌∷◌, Option, none, some, Occurs,
  All-at, find, length, arith, append-Occurs_left, find-append-none, find_of_none, find-Occurs,
  string_eq,
}
use trilith.Exec.{ok}
use trilith.Proto.{ContextItem, Timestamp, Tier, Scope, tier_name, scope_name}
use trilith.Identity.{normalize_tenant}
use trilith.Identity.Stamp.{normalize_tenant_idem}
use trilith.Database.{
  epoch, embedding_column, embedding_field, Row, Db, has_key, row_of, item_of, row_to_item,
}
use trilith.Database.Cascade.{erase}
use trilith.Database.Erasure.Nested.{Absent-erase}
use trilith.Database.Erasure.Survivors.{IsPrimary, erase-survives}
use trilith.Database.Backend.{save, get}
use trilith.Database.Writes.{UniqueKeys, IsValid, save-IsValid}

-- The tier and the scope have names, so that reading the item back does not raise.
abbrev pub IsNamed : Tier → Scope → Type 0
IsNamed t s = ((n : String) × (tier_name t ≡ ok n)) × ((n : String) × (scope_name s ≡ ok n))

pub row_to_item_named : (r : Row) → IsNamed r.tier r.scope → row_to_item r ≡ ok (item_of r)
unfolding row_to_item
row_to_item_named r ((n, e), (m, f)) = rw (e, f)

pub find-save :
    (item : ContextItem) (subtask_id : Option String) (db : Db)
    → find
        (has_key (normalize_tenant (some item.tenant_id)) item.id)
        (save item subtask_id db).items
      ≡ some (row_of item subtask_id)
unfolding save row_of find
find-save item subtask_id db =
    let t = normalize_tenant (some item.tenant_id) in
    let cleared = erase (length db.items) t item.id db in
    find-append-none (has_key t item.id) cleared.items (row_of item subtask_id ∷ []) (
      find_of_none (has_key t item.id) cleared.items
        (Absent-erase (length db.items) t item.id db (le_refl _)))
    ∙ rw (eq_refl, eq_refl)

-- The item as it is read back: with a creation time, and in its normalised tenant.
abbrev pub read_back : ContextItem → ContextItem
read_back item = record item {
  created_at =
      some (elim item.created_at [ none ↦ record { seconds = 0; nanos = 0 } | some t ↦ t ]);
  tenant_id = normalize_tenant (some item.tenant_id);
}

item_of-row_of :
    (item : ContextItem) (subtask_id : Option String)
    → item_of (row_of item subtask_id) ≡ read_back item
unfolding item_of row_of
item_of-row_of item subtask_id =
    rw (normalize_tenant_idem (some item.tenant_id))
      (rebuilt item.created_at item.embedding (normalize_tenant (some item.tenant_id)))
  where
    rebuilt :
        (c : Option Timestamp) (xs : List ℕ) (t : String)
        → ◌≡◌ {A = ContextItem}
            (record item {
              created_at = some (epoch c);
              embedding = embedding_field (embedding_column xs);
              tenant_id = t;
            })
            (record item {
              created_at = some (elim c [ none ↦ record { seconds = 0; nanos = 0 } | some t ↦ t ]);
              embedding = xs;
              tenant_id = t;
            })
    rebuilt none [] t = refl
    rebuilt none (x ∷ xs) t = refl
    rebuilt (some c) [] t = refl
    rebuilt (some c) (x ∷ xs) t = refl

-- An item whose tier and scope have names is read back under its tenant and id, with the tenant
-- normalised, the epoch as its creation time if it had none, and every other field, its content,
-- provenance, owner, session, expiry and embedding among them, as it was written.
pub get-save :
    (item : ContextItem) (subtask_id : Option String) (db : Db)
    → IsNamed item.tier item.scope
    → get item.id (some item.tenant_id) (save item subtask_id db) ≡ ok (some (read_back item))
unfolding get
get-save item subtask_id db named =
    rw (find-save item subtask_id db, ← item_of-row_of item subtask_id)
      (unfold row_of in rw (row_to_item_named (row_of item subtask_id) named))

-- In tables with unique keys a row is found by its key.
pub find_unique :
    (t i : String) (rows : List Row) (r : Row)
    → UniqueKeys rows
    → Occurs r rows
    → has_key t i r ≡ true
    → find (has_key t i) rows ≡ some r
unfolding find
find_unique t i [] r u o k = absurd o
find_unique t i (s ∷ rows) r u (inl e) k = rw (← e, k)
find_unique t i (s ∷ rows) r u (inr o) k = ground (
  arith,
  find_unique t i rows r u.1 o k,
  All-at (λ x. has_key s.tenant_id s.id x ≡ false) rows r u.0 o,
  eq_iff s.tenant_id t,
  eq_iff s.id i,
  eq_iff r.tenant_id t,
  eq_iff r.id i,
  eq_iff r.tenant_id s.tenant_id,
  eq_iff r.id s.id,
)

pub save-survives :
    (item : ContextItem) (subtask_id : Option String) (db : Db) (r : Row)
    → has_key (normalize_tenant (some item.tenant_id)) item.id r ≡ false
    → IsPrimary r db
    → Occurs r db.items
    → Occurs r (save item subtask_id db).items
unfolding save row_of
save-survives item subtask_id db r n p o =
    let t = normalize_tenant (some item.tenant_id) in
    append-Occurs_left (erase (length db.items) t item.id db).items (row_of item subtask_id ∷ []) r
      (erase-survives (length db.items) t item.id r db n p o)

-- A write of one key does not change what is read under another, unless the row read there was
-- derived by folding.
pub get-save_other :
    (item : ContextItem) (subtask_id : Option String) (db : Db) (t : Option String) (i : String)
    (r : Row)
    → IsValid db
    → find (has_key (normalize_tenant t) i) db.items ≡ some r
    → has_key (normalize_tenant (some item.tenant_id)) item.id r ≡ false
    → IsPrimary r db
    → get i t (save item subtask_id db) ≡ get i t db
unfolding get
get-save_other item subtask_id db t i r v f n p =
    let (o, k) = find-Occurs (has_key (normalize_tenant t) i) db.items r f in
    rw (
      find_unique (normalize_tenant t) i (save item subtask_id db).items r
          (save-IsValid item subtask_id db v).unique (save-survives item subtask_id db r n p o) k,
      f,
    )
