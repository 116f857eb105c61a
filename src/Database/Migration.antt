-- ===== src/Database/Migration.antt =====
-- `SQLiteBackend._migrate` of core/sqlite_backend.py: an older table becomes one with tenants.
use trilith.Prelude.{
  ℕ, String, ◌≡◌, refl, sym, ap, Bool, true, false, not, ◌&&◌, ◌||◌, List, [], ◌∷◌, ◌++◌, Option,
  none, some, map, filter, any, is_empty, if◌then◌else◌, Bool-cases, inl, inr, Occurs, any-true,
  filter-Occurs, append-Occurs_left, append-Occurs_right, any-witness, eq_self, eq_of_beq, ◌==◌,
  string_eq,
}
use trilith.Exec.{Result, ok, integrity_error, require, require-ok, ok_inj, ◌>>◌}
use trilith.Proto.{Tier, Scope, Timestamp}

-- A row of context_items as an older version left it. A column that is not there reads as NULL.
pub record OldRow : Type 0 where
  pub id : String
  pub tier : Tier
  pub content : String
  pub scope : Scope
  pub provenance : String
  pub created : Timestamp
  pub expires : Option Timestamp
  pub embedding : Option (List ℕ)
  pub subtask_id : Option String
  pub tenant_id : Option String
  pub owner_id : Option String
  pub session_id : Option String

pub record Table : Type 0 where
  pub columns : List String
  pub primary : List String
  pub rows : List OldRow

abbrev tenancy_columns : List String
tenancy_columns = "tenant_id" ∷ "owner_id" ∷ "session_id" ∷ []

abbrev missing_columns : Table → List String
missing_columns t = filter (λ c. not (any (λ d. d == c) t.columns)) tenancy_columns

-- `UPDATE … SET tenant_id = 'default' WHERE tenant_id IS NULL OR tenant_id = ''`
abbrev backfilled_tenant : Option String → String
backfilled_tenant none = "default"
backfilled_tenant (some t) = if is_empty t then "default" else t

abbrev or_empty : Option String → String
or_empty none = ""
or_empty (some s) = s

unfoldable pub backfill : OldRow → OldRow
backfill r = record r {
  tenant_id = some (backfilled_tenant r.tenant_id);
  owner_id = some (or_empty r.owner_id);
  session_id = some (or_empty r.session_id);
}

abbrev same_text : Option String → Option String → Bool
same_text none none = true
same_text none (some b) = false
same_text (some a) none = false
same_text (some a) (some b) = a == b

unfoldable pub repeated_key : List OldRow → Bool
repeated_key [] = false
repeated_key (r ∷ rs) =
    any (λ s. s.id == r.id && same_text s.tenant_id r.tenant_id) rs || repeated_key rs

-- the rebuilt table has the primary key (tenant_id, id); where it has that already it stays
unfoldable pub rebuilt : Table → Table
rebuilt t = record t { primary = "tenant_id" ∷ "id" ∷ [] }

abbrev migrated : Table → Table
migrated t =
    rebuilt (record t { columns = t.columns ++ missing_columns t; rows = map backfill t.rows })

-- The migrated table, and the columns that were added. Two rows of one key are an IntegrityError.
unfoldable pub migrate : Table → Result (Table × List String)
unfolding repeated_key
migrate t = do
  require (not (repeated_key (map backfill t.rows)))
      (integrity_error "UNIQUE constraint failed: context_items.tenant_id, context_items.id")
  ok (migrated t, missing_columns t)

filter_of_none :
    {A : Type 0} (p : A → Bool) (xs : List A)
    → ((a : A) → Occurs a xs → p a ≡ false)
    → filter p xs ≡ []
unfolding filter
filter_of_none p [] h = refl
filter_of_none p (x ∷ xs) h = rw (h x (inl refl)) (filter_of_none p xs (λ a o. h a (inr o)))

append_nil : {A : Type 0} (xs : List A) → (xs ++ []) ≡ xs
append_nil [] = refl
append_nil (x ∷ xs) = ap (λ ys. x ∷ ys) (append_nil xs)

backfilled_tenant_idem :
    (o : Option String) → backfilled_tenant (some (backfilled_tenant o)) ≡ backfilled_tenant o
backfilled_tenant_idem none = refl
backfilled_tenant_idem (some t) = elim (Bool-cases (is_empty t)) [
  | inl e ↦ rw e refl
  | inr n ↦ rw (n, n) refl
]

backfill_idem : (r : OldRow) → backfill (backfill r) ≡ backfill r
unfolding backfill
backfill_idem r =
    ap
      (λ t. record r {
        tenant_id = some t;
        owner_id = some (or_empty r.owner_id);
        session_id = some (or_empty r.session_id);
      })
      (backfilled_tenant_idem r.tenant_id)

map-backfill_idem : (rs : List OldRow) → map backfill (map backfill rs) ≡ map backfill rs
map-backfill_idem [] = refl
map-backfill_idem (r ∷ rs) = rw (backfill_idem r, map-backfill_idem rs) refl

-- Once the missing columns are there, none is missing.
missing-none :
    (t t' : Table) → t'.columns ≡ t.columns ++ missing_columns t → missing_columns t' ≡ []
missing-none t t' e = filter_of_none _ tenancy_columns (λ c o.
    rw (e, any-true (λ d. d == c) (t.columns ++ missing_columns t) c (there c o) (eq_self c)) refl)
  where
    there : (c : String) → Occurs c tenancy_columns → Occurs c (t.columns ++ missing_columns t)
    there c o = elim (Bool-cases (any (λ d. d == c) t.columns)) [
      | inl k ↦
          let (d, i, q) = any-witness (λ d. d == c) t.columns k in
          append-Occurs_left t.columns (missing_columns t) c (rw (sym (eq_of_beq d c q)) i)
      | inr n ↦
          append-Occurs_right t.columns (missing_columns t) c
            (filter-Occurs (λ c. not (any (λ d. d == c) t.columns)) tenancy_columns c o (rw n refl))
    ]

migrate-migrated :
    (t : Table)
    → not (repeated_key (map backfill t.rows)) ≡ true
    → migrate (migrated t) ≡ ok (migrated t, [])
unfolding migrate rebuilt
migrate-migrated t h =
    rw
      (
        map-backfill_idem t.rows,
        missing-none t (migrated t) refl,
        h,
        append_nil (t.columns ++ missing_columns t),
      )
      refl

-- A migrated table is left as it is by a second migration, which adds no column.
pub migrate_idem :
    (t t' : Table) (added : List String) → migrate t ≡ ok (t', added) → migrate t' ≡ ok (t', [])
unfolding migrate
migrate_idem t t' added h =
    let (fresh, e) =
      require-ok (not (repeated_key (map backfill t.rows))) _ (ok (migrated t, missing_columns t))
        (t', added) h in
    let q : t' ≡ migrated t = ap (λ (x : Table × List String). x.0) (sym (ok_inj e)) in
    rw q (migrate-migrated t fresh)
