-- ===== src/Examples/Tables.antt =====
-- Runs of the statements on the tables.
use trilith.Database.Migration.{backfill, rebuilt, OldRow, Table, migrate, migrate_idem}
use mathlib.Core.Bool.{false≢true}
use text.Mathlib.TextEquality.{eq_iff}
use trilith.Exec.{ok, traverse}
use trilith.Proto.{tier_name, scope_name, semantic, user, global}
use trilith.Identity.{normalize_tenant}
use trilith.Database.{Row, Derived, item_of, row_to_item, has_key}
use trilith.Database.Erasure.{Only}
use trilith.Database.Erasure.Statement.{IsDeleted, delete_where-IsDeleted}
use trilith.Database.Erasure.Survivors.{IsPrimary, delete_where-survives}
use trilith.Database.Backend.{save, get, query_rows, query}
use trilith.Database.Reads.{query-tenant}
use trilith.Prelude.Sort.{sort_by}
use trilith.Database.Writes.{IsValid, save-IsValid, delete_where-IsValid}
use trilith.Database.Writes.Round.{read_back, get-save, get-save_other}
use trilith.Examples.Data.{note, note_row, step_row, summary_row, foreign_row, tables}
use trilith.Prelude.{
  String, ◌≡◌, refl, Bool, true, false, [], ◌∷◌, none, some, Occurs, find, filter, any, inl, inr,
  ◌⊎◌, strip, and-true_parts, ◌==◌, string_eq,
}
use trilith.Database.Cascade.{
  delete_where, delete_rows, erase, remove_edges, each, summaries, remove_row,
}

pub tables-IsValid : IsValid tables
unfolding normalize_tenant strip
tables-IsValid = record {
  unique = ((refl, (refl, (refl, tt))), ((refl, (refl, tt)), ((refl, tt), (tt, tt))));
  tenants = tenant_of_row;
  sources = λ e o. source e o;
  targets = λ e o. target e o;
}
  where
    tenant_of_row :
        (r : Row) → Occurs r tables.items → normalize_tenant (some r.tenant_id) ≡ r.tenant_id
    tenant_of_row r (inl e) = rw e refl
    tenant_of_row r (inr (inl e)) = rw e refl
    tenant_of_row r (inr (inr (inl e))) = rw e refl
    tenant_of_row r (inr (inr (inr (inl e)))) = rw e refl
    tenant_of_row r (inr (inr (inr (inr o)))) = absurd o

    source :
        (e : Derived)
        → Occurs e tables.derived
        → (r : Row) × Occurs r tables.items × (has_key e.tenant_id e.source_id r ≡ true)
    source e (inl q) = (step_row, inr (inl refl), rw q refl)
    source e (inr o) = absurd o

    target :
        (e : Derived)
        → Occurs e tables.derived
        → (r : Row) × Occurs r tables.items × (has_key e.tenant_id e.summary_id r ≡ true)
    target e (inl q) = (summary_row, inr (inr (inl refl)), rw q refl)
    target e (inr o) = absurd o

-- deleting the step
abbrev is_step : Row → Bool
is_step r = has_key "acme" "p1" r

is_step-acme : (r : Row) → is_step r ≡ true → r.tenant_id ≡ "acme"
is_step-acme r h =
    (eq_iff r.tenant_id "acme").0 (and-true_parts (r.tenant_id == "acme") (r.id == "p1") h).0

delete_where-IsDeleted_example :
    IsDeleted (Only "acme") is_step tables (delete_where is_step tables).0
delete_where-IsDeleted_example = delete_where-IsDeleted (Only "acme") is_step tables is_step-acme

-- it takes its summary along
deleted_test : (delete_where is_step tables).0.items ≡ note_row ∷ foreign_row ∷ []
unfolding delete_where delete_rows filter any erase remove_edges each summaries remove_row
deleted_test = refl

note_kept :
    (s : Row) → Occurs s tables.items → is_step s ≡ true → has_key s.tenant_id s.id note_row ≡ false
note_kept s (inl e) h = absurd (false≢true (rw e at h))
note_kept s (inr (inl e)) h = rw e refl
note_kept s (inr (inr (inl e))) h = rw e refl
note_kept s (inr (inr (inr (inl e)))) h = rw e refl
note_kept s (inr (inr (inr (inr o)))) h = absurd o

pub step-IsPrimary : IsPrimary step_row tables
step-IsPrimary e (inl q) = λ t i. absurd (literals (rw q at i))
  where
    literals : ◌≡◌ {A = String} "folded-1" "p1" → ⊥
    literals h = cc
step-IsPrimary e (inr o) = absurd o

note-IsPrimary : IsPrimary note_row tables
note-IsPrimary e (inl q) = λ t i. absurd (literals (rw q at i))
  where
    literals : ◌≡◌ {A = String} "folded-1" "n1" → ⊥
    literals h = cc
note-IsPrimary e (inr o) = absurd o

delete_where-survives_example : Occurs note_row (delete_where is_step tables).0.items
delete_where-survives_example =
    delete_where-survives is_step note_row tables note_kept note-IsPrimary (inl refl)

delete_where-IsValid_example : IsValid (delete_where is_step tables).0
delete_where-IsValid_example = delete_where-IsValid is_step tables tables-IsValid

save-IsValid_example : IsValid (save note (some "t") tables)
save-IsValid_example = save-IsValid note (some "t") tables tables-IsValid

get-save_example :
    get note.id (some note.tenant_id) (save note none tables) ≡ ok (some (read_back note))
unfolding tier_name scope_name
get-save_example = get-save note none tables (("SEMANTIC", refl), ("USER", refl))

get-save_other_example :
    get "p1" (some "acme") (save note none tables) ≡ get "p1" (some "acme") tables
unfolding find normalize_tenant strip
get-save_other_example =
    get-save_other note none tables (some "acme") "p1" step_row tables-IsValid refl refl
      step-IsPrimary

query-tenant_example :
    (note_row.tier ≡ semantic)
    × (((item_of note_row).tenant_id ≡ normalize_tenant (some "acme"))
        ⊎ ((false ≡ true) × (user ≡ global)))
unfolding item_of query query_rows filter sort_by traverse row_to_item normalize_tenant strip
    tier_name scope_name
query-tenant_example =
    query-tenant semantic none none "acme" false none tables (item_of note_row ∷ [])
      (item_of note_row) refl (inl refl)

-- a table from before tenancy
abbrev old_row : OldRow
old_row = record {
  id = "n1";
  tier = semantic;
  content = "likes tea";
  scope = user;
  provenance = "";
  created = record { seconds = 5; nanos = 0 };
  expires = none;
  embedding = none;
  subtask_id = none;
  tenant_id = none;
  owner_id = none;
  session_id = none;
}

abbrev old_table : Table
old_table = record { columns = "id" ∷ "owner_id" ∷ []; primary = "id" ∷ []; rows = old_row ∷ [] }

abbrev new_table : Table
new_table = record {
  columns = "id" ∷ "owner_id" ∷ "tenant_id" ∷ "session_id" ∷ [];
  primary = "tenant_id" ∷ "id" ∷ [];
  rows =
      record old_row { tenant_id = some "default"; owner_id = some ""; session_id = some "" } ∷ [];
}

migrate_run : migrate old_table ≡ ok (new_table, "tenant_id" ∷ "session_id" ∷ [])
unfolding migrate any rebuilt filter backfill
migrate_run = refl

migrate_idem_example : migrate new_table ≡ ok (new_table, [])
migrate_idem_example =
    migrate_idem old_table new_table ("tenant_id" ∷ "session_id" ∷ []) migrate_run
