-- ===== src/Examples/Searching.antt =====
-- A text search over the example tables. The pattern test finds a text that is the whole pattern.
use trilith.Proto.{scope_name, tier_name, semantic, procedural, global}
use trilith.Database.{row_to_item, item_of}
use trilith.Prelude.{ascii_lower, any, strip}
use trilith.Database.Search.{matches, page_rows, Search, search, search-tenant}
use trilith.Prelude.Sort.{sort_by}
use trilith.Exec.{traverse, ok}
use trilith.Python.{plain_python}
use trilith.Identity.{normalize_tenant}
use trilith.Database.Backend.{StoredItem}
use trilith.Examples.Data.{step_row, tables}
use trilith.Prelude.{
  ◌≡◌, refl, ◌⊎◌, inl, String, ◌<>◌, Bool, [], ◌∷◌, none, some, filter, Occurs, ◌==◌, string_eq,
}

abbrev whole_text : String → String → Bool
whole_text pattern s = pattern == "%" <> s <> "%"

abbrev steps : Search
steps = record {
  tenant_id = some "acme";
  global_tiers = semantic ∷ [];
  tiers = some (procedural ∷ semantic ∷ []);
  scope = none;
  text = " P1";
  owner_id = "ada";
  session_id = "";
  limit = 0;
  offset = 0;
}

abbrev found : StoredItem
found = record { item = item_of step_row; subtask_id = some "t" }

steps_run : search plain_python whole_text steps tables ≡ ok (found ∷ [], 1)
unfolding search traverse page_rows sort_by matches filter normalize_tenant strip any ascii_lower
    row_to_item tier_name scope_name
steps_run = refl

search-tenant_example :
    (found.item.tenant_id ≡ normalize_tenant (some "acme"))
    ⊎ ((found.item.scope ≡ global) × Occurs found.item.tier (semantic ∷ []))
search-tenant_example =
    search-tenant plain_python whole_text steps tables (found ∷ []) 1 "acme" found steps_run refl
      (inl refl)
