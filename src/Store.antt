-- ===== src/Store.antt =====
-- The tier stores: core/store_base.py, core/semantic.py, core/procedural.py (but for `fold`) and
-- core/episodic.py.
pub mod Forget
use trilith.Prelude.{
  ℕ, String, Bool, true, false, List, [], ◌∷◌, Option, none, some, is_empty, if◌then◌else◌, ◌||◌,
  ◌==◌,
}
use trilith.Exec.{Result, ok, err, value_error, key_error}
use trilith.Python.{Python}
use trilith.Proto.{
  Tier, Scope, ContextItem, scope_value, semantic, procedural, episodic, user, session,
  scope_unspecified, global, scope_eq,
}
use trilith.Identity.{Principal}
use trilith.Database.{Db}
use trilith.Database.Backend.{save, query, count, delete_by_scope, delete_tenant}

pub data Store : Type 0 where
  semantic_store procedural_store episodic_store : Store

-- the class attribute `tier`
abbrev pub store_tier : Store → Tier
store_tier semantic_store = semantic
store_tier procedural_store = procedural
store_tier episodic_store = episodic

-- the class attribute `include_global`
abbrev pub include_global : Store → Bool
include_global semantic_store = true
include_global procedural_store = true
include_global episodic_store = false

abbrev some_or_none : {A : Type 0} → Result A → Option A
some_or_none (ok a) = some a
some_or_none (err e) = none

unfoldable pub parse_scope : Python → String → Option Scope
parse_scope py scope = if is_empty scope then none else some_or_none (scope_value (py.upper scope))

unfoldable pub write : Store → ContextItem → Option String → Db → Db
write store item subtask_id db = save (record item { tier = store_tier store }) subtask_id db

unfoldable pub query_for : Store → Principal → Option ℕ → Db → Result (List ContextItem)
query_for store p limit db =
    query (store_tier store) none none (some p.tenant_id) (include_global store) limit db

unfoldable pub count_for : Store → Principal → Db → ℕ
count_for store p db = count (store_tier store) (some p.tenant_id) (include_global store) db

-- `BaseStore.query`
unfoldable pub base_query :
    Python → Store → String → Option Principal → Option ℕ → Db → Result (List ContextItem)
base_query py store scope none limit db =
    query (store_tier store) (parse_scope py scope) none none false limit db
base_query py store scope (some p) limit db = query_for store p limit db

abbrev scoped_events : Option Scope → Option ℕ → Db → Result (List ContextItem)
scoped_events none limit db = ok []
scoped_events (some s) limit db =
    if s == scope_unspecified || s == global
    then err (
        key_error
          "Episodic query cannot use UNSPECIFIED or GLOBAL scope to avoid cross-tenant reads.")
    else query episodic (some s) none none false limit db

-- `EpisodicStore.query`
unfoldable pub episodic_query :
    Python → String → Option Principal → Option ℕ → Db → Result (List ContextItem)
episodic_query py scope (some p) limit db = query_for episodic_store p limit db
episodic_query py scope none limit db =
    if is_empty scope
    then err
        (value_error "Episodic query must specify a valid scope to prevent cross-tenant exposure.")
    else scoped_events (parse_scope py scope) limit db

-- the store's own `query`
abbrev pub store_query :
    Python → Store → String → Option Principal → Option ℕ → Db → Result (List ContextItem)
store_query py semantic_store = base_query py semantic_store
store_query py procedural_store = base_query py procedural_store
store_query py episodic_store = episodic_query py

abbrev pub forget_tenant_id : Option Principal → Option String
forget_tenant_id none = none
forget_tenant_id (some p) = some p.tenant_id

abbrev pub forget_owner : Scope → Option Principal → String
forget_owner scope none = ""
forget_owner scope (some p) = if scope == user then p.owner_id else ""

abbrev pub forget_session : Scope → Option Principal → String
forget_session scope none = ""
forget_session scope (some p) =
    if scope == user then "" else if scope == session then p.session_id else ""

abbrev pub purge_store : Scope → Option Principal → Store → Db → Db × ℕ
purge_store scope principal store db =
    delete_by_scope scope (some (store_tier store)) (forget_tenant_id principal)
      (forget_owner scope principal) (forget_session scope principal) db

-- the loop over `notify_stores`
unfoldable pub notify : Scope → Option Principal → List Store → Db → Db
notify scope principal [] db = db
notify scope principal (store ∷ stores) db =
    notify scope principal stores (purge_store scope principal store db).0

abbrev pub forget_parsed : Option Scope → List Store → Option Principal → Db → Db × ℕ
forget_parsed none stores principal db = (db, 0)
forget_parsed (some scope) stores principal db =
    purge_store scope principal episodic_store (notify scope principal stores db)

-- `EpisodicStore.forget`
unfoldable pub forget : Python → String → List Store → Option Principal → Db → Db × ℕ
forget py scope stores principal db = forget_parsed (parse_scope py scope) stores principal db

unfoldable pub forget_tenant : String → Db → Db × ℕ
forget_tenant tenant_id db = delete_tenant tenant_id db
