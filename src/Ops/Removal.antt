-- ===== src/Ops/Removal.antt =====
-- The operations of core/ops.py that remove items: `delete_item`, `forget_scope` and
-- `purge_expired`.
use trilith.Prelude.{
  ℕ, String, ◌<>◌, Bool, true, false, not, ◌&&◌, ◌||◌, [], ◌∷◌, Option, none, some, is_empty,
  decimal, ◌==◌, string_eq, if◌then◌else◌,
}
use trilith.Exec.{Result, ok, err, permission_error}
use trilith.Python.{Python}
use trilith.Proto.{ContextItem, scope_eq}
use trilith.Identity.{Principal, can, new_principal}
use trilith.Database.{Db, text, number}
use trilith.Database.Backend as Backend
use trilith.Audit.{erase_decisions}
use trilith.Events.{clear}
use trilith.Store.{semantic_store, procedural_store, forget}
use trilith.Runtime.{
  Action, ◌>>=◌, ◌>>◌, return, reads, value, changes, runs, logs, audit, event, atomic_operation,
}
use trilith.Ops.{write_denial, tenant_of}

-- `existing and write_denial(rt, existing, principal)`
abbrev pub delete_denial : Python → Option ContextItem → Option Principal → Db → Result String
delete_denial py none principal db = ok ""
delete_denial py (some existing) principal db = write_denial py existing principal db

unfoldable pub delete_logged : ℕ → String → Option Principal → Bool → Action Bool
delete_logged now item_id principal false = return false
delete_logged now item_id principal true = do
  event now "delete" principal ("deleted " <> item_id) (("id", text item_id) ∷ [])
  return true

unfoldable pub delete_allowed : ℕ → String → Option Principal → Action Bool
delete_allowed now item_id principal = do
  deleted ← runs (Backend.delete item_id (tenant_of principal))
  delete_logged now item_id principal deleted

abbrev pub delete_decided : ℕ → String → Option Principal → String → Action Bool
delete_decided now item_id principal reason =
    if is_empty reason then delete_allowed now item_id principal else return false

unfoldable pub delete_item : Python → ℕ → String → Option Principal → Action Bool
delete_item py now item_id principal = atomic_operation (do
  existing ← reads (Backend.get item_id (tenant_of principal))
  reason ← reads (delete_denial py existing principal)
  delete_decided now item_id principal reason)

abbrev forget_identity : String → Principal → String
forget_identity scope p = if scope == "USER" then p.owner_id else p.session_id

-- the two guards of `forget_scope`, with the scope in upper case
unfoldable pub forget_guard : String → Option Principal → Result (Unit {0})
forget_guard scope none = ok tt
forget_guard scope (some p) =
    if not (can p "tenant_admin")
      && (not (scope == "USER" || scope == "SESSION") || is_empty (forget_identity scope p))
    then err (permission_error "Scoped identity or tenant_admin capability required")
    else if scope == "GLOBAL" && not (can p "publish_global")
    then err (permission_error "publish_global capability required")
    else ok tt

abbrev pub erase_audit : Python → String → Option Principal → Db → Db
erase_audit py scope none db = db
erase_audit py scope (some p) db = erase_decisions py p scope db

-- `Principal(principal.tenant_id) if principal else None`
abbrev pub bare_principal : Option Principal → Option Principal
bare_principal none = none
bare_principal (some p) = some (new_principal p.tenant_id "" "" "" [] false)

-- `forget_scope` once the rows are gone
unfoldable pub forget_logged : Python → ℕ → String → Option Principal → ℕ → Action ℕ
forget_logged py now scope principal count = do
  logs clear
  audit now (bare_principal principal) "forget" "completed" (("count", number count) ∷ [])
  event now "forget" principal
      ("forgot scope " <> py.upper scope <> " (" <> decimal count <> " episodic items)")
      (("scope", text (py.upper scope)) ∷ ("deleted_episodic_count", number count) ∷ [])
  return count

unfoldable pub forget_scope : Python → ℕ → String → Option Principal → Action ℕ
forget_scope py now scope principal = atomic_operation (do
  value (forget_guard (py.upper scope) principal)
  count ← runs (forget py scope (semantic_store ∷ procedural_store ∷ []) principal)
  changes (erase_audit py scope principal)
  forget_logged py now scope principal count)

-- Not in a transaction: a single statement.
unfoldable pub purge_expired : ℕ → Option Principal → Action ℕ
purge_expired now principal = do
  deleted ← runs (Backend.purge_expired now (tenant_of principal))
  event now "purge" principal ("purged " <> decimal deleted <> " expired items")
      (("deleted_count", number deleted) ∷ [])
  return deleted
