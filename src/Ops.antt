-- ===== src/Ops.antt =====
-- core/ops.py: the operations that the REST and gRPC gateways share. `now` is the clock, read once
-- in each operation.
pub mod Steps
pub mod Removal
pub mod Query
pub mod Assemble
pub mod Session
pub mod Confinement
pub mod Outcome
pub mod Grant
use trilith.Prelude.{
  ℕ, ◌+◌, ◌-◌, ◌/◌, ◌*◌, String, ◌<>◌, Bool, true, false, not, ◌&&◌, ◌||◌, List, [], ◌∷◌, Option,
  none, some, map, length, is_empty, is_some, or_text, decimal, words, take_chars, length_chars,
  leb, ◌==◌, string_eq, if◌then◌else◌,
}
use trilith.Exec.{Result, ok, err, permission_error}
use trilith.Python.{Python}
use trilith.Proto.{
  Tier, Scope, Timestamp, ContextItem, WriteAck, semantic, procedural, episodic, global, user,
  session, scope_eq, tier_name, scope_name,
}
use trilith.Identity.{Principal, can, stamp, new_principal}
use trilith.Privacy.{check_visibility}
use trilith.Database.{Db, Value, text, number, texts}
use trilith.Database.Backend as Backend
use trilith.Audit.{erase_decisions}
use trilith.Events.{clear}
use trilith.Store.{Store, semantic_store, procedural_store, episodic_store, write, forget}
use trilith.Runtime.{
  Runtime, Action, ◌>>=◌, ◌>>◌, return, raise, reads, value, changes, runs, logs, audit, event,
  atomic_operation,
}

-- `Timestamp.GetCurrentTime`
abbrev pub current_time : ℕ → Timestamp
current_time now = record {
  seconds = now / 1000000000;
  nanos = now - now / 1000000000 * 1000000000;
}

unfoldable pub ensure_created_at : ℕ → ContextItem → ContextItem
ensure_created_at now item =
    if is_some item.created_at then item else record item { created_at = some (current_time now) }

abbrev optional_text : Option String → String
optional_text none = ""
optional_text (some s) = s

unfoldable pub preview : String → ℕ → String
preview s width =
    let line = words s in
    if leb (length_chars line) width then line else take_chars (width - 1) line <> "…"

unfoldable pub store_for : Tier → Option Store
store_for semantic = some semantic_store
store_for procedural = some procedural_store
store_for episodic = some episodic_store
store_for tier = none

abbrev pub is_global : Option ContextItem → Bool
is_global none = false
is_global (some item) = item.scope == global

abbrev pub unseen : Python → Principal → Option ContextItem → Bool
unseen py p none = false
unseen py p (some item) = not (check_visibility py item p).0

-- the tests of `write_denial`, once the existing item is there
unfoldable pub denial : Python → ContextItem → Principal → Option ContextItem → String
denial py item p existing =
    if (item.scope == global || is_global existing) && not (can p "publish_global")
    then "publish_global capability required"
    else if can p "tenant_admin"
    then ""
    else if unseen py p existing || unseen py p (some item)
    then "Item is outside principal scope"
    else if item.scope == user && is_empty item.owner_id
    then "USER requires owner_id"
    else if item.scope == session && is_empty item.session_id
    then "SESSION requires session_id"
    else ""

abbrev pub denial_of :
    Python → ContextItem → Principal → Result (Option ContextItem) → Result String
denial_of py item p (ok existing) = ok (denial py item p existing)
denial_of py item p (err e) = err e

-- Embedded callers, who have no principal, are trusted.
unfoldable pub write_denial : Python → ContextItem → Option Principal → Db → Result String
write_denial py item none db = ok ""
write_denial py item (some p) db = denial_of py item p (Backend.get item.id (some p.tenant_id) db)

abbrev pub refused : String → WriteAck
refused reason = record { success = false; message = reason }

abbrev pub tenant_of : Option Principal → Option String
tenant_of none = none
tenant_of (some p) = some p.tenant_id

-- the early return on a denial
abbrev pub deny : ℕ → Option Principal → String → Action WriteAck
deny now principal reason = do
  audit now principal "write" "denied" (("reason", text reason) ∷ [])
  return (refused reason)

abbrev pub stamped : Option Principal → ContextItem → ContextItem
stamped none item = item
stamped (some p) item = stamp p item

-- the event and the answer of `write_item`
unfoldable pub write_logged :
    ℕ → ContextItem → Option Principal → Option String → String → String → Action WriteAck
unfolding preview
write_logged now item principal subtask_id tier scope = do
  event now "write" principal ("wrote " <> tier <> "/" <> item.id) (
      ("id", text item.id)
      ∷ ("tier", text tier)
      ∷ ("scope", text scope)
      ∷ ("subtask_id", text (optional_text subtask_id))
      ∷ ("preview", text (preview item.content 90))
      ∷ [])
  return (record { success = true; message = "Wrote " <> item.id })

-- `write_item` from `store_for` on
unfoldable pub write_to :
    ℕ → ContextItem → Option Principal → Option String → Option Store → Action WriteAck
write_to now item principal subtask_id none = return (refused "Invalid or unspecified tier")
write_to now item principal subtask_id (some store) = do
  changes (write store item subtask_id)
  audit now principal "write" "allowed" (("item_id", text item.id) ∷ [])
  tier ← value (tier_name item.tier)
  scope ← value (scope_name item.scope)
  write_logged now item principal subtask_id tier scope

abbrev pub write_decided :
    ℕ → ContextItem → Option Principal → Option String → String → Action WriteAck
write_decided now item principal subtask_id reason =
    if is_empty reason
    then write_to now item principal subtask_id (store_for item.tier)
    else deny now principal reason

unfoldable pub write_stamped :
    Python → ℕ → ContextItem → Option Principal → Option String → Action WriteAck
write_stamped py now item principal subtask_id = do
  reason ← reads (write_denial py item principal)
  write_decided now item principal subtask_id reason

unfoldable pub write_item :
    Python → ℕ → ContextItem → Option Principal → Option String → Action WriteAck
unfolding write_stamped
write_item py now item principal subtask_id =
    atomic_operation
      (write_stamped py now (stamped principal (ensure_created_at now item)) principal subtask_id)

-- the event and the answer of `update_item`
unfoldable pub update_logged :
    ℕ → ContextItem → Option Principal → List String → String → String → Action WriteAck
unfolding preview
update_logged now item principal changed tier scope = do
  event now "update" principal ("edited " <> tier <> "/" <> item.id) (
      ("id", text item.id)
      ∷ ("tier", text tier)
      ∷ ("scope", text scope)
      ∷ ("fields", texts changed)
      ∷ ("preview", text (preview item.content 90))
      ∷ [])
  return (record { success = true; message = "Updated " <> item.id })

-- `update_item` from `store_for` on
unfoldable pub update_to :
    ℕ
    → ContextItem
    → Option Principal
    → Option String
    → List String
    → Option Store
    → Action WriteAck
update_to now item principal subtask_id changed none =
    return (refused "Invalid or unspecified tier")
update_to now item principal subtask_id changed (some store) = do
  changes (write store item subtask_id)
  audit now principal "write" "allowed" (("item_id", text item.id) ∷ [])
  tier ← value (tier_name item.tier)
  scope ← value (scope_name item.scope)
  update_logged now item principal changed tier scope

abbrev pub in_tenant : Option Principal → ContextItem → ContextItem
in_tenant none item = item
in_tenant (some p) item = record item { tenant_id = p.tenant_id }

abbrev pub update_decided :
    ℕ → ContextItem → Option Principal → Option String → List String → String → Action WriteAck
update_decided now item principal subtask_id changed reason =
    if is_empty reason
    then update_to now item principal subtask_id changed (store_for item.tier)
    else deny now principal reason

update_stamped :
    Python → ℕ → ContextItem → Option Principal → Option String → List String → Action WriteAck
update_stamped py now item principal subtask_id changed = do
  reason ← reads (write_denial py item principal)
  update_decided now item principal subtask_id changed reason

unfoldable pub update_item :
    Python → ℕ → ContextItem → Option Principal → Option String → List String → Action WriteAck
unfolding update_stamped
update_item py now item principal subtask_id changed =
    atomic_operation (update_stamped py now (in_tenant principal item) principal subtask_id changed)
