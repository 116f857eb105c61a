-- ===== src/Rest/Items.antt =====
-- The endpoints of core/rest_app.py that write, edit and delete single items.
use trilith.Prelude.{
  ℕ, String, Bool, true, false, List, [], ◌∷◌, ◌++◌, Option, none, some, is_empty, if◌then◌else◌,
  ◌==◌, string_eq,
}
use trilith.Prelude.Int.{ℤ}
use trilith.Exec.{Result, ok, err, http_exception, ◌>>=◌ as bind}
use trilith.Python.{Python}
use trilith.Floats.{Floats}
use trilith.Proto.{ContextItem, WriteAck, Tier, Scope, tier_eq, scope_eq}
use trilith.Identity.{Principal, text_or_empty}
use trilith.Database.Backend as Backend
use trilith.Database.Backend.{StoredItem}
use trilith.Runtime.{Action, ◌>>=◌, ◌>>◌, return, reads, value}
use trilith.Ops.{write_item, update_item, current_time, stamped, ensure_created_at}
use trilith.Ops.Removal.{delete_item}
use trilith.Rest.{
  Web, Identity, ItemPayload, parse_tier, parse_scope, as_principal, apply_ttl, item_payload,
}
use trilith.Rest.Views.{as_admin, not_in_tenant}

pub record WriteBody : Type 0 where
  pub identity : Identity
  pub id : String
  pub tier : String
  pub content : String
  pub scope : String
  pub provenance : Option String
  pub subtask_id : Option String
  pub ttl_seconds : Option ℤ

-- What is `none` keeps its stored value.
pub record ItemPatch : Type 0 where
  pub identity : Identity
  pub content : Option String
  pub tier : Option String
  pub scope : Option String
  pub provenance : Option String
  pub subtask_id : Option String
  pub ttl_seconds : Option ℤ

pub record Written : Type 0 where
  pub id : String
  pub tenant_id : String

pub record Patched : Type 0 where
  pub id : String
  pub changed : List String
  pub item : Option ItemPayload

-- `s or None`
abbrev pub text_or_none : Option String → Option String
text_or_none none = none
text_or_none (some s) = if is_empty s then none else some s

abbrev pub same_text : Option String → Option String → Bool
same_text none none = true
same_text none (some b) = false
same_text (some a) none = false
same_text (some a) (some b) = a == b

-- What the merge holds: the item, its sub-task and the names of the fields that were changed.
pub record Edit : Type 0 where
  pub item : ContextItem
  pub subtask_id : Option String
  pub changed : List String

abbrev pub marked : String → Edit → ContextItem → Edit
marked field e item = record e { item = item; changed = e.changed ++ field ∷ [] }

unfoldable pub edit_content : Option String → Edit → Edit
edit_content none e = e
edit_content (some s) e =
    if s == e.item.content then e else marked "content" e (record e.item { content = s })

unfoldable pub edit_provenance : Option String → Edit → Edit
edit_provenance none e = e
edit_provenance (some s) e =
    if s == e.item.provenance then e else marked "provenance" e (record e.item { provenance = s })

unfoldable pub edit_owner : Option String → Edit → Edit
edit_owner none e = e
edit_owner (some s) e =
    if s == e.item.owner_id then e else marked "owner_id" e (record e.item { owner_id = s })

unfoldable pub edit_session : Option String → Edit → Edit
edit_session none e = e
edit_session (some s) e =
    if s == e.item.session_id then e else marked "session_id" e (record e.item { session_id = s })

abbrev pub set_tier : Edit → Tier → Edit
set_tier e t = if t == e.item.tier then e else marked "tier" e (record e.item { tier = t })

abbrev pub set_scope : Edit → Scope → Edit
set_scope e s = if s == e.item.scope then e else marked "scope" e (record e.item { scope = s })

unfoldable pub edit_tier : Python → Option String → Edit → Result Edit
edit_tier py none e = ok e
edit_tier py (some name) e = bind (parse_tier py name) (λ t. ok (set_tier e t))

unfoldable pub edit_scope : Python → Option String → Edit → Result Edit
edit_scope py none e = ok e
edit_scope py (some name) e = bind (parse_scope py name) (λ s. ok (set_scope e s))

unfoldable pub edit_subtask : Option String → Edit → Edit
edit_subtask none e = e
edit_subtask (some s) e =
    if same_text (text_or_none (some s)) e.subtask_id
    then e
    else record e { subtask_id = text_or_none (some s); changed = e.changed ++ "subtask_id" ∷ [] }

module _ (fl : Floats) (py : Python) (web : Web fl) (now : ℕ) where
  unfoldable pub edit_ttl : Option ℤ → Edit → Result Edit
  edit_ttl none e = ok e
  edit_ttl (some ttl) e =
      bind (apply_ttl fl py web now e.item (some ttl)) (λ item. ok (marked "expires_at" e item))

  -- The merge of `patch_item`, field by field.
  unfoldable pub merge : ItemPatch → StoredItem → Result Edit
  merge body stored =
      let start : Edit = record {
        item = stored.item;
        subtask_id = stored.subtask_id;
        changed = [];
      } in
      bind (edit_tier py body.tier (edit_content body.content start)) (λ a.
        bind (edit_scope py body.scope a) (λ b. edit_ttl body.ttl_seconds (
          edit_subtask body.subtask_id (
            edit_session body.identity.session_id
              (edit_owner body.identity.owner_id (edit_provenance body.provenance b))))))

  abbrev pub accepted : WriteAck → Result (Unit {0})
  accepted ack = if ack.success then ok tt else err (http_exception 400 ack.message)

  abbrev pub body_item : WriteBody → Tier → Scope → ContextItem
  body_item body tier scope = record {
    id = body.id;
    tier = tier;
    content = body.content;
    scope = scope;
    provenance = text_or_empty body.provenance;
    created_at = some (current_time now);
    expires_at = none;
    embedding = [];
    tenant_id = "";
    owner_id = text_or_empty body.identity.owner_id;
    session_id = text_or_empty body.identity.session_id;
  }

  -- `write_item` stamps the item in place, so the answer names the stamped tenant.
  abbrev pub write_as : WriteBody → Principal → Action Written
  write_as body p = do
    tier ← value (parse_tier py body.tier)
    scope ← value (parse_scope py body.scope)
    item ← value (apply_ttl fl py web now (body_item body tier scope) body.ttl_seconds)
    ack ← write_item py now item (some p) (text_or_none body.subtask_id)
    value (accepted ack)
    return (record {
      id = body.id;
      tenant_id = (stamped (some p) (ensure_created_at now item)).tenant_id;
    })

  unfoldable pub write : Option String → WriteBody → Action Written
  write authorization body = as_principal fl py web body.identity none authorization (write_as body)

  abbrev pub payload_of : Principal → Option StoredItem → Result (Option ItemPayload)
  payload_of p none = ok none
  payload_of p (some stored) = bind (item_payload fl py web now stored p) (λ x. ok (some x))

  abbrev pub unchanged : String → Patched
  unchanged item_id = record { id = item_id; changed = []; item = none }

  abbrev pub store_edit : String → Principal → Edit → Action Patched
  store_edit item_id p e = do
    ack ← update_item py now e.item (some p) e.subtask_id e.changed
    value (accepted ack)
    refreshed ← reads (Backend.stored item_id (some p.tenant_id))
    item ← value (payload_of p refreshed)
    return (record { id = item_id; changed = e.changed; item = item })

  -- `if not changed: return …`
  abbrev pub apply_edit : String → Principal → Edit → List String → Action Patched
  apply_edit item_id p e [] = return (unchanged item_id)
  apply_edit item_id p e (field ∷ fields) = store_edit item_id p e

  abbrev pub patch_found : String → ItemPatch → Principal → Option StoredItem → Action Patched
  patch_found item_id body p none = value (not_in_tenant fl py web now item_id)
  patch_found item_id body p (some stored) = do
    e ← value (merge body stored)
    apply_edit item_id p e e.changed

  abbrev pub patch_as : String → ItemPatch → Principal → Action Patched
  patch_as item_id body p = do
    found ← reads (Backend.stored item_id (some p.tenant_id))
    patch_found item_id body p found

  unfoldable pub patch_item : Option String → String → ItemPatch → Action Patched
  patch_item authorization item_id body =
      as_admin fl py web body.identity authorization (patch_as item_id body)

  abbrev pub removed : String → Principal → Bool → Action Written
  removed item_id p true = return (record { id = item_id; tenant_id = p.tenant_id })
  removed item_id p false = value (not_in_tenant fl py web now item_id)

  abbrev pub remove_as : String → Principal → Action Written
  remove_as item_id p = do done ← delete_item py now item_id (some p); removed item_id p done

  unfoldable pub remove_item : Option String → Identity → String → Action Written
  remove_item authorization identity item_id =
      as_admin fl py web identity authorization (remove_as item_id)
