-- ===== src/Rest.antt =====
-- core/rest_app.py: what its endpoints share. A handler is an action on the runtime whose raise is
-- the answer of an error status. The bodies have passed the framework's own validation.
pub mod Views
pub mod Items
pub mod Pipeline
pub mod Serve
pub mod Access
pub mod Handlers
pub mod Boundary
pub mod Disclosure
pub mod Merging
use trilith.Prelude.{
  ℕ, zero, suc, ◌/◌, String, ◌<>◌, Bool, true, false, List, [], ◌∷◌, Option, none, some, map,
  if◌then◌else◌,
}
use trilith.Prelude.Int.{ℤ, pos, negsuc, offset_by}
use trilith.Exec.{
  Error, Result, ok, err, value_error, permission_error, auth_error, http_exception, traverse,
  ◌>>=◌ as bind,
}
use trilith.Python.{Python}
use trilith.Floats.{Floats}
use trilith.Proto.{
  Tier, Scope, Timestamp, ContextItem, tier_value, scope_value, tier_name, scope_name,
}
use trilith.Identity.{Principal, can, text_or_empty}
use trilith.Privacy.{explain}
use trilith.Database.{Db}
use trilith.Database.Backend.{StoredItem}
use trilith.Auth.{resolve}
use trilith.Store.{Store, semantic_store, procedural_store, episodic_store}
use trilith.Ranking.{Governor, estimate_tokens}
use trilith.Runtime.{Action, Runtime, reads, ◌>>=◌}

-- What the app is made with: the enforcer's `require_auth`, the governor, and what other packages
-- do: `Timestamp.FromSeconds`, `Timestamp.ToJsonString` and the database's LIKE.
pub record Web (fl : Floats) : Type 0 where
  pub require_auth : Bool
  pub governor : Governor fl
  pub from_seconds : ℤ → Result Timestamp
  pub to_json : Timestamp → String
  pub like : String → String → Bool

abbrev pub version : String
version = "0.3.0"

abbrev pub default_budget : ℕ
default_budget = 200

-- `_TenantAware`, also what a GET has in its query
pub record Identity : Type 0 where
  pub tenant_id : Option String
  pub owner_id : Option String
  pub session_id : Option String

abbrev pub bad_request : {A : Type 0} → String → Result A → Result A
bad_request detail (ok a) = ok a
bad_request detail (err (value_error s)) = err (http_exception 400 detail)
bad_request detail (err e) = err e

unfoldable pub parse_tier : Python → String → Result Tier
parse_tier py name = bad_request ("Unknown tier '" <> name <> "'") (tier_value (py.upper name))

unfoldable pub parse_scope : Python → String → Result Scope
parse_scope py name = bad_request ("Unknown scope '" <> name <> "'") (scope_value (py.upper name))

abbrev pub unauthorized : Result Principal → Result Principal
unauthorized (ok p) = ok p
unauthorized (err (auth_error s)) = err (http_exception 401 s)
unauthorized (err e) = err e

unfoldable pub require_admin : Principal → Result (Unit {0})
require_admin p =
    if can p "tenant_admin"
    then ok tt
    else err (http_exception 403 "tenant_admin capability required")

-- The tiers in the order of the console.
abbrev pub tiers : List (String × Store)
tiers =
    ("SEMANTIC", semantic_store)
    ∷ ("PROCEDURAL", procedural_store)
    ∷ ("EPISODIC", episodic_store)
    ∷ []

abbrev pub optional_text : Option String → String
optional_text none = ""
optional_text (some s) = s

-- `item.created_at`, which reads as the epoch where it is unset
abbrev pub created : ContextItem → Timestamp
created item = elim item.created_at [ none ↦ record { seconds = 0; nanos = 0 } | some t ↦ t ]

-- One row as a console needs it.
pub record ItemPayload : Type 0 where
  pub id : String
  pub tier : String
  pub scope : String
  pub content : String
  pub provenance : String
  pub created_at : String
  pub expires_at : Option String
  pub tenant_id : String
  pub owner_id : String
  pub session_id : String
  pub subtask_id : String
  pub tokens : ℕ
  pub visible : Bool
  pub visibility_reason : String

abbrev pub json_time : (Timestamp → String) → Option Timestamp → Option String
json_time to_json none = none
json_time to_json (some t) = some (to_json t)

module _ (fl : Floats) (py : Python) (web : Web fl) where
  -- `principal_for`, for a body, and `principal_from_query`
  unfoldable pub principal_for : Identity → Option String → Option String → Action Principal
  principal_for identity requester_scope authorization = reads (λ db. unauthorized (
      resolve py web.require_auth authorization (text_or_empty identity.tenant_id)
        (text_or_empty identity.owner_id) (text_or_empty identity.session_id)
        (text_or_empty requester_scope) db))

  -- A handler that goes on as the principal.
  unfoldable pub as_principal :
      {A : Type 0} → Identity → Option String → Option String → (Principal → Action A) → Action A
  as_principal identity requester_scope authorization handler =
      principal_for identity requester_scope authorization >>= handler

  module _ (now : ℕ) where
    -- `None` leaves the expiry, 0 clears it, any other number re-dates it from now.
    unfoldable pub apply_ttl : ContextItem → Option ℤ → Result ContextItem
    apply_ttl item none = ok item
    apply_ttl item (some (pos zero)) = ok (record item { expires_at = none })
    apply_ttl item (some ttl) =
        bind (web.from_seconds (offset_by (now / 1000000000) ttl))
          (λ t. ok (record item { expires_at = some t }))

    unfoldable pub item_payload : StoredItem → Principal → Result ItemPayload
    item_payload stored p =
        let item = stored.item in
        let judged = explain py item p now in
        bind (tier_name item.tier) (λ tier. bind (scope_name item.scope) (λ scope.
          bind (estimate_tokens fl web.governor item) (λ tokens. ok (record {
            id = item.id;
            tier = tier;
            scope = scope;
            content = item.content;
            provenance = item.provenance;
            created_at = web.to_json (created item);
            expires_at = json_time web.to_json item.expires_at;
            tenant_id = item.tenant_id;
            owner_id = item.owner_id;
            session_id = item.session_id;
            subtask_id = optional_text stored.subtask_id;
            tokens = tokens;
            visible = judged.0;
            visibility_reason = judged.1;
          }))))
