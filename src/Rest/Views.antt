-- ===== src/Rest/Views.antt =====
-- The inspection endpoints of core/rest_app.py, which read.
use trilith.Prelude.{
  ℕ, ◌+◌, String, ◌<>◌, Bool, true, false, List, [], ◌∷◌, ◌++◌, Option, none, some, filter, any,
  take, min, max, is_empty, if◌then◌else◌, ◌==◌,
}
use trilith.Prelude.Int.{ℤ, pos_part}
use trilith.Prelude.Sort.{sort_by}
use trilith.Exec.{Result, ok, err, http_exception, traverse, ◌>>=◌ as bind}
use trilith.Python.{Python}
use trilith.Floats.{Floats}
use trilith.Proto.{Tier, Scope, ContextItem, semantic, procedural, tier_eq, scope_name}
use trilith.Identity.{Principal}
use trilith.Database.{Db}
use trilith.Database.Backend as Backend
use trilith.Database.Backend.{StoredItem, text_before}
use trilith.Database.Search.{Search, search}
use trilith.Events.{Event, since}
use trilith.Auth.{enabled}
use trilith.Store.{Store, store_tier, include_global}
use trilith.Runtime.{Runtime, Action, ◌>>=◌, ◌>>◌, reads, sees, value}
use trilith.Rest.{
  Web, Identity, ItemPayload, tiers, version, created, parse_tier, parse_scope, require_admin,
  as_principal, item_payload,
}

pub record IdentityPayload : Type 0 where
  pub tenant_id : String
  pub owner_id : String
  pub session_id : String

abbrev pub identity_payload : Principal → IdentityPayload
identity_payload p = record {
  tenant_id = p.tenant_id;
  owner_id = p.owner_id;
  session_id = p.session_id;
}

abbrev pub anonymous : Identity
anonymous = record { tenant_id = none; owner_id = none; session_id = none }

pub record Health : Type 0 where
  pub version : String
  pub auth_enabled : Bool

pub record WhoAmI : Type 0 where
  pub identity : IdentityPayload
  pub auth_enabled : Bool

-- a row of `recent`
pub record RecentItem : Type 0 where
  pub id : String
  pub tier : String
  pub scope : String
  pub content : String
  pub provenance : String
  pub created_at : String
  pub owner_id : String
  pub session_id : String

pub record Dashboard : Type 0 where
  pub version : String
  pub auth_enabled : Bool
  pub identity : IdentityPayload
  pub counts : List (String × ℕ)
  pub total_items : ℕ
  pub recent_items : List RecentItem
  pub latest_event_seq : ℕ

pub record ItemPage : Type 0 where
  pub items : List ItemPayload
  pub total : ℕ
  pub limit : ℕ
  pub offset : ℕ
  pub identity : IdentityPayload

pub record EventPage : Type 0 where
  pub events : List Event
  pub latest_seq : ℕ

pub record TenantList : Type 0 where
  pub tenants : List String
  pub scoped : Bool

-- The query of `list_items`.
pub record Browse : Type 0 where
  pub tier : Option String
  pub scope : Option String
  pub q : String
  pub limit : ℕ
  pub offset : ℕ

-- the tiers whose store has `include_global`
abbrev pub global_tiers : List Tier
global_tiers = semantic ∷ procedural ∷ []

-- `[_parse_tier(tier)] if tier else None`
abbrev pub selected_tiers : Python → Option String → Result (Option (List Tier))
selected_tiers py none = ok none
selected_tiers py (some name) =
    if is_empty name then ok none else bind (parse_tier py name) (λ t. ok (some (t ∷ [])))

abbrev pub selected_scope : Python → Option String → Result (Option Scope)
selected_scope py none = ok none
selected_scope py (some name) =
    if is_empty name then ok none else bind (parse_scope py name) (λ s. ok (some s))

-- `t for t in global_tiers if selected_tiers is None or t in selected_tiers`
abbrev pub allowed_global : Option (List Tier) → List Tier
allowed_global none = global_tiers
allowed_global (some selected) = filter (λ t. any (λ s. t == s) selected) global_tiers

unfoldable pub sum_counts : List (String × ℕ) → ℕ
sum_counts [] = 0
sum_counts (c ∷ cs) = c.1 + sum_counts cs

module _ (fl : Floats) (py : Python) (web : Web fl) where
  pub recent_item : String → ContextItem → Result RecentItem
  recent_item name item = bind (scope_name item.scope) (λ scope. ok (record {
    id = item.id;
    tier = name;
    scope = scope;
    content = item.content;
    provenance = item.provenance;
    created_at = web.to_json (created item);
    owner_id = item.owner_id;
    session_id = item.session_id;
  }))

  -- the loop over the tiers
  unfoldable pub recent_of :
      String → ℕ → List (String × Store) → Db → Result (List (String × ℕ) × List RecentItem)
  unfolding recent_item
  recent_of tenant limit [] db = ok ([], [])
  recent_of tenant limit ((name, store) ∷ stores) db =
      let n = Backend.count (store_tier store) (some tenant) (include_global store) db in
      bind
        (Backend.query (store_tier store) none none (some tenant) (include_global store)
          (some limit) db)
        (λ items. bind (traverse (recent_item name) items) (λ recent.
          bind (recent_of tenant limit stores db)
            (λ rest. ok ((name, n) ∷ rest.0, recent ++ rest.1))))

  -- `recent.sort(key=…, reverse=True)`, by the text of the time
  abbrev later_text : RecentItem → RecentItem → Bool
  later_text a b = text_before b.created_at a.created_at

  abbrev pub safe_limit : ℤ → ℕ
  safe_limit limit = max 1 (min (pos_part limit) 50)

  abbrev pub board : Principal → ℕ → List (String × ℕ) × List RecentItem → Runtime → Dashboard
  board p limit found rt = record {
    version = version;
    auth_enabled = enabled web.require_auth rt.db;
    identity = identity_payload p;
    counts = found.0;
    total_items = sum_counts found.0;
    recent_items = take limit (sort_by later_text found.1);
    latest_event_seq = rt.events.seq;
  }

  unfoldable pub health : Action Health
  health = sees (λ rt. record { version = version; auth_enabled = enabled web.require_auth rt.db })

  abbrev pub identity_of : Principal → Action WhoAmI
  identity_of p = sees (λ rt. record {
    identity = identity_payload p;
    auth_enabled = enabled web.require_auth rt.db;
  })

  unfoldable pub whoami : Option String → Action WhoAmI
  whoami authorization = as_principal fl py web anonymous none authorization identity_of

  -- A handler that goes on as an administrator.
  unfoldable pub as_admin :
      {A : Type 0} → Identity → Option String → (Principal → Action A) → Action A
  as_admin identity authorization handler =
      as_principal fl py web identity none authorization (λ p. value (require_admin p) >> handler p)

  abbrev pub dashboard_of : ℕ → Principal → Action Dashboard
  dashboard_of limit p = do
    found ← reads (recent_of p.tenant_id limit tiers)
    sees (board p limit found)

  unfoldable pub dashboard : Option String → Identity → ℤ → Action Dashboard
  dashboard authorization identity limit =
      as_admin identity authorization (dashboard_of (safe_limit limit))

  abbrev pub events_of : ℕ → ℕ → Principal → Action EventPage
  events_of after limit p = sees (λ rt. record {
    events = since after (some p.tenant_id) limit rt.events;
    latest_seq = rt.events.seq;
  })

  unfoldable pub list_events : Option String → Identity → ℕ → ℕ → Action EventPage
  list_events authorization identity after limit =
      as_admin identity authorization (events_of after limit)

  abbrev pub subtasks_of : Principal → Action (List (String × ℕ))
  subtasks_of p = sees (λ rt. Backend.list_subtasks (some p.tenant_id) rt.db)

  unfoldable pub list_subtasks : Option String → Identity → Action (List (String × ℕ))
  list_subtasks authorization identity = as_admin identity authorization subtasks_of

  abbrev pub tenants_of : Principal → Action TenantList
  tenants_of p = sees (λ rt.
      if enabled web.require_auth rt.db
      then record { tenants = p.tenant_id ∷ []; scoped = true }
      else record { tenants = Backend.list_tenants rt.db; scoped = false })

  unfoldable pub list_tenants : Option String → Action TenantList
  list_tenants authorization = as_principal fl py web anonymous none authorization tenants_of

  module _ (now : ℕ) where
    abbrev pub search_of : Principal → Browse → Option (List Tier) → Option Scope → Search
    search_of p browse selected scope = record {
      tenant_id = some p.tenant_id;
      global_tiers = allowed_global selected;
      tiers = selected;
      scope = scope;
      text = browse.q;
      owner_id = "";
      session_id = "";
      limit = browse.limit;
      offset = browse.offset;
    }

    abbrev pub page_payload : Principal → Browse → List StoredItem × ℕ → Result ItemPage
    page_payload p browse (page, total) =
        bind (traverse (λ stored. item_payload fl py web now stored p) page) (λ items. ok (record {
          items = items;
          total = total;
          limit = browse.limit;
          offset = browse.offset;
          identity = identity_payload p;
        }))

    abbrev pub items_of : Browse → Principal → Action ItemPage
    items_of browse p = do
      selected ← value (selected_tiers py browse.tier)
      scope ← value (selected_scope py browse.scope)
      found ← reads (search py web.like (search_of p browse selected scope))
      value (page_payload p browse found)

    unfoldable pub list_items : Option String → Identity → Browse → Action ItemPage
    list_items authorization identity browse = as_admin identity authorization (items_of browse)

    abbrev pub not_in_tenant : {A : Type 0} → String → Result A
    not_in_tenant item_id = err (http_exception 404 ("No item '" <> item_id <> "' in this tenant"))

    abbrev pub found_payload : String → Principal → Option StoredItem → Result ItemPayload
    found_payload item_id p none = not_in_tenant item_id
    found_payload item_id p (some stored) = item_payload fl py web now stored p

    abbrev pub item_of_tenant : String → Principal → Action ItemPayload
    item_of_tenant item_id p = do
      value (require_admin p)
      found ← reads (Backend.stored item_id (some p.tenant_id))
      value (found_payload item_id p found)

    unfoldable pub get_item : Option String → Identity → String → Action ItemPayload
    get_item authorization identity item_id =
        as_admin identity authorization (item_of_tenant item_id)
