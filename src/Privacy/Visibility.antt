-- ===== src/Privacy/Visibility.antt =====
-- The policy decides a declarative relation: who may see which item.
use text.Mathlib.TextEquality.{eq_iff}
use trilith.Prelude.{ℕ, String, ◌≡◌, ◌↔◌, ◌⊎◌, true, false, is_empty, arith, ◌==◌, string_eq, some}
use trilith.Proto.{ContextItem, Scope, user, tenant, session, global, scope_name}
use trilith.Identity.{Principal, normalize_tenant}
use trilith.Python.{Python}
use trilith.Privacy.{
  name_or_unspecified, check_visibility, unowned, check_user, check_session, check_scope, explain,
  expired,
}

abbrev pub SameTenant : ContextItem → Principal → Type 0
SameTenant item p = normalize_tenant (some item.tenant_id) ≡ p.tenant_id

module _ (py : Python) where
  -- An item that names no one to narrow to: any identified caller that no key binds, or an
  -- anonymous one whose scope text is the item's scope name.
  abbrev pub MatchesUnbound : String → Principal → Type 0
  MatchesUnbound name p =
      (p.authenticated ≡ false)
      × ((is_empty p.owner_id ≡ false)
          ⊎ (is_empty p.session_id ≡ false)
          ⊎ ((is_empty p.legacy_scope ≡ false) × (py.lower name ≡ py.lower p.legacy_scope)))

  abbrev pub MatchesOwner : ContextItem → Principal → Type 0
  MatchesOwner item p =
      ((is_empty item.owner_id ≡ false) × (item.owner_id ≡ p.owner_id))
      ⊎ ((is_empty item.owner_id ≡ true) × MatchesUnbound "USER" p)

  abbrev pub MatchesSession : ContextItem → Principal → Type 0
  MatchesSession item p =
      ((is_empty item.session_id ≡ false)
        × (item.session_id ≡ p.session_id)
        × ((is_empty item.owner_id ≡ true) ⊎ (item.owner_id ≡ p.owner_id)))
      ⊎ ((is_empty item.session_id ≡ true) × MatchesUnbound "SESSION" p)

  -- Who may see an item, apart from its expiry.
  abbrev pub Visible : ContextItem → Principal → Type 0
  Visible item p =
      (item.scope ≡ global)
      ⊎ (SameTenant item p
          × ((item.scope ≡ tenant)
              ⊎ ((item.scope ≡ user) × MatchesOwner item p)
              ⊎ ((item.scope ≡ session) × MatchesSession item p)))

  unowned_iff :
      (name : String) (p : Principal) → ((unowned py name p).0 ≡ true) ↔ MatchesUnbound name p
  unfolding unowned
  unowned_iff name p = ground (arith, eq_iff (py.lower name) (py.lower p.legacy_scope))

  check_user_iff :
      (item : ContextItem) (p : Principal) → ((check_user py item p).0 ≡ true) ↔ MatchesOwner item p
  unfolding check_user
  check_user_iff item p = ground (arith, unowned_iff "USER" p, eq_iff item.owner_id p.owner_id)

  check_session_iff :
      (item : ContextItem) (p : Principal)
      → ((check_session py item p).0 ≡ true) ↔ MatchesSession item p
  unfolding check_session
  check_session_iff item p = ground (
    arith,
    unowned_iff "SESSION" p,
    eq_iff item.owner_id p.owner_id,
    eq_iff item.session_id p.session_id,
  )

  -- The decision behind the tenant boundary, by the scope.
  check_scope_iff :
      (s : Scope) (item : ContextItem) (p : Principal)
      → ((check_scope py (name_or_unspecified (scope_name s)) item p).0 ≡ true) ↔ (
          (s ≡ tenant)
          ⊎ ((s ≡ user) × MatchesOwner item p)
          ⊎ ((s ≡ session) × MatchesSession item p))
  unfolding check_scope scope_name
  check_scope_iff user item p = ground (arith, check_user_iff item p)
  check_scope_iff session item p = ground (arith, check_session_iff item p)
  check_scope_iff s item p = ground arith

  name-global_iff :
      (s : Scope) → ((name_or_unspecified (scope_name s) == "GLOBAL") ≡ true) ↔ (s ≡ global)
  unfolding scope_name
  name-global_iff global = ground arith
  name-global_iff s = ground arith

  -- The policy lets through exactly the items that the principal may see.
  pub check_visibility_iff :
      (item : ContextItem) (p : Principal)
      → ((check_visibility py item p).0 ≡ true) ↔ Visible item p
  unfolding check_visibility
  check_visibility_iff item p = ground (
    arith,
    check_scope_iff item.scope item p,
    name-global_iff item.scope,
    eq_iff (normalize_tenant (some item.tenant_id)) p.tenant_id,
  )

  pub explain_iff :
      (item : ContextItem) (p : Principal) (now : ℕ)
      → ((explain py item p now).0 ≡ true)
        ↔ ((expired item.expires_at now ≡ false) × Visible item p)
  unfolding explain
  explain_iff item p now = ground (arith, check_visibility_iff item p)
