-- ===== src/Rest/Access.antt =====
-- Who gets an answer from the REST gateway: a live key, and on seven routes one of an
-- administrator.
use trilith.Prelude.{ℕ, String, ◌≡◌, refl, ap, ◌⊎◌, inl, inr, true, false, Option, none}
use trilith.Exec.{ok, err, http_exception}
use trilith.Python.{Python}
use trilith.Floats.{Floats}
use trilith.Identity.{Principal, can, text_or_empty}
use trilith.Auth.{enabled}
use trilith.Auth.Resolve.{IsKeyPrincipal}
use trilith.Auth.Cases.{resolve-cases}
use trilith.Runtime.{Runtime, Action, continue}
use trilith.Rest.{Web, Identity, principal_for, as_principal, require_admin, unauthorized}
use trilith.Rest.Views.{
  as_admin, whoami, dashboard, list_items, get_item, list_subtasks, list_events, list_tenants,
}
use trilith.Rest.Items.{write, patch_item, remove_item}
use trilith.Rest.Pipeline.{assemble, forget, fold, purge}
use trilith.Rest.Serve as Serve
use trilith.Rest.Serve.{Request, serve, answer, authorization_of, is_open, asks_admin}

module _ (fl : Floats) (py : Python) (web : Web fl) (rt : Runtime)
    (on : enabled web.require_auth rt.db ≡ true) where
  -- A request goes on as the principal of a live key, or is answered 401.
  pub principal_for-cases :
      (i : Identity) (l a : Option String)
      → ((p : Principal) × (principal_for fl py web i l a rt ≡ (rt, ok p))
          × IsKeyPrincipal py a rt.db p)
        ⊎ ((s : String) × (principal_for fl py web i l a rt ≡ (rt, err (http_exception 401 s))))
  unfolding principal_for
  principal_for-cases i l a =
      elim (resolve-cases py web.require_auth a (text_or_empty i.tenant_id)
        (text_or_empty i.owner_id) (text_or_empty i.session_id) (text_or_empty l) rt.db on) [
          | inl (p, e, live) ↦ inl (p, ap (λ r. (rt, unauthorized r)) e, live)
          | inr (s, e) ↦ inr (s, ap (λ r. (rt, unauthorized r)) e)
        ]

  module _ (now : ℕ) where
    refused :
        {A : Type 0} (i : Identity) (l a : Option String) (k : Principal → Action A)
        → ((p : Principal) → ¬ IsKeyPrincipal py a rt.db p)
        → answer (as_principal fl py web i l a k rt) ≡ (rt, 401)
    unfolding as_principal
    refused i l a k n = elim (principal_for-cases i l a) [
      | inl (p, e, live) ↦ absurd (n p live)
      | inr (s, e) ↦ ap (λ x. answer (continue k x)) e
    ]

    -- Where auth is enabled, every route but the health check answers 401 and changes nothing
    -- unless the header carries the text of a stored key that is not revoked.
    pub serve-unauthorized :
        (r : Request)
        → is_open r ≡ false
        → ((p : Principal) → ¬ IsKeyPrincipal py (authorization_of r) rt.db p)
        → serve fl py web now r rt ≡ (rt, 401)
    unfolding serve whoami dashboard list_items get_item list_subtasks list_events list_tenants
        write patch_item remove_item assemble forget fold purge as_admin
    serve-unauthorized Serve.health o n = cc
    serve-unauthorized (Serve.whoami a) o n = refused _ _ a _ n
    serve-unauthorized (Serve.dashboard a i m) o n = refused _ _ a _ n
    serve-unauthorized (Serve.list_items a i b) o n = refused _ _ a _ n
    serve-unauthorized (Serve.get_item a i id) o n = refused _ _ a _ n
    serve-unauthorized (Serve.list_subtasks a i) o n = refused _ _ a _ n
    serve-unauthorized (Serve.list_events a i m k) o n = refused _ _ a _ n
    serve-unauthorized (Serve.list_tenants a) o n = refused _ _ a _ n
    serve-unauthorized (Serve.write a b) o n = refused _ _ a _ n
    serve-unauthorized (Serve.patch_item a id b) o n = refused _ _ a _ n
    serve-unauthorized (Serve.remove_item a i id) o n = refused _ _ a _ n
    serve-unauthorized (Serve.assemble a b) o n = refused _ _ a _ n
    serve-unauthorized (Serve.forget a i s) o n = refused _ _ a _ n
    serve-unauthorized (Serve.fold a i s) o n = refused _ _ a _ n
    serve-unauthorized (Serve.purge a i) o n = refused _ _ a _ n

    forbidden :
        {A : Type 0} (i : Identity) (a : Option String) (k : Principal → Action A)
        → ((p : Principal) → IsKeyPrincipal py a rt.db p → can p "tenant_admin" ≡ false)
        → (answer (as_admin fl py web i a k rt) ≡ (rt, 401))
          ⊎ (answer (as_admin fl py web i a k rt) ≡ (rt, 403))
    unfolding as_admin as_principal require_admin
    forbidden i a k n = elim (principal_for-cases i none a) [
      | inl (p, e, live) ↦ inr (rw e (rw (n p live) refl))
      | inr (s, e) ↦ inl (rw e refl)
    ]

    -- Where auth is enabled, the seven routes that call `require_admin` (the dashboard, the events,
    -- the sub-tasks, and the listing, reading, patching and removal of items) answer 401 or 403
    -- and change nothing unless the header carries a live key with tenant_admin.
    pub admin-forbidden :
        (r : Request)
        → asks_admin r ≡ true
        → ((p : Principal)
            → IsKeyPrincipal py (authorization_of r) rt.db p
            → can p "tenant_admin" ≡ false)
        → (serve fl py web now r rt ≡ (rt, 401)) ⊎ (serve fl py web now r rt ≡ (rt, 403))
    unfolding serve dashboard list_items get_item list_subtasks list_events patch_item remove_item
    admin-forbidden Serve.health c n = cc
    admin-forbidden (Serve.whoami a) c n = cc
    admin-forbidden (Serve.dashboard a i m) c n = forbidden i a _ n
    admin-forbidden (Serve.list_items a i b) c n = forbidden i a _ n
    admin-forbidden (Serve.get_item a i id) c n = forbidden i a _ n
    admin-forbidden (Serve.list_subtasks a i) c n = forbidden i a _ n
    admin-forbidden (Serve.list_events a i m k) c n = forbidden i a _ n
    admin-forbidden (Serve.list_tenants a) c n = cc
    admin-forbidden (Serve.write a b) c n = cc
    admin-forbidden (Serve.patch_item a id b) c n = forbidden _ a _ n
    admin-forbidden (Serve.remove_item a i id) c n = forbidden i a _ n
    admin-forbidden (Serve.assemble a b) c n = cc
    admin-forbidden (Serve.forget a i s) c n = cc
    admin-forbidden (Serve.fold a i s) c n = cc
    admin-forbidden (Serve.purge a i) c n = cc
