-- ===== src/Rest/Boundary.antt =====
-- What a request can change through the REST gateway: its own tenant.
use trilith.Prelude.{ℕ, String, ◌≡◌, ◌≢◌, inl, inr, true, Option, none, some}
use trilith.Exec.{Result, ok, err}
use trilith.Python.{Python}
use trilith.Floats.{Floats}
use trilith.Identity.{Principal}
use trilith.Database.{Db}
use trilith.Database.Confined.{Confined, Confined-refl}
use trilith.Auth.{enabled}
use trilith.Runtime.{Runtime, Action, ◌>>◌, value}
use trilith.Runtime.Keeps.{Keeps}
use trilith.Ops.Removal.{purge_expired}
use trilith.Ops.Steps.{IsNormal}
use trilith.Ops.Steps.Removal.{purge_expired-Holds}
use trilith.Rest.{Web, Identity, as_principal, require_admin}
use trilith.Rest.Access.{principal_for-cases}
use trilith.Rest.Views as Views
use trilith.Rest.Views.{as_admin, Browse}
use trilith.Rest.Items as Items
use trilith.Rest.Items.{Edit, ItemPatch}
use trilith.Rest.Pipeline as Pipeline
use trilith.Rest.Serve as Serve
use trilith.Rest.Serve.{Request, serve, answer, authorization_of}
use trilith.Ops.Confinement.{OwnOnly, OwnOnly-others}
use trilith.Auth.Cases.{IsForeign, IsForeign-tenant, key_principal-tenant}
use trilith.Rest.Handlers.{
  own, write-Own, remove-Own, patch-Own, assemble-Own, forget-Own, fold-Own, sees-Own,
  dashboard-Own, list_items-Own, get_item-Own, admin-Own,
}

answered :
    {A : Type 0} (R : Db → Db → Type 0) (db : Db) (x : Runtime × Result A)
    → R db x.0.db
    → R db (answer x).0.db
answered R db (rt, ok a) h = h
answered R db (rt, err e) h = h

module _ (fl : Floats) (py : Python) (web : Web fl) (now : ℕ) where
  module _ (t : String) (rt : Runtime) (on : enabled web.require_auth rt.db ≡ true) where
    abbrev Others : Db → Db → Type 0
    Others = Confined (λ u. u ≢ t)

    as_principal-Others :
        {A : Type 0} (i : Identity) (l a : Option String) (k : Principal → Action A)
        → IsForeign py rt.db.api_keys t a
        → ((p : Principal) → IsNormal (some p) → Keeps (OwnOnly p) (k p))
        → Others rt.db (answer (as_principal fl py web i l a k rt)).0.db
    unfolding as_principal
    as_principal-Others i l a k foreign keeps =
        answered Others rt.db (as_principal fl py web i l a k rt)
          (elim (principal_for-cases fl py web rt on i l a) [
            | inl (p, e, live) ↦ rw e (
                OwnOnly-others p t rt.db (k p rt).0.db
                  (IsForeign-tenant py t a rt.db p foreign live)
                  ((keeps p (key_principal-tenant py a rt.db p live)).related rt))
            | inr (s, e) ↦ rw e (Confined-refl (λ u. u ≢ t) rt.db)
          ])

    as_admin-Others :
        {A : Type 0} (i : Identity) (a : Option String) (k : Principal → Action A)
        → IsForeign py rt.db.api_keys t a
        → ((p : Principal) → IsNormal (some p) → Keeps (OwnOnly p) (k p))
        → Others rt.db (answer (as_admin fl py web i a k rt)).0.db
    unfolding as_admin
    as_admin-Others i a k foreign keeps =
        as_principal-Others i none a (λ p. value (require_admin p) >> k p) foreign
          (λ p n. admin-Own fl py web now p n (k p) (keeps p n))

    -- One request leaves the tenant as it was.
    pub serve-Others :
        (r : Request)
        → IsForeign py rt.db.api_keys t (authorization_of r)
        → Others rt.db (serve fl py web now r rt).0.db
    unfolding serve Views.health Views.whoami Views.dashboard Views.list_items Views.get_item
        Views.list_subtasks Views.list_events Views.list_tenants Items.write Items.patch_item
        Items.remove_item Pipeline.assemble Pipeline.forget Pipeline.fold Pipeline.purge
    serve-Others Serve.health f = Confined-refl (λ u. u ≢ t) rt.db
    serve-Others (Serve.whoami a) f =
        as_principal-Others _ _ a (Views.identity_of fl py web) f
          (λ p n. sees-Own fl py web now p n _)
    serve-Others (Serve.dashboard a i m) f =
        as_admin-Others i a (Views.dashboard_of fl py web (Views.safe_limit fl py web m)) f
          (λ p n. dashboard-Own fl py web now p n (Views.safe_limit fl py web m))
    serve-Others (Serve.list_items a i b) f =
        as_admin-Others i a (Views.items_of fl py web now b) f
          (λ p n. list_items-Own fl py web now p n b)
    serve-Others (Serve.get_item a i id) f =
        as_admin-Others i a (Views.item_of_tenant fl py web now id) f
          (λ p n. get_item-Own fl py web now p n id)
    serve-Others (Serve.list_subtasks a i) f =
        as_admin-Others i a (Views.subtasks_of fl py web) f (λ p n. sees-Own fl py web now p n _)
    serve-Others (Serve.list_events a i m k) f =
        as_admin-Others i a (Views.events_of fl py web m k) f (λ p n. sees-Own fl py web now p n _)
    serve-Others (Serve.list_tenants a) f =
        as_principal-Others _ _ a (Views.tenants_of fl py web) f
          (λ p n. sees-Own fl py web now p n _)
    serve-Others (Serve.write a b) f =
        as_principal-Others _ _ a (Items.write_as fl py web now b) f
          (λ p n. write-Own fl py web now p n b)
    serve-Others (Serve.patch_item a id b) f =
        as_admin-Others _ a (Items.patch_as fl py web now id b) f
          (λ p n. patch-Own fl py web now p n id b)
    serve-Others (Serve.remove_item a i id) f =
        as_admin-Others i a (Items.remove_as fl py web now id) f
          (λ p n. remove-Own fl py web now p n id)
    serve-Others (Serve.assemble a b) f =
        as_principal-Others _ _ a (Pipeline.assemble_as fl py web now b) f
          (λ p n. assemble-Own fl py web now p n b)
    serve-Others (Serve.forget a i s) f =
        as_principal-Others _ _ a (Pipeline.forget_as fl py web now s) f
          (λ p n. forget-Own fl py web now p n s)
    serve-Others (Serve.fold a i s) f =
        as_principal-Others _ _ a (Pipeline.fold_as fl py web now s) f
          (λ p n. fold-Own fl py web now p n s)
    serve-Others (Serve.purge a i) f =
        as_principal-Others _ _ a (λ p. purge_expired now (some p)) f
          (λ p n. purge_expired-Holds py now (some p) n (OwnOnly p) (own fl py web now p n))
