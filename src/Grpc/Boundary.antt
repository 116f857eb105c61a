-- ===== src/Grpc/Boundary.antt =====
-- What a call can change through the gRPC servicer: its own tenant.
use trilith.Prelude.{
  ℕ, String, ◌≡◌, ◌≢◌, ap, ◌⊎◌, inl, inr, Bool, Bool-cases, true, Option, none, some, is_empty,
  if◌then◌else◌,
}
use trilith.Exec.{Result, ok, err, grpc_abort}
use trilith.Python.{Python}
use trilith.Floats.{Floats}
use trilith.Proto.{ContextItem, PrincipalPb}
use trilith.Identity.{Principal, from_pb}
use trilith.Database.{Db}
use trilith.Database.Confined.{Confined, Confined-refl}
use trilith.Auth.{enabled}
use trilith.Auth.Resolve.{IsKeyPrincipal}
use trilith.Auth.Cases.{resolve-cases, IsForeign, IsForeign-tenant, key_principal-tenant}
use trilith.Runtime.{Runtime, Action, return}
use trilith.Runtime.Keeps.{Keeps}
use trilith.Ranking.{Governor}
use trilith.Ops.{write_item}
use trilith.Ops.Removal.{forget_scope, purge_expired}
use trilith.Ops.Assemble.{assemble_context}
use trilith.Ops.Confinement.{OwnOnly, OwnOnly-others, link-Confined}
use trilith.Ops.Session.{Confined-steps}
use trilith.Ops.Steps.{IsNormal, Owns, Steps, and_then, return-Holds}
use trilith.Ops.Steps.Writing.{write_item-Holds}
use trilith.Ops.Steps.Removal.{forget_scope-Holds, purge_expired-Holds}
use trilith.Ops.Steps.Reading.{assemble_context-Holds}
use trilith.Ops.Steps.Folding.{fold_subtask-Holds}
use trilith.Fold.{fold_subtask}
use trilith.Grpc.{
  Metadata, Call, QueryRequest, AssembleRequest, write_call, query_call, assemble_call, forget_call,
  fold_call, purge_call, authorization, supplied_tenant, unauthenticated, principal_of, as_caller,
  gateway_errors, settled, serve_call, write, write_request, write_by, query, query_by, assemble,
  assemble_by, forget, forget_by, fold, fold_by, purge, purge_by, missing_scope, missing_subtask,
}

settled-related :
    {A : Type 0} (R : Db → Db → Type 0) (db : Db) (x : Runtime × Result (ℕ × A))
    → R db x.0.db
    → R db (settled x).0.db
settled-related R db (rt, ok (code, a)) h = h
settled-related R db (rt, err e) h = h

module _ (fl : Floats) (py : Python) (require_auth : Bool) (g : Governor fl) (now : ℕ) where
  module _ (p : Principal) (normal : IsNormal (some p)) where
    own : Steps py now (some p) (OwnOnly p)
    own = Confined-steps py now p normal

    write-Own : (item : ContextItem) → Keeps (OwnOnly p) (write_by fl py require_auth g now item p)
    write-Own item =
        and_then own (write_item py now item (some p) none) _
          (write_item-Holds py now (some p) normal (OwnOnly p) own item none)
          (λ ack. return-Holds own (0, ack))

    assemble-Own :
        (r : AssembleRequest) → Keeps (OwnOnly p) (assemble_by fl py require_auth g now r p)
    assemble-Own r =
        and_then own (assemble_context fl py now g r.task_description r.budget_tokens (some p)) _
          (assemble_context-Holds fl own own g r.task_description r.budget_tokens)
          (λ context. return-Holds own (0, context))

    forget-Own : (scope : String) → Keeps (OwnOnly p) (forget_by fl py require_auth g now scope p)
    forget-Own scope =
        and_then own (forget_scope py now scope (some p)) _
          (forget_scope-Holds py now (some p) normal (OwnOnly p) own scope)
          (λ count. return-Holds own _)

    fold-Own : (id : String) → Keeps (OwnOnly p) (fold_by fl py require_auth g now id p)
    fold-Own id =
        and_then own (fold_subtask py now id (some p)) _
          (fold_subtask-Holds normal own (λ e db o. link-Confined (Owns (some p)) e db) id)
          (λ done. return-Holds own _)

    purge-Own : Keeps (OwnOnly p) (purge_by fl py require_auth g now p)
    purge-Own =
        and_then own (purge_expired now (some p)) _
          (purge_expired-Holds py now (some p) normal (OwnOnly p) own)
          (λ deleted. return-Holds own (0, deleted))

    query-Own : (r : QueryRequest) → Keeps (OwnOnly p) (query_by fl py require_auth g now r p)
    query-Own r = record { related = λ rt. own.same rt.db }

  module _ (t : String) (metadata : Metadata) (rt : Runtime)
      (on : enabled require_auth rt.db ≡ true)
      (foreign : IsForeign py rt.db.api_keys t (authorization py metadata)) where
    principal_of-cases :
        (pb : Option PrincipalPb) (legacy : String)
        → ((p : Principal) × (principal_of fl py require_auth g now metadata pb legacy rt
              ≡ (rt, ok p))
            × IsKeyPrincipal py (authorization py metadata) rt.db p)
          ⊎ ((s : String) × (principal_of fl py require_auth g now metadata pb legacy rt
                ≡ (rt, err (grpc_abort 16 s))))
    unfolding principal_of
    principal_of-cases pb legacy =
        let supplied = from_pb pb legacy in
        elim (resolve-cases py require_auth (authorization py metadata) (supplied_tenant pb)
          supplied.owner_id supplied.session_id supplied.legacy_scope rt.db on) [
            | inl (p, e, live) ↦ inl (p, ap (λ r. (rt, unauthenticated r)) e, live)
            | inr (s, e) ↦ inr (s, ap (λ r. (rt, unauthenticated r)) e)
          ]

    as_caller-Others :
        {A : Type 0} (pb : Option PrincipalPb) (legacy : String) (k : Principal → Action A)
        → ((p : Principal) → IsNormal (some p) → Keeps (OwnOnly p) (k p))
        → Confined
            (λ u. u ≢ t)
            rt.db
            (as_caller fl py require_auth g now metadata pb legacy k rt).0.db
    unfolding as_caller
    as_caller-Others pb legacy k keeps = elim (principal_of-cases pb legacy) [
      | inl (p, e, live) ↦ rw e (
          OwnOnly-others p t rt.db (k p rt).0.db
            (IsForeign-tenant py t (authorization py metadata) rt.db p foreign live)
            ((keeps p (key_principal-tenant py (authorization py metadata) rt.db p live)).related
              rt))
      | inr (s, e) ↦ rw e (Confined-refl (λ u. u ≢ t) rt.db)
    ]

    unless_empty :
        {A : Type 0} (s : String) (a : ℕ × A) (m : Action (ℕ × A))
        → Confined (λ u. u ≢ t) rt.db (m rt).0.db
        → Confined (λ u. u ≢ t) rt.db ((if is_empty s then return a else m) rt).0.db
    unless_empty s a m h = elim (Bool-cases (is_empty s)) [
      | inl e ↦ rw e (Confined-refl (λ u. u ≢ t) rt.db)
      | inr e ↦ rw e h
    ]

    write_request-Others :
        (pb : Option PrincipalPb) (item : Option ContextItem)
        → Confined
            (λ u. u ≢ t)
            rt.db
            (write_request fl py require_auth g now metadata pb item rt).0.db
    write_request-Others pb none = Confined-refl (λ u. u ≢ t) rt.db
    write_request-Others pb (some item) =
        as_caller-Others pb "" (write_by fl py require_auth g now item) (λ p n. write-Own p n item)

    -- One call leaves the tenant as it was.
    pub serve_call-Others :
        (c : Call)
        → Confined (λ u. u ≢ t) rt.db (serve_call fl py require_auth g now metadata c rt).0.db
    unfolding serve_call write query assemble forget fold purge gateway_errors
    serve_call-Others (write_call r) =
        settled-related (Confined (λ u. u ≢ t)) rt.db _ (write_request-Others r.principal r.item)
    serve_call-Others (query_call r) = settled-related (Confined (λ u. u ≢ t)) rt.db _ (
        as_caller-Others r.principal r.scope (query_by fl py require_auth g now r)
          (λ p n. query-Own p n r))
    serve_call-Others (assemble_call r) = settled-related (Confined (λ u. u ≢ t)) rt.db _ (
        as_caller-Others r.principal r.requester_scope (assemble_by fl py require_auth g now r)
          (λ p n. assemble-Own p n r))
    serve_call-Others (forget_call r) = settled-related (Confined (λ u. u ≢ t)) rt.db _ (
        unless_empty r.scope (3, missing_scope fl py require_auth g now) _
          (as_caller-Others r.principal "" (forget_by fl py require_auth g now r.scope)
            (λ p n. forget-Own p n r.scope)))
    serve_call-Others (fold_call r) = settled-related (Confined (λ u. u ≢ t)) rt.db _ (
        unless_empty r.subtask_id (3, missing_subtask fl py require_auth g now) _
          (as_caller-Others r.principal "" (fold_by fl py require_auth g now r.subtask_id)
            (λ p n. fold-Own p n r.subtask_id)))
    serve_call-Others (purge_call pb) =
        settled-related (Confined (λ u. u ≢ t)) rt.db _
          (as_caller-Others pb "" (purge_by fl py require_auth g now) purge-Own)
