-- ===== src/Grpc.antt =====
-- core/grpc_servicer.py: the gRPC servicer over the same operations. A call answers with a status
-- and a message, and `context.abort` raises. Statuses are gRPC's numbers: 0 OK, 2 UNKNOWN, 3
-- INVALID_ARGUMENT, 7 PERMISSION_DENIED, 16 UNAUTHENTICATED.
pub mod Boundary
use trilith.Prelude.{
  ℕ, String, ◌<>◌, Bool, true, false, List, [], ◌∷◌, Option, none, some, is_empty, decimal,
  if◌then◌else◌, ◌==◌, string_eq,
}
use trilith.Prelude.Int.{ℤ, pos_part}
use trilith.Exec.{
  Error, Result, ok, err, value_error, key_error, permission_error, auth_error, integrity_error,
  http_exception, grpc_abort,
}
use trilith.Python.{Python}
use trilith.Floats.{Floats}
use trilith.Proto.{Tier, ContextItem, PrincipalPb, WriteAck, AssembledContext}
use trilith.Identity.{Principal, from_pb}
use trilith.Auth.{resolve}
use trilith.Runtime.{Runtime, Action, ◌>>=◌, return, reads}
use trilith.Ranking.{Governor}
use trilith.Governor.{BudgetArgument}
use trilith.Ops.{write_item}
use trilith.Ops.Removal.{forget_scope, purge_expired}
use trilith.Ops.Query.{query_items}
use trilith.Ops.Assemble.{assemble_context}
use trilith.Fold.{fold_subtask}

pub record WriteRequest : Type 0 where
  pub item : Option ContextItem
  pub principal : Option PrincipalPb

pub record QueryRequest : Type 0 where
  pub tier : Tier
  pub filter : String
  pub budget_tokens : ℤ
  pub scope : String
  pub principal : Option PrincipalPb

pub record AssembleRequest : Type 0 where
  pub task_description : String
  pub budget_tokens : BudgetArgument
  pub requester_scope : String
  pub principal : Option PrincipalPb

pub record ForgetRequest : Type 0 where
  pub scope : String
  pub principal : Option PrincipalPb

pub record FoldRequest : Type 0 where
  pub subtask_id : String
  pub principal : Option PrincipalPb

pub record ForgetAck : Type 0 where
  pub success : Bool
  pub message : String
  pub deleted_count : ℕ

pub record FoldResponse : Type 0 where
  pub success : Bool
  pub message : String
  pub item : Option ContextItem
  pub folded_count : ℕ

abbrev pub Metadata : Type 0
Metadata = List (String × String)

-- the first value under the key, whatever its case
unfoldable pub authorization : Python → Metadata → Option String
authorization py [] = none
authorization py ((key, value) ∷ rest) =
    let later = authorization py rest in
    if py.lower key == "authorization" then some value else later

-- An answer with the status set by `context.set_code`.
abbrev pub Reply : Type 0 → Type 0
Reply A = Action (ℕ × A)

-- `@gateway_errors`
abbrev pub mapped : {A : Type 0} → Result A → Result A
mapped (ok a) = ok a
mapped (err (permission_error s)) = err (grpc_abort 7 s)
mapped (err (value_error s)) = err (grpc_abort 3 s)
mapped (err (key_error s)) = err (key_error s)
mapped (err (auth_error s)) = err (auth_error s)
mapped (err (integrity_error s)) = err (integrity_error s)
mapped (err (http_exception status s)) = err (http_exception status s)
mapped (err (grpc_abort code s)) = err (grpc_abort code s)

abbrev pub mapped_state : {A : Type 0} → Runtime × Result A → Runtime × Result A
mapped_state (rt, r) = (rt, mapped r)

unfoldable pub gateway_errors : {A : Type 0} → Action A → Action A
gateway_errors m rt = mapped_state (m rt)

-- `except (ValueError, KeyError)` of `Query`: the status is set and the response is empty
abbrev pub invalid_query : Result (List ContextItem) → Result (ℕ × List ContextItem)
invalid_query (ok items) = ok (0, items)
invalid_query (err (value_error s)) = ok (3, [])
invalid_query (err (key_error s)) = ok (3, [])
invalid_query (err (permission_error s)) = err (permission_error s)
invalid_query (err (auth_error s)) = err (auth_error s)
invalid_query (err (integrity_error s)) = err (integrity_error s)
invalid_query (err (http_exception status s)) = err (http_exception status s)
invalid_query (err (grpc_abort code s)) = err (grpc_abort code s)

abbrev pub unauthenticated : Result Principal → Result Principal
unauthenticated (ok p) = ok p
unauthenticated (err (auth_error s)) = err (grpc_abort 16 s)
unauthenticated (err e) = err e

abbrev pub supplied_tenant : Option PrincipalPb → String
supplied_tenant none = ""
supplied_tenant (some pb) = pb.tenant_id

abbrev pub folded_response : String → Option ContextItem × ℕ → FoldResponse
folded_response subtask_id (none, n) = record {
  success = false;
  message = "No procedural steps found for subtask '" <> subtask_id <> "'";
  item = none;
  folded_count = 0;
}
folded_response subtask_id (some summary, n) = record {
  success = true;
  message = "Folded " <> decimal n <> " steps";
  item = some summary;
  folded_count = n;
}

module _ (fl : Floats) (py : Python) (require_auth : Bool) (g : Governor fl) (now : ℕ) where
  -- `_principal`
  unfoldable pub principal_of : Metadata → Option PrincipalPb → String → Action Principal
  principal_of metadata pb legacy_scope =
      let supplied = from_pb pb legacy_scope in
      reads (λ db. unauthenticated (
        resolve py require_auth (authorization py metadata) (supplied_tenant pb) supplied.owner_id
          supplied.session_id supplied.legacy_scope db))

  -- A call that goes on as the principal.
  unfoldable pub as_caller :
      {A : Type 0} → Metadata → Option PrincipalPb → String → (Principal → Action A) → Action A
  as_caller metadata pb legacy_scope handler = principal_of metadata pb legacy_scope >>= handler

  abbrev pub write_by : ContextItem → Principal → Reply WriteAck
  write_by item p = do ack ← write_item py now item (some p) none; return (0, ack)

  abbrev pub write_request : Metadata → Option PrincipalPb → Option ContextItem → Reply WriteAck
  write_request metadata pb none = return (3, record { success = false; message = "missing item" })
  write_request metadata pb (some item) = as_caller metadata pb "" (write_by item)

  unfoldable pub write : Metadata → WriteRequest → Reply WriteAck
  write metadata request = write_request metadata request.principal request.item

  abbrev pub query_by : QueryRequest → Principal → Reply (List ContextItem)
  query_by request p = reads (λ db. invalid_query (
      query_items fl g py now request.tier request.filter (pos_part request.budget_tokens)
        request.scope (some p) db))

  unfoldable pub query : Metadata → QueryRequest → Reply (List ContextItem)
  query metadata request = as_caller metadata request.principal request.scope (query_by request)

  abbrev pub assemble_by : AssembleRequest → Principal → Reply AssembledContext
  assemble_by request p = do
    context ← assemble_context fl py now g request.task_description request.budget_tokens (some p)
    return (0, context)

  unfoldable pub assemble : Metadata → AssembleRequest → Reply AssembledContext
  assemble metadata request =
      gateway_errors
        (as_caller metadata request.principal request.requester_scope (assemble_by request))

  abbrev pub forget_by : String → Principal → Reply ForgetAck
  forget_by scope p = do
    count ← forget_scope py now scope (some p)
    return (
      0,
      record {
        success = true;
        message = "Purged scope '" <> scope <> "' (episodic deleted=" <> decimal count <> ")";
        deleted_count = count;
      },
    )

  abbrev pub missing_scope : ForgetAck
  missing_scope = record { success = false; message = "missing scope"; deleted_count = 0 }

  unfoldable pub forget : Metadata → ForgetRequest → Reply ForgetAck
  forget metadata request = gateway_errors (
      if is_empty request.scope
      then return (3, missing_scope)
      else as_caller metadata request.principal "" (forget_by request.scope))

  abbrev pub missing_subtask : FoldResponse
  missing_subtask = record {
    success = false;
    message = "missing subtask_id";
    item = none;
    folded_count = 0;
  }

  abbrev pub fold_by : String → Principal → Reply FoldResponse
  fold_by subtask_id p = do
    done ← fold_subtask py now subtask_id (some p)
    return (0, folded_response subtask_id done)

  unfoldable pub fold : Metadata → FoldRequest → Reply FoldResponse
  fold metadata request = gateway_errors (
      if is_empty request.subtask_id
      then return (3, missing_subtask)
      else as_caller metadata request.principal "" (fold_by request.subtask_id))

  abbrev pub purge_by : Principal → Reply ℕ
  purge_by p = do deleted ← purge_expired now (some p); return (0, deleted)

  unfoldable pub purge : Metadata → Option PrincipalPb → Reply ℕ
  purge metadata pb = gateway_errors (as_caller metadata pb "" purge_by)

-- The methods of the service.
pub data Call : Type 0 where
  write_call : WriteRequest → Call
  query_call : QueryRequest → Call
  assemble_call : AssembleRequest → Call
  forget_call : ForgetRequest → Call
  fold_call : FoldRequest → Call
  purge_call : Option PrincipalPb → Call

abbrev pub abort_status : Error → ℕ
abort_status (grpc_abort code s) = code
abort_status e = 2

abbrev pub settled : {A : Type 0} → Runtime × Result (ℕ × A) → Runtime × ℕ
settled (rt, ok (code, a)) = (rt, code)
settled (rt, err e) = (rt, abort_status e)

-- The runtime after a call, and its status.
unfoldable pub serve_call :
    (fl : Floats) → Python → Bool → Governor fl → ℕ → Metadata → Call → Runtime → Runtime × ℕ
serve_call fl py require_auth g now metadata (write_call r) rt =
    settled (write fl py require_auth g now metadata r rt)
serve_call fl py require_auth g now metadata (query_call r) rt =
    settled (query fl py require_auth g now metadata r rt)
serve_call fl py require_auth g now metadata (assemble_call r) rt =
    settled (assemble fl py require_auth g now metadata r rt)
serve_call fl py require_auth g now metadata (forget_call r) rt =
    settled (forget fl py require_auth g now metadata r rt)
serve_call fl py require_auth g now metadata (fold_call r) rt =
    settled (fold fl py require_auth g now metadata r rt)
serve_call fl py require_auth g now metadata (purge_call pb) rt =
    settled (purge fl py require_auth g now metadata pb rt)
