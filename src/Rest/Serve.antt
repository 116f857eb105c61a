-- ===== src/Rest/Serve.antt =====
-- The requests that the app of core/rest_app.py routes, and the status of each answer.
use trilith.Prelude.{ℕ, String, Bool, true, false, Option, none}
use trilith.Prelude.Int.{ℤ}
use trilith.Exec.{
  Error, Result, ok, err, value_error, key_error, permission_error, auth_error, integrity_error,
  http_exception, grpc_abort,
}
use trilith.Python.{Python}
use trilith.Floats.{Floats}
use trilith.Runtime.{Runtime}
use trilith.Rest.{Web, Identity}
use trilith.Rest.Views as Views
use trilith.Rest.Views.{Browse, anonymous}
use trilith.Rest.Items as Items
use trilith.Rest.Items.{WriteBody, ItemPatch}
use trilith.Rest.Pipeline as Pipeline
use trilith.Rest.Pipeline.{AssembleBody}

-- A route with its `Authorization` header, its identity or body, and its other arguments.
pub data Request : Type 0 where
  health : Request
  whoami : Option String → Request
  dashboard : Option String → Identity → ℤ → Request
  list_items : Option String → Identity → Browse → Request
  get_item : Option String → Identity → String → Request
  list_subtasks : Option String → Identity → Request
  list_events : Option String → Identity → ℕ → ℕ → Request
  list_tenants : Option String → Request
  write : Option String → WriteBody → Request
  patch_item : Option String → String → ItemPatch → Request
  remove_item : Option String → Identity → String → Request
  assemble : Option String → AssembleBody → Request
  forget : Option String → Identity → String → Request
  fold : Option String → Identity → String → Request
  purge : Option String → Identity → Request

abbrev pub authorization_of : Request → Option String
authorization_of health = none
authorization_of (whoami a) = a
authorization_of (dashboard a i n) = a
authorization_of (list_items a i b) = a
authorization_of (get_item a i id) = a
authorization_of (list_subtasks a i) = a
authorization_of (list_events a i n m) = a
authorization_of (list_tenants a) = a
authorization_of (write a b) = a
authorization_of (patch_item a id b) = a
authorization_of (remove_item a i id) = a
authorization_of (assemble a b) = a
authorization_of (forget a i s) = a
authorization_of (fold a i s) = a
authorization_of (purge a i) = a

-- The routes that answer without a principal.
abbrev pub is_open : Request → Bool
is_open health = true
is_open (whoami a) = false
is_open r = false

-- The seven routes whose handlers call `require_admin`. The console also reads `whoami` and the
-- tenants, which any key may.
abbrev pub asks_admin : Request → Bool
asks_admin (dashboard a i n) = true
asks_admin (list_items a i b) = true
asks_admin (get_item a i id) = true
asks_admin (list_subtasks a i) = true
asks_admin (list_events a i n m) = true
asks_admin (patch_item a id b) = true
asks_admin (remove_item a i id) = true
asks_admin r = false

-- A PermissionError is answered by the app's handler, and what nothing handles is a server error.
abbrev pub error_status : Error → ℕ
error_status (http_exception status detail) = status
error_status (permission_error s) = 403
error_status (value_error s) = 500
error_status (key_error s) = 500
error_status (auth_error s) = 500
error_status (integrity_error s) = 500
error_status (grpc_abort code s) = 500

abbrev pub answer : {A : Type 0} → Runtime × Result A → Runtime × ℕ
answer (rt, ok a) = (rt, 200)
answer (rt, err e) = (rt, error_status e)

module _ (fl : Floats) (py : Python) (web : Web fl) (now : ℕ) where
  -- The runtime after a request, and the status of the answer.
  unfoldable pub serve : Request → Runtime → Runtime × ℕ
  serve health rt = answer (Views.health fl py web rt)
  serve (whoami a) rt = answer (Views.whoami fl py web a rt)
  serve (dashboard a i n) rt = answer (Views.dashboard fl py web a i n rt)
  serve (list_items a i b) rt = answer (Views.list_items fl py web now a i b rt)
  serve (get_item a i id) rt = answer (Views.get_item fl py web now a i id rt)
  serve (list_subtasks a i) rt = answer (Views.list_subtasks fl py web a i rt)
  serve (list_events a i n m) rt = answer (Views.list_events fl py web a i n m rt)
  serve (list_tenants a) rt = answer (Views.list_tenants fl py web a rt)
  serve (write a b) rt = answer (Items.write fl py web now a b rt)
  serve (patch_item a id b) rt = answer (Items.patch_item fl py web now a id b rt)
  serve (remove_item a i id) rt = answer (Items.remove_item fl py web now a i id rt)
  serve (assemble a b) rt = answer (Pipeline.assemble fl py web now a b rt)
  serve (forget a i s) rt = answer (Pipeline.forget fl py web now a i s rt)
  serve (fold a i s) rt = answer (Pipeline.fold fl py web now a i s rt)
  serve (purge a i) rt = answer (Pipeline.purge fl py web now a i rt)
