-- ===== src/Identity.antt =====
-- core/identity.py: who is asking. The proofs are in the module below.
pub mod Stamp
use trilith.Prelude.{
  String, ◌<>◌, Bool, false, ◌&&◌, List, [], Option, none, some, strip, or_text, is_empty,
  if◌then◌else◌, ◌==◌, string_eq, any,
}
use trilith.Proto.{ContextItem, PrincipalPb}

abbrev pub default_tenant : String
default_tenant = "default"

-- `x or ""` of an optional text
abbrev pub text_or_empty : Option String → String
text_or_empty none = ""
text_or_empty (some s) = s

-- Empty, blank or missing means the default tenant.
unfoldable pub normalize_tenant : Option String → String
normalize_tenant tenant_id = or_text (strip (text_or_empty tenant_id)) default_tenant

pub record Principal : Type 0 where
  pub tenant_id : String
  pub owner_id : String
  pub session_id : String
  pub legacy_scope : String
  pub capabilities : List String
  pub authenticated : Bool

-- `Principal(…)`: the dataclass constructor with its `__post_init__`.
unfoldable pub new_principal : String → String → String → String → List String → Bool → Principal
new_principal tenant_id owner_id session_id legacy_scope capabilities authenticated = record {
  tenant_id = normalize_tenant (some tenant_id);
  owner_id = strip owner_id;
  session_id = strip session_id;
  legacy_scope = strip legacy_scope;
  capabilities = capabilities;
  authenticated = authenticated;
}

-- `Principal()` and `Principal(legacy_scope=scope)`
unfoldable pub legacy_principal : String → Principal
legacy_principal scope = new_principal default_tenant "" "" scope [] false

-- `self.can(capability)`
unfoldable pub can : Principal → String → Bool
can p capability = any (λ c. c == capability) p.capabilities

pub is_legacy : Principal → Bool
is_legacy p = is_empty p.owner_id && is_empty p.session_id

-- `Principal.from_pb(pb, legacy_scope)`
unfoldable pub from_pb : Option PrincipalPb → String → Principal
from_pb none legacy_scope = legacy_principal legacy_scope
from_pb (some pb) legacy_scope =
    new_principal pb.tenant_id pb.owner_id pb.session_id (or_text pb.requester_scope legacy_scope)
      [] false

unfoldable pub to_pb : Principal → PrincipalPb
to_pb p = record {
  tenant_id = p.tenant_id;
  owner_id = p.owner_id;
  session_id = p.session_id;
  requester_scope = p.legacy_scope;
}

-- The tenant is overwritten; blank owner and session are filled in.
unfoldable pub stamp : Principal → ContextItem → ContextItem
stamp p item = record item {
  tenant_id = p.tenant_id;
  owner_id = or_text item.owner_id p.owner_id;
  session_id = or_text item.session_id p.session_id;
}

-- `f" {label}={value}"` where the value is not empty
part : String → String → String
part label value = if is_empty value then "" else " " <> label <> "=" <> value

unfoldable pub describe : Principal → String
unfolding part
describe p =
    "tenant="
    <> p.tenant_id
    <> part "owner" p.owner_id
    <> part "session" p.session_id
    <> part "scope" p.legacy_scope
