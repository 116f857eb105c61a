-- ===== src/Privacy.antt =====
-- core/privacy.py: the policy engine. Times are exact nanoseconds since the epoch.
pub mod Isolation
pub mod Visibility
use trilith.Prelude.{
  ℕ, ◌+◌, ◌*◌, String, ◌<>◌, Bool, true, false, ◌&&◌, ◌||◌, List, [], ◌∷◌, Option, none, some,
  or_text, is_empty, decimal, leb, if◌then◌else◌, ◌==◌, string_eq, not,
}
use trilith.Exec.{Result, ok, err}
use trilith.Proto.{ContextItem, Timestamp, Scope, scope_name}
use trilith.Identity.{Principal, legacy_principal, normalize_tenant}
use trilith.Python.{Python}

-- A decision, and the reason where it is a denial.
abbrev pub Verdict : Type 0
Verdict = Bool × String

abbrev allowed : Verdict
allowed = (true, "")

abbrev denied : String → Verdict
denied reason = (false, reason)

-- `_scope_name`: a value with no name reads as unspecified.
abbrev name_or_unspecified : Result String → String
name_or_unspecified (ok name) = name
name_or_unspecified (err e) = "SCOPE_UNSPECIFIED"

pub policy_scope_name : ContextItem → String
unfolding scope_name
policy_scope_name item = name_or_unspecified (scope_name item.scope)

abbrev pub nanoseconds : Timestamp → ℕ
nanoseconds t = t.seconds * 1000000000 + t.nanos

abbrev pub expired : Option Timestamp → ℕ → Bool
expired none now = false
expired (some t) now = leb (nanoseconds t) now

abbrev or_none_text : String → String
or_none_text s = or_text s "(none)"

module _ (py : Python) where
  legacy_match : String → Principal → Verdict
  legacy_match name p =
      if not (is_empty p.legacy_scope) && py.lower name == py.lower p.legacy_scope
      then allowed
      else denied (
          "Scope mismatch: item scope is '" <> name <> "' but requester is '" <> p.legacy_scope
          <> "'")

  unowned : String → Principal → Verdict
  unfolding legacy_match
  unowned name p =
      if p.authenticated
      then denied "Legacy item lacks bound scope identity"
      else if not (is_empty p.owner_id) || not (is_empty p.session_id)
      then allowed
      else legacy_match name p

  -- the branch `scope_name == "USER"`
  check_user : ContextItem → Principal → Verdict
  unfolding unowned
  check_user item p =
      if is_empty item.owner_id
      then unowned "USER" p
      else if item.owner_id == p.owner_id
      then allowed
      else denied (
          "Owner mismatch: item belongs to owner '"
          <> item.owner_id
          <> "', requester is '"
          <> or_none_text p.owner_id
          <> "'")

  -- the branch `scope_name == "SESSION"`
  check_session : ContextItem → Principal → Verdict
  unfolding unowned
  check_session item p =
      if is_empty item.session_id
      then unowned "SESSION" p
      else if item.session_id == p.session_id
          && (is_empty item.owner_id || item.owner_id == p.owner_id)
      then allowed
      else denied (
          "Session mismatch: item belongs to session '"
          <> item.session_id
          <> "', requester is '"
          <> or_none_text p.session_id
          <> "'")

  -- what lies behind the tenant boundary
  check_scope : String → ContextItem → Principal → Verdict
  unfolding check_user check_session
  check_scope name item p =
      if name == "TENANT"
      then allowed
      else if name == "USER"
      then check_user item p
      else if name == "SESSION"
      then check_session item p
      else denied ("Unsupported item scope '" <> name <> "'")

  unfoldable pub check_visibility : ContextItem → Principal → Verdict
  unfolding policy_scope_name check_scope
  check_visibility item p =
      let name = policy_scope_name item in
      let item_tenant = normalize_tenant (some item.tenant_id) in
      if name == "GLOBAL"
      then allowed
      else if item_tenant == p.tenant_id
      then check_scope name item p
      else denied (
          "Tenant isolation: item belongs to tenant '" <> item_tenant <> "', requester is '"
          <> p.tenant_id <> "'")

  abbrev expiry_seconds : Option Timestamp → ℕ
  expiry_seconds none = 0
  expiry_seconds (some t) = t.seconds

  unfoldable pub explain : ContextItem → Principal → ℕ → Verdict
  unfolding check_visibility
  explain item p now =
      if expired item.expires_at now
      then denied ("Item expired at timestamp " <> decimal (expiry_seconds item.expires_at))
      else check_visibility item p

  abbrev email_pattern : String
  email_pattern = "[a-zA-Z0-9_.+-]+@[a-zA-Z0-9-]+\\.[a-zA-Z0-9-.]+"

  abbrev phone_pattern : String
  phone_pattern = "\\b(?:\\+?\\d{1,3}[- ]?)?\\(?\\d{3}\\)?[- ]?\\d{3}[- ]?\\d{4}\\b"

  abbrev national_id_pattern : String
  national_id_pattern = "\\b\\d{3}-\\d{2}-\\d{4}\\b"

  unfoldable pub redact : String → String
  redact text =
      if is_empty text
      then ""
      else py.sub national_id_pattern "[REDACTED_ID]"
          (py.sub phone_pattern "[REDACTED_PHONE]" (py.sub email_pattern "[REDACTED_EMAIL]" text))

  -- the copy with its content redacted
  abbrev pub redacted : ContextItem → ContextItem
  redacted item = record item { content = redact item.content }

  -- the loop of `filter`: (allowed, denied)
  unfoldable pub filter_from :
      List ContextItem → Principal → ℕ → List ContextItem × List (ContextItem × String)
  filter_from [] p now = ([], [])
  filter_from (item ∷ items) p now =
      let rest = filter_from items p now in
      let verdict = explain item p now in
      if verdict.0 then (redacted item ∷ rest.0, rest.1) else (rest.0, (item, verdict.1) ∷ rest.1)

-- What `filter` accepts for the requester.
pub data Requester : Type 0 where
  as_principal : Principal → Requester
  as_scope : String → Requester
  missing : Option String → Requester

unfoldable pub requester_principal : Requester → Principal
requester_principal (as_principal p) = p
requester_principal (as_scope scope) = legacy_principal scope
requester_principal (missing none) = legacy_principal ""
requester_principal (missing (some scope)) = legacy_principal scope

unfoldable pub filter :
    Python → List ContextItem → Requester → ℕ → List ContextItem × List (ContextItem × String)
unfolding filter_from requester_principal
filter py candidates requester now = filter_from py candidates (requester_principal requester) now
