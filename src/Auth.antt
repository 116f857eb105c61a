-- ===== src/Auth.antt =====
-- core/auth.py: API keys, and the principal that a request runs as.
pub mod Keys
pub mod Resolve
pub mod Cases
use Prim.Native.String.{len}
use text.Mathlib.Text.{starts_with}
use trilith.Prelude.{
  ℕ, zero, suc, String, ◌<>◌, Bool, true, false, not, ◌&&◌, ◌||◌, List, [], ◌∷◌, ◌++◌, Option, none,
  some, map, filter, find, any, all, length, ltb, is_empty, strip, or_text, drop_chars, take_chars,
  like, ◌==◌, string_eq, if◌then◌else◌,
}
use trilith.Prelude.Sort.{sort_by}
use trilith.Exec.{Result, ok, err, value_error, auth_error, integrity_error, require, ◌>>=◌, ◌>>◌}
use trilith.Python.{Python}
use trilith.Identity.{Principal, new_principal, normalize_tenant, text_or_empty}
use trilith.Database.{Db, KeyRow}

pub record ApiKeyRecord : Type 0 where
  pub fingerprint : String
  pub tenant_id : String
  pub owner_id : String
  pub name : String
  pub created_at : ℕ
  pub revoked : Bool
  pub capabilities : List String
  pub session_id : String

abbrev pub known_capability : String → Bool
known_capability c = c == "tenant_admin" || c == "publish_global"

abbrev pub key_record : KeyRow → ApiKeyRecord
key_record k = record {
  fingerprint = k.fingerprint;
  tenant_id = k.tenant_id;
  owner_id = k.owner_id;
  name = k.name;
  created_at = k.created_at;
  revoked = k.revoked;
  capabilities = k.capabilities;
  session_id = k.session_id;
}

-- `generate_key`, around the random text that `secrets.token_urlsafe(32)` returns
abbrev pub generate_key : String → String
generate_key token = "tri_" <> token

module _ (py : Python) where
  abbrev pub hash_key : String → String
  hash_key raw = py.sha256 raw

  abbrev pub fingerprint : String → String
  fingerprint raw = take_chars 12 (hash_key raw)

  -- The row that `create` inserts, with the columns that its UPDATE sets.
  abbrev pub new_key : String → String → String → String → List String → String → ℕ → KeyRow
  new_key raw tenant_id owner_id name capabilities session_id now = record {
    key_hash = hash_key raw;
    fingerprint = fingerprint raw;
    tenant_id = normalize_tenant (some tenant_id);
    owner_id = owner_id;
    name = name;
    created_at = now;
    revoked = false;
    capabilities = capabilities;
    session_id = session_id;
  }

  abbrev pub has_hash : String → KeyRow → Bool
  has_hash h k = k.key_hash == h

  unfoldable pub create :
      String
      → String
      → String
      → String
      → List String
      → String
      → ℕ
      → Db
      → Result (Db × String × ApiKeyRecord)
  create token tenant_id owner_id name capabilities session_id now db =
      let raw = generate_key token in
      let row = new_key raw tenant_id owner_id name capabilities session_id now in
      do
        require (all known_capability capabilities) (value_error "Unknown capability")
        require (not (any (has_hash row.key_hash) db.api_keys))
            (integrity_error "UNIQUE constraint failed: api_keys.key_hash")
        ok (record db { api_keys = db.api_keys ++ row ∷ [] }, raw, key_record row)

  unfoldable pub lookup : String → Db → Option ApiKeyRecord
  lookup raw db = elim (find (has_hash (hash_key raw)) db.api_keys) [
    | none ↦ none
    | some k ↦ some (key_record k)
  ]

-- ORDER BY created_at DESC
abbrev created_later : KeyRow → KeyRow → Bool
created_later a b = ltb b.created_at a.created_at

abbrev key_of_tenant : Option String → KeyRow → Bool
key_of_tenant none k = true
key_of_tenant (some t) k = is_empty t || k.tenant_id == normalize_tenant (some t)

unfoldable pub list_keys : Option String → Db → List ApiKeyRecord
list_keys tenant_id db =
    map (λ (k : KeyRow). key_record k)
      (sort_by created_later (filter (key_of_tenant tenant_id) db.api_keys))

abbrev revocable : String → KeyRow → Bool
revocable prefix k = like (prefix <> "%") k.fingerprint && not k.revoked

abbrev pub revoke_row : String → KeyRow → KeyRow
revoke_row prefix k = if revocable prefix k then record k { revoked = true } else k

-- UPDATE api_keys SET revoked = 1 …, with the number of rows
unfoldable pub revoke : String → Db → Db × ℕ
revoke prefix db = (
  record db { api_keys = map (revoke_row prefix) db.api_keys },
  length (filter (revocable prefix) db.api_keys),
)

unfoldable pub active_count : Db → ℕ
active_count db = length (filter (λ (k : KeyRow). not k.revoked) db.api_keys)

unfoldable pub total_count : Db → ℕ
total_count db = length db.api_keys

-- `s or None`
abbrev none_if_empty : String → Option String
none_if_empty s = if is_empty s then none else some s

unfoldable pub parse_authorization : Python → Option String → Option String
parse_authorization py header =
    let value = strip (text_or_empty header) in
    let lowered = py.lower value in
    if is_empty (text_or_empty header)
    then none
    else if starts_with lowered "bearer "
    then none_if_empty (strip (drop_chars 7 value))
    else if starts_with lowered "apikey "
    then none_if_empty (strip (drop_chars 7 value))
    else if starts_with lowered "token "
    then none_if_empty (strip (drop_chars 6 value))
    else none_if_empty value

-- `AuthEnforcer.enabled`
unfoldable pub enabled : Bool → Db → Bool
unfolding total_count
enabled require_auth db = require_auth || ltb 0 (total_count db)

abbrev missing_key : String
missing_key =
    "Missing API key. Send 'Authorization: Bearer tri_...' (mint one with: trilith key create --tenant <id>)."

abbrev pub key_principal : ApiKeyRecord → Result Principal
key_principal k =
    if k.revoked
    then err (auth_error "API key has been revoked.")
    else ok (new_principal k.tenant_id k.owner_id k.session_id "" k.capabilities true)

-- the enforced mode, once a key text is there or not
unfoldable pub resolve_key : Python → Option String → Db → Result Principal
resolve_key py none db = err (auth_error missing_key)
resolve_key py (some raw) db = elim (lookup py raw db) [
  | none ↦ err (auth_error "Invalid API key.")
  | some k ↦ key_principal k
]

unfoldable pub resolve :
    Python → Bool → Option String → String → String → String → String → Db → Result Principal
resolve py require_auth authorization tenant_id owner_id session_id legacy_scope db =
    if enabled require_auth db
    then resolve_key py (parse_authorization py authorization) db
    else ok (new_principal tenant_id owner_id session_id legacy_scope ("tenant_admin" ∷ []) false)
