-- ===== src/Auth/Cases.antt =====
-- Where auth is enabled, a request is resolved to the principal of a live key, or refused.
use trilith.Prelude.{
  String, ◌≡◌, ◌≢◌, refl, sym, ap, ◌∙◌, ◌⊎◌, inl, inr, Bool, Bool-cases, true, Option, none, some,
  List, Occurs,
}
use trilith.Exec.{ok, err, auth_error}
use trilith.Python.{Python}
use trilith.Identity.{Principal, new_principal, normalize_tenant}
use trilith.Identity.Stamp.{tenant-new_principal}
use trilith.Database.{Db, KeyRow}
use trilith.Auth.{
  ApiKeyRecord, enabled, resolve, resolve_key, key_principal, lookup, parse_authorization,
}
use trilith.Auth.Resolve.{IsKeyPrincipal, resolve-key}

key_principal-cases :
    (k : ApiKeyRecord)
    → ((p : Principal) × (key_principal k ≡ ok p))
      ⊎ ((s : String) × (key_principal k ≡ err (auth_error s)))
key_principal-cases k = elim (Bool-cases k.revoked) [
  | inl e ↦ inr ("API key has been revoked.", rw e refl)
  | inr e ↦
      inl (new_principal k.tenant_id k.owner_id k.session_id "" k.capabilities true, rw e refl)
]

looked_up-cases :
    (o : Option ApiKeyRecord)
    → ((p : Principal) × (elim o [
      | none ↦ err (auth_error "Invalid API key.")
      | some k ↦ key_principal k
    ]
          ≡ ok p))
      ⊎ ((s : String) × (elim o [
        | none ↦ err (auth_error "Invalid API key.")
        | some k ↦ key_principal k
      ]
            ≡ err (auth_error s)))
looked_up-cases none = inr (_, refl)
looked_up-cases (some k) = key_principal-cases k

resolve_key-cases :
    (py : Python) (raw : Option String) (db : Db)
    → ((p : Principal) × (resolve_key py raw db ≡ ok p))
      ⊎ ((s : String) × (resolve_key py raw db ≡ err (auth_error s)))
unfolding resolve_key
resolve_key-cases py none db = inr (_, refl)
resolve_key-cases py (some raw) db = looked_up-cases (lookup py raw db)

resolve-enabled :
    (py : Python) (require_auth : Bool) (authorization : Option String)
    (tenant owner session legacy : String) (db : Db)
    → enabled require_auth db ≡ true
    → resolve py require_auth authorization tenant owner session legacy db
      ≡ resolve_key py (parse_authorization py authorization) db
unfolding resolve
resolve-enabled py require_auth authorization tenant owner session legacy db e = rw e refl

pub resolve-cases :
    (py : Python) (require_auth : Bool) (authorization : Option String)
    (tenant owner session legacy : String) (db : Db)
    → enabled require_auth db ≡ true
    → ((p : Principal) × (resolve py require_auth authorization tenant owner session legacy db
          ≡ ok p)
        × IsKeyPrincipal py authorization db p)
      ⊎ ((s : String) × (resolve py require_auth authorization tenant owner session legacy db
            ≡ err (auth_error s)))
resolve-cases py require_auth a tenant owner session legacy db on =
    let q = resolve-enabled py require_auth a tenant owner session legacy db on in
    elim (resolve_key-cases py (parse_authorization py a) db) [
      | inl (p, e) ↦
          inl (p, q ∙ e, resolve-key py require_auth a tenant owner session legacy db p on (q ∙ e))
      | inr (s, e) ↦ inr (s, q ∙ e)
    ]

-- The header carries no text of a key of the tenant.
abbrev pub IsForeign : Python → List KeyRow → String → Option String → Type 0
IsForeign py keys t authorization =
    (raw : String) (k : KeyRow)
    → parse_authorization py authorization ≡ some raw
    → Occurs k keys
    → k.key_hash ≡ py.sha256 raw
    → normalize_tenant (some k.tenant_id) ≢ t

-- The principal of a key is of the key's tenant, which is a normalised one.
pub key_principal-tenant :
    (py : Python) (authorization : Option String) (db : Db) (p : Principal)
    → IsKeyPrincipal py authorization db p
    → normalize_tenant (some p.tenant_id) ≡ p.tenant_id
key_principal-tenant py authorization db p (raw, k, found, o, hash, live, q) =
    rw q (tenant-new_principal k.tenant_id k.owner_id k.session_id "" k.capabilities true)

pub IsForeign-tenant :
    (py : Python) (t : String) (authorization : Option String) (db : Db) (p : Principal)
    → IsForeign py db.api_keys t authorization
    → IsKeyPrincipal py authorization db p
    → p.tenant_id ≢ t
unfolding new_principal
IsForeign-tenant py t authorization db p foreign (raw, k, found, o, hash, live, q) e =
    foreign raw k found o hash (sym (ap (λ (x : Principal). x.tenant_id) q) ∙ e)
