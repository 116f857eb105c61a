-- ===== src/Auth/Resolve.antt =====
-- What a request runs as, in the open and in the enforced mode.
use trilith.Prelude.{
  ℕ, ◌≡◌, refl, ◌∙◌, arith, String, ◌<>◌, Bool, true, false, List, Option, none, some, Occurs,
  find-Occurs, strip, Bool-cases, inl, inr, string_eq, like,
}
use text.Mathlib.TextEquality.{eq_iff}
use trilith.Exec.{ok, err, auth_error}
use trilith.Python.{Python}
use trilith.Identity.{Principal, new_principal, normalize_tenant}
use trilith.Identity.Stamp.{normalize_tenant_idem}
use trilith.Database.{Db, KeyRow}
use trilith.Auth.{
  ApiKeyRecord, create, enabled, has_hash, hash_key, key_principal, lookup, parse_authorization,
  resolve, resolve_key, revoke,
}
use trilith.Auth.Keys.{create-ok, enabled-lookup, lookup-create, lookup-revoke, found}

module _ (py : Python) where
  -- `p` is the principal of a stored, unrevoked key whose hash is that of the text in the header.
  abbrev pub IsKeyPrincipal : Option String → Db → Principal → Type 0
  IsKeyPrincipal authorization db p =
      (raw : String) × (k : KeyRow) × (parse_authorization py authorization ≡ some raw)
      × Occurs k db.api_keys
      × (k.key_hash ≡ py.sha256 raw)
      × (k.revoked ≡ false)
      × (p ≡ new_principal k.tenant_id k.owner_id k.session_id "" k.capabilities true)

  key_principal-ok :
      (k : ApiKeyRecord) (p : Principal)
      → key_principal k ≡ ok p
      → (k.revoked ≡ false)
        × (p ≡ new_principal k.tenant_id k.owner_id k.session_id "" k.capabilities true)
  key_principal-ok k p h = elim (Bool-cases k.revoked) [
    | inl e ↦ absurd (ground (arith, e))
    | inr e ↦ (e, ground (arith, e))
  ]

  resolve_key-ok :
      (authorization : Option String) (db : Db) (p : Principal)
      → resolve_key py (parse_authorization py authorization) db ≡ ok p
      → IsKeyPrincipal authorization db p
  unfolding resolve_key
  resolve_key-ok authorization db p h = from (parse_authorization py authorization) refl h
    where
      of_key :
          (raw : String) (o : Option ApiKeyRecord)
          → parse_authorization py authorization ≡ some raw
          → lookup py raw db ≡ o
          → elim o [ none ↦ err (auth_error "Invalid API key.") | some k ↦ key_principal k ] ≡ ok p
          → IsKeyPrincipal authorization db p
      of_key raw none a e h = cc
      of_key raw (some k) a e h =
          let (row, g, q) = found py raw db k e in
          let (o, b) = find-Occurs (has_hash py (hash_key py raw)) db.api_keys row g in
          let (r, s) = key_principal-ok k p h in
          (raw, row, a, o, (eq_iff row.key_hash (hash_key py raw)).0 b, rw q at r, rw q at s)

      from :
          (o : Option String)
          → parse_authorization py authorization ≡ o
          → resolve_key py o db ≡ ok p
          → IsKeyPrincipal authorization db p
      from none e h = cc
      from (some raw) e h = of_key raw (lookup py raw db) e refl h

  -- Where auth is enabled, a request is resolved only by the text of a stored key that is not
  -- revoked, and runs as the tenant, owner, session and capabilities of that key, also where the
  -- key pins no owner or session: the request's own are not taken.
  pub resolve-key :
      (require_auth : Bool) (authorization : Option String)
      (tenant_id owner_id session_id legacy_scope : String) (db : Db) (p : Principal)
      → enabled require_auth db ≡ true
      → resolve py require_auth authorization tenant_id owner_id session_id legacy_scope db ≡ ok p
      → IsKeyPrincipal authorization db p
  unfolding resolve
  resolve-key require_auth authorization tenant_id owner_id session_id legacy_scope db p e h =
      resolve_key-ok authorization db p (rw e at h)

  -- Where auth is enabled, the tenant, owner, session and scope that a request claims have no
  -- influence on what it resolves to, whether or not the key pins an owner or a session.
  pub resolve-claims :
      (require_auth : Bool) (authorization : Option String)
      (tenant owner session legacy tenant' owner' session' legacy' : String) (db : Db)
      → enabled require_auth db ≡ true
      → resolve py require_auth authorization tenant owner session legacy db
        ≡ resolve py require_auth authorization tenant' owner' session' legacy' db
  unfolding resolve
  resolve-claims require_auth authorization tenant owner session legacy tenant' owner' session'
        legacy' db e =
      rw e refl

  resolve_found :
      (require_auth : Bool) (raw : String) (db : Db) (k : ApiKeyRecord)
      (authorization : Option String) (tenant owner session legacy : String)
      → lookup py raw db ≡ some k
      → parse_authorization py authorization ≡ some raw
      → resolve py require_auth authorization tenant owner session legacy db ≡ key_principal k
  unfolding resolve resolve_key
  resolve_found require_auth raw db k authorization tenant owner session legacy l a =
      rw (enabled-lookup py require_auth raw db k l, a, resolve_key, l) refl

  -- A key that was just minted resolves, whatever else the request says, to an authenticated
  -- principal of the very tenant, owner, session and capabilities that it was minted for, the
  -- texts trimmed and an empty tenant read as the default one, and no setting is needed for that.
  pub resolve-create :
      (require_auth : Bool) (token tenant_id owner_id name : String) (capabilities : List String)
      (session_id : String) (now : ℕ) (db db' : Db) (raw : String) (k : ApiKeyRecord)
      (authorization : Option String) (tenant owner session legacy : String)
      → create py token tenant_id owner_id name capabilities session_id now db ≡ ok (db', raw, k)
      → parse_authorization py authorization ≡ some raw
      → resolve py require_auth authorization tenant owner session legacy db'
        ≡ ok (record {
          tenant_id = normalize_tenant (some tenant_id);
          owner_id = strip owner_id;
          session_id = strip session_id;
          legacy_scope = "";
          capabilities = capabilities;
          authenticated = true;
        })
  unfolding new_principal strip
  resolve-create require_auth token tenant_id owner_id name capabilities session_id now db db' raw k
        authorization tenant owner session legacy h a =
      let (_, _, _, e) =
        create-ok py token tenant_id owner_id name capabilities session_id now db db' raw k h in
      resolve_found require_auth raw db' k authorization tenant owner session legacy
        (lookup-create py token tenant_id owner_id name capabilities session_id now db db' raw k h)
        a
      ∙ rw (e, normalize_tenant_idem (some tenant_id)) refl

  -- Once a prefix of its fingerprint is revoked, a key that was found before is refused as
  -- revoked, whatever else the request says.
  pub resolve-revoke :
      (require_auth : Bool) (prefix raw : String) (db : Db) (k : ApiKeyRecord)
      (authorization : Option String) (tenant owner session legacy : String)
      → lookup py raw db ≡ some k
      → like (prefix <> "%") k.fingerprint ≡ true
      → parse_authorization py authorization ≡ some raw
      → resolve py require_auth authorization tenant owner session legacy (revoke prefix db).0
        ≡ err (auth_error "API key has been revoked.")
  resolve-revoke require_auth prefix raw db k authorization tenant owner session legacy l m a =
      let found_revoked = lookup-revoke py prefix raw db k l in
      resolve_found require_auth raw (revoke prefix db).0 (record k { revoked = true })
        authorization tenant owner session legacy (rw m at found_revoked) a
