-- ===== src/Auth/Keys.antt =====
-- The key table: what minting and revoking change, and that no call reopens the instance.
use text.Mathlib.TextPositions.{eq_refl}
use trilith.Prelude.{
  length-map, ℕ, ◌≡◌, refl, sym, ap, ◌∙◌, arith, String, ◌<>◌, Bool, true, false, List, [], ◌∷◌,
  ◌++◌, Option, none, some, map, find, any, length, ltb, like, find-append-none, find-append-some,
  string_eq, if◌then◌else◌, not, all,
}
use trilith.Exec.{Result, ok, value_error, integrity_error, ◌>>◌, require, require-ok}
use trilith.Python.{Python}
use trilith.Database.{Db, KeyRow}
use trilith.Auth.{
  ApiKeyRecord, create, known_capability, enabled, generate_key, has_hash, hash_key, key_record,
  lookup, new_key, revoke, revoke_row, total_count,
}

find-none-any : {A : Type 0} (p : A → Bool) (xs : List A) → any p xs ≡ false → find p xs ≡ none
unfolding any find
find-none-any p [] h = refl
find-none-any p (x ∷ xs) h = ground (arith, find-none-any p xs)

find-map_same :
    {A : Type 0} (p : A → Bool) (f : A → A)
    → ((x : A) → p (f x) ≡ p x)
    → (xs : List A) (x : A) → find p xs ≡ some x
    → find p (map f xs) ≡ some (f x)
unfolding find
find-map_same p f same [] x h = cc
find-map_same p f same (y ∷ ys) x h = ground (arith, same y, find-map_same p f same ys x)

find-map-none :
    {A : Type 0} (p : A → Bool) (f : A → A)
    → ((x : A) → p (f x) ≡ p x)
    → (xs : List A) → find p xs ≡ none
    → find p (map f xs) ≡ none
unfolding find
find-map-none p f same [] h = refl
find-map-none p f same (y ∷ ys) h = ground (arith, same y, find-map-none p f same ys)

module _ (py : Python) where
  module _ (token tenant_id owner_id name : String) (capabilities : List String)
      (session_id : String) (now : ℕ) where
    abbrev pub IsMinted : Db → Db → String → ApiKeyRecord → Type 0
    IsMinted db db' raw k =
        (raw ≡ generate_key token)
        × (any (has_hash py (hash_key py raw)) db.api_keys ≡ false)
        × (db' ≡ record db {
          api_keys =
              db.api_keys
              ++ new_key py raw tenant_id owner_id name capabilities session_id now ∷ [];
        })
        × (k ≡ key_record (new_key py raw tenant_id owner_id name capabilities session_id now))

    -- What a successful `create` leaves: the new row at the end, under a hash no row had.
    pub create-ok :
        (db db' : Db) (raw : String) (k : ApiKeyRecord)
        → create py token tenant_id owner_id name capabilities session_id now db ≡ ok (db', raw, k)
        → IsMinted db db' raw k
    unfolding create
    create-ok db db' raw k h =
        let new = generate_key token in
        let row = new_key py new tenant_id owner_id name capabilities session_id now in
        let free = any (has_hash py row.key_hash) db.api_keys in
        let (_, h') =
          require-ok (all known_capability capabilities) (value_error "Unknown capability")
            (require (not free) (integrity_error "UNIQUE constraint failed: api_keys.key_hash")
              >> ok (record db { api_keys = db.api_keys ++ row ∷ [] }, new, key_record row))
            (db', raw, k) h in
        let (n, e) =
          require-ok (not free) (integrity_error "UNIQUE constraint failed: api_keys.key_hash")
            (ok (record db { api_keys = db.api_keys ++ row ∷ [] }, new, key_record row))
            (db', raw, k) h' in
        minted (λ text. new_key py text tenant_id owner_id name capabilities session_id now) e n
      where
        minted :
            {new : String} (row : String → KeyRow)
            → ◌≡◌ {A = Result (Db × String × ApiKeyRecord)}
                (ok
                  (record db { api_keys = db.api_keys ++ row new ∷ [] }, new, key_record (row new)))
                (ok (db', raw, k))
            → not (any (has_hash py (row new).key_hash) db.api_keys) ≡ true
            → (raw ≡ new)
              × (any (has_hash py (row raw).key_hash) db.api_keys ≡ false)
              × (db' ≡ record db { api_keys = db.api_keys ++ row raw ∷ [] })
              × (k ≡ key_record (row raw))
        minted {new} row e n = let q : raw ≡ new = cc in (q, rw q (ground arith), rw q cc, rw q cc)

  abbrev row_for : String → Db → Option KeyRow
  row_for raw db = find (has_hash py (hash_key py raw)) db.api_keys

  pub found :
      (raw : String) (db : Db) (k : ApiKeyRecord)
      → lookup py raw db ≡ some k
      → (row : KeyRow) × (row_for raw db ≡ some row) × (k ≡ key_record row)
  unfolding lookup
  found raw db k l = from (row_for raw db) refl l
    where
      from :
          (o : Option KeyRow)
          → row_for raw db ≡ o
          → elim o [ none ↦ none | some row ↦ some (key_record row) ] ≡ some k
          → (row : KeyRow) × (row_for raw db ≡ some row) × (k ≡ key_record row)
      from none e l = cc
      from (some row) e l = (row, e, cc)

  found_by :
      (raw : String) (db : Db) (row : KeyRow)
      → row_for raw db ≡ some row
      → lookup py raw db ≡ some (key_record row)
  unfolding lookup
  found_by raw db row e = rw (lookup, e) refl

  -- The new key is found by its text.
  pub lookup-create :
      (token tenant_id owner_id name : String) (capabilities : List String) (session_id : String)
      (now : ℕ) (db db' : Db) (raw : String) (k : ApiKeyRecord)
      → create py token tenant_id owner_id name capabilities session_id now db ≡ ok (db', raw, k)
      → lookup py raw db' ≡ some k
  unfolding find
  lookup-create token tenant_id owner_id name capabilities session_id now db db' raw k h =
      let (_, n, e, f) =
        create-ok token tenant_id owner_id name capabilities session_id now db db' raw k h in
      let row = new_key py raw tenant_id owner_id name capabilities session_id now in
      found_by raw db' row (
        rw e (
          find-append-none (has_hash py (hash_key py raw)) db.api_keys (row ∷ [])
            (find-none-any (has_hash py (hash_key py raw)) db.api_keys n)
          ∙ rw eq_refl refl))
      ∙ ap some (sym f)

  -- Minting a key leaves what is found for every key that was there.
  pub lookup-create_other :
      (token tenant_id owner_id name : String) (capabilities : List String) (session_id : String)
      (now : ℕ) (db db' : Db) (raw : String) (k : ApiKeyRecord) (text : String) (old : ApiKeyRecord)
      → create py token tenant_id owner_id name capabilities session_id now db ≡ ok (db', raw, k)
      → lookup py text db ≡ some old
      → lookup py text db' ≡ some old
  lookup-create_other token tenant_id owner_id name capabilities session_id now db db' raw k text
        old h l =
      let (_, n, e, f) =
        create-ok token tenant_id owner_id name capabilities session_id now db db' raw k h in
      let row = new_key py raw tenant_id owner_id name capabilities session_id now in
      let (r, g, q) = found text db old l in
      found_by text db' r
        (rw e (find-append-some (has_hash py (hash_key py text)) db.api_keys (row ∷ []) r g))
      ∙ ap some (sym q)

  revoke_row-hash :
      (prefix h : String) (k : KeyRow) → has_hash py h (revoke_row prefix k) ≡ has_hash py h k
  revoke_row-hash prefix h k = ground arith

  -- A key whose fingerprint has the prefix is found revoked from then on.
  pub lookup-revoke :
      (prefix text : String) (db : Db) (k : ApiKeyRecord)
      → lookup py text db ≡ some k
      → lookup py text (revoke prefix db).0
        ≡ some (if like (prefix <> "%") k.fingerprint then record k { revoked = true } else k)
  unfolding revoke
  lookup-revoke prefix text db k l =
      let (row, g, q) = found text db k l in
      found_by text (revoke prefix db).0 (revoke_row prefix row) (
        find-map_same (has_hash py (hash_key py text)) (revoke_row prefix)
          (revoke_row-hash prefix (hash_key py text)) db.api_keys row g)
      ∙ rw q (ap some (recorded row))
    where
      recorded :
          (row : KeyRow)
          → key_record (revoke_row prefix row) ≡ (
              if like (prefix <> "%") row.fingerprint
              then record (key_record row) { revoked = true }
              else key_record row)
      recorded row = ground arith

-- Where a key is found, `enabled` holds.
nonempty :
    {A : Type 0} (p : A → Bool) (xs : List A) (x : A)
    → find p xs ≡ some x
    → ltb 0 (length xs) ≡ true
unfolding find
nonempty p [] x h = cc
nonempty p (y ∷ ys) x h = ground arith

pub enabled-lookup :
    (py : Python) (require_auth : Bool) (raw : String) (db : Db) (k : ApiKeyRecord)
    → lookup py raw db ≡ some k
    → enabled require_auth db ≡ true
unfolding enabled total_count
enabled-lookup py require_auth raw db k l =
    let (row, g, _) = found py raw db k l in
    let e = nonempty (has_hash py (hash_key py raw)) db.api_keys row g in ground (arith, e)

-- Revoking keys, all of them included, does not change whether auth is enabled.
pub enabled-revoke :
    (require_auth : Bool) (prefix : String) (db : Db)
    → enabled require_auth (revoke prefix db).0 ≡ enabled require_auth db
unfolding enabled revoke
enabled-revoke require_auth prefix db = rw (length-map (revoke_row prefix) db.api_keys) refl
