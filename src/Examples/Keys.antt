-- ===== src/Examples/Keys.antt =====
-- Runs of the keys and of the activity log.
use trilith.Prelude.{
  filter, take_chars, find, drop_chars, strip, ascii_lower, any, all, ◌<>◌, ◌≡◌, ◌<◌, ◌≤◌, ◌⊎◌, ℕ,
  length, refl, true, false, [], ◌∷◌, some, Occurs, inl, like,
}
use trilith.Events.{clear, Event, EventLog, new_log, record_event, since}
use trilith.Auth.{resolve_key}
use trilith.Exec.{ok, err, auth_error}
use trilith.Python.{Python, plain_python}
use trilith.Identity.{normalize_tenant, new_principal}
use trilith.Database.{Db, KeyRow, empty}
use trilith.Examples.Data.{ada}
use trilith.Auth.{
  create, enabled, generate_key, key_record, lookup, new_key, parse_authorization, resolve, revoke,
}
use trilith.Auth.Resolve.{
  IsKeyPrincipal, resolve-key, resolve-claims, resolve-create, resolve-revoke,
}
use trilith.Events.Ring.{Tracks, clear-Tracks, new_event, record_event-Tracks, since-tenant}

abbrev py : Python
py = plain_python

abbrev first : KeyRow
first = new_key py (generate_key "abc") "acme" "ada" "laptop" [] "" 5

abbrev keyed : Db
keyed = record empty { api_keys = first ∷ [] }

abbrev second : KeyRow
second = new_key py (generate_key "xyz") "acme" "bob" "" [] "" 6

abbrev twice : Db
twice = record empty { api_keys = first ∷ second ∷ [] }

created :
    create py "xyz" "acme" "bob" "" [] "" 6 keyed
    ≡ ok (twice, generate_key "xyz", key_record second)
unfolding create all any
created = refl

header_read : parse_authorization py (some "Bearer tri_xyz") ≡ some "tri_xyz"
unfolding parse_authorization ascii_lower strip drop_chars
header_read = refl

first_found : lookup py "tri_abc" keyed ≡ some (key_record first)
unfolding lookup find
first_found = refl

first_read : parse_authorization py (some " tri_abc ") ≡ some "tri_abc"
unfolding parse_authorization ascii_lower strip
first_read = refl

keyed-enabled : enabled false keyed ≡ true
unfolding enabled
keyed-enabled = refl

prefix_matches : like ("tri_a" <> "%") (key_record first).fingerprint ≡ true
unfolding like take_chars
prefix_matches = refl

first_resolved :
    resolve py false (some " tri_abc ") "other" "eve" "" "" keyed
    ≡ ok (new_principal "acme" "ada" "" "" [] true)
unfolding resolve enabled resolve_key parse_authorization ascii_lower strip lookup find
    normalize_tenant
first_resolved = refl

resolve-key_example :
    IsKeyPrincipal py (some " tri_abc ") keyed (new_principal "acme" "ada" "" "" [] true)
resolve-key_example =
    resolve-key py false (some " tri_abc ") "other" "eve" "" "" keyed
      (new_principal "acme" "ada" "" "" [] true) keyed-enabled first_resolved

resolve-claims_example :
    resolve py false (some " tri_abc ") "other" "eve" "" "" keyed
    ≡ resolve py false (some " tri_abc ") "" "" "" "" keyed
resolve-claims_example =
    resolve-claims py false (some " tri_abc ") "other" "eve" "" "" "" "" "" "" keyed keyed-enabled

resolve-create_example :
    resolve py false (some "Bearer tri_xyz") "" "" "" "" twice
    ≡ ok (new_principal "acme" "bob" "" "" [] true)
unfolding normalize_tenant strip new_principal
resolve-create_example =
    resolve-create py false "xyz" "acme" "bob" "" [] "" 6 keyed twice (generate_key "xyz")
      (key_record second) (some "Bearer tri_xyz") "" "" "" "" created header_read

resolve-revoke_example :
    resolve py false (some " tri_abc ") "" "" "" "" (revoke "tri_a" keyed).0
    ≡ err (auth_error "API key has been revoked.")
resolve-revoke_example =
    resolve-revoke py false "tri_a" "tri_abc" keyed (key_record first) (some " tri_abc ") "" "" ""
      "" first_found prefix_matches first_read

abbrev log : EventLog
log = new_log 2

abbrev first_event : Event
first_event = new_event 7 "write" (some ada) "wrote" [] log

abbrev logged : EventLog
logged = record { capacity = 2; events = first_event ∷ []; seq = 1 }

record_event-Tracks_example :
    Tracks 0 (first_event ∷ []) (record_event 7 "write" (some ada) "wrote" [] log)
unfolding clear
record_event-Tracks_example =
    record_event-Tracks 7 "write" (some ada) "wrote" [] 0 [] log (clear-Tracks log)

event_read : Occurs first_event (since 0 (some "acme") 1 logged)
unfolding since filter normalize_tenant strip
event_read = inl refl

since-tenant_example :
    ((e : Event)
      → Occurs e (since 0 (some "acme") 1 logged)
      → Occurs e logged.events × (0 < e.seq) × (e.tenant_id ≡ normalize_tenant (some "acme")))
    × ((◌≡◌ {A = ℕ} 1 0) ⊎ (length (since 0 (some "acme") 1 logged) ≤ 1))
since-tenant_example = since-tenant 0 "acme" 1 logged

acme_normal : first_event.tenant_id ≡ normalize_tenant (some "acme")
unfolding normalize_tenant strip
acme_normal = refl
