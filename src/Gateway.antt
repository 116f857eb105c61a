-- ===== src/Gateway.antt =====
-- Traffic over the shared runtime: REST requests and gRPC calls, interleaved in any order. A lock
-- (core/threadsafe_backend.py, in Locking) lets one call at a time reach the database.
use trilith.Prelude.{ℕ, String, ◌≡◌, ◌≢◌, refl, sym, ◌∙◌, true, List, Option}
use trilith.Python.{Python}
use trilith.Floats.{Floats}
use trilith.Database.{Db, KeyRow}
use trilith.Database.Confined.{Confined, Confined-refl, Confined-trans}
use trilith.Auth.{enabled, total_count}
use trilith.Auth.Cases.{IsForeign}
use trilith.Runtime.{Runtime}
use trilith.Rest.{Web}
use trilith.Rest.Serve.{Request, serve, authorization_of}
use trilith.Rest.Boundary.{serve-Others}
use trilith.Grpc.{Metadata, Call, authorization, serve_call}
use trilith.Grpc.Boundary.{serve_call-Others}

module _ (fl : Floats) (py : Python) (web : Web fl) where
  -- Requests and calls whose headers satisfy `P`, one after the other, at any times.
  pub data Traffic (P : Option String → Type 0) : Runtime → Runtime → Type 0 where
    quiet : (rt : Runtime) → Traffic P rt rt
    over_rest :
        (now : ℕ) (r : Request) (rt rt' : Runtime)
        → P (authorization_of r)
        → Traffic P (serve fl py web now r rt).0 rt'
        → Traffic P rt rt'
    over_grpc :
        (now : ℕ) (metadata : Metadata) (c : Call) (rt rt' : Runtime)
        → P (authorization py metadata)
        → Traffic P (serve_call fl py web.require_auth web.governor now metadata c rt).0 rt'
        → Traffic P rt rt'

  enabled-keys :
      (a b : Db)
      → b.api_keys ≡ a.api_keys
      → enabled web.require_auth a ≡ true
      → enabled web.require_auth b ≡ true
  unfolding enabled total_count
  enabled-keys a b e h = rw e h

  traffic :
      (t : String) (keys : List KeyRow) (rt rt' : Runtime)
      → keys ≡ rt.db.api_keys
      → enabled web.require_auth rt.db ≡ true
      → Traffic (IsForeign py keys t) rt rt'
      → Confined (λ u. u ≢ t) rt.db rt'.db
  traffic t keys rt rt' e on (quiet _) = Confined-refl (λ u. u ≢ t) rt.db
  traffic t keys rt rt' e on (over_rest now r _ _ foreign rest) =
      let next = (serve fl py web now r rt).0 in
      let first = serve-Others fl py web now t rt on r (rw e at foreign) in
      Confined-trans (λ u. u ≢ t) rt.db next.db rt'.db first
        (traffic t keys next rt' (e ∙ sym first.keys) (enabled-keys rt.db next.db first.keys on)
          rest)
  traffic t keys rt rt' e on (over_grpc now metadata c _ _ foreign rest) =
      let next = (serve_call fl py web.require_auth web.governor now metadata c rt).0 in
      let first =
        serve_call-Others fl py web.require_auth web.governor now t metadata rt on (rw e at foreign)
          c in
      Confined-trans (λ u. u ≢ t) rt.db next.db rt'.db first
        (traffic t keys next rt' (e ∙ sym first.keys) (enabled-keys rt.db next.db first.keys on)
          rest)

  -- Where auth is enabled, whatever REST requests and gRPC calls arrive in whatever order, a tenant
  -- none of whose keys is among their headers keeps its rows and its audit decisions as they were,
  -- and no API key changes.
  pub Traffic-Confined :
      (t : String) (rt rt' : Runtime)
      → enabled web.require_auth rt.db ≡ true
      → Traffic (IsForeign py rt.db.api_keys t) rt rt'
      → Confined (λ u. u ≢ t) rt.db rt'.db
  Traffic-Confined t rt rt' on seen = traffic t rt.db.api_keys rt rt' refl on seen
