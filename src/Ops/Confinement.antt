-- ===== src/Ops/Confinement.antt =====
-- The statements of a principal's operations are confined to its tenant.
use trilith.Prelude.{String, ◌≢◌, refl, sym, ◌∙◌, inl, inr, some, Bool-cases, any}
use trilith.Identity.{Principal}
use trilith.Database.{Db, Derived}
use trilith.Database.Confined.{Confined, Confined-refl, Confined-weaken}
use trilith.Ops.Steps.{Owns}
use trilith.Fold.{link, same_edge}

-- An edge is no row and no decision.
pub link-Confined : (T : String → Type 0) (e : Derived) (db : Db) → Confined T db (link e db)
link-Confined T e db = elim (Bool-cases (any (same_edge e) db.derived)) [
  | inl q ↦ rw q (Confined-refl T db)
  | inr q ↦ rw q (record {
    kept = λ r n o. o;
    no_more = λ r n o. o;
    decisions_kept = λ d n o. o;
    no_more_decisions = λ d n o. o;
    keys = refl;
  })
]

-- What a principal may change: its own tenant.
abbrev pub OwnOnly : Principal → Db → Db → Type 0
OwnOnly p = Confined (Owns (some p))

-- A change of its own by a principal of another tenant leaves the tenant as it was.
pub OwnOnly-others :
    (p : Principal) (t : String) (a b : Db)
    → p.tenant_id ≢ t
    → OwnOnly p a b
    → Confined (λ u. u ≢ t) a b
OwnOnly-others p t a b n h =
    Confined-weaken (Owns (some p)) (λ u. u ≢ t) a b (λ u mine same. n (sym mine ∙ same)) h
