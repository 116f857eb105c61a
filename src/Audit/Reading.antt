-- ===== src/Audit/Reading.antt =====
-- Who reads which decisions.
use text.Mathlib.TextEquality.{eq_iff}
use trilith.Prelude.{
  ℕ, ◌≤◌, ◌≡◌, sym, ◌⊎◌, inl, inr, true, false, List, Occurs, take, length, arith, Bool-cases,
  Occurs-filter, filter-Occurs, Occurs-take, take-or-drop, length-take, min, max, ◌==◌, string_eq,
}
use trilith.Prelude.Sort.{
  sort_by, Occurs-sort_by, sort_by-Occurs, IsOrder, sort_by-IsSorted, take-before-drop,
}
use trilith.Exec.{ok, err, permission_error}
use trilith.Identity.{Principal, can}
use trilith.Database.{Db, Decision}
use trilith.Audit.{read_decisions, later_decision, tenant_decisions}

later-IsOrder : IsOrder later_decision
later-IsOrder = record { asym = λ a b h. ground arith; cotrans = λ a b c h k. ground arith }

-- What a reader is handed.
pub record IsReading (p : Principal) (db : Db) (found : List Decision) : Type 0 where
  pub admin : can p "tenant_admin" ≡ true
  pub bounded : length found ≤ 1000
  pub own : (d : Decision) → Occurs d found → Occurs d db.audit × (d.tenant_id ≡ p.tenant_id)
  -- a decision of the tenant that is left out is no newer than any that is returned
  pub newest :
      (d e : Decision)
      → Occurs d found
      → Occurs e db.audit
      → e.tenant_id ≡ p.tenant_id
      → Occurs e found ⊎ (later_decision e d ≡ false)

abbrev page : Principal → ℕ → Db → List Decision
page p limit db = take (max 1 (min 1000 limit)) (sort_by later_decision (tenant_decisions p db))

read_decisions-ok :
    (p : Principal) (limit : ℕ) (db : Db) (found : List Decision)
    → read_decisions p limit db ≡ ok found
    → (can p "tenant_admin" ≡ true) × (found ≡ page p limit db)
unfolding read_decisions
read_decisions-ok p limit db found h = elim (Bool-cases (can p "tenant_admin")) [
  | inl e ↦ (e, sym (ok-injective (rw e at h)))
  | inr e ↦ absurd (err-ne-ok (rw e at h))
]
  where
    ok-injective : {a b : List Decision} → ok a ≡ ok b → a ≡ b
    ok-injective q = cc

    err-ne-ok : err (permission_error "tenant_admin capability required") ≡ ok found → ⊥
    err-ne-ok q = cc

page-IsReading :
    (p : Principal) (limit : ℕ) (db : Db)
    → can p "tenant_admin" ≡ true
    → IsReading p db (page p limit db)
page-IsReading p limit db admin =
    let n = max 1 (min 1000 limit) in
    let rows = tenant_decisions p db in
    let sorted = sort_by later_decision rows in
    record {
      admin = admin;
      bounded = omega (arith, length-take n sorted);
      own = λ d o. own d (Occurs-sort_by later_decision rows d (Occurs-take n sorted d o));
      newest = λ d e o k t. newest d e o k t;
    }
  where
    own :
        (d : Decision)
        → Occurs d (tenant_decisions p db)
        → Occurs d db.audit × (d.tenant_id ≡ p.tenant_id)
    own d o =
        let (k, t) = Occurs-filter (λ d. d.tenant_id == p.tenant_id) db.audit d o in
        (k, (eq_iff d.tenant_id p.tenant_id).0 t)

    newest :
        (d e : Decision)
        → Occurs d (page p limit db)
        → Occurs e db.audit
        → e.tenant_id ≡ p.tenant_id
        → Occurs e (page p limit db) ⊎ (later_decision e d ≡ false)
    newest d e o k t =
        let n = max 1 (min 1000 limit) in
        let sorted = sort_by later_decision (tenant_decisions p db) in
        elim (take-or-drop n sorted e (
          sort_by-Occurs later_decision (tenant_decisions p db) e (
            filter-Occurs (λ d. d.tenant_id == p.tenant_id) db.audit e k
              ((eq_iff e.tenant_id p.tenant_id).1 t)))) [
                | inl i ↦ inl i
                | inr i ↦ inr (
                    take-before-drop later_decision n sorted d e
                      (sort_by-IsSorted later_decision later-IsOrder (tenant_decisions p db)) o i)
              ]

-- A read succeeds only for a tenant administrator, and returns the newest decisions of that
-- tenant, at most a thousand.
pub read_decisions-IsReading :
    (p : Principal) (limit : ℕ) (db : Db) (found : List Decision)
    → read_decisions p limit db ≡ ok found
    → IsReading p db found
read_decisions-IsReading p limit db found h =
    let (admin, e) = read_decisions-ok p limit db found h in rw e (page-IsReading p limit db admin)
