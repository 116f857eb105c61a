-- ===== src/Audit.antt =====
-- core/audit.py: the durable decision records.
pub mod Reading
use trilith.Prelude.{
  ℕ, suc, ◌+◌, String, Bool, true, false, not, ◌&&◌, List, [], ◌∷◌, ◌++◌, Option, none, some,
  filter, take, min, max, ltb, ◌==◌, string_eq, if◌then◌else◌,
}
use trilith.Prelude.Sort.{sort_by}
use trilith.Exec.{Result, ok, err, permission_error, require, ◌>>=◌, ◌>>◌}
use trilith.Python.{Python}
use trilith.Identity.{Principal, legacy_principal, can}
use trilith.Database.{Db, Decision, Value}

-- `principal or Principal()`
abbrev pub principal_or_default : Option Principal → Principal
principal_or_default none = legacy_principal ""
principal_or_default (some p) = p

unfoldable pub record_decision :
    ℕ → Option Principal → String → String → List (String × Value) → Db → Db
record_decision now principal operation decision detail db =
    let p = principal_or_default principal in
    record db {
      audit_seq = db.audit_seq + 1;
      audit =
          db.audit
          ++ record {
            seq = db.audit_seq + 1;
            at = now;
            tenant_id = p.tenant_id;
            owner_id = p.owner_id;
            session_id = p.session_id;
            operation = operation;
            decision = decision;
            detail = detail;
          }
            ∷ [];
    }

-- The WHERE clause of `erase`, for the upper-cased scope.
abbrev pub erase_clause : String → Principal → Decision → Bool
erase_clause scope p d =
    d.tenant_id == p.tenant_id
    && (if scope == "USER"
        then d.owner_id == p.owner_id
        else if scope == "SESSION"
        then d.session_id == p.session_id
        else true)

unfoldable pub erase_decisions : Python → Principal → String → Db → Db
erase_decisions py p scope db = record db {
  audit = filter (λ d. not (erase_clause (py.upper scope) p d)) db.audit;
}

-- ORDER BY seq DESC
abbrev pub later_decision : Decision → Decision → Bool
later_decision a b = ltb b.seq a.seq

abbrev pub tenant_decisions : Principal → Db → List Decision
tenant_decisions p db = filter (λ d. d.tenant_id == p.tenant_id) db.audit

unfoldable pub read_decisions : Principal → ℕ → Db → Result (List Decision)
read_decisions p limit db = do
  require (can p "tenant_admin") (permission_error "tenant_admin capability required")
  ok (take (max 1 (min 1000 limit)) (sort_by later_decision (tenant_decisions p db)))
