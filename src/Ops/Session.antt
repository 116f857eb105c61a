-- ===== src/Ops/Session.antt =====
-- Sequences of operations by any number of callers, in any order, as a step relation.
use trilith.Prelude.{ℕ, String, ◌≡◌, ◌≢◌, refl, List, Option, none, some}
use trilith.Python.{Python}
use trilith.Floats.{Floats}
use trilith.Proto.{ContextItem}
use trilith.Identity.{Principal, normalize_tenant, new_principal, legacy_principal, default_tenant}
use trilith.Identity.Stamp.{normalize_tenant_idem}
use trilith.Database.{Db, Value}
use trilith.Database.Confined.{
  Confined, Confined-refl, Confined-trans, delete_where-Confined, save-Confined,
  record_decision-Confined, erase_decisions-Confined,
}
use trilith.Database.Writes.{IsValid, delete_where-IsValid, save-IsValid}
use trilith.Audit.{record_decision, erase_decisions, principal_or_default}
use trilith.Runtime.{Runtime}
use trilith.Ranking.{Governor}
use trilith.Governor.{BudgetArgument}
use trilith.Ops.{write_item, update_item}
use trilith.Ops.Assemble.{assemble_context}
use trilith.Ops.Removal.{delete_item, forget_scope, purge_expired, erase_audit, bare_principal}
use trilith.Ops.Confinement.{link-Confined, OwnOnly-others}
use trilith.Ops.Steps.{IsNormal, Owns, Steps}
use trilith.Ops.Steps.Writing.{write_item-Holds, update_item-Holds}
use trilith.Ops.Steps.Removal.{delete_item-Holds, forget_scope-Holds, purge_expired-Holds}
use trilith.Ops.Steps.Reading.{assemble_context-Holds}
use trilith.Ops.Steps.Folding.{fold_subtask-Holds}
use trilith.Fold.{fold_subtask}
use trilith.Fold.Validity.{AreSteps, fold_subtask-IsValid}

-- What a caller may ask for: every operation of core/ops.py that writes to the database.
pub data Request : Type 0 where
  write : ContextItem → Option String → Request
  update : ContextItem → Option String → List String → Request
  delete : String → Request
  forget : String → Request
  purge : Request
  assemble : String → BudgetArgument → Request
  fold : String → Request

module _ (fl : Floats) (py : Python) (g : Governor fl) where
  -- The state after a request, whether it was answered or raised.
  unfoldable pub serve : ℕ → Option Principal → Request → Runtime → Runtime
  serve now p (write item subtask_id) rt = (write_item py now item p subtask_id rt).0
  serve now p (update item subtask_id changed) rt =
      (update_item py now item p subtask_id changed rt).0
  serve now p (delete id) rt = (delete_item py now id p rt).0
  serve now p (forget scope) rt = (forget_scope py now scope p rt).0
  serve now p purge rt = (purge_expired now p rt).0
  serve now p (assemble task budget) rt = (assemble_context fl py now g task budget p rt).0
  serve now p (fold subtask_id) rt = (fold_subtask py now subtask_id p rt).0

  -- Requests one after the other, at any times, of each of which `P` holds in the state that it
  -- finds.
  pub data Session (P : Runtime → Option Principal → Request → Type 0)
      : Runtime → Runtime → Type 0 where
    idle : (rt : Runtime) → Session P rt rt
    request :
        (now : ℕ) (p : Option Principal) (r : Request) (rt rt' : Runtime)
        → P rt p r
        → Session P (serve now p r rt) rt'
        → Session P rt rt'

-- The sub-task that the request folds, if any, has no rows but steps.
abbrev pub FoldsSteps : Runtime → Option Principal → Request → Type 0
FoldsSteps rt p r =
    (subtask_id : String) → r ≡ fold subtask_id → AreSteps (principal_or_default p) subtask_id rt.db

module _ (fl : Floats) (py : Python) (g : Governor fl) (now : ℕ) where
  -- What holds of every statement, and of the fold if it is one, holds of every request.
  serve-related :
      (p : Option Principal) (R : Db → Db → Type 0)
      → IsNormal p
      → Steps py now p R
      → Steps py now (some (principal_or_default p)) R
      → (r : Request) (rt : Runtime)
      → ((subtask_id : String)
          → r ≡ fold subtask_id
          → R rt.db (fold_subtask py now subtask_id p rt).0.db)
      → R rt.db (serve fl py g now p r rt).db
  unfolding serve
  serve-related p R n steps own (write item sub) rt folded =
      (write_item-Holds py now p n R steps item sub).related rt
  serve-related p R n steps own (update item sub changed) rt folded =
      (update_item-Holds py now p n R steps item sub changed).related rt
  serve-related p R n steps own (delete id) rt folded =
      (delete_item-Holds py now p n R steps id).related rt
  serve-related p R n steps own (forget scope) rt folded =
      (forget_scope-Holds py now p n R steps scope).related rt
  serve-related p R n steps own purge rt folded =
      (purge_expired-Holds py now p n R steps).related rt
  serve-related p R n steps own (assemble task budget) rt folded =
      (assemble_context-Holds fl steps own g task budget).related rt
  serve-related p R n steps own (fold subtask_id) rt folded = folded subtask_id refl

module _ (py : Python) (now : ℕ) where
  pub Confined-steps :
      (p : Principal) → IsNormal (some p) → Steps py now (some p) (Confined (Owns (some p)))
  unfolding new_principal normalize_tenant
  Confined-steps p n = record {
    same = Confined-refl (Owns (some p));
    both = Confined-trans (Owns (some p));
    saves = save-Confined (Owns (some p));
    deletes = delete_where-Confined (Owns (some p));
    audits =
        λ o d detail db. record_decision-Confined (Owns (some p)) now (some p) o d detail db refl;
    completes = λ o d detail db.
        record_decision-Confined (Owns (some p)) now (bare_principal (some p)) o d detail db n;
    erases = λ scope db. erase_decisions-Confined (Owns (some p)) py p scope db refl;
  }

  record_decision-IsValid :
      (p : Option Principal) (o d : String) (detail : List (String × Value)) (db : Db)
      → IsValid db
      → IsValid (record_decision now p o d detail db)
  unfolding record_decision
  record_decision-IsValid p o d detail db v = record {
    unique = v.unique;
    tenants = v.tenants;
    sources = v.sources;
    targets = v.targets;
  }

  erase_audit-IsValid :
      (p : Option Principal) (scope : String) (db : Db)
      → IsValid db
      → IsValid (erase_audit py scope p db)
  unfolding erase_decisions
  erase_audit-IsValid none scope db v = v
  erase_audit-IsValid (some p) scope db v = record {
    unique = v.unique;
    tenants = v.tenants;
    sources = v.sources;
    targets = v.targets;
  }

  IsValid-steps : (p : Option Principal) → Steps py now p (λ a b. IsValid a → IsValid b)
  IsValid-steps p = record {
    same = λ a v. v;
    both = λ a b c f g v. g (f v);
    saves = λ item sub db o v. save-IsValid item sub db v;
    deletes = λ test db o v. delete_where-IsValid test db v;
    audits = λ o d detail db v. record_decision-IsValid p o d detail db v;
    completes = λ o d detail db v. record_decision-IsValid (bare_principal p) o d detail db v;
    erases = λ scope db v. erase_audit-IsValid p scope db v;
  }

module _ (fl : Floats) (py : Python) (g : Governor fl) (now : ℕ) where
  -- One request of a principal leaves other tenants as they were.
  pub serve-Confined :
      (p : Principal) (r : Request) (rt : Runtime)
      → IsNormal (some p)
      → Confined (Owns (some p)) rt.db (serve fl py g now (some p) r rt).db
  serve-Confined p r rt n =
      let steps = Confined-steps py now p n in
      serve-related fl py g now (some p) _ n steps steps r rt (λ subtask_id e.
        (fold_subtask-Holds n steps (λ e db o. link-Confined (Owns (some p)) e db)
            subtask_id).related
          rt)

  default-IsNormal : (p : Option Principal) → IsNormal p → IsNormal (some (principal_or_default p))
  unfolding legacy_principal new_principal
  default-IsNormal none n = normalize_tenant_idem (some default_tenant)
  default-IsNormal (some p) n = n

  pub serve-IsValid :
      (p : Option Principal) (r : Request) (rt : Runtime)
      → IsNormal p
      → FoldsSteps rt p r
      → IsValid rt.db
      → IsValid (serve fl py g now p r rt).db
  serve-IsValid p r rt n steps =
      serve-related fl py g now p (λ a b. IsValid a → IsValid b) n (IsValid-steps py now p)
        (IsValid-steps py now (some (principal_or_default p))) r rt
        (λ subtask_id e.
          fold_subtask-IsValid py now p subtask_id rt (default-IsNormal p n) (steps subtask_id e))

-- a principal of another tenant than `t`
abbrev pub IsOutsider : String → Option Principal → Type 0
IsOutsider t none = ⊥
IsOutsider t (some p) = IsNormal (some p) × (p.tenant_id ≢ t)

-- The caller's tenant is normalised, and what it folds is steps.
abbrev pub IsSound : Runtime → Option Principal → Request → Type 0
IsSound rt p r = IsNormal p × FoldsSteps rt p r

module _ (fl : Floats) (py : Python) (g : Governor fl) where
  -- Whatever sequence of writes, updates, deletes, forgets, purges, assemblies and folds is served to
  -- callers with normalised tenants, where no row of a sub-task that is folded has an edge leading
  -- to it or an id that begins with folded-, the tables stay well formed: keys stay unique, stored
  -- tenants stay normalised, and both ends of every fold edge are stored rows.
  pub Session-IsValid :
      (rt rt' : Runtime) → Session fl py g IsSound rt rt' → IsValid rt.db → IsValid rt'.db
  Session-IsValid rt rt' (idle _) v = v
  Session-IsValid rt rt' (request now p r _ _ (n, steps) rest) v =
      Session-IsValid (serve fl py g now p r rt) rt' rest
        (serve-IsValid fl py g now p r rt n steps v)

  -- However many principals with normalised tenants other than a given one send writes, updates,
  -- deletes, forgets, purges, assemblies and folds in whatever order, that tenant's rows and audit
  -- decisions stay the same, and no API key changes.
  pub Session-Confined :
      (t : String) (rt rt' : Runtime)
      → Session fl py g (λ rt p r. IsOutsider t p) rt rt'
      → Confined (λ u. u ≢ t) rt.db rt'.db
  Session-Confined t rt rt' (idle _) = Confined-refl (λ u. u ≢ t) rt.db
  Session-Confined t rt rt' (request now none r _ _ o rest) = absurd o
  Session-Confined t rt rt' (request now (some p) r _ _ (n, other) rest) =
      let served = serve fl py g now (some p) r rt in
      Confined-trans (λ u. u ≢ t) rt.db served.db rt'.db
        (OwnOnly-others p t rt.db served.db other (serve-Confined fl py g now p r rt n))
        (Session-Confined t served rt' rest)
