-- ===== src/Examples/Access.antt =====
-- Runs of the policy, the keys, the logs and the operations.
use trilith.Ops.{
  write_logged, store_for, write_to, denial, write_denial, write_item, stamped, ensure_created_at,
}
use trilith.Ops.Removal.{forget_guard, forget_scope}
use trilith.Store.{semantic_store, procedural_store, forget, parse_scope}
use trilith.Database.Backend.{get}
use trilith.Proto.{user, tier_name, ContextItem, scope_name, scope_value}
use trilith.Database.{row_to_item, item_of}
use trilith.Identity.{stamp, Principal, normalize_tenant, new_principal, from_pb, to_pb, can}
use trilith.Prelude.Sort.{sort_by}
use trilith.Privacy.{redact, explain, filter_from}
use trilith.Prelude.{ascii_upper}
use trilith.Exec.{ok, err, permission_error}
use trilith.Python.{Python, plain_python}
use trilith.Identity.Stamp.{from_pb-to_pb}
use trilith.Privacy.Isolation.{IsAdmitted, filter-allowed}
use trilith.Database.Confined.{Confined}
use trilith.Database.Writes.{IsValid}
use trilith.Audit.{read_decisions}
use trilith.Audit.Reading.{IsReading, read_decisions-IsReading}
use trilith.Store.Forget.{IsForgotten, forget-IsForgotten}
use trilith.Runtime.{Runtime, atomic_operation}
use trilith.Ops.Steps.{IsNormal}
use mathlib.Core.Bool.{false≢true}
use text.Mathlib.Text.{starts_with}
use text.Mathlib.TextPositions.{starts_with-append}
use trilith.Floats.{naturals}
use trilith.Governor.{whole}
use trilith.Fold.Validity.{AreSteps}
use trilith.Examples.Budget.{governor}
use trilith.Examples.Folding.{caller}
use trilith.Ops.Session.{
  Request, Session, idle, request, serve, FoldsSteps, Session-Confined, Session-IsValid,
}
use trilith.Ops.Outcome.{IsOutcome, IsStored, write_item-outcome}
use trilith.Ops.Grant.{IsGranted, write_item-IsGranted}
use trilith.Examples.Data.{ada, admin, note, note_row, foreign_row, decision, tables, runtime}
use trilith.Examples.Tables.{tables-IsValid, step-IsPrimary}
use trilith.Prelude.{
  String, ◌≡◌, ◌≢◌, refl, true, false, List, [], ◌∷◌, Option, none, some, Occurs, find, inl, inr,
  ◌<>◌, ◌∙◌, sym, strip, filter, any,
}

abbrev py : Python
py = plain_python

ada-IsNormal : IsNormal (some ada)
unfolding normalize_tenant strip
ada-IsNormal = refl

admin-IsNormal : IsNormal (some admin)
unfolding normalize_tenant strip
admin-IsNormal = refl

-- a member of acme folds, ada reads, an administrator forgets, and ada writes
abbrev folded_first : Runtime
folded_first = serve naturals py governor 7 (some caller) (Request.fold "t") runtime

abbrev assembled : Runtime
assembled = serve naturals py governor 8 (some ada) (Request.assemble "tea" (whole 10)) folded_first

abbrev forgotten : Runtime
forgotten = serve naturals py governor 9 (some admin) (Request.forget "tenant") assembled

abbrev rewritten : Runtime
rewritten = serve naturals py governor 10 (some ada) (Request.write note none) forgotten

session :
    {P : Runtime → Option Principal → Request → Type 0}
    → P runtime (some caller) (Request.fold "t")
    → P folded_first (some ada) (Request.assemble "tea" (whole 10))
    → P assembled (some admin) (Request.forget "tenant")
    → P forgotten (some ada) (Request.write note none)
    → Session naturals py governor P runtime rewritten
session a b c d = request 7 (some caller) (Request.fold "t") runtime rewritten a (
    request 8 (some ada) (Request.assemble "tea" (whole 10)) folded_first rewritten b (
      request 9 (some admin) (Request.forget "tenant") assembled rewritten c
        (request 10 (some ada) (Request.write note none) forgotten rewritten d (idle rewritten))))

not_folded : (id : String) → starts_with id "folded-" ≡ false → (s : String) → id ≢ "folded-" <> s
not_folded id h s e = false≢true (sym (rw e at h) ∙ starts_with-append "folded-" s)

tables-AreSteps : AreSteps caller "t" tables
tables-AreSteps r (inl e) tier t sub = cc
tables-AreSteps r (inr (inl e)) tier t sub = rw e (step-IsPrimary, not_folded "p1" refl)
tables-AreSteps r (inr (inr (inl e))) tier t sub = cc
tables-AreSteps r (inr (inr (inr (inl e)))) tier t sub = cc
tables-AreSteps r (inr (inr (inr (inr o)))) tier t sub = absurd o

folds_steps : FoldsSteps runtime (some caller) (Request.fold "t")
folds_steps s e = let t : "t" ≡ s = cc in rw (sym t) tables-AreSteps

Session-IsValid_example : IsValid rewritten.db
Session-IsValid_example =
    Session-IsValid naturals py governor runtime rewritten
      (session (ada-IsNormal, folds_steps) (ada-IsNormal, λ s e. cc) (admin-IsNormal, λ s e. cc)
        (ada-IsNormal, λ s e. cc))
      tables-IsValid

acme-other : ◌≢◌ {A = String} "acme" "other"
acme-other h = cc

Session-Confined_example : Confined (λ u. u ≢ "other") runtime.db rewritten.db
Session-Confined_example = Session-Confined naturals py governor "other" runtime rewritten (
    session (ada-IsNormal, acme-other) (ada-IsNormal, acme-other) (admin-IsNormal, acme-other)
      (ada-IsNormal, acme-other))

write_item-outcome_example :
    IsOutcome py
      (stamped (some ada) (ensure_created_at 9 note))
      (some ada)
      none
      runtime
      (write_item py 9 note (some ada) none runtime)
write_item-outcome_example = write_item-outcome py 9 note (some ada) none runtime

write_run :
    (write_item py 9 note (some admin) none runtime).1
    ≡ ok (record { success = true; message = "Wrote n1" })
unfolding write_item atomic_operation write_denial get find normalize_tenant strip stamp
    ensure_created_at row_to_item tier_name scope_name denial can any write_to store_for
    write_logged
write_run = refl

write_item-IsGranted_example :
    IsStored
      (stamped (some admin) (ensure_created_at 9 note))
      none
      (write_item py 9 note (some admin) none runtime).0.db
    × IsGranted py (stamped (some admin) (ensure_created_at 9 note)) admin
write_item-IsGranted_example =
    write_item-IsGranted py 9 note admin none runtime
      (record { success = true; message = "Wrote n1" }) write_run refl

forget_denied :
    (atomic_operation (forget_scope py 9 "tenant" (some ada)) runtime).1
    ≡ err (permission_error "Scoped identity or tenant_admin capability required")
unfolding atomic_operation forget_scope forget_guard can any ascii_upper
forget_denied = refl

scope_parsed : parse_scope py "user" ≡ some user
unfolding parse_scope scope_value ascii_upper
scope_parsed = refl

forget-IsForgotten_example :
    IsForgotten user
      (some admin)
      tables
      (forget py "user" (semantic_store ∷ procedural_store ∷ []) (some admin) tables).0
forget-IsForgotten_example =
    forget-IsForgotten py "user" (some admin) tables user scope_parsed tables-IsValid

abbrev candidates : List ContextItem
candidates = item_of note_row ∷ item_of foreign_row ∷ []

note_admitted : Occurs (item_of note_row) (filter_from py candidates ada 9).0
unfolding filter_from explain item_of normalize_tenant strip redact
note_admitted = inl refl

filter-allowed_example : IsAdmitted py ada 9 candidates (item_of note_row)
filter-allowed_example = filter-allowed py ada 9 candidates (item_of note_row) note_admitted

foreign_denied : (explain py (item_of foreign_row) ada 9).0 ≡ false
unfolding explain item_of normalize_tenant strip
foreign_denied = refl

from_pb-to_pb_example :
    from_pb (some (to_pb (new_principal "acme" "ada" "s1" "" ("tenant_admin" ∷ []) true))) ""
    ≡ new_principal "acme" "ada" "s1" "" [] false
from_pb-to_pb_example = from_pb-to_pb "acme" "ada" "s1" "" ("tenant_admin" ∷ []) true

decisions_read : read_decisions admin 10 tables ≡ ok (decision ∷ [])
unfolding read_decisions can any sort_by filter
decisions_read = refl

read_decisions-IsReading_example : IsReading admin tables (decision ∷ [])
read_decisions-IsReading_example =
    read_decisions-IsReading admin 10 tables (decision ∷ []) decisions_read
