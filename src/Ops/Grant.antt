-- ===== src/Ops/Grant.antt =====
-- What a principal must hold for a write that is answered with success.
use mathlib.Core.Bool.{false≢true}
use trilith.Prelude.{
  ℕ, String, ◌≡◌, refl, sym, ap, ◌∙◌, Bool, true, false, not, ◌&&◌, ◌||◌, Option, some, is_empty,
  arith, if◌then◌else◌, ◌==◌, string_eq,
}
use trilith.Exec.{Result, ok, err}
use trilith.Python.{Python}
use trilith.Proto.{Scope, ContextItem, WriteAck, global, user, session, scope_eq, scope_beq_iff}
use trilith.Identity.{Principal, can}
use trilith.Privacy.Visibility.{Visible, check_visibility_iff}
use trilith.Database.Backend.{get}
use trilith.Runtime.{Runtime}
use trilith.Ops.{
  is_global, unseen, denial_of, write_item, write_denial, denial, stamped, ensure_created_at,
  refused,
}
use trilith.Ops.Outcome.{IsOutcome, wrote, denied, raised, IsStored, write_item-outcome}

-- What a principal must hold for a write of `item`.
pub record IsGranted (py : Python) (item : ContextItem) (p : Principal) : Type 0 where
  pub publishes : item.scope ≡ global → can p "publish_global" ≡ true
  pub sees : can p "tenant_admin" ≡ false → Visible py item p
  pub owner : can p "tenant_admin" ≡ false → item.scope ≡ user → is_empty item.owner_id ≡ false
  pub session :
      can p "tenant_admin" ≡ false → item.scope ≡ session → is_empty item.session_id ≡ false

-- The answer of the tests, by the values of the conditions that they read.
abbrev answer : Bool → Bool → Bool → Bool → Bool → Bool → String
answer g can_publish admin unseen_by bare_user bare_session =
    if g && not can_publish
    then "publish_global capability required"
    else if admin
    then ""
    else if unseen_by
    then "Item is outside principal scope"
    else if bare_user
    then "USER requires owner_id"
    else if bare_session
    then "SESSION requires session_id"
    else ""

passes :
    (g can_publish admin unseen_by bare_user bare_session : Bool)
    → answer g can_publish admin unseen_by bare_user bare_session ≡ ""
    → (g ≡ true → can_publish ≡ true)
      × (admin ≡ false → (unseen_by ≡ false) × (bare_user ≡ false) × (bare_session ≡ false))
passes true false admin u b s h = cc
passes true true true u b s h = (λ e. refl, λ e. cc)
passes true true false true b s h = cc
passes true true false false true s h = cc
passes true true false false false true h = cc
passes true true false false false false h = (λ e. refl, λ e. (refl, refl, refl))
passes false c true u b s h = (λ e. cc, λ e. cc)
passes false c false true b s h = cc
passes false c false false true s h = cc
passes false c false false false true h = cc
passes false c false false false false h = (λ e. cc, λ e. (refl, refl, refl))

same_scope : (s t : Scope) → s ≡ t → (s == t) ≡ true
same_scope s t e = (scope_beq_iff s t).1 e

or-false : (a b : Bool) → (a || b) ≡ false → (a ≡ false) × (b ≡ false)
or-false a b h = ground arith

when : (a b : Bool) → (a && b) ≡ false → a ≡ true → b ≡ false
when a b h e = ground arith

not-not : (b : Bool) → not b ≡ false → b ≡ true
not-not b h = ground arith

denial-IsGranted :
    (py : Python) (item : ContextItem) (p : Principal) (existing : Option ContextItem)
    → denial py item p existing ≡ ""
    → IsGranted py item p
unfolding denial
denial-IsGranted py item p existing h =
    let (publish, rest) =
      passes (item.scope == global || is_global existing) (can p "publish_global")
        (can p "tenant_admin") (unseen py p existing || unseen py p (some item))
        (item.scope == user && is_empty item.owner_id)
        (item.scope == session && is_empty item.session_id) h in
    record {
      publishes = λ e. publish (rw (same_scope item.scope global e) refl);
      sees = λ n.
          (check_visibility_iff py item p).0
            (not-not _ (or-false (unseen py p existing) (unseen py p (some item)) (rest n).0).1);
      owner = λ n e. when (item.scope == user) _ (rest n).1 (same_scope item.scope user e);
      session = λ n e. when (item.scope == session) _ (rest n).2 (same_scope item.scope session e);
    }

denial_of-IsGranted :
    (py : Python) (item : ContextItem) (p : Principal) (existing : Result (Option ContextItem))
    → denial_of py item p existing ≡ ok ""
    → IsGranted py item p
denial_of-IsGranted py item p (ok existing) h = denial-IsGranted py item p existing cc
denial_of-IsGranted py item p (err e) h = cc

-- A write by a principal that is answered with success stores the stamped item in the principal's
-- own tenant, and was within its rights: GLOBAL takes publish_global, and without tenant_admin
-- the item is one that the principal may see, with its owner or session named where the scope
-- is USER or SESSION.
pub write_item-IsGranted :
    (py : Python) (now : ℕ) (item : ContextItem) (p : Principal) (subtask_id : Option String)
    (rt : Runtime) (ack : WriteAck)
    → (write_item py now item (some p) subtask_id rt).1 ≡ ok ack
    → ack.success ≡ true
    → IsStored
        (stamped (some p) (ensure_created_at now item))
        subtask_id
        (write_item py now item (some p) subtask_id rt).0.db
      × IsGranted py (stamped (some p) (ensure_created_at now item)) p
unfolding write_denial
write_item-IsGranted py now item p subtask_id rt ack h s =
    from (write_item-outcome py now item (some p) subtask_id rt)
  where
    it : ContextItem
    it = stamped (some p) (ensure_created_at now item)

    granted : write_denial py it (some p) rt.db ≡ ok "" → IsGranted py it p
    granted d = denial_of-IsGranted py it p (get it.id (some p.tenant_id) rt.db) d

    from :
        IsOutcome py it (some p) subtask_id rt (write_item py now item (some p) subtask_id rt)
        → IsStored it subtask_id (write_item py now item (some p) subtask_id rt).0.db
          × IsGranted py it p
    from (wrote a e t d stored) = (stored, granted d)
    from (denied reason e i x v) =
        let q : ack ≡ refused reason = cc in absurd (false≢true (sym (ap (λ a. a.success) q) ∙ s))
    from (raised er e q) = cc
