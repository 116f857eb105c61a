-- ===== src/Ops/Steps.antt =====
-- The statements that the operations are made of, as an interface: what holds of every statement,
-- whichever relation between databases it is, holds of every operation.
pub mod Writing
pub mod Removal
pub mod Reading
pub mod Folding
use package.text.Mathlib.TextEquality.{eq_iff}
use trilith.Prelude.{
  ℕ, String, ◌≡◌, Bool, true, false, List, [], ◌∷◌, Option, none, some, is_empty, string_eq,
  if◌then◌else◌, arith,
}
use trilith.Exec.{Result}
use trilith.Python.{Python}
use trilith.Proto.{Scope, ContextItem, tier_name, scope_name}
use trilith.Identity.{Principal, normalize_tenant, stamp}
use trilith.Database.{Db, Row, Value, text, number, has_key}
use trilith.Database.Cascade.{delete_where}
use trilith.Database.Backend as Backend
use trilith.Database.Backend.{by_scope, purge_clause}
use trilith.Audit.{record_decision}
use trilith.Store.{
  Store, write, forget, notify, purge_store, parse_scope, store_tier, forget_tenant_id,
  forget_owner, forget_session, semantic_store, procedural_store, episodic_store, forget_parsed,
}
use trilith.Runtime.{Action, ◌>>=◌, return, reads, value, changes, runs, audit}
use trilith.Runtime.Keeps.{Keeps, bind-Keeps, atomic_operation-Keeps}
use trilith.Ops.{
  write_denial, write_item, update_item, write_logged, update_logged, write_to, write_stamped,
  update_to, update_stamped, store_for, deny, refused, tenant_of, write_decided, update_decided,
  ensure_created_at, stamped, in_tenant,
}
use trilith.Ops.Removal.{
  delete_item, forget_scope, forget_guard, purge_expired, forget_logged, delete_denial,
  delete_allowed, erase_audit, delete_decided, delete_logged, bare_principal,
}

-- The principal's tenant is normalised, as that of every principal that `new_principal` makes.
abbrev pub IsNormal : Option Principal → Type 0
IsNormal none = Unit
IsNormal (some p) = normalize_tenant (some p.tenant_id) ≡ p.tenant_id

-- A tenant that the principal may change. A caller in the process may change any.
abbrev pub Owns : Option Principal → String → Type 0
Owns none t = Unit
Owns (some p) t = t ≡ p.tenant_id

pub record Steps (py : Python) (now : ℕ) (p : Option Principal) (R : Db → Db → Type 0)
    : Type 0 where
  pub same : (a : Db) → R a a
  pub both : (a b c : Db) → R a b → R b c → R a c
  pub saves :
      (item : ContextItem) (subtask_id : Option String) (db : Db)
      → Owns p (normalize_tenant (some item.tenant_id))
      → R db (Backend.save item subtask_id db)
  pub deletes :
      (test : Row → Bool) (db : Db)
      → ((r : Row) → test r ≡ true → Owns p r.tenant_id)
      → R db (delete_where test db).0
  pub audits :
      (operation decision : String) (detail : List (String × Value)) (db : Db)
      → R db (record_decision now p operation decision detail db)
  pub completes :
      (operation decision : String) (detail : List (String × Value)) (db : Db)
      → R db (record_decision now (bare_principal p) operation decision detail db)
  pub erases : (scope : String) (db : Db) → R db (erase_audit py scope p db)

-- An action `Keeps R` when the relation holds of the database before and after, whether the action
-- returns or raises.
module _ {py : Python} {now : ℕ} {p : Option Principal} {R : Db → Db → Type 0}
    (steps : Steps py now p R) where
  pub and_then :
      {A B : Type 0} (m : Action A) (f : A → Action B)
      → Keeps R m
      → ((a : A) → Keeps R (f a))
      → Keeps R (m >>= f)
  and_then m f h k = bind-Keeps R steps.same steps.both m f h k

  pub branch :
      {A : Type 0} (b : Bool) (m n : Action A)
      → Keeps R m
      → Keeps R n
      → Keeps R (if b then m else n)
  branch true m n h k = h
  branch false m n h k = k

  pub deny-Holds : (reason : String) → Keeps R (deny now p reason)
  deny-Holds reason = record { related = λ rt. steps.audits _ _ _ rt.db }

  pub reads-Holds : {A : Type 0} (f : Db → Result A) → Keeps R (reads f)
  reads-Holds f = record { related = λ rt. steps.same rt.db }

  pub value-Holds : {A : Type 0} (r : Result A) → Keeps R (value r)
  value-Holds r = record { related = λ rt. steps.same rt.db }

  pub return-Holds : {A : Type 0} (a : A) → Keeps R (return a)
  return-Holds a = record { related = λ rt. steps.same rt.db }

  -- what follows the write of the row and its audit record: names that may be missing, and an event
  pub named_event :
      {A : Type 0} (item : ContextItem) (f : String → String → Action A)
      → ((tier scope : String) → Keeps R (f tier scope))
      → Keeps R (value (tier_name item.tier) >>= λ tier. value (scope_name item.scope) >>= f tier)
  named_event item f h =
      and_then (value (tier_name item.tier)) _ (value-Holds (tier_name item.tier)) (λ tier.
        and_then (value (scope_name item.scope)) (f tier) (value-Holds (scope_name item.scope))
          (h tier))
