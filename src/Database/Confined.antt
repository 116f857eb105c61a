-- ===== src/Database/Confined.antt =====
-- Changes that are confined to some tenants, and the statements that make such changes.
use trilith.Prelude.{
  ℕ, String, ◌≡◌, refl, ◌∙◌, inl, inr, Bool, true, List, [], ◌∷◌, ◌++◌, Option, some, Occurs,
  Occurs-append, append-Occurs_left, Occurs-filter, filter-Occurs, length, string_eq, beq_of_ne,
}
use trilith.Python.{Python}
use trilith.Proto.{ContextItem}
use trilith.Identity.{Principal, normalize_tenant}
use trilith.Database.{Db, Row, Decision, Value, row_of}
use trilith.Database.Erasure.{IsErasure, Only}
use trilith.Database.Erasure.Nested.{erase-IsErasure}
use trilith.Database.Erasure.Statement.{delete_where-IsDeleted, IsErasure-weaken}
use trilith.Database.Cascade.{erase, delete_where}
use trilith.Database.Backend.{save}
use trilith.Audit.{record_decision, erase_decisions, principal_or_default}

-- What tenants outside `T` have is the same in both states.
pub record Confined (T : String → Type 0) (a b : Db) : Type 0 where
  pub kept : (r : Row) → ¬ T r.tenant_id → Occurs r a.items → Occurs r b.items
  pub no_more : (r : Row) → ¬ T r.tenant_id → Occurs r b.items → Occurs r a.items
  pub decisions_kept : (d : Decision) → ¬ T d.tenant_id → Occurs d a.audit → Occurs d b.audit
  pub no_more_decisions : (d : Decision) → ¬ T d.tenant_id → Occurs d b.audit → Occurs d a.audit
  pub keys : b.api_keys ≡ a.api_keys

pub Confined-weaken :
    (T U : String → Type 0) (a b : Db)
    → ((t : String) → T t → U t)
    → Confined T a b
    → Confined U a b
Confined-weaken T U a b w h = record {
  kept = λ r n o. h.kept r (λ k. n (w r.tenant_id k)) o;
  no_more = λ r n o. h.no_more r (λ k. n (w r.tenant_id k)) o;
  decisions_kept = λ d n o. h.decisions_kept d (λ k. n (w d.tenant_id k)) o;
  no_more_decisions = λ d n o. h.no_more_decisions d (λ k. n (w d.tenant_id k)) o;
  keys = h.keys;
}

module _ (T : String → Type 0) where
  pub Confined-refl : (a : Db) → Confined T a a
  Confined-refl a = record {
    kept = λ r n o. o;
    no_more = λ r n o. o;
    decisions_kept = λ d n o. o;
    no_more_decisions = λ d n o. o;
    keys = refl;
  }

  pub Confined-trans : (a b c : Db) → Confined T a b → Confined T b c → Confined T a c
  Confined-trans a b c h k = record {
    kept = λ r n o. k.kept r n (h.kept r n o);
    no_more = λ r n o. h.no_more r n (k.no_more r n o);
    decisions_kept = λ d n o. k.decisions_kept d n (h.decisions_kept d n o);
    no_more_decisions = λ d n o. h.no_more_decisions d n (k.no_more_decisions d n o);
    keys = k.keys ∙ h.keys;
  }

  IsErasure-Confined : (a b : Db) → IsErasure T a b → Confined T a b
  IsErasure-Confined a b h = record {
    kept = h.others;
    no_more = λ r n o. h.rows r o;
    decisions_kept = h.other_decisions;
    no_more_decisions = λ d n o. h.decisions d o;
    keys = h.keys;
  }

  pub delete_where-Confined :
      (test : Row → Bool) (db : Db)
      → ((r : Row) → test r ≡ true → T r.tenant_id)
      → Confined T db (delete_where test db).0
  delete_where-Confined test db h =
      IsErasure-Confined db (delete_where test db).0 (delete_where-IsDeleted T test db h).erasure

  appended :
      {A : Type 0} (t : A → String) (x : A) (xs : List A) (y : A)
      → T (t x)
      → ¬ T (t y)
      → Occurs y (xs ++ x ∷ [])
      → Occurs y xs
  appended t x xs y h n o = elim (Occurs-append xs (x ∷ []) y o) [
    | inl i ↦ i
    | inr (inl e) ↦ absurd (n (rw e h))
    | inr (inr e) ↦ absurd e
  ]

  pub save-Confined :
      (item : ContextItem) (subtask_id : Option String) (db : Db)
      → T (normalize_tenant (some item.tenant_id))
      → Confined T db (save item subtask_id db)
  unfolding save row_of
  save-Confined item subtask_id db h =
      let r = row_of item subtask_id in
      let cleared = erase (length db.items) r.tenant_id r.id db in
      let e = IsErasure-Confined db cleared (
        IsErasure-weaken (Only r.tenant_id) T db cleared (λ t q. rw q h)
          (erase-IsErasure (length db.items) r.tenant_id r.id db)) in
      record {
        kept = λ s n o. append-Occurs_left cleared.items (r ∷ []) s (e.kept s n o);
        no_more =
            λ s n o. e.no_more s n (appended (λ (x : Row). x.tenant_id) r cleared.items s h n o);
        decisions_kept = e.decisions_kept;
        no_more_decisions = e.no_more_decisions;
        keys = e.keys;
      }

  pub record_decision-Confined :
      (now : ℕ) (p : Option Principal) (operation decision : String)
      (detail : List (String × Value)) (db : Db)
      → T (principal_or_default p).tenant_id
      → Confined T db (record_decision now p operation decision detail db)
  unfolding record_decision
  record_decision-Confined now p operation decision detail db h = record {
    kept = λ s n o. o;
    no_more = λ s n o. o;
    decisions_kept = λ d n o. append-Occurs_left db.audit _ d o;
    no_more_decisions = λ d n o. appended (λ (x : Decision). x.tenant_id) _ db.audit d h n o;
    keys = refl;
  }

  pub erase_decisions-Confined :
      (py : Python) (p : Principal) (scope : String) (db : Db)
      → T p.tenant_id
      → Confined T db (erase_decisions py p scope db)
  unfolding erase_decisions
  erase_decisions-Confined py p scope db h = record {
    kept = λ s n o. o;
    no_more = λ s n o. o;
    decisions_kept = λ d n o.
        filter-Occurs _ db.audit d o
          (rw (beq_of_ne d.tenant_id p.tenant_id (λ e. n (rw e h))) refl);
    no_more_decisions = λ d n o. (Occurs-filter _ db.audit d o).0;
    keys = refl;
  }
