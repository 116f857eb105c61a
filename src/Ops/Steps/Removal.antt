-- ===== src/Ops/Steps/Removal.antt =====
-- What holds of every statement holds of `delete_item`, `forget_scope` and `purge_expired` of
-- core/ops.py.
use package.text.Mathlib.TextEquality.{eq_iff}
use trilith.Prelude.{
  ℕ, String, ◌≡◌, Bool, true, false, List, [], ◌∷◌, Option, none, some, is_empty, string_eq, arith,
}
use trilith.Python.{Python}
use trilith.Proto.{Scope}
use trilith.Identity.{Principal, normalize_tenant}
use trilith.Database.{Db, Row, number, has_key}
use trilith.Database.Backend as Backend
use trilith.Database.Backend.{by_scope, purge_clause}
use trilith.Store.{
  Store, forget, notify, purge_store, parse_scope, store_tier, forget_tenant_id, forget_owner,
  forget_session, semantic_store, procedural_store, episodic_store, forget_parsed,
}
use trilith.Runtime.{Action, return, reads, value, changes, runs}
use trilith.Runtime.Keeps.{Keeps, atomic_operation-Keeps}
use trilith.Ops.{tenant_of}
use trilith.Ops.Removal.{
  delete_item, forget_scope, forget_guard, purge_expired, forget_logged, delete_denial,
  delete_allowed, erase_audit, delete_decided, delete_logged,
}
use trilith.Ops.Steps.{
  IsNormal, Owns, Steps, and_then, branch, reads-Holds, value-Holds, return-Holds,
}

module _ (py : Python) (now : ℕ) (p : Option Principal) (normal : IsNormal p) (R : Db → Db → Type 0)
    (steps : Steps py now p R) where
  -- The relation holds of the database before and after, whether the action returns or raises.
  abbrev pub Holds : {A : Type 0} → Action A → Type 0
  Holds m = Keeps R m

  key-Owns :
      (q : Option Principal) (id : String) (r : Row)
      → IsNormal q
      → has_key (normalize_tenant (tenant_of q)) id r ≡ true
      → Owns q r.tenant_id
  key-Owns none id r n h = tt
  key-Owns (some q) id r n h =
      ground (arith, eq_iff r.tenant_id (normalize_tenant (some q.tenant_id)))

  delete_logged-Holds : (id : String) (deleted : Bool) → Holds (delete_logged now id p deleted)
  unfolding delete_logged
  delete_logged-Holds id false = return-Holds steps false
  delete_logged-Holds id true = record { related = λ rt. steps.same rt.db }

  delete_allowed-Holds : (id : String) → Holds (delete_allowed now id p)
  unfolding delete_allowed Backend.delete
  delete_allowed-Holds id =
      and_then steps (runs (Backend.delete id (tenant_of p))) (delete_logged now id p)
        (record { related = λ rt. steps.deletes _ rt.db (λ r h. key-Owns p id r normal h) })
        (delete_logged-Holds id)

  pub delete_item-Holds : (id : String) → Holds (delete_item py now id p)
  unfolding delete_item
  delete_item-Holds id = atomic_operation-Keeps R steps.same steps.both _ (
      and_then steps (reads (Backend.get id (tenant_of p))) _
        (reads-Holds steps (Backend.get id (tenant_of p)))
        (λ existing.
          and_then steps (reads (delete_denial py existing p)) (delete_decided now id p)
            (reads-Holds steps (delete_denial py existing p))
            (λ reason.
              branch steps (is_empty reason) (delete_allowed now id p) (return false)
                (delete_allowed-Holds id) (return-Holds steps false))))

  scope-Owns :
      (q : Option Principal) (scope : Scope) (store : Store) (r : Row)
      → IsNormal q
      → by_scope scope
          (some (store_tier store))
          (forget_tenant_id q)
          (forget_owner scope q)
          (forget_session scope q)
          r
        ≡ true
      → Owns q r.tenant_id
  scope-Owns none scope store r n h = tt
  scope-Owns (some q) scope store r n h =
      ground (arith, eq_iff r.tenant_id (normalize_tenant (some q.tenant_id)))

  purge_store-related :
      (scope : Scope) (store : Store) (db : Db) → R db (purge_store scope p store db).0
  unfolding Backend.delete_by_scope
  purge_store-related scope store db =
      steps.deletes _ db (λ r h. scope-Owns p scope store r normal h)

  notify-related : (scope : Scope) (stores : List Store) (db : Db) → R db (notify scope p stores db)
  unfolding notify
  notify-related scope [] db = steps.same db
  notify-related scope (store ∷ stores) db =
      steps.both db _ _ (purge_store-related scope store db)
        (notify-related scope stores (purge_store scope p store db).0)

  pub forget-related :
      (scope : String) (stores : List Store) (db : Db) → R db (forget py scope stores p db).0
  unfolding forget
  forget-related scope stores db = parsed (parse_scope py scope)
    where
      parsed : (o : Option Scope) → R db (forget_parsed o stores p db).0
      parsed none = steps.same db
      parsed (some s) =
          steps.both db _ _ (notify-related s stores db)
            (purge_store-related s episodic_store (notify s p stores db))

  pub forget_scope-Holds : (scope : String) → Holds (forget_scope py now scope p)
  unfolding forget_scope forget_logged
  forget_scope-Holds scope = atomic_operation-Keeps R steps.same steps.both _ (
      and_then steps (value (forget_guard (py.upper scope) p)) _
        (value-Holds steps (forget_guard (py.upper scope) p))
        (λ _.
          and_then steps (runs (forget py scope (semantic_store ∷ procedural_store ∷ []) p)) _
            (record {
              related = λ rt. forget-related scope (semantic_store ∷ procedural_store ∷ []) rt.db;
            })
            (λ count.
              and_then steps (changes (erase_audit py scope p))
                (λ _. forget_logged py now scope p count)
                (record { related = λ rt. steps.erases scope rt.db })
                (λ _. record {
                  related = λ rt.
                      steps.completes "forget" "completed" (("count", number count) ∷ []) rt.db;
                }))))

  purge-Owns :
      (q : Option Principal) (r : Row)
      → IsNormal q
      → purge_clause now (tenant_of q) r ≡ true
      → Owns q r.tenant_id
  purge-Owns none r n h = tt
  purge-Owns (some q) r n h =
      ground (arith, eq_iff r.tenant_id (normalize_tenant (some q.tenant_id)))

  pub purge_expired-Holds : Holds (purge_expired now p)
  unfolding purge_expired Backend.purge_expired
  purge_expired-Holds = record {
    related = λ rt. steps.deletes _ rt.db (λ r h. purge-Owns p r normal h);
  }
