-- ===== src/Ops/Outcome.antt =====
-- What a write leaves, on each way that it can end.
use trilith.Prelude.{
  ℕ, String, ◌≡◌, refl, sym, ap, ◌∙◌, inl, inr, true, Option, none, some, find, is_empty,
  empty_of_is_empty, Bool-cases, string_eq,
}
use trilith.Exec.{Error, Result, ok, err, Result-cases}
use trilith.Python.{Python}
use trilith.Proto.{
  Tier, ContextItem, WriteAck, tier_name, scope_name, semantic, procedural, episodic,
  tier_unspecified, scope_eq,
}
use trilith.Identity.{Principal, normalize_tenant}
use trilith.Database.{Db, has_key, row_of}
use trilith.Database.Backend.{save}
use trilith.Database.Writes.Round.{find-save}
use trilith.Audit.{record_decision}
use trilith.Store.{Store, store_tier, write, semantic_store, procedural_store, episodic_store}
use trilith.Runtime.{Runtime, atomic_operation, settle}
use trilith.Ops.{
  write_item, write_stamped, write_decided, write_to, write_logged, write_denial, store_for,
  stamped, ensure_created_at, refused,
}

-- The row is there, under its key, as the item says.
abbrev pub IsStored : ContextItem → Option String → Db → Type 0
IsStored item subtask_id db =
    find (has_key (normalize_tenant (some item.tenant_id)) item.id) db.items
    ≡ some (row_of item subtask_id)

-- The ends of a write of the stamped `item`, from `rt` to `out`.
pub data IsOutcome (py : Python) (item : ContextItem) (p : Option Principal)
    (subtask_id : Option String) (rt : Runtime) (out : Runtime × Result WriteAck) : Type 0 where
  -- nothing speaks against it, and the item is stored
  wrote :
      (ack : WriteAck)
      → out.1 ≡ ok ack
      → ack.success ≡ true
      → write_denial py item p rt.db ≡ ok ""
      → IsStored item subtask_id out.0.db
      → IsOutcome py item p subtask_id rt out
  -- it is denied or has no tier: the rows, the edges and the log are as they were
  denied :
      (reason : String)
      → out.1 ≡ ok (refused reason)
      → out.0.db.items ≡ rt.db.items
      → out.0.db.derived ≡ rt.db.derived
      → out.0.events ≡ rt.events
      → IsOutcome py item p subtask_id rt out
  -- an exception: the whole state is as it was
  raised : (e : Error) → out.1 ≡ err e → out.0 ≡ rt → IsOutcome py item p subtask_id rt out

store_for-tier :
    (t : Tier) (s : Store)
    → store_for t ≡ some s
    → (store_tier s ≡ t) × (n : String) × (tier_name t ≡ ok n)
unfolding store_for tier_name
store_for-tier semantic s h =
    let e : semantic_store ≡ s = cc in (ap (λ x. store_tier x) (sym e), "SEMANTIC", refl)
store_for-tier procedural s h =
    let e : procedural_store ≡ s = cc in (ap (λ x. store_tier x) (sym e), "PROCEDURAL", refl)
store_for-tier episodic s h =
    let e : episodic_store ≡ s = cc in (ap (λ x. store_tier x) (sym e), "EPISODIC", refl)
store_for-tier tier_unspecified s h = cc
store_for-tier (Tier.other n) s h = cc

module _ (py : Python) (now : ℕ) (p : Option Principal) (subtask_id : Option String) (rt : Runtime)
    (item : ContextItem) where
  stored_by :
      (s : Store)
      → store_tier s ≡ item.tier
      → write s item subtask_id rt.db ≡ save item subtask_id rt.db
  unfolding write
  stored_by s e = rw e refl

  to_store :
      (s : Store) (name : String)
      → store_tier s ≡ item.tier
      → tier_name item.tier ≡ ok name
      → write_denial py item p rt.db ≡ ok ""
      → IsOutcome py item p subtask_id rt
          (settle rt.db (write_to now item p subtask_id (some s) rt))
  unfolding write_to write_logged record_decision
  to_store s name e n d = elim (Result-cases (scope_name item.scope)) [
    | inl (scope, q) ↦
        rw (n, q) (wrote _ refl refl d (rw (stored_by s e) (find-save item subtask_id rt.db)))
    | inr (er, q) ↦ rw (n, q) (raised er refl refl)
  ]

  to_optional :
      (o : Option Store)
      → store_for item.tier ≡ o
      → write_denial py item p rt.db ≡ ok ""
      → IsOutcome py item p subtask_id rt (settle rt.db (write_to now item p subtask_id o rt))
  unfolding write_to
  to_optional none e d = denied _ refl refl refl refl
  to_optional (some s) e d =
      let (t, name, n) = store_for-tier item.tier s e in to_store s name t n d

  decided :
      (reason : String)
      → write_denial py item p rt.db ≡ ok reason
      → IsOutcome py item p subtask_id rt
          (settle rt.db (write_decided now item p subtask_id reason rt))
  unfolding record_decision
  decided reason d = elim (Bool-cases (is_empty reason)) [
    | inl e ↦ rw e (to_optional (store_for item.tier) refl (d ∙ ap ok (empty_of_is_empty reason e)))
    | inr e ↦ rw e (denied reason refl refl refl refl)
  ]

  write_stamped-outcome :
      IsOutcome py item p subtask_id rt
        (atomic_operation (write_stamped py now item p subtask_id) rt)
  unfolding atomic_operation write_stamped
  write_stamped-outcome = elim (Result-cases (write_denial py item p rt.db)) [
    | inl (reason, q) ↦ rw q (decided reason q)
    | inr (e, q) ↦ rw q (raised e refl refl)
  ]

-- Every write ends in one of three ways: the stamped item passed every test and its row is stored
-- under its key as written; or the answer is a refusal, and rows, fold edges and log are
-- as before; or an exception is raised, and the whole state is as before.
pub write_item-outcome :
    (py : Python) (now : ℕ) (item : ContextItem) (p : Option Principal) (subtask_id : Option String)
    (rt : Runtime)
    → IsOutcome py
        (stamped p (ensure_created_at now item))
        p
        subtask_id
        rt
        (write_item py now item p subtask_id rt)
unfolding write_item
write_item-outcome py now item p subtask_id rt =
    write_stamped-outcome py now p subtask_id rt (stamped p (ensure_created_at now item))
