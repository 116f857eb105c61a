-- ===== src/Ops/Steps/Writing.antt =====
-- What holds of every statement holds of `write_item` and `update_item` of core/ops.py.
use trilith.Prelude.{ℕ, String, List, [], ◌∷◌, Option, none, some, is_empty, string_eq}
use trilith.Python.{Python}
use trilith.Proto.{ContextItem}
use trilith.Identity.{Principal, normalize_tenant, stamp}
use trilith.Database.{Db, text}
use trilith.Store.{Store, write}
use trilith.Runtime.{Action, reads, changes, audit}
use trilith.Runtime.Keeps.{Keeps, atomic_operation-Keeps}
use trilith.Ops.{
  write_denial, write_item, update_item, write_logged, update_logged, write_to, write_stamped,
  update_to, update_stamped, store_for, deny, refused, write_decided, update_decided,
  ensure_created_at, stamped, in_tenant,
}
use trilith.Ops.Steps.{
  IsNormal, Owns, Steps, and_then, branch, deny-Holds, reads-Holds, return-Holds, named_event,
}

module _ (py : Python) (now : ℕ) (p : Option Principal) (normal : IsNormal p) (R : Db → Db → Type 0)
    (steps : Steps py now p R) where
  -- The relation holds of the database before and after, whether the action returns or raises.
  abbrev pub Holds : {A : Type 0} → Action A → Type 0
  Holds m = Keeps R m

  write-Holds :
      (store : Store) (item : ContextItem) (subtask_id : Option String)
      → Owns p (normalize_tenant (some item.tenant_id))
      → Holds (changes (write store item subtask_id))
  unfolding write
  write-Holds store item subtask_id o = record { related = λ rt. steps.saves _ subtask_id rt.db o }

  write_to-Holds :
      (item : ContextItem) (subtask_id : Option String) (store : Option Store)
      → Owns p (normalize_tenant (some item.tenant_id))
      → Holds (write_to now item p subtask_id store)
  unfolding write_to write_logged
  write_to-Holds item subtask_id none o = return-Holds steps (refused "Invalid or unspecified tier")
  write_to-Holds item subtask_id (some store) o =
      and_then steps (changes (write store item subtask_id)) _ (write-Holds store item subtask_id o)
        (λ _.
          and_then steps (audit now p "write" "allowed" (("item_id", text item.id) ∷ [])) _
            (record { related = λ rt. steps.audits _ _ _ rt.db })
            (λ _.
              named_event steps item (write_logged now item p subtask_id)
                (λ tier scope. record { related = λ rt. steps.same rt.db })))

  update_to-Holds :
      (item : ContextItem) (subtask_id : Option String) (changed : List String)
      (store : Option Store)
      → Owns p (normalize_tenant (some item.tenant_id))
      → Holds (update_to now item p subtask_id changed store)
  unfolding update_to update_logged
  update_to-Holds item subtask_id changed none o =
      return-Holds steps (refused "Invalid or unspecified tier")
  update_to-Holds item subtask_id changed (some store) o =
      and_then steps (changes (write store item subtask_id)) _ (write-Holds store item subtask_id o)
        (λ _.
          and_then steps (audit now p "write" "allowed" (("item_id", text item.id) ∷ [])) _
            (record { related = λ rt. steps.audits _ _ _ rt.db })
            (λ _.
              named_event steps item (update_logged now item p changed)
                (λ tier scope. record { related = λ rt. steps.same rt.db })))

  stamped-Owns :
      (q : Option Principal) (item : ContextItem)
      → IsNormal q
      → Owns q (normalize_tenant (some (stamped q item).tenant_id))
  unfolding stamp
  stamped-Owns none item n = tt
  stamped-Owns (some q) item n = n

  in_tenant-Owns :
      (q : Option Principal) (item : ContextItem)
      → IsNormal q
      → Owns q (normalize_tenant (some (in_tenant q item).tenant_id))
  in_tenant-Owns none item n = tt
  in_tenant-Owns (some q) item n = n

  pub write_item-Holds :
      (item : ContextItem) (subtask_id : Option String)
      → Holds (write_item py now item p subtask_id)
  unfolding write_item write_stamped
  write_item-Holds item subtask_id =
      let it = stamped p (ensure_created_at now item) in
      atomic_operation-Keeps R steps.same steps.both (write_stamped py now it p subtask_id) (
        and_then steps (reads (write_denial py it p)) (write_decided now it p subtask_id)
          (reads-Holds steps (write_denial py it p))
          (λ reason.
            branch steps (is_empty reason) (write_to now it p subtask_id (store_for it.tier))
              (deny now p reason)
              (write_to-Holds it subtask_id (store_for it.tier)
                (stamped-Owns p (ensure_created_at now item) normal))
              (deny-Holds steps reason)))

  pub update_item-Holds :
      (item : ContextItem) (subtask_id : Option String) (changed : List String)
      → Holds (update_item py now item p subtask_id changed)
  unfolding update_item update_stamped
  update_item-Holds item subtask_id changed =
      let it = in_tenant p item in
      atomic_operation-Keeps R steps.same steps.both (update_stamped py now it p subtask_id changed)
        (and_then steps (reads (write_denial py it p)) (update_decided now it p subtask_id changed)
          (reads-Holds steps (write_denial py it p))
          (λ reason.
            branch steps (is_empty reason)
              (update_to now it p subtask_id changed (store_for it.tier)) (deny now p reason)
              (update_to-Holds it subtask_id changed (store_for it.tier)
                (in_tenant-Owns p item normal))
              (deny-Holds steps reason)))
