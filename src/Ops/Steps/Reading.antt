-- ===== src/Ops/Steps/Reading.antt =====
-- What holds of every statement holds of `assemble_context` of core/ops.py, whose only statements
-- are audit records.
use trilith.Prelude.{ℕ, String, List, [], ◌∷◌, ◌++◌, ◌+◌, Option, none, some}
use trilith.Python.{Python}
use trilith.Floats.{Floats}
use trilith.Proto.{ContextItem, ExcludedItem, AssembledContext}
use trilith.Identity.{Principal}
use trilith.Privacy.{filter_from}
use trilith.Database.{Db}
use trilith.Audit.{principal_or_default}
use trilith.Store.{Store, semantic_store, procedural_store, episodic_store, query_for}
use trilith.Runtime.{reads, value, changes}
use trilith.Runtime.Keeps.{Keeps}
use trilith.Ranking.{Governor}
use trilith.Governor.{
  BudgetArgument, audit_denied, capped, collect, collect_all, checked_budget, select, assemble,
}
use trilith.Ops.Assemble.{audit_included, audit_excluded, announce_assembly, assemble_context}
use trilith.Ops.Steps.{Steps, and_then, reads-Holds, value-Holds, return-Holds}

module _ (fl : Floats) {py : Python} {now : ℕ} {p : Principal} {R : Db → Db → Type 0}
    (steps : Steps py now (some p) R) (g : Governor fl) where
  audit_denied-related :
      (denied : List (ContextItem × String)) (db : Db) → R db (audit_denied fl now p denied db)
  unfolding audit_denied
  audit_denied-related [] db = steps.same db
  audit_denied-related ((item, reason) ∷ denied) db =
      steps.both db _ _ (steps.audits _ _ _ db) (audit_denied-related denied _)

  collect-Holds : (store : Store) (task : String) → Keeps R (collect fl py now g store task p)
  unfolding collect
  collect-Holds store task =
      and_then steps (reads (query_for store p none)) _ (reads-Holds steps _) (λ items.
        and_then steps (changes (audit_denied fl now p (filter_from py items p now).1)) _
          (record { related = λ rt. audit_denied-related (filter_from py items p now).1 rt.db })
          (λ _. return-Holds steps (capped fl g task (filter_from py items p now).0)))

  collect_all-Holds :
      (stores : List Store) (task : String) → Keeps R (collect_all fl py now g stores task p)
  unfolding collect_all
  collect_all-Holds [] task = return-Holds steps ([], 0)
  collect_all-Holds (store ∷ stores) task =
      and_then steps (collect fl py now g store task p) _ (collect-Holds store task) (λ first.
        and_then steps (collect_all fl py now g stores task p) _ (collect_all-Holds stores task)
          (λ rest. return-Holds steps (first.0 ++ rest.0, first.1 + rest.1)))

  assemble-Holds :
      (task : String) (budget : BudgetArgument) → Keeps R (assemble fl py now g task budget p)
  unfolding assemble
  assemble-Holds task argument =
      let stores = semantic_store ∷ procedural_store ∷ episodic_store ∷ [] in
      and_then steps (value (checked_budget argument)) _ (value-Holds steps _) (λ budget.
        and_then steps (collect_all fl py now g stores task p) _ (collect_all-Holds stores task)
          (λ found. value-Holds steps (select fl py now g task budget p found)))

-- The caller's principal may be missing, and then it is the default one that reads.
module _ (fl : Floats) {py : Python} {now : ℕ} {caller : Option Principal} {R : Db → Db → Type 0}
    (steps : Steps py now caller R) (denials : Steps py now (some (principal_or_default caller)) R)
    (g : Governor fl) where
  audit_included-related :
      (budget : ℕ) (items : List ContextItem) (db : Db)
      → R db (audit_included now caller budget items db)
  unfolding audit_included
  audit_included-related budget [] db = steps.same db
  audit_included-related budget (item ∷ items) db =
      steps.both db _ _ (steps.audits _ _ _ db) (audit_included-related budget items _)

  audit_excluded-related :
      (items : List ExcludedItem) (db : Db) → R db (audit_excluded now caller items db)
  unfolding audit_excluded
  audit_excluded-related [] db = steps.same db
  audit_excluded-related (x ∷ items) db =
      steps.both db _ _ (steps.audits _ _ _ db) (audit_excluded-related items _)

  announced :
      (task : String) (budget : BudgetArgument) (context : AssembledContext)
      → Keeps R (announce_assembly now task budget caller context)
  unfolding announce_assembly
  announced task budget context = record { related = λ rt. steps.same rt.db }

  pub assemble_context-Holds :
      (task : String) (budget : BudgetArgument)
      → Keeps R (assemble_context fl py now g task budget caller)
  unfolding assemble_context
  assemble_context-Holds task budget =
      and_then steps (assemble fl py now g task budget (principal_or_default caller)) _
        (assemble-Holds fl denials g task budget)
        (λ context.
          and_then steps (changes (audit_included now caller _ context.items)) _
            (record { related = λ rt. audit_included-related _ context.items rt.db })
            (λ _.
              and_then steps (changes (audit_excluded now caller context.excluded_items)) _
                (record { related = λ rt. audit_excluded-related context.excluded_items rt.db })
                (λ _. announced task budget context)))
