-- ===== src/Ops/Assemble.antt =====
-- `assemble_context` of core/ops.py: the governor's answer, with a decision and an event for it.
use trilith.Prelude.{ℕ, String, ◌<>◌, List, [], ◌∷◌, Option, length, decimal}
use trilith.Python.{Python}
use trilith.Floats.{Floats}
use trilith.Proto.{ContextItem, ExcludedItem, AssembledContext}
use trilith.Identity.{Principal}
use trilith.Database.{Db, text, number}
use trilith.Audit.{principal_or_default, record_decision}
use trilith.Runtime.{Action, ◌>>=◌, ◌>>◌, return, changes, event}
use trilith.Ranking.{Governor}
use trilith.Governor.{BudgetArgument, whole, negative, boolean, not_integer, assemble}
use trilith.Ops.{preview}

abbrev budget_number : BudgetArgument → ℕ
budget_number (whole n) = n
budget_number negative = 0
budget_number (boolean b) = 0
budget_number not_integer = 0

-- the loop over the included items
unfoldable pub audit_included : ℕ → Option Principal → ℕ → List ContextItem → Db → Db
audit_included now p budget [] db = db
audit_included now p budget (item ∷ items) db = audit_included now p budget items (
    record_decision now p "assemble" "included"
      (("budget", number budget) ∷ ("item_id", text item.id) ∷ []) db)

-- the loop over the excluded items
unfoldable pub audit_excluded : ℕ → Option Principal → List ExcludedItem → Db → Db
audit_excluded now p [] db = db
audit_excluded now p (x ∷ xs) db = audit_excluded now p xs (
    record_decision now p "assemble" "excluded"
      (("item_id", text x.item.id) ∷ ("reason", text x.reason) ∷ []) db)

-- the event and the answer of `assemble_context`
unfoldable pub announce_assembly :
    ℕ → String → BudgetArgument → Option Principal → AssembledContext → Action AssembledContext
announce_assembly now task budget principal context = do
  event now "assemble" principal
      ("assembled " <> decimal (length context.items) <> " items for “" <> preview task 60 <> "”")
      (("task", text task)
        ∷ ("budget", number (budget_number budget))
        ∷ ("included", number (length context.items))
        ∷ ("excluded", number (length context.excluded_items))
        ∷ ("tokens_used", number context.tokens_used)
        ∷ ("candidates_truncated", number context.candidates_truncated)
        ∷ [])
  return context

-- `assemble_context` once the governor has answered
abbrev pub recorded_assembly :
    ℕ → String → BudgetArgument → Option Principal → AssembledContext → Action AssembledContext
recorded_assembly now task budget principal context = do
  changes (audit_included now principal (budget_number budget) context.items)
  changes (audit_excluded now principal context.excluded_items)
  announce_assembly now task budget principal context

-- Not in a transaction. Only a natural number as the budget gets past `assemble`.
unfoldable pub assemble_context :
    (fl : Floats)
    → Python
    → ℕ
    → Governor fl
    → String
    → BudgetArgument
    → Option Principal
    → Action AssembledContext
assemble_context fl py now g task budget principal = do
  context ← assemble fl py now g task budget (principal_or_default principal)
  recorded_assembly now task budget principal context
