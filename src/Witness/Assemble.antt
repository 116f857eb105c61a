-- ===== src/Witness/Assemble.antt =====
-- `assemble_witnesses` of core/lineage.py: evidence from the store, under the policy, and the answer.
use trilith.Prelude.{
  ℕ, max, String, Bool, true, false, List, [], ◌∷◌, Option, none, some, map, find, all, length,
}
use trilith.Exec.{Result, ok, err, key_error, value_error, traverse, ◌>>=◌ as bind}
use trilith.Python.{Python}
use trilith.Floats.{Floats}
use trilith.Proto.{ContextItem, AssembledContext}
use trilith.Identity.{Principal}
use trilith.Privacy.{explain, filter_from}
use trilith.Database.{Db, text, number, float}
use trilith.Database.Backend.{get, lineage}
use trilith.Runtime.{Action, ◌>>=◌, ◌>>◌, return, reads, value, audit, atomic_operation}
use trilith.Ranking.{Governor, estimate_tokens}
use trilith.Governor.{BudgetArgument, same_key}
use trilith.Witness.{Key, Evidence, Requirement, Scenario, Selection, witness_problem}
use trilith.Witness.Solver.{solve}

-- an id of an item of the tenant, and the ids of facts
abbrev pub Annotation : Type 0
Annotation = String × List String

-- evidence, and the item that it stands for
abbrev pub Approval : Type 0
Approval = Evidence × ContextItem

module _ (fl : Floats) (py : Python) (now : ℕ) (g : Governor fl) (p : Principal) where
  abbrev pub permitted : Option ContextItem → Bool
  permitted none = false
  permitted (some source) = (explain py source p now).0

  -- the evidence of an item that the policy lets through
  abbrev pub evidence_of : Annotation → List String → List ContextItem → Result (Option Approval)
  evidence_of (item_id, facts) ancestors [] = ok none
  evidence_of (item_id, facts) ancestors (item ∷ _) = bind (estimate_tokens fl g item) (λ tokens.
      ok (
        some (
          record {
            key = (p.tenant_id, item_id);
            cost = max 1 tokens;
            facts = facts;
            dependencies = map (λ source. (p.tenant_id, source)) ancestors;
          },
          item,
        )))

  abbrev pub checked :
      Annotation → List String → ContextItem → List (Option ContextItem) → Result (Option Approval)
  checked annotation ancestors item sources = elim (all permitted sources) [
    | false ↦ ok none
    | true ↦ evidence_of annotation ancestors (filter_from py (item ∷ []) p now).0
  ]

  abbrev pub with_sources : Annotation → Option ContextItem → Db → Result (Option Approval)
  with_sources annotation none db = ok none
  with_sources annotation (some item) db =
      let ancestors = lineage annotation.0 p.tenant_id db in
      bind (traverse (λ source. get source (some p.tenant_id) db) ancestors)
        (checked annotation ancestors item)

  -- the body of the loop over the annotations
  unfoldable pub approve : Annotation → Db → Result (Option Approval)
  approve annotation db =
      bind (get annotation.0 (some p.tenant_id) db) (λ found. with_sources annotation found db)

  abbrev pub prepend : Option Approval → List Approval → List Approval
  prepend none rest = rest
  prepend (some a) rest = a ∷ rest

  unfoldable pub approvals : List Annotation → Db → Result (List Approval)
  approvals [] db = ok []
  approvals (a ∷ more) db =
      bind (approve a db) (λ found. bind (approvals more db) (λ rest. ok (prepend found rest)))

  abbrev pub found_item : Option Approval → Result ContextItem
  found_item none = err (key_error "approved")
  found_item (some a) = ok a.1

  -- `approved[key]`
  unfoldable pub lookup_approved : List Approval → Key → Result ContextItem
  lookup_approved approved key = found_item (find (λ a. same_key a.0.key key) approved)

  abbrev pub ended : Result (Option (Selection fl)) → Result (Selection fl)
  ended (err e) = err e
  ended (ok none) = err (value_error "the loop did not end")
  ended (ok (some s)) = ok s

  abbrev Answer : Type 0
  Answer = AssembledContext × Selection fl

  -- the audit record
  abbrev pub announced : Selection fl → Action (Unit {0})
  announced s = audit now (some p) "witness_assemble" "completed" (
      ("algorithm", text "LCWP-v2")
      ∷ ("selected_count", number (length s.keys))
      ∷ ("cost", number s.cost)
      ∷ ("expected_utility", float (fl.shown s.expected_utility))
      ∷ [])

  abbrev pub context_of : Selection fl → List ContextItem → AssembledContext
  context_of s items = record {
    items = items;
    tokens_used = s.cost;
    excluded_items = [];
    candidates_truncated = 0;
  }

  abbrev pub answer : List Approval → Selection fl → Action Answer
  answer approved s = do
    announced s
    items ← value (traverse (lookup_approved approved) s.keys)
    return (context_of s items, s)

  abbrev pub pack_approved :
      List (Requirement fl)
      → List (Scenario fl)
      → BudgetArgument
      → ℕ
      → List Approval
      → Action Answer
  pack_approved requirements scenarios budget max_bundle approved = do
    problem ←
        value
          (witness_problem fl (map (λ (a : Approval). a.0) approved) requirements scenarios budget)
    selection ← value (ended (solve fl problem max_bundle 24 true []).1)
    answer approved selection

  unfoldable pub assemble_witnesses :
      List Annotation
      → List (Requirement fl)
      → List (Scenario fl)
      → BudgetArgument
      → ℕ
      → Action Answer
  assemble_witnesses annotations requirements scenarios budget max_bundle =
      atomic_operation
        (reads (approvals annotations) >>= pack_approved requirements scenarios budget max_bundle)
