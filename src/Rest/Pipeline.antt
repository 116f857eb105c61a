-- ===== src/Rest/Pipeline.antt =====
-- The pipeline endpoints of core/rest_app.py but for `write`: assemble, forget, fold and purge.
use text.Mathlib.Text.{starts_with}
use trilith.Prelude.{
  ℕ, String, ◌<>◌, Bool, true, false, List, Option, none, some, decimal, if◌then◌else◌, ◌==◌,
  string_eq,
}
use trilith.Exec.{Result, ok, traverse, ◌>>=◌ as bind}
use trilith.Python.{Python}
use trilith.Floats.{Floats}
use trilith.Proto.{ContextItem, ExcludedItem, AssembledContext, tier_name, scope_name}
use trilith.Identity.{Principal}
use trilith.Runtime.{Action, ◌>>=◌, return, value}
use trilith.Ranking.{estimate_tokens}
use trilith.Governor.{BudgetArgument, whole, budget_exceeded, relevance_floor}
use trilith.Ops.Assemble.{assemble_context}
use trilith.Ops.Removal.{forget_scope, purge_expired}
use trilith.Fold.{fold_subtask}
use trilith.Rest.{Web, Identity, default_budget, as_principal}

pub record AssembleBody : Type 0 where
  pub identity : Identity
  pub task : String
  pub budget : Option BudgetArgument
  pub requester_scope : Option String

pub record IncludedPayload : Type 0 where
  pub id : String
  pub tier : String
  pub scope : String
  pub content : String
  pub tenant_id : String
  pub tokens : ℕ

pub record ExcludedPayload : Type 0 where
  pub id : String
  pub tier : String
  pub scope : String
  pub reason : String
  pub kind : String
  pub content : String
  pub tokens : ℕ

pub record AssembledPayload (fl : Floats) : Type 0 where
  pub items : List IncludedPayload
  pub tokens_used : ℕ
  pub budget : BudgetArgument
  pub task : String
  pub min_score : Option fl.F
  pub excluded_items : List ExcludedPayload
  pub candidates_truncated : ℕ
  pub tenant_id : String

pub record Forgotten : Type 0 where
  pub deleted_episodic_count : ℕ
  pub tenant_id : String

pub record Folded : Type 0 where
  pub success : Bool
  pub message : String
  pub folded_count : ℕ
  -- the id and the content of the summary
  pub item : Option (String × String)

unfoldable pub kind_of : String → String
kind_of reason =
    if reason == budget_exceeded
    then "budget"
    else if starts_with reason relevance_floor
    then "relevance"
    else "policy"

abbrev pub budget_of : Option BudgetArgument → BudgetArgument
budget_of none = whole default_budget
budget_of (some b) = b

abbrev pub folded_payload : String → Option ContextItem × ℕ → Folded
folded_payload subtask_id (none, n) = record {
  success = false;
  message = "No procedural steps found for subtask '" <> subtask_id <> "'";
  folded_count = 0;
  item = none;
}
folded_payload subtask_id (some summary, n) = record {
  success = true;
  message = "Folded " <> decimal n <> " steps";
  folded_count = n;
  item = some (summary.id, summary.content);
}

module _ (fl : Floats) (py : Python) (web : Web fl) (now : ℕ) where
  unfoldable pub excluded_payload : ExcludedItem → Result ExcludedPayload
  excluded_payload excluded =
      let item = excluded.item in
      let kind = kind_of excluded.reason in
      bind (tier_name item.tier) (λ tier. bind (scope_name item.scope) (λ scope.
        bind (estimate_tokens fl web.governor item) (λ tokens. ok (record {
          id = item.id;
          tier = tier;
          scope = scope;
          reason = excluded.reason;
          kind = kind;
          content = if kind == "policy" then "" else item.content;
          tokens = tokens;
        }))))

  unfoldable pub included_payload : ContextItem → Result IncludedPayload
  included_payload item = bind (tier_name item.tier) (λ tier. bind (scope_name item.scope) (λ scope.
      bind (estimate_tokens fl web.governor item) (λ tokens. ok (record {
        id = item.id;
        tier = tier;
        scope = scope;
        content = item.content;
        tenant_id = item.tenant_id;
        tokens = tokens;
      }))))

  -- `x if math.isfinite(x) else None`
  abbrev finite_or_none : fl.F → Option fl.F
  finite_or_none x = if fl.finite x then some x else none

  abbrev pub payload_with :
      AssembleBody
      → Principal
      → AssembledContext
      → List IncludedPayload
      → List ExcludedPayload
      → AssembledPayload fl
  payload_with body p context items excluded = record {
    items = items;
    tokens_used = context.tokens_used;
    budget = budget_of body.budget;
    task = body.task;
    min_score = finite_or_none web.governor.min_score;
    excluded_items = excluded;
    candidates_truncated = context.candidates_truncated;
    tenant_id = p.tenant_id;
  }

  unfoldable pub assembled_payload :
      AssembleBody → Principal → AssembledContext → Result (AssembledPayload fl)
  assembled_payload body p context = bind (traverse included_payload context.items) (λ items.
      bind (traverse excluded_payload context.excluded_items)
        (λ excluded. ok (payload_with body p context items excluded)))

  abbrev pub assemble_as : AssembleBody → Principal → Action (AssembledPayload fl)
  assemble_as body p = do
    context ← assemble_context fl py now web.governor body.task (budget_of body.budget) (some p)
    value (assembled_payload body p context)

  unfoldable pub assemble : Option String → AssembleBody → Action (AssembledPayload fl)
  assemble authorization body =
      as_principal fl py web body.identity body.requester_scope authorization (assemble_as body)

  abbrev pub forget_as : String → Principal → Action Forgotten
  forget_as scope p = do
    count ← forget_scope py now scope (some p)
    return (record { deleted_episodic_count = count; tenant_id = p.tenant_id })

  unfoldable pub forget : Option String → Identity → String → Action Forgotten
  forget authorization identity scope =
      as_principal fl py web identity none authorization (forget_as scope)

  abbrev pub fold_as : String → Principal → Action Folded
  fold_as subtask_id p = do
    done ← fold_subtask py now subtask_id (some p)
    return (folded_payload subtask_id done)

  unfoldable pub fold : Option String → Identity → String → Action Folded
  fold authorization identity subtask_id =
      as_principal fl py web identity none authorization (fold_as subtask_id)

  unfoldable pub purge : Option String → Identity → Action ℕ
  purge authorization identity =
      as_principal fl py web identity none authorization (λ p. purge_expired now (some p))
