-- ===== src/Governor.antt =====
-- The Governor of core/governor.py: candidates and assembly within a token budget, over the stores
-- of the runtime. The ranking and the interface `Scorer` of its parameter stand in Ranking.
pub mod Walk
pub mod Budget
pub mod Stored
pub mod Assembly
use Prim.Native.String.{len}
use trilith.Prelude.{
  ℕ, zero, suc, ◌+◌, ◌-◌, max, String, ◌<>◌, Bool, true, false, not, ◌&&◌, ◌||◌, List, [], ◌∷◌,
  ◌++◌, Option, none, some, map, filter, any, length, take, leb, ltb, if◌then◌else◌, ◌==◌, nat_eq,
  string_eq, is_empty, before_colon,
}
use trilith.Prelude.Sort.{sort_by}
use trilith.Exec.{Result, ok, err, value_error, ◌>>=◌ as bind}
use trilith.Python.{Python}
use trilith.Floats.{Floats}
use trilith.Proto.{ContextItem, ExcludedItem, AssembledContext, default_item}
use trilith.Identity.{Principal, legacy_principal}
use trilith.Privacy.{filter_from}
use trilith.Database.{Db, text}
use trilith.Audit.{record_decision}
use trilith.Runtime.{Action, ◌>>=◌, ◌>>◌, return, reads, value, changes}
use trilith.Store.{Store, semantic_store, procedural_store, episodic_store, query_for}
use trilith.Retrieval.{Entry, pack}
use trilith.Ranking.{zip, Scorer, Governor, scored_higher, rank, estimate_tokens}

-- What is passed as the budget.
pub data BudgetArgument : Type 0 where
  whole : ℕ → BudgetArgument
  negative : BudgetArgument
  boolean : Bool → BudgetArgument
  not_integer : BudgetArgument

-- the first guard of `assemble`
unfoldable pub checked_budget : BudgetArgument → Result ℕ
checked_budget (whole n) = ok n
checked_budget negative = err (value_error "assemble() requires a nonnegative integer token budget")
checked_budget (boolean b) =
    err (value_error "assemble() requires a nonnegative integer token budget")
checked_budget not_integer =
    err (value_error "assemble() requires a nonnegative integer token budget")

abbrev key_of : ContextItem → String × String
key_of item = (item.tenant_id, item.id)

abbrev pub same_key : String × String → String × String → Bool
same_key a b = a.0 == b.0 && a.1 == b.1

abbrev pub budget_exceeded : String
budget_exceeded = "Exceeded token budget"

abbrev pub relevance_floor : String
relevance_floor = "Below relevance floor"

abbrev pub policy_denied : ContextItem × String → ExcludedItem
policy_denied denied = record { item = default_item; reason = "Policy denied" }

-- what a tier gives: its candidates, and how many were cut off
abbrev pub Collected : Type 0
Collected = List ContextItem × ℕ

module _ (fl : Floats) where
  open fl use {
    F, zero as nought, of_nat, of_bits, add, sub, mul, div, sqrt, lt, le, finite, neg_inf, rounded,
    shown,
  }

  unfoldable pub audit_denied : ℕ → Principal → List (ContextItem × String) → Db → Db
  audit_denied now p [] db = db
  audit_denied now p ((item, reason) ∷ rest) db = audit_denied now p rest (
      record_decision now (some p) "policy" "denied" (("reason", text (before_colon reason)) ∷ [])
        db)

  abbrev pub capped : Governor fl → String → List ContextItem → Collected
  capped g task items =
      let sorted =
        map (λ (p : ContextItem × F). p.0)
          (sort_by (scored_higher fl) (zip items (g.scorer.score items task))) in
      let kept = take g.max_candidates sorted in (kept, length sorted - length kept)

  module _ (py : Python) (now : ℕ) where
    -- `_collect`
    unfoldable pub collect : Governor fl → Store → String → Principal → Action Collected
    collect g store task p = do
      items ← reads (query_for store p none)
      changes (audit_denied now p (filter_from py items p now).1)
      return (capped g task (filter_from py items p now).0)

    -- the loop over the stores
    unfoldable pub collect_all : Governor fl → List Store → String → Principal → Action Collected
    collect_all g [] task p = return ([], 0)
    collect_all g (store ∷ stores) task p = do
      first ← collect g store task p
      rest ← collect_all g stores task p
      return (first.0 ++ rest.0, first.1 + rest.1)

    -- the filling of the budget: items, tokens used, exclusions
    pub record Filled : Type 0 where
      pub items : List ContextItem
      pub used : ℕ
      pub excluded : List ExcludedItem

    abbrev pub relevant : Governor fl → F → Bool
    relevant g s = finite s && not (le s g.min_score)

    abbrev pub is_selected : Option (List (String × String)) → ContextItem → Bool
    is_selected none item = true
    is_selected (some keys) item = any (λ k. same_key k (key_of item)) keys

    abbrev pub floor_reason : Governor fl → F → String
    floor_reason g s =
        relevance_floor <> ": scored " <> rounded s <> ", at or below " <> shown g.min_score

    abbrev pub exclude : ContextItem → String → Filled → Filled
    exclude item reason f = record f {
      excluded = record { item = item; reason = reason } ∷ f.excluded;
    }

    abbrev pub include : ContextItem → Filled → Filled
    include item f = record f { items = item ∷ f.items }

    unfoldable pub fill :
        Governor fl
        → Option (List (String × String))
        → ℕ
        → ℕ
        → List (ContextItem × F)
        → Result Filled
    fill g keys budget used [] = ok (record { items = []; used = used; excluded = [] })
    fill g keys budget used ((item, s) ∷ rest) =
        let skip = fill g keys budget used rest in
        let spend = λ (cost : ℕ). fill g keys budget (used + cost) rest in
        if not (relevant g s)
        then bind skip (λ f. ok (exclude item (floor_reason g s) f))
        else bind (estimate_tokens fl g item) (λ cost.
          if leb (used + cost) budget && is_selected keys item
          then bind (spend cost) (λ f. ok (include item f))
          else bind skip (λ f. ok (exclude item budget_exceeded f)))

    abbrev pub keys_of : Result (List (Entry fl)) → Result (Option (List (String × String)))
    keys_of (ok chosen) = ok (some (map (λ (e : Entry fl). key_of e.item) chosen))
    keys_of (err e) = err e

    -- the keys that packing selects, where it is used
    unfoldable pub selected_keys :
        Governor fl → String → ℕ → List (ContextItem × F) → Result (Option (List (String × String)))
    selected_keys g task budget ranked =
        if g.coverage && not (neg_inf g.min_score)
        then keys_of (
            pack fl py (filter (λ p. finite p.1 && lt g.min_score p.1) ranked) task budget
              (estimate_tokens fl g))
        else ok none

    abbrev pub filled_context : List (ContextItem × String) → ℕ → Filled → AssembledContext
    filled_context denied truncated f = record {
      items = f.items;
      tokens_used = f.used;
      excluded_items = map policy_denied denied ++ f.excluded;
      candidates_truncated = truncated;
    }

    unfoldable pub select_ranked :
        Governor fl
        → String
        → ℕ
        → List (ContextItem × F)
        → List (ContextItem × String)
        → ℕ
        → Result AssembledContext
    select_ranked g task budget ranked denied truncated =
        bind (selected_keys g task budget ranked)
          (λ keys. bind (fill g keys budget 0 ranked) (λ f. ok (filled_context denied truncated f)))

    -- from the ranking on, where nothing is written
    unfoldable pub select :
        Governor fl → String → ℕ → Principal → Collected → Result AssembledContext
    select g task budget p found =
        let judged = filter_from py found.0 p now in
        let ranked = rank fl g judged.0 task in select_ranked g task budget ranked judged.1 found.1

    -- `assemble` once the principal is known
    unfoldable pub assemble :
        Governor fl → String → BudgetArgument → Principal → Action AssembledContext
    assemble g task argument p = do
      budget ← value (checked_budget argument)
      found ← collect_all g (semantic_store ∷ procedural_store ∷ episodic_store ∷ []) task p
      value (select g task budget p found)
