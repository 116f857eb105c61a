-- ===== src/Examples/Packing.antt =====
-- Runs of the witness packing, and of the lineage that it reads.
use trilith.Witness.Assemble.{lookup_approved, approve, approvals, Annotation, assemble_witnesses}
use trilith.Privacy.{redact, filter_from, explain}
use trilith.Ranking.{estimate_tokens, zip, sum}
use trilith.Exec.{traverse, ok}
use trilith.Proto.{scope_name, tier_name, AssembledContext}
use trilith.Database.{row_to_item, item_of}
use trilith.Database.Backend.{get, lineage, distinct}
use trilith.Runtime.{atomic_operation}
use trilith.Witness.Objective.{result, direct_utilities, utilities, value, surviving}
use trilith.Witness.Solver.{
  finish, consider, combinations, one_to, distinct_masks, additions, consider_all, rounds,
  run_search, better, solve,
}
use trilith.Witness.{
  union, total_cost, choose, problem_guards, problem_budget, Evidence, Requirement, Scenario,
  WitnessProblem, witness_problem, problem_of, Selection,
}
use trilith.Witness.Completions.{insert, greatest, has, numbered, concat_map, completions}
use trilith.Prelude.{strip}
use trilith.Prelude.Sort.{IsOrder, sort_by}
use trilith.Floats.{naturals}
use trilith.Identity.{normalize_tenant}
use trilith.Database.Lineage.{GoesBack, lineage-GoesBack}
use trilith.Governor.{whole}
use trilith.Witness.Oracle.{oracle}
use trilith.Witness.Caching.{IsCoherent}
use trilith.Witness.Solved.{IsSolved, solve-IsSelection}
use trilith.Witness.Optimal.{IsOracle, oracle-IsOptimal}
use trilith.Python.{plain_python}
use trilith.Witness.Answer.{IsAnswer, assemble_witnesses-IsAnswer}
use trilith.Examples.Budget.{governor}
use trilith.Examples.Data.{tables, runtime, ada, note_row, summary_row}
use trilith.Prelude.{
  ◌≡◌, refl, ◌↔◌, String, true, List, [], ◌∷◌, some, Occurs, arith, any, filter, all, find,
}

-- the summary goes back to the step
lineage_of_summary : lineage "folded-1" "acme" tables ≡ "folded-1" ∷ "p1" ∷ []
unfolding lineage filter distinct normalize_tenant strip any
lineage_of_summary = refl

lineage-GoesBack_example :
    Occurs "p1" (lineage "folded-1" "acme" tables)
    ↔ GoesBack (normalize_tenant (some "acme")) tables.derived "folded-1" "p1"
lineage-GoesBack_example = lineage-GoesBack "folded-1" "acme" "p1" tables

-- two facts that are worth something only together, each on evidence of its own
abbrev piece : String → Evidence
piece fact = record { key = ("acme", fact); cost = 1; facts = fact ∷ []; dependencies = [] }

abbrev both_facts : Requirement naturals
both_facts = record { name = "both"; witnesses = ("a" ∷ "b" ∷ []) ∷ []; weight = 1 }

abbrev calm : Scenario naturals
calm = record { name = "calm"; probability = 1; revoked = [] }

abbrev pair : WitnessProblem naturals
pair = problem_of naturals (piece "b" ∷ piece "a" ∷ []) (both_facts ∷ []) (calm ∷ []) 2

pair_accepted :
    witness_problem naturals (piece "b" ∷ piece "a" ∷ []) (both_facts ∷ []) (calm ∷ []) (whole 2)
    ≡ ok pair
unfolding witness_problem problem_budget problem_guards any all sum
pair_accepted = refl

solved_run :
    (solve naturals pair 3 24 true []).1
    ≡ ok (
        some (record {
          keys = ("acme", "a") ∷ ("acme", "b") ∷ [];
          cost = 2;
          expected_utility = 1;
          scenario_utilities = 1 ∷ [];
          objective_evaluations = 4;
        }))
unfolding solve sort_by run_search rounds consider_all additions distinct_masks completions
    concat_map filter any surviving choose numbered has greatest insert total_cost union one_to
    combinations consider value sum zip utilities find direct_utilities all finish result
solved_run = refl

solve-IsSelection_example :
    IsCoherent naturals pair (solve naturals pair 3 24 true []).0
    × IsSolved naturals pair (solve naturals pair 3 24 true []).1
unfolding sort_by
solve-IsSelection_example = solve-IsSelection naturals pair 3 24 true [] tt refl

better-IsOrder : IsOrder (better naturals)
better-IsOrder = record {
  asym = λ a b h. ground (arith, h);
  cotrans = λ a b c h k. ground (arith, h, k);
}

oracle-IsOptimal_example : IsOracle naturals pair better-IsOrder (oracle naturals pair []).1
unfolding sort_by
oracle-IsOptimal_example = oracle-IsOptimal naturals pair better-IsOrder [] tt (omega arith)

-- the note and the summary together
abbrev annotations : List Annotation
annotations = ("n1", "a" ∷ []) ∷ ("folded-1", "b" ∷ []) ∷ []

abbrev packed : AssembledContext × Selection naturals
packed = (
  record {
    items = item_of summary_row ∷ item_of note_row ∷ [];
    tokens_used = 18;
    excluded_items = [];
    candidates_truncated = 0;
  },
  record {
    keys = ("acme", "folded-1") ∷ ("acme", "n1") ∷ [];
    cost = 18;
    expected_utility = 1;
    scenario_utilities = 1 ∷ [];
    objective_evaluations = 4;
  },
)

packed_answer :
    (assemble_witnesses naturals plain_python 9 governor ada annotations
      (both_facts ∷ [])
      (calm ∷ [])
      (whole 20)
      3
      runtime).1
    ≡ ok packed
unfolding assemble_witnesses atomic_operation approvals approve get find normalize_tenant strip
    row_to_item tier_name scope_name traverse lineage filter distinct any all explain filter_from
    estimate_tokens redact witness_problem problem_budget problem_guards sum solve sort_by
    run_search rounds consider_all additions distinct_masks completions concat_map surviving choose
    numbered has greatest insert total_cost union one_to combinations consider value zip utilities
    direct_utilities finish result lookup_approved
packed_answer = refl

assemble_witnesses-IsAnswer_example :
    IsAnswer naturals plain_python 9 governor ada runtime.db 20 packed
assemble_witnesses-IsAnswer_example =
    assemble_witnesses-IsAnswer naturals plain_python 9 governor ada annotations (both_facts ∷ [])
      (calm ∷ []) 20 3 runtime packed packed_answer
