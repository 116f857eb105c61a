-- ===== src/Witness.antt =====
-- Witness packing, core/lineage.py: evidence, requirements, scenarios, and the objective with its
-- cache. A frozenset of indices is a mask: one bit for each piece of evidence, in their order. Any
-- other set is a list without repetitions.
pub mod Objective
pub mod Completions
pub mod Solver
pub mod Oracle
pub mod Assemble
pub mod Approved
pub mod Answer
pub mod Caching
pub mod Choices
pub mod Additions
pub mod Covering
pub mod Rounds
pub mod Solved
pub mod Exhaustive
pub mod Optimal
use trilith.Prelude.{
  is_nil, ℕ, String, Bool, true, false, not, ◌&&◌, ◌||◌, List, [], ◌∷◌, map, filter, any, all,
  length, ◌+◌, leb, if◌then◌else◌, ◌==◌, nat_eq, string_eq,
}
use trilith.Prelude.Sort.{sort_by}
use trilith.Exec.{Result, ok, err, value_error, require, ◌>>=◌, ◌>>◌}
use trilith.Floats.{Floats}
use trilith.Database.Backend.{text_before}
use trilith.Ranking.{sum}
use trilith.Governor.{BudgetArgument, whole, negative, boolean, not_integer, same_key}

-- a tenant and the id of an item of it
abbrev pub Key : Type 0
Key = String × String

pub record Evidence : Type 0 where
  pub key : Key
  pub cost : ℕ
  pub facts : List String
  pub dependencies : List Key

abbrev pub Mask : Type 0
Mask = List Bool

abbrev key_before : Evidence → Evidence → Bool
key_before a b =
    if a.key.0 == b.key.0 then text_before a.key.1 b.key.1 else text_before a.key.0 b.key.0

abbrev pub holds_key : List Key → Key → Bool
holds_key keys k = any (λ j. same_key j k) keys

unfoldable pub repeats : List Evidence → Bool
repeats [] = false
repeats (e ∷ es) = any (λ d. same_key d.key e.key) es || repeats es

abbrev pub holds : List String → String → Bool
holds facts f = any (λ g. g == f) facts

-- `a & b` is not empty
abbrev pub meets : List String → List String → Bool
meets a b = any (holds b) a

-- `a - b`
abbrev pub minus : List String → List String → List String
minus a b = filter (λ f. not (holds b f)) a

-- `a <= b`
abbrev pub within : List String → List String → Bool
within a b = all (holds b) a

-- the evidence that a mask chooses
unfoldable pub choose : {A : Type 0} → List A → Mask → List A
choose [] m = []
choose (e ∷ es) [] = []
choose (e ∷ es) (true ∷ m) = e ∷ choose es m
choose (e ∷ es) (false ∷ m) = choose es m

-- `sum(self.evidence[i].cost for i in chosen)`
unfoldable pub total_cost : List Evidence → ℕ
total_cost [] = 0
total_cost (e ∷ es) = e.cost + total_cost es

-- `a | b`
unfoldable pub union : Mask → Mask → Mask
union [] b = b
union (x ∷ a) [] = x ∷ a
union (x ∷ a) (y ∷ b) = (x || y) ∷ union a b

abbrev pub same_mask : Mask → Mask → Bool
same_mask [] [] = true
same_mask [] (_ ∷ _) = false
same_mask (_ ∷ _) [] = false
same_mask (true ∷ a) (true ∷ b) = same_mask a b
same_mask (true ∷ a) (false ∷ b) = false
same_mask (false ∷ a) (true ∷ b) = false
same_mask (false ∷ a) (false ∷ b) = same_mask a b

module _ (fl : Floats) where
  open fl use {F, zero as nought, of_nat, sub, mul, div, lt, le, eq, finite}

  pub record Requirement : Type 0 where
    pub name : String
    pub witnesses : List (List String)
    pub weight : F

  pub record Scenario : Type 0 where
    pub name : String
    pub probability : F
    pub revoked : List Key

  pub record Selection : Type 0 where
    pub keys : List Key
    pub cost : ℕ
    pub expected_utility : F
    pub scenario_utilities : List F
    pub objective_evaluations : ℕ

  pub record WitnessProblem : Type 0 where
    pub evidence : List Evidence
    pub requirements : List Requirement
    pub scenarios : List Scenario
    pub budget : ℕ

  abbrev magnitude : F → F
  magnitude x = if lt x nought then sub nought x else x

  -- `math.isclose(x, 1.0, abs_tol=1e-9)`, whose relative tolerance is 1e-9 too
  abbrev close_to_one : F → Bool
  close_to_one x =
      let one = of_nat 1 in
      let tolerance = div one (of_nat 1000000000) in
      let distance = magnitude (sub one x) in
      eq x one
      || (finite x
          && (le distance (magnitude (mul tolerance one))
              || (le distance (magnitude (mul tolerance x)) || le distance tolerance)))

  abbrev bad_number : F → Bool
  bad_number x = not (finite x) || lt x nought

  abbrev bad_requirement : Requirement → Bool
  bad_requirement r = bad_number r.weight || (is_nil r.witnesses || any (λ w. is_nil w) r.witnesses)

  unfoldable pub problem_budget : BudgetArgument → Result ℕ
  problem_budget (whole n) = ok n
  problem_budget negative = err (value_error "budget must be a nonnegative integer")
  problem_budget (boolean b) = err (value_error "budget must be a nonnegative integer")
  problem_budget not_integer = err (value_error "budget must be a nonnegative integer")

  -- the guards after that of the budget; a negative cost is refused like 0
  unfoldable pub problem_guards :
      List Evidence → List Requirement → List Scenario → Result (Unit {0})
  unfolding repeats
  problem_guards evidence requirements scenarios = do
    require (not (repeats evidence)) (value_error "Duplicate evidence key")
    require (all (λ e. leb 1 e.cost) evidence)
        (value_error "Evidence costs must be positive integers")
    require (leb 1 (length scenarios) && not (any (λ s. bad_number s.probability) scenarios))
        (value_error "Scenarios require finite nonnegative probabilities")
    require (close_to_one (sum fl (map (λ (s : Scenario). s.probability) scenarios)))
        (value_error "Scenario probabilities must sum to one")
    require (not (any bad_requirement requirements))
        (value_error "Requirements need nonempty witnesses and finite nonnegative weights")

  abbrev pub problem_of : List Evidence → List Requirement → List Scenario → ℕ → WitnessProblem
  problem_of evidence requirements scenarios budget = record {
    evidence = sort_by key_before evidence;
    requirements = requirements;
    scenarios = scenarios;
    budget = budget;
  }

  -- `WitnessProblem.__init__`
  unfoldable pub witness_problem :
      List Evidence → List Requirement → List Scenario → BudgetArgument → Result WitnessProblem
  witness_problem evidence requirements scenarios argument = do
    budget ← problem_budget argument
    problem_guards evidence requirements scenarios
    ok (problem_of evidence requirements scenarios budget)
