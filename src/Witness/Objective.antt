-- ===== src/Witness/Objective.antt =====
-- The objective of core/lineage.py: which facts survive a scenario, what they are worth, and the
-- cache of `WitnessProblem.utilities`, passed from one evaluation to the next.
use trilith.Prelude.{
  ℕ, String, Bool, not, ◌&&◌, List, [], ◌∷◌, ◌++◌, Option, none, some, map, filter, find, any,
  length,
}
use trilith.Floats.{Floats}
use trilith.Ranking.{zip, sum}
use trilith.Witness.{
  Key, Evidence, Mask, holds_key, within, choose, total_cost, same_mask, Requirement, Scenario,
  Selection, WitnessProblem,
}

-- neither the item nor a source of it is revoked
abbrev pub active : List Key → Evidence → Bool
active revoked e =
    not (holds_key revoked e.key) && not (any (λ d. holds_key revoked d) e.dependencies)

-- the union of the facts
unfoldable pub all_facts : List Evidence → List String
all_facts [] = []
all_facts (e ∷ es) = e.facts ++ all_facts es

unfoldable pub surviving : List Key → List Evidence → List String
unfolding all_facts
surviving revoked chosen = all_facts (filter (active revoked) chosen)

-- `self._cache`: the utilities of the choices evaluated so far
abbrev pub Cache : Type 0 → Type 0
Cache F = List (Mask × List F)

abbrev pub Memo : Type 0 → Type 0 → Type 0
Memo F A = Cache F → Cache F × A

infixl 5 ◌>>=◌
abbrev pub ◌>>=◌ : {F A B : Type 0} → Memo F A → (A → Memo F B) → Memo F B
(m >>= f) cache = let done = m cache in f done.1 done.0

abbrev pub return : {F A : Type 0} → A → Memo F A
return a cache = (cache, a)

module _ (fl : Floats) where
  open fl use {F, mul}

  -- `any(w <= facts for w in r.witnesses)`
  abbrev pub is_met : List String → Requirement fl → Bool
  is_met facts r = any (λ w. within w facts) r.witnesses

  -- what a choice is worth where a scenario happens
  abbrev pub utility_of : WitnessProblem fl → List Evidence → Scenario fl → F
  utility_of p chosen s =
      let facts = surviving s.revoked chosen in
      sum fl (map (λ (r : Requirement fl). r.weight) (filter (is_met facts) p.requirements))

  unfoldable pub direct_utilities : WitnessProblem fl → Mask → List F
  direct_utilities p m = map (utility_of p (choose p.evidence m)) p.scenarios

  abbrev answer : WitnessProblem fl → Mask → Cache F → Option (Mask × List F) → Cache F × List F
  answer p m cache (some entry) = (cache, entry.1)
  answer p m cache none =
      let utilities = direct_utilities p m in (cache ++ (m, utilities) ∷ [], utilities)

  unfoldable pub utilities : WitnessProblem fl → Mask → Memo F (List F)
  utilities p m cache = answer p m cache (find (λ e. same_mask e.0 m) cache)

  abbrev pub weighted : WitnessProblem fl → List F → F
  weighted p us =
      sum fl (map (λ (q : Scenario fl × F). mul q.0.probability q.1) (zip p.scenarios us))

  unfoldable pub value : WitnessProblem fl → Mask → Memo F F
  value p m = utilities p m >>= λ us. return (weighted p us)

  abbrev pub cost : WitnessProblem fl → Mask → ℕ
  cost p m = total_cost (choose p.evidence m)

  abbrev pub report : WitnessProblem fl → Mask → F → List F → Memo F (Selection fl)
  report p m v us cache = (
    cache,
    record {
      keys = map (λ (e : Evidence). e.key) (choose p.evidence m);
      cost = cost p m;
      expected_utility = v;
      scenario_utilities = us;
      objective_evaluations = length cache;
    },
  )

  unfoldable pub result : WitnessProblem fl → Mask → Memo F (Selection fl)
  result p m = value p m >>= λ v. utilities p m >>= report p m v
