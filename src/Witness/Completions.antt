-- ===== src/Witness/Completions.antt =====
-- `WitnessProblem.completions` of core/lineage.py: additions that complete a whole witness.
use trilith.Prelude.{
  ℕ, zero, suc, String, Bool, true, false, not, ◌&&◌, List, [], ◌∷◌, ◌++◌, Option, none, some, map,
  filter, length, leb, ltb, if◌then◌else◌, ◌==◌, nat_eq,
}
use trilith.Floats.{Floats}
use trilith.Witness.{
  Key, Evidence, Mask, holds, meets, minus, choose, union, Requirement, Scenario, WitnessProblem,
}
use trilith.Witness.Objective.{active, surviving, cost}

-- an index and its evidence
abbrev pub Candidate : Type 0
Candidate = ℕ × Evidence

-- `enumerate(xs)`, from a first index on
unfoldable pub numbered : {A : Type 0} → ℕ → List A → List (ℕ × A)
numbered i [] = []
numbered i (x ∷ xs) = (i, x) ∷ numbered (suc i) xs

unfoldable pub has : ℕ → Mask → Bool
has i [] = false
has zero (b ∷ m) = b
has (suc i) (b ∷ m) = has i m

-- `addition.add(i)`
unfoldable pub insert : ℕ → Mask → Mask
insert i [] = []
insert zero (b ∷ m) = true ∷ m
insert (suc i) (b ∷ m) = b ∷ insert i m

-- the empty set of indices
abbrev pub no_choice : {A : Type 0} → List A → Mask
no_choice xs = map (λ _. false) xs

-- `len(facts & uncovered)`
abbrev gained : List String → Candidate → ℕ
gained uncovered c = length (filter (holds c.1.facts) uncovered)

unfoldable pub concat_map : {A B : Type 0} → (A → List B) → List A → List B
concat_map f [] = []
concat_map f (x ∷ xs) = f x ++ concat_map f xs

abbrev pub one_of : {A : Type 0} → Option A → List A
one_of none = []
one_of (some a) = a ∷ []

-- `max(x, *xs, key=…)`: the first of the greatest
unfoldable pub greatest : {A : Type 0} → (A → A → Bool) → A → List A → A
greatest gt best [] = best
greatest gt best (x ∷ xs) = greatest gt (if gt x best then x else best) xs

module _ (fl : Floats) where
  open fl use {F, of_nat, div, lt, eq}

  abbrev density : List String → Candidate → F
  density uncovered c = div (of_nat (gained uncovered c)) (of_nat c.1.cost)

  -- the key of a candidate is greater: the density, then the lower cost, then the lower index
  abbrev pub denser : List String → Candidate → Candidate → Bool
  denser uncovered a b =
      if eq (density uncovered a) (density uncovered b)
      then (if a.1.cost == b.1.cost then ltb a.0 b.0 else ltb a.1.cost b.1.cost)
      else lt (density uncovered b) (density uncovered a)

  -- `max(usable, key=…)`, where there is one
  unfoldable pub densest : List String → List Candidate → Option Candidate
  densest uncovered [] = none
  densest uncovered (c ∷ cs) = some (greatest (denser uncovered) c cs)

  abbrev pub usable : Mask → List String → List Candidate → List Candidate
  usable addition uncovered candidates =
      filter (λ c. not (has c.0 addition) && meets c.1.facts uncovered) candidates

  -- The loop `while uncovered`. Each round covers a fact at least, so the facts are fuel enough.
  unfoldable pub cover : ℕ → List Candidate → Mask → List String → Option Mask
  unfolding densest
  cover n candidates addition [] = some addition
  cover zero candidates addition (f ∷ fs) = none
  cover (suc n) candidates addition (f ∷ fs) =
      elim (densest (f ∷ fs) (usable addition (f ∷ fs) candidates)) [
        | none ↦ none
        | some best ↦ cover n candidates (insert best.0 addition) (minus (f ∷ fs) best.1.facts)
      ]

  module _ (p : WitnessProblem fl) (chosen : Mask) where
    abbrev pub seeded : Option Candidate → Mask
    seeded none = no_choice p.evidence
    seeded (some c) = insert c.0 (no_choice p.evidence)

    abbrev pub left_by : List String → Option Candidate → List String
    left_by missing none = missing
    left_by missing (some c) = minus missing c.1.facts

    -- the completion that starts with a seed
    unfoldable pub completed : List Candidate → List String → Option Candidate → Option Mask
    unfolding cover
    completed candidates missing seed =
        cover (length missing) candidates (seeded seed) (left_by missing seed)

    abbrev pub affordable : Option Mask → Option Mask
    affordable none = none
    affordable (some addition) =
        if leb (cost fl p (union chosen addition)) p.budget then some addition else none

    abbrev open_candidate : List Key → List String → Candidate → Bool
    open_candidate revoked missing c =
        (active revoked c.1 && not (has c.0 chosen)) && meets c.1.facts missing

    abbrev pub candidates_for : List Key → List String → List Candidate
    candidates_for revoked missing = filter (open_candidate revoked missing) (numbered 0 p.evidence)

    unfoldable pub completions_of : List Key → List String → List Mask
    unfolding completed
    completions_of revoked [] = []
    completions_of revoked (f ∷ fs) =
        let candidates = candidates_for revoked (f ∷ fs) in
        concat_map (λ seed. one_of (affordable (completed candidates (f ∷ fs) seed)))
          (none ∷ map (λ c. some c) candidates)

    abbrev pub present : List Key → List String
    present revoked = surviving revoked (choose p.evidence chosen)

    unfoldable pub completions : List Mask
    unfolding completions_of
    completions =
        concat_map
          (λ (s : Scenario fl).
            concat_map
              (λ (r : Requirement fl).
                concat_map (λ w. completions_of s.revoked (minus w (present s.revoked)))
                  r.witnesses)
              p.requirements)
          p.scenarios
