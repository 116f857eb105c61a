-- ===== src/Witness/Solver.antt =====
-- `WitnessProblem.solve` and `oracle` of core/lineage.py.
use trilith.Prelude.{
  ℕ, zero, suc, ◌+◌, min, Bool, true, false, not, ◌&&◌, List, [], ◌∷◌, ◌++◌, Option, none, some,
  map, filter, length, leb, ltb, if◌then◌else◌, ◌==◌, nat_eq,
}
use trilith.Prelude.Sort.{sort_by}
use trilith.Exec.{Result, ok, err, value_error, require, ◌>>◌}
use trilith.Floats.{Floats}
use trilith.Witness.{Mask, same_mask, union, Requirement, Selection, WitnessProblem}
use trilith.Witness.Objective.{Memo, ◌>>=◌, return, value, cost, result}
use trilith.Witness.Completions.{no_choice, concat_map, greatest, completions}

-- the sorted indices of a mask
abbrev indices : ℕ → Mask → List ℕ
indices i [] = []
indices i (true ∷ m) = i ∷ indices (suc i) m
indices i (false ∷ m) = indices (suc i) m

abbrev tuple_lt : List ℕ → List ℕ → Bool
tuple_lt xs [] = false
tuple_lt [] (y ∷ ys) = true
tuple_lt (x ∷ xs) (y ∷ ys) = if x == y then tuple_lt xs ys else ltb x y

-- `tuple(-i for i in a) > tuple(-i for i in b)`
abbrev negated_gt : List ℕ → List ℕ → Bool
negated_gt [] ys = false
negated_gt (x ∷ xs) [] = true
negated_gt (x ∷ xs) (y ∷ ys) = if x == y then negated_gt xs ys else ltb x y

-- the order of `sorted(additions, key=lambda a: tuple(sorted(a)))`
abbrev pub indices_before : Mask → Mask → Bool
indices_before a b = tuple_lt (indices 0 a) (indices 0 b)

unfoldable pub distinct_masks : List Mask → List Mask
distinct_masks [] = []
distinct_masks (m ∷ ms) = let rest = distinct_masks ms in m ∷ filter (λ n. not (same_mask n m)) rest

-- `combinations(remaining, size)`, for the indices that `chosen` leaves out
unfoldable pub combinations : Mask → ℕ → List Mask
combinations [] zero = [] ∷ []
combinations [] (suc k) = []
combinations (true ∷ c) k = map (λ m. false ∷ m) (combinations c k)
combinations (false ∷ c) zero = map (λ m. false ∷ m) (combinations c zero)
combinations (false ∷ c) (suc k) =
    map (λ m. true ∷ m) (combinations c k) ++ map (λ m. false ∷ m) (combinations c (suc k))

-- the number of the indices that are not chosen
abbrev pub remaining : Mask → ℕ
remaining chosen = length (filter not chosen)

-- `range(1, n + 1)`
unfoldable pub one_to : ℕ → List ℕ
one_to zero = []
one_to (suc n) = one_to n ++ suc n ∷ []

module _ (fl : Floats) where
  -- `sum(len(r.witnesses) for r in requirements)`
  abbrev pub witness_count : List (Requirement fl) → ℕ
  witness_count [] = 0
  witness_count (r ∷ rs) = length r.witnesses + witness_count rs

  open fl use {F, of_nat, sub, div, lt, eq}

  -- `(v, -c) > (w, -d)`
  abbrev pub better : F × ℕ → F × ℕ → Bool
  better a b = if eq a.0 b.0 then ltb a.1 b.1 else lt b.0 a.0

  pub record Proposal : Type 0 where
    pub density : F
    pub gain : F
    pub cost : ℕ
    pub addition : Mask

  pub record Progress : Type 0 where
    pub best_bundle : Mask
    pub proposals : List Proposal

  -- 1e-12
  abbrev pub least_gain : F
  least_gain = div (of_nat 1) (of_nat 1000000000000)

  abbrev pub after_key : Proposal → Proposal → Bool
  after_key a b =
      if eq a.density b.density
      then (if eq a.gain b.gain
          then (if a.cost == b.cost
              then negated_gt (indices 0 a.addition) (indices 0 b.addition)
              else ltb a.cost b.cost)
          else lt b.gain a.gain)
      else lt b.density a.density

  module _ (p : WitnessProblem fl) where
    abbrev pub proposal : Mask → F → Proposal
    proposal addition gain = record {
      density = div gain (of_nat (cost fl p addition));
      gain = gain;
      cost = cost fl p addition;
      addition = addition;
    }

    -- the best bundle and the proposals after an addition, whose own value is `standalone` and whose
    -- value together with the choice is `joint`
    abbrev pub weighed : F → Mask → Progress → F → F → F → Progress
    weighed current addition s standalone best joint = record {
      best_bundle =
          if better (standalone, cost fl p addition) (best, cost fl p s.best_bundle)
          then addition
          else s.best_bundle;
      proposals =
          if lt least_gain (sub joint current)
          then s.proposals ++ proposal addition (sub joint current) ∷ []
          else s.proposals;
    }

    -- the body of the loop over the additions, where the addition fits
    abbrev pub weigh : Mask → F → Mask → Progress → Memo F Progress
    weigh chosen current addition s = value fl p addition >>= λ v. value fl p s.best_bundle >>= λ w.
        value fl p (union chosen addition) >>= λ u. return (weighed current addition s v w u)

    unfoldable pub consider : Mask → F → Mask → Progress → Memo F Progress
    consider chosen current addition s =
        if ltb p.budget (cost fl p (union chosen addition))
        then return s
        else weigh chosen current addition s

    unfoldable pub consider_all : Mask → F → List Mask → Progress → Memo F Progress
    consider_all chosen current [] s = return s
    consider_all chosen current (a ∷ more) s =
        consider chosen current a s >>= consider_all chosen current more

    unfoldable pub additions : Bool → ℕ → Mask → List Mask
    additions complete max_bundle chosen =
        let completing = if complete then completions fl p chosen else [] in
        let bundles =
          concat_map (λ size. combinations chosen size)
            (one_to (min max_bundle (remaining chosen))) in
        sort_by indices_before (distinct_masks (completing ++ bundles))

    abbrev pub from_bundle : Mask → Progress
    from_bundle bundle = record { best_bundle = bundle; proposals = [] }

    abbrev pub Ending : Type 0
    Ending = Option (Mask × Mask)

    -- the end of a round: `break`, or the loop with the best proposal chosen too
    abbrev pub end_round : (Mask → Mask → Memo F Ending) → Mask → Progress → Memo F Ending
    end_round loop chosen s = elim s.proposals [
      | [] ↦ return (some (chosen, s.best_bundle))
      | q ∷ qs ↦ loop (union chosen (greatest after_key q qs).addition) s.best_bundle
    ]

    -- The loop `while True`, which returns the choice and the best bundle. A round that goes on
    -- chooses an index more, so the number of indices and one is fuel enough.
    unfoldable pub rounds : ℕ → Bool → ℕ → Mask → Mask → Memo F Ending
    rounds zero complete max_bundle chosen bundle = return none
    rounds (suc n) complete max_bundle chosen bundle = value fl p chosen >>= λ current.
        consider_all chosen current (additions complete max_bundle chosen) (from_bundle bundle)
        >>= end_round (rounds n complete max_bundle) chosen

    -- the safeguard
    abbrev pub safer : Mask → Mask → F → F → Mask
    safer chosen bundle v w =
        if better (v, cost fl p bundle) (w, cost fl p chosen) then bundle else chosen

    -- the safeguard and the result
    unfoldable pub finish : Mask → Mask → Memo F (Selection fl)
    finish chosen bundle =
        value fl p bundle >>= λ v. value fl p chosen >>= λ w. result fl p (safer chosen bundle v w)

    abbrev pub finish_search : Ending → Memo F (Option (Selection fl))
    finish_search none = return none
    finish_search (some (chosen, bundle)) = finish chosen bundle >>= λ s. return (some s)

    -- what the loop ends with; `none` where the fuel runs out
    unfoldable pub run_search : Bool → ℕ → Memo F (Option (Selection fl))
    run_search complete max_bundle =
        rounds (suc (length p.evidence)) complete max_bundle (no_choice p.evidence)
          (no_choice p.evidence)
        >>= finish_search

    -- the guards of `solve`
    abbrev pub solvable : ℕ → ℕ → Result (Unit {0})
    solvable max_bundle max_candidates = do
      require (leb 1 max_bundle && leb max_bundle 3) (value_error "max_bundle must be 1, 2, or 3")
      require (leb (length p.evidence) max_candidates && leb max_candidates 24)
          (value_error "LCWP research solver supports at most 24 candidates")
      require (leb (length p.scenarios) 64 && leb (witness_count p.requirements) 64)
          (value_error "LCWP supports at most 64 scenarios and 64 witnesses")

    abbrev pub guarded : Result (Unit {0}) → Bool → ℕ → Memo F (Result (Option (Selection fl)))
    guarded (err e) complete max_bundle = return (err e)
    guarded (ok _) complete max_bundle =
        run_search complete max_bundle >>= λ found. return (ok found)

    unfoldable pub solve : ℕ → ℕ → Bool → Memo F (Result (Option (Selection fl)))
    solve max_bundle max_candidates complete =
        guarded (solvable max_bundle max_candidates) complete max_bundle
