-- ===== src/Witness/Oracle.antt =====
-- `WitnessProblem.oracle` of core/lineage.py: the exhaustive reference.
use trilith.Prelude.{Bool, true, false, List, [], ◌∷◌, length, leb, if◌then◌else◌}
use trilith.Exec.{Result, ok, err, value_error}
use trilith.Floats.{Floats}
use trilith.Witness.{Mask, Selection, WitnessProblem}
use trilith.Witness.Objective.{Memo, ◌>>=◌, return, value, cost, result}
use trilith.Witness.Completions.{no_choice, concat_map}
use trilith.Witness.Solver.{combinations, one_to, better}

module _ (fl : Floats) where
  open fl use {F}

  module _ (p : WitnessProblem fl) where
    abbrev pub kept : Mask → Mask → F → F → Mask
    kept best m v w = if better fl (v, cost fl p m) (w, cost fl p best) then m else best

    -- the body of the loops over the candidates
    abbrev pub challenge : Mask → Mask → Memo F Mask
    challenge best m =
        if leb (cost fl p m) p.budget
        then (value fl p m >>= λ v. value fl p best >>= λ w. return (kept best m v w))
        else return best

    unfoldable pub improve : Mask → List Mask → Memo F Mask
    improve best [] = return best
    improve best (m ∷ ms) = challenge best m >>= λ b. improve b ms

    -- the candidates of `oracle`, by their size
    abbrev pub nonempty_choices : List Mask
    nonempty_choices =
        concat_map (λ size. combinations (no_choice p.evidence) size) (one_to (length p.evidence))

    abbrev pub exhaustive : Bool → Memo F (Result (Selection fl))
    exhaustive false = return (err (value_error "Oracle supports at most 18 candidates"))
    exhaustive true = improve (no_choice p.evidence) nonempty_choices >>= λ best.
        result fl p best >>= λ s. return (ok s)

    unfoldable pub oracle : Memo F (Result (Selection fl))
    oracle = exhaustive (leb (length p.evidence) 18)
