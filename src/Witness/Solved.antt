-- ===== src/Witness/Solved.antt =====
-- `solve` of core/lineage.py returns a selection within the budget.
use trilith.Prelude.{
  ℕ, suc, ◌≡◌, refl, sym, ap, ◌∙◌, Bool, Option, none, some, length, if-both, some_inj, arith,
}
use trilith.Exec.{Result, ok, err, ok_inj}
use trilith.Floats.{Floats}
use trilith.Witness.{Mask, Selection, WitnessProblem}
use trilith.Witness.Objective.{Cache, ◌>>=◌, return, value, result}
use trilith.Witness.Completions.{no_choice}
use trilith.Witness.Solver.{
  rounds, finish, run_search, Ending, safer, finish_search, solvable, guarded, solve,
}
use trilith.Witness.Caching.{
  IsCoherent, Ensures, return-Ensures, bind-Ensures, value-then, Reports, result-Ensures,
}
use trilith.Witness.Choices.{cost-nothing, remaining-le}
use trilith.Witness.Additions.{length-no_choice}
use trilith.Witness.Rounds.{IsChoice, Ends, rounds-Ensures}

module _ (fl : Floats) (p : WitnessProblem fl) where
  open fl use {F}

  -- A selection that reports a choice within the budget.
  unfoldable pub IsSelection : Selection fl → Type 0
  IsSelection s = (m : Mask) × IsChoice fl p m × Reports fl p m s

  finish-Ensures :
      (c b : Mask) → IsChoice fl p c → IsChoice fl p b → Ensures fl p IsSelection (finish fl p c b)
  unfolding finish IsSelection
  finish-Ensures c b h k =
      value-then fl p IsSelection b (λ v. value fl p c >>= λ w. result fl p (safer fl p c b v w))
        (λ v _.
          value-then fl p IsSelection c (λ w. result fl p (safer fl p c b v w))
            (λ w _.
              let final = safer fl p c b v w in
              record {
                run = λ cache coherent.
                    let (d, r) = (result-Ensures fl p final).run cache coherent in
                    (d, (final, if-both (IsChoice fl p) _ b c k h, r));
              }))

  pub no_choice-IsChoice : IsChoice fl p (no_choice p.evidence)
  no_choice-IsChoice = record {
    whole = length-no_choice p.evidence;
    fits = omega (arith, cost-nothing p.evidence p.evidence);
  }

  abbrev pub IsFound : Option (Selection fl) → Type 0
  IsFound o = (s : Selection fl) × (o ≡ some s) × IsSelection s

  finish_search-Ensures :
      (o : Ending fl p) → Ends fl p o → Ensures fl p IsFound (finish_search fl p o)
  finish_search-Ensures none (c, b, e, h, k) = cc
  finish_search-Ensures (some (c, b)) (c', b', e, h, k) =
      bind-Ensures fl p IsSelection IsFound (finish fl p c b) (λ s. return (some s))
        (finish-Ensures c b (rw (ap (λ q. q.0) (some_inj e)) h) (rw (ap (λ q. q.1) (some_inj e)) k))
        (λ s good. return-Ensures fl p IsFound (some s) (s, refl, good))

  run_search-Ensures :
      (complete : Bool) (max_bundle : ℕ)
      → Ensures fl p IsFound (run_search fl p complete max_bundle)
  unfolding run_search
  run_search-Ensures complete max_bundle =
      let nothing = no_choice p.evidence in
      bind-Ensures fl p (Ends fl p) IsFound
        (rounds fl p (suc (length p.evidence)) complete max_bundle nothing nothing)
        (finish_search fl p)
        (rounds-Ensures fl p (suc (length p.evidence)) complete max_bundle nothing nothing
          (omega (arith, remaining-le nothing, length-no_choice p.evidence)) no_choice-IsChoice
          no_choice-IsChoice)
        finish_search-Ensures

  abbrev pub IsSolved : Result (Option (Selection fl)) → Type 0
  IsSolved r = (s : Selection fl) × (r ≡ ok (some s)) × IsSelection s

  guarded-Ensures :
      (g : Result (Unit {0})) (complete : Bool) (max_bundle : ℕ)
      → g ≡ ok tt
      → Ensures fl p IsSolved (guarded fl p g complete max_bundle)
  guarded-Ensures (err e) complete max_bundle h = cc
  guarded-Ensures (ok _) complete max_bundle h =
      bind-Ensures fl p IsFound IsSolved (run_search fl p complete max_bundle)
        (λ found. return (ok found)) (run_search-Ensures complete max_bundle)
        (λ o f. return-Ensures fl p IsSolved (ok o) (f.0, ap ok f.1, f.2))

  -- Where the guards hold, `solve` ends, from any coherent cache, with a selection that reports the
  -- keys, the cost and the utilities, as a direct evaluation gives them, of a choice of evidence that
  -- costs no more than the budget; and it leaves a coherent cache.
  pub solve-IsSelection :
      (max_bundle max_candidates : ℕ) (complete : Bool) (cache : Cache F)
      → IsCoherent fl p cache
      → solvable fl p max_bundle max_candidates ≡ ok tt
      → IsCoherent fl p (solve fl p max_bundle max_candidates complete cache).0
        × IsSolved (solve fl p max_bundle max_candidates complete cache).1
  unfolding solve
  solve-IsSelection max_bundle max_candidates complete cache coherent h =
      (guarded-Ensures (solvable fl p max_bundle max_candidates) complete max_bundle h).run cache
        coherent

  guarded-returned :
      (g : Result (Unit {0})) (complete : Bool) (max_bundle : ℕ) (cache : Cache F)
      (s : Selection fl)
      → IsCoherent fl p cache
      → (guarded fl p g complete max_bundle cache).1 ≡ ok (some s)
      → IsSelection s
  guarded-returned (err e) complete max_bundle cache s coherent h = cc
  guarded-returned (ok u) complete max_bundle cache s coherent h =
      let (_, (t, q, good)) =
        (guarded-Ensures (ok u) complete max_bundle refl).run cache coherent in
      rw (some_inj (ok_inj (sym h ∙ q))) good

  -- What `solve` returns is a selection.
  pub solve-returned :
      (max_bundle max_candidates : ℕ) (complete : Bool) (cache : Cache F) (s : Selection fl)
      → IsCoherent fl p cache
      → (solve fl p max_bundle max_candidates complete cache).1 ≡ ok (some s)
      → IsSelection s
  unfolding solve
  solve-returned max_bundle max_candidates complete =
      guarded-returned (solvable fl p max_bundle max_candidates) complete max_bundle
