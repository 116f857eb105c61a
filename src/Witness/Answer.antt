-- ===== src/Witness/Answer.antt =====
-- The answer of `assemble_witnesses` in core/lineage.py as a whole.
use trilith.Prelude.{
  ℕ, ◌≤◌, ◌≡◌, refl, sym, ap, true, List, [], Option, none, some, map, length, All, arith,
}
use trilith.Exec.{Result, ok, err, traverse, bind-ok, ok_inj, length-traverse}
use trilith.Python.{Python}
use trilith.Floats.{Floats}
use trilith.Proto.{ContextItem, AssembledContext}
use trilith.Identity.{Principal}
use trilith.Database.{Db}
use trilith.Runtime.{Runtime, ◌>>=◌, return, reads, value, atomic_operation, settle}
use trilith.Runtime.Keeps.{bind-returns}
use trilith.Ranking.{Governor}
use trilith.Governor.{whole}
use trilith.Witness.{
  Evidence, Requirement, Scenario, Selection, WitnessProblem, problem_guards, problem_budget,
  problem_of, witness_problem,
}
use trilith.Witness.Solver.{solve}
use trilith.Witness.Solved.{IsSelection, solve-returned}
use trilith.Witness.Assemble.{
  Annotation, Approval, approvals, lookup_approved, ended, announced, context_of, answer,
  pack_approved, assemble_witnesses,
}
use trilith.Witness.Approved.{IsApproved, approvals-IsApproved, lookups-IsApproved}

module _ (fl : Floats) where
  witness_problem-budget :
      (evidence : List Evidence) (requirements : List (Requirement fl))
      (scenarios : List (Scenario fl)) (n : ℕ) (problem : WitnessProblem fl)
      → witness_problem fl evidence requirements scenarios (whole n) ≡ ok problem
      → problem.budget ≡ n
  unfolding witness_problem problem_budget
  witness_problem-budget evidence requirements scenarios n problem h =
      let made = problem_of fl evidence requirements scenarios n in
      let (_, _, k) =
        bind-ok (problem_guards fl evidence requirements scenarios) (λ _. ok made) problem h in
      ap (λ (q : WitnessProblem fl). q.budget) (sym (ok_inj {a = made} k))

  module _ (py : Python) (now : ℕ) (g : Governor fl) (p : Principal) where
    -- The items are approved and fit the budget.
    pub record IsAnswer (db : Db) (n : ℕ) (a : AssembledContext × Selection fl) : Type 0 where
      pub approved : All (IsApproved fl py now g p db) a.0.items
      pub counted : length a.0.items ≡ length a.1.keys
      pub cost : a.0.tokens_used ≡ a.1.cost
      pub fits : a.0.tokens_used ≤ n

    ended-some :
        (r : Result (Option (Selection fl))) (s : Selection fl)
        → ended fl py now g p r ≡ ok s
        → r ≡ ok (some s)
    ended-some (err e) s h = cc
    ended-some (ok none) s h = cc
    ended-some (ok (some t)) s h = ap (λ x. ok (some x)) (ok_inj h)

    IsSelection-fits :
        (problem : WitnessProblem fl) (s : Selection fl)
        → IsSelection fl problem s
        → s.cost ≤ problem.budget
    unfolding IsSelection
    IsSelection-fits problem s (m, c, r) = rw r.cost c.fits

    settle-returned :
        {A : Type 0} (db : Db) (done : Runtime × Result A) (a : A)
        → (settle db done).1 ≡ ok a
        → done.1 ≡ ok a
    settle-returned db (rt, ok b) a h = h
    settle-returned db (rt, err e) a h = h

    answer-IsAnswer :
        (db : Db) (n : ℕ) (found : List Approval) (s : Selection fl) (rt : Runtime)
        (a : AssembledContext × Selection fl)
        → All (λ e. IsApproved fl py now g p db e.1) found
        → s.cost ≤ n
        → (answer fl py now g p found s rt).1 ≡ ok a
        → IsAnswer db n a
    answer-IsAnswer db n found s rt a good fits h =
        let lookups = traverse (lookup_approved fl py now g p found) s.keys in
        let ending = λ (items : List ContextItem).
          return {A = AssembledContext × Selection fl} (context_of fl py now g p s items, s) in
        let (_, _, k) =
          bind-returns (announced fl py now g p s) (λ _. value lookups >>= ending) rt a h in
        let (items, r, e) =
          bind-returns (value lookups) ending (announced fl py now g p s rt).0 a k in
        rw (sym (ok_inj e)) (record {
          approved = lookups-IsApproved fl py now g p db found s.keys items good r;
          counted = length-traverse (lookup_approved fl py now g p found) s.keys items r;
          cost = refl;
          fits = fits;
        })

    -- What `assemble_witnesses` returns for a budget `n` has an item for each key of the selection and
    -- uses its cost as tokens, which is at most `n`; each item is a stored item with its text
    -- redacted, which the principal may see now, as the principal may see every item that it goes
    -- back to over the recorded sources.
    pub assemble_witnesses-IsAnswer :
        (annotations : List Annotation) (requirements : List (Requirement fl))
        (scenarios : List (Scenario fl)) (n max_bundle : ℕ) (rt : Runtime)
        (a : AssembledContext × Selection fl)
        → (assemble_witnesses fl py now g p annotations requirements scenarios
            (whole n)
            max_bundle
            rt).1
          ≡ ok a
        → IsAnswer rt.db n a
    unfolding assemble_witnesses atomic_operation
    assemble_witnesses-IsAnswer annotations requirements scenarios n max_bundle rt a h =
        let packs = pack_approved fl py now g p requirements scenarios (whole n) max_bundle in
        let approving = reads (approvals fl py now g p annotations) in
        let k = settle-returned rt.db ((approving >>= packs) rt) a h in
        let (found, f, k1) = bind-returns approving packs rt a k in
        let solving = λ (problem : WitnessProblem fl).
          value (ended fl py now g p (solve fl problem max_bundle 24 true []).1) in
        let evidence = map (λ (e : Approval). e.0) found in
        let (problem, q, k2) =
          bind-returns (value (witness_problem fl evidence requirements scenarios (whole n)))
            (λ problem. solving problem >>= answer fl py now g p found) rt a k1 in
        let (s, e, k3) = bind-returns (solving problem) (answer fl py now g p found) rt a k2 in
        let selected =
          solve-returned fl problem max_bundle 24 true [] s tt
            (ended-some (solve fl problem max_bundle 24 true []).1 s e) in
        answer-IsAnswer rt.db n found s rt a
          (approvals-IsApproved fl py now g p rt.db annotations found f)
          (omega (
            arith,
            IsSelection-fits problem s selected,
            witness_problem-budget evidence requirements scenarios n problem q,
          ))
          k3
