-- ===== src/Witness/Rounds.antt =====
-- The loop of `solve` in core/lineage.py ends, with choices that stay within the budget.
use trilith.Prelude.{
  ℕ, zero, suc, ◌≤◌, ◌≡◌, refl, ◌∙◌, Bool, List, [], ◌∷◌, ◌++◌, Option, some, length, ltb, if-both,
  All, All-append, arith, Bool-cases, inl, inr,
}
use trilith.Floats.{Floats}
use trilith.Witness.{Mask, union, WitnessProblem}
use trilith.Witness.Objective.{Memo, ◌>>=◌, return, value, cost}
use trilith.Witness.Completions.{greatest}
use trilith.Witness.Solver.{
  remaining, better, least_gain, proposal, weighed, Proposal, Progress, after_key, weigh, consider,
  consider_all, additions, rounds, from_bundle, end_round,
}
use trilith.Witness.Caching.{Ensures, return-Ensures, bind-Ensures, value-then}
use trilith.Witness.Choices.{IsAddition, cost-union, length-union, remaining-union, greatest-All}
use trilith.Witness.Additions.{additions-IsAddition}

module _ (fl : Floats) (p : WitnessProblem fl) where
  open fl use {F}

  -- A choice of evidence within the budget.
  pub record IsChoice (m : Mask) : Type 0 where
    pub whole : length m ≡ length p.evidence
    pub fits : cost fl p m ≤ p.budget

  record IsProposal (chosen : Mask) (q : Proposal fl) : Type 0 where
    adds : IsAddition chosen q.addition
    fits : cost fl p (union chosen q.addition) ≤ p.budget

  record IsProgress (chosen : Mask) (s : Progress fl) : Type 0 where
    bundle : IsChoice s.best_bundle
    proposals : All (IsProposal chosen) s.proposals

  module _ (chosen : Mask) (is_choice : IsChoice chosen) (current : F) where
    weighed-IsProgress :
        (a : Mask) (s : Progress fl) (v w u : F)
        → IsAddition chosen a
        → cost fl p (union chosen a) ≤ p.budget
        → IsProgress chosen s
        → IsProgress chosen (weighed fl p current a s v w u)
    weighed-IsProgress a s v w u h fits k = record {
      bundle =
          if-both IsChoice (better fl (v, cost fl p a) (w, cost fl p s.best_bundle)) a s.best_bundle
            (record {
              whole = h.same_length ∙ is_choice.whole;
              fits = omega (arith, cost-union p.evidence chosen a, fits);
            })
            k.bundle;
      proposals =
          if-both (All (IsProposal chosen)) (fl.lt (least_gain fl) (fl.sub u current))
            (s.proposals ++ proposal fl p a (fl.sub u current) ∷ []) s.proposals
            (All-append (IsProposal chosen) s.proposals (proposal fl p a (fl.sub u current) ∷ [])
              k.proposals (record { adds = h; fits = fits }, tt))
            k.proposals;
    }

    weigh-Ensures :
        (a : Mask) (s : Progress fl)
        → IsAddition chosen a
        → cost fl p (union chosen a) ≤ p.budget
        → IsProgress chosen s
        → Ensures fl p (IsProgress chosen) (weigh fl p chosen current a s)
    weigh-Ensures a s h fits k =
        let last = λ (v w u : F). return {A = Progress fl} (weighed fl p current a s v w u) in
        value-then fl p (IsProgress chosen) a
          (λ v. value fl p s.best_bundle >>= λ w. value fl p (union chosen a) >>= last v w)
          (λ v _.
            value-then fl p (IsProgress chosen) s.best_bundle
              (λ w. value fl p (union chosen a) >>= last v w)
              (λ w _. value-then fl p (IsProgress chosen) (union chosen a) (last v w) (λ u _.
                return-Ensures fl p (IsProgress chosen) (weighed fl p current a s v w u)
                  (weighed-IsProgress a s v w u h fits k))))

    consider-Ensures :
        (a : Mask) (s : Progress fl)
        → IsAddition chosen a
        → IsProgress chosen s
        → Ensures fl p (IsProgress chosen) (consider fl p chosen current a s)
    unfolding consider
    consider-Ensures a s h k = elim (Bool-cases (ltb p.budget (cost fl p (union chosen a)))) [
      | inl over ↦ rw over (return-Ensures fl p (IsProgress chosen) s k)
      | inr fits ↦ rw fits (weigh-Ensures a s h (ground (arith, fits)) k)
    ]

    consider_all-Ensures :
        (more : List Mask) (s : Progress fl)
        → All (IsAddition chosen) more
        → IsProgress chosen s
        → Ensures fl p (IsProgress chosen) (consider_all fl p chosen current more s)
    unfolding consider_all
    consider_all-Ensures [] s h k = return-Ensures fl p (IsProgress chosen) s k
    consider_all-Ensures (a ∷ more) s h k =
        bind-Ensures fl p (IsProgress chosen) (IsProgress chosen) (consider fl p chosen current a s)
          (consider_all fl p chosen current more) (consider-Ensures a s h.0 k)
          (λ t g. consider_all-Ensures more t h.1 g)

  proposal-cases :
      {A : Type 0} (P : A → Type 0) (Q : Proposal fl → Type 0) (qs : List (Proposal fl))
      (ends : Memo F A) (goes_on : Proposal fl → List (Proposal fl) → Memo F A)
      → All Q qs
      → Ensures fl p P ends
      → ((q : Proposal fl) (rest : List (Proposal fl))
          → Q q
          → All Q rest
          → Ensures fl p P (goes_on q rest))
      → Ensures fl p P (elim qs [ [] ↦ ends | q ∷ rest ↦ goes_on q rest ])
  proposal-cases P Q [] ends goes_on h e k = e
  proposal-cases P Q (q ∷ rest) ends goes_on h e k = k q rest h.0 h.1

  -- The loop ends with two choices.
  abbrev pub Ends : Option (Mask × Mask) → Type 0
  Ends o = (c : Mask) × (b : Mask) × (o ≡ some (c, b)) × IsChoice c × IsChoice b

  pub rounds-Ensures :
      (n : ℕ) (complete : Bool) (max_bundle : ℕ) (chosen bundle : Mask)
      → suc (remaining chosen) ≤ n
      → IsChoice chosen
      → IsChoice bundle
      → Ensures fl p Ends (rounds fl p n complete max_bundle chosen bundle)
  unfolding rounds
  rounds-Ensures zero complete max_bundle chosen bundle enough c b = absurd (omega (arith, enough))
  rounds-Ensures (suc n) complete max_bundle chosen bundle enough c b =
      let tried = additions fl p complete max_bundle chosen in
      let loop = rounds fl p n complete max_bundle in
      let rest = rounds-Ensures n complete max_bundle in
      value-then fl p Ends chosen
        (λ current.
          consider_all fl p chosen current tried (from_bundle fl p bundle)
          >>= end_round fl p loop chosen)
        (λ current _.
          bind-Ensures fl p (IsProgress chosen) Ends
            (consider_all fl p chosen current tried (from_bundle fl p bundle))
            (end_round fl p loop chosen)
            (consider_all-Ensures chosen c current tried (from_bundle fl p bundle)
              (additions-IsAddition fl p chosen c.whole complete max_bundle)
              (record { bundle = b; proposals = tt }))
            (λ s k.
              proposal-cases Ends (IsProposal chosen) s.proposals
                (return (some (chosen, s.best_bundle)))
                (λ q qs. loop (union chosen (greatest (after_key fl) q qs).addition) s.best_bundle)
                k.proposals
                (return-Ensures fl p Ends (some (chosen, s.best_bundle))
                  (chosen, s.best_bundle, refl, c, k.bundle))
                (λ q qs h hs.
                  let best = greatest (after_key fl) q qs in
                  let good = greatest-All (IsProposal chosen) (after_key fl) q qs h hs in
                  let fewer =
                    remaining-union chosen best.addition good.adds.same_length
                      good.adds.adds_index in
                  rest (union chosen best.addition) s.best_bundle (omega (arith, enough, fewer))
                    (record {
                      whole = length-union chosen best.addition good.adds.same_length ∙ c.whole;
                      fits = good.fits;
                    })
                    k.bundle)))
