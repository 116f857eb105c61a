-- ===== src/Governor/Walk.antt =====
-- The walk of `assemble` of core/governor.py down the ranking, one step for each item.
use trilith.Prelude.{
  ℕ, ◌+◌, ◌≤◌, ◌<◌, ◌⊎◌, Bool-cases, String, ◌≡◌, refl, inl, inr, Bool, true, false, not, ◌&&◌,
  List, [], ◌∷◌, Option, arith, leb, leb→le, if◌then◌else◌, and-true_parts,
}
use trilith.Exec.{Result, ok, err, bind-ok, ◌>>=◌ as bind}
use trilith.Python.{Python}
use trilith.Floats.{Floats}
use trilith.Proto.{ContextItem}
use trilith.Ranking.{Governor, estimate_tokens}
use trilith.Governor.{
  Filled, fill, floor_reason, relevant, is_selected, exclude, include, budget_exceeded,
}

module _ (fl : Floats) (py : Python) (now : ℕ) (g : Governor fl) where
  module _ (keys : Option (List (String × String))) (budget : ℕ) where
    -- Why a ranked item is left out: its score is not above the floor, or it does not fit in what
    -- is left of the budget, or packing did not select it.
    abbrev pub IsLeftOut : ℕ → ContextItem → fl.F → String → Type 0
    IsLeftOut used item s reason =
        ((relevant fl py now g s ≡ false) × (reason ≡ floor_reason fl py now g s))
        ⊎ ((relevant fl py now g s ≡ true)
            × ((cost : ℕ) × (estimate_tokens fl g item ≡ ok cost)
                × ((budget < used + cost) ⊎ (is_selected fl py now keys item ≡ false)))
            × (reason ≡ budget_exceeded))

    -- A ranked item is taken.
    abbrev pub IsTaken : ℕ → ContextItem → fl.F → ℕ → Type 0
    IsTaken used item s cost =
        (relevant fl py now g s ≡ true)
        × (estimate_tokens fl g item ≡ ok cost)
        × (used + cost ≤ budget)
        × (is_selected fl py now keys item ≡ true)

    -- The greedy walk down the ranking, from the tokens used so far.
    pub data Greedy : ℕ → List (ContextItem × fl.F) → Filled fl py now → Type 0 where
      nothing_left : (used : ℕ) → Greedy used [] (record { items = []; used = used; excluded = [] })
      leaves :
          (used : ℕ) (item : ContextItem) (s : fl.F) (rest : List (ContextItem × fl.F))
          (f : Filled fl py now) (reason : String)
          → IsLeftOut used item s reason
          → Greedy used rest f
          → Greedy used
              ((item, s) ∷ rest)
              (record f { excluded = record { item = item; reason = reason } ∷ f.excluded })
      takes :
          (used : ℕ) (item : ContextItem) (s : fl.F) (rest : List (ContextItem × fl.F))
          (f : Filled fl py now) (cost : ℕ)
          → IsTaken used item s cost
          → Greedy (used + cost) rest f
          → Greedy used ((item, s) ∷ rest) (record f { items = item ∷ f.items })

    -- What becomes of one ranked item.
    pub data Step (used : ℕ) (item : ContextItem) (s : fl.F) (rest : List (ContextItem × fl.F))
        (f : Filled fl py now) : Type 0 where
      left_out :
          (f' : Filled fl py now) (reason : String)
          → IsLeftOut used item s reason
          → fill fl py now g keys budget used rest ≡ ok f'
          → f ≡ exclude fl py now item reason f'
          → Step used item s rest f
      taken :
          (f' : Filled fl py now) (cost : ℕ)
          → IsTaken used item s cost
          → fill fl py now g keys budget (used + cost) rest ≡ ok f'
          → f ≡ include fl py now item f'
          → Step used item s rest f

    pub fill-Step :
        (used : ℕ) (item : ContextItem) (s : fl.F) (rest : List (ContextItem × fl.F))
        (f : Filled fl py now)
        → fill fl py now g keys budget used ((item, s) ∷ rest) ≡ ok f
        → Step used item s rest f
    unfolding fill
    fill-Step used item s rest f h = by_relevance (relevant fl py now g s) refl h
      where
        skipped :
            (reason : String)
            → IsLeftOut used item s reason
            → bind
                (fill fl py now g keys budget used rest)
                (λ x. ok (exclude fl py now item reason x))
              ≡ ok f
            → Step used item s rest f
        skipped reason why q =
            let (f', e, k) =
              bind-ok (fill fl py now g keys budget used rest)
                (λ x. ok (exclude fl py now item reason x)) f q in
            left_out f' reason why e cc

        misfit :
            (cost : ℕ)
            → (leb (used + cost) budget && is_selected fl py now keys item) ≡ false
            → (budget < used + cost) ⊎ (is_selected fl py now keys item ≡ false)
        misfit cost e = elim (Bool-cases (is_selected fl py now keys item)) [
          | inl k ↦ inl (ground (arith, k))
          | inr k ↦ inr k
        ]

        by_fit :
            (cost : ℕ) (b : Bool)
            → relevant fl py now g s ≡ true
            → estimate_tokens fl g item ≡ ok cost
            → (leb (used + cost) budget && is_selected fl py now keys item) ≡ b
            → (if b
                then bind
                    (fill fl py now g keys budget (used + cost) rest)
                    (λ x. ok (include fl py now item x))
                else bind
                    (fill fl py now g keys budget used rest)
                    (λ x. ok (exclude fl py now item budget_exceeded x)))
              ≡ ok f
            → Step used item s rest f
        by_fit cost false r c e q =
            skipped budget_exceeded (inr (r, (cost, c, misfit cost e), refl)) q
        by_fit cost true r c e q =
            let (f', k, q') =
              bind-ok (fill fl py now g keys budget (used + cost) rest)
                (λ x. ok (include fl py now item x)) f q in
            let (fits, chosen) =
              and-true_parts (leb (used + cost) budget) (is_selected fl py now keys item) e in
            taken f' cost (r, c, leb→le (used + cost) budget fits, chosen) k cc

        by_cost :
            (m : Result ℕ)
            → relevant fl py now g s ≡ true
            → estimate_tokens fl g item ≡ m
            → bind m (λ cost.
              if leb (used + cost) budget && is_selected fl py now keys item
              then bind
                  (fill fl py now g keys budget (used + cost) rest)
                  (λ x. ok (include fl py now item x))
              else bind
                  (fill fl py now g keys budget used rest)
                  (λ x. ok (exclude fl py now item budget_exceeded x)))
              ≡ ok f
            → Step used item s rest f
        by_cost (err e) r c q = cc
        by_cost (ok cost) r c q = by_fit cost _ r c refl q

        by_relevance :
            (b : Bool)
            → relevant fl py now g s ≡ b
            → (if not b
                then bind
                    (fill fl py now g keys budget used rest)
                    (λ x. ok (exclude fl py now item (floor_reason fl py now g s) x))
                else bind (estimate_tokens fl g item) (λ cost.
                  if leb (used + cost) budget && is_selected fl py now keys item
                  then bind
                      (fill fl py now g keys budget (used + cost) rest)
                      (λ x. ok (include fl py now item x))
                  else bind
                      (fill fl py now g keys budget used rest)
                      (λ x. ok (exclude fl py now item budget_exceeded x))))
              ≡ ok f
            → Step used item s rest f
        by_relevance false r q = skipped (floor_reason fl py now g s) (inl (r, refl)) q
        by_relevance true r q = by_cost (estimate_tokens fl g item) r refl q
