-- ===== src/Governor/Budget.antt =====
-- What filling the budget promises.
use trilith.Prelude.{
  ℕ, ◌+◌, ◌≤◌, String, ◌≡◌, refl, inl, inr, true, List, [], ◌∷◌, Option, Occurs, arith, length,
}
use trilith.Exec.{Result, ok, ◌>>=◌ as bind}
use trilith.Python.{Python}
use trilith.Floats.{Floats}
use trilith.Proto.{ContextItem, ExcludedItem}
use trilith.Ranking.{Governor, estimate_tokens}
use trilith.Governor.Walk.{
  IsLeftOut, IsTaken, Greedy, nothing_left, leaves, takes, Step, left_out, taken, fill-Step,
}
use trilith.Governor.{Filled, fill, relevant, is_selected, exclude, include}

module _ (fl : Floats) (py : Python) (now : ℕ) (g : Governor fl) where
  -- the summed cost of the items
  unfoldable pub total_cost : List ContextItem → Result ℕ
  total_cost [] = ok 0
  total_cost (i ∷ is) = bind (estimate_tokens fl g i) (λ c. bind (total_cost is) (λ n. ok (c + n)))

  module _ (keys : Option (List (String × String))) (budget : ℕ) where
    -- The ranked items are split into those taken and those excluded, within the budget.
    pub record IsFilled (used : ℕ) (ranked : List (ContextItem × fl.F)) (f : Filled fl py now)
        : Type 0 where
      pub spent : (n : ℕ) × (total_cost f.items ≡ ok n) × (f.used ≡ used + n)
      pub greedy : Greedy fl py now g keys budget used ranked f
      pub bound : f.used ≤ budget
      pub partition : length f.items + length f.excluded ≡ length ranked
      pub items_from :
          (i : ContextItem)
          → Occurs i f.items
          → (s : fl.F) × Occurs (i, s) ranked
            × (relevant fl py now g s ≡ true)
            × (is_selected fl py now keys i ≡ true)
      pub excluded_from :
          (x : ExcludedItem) → Occurs x f.excluded → (s : fl.F) × Occurs (x.item, s) ranked

    left_out-IsFilled :
        (used : ℕ) (item : ContextItem) (s : fl.F) (rest : List (ContextItem × fl.F))
        (f : Filled fl py now) (reason : String)
        → IsLeftOut fl py now g keys budget used item s reason
        → IsFilled used rest f
        → IsFilled used ((item, s) ∷ rest) (exclude fl py now item reason f)
    left_out-IsFilled used item s rest f reason why k = record {
      greedy = leaves used item s rest f reason why k.greedy;
      spent = k.spent;
      bound = k.bound;
      partition = let p = k.partition in omega arith;
      items_from = λ i o. let (t, r, e, v) = k.items_from i o in (t, inr r, e, v);
      excluded_from = λ x o. excluded x o;
    }
      where
        excluded :
            (x : ExcludedItem)
            → Occurs x (exclude fl py now item reason f).excluded
            → (t : fl.F) × Occurs (x.item, t) ((item, s) ∷ rest)
        excluded x (inl q) = (s, inl (rw q refl))
        excluded x (inr o) = let (t, r) = k.excluded_from x o in (t, inr r)

    taken-IsFilled :
        (used : ℕ) (item : ContextItem) (s : fl.F) (rest : List (ContextItem × fl.F))
        (f : Filled fl py now) (cost : ℕ)
        → IsTaken fl py now g keys budget used item s cost
        → IsFilled (used + cost) rest f
        → IsFilled used ((item, s) ∷ rest) (include fl py now item f)
    unfolding total_cost
    taken-IsFilled used item s rest f cost (r, c, fits, chosen) k = record {
      greedy = takes used item s rest f cost (r, c, fits, chosen) k.greedy;
      spent = let (n, e, q) = k.spent in (cost + n, rw (c, e) refl, omega arith);
      bound = k.bound;
      partition = let p = k.partition in omega arith;
      items_from = λ i o. from i o;
      excluded_from = λ x o. let (t, q) = k.excluded_from x o in (t, inr q);
    }
      where
        from :
            (i : ContextItem)
            → Occurs i (item ∷ f.items)
            → (t : fl.F) × Occurs (i, t) ((item, s) ∷ rest)
              × (relevant fl py now g t ≡ true)
              × (is_selected fl py now keys i ≡ true)
        from i (inl q) = (s, inl (rw q refl), r, rw q chosen)
        from i (inr o) = let (t, p, e, v) = k.items_from i o in (t, inr p, e, v)

    -- Filling walks down the ranking once: it takes every relevant, selected item that fits in what
    -- is left of the budget at its turn, and lists every other one, in order and with the reason,
    -- among the exclusions. It ends within the budget, with the summed cost of what it took as the
    -- tokens used.
    pub fill-IsFilled :
        (used : ℕ) (ranked : List (ContextItem × fl.F)) (f : Filled fl py now)
        → used ≤ budget
        → fill fl py now g keys budget used ranked ≡ ok f
        → IsFilled used ranked f
    unfolding total_cost fill
    fill-IsFilled used [] f u h =
        let q : f ≡ record { items = []; used = used; excluded = [] } = cc in
        rw q (record {
          greedy = nothing_left used;
          spent = (0, refl, omega arith);
          bound = u;
          partition = refl;
          items_from = λ i o. absurd o;
          excluded_from = λ x o. absurd o;
        })
    fill-IsFilled used ((item, s) ∷ rest) f u h =
        split (fill-Step fl py now g keys budget used item s rest f h)
          (λ n f' w e. fill-IsFilled n rest f' w e)
      where
        split :
            Step fl py now g keys budget used item s rest f
            → ((n : ℕ) (f' : Filled fl py now)
                → n ≤ budget
                → fill fl py now g keys budget n rest ≡ ok f'
                → IsFilled n rest f')
            → IsFilled used ((item, s) ∷ rest) f
        split (left_out f' reason why e q) next =
            rw q (left_out-IsFilled used item s rest f' reason why (next used f' u e))
        split (taken f' cost took e q) next =
            let (_, _, fits, _) = took in
            rw q (taken-IsFilled used item s rest f' cost took (next (used + cost) f' fits e))
