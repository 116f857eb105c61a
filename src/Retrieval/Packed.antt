-- ===== src/Retrieval/Packed.antt =====
-- What packing promises: it stays within the budget and only picks candidates.
use trilith.Prelude.{
  ℕ, zero, suc, ◌+◌, ◌≤◌, String, ◌≡◌, refl, ap, ◌∙◌, ◌⊎◌, inl, inr, Bool, true, false, List, [],
  ◌∷◌, ◌++◌, Occurs, filter, arith, Bool-cases, Occurs-filter, Occurs-append, leb, leb→le, length,
  nat_eq, if◌then◌else◌,
}
use trilith.Floats.{Floats}
use trilith.Retrieval.{
  Entry, Packing, best_of, choose, feasible, pack_loop, pack_result, pack_entries, start, greater,
  better_single, gain, utility,
}

module _ (fl : Floats) where
  pub total_cost : List (Entry fl) → ℕ
  total_cost [] = 0
  total_cost (e ∷ es) = e.cost + total_cost es

  total_cost-append :
      (xs : List (Entry fl)) (e : Entry fl) → total_cost (xs ++ e ∷ []) ≡ total_cost xs + e.cost
  unfolding total_cost
  total_cost-append [] e = omega arith
  total_cost-append (x ∷ xs) e = ground (arith, total_cost-append xs e)

  -- A choice within the budget.
  pub record IsPacked (budget : ℕ) (entries chosen : List (Entry fl)) : Type 0 where
    pub bound : total_cost chosen ≤ budget
    pub from : (e : Entry fl) → Occurs e chosen → Occurs e entries

  record IsPacking (budget : ℕ) (entries : List (Entry fl)) (p : Packing fl) : Type 0 where
    sum : total_cost p.chosen ≡ p.spent
    bound : p.spent ≤ budget
    from : (e : Entry fl) → Occurs e p.chosen → Occurs e entries
    rest : (e : Entry fl) → Occurs e p.remaining → Occurs e entries

  module _ (query : List String) where
    best_of-Occurs :
        (ahead : Entry fl → Entry fl → Bool) (best : Entry fl) (es : List (Entry fl))
        → Occurs (best_of fl query ahead best es) (best ∷ es)
    unfolding best_of
    best_of-Occurs ahead best [] = inl refl
    best_of-Occurs ahead best (e ∷ es) =
        pick (ahead e best) (best_of-Occurs ahead e es) (best_of-Occurs ahead best es)
      where
        earlier : (x : Entry fl) → Occurs x (best ∷ es) → Occurs x (best ∷ e ∷ es)
        earlier x (inl q) = inl q
        earlier x (inr o) = inr (inr o)

        pick :
            (b : Bool)
            → Occurs (best_of fl query ahead e es) (e ∷ es)
            → Occurs (best_of fl query ahead best es) (best ∷ es)
            → Occurs (best_of fl query ahead (if b then e else best) es) (best ∷ e ∷ es)
        pick true new old = inr new
        pick false new old = earlier (best_of fl query ahead best es) old

    choose-IsPacking :
        (budget : ℕ) (entries : List (Entry fl)) (p : Packing fl) (best : Entry fl)
        → IsPacking budget entries p
        → Occurs best (feasible fl query budget p)
        → IsPacking budget entries (choose fl query p best)
    choose-IsPacking budget entries p best k o =
        let (there, fits) = Occurs-filter _ p.remaining best o in
        let within = leb→le (best.cost + p.spent) budget fits in
        record {
          sum = total_cost-append p.chosen best ∙ ap (λ n. n + best.cost) k.sum;
          bound = omega arith;
          from = λ e i. picked e there (Occurs-append p.chosen (best ∷ []) e i);
          rest = λ e i. k.rest e (Occurs-filter _ p.remaining e i).0;
        }
      where
        picked :
            (e : Entry fl)
            → Occurs best p.remaining
            → Occurs e p.chosen ⊎ Occurs e (best ∷ [])
            → Occurs e entries
        picked e there (inl i) = k.from e i
        picked e there (inr (inl q)) = rw q (k.rest best there)
        picked e there (inr (inr i)) = absurd i

    pack_loop-IsPacking :
        (fuel budget : ℕ) (entries : List (Entry fl)) (p : Packing fl)
        → IsPacking budget entries p
        → IsPacking budget entries (pack_loop fl query fuel budget p)
    unfolding pack_loop
    pack_loop-IsPacking zero budget entries p k = k
    pack_loop-IsPacking (suc fuel) budget entries p k =
        round (feasible fl query budget p) refl (λ q. pack_loop-IsPacking fuel budget entries q)
      where
        round :
            (fs : List (Entry fl))
            → feasible fl query budget p ≡ fs
            → ((q : Packing fl)
                → IsPacking budget entries q
                → IsPacking budget entries (pack_loop fl query fuel budget q))
            → IsPacking budget entries (elim fs [
              | [] ↦ p
              | e ∷ es ↦
                  if fl.le
                    (gain fl query (best_of fl query (greater fl query p.covered) e es) p.covered)
                    fl.zero
                  then p
                  else pack_loop fl query fuel budget
                      (choose fl query p (best_of fl query (greater fl query p.covered) e es))
            ])
        round [] q next = k
        round (e ∷ es) q next =
            let best = best_of fl query (greater fl query p.covered) e es in
            elim (Bool-cases (fl.le (gain fl query best p.covered) fl.zero)) [
              | inl h ↦ rw h k
              | inr h ↦ rw h (
                  next (choose fl query p best) (
                    choose-IsPacking budget entries p best k
                      (rw q (best_of-Occurs (greater fl query p.covered) e es))))
            ]

    single :
        (budget : ℕ) (entries : List (Entry fl)) (best : Entry fl)
        → Occurs best entries
        → best.cost ≤ budget
        → IsPacked budget entries (best ∷ [])
    unfolding total_cost
    single budget entries best there cheap = record { bound = omega arith; from = λ e o. only e o }
      where
        only : (e : Entry fl) → Occurs e (best ∷ []) → Occurs e entries
        only e (inl q) = rw q there
        only e (inr o) = absurd o

    -- Packing chooses among the candidates, at a total cost within the budget.
    pub pack_entries-IsPacked :
        (budget : ℕ) (entries : List (Entry fl))
        → IsPacked budget entries (pack_entries fl query budget entries)
    unfolding pack_entries pack_result total_cost
    pack_entries-IsPacked budget entries =
        result (filter (λ e. leb e.cost budget) entries) (λ e o. Occurs-filter _ entries e o)
      where
        looped : Packing fl
        looped = pack_loop fl query (length entries) budget (start fl query entries)

        greedy : IsPacking budget entries looped
        greedy =
            pack_loop-IsPacking (length entries) budget entries (start fl query entries)
              (record { sum = refl; bound = omega arith; from = λ e o. absurd o; rest = λ e o. o })

        greedy_packed : IsPacked budget entries looped.chosen
        greedy_packed = record { bound = rw greedy.sum greedy.bound; from = greedy.from }

        result :
            (singles : List (Entry fl))
            → ((e : Entry fl) → Occurs e singles → Occurs e entries × (leb e.cost budget ≡ true))
            → IsPacked budget entries (pack_result fl query singles looped)
        result [] fits = greedy_packed
        result (e ∷ es) fits =
            let best = best_of fl query (better_single fl query) e es in
            let (there, cheap) = fits best (best_of-Occurs (better_single fl query) e es) in
            elim (Bool-cases (fl.lt (utility fl query looped) (gain fl query best []))) [
              | inl h ↦ rw h (single budget entries best there (leb→le best.cost budget cheap))
              | inr h ↦ rw h greedy_packed
            ]
