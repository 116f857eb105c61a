-- ===== src/Witness/Caching.antt =====
-- The cache of `WitnessProblem.utilities` in core/lineage.py: an evaluation that uses it returns
-- what a direct one returns.
use trilith.Prelude.{
  ◌≡◌, refl, ap, ◌∙◌, true, false, [], ◌∷◌, find, map, All, All-append, All-at, find-Occurs,
  Option-cases, inl, inr,
}
use trilith.Floats.{Floats}
use trilith.Witness.{Mask, same_mask, choose, Evidence, Selection, WitnessProblem}
use trilith.Witness.Objective.{
  Cache, Memo, ◌>>=◌, return, direct_utilities, utilities, weighted, value, cost, report, result,
}

same_mask-eq : (a b : Mask) → same_mask a b ≡ true → a ≡ b
same_mask-eq [] [] h = refl
same_mask-eq [] (_ ∷ _) h = cc
same_mask-eq (_ ∷ _) [] h = cc
same_mask-eq (true ∷ a) (true ∷ b) h = ap (λ m. true ∷ m) (same_mask-eq a b h)
same_mask-eq (true ∷ a) (false ∷ b) h = cc
same_mask-eq (false ∷ a) (true ∷ b) h = cc
same_mask-eq (false ∷ a) (false ∷ b) h = ap (λ m. false ∷ m) (same_mask-eq a b h)

module _ (fl : Floats) (p : WitnessProblem fl) where
  open fl use {F}

  -- Every entry is what a direct evaluation gives.
  abbrev pub IsCoherent : Cache F → Type 0
  IsCoherent cache = All (λ e. e.1 ≡ direct_utilities fl p e.0) cache

  -- From a coherent cache, the evaluation returns a value with the property, and the cache stays
  -- coherent.
  pub record Ensures {A : Type 0} (P : A → Type 0) (m : Memo F A) : Type 0 where
    pub run : (cache : Cache F) → IsCoherent cache → IsCoherent (m cache).0 × P (m cache).1

  pub return-Ensures : {A : Type 0} (P : A → Type 0) (a : A) → P a → Ensures P (return a)
  return-Ensures P a h = record { run = λ cache c. (c, h) }

  pub bind-Ensures :
      {A B : Type 0} (P : A → Type 0) (Q : B → Type 0) (m : Memo F A) (f : A → Memo F B)
      → Ensures P m
      → ((a : A) → P a → Ensures Q (f a))
      → Ensures Q (m >>= f)
  bind-Ensures P Q m f first next = record {
    run = λ cache c. let (d, h) = first.run cache c in (next (m cache).1 h).run (m cache).0 d;
  }

  pub utilities-Ensures :
      (m : Mask) → Ensures (λ us. us ≡ direct_utilities fl p m) (utilities fl p m)
  unfolding utilities
  utilities-Ensures m = record { run = λ cache c. found cache c }
    where
      found :
          (cache : Cache F)
          → IsCoherent cache
          → IsCoherent (utilities fl p m cache).0
            × ((utilities fl p m cache).1 ≡ direct_utilities fl p m)
      found cache c = elim (Option-cases (find (λ e. same_mask e.0 m) cache)) [
        | inl q ↦
            rw q (All-append (λ e. e.1 ≡ direct_utilities fl p e.0) cache _ c (refl, tt), refl)
        | inr (e, q) ↦
            let (o, k) = find-Occurs (λ e. same_mask e.0 m) cache e q in
            rw q (
              c,
              All-at (λ e. e.1 ≡ direct_utilities fl p e.0) cache e c o
                  ∙ ap (direct_utilities fl p) (same_mask-eq e.0 m k),
            )
      ]

  abbrev pub direct_value : Mask → F
  direct_value m = weighted fl p (direct_utilities fl p m)

  pub value-Ensures : (m : Mask) → Ensures (λ v. v ≡ direct_value m) (value fl p m)
  unfolding value
  value-Ensures m =
      bind-Ensures (λ us. us ≡ direct_utilities fl p m) (λ v. v ≡ direct_value m) (utilities fl p m)
        _ (utilities-Ensures m)
        (λ us q. return-Ensures (λ v. v ≡ direct_value m) (weighted fl p us) (ap (weighted fl p) q))

  pub value-then :
      {B : Type 0} (Q : B → Type 0) (m : Mask) (f : F → Memo F B)
      → ((v : F) → v ≡ direct_value m → Ensures Q (f v))
      → Ensures Q (value fl p m >>= f)
  value-then Q m f = bind-Ensures (λ v. v ≡ direct_value m) Q (value fl p m) f (value-Ensures m)

  -- What a selection says of a choice, but for the number of evaluations.
  pub record Reports (m : Mask) (s : Selection fl) : Type 0 where
    pub keys : s.keys ≡ map (λ (e : Evidence). e.key) (choose p.evidence m)
    pub cost : s.cost ≡ cost fl p m
    pub utilities : s.scenario_utilities ≡ direct_utilities fl p m
    pub utility : s.expected_utility ≡ direct_value m

  pub result-Ensures : (m : Mask) → Ensures (Reports m) (result fl p m)
  unfolding result
  result-Ensures m =
      bind-Ensures (λ v. v ≡ direct_value m) (Reports m) (value fl p m)
        (λ v. utilities fl p m >>= report fl p m v) (value-Ensures m)
        (λ v q.
          bind-Ensures (λ us. us ≡ direct_utilities fl p m) (Reports m) (utilities fl p m)
            (report fl p m v) (utilities-Ensures m)
            (λ us k. record {
              run = λ cache c. (c, record { keys = refl; cost = refl; utilities = k; utility = q });
            }))
