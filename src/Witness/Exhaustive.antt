-- ===== src/Witness/Exhaustive.antt =====
-- The choices that `oracle` of core/lineage.py goes through are all choices.
use trilith.Prelude.{
  ℕ, zero, suc, ◌≤◌, ◌≡◌, refl, sym, ap, true, false, List, [], ◌∷◌, length, All, All-of_Occurs,
  Occurs, map-Occurs, append-Occurs_left, append-Occurs_right, arith, inl, inr, ◌⊎◌,
}
use trilith.Witness.{Mask}
use trilith.Witness.Completions.{no_choice, concat_map}
use trilith.Witness.Solver.{combinations, one_to}
use trilith.Witness.Choices.{All-concat_map, combinations-length}
use trilith.Witness.Additions.{length-no_choice}

-- the number of the indices in a mask
abbrev chosen_count : Mask → ℕ
chosen_count [] = 0
chosen_count (true ∷ m) = suc (chosen_count m)
chosen_count (false ∷ m) = chosen_count m

chosen_count-le : (m : Mask) → chosen_count m ≤ length m
chosen_count-le [] = omega arith
chosen_count-le (true ∷ m) = omega (arith, chosen_count-le m)
chosen_count-le (false ∷ m) = omega (arith, chosen_count-le m)

no_choice_unique :
    {A : Type 0} (xs : List A) (m : Mask)
    → length m ≡ length xs
    → chosen_count m ≡ 0
    → m ≡ no_choice xs
no_choice_unique [] [] h k = refl
no_choice_unique [] (b ∷ m) h k = absurd (omega (arith, h))
no_choice_unique (x ∷ xs) [] h k = absurd (omega (arith, h))
no_choice_unique (x ∷ xs) (true ∷ m) h k = absurd (omega (arith, k))
no_choice_unique (x ∷ xs) (false ∷ m) h k =
    ap (λ n. false ∷ n) (no_choice_unique xs m (omega (arith, h)) k)

combinations-Occurs :
    {A : Type 0} (xs : List A) (m : Mask)
    → length m ≡ length xs
    → Occurs m (combinations (no_choice xs) (chosen_count m))
unfolding combinations
combinations-Occurs [] [] h = inl refl
combinations-Occurs [] (b ∷ m) h = absurd (omega (arith, h))
combinations-Occurs (x ∷ xs) [] h = absurd (omega (arith, h))
combinations-Occurs (x ∷ xs) (true ∷ m) h =
    append-Occurs_left _ _ (true ∷ m)
      (map-Occurs (λ n. true ∷ n) _ m (combinations-Occurs xs m (omega (arith, h))))
combinations-Occurs (x ∷ xs) (false ∷ m) h =
    without (chosen_count m) (combinations-Occurs xs m (omega (arith, h)))
  where
    without :
        (k : ℕ)
        → Occurs m (combinations (no_choice xs) k)
        → Occurs (false ∷ m) (combinations (false ∷ no_choice xs) k)
    without zero o = map-Occurs (λ n. false ∷ n) _ m o
    without (suc k) o = append-Occurs_right _ _ (false ∷ m) (map-Occurs (λ n. false ∷ n) _ m o)

last : (n k : ℕ) → suc k ≤ suc n → (k ≡ n) ⊎ (suc k ≤ n)
last n k h = omega (arith, h)

one_to-Occurs : (n k : ℕ) → suc k ≤ n → Occurs (suc k) (one_to n)
unfolding one_to
one_to-Occurs zero k h = absurd (omega (arith, h))
one_to-Occurs (suc n) k h = elim (last n k h) [
  | inl e ↦ append-Occurs_right (one_to n) (suc n ∷ []) (suc k) (inl (ap (λ i. suc i) e))
  | inr l ↦ append-Occurs_left (one_to n) (suc n ∷ []) (suc k) (one_to-Occurs n k l)
]

concat_map-Occurs :
    {A B : Type 0} (f : A → List B) (xs : List A) (x : A) (y : B)
    → Occurs x xs
    → Occurs y (f x)
    → Occurs y (concat_map f xs)
unfolding concat_map
concat_map-Occurs f [] x y o k = absurd o
concat_map-Occurs f (z ∷ xs) x y (inl e) k = append-Occurs_left (f z) _ y (rw e at k)
concat_map-Occurs f (z ∷ xs) x y (inr o) k =
    append-Occurs_right (f z) _ y (concat_map-Occurs f xs x y o k)

-- A mask over the evidence is empty, or it is a combination of some size.
pub choices_complete :
    {A : Type 0} (xs : List A) (m : Mask)
    → length m ≡ length xs
    → (m ≡ no_choice xs)
      ⊎ Occurs m (concat_map (λ size. combinations (no_choice xs) size) (one_to (length xs)))
choices_complete xs m h = by_count (chosen_count m) refl
  where
    by_count :
        (k : ℕ)
        → chosen_count m ≡ k
        → (m ≡ no_choice xs)
          ⊎ Occurs m (concat_map (λ size. combinations (no_choice xs) size) (one_to (length xs)))
    by_count zero e = inl (no_choice_unique xs m h e)
    by_count (suc k) e = inr (
        concat_map-Occurs (λ size. combinations (no_choice xs) size) (one_to (length xs)) (suc k) m
          (one_to-Occurs (length xs) k (omega (arith, chosen_count-le m, h, e)))
          (rw e at (combinations-Occurs xs m h)))

-- Each combination over the evidence has a bit for each piece of it.
pub choices-whole :
    {A : Type 0} (xs : List A)
    → All
        (λ m. length m ≡ length xs)
        (concat_map (λ size. combinations (no_choice xs) size) (one_to (length xs)))
choices-whole xs =
    All-concat_map (λ m. length m ≡ length xs) (combinations (no_choice xs)) (one_to (length xs))
      (All-of_Occurs (one_to (length xs))
        (λ k _. rw (sym (length-no_choice xs)) (combinations-length (no_choice xs) k)))
