-- ===== src/Prelude/Lists.antt =====
-- Lists measured by native numbers, Boolean filters, and occurrences and predicates by recursion,
-- which the tactics read as sums and tuples.
use Prim.Native.Nat.{ℕ, zero, suc}
use mathlib.Core.Path.{◌≡◌, refl, ap}
use mathlib.Core.Logic.{◌⊎◌, inl, inr}
use mathlib.Core.Bool.{Bool, true, false, ◌&&◌, ◌||◌}
use mathlib.Core.List.{List, [], ◌∷◌, ◌++◌, map}
use mathlib.Core.Option.{Option, none, some}
use native.Mathlib.Omega.{arith}
use trilith.Prelude.Tests.{if◌then◌else◌, Bool-cases, and-true_parts}

module _ {ℓ} {A : Type ℓ} where
  abbrev pub length : List A → ℕ
  length [] = 0
  length (x ∷ xs) = suc (length xs)

  abbrev pub is_nil : List A → Bool
  is_nil [] = true
  is_nil (x ∷ xs) = false

  abbrev pub take : ℕ → List A → List A
  take zero xs = []
  take (suc n) [] = []
  take (suc n) (x ∷ xs) = x ∷ take n xs

  abbrev pub drop : ℕ → List A → List A
  drop zero xs = xs
  drop (suc n) [] = []
  drop (suc n) (x ∷ xs) = drop n xs

  -- `[x for x in xs if p(x)]`
  unfoldable pub filter : (A → Bool) → List A → List A
  filter p [] = []
  filter p (x ∷ xs) = let rest = filter p xs in if p x then x ∷ rest else rest

  -- The first element that passes: `cursor.fetchone()` over a filtered table.
  unfoldable pub find : (A → Bool) → List A → Option A
  find p [] = none
  find p (x ∷ xs) = let rest = find p xs in if p x then some x else rest

  unfoldable pub any : (A → Bool) → List A → Bool
  any p [] = false
  any p (x ∷ xs) = p x || any p xs

  unfoldable pub all : (A → Bool) → List A → Bool
  all p [] = true
  all p (x ∷ xs) = p x && all p xs

module _ {A : Type 0} where
  -- `a` stands in the list.
  abbrev pub Occurs : A → List A → Type 0
  Occurs a [] = ⊥
  Occurs a (x ∷ xs) = (a ≡ x) ⊎ Occurs a xs

module _ {A : Type 0} where
  abbrev pub All : (A → Type 0) → List A → Type 0
  All P [] = Unit
  All P (x ∷ xs) = P x × All P xs

  pub All-of_Occurs : {P : A → Type 0} (xs : List A) → ((a : A) → Occurs a xs → P a) → All P xs
  All-of_Occurs [] h = tt
  All-of_Occurs (x ∷ xs) h = (h x (inl refl), All-of_Occurs xs (λ a o. h a (inr o)))

  pub All-filter : (P : A → Type 0) (p : A → Bool) (xs : List A) → All P xs → All P (filter p xs)
  unfolding filter
  All-filter P p [] h = tt
  All-filter P p (x ∷ xs) h = elim (Bool-cases (p x)) [
    | inl e ↦ rw e (h.0, All-filter P p xs h.1)
    | inr e ↦ rw e (All-filter P p xs h.1)
  ]

  pub All-append : (P : A → Type 0) (xs ys : List A) → All P xs → All P ys → All P (xs ++ ys)
  All-append P [] ys h k = k
  All-append P (x ∷ xs) ys h k = (h.0, All-append P xs ys h.1 k)

  pub All-take : (P : A → Type 0) (n : ℕ) (xs : List A) → All P xs → All P (take n xs)
  All-take P zero xs h = tt
  All-take P (suc n) [] h = tt
  All-take P (suc n) (x ∷ xs) h = (h.0, All-take P n xs h.1)

module _ {A : Type 0} where
  pub Occurs-filter :
      (p : A → Bool) (xs : List A) (a : A) → Occurs a (filter p xs) → Occurs a xs × (p a ≡ true)
  unfolding filter
  Occurs-filter p [] a o = absurd o
  Occurs-filter p (x ∷ xs) a o = ground (arith, Occurs-filter p xs a)

  pub filter-Occurs :
      (p : A → Bool) (xs : List A) (a : A) → Occurs a xs → p a ≡ true → Occurs a (filter p xs)
  unfolding filter
  filter-Occurs p [] a o h = absurd o
  filter-Occurs p (x ∷ xs) a o h = ground (arith, filter-Occurs p xs a)

  pub find-Occurs :
      (p : A → Bool) (xs : List A) (a : A) → find p xs ≡ some a → Occurs a xs × (p a ≡ true)
  unfolding find
  find-Occurs p [] a h = cc
  find-Occurs p (x ∷ xs) a h = ground (arith, find-Occurs p xs a)

  pub find-none :
      (p : A → Bool) (xs : List A) (a : A) → find p xs ≡ none → Occurs a xs → p a ≡ false
  unfolding find
  find-none p [] a h o = absurd o
  find-none p (x ∷ xs) a h o = ground (arith, find-none p xs a)

  pub find_of_none :
      (p : A → Bool) (xs : List A) → ((a : A) → Occurs a xs → p a ≡ false) → find p xs ≡ none
  unfolding find
  find_of_none p [] h = refl
  find_of_none p (x ∷ xs) h = rw (h x (inl refl)) (find_of_none p xs (λ a o. h a (inr o)))

  pub find-append-none :
      (p : A → Bool) (xs ys : List A) → find p xs ≡ none → find p (xs ++ ys) ≡ find p ys
  unfolding find
  find-append-none p [] ys h = refl
  find-append-none p (x ∷ xs) ys h = ground (arith, find-append-none p xs ys)

  pub find-append-some :
      (p : A → Bool) (xs ys : List A) (a : A) → find p xs ≡ some a → find p (xs ++ ys) ≡ some a
  unfolding find
  find-append-some p [] ys a h = cc
  find-append-some p (x ∷ xs) ys a h = ground (arith, find-append-some p xs ys a)

  pub Occurs-append : (xs ys : List A) (a : A) → Occurs a (xs ++ ys) → Occurs a xs ⊎ Occurs a ys
  Occurs-append [] ys a o = inr o
  Occurs-append (x ∷ xs) ys a o = ground (arith, Occurs-append xs ys a)

  pub append-Occurs_left : (xs ys : List A) (a : A) → Occurs a xs → Occurs a (xs ++ ys)
  append-Occurs_left [] ys a o = absurd o
  append-Occurs_left (x ∷ xs) ys a o = ground (arith, append-Occurs_left xs ys a)

  pub append-Occurs_right : (xs ys : List A) (a : A) → Occurs a ys → Occurs a (xs ++ ys)
  append-Occurs_right [] ys a o = o
  append-Occurs_right (x ∷ xs) ys a o = inr (append-Occurs_right xs ys a o)

  pub Occurs-take : (n : ℕ) (xs : List A) (a : A) → Occurs a (take n xs) → Occurs a xs
  Occurs-take zero xs a o = absurd o
  Occurs-take (suc n) [] a o = absurd o
  Occurs-take (suc n) (x ∷ xs) a o = ground (arith, Occurs-take n xs a)

  pub Occurs-drop : (n : ℕ) (xs : List A) (a : A) → Occurs a (drop n xs) → Occurs a xs
  Occurs-drop zero xs a o = o
  Occurs-drop (suc n) [] a o = o
  Occurs-drop (suc n) (x ∷ xs) a o = inr (Occurs-drop n xs a o)

  pub take-or-drop :
      (n : ℕ) (xs : List A) (a : A) → Occurs a xs → Occurs a (take n xs) ⊎ Occurs a (drop n xs)
  take-or-drop zero xs a o = inr o
  take-or-drop (suc n) [] a o = absurd o
  take-or-drop (suc n) (x ∷ xs) a o = ground (arith, take-or-drop n xs a)

  pub All-at : (P : A → Type 0) (xs : List A) (a : A) → All P xs → Occurs a xs → P a
  All-at P [] a h o = absurd o
  All-at P (x ∷ xs) a h (inl q) = rw q h.0
  All-at P (x ∷ xs) a h (inr o) = All-at P xs a h.1 o

  pub All-map :
      {B : Type 0} (P : B → Type 0) (f : A → B) (xs : List A)
      → All (λ a. P (f a)) xs
      → All P (map f xs)
  All-map P f [] h = tt
  All-map P f (x ∷ xs) h = (h.0, All-map P f xs h.1)

  pub All-map_imp :
      {B : Type 0} (Q : A → Type 0) (P : B → Type 0) (f : A → B) (xs : List A)
      → ((a : A) → Q a → P (f a))
      → All Q xs
      → All P (map f xs)
  All-map_imp Q P f [] step h = tt
  All-map_imp Q P f (x ∷ xs) step h = (step x h.0, All-map_imp Q P f xs step h.1)

  pub map-Occurs :
      {B : Type 0} (f : A → B) (xs : List A) (a : A) → Occurs a xs → Occurs (f a) (map f xs)
  map-Occurs f [] a o = absurd o
  map-Occurs f (x ∷ xs) a (inl e) = inl (ap f e)
  map-Occurs f (x ∷ xs) a (inr o) = inr (map-Occurs f xs a o)

  pub Occurs-map :
      {B : Type 0} (f : A → B) (xs : List A) (b : B)
      → Occurs b (map f xs)
      → (a : A) × Occurs a xs × (b ≡ f a)
  Occurs-map f [] b o = absurd o
  Occurs-map f (x ∷ xs) b (inl e) = (x, inl refl, e)
  Occurs-map f (x ∷ xs) b (inr o) = let (a, i, e) = Occurs-map f xs b o in (a, inr i, e)

  pub any-witness :
      (p : A → Bool) (xs : List A) → any p xs ≡ true → (a : A) × Occurs a xs × (p a ≡ true)
  unfolding any
  any-witness p [] h = cc
  any-witness p (x ∷ xs) h = elim (Bool-cases (p x)) [
    | inl e ↦ (x, inl refl, e)
    | inr e ↦ let (a, i, k) = any-witness p xs (rw e at h) in (a, inr i, k)
  ]

  pub any_of_none :
      (p : A → Bool) (xs : List A) → ((a : A) → Occurs a xs → p a ≡ false) → any p xs ≡ false
  unfolding any
  any_of_none p [] h = refl
  any_of_none p (x ∷ xs) h = rw (h x (inl refl)) (any_of_none p xs (λ a o. h a (inr o)))

  pub any-true : (p : A → Bool) (xs : List A) (a : A) → Occurs a xs → p a ≡ true → any p xs ≡ true
  unfolding any
  any-true p [] a o h = absurd o
  any-true p (x ∷ xs) a o h = ground (arith, any-true p xs a)

  pub any-false :
      (p : A → Bool) (xs : List A) (a : A) → any p xs ≡ false → Occurs a xs → p a ≡ false
  unfolding any
  any-false p [] a h o = absurd o
  any-false p (x ∷ xs) a h o = ground (arith, any-false p xs a)

  pub all-Occurs : (q : A → Bool) (xs : List A) (x : A) → all q xs ≡ true → Occurs x xs → q x ≡ true
  unfolding all
  all-Occurs q [] x h o = absurd o
  all-Occurs q (y ∷ ys) x h (inl e) = rw e (and-true_parts (q y) (all q ys) h).0
  all-Occurs q (y ∷ ys) x h (inr o) = all-Occurs q ys x (and-true_parts (q y) (all q ys) h).1 o
