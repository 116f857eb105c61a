-- ===== src/Prelude/Counts.antt =====
-- Lengths of lists, and how many elements a filter keeps.
use Prim.Native.Nat.{ℕ, zero, suc, ◌+◌, ◌-◌, ◌≤◌, min}
use mathlib.Core.Path.{◌≡◌, refl, ap}
use mathlib.Core.Logic.{inl, inr}
use mathlib.Core.Bool.{Bool, true, false}
use mathlib.Core.List.{List, [], ◌∷◌, ◌++◌, map}
use native.Mathlib.Omega.{arith}
use trilith.Prelude.Lists.{Occurs, filter, length, take, drop}

module _ {A : Type 0} where
  pub length-append : (xs ys : List A) → length (xs ++ ys) ≡ length xs + length ys
  length-append [] ys = omega arith
  length-append (x ∷ xs) ys = omega (arith, length-append xs ys)

  pub length-map : {B : Type 0} (f : A → B) (xs : List A) → length (map f xs) ≡ length xs
  length-map f [] = refl
  length-map f (x ∷ xs) = ap suc (length-map f xs)

  pub length-take : (n : ℕ) (xs : List A) → length (take n xs) ≡ min n (length xs)
  length-take zero xs = omega arith
  length-take (suc n) [] = omega arith
  length-take (suc n) (x ∷ xs) = omega (arith, length-take n xs)

  pub length-drop : (n : ℕ) (xs : List A) → length (drop n xs) ≡ length xs - n
  length-drop zero xs = omega arith
  length-drop (suc n) [] = omega arith
  length-drop (suc n) (x ∷ xs) = omega (arith, length-drop n xs)

  pub length-filter-le : (p : A → Bool) (xs : List A) → length (filter p xs) ≤ length xs
  unfolding filter
  length-filter-le p [] = omega arith
  length-filter-le p (x ∷ xs) = ground (arith, length-filter-le p xs)

  -- A filter drops something exactly where an element fails the test.
  pub length-filter-lt :
      (p : A → Bool) (xs : List A) (a : A)
      → Occurs a xs
      → p a ≡ false
      → suc (length (filter p xs)) ≤ length xs
  unfolding filter
  length-filter-lt p [] a o h = absurd o
  length-filter-lt p (x ∷ xs) a o h = ground (arith, length-filter-lt p xs a, length-filter-le p xs)

  -- A stronger test keeps fewer, and strictly fewer where it rejects an element that the weaker keeps.
  pub length-filter-imp :
      (p q : A → Bool) (xs : List A)
      → ((a : A) → p a ≡ true → q a ≡ true)
      → length (filter p xs) ≤ length (filter q xs)
  unfolding filter
  length-filter-imp p q [] h = omega arith
  length-filter-imp p q (x ∷ xs) h = ground (arith, length-filter-imp p q xs h, h x)

  pub length-filter-imp_lt :
      (p q : A → Bool) (xs : List A) (a : A)
      → ((a : A) → p a ≡ true → q a ≡ true)
      → Occurs a xs
      → p a ≡ false
      → q a ≡ true
      → suc (length (filter p xs)) ≤ length (filter q xs)
  unfolding filter
  length-filter-imp_lt p q [] a h o drops keeps = absurd o
  length-filter-imp_lt p q (x ∷ xs) a h (inl e) drops keeps =
      ground (arith, length-filter-imp p q xs h, h x, rw e at drops, rw e at keeps)
  length-filter-imp_lt p q (x ∷ xs) a h (inr o) drops keeps =
      ground (arith, length-filter-imp_lt p q xs a h o drops keeps, h x)
