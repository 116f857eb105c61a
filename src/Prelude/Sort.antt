-- ===== src/Prelude/Sort.antt =====
-- Python's stable `sorted` and `list.sort`, as insertion by the test that the key order gives.
use trilith.Prelude.Tests.{if◌then◌else◌, Bool-cases}
use trilith.Prelude.Lists.{length, Occurs, All, All-at, take, drop, Occurs-drop}
use Prim.Native.Nat.{ℕ, zero, suc}
use mathlib.Core.Path.{◌≡◌, refl, sym, ◌∙◌}
use mathlib.Core.Logic.{◌⊎◌, inl, inr}
use mathlib.Core.Bool.{Bool, true, false, false≢true}
use mathlib.Core.List.{List, [], ◌∷◌}
use native.Mathlib.Omega.{arith}

-- `before a b`: a key of `a` is strictly ahead of that of `b`. Equal keys keep their order.
module _ {A : Type 0} (before : A → A → Bool) where
  unfoldable pub insert_by : A → List A → List A
  insert_by x [] = x ∷ []
  insert_by x (y ∷ ys) = if before y x then y ∷ insert_by x ys else x ∷ y ∷ ys

  unfoldable pub sort_by : List A → List A
  unfolding insert_by
  sort_by [] = []
  sort_by (x ∷ xs) = insert_by x (sort_by xs)

  pub Occurs-insert_by :
      (x : A) (ys : List A) (a : A) → Occurs a (insert_by x ys) → (a ≡ x) ⊎ Occurs a ys
  unfolding insert_by
  Occurs-insert_by x [] a o = o
  Occurs-insert_by x (y ∷ ys) a o = ground (arith, Occurs-insert_by x ys a)

  pub insert_by-Occurs :
      (x : A) (ys : List A) (a : A) → (a ≡ x) ⊎ Occurs a ys → Occurs a (insert_by x ys)
  unfolding insert_by
  insert_by-Occurs x [] a o = o
  insert_by-Occurs x (y ∷ ys) a o = ground (arith, insert_by-Occurs x ys a)

  pub Occurs-sort_by : (xs : List A) (a : A) → Occurs a (sort_by xs) → Occurs a xs
  unfolding sort_by
  Occurs-sort_by [] a o = o
  Occurs-sort_by (x ∷ xs) a o =
      ground (arith, Occurs-insert_by x (sort_by xs) a, Occurs-sort_by xs a)

  pub sort_by-Occurs : (xs : List A) (a : A) → Occurs a xs → Occurs a (sort_by xs)
  unfolding sort_by
  sort_by-Occurs [] a o = o
  sort_by-Occurs (x ∷ xs) a o =
      ground (arith, insert_by-Occurs x (sort_by xs) a, sort_by-Occurs xs a)

  pub length-insert_by : (x : A) (ys : List A) → length (insert_by x ys) ≡ suc (length ys)
  unfolding insert_by
  length-insert_by x [] = refl
  length-insert_by x (y ∷ ys) = ground (arith, length-insert_by x ys)

  pub length-sort_by : (xs : List A) → length (sort_by xs) ≡ length xs
  unfolding sort_by
  length-sort_by [] = refl
  length-sort_by (x ∷ xs) = ground (arith, length-insert_by x (sort_by xs), length-sort_by xs)

  pub All-insert_by :
      (P : A → Type 0) (x : A) (ys : List A) → P x → All P ys → All P (insert_by x ys)
  unfolding insert_by
  All-insert_by P x [] p h = (p, tt)
  All-insert_by P x (y ∷ ys) p h = elim (Bool-cases (before y x)) [
    | inl e ↦ rw e (h.0, All-insert_by P x ys p h.1)
    | inr e ↦ rw e (p, (h.0, h.1))
  ]

  pub All-sort_by : (P : A → Type 0) (xs : List A) → All P xs → All P (sort_by xs)
  unfolding sort_by
  All-sort_by P [] h = tt
  All-sort_by P (x ∷ xs) h = All-insert_by P x (sort_by xs) h.0 (All-sort_by P xs h.1)

  -- No element stands behind one that it should stand ahead of.
  abbrev pub IsSorted : List A → Type 0
  IsSorted [] = Unit
  IsSorted (x ∷ xs) = All (λ y. before y x ≡ false) xs × IsSorted xs

  -- `before` is a strict weak order: the documented precondition of a sort by keys.
  pub record IsOrder : Type 0 where
    pub asym : (a b : A) → before a b ≡ true → before b a ≡ false
    pub cotrans : (a b c : A) → before a c ≡ true → before b c ≡ false → before a b ≡ true

  module _ (o : IsOrder) where
    pub not_ahead : (x y z : A) → before y x ≡ false → before z y ≡ false → before z x ≡ false
    not_ahead x y z e h = elim (Bool-cases (before z x)) [
      | inl ahead ↦ absurd (false≢true (sym h ∙ o.cotrans z y x ahead e))
      | inr behind ↦ behind
    ]

    behind :
        (x y : A) (zs : List A)
        → before y x ≡ false
        → All (λ z. before z y ≡ false) zs
        → All (λ z. before z x ≡ false) zs
    behind x y [] e h = tt
    behind x y (z ∷ zs) e h = (not_ahead x y z e h.0, behind x y zs e h.1)

    insert_by-IsSorted : (x : A) (ys : List A) → IsSorted ys → IsSorted (insert_by x ys)
    unfolding insert_by
    insert_by-IsSorted x [] h = (tt, tt)
    insert_by-IsSorted x (y ∷ ys) h = elim (Bool-cases (before y x)) [
      | inl e ↦ rw e (
        All-insert_by (λ z. before z y ≡ false) x ys (o.asym y x e) h.0,
        insert_by-IsSorted x ys h.1,
      )
      | inr e ↦ rw e ((e, behind x y ys e h.0), h)
    ]

    pub sort_by-IsSorted : (xs : List A) → IsSorted (sort_by xs)
    unfolding sort_by
    sort_by-IsSorted [] = tt
    sort_by-IsSorted (x ∷ xs) = insert_by-IsSorted x (sort_by xs) (sort_by-IsSorted xs)

  -- What a sorted list keeps of a prefix is behind nothing that it drops.
  pub take-before-drop :
      (n : ℕ) (xs : List A) (a b : A)
      → IsSorted xs
      → Occurs a (take n xs)
      → Occurs b (drop n xs)
      → before b a ≡ false
  take-before-drop zero xs a b s o k = absurd o
  take-before-drop (suc n) [] a b s o k = absurd o
  take-before-drop (suc n) (x ∷ xs) a b s (inl e) k =
      rw e (All-at (λ y. before y x ≡ false) xs b s.0 (Occurs-drop n xs b k))
  take-before-drop (suc n) (x ∷ xs) a b s (inr o) k = take-before-drop n xs a b s.1 o k
