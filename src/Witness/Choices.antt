-- ===== src/Witness/Choices.antt =====
-- Masks of core/lineage.py as sets of indices: the cost of a union, and additions that choose an
-- index more.
use trilith.Prelude.{
  ℕ, zero, suc, ◌≤◌, ◌≡◌, refl, ap, Bool, true, false, not, ◌&&◌, ◌||◌, List, [], ◌∷◌, map, filter,
  length, if◌then◌else◌, if-both, All, All-append, All-map_imp, All-of_Occurs, All-at, Occurs,
  Occurs-filter, or-true, arith, inl, inr,
}
use trilith.Witness.{Evidence, Mask, choose, total_cost, union}
use trilith.Witness.Completions.{has, insert, concat_map, greatest}
use trilith.Witness.Solver.{combinations, one_to, distinct_masks, remaining}

-- More evidence costs no less.
pub cost-union :
    (es : List Evidence) (a b : Mask)
    → total_cost (choose es b) ≤ total_cost (choose es (union a b))
unfolding choose total_cost union
cost-union [] a b = omega arith
cost-union (e ∷ es) a [] = omega arith
cost-union (e ∷ es) [] (y ∷ b) = omega arith
cost-union (e ∷ es) (true ∷ a) (true ∷ b) = omega (arith, cost-union es a b)
cost-union (e ∷ es) (true ∷ a) (false ∷ b) = omega (arith, cost-union es a b)
cost-union (e ∷ es) (false ∷ a) (true ∷ b) = omega (arith, cost-union es a b)
cost-union (e ∷ es) (false ∷ a) (false ∷ b) = omega (arith, cost-union es a b)

pub cost-nothing :
    {A : Type 0} (xs : List A) (es : List Evidence)
    → total_cost (choose es (map (λ _. false) xs)) ≡ 0
unfolding choose total_cost
cost-nothing [] [] = refl
cost-nothing [] (e ∷ es) = refl
cost-nothing (x ∷ xs) [] = refl
cost-nothing (x ∷ xs) (e ∷ es) = cost-nothing xs es

-- The second mask has an index that the first has not.
abbrev pub adds : Mask → Mask → Bool
adds [] m = false
adds (c ∷ chosen) [] = false
adds (c ∷ chosen) (b ∷ m) = (not c && b) || adds chosen m

pub record IsAddition (chosen m : Mask) : Type 0 where
  pub same_length : length m ≡ length chosen
  pub adds_index : adds chosen m ≡ true

pub length-union : (a b : Mask) → length b ≡ length a → length (union a b) ≡ length a
unfolding union
length-union [] [] h = refl
length-union [] (_ ∷ _) h = omega (arith, h)
length-union (x ∷ a) [] h = refl
length-union (x ∷ a) (y ∷ b) h = omega (arith, h, length-union a b)

remaining-union_le : (a b : Mask) → length b ≡ length a → remaining (union a b) ≤ remaining a
unfolding union filter
remaining-union_le [] [] h = omega arith
remaining-union_le [] (_ ∷ _) h = absurd (omega (arith, h))
remaining-union_le (x ∷ a) [] h = omega arith
remaining-union_le (x ∷ a) (y ∷ b) h = ground (arith, h, remaining-union_le a b)

-- A union with an addition leaves fewer indices.
pub remaining-union :
    (a b : Mask) → length b ≡ length a → adds a b ≡ true → suc (remaining (union a b)) ≤ remaining a
unfolding union filter
remaining-union [] [] h k = cc
remaining-union [] (_ ∷ _) h k = cc
remaining-union (x ∷ a) [] h k = cc
remaining-union (x ∷ a) (y ∷ b) h k =
    ground (arith, h, k, remaining-union a b, remaining-union_le a b)

pub remaining-le : (a : Mask) → remaining a ≤ length a
unfolding filter
remaining-le [] = omega arith
remaining-le (true ∷ a) = omega (arith, remaining-le a)
remaining-le (false ∷ a) = omega (arith, remaining-le a)

pub All-concat_map :
    {A B : Type 0} (P : B → Type 0) (f : A → List B) (xs : List A)
    → All (λ x. All P (f x)) xs
    → All P (concat_map f xs)
unfolding concat_map
All-concat_map P f [] h = tt
All-concat_map P f (x ∷ xs) h = All-append P (f x) (concat_map f xs) h.0 (All-concat_map P f xs h.1)

pub greatest-All :
    {A : Type 0} (P : A → Type 0) (gt : A → A → Bool) (best : A) (xs : List A)
    → P best
    → All P xs
    → P (greatest gt best xs)
unfolding greatest
greatest-All P gt best [] h k = h
greatest-All P gt best (x ∷ xs) h k =
    greatest-All P gt (if gt x best then x else best) xs (if-both P (gt x best) x best k.0 h) k.1

abbrev pub HasLength : ℕ → Mask → Type 0
HasLength n m = length m ≡ n

longer :
    (b : Bool) (c : Mask) (ms : List Mask)
    → All (HasLength (length c)) ms
    → All (HasLength (suc (length c))) (map (λ m. b ∷ m) ms)
longer b c ms =
    All-map_imp (HasLength (length c)) (HasLength (suc (length c))) (λ m. b ∷ m) ms
      (λ m h. ap (λ n. suc n) h)

later : (x b : Bool) (c m : Mask) → IsAddition c m → IsAddition (x ∷ c) (b ∷ m)
later x b c m h = record {
  same_length = ap (λ n. suc n) h.same_length;
  adds_index = rw h.adds_index (or-true (not x && b));
}

pub combinations-length : (c : Mask) (k : ℕ) → All (HasLength (length c)) (combinations c k)
unfolding combinations
combinations-length [] zero = (refl, tt)
combinations-length [] (suc k) = tt
combinations-length (true ∷ c) k = longer false c (combinations c k) (combinations-length c k)
combinations-length (false ∷ c) zero =
    longer false c (combinations c zero) (combinations-length c zero)
combinations-length (false ∷ c) (suc k) =
    All-append (HasLength (suc (length c))) (map (λ m. true ∷ m) (combinations c k)) _
      (longer true c (combinations c k) (combinations-length c k))
      (longer false c (combinations c (suc k)) (combinations-length c (suc k)))

-- A combination of at least one index that is left is an addition.
pub combinations-IsAddition : (c : Mask) (k : ℕ) → All (IsAddition c) (combinations c (suc k))
unfolding combinations
combinations-IsAddition [] k = tt
combinations-IsAddition (true ∷ c) k =
    All-map_imp (IsAddition c) (IsAddition (true ∷ c)) (λ m. false ∷ m) (combinations c (suc k))
      (later true false c) (combinations-IsAddition c k)
combinations-IsAddition (false ∷ c) k =
    All-append (IsAddition (false ∷ c)) (map (λ m. true ∷ m) (combinations c k)) _
      (All-map_imp (HasLength (length c)) (IsAddition (false ∷ c)) (λ m. true ∷ m)
        (combinations c k) (λ m h. record { same_length = ap (λ n. suc n) h; adds_index = refl })
        (combinations-length c k))
      (All-map_imp (IsAddition c) (IsAddition (false ∷ c)) (λ m. false ∷ m) (combinations c (suc k))
        (later false false c) (combinations-IsAddition c k))

Occurs-distinct_masks : (ms : List Mask) (m : Mask) → Occurs m (distinct_masks ms) → Occurs m ms
unfolding distinct_masks
Occurs-distinct_masks [] m o = absurd o
Occurs-distinct_masks (n ∷ ms) m (inl e) = inl e
Occurs-distinct_masks (n ∷ ms) m (inr o) =
    inr (Occurs-distinct_masks ms m (Occurs-filter _ (distinct_masks ms) m o).0)

pub All-distinct_masks : (P : Mask → Type 0) (ms : List Mask) → All P ms → All P (distinct_masks ms)
All-distinct_masks P ms h =
    All-of_Occurs (distinct_masks ms) (λ m o. All-at P ms m h (Occurs-distinct_masks ms m o))

-- The sizes start with 1.
pub All-one_to : (P : ℕ → Type 0) (n : ℕ) → ((k : ℕ) → P (suc k)) → All P (one_to n)
unfolding one_to
All-one_to P zero h = tt
All-one_to P (suc n) h = All-append P (one_to n) (suc n ∷ []) (All-one_to P n h) (h n, tt)

-- An index that is not chosen, once inserted, is an addition.
pub adds-insert :
    (c m : Mask) (i : ℕ)
    → suc i ≤ length c
    → length m ≡ length c
    → has i c ≡ false
    → adds c (insert i m) ≡ true
unfolding has insert
adds-insert [] m i h k q = absurd (omega (arith, h))
adds-insert (x ∷ c) [] i h k q = absurd (omega (arith, k))
adds-insert (x ∷ c) (b ∷ m) zero h k q = rw q refl
adds-insert (x ∷ c) (b ∷ m) (suc i) h k q = ground (arith, h, k, q, adds-insert c m i)

pub length-insert : (i : ℕ) (m : Mask) → length (insert i m) ≡ length m
unfolding insert
length-insert i [] = refl
length-insert zero (b ∷ m) = refl
length-insert (suc i) (b ∷ m) = ap (λ n. suc n) (length-insert i m)
