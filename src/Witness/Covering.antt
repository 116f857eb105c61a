-- ===== src/Witness/Covering.antt =====
-- The loop `while uncovered` of `WitnessProblem.completions` in core/lineage.py ends within as many
-- rounds as there are facts to cover.
use trilith.Prelude.{
  ℕ, zero, suc, ◌≤◌, ◌≡◌, refl, ap, String, true, not, List, [], ◌∷◌, some, length, All-of_Occurs,
  Occurs-filter, any-witness, any-true, length-filter-lt, Option-cases, arith, inl, inr, eq_self,
  eq_of_beq, ◌==◌, string_eq, and-true_parts,
}
use trilith.Floats.{Floats}
use trilith.Witness.{Mask, holds, meets, minus}
use trilith.Witness.Completions.{Candidate, has, insert, densest, usable, cover}
use trilith.Witness.Additions.{densest-All}

-- What shares a fact with a set leaves less of it.
minus-meets :
    (uncovered facts : List String)
    → meets facts uncovered ≡ true
    → suc (length (minus uncovered facts)) ≤ length uncovered
minus-meets uncovered facts h =
    let (f, o, k) = any-witness (holds uncovered) facts h in
    let (g, i, e) = any-witness (λ g. g == f) uncovered k in
    length-filter-lt (λ f. not (holds facts f)) uncovered g i
      (ap not (any-true (λ j. j == g) facts f o (rw (eq_of_beq g f e) (eq_self f))))

module _ (fl : Floats) where
  densest-meets :
      (m : Mask) (uncovered : List String) (candidates : List Candidate) (b : Candidate)
      → densest fl uncovered (usable fl m uncovered candidates) ≡ some b
      → meets b.1.facts uncovered ≡ true
  densest-meets m uncovered candidates b e =
      densest-All fl (λ c. meets c.1.facts uncovered ≡ true) uncovered
        (usable fl m uncovered candidates) b
        (All-of_Occurs (usable fl m uncovered candidates) (λ c o.
          (and-true_parts (not (has c.0 m)) (meets c.1.facts uncovered)
            (Occurs-filter _ candidates c o).1).1))
        e

  -- More rounds than facts change nothing.
  pub cover-enough :
      (n : ℕ) (candidates : List Candidate) (m : Mask) (uncovered : List String)
      → length uncovered ≤ n
      → cover fl (suc n) candidates m uncovered ≡ cover fl n candidates m uncovered
  unfolding cover
  cover-enough zero candidates m [] h = refl
  cover-enough zero candidates m (f ∷ fs) h = absurd (omega (arith, h))
  cover-enough (suc n) candidates m [] h = refl
  cover-enough (suc n) candidates m (f ∷ fs) h =
      elim (Option-cases (densest fl (f ∷ fs) (usable fl m (f ∷ fs) candidates))) [
        | inl q ↦ rw (cover, q) refl
        | inr (b, q) ↦
            let fewer = minus-meets (f ∷ fs) b.1.facts (densest-meets m (f ∷ fs) candidates b q) in
            rw (cover, q)
              (cover-enough n candidates (insert b.0 m) (minus (f ∷ fs) b.1.facts)
                (omega (arith, h, fewer)))
      ]
