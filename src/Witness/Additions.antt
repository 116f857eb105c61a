-- ===== src/Witness/Additions.antt =====
-- What `solve` of core/lineage.py considers: each proposal chooses an index that is not chosen yet.
use trilith.Prelude.{
  ℕ, zero, suc, ◌+◌, ◌≤◌, min, ◌≡◌, refl, sym, ap, ◌∙◌, Bool, false, List, [], ◌∷◌, Option, none,
  some, map, length, if-both, some_inj, if◌then◌else◌, Option-cases, All-filter, All, All-append,
  All-at, All-of_Occurs, All-map_imp, Occurs, Occurs-filter, inl, inr, ◌⊎◌, arith, String,
}
use trilith.Prelude.Sort.{All-sort_by}
use trilith.Floats.{Floats}
use trilith.Witness.{Key, Mask, minus, WitnessProblem}
use trilith.Witness.Completions.{
  Candidate, numbered, has, insert, no_choice, densest, denser, usable, cover, completed,
  candidates_for, completions_of, affordable, one_of, present, completions,
}
use trilith.Witness.Solver.{combinations, remaining, indices_before, additions}
use trilith.Witness.Choices.{
  IsAddition, All-concat_map, combinations-IsAddition, All-distinct_masks, All-one_to, adds-insert,
  length-insert, greatest-All,
}

Occurs-numbered :
    {A : Type 0} (xs : List A) (i : ℕ) (c : ℕ × A)
    → Occurs c (numbered i xs)
    → suc c.0 ≤ i + length xs
unfolding numbered
Occurs-numbered [] i c o = absurd o
Occurs-numbered (x ∷ xs) i c (inl e) = rw e (omega arith)
Occurs-numbered (x ∷ xs) i c (inr o) = omega (arith, Occurs-numbered xs (suc i) c o)

pub length-no_choice : {A : Type 0} (xs : List A) → length (no_choice xs) ≡ length xs
length-no_choice [] = refl
length-no_choice (x ∷ xs) = ap (λ n. suc n) (length-no_choice xs)

-- the index of evidence that is not chosen
record IsOpen (chosen : Mask) (c : Candidate) : Type 0 where
  in_range : suc c.0 ≤ length chosen
  not_chosen : has c.0 chosen ≡ false

insert-IsAddition :
    (chosen m : Mask) (c : Candidate)
    → IsOpen chosen c
    → length m ≡ length chosen
    → IsAddition chosen (insert c.0 m)
insert-IsAddition chosen m c o h = record {
  same_length = length-insert c.0 m ∙ h;
  adds_index = adds-insert chosen m c.0 o.in_range h o.not_chosen;
}

none-some : {A : Type 0} {a : A} → none ≡ some a → ⊥
none-some e = cc

module _ (fl : Floats) where
  pub densest-All :
      (P : Candidate → Type 0) (uncovered : List String) (cs : List Candidate) (b : Candidate)
      → All P cs
      → densest fl uncovered cs ≡ some b
      → P b
  unfolding densest
  densest-All P uncovered [] b h e = cc
  densest-All P uncovered (c ∷ cs) b h e =
      rw (some_inj (sym e)) (greatest-All P (denser fl uncovered) c cs h.0 h.1)

  -- What covers all that is missing adds an index: the start does, or something is missing.
  cover-IsAddition :
      (n : ℕ) (chosen : Mask) (candidates : List Candidate) (m : Mask) (uncovered : List String)
      (r : Mask)
      → All (IsOpen chosen) candidates
      → length m ≡ length chosen
      → IsAddition chosen m ⊎ ((f : String) × Occurs f uncovered)
      → cover fl n candidates m uncovered ≡ some r
      → IsAddition chosen r
  unfolding cover
  cover-IsAddition zero chosen candidates m [] r h k (inl a) e = rw (some_inj (sym e)) a
  cover-IsAddition (suc n) chosen candidates m [] r h k (inl a) e = rw (some_inj (sym e)) a
  cover-IsAddition zero chosen candidates m [] r h k (inr (f, o)) e = absurd o
  cover-IsAddition (suc n) chosen candidates m [] r h k (inr (f, o)) e = absurd o
  cover-IsAddition zero chosen candidates m (f ∷ fs) r h k start e = cc
  cover-IsAddition (suc n) chosen candidates m (f ∷ fs) r h k start e =
      let ready = usable fl m (f ∷ fs) candidates in
      elim (Option-cases (densest fl (f ∷ fs) ready)) [
        | inl q ↦ absurd (none-some (rw (cover, q) at e))
        | inr (b, q) ↦
            let next =
              insert-IsAddition chosen m b
                (densest-All (IsOpen chosen) (f ∷ fs) ready b
                  (All-filter (IsOpen chosen) _ candidates h) q)
                k in
            cover-IsAddition n chosen candidates (insert b.0 m) (minus (f ∷ fs) b.1.facts) r h
              next.same_length (inl next) (rw (cover, q) at e)
      ]

  module _ (p : WitnessProblem fl) (chosen : Mask) (whole : length chosen ≡ length p.evidence) where
    candidates_for-IsOpen :
        (revoked : List Key) (missing : List String)
        → All (IsOpen chosen) (candidates_for fl p chosen revoked missing)
    candidates_for-IsOpen revoked missing =
        All-of_Occurs (candidates_for fl p chosen revoked missing) (λ c o.
          let (i, t) = Occurs-filter _ (numbered 0 p.evidence) c o in
          record {
            in_range = omega (arith, Occurs-numbered p.evidence 0 c i, whole);
            not_chosen = ground (arith, t);
          })

    completed-IsAddition :
        (candidates : List Candidate) (f : String) (fs : List String) (seed : Option Candidate)
        (r : Mask)
        → All (IsOpen chosen) candidates
        → ((c : Candidate) → seed ≡ some c → Occurs c candidates)
        → completed fl p chosen candidates (f ∷ fs) seed ≡ some r
        → IsAddition chosen r
    unfolding completed
    completed-IsAddition candidates f fs none r h known e =
        cover-IsAddition (length (f ∷ fs)) chosen candidates (no_choice p.evidence) (f ∷ fs) r h
          (length-no_choice p.evidence ∙ sym whole) (inr (f, inl refl)) e
    completed-IsAddition candidates f fs (some c) r h known e =
        let begun =
          insert-IsAddition chosen (no_choice p.evidence) c
            (All-at (IsOpen chosen) candidates c h (known c refl))
            (length-no_choice p.evidence ∙ sym whole) in
        cover-IsAddition (length (f ∷ fs)) chosen candidates (insert c.0 (no_choice p.evidence))
          (minus (f ∷ fs) c.1.facts) r h begun.same_length (inl begun) e

    affordable-IsAddition :
        (o : Option Mask)
        → ((r : Mask) → o ≡ some r → IsAddition chosen r)
        → All (IsAddition chosen) (one_of (affordable fl p chosen o))
    affordable-IsAddition none h = tt
    affordable-IsAddition (some r) h =
        if-both (λ o. All (IsAddition chosen) (one_of o)) _ (some r) none (h r refl, tt) tt

    completions_of-IsAddition :
        (revoked : List Key) (missing : List String)
        → All (IsAddition chosen) (completions_of fl p chosen revoked missing)
    unfolding completions_of
    completions_of-IsAddition revoked [] = tt
    completions_of-IsAddition revoked (f ∷ fs) =
        let candidates = candidates_for fl p chosen revoked (f ∷ fs) in
        let all_open = candidates_for-IsOpen revoked (f ∷ fs) in
        All-concat_map (IsAddition chosen) _ (none ∷ map (λ c. some c) candidates) (
          good none all_open (λ c e. absurd (none-some e)),
          All-map_imp (λ c. Occurs c candidates) _ (λ c. some c) candidates
              (λ c o. good (some c) all_open (λ d e. rw (some_inj (sym e)) o))
              (All-of_Occurs candidates (λ c o. o)),
        )
      where
        good :
            (seed : Option Candidate)
            → All (IsOpen chosen) (candidates_for fl p chosen revoked (f ∷ fs))
            → ((c : Candidate)
                → seed ≡ some c
                → Occurs c (candidates_for fl p chosen revoked (f ∷ fs)))
            → All (IsAddition chosen) (
                one_of (
                  affordable fl p chosen (
                    completed fl p chosen
                      (candidates_for fl p chosen revoked (f ∷ fs))
                      (f ∷ fs)
                      seed)))
        good seed h known = affordable-IsAddition _ (λ r e.
            completed-IsAddition (candidates_for fl p chosen revoked (f ∷ fs)) f fs seed r h known
              e)

    completions-IsAddition : All (IsAddition chosen) (completions fl p chosen)
    unfolding completions
    completions-IsAddition = All-concat_map (IsAddition chosen) _ p.scenarios (
        All-of_Occurs p.scenarios (λ s _. All-concat_map (IsAddition chosen) _ p.requirements (
          All-of_Occurs p.requirements (λ r _. All-concat_map (IsAddition chosen) _ r.witnesses (
            All-of_Occurs r.witnesses (λ w _.
              completions_of-IsAddition s.revoked (minus w (present fl p chosen s.revoked))))))))

    pub additions-IsAddition :
        (complete : Bool) (max_bundle : ℕ)
        → All (IsAddition chosen) (additions fl p complete max_bundle chosen)
    unfolding additions
    additions-IsAddition complete max_bundle = All-sort_by indices_before (IsAddition chosen) _ (
        All-distinct_masks (IsAddition chosen) _ (
          All-append (IsAddition chosen) (if complete then completions fl p chosen else []) _
            (if-both (All (IsAddition chosen)) complete (completions fl p chosen) []
              completions-IsAddition tt)
            (All-concat_map (IsAddition chosen) (combinations chosen) _ (
              All-one_to (λ k. All (IsAddition chosen) (combinations chosen k))
                (min max_bundle (remaining chosen)) (combinations-IsAddition chosen)))))
