-- ===== src/Ranking.antt =====
-- Ranking of candidates in core/governor.py, over a scorer as a parameter, and its token estimates.
use Prim.Native.String.{len}
use trilith.Prelude.{
  ℕ, zero, suc, ◌-◌, max, String, Bool, not, ◌&&◌, ◌||◌, List, [], ◌∷◌, Option, none, some, map,
  length, leb, ltb, if◌then◌else◌, ◌==◌, nat_eq, string_eq, is_empty,
}
use trilith.Prelude.Sort.{sort_by}
use trilith.Exec.{Result, ok, err, value_error}
use trilith.Floats.{Floats}
use trilith.Proto.{ContextItem}

-- `zip(xs, ys)`
unfoldable pub zip : {A B : Type 0} → List A → List B → List (A × B)
zip [] ys = []
zip (x ∷ xs) [] = []
zip (x ∷ xs) (y ∷ ys) = (x, y) ∷ zip xs ys

module _ (fl : Floats) where
  open fl use {
    F, zero as nought, of_nat, of_bits, add, sub, mul, div, sqrt, lt, le, finite, neg_inf, rounded,
    shown,
  }

  -- A scorer: one score per candidate. A TF-IDF scorer has pairwise similarities too.
  pub record Scorer : Type 0 where
    pub score : List ContextItem → String → List F
    pub pairwise : Option (List ContextItem → List (List F))

  pub record Governor : Type 0 where
    pub scorer : Scorer
    pub token_counter : Option (String → ℕ)
    -- `selection == "coverage"`
    pub coverage : Bool
    pub distraction_coef : F
    pub max_candidates : ℕ
    pub max_pairwise : ℕ
    pub min_score : F

  -- `sum(xs)`
  unfoldable pub sum_from : F → List F → F
  sum_from acc [] = acc
  sum_from acc (x ∷ xs) = sum_from (add acc x) xs

  unfoldable pub sum : List F → F
  unfolding sum_from
  sum xs = sum_from nought xs

  abbrev pub products : List F → List F → List F
  products xs ys = map (λ (p : F × F). mul p.0 p.1) (zip xs ys)

  abbrev floats : ContextItem → List F
  floats item = map of_bits item.embedding

  abbrev norm : ContextItem → F
  unfolding sum_from
  norm item = sqrt (sum (products (floats item) (floats item)))

  -- the cosine of two embeddings, 0 where one is missing or null
  abbrev cosine : ContextItem → ContextItem → F
  unfolding sum_from
  cosine a b =
      if not (length a.embedding == 0 || length b.embedding == 0)
        && (lt nought (norm a) && lt nought (norm b))
      then div (sum (products (floats a) (floats b))) (mul (norm a) (norm b))
      else nought

  -- the list without the element at an index
  without : {A : Type 0} → ℕ → List A → List A
  without i [] = []
  without zero (x ∷ xs) = xs
  without (suc i) (x ∷ xs) = x ∷ without i xs

  -- the mean of each row, its own column left out; the rows from index `k` on
  row_means : ℕ → ℕ → List (List F) → List F
  unfolding without sum_from
  row_means n k [] = []
  row_means n k (row ∷ rows) = div (sum (without k row)) (of_nat (n - 1)) ∷ row_means n (suc k) rows

  abbrev similarity_rows :
      Option (List ContextItem → List (List F)) → List ContextItem → List (List F)
  unfolding sum_from
  similarity_rows (some pairwise) candidates = pairwise candidates
  similarity_rows none candidates = map (λ a. map (λ b. cosine a b) candidates) candidates

  corpus_similarities : Governor → List ContextItem → List F
  unfolding row_means sum_from
  corpus_similarities g candidates =
      let n = length candidates in
      if ltb g.max_pairwise n || not (ltb 1 n)
      then map (λ _. nought) candidates
      else row_means n 0 (similarity_rows g.scorer.pairwise candidates)

  -- `c_task - coef * max(0.0, c_corp - c_task)`
  abbrev final_score : Governor → F → F → F
  final_score g task corpus =
      let distraction = if lt nought (sub corpus task) then sub corpus task else nought in
      sub task (mul g.distraction_coef distraction)

  abbrev pub scored_higher : ContextItem × F → ContextItem × F → Bool
  scored_higher a b = lt b.1 a.1

  unfoldable pub rank : Governor → List ContextItem → String → List (ContextItem × F)
  unfolding corpus_similarities
  rank g candidates task = sort_by scored_higher (
      zip candidates (
        map (λ (p : F × F). final_score g p.0 p.1)
          (zip (g.scorer.score candidates task) (corpus_similarities g candidates))))

  abbrev counted : ContextItem → Option (String → ℕ) → Result ℕ
  counted item none = ok (max 1 (len item.content))
  counted item (some count) =
      if leb 1 (count item.content)
      then ok (count item.content)
      else err (value_error "token counter must return a positive integer")

  -- The native length of a text is the number of bytes of its UTF-8.
  unfoldable pub estimate_tokens : Governor → ContextItem → Result ℕ
  estimate_tokens g item = if is_empty item.content then ok 0 else counted item g.token_counter
