-- ===== src/Scorers/Lexical.antt =====
-- BM25Scorer and HybridScorer of core/retrieval.py.
use trilith.Prelude.{
  is_nil, ℕ, ◌+◌, ◌-◌, String, not, ◌&&◌, ◌||◌, List, [], ◌∷◌, map, filter, any, length,
  if◌then◌else◌, ◌==◌, nat_eq, string_eq,
}
use trilith.Exec.{Result, ok, err, value_error, require, ◌>>◌, traverse}
use trilith.Python.{Python}
use trilith.Floats.{Floats}
use trilith.Proto.{ContextItem}
use trilith.Database.Backend.{distinct}
use trilith.Ranking.{zip, sum, products}
use trilith.Retrieval.{features}
use trilith.Scorers.{count_in, document_count, zeros, norm_of, stored_vector}

module _ (fl : Floats) (py : Python) where
  open fl use {F, zero as nought, half, of_nat, add, sub, mul, div, ln, lt, le, eq, finite}

  abbrev tenths : ℕ → F
  tenths n = div (of_nat n) (of_nat 10)

  -- `sum(lengths) / len(docs) or 1`
  abbrev average_length : List (List String) → F
  average_length docs =
      let avg = div (of_nat (total docs)) (of_nat (length docs)) in
      if eq avg nought then of_nat 1 else avg
    where
      total : List (List String) → ℕ
      total [] = 0
      total (d ∷ ds) = length d + total ds

  -- `math.log(1 + (len(docs) - df[term] + 0.5) / (df[term] + 0.5))`
  abbrev bm25_idf : List (List String) → String → F
  bm25_idf docs term =
      let df = document_count docs term in
      ln (add (of_nat 1) (div (add (of_nat (length docs - df)) half) (add (of_nat df) half)))

  -- `idf * tf * 2.2 / (tf + 1.2 * (0.25 + 0.75 * length / avg))`
  abbrev term_score : List (List String) → List String → String → F
  term_score docs doc term =
      let tf = of_nat (count_in doc term) in
      div (mul (mul (bm25_idf docs term) tf) (tenths 22)) (
        add tf (
          mul (tenths 12) (
            add (div (of_nat 1) (of_nat 4))
              (div (mul (div (of_nat 3) (of_nat 4)) (of_nat (length doc))) (average_length docs)))))

  abbrev document_score : List (List String) → List String → List String → F
  document_score docs query doc =
      let score =
        sum fl (map (term_score docs doc) (filter (λ t. any (λ q. q == t) query) (distinct doc))) in
      div score (add (of_nat 1) score)

  -- `BM25Scorer.score`
  unfoldable pub bm25_score : List ContextItem → String → List F
  bm25_score candidates task =
      let docs = map (λ (c : ContextItem). features py c.content) candidates in
      if is_nil (features py task)
      then zeros fl py candidates
      else map (document_score docs (features py task)) docs

  -- `max(0, min(1, x))`
  abbrev clamped : F → F
  clamped x =
      let capped = if lt x (of_nat 1) then x else of_nat 1 in
      if lt nought capped then capped else nought

  abbrev hybrid_cosine : List F → List F → F
  hybrid_cosine query vector =
      let scale = mul (norm_of fl py query) (norm_of fl py vector) in
      if eq scale nought then nought else div (sum fl (products fl query vector)) scale

  -- `self.lexical_weight * score + (1 - self.lexical_weight) * max(0, min(1, cosine))`
  abbrev mixed : F → F → F → F
  mixed weight score cosine = add (mul weight score) (mul (sub (of_nat 1) weight) (clamped cosine))

  -- the body of the loop; an item without an embedding keeps its lexical score
  unfoldable pub hybrid_item : F → List F → ContextItem × F → Result F
  hybrid_item weight query (item, score) =
      let vector = stored_vector fl py item in
      if is_nil item.embedding
      then ok score
      else if not (length vector == length query) || any (λ x. not (finite x)) vector
      then err (value_error "Stored embedding dimension/model mismatch or nonfinite value")
      else ok (mixed weight score (hybrid_cosine query vector))

  -- `score` of a `HybridScorer(embedder, lexical_weight)`
  unfoldable pub hybrid_scored : (String → List F) → F → List ContextItem → String → Result (List F)
  hybrid_scored embedder weight [] task = ok []
  hybrid_scored embedder weight (c ∷ cs) task = do
    require (not (is_nil (embedder task)) && not (any (λ x. not (finite x)) (embedder task)))
        (value_error "Query embedding must be nonempty and finite")
    traverse (hybrid_item weight (embedder task)) (zip (c ∷ cs) (bm25_score (c ∷ cs) task))

  -- its guard, in the constructor, and `score`
  unfoldable pub hybrid_score : (String → List F) → F → List ContextItem → String → Result (List F)
  hybrid_score embedder weight candidates task = do
    require (le nought weight && le weight (of_nat 1))
        (value_error "lexical_weight must be in [0, 1]")
    hybrid_scored embedder weight candidates task
