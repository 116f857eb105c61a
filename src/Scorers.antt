-- ===== src/Scorers.antt =====
-- The scorers of core/governor.py and core/retrieval.py. A Counter is the list of its terms in order
-- of first occurrence, with their counts. A sum over the intersection of two sets, whose order Python
-- leaves open, goes in that order too.
pub mod Lexical
pub mod Aligned
use trilith.Prelude.{
  is_nil, ℕ, zero, suc, ◌+◌, ◌-◌, String, Bool, true, false, not, ◌&&◌, ◌||◌, List, [], ◌∷◌, ◌++◌,
  Option, none, some, map, filter, any, length, leb, if◌then◌else◌, ◌==◌, nat_eq, string_eq,
}
use trilith.Exec.{Result, ok, err, value_error, require, ◌>>=◌, ◌>>◌}
use trilith.Python.{Python}
use trilith.Floats.{Floats}
use trilith.Proto.{ContextItem}
use trilith.Database.Backend.{distinct}
use trilith.Ranking.{sum, products}
use trilith.Retrieval.{features}

-- `Counter(words)[word]`
abbrev pub count_in : List String → String → ℕ
count_in words word = length (filter (λ w. w == word) words)

-- the number of documents that hold a term
abbrev pub document_count : List (List String) → String → ℕ
document_count docs term = length (filter (λ d. any (λ w. w == term) d) docs)

module _ (fl : Floats) (py : Python) where
  open fl use {
    F, zero as nought, half, of_nat, of_bits, add, sub, mul, div, sqrt, ln, lt, le, eq, finite,
  }

  -- `[0.0] * n`
  abbrev pub zeros : {A : Type 0} → List A → List F
  zeros xs = map (λ _. nought) xs

  -- `re.findall(r"\w+", text.lower())`
  abbrev tokenize : String → List String
  tokenize content = py.find_words (py.lower content)

  -- `math.log((num_docs + 1) / (count + 1)) + 1.0`
  abbrev smooth_idf : List (List String) → String → F
  smooth_idf docs term =
      add (ln (div (of_nat (length docs + 1)) (of_nat (document_count docs term + 1)))) (of_nat 1)

  abbrev Vector : Type 0
  Vector = List (String × F)

  -- the weight of each term of a text
  abbrev vector : List (List String) → List String → Vector
  vector docs words =
      map (λ term. (term, mul (of_nat (count_in words term)) (smooth_idf docs term)))
        (distinct words)

  abbrev vector_norm : Vector → F
  vector_norm v = sqrt (sum fl (map (λ (t : String × F). mul t.1 t.1) v))

  -- `doc_vec.get(term, 0.0)`
  weight_in : Vector → String → F
  weight_in [] term = nought
  weight_in ((t, w) ∷ rest) term = let later = weight_in rest term in if t == term then w else later

  abbrev tfidf_cosine : Vector → Vector → F
  unfolding weight_in
  tfidf_cosine task doc =
      if eq (vector_norm task) nought || eq (vector_norm doc) nought
      then nought
      else div (sum fl (map (λ (t : String × F). mul t.1 (weight_in doc t.0)) task))
          (mul (vector_norm task) (vector_norm doc))

  abbrev tokens_of : List ContextItem → List (List String)
  tokens_of candidates = map (λ (c : ContextItem). tokenize c.content) candidates

  -- `TFIDFScorer.score`
  unfoldable pub tfidf_score : List ContextItem → String → List F
  unfolding tfidf_cosine
  tfidf_score candidates task =
      let words = tokenize task in
      let docs = tokens_of candidates in
      if is_nil words
      then zeros candidates
      else map (λ d. tfidf_cosine (vector docs words) (vector docs d)) docs

  abbrev holds_term : Vector → String → Bool
  holds_term v term = any (λ (t : String × F). t.0 == term) v

  -- the similarity of two documents, over the terms that both hold
  abbrev similarity : Vector → Vector → F
  unfolding weight_in
  similarity a b =
      if eq (vector_norm a) nought || eq (vector_norm b) nought
      then nought
      else div
          (sum fl (
            map (λ (t : String × F). mul t.1 (weight_in b t.0)) (filter (λ t. holds_term b t.0) a)))
          (mul (vector_norm a) (vector_norm b))

  -- the cell of two indices, which is computed from the lower one to the higher one
  abbrev cell : ℕ × Vector → ℕ × Vector → F
  unfolding similarity
  cell i j =
      if i.0 == j.0
      then of_nat 1
      else if leb i.0 j.0
      then similarity i.1 j.1
      else similarity j.1 i.1

  indexed : ℕ → List Vector → List (ℕ × Vector)
  indexed i [] = []
  indexed i (v ∷ vs) = (i, v) ∷ indexed (suc i) vs

  -- `TFIDFScorer.compute_pairwise_similarities`
  unfoldable pub pairwise_similarities : List ContextItem → List (List F)
  unfolding cell indexed
  pairwise_similarities candidates =
      let docs = tokens_of candidates in
      let vectors = indexed 0 (map (vector docs) docs) in map (λ i. map (cell i) vectors) vectors

  abbrev pub norm_of : List F → F
  norm_of xs = sqrt (sum fl (products fl xs xs))

  abbrev pub stored_vector : ContextItem → List F
  stored_vector item = map of_bits item.embedding

  abbrev embedding_cosine : List F → List F → F
  embedding_cosine query [] = nought
  embedding_cosine query (x ∷ xs) =
      if eq (norm_of query) nought || eq (norm_of (x ∷ xs)) nought
      then nought
      else div (sum fl (products fl query (x ∷ xs))) (mul (norm_of query) (norm_of (x ∷ xs)))

  -- `EmbeddingScorer.score`, with or without an embedder
  unfoldable pub embedding_score : Option (String → List F) → List ContextItem → String → List F
  embedding_score none candidates task = zeros candidates
  embedding_score (some embedder) candidates task =
      map (λ c. embedding_cosine (embedder task) (stored_vector c)) candidates
