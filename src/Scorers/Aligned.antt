-- ===== src/Scorers/Aligned.antt =====
-- The contract of `Scorer` in core/governor.py, one score for each candidate, holds of every scorer.
use trilith.Prelude.{
  suc, String, ◌≡◌, refl, sym, ap, ◌∙◌, List, [], ◌∷◌, Option, none, some, map, length, length-map,
  if-both, arith,
}
use trilith.Exec.{ok, traverse, require-ok, length-traverse, ok_inj}
use trilith.Python.{Python}
use trilith.Floats.{Floats}
use trilith.Proto.{ContextItem}
use trilith.Ranking.{zip}
use trilith.Scorers.{zeros, tfidf_score, embedding_score}
use trilith.Scorers.Lexical.{bm25_score, hybrid_item, hybrid_scored, hybrid_score}

length-zip :
    {A B : Type 0} (xs : List A) (ys : List B)
    → length ys ≡ length xs
    → length (zip xs ys) ≡ length xs
unfolding zip
length-zip [] ys h = refl
length-zip (x ∷ xs) [] h = h
length-zip (x ∷ xs) (y ∷ ys) h = ap (λ n. suc n) (length-zip xs ys (omega (arith, h)))

module _ (fl : Floats) (py : Python) (candidates : List ContextItem) (task : String) where
  open fl use {F}

  -- One score for each candidate.
  abbrev pub IsAligned : List F → Type 0
  IsAligned scores = length scores ≡ length candidates

  pub tfidf_score-IsAligned : IsAligned (tfidf_score fl py candidates task)
  unfolding tfidf_score
  tfidf_score-IsAligned =
      if-both IsAligned _ (zeros fl py candidates) (map _ (map _ candidates))
        (length-map _ candidates) (length-map _ (map _ candidates) ∙ length-map _ candidates)

  pub bm25_score-IsAligned : IsAligned (bm25_score fl py candidates task)
  unfolding bm25_score
  bm25_score-IsAligned =
      if-both IsAligned _ (zeros fl py candidates) (map _ (map _ candidates))
        (length-map _ candidates) (length-map _ (map _ candidates) ∙ length-map _ candidates)

  pub embedding_score-IsAligned :
      (embedder : Option (String → List F))
      → IsAligned (embedding_score fl py embedder candidates task)
  unfolding embedding_score
  embedding_score-IsAligned none = length-map _ candidates
  embedding_score-IsAligned (some embedder) = length-map _ candidates

module _ (fl : Floats) (py : Python) (embedder : String → List (fl.F)) (weight : fl.F) where
  hybrid_scored-IsAligned :
      (candidates : List ContextItem) (task : String) (scores : List (fl.F))
      → hybrid_scored fl py embedder weight candidates task ≡ ok scores
      → IsAligned fl py candidates task scores
  unfolding hybrid_scored
  hybrid_scored-IsAligned [] task scores h = rw (sym (ok_inj h)) refl
  hybrid_scored-IsAligned (c ∷ cs) task scores h =
      let lexical = bm25_score fl py (c ∷ cs) task in
      let pairs = zip (c ∷ cs) lexical in
      let item = hybrid_item fl py weight (embedder task) in
      length-traverse item pairs scores (require-ok _ _ (traverse item pairs) scores h).1
      ∙ length-zip (c ∷ cs) lexical (bm25_score-IsAligned fl py (c ∷ cs) task)

  pub hybrid_score-IsAligned :
      (candidates : List ContextItem) (task : String) (scores : List (fl.F))
      → hybrid_score fl py embedder weight candidates task ≡ ok scores
      → IsAligned fl py candidates task scores
  unfolding hybrid_score
  hybrid_score-IsAligned candidates task scores h =
      hybrid_scored-IsAligned candidates task scores
        (require-ok _ _ (hybrid_scored fl py embedder weight candidates task) scores h).1
