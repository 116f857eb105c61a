-- ===== src/Examples/Scoring.antt =====
-- Runs of the scorers and of the settings, with natural numbers for floats.
use trilith.Prelude.{strip}
use trilith.Prelude.{ascii_lower}
use trilith.Prelude.{any}
use trilith.Scorers.Lexical.{hybrid_scored}
use trilith.Prelude.{◌≡◌, refl, none, some, [], ◌∷◌}
use trilith.Exec.{ok, err, value_error}
use trilith.Python.{Python, plain_python}
use trilith.Floats.{naturals}
use trilith.Scorers.{embedding_score}
use trilith.Scorers.Lexical.{hybrid_score}
use trilith.Runtime.Settings.{parse_min_score, resolve_min_score, resolve_db_path}
use trilith.Examples.Data.{note}

abbrev py : Python
py = plain_python

-- without an embedder, or without an embedding
embedding_run : embedding_score naturals py none (note ∷ []) "tea" ≡ 0 ∷ []
unfolding embedding_score
embedding_run = refl

unembedded_run : embedding_score naturals py (some (λ task. 1 ∷ [])) (note ∷ []) "tea" ≡ 0 ∷ []
unfolding embedding_score
unembedded_run = refl

hybrid_run :
    hybrid_score naturals py (λ task. []) 1 (note ∷ []) "tea"
    ≡ err (value_error "Query embedding must be nonempty and finite")
unfolding hybrid_score hybrid_scored
hybrid_run = refl

-- Spaces and case do not count in the spellings that mean no floor.
floor_off : parse_min_score naturals py 0 (λ text. none) (λ text. text) " OFF " ≡ ok 0
unfolding parse_min_score any ascii_lower strip
floor_off = refl

floor_unset : resolve_min_score naturals py 7 (λ text. none) (λ text. text) none (some " ") ≡ ok 0
unfolding resolve_min_score strip
floor_unset = refl

default_path : resolve_db_path (some "") none ≡ "trilith.db"
unfolding resolve_db_path
default_path = refl
