-- ===== src/Examples/Folding.antt =====
-- A run of folding.
use trilith.Prelude.{any, all, strip, filter, ◌≡◌, refl, [], ◌∷◌, none, some, false}
use trilith.Fold.{fold_guard, fold, summary_of}
use trilith.Privacy.{explain}
use trilith.Runtime.{atomic_operation}
use trilith.Proto.{scope_name, tier_name, ContextItem, procedural}
use trilith.Database.{row_to_item, item_of}
use trilith.Identity.{normalize_tenant, Principal}
use trilith.Prelude.Sort.{sort_by}
use trilith.Database.Backend.{query_rows, query}
use trilith.Exec.{traverse, ok}
use trilith.Python.{Python, plain_python}
use trilith.Fold.Summary.{IsFold, fold-IsFold}
use trilith.Examples.Data.{ada, step_row, tables, runtime}

abbrev py : Python
py = plain_python

abbrev pub caller : Principal
caller = record ada { session_id = "" }

abbrev step : ContextItem
step = item_of step_row

abbrev summary : ContextItem
summary = summary_of py 9 caller "t" step (step ∷ [])

steps_read : query procedural none (some "t") (some "acme") false none tables ≡ ok (step ∷ [])
unfolding query traverse query_rows sort_by filter normalize_tenant strip row_to_item tier_name
    scope_name
steps_read = refl

fold_run : (fold py 9 "t" caller runtime).1 ≡ ok (some summary)
unfolding fold atomic_operation query traverse query_rows sort_by filter normalize_tenant strip
    row_to_item tier_name scope_name explain fold_guard all any
fold_run = refl

fold-IsFold_example : IsFold py 9 caller (step ∷ []) summary (fold py 9 "t" caller runtime).0.db
fold-IsFold_example = fold-IsFold py 9 "t" caller (step ∷ []) summary runtime steps_read fold_run
