-- ===== src/Examples/Budget.antt =====
-- Runs of packing, assembly and budgeted queries, with natural numbers as scores.
use trilith.Ranking.{zip, rank, estimate_tokens, Governor}
use trilith.Governor.{
  selected_keys, select_ranked, select, audit_denied, collect, collect_all, checked_budget, Filled,
  whole, fill, assemble,
}
use trilith.Privacy.{redact, explain, filter_from}
use trilith.Ops.Query.{filtered, spend, limited_to, query_items}
use trilith.Store.{base_query, query_for}
use trilith.Ops.{store_for}
use trilith.Proto.{scope_name, tier_name, ContextItem, AssembledContext, semantic}
use trilith.Database.{row_to_item, item_of}
use trilith.Prelude.{strip, filter, ◌≡◌, refl, false, [], ◌∷◌, none, some, map, Occurs}
use trilith.Identity.{normalize_tenant}
use trilith.Prelude.Sort.{sort_by}
use trilith.Database.Backend.{query_rows, query}
use trilith.Exec.{traverse, ok}
use native.Mathlib.Omega.{arith}
use trilith.Python.{Python, plain_python}
use trilith.Floats.{naturals}
use trilith.Retrieval.{Entry, pack_entries}
use trilith.Retrieval.Packed.{IsPacked, pack_entries-IsPacked}
use trilith.Governor.Budget.{IsFilled, fill-IsFilled}
use trilith.Governor.Assembly.{IsAssembled, IsShown, assemble-IsAssembled}
use trilith.Ops.Query.Limit.{Fits, query_items-Fits}
use trilith.Examples.Data.{ada, note_row, step_row, summary_row, tables, runtime}

abbrev py : Python
py = plain_python

abbrev pub governor : Governor naturals
governor = record {
  scorer = record { score = λ items task. map (λ _. 2) items; pairwise = none };
  token_counter = none;
  coverage = false;
  distraction_coef = 0;
  max_candidates = 500;
  max_pairwise = 0;
  min_score = 0;
}

abbrev seen_note : ContextItem
seen_note = item_of note_row

abbrev entry : Entry naturals
entry = record { index = 0; item = seen_note; score = 2; cost = 9; evidence = "w:tea" ∷ [] }

pack_entries-IsPacked_example :
    IsPacked naturals 10 (entry ∷ []) (pack_entries naturals ("w:tea" ∷ []) 10 (entry ∷ []))
pack_entries-IsPacked_example = pack_entries-IsPacked naturals ("w:tea" ∷ []) 10 (entry ∷ [])

-- the second copy does not fit
abbrev filled : Filled naturals py 9
filled = record {
  items = seen_note ∷ [];
  used = 9;
  excluded = record { item = seen_note; reason = "Exceeded token budget" } ∷ [];
}

fill_run : fill naturals py 9 governor none 10 0 ((seen_note, 2) ∷ (seen_note, 1) ∷ []) ≡ ok filled
unfolding fill estimate_tokens item_of
fill_run = refl

fill-IsFilled_example :
    IsFilled naturals py 9 governor none 10 0 ((seen_note, 2) ∷ (seen_note, 1) ∷ []) filled
fill-IsFilled_example =
    fill-IsFilled naturals py 9 governor none 10 0 ((seen_note, 2) ∷ (seen_note, 1) ∷ []) filled
      (omega arith) fill_run

-- The step and its summary are seen by the whole tenant, and do not fit beside the note.
abbrev context : AssembledContext
context = record {
  items = seen_note ∷ [];
  tokens_used = 9;
  excluded_items =
      record { item = item_of step_row; reason = "Exceeded token budget" }
      ∷ record { item = item_of summary_row; reason = "Exceeded token budget" }
      ∷ [];
  candidates_truncated = 0;
}

assemble_run : (assemble naturals py 9 governor "tea" (whole 10) ada runtime).1 ≡ ok context
unfolding assemble checked_budget collect_all collect query_for query traverse query_rows sort_by
    filter normalize_tenant strip row_to_item tier_name scope_name audit_denied filter_from explain
    select select_ranked selected_keys fill rank zip estimate_tokens redact
assemble_run = refl

assemble-IsAssembled_example :
    IsAssembled naturals py 9 governor ada tables.items (whole 10) context
assemble-IsAssembled_example =
    assemble-IsAssembled naturals py 9 governor ada "tea" (whole 10) runtime context assemble_run

query_run :
    query_items naturals governor py 9 semantic "" 10 "" (some ada) tables ≡ ok (seen_note ∷ [])
unfolding query_items store_for base_query query_for query traverse query_rows sort_by filter
    normalize_tenant strip row_to_item tier_name scope_name limited_to spend filtered filter_from
    explain estimate_tokens redact
query_run = refl

query_items-Fits_example :
    Fits naturals governor py 9 10 0 (seen_note ∷ [])
    × ((i : ContextItem) → Occurs i (seen_note ∷ []) → IsShown naturals py 9 governor ada i)
query_items-Fits_example =
    query_items-Fits naturals governor py 9 semantic "" 10 "" ada tables (seen_note ∷ [])
      (omega arith) query_run
