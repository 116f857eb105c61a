-- ===== src/Fold.antt =====
-- `ProceduralStore.fold` of core/procedural.py, and `fold_subtask` of core/ops.py.
pub mod Links
pub mod Summary
pub mod Validity
use trilith.Prelude.{
  ℕ, String, ◌<>◌, Bool, true, false, not, ◌&&◌, ◌||◌, List, [], ◌∷◌, ◌++◌, Option, none, some, map,
  filter, any, all, take, length, take_chars, is_empty, decimal, if◌then◌else◌, ◌==◌, string_eq,
}
use trilith.Prelude.Sort.{sort_by}
use trilith.Exec.{Result, ok, err, value_error, permission_error}
use trilith.Python.{
  Python, Json, string, array, object, Elements, no_elements, element, Members, no_members, member,
  Loaded, dict, no_dict,
}
use trilith.Proto.{ContextItem, Timestamp, Scope, procedural, global, scope_eq, time_lt}
use trilith.Identity.{Principal, can}
use trilith.Privacy.{explain}
use trilith.Database.{Db, Derived, text, number}
use trilith.Database.Backend as Backend
use trilith.Database.Backend.{distinct}
use trilith.Audit.{principal_or_default}
use trilith.Runtime.{Action, ◌>>=◌, ◌>>◌, return, reads, value, changes, event, atomic_operation}
use trilith.Ops.{current_time, tenant_of}

-- the steps that a principal folds
abbrev pub foldable : Python → ℕ → Principal → ContextItem → Bool
foldable py now p i =
    i.owner_id == p.owner_id && (i.session_id == p.session_id && (explain py i p now).0)

unfoldable pub fold_guard : Principal → ContextItem → List ContextItem → Result (Unit {0})
fold_guard p first items =
    if not (all (λ i. i.scope == first.scope) items)
    then err (value_error "Fold requires homogeneous scope")
    else if any (λ i. i.scope == global) items && not (can p "publish_global")
    then err (permission_error "publish_global capability required")
    else ok tt

abbrev created : ContextItem → Timestamp
created i = elim i.created_at [ none ↦ record { seconds = 0; nanos = 0 } | some t ↦ t ]

-- the sort key `(created_at.seconds, created_at.nanos, id)`
abbrev pub earlier : ContextItem → ContextItem → Bool
earlier a b =
    time_lt (created a) (created b)
    || (not (time_lt (created b) (created a)) && Backend.text_before a.id b.id)

abbrev one : Option String → List String
one none = []
one (some s) = take_chars 512 s ∷ []

abbrev loaded_strategy : Python → ContextItem → Loaded → List String
loaded_strategy py item (dict strategy outcome) = one strategy
loaded_strategy py item no_dict =
    if is_empty item.content
    then []
    else take_chars 256 (py.split_first "(?<=[.!?])\\s+|\\n" item.content) ∷ []

abbrev loaded_outcome : Loaded → List String
loaded_outcome (dict strategy outcome) = one outcome
loaded_outcome no_dict = []

-- the loop over the items: strategies and outcomes
unfoldable pub strategies : Python → List ContextItem → List String
strategies py [] = []
strategies py (i ∷ items) = loaded_strategy py i (py.loads i.content) ++ strategies py items

unfoldable pub outcomes : Python → List ContextItem → List String
outcomes py [] = []
outcomes py (i ∷ items) = loaded_outcome (py.loads i.content) ++ outcomes py items

-- `xs[-1] if xs else default`
last_or : String → List String → String
last_or default [] = default
last_or default (s ∷ rest) = last_or s rest

abbrev elements : List Json → Elements
elements [] = no_elements
elements (j ∷ js) = element j (elements js)

abbrev source_json : ContextItem → Json
source_json i =
    object (member "tenant_id" (string i.tenant_id) (member "id" (string i.id) no_members))

payload : Python → List ContextItem → Json
unfolding last_or
payload py items = object (
    member "method" (string "extractive-v1") (
      member "outcome" (string (last_or "Not explicitly recorded" (outcomes py items))) (
        member "strategy"
          (array (elements (map (λ s. string s) (take 4 (distinct (strategies py items))))))
          (member "strategy_status" (string "source excerpts; reuse requires validation")
            (member "sources" (array (elements (map (λ i. source_json i) items))) no_members)))))

digest : Python → Principal → String → List ContextItem → String
digest py p subtask_id items = take_chars 24 (
    py.sha256 (
      py.dumps true (
        array (
          element (string p.tenant_id) (
            element (string p.owner_id) (
              element (string p.session_id) (
                element (string subtask_id) (
                  element (array (elements (map (λ (i : ContextItem). string i.id) items)))
                    no_elements))))))))

abbrev pub sooner : Option Timestamp → Option Timestamp → Option Timestamp
sooner none rest = rest
sooner (some t) none = some t
sooner (some t) (some u) = if time_lt u t then some u else some t

-- `min` of the expiries that are set
unfoldable pub first_expiry : List ContextItem → Option Timestamp
first_expiry [] = none
first_expiry (i ∷ items) = sooner i.expires_at (first_expiry items)

unfoldable pub summary_of :
    Python → ℕ → Principal → String → ContextItem → List ContextItem → ContextItem
unfolding payload digest
summary_of py now p subtask_id first items = record {
  id = "folded-" <> digest py p subtask_id items;
  tier = procedural;
  content = py.dumps false (payload py items);
  scope = first.scope;
  provenance = "procedural_fold:extractive-v1";
  created_at = some (current_time now);
  expires_at = first_expiry items;
  embedding = [];
  tenant_id = p.tenant_id;
  owner_id = p.owner_id;
  session_id = p.session_id;
}

abbrev pub same_edge : Derived → Derived → Bool
same_edge a b =
    a.tenant_id == b.tenant_id && (a.source_id == b.source_id && a.summary_id == b.summary_id)

-- INSERT OR IGNORE INTO derived_sources
abbrev pub link : Derived → Db → Db
link e db =
    if any (same_edge e) db.derived then db else record db { derived = db.derived ++ e ∷ [] }

-- the loop over the sources
unfoldable pub link_all : String → String → List ContextItem → Db → Db
link_all tenant summary_id [] db = db
link_all tenant summary_id (i ∷ items) db =
    link_all tenant summary_id items
      (link (record { tenant_id = tenant; source_id = i.id; summary_id = summary_id }) db)

abbrev pub summarise :
    Python → ℕ → Principal → String → List ContextItem → Action (Option ContextItem)
summarise py now p subtask_id [] = return none
summarise py now p subtask_id (first ∷ rest) =
    let summary = summary_of py now p subtask_id first (first ∷ rest) in
    do
      changes (Backend.save summary none)
      changes (link_all p.tenant_id summary.id (first ∷ rest))
      return (some summary)

abbrev pub fold_items :
    Python → ℕ → Principal → String → List ContextItem → Action (Option ContextItem)
fold_items py now p subtask_id [] = return none
fold_items py now p subtask_id (first ∷ rest) = do
  value (fold_guard p first (first ∷ rest))
  summarise py now p subtask_id (sort_by earlier (first ∷ rest))

-- `ProceduralStore.fold`, for the principal or the default one
unfoldable pub fold : Python → ℕ → String → Principal → Action (Option ContextItem)
fold py now subtask_id p = atomic_operation (do
  items ← reads (Backend.query procedural none (some subtask_id) (some p.tenant_id) false none)
  fold_items py now p subtask_id (filter (foldable py now p) items))

abbrev pub seen_before : Python → ℕ → Option Principal → List ContextItem → List ContextItem
seen_before py now none items = items
seen_before py now (some p) items = filter (foldable py now p) items

abbrev summary_id : Option ContextItem → String
summary_id none = ""
summary_id (some s) = s.id

-- the event and the answer of `fold_subtask`
unfoldable pub announce_fold :
    ℕ → String → Option Principal → ℕ → Option ContextItem → Action (Option ContextItem × ℕ)
announce_fold now subtask_id principal count summary = do
  event now "fold" principal ("folded " <> decimal count <> " steps of '" <> subtask_id <> "'") (
      ("subtask_id", text subtask_id)
      ∷ ("folded_count", number count)
      ∷ ("id", text (summary_id summary))
      ∷ [])
  return (summary, count)

abbrev pub folded :
    Python → ℕ → String → Option Principal → List ContextItem → Action (Option ContextItem × ℕ)
folded py now subtask_id principal [] = return (none, 0)
folded py now subtask_id principal (i ∷ items) = do
  summary ← fold py now subtask_id (principal_or_default principal)
  announce_fold now subtask_id principal (length (i ∷ items)) summary

unfoldable pub fold_subtask :
    Python → ℕ → String → Option Principal → Action (Option ContextItem × ℕ)
fold_subtask py now subtask_id principal = atomic_operation (do
  before ← reads (Backend.query procedural none (some subtask_id) (tenant_of principal) false none)
  folded py now subtask_id principal (seen_before py now principal before))
