-- ===== src/Database/Backend.antt =====
-- SQLiteBackend of core/sqlite_backend.py: its statements over the tables.
use Prim.Native.String.{compare}
use text.Mathlib.Text.{is_lt}
use trilith.Prelude.{
  ℕ, zero, suc, ◌/◌, String, Bool, true, false, not, ◌&&◌, ◌||◌, List, [], ◌∷◌, ◌++◌, Option, none,
  some, map, filter, find, any, take, length, leb, ltb, is_empty, ◌==◌, nat_eq, string_eq,
}
use trilith.Prelude.Sort.{sort_by}
use trilith.Exec.{Result, ok, traverse, ◌>>=◌}
use trilith.Proto.{
  Tier, Scope, Timestamp, ContextItem, tier_eq, scope_eq, global, procedural, time_lt,
}
use trilith.Identity.{normalize_tenant}
use trilith.Database.{Row, Derived, Db, row_of, row_to_item, has_key}
use trilith.Database.Cascade.{erase, delete_where}

pub record StoredItem : Type 0 where
  pub item : ContextItem
  pub subtask_id : Option String

-- INSERT OR REPLACE: the conflicting row goes first, and under PRAGMA recursive_triggers its
-- delete triggers run.
unfoldable pub save : ContextItem → Option String → Db → Db
save item subtask_id db =
    let r = row_of item subtask_id in
    let cleared = erase (length db.items) r.tenant_id r.id db in
    record cleared { items = cleared.items ++ r ∷ [] }

abbrev read_row : Option Row → Result (Option ContextItem)
read_row none = ok none
read_row (some r) = do item ← row_to_item r; ok (some item)

unfoldable pub get : String → Option String → Db → Result (Option ContextItem)
get item_id tenant_id db = read_row (find (has_key (normalize_tenant tenant_id) item_id) db.items)

abbrev read_stored : Option Row → Result (Option StoredItem)
read_stored none = ok none
read_stored (some r) = do
  item ← row_to_item r
  ok (some (record { item = item; subtask_id = r.subtask_id }))

unfoldable pub stored : String → Option String → Db → Result (Option StoredItem)
stored item_id tenant_id db =
    read_stored (find (has_key (normalize_tenant tenant_id) item_id) db.items)

-- `AND (tenant_id = ? OR scope = GLOBAL)`, `AND tenant_id = ?`, or no clause
abbrev pub tenant_clause : Option String → Bool → Row → Bool
tenant_clause none include_global r = true
tenant_clause (some t) true r = r.tenant_id == normalize_tenant (some t) || r.scope == global
tenant_clause (some t) false r = r.tenant_id == normalize_tenant (some t)

abbrev pub scope_clause : Option Scope → Row → Bool
scope_clause none r = true
scope_clause (some s) r = r.scope == s

-- `column = ?` is not true of a NULL
abbrev pub text_is : String → Option String → Bool
text_is s none = false
text_is s (some t) = t == s

abbrev pub subtask_clause : Option String → Row → Bool
subtask_clause none r = true
subtask_clause (some s) r = text_is s r.subtask_id

abbrev pub query_clause : Tier → Option Scope → Option String → Option String → Bool → Row → Bool
query_clause tier scope subtask_id tenant_id include_global r =
    r.tier == tier
    && (tenant_clause tenant_id include_global r
        && (scope_clause scope r && subtask_clause subtask_id r))

-- ORDER BY created_at_sec DESC, created_at_nanosec DESC. Ties are left in table order.
abbrev pub newer : Row → Row → Bool
newer a b = time_lt b.created a.created

-- `if limit is not None and limit > 0`
abbrev pub limited : Option ℕ → List Row → List Row
limited none rows = rows
limited (some zero) rows = rows
limited (some (suc n)) rows = take (suc n) rows

unfoldable pub query_rows :
    Tier → Option Scope → Option String → Option String → Bool → Option ℕ → Db → List Row
query_rows tier scope subtask_id tenant_id include_global limit db =
    limited limit (
      sort_by newer (filter (query_clause tier scope subtask_id tenant_id include_global) db.items))

unfoldable pub query :
    Tier
    → Option Scope
    → Option String
    → Option String
    → Bool
    → Option ℕ
    → Db
    → Result (List ContextItem)
query tier scope subtask_id tenant_id include_global limit db =
    traverse row_to_item (query_rows tier scope subtask_id tenant_id include_global limit db)

unfoldable pub count : Tier → Option String → Bool → Db → ℕ
count tier tenant_id include_global db =
    length (filter (query_clause tier none none tenant_id include_global) db.items)

-- ORDER BY a text column: by the bytes of its UTF-8
abbrev pub text_before : String → String → Bool
text_before a b = is_lt (compare a b)

unfoldable pub distinct : List String → List String
distinct [] = []
distinct (s ∷ rest) = let d = distinct rest in s ∷ filter (λ t. not (t == s)) d

unfoldable pub list_tenants : Db → List String
list_tenants db = sort_by text_before (distinct (map (λ (r : Row). r.tenant_id) db.items))

abbrev named_subtask : Option String → Bool
named_subtask none = false
named_subtask (some s) = not (is_empty s)

abbrev subtask_text : Row → String
subtask_text r = elim r.subtask_id [ none ↦ "" | some s ↦ s ]

abbrev listed_clause : Option String → Row → Bool
listed_clause tenant_id r =
    r.tier == procedural && (named_subtask r.subtask_id && tenant_clause tenant_id false r)

-- ORDER BY COUNT(*) DESC, subtask_id
abbrev more_steps : String × ℕ → String × ℕ → Bool
more_steps a b = ltb b.1 a.1 || (a.1 == b.1 && text_before a.0 b.0)

unfoldable pub list_subtasks : Option String → Db → List (String × ℕ)
list_subtasks tenant_id db =
    let rows = filter (listed_clause tenant_id) db.items in
    sort_by more_steps (
      map (λ (s : String). (s, length (filter (λ r. subtask_text r == s) rows)))
        (distinct (map (λ r. subtask_text r) rows)))

unfoldable pub delete : String → Option String → Db → Db × Bool
delete item_id tenant_id db =
    let done = delete_where (has_key (normalize_tenant tenant_id) item_id) db in
    (done.0, ltb 0 done.1)

abbrev tier_clause : Option Tier → Row → Bool
tier_clause none r = true
tier_clause (some t) r = r.tier == t

-- `if owner_id: … AND owner_id = ?`
abbrev pub text_clause : String → String → Bool
text_clause wanted actual = is_empty wanted || actual == wanted

abbrev pub by_scope : Scope → Option Tier → Option String → String → String → Row → Bool
by_scope scope tier tenant_id owner_id session_id r =
    r.scope == scope
    && (tier_clause tier r
        && (tenant_clause tenant_id false r
            && (text_clause owner_id r.owner_id && text_clause session_id r.session_id)))

unfoldable pub delete_by_scope : Scope → Option Tier → Option String → String → String → Db → Db × ℕ
delete_by_scope scope tier tenant_id owner_id session_id =
    delete_where (by_scope scope tier tenant_id owner_id session_id)

unfoldable pub delete_tenant : String → Db → Db × ℕ
delete_tenant tenant_id = delete_where (λ r. r.tenant_id == normalize_tenant (some tenant_id))

abbrev expired_by : ℕ → Option Timestamp → Bool
expired_by cutoff none = false
expired_by cutoff (some t) = leb t.seconds cutoff

abbrev pub purge_clause : ℕ → Option String → Row → Bool
purge_clause now tenant_id r =
    expired_by (now / 1000000000) r.expires && tenant_clause tenant_id false r

-- `now` in nanoseconds; the cutoff is `int(now)`, in whole seconds.
unfoldable pub purge_expired : ℕ → Option String → Db → Db × ℕ
purge_expired now tenant_id = delete_where (purge_clause now tenant_id)

abbrev pub parents : String → List String → List Derived → List String
parents tenant done edges =
    map (λ (e : Derived). e.source_id)
      (filter (λ e. e.tenant_id == tenant && any (λ d. d == e.summary_id) done) edges)

-- The recursive query `ancestors`: each round adds the sources of what is there, until nothing is new.
unfoldable pub lineage_rounds : ℕ → String → List String → List Derived → List String
lineage_rounds zero tenant done edges = done
lineage_rounds (suc n) tenant done edges =
    let fresh = filter (λ s. not (any (λ d. d == s) done)) (distinct (parents tenant done edges)) in
    let more = lineage_rounds n tenant (done ++ fresh) edges in
    elim fresh [ [] ↦ done | _ ∷ _ ↦ more ]

-- Every round but the last uses up an edge whose source is new.
unfoldable pub lineage : String → String → Db → List String
unfolding lineage_rounds
lineage item_id tenant_id db =
    lineage_rounds (suc (length db.derived)) (normalize_tenant (some tenant_id)) (item_id ∷ [])
      db.derived
