-- ===== src/Database/Cascade.antt =====
-- DELETE on context_items with its two triggers, `erase_derived` and `erase_item_audit`, under
-- PRAGMA recursive_triggers. Each nested delete removes a row, so a fuel of the number of rows
-- is enough.
use trilith.Prelude.{
  ℕ, zero, suc, String, Bool, true, false, not, ◌&&◌, ◌||◌, List, [], ◌∷◌, Option, none, some, map,
  filter, any, find, length, ◌==◌, string_eq, if◌then◌else◌,
}
use trilith.Database.{Row, Derived, Decision, Value, text, number, texts, float, Db, has_key}

-- `SELECT summary_id FROM derived_sources WHERE tenant_id = … AND source_id = …`
unfoldable pub summaries : String → String → List Derived → List String
summaries tenant id edges =
    map (λ (e : Derived). e.summary_id)
      (filter (λ e. e.tenant_id == tenant && e.source_id == id) edges)

-- the edges that name the deleted item
abbrev pub mentions : String → String → Derived → Bool
mentions tenant id e = e.tenant_id == tenant && (e.source_id == id || e.summary_id == id)

abbrev pub value_is : String → Option (String × Value) → Bool
value_is id none = false
value_is id (some (_, text s)) = s == id
value_is id (some (_, number n)) = false
value_is id (some (_, texts ts)) = false
value_is id (some (_, float shown)) = false

-- `json_extract(detail, '$.item_id') = OLD.id`
abbrev pub names_item : String → String → Decision → Bool
names_item tenant id d =
    d.tenant_id == tenant && value_is id (find (λ (k, _). k == "item_id") d.detail)

-- the row itself goes, and with it the decisions that name it
unfoldable pub remove_row : String → String → Db → Db
remove_row tenant id db = record db {
  items = filter (λ r. not (has_key tenant id r)) db.items;
  audit = filter (λ d. not (names_item tenant id d)) db.audit;
}

unfoldable pub remove_edges : String → String → Db → Db
remove_edges tenant id db = record db {
  derived = filter (λ e. not (mentions tenant id e)) db.derived;
}

unfoldable pub each {ℓ} : {A : Type ℓ} {S : Type 0} → (A → S → S) → List A → S → S
each f [] s = s
each f (x ∷ xs) s = each f xs (f x s)

-- One row is deleted, and its triggers run. A key with no row changes nothing.
unfoldable pub erase : ℕ → String → String → Db → Db
erase zero tenant id db = db
erase (suc fuel) tenant id db = elim (any (has_key tenant id) db.items) [
  | false ↦ db
  | true ↦
      remove_edges tenant id
        (each (erase fuel tenant) (summaries tenant id db.derived) (remove_row tenant id db))
]

-- The loop of a DELETE over the keys that it matched: a row that a trigger has taken meanwhile is
-- neither deleted nor counted.
unfoldable pub delete_rows : List Row → Db → Db × ℕ
delete_rows [] db = (db, 0)
delete_rows (r ∷ rows) db =
    let gone = delete_rows rows (erase (length db.items) r.tenant_id r.id db) in
    let kept = delete_rows rows db in
    if any (has_key r.tenant_id r.id) db.items then (gone.0, suc gone.1) else kept

-- `DELETE FROM context_items WHERE …` with `cursor.rowcount`
unfoldable pub delete_where : (Row → Bool) → Db → Db × ℕ
delete_where test db = delete_rows (filter test db.items) db
