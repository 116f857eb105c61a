-- ===== src/Database/Search.antt =====
-- `search` of core/sqlite_backend.py: a tenant's rows across tiers, matched and in pages. `like`
-- stands for the database's `LOWER(text) LIKE pattern`, by pattern and text.
use text.Mathlib.TextEquality.{eq_iff}
use trilith.Prelude.{
  ℕ, ◌≤◌, String, ◌<>◌, ◌≡◌, ◌⊎◌, inl, inr, Bool, true, ◌&&◌, ◌||◌, not, List, [], ◌∷◌, Option,
  none, some, max, filter, any, take, drop, length, is_empty, strip, ◌==◌, string_eq, Occurs,
  Occurs-filter, Occurs-take, Occurs-drop, any-witness, arith, and-true_parts, length-take,
  length-drop,
}
use trilith.Prelude.Sort.{sort_by, Occurs-sort_by, length-sort_by}
use trilith.Exec.{Result, ok, traverse, ◌>>=◌, bind-ok, Occurs-traverse, length-traverse}
use trilith.Python.{Python}
use trilith.Proto.{Tier, Scope, global, tier_eq, scope_eq, tier_beq_iff, scope_beq_iff}
use trilith.Identity.{normalize_tenant}
use trilith.Database.{Row, Db, item_of, row_to_item}
use trilith.Database.Backend.{StoredItem, scope_clause, text_clause, newer, text_before}
use trilith.Database.Reads.{item_of-tenant}

abbrev among : List Tier → Tier → Bool
among tiers t = any (λ s. t == s) tiers

-- `(tenant_id = ? OR (scope = GLOBAL AND tier IN (…)))`, `tenant_id = ?`, or no clause
abbrev pub shared_clause : Option String → List Tier → Row → Bool
shared_clause none global_tiers r = true
shared_clause (some t) [] r = r.tenant_id == normalize_tenant (some t)
shared_clause (some t) (g ∷ global_tiers) r =
    r.tenant_id == normalize_tenant (some t) || r.scope == global && among (g ∷ global_tiers) r.tier

-- `if tiers: … tier IN (…)`
abbrev pub tiers_clause : Option (List Tier) → Row → Bool
tiers_clause none r = true
tiers_clause (some []) r = true
tiers_clause (some (t ∷ tiers)) r = among (t ∷ tiers) r.tier

-- `IFNULL(subtask_id, '')`
abbrev subtask_or_empty : Option String → String
subtask_or_empty none = ""
subtask_or_empty (some s) = s

abbrev pub needle_clause : (String → String → Bool) → String → Row → Bool
needle_clause like needle r =
    is_empty needle
    || (like ("%" <> needle <> "%") r.content
        || (like ("%" <> needle <> "%") r.id
            || (like ("%" <> needle <> "%") r.provenance
                || like ("%" <> needle <> "%") (subtask_or_empty r.subtask_id))))

-- ORDER BY created_at_sec DESC, created_at_nanosec DESC, id DESC
abbrev pub listed_first : Row → Row → Bool
listed_first a b = newer a b || not (newer b a) && text_before b.id a.id

-- The arguments of a search, in the source's order.
pub record Search : Type 0 where
  pub tenant_id : Option String
  pub global_tiers : List Tier
  pub tiers : Option (List Tier)
  pub scope : Option Scope
  pub text : String
  pub owner_id : String
  pub session_id : String
  pub limit : ℕ
  pub offset : ℕ

abbrev pub search_clause : Python → (String → String → Bool) → Search → Row → Bool
search_clause py like q r =
    shared_clause q.tenant_id q.global_tiers r
    && (tiers_clause q.tiers r
        && (scope_clause q.scope r
            && (text_clause q.owner_id r.owner_id
                && (text_clause q.session_id r.session_id
                    && needle_clause like (py.lower (strip q.text)) r))))

read_page_row : Row → Result StoredItem
read_page_row r = do item ← row_to_item r; ok (record { item = item; subtask_id = r.subtask_id })

unfoldable pub matches : Python → (String → String → Bool) → Search → Db → List Row
matches py like q db = filter (search_clause py like q) db.items

-- LIMIT max(1, limit) OFFSET max(0, offset)
unfoldable pub page_rows : Python → (String → String → Bool) → Search → Db → List Row
page_rows py like q db =
    take (max 1 q.limit) (drop q.offset (sort_by listed_first (matches py like q db)))

-- The page and the number of rows that match.
unfoldable pub search :
    Python → (String → String → Bool) → Search → Db → Result (List StoredItem × ℕ)
unfolding read_page_row
search py like q db = do
  page ← traverse read_page_row (page_rows py like q db)
  ok (page, length (matches py like q db))

-- What a page row holds is the row's item.
read_page_row-ok : (r : Row) (s : StoredItem) → read_page_row r ≡ ok s → s.item ≡ item_of r
unfolding read_page_row row_to_item
read_page_row-ok r s h = ground arith

among-Occurs : (tiers : List Tier) (t : Tier) → among tiers t ≡ true → Occurs t tiers
among-Occurs tiers t h =
    let (s, o, e) = any-witness (λ s. t == s) tiers h in rw ((tier_beq_iff t s).0 e) o

shared_clause-tenant :
    (tenant : String) (tiers : List Tier) (r : Row)
    → shared_clause (some tenant) tiers r ≡ true
    → (r.tenant_id ≡ normalize_tenant (some tenant)) ⊎ ((r.scope ≡ global) × Occurs r.tier tiers)
shared_clause-tenant tenant [] r h = inl ((eq_iff r.tenant_id (normalize_tenant (some tenant))).0 h)
shared_clause-tenant tenant (g ∷ tiers) r h = ground (
  arith,
  eq_iff r.tenant_id (normalize_tenant (some tenant)),
  scope_beq_iff r.scope global,
  among-Occurs (g ∷ tiers) r.tier,
)

page_rows_sound :
    (py : Python) (like : String → String → Bool) (q : Search) (db : Db) (r : Row)
    → Occurs r (page_rows py like q db)
    → Occurs r db.items × (search_clause py like q r ≡ true)
unfolding page_rows matches
page_rows_sound py like q db r o =
    let rows = filter (search_clause py like q) db.items in
    Occurs-filter (search_clause py like q) db.items r (
      Occurs-sort_by listed_first rows r (
        Occurs-drop q.offset (sort_by listed_first rows) r
          (Occurs-take (max 1 q.limit) (drop q.offset (sort_by listed_first rows)) r o)))

-- A search that returns gives the page that was read and the number of rows that match.
search-parts :
    (py : Python) (like : String → String → Bool) (q : Search) (db : Db) (page : List StoredItem)
    (total : ℕ)
    → search py like q db ≡ ok (page, total)
    → (traverse read_page_row (page_rows py like q db) ≡ ok page)
      × (total ≡ length (matches py like q db))
unfolding search
search-parts py like q db page total h =
    let (p, e, k) =
      bind-ok (traverse read_page_row (page_rows py like q db))
        (λ page. ok (page, length (matches py like q db))) (page, total) h in
    ground arith

-- The boundary of a search: every item on a page belongs to the tenant that asks, or is GLOBAL and
-- of one of the tiers that let GLOBAL items through.
pub search-tenant :
    (py : Python) (like : String → String → Bool) (q : Search) (db : Db) (page : List StoredItem)
    (total : ℕ) (tenant : String) (s : StoredItem)
    → search py like q db ≡ ok (page, total)
    → q.tenant_id ≡ some tenant
    → Occurs s page
    → (s.item.tenant_id ≡ normalize_tenant (some tenant))
      ⊎ ((s.item.scope ≡ global) × Occurs s.item.tier q.global_tiers)
search-tenant py like q db page total tenant s h e o =
    let (k, _) = search-parts py like q db page total h in
    let (r, i, m) = Occurs-traverse read_page_row (page_rows py like q db) page s k o in
    let (stored, pass) = page_rows_sound py like q db r i in
    rw (read_page_row-ok r s m) (
      held r (
        shared_clause-tenant tenant q.global_tiers r
          (rw e at (and-true_parts (shared_clause q.tenant_id q.global_tiers r) _ pass).0)))
  where
    held :
        (r : Row)
        → (r.tenant_id ≡ normalize_tenant (some tenant))
          ⊎ ((r.scope ≡ global) × Occurs r.tier q.global_tiers)
        → ((item_of r).tenant_id ≡ normalize_tenant (some tenant))
          ⊎ (((item_of r).scope ≡ global) × Occurs (item_of r).tier q.global_tiers)
    held r (inl k) = inl (item_of-tenant r tenant k)
    held r (inr k) = inr (unfold item_of in k)

-- A page has at most `limit` items, or one where the limit is zero, and no more than the total,
-- which counts every stored row that matches.
pub search-page :
    (py : Python) (like : String → String → Bool) (q : Search) (db : Db) (page : List StoredItem)
    (total : ℕ)
    → search py like q db ≡ ok (page, total)
    → (length page ≤ max 1 q.limit)
      × ((length page ≤ total) × (total ≡ length (filter (search_clause py like q) db.items)))
unfolding page_rows matches
search-page py like q db page total h =
    let (k, e) = search-parts py like q db page total h in
    let rows = filter (search_clause py like q) db.items in
    let sorted = sort_by listed_first rows in
    let read = length-traverse read_page_row (page_rows py like q db) page k in
    let taken = length-take (max 1 q.limit) (drop q.offset sorted) in
    (
      omega (arith, read, taken),
      (
        omega
            (arith, read, taken, length-drop q.offset sorted, length-sort_by listed_first rows, e),
        e,
      ),
    )
