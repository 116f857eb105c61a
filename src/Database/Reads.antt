-- ===== src/Database/Reads.antt =====
-- What the queries of the backend return.
use trilith.Prelude.{
  ℕ, zero, suc, String, ◌≡◌, ◌⊎◌, inl, inr, Bool, true, List, [], ◌∷◌, map, Option, none, some,
  Occurs, filter, arith, Occurs-filter, filter-Occurs, Occurs-take, string_eq, Occurs-map,
}
use trilith.Prelude.Sort.{
  sort_by, Occurs-sort_by, sort_by-Occurs, IsOrder, IsSorted, sort_by-IsSorted,
}
use text.Mathlib.TextEquality.{eq_iff}
use trilith.Exec.{ok, traverse, traverse-cons}
use trilith.Proto.{Tier, Scope, ContextItem, global, tier_eq, scope_eq, tier_beq_iff, scope_beq_iff}
use trilith.Identity.{normalize_tenant}
use trilith.Identity.Stamp.{normalize_tenant_idem}
use trilith.Database.{Row, Db, item_of, row_to_item}
use trilith.Database.Backend.{query, query_rows, query_clause, newer, limited}

-- What is read without a raise is the row's item.
pub row_to_item-ok : (r : Row) (i : ContextItem) → row_to_item r ≡ ok i → i ≡ item_of r
unfolding row_to_item
row_to_item-ok r i h = ground arith

pub traverse-row_to_item :
    (rows : List Row) (items : List ContextItem)
    → traverse row_to_item rows ≡ ok items
    → items ≡ map item_of rows
unfolding traverse
traverse-row_to_item [] items h = ground arith
traverse-row_to_item (r ∷ rows) items h =
    let (y, zs, e, k, q) = traverse-cons row_to_item r rows items h in
    cc (row_to_item-ok r y e, traverse-row_to_item rows zs k)

Occurs-limited :
    (limit : Option ℕ) (rows : List Row) (r : Row) → Occurs r (limited limit rows) → Occurs r rows
Occurs-limited none rows r o = o
Occurs-limited (some zero) rows r o = o
Occurs-limited (some (suc n)) rows r o = Occurs-take (suc n) rows r o

-- A row is selected only if it is stored and passes every clause of the query.
pub query_rows_sound :
    (tier : Tier) (scope : Option Scope) (subtask tenant : Option String) (g : Bool)
    (limit : Option ℕ) (db : Db) (r : Row)
    → Occurs r (query_rows tier scope subtask tenant g limit db)
    → Occurs r db.items × (query_clause tier scope subtask tenant g r ≡ true)
unfolding query_rows
query_rows_sound tier scope subtask tenant g limit db r o =
    let rows = filter (query_clause tier scope subtask tenant g) db.items in
    Occurs-filter (query_clause tier scope subtask tenant g) db.items r
      (Occurs-sort_by newer rows r (Occurs-limited limit (sort_by newer rows) r o))

-- Without a limit every stored row that passes is selected.
pub query_rows_complete :
    (tier : Tier) (scope : Option Scope) (subtask tenant : Option String) (g : Bool) (db : Db)
    (r : Row)
    → Occurs r db.items
    → query_clause tier scope subtask tenant g r ≡ true
    → Occurs r (query_rows tier scope subtask tenant g none db)
unfolding query_rows
query_rows_complete tier scope subtask tenant g db r o h =
    let rows = filter (query_clause tier scope subtask tenant g) db.items in
    sort_by-Occurs newer rows r
      (filter-Occurs (query_clause tier scope subtask tenant g) db.items r o h)

newer-IsOrder : IsOrder newer
newer-IsOrder = record { asym = λ a b h. ground arith; cotrans = λ a b c h k. ground arith }

-- The items that a query returns are those of the rows that it selects.
pub query-rows :
    (tier : Tier) (scope : Option Scope) (subtask tenant : Option String) (g : Bool)
    (limit : Option ℕ) (db : Db) (items : List ContextItem) (i : ContextItem)
    → query tier scope subtask tenant g limit db ≡ ok items
    → Occurs i items
    → (r : Row) × Occurs r db.items
      × (query_clause tier scope subtask tenant g r ≡ true)
      × (i ≡ item_of r)
unfolding query
query-rows tier scope subtask tenant g limit db items i h o =
    let rows = query_rows tier scope subtask tenant g limit db in
    let (r, k, e) = Occurs-map item_of rows i (rw (traverse-row_to_item rows items h) at o) in
    let (stored, pass) = query_rows_sound tier scope subtask tenant g limit db r k in
    (r, stored, pass, e)

clause-tenant :
    (tier : Tier) (scope : Option Scope) (subtask : Option String) (tenant : String) (g : Bool)
    (r : Row)
    → query_clause tier scope subtask (some tenant) g r ≡ true
    → (r.tier ≡ tier)
      × ((r.tenant_id ≡ normalize_tenant (some tenant)) ⊎ ((g ≡ true) × (r.scope ≡ global)))
clause-tenant tier scope subtask tenant g r h = ground (
  arith,
  tier_beq_iff r.tier tier,
  scope_beq_iff r.scope global,
  eq_iff r.tenant_id (normalize_tenant (some tenant)),
)

pub item_of-tenant :
    (r : Row) (tenant : String)
    → r.tenant_id ≡ normalize_tenant (some tenant)
    → (item_of r).tenant_id ≡ normalize_tenant (some tenant)
unfolding item_of
item_of-tenant r tenant e = rw (e, normalize_tenant_idem (some tenant))

-- The boundary of a tenant read: every item returned is of the tier, and belongs to the tenant,
-- or is GLOBAL where the tier lets those through.
pub query-tenant :
    (tier : Tier) (scope : Option Scope) (subtask : Option String) (tenant : String) (g : Bool)
    (limit : Option ℕ) (db : Db) (items : List ContextItem) (i : ContextItem)
    → query tier scope subtask (some tenant) g limit db ≡ ok items
    → Occurs i items
    → (i.tier ≡ tier)
      × ((i.tenant_id ≡ normalize_tenant (some tenant)) ⊎ ((g ≡ true) × (i.scope ≡ global)))
query-tenant tier scope subtask tenant g limit db items i h o =
    let (r, _, pass, e) = query-rows tier scope subtask (some tenant) g limit db items i h o in
    rw e (within r (clause-tenant tier scope subtask tenant g r pass))
  where
    within :
        (r : Row)
        → (r.tier ≡ tier)
          × ((r.tenant_id ≡ normalize_tenant (some tenant)) ⊎ ((g ≡ true) × (r.scope ≡ global)))
        → ((item_of r).tier ≡ tier)
          × (((item_of r).tenant_id ≡ normalize_tenant (some tenant))
              ⊎ ((g ≡ true) × ((item_of r).scope ≡ global)))
    within r (t, inl k) = (unfold item_of in t, inl (item_of-tenant r tenant k))
    within r (t, inr k) = (unfold item_of in t, inr (unfold item_of in k))

-- A query returns the newest first.
pub query_rows-IsSorted :
    (tier : Tier) (scope : Option Scope) (subtask tenant : Option String) (g : Bool) (db : Db)
    → IsSorted newer (query_rows tier scope subtask tenant g none db)
unfolding query_rows
query_rows-IsSorted tier scope subtask tenant g db =
    sort_by-IsSorted newer newer-IsOrder
      (filter (query_clause tier scope subtask tenant g) db.items)
