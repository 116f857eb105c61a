-- ===== src/Ops/Query/Limit.antt =====
-- What `query_items` hands a caller.
use trilith.Prelude.{
  ℕ, ◌+◌, ◌≤◌, ◌<◌, String, ◌≡◌, refl, inr, Bool, true, false, List, [], ◌∷◌, Option, none, some,
  Occurs, arith, leb, leb→le, lt→ltb, map, filter, Occurs-filter, Occurs-map, is_empty,
  if◌then◌else◌,
}
use trilith.Exec.{Result, ok, err, bind-ok, ◌>>=◌ as bind}
use trilith.Python.{Python}
use trilith.Floats.{Floats}
use trilith.Proto.{Tier, ContextItem}
use trilith.Identity.{Principal}
use trilith.Privacy.{filter_from}
use trilith.Database.{Db}
use trilith.Store.{Store, store_query}
use trilith.Ranking.{Governor, rank, estimate_tokens}
use trilith.Governor.Budget.{total_cost}
use trilith.Governor.Assembly.{IsShown, Occurs-rank, filtered-IsShown}
use trilith.Ops.{store_for}
use trilith.Ops.Query.{seen, filtered, spend, limited_to, query_store, query_items}

module _ (fl : Floats) (g : Governor fl) (py : Python) (now : ℕ) where
  -- The items cost no more than what is left of the budget.
  abbrev pub Fits : ℕ → ℕ → List ContextItem → Type 0
  Fits budget spent items = (n : ℕ) × (total_cost fl py now g items ≡ ok n) × (spent + n ≤ budget)

  spend-Fits :
      (budget spent : ℕ) (items found : List ContextItem)
      → spent ≤ budget
      → spend fl g budget spent items ≡ ok found
      → Fits budget spent found × ((i : ContextItem) → Occurs i found → Occurs i items)
  unfolding spend total_cost
  spend-Fits budget spent [] found u h =
      let q : found ≡ [] = cc in rw q ((0, refl, omega arith), λ i o. o)
  spend-Fits budget spent (item ∷ items) found u h =
      by_cost (estimate_tokens fl g item) refl h (λ n f w e. spend-Fits budget n items f w e)
    where
      Next : Type 0
      Next =
          (n : ℕ) (f : List ContextItem)
          → n ≤ budget
          → spend fl g budget n items ≡ ok f
          → Fits budget n f × ((i : ContextItem) → Occurs i f → Occurs i items)

      Goal : Type 0
      Goal =
          Fits budget spent found × ((i : ContextItem) → Occurs i found → Occurs i (item ∷ items))

      by_fit :
          (cost : ℕ) (b : Bool)
          → estimate_tokens fl g item ≡ ok cost
          → leb (spent + cost) budget ≡ b
          → (if b
              then bind (spend fl g budget (spent + cost) items) (λ rest. ok (item ∷ rest))
              else spend fl g budget spent items)
            ≡ ok found
          → Next
          → Goal
      by_fit cost false c e q next =
          let (k, from) = next spent found u q in (k, λ i o. inr (from i o))
      by_fit cost true c e q next =
          let (f, e', q') =
            bind-ok (spend fl g budget (spent + cost) items) (λ rest. ok (item ∷ rest)) found q in
          let ((n, t, w), from) = next (spent + cost) f (leb→le (spent + cost) budget e) e' in
          let taken : found ≡ item ∷ f = cc in
          rw taken ((cost + n, rw (c, t) refl, omega arith), λ i o. ground (arith, from i))

      by_cost :
          (m : Result ℕ)
          → estimate_tokens fl g item ≡ m
          → bind m (λ cost.
            if leb (spent + cost) budget
            then bind (spend fl g budget (spent + cost) items) (λ rest. ok (item ∷ rest))
            else spend fl g budget spent items)
            ≡ ok found
          → Next
          → Goal
      by_cost (err e) c q next = cc
      by_cost (ok cost) c q next = by_fit cost _ c refl q next

  filtered-Occurs :
      (filter_text : String) (items : List ContextItem) (i : ContextItem)
      → Occurs i (filtered fl g filter_text items)
      → Occurs i items
  unfolding filtered
  filtered-Occurs filter_text items i o = by_text (is_empty filter_text) o
    where
      by_text :
          (b : Bool)
          → Occurs i (
              if b
              then items
              else map
                  (λ (p : ContextItem × fl.F). p.0)
                  (filter
                    (λ (p : ContextItem × fl.F). fl.lt g.min_score p.1)
                    (rank fl g items filter_text)))
          → Occurs i items
      by_text true o = o
      by_text false o =
          let ((j, s), r, e) = Occurs-map (λ (p : ContextItem × fl.F). p.0) _ i o in
          rw e (Occurs-rank fl py now g items filter_text j s (Occurs-filter _ _ (j, s) r).0)

  -- A caller's query within a positive budget returns items that together cost no more than that,
  -- and only such as have not expired and the caller may see.
  pub query_items-Fits :
      (tier : Tier) (filter_text : String) (budget : ℕ) (scope : String) (p : Principal) (db : Db)
      (found : List ContextItem)
      → 0 < budget
      → query_items fl g py now tier filter_text budget scope (some p) db ≡ ok found
      → Fits budget 0 found × ((i : ContextItem) → Occurs i found → IsShown fl py now g p i)
  unfolding query_items limited_to total_cost
  query_items-Fits tier filter_text budget scope p db found positive h = from (store_for tier) h
    where
      from :
          (o : Option Store)
          → query_store fl g py now o filter_text budget scope (some p) db ≡ ok found
          → Fits budget 0 found × ((i : ContextItem) → Occurs i found → IsShown fl py now g p i)
      from none h = let q : found ≡ [] = cc in rw q ((0, refl, omega arith), λ i o. absurd o)
      from (some store) h =
          let (items, _, q) =
            bind-ok (store_query py store scope (some p) none db)
              (λ items.
                limited_to fl g budget (filtered fl g filter_text (seen py now (some p) items)))
              found h in
          let e = lt→ltb 0 budget positive in
          let (k, inside) =
            spend-Fits budget 0 (filtered fl g filter_text (filter_from py items p now).0) found
              (omega arith) (rw e at q) in
          (
            k,
            λ i o.
                filtered-IsShown fl py now g p items i
                  (filtered-Occurs filter_text (filter_from py items p now).0 i (inside i o)),
          )
