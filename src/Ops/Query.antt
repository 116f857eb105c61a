-- ===== src/Ops/Query.antt =====
-- `query_items` of core/ops.py.
pub mod Limit
use trilith.Prelude.{
  ℕ, zero, ◌+◌, String, Bool, true, false, not, List, [], ◌∷◌, Option, none, some, map, filter, leb,
  ltb, is_empty, if◌then◌else◌, ◌&&◌,
}
use trilith.Exec.{Result, ok, err, ◌>>=◌ as bind}
use trilith.Python.{Python}
use trilith.Floats.{Floats}
use trilith.Proto.{Tier, ContextItem}
use trilith.Identity.{Principal}
use trilith.Privacy.{filter_from}
use trilith.Database.{Db}
use trilith.Store.{Store, store_query}
use trilith.Ranking.{Governor, rank, estimate_tokens}
use trilith.Ops.{store_for}

-- the items that the caller may see, or all where there is no caller
abbrev pub seen : Python → ℕ → Option Principal → List ContextItem → List ContextItem
seen py now none items = items
seen py now (some p) items = (filter_from py items p now).0

module _ (fl : Floats) (g : Governor fl) where
  -- `if filter_text: …`
  unfoldable pub filtered : String → List ContextItem → List ContextItem
  filtered filter_text items =
      if is_empty filter_text
      then items
      else map (λ (p : ContextItem × fl.F). p.0)
          (filter (λ (p : ContextItem × fl.F). fl.lt g.min_score p.1) (rank fl g items filter_text))

  -- the loop over the items with `spent`
  unfoldable pub spend : ℕ → ℕ → List ContextItem → Result (List ContextItem)
  spend budget spent [] = ok []
  spend budget spent (item ∷ items) =
      let skip = spend budget spent items in
      let take = λ (cost : ℕ). spend budget (spent + cost) items in
      bind (estimate_tokens fl g item) (λ cost.
        if leb (spent + cost) budget then bind (take cost) (λ rest. ok (item ∷ rest)) else skip)

  -- `if budget_tokens > 0: …`; a budget that is not positive is no limit
  unfoldable pub limited_to : ℕ → List ContextItem → Result (List ContextItem)
  limited_to budget items = if ltb 0 budget then spend budget 0 items else ok items

  abbrev pub query_store :
      Python
      → ℕ
      → Option Store
      → String
      → ℕ
      → String
      → Option Principal
      → Db
      → Result (List ContextItem)
  query_store py now none filter_text budget scope principal db = ok []
  query_store py now (some store) filter_text budget scope principal db =
      bind (store_query py store scope principal none db)
        (λ items. limited_to budget (filtered filter_text (seen py now principal items)))

  unfoldable pub query_items :
      Python → ℕ → Tier → String → ℕ → String → Option Principal → Db → Result (List ContextItem)
  query_items py now tier = query_store py now (store_for tier)
