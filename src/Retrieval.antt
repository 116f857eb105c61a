-- ===== src/Retrieval.antt =====
-- core/retrieval.py: features and packing. The scorers stand in Scorers.
pub mod Packed
use Prim.Native.String.{compare}
use text.Mathlib.Text.{is_lt}
use trilith.Prelude.{
  ℕ, zero, suc, ◌+◌, ◌-◌, max, String, ◌<>◌, Bool, true, false, not, ◌&&◌, ◌||◌, List, [], ◌∷◌,
  ◌++◌, map, filter, any, length, leb, if◌then◌else◌, ◌==◌, nat_eq, string_eq, take_chars,
  drop_chars, length_chars, any_code,
}
use trilith.Exec.{Result, ok, err, ◌>>=◌}
use trilith.Python.{Python}
use trilith.Floats.{Floats}
use trilith.Proto.{ContextItem}

abbrev between : ℕ → ℕ → ℕ → Bool
between low high c = leb low c && leb c high

-- a character of a script that is written without spaces
unspaced : String → Bool
unspaced word = any_code (λ c. between 0x3400 0x9fff c || between 0x3040 0x30ff c) word

-- the bigrams, the first `n` of them
bigrams : ℕ → String → List String
bigrams zero word = []
bigrams (suc n) word = ("c:" <> take_chars 2 word) ∷ bigrams n (drop_chars 1 word)

word_bigrams : List String → List String
unfolding unspaced bigrams
word_bigrams [] = []
word_bigrams (w ∷ ws) =
    let rest = word_bigrams ws in
    if unspaced w then bigrams (length_chars w - 1) w ++ rest else rest

unfoldable pub features : Python → String → List String
unfolding word_bigrams
features py content =
    let found = py.find_words (py.folded content) in
    map (λ w. "w:" <> w) found ++ word_bigrams found

-- a text set as a list without repetitions
unfoldable pub to_set : List String → List String
to_set [] = []
to_set (s ∷ rest) = let d = to_set rest in if any (λ t. t == s) d then d else s ∷ d

abbrev pub minus : List String → List String → List String
minus a b = filter (λ s. not (any (λ t. t == s) b)) a

module _ (fl : Floats) where
  open fl use {F, zero as nought, half, of_nat, add, mul, div, lt, le, eq}

  -- A candidate with what `pack` keeps about it at its index.
  pub record Entry : Type 0 where
    pub index : ℕ
    pub item : ContextItem
    pub score : F
    pub cost : ℕ
    pub evidence : List String

  abbrev pub positive : F → F
  positive x = if lt nought x then x else nought

  -- The state of the greedy loop.
  pub record Packing : Type 0 where
    pub remaining : List Entry
    pub covered : List String
    pub chosen : List Entry
    pub spent : ℕ

  module _ (query : List String) where
    unfoldable pub gain : Entry → List String → F
    gain e seen =
        add (mul half (positive e.score))
          (div (mul half (of_nat (length (minus e.evidence seen)))) (of_nat (max 1 (length query))))

    -- a tuple comparison of Python: the first difference decides
    abbrev pub greater : List String → Entry → Entry → Bool
    greater seen a b =
        let ga = gain a seen in
        let gb = gain b seen in
        let ra = div ga (of_nat a.cost) in
        let rb = div gb (of_nat b.cost) in
        if not (eq ra rb)
        then lt rb ra
        else if not (eq ga gb)
        then lt gb ga
        else if not (a.item.tenant_id == b.item.tenant_id)
        then is_lt (compare b.item.tenant_id a.item.tenant_id)
        else is_lt (compare b.item.id a.item.id)

    -- `max(…, key=…)`: the first of the greatest
    unfoldable pub best_of : (Entry → Entry → Bool) → Entry → List Entry → Entry
    best_of ahead best [] = best
    best_of ahead best (e ∷ es) = best_of ahead (if ahead e best then e else best) es

    abbrev pub choose : Packing → Entry → Packing
    choose p best = record {
      remaining = filter (λ e. not (e.index == best.index)) p.remaining;
      covered = p.covered ++ minus best.evidence p.covered;
      chosen = p.chosen ++ best ∷ [];
      spent = p.spent + best.cost;
    }

    abbrev pub feasible : ℕ → Packing → List Entry
    feasible budget p = filter (λ e. leb (e.cost + p.spent) budget) p.remaining

    -- The loop `while remaining`. Each round removes an entry, so their number is fuel enough.
    unfoldable pub pack_loop : ℕ → ℕ → Packing → Packing
    pack_loop zero budget p = p
    pack_loop (suc fuel) budget p = elim (feasible budget p) [
      | [] ↦ p
      | e ∷ es ↦
          let best = best_of (greater p.covered) e es in
          let rest = pack_loop fuel budget (choose p best) in
          if le (gain best p.covered) nought then p else rest
    ]

    -- `sum(…)` of the relevance of what is chosen
    unfoldable pub sum_from : F → List Entry → F
    sum_from acc [] = acc
    sum_from acc (e ∷ es) = sum_from (add acc (positive e.score)) es

    abbrev pub utility : Packing → F
    utility p =
        add (mul half (sum_from nought p.chosen))
          (div (mul half (of_nat (length p.covered))) (of_nat (max 1 (length query))))

    abbrev pub better_single : Entry → Entry → Bool
    better_single a b = lt (gain b []) (gain a [])

    -- the best single candidate, if it is worth more than the greedy choice
    unfoldable pub pack_result : List Entry → Packing → List Entry
    pack_result [] p = p.chosen
    pack_result (e ∷ es) p =
        let best = best_of better_single e es in
        if lt (utility p) (gain best []) then best ∷ [] else p.chosen

    abbrev pub start : List Entry → Packing
    start entries = record { remaining = entries; covered = []; chosen = []; spent = 0 }

    unfoldable pub pack_entries : ℕ → List Entry → List Entry
    pack_entries budget entries =
        pack_result (filter (λ e. leb e.cost budget) entries)
          (pack_loop (length entries) budget (start entries))

  -- the parallel lists of `pack`, from index `k` on; a cost may raise
  unfoldable pub entries_from :
      Python
      → List String
      → (ContextItem → Result ℕ)
      → ℕ
      → List (ContextItem × F)
      → Result (List Entry)
  entries_from py query cost k [] = ok []
  entries_from py query cost k ((item, score) ∷ rest) = do
    c ← cost item
    es ← entries_from py query cost (suc k) rest
    ok (
        record {
          index = k;
          item = item;
          score = score;
          cost = max 1 c;
          evidence = filter (λ s. any (λ t. t == s) query) (to_set (features py item.content));
        }
        ∷ es)

  -- `pack(candidates, scores, task, budget, cost)`
  unfoldable pub pack :
      Python → List (ContextItem × F) → String → ℕ → (ContextItem → Result ℕ) → Result (List Entry)
  pack py candidates task budget cost = do
    entries ← entries_from py (to_set (features py task)) cost 0 candidates
    ok (pack_entries (to_set (features py task)) budget entries)
