-- ===== src/Witness/Optimal.antt =====
-- `oracle` of core/lineage.py returns the best choice within the budget, where the comparison of
-- floats is an order.
use mathlib.Core.Bool.{false≢true}
use trilith.Prelude.{
  ℕ, ◌≤◌, ◌≡◌, refl, sym, ◌∙◌, Bool, true, false, List, [], ◌∷◌, length, leb, All, All-at,
  Bool-cases, inl, inr, le→leb, leb→le,
}
use trilith.Prelude.Sort.{IsOrder, not_ahead}
use trilith.Exec.{Result, ok}
use trilith.Floats.{Floats}
use trilith.Witness.{Mask, Selection, WitnessProblem}
use trilith.Witness.Objective.{Cache, Memo, ◌>>=◌, return, value, cost, result}
use trilith.Witness.Completions.{no_choice}
use trilith.Witness.Solver.{better}
use trilith.Witness.Oracle.{kept, challenge, improve, nonempty_choices, exhaustive, oracle}
use trilith.Witness.Caching.{
  IsCoherent, Ensures, return-Ensures, bind-Ensures, value-then, direct_value, Reports,
  result-Ensures,
}
use trilith.Witness.Rounds.{IsChoice}
use trilith.Witness.Solved.{no_choice-IsChoice}
use trilith.Witness.Exhaustive.{choices_complete, choices-whole}

module _ (fl : Floats) (p : WitnessProblem fl) (o : IsOrder (better fl)) where
  open fl use {F}

  -- what `oracle` compares
  abbrev pub worth : Mask → F × ℕ
  worth m = (direct_value fl p m, cost fl p m)

  -- `m` is worth no more than `r`.
  abbrev pub NoBetter : Mask → Mask → Type 0
  NoBetter r m = better fl (worth m) (worth r) ≡ false

  NoBetter-refl : (m : Mask) → NoBetter m m
  NoBetter-refl m = elim (Bool-cases (better fl (worth m) (worth m))) [
    | inr e ↦ e
    | inl e ↦ absurd (false≢true (sym (o.asym (worth m) (worth m) e) ∙ e))
  ]

  NoBetter-trans : (r b m : Mask) → NoBetter r b → NoBetter b m → NoBetter r m
  NoBetter-trans r b m h k = not_ahead (better fl) o (worth r) (worth b) (worth m) h k

  -- A round keeps the better one.
  record IsKept (best m r : Mask) : Type 0 where
    choice : IsChoice fl p r
    no_worse : NoBetter r best
    beats : cost fl p m ≤ p.budget → NoBetter r m

  kept-IsKept :
      (best m : Mask)
      → IsChoice fl p best
      → IsChoice fl p m
      → IsKept best m (kept fl p best m (direct_value fl p m) (direct_value fl p best))
  kept-IsKept best m h k = elim (Bool-cases (better fl (worth m) (worth best))) [
    | inl e ↦ rw e (record {
      choice = k;
      no_worse = o.asym (worth m) (worth best) e;
      beats = λ _. NoBetter-refl m;
    })
    | inr e ↦ rw e (record { choice = h; no_worse = NoBetter-refl best; beats = λ _. e })
  ]

  challenge-Ensures :
      (best m : Mask)
      → length m ≡ length p.evidence
      → IsChoice fl p best
      → Ensures fl p (IsKept best m) (challenge fl p best m)
  challenge-Ensures best m whole h = elim (Bool-cases (leb (cost fl p m) p.budget)) [
    | inr over ↦ rw over (
        return-Ensures fl p (IsKept best m) best (record {
          choice = h;
          no_worse = NoBetter-refl best;
          beats = λ fits. absurd (false≢true (sym over ∙ le→leb (cost fl p m) p.budget fits));
        }))
    | inl fits ↦ rw fits (
        value-then fl p (IsKept best m) m
          (λ v. value fl p best >>= λ w. return (kept fl p best m v w))
          (λ v ev.
            value-then fl p (IsKept best m) best (λ w. return (kept fl p best m v w))
              (λ w ew. return-Ensures fl p (IsKept best m) (kept fl p best m v w) (
                rw (ev, ew)
                  (kept-IsKept best m h
                    (record { whole = whole; fits = leb→le (cost fl p m) p.budget fits }))))))
  ]

  -- The best of a list and a start.
  record IsBest (start : Mask) (ms : List Mask) (r : Mask) : Type 0 where
    choice : IsChoice fl p r
    no_worse : NoBetter r start
    beats : All (λ m. cost fl p m ≤ p.budget → NoBetter r m) ms

  improve-Ensures :
      (best : Mask) (ms : List Mask)
      → All (λ m. length m ≡ length p.evidence) ms
      → IsChoice fl p best
      → Ensures fl p (IsBest best ms) (improve fl p best ms)
  unfolding improve
  improve-Ensures best [] whole h =
      return-Ensures fl p (IsBest best []) best
        (record { choice = h; no_worse = NoBetter-refl best; beats = tt })
  improve-Ensures best (m ∷ ms) whole h =
      bind-Ensures fl p (IsKept best m) (IsBest best (m ∷ ms)) (challenge fl p best m)
        (λ b. improve fl p b ms) (challenge-Ensures best m whole.0 h)
        (λ b k. after (improve fl p b ms) b k (improve-Ensures b ms whole.1 k.choice))
    where
      after :
          (next : Memo F Mask) (b : Mask)
          → IsKept best m b
          → Ensures fl p (IsBest b ms) next
          → Ensures fl p (IsBest best (m ∷ ms)) next
      after next b k e = record {
        run = λ cache coherent.
            let (d, i) = e.run cache coherent in
            let r = (next cache).1 in
            (
              d,
              record {
                choice = i.choice;
                no_worse = NoBetter-trans r b best i.no_worse k.no_worse;
                beats = (λ fits. NoBetter-trans r b m i.no_worse (k.beats fits), i.beats);
              },
            );
      }

  -- A selection that reports a choice within the budget, than which none is better.
  pub record IsOptimal (m : Mask) (s : Selection fl) : Type 0 where
    pub choice : IsChoice fl p m
    pub reports : Reports fl p m s
    pub beats : (n : Mask) → IsChoice fl p n → NoBetter m n

  best-IsOptimal :
      (m : Mask) (s : Selection fl)
      → IsBest (no_choice p.evidence) (nonempty_choices fl p) m
      → Reports fl p m s
      → IsOptimal m s
  best-IsOptimal m s h k = record {
    choice = h.choice;
    reports = k;
    beats = λ n c. elim (choices_complete p.evidence n c.whole) [
      | inl e ↦ rw e h.no_worse
      | inr i ↦
          All-at (λ m'. cost fl p m' ≤ p.budget → NoBetter m m') (nonempty_choices fl p) n h.beats i
            c.fits
    ];
  }

  abbrev pub IsOracle : Result (Selection fl) → Type 0
  IsOracle r = (s : Selection fl) × (r ≡ ok s) × (m : Mask) × IsOptimal m s

  exhaustive-Ensures : (small : Bool) → small ≡ true → Ensures fl p IsOracle (exhaustive fl p small)
  exhaustive-Ensures false h = cc
  exhaustive-Ensures true h =
      let nothing = no_choice p.evidence in
      bind-Ensures fl p (IsBest nothing (nonempty_choices fl p)) IsOracle
        (improve fl p nothing (nonempty_choices fl p))
        (λ best. result fl p best >>= λ s. return (ok s))
        (improve-Ensures nothing (nonempty_choices fl p) (choices-whole p.evidence)
          (no_choice-IsChoice fl p))
        (λ best k.
          bind-Ensures fl p (Reports fl p best) IsOracle (result fl p best) (λ s. return (ok s))
            (result-Ensures fl p best)
            (λ s r. return-Ensures fl p IsOracle (ok s) (s, refl, best, best-IsOptimal best s k r)))

  -- On at most 18 pieces of evidence, `oracle` returns, from any coherent cache, a selection that
  -- reports a choice within the budget, and no choice within the budget is better, by the value and
  -- then the lower cost, where that comparison is a strict weak order.
  pub oracle-IsOptimal :
      (cache : Cache F)
      → IsCoherent fl p cache
      → length p.evidence ≤ 18
      → IsOracle (oracle fl p cache).1
  unfolding oracle
  oracle-IsOptimal cache coherent small =
      ((exhaustive-Ensures (leb (length p.evidence) 18) (le→leb (length p.evidence) 18 small)).run
        cache coherent).1
