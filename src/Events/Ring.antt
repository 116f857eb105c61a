-- ===== src/Events/Ring.antt =====
-- The log is the last `capacity` events of everything recorded, numbered without a gap.
use trilith.Prelude.{
  ℕ, zero, suc, ◌+◌, ◌-◌, ◌≤◌, ◌<◌, String, ◌≡◌, refl, ap, ◌∙◌, sym, inl, inr, ◌⊎◌, lt→ltb,
  filter-Occurs, length-filter-le, ◌&&◌, List, [], ◌∷◌, ◌++◌, Option, some, filter, drop, Occurs,
  Occurs-filter, Occurs-drop, length, ltb, arith, length-append, length-drop, string_eq,
}
use native.Mathlib.Nat.{suc-add, le_trans}
use text.Mathlib.TextPositions.{eq_refl}
use text.Mathlib.TextEquality.{eq_iff}
use trilith.Identity.{Principal, normalize_tenant}
use trilith.Database.{Value}
use trilith.Events.{
  Event, EventLog, last_of, record_event, since, clear, of_tenant, newest, event_tenant,
  event_actor,
}

module _ {A : Type 0} where
  drop_append_le : (n : ℕ) (xs ys : List A) → n ≤ length xs → drop n (xs ++ ys) ≡ drop n xs ++ ys
  drop_append_le zero xs ys h = refl
  drop_append_le (suc n) [] ys h = elim h [ ]
  drop_append_le (suc n) (x ∷ xs) ys h = drop_append_le n xs ys (omega arith)

  drop-nil : (m : ℕ) → drop {A = A} m [] ≡ []
  drop-nil zero = refl
  drop-nil (suc m) = refl

  drop-drop : (m n : ℕ) (xs : List A) → drop m (drop n xs) ≡ drop (n + m) xs
  drop-drop m zero xs = ap (λ k. drop k xs) (omega arith)
  drop-drop m (suc n) [] = drop-nil m ∙ sym (drop-nil (suc n + m))
  drop-drop m (suc n) (x ∷ xs) = rw (suc-add n m) (drop-drop m n xs)

  -- Trimming before one more element is appended changes nothing.
  last_of-append :
      (n : ℕ) (xs : List A) (y : A) → last_of n (last_of n xs ++ y ∷ []) ≡ last_of n (xs ++ y ∷ [])
  unfolding last_of
  last_of-append n xs y =
      let d = length xs - n in
      rw (← drop_append_le d xs (y ∷ []) (omega arith)) (
        drop-drop (length (drop d (xs ++ y ∷ [])) - n) d (xs ++ y ∷ [])
        ∙ ap (λ k. drop k (xs ++ y ∷ []))
            (omega (arith, length-drop d (xs ++ y ∷ []), length-append xs (y ∷ []))))

  length-last_of : (n : ℕ) (xs : List A) → length (last_of n xs) ≤ n
  unfolding last_of
  length-last_of n xs = omega (arith, length-drop (length xs - n) xs)

  last_of_short : (n : ℕ) (xs : List A) → length xs ≤ n → last_of n xs ≡ xs
  unfolding last_of
  last_of_short n xs h = let e : length xs - n ≡ 0 = omega arith in rw e

-- The events carry the numbers from `k` on, one after the other.
abbrev pub IsNumbered : ℕ → List Event → Type 0
IsNumbered k [] = Unit
IsNumbered k (e ∷ es) = (e.seq ≡ k) × IsNumbered (suc k) es

IsNumbered-append :
    (k : ℕ) (es : List Event) (e : Event)
    → IsNumbered k es
    → e.seq ≡ k + length es
    → IsNumbered k (es ++ e ∷ [])
IsNumbered-append k [] e h q = (omega arith, tt)
IsNumbered-append k (x ∷ es) e h q = (h.0, IsNumbered-append (suc k) es e h.1 (omega arith))

-- `history` is everything recorded since the log was new or cleared, at number `base`.
pub record Tracks (base : ℕ) (history : List Event) (log : EventLog) : Type 0 where
  pub window : log.events ≡ last_of log.capacity history
  pub numbered : IsNumbered (suc base) history
  pub counter : log.seq ≡ base + length history

pub clear-Tracks : (log : EventLog) → Tracks log.seq [] (clear log)
unfolding clear last_of
clear-Tracks log = record {
  window = sym (drop-nil (0 - log.capacity));
  numbered = tt;
  counter = omega arith;
}

abbrev pub new_event :
    ℕ → String → Option Principal → String → List (String × Value) → EventLog → Event
new_event now kind principal summary detail log = record {
  seq = log.seq + 1;
  at = now;
  kind = kind;
  tenant_id = event_tenant principal;
  actor = event_actor principal;
  summary = summary;
  detail = detail;
}

-- Recording appends one event, numbered next, to the history, and the log stays its last
-- `capacity` events.
pub record_event-Tracks :
    (now : ℕ) (kind : String) (principal : Option Principal) (summary : String)
    (detail : List (String × Value)) (base : ℕ) (history : List Event) (log : EventLog)
    → Tracks base history log
    → Tracks base
        (history ++ new_event now kind principal summary detail log ∷ [])
        (record_event now kind principal summary detail log)
unfolding record_event
record_event-Tracks now kind principal summary detail base history log h =
    let e = new_event now kind principal summary detail log in
    record {
      window = rw h.window (last_of-append log.capacity history e);
      numbered = IsNumbered-append (suc base) history e h.numbered (omega (arith, h.counter));
      counter = omega (arith, h.counter, length-append history (e ∷ []));
    }

-- A log that tracks a history holds no more than its capacity.
pub Tracks-capacity :
    (base : ℕ) (history : List Event) (log : EventLog)
    → Tracks base history log
    → length log.events ≤ log.capacity
Tracks-capacity base history log h = rw h.window (length-last_of log.capacity history)

Occurs-newest : (limit : ℕ) (es : List Event) (e : Event) → Occurs e (newest limit es) → Occurs e es
unfolding last_of
Occurs-newest zero es e o = o
Occurs-newest (suc n) es e o = Occurs-drop (length es - suc n) es e o

newest_all :
    (limit : ℕ) (es : List Event) → (limit ≡ 0) ⊎ (length es ≤ limit) → newest limit es ≡ es
newest_all zero es h = refl
newest_all (suc n) es (inl z) = absurd (omega arith)
newest_all (suc n) es (inr h) = last_of_short (suc n) es h

abbrev matched : ℕ → Option String → EventLog → List Event
matched after tenant log = filter (λ e. ltb after e.seq && of_tenant tenant e) log.events

length-newest : (limit : ℕ) (es : List Event) → (limit ≡ 0) ⊎ (length (newest limit es) ≤ limit)
length-newest zero es = inl refl
length-newest (suc n) es = inr (length-last_of (suc n) es)

-- A tenant reads only events that the log holds, its own, and newer than its cursor. Unless the
-- limit is 0, which means no limit, it reads no more of them than the limit.
pub since-tenant :
    (after : ℕ) (tenant : String) (limit : ℕ) (log : EventLog)
    → ((e : Event)
        → Occurs e (since after (some tenant) limit log)
        → Occurs e log.events × (after < e.seq) × (e.tenant_id ≡ normalize_tenant (some tenant)))
      × ((limit ≡ 0) ⊎ (length (since after (some tenant) limit log) ≤ limit))
unfolding since
since-tenant after tenant limit log = (
  λ e o.
      let (k, t) =
        Occurs-filter (λ e. ltb after e.seq && of_tenant (some tenant) e) log.events e
          (Occurs-newest limit (matched after (some tenant) log) e o) in
      ground (arith, k, t, eq_iff e.tenant_id (normalize_tenant (some tenant))),
  length-newest limit (matched after (some tenant) log),
)

-- Below the limit, or with limit 0, a reader gets every event of its tenant beyond its cursor.
pub since_complete :
    (after : ℕ) (tenant : String) (limit : ℕ) (log : EventLog) (e : Event)
    → (limit ≡ 0) ⊎ (length log.events ≤ limit)
    → Occurs e log.events
    → after < e.seq
    → e.tenant_id ≡ normalize_tenant (some tenant)
    → Occurs e (since after (some tenant) limit log)
unfolding since
since_complete after tenant limit log e l o a t =
    rw (newest_all limit (matched after (some tenant) log) (fits l)) (
      filter-Occurs (λ e. ltb after e.seq && of_tenant (some tenant) e) log.events e o
        (rw (lt→ltb after e.seq a, t, eq_refl)))
  where
    fits :
        (limit ≡ 0) ⊎ (length log.events ≤ limit)
        → (limit ≡ 0) ⊎ (length (matched after (some tenant) log) ≤ limit)
    fits (inl z) = inl z
    fits (inr h) = inr (
        le_trans (length-filter-le (λ e. ltb after e.seq && of_tenant (some tenant) e) log.events)
          h)
