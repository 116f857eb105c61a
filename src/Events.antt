-- ===== src/Events.antt =====
-- core/events.py: the bounded activity log.
pub mod Ring
use trilith.Prelude.{
  ℕ, zero, suc, ◌+◌, ◌-◌, String, Bool, true, ◌&&◌, List, [], ◌∷◌, ◌++◌, Option, none, some, filter,
  drop, length, ltb, ◌==◌, string_eq,
}
use trilith.Identity.{Principal, normalize_tenant, describe}
use trilith.Database.{Value}

pub record Event : Type 0 where
  pub seq : ℕ
  pub at : ℕ
  pub kind : String
  pub tenant_id : String
  pub actor : String
  pub summary : String
  pub detail : List (String × Value)

-- `events` is the deque, oldest first.
pub record EventLog : Type 0 where
  pub capacity : ℕ
  pub events : List Event
  pub seq : ℕ

abbrev pub default_capacity : ℕ
default_capacity = 500

abbrev pub new_log : ℕ → EventLog
new_log capacity = record { capacity = capacity; events = []; seq = 0 }

-- What a deque of `maxlen` n keeps: the last n elements. Also `xs[-n:]` for a positive n.
unfoldable pub last_of {ℓ} : {A : Type ℓ} → ℕ → List A → List A
last_of n xs = drop (length xs - n) xs

abbrev pub event_tenant : Option Principal → String
event_tenant none = normalize_tenant none
event_tenant (some p) = p.tenant_id

abbrev pub event_actor : Option Principal → String
event_actor none = "anonymous"
event_actor (some p) = describe p

unfoldable pub record_event :
    ℕ → String → Option Principal → String → List (String × Value) → EventLog → EventLog
unfolding last_of
record_event now kind principal summary detail log = record log {
  seq = log.seq + 1;
  events = last_of log.capacity (
      log.events
      ++ record {
        seq = log.seq + 1;
        at = now;
        kind = kind;
        tenant_id = event_tenant principal;
        actor = event_actor principal;
        summary = summary;
        detail = detail;
      }
        ∷ []);
}

abbrev of_tenant : Option String → Event → Bool
of_tenant none e = true
of_tenant (some t) e = e.tenant_id == normalize_tenant (some t)

abbrev newest : ℕ → List Event → List Event
newest zero matched = matched
newest (suc n) matched = last_of (suc n) matched

unfoldable pub since : ℕ → Option String → ℕ → EventLog → List Event
unfolding last_of
since after tenant_id limit log =
    newest limit (filter (λ e. ltb after e.seq && of_tenant tenant_id e) log.events)

unfoldable pub clear : EventLog → EventLog
clear log = record log { events = [] }
