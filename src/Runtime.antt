-- ===== src/Runtime.antt =====
-- core/runtime.py: the state that the operations share, and core/ops.py's `atomic_operation`. An
-- operation is an action on that state that returns or raises: what it wrote before a raise is
-- still there after it, unless a transaction rolls it back.
pub mod Keeps
pub mod Settings
use trilith.Prelude.{ℕ, String, List, Option}
use trilith.Exec.{Error, Result, ok, err}
use trilith.Identity.{Principal}
use trilith.Database.{Db, Value}
use trilith.Audit.{record_decision}
use trilith.Events.{EventLog, record_event}

-- The database and the activity log. The stores hold no state of their own.
pub record Runtime : Type 0 where
  pub db : Db
  pub events : EventLog

abbrev pub Action : Type 0 → Type 0
Action A = Runtime → Runtime × Result A

abbrev pub continue : {A B : Type 0} → (A → Action B) → Runtime × Result A → Runtime × Result B
continue f (rt, ok a) = f a rt
continue f (rt, err e) = (rt, err e)

infixl 5 ◌>>=◌ ◌>>◌
abbrev pub ◌>>=◌ : {A B : Type 0} → Action A → (A → Action B) → Action B
◌>>=◌ m f rt = continue f (m rt)

abbrev pub ◌>>◌ : {B : Type 0} → Action (Unit {0}) → Action B → Action B
m >> k = m >>= λ _. k

abbrev pub return : {A : Type 0} → A → Action A
return a rt = (rt, ok a)

abbrev pub raise : {A : Type 0} → Error → Action A
raise e rt = (rt, err e)

-- a read of the database, which may raise
abbrev pub reads : {A : Type 0} → (Db → Result A) → Action A
reads f rt = (rt, f rt.db)

-- a read of the database and the log
abbrev pub sees : {A : Type 0} → (Runtime → A) → Action A
sees f rt = (rt, ok (f rt))

-- a value that may raise where it is computed
abbrev pub value : {A : Type 0} → Result A → Action A
value r rt = (rt, r)

abbrev pub changes : (Db → Db) → Action (Unit {0})
changes f rt = (record rt { db = f rt.db }, ok tt)

-- a statement with a result, such as the number of rows
abbrev pub runs : {A : Type 0} → (Db → Db × A) → Action A
runs f rt = let done = f rt.db in (record rt { db = done.0 }, ok done.1)

abbrev pub logs : (EventLog → EventLog) → Action (Unit {0})
logs f rt = (record rt { events = f rt.events }, ok tt)

-- `rt.audit.record(…)` and `rt.events.record(…)`, at the time `now`
abbrev pub audit :
    ℕ → Option Principal → String → String → List (String × Value) → Action (Unit {0})
audit now p operation decision detail = changes (record_decision now p operation decision detail)

abbrev pub event :
    ℕ → String → Option Principal → String → List (String × Value) → Action (Unit {0})
event now kind p summary detail = logs (record_event now kind p summary detail)

abbrev pub settle : {A : Type 0} → Db → Runtime × Result A → Runtime × Result A
settle db (rt, ok a) = (rt, ok a)
settle db (rt, err e) = (record rt { db = db }, err e)

-- `with backend.transaction()`: where the body raises, the database is as it was before. The log,
-- which is not in the database, is not rolled back.
unfoldable pub atomic_operation : {A : Type 0} → Action A → Action A
atomic_operation m rt = settle rt.db (m rt)
