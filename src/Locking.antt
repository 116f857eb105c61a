-- ===== src/Locking.antt =====
-- core/threadsafe_backend.py: one reentrant lock around the backend, under threads in any order.
pub mod Exclusion
use trilith.Prelude.{
  ℕ, zero, suc, String, ◌≡◌, Bool, true, false, List, [], ◌∷◌, Option, none, some, if◌then◌else◌,
  ◌==◌, nat_eq,
}
use trilith.Exec.{Result}
use trilith.Python.{Python}
use trilith.Proto.{Tier, Scope, ContextItem}
use trilith.Database.{Db}
use trilith.Database.Backend.{StoredItem}
use trilith.Database.Search.{Search}
use trilith.Database.Backend as Backend
use trilith.Database.Search as Searching

-- the methods of ThreadSafeBackend, with their arguments
pub data Method : Type 0 where
  save : ContextItem → Option String → Method
  get : String → Option String → Method
  query : Tier → Option Scope → Option String → Option String → Bool → Option ℕ → Method
  stored : String → Option String → Method
  search_items : (String → String → Bool) → Search → Method
  list_subtasks : Option String → Method
  lineage : String → String → Method
  count : Tier → Option String → Bool → Method
  delete : String → Option String → Method
  delete_by_scope : Scope → Option Tier → Option String → String → String → Method
  delete_tenant : String → Method
  purge_expired : ℕ → Option String → Method
  list_tenants : Method

abbrev pub Returned : Method → Type 0
Returned (save item subtask_id) = Bool
Returned (get id tenant_id) = Result (Option ContextItem)
Returned (query tier scope subtask_id tenant_id include_global limit) = Result (List ContextItem)
Returned (stored id tenant_id) = Result (Option StoredItem)
Returned (search_items like q) = Result (List StoredItem × ℕ)
Returned (list_subtasks tenant_id) = List (String × ℕ)
Returned (lineage id tenant_id) = List String
Returned (count tier tenant_id include_global) = ℕ
Returned (delete id tenant_id) = Bool
Returned (delete_by_scope scope tier tenant_id owner_id session_id) = ℕ
Returned (delete_tenant tenant_id) = ℕ
Returned (purge_expired now tenant_id) = ℕ
Returned list_tenants = List String

-- `return self._backend.<method>(…)`
unfoldable pub perform : Python → (m : Method) → Db → Db × Returned m
perform py (save item subtask_id) db = (Backend.save item subtask_id db, true)
perform py (get id tenant_id) db = (db, Backend.get id tenant_id db)
perform py (query tier scope subtask_id tenant_id include_global limit) db =
    (db, Backend.query tier scope subtask_id tenant_id include_global limit db)
perform py (stored id tenant_id) db = (db, Backend.stored id tenant_id db)
perform py (search_items like q) db = (db, Searching.search py like q db)
perform py (list_subtasks tenant_id) db = (db, Backend.list_subtasks tenant_id db)
perform py (lineage id tenant_id) db = (db, Backend.lineage id tenant_id db)
perform py (count tier tenant_id include_global) db =
    (db, Backend.count tier tenant_id include_global db)
perform py (delete id tenant_id) db = Backend.delete id tenant_id db
perform py (delete_by_scope scope tier tenant_id owner_id session_id) db =
    Backend.delete_by_scope scope tier tenant_id owner_id session_id db
perform py (delete_tenant tenant_id) db = Backend.delete_tenant tenant_id db
perform py (purge_expired now tenant_id) db = Backend.purge_expired now tenant_id db
perform py list_tenants db = (db, Backend.list_tenants db)

-- A thread's program: calls of the wrapper. The body of a transaction may also run statements on the
-- connection itself, as the audit log and the savepoint do.
mutual
  pub data Part : Type 0 where
    method : Method → Part
    transaction : Parts → Part
    statement : (Db → Db) → Part

  pub data Parts : Type 0 where
    done : Parts
    part : Part → Parts → Parts

pub data Call : Type 0 where
  call_method : Method → Call
  call_transaction : Parts → Call

-- What a thread does next: acquire the lock, run a statement, or release the lock.
pub data Instruction : Type 0 where
  enter : Instruction
  run : (Db → Db) → Instruction
  leave : Instruction

module _ (py : Python) where
  -- `with self._lock: …`, before the instructions that follow
  abbrev pub locked : Method → List Instruction → List Instruction
  locked m rest = enter ∷ run (λ db. (perform py m db).0) ∷ leave ∷ rest

  unfoldable mutual
    pub part_then : Part → List Instruction → List Instruction
    part_then (method m) rest = locked m rest
    part_then (transaction ps) rest = enter ∷ parts_then ps (leave ∷ rest)
    part_then (statement f) rest = run f ∷ rest

    pub parts_then : Parts → List Instruction → List Instruction
    parts_then done rest = rest
    parts_then (part p ps) rest = part_then p (parts_then ps rest)

  unfoldable pub call_then : Call → List Instruction → List Instruction
  call_then (call_method m) rest = locked m rest
  call_then (call_transaction ps) rest = enter ∷ parts_then ps (leave ∷ rest)

  unfoldable pub instructions : List Call → List Instruction
  instructions [] = []
  instructions (c ∷ cs) = call_then c (instructions cs)

-- A `threading.RLock`: free, or acquired by a thread and so many times again.
pub data RLock : Type 0 where
  free : RLock
  owned : ℕ → ℕ → RLock

unfoldable pub acquire : ℕ → RLock → Option RLock
acquire t free = some (owned t zero)
acquire t (owned u again) = if u == t then some (owned u (suc again)) else none

unfoldable pub release : ℕ → RLock → Option RLock
release t free = none
release t (owned u zero) = if u == t then some free else none
release t (owned u (suc again)) = if u == t then some (owned u again) else none

pub record System : Type 0 where
  pub lock : RLock
  pub db : Db
  pub remaining : ℕ → List Instruction

-- the thread `t` has `rest` left
abbrev pub advance : ℕ → List Instruction → (ℕ → List Instruction) → ℕ → List Instruction
advance t rest remaining u = if u == t then rest else remaining u

-- One instruction of one thread.
pub data Step (s : System) : System → Type 0 where
  enters :
      (t : ℕ) (rest : List Instruction) (l : RLock)
      → s.remaining t ≡ enter ∷ rest
      → acquire t s.lock ≡ some l
      → Step s (record { lock = l; db = s.db; remaining = advance t rest s.remaining })
  runs :
      (t : ℕ) (f : Db → Db) (rest : List Instruction)
      → s.remaining t ≡ run f ∷ rest
      → Step s (record { lock = s.lock; db = f s.db; remaining = advance t rest s.remaining })
  leaves :
      (t : ℕ) (rest : List Instruction) (l : RLock)
      → s.remaining t ≡ leave ∷ rest
      → release t s.lock ≡ some l
      → Step s (record { lock = l; db = s.db; remaining = advance t rest s.remaining })

-- The lock is free, and each thread has its calls before it.
abbrev pub start : Python → Db → (ℕ → List Call) → System
start py db calls = record { lock = free; db = db; remaining = λ t. instructions py (calls t) }

pub data Reach (py : Python) (db : Db) (calls : ℕ → List Call) : System → Type 0 where
  begin : Reach py db calls (start py db calls)
  later : (s s' : System) → Reach py db calls s → Step s s' → Reach py db calls s'
