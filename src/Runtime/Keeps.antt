-- ===== src/Runtime/Keeps.antt =====
-- Properties of actions that follow from those of their steps.
use trilith.Prelude.{◌≡◌, refl}
use trilith.Exec.{Error, Result, ok, err}
use trilith.Database.{Db}
use trilith.Runtime.{Runtime, Action, continue, settle, ◌>>=◌, atomic_operation}

settle-err :
    {A : Type 0} (db : Db) (x : Runtime × Result A) (e : Error)
    → (settle db x).1 ≡ err e
    → (settle db x).0.db ≡ db
settle-err db (rt, ok a) e h = cc
settle-err db (rt, err e') e h = refl

-- An operation in a transaction that raises leaves the database as it was.
pub atomic_operation-err :
    {A : Type 0} (m : Action A) (rt : Runtime) (e : Error)
    → (atomic_operation m rt).1 ≡ err e
    → (atomic_operation m rt).0.db ≡ rt.db
unfolding atomic_operation
atomic_operation-err m rt e h = settle-err rt.db (m rt) e h

continue-ok :
    {A B : Type 0} (f : A → Action B) (x : Runtime × Result A) (b : B)
    → (continue f x).1 ≡ ok b
    → (a : A) × (x.1 ≡ ok a) × ((f a x.0).1 ≡ ok b)
continue-ok f (rt, ok a) b h = (a, refl, h)
continue-ok f (rt, err e) b h = cc

-- An action that returns has a first step that returns.
pub bind-returns :
    {A B : Type 0} (m : Action A) (f : A → Action B) (rt : Runtime) (b : B)
    → ((m >>= f) rt).1 ≡ ok b
    → (a : A) × ((m rt).1 ≡ ok a) × ((f a (m rt).0).1 ≡ ok b)
bind-returns m f rt b h = continue-ok f (m rt) b h

-- The action relates the database before to that after, whether it returns or raises.
pub record Keeps {A : Type 0} (R : Db → Db → Type 0) (m : Action A) : Type 0 where
  pub related : (rt : Runtime) → R rt.db (m rt).0.db

-- A relation between databases that holds of equal ones and composes.
module _ (R : Db → Db → Type 0) (same : (a : Db) → R a a)
    (both : (a b c : Db) → R a b → R b c → R a c) where
  continue_related :
      {A B : Type 0} (f : A → Action B) (db : Db) (x : Runtime × Result A)
      → ((a : A) → Keeps R (f a))
      → R db x.0.db
      → R db (continue f x).0.db
  continue_related f db (rt, ok a) k h = both db rt.db (f a rt).0.db h ((k a).related rt)
  continue_related f db (rt, err e) k h = h

  pub bind-Keeps :
      {A B : Type 0} (m : Action A) (f : A → Action B)
      → Keeps R m
      → ((a : A) → Keeps R (f a))
      → Keeps R (m >>= f)
  bind-Keeps m f h k = record { related = λ rt. continue_related f rt.db (m rt) k (h.related rt) }

  settle_related :
      {A : Type 0} (db : Db) (x : Runtime × Result A) → R db x.0.db → R db (settle db x).0.db
  settle_related db (rt, ok a) h = h
  settle_related db (rt, err e) h = same db

  pub atomic_operation-Keeps :
      {A : Type 0} (m : Action A) → Keeps R m → Keeps R (atomic_operation m)
  unfolding atomic_operation
  atomic_operation-Keeps m h = record { related = λ rt. settle_related rt.db (m rt) (h.related rt) }
