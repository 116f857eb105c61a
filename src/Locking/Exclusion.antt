-- ===== src/Locking/Exclusion.antt =====
-- The lock of core/threadsafe_backend.py: only its owner changes the database, and threads that have
-- instructions left are never all stuck.
use trilith.Prelude.{
  ℕ, zero, suc, ◌≤◌, ◌≡◌, refl, sym, ap, false, List, [], ◌∷◌, none, some, if◌then◌else◌, ◌==◌,
  nat_eq, inl, inr, Bool-cases, eq_self, eq_of_beq, some_inj, arith,
}
use trilith.Python.{Python}
use trilith.Database.{Db}
use trilith.Locking.{
  Part, method, transaction, statement, Parts, done, part, Call, call_method, call_transaction,
  Instruction, enter, run, leave, part_then, parts_then, call_then, instructions, RLock, free,
  owned, acquire, release, System, advance, Step, enters, runs, leaves, Reach, begin, later,
}

-- how often a thread has acquired the lock and not released it
abbrev held : RLock → ℕ → ℕ
held free t = 0
held (owned u again) t = if u == t then suc again else 0

abbrev less : ℕ → ℕ
less zero = 0
less (suc n) = n

-- What a thread has left fits the number of times that it holds the lock.
abbrev Balanced : ℕ → List Instruction → Type 0
Balanced d [] = d ≡ 0
Balanced d (enter ∷ rest) = Balanced (suc d) rest
Balanced d (run f ∷ rest) = (1 ≤ d) × Balanced d rest
Balanced d (leave ∷ rest) = (1 ≤ d) × Balanced (less d) rest

module _ (py : Python) where
  mutual
    unfolding part_then parts_then

    Balanced-part :
        (p : Part) (d : ℕ) (rest : List Instruction)
        → Balanced (suc d) rest
        → Balanced (suc d) (part_then py p rest)
    Balanced-part (method m) d rest h = (omega arith, (omega arith, h))
    Balanced-part (transaction ps) d rest h =
        Balanced-parts ps (suc d) (leave ∷ rest) (omega arith, h)
    Balanced-part (statement f) d rest h = (omega arith, h)

    Balanced-parts :
        (ps : Parts) (d : ℕ) (rest : List Instruction)
        → Balanced (suc d) rest
        → Balanced (suc d) (parts_then py ps rest)
    Balanced-parts done d rest h = h
    Balanced-parts (part p ps) d rest h =
        Balanced-part p d (parts_then py ps rest) (Balanced-parts ps d rest h)

  instructions-Balanced : (cs : List Call) → Balanced 0 (instructions py cs)
  unfolding instructions call_then
  instructions-Balanced [] = refl
  instructions-Balanced (call_method m ∷ cs) =
      (omega arith, (omega arith, instructions-Balanced cs))
  instructions-Balanced (call_transaction ps ∷ cs) =
      Balanced-parts ps 0 (leave ∷ instructions py cs) (omega arith, instructions-Balanced cs)

none-some : {A : Type 0} {a : A} → none ≡ some a → ⊥
none-some h = cc

acquire-held : (t : ℕ) (k l : RLock) → acquire t k ≡ some l → held l t ≡ suc (held k t)
unfolding acquire
acquire-held t free l h = rw (sym (some_inj h)) (ground arith)
acquire-held t (owned u again) l h = elim (Bool-cases (u == t)) [
  | inl e ↦ rw (sym (some_inj (rw e at h)), e) refl
  | inr n ↦ absurd (none-some (rw n at h))
]

acquire-others :
    (t u : ℕ) (k l : RLock) → acquire t k ≡ some l → (u == t) ≡ false → held l u ≡ held k u
unfolding acquire
acquire-others t u free l h n = rw (sym (some_inj h)) (ground (arith, n))
acquire-others t u (owned v again) l h n = elim (Bool-cases (v == t)) [
  | inl e ↦ rw (sym (some_inj (rw e at h))) (ground (arith, e, n))
  | inr m ↦ absurd (none-some (rw m at h))
]

release-held : (t : ℕ) (k l : RLock) → release t k ≡ some l → held k t ≡ suc (held l t)
unfolding release
release-held t free l h = cc
release-held t (owned u zero) l h = elim (Bool-cases (u == t)) [
  | inl e ↦ rw (sym (some_inj (rw e at h)), e) refl
  | inr n ↦ absurd (none-some (rw n at h))
]
release-held t (owned u (suc again)) l h = elim (Bool-cases (u == t)) [
  | inl e ↦ rw (sym (some_inj (rw e at h)), e) refl
  | inr n ↦ absurd (none-some (rw n at h))
]

release-others :
    (t u : ℕ) (k l : RLock) → release t k ≡ some l → (u == t) ≡ false → held l u ≡ held k u
unfolding release
release-others t u free l h n = cc
release-others t u (owned v zero) l h n = elim (Bool-cases (v == t)) [
  | inl e ↦ rw (sym (some_inj (rw e at h))) (ground (arith, e, n))
  | inr m ↦ absurd (none-some (rw m at h))
]
release-others t u (owned v (suc again)) l h n = elim (Bool-cases (v == t)) [
  | inl e ↦ rw (sym (some_inj (rw e at h))) (ground (arith, e, n))
  | inr m ↦ absurd (none-some (rw m at h))
]

-- What every thread has left fits the lock.
abbrev Fits : System → Type 0
Fits s = (u : ℕ) → Balanced (held s.lock u) (s.remaining u)

-- An instruction of one thread leaves the others' as they were.
advance-Fits :
    (t : ℕ) (k l : RLock) (rest : List Instruction) (remaining : ℕ → List Instruction)
    → ((u : ℕ) → Balanced (held k u) (remaining u))
    → Balanced (held l t) rest
    → ((u : ℕ) → (u == t) ≡ false → held l u ≡ held k u)
    → (u : ℕ) → Balanced (held l u) (advance t rest remaining u)
advance-Fits t k l rest remaining h b o u = elim (Bool-cases (u == t)) [
  | inl e ↦ rw (e, eq_of_beq u t e) b
  | inr n ↦ rw (n, o u n) (h u)
]

Step-Fits : (s s' : System) → Fits s → Step s s' → Fits s'
Step-Fits s _ h (enters t rest l e a) =
    advance-Fits t s.lock l rest s.remaining h (rw (acquire-held t s.lock l a) (rw e at (h t)))
      (λ u n. acquire-others t u s.lock l a n)
Step-Fits s _ h (runs t f rest e) =
    advance-Fits t s.lock s.lock rest s.remaining h (rw e at (h t)).1 (λ u n. refl)
Step-Fits s _ h (leaves t rest l e r) =
    let (_, b) = rw e at (h t) in
    advance-Fits t s.lock l rest s.remaining h (rw (release-held t s.lock l r) at b)
      (λ u n. release-others t u s.lock l r n)

Reach-Fits :
    (py : Python) (db : Db) (calls : ℕ → List Call) (s : System) → Reach py db calls s → Fits s
Reach-Fits py db calls _ begin = λ u. instructions-Balanced py (calls u)
Reach-Fits py db calls _ (later s s' r q) = Step-Fits s s' (Reach-Fits py db calls s r) q

-- the thread owns the lock
held-owned : (k : RLock) (t : ℕ) → 1 ≤ held k t → (again : ℕ) × (k ≡ owned t again)
held-owned free t h = absurd (omega (arith, h))
held-owned (owned u again) t h = elim (Bool-cases (u == t)) [
  | inl e ↦ (again, ap (λ v. owned v again) (eq_of_beq u t e))
  | inr n ↦ absurd (omega (arith, rw n at h))
]

-- The database is as it was, or the owner of the lock has run its next statement.
pub data IsOwners (s s' : System) : Type 0 where
  unchanged : s'.db ≡ s.db → IsOwners s s'
  ran :
      (t again : ℕ) (f : Db → Db) (rest : List Instruction)
      → s.lock ≡ owned t again
      → s.remaining t ≡ run f ∷ rest
      → s'.db ≡ f s.db
      → IsOwners s s'

-- In a state that threads calling the wrapper reach in any order, a step changes the database only
-- where the thread that takes it owns the lock, and then by its next statement.
pub Step-IsOwners :
    (py : Python) (db : Db) (calls : ℕ → List Call) (s s' : System)
    → Reach py db calls s
    → Step s s'
    → IsOwners s s'
Step-IsOwners py db calls s _ r (enters t rest l e a) = unchanged refl
Step-IsOwners py db calls s _ r (leaves t rest l e a) = unchanged refl
Step-IsOwners py db calls s _ r (runs t f rest e) =
    let (again, o) = held-owned s.lock t (rw e at (Reach-Fits py db calls s r t)).0 in
    ran t again f rest o e refl

step_of_free :
    (s : System) (t : ℕ) (i : Instruction) (rest : List Instruction)
    → s.lock ≡ free
    → Balanced 0 (i ∷ rest)
    → s.remaining t ≡ i ∷ rest
    → (s' : System) × Step s s'
unfolding acquire
step_of_free s t enter rest q h e = (_, enters t rest (owned t zero) e (rw q refl))
step_of_free s t (run f) rest q h e = absurd (omega (arith, h.0))
step_of_free s t leave rest q h e = absurd (omega (arith, h.0))

step_of_owner :
    (s : System) (u again : ℕ) (left : List Instruction)
    → s.lock ≡ owned u again
    → Balanced (suc again) left
    → s.remaining u ≡ left
    → (s' : System) × Step s s'
unfolding acquire release
step_of_owner s u again [] q h e = absurd (omega (arith, h))
step_of_owner s u again (enter ∷ rest) q h e =
    (_, enters u rest (owned u (suc again)) e (rw (q, eq_self u) refl))
step_of_owner s u again (run f ∷ rest) q h e = (_, runs u f rest e)
step_of_owner s u zero (leave ∷ rest) q h e = (_, leaves u rest free e (rw (q, eq_self u) refl))
step_of_owner s u (suc again) (leave ∷ rest) q h e =
    (_, leaves u rest (owned u again) e (rw (q, eq_self u) refl))

-- In a state that threads calling the wrapper reach in any order, where some thread has an
-- instruction left, some thread can take a step.
pub Reach-Step :
    (py : Python) (db : Db) (calls : ℕ → List Call) (s : System) (t : ℕ) (i : Instruction)
    (rest : List Instruction)
    → Reach py db calls s
    → s.remaining t ≡ i ∷ rest
    → (s' : System) × Step s s'
Reach-Step py db calls s t i rest r e = by_lock s.lock refl
  where
    fits : Fits s
    fits = Reach-Fits py db calls s r

    by_lock : (k : RLock) → k ≡ s.lock → (s' : System) × Step s s'
    by_lock free q = step_of_free s t i rest (sym q) (rw (e, sym q) at (fits t)) e
    by_lock (owned u again) q =
        step_of_owner s u again (s.remaining u) (sym q) (rw (sym q, eq_self u) at (fits u)) refl
