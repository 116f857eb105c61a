-- ===== src/Examples/Threads.antt =====
-- Two threads at the shared database: one in a transaction, one with a single call.
use trilith.Prelude.{ℕ, refl, List, [], ◌∷◌, some, if◌then◌else◌, ◌==◌, nat_eq}
use trilith.Python.{plain_python}
use trilith.Locking.{
  delete as delete_call, list_tenants, method, done, part, Call, call_method, call_transaction,
  Instruction, enter, run, leave, perform, parts_then, part_then, call_then, instructions, owned,
  acquire, System, advance, Step, enters, runs, start, Reach, begin, later,
}
use trilith.Locking.Exclusion.{IsOwners, Step-IsOwners, Reach-Step}
use trilith.Examples.Data.{tables}

abbrev calls : ℕ → List Call
calls t =
    if t == 0
    then call_transaction (part (method (delete_call "n1" (some "acme"))) done) ∷ []
    else call_method list_tenants ∷ []

abbrev removal : List Instruction
removal =
    run (λ db. (perform plain_python (delete_call "n1" (some "acme")) db).0) ∷ leave ∷ leave ∷ []

-- the first thread has the lock, and has it again for the call in its transaction
abbrev first_in : System
first_in = record (start plain_python tables calls) {
  lock = owned 0 0;
  remaining = advance 0 (enter ∷ removal) (start plain_python tables calls).remaining;
}

abbrev first_again : System
first_again = record first_in { lock = owned 0 1; remaining = advance 0 removal first_in.remaining }

abbrev removed : System
removed = record first_again {
  db = (perform plain_python (delete_call "n1" (some "acme")) tables).0;
  remaining = advance 0 (leave ∷ leave ∷ []) first_again.remaining;
}

first_again-Reach : Reach plain_python tables calls first_again
unfolding instructions call_then parts_then part_then acquire
first_again-Reach =
    later first_in first_again
      (later (start plain_python tables calls) first_in begin
        (enters 0 (enter ∷ removal) (owned 0 0) refl refl))
      (enters 0 removal (owned 0 1) refl refl)

removed-Step : Step first_again removed
removed-Step =
    runs 0 (λ db. (perform plain_python (delete_call "n1" (some "acme")) db).0) (leave ∷ leave ∷ [])
      refl

Step-IsOwners_example : IsOwners first_again removed
Step-IsOwners_example =
    Step-IsOwners plain_python tables calls first_again removed first_again-Reach removed-Step

-- the second thread waits, and the first one can go on
Reach-Step_example : (s' : System) × Step first_again s'
unfolding instructions call_then
Reach-Step_example =
    Reach-Step plain_python tables calls first_again 1 enter
      (run (λ db. (perform plain_python list_tenants db).0) ∷ leave ∷ []) first_again-Reach refl
