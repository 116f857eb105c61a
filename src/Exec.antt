-- ===== src/Exec.antt =====
-- Python's exceptions as values: what a call returns or raises.
use trilith.Prelude.{
  ℕ, String, ◌≡◌, refl, sym, ap, ◌∙◌, length, Occurs, ◌⊎◌, inl, inr, List, [], ◌∷◌, Bool, true,
  false,
}

-- The exception classes that the program raises, each with the text that a gateway shows.
pub data Error : Type 0 where
  value_error key_error permission_error auth_error integrity_error : String → Error
  -- `HTTPException`, and what `context.abort` of gRPC raises: a status and a text
  http_exception grpc_abort : ℕ → String → Error

pub data Result (A : Type 0) : Type 0 where
  ok : A → Result A
  err : Error → Result A

infixl 5 ◌>>=◌ ◌>>◌
abbrev pub ◌>>=◌ : {A B : Type 0} → Result A → (A → Result B) → Result B
ok a >>= f = f a
err e >>= f = err e

abbrev pub ◌>>◌ : {B : Type 0} → Result (Unit {0}) → Result B → Result B
m >> k = m >>= λ _. k

-- `if not test: raise e`
abbrev pub require : Bool → Error → Result (Unit {0})
require true e = ok tt
require false e = err e

-- `[f(x) for x in xs]` where `f` may raise.
unfoldable pub traverse : {A B : Type 0} → (A → Result B) → List A → Result (List B)
traverse f [] = ok []
traverse f (x ∷ xs) = do y ← f x; ys ← traverse f xs; ok (y ∷ ys)

-- A bind that succeeds has a first step that succeeds.
pub bind-ok :
    {A B : Type 0} (m : Result A) (f : A → Result B) (b : B)
    → (m >>= f) ≡ ok b
    → (a : A) × (m ≡ ok a) × (f a ≡ ok b)
bind-ok (ok a) f b h = (a, refl, h)
bind-ok (err e) f b h = cc

pub traverse-cons :
    {A B : Type 0} (f : A → Result B) (x : A) (xs : List A) (ys : List B)
    → traverse f (x ∷ xs) ≡ ok ys
    → (y : B) × (zs : List B) × (f x ≡ ok y) × (traverse f xs ≡ ok zs) × (ys ≡ y ∷ zs)
unfolding traverse
traverse-cons f x xs ys h =
    let (y, e, k) = bind-ok (f x) (λ y. traverse f xs >>= λ zs. ok (y ∷ zs)) ys h in
    let (zs, e', k') = bind-ok (traverse f xs) (λ zs. ok (y ∷ zs)) ys k in (y, zs, e, e', cc)

pub Result-cases :
    {A : Type 0} (m : Result A) → ((a : A) × (m ≡ ok a)) ⊎ ((e : Error) × (m ≡ err e))
Result-cases (ok a) = inl (a, refl)
Result-cases (err e) = inr (e, refl)

pub ok_inj : {A : Type 0} {a b : A} → ok a ≡ ok b → a ≡ b
ok_inj e = cc

pub err-ok : {A : Type 0} {e : Error} {a : A} → err e ≡ ok a → ⊥
err-ok h = cc

-- A guarded action that succeeds has a guard that holds.
pub require-ok :
    {B : Type 0} (test : Bool) (e : Error) (m : Result B) (b : B)
    → (require test e >> m) ≡ ok b
    → (test ≡ true) × (m ≡ ok b)
require-ok true e m b h = (refl, h)
require-ok false e m b h = cc

-- What a traversal returns comes from an element.
pub Occurs-traverse :
    {A B : Type 0} (f : A → Result B) (xs : List A) (ys : List B) (y : B)
    → traverse f xs ≡ ok ys
    → Occurs y ys
    → (x : A) × Occurs x xs × (f x ≡ ok y)
unfolding traverse
Occurs-traverse f [] [] y h o = absurd o
Occurs-traverse f [] (z ∷ ys) y h o = cc
Occurs-traverse f (x ∷ xs) ys y h o =
    let (z, zs, e, k, q) = traverse-cons f x xs ys h in
    elim (rw q at o) [
      | inl i ↦ (x, inl refl, e ∙ ap ok (sym i))
      | inr i ↦ let (w, j, m) = Occurs-traverse f xs zs y k i in (w, inr j, m)
    ]

pub length-traverse :
    {A B : Type 0} (f : A → Result B) (xs : List A) (ys : List B)
    → traverse f xs ≡ ok ys
    → length ys ≡ length xs
unfolding traverse
length-traverse f [] [] h = refl
length-traverse f [] (y ∷ ys) h = cc
length-traverse f (x ∷ xs) ys h =
    let (z, zs, e, k, q) = traverse-cons f x xs ys h in rw (q, length-traverse f xs zs k)

-- What a traversal reads of an element stands in what it returns.
pub traverse-Occurs :
    {A B : Type 0} (f : A → Result B) (xs : List A) (ys : List B) (x : A)
    → traverse f xs ≡ ok ys
    → Occurs x xs
    → (y : B) × (f x ≡ ok y) × Occurs y ys
traverse-Occurs f [] ys x h o = absurd o
traverse-Occurs f (z ∷ xs) ys x h o =
    let (y, zs, e, k, q) = traverse-cons f z xs ys h in
    elim o [
      | inl i ↦ (y, ap f i ∙ e, rw q (inl refl))
      | inr i ↦ let (w, m, j) = traverse-Occurs f xs zs x k i in (w, m, rw q (inr j))
    ]
