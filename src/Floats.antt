-- ===== src/Floats.antt =====
-- Python's floats, as a parameter: the arithmetic of scores is IEEE 754, which is not computed here.
-- No proof relies on a law of it.
use trilith.Prelude.{
  ℕ, String, Bool, true, false, ltb, leb, ◌+◌, ◌-◌, ◌*◌, ◌/◌, ◌==◌, nat_eq, decimal,
}

pub record Floats : Type 1 where
  pub F : Type 0
  pub zero : F
  pub half : F
  pub of_nat : ℕ → F
  -- the float of a bit pattern of an embedding
  pub of_bits : ℕ → F
  pub add : F → F → F
  pub sub : F → F → F
  pub mul : F → F → F
  pub div : F → F → F
  pub sqrt : F → F
  -- `math.log(x)`
  pub ln : F → F
  pub lt : F → F → Bool
  pub le : F → F → Bool
  pub eq : F → F → Bool
  pub finite : F → Bool
  -- `== float("-inf")`
  pub neg_inf : F → Bool
  -- `f"{x:.4f}"` and `f"{x}"`
  pub rounded : F → String
  pub shown : F → String

-- An instance: natural numbers.
abbrev pub naturals : Floats
naturals = record {
  F = ℕ;
  zero = 0;
  half = 1;
  of_nat = λ n. n;
  of_bits = λ n. n;
  add = λ a b. a + b;
  sub = λ a b. a - b;
  mul = λ a b. a * b;
  div = λ a b. a / b;
  sqrt = λ a. a;
  ln = λ a. a;
  lt = ltb;
  le = leb;
  eq = λ a b. a == b;
  finite = λ a. true;
  neg_inf = λ a. false;
  rounded = decimal;
  shown = decimal;
}
