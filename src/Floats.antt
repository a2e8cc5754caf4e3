-- ===== src/Floats.antt =====
-- Python's floating-point numbers, which the program computes with and which are not its own
-- code: an interface of the operations that it uses, and the order laws that it relies on.
use incident_triage.Base.{ℕ, ◌+◌, ◌*◌, ◌/◌, ◌≡◌, Bool, true, false, not, arith, ltb, leb}

pub record Floats : Type 1 where
  pub Float : Type 0
  -- the literal n / 100, such as 0.85 for 85
  pub hundredths : ℕ → Float
  pub add : Float → Float → Float
  pub mul : Float → Float → Float
  pub lt : Float → Float → Bool
  pub le : Float → Float → Bool

-- The comparisons of numbers that are no NaN.
pub record IsOrdered (fl : Floats) : Type 0 where
  pub lt_eq : (a b : fl.Float) → fl.lt a b ≡ not (fl.le b a)
  pub le_total : (a b : fl.Float) → fl.le a b ≡ false → fl.le b a ≡ true
  pub le_trans : (a b c : fl.Float) → fl.le a b ≡ true → fl.le b c ≡ true → fl.le a c ≡ true

-- Exact decimal arithmetic to four places: a value is a number of ten-thousandths.
abbrev pub exact : Floats
exact = record {
  Float = ℕ;
  hundredths = λ n. n * 100;
  add = λ a b. a + b;
  mul = λ a b. a * b / 10000;
  lt = ltb;
  le = leb;
}

pub exact-IsOrdered : IsOrdered exact
exact-IsOrdered = record {
  lt_eq = λ a b. ground arith;
  le_total = λ a b h. ground arith;
  le_trans = λ a b c p q. ground arith;
}
