-- ===== src/Flow/Double.antt =====
-- The operations on `double` that src/flow/flow.h and src/ai use, as an interface: IEEE arithmetic
-- is not modelled. `LawfulOrder` states what a theorem about minima and maxima needs of `<`, which
-- holds of `double` as long as no operand is NaN.
use ips_with_ai.Prelude.{ℕ, ◌+◌, ◌*◌, ◌-◌, ◌/◌, ◌≡◌, Bool, true, false, arith, ltb}

pub record Double (F : Type 0) : Type 0 where
  -- `static_cast<double>` of an unsigned integer, and negation.
  pub of_nat : ℕ → F
  pub negate : F → F
  pub plus : F → F → F
  pub minus : F → F → F
  pub times : F → F → F
  pub over : F → F → F
  pub sqrt : F → F
  -- `a < b`
  pub less : F → F → Bool

pub record LawfulOrder {F : Type 0} (d : Double F) : Type 0 where
  pub irreflexive : (a : F) → d.less a a ≡ false
  pub asymmetric : (a b : F) → d.less a b ≡ true → d.less b a ≡ false
  pub transitive : (a b c : F) → d.less a b ≡ false → d.less b c ≡ false → d.less a c ≡ false

-- Whole numbers, with truncated difference and quotient: an instance for concrete runs.
abbrev pub whole : Double ℕ
whole = record {
  of_nat = λ n. n;
  negate = λ n. 0;
  plus = λ a b. a + b;
  minus = λ a b. a - b;
  times = λ a b. a * b;
  over = λ a b. a / b;
  sqrt = λ a. a;
  less = ltb;
}

whole_irreflexive : (a : ℕ) → ltb a a ≡ false
whole_irreflexive a = ground arith

whole_asymmetric : (a b : ℕ) → ltb a b ≡ true → ltb b a ≡ false
whole_asymmetric a b h = ground arith

whole_transitive : (a b c : ℕ) → ltb a b ≡ false → ltb b c ≡ false → ltb a c ≡ false
whole_transitive a b c h k = ground arith

pub whole-LawfulOrder : LawfulOrder whole
whole-LawfulOrder = record {
  irreflexive = whole_irreflexive;
  asymmetric = whole_asymmetric;
  transitive = whole_transitive;
}
