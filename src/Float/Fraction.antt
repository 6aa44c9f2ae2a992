-- ===== src/Float/Fraction.antt =====
-- Fractions with a positive denominator, as an instance of the float64 interface: the value at
-- which the examples run. The pair (a, b) stands for a / (b + 1).
use native.Mathlib.Nat.{lt_of_mul-lt-mul_left, mul-lt-mul_of_pos_right}
use shield_core.Prelude.{ℕ, suc, ◌-◌, ◌*◌, ◌<◌, ◌≡◌, ltb, arith}
use shield_core.Float.{Float64, IsOrdered}

abbrev pub fraction : Float64
fraction = record {
  Carrier = ℕ × ℕ;
  of_u64 = λ n. (n, 0);
  div = λ x y. (x.0 * suc y.1, suc x.1 * y.0 - 1);
  mul = λ x y. (x.0 * y.0, suc x.1 * suc y.1 - 1);
  lit = λ n d. (n, d - 1);
  flt = λ x y. ltb (x.0 * suc y.1) (y.0 * suc x.1);
}

cross_trans :
    (a b c d e f : ℕ) → a * suc d < c * suc b → c * suc f < e * suc d → a * suc f < e * suc b
cross_trans a b c d e f h k = lt_of_mul-lt-mul_left (suc d) (
    omega (
      arith,
      mul-lt-mul_of_pos_right {k = suc f} h (omega arith),
      mul-lt-mul_of_pos_right {k = suc b} k (omega arith),
    ))

pred_form : (d : ℕ) → 0 < d → suc (d - 1) ≡ d
pred_form d h = omega arith

pub fraction-IsOrdered : IsOrdered fraction
fraction-IsOrdered = record {
  irrefl = λ x. ground arith;
  trans = λ x y z h k. ground (arith, cross_trans x.0 x.1 y.0 y.1 z.0 z.1);
  lit_lt = λ a b c d hb hd small h. rw (pred_form b hb, pred_form d hd) (ground arith);
}
