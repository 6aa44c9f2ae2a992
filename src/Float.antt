-- ===== src/Float.antt =====
-- float64 as the program uses it (src/control_plane/main.go): conversion from integers, division,
-- multiplication, literals and the order test. The type and its operations are parameters.
pub mod Fraction
use shield_core.Prelude.{◌^◌, ℕ, Bool, true, false, ◌≡◌, ◌*◌, ◌<◌}

pub record Float64 : Type 1 where
  pub Carrier : Type 0
  -- `float64(n)` for an unsigned integer
  pub of_u64 : ℕ → Carrier
  pub div : Carrier → Carrier → Carrier
  pub mul : Carrier → Carrier → Carrier
  -- the literal n / d, with d positive
  pub lit : ℕ → ℕ → Carrier
  -- the test a < b
  pub flt : Carrier → Carrier → Bool

-- What the program relies on: on values that are no NaN the test is a strict order, and it
-- orders the literals as the fractions they stand for.
pub record IsOrdered (F : Float64) : Type 0 where
  pub irrefl : (x : F.Carrier) → F.flt x x ≡ false
  pub trans : (x y z : F.Carrier) → F.flt x y ≡ true → F.flt y z ≡ true → F.flt x z ≡ true
  -- two fractions of numbers below 2^16 lie further apart than a float64 rounds
  pub lit_lt :
      (a b c d : ℕ)
      → 0 < b
      → 0 < d
      → (a < 2 ^ 16) × (b < 2 ^ 16) × (c < 2 ^ 16) × (d < 2 ^ 16)
      → a * d < c * b
      → F.flt (F.lit a b) (F.lit c d) ≡ true
