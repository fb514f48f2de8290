-- ===== src/Float.antt =====
-- All that internal/gateway/gatewayresources/resources.go does with `float64`, and what is known of
-- its rounding: numbers of 53 binary digits, not negative, and far from the limits of the exponent.
use hooshi_xagent.Base.{
  ℕ, Bool, true, ◌≡◌, ◌≤◌, ◌<◌, ◌+◌, ◌-◌, ◌*◌, ◌/◌, ◌^◌, ◌↔◌, ltb, arith, refl, ltb→lt, lt→ltb,
}

pub record Float64 (W : Type 0) : Type 0 where
  pub of_int : ℕ → W  -- `float64(n)`
  pub seconds : ℕ → W  -- `Duration.Seconds` of so many nanoseconds
  -- `x + y * z`; the language lets a compiler round it once or twice.
  pub plus_product : W → W → W → W
  pub minus : W → W → W
  pub lt : W → W → Bool

abbrev pub of_int : {W : Type 0} ⦃f : Float64 W⦄ → ℕ → W
of_int ⦃f⦄ = f.of_int

abbrev pub seconds : {W : Type 0} ⦃f : Float64 W⦄ → ℕ → W
seconds ⦃f⦄ = f.seconds

abbrev pub plus_product : {W : Type 0} ⦃f : Float64 W⦄ → W → W → W → W
plus_product ⦃f⦄ = f.plus_product

abbrev pub minus : {W : Type 0} ⦃f : Float64 W⦄ → W → W → W
minus ⦃f⦄ = f.minus

abbrev pub lt : {W : Type 0} ⦃f : Float64 W⦄ → W → W → Bool
lt ⦃f⦄ = f.lt

-- The value of a number is counted in parts of which `one` make 1. From 1 to 2 ^ 53, taking 1 away
-- is exact. `Seconds` rounds twice and `x + y * z` at most twice, each by one part in 2 ^ 53.
pub record IsRounded (W : Type 0) ⦃f : Float64 W⦄ (value : W → ℕ) (one : ℕ) : Type 0 where
  pub lt_iff : (x y : W) → (lt x y ≡ true) ↔ (value x < value y)
  pub value-one : value (of_int 1) ≡ one
  pub minus_exact :
      (x : W) → one ≤ value x → value x ≤ 2 ^ 53 * one → value (minus x (of_int 1)) + one ≡ value x
  pub plus_product_rounded :
      (x rate : W) (nanoseconds : ℕ)
      → 2 ^ 50 * (10 ^ 9 * value (plus_product x (seconds nanoseconds) rate))
        ≤ (2 ^ 50 + 1) * (10 ^ 9 * value x + nanoseconds * value rate)

-- The laws can be met: whole billionths, rounded down.
instance abbrev pub billionths : Float64 ℕ
billionths = record {
  of_int = λ n. n * 10 ^ 9;
  seconds = λ n. n;
  plus_product = λ x y z. x + (y * z) / 10 ^ 9;
  minus = λ x y. x - y;
  lt = ltb;
}

rounded_down : (x p : ℕ) → 2 ^ 50 * (10 ^ 9 * (x + p / 10 ^ 9)) ≤ (2 ^ 50 + 1) * (10 ^ 9 * x + p)
rounded_down x p = omega arith

pub billionths-IsRounded : IsRounded ℕ (λ n. n) (10 ^ 9)
billionths-IsRounded = record {
  lt_iff = λ x y. (ltb→lt x y, lt→ltb x y);
  value-one = refl;
  minus_exact = λ x low high. omega (arith, low);
  plus_product_rounded = λ x rate nanoseconds. rounded_down x (nanoseconds * rate);
}
