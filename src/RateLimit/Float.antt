-- ===== src/RateLimit/Float.antt =====
-- What pkg/ratelimit uses of `float64`, as a parameter: the type of the numbers that a bucket meets,
-- none of them NaN, with the facts of the standard on their order that hold in spite of rounding.
use gkit_go.Prelude.{ℕ, ◌+◌, ◌-◌, ◌*◌, ◌/◌, min, ◌≡◌, Bool, false, arith, ltb}

-- A Go `int`; `negsuc n` is -(n + 1).
pub data ℤ : Type 0 where
  pos : ℕ → ℤ
  negsuc : ℕ → ℤ

-- The part of an integer above 0.
abbrev pub pos_part : ℤ → ℕ
pos_part (pos n) = n
pos_part (negsuc n) = 0

abbrev pub IsNonneg : ℤ → Type 0
IsNonneg (pos n) = Unit {0}
IsNonneg (negsuc n) = ⊥

pub record Float64 : Type 1 where
  pub F : Type 0
  pub zero_float : F
  pub of_int : ℤ → F
  pub seconds : ℕ → F  -- of a duration in nanoseconds
  pub add : F → F → F
  pub sub : F → F → F
  pub mul : F → F → F
  pub min_float : F → F → F
  pub lt : F → F → Bool
  pub le_trans : (a b c : F) → lt b a ≡ false → lt c b ≡ false → lt c a ≡ false
  pub lt_irrefl : (a : F) → lt a a ≡ false
  pub min-le_left : (a b : F) → lt a (min_float a b) ≡ false
  pub le-min : (a b c : F) → lt a c ≡ false → lt b c ≡ false → lt (min_float a b) c ≡ false
  pub of_int_nonneg : (n : ℕ) → lt (of_int (pos n)) zero_float ≡ false
  pub seconds_nonneg : (n : ℕ) → lt (seconds n) zero_float ≡ false
  pub add_nonneg :
      (a b : F)
      → lt a zero_float ≡ false
      → lt b zero_float ≡ false
      → lt (add a b) zero_float ≡ false
  pub mul_nonneg :
      (a b : F)
      → lt a zero_float ≡ false
      → lt b zero_float ≡ false
      → lt (mul a b) zero_float ≡ false
  pub sub_nonneg : (a b : F) → lt a b ≡ false → lt (sub a b) zero_float ≡ false
  pub sub-le : (a b : F) → lt b zero_float ≡ false → lt a (sub a b) ≡ false

-- Whole numbers from 0 up, with 0 for the others, meet all of it.
abbrev pub whole : Float64
whole = record {
  F = ℕ;
  zero_float = 0;
  of_int = pos_part;
  seconds = λ n. n / 1_000_000_000;
  add = λ a b. a + b;
  sub = λ a b. a - b;
  mul = λ a b. a * b;
  min_float = λ a b. min a b;
  lt = ltb;
  le_trans = λ a b c p q. ground arith;
  lt_irrefl = λ a. ground arith;
  min-le_left = λ a b. ground arith;
  le-min = λ a b c p q. ground arith;
  of_int_nonneg = λ n. ground arith;
  seconds_nonneg = λ n. ground arith;
  add_nonneg = λ a b p q. ground arith;
  mul_nonneg = λ a b p q. ground arith;
  sub_nonneg = λ a b p. ground arith;
  sub-le = λ a b p. ground arith;
}
