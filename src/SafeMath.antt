-- ===== src/SafeMath.antt =====
-- The checked arithmetic of github.com/iotaledger/hive.go/core/safemath, a library that the code
-- calls: its operations are parameters, with what its documentation says of them. The first argument
-- is the number of bits of the unsigned type; `none` stands for the error of an overflow.
use axon_go.Common.{
  ℕ, ◌+◌, ◌-◌, ◌*◌, ◌^◌, ◌≤◌, ◌<◌, ◌≡◌, Option, none, some, arith, ltb, leb, if◌then◌else◌,
}

pub record SafeMath : Type 0 where
  pub safe_add : ℕ → ℕ → ℕ → Option ℕ
  pub safe_sub : ℕ → ℕ → ℕ → Option ℕ
  pub safe_mul : ℕ → ℕ → ℕ → Option ℕ
  pub safe_add_fits : (w a b : ℕ) → a + b < 2 ^ w → safe_add w a b ≡ some (a + b)
  pub safe_add_overflow : (w a b : ℕ) → 2 ^ w ≤ a + b → safe_add w a b ≡ none
  pub safe_sub_fits : (w a b : ℕ) → b ≤ a → safe_sub w a b ≡ some (a - b)
  pub safe_sub_underflow : (w a b : ℕ) → a < b → safe_sub w a b ≡ none
  pub safe_mul_fits : (w a b : ℕ) → a * b < 2 ^ w → safe_mul w a b ≡ some (a * b)
  pub safe_mul_overflow : (w a b : ℕ) → 2 ^ w ≤ a * b → safe_mul w a b ≡ none

-- Operations that meet the documentation.
abbrev pub checked : ℕ → ℕ → Option ℕ
checked w n = if ltb n (2 ^ w) then some n else none

pub checked-fits : (w n : ℕ) → n < 2 ^ w → checked w n ≡ some n
checked-fits w n h = ground arith

pub checked-overflow : (w n : ℕ) → 2 ^ w ≤ n → checked w n ≡ none
checked-overflow w n h = ground arith

abbrev pub checked_sub : ℕ → ℕ → Option ℕ
checked_sub a b = if leb b a then some (a - b) else none

pub checked_sub-fits : (a b : ℕ) → b ≤ a → checked_sub a b ≡ some (a - b)
checked_sub-fits a b h = ground arith

pub checked_sub-underflow : (a b : ℕ) → a < b → checked_sub a b ≡ none
checked_sub-underflow a b h = ground arith

abbrev pub checked_math : SafeMath
checked_math = record {
  safe_add = λ w a b. checked w (a + b);
  safe_sub = λ w a b. checked_sub a b;
  safe_mul = λ w a b. checked w (a * b);
  safe_add_fits = λ w a b. checked-fits w (a + b);
  safe_add_overflow = λ w a b. checked-overflow w (a + b);
  safe_sub_fits = λ w a b. checked_sub-fits a b;
  safe_sub_underflow = λ w a b. checked_sub-underflow a b;
  safe_mul_fits = λ w a b. checked-fits w (a * b);
  safe_mul_overflow = λ w a b. checked-overflow w (a * b);
}
