-- ===== src/Common/Xor.antt =====
-- Laws of `bit_xor`: it is associative and commutative, it undoes itself, it stays below a power of
-- two, and it works on the upper and the lower bits of words apart.
use Prim.Native.Nat.{differ, bit_xor, bit_xor-bitwise}
use Prim.Native.Nat.{ℕ, zero, suc, ◌+◌, ◌*◌, ◌/◌, ◌%◌, ◌^◌, ◌≤◌, ◌<◌}
use mathlib.Core.Path.{◌≡◌, refl, ap, ap₂}
use native.Mathlib.Omega.{arith}
use native.Mathlib.Nat.{pow-suc}
use axon_go.Common.Bits.{digits_enough}

pub zero-bit_xor : (b : ℕ) → bit_xor 0 b ≡ b
zero-bit_xor b = bit_xor-bitwise 0 b

differ_mod : (x y : ℕ) → x < 2 → y < 2 → differ x y ≡ (x + y) % 2
differ_mod zero y h h' = omega arith
differ_mod (suc zero) zero h h' = refl
differ_mod (suc zero) (suc zero) h h' = refl
differ_mod (suc x) (suc (suc y)) h h' = absurd (omega arith)
differ_mod (suc (suc x)) y h h' = absurd (omega arith)

-- The lowest digit of a sum without carries.
bit_xor_digit : (a b : ℕ) → bit_xor a b ≡ bit_xor (a / 2) (b / 2) * 2 + (a % 2 + b % 2) % 2
bit_xor_digit zero b = omega (arith, zero-bit_xor b, zero-bit_xor (b / 2))
bit_xor_digit (suc a) b = omega (
  arith,
  bit_xor-bitwise (suc a) b,
  bit_xor-bitwise (suc a / 2) (b / 2),
  digits_enough (λ y. y) differ a (suc a / 2) (suc a / 2) (b / 2) (omega arith) (omega arith),
  differ_mod (suc a % 2) (b % 2) (omega arith) (omega arith),
)

comm_below : (n a b : ℕ) → a ≤ n → b ≤ n → bit_xor a b ≡ bit_xor b a
comm_below zero zero zero p q = refl
comm_below zero (suc a) b p q = absurd (omega arith)
comm_below zero zero (suc b) p q = absurd (omega arith)
comm_below (suc n) a b p q = omega (
  arith,
  bit_xor_digit a b,
  bit_xor_digit b a,
  comm_below n (a / 2) (b / 2) (omega arith) (omega arith),
)

pub bit_xor_comm : (a b : ℕ) → bit_xor a b ≡ bit_xor b a
bit_xor_comm a b = comm_below (a + b) a b (omega arith) (omega arith)

self_below : (n a : ℕ) → a ≤ n → bit_xor a a ≡ 0
self_below zero zero p = refl
self_below zero (suc a) p = absurd (omega arith)
self_below (suc n) a p = omega (arith, bit_xor_digit a a, self_below n (a / 2) (omega arith))

pub bit_xor_self : (a : ℕ) → bit_xor a a ≡ 0
bit_xor_self a = self_below a a (omega arith)

assoc_below :
    (n a b c : ℕ) → a ≤ n → b ≤ n → c ≤ n → bit_xor (bit_xor a b) c ≡ bit_xor a (bit_xor b c)
assoc_below zero zero zero zero p q r = refl
assoc_below zero (suc a) b c p q r = absurd (omega arith)
assoc_below zero zero (suc b) c p q r = absurd (omega arith)
assoc_below zero zero zero (suc c) p q r = absurd (omega arith)
assoc_below (suc n) a b c p q r =
    let left : bit_xor a b / 2 ≡ bit_xor (a / 2) (b / 2) = omega (arith, bit_xor_digit a b) in
    let right : bit_xor b c / 2 ≡ bit_xor (b / 2) (c / 2) = omega (arith, bit_xor_digit b c) in
    omega (
      arith,
      bit_xor_digit (bit_xor a b) c,
      bit_xor_digit a (bit_xor b c),
      bit_xor_digit a b,
      bit_xor_digit b c,
      ap (λ (x : ℕ). bit_xor x (c / 2)) left,
      ap (bit_xor (a / 2)) right,
      assoc_below n (a / 2) (b / 2) (c / 2) (omega arith) (omega arith) (omega arith),
    )

pub bit_xor_assoc : (a b c : ℕ) → bit_xor (bit_xor a b) c ≡ bit_xor a (bit_xor b c)
bit_xor_assoc a b c = assoc_below (a + b + c) a b c (omega arith) (omega arith) (omega arith)

-- The upper and the lower bits.
pub bit_xor_split :
    (k q r s t : ℕ)
    → r < 2 ^ k
    → t < 2 ^ k
    → bit_xor (q * 2 ^ k + r) (s * 2 ^ k + t) ≡ bit_xor q s * 2 ^ k + bit_xor r t
bit_xor_split zero q r s t h h' = ground arith
bit_xor_split (suc k) q r s t h h' =
    let double : q * 2 ^ suc k ≡ 2 * (q * 2 ^ k) =
      omega (arith, ap (λ (x : ℕ). q * x) (pow-suc 2 k)) in
    let double' : s * 2 ^ suc k ≡ 2 * (s * 2 ^ k) =
      omega (arith, ap (λ (x : ℕ). s * x) (pow-suc 2 k)) in
    let twice : bit_xor q s * 2 ^ suc k ≡ 2 * (bit_xor q s * 2 ^ k) =
      omega (arith, ap (λ (x : ℕ). bit_xor q s * x) (pow-suc 2 k)) in
    let low : r / 2 < 2 ^ k = omega (arith, pow-suc 2 k) in
    let low' : t / 2 < 2 ^ k = omega (arith, pow-suc 2 k) in
    let half : (q * 2 ^ suc k + r) / 2 ≡ q * 2 ^ k + r / 2 = omega (arith, double) in
    let half' : (s * 2 ^ suc k + t) / 2 ≡ s * 2 ^ k + t / 2 = omega (arith, double') in
    omega (
      arith,
      double,
      double',
      twice,
      bit_xor_digit (q * 2 ^ suc k + r) (s * 2 ^ suc k + t),
      ap₂ bit_xor half half',
      bit_xor_split k q (r / 2) s (t / 2) low low',
      bit_xor_digit r t,
    )

pub bit_xor_bound : (k a b : ℕ) → a < 2 ^ k → b < 2 ^ k → bit_xor a b < 2 ^ k
bit_xor_bound zero a b h h' = ground (arith, zero-bit_xor 0)
bit_xor_bound (suc k) a b h h' = omega (
  arith,
  pow-suc 2 k,
  bit_xor_digit a b,
  bit_xor_bound k (a / 2) (b / 2) (omega (arith, pow-suc 2 k)) (omega (arith, pow-suc 2 k)),
)
