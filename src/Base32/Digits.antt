-- ===== src/Base32/Digits.antt =====
-- bech32/internal/base32/base32.go: what is encoded is a list of digits of 5 bits.
use axon_go.Common.{ℕ, ◌<◌, arith, List, [], ◌∷◌, ◌++◌, shr}
use axon_go.Base32.{digit, digit1, digit3, digit4, digit6, encode}
use axon_go.Base32.RoundTrip.{
  AreBytes, digit_mod, digit1_value, digit3_value, digit4_value, digit6_value,
}

unfoldable pub AreDigits : List ℕ → Type 0
AreDigits [] = Unit
AreDigits (d ∷ ds) = (d < 32) × AreDigits ds

pub AreDigits-append : (xs ys : List ℕ) → AreDigits xs → AreDigits ys → AreDigits (xs ++ ys)
unfolding AreDigits
AreDigits-append [] ys h h' = h'
AreDigits-append (x ∷ xs) ys (d, h) h' = (d, AreDigits-append xs ys h h')

low : (x : ℕ) → digit x < 32
low x = omega (arith, digit_mod x)

first : (a : ℕ) → a < 256 → shr a 3 < 32
first a h = omega arith

second : (a carry : ℕ) → a < 256 → carry < 4 → digit1 a carry < 32
second a carry h k = omega (arith, digit1_value a carry h k)

fourth : (b carry : ℕ) → b < 256 → carry < 16 → digit3 b carry < 32
fourth b carry h k = omega (arith, digit3_value b carry h k)

fifth : (c carry : ℕ) → c < 256 → carry < 2 → digit4 c carry < 32
fifth c carry h k = omega (arith, digit4_value c carry h k)

seventh : (d carry : ℕ) → d < 256 → carry < 8 → digit6 d carry < 32
seventh d carry h k = omega (arith, digit6_value d carry h k)

two_bits : (b : ℕ) → b < 256 → digit (shr b 6) < 4
two_bits b h = omega (arith, digit_mod (shr b 6))

four_bits : (c : ℕ) → c < 256 → digit (shr c 4) < 16
four_bits c h = omega (arith, digit_mod (shr c 4))

pub encode-AreDigits : (src : List ℕ) → AreBytes src → AreDigits (encode src)
unfolding encode AreDigits
encode-AreDigits [] h = tt
encode-AreDigits (a ∷ []) (ha, _) = (first a ha, (second a 0 ha (omega arith), tt))
encode-AreDigits (a ∷ b ∷ []) (ha, (hb, _)) = (
  first a ha,
  (
    second a (digit (shr b 6)) ha (two_bits b hb),
    (low (shr b 1), (fourth b 0 hb (omega arith), tt)),
  ),
)
encode-AreDigits (a ∷ b ∷ c ∷ []) (ha, (hb, (hc, _))) = (
  first a ha,
  (
    second a (digit (shr b 6)) ha (two_bits b hb),
    (
      low (shr b 1),
      (fourth b (digit (shr c 4)) hb (four_bits c hc), (fifth c 0 hc (omega arith), tt)),
    ),
  ),
)
encode-AreDigits (a ∷ b ∷ c ∷ d ∷ []) (ha, (hb, (hc, (hd, _)))) = (
  first a ha,
  (
    second a (digit (shr b 6)) ha (two_bits b hb),
    (
      low (shr b 1),
      (
        fourth b (digit (shr c 4)) hb (four_bits c hc),
        (fifth c (shr d 7) hc (omega arith), (low (shr d 2), (seventh d 0 hd (omega arith), tt))),
      ),
    ),
  ),
)
encode-AreDigits (a ∷ b ∷ c ∷ d ∷ e ∷ src) (ha, (hb, (hc, (hd, (he, h))))) = (
  first a ha,
  (
    second a (digit (shr b 6)) ha (two_bits b hb),
    (
      low (shr b 1),
      (
        fourth b (digit (shr c 4)) hb (four_bits c hc),
        (
          fifth c (shr d 7) hc (omega arith),
          (low (shr d 2), (seventh d (shr e 5) hd (omega arith), (low e, encode-AreDigits src h))),
        ),
      ),
    ),
  ),
)
