-- ===== src/Mana/FixedPoint/Exact.antt =====
-- mana_decay_provider.go: the split multiplication is the exact product, rounded down.
use Prim.Native.Nat.{bit_and, min}
use native.Mathlib.Nat.{
  one-le-pow, mul-add-div_right, div-add-mod', div-mul-le_self, div-le_self, div-div-eq-div-mul,
}
use native.Mathlib.Decide.{dec_le}
use axon_go.Common.{ℕ, ◌+◌, ◌-◌, ◌*◌, ◌/◌, ◌%◌, ◌^◌, ◌≤◌, ◌<◌, ◌≡◌, ap, arith, u64}
use axon_go.Common.Bits.{bit_and_mask, bit_or_shifted, two_pow-add}
use axon_go.Common.Result.{ok}
use axon_go.Mana.FixedPoint.{
  split_uint64, merge_uint64, fixed_point_multiplication_32_splitted, fixed_point_multiplication_32,
}

pub split-eq : (v : ℕ) → split_uint64 v ≡ (v / 2 ^ 32, v % 2 ^ 32)
unfolding split_uint64
split-eq v = ground (arith, bit_and_mask 32 v)

pub merge-eq : (hi lo : ℕ) → lo < 2 ^ 32 → hi < 2 ^ 32 → merge_uint64 hi lo ≡ hi * 2 ^ 32 + lo
unfolding merge_uint64
merge-eq hi lo h k = ground (arith, bit_or_shifted 32 hi lo)

half-le : (l p : ℕ) → 2 ≤ p → l / p ≤ l / 2
half-le l p h = let below : l / p * 2 ≤ l = grind (arith, div-mul-le_self l p) in omega arith

-- With the power 2 ^ scale as `p` and 2 ^ (32 - scale) as `q`.
module _ (h l p q : ℕ) (p_pos : 0 < p) (whole : p * q ≡ 2 ^ 32) where
  regroup : h * 2 ^ 32 ≡ h * q * p
  regroup = omega (arith, ap (λ (t : ℕ). h * t) whole)

  high : h * q ≡ h / p * 2 ^ 32 + h % p * q
  high = omega (arith, ap (λ (t : ℕ). t * q) (div-add-mod' h p), ap (λ (t : ℕ). h / p * t) whole)

  product : (h * 2 ^ 32 + l) / p ≡ h / p * 2 ^ 32 + (h % p * q + l / p)
  product = rw regroup (omega (arith, mul-add-div_right p_pos (h * q) l, high))

  part-lt : h % p * q < 2 ^ 32
  part-lt = grind (arith, whole, p_pos)

  sum-lt : l < 2 ^ 64 → h % p * q + l / p < 2 ^ 64
  sum-lt b = elim (dec_le 2 p) [
    | yes two ↦ omega (arith, part-lt, half-le l p two)
    | no small ↦
        let one : p ≡ 1 = omega (arith, p_pos) in
        let none_left : h % p ≡ 0 = rw one (omega arith) in
        omega
          (arith, ap (λ (t : ℕ). t * q) none_left, div-mul-le_self l p, ap (λ (t : ℕ). l / t) one)
  ]

abbrev p : ℕ → ℕ
p scale = 2 ^ scale

abbrev q : ℕ → ℕ
q scale = 2 ^ (32 - scale)

-- The two words that the code computes, without wrap-around.
module _ (h l scale : ℕ) (small : scale ≤ 32) (fits_h : h + 2 ^ 32 ≤ 2 ^ 64)
    (fits_l : l < 2 ^ 64) where
  p_pos : 0 < p scale
  p_pos = one-le-pow scale 2 (omega arith)

  whole : p scale * q scale ≡ 2 ^ 32
  whole =
      rw (← two_pow-add scale (32 - scale))
        (ap (λ (k : ℕ). 2 ^ k) (let e : scale + (32 - scale) ≡ 32 = omega (arith, small) in e))

  low_word :
      u64 (u64 (bit_and (u64 h) (2 ^ scale - 1) * q scale) + u64 l / p scale)
      ≡ h % p scale * q scale + l / p scale
  low_word =
      let same_h : u64 h ≡ h = omega (arith, fits_h) in
      let same_l : u64 l ≡ l = omega (arith, fits_l) in
      rw (same_h, same_l, bit_and_mask scale h)
        (omega (
          arith,
          part-lt h l (p scale) (q scale) p_pos whole,
          sum-lt h l (p scale) (q scale) p_pos whole fits_l,
        ))

  high_word :
      u64 (u64 h / p scale + (h % p scale * q scale + l / p scale) / 2 ^ 32)
      ≡ (h * 2 ^ 32 + l) / p scale / 2 ^ 32
  high_word =
      let same_h : u64 h ≡ h = omega (arith, fits_h) in
      rw (same_h, product h l (p scale) (q scale) p_pos whole)
        (omega (
          arith,
          fits_h,
          sum-lt h l (p scale) (q scale) p_pos whole fits_l,
          div-le_self h (p scale),
        ))

-- The product of a value in two halves by a factor that is scaled by 2 ^ scale is exact, rounded
-- down: where the scale is at most 32 and the products of the halves by the factor fit a uint64,
-- the upper one with 2 ^ 32 to spare, the call succeeds, and its two results are the upper and the
-- lower half of the quotient of the whole product by 2 ^ scale.
pub splitted_exact :
    (hi lo factor scale : ℕ)
    → scale ≤ 32
    → hi * factor + 2 ^ 32 ≤ 2 ^ 64
    → lo * factor < 2 ^ 64
    → let whole = (hi * 2 ^ 32 + lo) * factor / 2 ^ scale in
      fixed_point_multiplication_32_splitted hi lo factor scale
      ≡ ok (whole / 2 ^ 32, whole % 2 ^ 32)
unfolding fixed_point_multiplication_32_splitted
splitted_exact hi lo factor scale small fits_hi fits_lo =
    let h = hi * factor in
    let l = lo * factor in
    let split_product : (hi * 2 ^ 32 + lo) * factor ≡ h * 2 ^ 32 + l = omega arith in
    rw split_product (
      ground (
        arith,
        small,
        low_word h l scale small fits_hi fits_lo,
        high_word h l scale small fits_hi fits_lo,
        product h l (p scale) (q scale) (p_pos h l scale small fits_hi fits_lo)
            (whole h l scale small fits_hi fits_lo),
        bit_and_mask 32 (h % 2 ^ scale * 2 ^ (32 - scale) + l / 2 ^ scale),
      ))

-- The same for a uint64 that is split and put together again, at any scale: where the products of
-- the halves by the factor fit as above and the product of the value by the factor, divided by 2 to
-- the power of the scale or of 32 if that is less, fits a uint64, the call succeeds with the whole
-- product divided by 2 ^ scale and rounded down.
pub multiplication_exact :
    (v factor scale : ℕ)
    → v / 2 ^ 32 * factor + 2 ^ 32 ≤ 2 ^ 64
    → v % 2 ^ 32 * factor < 2 ^ 64
    → v * factor / 2 ^ min scale 32 < 2 ^ 64
    → fixed_point_multiplication_32 v factor scale ≡ ok (v * factor / 2 ^ scale)
unfolding fixed_point_multiplication_32
multiplication_exact v factor scale fits_hi fits_lo fits = elim (dec_le scale 32) [
  | yes small ↦
      let least : min scale 32 ≡ scale = omega (arith, small) in
      let fits' = rw least at fits in
      ground (
        arith,
        small,
        split-eq v,
        div-add-mod' v (2 ^ 32),
        splitted_exact (v / 2 ^ 32) (v % 2 ^ 32) factor scale small fits_hi fits_lo,
        merge-eq (v * factor / 2 ^ scale / 2 ^ 32) (v * factor / 2 ^ scale % 2 ^ 32),
      )
  | no large ↦
      let least : min scale 32 ≡ 32 = omega (arith, large) in
      let fits' = rw least at fits in
      let parts : 32 + (scale - 32) ≡ scale = omega (arith, large) in
      ground (
        arith,
        large,
        split-eq v,
        div-add-mod' v (2 ^ 32),
        splitted_exact (v / 2 ^ 32) (v % 2 ^ 32) factor 32 (omega arith) fits_hi fits_lo,
        merge-eq (v * factor / 2 ^ 32 / 2 ^ 32) (v * factor / 2 ^ 32 % 2 ^ 32),
        div-div-eq-div-mul (v * factor) (2 ^ 32) (2 ^ (scale - 32)),
        two_pow-add 32 (scale - 32),
        ap (λ (k : ℕ). v * factor / 2 ^ k) parts,
      )
]
