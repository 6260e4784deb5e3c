-- ===== src/Mana/Decay/Laws.antt =====
-- mana_decay_provider.go: what the decay comes to.
use native.Mathlib.Nat.{
  le_of_mul-le-mul_right, mul-le-mul, one-le-pow, div-add-mod', div-mul-le_self,
}
use native.Mathlib.Decide.{ℕ_discrete}
use axon_go.Common.{
  ℕ, zero, suc, ◌+◌, ◌-◌, ◌*◌, ◌/◌, ◌%◌, ◌^◌, ◌≤◌, ◌<◌, ◌≡◌, ◌≢◌, refl, ap, ◌∙◌, arith, length,
  get_elem?, get_elem?-eq-some, some, u32, sub32,
}
use axon_go.Common.Result.{ok}
use axon_go.Mana.FixedPoint.{split_uint64, fixed_point_multiplication_32_splitted}
use axon_go.Mana.FixedPoint.Exact.{splitted_exact, split-eq, merge-eq}
use axon_go.Mana.Decay.{ManaDecayProvider, diffs_to_decay, decay_loop, decay}

-- The decay table is not empty, its length is the recorded one, and each factor is less than one and
-- a uint32; the exponent is at most 32, which the multiplication accepts.
pub record IsProvider (p : ManaDecayProvider) : Type 0 where
  pub length_recorded : p.decay_factors_length ≡ length p.decay_factors
  pub not_empty : 0 < length p.decay_factors
  pub length_fits : length p.decay_factors < 2 ^ 32
  pub scale_allowed : p.decay_factors_exponent ≤ 32
  pub factors_below_one :
      (i : ℕ) (factor : ℕ)
      → get_elem? p.decay_factors i ≡ some factor
      → factor < 2 ^ p.decay_factors_exponent
  pub factors_fit :
      (i : ℕ) (factor : ℕ) → get_elem? p.decay_factors i ≡ some factor → factor < 2 ^ 32

-- A value in two halves.
abbrev pub halves : ℕ → ℕ × ℕ
halves v = (v / 2 ^ 32, v % 2 ^ 32)

-- One multiplication by a table entry.
abbrev pub scaled : ManaDecayProvider → ℕ → ℕ → ℕ
scaled p v factor = v * factor / 2 ^ p.decay_factors_exponent

-- A factor below one takes away at least the value's own scaled unit.
shrinks : (v factor w : ℕ) → 0 < w → factor < w → v * factor / w + v / w ≤ v
shrinks v factor w w_pos below =
    let a : v * factor / w * w ≤ v * factor = div-mul-le_self _ w in
    let b : v / w * w ≤ v = div-mul-le_self v w in
    let c : v * (factor + 1) ≤ v * w = grind arith in
    let d : (v * factor / w + v / w) * w ≤ v * w = omega arith in le_of_mul-le-mul_right d w_pos

module _ {p : ManaDecayProvider} (valid : IsProvider p) where
  pub table_factor :
      (remaining : ℕ)
      → 0 < remaining
      → remaining < 2 ^ 32
      → (factor : ℕ) × (get_elem? p.decay_factors (sub32 (diffs_to_decay p remaining) 1)
          ≡ some factor)
  unfolding diffs_to_decay
  table_factor remaining some_left fits =
      get_elem?-eq-some p.decay_factors _
        (ground (arith, valid.length_recorded, valid.not_empty, valid.length_fits))

  pub length-eq : u32 p.decay_factors_length ≡ length p.decay_factors
  length-eq = omega (arith, valid.length_recorded, valid.length_fits)

  pub diffs_bounds :
      (remaining : ℕ)
      → 0 < remaining
      → (0 < diffs_to_decay p remaining) × (diffs_to_decay p remaining ≤ remaining)
  unfolding diffs_to_decay
  diffs_bounds remaining some_left = ground (arith, length-eq, valid.not_empty)

  pub scaled-le :
      (v i factor : ℕ)
      → get_elem? p.decay_factors i ≡ some factor
      → scaled p v factor + v / 2 ^ p.decay_factors_exponent ≤ v
  scaled-le v i factor found =
      shrinks v factor (2 ^ p.decay_factors_exponent)
        (one-le-pow p.decay_factors_exponent 2 (omega arith))
        (valid.factors_below_one i factor found)

  -- One multiplication of the loop.
  splitted-eq :
      (v i factor : ℕ)
      → v < 2 ^ 64
      → get_elem? p.decay_factors i ≡ some factor
      → fixed_point_multiplication_32_splitted
          (v / 2 ^ 32)
          (v % 2 ^ 32)
          factor
          p.decay_factors_exponent
        ≡ ok (halves (scaled p v factor))
  splitted-eq v i factor fits found =
      let small : factor < 2 ^ 32 = valid.factors_fit i factor found in
      let hi : v / 2 ^ 32 * factor ≤ (2 ^ 32 - 1) * (2 ^ 32 - 1) =
        mul-le-mul {n₂ = 2 ^ 32 - 1} {m₂ = 2 ^ 32 - 1} (omega arith) (omega arith) in
      let lo : v % 2 ^ 32 * factor ≤ (2 ^ 32 - 1) * (2 ^ 32 - 1) =
        mul-le-mul {n₂ = 2 ^ 32 - 1} {m₂ = 2 ^ 32 - 1} (omega arith) (omega arith) in
      splitted_exact (v / 2 ^ 32) (v % 2 ^ 32) factor p.decay_factors_exponent valid.scale_allowed
        (omega (arith, hi)) (omega (arith, lo))
      ∙ ap (λ (k : ℕ). ok (halves (k * factor / 2 ^ p.decay_factors_exponent)))
          (div-add-mod' v (2 ^ 32))

  -- One round of the loop.
  pub round :
      (fuel r v factor : ℕ)
      → v < 2 ^ 64
      → suc r < 2 ^ 32
      → get_elem? p.decay_factors (sub32 (diffs_to_decay p (suc r)) 1) ≡ some factor
      → decay_loop p (suc fuel) (suc r) (halves v)
        ≡ decay_loop p fuel (suc r - diffs_to_decay p (suc r)) (halves (scaled p v factor))
  unfolding decay_loop
  round fuel r v factor fits small found =
      let less : sub32 (suc r) (diffs_to_decay p (suc r)) ≡ suc r - diffs_to_decay p (suc r) =
        omega (arith, small, diffs_bounds (suc r) (omega arith)) in
      ground (arith, found, splitted-eq v _ factor fits found, less)

  -- The loop ends, with the halves of a value that is not larger; once a round is made, it is smaller
  -- by the first value's own unit.
  pub loop_total :
      (fuel remaining v : ℕ)
      → v < 2 ^ 64
      → remaining ≤ fuel
      → remaining < 2 ^ 32
      → (w : ℕ) × (decay_loop p fuel remaining (halves v) ≡ ok (halves w))
        × (w ≤ v)
        × (0 < remaining → w + v / 2 ^ p.decay_factors_exponent ≤ v)
  unfolding decay_loop
  loop_total zero zero v fits enough small = (v, refl, omega arith, λ h. absurd (omega arith))
  loop_total zero (suc r) v fits enough small = absurd (omega arith)
  loop_total (suc fuel) zero v fits enough small = (v, refl, omega arith, λ h. absurd (omega arith))
  loop_total (suc fuel) (suc r) v fits enough small =
      let (factor, found) = table_factor (suc r) (omega arith) small in
      let less = scaled-le v _ factor found in
      let bounds = diffs_bounds (suc r) (omega arith) in
      let (w, runs, le, _) =
        loop_total fuel (suc r - diffs_to_decay p (suc r)) (scaled p v factor) (omega arith)
          (omega arith) (omega arith) in
      (w, round fuel r v factor fits small found ∙ runs, omega arith, λ h. omega arith)

  pub decay-loop :
      (v n w : ℕ)
      → v < 2 ^ 64
      → w ≤ v
      → v ≢ 0
      → n ≢ 0
      → decay_loop p n n (halves v) ≡ ok (halves w)
      → decay p v n ≡ ok w
  unfolding decay
  decay-loop v n w fits le v_pos n_pos runs =
      let halves_of : split_uint64 v ≡ halves v = split-eq v in
      ground (
        arith,
        valid.length_recorded,
        valid.not_empty,
        merge-eq (w / 2 ^ 32) (w % 2 ^ 32),
        div-add-mod' w (2 ^ 32),
      )

  pub decay-zero : (n : ℕ) → decay p 0 n ≡ ok 0
  unfolding decay
  decay-zero n = refl

  pub decay-none : (v : ℕ) → decay p v 0 ≡ ok v
  unfolding decay
  decay-none v = ground arith

-- For a provider with a table of factors below one and an exponent of the factors of at most 32
-- (IsProvider), the decay of any uint64 over any number of epochs, a uint32, ends without an error;
-- its result is at most the value, and once an epoch has passed it is
-- below the value by at least the value's own part of one unit of the factors' scale.
pub decay_total :
    {p : ManaDecayProvider} (v n : ℕ)
    → IsProvider p
    → v < 2 ^ 64
    → n < 2 ^ 32
    → (w : ℕ) × (decay p v n ≡ ok w) × (w ≤ v) × (0 < n → w + v / 2 ^ p.decay_factors_exponent ≤ v)
decay_total {p = p} v n valid fits small = elim (ℕ_discrete v 0) [
  | yes none_left ↦ (0, rw none_left (decay-zero valid n), omega arith, ground arith)
  | no v_pos ↦ elim (ℕ_discrete n 0) [
    | yes no_epoch ↦ (v, rw no_epoch (decay-none valid v), omega arith, λ h. absurd (omega arith))
    | no n_pos ↦
        let (w, runs, le, less) = loop_total valid n n v fits (omega arith) small in
        (w, decay-loop valid v n w fits le v_pos n_pos runs, le, less)
  ]
]
