-- ===== src/Mana/Decay/Generation.antt =====
-- mana_decay_provider.go: the Mana that base tokens generate over slots, with the decay.
use Prim.Native.Nat.{min}
use native.Mathlib.Decide.{ℕ_discrete}
use axon_go.Common.{
  ℕ, ◌+◌, ◌-◌, ◌*◌, ◌/◌, ◌%◌, ◌^◌, ◌≤◌, ◌<◌, ◌≡◌, refl, ◌⊎◌, inl, inr, arith, u64, sub32, sub64,
}
use axon_go.Common.Result.{ok}
use axon_go.SafeMath.{SafeMath}
use axon_go.TimeProvider.{epoch_from_slot, slots_before_next_epoch, slots_since_epoch_start}
use axon_go.TimeProvider.Epochs.{epoch_from_slot_mono}
use axon_go.Mana.FixedPoint.{fixed_point_multiplication_32}
use axon_go.Mana.FixedPoint.Exact.{multiplication_exact}
use axon_go.Mana.Decay.{
  ManaDecayProvider, generate_mana, subsequent_epochs, separated_epochs,
  generate_mana_and_decay_by_slots,
}
use axon_go.Mana.Decay.Laws.{IsProvider, decay_total}

-- The generated Mana is exact, rounded down: where the generation factor (the slots times the
-- generation rate) and its products with the halves of the amount fit a uint64, the upper one with
-- 2 ^ 32 to spare, and the product with the amount, divided by 2 to the power of the generation
-- exponent or of 32 if that is less, fits too, the result is the product of the amount, the slots and
-- the rate, divided by 2 to the power of the generation exponent.
pub generate_mana_exact :
    (p : ManaDecayProvider) (amount slots : ℕ)
    → slots * p.generation_rate < 2 ^ 64
    → amount / 2 ^ 32 * (slots * p.generation_rate) + 2 ^ 32 ≤ 2 ^ 64
    → amount % 2 ^ 32 * (slots * p.generation_rate) < 2 ^ 64
    → amount * (slots * p.generation_rate) / 2 ^ min p.generation_rate_exponent 32 < 2 ^ 64
    → generate_mana p amount slots
      ≡ ok (amount * (slots * p.generation_rate) / 2 ^ p.generation_rate_exponent)
unfolding generate_mana
generate_mana_exact p amount slots fits fits_hi fits_lo fits_all = ground (
  arith,
  multiplication_exact amount (slots * p.generation_rate) p.generation_rate_exponent fits_hi fits_lo
      fits_all,
)

-- The terms of the calculation over more than two epochs, as far as they are computed first.
pub record Terms (p : ManaDecayProvider) (amount creation_slot target_slot first c last : ℕ)
    : Type 0 where
  pub generated_first :
      generate_mana p amount (slots_before_next_epoch p.time_provider creation_slot) ≡ ok first
  pub constant :
      fixed_point_multiplication_32 amount (u64 (p.decay_factor_epochs_sum * p.generation_rate)) (
        sub64
          (u64 (p.decay_factor_epochs_sum_exponent + p.generation_rate_exponent))
          p.slots_per_epoch_exponent)
      ≡ ok c
  pub generated_last :
      generate_mana p amount (slots_since_epoch_start p.time_provider target_slot) ≡ ok last
  pub sum_fits : c + last + first < 2 ^ 64

module _ (math : SafeMath) {p : ManaDecayProvider} (valid : IsProvider p)
    {amount creation_slot target_slot first c last : ℕ}
    (terms : Terms p amount creation_slot target_slot first c last) where
  separated_total :
      (n : ℕ)
      → 2 ≤ n
      → n < 2 ^ 32
      → (r : ℕ) × (separated_epochs math p amount creation_slot target_slot n ≡ ok r)
        × (r ≤ c + last + first)
  unfolding separated_epochs
  separated_total n two small =
      let (a, decays_first, a_le, _) =
        decay_total first n valid (omega (arith, terms.sum_fits)) small in
      let (c2, decays_c, c2_le, c2_less) =
        decay_total c (n - 1) valid (omega (arith, terms.sum_fits)) (omega arith) in
      let unit : c2 + c / 2 ^ p.decay_factors_exponent ≤ c = c2_less (omega arith) in
      let before : sub32 n 1 ≡ n - 1 = omega arith in
      (
        c - c2 + last + a - c / 2 ^ p.decay_factors_exponent,
        ground (
          arith,
          terms.generated_first,
          terms.constant,
          terms.generated_last,
          terms.sum_fits,
          before,
          math.safe_sub_fits 64 c c2,
          math.safe_add_fits 64 (c - c2) last,
          math.safe_add_fits 64 (c - c2 + last) a,
          math.safe_sub_fits 64 (c - c2 + last + a) (c / 2 ^ p.decay_factors_exponent),
        ),
        omega arith,
      )

  subsequent_total :
      (r : ℕ) × (subsequent_epochs math p amount creation_slot target_slot ≡ ok r)
      × (r ≤ last + first)
  unfolding subsequent_epochs
  subsequent_total =
      let (a, decays_first, a_le, _) =
        decay_total first 1 valid (omega (arith, terms.sum_fits)) (omega arith) in
      (
        a + last,
        ground (
          arith,
          terms.generated_first,
          terms.generated_last,
          terms.sum_fits,
          math.safe_add_fits 64 a last,
        ),
        omega arith,
      )

-- The generation with decay succeeds: for a provider with a table of factors below one and an
-- exponent of the factors of at most 32 (IsProvider), uint32 slots in order, and terms (the Mana of
-- the first and of the last epoch, the constant for the epochs between them, and the Mana of all the
-- slots for the case of a single epoch) that are computed without error and whose sum is below
-- 2 ^ 64, no subtraction of the calculation goes below zero and no addition overflows. The result is
-- the Mana of all the slots, or at most the sum of the terms.
pub generation_total :
    (math : SafeMath) {p : ManaDecayProvider} (amount creation_slot target_slot : ℕ)
    {first c last single : ℕ}
    → IsProvider p
    → creation_slot ≤ target_slot
    → target_slot < 2 ^ 32
    → Terms p amount creation_slot target_slot first c last
    → generate_mana p amount (target_slot - creation_slot) ≡ ok single
    → (r : ℕ) × (generate_mana_and_decay_by_slots math p amount creation_slot target_slot ≡ ok r)
      × ((r ≡ single) ⊎ (r ≤ c + last + first))
unfolding generate_mana_and_decay_by_slots
generation_total math {p = p} amount creation_slot target_slot valid order fits terms single =
    let start = epoch_from_slot p.time_provider creation_slot in
    let end = epoch_from_slot p.time_provider target_slot in
    let (mono, small) = epoch_from_slot_mono p.time_provider creation_slot target_slot order fits in
    let epochs : sub32 end start ≡ end - start = omega (arith, mono, small) in
    let slots : sub32 target_slot creation_slot ≡ target_slot - creation_slot = omega arith in
    elim (ℕ_discrete (end - start) 0) [
      | yes same ↦ (_, ground (arith, epochs, slots, single), inl refl)
      | no apart ↦ elim (ℕ_discrete (end - start) 1) [
        | yes next ↦
            let (r, runs, le) = subsequent_total math valid terms in
            (r, ground (arith, epochs, runs), inr (omega arith))
        | no further ↦
            let (r, runs, le) =
              separated_total math valid terms (end - start) (omega arith) (omega arith) in
            (r, ground (arith, epochs, runs), inr le)
      ]
    ]
