-- ===== src/Tests/ManaDecay.antt =====
-- mana_decay_provider.go at concrete inputs.
use axon_go.Common.{
  ℕ, zero, suc, ◌+◌, ◌-◌, ◌*◌, ◌/◌, ◌%◌, ◌^◌, ◌≤◌, ◌<◌, ◌≡◌, refl, ◌⊎◌, arith, [], ◌∷◌, get_elem?,
  some,
}
use axon_go.Common.Int.{pos}
use axon_go.Common.Result.{ok}
use axon_go.SafeMath.{checked_math}
use axon_go.TimeProvider.{
  TimeProvider, epoch_from_slot, epoch_start, slots_before_next_epoch, slots_since_epoch_start,
}
use axon_go.Mana.FixedPoint.{
  split_uint64, merge_uint64, fixed_point_multiplication_32_splitted, fixed_point_multiplication_32,
}
use axon_go.Mana.FixedPoint.Exact.{splitted_exact, multiplication_exact}
use axon_go.Mana.Decay.{
  ManaDecayProvider, diffs_to_decay, decay_loop, decay, generate_mana,
  generate_mana_and_decay_by_slots,
}
use axon_go.Mana.Decay.Laws.{IsProvider, decay_total}
use axon_go.Mana.Decay.Table.{decay_table, decay_mono}
use axon_go.Mana.Decay.Generation.{generate_mana_exact, Terms, generation_total}

abbrev pub time : TimeProvider
time = record {
  genesis_slot = 0;
  genesis_unix_time = pos 0;
  genesis_time = pos 0;
  slot_duration_seconds = 10;
  slots_per_epoch_exponent = 3;
  epoch_duration_seconds = 80;
  epoch_duration_slots = 8;
}

-- Factors 3/4 and 1/2, one unit of Mana a slot for four tokens.
abbrev pub provider : ManaDecayProvider
provider = record {
  time_provider = time;
  slots_per_epoch_exponent = 3;
  bits_count = 63;
  generation_rate = 1;
  generation_rate_exponent = 2;
  decay_factors = 3 ∷ 2 ∷ [];
  decay_factors_length = 2;
  decay_factors_exponent = 2;
  decay_factor_epochs_sum = 9;
  decay_factor_epochs_sum_exponent = 2;
}

decays : decay provider 1000 3 ≡ ok 375
unfolding decay decay_loop diffs_to_decay split_uint64 merge_uint64
    fixed_point_multiplication_32_splitted
decays = refl

provider-below_one :
    (i : ℕ) (factor : ℕ) → get_elem? provider.decay_factors i ≡ some factor → factor < 4
provider-below_one zero factor e = ground arith
provider-below_one (suc zero) factor e = ground arith
provider-below_one (suc (suc i)) factor e = cc

provider-fit :
    (i : ℕ) (factor : ℕ) → get_elem? provider.decay_factors i ≡ some factor → factor < 2 ^ 32
provider-fit i factor e = omega (arith, provider-below_one i factor e)

provider-IsProvider : IsProvider provider
provider-IsProvider = record {
  length_recorded = refl;
  not_empty = omega arith;
  length_fits = omega arith;
  scale_allowed = omega arith;
  factors_below_one = provider-below_one;
  factors_fit = provider-fit;
}

splitted_exact_example :
    fixed_point_multiplication_32_splitted 1 5 3 2
    ≡ ok (((2 ^ 32 + 5) * 3 / 4) / 2 ^ 32, ((2 ^ 32 + 5) * 3 / 4) % 2 ^ 32)
splitted_exact_example = splitted_exact 1 5 3 2 (omega arith) (omega arith) (omega arith)

multiplication_exact_example :
    fixed_point_multiplication_32 (2 ^ 40) 7 35 ≡ ok (2 ^ 40 * 7 / 2 ^ 35)
multiplication_exact_example =
    multiplication_exact (2 ^ 40) 7 35 (omega arith) (omega arith) (omega arith)

decay_total_example :
    (w : ℕ) × (decay provider 1000 3 ≡ ok w) × (w ≤ 1000) × (0 < 3 → w + 1000 / 2 ^ 2 ≤ 1000)
decay_total_example = decay_total 1000 3 provider-IsProvider (omega arith) (omega arith)

decay_table_example :
    (3 ≤ 2
      → get_elem? {A = ℕ} (3 ∷ 2 ∷ []) (3 - 1) ≡ some 2
      → decay provider 1000 3 ≡ ok (1000 * 2 / 2 ^ 2))
    × (2 < 3
        → get_elem? {A = ℕ} (3 ∷ 2 ∷ []) (2 - 1) ≡ some 2
        → decay provider 1000 3 ≡ decay provider (1000 * 2 / 2 ^ 2) (3 - 2))
decay_table_example =
    decay_table 1000 3 2 provider-IsProvider (omega arith) (omega arith) (omega arith)

decay_mono_example :
    (v' w' : ℕ) × (decay provider 1000 3 ≡ ok v') × (decay provider 1001 3 ≡ ok w') × (v' ≤ w')
decay_mono_example =
    decay_mono 1000 1001 3 provider-IsProvider (omega arith) (omega arith) (omega arith)

generate_mana_exact_example : generate_mana provider 1000 6 ≡ ok (1000 * (6 * 1) / 2 ^ 2)
generate_mana_exact_example =
    generate_mana_exact provider 1000 6 (omega arith) (omega arith) (omega arith) (omega arith)

-- From slot 3 of the first epoch to slot 20 of the third.
provider-Terms : Terms provider 1000 3 20 1250 4500 1000
unfolding generate_mana fixed_point_multiplication_32 fixed_point_multiplication_32_splitted
    split_uint64 merge_uint64 slots_before_next_epoch slots_since_epoch_start epoch_from_slot
    epoch_start
provider-Terms = record {
  generated_first = refl;
  constant = refl;
  generated_last = refl;
  sum_fits = omega arith;
}

single_epoch : generate_mana provider 1000 (20 - 3) ≡ ok 4250
unfolding generate_mana fixed_point_multiplication_32 fixed_point_multiplication_32_splitted
    split_uint64 merge_uint64
single_epoch = refl

generation_total_example :
    (r : ℕ) × (generate_mana_and_decay_by_slots checked_math provider 1000 3 20 ≡ ok r)
    × ((r ≡ 4250) ⊎ (r ≤ 4500 + 1000 + 1250))
generation_total_example =
    generation_total checked_math 1000 3 20 provider-IsProvider (omega arith) (omega arith)
      provider-Terms single_epoch
