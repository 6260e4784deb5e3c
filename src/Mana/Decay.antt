-- ===== src/Mana/Decay.antt =====
-- mana_decay_provider.go: the provider, the decay of Mana over epochs and the Mana that base tokens
-- generate over slots. A `none` of the checked arithmetic is its overflow error.
pub mod Laws
pub mod Table
pub mod Generation
use axon_go.Common.{
  ℕ, zero, suc, ◌+◌, ◌-◌, ◌*◌, ◌/◌, ◌%◌, ◌^◌, Bool, true, false, ◌||◌, Option, none, some, List, [],
  ltb, leb, ◌==◌, if◌then◌else◌, u32, u64, sub32, sub64, shr, length, get_elem?,
}
use axon_go.Common.Result.{Result, ok, err, panic, ◌>>=◌, ◌>>◌, reject_if}
use axon_go.SafeMath.{SafeMath}
use axon_go.TimeProvider.{
  TimeProvider, epoch_from_slot, slots_before_next_epoch, slots_since_epoch_start,
}
use axon_go.Mana.FixedPoint.{
  Error, creation_index_exceeds_target_index, integer_overflow, out_of_fuel, split_uint64,
  merge_uint64, fixed_point_multiplication_32_splitted, fixed_point_multiplication_32,
}

-- mana.go, the parameters that the provider is made from.
pub record ManaParameters : Type 0 where
  pub bits_count : ℕ
  pub generation_rate : ℕ
  pub generation_rate_exponent : ℕ
  pub decay_factors : List ℕ
  pub decay_factors_exponent : ℕ
  pub decay_factor_epochs_sum : ℕ
  pub decay_factor_epochs_sum_exponent : ℕ
  pub annual_decay_factor_percentage : ℕ

pub record ManaDecayProvider : Type 0 where
  pub time_provider : TimeProvider
  pub slots_per_epoch_exponent : ℕ
  pub bits_count : ℕ
  pub generation_rate : ℕ
  pub generation_rate_exponent : ℕ
  pub decay_factors : List ℕ
  pub decay_factors_length : ℕ
  pub decay_factors_exponent : ℕ
  pub decay_factor_epochs_sum : ℕ
  pub decay_factor_epochs_sum_exponent : ℕ

-- The conversions to uint64 keep the values of the narrower types.
unfoldable pub new_mana_decay_provider : TimeProvider → ℕ → ManaParameters → ManaDecayProvider
new_mana_decay_provider time_provider slots_per_epoch_exponent mana_parameters = record {
  time_provider = time_provider;
  slots_per_epoch_exponent = slots_per_epoch_exponent;
  bits_count = mana_parameters.bits_count;
  generation_rate = mana_parameters.generation_rate;
  generation_rate_exponent = mana_parameters.generation_rate_exponent;
  decay_factors = mana_parameters.decay_factors;
  decay_factors_length = length mana_parameters.decay_factors;
  decay_factors_exponent = mana_parameters.decay_factors_exponent;
  decay_factor_epochs_sum = mana_parameters.decay_factor_epochs_sum;
  decay_factor_epochs_sum_exponent = mana_parameters.decay_factor_epochs_sum_exponent;
}

abbrev pub or_overflow : Option ℕ → Result Error ℕ
or_overflow none = err integer_overflow
or_overflow (some n) = ok n

-- The table entry that one round of the decay uses.
unfoldable pub diffs_to_decay : ManaDecayProvider → ℕ → ℕ
diffs_to_decay p remaining =
    if ltb (u32 p.decay_factors_length) remaining then u32 p.decay_factors_length else remaining

abbrev pub factor_at : List ℕ → ℕ → Result Error ℕ
factor_at factors i = elim (get_elem? factors i) [ none ↦ panic | some factor ↦ ok factor ]

-- The loop over the epochs that remain. Each round takes away one at least, so that as much fuel as
-- epochs is enough.
unfoldable pub decay_loop : ManaDecayProvider → ℕ → ℕ → ℕ × ℕ → Result Error (ℕ × ℕ)
decay_loop p zero remaining halves = if ltb 0 remaining then err out_of_fuel else ok halves
decay_loop p (suc fuel) remaining halves = elim (ltb 0 remaining) [
  | false ↦ ok halves
  | true ↦ do
    factor ← factor_at p.decay_factors (sub32 (diffs_to_decay p remaining) 1)
    halves' ←
        fixed_point_multiplication_32_splitted halves.0 halves.1 factor p.decay_factors_exponent
    decay_loop p fuel (sub32 remaining (diffs_to_decay p remaining)) halves'
]

unfoldable pub decay : ManaDecayProvider → ℕ → ℕ → Result Error ℕ
decay p value epoch_diff =
    if value == 0 || epoch_diff == 0 || p.decay_factors_length == 0 then ok value else do
      (value_hi, value_lo) ← decay_loop p epoch_diff epoch_diff (split_uint64 value)
      ok (merge_uint64 value_hi value_lo)

unfoldable pub generate_mana : ManaDecayProvider → ℕ → ℕ → Result Error ℕ
generate_mana p value slot_diff =
    if slot_diff == 0 || p.generation_rate == 0
    then ok 0
    else fixed_point_multiplication_32 value (u64 (slot_diff * p.generation_rate))
        p.generation_rate_exponent

unfoldable pub decay_mana_by_epochs : ManaDecayProvider → ℕ → ℕ → ℕ → Result Error ℕ
decay_mana_by_epochs p mana creation_epoch target_epoch = do
  reject_if (ltb target_epoch creation_epoch) creation_index_exceeds_target_index
  decay p mana (sub32 target_epoch creation_epoch)

unfoldable pub decay_mana_by_slots : ManaDecayProvider → ℕ → ℕ → ℕ → Result Error ℕ
decay_mana_by_slots p mana creation_slot target_slot =
    decay_mana_by_epochs p mana (epoch_from_slot p.time_provider creation_slot)
      (epoch_from_slot p.time_provider target_slot)

module _ (math : SafeMath) (p : ManaDecayProvider) (amount creation_slot target_slot : ℕ) where
  -- `case 1`
  unfoldable pub subsequent_epochs : Result Error ℕ
  subsequent_epochs = do
    generated_first ← generate_mana p amount (slots_before_next_epoch p.time_provider creation_slot)
    decayed_first ← decay p generated_first 1
    generated_second ← generate_mana p amount (slots_since_epoch_start p.time_provider target_slot)
    or_overflow (math.safe_add 64 decayed_first generated_second)

  -- `default`
  unfoldable pub separated_epochs : ℕ → Result Error ℕ
  separated_epochs epoch_diff = do
    generated_first ← generate_mana p amount (slots_before_next_epoch p.time_provider creation_slot)
    decayed_first ← decay p generated_first epoch_diff
    c ← fixed_point_multiplication_32 amount (u64 (p.decay_factor_epochs_sum * p.generation_rate)) (
        sub64 (u64 (p.decay_factor_epochs_sum_exponent + p.generation_rate_exponent))
          p.slots_per_epoch_exponent)
    c2 ← decay p c (sub32 epoch_diff 1)
    decayed_intermediate ← or_overflow (math.safe_sub 64 c c2)
    generated_last ← generate_mana p amount (slots_since_epoch_start p.time_provider target_slot)
    result ← or_overflow (math.safe_add 64 decayed_intermediate generated_last)
    result' ← or_overflow (math.safe_add 64 result decayed_first)
    or_overflow (math.safe_sub 64 result' (shr c p.decay_factors_exponent))

  unfoldable pub generate_mana_and_decay_by_slots : Result Error ℕ
  generate_mana_and_decay_by_slots =
      let epoch_diff =
        sub32 (epoch_from_slot p.time_provider target_slot)
          (epoch_from_slot p.time_provider creation_slot) in
      do
        reject_if (ltb target_slot creation_slot) creation_index_exceeds_target_index
        if epoch_diff == 0
            then generate_mana p amount (sub32 target_slot creation_slot)
            else if epoch_diff == 1
            then subsequent_epochs
            else separated_epochs epoch_diff
