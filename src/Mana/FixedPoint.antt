-- ===== src/Mana/FixedPoint.antt =====
-- mana_decay_provider.go: multiplication by a factor that is scaled by a power of two, on a uint64
-- that is split into two halves.
pub mod Exact
use Prim.Native.Nat.{bit_and, bit_or}
use axon_go.Common.{
  ℕ, ◌+◌, ◌-◌, ◌*◌, ◌/◌, ◌%◌, ◌^◌, Bool, true, false, ltb, if◌then◌else◌, u64, shr, shl,
}
use axon_go.Common.Result.{Result, ok, err, panic, ◌>>=◌}

-- What fails in mana_decay_provider.go. `out_of_fuel` is the model's own: a loop that did not end.
pub data Error : Type 0 where
  scale_not_allowed creation_index_exceeds_target_index integer_overflow out_of_fuel : Error

abbrev pub low_half : ℕ
low_half = 0xffffffff

unfoldable pub split_uint64 : ℕ → ℕ × ℕ
split_uint64 value = (shr value 32, bit_and value low_half)

unfoldable pub merge_uint64 : ℕ → ℕ → ℕ
merge_uint64 value_hi value_lo = bit_or (u64 (shl value_hi 32)) value_lo

unfoldable pub fixed_point_multiplication_32_splitted : ℕ → ℕ → ℕ → ℕ → Result Error (ℕ × ℕ)
fixed_point_multiplication_32_splitted value_hi value_lo factor scale =
    if ltb 32 scale
    then err scale_not_allowed
    else let hi = u64 (value_hi * factor) in
      let lo = u64 (
        u64 (shl (bit_and hi (2 ^ scale - 1)) (32 - scale))
        + shr (u64 (value_lo * factor)) scale) in
      let hi' = u64 (shr hi scale + shr lo 32) in let lo' = bit_and lo low_half in ok (hi', lo')

unfoldable pub fixed_point_multiplication_32 : ℕ → ℕ → ℕ → Result Error ℕ
fixed_point_multiplication_32 value factor scale =
    let remaining_scale = if ltb 32 scale then scale - 32 else 0 in
    let scale' = if ltb 32 scale then 32 else scale in
    let (value_hi, value_lo) = split_uint64 value in
    do
      (result_hi, result_lo) ←
          fixed_point_multiplication_32_splitted value_hi value_lo factor scale'
      ok (shr (merge_uint64 result_hi result_lo) remaining_scale)
