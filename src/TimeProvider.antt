-- ===== src/TimeProvider.antt =====
-- timeprovider.go: the conversion between times, slots and epochs. A `time.Time` is a number of
-- nanoseconds since the Unix epoch; slots and epochs are uint32 and wrap around.
pub mod Epochs
pub mod Clock
use axon_go.Common.{
  ℕ, ◌+◌, ◌-◌, ◌*◌, ◌/◌, ◌%◌, ◌^◌, ◌≤◌, ◌<◌, Bool, true, false, ltb, leb, ◌==◌, if◌then◌else◌, u32,
  sub32, shr, shl,
}
use axon_go.Common.Int.{ℤ, pos, negsuc, ◌+ℤ◌, ◌-ℤ◌, sub_ℕ, pos_part, neg_part, ltb_ℤ}
use axon_go.Common.Result.{Result, ok, err, panic}

-- An int64 holds the value that fits its two's complement pattern.
abbrev pub of_pattern : ℕ → ℤ
of_pattern w = if ltb w (2 ^ 63) then pos w else negsuc (2 ^ 64 - 1 - w)

unfoldable pub int64 : ℤ → ℤ
int64 (pos n) = of_pattern (n % 2 ^ 64)
int64 (negsuc n) = of_pattern (2 ^ 64 - 1 - n % 2 ^ 64)

pub record TimeProvider : Type 0 where
  pub genesis_slot : ℕ
  pub genesis_unix_time : ℤ
  pub genesis_time : ℤ
  pub slot_duration_seconds : ℕ
  pub slots_per_epoch_exponent : ℕ
  pub epoch_duration_seconds : ℕ
  pub epoch_duration_slots : ℕ

abbrev pub nanos_per_second : ℕ
nanos_per_second = 1_000_000_000

-- `time.Unix(sec, 0)`
abbrev pub unix : ℤ → ℤ
unix s = sub_ℕ (pos_part s * nanos_per_second) (neg_part s * nanos_per_second)

-- The slot duration is an int64 that is not negative (the protocol parameters hold it as a uint8).
unfoldable pub new_time_provider : ℕ → ℤ → ℕ → ℕ → TimeProvider
new_time_provider genesis_slot genesis_unix_time slot_duration_seconds slots_per_epoch_exponent =
    record {
      genesis_slot = genesis_slot;
      genesis_unix_time = genesis_unix_time;
      genesis_time = unix genesis_unix_time;
      slot_duration_seconds = slot_duration_seconds;
      slots_per_epoch_exponent = slots_per_epoch_exponent;
      epoch_duration_seconds = shl 1 slots_per_epoch_exponent * slot_duration_seconds % 2 ^ 64;
      epoch_duration_slots = u32 (shl 1 slots_per_epoch_exponent);
    }

-- `Time.Sub` stops at the ends of the range of a duration, which is an int64.
unfoldable pub time_sub : ℤ → ℤ → ℤ
time_sub t u =
    let d = t -ℤ u in
    if ltb_ℤ (pos (2 ^ 63 - 1)) d
    then pos (2 ^ 63 - 1)
    else if ltb_ℤ d (negsuc (2 ^ 63 - 1))
    then negsuc (2 ^ 63 - 1)
    else d

-- A slot duration of 0 makes the division panic.
unfoldable pub slot_from_time : {E : Type 0} → TimeProvider → ℤ → Result E ℕ
slot_from_time t target_time =
    let elapsed = time_sub target_time t.genesis_time in
    if ltb_ℤ elapsed (pos 0)
    then ok t.genesis_slot
    else if t.slot_duration_seconds == 0
    then panic
    else ok (
        u32 (
          t.genesis_slot + u32 (pos_part elapsed / nanos_per_second / t.slot_duration_seconds) + 1))

unfoldable pub slot_start_time : TimeProvider → ℕ → ℤ
slot_start_time t slot =
    if leb slot t.genesis_slot
    then t.genesis_time -ℤ pos 1
    else let start_unix = int64 (
        t.genesis_unix_time
        +ℤ int64 (pos (sub32 (sub32 slot t.genesis_slot) 1 * t.slot_duration_seconds))) in
      unix start_unix

unfoldable pub slot_end_time : TimeProvider → ℕ → ℤ
slot_end_time t slot =
    if leb slot t.genesis_slot
    then t.genesis_time -ℤ pos 1
    else let end_unix = int64 (
        t.genesis_unix_time +ℤ int64 (pos (sub32 slot t.genesis_slot * t.slot_duration_seconds))) in
      unix end_unix -ℤ pos 1

unfoldable pub epoch_from_slot : TimeProvider → ℕ → ℕ
epoch_from_slot t slot =
    if leb slot t.genesis_slot
    then 0
    else shr (sub32 slot t.genesis_slot) t.slots_per_epoch_exponent

unfoldable pub epoch_start : TimeProvider → ℕ → ℕ
epoch_start t epoch = u32 (t.genesis_slot + u32 (shl epoch t.slots_per_epoch_exponent))

unfoldable pub epoch_end : TimeProvider → ℕ → ℕ
epoch_end t epoch =
    u32 (t.genesis_slot + sub32 (u32 (shl (u32 (epoch + 1)) t.slots_per_epoch_exponent)) 1)

unfoldable pub slots_before_next_epoch : TimeProvider → ℕ → ℕ
slots_before_next_epoch t slot =
    if ltb slot t.genesis_slot
    then 0
    else sub32 (u32 (t.genesis_slot + epoch_start t (u32 (epoch_from_slot t slot + 1)))) slot

unfoldable pub slots_since_epoch_start : TimeProvider → ℕ → ℕ
slots_since_epoch_start t slot =
    if ltb slot t.genesis_slot
    then 0
    else sub32 (u32 (t.genesis_slot + slot)) (epoch_start t (epoch_from_slot t slot))
