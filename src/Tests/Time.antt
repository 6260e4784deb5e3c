-- ===== src/Tests/Time.antt =====
-- timeprovider.go at concrete inputs.
use axon_go.Common.{ℕ, ◌+◌, ◌*◌, ◌≤◌, ◌≡◌, refl, ◌↔◌, arith}
use axon_go.Common.Int.{pos, ◌+ℤ◌, ◌-ℤ◌}
use axon_go.Common.Result.{Result, ok}
use axon_go.TimeProvider.{
  TimeProvider, new_time_provider, int64, time_sub, slot_from_time, slot_start_time, slot_end_time,
  epoch_from_slot, epoch_start, epoch_end, slots_before_next_epoch, slots_since_epoch_start,
}
use axon_go.TimeProvider.Epochs.{epoch_from_slot_iff, slots_before_since}
use axon_go.TimeProvider.Clock.{IsClock, slot_from_time-between}

-- Slots of 10 seconds, 8 slots an epoch, genesis slot 100.
abbrev provider : TimeProvider
provider = record {
  genesis_slot = 100;
  genesis_unix_time = pos 1000;
  genesis_time = pos 1_000_000_000_000;
  slot_duration_seconds = 10;
  slots_per_epoch_exponent = 3;
  epoch_duration_seconds = 80;
  epoch_duration_slots = 8;
}

new-provider : new_time_provider 100 (pos 1000) 10 3 ≡ provider
unfolding new_time_provider
new-provider = refl

times :
    (slot_start_time provider 101 ≡ pos 1_000_000_000_000)
    × (slot_end_time provider 102 ≡ pos 1_019_999_999_999)
    × (◌≡◌ {A = Result ℕ ℕ} (slot_from_time provider (pos 1_015_000_000_000)) (ok 102))
unfolding slot_start_time slot_end_time slot_from_time time_sub int64 ◌+ℤ◌ ◌-ℤ◌
times = (refl, refl, refl)

epochs :
    (epoch_from_slot provider 117 ≡ 2)
    × (epoch_start provider 2 ≡ 116)
    × (epoch_end provider 2 ≡ 123)
unfolding epoch_from_slot epoch_start epoch_end
epochs = (refl, refl, refl)

-- Three slots before the next epoch: the call adds the genesis slot.
before_next : slots_before_next_epoch provider 121 ≡ 103
unfolding slots_before_next_epoch epoch_from_slot epoch_start
before_next = refl

provider-IsClock : IsClock provider 1000 102
provider-IsClock = record {
  unix_time = refl;
  time = refl;
  ticks = omega arith;
  after = omega arith;
  below = omega arith;
  seconds_fit = omega arith;
  nanos_fit = omega arith;
}

slot_from_time-between_example :
    ◌≡◌ {A = Result ℕ ℕ} (slot_from_time provider (pos 1_015_000_000_000)) (ok 102)
unfolding slot_start_time slot_end_time int64 ◌+ℤ◌ ◌-ℤ◌
slot_from_time-between_example =
    slot_from_time-between provider-IsClock (pos 1_015_000_000_000) (omega arith) (omega arith)

epoch_from_slot_iff_example :
    (epoch_from_slot provider 117 ≡ 2)
    ↔ ((epoch_start provider 2 ≤ 117) × (117 ≤ epoch_end provider 2))
epoch_from_slot_iff_example =
    epoch_from_slot_iff provider 117 2 (omega arith) (omega arith) (omega arith)

slots_before_since_example :
    (slots_before_next_epoch provider 121 + 121
      ≡ 100 + epoch_start provider (epoch_from_slot provider 121 + 1))
    × (slots_since_epoch_start provider 121 + epoch_start provider (epoch_from_slot provider 121)
        ≡ 100 + 121)
    × (slots_before_next_epoch provider 121 + slots_since_epoch_start provider 121 ≡ 8 + 2 * 100)
unfolding epoch_from_slot
slots_before_since_example =
    slots_before_since provider 121 (omega arith) (omega arith) (omega arith)
