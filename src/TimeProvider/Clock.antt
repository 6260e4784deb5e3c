-- ===== src/TimeProvider/Clock.antt =====
-- timeprovider.go: slots and the clock.
use native.Mathlib.Nat.{div-eq_of_lt-le}
use axon_go.Common.{ℕ, ◌+◌, ◌-◌, ◌*◌, ◌/◌, ◌^◌, ◌≤◌, ◌<◌, ◌≡◌, ap, arith, sub32}
use axon_go.Common.Int.{ℤ, pos, negsuc, ◌+ℤ◌, ◌-ℤ◌, ◌≤ℤ◌}
use axon_go.Common.Result.{ok}
use axon_go.TimeProvider.{
  TimeProvider, int64, time_sub, nanos_per_second, slot_from_time, slot_start_time, slot_end_time,
}

-- A provider as the constructor makes it, for a genesis at or after the Unix epoch, at which the
-- slots up to `slot` lie within the range of a duration, so that nothing wraps around.
pub record IsClock (t : TimeProvider) (genesis slot : ℕ) : Type 0 where
  pub unix_time : t.genesis_unix_time ≡ pos genesis
  pub time : t.genesis_time ≡ pos (genesis * nanos_per_second)
  pub ticks : 0 < t.slot_duration_seconds
  pub after : t.genesis_slot < slot
  pub below : slot < 2 ^ 32
  pub seconds_fit : genesis + (slot - t.genesis_slot) * t.slot_duration_seconds < 2 ^ 63
  pub nanos_fit : (slot - t.genesis_slot) * t.slot_duration_seconds * nanos_per_second < 2 ^ 63

int64-pos : (n : ℕ) → n < 2 ^ 63 → int64 (pos n) ≡ pos n
unfolding int64
int64-pos n h = ground arith

abbrev round : TimeProvider → ℕ → ℕ
round t slot = slot - t.genesis_slot - 1

pos-+ℤ : (a b : ℕ) → pos a +ℤ pos b ≡ pos (a + b)
unfolding ◌+ℤ◌
pos-+ℤ a b = ground arith

-- Seconds after the genesis, added up in int64.
seconds :
    (t : TimeProvider) {genesis n m : ℕ}
    → t.genesis_unix_time ≡ pos genesis
    → n ≡ m
    → genesis + m < 2 ^ 63
    → int64 (t.genesis_unix_time +ℤ int64 (pos n)) ≡ pos (genesis + m)
seconds t {genesis} {n} {m} e same h =
    rw (e, same, int64-pos m (omega arith), pos-+ℤ genesis m) (int64-pos (genesis + m) h)

pred-ℤ : (n : ℕ) → 0 < n → pos n -ℤ pos 1 ≡ pos (n - 1)
unfolding ◌-ℤ◌
pred-ℤ n h = ground arith

module _ {t : TimeProvider} {genesis slot : ℕ} (c : IsClock t genesis slot) where
  rounds : slot - t.genesis_slot ≡ round t slot + 1
  rounds = omega (arith, c.after)

  span :
      (slot - t.genesis_slot) * t.slot_duration_seconds
      ≡ round t slot * t.slot_duration_seconds + t.slot_duration_seconds
  span = omega (arith, ap (λ (k : ℕ). k * t.slot_duration_seconds) rounds)

  pub slot_start_time-eq :
      slot_start_time t slot
      ≡ pos ((genesis + round t slot * t.slot_duration_seconds) * nanos_per_second)
  unfolding slot_start_time
  slot_start_time-eq = ground (
    arith,
    c.after,
    seconds t c.unix_time
        (ap (λ (k : ℕ). k * t.slot_duration_seconds)
          (let e : sub32 (sub32 slot t.genesis_slot) 1 ≡ round t slot =
              omega (arith, c.after, c.below) in
            e))
        (omega (arith, c.seconds_fit, span)),
  )

  pub slot_end_time-eq :
      slot_end_time t slot
      ≡ pos (
          (genesis + round t slot * t.slot_duration_seconds + t.slot_duration_seconds)
            * nanos_per_second
          - 1)
  unfolding slot_end_time
  slot_end_time-eq = ground (
    arith,
    c.after,
    span,
    c.ticks,
    pred-ℤ ((genesis + (slot - t.genesis_slot) * t.slot_duration_seconds) * nanos_per_second),
    seconds t c.unix_time
        (ap (λ (k : ℕ). k * t.slot_duration_seconds)
          (let e : sub32 slot t.genesis_slot ≡ slot - t.genesis_slot =
              omega (arith, c.after, c.below) in
            e))
        (omega (arith, c.seconds_fit)),
  )

  -- The rounded quotient that the slot is read from.
  rounded :
      (x : ℕ)
      → round t slot * t.slot_duration_seconds * nanos_per_second ≤ x
      → x < (round t slot * t.slot_duration_seconds + t.slot_duration_seconds) * nanos_per_second
      → x / nanos_per_second / t.slot_duration_seconds ≡ round t slot
  rounded x lo hi =
      div-eq_of_lt-le {k = round t slot} t.slot_duration_seconds (omega (arith, lo))
        (omega (arith, hi))

-- The difference of two times after the Unix epoch, within the range of a duration.
time_sub-pos : (n m : ℕ) → m ≤ n → n - m < 2 ^ 63 → time_sub (pos n) (pos m) ≡ pos (n - m)
unfolding time_sub ◌-ℤ◌
time_sub-pos n m h k = ground arith

-- For a provider as the constructor makes it, with a genesis that is not before 1970 and slots of at
-- least a second, and a slot after the genesis slot whose end is in the range of a duration and of an
-- int64 of seconds, every time from the slot's start time to its end time, both included, is a
-- time of that slot.
pub slot_from_time-between :
    {E : Type 0} {t : TimeProvider} {genesis slot : ℕ}
    → IsClock t genesis slot
    → (time : ℤ) → slot_start_time t slot ≤ℤ time
    → time ≤ℤ slot_end_time t slot
    → slot_from_time {E = E} t time ≡ ok slot
unfolding slot_from_time
slot_from_time-between {t = t} {genesis = g} {slot = slot} c (pos n) from upto =
    let lo : (g + round t slot * t.slot_duration_seconds) * nanos_per_second ≤ n =
      omega (arith, rw (slot_start_time-eq c) at from) in
    let hi : n
        < (g + round t slot * t.slot_duration_seconds + t.slot_duration_seconds)
          * nanos_per_second =
      omega (arith, c.ticks, rw (slot_end_time-eq c) at upto) in
    rw
      (
        c.time,
        time_sub-pos n (g * nanos_per_second) (omega arith) (omega (arith, c.nanos_fit, span c)),
      )
      (ground (
        arith,
        c.ticks,
        c.after,
        c.below,
        rounded c (n - g * nanos_per_second) (omega arith) (omega arith),
      ))
slot_from_time-between {t = t} {genesis = g} {slot = slot} c (negsuc n) from upto =
    absurd (omega (arith, rw (slot_start_time-eq c) at from))
