-- ===== src/TimeProvider/Epochs.antt =====
-- timeprovider.go: slots and epochs.
use native.Mathlib.Nat.{
  one-le-pow, div-mul-le_self, lt-div-mul-add, div-eq_of_lt-le, le-div_iff_mul-le, div-le_self,
}
use axon_go.Common.{ℕ, ◌+◌, ◌-◌, ◌*◌, ◌/◌, ◌^◌, ◌≤◌, ◌<◌, ◌≡◌, ◌↔◌, ◌∙◌, arith}
use axon_go.TimeProvider.{
  TimeProvider, epoch_from_slot, epoch_start, epoch_end, slots_before_next_epoch,
  slots_since_epoch_start,
}

-- The slots of an epoch.
abbrev pub epoch_slots : TimeProvider → ℕ
epoch_slots t = 2 ^ t.slots_per_epoch_exponent

-- The epoch ends below the last uint32, so that no operation on it wraps around.
abbrev pub InRange : TimeProvider → ℕ → Type 0
InRange t e = t.genesis_slot + (e + 1) * epoch_slots t < 2 ^ 32

pub epoch_slots-pos : (t : TimeProvider) → 0 < epoch_slots t
epoch_slots-pos t = one-le-pow t.slots_per_epoch_exponent 2 (omega arith)

pub next-le : (t : TimeProvider) (e : ℕ) → e + 1 ≤ (e + 1) * epoch_slots t
next-le t e = grind (arith, epoch_slots-pos t)

module _ (t : TimeProvider) (e : ℕ) (in_range : InRange t e) where
  pub epoch_start-eq : epoch_start t e ≡ t.genesis_slot + e * epoch_slots t
  unfolding epoch_start
  epoch_start-eq = ground (arith, in_range)

  epoch_start_next-eq : epoch_start t (e + 1) ≡ t.genesis_slot + e * epoch_slots t + epoch_slots t
  unfolding epoch_start
  epoch_start_next-eq = ground (arith, in_range)

  pub epoch_end-eq : epoch_end t e + 1 ≡ t.genesis_slot + e * epoch_slots t + epoch_slots t
  unfolding epoch_end
  epoch_end-eq = ground (arith, epoch_slots-pos t, next-le t e, in_range)

module _ (t : TimeProvider) (slot : ℕ) (after : t.genesis_slot ≤ slot) (below : slot < 2 ^ 32) where
  pub epoch_from_slot-eq : epoch_from_slot t slot ≡ (slot - t.genesis_slot) / epoch_slots t
  unfolding epoch_from_slot
  epoch_from_slot-eq = ground (arith, epoch_slots-pos t)

  -- The division's bracket, in terms of the slot.
  pub epoch_bracket :
      let e = epoch_from_slot t slot in
      (t.genesis_slot + e * epoch_slots t ≤ slot)
      × (slot < t.genesis_slot + e * epoch_slots t + epoch_slots t)
  epoch_bracket = rw epoch_from_slot-eq (
    omega (arith, div-mul-le_self (slot - t.genesis_slot) (epoch_slots t)),
    omega (arith, lt-div-mul-add {a = slot - t.genesis_slot} (epoch_slots-pos t)),
  )

-- The slots of an epoch are those from its start to its end, both included: for an epoch that ends
-- below the last uint32 and a slot at or after the genesis slot, the slot belongs to the epoch
-- exactly when it lies between the epoch's start and its end.
pub epoch_from_slot_iff :
    (t : TimeProvider) (slot e : ℕ)
    → t.genesis_slot ≤ slot
    → slot < 2 ^ 32
    → InRange t e
    → (epoch_from_slot t slot ≡ e) ↔ ((epoch_start t e ≤ slot) × (slot ≤ epoch_end t e))
epoch_from_slot_iff t slot e after below in_range = (
  λ same. ground (
    arith,
    epoch_bracket t slot after below,
    epoch_start-eq t e in_range,
    epoch_end-eq t e in_range,
  ),
  λ between.
      epoch_from_slot-eq t slot after below
      ∙ div-eq_of_lt-le {k = e} (epoch_slots t)
          (omega (arith, epoch_start-eq t e in_range, between))
          (omega (arith, epoch_end-eq t e in_range, between)),
)

-- Consecutive epochs leave no gap: the slot after the end of an epoch is the start of the next one.
pub epoch_end-epoch_start :
    (t : TimeProvider) (e : ℕ) → InRange t e → epoch_end t e + 1 ≡ epoch_start t (e + 1)
epoch_end-epoch_start t e in_range =
    omega (arith, epoch_end-eq t e in_range, epoch_start_next-eq t e in_range)

module _ (t : TimeProvider) (slot : ℕ) (after : t.genesis_slot ≤ slot) (below : slot < 2 ^ 32)
    (in_range : InRange t (epoch_from_slot t slot)) where
  before-eq :
      slots_before_next_epoch t slot + slot
      ≡ t.genesis_slot + epoch_start t (epoch_from_slot t slot + 1)
  unfolding slots_before_next_epoch
  before-eq = ground (
    arith,
    after,
    below,
    in_range,
    next-le t (epoch_from_slot t slot),
    epoch_bracket t slot after below,
    epoch_start_next-eq t (epoch_from_slot t slot) in_range,
  )

  since-eq :
      slots_since_epoch_start t slot + epoch_start t (epoch_from_slot t slot)
      ≡ t.genesis_slot + slot
  unfolding slots_since_epoch_start
  since-eq = ground (
    arith,
    after,
    below,
    in_range,
    epoch_bracket t slot after below,
    epoch_start-eq t (epoch_from_slot t slot) in_range,
  )

-- For a slot at or after the genesis slot, in an epoch that ends below the last uint32, the slots
-- before the next epoch and the slots since the epoch's start add up to the slots of an epoch plus
-- twice the genesis slot: each of the two distances has the genesis slot added to it.
pub slots_before_since :
    (t : TimeProvider) (slot : ℕ)
    → t.genesis_slot ≤ slot
    → slot < 2 ^ 32
    → InRange t (epoch_from_slot t slot)
    → (slots_before_next_epoch t slot + slot
        ≡ t.genesis_slot + epoch_start t (epoch_from_slot t slot + 1))
      × (slots_since_epoch_start t slot + epoch_start t (epoch_from_slot t slot)
          ≡ t.genesis_slot + slot)
      × (slots_before_next_epoch t slot + slots_since_epoch_start t slot
          ≡ epoch_slots t + 2 * t.genesis_slot)
slots_before_since t slot after below in_range =
    let before = before-eq t slot after below in_range in
    let since = since-eq t slot after below in_range in
    (
      before,
      since,
      omega (
        arith,
        epoch_start-eq t (epoch_from_slot t slot) in_range,
        epoch_start_next-eq t (epoch_from_slot t slot) in_range,
      ),
    )

quotient_mono : (x y w : ℕ) → 0 < w → x ≤ y → x / w ≤ y / w
quotient_mono x y w w_pos le = (le-div_iff_mul-le w_pos).1 (omega (arith, div-mul-le_self x w))

-- A later slot is in no earlier epoch, and an epoch is a uint32.
pub epoch_from_slot_mono :
    (t : TimeProvider) (s s' : ℕ)
    → s ≤ s'
    → s' < 2 ^ 32
    → (epoch_from_slot t s ≤ epoch_from_slot t s') × (epoch_from_slot t s' < 2 ^ 32)
unfolding epoch_from_slot
epoch_from_slot_mono t s s' le fits = ground (
  arith,
  quotient_mono (s - t.genesis_slot) (s' - t.genesis_slot) (epoch_slots t) (epoch_slots-pos t),
  div-le_self (s' - t.genesis_slot) (epoch_slots t),
)
