-- ===== src/Outputs/Expiration.antt =====
-- unlock_cond.go: the expiration and the timelock of a set of unlock conditions.
use axon_go.Common.{ℕ, Bool, true, Option, none, some, leb, ltb, if◌then◌else◌}
use axon_go.Common.Result.{Result, ok, err, reject_if}
use axon_go.Address.{Address}
use axon_go.Outputs.{UnlockConditionSet}

pub data ConditionError : Type 0 where
  expiration_not_unlockable timelock_not_expired : ConditionError

-- The return address, where it can unlock.
unfoldable pub return_address_can_unlock : Option (Address × ℕ) → ℕ → Option Address
return_address_can_unlock none future_bounded_slot = none
return_address_can_unlock (some (return_address, slot)) future_bounded_slot =
    if leb slot future_bounded_slot then some return_address else none

unfoldable pub owner_address_can_unlock : Option (Address × ℕ) → ℕ → Bool
owner_address_can_unlock none past_bounded_slot = true
owner_address_can_unlock (some (return_address, slot)) past_bounded_slot =
    ltb past_bounded_slot slot

unfoldable pub check_expiration_condition :
    UnlockConditionSet → ℕ → ℕ → Result ConditionError (Option Address)
check_expiration_condition f future_bounded_slot past_bounded_slot =
    elim (return_address_can_unlock f.expiration future_bounded_slot) [
      | some return_address ↦ ok (some return_address)
      | none ↦
          if owner_address_can_unlock f.expiration past_bounded_slot
          then ok none
          else err expiration_not_unlockable
    ]

unfoldable pub timelocks_expired : Option ℕ → ℕ → Result ConditionError (Unit {0})
timelocks_expired none future_bounded_slot = ok tt
timelocks_expired (some slot) future_bounded_slot =
    reject_if (ltb future_bounded_slot slot) timelock_not_expired
