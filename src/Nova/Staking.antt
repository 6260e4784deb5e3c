-- ===== src/Nova/Staking.antt =====
-- vm/nova/vm.go: the staking feature of an account. A function that sets the flag
-- `isRemovingStakingFeature` returns the flag.
pub mod Rules
pub mod Bond
use axon_go.Common.{
  ℕ, ◌+◌, Bool, true, false, not, ◌&&◌, ◌||◌, Option, none, some, ltb, leb, ◌==◌, if◌then◌else◌,
  u32,
}
use axon_go.Common.Result.{Result, ok, err, panic, ◌>>=◌, ◌>>◌, reject_if}
use axon_go.TimeProvider.{epoch_from_slot}
use axon_go.Nova.{
  Error, staking_commitment_input_missing, staking_start_epoch_invalid, staking_end_epoch_too_early,
  staking_feature_removed_before_unbonding, staking_feature_modified_before_unbonding, Params,
  past_bounded_slot_index, future_bounded_slot_index,
}

pub record StakingFeature : Type 0 where
  pub staked_amount : ℕ
  pub fixed_cost : ℕ
  pub start_epoch : ℕ
  pub end_epoch : ℕ

unfoldable pub staking_equal : StakingFeature → StakingFeature → Bool
staking_equal s other =
    (s.staked_amount == other.staked_amount)
    && (s.fixed_cost == other.fixed_cost)
    && (s.start_epoch == other.start_epoch)
    && (s.end_epoch == other.end_epoch)

-- The epochs that bound the current one, for a commitment input's slot.
unfoldable pub past_bounded_epoch : Params → ℕ → ℕ
past_bounded_epoch params slot =
    epoch_from_slot params.time_provider (past_bounded_slot_index params slot)

unfoldable pub future_bounded_epoch : Params → ℕ → ℕ
future_bounded_epoch params slot =
    epoch_from_slot params.time_provider (future_bounded_slot_index params slot)

unfoldable pub unbonding_epoch : Params → ℕ → ℕ
unbonding_epoch params slot =
    u32 (past_bounded_epoch params slot + params.protocol_parameters.staking_unbonding_period)

-- The commitment input is the slot of the commitment, if there is one.
unfoldable pub account_staking_genesis_validation :
    Params → Option ℕ → StakingFeature → Result Error (Unit {0})
account_staking_genesis_validation params none staking_feat = panic
account_staking_genesis_validation params (some slot) staking_feat = do
  reject_if (not (staking_feat.start_epoch == past_bounded_epoch params slot))
      staking_start_epoch_invalid
  reject_if (ltb staking_feat.end_epoch (unbonding_epoch params slot)) staking_end_epoch_too_early

unfoldable pub account_staking_non_expired_validation :
    StakingFeature → Option StakingFeature → ℕ → Result Error (Unit {0})
account_staking_non_expired_validation current none earliest_unbonding_epoch =
    err staking_feature_removed_before_unbonding
account_staking_non_expired_validation current (some next) earliest_unbonding_epoch = do
  reject_if
      (not (current.staked_amount == next.staked_amount)
        || not (current.fixed_cost == next.fixed_cost)
        || not (current.start_epoch == next.start_epoch))
      staking_feature_modified_before_unbonding
  reject_if
      (not (current.end_epoch == next.end_epoch) && ltb next.end_epoch earliest_unbonding_epoch)
      staking_end_epoch_too_early

unfoldable pub account_staking_expired_validation :
    Params → Option ℕ → StakingFeature → Option StakingFeature → Result Error Bool
account_staking_expired_validation params commitment current none = ok true
account_staking_expired_validation params commitment current (some next) =
    if staking_equal current next
    then ok false
    else account_staking_genesis_validation params commitment next >> ok true

unfoldable pub account_staking_stvf :
    Params → Option ℕ → Option StakingFeature → Option StakingFeature → Result Error Bool
account_staking_stvf params none (some current) next = err staking_commitment_input_missing
account_staking_stvf params (some slot) (some current) next =
    if leb (future_bounded_epoch params slot) current.end_epoch
    then account_staking_non_expired_validation current next (unbonding_epoch params slot)
      >> ok false
    else account_staking_expired_validation params (some slot) current next
account_staking_stvf params commitment none (some next) =
    account_staking_genesis_validation params commitment next >> ok false
account_staking_stvf params commitment none none = ok false
