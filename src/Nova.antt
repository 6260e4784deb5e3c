-- ===== src/Nova.antt =====
-- vm/nova/vm.go and vm/vm.go: what the state transition validation functions share: the parameters of
-- the protocol, the slots that a commitment bounds, and the errors.
pub mod Staking
pub mod Delegation
pub mod Foundry
pub mod BlockIssuer
pub mod Anchor
pub mod Nft
pub mod Account
use axon_go.Common.{ℕ, ◌+◌, u32}
use axon_go.TimeProvider.{TimeProvider}
use axon_go.TokenScheme
use axon_go.Mana.FixedPoint
use axon_go.Vm

-- What fails in the transitions; the names are those of the sentinel errors.
pub data Error : Type 0 where
  staking_commitment_input_missing staking_start_epoch_invalid staking_end_epoch_too_early : Error
  staking_feature_removed_before_unbonding staking_feature_modified_before_unbonding : Error
  staking_reward_claiming_invalid staking_reward_input_missing : Error
  new_chain_output_has_non_zeroed_id delegation_commitment_input_missing : Error
  delegation_start_epoch_invalid delegation_amount_mismatch delegation_end_epoch_not_zero : Error
  delegation_end_epoch_invalid delegation_output_transitioned_twice delegation_modified : Error
  delegation_rewards_claiming_invalid delegation_reward_input_missing : Error
  account_invalid_foundry_counter foundry_transition_without_account : Error
  foundry_serial_invalid tx_capabilities_foundry_destruction_not_allowed : Error
  chain_output_immutable_features_changed : Error
  block_issuer_commitment_input_missing block_issuer_not_expired : Error
  block_issuer_expiry_too_early mana_moved_off_block_issuer_account mana_overflow : Error
  input_creation_after_tx_creation input_output_mana_mismatch : Error
  block_issuance_credit_input_missing account_locked : Error
  anchor_invalid_state_transition anchor_invalid_governance_transition : Error
  invalid_feature_transition tx_capabilities_anchor_destruction_not_allowed : Error
  tx_capabilities_nft_destruction_not_allowed : Error
  tx_capabilities_account_destruction_not_allowed : Error
  implicit_account_destruction_disallowed : Error
  joined : Error → Error → Error
  execution_failed : Vm.Error → Error
  token_scheme_invalid : TokenScheme.Error → Error
  mana_failed : FixedPoint.Error → Error

-- The protocol parameters that the functions read. Slots and epochs are uint32.
pub record ProtocolParameters : Type 0 where
  pub max_committable_age : ℕ
  pub min_committable_age : ℕ
  pub staking_unbonding_period : ℕ
  pub epoch_nearing_threshold : ℕ

pub record Params : Type 0 where
  pub time_provider : TimeProvider
  pub protocol_parameters : ProtocolParameters

unfoldable pub past_bounded_slot_index : Params → ℕ → ℕ
past_bounded_slot_index params commitment_input_slot =
    u32 (commitment_input_slot + params.protocol_parameters.max_committable_age)

unfoldable pub future_bounded_slot_index : Params → ℕ → ℕ
future_bounded_slot_index params commitment_input_slot =
    u32 (commitment_input_slot + params.protocol_parameters.min_committable_age)
