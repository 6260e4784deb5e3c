-- ===== src/Nova/Delegation.antt =====
-- vm/nova/vm.go: the transitions of a delegation output.
pub mod Rules
use axon_go.Common.{
  ℕ, ◌+◌, Bool, true, false, not, ◌||◌, Option, none, some, leb, ◌==◌, if◌then◌else◌, u32, sub32,
}
use axon_go.Common.Result.{Result, ok, err, ◌>>=◌, ◌>>◌, reject_if}
use axon_go.TimeProvider.{epoch_from_slot, epoch_end}
use axon_go.TokenScheme.{ChainTransitionType, genesis, state_change, destroy}
use axon_go.Nova.{
  Error, new_chain_output_has_non_zeroed_id, delegation_commitment_input_missing,
  delegation_start_epoch_invalid, delegation_amount_mismatch, delegation_end_epoch_not_zero,
  delegation_end_epoch_invalid, delegation_output_transitioned_twice, delegation_modified,
  delegation_rewards_claiming_invalid, delegation_reward_input_missing, Params,
  past_bounded_slot_index, future_bounded_slot_index,
}

-- output_delegation.go. An identifier is the number that its bytes spell, 0 for the empty one; the
-- validator's address is the identifier of an account.
pub record DelegationOutput : Type 0 where
  pub amount : ℕ
  pub delegated_amount : ℕ
  pub delegation_id : ℕ
  pub validator_address : ℕ
  pub start_epoch : ℕ
  pub end_epoch : ℕ

unfoldable pub registration_slot : Params → ℕ → ℕ
registration_slot params epoch =
    sub32 (epoch_end params.time_provider epoch) params.protocol_parameters.epoch_nearing_threshold

unfoldable pub expected_start_epoch : Params → ℕ → ℕ
expected_start_epoch params slot =
    let past_bounded_slot = past_bounded_slot_index params slot in
    let past_bounded_epoch = epoch_from_slot params.time_provider past_bounded_slot in
    if leb past_bounded_slot (registration_slot params past_bounded_epoch)
    then u32 (past_bounded_epoch + 1)
    else u32 (past_bounded_epoch + 2)

unfoldable pub expected_end_epoch : Params → ℕ → ℕ
expected_end_epoch params slot =
    let future_bounded_slot = future_bounded_slot_index params slot in
    let future_bounded_epoch = epoch_from_slot params.time_provider future_bounded_slot in
    if leb future_bounded_slot (registration_slot params future_bounded_epoch)
    then future_bounded_epoch
    else u32 (future_bounded_epoch + 1)

-- The commitment input is the slot of the commitment, if there is one.
abbrev pub commitment_slot : Option ℕ → Result Error ℕ
commitment_slot none = err delegation_commitment_input_missing
commitment_slot (some slot) = ok slot

unfoldable pub delegation_genesis_valid :
    Params → Option ℕ → DelegationOutput → Result Error (Unit {0})
delegation_genesis_valid params commitment current = do
  reject_if (not (current.delegation_id == 0)) new_chain_output_has_non_zeroed_id
  slot ← commitment_slot commitment
  reject_if (not (current.start_epoch == expected_start_epoch params slot))
      delegation_start_epoch_invalid
  reject_if (not (current.delegated_amount == current.amount)) delegation_amount_mismatch
  reject_if (not (current.end_epoch == 0)) delegation_end_epoch_not_zero

unfoldable pub delegation_state_change_valid :
    Params → Option ℕ → DelegationOutput → DelegationOutput → Result Error (Unit {0})
delegation_state_change_valid params commitment current next = do
  reject_if (not (current.delegation_id == 0)) delegation_output_transitioned_twice
  reject_if
      (not (current.delegated_amount == next.delegated_amount)
        || not (current.validator_address == next.validator_address)
        || not (current.start_epoch == next.start_epoch))
      delegation_modified
  slot ← commitment_slot commitment
  reject_if (not (next.end_epoch == expected_end_epoch params slot)) delegation_end_epoch_invalid

-- The transition, with what the code reads of the working set: the commitment's slot and whether the
-- output's chain has an entry in the rewards. Each case has the outputs that the caller passes.
pub data Transition : Type 0 where
  created : DelegationOutput → Transition
  changed : DelegationOutput → DelegationOutput → Transition
  destroyed : DelegationOutput → Transition

unfoldable pub delegation_stvf : Params → Option ℕ → Bool → Transition → Result Error (Unit {0})
delegation_stvf params commitment is_claiming (created next) =
    delegation_genesis_valid params commitment next
delegation_stvf params commitment is_claiming (changed current next) = do
  reject_if is_claiming delegation_rewards_claiming_invalid
  delegation_state_change_valid params commitment current next
delegation_stvf params commitment is_claiming (destroyed current) =
    reject_if (not is_claiming) delegation_reward_input_missing
