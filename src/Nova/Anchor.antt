-- ===== src/Nova/Anchor.antt =====
-- vm/nova/vm.go: the transitions of an anchor output: by its governor, by its state controller.
pub mod Authority
use axon_go.Common.{
  ℕ, ◌+◌, ◌==◌, Bool, true, false, not, Option, none, some, List, if◌then◌else◌, u32,
}
use axon_go.Common.Result.{Result, ok, err, panic, ◌>>=◌, ◌>>◌, reject_if}
use axon_go.Address.{Address, address_equal, Crypto}
use axon_go.Outputs.{Output, anchor, AnchorOutput, UnlockConditionSet, must}
use axon_go.Outputs.Features.{same_option, features_equal, feature_unchanged}
use axon_go.Vm
use axon_go.Vm.{UnlockedAddressesSet}
use axon_go.Vm.Execution.{is_issuer_on_output_unlocked}
use axon_go.Nova.{
  Error, new_chain_output_has_non_zeroed_id, chain_output_immutable_features_changed,
  anchor_invalid_state_transition, anchor_invalid_governance_transition, invalid_feature_transition,
  tx_capabilities_anchor_destruction_not_allowed, joined, execution_failed,
}

abbrev pub of_execution : Result Vm.Error (Unit {0}) → Result Error (Unit {0})
of_execution (ok u) = ok u
of_execution (err e) = err (execution_failed e)
of_execution panic = panic

-- A changed feature, joined to an error of the transition.
abbrev pub unchanged_or : Error → Result (Unit {0}) (Unit {0}) → Result Error (Unit {0})
unchanged_or outer (ok u) = ok u
unchanged_or outer (err e) = err (joined outer invalid_feature_transition)
unchanged_or outer panic = panic

pub data AnchorTransition : Type 0 where
  anchor_genesis : AnchorOutput → AnchorTransition
  anchor_state_change : AnchorOutput → AnchorOutput → AnchorTransition
  anchor_destroy : AnchorOutput → AnchorTransition

module _ (crypto : Crypto) where
  unfoldable pub anchor_genesis_valid :
      UnlockedAddressesSet → AnchorOutput → Bool → Result Error (Unit {0})
  anchor_genesis_valid s current anchor_id_must_be_zeroed =
      if anchor_id_must_be_zeroed
      then reject_if (not (current.anchor_id == 0))
          (joined anchor_invalid_state_transition new_chain_output_has_non_zeroed_id)
        >> of_execution (is_issuer_on_output_unlocked crypto s (anchor current))
      else of_execution (is_issuer_on_output_unlocked crypto s (anchor current))

  unfoldable pub anchor_governance_stvf : AnchorOutput → AnchorOutput → Result Error (Unit {0})
  anchor_governance_stvf current next = do
    reject_if (not (current.amount == next.amount)) anchor_invalid_governance_transition
    reject_if (not (current.state_index == next.state_index)) anchor_invalid_governance_transition
    unchanged_or anchor_invalid_governance_transition
        (feature_unchanged current.features.state_metadata next.features.state_metadata)

  -- Two addresses of unlock conditions; one that is not there makes the code panic.
  unfoldable pub same_address : Option Address → Option Address → Result Error Bool
  same_address before after = do a ← must before; b ← must after; ok (address_equal crypto a b)

  unfoldable pub anchor_state_stvf : AnchorOutput → AnchorOutput → Result Error (Unit {0})
  anchor_state_stvf current next = do
    controller_same ←
        same_address current.unlock_conditions.state_controller_address
          next.unlock_conditions.state_controller_address
    reject_if (not controller_same) anchor_invalid_state_transition
    governor_same ←
        same_address current.unlock_conditions.governor_address
          next.unlock_conditions.governor_address
    reject_if (not governor_same) anchor_invalid_state_transition
    reject_if (not (u32 (current.state_index + 1) == next.state_index))
        anchor_invalid_state_transition
    unchanged_or anchor_invalid_state_transition
        (feature_unchanged current.features.metadata next.features.metadata)

  unfoldable pub anchor_state_change_valid : AnchorOutput → AnchorOutput → Result Error (Unit {0})
  anchor_state_change_valid current next =
      let is_gov_transition = current.state_index == next.state_index in
      reject_if (not (features_equal crypto current.immutable_features next.immutable_features)) (
        joined
          (if is_gov_transition
            then anchor_invalid_governance_transition
            else anchor_invalid_state_transition)
          chain_output_immutable_features_changed)
      >> (if is_gov_transition
          then anchor_governance_stvf current next
          else anchor_state_stvf current next)

  -- The argument is the capability of the transaction to destroy anchor outputs.
  unfoldable pub anchor_destruction_valid : Bool → Result Error (Unit {0})
  anchor_destruction_valid can_destroy_anchor_outputs =
      reject_if (not can_destroy_anchor_outputs)
        (joined anchor_invalid_state_transition tx_capabilities_anchor_destruction_not_allowed)

  unfoldable pub anchor_stvf :
      UnlockedAddressesSet → Bool → AnchorTransition → Result Error (Unit {0})
  anchor_stvf s can_destroy_anchor_outputs (anchor_genesis next) = anchor_genesis_valid s next true
  anchor_stvf s can_destroy_anchor_outputs (anchor_state_change current next) =
      anchor_state_change_valid current next
  anchor_stvf s can_destroy_anchor_outputs (anchor_destroy current) =
      anchor_destruction_valid can_destroy_anchor_outputs
