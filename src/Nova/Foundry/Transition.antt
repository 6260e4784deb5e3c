-- ===== src/Nova/Foundry/Transition.antt =====
-- vm/nova/vm.go: the transitions of a foundry output with its immutable features.
use axon_go.Common.{Bool, true, false, not}
use axon_go.Common.Result.{Result, panic, ◌>>◌, reject_if}
use axon_go.TokenScheme.{simple, state_change, state_transition}
use axon_go.Address.{Crypto}
use axon_go.Outputs.{FeatureSet}
use axon_go.Outputs.Features.{features_equal}
use axon_go.Nova.{Error, chain_output_immutable_features_changed}
use axon_go.Nova.Foundry.{
  FoundryOutput, foundry_id, same_id, WorkingSet, value_or_zero, of_token_scheme,
  foundry_genesis_valid, foundry_destruction_valid,
}

pub record Foundry : Type 0 where
  pub output : FoundryOutput
  pub immutable_features : FeatureSet

pub data FoundryTransition : Type 0 where
  foundry_genesis foundry_destroy : Foundry → FoundryTransition
  foundry_state_change : Foundry → Foundry → FoundryTransition

module _ (crypto : Crypto) where
  unfoldable pub foundry_state_change_valid :
      WorkingSet → Foundry → Foundry → Result Error (Unit {0})
  foundry_state_change_valid ws current next = do
    reject_if (not (features_equal crypto current.immutable_features next.immutable_features))
        chain_output_immutable_features_changed
    elim (same_id (foundry_id current.output) (foundry_id next.output)) [
      | false ↦ panic
      | true ↦ of_token_scheme (
          state_transition current.output.token_scheme state_change
            (simple next.output.token_scheme)
            (value_or_zero ws.in_native_tokens (foundry_id current.output))
            (value_or_zero ws.out_native_tokens (foundry_id current.output)))
    ]

  -- The first argument is the capability of the transaction to destroy foundry outputs.
  unfoldable pub foundry_stvf : Bool → WorkingSet → FoundryTransition → Result Error (Unit {0})
  foundry_stvf can_destroy_foundry_outputs ws (foundry_genesis next) =
      foundry_genesis_valid ws next.output
  foundry_stvf can_destroy_foundry_outputs ws (foundry_state_change current next) =
      foundry_state_change_valid ws current next
  foundry_stvf can_destroy_foundry_outputs ws (foundry_destroy current) =
      foundry_destruction_valid can_destroy_foundry_outputs ws current.output
