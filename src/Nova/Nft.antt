-- ===== src/Nova/Nft.antt =====
-- vm/nova/vm.go: the transitions of an NFT output.
use axon_go.Common.{◌==◌, Bool, not}
use axon_go.Common.Result.{Result, ◌>>◌, reject_if}
use axon_go.Address.{Crypto}
use axon_go.Outputs.{nft, NftOutput}
use axon_go.Outputs.Features.{features_equal}
use axon_go.Vm.{UnlockedAddressesSet}
use axon_go.Vm.Execution.{is_issuer_on_output_unlocked}
use axon_go.Nova.Anchor.{of_execution}
use axon_go.Nova.{
  Error, new_chain_output_has_non_zeroed_id, chain_output_immutable_features_changed,
  tx_capabilities_nft_destruction_not_allowed,
}

pub data NftTransition : Type 0 where
  nft_genesis : NftOutput → NftTransition
  nft_state_change : NftOutput → NftOutput → NftTransition
  nft_destroy : NftOutput → NftTransition

module _ (crypto : Crypto) where
  unfoldable pub nft_genesis_valid : UnlockedAddressesSet → NftOutput → Result Error (Unit {0})
  nft_genesis_valid s current =
      reject_if (not (current.nft_id == 0)) new_chain_output_has_non_zeroed_id
      >> of_execution (is_issuer_on_output_unlocked crypto s (nft current))

  unfoldable pub nft_state_change_valid : NftOutput → NftOutput → Result Error (Unit {0})
  nft_state_change_valid current next =
      reject_if (not (features_equal crypto current.immutable_features next.immutable_features))
        chain_output_immutable_features_changed

  -- The argument is the capability of the transaction to destroy NFT outputs.
  unfoldable pub nft_destruction_valid : Bool → Result Error (Unit {0})
  nft_destruction_valid can_destroy_nft_outputs =
      reject_if (not can_destroy_nft_outputs) tx_capabilities_nft_destruction_not_allowed

  unfoldable pub nft_stvf : UnlockedAddressesSet → Bool → NftTransition → Result Error (Unit {0})
  nft_stvf s can_destroy_nft_outputs (nft_genesis next) = nft_genesis_valid s next
  nft_stvf s can_destroy_nft_outputs (nft_state_change current next) =
      nft_state_change_valid current next
  nft_stvf s can_destroy_nft_outputs (nft_destroy current) =
      nft_destruction_valid can_destroy_nft_outputs
