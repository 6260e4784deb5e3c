-- ===== src/Tests/Anchors.antt =====
-- The transition of an anchor at a concrete input.
use axon_go.Common.{ℕ, ◌≡◌, refl, true, none, some, [], ◌∷◌}
use axon_go.Address.{
  Address, ed25519_address, key, address_equal, is_direct_unlockable, matches_address, valid,
  OutputId,
}
use axon_go.Merkle.{bytes_equal}
use axon_go.Outputs.{
  anchor, AnchorOutput, anchor_id, ChainOutputSet, no_features, unlock_condition_set, same_chain,
  empty_chain, to_address, chain_id, find_chain, resolve_chain, add_chain, chain_output_set,
}
use axon_go.Outputs.Features.{features_equal, feature_unchanged}
use axon_go.Unlocks.{Unlocks, nil, cons, signature_unlock}
use axon_go.Vm.{UnlockedAddressesSet, find_key, add_unlocked}
use axon_go.Vm.Unlocking.{
  unlock, unlock_by_signature, unlock_direct_unlockable_address, unlock_address,
}
use axon_go.Vm.Inputs.{
  Transaction, ResolvedInputs, resolve_underlying_address, anchor_owner, check_expiration,
  is_state_transition, address_to_unlock, owner_to_unlock, unlock_output, unlocked_chain,
  unlock_inputs, validate_unlocks,
}
use axon_go.Vm.Backed.Transactions.{context}
use axon_go.Nova.Anchor.{same_address, anchor_state_stvf, anchor_state_change_valid, anchor_stvf}
use axon_go.Nova.Anchor.Authority.{IsAuthorized, anchor_stvf-IsAuthorized}
use axon_go.Tests.UnlockedAddresses.{crypto, parameters, owned_by}

-- An anchor that the signer 5 controls and the signer 6 governs, in a state.
abbrev anchor_at : ℕ → AnchorOutput
anchor_at state = record {
  amount = 10;
  mana = 0;
  anchor_id = 8;
  state_index = state;
  unlock_conditions = record (owned_by (ed25519_address 5)) {
    address = none;
    state_controller_address = some (ed25519_address 5);
    governor_address = some (ed25519_address 6);
  };
  features = no_features;
  immutable_features = no_features;
}

abbrev first_input : OutputId
first_input = record { transaction_id = 1; index = 0 }

abbrev transaction : Transaction
transaction = record {
  id = 50;
  signing_message = 100;
  inputs = first_input ∷ [];
  outputs = anchor (anchor_at 4) ∷ [];
}

abbrev resolved : ResolvedInputs
resolved = record { input_set = λ i. some (anchor (anchor_at 3)); commitment_input = none }

abbrev out_chains : ChainOutputSet
out_chains = (anchor_id 8, anchor (anchor_at 4)) ∷ []

abbrev unlocks : Unlocks
unlocks = cons (signature_unlock (some (record { public_key = 5; signature = 5 }))) nil

abbrev unlocked : UnlockedAddressesSet
unlocked = record {
  cells =
      record {
        address = ed25519_address 5;
        unlocked_at_input_index = 0;
        referenced_by_input_index = [];
      }
      ∷ record {
        address = Address.anchor_address 8;
        unlocked_at_input_index = 0;
        referenced_by_input_index = [];
      }
      ∷ [];
  signature_unlocked_addrs_by_index = (0, 0, record { public_key = 5; signature = 5 }) ∷ [];
  unlocked_addrs_by_addr_key = (24 ∷ 8 ∷ [], 1) ∷ (0 ∷ 5 ∷ [], 0) ∷ [];
}

anchor_stvf-IsAuthorized_example :
    (features_equal crypto no_features no_features ≡ true)
    × IsAuthorized
        (context crypto parameters transaction resolved out_chains)
        (anchor_at 3)
        (anchor_at 4)
unfolding validate_unlocks unlock_inputs unlock_output owner_to_unlock address_to_unlock
    anchor_owner check_expiration unlock_condition_set resolve_underlying_address unlock_address
    unlock_direct_unlockable_address unlock_by_signature unlock add_unlocked find_key bytes_equal
    key is_direct_unlockable matches_address valid unlocked_chain chain_id resolve_chain empty_chain
    to_address is_state_transition find_chain same_chain chain_output_set add_chain anchor_stvf
    anchor_state_change_valid anchor_state_stvf same_address address_equal features_equal
    feature_unchanged
anchor_stvf-IsAuthorized_example =
    anchor_stvf-IsAuthorized crypto parameters transaction resolved unlocks unlocked out_chains 0
      first_input (anchor_at 3) (anchor_at 4) true refl refl refl refl refl refl refl
