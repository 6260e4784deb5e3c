-- ===== src/Tests/UnlockedAddresses.antt =====
-- The unlocking of a transaction at a concrete input.
use axon_go.Common.{ℕ, ◌==◌, ◌≡◌, refl, ◌&&◌, none, some, [], ◌∷◌, if◌then◌else◌}
use axon_go.Common.Result.{err}
use axon_go.Address.{
  Address, ed25519_address, account_address, multi_address, none_left, address_with_weight, key,
  is_chain_address, is_direct_unlockable, matches_address, valid, OutputId, Crypto,
}
use axon_go.Merkle.{bytes_equal}
use axon_go.Nova.{ProtocolParameters}
use axon_go.Outputs.{
  Output, basic, account, UnlockConditionSet, no_features, unlock_condition_set, same_chain,
  empty_chain, from_output_id, to_address, chain_id, find_chain, resolve_chain, add_chain,
  chain_output_set,
}
use axon_go.Unlocks.{
  Unlocks, nil, cons, signature_unlock, reference_unlock, account_unlock, multi_unlock,
  empty_unlock,
}
use axon_go.Vm.{
  UnlockedAddressesSet, find_key, find_index, load, reference_at, add_reference, add_unlocked,
  referential, wrapped, multi_address_unlock_invalid, multi_address_unlock_threshold_not_reached,
}
use axon_go.Vm.Unlocking.{
  unlock, unlock_by_signature, referential_unlock_non_directly_unlockable, add_owner,
  referential_unlock_directly_unlockable, unlock_chain_address, unlock_direct_by_reference,
  unlock_direct_unlockable_address, unlock_multi_by_reference, unlock_address, unlock_weights,
  length_unlocks, length_addresses,
}
use axon_go.Vm.Inputs.{
  Transaction, ResolvedInputs, resolve_underlying_address, check_expiration, is_state_transition,
  address_to_unlock, owner_to_unlock, unlock_output, unlocked_chain, unlock_inputs,
  validate_unlocks,
}
use axon_go.Vm.Backed.Transactions.{AreBacked, validate_unlocks-AreBacked}

abbrev pub crypto : Crypto
crypto = record {
  public_key_hash = λ k. k;
  verify = λ public_key message signature. (message == 100) && (signature == public_key);
  multi_hash = λ addresses threshold. 40;
  capabilities_bytes = λ capabilities. capabilities;
  output_id_hash = λ id. id.transaction_id;
}

abbrev pub parameters : ProtocolParameters
parameters = record {
  max_committable_age = 20;
  min_committable_age = 10;
  staking_unbonding_period = 10;
  epoch_nearing_threshold = 20;
}

abbrev pub owned_by : Address → UnlockConditionSet
owned_by a = record {
  address = some a;
  storage_deposit_return = none;
  timelock = none;
  expiration = none;
  state_controller_address = none;
  governor_address = none;
  immutable_account = none;
}

abbrev pub basic_of : Address → Output
basic_of a =
    basic (record { amount = 1; mana = 0; unlock_conditions = owned_by a; features = no_features })

abbrev pub account_of_five : Output
account_of_five = account (record {
  amount = 1;
  mana = 0;
  account_id = 7;
  foundry_counter = 0;
  unlock_conditions = owned_by (ed25519_address 5);
  features = no_features;
  immutable_features = no_features;
})

-- The signer 5 has weight 2, the account 7 has weight 1, the signer 9 has weight 4.
abbrev pub three_of : ℕ → Address
three_of threshold =
    multi_address
      (address_with_weight (ed25519_address 5) 2 (
        address_with_weight (account_address 7) 1
          (address_with_weight (ed25519_address 9) 4 none_left)))
      threshold

abbrev pub id : ℕ → OutputId
id n = record { transaction_id = n; index = 0 }

-- An account that the signer 5 owns, an output of this account, and an output of the multi address.
abbrev pub resolved : ℕ → ResolvedInputs
resolved threshold = record {
  input_set = λ (i : OutputId).
      if i.transaction_id == 1
      then some account_of_five
      else if i.transaction_id == 2
      then some (basic_of (account_address 7))
      else if i.transaction_id == 3
      then some (basic_of (three_of threshold))
      else none;
  commitment_input = none;
}

abbrev pub transaction : Transaction
transaction = record {
  id = 50;
  signing_message = 100;
  inputs = id 1 ∷ id 2 ∷ id 3 ∷ [];
  outputs = account_of_five ∷ [];
}

abbrev pub unlocks : Unlocks
unlocks = cons (signature_unlock (some (record { public_key = 5; signature = 5 }))) (
    cons (account_unlock 0) (
      cons
        (multi_unlock (cons (reference_unlock 0) (cons (account_unlock 0) (cons empty_unlock nil))))
        nil))

abbrev pub unlocked : UnlockedAddressesSet
unlocked = record {
  cells =
      record {
        address = ed25519_address 5;
        unlocked_at_input_index = 0;
        referenced_by_input_index = [];
      }
      ∷ record {
        address = account_address 7;
        unlocked_at_input_index = 0;
        referenced_by_input_index = 1 ∷ [];
      }
      ∷ record { address = three_of 3; unlocked_at_input_index = 2; referenced_by_input_index = [] }
      ∷ [];
  signature_unlocked_addrs_by_index = (0, 0, record { public_key = 5; signature = 5 }) ∷ [];
  unlocked_addrs_by_addr_key = (40 ∷ 40 ∷ [], 2) ∷ (8 ∷ 7 ∷ [], 1) ∷ (0 ∷ 5 ∷ [], 0) ∷ [];
}

validate_unlocks-AreBacked_example : AreBacked crypto parameters transaction (resolved 3) unlocked
unfolding validate_unlocks unlock_inputs unlock_output owner_to_unlock address_to_unlock
    check_expiration unlock_condition_set resolve_underlying_address unlock_address unlock_weights
    unlock_direct_unlockable_address unlock_direct_by_reference unlock_multi_by_reference
    unlock_chain_address referential_unlock_directly_unlockable
    referential_unlock_non_directly_unlockable add_owner unlock_by_signature unlock length_unlocks
    length_addresses referential add_unlocked add_reference reference_at load find_key find_index
    bytes_equal key is_chain_address is_direct_unlockable matches_address valid unlocked_chain
    chain_id resolve_chain empty_chain from_output_id to_address is_state_transition find_chain
    same_chain chain_output_set add_chain
validate_unlocks-AreBacked_example =
    validate_unlocks-AreBacked crypto parameters transaction (resolved 3) unlocks unlocked refl

-- With a threshold of 4 the weights 2 and 1 are not enough.
threshold_not_reached :
    validate_unlocks crypto parameters transaction (resolved 4) unlocks
    ≡ err (wrapped multi_address_unlock_invalid multi_address_unlock_threshold_not_reached)
unfolding validate_unlocks unlock_inputs unlock_output owner_to_unlock address_to_unlock
    check_expiration unlock_condition_set resolve_underlying_address unlock_address unlock_weights
    unlock_direct_unlockable_address unlock_direct_by_reference unlock_multi_by_reference
    unlock_chain_address referential_unlock_directly_unlockable
    referential_unlock_non_directly_unlockable add_owner unlock_by_signature unlock length_unlocks
    length_addresses referential add_unlocked add_reference reference_at load find_key find_index
    bytes_equal key is_chain_address is_direct_unlockable matches_address valid unlocked_chain
    chain_id resolve_chain empty_chain from_output_id to_address is_state_transition find_chain
    same_chain chain_output_set add_chain
threshold_not_reached = refl
