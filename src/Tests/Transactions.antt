-- ===== src/Tests/Transactions.antt =====
-- The syntactic validation and the storage score at concrete inputs.
use axon_go.Common.{◌≡◌, ◌≢◌, refl, [], ◌∷◌}
use axon_go.Common.Result.{ok, err, panic}
use axon_go.SafeMath.{checked_math}
use axon_go.Address.{ed25519_address, account_address}
use mathlib.Core.List.{Memᴰ}
use axon_go.Outputs.{nft_id, foundry_id, same_chain, empty_chain}
use axon_go.TokenScheme.{syntactical_validation}
use axon_go.Syntax.Accepted.Deposits.{Each}
use axon_go.Syntax.{
  slice_validator, lexical_order_and_uniqueness_validator, bit_mask_has_bit,
  bit_mask_non_trailing_zero_bytes, non_unique_chain_outputs,
}
use axon_go.Syntax.Parts.{
  unlock_condition_type, feature_type, get, add_to_set, must_set, address_size,
  unlock_condition_size, sum_of, map_size, feature_size, unlock_conditions_size, features_size,
  address, storage_deposit_return, timelock, metadata, native_token,
}
use axon_go.Syntax.Outputs.{
  TxEssenceOutput, unlock_conditions_of, features_of, immutable_features_of, amount_of, stored_mana,
  unlock_condition_set, feature_set, must_address, chain_id_of, output_size, basic, nft,
}
use axon_go.Syntax.StorageScore.{
  StorageScoreParameters, StorageScoreStructure, multiply, address_score, unlock_condition_score,
  feature_score, storage_score, new_storage_score_structure, min_deposit, covers_min_deposit,
  min_storage_deposit_for_return_output,
}
use axon_go.Syntax.StorageScore.ImplicitAccounts.{
  implicit_account, block_issuer_account, implicit_account_deposit,
}
use axon_go.Syntax.Checks.{
  ascending, unlock_condition_lexical_order_and_uniqueness, features_lexical_order_and_uniqueness,
  metadata_feature_max_size, deposit_amount, stored_mana_sum, expiration_and_timelock,
  native_tokens, has_chain, chain_constrained_output_uniqueness, foundry_check, account_check,
  anchor_check, nft_check, delegation_check,
}
use axon_go.Syntax.Checks.Addresses.{
  cannot_receive, output_type, check_address_restrictions, address_restrictions,
  implicit_account_creation, commitment_input,
}
use axon_go.Syntax.Transaction.{
  Transaction, ProtocolParameters, has_output_id, inputs_syntactical_unique,
  inputs_syntactical_indices_within_bounds, compare_context_inputs,
  context_inputs_reward_input_max_index, context_inputs_commitment_input_requirement,
  has_commitment_input, max_mana_value, syntactically_validate_essence, validate_output,
  syntactically_validate_outputs, syntactically_validate, commitment_input_of, reward_input,
}
use axon_go.Syntax.Accepted.Essence.{IsWellFormed, syntactically_validate-IsWellFormed}
use axon_go.Syntax.Total.Returns.{syntactically_validate-returns}

abbrev score_parameters : StorageScoreParameters
score_parameters = record {
  storage_cost = 100;
  factor_data = 1;
  offset_output_overhead = 10;
  offset_ed25519_block_issuer_key = 100;
  offset_staking_feature = 100;
  offset_delegation = 100;
}

-- 129 bytes and a key against 53 bytes; 10 and 78 bytes of metadata.
abbrev structure : StorageScoreStructure
structure = record {
  storage_score_parameters = score_parameters;
  offset_implicit_account_creation_address = 176;
  offset_output = 88;
}

structure_is_made : new_storage_score_structure checked_math score_parameters ≡ ok structure
unfolding new_storage_score_structure storage_score multiply output_size unlock_conditions_of
    features_of immutable_features_of sum_of unlock_condition_score feature_score address_score
    unlock_conditions_size features_size unlock_condition_size feature_size address_size
structure_is_made = refl

implicit_account_deposit_example :
    covers_min_deposit checked_math structure (implicit_account 0 0 7) 31700
    ≡ covers_min_deposit checked_math structure (block_issuer_account 0 0 5 9 0 100 11) 31700
implicit_account_deposit_example =
    implicit_account_deposit checked_math score_parameters structure 0 0 7 5 9 0 100 11 31700
      structure_is_made

abbrev parameters : ProtocolParameters
parameters = record { network_id = 3; token_supply = 1000000; bits_count = 63 }

-- A payment with a return of the storage deposit, and an NFT that stays.
abbrev payment : TxEssenceOutput
payment = basic (record {
  amount = 50000;
  mana = 12;
  unlock_conditions =
      address (ed25519_address 1)
      ∷ storage_deposit_return (ed25519_address 2) 20000
      ∷ timelock 5
      ∷ [];
  features = native_token (foundry_id 4 1 0) 30 ∷ [];
})

abbrev kept_nft : TxEssenceOutput
kept_nft = nft (record {
  amount = 60000;
  mana = 0;
  nft_id = 77;
  unlock_conditions = address (account_address 4) ∷ [];
  features = metadata ((1 ∷ [], 2 ∷ 3 ∷ []) ∷ []) ∷ [];
  immutable_features = [];
})

abbrev transaction : Transaction
transaction = record {
  network_id = 3;
  context_inputs = commitment_input_of 9 ∷ reward_input 1 ∷ [];
  inputs = record { transaction_id = 6; index = 0 } ∷ record { transaction_id = 6; index = 1 } ∷ [];
  allotments = record { account_id = 4; mana = 100 } ∷ record { account_id = 8; mana = 5 } ∷ [];
  capabilities = 1 ∷ [];
  outputs = payment ∷ kept_nft ∷ [];
}

transaction_is_valid :
    syntactically_validate checked_math structure parameters transaction
    ≡ ok (record { amounts = 110000; mana = 12; chains = nft_id 77 ∷ [] })
unfolding slice_validator lexical_order_and_uniqueness_validator bit_mask_has_bit
    bit_mask_non_trailing_zero_bytes unlock_condition_type feature_type get add_to_set must_set
    unlock_condition_size sum_of map_size feature_size unlock_conditions_size features_size
    unlock_conditions_of features_of immutable_features_of amount_of stored_mana
    unlock_condition_set feature_set must_address chain_id_of output_size multiply address_score
    unlock_condition_score feature_score storage_score min_deposit covers_min_deposit
    min_storage_deposit_for_return_output ascending unlock_condition_lexical_order_and_uniqueness
    features_lexical_order_and_uniqueness metadata_feature_max_size deposit_amount stored_mana_sum
    expiration_and_timelock native_tokens has_chain chain_constrained_output_uniqueness
    foundry_check account_check anchor_check nft_check delegation_check cannot_receive output_type
    check_address_restrictions address_restrictions implicit_account_creation commitment_input
    has_output_id inputs_syntactical_unique inputs_syntactical_indices_within_bounds
    compare_context_inputs context_inputs_reward_input_max_index
    context_inputs_commitment_input_requirement has_commitment_input max_mana_value
    syntactically_validate_essence validate_output syntactically_validate_outputs
    syntactically_validate address_size same_chain empty_chain syntactical_validation
transaction_is_valid = refl

syntactically_validate-IsWellFormed_example :
    IsWellFormed checked_math structure parameters transaction
syntactically_validate-IsWellFormed_example =
    syntactically_validate-IsWellFormed checked_math structure parameters transaction
      transaction_is_valid

syntactically_validate-returns_example :
    syntactically_validate checked_math structure parameters transaction ≢ panic
unfolding Each
syntactically_validate-returns_example =
    syntactically_validate-returns checked_math structure parameters transaction
      (tt, ((account_address 4, Memᴰ.head refl), tt))

-- An NFT that occurs twice.
twice :
    syntactically_validate checked_math structure parameters
      (record transaction { outputs = kept_nft ∷ kept_nft ∷ [] })
    ≡ err non_unique_chain_outputs
unfolding slice_validator lexical_order_and_uniqueness_validator bit_mask_has_bit
    bit_mask_non_trailing_zero_bytes unlock_condition_type feature_type get add_to_set must_set
    unlock_condition_size sum_of map_size feature_size unlock_conditions_size features_size
    unlock_conditions_of features_of immutable_features_of amount_of stored_mana
    unlock_condition_set feature_set must_address chain_id_of output_size multiply address_score
    unlock_condition_score feature_score storage_score min_deposit covers_min_deposit
    min_storage_deposit_for_return_output ascending unlock_condition_lexical_order_and_uniqueness
    features_lexical_order_and_uniqueness metadata_feature_max_size deposit_amount stored_mana_sum
    expiration_and_timelock native_tokens has_chain chain_constrained_output_uniqueness
    foundry_check account_check anchor_check nft_check delegation_check cannot_receive output_type
    check_address_restrictions address_restrictions implicit_account_creation commitment_input
    has_output_id inputs_syntactical_unique inputs_syntactical_indices_within_bounds
    compare_context_inputs context_inputs_reward_input_max_index
    context_inputs_commitment_input_requirement has_commitment_input max_mana_value
    syntactically_validate_essence validate_output syntactically_validate_outputs
    syntactically_validate address_size same_chain empty_chain syntactical_validation
twice = refl
