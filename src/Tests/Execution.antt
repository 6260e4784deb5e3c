-- ===== src/Tests/Execution.antt =====
-- The executed functions at concrete inputs.
use axon_go.Common.{
  ℕ, ◌+◌, u32, ◌≤◌, ◌≡◌, ◌↔◌, ◌⊎◌, refl, arith, Bool, true, false, Option, some, List, [], ◌∷◌,
}
use axon_go.Common.Result.{ok, err}
use axon_go.Address.{
  Address, ed25519_address, implicit_account_creation_address, restricted_address, key,
  matches_address, valid, is_chain_address, is_direct_unlockable,
}
use axon_go.Merkle.{bytes_equal}
use axon_go.Outputs.{
  Output, basic, foundry_id, no_features, FeatureSet, UnlockConditionSet, unlock_condition_set,
  feature_set, base_token_amount, find_chain, same_chain, empty_chain, from_output_id, to_address,
  chain_id, resolve_chain, add_chain, chain_output_set,
}
use axon_go.Outputs.Expiration.{timelocks_expired}
use axon_go.Vm.{
  return_amount_not_fulfilled, find_key, find_index, load, reference_at, add_reference,
  add_unlocked, has_index, unlocked_by, referential,
}
use axon_go.Vm.Unlocking.{
  unlock, unlock_by_signature, referential_unlock_non_directly_unlockable, add_owner,
  referential_unlock_directly_unlockable, unlock_chain_address, unlock_direct_by_reference,
  unlock_direct_unlockable_address, unlock_multi_by_reference, unlock_address, unlock_weights,
  length_unlocks, length_addresses,
}
use axon_go.Vm.Inputs.{
  Transaction, resolve_underlying_address, check_expiration, is_state_transition, address_to_unlock,
  owner_to_unlock, unlock_output, unlocked_chain, unlock_inputs, validate_unlocks,
}
use axon_go.Vm.Execution.{
  is_unlocked, sender_unlocked, exec_func_sender_unlocked, timelock_passed, exec_func_timelocks,
  exec_func_at_most_one_implicit_account_creation_address,
}
use axon_go.Vm.Execution.Laws.{
  SendersAreBacked, exec_func_sender_unlocked-SendersAreBacked, exec_func_timelocks_lem,
  implicit_accounts, exec_func_at_most_one_implicit_account_creation_address_iff,
}
use axon_go.Vm.BaseTokens.{
  add_sum, find_sum, condition_count, feature_count, is_simple_transfer, add_return, sum_inputs,
  add_transfer, sum_outputs, return_fulfilled, returns_fulfilled, exec_func_balanced_base_tokens,
}
use axon_go.Vm.BaseTokens.Sums.{total, due, paid}
use axon_go.Vm.BaseTokens.Balance.{exec_func_balanced_base_tokens_lem}
use axon_go.Vm.NativeTokens.{
  find_amount, set_amount, max_uint256, add_native_token, native_token_sum, input_token_balanced,
  input_tokens_balanced, output_tokens_balanced, exec_func_balanced_native_tokens,
}
use axon_go.Vm.NativeTokens.Balance.{tokens, exec_func_balanced_native_tokens_lem}
use axon_go.Tests.UnlockedAddresses.{
  crypto, parameters, owned_by, basic_of, account_of_five, resolved, transaction, unlocks, unlocked,
}

abbrev basic_with : ℕ → UnlockConditionSet → FeatureSet → Output
basic_with amount unlock_conditions features = basic (record {
  amount = amount;
  mana = 0;
  unlock_conditions = unlock_conditions;
  features = features;
})

-- The signer 5 sends an output.
abbrev sending : Transaction
sending = record transaction {
  outputs =
      basic_with 1 (owned_by (ed25519_address 9))
        (record no_features { sender = some (ed25519_address 5) })
      ∷ account_of_five
      ∷ [];
}

exec_func_sender_unlocked-SendersAreBacked_example :
    SendersAreBacked crypto parameters sending (resolved 3) unlocked
unfolding validate_unlocks unlock_inputs unlock_output owner_to_unlock address_to_unlock
    check_expiration unlock_condition_set resolve_underlying_address unlock_address unlock_weights
    unlock_direct_unlockable_address unlock_direct_by_reference unlock_multi_by_reference
    unlock_chain_address referential_unlock_directly_unlockable
    referential_unlock_non_directly_unlockable add_owner unlock_by_signature unlock length_unlocks
    length_addresses referential add_unlocked add_reference reference_at load find_key find_index
    bytes_equal key is_chain_address is_direct_unlockable matches_address valid unlocked_chain
    chain_id resolve_chain empty_chain from_output_id to_address is_state_transition find_chain
    same_chain chain_output_set add_chain feature_set exec_func_sender_unlocked sender_unlocked
    is_unlocked
exec_func_sender_unlocked-SendersAreBacked_example =
    exec_func_sender_unlocked-SendersAreBacked crypto parameters sending (resolved 3) unlocks
      unlocked refl refl

-- An input of 10 owes 4 to the signer 9, who gets 6.
abbrev owing : List Output
owing =
    basic_with 10
      (record (owned_by (ed25519_address 5)) {
        storage_deposit_return = some (ed25519_address 9, 4);
      })
      no_features
    ∷ []

abbrev returning : List Output
returning =
    basic_with 6 (owned_by (ed25519_address 9)) no_features
    ∷ basic_with 4 (owned_by (ed25519_address 5)) no_features
    ∷ []

exec_func_balanced_base_tokens_lem_example :
    (total owing ≡ total returning)
    × ((k : List ℕ) → due crypto unlocked owing 0 k ≤ paid crypto returning k)
unfolding exec_func_balanced_base_tokens sum_inputs add_return unlock_condition_set unlocked_by
    find_key bytes_equal key load has_index add_sum base_token_amount sum_outputs add_transfer
    is_simple_transfer condition_count feature_count returns_fulfilled return_fulfilled find_sum
    total
exec_func_balanced_base_tokens_lem_example =
    exec_func_balanced_base_tokens_lem crypto unlocked owing returning
      (λ a amount e. ground arith, tt) (omega arith) (omega arith) refl

abbrev holding : ℕ → List Output
holding amount =
    basic_with 1 (owned_by (ed25519_address 5))
      (record no_features { native_token = some (foundry_id 7 1 0, amount) })
    ∷ []

exec_func_balanced_native_tokens_lem_example :
    (tokens (holding 5) (foundry_id 7 1 0) ≤ tokens (holding 5) (foundry_id 7 1 0))
    × ((◌≡◌ {A = Bool} true false)
        ⊎ (tokens (holding 5) (foundry_id 7 1 0) ≡ tokens (holding 5) (foundry_id 7 1 0)))
unfolding exec_func_balanced_native_tokens native_token_sum add_native_token feature_set find_amount
    set_amount max_uint256 input_tokens_balanced input_token_balanced output_tokens_balanced
    find_chain same_chain
exec_func_balanced_native_tokens_lem_example =
    exec_func_balanced_native_tokens_lem true [] (holding 5) (holding 5) (foundry_id 7 1 0) refl
      refl

abbrev locked : Output
locked = basic_with 1 (record (owned_by (ed25519_address 5)) { timelock = some 105 }) no_features

exec_func_timelocks_lem_example :
    (c : ℕ) × (◌≡◌ {A = Option ℕ} (some 100) (some c)) × (105 ≤ u32 (c + 10))
unfolding exec_func_timelocks timelock_passed timelocks_expired unlock_condition_set
exec_func_timelocks_lem_example =
    exec_func_timelocks_lem parameters (some 100) (basic_of (ed25519_address 5) ∷ locked ∷ []) 1
      locked 105 refl refl refl

abbrev implicit : Output
implicit = basic_of (implicit_account_creation_address 5)

exec_func_at_most_one_implicit_account_creation_address_iff_example :
    (exec_func_at_most_one_implicit_account_creation_address (implicit ∷ implicit ∷ []) ≡ ok tt)
    ↔ (implicit_accounts (implicit ∷ implicit ∷ []) ≤ 1)
exec_func_at_most_one_implicit_account_creation_address_iff_example =
    exec_func_at_most_one_implicit_account_creation_address_iff (implicit ∷ implicit ∷ [])

-- The signer 9 gets its return by a restricted address, and unlocks the input itself, after it expired.
-- The set of unlocked addresses has the address without its restriction, so that the input owes to the
-- restricted address still.
abbrev restricted_nine : Address
restricted_nine = restricted_address (ed25519_address 9) (1 ∷ [])

restricted_return :
    exec_func_balanced_base_tokens crypto
      (record {
        cells =
            record {
              address = ed25519_address 9;
              unlocked_at_input_index = 0;
              referenced_by_input_index = [];
            }
            ∷ [];
        signature_unlocked_addrs_by_index = [];
        unlocked_addrs_by_addr_key = (0 ∷ 9 ∷ [], 0) ∷ [];
      })
      (basic_with 10
          (record (owned_by (ed25519_address 5)) {
            storage_deposit_return = some (restricted_nine, 4);
            expiration = some (restricted_nine, 50);
          })
          no_features
        ∷ [])
      (basic_with 10 (owned_by (ed25519_address 9)) no_features ∷ [])
    ≡ err return_amount_not_fulfilled
unfolding exec_func_balanced_base_tokens sum_inputs add_return unlock_condition_set unlocked_by
    find_key bytes_equal key load has_index add_sum base_token_amount sum_outputs add_transfer
    is_simple_transfer condition_count feature_count returns_fulfilled return_fulfilled find_sum
restricted_return = refl
