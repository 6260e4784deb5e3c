-- ===== src/Syntax/Checks.antt =====
-- output.go: the validators of the outputs of a transaction, one output at a time. The sums of amounts
-- and of Mana and the chains that were seen are the captured variables of three of them.
pub mod Addresses
use Prim.Native.Nat.{Ordering, compare}
use axon_go.Common.{
  ℕ, ◌+◌, ◌==◌, Bool, true, false, not, ◌&&◌, Option, none, some, List, [], ◌∷◌, if◌then◌else◌, ltb,
}
use axon_go.Common.Result.{Result, ok, err, panic, ◌>>=◌, ◌>>◌, reject_if}
use axon_go.SafeMath.{SafeMath}
use axon_go.TokenScheme
use axon_go.TokenScheme.{syntactical_validation}
use axon_go.Address.{Address, account_address, anchor_address, nft_address}
use axon_go.Outputs.{ChainId, same_chain, empty_chain}
use axon_go.Syntax.{
  Error, slice_validator, lexical_order_and_uniqueness_validator, max_mana_exceeded,
  metadata_exceeds_max_size, amount_must_be_greater_than_zero, outputs_sum_exceeds_total_supply,
  storage_deposit_less_than_min_return_output_storage_deposit,
  storage_deposit_exceeds_target_output_amount, native_token_amount_less_than_equal_zero,
  expiration_condition_zero, timelock_condition_zero, non_unique_chain_outputs,
  token_scheme_invalid, foundry_id_native_token_id_mismatch, account_output_non_empty_state,
  account_output_cyclic_address, account_output_amount_less_than_staked_amount,
  staking_block_issuer_feature_missing, anchor_output_non_empty_state, anchor_output_cyclic_address,
  nft_output_cyclic_address, delegation_validator_address_empty,
}
use axon_go.Syntax.Parts.{
  UnlockCondition, Feature, storage_deposit_return, timelock, expiration, native_token, staking,
  unlock_condition_type, feature_type, metadata_entries, map_size, present,
}
use axon_go.Syntax.Outputs.{
  TxEssenceOutput, basic, account, anchor, foundry, nft, delegation, AccountOutput,
  unlock_conditions_of, features_of, immutable_features_of, amount_of, stored_mana,
  unlock_condition_set, feature_set, condition, feature, must_address, foundry_id_of, chain_id_of,
}
use axon_go.Syntax.StorageScore.{
  StorageScoreStructure, covers_min_deposit, min_storage_deposit_for_return_output,
}

-- The order and uniqueness of the types in a slice.
unfoldable pub ascending {ℓ} : {A : Type ℓ} → (A → ℕ) → List A → Result Error (Unit {0})
ascending type_of slice = do
  last ←
      slice_validator
        (lexical_order_and_uniqueness_validator (λ a b. compare (type_of a) (type_of b))) slice none
  ok tt

unfoldable pub unlock_condition_lexical_order_and_uniqueness :
    TxEssenceOutput → Result Error (Unit {0})
unlock_condition_lexical_order_and_uniqueness output =
    ascending unlock_condition_type (unlock_conditions_of output)

unfoldable pub features_lexical_order_and_uniqueness : TxEssenceOutput → Result Error (Unit {0})
features_lexical_order_and_uniqueness output = do
  ascending feature_type (features_of output)
  ascending feature_type (immutable_features_of output)

abbrev max_metadata_map_size : ℕ
max_metadata_map_size = 8192

abbrev pub check_max_size : Option (List (List ℕ × List ℕ)) → Result Error (Unit {0})
check_max_size none = ok tt
check_max_size (some entries) =
    reject_if (ltb max_metadata_map_size (map_size entries)) metadata_exceeds_max_size

unfoldable pub metadata_feature_max_size : TxEssenceOutput → Result Error (Unit {0})
metadata_feature_max_size output = do
  set ← feature_set output
  check_max_size (metadata_entries (feature set 3))
  check_max_size (metadata_entries (feature set 2))

-- A checked sum, with the error for its overflow and for a sum above a limit.
abbrev pub limited : Option ℕ → ℕ → Error → Result Error ℕ
limited none limit e = err e
limited (some sum) limit e = reject_if (ltb limit sum) e >> ok sum

module _ (math : SafeMath) where
  abbrev pub return_covered :
      StorageScoreStructure → ℕ → Option UnlockCondition → Result Error (Unit {0})
  return_covered structure amount (some (storage_deposit_return a returned)) = do
    least ← min_storage_deposit_for_return_output math structure a
    reject_if (ltb returned least) storage_deposit_less_than_min_return_output_storage_deposit
    reject_if (ltb amount returned) storage_deposit_exceeds_target_output_amount
  return_covered structure amount condition = ok tt

  -- The state is the sum of the amounts.
  unfoldable pub deposit_amount : StorageScoreStructure → ℕ → TxEssenceOutput → ℕ → Result Error ℕ
  deposit_amount structure token_supply output sum = do
    reject_if (amount_of output == 0) amount_must_be_greater_than_zero
    sum' ←
        limited (math.safe_add 64 sum (amount_of output)) token_supply
          outputs_sum_exceeds_total_supply
    least ← covers_min_deposit math structure output (amount_of output)
    set ← unlock_condition_set output
    return_covered structure (amount_of output) (condition set 1)
    ok sum'

  -- The state is the sum of the stored Mana.
  unfoldable pub stored_mana_sum : ℕ → TxEssenceOutput → ℕ → Result Error ℕ
  stored_mana_sum max_mana_value output sum =
      limited (math.safe_add 64 sum (stored_mana output)) max_mana_value max_mana_exceeded

abbrev pub expiration_not_zero : Option UnlockCondition → Result Error (Unit {0})
expiration_not_zero (some (expiration a slot)) = reject_if (slot == 0) expiration_condition_zero
expiration_not_zero condition = ok tt

abbrev pub timelock_not_zero : Option UnlockCondition → Result Error (Unit {0})
timelock_not_zero (some (timelock slot)) = reject_if (slot == 0) timelock_condition_zero
timelock_not_zero condition = ok tt

unfoldable pub expiration_and_timelock : TxEssenceOutput → Result Error (Unit {0})
expiration_and_timelock output = do
  set ← unlock_condition_set output
  expiration_not_zero (condition set 3)
  timelock_not_zero (condition set 2)

abbrev pub native_token_not_zero : Option Feature → Result Error (Unit {0})
native_token_not_zero (some (native_token id amount)) =
    reject_if (amount == 0) native_token_amount_less_than_equal_zero
native_token_not_zero feature = ok tt

unfoldable pub native_tokens : TxEssenceOutput → Result Error (Unit {0})
native_tokens output = do set ← feature_set output; native_token_not_zero (feature set 5)

unfoldable pub has_chain : List ChainId → ChainId → Bool
has_chain [] id = false
has_chain (known ∷ chains) id = if same_chain known id then true else has_chain chains id

abbrev pub add_unique : Option ChainId → List ChainId → Result Error (List ChainId)
add_unique none chains = ok chains
add_unique (some id) chains =
    if empty_chain id
    then ok chains
    else if has_chain chains id
    then err non_unique_chain_outputs
    else ok (id ∷ chains)

-- The state is the chains that were seen; the outputs that the map has for them are not read.
unfoldable pub chain_constrained_output_uniqueness :
    TxEssenceOutput → List ChainId → Result Error (List ChainId)
chain_constrained_output_uniqueness output chains = do id ← chain_id_of output; add_unique id chains

abbrev token_scheme_valid : Result TokenScheme.Error (Unit {0}) → Result Error (Unit {0})
token_scheme_valid (ok valid) = ok valid
token_scheme_valid (err e) = err (token_scheme_invalid e)
token_scheme_valid panic = panic

abbrev pub token_of : Option Feature → Option ChainId
token_of (some (native_token id amount)) = some id
token_of feature = none

unfoldable pub foundry_check : TxEssenceOutput → Result Error (Unit {0})
foundry_check (foundry o) = do
  token_scheme_valid (syntactical_validation o.token_scheme)
  set ← feature_set (foundry o)
  elim (token_of (feature set 5)) [
    | none ↦ ok tt
    | some id ↦ foundry_id_of o >>= λ own.
        reject_if (not (same_chain own id)) foundry_id_native_token_id_mismatch
  ]
foundry_check output = ok tt

abbrev is_account_address : Address → ℕ → Bool
is_account_address (account_address a) id = a == id
is_account_address a id = false

abbrev is_anchor_address : Address → ℕ → Bool
is_anchor_address (anchor_address a) id = a == id
is_anchor_address a id = false

abbrev is_nft_address : Address → ℕ → Bool
is_nft_address (nft_address a) id = a == id
is_nft_address a id = false

abbrev pub stake_covered : ℕ → List Feature → Option Feature → Result Error (Unit {0})
stake_covered amount set (some (staking staked cost start end)) = do
  reject_if (ltb amount staked) account_output_amount_less_than_staked_amount
  reject_if (not (present (feature set 6))) staking_block_issuer_feature_missing
stake_covered amount set feature = ok tt

unfoldable pub account_check : TxEssenceOutput → Result Error (Unit {0})
account_check (account o) = do
  reject_if (o.account_id == 0 && not (o.foundry_counter == 0)) account_output_non_empty_state
  owner ← must_address o.unlock_conditions 0
  reject_if (is_account_address owner o.account_id) account_output_cyclic_address
  set ← feature_set (account o)
  stake_covered o.amount set (feature set 7)
account_check output = ok tt

unfoldable pub anchor_check : TxEssenceOutput → Result Error (Unit {0})
anchor_check (anchor o) =
    if o.anchor_id == 0
    then reject_if (not (o.state_index == 0)) anchor_output_non_empty_state
    else must_address o.unlock_conditions 4 >>= λ controller.
        reject_if (is_anchor_address controller o.anchor_id) anchor_output_cyclic_address
        >> (must_address o.unlock_conditions 5 >>= λ governor.
            reject_if (is_anchor_address governor o.anchor_id) anchor_output_cyclic_address)
anchor_check output = ok tt

unfoldable pub nft_check : TxEssenceOutput → Result Error (Unit {0})
nft_check (nft o) =
    if o.nft_id == 0
    then ok tt
    else must_address o.unlock_conditions 0 >>= λ owner.
        reject_if (is_nft_address owner o.nft_id) nft_output_cyclic_address
nft_check output = ok tt

unfoldable pub delegation_check : TxEssenceOutput → Result Error (Unit {0})
delegation_check (delegation o) =
    reject_if (o.validator_address == 0) delegation_validator_address_empty
delegation_check output = ok tt
