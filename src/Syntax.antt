-- ===== src/Syntax.antt =====
-- syntax_validator.go, bitmask.go: the validators of the elements of a slice. A validator is a closure:
-- the variables that it captures are its state, which it takes and gives back. An index that only the
-- message of an error has is left out.
pub mod Parts
pub mod Outputs
pub mod StorageScore
pub mod Checks
pub mod Transaction
pub mod Sets
pub mod Accepted
pub mod Total
use Prim.Native.Nat.{Ordering, bit_and}
use axon_go.Common.{
  ℕ, ◌/◌, ◌%◌, ◌^◌, ◌==◌, Bool, true, false, not, Option, none, some, List, [], ◌∷◌, if◌then◌else◌,
  get_elem?,
}
use axon_go.Common.Result.{Result, ok, err, panic, ◌>>=◌, ◌>>◌, reject_if}
use axon_go.TokenScheme

-- The sentinel errors of the validators.
pub data Error : Type 0 where
  array_validation_order_violates_lexical_order array_validation_violates_uniqueness : Error
  bitmask_trailing_zero_bytes tx_essence_network_id_invalid : Error
  input_utxo_refs_not_unique ref_utxo_index_invalid : Error
  input_reward_index_exceeds_max_inputs_count commitment_input_missing : Error
  max_mana_exceeded metadata_exceeds_max_size : Error
  amount_must_be_greater_than_zero outputs_sum_exceeds_total_supply : Error
  storage_deposit_overflow storage_deposit_not_covered : Error
  storage_deposit_less_than_min_return_output_storage_deposit : Error
  storage_deposit_exceeds_target_output_amount : Error
  native_token_amount_less_than_equal_zero : Error
  expiration_condition_zero timelock_condition_zero non_unique_chain_outputs : Error
  token_scheme_invalid : TokenScheme.Error → Error
  foundry_id_native_token_id_mismatch : Error
  account_output_non_empty_state account_output_cyclic_address : Error
  account_output_amount_less_than_staked_amount staking_block_issuer_feature_missing : Error
  anchor_output_non_empty_state anchor_output_cyclic_address nft_output_cyclic_address : Error
  delegation_validator_address_empty : Error
  address_cannot_receive_native_tokens address_cannot_receive_mana : Error
  address_cannot_receive_timelock_unlock_condition : Error
  address_cannot_receive_expiration_unlock_condition : Error
  address_cannot_receive_storage_deposit_return_unlock_condition : Error
  address_cannot_receive_account_output address_cannot_receive_anchor_output : Error
  address_cannot_receive_nft_output address_cannot_receive_delegation_output : Error
  implicit_account_creation_address_in_invalid_output : Error
  staking_commitment_input_missing block_issuer_commitment_input_missing : Error
  delegation_commitment_input_missing : Error

module _ {κ ℓ} {A : Type κ} {S : Type ℓ} where
  -- `SliceValidator`: the validators of an element, one after the other, are one function.
  unfoldable pub slice_validator : (A → S → Result Error S) → List A → S → Result Error S
  slice_validator validate [] s = ok s
  slice_validator validate (a ∷ slice) s = do s' ← validate a s; slice_validator validate slice s'

module _ {ℓ} {A : Type ℓ} where
  abbrev pub after : Ordering → A → Result Error (Option A)
  after Ordering.gt next = err array_validation_order_violates_lexical_order
  after Ordering.eq next = err array_validation_violates_uniqueness
  after Ordering.lt next = ok (some next)

  -- The state is the previous element.
  unfoldable pub lexical_order_and_uniqueness_validator :
      (A → A → Ordering) → A → Option A → Result Error (Option A)
  lexical_order_and_uniqueness_validator compare next none = ok (some next)
  lexical_order_and_uniqueness_validator compare next (some prev) = after (compare prev next) next

unfoldable pub bit_mask_has_bit : List ℕ → ℕ → Bool
bit_mask_has_bit bm bit = elim (get_elem? bm (bit / 8)) [
  | none ↦ false
  | some byte ↦ not (bit_and byte (2 ^ (bit % 8)) == 0)
]

unfoldable pub bit_mask_non_trailing_zero_bytes : List ℕ → Result Error (Unit {0})
bit_mask_non_trailing_zero_bytes [] = ok tt
bit_mask_non_trailing_zero_bytes (byte ∷ []) = reject_if (byte == 0) bitmask_trailing_zero_bytes
bit_mask_non_trailing_zero_bytes (byte ∷ next ∷ bm) = bit_mask_non_trailing_zero_bytes (next ∷ bm)
