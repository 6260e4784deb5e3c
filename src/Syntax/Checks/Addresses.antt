-- ===== src/Syntax/Checks/Addresses.antt =====
-- output.go, address_restricted.go, address_implicit_account_creation.go,
-- address_capabilities_bitmask.go: the validators of the addresses of an output, and the one of the
-- commitment input.
use axon_go.Common.{ℕ, ◌==◌, Bool, true, false, not, ◌&&◌, ◌||◌, none, some, List}
use axon_go.Common.Result.{Result, ok, ◌>>=◌, ◌>>◌, reject_if}
use axon_go.Address.{Address, implicit_account_creation_address, restricted_address}
use axon_go.Syntax.{
  Error, bit_mask_has_bit, address_cannot_receive_native_tokens, address_cannot_receive_mana,
  address_cannot_receive_timelock_unlock_condition,
  address_cannot_receive_expiration_unlock_condition,
  address_cannot_receive_storage_deposit_return_unlock_condition,
  address_cannot_receive_account_output, address_cannot_receive_anchor_output,
  address_cannot_receive_nft_output, address_cannot_receive_delegation_output,
  implicit_account_creation_address_in_invalid_output, staking_commitment_input_missing,
  block_issuer_commitment_input_missing, delegation_commitment_input_missing,
}
use axon_go.Syntax.Parts.{UnlockCondition, condition_address, present}
use axon_go.Syntax.Outputs.{
  TxEssenceOutput, basic, account, anchor, foundry, nft, delegation, stored_mana,
  unlock_condition_set, feature_set, condition, feature, must_address,
}

-- The `CannotReceive…` methods, by the bit of the capability. An address without capabilities can
-- receive everything; an implicit account creation address only native tokens and Mana.
unfoldable pub cannot_receive : Address → ℕ → Bool
cannot_receive (implicit_account_creation_address a) bit = not ((bit == 0) || (bit == 1))
cannot_receive (restricted_address underlying capabilities) bit =
    not (bit_mask_has_bit capabilities bit)
cannot_receive a bit = false

unfoldable pub output_type : TxEssenceOutput → ℕ
output_type (basic o) = 0
output_type (account o) = 1
output_type (anchor o) = 2
output_type (foundry o) = 3
output_type (nft o) = 4
output_type (delegation o) = 5

-- The features are read only where the address cannot receive native tokens.
abbrev pub no_native_token : TxEssenceOutput → Bool → Result Error (Unit {0})
no_native_token output false = ok tt
no_native_token output true = do
  set ← feature_set output
  reject_if (present (feature set 5)) address_cannot_receive_native_tokens

-- The set of the output's conditions is an argument: the caller has it already.
unfoldable pub check_address_restrictions :
    TxEssenceOutput → List UnlockCondition → Address → Result Error (Unit {0})
check_address_restrictions output set a = do
  no_native_token output (cannot_receive a 0)
  reject_if (cannot_receive a 1 && not (stored_mana output == 0)) address_cannot_receive_mana
  reject_if (cannot_receive a 2 && present (condition set 2))
      address_cannot_receive_timelock_unlock_condition
  reject_if (cannot_receive a 3 && present (condition set 3))
      address_cannot_receive_expiration_unlock_condition
  reject_if (cannot_receive a 4 && present (condition set 1))
      address_cannot_receive_storage_deposit_return_unlock_condition
  reject_if (cannot_receive a 5 && (output_type output == 1)) address_cannot_receive_account_output
  reject_if (cannot_receive a 6 && (output_type output == 2)) address_cannot_receive_anchor_output
  reject_if (cannot_receive a 7 && (output_type output == 4)) address_cannot_receive_nft_output
  reject_if (cannot_receive a 8 && (output_type output == 5))
      address_cannot_receive_delegation_output

-- The restrictions of the address of a condition, if the set has one of this type.
abbrev pub restrictions_of : TxEssenceOutput → List UnlockCondition → ℕ → Result Error (Unit {0})
restrictions_of output set type = elim (condition_address (condition set type)) [
  | none ↦ ok tt
  | some a ↦ check_address_restrictions output set a
]

unfoldable pub address_restrictions : TxEssenceOutput → Result Error (Unit {0})
address_restrictions output = do
  set ← unlock_condition_set output
  restrictions_of output set 0
  restrictions_of output set 4
  restrictions_of output set 5
  restrictions_of output set 3

abbrev pub creates_implicit_account : Address → Bool
creates_implicit_account (implicit_account_creation_address a) = true
creates_implicit_account a = false

abbrev pub no_implicit_account : List UnlockCondition → Result Error (Unit {0})
no_implicit_account conditions = do
  a ← must_address conditions 0
  reject_if (creates_implicit_account a) implicit_account_creation_address_in_invalid_output

unfoldable pub implicit_account_creation : TxEssenceOutput → Result Error (Unit {0})
implicit_account_creation (basic o) = ok tt
implicit_account_creation (foundry o) = ok tt
implicit_account_creation (account o) = no_implicit_account o.unlock_conditions
implicit_account_creation (nft o) = no_implicit_account o.unlock_conditions
implicit_account_creation (delegation o) = no_implicit_account o.unlock_conditions
implicit_account_creation (anchor o) = do
  controller ← must_address o.unlock_conditions 4
  governor ← must_address o.unlock_conditions 5
  reject_if (creates_implicit_account controller || creates_implicit_account governor)
      implicit_account_creation_address_in_invalid_output

unfoldable pub commitment_input : Bool → TxEssenceOutput → Result Error (Unit {0})
commitment_input has_commitment_input output = do
  set ← feature_set output
  reject_if (present (feature set 7) && not has_commitment_input) staking_commitment_input_missing
  reject_if (present (feature set 6) && not has_commitment_input)
      block_issuer_commitment_input_missing
  reject_if ((output_type output == 5) && not has_commitment_input)
      delegation_commitment_input_missing
