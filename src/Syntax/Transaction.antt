-- ===== src/Syntax/Transaction.antt =====
-- transaction.go, transaction_essence.go, input.go, input_context.go, input_*.go, allotment.go: the
-- validators of the essence of a transaction, and the syntactic validation of the whole.
use Prim.Native.Nat.{Ordering, compare}
use axon_go.Common.{
  ℕ, ◌^◌, ◌==◌, Bool, true, false, not, ◌&&◌, Option, none, List, [], ◌∷◌, if◌then◌else◌, ltb, leb,
  u16, u64, sub64, length,
}
use axon_go.Common.Result.{Result, ok, err, ◌>>=◌, ◌>>◌, reject_if}
use axon_go.SafeMath.{SafeMath}
use axon_go.Address.{OutputId}
use axon_go.Outputs.{ChainId}
use axon_go.Syntax.{
  Error, slice_validator, lexical_order_and_uniqueness_validator, bit_mask_non_trailing_zero_bytes,
  tx_essence_network_id_invalid, input_utxo_refs_not_unique, ref_utxo_index_invalid,
  input_reward_index_exceeds_max_inputs_count, commitment_input_missing, max_mana_exceeded,
}
use axon_go.Syntax.Outputs.{TxEssenceOutput}
use axon_go.Syntax.StorageScore.{StorageScoreStructure}
use axon_go.Syntax.Checks.{
  unlock_condition_lexical_order_and_uniqueness, features_lexical_order_and_uniqueness,
  metadata_feature_max_size, deposit_amount, stored_mana_sum, expiration_and_timelock,
  native_tokens, chain_constrained_output_uniqueness, foundry_check, account_check, anchor_check,
  nft_check, delegation_check, limited,
}
use axon_go.Syntax.Checks.Addresses.{
  address_restrictions, implicit_account_creation, commitment_input,
}

-- A commitment, the account whose block issuance credit is read, or the index of an input.
pub data ContextInput : Type 0 where
  commitment_input_of block_issuance_credit_input reward_input : ℕ → ContextInput

pub record Allotment : Type 0 where
  pub account_id : ℕ
  pub mana : ℕ

pub record Transaction : Type 0 where
  pub network_id : ℕ
  pub context_inputs : List ContextInput
  pub inputs : List OutputId
  pub allotments : List Allotment
  pub capabilities : List ℕ
  pub outputs : List TxEssenceOutput

pub record ProtocolParameters : Type 0 where
  pub network_id : ℕ
  pub token_supply : ℕ
  pub bits_count : ℕ

abbrev pub same_output_id : OutputId → OutputId → Bool
same_output_id a b = (a.transaction_id == b.transaction_id) && (a.index == b.index)

unfoldable pub has_output_id : List OutputId → OutputId → Bool
has_output_id [] id = false
has_output_id (known ∷ ids) id = if same_output_id known id then true else has_output_id ids id

-- The state is the inputs that were seen.
unfoldable pub inputs_syntactical_unique : OutputId → List OutputId → Result Error (List OutputId)
inputs_syntactical_unique input seen =
    if has_output_id seen input then err input_utxo_refs_not_unique else ok (input ∷ seen)

-- At most 128 outputs are in a transaction; an index is not negative.
unfoldable pub inputs_syntactical_indices_within_bounds : OutputId → Result Error (Unit {0})
inputs_syntactical_indices_within_bounds input =
    reject_if (ltb 127 input.index) ref_utxo_index_invalid

unfoldable pub compare_context_inputs : ContextInput → ContextInput → Ordering
compare_context_inputs (commitment_input_of a) (commitment_input_of b) = Ordering.eq
compare_context_inputs (commitment_input_of a) other = Ordering.lt
compare_context_inputs (block_issuance_credit_input a) (commitment_input_of b) = Ordering.gt
compare_context_inputs (block_issuance_credit_input a) (block_issuance_credit_input b) = compare a b
compare_context_inputs (block_issuance_credit_input a) (reward_input b) = Ordering.lt
compare_context_inputs (reward_input a) (reward_input b) = compare a b
compare_context_inputs (reward_input a) other = Ordering.gt

unfoldable pub context_inputs_reward_input_max_index : ℕ → ContextInput → Result Error (Unit {0})
context_inputs_reward_input_max_index inputs_count (reward_input index) =
    reject_if (leb inputs_count index) input_reward_index_exceeds_max_inputs_count
context_inputs_reward_input_max_index inputs_count input = ok tt

-- The state says whether a commitment input was seen.
unfoldable pub context_inputs_commitment_input_requirement : ContextInput → Bool → Result Error Bool
context_inputs_commitment_input_requirement (commitment_input_of a) seen = ok true
context_inputs_commitment_input_requirement (block_issuance_credit_input a) seen =
    reject_if (not seen) commitment_input_missing >> ok seen
context_inputs_commitment_input_requirement (reward_input index) seen =
    reject_if (not seen) commitment_input_missing >> ok seen

unfoldable pub has_commitment_input : List ContextInput → Bool
has_commitment_input [] = false
has_commitment_input (commitment_input_of a ∷ inputs) = true
has_commitment_input (input ∷ inputs) = has_commitment_input inputs

-- `1 << bits_count - 1` on uint64.
unfoldable pub max_mana_value : ℕ → ℕ
max_mana_value bits_count = sub64 (u64 (2 ^ bits_count)) 1

-- The validators of an element, in the order in which they are given.
abbrev pub input_validator : OutputId → List OutputId → Result Error (List OutputId)
input_validator input seen = do
  seen' ← inputs_syntactical_unique input seen
  inputs_syntactical_indices_within_bounds input
  ok seen'

abbrev pub context_input_validator :
    ℕ → ContextInput → Option ContextInput × Bool → Result Error (Option ContextInput × Bool)
context_input_validator inputs_count input (prev, seen) = do
  prev' ← lexical_order_and_uniqueness_validator compare_context_inputs input prev
  context_inputs_reward_input_max_index inputs_count input
  seen' ← context_inputs_commitment_input_requirement input seen
  ok (prev', seen')

-- The variables that the validators of the outputs capture.
pub record Captured : Type 0 where
  pub amounts : ℕ
  pub mana : ℕ
  pub chains : List ChainId

abbrev pub nothing_captured : Captured
nothing_captured = record { amounts = 0; mana = 0; chains = [] }

module _ (math : SafeMath) where
  abbrev pub allotment_max_mana_validator : ℕ → Allotment → ℕ → Result Error ℕ
  allotment_max_mana_validator limit a sum =
      limited (math.safe_add 64 sum a.mana) limit max_mana_exceeded

  abbrev pub allotment_validator :
      ℕ → Allotment → Option Allotment × ℕ → Result Error (Option Allotment × ℕ)
  allotment_validator limit a (prev, sum) = do
    prev' ←
        lexical_order_and_uniqueness_validator
          (λ (x y : Allotment). compare x.account_id y.account_id) a prev
    sum' ← allotment_max_mana_validator limit a sum
    ok (prev', sum')

  unfoldable pub syntactically_validate_essence :
      ProtocolParameters → Transaction → Result Error (Unit {0})
  syntactically_validate_essence parameters t = do
    bit_mask_non_trailing_zero_bytes t.capabilities
    reject_if (not (t.network_id == parameters.network_id)) tx_essence_network_id_invalid
    seen ← slice_validator input_validator t.inputs []
    last ←
        slice_validator (context_input_validator (u16 (length t.inputs))) t.context_inputs
          (none, false)
    sum ←
        slice_validator (allotment_validator (max_mana_value parameters.bits_count)) t.allotments
          (none, 0)
    ok tt

  module _ (structure : StorageScoreStructure) (parameters : ProtocolParameters) where
    unfoldable pub validate_output : Bool → TxEssenceOutput → Captured → Result Error Captured
    validate_output committed output s = do
      unlock_condition_lexical_order_and_uniqueness output
      features_lexical_order_and_uniqueness output
      metadata_feature_max_size output
      amounts ← deposit_amount math structure parameters.token_supply output s.amounts
      expiration_and_timelock output
      native_tokens output
      mana ← stored_mana_sum math (max_mana_value parameters.bits_count) output s.mana
      chains ← chain_constrained_output_uniqueness output s.chains
      foundry_check output
      account_check output
      anchor_check output
      nft_check output
      delegation_check output
      address_restrictions output
      implicit_account_creation output
      commitment_input committed output
      ok (record { amounts = amounts; mana = mana; chains = chains })

    unfoldable pub syntactically_validate_outputs :
        Bool → List TxEssenceOutput → Captured → Result Error Captured
    syntactically_validate_outputs committed = slice_validator (validate_output committed)

    -- `SyntacticallyValidate` of a transaction; what its validators captured is given back.
    unfoldable pub syntactically_validate : Transaction → Result Error Captured
    syntactically_validate t = do
      syntactically_validate_essence parameters t
      syntactically_validate_outputs (has_commitment_input t.context_inputs) t.outputs
          nothing_captured
