-- ===== src/Syntax/StorageScore.antt =====
-- storagescore.go and the methods `StorageScore`: the storage score of outputs, the structure with the
-- offsets that come from the parameters, and the deposit that an output has to cover. Scores are uint64.
pub mod ImplicitAccounts
use axon_go.Common.{ℕ, ◌+◌, ◌*◌, Bool, Option, none, some, List, [], ◌∷◌, ltb, u64, sub64, length}
use axon_go.Common.Result.{Result, ok, err, panic, ◌>>=◌, ◌>>◌, reject_if}
use axon_go.SafeMath.{SafeMath}
use axon_go.Address.{Address, ed25519_address, implicit_account_creation_address}
use axon_go.Syntax.{Error, storage_deposit_overflow, storage_deposit_not_covered}
use axon_go.Syntax.Parts.{
  UnlockCondition, Feature, address, storage_deposit_return, expiration, state_controller_address,
  governor_address, sender, issuer, block_issuer, staking, sum_of,
}
use axon_go.Syntax.Outputs.{
  TxEssenceOutput, basic, account, delegation, output_size, unlock_conditions_of, features_of,
  immutable_features_of,
}

pub record StorageScoreParameters : Type 0 where
  pub storage_cost : ℕ
  pub factor_data : ℕ
  pub offset_output_overhead : ℕ
  pub offset_ed25519_block_issuer_key : ℕ
  pub offset_staking_feature : ℕ
  pub offset_delegation : ℕ

pub record StorageScoreStructure : Type 0 where
  pub storage_score_parameters : StorageScoreParameters
  pub offset_implicit_account_creation_address : ℕ
  pub offset_output : ℕ

-- `Multiply` of a factor.
unfoldable pub multiply : ℕ → ℕ → ℕ
multiply factor score = u64 (factor * score)

module _ (structure : StorageScoreStructure) where
  unfoldable pub address_score : Address → ℕ
  address_score (implicit_account_creation_address a) =
      structure.offset_implicit_account_creation_address
  address_score a = 0

  unfoldable pub unlock_condition_score : UnlockCondition → ℕ
  unlock_condition_score (address a) = address_score a
  unlock_condition_score (storage_deposit_return a amount) = address_score a
  unlock_condition_score (expiration a slot) = address_score a
  unlock_condition_score (state_controller_address a) = address_score a
  unlock_condition_score (governor_address a) = address_score a
  unlock_condition_score condition = 0

  unfoldable pub feature_score : Feature → ℕ
  feature_score (sender a) = address_score a
  feature_score (issuer a) = address_score a
  feature_score (block_issuer expiry keys) =
      u64 (length keys * structure.storage_score_parameters.offset_ed25519_block_issuer_key)
  feature_score (staking amount cost start end) =
      structure.storage_score_parameters.offset_staking_feature
  feature_score feature = 0

  abbrev pub own_score : TxEssenceOutput → ℕ
  own_score (delegation o) = structure.storage_score_parameters.offset_delegation
  own_score output = 0

  -- `StorageScore` of an output.
  unfoldable pub storage_score : TxEssenceOutput → ℕ
  storage_score output = u64 (
      structure.offset_output
      + multiply structure.storage_score_parameters.factor_data (u64 (output_size output))
      + own_score output
      + sum_of unlock_condition_score (unlock_conditions_of output)
      + sum_of feature_score (features_of output)
      + sum_of feature_score (immutable_features_of output))

-- The outputs that `NewStorageScoreStructure` makes up. An identifier of zeros is 0.
abbrev pub owned_by : Address → List UnlockCondition
owned_by a = address a ∷ []

abbrev pub dummy_account_output : TxEssenceOutput
dummy_account_output = account (record {
  amount = 0;
  mana = 0;
  account_id = 0;
  foundry_counter = 0;
  unlock_conditions = owned_by (ed25519_address 0);
  features = block_issuer 0 (0 ∷ []) ∷ [];
  immutable_features = [];
})

abbrev pub basic_output : Address → TxEssenceOutput
basic_output a =
    basic (record { amount = 0; mana = 0; unlock_conditions = owned_by a; features = [] })

module _ (math : SafeMath) where
  unfoldable pub new_storage_score_structure :
      StorageScoreParameters → Result Error StorageScoreStructure
  new_storage_score_structure parameters =
      let start : StorageScoreStructure = record {
        storage_score_parameters = parameters;
        offset_implicit_account_creation_address = 0;
        offset_output = 0;
      } in
      let without_address =
        sub64 (storage_score start (basic_output (ed25519_address 0)))
          (address_score start (ed25519_address 0)) in
      elim (math.safe_sub 64 (storage_score start dummy_account_output) without_address) [
        | none ↦ panic
        | some offset ↦ ok (record {
          storage_score_parameters = parameters;
          offset_implicit_account_creation_address = offset;
          offset_output =
              u64
                (parameters.offset_output_overhead + multiply parameters.factor_data (38 + 36 + 4));
        })
      ]

  abbrev pub deposit : Option ℕ → Result Error ℕ
  deposit none = err storage_deposit_overflow
  deposit (some amount) = ok amount

  module _ (structure : StorageScoreStructure) where
    unfoldable pub min_deposit : TxEssenceOutput → Result Error ℕ
    min_deposit output = deposit (
        math.safe_mul 64 structure.storage_score_parameters.storage_cost
          (storage_score structure output))

    unfoldable pub covers_min_deposit : TxEssenceOutput → ℕ → Result Error ℕ
    covers_min_deposit output amount = do
      least ← min_deposit output
      reject_if (ltb amount least) storage_deposit_not_covered
      ok least

    unfoldable pub min_storage_deposit_for_return_output : Address → Result Error ℕ
    min_storage_deposit_for_return_output a = min_deposit (basic_output a)
