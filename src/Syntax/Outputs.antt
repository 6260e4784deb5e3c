-- ===== src/Syntax/Outputs.antt =====
-- output.go, output_*.go: the outputs of a transaction with their unlock conditions and features as the
-- slices that they are made of.
use axon_go.Common.{ℕ, ◌+◌, Option, none, some, List, []}
use axon_go.Common.Result.{Result, ok, ◌>>=◌}
use axon_go.TokenScheme.{SimpleTokenScheme}
use axon_go.Address.{Address}
use axon_go.Outputs.{ChainId, account_id, anchor_id, nft_id, foundry_id, delegation_id, must}
use axon_go.Syntax.Parts.{
  UnlockCondition, Feature, immutable_account, unlock_condition_type, feature_type, must_set, get,
  condition_address, unlock_conditions_size, features_size,
}

pub record BasicOutput : Type 0 where
  pub amount : ℕ
  pub mana : ℕ
  pub unlock_conditions : List UnlockCondition
  pub features : List Feature

pub record AccountOutput : Type 0 where
  pub amount : ℕ
  pub mana : ℕ
  pub account_id : ℕ
  pub foundry_counter : ℕ
  pub unlock_conditions : List UnlockCondition
  pub features : List Feature
  pub immutable_features : List Feature

pub record AnchorOutput : Type 0 where
  pub amount : ℕ
  pub mana : ℕ
  pub anchor_id : ℕ
  pub state_index : ℕ
  pub unlock_conditions : List UnlockCondition
  pub features : List Feature
  pub immutable_features : List Feature

pub record FoundryOutput : Type 0 where
  pub amount : ℕ
  pub serial_number : ℕ
  pub token_scheme : SimpleTokenScheme
  pub unlock_conditions : List UnlockCondition
  pub features : List Feature
  pub immutable_features : List Feature

pub record NftOutput : Type 0 where
  pub amount : ℕ
  pub mana : ℕ
  pub nft_id : ℕ
  pub unlock_conditions : List UnlockCondition
  pub features : List Feature
  pub immutable_features : List Feature

pub record DelegationOutput : Type 0 where
  pub amount : ℕ
  pub delegated_amount : ℕ
  pub delegation_id : ℕ
  pub validator_address : ℕ
  pub start_epoch : ℕ
  pub end_epoch : ℕ
  pub unlock_conditions : List UnlockCondition

pub data TxEssenceOutput : Type 0 where
  basic : BasicOutput → TxEssenceOutput
  account : AccountOutput → TxEssenceOutput
  anchor : AnchorOutput → TxEssenceOutput
  foundry : FoundryOutput → TxEssenceOutput
  nft : NftOutput → TxEssenceOutput
  delegation : DelegationOutput → TxEssenceOutput

unfoldable pub unlock_conditions_of : TxEssenceOutput → List UnlockCondition
unlock_conditions_of (basic o) = o.unlock_conditions
unlock_conditions_of (account o) = o.unlock_conditions
unlock_conditions_of (anchor o) = o.unlock_conditions
unlock_conditions_of (foundry o) = o.unlock_conditions
unlock_conditions_of (nft o) = o.unlock_conditions
unlock_conditions_of (delegation o) = o.unlock_conditions

unfoldable pub features_of : TxEssenceOutput → List Feature
features_of (basic o) = o.features
features_of (account o) = o.features
features_of (anchor o) = o.features
features_of (foundry o) = o.features
features_of (nft o) = o.features
features_of (delegation o) = []

unfoldable pub immutable_features_of : TxEssenceOutput → List Feature
immutable_features_of (basic o) = []
immutable_features_of (account o) = o.immutable_features
immutable_features_of (anchor o) = o.immutable_features
immutable_features_of (foundry o) = o.immutable_features
immutable_features_of (nft o) = o.immutable_features
immutable_features_of (delegation o) = []

-- `BaseTokenAmount` and `StoredMana`.
unfoldable pub amount_of : TxEssenceOutput → ℕ
amount_of (basic o) = o.amount
amount_of (account o) = o.amount
amount_of (anchor o) = o.amount
amount_of (foundry o) = o.amount
amount_of (nft o) = o.amount
amount_of (delegation o) = o.amount

unfoldable pub stored_mana : TxEssenceOutput → ℕ
stored_mana (basic o) = o.mana
stored_mana (account o) = o.mana
stored_mana (anchor o) = o.mana
stored_mana (foundry o) = 0
stored_mana (nft o) = o.mana
stored_mana (delegation o) = 0

-- `UnlockConditionSet` and `FeatureSet`; a set is read by the byte of a type.
unfoldable pub unlock_condition_set :
    {E : Type 0} → TxEssenceOutput → Result E (List UnlockCondition)
unlock_condition_set output = must_set unlock_condition_type (unlock_conditions_of output)

unfoldable pub feature_set : {E : Type 0} → TxEssenceOutput → Result E (List Feature)
feature_set output = must_set feature_type (features_of output)

abbrev pub condition : List UnlockCondition → ℕ → Option UnlockCondition
condition set type = get unlock_condition_type set type

abbrev pub feature : List Feature → ℕ → Option Feature
feature set type = get feature_type set type

-- The address of a condition that has to be there, such as `Owner` reads it.
unfoldable pub must_address : {E : Type 0} → List UnlockCondition → ℕ → Result E Address
must_address conditions type = do
  set ← must_set unlock_condition_type conditions
  must (condition_address (condition set type))

abbrev pub account_of : Option UnlockCondition → Option ℕ
account_of (some (immutable_account a)) = some a
account_of condition = none

-- `FoundryID`, of the account that `Owner` reads.
unfoldable pub foundry_id_of : {E : Type 0} → FoundryOutput → Result E ChainId
foundry_id_of o = do
  set ← must_set unlock_condition_type o.unlock_conditions
  owner ← must (account_of (condition set 6))
  ok (foundry_id owner o.serial_number 0)

-- `ChainID`, of a chain output.
unfoldable pub chain_id_of : {E : Type 0} → TxEssenceOutput → Result E (Option ChainId)
chain_id_of (basic o) = ok none
chain_id_of (account o) = ok (some (account_id o.account_id))
chain_id_of (anchor o) = ok (some (anchor_id o.anchor_id))
chain_id_of (foundry o) = do id ← foundry_id_of o; ok (some id)
chain_id_of (nft o) = ok (some (nft_id o.nft_id))
chain_id_of (delegation o) = ok (some (delegation_id o.delegation_id))

-- `Size`: the byte of the type, the fields, and the slices.
unfoldable pub output_size : TxEssenceOutput → ℕ
output_size (basic o) =
    1 + 8 + 8 + unlock_conditions_size o.unlock_conditions + features_size o.features
output_size (account o) =
    1
    + 8
    + 8
    + 32
    + 4
    + unlock_conditions_size o.unlock_conditions
    + features_size o.features
    + features_size o.immutable_features
output_size (anchor o) =
    1
    + 8
    + 8
    + 32
    + 4
    + unlock_conditions_size o.unlock_conditions
    + features_size o.features
    + features_size o.immutable_features
output_size (foundry o) =
    1
    + 8
    + 4
    + (1 + 32 + 32 + 32)
    + unlock_conditions_size o.unlock_conditions
    + features_size o.features
    + features_size o.immutable_features
output_size (nft o) =
    1
    + 8
    + 8
    + 32
    + unlock_conditions_size o.unlock_conditions
    + features_size o.features
    + features_size o.immutable_features
output_size (delegation o) =
    1 + 8 + 8 + 32 + 1 + 32 + 4 + 4 + unlock_conditions_size o.unlock_conditions
