-- ===== src/Outputs.antt =====
-- output.go, output_*.go, unlock_cond.go, feat.go: the outputs of a transaction as the virtual machine
-- reads them, the identifiers of chains, and the sets of unlock conditions and of features.
pub mod Expiration
pub mod Chains
pub mod Features
use axon_go.Common.{
  ℕ, ◌+◌, ◌==◌, Bool, true, false, ◌&&◌, Option, none, some, List, [], ◌∷◌, if◌then◌else◌, u16,
}
use axon_go.Common.Result.{Result, ok, panic, ◌>>=◌}
use axon_go.TokenScheme.{SimpleTokenScheme}
use axon_go.Address.{Address, account_address, nft_address, anchor_address, OutputId, Crypto}

-- A foundry's identifier is that of its account, its serial number and its token scheme's type, which
-- is 0 for the simple token scheme.
pub data ChainId : Type 0 where
  account_id anchor_id nft_id delegation_id : ℕ → ChainId
  foundry_id : ℕ → ℕ → ℕ → ChainId

-- A set holds a condition of each type at most: an address, a return address with an amount, a slot,
-- a return address with a slot, two more addresses, and the identifier of an account.
pub record UnlockConditionSet : Type 0 where
  pub address : Option Address
  pub storage_deposit_return : Option (Address × ℕ)
  pub timelock : Option ℕ
  pub expiration : Option (Address × ℕ)
  pub state_controller_address : Option Address
  pub governor_address : Option Address
  pub immutable_account : Option ℕ

-- A set holds a feature of each type at most; those of accounts alone are not here. Metadata and tags
-- are the bytes of their serialization. A native token is the identifier of its foundry and an amount.
pub record FeatureSet : Type 0 where
  pub sender : Option Address
  pub issuer : Option Address
  pub metadata : Option (List ℕ)
  pub state_metadata : Option (List ℕ)
  pub tag : Option (List ℕ)
  pub native_token : Option (ChainId × ℕ)

pub record BasicOutput : Type 0 where
  pub amount : ℕ
  pub mana : ℕ
  pub unlock_conditions : UnlockConditionSet
  pub features : FeatureSet

pub record AccountOutput : Type 0 where
  pub amount : ℕ
  pub mana : ℕ
  pub account_id : ℕ
  pub foundry_counter : ℕ
  pub unlock_conditions : UnlockConditionSet
  pub features : FeatureSet
  pub immutable_features : FeatureSet

pub record AnchorOutput : Type 0 where
  pub amount : ℕ
  pub mana : ℕ
  pub anchor_id : ℕ
  pub state_index : ℕ
  pub unlock_conditions : UnlockConditionSet
  pub features : FeatureSet
  pub immutable_features : FeatureSet

pub record FoundryOutput : Type 0 where
  pub amount : ℕ
  pub serial_number : ℕ
  pub token_scheme : SimpleTokenScheme
  pub unlock_conditions : UnlockConditionSet
  pub features : FeatureSet
  pub immutable_features : FeatureSet

pub record NftOutput : Type 0 where
  pub amount : ℕ
  pub mana : ℕ
  pub nft_id : ℕ
  pub unlock_conditions : UnlockConditionSet
  pub features : FeatureSet
  pub immutable_features : FeatureSet

pub record DelegationOutput : Type 0 where
  pub amount : ℕ
  pub delegated_amount : ℕ
  pub delegation_id : ℕ
  pub validator_address : ℕ
  pub start_epoch : ℕ
  pub end_epoch : ℕ
  pub unlock_conditions : UnlockConditionSet

pub data Output : Type 0 where
  basic : BasicOutput → Output
  account : AccountOutput → Output
  anchor : AnchorOutput → Output
  foundry : FoundryOutput → Output
  nft : NftOutput → Output
  delegation : DelegationOutput → Output

unfoldable pub unlock_condition_set : Output → UnlockConditionSet
unlock_condition_set (basic o) = o.unlock_conditions
unlock_condition_set (account o) = o.unlock_conditions
unlock_condition_set (anchor o) = o.unlock_conditions
unlock_condition_set (foundry o) = o.unlock_conditions
unlock_condition_set (nft o) = o.unlock_conditions
unlock_condition_set (delegation o) = o.unlock_conditions

abbrev pub no_features : FeatureSet
no_features = record {
  sender = none;
  issuer = none;
  metadata = none;
  state_metadata = none;
  tag = none;
  native_token = none;
}

unfoldable pub feature_set : Output → FeatureSet
feature_set (basic o) = o.features
feature_set (account o) = o.features
feature_set (anchor o) = o.features
feature_set (foundry o) = o.features
feature_set (nft o) = o.features
feature_set (delegation o) = no_features

-- The sets that are not there come from nil slices: they are empty.
unfoldable pub immutable_feature_set : Output → FeatureSet
immutable_feature_set (basic o) = no_features
immutable_feature_set (account o) = o.immutable_features
immutable_feature_set (anchor o) = o.immutable_features
immutable_feature_set (foundry o) = o.immutable_features
immutable_feature_set (nft o) = o.immutable_features
immutable_feature_set (delegation o) = no_features

unfoldable pub base_token_amount : Output → ℕ
base_token_amount (basic o) = o.amount
base_token_amount (account o) = o.amount
base_token_amount (anchor o) = o.amount
base_token_amount (foundry o) = o.amount
base_token_amount (nft o) = o.amount
base_token_amount (delegation o) = o.amount

-- The read of a condition that is not there panics.
abbrev pub must {ℓ} : {A : Type ℓ} {E : Type 0} → Option A → Result E A
must none = panic
must (some a) = ok a

unfoldable pub same_chain : ChainId → ChainId → Bool
same_chain (account_id a) (account_id b) = a == b
same_chain (anchor_id a) (anchor_id b) = a == b
same_chain (nft_id a) (nft_id b) = a == b
same_chain (delegation_id a) (delegation_id b) = a == b
same_chain (foundry_id a s t) (foundry_id b r u) = (a == b) && (s == r) && (t == u)
same_chain a b = false

-- A foundry's identifier starts with the byte of an account address, which is not zero.
unfoldable pub empty_chain : ChainId → Bool
empty_chain (account_id a) = a == 0
empty_chain (anchor_id a) = a == 0
empty_chain (nft_id a) = a == 0
empty_chain (delegation_id a) = a == 0
empty_chain (foundry_id a s t) = false

-- `FromOutputID` of the identifiers that come from the identifier of an output.
unfoldable pub from_output_id : Crypto → ChainId → OutputId → Option ChainId
from_output_id crypto (account_id a) id = some (account_id (crypto.output_id_hash id))
from_output_id crypto (anchor_id a) id = some (anchor_id (crypto.output_id_hash id))
from_output_id crypto (nft_id a) id = some (nft_id (crypto.output_id_hash id))
from_output_id crypto (delegation_id a) id = some (delegation_id (crypto.output_id_hash id))
from_output_id crypto (foundry_id a s t) id = none

-- `Addressable` and `ToAddress`: the address of a chain that has one.
unfoldable pub to_address : ChainId → Option Address
to_address (account_id a) = some (account_address a)
to_address (anchor_id a) = some (anchor_address a)
to_address (nft_id a) = some (nft_address a)
to_address (delegation_id a) = none
to_address (foundry_id a s t) = none

module _ {E : Type 0} where
  -- `ChainID` of a chain output; a basic output is none.
  unfoldable pub chain_id : Output → Result E (Option ChainId)
  chain_id (basic o) = ok none
  chain_id (account o) = ok (some (account_id o.account_id))
  chain_id (anchor o) = ok (some (anchor_id o.anchor_id))
  chain_id (foundry o) = do
    owner ← must o.unlock_conditions.immutable_account
    ok (some (foundry_id owner o.serial_number 0))
  chain_id (nft o) = ok (some (nft_id o.nft_id))
  chain_id (delegation o) = ok (some (delegation_id o.delegation_id))

-- A chain output set; the entry that was set last stands first.
abbrev pub ChainOutputSet : Type 0
ChainOutputSet = List (ChainId × Output)

unfoldable pub find_chain : ChainOutputSet → ChainId → Option Output
find_chain [] id = none
find_chain ((known, output) ∷ set) id =
    if same_chain known id then some output else find_chain set id

module _ (crypto : Crypto) where
  -- An empty identifier that comes from an output is replaced by the one of this output.
  unfoldable pub resolve_chain : ChainId → OutputId → ChainId
  resolve_chain chain id =
      if empty_chain chain
      then elim (from_output_id crypto chain id) [ none ↦ chain | some derived ↦ derived ]
      else chain

  -- The body of the loop of `ChainOutputSet` for one output.
  unfoldable pub add_chain :
      {E : Type 0} → Option ChainId → Output → OutputId → ChainOutputSet → Result E ChainOutputSet
  add_chain none output id set = ok set
  add_chain (some chain) output id set =
      let resolved = resolve_chain chain id in
      if empty_chain resolved then panic else ok ((resolved, output) ∷ set)

  -- The loop, from an output's index on.
  unfoldable pub chain_output_set :
      {E : Type 0} → ℕ → List Output → ℕ → ChainOutputSet → Result E ChainOutputSet
  chain_output_set transaction_id [] index set = ok set
  chain_output_set transaction_id (output ∷ outputs) index set = do
    chain ← chain_id output
    set' ←
        add_chain chain output (record { transaction_id = transaction_id; index = u16 index }) set
    chain_output_set transaction_id outputs (index + 1) set'
