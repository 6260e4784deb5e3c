-- ===== src/Syntax/Parts.antt =====
-- unlock_cond*.go, feat*.go: unlock conditions and features as elements of slices, the sets that these
-- are turned into, and their sizes.
use axon_go.Common.{
  ℕ, ◌+◌, ◌*◌, ◌==◌, Bool, true, false, Option, none, some, List, [], ◌∷◌, if◌then◌else◌, length,
}
use axon_go.Common.Result.{Result, ok, panic}
use axon_go.Address.{
  Address, AddressesWithWeight, none_left, address_with_weight, ed25519_address, account_address,
  nft_address, anchor_address, implicit_account_creation_address, multi_address, restricted_address,
}
use axon_go.Outputs.{ChainId}

pub data UnlockCondition : Type 0 where
  address : Address → UnlockCondition
  storage_deposit_return : Address → ℕ → UnlockCondition
  timelock : ℕ → UnlockCondition
  expiration : Address → ℕ → UnlockCondition
  state_controller_address governor_address : Address → UnlockCondition
  immutable_account : ℕ → UnlockCondition

-- Metadata is a list of entries. A block issuer has an expiry slot and the hashes of its keys; a
-- staking feature an amount, a cost and two epochs.
pub data Feature : Type 0 where
  sender issuer : Address → Feature
  metadata state_metadata : List (List ℕ × List ℕ) → Feature
  tag : List ℕ → Feature
  native_token : ChainId → ℕ → Feature
  block_issuer : ℕ → List ℕ → Feature
  staking : ℕ → ℕ → ℕ → ℕ → Feature

-- The bytes of the types.
unfoldable pub unlock_condition_type : UnlockCondition → ℕ
unlock_condition_type (address a) = 0
unlock_condition_type (storage_deposit_return a amount) = 1
unlock_condition_type (timelock slot) = 2
unlock_condition_type (expiration a slot) = 3
unlock_condition_type (state_controller_address a) = 4
unlock_condition_type (governor_address a) = 5
unlock_condition_type (immutable_account a) = 6

unfoldable pub feature_type : Feature → ℕ
feature_type (sender a) = 0
feature_type (issuer a) = 1
feature_type (metadata entries) = 2
feature_type (state_metadata entries) = 3
feature_type (tag bytes) = 4
feature_type (native_token id amount) = 5
feature_type (block_issuer expiry keys) = 6
feature_type (staking amount cost start end) = 7

-- `Set` and `MustSet`, for a function that gives the type of an element. A set holds an element of
-- each type at most.
module _ {ℓ} {A : Type ℓ} (type_of : A → ℕ) where
  unfoldable pub get : List A → ℕ → Option A
  get [] type = none
  get (a ∷ set) type = if type_of a == type then some a else get set type

  unfoldable pub add_to_set : List A → List A → Option (List A)
  add_to_set [] set = some set
  add_to_set (a ∷ slice) set = elim (get set (type_of a)) [
    | none ↦ add_to_set slice (a ∷ set)
    | some other ↦ none
  ]

  unfoldable pub must_set : {E : Type 0} → List A → Result E (List A)
  must_set slice = elim (add_to_set slice []) [ none ↦ panic | some set ↦ ok set ]

abbrev pub present {ℓ} : {A : Type ℓ} → Option A → Bool
present none = false
present (some a) = true

-- The addresses in a condition, and those that a set has.
abbrev pub condition_address : Option UnlockCondition → Option Address
condition_address (some (address a)) = some a
condition_address (some (state_controller_address a)) = some a
condition_address (some (governor_address a)) = some a
condition_address (some (storage_deposit_return a amount)) = some a
condition_address (some (expiration a slot)) = some a
condition_address condition = none

abbrev pub metadata_entries : Option Feature → Option (List (List ℕ × List ℕ))
metadata_entries (some (metadata entries)) = some entries
metadata_entries (some (state_metadata entries)) = some entries
metadata_entries feature = none

-- `Size` of addresses, of the conditions and of the features.
unfoldable mutual
  pub address_size : Address → ℕ
  address_size (ed25519_address a) = 33
  address_size (account_address a) = 33
  address_size (nft_address a) = 33
  address_size (anchor_address a) = 33
  address_size (implicit_account_creation_address a) = 33
  address_size (multi_address addresses threshold) = 4 + addresses_size addresses
  address_size (restricted_address underlying capabilities) =
      1 + address_size underlying + (1 + length capabilities)

  pub addresses_size : AddressesWithWeight → ℕ
  addresses_size none_left = 0
  addresses_size (address_with_weight a weight addresses) =
      address_size a + 1 + addresses_size addresses

unfoldable pub unlock_condition_size : UnlockCondition → ℕ
unlock_condition_size (address a) = 1 + address_size a
unlock_condition_size (storage_deposit_return a amount) = 1 + address_size a + 8
unlock_condition_size (timelock slot) = 1 + 4
unlock_condition_size (expiration a slot) = 1 + address_size a + 4
unlock_condition_size (state_controller_address a) = 1 + address_size a
unlock_condition_size (governor_address a) = 1 + address_size a
unlock_condition_size (immutable_account a) = 1 + 33

-- The sum of what the elements of a slice have.
unfoldable pub sum_of {ℓ} : {A : Type ℓ} → (A → ℕ) → List A → ℕ
sum_of f [] = 0
sum_of f (a ∷ slice) = f a + sum_of f slice

abbrev pub entry_size : List ℕ × List ℕ → ℕ
entry_size (entry, value) = 1 + length entry + 2 + length value

unfoldable pub map_size : List (List ℕ × List ℕ) → ℕ
map_size entries = 1 + sum_of entry_size entries

unfoldable pub feature_size : Feature → ℕ
feature_size (sender a) = 1 + address_size a
feature_size (issuer a) = 1 + address_size a
feature_size (metadata entries) = 1 + map_size entries
feature_size (state_metadata entries) = 1 + map_size entries
feature_size (tag bytes) = 1 + 1 + length bytes
feature_size (native_token id amount) = 1 + 38 + 32
feature_size (block_issuer expiry keys) = 1 + 4 + (1 + length keys * 33)
feature_size (staking amount cost start end) = 1 + 8 + 8 + 4 + 4

unfoldable pub unlock_conditions_size : List UnlockCondition → ℕ
unlock_conditions_size conditions = 1 + sum_of unlock_condition_size conditions

unfoldable pub features_size : List Feature → ℕ
features_size features = 1 + sum_of feature_size features
