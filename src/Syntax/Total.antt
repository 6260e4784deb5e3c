-- ===== src/Syntax/Total.antt =====
-- transaction.go, output.go: the validators of an output return, where the conditions are there
-- that the serialization asks for.
pub mod Slices
pub mod Returns
use mathlib.Core.List.{Memᴰ}
use axon_go.Common.{
  ℕ, ◌≡◌, ◌≢◌, refl, arith, Option, none, some, List, [], ◌∷◌, Bool, true, false, inl, inr,
  Bool-cases,
}
use axon_go.Common.Result.{Result, ok, err, panic, ◌>>=◌}
use axon_go.SafeMath.{SafeMath}
use axon_go.Address.{Address}
use axon_go.Outputs.{ChainId, foundry_id}
use axon_go.TokenScheme.{syntactical_validation}
use axon_go.Syntax.{Error}
use axon_go.Syntax.Parts.{
  UnlockCondition, Feature, address, state_controller_address, governor_address, immutable_account,
  unlock_condition_type, feature_type, must_set, get, condition_address,
}
use axon_go.Syntax.Outputs.{
  FoundryOutput, TxEssenceOutput, unlock_conditions_of, unlock_condition_set, feature_set,
  must_address, foundry_id_of, chain_id_of, basic, account, anchor, foundry, nft, delegation,
}
use axon_go.Syntax.StorageScore.{
  StorageScoreStructure, min_deposit, covers_min_deposit, min_storage_deposit_for_return_output,
}
use axon_go.Syntax.Checks.{
  metadata_feature_max_size, deposit_amount, expiration_and_timelock, native_tokens,
  chain_constrained_output_uniqueness, foundry_check, account_check, anchor_check, nft_check,
  delegation_check,
}
use axon_go.Syntax.Checks.Addresses.{
  check_address_restrictions, implicit_account_creation, commitment_input,
}
use axon_go.Syntax.Sets.{ascending-must_set, must_set-get}
use axon_go.Syntax.Accepted.Deposits.{Each}

-- The conditions that the serialization of an output asks for.
abbrev pub HasRequired : TxEssenceOutput → Type 0
HasRequired (basic o) = Unit
HasRequired (account o) = (a : Address) × Memᴰ (address a) o.unlock_conditions
HasRequired (anchor o) =
    ((a : Address) × Memᴰ (state_controller_address a) o.unlock_conditions)
    × ((a : Address) × Memᴰ (governor_address a) o.unlock_conditions)
HasRequired (foundry o) = (a : ℕ) × Memᴰ (immutable_account a) o.unlock_conditions
HasRequired (nft o) = (a : Address) × Memᴰ (address a) o.unlock_conditions
HasRequired (delegation o) = (a : Address) × Memᴰ (address a) o.unlock_conditions

module _ (output : TxEssenceOutput) (features : List Feature)
    (fs : feature_set {E = Error} output ≡ ok features) where
  pub metadata-returns : metadata_feature_max_size output ≢ panic
  unfolding metadata_feature_max_size
  metadata-returns h = ground (arith, h, fs)

  pub native_tokens-returns : native_tokens output ≢ panic
  unfolding native_tokens
  native_tokens-returns h = ground (arith, h, fs)

  pub commitment_input-returns : (committed : Bool) → commitment_input committed output ≢ panic
  unfolding commitment_input
  commitment_input-returns committed h = ground (arith, h, fs)

  pub restrictions-returns :
      (set : List UnlockCondition) (a : Address) → check_address_restrictions output set a ≢ panic
  unfolding check_address_restrictions
  restrictions-returns set a h = ground (arith, h, fs)

module _ (output : TxEssenceOutput) (set : List UnlockCondition)
    (us : unlock_condition_set {E = Error} output ≡ ok set) where
  pub expiration_and_timelock-returns : expiration_and_timelock output ≢ panic
  unfolding expiration_and_timelock
  expiration_and_timelock-returns h = ground (arith, h, us)

  pub deposit_amount-returns :
      (math : SafeMath) (structure : StorageScoreStructure) (supply sum : ℕ)
      → deposit_amount math structure supply output sum ≢ panic
  unfolding deposit_amount covers_min_deposit min_deposit min_storage_deposit_for_return_output
  deposit_amount-returns math structure supply sum h = ground (arith, h, us)

-- The reads of conditions that are there.
must_address-returns :
    (conditions set : List UnlockCondition) (c : UnlockCondition) {a : Address}
    → must_set unlock_condition_type {E = Error} conditions ≡ ok set
    → Memᴰ c conditions
    → condition_address (some c) ≡ some a
    → must_address {E = Error} conditions (unlock_condition_type c) ≡ ok a
unfolding must_address
must_address-returns conditions set c h m e =
    ground (arith, h, e, must_set-get unlock_condition_type conditions c h m)

foundry_id-returns :
    (o : FoundryOutput) (set : List UnlockCondition) (a : ℕ)
    → must_set unlock_condition_type {E = Error} o.unlock_conditions ≡ ok set
    → Memᴰ (immutable_account a) o.unlock_conditions
    → foundry_id_of {E = Error} o ≡ ok (foundry_id a o.serial_number 0)
unfolding foundry_id_of unlock_condition_type
foundry_id-returns o set a h m =
    ground
      (arith, h, must_set-get unlock_condition_type o.unlock_conditions (immutable_account a) h m)

-- What the validators read of an output is there.
abbrev pub Reads : TxEssenceOutput → Type 0
Reads (basic o) = Unit
Reads (account o) = (a : Address) × (must_address {E = Error} o.unlock_conditions 0 ≡ ok a)
Reads (anchor o) =
    ((a : Address) × (must_address {E = Error} o.unlock_conditions 4 ≡ ok a))
    × ((a : Address) × (must_address {E = Error} o.unlock_conditions 5 ≡ ok a))
Reads (foundry o) = (id : ChainId) × (foundry_id_of {E = Error} o ≡ ok id)
Reads (nft o) = (a : Address) × (must_address {E = Error} o.unlock_conditions 0 ≡ ok a)
Reads (delegation o) = (a : Address) × (must_address {E = Error} o.unlock_conditions 0 ≡ ok a)

pub required-Reads :
    (output : TxEssenceOutput) (set : List UnlockCondition)
    → HasRequired output
    → unlock_condition_set {E = Error} output ≡ ok set
    → Reads output
unfolding unlock_condition_set unlock_conditions_of unlock_condition_type
required-Reads (basic o) set required h = tt
required-Reads (account o) set (a, m) h =
    (a, must_address-returns o.unlock_conditions set (address a) h m refl)
required-Reads (anchor o) set ((a, m), (b, n)) h = (
  (a, must_address-returns o.unlock_conditions set (state_controller_address a) h m refl),
  (b, must_address-returns o.unlock_conditions set (governor_address b) h n refl),
)
required-Reads (foundry o) set (a, m) h =
    (foundry_id a o.serial_number 0, foundry_id-returns o set a h m)
required-Reads (nft o) set (a, m) h =
    (a, must_address-returns o.unlock_conditions set (address a) h m refl)
required-Reads (delegation o) set (a, m) h =
    (a, must_address-returns o.unlock_conditions set (address a) h m refl)

pub uniqueness-returns :
    (output : TxEssenceOutput) (chains : List ChainId)
    → Reads output
    → chain_constrained_output_uniqueness output chains ≢ panic
unfolding chain_constrained_output_uniqueness chain_id_of
uniqueness-returns (basic o) chains reads h = ground (arith, h)
uniqueness-returns (account o) chains reads h = ground (arith, h)
uniqueness-returns (anchor o) chains reads h = ground (arith, h)
uniqueness-returns (foundry o) chains reads h = ground (arith, h, reads.1)
uniqueness-returns (nft o) chains reads h = ground (arith, h)
uniqueness-returns (delegation o) chains reads h = ground (arith, h)

pub implicit-returns :
    (output : TxEssenceOutput) → Reads output → implicit_account_creation output ≢ panic
unfolding implicit_account_creation
implicit-returns (basic o) reads h = ground (arith, h)
implicit-returns (account o) reads h = ground (arith, h, reads.1)
implicit-returns (anchor o) reads h = ground (arith, h, reads.0.1, reads.1.1)
implicit-returns (foundry o) reads h = ground (arith, h)
implicit-returns (nft o) reads h = ground (arith, h, reads.1)
implicit-returns (delegation o) reads h = ground (arith, h, reads.1)

-- The validators that are about one type of output.
pub foundry_check-returns :
    (output : TxEssenceOutput) (features : List Feature)
    → Reads output
    → feature_set {E = Error} output ≡ ok features
    → foundry_check output ≢ panic
unfolding foundry_check syntactical_validation
foundry_check-returns (foundry o) features reads fs h = ground (arith, h, reads.1, fs)
foundry_check-returns (basic o) features reads fs h = cc h
foundry_check-returns (account o) features reads fs h = cc h
foundry_check-returns (anchor o) features reads fs h = cc h
foundry_check-returns (nft o) features reads fs h = cc h
foundry_check-returns (delegation o) features reads fs h = cc h

pub account_check-returns :
    (output : TxEssenceOutput) (features : List Feature)
    → Reads output
    → feature_set {E = Error} output ≡ ok features
    → account_check output ≢ panic
unfolding account_check
account_check-returns (account o) features reads fs h = ground (arith, h, reads.1, fs)
account_check-returns (basic o) features reads fs h = cc h
account_check-returns (foundry o) features reads fs h = cc h
account_check-returns (anchor o) features reads fs h = cc h
account_check-returns (nft o) features reads fs h = cc h
account_check-returns (delegation o) features reads fs h = cc h

pub chain_checks-return :
    (output : TxEssenceOutput)
    → Reads output
    → (anchor_check output ≢ panic) × (nft_check output ≢ panic) × (delegation_check output ≢ panic)
unfolding anchor_check nft_check delegation_check
chain_checks-return (anchor o) reads =
    ((λ h. ground (arith, h, reads.0.1, reads.1.1)), (λ h. cc h), (λ h. cc h))
chain_checks-return (nft o) reads = ((λ h. cc h), (λ h. ground (arith, h, reads.1)), (λ h. cc h))
chain_checks-return (delegation o) reads = ((λ h. cc h), (λ h. cc h), (λ h. ground (arith, h)))
chain_checks-return (basic o) reads = ((λ h. cc h), (λ h. cc h), (λ h. cc h))
chain_checks-return (account o) reads = ((λ h. cc h), (λ h. cc h), (λ h. cc h))
chain_checks-return (foundry o) reads = ((λ h. cc h), (λ h. cc h), (λ h. cc h))
