-- ===== src/Nova/Account.antt =====
-- vm/nova/vm.go: the transitions of an account output and of an implicit account, which run those of
-- the account's block issuer feature, of its staking feature and of its foundry counter.
pub mod Credits
pub mod Rewards
use axon_go.Common.{
  ℕ, ◌-◌, ◌^◌, ◌==◌, Bool, true, false, not, ◌&&◌, Option, none, some, List, [], ltb, leb,
  if◌then◌else◌,
}
use axon_go.Common.Int.{ℤ}
use axon_go.Common.Result.{Result, ok, err, panic, ◌>>=◌, ◌>>◌, reject_if}
use axon_go.SafeMath.{SafeMath}
use axon_go.Mana.Decay.{ManaDecayProvider}
use axon_go.Address
use axon_go.Address.{Crypto}
use axon_go.Outputs.{ChainId, account_id, AccountOutput, BasicOutput, UnlockConditionSet}
use axon_go.Outputs
use axon_go.Outputs.Features.{features_equal}
use axon_go.Vm.{UnlockedAddressesSet}
use axon_go.Vm.Execution.{is_issuer_on_output_unlocked}
use axon_go.Nova.{
  Error, new_chain_output_has_non_zeroed_id, chain_output_immutable_features_changed,
  block_issuer_commitment_input_missing, block_issuer_not_expired, block_issuer_expiry_too_early,
  staking_commitment_input_missing, staking_feature_removed_before_unbonding,
  staking_reward_claiming_invalid, staking_reward_input_missing,
  tx_capabilities_account_destruction_not_allowed, implicit_account_destruction_disallowed, Params,
  past_bounded_slot_index,
}
use axon_go.Nova.Anchor.{of_execution}
use axon_go.Nova.Staking.{
  StakingFeature, future_bounded_epoch, account_staking_genesis_validation, account_staking_stvf,
}
use axon_go.Nova.Foundry
use axon_go.Nova.Foundry.{account_foundry_counter_stvf}
use axon_go.Nova.BlockIssuer
use axon_go.Nova.BlockIssuer.{
  BlockIssuerFeature, has_feature, account_block_issuance_credit_locked, account_block_issuer_stvf,
}

-- An account output with the two features that only its own transitions read.
pub record Account : Type 0 where
  pub output : AccountOutput
  pub storage_score : ℕ
  pub block_issuer : Option BlockIssuerFeature
  pub staking : Option StakingFeature

pub record AccountInput : Type 0 where
  pub chain_id : ChainId
  pub creation_slot : ℕ
  pub account : Account

-- A basic output at an implicit account creation address.
pub record ImplicitAccountInput : Type 0 where
  pub creation_slot : ℕ
  pub storage_score : ℕ
  pub output : BasicOutput

-- The parts of the working set. A reward is looked up for its presence.
pub record WorkingSet : Type 0 where
  pub unlocked_addrs : UnlockedAddressesSet
  pub bic : ℕ → Option ℤ
  pub has_reward : ChainId → Bool
  pub can_destroy_account_outputs : Bool
  pub mana : BlockIssuer.WorkingSet
  pub foundries : Foundry.WorkingSet

pub data AccountTransition : Type 0 where
  account_genesis : Account → AccountTransition
  account_state_change : AccountInput → Account → AccountTransition
  account_destroy : AccountInput → AccountTransition

abbrev pub chain_account : ChainId → Option ℕ
chain_account (account_id a) = some a
chain_account chain = none

abbrev address_condition : Option Address.Address → Option BlockIssuer.Address
address_condition none = none
address_condition (some (Address.account_address a)) = some (BlockIssuer.account_address a)
address_condition (some address) = some BlockIssuer.other_address

-- What the transition of the block issuer feature reads of the outputs.
abbrev mana_output : ℕ → ℕ → ℕ → UnlockConditionSet → BlockIssuer.Output
mana_output amount mana storage_score conditions = record {
  base_token_amount = amount;
  stored_mana = mana;
  storage_score = storage_score;
  address_condition = address_condition conditions.address;
  timelock_slot = conditions.timelock;
}

abbrev mana_input : AccountInput → BlockIssuer.Input
mana_input input = record {
  creation_slot = input.creation_slot;
  output =
      mana_output input.account.output.amount input.account.output.mana input.account.storage_score
        input.account.output.unlock_conditions;
}

abbrev next_account : Account → BlockIssuer.NextAccount
next_account next = record {
  account_id = next.output.account_id;
  mana = next.output.mana;
  block_issuer = next.block_issuer;
}

-- A missing commitment panics: the syntactic checks ask for it where the feature is there.
unfoldable pub new_expiry_slot_valid :
    Params → Option ℕ → Option BlockIssuerFeature → Result Error (Unit {0})
new_expiry_slot_valid params commitment none = ok tt
new_expiry_slot_valid params none (some next) = panic
new_expiry_slot_valid params (some slot) (some next) =
    reject_if (ltb next.expiry_slot (past_bounded_slot_index params slot))
      block_issuer_expiry_too_early

unfoldable pub new_staking_valid :
    Params → Option ℕ → Option StakingFeature → Result Error (Unit {0})
new_staking_valid params commitment none = ok tt
new_staking_valid params commitment (some staking) =
    account_staking_genesis_validation params commitment staking

-- The credits of an account with a block issuer feature are not negative.
unfoldable pub credits_valid :
    WorkingSet → ChainId → Option BlockIssuerFeature → Result Error (Unit {0})
credits_valid ws chain none = ok tt
credits_valid ws chain (some feature) =
    account_block_issuance_credit_locked (chain_account chain) ws.bic

unfoldable pub block_issuer_expired : Option ℕ → Option BlockIssuerFeature → Result Error (Unit {0})
block_issuer_expired commitment none = ok tt
block_issuer_expired none (some feature) = err block_issuer_commitment_input_missing
block_issuer_expired (some slot) (some feature) =
    reject_if (leb slot feature.expiry_slot) block_issuer_not_expired

-- A staking feature that is removed with its account has to be expired.
unfoldable pub staking_removed : Params → Option ℕ → Option StakingFeature → Result Error Bool
staking_removed params commitment none = ok false
staking_removed params none (some staking) = err staking_commitment_input_missing
staking_removed params (some slot) (some staking) =
    reject_if (leb (future_bounded_epoch params slot) staking.end_epoch)
      staking_feature_removed_before_unbonding
    >> ok true

-- Rewards are claimed exactly where the staking feature is removed.
unfoldable pub rewards_valid : Bool → Bool → Result Error (Unit {0})
rewards_valid is_claiming is_removing = do
  reject_if (is_claiming && not is_removing) staking_reward_claiming_invalid
  reject_if (not is_claiming && is_removing) staking_reward_input_missing

-- The feature of an implicit account; `MaxSlotIndex` is the greatest uint32.
abbrev implicit_block_issuer : BlockIssuerFeature
implicit_block_issuer = record { expiry_slot = 2 ^ 32 - 1; block_issuer_keys = [] }

abbrev implicit_input : ImplicitAccountInput → BlockIssuer.Input
implicit_input input = record {
  creation_slot = input.creation_slot;
  output =
      mana_output input.output.amount input.output.mana input.storage_score
        input.output.unlock_conditions;
}

-- The transition that a chain of the inputs undergoes, by its next state.
unfoldable pub account_transition : AccountInput → Option Account → AccountTransition
account_transition input none = account_destroy input
account_transition input (some next) = account_state_change input next

module _ (math : SafeMath) (p : ManaDecayProvider) (storage_cost : ℕ) (crypto : Crypto) where
  unfoldable pub account_genesis_valid :
      Params → WorkingSet → Account → Bool → Result Error (Unit {0})
  account_genesis_valid params ws next account_id_must_be_zeroed = do
    reject_if (account_id_must_be_zeroed && not (next.output.account_id == 0))
        new_chain_output_has_non_zeroed_id
    new_expiry_slot_valid params ws.mana.commitment next.block_issuer
    new_staking_valid params ws.mana.commitment next.staking
    of_execution
        (is_issuer_on_output_unlocked crypto ws.unlocked_addrs (Outputs.Output.account next.output))

  -- Whether the staking feature is removed.
  unfoldable pub account_state_change_valid :
      Params → WorkingSet → AccountInput → Account → Result Error Bool
  account_state_change_valid params ws input next = do
    reject_if
        (not (
          features_equal crypto input.account.output.immutable_features
            next.output.immutable_features))
        chain_output_immutable_features_changed
    credits_valid ws input.chain_id input.account.block_issuer
    removing ← account_staking_stvf params ws.mana.commitment input.account.staking next.staking
    account_foundry_counter_stvf ws.foundries next.output.account_id
        input.account.output.foundry_counter next.output.foundry_counter
    account_block_issuer_stvf math p storage_cost params ws.mana (mana_input input)
        input.account.block_issuer (next_account next)
    ok removing

  unfoldable pub account_destruction_valid : Params → WorkingSet → AccountInput → Result Error Bool
  account_destruction_valid params ws input = do
    reject_if (not ws.can_destroy_account_outputs) tx_capabilities_account_destruction_not_allowed
    block_issuer_expired ws.mana.commitment input.account.block_issuer
    credits_valid ws input.chain_id input.account.block_issuer
    staking_removed params ws.mana.commitment input.account.staking

  unfoldable pub account_stvf : Params → WorkingSet → AccountTransition → Result Error (Unit {0})
  account_stvf params ws (account_genesis next) =
      account_genesis_valid params ws next true >> rewards_valid false false
  account_stvf params ws (account_state_change input next) = do
    removing ← account_state_change_valid params ws input next
    rewards_valid (ws.has_reward input.chain_id) removing
  account_stvf params ws (account_destroy input) = do
    removing ← account_destruction_valid params ws input
    rewards_valid (ws.has_reward input.chain_id) removing

  -- A next state that is not there is a destruction.
  unfoldable pub implicit_account_stvf :
      Params → WorkingSet → ImplicitAccountInput → Option Account → Result Error (Unit {0})
  implicit_account_stvf params ws input none = err implicit_account_destruction_disallowed
  implicit_account_stvf params ws input (some next) = do
    account_block_issuance_credit_locked (some next.output.account_id) ws.bic
    account_block_issuer_stvf math p storage_cost params ws.mana (implicit_input input)
        (some implicit_block_issuer) (next_account next)
    account_genesis_valid params ws next false
