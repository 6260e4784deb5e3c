-- ===== src/Tests/Accounts.antt =====
-- The transitions of an account at concrete inputs.
use axon_go.Common.{ℕ, ◌≡◌, refl, true, none, some, []}
use axon_go.Common.Int.{pos}
use axon_go.SafeMath.{checked_math}
use axon_go.TimeProvider.{epoch_from_slot}
use axon_go.Address.{ed25519_address}
use axon_go.Outputs.{ChainId, account_id, no_features}
use axon_go.Vm.{nothing_unlocked}
use axon_go.Nova.{future_bounded_slot_index}
use axon_go.Nova.BlockIssuer.{account_block_issuance_credit_locked}
use axon_go.Nova.Staking.{future_bounded_epoch}
use axon_go.Nova.Account.{
  AccountInput, WorkingSet, credits_valid, block_issuer_expired, staking_removed, rewards_valid,
  account_destruction_valid, account_stvf, account_transition,
}
use axon_go.Nova.Account.Credits.{HasCredits, account_stvf-HasCredits}
use axon_go.Nova.Account.Rewards.{Outcome, account_stvf-Outcome}
use axon_go.Tests.ManaDecay.{provider}
use axon_go.Tests.Chains.{params}
use axon_go.Tests.Mana.{transfer}
use axon_go.Tests.UnlockedAddresses.{crypto, owned_by}

-- An account whose block issuer feature and whose staking feature are expired.
abbrev input : AccountInput
input = record {
  chain_id = account_id 7;
  creation_slot = 3;
  account = record {
    output = record {
      amount = 10;
      mana = 0;
      account_id = 7;
      foundry_counter = 0;
      unlock_conditions = owned_by (ed25519_address 5);
      features = no_features;
      immutable_features = no_features;
    };
    storage_score = 10;
    block_issuer = some (record { expiry_slot = 50; block_issuer_keys = [] });
    staking = some (record { staked_amount = 5; fixed_cost = 0; start_epoch = 0; end_epoch = 1 });
  };
}

abbrev ending : WorkingSet
ending = record {
  unlocked_addrs = nothing_unlocked;
  bic = λ account. some (pos 3);
  has_reward = λ chain. true;
  can_destroy_account_outputs = true;
  mana = transfer;
  foundries = record {
    in_foundries = [];
    in_accounts = [];
    out_accounts = [];
    outputs = [];
    in_native_tokens = [];
    out_native_tokens = [];
  };
}

account_stvf-HasCredits_example :
    (account : ℕ) × (◌≡◌ {A = ChainId} (account_id 7) (account_id account))
    × HasCredits ending account
unfolding account_stvf account_transition account_destruction_valid block_issuer_expired
    credits_valid account_block_issuance_credit_locked staking_removed future_bounded_epoch
    future_bounded_slot_index epoch_from_slot rewards_valid
account_stvf-HasCredits_example =
    account_stvf-HasCredits checked_math provider 1 crypto params ending input none
      (record { expiry_slot = 50; block_issuer_keys = [] }) refl refl

account_stvf-Outcome_example : Outcome params (some 100) input.account.staking none true
unfolding account_stvf account_transition account_destruction_valid block_issuer_expired
    credits_valid account_block_issuance_credit_locked staking_removed future_bounded_epoch
    future_bounded_slot_index epoch_from_slot rewards_valid
account_stvf-Outcome_example =
    account_stvf-Outcome checked_math provider 1 crypto params ending input none refl
