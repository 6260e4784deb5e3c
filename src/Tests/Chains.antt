-- ===== src/Tests/Chains.antt =====
-- The transitions of vm/nova/vm.go at concrete inputs: staking features, delegations, foundries.
use axon_go.Common.{
  ℕ, ◌+◌, ◌-◌, ◌≤◌, ◌<◌, ◌≡◌, ◌≢◌, refl, arith, Bool, true, false, none, some, [], ◌∷◌,
}
use axon_go.Common.Int.{pos}
use axon_go.Common.Result.{ok, panic}
use axon_go.TimeProvider.{epoch_from_slot, epoch_end}
use axon_go.TokenScheme.{SimpleTokenScheme, state_transition, genesis_valid}
use axon_go.Tests.ManaDecay.{time}
use axon_go.Nova.{Params, past_bounded_slot_index, future_bounded_slot_index}
use axon_go.Nova.Staking.{
  StakingFeature, past_bounded_epoch, future_bounded_epoch, unbonding_epoch, staking_equal,
  account_staking_genesis_validation, account_staking_non_expired_validation,
  account_staking_expired_validation, account_staking_stvf,
}
use axon_go.Nova.Staking.Rules.{account_staking_stvf_disjoint}
use axon_go.Nova.Staking.Bond.{Stake, created, kept, InRange, account_staking_stvf-Ends}
use axon_go.Nova.Delegation.{
  DelegationOutput, registration_slot, expected_start_epoch, expected_end_epoch,
  delegation_genesis_valid, delegation_state_change_valid, delegation_stvf, changed,
}
use axon_go.Nova.Delegation.Rules.{
  IsNearby, expected_start_epoch_lem, Life, new, delayed, IsDelegation, Life-IsDelegation,
}
use axon_go.Nova.Foundry.{
  FoundryOutput, foundry_id, same_id, foundry, no_foundry, implicit_account_output, WorkingSet,
  has_foundry, seen_new_foundries, account_foundry_counter_stvf, serial_order_valid,
  foundry_serial_number_valid, value_or_zero, foundry_genesis_valid,
}
use axon_go.Nova.Foundry.Serials.{serials, new_foundries, new_foundries-serials}

abbrev pub params : Params
params = record {
  time_provider = time;
  protocol_parameters = record {
    max_committable_age = 20;
    min_committable_age = 10;
    staking_unbonding_period = 5;
    epoch_nearing_threshold = 3;
  };
}

abbrev staking : ℕ → ℕ → StakingFeature
staking start end = record {
  staked_amount = 7;
  fixed_cost = 1;
  start_epoch = start;
  end_epoch = end;
}

-- The feature is created at slot 10, and its end epoch is moved at slot 60.
staking-Stake : Stake params (staking 3 8) (staking 3 15) 60
unfolding account_staking_stvf account_staking_genesis_validation
    account_staking_non_expired_validation future_bounded_epoch unbonding_epoch past_bounded_epoch
    past_bounded_slot_index future_bounded_slot_index epoch_from_slot
staking-Stake = kept (staking 3 15) 60 (omega arith) refl (created 10 refl)

staking-InRange : InRange params 200
unfolding past_bounded_epoch past_bounded_slot_index epoch_from_slot
staking-InRange = record { slots = omega arith; epochs = omega arith }

account_staking_stvf-Ends_example : 3 + 5 < future_bounded_epoch params 200
unfolding account_staking_stvf account_staking_expired_validation future_bounded_epoch
    future_bounded_slot_index epoch_from_slot
account_staking_stvf-Ends_example =
    account_staking_stvf-Ends params (staking 3 8) (staking 3 15) none 60 200 true staking-InRange
      staking-Stake (omega arith) refl

account_staking_stvf_disjoint_example :
    (12 < future_bounded_epoch params 100)
    × ((n : StakingFeature)
        → some (staking 15 20) ≡ some n
        → (12 < n.start_epoch) × (n.start_epoch + 5 ≤ n.end_epoch))
unfolding account_staking_stvf account_staking_expired_validation staking_equal
    account_staking_genesis_validation future_bounded_epoch unbonding_epoch past_bounded_epoch
    past_bounded_slot_index future_bounded_slot_index epoch_from_slot
account_staking_stvf_disjoint_example =
    account_staking_stvf_disjoint params 100 (staking 2 12) (some (staking 15 20)) (omega arith)
      (omega arith) (omega arith) refl

params-IsNearby : IsNearby params 100
unfolding past_bounded_slot_index epoch_from_slot
params-IsNearby = record {
  after = omega arith;
  below = omega arith;
  in_range = omega arith;
  threshold = omega arith;
}

expected_start_epoch_lem_example :
    (e : ℕ) × (expected_start_epoch params 100 ≡ e + 1)
    × (past_bounded_slot_index params 100 ≤ registration_slot params e)
    × (0 < e → registration_slot params (e - 1) < past_bounded_slot_index params 100)
expected_start_epoch_lem_example = expected_start_epoch_lem params 100 params-IsNearby

abbrev delegation : ℕ → ℕ → DelegationOutput
delegation id end = record {
  amount = 9;
  delegated_amount = 9;
  delegation_id = id;
  validator_address = 4;
  start_epoch = 16;
  end_epoch = end;
}

delegation-Life : Life params (delegation 0 0) (delegation 77 14)
unfolding delegation_stvf delegation_genesis_valid delegation_state_change_valid
    expected_start_epoch expected_end_epoch registration_slot past_bounded_slot_index
    future_bounded_slot_index epoch_from_slot epoch_end
delegation-Life = delayed (new 100 false refl) (delegation 77 14) 100 false refl (omega arith)

Life-IsDelegation_example :
    IsDelegation params (delegation 0 0) (delegation 77 14)
    × (◌≢◌ {A = ℕ} 77 0
        → (next : DelegationOutput) (slot : ℕ) (claims : Bool)
        → delegation_stvf params (some slot) claims (changed (delegation 77 14) next) ≢ ok tt)
Life-IsDelegation_example = Life-IsDelegation delegation-Life

abbrev scheme : SimpleTokenScheme
scheme = record { minted_tokens = pos 0; melted_tokens = pos 0; maximum_supply = pos 10 }

abbrev numbered : ℕ → FoundryOutput
numbered n = record { owner = 5; serial_number = n; token_scheme = scheme }

-- The account 5 has the foundry 1 and makes the foundries 2 and 3; account 6 is an implicit one.
abbrev chains : WorkingSet
chains = record {
  in_foundries = (5, 1, 0) ∷ [];
  in_accounts = (6, implicit_account_output) ∷ [];
  out_accounts = (5, 3) ∷ (6, 1) ∷ [];
  outputs = foundry (numbered 1) ∷ foundry (numbered 2) ∷ no_foundry ∷ foundry (numbered 3) ∷ [];
  in_native_tokens = [];
  out_native_tokens = [];
}

new_foundries-serials_example :
    serials (new_foundries ((5, 1, 0) ∷ []) 5 chains.outputs) ≡ 2 ∷ 3 ∷ []
unfolding has_foundry same_id foundry_id foundry_serial_number_valid serial_order_valid
    account_foundry_counter_stvf seen_new_foundries
new_foundries-serials_example =
    new_foundries-serials chains 5 1 3 (omega arith) (omega arith) (omega arith)
      ((omega arith, tt), (tt, tt)) (refl, (refl, tt)) refl

-- A new foundry of an account that is made from an implicit account in the same transaction.
implicit_account :
    foundry_genesis_valid chains (record { owner = 6; serial_number = 1; token_scheme = scheme })
    ≡ panic
unfolding foundry_genesis_valid state_transition genesis_valid value_or_zero foundry_id
implicit_account = refl
