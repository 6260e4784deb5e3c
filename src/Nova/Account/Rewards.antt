-- ===== src/Nova/Account/Rewards.antt =====
-- vm/nova/vm.go: the rewards of an account are claimed when its staking ends.
use axon_go.Common.{
  ℕ, ◌<◌, ◌≡◌, refl, ap, ◌∙◌, arith, Bool, true, false, not, Option, none, some, leb, Bool-cases,
  inl, inr,
}
use axon_go.Common.Result.{Result, ok, ◌>>◌, reject_if, >>=-eq-ok}
use axon_go.SafeMath.{SafeMath}
use axon_go.Mana.Decay.{ManaDecayProvider}
use axon_go.Address.{Crypto}
use axon_go.Outputs.Features.{features_equal}
use axon_go.Nova.{
  Error, Params, chain_output_immutable_features_changed,
  tx_capabilities_account_destruction_not_allowed,
}
use axon_go.Nova.Foundry.{account_foundry_counter_stvf}
use axon_go.Nova.BlockIssuer.{account_block_issuer_stvf}
use axon_go.Nova.Staking.{
  StakingFeature, staking_equal, future_bounded_epoch, account_staking_non_expired_validation,
  account_staking_expired_validation, account_staking_stvf,
}
use axon_go.Nova.Account.{
  Account, AccountInput, WorkingSet, credits_valid, block_issuer_expired, staking_removed,
  rewards_valid, account_state_change_valid, account_destruction_valid, account_stvf,
  account_transition, mana_input, next_account,
}

-- What becomes of a staking feature, by whether it is removed: it is expired, there is none, or it is
-- kept with its amount, its cost and its start.
pub data Outcome (params : Params) (commitment : Option ℕ) (before after : Option StakingFeature)
    (removed : Bool) : Type 0 where
  expired :
      removed ≡ true
      → (f : StakingFeature) (slot : ℕ) → before ≡ some f
      → commitment ≡ some slot
      → f.end_epoch < future_bounded_epoch params slot
      → Outcome params commitment before after removed
  not_staked : removed ≡ false → before ≡ none → Outcome params commitment before after removed
  kept :
      removed ≡ false
      → (f f' : StakingFeature) → before ≡ some f
      → after ≡ some f'
      → f'.staked_amount ≡ f.staked_amount
      → f'.fixed_cost ≡ f.fixed_cost
      → f'.start_epoch ≡ f.start_epoch
      → Outcome params commitment before after removed

staking-Outcome :
    (params : Params) (commitment : Option ℕ) (before after : Option StakingFeature)
    (removed : Bool)
    → account_staking_stvf params commitment before after ≡ ok removed
    → Outcome params commitment before after removed
unfolding account_staking_stvf account_staking_non_expired_validation
    account_staking_expired_validation staking_equal
staking-Outcome params none (some f) after removed e = absurd (cc)
staking-Outcome params none none none removed e = not_staked (cc) refl
staking-Outcome params (some slot) none none removed e = not_staked (cc) refl
staking-Outcome params none none (some f') removed e = not_staked (ground (arith, e)) refl
staking-Outcome params (some slot) none (some f') removed e = not_staked (ground (arith, e)) refl
staking-Outcome params (some slot) (some f) none removed e =
    elim (Bool-cases (leb (future_bounded_epoch params slot) f.end_epoch)) [
      | inl staking ↦ absurd (ground (arith, staking))
      | inr over ↦ expired (ground (arith, over)) f slot refl refl (ground (arith, over))
    ]
staking-Outcome params (some slot) (some f) (some f') removed e =
    elim (Bool-cases (leb (future_bounded_epoch params slot) f.end_epoch)) [
      | inl staking ↦
          kept (ground (arith, staking)) f f' refl refl (ground (arith, staking))
            (ground (arith, staking)) (ground (arith, staking))
      | inr over ↦ elim (Bool-cases (staking_equal f f')) [
        | inl same ↦
            kept (ground (arith, over, same)) f f' refl refl (ground (arith, same))
              (ground (arith, same)) (ground (arith, same))
        | inr changed ↦
            expired (ground (arith, over, changed)) f slot refl refl (ground (arith, over))
      ]
    ]

staking_removed-Outcome :
    (params : Params) (commitment : Option ℕ) (before : Option StakingFeature) (removed : Bool)
    → staking_removed params commitment before ≡ ok removed
    → Outcome params commitment before none removed
unfolding staking_removed
staking_removed-Outcome params none none removed e = not_staked (cc) refl
staking_removed-Outcome params (some slot) none removed e = not_staked (cc) refl
staking_removed-Outcome params none (some f) removed e = absurd (cc)
staking_removed-Outcome params (some slot) (some f) removed e =
    expired (ground arith) f slot refl refl (ground arith)

rewards_valid-same :
    (claiming removing : Bool) {r : Unit {0}}
    → rewards_valid claiming removing ≡ ok r
    → removing ≡ claiming
unfolding rewards_valid
rewards_valid-same claiming removing e = ground arith

last-returned : (call : Result Error (Unit {0})) {a b : Bool} → (call >> ok a) ≡ ok b → a ≡ b
last-returned call e = let (_, _, same) = >>=-eq-ok call _ e in cc

abbrev pub next_staking : Option Account → Option StakingFeature
next_staking none = none
next_staking (some next) = next.staking

module _ (math : SafeMath) (p : ManaDecayProvider) (storage_cost : ℕ) (crypto : Crypto)
    (params : Params) (ws : WorkingSet) where
  state_change-Outcome :
      (input : AccountInput) (next : Account) (removed : Bool)
      → account_state_change_valid math p storage_cost crypto params ws input next ≡ ok removed
      → Outcome params ws.mana.commitment input.account.staking next.staking removed
  unfolding account_state_change_valid
  state_change-Outcome input next removed e =
      let (_, _, e1) =
        >>=-eq-ok
          (reject_if
            (not (
              features_equal crypto input.account.output.immutable_features
                next.output.immutable_features))
            chain_output_immutable_features_changed)
          _ e in
      let (_, _, e2) =
        >>=-eq-ok (credits_valid ws input.chain_id input.account.block_issuer) _ e1 in
      let (removing, staking, e3) =
        >>=-eq-ok
          (account_staking_stvf params ws.mana.commitment input.account.staking next.staking) _
          e2 in
      let (_, _, e4) =
        >>=-eq-ok
          (account_foundry_counter_stvf ws.foundries next.output.account_id
            input.account.output.foundry_counter next.output.foundry_counter)
          _ e3 in
      let same : removing ≡ removed =
        last-returned
          (account_block_issuer_stvf math p storage_cost params ws.mana (mana_input input)
            input.account.block_issuer (next_account next))
          e4 in
      staking-Outcome params ws.mana.commitment input.account.staking next.staking removed
        (staking ∙ ap ok same)

  destruction-Outcome :
      (input : AccountInput) (removed : Bool)
      → account_destruction_valid math p storage_cost crypto params ws input ≡ ok removed
      → Outcome params ws.mana.commitment input.account.staking none removed
  unfolding account_destruction_valid
  destruction-Outcome input removed e =
      let (_, _, e1) =
        >>=-eq-ok
          (reject_if (not ws.can_destroy_account_outputs)
            tx_capabilities_account_destruction_not_allowed)
          _ e in
      let (_, _, e2) =
        >>=-eq-ok (block_issuer_expired ws.mana.commitment input.account.block_issuer) _ e1 in
      let (_, _, e3) =
        >>=-eq-ok (credits_valid ws input.chain_id input.account.block_issuer) _ e2 in
      staking_removed-Outcome params ws.mana.commitment input.account.staking removed e3

  -- Rewards are claimed as the staking ends: where the change or the destruction of an account is
  -- accepted, either the transaction claims a reward for the chain, and the account has a staking
  -- feature whose end epoch is before the epoch that the commitment input bounds from the future; or it
  -- claims none, and the account has no staking feature, or keeps it with its amount, its fixed cost
  -- and its start epoch.
  pub account_stvf-Outcome :
      (input : AccountInput) (next : Option Account)
      → account_stvf math p storage_cost crypto params ws (account_transition input next) ≡ ok tt
      → Outcome params ws.mana.commitment input.account.staking
          (next_staking next)
          (ws.has_reward input.chain_id)
  unfolding account_stvf account_transition
  account_stvf-Outcome input (some next) e =
      let (removing, changed, e1) =
        >>=-eq-ok (account_state_change_valid math p storage_cost crypto params ws input next) _
          e in
      let same : removing ≡ ws.has_reward input.chain_id =
        rewards_valid-same (ws.has_reward input.chain_id) removing e1 in
      rw same at (state_change-Outcome input next removing changed)
  account_stvf-Outcome input none e =
      let (removing, destroyed, e1) =
        >>=-eq-ok (account_destruction_valid math p storage_cost crypto params ws input) _ e in
      let same : removing ≡ ws.has_reward input.chain_id =
        rewards_valid-same (ws.has_reward input.chain_id) removing e1 in
      rw same at (destruction-Outcome input removing destroyed)
