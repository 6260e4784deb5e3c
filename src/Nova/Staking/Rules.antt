-- ===== src/Nova/Staking/Rules.antt =====
-- vm/nova/vm.go: what an accepted transition of the staking feature keeps.
use axon_go.Common.{
  ℕ, ◌+◌, ◌^◌, ◌≤◌, ◌<◌, ◌≡◌, ◌≢◌, ◌⊎◌, inl, inr, arith, true, false, Option, none, some, u32,
}
use axon_go.Common.Result.{ok}
use axon_go.TimeProvider.Epochs.{epoch_from_slot_mono}
use axon_go.Nova.{Params, past_bounded_slot_index, future_bounded_slot_index}
use axon_go.Nova.Staking.{
  StakingFeature, staking_equal, past_bounded_epoch, future_bounded_epoch, unbonding_epoch,
  account_staking_genesis_validation, account_staking_non_expired_validation,
  account_staking_expired_validation, account_staking_stvf,
}

-- What the feature is after a transition that does not count as its removal.
pub record IsKept (params : Params) (slot : ℕ) (current next : StakingFeature) : Type 0 where
  pub staked_amount : current.staked_amount ≡ next.staked_amount
  pub fixed_cost : current.fixed_cost ≡ next.fixed_cost
  pub start_epoch : current.start_epoch ≡ next.start_epoch
  pub end_epoch :
      (current.end_epoch ≡ next.end_epoch) ⊎ (unbonding_epoch params slot ≤ next.end_epoch)

non_expired-IsKept :
    (params : Params) (slot : ℕ) (current next : StakingFeature)
    → account_staking_non_expired_validation current (some next) (unbonding_epoch params slot)
      ≡ ok tt
    → IsKept params slot current next
unfolding account_staking_non_expired_validation
non_expired-IsKept params slot current next accepted = record {
  staked_amount = ground arith;
  fixed_cost = ground arith;
  start_epoch = ground arith;
  end_epoch = ground arith;
}

equal-IsKept :
    (params : Params) (slot : ℕ) (current next : StakingFeature)
    → staking_equal current next ≡ true
    → IsKept params slot current next
unfolding staking_equal
equal-IsKept params slot current next same = record {
  staked_amount = ground arith;
  fixed_cost = ground arith;
  start_epoch = ground arith;
  end_epoch = ground arith;
}

pub not_removed :
    (params : Params) (slot : ℕ) (current : StakingFeature)
    → account_staking_stvf params (some slot) (some current) none ≢ ok false
unfolding account_staking_stvf account_staking_expired_validation
    account_staking_non_expired_validation
not_removed params slot current accepted = ground arith

kept-cases :
    (params : Params) (slot : ℕ) (current n : StakingFeature)
    → account_staking_stvf params (some slot) (some current) (some n) ≡ ok false
    → (account_staking_non_expired_validation current (some n) (unbonding_epoch params slot)
        ≡ ok tt)
      ⊎ (staking_equal current n ≡ true)
unfolding account_staking_stvf account_staking_expired_validation
kept-cases params slot current n accepted = ground arith

-- A feature that takes the place of another one is validated as a new one.
pub removed-cases :
    (params : Params) (slot : ℕ) (current : StakingFeature) (next : Option StakingFeature)
    → account_staking_stvf params (some slot) (some current) next ≡ ok true
    → (current.end_epoch < future_bounded_epoch params slot)
      × ((n : StakingFeature)
          → next ≡ some n
          → account_staking_genesis_validation params (some slot) n ≡ ok tt)
unfolding account_staking_stvf account_staking_expired_validation
removed-cases params slot current none accepted = (ground arith, λ n e. absurd (cc))
removed-cases params slot current (some m) accepted = (
  ground arith,
  λ n e.
      let valid : account_staking_genesis_validation params (some slot) m ≡ ok tt = ground arith in
      cc,
)

pub genesis-facts :
    (params : Params) (slot : ℕ) (n : StakingFeature)
    → account_staking_genesis_validation params (some slot) n ≡ ok tt
    → (n.start_epoch ≡ past_bounded_epoch params slot) × (unbonding_epoch params slot ≤ n.end_epoch)
unfolding account_staking_genesis_validation
genesis-facts params slot n accepted = (ground arith, ground arith)

pub account_staking_stvf-IsKept :
    (params : Params) (slot : ℕ) (current n : StakingFeature)
    → account_staking_stvf params (some slot) (some current) (some n) ≡ ok false
    → IsKept params slot current n
account_staking_stvf-IsKept params slot current n accepted =
    elim (kept-cases params slot current n accepted) [
      | inl e ↦ non_expired-IsKept params slot current n e
      | inr e ↦ equal-IsKept params slot current n e
    ]

pub unbonding_epoch-eq :
    (params : Params) (slot : ℕ)
    → past_bounded_epoch params slot + params.protocol_parameters.staking_unbonding_period < 2 ^ 32
    → unbonding_epoch params slot
      ≡ past_bounded_epoch params slot + params.protocol_parameters.staking_unbonding_period
unfolding unbonding_epoch
unbonding_epoch-eq params slot period = omega arith

bounded_epochs :
    (params : Params) (slot : ℕ)
    → params.protocol_parameters.min_committable_age
      ≤ params.protocol_parameters.max_committable_age
    → slot + params.protocol_parameters.max_committable_age < 2 ^ 32
    → future_bounded_epoch params slot ≤ past_bounded_epoch params slot
unfolding future_bounded_epoch past_bounded_epoch past_bounded_slot_index future_bounded_slot_index
bounded_epochs params slot ages fits =
    let low = slot + params.protocol_parameters.min_committable_age in
    let high = slot + params.protocol_parameters.max_committable_age in
    let f : u32 low ≡ low = omega arith in
    let p : u32 high ≡ high = omega arith in
    rw (f, p) ((epoch_from_slot_mono params.time_provider low high (omega arith) fits).0)

-- The rewards of a feature are claimed once: a transition that counts as a removal happens only when
-- the feature's end epoch is over, and a feature that takes its place starts after that end epoch and
-- ends at least an unbonding period after its start. The commitment's slot and the ages are such that
-- no sum of slots or epochs wraps around, and the maximum age is not below the minimum age.
pub account_staking_stvf_disjoint :
    (params : Params) (slot : ℕ) (current : StakingFeature) (next : Option StakingFeature)
    → params.protocol_parameters.min_committable_age
      ≤ params.protocol_parameters.max_committable_age
    → slot + params.protocol_parameters.max_committable_age < 2 ^ 32
    → past_bounded_epoch params slot + params.protocol_parameters.staking_unbonding_period < 2 ^ 32
    → account_staking_stvf params (some slot) (some current) next ≡ ok true
    → (current.end_epoch < future_bounded_epoch params slot)
      × ((n : StakingFeature)
          → next ≡ some n
          → (current.end_epoch < n.start_epoch)
            × (n.start_epoch + params.protocol_parameters.staking_unbonding_period ≤ n.end_epoch))
account_staking_stvf_disjoint params slot current next ages fits period accepted =
    let (over, valid) = removed-cases params slot current next accepted in
    (
      over,
      λ n e.
          let (start, end) = genesis-facts params slot n (valid n e) in
          (
            omega (arith, bounded_epochs params slot ages fits),
            omega (arith, unbonding_epoch-eq params slot period),
          ),
    )
