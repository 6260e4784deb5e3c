-- ===== src/Nova/Staking/Bond.antt =====
-- vm/nova/vm.go: the staking feature of an account from its creation to its removal.
use axon_go.Common.{
  ℕ, ◌+◌, ◌^◌, ◌≤◌, ◌<◌, ◌≡◌, refl, inl, inr, arith, Bool, true, false, Option, none, some, u32,
}
use axon_go.Common.Result.{ok}
use axon_go.TimeProvider.Epochs.{epoch_from_slot_mono}
use axon_go.Nova.{Params, past_bounded_slot_index}
use axon_go.Nova.Staking.{
  StakingFeature, past_bounded_epoch, future_bounded_epoch, account_staking_genesis_validation,
  account_staking_stvf,
}
use axon_go.Nova.Staking.Rules.{
  IsKept, not_removed, account_staking_stvf-IsKept, removed-cases, genesis-facts,
  unbonding_epoch-eq,
}

-- What becomes of a feature: it is created, as the account's first one or in place of one that is
-- removed, and kept by the later transitions. The last argument is the slot of the last commitment.
pub data Stake (params : Params) (first : StakingFeature) : StakingFeature → ℕ → Type 0 where
  created :
      (slot : ℕ)
      → account_staking_stvf params (some slot) none (some first) ≡ ok false
      → Stake params first first slot
  replaced :
      (slot : ℕ) (old : StakingFeature)
      → account_staking_stvf params (some slot) (some old) (some first) ≡ ok true
      → Stake params first first slot
  kept :
      {current : StakingFeature} {before : ℕ} (next : StakingFeature) (slot : ℕ)
      → before ≤ slot
      → account_staking_stvf params (some slot) (some current) (some next) ≡ ok false
      → Stake params first current before
      → Stake params first next slot

-- A feature stakes what it staked at first, for at least the unbonding period.
pub record IsBonded (params : Params) (first current : StakingFeature) : Type 0 where
  pub staked_amount : current.staked_amount ≡ first.staked_amount
  pub fixed_cost : current.fixed_cost ≡ first.fixed_cost
  pub start_epoch : current.start_epoch ≡ first.start_epoch
  pub end_epoch :
      first.start_epoch + params.protocol_parameters.staking_unbonding_period ≤ current.end_epoch

-- The sums of slots and epochs that the validation makes at a slot do not wrap around.
pub record InRange (params : Params) (slot : ℕ) : Type 0 where
  pub slots : slot + params.protocol_parameters.max_committable_age < 2 ^ 32
  pub epochs :
      past_bounded_epoch params slot + params.protocol_parameters.staking_unbonding_period < 2 ^ 32

past_bounded_epoch_mono :
    (params : Params) (before slot : ℕ)
    → before ≤ slot
    → slot + params.protocol_parameters.max_committable_age < 2 ^ 32
    → past_bounded_epoch params before ≤ past_bounded_epoch params slot
unfolding past_bounded_epoch past_bounded_slot_index
past_bounded_epoch_mono params before slot order fits =
    let low = before + params.protocol_parameters.max_committable_age in
    let high = slot + params.protocol_parameters.max_committable_age in
    let l : u32 low ≡ low = omega arith in
    let h : u32 high ≡ high = omega arith in
    rw (l, h) ((epoch_from_slot_mono params.time_provider low high (omega arith) fits).0)

InRange-before :
    (params : Params) (before slot : ℕ)
    → before ≤ slot
    → InRange params slot
    → InRange params before
InRange-before params before slot order range = record {
  slots = let fits = range.slots in omega arith;
  epochs =
      let fits = range.epochs in
      omega (arith, past_bounded_epoch_mono params before slot order range.slots);
}

created-valid :
    (params : Params) (slot : ℕ) (first : StakingFeature)
    → account_staking_stvf params (some slot) none (some first) ≡ ok false
    → account_staking_genesis_validation params (some slot) first ≡ ok tt
unfolding account_staking_stvf
created-valid params slot first accepted = ground arith

-- A new feature starts at the epoch of its commitment and is bonded.
genesis-IsBonded :
    (params : Params) (slot : ℕ) (first : StakingFeature)
    → InRange params slot
    → account_staking_genesis_validation params (some slot) first ≡ ok tt
    → (first.start_epoch ≤ past_bounded_epoch params slot) × IsBonded params first first
genesis-IsBonded params slot first range valid =
    let (start, end) = genesis-facts params slot first valid in
    (
      omega arith,
      record {
        staked_amount = refl;
        fixed_cost = refl;
        start_epoch = refl;
        end_epoch = omega (arith, unbonding_epoch-eq params slot range.epochs);
      },
    )

kept-IsBonded :
    (params : Params) (slot : ℕ) (first current next : StakingFeature)
    → InRange params slot
    → first.start_epoch ≤ past_bounded_epoch params slot
    → IsBonded params first current
    → IsKept params slot current next
    → IsBonded params first next
kept-IsBonded params slot first current next range started bonded k = record {
  staked_amount = let was = bonded.staked_amount in let same = k.staked_amount in cc;
  fixed_cost = let was = bonded.fixed_cost in let same = k.fixed_cost in cc;
  start_epoch = let was = bonded.start_epoch in let same = k.start_epoch in cc;
  end_epoch =
      let was = bonded.end_epoch in
      elim (k.end_epoch) [
        | inl same ↦ omega arith
        | inr late ↦ omega (arith, unbonding_epoch-eq params slot range.epochs)
      ];
}

Stake-IsBonded :
    {params : Params} {first current : StakingFeature} {slot : ℕ}
    → InRange params slot
    → Stake params first current slot
    → (first.start_epoch ≤ past_bounded_epoch params slot) × IsBonded params first current
Stake-IsBonded {params} {first} range (created slot accepted) =
    genesis-IsBonded params slot first range (created-valid params slot first accepted)
Stake-IsBonded {params} {first} range (replaced slot old accepted) =
    genesis-IsBonded params slot first range
      ((removed-cases params slot old (some first) accepted).1 first refl)
Stake-IsBonded {params} {first} range (kept {current} {before} next slot order accepted stake) =
    let (started, bonded) = Stake-IsBonded (InRange-before params before slot order range) stake in
    let later = past_bounded_epoch_mono params before slot order range.slots in
    let k = account_staking_stvf-IsKept params slot current next accepted in
    (omega arith, kept-IsBonded params slot first current next range (omega arith) bonded k)

-- What a further transition at a slot does: it removes the feature, or it keeps one.
abbrev pub Ends : Params → StakingFeature → ℕ → Option StakingFeature → Bool → Type 0
Ends params first slot next true =
    first.start_epoch + params.protocol_parameters.staking_unbonding_period
    < future_bounded_epoch params slot
Ends params first slot next false = (n : StakingFeature) × (next ≡ some n) × IsBonded params first n

-- A stake is bonded for the unbonding period: take a feature that was created, as the account's first
-- one or in place of a removed one, and then kept by any number of accepted transitions, at slots of
-- commitments that do not go back. Whatever transition is accepted next, at a slot that is not
-- earlier, either counts as a removal, and then the epoch that bounds the current one from the future
-- is more than the unbonding period after the epoch the feature started in, or it keeps a feature
-- that has the staked amount, the fixed cost and the start epoch of the creation, and an end epoch at
-- least the unbonding period after the start epoch. No sum of slots or epochs wraps around at the
-- last slot (InRange).
pub account_staking_stvf-Ends :
    (params : Params) (first current : StakingFeature) (next : Option StakingFeature)
    (before slot : ℕ) (removed : Bool)
    → InRange params slot
    → Stake params first current before
    → before ≤ slot
    → account_staking_stvf params (some slot) (some current) next ≡ ok removed
    → Ends params first slot next removed
account_staking_stvf-Ends params first current next before slot true range stake order accepted =
    let (over, replaces) = removed-cases params slot current next accepted in
    let bonded = (Stake-IsBonded (InRange-before params before slot order range) stake).1 in
    let end = bonded.end_epoch in omega arith
account_staking_stvf-Ends params first current none before slot false range stake order accepted =
    absurd (not_removed params slot current accepted)
account_staking_stvf-Ends params first current (some n) before slot false range stake order
      accepted =
    (n, refl, (Stake-IsBonded range (kept n slot order accepted stake)).1)
