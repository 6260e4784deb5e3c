-- ===== src/Nova/Delegation/Rules.antt =====
-- vm/nova/vm.go: the epochs of a delegation, and what its transitions keep.
use axon_go.Common.{
  ℕ, zero, suc, Bool, ◌≢◌, ◌⊎◌, ◌+◌, ◌-◌, ◌*◌, ◌^◌, ◌≤◌, ◌<◌, ◌≡◌, refl, arith, some, inl, inr,
}
use native.Mathlib.Decide.{dec_le}
use axon_go.Common.Result.{ok}
use axon_go.TimeProvider.{epoch_from_slot}
use axon_go.TimeProvider.Epochs.{epoch_slots, InRange, epoch_bracket, epoch_end-eq, next-le}
use axon_go.Nova.{Params, past_bounded_slot_index}
use axon_go.Nova.Delegation.{
  DelegationOutput, registration_slot, expected_start_epoch, expected_end_epoch,
  delegation_genesis_valid, delegation_state_change_valid, delegation_stvf, created, changed,
}

-- The slots around the commitment's past bounded slot: it is at or after the genesis slot, the epoch
-- after the next one is in range, and the registration closes within an epoch.
pub record IsNearby (params : Params) (slot : ℕ) : Type 0 where
  pub after : params.time_provider.genesis_slot ≤ past_bounded_slot_index params slot
  pub below : past_bounded_slot_index params slot < 2 ^ 32
  pub in_range :
      InRange params.time_provider
        (epoch_from_slot params.time_provider (past_bounded_slot_index params slot) + 2)
  pub threshold :
      params.protocol_parameters.epoch_nearing_threshold < epoch_slots params.time_provider

-- The registration of an epoch in range.
registration_slot-eq :
    (params : Params) (e : ℕ)
    → InRange params.time_provider e
    → params.protocol_parameters.epoch_nearing_threshold < epoch_slots params.time_provider
    → registration_slot params e + params.protocol_parameters.epoch_nearing_threshold + 1
      ≡ params.time_provider.genesis_slot
        + e * epoch_slots params.time_provider
        + epoch_slots params.time_provider
unfolding registration_slot
registration_slot-eq params e in_range threshold =
    omega (arith, epoch_end-eq params.time_provider e in_range)

-- The registration of the epoch before one in range.
registration_slot_before-eq :
    (params : Params) (e : ℕ)
    → 0 < e
    → InRange params.time_provider e
    → params.protocol_parameters.epoch_nearing_threshold < epoch_slots params.time_provider
    → registration_slot params (e - 1) + params.protocol_parameters.epoch_nearing_threshold + 1
      ≡ params.time_provider.genesis_slot + e * epoch_slots params.time_provider
registration_slot_before-eq params zero some_before in_range threshold = absurd (omega arith)
registration_slot_before-eq params (suc e) some_before in_range threshold =
    let here : suc e - 1 ≡ e = omega arith in
    rw here (omega (arith, registration_slot-eq params e (omega (arith, in_range)) threshold))

-- A new delegation counts from the first epoch whose voting power is still open: for a past bounded
-- slot in range, the registration for the expected start epoch, which closes in the epoch before
-- it, is not over at that slot, and the registration of the epoch before that one is over, unless
-- there is no such epoch.
pub expected_start_epoch_lem :
    (params : Params) (slot : ℕ)
    → IsNearby params slot
    → (e : ℕ) × (expected_start_epoch params slot ≡ e + 1)
      × (past_bounded_slot_index params slot ≤ registration_slot params e)
      × (0 < e → registration_slot params (e - 1) < past_bounded_slot_index params slot)
unfolding expected_start_epoch
expected_start_epoch_lem params slot near =
    let t = params.time_provider in
    let slot' = past_bounded_slot_index params slot in
    let e = epoch_from_slot t slot' in
    let bracket = epoch_bracket t slot' near.after near.below in
    let this = registration_slot-eq params e (omega (arith, near.in_range)) near.threshold in
    let next = registration_slot-eq params (e + 1) (omega (arith, near.in_range)) near.threshold in
    elim (dec_le slot' (registration_slot params e)) [
      | yes open_ ↦ (
        e,
        ground (arith, near.in_range, next-le t (e + 2)),
        open_,
        λ some_before. omega (
          arith,
          bracket,
          registration_slot_before-eq params e some_before (omega (arith, near.in_range))
              near.threshold,
        ),
      )
      | no closed ↦ (
        e + 1,
        ground (arith, near.in_range, next-le t (e + 2)),
        omega (arith, bracket, next),
        λ some_before. let here : e + 1 - 1 ≡ e = omega arith in rw here (omega (arith, closed)),
      )
    ]

-- The life of a delegation, from its first output: it is created and changed by accepted transitions.
-- The identifier of an output that continues a chain is the chain's, which is not the empty one.
pub data Life (params : Params) (first : DelegationOutput) : DelegationOutput → Type 0 where
  new :
      (slot : ℕ) (claims : Bool)
      → delegation_stvf params (some slot) claims (created first) ≡ ok tt
      → Life params first first
  delayed :
      {current : DelegationOutput}
      → Life params first current
      → (next : DelegationOutput) (slot : ℕ) (claims : Bool)
      → delegation_stvf params (some slot) claims (changed current next) ≡ ok tt
      → next.delegation_id ≢ 0
      → Life params first next

-- What an output of a delegation's life is: either it is not changed and has no end epoch, or it is
-- changed once, with the end epoch that the commitment's slot asks for.
pub record IsDelegation (params : Params) (first current : DelegationOutput) : Type 0 where
  pub delegated_amount : current.delegated_amount ≡ first.amount
  pub validator_address : current.validator_address ≡ first.validator_address
  pub start_epoch : current.start_epoch ≡ first.start_epoch
  pub end_epoch :
      ((current.delegation_id ≡ 0) × (current.end_epoch ≡ 0))
      ⊎ ((current.delegation_id ≢ 0)
          × ((slot : ℕ) × (current.end_epoch ≡ expected_end_epoch params slot)))

created-facts :
    (params : Params) (slot : ℕ) (claims : Bool) (first : DelegationOutput)
    → delegation_stvf params (some slot) claims (created first) ≡ ok tt
    → (first.delegation_id ≡ 0) × (first.delegated_amount ≡ first.amount) × (first.end_epoch ≡ 0)
unfolding delegation_stvf delegation_genesis_valid
created-facts params slot claims first accepted = (ground arith, ground arith, ground arith)

changed-facts :
    (params : Params) (slot : ℕ) (claims : Bool) (current next : DelegationOutput)
    → delegation_stvf params (some slot) claims (changed current next) ≡ ok tt
    → (current.delegation_id ≡ 0)
      × (current.delegated_amount ≡ next.delegated_amount)
      × (current.validator_address ≡ next.validator_address)
      × (current.start_epoch ≡ next.start_epoch)
      × (next.end_epoch ≡ expected_end_epoch params slot)
unfolding delegation_stvf delegation_state_change_valid
changed-facts params slot claims current next accepted =
    (ground arith, ground arith, ground arith, ground arith, ground arith)

-- A delegation keeps what it delegates: after any accepted transitions the delegated amount is the
-- amount of the first output, the validator and the start epoch are those of the first output, and
-- the end epoch is 0 as long as the identifier is empty and the expected one for some commitment's
-- slot afterwards; an output whose identifier is not empty is never changed again.
pub Life-IsDelegation :
    {params : Params} {first current : DelegationOutput}
    → Life params first current
    → IsDelegation params first current
      × (current.delegation_id ≢ 0
          → (next : DelegationOutput) (slot : ℕ) (claims : Bool)
          → delegation_stvf params (some slot) claims (changed current next) ≢ ok tt)
Life-IsDelegation {params = params} {first = first} (new slot claims accepted) =
    let (empty_id, amount, no_end) = created-facts params slot claims first accepted in
    (
      record {
        delegated_amount = amount;
        validator_address = refl;
        start_epoch = refl;
        end_epoch = inl (empty_id, no_end);
      },
      λ not_empty next slot' claims' again. not_empty empty_id,
    )
Life-IsDelegation {params = params}
      (delayed {current = current} before next slot claims accepted not_empty) =
    let (_, amount, validator, start, end) =
      changed-facts params slot claims current next accepted in
    let (d, _) = Life-IsDelegation before in
    (
      record {
        delegated_amount = omega (arith, amount, d.delegated_amount);
        validator_address = omega (arith, validator, d.validator_address);
        start_epoch = omega (arith, start, d.start_epoch);
        end_epoch = inr (not_empty, (slot, end));
      },
      λ here next' slot' claims' again.
          here ((changed-facts params slot' claims' next next' again).0),
    )
