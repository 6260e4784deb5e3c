-- ===== src/Syntax/Total/Slices.antt =====
-- syntax_validator.go, transaction_essence.go: a loop over a slice returns where its validators do, and
-- so does the validation of the essence.
use Prim.Native.Nat.{Ordering, compare}
use axon_go.Common.{
  ℕ, ◌≡◌, ◌≢◌, refl, arith, Option, none, some, List, [], ◌∷◌, Bool, not, ◌==◌, u16, length, false,
}
use axon_go.Common.Result.{Result, ok, err, panic, ◌>>=◌, reject_if}
use axon_go.SafeMath.{SafeMath}
use axon_go.Address.{OutputId}
use axon_go.Syntax.{
  tx_essence_network_id_invalid, Error, slice_validator, after,
  lexical_order_and_uniqueness_validator, bit_mask_non_trailing_zero_bytes, max_mana_exceeded,
}
use axon_go.Syntax.Checks.{ascending, limited}
use axon_go.Syntax.Transaction.{
  ContextInput, Allotment, Transaction, ProtocolParameters, inputs_syntactical_unique,
  inputs_syntactical_indices_within_bounds, compare_context_inputs,
  context_inputs_reward_input_max_index, context_inputs_commitment_input_requirement,
  max_mana_value, input_validator, context_input_validator, allotment_validator,
  syntactically_validate_essence, commitment_input_of, block_issuance_credit_input, reward_input,
}
use axon_go.Syntax.Accepted.Deposits.{Each}

-- A call returns after a call that does.
pub bind-returns {κ ℓ} :
    {A : Type κ} {B : Type ℓ} (call : Result Error A) (next : A → Result Error B)
    → call ≢ panic
    → ((value : A) → call ≡ ok value → next value ≢ panic)
    → (call >>= next) ≢ panic
bind-returns panic next h after e = h refl
bind-returns (err e) next h after e' = cc e'
bind-returns (ok value) next h after e = after value refl e

module _ {κ ℓ} {A : Type κ} {S : Type ℓ} (P : A → Type 0) (validate : A → S → Result Error S) where
  pub slice-returns :
      (slice : List A) (s : S)
      → ((a : A) (s : S) → P a → validate a s ≢ panic)
      → Each P slice
      → slice_validator validate slice s ≢ panic
  unfolding slice_validator Each
  slice-returns [] s returns all = λ h. cc h
  slice-returns (a ∷ slice) s returns (first, all) =
      bind-returns (validate a s) (slice_validator validate slice) (returns a s first)
        (λ s' e. slice-returns slice s' returns all)

Each-all : {A : Type 0} (slice : List A) → Each (λ (a : A). Unit {0}) slice
unfolding Each
Each-all [] = tt
Each-all (a ∷ slice) = (tt, Each-all slice)

lexical-returns :
    {A : Type 0} (order : A → A → Ordering) (next : A) (prev : Option A)
    → lexical_order_and_uniqueness_validator order next prev ≢ panic
unfolding lexical_order_and_uniqueness_validator
lexical-returns order next none h = cc h
lexical-returns order next (some prev) h = ground (arith, h)

pub ascending-returns :
    {A : Type 0} (type_of : A → ℕ) (slice : List A) → ascending type_of slice ≢ panic
unfolding ascending
ascending-returns {A} type_of slice h =
    slice-returns (λ (a : A). Unit {0})
      (lexical_order_and_uniqueness_validator (λ (a b : A). compare (type_of a) (type_of b))) slice
      none (λ a prev u. lexical-returns (λ (a b : A). compare (type_of a) (type_of b)) a prev)
      (Each-all slice) (ground (arith, h))

pub limited-returns : (sum : Option ℕ) (limit : ℕ) (e : Error) → limited sum limit e ≢ panic
limited-returns none limit e h = cc h
limited-returns (some sum) limit e h = ground (arith, h)

mask-returns : (bm : List ℕ) → bit_mask_non_trailing_zero_bytes bm ≢ panic
unfolding bit_mask_non_trailing_zero_bytes
mask-returns [] h = cc h
mask-returns (byte ∷ []) h = ground (arith, h)
mask-returns (byte ∷ next ∷ bm) h = mask-returns (next ∷ bm) h

input-returns : (input : OutputId) (seen : List OutputId) → input_validator input seen ≢ panic
unfolding inputs_syntactical_unique inputs_syntactical_indices_within_bounds
input-returns input seen h = ground (arith, h)

context-returns :
    (count : ℕ) (input : ContextInput) (s : Option ContextInput × Bool)
    → context_input_validator count input s ≢ panic
unfolding context_inputs_reward_input_max_index context_inputs_commitment_input_requirement
context-returns count (commitment_input_of a) (prev, seen) h =
    ground (arith, h, lexical-returns compare_context_inputs (commitment_input_of a) prev)
context-returns count (block_issuance_credit_input a) (prev, seen) h =
    ground (arith, h, lexical-returns compare_context_inputs (block_issuance_credit_input a) prev)
context-returns count (reward_input index) (prev, seen) h =
    ground (arith, h, lexical-returns compare_context_inputs (reward_input index) prev)

allotment-returns :
    (math : SafeMath) (limit : ℕ) (a : Allotment) (s : Option Allotment × ℕ)
    → allotment_validator math limit a s ≢ panic
allotment-returns math limit a (prev, sum) =
    bind-returns _ _
      (lexical-returns (λ (x y : Allotment). compare x.account_id y.account_id) a prev)
      (λ _ _.
        bind-returns _ _ (limited-returns (math.safe_add 64 sum a.mana) limit max_mana_exceeded)
          (λ _ _ h. cc h))

pub essence-returns :
    (math : SafeMath) (parameters : ProtocolParameters) (t : Transaction)
    → syntactically_validate_essence math parameters t ≢ panic
unfolding syntactically_validate_essence
essence-returns math parameters t =
    let limit : ℕ = max_mana_value parameters.bits_count in
    bind-returns _ _ (mask-returns t.capabilities) (λ _ _.
      bind-returns
        (reject_if (not (t.network_id == parameters.network_id)) tx_essence_network_id_invalid) _
        (λ h. ground (arith, h))
        (λ _ _.
          bind-returns _ _
            (slice-returns (λ (a : OutputId). Unit {0}) input_validator t.inputs []
              (λ a s _. input-returns a s) (Each-all t.inputs))
            (λ _ _.
              bind-returns _ _
                (slice-returns (λ (a : ContextInput). Unit {0})
                  (context_input_validator (u16 (length t.inputs))) t.context_inputs (none, false)
                  (λ a s _. context-returns (u16 (length t.inputs)) a s)
                  (Each-all t.context_inputs))
                (λ _ _.
                  bind-returns _ _
                    (slice-returns (λ (a : Allotment). Unit {0}) (allotment_validator math limit)
                      t.allotments (none, 0) (λ a s _. allotment-returns math limit a s)
                      (Each-all t.allotments))
                    (λ _ _ h. cc h)))))
