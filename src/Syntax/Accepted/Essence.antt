-- ===== src/Syntax/Accepted/Essence.antt =====
-- transaction.go, transaction_essence.go, input.go, input_context.go, allotment.go: what the essence of
-- a syntactically valid transaction satisfies, and all that is known of the whole.
use axon_go.Common.{
  ℕ, ◌+◌, ◌≤◌, ◌<◌, ◌≡◌, refl, arith, Option, none, List, [], ◌∷◌, Bool, true, false, not, ◌&&◌,
  ◌==◌, inl, inr, Bool-cases, u16, length,
}
use axon_go.Common.Result.{ok, reject_if, >>=-eq-ok}
use axon_go.SafeMath.{SafeMath}
use axon_go.Address.{OutputId}
use axon_go.Syntax.{
  slice_validator, max_mana_exceeded, bit_mask_non_trailing_zero_bytes,
  tx_essence_network_id_invalid,
}
use axon_go.Syntax.Parts.{sum_of}
use axon_go.Syntax.Outputs.{amount_of, stored_mana}
use axon_go.Syntax.StorageScore.{StorageScoreStructure}
use axon_go.Syntax.Transaction.{
  ProtocolParameters, Transaction, Captured, nothing_captured, ContextInput, commitment_input_of,
  block_issuance_credit_input, reward_input, Allotment, same_output_id, has_output_id,
  inputs_syntactical_unique, inputs_syntactical_indices_within_bounds, input_validator,
  context_input_validator, allotment_validator, allotment_max_mana_validator,
  context_inputs_reward_input_max_index, context_inputs_commitment_input_requirement,
  has_commitment_input, max_mana_value, syntactically_validate_essence, syntactically_validate,
}
use axon_go.Syntax.Accepted.Deposits.{Each, IsCovered, limited-eq-ok}
use axon_go.Syntax.Accepted.Chains.{ChainsDiffer}
use axon_go.Syntax.Accepted.Outputs.{outputs-ChainsDiffer, outputs-IsCovered, outputs-sums}

-- No output is spent twice.
unfoldable pub InputsDiffer : List OutputId → Type 0
InputsDiffer [] = Unit
InputsDiffer (input ∷ inputs) =
    Each (λ other. same_output_id input other ≡ false) inputs × InputsDiffer inputs

-- A reward input is the index of an input.
abbrev pub IsIndexed : ℕ → ContextInput → Type 0
IsIndexed count (reward_input index) = index < count
IsIndexed count input = Unit

-- Whether an input reads a credit or a reward, which takes a commitment.
unfoldable pub reads_commitment : List ContextInput → Bool
reads_commitment [] = false
reads_commitment (commitment_input_of a ∷ inputs) = reads_commitment inputs
reads_commitment (input ∷ inputs) = true

has_output_id-same :
    (seen : List OutputId) (a b : OutputId)
    → same_output_id a b ≡ true
    → has_output_id seen a ≡ has_output_id seen b
unfolding has_output_id
has_output_id-same [] a b h = refl
has_output_id-same (id ∷ seen) a b h = ground (arith, h, has_output_id-same seen a b h)

input_validator-kept :
    (input : OutputId) (seen : List OutputId) (id : OutputId) {seen' : List OutputId}
    → input_validator input seen ≡ ok seen'
    → has_output_id seen id ≡ true
    → (has_output_id seen' id ≡ true) × (same_output_id id input ≡ false)
unfolding inputs_syntactical_unique inputs_syntactical_indices_within_bounds has_output_id
input_validator-kept input seen id h known = elim (Bool-cases (same_output_id id input)) [
  | inl same ↦ absurd (ground (arith, h, known, has_output_id-same seen id input same))
  | inr e ↦ (ground (arith, h, known, e), e)
]

input_validator-added :
    (input : OutputId) (seen : List OutputId) {seen' : List OutputId}
    → input_validator input seen ≡ ok seen'
    → (has_output_id seen' input ≡ true) × (input.index ≤ 127)
unfolding inputs_syntactical_unique inputs_syntactical_indices_within_bounds has_output_id
input_validator-added input seen h = (ground (arith, h), ground (arith, h))

spent_once :
    (inputs : List OutputId) (seen : List OutputId) (id : OutputId) {seen' : List OutputId}
    → slice_validator input_validator inputs seen ≡ ok seen'
    → has_output_id seen id ≡ true
    → Each (λ other. same_output_id id other ≡ false) inputs
unfolding slice_validator Each
spent_once [] seen id h known = tt
spent_once (input ∷ inputs) seen id h known =
    let (next, e, rest) = >>=-eq-ok (input_validator input seen) _ h in
    let (known', differs) = input_validator-kept input seen id e known in
    (differs, spent_once inputs next id rest known')

inputs-InputsDiffer :
    (inputs : List OutputId) (seen : List OutputId) {seen' : List OutputId}
    → slice_validator input_validator inputs seen ≡ ok seen'
    → InputsDiffer inputs × Each (λ (input : OutputId). input.index ≤ 127) inputs
unfolding slice_validator Each InputsDiffer
inputs-InputsDiffer [] seen h = (tt, tt)
inputs-InputsDiffer (input ∷ inputs) seen h =
    let (next, e, rest) = >>=-eq-ok (input_validator input seen) _ h in
    let (added, index) = input_validator-added input seen e in
    let (differ, indices) = inputs-InputsDiffer inputs next rest in
    ((spent_once inputs next input rest added, differ), (index, indices))

context_input_validator-eq-ok :
    (count : ℕ) (input : ContextInput) (prev : Option ContextInput) (seen : Bool)
    (next : Option ContextInput × Bool)
    → context_input_validator count input (prev, seen) ≡ ok next
    → IsIndexed count input × (context_inputs_commitment_input_requirement input seen ≡ ok next.1)
unfolding context_inputs_reward_input_max_index context_inputs_commitment_input_requirement
context_input_validator-eq-ok count (commitment_input_of a) prev seen next h =
    (tt, ground (arith, h))
context_input_validator-eq-ok count (block_issuance_credit_input a) prev seen next h =
    (tt, ground (arith, h))
context_input_validator-eq-ok count (reward_input index) prev seen next h =
    (ground (arith, h), ground (arith, h))

-- No commitment was seen before inputs that read one and have none among them.
abbrev pub uncommitted : Bool → List ContextInput → Bool
uncommitted seen inputs = not seen && reads_commitment inputs && not (has_commitment_input inputs)

uncommitted-step :
    (input : ContextInput) (inputs : List ContextInput) (seen next : Bool)
    → context_inputs_commitment_input_requirement input seen ≡ ok next
    → uncommitted next inputs ≡ false
    → uncommitted seen (input ∷ inputs) ≡ false
unfolding context_inputs_commitment_input_requirement reads_commitment has_commitment_input
uncommitted-step (commitment_input_of a) inputs seen next h rest = ground (arith, h, rest)
uncommitted-step (block_issuance_credit_input a) inputs seen next h rest = ground (arith, h, rest)
uncommitted-step (reward_input index) inputs seen next h rest = ground (arith, h, rest)

context_inputs-IsIndexed :
    (count : ℕ) (inputs : List ContextInput) (prev : Option ContextInput) (seen : Bool)
    {last : Option ContextInput × Bool}
    → slice_validator (context_input_validator count) inputs (prev, seen) ≡ ok last
    → Each (IsIndexed count) inputs × (uncommitted seen inputs ≡ false)
unfolding slice_validator Each reads_commitment
context_inputs-IsIndexed count [] prev seen h = (tt, ground arith)
context_inputs-IsIndexed count (input ∷ inputs) prev seen h =
    let (next, e, rest) = >>=-eq-ok (context_input_validator count input (prev, seen)) _ h in
    let (indexed, seen') = context_input_validator-eq-ok count input prev seen next e in
    let (others, committed) = context_inputs-IsIndexed count inputs next.0 next.1 rest in
    ((indexed, others), uncommitted-step input inputs seen next.1 seen' committed)

module _ (math : SafeMath) where
  allotment_validator-eq-ok :
      (limit : ℕ) (a : Allotment) (prev : Option Allotment) (sum : ℕ) (next : Option Allotment × ℕ)
      → allotment_validator math limit a (prev, sum) ≡ ok next
      → allotment_max_mana_validator math limit a sum ≡ ok next.1
  allotment_validator-eq-ok limit a prev sum next h = ground (arith, h)

  allotments-sum :
      (limit : ℕ) (allotments : List Allotment) (prev : Option Allotment) (sum : ℕ)
      {last : Option Allotment × ℕ}
      → slice_validator (allotment_validator math limit) allotments (prev, sum) ≡ ok last
      → sum ≤ limit
      → sum + sum_of (λ (a : Allotment). a.mana) allotments ≤ limit
  unfolding slice_validator sum_of
  allotments-sum limit [] prev sum h low = omega arith
  allotments-sum limit (a ∷ allotments) prev sum h low =
      let (next, e, rest) = >>=-eq-ok (allotment_validator math limit a (prev, sum)) _ h in
      let sums =
        limited-eq-ok math sum a.mana limit max_mana_exceeded
          (allotment_validator-eq-ok limit a prev sum next e) in
      omega (arith, sums.0, allotments-sum limit allotments next.0 next.1 rest sums.1)

  module _ (structure : StorageScoreStructure) (parameters : ProtocolParameters) where
    -- What a transaction satisfies: its inputs differ and their indices are below 128, reward inputs
    -- are indices of inputs, a commitment input is there where a credit or a reward is read; the
    -- allotted Mana, the stored Mana and the amounts are bounded in total; each output pays for its
    -- storage; and no two outputs are of the same chain.
    pub IsWellFormed : Transaction → Type 0
    IsWellFormed t =
        InputsDiffer t.inputs
        × Each (λ (input : OutputId). input.index ≤ 127) t.inputs
        × Each (IsIndexed (u16 (length t.inputs))) t.context_inputs
        × (uncommitted false t.context_inputs ≡ false)
        × (sum_of (λ (a : Allotment). a.mana) t.allotments ≤ max_mana_value parameters.bits_count)
        × (sum_of amount_of t.outputs ≤ parameters.token_supply)
        × (sum_of stored_mana t.outputs ≤ max_mana_value parameters.bits_count)
        × Each (IsCovered structure) t.outputs
        × ChainsDiffer t.outputs

    -- A transaction that is accepted by the syntactic validation is well-formed: it spends no output
    -- twice, the indices of its inputs are below 128 and reward inputs are indices of inputs, it has a
    -- commitment input if it reads a credit or a reward; the Mana that it allots, the Mana that it
    -- stores and the amounts of its outputs do not exceed their bounds in total; each output has an
    -- amount that is not zero and pays for its storage score, and a storage deposit to return pays for
    -- the output that returns it and is not above the amount; and no two outputs are of the same chain
    -- unless the transaction creates it.
    pub syntactically_validate-IsWellFormed :
        (t : Transaction) {captured : Captured}
        → syntactically_validate math structure parameters t ≡ ok captured
        → IsWellFormed t
    unfolding syntactically_validate syntactically_validate_essence IsWellFormed
    syntactically_validate-IsWellFormed t h =
        let (_, essence, outputs) =
          >>=-eq-ok (syntactically_validate_essence math parameters t) _ h in
        let limit : ℕ = max_mana_value parameters.bits_count in
        let (_, _, e1) = >>=-eq-ok (bit_mask_non_trailing_zero_bytes t.capabilities) _ essence in
        let (_, _, e2) =
          >>=-eq-ok
            (reject_if (not (t.network_id == parameters.network_id)) tx_essence_network_id_invalid)
            _ e1 in
        let (_, inputs, e3) = >>=-eq-ok (slice_validator input_validator t.inputs []) _ e2 in
        let (_, contexts, e4) =
          >>=-eq-ok
            (slice_validator (context_input_validator (u16 (length t.inputs))) t.context_inputs
              (none, false))
            _ e3 in
        let (_, allotments, _) =
          >>=-eq-ok (slice_validator (allotment_validator math limit) t.allotments (none, 0)) _
            e4 in
        let (differ, indices) = inputs-InputsDiffer t.inputs [] inputs in
        let (indexed, committed) =
          context_inputs-IsIndexed (u16 (length t.inputs)) t.context_inputs none false contexts in
        let has : Bool = has_commitment_input t.context_inputs in
        let sums =
          outputs-sums math structure parameters has t.outputs nothing_captured outputs
            (omega arith) (omega arith) in
        (
          differ,
          indices,
          indexed,
          committed,
          omega (arith, allotments-sum limit t.allotments none 0 allotments (omega arith)),
          omega (arith, sums.0),
          omega (arith, sums.1),
          outputs-IsCovered math structure parameters has t.outputs nothing_captured outputs,
          outputs-ChainsDiffer math structure parameters has t.outputs nothing_captured outputs,
        )
