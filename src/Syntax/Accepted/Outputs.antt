-- ===== src/Syntax/Accepted/Outputs.antt =====
-- transaction.go, output.go: what all the outputs of a transaction satisfy together.
use axon_go.Common.{
  ◌+◌, ◌≤◌, ◌≡◌, refl, arith, none, some, List, [], ◌∷◌, Bool, true, false, inl, inr, Bool-cases,
  Option-cases,
}
use axon_go.Common.Result.{ok, >>=-eq-ok}
use axon_go.SafeMath.{SafeMath}
use axon_go.Outputs.{ChainId, empty_chain}
use axon_go.Syntax.{slice_validator, max_mana_exceeded}
use axon_go.Syntax.Parts.{sum_of}
use axon_go.Syntax.Outputs.{TxEssenceOutput, amount_of, stored_mana}
use axon_go.Syntax.StorageScore.{StorageScoreStructure}
use axon_go.Syntax.Checks.{has_chain, stored_mana_sum}
use axon_go.Syntax.Transaction.{
  ProtocolParameters, Captured, validate_output, max_mana_value, syntactically_validate_outputs,
}
use axon_go.Syntax.Accepted.{validate_output-eq-ok}
use axon_go.Syntax.Accepted.Deposits.{Each, IsCovered, deposit_amount-eq-ok, limited-eq-ok}
use axon_go.Syntax.Accepted.Chains.{ChainsDiffer, chain_of, clash, unique-kept, unique-added}

module _ (math : SafeMath) (structure : StorageScoreStructure)
    (parameters : ProtocolParameters) where
  module _ (committed : Bool) where
    -- A chain that was seen is on none of the outputs that follow.
    no_clash :
        (outputs : List TxEssenceOutput) (s : Captured) (id : ChainId) {s' : Captured}
        → syntactically_validate_outputs math structure parameters committed outputs s ≡ ok s'
        → has_chain s.chains id ≡ true
        → Each (λ other. clash (some id) (chain_of other) ≡ false) outputs
    unfolding syntactically_validate_outputs slice_validator Each
    no_clash [] s id h known = tt
    no_clash (output ∷ outputs) s id h known =
        let (next, e, rest) =
          >>=-eq-ok (validate_output math structure parameters committed output s) _ h in
        let (_, _, _, unique) =
          validate_output-eq-ok math structure parameters committed output s e in
        let (known', differs) = unique-kept output s.chains id unique known in
        (differs, no_clash outputs next id rest known')

    no_clash-none :
        (outputs : List TxEssenceOutput)
        → Each (λ other. clash none (chain_of other) ≡ false) outputs
    unfolding Each
    no_clash-none [] = tt
    no_clash-none (output ∷ outputs) = (refl, no_clash-none outputs)

    no_clash_empty :
        (id : ChainId) (outputs : List TxEssenceOutput)
        → empty_chain id ≡ true
        → Each (λ other. clash (some id) (chain_of other) ≡ false) outputs
    unfolding Each
    no_clash_empty id [] h = tt
    no_clash_empty id (output ∷ outputs) h = (
      elim (Option-cases (chain_of output)) [
        | inl e ↦ ground (arith, e)
        | inr (other, e) ↦ ground (arith, e, h)
      ],
      no_clash_empty id outputs h,
    )

    pub outputs-ChainsDiffer :
        (outputs : List TxEssenceOutput) (s : Captured) {s' : Captured}
        → syntactically_validate_outputs math structure parameters committed outputs s ≡ ok s'
        → ChainsDiffer outputs
    unfolding syntactically_validate_outputs slice_validator ChainsDiffer
    outputs-ChainsDiffer [] s h = tt
    outputs-ChainsDiffer (output ∷ outputs) s h =
        let (next, e, rest) =
          >>=-eq-ok (validate_output math structure parameters committed output s) _ h in
        let (_, _, _, unique) =
          validate_output-eq-ok math structure parameters committed output s e in
        (
          elim (Option-cases (chain_of output)) [
            | inl e' ↦ rw e' (no_clash-none outputs)
            | inr (id, e') ↦ rw e' (elim (Bool-cases (empty_chain id)) [
              | inl empty ↦ no_clash_empty id outputs empty
              | inr full ↦
                  no_clash outputs next id rest (unique-added output s.chains unique id e' full)
            ])
          ],
          outputs-ChainsDiffer outputs next rest,
        )

    pub outputs-IsCovered :
        (outputs : List TxEssenceOutput) (s : Captured) {s' : Captured}
        → syntactically_validate_outputs math structure parameters committed outputs s ≡ ok s'
        → Each (IsCovered structure) outputs
    unfolding syntactically_validate_outputs slice_validator Each
    outputs-IsCovered [] s h = tt
    outputs-IsCovered (output ∷ outputs) s h =
        let (next, e, rest) =
          >>=-eq-ok (validate_output math structure parameters committed output s) _ h in
        let (_, deposit, _, _) =
          validate_output-eq-ok math structure parameters committed output s e in
        let (_, _, covered) =
          deposit_amount-eq-ok math structure parameters.token_supply s.amounts output deposit in
        (covered, outputs-IsCovered outputs next rest)

    -- The sums at the end are those at the start and what the outputs have, and are in bounds.
    pub outputs-sums :
        (outputs : List TxEssenceOutput) (s : Captured) {s' : Captured}
        → syntactically_validate_outputs math structure parameters committed outputs s ≡ ok s'
        → s.amounts ≤ parameters.token_supply
        → s.mana ≤ max_mana_value parameters.bits_count
        → (s.amounts + sum_of amount_of outputs ≤ parameters.token_supply)
          × (s.mana + sum_of stored_mana outputs ≤ max_mana_value parameters.bits_count)
    unfolding syntactically_validate_outputs slice_validator sum_of stored_mana_sum
    outputs-sums [] s h a m = (omega arith, omega arith)
    outputs-sums (output ∷ outputs) s h a m =
        let (next, e, rest) =
          >>=-eq-ok (validate_output math structure parameters committed output s) _ h in
        let (_, deposit, mana, _) =
          validate_output-eq-ok math structure parameters committed output s e in
        let (sum, bound, _) =
          deposit_amount-eq-ok math structure parameters.token_supply s.amounts output deposit in
        let (total, limit) =
          limited-eq-ok math s.mana (stored_mana output) (max_mana_value parameters.bits_count)
            max_mana_exceeded mana in
        let (amounts, manas) = outputs-sums outputs next rest bound limit in
        (omega (arith, amounts, sum), omega (arith, manas, total))
