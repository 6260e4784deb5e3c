-- ===== src/Syntax/Total/Returns.antt =====
-- transaction.go, output.go: the syntactic validation of a transaction returns.
use axon_go.Common.{ℕ, ◌≡◌, ◌≢◌, arith, List, Bool, Option-cases, inl, inr}
use axon_go.Common.Result.{ok, panic, >>=-eq-ok}
use axon_go.SafeMath.{SafeMath}
use axon_go.Syntax.{Error, max_mana_exceeded}
use axon_go.Syntax.Parts.{
  Feature, UnlockCondition, unlock_condition_type, feature_type, condition_address,
}
use axon_go.Syntax.Outputs.{
  TxEssenceOutput, unlock_conditions_of, features_of, immutable_features_of, stored_mana,
  unlock_condition_set, feature_set, condition,
}
use axon_go.Syntax.StorageScore.{StorageScoreStructure}
use axon_go.Syntax.Checks.{
  ascending, unlock_condition_lexical_order_and_uniqueness, features_lexical_order_and_uniqueness,
  stored_mana_sum,
}
use axon_go.Syntax.Checks.Addresses.{restrictions_of, address_restrictions}
use axon_go.Syntax.Transaction.{
  Transaction, ProtocolParameters, has_commitment_input, max_mana_value, Captured, nothing_captured,
  syntactically_validate_essence, validate_output, syntactically_validate_outputs,
  syntactically_validate,
}
use axon_go.Syntax.Sets.{ascending-must_set}
use axon_go.Syntax.Accepted.Deposits.{Each}
use axon_go.Syntax.Total.{
  HasRequired, metadata-returns, native_tokens-returns, commitment_input-returns,
  restrictions-returns, expiration_and_timelock-returns, deposit_amount-returns, required-Reads,
  uniqueness-returns, implicit-returns, foundry_check-returns, account_check-returns,
  chain_checks-return,
}
use axon_go.Syntax.Total.Slices.{
  bind-returns, slice-returns, ascending-returns, limited-returns, essence-returns,
}

restrictions_of-returns :
    (output : TxEssenceOutput) (features : List Feature) (set : List UnlockCondition) (type : ℕ)
    → feature_set {E = Error} output ≡ ok features
    → restrictions_of output set type ≢ panic
restrictions_of-returns output features set type fs h =
    elim (Option-cases (condition_address (condition set type))) [
      | inl e ↦ ground (arith, h, e)
      | inr (a, e) ↦ restrictions-returns output features fs set a (ground (arith, h, e))
    ]

address_restrictions-returns :
    (output : TxEssenceOutput) (features : List Feature) (set : List UnlockCondition)
    → feature_set {E = Error} output ≡ ok features
    → unlock_condition_set {E = Error} output ≡ ok set
    → address_restrictions output ≢ panic
unfolding address_restrictions
address_restrictions-returns output features set fs us h = ground (
  arith,
  h,
  us,
  restrictions_of-returns output features set 0 fs,
  restrictions_of-returns output features set 3 fs,
  restrictions_of-returns output features set 4 fs,
  restrictions_of-returns output features set 5 fs,
)

-- The sets of an output whose types ascend.
sets-made :
    (output : TxEssenceOutput)
    → unlock_condition_lexical_order_and_uniqueness output ≡ ok tt
    → features_lexical_order_and_uniqueness output ≡ ok tt
    → ((set : List UnlockCondition) × (unlock_condition_set {E = Error} output ≡ ok set))
      × ((set : List Feature) × (feature_set {E = Error} output ≡ ok set))
unfolding unlock_condition_lexical_order_and_uniqueness features_lexical_order_and_uniqueness
    unlock_condition_set feature_set
sets-made output u f =
    let (_, first, _) = >>=-eq-ok (ascending feature_type (features_of output)) _ f in
    (
      ascending-must_set unlock_condition_type (unlock_conditions_of output) u,
      ascending-must_set feature_type (features_of output) first,
    )

features-return : (output : TxEssenceOutput) → features_lexical_order_and_uniqueness output ≢ panic
unfolding features_lexical_order_and_uniqueness
features-return output =
    bind-returns (ascending feature_type (features_of output)) _
      (ascending-returns feature_type (features_of output))
      (λ _ _. ascending-returns feature_type (immutable_features_of output))

module _ (math : SafeMath) (structure : StorageScoreStructure)
    (parameters : ProtocolParameters) where
  -- The validators after the ones that the sets rest on.
  validators-return :
      (committed : Bool) (output : TxEssenceOutput) (s : Captured)
      (conditions : List UnlockCondition) (features : List Feature)
      → HasRequired output
      → unlock_condition_lexical_order_and_uniqueness output ≡ ok tt
      → features_lexical_order_and_uniqueness output ≡ ok tt
      → unlock_condition_set {E = Error} output ≡ ok conditions
      → feature_set {E = Error} output ≡ ok features
      → validate_output math structure parameters committed output s ≢ panic
  unfolding validate_output stored_mana_sum
  validators-return committed output s conditions features required u f us fs =
      let reads = required-Reads output conditions required us in
      let (anchors, nfts, delegations) = chain_checks-return output reads in
      let limit : ℕ = max_mana_value parameters.bits_count in
      rw u (
        rw f (
          bind-returns _ _ (metadata-returns output features fs) (λ _ _.
            bind-returns _ _
              (deposit_amount-returns output conditions us math structure parameters.token_supply
                s.amounts)
              (λ amounts _.
                bind-returns _ _ (expiration_and_timelock-returns output conditions us) (λ _ _.
                  bind-returns _ _ (native_tokens-returns output features fs) (λ _ _.
                    bind-returns _ _
                      (limited-returns (math.safe_add 64 s.mana (stored_mana output)) limit
                        max_mana_exceeded)
                      (λ mana _.
                        bind-returns _ _ (uniqueness-returns output s.chains reads) (λ chains _.
                          bind-returns _ _ (foundry_check-returns output features reads fs) (λ _ _.
                            bind-returns _ _ (account_check-returns output features reads fs)
                              (λ _ _. bind-returns _ _ anchors (λ _ _. bind-returns _ _ nfts (λ _ _.
                                bind-returns _ _ delegations (λ _ _.
                                  bind-returns _ _
                                    (address_restrictions-returns output features conditions fs us)
                                    (λ _ _. bind-returns _ _ (implicit-returns output reads) (λ _ _.
                                      bind-returns _ _
                                        (commitment_input-returns output features fs committed)
                                        (λ _ _ h. cc h))))))))))))))))

  validate_output-returns :
      (committed : Bool) (output : TxEssenceOutput) (s : Captured)
      → HasRequired output
      → validate_output math structure parameters committed output s ≢ panic
  unfolding validate_output unlock_condition_lexical_order_and_uniqueness
  validate_output-returns committed output s required h =
      bind-returns (unlock_condition_lexical_order_and_uniqueness output) _
        (ascending-returns unlock_condition_type (unlock_conditions_of output))
        (λ _ u.
          bind-returns (features_lexical_order_and_uniqueness output) _ (features-return output)
            (λ _ f _.
              let sets = sets-made output u f in
              validators-return committed output s sets.0.0 sets.1.0 required u f sets.0.1 sets.1.1
                h))
        h

  -- The syntactic validation of a transaction accepts it or rejects it with an error; it never panics,
  -- whatever the transaction is, if each account, NFT and delegation output has a condition with an
  -- address, each anchor output those of a state controller and of a governor, and each foundry output
  -- the one of an account. No read of an address or of a set fails then, since the order of the types
  -- was validated before.
  pub syntactically_validate-returns :
      (t : Transaction)
      → Each HasRequired t.outputs
      → syntactically_validate math structure parameters t ≢ panic
  unfolding syntactically_validate syntactically_validate_outputs
  syntactically_validate-returns t required =
      bind-returns (syntactically_validate_essence math parameters t) _
        (essence-returns math parameters t)
        (λ _ _.
          slice-returns HasRequired
            (validate_output math structure parameters (has_commitment_input t.context_inputs))
            t.outputs nothing_captured
            (λ output s. validate_output-returns (has_commitment_input t.context_inputs) output s)
            required)
