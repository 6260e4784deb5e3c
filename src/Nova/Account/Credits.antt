-- ===== src/Nova/Account/Credits.antt =====
-- vm/nova/vm.go: an account whose block issuance credits are negative is locked.
use axon_go.Common.{
  ℕ, ◌≡◌, refl, sym, ap, ◌∙◌, arith, false, not, Option, none, some, Option-cases, inl, inr,
}
use axon_go.Common.Int.{ℤ, pos, ltb_ℤ}
use axon_go.Common.Result.{ok, reject_if, >>=-eq-ok}
use axon_go.SafeMath.{SafeMath}
use axon_go.Mana.Decay.{ManaDecayProvider}
use axon_go.Address.{Crypto}
use axon_go.Outputs.{ChainId, account_id, anchor_id, nft_id, delegation_id, foundry_id}
use axon_go.Outputs.Features.{features_equal}
use axon_go.Nova.{
  Params, chain_output_immutable_features_changed, tx_capabilities_account_destruction_not_allowed,
}
use axon_go.Nova.BlockIssuer.{BlockIssuerFeature, account_block_issuance_credit_locked}
use axon_go.Nova.Account.{
  Account, AccountInput, WorkingSet, credits_valid, block_issuer_expired,
  account_state_change_valid, account_destruction_valid, account_stvf, account_transition,
}

-- The credits of the account are known and not negative.
pub record HasCredits (ws : WorkingSet) (account : ℕ) : Type 0 where
  pub credits : ℤ
  pub known : ws.bic account ≡ some credits
  pub enough : ltb_ℤ credits (pos 0) ≡ false

locked-HasCredits :
    (ws : WorkingSet) (account : ℕ) {r : Unit {0}}
    → account_block_issuance_credit_locked (some account) ws.bic ≡ ok r
    → HasCredits ws account
unfolding account_block_issuance_credit_locked
locked-HasCredits ws account e = elim (Option-cases (ws.bic account)) [
  | inl unknown ↦ absurd (ground (arith, unknown))
  | inr (credits, known) ↦ record {
    credits = credits;
    known = known;
    enough = ground (arith, known);
  }
]

credits_valid-HasCredits :
    (ws : WorkingSet) (chain : ChainId) (feature : BlockIssuerFeature) {r : Unit {0}}
    → credits_valid ws chain (some feature) ≡ ok r
    → (account : ℕ) × (chain ≡ account_id account) × HasCredits ws account
unfolding credits_valid account_block_issuance_credit_locked
credits_valid-HasCredits ws (account_id a) feature e = (a, refl, locked-HasCredits ws a e)
credits_valid-HasCredits ws (anchor_id a) feature e = absurd (cc)
credits_valid-HasCredits ws (nft_id a) feature e = absurd (cc)
credits_valid-HasCredits ws (delegation_id a) feature e = absurd (cc)
credits_valid-HasCredits ws (foundry_id a s t) feature e = absurd (cc)

module _ (math : SafeMath) (p : ManaDecayProvider) (storage_cost : ℕ) (crypto : Crypto)
    (params : Params) (ws : WorkingSet) where
  -- A locked account does not move: where the change or the destruction of an account with a block
  -- issuer feature is accepted, the chain of the input is an account whose block issuance credits are
  -- known and not negative.
  pub account_stvf-HasCredits :
      (input : AccountInput) (next : Option Account) (feature : BlockIssuerFeature)
      → input.account.block_issuer ≡ some feature
      → account_stvf math p storage_cost crypto params ws (account_transition input next) ≡ ok tt
      → (account : ℕ) × (input.chain_id ≡ account_id account) × HasCredits ws account
  unfolding account_stvf account_transition account_state_change_valid account_destruction_valid
  account_stvf-HasCredits input (some next) feature has e =
      let (removing, changed, _) =
        >>=-eq-ok (account_state_change_valid math p storage_cost crypto params ws input next) _
          e in
      let (_, _, e1) =
        >>=-eq-ok
          (reject_if
            (not (
              features_equal crypto input.account.output.immutable_features
                next.output.immutable_features))
            chain_output_immutable_features_changed)
          _ changed in
      let (_, credits, _) =
        >>=-eq-ok (credits_valid ws input.chain_id input.account.block_issuer) _ e1 in
      credits_valid-HasCredits ws input.chain_id feature
        (ap (credits_valid ws input.chain_id) (sym has) ∙ credits)
  account_stvf-HasCredits input none feature has e =
      let (removing, destroyed, _) =
        >>=-eq-ok (account_destruction_valid math p storage_cost crypto params ws input) _ e in
      let (_, _, e1) =
        >>=-eq-ok
          (reject_if (not ws.can_destroy_account_outputs)
            tx_capabilities_account_destruction_not_allowed)
          _ destroyed in
      let (_, _, e2) =
        >>=-eq-ok (block_issuer_expired ws.mana.commitment input.account.block_issuer) _ e1 in
      let (_, credits, _) =
        >>=-eq-ok (credits_valid ws input.chain_id input.account.block_issuer) _ e2 in
      credits_valid-HasCredits ws input.chain_id feature
        (ap (credits_valid ws input.chain_id) (sym has) ∙ credits)
