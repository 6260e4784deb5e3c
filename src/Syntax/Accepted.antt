-- ===== src/Syntax/Accepted.antt =====
-- transaction.go, output.go: what the outputs of a transaction satisfy that is syntactically valid.
pub mod Deposits
pub mod Chains
pub mod Outputs
pub mod Essence
use axon_go.Common.{ℕ, ◌+◌, ◌≡◌, refl, arith, Option, none, some, Bool, List, [], ◌∷◌}
use axon_go.Common.Result.{ok, >>=-eq-ok}
use axon_go.SafeMath.{SafeMath}
use axon_go.Syntax.Outputs.{TxEssenceOutput}
use axon_go.Syntax.StorageScore.{StorageScoreStructure}
use axon_go.Syntax.Checks.{
  unlock_condition_lexical_order_and_uniqueness, deposit_amount, stored_mana_sum,
  chain_constrained_output_uniqueness,
}
use axon_go.Syntax.Transaction.{ProtocolParameters, Captured, validate_output, max_mana_value}

module _ (math : SafeMath) (structure : StorageScoreStructure)
    (parameters : ProtocolParameters) where
  -- The calls of the validators with a state have returned.
  pub validate_output-eq-ok :
      (committed : Bool) (output : TxEssenceOutput) (s : Captured) {s' : Captured}
      → validate_output math structure parameters committed output s ≡ ok s'
      → (unlock_condition_lexical_order_and_uniqueness output ≡ ok tt)
        × (deposit_amount math structure parameters.token_supply output s.amounts ≡ ok s'.amounts)
        × (stored_mana_sum math (max_mana_value parameters.bits_count) output s.mana ≡ ok s'.mana)
        × (chain_constrained_output_uniqueness output s.chains ≡ ok s'.chains)
  unfolding validate_output
  validate_output-eq-ok committed output s h = ground (arith, h)
