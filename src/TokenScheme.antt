-- ===== src/TokenScheme.antt =====
-- token_scheme_simple.go: the counters of the tokens of a foundry. A `big.Int` is an integer.
pub mod Supply
use axon_go.Common.{Bool, true, false, ◌||◌, not, if◌then◌else◌}
use axon_go.Common.Int.{ℤ, pos, ◌+ℤ◌, ◌-ℤ◌, ltb_ℤ, eqb_ℤ}
use axon_go.Common.Result.{Result, ok, err, ◌>>=◌, ◌>>◌, reject_if}

pub data Error : Type 0 where
  transition minted_melted_token_decrease minting_invalid melting_invalid : Error
  maximum_supply_changed invalid_maximum_supply invalid_minted_melted_tokens : Error
  genesis_invalid native_token_sum_unbalanced : Error

pub record SimpleTokenScheme : Type 0 where
  pub minted_tokens : ℤ
  pub melted_tokens : ℤ
  pub maximum_supply : ℤ

-- A value of the interface: the simple scheme, or one of another type.
pub data TokenScheme : Type 0 where
  simple : SimpleTokenScheme → TokenScheme
  other : TokenScheme

pub data ChainTransitionType : Type 0 where
  genesis state_change destroy : ChainTransitionType

unfoldable pub equal : SimpleTokenScheme → TokenScheme → Bool
equal s other = false
equal s (simple o) =
    if not (eqb_ℤ s.minted_tokens o.minted_tokens)
    then false
    else if not (eqb_ℤ s.melted_tokens o.melted_tokens)
    then false
    else if not (eqb_ℤ s.maximum_supply o.maximum_supply)
    then false
    else true

unfoldable pub syntactical_validation : SimpleTokenScheme → Result Error (Unit {0})
syntactical_validation s = do
  reject_if (not (ltb_ℤ (pos 0) s.maximum_supply)) invalid_maximum_supply
  let minted_melted_delta = s.minted_tokens -ℤ s.melted_tokens
  reject_if (ltb_ℤ minted_melted_delta (pos 0)) invalid_minted_melted_tokens
  reject_if (ltb_ℤ s.maximum_supply minted_melted_delta) invalid_minted_melted_tokens

unfoldable pub genesis_valid : SimpleTokenScheme → ℤ → Result Error (Unit {0})
genesis_valid s out_sum = do
  reject_if (not (eqb_ℤ s.melted_tokens (pos 0))) genesis_invalid
  reject_if (not (eqb_ℤ out_sum s.minted_tokens)) genesis_invalid

unfoldable pub destruction_valid : SimpleTokenScheme → ℤ → ℤ → Result Error (Unit {0})
destruction_valid s out_ in_ = do
  let token_diff = out_ -ℤ in_
  reject_if (not (eqb_ℤ (s.minted_tokens +ℤ token_diff) s.melted_tokens))
      native_token_sum_unbalanced

-- The last `switch` of `stateChangeValid`, by the sign of the token difference.
unfoldable pub balance_valid : SimpleTokenScheme → SimpleTokenScheme → ℤ → Result Error (Unit {0})
balance_valid s next token_diff =
    let minted_supply_delta = next.minted_tokens -ℤ s.minted_tokens in
    let melted_supply_delta = next.melted_tokens -ℤ s.melted_tokens in
    if ltb_ℤ (pos 0) token_diff
    then (do
      reject_if (not (eqb_ℤ minted_supply_delta token_diff)) minting_invalid
      reject_if (not (eqb_ℤ next.melted_tokens s.melted_tokens)) minting_invalid)
    else if ltb_ℤ token_diff (pos 0)
    then (do
      reject_if (not (eqb_ℤ melted_supply_delta (pos 0 -ℤ token_diff))) melting_invalid
      reject_if (not (eqb_ℤ next.minted_tokens s.minted_tokens)) melting_invalid)
    else reject_if
        (not (eqb_ℤ s.minted_tokens next.minted_tokens)
          || not (eqb_ℤ s.melted_tokens next.melted_tokens))
        invalid_minted_melted_tokens

unfoldable pub state_change_valid :
    SimpleTokenScheme → TokenScheme → ℤ → ℤ → Result Error (Unit {0})
state_change_valid s other in_ out_ = err transition
state_change_valid s (simple next) in_ out_ = do
  reject_if (not (eqb_ℤ s.maximum_supply next.maximum_supply)) maximum_supply_changed
  reject_if (ltb_ℤ next.minted_tokens s.minted_tokens) minted_melted_token_decrease
  reject_if (ltb_ℤ next.melted_tokens s.melted_tokens) minted_melted_token_decrease
  balance_valid s next (out_ -ℤ in_)

unfoldable pub state_transition :
    SimpleTokenScheme → ChainTransitionType → TokenScheme → ℤ → ℤ → Result Error (Unit {0})
state_transition s genesis next in_ out_ = genesis_valid s out_
state_transition s state_change next in_ out_ = state_change_valid s next in_ out_
state_transition s destroy next in_ out_ = destruction_valid s out_ in_
