-- ===== src/Vm/NativeTokens.antt =====
-- vm/vm.go, output.go, feat_native_token.go: the balance of native tokens of foundries that do not take
-- part in a transaction. Amounts are big integers that are not negative.
pub mod Balance
use axon_go.Common.{
  ℕ, zero, suc, ◌+◌, ◌-◌, ◌^◌, ◌==◌, Bool, true, false, not, ◌&&◌, Option, none, some, List, [],
  ◌∷◌, if◌then◌else◌, ltb,
}
use axon_go.Common.Result.{Result, ok, err, ◌>>=◌, ◌>>◌, reject_if}
use axon_go.Outputs.{Output, ChainId, ChainOutputSet, find_chain, same_chain, feature_set}
use axon_go.Vm.{
  Error, wrap, native_token_set_invalid, native_token_amount_less_than_equal_zero,
  native_token_sum_exceeds_uint256, native_token_sum_unbalanced,
  tx_capabilities_native_token_burning_not_allowed,
}

-- `NativeTokenSum`: a map of amounts, with each identifier once.
abbrev pub NativeTokenSum : Type 0
NativeTokenSum = List (ChainId × ℕ)

unfoldable pub find_amount : NativeTokenSum → ChainId → Option ℕ
find_amount [] id = none
find_amount ((known, n) ∷ sum) id = if same_chain known id then some n else find_amount sum id

unfoldable pub set_amount : NativeTokenSum → ChainId → ℕ → NativeTokenSum
set_amount [] id amount = (id, amount) ∷ []
set_amount ((known, n) ∷ sum) id amount =
    if same_chain known id then (known, amount) ∷ sum else (known, n) ∷ set_amount sum id amount

abbrev pub amount_or_zero : Option ℕ → ℕ
amount_or_zero none = 0
amount_or_zero (some n) = n

unfoldable pub max_uint256 : ℕ
max_uint256 = 2 ^ 256 - 1

unfoldable pub add_native_token :
    Option (ChainId × ℕ) → NativeTokenSum → Result Error NativeTokenSum
add_native_token none sum = ok sum
add_native_token (some (id, amount)) sum =
    reject_if (amount == 0) native_token_amount_less_than_equal_zero
    >> (reject_if (ltb max_uint256 (amount_or_zero (find_amount sum id) + amount))
          native_token_sum_exceeds_uint256
        >> ok (set_amount sum id (amount_or_zero (find_amount sum id) + amount)))

unfoldable pub native_token_sum : List Output → NativeTokenSum → Result Error NativeTokenSum
native_token_sum [] sum = ok sum
native_token_sum (output ∷ outputs) sum = do
  sum' ← add_native_token (feature_set output).native_token sum
  native_token_sum outputs sum'

abbrev pub is_there {ℓ} : {A : Type ℓ} → Option A → Bool
is_there none = false
is_there (some a) = true

-- The check of a token on the input side whose foundry is not there.
unfoldable pub input_token_balanced : Bool → ℕ → Option ℕ → Result Error (Unit {0})
input_token_balanced cannot_burn in_sum none =
    reject_if cannot_burn tx_capabilities_native_token_burning_not_allowed
input_token_balanced cannot_burn in_sum (some out_sum) =
    reject_if (cannot_burn && not (in_sum == out_sum))
      tx_capabilities_native_token_burning_not_allowed
    >> reject_if (ltb in_sum out_sum) native_token_sum_unbalanced

unfoldable pub input_tokens_balanced :
    Bool → ChainOutputSet → NativeTokenSum → NativeTokenSum → Result Error (Unit {0})
input_tokens_balanced cannot_burn out_chains out_sums [] = ok tt
input_tokens_balanced cannot_burn out_chains out_sums ((id, in_sum) ∷ in_sums) =
    (if is_there (find_chain out_chains id)
      then ok tt
      else input_token_balanced cannot_burn in_sum (find_amount out_sums id))
    >> input_tokens_balanced cannot_burn out_chains out_sums in_sums

unfoldable pub output_tokens_balanced :
    ChainOutputSet → NativeTokenSum → NativeTokenSum → Result Error (Unit {0})
output_tokens_balanced out_chains in_sums [] = ok tt
output_tokens_balanced out_chains in_sums ((id, out_sum) ∷ out_sums) =
    (if is_there (find_chain out_chains id)
      then ok tt
      else reject_if (not (is_there (find_amount in_sums id))) native_token_sum_unbalanced)
    >> output_tokens_balanced out_chains in_sums out_sums

unfoldable pub exec_func_balanced_native_tokens :
    Bool → ChainOutputSet → List Output → List Output → Result Error (Unit {0})
exec_func_balanced_native_tokens cannot_burn out_chains inputs outputs = do
  in_sums ← wrap native_token_set_invalid (native_token_sum inputs [])
  out_sums ← wrap native_token_set_invalid (native_token_sum outputs [])
  input_tokens_balanced cannot_burn out_chains out_sums in_sums
  output_tokens_balanced out_chains in_sums out_sums
