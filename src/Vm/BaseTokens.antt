-- ===== src/Vm/BaseTokens.antt =====
-- vm/vm.go: the balance of base tokens, and the amounts that inputs with a storage deposit return
-- condition owe to their return addresses. Sums are uint64; a map of sums is a list with each key once.
pub mod Sums
pub mod Balance
use axon_go.Common.{
  ℕ, zero, suc, ◌+◌, ◌==◌, Bool, true, false, not, ◌&&◌, Option, none, some, List, [], ◌∷◌,
  if◌then◌else◌, ltb, u16, u64,
}
use axon_go.Common.Result.{Result, ok, err, panic, ◌>>=◌, ◌>>◌, reject_if}
use axon_go.Address.{Address, key, Crypto}
use axon_go.Merkle.{bytes_equal}
use axon_go.Outputs.{
  Output, basic, account, anchor, foundry, nft, delegation, BasicOutput, UnlockConditionSet,
  FeatureSet, base_token_amount, unlock_condition_set, must,
}
use axon_go.Vm.{
  Error, UnlockedAddressesSet, unlocked_by, input_output_base_token_mismatch,
  return_amount_not_fulfilled,
}

abbrev pub Sums : Type 0
Sums = List (List ℕ × ℕ)

-- `sums[key] += amount`
unfoldable pub add_sum : Sums → List ℕ → ℕ → Sums
add_sum [] k amount = (k, u64 amount) ∷ []
add_sum ((j, n) ∷ sums) k amount =
    if bytes_equal j k then (j, u64 (n + amount)) ∷ sums else (j, n) ∷ add_sum sums k amount

unfoldable pub find_sum : Sums → List ℕ → Option ℕ
find_sum [] k = none
find_sum ((j, n) ∷ sums) k = if bytes_equal j k then some n else find_sum sums k

abbrev pub present {ℓ} : {A : Type ℓ} → Option A → ℕ
present none = 0
present (some a) = 1

unfoldable pub condition_count : UnlockConditionSet → ℕ
condition_count f =
    present f.address
    + present f.storage_deposit_return
    + present f.timelock
    + present f.expiration
    + present f.state_controller_address
    + present f.governor_address
    + present f.immutable_account

unfoldable pub feature_count : FeatureSet → ℕ
feature_count f =
    present f.sender
    + present f.issuer
    + present f.metadata
    + present f.state_metadata
    + present f.tag
    + present f.native_token

unfoldable pub is_simple_transfer : BasicOutput → Bool
is_simple_transfer o = (feature_count o.features == 0) && (condition_count o.unlock_conditions == 1)

-- What an input owes to the return address, which owes itself nothing where it unlocked the input.
unfoldable pub add_return :
    Crypto → UnlockedAddressesSet → ℕ → Option (Address × ℕ) → Sums → Result Error Sums
add_return crypto s input_index none returns = ok returns
add_return crypto s input_index (some (return_address, amount)) returns = do
  by_return_address ← unlocked_by s input_index (key crypto return_address)
  ok (if by_return_address then returns else add_sum returns (key crypto return_address) amount)

-- The loop over the inputs, from an index on, with the sum and the owed amounts so far.
unfoldable pub sum_inputs :
    Crypto → UnlockedAddressesSet → List Output → ℕ → ℕ → Sums → Result Error (ℕ × Sums)
sum_inputs crypto s [] index sum returns = ok (sum, returns)
sum_inputs crypto s (input ∷ inputs) index sum returns = do
  returns' ←
      add_return crypto s (u16 index) (unlock_condition_set input).storage_deposit_return returns
  sum_inputs crypto s inputs (index + 1) (u64 (sum + base_token_amount input)) returns'

unfoldable pub add_transfer : Crypto → Output → Sums → Result Error Sums
add_transfer crypto (basic o) transfers = elim (is_simple_transfer o) [
  | false ↦ ok transfers
  | true ↦ do
    owner ← must o.unlock_conditions.address
    ok (add_sum transfers (key crypto owner) o.amount)
]
add_transfer crypto (account o) transfers = ok transfers
add_transfer crypto (anchor o) transfers = ok transfers
add_transfer crypto (foundry o) transfers = ok transfers
add_transfer crypto (nft o) transfers = ok transfers
add_transfer crypto (delegation o) transfers = ok transfers

unfoldable pub sum_outputs : Crypto → List Output → ℕ → Sums → Result Error (ℕ × Sums)
sum_outputs crypto [] sum transfers = ok (sum, transfers)
sum_outputs crypto (output ∷ outputs) sum transfers = do
  transfers' ← add_transfer crypto output transfers
  sum_outputs crypto outputs (u64 (sum + base_token_amount output)) transfers'

unfoldable pub return_fulfilled : ℕ → Option ℕ → Result Error (Unit {0})
return_fulfilled return_sum none = err return_amount_not_fulfilled
return_fulfilled return_sum (some out_sum) =
    reject_if (ltb out_sum return_sum) return_amount_not_fulfilled

unfoldable pub returns_fulfilled : Sums → Sums → Result Error (Unit {0})
returns_fulfilled [] transfers = ok tt
returns_fulfilled ((k, return_sum) ∷ returns) transfers =
    return_fulfilled return_sum (find_sum transfers k) >> returns_fulfilled returns transfers

unfoldable pub exec_func_balanced_base_tokens :
    Crypto → UnlockedAddressesSet → List Output → List Output → Result Error (Unit {0})
exec_func_balanced_base_tokens crypto s inputs outputs = do
  ins ← sum_inputs crypto s inputs 0 0 []
  outs ← sum_outputs crypto outputs 0 []
  reject_if (not (ins.0 == outs.0)) input_output_base_token_mismatch
  returns_fulfilled ins.1 outs.1
