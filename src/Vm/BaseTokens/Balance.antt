-- ===== src/Vm/BaseTokens/Balance.antt =====
-- vm/vm.go: what the balance of base tokens comes to.
use axon_go.Common.{
  ℕ, ◌+◌, ◌<◌, ◌≤◌, ◌^◌, ◌≡◌, ◌==◌, refl, arith, not, Option, none, some, List, [], ◌∷◌, u16,
  Bool-cases, inl, inr,
}
use axon_go.Common.Result.{ok, reject_if, >>=-eq-ok}
use axon_go.Address.{Address, Crypto}
use axon_go.Merkle.{bytes_equal}
use axon_go.Merkle.Completeness.{bytes_equal_sound, bytes_equal_refl}
use axon_go.Outputs.{Output, base_token_amount, unlock_condition_set}
use axon_go.Vm.{UnlockedAddressesSet, input_output_base_token_mismatch}
use axon_go.Vm.BaseTokens.{
  Sums, find_sum, return_fulfilled, returns_fulfilled, sum_inputs, sum_outputs,
  exec_func_balanced_base_tokens,
}
use axon_go.Vm.BaseTokens.Sums.{sum_of, due, total, paid, owed, sum_inputs-due, sum_outputs-paid}

-- No input owes more than it holds.
abbrev pub ReturnsWithin : List Output → Type 0
ReturnsWithin [] = Unit {0}
ReturnsWithin (input ∷ inputs) =
    ((a : Address) (amount : ℕ)
      → (unlock_condition_set input).storage_deposit_return ≡ some (a, amount)
      → amount ≤ base_token_amount input)
    × ReturnsWithin inputs

owed-le :
    (crypto : Crypto) (s : UnlockedAddressesSet) (i bound : ℕ) (condition : Option (Address × ℕ))
    (k : List ℕ)
    → ((a : Address) (amount : ℕ) → condition ≡ some (a, amount) → amount ≤ bound)
    → owed crypto s i condition k ≤ bound
unfolding owed
owed-le crypto s i bound none k h = omega arith
owed-le crypto s i bound (some (a, amount)) k h = ground (arith, h a amount refl)

due-le-total :
    (crypto : Crypto) (s : UnlockedAddressesSet) (inputs : List Output) (index : ℕ) (k : List ℕ)
    → ReturnsWithin inputs
    → due crypto s inputs index k ≤ total inputs
unfolding due total
due-le-total crypto s [] index k h = omega arith
due-le-total crypto s (input ∷ inputs) index k (first, rest) = omega (
  arith,
  owed-le crypto s (u16 index) (base_token_amount input)
      (unlock_condition_set input).storage_deposit_return k first,
  due-le-total crypto s inputs (index + 1) k rest,
)

returns_fulfilled-le :
    (returns transfers : Sums) (k : List ℕ) {r : Unit {0}}
    → returns_fulfilled returns transfers ≡ ok r
    → sum_of returns k ≤ sum_of transfers k
unfolding returns_fulfilled find_sum
returns_fulfilled-le [] transfers k e = omega arith
returns_fulfilled-le ((j, n) ∷ returns) transfers k e =
    let (_, first, rest) = >>=-eq-ok (return_fulfilled n (find_sum transfers j)) _ e in
    let here : n ≤ sum_of transfers j = unfold return_fulfilled in ground (arith, first) in
    elim (Bool-cases (bytes_equal j k)) [
      | inl same ↦ rw (← bytes_equal_sound j k same) (ground (arith, here, bytes_equal_refl j))
      | inr other ↦ ground (arith, other, returns_fulfilled-le returns transfers k rest)
    ]

-- Where no input owes more than it holds and neither the sum of the inputs nor that of the outputs
-- overflows, a balance that is accepted means: the outputs hold as many base tokens as the inputs, and
-- for each address, what the outputs transfer to it without another condition is at least the sum of
-- what the inputs that it did not unlock itself owe to it.
pub exec_func_balanced_base_tokens_lem :
    (crypto : Crypto) (s : UnlockedAddressesSet) (inputs outputs : List Output)
    → ReturnsWithin inputs
    → total inputs < 2 ^ 64
    → total outputs < 2 ^ 64
    → exec_func_balanced_base_tokens crypto s inputs outputs ≡ ok tt
    → (total inputs ≡ total outputs)
      × ((k : List ℕ) → due crypto s inputs 0 k ≤ paid crypto outputs k)
unfolding exec_func_balanced_base_tokens find_sum
exec_func_balanced_base_tokens_lem crypto s inputs outputs within ins_fit outs_fit e =
    let (ins, summed, e1) = >>=-eq-ok (sum_inputs crypto s inputs 0 0 []) _ e in
    let (outs, paid_out, e2) = >>=-eq-ok (sum_outputs crypto outputs 0 []) _ e1 in
    let (_, balanced, e3) =
      >>=-eq-ok (reject_if (not (ins.0 == outs.0)) input_output_base_token_mismatch) _ e2 in
    let (ins_total, ins_due) =
      sum_inputs-due crypto s inputs 0 0 [] ins (omega arith)
        (λ j. omega (arith, due-le-total crypto s inputs 0 j within)) summed in
    let (outs_total, outs_paid) =
      sum_outputs-paid crypto outputs 0 [] outs (omega arith) (λ j. omega arith) paid_out in
    let same : ins.0 ≡ outs.0 = ground (arith, balanced) in
    (
      omega arith,
      λ k. omega (arith, ins_due k, outs_paid k, returns_fulfilled-le ins.1 outs.1 k e3),
    )
