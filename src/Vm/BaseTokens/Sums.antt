-- ===== src/Vm/BaseTokens/Sums.antt =====
-- vm/vm.go: the sums of base tokens, by what they add up.
use axon_go.Common.{
  ℕ, ◌+◌, ◌<◌, ◌≤◌, ◌^◌, ◌≡◌, refl, sym, ap, ◌∙◌, arith, true, false, Option, none, some, List, [],
  ◌∷◌, if◌then◌else◌, u16, u64, Bool-cases, Option-cases, inl, inr,
}
use axon_go.Common.Result.{ok, err, panic, >>=-eq-ok}
use axon_go.Address.{Address, key, Crypto}
use axon_go.Merkle.{bytes_equal}
use axon_go.Merkle.Completeness.{bytes_equal_sound, bytes_equal_refl}
use axon_go.Outputs.{
  Output, basic, account, anchor, foundry, nft, delegation, base_token_amount, unlock_condition_set,
}
use axon_go.Vm.{UnlockedAddressesSet, unlocked_by}
use axon_go.Vm.BaseTokens.{
  Sums, add_sum, find_sum, is_simple_transfer, add_return, sum_inputs, add_transfer, sum_outputs,
}

abbrev pub or_zero : Option ℕ → ℕ
or_zero none = 0
or_zero (some n) = n

-- The amount under a key.
abbrev pub sum_of : Sums → List ℕ → ℕ
sum_of sums k = or_zero (find_sum sums k)

pub bytes_equal_sym : (a b : List ℕ) → bytes_equal a b ≡ bytes_equal b a
unfolding bytes_equal
bytes_equal_sym [] [] = refl
bytes_equal_sym [] (y ∷ b) = refl
bytes_equal_sym (x ∷ a) [] = refl
bytes_equal_sym (x ∷ a) (y ∷ b) = ground (arith, bytes_equal_sym a b)

pub sum_of-add_sum :
    (sums : Sums) (k j : List ℕ) (amount : ℕ)
    → sum_of sums k + amount < 2 ^ 64
    → sum_of (add_sum sums k amount) j
      ≡ (if bytes_equal k j then sum_of sums j + amount else sum_of sums j)
unfolding add_sum find_sum
sum_of-add_sum [] k j amount h = ground arith
sum_of-add_sum ((i, n) ∷ sums) k j amount h = elim (Bool-cases (bytes_equal i k)) [
  | inl same ↦
      let moved : bytes_equal i j ≡ bytes_equal k j =
        ap (λ (x : List ℕ). bytes_equal x j) (bytes_equal_sound i k same) in
      ground (arith, same, moved)
  | inr other ↦
      let apart : bytes_equal i j ≡ true → bytes_equal k j ≡ false = λ here.
        ap (bytes_equal k) (sym (bytes_equal_sound i j here)) ∙ (bytes_equal_sym k i ∙ other) in
      ground (arith, other, apart, sum_of-add_sum sums k j amount)
]

-- What an input owes to the address of a key, by the index of the input.
unfoldable pub owed : Crypto → UnlockedAddressesSet → ℕ → Option (Address × ℕ) → List ℕ → ℕ
owed crypto s input_index none k = 0
owed crypto s input_index (some (return_address, amount)) k =
    if bytes_equal (key crypto return_address) k
    then elim (unlocked_by s input_index (key crypto return_address)) [
      | ok by_return_address ↦ if by_return_address then 0 else amount
      | err e ↦ 0
      | panic ↦ 0
    ]
    else 0

unfoldable pub due : Crypto → UnlockedAddressesSet → List Output → ℕ → List ℕ → ℕ
unfolding owed
due crypto s [] index k = 0
due crypto s (input ∷ inputs) index k =
    owed crypto s (u16 index) (unlock_condition_set input).storage_deposit_return k
    + due crypto s inputs (index + 1) k

unfoldable pub total : List Output → ℕ
total [] = 0
total (output ∷ outputs) = base_token_amount output + total outputs

-- What the outputs transfer to the address of a key without a condition of another kind.
abbrev pub transferred : Crypto → Output → List ℕ → ℕ
transferred crypto (basic o) k =
    if is_simple_transfer o
    then elim o.unlock_conditions.address [
      | none ↦ 0
      | some owner ↦ if bytes_equal (key crypto owner) k then o.amount else 0
    ]
    else 0
transferred crypto output k = 0

unfoldable pub paid : Crypto → List Output → List ℕ → ℕ
paid crypto [] k = 0
paid crypto (output ∷ outputs) k = transferred crypto output k + paid crypto outputs k

sum_of-add_return :
    (crypto : Crypto) (s : UnlockedAddressesSet) (i : ℕ) (condition : Option (Address × ℕ))
    (returns returns' : Sums) (k : List ℕ)
    → ((j : List ℕ) → sum_of returns j + owed crypto s i condition j < 2 ^ 64)
    → add_return crypto s i condition returns ≡ ok returns'
    → sum_of returns' k ≡ sum_of returns k + owed crypto s i condition k
unfolding add_return owed
sum_of-add_return crypto s i none returns returns' k h e = ground arith
sum_of-add_return crypto s i (some (a, amount)) returns returns' k h e =
    let (by_return, checked, e1) = >>=-eq-ok (unlocked_by s i (key crypto a)) _ e in
    ground (
      arith,
      checked,
      sum_of-add_sum returns (key crypto a) k amount,
      h (key crypto a),
      bytes_equal_refl (key crypto a),
    )

sum_of-add_transfer :
    (crypto : Crypto) (output : Output) (transfers transfers' : Sums) (k : List ℕ)
    → ((j : List ℕ) → sum_of transfers j + base_token_amount output < 2 ^ 64)
    → add_transfer crypto output transfers ≡ ok transfers'
    → sum_of transfers' k ≡ sum_of transfers k + transferred crypto output k
unfolding add_transfer base_token_amount
sum_of-add_transfer crypto (basic o) transfers transfers' k h e =
    elim (Bool-cases (is_simple_transfer o)) [
      | inl simple ↦ elim (Option-cases o.unlock_conditions.address) [
        | inl nobody ↦ absurd (ground (arith, simple, nobody))
        | inr (owner, found) ↦ ground (
          arith,
          simple,
          found,
          sum_of-add_sum transfers (key crypto owner) k o.amount,
          h (key crypto owner),
        )
      ]
      | inr other ↦ ground (arith, other)
    ]
sum_of-add_transfer crypto (account o) transfers transfers' k h e = ground arith
sum_of-add_transfer crypto (anchor o) transfers transfers' k h e = ground arith
sum_of-add_transfer crypto (foundry o) transfers transfers' k h e = ground arith
sum_of-add_transfer crypto (nft o) transfers transfers' k h e = ground arith
sum_of-add_transfer crypto (delegation o) transfers transfers' k h e = ground arith

transferred-le :
    (crypto : Crypto) (output : Output) (k : List ℕ)
    → transferred crypto output k ≤ base_token_amount output
unfolding base_token_amount
transferred-le crypto (basic o) k = ground arith
transferred-le crypto (account o) k = omega arith
transferred-le crypto (anchor o) k = omega arith
transferred-le crypto (foundry o) k = omega arith
transferred-le crypto (nft o) k = omega arith
transferred-le crypto (delegation o) k = omega arith

-- Each key's sum after the loop over the inputs is what the inputs owe to it, where nothing overflows.
pub sum_inputs-due :
    (crypto : Crypto) (s : UnlockedAddressesSet) (inputs : List Output) (index sum : ℕ)
    (returns : Sums) (r : ℕ × Sums)
    → sum + total inputs < 2 ^ 64
    → ((j : List ℕ) → sum_of returns j + due crypto s inputs index j < 2 ^ 64)
    → sum_inputs crypto s inputs index sum returns ≡ ok r
    → (r.0 ≡ sum + total inputs)
      × ((k : List ℕ) → sum_of r.1 k ≡ sum_of returns k + due crypto s inputs index k)
unfolding sum_inputs total due
sum_inputs-due crypto s [] index sum returns r fits bound e = (ground arith, λ k. ground arith)
sum_inputs-due crypto s (input ∷ inputs) index sum returns r fits bound e =
    let condition = (unlock_condition_set input).storage_deposit_return in
    let (returns', added, e1) = >>=-eq-ok (add_return crypto s (u16 index) condition returns) _ e in
    let step : (k : List ℕ)
        → sum_of returns' k ≡ sum_of returns k + owed crypto s (u16 index) condition k =
      λ k.
        sum_of-add_return crypto s (u16 index) condition returns returns' k
          (λ j. omega (arith, bound j)) added in
    let kept : u64 (sum + base_token_amount input) ≡ sum + base_token_amount input = omega arith in
    let (summed, rest) =
      sum_inputs-due crypto s inputs (index + 1) (u64 (sum + base_token_amount input)) returns' r
        (omega arith) (λ j. omega (arith, bound j, step j)) e1 in
    (omega arith, λ k. omega (arith, rest k, step k))

pub sum_outputs-paid :
    (crypto : Crypto) (outputs : List Output) (sum : ℕ) (transfers : Sums) (r : ℕ × Sums)
    → sum + total outputs < 2 ^ 64
    → ((j : List ℕ) → sum_of transfers j ≤ sum)
    → sum_outputs crypto outputs sum transfers ≡ ok r
    → (r.0 ≡ sum + total outputs)
      × ((k : List ℕ) → sum_of r.1 k ≡ sum_of transfers k + paid crypto outputs k)
unfolding sum_outputs total paid
sum_outputs-paid crypto [] sum transfers r fits bound e = (ground arith, λ k. ground arith)
sum_outputs-paid crypto (output ∷ outputs) sum transfers r fits bound e =
    let (transfers', added, e1) = >>=-eq-ok (add_transfer crypto output transfers) _ e in
    let step : (k : List ℕ)
        → sum_of transfers' k ≡ sum_of transfers k + transferred crypto output k =
      λ k.
        sum_of-add_transfer crypto output transfers transfers' k (λ j. omega (arith, bound j))
          added in
    let kept : u64 (sum + base_token_amount output) ≡ sum + base_token_amount output =
      omega arith in
    let (summed, rest) =
      sum_outputs-paid crypto outputs (u64 (sum + base_token_amount output)) transfers' r
        (omega arith) (λ j. omega (arith, bound j, step j, transferred-le crypto output j)) e1 in
    (omega arith, λ k. omega (arith, rest k, step k))
