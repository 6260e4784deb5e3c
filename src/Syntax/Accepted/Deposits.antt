-- ===== src/Syntax/Accepted/Deposits.antt =====
-- output.go, storagescore.go: what the validator of amounts guarantees of one output.
use mathlib.Core.List.{Memᴰ}
use mathlib.Core.List.Memᴰ.{head, tail}
use axon_go.Common.{
  ℕ, ◌+◌, ◌*◌, ◌==◌, ◌≤◌, ◌<◌, ◌≡◌, refl, arith, some, List, [], ◌∷◌, inl, inr, Option-cases,
}
use axon_go.Common.Result.{ok, reject_if, >>=-eq-ok}
use axon_go.SafeMath.{SafeMath}
use axon_go.Syntax.{Error, amount_must_be_greater_than_zero, outputs_sum_exceeds_total_supply}
use axon_go.Syntax.Parts.{UnlockCondition, storage_deposit_return, unlock_condition_type, must_set}
use axon_go.Syntax.Outputs.{
  TxEssenceOutput, amount_of, unlock_conditions_of, unlock_condition_set, condition,
}
use axon_go.Syntax.StorageScore.{
  StorageScoreStructure, storage_score, min_deposit, covers_min_deposit,
  min_storage_deposit_for_return_output, basic_output,
}
use axon_go.Syntax.Checks.{deposit_amount, limited, return_covered}
use axon_go.Syntax.Sets.{must_set-get}

-- Each element of a list satisfies a predicate.
unfoldable pub Each {ℓ κ} : {A : Type ℓ} → (A → Type κ) → List A → Type κ
Each P [] = Unit
Each P (a ∷ as') = P a × Each P as'

pub Each-intro {ℓ κ} :
    {A : Type ℓ} (P : A → Type κ) (xs : List A) → ((a : A) → Memᴰ a xs → P a) → Each P xs
unfolding Each
Each-intro P [] h = tt
Each-intro P (x ∷ xs) h = (h x (head refl), Each-intro P xs (λ a m. h a (tail m)))

module _ (structure : StorageScoreStructure) where
  -- The cost of an output: its storage score, at the cost of a unit.
  abbrev pub cost_of : TxEssenceOutput → ℕ
  cost_of output = structure.storage_score_parameters.storage_cost * storage_score structure output

  -- What a condition returns pays for the output that returns it, and comes from the amount.
  abbrev pub ReturnIsCovered : ℕ → UnlockCondition → Type 0
  ReturnIsCovered amount (storage_deposit_return a returned) =
      (cost_of (basic_output a) ≤ returned) × (returned ≤ amount)
  ReturnIsCovered amount condition = Unit

  -- An output is not empty, pays for its storage, and so do its returns.
  unfoldable pub IsCovered : TxEssenceOutput → Type 0
  IsCovered output =
      (0 < amount_of output)
      × (cost_of output ≤ amount_of output)
      × Each (ReturnIsCovered (amount_of output)) (unlock_conditions_of output)

module _ (math : SafeMath) where
  pub limited-eq-ok :
      (a b limit : ℕ) (e : Error) {sum : ℕ}
      → limited (math.safe_add 64 a b) limit e ≡ ok sum
      → (sum ≡ a + b) × (sum ≤ limit)
  limited-eq-ok a b limit e h =
      ground (arith, h, math.safe_add_fits 64 a b, math.safe_add_overflow 64 a b)

  module _ (structure : StorageScoreStructure) where
    min_deposit-eq-ok :
        (output : TxEssenceOutput) {least : ℕ}
        → min_deposit math structure output ≡ ok least
        → least ≡ cost_of structure output
    unfolding min_deposit
    min_deposit-eq-ok output h =
        elim (Option-cases (
          math.safe_mul 64 structure.storage_score_parameters.storage_cost
            (storage_score structure output))) [
              | inl e ↦ absurd (ground (arith, h, e))
              | inr (cost, e) ↦ ground (
                arith,
                h,
                e,
                math.safe_mul_fits 64 structure.storage_score_parameters.storage_cost
                    (storage_score structure output),
                math.safe_mul_overflow 64 structure.storage_score_parameters.storage_cost
                    (storage_score structure output),
              )
            ]

    return_covered-eq-ok :
        (amount : ℕ) (c : UnlockCondition)
        → return_covered math structure amount (some c) ≡ ok tt
        → ReturnIsCovered structure amount c
    unfolding min_storage_deposit_for_return_output
    return_covered-eq-ok amount (storage_deposit_return a returned) h =
        let (least, e, rest) = >>=-eq-ok (min_deposit math structure (basic_output a)) _ h in
        ground (arith, min_deposit-eq-ok (basic_output a) e, rest)
    return_covered-eq-ok amount c h = tt

    element_covered :
        (slice set : List UnlockCondition) (amount : ℕ) (c : UnlockCondition)
        → must_set unlock_condition_type {E = Error} slice ≡ ok set
        → return_covered math structure amount (condition set 1) ≡ ok tt
        → Memᴰ c slice
        → ReturnIsCovered structure amount c
    unfolding unlock_condition_type
    element_covered slice set amount (storage_deposit_return a returned) h covered m =
        let found =
          must_set-get unlock_condition_type slice (storage_deposit_return a returned) h m in
        return_covered-eq-ok amount (storage_deposit_return a returned) (rw found at covered)
    element_covered slice set amount c h covered m = tt

    -- The returns of a slice, from the one that the set has.
    returns_covered :
        (output : TxEssenceOutput) (set : List UnlockCondition)
        → unlock_condition_set {E = Error} output ≡ ok set
        → return_covered math structure (amount_of output) (condition set 1) ≡ ok tt
        → Each (ReturnIsCovered structure (amount_of output)) (unlock_conditions_of output)
    unfolding unlock_condition_set
    returns_covered output set h covered =
        Each-intro (ReturnIsCovered structure (amount_of output)) (unlock_conditions_of output)
          (λ c m.
            element_covered (unlock_conditions_of output) set (amount_of output) c h covered m)

    pub deposit_amount-eq-ok :
        (token_supply sum : ℕ) (output : TxEssenceOutput) {sum' : ℕ}
        → deposit_amount math structure token_supply output sum ≡ ok sum'
        → (sum' ≡ sum + amount_of output) × (sum' ≤ token_supply) × IsCovered structure output
    unfolding deposit_amount covers_min_deposit IsCovered
    deposit_amount-eq-ok token_supply sum output {sum'} h =
        let amount : ℕ = amount_of output in
        let (_, positive, h1) =
          >>=-eq-ok (reject_if (amount == 0) amount_must_be_greater_than_zero) _ h in
        let (total, e, h2) =
          >>=-eq-ok
            (limited (math.safe_add 64 sum amount) token_supply outputs_sum_exceeds_total_supply) _
            h1 in
        let (_, covers, h3) = >>=-eq-ok (covers_min_deposit math structure output amount) _ h2 in
        let (least, deposit, h4) = >>=-eq-ok (min_deposit math structure output) _ covers in
        let (set, made, h5) = >>=-eq-ok (unlock_condition_set output) _ h3 in
        let (_, returned, h6) =
          >>=-eq-ok (return_covered math structure amount (condition set 1)) _ h5 in
        let (exact, bound) =
          limited-eq-ok sum amount token_supply outputs_sum_exceeds_total_supply e in
        let cost = min_deposit-eq-ok output deposit in
        let same : total ≡ sum' = ground (arith, h6) in
        (
          ground (arith, same, exact),
          ground (arith, same, bound),
          (
            ground (arith, positive),
            ground (arith, cost, h4),
            returns_covered output set made returned,
          ),
        )
