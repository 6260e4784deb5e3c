-- ===== src/Nova/BlockIssuer/Balance.antt =====
-- vm/vm.go: the Mana of the inputs against the Mana of the outputs.
use native.Mathlib.Decide.{dec_lt}
use axon_go.Common.{ℕ, ◌+◌, ◌^◌, ◌≤◌, ◌≡◌, arith, false, List, [], ◌∷◌}
use axon_go.Common.Result.{ok, >>=-eq-ok}
use axon_go.SafeMath.{SafeMath}
use axon_go.Mana.Decay.{ManaDecayProvider}
use axon_go.Nova.BlockIssuer.{
  Input, WorkingSet, or_mana_overflow, potential_mana, stored_mana_at, total_mana_of_inputs,
  total_mana_of, total_mana_in, stored_manas, allotted_manas, total_mana_out, inputs_created_before,
  balanced_mana,
}

abbrev pub sum : List ℕ → ℕ
sum [] = 0
sum (m ∷ ms) = m + sum ms

-- A number is what the stored Mana, decayed, and the potential Mana of the inputs add up to.
abbrev pub IsManaOf :
    SafeMath → ManaDecayProvider → (storage_cost slot : ℕ) → List Input → ℕ → Type 0
IsManaOf math p storage_cost slot [] n = n ≡ 0
IsManaOf math p storage_cost slot (i ∷ is) n =
    (stored : ℕ) × (potential : ℕ) × (rest : ℕ) × (stored_mana_at p i slot ≡ ok stored)
    × (potential_mana math p storage_cost i.output i.creation_slot slot ≡ ok potential)
    × IsManaOf math p storage_cost slot is rest
    × (n ≡ stored + potential + rest)

module _ (math : SafeMath) (p : ManaDecayProvider) (storage_cost : ℕ) where
  add-facts : (a b c : ℕ) → or_mana_overflow (math.safe_add 64 a b) ≡ ok c → a + b ≡ c
  add-facts a b c e = elim (dec_lt (a + b) (2 ^ 64)) [
    | yes small ↦ let fits = math.safe_add_fits 64 a b small in ground (arith, fits)
    | no large ↦
        let over = math.safe_add_overflow 64 a b (omega arith) in absurd (ground (arith, over))
  ]

  total-sum :
      (ms : List ℕ) (t r : ℕ) → total_mana_of math p storage_cost ms t ≡ ok r → t + sum ms ≡ r
  unfolding total_mana_of
  total-sum [] t r e = ground arith
  total-sum (m ∷ ms) t r e =
      let (k, first, rest) = >>=-eq-ok (or_mana_overflow (math.safe_add 64 t m)) _ e in
      omega (arith, add-facts t m k first, total-sum ms k r rest)

  inputs-IsManaOf :
      (slot : ℕ) (is : List Input) (t r : ℕ)
      → total_mana_of_inputs math p storage_cost slot is t ≡ ok r
      → (n : ℕ) × IsManaOf math p storage_cost slot is n × (t + n ≡ r)
  unfolding total_mana_of_inputs
  inputs-IsManaOf slot [] t r e = (0, omega arith, ground arith)
  inputs-IsManaOf slot (i ∷ is) t r e =
      let (stored, stored_runs, e1) = >>=-eq-ok (stored_mana_at p i slot) _ e in
      let (t1, f1, e2) = >>=-eq-ok (or_mana_overflow (math.safe_add 64 t stored)) _ e1 in
      let (potential, potential_runs, e3) =
        >>=-eq-ok (potential_mana math p storage_cost i.output i.creation_slot slot) _ e2 in
      let (t2, f2, e4) = >>=-eq-ok (or_mana_overflow (math.safe_add 64 t1 potential)) _ e3 in
      let (n, of_rest, whole) = inputs-IsManaOf slot is t2 r e4 in
      (
        stored + potential + n,
        (stored, potential, n, stored_runs, potential_runs, of_rest, omega arith),
        omega (arith, add-facts t stored t1 f1, add-facts t1 potential t2 f2, whole),
      )

-- What the totals come to where they are computed.
pub totals-IsManaOf :
    (math : SafeMath) (p : ManaDecayProvider) (storage_cost : ℕ) (ws : WorkingSet)
    → total_mana_in math p storage_cost ws.tx_creation_slot ws.inputs ws.rewards
      ≡ ok ws.total_mana_in
    → total_mana_out math p storage_cost ws.outputs ws.allotments ≡ ok ws.total_mana_out
    → (n : ℕ) × IsManaOf math p storage_cost ws.tx_creation_slot ws.inputs n
      × (n + sum ws.rewards ≡ ws.total_mana_in)
      × (sum (stored_manas ws.outputs) + sum (allotted_manas ws.allotments) ≡ ws.total_mana_out)
unfolding total_mana_in total_mana_out
totals-IsManaOf math p storage_cost ws in_runs out_runs =
    let (t, f1, e1) =
      >>=-eq-ok (total_mana_of_inputs math p storage_cost ws.tx_creation_slot ws.inputs 0) _
        in_runs in
    let (n, of_inputs, whole) =
      inputs-IsManaOf math p storage_cost ws.tx_creation_slot ws.inputs 0 t f1 in
    let with_rewards = total-sum math p storage_cost ws.rewards t ws.total_mana_in e1 in
    let (o, f2, e2) =
      >>=-eq-ok (total_mana_of math p storage_cost (stored_manas ws.outputs) 0) _ out_runs in
    let of_outputs = total-sum math p storage_cost (stored_manas ws.outputs) 0 o f2 in
    let with_allotted =
      total-sum math p storage_cost (allotted_manas ws.allotments) o ws.total_mana_out e2 in
    (n, of_inputs, omega arith, omega arith)

balanced-facts :
    (ws : WorkingSet)
    → balanced_mana ws ≡ ok tt
    → (ws.total_mana_out ≤ ws.total_mana_in)
      × (ws.can_burn_mana ≡ false → ws.total_mana_in ≤ ws.total_mana_out)
unfolding balanced_mana
balanced-facts ws accepted =
    let (u, before, rest) =
      >>=-eq-ok (inputs_created_before ws.tx_creation_slot ws.inputs) _ accepted in
    (ground arith, λ kept. ground arith)

-- A transaction does not make Mana: where the totals of the working set are the ones that the code
-- computes and the comparison accepts them, the stored Mana of the outputs and the allotments add up
-- to at most what the decayed stored Mana and the potential Mana of the inputs and the rewards add up
-- to, and to exactly as much where the transaction is not allowed to burn Mana.
pub balanced_mana-IsManaOf :
    (math : SafeMath) (p : ManaDecayProvider) (storage_cost : ℕ) (ws : WorkingSet)
    → total_mana_in math p storage_cost ws.tx_creation_slot ws.inputs ws.rewards
      ≡ ok ws.total_mana_in
    → total_mana_out math p storage_cost ws.outputs ws.allotments ≡ ok ws.total_mana_out
    → balanced_mana ws ≡ ok tt
    → (n : ℕ) × IsManaOf math p storage_cost ws.tx_creation_slot ws.inputs n
      × (sum (stored_manas ws.outputs) + sum (allotted_manas ws.allotments) ≤ n + sum ws.rewards)
      × (ws.can_burn_mana ≡ false
          → n + sum ws.rewards ≤ sum (stored_manas ws.outputs) + sum (allotted_manas ws.allotments))
balanced_mana-IsManaOf math p storage_cost ws in_runs out_runs accepted =
    let (n, of_inputs, whole, out) = totals-IsManaOf math p storage_cost ws in_runs out_runs in
    let (most, least) = balanced-facts ws accepted in
    (n, of_inputs, omega arith, λ kept. let exact = least kept in omega arith)
