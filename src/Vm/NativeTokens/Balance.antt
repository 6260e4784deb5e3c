-- ===== src/Vm/NativeTokens/Balance.antt =====
-- vm/vm.go: what the balance of native tokens comes to.
use axon_go.Common.{
  ℕ, ◌+◌, ◌≤◌, ◌≡◌, ◌==◌, refl, sym, ap, ◌∙◌, arith, Bool, true, false, not, Option, none, some,
  List, [], ◌∷◌, if◌then◌else◌, ltb, Bool-cases, ◌⊎◌, inl, inr,
}
use axon_go.Common.Result.{ok, reject_if, >>=-eq-ok}
use axon_go.Outputs.{Output, ChainId, ChainOutputSet, find_chain, same_chain, feature_set}
use axon_go.Outputs.Chains.{same_chain_sound, same_chain_sym}
use axon_go.Vm.{
  wrap, native_token_amount_less_than_equal_zero, native_token_sum_exceeds_uint256,
  native_token_sum_unbalanced, native_token_set_invalid,
}
use axon_go.Vm.Backed.Sets.{wrap-eq-ok, ok-injective}
use axon_go.Vm.NativeTokens.{
  NativeTokenSum, find_amount, set_amount, amount_or_zero, max_uint256, add_native_token,
  native_token_sum, is_there, input_token_balanced, input_tokens_balanced, output_tokens_balanced,
  exec_func_balanced_native_tokens,
}

-- The amount of a token in an output's feature, and in all outputs of a list.
abbrev amount_in : Option (ChainId × ℕ) → ChainId → ℕ
amount_in none id = 0
amount_in (some (known, amount)) id = if same_chain known id then amount else 0

unfoldable pub tokens : List Output → ChainId → ℕ
tokens [] id = 0
tokens (output ∷ outputs) id = amount_in (feature_set output).native_token id + tokens outputs id

abbrev amount_of : NativeTokenSum → ChainId → ℕ
amount_of sum id = amount_or_zero (find_amount sum id)

amount_of-set_amount :
    (sum : NativeTokenSum) (id j : ChainId) (amount : ℕ)
    → amount_of (set_amount sum id amount) j ≡ (if same_chain id j then amount else amount_of sum j)
unfolding set_amount find_amount
amount_of-set_amount [] id j amount = ground arith
amount_of-set_amount ((known, n) ∷ sum) id j amount = elim (Bool-cases (same_chain known id)) [
  | inl same ↦
      let moved : same_chain known j ≡ same_chain id j =
        ap (λ (x : ChainId). same_chain x j) (same_chain_sound known id same) in
      ground (arith, same, moved)
  | inr other ↦
      let apart : same_chain known j ≡ true → same_chain id j ≡ false = λ here.
        ap (same_chain id) (sym (same_chain_sound known j here))
        ∙ (same_chain_sym id known ∙ other) in
      ground (arith, other, apart, amount_of-set_amount sum id j amount)
]

amount_of-add_native_token :
    (feature : Option (ChainId × ℕ)) (sum sum' : NativeTokenSum) (j : ChainId)
    → add_native_token feature sum ≡ ok sum'
    → amount_of sum' j ≡ amount_of sum j + amount_in feature j
unfolding add_native_token
amount_of-add_native_token none sum sum' j e =
    let same : sum ≡ sum' = ok-injective e in rw same (omega arith)
amount_of-add_native_token (some (id, amount)) sum sum' j e =
    let after : ℕ = amount_of sum id + amount in
    let (_, _, e1) =
      >>=-eq-ok (reject_if (amount == 0) native_token_amount_less_than_equal_zero) _ e in
    let (_, _, e2) =
      >>=-eq-ok (reject_if (ltb max_uint256 after) native_token_sum_exceeds_uint256) _ e1 in
    let same : set_amount sum id after ≡ sum' = ok-injective e2 in
    let moved : same_chain id j ≡ true → amount_of sum id ≡ amount_of sum j =
      λ here. ap (amount_of sum) (same_chain_sound id j here) in
    rw (← same) (ground (arith, amount_of-set_amount sum id j after, moved))

amount_of-native_token_sum :
    (outputs : List Output) (sum sum' : NativeTokenSum) (j : ChainId)
    → native_token_sum outputs sum ≡ ok sum'
    → amount_of sum' j ≡ amount_of sum j + tokens outputs j
unfolding native_token_sum tokens
amount_of-native_token_sum [] sum sum' j e =
    let same : sum ≡ sum' = ok-injective e in rw same (omega arith)
amount_of-native_token_sum (output ∷ outputs) sum sum' j e =
    let feature = (feature_set output).native_token in
    let (next, added, e1) = >>=-eq-ok (add_native_token feature sum) _ e in
    omega (
      arith,
      amount_of-add_native_token feature sum next j added,
      amount_of-native_token_sum outputs next sum' j e1,
    )

input_tokens_balanced-at :
    (cannot_burn : Bool) (out_chains : ChainOutputSet) (out_sums in_sums : NativeTokenSum)
    (id : ChainId) (n : ℕ) {r : Unit {0}}
    → input_tokens_balanced cannot_burn out_chains out_sums in_sums ≡ ok r
    → find_chain out_chains id ≡ none
    → find_amount in_sums id ≡ some n
    → (r' : Unit {0}) × (input_token_balanced cannot_burn n (find_amount out_sums id) ≡ ok r')
unfolding input_tokens_balanced find_amount
input_tokens_balanced-at cannot_burn out_chains out_sums [] id n e absent found = absurd (cc)
input_tokens_balanced-at cannot_burn out_chains out_sums ((known, m) ∷ in_sums) id n e absent
      found =
    let (_, first, rest) =
      >>=-eq-ok
        (if is_there (find_chain out_chains known)
          then ok tt
          else input_token_balanced cannot_burn m (find_amount out_sums known))
        _ e in
    elim (Bool-cases (same_chain known id)) [
      | inl same ↦
          let moved : known ≡ id = same_chain_sound known id same in
          let missing : is_there (find_chain out_chains known) ≡ false =
            ap (λ (x : ChainId). is_there (find_chain out_chains x)) moved ∙ ap is_there absent in
          let amount : m ≡ n = ground (arith, same) in
          let checked : input_token_balanced cannot_burn m (find_amount out_sums known) ≡ ok tt =
            ground (arith, first, missing) in
          (tt, rw (← moved, ← amount) checked)
      | inr other ↦
          input_tokens_balanced-at cannot_burn out_chains out_sums in_sums id n rest absent
            (ground (arith, other))
    ]

output_tokens_balanced-at :
    (out_chains : ChainOutputSet) (in_sums out_sums : NativeTokenSum) (id : ChainId) (n : ℕ)
    {r : Unit {0}}
    → output_tokens_balanced out_chains in_sums out_sums ≡ ok r
    → find_chain out_chains id ≡ none
    → find_amount out_sums id ≡ some n
    → is_there (find_amount in_sums id) ≡ true
unfolding output_tokens_balanced find_amount
output_tokens_balanced-at out_chains in_sums [] id n e absent found = absurd (cc)
output_tokens_balanced-at out_chains in_sums ((known, m) ∷ out_sums) id n e absent found =
    let (_, first, rest) =
      >>=-eq-ok
        (if is_there (find_chain out_chains known)
          then ok tt
          else reject_if (not (is_there (find_amount in_sums known))) native_token_sum_unbalanced)
        _ e in
    elim (Bool-cases (same_chain known id)) [
      | inl same ↦
          let moved : known ≡ id = same_chain_sound known id same in
          let missing : is_there (find_chain out_chains known) ≡ false =
            ap (λ (x : ChainId). is_there (find_chain out_chains x)) moved ∙ ap is_there absent in
          let there : is_there (find_amount in_sums known) ≡ true =
            ground (arith, first, missing) in
          rw (← moved) there
      | inr other ↦
          output_tokens_balanced-at out_chains in_sums out_sums id n rest absent
            (ground (arith, other))
    ]

-- What the two checks of a token come to, by its sums.
sums_balanced :
    (cannot_burn : Bool) (in_sum out_sum : Option ℕ)
    → ((n : ℕ)
        → in_sum ≡ some n
        → (r : Unit {0}) × (input_token_balanced cannot_burn n out_sum ≡ ok r))
    → ((n : ℕ) → out_sum ≡ some n → is_there in_sum ≡ true)
    → (amount_or_zero out_sum ≤ amount_or_zero in_sum)
      × (cannot_burn ≡ true → amount_or_zero out_sum ≡ amount_or_zero in_sum)
unfolding input_token_balanced
sums_balanced cannot_burn none none checked there = (omega arith, λ burns. refl)
sums_balanced cannot_burn none (some m) checked there = absurd (cc (there m refl))
sums_balanced cannot_burn (some n) none checked there =
    let (_, fine) = checked n refl in (omega arith, λ burns. absurd (ground (arith, fine, burns)))
sums_balanced cannot_burn (some n) (some m) checked there =
    let (_, fine) = checked n refl in (ground (arith, fine), λ burns. ground (arith, fine, burns))

-- A balance of native tokens that is accepted mints none, and melts none without the capability:
-- for each token whose foundry is not among the chains of the outputs, the outputs hold no more than
-- the inputs, and as much as the inputs where tokens cannot be burned.
pub exec_func_balanced_native_tokens_lem :
    (cannot_burn : Bool) (out_chains : ChainOutputSet) (inputs outputs : List Output) (id : ChainId)
    → exec_func_balanced_native_tokens cannot_burn out_chains inputs outputs ≡ ok tt
    → find_chain out_chains id ≡ none
    → (tokens outputs id ≤ tokens inputs id)
      × ((cannot_burn ≡ false) ⊎ (tokens outputs id ≡ tokens inputs id))
unfolding exec_func_balanced_native_tokens find_amount
exec_func_balanced_native_tokens_lem cannot_burn out_chains inputs outputs id e absent =
    let (in_sums, ins, e1) =
      >>=-eq-ok (wrap native_token_set_invalid (native_token_sum inputs [])) _ e in
    let (out_sums, outs, e2) =
      >>=-eq-ok (wrap native_token_set_invalid (native_token_sum outputs [])) _ e1 in
    let (_, balanced, e3) =
      >>=-eq-ok (input_tokens_balanced cannot_burn out_chains out_sums in_sums) _ e2 in
    let held : amount_of in_sums id ≡ amount_of [] id + tokens inputs id =
      amount_of-native_token_sum inputs [] in_sums id (wrap-eq-ok _ _ ins) in
    let left : amount_of out_sums id ≡ amount_of [] id + tokens outputs id =
      amount_of-native_token_sum outputs [] out_sums id (wrap-eq-ok _ _ outs) in
    let (less, same) =
      sums_balanced cannot_burn (find_amount in_sums id) (find_amount out_sums id)
        (λ n found.
          input_tokens_balanced-at cannot_burn out_chains out_sums in_sums id n balanced absent
            found)
        (λ n found. output_tokens_balanced-at out_chains in_sums out_sums id n e3 absent found) in
    let lossless : (cannot_burn ≡ false) ⊎ (tokens outputs id ≡ tokens inputs id) =
      elim (Bool-cases cannot_burn) [
        | inl never ↦ inr (omega (arith, same never))
        | inr may ↦ inl may
      ] in
    (omega arith, lossless)
