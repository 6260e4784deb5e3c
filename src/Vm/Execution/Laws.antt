-- ===== src/Vm/Execution/Laws.antt =====
-- vm/vm.go: what the executed functions come to for a transaction whose unlocks are validated.
use axon_go.Common.{
  ℕ, zero, suc, ◌+◌, ◌≤◌, ◌≡◌, ◌↔◌, refl, sym, ap, ◌∙◌, arith, Bool, true, false, Option, none,
  some, List, [], ◌∷◌, u32, get_elem?, Bool-cases, Option-cases, inl, inr,
}
use axon_go.Common.Result.{ok, >>=-eq-ok}
use axon_go.Address.{Address, key, Crypto}
use axon_go.Nova.{ProtocolParameters}
use axon_go.Outputs.{Output, feature_set, immutable_feature_set, unlock_condition_set}
use axon_go.Outputs.Expiration.{timelocks_expired}
use axon_go.Unlocks.{Unlocks}
use axon_go.Vm.{UnlockedAddressesSet, find_key}
use axon_go.Vm.Inputs.{Transaction, ResolvedInputs, resolve_underlying_address, validate_unlocks}
use axon_go.Vm.Backed.{Backed}
use axon_go.Vm.Backed.Transactions.{context, AreBacked, validate_unlocks-AreBacked}
use axon_go.Vm.Execution.{
  is_unlocked, sender_unlocked, exec_func_sender_unlocked, issuer_unlocked,
  is_issuer_on_output_unlocked, timelock_passed, exec_func_timelocks, creates_implicit_account,
  at_most_one_implicit_account, exec_func_at_most_one_implicit_account_creation_address,
}

is_unlocked-found :
    (crypto : Crypto) (s : UnlockedAddressesSet) (a : Address)
    → is_unlocked crypto s a ≡ true
    → (cell : ℕ) × (find_key s.unlocked_addrs_by_addr_key
          (key crypto (resolve_underlying_address a))
        ≡ some cell)
unfolding is_unlocked
is_unlocked-found crypto s a e =
    elim (Option-cases
      (find_key s.unlocked_addrs_by_addr_key (key crypto (resolve_underlying_address a)))) [
        | inl absent ↦ absurd (ground (arith, absent))
        | inr found ↦ found
      ]

exec_func_sender_unlocked-at :
    (outputs : List Output) (j : ℕ) (crypto : Crypto) (s : UnlockedAddressesSet) (output : Output)
    (sender : Address) {r : Unit {0}}
    → exec_func_sender_unlocked crypto s outputs ≡ ok r
    → get_elem? outputs j ≡ some output
    → (feature_set output).sender ≡ some sender
    → is_unlocked crypto s sender ≡ true
unfolding exec_func_sender_unlocked sender_unlocked
exec_func_sender_unlocked-at [] j crypto s output sender e at has = absurd (cc)
exec_func_sender_unlocked-at (first ∷ outputs) zero crypto s output sender e at has =
    let (_, checked, _) = >>=-eq-ok (sender_unlocked crypto s (feature_set first).sender) _ e in
    let same : first ≡ output = cc in
    let e1 : sender_unlocked crypto s (some sender) ≡ ok tt =
      ap (sender_unlocked crypto s)
        (sym has ∙ ap (λ (o : Output). (feature_set o).sender) (sym same))
      ∙ checked in
    ground (arith, e1)
exec_func_sender_unlocked-at (first ∷ outputs) (suc j) crypto s output sender e at has =
    let (_, _, rest) = >>=-eq-ok (sender_unlocked crypto s (feature_set first).sender) _ e in
    exec_func_sender_unlocked-at outputs j crypto s output sender rest at has

issuer-is_unlocked :
    (crypto : Crypto) (s : UnlockedAddressesSet) (output : Output) (issuer : Address) {r : Unit {0}}
    → is_issuer_on_output_unlocked crypto s output ≡ ok r
    → (immutable_feature_set output).issuer ≡ some issuer
    → is_unlocked crypto s issuer ≡ true
unfolding is_issuer_on_output_unlocked issuer_unlocked
issuer-is_unlocked crypto s output issuer e has =
    let e1 : issuer_unlocked crypto s (some issuer) ≡ ok tt =
      ap (issuer_unlocked crypto s) (sym has) ∙ e in
    ground (arith, e1)

-- The senders of a transaction's outputs, and the issuers of those that are checked for it, are backed.
pub record SendersAreBacked (crypto : Crypto) (parameters : ProtocolParameters)
    (transaction : Transaction) (resolved : ResolvedInputs) (s : UnlockedAddressesSet)
    : Type 0 where
  pub unlocks : AreBacked crypto parameters transaction resolved s
  pub senders :
      (j : ℕ) (output : Output) (sender : Address)
      → get_elem? transaction.outputs j ≡ some output
      → (feature_set output).sender ≡ some sender
      → Backed
          (context crypto parameters transaction resolved unlocks.out_chains)
          (key crypto (resolve_underlying_address sender))
  pub issuers :
      (output : Output) (issuer : Address)
      → is_issuer_on_output_unlocked crypto s output ≡ ok tt
      → (immutable_feature_set output).issuer ≡ some issuer
      → Backed
          (context crypto parameters transaction resolved unlocks.out_chains)
          (key crypto (resolve_underlying_address issuer))

-- Where the unlocks of a transaction are accepted and the senders are found among the addresses that
-- these unlock, the sender of each output of the transaction is backed, without its restriction; and
-- so is the issuer of each output that passes the check of its issuer with the same addresses.
pub exec_func_sender_unlocked-SendersAreBacked :
    (crypto : Crypto) (parameters : ProtocolParameters) (transaction : Transaction)
    (resolved : ResolvedInputs) (us : Unlocks) (s : UnlockedAddressesSet)
    → validate_unlocks crypto parameters transaction resolved us ≡ ok s
    → exec_func_sender_unlocked crypto s transaction.outputs ≡ ok tt
    → SendersAreBacked crypto parameters transaction resolved s
exec_func_sender_unlocked-SendersAreBacked crypto parameters transaction resolved us s e passed =
    let r : AreBacked crypto parameters transaction resolved s =
      validate_unlocks-AreBacked crypto parameters transaction resolved us s e in
    record {
      unlocks = r;
      senders = λ j output sender at has.
          (let (cell, found) = is_unlocked-found crypto s sender (
              exec_func_sender_unlocked-at transaction.outputs j crypto s output sender passed at
                has) in
            r.keys (key crypto (resolve_underlying_address sender)) cell found);
      issuers = λ output issuer checked has.
          (let (cell, found) =
              is_unlocked-found crypto s issuer
                (issuer-is_unlocked crypto s output issuer checked has) in
            r.keys (key crypto (resolve_underlying_address issuer)) cell found);
    }

timelock_passed-le :
    (parameters : ProtocolParameters) (commitment : Option ℕ) (slot : ℕ) {r : Unit {0}}
    → timelock_passed parameters commitment (some slot) ≡ ok r
    → (c : ℕ) × (commitment ≡ some c) × (slot ≤ u32 (c + parameters.min_committable_age))
unfolding timelock_passed timelocks_expired
timelock_passed-le parameters none slot e = absurd (cc)
timelock_passed-le parameters (some c) slot e = (c, refl, ground arith)

-- Where the timelocks are accepted, each input with a timelock comes with a commitment input, and the
-- timelock's slot is not after the slot that this commitment bounds from the future.
pub exec_func_timelocks_lem :
    (parameters : ProtocolParameters) (commitment : Option ℕ) (inputs : List Output) (j : ℕ)
    (input : Output) (slot : ℕ)
    → exec_func_timelocks parameters commitment inputs ≡ ok tt
    → get_elem? inputs j ≡ some input
    → (unlock_condition_set input).timelock ≡ some slot
    → (c : ℕ) × (commitment ≡ some c) × (slot ≤ u32 (c + parameters.min_committable_age))
unfolding exec_func_timelocks
exec_func_timelocks_lem parameters commitment [] j input slot e at has = absurd (cc)
exec_func_timelocks_lem parameters commitment (first ∷ inputs) zero input slot e at has =
    let (_, checked, _) =
      >>=-eq-ok (timelock_passed parameters commitment (unlock_condition_set first).timelock) _ e in
    let same : first ≡ input = cc in
    let e1 : timelock_passed parameters commitment (some slot) ≡ ok tt =
      ap (timelock_passed parameters commitment)
        (sym has ∙ ap (λ (o : Output). (unlock_condition_set o).timelock) (sym same))
      ∙ checked in
    timelock_passed-le parameters commitment slot e1
exec_func_timelocks_lem parameters commitment (first ∷ inputs) (suc j) input slot e at has =
    let (_, _, rest) =
      >>=-eq-ok (timelock_passed parameters commitment (unlock_condition_set first).timelock) _ e in
    exec_func_timelocks_lem parameters commitment inputs j input slot rest at has

-- How many inputs create implicit accounts.
unfoldable pub implicit_accounts : List Output → ℕ
implicit_accounts [] = 0
implicit_accounts (input ∷ inputs) = elim (creates_implicit_account input) [
  | true ↦ 1 + implicit_accounts inputs
  | false ↦ implicit_accounts inputs
]

abbrev seen_count : Bool → ℕ
seen_count true = 1
seen_count false = 0

at_most_one_iff :
    (inputs : List Output) (seen : Bool)
    → (at_most_one_implicit_account seen inputs ≡ ok tt)
      ↔ (seen_count seen + implicit_accounts inputs ≤ 1)
unfolding at_most_one_implicit_account implicit_accounts
at_most_one_iff [] true = (λ e. omega arith, λ h. refl)
at_most_one_iff [] false = (λ e. omega arith, λ h. refl)
at_most_one_iff (input ∷ inputs) true =
    let (there, back) = at_most_one_iff inputs true in
    elim (Bool-cases (creates_implicit_account input)) [
      | inl creates ↦ (λ e. ground (arith, creates), λ h. ground (arith, creates))
      | inr other ↦ (λ e. ground (arith, other, there), λ h. ground (arith, other, back))
    ]
at_most_one_iff (input ∷ inputs) false =
    let (there, back) = at_most_one_iff inputs false in
    let (there', back') = at_most_one_iff inputs true in
    elim (Bool-cases (creates_implicit_account input)) [
      | inl creates ↦ (λ e. ground (arith, creates, there'), λ h. ground (arith, creates, back'))
      | inr other ↦ (λ e. ground (arith, other, there), λ h. ground (arith, other, back))
    ]

-- The check of implicit accounts accepts exactly the inputs of which one at most creates such an
-- account.
pub exec_func_at_most_one_implicit_account_creation_address_iff :
    (inputs : List Output)
    → (exec_func_at_most_one_implicit_account_creation_address inputs ≡ ok tt)
      ↔ (implicit_accounts inputs ≤ 1)
unfolding exec_func_at_most_one_implicit_account_creation_address
exec_func_at_most_one_implicit_account_creation_address_iff inputs =
    let (there, back) = at_most_one_iff inputs false in
    (λ e. omega (arith, there e), λ h. back (omega arith))
