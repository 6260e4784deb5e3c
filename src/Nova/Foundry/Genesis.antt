-- ===== src/Nova/Foundry/Genesis.antt =====
-- vm/nova/vm.go: the creation of a foundry.
use axon_go.Common.{ℕ, ◌≤◌, ◌<◌, ◌≡◌, refl, arith, Option, none, some}
use axon_go.Common.Int.{pos}
use axon_go.Common.Result.{Result, ok, err, panic, >>=-eq-ok}
use axon_go.TokenScheme.{genesis, other, state_transition}
use axon_go.TokenScheme.Supply.{eqb_ℤ-sound, genesis-facts}
use axon_go.Nova.Foundry.{
  FoundryOutput, foundry_id, InAccount, account_output, implicit_account_output, WorkingSet,
  account_entry, value_or_zero, of_token_scheme, counter_of, present, foundry_serial_number_valid,
  foundry_genesis_valid,
}

of_token_scheme-ok : (r : Result _ (Unit {0})) {u : Unit {0}} → of_token_scheme r ≡ ok u → r ≡ ok tt
of_token_scheme-ok (ok u) e = refl
of_token_scheme-ok (err e') e = absurd (cc)
of_token_scheme-ok panic e = absurd (cc)

present-ok : {A : Type 0} (o : Option A) {a : A} → present o ≡ ok a → o ≡ some a
present-ok none e = absurd (cc)
present-ok (some b) e = cc

counter_of-ok : (a : InAccount) {c : ℕ} → counter_of a ≡ ok c → a ≡ account_output c
counter_of-ok implicit_account_output e = absurd (cc)
counter_of-ok (account_output d) e = cc

serial_number-bounds :
    (ws : WorkingSet) (f : FoundryOutput) (start end_inc : ℕ)
    → foundry_serial_number_valid ws f start end_inc ≡ ok tt
    → (start < f.serial_number) × (f.serial_number ≤ end_inc)
unfolding foundry_serial_number_valid
serial_number-bounds ws f start end_inc e = (ground arith, ground arith)

scheme-facts :
    (ws : WorkingSet) (f : FoundryOutput)
    → state_transition f.token_scheme genesis other
        (pos 0)
        (value_or_zero ws.out_native_tokens (foundry_id f))
      ≡ ok tt
    → (f.token_scheme.melted_tokens ≡ pos 0)
      × (value_or_zero ws.out_native_tokens (foundry_id f) ≡ f.token_scheme.minted_tokens)
unfolding state_transition
scheme-facts ws f e =
    let (melted, minted) =
      genesis-facts f.token_scheme (value_or_zero ws.out_native_tokens (foundry_id f)) e in
    (eqb_ℤ-sound _ _ melted, eqb_ℤ-sound _ _ minted)

-- A foundry is created by its account: where the creation is accepted, the owning account is an
-- account output on both sides of the transaction, the serial number is above the foundry counter on
-- the input side and at most the one on the output side, no token is melted, and the minted tokens
-- are all the foundry's tokens on the output side.
pub foundry_genesis_valid_lem :
    (ws : WorkingSet) (f : FoundryOutput)
    → foundry_genesis_valid ws f ≡ ok tt
    → (start : ℕ) × (end_inc : ℕ) × (account_entry ws.in_accounts f.owner
        ≡ some (account_output start))
      × (account_entry ws.out_accounts f.owner ≡ some end_inc)
      × (start < f.serial_number)
      × (f.serial_number ≤ end_inc)
      × (f.token_scheme.melted_tokens ≡ pos 0)
      × (value_or_zero ws.out_native_tokens (foundry_id f) ≡ f.token_scheme.minted_tokens)
unfolding foundry_genesis_valid
foundry_genesis_valid_lem ws f accepted =
    let (_, scheme, e1) =
      >>=-eq-ok
        (of_token_scheme (
          state_transition f.token_scheme genesis other (pos 0)
            (value_or_zero ws.out_native_tokens (foundry_id f))))
        _ accepted in
    let (in_account, in_found, e2) =
      >>=-eq-ok (present (account_entry ws.in_accounts f.owner)) _ e1 in
    let (end_inc, out_found, e3) =
      >>=-eq-ok (present (account_entry ws.out_accounts f.owner)) _ e2 in
    let (start, counted, serial) = >>=-eq-ok (counter_of in_account) _ e3 in
    let (melted, minted) = scheme-facts ws f (of_token_scheme-ok _ scheme) in
    let (above, below) = serial_number-bounds ws f start end_inc serial in
    let found = present-ok (account_entry ws.in_accounts f.owner) in_found in
    let is_output = counter_of-ok in_account counted in
    let found' : account_entry ws.in_accounts f.owner ≡ some (account_output start) = cc in
    (start, end_inc, found', present-ok _ out_found, above, below, melted, minted)
