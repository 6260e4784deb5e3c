-- ===== src/Nova/Foundry.antt =====
-- vm/nova/vm.go: the foundries of an account: the account's foundry counter, the serial numbers of
-- new foundries, and the transitions of a foundry output.
pub mod Numbers
pub mod Serials
pub mod Genesis
pub mod Transition
use axon_go.Common.{
  ℕ, ◌+◌, ◌==◌, Bool, true, false, not, ◌&&◌, ◌||◌, Option, none, some, List, [], ◌∷◌, ltb, leb,
  if◌then◌else◌, u32, sub32,
}
use axon_go.Common.Int.{ℤ, pos}
use axon_go.Common.Result.{Result, ok, err, panic, ◌>>=◌, ◌>>◌, reject_if}
use axon_go.TokenScheme
use axon_go.TokenScheme.{
  SimpleTokenScheme, TokenScheme, simple, other, genesis, state_change, destroy, state_transition,
}
use axon_go.Nova.{
  Error, account_invalid_foundry_counter, foundry_transition_without_account,
  foundry_serial_invalid, tx_capabilities_foundry_destruction_not_allowed, token_scheme_invalid,
}

-- output_foundry.go, what the transitions read. The owner is the identifier of the account in the
-- immutable account unlock condition.
pub record FoundryOutput : Type 0 where
  pub owner : ℕ
  pub serial_number : ℕ
  pub token_scheme : SimpleTokenScheme

-- The bytes of an identifier are those of the account, the serial number and the scheme's type, each
-- of a fixed length. The simple scheme's type is 0.
unfoldable pub foundry_id : FoundryOutput → ℕ × ℕ × ℕ
foundry_id f = (f.owner, f.serial_number, 0)

unfoldable pub same_id : ℕ × ℕ × ℕ → ℕ × ℕ × ℕ → Bool
same_id (a, s, t) (b, r, u) = (a == b) && (s == r) && (t == u)

pub data TxOutput : Type 0 where
  foundry : FoundryOutput → TxOutput
  no_foundry : TxOutput

-- The output of an input chain that is keyed by an account's identifier: an account output with its
-- foundry counter, or the implicit account that a basic output on the input side stands for.
pub data InAccount : Type 0 where
  account_output : ℕ → InAccount
  implicit_account_output : InAccount

-- The working set: the foundries and the accounts of the input chains, the foundry counters of the
-- accounts of the output chains, the outputs and the sums of native tokens on the output side.
pub record WorkingSet : Type 0 where
  pub in_foundries : List (ℕ × ℕ × ℕ)
  pub in_accounts : List (ℕ × InAccount)
  pub out_accounts : List (ℕ × ℕ)
  pub outputs : List TxOutput
  pub in_native_tokens : List ((ℕ × ℕ × ℕ) × ℤ)
  pub out_native_tokens : List ((ℕ × ℕ × ℕ) × ℤ)

unfoldable pub has_foundry : List (ℕ × ℕ × ℕ) → ℕ × ℕ × ℕ → Bool
has_foundry [] id = false
has_foundry (f ∷ fs) id = if same_id f id then true else has_foundry fs id

-- The loop that counts the new foundries of an account, from the outputs that are left.
unfoldable pub seen_new_foundries : List (ℕ × ℕ × ℕ) → ℕ → List TxOutput → ℕ → ℕ
seen_new_foundries ins account_id [] seen = seen
seen_new_foundries ins account_id (no_foundry ∷ outs) seen =
    seen_new_foundries ins account_id outs seen
seen_new_foundries ins account_id (foundry f ∷ outs) seen =
    if has_foundry ins (foundry_id f)
    then seen_new_foundries ins account_id outs seen
    else if not (f.owner == account_id)
    then seen_new_foundries ins account_id outs seen
    else seen_new_foundries ins account_id outs (u32 (seen + 1))

-- The counters are those of the current and of the next state of the account.
unfoldable pub account_foundry_counter_stvf : WorkingSet → ℕ → ℕ → ℕ → Result Error (Unit {0})
account_foundry_counter_stvf ws account_id current_counter next_counter =
    if ltb next_counter current_counter
    then err account_invalid_foundry_counter
    else if current_counter == next_counter
    then ok tt
    else reject_if
        (not (
          sub32 next_counter current_counter
          == seen_new_foundries ws.in_foundries account_id ws.outputs 0))
        account_invalid_foundry_counter

-- The loop over the outputs that checks the order of the serial numbers up to the foundry itself.
unfoldable pub serial_order_valid :
    List (ℕ × ℕ × ℕ) → FoundryOutput → List TxOutput → Result Error (Unit {0})
serial_order_valid ins current [] = ok tt
serial_order_valid ins current (no_foundry ∷ outs) = serial_order_valid ins current outs
serial_order_valid ins current (foundry f ∷ outs) =
    if not (f.owner == current.owner)
    then serial_order_valid ins current outs
    else if has_foundry ins (foundry_id f)
    then serial_order_valid ins current outs
    else if same_id (foundry_id f) (foundry_id current)
    then ok tt
    else if leb current.serial_number f.serial_number
    then err foundry_serial_invalid
    else serial_order_valid ins current outs

-- The counters are those of the account on the input and on the output side.
unfoldable pub foundry_serial_number_valid :
    WorkingSet → FoundryOutput → ℕ → ℕ → Result Error (Unit {0})
foundry_serial_number_valid ws current start_serial end_inc_serial = do
  reject_if (leb current.serial_number start_serial || ltb end_inc_serial current.serial_number)
      foundry_serial_invalid
  serial_order_valid ws.in_foundries current ws.outputs

abbrev pub account_entry : {A : Type 0} → List (ℕ × A) → ℕ → Option A
account_entry [] account_id = none
account_entry ((id, entry) ∷ entries) account_id =
    let rest = account_entry entries account_id in if id == account_id then some entry else rest

unfoldable pub value_or_zero : List ((ℕ × ℕ × ℕ) × ℤ) → ℕ × ℕ × ℕ → ℤ
value_or_zero [] id = pos 0
value_or_zero ((token, sum) ∷ sums) id =
    let rest = value_or_zero sums id in if same_id token id then sum else rest

abbrev pub of_token_scheme : Result TokenScheme.Error (Unit {0}) → Result Error (Unit {0})
of_token_scheme panic = panic
of_token_scheme (err e) = err (token_scheme_invalid e)
of_token_scheme (ok u) = ok u

-- The type assertion on the input chain's output panics where that is an implicit account.
abbrev pub counter_of : InAccount → Result Error ℕ
counter_of implicit_account_output = panic
counter_of (account_output counter) = ok counter

abbrev pub present : {A : Type 0} → Option A → Result Error A
present none = err foundry_transition_without_account
present (some entry) = ok entry

-- The genesis transition of the token scheme reads neither a next state nor the input side, and the
-- code passes nil for both.
unfoldable pub foundry_genesis_valid : WorkingSet → FoundryOutput → Result Error (Unit {0})
foundry_genesis_valid ws current = do
  of_token_scheme (
      state_transition current.token_scheme genesis other (pos 0)
        (value_or_zero ws.out_native_tokens (foundry_id current)))
  in_account ← present (account_entry ws.in_accounts current.owner)
  out_counter ← present (account_entry ws.out_accounts current.owner)
  start_serial ← counter_of in_account
  foundry_serial_number_valid ws current start_serial out_counter

-- The first argument is the capability of the transaction to destroy foundry outputs.
unfoldable pub foundry_destruction_valid :
    Bool → WorkingSet → FoundryOutput → Result Error (Unit {0})
foundry_destruction_valid can_destroy_foundry_outputs ws current = do
  reject_if (not can_destroy_foundry_outputs) tx_capabilities_foundry_destruction_not_allowed
  of_token_scheme (
      state_transition current.token_scheme destroy other
        (value_or_zero ws.in_native_tokens (foundry_id current))
        (value_or_zero ws.out_native_tokens (foundry_id current)))
