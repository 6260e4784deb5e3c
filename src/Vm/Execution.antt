-- ===== src/Vm/Execution.antt =====
-- vm/vm.go: functions that are executed on a transaction whose unlocks are validated: senders and
-- issuers, timelocks, transitions of chains, implicit accounts. Maps of inputs are lists here: the
-- outcome does not depend on their order, the error that is reported may.
pub mod Laws
use axon_go.Common.{ℕ, ◌+◌, Bool, true, false, not, Option, none, some, List, [], ◌∷◌, u32}
use axon_go.Common.Result.{Result, ok, err, panic, ◌>>=◌, ◌>>◌, reject_if}
use axon_go.Address.{
  Address, ed25519_address, account_address, nft_address, anchor_address,
  implicit_account_creation_address, multi_address, restricted_address, key, OutputId, Crypto,
}
use axon_go.Nova.{ProtocolParameters}
use axon_go.Outputs.{
  Output, basic, account, anchor, foundry, nft, delegation, ChainId, ChainOutputSet, find_chain,
  same_chain, feature_set, immutable_feature_set, unlock_condition_set,
}
use axon_go.Outputs.Expiration.{timelocks_expired}
use axon_go.Vm.{
  Error, UnlockedAddressesSet, find_key, sender_feature_not_unlocked, issuer_feature_not_unlocked,
  timelock_commitment_input_missing, multiple_implicit_account_creation_addresses,
}
use axon_go.Vm.Inputs.{resolve_underlying_address, from_condition}

-- The address, without its restriction, is in the set.
unfoldable pub is_unlocked : Crypto → UnlockedAddressesSet → Address → Bool
is_unlocked crypto s address =
    elim (find_key s.unlocked_addrs_by_addr_key (key crypto (resolve_underlying_address address))) [
      | none ↦ false
      | some cell ↦ true
    ]

unfoldable pub sender_unlocked :
    Crypto → UnlockedAddressesSet → Option Address → Result Error (Unit {0})
sender_unlocked crypto s none = ok tt
sender_unlocked crypto s (some sender) =
    reject_if (not (is_unlocked crypto s sender)) sender_feature_not_unlocked

unfoldable pub exec_func_sender_unlocked :
    Crypto → UnlockedAddressesSet → List Output → Result Error (Unit {0})
exec_func_sender_unlocked crypto s [] = ok tt
exec_func_sender_unlocked crypto s (output ∷ outputs) =
    sender_unlocked crypto s (feature_set output).sender
    >> exec_func_sender_unlocked crypto s outputs

unfoldable pub issuer_unlocked :
    Crypto → UnlockedAddressesSet → Option Address → Result Error (Unit {0})
issuer_unlocked crypto s none = ok tt
issuer_unlocked crypto s (some issuer) =
    reject_if (not (is_unlocked crypto s issuer)) issuer_feature_not_unlocked

unfoldable pub is_issuer_on_output_unlocked :
    Crypto → UnlockedAddressesSet → Output → Result Error (Unit {0})
is_issuer_on_output_unlocked crypto s output =
    issuer_unlocked crypto s (immutable_feature_set output).issuer

-- The check of one input, by its timelock and the slot of the commitment.
unfoldable pub timelock_passed : ProtocolParameters → Option ℕ → Option ℕ → Result Error (Unit {0})
timelock_passed parameters commitment none = ok tt
timelock_passed parameters none (some slot) = err timelock_commitment_input_missing
timelock_passed parameters (some commitment) (some slot) =
    from_condition
      (timelocks_expired (some slot) (u32 (commitment + parameters.min_committable_age)))

unfoldable pub exec_func_timelocks :
    ProtocolParameters → Option ℕ → List Output → Result Error (Unit {0})
exec_func_timelocks parameters commitment [] = ok tt
exec_func_timelocks parameters commitment (input ∷ inputs) =
    timelock_passed parameters commitment (unlock_condition_set input).timelock
    >> exec_func_timelocks parameters commitment inputs

unfoldable pub is_implicit_account_creation_address : Option Address → Bool
is_implicit_account_creation_address (some (implicit_account_creation_address a)) = true
is_implicit_account_creation_address address = false

unfoldable pub creates_implicit_account : Output → Bool
creates_implicit_account (basic o) =
    is_implicit_account_creation_address o.unlock_conditions.address
creates_implicit_account (account o) = false
creates_implicit_account (anchor o) = false
creates_implicit_account (foundry o) = false
creates_implicit_account (nft o) = false
creates_implicit_account (delegation o) = false

-- The loop of `ExecFuncAtMostOneImplicitAccountCreationAddress`, by what it has seen.
unfoldable pub at_most_one_implicit_account : Bool → List Output → Result Error (Unit {0})
at_most_one_implicit_account seen [] = ok tt
at_most_one_implicit_account seen (input ∷ inputs) = elim (creates_implicit_account input) [
  | false ↦ at_most_one_implicit_account seen inputs
  | true ↦
      reject_if seen multiple_implicit_account_creation_addresses
      >> at_most_one_implicit_account true inputs
]

unfoldable pub exec_func_at_most_one_implicit_account_creation_address :
    List Output → Result Error (Unit {0})
exec_func_at_most_one_implicit_account_creation_address inputs =
    at_most_one_implicit_account false inputs

-- A chain with the identifier under which it stands on the input side.
pub record ChainOutputWithIds : Type 0 where
  pub chain_id : ChainId
  pub output_id : OutputId
  pub output : Output

pub data ChainTransition : Type 0 where
  genesis : Output → ChainTransition
  state_change : ChainOutputWithIds → Output → ChainTransition
  destroy : ChainOutputWithIds → ChainTransition

unfoldable pub has_chain : List ChainOutputWithIds → ChainId → Bool
has_chain [] id = false
has_chain (chain ∷ chains) id = elim (same_chain chain.chain_id id) [
  | true ↦ true
  | false ↦ has_chain chains id
]

-- The loops over the chains of the inputs and of the outputs. The transition function is the one of
-- the virtual machine.
module _ (chain_stvf : ChainTransition → Result Error (Unit {0})) where
  unfoldable pub transition_of : ChainOutputWithIds → Option Output → ChainTransition
  transition_of input none = destroy input
  transition_of input (some next) = state_change input next

  unfoldable pub input_chains_valid :
      List ChainOutputWithIds → ChainOutputSet → Result Error (Unit {0})
  input_chains_valid [] out_chains = ok tt
  input_chains_valid (input ∷ inputs) out_chains =
      chain_stvf (transition_of input (find_chain out_chains input.chain_id))
      >> input_chains_valid inputs out_chains

  unfoldable pub output_chains_valid :
      List ChainOutputWithIds → ChainOutputSet → Result Error (Unit {0})
  output_chains_valid in_chains [] = ok tt
  output_chains_valid in_chains ((id, output) ∷ out_chains) = elim (has_chain in_chains id) [
    | true ↦ output_chains_valid in_chains out_chains
    | false ↦ chain_stvf (genesis output) >> output_chains_valid in_chains out_chains
  ]

  unfoldable pub exec_func_chain_transitions :
      List ChainOutputWithIds → ChainOutputSet → Result Error (Unit {0})
  exec_func_chain_transitions in_chains out_chains =
      input_chains_valid in_chains out_chains >> output_chains_valid in_chains out_chains
