-- ===== src/Vm/Inputs.antt =====
-- vm/vm.go: the unlocking of the inputs of a transaction: who has to unlock an input, and which chain
-- an input unlocks.
use axon_go.Common.{
  ℕ, ◌+◌, ◌==◌, Bool, true, false, Option, none, some, List, [], ◌∷◌, if◌then◌else◌, u16, u32,
}
use axon_go.Common.Result.{Result, ok, err, panic, ◌>>=◌}
use axon_go.Address.{Address, restricted_address, account_address, OutputId, Crypto}
use axon_go.Nova.{ProtocolParameters}
use axon_go.Outputs.{
  Output, basic, account, anchor, foundry, nft, delegation, AnchorOutput, anchor_id, ChainOutputSet,
  chain_output_set, find_chain, resolve_chain, chain_id, to_address, must, unlock_condition_set,
}
use axon_go.Outputs.Expiration.{ConditionError, check_expiration_condition}
use axon_go.Unlocks.{Unlock, Unlocks, nil, cons}
use axon_go.Vm.{
  Error, condition_failed, owner_transition_dependent_output_next_invalid,
  expiration_commitment_input_missing, UnlockedAddressesSet, nothing_unlocked, add_unlocked,
}
use axon_go.Vm.Unlocking.{unlock_address}

-- The identifier of a transaction and the message to sign are hashes of its serialization.
pub record Transaction : Type 0 where
  pub id : ℕ
  pub signing_message : ℕ
  pub inputs : List OutputId
  pub outputs : List Output

-- What the inputs of a transaction resolve to. A commitment is read for its slot.
pub record ResolvedInputs : Type 0 where
  pub input_set : OutputId → Option Output
  pub commitment_input : Option ℕ

unfoldable pub resolve_underlying_address : Address → Address
resolve_underlying_address (restricted_address underlying capabilities) = underlying
resolve_underlying_address address = address

-- `Owner` of an anchor output, by the output that the anchor has next.
unfoldable pub anchor_owner : AnchorOutput → Option Output → Result Error Address
anchor_owner a none = must a.unlock_conditions.governor_address
anchor_owner a (some (anchor next)) =
    if a.state_index == next.state_index
    then must a.unlock_conditions.governor_address
    else if u32 (a.state_index + 1) == next.state_index
    then must a.unlock_conditions.state_controller_address
    else err owner_transition_dependent_output_next_invalid
anchor_owner a (some next) = err owner_transition_dependent_output_next_invalid

abbrev account_of : Option ℕ → Result Error Address
account_of none = panic
account_of (some a) = ok (account_address a)

abbrev pub from_condition {ℓ} : {A : Type ℓ} → Result ConditionError A → Result Error A
from_condition (ok value) = ok value
from_condition (err e) = err (condition_failed e)
from_condition panic = panic

-- A missing commitment input is an error where an expiration has to be checked.
unfoldable pub check_expiration_at :
    Output → Option ℕ → ProtocolParameters → Result Error (Option Address)
check_expiration_at output none parameters = err expiration_commitment_input_missing
check_expiration_at output (some slot) parameters = from_condition (
    check_expiration_condition (unlock_condition_set output)
      (u32 (slot + parameters.min_committable_age)) (u32 (slot + parameters.max_committable_age)))

unfoldable pub check_expiration :
    Output → Option ℕ → ProtocolParameters → Result Error (Option Address)
check_expiration output commitment_input parameters =
    elim ((unlock_condition_set output).expiration) [
      | none ↦ ok none
      | some expiration ↦ check_expiration_at output commitment_input parameters
    ]

-- An anchor output is added to the unlocked chains only where its state changes.
unfoldable pub is_state_transition : Output → Option Output → Bool
is_state_transition (anchor current) (some (anchor next)) =
    u32 (current.state_index + 1) == next.state_index
is_state_transition (anchor current) next = false
is_state_transition output next = true

module _ (crypto : Crypto) (parameters : ProtocolParameters) where
  unfoldable pub address_to_unlock : Output → OutputId → ChainOutputSet → Result Error Address
  address_to_unlock (anchor a) id out_chains =
      anchor_owner a (find_chain out_chains (resolve_chain crypto (anchor_id a.anchor_id) id))
  address_to_unlock (foundry f) id out_chains = account_of f.unlock_conditions.immutable_account
  address_to_unlock (basic o) id out_chains = must o.unlock_conditions.address
  address_to_unlock (account o) id out_chains = must o.unlock_conditions.address
  address_to_unlock (nft o) id out_chains = must o.unlock_conditions.address
  address_to_unlock (delegation o) id out_chains = must o.unlock_conditions.address

  -- The address that `unlockOutput` unlocks: the one of the owner, or the return address of an
  -- expired output, without its restriction.
  unfoldable pub owner_to_unlock :
      Output → OutputId → ChainOutputSet → Option ℕ → Result Error Address
  owner_to_unlock input id out_chains commitment_input = do
    owner ← address_to_unlock input id out_chains
    actual ← check_expiration input commitment_input parameters
    ok (resolve_underlying_address (elim actual [ none ↦ owner | some expired_to ↦ expired_to ]))

  unfoldable pub unlock_output :
      ℕ
      → Output
      → OutputId
      → Unlock
      → ℕ
      → ChainOutputSet
      → Option ℕ
      → UnlockedAddressesSet
      → Result Error UnlockedAddressesSet
  unlock_output message input id u input_index out_chains commitment_input s = do
    owner ← owner_to_unlock input id out_chains commitment_input
    unlock_address crypto message u owner s input_index false

  -- The address of the chain that an unlocked input unlocks.
  unfoldable pub unlocked_chain : Output → OutputId → ChainOutputSet → Result Error (Option Address)
  unlocked_chain input id out_chains = do
    chain ← chain_id input
    ok (elim chain [
      | none ↦ none
      | some given ↦
          let chain = resolve_chain crypto given id in
          if is_state_transition input (find_chain out_chains chain) then to_address chain else none
    ])

  abbrev pub add_unlocked_chain : UnlockedAddressesSet → Option Address → ℕ → UnlockedAddressesSet
  add_unlocked_chain s none input_index = s
  add_unlocked_chain s (some chain) input_index = add_unlocked crypto s chain input_index

  -- The loop of `ValidateUnlocks` over the inputs and their unlocks, from an index on.
  unfoldable pub unlock_inputs :
      ℕ
      → ResolvedInputs
      → ChainOutputSet
      → List OutputId
      → Unlocks
      → ℕ
      → UnlockedAddressesSet
      → Result Error UnlockedAddressesSet
  unlock_inputs message resolved out_chains [] us index s = ok s
  unlock_inputs message resolved out_chains (id ∷ ids) nil index s = panic
  unlock_inputs message resolved out_chains (id ∷ ids) (cons u us) index s = do
    input ← must (resolved.input_set id)
    s' ← unlock_output message input id u (u16 index) out_chains resolved.commitment_input s
    chain ← unlocked_chain input id out_chains
    unlock_inputs message resolved out_chains ids us (index + 1)
        (add_unlocked_chain s' chain (u16 index))

  unfoldable pub validate_unlocks :
      Transaction → ResolvedInputs → Unlocks → Result Error UnlockedAddressesSet
  validate_unlocks transaction resolved us = do
    out_chains ← chain_output_set crypto transaction.id transaction.outputs 0 []
    unlock_inputs transaction.signing_message resolved out_chains transaction.inputs us 0
        nothing_unlocked
