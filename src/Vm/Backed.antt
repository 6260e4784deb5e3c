-- ===== src/Vm/Backed.antt =====
-- vm/vm.go: what it takes for an address to be unlocked, as a relation that is independent of the order
-- of the inputs and of the unlocks. Addresses are told by their keys, as in the code's maps.
pub mod Sets
pub mod Addresses
pub mod Owners
pub mod Transactions
use axon_go.Common.{ℕ, ◌+◌, ◌≤◌, ◌≡◌, true, some, List, get_elem?}
use axon_go.Common.Result.{ok}
use axon_go.Address.{
  Address, multi_address, AddressesWithWeight, none_left, address_with_weight, key, OutputId,
  Signature, matches_address, Crypto,
}
use axon_go.Nova.{ProtocolParameters}
use axon_go.Outputs.{Output, ChainOutputSet}
use axon_go.Vm.Inputs.{ResolvedInputs, owner_to_unlock, unlocked_chain}

-- What the unlocking of one transaction refers to.
pub record Context : Type 0 where
  pub crypto : Crypto
  pub parameters : ProtocolParameters
  pub message : ℕ
  pub resolved : ResolvedInputs
  pub out_chains : ChainOutputSet
  pub inputs : List OutputId

-- An address is backed by a signature of the message with a public key that the address is made of,
-- by backed addresses of enough weight if it is a multi address, or, if it is the address of a chain,
-- by the backed owner of an input that unlocks the chain.
mutual
  pub data Backed (c : Context) : List ℕ → Type 0 where
    by_signature :
        {k : List ℕ} (address : Address) (signature : Signature)
        → k ≡ key c.crypto address
        → matches_address c.crypto signature address ≡ true
        → c.crypto.verify signature.public_key c.message signature.signature ≡ true
        → Backed c k
    by_weight :
        {k : List ℕ} (addresses : AddressesWithWeight) (threshold weight : ℕ)
        → k ≡ key c.crypto (multi_address addresses threshold)
        → threshold ≤ weight
        → Reached c addresses weight
        → Backed c k
    by_chain :
        {k : List ℕ} (i : ℕ) (id : OutputId) (input : Output) (owner chain : Address)
        → get_elem? c.inputs i ≡ some id
        → c.resolved.input_set id ≡ some input
        → owner_to_unlock c.crypto c.parameters input id c.out_chains c.resolved.commitment_input
          ≡ ok owner
        → unlocked_chain c.crypto c.parameters input id c.out_chains ≡ ok (some chain)
        → k ≡ key c.crypto chain
        → Backed c (key c.crypto owner)
        → Backed c k

  -- The weight that backed addresses of a list come to, where each counts once at most.
  pub data Reached (c : Context) : AddressesWithWeight → ℕ → Type 0 where
    nobody : {n : ℕ} → n ≡ 0 → Reached c none_left n
    without :
        {addresses : AddressesWithWeight} {n : ℕ} (a : Address) (w : ℕ)
        → Reached c addresses n
        → Reached c (address_with_weight a w addresses) n
    with_weight :
        {addresses : AddressesWithWeight} {n : ℕ} (a : Address) (w m : ℕ)
        → n ≡ w + m
        → Backed c (key c.crypto a)
        → Reached c addresses m
        → Reached c (address_with_weight a w addresses) n
