-- ===== src/Vm/Backed/Transactions.antt =====
-- vm/vm.go: the owners of the inputs of a transaction and the addresses that `ValidateUnlocks` returns
-- are backed.
use axon_go.Common.{
  ℕ, zero, suc, ◌+◌, ◌≡◌, refl, ap, arith, Option, none, some, List, [], ◌∷◌, u16, false, ◌∙◌,
  get_elem?,
}
use axon_go.Common.Result.{Result, ok, >>=-eq-ok}
use axon_go.Address.{Address, key, OutputId, Crypto}
use axon_go.Nova.{ProtocolParameters}
use axon_go.Outputs.{Output, ChainOutputSet, chain_output_set, must}
use axon_go.Unlocks.{Unlock, Unlocks, nil, cons}
use axon_go.Vm.{Error, UnlockedAddressesSet, nothing_unlocked, find_key, find_index}
use axon_go.Vm.Inputs.{
  Transaction, ResolvedInputs, owner_to_unlock, unlock_output, unlocked_chain, add_unlocked_chain,
  unlock_inputs, validate_unlocks,
}
use axon_go.Vm.Backed.{Context, Backed, by_chain}
use axon_go.Vm.Backed.Sets.{IsSound, Unlocked, add_unlocked-IsSound, ok-injective}
use axon_go.Vm.Backed.Owners.{unlock_address-Unlocked}

-- The input resolves to an output, and the address that has to unlock this output is backed.
pub record IsOwned (c : Context) (id : OutputId) : Type 0 where
  pub input : Output
  pub owner : Address
  pub resolves : c.resolved.input_set id ≡ some input
  pub owns :
      owner_to_unlock c.crypto c.parameters input id c.out_chains c.resolved.commitment_input
      ≡ ok owner
  pub backed : Backed c (key c.crypto owner)

pub must-eq-ok :
    {A E : Type 0} (o : Option A) {a : A} → ◌≡◌ {A = Result E A} (must o) (ok a) → o ≡ some a
must-eq-ok none e = absurd (cc)
must-eq-ok (some b) e = cc

module _ (c : Context) where
  abbrev Owned : List OutputId → Type 0
  Owned ids = (j : ℕ) (id : OutputId) → get_elem? ids j ≡ some id → IsOwned c id

  Owned-cons : (id : OutputId) (ids : List OutputId) → IsOwned c id → Owned ids → Owned (id ∷ ids)
  Owned-cons id ids first rest zero found e = let same : id ≡ found = cc in rw (← same) first
  Owned-cons id ids first rest (suc j) found e = rest j found e

  add_unlocked_chain-IsSound :
      (s : UnlockedAddressesSet) (chain : Option Address) (i : ℕ)
      → IsSound c s
      → ((a : Address) → chain ≡ some a → Backed c (key c.crypto a))
      → IsSound c (add_unlocked_chain c.crypto c.parameters s chain i)
  add_unlocked_chain-IsSound s none i v backed = v
  add_unlocked_chain-IsSound s (some a) i v backed = add_unlocked-IsSound c s a i v (backed a refl)

  record IsUnlocked (input : Output) (id : OutputId) (s : UnlockedAddressesSet) : Type 0 where
    owner : Address
    owns :
        owner_to_unlock c.crypto c.parameters input id c.out_chains c.resolved.commitment_input
        ≡ ok owner
    backed : Backed c (key c.crypto owner)
    sound : IsSound c s

  unlock_output-IsUnlocked :
      (input : Output) (id : OutputId) (u : Unlock) (i : ℕ) (s s' : UnlockedAddressesSet)
      → IsSound c s
      → unlock_output c.crypto c.parameters c.message input id u i c.out_chains
          c.resolved.commitment_input s
        ≡ ok s'
      → IsUnlocked input id s'
  unfolding unlock_output
  unlock_output-IsUnlocked input id u i s s' v e =
      let (owner, owns, e1) =
        >>=-eq-ok
          (owner_to_unlock c.crypto c.parameters input id c.out_chains c.resolved.commitment_input)
          _ e in
      let unlocked : Unlocked c s' owner = unlock_address-Unlocked c u owner s s' i false v e1 in
      record { owner = owner; owns = owns; backed = unlocked.backed; sound = unlocked.sound }

  chain-Backed :
      (index : ℕ) (id : OutputId) (input : Output) (s : UnlockedAddressesSet)
      (chain : Option Address) (a : Address)
      → get_elem? c.inputs index ≡ some id
      → c.resolved.input_set id ≡ some input
      → IsUnlocked input id s
      → unlocked_chain c.crypto c.parameters input id c.out_chains ≡ ok chain
      → chain ≡ some a
      → Backed c (key c.crypto a)
  chain-Backed index id input s chain a here resolves unlocked e is_chain =
      by_chain index id input unlocked.owner a here resolves unlocked.owns (e ∙ ap ok is_chain) refl
        unlocked.backed

  -- The inputs that are left stand in the transaction from an index on.
  abbrev From : List OutputId → ℕ → Type 0
  From ids index =
      (j : ℕ) (id : OutputId) → get_elem? ids j ≡ some id → get_elem? c.inputs (index + j) ≡ some id

  From-rest :
      (id : OutputId) (ids : List OutputId) (index : ℕ)
      → From (id ∷ ids) index
      → From ids (index + 1)
  From-rest id ids index within j found e =
      let moved : index + 1 + j ≡ index + suc j = omega arith in
      ap (get_elem? c.inputs) moved ∙ within (suc j) found e

  unlock_inputs-IsSound :
      (ids : List OutputId) (us : Unlocks) (index : ℕ) (s s' : UnlockedAddressesSet)
      → From ids index
      → IsSound c s
      → unlock_inputs c.crypto c.parameters c.message c.resolved c.out_chains ids us index s ≡ ok s'
      → IsSound c s' × Owned ids
  unfolding unlock_inputs
  unlock_inputs-IsSound [] us index s s' within v e =
      (rw (← ok-injective e) v, λ j id absent. absurd (cc))
  unlock_inputs-IsSound (id ∷ ids) nil index s s' within v e = absurd (cc)
  unlock_inputs-IsSound (id ∷ ids) (cons u us) index s s' within v e =
      let (input, resolved, e1) = >>=-eq-ok (must (c.resolved.input_set id)) _ e in
      let resolves = must-eq-ok (c.resolved.input_set id) resolved in
      let (s1, output_unlocked, e2) =
        >>=-eq-ok
          (unlock_output c.crypto c.parameters c.message input id u (u16 index) c.out_chains
            c.resolved.commitment_input s)
          _ e1 in
      let (chain, chain_unlocked, e3) =
        >>=-eq-ok (unlocked_chain c.crypto c.parameters input id c.out_chains) _ e2 in
      let unlocked = unlock_output-IsUnlocked input id u (u16 index) s s1 v output_unlocked in
      let first : index ≡ index + 0 = omega arith in
      let here : get_elem? c.inputs index ≡ some id =
        ap (get_elem? c.inputs) first ∙ within 0 id refl in
      let (sound, rest) =
        unlock_inputs-IsSound ids us (index + 1)
          (add_unlocked_chain c.crypto c.parameters s1 chain (u16 index)) s'
          (From-rest id ids index within)
          (add_unlocked_chain-IsSound s1 chain (u16 index) unlocked.sound (λ a is_chain.
            chain-Backed index id input s1 chain a here resolves unlocked chain_unlocked is_chain))
          e3 in
      (
        sound,
        Owned-cons id ids
            (record {
              input = input;
              owner = unlocked.owner;
              resolves = resolves;
              owns = unlocked.owns;
              backed = unlocked.backed;
            })
            rest,
      )

  nothing_unlocked-IsSound : IsSound c nothing_unlocked
  unfolding find_key find_index
  nothing_unlocked-IsSound = record {
    keys = λ k cell absent. absurd (cc);
    signatures = λ i cell signature absent. absurd (cc);
  }

-- The context that a transaction is validated in.
abbrev pub context :
    Crypto → ProtocolParameters → Transaction → ResolvedInputs → ChainOutputSet → Context
context crypto parameters transaction resolved out_chains = record {
  crypto = crypto;
  parameters = parameters;
  message = transaction.signing_message;
  resolved = resolved;
  out_chains = out_chains;
  inputs = transaction.inputs;
}

-- Every input of the transaction resolves to an output whose owner is backed, and every key of the set
-- is backed.
pub record AreBacked (crypto : Crypto) (parameters : ProtocolParameters) (transaction : Transaction)
    (resolved : ResolvedInputs) (s : UnlockedAddressesSet) : Type 0 where
  pub out_chains : ChainOutputSet
  pub chains :
      chain_output_set crypto {E = Error} transaction.id transaction.outputs 0 [] ≡ ok out_chains
  pub owners :
      (j : ℕ) (id : OutputId)
      → get_elem? transaction.inputs j ≡ some id
      → IsOwned (context crypto parameters transaction resolved out_chains) id
  pub keys :
      (k : List ℕ) (cell : ℕ)
      → find_key s.unlocked_addrs_by_addr_key k ≡ some cell
      → Backed (context crypto parameters transaction resolved out_chains) k

-- Where the unlocks of a transaction are accepted, every input resolves to an output, and the address
-- that has to unlock it is backed; and every key in the set of unlocked addresses that is returned is
-- backed. So each of them goes back, through finitely many owners of inputs that unlock chains and
-- addresses whose weights reach the threshold of a multi address, to signatures of the transaction's
-- message that verify with public keys that addresses are made of.
pub validate_unlocks-AreBacked :
    (crypto : Crypto) (parameters : ProtocolParameters) (transaction : Transaction)
    (resolved : ResolvedInputs) (us : Unlocks) (s : UnlockedAddressesSet)
    → validate_unlocks crypto parameters transaction resolved us ≡ ok s
    → AreBacked crypto parameters transaction resolved s
unfolding validate_unlocks
validate_unlocks-AreBacked crypto parameters transaction resolved us s e =
    let (out_chains, chains, e1) =
      >>=-eq-ok (chain_output_set crypto transaction.id transaction.outputs 0 []) _ e in
    let c : Context = context crypto parameters transaction resolved out_chains in
    let (sound, owned) =
      unlock_inputs-IsSound c transaction.inputs us 0 nothing_unlocked s
        (λ j id found. ap (get_elem? transaction.inputs) (omega arith) ∙ found)
        (nothing_unlocked-IsSound c) e1 in
    record { out_chains = out_chains; chains = chains; owners = owned; keys = sound.keys }
