-- ===== src/Nova/Anchor/Authority.antt =====
-- vm/vm.go and vm/nova/vm.go: who changes an anchor, and what each of them can change.
use axon_go.Common.{
  ℕ, ◌+◌, ◌==◌, ◌≡◌, refl, sym, ap, ◌∙◌, arith, Bool, true, false, not, Option, none, some, List,
  [], get_elem?, u32, Bool-cases, inl, inr,
}
use axon_go.Common.Result.{Result, ok, reject_if, >>=-eq-ok}
use axon_go.Merkle.{bytes_equal}
use axon_go.Address.{Address, OutputId, key, address_equal, Crypto}
use axon_go.Outputs.{
  Output, anchor, AnchorOutput, anchor_id, ChainOutputSet, find_chain, resolve_chain,
  chain_output_set, unlock_condition_set, must,
}
use axon_go.Outputs.Features.{same_option, features_equal, feature_unchanged}
use axon_go.Unlocks.{Unlocks}
use axon_go.Vm
use axon_go.Vm.{UnlockedAddressesSet}
use axon_go.Vm.Inputs.{
  Transaction, ResolvedInputs, resolve_underlying_address, anchor_owner, check_expiration,
  address_to_unlock, owner_to_unlock, validate_unlocks,
}
use axon_go.Vm.Backed.{Context, Backed}
use axon_go.Vm.Backed.Transactions.{IsOwned, context, AreBacked, validate_unlocks-AreBacked}
use axon_go.Nova.{
  Error, ProtocolParameters, anchor_invalid_state_transition, anchor_invalid_governance_transition,
}
use axon_go.Nova.Anchor.{
  unchanged_or, anchor_governance_stvf, same_address, anchor_state_stvf, anchor_state_change_valid,
  anchor_state_change, anchor_stvf,
}

-- A step of an anchor that its governor takes, or its state controller, with what such a step leaves as
-- it is.
pub data IsAuthorized (c : Context) (current next : AnchorOutput) : Type 0 where
  by_governor :
      (governor : Address)
      → current.unlock_conditions.governor_address ≡ some governor
      → Backed c (key c.crypto (resolve_underlying_address governor))
      → next.state_index ≡ current.state_index
      → next.amount ≡ current.amount
      → same_option bytes_equal current.features.state_metadata next.features.state_metadata ≡ true
      → IsAuthorized c current next
  by_state_controller :
      (controller next_controller governor next_governor : Address)
      → current.unlock_conditions.state_controller_address ≡ some controller
      → Backed c (key c.crypto (resolve_underlying_address controller))
      → next.state_index ≡ u32 (current.state_index + 1)
      → next.unlock_conditions.state_controller_address ≡ some next_controller
      → address_equal c.crypto controller next_controller ≡ true
      → current.unlock_conditions.governor_address ≡ some governor
      → next.unlock_conditions.governor_address ≡ some next_governor
      → address_equal c.crypto governor next_governor ≡ true
      → same_option bytes_equal current.features.metadata next.features.metadata ≡ true
      → IsAuthorized c current next

must-some :
    {E : Type 0} (o : Option Address) {a : Address}
    → ◌≡◌ {A = Result E Address} (must o) (ok a)
    → o ≡ some a
must-some none e = absurd (cc)
must-some (some b) e = cc

unchanged-same :
    (outer : Error) (before after : Option (List ℕ)) {r : Unit {0}}
    → unchanged_or outer (feature_unchanged before after) ≡ ok r
    → same_option bytes_equal before after ≡ true
unfolding feature_unchanged
unchanged-same outer before after e = ground arith

same_address-parts :
    (crypto : Crypto) (before after : Option Address)
    → same_address crypto before after ≡ ok true
    → (a : Address) × (b : Address) × (before ≡ some a)
      × (after ≡ some b)
      × (address_equal crypto a b ≡ true)
unfolding same_address
same_address-parts crypto none after e = absurd (cc)
same_address-parts crypto (some a) none e = absurd (cc)
same_address-parts crypto (some a) (some b) e = (a, b, refl, refl, cc)

-- The owner of an anchor that has a next state, where the output cannot expire.
module _ (c : Context) (id : OutputId) (current next : AnchorOutput) where
  anchor-owner :
      IsOwned c id
      → c.resolved.input_set id ≡ some (anchor current)
      → current.unlock_conditions.expiration ≡ none
      → find_chain c.out_chains (resolve_chain c.crypto (anchor_id current.anchor_id) id)
        ≡ some (anchor next)
      → (owner : Address) × (anchor_owner current (some (anchor next)) ≡ ok owner)
        × Backed c (key c.crypto (resolve_underlying_address owner))
  unfolding owner_to_unlock address_to_unlock check_expiration unlock_condition_set
  anchor-owner owned resolves lasting found =
      let is_anchor : owned.input ≡ anchor current =
        (let both = sym owned.resolves ∙ resolves in cc) in
      let owns : owner_to_unlock c.crypto c.parameters (anchor current) id c.out_chains
            c.resolved.commitment_input
          ≡ ok owned.owner =
        ap
          (λ (i : Output).
            owner_to_unlock c.crypto c.parameters i id c.out_chains c.resolved.commitment_input)
          (sym is_anchor)
        ∙ owned.owns in
      let (owner, by_anchor, e1) =
        >>=-eq-ok
          (anchor_owner current
            (find_chain c.out_chains (resolve_chain c.crypto (anchor_id current.anchor_id) id)))
          _ owns in
      let (actual, expired, e2) =
        >>=-eq-ok (check_expiration (anchor current) c.resolved.commitment_input c.parameters) _
          e1 in
      let no_expiration : actual ≡ none = ground (arith, expired, lasting) in
      let is_owner : resolve_underlying_address owner ≡ owned.owner =
        ground (arith, e2, no_expiration) in
      (owner, ap (anchor_owner current) (sym found) ∙ by_anchor, rw is_owner owned.backed)

  governed-IsAuthorized :
      (owner : Address)
      → (current.state_index == next.state_index) ≡ true
      → anchor_owner current (some (anchor next)) ≡ ok owner
      → Backed c (key c.crypto (resolve_underlying_address owner))
      → anchor_governance_stvf c.crypto current next ≡ ok tt
      → IsAuthorized c current next
  unfolding anchor_owner anchor_governance_stvf
  governed-IsAuthorized owner same owns backed e =
      let is_governor : must {E = Vm.Error} current.unlock_conditions.governor_address ≡ ok owner =
        ground (arith, same) in
      let (_, amount, e1) =
        >>=-eq-ok
          (reject_if (not (current.amount == next.amount)) anchor_invalid_governance_transition) _
          e in
      let (_, index, e2) =
        >>=-eq-ok
          (reject_if (not (current.state_index == next.state_index))
            anchor_invalid_governance_transition)
          _ e1 in
      by_governor owner (must-some current.unlock_conditions.governor_address is_governor) backed
        (ground arith) (ground arith)
        (unchanged-same anchor_invalid_governance_transition current.features.state_metadata
          next.features.state_metadata e2)

  controlled-IsAuthorized :
      (owner : Address)
      → (current.state_index == next.state_index) ≡ false
      → anchor_owner current (some (anchor next)) ≡ ok owner
      → Backed c (key c.crypto (resolve_underlying_address owner))
      → anchor_state_stvf c.crypto current next ≡ ok tt
      → IsAuthorized c current next
  unfolding anchor_owner anchor_state_stvf
  controlled-IsAuthorized owner other owns backed e =
      let before = current.unlock_conditions in
      let after = next.unlock_conditions in
      let (controller_same, controllers, e1) =
        >>=-eq-ok
          (same_address c.crypto before.state_controller_address after.state_controller_address) _
          e in
      let (_, kept, e2) =
        >>=-eq-ok (reject_if (not controller_same) anchor_invalid_state_transition) _ e1 in
      let (governor_same, governors, e3) =
        >>=-eq-ok (same_address c.crypto before.governor_address after.governor_address) _ e2 in
      let (_, kept', e4) =
        >>=-eq-ok (reject_if (not governor_same) anchor_invalid_state_transition) _ e3 in
      let (_, index, e5) =
        >>=-eq-ok
          (reject_if (not (u32 (current.state_index + 1) == next.state_index))
            anchor_invalid_state_transition)
          _ e4 in
      let stepped : u32 (current.state_index + 1) ≡ next.state_index = ground (arith, index) in
      let is_controller : must {E = Vm.Error} before.state_controller_address ≡ ok owner =
        ground (arith, other, stepped) in
      let controller_true : controller_same ≡ true = ground (arith, kept) in
      let governor_true : governor_same ≡ true = ground (arith, kept') in
      let (a, b, is_a, is_b, a_same) =
        same_address-parts c.crypto before.state_controller_address after.state_controller_address
          (controllers ∙ ap ok controller_true) in
      let (g, h, is_g, is_h, g_same) =
        same_address-parts c.crypto before.governor_address after.governor_address
          (governors ∙ ap ok governor_true) in
      let owner_is : a ≡ owner =
        (let both = sym is_a ∙ must-some before.state_controller_address is_controller in cc) in
      by_state_controller a b g h is_a (rw owner_is backed) (sym stepped) is_b a_same is_g is_h
        g_same
        (unchanged-same anchor_invalid_state_transition current.features.metadata
          next.features.metadata e5)

  anchor-IsAuthorized :
      (owner : Address)
      → anchor_owner current (some (anchor next)) ≡ ok owner
      → Backed c (key c.crypto (resolve_underlying_address owner))
      → anchor_state_change_valid c.crypto current next ≡ ok tt
      → (features_equal c.crypto current.immutable_features next.immutable_features ≡ true)
        × IsAuthorized c current next
  unfolding anchor_state_change_valid
  anchor-IsAuthorized owner owns backed e =
      let immutable = features_equal c.crypto current.immutable_features next.immutable_features in
      let (_, unchanged, e1) = >>=-eq-ok (reject_if (not immutable) _) _ e in
      let same : immutable ≡ true = ground (arith, unchanged) in
      elim (Bool-cases (current.state_index == next.state_index)) [
        | inl governance ↦ (
          same,
          governed-IsAuthorized owner governance owns backed (ground (arith, e1, governance)),
        )
        | inr state ↦
            (same, controlled-IsAuthorized owner state owns backed (ground (arith, e1, state)))
      ]

-- An anchor changes by its authority: where the unlocks of a transaction are accepted, an input of it is
-- an anchor output that does not expire, the transaction's outputs have a next state of this anchor,
-- and the transition to it is accepted, then the immutable features are kept, and one of two holds. The
-- state index is kept, the governor is backed, and neither the amount nor the state metadata changes;
-- or the state index grows by one, the state controller is backed, and neither the two addresses nor
-- the metadata changes.
pub anchor_stvf-IsAuthorized :
    (crypto : Crypto) (parameters : ProtocolParameters) (transaction : Transaction)
    (resolved : ResolvedInputs) (us : Unlocks) (s : UnlockedAddressesSet)
    (out_chains : ChainOutputSet) (j : ℕ) (id : OutputId) (current next : AnchorOutput)
    (can_destroy : Bool)
    → validate_unlocks crypto parameters transaction resolved us ≡ ok s
    → chain_output_set crypto {E = Vm.Error} transaction.id transaction.outputs 0 [] ≡ ok out_chains
    → get_elem? transaction.inputs j ≡ some id
    → resolved.input_set id ≡ some (anchor current)
    → current.unlock_conditions.expiration ≡ none
    → find_chain out_chains (resolve_chain crypto (anchor_id current.anchor_id) id)
      ≡ some (anchor next)
    → anchor_stvf crypto s can_destroy (anchor_state_change current next) ≡ ok tt
    → (features_equal crypto current.immutable_features next.immutable_features ≡ true)
      × IsAuthorized (context crypto parameters transaction resolved out_chains) current next
unfolding anchor_stvf
anchor_stvf-IsAuthorized crypto parameters transaction resolved us s out_chains j id current next
      can_destroy accepted chains at resolves lasting found e =
    let r : AreBacked crypto parameters transaction resolved s =
      validate_unlocks-AreBacked crypto parameters transaction resolved us s accepted in
    let same : r.out_chains ≡ out_chains = (let both = sym r.chains ∙ chains in cc) in
    let c : Context = context crypto parameters transaction resolved r.out_chains in
    let found' : find_chain r.out_chains (resolve_chain crypto (anchor_id current.anchor_id) id)
        ≡ some (anchor next) =
      ap
        (λ (o : ChainOutputSet).
          find_chain o (resolve_chain crypto (anchor_id current.anchor_id) id))
        same
      ∙ found in
    let (owner, owns, backed) =
      anchor-owner c id current next (r.owners j id at) resolves lasting found' in
    let (immutable, authorized) = anchor-IsAuthorized c id current next owner owns backed e in
    (immutable, rw same at authorized)
