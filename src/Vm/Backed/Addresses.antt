-- ===== src/Vm/Backed/Addresses.antt =====
-- vm/vm.go: an address that an unlock unlocks is backed.
use axon_go.Common.{
  ℕ, ◌==◌, ◌≡◌, refl, arith, Bool, not, ◌||◌, Option, none, some, Option-cases, inl, inr,
  if◌then◌else◌,
}
use axon_go.Common.Result.{ok, ◌>>=◌, ◌>>◌, reject_if, >>=-eq-ok}
use axon_go.Unlocks.{
  Unlock, signature_unlock, reference_unlock, account_unlock, anchor_unlock, nft_unlock,
  multi_unlock, empty_unlock,
}
use axon_go.Address.{Address, key, matches_address}
use axon_go.Vm.{
  wrap, UnlockedAddressesSet, find_key, find_index, load, add_reference, add_unlocked, Referential,
  referential, UnlockedAddress, unlocked_by_another, signature_mismatch,
  chain_address_unlock_invalid, direct_unlockable_address_unlock_invalid,
  multi_address_unlock_invalid, unlock_signature_invalid,
}
use axon_go.Vm.Unlocking.{
  unlock_by_signature, referential_unlock_non_directly_unlockable, add_owner,
  referential_unlock_directly_unlockable, unlock_chain_address, unlock_direct_by_reference,
  unlock_direct_unlockable_address, unlock_multi_by_reference,
}
use axon_go.Vm.Backed.{Context, Backed, by_signature}
use axon_go.Vm.Backed.Sets.{
  wrap-eq-ok, ok-injective, IsSound, Unlocked, add_unlocked-IsSound, add_reference-IsSound,
  by_check, unlock_by_signature-Unlocked, reference-Unlocked,
}

module _ (c : Context) where
  add_owner-IsSound :
      (s : UnlockedAddressesSet) (owner : Address) (i : ℕ)
      → IsSound c s
      → Backed c (key c.crypto owner)
      → IsSound c (add_owner c.crypto c.message s owner i)
  unfolding add_owner
  add_owner-IsSound s owner i v backed =
      elim (find_key s.unlocked_addrs_by_addr_key (key c.crypto owner))
        as (λ found.
          IsSound c (elim found [ none ↦ add_unlocked c.crypto s owner i | some cell ↦ s ])) [
            | none ↦ add_unlocked-IsSound c s owner i v backed
            | some cell ↦ v
          ]

  direct-Unlocked :
      (s s' : UnlockedAddressesSet) (owner : Address) (i referenced : ℕ) (check : Bool)
      → IsSound c s
      → referential_unlock_directly_unlockable c.crypto c.message s owner i referenced check ≡ ok s'
      → Unlocked c s' owner
  unfolding referential_unlock_directly_unlockable
  direct-Unlocked s s' owner i referenced check v e =
      elim (Option-cases (find_index s.signature_unlocked_addrs_by_index referenced)) [
        | inl absent ↦ absurd (ground arith)
        | inr ((cell, signature), found) ↦
            let e1 : (load s cell >>= λ (object : UnlockedAddress).
            (reject_if (not (object.unlocked_at_input_index == referenced)) unlocked_by_another
              >> (reject_if (not (matches_address c.crypto signature owner)) signature_mismatch
                  >> ok (
                      if check
                      then s
                      else add_owner c.crypto c.message (add_reference s cell i) owner i))))
                ≡ ok s' =
              ground (arith, found) in
            let (object, _, e2) = >>=-eq-ok (load s cell) _ e1 in
            let (_, _, e3) =
              >>=-eq-ok
                (reject_if (not (object.unlocked_at_input_index == referenced)) unlocked_by_another)
                _ e2 in
            let (_, matches, e4) =
              >>=-eq-ok
                (reject_if (not (matches_address c.crypto signature owner)) signature_mismatch) _
                e3 in
            let backed : Backed c (key c.crypto owner) =
              by_signature owner signature refl (ground arith)
                (v.signatures referenced cell signature found) in
            by_check c check owner s _ s' v
              (add_owner-IsSound (add_reference s cell i) owner i
                (add_reference-IsSound c s cell i v) backed)
              backed (ok-injective e4)
      ]

  pub unlock_chain_address-Unlocked :
      (u : Unlock) (owner : Address) (s s' : UnlockedAddressesSet) (i : ℕ) (check : Bool)
      → IsSound c s
      → unlock_chain_address c.crypto c.message u owner s i check ≡ ok s'
      → Unlocked c s' owner
  unfolding unlock_chain_address
  unlock_chain_address-Unlocked u owner s s' i check v e = elim (Option-cases (referential u)) [
    | inl absent ↦ absurd (ground arith)
    | inr (r, found) ↦
        let e1 : (reject_if (not r.chainable || not (r.source_allowed owner))
                chain_address_unlock_invalid
              >> wrap chain_address_unlock_invalid (
                  referential_unlock_non_directly_unlockable c.crypto c.message s owner i
                    r.referenced_input_index check))
            ≡ ok s' =
          ground (arith, found) in
        let (_, _, e2) =
          >>=-eq-ok
            (reject_if (not r.chainable || not (r.source_allowed owner))
              chain_address_unlock_invalid)
            _ e1 in
        reference-Unlocked c s s' owner i r.referenced_input_index check v (wrap-eq-ok _ _ e2)
  ]

  by_reference-Unlocked :
      (r : Option Referential) (owner : Address) (s s' : UnlockedAddressesSet) (i : ℕ)
      (check : Bool)
      → IsSound c s
      → unlock_direct_by_reference c.crypto c.message r owner s i check ≡ ok s'
      → Unlocked c s' owner
  unfolding unlock_direct_by_reference
  by_reference-Unlocked none owner s s' i check v e = absurd (cc)
  by_reference-Unlocked (some r) owner s s' i check v e =
      let (_, _, e1) =
        >>=-eq-ok
          (reject_if (r.chainable || not (r.source_allowed owner))
            direct_unlockable_address_unlock_invalid)
          _ e in
      direct-Unlocked s s' owner i r.referenced_input_index check v (wrap-eq-ok _ _ e1)

  pub multi_by_reference-Unlocked :
      (r : Option Referential) (owner : Address) (s s' : UnlockedAddressesSet) (i : ℕ)
      (check : Bool)
      → IsSound c s
      → unlock_multi_by_reference c.crypto c.message r owner s i check ≡ ok s'
      → Unlocked c s' owner
  unfolding unlock_multi_by_reference
  multi_by_reference-Unlocked none owner s s' i check v e = absurd (cc)
  multi_by_reference-Unlocked (some r) owner s s' i check v e =
      let (_, _, e1) =
        >>=-eq-ok
          (reject_if (r.chainable || not (r.source_allowed owner)) multi_address_unlock_invalid) _
          e in
      reference-Unlocked c s s' owner i r.referenced_input_index check v (wrap-eq-ok _ _ e1)

  pub unlock_direct-Unlocked :
      (u : Unlock) (owner : Address) (s s' : UnlockedAddressesSet) (i : ℕ) (check : Bool)
      → IsSound c s
      → unlock_direct_unlockable_address c.crypto c.message u owner s i check ≡ ok s'
      → Unlocked c s' owner
  unfolding unlock_direct_unlockable_address
  unlock_direct-Unlocked (signature_unlock signature) owner s s' i check v e =
      elim (Option-cases (find_key s.unlocked_addrs_by_addr_key (key c.crypto owner))) [
        | inr (cell, found) ↦ absurd (ground arith)
        | inl new ↦
            let e1 : wrap direct_unlockable_address_unlock_invalid (
                  wrap unlock_signature_invalid
                    (unlock_by_signature c.crypto c.message s owner signature i check))
                ≡ ok s' =
              ground (arith, new) in
            unlock_by_signature-Unlocked c s s' owner signature i check v
              (wrap-eq-ok _ _ (wrap-eq-ok _ _ e1))
      ]
  unlock_direct-Unlocked (reference_unlock j) owner s s' i check v e =
      by_reference-Unlocked _ owner s s' i check v e
  unlock_direct-Unlocked (account_unlock j) owner s s' i check v e =
      by_reference-Unlocked _ owner s s' i check v e
  unlock_direct-Unlocked (anchor_unlock j) owner s s' i check v e =
      by_reference-Unlocked _ owner s s' i check v e
  unlock_direct-Unlocked (nft_unlock j) owner s s' i check v e =
      by_reference-Unlocked _ owner s s' i check v e
  unlock_direct-Unlocked (multi_unlock us) owner s s' i check v e =
      by_reference-Unlocked _ owner s s' i check v e
  unlock_direct-Unlocked empty_unlock owner s s' i check v e =
      by_reference-Unlocked _ owner s s' i check v e
