-- ===== src/Vm/Backed/Owners.antt =====
-- vm/vm.go: whatever the owner of an input is, the unlock that unlocks it shows that it is backed; a
-- multi address is so by the weights of the addresses that its unlocks unlock.
use axon_go.Common.{
  ℕ, ◌+◌, ◌==◌, ◌≤◌, ◌≡◌, refl, arith, Bool, true, false, not, ltb, u16, Option-cases, inl, inr,
}
use axon_go.Common.Result.{ok, ◌>>=◌, ◌>>◌, reject_if, >>=-eq-ok}
use axon_go.Unlocks.{
  Unlock, Unlocks, nil, cons, signature_unlock, reference_unlock, account_unlock, anchor_unlock,
  nft_unlock, multi_unlock, empty_unlock,
}
use axon_go.Address.{
  Address, ed25519_address, account_address, nft_address, anchor_address,
  implicit_account_creation_address, multi_address, restricted_address, AddressesWithWeight,
  none_left, address_with_weight, key,
}
use axon_go.Vm.{
  wrap, UnlockedAddressesSet, find_key, add_unlocked, multi_address_unlock_invalid,
  multi_address_length_unlock_length_mismatch, multi_address_unlock_threshold_not_reached,
}
use axon_go.Vm.Unlocking.{unlock_address, unlock_weights, length_unlocks, length_addresses}
use axon_go.Vm.Backed.{Context, Backed, by_weight, Reached, nobody, without, with_weight}
use axon_go.Vm.Backed.Sets.{
  wrap-eq-ok, reject_if-eq-ok, ok-injective, IsSound, Unlocked, add_unlocked-IsSound,
}
use axon_go.Vm.Backed.Addresses.{
  unlock_chain_address-Unlocked, multi_by_reference-Unlocked, unlock_direct-Unlocked,
}

-- The weight that a loop adds, of which some backed addresses have at least as much.
record IsReached (c : Context) (addresses : AddressesWithWeight) (before after : ℕ) : Type 0 where
  weight : ℕ
  enough : after ≤ before + weight
  reached : Reached c addresses weight

module _ (c : Context) where
  Reached-nobody : (addresses : AddressesWithWeight) → Reached c addresses 0
  Reached-nobody none_left = nobody refl
  Reached-nobody (address_with_weight a w rest) = without a w (Reached-nobody rest)

  skip-IsReached :
      (a : Address) (w before after : ℕ) (rest : AddressesWithWeight)
      → IsReached c rest before after
      → IsReached c (address_with_weight a w rest) before after
  skip-IsReached a w before after rest r = record {
    weight = r.weight;
    enough = r.enough;
    reached = without a w r.reached;
  }

  take-IsReached :
      (a : Address) (w before after : ℕ) (rest : AddressesWithWeight)
      → Backed c (key c.crypto a)
      → IsReached c rest (u16 (before + w)) after
      → IsReached c (address_with_weight a w rest) before after
  take-IsReached a w before after rest backed r =
      let bound : after ≤ u16 (before + w) + r.weight = r.enough in
      record {
        weight = w + r.weight;
        enough = omega arith;
        reached = with_weight a w r.weight refl backed r.reached;
      }

  multi-Backed :
      (addresses : AddressesWithWeight) (threshold after : ℕ)
      → IsReached c addresses 0 after
      → ltb after threshold ≡ false
      → Backed c (key c.crypto (multi_address addresses threshold))
  multi-Backed addresses threshold after r over =
      let bound : after ≤ 0 + r.weight = r.enough in
      by_weight addresses threshold r.weight refl (ground arith) r.reached

  multi-Unlocked :
      (us : Unlocks) (addresses : AddressesWithWeight) (threshold : ℕ) (s s' : UnlockedAddressesSet)
      (i : ℕ)
      → IsSound c s
      → ((after : ℕ)
          → unlock_weights c.crypto c.message us addresses 0 s i ≡ ok after
          → IsReached c addresses 0 after)
      → (reject_if
            (not (length_unlocks us == length_addresses addresses))
            multi_address_length_unlock_length_mismatch
          >> (unlock_weights c.crypto c.message us addresses 0 s i >>= λ weight.
              reject_if (ltb weight threshold) multi_address_unlock_threshold_not_reached
              >> ok (add_unlocked c.crypto s (multi_address addresses threshold) i)))
        ≡ ok s'
      → Unlocked c s' (multi_address addresses threshold)
  multi-Unlocked us addresses threshold s s' i v reached e =
      let (_, _, e1) =
        >>=-eq-ok
          (reject_if (not (length_unlocks us == length_addresses addresses))
            multi_address_length_unlock_length_mismatch)
          _ e in
      let (after, weighed, e2) =
        >>=-eq-ok (unlock_weights c.crypto c.message us addresses 0 s i) _ e1 in
      let (_, over, e3) =
        >>=-eq-ok (reject_if (ltb after threshold) multi_address_unlock_threshold_not_reached) _
          e2 in
      let backed : Backed c (key c.crypto (multi_address addresses threshold)) =
        multi-Backed addresses threshold after (reached after weighed)
          (reject_if-eq-ok (ltb after threshold) multi_address_unlock_threshold_not_reached over) in
      let same : add_unlocked c.crypto s (multi_address addresses threshold) i ≡ s' =
        ok-injective e3 in
      rw (← same) (record {
        sound = add_unlocked-IsSound c s (multi_address addresses threshold) i v backed;
        backed = backed;
      })

mutual
  unfolding unlock_address unlock_weights

  pub unlock_address-Unlocked :
      (c : Context) (u : Unlock) (owner : Address) (s s' : UnlockedAddressesSet) (i : ℕ)
      (check : Bool)
      → IsSound c s
      → unlock_address c.crypto c.message u owner s i check ≡ ok s'
      → Unlocked c s' owner
  unlock_address-Unlocked c u (ed25519_address a) s s' i check v e =
      unlock_direct-Unlocked c u (ed25519_address a) s s' i check v e
  unlock_address-Unlocked c u (implicit_account_creation_address a) s s' i check v e =
      unlock_direct-Unlocked c u (implicit_account_creation_address a) s s' i check v e
  unlock_address-Unlocked c u (account_address a) s s' i check v e =
      unlock_chain_address-Unlocked c u (account_address a) s s' i check v e
  unlock_address-Unlocked c u (nft_address a) s s' i check v e =
      unlock_chain_address-Unlocked c u (nft_address a) s s' i check v e
  unlock_address-Unlocked c u (anchor_address a) s s' i check v e =
      unlock_chain_address-Unlocked c u (anchor_address a) s s' i check v e
  unlock_address-Unlocked c u (restricted_address underlying capabilities) s s' i check v e =
      absurd (cc)
  unlock_address-Unlocked c (multi_unlock us) (multi_address addresses threshold) s s' i check v e =
      elim (Option-cases (
        find_key s.unlocked_addrs_by_addr_key (key c.crypto (multi_address addresses threshold)))) [
          | inr (cell, found) ↦ absurd (ground arith)
          | inl new ↦
              let e1 : wrap multi_address_unlock_invalid (
                    reject_if (not (length_unlocks us == length_addresses addresses))
                      multi_address_length_unlock_length_mismatch
                    >> (unlock_weights c.crypto c.message us addresses 0 s i >>= λ weight.
                        reject_if (ltb weight threshold) multi_address_unlock_threshold_not_reached
                        >> ok (add_unlocked c.crypto s (multi_address addresses threshold) i)))
                  ≡ ok s' =
                ground (arith, new) in
              multi-Unlocked c us addresses threshold s s' i v
                (λ after weighed. unlock_weights-IsReached c us addresses 0 after s i v weighed)
                (wrap-eq-ok _ _ e1)
        ]
  unlock_address-Unlocked c (signature_unlock x) (multi_address ws t) s s' i check v e =
      multi_by_reference-Unlocked c _ (multi_address ws t) s s' i check v e
  unlock_address-Unlocked c (reference_unlock x) (multi_address ws t) s s' i check v e =
      multi_by_reference-Unlocked c _ (multi_address ws t) s s' i check v e
  unlock_address-Unlocked c (account_unlock x) (multi_address ws t) s s' i check v e =
      multi_by_reference-Unlocked c _ (multi_address ws t) s s' i check v e
  unlock_address-Unlocked c (anchor_unlock x) (multi_address ws t) s s' i check v e =
      multi_by_reference-Unlocked c _ (multi_address ws t) s s' i check v e
  unlock_address-Unlocked c (nft_unlock x) (multi_address ws t) s s' i check v e =
      multi_by_reference-Unlocked c _ (multi_address ws t) s s' i check v e
  unlock_address-Unlocked c empty_unlock (multi_address ws t) s s' i check v e =
      multi_by_reference-Unlocked c _ (multi_address ws t) s s' i check v e

  unlock_weights-IsReached :
      (c : Context) (us : Unlocks) (addresses : AddressesWithWeight) (before after : ℕ)
      (s : UnlockedAddressesSet) (i : ℕ)
      → IsSound c s
      → unlock_weights c.crypto c.message us addresses before s i ≡ ok after
      → IsReached c addresses before after
  unlock_weights-IsReached c nil addresses before after s i v e =
      let same : before ≡ after = ok-injective e in
      record { weight = 0; enough = omega arith; reached = Reached-nobody c addresses }
  unlock_weights-IsReached c (cons u us) none_left before after s i v e = absurd (cc)
  unlock_weights-IsReached c (cons empty_unlock us) (address_with_weight a w rest) before after s i
        v e =
      skip-IsReached c a w before after rest
        (unlock_weights-IsReached c us rest before after s i v e)
  unlock_weights-IsReached c (cons (multi_unlock vs) us) (address_with_weight a w rest) before after
        s i v e =
      absurd (cc)
  unlock_weights-IsReached c (cons u us) (address_with_weight a w rest) before after s i v e =
      let (s', unlocked, e1) = >>=-eq-ok (unlock_address c.crypto c.message u a s i true) _ e in
      take-IsReached c a w before after rest
        (unlock_address-Unlocked c u a s s' i true v unlocked).backed
        (unlock_weights-IsReached c us rest (u16 (before + w)) after s i v e1)
