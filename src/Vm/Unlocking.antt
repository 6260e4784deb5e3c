-- ===== src/Vm/Unlocking.antt =====
-- vm/vm.go: the unlocking of an address by an unlock, with the set of unlocked addresses as state.
use axon_go.Common.{
  ℕ, suc, ◌+◌, ◌==◌, Bool, true, not, ◌||◌, Option, none, some, ◌∷◌, if◌then◌else◌, ltb, u16,
  length,
}
use axon_go.Common.Result.{Result, ok, err, panic, ◌>>=◌, ◌>>◌, reject_if}
use axon_go.Unlocks.{Unlock, Unlocks, nil, cons, signature_unlock, multi_unlock, empty_unlock}
use axon_go.Address.{
  Address, ed25519_address, account_address, nft_address, anchor_address,
  implicit_account_creation_address, multi_address, restricted_address, AddressesWithWeight,
  none_left, address_with_weight, is_direct_unlockable, key, Signature, matches_address, valid,
  Crypto,
}
use axon_go.Vm.{
  Error, wrap, from_signature, not_previously_unlocked, unlocked_by_another, signature_mismatch,
  directly_unlockable, multi_address_length_unlock_length_mismatch, nested_multi_unlock,
  multi_address_unlock_threshold_not_reached, chain_address_unlock_invalid,
  unlock_signature_invalid, direct_unlockable_address_unlock_invalid, multi_address_unlock_invalid,
  UnlockedAddressesSet, find_key, find_index, load, add_reference, add_unlocked, Referential,
  referential,
}

unfoldable pub length_unlocks : Unlocks → ℕ
length_unlocks nil = 0
length_unlocks (cons u us) = suc (length_unlocks us)

unfoldable pub length_addresses : AddressesWithWeight → ℕ
length_addresses none_left = 0
length_addresses (address_with_weight a w rest) = suc (length_addresses rest)

module _ (crypto : Crypto) (message : ℕ) where
  -- `Unlock` of a directly unlockable address: both types call `Valid` of the signature.
  unfoldable pub unlock : Address → Signature → Result Error (Unit {0})
  unlock (ed25519_address a) signature = from_signature (valid crypto signature message a)
  unlock (implicit_account_creation_address a) signature =
      from_signature (valid crypto signature message a)
  unlock (account_address a) signature = panic
  unlock (nft_address a) signature = panic
  unlock (anchor_address a) signature = panic
  unlock (multi_address addresses threshold) signature = panic
  unlock (restricted_address underlying capabilities) signature = panic

  -- `SignatureUnlock`; the type of a nil signature cannot be read for the message of the error.
  unfoldable pub unlock_by_signature :
      UnlockedAddressesSet
      → Address
      → Option Signature
      → ℕ
      → Bool
      → Result Error UnlockedAddressesSet
  unlock_by_signature s addr none input_index check_unlock_only = panic
  unlock_by_signature s addr (some signature) input_index check_unlock_only = do
    unlock addr signature
    ok (
        if check_unlock_only then s else record (add_unlocked crypto s addr input_index) {
          signature_unlocked_addrs_by_index =
              (input_index, length s.cells, signature) ∷ s.signature_unlocked_addrs_by_index;
        })

  unfoldable pub referential_unlock_non_directly_unlockable :
      UnlockedAddressesSet → Address → ℕ → ℕ → Bool → Result Error UnlockedAddressesSet
  referential_unlock_non_directly_unlockable s owner input_index referenced check_unlock_only =
      reject_if (is_direct_unlockable owner) directly_unlockable
      >> elim (find_key s.unlocked_addrs_by_addr_key (key crypto owner)) [
        | none ↦ err not_previously_unlocked
        | some cell ↦ do
          object ← load s cell
          reject_if (not (object.unlocked_at_input_index == referenced)) unlocked_by_another
          ok (if check_unlock_only then s else add_reference s cell input_index)
      ]

  -- The owner is added to the unlocked addresses where it is not there yet.
  unfoldable pub add_owner : UnlockedAddressesSet → Address → ℕ → UnlockedAddressesSet
  add_owner s owner input_index = elim (find_key s.unlocked_addrs_by_addr_key (key crypto owner)) [
    | none ↦ add_unlocked crypto s owner input_index
    | some cell ↦ s
  ]

  unfoldable pub referential_unlock_directly_unlockable :
      UnlockedAddressesSet → Address → ℕ → ℕ → Bool → Result Error UnlockedAddressesSet
  referential_unlock_directly_unlockable s owner input_index referenced check_unlock_only =
      elim (find_index s.signature_unlocked_addrs_by_index referenced) [
        | none ↦ err not_previously_unlocked
        | some (cell, signature) ↦ do
          object ← load s cell
          reject_if (not (object.unlocked_at_input_index == referenced)) unlocked_by_another
          reject_if (not (matches_address crypto signature owner)) signature_mismatch
          ok (
              if check_unlock_only
              then s
              else add_owner (add_reference s cell input_index) owner input_index)
      ]

  -- The cases of `unlockAddress` by the owner's type: a chain address, an address that a signature
  -- unlocks, and a multi address with an unlock that is no multi unlock.
  unfoldable pub unlock_chain_address :
      Unlock → Address → UnlockedAddressesSet → ℕ → Bool → Result Error UnlockedAddressesSet
  unlock_chain_address u owner s input_index check_unlock_only = elim (referential u) [
    | none ↦ err chain_address_unlock_invalid
    | some r ↦
        reject_if (not r.chainable || not (r.source_allowed owner)) chain_address_unlock_invalid
        >> wrap chain_address_unlock_invalid (
            referential_unlock_non_directly_unlockable s owner input_index r.referenced_input_index
              check_unlock_only)
  ]

  unfoldable pub unlock_direct_by_reference :
      Option Referential
      → Address
      → UnlockedAddressesSet
      → ℕ
      → Bool
      → Result Error UnlockedAddressesSet
  unlock_direct_by_reference none owner s input_index check_unlock_only =
      err direct_unlockable_address_unlock_invalid
  unlock_direct_by_reference (some r) owner s input_index check_unlock_only =
      reject_if (r.chainable || not (r.source_allowed owner))
        direct_unlockable_address_unlock_invalid
      >> wrap direct_unlockable_address_unlock_invalid (
          referential_unlock_directly_unlockable s owner input_index r.referenced_input_index
            check_unlock_only)

  unfoldable pub unlock_direct_unlockable_address :
      Unlock → Address → UnlockedAddressesSet → ℕ → Bool → Result Error UnlockedAddressesSet
  unlock_direct_unlockable_address (signature_unlock signature) owner s input_index
        check_unlock_only =
      elim (find_key s.unlocked_addrs_by_addr_key (key crypto owner)) [
        | some cell ↦ err direct_unlockable_address_unlock_invalid
        | none ↦ wrap direct_unlockable_address_unlock_invalid (
            wrap unlock_signature_invalid
              (unlock_by_signature s owner signature input_index check_unlock_only))
      ]
  unlock_direct_unlockable_address u owner s input_index check_unlock_only =
      unlock_direct_by_reference (referential u) owner s input_index check_unlock_only

  unfoldable pub unlock_multi_by_reference :
      Option Referential
      → Address
      → UnlockedAddressesSet
      → ℕ
      → Bool
      → Result Error UnlockedAddressesSet
  unlock_multi_by_reference none owner s input_index check_unlock_only =
      err multi_address_unlock_invalid
  unlock_multi_by_reference (some r) owner s input_index check_unlock_only =
      reject_if (r.chainable || not (r.source_allowed owner)) multi_address_unlock_invalid
      >> wrap multi_address_unlock_invalid (
          referential_unlock_non_directly_unlockable s owner input_index r.referenced_input_index
            check_unlock_only)

-- `unlockAddress`, and the loop of `MultiUnlock` over the addresses and their unlocks, which counts the
-- weights of those that are unlocked and leaves the set as it is.
unfoldable mutual
  pub unlock_address :
      Crypto
      → ℕ
      → Unlock
      → Address
      → UnlockedAddressesSet
      → ℕ
      → Bool
      → Result Error UnlockedAddressesSet
  unlock_address crypto message u (ed25519_address a) s input_index check =
      unlock_direct_unlockable_address crypto message u (ed25519_address a) s input_index check
  unlock_address crypto message u (implicit_account_creation_address a) s input_index check =
      unlock_direct_unlockable_address crypto message u (implicit_account_creation_address a) s
        input_index check
  unlock_address crypto message u (account_address a) s input_index check =
      unlock_chain_address crypto message u (account_address a) s input_index check
  unlock_address crypto message u (nft_address a) s input_index check =
      unlock_chain_address crypto message u (nft_address a) s input_index check
  unlock_address crypto message u (anchor_address a) s input_index check =
      unlock_chain_address crypto message u (anchor_address a) s input_index check
  unlock_address crypto message u (restricted_address underlying capabilities) s input_index check =
      panic
  unlock_address crypto message (multi_unlock us) (multi_address addresses threshold) s input_index
        check =
      elim (find_key s.unlocked_addrs_by_addr_key
        (key crypto (multi_address addresses threshold))) [
          | some cell ↦ err multi_address_unlock_invalid
          | none ↦ wrap multi_address_unlock_invalid (
              reject_if (not (length_unlocks us == length_addresses addresses))
                multi_address_length_unlock_length_mismatch
              >> (unlock_weights crypto message us addresses 0 s input_index >>= λ weight.
                  reject_if (ltb weight threshold) multi_address_unlock_threshold_not_reached
                  >> ok (add_unlocked crypto s (multi_address addresses threshold) input_index)))
        ]
  unlock_address crypto message u (multi_address addresses threshold) s input_index check =
      unlock_multi_by_reference crypto message (referential u) (multi_address addresses threshold) s
        input_index check

  pub unlock_weights :
      Crypto → ℕ → Unlocks → AddressesWithWeight → ℕ → UnlockedAddressesSet → ℕ → Result Error ℕ
  unlock_weights crypto message nil addresses weight s input_index = ok weight
  unlock_weights crypto message (cons u us) none_left weight s input_index = panic
  unlock_weights crypto message (cons empty_unlock us) (address_with_weight a w rest) weight s
        input_index =
      unlock_weights crypto message us rest weight s input_index
  unlock_weights crypto message (cons (multi_unlock vs) us) (address_with_weight a w rest) weight s
        input_index =
      err nested_multi_unlock
  unlock_weights crypto message (cons u us) (address_with_weight a w rest) weight s input_index = do
    unchanged ← unlock_address crypto message u a s input_index true
    unlock_weights crypto message us rest (u16 (weight + w)) s input_index
