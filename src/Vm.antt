-- ===== src/Vm.antt =====
-- vm/vm.go: the set of unlocked addresses. The set holds pointers: an object that is reached by its address's key and by the index of its signature is
-- one object, so the objects stand in a list of cells and the maps hold positions in it.
pub mod Unlocking
pub mod Inputs
pub mod Backed
pub mod Execution
pub mod BaseTokens
pub mod NativeTokens
use axon_go.Common.{
  ℕ, zero, suc, ◌+◌, ◌==◌, Bool, true, false, not, ◌||◌, Option, none, some, List, [], ◌∷◌, ◌++◌,
  if◌then◌else◌, ltb, u16, length, get_elem?,
}
use axon_go.Common.Result.{Result, ok, err, panic, ◌>>=◌, ◌>>◌, reject_if}
use axon_go.Merkle.{bytes_equal}
use axon_go.Unlocks.{
  Unlock, Unlocks, nil, cons, signature_unlock, reference_unlock, account_unlock, anchor_unlock,
  nft_unlock, multi_unlock, empty_unlock,
}
use axon_go.Address.{
  Address, ed25519_address, account_address, nft_address, anchor_address,
  implicit_account_creation_address, multi_address, restricted_address, AddressesWithWeight,
  none_left, address_with_weight, is_chain_address, is_direct_unlockable, key, Signature,
  SignatureError, matches_address, valid, Crypto,
}
use axon_go.Outputs.Expiration.{ConditionError}

-- The sentinel errors that an error wraps, the outer one first.
pub data Error : Type 0 where
  signature_invalid : SignatureError → Error
  condition_failed : ConditionError → Error
  not_previously_unlocked unlocked_by_another signature_mismatch directly_unlockable : Error
  multi_address_length_unlock_length_mismatch nested_multi_unlock : Error
  multi_address_unlock_threshold_not_reached chain_address_unlock_invalid : Error
  unlock_signature_invalid : Error
  direct_unlockable_address_unlock_invalid multi_address_unlock_invalid : Error
  owner_transition_dependent_output_next_invalid expiration_commitment_input_missing : Error
  input_output_base_token_mismatch return_amount_not_fulfilled : Error
  native_token_amount_less_than_equal_zero native_token_sum_exceeds_uint256 : Error
  native_token_sum_unbalanced tx_capabilities_native_token_burning_not_allowed : Error
  multiple_implicit_account_creation_addresses native_token_set_invalid : Error
  sender_feature_not_unlocked issuer_feature_not_unlocked timelock_commitment_input_missing : Error
  wrapped : Error → Error → Error

abbrev pub wrap {ℓ} : {A : Type ℓ} → Error → Result Error A → Result Error A
wrap outer (ok value) = ok value
wrap outer (err inner) = err (wrapped outer inner)
wrap outer panic = panic

abbrev pub from_signature : Result SignatureError (Unit {0}) → Result Error (Unit {0})
from_signature (ok value) = ok value
from_signature (err e) = err (signature_invalid e)
from_signature panic = panic

pub record UnlockedAddress : Type 0 where
  pub address : Address
  pub unlocked_at_input_index : ℕ
  pub referenced_by_input_index : List ℕ

-- The entry that a map was given last stands first.
pub record UnlockedAddressesSet : Type 0 where
  pub cells : List UnlockedAddress
  pub signature_unlocked_addrs_by_index : List (ℕ × ℕ × Signature)
  pub unlocked_addrs_by_addr_key : List (List ℕ × ℕ)

abbrev pub nothing_unlocked : UnlockedAddressesSet
nothing_unlocked = record {
  cells = [];
  signature_unlocked_addrs_by_index = [];
  unlocked_addrs_by_addr_key = [];
}

unfoldable pub find_key : List (List ℕ × ℕ) → List ℕ → Option ℕ
find_key [] k = none
find_key ((known, cell) ∷ entries) k = if bytes_equal known k then some cell else find_key entries k

unfoldable pub find_index : List (ℕ × ℕ × Signature) → ℕ → Option (ℕ × Signature)
find_index [] i = none
find_index ((known, cell, signature) ∷ entries) i =
    if known == i then some (cell, signature) else find_index entries i

-- The object that a pointer leads to. No pointer of a set dangles.
unfoldable pub load : UnlockedAddressesSet → ℕ → Result Error UnlockedAddress
load s cell = elim (get_elem? s.cells cell) [ none ↦ panic | some object ↦ ok object ]

unfoldable pub reference_at : List UnlockedAddress → ℕ → ℕ → List UnlockedAddress
reference_at [] cell input_index = []
reference_at (object ∷ cells) zero input_index =
    record object { referenced_by_input_index = input_index ∷ object.referenced_by_input_index }
    ∷ cells
reference_at (object ∷ cells) (suc cell) input_index = object ∷ reference_at cells cell input_index

-- `referencedAddr.ReferencedByInputIndex[inputIndex] = struct{}{}`
unfoldable pub add_reference : UnlockedAddressesSet → ℕ → ℕ → UnlockedAddressesSet
add_reference s cell input_index = record s { cells = reference_at s.cells cell input_index }

-- A new object for the address, under the address's key.
unfoldable pub add_unlocked : Crypto → UnlockedAddressesSet → Address → ℕ → UnlockedAddressesSet
add_unlocked crypto s addr input_index = record s {
  cells =
      s.cells
      ++ (record {
        address = addr;
        unlocked_at_input_index = input_index;
        referenced_by_input_index = [];
      }
          ∷ []);
  unlocked_addrs_by_addr_key = (key crypto addr, length s.cells) ∷ s.unlocked_addrs_by_addr_key;
}

unfoldable pub has_index : List ℕ → ℕ → Bool
has_index [] i = false
has_index (x ∷ xs) i = (x == i) || has_index xs i

unfoldable pub unlocked_by : UnlockedAddressesSet → ℕ → List ℕ → Result Error Bool
unlocked_by s input_index k = elim (find_key s.unlocked_addrs_by_addr_key k) [
  | none ↦ ok false
  | some cell ↦ do
    object ← load s cell
    ok (
        if object.unlocked_at_input_index == input_index
        then true
        else has_index object.referenced_by_input_index input_index)
]

-- `Chainable`, `SourceAllowed` and `ReferencedInputIndex` of a referential unlock.
pub record Referential : Type 0 where
  pub chainable : Bool
  pub source_allowed : Address → Bool
  pub referenced_input_index : ℕ

abbrev pub is_account_address : Address → Bool
is_account_address (account_address a) = true
is_account_address address = false

abbrev pub is_nft_address : Address → Bool
is_nft_address (nft_address a) = true
is_nft_address address = false

abbrev pub is_anchor_address : Address → Bool
is_anchor_address (anchor_address a) = true
is_anchor_address address = false

unfoldable pub referential : Unlock → Option Referential
referential (reference_unlock i) = some (record {
  chainable = false;
  source_allowed = λ address. not (is_chain_address address);
  referenced_input_index = i;
})
referential (account_unlock i) =
    some
      (record { chainable = true; source_allowed = is_account_address; referenced_input_index = i })
referential (anchor_unlock i) =
    some
      (record { chainable = true; source_allowed = is_anchor_address; referenced_input_index = i })
referential (nft_unlock i) =
    some (record { chainable = true; source_allowed = is_nft_address; referenced_input_index = i })
referential (signature_unlock s) = none
referential (multi_unlock us) = none
referential empty_unlock = none
