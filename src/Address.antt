-- ===== src/Address.antt =====
-- address.go, address_multi.go, address_restricted.go, signature_ed25519.go: addresses, the keys by
-- which maps hold them, and the signatures that unlock them. An identifier, a public key or a
-- signature is the number that its bytes spell. What the hash functions, the signature scheme and the
-- serialization of another library compute is a parameter, `Crypto`.
use axon_go.Common.{ℕ, ◌==◌, Bool, true, false, not, ◌&&◌, List, [], ◌∷◌, ◌++◌}
use axon_go.Merkle.{bytes_equal}
use axon_go.Common.Result.{Result, ◌>>◌, reject_if}

-- A multi address holds its addresses with their weights, and a threshold; a restricted address holds
-- the underlying address and the bytes of its capabilities.
mutual
  pub data Address : Type 0 where
    ed25519_address account_address nft_address anchor_address : ℕ → Address
    implicit_account_creation_address : ℕ → Address
    multi_address : AddressesWithWeight → ℕ → Address
    restricted_address : Address → List ℕ → Address

  pub data AddressesWithWeight : Type 0 where
    none_left : AddressesWithWeight
    address_with_weight : Address → ℕ → AddressesWithWeight → AddressesWithWeight

pub record OutputId : Type 0 where
  pub transaction_id : ℕ
  pub index : ℕ

pub record Signature : Type 0 where
  pub public_key : ℕ
  pub signature : ℕ

-- The hash of a public key, the verification of a signature of a message, the hash of a multi
-- address, the serialization of capabilities and the hash of an output's identifier.
pub record Crypto : Type 0 where
  pub public_key_hash : ℕ → ℕ
  pub verify : ℕ → ℕ → ℕ → Bool
  pub multi_hash : AddressesWithWeight → ℕ → ℕ
  pub capabilities_bytes : List ℕ → List ℕ
  pub output_id_hash : OutputId → ℕ

pub data SignatureError : Type 0 where
  ed25519_pub_key_and_addr_mismatch ed25519_signature_invalid : SignatureError

unfoldable pub is_chain_address : Address → Bool
is_chain_address (account_address a) = true
is_chain_address (nft_address a) = true
is_chain_address (anchor_address a) = true
is_chain_address (ed25519_address a) = false
is_chain_address (implicit_account_creation_address a) = false
is_chain_address (multi_address addresses threshold) = false
is_chain_address (restricted_address underlying capabilities) = false

unfoldable pub is_direct_unlockable : Address → Bool
is_direct_unlockable (ed25519_address a) = true
is_direct_unlockable (implicit_account_creation_address a) = true
is_direct_unlockable (account_address a) = false
is_direct_unlockable (nft_address a) = false
is_direct_unlockable (anchor_address a) = false
is_direct_unlockable (multi_address addresses threshold) = false
is_direct_unlockable (restricted_address underlying capabilities) = false

-- `Key`: the byte of the address's type, the identifier, and the bytes of the capabilities.
unfoldable pub key : Crypto → Address → List ℕ
key crypto (ed25519_address a) = 0 ∷ a ∷ []
key crypto (account_address a) = 8 ∷ a ∷ []
key crypto (nft_address a) = 16 ∷ a ∷ []
key crypto (anchor_address a) = 24 ∷ a ∷ []
key crypto (implicit_account_creation_address a) = 32 ∷ a ∷ []
key crypto (multi_address addresses threshold) = 40 ∷ crypto.multi_hash addresses threshold ∷ []
key crypto (restricted_address underlying capabilities) =
    48 ∷ (key crypto underlying ++ crypto.capabilities_bytes capabilities)

-- The addresses that a signature's public key gives: of an Ed25519 address and of an implicit account
-- creation address.
unfoldable pub matches_address : Crypto → Signature → Address → Bool
matches_address crypto s (ed25519_address a) = a == crypto.public_key_hash s.public_key
matches_address crypto s (implicit_account_creation_address a) =
    a == crypto.public_key_hash s.public_key
matches_address crypto s (account_address a) = false
matches_address crypto s (nft_address a) = false
matches_address crypto s (anchor_address a) = false
matches_address crypto s (multi_address addresses threshold) = false
matches_address crypto s (restricted_address underlying capabilities) = false

unfoldable pub valid : Crypto → Signature → ℕ → ℕ → Result SignatureError (Unit {0})
valid crypto s message address = do
  reject_if (not (address == crypto.public_key_hash s.public_key)) ed25519_pub_key_and_addr_mismatch
  reject_if (not (crypto.verify s.public_key message s.signature)) ed25519_signature_invalid

unfoldable pub same_addresses_with_weight :
    Crypto → AddressesWithWeight → AddressesWithWeight → Bool
same_addresses_with_weight crypto none_left none_left = true
same_addresses_with_weight crypto none_left (address_with_weight b v others) = false
same_addresses_with_weight crypto (address_with_weight a w addresses) none_left = false
same_addresses_with_weight crypto (address_with_weight a w addresses)
      (address_with_weight b v others) =
    bytes_equal (key crypto a) (key crypto b)
    && (w == v)
    && same_addresses_with_weight crypto addresses others

-- `Equal` of two addresses; those inside of multi addresses are told by their keys.
unfoldable pub address_equal : Crypto → Address → Address → Bool
address_equal crypto (ed25519_address a) (ed25519_address b) = a == b
address_equal crypto (account_address a) (account_address b) = a == b
address_equal crypto (nft_address a) (nft_address b) = a == b
address_equal crypto (anchor_address a) (anchor_address b) = a == b
address_equal crypto (implicit_account_creation_address a) (implicit_account_creation_address b) =
    a == b
address_equal crypto (multi_address addresses threshold) (multi_address others limit) =
    (threshold == limit) && same_addresses_with_weight crypto addresses others
address_equal crypto (restricted_address underlying capabilities)
      (restricted_address inner allowed) =
    address_equal crypto underlying inner && bytes_equal capabilities allowed
address_equal crypto a b = false
