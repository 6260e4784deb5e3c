-- ===== src/Outputs/Chains.antt =====
-- output.go: two identifiers of chains are the same where they are told to be so.
use axon_go.Common.{◌≡◌, refl, arith, true}
use axon_go.Outputs.{ChainId, account_id, anchor_id, nft_id, delegation_id, foundry_id, same_chain}

pub same_chain_refl : (a : ChainId) → same_chain a a ≡ true
unfolding same_chain
same_chain_refl (account_id a) = ground arith
same_chain_refl (anchor_id a) = ground arith
same_chain_refl (nft_id a) = ground arith
same_chain_refl (delegation_id a) = ground arith
same_chain_refl (foundry_id a s t) = ground arith

pub same_chain_sound : (a b : ChainId) → same_chain a b ≡ true → a ≡ b
unfolding same_chain
same_chain_sound (account_id a) (account_id b) h = ground arith
same_chain_sound (anchor_id a) (anchor_id b) h = ground arith
same_chain_sound (nft_id a) (nft_id b) h = ground arith
same_chain_sound (delegation_id a) (delegation_id b) h = ground arith
same_chain_sound (foundry_id a s t) (foundry_id b r u) h = ground arith
same_chain_sound a b h = absurd (cc)

pub same_chain_sym : (a b : ChainId) → same_chain a b ≡ same_chain b a
unfolding same_chain
same_chain_sym (account_id a) (account_id b) = ground arith
same_chain_sym (anchor_id a) (anchor_id b) = ground arith
same_chain_sym (nft_id a) (nft_id b) = ground arith
same_chain_sym (delegation_id a) (delegation_id b) = ground arith
same_chain_sym (foundry_id a s t) (foundry_id b r u) = ground arith
same_chain_sym a b = refl
