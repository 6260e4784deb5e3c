-- ===== src/Unlocks.antt =====
-- unlock.go: the syntactic validation of the unlocks of a transaction. The serialization of a multi
-- unlock and the hash of a public key, which identifies a signer, are parameters. The maps of the
-- validator are read for the presence of a key only, and are lists of their keys.
pub mod Signers
use axon_go.Common.{
  ℕ, zero, suc, ◌+◌, ◌==◌, Bool, true, false, not, ◌&&◌, ◌||◌, Option, none, some, List, [], ◌∷◌,
  if◌then◌else◌, u16,
}
use axon_go.Address.{Signature}
use axon_go.Common.Result.{Result, ok, err, ◌>>=◌, ◌>>◌, reject_if}

pub data Error : Type 0 where
  signature_unlock_has_nil_signature signature_unlock_not_unique referential_unlock_invalid : Error
  multi_unlock_not_unique nested_multi_unlock empty_unlock_outside_multi_unlock encode_failed :
      Error

-- A signature unlock holds a signature, or none for a nil signature; the four referential unlocks hold the index of the unlock that they refer to.
mutual
  pub data Unlock : Type 0 where
    signature_unlock : Option Signature → Unlock
    reference_unlock account_unlock anchor_unlock nft_unlock : ℕ → Unlock
    multi_unlock : Unlocks → Unlock
    empty_unlock : Unlock

  pub data Unlocks : Type 0 where
    nil : Unlocks
    cons : Unlock → Unlocks → Unlocks

pub record Seen : Type 0 where
  pub signature_unlocks : List ℕ
  pub referential_unlocks : List ℕ
  pub signer_uids : List ℕ
  pub signer_uids_in_multi_unlocks : List ℕ
  pub multi_unlocks : List ℕ
  pub multi_unlock_bytes : List ℕ

abbrev pub nothing_seen : Seen
nothing_seen = record {
  signature_unlocks = [];
  referential_unlocks = [];
  signer_uids = [];
  signer_uids_in_multi_unlocks = [];
  multi_unlocks = [];
  multi_unlock_bytes = [];
}

abbrev pub has : List ℕ → ℕ → Bool
has [] y = false
has (x ∷ xs) y = let rest = has xs y in if x == y then true else rest

-- A reference unlock cannot be chained; the other three can.
unfoldable pub referential_valid : Seen → Bool → ℕ → Result Error (Unit {0})
referential_valid seen chainable referenced =
    if has seen.referential_unlocks referenced
    then reject_if (not chainable) referential_unlock_invalid
    else reject_if
        (not (has seen.signature_unlocks referenced) && not (has seen.multi_unlocks referenced))
        referential_unlock_invalid

unfoldable pub sub_referential_valid : Seen → Bool → ℕ → Result Error (Unit {0})
sub_referential_valid seen chainable referenced =
    if has seen.referential_unlocks referenced
    then reject_if (not chainable) referential_unlock_invalid
    else reject_if (not (has seen.signature_unlocks referenced)) referential_unlock_invalid

abbrev pub add_referential : Seen → ℕ → Seen
add_referential seen index = record seen {
  referential_unlocks = u16 index ∷ seen.referential_unlocks;
}

abbrev pub encoded : Option ℕ → Result Error ℕ
encoded none = err encode_failed
encoded (some bytes) = ok bytes

module _ (public_key_hash : ℕ → ℕ) where
  -- `SignerUID` of a signature that is there.
  abbrev pub signer : Option Signature → Result Error ℕ
  signer none = err signature_unlock_has_nil_signature
  signer (some signature) = ok (public_key_hash signature.public_key)

  -- The loop over the unlocks of a multi unlock.
  unfoldable pub sub_unlocks_valid : Seen → Unlocks → Result Error Seen
  sub_unlocks_valid seen nil = ok seen
  sub_unlocks_valid seen (cons (signature_unlock signature) us) = do
    signer_uid ← signer signature
    reject_if (has seen.signer_uids signer_uid) signature_unlock_not_unique
    sub_unlocks_valid
        (record seen {
          signer_uids_in_multi_unlocks = signer_uid ∷ seen.signer_uids_in_multi_unlocks;
        })
        us
  sub_unlocks_valid seen (cons (reference_unlock i) us) =
      sub_referential_valid seen false i >> sub_unlocks_valid seen us
  sub_unlocks_valid seen (cons (account_unlock i) us) =
      sub_referential_valid seen true i >> sub_unlocks_valid seen us
  sub_unlocks_valid seen (cons (anchor_unlock i) us) =
      sub_referential_valid seen true i >> sub_unlocks_valid seen us
  sub_unlocks_valid seen (cons (nft_unlock i) us) =
      sub_referential_valid seen true i >> sub_unlocks_valid seen us
  sub_unlocks_valid seen (cons (multi_unlock vs) us) = err nested_multi_unlock
  sub_unlocks_valid seen (cons empty_unlock us) = sub_unlocks_valid seen us

module _ (public_key_hash : ℕ → ℕ) (encode : Unlocks → Option ℕ) where
  -- The function that `SignaturesUniqueAndReferenceUnlocksValidator` returns, with its maps as state.
  unfoldable pub signatures_unique_and_reference_unlocks_validator :
      Seen → ℕ → Unlock → Result Error Seen
  signatures_unique_and_reference_unlocks_validator seen index (signature_unlock signature) = do
    signer_uid ← signer public_key_hash signature
    reject_if (has seen.signer_uids signer_uid) signature_unlock_not_unique
    reject_if (has seen.signer_uids_in_multi_unlocks signer_uid) signature_unlock_not_unique
    ok (record seen {
      signature_unlocks = u16 index ∷ seen.signature_unlocks;
      signer_uids = signer_uid ∷ seen.signer_uids;
    })
  signatures_unique_and_reference_unlocks_validator seen index (reference_unlock i) =
      referential_valid seen false i >> ok (add_referential seen index)
  signatures_unique_and_reference_unlocks_validator seen index (account_unlock i) =
      referential_valid seen true i >> ok (add_referential seen index)
  signatures_unique_and_reference_unlocks_validator seen index (anchor_unlock i) =
      referential_valid seen true i >> ok (add_referential seen index)
  signatures_unique_and_reference_unlocks_validator seen index (nft_unlock i) =
      referential_valid seen true i >> ok (add_referential seen index)
  signatures_unique_and_reference_unlocks_validator seen index (multi_unlock us) = do
    bytes ← encoded (encode us)
    reject_if (has seen.multi_unlock_bytes bytes) multi_unlock_not_unique
    seen' ← sub_unlocks_valid public_key_hash seen us
    ok (record seen' {
      multi_unlocks = u16 index ∷ seen'.multi_unlocks;
      multi_unlock_bytes = bytes ∷ seen'.multi_unlock_bytes;
    })
  signatures_unique_and_reference_unlocks_validator seen index empty_unlock =
      err empty_unlock_outside_multi_unlock

  -- `ValidateUnlocks` with that function, from an index on.
  unfoldable pub validate_unlocks : Seen → ℕ → Unlocks → Result Error Seen
  validate_unlocks seen index nil = ok seen
  validate_unlocks seen index (cons u us) = do
    seen' ← signatures_unique_and_reference_unlocks_validator seen index u
    validate_unlocks seen' (index + 1) us
