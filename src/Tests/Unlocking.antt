-- ===== src/Tests/Unlocking.antt =====
-- The validation of unlocks at concrete inputs.
use axon_go.Common.{ℕ, ◌≡◌, refl, true, false, Option, some, [], ◌∷◌}
use axon_go.Address.{Signature}
use axon_go.Common.Result.{err}
use axon_go.Unlocks.{
  Unlocks, nil, cons, signature_unlock, reference_unlock, account_unlock, multi_unlock,
  empty_unlock, Seen, nothing_seen, signature_unlock_not_unique, has, referential_valid,
  sub_referential_valid, sub_unlocks_valid, signatures_unique_and_reference_unlocks_validator,
  validate_unlocks,
}
use axon_go.Unlocks.Signers.{Distinct, validate_unlocks-signers}

abbrev unlocks_key : Unlocks → Option ℕ
unlocks_key nil = some 0
unlocks_key (cons u us) = some 1

abbrev by : ℕ → Signature
by key = record { public_key = key; signature = 0 }

-- A signature of 4, a reference to it, a multi unlock that 6 signs, and an account unlock that refers
-- to the reference.
abbrev unlocks : Unlocks
unlocks = cons (signature_unlock (some (by 4))) (
    cons (reference_unlock 0) (
      cons
        (multi_unlock
          (cons (signature_unlock (some (by 6))) (cons (account_unlock 1) (cons empty_unlock nil))))
        (cons (account_unlock 1) nil)))

abbrev seen : Seen
seen = record {
  signature_unlocks = 0 ∷ [];
  referential_unlocks = 3 ∷ 1 ∷ [];
  signer_uids = 4 ∷ [];
  signer_uids_in_multi_unlocks = 6 ∷ [];
  multi_unlocks = 2 ∷ [];
  multi_unlock_bytes = 1 ∷ [];
}

validate_unlocks-signers_example :
    Distinct (4 ∷ []) × ((y : ℕ) → has (4 ∷ []) y ≡ true → has (6 ∷ []) y ≡ false)
unfolding validate_unlocks signatures_unique_and_reference_unlocks_validator referential_valid
    sub_referential_valid sub_unlocks_valid
validate_unlocks-signers_example = validate_unlocks-signers (λ k. k) unlocks_key unlocks seen refl

-- A signer that signs inside of a multi unlock first does not sign outside of it.
signed_before :
    validate_unlocks
      (λ k. k)
      unlocks_key
      nothing_seen
      0
      (cons
        (multi_unlock (cons (signature_unlock (some (by 4))) nil))
        (cons (signature_unlock (some (by 4))) nil))
    ≡ err signature_unlock_not_unique
unfolding validate_unlocks signatures_unique_and_reference_unlocks_validator sub_unlocks_valid
signed_before = refl
