-- ===== src/Syntax/StorageScore/ImplicitAccounts.antt =====
-- storagescore.go: the offset of an implicit account creation address is what it is meant to be.
use axon_go.Common.{
  ℕ, ◌+◌, ◌*◌, ◌≡◌, refl, ap, arith, some, [], ◌∷◌, Option-cases, u64, sub64, inl, inr,
}
use axon_go.Common.Result.{ok}
use axon_go.SafeMath.{SafeMath}
use axon_go.Address.{ed25519_address, implicit_account_creation_address}
use axon_go.Syntax.Parts.{
  block_issuer, sum_of, unlock_conditions_size, features_size, unlock_condition_size, feature_size,
  address_size,
}
use axon_go.Syntax.Outputs.{
  TxEssenceOutput, basic, account, output_size, unlock_conditions_of, features_of,
  immutable_features_of,
}
use axon_go.Syntax.StorageScore.{
  StorageScoreParameters, StorageScoreStructure, new_storage_score_structure, storage_score,
  covers_min_deposit, min_deposit, multiply, address_score, unlock_condition_score, feature_score,
  owned_by, dummy_account_output, basic_output,
}

abbrev pub implicit_account : ℕ → ℕ → ℕ → TxEssenceOutput
implicit_account amount mana address_hash = basic (record {
  amount = amount;
  mana = mana;
  unlock_conditions = owned_by (implicit_account_creation_address address_hash);
  features = [];
})

abbrev pub block_issuer_account : ℕ → ℕ → ℕ → ℕ → ℕ → ℕ → ℕ → TxEssenceOutput
block_issuer_account amount mana owner account_id foundry_counter expiry_slot key_hash =
    account (record {
      amount = amount;
      mana = mana;
      account_id = account_id;
      foundry_counter = foundry_counter;
      unlock_conditions = owned_by (ed25519_address owner);
      features = block_issuer expiry_slot (key_hash ∷ []) ∷ [];
      immutable_features = [];
    })

module _ (math : SafeMath) (parameters : StorageScoreParameters) where
  -- What is subtracted without an error is a difference.
  safe_sub_exact : (w a b : ℕ) {d : ℕ} → math.safe_sub w a b ≡ some d → a ≡ b + d
  safe_sub_exact w a b h = ground (arith, math.safe_sub_fits w a b, math.safe_sub_underflow w a b)

  -- The offset is the difference of the scores of the two made-up outputs, of 129 and 53 bytes.
  structure_offset :
      (structure : StorageScoreStructure)
      → new_storage_score_structure math parameters ≡ ok structure
      → (structure.storage_score_parameters ≡ parameters)
        × (u64 (u64 (parameters.factor_data * 129) + u64 parameters.offset_ed25519_block_issuer_key)
            ≡ u64 (parameters.factor_data * 53)
              + structure.offset_implicit_account_creation_address)
  unfolding new_storage_score_structure storage_score multiply output_size unlock_conditions_of
      features_of immutable_features_of sum_of unlock_condition_score feature_score address_score
      unlock_conditions_size features_size unlock_condition_size feature_size address_size
  structure_offset structure h =
      let start : StorageScoreStructure = record {
        storage_score_parameters = parameters;
        offset_implicit_account_creation_address = 0;
        offset_output = 0;
      } in
      let whole : ℕ = storage_score start dummy_account_output in
      let part : ℕ = sub64 (storage_score start (basic_output (ed25519_address 0))) 0 in
      elim (Option-cases (math.safe_sub 64 whole part)) [
        | inl e ↦ absurd (ground (arith, e, h))
        | inr (d, e) ↦ ground (arith, e, h, safe_sub_exact 64 whole part e)
      ]

  same_score :
      (structure : StorageScoreStructure)
      (amount mana address_hash owner account_id foundry_counter expiry_slot key_hash : ℕ)
      → new_storage_score_structure math parameters ≡ ok structure
      → storage_score structure (implicit_account amount mana address_hash)
        ≡ storage_score structure
            (block_issuer_account amount mana owner account_id foundry_counter expiry_slot key_hash)
  unfolding storage_score multiply output_size unlock_conditions_of features_of
      immutable_features_of sum_of unlock_condition_score feature_score address_score
      unlock_conditions_size features_size unlock_condition_size feature_size address_size
  same_score structure amount mana a owner id counter expiry hash h =
      let (same, offset) = structure_offset structure h in
      let factor : structure.storage_score_parameters.factor_data ≡ parameters.factor_data =
        ap (λ (p : StorageScoreParameters). p.factor_data) same in
      let key : structure.storage_score_parameters.offset_ed25519_block_issuer_key
          ≡ parameters.offset_ed25519_block_issuer_key =
        ap (λ (p : StorageScoreParameters). p.offset_ed25519_block_issuer_key) same in
      omega (arith, offset, factor, key)

  -- An implicit account covers its deposit exactly where the account that it turns into does: a basic
  -- output that has only an implicit account creation address, and an account of an Ed25519 address
  -- with a block issuer feature of one key and nothing else, need the same deposit in every structure
  -- that is made from parameters, and the test of the deposit ends alike for every amount of tokens.
  pub implicit_account_deposit :
      (structure : StorageScoreStructure)
      (amount mana address_hash owner account_id foundry_counter expiry_slot key_hash tokens : ℕ)
      → new_storage_score_structure math parameters ≡ ok structure
      → covers_min_deposit math structure (implicit_account amount mana address_hash) tokens
        ≡ covers_min_deposit math structure
            (block_issuer_account amount mana owner account_id foundry_counter expiry_slot key_hash)
            tokens
  unfolding covers_min_deposit min_deposit
  implicit_account_deposit structure amount mana a owner id counter expiry hash tokens h =
      rw (same_score structure amount mana a owner id counter expiry hash h) refl
