-- ===== src/Tests/Mana.antt =====
-- The Mana of a transaction and of an account at concrete inputs.
use axon_go.Common.{ℕ, ◌+◌, ◌^◌, ◌≤◌, ◌<◌, ◌≡◌, refl, arith, false, none, some, [], ◌∷◌, inl}
use axon_go.Common.Result.{ok}
use axon_go.SafeMath.{checked_math}
use axon_go.TimeProvider.{epoch_from_slot}
use axon_go.Mana.FixedPoint.{
  split_uint64, merge_uint64, fixed_point_multiplication_32_splitted, fixed_point_multiplication_32,
}
use axon_go.Mana.Decay.{
  decay, generate_mana, decay_mana_by_epochs, decay_mana_by_slots, generate_mana_and_decay_by_slots,
}
use axon_go.Nova.{past_bounded_slot_index}
use axon_go.Nova.BlockIssuer.{
  Output, BlockIssuerFeature, NextAccount, WorkingSet, account_address, get, has_manalock_condition,
  expiry_slot_valid, potential_mana, stored_mana_at, total_mana_of_inputs, total_mana_of,
  total_mana_in, total_mana_out, without_manalocked, mana_not_moved, account_block_issuer_stvf,
  inputs_created_before, balanced_mana,
}
use axon_go.Nova.BlockIssuer.Locked.{IsUnexpired, IsLocked, account_block_issuer_stvf-IsLocked}
use axon_go.Nova.BlockIssuer.Balance.{IsManaOf, balanced_mana-IsManaOf}
use axon_go.Tests.ManaDecay.{provider}
use axon_go.Tests.Chains.{params}

abbrev account : ℕ → Output
account mana = record {
  base_token_amount = 1000;
  stored_mana = mana;
  storage_score = 10;
  address_condition = none;
  timelock_slot = none;
}

-- An output that is locked to the account 5.
abbrev locked : Output
locked = record {
  base_token_amount = 0;
  stored_mana = 80;
  storage_score = 10;
  address_condition = some (account_address 5);
  timelock_slot = some 500;
}

-- The account's 100 units of Mana, the 495 units that 990 tokens generate in two slots and a reward
-- of 7: 15 of them are allotted to the account 5, 80 are locked to it and the reward goes elsewhere.
abbrev pub transfer : WorkingSet
transfer = record {
  tx_creation_slot = 5;
  inputs = (record { creation_slot = 3; output = account 100 }) ∷ [];
  outputs = account 500 ∷ locked ∷ account 7 ∷ [];
  allotments = (record { account_id = 5; mana = 15 }) ∷ [];
  rewards = 7 ∷ [];
  commitment = some 100;
  total_mana_in = 602;
  total_mana_out = 602;
  can_burn_mana = false;
}

abbrev feature : BlockIssuerFeature
feature = record { expiry_slot = 130; block_issuer_keys = 1 ∷ [] }

abbrev next_account : NextAccount
next_account = record { account_id = 5; mana = 500; block_issuer = some feature }

transfer-in : total_mana_in checked_math provider 1 5 transfer.inputs transfer.rewards ≡ ok 602
unfolding total_mana_in total_mana_of_inputs total_mana_of stored_mana_at potential_mana
    decay_mana_by_slots decay_mana_by_epochs decay epoch_from_slot generate_mana_and_decay_by_slots
    generate_mana fixed_point_multiplication_32 fixed_point_multiplication_32_splitted split_uint64
    merge_uint64
transfer-in = refl

transfer-out : total_mana_out checked_math provider 1 transfer.outputs transfer.allotments ≡ ok 602
unfolding total_mana_out total_mana_of
transfer-out = refl

balanced_mana-IsManaOf_example :
    (n : ℕ) × IsManaOf checked_math provider 1 5 transfer.inputs n
    × (500 + (80 + (7 + 0)) + (15 + 0) ≤ n + (7 + 0))
    × (false ≡ false → n + (7 + 0) ≤ 500 + (80 + (7 + 0)) + (15 + 0))
unfolding balanced_mana inputs_created_before
balanced_mana-IsManaOf_example =
    balanced_mana-IsManaOf checked_math provider 1 transfer transfer-in transfer-out refl

transfer-accepted :
    account_block_issuer_stvf checked_math provider 1 params transfer
      (record { creation_slot = 3; output = account 100 })
      (some feature)
      next_account
    ≡ ok tt
unfolding account_block_issuer_stvf mana_not_moved without_manalocked has_manalock_condition get
    expiry_slot_valid past_bounded_slot_index stored_mana_at potential_mana decay_mana_by_slots
    decay_mana_by_epochs decay epoch_from_slot generate_mana_and_decay_by_slots generate_mana
    fixed_point_multiplication_32 fixed_point_multiplication_32_splitted split_uint64 merge_uint64
transfer-accepted = refl

-- The slot of the commitment does not wrap around with the maximum committable age.
transfer-fits : (slot : ℕ) → transfer.commitment ≡ some slot → slot + 20 < 2 ^ 32
transfer-fits slot found = let at : 100 ≡ slot = ground arith in omega arith

account_block_issuer_stvf-IsLocked_example :
    (slot : ℕ) × (some 100 ≡ some slot)
    × IsUnexpired slot (some feature) (some feature)
    × IsLocked checked_math provider 1 params transfer
        (record { creation_slot = 3; output = account 100 })
        next_account
        (past_bounded_slot_index params slot)
account_block_issuer_stvf-IsLocked_example =
    account_block_issuer_stvf-IsLocked checked_math provider 1 params transfer
      (record { creation_slot = 3; output = account 100 }) (some feature) next_account transfer-in
      transfer-out transfer-fits (inl refl) transfer-accepted
