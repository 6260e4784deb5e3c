-- ===== src/Tests/Creation.antt =====
-- The creation of a foundry at a concrete input.
use axon_go.Common.{ℕ, ◌≤◌, ◌<◌, ◌≡◌, refl, some, [], ◌∷◌}
use axon_go.Common.Int.{pos}
use axon_go.TokenScheme.{state_transition, genesis_valid}
use axon_go.Nova.Foundry.{
  FoundryOutput, foundry_id, same_id, foundry, account_output, WorkingSet, has_foundry,
  account_entry, value_or_zero, serial_order_valid, foundry_serial_number_valid,
  foundry_genesis_valid,
}
use axon_go.Nova.Foundry.Genesis.{foundry_genesis_valid_lem}

abbrev minting : FoundryOutput
minting = record {
  owner = 5;
  serial_number = 2;
  token_scheme = record { minted_tokens = pos 4; melted_tokens = pos 0; maximum_supply = pos 10 };
}

abbrev creation : WorkingSet
creation = record {
  in_foundries = [];
  in_accounts = (5, account_output 1) ∷ [];
  out_accounts = (5, 2) ∷ [];
  outputs = foundry minting ∷ [];
  in_native_tokens = [];
  out_native_tokens = ((5, 2, 0), pos 4) ∷ [];
}

foundry_genesis_valid_lem_example :
    (start : ℕ) × (end_inc : ℕ) × (account_entry creation.in_accounts 5
      ≡ some (account_output start))
    × (account_entry creation.out_accounts 5 ≡ some end_inc)
    × (start < 2)
    × (2 ≤ end_inc)
    × (pos 0 ≡ pos 0)
    × (value_or_zero creation.out_native_tokens (foundry_id minting) ≡ pos 4)
unfolding foundry_genesis_valid state_transition genesis_valid value_or_zero foundry_id same_id
    has_foundry foundry_serial_number_valid serial_order_valid
foundry_genesis_valid_lem_example = foundry_genesis_valid_lem creation minting refl
