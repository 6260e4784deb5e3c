-- ===== src/Tests/Tokens.antt =====
-- token_scheme_simple.go at concrete inputs.
use axon_go.Common.{◌≡◌, refl, ◌↔◌}
use axon_go.Common.Int.{pos, ◌+ℤ◌, ◌-ℤ◌, ◌≤ℤ◌}
use axon_go.Common.Result.{ok}
use axon_go.TokenScheme.{
  SimpleTokenScheme, simple, genesis_valid, destruction_valid, balance_valid, state_change_valid,
}
use axon_go.TokenScheme.Supply.{
  IsBalanced, state_change_valid_iff, History, created, changed, History-supply,
  destruction_valid_iff,
}

abbrev start : SimpleTokenScheme
start = record { minted_tokens = pos 50; melted_tokens = pos 0; maximum_supply = pos 100 }

abbrev melted : SimpleTokenScheme
melted = record { minted_tokens = pos 50; melted_tokens = pos 20; maximum_supply = pos 100 }

melts : state_change_valid start (simple melted) (pos 50) (pos 30) ≡ ok tt
unfolding state_change_valid balance_valid ◌-ℤ◌
melts = refl

starts : genesis_valid start (pos 50) ≡ ok tt
unfolding genesis_valid
starts = refl

after_melting : History melted (pos 50 +ℤ (pos 30 -ℤ pos 50))
after_melting = changed (created start (pos 50) starts) melted (pos 50) (pos 30) melts

state_change_valid_iff_example :
    (state_change_valid start (simple melted) (pos 50) (pos 30) ≡ ok tt)
    ↔ IsBalanced start melted (pos 50) (pos 30)
state_change_valid_iff_example = state_change_valid_iff start melted (pos 50) (pos 30)

History-supply_example : (pos 50 +ℤ (pos 30 -ℤ pos 50) +ℤ pos 20 ≡ pos 50) × (pos 0 ≤ℤ pos 20)
History-supply_example = History-supply after_melting

destruction_valid_iff_example :
    (destruction_valid melted (pos 0) (pos 30) ≡ ok tt)
    ↔ (pos 50 +ℤ (pos 30 -ℤ pos 50) +ℤ (pos 0 -ℤ pos 30) ≡ pos 0)
destruction_valid_iff_example = destruction_valid_iff (pos 0) (pos 30) after_melting
