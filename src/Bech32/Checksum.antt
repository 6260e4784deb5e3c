-- ===== src/Bech32/Checksum.antt =====
-- bech32/checksum.go: the checksum of BIP 173. A state has 30 bits.
use Prim.Native.Nat.{bit_and, bit_xor}
use axon_go.Common.{ℕ, ◌+◌, ◌==◌, Bool, List, [], ◌∷◌, ◌++◌, map, if◌then◌else◌, shr, shl}

abbrev pub gen : List ℕ
gen = 996825010 ∷ 642813549 ∷ 513874426 ∷ 1027748829 ∷ 705979059 ∷ []

-- The loop over the generators from an index on.
unfoldable pub add_gens : ℕ → ℕ → List ℕ → ℕ → ℕ
add_gens b i [] chk = chk
add_gens b i (g ∷ gens) chk =
    add_gens b (i + 1) gens (if bit_and (shr b i) 1 == 0 then chk else bit_xor chk g)

-- The body of the loop of `bech32Polymod` for one value.
unfoldable pub polymod_step : ℕ → ℕ → ℕ
polymod_step chk v = add_gens (shr chk 25) 0 gen (bit_xor (shl (bit_and chk 33554431) 5) v)

-- The loop, from a state.
unfoldable pub polymod_from : ℕ → List ℕ → ℕ
polymod_from chk [] = chk
polymod_from chk (v ∷ values) = polymod_from (polymod_step chk v) values

unfoldable pub polymod : List ℕ → ℕ
polymod values = polymod_from 1 values

unfoldable pub hrp_expand : List ℕ → List ℕ
hrp_expand s = map (λ x. shr x 5) s ++ (0 ∷ map (λ x. bit_and x 31) s)

-- The digits of a state, the highest one first.
unfoldable pub checksum_digits : ℕ → List ℕ
checksum_digits p =
    bit_and (shr p 25) 31
    ∷ bit_and (shr p 20) 31
    ∷ bit_and (shr p 15) 31
    ∷ bit_and (shr p 10) 31
    ∷ bit_and (shr p 5) 31
    ∷ bit_and p 31
    ∷ []

unfoldable pub create_checksum : List ℕ → List ℕ → List ℕ
create_checksum hrp blocks =
    checksum_digits
      (bit_xor (polymod ((hrp_expand hrp ++ blocks) ++ (0 ∷ 0 ∷ 0 ∷ 0 ∷ 0 ∷ 0 ∷ []))) 1)

unfoldable pub verify_checksum : List ℕ → List ℕ → Bool
verify_checksum hrp data_part = polymod (hrp_expand hrp ++ data_part) == 1
