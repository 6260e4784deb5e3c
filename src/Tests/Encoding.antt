-- ===== src/Tests/Encoding.antt =====
-- The encodings at concrete inputs.
use axon_go.Common.{ℕ, ◌≡◌, refl, arith, List, [], ◌∷◌, length}
use axon_go.Common.Result.{ok, err}
use axon_go.Base32.{encode, decode, encoded_len, decoded_len, non_zero_padding}
use axon_go.Bech32
use axon_go.Bech32.{
  charset_encode, charset_decode, dec_map, to_lower, to_upper, first_change, validate_case,
  hrp_valid, last_index, mixed_case, at,
}
use axon_go.Merkle.{bytes_equal}
use axon_go.Bech32.Checksum.{
  add_gens, polymod_step, polymod_from, polymod, hrp_expand, checksum_digits, create_checksum,
  verify_checksum,
}
use axon_go.Bech32.RoundTrip.{encode-decode}
use axon_go.Base32.RoundTrip.{encode-IsDecoded}

-- Two blocks, the second one of two bytes.
abbrev bytes : List ℕ
bytes = 255 ∷ 0 ∷ 17 ∷ 128 ∷ 90 ∷ 1 ∷ 254 ∷ []

encode-IsDecoded_example :
    (decode 0 (encode bytes) ≡ ok bytes)
    × (length (encode bytes) ≡ encoded_len (length bytes))
    × (decoded_len (length (encode bytes)) ≡ length bytes)
encode-IsDecoded_example = encode-IsDecoded bytes 0 (omega arith)

encode_bytes : encode (255 ∷ 0 ∷ []) ≡ 31 ∷ 28 ∷ 0 ∷ 0 ∷ []
unfolding encode
encode_bytes = refl

decode_padded : decode 0 (31 ∷ 29 ∷ []) ≡ err (non_zero_padding 1)
unfolding decode
decode_padded = refl

-- "rms" and three bytes.
encode-decode_example :
    (text : List ℕ) × (Bech32.encode (114 ∷ 109 ∷ 115 ∷ []) (255 ∷ 0 ∷ 17 ∷ []) ≡ ok text)
    × (Bech32.decode text ≡ ok (to_lower (114 ∷ 109 ∷ 115 ∷ []), 255 ∷ 0 ∷ 17 ∷ []))
unfolding encoded_len hrp_valid validate_case first_change
encode-decode_example =
    encode-decode (114 ∷ 109 ∷ 115 ∷ []) (255 ∷ 0 ∷ 17 ∷ []) (omega arith) (omega arith)
      (omega arith) refl refl

-- "A12UEL5L", a test vector of BIP 173.
encode_upper_case : Bech32.encode (65 ∷ []) [] ≡ ok (65 ∷ 49 ∷ 50 ∷ 85 ∷ 69 ∷ 76 ∷ 53 ∷ 76 ∷ [])
unfolding Bech32.encode Bech32.decode encode decode encoded_len charset_encode charset_decode
    dec_map to_lower to_upper first_change validate_case hrp_valid last_index bytes_equal add_gens
    polymod_step polymod_from polymod hrp_expand checksum_digits create_checksum verify_checksum
encode_upper_case = refl

-- "A12uEL5L" is in two cases.
decode_mixed_case :
    Bech32.decode (65 ∷ 49 ∷ 50 ∷ 117 ∷ 69 ∷ 76 ∷ 53 ∷ 76 ∷ []) ≡ err (at mixed_case 3)
unfolding Bech32.encode Bech32.decode encode decode encoded_len charset_encode charset_decode
    dec_map to_lower to_upper first_change validate_case hrp_valid last_index bytes_equal add_gens
    polymod_step polymod_from polymod hrp_expand checksum_digits create_checksum verify_checksum
decode_mixed_case = refl
