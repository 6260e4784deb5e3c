-- ===== src/Base32.antt =====
-- bech32/internal/base32/base32.go: bytes as digits of 5 bits, in blocks of 5 bytes and 8 digits. A
-- block that the code fills by falling through its cases is written out for each length. Of two
-- operands of `|` the shifted one stands first.
pub mod RoundTrip
pub mod Digits
use Prim.Native.Nat.{bit_and, bit_or}
use axon_go.Common.{ℕ, ◌+◌, ◌*◌, ◌/◌, ◌==◌, Bool, not, List, [], ◌∷◌, ◌++◌, shr, shl, u8}
use axon_go.Common.Result.{Result, ok, err, ◌>>=◌, ◌>>◌, reject_if}

pub data Error : Type 0 where
  invalid_length non_zero_padding : ℕ → Error

-- `EncodedLen` and `DecodedLen`.
unfoldable pub encoded_len : ℕ → ℕ
encoded_len n = (n * 8 + 4) / 5

unfoldable pub decoded_len : ℕ → ℕ
decoded_len n = n * 5 / 8

-- The digits of a block, by the byte that they start in and what is carried from the next one.
abbrev pub digit : ℕ → ℕ
digit x = bit_and x 31

abbrev pub digit1 : ℕ → ℕ → ℕ
digit1 a carry = bit_or (digit (u8 (shl a 2))) carry

abbrev pub digit3 : ℕ → ℕ → ℕ
digit3 b carry = bit_or (digit (u8 (shl b 4))) carry

abbrev pub digit4 : ℕ → ℕ → ℕ
digit4 c carry = bit_or (digit (u8 (shl c 1))) carry

abbrev pub digit6 : ℕ → ℕ → ℕ
digit6 d carry = bit_or (digit (u8 (shl d 3))) carry

unfoldable pub encode : List ℕ → List ℕ
encode [] = []
encode (a ∷ []) = shr a 3 ∷ digit1 a 0 ∷ []
encode (a ∷ b ∷ []) = shr a 3 ∷ digit1 a (digit (shr b 6)) ∷ digit (shr b 1) ∷ digit3 b 0 ∷ []
encode (a ∷ b ∷ c ∷ []) =
    shr a 3
    ∷ digit1 a (digit (shr b 6))
    ∷ digit (shr b 1)
    ∷ digit3 b (digit (shr c 4))
    ∷ digit4 c 0
    ∷ []
encode (a ∷ b ∷ c ∷ d ∷ []) =
    shr a 3
    ∷ digit1 a (digit (shr b 6))
    ∷ digit (shr b 1)
    ∷ digit3 b (digit (shr c 4))
    ∷ digit4 c (shr d 7)
    ∷ digit (shr d 2)
    ∷ digit6 d 0
    ∷ []
encode (a ∷ b ∷ c ∷ d ∷ e ∷ src) =
    shr a 3
    ∷ digit1 a (digit (shr b 6))
    ∷ digit (shr b 1)
    ∷ digit3 b (digit (shr c 4))
    ∷ digit4 c (shr d 7)
    ∷ digit (shr d 2)
    ∷ digit6 d (shr e 5)
    ∷ digit e
    ∷ encode src

-- The bytes of a block, by the digits that they lie in.
abbrev pub byte0 : ℕ → ℕ → ℕ
byte0 s t = bit_or (u8 (shl s 3)) (shr t 2)

abbrev pub byte1 : ℕ → ℕ → ℕ → ℕ
byte1 s t u = bit_or (bit_or (u8 (shl s 6)) (u8 (shl t 1))) (shr u 4)

abbrev pub byte2 : ℕ → ℕ → ℕ
byte2 s t = bit_or (u8 (shl s 4)) (shr t 1)

abbrev pub byte3 : ℕ → ℕ → ℕ → ℕ
byte3 s t u = bit_or (bit_or (u8 (shl s 7)) (u8 (shl t 2))) (shr u 3)

abbrev pub byte4 : ℕ → ℕ → ℕ
byte4 s t = bit_or (u8 (shl s 5)) t

-- A last block whose last digit has padding.
abbrev pub padded : ℕ → ℕ → ℕ → List ℕ → Result Error (List ℕ)
padded last mask offset bytes =
    reject_if (not (bit_and last mask == 0)) (non_zero_padding offset) >> ok bytes

-- `Decode` from an offset on; the bytes that are written before an error are left out.
unfoldable pub decode : ℕ → List ℕ → Result Error (List ℕ)
decode read [] = ok []
decode read (s ∷ []) = err (invalid_length read)
decode read (s ∷ t ∷ []) = padded t 3 (read + 1) (byte0 s t ∷ [])
decode read (s ∷ t ∷ u ∷ []) = err (invalid_length read)
decode read (s ∷ t ∷ u ∷ v ∷ []) = padded v 15 (read + 3) (byte0 s t ∷ byte1 t u v ∷ [])
decode read (s ∷ t ∷ u ∷ v ∷ w ∷ []) =
    padded w 1 (read + 4) (byte0 s t ∷ byte1 t u v ∷ byte2 v w ∷ [])
decode read (s ∷ t ∷ u ∷ v ∷ w ∷ x ∷ []) = err (invalid_length read)
decode read (s ∷ t ∷ u ∷ v ∷ w ∷ x ∷ y ∷ []) =
    padded y 7 (read + 6) (byte0 s t ∷ byte1 t u v ∷ byte2 v w ∷ byte3 w x y ∷ [])
decode read (s ∷ t ∷ u ∷ v ∷ w ∷ x ∷ y ∷ z ∷ src) = do
  bytes ← decode (read + 8) src
  ok (byte0 s t ∷ byte1 t u v ∷ byte2 v w ∷ byte3 w x y ∷ byte4 y z ∷ bytes)
