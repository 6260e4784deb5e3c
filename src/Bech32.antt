-- ===== src/Bech32.antt =====
-- bech32/bech32.go, bech32/chars.go, bech32/errors.go: the Bech32 encoding of bytes with a
-- human-readable part. A text is the list of its bytes. Bytes from 128 on have no case here: the case
-- that Unicode gives to some characters outside of US-ASCII is left out.
pub mod Checksum
pub mod Polymod
pub mod Text
pub mod RoundTrip
use axon_go.Common.{
  ℕ, zero, suc, ◌+◌, ◌-◌, ◌==◌, Bool, true, false, not, ◌&&◌, ◌||◌, Option, none, some, List, [],
  ◌∷◌, ◌++◌, map, if◌then◌else◌, ltb, leb, length, take, drop, get_elem?,
}
use axon_go.Common.Result.{Result, ok, err, panic, ◌>>=◌, ◌>>◌, reject_if}
use axon_go.Merkle.{bytes_equal}
use axon_go.Base32
use axon_go.Base32.{encoded_len}
use axon_go.Bech32.Checksum.{create_checksum, verify_checksum}

-- The sentinel errors, those of the conversion of digits among them.
pub data Sentinel : Type 0 where
  invalid_length missing_separator invalid_separator mixed_case : Sentinel
  invalid_character invalid_checksum base32_invalid_length base32_non_zero_padding : Sentinel

-- A syntax error has an offset.
pub data Error : Type 0 where
  plain : Sentinel → Error
  at : Sentinel → ℕ → Error

-- `charset`: the characters of the digits, "qpzry9x8gf2tvdw0s3jn54khce6mua7l".
abbrev pub charset : List ℕ
charset =
    113 ∷ 112 ∷ 122 ∷ 114 ∷ 121 ∷ 57 ∷ 120 ∷ 56 ∷ 103 ∷ 102 ∷ 50 ∷ 116 ∷ 118 ∷ 100 ∷ 119 ∷ 48 ∷ 115
    ∷ 51 ∷ 106 ∷ 110 ∷ 53 ∷ 52 ∷ 107 ∷ 104 ∷ 99 ∷ 101 ∷ 54 ∷ 109 ∷ 117 ∷ 97 ∷ 55 ∷ 108 ∷ []

-- `encode` of the character set; an index that is not below its length panics.
unfoldable pub charset_encode : List ℕ → Result Error (List ℕ)
charset_encode [] = ok []
charset_encode (digit ∷ src) = elim (get_elem? charset digit) [
  | none ↦ panic
  | some char ↦ charset_encode src >>= λ chars. ok (char ∷ chars)
]

-- `decMap`, as `newEncoding` fills it from the characters that start at an index.
unfoldable pub dec_map : ℕ → List ℕ → ℕ → Option ℕ
dec_map index [] byte = none
dec_map index (char ∷ chars) byte =
    let later = dec_map (index + 1) chars byte in
    elim later [ none ↦ if char == byte then some index else none | some i ↦ some i ]

-- `decode` of the character set. The error has the offset of the character in the whole text, of which
-- the characters start at an offset.
unfoldable pub charset_decode : ℕ → List ℕ → Result Error (List ℕ)
charset_decode offset [] = ok []
charset_decode offset (char ∷ src) = elim (dec_map 0 charset char) [
  | none ↦ err (at invalid_character offset)
  | some digit ↦ charset_decode (offset + 1) src >>= λ digits. ok (digit ∷ digits)
]

abbrev pub lower_byte : ℕ → ℕ
lower_byte c = if leb 65 c && leb c 90 then c + 32 else c

abbrev pub upper_byte : ℕ → ℕ
upper_byte c = if leb 97 c && leb c 122 then c - 32 else c

-- `strings.ToLower` and `strings.ToUpper`.
unfoldable pub to_lower : List ℕ → List ℕ
to_lower s = map lower_byte s

unfoldable pub to_upper : List ℕ → List ℕ
to_upper s = map upper_byte s

-- The first index, counted from an offset, at which a text and its conversion differ; `none` is -1.
unfoldable pub first_change : (ℕ → ℕ) → ℕ → List ℕ → Option ℕ
first_change convert i [] = none
first_change convert i (c ∷ s) = if convert c == c then first_change convert (i + 1) s else some i

abbrev pub case_of : Option ℕ → Option ℕ → Result Error (Unit {0})
case_of (some upper) (some lower) =
    if ltb upper lower
    then err (at mixed_case lower)
    else if ltb lower upper
    then err (at mixed_case upper)
    else ok tt
case_of upper lower = ok tt

unfoldable pub validate_case : List ℕ → Result Error (Unit {0})
validate_case s = case_of (first_change lower_byte 0 s) (first_change upper_byte 0 s)

abbrev pub is_valid_hrp_char : ℕ → Bool
is_valid_hrp_char c = leb 33 c && leb c 126

-- The loop over the human-readable part, with the error of an index.
unfoldable pub hrp_valid : (ℕ → Error) → ℕ → List ℕ → Result Error (Unit {0})
hrp_valid error i [] = ok tt
hrp_valid error i (c ∷ hrp) =
    reject_if (not (is_valid_hrp_char c)) (error i) >> hrp_valid error (i + 1) hrp

unfoldable pub encode : List ℕ → List ℕ → Result Error (List ℕ)
encode hrp src = do
  reject_if (ltb 90 (length hrp + encoded_len (length src) + 6 + 1)) (plain invalid_length)
  reject_if (length hrp == 0) (plain invalid_length)
  hrp_valid (λ i. plain invalid_character) 0 hrp
  validate_case hrp
  let data_part = Base32.encode src
  chars ← charset_encode (data_part ++ create_checksum (to_lower hrp) data_part)
  let res = hrp ++ (49 ∷ chars)
  ok (if bytes_equal hrp (to_lower hrp) then res else to_upper res)

-- `strings.LastIndex` of a byte; `none` is -1.
unfoldable pub last_index : List ℕ → ℕ → Option ℕ
last_index [] byte = none
last_index (c ∷ s) byte = elim (last_index s byte) [
  | some i ↦ some (suc i)
  | none ↦ if c == byte then some 0 else none
]

abbrev pub separator_index : Option ℕ → Result Error ℕ
separator_index none = err (plain missing_separator)
separator_index (some i) = ok i

-- The errors of the conversion of the digits, with their offset in the text.
abbrev pub converted : ℕ → Result Base32.Error (List ℕ) → Result Error (List ℕ)
converted start (ok bytes) = ok bytes
converted start (err (Base32.invalid_length i)) = err (at base32_invalid_length (start + i))
converted start (err (Base32.non_zero_padding i)) = err (at base32_non_zero_padding (start + i))
converted start panic = panic

unfoldable pub decode : List ℕ → Result Error (List ℕ × List ℕ)
decode text = do
  reject_if (ltb 90 (length text)) (at invalid_length 90)
  hrp_len ← separator_index (last_index text 49)
  reject_if (ltb hrp_len 1 || ltb (length text) (hrp_len + 6)) (at invalid_separator hrp_len)
  hrp_valid (at invalid_character) 0 (take hrp_len text)
  validate_case text
  let s = to_lower text
  let hrp = take hrp_len s
  digits ← charset_decode (hrp_len + 1) (drop (hrp_len + 1) s)
  reject_if (ltb (length digits) 6 || not (verify_checksum hrp digits))
      (at invalid_checksum (length s - 6))
  bytes ← converted (hrp_len + 1) (Base32.decode 0 (take (length digits - 6) digits))
  ok (hrp, bytes)
