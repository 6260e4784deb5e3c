-- ===== src/Base32/RoundTrip.antt =====
-- bech32/internal/base32/base32.go: what is encoded is decoded.
use Prim.Native.Nat.{bit_and, bit_or}
use axon_go.Common.{
  ℕ, ◌+◌, ◌*◌, ◌/◌, ◌%◌, ◌^◌, ◌<◌, ◌≡◌, refl, ap, ◌∙◌, arith, List, [], ◌∷◌, length, shr, shl, u8,
}
use axon_go.Common.Bits.{bit_or_shifted, bit_and_mask}
use axon_go.Common.Result.{Result, ok, ◌>>=◌}
use axon_go.Base32.{
  Error, digit, digit1, digit3, digit4, digit6, encode, byte0, byte1, byte2, byte3, byte4, padded,
  decode, encoded_len, decoded_len,
}

pub digit_mod : (x : ℕ) → digit x ≡ x % 32
digit_mod x = bit_and_mask 5 x

pub digit1_value : (a carry : ℕ) → a < 256 → carry < 4 → digit1 a carry ≡ a % 8 * 4 + carry
digit1_value a carry h k =
    let high : digit (u8 (shl a 2)) ≡ a % 8 * 2 ^ 2 = omega (arith, digit_mod (u8 (shl a 2))) in
    ap (λ (x : ℕ). bit_or x carry) high ∙ bit_or_shifted 2 (a % 8) carry k

pub digit3_value : (b carry : ℕ) → b < 256 → carry < 16 → digit3 b carry ≡ b % 2 * 16 + carry
digit3_value b carry h k =
    let high : digit (u8 (shl b 4)) ≡ b % 2 * 2 ^ 4 = omega (arith, digit_mod (u8 (shl b 4))) in
    ap (λ (x : ℕ). bit_or x carry) high ∙ bit_or_shifted 4 (b % 2) carry k

pub digit4_value : (c carry : ℕ) → c < 256 → carry < 2 → digit4 c carry ≡ c % 16 * 2 + carry
digit4_value c carry h k =
    let high : digit (u8 (shl c 1)) ≡ c % 16 * 2 ^ 1 = omega (arith, digit_mod (u8 (shl c 1))) in
    ap (λ (x : ℕ). bit_or x carry) high ∙ bit_or_shifted 1 (c % 16) carry k

pub digit6_value : (d carry : ℕ) → d < 256 → carry < 8 → digit6 d carry ≡ d % 4 * 8 + carry
digit6_value d carry h k =
    let high : digit (u8 (shl d 3)) ≡ d % 4 * 2 ^ 3 = omega (arith, digit_mod (u8 (shl d 3))) in
    ap (λ (x : ℕ). bit_or x carry) high ∙ bit_or_shifted 3 (d % 4) carry k

-- The bytes, by the values of their digits.
byte0_value : (a s t : ℕ) → a < 256 → s ≡ a / 8 → t / 4 ≡ a % 8 → byte0 s t ≡ a
byte0_value a s t h p q =
    let high : u8 (shl s 3) ≡ a / 8 * 2 ^ 3 = omega arith in
    let low : shr t 2 ≡ a % 8 = omega arith in
    ap (λ (x : ℕ). bit_or x (shr t 2)) high
    ∙ (ap (bit_or (a / 8 * 2 ^ 3)) low
        ∙ (bit_or_shifted 3 (a / 8) (a % 8) (omega arith) ∙ omega arith))

byte1_value :
    (b s t u : ℕ) → b < 256 → s % 4 ≡ b / 64 → t ≡ b / 2 % 32 → u / 16 ≡ b % 2 → byte1 s t u ≡ b
byte1_value b s t u h p q r =
    let high : u8 (shl s 6) ≡ b / 64 * 2 ^ 6 = omega arith in
    let middle : u8 (shl t 1) ≡ b / 2 % 32 * 2 = omega arith in
    let low : shr u 4 ≡ b % 2 = omega arith in
    let upper : bit_or (u8 (shl s 6)) (u8 (shl t 1)) ≡ b / 2 * 2 ^ 1 =
      ap (λ (x : ℕ). bit_or x (u8 (shl t 1))) high
      ∙ (ap (bit_or (b / 64 * 2 ^ 6)) middle
          ∙ (bit_or_shifted 6 (b / 64) (b / 2 % 32 * 2) (omega arith) ∙ omega arith)) in
    ap (λ (x : ℕ). bit_or x (shr u 4)) upper
    ∙ (ap (bit_or (b / 2 * 2 ^ 1)) low
        ∙ (bit_or_shifted 1 (b / 2) (b % 2) (omega arith) ∙ omega arith))

byte2_value : (c s t : ℕ) → c < 256 → s % 16 ≡ c / 16 → t / 2 ≡ c % 16 → byte2 s t ≡ c
byte2_value c s t h p q =
    let high : u8 (shl s 4) ≡ c / 16 * 2 ^ 4 = omega arith in
    let low : shr t 1 ≡ c % 16 = omega arith in
    ap (λ (x : ℕ). bit_or x (shr t 1)) high
    ∙ (ap (bit_or (c / 16 * 2 ^ 4)) low
        ∙ (bit_or_shifted 4 (c / 16) (c % 16) (omega arith) ∙ omega arith))

byte3_value :
    (d s t u : ℕ) → d < 256 → s % 2 ≡ d / 128 → t ≡ d / 4 % 32 → u / 8 ≡ d % 4 → byte3 s t u ≡ d
byte3_value d s t u h p q r =
    let high : u8 (shl s 7) ≡ d / 128 * 2 ^ 7 = omega arith in
    let middle : u8 (shl t 2) ≡ d / 4 % 32 * 4 = omega arith in
    let low : shr u 3 ≡ d % 4 = omega arith in
    let upper : bit_or (u8 (shl s 7)) (u8 (shl t 2)) ≡ d / 4 * 2 ^ 2 =
      ap (λ (x : ℕ). bit_or x (u8 (shl t 2))) high
      ∙ (ap (bit_or (d / 128 * 2 ^ 7)) middle
          ∙ (bit_or_shifted 7 (d / 128) (d / 4 % 32 * 4) (omega arith) ∙ omega arith)) in
    ap (λ (x : ℕ). bit_or x (shr u 3)) upper
    ∙ (ap (bit_or (d / 4 * 2 ^ 2)) low
        ∙ (bit_or_shifted 2 (d / 4) (d % 4) (omega arith) ∙ omega arith))

byte4_value : (e s t : ℕ) → e < 256 → s % 8 ≡ e / 32 → t ≡ e % 32 → byte4 s t ≡ e
byte4_value e s t h p q =
    let high : u8 (shl s 5) ≡ e / 32 * 2 ^ 5 = omega arith in
    ap (λ (x : ℕ). bit_or x t) high
    ∙ (ap (bit_or (e / 32 * 2 ^ 5)) q
        ∙ (bit_or_shifted 5 (e / 32) (e % 32) (omega arith) ∙ omega arith))

-- The bytes of a block of which the digits are encoded, by what the last digit carries.
block0 : (a carry : ℕ) → a < 256 → carry < 4 → byte0 (shr a 3) (digit1 a carry) ≡ a
block0 a carry h k =
    byte0_value a (shr a 3) (digit1 a carry) h (omega arith)
      (omega (arith, digit1_value a carry h k))

block1 :
    (a b carry : ℕ)
    → a < 256
    → b < 256
    → carry < 16
    → byte1 (digit1 a (digit (shr b 6))) (digit (shr b 1)) (digit3 b carry) ≡ b
block1 a b carry h h' k =
    let carried : digit (shr b 6) < 4 = omega (arith, digit_mod (shr b 6)) in
    byte1_value b (digit1 a (digit (shr b 6))) (digit (shr b 1)) (digit3 b carry) h'
      (omega (arith, digit1_value a (digit (shr b 6)) h carried, digit_mod (shr b 6)))
      (omega (arith, digit_mod (shr b 1))) (omega (arith, digit3_value b carry h' k))

block2 :
    (b c carry : ℕ)
    → b < 256
    → c < 256
    → carry < 2
    → byte2 (digit3 b (digit (shr c 4))) (digit4 c carry) ≡ c
block2 b c carry h h' k =
    let carried : digit (shr c 4) < 16 = omega (arith, digit_mod (shr c 4)) in
    byte2_value c (digit3 b (digit (shr c 4))) (digit4 c carry) h'
      (omega (arith, digit3_value b (digit (shr c 4)) h carried, digit_mod (shr c 4)))
      (omega (arith, digit4_value c carry h' k))

block3 :
    (c d carry : ℕ)
    → c < 256
    → d < 256
    → carry < 8
    → byte3 (digit4 c (shr d 7)) (digit (shr d 2)) (digit6 d carry) ≡ d
block3 c d carry h h' k =
    let carried : shr d 7 < 2 = omega arith in
    byte3_value d (digit4 c (shr d 7)) (digit (shr d 2)) (digit6 d carry) h'
      (omega (arith, digit4_value c (shr d 7) h carried)) (omega (arith, digit_mod (shr d 2)))
      (omega (arith, digit6_value d carry h' k))

block4 : (d e : ℕ) → d < 256 → e < 256 → byte4 (digit6 d (shr e 5)) (digit e) ≡ e
block4 d e h h' =
    let carried : shr e 5 < 8 = omega arith in
    byte4_value e (digit6 d (shr e 5)) (digit e) h'
      (omega (arith, digit6_value d (shr e 5) h carried)) (omega (arith, digit_mod e))

carry_b : (b : ℕ) → b < 256 → digit (shr b 6) < 4
carry_b b h = omega (arith, digit_mod (shr b 6))

carry_c : (c : ℕ) → c < 256 → digit (shr c 4) < 16
carry_c c h = omega (arith, digit_mod (shr c 4))

padded_lem :
    (last mask offset : ℕ) (bytes : List ℕ)
    → bit_and last mask ≡ 0
    → padded last mask offset bytes ≡ ok bytes
padded_lem last mask offset bytes h = ground arith

abbrev pub AreBytes : List ℕ → Type 0
AreBytes [] = Unit {0}
AreBytes (x ∷ xs) = (x < 256) × AreBytes xs

decode-encode : (src : List ℕ) (read : ℕ) → AreBytes src → decode read (encode src) ≡ ok src
unfolding encode decode
decode-encode [] read h = refl
decode-encode (a ∷ []) read (ha, _) =
    let clear : bit_and (digit1 a 0) 3 ≡ 0 =
      omega (arith, bit_and_mask 2 (digit1 a 0), digit1_value a 0 ha (omega arith)) in
    padded_lem (digit1 a 0) 3 (read + 1) (byte0 (shr a 3) (digit1 a 0) ∷ []) clear
    ∙ cc (block0 a 0 ha (omega arith))
decode-encode (a ∷ b ∷ []) read (ha, (hb, _)) =
    let clear : bit_and (digit3 b 0) 15 ≡ 0 =
      omega (arith, bit_and_mask 4 (digit3 b 0), digit3_value b 0 hb (omega arith)) in
    padded_lem (digit3 b 0) 15 (read + 3) _ clear
    ∙ cc (block0 a (digit (shr b 6)) ha (carry_b b hb), block1 a b 0 ha hb (omega arith))
decode-encode (a ∷ b ∷ c ∷ []) read (ha, (hb, (hc, _))) =
    let clear : bit_and (digit4 c 0) 1 ≡ 0 =
      omega (arith, bit_and_mask 1 (digit4 c 0), digit4_value c 0 hc (omega arith)) in
    padded_lem (digit4 c 0) 1 (read + 4) _ clear
    ∙ cc (
      block0 a (digit (shr b 6)) ha (carry_b b hb),
      block1 a b (digit (shr c 4)) ha hb (carry_c c hc),
      block2 b c 0 hb hc (omega arith),
    )
decode-encode (a ∷ b ∷ c ∷ d ∷ []) read (ha, (hb, (hc, (hd, _)))) =
    let clear : bit_and (digit6 d 0) 7 ≡ 0 =
      omega (arith, bit_and_mask 3 (digit6 d 0), digit6_value d 0 hd (omega arith)) in
    padded_lem (digit6 d 0) 7 (read + 6) _ clear
    ∙ cc (
      block0 a (digit (shr b 6)) ha (carry_b b hb),
      block1 a b (digit (shr c 4)) ha hb (carry_c c hc),
      block2 b c (shr d 7) hb hc (omega arith),
      block3 c d 0 hc hd (omega arith),
    )
decode-encode (a ∷ b ∷ c ∷ d ∷ e ∷ src) read (ha, (hb, (hc, (hd, (he, rest))))) =
    ap
      (λ (r : Result Error (List ℕ)). r >>= λ bytes. ok (
        byte0 (shr a 3) (digit1 a (digit (shr b 6)))
        ∷ byte1 (digit1 a (digit (shr b 6))) (digit (shr b 1)) (digit3 b (digit (shr c 4)))
        ∷ byte2 (digit3 b (digit (shr c 4))) (digit4 c (shr d 7))
        ∷ byte3 (digit4 c (shr d 7)) (digit (shr d 2)) (digit6 d (shr e 5))
        ∷ byte4 (digit6 d (shr e 5)) (digit e)
        ∷ bytes))
      (decode-encode src (read + 8) rest)
    ∙ cc (
      block0 a (digit (shr b 6)) ha (carry_b b hb),
      block1 a b (digit (shr c 4)) ha hb (carry_c c hc),
      block2 b c (shr d 7) hb hc (omega arith),
      block3 c d (shr e 5) hc hd (omega arith),
      block4 d e hd he,
    )

length-encode : (src : List ℕ) → length (encode src) ≡ encoded_len (length src)
unfolding encode encoded_len
length-encode [] = refl
length-encode (a ∷ []) = refl
length-encode (a ∷ b ∷ []) = refl
length-encode (a ∷ b ∷ c ∷ []) = refl
length-encode (a ∷ b ∷ c ∷ d ∷ []) = refl
length-encode (a ∷ b ∷ c ∷ d ∷ e ∷ src) = omega (arith, length-encode src)

-- What is encoded is decoded: the digits of a list of bytes lead back to these bytes, whatever the
-- length of the list and the offset that errors are counted from. There are as many digits as
-- `EncodedLen` says, and `DecodedLen` of this number is the number of the bytes.
pub encode-IsDecoded :
    (src : List ℕ) (read : ℕ)
    → AreBytes src
    → (decode read (encode src) ≡ ok src)
      × (length (encode src) ≡ encoded_len (length src))
      × (decoded_len (length (encode src)) ≡ length src)
unfolding encoded_len decoded_len
encode-IsDecoded src read h =
    (decode-encode src read h, length-encode src, omega (arith, length-encode src))
