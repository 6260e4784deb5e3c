-- ===== src/Bech32/RoundTrip.antt =====
-- bech32/bech32.go: what is encoded is decoded.
use Prim.Native.Nat.{bit_and}
use axon_go.Common.{
  ℕ, ◌+◌, ◌-◌, ◌<◌, ◌≤◌, ◌≡◌, refl, ap, ap₂, ◌∙◌, sym, arith, true, List, ◌∷◌, ◌++◌, if◌then◌else◌,
  length, length-append, take, drop, inl, inr, Bool-cases, some,
}
use axon_go.Common.Bits.{bit_and_mask}
use axon_go.Common.Result.{ok}
use axon_go.Merkle.{bytes_equal}
use axon_go.Merkle.Completeness.{bytes_equal_sound}
use axon_go.Base32
use axon_go.Base32.{encoded_len}
use axon_go.Base32.RoundTrip.{AreBytes, encode-IsDecoded}
use axon_go.Base32.Digits.{AreDigits, AreDigits-append, encode-AreDigits}
use axon_go.Bech32.{
  Error, plain, at, invalid_character, charset_decode, to_lower, to_upper, validate_case, hrp_valid,
  last_index, encode, decode,
}
use axon_go.Bech32.Checksum.{create_checksum, verify_checksum, checksum_digits}
use axon_go.Bech32.Polymod.{create-verify_checksum}
use axon_go.Bech32.Text.{
  IsSpelled, spelled, to_lower-append, to_upper-append, to_lower-to_upper, to_upper-to_upper,
  length-to_lower, length-to_upper, to_lower-validate_case, to_upper-validate_case,
  last_index-append, take-append, drop-append, hrp_valid-to_upper,
}

low : (x : ℕ) → bit_and x 31 < 32
low x = omega (arith, bit_and_mask 5 x)

checksum-AreDigits : (hrp blocks : List ℕ) → AreDigits (create_checksum hrp blocks)
unfolding create_checksum checksum_digits AreDigits
checksum-AreDigits hrp blocks = (low _, (low _, (low _, (low _, (low _, (low _, tt))))))

length-create_checksum : (hrp blocks : List ℕ) → length (create_checksum hrp blocks) ≡ 6
unfolding create_checksum checksum_digits
length-create_checksum hrp blocks = refl

-- What the parts of a text are that is read.
record IsText (hrp chars text : List ℕ) : Type 0 where
  lower : to_lower text ≡ to_lower hrp ++ (49 ∷ chars)
  measured : length text ≡ length hrp + (1 + length chars)
  separator : last_index text 49 ≡ some (length hrp)
  valid : hrp_valid (at invalid_character) 0 (take (length hrp) text) ≡ ok tt
  one_case : validate_case text ≡ ok tt

-- A text is read where its digits are those of bytes with their checksum.
decode-text :
    (hrp src digits chars text : List ℕ)
    → IsText hrp chars text
    → digits ≡ Base32.encode src ++ create_checksum (to_lower hrp) (Base32.encode src)
    → IsSpelled digits chars
    → AreBytes src
    → 0 < length hrp
    → length text ≤ 90
    → decode text ≡ ok (to_lower hrp, src)
unfolding decode
decode-text hrp src digits chars text t e s bytes full short =
    let payload : List ℕ = Base32.encode src in
    let checksum : List ℕ = create_checksum (to_lower hrp) payload in
    let count : length digits ≡ length payload + 6 =
      ap length e
      ∙ (length-append payload checksum
          ∙ ap (λ (n : ℕ). length payload + n) (length-create_checksum (to_lower hrp) payload)) in
    let hrp_part : take (length hrp) (to_lower text) ≡ to_lower hrp =
      ap₂ take (sym (length-to_lower hrp)) t.lower ∙ take-append (to_lower hrp) (49 ∷ chars) in
    let chars_part : drop (length hrp + 1) (to_lower text) ≡ chars =
      ap₂ drop (ap (λ (n : ℕ). n + 1) (sym (length-to_lower hrp))) t.lower
      ∙ drop-append (to_lower hrp) 49 chars in
    let digits_part : charset_decode (length hrp + 1) (drop (length hrp + 1) (to_lower text))
        ≡ ok digits =
      ap (charset_decode (length hrp + 1)) chars_part ∙ s.decoded (length hrp + 1) in
    let verified : verify_checksum (take (length hrp) (to_lower text)) digits ≡ true =
      ap₂ verify_checksum hrp_part e ∙ create-verify_checksum (to_lower hrp) payload in
    let kept : take (length digits - 6) digits ≡ payload =
      ap₂ take (let n : length digits - 6 ≡ length payload = omega (arith, count) in n) e
      ∙ take-append payload checksum in
    let bytes_part : Base32.decode 0 (take (length digits - 6) digits) ≡ ok src =
      ap (Base32.decode 0) kept ∙ (encode-IsDecoded src 0 bytes).0 in
    let long : length hrp + 6 ≤ length text = omega (arith, t.measured, s.same_length, count) in
    let enough : 6 ≤ length digits = omega (arith, count) in
    ground (
      arith, t.separator, t.valid, t.one_case, hrp_part, digits_part, verified, bytes_part, full,
      short, long, enough,
    )

lower-IsText :
    (hrp digits chars : List ℕ) (error : ℕ → Error)
    → IsSpelled digits chars
    → hrp_valid error 0 hrp ≡ ok tt
    → hrp ≡ to_lower hrp
    → IsText hrp chars (hrp ++ (49 ∷ chars))
unfolding to_lower
lower-IsText hrp digits chars error s h same =
    let kept : to_lower (hrp ++ (49 ∷ chars)) ≡ hrp ++ (49 ∷ chars) =
      to_lower-append hrp (49 ∷ chars)
      ∙ ap₂ (λ (xs ys : List ℕ). xs ++ (49 ∷ ys)) (sym same) s.lower in
    record {
      lower = kept ∙ ap (λ (xs : List ℕ). xs ++ (49 ∷ chars)) same;
      measured = length-append hrp (49 ∷ chars) ∙ omega arith;
      separator = last_index-append hrp chars s.no_separator;
      valid =
          ap (hrp_valid (at invalid_character) 0) (take-append hrp (49 ∷ chars))
          ∙ (hrp_valid-to_upper error (at invalid_character) 0 hrp h).0;
      one_case = to_lower-validate_case (hrp ++ (49 ∷ chars)) kept;
    }

upper-IsText :
    (hrp digits chars : List ℕ) (error : ℕ → Error)
    → IsSpelled digits chars
    → hrp_valid error 0 hrp ≡ ok tt
    → IsText hrp chars (to_upper (hrp ++ (49 ∷ chars)))
unfolding to_upper to_lower
upper-IsText hrp digits chars error s h =
    let parts : to_upper (hrp ++ (49 ∷ chars)) ≡ to_upper hrp ++ (49 ∷ to_upper chars) =
      to_upper-append hrp (49 ∷ chars) in
    record {
      lower =
          to_lower-to_upper (hrp ++ (49 ∷ chars))
          ∙ (to_lower-append hrp (49 ∷ chars)
              ∙ ap (λ (ys : List ℕ). to_lower hrp ++ (49 ∷ ys)) s.lower);
      measured =
          length-to_upper (hrp ++ (49 ∷ chars)) ∙ (length-append hrp (49 ∷ chars) ∙ omega arith);
      separator =
          ap (λ (xs : List ℕ). last_index xs 49) parts
          ∙ (last_index-append (to_upper hrp) (to_upper chars) s.no_raised_separator
              ∙ ap some (length-to_upper hrp));
      valid =
          ap (hrp_valid (at invalid_character) 0) (
            ap₂ take (sym (length-to_upper hrp)) parts
            ∙ take-append (to_upper hrp) (49 ∷ to_upper chars))
          ∙ (hrp_valid-to_upper error (at invalid_character) 0 hrp h).1;
      one_case =
          to_upper-validate_case (to_upper (hrp ++ (49 ∷ chars)))
            (to_upper-to_upper (hrp ++ (49 ∷ chars)));
    }

-- The text of the last step of the encoding, in the case of its human-readable part.
cased-IsText :
    (hrp digits chars : List ℕ) (error : ℕ → Error)
    → IsSpelled digits chars
    → hrp_valid error 0 hrp ≡ ok tt
    → IsText hrp chars (
        if bytes_equal hrp (to_lower hrp)
        then hrp ++ (49 ∷ chars)
        else to_upper (hrp ++ (49 ∷ chars)))
cased-IsText hrp digits chars error s h = elim (Bool-cases (bytes_equal hrp (to_lower hrp))) [
  | inl e ↦ rw e (lower-IsText hrp digits chars error s h (bytes_equal_sound hrp (to_lower hrp) e))
  | inr e ↦ rw e (upper-IsText hrp digits chars error s h)
]

-- What is encoded is decoded: a human-readable part that is not empty, is in one case and has only the
-- characters that are allowed, and bytes that are few enough for a text of 90 characters, are encoded
-- without an error or a panic as a text, in either case, and this text is decoded, its checksum
-- included, into the part in lower case and the bytes.
pub encode-decode :
    (hrp src : List ℕ)
    → AreBytes src
    → 0 < length hrp
    → length hrp + encoded_len (length src) + 7 ≤ 90
    → hrp_valid (λ i. plain invalid_character) 0 hrp ≡ ok tt
    → validate_case hrp ≡ ok tt
    → (text : List ℕ) × (encode hrp src ≡ ok text) × (decode text ≡ ok (to_lower hrp, src))
unfolding encode
encode-decode hrp src bytes full short valid one_case =
    let payload : List ℕ = Base32.encode src in
    let checksum : List ℕ = create_checksum (to_lower hrp) payload in
    let digits : List ℕ = payload ++ checksum in
    let (chars, s) = spelled digits (
      AreDigits-append payload checksum (encode-AreDigits src bytes)
        (checksum-AreDigits (to_lower hrp) payload)) in
    let text : List ℕ =
      if bytes_equal hrp (to_lower hrp)
      then hrp ++ (49 ∷ chars)
      else to_upper (hrp ++ (49 ∷ chars)) in
    let t : IsText hrp chars text =
      cased-IsText hrp digits chars (λ i. plain invalid_character) s valid in
    let count : length digits ≡ encoded_len (length src) + 6 =
      length-append payload checksum
      ∙ ap₂ (λ (m n : ℕ). m + n) (encode-IsDecoded src 0 bytes).1
          (length-create_checksum (to_lower hrp) payload) in
    let fits : length text ≤ 90 = omega (arith, t.measured, s.same_length, count, short) in
    (
      text,
      ground (arith, full, short, valid, one_case, s.encoded),
      decode-text hrp src digits chars text t refl s bytes full fits,
    )
