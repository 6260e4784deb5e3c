-- ===== src/Bech32/Text.antt =====
-- bech32/chars.go, bech32/bech32.go: the characters of digits, and texts in one case.
use axon_go.Common.{
  ℕ, zero, suc, ◌+◌, ◌<◌, ◌==◌, ◌≡◌, refl, ap, ap₂, arith, Bool, true, false, not, ◌&&◌, Option,
  none, some, List, [], ◌∷◌, ◌++◌, map, length, take, drop, get_elem?, inl, inr, Option-cases,
  Bool-cases,
}
use axon_go.Common.Result.{ok}
use axon_go.Base32.Digits.{AreDigits}
use axon_go.Bech32.{
  Error, charset, charset_encode, charset_decode, dec_map, to_lower, to_upper, lower_byte,
  upper_byte, first_change, validate_case, hrp_valid, is_valid_hrp_char, last_index,
}

abbrev is_some : Option ℕ → ℕ → Bool
is_some none d = false
is_some (some e) d = e == d

-- What is so of the character of a digit.
abbrev char_good : ℕ → Option ℕ → Bool
char_good d none = false
char_good d (some char) =
    is_some (dec_map 0 charset char) d
    && not (char == 49)
    && (lower_byte char == char)
    && not (upper_byte char == 49)
    && (lower_byte (upper_byte char) == char)

all_below : (ℕ → Bool) → ℕ → Bool
all_below f zero = true
all_below f (suc n) = f n && all_below f n

all_below-at : (f : ℕ → Bool) (n d : ℕ) → all_below f n ≡ true → d < n → f d ≡ true
unfolding all_below
all_below-at f zero d h lt = absurd (omega arith)
all_below-at f (suc n) d h lt = elim (Bool-cases (d == n)) [
  | inl e ↦ let same : d ≡ n = ground (arith, e) in rw same (ground (arith, h))
  | inr e ↦ all_below-at f n d (ground (arith, h)) (ground (arith, lt, e))
]

good : (d : ℕ) → d < 32 → char_good d (get_elem? charset d) ≡ true
unfolding all_below dec_map
good d lt = all_below-at (λ n. char_good n (get_elem? charset n)) 32 d refl lt

and-eq-true : (a b : Bool) → (a && b) ≡ true → (a ≡ true) × (b ≡ true)
and-eq-true true b h = (refl, h)
and-eq-true false b h = cc h

not-eq-true : (b : Bool) → not b ≡ true → b ≡ false
not-eq-true true h = cc h
not-eq-true false h = refl

==-eq-true : (a b : ℕ) → (a == b) ≡ true → a ≡ b
==-eq-true a b h = ground (arith, h)

is_some-eq-true : (o : Option ℕ) (d : ℕ) → is_some o d ≡ true → o ≡ some d
is_some-eq-true none d h = cc h
is_some-eq-true (some e) d h = ap some (==-eq-true e d h)

good_char :
    (d char : ℕ)
    → char_good d (some char) ≡ true
    → (dec_map 0 charset char ≡ some d)
      × ((char == 49) ≡ false)
      × (lower_byte char ≡ char)
      × ((upper_byte char == 49) ≡ false)
      × (lower_byte (upper_byte char) ≡ char)
good_char d char h =
    let (h1, raised) = and-eq-true _ (lower_byte (upper_byte char) == char) h in
    let (h2, sep') = and-eq-true _ (not (upper_byte char == 49)) h1 in
    let (h3, low) = and-eq-true _ (lower_byte char == char) h2 in
    let (dec, sep) = and-eq-true _ (not (char == 49)) h3 in
    (
      is_some-eq-true (dec_map 0 charset char) d dec,
      not-eq-true (char == 49) sep,
      ==-eq-true (lower_byte char) char low,
      not-eq-true (upper_byte char == 49) sep',
      ==-eq-true (lower_byte (upper_byte char)) char raised,
    )

-- The facts about the characters of digits that the text that holds them needs.
pub record IsSpelled (digits chars : List ℕ) : Type 0 where
  pub encoded : charset_encode digits ≡ ok chars
  pub decoded : (offset : ℕ) → charset_decode offset chars ≡ ok digits
  pub same_length : length chars ≡ length digits
  pub lower : to_lower chars ≡ chars
  pub raised : to_lower (to_upper chars) ≡ chars
  pub no_separator : last_index chars 49 ≡ none
  pub no_raised_separator : last_index (to_upper chars) 49 ≡ none

pub spelled : (digits : List ℕ) → AreDigits digits → (chars : List ℕ) × IsSpelled digits chars
unfolding charset_encode charset_decode to_lower to_upper last_index AreDigits
spelled [] h = (
  [],
  record {
    encoded = refl;
    decoded = λ offset. refl;
    same_length = refl;
    lower = refl;
    raised = refl;
    no_separator = refl;
    no_raised_separator = refl;
  },
)
spelled (d ∷ digits) (lt, h) =
    let (chars, s) = spelled digits h in
    elim (Option-cases (get_elem? charset d)) [
      | inl e ↦ absurd (ground (arith, e, good d lt))
      | inr (char, e) ↦
          let (dec, sep, low, sep', raise) = good_char d char (rw e at (good d lt)) in
          (
            char ∷ chars,
            record {
              encoded = ground (arith, e, s.encoded);
              decoded = λ offset. ground (arith, dec, s.decoded (offset + 1));
              same_length = omega (arith, s.same_length);
              lower = ap₂ (λ (x : ℕ) (xs : List ℕ). x ∷ xs) low s.lower;
              raised = ap₂ (λ (x : ℕ) (xs : List ℕ). x ∷ xs) raise s.raised;
              no_separator = ground (arith, s.no_separator, sep);
              no_raised_separator = ground (arith, s.no_raised_separator, sep');
            },
          )
    ]

-- Conversions of a text of two parts, and of a converted text.
pub to_lower-append : (xs ys : List ℕ) → to_lower (xs ++ ys) ≡ to_lower xs ++ to_lower ys
unfolding to_lower
to_lower-append [] ys = refl
to_lower-append (x ∷ xs) ys = ap (λ (zs : List ℕ). lower_byte x ∷ zs) (to_lower-append xs ys)

pub to_upper-append : (xs ys : List ℕ) → to_upper (xs ++ ys) ≡ to_upper xs ++ to_upper ys
unfolding to_upper
to_upper-append [] ys = refl
to_upper-append (x ∷ xs) ys = ap (λ (zs : List ℕ). upper_byte x ∷ zs) (to_upper-append xs ys)

lower_upper : (c : ℕ) → lower_byte (upper_byte c) ≡ lower_byte c
lower_upper c = ground arith

pub to_lower-to_upper : (s : List ℕ) → to_lower (to_upper s) ≡ to_lower s
unfolding to_lower to_upper
to_lower-to_upper [] = refl
to_lower-to_upper (c ∷ s) =
    ap₂ (λ (x : ℕ) (xs : List ℕ). x ∷ xs) (lower_upper c) (to_lower-to_upper s)

upper_upper : (c : ℕ) → upper_byte (upper_byte c) ≡ upper_byte c
upper_upper c = ground arith

pub to_upper-to_upper : (s : List ℕ) → to_upper (to_upper s) ≡ to_upper s
unfolding to_upper
to_upper-to_upper [] = refl
to_upper-to_upper (c ∷ s) =
    ap₂ (λ (x : ℕ) (xs : List ℕ). x ∷ xs) (upper_upper c) (to_upper-to_upper s)

lower_lower : (c : ℕ) → lower_byte (lower_byte c) ≡ lower_byte c
lower_lower c = ground arith

pub to_lower-to_lower : (s : List ℕ) → to_lower (to_lower s) ≡ to_lower s
unfolding to_lower
to_lower-to_lower [] = refl
to_lower-to_lower (c ∷ s) =
    ap₂ (λ (x : ℕ) (xs : List ℕ). x ∷ xs) (lower_lower c) (to_lower-to_lower s)

pub length-to_lower : (s : List ℕ) → length (to_lower s) ≡ length s
unfolding to_lower
length-to_lower [] = refl
length-to_lower (c ∷ s) = ap suc (length-to_lower s)

pub length-to_upper : (s : List ℕ) → length (to_upper s) ≡ length s
unfolding to_upper
length-to_upper [] = refl
length-to_upper (c ∷ s) = ap suc (length-to_upper s)

-- A text that a conversion keeps has no change.
no_change :
    (convert : ℕ → ℕ) (i : ℕ) (s : List ℕ) → map convert s ≡ s → first_change convert i s ≡ none
unfolding first_change
no_change convert i [] h = refl
no_change convert i (c ∷ s) h =
    let same : convert c ≡ c = cc h in
    let rest : map convert s ≡ s = cc h in ground (arith, same, no_change convert (i + 1) s rest)

pub to_lower-validate_case : (s : List ℕ) → to_lower s ≡ s → validate_case s ≡ ok tt
unfolding validate_case to_lower
to_lower-validate_case s h = ground (arith, no_change lower_byte 0 s h)

pub to_upper-validate_case : (s : List ℕ) → to_upper s ≡ s → validate_case s ≡ ok tt
unfolding validate_case to_upper
to_upper-validate_case s h = ground (arith, no_change upper_byte 0 s h)

-- The last separator is the one before a text without separators.
pub last_index-append :
    (xs ys : List ℕ) → last_index ys 49 ≡ none → last_index (xs ++ (49 ∷ ys)) 49 ≡ some (length xs)
unfolding last_index
last_index-append [] ys h = ground (arith, h)
last_index-append (x ∷ xs) ys h = rw (last_index-append xs ys h) refl

pub take-append : (xs ys : List ℕ) → take (length xs) (xs ++ ys) ≡ xs
take-append [] ys = refl
take-append (x ∷ xs) ys = ap (λ (zs : List ℕ). x ∷ zs) (take-append xs ys)

pub drop-append : (xs : List ℕ) (y : ℕ) (ys : List ℕ) → drop (length xs + 1) (xs ++ (y ∷ ys)) ≡ ys
drop-append [] y ys = refl
drop-append (x ∷ xs) y ys =
    rw (let e : suc (length xs) + 1 ≡ suc (length xs + 1) = omega arith in e) (drop-append xs y ys)

-- A human-readable part is valid in upper case too.
pub hrp_valid-to_upper :
    (error error' : ℕ → Error) (i : ℕ) (hrp : List ℕ)
    → hrp_valid error i hrp ≡ ok tt
    → (hrp_valid error' i hrp ≡ ok tt) × (hrp_valid error' i (to_upper hrp) ≡ ok tt)
unfolding hrp_valid to_upper
hrp_valid-to_upper error error' i [] h = (refl, refl)
hrp_valid-to_upper error error' i (c ∷ hrp) h =
    let valid : is_valid_hrp_char c ≡ true = ground (arith, h) in
    let (same, raised) = hrp_valid-to_upper error error' (i + 1) hrp (ground (arith, h)) in
    let valid' : is_valid_hrp_char (upper_byte c) ≡ true = ground (arith, valid) in
    (ground (arith, valid, same), ground (arith, valid', raised))
