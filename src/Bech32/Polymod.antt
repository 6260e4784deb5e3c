-- ===== src/Bech32/Polymod.antt =====
-- bech32/checksum.go: the checksum that is created is verified.
use Prim.Native.Nat.{bit_and, bit_xor}
use axon_go.Common.{
  ℕ, ◌+◌, ◌*◌, ◌/◌, ◌%◌, ◌^◌, ◌<◌, ◌==◌, ◌≡◌, refl, ap, ap₂, ◌∙◌, sym, arith, List, [], ◌∷◌, ◌++◌,
  true, shr, shl, inl, inr, Bool-cases,
}
use axon_go.Common.Bits.{bit_and_mask}
use axon_go.Common.Xor.{
  zero-bit_xor, bit_xor_comm, bit_xor_self, bit_xor_assoc, bit_xor_split, bit_xor_bound,
}
use axon_go.Bech32.Checksum.{
  gen, add_gens, polymod_step, polymod_from, polymod, hrp_expand, checksum_digits, create_checksum,
  verify_checksum,
}

bit_xor-zero : (a : ℕ) → bit_xor a 0 ≡ a
bit_xor-zero a = bit_xor_comm a 0 ∙ zero-bit_xor a

-- A word that is added to the state before the generators is added after them.
add_gens_xor :
    (b i : ℕ) (gens : List ℕ) (y z : ℕ)
    → add_gens b i gens (bit_xor y z) ≡ bit_xor (add_gens b i gens y) z
unfolding add_gens
add_gens_xor b i [] y z = refl
add_gens_xor b i (g ∷ gens) y z = elim (Bool-cases (bit_and (shr b i) 1 == 0)) [
  | inl e ↦ rw e (add_gens_xor b (i + 1) gens y z)
  | inr e ↦
      let swap : bit_xor (bit_xor y z) g ≡ bit_xor (bit_xor y g) z =
        bit_xor_assoc y z g ∙ (ap (bit_xor y) (bit_xor_comm z g) ∙ sym (bit_xor_assoc y g z)) in
      rw e (ap (add_gens b (i + 1) gens) swap ∙ add_gens_xor b (i + 1) gens (bit_xor y g) z)
]

-- The word that a step adds, in the place of its digit.
shifted_xor :
    (m x d : ℕ)
    → d < 32
    → bit_xor (shl (bit_xor m x) 5) d ≡ bit_xor (bit_xor (shl m 5) 0) (x * 32 + d)
shifted_xor m x d h =
    let left : bit_xor (bit_xor m x * 32 + 0) (0 * 32 + d)
        ≡ bit_xor (bit_xor m x) 0 * 32 + bit_xor 0 d =
      bit_xor_split 5 (bit_xor m x) 0 0 d (omega arith) h in
    let right : bit_xor (m * 32 + 0) (x * 32 + d) ≡ bit_xor m x * 32 + bit_xor 0 d =
      bit_xor_split 5 m 0 x d (omega arith) h in
    let a : bit_xor (shl (bit_xor m x) 5) d ≡ bit_xor (bit_xor m x * 32 + 0) (0 * 32 + d) =
      ap₂ bit_xor (omega arith) (omega arith) in
    let b : bit_xor (bit_xor (shl m 5) 0) (x * 32 + d) ≡ bit_xor (m * 32 + 0) (x * 32 + d) =
      ap (λ (y : ℕ). bit_xor y (x * 32 + d)) (bit_xor-zero (shl m 5) ∙ omega arith) in
    omega (arith, a, b, left, right, bit_xor-zero (bit_xor m x))

-- A step from a state that differs in its lower 25 bits.
step_xor :
    (c x d : ℕ)
    → x < 2 ^ 25
    → d < 32
    → polymod_step (bit_xor c x) d ≡ bit_xor (polymod_step c 0) (x * 32 + d)
unfolding polymod_step
step_xor c x d h k =
    let split : bit_xor c x ≡ c / 2 ^ 25 * 2 ^ 25 + bit_xor (c % 2 ^ 25) x =
      ap₂ bit_xor (let e : c ≡ c / 2 ^ 25 * 2 ^ 25 + c % 2 ^ 25 = omega arith in e)
        (let e : x ≡ 0 * 2 ^ 25 + x = omega arith in e)
      ∙ (bit_xor_split 25 (c / 2 ^ 25) (c % 2 ^ 25) 0 x (omega arith) h
          ∙ ap (λ (q : ℕ). q * 2 ^ 25 + bit_xor (c % 2 ^ 25) x) (bit_xor-zero (c / 2 ^ 25))) in
    let low : bit_xor (c % 2 ^ 25) x < 2 ^ 25 = bit_xor_bound 25 (c % 2 ^ 25) x (omega arith) h in
    let high : shr (bit_xor c x) 25 ≡ shr c 25 = omega (arith, split, low) in
    let rest : bit_and (bit_xor c x) 33554431 ≡ bit_xor (bit_and c 33554431) x = omega (
      arith,
      bit_and_mask 25 (bit_xor c x),
      split,
      low,
      ap (λ (m : ℕ). bit_xor m x) (bit_and_mask 25 c),
    ) in
    let shifted : bit_xor (shl (bit_xor (bit_and c 33554431) x) 5) d
        ≡ bit_xor (bit_xor (shl (bit_and c 33554431) 5) 0) (x * 32 + d) =
      shifted_xor (bit_and c 33554431) x d k in
    ap₂ (λ b y. add_gens b 0 gen (bit_xor (shl y 5) d)) high rest
    ∙ (ap (add_gens (shr c 25) 0 gen) shifted
        ∙ add_gens_xor (shr c 25) 0 gen (bit_xor (shl (bit_and c 33554431) 5) 0) (x * 32 + d))

AreWords : List ℕ → Type 0
AreWords [] = Unit
AreWords (g ∷ gens) = (g < 2 ^ 30) × AreWords gens

add_gens_bound :
    (b i : ℕ) (gens : List ℕ) (y : ℕ) → AreWords gens → y < 2 ^ 30 → add_gens b i gens y < 2 ^ 30
unfolding add_gens AreWords
add_gens_bound b i [] y words h = h
add_gens_bound b i (g ∷ gens) y (word, words) h = elim (Bool-cases (bit_and (shr b i) 1 == 0)) [
  | inl e ↦ rw e (add_gens_bound b (i + 1) gens y words h)
  | inr e ↦ rw e (add_gens_bound b (i + 1) gens (bit_xor y g) words (bit_xor_bound 30 y g h word))
]

-- A step stays below 30 bits.
step_bound : (c d : ℕ) → d < 32 → polymod_step c d < 2 ^ 30
unfolding polymod_step AreWords
step_bound c d k =
    add_gens_bound (shr c 25) 0 gen (bit_xor (shl (bit_and c 33554431) 5) d) (omega arith) (
      bit_xor_bound 30 (shl (bit_and c 33554431) 5) d (omega (arith, bit_and_mask 25 c))
        (omega arith))

-- Six digits after a state, and the word that they make.
digits_xor :
    (c a b d e f g : ℕ)
    → a < 32
    → b < 32
    → d < 32
    → e < 32
    → f < 32
    → g < 32
    → polymod_from c (a ∷ b ∷ d ∷ e ∷ f ∷ g ∷ [])
      ≡ bit_xor
          (polymod_from c (0 ∷ 0 ∷ 0 ∷ 0 ∷ 0 ∷ 0 ∷ []))
          (((((a * 32 + b) * 32 + d) * 32 + e) * 32 + f) * 32 + g)
unfolding polymod_from
digits_xor c a b d e f g ha hb hd he hf hg =
    let c1 : ℕ = polymod_step c 0 in
    let c2 : ℕ = polymod_step c1 0 in
    let c3 : ℕ = polymod_step c2 0 in
    let c4 : ℕ = polymod_step c3 0 in
    let c5 : ℕ = polymod_step c4 0 in
    let x2 : ℕ = a * 32 + b in
    let x3 : ℕ = x2 * 32 + d in
    let x4 : ℕ = x3 * 32 + e in
    let x5 : ℕ = x4 * 32 + f in
    let s1 : polymod_step c a ≡ bit_xor c1 a =
      ap (λ (y : ℕ). polymod_step y a) (sym (bit_xor-zero c))
      ∙ (step_xor c 0 a (omega arith) ha
          ∙ ap (bit_xor c1) (let e : 0 * 32 + a ≡ a = omega arith in e)) in
    let s2 : polymod_step (polymod_step c a) b ≡ bit_xor c2 x2 =
      ap (λ (y : ℕ). polymod_step y b) s1 ∙ step_xor c1 a b (omega arith) hb in
    let s3 : polymod_step (polymod_step (polymod_step c a) b) d ≡ bit_xor c3 x3 =
      ap (λ (y : ℕ). polymod_step y d) s2 ∙ step_xor c2 x2 d (omega arith) hd in
    let s4 : polymod_step (polymod_step (polymod_step (polymod_step c a) b) d) e ≡ bit_xor c4 x4 =
      ap (λ (y : ℕ). polymod_step y e) s3 ∙ step_xor c3 x3 e (omega arith) he in
    let s5 : polymod_step (polymod_step (polymod_step (polymod_step (polymod_step c a) b) d) e) f
        ≡ bit_xor c5 x5 =
      ap (λ (y : ℕ). polymod_step y f) s4 ∙ step_xor c4 x4 f (omega arith) hf in
    ap (λ (y : ℕ). polymod_step y g) s5 ∙ step_xor c5 x5 g (omega arith) hg

polymod_from-append :
    (c : ℕ) (xs ys : List ℕ) → polymod_from c (xs ++ ys) ≡ polymod_from (polymod_from c xs) ys
unfolding polymod_from
polymod_from-append c [] ys = refl
polymod_from-append c (x ∷ xs) ys = polymod_from-append (polymod_step c x) xs ys

zeros_bound : (c : ℕ) → polymod_from c (0 ∷ 0 ∷ 0 ∷ 0 ∷ 0 ∷ 0 ∷ []) < 2 ^ 30
unfolding polymod_from
zeros_bound c = step_bound _ 0 (omega arith)

-- The digits of a state lead from the state before to 1.
digits_checked :
    (c : ℕ)
    → polymod_from c (checksum_digits (bit_xor (polymod_from c (0 ∷ 0 ∷ 0 ∷ 0 ∷ 0 ∷ 0 ∷ [])) 1)) ≡ 1
unfolding checksum_digits
digits_checked c =
    let z : ℕ = polymod_from c (0 ∷ 0 ∷ 0 ∷ 0 ∷ 0 ∷ 0 ∷ []) in
    let p : ℕ = bit_xor z 1 in
    let below : p < 2 ^ 30 = bit_xor_bound 30 z 1 (zeros_bound c) (omega arith) in
    let digit : (x : ℕ) → bit_and x 31 ≡ x % 32 = bit_and_mask 5 in
    digits_xor c (bit_and (shr p 25) 31) (bit_and (shr p 20) 31) (bit_and (shr p 15) 31)
      (bit_and (shr p 10) 31) (bit_and (shr p 5) 31) (bit_and p 31)
      (omega (arith, digit (shr p 25))) (omega (arith, digit (shr p 20)))
      (omega (arith, digit (shr p 15))) (omega (arith, digit (shr p 10)))
      (omega (arith, digit (shr p 5))) (omega (arith, digit p))
    ∙ (ap (bit_xor z) (
          let word : ((((bit_and (shr p 25) 31 * 32 + bit_and (shr p 20) 31) * 32
                            + bit_and (shr p 15) 31)
                          * 32
                        + bit_and (shr p 10) 31)
                      * 32
                    + bit_and (shr p 5) 31)
                  * 32
                + bit_and p 31
              ≡ p =
            omega (
              arith,
              below,
              digit (shr p 25),
              digit (shr p 20),
              digit (shr p 15),
              digit (shr p 10),
              digit (shr p 5),
              digit p,
            ) in
          word)
        ∙ (sym (bit_xor_assoc z z 1)
            ∙ (ap (λ (y : ℕ). bit_xor y 1) (bit_xor_self z) ∙ zero-bit_xor 1)))

-- The checksum of a human-readable part and of digits is the one that is verified.
pub create-verify_checksum :
    (hrp blocks : List ℕ) → verify_checksum hrp (blocks ++ create_checksum hrp blocks) ≡ true
unfolding verify_checksum create_checksum polymod
create-verify_checksum hrp blocks =
    let zeros : List ℕ = 0 ∷ 0 ∷ 0 ∷ 0 ∷ 0 ∷ 0 ∷ [] in
    let start : ℕ = polymod_from 1 (hrp_expand hrp) in
    let c : ℕ = polymod_from start blocks in
    let state : polymod_from 1 (hrp_expand hrp ++ blocks) ≡ c =
      polymod_from-append 1 (hrp_expand hrp) blocks in
    let padded : polymod_from 1 ((hrp_expand hrp ++ blocks) ++ zeros) ≡ polymod_from c zeros =
      polymod_from-append 1 (hrp_expand hrp ++ blocks) zeros
      ∙ ap (λ (y : ℕ). polymod_from y zeros) state in
    let checksum : create_checksum hrp blocks ≡ checksum_digits (bit_xor (polymod_from c zeros) 1) =
      ap (λ (y : ℕ). checksum_digits (bit_xor y 1)) padded in
    let whole : polymod_from 1 (hrp_expand hrp ++ (blocks ++ create_checksum hrp blocks)) ≡ 1 =
      polymod_from-append 1 (hrp_expand hrp) (blocks ++ create_checksum hrp blocks)
      ∙ (polymod_from-append start blocks (create_checksum hrp blocks)
          ∙ (ap (polymod_from c) checksum ∙ digits_checked c)) in
    ap (λ (y : ℕ). y == 1) whole
