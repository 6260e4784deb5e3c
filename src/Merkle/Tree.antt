-- ===== src/Merkle/Tree.antt =====
-- merklehasher/merkle_hasher.go: where the tree splits, and that its recursion ends.
use native.Mathlib.Nat.{pow-suc}
use native.Mathlib.Decide.{ℕ_discrete}
use axon_go.Common.{
  ℕ, zero, suc, ◌+◌, ◌-◌, ◌*◌, ◌/◌, ◌^◌, ◌≤◌, ◌<◌, ◌≡◌, refl, sym, ap, ◌∙◌, arith, List, [], ◌∷◌,
  length, take, drop, length-take, length-drop,
}
use axon_go.Common.Result.{ok}
use axon_go.Merkle.{
  Bytes, bits_len, largest_power_of_two, empty_leaf, hash_leaf, hash_node, hash_fuel, hash,
}

bits_len-zero : (fuel : ℕ) → bits_len fuel 0 ≡ 0
unfolding bits_len
bits_len-zero zero = refl
bits_len-zero (suc fuel) = refl

-- Halving needs no more rounds than the number has units.
bits_len_bounds :
    (fuel n : ℕ)
    → n ≤ fuel
    → 0 < n
    → (j : ℕ) × (bits_len fuel n ≡ suc j) × (2 ^ j ≤ n) × (n < 2 * 2 ^ j)
unfolding bits_len
bits_len_bounds zero n h p = absurd (omega arith)
bits_len_bounds (suc fuel) n h p = elim (ℕ_discrete (n / 2) 0) [
  | yes last ↦
      (0, ground (arith, bits_len-zero fuel, ap (bits_len fuel) last), omega arith, omega arith)
  | no more ↦
      let (j, found, lo, hi) = bits_len_bounds fuel (n / 2) (omega arith) (omega arith) in
      (suc j, ground (arith, found), omega (arith, pow-suc 2 j), omega (arith, pow-suc 2 j))
]

-- The split: for a list of two values or more the code finds the largest power of two that is less
-- than the length, 2 ^ j, and twice that power is at least the length.
pub largest_power_of_two_lem :
    (n : ℕ)
    → 2 ≤ n
    → (j : ℕ) × (largest_power_of_two n ≡ ok (2 ^ j)) × (2 ^ j < n) × (n ≤ 2 * 2 ^ j)
unfolding largest_power_of_two
largest_power_of_two_lem n two =
    let (j, found, lo, hi) = bits_len_bounds (n - 1) (n - 1) (omega arith) (omega arith) in
    let last : suc j - 1 ≡ j = omega arith in
    (j, ground (arith, found, ap (λ (k : ℕ). 2 ^ k) last), omega arith, omega arith)

-- What a list's halves look like.
pub record IsSplit (k : ℕ) (data_ : List Bytes) : Type 0 where
  pub found : largest_power_of_two (length data_) ≡ ok k
  pub left_length : length (take k data_) ≡ k
  pub right_length : length (drop k data_) ≡ length data_ - k
  pub left_some : 0 < k
  pub right_some : k < length data_

pub split : (data_ : List Bytes) → 2 ≤ length data_ → (k : ℕ) × IsSplit k data_
split data_ two =
    let (j, found, lo, hi) = largest_power_of_two_lem (length data_) two in
    (
      2 ^ j,
      record {
        found = found;
        left_length = omega (arith, length-take (2 ^ j) data_);
        right_length = length-drop (2 ^ j) data_;
        left_some = omega arith;
        right_some = lo;
      },
    )

module _ (sum : Bytes → Bytes) where
  -- As much fuel as values is enough, and more changes nothing.
  pub hash_fuel_total :
      (f g : ℕ) (data_ : List Bytes)
      → length data_ ≤ f
      → length data_ ≤ g
      → (h : Bytes) × (hash_fuel sum f data_ ≡ ok h) × (hash_fuel sum g data_ ≡ ok h)
  unfolding hash_fuel
  hash_fuel_total f g [] a b = (empty_leaf sum, refl, refl)
  hash_fuel_total f g (l ∷ []) a b = (hash_leaf sum l, refl, refl)
  hash_fuel_total zero g (l ∷ m ∷ rest) a b = absurd (omega arith)
  hash_fuel_total (suc f) zero (l ∷ m ∷ rest) a b = absurd (omega arith)
  hash_fuel_total (suc f) (suc g) (l ∷ m ∷ rest) a b =
      let (k, s) = split (l ∷ m ∷ rest) (omega arith) in
      let (hl, fl, gl) =
        hash_fuel_total f g (take k (l ∷ m ∷ rest)) (omega (arith, s.left_length, s.right_some))
          (omega (arith, s.left_length, s.right_some)) in
      let (hr, fr, gr) =
        hash_fuel_total f g (drop k (l ∷ m ∷ rest)) (omega (arith, s.right_length, s.left_some))
          (omega (arith, s.right_length, s.left_some)) in
      (hash_node sum hl hr, rw (s.found, fl, fr), rw (s.found, gl, gr))

  pub hash-fuel :
      (f : ℕ) (data_ : List Bytes) → length data_ ≤ f → hash_fuel sum f data_ ≡ hash sum data_
  unfolding hash
  hash-fuel f data_ a =
      let (h, first, second) = hash_fuel_total f (length data_) data_ a (omega arith) in
      first ∙ sym second

-- The tree hash of a list of two values or more is the node over the tree hashes of its two parts,
-- which all three exist; the left part's length is a power of two, is less than the list's length,
-- and is at least half of it.
pub hash_of_parts :
    (sum : Bytes → Bytes) (data_ : List Bytes)
    → 2 ≤ length data_
    → (j : ℕ) × (hl hr : Bytes) × (2 ^ j < length data_)
      × (length data_ ≤ 2 * 2 ^ j)
      × (hash sum (take (2 ^ j) data_) ≡ ok hl)
      × (hash sum (drop (2 ^ j) data_) ≡ ok hr)
      × (hash sum data_ ≡ ok (hash_node sum hl hr))
unfolding hash hash_fuel
hash_of_parts sum [] two = absurd (omega arith)
hash_of_parts sum (l ∷ []) two = absurd (omega arith)
hash_of_parts sum (l ∷ m ∷ rest) two =
    let all = l ∷ m ∷ rest in
    let n = length rest + 1 in
    let (j, found, lo, hi) = largest_power_of_two_lem (length all) two in
    let left_fits : length (take (2 ^ j) all) ≤ suc (length rest) =
      omega (arith, length-take (2 ^ j) all) in
    let right_fits : length (drop (2 ^ j) all) ≤ suc (length rest) =
      omega (arith, length-drop (2 ^ j) all) in
    let (hl, fl, gl) =
      hash_fuel_total sum (suc (length rest)) (length (take (2 ^ j) all)) (take (2 ^ j) all)
        left_fits (omega arith) in
    let (hr, fr, gr) =
      hash_fuel_total sum (suc (length rest)) (length (drop (2 ^ j) all)) (drop (2 ^ j) all)
        right_fits (omega arith) in
    (j, hl, hr, lo, hi, gl, gr, rw (found, fl, fr))
