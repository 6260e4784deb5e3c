-- ===== src/Merkle/Values.antt =====
-- merklehasher/merkle_proof.go: proofs for values, by way of their serialization.
use axon_go.Common.{
  ℕ, zero, suc, ◌+◌, ◌<◌, ◌≡◌, ◌≢◌, refl, ap, ◌∙◌, arith, true, false, Option, none, some, List, [],
  ◌∷◌, length, get_elem?, Bool-cases, ◌⊎◌, inl, inr,
}
use axon_go.Common.Result.{Result, ok, err, >>=-eq-ok}
use axon_go.Merkle.{
  Bytes, Error, proof_value_not_found, bytes_equal, MerkleHashable, compute_proof, hash_of,
  values_bytes, hash_values, find_value, compute_proof_for_index, compute_proof_of_value,
  contains_value,
}
use axon_go.Merkle.Completeness.{bytes_equal_refl, bytes_equal_sound, compute_proof-IsProof}

-- Where the loop ends: at a value with the bytes, or at the end of the list.
abbrev Found : Bytes → List Bytes → ℕ → Result Error (Option ℕ) → Type 0
Found b data_ i r =
    ((j : ℕ) × (r ≡ ok (some (i + j))) × (get_elem? data_ j ≡ some b))
    ⊎ ((r ≡ ok none) × ((j : ℕ) → get_elem? data_ j ≢ some b))

Found-here : (b : Bytes) (bs : List Bytes) (i : ℕ) → Found b (b ∷ bs) i (ok (some i))
Found-here b bs i = inl (0, ap (λ (k : ℕ). ok (some k)) (omega arith), refl)

absent-cons :
    (b c : Bytes) (bs : List Bytes)
    → b ≢ c
    → ((j : ℕ) → get_elem? bs j ≢ some b)
    → (j : ℕ) → get_elem? (c ∷ bs) j ≢ some b
absent-cons b c bs ne h zero e = ne (cc)
absent-cons b c bs ne h (suc j) e = h j e

Found-next :
    (b c : Bytes) (bs : List Bytes) (i : ℕ) (r : Result Error (Option ℕ))
    → b ≢ c
    → Found b bs (i + 1) r
    → Found b (c ∷ bs) i r
Found-next b c bs i r ne (inl (j, e, at)) =
    inl (suc j, e ∙ ap (λ (k : ℕ). ok (some k)) (omega arith), at)
Found-next b c bs i r ne (inr (e, absent)) = inr (e, absent-cons b c bs ne absent)

bytes_equal-ne : (b c : Bytes) → bytes_equal b c ≡ false → b ≢ c
bytes_equal-ne b c e same =
    let yes_equal : bytes_equal b c ≡ true = rw (← same) (bytes_equal_refl b) in cc

module _ {V : Type 0} (sum : Bytes → Bytes) (bytes : V → Result Error Bytes) where
  values_bytes-cons :
      (v : V) (vs : List V) {data_ : List Bytes}
      → values_bytes sum bytes (v ∷ vs) ≡ ok data_
      → (b : Bytes) × (bs : List Bytes) × (bytes v ≡ ok b)
        × (values_bytes sum bytes vs ≡ ok bs)
        × (data_ ≡ b ∷ bs)
  unfolding values_bytes
  values_bytes-cons v vs e =
      let (b, eb, rest) = >>=-eq-ok (bytes v) _ e in
      let (bs, ebs, last) = >>=-eq-ok (values_bytes sum bytes vs) _ rest in (b, bs, eb, ebs, cc)

  find_value-Found :
      (to_prove : Bytes) (values : List V) (i : ℕ) (data_ : List Bytes)
      → values_bytes sum bytes values ≡ ok data_
      → Found to_prove data_ i (find_value sum bytes to_prove values i)
  unfolding find_value values_bytes
  find_value-Found to_prove [] i data_ e =
      let nothing : data_ ≡ [] = cc in rw nothing (inr (refl, λ j h. cc))
  find_value-Found to_prove (v ∷ vs) i data_ e =
      let (b, bs, eb, ebs, whole) = values_bytes-cons v vs e in
      elim (Bool-cases (bytes_equal to_prove b)) [
        | inl same ↦
            let equal = bytes_equal_sound to_prove b same in
            rw (whole, eb, same, ← equal) (Found-here to_prove bs i)
        | inr differs ↦
            rw (whole, eb, differs)
              (Found-next to_prove b bs i _ (bytes_equal-ne to_prove b differs)
                (find_value-Found to_prove vs (i + 1) bs ebs))
      ]

  values_bytes-length :
      (values : List V) (data_ : List Bytes)
      → values_bytes sum bytes values ≡ ok data_
      → length data_ ≡ length values
  unfolding values_bytes
  values_bytes-length [] data_ e = let nothing : data_ ≡ [] = cc in rw nothing refl
  values_bytes-length (v ∷ vs) data_ e =
      let (b, bs, eb, ebs, whole) = values_bytes-cons v vs e in
      rw whole (ap suc (values_bytes-length vs bs ebs))

  index-lt :
      (data_ : List Bytes) (j : ℕ) (b : Bytes) → get_elem? data_ j ≡ some b → j < length data_
  index-lt [] j b e = cc
  index-lt (d ∷ ds) zero b e = omega arith
  index-lt (d ∷ ds) (suc j) b e = omega (arith, index-lt ds j b e)

  compute_proof_for_index-eq :
      (values : List V) (j : ℕ) (data_ : List Bytes)
      → values_bytes sum bytes values ≡ ok data_
      → j < length values
      → compute_proof_for_index sum bytes values j ≡ compute_proof sum data_ j
  unfolding compute_proof_for_index
  compute_proof_for_index-eq values j data_ e h = ground (arith, e)

-- What a proof for a value promises: it is computed, its hash is the hash of the values, and it
-- contains the value.
pub record IsValueProof {V : Type 0} (sum : Bytes → Bytes) (bytes : V → Result Error Bytes)
    (values : List V) (v : V) : Type 0 where
  pub proof : MerkleHashable
  pub computed : compute_proof_of_value sum bytes values v ≡ ok proof
  pub root : hash_values sum bytes values ≡ ok (hash_of sum proof)
  pub contains : contains_value sum bytes proof v ≡ ok true

module _ {V : Type 0} (sum : Bytes → Bytes) (bytes : V → Result Error Bytes) (values : List V)
    (v : V) {data_ : List Bytes} {b : Bytes} (serialized : values_bytes sum bytes values ≡ ok data_)
    (to_prove : bytes v ≡ ok b) where
  found-IsValueProof :
      (j : ℕ)
      → find_value sum bytes b values 0 ≡ ok (some j)
      → get_elem? data_ j ≡ some b
      → IsValueProof sum bytes values v
  unfolding compute_proof_of_value hash_values contains_value
  found-IsValueProof j found at =
      let p = compute_proof-IsProof sum data_ j b at in
      let in_range : j < length values = omega (
        arith,
        index-lt sum bytes data_ j b at,
        values_bytes-length sum bytes values data_ serialized,
      ) in
      record {
        proof = p.proof;
        computed =
            rw (to_prove, found)
              (compute_proof_for_index-eq sum bytes values j data_ serialized in_range
                ∙ p.computed);
        root = rw serialized p.root;
        contains = rw to_prove (ap ok p.contains);
      }

-- The proof for a value: where all the values and the value itself are serialized without an error,
-- either the proof is computed, leads to the hash of the values and contains the value, and the
-- value's bytes are among those of the values, or they are not and the call fails with the error that
-- the value was not found.
pub compute_proof_of_value_lem :
    {V : Type 0} (sum : Bytes → Bytes) (bytes : V → Result Error Bytes) (values : List V) (v : V)
    {data_ : List Bytes} {b : Bytes}
    → values_bytes sum bytes values ≡ ok data_
    → bytes v ≡ ok b
    → (IsValueProof sum bytes values v × ((j : ℕ) × (get_elem? data_ j ≡ some b)))
      ⊎ ((compute_proof_of_value sum bytes values v ≡ err proof_value_not_found)
          × ((j : ℕ) → get_elem? data_ j ≢ some b))
unfolding compute_proof_of_value
compute_proof_of_value_lem sum bytes values v {data_ = data_} {b = b} serialized to_prove =
    elim (find_value-Found sum bytes b values 0 data_ serialized) [
      | inl (j, found, at) ↦
          let here : 0 + j ≡ j = omega arith in
          inl (
            found-IsValueProof sum bytes values v serialized to_prove j
                (found ∙ ap (λ (k : ℕ). ok (some k)) here) at,
            (j, at),
          )
      | inr (missing, absent) ↦ inr (rw (to_prove, missing) refl, absent)
    ]
