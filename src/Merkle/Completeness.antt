-- ===== src/Merkle/Completeness.antt =====
-- merklehasher/merkle_proof.go: the proof that is computed for a value of the list leads to the root
-- of the list's tree, and contains the value.
use axon_go.Common.{
  ℕ, zero, suc, ◌+◌, ◌-◌, ◌≤◌, ◌≡◌, refl, sym, ap, ◌∙◌, arith, true, some, List, [], ◌∷◌, length,
  get_elem?, get_elem?-take, get_elem?-drop, take, drop, ltb, ltb→lt, Bool-cases, inl, inr,
}
use axon_go.Common.Result.{Result, ok}
use axon_go.Merkle.{
  Bytes, Error, bytes_equal, MerkleHashable, value_hash, leaf_hash, node, hash_leaf, hash_node,
  hash_fuel, hash, largest_power_of_two, bits_len, compute_proof_fuel, compute_proof, hash_of,
  contains_value_hash,
}
use axon_go.Merkle.Tree.{IsSplit, split, hash_fuel_total, hash-fuel}

pub bytes_equal_refl : (b : Bytes) → bytes_equal b b ≡ true
unfolding bytes_equal
bytes_equal_refl [] = refl
bytes_equal_refl (x ∷ b) = ground (arith, bytes_equal_refl b)

pub bytes_equal_sound : (a b : Bytes) → bytes_equal a b ≡ true → a ≡ b
unfolding bytes_equal
bytes_equal_sound [] [] h = refl
bytes_equal_sound [] (y ∷ b) h = cc
bytes_equal_sound (x ∷ a) [] h = cc
bytes_equal_sound (x ∷ a) (y ∷ b) h = ground (arith, bytes_equal_sound a b)

module _ (sum : Bytes → Bytes) where
  -- A proof for the value `x` of the list.
  pub record IsProof (data_ : List Bytes) (x : Bytes) (r : Result Error MerkleHashable)
      : Type 0 where
    pub proof : MerkleHashable
    pub computed : r ≡ ok proof
    pub root : hash sum data_ ≡ ok (hash_of sum proof)
    pub contains : contains_value_hash proof (hash_leaf sum x) ≡ true

  hash-one : (l : Bytes) → hash sum (l ∷ []) ≡ ok (hash_leaf sum l)
  unfolding hash hash_fuel
  hash-one l = refl

  hash-parts :
      (k : ℕ) (data_ : List Bytes) (hl hr : Bytes)
      → 2 ≤ length data_
      → IsSplit k data_
      → hash sum (take k data_) ≡ ok hl
      → hash sum (drop k data_) ≡ ok hr
      → hash sum data_ ≡ ok (hash_node sum hl hr)
  unfolding hash hash_fuel
  hash-parts k [] hl hr two s el er = absurd (omega arith)
  hash-parts k (l ∷ []) hl hr two s el er = absurd (omega arith)
  hash-parts k (l ∷ m ∷ rest) hl hr two s el er =
      let fits_l : length (take k (l ∷ m ∷ rest)) ≤ suc (length rest) =
        omega (arith, s.left_length, s.right_some) in
      let fits_r : length (drop k (l ∷ m ∷ rest)) ≤ suc (length rest) =
        omega (arith, s.right_length, s.left_some) in
      rw (
        s.found,
        hash-fuel sum (suc (length rest)) (take k (l ∷ m ∷ rest)) fits_l ∙ el,
        hash-fuel sum (suc (length rest)) (drop k (l ∷ m ∷ rest)) fits_r ∙ er,
      )

  -- A value's own hash is found.
  value_hash-contains :
      (l x : Bytes)
      → l ≡ x
      → contains_value_hash (value_hash (hash_leaf sum l)) (hash_leaf sum x) ≡ true
  unfolding contains_value_hash
  value_hash-contains l x same = rw same (bytes_equal_refl (hash_leaf sum x))

  left-contains :
      (p q : MerkleHashable) (h : Bytes)
      → contains_value_hash p h ≡ true
      → contains_value_hash (node p q) h ≡ true
  unfolding contains_value_hash
  left-contains p q h found = ground arith

  right-contains :
      (p q : MerkleHashable) (h : Bytes)
      → contains_value_hash q h ≡ true
      → contains_value_hash (node p q) h ≡ true
  unfolding contains_value_hash
  right-contains p q h found = ground arith

  hash-two :
      (l m : Bytes) → hash sum (l ∷ m ∷ []) ≡ ok (hash_node sum (hash_leaf sum l) (hash_leaf sum m))
  unfolding hash hash_fuel largest_power_of_two bits_len
  hash-two l m = refl

  -- A node over the proof of one part and the hash of the other.
  left-IsProof :
      (k : ℕ) (data_ : List Bytes) (x : Bytes) (p : MerkleHashable) (h : Bytes)
      → 2 ≤ length data_
      → IsSplit k data_
      → hash sum (take k data_) ≡ ok (hash_of sum p)
      → hash sum (drop k data_) ≡ ok h
      → contains_value_hash p (hash_leaf sum x) ≡ true
      → IsProof data_ x (ok (node p (leaf_hash h)))
  left-IsProof k data_ x p h two s el er found = record {
    proof = node p (leaf_hash h);
    computed = refl;
    root = unfold hash_of in hash-parts k data_ (hash_of sum p) h two s el er;
    contains = left-contains p (leaf_hash h) (hash_leaf sum x) found;
  }

  right-IsProof :
      (k : ℕ) (data_ : List Bytes) (x : Bytes) (p : MerkleHashable) (h : Bytes)
      → 2 ≤ length data_
      → IsSplit k data_
      → hash sum (take k data_) ≡ ok h
      → hash sum (drop k data_) ≡ ok (hash_of sum p)
      → contains_value_hash p (hash_leaf sum x) ≡ true
      → IsProof data_ x (ok (node (leaf_hash h) p))
  right-IsProof k data_ x p h two s el er found = record {
    proof = node (leaf_hash h) p;
    computed = refl;
    root = unfold hash_of in hash-parts k data_ h (hash_of sum p) two s el er;
    contains = right-contains (leaf_hash h) p (hash_leaf sum x) found;
  }

  hash-exists : (data_ : List Bytes) → (h : Bytes) × (hash sum data_ ≡ ok h)
  hash-exists data_ =
      let (h, runs, _) =
        hash_fuel_total sum (length data_) (length data_) data_ (omega arith) (omega arith) in
      (h, sym (hash-fuel sum (length data_) data_ (omega arith)) ∙ runs)

  IsProof-correct :
      (fuel : ℕ) (data_ : List Bytes) (i : ℕ) (x : Bytes)
      → length data_ ≤ fuel
      → get_elem? data_ i ≡ some x
      → IsProof data_ x (compute_proof_fuel sum fuel data_ i)
  unfolding compute_proof_fuel
  IsProof-correct fuel [] i x enough found = cc
  IsProof-correct fuel (l ∷ []) zero x enough found = record {
    proof = value_hash (hash_leaf sum l);
    computed = refl;
    root = unfold hash_of in hash-one l;
    contains = value_hash-contains l x (cc);
  }
  IsProof-correct fuel (l ∷ []) (suc i) x enough found = cc
  IsProof-correct zero (l ∷ m ∷ []) i x enough found = absurd (omega arith)
  IsProof-correct (suc fuel) (l ∷ m ∷ []) zero x enough found = record {
    proof = node (value_hash (hash_leaf sum l)) (leaf_hash (hash_leaf sum m));
    computed = refl;
    root = unfold hash_of in hash-two l m;
    contains =
        left-contains (value_hash (hash_leaf sum l)) (leaf_hash (hash_leaf sum m)) (hash_leaf sum x)
          (value_hash-contains l x (cc));
  }
  IsProof-correct (suc fuel) (l ∷ m ∷ []) (suc zero) x enough found = record {
    proof = node (leaf_hash (hash_leaf sum l)) (value_hash (hash_leaf sum m));
    computed = refl;
    root = unfold hash_of in hash-two l m;
    contains =
        right-contains (leaf_hash (hash_leaf sum l)) (value_hash (hash_leaf sum m))
          (hash_leaf sum x) (value_hash-contains m x (cc));
  }
  IsProof-correct (suc fuel) (l ∷ m ∷ []) (suc (suc i)) x enough found = cc
  IsProof-correct zero (l ∷ m ∷ n ∷ rest) i x enough found = absurd (omega arith)
  IsProof-correct (suc fuel) (l ∷ m ∷ n ∷ rest) i x enough found =
      let all = l ∷ m ∷ n ∷ rest in
      let (k, s) = split all (omega arith) in
      elim (Bool-cases (ltb i k)) [
        | inl left ↦
            let ih =
              IsProof-correct fuel (take k all) i x (omega (arith, s.left_length, s.right_some))
                (get_elem?-take k i all (ltb→lt i k left) ∙ found) in
            let (h, runs) = hash-exists (drop k all) in
            let e : compute_proof_fuel sum (suc fuel) all i ≡ ok (node ih.proof (leaf_hash h)) =
              ground (arith, s.found, ih.computed, runs) in
            rw e (left-IsProof k all x ih.proof h (omega arith) s ih.root runs ih.contains)
        | inr right ↦
            let place : k + (i - k) ≡ i = ground (arith, right) in
            let ih =
              IsProof-correct fuel (drop k all) (i - k) x
                (omega (arith, s.right_length, s.left_some))
                (get_elem?-drop k (i - k) all ∙ ap (get_elem? all) place ∙ found) in
            let (h, runs) = hash-exists (take k all) in
            let e : compute_proof_fuel sum (suc fuel) all i ≡ ok (node (leaf_hash h) ih.proof) =
              ground (arith, s.found, ih.computed, runs) in
            rw e (right-IsProof k all x ih.proof h (omega arith) s runs ih.root ih.contains)
      ]

-- The proof that the code computes for an index of the list succeeds; its hash is the root of the
-- list's tree, and it contains the hash of the value at that index as the hash of a value.
pub compute_proof-IsProof :
    (sum : Bytes → Bytes) (data_ : List Bytes) (i : ℕ) (x : Bytes)
    → get_elem? data_ i ≡ some x
    → IsProof sum data_ x (compute_proof sum data_ i)
unfolding compute_proof
compute_proof-IsProof sum data_ i x found =
    IsProof-correct sum (length data_) data_ i x (omega arith) found
