-- ===== src/Merkle/Soundness.antt =====
-- merklehasher/merkle_proof.go: a proof that leads to the root of a list's tree and contains a value
-- is a proof of a value of the list, unless it shows a collision of the hash function.
use native.Mathlib.Decide.{ℕ_discrete}
use axon_go.Common.{
  ℕ, zero, suc, ◌+◌, ◌^◌, ◌≡◌, ◌≢◌, refl, sym, ap, ◌∙◌, arith, true, some, List, [], ◌∷◌, ◌++◌,
  length, length-append, get_elem?, get_elem?-drop, take, drop, ◌⊎◌, inl, inr,
}
use axon_go.Common.Result.{Result, ok}
use axon_go.Merkle.{
  Bytes, Error, MerkleHashable, value_hash, leaf_hash, node, empty_leaf, hash_leaf, hash_node,
  hash_fuel, hash, hash_of, contains_value_hash,
}
use axon_go.Merkle.Tree.{hash_of_parts}
use axon_go.Merkle.Completeness.{bytes_equal_sound}

-- Two inputs with one digest.
pub record Collision (sum : Bytes → Bytes) : Type 0 where
  pub first : Bytes
  pub second : Bytes
  pub different : first ≢ second
  pub same_digest : sum first ≡ sum second

bytes-discrete : Discrete Bytes
bytes-discrete = hlevel ℕ_discrete

get_elem?-of_take :
    (n i : ℕ) (xs : List Bytes) (x : Bytes)
    → get_elem? (take n xs) i ≡ some x
    → get_elem? xs i ≡ some x
get_elem?-of_take zero i xs x e = cc
get_elem?-of_take (suc n) i [] x e = e
get_elem?-of_take (suc n) zero (y ∷ xs) x e = e
get_elem?-of_take (suc n) (suc i) (y ∷ xs) x e = get_elem?-of_take n i xs x e

-- Of two equal concatenations with second parts of one length, the parts are equal.
append-split : (a b c d : Bytes) → length b ≡ length d → a ++ b ≡ c ++ d → (a ≡ c) × (b ≡ d)
append-split [] b [] d same e = (refl, e)
append-split [] b (y ∷ c) d same e = absurd (omega (arith, ap length e, length-append {0} c d))
append-split (x ∷ a) b [] d same e = absurd (omega (arith, ap length e, length-append {0} a b))
append-split (x ∷ a) b (y ∷ c) d same e = let (p, q) = append-split a b c d same (cc) in (cc, q)

module _ (sum : Bytes → Bytes) (size : ℕ) (sized : (b : Bytes) → length (sum b) ≡ size)
    (x : Bytes) where
  -- The value is in the list, or there is a collision.
  abbrev InOrCollision : List Bytes → Type 0
  InOrCollision data_ = ((i : ℕ) × (get_elem? data_ i ≡ some x)) ⊎ Collision sum

  equal_or_Collision : (a b : Bytes) → sum a ≡ sum b → (a ≡ b) ⊎ Collision sum
  equal_or_Collision a b e = elim (bytes-discrete a b) [
    | yes same ↦ inl same
    | no ne ↦ inr (record { first = a; second = b; different = ne; same_digest = e })
  ]

  ok-injective : {a b : Bytes} {r : Result Error Bytes} → r ≡ ok a → r ≡ ok b → a ≡ b
  ok-injective p q = cc

  digest-length : (data_ : List Bytes) (h : Bytes) → hash sum data_ ≡ ok h → length h ≡ size
  unfolding hash hash_fuel empty_leaf hash_leaf hash_node
  digest-length [] h e = let same : sum [] ≡ h = ok-injective refl e in rw (← same) (sized [])
  digest-length (l ∷ []) h e =
      let same : sum (0 ∷ l) ≡ h = ok-injective refl e in rw (← same) (sized _)
  digest-length (l ∷ m ∷ rest) h e =
      let (j, hl, hr, lo, hi, el, er, whole) = hash_of_parts sum (l ∷ m ∷ rest) (omega arith) in
      rw (ok-injective e whole) (sized _)

  -- What contains a value has a digest for its hash.
  contains-length :
      (p : MerkleHashable)
      → contains_value_hash p (hash_leaf sum x) ≡ true
      → length (hash_of sum p) ≡ size
  unfolding contains_value_hash hash_of hash_node hash_leaf
  contains-length (value_hash h) found = rw (← bytes_equal_sound _ h found) (sized _)
  contains-length (leaf_hash h) found = cc
  contains-length (node l r) found = sized _

  -- The root's preimage for a proof that is a node.
  node-parts :
      (a b : Bytes) (data_ : List Bytes)
      → length b ≡ size ⊎ (length a ≡ size)
      → hash sum data_ ≡ ok (hash_node sum a b)
      → Collision sum
        ⊎ ((k : ℕ) × (hash sum (take k data_) ≡ ok a) × (hash sum (drop k data_) ≡ ok b))
  unfolding hash hash_fuel empty_leaf hash_leaf hash_node
  node-parts a b [] sizes e = inl (record {
    first = [];
    second = 1 ∷ a ++ b;
    different = λ h. cc;
    same_digest = ok-injective refl e;
  })
  node-parts a b (l ∷ []) sizes e = inl (record {
    first = 0 ∷ l;
    second = 1 ∷ a ++ b;
    different = λ h. cc;
    same_digest = ok-injective refl e;
  })
  node-parts a b (l ∷ m ∷ rest) sizes e =
      let (j, hl, hr, lo, hi, el, er, whole) = hash_of_parts sum (l ∷ m ∷ rest) (omega arith) in
      let digest : sum (1 ∷ a ++ b) ≡ sum (1 ∷ hl ++ hr) = ok-injective e whole in
      elim (equal_or_Collision (1 ∷ a ++ b) (1 ∷ hl ++ hr) digest) [
        | inr c ↦ inl c
        | inl same ↦
            let cut : a ++ b ≡ hl ++ hr = cc in
            let left_size = digest-length (take (2 ^ j) (l ∷ m ∷ rest)) hl el in
            let right_size = digest-length (drop (2 ^ j) (l ∷ m ∷ rest)) hr er in
            let sum_size : length a + length b ≡ length hl + length hr =
              omega (arith, ap length cut, length-append {0} a b, length-append {0} hl hr) in
            let (p, q) = append-split a b hl hr (omega arith) cut in inr (2 ^ j, rw p el, rw q er)
      ]

  -- A root that is the hash of the value as a leaf.
  leaf-root : (data_ : List Bytes) → hash sum data_ ≡ ok (hash_leaf sum x) → InOrCollision data_
  unfolding hash hash_fuel empty_leaf hash_leaf hash_node
  leaf-root [] e = inr (record {
    first = [];
    second = 0 ∷ x;
    different = λ h. cc;
    same_digest = ok-injective refl e;
  })
  leaf-root (l ∷ []) e = elim (equal_or_Collision (0 ∷ l) (0 ∷ x) (ok-injective refl e)) [
    | inl same ↦ inl (0, cc)
    | inr c ↦ inr c
  ]
  leaf-root (l ∷ m ∷ rest) e =
      let (j, hl, hr, lo, hi, el, er, whole) = hash_of_parts sum (l ∷ m ∷ rest) (omega arith) in
      inr (record {
        first = 1 ∷ hl ++ hr;
        second = 0 ∷ x;
        different = λ h. cc;
        same_digest = ok-injective whole e;
      })

  left-InOrCollision :
      (k : ℕ) (data_ : List Bytes) → InOrCollision (take k data_) → InOrCollision data_
  left-InOrCollision k data_ (inl (i, e)) = inl (i, get_elem?-of_take k i data_ x e)
  left-InOrCollision k data_ (inr c) = inr c

  right-InOrCollision :
      (k : ℕ) (data_ : List Bytes) → InOrCollision (drop k data_) → InOrCollision data_
  right-InOrCollision k data_ (inl (i, e)) = inl (k + i, sym (get_elem?-drop k i data_) ∙ e)
  right-InOrCollision k data_ (inr c) = inr c

  in_child :
      (l r : MerkleHashable)
      → contains_value_hash (node l r) (hash_leaf sum x) ≡ true
      → (contains_value_hash r (hash_leaf sum x) ≡ true)
        ⊎ (contains_value_hash l (hash_leaf sum x) ≡ true)
  unfolding contains_value_hash
  in_child l r found = ground arith

  sound :
      (p : MerkleHashable) (data_ : List Bytes)
      → contains_value_hash p (hash_leaf sum x) ≡ true
      → hash sum data_ ≡ ok (hash_of sum p)
      → InOrCollision data_
  unfolding contains_value_hash hash_of
  sound (leaf_hash h) data_ found root = cc
  sound (value_hash h) data_ found root =
      let same : hash_leaf sum x ≡ h = bytes_equal_sound _ h found in leaf-root data_ (rw same root)
  sound (node l r) data_ found root = elim (in_child l r found) [
    | inl right ↦
        elim (node-parts (hash_of sum l) (hash_of sum r) data_ (inl (contains-length r right))
          root) [
            | inl c ↦ inr c
            | inr (k, el, er) ↦ right-InOrCollision k data_ (sound r (drop k data_) right er)
          ]
    | inr left ↦
        elim (node-parts (hash_of sum l) (hash_of sum r) data_ (inr (contains-length l left))
          root) [
            | inl c ↦ inr c
            | inr (k, el, er) ↦ left-InOrCollision k data_ (sound l (take k data_) left el)
          ]
  ]

-- A proof cannot be forged without a collision: for a hash function with digests of one length, if a
-- proof's hash is the root of a list's tree and the proof contains the hash of a value, as the hash
-- of a leaf, then the value is in the list, or there are two different inputs with one digest.
pub proof_sound :
    (sum : Bytes → Bytes) (size : ℕ) (proof : MerkleHashable) (data_ : List Bytes) (x : Bytes)
    → ((b : Bytes) → length (sum b) ≡ size)
    → contains_value_hash proof (hash_leaf sum x) ≡ true
    → hash sum data_ ≡ ok (hash_of sum proof)
    → ((i : ℕ) × (get_elem? data_ i ≡ some x)) ⊎ Collision sum
proof_sound sum size proof data_ x sized found root = sound sum size sized x proof data_ found root
