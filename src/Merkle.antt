-- ===== src/Merkle.antt =====
-- merklehasher/: the Merkle tree hash of a list of values and inclusion proofs. Bytes are numbers;
-- the hash function of the package `crypto` and the serialization of a value are parameters.
pub mod Tree
pub mod Completeness
pub mod Soundness
pub mod Values
use axon_go.Common.{
  ℕ, zero, suc, ◌+◌, ◌-◌, ◌*◌, ◌/◌, ◌^◌, Bool, true, false, ◌||◌, Option, none, some, List, [], ◌∷◌,
  ◌++◌, ltb, leb, ◌==◌, if◌then◌else◌, length, get_elem?, take, drop,
}
use axon_go.Common.Result.{Result, ok, err, panic, ◌>>=◌, ◌>>◌, reject_if}

abbrev pub Bytes : Type 0
Bytes = List ℕ

-- What fails in merklehasher/. `bytes_failed` is the error of the serialization of a value;
-- `out_of_fuel` is the model's own: a recursion that did not end.
pub data Error : Type 0 where
  proof_value_not_found no_values index_out_of_bounds bytes_failed out_of_fuel : Error

-- `bits.Len`: the number of bits of a number, by halving it as often as it has units at most.
unfoldable pub bits_len : ℕ → ℕ → ℕ
bits_len zero n = 0
bits_len (suc fuel) n = let rest = bits_len fuel (n / 2) in if n == 0 then 0 else suc rest

unfoldable pub largest_power_of_two : ℕ → Result Error ℕ
largest_power_of_two x = if ltb x 2 then panic else ok (2 ^ (bits_len (x - 1) (x - 1) - 1))

-- `bytes.Equal`
unfoldable pub bytes_equal : Bytes → Bytes → Bool
bytes_equal [] [] = true
bytes_equal [] (y ∷ ys) = false
bytes_equal (x ∷ xs) [] = false
bytes_equal (x ∷ xs) (y ∷ ys) = if x == y then bytes_equal xs ys else false

-- The types that implement `MerkleHashable`.
pub data MerkleHashable : Type 0 where
  value_hash leaf_hash : Bytes → MerkleHashable
  node : MerkleHashable → MerkleHashable → MerkleHashable

-- The state of the hash function is the list of bytes that are written to it; `Sum` is its value.
module _ (sum : Bytes → Bytes) where
  unfoldable pub empty_leaf : Bytes
  empty_leaf = sum []

  unfoldable pub hash_leaf : Bytes → Bytes
  hash_leaf l = sum (0 ∷ l)

  unfoldable pub hash_node : Bytes → Bytes → Bytes
  hash_node l r = sum ((1 ∷ l) ++ r)

  -- `Hash`, on fuel: each call is on a shorter list.
  unfoldable pub hash_fuel : ℕ → List Bytes → Result Error Bytes
  hash_fuel fuel [] = ok empty_leaf
  hash_fuel fuel (l ∷ []) = ok (hash_leaf l)
  hash_fuel zero (l ∷ m ∷ rest) = err out_of_fuel
  hash_fuel (suc fuel) (l ∷ m ∷ rest) = do
    k ← largest_power_of_two (length (l ∷ m ∷ rest))
    left ← hash_fuel fuel (take k (l ∷ m ∷ rest))
    right ← hash_fuel fuel (drop k (l ∷ m ∷ rest))
    ok (hash_node left right)

  unfoldable pub hash : List Bytes → Result Error Bytes
  hash data_ = hash_fuel (length data_) data_

  -- `computeProof`, on fuel. An index of the right half is what is left of it after the left half.
  unfoldable pub compute_proof_fuel : ℕ → List Bytes → ℕ → Result Error MerkleHashable
  compute_proof_fuel fuel [] index = panic
  compute_proof_fuel fuel (leaf ∷ []) index = ok (value_hash (hash_leaf leaf))
  compute_proof_fuel fuel (left ∷ right ∷ []) index =
      if index == 0
      then ok (node (value_hash (hash_leaf left)) (leaf_hash (hash_leaf right)))
      else ok (node (leaf_hash (hash_leaf left)) (value_hash (hash_leaf right)))
  compute_proof_fuel zero (l ∷ m ∷ n ∷ rest) index = err out_of_fuel
  compute_proof_fuel (suc fuel) (l ∷ m ∷ n ∷ rest) index = do
    k ← largest_power_of_two (length (l ∷ m ∷ n ∷ rest))
    elim (ltb index k) [
      | true ↦ do
        left ← compute_proof_fuel fuel (take k (l ∷ m ∷ n ∷ rest)) index
        right ← hash (drop k (l ∷ m ∷ n ∷ rest))
        ok (node left (leaf_hash right))
      | false ↦ do
        left ← hash (take k (l ∷ m ∷ n ∷ rest))
        right ← compute_proof_fuel fuel (drop k (l ∷ m ∷ n ∷ rest)) (index - k)
        ok (node (leaf_hash left) right)
    ]

  unfoldable pub compute_proof : List Bytes → ℕ → Result Error MerkleHashable
  compute_proof data_ index = compute_proof_fuel (length data_) data_ index

  -- The `hash` methods of the three types, which `Proof.Hash` calls.
  unfoldable pub hash_of : MerkleHashable → Bytes
  hash_of (value_hash h) = h
  hash_of (leaf_hash h) = h
  hash_of (node l r) = hash_node (hash_of l) (hash_of r)

-- The right child is looked into first.
unfoldable pub contains_value_hash : MerkleHashable → Bytes → Bool
contains_value_hash (leaf_hash h) hashed_value = false
contains_value_hash (value_hash h) hashed_value = bytes_equal hashed_value h
contains_value_hash (node l r) hashed_value =
    contains_value_hash r hashed_value || contains_value_hash l hashed_value

-- The calls on values: `bytes` is the serialization of a value.
module _ {V : Type 0} (sum : Bytes → Bytes) (bytes : V → Result Error Bytes) where
  unfoldable pub values_bytes : List V → Result Error (List Bytes)
  values_bytes [] = ok []
  values_bytes (v ∷ vs) = do b ← bytes v; bs ← values_bytes vs; ok (b ∷ bs)

  unfoldable pub hash_values : List V → Result Error Bytes
  hash_values values = do data_ ← values_bytes values; hash sum data_

  -- The loop that looks for the value from index `i` on; `none` is the end of the list.
  unfoldable pub find_value : Bytes → List V → ℕ → Result Error (Option ℕ)
  find_value to_prove [] i = ok none
  find_value to_prove (v ∷ vs) i = do
    b ← bytes v
    let rest = find_value to_prove vs (i + 1)
    if bytes_equal to_prove b then ok (some i) else rest

  unfoldable pub compute_proof_for_index : List V → ℕ → Result Error MerkleHashable
  compute_proof_for_index values index = do
    reject_if (ltb (length values) 1) no_values
    reject_if (leb (length values) index) index_out_of_bounds
    data_ ← values_bytes values
    compute_proof sum data_ index

  abbrev or_not_found : Option ℕ → Result Error ℕ
  or_not_found none = err proof_value_not_found
  or_not_found (some i) = ok i

  unfoldable pub compute_proof_of_value : List V → V → Result Error MerkleHashable
  compute_proof_of_value values value_to_proof = do
    to_prove ← bytes value_to_proof
    found ← find_value to_prove values 0
    index ← or_not_found found
    compute_proof_for_index values index

  unfoldable pub contains_value : MerkleHashable → V → Result Error Bool
  contains_value proof value = do b ← bytes value; ok (contains_value_hash proof (hash_leaf sum b))
