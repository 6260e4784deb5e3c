-- ===== src/Tests/MerkleTree.antt =====
-- merklehasher/ at concrete inputs. The hash function of the tests keeps the first two bytes and the
-- length of its input.
use axon_go.Common.{
  ℕ, ◌+◌, ◌*◌, ◌^◌, ◌≤◌, ◌<◌, ◌≡◌, ◌≢◌, refl, ◌⊎◌, arith, some, List, [], ◌∷◌, length, get_elem?,
  take, drop,
}
use axon_go.Common.Result.{Result, ok, err}
use axon_go.Merkle.{
  Bytes, Error, proof_value_not_found, bits_len, largest_power_of_two, bytes_equal, value_hash,
  leaf_hash, node, MerkleHashable, hash_leaf, hash_node, hash_fuel, hash, compute_proof_fuel,
  compute_proof, hash_of, contains_value_hash, values_bytes, compute_proof_of_value,
}
use axon_go.Merkle.Tree.{hash_of_parts}
use axon_go.Merkle.Completeness.{IsProof, compute_proof-IsProof}
use axon_go.Merkle.Soundness.{Collision, proof_sound}
use axon_go.Merkle.Values.{IsValueProof, compute_proof_of_value_lem}

abbrev digest : Bytes → Bytes
digest [] = 0 ∷ 0 ∷ 0 ∷ []
digest (x ∷ []) = x ∷ 0 ∷ 1 ∷ []
digest (x ∷ y ∷ rest) = x ∷ y ∷ (2 + length rest) ∷ []

digest-length : (b : Bytes) → length (digest b) ≡ 3
digest-length [] = refl
digest-length (x ∷ []) = refl
digest-length (x ∷ y ∷ rest) = refl

abbrev three : List Bytes
three = (7 ∷ []) ∷ (8 ∷ 9 ∷ []) ∷ (5 ∷ []) ∷ []

abbrev second_proof : MerkleHashable
second_proof =
    node (node (leaf_hash (0 ∷ 7 ∷ 2 ∷ [])) (value_hash (0 ∷ 8 ∷ 3 ∷ [])))
      (leaf_hash (0 ∷ 5 ∷ 2 ∷ []))

computed-proof : compute_proof digest three 1 ≡ ok second_proof
unfolding compute_proof compute_proof_fuel hash hash_fuel hash_leaf hash_node largest_power_of_two
    bits_len
computed-proof = refl

hash_of_parts_example :
    (j : ℕ) × (hl hr : Bytes) × (2 ^ j < 3)
    × (3 ≤ 2 * 2 ^ j)
    × (hash digest (take (2 ^ j) three) ≡ ok hl)
    × (hash digest (drop (2 ^ j) three) ≡ ok hr)
    × (hash digest three ≡ ok (hash_node digest hl hr))
hash_of_parts_example = hash_of_parts digest three (omega arith)

compute_proof-IsProof_example : IsProof digest three (8 ∷ 9 ∷ []) (compute_proof digest three 1)
compute_proof-IsProof_example = compute_proof-IsProof digest three 1 (8 ∷ 9 ∷ []) refl

proof_sound_example :
    ((i : ℕ) × (get_elem? {A = Bytes} three i ≡ some (8 ∷ 9 ∷ []))) ⊎ Collision digest
unfolding hash hash_fuel hash_leaf hash_node largest_power_of_two bits_len hash_of
    contains_value_hash bytes_equal
proof_sound_example = proof_sound digest 3 second_proof three (8 ∷ 9 ∷ []) digest-length refl refl

abbrev single_byte : ℕ → Result Error Bytes
single_byte n = ok (n ∷ [])

compute_proof_of_value_lem_example :
    (IsValueProof digest single_byte (7 ∷ 4 ∷ []) 4
      × ((j : ℕ) × (get_elem? {A = Bytes} ((7 ∷ []) ∷ (4 ∷ []) ∷ []) j ≡ some (4 ∷ []))))
    ⊎ ((compute_proof_of_value digest single_byte (7 ∷ 4 ∷ []) 4 ≡ err proof_value_not_found)
        × ((j : ℕ) → get_elem? {A = Bytes} ((7 ∷ []) ∷ (4 ∷ []) ∷ []) j ≢ some (4 ∷ [])))
unfolding values_bytes
compute_proof_of_value_lem_example =
    compute_proof_of_value_lem digest single_byte (7 ∷ 4 ∷ []) 4 refl refl
