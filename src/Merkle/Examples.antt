-- ===== src/Merkle/Examples.antt =====
-- The Merkle theorems at concrete trees, over toy hash functions.
use qbit_network.Common.{ℕ, List, [], ◌∷◌, ◌≡◌, ◌≢◌, ◌+◌, ◌%◌, refl, true, arith}
use qbit_network.Merkle.{
  Bytes, ProofPath, merkle_root, merkle_proof, verify_merkle_proof, bytes_eq, climb, merkle_node,
  hash_leaves, proof_round, proof_loop,
}
use qbit_network.Merkle.Complete.{verify_merkle_proof_complete}
use qbit_network.Merkle.Binding.{IsCollision, colliding_inputs, verify_merkle_proof_binding}

-- Collision-free and of no fixed width.
abbrev tagged : Bytes → Bytes
tagged b = 7 ∷ b

-- Of width 1.
abbrev byte_sum : Bytes → ℕ
byte_sum [] = 0
byte_sum (x ∷ b) = x + byte_sum b

abbrev checksum : Bytes → Bytes
checksum b = byte_sum b % 256 ∷ []

abbrev three : List Bytes
three = (1 ∷ []) ∷ (2 ∷ []) ∷ (3 ∷ []) ∷ []

promoted_last : merkle_proof tagged three 2 ≡ (7 ∷ 1 ∷ 7 ∷ 0 ∷ 1 ∷ 7 ∷ 0 ∷ 2 ∷ [], true) ∷ []
unfolding merkle_proof proof_loop proof_round hash_leaves merkle_node
promoted_last = refl

verify_merkle_proof_complete_example :
    verify_merkle_proof tagged (2 ∷ []) (merkle_proof tagged three 1) (merkle_root tagged three)
    ≡ true
verify_merkle_proof_complete_example = verify_merkle_proof_complete tagged three 1 (2 ∷ []) refl

-- 1 + 2 and 2 + 1 have the same checksum.
abbrev path : ProofPath
path = (5 ∷ [], true) ∷ []

accepted : (b : Bytes) → b ≡ 1 ∷ 2 ∷ [] → verify_merkle_proof checksum b path (9 ∷ []) ≡ true
unfolding verify_merkle_proof climb merkle_node bytes_eq
accepted b e = rw e refl

swapped : verify_merkle_proof checksum (2 ∷ 1 ∷ []) path (9 ∷ []) ≡ true
unfolding verify_merkle_proof climb merkle_node bytes_eq
swapped = refl

differ : ◌≢◌ {A = Bytes} (1 ∷ 2 ∷ []) (2 ∷ 1 ∷ [])
differ = ground arith

verify_merkle_proof_binding_example :
    IsCollision checksum (colliding_inputs checksum (1 ∷ 2 ∷ []) (2 ∷ 1 ∷ []) path path)
verify_merkle_proof_binding_example =
    verify_merkle_proof_binding checksum 1 (1 ∷ 2 ∷ []) (2 ∷ 1 ∷ []) (9 ∷ []) path path (λ b. refl)
      refl differ (accepted (1 ∷ 2 ∷ []) refl) swapped
