-- ===== src/Merkle/Size.antt =====
-- The length of the Merkle proofs of crypto/hashing.py.
use Prim.Native.Nat.{◌≤◌, ◌^◌}
use native.Mathlib.Nat.{pow-suc}
use qbit_network.Common.{
  ℕ, zero, suc, ◌+◌, ◌/◌, List, [], ◌∷◌, ◌++◌, map, arith, length, length-append,
}
use qbit_network.Merkle.{
  Bytes, next_layer, hash_leaves, proof_round, proof_loop, merkle_proof, leaf_prefix,
}
use qbit_network.Merkle.Complete.{round_past, round-next, length-next, length-map_le}

module _ (h : Bytes → Bytes) where
  round_size : (i idx : ℕ) (l : List Bytes) → length (proof_round h i idx l).1 ≤ 1
  unfolding proof_round
  round_size i idx [] = omega arith
  round_size i idx (a ∷ []) = omega arith
  round_size i idx (a ∷ b ∷ r) =
      ground (arith, round_size (i + 2) idx r, round_past h (i + 2) idx r)

  loop_size :
      (fuel k idx : ℕ) (l : List Bytes) → length l ≤ 2 ^ k → length (proof_loop h fuel l idx) ≤ k
  unfolding proof_loop
  loop_size zero k idx [] le = omega arith
  loop_size (suc fuel) k idx [] le = omega arith
  loop_size zero k idx (a ∷ []) le = omega arith
  loop_size (suc fuel) k idx (a ∷ []) le = omega arith
  loop_size zero k idx (a ∷ b ∷ r) le = omega arith
  loop_size (suc fuel) zero idx (a ∷ b ∷ r) le = absurd (omega arith)
  loop_size (suc fuel) (suc k) idx (a ∷ b ∷ r) le =
      let l : List Bytes = a ∷ b ∷ r in
      rw (round-next h 0 idx l, length-append)
        (omega (
          arith,
          round_size 0 idx l,
          loop_size fuel k (idx / 2) (next_layer h l) (omega (arith, length-next h l, pow-suc 2 k)),
        ))

-- A proof for a tree of at most 2 ^ k items has at most k entries.
pub length-merkle_proof :
    (h : Bytes → Bytes) (k : ℕ) (items : List Bytes) (i : ℕ)
    → length items ≤ 2 ^ k
    → length (merkle_proof h items i) ≤ k
unfolding merkle_proof hash_leaves
length-merkle_proof h k items i le =
    let leaf = λ (item : Bytes). h (leaf_prefix ++ item) in
    ground (
      arith,
      loop_size h (length items) k i (map leaf items) (omega (arith, length-map_le leaf items)),
    )
