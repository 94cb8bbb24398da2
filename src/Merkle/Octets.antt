-- ===== src/Merkle/Octets.antt =====
-- Roots and proofs of crypto/hashing.py hold bytes if the hash function returns bytes, so that they
-- survive `bytes.hex` and `bytes.fromhex`.
use qbit_network.Common.{
  ℕ, zero, suc, ◌+◌, ◌/◌, ◌<◌, Bool, List, [], ◌∷◌, ◌++◌, Option, none, some, ◌≡◌, refl, arith, All,
  length,
}
use qbit_network.Common.Hex.{from_hex, to_hex, from_hex-to_hex}
use qbit_network.Merkle.{
  Bytes, ProofPath, zeros, leaf_prefix, node_prefix, merkle_node, next_layer, root_loop,
  hash_leaves, merkle_root, proof_round, proof_loop, merkle_proof,
}

abbrev pub IsOctets : Bytes → Type 0
IsOctets b = All (λ x. x < 256) b

abbrev pub ArePathOctets : ProofPath → Type 0
ArePathOctets p = All (λ e. IsOctets e.0) p

-- A path as it is written to JSON, with its hashes in hex.
abbrev pub HexPath : Type 0
HexPath = List (List ℕ × Bool)

-- `[(h.hex(), is_left) for h, is_left in proof]`
unfoldable pub hex_path : ProofPath → HexPath
hex_path [] = []
hex_path ((sibling, is_left) ∷ p) = (to_hex sibling, is_left) ∷ hex_path p

abbrev pub add_step : Option Bytes → Bool → Option ProofPath → Option ProofPath
add_step (some sibling) is_left (some p) = some ((sibling, is_left) ∷ p)
add_step _ _ _ = none

-- `[(bytes.fromhex(h), is_left) for h, is_left in path]`; `none` is a ValueError.
unfoldable pub parse_path : HexPath → Option ProofPath
parse_path [] = some []
parse_path ((sibling, is_left) ∷ p) = add_step (from_hex sibling) is_left (parse_path p)

pub parse_path-hex_path : (p : ProofPath) → ArePathOctets p → parse_path (hex_path p) ≡ some p
unfolding parse_path hex_path
parse_path-hex_path [] h = refl
parse_path-hex_path ((sibling, is_left) ∷ p) h =
    rw (from_hex-to_hex sibling h.0, parse_path-hex_path p h.1) refl

All-append : (p q : ProofPath) → ArePathOctets p → ArePathOctets q → ArePathOctets (p ++ q)
All-append [] q h g = g
All-append (e ∷ p) q h g = (h.0, All-append p q h.1 g)

zeros-IsOctets : (n : ℕ) → IsOctets (zeros n)
zeros-IsOctets zero = tt
zeros-IsOctets (suc n) = (omega arith, zeros-IsOctets n)

module _ (h : Bytes → Bytes) (octets : (b : Bytes) → IsOctets (h b)) where
  hash_leaves-IsOctets : (items : List Bytes) → All IsOctets (hash_leaves h items)
  unfolding hash_leaves
  hash_leaves-IsOctets [] = tt
  hash_leaves-IsOctets (x ∷ items) = (octets (leaf_prefix ++ x), hash_leaves-IsOctets items)

  next_layer-IsOctets : (l : List Bytes) → All IsOctets l → All IsOctets (next_layer h l)
  unfolding next_layer merkle_node
  next_layer-IsOctets [] k = tt
  next_layer-IsOctets (a ∷ []) k = k
  next_layer-IsOctets (a ∷ b ∷ r) k = (octets (node_prefix ++ a ++ b), next_layer-IsOctets r k.1.1)

  root_loop-IsOctets : (fuel : ℕ) (l : List Bytes) → All IsOctets l → IsOctets (root_loop h fuel l)
  unfolding root_loop
  root_loop-IsOctets zero [] k = tt
  root_loop-IsOctets zero (a ∷ l) k = k.0
  root_loop-IsOctets (suc fuel) [] k = tt
  root_loop-IsOctets (suc fuel) (a ∷ []) k = k.0
  root_loop-IsOctets (suc fuel) (a ∷ b ∷ r) k =
      root_loop-IsOctets fuel (next_layer h (a ∷ b ∷ r)) (next_layer-IsOctets (a ∷ b ∷ r) k)

  pub merkle_root-IsOctets : (items : List Bytes) → IsOctets (merkle_root h items)
  unfolding merkle_root
  merkle_root-IsOctets [] = zeros-IsOctets 32
  merkle_root-IsOctets (x ∷ items) =
      root_loop-IsOctets (length (x ∷ items)) (hash_leaves h (x ∷ items))
        (hash_leaves-IsOctets (x ∷ items))

  proof_round-IsOctets :
      (i idx : ℕ) (l : List Bytes)
      → All IsOctets l
      → All IsOctets (proof_round h i idx l).0 × ArePathOctets (proof_round h i idx l).1
  unfolding proof_round merkle_node
  proof_round-IsOctets i idx [] k = (tt, tt)
  proof_round-IsOctets i idx (a ∷ []) k = (k, tt)
  proof_round-IsOctets i idx (a ∷ b ∷ r) k =
      ground (arith, octets (node_prefix ++ a ++ b), proof_round-IsOctets (i + 2) idx r k.1.1)

  proof_loop-IsOctets :
      (fuel : ℕ) (l : List Bytes) (idx : ℕ)
      → All IsOctets l
      → ArePathOctets (proof_loop h fuel l idx)
  unfolding proof_loop
  proof_loop-IsOctets zero l idx k = tt
  proof_loop-IsOctets (suc fuel) [] idx k = tt
  proof_loop-IsOctets (suc fuel) (a ∷ []) idx k = tt
  proof_loop-IsOctets (suc fuel) (a ∷ b ∷ r) idx k =
      let (next, found) = proof_round-IsOctets 0 idx (a ∷ b ∷ r) k in
      All-append (proof_round h 0 idx (a ∷ b ∷ r)).1
        (proof_loop h fuel (proof_round h 0 idx (a ∷ b ∷ r)).0 (idx / 2)) found
        (proof_loop-IsOctets fuel (proof_round h 0 idx (a ∷ b ∷ r)).0 (idx / 2) next)

  pub merkle_proof-IsOctets : (items : List Bytes) (i : ℕ) → ArePathOctets (merkle_proof h items i)
  unfolding merkle_proof
  merkle_proof-IsOctets items i = ground (
    arith,
    proof_loop-IsOctets (length items) (hash_leaves h items) i (hash_leaves-IsOctets items),
  )
