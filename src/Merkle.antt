-- ===== src/Merkle.antt =====
-- qbit_network/crypto/hashing.py: the Merkle tree over a hash function. `sha3_256` comes from
-- hashlib, so it is a parameter: any function from byte strings to byte strings.
pub mod Complete
pub mod Size
pub mod Octets
pub mod Fuel
pub mod Binding
mod Examples
use qbit_network.Common.{
  ℕ, zero, suc, ◌+◌, ◌-◌, ◌/◌, ◌%◌, Bool, true, false, ◌&&◌, List, [], ◌∷◌, ◌++◌, map, ◌==◌, leb,
  if◌then◌else◌, length,
}

abbrev pub Bytes : Type 0
Bytes = List ℕ

-- A path of (sibling, is_left) pairs.
abbrev pub ProofPath : Type 0
ProofPath = List (Bytes × Bool)

-- `==` on bytes
unfoldable pub bytes_eq : Bytes → Bytes → Bool
bytes_eq [] [] = true
bytes_eq (a ∷ as') (b ∷ bs) = a == b && bytes_eq as' bs
bytes_eq _ _ = false

-- b'\x00' * n
abbrev pub zeros : ℕ → Bytes
zeros zero = []
zeros (suc n) = 0 ∷ zeros n

abbrev pub leaf_prefix : Bytes
leaf_prefix = 0 ∷ []

abbrev pub node_prefix : Bytes
node_prefix = 1 ∷ []

-- `layer[0]`; the layer is never empty where it is read.
abbrev pub first : List Bytes → Bytes
first [] = []
first (x ∷ xs) = x

module _ (sha3_256 : Bytes → Bytes) where
  unfoldable pub merkle_node : Bytes → Bytes → Bytes
  merkle_node left right = sha3_256 (node_prefix ++ left ++ right)

  -- One round of the `while` loop of `merkle_root`: pairs are hashed, an odd last one is promoted.
  unfoldable pub next_layer : List Bytes → List Bytes
  next_layer (a ∷ b ∷ r) = merkle_node a b ∷ next_layer r
  next_layer (a ∷ []) = a ∷ []
  next_layer [] = []

  -- `while len(layer) > 1`, with fuel.
  unfoldable pub root_loop : ℕ → List Bytes → Bytes
  root_loop zero layer = first layer
  root_loop (suc fuel) (a ∷ b ∷ r) = root_loop fuel (next_layer (a ∷ b ∷ r))
  root_loop (suc fuel) layer = first layer

  unfoldable pub hash_leaves : List Bytes → List Bytes
  hash_leaves items = map (λ item. sha3_256 (leaf_prefix ++ item)) items

  unfoldable pub merkle_root : List Bytes → Bytes
  merkle_root [] = zeros 32
  merkle_root items = root_loop (length items) (hash_leaves items)

  -- The inner `for` loop of `merkle_proof` from position `i`: the rest of the next layer, and what
  -- is appended to the proof.
  unfoldable pub proof_round : ℕ → ℕ → List Bytes → List Bytes × ProofPath
  proof_round i idx (a ∷ b ∷ r) =
      let (next, found) = proof_round (i + 2) idx r in
      (
        merkle_node a b ∷ next,
        (if i == idx - idx % 2
            then (if idx % 2 == 0 then (b, false) else (a, true)) ∷ found
            else found),
      )
  proof_round i idx layer = (layer, [])

  unfoldable pub proof_loop : ℕ → List Bytes → ℕ → ProofPath
  proof_loop zero layer idx = []
  proof_loop (suc fuel) (a ∷ b ∷ r) idx =
      let (next, found) = proof_round 0 idx (a ∷ b ∷ r) in found ++ proof_loop fuel next (idx / 2)
  proof_loop (suc fuel) layer idx = []

  -- The index is a position, so not negative.
  unfoldable pub merkle_proof : List Bytes → ℕ → ProofPath
  merkle_proof items index =
      if leb (length items) index then [] else proof_loop (length items) (hash_leaves items) index

  -- The `for` loop of `verify_merkle_proof`.
  unfoldable pub climb : Bytes → ProofPath → Bytes
  climb current [] = current
  climb current ((sibling, is_left) ∷ proof) =
      climb (if is_left then merkle_node sibling current else merkle_node current sibling) proof

  unfoldable pub verify_merkle_proof : Bytes → ProofPath → Bytes → Bool
  verify_merkle_proof leaf proof root = bytes_eq (climb (sha3_256 (leaf_prefix ++ leaf)) proof) root
