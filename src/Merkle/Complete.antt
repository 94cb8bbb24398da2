-- ===== src/Merkle/Complete.antt =====
-- Completeness of the Merkle proofs of crypto/hashing.py.
use Prim.Native.Nat.{◌≤◌, ◌<◌}
use qbit_network.Common.{
  ℕ, zero, suc, ◌+◌, ◌/◌, ◌%◌, true, false, List, [], ◌∷◌, ◌++◌, map, leb, ◌≡◌, refl, arith,
  if◌then◌else◌, length, get_elem?, some, ap,
}
use qbit_network.Merkle.{
  Bytes, ProofPath, bytes_eq, merkle_node, next_layer, root_loop, hash_leaves, merkle_root,
  proof_round, proof_loop, merkle_proof, climb, verify_merkle_proof, leaf_prefix,
}

pub bytes_eq_self : (a : Bytes) → bytes_eq a a ≡ true
unfolding bytes_eq
bytes_eq_self [] = refl
bytes_eq_self (x ∷ xs) = ground (arith, bytes_eq_self xs)

le-leb : (n i : ℕ) → i < n → leb n i ≡ false
le-leb n i p = ground arith

module _ {A : Type 0} where
  pub get_elem?-lt : (l : List A) (i : ℕ) (x : A) → get_elem? l i ≡ some x → i < length l
  get_elem?-lt [] i x e = cc
  get_elem?-lt (y ∷ l) zero x e = omega arith
  get_elem?-lt (y ∷ l) (suc i) x e = omega (arith, get_elem?-lt l i x e)

module _ {A B : Type 0} (f : A → B) where
  get_elem?-map :
      (l : List A) (i : ℕ) (x : A) → get_elem? l i ≡ some x → get_elem? (map f l) i ≡ some (f x)
  get_elem?-map [] i x e = cc
  get_elem?-map (y ∷ l) zero x e = cc
  get_elem?-map (y ∷ l) (suc i) x e = get_elem?-map l i x e

  pub length-map_le : (l : List A) → length (map f l) ≤ length l
  length-map_le [] = omega arith
  length-map_le (y ∷ l) = omega (arith, length-map_le l)

module _ (h : Bytes → Bytes) where
  -- The proof loop computes the same layers as the root loop.
  pub round-next : (i idx : ℕ) (l : List Bytes) → (proof_round h i idx l).0 ≡ next_layer h l
  unfolding proof_round next_layer
  round-next i idx [] = refl
  round-next i idx (a ∷ []) = refl
  round-next i idx (a ∷ b ∷ r) = ap (λ t. merkle_node h a b ∷ t) (round-next (i + 2) idx r)

  -- Past the index nothing is appended.
  pub round_past : (i idx : ℕ) (l : List Bytes) → idx < i → (proof_round h i idx l).1 ≡ []
  unfolding proof_round
  round_past i idx [] p = refl
  round_past i idx (a ∷ []) p = refl
  round_past i idx (a ∷ b ∷ r) p = ground (arith, round_past (i + 2) idx r (omega arith))

  -- One round: the entry it appends, if any, takes the element to its parent in the next layer.
  round_climb :
      (i k : ℕ) (l : List Bytes) (x : Bytes)
      → i % 2 ≡ 0
      → get_elem? l k ≡ some x
      → get_elem? (next_layer h l) (k / 2) ≡ some (climb h x (proof_round h i (i + k) l).1)
  unfolding proof_round next_layer climb
  round_climb i k [] x even e = cc
  round_climb i zero (a ∷ []) x even e = e
  round_climb i (suc k) (a ∷ []) x even e = cc
  round_climb i zero (a ∷ b ∷ r) x even e =
      ground (arith, round_past (i + 2) (i + 0) r (omega arith))
  round_climb i (suc zero) (a ∷ b ∷ r) x even e =
      ground (arith, round_past (i + 2) (i + 1) r (omega arith))
  round_climb i (suc (suc k)) (a ∷ b ∷ r) x even e =
      let same : i + 2 + k ≡ i + suc (suc k) = omega arith in
      let half : suc (suc k) / 2 ≡ suc (k / 2) = omega arith in
      let rest = round_climb (i + 2) k r x (omega arith) e in
      rw half (ground (arith, rw same at rest))

  climb-nil : (x : Bytes) → climb h x [] ≡ x
  unfolding climb
  climb-nil x = refl

  climb-append : (x : Bytes) (p q : ProofPath) → climb h x (p ++ q) ≡ climb h (climb h x p) q
  unfolding climb
  climb-append x [] q = refl
  climb-append x ((s, left) ∷ p) q =
      climb-append (if left then merkle_node h s x else merkle_node h x s) p q

  pub length-next :
      (l : List Bytes) → length (next_layer h l) + length (next_layer h l) ≤ length l + 1
  unfolding next_layer
  length-next [] = omega arith
  length-next (a ∷ []) = omega arith
  length-next (a ∷ b ∷ r) = omega (arith, length-next r)

  loops_agree :
      (fuel k : ℕ) (l : List Bytes) (x : Bytes)
      → length l ≤ fuel
      → get_elem? l k ≡ some x
      → climb h x (proof_loop h fuel l k) ≡ root_loop h fuel l
  unfolding proof_loop root_loop
  loops_agree fuel k [] x le e = cc
  loops_agree zero k (a ∷ l) x le e = absurd (omega arith)
  loops_agree (suc fuel) zero (a ∷ []) x le e = cc (climb-nil x)
  loops_agree (suc fuel) (suc k) (a ∷ []) x le e = cc
  loops_agree (suc fuel) k (a ∷ b ∷ r) x le e =
      let l : List Bytes = a ∷ b ∷ r in
      let same : 0 + k ≡ k = omega arith in
      let up = rw same at (round_climb 0 k l x refl e) in
      rw (climb-append, round-next 0 k l)
        (loops_agree fuel (k / 2) (next_layer h l) (climb h x (proof_round h 0 k l).1)
          (omega (arith, length-next l)) up)

-- The proof that `merkle_proof` makes for a position of the list is accepted by
-- `verify_merkle_proof` for the item there, against the root that `merkle_root` computes.
pub verify_merkle_proof_complete :
    (h : Bytes → Bytes) (items : List Bytes) (i : ℕ) (x : Bytes)
    → get_elem? items i ≡ some x
    → verify_merkle_proof h x (merkle_proof h items i) (merkle_root h items) ≡ true
unfolding verify_merkle_proof merkle_proof merkle_root hash_leaves
verify_merkle_proof_complete h [] i x e = cc
verify_merkle_proof_complete h (y ∷ ys) i x e =
    let items : List Bytes = y ∷ ys in
    let leaf = λ (item : Bytes). h (leaf_prefix ++ item) in
    let inside : leb (length items) i ≡ false =
      le-leb (length items) i (get_elem?-lt items i x e) in
    rw
      (
        inside,
        loops_agree h (length items) i (map leaf items) (leaf x) (length-map_le leaf items)
            (get_elem?-map leaf items i x e),
      )
      (bytes_eq_self (root_loop h (length items) (map leaf items)))
