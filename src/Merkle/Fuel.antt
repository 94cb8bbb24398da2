-- ===== src/Merkle/Fuel.antt =====
-- The `while` loop of `merkle_root` (crypto/hashing.py) ends within as many rounds as the list is
-- long.
use qbit_network.Common.{ℕ, zero, suc, ◌≤◌, List, [], ◌∷◌, ◌≡◌, refl, arith, length}
use qbit_network.Merkle.{Bytes, next_layer, root_loop}
use qbit_network.Merkle.Complete.{length-next}

-- From one round less than the length of the list on, more rounds do not change the root.
pub root_loop_enough :
    (h : Bytes → Bytes) (m n : ℕ) (layer : List Bytes)
    → length layer ≤ suc m
    → length layer ≤ suc n
    → root_loop h m layer ≡ root_loop h n layer
unfolding root_loop
root_loop_enough h zero zero layer p q = refl
root_loop_enough h zero (suc n) [] p q = refl
root_loop_enough h zero (suc n) (a ∷ []) p q = refl
root_loop_enough h zero (suc n) (a ∷ b ∷ r) p q = absurd (omega (arith, p))
root_loop_enough h (suc m) zero [] p q = refl
root_loop_enough h (suc m) zero (a ∷ []) p q = refl
root_loop_enough h (suc m) zero (a ∷ b ∷ r) p q = absurd (omega (arith, q))
root_loop_enough h (suc m) (suc n) [] p q = refl
root_loop_enough h (suc m) (suc n) (a ∷ []) p q = refl
root_loop_enough h (suc m) (suc n) (a ∷ b ∷ r) p q =
    root_loop_enough h m n (next_layer h (a ∷ b ∷ r)) (omega (arith, p, length-next h (a ∷ b ∷ r)))
      (omega (arith, q, length-next h (a ∷ b ∷ r)))
