-- ===== src/Merkle/Binding.antt =====
-- What an accepted Merkle proof of crypto/hashing.py binds to: two different leaves that are
-- accepted for one root along one path give a collision of the hash function.
use qbit_network.Common.{
  ℕ, Bool, true, false, List, [], ◌∷◌, ◌++◌, map, ◌≡◌, ◌≢◌, refl, ap, arith, if◌then◌else◌, length,
  length-append, sym, ◌∙◌,
}
use qbit_network.Merkle.{
  Bytes, ProofPath, bytes_eq, merkle_node, climb, verify_merkle_proof, leaf_prefix, node_prefix,
}
use qbit_network.Merkle.Complete.{bytes_eq_self}

pub bytes_eq_sound : (a b : Bytes) → bytes_eq a b ≡ true → a ≡ b
unfolding bytes_eq
bytes_eq_sound [] [] e = refl
bytes_eq_sound [] (y ∷ b) e = cc
bytes_eq_sound (x ∷ a) [] e = cc
bytes_eq_sound (x ∷ a) (y ∷ b) e = ground (arith, bytes_eq_sound a b)

abbrev tail_of : Bytes → Bytes
tail_of [] = []
tail_of (x ∷ l) = l

append_left_cancel : (a b s t : Bytes) → length a ≡ length b → a ++ s ≡ b ++ t → a ≡ b
append_left_cancel [] [] s t n e = refl
append_left_cancel [] (y ∷ b) s t n e = absurd (omega arith)
append_left_cancel (x ∷ a) [] s t n e = absurd (omega arith)
append_left_cancel (x ∷ a) (y ∷ b) s t n e =
    ground (arith, append_left_cancel a b s t (omega arith) (ap tail_of e))

append_right_cancel : (a b s t : Bytes) → length s ≡ length t → a ++ s ≡ b ++ t → s ≡ t
append_right_cancel [] [] s t n e = e
append_right_cancel [] (y ∷ b) s t n e = absurd (omega (arith, ap length e, length-append b t))
append_right_cancel (x ∷ a) [] s t n e = absurd (omega (arith, ap length e, length-append a s))
append_right_cancel (x ∷ a) (y ∷ b) s t n e = append_right_cancel a b s t n (ap tail_of e)

-- The bytes that a step hashes.
abbrev pub step_input : Bytes → Bytes × Bool → Bytes
step_input current (sibling, is_left) =
    node_prefix ++ (if is_left then sibling ++ current else current ++ sibling)

-- Two different inputs with one hash.
abbrev pub IsCollision : (Bytes → Bytes) → Bytes × Bytes → Type 0
IsCollision h (a, b) = (a ≢ b) × (h a ≡ h b)

-- The inputs of the first step at which the two climbs meet.
pub meeting : (Bytes → Bytes) → Bytes → Bytes → ProofPath → ProofPath → Bytes × Bytes
meeting h c d (e ∷ p) (f ∷ q) =
    let later = meeting h (h (step_input c e)) (h (step_input d f)) p q in
    if bytes_eq (h (step_input c e)) (h (step_input d f))
    then (step_input c e, step_input d f)
    else later
meeting h c d p q = (c, d)

-- The pair of inputs that the two accepted leaves lead to.
pub colliding_inputs : (Bytes → Bytes) → Bytes → Bytes → ProofPath → ProofPath → Bytes × Bytes
unfolding meeting
colliding_inputs h x y p q =
    let a = leaf_prefix ++ x in
    let b = leaf_prefix ++ y in if bytes_eq (h a) (h b) then (a, b) else meeting h (h a) (h b) p q

abbrev pub directions : ProofPath → List Bool
directions p = map (λ e. e.1) p

module _ (h : Bytes → Bytes) (width : ℕ) (fixed : (b : Bytes) → length (h b) ≡ width) where
  if-IsCollision :
      (t : Bool) (u v : Bytes × Bytes)
      → (t ≡ true → IsCollision h u)
      → (t ≡ false → IsCollision h v)
      → IsCollision h (if t then u else v)
  if-IsCollision true u v yes' no' = yes' refl
  if-IsCollision false u v yes' no' = no' refl

  step_input_differs :
      (c d : Bytes) (e f : Bytes × Bool)
      → length c ≡ length d
      → e.1 ≡ f.1
      → c ≢ d
      → step_input c e ≢ step_input d f
  step_input_differs c d (s, true) (t, true) n same ne eq =
      ne (append_right_cancel s t c d n (ap tail_of eq))
  step_input_differs c d (s, false) (t, false) n same ne eq =
      ne (append_left_cancel c d s t n (ap tail_of eq))
  step_input_differs c d (s, true) (t, false) n same ne eq = cc
  step_input_differs c d (s, false) (t, true) n same ne eq = cc

  climb-nil : (c : Bytes) → climb h c [] ≡ c
  unfolding climb
  climb-nil c = refl

  climb-cons :
      (c : Bytes) (e : Bytes × Bool) (p : ProofPath)
      → climb h c (e ∷ p) ≡ climb h (h (step_input c e)) p
  unfolding climb merkle_node
  climb-cons c (s, true) p = refl
  climb-cons c (s, false) p = refl

  meeting-IsCollision :
      (c d : Bytes) (p q : ProofPath)
      → length c ≡ width
      → length d ≡ width
      → directions p ≡ directions q
      → c ≢ d
      → climb h c p ≡ climb h d q
      → IsCollision h (meeting h c d p q)
  unfolding meeting
  meeting-IsCollision c d [] [] lc ld same ne e = absurd (ne (rw (climb-nil, climb-nil) at e))
  meeting-IsCollision c d [] (f ∷ q) lc ld same ne e = cc
  meeting-IsCollision c d (f ∷ p) [] lc ld same ne e = cc
  meeting-IsCollision c d (e ∷ p) (f ∷ q) lc ld same ne eq =
      let a = step_input c e in
      let b = step_input d f in
      let a_ne_b : a ≢ b = step_input_differs c d e f (omega arith) (cc) ne in
      if-IsCollision (bytes_eq (h a) (h b)) (a, b) (meeting h (h a) (h b) p q)
        (λ t. (a_ne_b, bytes_eq_sound (h a) (h b) t))
        (λ t.
          meeting-IsCollision (h a) (h b) p q (fixed a) (fixed b) (cc)
            (λ r. cc (bytes_eq_self (h a), t, r)) (cc (climb-cons c e p, climb-cons d f q, eq)))

-- With a hash of fixed width: if two different leaves are accepted for one root, by proofs that
-- turn left and right at the same steps, then `colliding_inputs` computes from them two different
-- byte strings that have the same hash.
pub verify_merkle_proof_binding :
    (h : Bytes → Bytes) (width : ℕ) (x y root : Bytes) (p q : ProofPath)
    → ((b : Bytes) → length (h b) ≡ width)
    → directions p ≡ directions q
    → x ≢ y
    → verify_merkle_proof h x p root ≡ true
    → verify_merkle_proof h y q root ≡ true
    → IsCollision h (colliding_inputs h x y p q)
unfolding verify_merkle_proof colliding_inputs
verify_merkle_proof_binding h width x y root p q fixed same ne vx vy =
    let a = leaf_prefix ++ x in
    let b = leaf_prefix ++ y in
    let to_root = bytes_eq_sound (climb h (h a) p) root vx in
    let from_root = bytes_eq_sound (climb h (h b) q) root vy in
    if-IsCollision h width fixed (bytes_eq (h a) (h b)) (a, b) (meeting h (h a) (h b) p q)
      (λ t. (λ r. ne (ap tail_of r), bytes_eq_sound (h a) (h b) t))
      (λ t.
        meeting-IsCollision h width fixed (h a) (h b) p q (fixed a) (fixed b) same
          (λ r. cc (bytes_eq_self (h a), t, r)) (to_root ∙ sym from_root))
