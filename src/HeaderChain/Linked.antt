-- ===== src/HeaderChain/Linked.antt =====
-- validate_header_chain of core/blockchain.py accepts exactly the linked chains of headers.
use qbit_network.Common.{
  ℕ, String, true, false, not, ◌&&◌, List, [], ◌∷◌, some, ◌≡◌, ◌↔◌, ◌⊎◌, inl, inr, refl, arith,
  str_eq, eq_iff, map, Bool-cases, not-false, ap,
}
use qbit_network.Common.Dict.{Dict, string_eq}
use qbit_network.Common.Exec.{Result, ok, err, accept, refuse_if_lem, refuse_if-false}
use qbit_network.Common.Int.{
  ℤ, pos, ◌+ℤ◌, ltb_ℤ, eqb_ℤ, ◌≤ℤ◌, eqb_ℤ→eq, ltb_ℤ→le, le→eqb_ℤ, int_laws, pos_part, neg_part,
}
use qbit_network.Transaction.{Value}
use qbit_network.HeaderChain.{
  HeaderDict, Header, HeaderRefusal, read_header, is_unknown, check_first, check_next, check_rest,
  validate_header_chain, invalid_index,
}

-- The dict of a header.
abbrev pub dict_of : Header → HeaderDict
dict_of h = record {
  index = some (Value.int h.index);
  timestamp = some h.timestamp;
  prev_hash = some h.prev_hash;
  hash = some h.hash;
  validator = some h.validator;
}

-- The next header continues the one before it.
pub record Continues (registry : Dict String (List ℕ)) (prev h : Header) : Type 0 where
  pub known : is_unknown registry h ≡ false
  pub hash : h.prev_hash ≡ prev.hash
  pub index : h.index ≡ prev.index +ℤ pos 1
  pub time : prev.timestamp ≤ℤ h.timestamp

-- Every header from the second one on continues the one before it.
abbrev pub AreLinked : Dict String (List ℕ) → Header → List Header → Type 0
AreLinked registry prev [] = Unit {0}
AreLinked registry prev (h ∷ hs) = Continues registry prev h × AreLinked registry h hs

-- A chain of headers that starts from a hash, if one is given, at an index of zero or more, by known
-- validators.
abbrev pub IsLinkedChain : Dict String (List ℕ) → List Header → String → Type 0
IsLinkedChain registry [] start = Unit {0}
IsLinkedChain registry (h ∷ hs) start =
    ((start ≡ "") ⊎ (h.prev_hash ≡ start))
    × (is_unknown registry h ≡ false)
    × (pos 0 ≤ℤ h.index)
    × AreLinked registry h hs

same_text : (a b : String) → not (str_eq a b) ≡ false → a ≡ b
same_text a b h = ground (arith, eq_iff a b)

text_same : (a b : String) → a ≡ b → not (str_eq a b) ≡ false
text_same a b h = ground (arith, eq_iff a b)

read_header-dict_of : (h : Header) → ltb_ℤ h.index (pos 0) ≡ false → read_header (dict_of h) ≡ ok h
unfolding read_header
read_header-dict_of h e = rw e refl

read_header-negative :
    (h : Header) → ltb_ℤ h.index (pos 0) ≡ true → read_header (dict_of h) ≡ err invalid_index
unfolding read_header
read_header-negative h e = rw e refl

next_index : (a b : ℤ) → pos 0 ≤ℤ a → b ≡ a +ℤ pos 1 → pos 0 ≤ℤ b
next_index a b h e = omega (int_laws, ap pos_part e, ap neg_part e)

eqb_refl : (a b : ℤ) → a ≡ b → eqb_ℤ a b ≡ true
eqb_refl a b h = le→eqb_ℤ a b (omega (arith, ap pos_part h, ap neg_part h))

le→ltb_ℤ : (a b : ℤ) → a ≤ℤ b → ltb_ℤ b a ≡ false
le→ltb_ℤ a b h = ground arith

module _ (registry : Dict String (List ℕ)) where
  check_next-Continues :
      (prev h : Header) (rest : Result HeaderRefusal (Unit {0}))
      → check_next registry prev h rest ≡ accept
      → Continues registry prev h × (rest ≡ accept)
  unfolding check_next
  check_next-Continues prev h rest e =
      let (hash, e1) = refuse_if_lem _ _ _ e in
      let (index, e2) = refuse_if_lem _ _ _ e1 in
      let (time, e3) = refuse_if_lem _ _ _ e2 in
      let (known, e4) = refuse_if_lem _ _ _ e3 in
      (
        record {
          known = known;
          hash = same_text h.prev_hash prev.hash hash;
          index = eqb_ℤ→eq h.index (prev.index +ℤ pos 1) (not-false _ index);
          time = ltb_ℤ→le h.timestamp prev.timestamp time;
        },
        e4,
      )

  Continues-check_next :
      (prev h : Header) (rest : Result HeaderRefusal (Unit {0}))
      → Continues registry prev h
      → rest ≡ accept
      → check_next registry prev h rest ≡ accept
  unfolding check_next
  Continues-check_next prev h rest k e =
      let same = eqb_refl h.index (prev.index +ℤ pos 1) k.index in
      refuse_if-false _ _ _ (text_same h.prev_hash prev.hash k.hash) (
        refuse_if-false _ _ _ (ap not same) (
          refuse_if-false _ _ _ (le→ltb_ℤ prev.timestamp h.timestamp k.time)
            (refuse_if-false _ _ _ k.known e)))

  check_rest-AreLinked :
      (prev : Header) (hs : List Header)
      → check_rest registry prev (map dict_of hs) ≡ accept
      → AreLinked registry prev hs
  unfolding check_rest
  check_rest-AreLinked prev [] e = tt
  check_rest-AreLinked prev (h ∷ hs) e = elim (Bool-cases (ltb_ℤ h.index (pos 0))) [
    | inl negative ↦ (let bad = rw (read_header-negative h negative) at e in cc)
    | inr index ↦
        (let (k, rest) =
            check_next-Continues prev h (check_rest registry h (map dict_of hs))
              (rw (read_header-dict_of h index) at e) in
          (k, check_rest-AreLinked h hs rest))
  ]

  AreLinked-check_rest :
      (prev : Header) (hs : List Header)
      → pos 0 ≤ℤ prev.index
      → AreLinked registry prev hs
      → check_rest registry prev (map dict_of hs) ≡ accept
  unfolding check_rest
  AreLinked-check_rest prev [] i k = refl
  AreLinked-check_rest prev (h ∷ hs) i (k, ks) =
      let i' = next_index prev.index h.index i k.index in
      rw (read_header-dict_of h (le→ltb_ℤ (pos 0) h.index i'))
        (Continues-check_next prev h _ k (AreLinked-check_rest h hs i' ks))

  starts :
      (start : String) (h : Header)
      → (not (str_eq start "") && not (str_eq h.prev_hash start)) ≡ false
      → (start ≡ "") ⊎ (h.prev_hash ≡ start)
  starts start h e = elim (Bool-cases (str_eq start "")) [
    | inl empty ↦ inl ((eq_iff start "").0 empty)
    | inr given ↦ inr (same_text h.prev_hash start (rw given at e))
  ]

  started :
      (start : String) (h : Header)
      → (start ≡ "") ⊎ (h.prev_hash ≡ start)
      → (not (str_eq start "") && not (str_eq h.prev_hash start)) ≡ false
  started start h (inl empty) = ground (arith, eq_iff start "")
  started start h (inr same) = ground (arith, eq_iff h.prev_hash start)

-- Headers with all their fields are accepted exactly if they form a linked chain: the first one at an
-- index of zero or more and, if a hash is given, after this hash; each later one after the hash of
-- the one before it, at the next index and no earlier; each by a registered validator, of any
-- epoch, unless it names none or its index is zero.
pub validate_header_chain-IsLinkedChain :
    (registry : Dict String (List ℕ)) (headers : List Header) (start_prev_hash : String)
    → (validate_header_chain registry (map dict_of headers) start_prev_hash ≡ accept)
      ↔ IsLinkedChain registry headers start_prev_hash
unfolding validate_header_chain check_first
validate_header_chain-IsLinkedChain registry [] start = ((λ e. tt), λ k. refl)
validate_header_chain-IsLinkedChain registry (h ∷ hs) start = (
  λ e. elim (Bool-cases (ltb_ℤ h.index (pos 0))) [
    | inl negative ↦ (let bad = rw (read_header-negative h negative) at e in cc)
    | inr index ↦
        (let (first, e1) = refuse_if_lem _ _ _ (rw (read_header-dict_of h index) at e) in
          let (known, e2) = refuse_if_lem _ _ _ e1 in
          (
            starts registry start h first,
            known,
            ltb_ℤ→le h.index (pos 0) index,
            check_rest-AreLinked registry h hs e2,
          ))
  ],
  λ k. rw (read_header-dict_of h (le→ltb_ℤ (pos 0) h.index k.2)) (
      refuse_if-false _ _ _ (started registry start h k.0)
        (refuse_if-false _ _ _ k.1 (AreLinked-check_rest registry h hs k.2 k.3))),
)
