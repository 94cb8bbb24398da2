-- ===== src/Notary/Sound.antt =====
-- core/proof.py: what it means that `verify_proof` accepts a document.
use qbit_network.Common.{
  true, false, List, [], ◌∷◌, ◌++◌, Option, none, some, ◌≡◌, ◌≢◌, refl, sym, ap, Bool-cases, inl,
  inr,
}
use qbit_network.Common.Dict.{or_else}
use qbit_network.Common.Exec.{ok}
use qbit_network.Common.Hex.{from_hex, to_hex}
use qbit_network.Common.Int.{pos, ltb_ℤ}
use qbit_network.Merkle.{Bytes, ProofPath, bytes_eq, verify_merkle_proof}
use qbit_network.Merkle.Binding.{bytes_eq_sound}
use qbit_network.Merkle.Octets.{parse_path}
use qbit_network.Header.{Text, Crypto, Header}
use qbit_network.Notary.{Proof, chain_id}
use qbit_network.Notary.Verify.{
  Flaw, differs, chain_flaws, header_of, no_flaw, merkle_flaws, hash_flaws, signature_flaws,
  checked_signature, verify_header, report, verify_rest, verify_proof,
}

-- The id of the transaction, the path and the root of the document are hex, and the path leads from
-- the one to the other.
abbrev pub IsInBlock : Crypto → Proof → Type 0
IsInBlock c p =
    (leaf : Bytes) × (path : ProofPath) × (root : Bytes) × (from_hex (or_else p.tx_id [])
      ≡ some leaf)
    × (parse_path (or_else p.merkle_path []) ≡ some path)
    × (from_hex (or_else p.block.merkle_root []) ≡ some root)
    × (verify_merkle_proof c.sha3_256 leaf path root ≡ true)

-- A key and a signature in hex that verify.
abbrev pub IsSigned : Crypto → Bytes → Text → Text → Type 0
IsSigned c message key signature =
    (k : Bytes) × (s : Bytes) × (from_hex key ≡ some k)
    × (from_hex signature ≡ some s)
    × (c.mldsa_verify k message s ≡ true)

-- The header of the document is complete, its hash is the claimed one, and it is signed where the
-- document has a key and a signature.
abbrev pub IsHeaderOf : Crypto → Proof → Header → Type 0
IsHeaderOf c p header =
    (header_of p.block ≡ some header)
    × (or_else p.block.hash [] ≡ to_hex (c.sha3_256 (c.header_json header)))
    × (or_else p.validator_pubkey [] ≢ []
        → or_else p.block.signature [] ≢ []
        → IsSigned c (c.header_json header) (or_else p.validator_pubkey [])
            (or_else p.block.signature []))

abbrev pub IsOfChain : Option Text → Type 0
IsOfChain none = Unit {0}
IsOfChain (some t) = t ≡ chain_id

no_flaw-nil : (a : List Flaw) → no_flaw a ≡ true → a ≡ []
no_flaw-nil [] h = refl
no_flaw-nil (x ∷ a) h = cc

append-nil_both : (a b : List Flaw) → a ++ b ≡ [] → (a ≡ []) × (b ≡ [])
append-nil_both [] b h = (refl, h)
append-nil_both (x ∷ a) b h = cc

chain_flaws-IsOfChain : (o : Option Text) → chain_flaws o ≡ [] → IsOfChain o
unfolding chain_flaws
chain_flaws-IsOfChain none h = tt
chain_flaws-IsOfChain (some t) h = elim (Bool-cases (bytes_eq t chain_id)) [
  | inl same ↦ bytes_eq_sound t chain_id same
  | inr other ↦ (let e = rw other at h in cc)
]

module _ (c : Crypto) where
  checked_signature-IsSigned :
      (message : Bytes) (key signature : Text) (k s : Option Bytes)
      → from_hex key ≡ k
      → from_hex signature ≡ s
      → checked_signature c message k s ≡ []
      → IsSigned c message key signature
  checked_signature-IsSigned message key signature (some k) (some s) a b h =
      elim (Bool-cases (c.mldsa_verify k message s)) [
        | inl valid ↦ (k, s, a, b, valid)
        | inr bad ↦ (let e = rw bad at h in cc)
      ]
  checked_signature-IsSigned message key signature (some k) none a b h = cc
  checked_signature-IsSigned message key signature none s a b h = cc

  signature_flaws-IsSigned :
      (message : Bytes) (key signature : Text)
      → signature_flaws c message key signature ≡ []
      → key ≢ []
      → signature ≢ []
      → IsSigned c message key signature
  unfolding signature_flaws
  signature_flaws-IsSigned message [] signature h k s = absurd (k refl)
  signature_flaws-IsSigned message (a ∷ key) [] h k s = absurd (s refl)
  signature_flaws-IsSigned message (a ∷ key) (b ∷ signature) h k s =
      checked_signature-IsSigned message (a ∷ key) (b ∷ signature) (from_hex (a ∷ key))
        (from_hex (b ∷ signature)) refl refl h

  hash_flaws-claimed :
      (message : Bytes) (claimed : Text)
      → hash_flaws c message claimed ≡ []
      → claimed ≡ to_hex (c.sha3_256 message)
  unfolding hash_flaws
  hash_flaws-claimed message claimed h =
      elim (Bool-cases (bytes_eq (to_hex (c.sha3_256 message)) claimed)) [
        | inl same ↦ sym (bytes_eq_sound (to_hex (c.sha3_256 message)) claimed same)
        | inr other ↦ (let e = rw other at h in cc)
      ]

  ok_no_flaw :
      (l : List Flaw) (flaws : List Flaw) → report c l ≡ ok (true, flaws) → no_flaw l ≡ true
  ok_no_flaw [] flaws h = refl
  ok_no_flaw (x ∷ l) flaws h = cc

  verify_header-IsHeaderOf :
      (p : Proof) (before flaws : List Flaw) (o : Option Header)
      → header_of p.block ≡ o
      → verify_header c p before o ≡ ok (true, flaws)
      → (before ≡ []) × ((header : Header) × IsHeaderOf c p header)
  unfolding verify_header
  verify_header-IsHeaderOf p before flaws none e h = cc
  verify_header-IsHeaderOf p before flaws (some header) e h =
      let message = c.header_json header in
      let hashed = hash_flaws c message (or_else p.block.hash []) in
      let signed =
        signature_flaws c message (or_else p.validator_pubkey []) (or_else p.block.signature []) in
      let no_flaws = no_flaw-nil ((before ++ hashed) ++ signed) (ok_no_flaw _ flaws h) in
      let (earlier, is_signed) = append-nil_both (before ++ hashed) signed no_flaws in
      let (none_before, hash_fits) = append-nil_both before hashed earlier in
      (
        none_before,
        (
          header,
          (
            e,
            hash_flaws-claimed (c.header_json header) (or_else p.block.hash []) hash_fits,
            signature_flaws-IsSigned (c.header_json header) (or_else p.validator_pubkey [])
                (or_else p.block.signature []) is_signed,
          ),
        ),
      )

  merkle_flaws-verified :
      (leaf : Option Bytes) (path : Option ProofPath) (root : Option Bytes)
      → merkle_flaws c leaf path root ≡ some []
      → (l : Bytes) × (q : ProofPath) × (r : Bytes) × (leaf ≡ some l)
        × (path ≡ some q)
        × (root ≡ some r)
        × (verify_merkle_proof c.sha3_256 l q r ≡ true)
  unfolding merkle_flaws
  merkle_flaws-verified (some l) (some q) (some r) h =
      elim (Bool-cases (verify_merkle_proof c.sha3_256 l q r)) [
        | inl valid ↦ (l, q, r, refl, refl, refl, valid)
        | inr bad ↦ (let e = rw bad at h in cc)
      ]
  merkle_flaws-verified (some l) (some q) none h = cc
  merkle_flaws-verified (some l) none r h = cc
  merkle_flaws-verified none q r h = cc

  verify_rest-IsSound :
      (p : Proof) (flaws : List Flaw) (o : Option (List Flaw))
      → verify_rest c p o ≡ ok (true, flaws)
      → IsOfChain p.proof_chain_id × (o ≡ some []) × ((header : Header) × IsHeaderOf c p header)
  verify_rest-IsSound p flaws none h = cc
  verify_rest-IsSound p flaws (some in_block) h =
      let (before, of_header) =
        verify_header-IsHeaderOf p (chain_flaws p.proof_chain_id ++ in_block) flaws
          (header_of p.block) refl h in
      let (same_chain, no_flaw_in_block) =
        append-nil_both (chain_flaws p.proof_chain_id) in_block before in
      (chain_flaws-IsOfChain p.proof_chain_id same_chain, ap some no_flaw_in_block, of_header)

-- A document that verify_proof accepts has the type of a notarization proof, names this chain or
-- none, has hex for its id and root and a path that leads from the one to the other, and a complete
-- header whose hash is the claimed one; where it has a public key and a signature, both are hex and
-- verify for that header.
pub verify_proof-IsSound :
    (c : Crypto) (p : Proof) (flaws : List Flaw)
    → verify_proof c p ≡ ok (true, flaws)
    → (differs p.proof_type ≡ false)
      × IsOfChain p.proof_chain_id
      × IsInBlock c p
      × ((header : Header) × IsHeaderOf c p header)
unfolding verify_proof
verify_proof-IsSound c p flaws h = elim (Bool-cases (differs p.proof_type)) [
  | inl other ↦ (let e = rw (other, verify_proof) at h in cc)
  | inr typed ↦ elim (Bool-cases (ltb_ℤ (or_else p.version (pos 0)) (pos 1))) [
    | inl old ↦ (let e = rw (typed, old, verify_proof) at h in cc)
    | inr new ↦
        (let (of_chain, in_block, of_header) =
            verify_rest-IsSound c p flaws
              (merkle_flaws c (from_hex (or_else p.tx_id []))
                (parse_path (or_else p.merkle_path [])) (from_hex (or_else p.block.merkle_root [])))
              (rw (typed, new, verify_proof) at h) in
          (typed, of_chain, merkle_flaws-verified c _ _ _ in_block, of_header))
  ]
]
