-- ===== src/Notary/Examples.antt =====
-- A block of two transactions over a toy hash function, and the notarization proof of the second.
use qbit_network.Common.{ℕ, true, false, [], ◌∷◌, some, ◌≡◌, ◌%◌, refl, arith}
use qbit_network.Common.Exec.{ok}
use qbit_network.Common.Hex.{from_hex, to_hex}
use qbit_network.Common.Int.{pos}
use qbit_network.Merkle.{
  Bytes, bytes_eq, merkle_root, root_loop, hash_leaves, next_layer, merkle_node,
}
use qbit_network.Merkle.Octets.{IsOctets}
use qbit_network.Header.{Crypto, Tx, Block, from_hex_all, remake, init, verify_signature, Header}
use qbit_network.Header.Dicts.{to_dict}
use qbit_network.Notary.{Proof, tx_to_dict, export_proof}
use qbit_network.Notary.Verify.{differs, verify_proof}
use qbit_network.Notary.Accepted.{verify_proof-export_proof}
use qbit_network.Notary.Sound.{verify_proof-IsSound, IsOfChain, IsInBlock, IsHeaderOf}

abbrev first_byte : Bytes → ℕ
first_byte [] = 7
first_byte (a ∷ b) = a

-- One byte of digest, from the first byte; every signature of a key byte 5 is valid.
abbrev toy : Crypto
toy = record {
  header_json = λ h. 9 ∷ [];
  sha3_256 = λ b. first_byte b % 256 ∷ [];
  mldsa_sign = λ k m. 6 ∷ [];
  mldsa_verify = λ k m s. bytes_eq k (5 ∷ []);
}

toy_hash-IsOctets : (x : Bytes) → IsOctets (toy.sha3_256 x)
toy_hash-IsOctets x = (omega arith, tt)

abbrev second_tx : Tx
second_tx = record { tx_id = 48 ∷ 50 ∷ []; sender_pubkey = 3 ∷ [] }

abbrev block : Block
block = record {
  index = pos 4;
  prev_hash = 48 ∷ 48 ∷ [];
  transactions = record { tx_id = 48 ∷ 49 ∷ []; sender_pubkey = 3 ∷ [] } ∷ second_tx ∷ [];
  validator = 97 ∷ [];
  timestamp = pos 100;
  signature = 6 ∷ [];
  base_fee = pos 1;
  state_root = [];
  receipts_root = [];
  merkle_root = 48 ∷ 49 ∷ [];
}

made : remake toy block ≡ some block
unfolding init from_hex_all from_hex to_hex merkle_root root_loop hash_leaves next_layer merkle_node
made = refl

signed : verify_signature toy (5 ∷ []) block ≡ true
unfolding verify_signature bytes_eq
signed = refl

verify_proof-export_proof_example :
    (p : Proof) × (export_proof toy
        (to_dict tx_to_dict toy block)
        1
        (48 ∷ 50 ∷ [])
        (100 ∷ [])
        (97 ∷ [])
        (to_hex (5 ∷ []))
      ≡ some p)
    × (verify_proof toy p ≡ ok (true, []))
verify_proof-export_proof_example =
    verify_proof-export_proof toy block 1 second_tx (100 ∷ []) (97 ∷ []) (5 ∷ []) toy_hash-IsOctets
      made refl (omega arith, tt) (omega arith, tt) signed

abbrev exported :
    (p : Proof) × (export_proof toy
        (to_dict tx_to_dict toy block)
        1
        (48 ∷ 50 ∷ [])
        (100 ∷ [])
        (97 ∷ [])
        (to_hex (5 ∷ []))
      ≡ some p)
    × (verify_proof toy p ≡ ok (true, []))
exported =
    verify_proof-export_proof toy block 1 second_tx (100 ∷ []) (97 ∷ []) (5 ∷ []) toy_hash-IsOctets
      made refl (omega arith, tt) (omega arith, tt) signed

-- The document of that proof.
abbrev document : Proof
document = exported.0

verify_proof-IsSound_example :
    (differs document.proof_type ≡ false)
    × IsOfChain document.proof_chain_id
    × IsInBlock toy document
    × ((header : Header) × IsHeaderOf toy document header)
verify_proof-IsSound_example = verify_proof-IsSound toy document [] exported.2
