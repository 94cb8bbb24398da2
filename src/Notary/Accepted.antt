-- ===== src/Notary/Accepted.antt =====
-- core/proof.py: an exported proof is accepted, and what acceptance guarantees.
use qbit_network.Common.{
  ℕ, true, List, [], ◌∷◌, some, ◌≡◌, refl, map, get_elem?, get_elem?-map, length-map, ap,
}
use qbit_network.Common.Dict.{or_else}
use qbit_network.Common.Exec.{ok}
use qbit_network.Common.Hex.{from_hex, to_hex, from_hex-to_hex}
use qbit_network.Common.Int.{pos}
use qbit_network.Merkle.{Bytes, bytes_eq, merkle_root, merkle_proof}
use qbit_network.Merkle.Complete.{verify_merkle_proof_complete, bytes_eq_self}
use qbit_network.Merkle.Octets.{
  IsOctets, merkle_root-IsOctets, merkle_proof-IsOctets, parse_path, hex_path, parse_path-hex_path,
}
use qbit_network.Header.{
  Text, Crypto, Tx, Block, from_hex_all, tx_ids, remake, header_bytes, block_hash, verify_signature,
}
use qbit_network.Header.Dicts.{to_dict}
use qbit_network.Header.Proofs.{remake-IsBuilt, get_elem?-from_hex_all, get_elem?-tx_ids}
use qbit_network.Notary.{
  block_part, Proof, tx_to_dict, unless_empty, proof_type_name, chain_id, export_proof,
}
use qbit_network.Notary.Verify.{
  chain_flaws, header_of, merkle_flaws, hash_flaws, signature_flaws, verify_header, verify_proof,
}

ids_of_dicts : (txs : List Tx) → map (λ t. t.id) (map tx_to_dict txs) ≡ tx_ids txs
ids_of_dicts [] = refl
ids_of_dicts (tx ∷ txs) = ap (λ l. tx.tx_id ∷ l) (ids_of_dicts txs)

-- A signature that the key verifies has no flaw.
signature_flaws-signed :
    (c : Crypto) (message key signature : Bytes)
    → IsOctets key
    → IsOctets signature
    → c.mldsa_verify key message signature ≡ true
    → signature_flaws c message (or_else (unless_empty (to_hex key)) []) (to_hex signature) ≡ []
unfolding signature_flaws to_hex
signature_flaws-signed c message [] signature k s valid = refl
signature_flaws-signed c message (a ∷ key) [] k s valid = refl
signature_flaws-signed c message (a ∷ key) (b ∷ signature) k s valid =
    rw (from_hex-to_hex (a ∷ key) k, from_hex-to_hex (b ∷ signature) s, valid) refl

hash_flaws-block_hash :
    (c : Crypto) (b : Block) → hash_flaws c (header_bytes c b) (block_hash c b) ≡ []
unfolding hash_flaws block_hash
hash_flaws-block_hash c b = rw (bytes_eq_self (to_hex (c.sha3_256 (header_bytes c b)))) refl

module _ (c : Crypto) (b : Block) (i : ℕ) (tx : Tx) (document_hash notarizer : Text) (key : Bytes)
    (octets : (x : Bytes) → IsOctets (c.sha3_256 x)) where
  -- The document that is exported, over the hashes of the transactions.
  abbrev exported : List Bytes → Proof
  exported hashes = record {
    version = some (pos 1);
    proof_type = some proof_type_name;
    proof_chain_id = some chain_id;
    document_hash = some document_hash;
    tx_id = some tx.tx_id;
    block = block_part (to_dict tx_to_dict c b);
    merkle_path = some (hex_path (merkle_proof c.sha3_256 hashes i));
    notarizer = some notarizer;
    notarizer_pubkey = some (to_hex tx.sender_pubkey);
    validator_pubkey = unless_empty (to_hex key);
  }

  export_proof-exported :
      (hashes : List Bytes)
      → from_hex_all (tx_ids b.transactions) ≡ some hashes
      → get_elem? b.transactions i ≡ some tx
      → export_proof c (to_dict tx_to_dict c b) i tx.tx_id document_hash notarizer (to_hex key)
        ≡ some (exported hashes)
  unfolding export_proof to_dict
  export_proof-exported hashes all here =
      rw (ids_of_dicts b.transactions, all, get_elem?-map tx_to_dict b.transactions i tx here) refl

  verify_header-exported :
      (hashes : List Bytes)
      → signature_flaws c
          (header_bytes c b)
          (or_else (unless_empty (to_hex key)) [])
          (to_hex b.signature)
        ≡ []
      → verify_header c (exported hashes) [] (header_of (block_part (to_dict tx_to_dict c b)))
        ≡ ok (true, [])
  unfolding verify_header header_of to_dict header_bytes
  verify_header-exported hashes signed =
      rw (length-map tx_to_dict b.transactions, hash_flaws-block_hash c b, signed) refl

  merkle_flaws-exported :
      (hashes : List Bytes) (leaf : Bytes)
      → from_hex tx.tx_id ≡ some leaf
      → get_elem? hashes i ≡ some leaf
      → b.merkle_root ≡ to_hex (merkle_root c.sha3_256 hashes)
      → merkle_flaws c
          (from_hex tx.tx_id)
          (parse_path (hex_path (merkle_proof c.sha3_256 hashes i)))
          (from_hex b.merkle_root)
        ≡ some []
  unfolding merkle_flaws
  merkle_flaws-exported hashes leaf hex here root =
      let made = merkle_root c.sha3_256 hashes in
      let hex_root : from_hex b.merkle_root ≡ some made =
        rw root (from_hex-to_hex made (merkle_root-IsOctets c.sha3_256 octets hashes)) in
      rw
        (
          hex,
          hex_root,
          parse_path-hex_path (merkle_proof c.sha3_256 hashes i)
              (merkle_proof-IsOctets c.sha3_256 octets hashes i),
          verify_merkle_proof_complete c.sha3_256 hashes i leaf here,
        )
        refl

-- The proof that is exported for a transaction of a block as the constructor makes it, with a public
-- key under which the signature of the block is valid, is accepted without an error, if SHA3-256
-- returns bytes.
pub verify_proof-export_proof :
    (c : Crypto) (b : Block) (i : ℕ) (tx : Tx) (document_hash notarizer : Text) (key : Bytes)
    → ((x : Bytes) → IsOctets (c.sha3_256 x))
    → remake c b ≡ some b
    → get_elem? b.transactions i ≡ some tx
    → IsOctets key
    → IsOctets b.signature
    → verify_signature c key b ≡ true
    → (p : Proof) × (export_proof c
          (to_dict tx_to_dict c b)
          i
          tx.tx_id
          document_hash
          notarizer
          (to_hex key)
        ≡ some p)
      × (verify_proof c p ≡ ok (true, []))
unfolding verify_proof verify_signature chain_flaws bytes_eq to_dict
verify_proof-export_proof c b i tx document_hash notarizer key octets made here k s valid =
    let (hashes, built) = remake-IsBuilt c b made in
    let (leaf, hex, there) =
      get_elem?-from_hex_all (tx_ids b.transactions) hashes i tx.tx_id built.hashes
        (get_elem?-tx_ids b.transactions i tx here) in
    let signed = signature_flaws-signed c (header_bytes c b) key b.signature k s valid in
    (
      exported c b i tx document_hash notarizer key octets hashes,
      export_proof-exported c b i tx document_hash notarizer key octets hashes built.hashes here,
      rw
          (merkle_flaws-exported c b i tx document_hash notarizer key octets hashes leaf hex there
            built.root)
          (verify_header-exported c b i tx document_hash notarizer key octets hashes signed),
    )
