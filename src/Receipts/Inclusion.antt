-- ===== src/Receipts/Inclusion.antt =====
-- The proofs of receipts that a node gives to light clients.
use qbit_network.Common.{
  ℕ, ◌<◌, String, true, false, List, [], ◌∷◌, Option, some, ◌≡◌, refl, sym, arith, map, get_elem?,
  get_elem?-map, length, ap, ◌∙◌,
}
use qbit_network.Common.Dict.{lookup, string_eq, nat_eq}
use qbit_network.Common.Exec.{ok}
use qbit_network.Common.Hex.{to_hex, from_hex-to_hex}
use qbit_network.Common.Int.{ℤ, pos, ltb_ℤ, leb_ℤ}
use qbit_network.Header.{Text, from_hex_all}
use qbit_network.Merkle.{Bytes, ProofPath, merkle_root, merkle_proof}
use qbit_network.Merkle.Complete.{verify_merkle_proof_complete, get_elem?-lt}
use qbit_network.Merkle.Octets.{
  IsOctets, merkle_root-IsOctets, merkle_proof-IsOctets, parse_path, hex_path, parse_path-hex_path,
}
use qbit_network.Receipts.{
  Receipt, receipt_hash, leaves, receipts_root, receipt_proof, verify_receipt_proof,
}
use qbit_network.Receipts.Record.{
  Receipts, Entry, receipt_for, generate, ReceiptBlock, ReceiptProof, block_receipts, prove_in,
  get_receipt_proof,
}
use qbit_network.Receipts.Generated.{
  entry_ids, IsReceiptData, ok_inj, generate-ok, block_receipts-put_all, lookup-get_elem?,
}

module _ (receipt_json : Receipt → Bytes) (sha3_256 : Bytes → Bytes)
    (octets : (x : Bytes) → IsOctets (sha3_256 x)) where
  digests : List Receipt → List Bytes
  digests rs = map (λ r. sha3_256 (receipt_json r)) rs

  leaves-digests : (rs : List Receipt) → leaves receipt_json sha3_256 rs ≡ some (digests rs)
  unfolding leaves digests from_hex_all receipt_hash
  leaves-digests [] = refl
  leaves-digests (r ∷ rs) =
      rw (from_hex-to_hex (sha3_256 (receipt_json r)) (octets (receipt_json r)), leaves-digests rs)
        refl

  receipts_root-digests :
      (rs : List Receipt) (i : ℕ) (r : Receipt) (root : Text)
      → get_elem? rs i ≡ some r
      → receipts_root receipt_json sha3_256 rs ≡ some root
      → root ≡ to_hex (merkle_root sha3_256 (digests rs))
  unfolding receipts_root
  receipts_root-digests [] i r root here e = cc
  receipts_root-digests (x ∷ rs) i r root here e =
      let made = rw (leaves-digests (x ∷ rs)) at e in cc

  receipt_proof-digests :
      (rs : List Receipt) (i : ℕ) (r : Receipt)
      → get_elem? rs i ≡ some r
      → receipt_proof receipt_json sha3_256 rs (pos i) ≡ some (merkle_proof sha3_256 (digests rs) i)
  unfolding receipt_proof
  receipt_proof-digests [] i r here = cc
  receipt_proof-digests (x ∷ rs) i r here =
      let bound : i < length (x ∷ rs) = get_elem?-lt (x ∷ rs) i r here in
      let inside : leb_ℤ (pos (length (x ∷ rs))) (pos i) ≡ false = ground arith in
      let not_negative : ltb_ℤ (pos i) (pos 0) ≡ false = ground arith in
      rw (not_negative, inside, leaves-digests (x ∷ rs)) refl

  verify_receipt_proof-digests :
      (rs : List Receipt) (i : ℕ) (r : Receipt)
      → get_elem? rs i ≡ some r
      → verify_receipt_proof receipt_json sha3_256
          (receipt_hash receipt_json sha3_256 r)
          (merkle_proof sha3_256 (digests rs) i)
          (to_hex (merkle_root sha3_256 (digests rs)))
        ≡ some true
  unfolding verify_receipt_proof receipt_hash digests
  verify_receipt_proof-digests rs i r here =
      let leaf = sha3_256 (receipt_json r) in
      let root = merkle_root sha3_256 (digests rs) in
      rw
        (
          from_hex-to_hex leaf (octets (receipt_json r)),
          from_hex-to_hex root (merkle_root-IsOctets sha3_256 octets (digests rs)),
          verify_merkle_proof_complete sha3_256 (digests rs) i leaf
              (get_elem?-map (λ x. sha3_256 (receipt_json x)) rs i r here),
        )
        refl

  -- A stored receipt of a block whose receipts are all stored.
  get_receipt_proof-stored :
      (get_block_by_index : ℤ → Option ReceiptBlock) (s : Receipts) (id : String) (r : Receipt)
      (rs : List Receipt) (b : ReceiptBlock) (i : ℕ)
      → lookup id s.receipts ≡ some r
      → get_block_by_index r.block_index ≡ some b
      → block_receipts b.tx_ids s.receipts ≡ rs
      → r.tx_index ≡ pos i
      → get_elem? rs i ≡ some r
      → get_receipt_proof receipt_json sha3_256 get_block_by_index id s
        ≡ some (record {
          tx_id = id;
          receipt = r;
          proof = hex_path (merkle_proof sha3_256 (digests rs) i);
          receipts_root = b.receipts_root;
          block_index = r.block_index;
        })
  unfolding get_receipt_proof
  get_receipt_proof-stored get_block s id r rs b i found block all index here =
      let made : receipt_proof receipt_json sha3_256 (block_receipts b.tx_ids s.receipts) r.tx_index
          ≡ some (merkle_proof sha3_256 (digests rs) i) =
        rw (all, index) (receipt_proof-digests rs i r here) in
      rw (found, block) (rw (made, prove_in) refl)

-- After a block has generated its receipts, whose root it carries, get_receipt_proof returns for each
-- of its transactions the receipt of this transaction and a path, in hex, that verify_receipt_proof
-- accepts for the hash of this receipt against the root of the block, if SHA3-256 returns bytes.
pub get_receipt_proof-generate :
    (receipt_json : Receipt → Bytes) (sha3_256 : Bytes → Bytes)
    (get_block_by_index : ℤ → Option ReceiptBlock) (idx : ℕ) (failed : List String)
    (es : List Entry) (s : Receipts) (rs : List Receipt) (b : ReceiptBlock) (i : ℕ) (e : Entry)
    → ((x : Bytes) → IsOctets (sha3_256 x))
    → IsReceiptData 0 es
    → (generate idx failed es s).0 ≡ ok rs
    → get_block_by_index (pos idx) ≡ some b
    → b.tx_ids ≡ entry_ids es
    → receipts_root receipt_json sha3_256 rs ≡ some b.receipts_root
    → get_elem? es i ≡ some e
    → (p : ReceiptProof) × (path : ProofPath) × (get_receipt_proof receipt_json sha3_256
          get_block_by_index e.tx_id
          (generate idx failed es s).1
        ≡ some p)
      × (p.receipt ≡ receipt_for idx failed e)
      × (parse_path p.proof ≡ some path)
      × (verify_receipt_proof receipt_json sha3_256
            (receipt_hash receipt_json sha3_256 p.receipt)
            path
            p.receipts_root
          ≡ some true)
unfolding receipt_for
get_receipt_proof-generate receipt_json sha3_256 get_block idx failed es s rs b i e octets listed
      returned stored ids root here =
    let (all, kept) = generate-ok idx failed 0 es s listed in
    let made : rs ≡ map (receipt_for idx failed) es = ok_inj rs _ (sym returned ∙ all) in
    let (found, at_i) = lookup-get_elem? idx failed 0 es i e s.receipts listed here in
    let r = receipt_for idx failed e in
    let r_here = get_elem?-map (receipt_for idx failed) es i e here in
    let hashes = digests receipt_json sha3_256 octets (map (receipt_for idx failed) es) in
    let path = merkle_proof sha3_256 hashes i in
    let block_root : b.receipts_root ≡ to_hex (merkle_root sha3_256 hashes) =
      receipts_root-digests receipt_json sha3_256 octets (map (receipt_for idx failed) es) i r
        b.receipts_root r_here (rw made at root) in
    let index : e.tx_index ≡ i = omega (arith, at_i) in
    (
      record {
        tx_id = e.tx_id;
        receipt = r;
        proof = hex_path path;
        receipts_root = b.receipts_root;
        block_index = r.block_index;
      },
      path,
      get_receipt_proof-stored receipt_json sha3_256 octets get_block (generate idx failed es s).1
          e.tx_id r (map (receipt_for idx failed) es) b i (rw kept found) stored
          (rw (kept, ids) (block_receipts-put_all idx failed 0 es s.receipts listed)) (ap pos index)
          r_here,
      refl,
      parse_path-hex_path path (merkle_proof-IsOctets sha3_256 octets hashes i),
      rw block_root (
          verify_receipt_proof-digests receipt_json sha3_256 octets
            (map (receipt_for idx failed) es) i r r_here),
    )
