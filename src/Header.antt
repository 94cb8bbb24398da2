-- ===== src/Header.antt =====
-- qbit_network/core/block.py: the header of a block, its hash and signature, the proofs of its
-- transactions and its form as a dict. Texts in hex are lists of code points. json.dumps of the
-- header, SHA3-256, ML-DSA, and the change between a transaction and its dict are parameters.
pub mod Dicts
pub mod Proofs
use qbit_network.Common.{
  ℕ, Bool, true, false, List, [], ◌∷◌, Option, none, some, if◌then◌else◌, map, length,
}
use qbit_network.Common.Hex.{from_hex, to_hex}
use qbit_network.Common.Int.{ℤ}
use qbit_network.Merkle.{Bytes, ProofPath, merkle_root, merkle_proof, verify_merkle_proof}

-- A Python str.
abbrev pub Text : Type 0
Text = List ℕ

-- The header object that is hashed; an empty state_root or receipts_root is left out of its JSON.
pub record Header : Type 0 where
  pub base_fee : ℤ
  pub index : ℤ
  pub merkle_root : Text
  pub prev_hash : Text
  pub timestamp : ℤ
  pub tx_count : ℕ
  pub validator : Text
  pub receipts_root : Text
  pub state_root : Text

-- What the block calls: json.dumps(header, sort_keys=True, separators=(',', ':')).encode(),
-- SHA3-256, MLDSA.sign of a key and a message, and MLDSA.verify of a key, a message and a signature.
pub record Crypto : Type 0 where
  pub header_json : Header → Bytes
  pub sha3_256 : Bytes → Bytes
  pub mldsa_sign : Bytes → Bytes → Bytes
  pub mldsa_verify : Bytes → Bytes → Bytes → Bool

-- A transaction, by the fields that proofs read.
pub record Tx : Type 0 where
  pub tx_id : Text
  pub sender_pubkey : Bytes

pub record Block : Type 0 where
  pub index : ℤ
  pub prev_hash : Text
  pub transactions : List Tx
  pub validator : Text
  pub timestamp : ℤ
  pub signature : Bytes
  pub base_fee : ℤ
  pub state_root : Text
  pub receipts_root : Text
  pub merkle_root : Text

abbrev pub add_hash : Option Bytes → Option (List Bytes) → Option (List Bytes)
add_hash (some b) (some l) = some (b ∷ l)
add_hash _ _ = none

-- `[bytes.fromhex(i) for i in ids]`; `none` is a ValueError.
unfoldable pub from_hex_all : List Text → Option (List Bytes)
from_hex_all [] = some []
from_hex_all (i ∷ ids) = add_hash (from_hex i) (from_hex_all ids)

abbrev pub tx_ids : List Tx → List Text
tx_ids txs = map (λ tx. tx.tx_id) txs

module _ (c : Crypto) where
  -- `Block(...)`, with the time given: the Merkle root is computed. `none` is a ValueError.
  unfoldable pub init : ℤ → Text → List Tx → Text → ℤ → Bytes → ℤ → Text → Text → Option Block
  init index prev_hash txs validator timestamp signature base_fee state_root receipts_root =
      elim (from_hex_all (tx_ids txs)) [
        | none ↦ none
        | some tx_hashes ↦ some (record {
          index = index;
          prev_hash = prev_hash;
          transactions = txs;
          validator = validator;
          timestamp = timestamp;
          signature = signature;
          base_fee = base_fee;
          state_root = state_root;
          receipts_root = receipts_root;
          merkle_root = to_hex (merkle_root c.sha3_256 tx_hashes);
        })
      ]

  -- The block that the constructor makes of the fields of a block.
  abbrev pub remake : Block → Option Block
  remake b =
      init b.index b.prev_hash b.transactions b.validator b.timestamp b.signature b.base_fee
        b.state_root b.receipts_root

  abbrev pub header : Block → Header
  header b = record {
    base_fee = b.base_fee;
    index = b.index;
    merkle_root = b.merkle_root;
    prev_hash = b.prev_hash;
    timestamp = b.timestamp;
    tx_count = length b.transactions;
    validator = b.validator;
    receipts_root = b.receipts_root;
    state_root = b.state_root;
  }

  -- `_header_bytes`
  unfoldable pub header_bytes : Block → Bytes
  header_bytes b = c.header_json (header b)

  unfoldable pub block_hash : Block → Text
  block_hash b = to_hex (c.sha3_256 (header_bytes b))

  unfoldable pub sign : Bytes → Block → Block
  sign signing_sk b = record b { signature = c.mldsa_sign signing_sk (header_bytes b) }

  unfoldable pub verify_signature : Bytes → Block → Bool
  verify_signature signing_pk b = c.mldsa_verify signing_pk (header_bytes b) b.signature

  abbrev pub proof_of : ℕ → Option (List Bytes) → Option ProofPath
  proof_of tx_index none = none
  proof_of tx_index (some tx_hashes) = some (merkle_proof c.sha3_256 tx_hashes tx_index)

  unfoldable pub get_tx_proof : ℕ → Block → Option ProofPath
  get_tx_proof tx_index b = proof_of tx_index (from_hex_all (tx_ids b.transactions))

  -- `verify_merkle_proof` of a leaf and a root in hex; `none` is a ValueError.
  abbrev pub verify_hex : Option Bytes → ProofPath → Option Bytes → Option Bool
  verify_hex (some leaf) proof (some root) = some (verify_merkle_proof c.sha3_256 leaf proof root)
  verify_hex _ proof _ = none

  unfoldable pub verify_tx_proof : Text → ProofPath → Block → Option Bool
  verify_tx_proof tx_id proof b = verify_hex (from_hex tx_id) proof (from_hex b.merkle_root)
