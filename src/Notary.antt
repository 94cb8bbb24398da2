-- ===== src/Notary.antt =====
-- qbit_network/core/proof.py: the notarization proof that a node exports and anyone checks offline.
-- Values have the types that `export_proof` gives them; a key of the proof that may be missing is an
-- Option. The chain id of the configuration is `chain_id`.
pub mod Verify
pub mod Sound
pub mod Accepted
mod Examples
use qbit_network.Common.{
  ℕ, Bool, true, false, List, [], ◌∷◌, Option, none, some, if◌then◌else◌, map, length, get_elem?,
}
use qbit_network.Common.Hex.{codes, to_hex}
use qbit_network.Common.Int.{ℤ, pos}
use qbit_network.Config.{main_chain_id}
use qbit_network.Merkle.{Bytes, merkle_proof}
use qbit_network.Merkle.Octets.{HexPath, hex_path}
use qbit_network.Header.{Text, Crypto, Tx, from_hex_all}
use qbit_network.Header.Dicts.{BlockDict}

abbrev pub proof_type_name : Text
proof_type_name = codes "qbit-notarization-proof"

abbrev pub chain_id : Text
chain_id = codes main_chain_id

abbrev pub proof_version : ℤ
proof_version = pos 1

-- The value of the key "block".
pub record BlockPart : Type 0 where
  pub index : Option ℤ
  pub timestamp : Option ℤ
  pub hash : Option Text
  pub prev_hash : Option Text
  pub merkle_root : Option Text
  pub base_fee : Option ℤ
  pub state_root : Option Text
  pub receipts_root : Option Text
  pub validator : Option Text
  pub signature : Option Text
  pub tx_count : Option ℕ

-- The proof document. A missing "block" is one with no key.
pub record Proof : Type 0 where
  pub version : Option ℤ
  pub proof_type : Option Text
  pub proof_chain_id : Option Text
  pub document_hash : Option Text
  pub tx_id : Option Text
  pub block : BlockPart
  pub merkle_path : Option HexPath
  pub notarizer : Option Text
  pub notarizer_pubkey : Option Text
  pub validator_pubkey : Option Text

-- A transaction's dict, by the keys that are read: "id", and "sender_pubkey" in hex.
pub record TxDict : Type 0 where
  pub id : Text
  pub sender_pubkey : Text

-- `Transaction.to_dict`, on these keys.
abbrev pub tx_to_dict : Tx → TxDict
tx_to_dict tx = record { id = tx.tx_id; sender_pubkey = to_hex tx.sender_pubkey }

-- The block part of an exported proof.
abbrev pub block_part : BlockDict TxDict → BlockPart
block_part d = record {
  index = some d.index;
  timestamp = some d.timestamp;
  hash = some d.hash;
  prev_hash = some d.prev_hash;
  merkle_root = some d.merkle_root;
  base_fee = some d.base_fee;
  state_root = some d.state_root;
  receipts_root = some d.receipts_root;
  validator = some d.validator;
  signature = some d.signature;
  tx_count = some (length d.transactions);
}

-- `if validator_pubkey: result["validator_pubkey"] = validator_pubkey`
abbrev pub unless_empty : Text → Option Text
unless_empty [] = none
unless_empty (a ∷ t) = some (a ∷ t)

module _ (c : Crypto) where
  abbrev pub export_from :
      BlockDict TxDict
      → ℕ
      → Text
      → Text
      → Text
      → Text
      → Option (List Bytes)
      → Option TxDict
      → Option Proof
  export_from d tx_index tx_id document_hash notarizer validator_pubkey (some tx_hashes) (some tx) =
      some (record {
        version = some proof_version;
        proof_type = some proof_type_name;
        proof_chain_id = some chain_id;
        document_hash = some document_hash;
        tx_id = some tx_id;
        block = block_part d;
        merkle_path = some (hex_path (merkle_proof c.sha3_256 tx_hashes tx_index));
        notarizer = some notarizer;
        notarizer_pubkey = some tx.sender_pubkey;
        validator_pubkey = unless_empty validator_pubkey;
      })
  export_from d tx_index tx_id document_hash notarizer validator_pubkey _ _ = none

  -- `export_proof`; `none` is the ValueError of an id that is no hex, or the IndexError of an index
  -- past the transactions. The index is not negative.
  unfoldable pub export_proof : BlockDict TxDict → ℕ → Text → Text → Text → Text → Option Proof
  export_proof d tx_index tx_id document_hash notarizer validator_pubkey =
      export_from d tx_index tx_id document_hash notarizer validator_pubkey
        (from_hex_all (map (λ t. t.id) d.transactions)) (get_elem? d.transactions tx_index)
