-- ===== src/Receipts.antt =====
-- qbit_network/core/receipt.py: the receipt of a transaction, its hash, and the Merkle root and proofs
-- over the receipts of a block. json.dumps of the hashed object and SHA3-256 are parameters; texts in
-- hex are lists of code points. An event is a dict of JSON values.
pub mod Events
pub mod Record
pub mod Generated
pub mod Inclusion
pub mod Query
pub mod Filters
mod Examples
use qbit_network.Common.{
  ℕ, zero, suc, String, Bool, true, false, not, ◌&&◌, ◌||◌, List, [], ◌∷◌, Option, none, some,
  if◌then◌else◌, str_eq, map, length, leb,
}
use qbit_network.Common.Dict.{Dict, or_else}
use qbit_network.Common.Exec.{Result, ok, err}
use qbit_network.Common.Hex.{from_hex, to_hex}
use qbit_network.Common.Int.{ℤ, pos, ltb_ℤ, leb_ℤ, pos_part}
use qbit_network.Header.{Text, from_hex_all}
use qbit_network.Merkle.{Bytes, ProofPath, merkle_root, merkle_proof, verify_merkle_proof}
use qbit_network.Transaction.{Value}

abbrev pub Event : Type 0
Event = Dict String Value

pub record Receipt : Type 0 where
  pub tx_id : String
  pub status : String
  pub fee_paid : ℤ
  pub block_index : ℤ
  pub tx_index : ℤ
  pub events : List Event

-- The ValueErrors of the constructor.
pub data ReceiptError : Type 0 where
  empty_tx_id bad_status negative_fee negative_block_index negative_tx_index : ReceiptError

-- `TransactionReceipt(...)`, of values of the right types.
unfoldable pub make : Receipt → Result ReceiptError Receipt
make r =
    if str_eq r.tx_id ""
    then err empty_tx_id
    else if not (str_eq r.status "success" || str_eq r.status "failure")
    then err bad_status
    else if ltb_ℤ r.fee_paid (pos 0)
    then err negative_fee
    else if ltb_ℤ r.block_index (pos 0)
    then err negative_block_index
    else if ltb_ℤ r.tx_index (pos 0)
    then err negative_tx_index
    else ok r

-- '"0" * 64'
abbrev pub zero_hex : ℕ → Text
zero_hex zero = []
zero_hex (suc n) = 48 ∷ zero_hex n

module _ (receipt_json : Receipt → Bytes) (sha3_256 : Bytes → Bytes) where
  unfoldable pub receipt_hash : Receipt → Text
  receipt_hash r = to_hex (sha3_256 (receipt_json r))

  -- `[bytes.fromhex(r.receipt_hash) for r in receipts]`; `none` is a ValueError.
  unfoldable pub leaves : List Receipt → Option (List Bytes)
  leaves receipts = from_hex_all (map receipt_hash receipts)

  abbrev pub root_of : Option (List Bytes) → Option Text
  root_of none = none
  root_of (some l) = some (to_hex (merkle_root sha3_256 l))

  unfoldable pub receipts_root : List Receipt → Option Text
  receipts_root [] = some (zero_hex 64)
  receipts_root (r ∷ receipts) = root_of (leaves (r ∷ receipts))

  abbrev pub proof_at : ℕ → Option (List Bytes) → Option ProofPath
  proof_at i none = none
  proof_at i (some l) = some (merkle_proof sha3_256 l i)

  unfoldable pub receipt_proof : List Receipt → ℤ → Option ProofPath
  receipt_proof [] tx_index = some []
  receipt_proof (r ∷ receipts) tx_index =
      if ltb_ℤ tx_index (pos 0) || leb_ℤ (pos (length (r ∷ receipts))) tx_index
      then some []
      else proof_at (pos_part tx_index) (leaves (r ∷ receipts))

  abbrev pub verify_leaf : Option Bytes → ProofPath → Option Bytes → Option Bool
  verify_leaf (some leaf) proof (some root) = some (verify_merkle_proof sha3_256 leaf proof root)
  verify_leaf _ proof _ = none

  unfoldable pub verify_receipt_proof : Text → ProofPath → Text → Option Bool
  verify_receipt_proof hash proof root = verify_leaf (from_hex hash) proof (from_hex root)

-- `build_event`, where no key of `fields` is "type" or stands twice.
abbrev pub build_event : String → List (String × Value) → Event
build_event event_type fields = ("type", Value.text event_type) ∷ fields
