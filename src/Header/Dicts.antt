-- ===== src/Header/Dicts.antt =====
-- core/block.py: a block as a dict, and back.
use qbit_network.Common.{
  ℕ, Bool, true, false, List, [], ◌∷◌, Option, none, some, if◌then◌else◌, map, length,
}
use qbit_network.Common.Exec.{Result, ok, err}
use qbit_network.Common.Hex.{from_hex, to_hex}
use qbit_network.Common.Int.{ℤ, pos, ltb_ℤ}
use qbit_network.Merkle.{Bytes, bytes_eq}
use qbit_network.Header.{Text, Crypto, Tx, Block, init, block_hash}

-- `to_header_dict`
pub record HeaderDict : Type 0 where
  pub hash : Text
  pub index : ℤ
  pub timestamp : ℤ
  pub prev_hash : Text
  pub merkle_root : Text
  pub base_fee : ℤ
  pub state_root : Text
  pub receipts_root : Text
  pub validator : Text
  pub tx_count : ℕ
  pub signature : Text

-- `to_dict`; `D` is the dict of a transaction.
pub record BlockDict (D : Type 0) : Type 0 where
  pub hash : Text
  pub index : ℤ
  pub timestamp : ℤ
  pub prev_hash : Text
  pub merkle_root : Text
  pub base_fee : ℤ
  pub state_root : Text
  pub receipts_root : Text
  pub validator : Text
  pub transactions : List D
  pub signature : Text

-- The ValueErrors of `from_dict`.
pub data DictError : Type 0 where
  negative_base_fee bad_transaction bad_hex hash_mismatch : DictError

-- `claimed and block.block_hash != claimed`
unfoldable pub mismatch : Text → Text → Bool
mismatch computed [] = false
mismatch computed (a ∷ claimed) = if bytes_eq computed (a ∷ claimed) then false else true

unfoldable pub to_header_dict : Crypto → Block → HeaderDict
to_header_dict c b = record {
  hash = block_hash c b;
  index = b.index;
  timestamp = b.timestamp;
  prev_hash = b.prev_hash;
  merkle_root = b.merkle_root;
  base_fee = b.base_fee;
  state_root = b.state_root;
  receipts_root = b.receipts_root;
  validator = b.validator;
  tx_count = length b.transactions;
  signature = to_hex b.signature;
}

abbrev prepend_tx : Option Tx → Option (List Tx) → Option (List Tx)
prepend_tx (some tx) (some txs) = some (tx ∷ txs)
prepend_tx _ _ = none

module _ {D : Type 0} (tx_to_dict : Tx → D) (c : Crypto) where
  unfoldable pub to_dict : Block → BlockDict D
  to_dict b = record {
    hash = block_hash c b;
    index = b.index;
    timestamp = b.timestamp;
    prev_hash = b.prev_hash;
    merkle_root = b.merkle_root;
    base_fee = b.base_fee;
    state_root = b.state_root;
    receipts_root = b.receipts_root;
    validator = b.validator;
    transactions = map tx_to_dict b.transactions;
    signature = to_hex b.signature;
  }

module _ {D : Type 0} (tx_from_dict : D → Option Tx) where
  -- `[Transaction.from_dict(t) for t in ...]`; `none` is the error of one of them.
  unfoldable pub txs_from_dicts : List D → Option (List Tx)
  txs_from_dicts [] = some []
  txs_from_dicts (d ∷ ds) = prepend_tx (tx_from_dict d) (txs_from_dicts ds)

module _ {D : Type 0} (tx_from_dict : D → Option Tx) (c : Crypto) where
  -- "Verify hash integrity if claimed hash is present"
  abbrev pub check_hash : Text → Option Block → Result DictError Block
  check_hash claimed none = err bad_hex
  check_hash claimed (some b) =
      if mismatch (block_hash c b) claimed then err hash_mismatch else ok b

  abbrev pub build : BlockDict D → Option (List Tx) → Option Bytes → Result DictError Block
  build d none signature = err bad_transaction
  build d (some txs) none = err bad_hex
  build d (some txs) (some signature) = check_hash d.hash (
      init c d.index d.prev_hash txs d.validator d.timestamp signature d.base_fee d.state_root
        d.receipts_root)

  -- `from_dict`, of a dict whose values have the types that `to_dict` gives them.
  unfoldable pub from_dict : BlockDict D → Result DictError Block
  from_dict d =
      let built = build d (txs_from_dicts tx_from_dict d.transactions) (from_hex d.signature) in
      if ltb_ℤ d.base_fee (pos 0) then err negative_base_fee else built
