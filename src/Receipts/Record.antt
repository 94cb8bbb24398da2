-- ===== src/Receipts/Record.antt =====
-- The receipts that a block leaves behind: "Generate receipts for all TXs in block" of
-- `_append_block_inner` (qbit_network/core/blockchain.py), their removal in `_rollback_block`
-- (core/rollback.py), and `get_receipt_proof` (core/query.py). The store is None.
use qbit_network.Common.{ℕ, String, List, [], ◌∷◌, ◌++◌, Option, none, some, if◌then◌else◌, str_eq}
use qbit_network.Common.Dict.{Dict, lookup, put, pop, get_or, string_eq, nat_eq}
use qbit_network.Common.Exec.{Result, ok, err}
use qbit_network.Common.Int.{ℤ, pos}
use qbit_network.Header.{Text}
use qbit_network.Merkle.{Bytes}
use qbit_network.Merkle.Octets.{HexPath, hex_path}
use qbit_network.Receipts.{Event, Receipt, ReceiptError, make, receipt_proof}
use qbit_network.Staking.{member}
use qbit_network.Transaction.{value_text}

pub record Receipts : Type 0 where
  pub receipts : Dict String Receipt
  pub events_by_type : Dict String (List String)
  pub events_by_block : Dict ℕ (List String)

-- An entry of `_receipt_data`.
pub record Entry : Type 0 where
  pub tx_index : ℕ
  pub tx_id : String
  pub fee : ℕ
  pub events : List Event

-- `ev.get("type", "")`, which is a text in every event.
unfoldable pub type_of : Event → String
type_of ev = value_text (lookup "type" ev)

-- `d.setdefault(k, []).append(x)`
abbrev pub append_text : String → String → Dict String (List String) → Dict String (List String)
append_text k x d = put k (get_or k [] d ++ x ∷ []) d

-- "Index events by type"
unfoldable pub index_events :
    String → List Event → Dict String (List String) → Dict String (List String)
index_events tx_id [] d = d
index_events tx_id (ev ∷ evs) d =
    let d' = if str_eq (type_of ev) "" then d else append_text (type_of ev) tx_id d in
    index_events tx_id evs d'

-- The receipt of an entry of block `idx`; a failed transaction has no events.
unfoldable pub receipt_for : ℕ → List String → Entry → Receipt
receipt_for idx failed e = record {
  tx_id = e.tx_id;
  status = (if member e.tx_id failed then "failure" else "success");
  fee_paid = pos e.fee;
  block_index = pos idx;
  tx_index = pos e.tx_index;
  events = (if member e.tx_id failed then [] else e.events);
}

unfoldable pub record_receipt : ℕ → Entry → Receipt → Receipts → Receipts
record_receipt idx e r s = record {
  receipts = put e.tx_id r s.receipts;
  events_by_type = index_events e.tx_id e.events s.events_by_type;
  events_by_block = put idx (get_or idx [] s.events_by_block ++ e.tx_id ∷ []) s.events_by_block;
}

-- The loop over `_receipt_data`: the receipts of the block, and the state. An error of the
-- constructor leaves what the rounds before it wrote.
unfoldable pub generate :
    ℕ → List String → List Entry → Receipts → Result ReceiptError (List Receipt) × Receipts
generate idx failed [] s = (ok [], s)
generate idx failed (e ∷ es) s = elim (make (receipt_for idx failed e)) [
  | err x ↦ (err x, s)
  | ok r ↦
      let (rest, s') = generate idx failed es (record_receipt idx e r s) in
      (elim rest [ ok rs ↦ ok (r ∷ rs) | err x ↦ err x ], s')
]

-- `list.remove` of the first occurrence, if there is one.
unfoldable pub remove_text : String → List String → List String
remove_text x [] = []
remove_text x (y ∷ l) = if str_eq y x then l else y ∷ remove_text x l

abbrev pub remove_at :
    String → String → Option (List String) → Dict String (List String) → Dict String (List String)
remove_at k x none d = d
remove_at k x (some l) d = put k (remove_text x l) d

unfoldable pub unindex_events :
    String → List Event → Dict String (List String) → Dict String (List String)
unindex_events tx_id [] d = d
unindex_events tx_id (ev ∷ evs) d =
    let k = type_of ev in
    unindex_events tx_id evs (if str_eq k "" then d else remove_at k tx_id (lookup k d) d)

abbrev pub unindex_receipt :
    String → Option Receipt → Dict String (List String) → Dict String (List String)
unindex_receipt tx_id none d = d
unindex_receipt tx_id (some r) d = unindex_events tx_id r.events d

unfoldable pub remove_receipts : List String → Receipts → Receipts
remove_receipts [] s = s
remove_receipts (tx_id ∷ ids) s = remove_receipts ids (record s {
  receipts = pop tx_id s.receipts;
  events_by_type = unindex_receipt tx_id (lookup tx_id s.receipts) s.events_by_type;
})

-- "Reverse receipts / events" of the block at `idx`, by the ids of its transactions.
unfoldable pub rollback_receipts : ℕ → List String → Receipts → Receipts
rollback_receipts idx ids s =
    let s' = remove_receipts ids s in record s' { events_by_block = pop idx s'.events_by_block }

-- What `get_receipt_proof` reads of a block.
pub record ReceiptBlock : Type 0 where
  pub tx_ids : List String
  pub receipts_root : Text

pub record ReceiptProof : Type 0 where
  pub tx_id : String
  pub receipt : Receipt
  pub proof : HexPath
  pub receipts_root : Text
  pub block_index : ℤ

abbrev pub add_found : Option Receipt → List Receipt → List Receipt
add_found none rs = rs
add_found (some r) rs = r ∷ rs

-- "Rebuild receipts for the block to generate proof"
unfoldable pub block_receipts : List String → Dict String Receipt → List Receipt
block_receipts [] d = []
block_receipts (tx_id ∷ ids) d = add_found (lookup tx_id d) (block_receipts ids d)

module _ (receipt_json : Receipt → Bytes) (sha3_256 : Bytes → Bytes)
    (get_block_by_index : ℤ → Option ReceiptBlock) where
  abbrev pub prove_in : String → Receipt → Option ReceiptBlock → Receipts → Option ReceiptProof
  prove_in tx_id r none s = none
  prove_in tx_id r (some b) s =
      elim (receipt_proof receipt_json sha3_256 (block_receipts b.tx_ids s.receipts) r.tx_index) [
        | none ↦ none
        | some path ↦ some (record {
          tx_id = tx_id;
          receipt = r;
          proof = hex_path path;
          receipts_root = b.receipts_root;
          block_index = r.block_index;
        })
      ]

  abbrev pub prove_receipt : String → Option Receipt → Receipts → Option ReceiptProof
  prove_receipt tx_id none s = none
  prove_receipt tx_id (some r) s = prove_in tx_id r (get_block_by_index r.block_index) s

  -- `get_receipt_proof`; a hash that is no hex would raise and gives `none` here too.
  unfoldable pub get_receipt_proof : String → Receipts → Option ReceiptProof
  get_receipt_proof tx_id s = prove_receipt tx_id (lookup tx_id s.receipts) s
